-- ===== src/Projects/Access/Owners.antt =====
-- The owners of a project through the operations on memberships of
-- apps/api/app/projects/repository.py.
use poc_la_graph.Base.{◌≤◌, ◌≡◌, String, List, [], ◌∷◌, arith, inl, inr, Option-cases}
use poc_la_graph.Base.Table.{
  first, count, first_holds, count-modify_first, count-delete_first, count-append,
}
use poc_la_graph.Projects.Rows.{RowId, Token, Time, Role, PrincipalType, Database}
use poc_la_graph.Projects.Session.{ok, after, project_for_update, write_audit}
use poc_la_graph.Projects.Access.{
  is_membership_of, membership_at, owns, add_principal, add_principals, add_memberships,
  update_membership, remove_membership,
}

abbrev pub IsOwned : RowId → Database → Type 0
IsOwned q db = 1 ≤ count (owns q) db.memberships

pub update_membership-IsOwned :
    (q p mid : RowId) (tenant : Token) (role : Role) (actor : Token) (now : Time) (db : Database)
    → IsOwned q db
    → IsOwned q (after (update_membership p mid tenant role actor now) db)
unfolding update_membership write_audit
update_membership-IsOwned q p mid tenant role actor now db h =
    elim (Option-cases (first (membership_at p mid tenant) db.memberships)) [
      | inl missing ↦ ground arith
      | inr (m, found) ↦ ground (
        arith,
        first_holds (membership_at p mid tenant) db.memberships m found,
        count-modify_first (owns q) (membership_at p mid tenant)
            (λ n. record n { role = role; updated_at = now }) db.memberships m found,
      )
    ]

pub remove_membership-IsOwned :
    (q p mid : RowId) (tenant actor : Token) (now : Time) (db : Database)
    → IsOwned q db
    → IsOwned q (after (remove_membership p mid tenant actor now) db)
unfolding remove_membership write_audit
remove_membership-IsOwned q p mid tenant actor now db h =
    elim (Option-cases (first (membership_at p mid tenant) db.memberships)) [
      | inl missing ↦ ground arith
      | inr (m, found) ↦ ground (
        arith,
        first_holds (membership_at p mid tenant) db.memberships m found,
        count-delete_first (owns q) (membership_at p mid tenant) db.memberships m found,
      )
    ]

-- Adding one principal lowers no project's number of owners.
pub add_principal-owners :
    (q p : RowId) (tenant : Token) (ptype : PrincipalType) (pid : Token) (name : String)
    (role : Role) (actor : Token) (now : Time) (db : Database)
    → count (owns q) db.memberships
      ≤ count (owns q) (after (add_principal p tenant ptype pid name role actor now) db).memberships
unfolding add_principal write_audit count
add_principal-owners q p tenant ptype pid name role actor now db =
    elim (Option-cases (first (is_membership_of p ptype pid) db.memberships)) [
      | inl new ↦ ground (
        arith,
        count-append (owns q) db.memberships (
            record {
              id = db.next_id;
              tenant_id = tenant;
              project_id = p;
              principal_type = ptype;
              principal_id = pid;
              display_name = name;
              role = role;
              created_by = actor;
              created_at = now;
              updated_at = now;
            }
            ∷ []),
      )
      | inr (m, found) ↦ ground (
        arith,
        count-modify_first (owns q) (is_membership_of p ptype pid)
            (λ n. record n { display_name = name; updated_at = now }) db.memberships m found,
      )
    ]

-- The step never fails: the unique constraint is not met, since the principal was looked up first.
pub add_principal_total :
    (p : RowId) (tenant : Token) (ptype : PrincipalType) (pid : Token) (name : String) (role : Role)
    (actor : Token) (now : Time) (db : Database)
    → add_principal p tenant ptype pid name role actor now db
      ≡ ok (tt, after (add_principal p tenant ptype pid name role actor now) db)
unfolding add_principal write_audit
add_principal_total p tenant ptype pid name role actor now db =
    elim (Option-cases (first (is_membership_of p ptype pid) db.memberships)) [
      | inl new ↦ ground arith
      | inr (m, found) ↦ ground arith
    ]

-- Adding principals never fails, and lowers no project's number of owners.
pub add_principals-owners :
    (q p : RowId) (tenant : Token) (principals : List (PrincipalType × Token × String))
    (role : Role) (actor : Token) (now : Time) (db : Database)
    → count (owns q) db.memberships
      ≤ count (owns q) (after (add_principals p tenant principals role actor now) db).memberships
unfolding add_principals
add_principals-owners q p tenant [] role actor now db = omega arith
add_principals-owners q p tenant ((ptype, pid, name) ∷ rest) role actor now db = ground (
  arith,
  add_principal_total p tenant ptype pid name role actor now db,
  add_principal-owners q p tenant ptype pid name role actor now db,
  add_principals-owners q p tenant rest role actor now
      (after (add_principal p tenant ptype pid name role actor now) db),
)

pub add_memberships-IsOwned :
    (q p : RowId) (tenant : Token) (principals : List (PrincipalType × Token × String))
    (role : Role) (actor : Token) (now : Time) (db : Database)
    → IsOwned q db
    → IsOwned q (after (add_memberships p tenant principals role actor now) db)
unfolding add_memberships project_for_update
add_memberships-IsOwned q p tenant principals role actor now db h =
    ground (arith, add_principals-owners q p tenant principals role actor now db)
