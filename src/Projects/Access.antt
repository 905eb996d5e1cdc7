-- ===== src/Projects/Access.antt =====
-- Memberships and access requests: `access_decision`, `add_memberships`, `update_membership`,
-- `remove_membership`, `create_access_request`, `decide_access_request` and
-- `cancel_access_request` of apps/api/app/projects/repository.py. The listings that some of them
-- return are reads outside the transaction and are left out.
pub mod Owners
pub mod Decision
use poc_la_graph.Base.{
  String, Bool, not, ◌&&◌, ◌||◌, none, some, List, [], ◌∷◌, ◌==◌, ltb, if◌then◌else◌, any,
}
use poc_la_graph.Base.Table.{first, select, count, modify_first, delete_first}
use poc_la_graph.Projects.Rows.{
  RowId, Token, Time, Role, PrincipalType, MembershipRow, ProjectRow, AccessDecision, role_rank,
}
use poc_la_graph.Projects.Session.{
  Transaction, project_not_found, project_conflict, authorization, integrity, ◌>>=◌, ◌>>◌, pure,
  raise, gets, or_raise, modify, raise_if, uuid4, is_user, same_type, is_owner, insert_unique,
  project_for_update, write_audit,
}

abbrev pub role_text : Role → String
role_text Role.viewer = "viewer"
role_text Role.contributor = "contributor"
role_text Role.manager = "manager"
role_text Role.owner = "owner"

abbrev pub in_tenant : RowId → Token → ProjectRow → Bool
in_tenant p tenant row = row.id == p && row.tenant_id == tenant

-- The rows that grant the subject access: its own, and those of its groups.
abbrev pub grants : RowId → Token → Token → List Token → MembershipRow → Bool
grants p tenant subject group_ids m =
    m.project_id == p
    && m.tenant_id == tenant
    && ((is_user m.principal_type && m.principal_id == subject)
        || (not (is_user m.principal_type) && any (λ g. m.principal_id == g) group_ids))

-- Python's `max(origins, key=rank)`: the first of the rows with the greatest rank.
abbrev higher : MembershipRow → MembershipRow → MembershipRow
higher best m = if ltb (role_rank best.role) (role_rank m.role) then m else best

unfoldable pub max_by_rank : MembershipRow → List MembershipRow → MembershipRow
max_by_rank best [] = best
max_by_rank best (m ∷ ms) = max_by_rank (higher best m) ms

-- The end of `access_decision`, on the rows found.
unfoldable pub decide_origins : RowId → Role → List MembershipRow → Transaction AccessDecision
decide_origins p minimum [] = raise (project_not_found p)
decide_origins p minimum (m ∷ ms) =
    let effective = (max_by_rank m ms).role in
    do
      raise_if (ltb (role_rank effective) (role_rank minimum)) authorization
      pure (record { effective_role = effective; origins = m ∷ ms })

unfoldable pub access_decision :
    RowId → Token → Token → List Token → Role → Transaction AccessDecision
access_decision p tenant subject group_ids minimum = do
  project ← or_raise (← gets (λ db. first (in_tenant p tenant) db.projects)) (project_not_found p)
  origins ← gets (λ db. select (grants p tenant subject group_ids) db.memberships)
  decide_origins p minimum origins

-- The membership of a principal in a project; also the table's unique constraint.
abbrev pub is_membership_of : RowId → PrincipalType → Token → MembershipRow → Bool
is_membership_of p ptype pid m =
    m.project_id == p && same_type m.principal_type ptype && m.principal_id == pid

unfoldable pub insert_membership :
    RowId → Token → PrincipalType → Token → String → Role → Token → Time → Transaction (Unit {0})
insert_membership p tenant ptype pid name role actor now = do
  id ← uuid4
  rows ← gets (λ db. db.memberships)
  rows' ←
      or_raise
        (insert_unique (is_membership_of p ptype pid)
          (record {
            id = id;
            tenant_id = tenant;
            project_id = p;
            principal_type = ptype;
            principal_id = pid;
            display_name = name;
            role = role;
            created_by = actor;
            created_at = now;
            updated_at = now;
          })
          rows)
        integrity
  modify (λ db. record db { memberships = rows' })

abbrev pub change_membership :
    (MembershipRow → Bool) → (MembershipRow → MembershipRow) → Transaction (Unit {0})
change_membership p f = modify (λ db. record db { memberships = modify_first p f db.memberships })

-- The body of the loop in `add_memberships`: a known principal keeps its role.
unfoldable pub add_principal :
    RowId → Token → PrincipalType → Token → String → Role → Token → Time → Transaction (Unit {0})
unfolding insert_membership
add_principal p tenant ptype pid name role actor now = do
  existing ← gets (λ db. first (is_membership_of p ptype pid) db.memberships)
  elim existing [
    | none ↦ insert_membership p tenant ptype pid name role actor now
    | some _ ↦
        change_membership (is_membership_of p ptype pid)
          (λ m. record m { display_name = name; updated_at = now })
  ]
  write_audit p actor "access.membership_added" now
      (("targetName", some name) ∷ ("role", some (role_text role)) ∷ [])

unfoldable pub add_principals :
    RowId
    → Token
    → List (PrincipalType × Token × String)
    → Role
    → Token
    → Time
    → Transaction (Unit {0})
add_principals p tenant [] role actor now = pure tt
add_principals p tenant ((ptype, pid, name) ∷ rest) role actor now =
    add_principal p tenant ptype pid name role actor now
    >> add_principals p tenant rest role actor now

unfoldable pub add_memberships :
    RowId
    → Token
    → List (PrincipalType × Token × String)
    → Role
    → Token
    → Time
    → Transaction (Unit {0})
add_memberships p tenant principals role actor now = do
  project ← project_for_update p
  raise_if (not (project.tenant_id == tenant)) (project_not_found p)
  add_principals p tenant principals role actor now

abbrev pub membership_at : RowId → RowId → Token → MembershipRow → Bool
membership_at p mid tenant m = m.id == mid && m.project_id == p && m.tenant_id == tenant

abbrev pub owns : RowId → MembershipRow → Bool
owns p m = m.project_id == p && is_owner m.role

-- The refusal that `update_membership` and `remove_membership` share: the row is an owner (and is
-- to be one no more), and the project has no other.
abbrev raise_if_final_owner : RowId → Bool → String → Transaction (Unit {0})
raise_if_final_owner p leaving message = do
  owners ← gets (λ db. count (owns p) db.memberships)
  raise_if (leaving && owners == 1) (project_conflict message)

unfoldable pub update_membership :
    RowId → RowId → Token → Role → Token → Time → Transaction MembershipRow
update_membership p mid tenant role actor now = do
  found ← gets (λ db. first (membership_at p mid tenant) db.memberships)
  row ← or_raise found (project_not_found mid)
  raise_if (is_owner role && not (is_user row.principal_type))
      (project_conflict "Groups cannot own projects")
  raise_if_final_owner p (is_owner row.role && not (is_owner role))
      "The final owner cannot be demoted"
  change_membership (membership_at p mid tenant) (λ m. record m { role = role; updated_at = now })
  write_audit p actor "access.role_changed" now
      (("targetName", some row.display_name) ∷ ("role", some (role_text role)) ∷ [])
  pure (record row { role = role; updated_at = now })

unfoldable pub remove_membership : RowId → RowId → Token → Token → Time → Transaction (Unit {0})
remove_membership p mid tenant actor now = do
  found ← gets (λ db. first (membership_at p mid tenant) db.memberships)
  row ← or_raise found (project_not_found mid)
  raise_if_final_owner p (is_owner row.role) "The final owner cannot be removed"
  modify
      (λ db. record db { memberships = delete_first (membership_at p mid tenant) db.memberships })
  write_audit p actor "access.membership_removed" now
      (("targetName", some row.display_name) ∷ ("role", some (role_text row.role)) ∷ [])
