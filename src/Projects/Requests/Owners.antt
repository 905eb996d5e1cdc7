-- ===== src/Projects/Requests/Owners.antt =====
-- The owners of a project through the operations on access requests of
-- apps/api/app/projects/repository.py.
use poc_la_graph.Base.{◌≤◌, ◌≡◌, String, Option, none, some, [], ◌∷◌, arith, inl, inr, Option-cases}
use poc_la_graph.Base.Table.{first, modify_first, count, count-modify_first, count-append}
use poc_la_graph.Projects.Rows.{RowId, Token, Time, Role, PrincipalType, Database}
use poc_la_graph.Projects.Session.{ok, after, write_audit}
use poc_la_graph.Projects.Access.{is_membership_of, owns}
use poc_la_graph.Projects.Access.Owners.{IsOwned}
use poc_la_graph.Projects.Requests.{
  Decision, approved, denied, decided, request_at, grant_role, apply_grant, decide_access_request,
  create_access_request, cancel_access_request,
}

-- A grant never fails, and a grant to an owner leaves the owner's role alone.
pub grant_role_total :
    (p : RowId) (tenant requester : Token) (name : String) (role : Role) (actor : Token)
    (now : Time) (db : Database)
    → grant_role p tenant requester name role actor now db
      ≡ ok (tt, after (grant_role p tenant requester name role actor now) db)
unfolding grant_role
grant_role_total p tenant requester name role actor now db =
    elim (Option-cases (first (is_membership_of p PrincipalType.user requester) db.memberships)) [
      | inl new ↦ ground arith
      | inr (m, found) ↦ ground arith
    ]

pub grant_role-owners :
    (q p : RowId) (tenant requester : Token) (name : String) (role : Role) (actor : Token)
    (now : Time) (db : Database)
    → count (owns q) db.memberships
      ≤ count (owns q) (after (grant_role p tenant requester name role actor now) db).memberships
unfolding grant_role count
grant_role-owners q p tenant requester name role actor now db =
    elim (Option-cases (first (is_membership_of p PrincipalType.user requester) db.memberships)) [
      | inl new ↦ ground (
        arith,
        count-append (owns q) db.memberships (
            record {
              id = db.next_id;
              tenant_id = tenant;
              project_id = p;
              principal_type = PrincipalType.user;
              principal_id = requester;
              display_name = name;
              role = role;
              created_by = actor;
              created_at = now;
              updated_at = now;
            }
            ∷ []),
      )
      | inr (m, found) ↦ ground (
        arith,
        count-modify_first (owns q) (is_membership_of p PrincipalType.user requester)
            (λ n. record n { role = role; updated_at = now }) db.memberships m found,
      )
    ]

pub decide_access_request-IsOwned :
    (q p rid : RowId) (tenant : Token) (decision : Decision) (role : Option Role) (actor : Token)
    (now : Time) (db : Database)
    → IsOwned q db
    → IsOwned q (after (decide_access_request p rid tenant decision role actor now) db)
unfolding decide_access_request write_audit apply_grant
decide_access_request-IsOwned q p rid tenant denied role actor now db h = ground arith
decide_access_request-IsOwned q p rid tenant approved none actor now db h = ground arith
decide_access_request-IsOwned q p rid tenant approved (some role) actor now db h =
    elim (Option-cases (first (request_at p rid tenant) db.requests)) [
      | inl missing ↦ ground arith
      | inr (r, found) ↦
          let db' : Database = record db {
            requests =
                modify_first (request_at p rid tenant) (decided approved (some role) actor now)
                  db.requests;
          } in
          ground (
            arith,
            grant_role_total p tenant r.requester_id r.requester_name role actor now db',
            grant_role-owners q p tenant r.requester_id r.requester_name role actor now db',
          )
    ]

pub create_access_request-memberships :
    (p : RowId) (tenant requester : Token) (name : String) (text : Option String) (now : Time)
    (db : Database)
    → (after (create_access_request p tenant requester name text now) db).memberships
      ≡ db.memberships
unfolding create_access_request write_audit
create_access_request-memberships p tenant requester name text now db = ground arith

pub cancel_access_request-memberships :
    (p rid : RowId) (tenant requester : Token) (now : Time) (db : Database)
    → (after (cancel_access_request p rid tenant requester now) db).memberships ≡ db.memberships
unfolding cancel_access_request write_audit
cancel_access_request-memberships p rid tenant requester now db = ground arith
