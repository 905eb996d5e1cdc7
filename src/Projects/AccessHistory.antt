-- ===== src/Projects/AccessHistory.antt =====
-- Histories of the access to projects: every sequence of calls on memberships and access requests
-- (apps/api/app/projects/repository.py).
use poc_la_graph.Base.{String, Option, List, [], ◌∷◌}
use poc_la_graph.Projects.Rows.{RowId, Token, Time, Role, PrincipalType, Database}
use poc_la_graph.Projects.Session.{after}
use poc_la_graph.Projects.Access.{add_memberships, update_membership, remove_membership}
use poc_la_graph.Projects.Access.Owners.{
  IsOwned, add_memberships-IsOwned, update_membership-IsOwned, remove_membership-IsOwned,
}
use poc_la_graph.Projects.Requests.{
  Decision, create_access_request, decide_access_request, cancel_access_request,
}
use poc_la_graph.Projects.Requests.Owners.{
  decide_access_request-IsOwned, create_access_request-memberships,
  cancel_access_request-memberships,
}

-- A call with its arguments: project, row, tenant and so on, in the order of the method.
pub data AccessCall : Type 0 where
  add : RowId → Token → List (PrincipalType × Token × String) → Role → Token → Time → AccessCall
  change_role : RowId → RowId → Token → Role → Token → Time → AccessCall
  remove : RowId → RowId → Token → Token → Time → AccessCall
  request : RowId → Token → Token → String → Option String → Time → AccessCall
  decide : RowId → RowId → Token → Decision → Option Role → Token → Time → AccessCall
  cancel : RowId → RowId → Token → Token → Time → AccessCall

pub perform : AccessCall → Database → Database
perform (add p tenant principals role actor now) =
    after (add_memberships p tenant principals role actor now)
perform (change_role p mid tenant role actor now) =
    after (update_membership p mid tenant role actor now)
perform (remove p mid tenant actor now) = after (remove_membership p mid tenant actor now)
perform (request p tenant requester name text now) =
    after (create_access_request p tenant requester name text now)
perform (decide p rid tenant decision role actor now) =
    after (decide_access_request p rid tenant decision role actor now)
perform (cancel p rid tenant requester now) =
    after (cancel_access_request p rid tenant requester now)

pub perform_all : List AccessCall → Database → Database
perform_all [] db = db
perform_all (c ∷ cs) db = perform_all cs (perform c db)

perform-IsOwned :
    (q : RowId) (c : AccessCall) (db : Database) → IsOwned q db → IsOwned q (perform c db)
unfolding perform
perform-IsOwned q (add p tenant principals role actor now) db h =
    add_memberships-IsOwned q p tenant principals role actor now db h
perform-IsOwned q (change_role p mid tenant role actor now) db h =
    update_membership-IsOwned q p mid tenant role actor now db h
perform-IsOwned q (remove p mid tenant actor now) db h =
    remove_membership-IsOwned q p mid tenant actor now db h
perform-IsOwned q (request p tenant requester name text now) db h =
    rw (create_access_request-memberships p tenant requester name text now db) h
perform-IsOwned q (decide p rid tenant decision role actor now) db h =
    decide_access_request-IsOwned q p rid tenant decision role actor now db h
perform-IsOwned q (cancel p rid tenant requester now) db h =
    rw (cancel_access_request-memberships p rid tenant requester now db) h

-- A project that has an owner has one after any sequence of additions, role changes, removals,
-- requests, decisions and cancellations, in this project or in others, whether they succeed or not.
pub perform_all-IsOwned :
    (q : RowId) (cs : List AccessCall) (db : Database)
    → IsOwned q db
    → IsOwned q (perform_all cs db)
unfolding perform_all
perform_all-IsOwned q [] db h = h
perform_all-IsOwned q (c ∷ cs) db h =
    perform_all-IsOwned q cs (perform c db) (perform-IsOwned q c db h)
