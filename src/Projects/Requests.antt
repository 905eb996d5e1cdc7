-- ===== src/Projects/Requests.antt =====
-- Access requests: `create_access_request`, `decide_access_request`, `cancel_access_request` and
-- `list_access_requests` of apps/api/app/projects/repository.py.
pub mod Owners
use poc_la_graph.Base.{
  String, Bool, true, false, not, ◌&&◌, Option, none, some, [], ◌∷◌, ◌++◌, ◌==◌, if◌then◌else◌,
}
use poc_la_graph.Base.Table.{first, modify_first}
use poc_la_graph.Projects.Rows.{
  RowId, Token, Time, Role, PrincipalType, RequestStatus, AccessRequestRow, role_rank,
}
use poc_la_graph.Projects.Session.{
  Transaction, project_not_found, project_conflict, ◌>>=◌, ◌>>◌, pure, raise, gets, or_raise,
  modify, raise_if, uuid4, is_owner, is_archived, is_pending, write_audit,
}
use poc_la_graph.Projects.Access.{
  role_text, in_tenant, is_membership_of, insert_membership, change_membership,
}

-- The `decision` of the API, the text `"approved"` or `"denied"`.
pub data Decision : Type 0 where
  approved denied : Decision

abbrev pub decided_status : Decision → RequestStatus
decided_status approved = RequestStatus.approved
decided_status denied = RequestStatus.denied

abbrev decision_text : Decision → String
decision_text approved = "access.request_approved"
decision_text denied = "access.request_denied"

-- `row.status == decision`
abbrev pub has_decision : RequestStatus → Decision → Bool
has_decision RequestStatus.approved approved = true
has_decision RequestStatus.denied denied = true
has_decision _ _ = false

-- `role if decision == "approved" else None`
abbrev pub granted_role : Decision → Option Role → Option Role
granted_role approved role = role
granted_role denied role = none

abbrev same_role : Option Role → Option Role → Bool
same_role none none = true
same_role (some r) (some s) = role_rank r == role_rank s
same_role _ _ = false

abbrev pub is_pending_of : RowId → Token → AccessRequestRow → Bool
is_pending_of p requester r =
    r.project_id == p && r.requester_id == requester && is_pending r.status

abbrev pub request_at : RowId → RowId → Token → AccessRequestRow → Bool
request_at p rid tenant r = r.id == rid && r.project_id == p && r.tenant_id == tenant

abbrev change_request :
    (AccessRequestRow → Bool) → (AccessRequestRow → AccessRequestRow) → Transaction (Unit {0})
change_request p f = modify (λ db. record db { requests = modify_first p f db.requests })

abbrev new_request :
    RowId → Token → Token → String → Option String → Time → Transaction AccessRequestRow
new_request p tenant requester requester_name note now = do
  id ← uuid4
  let row : AccessRequestRow = record {
    id = id;
    tenant_id = tenant;
    project_id = p;
    requester_id = requester;
    requester_name = requester_name;
    note = note;
    status = RequestStatus.pending;
    reviewed_by = none;
    decided_role = none;
    created_at = now;
    decided_at = none;
  }
  modify (λ db. record db { requests = db.requests ++ row ∷ [] })
  write_audit p requester "access.requested" now (("targetName", some requester_name) ∷ [])
  pure row

-- A pending request of the same requester is returned as it is.
unfoldable pub create_access_request :
    RowId → Token → Token → String → Option String → Time → Transaction AccessRequestRow
create_access_request p tenant requester requester_name note now = do
  project ←
      or_raise
        (← gets
          (λ db. first (λ row. in_tenant p tenant row && not (is_archived row.state)) db.projects))
        (project_not_found p)
  existing ← gets (λ db. first (is_pending_of p requester) db.requests)
  elim existing [
    | some row ↦ pure row
    | none ↦ new_request p tenant requester requester_name note now
  ]

-- The membership that an approval grants: a new one, or the requester's with the role, unless it
-- is an owner's.
unfoldable pub grant_role :
    RowId → Token → Token → String → Role → Token → Time → Transaction (Unit {0})
unfolding insert_membership
grant_role p tenant requester requester_name role actor now = do
  existing ← gets (λ db. first (is_membership_of p PrincipalType.user requester) db.memberships)
  elim existing [
    | none ↦ insert_membership p tenant PrincipalType.user requester requester_name role actor now
    | some m ↦
        if is_owner m.role
        then pure tt
        else change_membership (is_membership_of p PrincipalType.user requester)
            (λ n. record n { role = role; updated_at = now })
  ]

-- `if decision == "approved" and role:`
unfoldable pub apply_grant :
    RowId → Token → AccessRequestRow → Option Role → Token → Time → Transaction (Unit {0})
unfolding grant_role
apply_grant p tenant row none actor now = pure tt
apply_grant p tenant row (some role) actor now =
    grant_role p tenant row.requester_id row.requester_name role actor now

abbrev role_detail : Option Role → Option String
role_detail none = none
role_detail (some role) = some (role_text role)

abbrev decided : Decision → Option Role → Token → Time → AccessRequestRow → AccessRequestRow
decided decision role actor now r = record r {
  status = decided_status decision;
  reviewed_by = some actor;
  decided_role = granted_role decision role;
  decided_at = some now;
}

abbrev decide_pending :
    RowId
    → RowId
    → Token
    → Decision
    → Option Role
    → Token
    → Time
    → AccessRequestRow
    → Transaction AccessRequestRow
decide_pending p rid tenant decision role actor now row = do
  change_request (request_at p rid tenant) (decided decision role actor now)
  apply_grant p tenant row (granted_role decision role) actor now
  write_audit p actor (decision_text decision) now
      (("targetName", some row.requester_name) ∷ ("role", role_detail role) ∷ [])
  pure (decided decision role actor now row)

-- A request that is decided already is returned if the decision is the same, and refused if not.
abbrev settle_request :
    RowId
    → RowId
    → Token
    → Decision
    → Option Role
    → Token
    → Time
    → AccessRequestRow
    → Transaction AccessRequestRow
settle_request p rid tenant decision role actor now row =
    if is_pending row.status
    then decide_pending p rid tenant decision role actor now row
    else if has_decision row.status decision
        && same_role row.decided_role (granted_role decision role)
    then pure row
    else raise (project_conflict "The access request is already decided")

unfoldable pub decide_access_request :
    RowId → RowId → Token → Decision → Option Role → Token → Time → Transaction AccessRequestRow
decide_access_request p rid tenant decision role actor now = do
  found ← gets (λ db. first (request_at p rid tenant) db.requests)
  row ← or_raise found (project_not_found rid)
  settle_request p rid tenant decision role actor now row

abbrev pub own_request_at : RowId → RowId → Token → Token → AccessRequestRow → Bool
own_request_at p rid tenant requester r = request_at p rid tenant r && r.requester_id == requester

unfoldable pub cancel_access_request : RowId → RowId → Token → Token → Time → Transaction (Unit {0})
cancel_access_request p rid tenant requester now = do
  found ← gets (λ db. first (own_request_at p rid tenant requester) db.requests)
  row ← or_raise found (project_not_found rid)
  raise_if (not (is_pending row.status)) (project_conflict "Only pending requests can be cancelled")
  change_request (own_request_at p rid tenant requester)
      (λ r. record r { status = RequestStatus.cancelled; decided_at = some now })
  write_audit p requester "access.request_cancelled" now
      (("targetName", some row.requester_name) ∷ [])
