-- ===== src/Projects/Session.antt =====
-- The statements that every operation of apps/api/app/projects/repository.py shares:
-- `_project_for_update`, `_draft`, `_idempotent_resource`, `_remember` and `_audit`, and the shape
-- of the methods that take an idempotency key.
pub mod Monad
pub mod States
use poc_la_graph.Base.{
  suc, String, Bool, true, false, ◌&&◌, Option, none, some, List, [], ◌∷◌, ◌++◌, ◌==◌, ◌⊎◌, inl,
  inr, ◌≡◌, refl,
}
use poc_la_graph.Base.Table.{first, select, latest, modify_first}
use poc_la_graph.Projects.Rows.{
  RowId, Token, Time, Role, PrincipalType, ProjectState, SnapshotStatus, JobStatus, UploadState,
  PartState, RequestStatus, ProjectRow, SnapshotRow, Operation, same_operation, IdempotencyRow,
  Database,
}
pub use poc_la_graph.Projects.Session.Monad.{
  Error, Result, Transaction, ◌>>=◌, ◌>>◌, pure, raise, gets, or_raise, modify, raise_if, after,
  succeeds, uuid4, Result-cases, Call, commit, and_then,
}
pub use poc_la_graph.Projects.Session.Monad.{
  ok, err, project_not_found, upload_not_found, project_conflict, authorization, integrity,
}
pub use poc_la_graph.Projects.Session.States.{
  is_user, same_type, is_owner, is_locked, in_build, is_archived, is_editable, is_active, is_queued,
  is_building, is_open, is_uploaded, is_pending, is_truthy,
}

abbrev pub has_id : RowId → ProjectRow → Bool
has_id p row = row.id == p

-- `_project_for_update`
unfoldable pub project_for_update : RowId → Transaction ProjectRow
unfolding first
project_for_update p = do
  or_raise (← gets (λ db. first (has_id p) db.projects)) (project_not_found p)

abbrev pub is_draft_of : RowId → SnapshotRow → Bool
is_draft_of p s = s.project_id == p && is_editable s.status

-- `_draft`
unfoldable pub draft_of : RowId → Transaction SnapshotRow
draft_of p = do
  or_raise (← gets (λ db. latest (λ s. s.created_at) (select (is_draft_of p) db.snapshots)))
      (project_conflict "The project has no editable draft")

-- Assignments to the fields of the row that `_project_for_update` returned.
abbrev pub set_project : RowId → (ProjectRow → ProjectRow) → Transaction (Unit {0})
set_project p f = modify (λ db. record db { projects = modify_first (has_id p) f db.projects })

abbrev pub is_record_of : Token → Operation → Token → IdempotencyRow → Bool
is_record_of actor operation key row =
    row.actor_subject == actor && same_operation row.operation operation && row.key == key

-- `_idempotent_resource`, a session of its own.
unfoldable pub idempotent_resource : Token → Operation → Token → Transaction (Option RowId)
idempotent_resource actor operation key db = ok (
  elim (first (is_record_of actor operation key) db.idempotency) [
    | none ↦ none
    | some row ↦ some row.resource_id
  ],
  db,
)

-- The shape of the methods that take an idempotency key: the resource recorded under the key is
-- read, and else the work is done and its resource is read.
abbrev pub keyed_call :
    {A B : Type 0}
    → Token
    → Operation
    → Token
    → (RowId → Transaction B)
    → Transaction A
    → (A → Transaction B)
    → Call B
keyed_call actor operation key known work read =
    and_then (commit (idempotent_resource actor operation key)) λ prior. elim prior [
      | some resource ↦ commit (known resource)
      | none ↦ and_then (commit work) λ a. commit (read a)
    ]

-- INSERT under a unique constraint: a row that clashes raises the database's IntegrityError.
abbrev pub insert_unique : {A : Type 0} → (A → Bool) → A → List A → Option (List A)
insert_unique clash row rows = elim (first clash rows) [
  | none ↦ some (rows ++ row ∷ [])
  | some _ ↦ none
]

-- `_remember`, under the constraint on (actor_subject, operation, key).
unfoldable pub remember : Token → Operation → Token → RowId → Time → Transaction (Unit {0})
remember actor operation key resource now = do
  id ← uuid4
  rows ← gets (λ db. db.idempotency)
  rows' ←
      or_raise
        (insert_unique (is_record_of actor operation key)
          (record {
            id = id;
            actor_subject = actor;
            operation = operation;
            key = key;
            resource_id = resource;
            created_at = now;
          })
          rows)
        integrity
  modify (λ db. record db { idempotency = rows' })

-- `_audit`
unfoldable pub write_audit :
    RowId → Token → String → Time → List (String × Option String) → Transaction (Unit {0})
write_audit p actor action now details = do
  id ← uuid4
  modify (λ db. record db {
    audit =
        db.audit
        ++ record {
          id = id;
          project_id = p;
          actor_subject = actor;
          action = action;
          occurred_at = now;
          details = details;
        }
          ∷ [];
  })
