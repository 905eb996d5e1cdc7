-- ===== src/Projects/Retry.antt =====
-- The methods of apps/api/app/projects/repository.py that take an idempotency key: a call that is
-- repeated under its key.
use poc_la_graph.Base.{
  ℕ, ◌≡◌, refl, String, Bool, true, Option, none, some, List, [], ◌∷◌, ◌++◌, arith, inl, inr,
  Option-cases, suc, ◌+◌,
}
use poc_la_graph.Base.Table.{first, latest, select}
use poc_la_graph.Projects.Rows.{
  RowId, Token, Time, Operation, IdempotencyRow, Database, UploadFileDeclaration, same_operation,
  BuildJobRow, ProjectRow, UploadSessionRow, UploadState,
}
use poc_la_graph.Projects.Session.{
  Transaction, ok, after, keyed_call, is_record_of, remember, idempotent_resource,
  project_for_update, draft_of, write_audit, Result-cases, has_id, is_draft_of,
}
use poc_la_graph.Projects.Registry.{get_project, new_project, create_project}
use poc_la_graph.Projects.Uploads.{
  get_upload_session, new_upload_session, create_upload_session, add_parts,
}
use poc_la_graph.Projects.Builds.{get_build, new_build, submit_build}
use poc_la_graph.Projects.Uploads.Parts.{add_parts_frame}

-- The record that a call leaves is the one that a retry finds.
first-append_new {ℓ} :
    {A : Type ℓ} (p : A → Bool) (x : A) (xs : List A)
    → first p xs ≡ none
    → p x ≡ true
    → first p (xs ++ x ∷ []) ≡ some x
unfolding first
first-append_new p x [] e h = ground arith
first-append_new p x (y ∷ ys) e h = ground (arith, first-append_new p x ys)

same_operation_refl : (operation : Operation) → same_operation operation operation ≡ true
same_operation_refl Operation.create_project = refl
same_operation_refl (Operation.create_upload_session p) = ground arith
same_operation_refl (Operation.finalize_upload s) = ground arith
same_operation_refl (Operation.submit_build p) = ground arith

-- After `_remember` the resource is found under its key.
remember-found :
    (actor : Token) (operation : Operation) (key : Token) (resource : RowId) (now : Time)
    (db db' : Database)
    → remember actor operation key resource now db ≡ ok (tt, db')
    → idempotent_resource actor operation key db' ≡ ok (some resource, db')
unfolding remember idempotent_resource
remember-found actor operation key resource now db db' e =
    let row : IdempotencyRow = record {
      id = db.next_id;
      actor_subject = actor;
      operation = operation;
      key = key;
      resource_id = resource;
      created_at = now;
    } in
    elim (Option-cases (first (is_record_of actor operation key) db.idempotency)) [
      | inl new ↦ ground (
        arith,
        first-append_new (is_record_of actor operation key) row db.idempotency,
        same_operation_refl operation,
      )
      | inr (old, known) ↦ ground arith
    ]

-- Work that records its resource under the key.
abbrev Records : Token → Operation → Token → Transaction RowId → Type 0
Records actor operation key work =
    (db db' : Database) (r : RowId)
    → work db ≡ ok (r, db')
    → idempotent_resource actor operation key db' ≡ ok (some r, db')

module _ {B : Type 0} (actor : Token) (operation : Operation) (key : Token)
    (read : RowId → Transaction B)
    (reads : (r : RowId) (x : B) (db db' : Database) → read r db ≡ ok (x, db') → db' ≡ db) where
  keyed_call-retry :
      (work work' : Transaction RowId)
      → Records actor operation key work
      → (db : Database) (x : B) → (keyed_call actor operation key read work read db).0 ≡ ok x
      → let db' = (keyed_call actor operation key read work read db).1 in
        keyed_call actor operation key read work' read db' ≡ (ok x, db')
  unfolding idempotent_resource
  keyed_call-retry work work' records db x e =
      elim (Option-cases (first (is_record_of actor operation key) db.idempotency)) [
        | inr (row, known) ↦ elim (Result-cases (read row.resource_id db)) [
          | inl (y, db1, found) ↦ ground (arith, reads row.resource_id y db db1)
          | inr (error, failed) ↦ ground arith
        ]
        | inl new ↦ elim (Result-cases (work db)) [
          | inr (error, failed) ↦ ground arith
          | inl (r, db1, done) ↦ elim (Result-cases (read r db1)) [
            | inr (error, failed) ↦ ground arith
            | inl (y, db2, found) ↦ ground (arith, reads r y db1 db2, records db db1 r)
          ]
        ]
      ]

-- The record that `_remember` writes.
abbrev record_of : RowId → Token → Operation → Token → RowId → Time → IdempotencyRow
record_of id actor operation key resource now = record {
  id = id;
  actor_subject = actor;
  operation = operation;
  key = key;
  resource_id = resource;
  created_at = now;
}

new_build-Records :
    (p : RowId) (subject key : Token) (now : Time)
    → Records subject (Operation.submit_build p) key (new_build p subject key now)
unfolding new_build idempotent_resource project_for_update draft_of remember write_audit
new_build-Records p subject key now db db' r e =
    elim (Option-cases
      (first (is_record_of subject (Operation.submit_build p) key) db.idempotency)) [
        | inr (old, known) ↦ ground arith
        | inl new ↦ ground (
          arith,
          first-append_new (is_record_of subject (Operation.submit_build p) key)
              (record_of (suc db.next_id) subject (Operation.submit_build p) key db.next_id now)
              db.idempotency,
        )
      ]

get_build-reads :
    (p r : RowId) (x : BuildJobRow) (db db' : Database) → get_build p r db ≡ ok (x, db') → db' ≡ db
unfolding get_build
get_build-reads p r x db db' e = ground arith

-- A submission that succeeded, repeated under its key at any later time with no call in between,
-- returns the same job and changes nothing.
pub submit_build-retry :
    (p : RowId) (subject key : Token) (now later : Time) (db : Database) (job : BuildJobRow)
    → (submit_build p subject key now db).0 ≡ ok job
    → let db' = (submit_build p subject key now db).1 in
      submit_build p subject key later db' ≡ (ok job, db')
unfolding submit_build
submit_build-retry p subject key now later db job e =
    keyed_call-retry subject (Operation.submit_build p) key (get_build p) (get_build-reads p) _ _
      (new_build-Records p subject key now) db job e

new_project-Records :
    (name : String) (description : Option String) (subject : Token) (username : String)
    (tenant key : Token) (now : Time)
    → Records subject Operation.create_project key
        (new_project name description subject username tenant key now)
unfolding new_project idempotent_resource remember write_audit
new_project-Records name description subject username tenant key now db db' r e =
    elim (Option-cases (first (is_record_of subject Operation.create_project key) db.idempotency)) [
      | inr (old, known) ↦ ground arith
      | inl new ↦ ground (
        arith,
        first-append_new (is_record_of subject Operation.create_project key)
            (record_of (suc (suc (suc db.next_id))) subject Operation.create_project key db.next_id
              now)
            db.idempotency,
      )
    ]

get_project-reads :
    (r : RowId) (x : ProjectRow) (db db' : Database)
    → get_project r true db ≡ ok (x, db')
    → db' ≡ db
unfolding get_project
get_project-reads r x db db' e = ground arith

-- A creation that succeeded, repeated under its key with other details, returns the project of the
-- first call and changes nothing.
pub create_project-retry :
    (name name' : String) (description description' : Option String) (subject : Token)
    (username username' : String) (tenant tenant' key : Token) (now later : Time) (db : Database)
    (project : ProjectRow)
    → (create_project name description subject username tenant key now db).0 ≡ ok project
    → let db' = (create_project name description subject username tenant key now db).1 in
      create_project name' description' subject username' tenant' key later db' ≡ (ok project, db')
unfolding create_project
create_project-retry name name' description description' subject username username' tenant tenant'
      key now later db project e =
    keyed_call-retry subject Operation.create_project key (λ p. get_project p true)
      get_project-reads _ _ (new_project-Records name description subject username tenant key now)
      db project e

new_upload_session-Records :
    (p : RowId) (declarations : List UploadFileDeclaration) (subject key : Token) (ttl : ℕ)
    (now : Time)
    → Records subject
        (Operation.create_upload_session p)
        key
        (new_upload_session p declarations subject key ttl now)
unfolding new_upload_session idempotent_resource project_for_update draft_of remember write_audit
new_upload_session-Records p declarations subject key ttl now db db' r e =
    elim (Option-cases (first (has_id p) db.projects)) [
      | inl missing ↦ ground arith
      | inr (project, f) ↦
          elim (Option-cases (latest (λ s. s.created_at) (select (is_draft_of p) db.snapshots))) [
            | inl missing ↦ ground arith
            | inr (draft, g) ↦
                let upload : UploadSessionRow = record {
                  id = db.next_id;
                  project_id = p;
                  snapshot_id = draft.id;
                  created_by = subject;
                  state = UploadState.opened;
                  created_at = now;
                  expires_at = now + ttl;
                } in
                let mid : Database = record db {
                  uploads = db.uploads ++ upload ∷ [];
                  next_id = suc db.next_id;
                } in
                let test = is_record_of subject (Operation.create_upload_session p) key in
                elim (Option-cases (first test db.idempotency)) [
                  | inr (old, known) ↦ ground (arith, add_parts_frame db.next_id declarations mid)
                  | inl new ↦ ground (
                    arith,
                    add_parts_frame db.next_id declarations mid,
                    first-append_new test
                        (record_of (after (add_parts db.next_id declarations) mid).next_id subject
                          (Operation.create_upload_session p) key db.next_id now)
                        db.idempotency,
                  )
                ]
          ]
    ]

get_upload_session-reads :
    (p r : RowId) (x : UploadSessionRow) (db db' : Database)
    → get_upload_session p r db ≡ ok (x, db')
    → db' ≡ db
unfolding get_upload_session
get_upload_session-reads p r x db db' e = ground arith

-- The creation of an upload session that succeeded, repeated under its key with any declarations,
-- returns the same session and changes nothing.
pub create_upload_session-retry :
    (p : RowId) (declarations declarations' : List UploadFileDeclaration) (subject key : Token)
    (ttl : ℕ) (now later : Time) (db : Database) (upload : UploadSessionRow)
    → (create_upload_session p declarations subject key ttl now db).0 ≡ ok upload
    → let db' = (create_upload_session p declarations subject key ttl now db).1 in
      create_upload_session p declarations' subject key ttl later db' ≡ (ok upload, db')
unfolding create_upload_session
create_upload_session-retry p declarations declarations' subject key ttl now later db upload e =
    keyed_call-retry subject (Operation.create_upload_session p) key (get_upload_session p)
      (get_upload_session-reads p) _ _
      (new_upload_session-Records p declarations subject key ttl now) db upload e
