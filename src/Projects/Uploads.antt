-- ===== src/Projects/Uploads.antt =====
-- Upload sessions: `create_upload_session`, `get_upload_session`, `get_part` and
-- `mark_part_uploaded` of apps/api/app/projects/repository.py.
pub mod Finalization
pub mod Parts
pub mod Finalized
pub mod Contents
use poc_la_graph.Base.{
  ℕ, ◌+◌, String, Bool, not, ◌&&◌, ◌||◌, Option, none, some, List, [], ◌∷◌, ◌++◌, ◌==◌, leb,
  if◌then◌else◌, any,
}
use poc_la_graph.Base.Table.{first, select, update, delete, count, modify_first}
use poc_la_graph.Projects.Rows.{
  RowId, Token, Time, UploadState, PartState, Lifecycle, BlobRow, SnapshotFileRow, UploadSessionRow,
  UploadPartRow, ProjectRow, Operation, PartRecord, UploadFileDeclaration,
}
use poc_la_graph.Projects.Session.{
  Transaction, upload_not_found, project_conflict, integrity, ◌>>=◌, ◌>>◌, pure, gets, or_raise,
  modify, raise_if, uuid4, is_locked, is_open, is_uploaded, set_project, insert_unique,
  project_for_update, draft_of, idempotent_resource, remember, write_audit, Call, keyed_call,
}

abbrev pub upload_at : RowId → RowId → UploadSessionRow → Bool
upload_at p sid u = u.id == sid && u.project_id == p

abbrev pub part_of : RowId → UploadPartRow → Bool
part_of sid u = u.session_id == sid

unfoldable pub get_upload_session : RowId → RowId → Transaction UploadSessionRow
get_upload_session p sid = do
  or_raise (← gets (λ db. first (upload_at p sid) db.uploads)) (upload_not_found sid)

-- The loop over the declarations: one pending part for each.
unfoldable pub add_parts : RowId → List UploadFileDeclaration → Transaction (Unit {0})
add_parts sid [] = pure tt
add_parts sid (d ∷ ds) = do
  id ← uuid4
  modify (λ db. record db {
    parts =
        db.parts
        ++ record {
          id = id;
          session_id = sid;
          logical_filename = d.filename;
          media_type = d.media_type;
          expected_size = d.size;
          expected_sha256 = d.sha256;
          temp_path = none;
          received_size = none;
          state = PartState.pending;
        }
          ∷ [];
  })
  add_parts sid ds

abbrev pub raise_if_locked : ProjectRow → Transaction (Unit {0})
raise_if_locked project =
    raise_if (is_locked project.state) (project_conflict "The project draft is not editable")

-- The transaction of `create_upload_session`.
unfoldable pub new_upload_session :
    RowId → List UploadFileDeclaration → Token → Token → ℕ → Time → Transaction RowId
new_upload_session p declarations subject key ttl now = do
  project ← project_for_update p
  raise_if_locked project
  draft ← draft_of p
  sid ← uuid4
  modify (λ db. record db {
    uploads =
        db.uploads
        ++ record {
          id = sid;
          project_id = p;
          snapshot_id = draft.id;
          created_by = subject;
          state = UploadState.opened;
          created_at = now;
          expires_at = now + ttl;
        }
          ∷ [];
  })
  add_parts sid declarations
  remember subject (Operation.create_upload_session p) key sid now
  write_audit p subject "upload.created" now []
  pure sid

unfoldable pub create_upload_session :
    RowId → List UploadFileDeclaration → Token → Token → ℕ → Time → Call UploadSessionRow
unfolding new_upload_session get_upload_session idempotent_resource
create_upload_session p declarations subject key ttl now =
    keyed_call subject (Operation.create_upload_session p) key (get_upload_session p)
      (new_upload_session p declarations subject key ttl now) (get_upload_session p)

unfoldable pub get_part : RowId → RowId → RowId → Transaction PartRecord
unfolding get_upload_session
get_part p sid part_id = do
  upload ← get_upload_session p sid
  part ←
      or_raise (← gets (λ db. first (λ u. part_of sid u && u.id == part_id) db.parts))
        (upload_not_found part_id)
  pure (record {
    id = part.id;
    session_id = upload.id;
    project_id = upload.project_id;
    snapshot_id = upload.snapshot_id;
    filename = part.logical_filename;
    media_type = part.media_type;
    expected_size = part.expected_size;
    expected_sha256 = part.expected_sha256;
    state = part.state;
    temp_path = part.temp_path;
    expires_at = upload.expires_at;
  })

abbrev is_writable_part : RowId → UploadPartRow → Bool
is_writable_part part_id u = u.id == part_id && not (is_uploaded u.state)

-- The update counts its rows: no row means that the part is unknown or was uploaded already.
unfoldable pub mark_part_uploaded : RowId → String → ℕ → Transaction (Unit {0})
mark_part_uploaded part_id path size = do
  rowcount ← gets (λ db. count (is_writable_part part_id) db.parts)
  raise_if (rowcount == 0) (project_conflict "The upload part is no longer writable")
  modify (λ db. record db {
    parts =
        update (is_writable_part part_id)
          (λ u. record u {
            state = PartState.uploaded;
            temp_path = some path;
            received_size = some size;
          })
          db.parts;
  })
