-- ===== src/Projects/Files.antt =====
-- Draft files: `finalize_upload`, `list_files`, `delete_file`, `update_file_lifecycle`,
-- `snapshot_files` and `cleanup_expired_uploads` of apps/api/app/projects/repository.py.
-- The order of a listing by file name is the database's and is left out.
use poc_la_graph.Base.{
  ℕ, String, Bool, ◌&&◌, none, some, List, [], ◌∷◌, ◌==◌, ltb, if◌then◌else◌, any,
}
use poc_la_graph.Base.Table.{first, select, update, delete, count, latest}
use poc_la_graph.Projects.Rows.{
  RowId, Token, Time, UploadState, Lifecycle, BlobRow, SnapshotRow, SnapshotFileRow,
  UploadSessionRow, UploadPartRow, Operation, Database,
}
use poc_la_graph.Projects.Session.{
  Transaction, upload_not_found, project_conflict, ◌>>=◌, ◌>>◌, pure, gets, or_raise, modify,
  raise_if, is_locked, is_open, is_truthy, set_project, project_for_update, draft_of,
  idempotent_resource, write_audit, Call, keyed_call,
}
use poc_la_graph.Projects.Uploads.Finalization.{finalize_session, is_blob}

-- The files of the newest snapshot of the project.
unfoldable pub list_files : RowId → Transaction (List SnapshotFileRow)
list_files p = do
  snapshot ←
      or_raise
        (← gets (λ db.
          latest (λ s. s.created_at)
            (select (λ (s : SnapshotRow). s.project_id == p) db.snapshots)))
        (project_conflict "The project has no visible file snapshot")
  gets (λ db. select (λ f. f.snapshot_id == snapshot.id) db.files)

unfoldable pub finalize_upload :
    RowId → RowId → List (RowId × String) → Token → Token → Time → Call (List SnapshotFileRow)
unfolding finalize_session list_files idempotent_resource
finalize_upload p sid blobs subject key now =
    keyed_call subject (Operation.finalize_upload sid) key (λ _. list_files p)
      (finalize_session p sid blobs subject key now) (λ _. list_files p)

abbrev is_file_at : RowId → RowId → SnapshotFileRow → Bool
is_file_at s fid f = f.id == fid && f.snapshot_id == s

unfoldable pub delete_file : RowId → RowId → Token → Time → Transaction (Unit {0})
delete_file p fid subject now = do
  project ← project_for_update p
  raise_if (is_locked project.state) (project_conflict "The project draft is not editable")
  draft ← draft_of p
  rowcount ← gets (λ db. count (is_file_at draft.id fid) db.files)
  raise_if (rowcount == 0) (upload_not_found fid)
  modify (λ db. record db { files = delete (is_file_at draft.id fid) db.files })
  set_project p (λ row. record row { updated_at = now })
  write_audit p subject "draft.file_deleted" now []

unfoldable pub update_file_lifecycle : RowId → Lifecycle → ℕ → Transaction (Unit {0})
update_file_lifecycle s phase percent = modify (λ db. record db {
  files =
      update (λ f. f.snapshot_id == s)
        (λ f. record f {
          lifecycle_status = phase;
          progress_percent = some percent;
          error_code = none;
        })
        db.files;
})

-- The inner join of the snapshot's files with their blobs.
abbrev with_paths : List BlobRow → List SnapshotFileRow → List (SnapshotFileRow × String)
with_paths blobs [] = []
with_paths blobs (f ∷ fs) =
    let rest = with_paths blobs fs in
    elim (first (is_blob f.project_id f.sha256) blobs) [
      | none ↦ rest
      | some b ↦ (f, b.storage_path) ∷ rest
    ]

unfoldable pub snapshot_files : RowId → Database → List (SnapshotFileRow × String)
snapshot_files s db = with_paths db.blobs (select (λ f. f.snapshot_id == s) db.files)

abbrev is_overdue : Time → UploadSessionRow → Bool
is_overdue now u = is_open u.state && ltb u.expires_at now

-- The parts of the overdue sessions, in the join of the two tables.
abbrev overdue_part : Time → List UploadSessionRow → UploadPartRow → Bool
overdue_part now uploads part = any (λ u. u.id == part.session_id && is_overdue now u) uploads

abbrev temp_paths : List UploadPartRow → List String
temp_paths [] = []
temp_paths (u ∷ us) =
    let rest = temp_paths us in
    elim u.temp_path [
      | none ↦ rest
      | some path ↦ if is_truthy (some path) then path ∷ rest else rest
    ]

unfoldable pub cleanup_expired_uploads : Time → Transaction (List String)
cleanup_expired_uploads now = do
  rows ← gets (λ db. select (overdue_part now db.uploads) db.parts)
  modify (λ db. record db {
    uploads = update (is_overdue now) (λ u. record u { state = UploadState.expired }) db.uploads;
  })
  pure (temp_paths rows)
