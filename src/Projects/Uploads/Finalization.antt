-- ===== src/Projects/Uploads/Finalization.antt =====
-- The transaction of `finalize_upload` of apps/api/app/projects/repository.py: the parts of an upload
-- session become files of the draft.
use poc_la_graph.Base.{
  String, Bool, not, ◌&&◌, ◌||◌, Option, none, some, List, [], ◌∷◌, ◌++◌, ◌==◌, leb, if◌then◌else◌,
  any,
}
use poc_la_graph.Base.Table.{first, select, delete, modify_first}
use poc_la_graph.Projects.Rows.{
  RowId, Token, Time, UploadState, Lifecycle, BlobRow, SnapshotFileRow, UploadPartRow, Operation,
}
use poc_la_graph.Projects.Session.{
  Transaction, upload_not_found, project_conflict, integrity, ◌>>=◌, ◌>>◌, pure, gets, or_raise,
  modify, raise_if, uuid4, is_open, is_uploaded, set_project, insert_unique, project_for_update,
  remember, write_audit,
}
use poc_la_graph.Projects.Uploads.{upload_at, raise_if_locked, part_of}

-- `dict(blobs).get(part_id)`: of equal keys the last one holds.
abbrev pub blob_path : List (RowId × String) → RowId → Option String
blob_path [] part_id = none
blob_path ((k, path) ∷ rest) part_id = elim (blob_path rest part_id) [
  | some later ↦ some later
  | none ↦ if k == part_id then some path else none
]

abbrev pub is_blob : RowId → Token → BlobRow → Bool
is_blob p sha b = b.project_id == p && b.sha256 == sha

abbrev pub is_file_named : RowId → Token → SnapshotFileRow → Bool
is_file_named s name f = f.snapshot_id == s && f.logical_filename == name

-- A blob that is stored already is shared.
abbrev pub store_blob : RowId → UploadPartRow → String → Time → Transaction (Unit {0})
store_blob p part path now = modify (λ db. elim (first (is_blob p part.expected_sha256) db.blobs) [
  | some _ ↦ db
  | none ↦ record db {
    blobs =
        db.blobs
        ++ record {
          project_id = p;
          sha256 = part.expected_sha256;
          size = part.expected_size;
          storage_path = path;
          created_at = now;
        }
          ∷ [];
  }
])

-- A file under the name of an older one replaces it.
abbrev pub replace_file : RowId → RowId → UploadPartRow → Time → RowId → Transaction (Unit {0})
replace_file p s part now id = do
  rows ← gets (λ db. delete (is_file_named s part.logical_filename) db.files)
  rows' ←
      or_raise
        (insert_unique (is_file_named s part.logical_filename)
          (record {
            id = id;
            snapshot_id = s;
            project_id = p;
            logical_filename = part.logical_filename;
            media_type = part.media_type;
            size = part.expected_size;
            sha256 = part.expected_sha256;
            lifecycle_status = Lifecycle.uploaded;
            progress_percent = some 0;
            error_code = none;
            uploaded_at = some now;
          })
          rows)
        integrity
  modify (λ db. record db { files = rows' })

-- The body of the loop in `finalize_upload`.
unfoldable pub finalize_part :
    RowId → RowId → List (RowId × String) → Time → UploadPartRow → Transaction (Unit {0})
finalize_part p s blobs now part = do
  path ← or_raise (blob_path blobs part.id) (project_conflict "Upload validation is incomplete")
  store_blob p part path now
  id ← uuid4
  replace_file p s part now id

unfoldable pub finalize_parts :
    RowId → RowId → List (RowId × String) → Time → List UploadPartRow → Transaction (Unit {0})
unfolding finalize_part
finalize_parts p s blobs now [] = pure tt
finalize_parts p s blobs now (part ∷ rest) =
    finalize_part p s blobs now part >> finalize_parts p s blobs now rest

-- The transaction of `finalize_upload`.
unfoldable pub finalize_session :
    RowId → RowId → List (RowId × String) → Token → Token → Time → Transaction (Unit {0})
finalize_session p sid blobs subject key now = do
  found ← gets (λ db. first (upload_at p sid) db.uploads)
  upload ← or_raise found (upload_not_found sid)
  raise_if (not (is_open upload.state) || leb upload.expires_at now)
      (project_conflict "The upload session is not open")
  project ← project_for_update p
  raise_if_locked project
  parts ← gets (λ db. select (part_of sid) db.parts)
  raise_if (any (λ (u : UploadPartRow). not (is_uploaded u.state)) parts)
      (project_conflict "All upload parts must be uploaded")
  finalize_parts p upload.snapshot_id blobs now parts
  modify (λ db. record db {
    uploads =
        modify_first (upload_at p sid) (λ u. record u { state = UploadState.finalized }) db.uploads;
  })
  set_project p (λ row. record row { updated_at = now })
  remember subject (Operation.finalize_upload sid) key sid now
  write_audit p subject "upload.finalized" now []
