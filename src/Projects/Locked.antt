-- ===== src/Projects/Locked.antt =====
-- The methods of apps/api/app/projects/repository.py that edit a draft, on a project that is queued,
-- building or archived.
use poc_la_graph.Base.{ℕ, ◌≡◌, String, true, some, List, arith}
use poc_la_graph.Base.Table.{first}
use poc_la_graph.Projects.Rows.{RowId, Token, Time, ProjectRow, Database, UploadFileDeclaration}
use poc_la_graph.Projects.Session.{after, has_id, is_locked, project_for_update}
use poc_la_graph.Projects.Uploads.{create_upload_session}
use poc_la_graph.Projects.Files.{finalize_upload, delete_file}
use poc_la_graph.Projects.Builds.{submit_build}

module _ (p : RowId) (db : Database) (project : ProjectRow)
    (known : first (has_id p) db.projects ≡ some project)
    (locked : is_locked project.state ≡ true) where
  create_upload_session_locked :
      (declarations : List UploadFileDeclaration) (subject key : Token) (ttl : ℕ) (now : Time)
      → (create_upload_session p declarations subject key ttl now db).1 ≡ db
  unfolding create_upload_session project_for_update
  create_upload_session_locked declarations subject key ttl now = ground arith

  finalize_upload_locked :
      (sid : RowId) (blobs : List (RowId × String)) (subject key : Token) (now : Time)
      → (finalize_upload p sid blobs subject key now db).1 ≡ db
  unfolding finalize_upload project_for_update
  finalize_upload_locked sid blobs subject key now = ground arith

  delete_file_locked :
      (fid : RowId) (subject : Token) (now : Time) → after (delete_file p fid subject now) db ≡ db
  unfolding delete_file project_for_update
  delete_file_locked fid subject now = ground arith

  submit_build_locked :
      (subject key : Token) (now : Time) → (submit_build p subject key now db).1 ≡ db
  unfolding submit_build project_for_update
  submit_build_locked subject key now = ground arith

-- In a project that is queued, building or archived, creating and finalizing an upload session,
-- deleting a draft file and submitting a build leave the whole database as it was.
pub locked_frozen :
    (p : RowId) (db : Database) (project : ProjectRow)
    → first (has_id p) db.projects ≡ some project
    → is_locked project.state ≡ true
    → (declarations : List UploadFileDeclaration) (sid fid : RowId) (blobs : List (RowId × String))
      (subject key : Token) (ttl : ℕ) (now : Time)
    → ((create_upload_session p declarations subject key ttl now db).1 ≡ db)
      × ((finalize_upload p sid blobs subject key now db).1 ≡ db)
      × (after (delete_file p fid subject now) db ≡ db)
      × ((submit_build p subject key now db).1 ≡ db)
locked_frozen p db project known locked declarations sid fid blobs subject key ttl now = (
  create_upload_session_locked p db project known locked declarations subject key ttl now,
  finalize_upload_locked p db project known locked sid blobs subject key now,
  delete_file_locked p db project known locked fid subject now,
  submit_build_locked p db project known locked subject key now,
)
