-- ===== src/Projects/Uploads/Contents.antt =====
-- What a draft holds once an upload session is finalized
-- (`finalize_upload` of apps/api/app/projects/repository.py).
use poc_la_graph.Base.{
  ◌≡◌, ◌∙◌, ap, String, true, false, not, none, some, List, ◌==◌, arith, if◌then◌else◌, any, leb,
}
use poc_la_graph.Base.Table.{first, select}
use poc_la_graph.Projects.Rows.{
  RowId, Token, Time, UploadPartRow, UploadSessionRow, ProjectRow, Operation, Database,
}
use poc_la_graph.Projects.Session.{
  ok, after, succeeds, has_id, is_open, is_locked, is_uploaded, is_record_of, project_for_update,
  remember, write_audit,
}
use poc_la_graph.Projects.Session.Monad.{succeeds-after}
use poc_la_graph.Projects.Uploads.{upload_at, part_of}
use poc_la_graph.Projects.Uploads.Finalization.{finalize_parts, finalize_session}
use poc_la_graph.Projects.Uploads.Finalized.{
  content_at, over, all_paths, finalize_parts-succeeds, finalize_parts-files,
  finalize_parts-idempotency,
}

-- An open session of an editable project, whose parts are all uploaded and validated.
pub record IsReady (p sid : RowId) (blobs : List (RowId × String)) (now : Time) (db : Database)
    (upload : UploadSessionRow) (project : ProjectRow) : Type 0 where
  pub upload_found : first (upload_at p sid) db.uploads ≡ some upload
  pub project_found : first (has_id p) db.projects ≡ some project
  pub opened : is_open upload.state ≡ true
  pub unexpired : leb upload.expires_at now ≡ false
  pub editable : is_locked project.state ≡ false
  pub uploaded :
      any (λ (u : UploadPartRow). not (is_uploaded u.state)) (select (part_of sid) db.parts) ≡ false
  pub validated : all_paths blobs (select (part_of sid) db.parts) ≡ true

-- Finalizing a ready session under a new key succeeds. Under every name the draft then holds the
-- last of the session's parts with that name, or what it held before if there is none, and every
-- other snapshot holds what it held before.
pub finalize_session-contents :
    (p sid : RowId) (blobs : List (RowId × String)) (subject key : Token) (now : Time)
    (db : Database) (upload : UploadSessionRow) (project : ProjectRow)
    → IsReady p sid blobs now db upload project
    → first (is_record_of subject (Operation.finalize_upload sid) key) db.idempotency ≡ none
    → (s : RowId) (name : Token)
    → (succeeds (finalize_session p sid blobs subject key now) db ≡ true)
      × (content_at s name (after (finalize_session p sid blobs subject key now) db).files ≡ (
          if s == upload.snapshot_id
          then over name (select (part_of sid) db.parts) (content_at s name db.files)
          else content_at s name db.files))
unfolding finalize_session project_for_update remember write_audit
finalize_session-contents p sid blobs subject key now db upload project ready new s name =
    let parts = select (part_of sid) db.parts in
    let run = finalize_parts p upload.snapshot_id blobs now parts in
    let mid = after run db in
    let done : run db ≡ ok (tt, mid) =
      succeeds-after run db
        (finalize_parts-succeeds p upload.snapshot_id blobs now parts db ∙ ready.validated) in
    let files =
      finalize_parts-files p upload.snapshot_id blobs now parts db mid s name ready.validated
        done in
    let keys =
      finalize_parts-idempotency p upload.snapshot_id blobs now parts db mid ready.validated done in
    let fresh : first (is_record_of subject (Operation.finalize_upload sid) key) mid.idempotency
        ≡ none =
      rw keys new in
    let changed : (after (finalize_session p sid blobs subject key now) db).files ≡ mid.files =
      ground (
        arith, ready.upload_found, ready.project_found, ready.opened, ready.unexpired,
        ready.editable, ready.uploaded,
      ) in
    (
      ground (
        arith, ready.upload_found, ready.project_found, ready.opened, ready.unexpired,
        ready.editable, ready.uploaded,
      ),
      ap (content_at s name) changed ∙ files,
    )
