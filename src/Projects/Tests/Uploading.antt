-- ===== src/Projects/Tests/Uploading.antt =====
-- The contents of a draft after an upload to a small database.
use poc_la_graph.Base.{String, ◌≡◌, true, List, [], ◌∷◌, refl, ◌==◌, if◌then◌else◌}
use poc_la_graph.Base.Table.{first, select, update, count}
use poc_la_graph.Projects.Rows.{RowId, Database}
use poc_la_graph.Projects.Session.{after, succeeds}
use poc_la_graph.Projects.Uploads.{part_of, mark_part_uploaded}
use poc_la_graph.Projects.Uploads.Finalization.{finalize_session}
use poc_la_graph.Projects.Uploads.Finalized.{content_at, over}
use poc_la_graph.Projects.Uploads.Contents.{IsReady, finalize_session-contents}
use poc_la_graph.Projects.Tests.{opened, open_session, created_project}

marked : Database
unfolding opened mark_part_uploaded update
marked = after (mark_part_uploaded 6 "/tmp/6" 3) opened

abbrev blobs : List (RowId × String)
blobs = (6, "/blobs/30") ∷ []

marked-IsReady : IsReady 0 5 blobs 120 marked open_session created_project
unfolding marked open_session created_project first select count
marked-IsReady = record {
  upload_found = refl;
  project_found = refl;
  opened = refl;
  unexpired = refl;
  editable = refl;
  uploaded = refl;
  validated = refl;
}

finalize_session-contents_example :
    (succeeds (finalize_session 0 5 blobs 10 3 120) marked ≡ true)
    × (content_at 1 20 (after (finalize_session 0 5 blobs 10 3 120) marked).files ≡ (
        if 1 == open_session.snapshot_id
        then over 20 (select (part_of 5) marked.parts) (content_at 1 20 marked.files)
        else content_at 1 20 marked.files))
unfolding marked open_session first count
finalize_session-contents_example =
    finalize_session-contents 0 5 blobs 10 3 120 marked open_session created_project marked-IsReady
      refl 1 20
