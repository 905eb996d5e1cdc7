-- ===== src/Projects/Builds/Completion.antt =====
-- How a build ends: `complete_build` and `fail_build` of apps/api/app/projects/repository.py.
use poc_la_graph.Base.{ℕ, ◌+◌, String, Bool, not, ◌&&◌, none, some, List, [], ◌∷◌, ◌++◌, ◌==◌}
use poc_la_graph.Base.Table.{first, select, update, modify_first}
use poc_la_graph.Projects.Rows.{
  RowId, Time, ProjectState, SnapshotStatus, JobStatus, Lifecycle, SnapshotRow, SnapshotFileRow,
  BuildJobRow, ProjectRow, Database, BuildRecord,
}
use poc_la_graph.Projects.Session.{
  Transaction, project_conflict, integrity, ◌>>=◌, ◌>>◌, pure, gets, or_raise, modify, raise_if,
  uuid4, is_active, is_building, has_id, set_project, insert_unique, project_for_update,
  write_audit,
}
use poc_la_graph.Projects.Uploads.Finalization.{is_file_named}
use poc_la_graph.Projects.Registry.{state_without_build}
use poc_la_graph.Projects.Builds.{has_job_id, has_snapshot_id, in_snapshot, mark_files}

-- The copy of one file of the activated snapshot into the new draft.
abbrev pub copied : RowId → RowId → RowId → SnapshotFileRow → SnapshotFileRow
copied p draft id f = record {
  id = id;
  snapshot_id = draft;
  project_id = p;
  logical_filename = f.logical_filename;
  media_type = f.media_type;
  size = f.size;
  sha256 = f.sha256;
  lifecycle_status = Lifecycle.ready;
  progress_percent = some 100;
  error_code = none;
  uploaded_at = f.uploaded_at;
}

unfoldable pub copy_files : RowId → RowId → List SnapshotFileRow → Transaction (Unit {0})
copy_files p draft [] = pure tt
copy_files p draft (f ∷ fs) = do
  id ← uuid4
  rows ← gets (λ db. db.files)
  rows' ←
      or_raise (insert_unique (is_file_named draft f.logical_filename) (copied p draft id f) rows)
        integrity
  modify (λ db. record db { files = rows' })
  copy_files p draft fs

abbrev is_active_of : RowId → SnapshotRow → Bool
is_active_of p s = s.project_id == p && is_active s.status

abbrev pub activated : BuildRecord → String → ℕ → Time → ProjectRow → ProjectRow
activated build version documents now row = record row {
  active_snapshot_id = some build.snapshot_id;
  active_graph_version = some version;
  active_document_count = documents;
  generation = row.generation + 1;
  state = ProjectState.ready;
  updated_at = now;
}

abbrev pub completed : String → Time → BuildJobRow → BuildJobRow
completed version now job = record job {
  status = JobStatus.ready;
  graph_version = some version;
  completed_at = some now;
}

-- The activation itself: the older active snapshot is only validated from here on, the snapshot of
-- the build is active, its job is ready, and an empty draft is there for the next changes.
abbrev pub activation : BuildRecord → String → ℕ → Time → RowId → Database → Database
activation build version documents now draft db = record db {
  snapshots =
      modify_first (has_snapshot_id build.snapshot_id)
        (λ s. record s { status = SnapshotStatus.active })
        (update (is_active_of build.project_id)
          (λ s. record s { status = SnapshotStatus.validated }) db.snapshots)
      ++ record {
        id = draft;
        project_id = build.project_id;
        status = SnapshotStatus.editable;
        created_at = now;
        sealed_at = none;
      }
        ∷ [];
  builds = modify_first (has_job_id build.id) (completed version now) db.builds;
  projects =
      modify_first (has_id build.project_id) (activated build version documents now) db.projects;
}

unfoldable pub complete_build : BuildRecord → String → ℕ → Time → Transaction (Unit {0})
complete_build build version documents now = do
  project ← project_for_update build.project_id
  raise_if (not (project.generation == build.expected_generation))
      (project_conflict "The active project generation changed")
  found ← gets (λ db. first (has_job_id build.id) db.builds)
  job ← or_raise found (project_conflict "The build is no longer active")
  kept ← gets (λ db. first (has_snapshot_id build.snapshot_id) db.snapshots)
  snapshot ← or_raise kept (project_conflict "The build is no longer active")
  raise_if (not (is_building job.status)) (project_conflict "The build is no longer active")
  draft ← uuid4
  modify (activation build version documents now draft)
  source ← gets (λ db. select (in_snapshot build.snapshot_id) db.files)
  copy_files build.project_id draft source
  mark_files build.snapshot_id Lifecycle.ready 100
  write_audit build.project_id build.requested_by "build.activated" now
      (("graphVersion", some version) ∷ [])

abbrev pub failed_job : String → Time → BuildJobRow → BuildJobRow
failed_job code now job = record job {
  status = JobStatus.failed;
  error_code = some code;
  completed_at = some now;
}

-- The snapshot is opened again and its files are marked, if it is still there.
abbrev reopen : RowId → String → Database → Database
reopen s code db = elim (first (has_snapshot_id s) db.snapshots) [
  | none ↦ db
  | some _ ↦ record db {
    snapshots =
        modify_first (has_snapshot_id s)
          (λ row. record row { status = SnapshotStatus.editable; sealed_at = none }) db.snapshots;
    files =
        update (in_snapshot s)
          (λ f. record f { lifecycle_status = Lifecycle.failed; error_code = some code }) db.files;
  }
]

unfoldable pub fail_build : BuildRecord → String → Time → Transaction (Unit {0})
fail_build build code now = do
  project ← project_for_update build.project_id
  modify (λ db. record db {
    builds = modify_first (has_job_id build.id) (failed_job code now) db.builds;
  })
  modify (reopen build.snapshot_id code)
  set_project build.project_id
      (λ row. record row { state = state_without_build row ProjectState.failed; updated_at = now })
  write_audit build.project_id build.requested_by "build.failed" now (("errorCode", some code) ∷ [])
