-- ===== src/Projects/Builds.antt =====
-- Build jobs: `recover_builds`, `submit_build`, `get_build` and
-- `claim_build` of apps/api/app/projects/repository.py.
pub mod Completion
pub mod Single
pub mod History
pub mod Copies
pub mod Activation
use poc_la_graph.Base.{
  ℕ, ◌+◌, String, Bool, not, ◌&&◌, ◌||◌, Option, none, some, List, [], ◌∷◌, ◌++◌, ◌==◌,
  if◌then◌else◌, any,
}
use poc_la_graph.Base.Table.{first, select, update, count, modify_first, earliest}
use poc_la_graph.Projects.Rows.{
  RowId, Token, Time, ProjectState, SnapshotStatus, JobStatus, Lifecycle, SnapshotRow,
  SnapshotFileRow, BuildJobRow, ProjectRow, UploadSessionRow, Operation, Database, BuildRecord,
}
use poc_la_graph.Projects.Session.{
  Transaction, project_not_found, project_conflict, integrity, ◌>>=◌, ◌>>◌, pure, gets, or_raise,
  modify, raise_if, uuid4, is_locked, is_open, is_active, is_queued, is_building, has_id,
  set_project, insert_unique, project_for_update, draft_of, idempotent_resource, remember,
  write_audit, Call, keyed_call,
}
use poc_la_graph.Projects.Uploads.Finalization.{is_file_named}
use poc_la_graph.Projects.Registry.{state_without_build}

abbrev pub has_job_id : RowId → BuildJobRow → Bool
has_job_id b job = job.id == b

abbrev pub has_snapshot_id : RowId → SnapshotRow → Bool
has_snapshot_id s row = row.id == s

abbrev pub in_snapshot : RowId → SnapshotFileRow → Bool
in_snapshot s f = f.snapshot_id == s

abbrev pub job_is_queued : BuildJobRow → Bool
job_is_queued job = is_queued job.status

abbrev pub job_is_building : BuildJobRow → Bool
job_is_building job = is_building job.status

-- `.values(lifecycle_status=…, progress_percent=…, error_code=None)`
abbrev pub with_lifecycle : Lifecycle → ℕ → SnapshotFileRow → SnapshotFileRow
with_lifecycle phase percent f = record f {
  lifecycle_status = phase;
  progress_percent = some percent;
  error_code = none;
}

abbrev pub mark_files : RowId → Lifecycle → ℕ → Transaction (Unit {0})
mark_files s phase percent =
    modify
      (λ db. record db { files = update (in_snapshot s) (with_lifecycle phase percent) db.files })

abbrev pub requeued : BuildJobRow → BuildJobRow
requeued job = record job { status = JobStatus.queued; started_at = none; worker_id = none }

-- `recover_builds`: at the start of a worker the builds that were running are queued again.
unfoldable pub recover_builds : Transaction (Unit {0})
recover_builds = do
  building ← gets (λ db. select job_is_building db.builds)
  modify (λ db. record db { builds = update job_is_building requeued db.builds })
  queued ← gets (λ db. select job_is_queued db.builds)
  modify (λ db. record db {
    files =
        update (λ f. any (λ (job : BuildJobRow). f.snapshot_id == job.snapshot_id) queued)
          (with_lifecycle Lifecycle.queued 5) db.files;
    projects =
        update (λ row. any (λ (job : BuildJobRow). row.id == job.project_id) building)
          (λ row. record row { state = ProjectState.queued }) db.projects;
  })

unfoldable pub get_build : RowId → RowId → Transaction BuildJobRow
get_build p b = do
  or_raise (← gets (λ db. first (λ job. has_job_id b job && job.project_id == p) db.builds))
      (project_not_found b)

abbrev pub is_open_upload_of : RowId → RowId → UploadSessionRow → Bool
is_open_upload_of p s u = u.project_id == p && u.snapshot_id == s && is_open u.state

-- The draft that `_draft` returned is sealed: it is the row with the draft's identifier.
abbrev seal : RowId → Time → Transaction (Unit {0})
seal s now = modify (λ db. record db {
  snapshots =
      update (has_snapshot_id s)
        (λ row. record row { status = SnapshotStatus.sealed; sealed_at = some now }) db.snapshots;
})

abbrev pub queued_job : RowId → RowId → ℕ → RowId → Token → Time → BuildJobRow
queued_job p b generation draft subject now = record {
  id = b;
  project_id = p;
  snapshot_id = draft;
  status = JobStatus.queued;
  requested_by = subject;
  expected_generation = generation;
  graph_version = none;
  error_code = none;
  created_at = now;
  started_at = none;
  completed_at = none;
  worker_id = none;
}

-- The transaction of `submit_build`.
unfoldable pub new_build : RowId → Token → Token → Time → Transaction RowId
new_build p subject key now = do
  project ← project_for_update p
  raise_if (is_locked project.state) (project_conflict "A build cannot be started")
  draft ← draft_of p
  open_uploads ← gets (λ db. count (is_open_upload_of p draft.id) db.uploads)
  raise_if (not (open_uploads == 0))
      (project_conflict "Open upload sessions must be finalized first")
  files ← gets (λ db. count (in_snapshot draft.id) db.files)
  raise_if (files == 0) (project_conflict "At least one draft file is required")
  b ← uuid4
  modify (λ db. record db {
    builds = db.builds ++ queued_job p b project.generation draft.id subject now ∷ [];
  })
  mark_files draft.id Lifecycle.queued 5
  seal draft.id now
  set_project p (λ row. record row { state = ProjectState.queued; updated_at = now })
  remember subject (Operation.submit_build p) key b now
  write_audit p subject "build.queued" now []
  pure b

unfoldable pub submit_build : RowId → Token → Token → Time → Call BuildJobRow
unfolding new_build get_build idempotent_resource
submit_build p subject key now =
    keyed_call subject (Operation.submit_build p) key (get_build p) (new_build p subject key now)
      (get_build p)

abbrev pub claimed : Token → Time → BuildJobRow → BuildJobRow
claimed worker now job = record job {
  status = JobStatus.building;
  started_at = some now;
  worker_id = some worker;
}

abbrev pub is_queued_job : RowId → BuildJobRow → Bool
is_queued_job b job = has_job_id b job && is_queued job.status

abbrev pub build_record : BuildJobRow → BuildRecord
build_record job = record {
  id = job.id;
  project_id = job.project_id;
  snapshot_id = job.snapshot_id;
  expected_generation = job.expected_generation;
  requested_by = job.requested_by;
}

-- The end of `claim_build`, on the queued job that was found.
unfoldable pub claim_job : Token → Time → BuildJobRow → Transaction (Option BuildRecord)
claim_job worker now job = do
  modify (λ db. record db {
    builds = update (is_queued_job job.id) (claimed worker now) db.builds;
    projects =
        update (has_id job.project_id)
          (λ row. record row { state = ProjectState.building; updated_at = now }) db.projects;
  })
  mark_files job.snapshot_id Lifecycle.validating 15
  pure (some (build_record job))

-- `claim_build`: nothing while a build is running, and else the oldest queued job. The row count
-- of the update is that of a job read in the same transaction.
unfoldable pub claim_build : Token → Time → Transaction (Option BuildRecord)
unfolding claim_job
claim_build worker now = do
  building ← gets (λ db. count job_is_building db.builds)
  oldest ← gets (λ db. earliest (λ job. job.created_at) (select job_is_queued db.builds))
  rowcount ←
      gets (λ db. elim oldest [ none ↦ 0 | some job ↦ count (is_queued_job job.id) db.builds ])
  if not (building == 0) || rowcount == 0
      then pure none
      else elim oldest [ none ↦ pure none | some job ↦ claim_job worker now job ]
