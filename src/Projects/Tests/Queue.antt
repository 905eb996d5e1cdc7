-- ===== src/Projects/Tests/Queue.antt =====
-- Runs of the build queue and of the worker on a small database, and their theorems at it.
use poc_la_graph.Base.{
  ◌≤◌, ◌≡◌, refl, [], ◌∷◌, arith, map, ℕ, String, inr, if◌then◌else◌, ◌==◌, true, some, List,
}
use poc_la_graph.Base.Table.{first, count, earliest, select}
use poc_la_graph.Projects.Rows.{
  ProjectState, Database, ProjectRow, BuildRecord, Lifecycle, JobStatus, SnapshotRow,
  SnapshotStatus, BuildJobRow,
}
use poc_la_graph.Projects.Session.{ok, after, has_id, succeeds}
use poc_la_graph.Projects.Builds.{job_is_building, claim_build, claim_job}
use poc_la_graph.Projects.Builds.Completion.{fail_build, copy_files, complete_build, activated}
use poc_la_graph.Projects.Builds.Single.{IsSingle}
use poc_la_graph.Projects.Builds.History.{Step, Reach, Reach-one_build}
use poc_la_graph.Projects.Tests.{empty, submitted, finalized, submitted_project, submitted_job}
use poc_la_graph.Projects.Uploads.Finalized.{content_at}
use poc_la_graph.Projects.Session.{Error}
use poc_la_graph.Projects.Worker.{Outcome, work, Iteration, run_forever}
use poc_la_graph.Projects.Worker.Idle.{HasProjects}
use poc_la_graph.Projects.Builds.Activation.{IsRunning, complete_build-activates}
use poc_la_graph.Projects.Worker.Sound.{IsSound}
use poc_la_graph.Projects.Worker.Loop.{run_forever-idle}

empty-IsSingle : IsSingle empty
unfolding count
empty-IsSingle = record { keyed = λ b. omega arith; fresh = λ b h. refl; single = omega arith }

-- A submission, two claims by different workers, and a failure.
abbrev build : BuildRecord
build = record {
  id = 12;
  project_id = 0;
  snapshot_id = 1;
  expected_generation = 0;
  requested_by = 10;
}

queue_end : Database
unfolding submitted claim_build earliest claim_job fail_build
queue_end =
    after (fail_build build "x" 180)
      (after (claim_build 51 150) (after (claim_build 50 140) submitted))

history : Reach empty queue_end
unfolding submitted queue_end
history =
    Reach.next
      (Reach.next
        (Reach.next
          (Reach.next (Reach.next Reach.here (Step.elsewhere finalized refl (omega arith)))
            (Step.submit 0 10 4 130))
          (Step.claim 50 140))
        (Step.claim 51 150))
      (Step.fail build "x" 180)

Reach-one_build_example : count job_is_building queue_end.builds ≤ 1
Reach-one_build_example = Reach-one_build empty queue_end empty-IsSingle history

submitted-IsSingle : IsSingle submitted
unfolding submitted count
submitted-IsSingle = record {
  keyed = λ b. ground arith;
  fresh = λ b h. ground arith;
  single = omega arith;
}

submitted-HasProjects : HasProjects submitted
unfolding submitted first
submitted-HasProjects = (refl, tt)

-- The build reports its conversion and ends with a version.
abbrev outcome : Outcome
outcome = record { phases = (Lifecycle.converting, 30) ∷ []; result = inr ("v1", 1) }

abbrev text : Error → String
text e = "error"

-- Two iterations: the second one finds nothing to build.
abbrev iterations : List Iteration
iterations =
    record { outcome = outcome; now = 140; done = 150; failed = 150 }
    ∷ record { outcome = outcome; now = 160; done = 170; failed = 170 }
    ∷ []

submitted-IsSound : IsSound submitted
submitted-IsSound = record { single = submitted-IsSingle; projects = submitted-HasProjects }

run_forever-idle_example :
    ((run_forever text 50 iterations submitted).0 ≡ ok tt)
    × (count job_is_building (run_forever text 50 iterations submitted).1.builds ≡ 0)
run_forever-idle_example = run_forever-idle text 50 iterations submitted submitted-IsSound

-- After the first of them the project is ready, with the version and the next generation.
worked_state :
    map {B = ProjectState × ℕ}
      (λ (row : ProjectRow). (row.state, row.generation))
      (work text 50 outcome 140 150 150 submitted).1.projects
    ≡ (ProjectState.ready, 1) ∷ []
unfolding submitted work earliest copy_files
worked_state = refl

-- The job was claimed, and its build ends with a version.
running : Database
unfolding submitted claim_build earliest claim_job
running = after (claim_build 50 140) submitted

running_project : ProjectRow
unfolding submitted_project
running_project = record submitted_project { state = ProjectState.building; updated_at = 140 }

running_job : BuildJobRow
unfolding submitted_job
running_job = record submitted_job {
  status = JobStatus.building;
  started_at = some 140;
  worker_id = some 50;
}

sealed_snapshot : SnapshotRow
sealed_snapshot = record {
  id = 1;
  project_id = 0;
  status = SnapshotStatus.sealed;
  created_at = 100;
  sealed_at = some 130;
}

running-IsRunning : IsRunning build running running_project running_job sealed_snapshot
unfolding running running_project running_job sealed_snapshot first select
running-IsRunning = record {
  project_found = refl;
  job_found = refl;
  snapshot_found = refl;
  same_generation = refl;
  building = refl;
  distinct = (tt, tt);
  unused = refl;
}

complete_build-activates_example :
    (succeeds (complete_build build "v1" 1 150) running ≡ true)
    × (first (has_id 0) (after (complete_build build "v1" 1 150) running).projects
        ≡ some (activated build "v1" 1 150 running_project))
    × (content_at running.next_id 20 (after (complete_build build "v1" 1 150) running).files ≡ (
        if running.next_id == running.next_id
        then content_at 1 20 running.files
        else content_at running.next_id 20 running.files))
complete_build-activates_example =
    complete_build-activates build "v1" 1 150 running running_project running_job sealed_snapshot
      running-IsRunning running.next_id 20
