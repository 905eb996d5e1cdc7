-- ===== src/Projects/Worker/Idle.antt =====
-- The jobs that one iteration of the worker (apps/api/app/projects/worker.py) leaves running.
use poc_la_graph.Base.{
  ◌≤◌, ◌≡◌, refl, String, true, ◌&&◌, not, none, some, ◌==◌, ◌⊎◌, arith, inl, inr, Option-cases,
  Bool-cases, ◌∙◌, is_some, All,
}
use poc_la_graph.Base.Table.{
  first, select, count, earliest, count-le, count-update_same, count-update_gain,
}
use poc_la_graph.Projects.Rows.{Token, Time, BuildJobRow, Database, BuildRecord, ProjectState}
use poc_la_graph.Projects.Session.{Error, ok, after, has_id}
use poc_la_graph.Projects.Builds.{
  has_job_id, job_is_building, job_is_queued, is_queued_job, claimed, claim_job, claim_build,
  build_record,
}
use poc_la_graph.Projects.Builds.Single.{IsSingle}
use poc_la_graph.Projects.Worker.{Outcome, process, work, attend}
use poc_la_graph.Base.Counts.{count-update_new, is_some-first-update, All-select, All-earliest}
use poc_la_graph.Projects.Worker.Settle.{Runs, runs, process_ends}
use poc_la_graph.Projects.Session.Monad.{and_then-commit}

abbrev IsKnown : Database → BuildJobRow → Type 0
IsKnown db job = is_some (first (has_id job.project_id) db.projects) ≡ true

-- Every job's project is in the table, which its foreign key says.
abbrev pub HasProjects : Database → Type 0
HasProjects db = All (IsKnown db) db.builds

-- A claim finds nothing, and changes nothing, or leaves the job that it returns running.
claim_build-Runs :
    (worker : Token) (now : Time) (db : Database)
    → IsSingle db
    → HasProjects db
    → (claim_build worker now db ≡ ok (none, db))
      ⊎ ((build : BuildRecord) × (db' : Database) × (claim_build worker now db
            ≡ ok (some build, db'))
          × Runs build db')
unfolding claim_build claim_job
claim_build-Runs worker now db v projects =
    elim (Option-cases (earliest (λ job. job.created_at) (select job_is_queued db.builds))) [
      | inl nothing ↦ inl (ground arith)
      | inr (job, found) ↦
          elim (Bool-cases (
            count job_is_building db.builds == 0
            && not (count (is_queued_job job.id) db.builds == 0))) [
              | inl free ↦
                  let idle : count job_is_building db.builds ≡ 0 = ground arith in
                  let queued : 1 ≤ count (is_queued_job job.id) db.builds = ground arith in
                  inr (
                    build_record job,
                    after (claim_job worker now job) db,
                    ground arith,
                    record {
                      keyed =
                          rw
                            (count-update_same (has_job_id job.id) (is_queued_job job.id)
                              (claimed worker now) (λ j. refl) db.builds)
                            (v.keyed job.id);
                      single = omega (
                        arith,
                        v.keyed job.id,
                        count-update_gain job_is_building (is_queued_job job.id)
                            (claimed worker now) db.builds,
                        count-le (is_queued_job job.id) (has_job_id job.id) (λ j h. ground arith)
                            db.builds,
                      );
                      running = omega (
                        arith,
                        count-update_new (runs job.id) (is_queued_job job.id) (claimed worker now)
                            (λ j h. ground arith) db.builds,
                      );
                      known =
                          is_some-first-update (has_id job.project_id) (has_id job.project_id)
                            (λ row. record row { state = ProjectState.building; updated_at = now })
                            (λ row. refl) db.projects
                          ∙ All-earliest (IsKnown db) (λ j. j.created_at)
                              (select job_is_queued db.builds) job
                              (All-select (IsKnown db) job_is_queued db.builds projects) found;
                    },
                  )
              | inr busy ↦ inl (ground arith)
            ]
    ]

-- In a database with unique and used job identifiers, where every job's project is there and no
-- job is running, an iteration of the worker returns without an exception and leaves no job
-- running, whether there was a job to take or not, and however its build and its completion end.
pub work-idle :
    (text : Error → String) (worker : Token) (outcome : Outcome) (now done failed : Time)
    (db : Database)
    → IsSingle db
    → HasProjects db
    → count job_is_building db.builds ≡ 0
    → ((work text worker outcome now done failed db).0 ≡ ok tt)
      × (count job_is_building (work text worker outcome now done failed db).1.builds ≡ 0)
unfolding work
work-idle text worker outcome now done failed db v projects idle =
    elim (claim_build-Runs worker now db v projects) [
      | inl e ↦
          let slept : work text worker outcome now done failed db ≡ (ok tt, db) =
            and_then-commit (claim_build worker now) (attend text outcome done failed) db none db
              e in
          rw slept (refl, idle)
      | inr (build, db', e, r) ↦
          let went : work text worker outcome now done failed db
              ≡ process text outcome build done failed db' =
            and_then-commit (claim_build worker now) (attend text outcome done failed) db
              (some build) db' e in
          rw went (process_ends text outcome build done failed db' r)
    ]
