-- ===== src/Projects/Worker/Settle.antt =====
-- How an iteration of the worker (apps/api/app/projects/worker.py) ends, once it has a build.
use poc_la_graph.Base.{
  ℕ, ◌≤◌, ◌≡◌, refl, String, Bool, true, false, ◌&&◌, List, [], ◌∷◌, ◌⊎◌, arith, inl, inr,
  Option-cases, is_some, suc,
}
use poc_la_graph.Base.Table.{first, select, count, modify_first}
use poc_la_graph.Projects.Rows.{RowId, Time, Lifecycle, BuildJobRow, Database, BuildRecord}
use poc_la_graph.Projects.Session.{
  Error, ok, after, commit, Result-cases, project_for_update, write_audit, has_id,
}
use poc_la_graph.Projects.Files.{update_file_lifecycle, snapshot_files}
use poc_la_graph.Projects.Builds.{has_job_id, job_is_building, in_snapshot, has_snapshot_id}
use poc_la_graph.Projects.Builds.Completion.{
  complete_build, fail_build, completed, failed_job, activation,
}
use poc_la_graph.Projects.Worker.{Outcome, raised, report_all, run_build, process, settle}
use poc_la_graph.Projects.Builds.Single.Completion.{copy_files-builds}
use poc_la_graph.Projects.ErrorCode.{error_code, Failure}
use poc_la_graph.Base.Counts.{count-modify_first_key}

-- The job is the running one.
abbrev pub runs : RowId → BuildJobRow → Bool
runs b job = job_is_building job && has_job_id b job

-- What a build reports writes neither jobs nor projects.
report_all-frame :
    (s : RowId) (phases : List (Lifecycle × ℕ)) (db : Database)
    → ((report_all s phases db).builds ≡ db.builds)
      × ((report_all s phases db).projects ≡ db.projects)
      × ((report_all s phases db).next_id ≡ db.next_id)
unfolding report_all update_file_lifecycle
report_all-frame s [] db = (refl, refl, refl)
report_all-frame s ((phase, percent) ∷ phases) db =
    report_all-frame s phases (after (update_file_lifecycle s phase percent) db)

pub run_build-frame :
    (outcome : Outcome) (build : BuildRecord) (db : Database)
    → ((run_build outcome build db).1.builds ≡ db.builds)
      × ((run_build outcome build db).1.projects ≡ db.projects)
      × ((run_build outcome build db).1.next_id ≡ db.next_id)
unfolding run_build
run_build-frame outcome build db = go (snapshot_files build.snapshot_id db) refl
  where
    go :
        (files : _)
        → snapshot_files build.snapshot_id db ≡ files
        → ((run_build outcome build db).1.builds ≡ db.builds)
          × ((run_build outcome build db).1.projects ≡ db.projects)
          × ((run_build outcome build db).1.next_id ≡ db.next_id)
    go [] e = rw (e, run_build) (refl, refl, refl)
    go (f ∷ fs) e = rw (e, run_build) (report_all-frame build.snapshot_id outcome.phases db)

complete_build-ends :
    (build : BuildRecord) (version : String) (documents : ℕ) (now : Time) (db db' : Database)
    → complete_build build version documents now db ≡ ok (tt, db')
    → db'.builds ≡ modify_first (has_job_id build.id) (completed version now) db.builds
unfolding complete_build project_for_update write_audit
complete_build-ends build version documents now db db' e =
    let mid : Database =
      activation build version documents now db.next_id (record db { next_id = suc db.next_id }) in
    let copied_builds =
      copy_files-builds build.project_id db.next_id
        (select (in_snapshot build.snapshot_id) db.files) mid in
    elim (Option-cases (first (has_id build.project_id) db.projects)) [
      | inl missing ↦ ground arith
      | inr (project, f) ↦ elim (Option-cases (first (has_job_id build.id) db.builds)) [
        | inl missing ↦ ground arith
        | inr (job, g) ↦
            elim (Option-cases (first (has_snapshot_id build.snapshot_id) db.snapshots)) [
              | inl missing ↦ ground arith
              | inr (snapshot, h) ↦ ground (arith, copied_builds)
            ]
      ]
    ]

fail_build-ends :
    (build : BuildRecord) (code : String) (now : Time) (db : Database)
    → is_some (first (has_id build.project_id) db.projects) ≡ true
    → let end = commit (fail_build build code now) db in
      (end.0 ≡ ok tt)
      × (end.1.builds ≡ modify_first (has_job_id build.id) (failed_job code now) db.builds)
unfolding fail_build project_for_update write_audit
fail_build-ends build code now db known =
    elim (Option-cases (first (has_id build.project_id) db.projects)) [
      | inl missing ↦ absurd (ground arith)
      | inr (project, e) ↦
          elim (Option-cases (first (has_snapshot_id build.snapshot_id) db.snapshots)) [
            | inl missing ↦ (ground arith, ground arith)
            | inr (snapshot, g) ↦ (ground arith, ground arith)
          ]
    ]

-- The database is one in which the job of the build runs, and its project is there.
pub record Runs (build : BuildRecord) (db : Database) : Type 0 where
  pub keyed : count (has_job_id build.id) db.builds ≤ 1
  pub single : count job_is_building db.builds ≤ 1
  pub running : 1 ≤ count (runs build.id) db.builds
  pub known : is_some (first (has_id build.project_id) db.projects) ≡ true

ended :
    (build : BuildRecord) (f : BuildJobRow → BuildJobRow)
    → ((job : BuildJobRow) → job_is_building (f job) ≡ false)
    → (db : Database) (jobs : List BuildJobRow) → Runs build db
    → jobs ≡ modify_first (has_job_id build.id) f db.builds
    → count job_is_building jobs ≡ 0
ended build f out db jobs r e = rw e (
    omega (
      arith,
      r.single,
      count-modify_first_key job_is_building (has_job_id build.id) f out db.builds r.keyed
          r.running,
    ))

settle_ends :
    (text : Error → String) (build : BuildRecord) (done failed : Time)
    (result : Failure ⊎ (String × ℕ)) (db : Database)
    → Runs build db
    → ((settle text build done failed result db).0 ≡ ok tt)
      × (count job_is_building (settle text build done failed result db).1.builds ≡ 0)
unfolding settle
settle_ends text build done failed (inl failure) db r =
    let code = error_code failure in
    let (fine, changed) = fail_build-ends build code failed db r.known in
    (fine, ended build (failed_job code failed) (λ job. refl) db _ r changed)
settle_ends text build done failed (inr (version, documents)) db r =
    elim (Result-cases (complete_build build version documents done db)) [
      | inl (_, db', e) ↦
          rw (e, settle)
            (
              refl,
              ended build (completed version done) (λ job. refl) db db'.builds r
                  (complete_build-ends build version documents done db db' e),
            )
      | inr (x, e) ↦
          let code = error_code (raised text x) in
          let (fine, changed) = fail_build-ends build code failed db r.known in
          rw (e, settle) (fine, ended build (failed_job code failed) (λ job. refl) db _ r changed)
    ]

pub process_ends :
    (text : Error → String) (outcome : Outcome) (build : BuildRecord) (done failed : Time)
    (db : Database)
    → Runs build db
    → ((process text outcome build done failed db).0 ≡ ok tt)
      × (count job_is_building (process text outcome build done failed db).1.builds ≡ 0)
unfolding process
process_ends text outcome build done failed db r =
    let (builds_same, projects_same, _) = run_build-frame outcome build db in
    settle_ends text build done failed (run_build outcome build db).0 (run_build outcome build db).1
      (record {
        keyed = rw builds_same r.keyed;
        single = rw builds_same r.single;
        running = rw builds_same r.running;
        known = rw projects_same r.known;
      })
