-- ===== src/Projects/Builds/Single/Completion.antt =====
-- The running jobs through `complete_build` and `fail_build` of
-- apps/api/app/projects/repository.py.
use poc_la_graph.Base.{
  ℕ, suc, ◌≤◌, ◌≡◌, refl, String, false, List, [], ◌∷◌, ◌++◌, ◌⊎◌, arith, inl, inr, Option-cases,
  subst, sym, Bool-cases, ◌&&◌, ◌==◌, false≢true, ◌∙◌,
}
use poc_la_graph.Base.Table.{
  first, select, modify_first, count-modify_first_same, count-modify_first_le,
}
use poc_la_graph.Projects.Rows.{
  RowId, Time, SnapshotFileRow, BuildJobRow, Database, BuildRecord, ProjectRow, ProjectState,
}
use poc_la_graph.Projects.Session.{
  after, project_for_update, write_audit, has_id, succeeds, is_building,
}
use poc_la_graph.Projects.Builds.{has_job_id, job_is_building, in_snapshot, has_snapshot_id}
use poc_la_graph.Projects.Builds.Completion.{
  copy_files, complete_build, fail_build, copied, completed, activation, failed_job, activated,
}
use poc_la_graph.Projects.Builds.Single.{IsSingle, keep-keys}
use poc_la_graph.Projects.Registry.{state_without_build}

-- Copying files writes no job and no project.
pub copy_files-builds :
    (p draft : RowId) (fs : List SnapshotFileRow) (db : Database)
    → ((after (copy_files p draft fs) db).builds ≡ db.builds)
      × ((after (copy_files p draft fs) db).projects ≡ db.projects)
      × (db.next_id ≤ (after (copy_files p draft fs) db).next_id)
unfolding copy_files
copy_files-builds p draft [] db = (refl, refl, omega arith)
copy_files-builds p draft (f ∷ fs) db =
    let db' : Database = record db {
      files = db.files ++ copied p draft db.next_id f ∷ [];
      next_id = suc db.next_id;
    } in
    ground (arith, copy_files-builds p draft fs db')

-- The completion of a build takes its job out of the running ones, or changes nothing.
pub complete_build-builds :
    (build : BuildRecord) (version : String) (documents : ℕ) (now : Time) (db : Database)
    → let db' = after (complete_build build version documents now) db in
      (db' ≡ db)
      ⊎ ((db'.builds ≡ modify_first (has_job_id build.id) (completed version now) db.builds)
          × (db'.projects
              ≡ modify_first
                  (has_id build.project_id)
                  (activated build version documents now)
                  db.projects)
          × (db.next_id ≤ db'.next_id))
unfolding complete_build project_for_update write_audit
complete_build-builds build version documents now db =
    let mid : Database =
      activation build version documents now db.next_id (record db { next_id = suc db.next_id }) in
    let copy =
      copy_files build.project_id db.next_id (select (in_snapshot build.snapshot_id) db.files) in
    let copied_builds =
      copy_files-builds build.project_id db.next_id
        (select (in_snapshot build.snapshot_id) db.files) mid in
    elim (Option-cases (first (has_id build.project_id) db.projects)) [
      | inl missing ↦ inl (ground arith)
      | inr (project, e) ↦ elim (Option-cases (first (has_job_id build.id) db.builds)) [
        | inl missing ↦ inl (ground arith)
        | inr (job, f) ↦
            elim (Option-cases (first (has_snapshot_id build.snapshot_id) db.snapshots)) [
              | inl missing ↦ inl (ground arith)
              | inr (snapshot, g) ↦
                  elim (Bool-cases (
                    project.generation == build.expected_generation
                    && is_building job.status
                    && succeeds copy mid)) [
                      | inl fine ↦ inr (
                        ground (arith, copied_builds),
                        ground (arith, copied_builds),
                        ground (arith, copied_builds),
                      )
                      | inr bad ↦ inl (ground arith)
                    ]
            ]
      ]
    ]

changed-IsSingle :
    (b : RowId) (f : BuildJobRow → BuildJobRow)
    → ((job : BuildJobRow) → (f job).id ≡ job.id)
    → ((job : BuildJobRow) → job_is_building (f job) ≡ false)
    → (db db' : Database) → db'.builds ≡ modify_first (has_job_id b) f db.builds
    → db.next_id ≤ db'.next_id
    → IsSingle db
    → IsSingle db'
changed-IsSingle b f same_id stops db db' e later v =
    keep-keys db db'
      (λ c. rw e (
        count-modify_first_same (has_job_id c) (has_job_id b) f (λ job. rw (same_id job))
          db.builds))
      later
      (rw e (
        omega (
          arith,
          v.single,
          count-modify_first_le job_is_building (has_job_id b) f
              (λ job h. absurd (false≢true (sym (stops job) ∙ h))) db.builds,
        )))
      v

pub complete_build-IsSingle :
    (build : BuildRecord) (version : String) (documents : ℕ) (now : Time) (db : Database)
    → IsSingle db
    → IsSingle (after (complete_build build version documents now) db)
complete_build-IsSingle build version documents now db v =
    elim (complete_build-builds build version documents now db) [
      | inl same ↦ subst IsSingle (sym same) v
      | inr (e, rows, later) ↦
          changed-IsSingle build.id (completed version now) (λ job. refl) (λ job. refl) db _ e later
            v
    ]

-- The project of a failed build.
abbrev pub unbuilt : Time → ProjectRow → ProjectRow
unbuilt now row = record row {
  state = state_without_build row ProjectState.failed;
  updated_at = now;
}

pub fail_build-builds :
    (build : BuildRecord) (code : String) (now : Time) (db : Database)
    → let db' = after (fail_build build code now) db in
      (db' ≡ db)
      ⊎ ((db'.builds ≡ modify_first (has_job_id build.id) (failed_job code now) db.builds)
          × (db'.projects ≡ modify_first (has_id build.project_id) (unbuilt now) db.projects)
          × (db.next_id ≤ db'.next_id))
unfolding fail_build project_for_update write_audit
fail_build-builds build code now db =
    elim (Option-cases (first (has_id build.project_id) db.projects)) [
      | inl missing ↦ inl (ground arith)
      | inr (project, e) ↦
          elim (Option-cases (first (has_snapshot_id build.snapshot_id) db.snapshots)) [
            | inl missing ↦ inr (ground arith, ground arith, ground arith)
            | inr (snapshot, g) ↦ inr (ground arith, ground arith, ground arith)
          ]
    ]

pub fail_build-IsSingle :
    (build : BuildRecord) (code : String) (now : Time) (db : Database)
    → IsSingle db
    → IsSingle (after (fail_build build code now) db)
fail_build-IsSingle build code now db v = elim (fail_build-builds build code now db) [
  | inl same ↦ subst IsSingle (sym same) v
  | inr (e, rows, later) ↦
      changed-IsSingle build.id (failed_job code now) (λ job. refl) (λ job. refl) db _ e later v
]
