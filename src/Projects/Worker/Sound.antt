-- ===== src/Projects/Worker/Sound.antt =====
-- What the worker's loop relies on, and that every call of the worker to the registry
-- (apps/api/app/projects/repository.py) keeps it.
use poc_la_graph.Base.{
  ℕ, ◌≤◌, ◌≡◌, refl, sym, ◌∙◌, String, true, List, ◌==◌, inl, inr, subst, is_some, map, All, any,
}
use poc_la_graph.Base.Table.{first, select, modify_first}
use poc_la_graph.Base.Counts.{
  is_some-first-update, is_some-first-modify_first, map-update, map-modify_first, All-map, map-All,
  All-implied,
}
use poc_la_graph.Projects.Rows.{
  RowId, Token, Time, ProjectState, BuildJobRow, ProjectRow, Database, BuildRecord,
}
use poc_la_graph.Projects.Session.{after, has_id}
use poc_la_graph.Projects.Builds.{
  has_job_id, job_is_building, is_queued_job, claimed, claim_job, claim_build, requeued,
  recover_builds,
}
use poc_la_graph.Projects.Builds.Completion.{
  complete_build, fail_build, completed, failed_job, activated,
}
use poc_la_graph.Projects.Builds.Single.{IsSingle, claim_build-IsSingle, claim_build-cases}
use poc_la_graph.Projects.Builds.Single.Completion.{
  complete_build-IsSingle, fail_build-IsSingle, complete_build-builds, fail_build-builds, unbuilt,
}
use poc_la_graph.Projects.Worker.{Outcome, run_build}
use poc_la_graph.Projects.Worker.Idle.{HasProjects}
use poc_la_graph.Projects.Worker.Settle.{run_build-frame}

-- The projects of the jobs, in their order.
abbrev pub job_projects : Database → List RowId
job_projects db = map (λ (job : BuildJobRow). job.project_id) db.builds

-- The jobs have the same projects, and the same projects are there.
pub record Keeps (db db' : Database) : Type 0 where
  pub jobs : job_projects db' ≡ job_projects db
  pub known :
      (p : RowId) → is_some (first (has_id p) db'.projects) ≡ is_some (first (has_id p) db.projects)

pub Keeps-HasProjects : (db db' : Database) → Keeps db db' → HasProjects db → HasProjects db'
Keeps-HasProjects db db' k projects =
    map-All (λ p. is_some (first (has_id p) db'.projects) ≡ true)
      (λ (job : BuildJobRow). job.project_id) db'.builds
      (subst (All (λ p. is_some (first (has_id p) db'.projects) ≡ true)) (sym k.jobs) (
        All-implied (λ p. is_some (first (has_id p) db.projects) ≡ true)
          (λ p. is_some (first (has_id p) db'.projects) ≡ true) (λ p here. k.known p ∙ here)
          (job_projects db)
          (All-map (λ p. is_some (first (has_id p) db.projects) ≡ true)
            (λ (job : BuildJobRow). job.project_id) db.builds projects)))

same-Keeps : (db db' : Database) → db' ≡ db → Keeps db db'
same-Keeps db db' e = subst (Keeps db) (sym e) (record { jobs = refl; known = λ p. refl })

claim_build-Keeps :
    (worker : Token) (now : Time) (db : Database) → Keeps db (after (claim_build worker now) db)
unfolding claim_job
claim_build-Keeps worker now db = elim (claim_build-cases worker now db) [
  | inl same ↦ same-Keeps db _ same
  | inr (job, idle, e) ↦ subst (Keeps db) (sym e) (record {
    jobs =
        map-update (λ (j : BuildJobRow). j.project_id) (is_queued_job job.id) (claimed worker now)
          (λ j. refl) db.builds;
    known = λ p.
        is_some-first-update (has_id p) (has_id job.project_id)
          (λ row. record row { state = ProjectState.building; updated_at = now }) (λ row. refl)
          db.projects;
  })
]

pub recover_builds-Keeps : (db : Database) → Keeps db (after recover_builds db)
unfolding recover_builds
recover_builds-Keeps db = record {
  jobs =
      map-update (λ (j : BuildJobRow). j.project_id) job_is_building requeued (λ j. refl) db.builds;
  known = λ p.
      is_some-first-update (has_id p)
        (λ row.
          any (λ (job : BuildJobRow). row.id == job.project_id) (select job_is_building db.builds))
        (λ row. record row { state = ProjectState.queued }) (λ row. refl) db.projects;
}

changed-Keeps :
    (b p : RowId) (f : BuildJobRow → BuildJobRow) (g : ProjectRow → ProjectRow)
    → ((job : BuildJobRow) → (f job).project_id ≡ job.project_id)
    → ((row : ProjectRow) → (g row).id ≡ row.id)
    → (db db' : Database) → db'.builds ≡ modify_first (has_job_id b) f db.builds
    → db'.projects ≡ modify_first (has_id p) g db.projects
    → Keeps db db'
changed-Keeps b p f g same_project same_id db db' jobs rows = record {
  jobs = rw jobs (
      map-modify_first (λ (j : BuildJobRow). j.project_id) (has_job_id b) f same_project db.builds);
  known = λ q. rw rows (
      is_some-first-modify_first (has_id q) (has_id p) g (λ row. rw (same_id row) refl)
        db.projects);
}

-- What the loop relies on: identifiers are unique, at most one job runs, and the jobs' projects are
-- there.
pub record IsSound (db : Database) : Type 0 where
  pub single : IsSingle db
  pub projects : HasProjects db

pub complete_build-IsSound :
    (build : BuildRecord) (version : String) (documents : ℕ) (now : Time) (db : Database)
    → IsSound db
    → IsSound (after (complete_build build version documents now) db)
complete_build-IsSound build version documents now db v = record {
  single = complete_build-IsSingle build version documents now db v.single;
  projects =
      Keeps-HasProjects db _
        (elim (complete_build-builds build version documents now db) [
          | inl same ↦ same-Keeps db _ same
          | inr (jobs, rows, later) ↦
              changed-Keeps build.id build.project_id (completed version now)
                (activated build version documents now) (λ job. refl) (λ row. refl) db _ jobs rows
        ])
        v.projects;
}

pub fail_build-IsSound :
    (build : BuildRecord) (code : String) (now : Time) (db : Database)
    → IsSound db
    → IsSound (after (fail_build build code now) db)
fail_build-IsSound build code now db v = record {
  single = fail_build-IsSingle build code now db v.single;
  projects =
      Keeps-HasProjects db _
        (elim (fail_build-builds build code now db) [
          | inl same ↦ same-Keeps db _ same
          | inr (jobs, rows, later) ↦
              changed-Keeps build.id build.project_id (failed_job code now) (unbuilt now)
                (λ job. refl) (λ row. refl) db _ jobs rows
        ])
        v.projects;
}

pub claim_build-IsSound :
    (worker : Token) (now : Time) (db : Database)
    → IsSound db
    → IsSound (after (claim_build worker now) db)
claim_build-IsSound worker now db v = record {
  single = claim_build-IsSingle worker now db v.single;
  projects = Keeps-HasProjects db _ (claim_build-Keeps worker now db) v.projects;
}

pub run_build-IsSound :
    (outcome : Outcome) (build : BuildRecord) (db : Database)
    → IsSound db
    → IsSound (run_build outcome build db).1
run_build-IsSound outcome build db v =
    let (jobs, rows, next) = run_build-frame outcome build db in
    record {
      single = record {
        keyed = λ b. rw jobs (v.single.keyed b);
        fresh = λ b later. rw jobs (v.single.fresh b (subst (λ n. n ≤ b) next later));
        single = rw jobs v.single.single;
      };
      projects =
          Keeps-HasProjects db (run_build outcome build db).1
            (record { jobs = rw jobs refl; known = λ p. rw rows refl }) v.projects;
    }
