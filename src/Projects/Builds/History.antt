-- ===== src/Projects/Builds/History.antt =====
-- Histories of the build queue: the worker and the clients of apps/api/app/projects/repository.py
-- and apps/api/app/projects/worker.py call the operations in any order, with anything that does
-- not touch the jobs in between.
use poc_la_graph.Base.{ℕ, ◌≤◌, ◌≡◌, String, arith, inl, inr, Option-cases, subst, sym, ◌⊎◌}
use poc_la_graph.Base.Table.{first, count}
use poc_la_graph.Projects.Rows.{RowId, Token, Time, Operation, Database, BuildRecord}
use poc_la_graph.Projects.Session.{after, is_record_of}
use poc_la_graph.Projects.Builds.{
  job_is_building, recover_builds, new_build, submit_build, claim_build,
}
use poc_la_graph.Projects.Builds.Completion.{complete_build, fail_build}
use poc_la_graph.Projects.Builds.Single.{
  IsSingle, recover_builds-IsSingle, claim_build-IsSingle, new_build-IsSingle,
}
use poc_la_graph.Projects.Registry.{delete_project, purge_expired}
use poc_la_graph.Projects.Builds.Single.Deletion.{delete_project-IsSingle, purge_expired-IsSingle}
use poc_la_graph.Projects.Builds.Single.Completion.{complete_build-IsSingle, fail_build-IsSingle}

-- One call, or a step of the rest of the program, which leaves the jobs alone.
pub data Step (db : Database) : Database → Type 0 where
  recover : Step db (after recover_builds db)
  submit :
      (p : RowId) (subject key : Token) (now : Time) → Step db (submit_build p subject key now db).1
  claim : (worker : Token) (now : Time) → Step db (after (claim_build worker now) db)
  complete :
      (build : BuildRecord) (version : String) (documents : ℕ) (now : Time)
      → Step db (after (complete_build build version documents now) db)
  fail :
      (build : BuildRecord) (code : String) (now : Time)
      → Step db (after (fail_build build code now) db)
  discard : (p : RowId) → Step db (delete_project p db)
  purge :
      (p : RowId) (subject : Token) (days : ℕ) (now : Time)
      → Step db (after (purge_expired p subject days now) db)
  elsewhere : (db' : Database) → db'.builds ≡ db.builds → db.next_id ≤ db'.next_id → Step db db'

pub data Reach (db : Database) : Database → Type 0 where
  here : Reach db db
  next : {mid last : Database} → Reach db mid → Step mid last → Reach db last

-- A submission adds a job by `new_build`, or changes nothing.
submit_build-database :
    (p : RowId) (subject key : Token) (now : Time) (db : Database)
    → ((submit_build p subject key now db).1 ≡ db)
      ⊎ ((submit_build p subject key now db).1 ≡ after (new_build p subject key now) db)
unfolding submit_build
submit_build-database p subject key now db =
    elim (Option-cases
      (first (is_record_of subject (Operation.submit_build p) key) db.idempotency)) [
        | inl new ↦ inr (ground arith)
        | inr (row, known) ↦ inl (ground arith)
      ]

Step-IsSingle : {db db' : Database} → Step db db' → IsSingle db → IsSingle db'
Step-IsSingle {db} recover v = recover_builds-IsSingle db v
Step-IsSingle {db} (submit p subject key now) v =
    elim (submit_build-database p subject key now db) [
      | inl same ↦ subst IsSingle (sym same) v
      | inr e ↦ subst IsSingle (sym e) (new_build-IsSingle p subject key now db v)
    ]
Step-IsSingle {db} (claim worker now) v = claim_build-IsSingle worker now db v
Step-IsSingle {db} (complete build version documents now) v =
    complete_build-IsSingle build version documents now db v
Step-IsSingle {db} (fail build code now) v = fail_build-IsSingle build code now db v
Step-IsSingle {db} (discard p) v = delete_project-IsSingle p db v
Step-IsSingle {db} (purge p subject days now) v = purge_expired-IsSingle p subject days now db v
Step-IsSingle (elsewhere db' same later) v = record {
  keyed = λ b. rw same (v.keyed b);
  fresh = λ b h. rw same (v.fresh b (omega arith));
  single = rw same v.single;
}

Reach-IsSingle : {db db' : Database} → IsSingle db → Reach db db' → IsSingle db'
Reach-IsSingle v here = v
Reach-IsSingle v (next r st) = Step-IsSingle st (Reach-IsSingle v r)

-- From a database with unique and used job identifiers and at most one running job, every history
-- of submissions, claims, completions, failures, recoveries, deletions and purges of projects, and
-- other steps that leave the jobs alone, ends with at most one running job.
pub Reach-one_build :
    (db db' : Database) → IsSingle db → Reach db db' → count job_is_building db'.builds ≤ 1
Reach-one_build db db' v r = (Reach-IsSingle v r).single
