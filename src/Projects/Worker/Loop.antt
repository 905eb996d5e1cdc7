-- ===== src/Projects/Worker/Loop.antt =====
-- The worker's loop (apps/api/app/projects/worker.py), from the recovery on.
use poc_la_graph.Base.{
  ℕ, ◌≡◌, refl, sym, ◌∙◌, String, Option, none, some, List, [], ◌∷◌, ◌⊎◌, arith, inl, inr, subst,
  ap,
}
use poc_la_graph.Base.Table.{count}
use poc_la_graph.Base.Counts.{count-update_none}
use poc_la_graph.Projects.Rows.{Token, Time, Database, BuildRecord}
use poc_la_graph.Projects.Session.{Error, Result, ok, err, after, commit, Result-cases, Transaction}
use poc_la_graph.Projects.Builds.{job_is_building, claim_build, requeued, recover_builds}
use poc_la_graph.Projects.Builds.Completion.{complete_build, fail_build}
use poc_la_graph.Projects.Builds.Single.{recover_builds-IsSingle}
use poc_la_graph.Projects.Worker.{
  Outcome, raised, run_build, settle, process, attend, work, Iteration, work_all, run_forever,
}
use poc_la_graph.Projects.Worker.Idle.{work-idle}
use poc_la_graph.Projects.Session.Monad.{and_then-commit, and_then-refused, and_then-fine}
use poc_la_graph.Projects.ErrorCode.{Failure, error_code}
use poc_la_graph.Projects.Worker.Sound.{
  IsSound, Keeps-HasProjects, recover_builds-Keeps, complete_build-IsSound, fail_build-IsSound,
  claim_build-IsSound, run_build-IsSound,
}

commit-database : {A : Type 0} (m : Transaction A) (db : Database) → (commit m db).1 ≡ after m db
commit-database m db = elim (Result-cases (m db)) [
  | inl (a, db', e) ↦ ground arith
  | inr (x, e) ↦ ground arith
]

after-ok :
    {A : Type 0} (m : Transaction A) (db : Database) {a : A} (db' : Database)
    → m db ≡ ok (a, db')
    → after m db ≡ db'
after-ok m db db' e = ground arith

settle-IsSound :
    (text : Error → String) (build : BuildRecord) (done failed : Time)
    (result : Failure ⊎ (String × ℕ)) (db : Database)
    → IsSound db
    → IsSound (settle text build done failed result db).1
unfolding settle
settle-IsSound text build done failed (inl failure) db v =
    subst IsSound (sym (commit-database (fail_build build (error_code failure) failed) db))
      (fail_build-IsSound build (error_code failure) failed db v)
settle-IsSound text build done failed (inr (version, documents)) db v =
    let completing = complete_build-IsSound build version documents done db v in
    elim (Result-cases (complete_build build version documents done db)) [
      | inl (_, db', e) ↦
          let after_ok : after (complete_build build version documents done) db ≡ db' =
            after-ok (complete_build build version documents done) db db' e in
          rw (e, settle) (subst IsSound after_ok completing)
      | inr (x, e) ↦
          let code = error_code (raised text x) in
          rw (e, settle)
            (subst IsSound (sym (commit-database (fail_build build code failed) db))
              (fail_build-IsSound build code failed db v))
    ]

attend-IsSound :
    (text : Error → String) (outcome : Outcome) (done failed : Time) (build : Option BuildRecord)
    (db : Database)
    → IsSound db
    → IsSound (attend text outcome done failed build db).1
unfolding process
attend-IsSound text outcome done failed none db v = v
attend-IsSound text outcome done failed (some build) db v =
    settle-IsSound text build done failed (run_build outcome build db).0
      (run_build outcome build db).1 (run_build-IsSound outcome build db v)

work-IsSound :
    (text : Error → String) (worker : Token) (outcome : Outcome) (now done failed : Time)
    (db : Database)
    → IsSound db
    → IsSound (work text worker outcome now done failed db).1
unfolding work process
work-IsSound text worker outcome now done failed db v =
    let claiming = claim_build-IsSound worker now db v in
    elim (Result-cases (claim_build worker now db)) [
      | inl (build, db', e) ↦
          let claimed_db : after (claim_build worker now) db ≡ db' =
            after-ok (claim_build worker now) db db' e in
          let went : work text worker outcome now done failed db
              ≡ attend text outcome done failed build db' =
            and_then-commit (claim_build worker now) (attend text outcome done failed) db build db'
              e in
          subst (λ (end : Result (Unit {0}) × Database). IsSound end.1) (sym went)
            (attend-IsSound text outcome done failed build db' (subst IsSound claimed_db claiming))
      | inr (x, e) ↦
          let stopped : work text worker outcome now done failed db ≡ (err x, db) =
            and_then-refused (claim_build worker now) (attend text outcome done failed) db x e in
          subst (λ (end : Result (Unit {0}) × Database). IsSound end.1) (sym stopped) v
    ]

-- The next iteration starts where an iteration without an exception ended.
work_all-step :
    (text : Error → String) (worker : Token) (i : Iteration) (is : List Iteration) (db : Database)
    → (work text worker i.outcome i.now i.done i.failed db).0 ≡ ok tt
    → work_all text worker (i ∷ is) db
      ≡ work_all text worker is (work text worker i.outcome i.now i.done i.failed db).1
unfolding work_all
work_all-step text worker i is db fine =
    and_then-fine (work text worker i.outcome i.now i.done i.failed) (λ _. work_all text worker is)
      db fine

work_all-idle :
    (text : Error → String) (worker : Token) (is : List Iteration) (db : Database)
    → IsSound db
    → count job_is_building db.builds ≡ 0
    → ((work_all text worker is db).0 ≡ ok tt)
      × (count job_is_building (work_all text worker is db).1.builds ≡ 0)
unfolding work_all
work_all-idle text worker [] db v idle = (refl, idle)
work_all-idle text worker (i ∷ is) db v idle =
    let db' = (work text worker i.outcome i.now i.done i.failed db).1 in
    let (fine, idle') =
      work-idle text worker i.outcome i.now i.done i.failed db v.single v.projects idle in
    let sound = work-IsSound text worker i.outcome i.now i.done i.failed db v in
    subst
      (λ (end : Result (Unit {0}) × Database).
        (end.0 ≡ ok tt) × (count job_is_building end.1.builds ≡ 0))
      (sym (work_all-step text worker i is db fine)) (work_all-idle text worker is db' sound idle')

recover_builds-idle : (db : Database) → count job_is_building (after recover_builds db).builds ≡ 0
unfolding recover_builds
recover_builds-idle db = count-update_none job_is_building requeued (λ job. refl) db.builds

recover_builds-fine : (db : Database) → (commit recover_builds db).0 ≡ ok tt
unfolding recover_builds
recover_builds-fine db = refl

-- From a database with unique and used job identifiers, at most one running job and every job's
-- project, the worker's start and any number of its iterations raise no exception and leave no job
-- running, however the builds and their completions end.
pub run_forever-idle :
    (text : Error → String) (worker : Token) (is : List Iteration) (db : Database)
    → IsSound db
    → ((run_forever text worker is db).0 ≡ ok tt)
      × (count job_is_building (run_forever text worker is db).1.builds ≡ 0)
unfolding run_forever
run_forever-idle text worker is db v =
    let start : (commit recover_builds db).1 ≡ after recover_builds db =
      commit-database recover_builds db in
    let sound : IsSound (after recover_builds db) = record {
      single = recover_builds-IsSingle db v.single;
      projects =
          Keeps-HasProjects db (after recover_builds db) (recover_builds-Keeps db) v.projects;
    } in
    let ends =
      work_all-idle text worker is (after recover_builds db) sound (recover_builds-idle db) in
    let went : run_forever text worker is db ≡ work_all text worker is (after recover_builds db) =
      and_then-fine (commit recover_builds) (λ _. work_all text worker is) db
        (recover_builds-fine db)
      ∙ ap (work_all text worker is) start in
    subst
      (λ (end : Result (Unit {0}) × Database).
        (end.0 ≡ ok tt) × (count job_is_building end.1.builds ≡ 0))
      (sym went) ends
