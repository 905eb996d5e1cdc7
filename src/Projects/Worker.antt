-- ===== src/Projects/Worker.antt =====
-- The build worker, apps/api/app/projects/worker.py: `run_forever` and
-- `_process`. What `_build` does outside the registry (files, the graph tool, the index) is a
-- parameter: the phases it reports, and whether it ends with a version or with an exception. The
-- removal of a failed build's files and logging are left out.
pub mod Settle
pub mod Idle
pub mod Sound
pub mod Loop
use poc_la_graph.Base.{
  ℕ, String, Option, none, some, List, [], ◌∷◌, ◌⊎◌, inl, inr, Bool, true, false,
}
use poc_la_graph.Projects.ErrorCode.{Failure, error_code}
use poc_la_graph.Projects.Rows.{RowId, Token, Time, Lifecycle, Database, BuildRecord}
use poc_la_graph.Projects.Session.{
  Error, Result, ok, err, project_not_found, upload_not_found, project_conflict, authorization,
  integrity, after, Call, commit, and_then,
}
use poc_la_graph.Projects.Files.{update_file_lifecycle, snapshot_files}
use poc_la_graph.Projects.Builds.{claim_build, recover_builds}
use poc_la_graph.Projects.Builds.Completion.{complete_build, fail_build}

pub record Outcome : Type 0 where
  pub phases : List (Lifecycle × ℕ)
  pub result : Failure ⊎ (String × ℕ)

-- The exceptions of the registry: the text of a conflict is its message, and `text` gives the others.
abbrev pub raised : (Error → String) → Error → Failure
raised text (project_conflict message) = record { message = message; is_value_error = false }
raised text e = record { message = text e; is_value_error = false }

-- `report_progress`, once for each phase.
unfoldable pub report_all : RowId → List (Lifecycle × ℕ) → Database → Database
unfolding update_file_lifecycle
report_all s [] db = db
report_all s ((phase, percent) ∷ phases) db =
    report_all s phases (after (update_file_lifecycle s phase percent) db)

-- `_build`: a snapshot without files is refused before anything else.
unfoldable pub run_build : Outcome → BuildRecord → Database → (Failure ⊎ (String × ℕ)) × Database
unfolding snapshot_files report_all
run_build outcome build db = elim (snapshot_files build.snapshot_id db) [
  | [] ↦ (inl (record { message = "empty_snapshot"; is_value_error = true }), db)
  | _ ∷ _ ↦ (outcome.result, report_all build.snapshot_id outcome.phases db)
]

-- The rest of `_process`, on how the build ended.
unfoldable pub settle :
    (Error → String) → BuildRecord → Time → Time → Failure ⊎ (String × ℕ) → Call (Unit {0})
unfolding complete_build fail_build error_code
settle text build done failed (inl failure) db =
    commit (fail_build build (error_code failure) failed) db
settle text build done failed (inr (version, documents)) db =
    elim (complete_build build version documents done db) [
      | ok (_, db') ↦ (ok tt, db')
      | err e ↦ commit (fail_build build (error_code (raised text e)) failed) db
    ]

-- `_process`, with the times of the completion and of the failure.
unfoldable pub process : (Error → String) → Outcome → BuildRecord → Time → Time → Call (Unit {0})
unfolding run_build settle
process text outcome build done failed db =
    let (result, db') = run_build outcome build db in settle text build done failed result db'

-- What an iteration does with the answer of the claim; without a queued job it only sleeps.
abbrev pub attend : (Error → String) → Outcome → Time → Time → Option BuildRecord → Call (Unit {0})
attend text outcome done failed none db = (ok tt, db)
attend text outcome done failed (some build) db = process text outcome build done failed db

-- One iteration of `run_forever`.
unfoldable pub work : (Error → String) → Token → Outcome → Time → Time → Time → Call (Unit {0})
unfolding process claim_build
work text worker outcome now done failed =
    and_then (commit (claim_build worker now)) (attend text outcome done failed)

-- What one iteration meets: how the build ends, and the times of the claim, of the completion and
-- of the failure.
pub record Iteration : Type 0 where
  pub outcome : Outcome
  pub now : Time
  pub done : Time
  pub failed : Time

-- The iterations one after the other; an exception ends the loop.
unfoldable pub work_all : (Error → String) → Token → List Iteration → Call (Unit {0})
unfolding work
work_all text worker [] db = (ok tt, db)
work_all text worker (i ∷ is) db =
    and_then (work text worker i.outcome i.now i.done i.failed) (λ _. work_all text worker is) db

-- `run_forever` up to some iteration: the recovery, and then the loop.
unfoldable pub run_forever : (Error → String) → Token → List Iteration → Call (Unit {0})
unfolding work_all recover_builds
run_forever text worker is = and_then (commit recover_builds) (λ _. work_all text worker is)
