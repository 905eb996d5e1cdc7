-- ===== src/Projects/Builds/Activation.antt =====
-- The activation of a snapshot by `complete_build` (apps/api/app/projects/repository.py).
use poc_la_graph.Base.{
  ℕ, suc, ◌≡◌, refl, ◌∙◌, ap, String, true, false, Option, none, some, List, [], ◌∷◌, ◌==◌, arith,
  if◌then◌else◌, inl, inr, Bool-cases, All,
}
use poc_la_graph.Base.Table.{first, select, update, first_holds}
use poc_la_graph.Base.Counts.{first-select, first-modify_first, first-stronger}
use poc_la_graph.Projects.Rows.{
  RowId, Token, Time, Lifecycle, SnapshotFileRow, SnapshotRow, BuildJobRow, ProjectRow, Database,
  BuildRecord,
}
use poc_la_graph.Projects.Session.{
  ok, after, succeeds, has_id, is_building, project_for_update, write_audit,
}
use poc_la_graph.Projects.Session.Monad.{succeeds-after}
use poc_la_graph.Projects.Uploads.Finalization.{is_file_named}
use poc_la_graph.Projects.Uploads.Finalized.{content_of, content_at}
use poc_la_graph.Projects.Builds.{has_job_id, has_snapshot_id, in_snapshot, with_lifecycle}
use poc_la_graph.Projects.Builds.Completion.{copy_files, activation, activated, complete_build}
use poc_la_graph.Projects.Builds.Copies.{
  is_named, or_before, Copyable, copy_files-contents, copy_files-succeeds, copy_files-projects,
}

-- No two of the files have the same name, which is a unique constraint of the table.
abbrev pub HasDistinctNames : List SnapshotFileRow → Type 0
HasDistinctNames [] = Unit {0}
HasDistinctNames (f ∷ fs) =
    All (λ (g : SnapshotFileRow). (f.logical_filename == g.logical_filename) ≡ false) fs
    × HasDistinctNames fs

-- The build runs, on the generation it was submitted for, and the next identifier is unused.
pub record IsRunning (build : BuildRecord) (db : Database) (project : ProjectRow)
    (job : BuildJobRow) (snapshot : SnapshotRow) : Type 0 where
  pub project_found : first (has_id build.project_id) db.projects ≡ some project
  pub job_found : first (has_job_id build.id) db.builds ≡ some job
  pub snapshot_found : first (has_snapshot_id build.snapshot_id) db.snapshots ≡ some snapshot
  pub same_generation : (project.generation == build.expected_generation) ≡ true
  pub building : is_building job.status ≡ true
  pub distinct : HasDistinctNames (select (in_snapshot build.snapshot_id) db.files)
  pub unused : first (in_snapshot db.next_id) db.files ≡ none

unused-Copyable :
    (draft : RowId) (files fs : List SnapshotFileRow)
    → first (in_snapshot draft) files ≡ none
    → HasDistinctNames fs
    → Copyable draft files fs
unused-Copyable draft files [] unused d = tt
unused-Copyable draft files (f ∷ fs) unused (apart, d) = (
  first-stronger (is_file_named draft f.logical_filename) (in_snapshot draft) (λ g h. ground arith)
      files unused,
  apart,
  unused-Copyable draft files fs unused d,
)

-- The progress of a file is no part of its content.
content_at-lifecycle :
    (s t : RowId) (name : Token) (phase : Lifecycle) (percent : ℕ) (files : List SnapshotFileRow)
    → content_at t name (update (in_snapshot s) (with_lifecycle phase percent) files)
      ≡ content_at t name files
unfolding first update
content_at-lifecycle s t name phase percent [] = refl
content_at-lifecycle s t name phase percent (f ∷ fs) =
    ground (arith, content_at-lifecycle s t name phase percent fs)

or_before-none : (new : Option (Token × ℕ)) → or_before new none ≡ new
or_before-none none = refl
or_before-none (some x) = refl

-- In a draft that was unused, the files copied from a snapshot are all there is.
draft_contents :
    (s draft : RowId) (name : Token) (t : RowId) (files : List SnapshotFileRow)
    → first (in_snapshot draft) files ≡ none
    → (if t == draft
        then or_before
            (content_of (first (is_named name) (select (in_snapshot s) files)))
            (content_at t name files)
        else content_at t name files)
      ≡ (if t == draft then content_at s name files else content_at t name files)
draft_contents s draft name t files unused = elim (Bool-cases (t == draft)) [
  | inl here ↦
      let none_before : first (is_file_named t name) files ≡ none =
        first-stronger (is_file_named t name) (in_snapshot draft) (λ f h. ground arith) files
          unused in
      rw (here, none_before, first-select (is_named name) (in_snapshot s) files)
        (or_before-none (content_at s name files))
  | inr other ↦ rw other refl
]

-- A running build is completed: the transaction succeeds, the project has the snapshot, the version
-- and the document count of the build and the next generation, and is ready. The new draft has the
-- files of the activated snapshot, name by name, and every other snapshot has the files it had.
pub complete_build-activates :
    (build : BuildRecord) (version : String) (documents : ℕ) (now : Time) (db : Database)
    (project : ProjectRow) (job : BuildJobRow) (snapshot : SnapshotRow)
    → IsRunning build db project job snapshot
    → (t : RowId) (name : Token)
    → let done = complete_build build version documents now in
      (succeeds done db ≡ true)
      × (first (has_id build.project_id) (after done db).projects
          ≡ some (activated build version documents now project))
      × (content_at t name (after done db).files ≡ (
          if t == db.next_id
          then content_at build.snapshot_id name db.files
          else content_at t name db.files))
unfolding complete_build project_for_update write_audit
complete_build-activates build version documents now db project job snapshot running t name =
    let draft = db.next_id in
    let files = select (in_snapshot build.snapshot_id) db.files in
    let mid : Database =
      activation build version documents now draft (record db { next_id = suc draft }) in
    let copy = copy_files build.project_id draft files in
    let last = after copy mid in
    let copyable = unused-Copyable draft db.files files running.unused running.distinct in
    let copied : copy mid ≡ ok (tt, last) =
      succeeds-after copy mid (copy_files-succeeds build.project_id draft files mid copyable) in
    let projects = copy_files-projects build.project_id draft files mid last copyable copied in
    let done = complete_build build version documents now in
    let files_after : (after done db).files
        ≡ update (in_snapshot build.snapshot_id) (with_lifecycle Lifecycle.ready 100) last.files =
      ground (
        arith, running.project_found, running.job_found, running.snapshot_found,
        running.same_generation, running.building,
      ) in
    let projects_after : (after done db).projects ≡ last.projects = ground (
      arith, running.project_found, running.job_found, running.snapshot_found,
      running.same_generation, running.building,
    ) in
    (
      ground (
        arith, running.project_found, running.job_found, running.snapshot_found,
        running.same_generation, running.building,
      ),
      rw (projects_after, projects)
          (first-modify_first (has_id build.project_id) (activated build version documents now)
            db.projects project running.project_found
            (first_holds (has_id build.project_id) db.projects project running.project_found)),
      ap (content_at t name) files_after
          ∙ content_at-lifecycle build.snapshot_id t name Lifecycle.ready 100 last.files
          ∙ copy_files-contents build.project_id draft files mid last copyable copied t name
          ∙ draft_contents build.snapshot_id draft name t db.files running.unused,
    )
