-- ===== src/Projects/Builds/Copies.antt =====
-- What copying the files of a snapshot leaves in a draft: the loop at the end of `complete_build` of
-- apps/api/app/projects/repository.py.
use poc_la_graph.Base.{
  ℕ, suc, ◌≡◌, refl, ◌∙◌, ap, sym, Bool, true, false, ◌&&◌, Option, none, some, List, [], ◌∷◌, ◌++◌,
  ◌==◌, arith, if◌then◌else◌, inl, inr, Bool-cases, All, subst,
}
use poc_la_graph.Base.Table.{first}
use poc_la_graph.Base.Counts.{first-append_other, first-append_none}
use poc_la_graph.Projects.Rows.{RowId, Token, SnapshotFileRow, Database}
use poc_la_graph.Projects.Session.{ok, succeeds}
use poc_la_graph.Projects.Uploads.Finalization.{is_file_named}
use poc_la_graph.Projects.Uploads.Finalized.{content_of, content_at}
use poc_la_graph.Projects.Builds.Completion.{copied, copy_files}
use poc_la_graph.Projects.Session.Monad.{result_database}

abbrev pub is_named : Token → SnapshotFileRow → Bool
is_named name f = f.logical_filename == name

-- The files have different names, and the draft has none of them yet.
abbrev pub Copyable : RowId → List SnapshotFileRow → List SnapshotFileRow → Type 0
Copyable draft files [] = Unit {0}
Copyable draft files (f ∷ fs) =
    (first (is_file_named draft f.logical_filename) files ≡ none)
    × All (λ (g : SnapshotFileRow). (f.logical_filename == g.logical_filename) ≡ false) fs
    × Copyable draft files fs

Copyable-append :
    (draft : RowId) (files : List SnapshotFileRow) (file : SnapshotFileRow)
    (fs : List SnapshotFileRow)
    → All (λ (g : SnapshotFileRow). (file.logical_filename == g.logical_filename) ≡ false) fs
    → Copyable draft files fs
    → Copyable draft (files ++ file ∷ []) fs
Copyable-append draft files file [] others c = tt
Copyable-append draft files file (g ∷ gs) (other, others) (new, apart, rest) = (
  first-append_other (is_file_named draft g.logical_filename) files file (ground arith) ∙ new,
  apart,
  Copyable-append draft files file gs others rest,
)

-- The content under a name: that of the copied file with the name, or what was there before.
abbrev pub or_before : Option (Token × ℕ) → Option (Token × ℕ) → Option (Token × ℕ)
or_before (some new) before = some new
or_before none before = before

content_at-copied :
    (p draft id : RowId) (f : SnapshotFileRow) (files : List SnapshotFileRow) (t : RowId)
    (name : Token)
    → first (is_file_named draft f.logical_filename) files ≡ none
    → content_at t name (files ++ copied p draft id f ∷ []) ≡ (
        if t == draft && f.logical_filename == name
        then some (f.sha256, f.size)
        else content_at t name files)
content_at-copied p draft id f files t name new =
    let key = f.logical_filename in
    elim (Bool-cases (t == draft && key == name)) [
      | inl here ↦
          let same_t : t ≡ draft = ground arith in
          let same_name : key ≡ name = ground arith in
          rw (here, same_t, sym same_name)
            (ap content_of (
              first-append_none (is_file_named draft key) files (copied p draft id f) new
                (ground arith)))
      | inr other ↦ rw other (
          ap content_of
            (first-append_other (is_file_named t name) files (copied p draft id f) (ground arith)))
    ]

first-apart :
    (key name : Token) (fs : List SnapshotFileRow)
    → All (λ (g : SnapshotFileRow). (key == g.logical_filename) ≡ false) fs
    → key ≡ name
    → first (is_named name) fs ≡ none
unfolding first
first-apart key name [] all e = refl
first-apart key name (g ∷ gs) (apart, all) e = ground (arith, first-apart key name gs all e)

copy_files-step :
    (p draft : RowId) (f : SnapshotFileRow) (fs : List SnapshotFileRow) (db : Database)
    → first (is_file_named draft f.logical_filename) db.files ≡ none
    → copy_files p draft (f ∷ fs) db
      ≡ copy_files p draft fs (record db {
        files = db.files ++ copied p draft db.next_id f ∷ [];
        next_id = suc db.next_id;
      })
unfolding copy_files
copy_files-step p draft f fs db new = ground arith

copy_files-none : (p draft : RowId) (db : Database) → copy_files p draft [] db ≡ ok (tt, db)
unfolding copy_files
copy_files-none p draft db = refl

pub copy_files-succeeds :
    (p draft : RowId) (fs : List SnapshotFileRow) (db : Database)
    → Copyable draft db.files fs
    → succeeds (copy_files p draft fs) db ≡ true
copy_files-succeeds p draft [] db c = rw (copy_files-none p draft db, succeeds) refl
copy_files-succeeds p draft (f ∷ fs) db (new, apart, rest) =
    let mid : Database = record db {
      files = db.files ++ copied p draft db.next_id f ∷ [];
      next_id = suc db.next_id;
    } in
    rw (copy_files-step p draft f fs db new, succeeds)
      (copy_files-succeeds p draft fs mid
        (Copyable-append draft db.files (copied p draft db.next_id f) fs apart rest))

-- Which content is there does not depend on the order of the files: their names differ.
merged :
    (draft : RowId) (f : SnapshotFileRow) (fs : List SnapshotFileRow)
    → All (λ (g : SnapshotFileRow). (f.logical_filename == g.logical_filename) ≡ false) fs
    → (t : RowId) (name : Token) (before : Option (Token × ℕ))
    → (if t == draft
        then or_before
            (content_of (first (is_named name) fs))
            (if t == draft && f.logical_filename == name then some (f.sha256, f.size) else before)
        else (if t == draft && f.logical_filename == name then some (f.sha256, f.size) else before))
      ≡ (if t == draft
          then or_before (content_of (first (is_named name) (f ∷ fs))) before
          else before)
unfolding first
merged draft f fs apart t name before = elim (Bool-cases (f.logical_filename == name)) [
  | inl same ↦
      let others : first (is_named name) fs ≡ none =
        first-apart f.logical_filename name fs apart (ground arith) in
      ground arith
  | inr other ↦ ground arith
]

-- The files are all copied, and the draft has their contents under their names.
pub copy_files-contents :
    (p draft : RowId) (fs : List SnapshotFileRow) (db db' : Database)
    → Copyable draft db.files fs
    → copy_files p draft fs db ≡ ok (tt, db')
    → (t : RowId) (name : Token)
    → content_at t name db'.files ≡ (
        if t == draft
        then or_before (content_of (first (is_named name) fs)) (content_at t name db.files)
        else content_at t name db.files)
unfolding first
copy_files-contents p draft [] db db' c done t name =
    subst
      (λ (x : Database).
        content_at t name x.files
        ≡ (if t == draft then content_at t name db.files else content_at t name db.files))
      (ap (λ r. result_database r db) (sym (copy_files-none p draft db) ∙ done)) (ground arith)
copy_files-contents p draft (f ∷ fs) db db' (new, apart, rest) done t name =
    let mid : Database = record db {
      files = db.files ++ copied p draft db.next_id f ∷ [];
      next_id = suc db.next_id;
    } in
    copy_files-contents p draft fs mid db'
      (Copyable-append draft db.files (copied p draft db.next_id f) fs apart rest)
      (sym (copy_files-step p draft f fs db new) ∙ done) t name
    ∙ rw (content_at-copied p draft db.next_id f db.files t name new)
        (merged draft f fs apart t name (content_at t name db.files))

pub copy_files-projects :
    (p draft : RowId) (fs : List SnapshotFileRow) (db db' : Database)
    → Copyable draft db.files fs
    → copy_files p draft fs db ≡ ok (tt, db')
    → db'.projects ≡ db.projects
copy_files-projects p draft [] db db' c done =
    sym (ap (λ r. (result_database r db).projects) (sym (copy_files-none p draft db) ∙ done))
copy_files-projects p draft (f ∷ fs) db db' (new, apart, rest) done =
    let mid : Database = record db {
      files = db.files ++ copied p draft db.next_id f ∷ [];
      next_id = suc db.next_id;
    } in
    copy_files-projects p draft fs mid db'
      (Copyable-append draft db.files (copied p draft db.next_id f) fs apart rest)
      (sym (copy_files-step p draft f fs db new) ∙ done)
