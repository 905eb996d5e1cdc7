-- ===== src/Projects/Uploads/Finalized.antt =====
-- What finalizing an upload session does to the files of its draft
-- (apps/api/app/projects/repository.py, the loop of `finalize_upload`).
use poc_la_graph.Base.{
  ℕ, ◌≡◌, refl, ◌∙◌, ap, sym, String, Bool, true, false, ◌&&◌, Option, none, some, List, [], ◌∷◌,
  ◌++◌, ◌==◌, arith, if◌then◌else◌, inl, inr, Bool-cases, Option-cases, is_some, subst,
}
use poc_la_graph.Base.Table.{first, delete}
use poc_la_graph.Base.Counts.{
  first-delete, first-delete_other, first-append_other, first-append_none,
}
use poc_la_graph.Projects.Rows.{
  RowId, Token, Time, Lifecycle, SnapshotFileRow, UploadPartRow, Database,
}
use poc_la_graph.Projects.Session.{ok, after, succeeds}
use poc_la_graph.Projects.Uploads.Finalization.{
  blob_path, is_file_named, finalize_part, finalize_parts, is_blob,
}
use poc_la_graph.Projects.Session.Monad.{then_ok, then_refused, succeeds-after, result_database}

-- A file as the knowledge build sees it: its checksum and its size.
abbrev pub content_of : Option SnapshotFileRow → Option (Token × ℕ)
content_of none = none
content_of (some f) = some (f.sha256, f.size)

-- The content of the file that a snapshot has under a name.
abbrev pub content_at : RowId → Token → List SnapshotFileRow → Option (Token × ℕ)
content_at s name files = content_of (first (is_file_named s name) files)

-- The content under a name after the parts, in their order, over what was there before.
abbrev pub over : Token → List UploadPartRow → Option (Token × ℕ) → Option (Token × ℕ)
over name [] before = before
over name (part ∷ parts) before = over name parts (
    if part.logical_filename == name
    then some (part.expected_sha256, part.expected_size)
    else before)

abbrev has_path : List (RowId × String) → UploadPartRow → Bool
has_path blobs part = is_some (blob_path blobs part.id)

abbrev pub all_paths : List (RowId × String) → List UploadPartRow → Bool
all_paths blobs [] = true
all_paths blobs (part ∷ parts) = has_path blobs part && all_paths blobs parts

abbrev new_file : RowId → RowId → Time → UploadPartRow → RowId → SnapshotFileRow
new_file p s now part id = record {
  id = id;
  snapshot_id = s;
  project_id = p;
  logical_filename = part.logical_filename;
  media_type = part.media_type;
  size = part.expected_size;
  sha256 = part.expected_sha256;
  lifecycle_status = Lifecycle.uploaded;
  progress_percent = some 0;
  error_code = none;
  uploaded_at = some now;
}

abbrev replaced : RowId → RowId → Time → UploadPartRow → Database → List SnapshotFileRow
replaced p s now part db =
    delete (is_file_named s part.logical_filename) db.files ++ new_file p s now part db.next_id ∷ []

-- A part with a path is always stored: no other file has its name once the older one is deleted.
finalize_part-files :
    (p s : RowId) (blobs : List (RowId × String)) (now : Time) (part : UploadPartRow)
    (db : Database)
    → has_path blobs part ≡ true
    → (succeeds (finalize_part p s blobs now part) db ≡ true)
      × ((after (finalize_part p s blobs now part) db).files ≡ replaced p s now part db)
unfolding finalize_part
finalize_part-files p s blobs now part db known =
    let gone = first-delete (is_file_named s part.logical_filename) db.files in
    elim (Option-cases (blob_path blobs part.id)) [
      | inl missing ↦ absurd (ground arith)
      | inr (path, e) ↦ elim (Option-cases (first (is_blob p part.expected_sha256) db.blobs)) [
        | inl new ↦ (ground arith, ground arith)
        | inr (blob, f) ↦ (ground arith, ground arith)
      ]
    ]

content_at-replaced :
    (p s : RowId) (now : Time) (part : UploadPartRow) (db : Database) (t : RowId) (name : Token)
    → content_at t name (replaced p s now part db) ≡ (
        if t == s && part.logical_filename == name
        then some (part.expected_sha256, part.expected_size)
        else content_at t name db.files)
content_at-replaced p s now part db t name =
    let key = part.logical_filename in
    let kept = delete (is_file_named s key) db.files in
    let file = new_file p s now part db.next_id in
    elim (Bool-cases (t == s && key == name)) [
      | inl here ↦
          let same_s : t ≡ s = ground arith in
          let same_name : key ≡ name = ground arith in
          rw (here, same_s, sym same_name)
            (ap content_of (
              first-append_none (is_file_named s key) kept file
                (first-delete (is_file_named s key) db.files) (ground arith)))
      | inr other ↦ rw other (
          ap content_of (
            first-append_other (is_file_named t name) kept file (ground arith)
            ∙ first-delete_other (is_file_named t name) (is_file_named s key) (λ f h. ground arith)
                db.files))
    ]

finalize_part-refused :
    (p s : RowId) (blobs : List (RowId × String)) (now : Time) (part : UploadPartRow)
    (db : Database)
    → has_path blobs part ≡ false
    → succeeds (finalize_part p s blobs now part) db ≡ false
unfolding finalize_part
finalize_part-refused p s blobs now part db none_known =
    elim (Option-cases (blob_path blobs part.id)) [
      | inl missing ↦ ground arith
      | inr (path, e) ↦ absurd (ground arith)
    ]

finalize_part-idempotency :
    (p s : RowId) (blobs : List (RowId × String)) (now : Time) (part : UploadPartRow)
    (db : Database)
    → has_path blobs part ≡ true
    → (after (finalize_part p s blobs now part) db).idempotency ≡ db.idempotency
unfolding finalize_part
finalize_part-idempotency p s blobs now part db known =
    let gone = first-delete (is_file_named s part.logical_filename) db.files in
    elim (Option-cases (blob_path blobs part.id)) [
      | inl missing ↦ absurd (ground arith)
      | inr (path, e) ↦ elim (Option-cases (first (is_blob p part.expected_sha256) db.blobs)) [
        | inl new ↦ ground arith
        | inr (blob, f) ↦ ground arith
      ]
    ]

-- The rest of the loop runs on what the first part left.
finalize_parts-step :
    (p s : RowId) (blobs : List (RowId × String)) (now : Time) (part : UploadPartRow)
    (parts : List UploadPartRow) (db : Database)
    → has_path blobs part ≡ true
    → finalize_parts p s blobs now (part ∷ parts) db
      ≡ finalize_parts p s blobs now parts (after (finalize_part p s blobs now part) db)
unfolding finalize_parts
finalize_parts-step p s blobs now part parts db known =
    then_ok (finalize_part p s blobs now part) (finalize_parts p s blobs now parts) db
      (after (finalize_part p s blobs now part) db)
      (succeeds-after (finalize_part p s blobs now part) db
        ((finalize_part-files p s blobs now part db known).0))

finalize_parts-none :
    (p s : RowId) (blobs : List (RowId × String)) (now : Time) (db : Database)
    → finalize_parts p s blobs now [] db ≡ ok (tt, db)
unfolding finalize_parts
finalize_parts-none p s blobs now db = refl

finalize_parts-refused :
    (p s : RowId) (blobs : List (RowId × String)) (now : Time) (part : UploadPartRow)
    (parts : List UploadPartRow) (db : Database)
    → has_path blobs part ≡ false
    → succeeds (finalize_parts p s blobs now (part ∷ parts)) db ≡ false
unfolding finalize_parts
finalize_parts-refused p s blobs now part parts db missing =
    then_refused (finalize_part p s blobs now part) (finalize_parts p s blobs now parts) db
      (finalize_part-refused p s blobs now part db missing)

pub finalize_parts-succeeds :
    (p s : RowId) (blobs : List (RowId × String)) (now : Time) (parts : List UploadPartRow)
    (db : Database)
    → succeeds (finalize_parts p s blobs now parts) db ≡ all_paths blobs parts
finalize_parts-succeeds p s blobs now [] db =
    rw (finalize_parts-none p s blobs now db, succeeds) refl
finalize_parts-succeeds p s blobs now (part ∷ parts) db = elim (Bool-cases (has_path blobs part)) [
  | inl known ↦
      rw (finalize_parts-step p s blobs now part parts db known, known, succeeds)
        (finalize_parts-succeeds p s blobs now parts (after (finalize_part p s blobs now part) db))
  | inr missing ↦ finalize_parts-refused p s blobs now part parts db missing ∙ ground arith
]

pub finalize_parts-files :
    (p s : RowId) (blobs : List (RowId × String)) (now : Time) (parts : List UploadPartRow)
    (db db' : Database) (t : RowId) (name : Token)
    → all_paths blobs parts ≡ true
    → finalize_parts p s blobs now parts db ≡ ok (tt, db')
    → content_at t name db'.files ≡ (
        if t == s then over name parts (content_at t name db.files) else content_at t name db.files)
finalize_parts-files p s blobs now [] db db' t name all done =
    let same : db ≡ db' =
      ap (λ r. result_database r db) (sym (finalize_parts-none p s blobs now db) ∙ done) in
    subst
      (λ (x : Database).
        content_at t name x.files
        ≡ (if t == s then content_at t name db.files else content_at t name db.files))
      same (ground arith)
finalize_parts-files p s blobs now (part ∷ parts) db db' t name all done =
    let known : has_path blobs part ≡ true = ground arith in
    let mid = after (finalize_part p s blobs now part) db in
    let step : content_at t name mid.files ≡ (
        if t == s && part.logical_filename == name
        then some (part.expected_sha256, part.expected_size)
        else content_at t name db.files) =
      ap (content_at t name) ((finalize_part-files p s blobs now part db known).1)
      ∙ content_at-replaced p s now part db t name in
    let rest =
      finalize_parts-files p s blobs now parts mid db' t name (ground arith)
        (sym (finalize_parts-step p s blobs now part parts db known) ∙ done) in
    rest ∙ rw step (ground arith)

pub finalize_parts-idempotency :
    (p s : RowId) (blobs : List (RowId × String)) (now : Time) (parts : List UploadPartRow)
    (db db' : Database)
    → all_paths blobs parts ≡ true
    → finalize_parts p s blobs now parts db ≡ ok (tt, db')
    → db'.idempotency ≡ db.idempotency
finalize_parts-idempotency p s blobs now [] db db' all done = sym (
    ap (λ r. (result_database r db).idempotency)
      (sym (finalize_parts-none p s blobs now db) ∙ done))
finalize_parts-idempotency p s blobs now (part ∷ parts) db db' all done =
    let known : has_path blobs part ≡ true = ground arith in
    let mid = after (finalize_part p s blobs now part) db in
    finalize_parts-idempotency p s blobs now parts mid db' (ground arith)
      (sym (finalize_parts-step p s blobs now part parts db known) ∙ done)
    ∙ finalize_part-idempotency p s blobs now part db known
