-- ===== src/Knowledge/Chunking.antt =====
-- The division of a document into blocks, parents and leaves: apps/api/app/knowledge/chunking.py.
-- The tokenizer is a parameter, a record of the two methods that the code calls, and so is the
-- digest of an identity. Where the code raises an error, the result is `none`.
pub mod Structure
pub mod Tiles
mod Splits
pub mod Offsets
mod Plain
pub mod Windows
pub mod Bounded
pub mod Events
pub mod Blocks
pub mod Build
pub mod Cover
pub mod Families
use poc_la_graph.Base.{
  ℕ, zero, suc, ◌+◌, ◌-◌, min, max, Bool, true, false, not, ◌&&◌, ◌||◌, any, ltb, leb, ◌==◌,
  if◌then◌else◌, List, [], ◌∷◌, ◌++◌, map, length, take, keep, Option, none, some,
}
use poc_la_graph.Knowledge.Text.{
  Text, Characters, slice, is_empty, is_blank, text_eq, rstrip_line, splitlines, count_newlines,
}
use poc_la_graph.Knowledge.Patterns.{
  Pattern, paragraphs, sentences, lines, words, match_ends, heading_match, article_search,
  marker_match,
}
use poc_la_graph.Knowledge.Profiles.{
  Boundary, page, markdown_heading, legal_article, has_boundary, DocumentProfile,
}

abbrev pub Range : Type 0
Range = ℕ × ℕ

-- The tokenizer: its special tokens, `encode` of a text that contains none of them, and
-- `decode_with_offsets`, the text that the tokens stand for and the character at which each begins.
pub record Encoding : Type 0 where
  pub special_tokens : List Text
  pub encode : Text → List ℕ
  pub decode_with_offsets : List ℕ → Text × List ℕ

pub record StructuralBlock : Type 0 where
  pub start : ℕ
  pub end : ℕ
  pub page_number : Option ℕ
  pub section_path : List Text
  pub article : Option Text

pub record Chunk : Type 0 where
  pub id : Text
  pub text : Text
  pub level : ℕ
  pub parent_id : Option Text
  pub children_ids : List Text
  pub token_count : ℕ
  pub start_char : ℕ
  pub end_char : ℕ
  pub start_line : ℕ
  pub end_line : ℕ
  pub page_number : Option ℕ
  pub section_path : List Text
  pub article : Option Text
  pub paragraph : Option Text
  pub standalone : Bool

unfoldable pub is_prefix : Text → Text → Bool
is_prefix [] text = true
is_prefix (c ∷ cs) [] = false
is_prefix (c ∷ cs) (d ∷ ds) = c == d && is_prefix cs ds

-- `token in text`
unfoldable pub contains_text : Text → Text → Bool
contains_text token [] = is_empty token
contains_text token (c ∷ cs) = is_prefix token (c ∷ cs) || contains_text token cs

-- `encoding.encode(text)` raises a `ValueError`: the text contains a special token. No slice of a text
-- without special tokens contains one, so each function tests the text that it encodes first, and
-- the slices of that text are then encoded without an error.
unfoldable pub has_special : Encoding → Text → Bool
has_special encoding text = any (λ token. contains_text token text) encoding.special_tokens

-- `len(encoding.encode(text))` of a text without special tokens.
unfoldable pub token_count : Encoding → Text → ℕ
token_count encoding text = length (encoding.encode text)

-- `range(start, stop, step)` of a positive step. The fuel bounds the numbers.
unfoldable pub range : ℕ → ℕ → ℕ → ℕ → List ℕ
range zero step start stop = []
range (suc fuel) step start stop =
    let rest = range fuel step (start + step) stop in if ltb start stop then start ∷ rest else []

-- `offsets[index]`
unfoldable pub get_elem? : List ℕ → ℕ → Option ℕ
get_elem? [] index = none
get_elem? (x ∷ xs) zero = some x
get_elem? (x ∷ xs) (suc index) = get_elem? xs index

-- `offsets[index] if index < len(offsets) else len(text)`
unfoldable pub char_end : List ℕ → ℕ → ℕ → Option ℕ
char_end offsets len index =
    if ltb index (length offsets) then get_elem? offsets index else some len

-- One round of the loop over the starts of windows: the characters of the tokens.
unfoldable pub char_range : List ℕ → ℕ → ℕ → ℕ → ℕ → Option Range
char_range offsets len base token_start token_end = elim (get_elem? offsets token_start) [
  | none ↦ none
  | some start ↦ elim (char_end offsets len token_end) [
    | none ↦ none
    | some end ↦ some (base + start, base + end)
  ]
]

abbrev pub cons_some {ℓ} : {A : Type ℓ} → A → Option (List A) → Option (List A)
cons_some x none = none
cons_some x (some xs) = some (x ∷ xs)

abbrev pub append_some {ℓ} : {A : Type ℓ} → Option (List A) → Option (List A) → Option (List A)
append_some none later = none
append_some (some xs) none = none
append_some (some xs) (some ys) = some (xs ++ ys)

-- The loop ends at the window that reaches the last of the tokens.
unfoldable pub window_loop : List ℕ → ℕ → ℕ → ℕ → ℕ → List ℕ → Option (List Range)
window_loop offsets count len limit base [] = some []
window_loop offsets count len limit base (token_start ∷ rest) =
    let later = window_loop offsets count len limit base rest in
    let token_end = min (token_start + limit) count in
    elim (char_range offsets len base token_start token_end) [
      | none ↦ none
      | some window ↦ if token_end == count then some (window ∷ []) else cons_some window later
    ]

-- The windows of tokens that were decoded. A step of zero is an error, a negative one no window.
unfoldable pub stepped_windows : List ℕ → ℕ → ℕ → ℕ → ℕ → ℕ → Option (List Range)
stepped_windows offsets count len limit overlap base =
    if limit == overlap
    then none
    else if ltb limit overlap
    then some []
    else window_loop offsets count len limit base (range count (limit - overlap) 0 count)

-- `_token_windows`
unfoldable pub token_windows : Encoding → Text → ℕ → ℕ → ℕ → Option (List Range)
token_windows encoding text limit overlap base =
    let tokens = encoding.encode text in
    let (decoded, offsets) = encoding.decode_with_offsets tokens in
    if has_special encoding text
    then none
    else if is_empty tokens
    then some []
    else if text_eq decoded text
    then stepped_windows offsets (length tokens) (length text) limit overlap base
    else none

-- Successive points that differ.
unfoldable pub pairs : ℕ → List ℕ → List Range
pairs left [] = []
pairs left (right ∷ rest) =
    let later = pairs right rest in if ltb left right then (left, right) ∷ later else later

-- `_split_preserving`
unfoldable pub split_preserving : Text → ℕ → ℕ → Pattern → List Range
split_preserving text start end pattern =
    pairs start (map (λ p. start + p) (match_ends pattern (slice start end text)) ++ end ∷ [])

-- `_pack_ranges` with the range that is open.
unfoldable pub pack_ranges : Encoding → Text → ℕ → Option Range → List Range → List Range
pack_ranges encoding text limit none [] = []
pack_ranges encoding text limit (some current) [] = current ∷ []
pack_ranges encoding text limit none (piece ∷ rest) =
    pack_ranges encoding text limit (some piece) rest
pack_ranges encoding text limit (some (a, b)) ((c, d) ∷ rest) =
    let apart = pack_ranges encoding text limit (some (c, d)) rest in
    let together = pack_ranges encoding text limit (some (a, d)) rest in
    if ltb limit (token_count encoding (slice a d text)) then (a, b) ∷ apart else together

-- One round of the loop over the patterns.
unfoldable pub split_ranges : Encoding → Text → ℕ → Pattern → List Range → List Range
split_ranges encoding text limit pattern [] = []
split_ranges encoding text limit pattern ((start, end) ∷ rest) =
    let later = split_ranges encoding text limit pattern rest in
    let pieces = split_preserving text start end pattern in
    if leb (token_count encoding (slice start end text)) limit
    then (start, end) ∷ later
    else pack_ranges encoding text limit none pieces ++ later

-- The ranges that no pattern made small enough are cut between tokens.
unfoldable pub window_ranges : Encoding → Text → ℕ → List Range → Option (List Range)
window_ranges encoding text limit [] = some []
window_ranges encoding text limit ((start, end) ∷ rest) =
    let later = window_ranges encoding text limit rest in
    if leb (token_count encoding (slice start end text)) limit
    then cons_some (start, end) later
    else append_some (token_windows encoding (slice start end text) limit 0 start) later

-- The ranges of a text after the four patterns.
unfoldable pub pattern_ranges : Encoding → Text → ℕ → List Range
pattern_ranges encoding text limit = split_ranges encoding text limit words (
    split_ranges encoding text limit lines (
      split_ranges encoding text limit sentences
        (split_ranges encoding text limit paragraphs ((0, length text) ∷ []))))

unfoldable pub has_text : Text → Range → Bool
has_text text (start, end) = not (is_blank (slice start end text))

-- `_bounded_ranges`
unfoldable pub bounded_ranges : Encoding → Text → ℕ → Option (List Range)
bounded_ranges encoding text limit =
    let found = window_ranges encoding text limit (pattern_ranges encoding text limit) in
    if has_special encoding text
    then none
    else elim found [ none ↦ none | some output ↦ some (keep (has_text text) output) ]
