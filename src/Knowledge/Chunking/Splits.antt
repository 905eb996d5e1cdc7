-- ===== src/Knowledge/Chunking/Splits.antt =====
-- Where a text is split, and how the pieces are packed again (`_split_preserving`, `_pack_ranges` of
-- apps/api/app/knowledge/chunking.py).
use poc_la_graph.Base.{
  ℕ, suc, ◌+◌, ◌-◌, ◌≤◌, ◌≡◌, refl, subst, Bool, true, false, not, ◌&&◌, ◌||◌, ltb, leb, ◌==◌,
  if◌then◌else◌, List, [], ◌∷◌, ◌++◌, map, length, drop, none, some, arith, inl, inr, Bool-cases,
  length-take, length-drop,
}
use poc_la_graph.Knowledge.Text.{Text, is_space, slice}
use poc_la_graph.Knowledge.Patterns.{
  Pattern, paragraphs, sentences, lines, words, match_ends, run_ends, paragraph_ends,
}
use poc_la_graph.Knowledge.Chunking.{
  Range, Encoding, token_count, pairs, split_preserving, pack_ranges, split_ranges,
}
use poc_la_graph.Knowledge.Chunking.Tiles.{Tiles, Tiles-append, Tiles-le, Rising}

Rising-if :
    (b : Bool) (lo hi x : ℕ) (xs : List ℕ)
    → lo ≤ x
    → Rising x hi xs
    → Rising lo hi xs
    → Rising lo hi (if b then x ∷ xs else xs)
Rising-if true lo hi x xs le above whole = (le, above)
Rising-if false lo hi x xs le above whole = whole

run_ends-Rising :
    (member opens : ℕ → Bool) (before inside : Bool) (position lo hi : ℕ) (text : Text)
    → lo ≤ position
    → position + length text ≡ hi
    → Rising lo hi (run_ends member opens before inside position text)
unfolding run_ends
run_ends-Rising member opens before inside position lo hi [] h e =
    Rising-if inside lo hi position [] h (omega arith) (omega arith)
run_ends-Rising member opens before inside position lo hi (c ∷ cs) h e =
    let rest : (low : ℕ)
        → low ≤ suc position
        → Rising low hi
            (run_ends member opens (opens c) (member c && (inside || before)) (suc position) cs) =
      λ low le.
        run_ends-Rising member opens (opens c) (member c && (inside || before)) (suc position) low
          hi cs le (omega arith) in
    Rising-if (inside && not (member c)) lo hi position _ h (rest position (omega arith))
      (rest lo (omega arith))

last_end-bounds :
    (at_newline blank : Bool) (last position : ℕ)
    → last ≤ position
    → (last ≤ (if at_newline then suc position else (if blank then last else position)))
      × ((if at_newline then suc position else (if blank then last else position)) ≤ suc position)
last_end-bounds at_newline blank last position h = ground arith

paragraph_ends-Rising :
    (newlines last position lo hi : ℕ) (text : Text)
    → lo ≤ last
    → last ≤ position
    → position + length text ≡ hi
    → Rising lo hi (paragraph_ends newlines last position text)
unfolding paragraph_ends
paragraph_ends-Rising newlines last position lo hi [] h k e =
    Rising-if (ltb 1 newlines) lo hi last [] h (omega arith) (omega arith)
paragraph_ends-Rising newlines last position lo hi (c ∷ cs) h k e =
    let (above, below) = last_end-bounds (c == 10) (is_space c) last position k in
    let rest = λ (low : ℕ) (le : low ≤ last).
      paragraph_ends-Rising (if c == 10 then suc newlines else (if is_space c then newlines else 0))
        (if c == 10 then suc position else (if is_space c then last else position)) (suc position)
        low hi cs (omega (arith, le, above)) below (omega arith) in
    Rising-if (not (c == 10) && (not (is_space c) && ltb 1 newlines)) lo hi last _ h
      (rest last (omega arith)) (rest lo h)

pub match_ends-Rising :
    (pattern : Pattern) (text : Text) → Rising 0 (length text) (match_ends pattern text)
unfolding match_ends
match_ends-Rising paragraphs text =
    paragraph_ends-Rising 0 0 0 0 (length text) text (omega arith) (omega arith) (omega arith)
match_ends-Rising sentences text =
    run_ends-Rising _ _ _ _ 0 0 (length text) text (omega arith) (omega arith)
match_ends-Rising lines text =
    run_ends-Rising _ _ _ _ 0 0 (length text) text (omega arith) (omega arith)
match_ends-Rising words text =
    run_ends-Rising _ _ _ _ 0 0 (length text) text (omega arith) (omega arith)

pairs-Tiles :
    (start left lo len end : ℕ) (points : List ℕ)
    → left ≡ start + lo
    → Rising lo len points
    → start + len ≤ end
    → Tiles left end (pairs left (map (λ p. start + p) points ++ end ∷ []))
unfolding pairs
pairs-Tiles start left lo len end [] at_left h k = elim (Bool-cases (ltb left end)) [
  | inl e ↦ rw e (refl, ((ground arith), refl))
  | inr e ↦ rw e (ground arith)
]
pairs-Tiles start left lo len end (p ∷ ps) at_left (le, h) k =
    let later = pairs-Tiles start (start + p) p len end ps refl h k in
    elim (Bool-cases (ltb left (start + p))) [
      | inl e ↦ rw e (refl, ((omega arith), later))
      | inr e ↦
          let same : start + p ≡ left = ground arith in
          rw e (
            subst (λ t. Tiles t end (pairs (start + p) (map (λ q. start + q) ps ++ end ∷ []))) same
              later)
    ]

pub length-slice :
    (start end : ℕ) (text : Text) → end ≤ length text → length (slice start end text) ≡ end - start
unfolding slice
length-slice start end text h =
    omega (arith, length-take (end - start) (drop start text), length-drop start text)

-- The pieces of a range follow one another from its start to its end.
pub split_preserving-Tiles :
    (text : Text) (start end : ℕ) (pattern : Pattern)
    → start ≤ end
    → end ≤ length text
    → Tiles start end (split_preserving text start end pattern)
unfolding split_preserving
split_preserving-Tiles text start end pattern le inside =
    pairs-Tiles start start 0 (length (slice start end text)) end
      (match_ends pattern (slice start end text)) (omega arith)
      (match_ends-Rising pattern (slice start end text))
      (omega (arith, length-slice start end text inside))

module _ (encoding : Encoding) (text : Text) (limit : ℕ) where
  pub pack_ranges-Tiles_open :
      (lo mid hi : ℕ) (rs : List Range)
      → lo ≤ mid
      → Tiles mid hi rs
      → Tiles lo hi (pack_ranges encoding text limit (some (lo, mid)) rs)
  unfolding pack_ranges
  pack_ranges-Tiles_open lo mid hi [] le t = (refl, (le, t))
  pack_ranges-Tiles_open lo mid hi ((a, b) ∷ rs) le (e, (k, t)) =
      elim (Bool-cases (ltb limit (token_count encoding (slice lo b text)))) [
        | inl over ↦ rw over (
          refl,
          (
            le,
            subst (λ s. Tiles s hi (pack_ranges encoding text limit (some (a, b)) rs)) e
                (pack_ranges-Tiles_open a b hi rs k t),
          ),
        )
        | inr fits ↦ rw fits (pack_ranges-Tiles_open lo b hi rs (omega arith) t)
      ]

  -- Packing keeps what the pieces cover.
  pub pack_ranges-Tiles :
      (lo hi : ℕ) (rs : List Range)
      → Tiles lo hi rs
      → Tiles lo hi (pack_ranges encoding text limit none rs)
  unfolding pack_ranges
  pack_ranges-Tiles lo hi [] t = t
  pack_ranges-Tiles lo hi ((a, b) ∷ rs) (e, (k, t)) =
      subst (λ s. Tiles s hi (pack_ranges encoding text limit (some (a, b)) rs)) e
        (pack_ranges-Tiles_open a b hi rs k t)

  -- So does each round over the patterns.
  pub split_ranges-Tiles :
      (pattern : Pattern) (lo hi : ℕ) (rs : List Range)
      → hi ≤ length text
      → Tiles lo hi rs
      → Tiles lo hi (split_ranges encoding text limit pattern rs)
  unfolding split_ranges
  split_ranges-Tiles pattern lo hi [] h t = t
  split_ranges-Tiles pattern lo hi ((a, b) ∷ rs) h (e, (k, t)) =
      let later = split_ranges-Tiles pattern b hi rs h t in
      elim (Bool-cases (leb (token_count encoding (slice a b text)) limit)) [
        | inl fits ↦ rw fits (e, (k, later))
        | inr over ↦ rw over (
            subst
              (λ s. Tiles s hi (
                pack_ranges encoding text limit none (split_preserving text a b pattern)
                ++ split_ranges encoding text limit pattern rs))
              e
              (Tiles-append a b hi _ _
                (pack_ranges-Tiles a b (split_preserving text a b pattern)
                  (split_preserving-Tiles text a b pattern k (omega (arith, Tiles-le b hi rs t))))
                later))
      ]
