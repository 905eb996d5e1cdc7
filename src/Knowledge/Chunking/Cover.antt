-- ===== src/Knowledge/Chunking/Cover.antt =====
-- The characters in the leaves of a document (`build_chunks` of
-- apps/api/app/knowledge/chunking.py).
use poc_la_graph.Base.{
  ℕ, ◌+◌, ◌-◌, ◌≤◌, ◌<◌, ◌≡◌, refl, ◌∙◌, subst, Bool, true, false, ◌&&◌, ◌||◌, leb, ◌==◌, List, [],
  ◌∷◌, ◌++◌, map, length, drop, some, arith, inl, inr, Bool-cases, length-take, length-drop,
}
use poc_la_graph.Knowledge.Text.{Text, Characters, slice, is_blank}
use poc_la_graph.Knowledge.Profiles.{DocumentProfile, valid_sizes, valid_sizes-bounds}
use poc_la_graph.Knowledge.Chunking.{Range, Encoding, StructuralBlock, Chunk, token_count}
use poc_la_graph.Knowledge.Chunking.Structure.{structural_blocks}
use poc_la_graph.Knowledge.Chunking.Tiles.{
  in_range, inside, visible, visible-length, visible-slice, visible-is_blank,
}
use poc_la_graph.Knowledge.Chunking.Windows.{token_windows-inside}
use poc_la_graph.Knowledge.Chunking.Offsets.{is_plain, is_plain-has_special, IsEncoding}
use poc_la_graph.Knowledge.Chunking.Plain.{is_plain-slice}
use poc_la_graph.Knowledge.Chunking.Bounded.{bounded_ranges-inside}
use poc_la_graph.Knowledge.Chunking.Blocks.{structural_blocks-Spaced}
use poc_la_graph.Knowledge.Chunking.Events.{block_range}
use poc_la_graph.Knowledge.Chunking.Build.{
  Naming, make_chunk, standalone_chunk, leaf_chunk, parent_chunk, parent_id, family, families,
  block_chunks, all_block_chunks, build_chunks,
}

-- A leaf, or a chunk that stands alone, holds the character.
unfoldable pub held_by : ℕ → Chunk → Bool
held_by i c = (c.standalone || c.level == 1) && in_range i (c.start_char, c.end_char)

unfoldable pub held : ℕ → List Chunk → Bool
held i [] = false
held i (c ∷ cs) = held_by i c || held i cs

held-append : (i : ℕ) (xs ys : List Chunk) → held i (xs ++ ys) ≡ (held i xs || held i ys)
unfolding held
held-append i [] ys = refl
held-append i (x ∷ xs) ys = ground (arith, held-append i xs ys)

held-later : (i : ℕ) (c : Chunk) (cs : List Chunk) → held i cs ≡ true → held i (c ∷ cs) ≡ true
unfolding held
held-later i c cs h = ground arith

inside_slice :
    (i start end : ℕ) (text : Text)
    → visible i text ≡ true
    → start ≤ i
    → i < end
    → i - start < length (slice start end text)
unfolding slice
inside_slice i start end text seen low high = omega (
  arith,
  visible-length i text seen,
  length-take (end - start) (drop start text),
  length-drop start text,
)

in_range_shift :
    (i base a b : ℕ)
    → base ≤ i
    → in_range (i - base) (a, b) ≡ true
    → in_range i (base + a, base + b) ≡ true
unfolding in_range
in_range_shift i base a b low h = ground arith

parent_tokens_pos : (p : DocumentProfile) → valid_sizes p ≡ true → 0 < p.parent_tokens
parent_tokens_pos p valid = omega (arith, (valid_sizes-bounds p valid).1)

module _ (encoding : Encoding) (chars : Characters) (naming : Naming) (text : Text)
    (profile : DocumentProfile) (block : StructuralBlock) where
  held_by-leaf_chunk :
      (own : Text) (i base : ℕ) (r : Range)
      → base ≤ i
      → in_range (i - base) r ≡ true
      → held_by i (leaf_chunk encoding chars naming text block own base r) ≡ true
  unfolding held_by leaf_chunk make_chunk in_range
  held_by-leaf_chunk own i base (a, b) low h = ground arith

  held-leaves :
      (own : Text) (i base : ℕ) (windows : List Range)
      → base ≤ i
      → inside (i - base) windows ≡ true
      → held i (map (leaf_chunk encoding chars naming text block own base) windows) ≡ true
  unfolding held inside
  held-leaves own i base [] low h = h
  held-leaves own i base (r ∷ rs) low h = elim (Bool-cases (in_range (i - base) r)) [
    | inl e ↦ ground (arith, held_by-leaf_chunk own i base r low e)
    | inr e ↦ ground (arith, held-leaves own i base rs low (ground arith))
  ]

  family-held :
      (laws : IsEncoding encoding) (start end : ℕ)
      → is_plain encoding text ≡ true
      → valid_sizes profile ≡ true
      → (chunks : List Chunk) × ((family encoding chars naming text profile block start end
            ≡ some chunks)
          × ((i : ℕ)
              → visible i text ≡ true
              → in_range i (start, end) ≡ true
              → held i chunks ≡ true))
  unfolding family in_range
  family-held laws start end plain valid =
      let (smaller, _) = valid_sizes-bounds profile valid in
      let (windows, (e, all)) =
        token_windows-inside encoding laws (slice start end text) profile.leaf_tokens
          profile.overlap_tokens 0 (is_plain-slice encoding start end text plain) smaller in
      let own = parent_id naming start end in
      let leaves = map (leaf_chunk encoding chars naming text block own start) windows in
      (
        parent_chunk encoding chars naming text block own (map (λ (c : Chunk). c.id) leaves) start
              end
            ∷ leaves,
        (
          rw (e, family) refl,
          λ i seen h.
              let plain : 0 + (i - start) ≡ i - start = omega arith in
              held-later i _ leaves (
                held-leaves own i start windows (ground arith) (
                  subst (λ k. inside k windows ≡ true) plain
                    (all (i - start)
                      (inside_slice i start end text seen (ground arith) (ground arith))))),
        ),
      )

  held-standalone_chunk :
      (i : ℕ)
      → in_range i (block_range block) ≡ true
      → held i (standalone_chunk encoding chars naming text block ∷ []) ≡ true
  unfolding held held_by standalone_chunk make_chunk
  held-standalone_chunk i h = ground arith

  families-held :
      (laws : IsEncoding encoding) (ranges : List Range)
      → is_plain encoding text ≡ true
      → valid_sizes profile ≡ true
      → (chunks : List Chunk) × ((families encoding chars naming text profile block ranges
            ≡ some chunks)
          × ((i : ℕ)
              → visible i text ≡ true
              → block.start ≤ i
              → inside (i - block.start) ranges ≡ true
              → held i chunks ≡ true))
  unfolding families inside
  families-held laws [] plain valid = ([], (refl, λ i seen low h. absurd (ground arith)))
  families-held laws ((a, b) ∷ rest) plain valid =
      let (here, (e, held_here)) =
        family-held laws (block.start + a) (block.start + b) plain valid in
      let (later, (f, held_later)) = families-held laws rest plain valid in
      (
        here ++ later,
        (
          rw (e, f) refl,
          λ i seen low h. elim (Bool-cases (in_range (i - block.start) (a, b))) [
            | inl at ↦ ground (
              arith,
              held-append i here later,
              held_here i seen (in_range_shift i block.start a b low at),
            )
            | inr other ↦
                ground (arith, held-append i here later, held_later i seen low (ground arith))
          ],
        ),
      )

  block_chunks-held :
      (laws : IsEncoding encoding)
      → is_plain encoding text ≡ true
      → valid_sizes profile ≡ true
      → (chunks : List Chunk) × ((block_chunks encoding chars naming text profile block
            ≡ some chunks)
          × ((i : ℕ)
              → visible i text ≡ true
              → in_range i (block_range block) ≡ true
              → held i chunks ≡ true))
  unfolding block_chunks in_range
  block_chunks-held laws plain valid =
      let plain_block = is_plain-slice encoding block.start block.end text plain in
      let accepted = is_plain-has_special encoding (slice block.start block.end text) plain_block in
      let block_text = slice block.start block.end text in
      let local =
        λ (i : ℕ) (seen : visible i text ≡ true) (low : block.start ≤ i) (high : i < block.end).
          visible-slice i block.start block.end text low high ∙ seen in
      elim (Bool-cases (is_blank block_text)) [
        | inl blank ↦ (
          [],
          (
            rw blank refl,
            λ i seen h.
                let filled =
                  visible-is_blank (i - block.start) block_text
                    (local i seen (ground arith) (ground arith)) in
                absurd (ground arith),
          ),
        )
        | inr filled ↦
            elim (Bool-cases (leb (token_count encoding block_text) profile.leaf_tokens)) [
              | inl small ↦ (
                standalone_chunk encoding chars naming text block ∷ [],
                (rw (filled, accepted, small) refl, λ i seen h. held-standalone_chunk i h),
              )
              | inr large ↦
                  let pos : 0 < profile.parent_tokens = parent_tokens_pos profile valid in
                  let (ranges, (e, covered)) =
                    bounded_ranges-inside encoding block_text profile.parent_tokens laws plain_block
                      pos in
                  let (chunks, (f, held_all)) = families-held laws ranges plain valid in
                  (
                    chunks,
                    (
                      rw (filled, accepted, large, e) f,
                      λ i seen h.
                          held_all i seen (ground arith) (
                            covered (i - block.start) (local i seen (ground arith) (ground arith))),
                    ),
                  )
            ]
      ]

module _ (encoding : Encoding) (chars : Characters) (naming : Naming) (laws : IsEncoding encoding)
    (text : Text) (profile : DocumentProfile) where
  all_block_chunks-held :
      (blocks : List StructuralBlock)
      → is_plain encoding text ≡ true
      → valid_sizes profile ≡ true
      → (chunks : List Chunk) × ((all_block_chunks encoding chars naming text profile blocks
            ≡ some chunks)
          × ((i : ℕ)
              → visible i text ≡ true
              → inside i (map block_range blocks) ≡ true
              → held i chunks ≡ true))
  unfolding all_block_chunks inside
  all_block_chunks-held [] plain valid = ([], (refl, λ i seen h. absurd (ground arith)))
  all_block_chunks-held (block ∷ rest) plain valid =
      let (here, (e, held_here)) =
        block_chunks-held encoding chars naming text profile block laws plain valid in
      let (later, (f, held_later)) = all_block_chunks-held rest plain valid in
      (
        here ++ later,
        (
          rw (e, f) refl,
          λ i seen h. elim (Bool-cases (in_range i (block_range block))) [
            | inl at ↦ ground (arith, held-append i here later, held_here i seen at)
            | inr other ↦ ground (arith, held-append i here later, held_later i seen (ground arith))
          ],
        ),
      )

  -- With a tokenizer that decodes exactly and reports its offsets in order where a text is in UTF-8 and
  -- contains no special token, and a profile that passed its validation, the division of any such
  -- document into chunks succeeds, and every character that is not white space is in a leaf or in a
  -- chunk that stands alone.
  pub build_chunks-held :
      is_plain encoding text ≡ true
      → valid_sizes profile ≡ true
      → (chunks : List Chunk) × ((build_chunks encoding chars naming text profile ≡ some chunks)
          × ((i : ℕ) → visible i text ≡ true → held i chunks ≡ true))
  unfolding build_chunks
  build_chunks-held plain valid =
      let blocks = structural_blocks chars text profile in
      let (chunks, (e, all)) = all_block_chunks-held blocks plain valid in
      let (_, covered) = structural_blocks-Spaced chars text profile in
      (chunks, (e, λ i seen. all i seen (covered i seen)))
