-- ===== src/Knowledge/Chunking/Bounded.antt =====
-- The ranges of the parents (`_bounded_ranges` of apps/api/app/knowledge/chunking.py).
use poc_la_graph.Base.{
  ℕ, ◌+◌, ◌≤◌, ◌<◌, ◌≡◌, refl, subst, true, leb, List, [], ◌∷◌, ◌++◌, keep, length, some, arith,
  inl, inr, Bool-cases,
}
use poc_la_graph.Knowledge.Text.{Text, slice}
use poc_la_graph.Knowledge.Patterns.{paragraphs, sentences, lines, words}
use poc_la_graph.Knowledge.Chunking.{
  Range, Encoding, token_count, window_ranges, pattern_ranges, has_text, bounded_ranges,
}
use poc_la_graph.Knowledge.Chunking.Tiles.{
  Tiles, Tiles-append, Tiles-le, Tiles-inside, inside, inside-keep, visible, visible-length,
}
use poc_la_graph.Knowledge.Chunking.Splits.{split_ranges-Tiles, length-slice}
use poc_la_graph.Knowledge.Chunking.Windows.{token_windows-Tiles}
use poc_la_graph.Knowledge.Chunking.Offsets.{is_plain, is_plain-has_special, IsEncoding}
use poc_la_graph.Knowledge.Chunking.Plain.{is_plain-slice}

module _ (encoding : Encoding) (text : Text) (limit : ℕ) where
  pattern_ranges-Tiles : Tiles 0 (length text) (pattern_ranges encoding text limit)
  unfolding pattern_ranges
  pattern_ranges-Tiles =
      let all : length text ≤ length text = omega arith in
      let first : Tiles 0 (length text) ((0, length text) ∷ []) = (refl, ((omega arith), refl)) in
      split_ranges-Tiles encoding text limit words 0 (length text) _ all (
        split_ranges-Tiles encoding text limit lines 0 (length text) _ all (
          split_ranges-Tiles encoding text limit sentences 0 (length text) _ all
            (split_ranges-Tiles encoding text limit paragraphs 0 (length text) _ all first)))

  window_ranges-Tiles :
      (laws : IsEncoding encoding) (lo hi : ℕ) (rs : List Range)
      → is_plain encoding text ≡ true
      → 0 < limit
      → hi ≤ length text
      → Tiles lo hi rs
      → (output : List Range) × ((window_ranges encoding text limit rs ≡ some output)
          × Tiles lo hi output)
  unfolding window_ranges
  window_ranges-Tiles laws lo hi [] plain pos whole t = ([], (refl, t))
  window_ranges-Tiles laws lo hi ((a, b) ∷ rs) plain pos whole (e, (le, t)) =
      let (later, (f, tiles)) = window_ranges-Tiles laws b hi rs plain pos whole t in
      let inside_text : b ≤ length text = omega (arith, Tiles-le b hi rs t) in
      elim (Bool-cases (leb (token_count encoding (slice a b text)) limit)) [
        | inl fits ↦ ((a, b) ∷ later, (rw (fits, f) refl, (e, (le, tiles))))
        | inr over ↦
            let (windows, (g, cut)) =
              token_windows-Tiles encoding laws (slice a b text) limit a
                (is_plain-slice encoding a b text plain) pos in
            let end : a + length (slice a b text) ≡ b =
              omega (arith, length-slice a b text inside_text) in
            (
              windows ++ later,
              (
                rw (over, g, f) refl,
                subst (λ s. Tiles s hi (windows ++ later)) e
                    (Tiles-append a b hi windows later (subst (λ s. Tiles a s windows) end cut)
                      tiles),
              ),
            )
      ]

  -- The split of a text into ranges succeeds, and every visible character is in a range.
  pub bounded_ranges-inside :
      (laws : IsEncoding encoding)
      → is_plain encoding text ≡ true
      → 0 < limit
      → (output : List Range) × ((bounded_ranges encoding text limit ≡ some output)
          × ((i : ℕ) → visible i text ≡ true → inside i output ≡ true))
  unfolding bounded_ranges
  bounded_ranges-inside laws plain pos =
      let (output, (e, t)) =
        window_ranges-Tiles laws 0 (length text) (pattern_ranges encoding text limit) plain pos
          (omega arith) pattern_ranges-Tiles in
      (
        keep (has_text text) output,
        (
          ground (arith, is_plain-has_special encoding text plain),
          λ i seen.
              inside-keep i text output seen (
                Tiles-inside i 0 (length text) output t (omega arith) (visible-length i text seen)),
        ),
      )
