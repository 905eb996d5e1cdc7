-- ===== src/Knowledge/Chunking/Blocks.antt =====
-- The structural blocks of a document (`_structural_blocks` of
-- apps/api/app/knowledge/chunking.py).
use poc_la_graph.Base.{
  ℕ, ◌≤◌, ◌<◌, ◌≡◌, refl, ap, ◌∙◌, sym, subst, true, false, ◌&&◌, ltb, List, [], ◌∷◌, ◌++◌, map,
  length, none, arith, inl, inr, Bool-cases,
}
use poc_la_graph.Knowledge.Text.{Text, Characters}
use poc_la_graph.Knowledge.Profiles.{Boundary, DocumentProfile}
use poc_la_graph.Knowledge.Chunking.{Range, StructuralBlock, has_text}
use poc_la_graph.Knowledge.Chunking.Structure.{
  Event, page_end, heading, article_start, all_events, Scan, flush, apply_event, apply_events,
  scan_events, structural_blocks,
}
use poc_la_graph.Knowledge.Chunking.Tiles.{
  Rising, in_range, inside, inside-append, visible, visible-length, in_range-has_text,
}
use poc_la_graph.Knowledge.Chunking.Events.{positions, all_events-Rising, block_range}

-- Ranges that are not empty, none of which begins before the end of the one before it.
abbrev pub Spaced : ℕ → ℕ → List Range → Type 0
Spaced lo hi [] = lo ≤ hi
Spaced lo hi ((a, b) ∷ rest) = (lo ≤ a) × ((a < b) × Spaced b hi rest)

Spaced-later : (lo mid hi : ℕ) (rs : List Range) → Spaced lo mid rs → mid ≤ hi → Spaced lo hi rs
Spaced-later lo mid hi [] s h = omega arith
Spaced-later lo mid hi ((a, b) ∷ rs) (le, (less, s)) h = (le, (less, Spaced-later b mid hi rs s h))

Spaced-snoc :
    (lo mid hi : ℕ) (rs : List Range)
    → Spaced lo mid rs
    → mid < hi
    → Spaced lo hi (rs ++ (mid, hi) ∷ [])
Spaced-snoc lo mid hi [] s h = (s, (h, (omega arith)))
Spaced-snoc lo mid hi ((a, b) ∷ rs) (le, (less, s)) h = (le, (less, Spaced-snoc b mid hi rs s h))

map-snoc :
    (bs : List StructuralBlock) (b : StructuralBlock)
    → map block_range (bs ++ b ∷ []) ≡ map block_range bs ++ (b.start, b.end) ∷ []
map-snoc [] b = refl
map-snoc (x ∷ bs) b = ap (λ t. block_range x ∷ t) (map-snoc bs b)

-- What the scan keeps: the blocks are spaced up to its start, and hold the visible characters before
-- it.
record IsScan (text : Text) (s : Scan) : Type 0 where
  spaced : Spaced 0 s.start (map block_range s.blocks)
  seen : (i : ℕ) → i < s.start → visible i text ≡ true → inside i (map block_range s.blocks) ≡ true

module _ (text : Text) (boundaries : List Boundary) where
  flush_block :
      (end : ℕ) (s : Scan)
      → (ltb s.start end && has_text text (s.start, end)) ≡ true
      → map block_range (flush text boundaries end s).blocks
        ≡ map block_range s.blocks ++ (s.start, end) ∷ []
  unfolding flush has_text
  flush_block end s e = rw e (map-snoc s.blocks _)

  flush_blank :
      (end : ℕ) (s : Scan)
      → (ltb s.start end && has_text text (s.start, end)) ≡ false
      → map block_range (flush text boundaries end s).blocks ≡ map block_range s.blocks
  unfolding flush has_text
  flush_blank end s e = rw e refl

  flush-start : (end : ℕ) (s : Scan) → (flush text boundaries end s).start ≡ end
  unfolding flush
  flush-start end s = refl

  flush-Spaced :
      (end : ℕ) (s : Scan)
      → s.start ≤ end
      → Spaced 0 s.start (map block_range s.blocks)
      → Spaced 0 end (map block_range (flush text boundaries end s).blocks)
  flush-Spaced end s le k = elim (Bool-cases (ltb s.start end && has_text text (s.start, end))) [
    | inl e ↦
        rw (flush_block end s e)
          (Spaced-snoc 0 s.start end (map block_range s.blocks) k (ground arith))
    | inr e ↦ rw (flush_blank end s e) (Spaced-later 0 s.start end (map block_range s.blocks) k le)
  ]

  flush-inside :
      (end : ℕ) (s : Scan) (i : ℕ)
      → (i < s.start → inside i (map block_range s.blocks) ≡ true)
      → i < end
      → visible i text ≡ true
      → inside i (map block_range (flush text boundaries end s).blocks) ≡ true
  unfolding inside in_range
  flush-inside end s i before high seen =
      let here = in_range-has_text i text (s.start, end) seen in
      elim (Bool-cases (ltb s.start end && has_text text (s.start, end))) [
        | inl e ↦ rw (flush_block end s e) (
            ground
              (arith, inside-append i (map block_range s.blocks) ((s.start, end) ∷ []), before))
        | inr e ↦ rw (flush_blank end s e) (ground (arith, before, here))
      ]

  flush-IsScan :
      (end : ℕ) (s : Scan)
      → s.start ≤ end
      → IsScan text s
      → IsScan text (flush text boundaries end s)
  flush-IsScan end s le k = record {
    spaced = rw (flush-start end s) (flush-Spaced end s le k.spaced);
    seen = λ i high see.
        flush-inside end s i (λ low. k.seen i low see) (subst (λ t. i < t) (flush-start end s) high)
          see;
  }

  apply_event-IsScan : (e : Event) (s : Scan) → IsScan text s → IsScan text (apply_event e s)
  unfolding apply_event
  apply_event-IsScan page_end s k = record { spaced = k.spaced; seen = k.seen }
  apply_event-IsScan (heading depth title) s k = record { spaced = k.spaced; seen = k.seen }
  apply_event-IsScan (article_start number) s k = record { spaced = k.spaced; seen = k.seen }

  apply_events-IsScan :
      (es : List Event) (s : Scan) → IsScan text s → IsScan text (apply_events es s)
  unfolding apply_events
  apply_events-IsScan [] s k = k
  apply_events-IsScan (e ∷ es) s k =
      apply_events-IsScan es (apply_event e s) (apply_event-IsScan e s k)

  apply_events-start : (es : List Event) (s : Scan) → (apply_events es s).start ≡ s.start
  unfolding apply_events apply_event
  apply_events-start [] s = refl
  apply_events-start (page_end ∷ es) s = apply_events-start es (apply_event page_end s)
  apply_events-start (heading depth title ∷ es) s =
      apply_events-start es (apply_event (heading depth title) s)
  apply_events-start (article_start number ∷ es) s =
      apply_events-start es (apply_event (article_start number) s)

  scan_events-IsScan :
      (events : List (ℕ × List Event)) (s : Scan)
      → Rising s.start (length text) (positions events)
      → IsScan text s
      → IsScan text (scan_events text boundaries events s)
        × ((scan_events text boundaries events s).start ≡ length text)
  unfolding scan_events
  scan_events-IsScan [] s r k = (flush-IsScan (length text) s r k, flush-start (length text) s)
  scan_events-IsScan ((p, es) ∷ rest) s (le, r) k =
      let next = apply_events es (flush text boundaries p s) in
      let at_next : next.start ≡ p =
        apply_events-start es (flush text boundaries p s) ∙ flush-start p s in
      scan_events-IsScan rest next
        (subst (λ t. Rising t (length text) (positions rest)) (sym at_next) r)
        (apply_events-IsScan es (flush text boundaries p s) (flush-IsScan p s le k))

-- For every document and profile, the structural blocks are not empty and do not overlap, they stand
-- in the order of the document, and every character that is not white space is in one of them.
pub structural_blocks-Spaced :
    (chars : Characters) (text : Text) (profile : DocumentProfile)
    → Spaced 0 (length text) (map block_range (structural_blocks chars text profile))
      × ((i : ℕ)
          → visible i text ≡ true
          → inside i (map block_range (structural_blocks chars text profile)) ≡ true)
unfolding structural_blocks
structural_blocks-Spaced chars text profile =
    let start : Scan = record {
      start = 0;
      page_count = 1;
      headings = [];
      article = none;
      blocks = [];
    } in
    let events = all_events chars profile.hard_boundaries text in
    let (k, at_end) =
      scan_events-IsScan text profile.hard_boundaries events start
        (all_events-Rising chars profile.hard_boundaries text)
        (record { spaced = omega arith; seen = λ i h. absurd (omega arith) }) in
    (
      subst
          (λ t.
            Spaced 0 t
              (map block_range (scan_events text profile.hard_boundaries events start).blocks))
          at_end k.spaced,
      λ i see. k.seen i (subst (λ t. i < t) (sym at_end) (visible-length i text see)) see,
    )
