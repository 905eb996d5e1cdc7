-- ===== src/Knowledge/Chunking/Events.antt =====
-- The positions of the events of a document (`_structural_blocks` of
-- apps/api/app/knowledge/chunking.py).
use poc_la_graph.Base.{
  ℕ, suc, ◌+◌, ◌≤◌, ◌≡◌, refl, Bool, true, false, ltb, ◌==◌, if◌then◌else◌, List, [], ◌∷◌, length,
  arith, inl, inr, Bool-cases, Option-cases,
}
use poc_la_graph.Knowledge.Text.{Text, Characters, push, ends_line, splitlines, rstrip_line}
use poc_la_graph.Knowledge.Patterns.{heading_match, article_search}
use poc_la_graph.Knowledge.Profiles.{Boundary, page, has_boundary}
use poc_la_graph.Knowledge.Chunking.{Range, StructuralBlock}
use poc_la_graph.Knowledge.Chunking.Structure.{
  Event, page_end, heading, article_start, add_event, page_events, heading_event, article_event,
  line_events, all_events,
}
use poc_la_graph.Knowledge.Chunking.Tiles.{Rising}

abbrev pub positions : List (ℕ × List Event) → List ℕ
positions [] = []
positions ((p, es) ∷ rest) = p ∷ positions rest

add_event-Rising :
    (position lo hi : ℕ) (event : Event) (events : List (ℕ × List Event))
    → lo ≤ position
    → position ≤ hi
    → Rising lo hi (positions events)
    → Rising lo hi (positions (add_event position event events))
unfolding add_event
add_event-Rising position lo hi event [] low high r = (low, high)
add_event-Rising position lo hi event ((p, es) ∷ rest) low high (le, r) =
    elim (Bool-cases (position == p)) [
      | inl same ↦ rw same (le, r)
      | inr other ↦ elim (Bool-cases (ltb position p)) [
        | inl earlier ↦ rw (other, earlier) (low, ((ground arith), r))
        | inr later ↦
            rw (other, later) (le, add_event-Rising position p hi event rest (ground arith) high r)
      ]
    ]

page_events-Rising :
    (position hi : ℕ) (text : Text) (events : List (ℕ × List Event))
    → position + length text ≤ hi
    → Rising 0 hi (positions events)
    → Rising 0 hi (positions (page_events position text events))
unfolding page_events
page_events-Rising position hi [] events h r = r
page_events-Rising position hi (c ∷ cs) events h r =
    page_events-Rising (suc position) hi cs _ (omega arith) (next (c == 12))
  where
    next :
        (b : Bool)
        → Rising 0 hi (positions (if b then add_event (suc position) page_end events else events))
    next true = add_event-Rising (suc position) 0 hi page_end events (omega arith) (omega arith) r
    next false = r

module _ (boundaries : List Boundary) (position hi : ℕ) (inside_text : position ≤ hi) where
  heading_event-Rising :
      (value : Text) (events : List (ℕ × List Event))
      → Rising 0 hi (positions events)
      → Rising 0 hi (positions (heading_event boundaries position value events))
  unfolding heading_event
  heading_event-Rising value events r = elim (Option-cases (heading_match value)) [
    | inl e ↦ rw (e, heading_event) r
    | inr ((depth, title), e) ↦
        elim (Bool-cases (has_boundary Boundary.markdown_heading boundaries)) [
          | inl b ↦
              rw (e, b, heading_event)
                (add_event-Rising position 0 hi (heading depth title) events (omega arith)
                  inside_text r)
          | inr b ↦ rw (e, b, heading_event) r
        ]
  ]

  article_event-Rising :
      (chars : Characters) (value : Text) (events : List (ℕ × List Event))
      → Rising 0 hi (positions events)
      → Rising 0 hi (positions (article_event chars boundaries position value events))
  unfolding article_event
  article_event-Rising chars value events r =
      elim (Option-cases (article_search chars false value)) [
        | inl e ↦ rw (e, article_event) r
        | inr (number, e) ↦ elim (Bool-cases (has_boundary Boundary.legal_article boundaries)) [
          | inl b ↦
              rw (e, b, article_event)
                (add_event-Rising position 0 hi (article_start (chars.upper number)) events
                  (omega arith) inside_text r)
          | inr b ↦ rw (e, b, article_event) r
        ]
      ]

abbrev total : List Text → ℕ
total [] = 0
total (line ∷ lines) = length line + total lines

total-push : (c : ℕ) (lines : List Text) → total (push c lines) ≡ 1 + total lines
total-push c [] = omega arith
total-push c (line ∷ lines) = omega arith

-- The lines are the whole text.
total-splitlines : (text : Text) → total (splitlines text) ≡ length text
unfolding splitlines
total-splitlines [] = refl
total-splitlines (c ∷ cs) = elim (Bool-cases (ends_line c cs)) [
  | inl e ↦ rw e (omega (arith, total-splitlines cs))
  | inr e ↦ rw e (omega (arith, total-push c (splitlines cs), total-splitlines cs))
]

line_events-Rising :
    (chars : Characters) (boundaries : List Boundary) (position hi : ℕ) (lines : List Text)
    (events : List (ℕ × List Event))
    → position + total lines ≤ hi
    → Rising 0 hi (positions events)
    → Rising 0 hi (positions (line_events chars boundaries position lines events))
unfolding line_events
line_events-Rising chars boundaries position hi [] events h r = r
line_events-Rising chars boundaries position hi (line ∷ lines) events h r =
    let here : position ≤ hi = omega arith in
    line_events-Rising chars boundaries (position + length line) hi lines _ (omega arith) (
      article_event-Rising boundaries position hi here chars (rstrip_line line) _
        (heading_event-Rising boundaries position hi here (rstrip_line line) events r))

pub all_events-Rising :
    (chars : Characters) (boundaries : List Boundary) (text : Text)
    → Rising 0 (length text) (positions (all_events chars boundaries text))
unfolding all_events
all_events-Rising chars boundaries text =
    line_events-Rising chars boundaries 0 (length text) (splitlines text) _
      (omega (arith, total-splitlines text)) (pages (has_boundary page boundaries))
  where
    pages :
        (b : Bool) → Rising 0 (length text) (positions (if b then page_events 0 text [] else []))
    pages true = page_events-Rising 0 (length text) text [] (omega arith) (omega arith)
    pages false = omega arith

abbrev pub block_range : StructuralBlock → Range
block_range b = (b.start, b.end)
