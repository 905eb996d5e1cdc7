-- ===== src/Knowledge/Chunking/Structure.antt =====
-- The structural blocks of a document: `_structural_blocks` of
-- apps/api/app/knowledge/chunking.py.
use poc_la_graph.Base.{
  ℕ, suc, ◌+◌, ◌-◌, false, not, ◌&&◌, ltb, ◌==◌, if◌then◌else◌, List, [], ◌∷◌, ◌++◌, length, take,
  Option, none, some,
}
use poc_la_graph.Knowledge.Text.{Text, Characters, slice, is_blank, rstrip_line, splitlines}
use poc_la_graph.Knowledge.Patterns.{heading_match, article_search}
use poc_la_graph.Knowledge.Profiles.{
  Boundary, page, markdown_heading, legal_article, has_boundary, DocumentProfile,
}
use poc_la_graph.Knowledge.Chunking.{StructuralBlock}

pub data Event : Type 0 where
  page_end : Event
  heading : ℕ → Text → Event
  article_start : Text → Event

-- `events.setdefault(position, []).append(event)`, in the order of the positions.
unfoldable pub add_event : ℕ → Event → List (ℕ × List Event) → List (ℕ × List Event)
add_event position event [] = (position, event ∷ []) ∷ []
add_event position event ((p, found) ∷ rest) =
    let later = add_event position event rest in
    if position == p
    then (p, found ++ event ∷ []) ∷ rest
    else if ltb position p
    then (position, event ∷ []) ∷ (p, found) ∷ rest
    else (p, found) ∷ later

-- The ends of the matches of the form feed.
unfoldable pub page_events : ℕ → Text → List (ℕ × List Event) → List (ℕ × List Event)
page_events position [] events = events
page_events position (c ∷ cs) events =
    page_events (suc position) cs
      (if c == 12 then add_event (suc position) page_end events else events)

unfoldable pub heading_event :
    List Boundary → ℕ → Text → List (ℕ × List Event) → List (ℕ × List Event)
heading_event boundaries position value events = elim (heading_match value) [
  | none ↦ events
  | some (depth, title) ↦
      if has_boundary markdown_heading boundaries
      then add_event position (heading depth title) events
      else events
]

unfoldable pub article_event :
    Characters → List Boundary → ℕ → Text → List (ℕ × List Event) → List (ℕ × List Event)
article_event chars boundaries position value events = elim (article_search chars false value) [
  | none ↦ events
  | some number ↦
      if has_boundary legal_article boundaries
      then add_event position (article_start (chars.upper number)) events
      else events
]

-- The loop over the lines.
unfoldable pub line_events :
    Characters → List Boundary → ℕ → List Text → List (ℕ × List Event) → List (ℕ × List Event)
line_events chars boundaries position [] events = events
line_events chars boundaries position (line ∷ rest) events =
    line_events chars boundaries (position + length line) rest (
      article_event chars boundaries position (rstrip_line line)
        (heading_event boundaries position (rstrip_line line) events))

-- The variables of `_structural_blocks`.
pub record Scan : Type 0 where
  pub start : ℕ
  pub page_count : ℕ
  pub headings : List Text
  pub article : Option Text
  pub blocks : List StructuralBlock

-- `flush(end)`
unfoldable pub flush : Text → List Boundary → ℕ → Scan → Scan
flush text boundaries end s = record s {
  start = end;
  blocks =
      if ltb s.start end && not (is_blank (slice s.start end text))
      then s.blocks
        ++ record {
          start = s.start;
          end = end;
          page_number = if has_boundary page boundaries then some s.page_count else none;
          section_path = s.headings;
          article = s.article;
        }
          ∷ []
      else s.blocks;
}

unfoldable pub apply_event : Event → Scan → Scan
apply_event page_end s = record s { page_count = s.page_count + 1; article = none }
apply_event (heading depth title) s = record s {
  headings = take (depth - 1) s.headings ++ title ∷ [];
}
apply_event (article_start number) s = record s { article = some number }

unfoldable pub apply_events : List Event → Scan → Scan
apply_events [] s = s
apply_events (e ∷ es) s = apply_events es (apply_event e s)

-- The loop over the positions, and the last call of `flush`.
unfoldable pub scan_events : Text → List Boundary → List (ℕ × List Event) → Scan → Scan
scan_events text boundaries [] s = flush text boundaries (length text) s
scan_events text boundaries ((position, found) ∷ rest) s =
    scan_events text boundaries rest (apply_events found (flush text boundaries position s))

unfoldable pub all_events : Characters → List Boundary → Text → List (ℕ × List Event)
all_events chars boundaries text =
    line_events chars boundaries 0 (splitlines text)
      (if has_boundary page boundaries then page_events 0 text [] else [])

-- `_structural_blocks`
unfoldable pub structural_blocks : Characters → Text → DocumentProfile → List StructuralBlock
structural_blocks chars text profile =
    (scan_events text profile.hard_boundaries (all_events chars profile.hard_boundaries text)
      (record { start = 0; page_count = 1; headings = []; article = none; blocks = [] })).blocks
