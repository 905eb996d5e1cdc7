-- ===== src/Plsql/Paths.antt =====
-- `find_paths` of apps/api/app/integrations/plsql/synthetic.py: the bounded enumeration of
-- dependency paths between two objects, its order and its pages. A trail is the tuple of the
-- edges' identifiers.
pub mod Routes
pub mod Sound
pub mod Complete
use poc_la_graph.Base.{
  ℕ, zero, suc, ◌+◌, max, Bool, true, false, not, ◌&&◌, ◌||◌, none, some, List, [], ◌∷◌, ◌++◌, ◌==◌,
  ltb, map, if◌then◌else◌, length, take, drop, keep,
}
use poc_la_graph.Plsql.Models.{DependencyRecord, Page, PathRecord, is_path_relationship}
use poc_la_graph.Plsql.Order.{tuple_le, tuple_eq, sort_by, to_set}
use poc_la_graph.Plsql.Client.{Client, in_corpus, edge_by_id, bounded_limit}

-- The edges that take part: typed dependencies between objects of the corpus.
abbrev pub is_traversed : Client → DependencyRecord → Bool
is_traversed c e =
    is_path_relationship e.relationship && in_corpus c e.source_id && in_corpus c e.target_id

abbrev pub by_edge_id : DependencyRecord → DependencyRecord → Bool
by_edge_id d e = not (ltb e.id d.id)

-- `adjacency.get(current, ())`: the edges that leave a node, sorted by identifier.
unfoldable pub adjacency : Client → ℕ → List DependencyRecord
unfolding sort_by
adjacency c node =
    sort_by by_edge_id
      (keep (λ (e : DependencyRecord). is_traversed c e && e.source_id == node) c.edges)

-- `edge_by_id[edge_id].target_id`; an identifier that is not there does not occur in a trail.
abbrev pub target_by_id : Client → ℕ → ℕ
target_by_id c i = elim (edge_by_id c.edges i) [ none ↦ 0 | some e ↦ e.target_id ]

abbrev pub contains : ℕ → List ℕ → Bool
contains x [] = false
contains x (y ∷ ys) = x == y || contains x ys

-- `{from_id} | {target of each edge of the trail}`
abbrev pub visited_nodes : Client → ℕ → List ℕ → List ℕ
visited_nodes c from trail = from ∷ map (target_by_id c) trail

-- The loop over the edges that leave the current node; `walk_on` is `walk` with one hop less.
unfoldable pub walk_edges :
    List ℕ → (ℕ → List ℕ → List (List ℕ)) → List ℕ → List DependencyRecord → List (List ℕ)
walk_edges visited walk_on trail [] = []
walk_edges visited walk_on trail (e ∷ es) =
    (if contains e.target_id visited then [] else walk_on e.target_id (trail ++ e.id ∷ []))
    ++ walk_edges visited walk_on trail es

-- A trail that has reached its end; the empty one is not recorded.
abbrev pub recorded : List ℕ → List (List ℕ)
recorded [] = []
recorded (i ∷ trail) = (i ∷ trail) ∷ []

-- `walk`, with the hops that are left, `bounded_hops - len(trail)`, in place of the bound: none is
-- left exactly when `len(trail) >= bounded_hops`. The trails are listed as they are found.
unfoldable pub walk : Client → ℕ → ℕ → ℕ → ℕ → List ℕ → List (List ℕ)
walk c from to zero current trail = if current == to then recorded trail else []
walk c from to (suc hops) current trail =
    let onward =
      walk_edges (visited_nodes c from trail) (walk c from to hops) trail (adjacency c current) in
    if current == to then recorded trail else onward

-- `node_ids`, and the sort key `(len(trail), node_ids(trail), trail)`.
abbrev pub trail_le : Client → ℕ → List ℕ → List ℕ → Bool
trail_le c from a b =
    ltb (length a) (length b)
    || (length a == length b
        && (not (tuple_le (visited_nodes c from b) (visited_nodes c from a))
            || (tuple_eq (visited_nodes c from a) (visited_nodes c from b) && tuple_le a b)))

-- `max(1, max_hops)`
abbrev pub bounded_hops : ℕ → ℕ
bounded_hops max_hops = max 1 max_hops

-- `ordered`: all the trails, each once, in order.
unfoldable pub ordered_trails : Client → ℕ → ℕ → ℕ → List (List ℕ)
unfolding walk sort_by to_set
ordered_trails c from to max_hops =
    sort_by (trail_le c from) (to_set (walk c from to (bounded_hops max_hops) from []))

-- `[edge_by_id[edge_id] for edge_id in trail]`
abbrev pub steps_of : Client → List ℕ → List DependencyRecord
steps_of c [] = []
steps_of c (i ∷ trail) = elim (edge_by_id c.edges i) [
  | none ↦ steps_of c trail
  | some e ↦ e ∷ steps_of c trail
]

-- `_path_record`
abbrev pub path_record : Client → List ℕ → PathRecord
path_record c trail = record {
  trail = trail;
  steps = steps_of c trail;
  hop_count = length (steps_of c trail);
}

-- The slice `items[offset : offset + limit]`, with the count of the whole, of `find_paths` and
-- `impact_of`.
unfoldable pub page_at : {A : Type 0} → ℕ → ℕ → List A → Page A
page_at limit offset items = record {
  items = take limit (drop offset items);
  truncated = ltb (offset + limit) (length items);
  total = length items;
}

unfoldable pub find_paths : Client → ℕ → ℕ → ℕ → ℕ → ℕ → Page PathRecord
unfolding ordered_trails page_at bounded_limit
find_paths c from to max_hops limit offset =
    page_at (bounded_limit c limit) offset (map (path_record c) (ordered_trails c from to max_hops))
