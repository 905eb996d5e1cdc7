-- ===== src/Plsql/Impact.antt =====
-- `impact_of` and `overview_of` of apps/api/app/integrations/plsql/synthetic.py, with
-- `_impact_anchors`, `_impact_trails` and `_impact_summary`. An item's identifier is text made from
-- its other fields and is left out.
pub mod Tours
pub mod Complete
pub mod Distance
use poc_la_graph.Base.{
  ℕ, zero, suc, min, Bool, not, ◌&&◌, ◌||◌, none, some, List, [], ◌∷◌, ◌++◌, ◌==◌, leb, map,
  reverse, if◌then◌else◌, length, keep,
}
use poc_la_graph.Plsql.Models.{
  Direction, Relationship, ObjectRecord, DependencyRecord, ImpactItem, is_package,
}
use poc_la_graph.Plsql.Order.{tuple_le, tuple_eq, sort_by, to_set}
use poc_la_graph.Plsql.Client.{Client, get_object, in_corpus, container_belongs}
use poc_la_graph.Plsql.Paths.{by_edge_id, contains, path_record, target_by_id, bounded_hops}

-- The end of an edge where the walk stands, and the end that it leads to.
abbrev pub near : Direction → DependencyRecord → ℕ
near Direction.upstream e = e.target_id
near Direction.downstream e = e.source_id

abbrev pub peer : Direction → DependencyRecord → ℕ
peer Direction.upstream e = e.source_id
peer Direction.downstream e = e.target_id

abbrev pub is_followed : Client → (Relationship → Bool) → DependencyRecord → Bool
is_followed c relationships e =
    relationships e.relationship && in_corpus c e.source_id && in_corpus c e.target_id

-- `adjacency.get(current, ())` in the direction of the walk.
unfoldable pub neighbours : Client → (Relationship → Bool) → Direction → ℕ → List DependencyRecord
unfolding sort_by
neighbours c relationships d node =
    sort_by by_edge_id
      (keep (λ (e : DependencyRecord). is_followed c relationships e && near d e == node) c.edges)

-- The trail of a chain: from the dependent to the anchor upstream, from the anchor downstream.
abbrev pub trail_of : Direction → List DependencyRecord → List ℕ
trail_of Direction.upstream chain = reverse (map (λ (e : DependencyRecord). e.id) chain)
trail_of Direction.downstream chain = map (λ (e : DependencyRecord). e.id) chain

-- `trails`, as the list of its entries: a dependent, and one of its trails.
abbrev pub Found : Type 0
Found = List (ℕ × List ℕ)

-- The loop in `visit`, where at least one hop is left.
unfoldable pub visit_edges :
    Direction
    → (ℕ → List ℕ → List DependencyRecord → Found)
    → List ℕ
    → List DependencyRecord
    → List DependencyRecord
    → Found
visit_edges d visit_on seen chain [] = []
visit_edges d visit_on seen chain (e ∷ es) =
    (if contains (peer d e) seen
      then []
      else (peer d e, trail_of d (chain ++ e ∷ []))
        ∷ visit_on (peer d e) (peer d e ∷ seen) (chain ++ e ∷ []))
    ++ visit_edges d visit_on seen chain es

-- `visit`, with the hops that are left, `bounded_hops - len(chain)`: with none left every edge is
-- skipped.
unfoldable pub visit :
    Client → (Relationship → Bool) → Direction → ℕ → ℕ → List ℕ → List DependencyRecord → Found
visit c relationships d zero current seen chain = []
visit c relationships d (suc hops) current seen chain =
    visit_edges d (visit c relationships d hops) seen chain (neighbours c relationships d current)

abbrev by_id_order : ℕ → ℕ → Bool
by_id_order a b = leb a b

-- `_impact_anchors`: the members of a package, and any other object itself.
unfoldable pub impact_anchors : Client → ℕ → List ℕ
unfolding get_object container_belongs sort_by
impact_anchors c object_id = elim (get_object c object_id) [
  | none ↦ []
  | some r ↦
      if is_package r.kind
      then sort_by by_id_order (
          map (λ (m : ObjectRecord). m.id)
            (keep (λ (m : ObjectRecord). not (m.id == object_id) && container_belongs c m object_id)
              c.corpus))
      else object_id ∷ []
]

abbrev pub visit_anchors : Client → (Relationship → Bool) → Direction → ℕ → List ℕ → Found
visit_anchors c relationships d hops [] = []
visit_anchors c relationships d hops (a ∷ anchors) =
    visit c relationships d hops a (a ∷ []) [] ++ visit_anchors c relationships d hops anchors

-- `_impact_trails`
unfoldable pub impact_trails : Client → ℕ → ℕ → (Relationship → Bool) → Direction → Found
unfolding visit impact_anchors
impact_trails c object_id max_hops relationships d =
    visit_anchors c relationships d (bounded_hops max_hops) (impact_anchors c object_id)

-- The set of the trails of one dependent.
abbrev pub trails_to : ℕ → Found → List (List ℕ)
trails_to p [] = []
trails_to p ((q, t) ∷ found) = let rest = trails_to p found in if q == p then t ∷ rest else rest

-- The keys of the dictionary, in the order of their first entries.
abbrev pub without : ℕ → List ℕ → List ℕ
without p = keep (λ q. not (q == p))

abbrev pub dependents : Found → List ℕ
dependents [] = []
dependents ((q, t) ∷ found) = q ∷ without q (dependents found)

-- `min(len(trail) for trail in trails)`, of the trails of a dependent.
abbrev pub shortest : List (List ℕ) → ℕ
shortest [] = 0
shortest (t ∷ []) = length t
shortest (t ∷ (u ∷ rest)) = min (length t) (shortest (u ∷ rest))

-- The sort key of the explaining paths: the targets on the trail, then the trail.
abbrev explanation_le : Client → List ℕ → List ℕ → Bool
explanation_le c a b =
    not (tuple_le (map (target_by_id c) b) (map (target_by_id c) a))
    || (tuple_eq (map (target_by_id c) a) (map (target_by_id c) b) && tuple_le a b)

-- One item: the shortest trails of the dependent are kept.
abbrev pub item_of : Client → Found → ℕ → ObjectRecord → ImpactItem
item_of c found p dependent =
    let distance = shortest (trails_to p found) in
    record {
      dependent = dependent;
      distance = distance;
      paths = map (path_record c) (
          sort_by (explanation_le c)
            (to_set (keep (λ t. length t == distance) (trails_to p found))));
    }

abbrev pub items_of : Client → Found → List ℕ → List ImpactItem
items_of c found [] = []
items_of c found (p ∷ ps) = elim (get_object c p) [
  | none ↦ items_of c found ps
  | some dependent ↦ item_of c found p dependent ∷ items_of c found ps
]
