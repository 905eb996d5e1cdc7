-- ===== src/Plsql/Tests.antt =====
-- A small analysis, on which the theorems on paths, pages and impact are applied: two routines
-- call a third by two routes, and it writes a table.
use poc_la_graph.Base.{ℕ, ◌≡◌, refl, true, none, List, [], ◌∷◌, ◌↔◌, arith, length, ◌≤◌, map, max}
use poc_la_graph.Plsql.Models.{
  ObjectKind, Relationship, Resolution, Direction, ObjectRecord, DependencyRecord,
  is_path_relationship,
}
use poc_la_graph.Plsql.Order.{has_tuple}
use poc_la_graph.Plsql.Client.{Client, edge_by_id, get_object}
use poc_la_graph.Plsql.Paths.{
  find_paths, walk_edges, adjacency, ordered_trails, path_record, bounded_hops,
}
use poc_la_graph.Plsql.Paths.Routes.{HasUniqueEdges, IsRoute, ids}
use poc_la_graph.Plsql.Paths.Complete.{ordered_trails_iff}
use poc_la_graph.Plsql.Pages.{follow, follow-find_paths}
use poc_la_graph.Plsql.Impact.{visit_edges, neighbours, impact_anchors, impact_trails, item_of}
use poc_la_graph.Plsql.Impact.Tours.{has_entry}
use poc_la_graph.Plsql.Impact.Complete.{Affects, impact_trails_iff}
use poc_la_graph.Plsql.Impact.Distance.{impact_distance}

abbrev an_object : ℕ → ObjectKind → ObjectRecord
an_object i kind = record {
  id = i;
  kind = kind;
  name = i;
  schema_name = 0;
  qualified_name = i;
  project_id = 1;
  owner = none;
  signature = none;
  return_type = none;
  evidence = none;
}

abbrev an_edge : ℕ → Relationship → ℕ → ℕ → DependencyRecord
an_edge i relationship from to = record {
  id = i;
  relationship = relationship;
  resolution = Resolution.exact;
  source_id = from;
  source_kind = ObjectKind.procedure;
  source_name = from;
  source_qualified_name = from;
  target_id = to;
  target_kind = ObjectKind.procedure;
  target_name = to;
  target_qualified_name = to;
  evidence = none;
  evidence_kind = none;
  derived = none;
  events = none;
  via_table_id = none;
  via_table_kind = none;
  via_table_name = none;
  via_table_qualified_name = none;
}

-- 1 calls 2 and 3, which both call 4; 4 calls 1 back, and writes the table 5.
abbrev a_client : Client
a_client = record {
  project_id = 1;
  max_rows = 3;
  corpus =
      an_object 1 ObjectKind.procedure
      ∷ an_object 2 ObjectKind.procedure
      ∷ an_object 3 ObjectKind.procedure
      ∷ an_object 4 ObjectKind.procedure
      ∷ an_object 5 ObjectKind.table
      ∷ [];
  edges =
      an_edge 10 Relationship.calls 1 2
      ∷ an_edge 11 Relationship.calls 1 3
      ∷ an_edge 12 Relationship.calls 2 4
      ∷ an_edge 13 Relationship.calls 3 4
      ∷ an_edge 14 Relationship.calls 4 1
      ∷ an_edge 15 Relationship.writes 4 5
      ∷ [];
  casefold = λ name. name;
}

a_client-HasUniqueEdges : HasUniqueEdges a_client
unfolding edge_by_id
a_client-HasUniqueEdges = (refl, (refl, (refl, (refl, (refl, (refl, tt))))))

trails_are : ordered_trails a_client 1 5 4 ≡ (10 ∷ 12 ∷ 15 ∷ []) ∷ (11 ∷ 13 ∷ 15 ∷ []) ∷ []
unfolding ordered_trails walk_edges adjacency get_object edge_by_id
trails_are = refl

too_short : ordered_trails a_client 1 5 2 ≡ []
unfolding ordered_trails walk_edges adjacency get_object edge_by_id
too_short = refl

impact_is :
    impact_trails a_client 5 2 is_path_relationship Direction.upstream
    ≡ (4, 15 ∷ []) ∷ (2, 12 ∷ 15 ∷ []) ∷ (3, 13 ∷ 15 ∷ []) ∷ []
unfolding impact_trails visit_edges neighbours
impact_is = refl

ordered_trails_iff_example :
    (has_tuple (10 ∷ 12 ∷ 15 ∷ []) (ordered_trails a_client 1 5 4) ≡ true) ↔ (
      (es : List DependencyRecord) × (10 ∷ 12 ∷ 15 ∷ [] ≡ ids es)
      × IsRoute a_client 5 (1 ∷ []) 1 es
      × (1 ≤ length es)
      × (length es ≤ max 1 4))
ordered_trails_iff_example =
    ordered_trails_iff a_client a_client-HasUniqueEdges 1 5 4 (10 ∷ 12 ∷ 15 ∷ [])

few_trails : length (ordered_trails a_client 1 5 4) ≤ 2
few_trails = rw trails_are (omega arith)

follow-find_paths_example :
    follow 3 (λ offset. find_paths a_client 1 5 4 1 offset) 0
    ≡ map (path_record a_client) (ordered_trails a_client 1 5 4)
follow-find_paths_example = follow-find_paths a_client 1 5 4 1 3 (omega (arith, few_trails))

impact_trails_iff_example :
    (has_entry 2 (12 ∷ 15 ∷ []) (impact_trails a_client 5 2 is_path_relationship Direction.upstream)
      ≡ true)
    ↔ Affects a_client is_path_relationship Direction.upstream
        (impact_anchors a_client 5)
        (bounded_hops 2)
        2
        (12 ∷ 15 ∷ [])
impact_trails_iff_example =
    impact_trails_iff a_client a_client-HasUniqueEdges 5 2 is_path_relationship Direction.upstream 2
      (12 ∷ 15 ∷ [])

-- The tour that takes the edges 12 and 15 back from the table to the procedure 2.
affected :
    Affects a_client is_path_relationship Direction.upstream
      (impact_anchors a_client 5)
      (bounded_hops 2)
      2
      (12 ∷ 15 ∷ [])
affected =
    (impact_trails_iff a_client a_client-HasUniqueEdges 5 2 is_path_relationship Direction.upstream
        2 (12 ∷ 15 ∷ [])).0
      (rw impact_is refl)

impact_distance_example :
    ((item_of a_client
        (impact_trails a_client 5 2 is_path_relationship Direction.upstream)
        2
        (an_object 2 ObjectKind.procedure)).distance
      ≤ 2)
    × ((u : List ℕ) × Affects a_client is_path_relationship Direction.upstream
          (impact_anchors a_client 5)
          (bounded_hops 2)
          2
          u
        × (length u
            ≡ (item_of a_client
                (impact_trails a_client 5 2 is_path_relationship Direction.upstream)
                2
                (an_object 2 ObjectKind.procedure)).distance))
impact_distance_example =
    impact_distance a_client a_client-HasUniqueEdges 5 2 is_path_relationship Direction.upstream 2
      (12 ∷ 15 ∷ []) (an_object 2 ObjectKind.procedure) affected
