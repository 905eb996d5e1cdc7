-- ===== src/Plsql/Report.antt =====
-- The reports over the impact traversal: `_impact_summary`, `impact_of` and `overview_of` of
-- apps/api/app/integrations/plsql/synthetic.py.
use poc_la_graph.Base.{
  ℕ, ◌+◌, ◌-◌, Bool, ◌&&◌, ◌||◌, Option, none, some, List, [], ◌∷◌, ◌++◌, ◌==◌, ltb, leb, map,
  if◌then◌else◌, length, take, keep, any,
}
use poc_la_graph.Plsql.Models.{
  Direction, Relationship, ObjectRecord, DependencyRecord, Page, ImpactItem, ImpactSummary,
  Overview, is_calls, is_writes, is_path_relationship, is_table_or_view, is_package,
}
use poc_la_graph.Plsql.Order.{sort_by}
use poc_la_graph.Plsql.Client.{
  Client, get_object, in_corpus, edge_by_id, bounded_limit, table_access_of,
}
use poc_la_graph.Plsql.Paths.{contains, page_at}
use poc_la_graph.Plsql.Impact.{
  Found, impact_anchors, impact_trails, trails_to, without, dependents, shortest, items_of,
}

-- `items.sort(key=…)`: by distance, caseless qualified name and identifier.
abbrev item_le : Client → ImpactItem → ImpactItem → Bool
item_le c a b =
    let x = c.casefold a.dependent.qualified_name in
    let y = c.casefold b.dependent.qualified_name in
    ltb a.distance b.distance
    || (a.distance == b.distance && (ltb x y || (x == y && leb a.dependent.id b.dependent.id)))

-- The distinct elements, in the order of their first places: `dict.fromkeys`, and the size of a set.
abbrev pub distinct : List ℕ → List ℕ
distinct [] = []
distinct (x ∷ xs) = x ∷ without x (distinct xs)

-- The package that a dependent counts for: its owner's, or itself. No owner's name is empty.
abbrev package_of : ObjectRecord → Option (ℕ × ℕ)
package_of r = elim r.owner [
  | some owner ↦ some (r.schema_name, owner)
  | none ↦ if is_package r.kind then some (r.schema_name, r.name) else none
]

abbrev same_package : ℕ × ℕ → ℕ × ℕ → Bool
same_package a b = a.0 == b.0 && a.1 == b.1

-- `packages`, a set of pairs.
abbrev packages_of : Client → List ℕ → List (ℕ × ℕ)
packages_of c [] = []
packages_of c (p ∷ ps) =
    let rest = packages_of c ps in
    elim (get_object c p) [
      | none ↦ rest
      | some r ↦ elim (package_of r) [
        | none ↦ rest
        | some k ↦ if any (same_package k) rest then rest else k ∷ rest
      ]
    ]

abbrev modified_table : Client → ℕ → List ℕ
modified_table c i = elim (edge_by_id c.edges i) [
  | none ↦ []
  | some e ↦
      if is_writes e.relationship && is_table_or_view e.target_kind then e.target_id ∷ [] else []
]

abbrev modified_on : Client → List ℕ → List ℕ
modified_on c [] = []
modified_on c (i ∷ trail) = modified_table c i ++ modified_on c trail

abbrev modified_tables : Client → Found → List ℕ
modified_tables c [] = []
modified_tables c ((p, t) ∷ found) = modified_on c t ++ modified_tables c found

abbrev count_direct : Found → List ℕ → ℕ
count_direct found [] = 0
count_direct found (p ∷ ps) =
    (if shortest (trails_to p found) == 1 then 1 else 0) + count_direct found ps

-- `_impact_summary`
unfoldable pub impact_summary : Client → Found → ImpactSummary
impact_summary c found =
    let direct = count_direct found (dependents found) in
    record {
      direct = direct;
      indirect = length (dependents found) - direct;
      packages = length (packages_of c (dependents found));
      tables_modified = length (distinct (modified_tables c found));
    }

unfoldable pub impact_items : Client → Found → List ImpactItem
unfolding sort_by get_object
impact_items c found = sort_by (item_le c) (items_of c found (dependents found))

unfoldable pub impact_of :
    Client → ℕ → ℕ → ℕ → Direction → (Relationship → Bool) → ℕ → Page ImpactItem × ImpactSummary
unfolding impact_trails page_at bounded_limit impact_items impact_summary
impact_of c object_id max_hops limit d relationships offset =
    let found = impact_trails c object_id max_hops relationships d in
    (page_at (bounded_limit c limit) offset (impact_items c found), impact_summary c found)

-- `direct` of `overview_of`: the path edges into an anchor from an object of the corpus.
abbrev is_direct : Client → List ℕ → DependencyRecord → Bool
is_direct c anchors e =
    is_path_relationship e.relationship && contains e.target_id anchors && in_corpus c e.source_id

abbrev is_call_into : List ℕ → DependencyRecord → Bool
is_call_into anchors e = is_calls e.relationship && contains e.target_id anchors

abbrev is_call_from : List ℕ → DependencyRecord → Bool
is_call_from anchors e = is_calls e.relationship && contains e.source_id anchors

abbrev objects_at : Client → List ℕ → List ObjectRecord
objects_at c [] = []
objects_at c (i ∷ is) = elim (get_object c i) [
  | none ↦ objects_at c is
  | some r ↦ r ∷ objects_at c is
]

abbrev overview : Client → ℕ → ℕ → ℕ → ObjectRecord → Overview
overview c object_id max_hops limit r =
    let anchors = impact_anchors c object_id in
    let access = (table_access_of c object_id c.max_rows).items in
    let total =
      (impact_of c object_id max_hops c.max_rows Direction.upstream is_path_relationship
        0).0.total in
    let direct = length (keep (is_direct c anchors) c.edges) in
    let caller_ids =
      distinct
        (map (λ (e : DependencyRecord). e.source_id) (keep (is_call_into anchors) c.edges)) in
    let callee_ids =
      distinct
        (map (λ (e : DependencyRecord). e.target_id) (keep (is_call_from anchors) c.edges)) in
    record {
      object_record = r;
      direct_dependents = direct;
      indirect_dependents = total - direct;
      count_callers = length caller_ids;
      count_callees = length callee_ids;
      tables_accessed = length (
          distinct (
            map (λ (e : DependencyRecord). e.target_id)
              (keep (λ (e : DependencyRecord). is_table_or_view e.target_kind) access)));
      top_callers = objects_at c (take limit caller_ids);
    }

-- `overview_of`; `none` is the `KeyError` of an object that is not in the corpus.
unfoldable pub overview_of : Client → ℕ → ℕ → ℕ → Option Overview
unfolding impact_of table_access_of impact_anchors get_object
overview_of c object_id max_hops limit = elim (get_object c object_id) [
  | none ↦ none
  | some r ↦ some (overview c object_id max_hops limit r)
]
