-- ===== src/Plsql/Client.antt =====
-- The state of `SyntheticPlsqlAnalysisClient` (apps/api/app/integrations/plsql/synthetic.py) and
-- its single-hop queries: `get_object`, `callers_of`, `callees_of`, `table_access_of`,
-- `unresolved_references`, `dependencies_of`, `health` and `relationship_evidence`. The corpus and
-- the edges are the sorted fixtures; their order is what the client was given.
use poc_la_graph.Base.{
  ℕ, ◌+◌, min, max, Bool, true, false, not, ◌&&◌, ◌||◌, Option, none, some, List, [], ◌∷◌, ◌==◌,
  ltb, is_some, if◌then◌else◌, length, take, keep,
}
use poc_la_graph.Plsql.Models.{
  Category, ObjectRecord, DependencyRecord, Page, DependencySummary, HealthCategory, Health,
  is_calls, is_reads, is_writes, is_table_access, is_unresolved, is_ambiguous, is_table_or_view,
  is_package,
}

-- `casefold` is the caseless text of a name, by which results are ordered.
-- `self._max_rows` is at least 1 from the constructor on: `max(1, max_rows)`.
pub record Client : Type 0 where
  pub project_id : ℕ
  pub max_rows : ℕ
  pub corpus : List ObjectRecord
  pub edges : List DependencyRecord
  pub casefold : ℕ → ℕ

-- The dictionary comprehensions `{record.id: record …}`: of equal keys the last one holds.
unfoldable pub object_by_id : List ObjectRecord → ℕ → Option ObjectRecord
object_by_id [] i = none
object_by_id (r ∷ rs) i = elim (object_by_id rs i) [
  | some later ↦ some later
  | none ↦ if r.id == i then some r else none
]

unfoldable pub edge_by_id : List DependencyRecord → ℕ → Option DependencyRecord
edge_by_id [] i = none
edge_by_id (e ∷ es) i = elim (edge_by_id es i) [
  | some later ↦ some later
  | none ↦ if e.id == i then some e else none
]

unfoldable pub get_object : Client → ℕ → Option ObjectRecord
unfolding object_by_id
get_object c i = object_by_id c.corpus i

unfoldable pub relationship_evidence : Client → ℕ → Option DependencyRecord
unfolding edge_by_id
relationship_evidence c i = edge_by_id c.edges i

-- `object_id in self._by_id`
abbrev pub in_corpus : Client → ℕ → Bool
in_corpus c i = is_some (get_object c i)

-- `max(1, min(limit, self._max_rows))`
unfoldable pub bounded_limit : Client → ℕ → ℕ
bounded_limit c limit = max 1 (min limit c.max_rows)

unfoldable pub dependency_page : Client → List DependencyRecord → ℕ → Page DependencyRecord
unfolding bounded_limit
dependency_page c edges limit = record {
  items = take (bounded_limit c limit) edges;
  truncated = ltb (bounded_limit c limit) (length edges);
  total = length edges;
}

abbrev same_owner : Option ℕ → ObjectRecord → Bool
same_owner none container = false
same_owner (some owner) container = owner == container.name

-- `_container_belongs`: the record is the object, or a member of the package that it is.
unfoldable pub container_belongs : Client → ObjectRecord → ℕ → Bool
unfolding get_object
container_belongs c r object_id = r.id == object_id || (elim (get_object c object_id) [
  | none ↦ false
  | some container ↦
      is_package container.kind
      && same_owner r.owner container
      && r.schema_name == container.schema_name
])

unfoldable pub callers_of : Client → ℕ → ℕ → Page DependencyRecord
unfolding dependency_page
callers_of c object_id limit =
    dependency_page c
      (keep (λ (e : DependencyRecord). is_calls e.relationship && e.target_id == object_id) c.edges)
      limit

unfoldable pub callees_of : Client → ℕ → ℕ → Page DependencyRecord
unfolding dependency_page
callees_of c object_id limit =
    dependency_page c
      (keep (λ (e : DependencyRecord). is_calls e.relationship && e.source_id == object_id) c.edges)
      limit

-- The test in the loop of `table_access_of`, on an edge with both ends in the corpus.
abbrev pub accesses : Client → ℕ → ObjectRecord → ObjectRecord → Bool
accesses c object_id source target =
    (container_belongs c source object_id && is_table_or_view target.kind)
    || container_belongs c target object_id

abbrev pub is_access_of : Client → ℕ → DependencyRecord → Bool
is_access_of c object_id e = is_table_access e.relationship && (elim (get_object c e.source_id) [
  | none ↦ false
  | some source ↦ elim (get_object c e.target_id) [
    | none ↦ false
    | some target ↦ accesses c object_id source target
  ]
])

unfoldable pub table_access_of : Client → ℕ → ℕ → Page DependencyRecord
unfolding dependency_page container_belongs
table_access_of c object_id limit =
    dependency_page c (keep (is_access_of c object_id) c.edges) limit

unfoldable pub unresolved_references : Client → ℕ → Page DependencyRecord
unfolding dependency_page
unresolved_references c limit =
    dependency_page c
      (keep (λ (e : DependencyRecord). is_ambiguous e.resolution || is_unresolved e.resolution)
        c.edges)
      limit

-- The bucket of a category, from the three pages of at most `max_rows` edges.
abbrev pub bucket : Client → ℕ → Category → List DependencyRecord
bucket c object_id Category.callers = (callers_of c object_id c.max_rows).items
bucket c object_id Category.callees = (callees_of c object_id c.max_rows).items
bucket c object_id Category.read_accesses =
    keep (λ (e : DependencyRecord). is_reads e.relationship)
      (table_access_of c object_id c.max_rows).items
bucket c object_id Category.write_accesses =
    keep (λ (e : DependencyRecord). is_writes e.relationship)
      (table_access_of c object_id c.max_rows).items
bucket c object_id Category.other =
    keep (λ (e : DependencyRecord). not (is_reads e.relationship || is_writes e.relationship))
      (table_access_of c object_id c.max_rows).items

unfoldable pub dependencies_of : Client → ℕ → Category → ℕ → DependencySummary
unfolding callers_of callees_of table_access_of dependency_page
dependencies_of c object_id category limit = record {
  count_callers = (callers_of c object_id c.max_rows).total;
  count_callees = (callees_of c object_id c.max_rows).total;
  count_reads = length (bucket c object_id Category.read_accesses);
  count_writes = length (bucket c object_id Category.write_accesses);
  count_other = length (bucket c object_id Category.other);
  page = dependency_page c (bucket c object_id category) limit;
}

-- `in_scope` of `health`
abbrev in_scope : Client → Option ℕ → DependencyRecord → Bool
in_scope c none e = true
in_scope c (some object_id) e = elim (get_object c e.source_id) [
  | none ↦ false
  | some source ↦ container_belongs c source object_id
]

abbrev health_category : Client → ℕ → List DependencyRecord → HealthCategory
health_category c limit edges = record {
  count = length edges;
  items = take (bounded_limit c limit) edges;
}

unfoldable pub health : Client → Option ℕ → ℕ → Health
unfolding unresolved_references container_belongs bounded_limit
health c object_id limit =
    let edges = (unresolved_references c c.max_rows).items in
    let unresolved =
      keep (λ (e : DependencyRecord). is_unresolved e.resolution && in_scope c object_id e) edges in
    let ambiguous =
      keep (λ (e : DependencyRecord). is_ambiguous e.resolution && in_scope c object_id e) edges in
    let empty : HealthCategory = record { count = 0; items = [] } in
    record {
      total = length unresolved + length ambiguous;
      unresolved = health_category c limit unresolved;
      ambiguous = health_category c limit ambiguous;
      dynamic_sql = empty;
      parse_errors = empty;
      unsupported = empty;
      truncated =
          ltb (bounded_limit c limit) (length unresolved)
          || ltb (bounded_limit c limit) (length ambiguous);
    }
