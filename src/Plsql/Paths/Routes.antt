-- ===== src/Plsql/Paths/Routes.antt =====
-- What a dependency path is, said of the edges themselves, and the facts about the edges that
-- `find_paths` (apps/api/app/integrations/plsql/synthetic.py) reads.
use poc_la_graph.Base.{
  ℕ, ◌≡◌, ◌≢◌, Bool, true, false, some, List, [], ◌∷◌, ◌++◌, ◌==◌, map, arith, keep, any, All, inl,
  inr, Bool-cases,
}
use poc_la_graph.Plsql.Models.{DependencyRecord}
use poc_la_graph.Plsql.Order.{All-sort_by, any-sort_by}
use poc_la_graph.Plsql.Client.{Client, edge_by_id}
use poc_la_graph.Plsql.Paths.{is_traversed, by_edge_id, adjacency, contains}

-- Every edge is found under its own identifier: no two edges share one.
abbrev pub HasUniqueEdges : Client → Type 0
HasUniqueEdges c = All (λ (e : DependencyRecord). edge_by_id c.edges e.id ≡ some e) c.edges

-- An edge of the analysis that paths may take, leaving the given node.
pub record Leaves (c : Client) (node : ℕ) (e : DependencyRecord) : Type 0 where
  pub known : edge_by_id c.edges e.id ≡ some e
  pub traversed : is_traversed c e ≡ true
  pub source : e.source_id ≡ node

-- The edges lead from the current node to `to`, never back to a visited node, and meet `to` only
-- at the end.
abbrev pub IsRoute : Client → ℕ → List ℕ → ℕ → List DependencyRecord → Type 0
IsRoute c to visited current [] = current ≡ to
IsRoute c to visited current (e ∷ es) =
    (current ≢ to)
    × Leaves c current e
    × (contains e.target_id visited ≡ false)
    × IsRoute c to (visited ++ e.target_id ∷ []) e.target_id es

abbrev pub ids : List DependencyRecord → List ℕ
ids = map (λ (e : DependencyRecord). e.id)

abbrev pub has_edge_id : ℕ → DependencyRecord → Bool
has_edge_id i e = e.id == i

pub All-keep :
    {A : Type 0} (P Q : A → Type 0) (q : A → Bool)
    → ((x : A) → P x → q x ≡ true → Q x)
    → (xs : List A) → All P xs
    → All Q (keep q xs)
All-keep P Q q h [] ps = tt
All-keep P Q q h (x ∷ xs) (p, ps) = elim (Bool-cases (q x)) [
  | inl e ↦ rw e (h x p e, All-keep P Q q h xs ps)
  | inr e ↦ rw e (All-keep P Q q h xs ps)
]

-- The adjacency of a node holds edges that leave it.
pub adjacency-Leaves :
    (c : Client) (node : ℕ) → HasUniqueEdges c → All (Leaves c node) (adjacency c node)
unfolding adjacency
adjacency-Leaves c node unique = All-sort_by by_edge_id (Leaves c node) _ (
    All-keep (λ (e : DependencyRecord). edge_by_id c.edges e.id ≡ some e) (Leaves c node) _
      (λ e known h. record { known = known; traversed = ground arith; source = ground arith })
      c.edges unique)

-- An edge that is found by its identifier survives a filter that it passes.
pub any-keep :
    (q : DependencyRecord → Bool) (es : List DependencyRecord) (i : ℕ) (e : DependencyRecord)
    → edge_by_id es i ≡ some e
    → q e ≡ true
    → any (has_edge_id i) (keep q es) ≡ true
unfolding edge_by_id
any-keep q [] i e found h = cc
any-keep q (d ∷ es) i e found h = ground (arith, any-keep q es i e)

-- The adjacency of a node holds every edge that leaves it.
pub Leaves-adjacency :
    (c : Client) (node : ℕ) (e : DependencyRecord)
    → Leaves c node e
    → any (has_edge_id e.id) (adjacency c node) ≡ true
unfolding adjacency
Leaves-adjacency c node e leaves =
    rw any-sort_by
      (any-keep _ c.edges e.id e leaves.known (ground (arith, leaves.traversed, leaves.source)))
