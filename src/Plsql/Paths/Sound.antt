-- ===== src/Plsql/Paths/Sound.antt =====
-- The trails that `walk` finds (apps/api/app/integrations/plsql/synthetic.py), as routes.
use poc_la_graph.Base.{
  ℕ, zero, suc, ◌≤◌, ◌≡◌, ◌≢◌, sym, ap, ◌∙◌, subst, true, false, List, [], ◌∷◌, ◌++◌, ◌==◌, map,
  arith, length, All, inl, inr, Bool-cases, ==_iff, false≢true,
}
use mathlib.Core.List.{append-nil, append_assoc, map-append}
use poc_la_graph.Plsql.Models.{DependencyRecord}
use poc_la_graph.Plsql.Order.{has_tuple, tuple_eq-true, has_tuple-append}
use poc_la_graph.Plsql.Client.{Client}
use poc_la_graph.Plsql.Paths.{
  adjacency, target_by_id, visited_nodes, contains, walk_edges, recorded, walk,
}
use poc_la_graph.Plsql.Paths.Routes.{HasUniqueEdges, Leaves, IsRoute, ids, adjacency-Leaves}

target_by_id-Leaves :
    (c : Client) (node : ℕ) (e : DependencyRecord)
    → Leaves c node e
    → target_by_id c e.id ≡ e.target_id
target_by_id-Leaves c node e leaves = ground (arith, leaves.known)

-- Taking an edge adds its target to the visited nodes.
pub visited_nodes-step :
    (c : Client) (from node : ℕ) (trail : List ℕ) (e : DependencyRecord)
    → Leaves c node e
    → visited_nodes c from (trail ++ e.id ∷ []) ≡ visited_nodes c from trail ++ e.target_id ∷ []
visited_nodes-step c from node trail e leaves =
    ap (λ nodes. from ∷ nodes)
      (map-append (target_by_id c) trail (e.id ∷ [])
        ∙ ap (λ node'. map (target_by_id c) trail ++ node' ∷ [])
            (target_by_id-Leaves c node e leaves))

module _ (c : Client) (from to : ℕ) where
  -- The trail continues the given one along a route of at most the given number of edges.
  abbrev pub Continues : ℕ → ℕ → List ℕ → List ℕ → Type 0
  Continues hops current trail t =
      (es : List DependencyRecord) × (t ≡ trail ++ ids es)
      × IsRoute c to (visited_nodes c from trail) current es
      × (length es ≤ hops)
      × (1 ≤ length t)

  recorded-Continues :
      (hops current : ℕ) (trail t : List ℕ)
      → current ≡ to
      → has_tuple t (recorded trail) ≡ true
      → Continues hops current trail t
  recorded-Continues hops current [] t arrived h = absurd (false≢true h)
  recorded-Continues hops current (i ∷ trail) t arrived h = (
    [],
    tuple_eq-true t (i ∷ trail) (ground arith) ∙ sym (append-nil _),
    arrived,
    omega arith,
    rw (tuple_eq-true t (i ∷ trail) (ground arith)) (omega arith),
  )

  walk_edges-Continues :
      (hops current : ℕ) (trail t : List ℕ) (walk_on : ℕ → List ℕ → List (List ℕ))
      → ((node : ℕ) (trail' : List ℕ)
          → has_tuple t (walk_on node trail') ≡ true
          → Continues hops node trail' t)
      → current ≢ to
      → (es : List DependencyRecord) → All (Leaves c current) es
      → has_tuple t (walk_edges (visited_nodes c from trail) walk_on trail es) ≡ true
      → Continues (suc hops) current trail t
  unfolding walk_edges
  walk_edges-Continues hops current trail t walk_on ih away [] leaves h = absurd (false≢true h)
  walk_edges-Continues hops current trail t walk_on ih away (e ∷ es) (leaves, rest) h =
      let later = walk_edges-Continues hops current trail t walk_on ih away es rest in
      elim (Bool-cases (contains e.target_id (visited_nodes c from trail))) [
        | inl seen ↦ later (rw seen at h)
        | inr fresh ↦ elim (Bool-cases (has_tuple t (walk_on e.target_id (trail ++ e.id ∷ [])))) [
          | inl taken ↦ take_edge (ih e.target_id (trail ++ e.id ∷ []) taken) fresh
          | inr passed ↦ later (
              ground (
                arith,
                has_tuple-append t (walk_on e.target_id (trail ++ e.id ∷ []))
                    (walk_edges (visited_nodes c from trail) walk_on trail es),
              ))
        ]
      ]
    where
      take_edge :
          Continues hops e.target_id (trail ++ e.id ∷ []) t
          → contains e.target_id (visited_nodes c from trail) ≡ false
          → Continues (suc hops) current trail t
      take_edge (es', same, route, short, long) fresh = (
        e ∷ es',
        same ∙ append_assoc trail (e.id ∷ []) (ids es'),
        (
          away,
          leaves,
          fresh,
          subst (λ nodes. IsRoute c to nodes e.target_id es')
              (visited_nodes-step c from current trail e leaves) route,
        ),
        omega arith,
        long,
      )

  -- By induction on the hops left.
  pub walk-Continues :
      HasUniqueEdges c
      → (hops current : ℕ) (trail t : List ℕ)
      → has_tuple t (walk c from to hops current trail) ≡ true
      → Continues hops current trail t
  unfolding walk
  walk-Continues unique zero current trail t h = elim (Bool-cases (current == to)) [
    | inl arrived ↦
        recorded-Continues zero current trail t ((==_iff current to).0 arrived) (rw arrived at h)
    | inr away ↦ absurd (false≢true (rw away at h))
  ]
  walk-Continues unique (suc hops) current trail t h = elim (Bool-cases (current == to)) [
    | inl arrived ↦
        recorded-Continues (suc hops) current trail t ((==_iff current to).0 arrived)
          (rw arrived at h)
    | inr away ↦
        walk_edges-Continues hops current trail t (walk c from to hops)
          (λ node trail' found. walk-Continues unique hops node trail' t found)
          (λ e. false≢true (sym away ∙ (==_iff current to).1 e)) (adjacency c current)
          (adjacency-Leaves c current unique) (rw away at h)
  ]
