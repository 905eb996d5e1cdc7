-- ===== src/Plsql/Paths/Complete.antt =====
-- The routes that `walk` and `find_paths` list
-- (apps/api/app/integrations/plsql/synthetic.py).
use poc_la_graph.Base.{
  ℕ, zero, suc, ◌≤◌, ◌≡◌, sym, ◌∙◌, subst, true, false, List, [], ◌∷◌, ◌++◌, ◌==◌, arith, length,
  All, any, inl, inr, Bool-cases, ==_iff, false≢true, ◌↔◌, max, if◌then◌else◌, length-map,
}
use mathlib.Core.List.{append-nil, append_assoc}
use poc_la_graph.Plsql.Models.{DependencyRecord}
use poc_la_graph.Plsql.Order.{
  has_tuple, tuple_eq_refl, has_tuple-append, has_tuple-to_set, has_tuple-sort_by, to_set,
}
use poc_la_graph.Plsql.Client.{Client}
use poc_la_graph.Plsql.Paths.{
  adjacency, visited_nodes, contains, walk_edges, recorded, walk, ordered_trails, bounded_hops,
  trail_le,
}
use poc_la_graph.Plsql.Paths.Routes.{
  HasUniqueEdges, Leaves, IsRoute, ids, has_edge_id, adjacency-Leaves, Leaves-adjacency,
}
use poc_la_graph.Plsql.Paths.Sound.{visited_nodes-step, walk-Continues}

-- Two edges that leave nodes and share an identifier are one.
Leaves-eq :
    (c : Client) (m n : ℕ) (d e : DependencyRecord)
    → Leaves c m d
    → Leaves c n e
    → d.id ≡ e.id
    → d ≡ e
Leaves-eq c m n d e p q same = cc (p.known, q.known)

module _ (c : Client) (from to : ℕ) where
  -- What one edge of the list leads to is among what the loop finds.
  walk_edges-finds :
      (current : ℕ) (trail t : List ℕ) (walk_on : ℕ → List ℕ → List (List ℕ)) (e : DependencyRecord)
      → Leaves c current e
      → contains e.target_id (visited_nodes c from trail) ≡ false
      → has_tuple t (walk_on e.target_id (trail ++ e.id ∷ [])) ≡ true
      → (es : List DependencyRecord) → All (Leaves c current) es
      → any (has_edge_id e.id) es ≡ true
      → has_tuple t (walk_edges (visited_nodes c from trail) walk_on trail es) ≡ true
  unfolding walk_edges
  walk_edges-finds current trail t walk_on e leaves fresh found [] all h = absurd (false≢true h)
  walk_edges-finds current trail t walk_on e leaves fresh found (d ∷ es) (d_leaves, all) h =
      elim (Bool-cases (d.id == e.id)) [
        | inl same ↦
            let one : d ≡ e =
              Leaves-eq c current current d e d_leaves leaves ((==_iff d.id e.id).0 same) in
            subst
              (λ (x : DependencyRecord).
                has_tuple t (walk_edges (visited_nodes c from trail) walk_on trail (x ∷ es)) ≡ true)
              (sym one)
              (ground (
                arith,
                has_tuple-append t (walk_on e.target_id (trail ++ e.id ∷ []))
                    (walk_edges (visited_nodes c from trail) walk_on trail es),
              ))
        | inr other ↦ ground (
          arith,
          has_tuple-append t
              (if contains d.target_id (visited_nodes c from trail)
                then []
                else walk_on d.target_id (trail ++ d.id ∷ []))
              (walk_edges (visited_nodes c from trail) walk_on trail es),
          walk_edges-finds current trail t walk_on e leaves fresh found es all (rw other at h),
        )
      ]

  recorded-finds :
      (trail : List ℕ) → 1 ≤ length (trail ++ []) → has_tuple (trail ++ []) (recorded trail) ≡ true
  recorded-finds [] h = absurd (omega arith)
  recorded-finds (i ∷ trail) h = rw append-nil (ground (arith, tuple_eq_refl (i ∷ trail)))

  walk_arrived :
      (hops current : ℕ) (trail : List ℕ)
      → current ≡ to
      → walk c from to hops current trail ≡ recorded trail
  unfolding walk
  walk_arrived zero current trail e = ground arith
  walk_arrived (suc hops) current trail e = ground arith

  -- By induction on the route.
  pub walk-finds :
      HasUniqueEdges c
      → (hops current : ℕ) (trail : List ℕ) (es : List DependencyRecord)
      → IsRoute c to (visited_nodes c from trail) current es
      → length es ≤ hops
      → 1 ≤ length (trail ++ ids es)
      → has_tuple (trail ++ ids es) (walk c from to hops current trail) ≡ true
  unfolding walk
  walk-finds unique hops current trail [] arrived short long =
      rw (walk_arrived hops current trail arrived) (recorded-finds trail long)
  walk-finds unique zero current trail (e ∷ es) route short long = absurd (omega arith)
  walk-finds unique (suc hops) current trail (e ∷ es) (away, leaves, fresh, route) short long =
      let t = trail ++ e.id ∷ ids es in
      let assoc : (trail ++ e.id ∷ []) ++ ids es ≡ t = append_assoc trail (e.id ∷ []) (ids es) in
      let next =
        walk-finds unique hops e.target_id (trail ++ e.id ∷ []) es
          (subst (λ nodes. IsRoute c to nodes e.target_id es)
            (sym (visited_nodes-step c from current trail e leaves)) route)
          (omega arith) (subst (λ (l : List ℕ). 1 ≤ length l) (sym assoc) long) in
      let found =
        walk_edges-finds current trail t (walk c from to hops) e leaves fresh
          (subst
            (λ (l : List ℕ).
              has_tuple l (walk c from to hops e.target_id (trail ++ e.id ∷ [])) ≡ true)
            assoc next)
          (adjacency c current) (adjacency-Leaves c current unique)
          (Leaves-adjacency c current e leaves) in
      elim (Bool-cases (current == to)) [
        | inl arrived ↦ absurd (away ((==_iff current to).0 arrived))
        | inr gone ↦ rw gone found
      ]

-- With unique edge identifiers, a trail is listed exactly if it names the edges of a route from
-- `from` to `to` that has between one and `max(1, max_hops)` edges: known and traversed edges, each
-- leaving where the last one led, to a node that is not yet visited, and meeting `to` at the end
-- only.
pub ordered_trails_iff :
    (c : Client)
    → HasUniqueEdges c
    → (from to max_hops : ℕ) (t : List ℕ)
    → (has_tuple t (ordered_trails c from to max_hops) ≡ true) ↔ (
        (es : List DependencyRecord) × (t ≡ ids es)
        × IsRoute c to (from ∷ []) from es
        × (1 ≤ length es)
        × (length es ≤ max 1 max_hops))
unfolding ordered_trails
ordered_trails_iff c unique from to max_hops t = (forth, back)
  where
    hops : ℕ
    hops = bounded_hops max_hops

    same :
        has_tuple t (ordered_trails c from to max_hops) ≡ has_tuple t (walk c from to hops from [])
    same =
        has_tuple-sort_by (trail_le c from) t (to_set (walk c from to hops from []))
        ∙ has_tuple-to_set t (walk c from to hops from [])

    forth :
        has_tuple t (ordered_trails c from to max_hops) ≡ true
        → (es : List DependencyRecord) × (t ≡ ids es)
          × IsRoute c to (from ∷ []) from es
          × (1 ≤ length es)
          × (length es ≤ max 1 max_hops)
    forth h =
        let (es, e, route, short, long) =
          walk-Continues c from to unique hops from [] t (sym same ∙ h) in
        (es, e, route, rw (sym (length-map es (λ d. d.id))) (rw e at long), short)

    back :
        (es : List DependencyRecord) × (t ≡ ids es)
          × IsRoute c to (from ∷ []) from es
          × (1 ≤ length es)
          × (length es ≤ max 1 max_hops)
        → has_tuple t (ordered_trails c from to max_hops) ≡ true
    back (es, e, route, long, short) =
        same
        ∙ rw e (
            walk-finds c from to unique hops from [] es route short
              (rw (length-map es (λ d. d.id)) long))
