-- ===== src/Plsql/Impact/Tours.antt =====
-- What `visit` finds (apps/api/app/integrations/plsql/synthetic.py), said of the edges themselves.
use poc_la_graph.Base.{
  ℕ, zero, suc, ◌≤◌, ◌≡◌, refl, ap, ◌∙◌, Bool, true, false, ◌&&◌, ◌||◌, some, List, [], ◌∷◌, ◌++◌,
  ◌==◌, arith, length, any, All, inl, inr, Bool-cases, false≢true,
}
use mathlib.Core.List.{append_assoc}
use poc_la_graph.Plsql.Models.{DependencyRecord, Direction, Relationship}
use poc_la_graph.Plsql.Order.{tuple_eq, tuple_eq-true, All-sort_by, any-sort_by}
use poc_la_graph.Plsql.Client.{Client, edge_by_id}
use poc_la_graph.Plsql.Paths.{contains, by_edge_id}
use poc_la_graph.Plsql.Paths.Routes.{HasUniqueEdges, has_edge_id, All-keep, any-keep}
use poc_la_graph.Plsql.Impact.{
  Found, near, peer, is_followed, neighbours, trail_of, visit_edges, visit,
}

-- An entry for the dependent, with the trail.
abbrev pub has_entry : ℕ → List ℕ → Found → Bool
has_entry p t [] = false
has_entry p t ((q, u) ∷ found) = (p == q && tuple_eq t u) || has_entry p t found

pub has_entry-append :
    (p : ℕ) (t : List ℕ) (a b : Found)
    → has_entry p t (a ++ b) ≡ (has_entry p t a || has_entry p t b)
has_entry-append p t [] b = refl
has_entry-append p t ((q, u) ∷ a) b = ground (arith, has_entry-append p t a b)

-- The last node of a walk along the edges.
abbrev pub last_node : Direction → ℕ → List DependencyRecord → ℕ
last_node d current [] = current
last_node d current (e ∷ es) = last_node d (peer d e) es

module _ (c : Client) (relationships : Relationship → Bool) (d : Direction) where
  -- An edge of the analysis that the traversal may take from the node, in its direction.
  pub record Follows (node : ℕ) (e : DependencyRecord) : Type 0 where
    pub known : edge_by_id c.edges e.id ≡ some e
    pub followed : is_followed c relationships e ≡ true
    pub stands : near d e ≡ node

  -- The edges lead on from the current node, and never to a node that was seen.
  abbrev pub IsTour : List ℕ → ℕ → List DependencyRecord → Type 0
  IsTour seen current [] = Unit {0}
  IsTour seen current (e ∷ es) =
      Follows current e
      × (contains (peer d e) seen ≡ false)
      × IsTour (peer d e ∷ seen) (peer d e) es

  pub neighbours-Follows :
      (node : ℕ) → HasUniqueEdges c → All (Follows node) (neighbours c relationships d node)
  unfolding neighbours
  neighbours-Follows node unique = All-sort_by by_edge_id (Follows node) _ (
      All-keep (λ (e : DependencyRecord). edge_by_id c.edges e.id ≡ some e) (Follows node) _
        (λ e known h. record { known = known; followed = ground arith; stands = ground arith })
        c.edges unique)

  pub Follows-neighbours :
      (node : ℕ) (e : DependencyRecord)
      → Follows node e
      → any (has_edge_id e.id) (neighbours c relationships d node) ≡ true
  unfolding neighbours
  Follows-neighbours node e follows =
      rw any-sort_by
        (any-keep _ c.edges e.id e follows.known (ground (arith, follows.followed, follows.stands)))

  -- What an entry stands for: a tour of one edge or more, to the dependent.
  abbrev pub Tells : ℕ → List ℕ → ℕ → List DependencyRecord → ℕ → List ℕ → Type 0
  Tells hops seen current chain p t =
      (es : List DependencyRecord) × IsTour seen current es
      × (p ≡ last_node d current es)
      × (t ≡ trail_of d (chain ++ es))
      × (1 ≤ length es)
      × (length es ≤ hops)

  visit_edges-Tells :
      (hops current : ℕ) (seen : List ℕ) (chain : List DependencyRecord) (p : ℕ) (t : List ℕ)
      (visit_on : ℕ → List ℕ → List DependencyRecord → Found)
      → ((node : ℕ) (seen' : List ℕ) (chain' : List DependencyRecord)
          → has_entry p t (visit_on node seen' chain') ≡ true
          → Tells hops seen' node chain' p t)
      → (es : List DependencyRecord) → All (Follows current) es
      → has_entry p t (visit_edges d visit_on seen chain es) ≡ true
      → Tells (suc hops) seen current chain p t
  unfolding visit_edges
  visit_edges-Tells hops current seen chain p t visit_on ih [] all h = absurd (false≢true h)
  visit_edges-Tells hops current seen chain p t visit_on ih (e ∷ es) (follows, all) h =
      let later = visit_edges-Tells hops current seen chain p t visit_on ih es all in
      let further = visit_on (peer d e) (peer d e ∷ seen) (chain ++ e ∷ []) in
      elim (Bool-cases (contains (peer d e) seen)) [
        | inl known ↦ later (rw known at h)
        | inr fresh ↦
            elim (Bool-cases (p == peer d e && tuple_eq t (trail_of d (chain ++ e ∷ [])))) [
              | inl entry ↦ (
                e ∷ [],
                (follows, fresh, tt),
                ground arith,
                tuple_eq-true t _ (ground arith),
                omega arith,
                omega arith,
              )
              | inr other ↦ elim (Bool-cases (has_entry p t further)) [
                | inl found ↦
                    take_edge (ih (peer d e) (peer d e ∷ seen) (chain ++ e ∷ []) found) fresh
                | inr passed ↦ later (
                    ground
                      (arith, has_entry-append p t further (visit_edges d visit_on seen chain es)))
              ]
            ]
      ]
    where
      take_edge :
          Tells hops (peer d e ∷ seen) (peer d e) (chain ++ e ∷ []) p t
          → contains (peer d e) seen ≡ false
          → Tells (suc hops) seen current chain p t
      take_edge (es', tour, last, same, long, short) fresh = (
        e ∷ es',
        (follows, fresh, tour),
        last,
        same ∙ ap (trail_of d) (append_assoc chain (e ∷ []) es'),
        omega arith,
        omega arith,
      )

  pub visit-Tells :
      HasUniqueEdges c
      → (hops current : ℕ) (seen : List ℕ) (chain : List DependencyRecord) (p : ℕ) (t : List ℕ)
      → has_entry p t (visit c relationships d hops current seen chain) ≡ true
      → Tells hops seen current chain p t
  unfolding visit
  visit-Tells unique zero current seen chain p t h = absurd (false≢true h)
  visit-Tells unique (suc hops) current seen chain p t h =
      visit_edges-Tells hops current seen chain p t (visit c relationships d hops)
        (λ node seen' chain' found. visit-Tells unique hops node seen' chain' p t found)
        (neighbours c relationships d current) (neighbours-Follows current unique) h
