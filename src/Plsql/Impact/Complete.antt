-- ===== src/Plsql/Impact/Complete.antt =====
-- The tours that `_impact_trails` lists (apps/api/app/integrations/plsql/synthetic.py), for every
-- anchor.
use poc_la_graph.Base.{
  ℕ, zero, suc, ◌≤◌, ◌≡◌, sym, subst, Bool, true, false, ◌&&◌, ◌||◌, List, [], ◌∷◌, ◌++◌, ◌==◌,
  arith, length, any, All, inl, inr, Bool-cases, ==_iff, false≢true, ◌↔◌, if◌then◌else◌,
}
use mathlib.Core.List.{append_assoc}
use poc_la_graph.Plsql.Models.{DependencyRecord, Direction, Relationship}
use poc_la_graph.Plsql.Order.{tuple_eq, tuple_eq_refl}
use poc_la_graph.Plsql.Client.{Client}
use poc_la_graph.Plsql.Paths.{contains, bounded_hops}
use poc_la_graph.Plsql.Paths.Routes.{HasUniqueEdges, has_edge_id}
use poc_la_graph.Plsql.Impact.{
  Found, peer, neighbours, trail_of, visit_edges, visit, visit_anchors, impact_anchors,
  impact_trails,
}
use poc_la_graph.Plsql.Impact.Tours.{
  has_entry, has_entry-append, last_node, Follows, IsTour, Tells, neighbours-Follows,
  Follows-neighbours, visit-Tells,
}

module _ (c : Client) (relationships : Relationship → Bool) (d : Direction) where
  Follows-eq :
      (m n : ℕ) (e f : DependencyRecord)
      → Follows c relationships d m e
      → Follows c relationships d n f
      → e.id ≡ f.id
      → e ≡ f
  Follows-eq m n e f p q same = cc (p.known, q.known)

  -- The entry of the edge itself, or one that is found behind it.
  abbrev ahead :
      ℕ
      → List ℕ
      → (ℕ → List ℕ → List DependencyRecord → Found)
      → List ℕ
      → List DependencyRecord
      → DependencyRecord
      → Bool
  ahead p t visit_on seen chain e =
      (p == peer d e && tuple_eq t (trail_of d (chain ++ e ∷ [])))
      || has_entry p t (visit_on (peer d e) (peer d e ∷ seen) (chain ++ e ∷ []))

  visit_edges-finds :
      (current p : ℕ) (t seen : List ℕ) (chain : List DependencyRecord)
      (visit_on : ℕ → List ℕ → List DependencyRecord → Found) (e : DependencyRecord)
      → Follows c relationships d current e
      → contains (peer d e) seen ≡ false
      → ahead p t visit_on seen chain e ≡ true
      → (es : List DependencyRecord) → All (Follows c relationships d current) es
      → any (has_edge_id e.id) es ≡ true
      → has_entry p t (visit_edges d visit_on seen chain es) ≡ true
  unfolding visit_edges
  visit_edges-finds current p t seen chain visit_on e follows fresh found [] all h =
      absurd (false≢true h)
  visit_edges-finds current p t seen chain visit_on e follows fresh found (f ∷ es) (f_follows, all)
        h =
      elim (Bool-cases (f.id == e.id)) [
        | inl same ↦
            let one : f ≡ e =
              Follows-eq current current f e f_follows follows ((==_iff f.id e.id).0 same) in
            subst
              (λ (x : DependencyRecord).
                has_entry p t (visit_edges d visit_on seen chain (x ∷ es)) ≡ true)
              (sym one)
              (ground (
                arith,
                has_entry-append p t (visit_on (peer d e) (peer d e ∷ seen) (chain ++ e ∷ []))
                    (visit_edges d visit_on seen chain es),
              ))
        | inr other ↦ ground (
          arith,
          has_entry-append p t
              (if contains (peer d f) seen
                then []
                else (peer d f, trail_of d (chain ++ f ∷ []))
                  ∷ visit_on (peer d f) (peer d f ∷ seen) (chain ++ f ∷ []))
              (visit_edges d visit_on seen chain es),
          visit_edges-finds current p t seen chain visit_on e follows fresh found es all
              (rw other at h),
        )
      ]

  -- One more hop finds what is ahead of an edge.
  visit-ahead :
      HasUniqueEdges c
      → (hops current p : ℕ) (t seen : List ℕ) (chain : List DependencyRecord)
        (e : DependencyRecord)
      → Follows c relationships d current e
      → contains (peer d e) seen ≡ false
      → ahead p t (visit c relationships d hops) seen chain e ≡ true
      → has_entry p t (visit c relationships d (suc hops) current seen chain) ≡ true
  unfolding visit
  visit-ahead unique hops current p t seen chain e follows fresh found =
      visit_edges-finds current p t seen chain (visit c relationships d hops) e follows fresh found
        (neighbours c relationships d current) (neighbours-Follows c relationships d current unique)
        (Follows-neighbours c relationships d current e follows)

  visit-finds :
      HasUniqueEdges c
      → (hops current : ℕ) (seen : List ℕ) (chain es : List DependencyRecord)
      → IsTour c relationships d seen current es
      → 1 ≤ length es
      → length es ≤ hops
      → has_entry
          (last_node d current es)
          (trail_of d (chain ++ es))
          (visit c relationships d hops current seen chain)
        ≡ true
  visit-finds unique hops current seen chain [] tour long short = absurd (omega arith)
  visit-finds unique zero current seen chain (e ∷ es) tour long short = absurd (omega arith)
  visit-finds unique (suc hops) current seen chain (e ∷ []) (follows, fresh, tour) long short =
      visit-ahead unique hops current (peer d e) (trail_of d (chain ++ e ∷ [])) seen chain e follows
        fresh (ground (arith, tuple_eq_refl (trail_of d (chain ++ e ∷ []))))
  visit-finds unique (suc hops) current seen chain (e ∷ (f ∷ fs)) (follows, fresh, tour) long
        short =
      let later =
        subst
          (λ (l : List DependencyRecord).
            has_entry (last_node d (peer d e) (f ∷ fs)) (trail_of d l)
              (visit c relationships d hops (peer d e) (peer d e ∷ seen) (chain ++ e ∷ []))
            ≡ true)
          (append_assoc chain (e ∷ []) (f ∷ fs))
          (visit-finds unique hops (peer d e) (peer d e ∷ seen) (chain ++ e ∷ []) (f ∷ fs) tour
            (omega arith) (omega arith)) in
      visit-ahead unique hops current (last_node d (peer d e) (f ∷ fs))
        (trail_of d (chain ++ e ∷ (f ∷ fs))) seen chain e follows fresh (ground arith)

  -- What an entry of the analysis stands for: a tour from one of the anchors.
  abbrev pub Affects : List ℕ → ℕ → ℕ → List ℕ → Type 0
  Affects anchors hops p t =
      (a : ℕ) × (contains a anchors ≡ true) × Tells c relationships d hops (a ∷ []) a [] p t

  one_anchor :
      HasUniqueEdges c
      → (hops p : ℕ) (t : List ℕ) (b : ℕ) (anchors : List ℕ)
      → (has_entry p t (visit_anchors c relationships d hops anchors) ≡ true)
        ↔ Affects anchors hops p t
      → (has_entry p t (visit_anchors c relationships d hops (b ∷ anchors)) ≡ true)
        ↔ Affects (b ∷ anchors) hops p t
  one_anchor unique hops p t b anchors (rest_forth, rest_back) = (forth, back)
    where
      here : Found
      here = visit c relationships d hops b (b ∷ []) []

      rest : Found
      rest = visit_anchors c relationships d hops anchors

      forth : has_entry p t (here ++ rest) ≡ true → Affects (b ∷ anchors) hops p t
      forth h = elim (Bool-cases (has_entry p t here)) [
        | inl found ↦
            (b, ground arith, visit-Tells c relationships d unique hops b (b ∷ []) [] p t found)
        | inr passed ↦
            let (a, among, tells) = rest_forth (ground (arith, has_entry-append p t here rest)) in
            (a, ground arith, tells)
      ]

      start : Tells c relationships d hops (b ∷ []) b [] p t → has_entry p t here ≡ true
      start (es, tour, last, same, long, short) =
          rw (last, same) (visit-finds unique hops b (b ∷ []) [] es tour long short)

      back : Affects (b ∷ anchors) hops p t → has_entry p t (here ++ rest) ≡ true
      back (a, among, tells) = elim (Bool-cases (contains a anchors)) [
        | inl later ↦
            let found = rest_back (a, later, tells) in
            ground (arith, has_entry-append p t here rest)
        | inr other ↦
            let same : a ≡ b = ground arith in
            let found =
              start
                (subst (λ (x : ℕ). Tells c relationships d hops (x ∷ []) x [] p t) same tells) in
            ground (arith, has_entry-append p t here rest)
      ]

  visit_anchors_iff :
      HasUniqueEdges c
      → (hops p : ℕ) (t anchors : List ℕ)
      → (has_entry p t (visit_anchors c relationships d hops anchors) ≡ true)
        ↔ Affects anchors hops p t
  visit_anchors_iff unique hops p t [] =
      (λ h. absurd (false≢true h), λ (a, among, _). absurd (false≢true among))
  visit_anchors_iff unique hops p t (b ∷ anchors) =
      one_anchor unique hops p t b anchors (visit_anchors_iff unique hops p t anchors)

-- With unique edge identifiers, the analysis of an object has an entry for a dependent with a trail
-- exactly if a tour leads there from one of the object's anchors: known and followed edges, between
-- one and `max(1, max_hops)` of them, each taken in the direction of the analysis from where the
-- last one led, to a node not seen on the way; the trail names its edges.
pub impact_trails_iff :
    (c : Client)
    → HasUniqueEdges c
    → (object_id max_hops : ℕ) (relationships : Relationship → Bool) (d : Direction) (p : ℕ)
      (t : List ℕ)
    → (has_entry p t (impact_trails c object_id max_hops relationships d) ≡ true)
      ↔ Affects c relationships d (impact_anchors c object_id) (bounded_hops max_hops) p t
unfolding impact_trails
impact_trails_iff c unique object_id max_hops relationships d p t =
    visit_anchors_iff c relationships d unique (bounded_hops max_hops) p t
      (impact_anchors c object_id)
