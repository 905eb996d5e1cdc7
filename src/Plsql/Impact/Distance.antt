-- ===== src/Plsql/Impact/Distance.antt =====
-- The distance of a dependent in the impact analysis
-- (apps/api/app/integrations/plsql/synthetic.py, `shortest` in `impact_of`).
use poc_la_graph.Base.{
  ℕ, ◌≤◌, ◌≡◌, refl, sym, ◌∙◌, ap, Bool, true, List, [], ◌∷◌, arith, length, inl, inr, Bool-cases,
  ltb, ltb→lt, false≢true,
}
use poc_la_graph.Plsql.Models.{Direction, Relationship, ObjectRecord}
use poc_la_graph.Plsql.Order.{tuple_eq, tuple_eq-true, tuple_eq_refl, has_tuple}
use poc_la_graph.Plsql.Client.{Client}
use poc_la_graph.Plsql.Paths.{bounded_hops}
use poc_la_graph.Plsql.Paths.Routes.{HasUniqueEdges}
use poc_la_graph.Plsql.Impact.{Found, trails_to, shortest, item_of, impact_anchors, impact_trails}
use poc_la_graph.Plsql.Impact.Tours.{has_entry}
use poc_la_graph.Plsql.Impact.Complete.{Affects, impact_trails_iff}

has_tuple-trails_to :
    (p : ℕ) (t : List ℕ) (found : Found) → has_tuple t (trails_to p found) ≡ has_entry p t found
has_tuple-trails_to p t [] = refl
has_tuple-trails_to p t ((q, u) ∷ found) = ground (arith, has_tuple-trails_to p t found)

shortest_le : (t : List ℕ) (ts : List (List ℕ)) → has_tuple t ts ≡ true → shortest ts ≤ length t
shortest_le t [] h = absurd (false≢true h)
shortest_le t (u ∷ []) h =
    let same : t ≡ u = tuple_eq-true t u (ground arith) in rw same (omega arith)
shortest_le t (u ∷ (v ∷ rest)) h = elim (Bool-cases (tuple_eq t u)) [
  | inl here ↦ let same : length t ≡ length u = ap length (tuple_eq-true t u here) in omega arith
  | inr other ↦ let later = shortest_le t (v ∷ rest) (ground arith) in omega arith
]

shortest_among :
    (u : List ℕ) (ts : List (List ℕ))
    → (t : List ℕ) × (has_tuple t (u ∷ ts) ≡ true) × (length t ≡ shortest (u ∷ ts))
shortest_among u [] = (u, ground (arith, tuple_eq_refl u), refl)
shortest_among u (v ∷ rest) =
    let (t, among, least) = shortest_among v rest in
    elim (Bool-cases (ltb (length t) (length u))) [
      | inl shorter ↦ (t, ground arith, omega (arith, ltb→lt (length t) (length u) shorter, least))
      | inr longer ↦ (u, ground (arith, tuple_eq_refl u), ground arith)
    ]

least_trail :
    (t : List ℕ) (ts : List (List ℕ))
    → has_tuple t ts ≡ true
    → (u : List ℕ) × (has_tuple u ts ≡ true) × (length u ≡ shortest ts)
least_trail t [] h = absurd (false≢true h)
least_trail t (u ∷ ts) h = shortest_among u ts

-- With unique edge identifiers, a dependent that a tour affects has as its distance the length of
-- the shortest such tour: no tour to it from an anchor within the bound is shorter, and one is of
-- that length.
pub impact_distance :
    (c : Client)
    → HasUniqueEdges c
    → (object_id max_hops : ℕ) (relationships : Relationship → Bool) (d : Direction) (p : ℕ)
      (t : List ℕ) (dependent : ObjectRecord)
    → Affects c relationships d (impact_anchors c object_id) (bounded_hops max_hops) p t
    → let found = impact_trails c object_id max_hops relationships d in
      ((item_of c found p dependent).distance ≤ length t)
      × ((u : List ℕ) × Affects c relationships d
            (impact_anchors c object_id)
            (bounded_hops max_hops)
            p
            u
          × (length u ≡ (item_of c found p dependent).distance))
impact_distance c unique object_id max_hops relationships d p t dependent affects =
    let found = impact_trails c object_id max_hops relationships d in
    let iff = impact_trails_iff c unique object_id max_hops relationships d p in
    let among : has_tuple t (trails_to p found) ≡ true =
      has_tuple-trails_to p t found ∙ (iff t).1 affects in
    let (u, listed, least) = least_trail t (trails_to p found) among in
    (
      shortest_le t (trails_to p found) among,
      (u, (iff u).0 (sym (has_tuple-trails_to p u found) ∙ listed), least),
    )
