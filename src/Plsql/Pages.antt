-- ===== src/Plsql/Pages.antt =====
-- Pages and cursors: a slice of the results (apps/api/app/integrations/plsql/synthetic.py) and the
-- cursor for the next one (apps/api/app/api/routes/plsql/router.py). The encoding of a cursor as
-- text is left out: a cursor is its offset.
use poc_la_graph.Base.{
  ℕ, zero, suc, ◌+◌, ◌≤◌, ◌<◌, ◌≡◌, sym, ap, ◌∙◌, Option, none, some, List, [], ◌++◌, ltb, ltb→lt,
  map, arith, if◌then◌else◌, length, take, drop, length-take, length-drop, take-append-drop, inl,
  inr, Bool-cases, drop-ge, take-ge, drop-drop, length-map,
}
use poc_la_graph.Plsql.Models.{Page}
use poc_la_graph.Plsql.Client.{Client, bounded_limit}
use poc_la_graph.Plsql.Paths.{page_at, find_paths, ordered_trails, path_record}

-- A page is never empty by its limit: at least one row is asked for.
pub bounded_limit_pos : (c : Client) (limit : ℕ) → 1 ≤ bounded_limit c limit
unfolding bounded_limit
bounded_limit_pos c limit = omega arith

module _ {A : Type 0} where
  -- `offset + len(page.items) if page.truncated else None`
  unfoldable pub next_cursor : ℕ → Page A → Option ℕ
  next_cursor offset page = if page.truncated then some (offset + length page.items) else none

  -- A client that follows the cursors, from the given offset on. The fuel bounds the pages.
  unfoldable pub follow : ℕ → (ℕ → Page A) → ℕ → List A
  follow zero read offset = []
  follow (suc fuel) read offset = elim (next_cursor offset (read offset)) [
    | none ↦ (read offset).items
    | some next ↦ (read offset).items ++ follow fuel read next
  ]

  -- The pages that follow one another are the rest of the list.
  pub follow-page_at :
      (limit : ℕ)
      → 1 ≤ limit
      → (fuel offset : ℕ) (xs : List A) → length xs < offset + fuel
      → follow fuel (λ o. page_at limit o xs) offset ≡ drop offset xs
  unfolding follow next_cursor page_at
  follow-page_at limit pos zero offset xs h = sym (drop-ge offset xs (omega arith))
  follow-page_at limit pos (suc fuel) offset xs h =
      let rest = drop offset xs in
      elim (Bool-cases (ltb (offset + limit) (length xs))) [
        | inl more ↦
            let full : length (take limit rest) ≡ limit =
              omega (arith, length-take limit rest, length-drop offset xs, ltb→lt _ _ more) in
            let tail : follow fuel (λ o. page_at limit o xs) (offset + length (take limit rest))
                ≡ drop limit rest =
              rw full (
                follow-page_at limit pos fuel (offset + limit) xs (omega arith)
                ∙ sym (drop-drop limit offset xs)) in
            rw (more, follow)
              (ap (λ later. take limit rest ++ later) tail ∙ take-append-drop limit rest)
        | inr last ↦ rw (last, follow) (take-ge limit rest (ground (arith, length-drop offset xs)))
      ]

-- A client that asks for pages of any positive size and follows the cursors to the end receives
-- every path that the analysis lists, in order, each in exactly one page.
pub follow-find_paths :
    (c : Client) (from to max_hops limit fuel : ℕ)
    → length (ordered_trails c from to max_hops) < fuel
    → follow fuel (λ offset. find_paths c from to max_hops limit offset) 0
      ≡ map (path_record c) (ordered_trails c from to max_hops)
unfolding find_paths
follow-find_paths c from to max_hops limit fuel enough =
    follow-page_at (bounded_limit c limit) (bounded_limit_pos c limit) fuel 0
      (map (path_record c) (ordered_trails c from to max_hops))
      (omega (arith, length-map (ordered_trails c from to max_hops) (path_record c)))
