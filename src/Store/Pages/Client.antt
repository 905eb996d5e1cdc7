-- ===== src/Store/Pages/Client.antt =====
-- The pages of `list_conversations` of apps/api/app/store/conversations.py, as a client reads them.
use poc_la_graph.Base.{
  ℕ, zero, suc, ◌<◌, ◌≡◌, refl, ap, ◌∙◌, false, ltb, Option, none, some, List, [], ◌∷◌, ◌++◌, ◌+◌,
  keep, map, length, take, length-take, arith, inl, inr, Option-cases,
}
use poc_la_graph.Store.Models.{Conversation, Summary, Response}
use poc_la_graph.Store.Exchanges.{summary, behind, next_boundary, last_summary}

unfoldable pub page_of : Response → List Summary
page_of (Response.listed page next) = page
page_of _ = []

unfoldable pub next_of : Response → Option (ℕ × ℕ)
next_of (Response.listed page next) = next
next_of _ = none

-- A client that asks for the pages one after the other. The fuel bounds the pages.
unfoldable pub follow_cursors : ℕ → (Option (ℕ × ℕ) → Response) → Option (ℕ × ℕ) → List Summary
follow_cursors zero read cursor = []
follow_cursors (suc fuel) read cursor = elim (next_of (read cursor)) [
  | none ↦ page_of (read cursor)
  | some next ↦ page_of (read cursor) ++ follow_cursors fuel read (some next)
]

-- The time and the identifier that a conversation is sorted by.
abbrev pub place : ℕ × Conversation → ℕ × ℕ
place x = (x.1.updated_at, x.1.id)

abbrev pub summaries : List (ℕ × Conversation) → List Summary
summaries rows = map (λ (x : ℕ × Conversation). summary x.1) rows

-- The page of a cursor, of the rows that are listed.
abbrev pub answer : ℕ → List (ℕ × Conversation) → Response
answer limit rows =
    Response.listed (summaries (take limit rows))
      (next_boundary (ltb limit (length (take (limit + 1) rows))) (summaries (take limit rows)))

-- A page that is full: its last row, and the cursor after it.
pub full_page :
    (n : ℕ) (rows : List (ℕ × Conversation))
    → n < length rows
    → (before : List (ℕ × Conversation)) × ((x : ℕ × Conversation) × ((take (suc n) rows
            ≡ before ++ x ∷ [])
          × (last_summary (summaries (take (suc n) rows)) ≡ some (summary x.1))))
unfolding last_summary
full_page n [] h = absurd (omega arith)
full_page zero (x ∷ rows) h = ([], (x, (refl, refl)))
full_page (suc n) (x ∷ []) h = absurd (omega arith)
full_page (suc n) (x ∷ y ∷ rows) h =
    let (before, (z, (e, l))) = full_page n (y ∷ rows) (omega arith) in
    (x ∷ before, (z, (ap (λ t. x ∷ t) e, l)))

-- There are more rows than the limit exactly if one more is found.
pub more_alike :
    (n : ℕ) (rows : List (ℕ × Conversation))
    → ltb n (length (take (n + 1) rows)) ≡ ltb n (length rows)
more_alike n rows = ground (arith, length-take (n + 1) rows)

pub take-more : (n : ℕ) (rows : List (ℕ × Conversation)) → take n (take (n + 1) rows) ≡ take n rows
take-more n rows =
    let same : n + 1 ≡ suc n = omega arith in ap (λ k. take n (take k rows)) same ∙ take-suc n rows
  where
    take-suc : (n : ℕ) (rows : List (ℕ × Conversation)) → take n (take (suc n) rows) ≡ take n rows
    take-suc zero rows = refl
    take-suc (suc n) [] = refl
    take-suc (suc n) (x ∷ rows) = ap (λ t. x ∷ t) (take-suc n rows)

pub listed_all : (rows : List (ℕ × Conversation)) → keep (λ x. behind none (place x)) rows ≡ rows
unfolding behind
listed_all [] = refl
listed_all (x ∷ rows) = ap (λ t. x ∷ t) (listed_all rows)

pub last_page : (page : List Summary) → next_boundary false page ≡ none
unfolding next_boundary
last_page page = elim (Option-cases (last_summary page)) [
  | inl e ↦ ground arith
  | inr (s, e) ↦ ground arith
]

pub map-append :
    (xs ys : List (ℕ × Conversation)) → summaries xs ++ summaries ys ≡ summaries (xs ++ ys)
map-append [] ys = refl
map-append (x ∷ xs) ys = ap (λ t. summary x.1 ∷ t) (map-append xs ys)
