-- ===== src/Store/Pages.antt =====
-- A client that follows the cursors of `list_conversations` of apps/api/app/store/conversations.py.
use poc_la_graph.Base.{
  ℕ, zero, suc, ◌<◌, ◌≡◌, sym, ap, ◌∙◌, subst, Bool, true, false, ltb, ltb→lt, Option, none, some,
  List, [], ◌∷◌, ◌++◌, keep, length, take, drop, take-ge, take-append-drop, length-take,
  length-drop, arith, inl, inr, Bool-cases, Option-cases,
}
use mathlib.Core.List.{append_assoc}
use poc_la_graph.Store.Models.{Conversation, Summary, Settings, ListState, Response}
use poc_la_graph.Store.Exchanges.{summary, behind, next_boundary, last_summary}
use poc_la_graph.Store.Memory
use poc_la_graph.Store.Memory.{Memory}
use poc_la_graph.Store.Pages.Sorted.{follows, Descending, keep-follows}
use poc_la_graph.Store.Pages.Client.{
  page_of, next_of, follow_cursors, place, summaries, answer, full_page, more_alike, last_page,
  map-append,
}
pub mod Sorted
pub mod Client

-- One page of the client.
follow_cursors-last :
    (fuel : ℕ) (read : Option (ℕ × ℕ) → Response) (cursor : Option (ℕ × ℕ)) (page : List Summary)
    → read cursor ≡ Response.listed page none
    → follow_cursors (suc fuel) read cursor ≡ page
unfolding follow_cursors page_of next_of
follow_cursors-last fuel read cursor page h = ground arith

follow_cursors-more :
    (fuel : ℕ) (read : Option (ℕ × ℕ) → Response) (cursor : Option (ℕ × ℕ)) (page : List Summary)
    (next : ℕ × ℕ)
    → read cursor ≡ Response.listed page (some next)
    → follow_cursors (suc fuel) read cursor ≡ page ++ follow_cursors fuel read (some next)
unfolding follow_cursors page_of next_of
follow_cursors-more fuel read cursor page next h = ground arith

-- The pages from a cursor on are the rows from there on.
module _ (limit : ℕ) (rows : List (ℕ × Conversation)) (ds : Descending place rows)
    (read : Option (ℕ × ℕ) → Response)
    (reads : (c : Option (ℕ × ℕ))
      → read c ≡ answer (suc limit) (keep (λ x. behind c (place x)) rows)) where
  read-rest :
      (rest : List (ℕ × Conversation)) (cursor : Option (ℕ × ℕ))
      → keep (λ x. behind cursor (place x)) rows ≡ rest
      → read cursor
        ≡ Response.listed
            (summaries (take (suc limit) rest))
            (next_boundary (ltb (suc limit) (length rest)) (summaries (take (suc limit) rest)))
  read-rest rest cursor found =
      reads cursor
      ∙ ap (answer (suc limit)) found
      ∙ ap
          (λ more.
            Response.listed (summaries (take (suc limit) rest))
              (next_boundary more (summaries (take (suc limit) rest))))
          (more_alike (suc limit) rest)

  pub follow_cursors-rest :
      (fuel : ℕ) (before rest : List (ℕ × Conversation)) (cursor : Option (ℕ × ℕ))
      → rows ≡ before ++ rest
      → keep (λ x. behind cursor (place x)) rows ≡ rest
      → length rest < fuel
      → follow_cursors fuel read cursor ≡ summaries rest
  follow_cursors-rest zero before rest cursor split found enough = absurd (omega arith)
  follow_cursors-rest (suc fuel) before rest cursor split found enough =
      let asked = read-rest rest cursor found in
      elim (Bool-cases (ltb (suc limit) (length rest))) [
        | inl more ↦
            let (page, (x, (e, l))) = full_page limit rest (omega (arith, ltb→lt _ _ more)) in
            let after = drop (suc limit) rest in
            let middle : rows ≡ (before ++ page) ++ x ∷ after =
              split
              ∙ ap (λ t. before ++ t)
                  (sym (take-append-drop (suc limit) rest)
                    ∙ ap (λ t. t ++ after) e
                    ∙ append_assoc page (x ∷ []) after)
              ∙ sym (append_assoc before page (x ∷ after)) in
            let next : next_boundary true (summaries (take (suc limit) rest)) ≡ some (place x) =
              unfold next_boundary in unfold summary in ground arith in
            let later =
              follow_cursors-rest fuel ((before ++ page) ++ x ∷ []) after (some (place x))
                (middle ∙ sym (append_assoc (before ++ page) (x ∷ []) after))
                (subst (λ t. keep (follows place x) t ≡ after) (sym middle)
                  (keep-follows place (before ++ page) x after
                    (subst (Descending place) middle ds)))
                (omega (arith, length-drop (suc limit) rest, ltb→lt _ _ more)) in
            follow_cursors-more fuel read cursor (summaries (take (suc limit) rest)) (place x)
              (asked ∙ ap (Response.listed (summaries (take (suc limit) rest))) (ground arith))
            ∙ ap (λ t. summaries (take (suc limit) rest) ++ t) later
            ∙ map-append (take (suc limit) rest) after
            ∙ ap summaries (take-append-drop (suc limit) rest)
        | inr last ↦
            follow_cursors-last fuel read cursor (summaries (take (suc limit) rest)) (
              asked
              ∙ ap (Response.listed (summaries (take (suc limit) rest)))
                  (ground (arith, last_page (summaries (take (suc limit) rest)))))
            ∙ ap summaries (take-ge (suc limit) rest (ground arith))
      ]

module _ (settings : Settings) (now : ℕ) (project o : ℕ) (state : ListState) (m : Memory) where
  listed_rows : List (ℕ × Conversation)
  listed_rows = keep (Memory.is_listed settings now project o state none m) m.items
