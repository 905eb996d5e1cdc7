-- ===== src/Store/Exchanges.antt =====
-- Complete exchanges of a user's message and its answer, the history that is given to the agent, and
-- the pages of a listing (apps/api/app/store/conversations.py and apps/api/app/store/sqlalchemy.py).
use poc_la_graph.Base.{
  ℕ, ◌+◌, ◌-◌, Bool, true, false, not, ◌&&◌, ◌||◌, leb, ltb, ◌==◌, if◌then◌else◌, List, [], ◌∷◌,
  length, drop, reverse, Option, none, some,
}
use poc_la_graph.Store.Models.{
  Role, user, assistant, Status, completed, Message, Conversation, Summary,
}

unfoldable pub is_user : Role → Bool
is_user user = true
is_user assistant = false

unfoldable pub is_completed : Status → Bool
is_completed completed = true
is_completed _ = false

-- The loop of `_complete_exchanges` and of `_complete_exchange_row_ids`, over messages or rows.
module _ {A : Type 0} (role : A → Role) (status : A → Status) where
  unfoldable pub exchanges : Option A → List A → List (A × A)
  exchanges pending [] = []
  exchanges none (m ∷ ms) =
      exchanges (if is_completed (status m) && is_user (role m) then some m else none) ms
  exchanges (some p) (m ∷ ms) =
      let done = is_completed (status m) in
      let from_user = is_user (role m) in
      let rest = exchanges (if done then (if from_user then some m else none) else some p) ms in
      if done && not from_user then (p, m) ∷ rest else rest

-- `_complete_exchanges`
unfoldable pub complete_exchanges : List Message → List (Message × Message)
complete_exchanges messages =
    exchanges (λ (m : Message). m.role) (λ (m : Message). m.status) none messages

-- `exchanges[-max_turns:]`
unfoldable pub last_turns : {A : Type 0} → ℕ → List A → List A
last_turns max_turns all = if max_turns == 0 then all else drop (length all - max_turns) all

unfoldable pub exchange_chars : Message × Message → ℕ
exchange_chars (question, answer) = length question.content + length answer.content

-- The loop of `get_history`, from the newest exchange; the flag says that one is selected.
unfoldable pub select_exchanges : ℕ → Bool → ℕ → List (Message × Message) → List (Message × Message)
select_exchanges max_chars selected used_chars [] = []
select_exchanges max_chars selected used_chars (exchange ∷ rest) =
    let chars = exchange_chars exchange in
    let skipped = select_exchanges max_chars selected used_chars rest in
    let taken = select_exchanges max_chars true (used_chars + chars) rest in
    if selected && ltb max_chars (used_chars + chars)
    then []
    else if ltb max_chars chars
    then skipped
    else exchange ∷ taken

unfoldable pub both_messages : List (Message × Message) → List Message
both_messages [] = []
both_messages ((question, answer) ∷ rest) = question ∷ answer ∷ both_messages rest

-- The messages that `get_history` returns.
unfoldable pub history_of : ℕ → ℕ → List Message → List Message
history_of max_turns max_chars messages = both_messages (
    reverse (
      select_exchanges max_chars false 0
        (reverse (last_turns max_turns (complete_exchanges messages)))))

unfoldable pub summary : Conversation → Summary
summary c = record {
  id = c.id;
  project_id = c.project_id;
  name = c.name;
  created_at = c.created_at;
  updated_at = c.updated_at;
  archived_at = c.archived_at;
}

-- The newest first, and of equal times the greatest identifier.
unfoldable pub newer : ℕ × ℕ → ℕ × ℕ → Bool
newer (updated, id) (boundary_time, boundary_id) =
    ltb boundary_time updated || (updated == boundary_time && leb boundary_id id)

-- Behind the cursor, when there is one.
unfoldable pub behind : Option (ℕ × ℕ) → ℕ × ℕ → Bool
behind none at = true
behind (some (boundary_time, boundary_id)) (updated, id) =
    ltb updated boundary_time || (updated == boundary_time && ltb id boundary_id)

unfoldable pub last_summary : List Summary → Option Summary
last_summary [] = none
last_summary (s ∷ []) = some s
last_summary (_ ∷ s ∷ rest) = last_summary (s ∷ rest)

-- The cursor of a page when there are more rows.
unfoldable pub next_boundary : Bool → List Summary → Option (ℕ × ℕ)
next_boundary more page = elim (last_summary page) [
  | none ↦ none
  | some s ↦ if more then some (s.updated_at, s.id) else none
]
