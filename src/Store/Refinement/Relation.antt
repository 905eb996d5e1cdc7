-- ===== src/Store/Refinement/Relation.antt =====
-- When a database holds what the memory holds (apps/api/app/store): the conversations with their
-- messages, the owners, the versions and the leases.
use poc_la_graph.Base.{
  ℕ, ◌<◌, ◌≡◌, refl, sym, ap, ◌∙◌, subst, Bool, true, not, ◌&&◌, ◌==◌, Option, none, some, is_some,
  List, [], ◌∷◌, if◌then◌else◌, arith, inl, inr, Bool-cases, Option-cases, All,
}
use poc_la_graph.Base.Table.{first, select, first_holds}
use poc_la_graph.Knowledge.Text.{Text, text_eq, is_empty}
use poc_la_graph.Store.Models.{Conversation, Response}
use poc_la_graph.Store.Dict.{get_item}
use poc_la_graph.Store.Names.{default_name}
use poc_la_graph.Store.Memory.{Memory, owner_is, owned, live_lease}
use poc_la_graph.Store.Tables.{
  ConversationRow, MessageRow, Database, has_id, is_row_of, get_row, active_lease, messages_of,
  conversation_model,
}
use poc_la_graph.Store.Refinement.Rows.{Increasing, first-key}

-- A name that is shown as it is and that no store takes for a missing one.
unfoldable pub proper_name : Text → Bool
proper_name name = not (is_empty name) && not (text_eq name default_name)

-- A missing or proper name, and both halves of a lease or none.
unfoldable pub proper_row : ConversationRow → Bool
unfolding proper_name
proper_row r =
    (elim r.name [ none ↦ true | some name ↦ proper_name name ]) && (elim r.active_request_id [
      | none ↦ not (is_some r.lease_expires_at)
      | some _ ↦ is_some r.lease_expires_at
    ])

-- A conversation as the methods return it.
unfoldable pub model_of : List MessageRow → ConversationRow → Conversation
model_of messages r = conversation_model r (messages_of r.id messages)

unfoldable pub entries : List MessageRow → List ConversationRow → List (ℕ × Conversation)
entries messages [] = []
entries messages (r ∷ rs) = (r.id, model_of messages r) ∷ entries messages rs

unfoldable pub lease_of : ConversationRow → Option (ℕ × ℕ)
lease_of r = elim r.active_request_id [
  | none ↦ none
  | some request ↦ elim r.lease_expires_at [ none ↦ none | some expires ↦ some (request, expires) ]
]

-- What a row has, when there is one.
unfoldable pub from_row :
    {A : Type 0} → (ConversationRow → Option A) → Option ConversationRow → Option A
from_row f none = none
from_row f (some r) = f r

unfoldable pub some_owner : ConversationRow → Option ℕ
some_owner r = some r.created_by

unfoldable pub some_version : ConversationRow → Option (Option ℕ)
some_version r = some r.graph_version

pub record Agrees (m : Memory) (db : Database) : Type 0 where
  pub items : m.items ≡ entries db.messages db.conversations
  pub owners :
      (k : ℕ) → get_item k m.owners ≡ from_row some_owner (first (has_id k) db.conversations)
  pub versions :
      (k : ℕ) → get_item k m.versions ≡ from_row some_version (first (has_id k) db.conversations)
  pub leases : (k : ℕ) → get_item k m.leases ≡ from_row lease_of (first (has_id k) db.conversations)
  pub supply : m.supply ≡ db.supply
  pub proper : All (λ (r : ConversationRow). proper_row r ≡ true) db.conversations
  pub ids : Increasing (λ (r : ConversationRow). r.id) 0 db.supply db.conversations
  pub message_ids : Increasing (λ (x : MessageRow). x.id) 0 db.supply db.messages
  pub row_ids : Increasing (λ (x : MessageRow). x.row_id) 0 db.row_supply db.messages
  pub ordinals :
      (k : ℕ)
      → (hi : ℕ) × Increasing
          (λ (x : MessageRow). x.ordinal)
          0
          hi
          (select (λ x. x.conversation_id == k) db.messages)
  pub known : All (λ (x : MessageRow). x.conversation_id < db.supply) db.messages

-- The same answer, and states that agree.
abbrev pub Same : Memory × Response → Database × Response → Type 0
Same (m, a) (db, b) = (a ≡ b) × Agrees m db

pub Same-by :
    (x x' : Memory × Response) (y y' : Database × Response)
    → x ≡ x'
    → y ≡ y'
    → Same x' y'
    → Same x y
Same-by x x' y y' e f h = subst (λ t. Same t y) (sym e) (subst (λ t. Same x' t) (sym f) h)

pub get_item-entries :
    (messages : List MessageRow) (k : ℕ) (rows : List ConversationRow)
    → get_item k (entries messages rows)
      ≡ from_row (λ r. some (model_of messages r)) (first (has_id k) rows)
unfolding get_item entries from_row first
get_item-entries messages k [] = refl
get_item-entries messages k (r ∷ rs) = ground (arith, get_item-entries messages k rs)

pub All-first :
    (P : ConversationRow → Type 0) (p : ConversationRow → Bool) (rows : List ConversationRow)
    (r : ConversationRow)
    → All P rows
    → first p rows ≡ some r
    → P r
unfolding first
All-first P p [] r ps e = absurd (ground arith)
All-first P p (x ∷ xs) r (px, ps) e = elim (Bool-cases (p x)) [
  | inl h ↦ subst P (ground arith) px
  | inr h ↦ All-first P p xs r ps (ground arith)
]

module _ (m : Memory) (db : Database) (k : Agrees m db) where
  -- The row that a method works on is the row of the identifier.
  get_row-first :
      (a : Bool) (id o : ℕ)
      → get_row a id o db
        ≡ elim (first (has_id id) db.conversations) as (λ _. Option ConversationRow) [
          | none ↦ none
          | some r ↦ if r.created_by == o && not (a && is_some r.archived_at) then some r else none
        ]
  unfolding get_row is_row_of
  get_row-first a id o =
      first-key (λ (r : ConversationRow). r.id)
        (λ (r : ConversationRow). r.created_by == o && not (a && is_some r.archived_at)) id 0
        db.supply db.conversations k.ids

  pub row_found :
      (a : Bool) (id o : ℕ) (r : ConversationRow)
      → get_row a id o db ≡ some r
      → first (has_id id) db.conversations ≡ some r
  row_found a id o r e = elim (Option-cases (first (has_id id) db.conversations)) [
    | inl f ↦ absurd (ground (arith, get_row-first a id o))
    | inr (x, f) ↦ ground (arith, get_row-first a id o)
  ]

  pub row_id_lem :
      (a : Bool) (id o : ℕ) (r : ConversationRow) → get_row a id o db ≡ some r → r.id ≡ id
  row_id_lem a id o r e =
      ground (arith, first_holds (has_id id) db.conversations r (row_found a id o r e))

  pub row_proper :
      (a : Bool) (id o : ℕ) (r : ConversationRow) → get_row a id o db ≡ some r → proper_row r ≡ true
  row_proper a id o r e =
      All-first (λ (x : ConversationRow). proper_row x ≡ true) (has_id id) db.conversations r
        k.proper (row_found a id o r e)

  pub owned-get_row :
      (a : Bool) (id o : ℕ)
      → owned a id o m ≡ from_row (λ r. some (model_of db.messages r)) (get_row a id o db)
  unfolding owned owner_is from_row some_owner model_of conversation_model
  owned-get_row a id o =
      let items : get_item id m.items
          ≡ from_row (λ r. some (model_of db.messages r)) (first (has_id id) db.conversations) =
        ap (get_item id) k.items ∙ get_item-entries db.messages id db.conversations in
      elim (Option-cases (first (has_id id) db.conversations)) [
        | inl f ↦ ground (arith, items, get_row-first a id o)
        | inr (x, f) ↦ ground (arith, items, get_row-first a id o, k.owners id)
      ]

  pub live_lease-active_lease :
      (now id : ℕ) (r : ConversationRow)
      → first (has_id id) db.conversations ≡ some r
      → live_lease id now m ≡ active_lease now r
  unfolding live_lease active_lease from_row lease_of
  live_lease-active_lease now id r f = ground (arith, k.leases id)
