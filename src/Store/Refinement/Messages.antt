-- ===== src/Store/Refinement/Messages.antt =====
-- New conversations and new messages (apps/api/app/store).
use poc_la_graph.Base.{
  ℕ, suc, ◌+◌, ◌≤◌, ◌<◌, ◌≡◌, refl, sym, ap, ◌∙◌, max, Bool, true, false, ◌==◌, leb, Option, none,
  some, List, [], ◌∷◌, ◌++◌, if◌then◌else◌, arith, inl, inr, Option-cases, All,
}
use poc_la_graph.Base.Table.{first, select, first_holds}
use poc_la_graph.Base.Counts.{All-implied}
use poc_la_graph.Plsql.Order.{sort_by, insert_sorted}
use poc_la_graph.Store.Models.{Conversation, Settings}
use poc_la_graph.Store.Dict.{get_item, set_item, get_item-set_item}
use poc_la_graph.Store.Names.{shown_name}
use poc_la_graph.Store.Memory
use poc_la_graph.Store.Memory.{Memory}
use poc_la_graph.Store.Sql
use poc_la_graph.Store.Tables.{
  ConversationRow, MessageRow, Database, has_id, messages_of, conversation_model, max_ordinal,
}
use poc_la_graph.Store.Refinement.Rows.{Increasing, Increasing-wider, Increasing-snoc}
use poc_la_graph.Store.Refinement.Relation.{
  proper_row, model_of, entries, lease_of, from_row, some_owner, some_version, Agrees, Same,
  All-first,
}

-- Messages whose ordinals increase are in order.
insert_first :
    (x : MessageRow) (lo hi : ℕ) (xs : List MessageRow)
    → x.ordinal ≤ lo
    → Increasing (λ (y : MessageRow). y.ordinal) lo hi xs
    → insert_sorted (λ (y z : MessageRow). leb y.ordinal z.ordinal) x xs ≡ x ∷ xs
unfolding insert_sorted
insert_first x lo hi [] h i = refl
insert_first x lo hi (y ∷ ys) h (le, i) = ground arith

pub sort_by-Increasing :
    (lo hi : ℕ) (xs : List MessageRow)
    → Increasing (λ (y : MessageRow). y.ordinal) lo hi xs
    → sort_by (λ (y z : MessageRow). leb y.ordinal z.ordinal) xs ≡ xs
unfolding sort_by
sort_by-Increasing lo hi [] i = refl
sort_by-Increasing lo hi (x ∷ xs) (le, i) =
    ap (insert_sorted (λ (y z : MessageRow). leb y.ordinal z.ordinal) x)
      (sort_by-Increasing (suc x.ordinal) hi xs i)
    ∙ insert_first x (suc x.ordinal) hi xs (omega arith) i

-- So the messages of a conversation are its rows in the order of the table.
pub messages_of-select :
    (m : Memory) (db : Database) (a : Agrees m db) (k : ℕ)
    → messages_of k db.messages ≡ select (λ x. x.conversation_id == k) db.messages
unfolding messages_of
messages_of-select m db a k = let (hi, i) = a.ordinals k in sort_by-Increasing 0 hi _ i

pub Increasing-max_ordinal :
    (lo hi : ℕ) (xs : List MessageRow)
    → Increasing (λ (y : MessageRow). y.ordinal) lo hi xs
    → Increasing (λ (y : MessageRow). y.ordinal) lo (max lo (max_ordinal xs + 1)) xs
unfolding max_ordinal
Increasing-max_ordinal lo hi [] i = omega arith
Increasing-max_ordinal lo hi (x ∷ xs) (le, i) = (
  le,
  Increasing-wider (λ (y : MessageRow). y.ordinal) (suc x.ordinal) (suc x.ordinal) _ _ xs
      (omega arith) (omega arith) (Increasing-max_ordinal (suc x.ordinal) hi xs i),
)

-- A new row at the end of the table.
first-snoc :
    (k : ℕ) (rows : List ConversationRow) (r : ConversationRow)
    → first (has_id k) (rows ++ r ∷ [])
      ≡ elim (first (has_id k) rows) as (λ _. Option ConversationRow) [
        | none ↦ if r.id == k then some r else none
        | some x ↦ some x
      ]
unfolding first
first-snoc k [] r = ground arith
first-snoc k (x ∷ xs) r = ground (arith, first-snoc k xs r)

entries-snoc :
    (messages : List MessageRow) (rows : List ConversationRow) (r : ConversationRow)
    → entries messages (rows ++ r ∷ []) ≡ entries messages rows ++ (r.id, model_of messages r) ∷ []
unfolding entries
entries-snoc messages [] r = refl
entries-snoc messages (x ∷ xs) r =
    ap (λ l. (x.id, model_of messages x) ∷ l) (entries-snoc messages xs r)

set_item-new :
    (messages : List MessageRow) (k : ℕ) (c : Conversation) (rows : List ConversationRow)
    → All (λ (r : ConversationRow). r.id < k) rows
    → set_item k c (entries messages rows) ≡ entries messages rows ++ (k, c) ∷ []
unfolding set_item entries
set_item-new messages k c [] hs = refl
set_item-new messages k c (r ∷ rs) (h, hs) = ground (arith, set_item-new messages k c rs hs)

Increasing-le :
    {A : Type 0} (key : A → ℕ) (lo hi : ℕ) (xs : List A) → Increasing key lo hi xs → lo ≤ hi
Increasing-le key lo hi [] i = i
Increasing-le key lo hi (x ∷ xs) (le, i) = omega (arith, Increasing-le key (suc (key x)) hi xs i)

pub below_bound :
    {A : Type 0} (key : A → ℕ) (lo hi : ℕ) (xs : List A)
    → Increasing key lo hi xs
    → All (λ x. key x < hi) xs
below_bound key lo hi [] i = tt
below_bound key lo hi (x ∷ xs) (le, i) =
    (omega (arith, Increasing-le key (suc (key x)) hi xs i), below_bound key (suc (key x)) hi xs i)

pub All-snoc :
    {A : Type 0} (P : A → Type 0) (xs : List A) (x : A) → All P xs → P x → All P (xs ++ x ∷ [])
All-snoc P [] x ps p = (p, tt)
All-snoc P (y ∷ ys) x (q, ps) p = (q, All-snoc P ys x ps p)

pub select_none :
    {A : Type 0} (p : A → Bool) (xs : List A) → All (λ x. p x ≡ false) xs → select p xs ≡ []
unfolding select
select_none p [] ps = refl
select_none p (x ∷ xs) (e, ps) = ground (arith, select_none p xs ps)

pub first_below :
    (k hi : ℕ) (rows : List ConversationRow) (r : ConversationRow)
    → All (λ (x : ConversationRow). x.id < hi) rows
    → first (has_id k) rows ≡ some r
    → k < hi
first_below k hi rows r below e = ground (
  arith,
  first_holds (has_id k) rows r e,
  All-first (λ (x : ConversationRow). x.id < hi) (has_id k) rows r below e,
)

-- What is kept of a new row, which no row has the identifier of.
from_row-new :
    {A : Type 0} (h : ConversationRow → Option A) (k hi : ℕ) (rows : List ConversationRow)
    (r : ConversationRow)
    → All (λ (x : ConversationRow). x.id < hi) rows
    → r.id ≡ hi
    → from_row h (first (has_id k) (rows ++ r ∷ []))
      ≡ (if hi == k then h r else from_row h (first (has_id k) rows))
unfolding from_row
from_row-new h k hi rows r below e = elim (Option-cases (first (has_id k) rows)) [
  | inl n ↦ ground (arith, first-snoc k rows r)
  | inr (x, n) ↦ ground (arith, first-snoc k rows r, first_below k hi rows x below n)
]

module _ (m : Memory) (db : Database) (a : Agrees m db) (settings : Settings) (now : ℕ) where
  no_messages : messages_of db.supply db.messages ≡ []
  no_messages =
      messages_of-select m db a db.supply
      ∙ select_none (λ (x : MessageRow). x.conversation_id == db.supply) db.messages
          (All-implied (λ (x : MessageRow). x.conversation_id < db.supply)
            (λ (x : MessageRow). (x.conversation_id == db.supply) ≡ false) (λ x h. ground arith)
            db.messages a.known)

  new_row-model :
      (project : ℕ) (version : Option ℕ) (o : ℕ)
      → model_of db.messages (Sql.new_row settings now db.supply project version o)
        ≡ Memory.new_conversation settings now db.supply project
  unfolding model_of Sql.new_row Memory.new_conversation conversation_model shown_name
  new_row-model project version o = rw no_messages refl

  new_row-proper_row :
      (project : ℕ) (version : Option ℕ) (o : ℕ)
      → proper_row (Sql.new_row settings now db.supply project version o) ≡ true
  unfolding proper_row Sql.new_row
  new_row-proper_row project version o = refl

  -- A new row has no lease, and no lease is kept for its identifier.
  new_lease :
      (project : ℕ) (version : Option ℕ) (o k : ℕ)
      → get_item k m.leases
        ≡ from_row lease_of (
            first
              (has_id k)
              (db.conversations ++ Sql.new_row settings now db.supply project version o ∷ []))
  unfolding from_row lease_of Sql.new_row
  new_lease project version o k =
      let r = Sql.new_row settings now db.supply project version o in
      let below = below_bound (λ (x : ConversationRow). x.id) 0 db.supply db.conversations a.ids in
      let kept = from_row-new lease_of k db.supply db.conversations r below refl in
      elim (Option-cases (first (has_id k) db.conversations)) [
        | inl n ↦ ground (arith, a.leases k, kept)
        | inr (x, n) ↦
            ground (arith, a.leases k, kept, first_below k db.supply db.conversations x below n)
      ]

  create-answer :
      (project : ℕ) (version : Option ℕ) (o : ℕ)
      → (Memory.create settings now project version o m).1
        ≡ (Sql.create settings now project version o db).1
  unfolding Memory.create Sql.create Sql.new_row Memory.new_conversation conversation_model
      shown_name
  create-answer project version o = ground (arith, a.supply)

  create-Agrees :
      (project : ℕ) (version : Option ℕ) (o : ℕ)
      → Agrees
          (Memory.create settings now project version o m).0
          (Sql.create settings now project version o db).0
  unfolding Memory.create Sql.create Sql.new_row some_owner some_version lease_of
  create-Agrees project version o =
      let r = Sql.new_row settings now db.supply project version o in
      let below = below_bound (λ (x : ConversationRow). x.id) 0 db.supply db.conversations a.ids in
      record {
        items =
            ap (λ n. set_item n (Memory.new_conversation settings now n project) m.items) a.supply
            ∙ ap (set_item db.supply (Memory.new_conversation settings now db.supply project))
                a.items
            ∙ set_item-new db.messages db.supply
                (Memory.new_conversation settings now db.supply project) db.conversations below
            ∙ ap (λ c. entries db.messages db.conversations ++ (db.supply, c) ∷ [])
                (sym (new_row-model project version o))
            ∙ sym (entries-snoc db.messages db.conversations r);
        owners = λ k. ground (
          arith,
          get_item-set_item k m.supply o m.owners,
          a.supply,
          a.owners k,
          from_row-new some_owner k db.supply db.conversations r below refl,
        );
        versions = λ k. ground (
          arith,
          get_item-set_item k m.supply version m.versions,
          a.supply,
          a.versions k,
          from_row-new some_version k db.supply db.conversations r below refl,
        );
        leases = λ k. new_lease project version o k;
        supply = ap suc a.supply;
        proper =
            All-snoc (λ (x : ConversationRow). proper_row x ≡ true) db.conversations r a.proper
              (new_row-proper_row project version o);
        ids =
            Increasing-snoc (λ (x : ConversationRow). x.id) 0 db.supply (suc db.supply)
              db.conversations r a.ids (omega arith) (omega arith);
        message_ids =
            Increasing-wider (λ (x : MessageRow). x.id) 0 0 db.supply (suc db.supply) db.messages
              (omega arith) (omega arith) a.message_ids;
        row_ids = a.row_ids;
        ordinals = a.ordinals;
        known =
            All-implied (λ (x : MessageRow). x.conversation_id < db.supply)
              (λ (x : MessageRow). x.conversation_id < suc db.supply) (λ x h. omega arith)
              db.messages a.known;
      }

  pub create-Same :
      (project : ℕ) (version : Option ℕ) (o : ℕ)
      → Same
          (Memory.create settings now project version o m)
          (Sql.create settings now project version o db)
  create-Same project version o = (create-answer project version o, create-Agrees project version o)
