-- ===== src/Store/Refinement/Snoc.antt =====
-- A row at the end of the messages, and the name that a conversation gets with its first message
-- (apps/api/app/store).
use poc_la_graph.Base.{
  ℕ, suc, ◌<◌, ◌≡◌, refl, ap, Bool, true, false, not, ◌&&◌, ◌==◌, leb, some, is_some, List, [], ◌∷◌,
  ◌++◌, map, if◌then◌else◌, arith, inl, inr, Option-cases, All,
}
use mathlib.Core.List.{append-nil}
use poc_la_graph.Base.Table.{select, select-append}
use poc_la_graph.Knowledge.Text.{Text, text_eq}
use poc_la_graph.Plsql.Order.{sort_by}
use poc_la_graph.Store.Names.{default_name, shown_name}
use poc_la_graph.Store.Tables.{ConversationRow, MessageRow, messages_of, message_model}
use poc_la_graph.Store.Refinement.Rows.{Increasing}
use poc_la_graph.Store.Refinement.Relation.{proper_name, proper_row, model_of, entries}

-- The messages of the other conversations.
pub messages_of-snoc_other :
    (k : ℕ) (messages : List MessageRow) (x : MessageRow)
    → (x.conversation_id == k) ≡ false
    → messages_of k (messages ++ x ∷ []) ≡ messages_of k messages
unfolding messages_of select
messages_of-snoc_other k messages x h =
    ap (sort_by (λ (y z : MessageRow). leb y.ordinal z.ordinal)) (
      ground (
        arith,
        select-append (λ (y : MessageRow). y.conversation_id == k) messages (x ∷ []),
        append-nil (select (λ (y : MessageRow). y.conversation_id == k) messages),
      ))

pub map-append-one :
    (xs : List MessageRow) (x : MessageRow)
    → map message_model (xs ++ x ∷ []) ≡ map message_model xs ++ message_model x ∷ []
map-append-one [] x = refl
map-append-one (y ∷ ys) x = ap (λ l. message_model y ∷ l) (map-append-one ys x)

pub entries-other :
    (messages : List MessageRow) (x : MessageRow) (rows : List ConversationRow)
    → All (λ (r : ConversationRow). (x.conversation_id == r.id) ≡ false) rows
    → entries (messages ++ x ∷ []) rows ≡ entries messages rows
unfolding entries model_of
entries-other messages x [] hs = refl
entries-other messages x (r ∷ rs) (h, hs) =
    ground (arith, messages_of-snoc_other r.id messages x h, entries-other messages x rs hs)

pub above_ids :
    (k lo hi : ℕ) (rows : List ConversationRow)
    → k < lo
    → Increasing (λ (r : ConversationRow). r.id) lo hi rows
    → All (λ (r : ConversationRow). (k == r.id) ≡ false) rows
above_ids k lo hi [] h i = tt
above_ids k lo hi (r ∷ rs) h (le, i) = (ground arith, above_ids k (suc r.id) hi rs (omega arith) i)

default_eq : text_eq default_name default_name ≡ true
default_eq = refl

-- The first message of a user names a conversation that has no name.
pub named_alike :
    (from_user : Bool) (r : ConversationRow) (derived : Text)
    → proper_row r ≡ true
    → (from_user ≡ true → proper_name derived ≡ true)
    → shown_name (if from_user && not (is_some r.name) then some derived else r.name) ≡ (
        if from_user && text_eq (shown_name r.name) default_name
        then derived
        else shown_name r.name)
unfolding shown_name proper_row proper_name
named_alike true r derived proper good = elim (Option-cases r.name) [
  | inl e ↦ ground (arith, good refl, default_eq)
  | inr (name, e) ↦ ground arith
]
named_alike false r derived proper good = refl
