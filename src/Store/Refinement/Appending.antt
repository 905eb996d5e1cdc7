-- ===== src/Store/Refinement/Appending.antt =====
-- A message at the end of a conversation: both stores append it alike (`_append` of
-- apps/api/app/store/conversations.py and apps/api/app/store/sqlalchemy.py).
use poc_la_graph.Base.{
  ℕ, suc, ◌+◌, ◌<◌, ◌≡◌, refl, sym, ap, ◌∙◌, subst, max, true, false, ◌==◌, Option, some, List, [],
  ◌∷◌, ◌++◌, map, arith, inl, inr, Bool-cases, All,
}
use mathlib.Core.List.{append-nil}
use poc_la_graph.Base.Table.{first, select, modify_first, select-append}
use poc_la_graph.Base.Counts.{All-implied}
use poc_la_graph.Knowledge.Text.{Text}
use poc_la_graph.Store.Models.{Role, Status, Message, Response, Settings}
use poc_la_graph.Store.Dict.{change_item}
use poc_la_graph.Store.Names.{derive_name}
use poc_la_graph.Store.Exchanges.{is_user}
use poc_la_graph.Store.Memory
use poc_la_graph.Store.Memory.{Memory}
use poc_la_graph.Store.Sql
use poc_la_graph.Store.Tables.{
  ConversationRow, MessageRow, Database, has_id, messages_of, message_model, conversation_model,
  max_ordinal, change_row,
}
use poc_la_graph.Store.Refinement.Rows.{
  Increasing, Increasing-wider, Increasing-snoc, Increasing-modify_first,
}
use poc_la_graph.Store.Refinement.Relation.{
  proper_name, proper_row, model_of, entries, lease_of, some_owner, some_version, Agrees, Same,
  row_found, row_id_lem,
}
use poc_la_graph.Store.Refinement.Changes.{with-Same, from_row-modify_first, All-modify_first}
use poc_la_graph.Store.Refinement.Messages.{
  sort_by-Increasing, messages_of-select, Increasing-max_ordinal, below_bound, All-snoc,
  first_below,
}
use poc_la_graph.Store.Refinement.Snoc.{
  messages_of-snoc_other, map-append-one, entries-other, above_ids, named_alike,
}

module _ (m : Memory) (db : Database) (a : Agrees m db) (settings : Settings) (now : ℕ) (id : ℕ)
    (role : Role) (content : Text) (status : Status) (result : Option ℕ)
    (good : is_user role ≡ true → proper_name (derive_name content) ≡ true) where
  row : MessageRow
  row = Sql.new_message_row settings now id role content status result db

  select-row_own :
      select (λ (x : MessageRow). x.conversation_id == id) (db.messages ++ row ∷ [])
      ≡ select (λ (x : MessageRow). x.conversation_id == id) db.messages ++ row ∷ []
  unfolding row Sql.new_message_row select
  select-row_own =
      ground
        (arith, select-append (λ (x : MessageRow). x.conversation_id == id) db.messages (row ∷ []))

  select-row_other :
      (k : ℕ)
      → (id == k) ≡ false
      → select (λ (x : MessageRow). x.conversation_id == k) (db.messages ++ row ∷ [])
        ≡ select (λ (x : MessageRow). x.conversation_id == k) db.messages
  unfolding row Sql.new_message_row select
  select-row_other k h = ground (
    arith,
    select-append (λ (x : MessageRow). x.conversation_id == k) db.messages (row ∷ []),
    append-nil (select (λ (x : MessageRow). x.conversation_id == k) db.messages),
  )

  own-Increasing :
      (hi : ℕ) × Increasing
        (λ (x : MessageRow). x.ordinal)
        0
        hi
        (select (λ (x : MessageRow). x.conversation_id == id) (db.messages ++ row ∷ []))
  unfolding row Sql.new_message_row
  own-Increasing =
      let own = select (λ (x : MessageRow). x.conversation_id == id) db.messages in
      let (hi, i) = a.ordinals id in
      (
        suc (max_ordinal own + 1),
        subst (Increasing (λ (x : MessageRow). x.ordinal) 0 (suc (max_ordinal own + 1)))
            (sym select-row_own)
            (Increasing-snoc (λ (x : MessageRow). x.ordinal) 0 (max 0 (max_ordinal own + 1))
              (suc (max_ordinal own + 1)) own row (Increasing-max_ordinal 0 hi own i) (omega arith)
              (omega arith)),
      )

  selected-Increasing :
      (k : ℕ)
      → (hi : ℕ) × Increasing
          (λ (x : MessageRow). x.ordinal)
          0
          hi
          (select (λ (x : MessageRow). x.conversation_id == k) (db.messages ++ row ∷ []))
  selected-Increasing k = elim (Bool-cases (id == k)) [
    | inl e ↦
        let same : id ≡ k = ground arith in
        subst
          (λ n.
            (hi : ℕ) × Increasing (λ (x : MessageRow). x.ordinal) 0 hi
              (select (λ (x : MessageRow). x.conversation_id == n) (db.messages ++ row ∷ [])))
          same own-Increasing
    | inr e ↦
        let (hi, i) = a.ordinals k in
        (hi, subst (Increasing (λ (x : MessageRow). x.ordinal) 0 hi) (sym (select-row_other k e)) i)
  ]

  messages_of-row :
      messages_of id (db.messages ++ row ∷ []) ≡ messages_of id db.messages ++ row ∷ []
  messages_of-row =
      let (hi, i) = own-Increasing in
      unfold messages_of in
      (sort_by-Increasing 0 hi _ i
        ∙ select-row_own
        ∙ ap (λ l. l ++ row ∷ []) (sym (messages_of-select m db a id)))

  msg : Message
  msg = Memory.new_message settings now m.supply role content status result

  msg-row : message_model row ≡ msg
  unfolding row msg Sql.new_message_row Memory.new_message message_model
  msg-row = ground (arith, a.supply)

  -- The conversation with the message, as the memory changes it.
  model_of-touched :
      (r : ConversationRow)
      → proper_row r ≡ true
      → r.id ≡ id
      → model_of (db.messages ++ row ∷ []) (Sql.touched settings now role content r)
        ≡ Memory.appended settings now msg (model_of db.messages r)
  unfolding model_of Sql.touched Memory.appended conversation_model msg Memory.new_message
  model_of-touched r proper same =
      let name = named_alike (is_user role) r (derive_name content) proper good in
      let shown : map message_model (messages_of r.id (db.messages ++ row ∷ []))
          ≡ map message_model (messages_of r.id db.messages) ++ message_model row ∷ [] =
        subst
          (λ n.
            map message_model (messages_of n (db.messages ++ row ∷ []))
            ≡ map message_model (messages_of n db.messages) ++ message_model row ∷ [])
          (sym same)
          (ap (map message_model) messages_of-row
            ∙ map-append-one (messages_of id db.messages) row) in
      ground (arith, msg-row)

  touched-proper_row :
      (r : ConversationRow)
      → proper_row r ≡ true
      → proper_row (Sql.touched settings now role content r) ≡ true
  unfolding Sql.touched proper_row
  touched-proper_row r proper = elim (Bool-cases (is_user role)) [
    | inl e ↦ ground (arith, good e)
    | inr e ↦ ground arith
  ]

  touched-id : (r : ConversationRow) → (Sql.touched settings now role content r).id ≡ r.id
  unfolding Sql.touched
  touched-id r = refl

  row-conversation_id : row.conversation_id ≡ id
  unfolding row Sql.new_message_row
  row-conversation_id = refl

  row-id : row.id ≡ db.supply
  unfolding row Sql.new_message_row
  row-id = refl

  row-row_id : row.row_id ≡ db.row_supply
  unfolding row Sql.new_message_row
  row-row_id = refl

  items-appended :
      (lo : ℕ) (rows : List ConversationRow)
      → Increasing (λ (r : ConversationRow). r.id) lo db.supply rows
      → All (λ (r : ConversationRow). proper_row r ≡ true) rows
      → change_item id (Memory.appended settings now msg) (entries db.messages rows)
        ≡ entries
            (db.messages ++ row ∷ [])
            (modify_first (has_id id) (Sql.touched settings now role content) rows)
  unfolding change_item entries modify_first
  items-appended lo [] i ps = refl
  items-appended lo (r ∷ rs) (le, i) (proper, ps) = elim (Bool-cases (r.id == id)) [
    | inl e ↦
        let same : r.id ≡ id = ground arith in
        let others = entries-other db.messages row rs (
          above_ids row.conversation_id (suc r.id) db.supply rs (omega (arith, row-conversation_id))
            i) in
        ground (arith, model_of-touched r proper same, touched-id r)
    | inr e ↦
        let other : messages_of r.id (db.messages ++ row ∷ []) ≡ messages_of r.id db.messages =
          messages_of-snoc_other r.id db.messages row (ground (arith, row-conversation_id)) in
        let model : model_of (db.messages ++ row ∷ []) r ≡ model_of db.messages r =
          unfold model_of in ap (conversation_model r) other in
        ground (arith, items-appended (suc r.id) rs i ps)
  ]

  append-Agrees :
      (r : ConversationRow)
      → r.id ≡ id
      → first (has_id id) db.conversations ≡ some r
      → Agrees
          (record (Memory.change id (Memory.appended settings now msg) m) { supply = suc m.supply })
          (record (change_row r.id (Sql.touched settings now role content) db) {
            messages = db.messages ++ row ∷ [];
            supply = suc db.supply;
            row_supply = suc db.row_supply;
          })
  unfolding Memory.change change_row Sql.touched some_owner some_version lease_of
  append-Agrees r same found =
      let g = Sql.touched settings now role content in
      subst
        (λ n.
          Agrees
            (record (Memory.change id (Memory.appended settings now msg) m) {
              supply = suc m.supply;
            })
            (record (change_row n g db) {
              messages = db.messages ++ row ∷ [];
              supply = suc db.supply;
              row_supply = suc db.row_supply;
            }))
        (sym same)
        (record {
          items =
              ap (change_item id (Memory.appended settings now msg)) a.items
              ∙ items-appended 0 db.conversations a.ids a.proper;
          owners = λ k.
              a.owners k
              ∙ sym
                  (from_row-modify_first some_owner g k id touched-id (λ x. refl) db.conversations);
          versions = λ k.
              a.versions k
              ∙ sym (
                  from_row-modify_first some_version g k id touched-id (λ x. refl)
                    db.conversations);
          leases = λ k.
              a.leases k
              ∙ sym (from_row-modify_first lease_of g k id touched-id (λ x. refl) db.conversations);
          supply = ap suc a.supply;
          proper =
              All-modify_first (λ (x : ConversationRow). proper_row x ≡ true) (has_id id) g
                touched-proper_row db.conversations a.proper;
          ids =
              Increasing-modify_first (λ (x : ConversationRow). x.id) (has_id id) g 0
                (suc db.supply) touched-id db.conversations
                (Increasing-wider (λ (x : ConversationRow). x.id) 0 0 db.supply (suc db.supply)
                  db.conversations (omega arith) (omega arith) a.ids);
          message_ids =
              Increasing-snoc (λ (x : MessageRow). x.id) 0 db.supply (suc db.supply) db.messages row
                a.message_ids (omega (arith, row-id)) (omega (arith, row-id));
          row_ids =
              Increasing-snoc (λ (x : MessageRow). x.row_id) 0 db.row_supply (suc db.row_supply)
                db.messages row a.row_ids (omega (arith, row-row_id)) (omega (arith, row-row_id));
          ordinals = selected-Increasing;
          known =
              All-snoc (λ (x : MessageRow). x.conversation_id < suc db.supply) db.messages row
                (All-implied (λ (x : MessageRow). x.conversation_id < db.supply)
                  (λ (x : MessageRow). x.conversation_id < suc db.supply) (λ x h. omega arith)
                  db.messages a.known)
                (omega (
                  arith,
                  row-conversation_id,
                  first_below id db.supply db.conversations r
                      (below_bound (λ (x : ConversationRow). x.id) 0 db.supply db.conversations
                        a.ids)
                      found,
                ));
        })

  pub append-Same :
      (o : ℕ)
      → Same
          (Memory.append settings now id role content status result o m)
          (Sql.append settings now id role content status result o db)
  unfolding Memory.append Sql.append row msg
  append-Same o = with-Same m db a settings now true id o _ _ (λ r e.
      let same = row_id_lem m db a true id o r e in
      (ap Response.message (sym msg-row), append-Agrees r same (row_found m db a true id o r e)))
