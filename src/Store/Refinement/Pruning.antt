-- ===== src/Store/Refinement/Pruning.antt =====
-- The removal of the oldest exchanges (`_prune` of apps/api/app/store/conversations.py, by the
-- identifiers of messages, and of apps/api/app/store/sqlalchemy.py, by the keys of rows).
use poc_la_graph.Base.{
  ℕ, suc, ◌-◌, ◌<◌, ◌≡◌, refl, sym, ap, ◌∙◌, subst, Bool, true, false, not, ◌==◌, none, List, [],
  ◌∷◌, map, length, take, keep, any, arith, inl, inr, Bool-cases, All, length-map,
}
use poc_la_graph.Base.Table.{select, delete}
use poc_la_graph.Base.Counts.{All-implied}
use poc_la_graph.Store.Models.{Message, Settings}
use poc_la_graph.Store.Dict.{change_item}
use poc_la_graph.Store.Exchanges.{complete_exchanges}
use poc_la_graph.Store.Memory
use poc_la_graph.Store.Memory.{Memory, message_ids}
use poc_la_graph.Store.Sql
use poc_la_graph.Store.Sql.{both_ids, complete_exchange_row_ids}
use poc_la_graph.Store.Tables.{
  ConversationRow, MessageRow, Database, messages_of, message_model, conversation_model,
}
use poc_la_graph.Store.Refinement.Rows.{Increasing, Increasing-delete, Mem-key}
use poc_la_graph.Store.Refinement.Relation.{model_of, entries, Agrees}
use poc_la_graph.Store.Refinement.Removal.{select-delete, All-delete}
use poc_la_graph.Store.Refinement.Messages.{messages_of-select, sort_by-Increasing}
use poc_la_graph.Store.Refinement.Snoc.{above_ids}
use poc_la_graph.Store.Refinement.Answered.{
  elements, pair_map, row_exchanges, exchanges-map, All-exchanges, All-take, take-map, Mem-All,
  All-select_holds, select-delete_members, keep-map,
}
use poc_la_graph.Base.Member.{Mem}

module _ (m : Memory) (db : Database) (a : Agrees m db) (settings : Settings) (now id : ℕ) where
  -- The rows of the conversation, and those of its exchanges that are removed.
  own_rows : List MessageRow
  own_rows = messages_of id db.messages

  removed_pairs : List (MessageRow × MessageRow)
  removed_pairs =
      let found = row_exchanges none own_rows in take (length found - settings.max_turns) found

  removed_keys : List ℕ
  removed_keys = map (λ (x : MessageRow). x.row_id) (elements removed_pairs)

  removed_ids : List ℕ
  removed_ids = map (λ (x : MessageRow). x.id) (elements removed_pairs)

  is_removed : MessageRow → Bool
  is_removed x = any (λ i. i == x.row_id) removed_keys

  IsOwn : MessageRow → Type 0
  IsOwn x = Mem x db.messages × ((x.conversation_id == id) ≡ true)

  own_rows-select : own_rows ≡ select (λ (x : MessageRow). x.conversation_id == id) db.messages
  unfolding own_rows
  own_rows-select = messages_of-select m db a id

  own_rows-All : All IsOwn own_rows
  unfolding IsOwn
  own_rows-All = subst (All IsOwn) (sym own_rows-select) (
      All-select_holds (λ (x : MessageRow). Mem x db.messages)
        (λ (x : MessageRow). x.conversation_id == id) db.messages
        (Mem-All (λ (x : MessageRow). Mem x db.messages) db.messages (λ x i. i)))

  removed-All : All IsOwn (elements removed_pairs)
  unfolding removed_pairs
  removed-All =
      All-take IsOwn _ (row_exchanges none own_rows)
        (All-exchanges IsOwn none own_rows (λ p e. absurd (ground arith)) own_rows-All)

  -- A row is removed by its key exactly when its message is removed by its identifier.
  removed_alike :
      (x : MessageRow) (ys : List MessageRow)
      → Mem x db.messages
      → All IsOwn ys
      → any (λ i. i == x.row_id) (map (λ (y : MessageRow). y.row_id) ys)
        ≡ any (λ i. i == x.id) (map (λ (y : MessageRow). y.id) ys)
  unfolding IsOwn
  removed_alike x [] i os = refl
  removed_alike x (y ∷ ys) i ((j, own), os) =
      let by_key =
        Mem-key (λ (z : MessageRow). z.row_id) 0 db.row_supply db.messages y x a.row_ids j i in
      let by_id =
        Mem-key (λ (z : MessageRow). z.id) 0 db.supply db.messages y x a.message_ids j i in
      let rest = removed_alike x ys i os in
      elim (Bool-cases (y.row_id == x.row_id)) [
        | inl e ↦ ground (arith, ap (λ (z : MessageRow). z.id) (by_key (ground arith)))
        | inr e ↦ elim (Bool-cases (y.id == x.id)) [
          | inl f ↦
              absurd (ground (arith, ap (λ (z : MessageRow). z.row_id) (by_id (ground arith))))
          | inr f ↦ ground arith
        ]
      ]

  removed_own :
      (x : MessageRow) (ys : List MessageRow)
      → Mem x db.messages
      → All IsOwn ys
      → any (λ i. i == x.row_id) (map (λ (y : MessageRow). y.row_id) ys) ≡ true
      → (x.conversation_id == id) ≡ true
  unfolding IsOwn
  removed_own x [] i os h = absurd (ground arith)
  removed_own x (y ∷ ys) i ((j, own), os) h =
      let by_key =
        Mem-key (λ (z : MessageRow). z.row_id) 0 db.row_supply db.messages y x a.row_ids j i in
      elim (Bool-cases (y.row_id == x.row_id)) [
        | inl e ↦
            subst (λ (z : MessageRow). (z.conversation_id == id) ≡ true) (by_key (ground arith)) own
        | inr e ↦ removed_own x ys i os (ground arith)
      ]

  kept_ordinals :
      (k : ℕ)
      → (hi : ℕ) × Increasing
          (λ (x : MessageRow). x.ordinal)
          0
          hi
          (select (λ (x : MessageRow). x.conversation_id == k) (delete is_removed db.messages))
  kept_ordinals k =
      let (hi, i) = a.ordinals k in
      (
        hi,
        subst (Increasing (λ (x : MessageRow). x.ordinal) 0 hi)
            (sym
              (select-delete (λ (x : MessageRow). x.conversation_id == k) is_removed db.messages))
            (Increasing-delete (λ (x : MessageRow). x.ordinal) is_removed 0 hi _ i),
      )

  kept_messages :
      (k : ℕ)
      → messages_of k (delete is_removed db.messages)
        ≡ select (λ (x : MessageRow). x.conversation_id == k) (delete is_removed db.messages)
  unfolding messages_of
  kept_messages k = let (hi, i) = kept_ordinals k in sort_by-Increasing 0 hi _ i

  kept_own : messages_of id (delete is_removed db.messages) ≡ delete is_removed own_rows
  kept_own =
      kept_messages id
      ∙ select-delete (λ (x : MessageRow). x.conversation_id == id) is_removed db.messages
      ∙ ap (delete is_removed) (sym own_rows-select)

  kept_other :
      (k : ℕ)
      → (k == id) ≡ false
      → messages_of k (delete is_removed db.messages) ≡ messages_of k db.messages
  unfolding is_removed removed_keys
  kept_other k other =
      kept_messages k
      ∙ select-delete_members (λ (x : MessageRow). x.conversation_id == k) is_removed db.messages
          (Mem-All (λ (x : MessageRow). is_removed x ≡ true → (x.conversation_id == k) ≡ false)
            db.messages
            (λ x i h. ground (arith, removed_own x (elements removed_pairs) i removed-All h)))
      ∙ sym (messages_of-select m db a k)

  message_ids-map :
      (ps : List (MessageRow × MessageRow))
      → message_ids settings now (map (pair_map message_model) ps)
        ≡ map (λ (x : MessageRow). x.id) (elements ps)
  unfolding message_ids message_model
  message_ids-map [] = refl
  message_ids-map ((x, y) ∷ ps) = ap (λ l. x.id ∷ y.id ∷ l) (message_ids-map ps)

  both_ids-map :
      (ps : List (MessageRow × MessageRow))
      → both_ids settings now (map (λ (e : MessageRow × MessageRow). (e.0.row_id, e.1.row_id)) ps)
        ≡ map (λ (x : MessageRow). x.row_id) (elements ps)
  unfolding both_ids
  both_ids-map [] = refl
  both_ids-map ((x, y) ∷ ps) = ap (λ l. x.row_id ∷ y.row_id ∷ l) (both_ids-map ps)

  -- The identifiers that the memory removes.
  memory_removes :
      message_ids settings now (
        take
          (length (complete_exchanges (map message_model own_rows)) - settings.max_turns)
          (complete_exchanges (map message_model own_rows)))
      ≡ removed_ids
  unfolding complete_exchanges removed_ids removed_pairs
  memory_removes =
      let found = row_exchanges none own_rows in
      let same = exchanges-map none own_rows in
      ap (λ e. message_ids settings now (take (length e - settings.max_turns) e)) same
      ∙ ap
          (λ n.
            message_ids settings now
              (take (n - settings.max_turns) (map (pair_map message_model) found)))
          (length-map found (pair_map message_model))
      ∙ ap (message_ids settings now)
          (take-map (pair_map message_model) (length found - settings.max_turns) found)
      ∙ message_ids-map (take (length found - settings.max_turns) found)

  -- The keys that the database removes.
  sql_removes :
      both_ids settings now (
        take
          (length (complete_exchange_row_ids settings now own_rows) - settings.max_turns)
          (complete_exchange_row_ids settings now own_rows))
      ≡ removed_keys
  unfolding complete_exchange_row_ids removed_keys removed_pairs row_exchanges
  sql_removes =
      let found = row_exchanges none own_rows in
      let ids_of : MessageRow × MessageRow → ℕ × ℕ = λ e. (e.0.row_id, e.1.row_id) in
      ap (λ n. both_ids settings now (take (n - settings.max_turns) (map ids_of found)))
        (length-map found ids_of)
      ∙ ap (both_ids settings now) (take-map ids_of (length found - settings.max_turns) found)
      ∙ both_ids-map (take (length found - settings.max_turns) found)

  -- The messages that the memory keeps are those of the rows that the database keeps.
  kept_alike :
      (n : ℕ)
      → id ≡ n
      → keep
          (λ (x : Message). not (
            any
              (λ i. i == x.id)
              (message_ids settings now (
                take
                  (length (complete_exchanges (map message_model (messages_of n db.messages)))
                    - settings.max_turns)
                  (complete_exchanges (map message_model (messages_of n db.messages)))))))
          (map message_model (messages_of n db.messages))
        ≡ map message_model (messages_of n (delete is_removed db.messages))
  unfolding own_rows is_removed removed_ids removed_keys IsOwn
  kept_alike n same =
      subst
        (λ k.
          keep
            (λ (x : Message). not (
              any (λ i. i == x.id)
                (message_ids settings now (
                  take
                    (length (complete_exchanges (map message_model (messages_of k db.messages)))
                      - settings.max_turns)
                    (complete_exchanges (map message_model (messages_of k db.messages)))))))
            (map message_model (messages_of k db.messages))
          ≡ map message_model (messages_of k (delete is_removed db.messages)))
        same
        (ap
            (λ ids.
              keep (λ (x : Message). not (any (λ i. i == x.id) ids)) (map message_model own_rows))
            memory_removes
          ∙ keep-map removed_ids is_removed own_rows (
              All-implied IsOwn
                (λ (x : MessageRow). is_removed x ≡ any (λ i. i == x.id) removed_ids)
                (λ x o. removed_alike x (elements removed_pairs) o.0 removed-All) own_rows
                own_rows-All)
          ∙ ap (map message_model) (sym kept_own))

  pruned_model :
      (r : ConversationRow)
      → id ≡ r.id
      → Memory.pruned settings now (model_of db.messages r)
        ≡ model_of (delete is_removed db.messages) r
  unfolding Memory.pruned model_of conversation_model
  pruned_model r same =
      ap (λ (ms : List Message). record (conversation_model r []) { messages = ms })
        (kept_alike r.id same)

  entries-pruned_other :
      (rows : List ConversationRow)
      → All (λ (r : ConversationRow). (id == r.id) ≡ false) rows
      → entries (delete is_removed db.messages) rows ≡ entries db.messages rows
  unfolding entries model_of
  entries-pruned_other [] hs = refl
  entries-pruned_other (r ∷ rs) (h, hs) =
      ground (arith, kept_other r.id (ground arith), entries-pruned_other rs hs)

  entries-pruned :
      (lo : ℕ) (rows : List ConversationRow)
      → Increasing (λ (r : ConversationRow). r.id) lo db.supply rows
      → change_item id (Memory.pruned settings now) (entries db.messages rows)
        ≡ entries (delete is_removed db.messages) rows
  unfolding change_item entries
  entries-pruned lo [] i = refl
  entries-pruned lo (r ∷ rs) (le, i) = elim (Bool-cases (r.id == id)) [
    | inl e ↦
        let same : id ≡ r.id = ground arith in
        ground (
          arith,
          pruned_model r same,
          entries-pruned_other rs (above_ids id (suc r.id) db.supply rs (omega arith) i),
        )
    | inr e ↦
        let other : model_of (delete is_removed db.messages) r ≡ model_of db.messages r =
          unfold model_of in ap (conversation_model r) (kept_other r.id (ground arith)) in
        ground (arith, entries-pruned (suc r.id) rs i)
  ]

  pruned-Agrees :
      Agrees
        (Memory.prune settings now id m)
        (record db { messages = delete is_removed db.messages })
  unfolding Memory.prune Memory.change
  pruned-Agrees = record {
    items =
        ap (change_item id (Memory.pruned settings now)) a.items
        ∙ entries-pruned 0 db.conversations a.ids;
    owners = a.owners;
    versions = a.versions;
    leases = a.leases;
    supply = a.supply;
    proper = a.proper;
    ids = a.ids;
    message_ids =
        Increasing-delete (λ (x : MessageRow). x.id) is_removed 0 db.supply db.messages
          a.message_ids;
    row_ids =
        Increasing-delete (λ (x : MessageRow). x.row_id) is_removed 0 db.row_supply db.messages
          a.row_ids;
    ordinals = kept_ordinals;
    known =
        All-delete (λ (x : MessageRow). x.conversation_id < db.supply) is_removed db.messages
          a.known;
  }

  -- Both stores remove the same messages.
  pub prune-Agrees : Agrees (Memory.prune settings now id m) (Sql.prune settings now id db)
  unfolding Sql.prune own_rows is_removed
  prune-Agrees =
      subst
        (λ keys. Agrees (Memory.prune settings now id m) (record db {
          messages = delete (λ (x : MessageRow). any (λ i. i == x.row_id) keys) db.messages;
        }))
        (sym sql_removes) pruned-Agrees
