-- ===== src/Store/Refinement/Deletion.antt =====
-- The deletion of conversations with all that belongs to them: both stores delete the same
-- (apps/api/app/store).
use poc_la_graph.Base.{
  ℕ, suc, ◌<◌, ◌≡◌, refl, sym, ap, ◌∙◌, subst, Bool, true, false, ◌&&◌, ◌==◌, Option, some, is_some,
  List, [], ◌∷◌, arith, inl, inr, Bool-cases, Option-cases, All, any, length,
}
use poc_la_graph.Base.Table.{first, delete, count, select-delete_other, first_holds}
use poc_la_graph.Base.Counts.{All-implied}
use poc_la_graph.Store.Models.{Conversation, Response, Settings}
use poc_la_graph.Store.Dict.{get_item}
use poc_la_graph.Store.Memory
use poc_la_graph.Store.Memory.{Memory, forget, forget_all, keys_where}
use poc_la_graph.Store.Sql
use poc_la_graph.Store.Tables.{
  ConversationRow, MessageRow, Database, has_id, delete_rows, messages_of, conversation_model,
  row_expired,
}
use poc_la_graph.Store.Refinement.Rows.{Increasing, Increasing-delete}
use poc_la_graph.Store.Refinement.Relation.{
  proper_row, model_of, entries, lease_of, from_row, some_owner, some_version, Agrees, Same,
  row_found, row_id_lem,
}
use poc_la_graph.Store.Refinement.Changes.{with-Same, unless_leased-Same, if-Same}
use poc_la_graph.Store.Refinement.Removal.{
  in_ids, pop_all, get_item-pop_all, forget_all_fields, row_test, select-delete, All-delete,
  delete-same, All-deleted, pop_all-entries, All-both, self_first, first-delete_id, any-first,
}

-- The messages of the rows that stay.
entries-stay :
    (messages : List MessageRow) (gone : MessageRow → Bool) (rows : List ConversationRow)
    → All
        (λ (r : ConversationRow).
          (x : MessageRow) → gone x ≡ true → (x.conversation_id == r.id) ≡ false)
        rows
    → entries (delete gone messages) rows ≡ entries messages rows
unfolding entries model_of messages_of
entries-stay messages gone [] hs = refl
entries-stay messages gone (r ∷ rs) (h, hs) = ground (
  arith,
  select-delete_other (λ (x : MessageRow). x.conversation_id == r.id) gone h messages,
  entries-stay messages gone rs hs,
)

-- A key whose rows are deleted is not the key of a row that stays.
stays :
    (p : ConversationRow → Bool) (k hi : ℕ) (rows : List ConversationRow) (r : ConversationRow)
    → Increasing (λ (x : ConversationRow). x.id) 0 hi rows
    → p r ≡ false
    → first (has_id r.id) rows ≡ some r
    → any (λ (y : ConversationRow). p y && y.id == k) rows ≡ true
    → (k == r.id) ≡ false
stays p k hi rows r i kept own gone = elim (Bool-cases (k == r.id)) [
  | inl e ↦
      let same : k ≡ r.id = ground arith in
      let found : first (has_id k) rows ≡ some r =
        subst (λ n. first (has_id n) rows ≡ some r) (sym same) own in
      absurd (ground (arith, any-first p k 0 hi rows i))
  | inr e ↦ e
]

module _ (m : Memory) (db : Database) (a : Agrees m db) (p : ConversationRow → Bool) (ids : List ℕ)
    (named : (k : ℕ) → in_ids k ids ≡ row_test p (first (has_id k) db.conversations)) where
  items-deleted :
      pop_all ids m.items ≡ entries (delete_rows p db).messages (delete_rows p db).conversations
  unfolding delete_rows
  items-deleted =
      let rows = db.conversations in
      let own = self_first 0 db.supply rows a.ids in
      let same : delete (λ (r : ConversationRow). in_ids r.id ids) rows ≡ delete p rows =
        delete-same (λ (r : ConversationRow). in_ids r.id ids) p rows
          (All-implied (λ (r : ConversationRow). first (has_id r.id) rows ≡ some r)
            (λ (r : ConversationRow). in_ids r.id ids ≡ p r) (λ r e. ground (arith, named r.id))
            rows own) in
      let stay =
        All-implied (λ (r : ConversationRow). (p r ≡ false) × (first (has_id r.id) rows ≡ some r))
          (λ (r : ConversationRow).
            (x : MessageRow)
            → any (λ (y : ConversationRow). p y && y.id == x.conversation_id) rows ≡ true
            → (x.conversation_id == r.id) ≡ false)
          (λ r h x gone. stays p x.conversation_id db.supply rows r a.ids h.0 h.1 gone)
          (delete p rows)
          (All-both (λ (r : ConversationRow). p r ≡ false)
            (λ (r : ConversationRow). first (has_id r.id) rows ≡ some r) (delete p rows)
            (All-deleted p rows)
            (All-delete (λ (r : ConversationRow). first (has_id r.id) rows ≡ some r) p rows own)) in
      ap (pop_all ids) a.items
      ∙ pop_all-entries db.messages ids rows
      ∙ ap (entries db.messages) same
      ∙ sym (entries-stay db.messages _ (delete p rows) stay)

  -- What is kept for the rows of a table, when the same ones are deleted.
  field-deleted :
      {A : Type 0} (h : ConversationRow → Option A) (d : List (ℕ × A)) (k : ℕ)
      → get_item k d ≡ from_row h (first (has_id k) db.conversations)
      → get_item k (pop_all ids d) ≡ from_row h (first (has_id k) (delete p db.conversations))
  unfolding from_row
  field-deleted h d k e =
      let kept = first-delete_id p k 0 db.supply db.conversations a.ids in
      elim (Option-cases (first (has_id k) db.conversations)) [
        | inl n ↦ ground (arith, get_item-pop_all k ids d, named k, kept)
        | inr (r, n) ↦ ground (arith, get_item-pop_all k ids d, named k, kept)
      ]

  deletion-Agrees : Agrees (forget_all ids m) (delete_rows p db)
  unfolding delete_rows
  deletion-Agrees =
      let gone = λ (x : MessageRow).
        any (λ (r : ConversationRow). p r && r.id == x.conversation_id) db.conversations in
      subst (λ t. Agrees t (delete_rows p db)) (sym (forget_all_fields ids m))
        (record {
          items = items-deleted;
          owners = λ k. field-deleted some_owner m.owners k (a.owners k);
          versions = λ k. field-deleted some_version m.versions k (a.versions k);
          leases = λ k. field-deleted lease_of m.leases k (a.leases k);
          supply = a.supply;
          proper =
              All-delete (λ (r : ConversationRow). proper_row r ≡ true) p db.conversations a.proper;
          ids =
              Increasing-delete (λ (r : ConversationRow). r.id) p 0 db.supply db.conversations
                a.ids;
          message_ids =
              Increasing-delete (λ (x : MessageRow). x.id) gone 0 db.supply db.messages
                a.message_ids;
          row_ids =
              Increasing-delete (λ (x : MessageRow). x.row_id) gone 0 db.row_supply db.messages
                a.row_ids;
          ordinals = λ k.
              let (hi, i) = a.ordinals k in
              (
                hi,
                subst (Increasing (λ (x : MessageRow). x.ordinal) 0 hi)
                    (sym
                      (select-delete (λ (x : MessageRow). x.conversation_id == k) gone db.messages))
                    (Increasing-delete (λ (x : MessageRow). x.ordinal) gone 0 hi _ i),
              );
          known =
              All-delete (λ (x : MessageRow). x.conversation_id < db.supply) gone db.messages
                a.known;
        })

-- The keys of the conversations that satisfy a condition, and how many they are.
module _ (q : Conversation → Bool) (p : ConversationRow → Bool) (messages : List MessageRow)
    (same : (r : ConversationRow) → q (model_of messages r) ≡ p r) where
  in_ids-above :
      (k lo hi : ℕ) (rows : List ConversationRow)
      → k < lo
      → Increasing (λ (r : ConversationRow). r.id) lo hi rows
      → in_ids k (keys_where q (entries messages rows)) ≡ false
  unfolding keys_where entries
  in_ids-above k lo hi [] h i = refl
  in_ids-above k lo hi (r ∷ rs) h (le, i) =
      ground (arith, in_ids-above k (suc r.id) hi rs (omega arith) i)

  in_ids-keys_where :
      (k lo hi : ℕ) (rows : List ConversationRow)
      → Increasing (λ (r : ConversationRow). r.id) lo hi rows
      → in_ids k (keys_where q (entries messages rows)) ≡ row_test p (first (has_id k) rows)
  unfolding keys_where entries first
  in_ids-keys_where k lo hi [] i = refl
  in_ids-keys_where k lo hi (r ∷ rs) (le, i) = elim (Bool-cases (r.id == k)) [
    | inl e ↦ ground (arith, same r, in_ids-above k (suc r.id) hi rs (ground arith) i)
    | inr e ↦ ground (arith, same r, in_ids-keys_where k (suc r.id) hi rs i)
  ]

  length-keys_where :
      (rows : List ConversationRow) → length (keys_where q (entries messages rows)) ≡ count p rows
  unfolding keys_where entries count
  length-keys_where [] = refl
  length-keys_where (r ∷ rs) = ground (arith, same r, length-keys_where rs)

only_id :
    (id k : ℕ) (rows : List ConversationRow) (r : ConversationRow)
    → first (has_id id) rows ≡ some r
    → r.id ≡ id
    → in_ids k (id ∷ []) ≡ row_test (has_id r.id) (first (has_id k) rows)
only_id id k rows r found same = elim (Bool-cases (k == id)) [
  | inl e ↦
      let equal : k ≡ id = ground arith in
      let there : first (has_id k) rows ≡ some r =
        subst (λ n. first (has_id n) rows ≡ some r) (sym equal) found in
      ground arith
  | inr e ↦ elim (Option-cases (first (has_id k) rows)) [
    | inl n ↦ ground arith
    | inr (x, n) ↦ ground (arith, first_holds (has_id k) rows x n)
  ]
]

module _ (m : Memory) (db : Database) (a : Agrees m db) (settings : Settings) (now : ℕ) where
  forgotten-Same :
      (q : Conversation → Bool) (p : ConversationRow → Bool)
      → ((r : ConversationRow) → q (model_of db.messages r) ≡ p r)
      → Same
          (Memory.forgotten settings now q m)
          (delete_rows p db, Response.counted (count p db.conversations))
  unfolding Memory.forgotten
  forgotten-Same q p same =
      let ids = keys_where q m.items in
      let shown : ids ≡ keys_where q (entries db.messages db.conversations) =
        ap (keys_where q) a.items in
      (
        ap Response.counted
            (ap length shown ∙ length-keys_where q p db.messages same db.conversations),
        deletion-Agrees m db a p ids (λ k.
            ap (in_ids k) shown
            ∙ in_ids-keys_where q p db.messages same k 0 db.supply db.conversations a.ids),
      )

  expired_lem :
      (r : ConversationRow)
      → Memory.is_expired settings now (model_of db.messages r).archived_at
        ≡ row_expired settings now r
  unfolding Memory.is_expired row_expired model_of conversation_model
  expired_lem r = ground arith

  pub cleanup-Same : Same (Memory.cleanup settings now m) (Sql.cleanup settings now db)
  unfolding Memory.cleanup Sql.cleanup
  cleanup-Same = forgotten-Same _ (row_expired settings now) expired_lem

  pub delete_project-Same :
      (project : ℕ)
      → Same
          (Memory.delete_project settings now project m)
          (Sql.delete_project settings now project db)
  unfolding Memory.delete_project Sql.delete_project model_of conversation_model
  delete_project-Same project = forgotten-Same _ _ (λ r. refl)

  pub purge-Same :
      (id o : ℕ) → Same (Memory.purge settings now id o m) (Sql.purge settings now id o db)
  unfolding Memory.purge Sql.purge model_of conversation_model forget_all
  purge-Same id o = with-Same m db a settings now false id o _ _ (λ r e.
      if-Same m db a settings now (is_some r.archived_at) _ _ _ _
        (unless_leased-Same m db a settings now id r _ _ (row_found m db a false id o r e)
          (row_id_lem m db a false id o r e)
          (
            refl,
            deletion-Agrees m db a (has_id r.id) (id ∷ []) (λ k.
                only_id id k db.conversations r (row_found m db a false id o r e)
                  (row_id_lem m db a false id o r e)),
          ))
        (refl, a))
