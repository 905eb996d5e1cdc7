-- ===== src/Store/Refinement/Listing.antt =====
-- The pages of conversations: both stores list the same (`list_conversations` of
-- apps/api/app/store/conversations.py and apps/api/app/store/sqlalchemy.py).
use poc_la_graph.Base.{
  ℕ, zero, suc, ◌+◌, ◌≡◌, refl, ap, ◌∙◌, Bool, ltb, Option, some, List, [], ◌∷◌, map, length, take,
  keep, arith, All,
}
use poc_la_graph.Base.Table.{first, select}
use poc_la_graph.Base.Counts.{All-implied}
use poc_la_graph.Plsql.Order.{sort_by, insert_sorted}
use poc_la_graph.Store.Models.{Conversation, Summary, Response, Settings, ListState}
use poc_la_graph.Store.Exchanges.{summary, newer, next_boundary}
use poc_la_graph.Store.Memory
use poc_la_graph.Store.Memory.{Memory, owner_is}
use poc_la_graph.Store.Sql
use poc_la_graph.Store.Tables.{
  ConversationRow, MessageRow, Database, has_id, summary_model, conversation_model,
}
use poc_la_graph.Store.Refinement.Relation.{model_of, entries, from_row, some_owner, Agrees, Same}
use poc_la_graph.Store.Refinement.Removal.{self_first}

take-entries :
    (messages : List MessageRow) (n : ℕ) (rows : List ConversationRow)
    → take n (entries messages rows) ≡ entries messages (take n rows)
unfolding entries
take-entries messages zero rows = refl
take-entries messages (suc n) [] = refl
take-entries messages (suc n) (r ∷ rs) =
    ap (λ l. (r.id, model_of messages r) ∷ l) (take-entries messages n rs)

length-entries :
    (messages : List MessageRow) (rows : List ConversationRow)
    → length (entries messages rows) ≡ length rows
unfolding entries
length-entries messages [] = refl
length-entries messages (r ∷ rs) = ap suc (length-entries messages rs)

summaries :
    (messages : List MessageRow) (rows : List ConversationRow)
    → map (λ (x : ℕ × Conversation). summary x.1) (entries messages rows) ≡ map summary_model rows
unfolding entries summary summary_model model_of conversation_model
summaries messages [] = refl
summaries messages (r ∷ rs) = ap (λ l. summary_model r ∷ l) (summaries messages rs)

abbrev newer_entry : ℕ × Conversation → ℕ × Conversation → Bool
newer_entry x y = newer (x.1.updated_at, x.1.id) (y.1.updated_at, y.1.id)

abbrev newer_row : ConversationRow → ConversationRow → Bool
newer_row x y = newer (x.updated_at, x.id) (y.updated_at, y.id)

newer_alike :
    (messages : List MessageRow) (r s : ConversationRow)
    → newer_entry (r.id, model_of messages r) (s.id, model_of messages s) ≡ newer_row r s
unfolding model_of conversation_model
newer_alike messages r s = refl

insert-entries :
    (messages : List MessageRow) (r : ConversationRow) (rows : List ConversationRow)
    → insert_sorted newer_entry (r.id, model_of messages r) (entries messages rows)
      ≡ entries messages (insert_sorted newer_row r rows)
unfolding insert_sorted entries
insert-entries messages r [] = refl
insert-entries messages r (s ∷ rs) =
    ground (arith, newer_alike messages r s, insert-entries messages r rs)

sort-entries :
    (messages : List MessageRow) (rows : List ConversationRow)
    → sort_by newer_entry (entries messages rows) ≡ entries messages (sort_by newer_row rows)
unfolding sort_by entries
sort-entries messages [] = refl
sort-entries messages (r ∷ rs) =
    ap (insert_sorted newer_entry (r.id, model_of messages r)) (sort-entries messages rs)
    ∙ insert-entries messages r (sort_by newer_row rs)

keep-entries :
    (messages : List MessageRow) (q : ℕ × Conversation → Bool) (p : ConversationRow → Bool)
    (rows : List ConversationRow)
    → All (λ (r : ConversationRow). q (r.id, model_of messages r) ≡ p r) rows
    → keep q (entries messages rows) ≡ entries messages (select p rows)
unfolding select entries
keep-entries messages q p [] hs = refl
keep-entries messages q p (r ∷ rs) (h, hs) = ground (arith, keep-entries messages q p rs hs)

module _ (m : Memory) (db : Database) (a : Agrees m db) (settings : Settings) (now : ℕ) where
  listed_alike :
      (project o : ℕ) (state : ListState) (cursor : Option (ℕ × ℕ)) (r : ConversationRow)
      → first (has_id r.id) db.conversations ≡ some r
      → Memory.is_listed settings now project o state cursor m (r.id, model_of db.messages r)
        ≡ Sql.is_listed settings now project o state cursor r
  unfolding Memory.is_listed Sql.is_listed owner_is model_of conversation_model from_row some_owner
  listed_alike project o state cursor r own = ground (arith, a.owners r.id)

  listed :
      (project o : ℕ) (state : ListState) (cursor : Option (ℕ × ℕ))
      → Memory.newest_first settings now
          (keep (Memory.is_listed settings now project o state cursor m) m.items)
        ≡ entries db.messages (
            Sql.newest_first settings now
              (select (Sql.is_listed settings now project o state cursor) db.conversations))
  unfolding Memory.newest_first Sql.newest_first
  listed project o state cursor =
      let own = self_first 0 db.supply db.conversations a.ids in
      ap
        (λ d. sort_by newer_entry (keep (Memory.is_listed settings now project o state cursor m) d))
        a.items
      ∙ ap (sort_by newer_entry) (
          keep-entries db.messages _ (Sql.is_listed settings now project o state cursor)
            db.conversations
            (All-implied (λ (r : ConversationRow). first (has_id r.id) db.conversations ≡ some r) _
              (λ r e. listed_alike project o state cursor r e) db.conversations own))
      ∙ sort-entries db.messages
          (select (Sql.is_listed settings now project o state cursor) db.conversations)

  pub list_conversations-Same :
      (project o : ℕ) (state : ListState) (limit : ℕ) (cursor : Option (ℕ × ℕ))
      → Same
          (Memory.list_conversations settings now project o state limit cursor m)
          (Sql.list_conversations settings now project o state limit cursor db)
  unfolding Memory.list_conversations Sql.list_conversations
  list_conversations-Same project o state limit cursor =
      let rows =
        Sql.newest_first settings now
          (select (Sql.is_listed settings now project o state cursor) db.conversations) in
      let found : take (limit + 1) (
            Memory.newest_first settings now
              (keep (Memory.is_listed settings now project o state cursor m) m.items))
          ≡ entries db.messages (take (limit + 1) rows) =
        ap (take (limit + 1)) (listed project o state cursor)
        ∙ take-entries db.messages (limit + 1) rows in
      (
        ap
              (λ (l : List (ℕ × Conversation)).
                Response.listed (map (λ (x : ℕ × Conversation). summary x.1) (take limit l)) (
                  next_boundary (ltb limit (length l))
                    (map (λ (x : ℕ × Conversation). summary x.1) (take limit l))))
              found
            ∙ ap
                (λ (l : List (ℕ × Conversation)).
                  Response.listed (map (λ (x : ℕ × Conversation). summary x.1) l) (
                    next_boundary (ltb limit (length (entries db.messages (take (limit + 1) rows))))
                      (map (λ (x : ℕ × Conversation). summary x.1) l)))
                (take-entries db.messages limit (take (limit + 1) rows))
            ∙ ap
                (λ (l : List Summary). Response.listed l (
                  next_boundary (ltb limit (length (entries db.messages (take (limit + 1) rows))))
                    l))
                (summaries db.messages (take limit (take (limit + 1) rows)))
            ∙ ap
                (λ n. Response.listed (map summary_model (take limit (take (limit + 1) rows))) (
                  next_boundary (ltb limit n)
                    (map summary_model (take limit (take (limit + 1) rows)))))
                (length-entries db.messages (take (limit + 1) rows)),
        a,
      )
