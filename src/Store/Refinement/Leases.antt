-- ===== src/Store/Refinement/Leases.antt =====
-- The leases of requests: both stores take and release them alike (apps/api/app/store).
use poc_la_graph.Base.{
  ℕ, ◌+◌, ◌≡◌, refl, sym, ap, ◌∙◌, Bool, true, false, not, ◌&&◌, ◌==◌, ltb, Option, none, some,
  is_some, List, [], ◌∷◌, if◌then◌else◌, arith, inl, inr, Bool-cases, Option-cases,
}
use mathlib.Core.Path.{fun_ext}
use poc_la_graph.Base.Table.{first, update, modify_first, count_none, count_some, first_holds}
use poc_la_graph.Store.Models.{Response, Error, Settings}
use poc_la_graph.Store.Dict.{get_item, set_item, get_item-set_item}
use poc_la_graph.Store.Sql
use poc_la_graph.Store.Memory.{Memory}
use poc_la_graph.Store.Tables.{
  ConversationRow, MessageRow, Database, has_id, is_row_of, get_row, conversation_model,
}
use poc_la_graph.Store.Refinement.Rows.{Increasing-modify_first, first-key, update-key}
use poc_la_graph.Store.Refinement.Relation.{
  proper_row, model_of, entries, lease_of, from_row, some_owner, some_version, Agrees, row_found,
}
use poc_la_graph.Store.Refinement.Changes.{from_row-modify_first, All-modify_first}

-- A change of the lease only.
pub record IsLeaseChange (g : ConversationRow → ConversationRow) : Type 0 where
  pub same_id : (r : ConversationRow) → (g r).id ≡ r.id
  pub same_owner : (r : ConversationRow) → (g r).created_by ≡ r.created_by
  pub same_version : (r : ConversationRow) → (g r).graph_version ≡ r.graph_version
  pub still_proper : (r : ConversationRow) → proper_row r ≡ true → proper_row (g r) ≡ true
  pub same_model :
      (messages : List MessageRow) (r : ConversationRow)
      → model_of messages (g r) ≡ model_of messages r

entries-modify_first :
    (g : ConversationRow → ConversationRow) (c : IsLeaseChange g) (messages : List MessageRow)
    (k : ℕ) (rows : List ConversationRow)
    → entries messages (modify_first (has_id k) g rows) ≡ entries messages rows
unfolding entries modify_first
entries-modify_first g c messages k [] = refl
entries-modify_first g c messages k (r ∷ rs) =
    ground (arith, c.same_id r, c.same_model messages r, entries-modify_first g c messages k rs)

pub lease-modify_first :
    (g : ConversationRow → ConversationRow) (c : IsLeaseChange g) (i k : ℕ)
    (rows : List ConversationRow) (r : ConversationRow)
    → first (has_id k) rows ≡ some r
    → from_row lease_of (first (has_id i) (modify_first (has_id k) g rows))
      ≡ (if k == i then lease_of (g r) else from_row lease_of (first (has_id i) rows))
unfolding from_row first modify_first
lease-modify_first g c i k [] r e = absurd (ground arith)
lease-modify_first g c i k (x ∷ xs) r e = elim (Bool-cases (x.id == k)) [
  | inl h ↦ ground (arith, c.same_id x)
  | inr h ↦ ground (arith, lease-modify_first g c i k xs r)
]

row_condition :
    (active_only : Bool) (id o : ℕ) (p : ConversationRow → Bool) (x : ConversationRow)
    → (is_row_of active_only id o x && p x)
      ≡ (x.id == id && ((x.created_by == o && not (active_only && is_some x.archived_at)) && p x))
unfolding is_row_of
row_condition active_only id o p x = ground arith

row_condition_lem :
    (active_only : Bool) (id o : ℕ) (x : ConversationRow)
    → is_row_of active_only id o x
      ≡ (x.id == id && (x.created_by == o && not (active_only && is_some x.archived_at)))
unfolding is_row_of
row_condition_lem active_only id o x = refl

module _ (m : Memory) (db : Database) (a : Agrees m db) where
  pub lease-Agrees :
      (g : ConversationRow → ConversationRow) (c : IsLeaseChange g) (k : ℕ)
      (leases : List (ℕ × (ℕ × ℕ)))
      → ((i : ℕ)
          → get_item i leases
            ≡ from_row lease_of (first (has_id i) (modify_first (has_id k) g db.conversations)))
      → Agrees
          (record m { leases = leases })
          (record db { conversations = modify_first (has_id k) g db.conversations })
  unfolding some_owner some_version
  lease-Agrees g c k leases h = record {
    items = a.items ∙ sym (entries-modify_first g c db.messages k db.conversations);
    owners = λ i.
        a.owners i
        ∙ sym (
            from_row-modify_first some_owner g i k c.same_id (λ r. ap some (c.same_owner r))
              db.conversations);
    versions = λ i.
        a.versions i
        ∙ sym (
            from_row-modify_first some_version g i k c.same_id (λ r. ap some (c.same_version r))
              db.conversations);
    leases = h;
    supply = a.supply;
    proper =
        All-modify_first (λ (r : ConversationRow). proper_row r ≡ true) (has_id k) g c.still_proper
          db.conversations a.proper;
    ids =
        Increasing-modify_first (λ (r : ConversationRow). r.id) (has_id k) g 0 db.supply c.same_id
          db.conversations a.ids;
    message_ids = a.message_ids;
    row_ids = a.row_ids;
    ordinals = a.ordinals;
    known = a.known;
  }

  -- The row that satisfies the condition on the caller's rows and another one.
  pub first-row :
      (active_only : Bool) (id o : ℕ) (p : ConversationRow → Bool)
      → first (λ x. is_row_of active_only id o x && p x) db.conversations
        ≡ elim (get_row active_only id o db) as (λ _. Option ConversationRow) [
          | none ↦ none
          | some r ↦ if p r then some r else none
        ]
  unfolding get_row
  first-row active_only id o p =
      let rest =
        λ (x : ConversationRow). x.created_by == o && not (active_only && is_some x.archived_at) in
      let key = λ (x : ConversationRow). x.id in
      let e = first-key key (λ x. rest x && p x) id 0 db.supply db.conversations a.ids in
      let f = first-key key rest id 0 db.supply db.conversations a.ids in
      let same : first (λ x. is_row_of active_only id o x && p x) db.conversations
          ≡ first (λ x. key x == id && (rest x && p x)) db.conversations =
        ap (λ q. first q db.conversations) (fun_ext (λ x. row_condition active_only id o p x)) in
      let whole : first (is_row_of active_only id o) db.conversations
          ≡ first (λ x. key x == id && rest x) db.conversations =
        ap (λ q. first q db.conversations) (fun_ext (λ x. row_condition_lem active_only id o x)) in
      elim (Option-cases (first (has_id id) db.conversations)) [
        | inl n ↦ ground (arith, e, f, same, whole)
        | inr (r, n) ↦ ground (arith, e, f, same, whole)
      ]

  -- An update under a condition on the row of the caller is a change of that row.
  pub update-row :
      (active_only : Bool) (id o : ℕ) (p : ConversationRow → Bool)
      (g : ConversationRow → ConversationRow) (r : ConversationRow)
      → get_row active_only id o db ≡ some r
      → p r ≡ true
      → update (λ x. is_row_of active_only id o x && p x) g db.conversations
        ≡ modify_first (has_id id) g db.conversations
  update-row active_only id o p g r e h =
      let rest =
        λ (x : ConversationRow). x.created_by == o && not (active_only && is_some x.archived_at) in
      let key = λ (x : ConversationRow). x.id in
      let same : update (λ x. is_row_of active_only id o x && p x) g db.conversations
          ≡ update (λ x. key x == id && (rest x && p x)) g db.conversations =
        ap (λ q. update q g db.conversations) (fun_ext (λ x. row_condition active_only id o p x)) in
      let holds_row : is_row_of active_only id o r ≡ true =
        unfold get_row in first_holds (is_row_of active_only id o) db.conversations r e in
      same
      ∙ update-key key (λ x. rest x && p x) g id 0 db.supply db.conversations r a.ids
          (row_found m db a active_only id o r e)
          (ground (arith, row_condition active_only id o p r))

module _ (m : Memory) (db : Database) (a : Agrees m db) (settings : Settings) (now : ℕ) where
  leased-IsLeaseChange : (request : ℕ) → IsLeaseChange (Sql.leased settings now request)
  unfolding Sql.leased proper_row model_of conversation_model
  leased-IsLeaseChange request = record {
    same_id = λ r. refl;
    same_owner = λ r. refl;
    same_version = λ r. refl;
    still_proper = λ r h. ground arith;
    same_model = λ messages r. refl;
  }

  pub taken-Agrees :
      (id request : ℕ) (r : ConversationRow)
      → first (has_id id) db.conversations ≡ some r
      → Agrees
          (record m { leases = set_item id (request, now + settings.lease_seconds) m.leases })
          (record db {
            conversations =
                modify_first (has_id id) (Sql.leased settings now request) db.conversations;
          })
  unfolding Sql.leased lease_of
  taken-Agrees id request r found =
      let c = leased-IsLeaseChange request in
      lease-Agrees m db a (Sql.leased settings now request) c id _ (λ i. ground (
        arith,
        get_item-set_item i id (request, now + settings.lease_seconds) m.leases,
        lease-modify_first (Sql.leased settings now request) c i id db.conversations r found,
        a.leases i,
      ))

  -- The lease that the memory holds for a row.
  pub lease_known :
      (id : ℕ) (r : ConversationRow)
      → first (has_id id) db.conversations ≡ some r
      → get_item id m.leases ≡ lease_of r
  unfolding from_row
  lease_known id r found = ground (arith, a.leases id)

  -- The request that a row names holds the lease of the memory, and not more.
  pub is_free-lease_of :
      (request : ℕ) (r : ConversationRow)
      → proper_row r ≡ true
      → Sql.is_free settings now request r ≡ elim (lease_of r) as (λ _. Bool) [
        | none ↦ true
        | some (holder, expires) ↦ not (not (holder == request) && ltb now expires)
      ]
  unfolding Sql.is_free lease_of proper_row
  is_free-lease_of request r proper = ground arith

  pub acquire-Sql_free :
      (id request o : ℕ) (r : ConversationRow)
      → get_row true id o db ≡ some r
      → Sql.is_free settings now request r ≡ true
      → Sql.acquire_request settings now id request o db ≡ (
        record db {
          conversations =
              modify_first (has_id id) (Sql.leased settings now request) db.conversations;
        },
        Response.nothing,
      )
  unfolding Sql.acquire_request
  acquire-Sql_free id request o r e free =
      let some_row =
        count_some (λ x. is_row_of true id o x && Sql.is_free settings now request x)
          db.conversations r
          (ground (arith, first-row m db a true id o (Sql.is_free settings now request))) in
      let changed =
        update-row m db a true id o (Sql.is_free settings now request)
          (Sql.leased settings now request) r e free in
      ground arith

  pub acquire-Sql_held :
      (id request o : ℕ) (r : ConversationRow)
      → get_row true id o db ≡ some r
      → Sql.is_free settings now request r ≡ false
      → Sql.acquire_request settings now id request o db
        ≡ elim r.active_request_id as (λ _. Database × Response) [
          | none ↦ (db, Response.raised (Error.conversation_not_found id))
          | some holder ↦ (db, Response.raised (Error.request_conflict id holder))
        ]
  unfolding Sql.acquire_request
  acquire-Sql_held id request o r e held =
      let no_row =
        count_none (λ x. is_row_of true id o x && Sql.is_free settings now request x)
          db.conversations
          (ground (arith, first-row m db a true id o (Sql.is_free settings now request))) in
      ground arith

  pub acquire-Sql_missing :
      (id request o : ℕ)
      → get_row true id o db ≡ none
      → Sql.acquire_request settings now id request o db
        ≡ (db, Response.raised (Error.conversation_not_found id))
  unfolding Sql.acquire_request
  acquire-Sql_missing id request o e =
      let no_row =
        count_none (λ x. is_row_of true id o x && Sql.is_free settings now request x)
          db.conversations
          (ground (arith, first-row m db a true id o (Sql.is_free settings now request))) in
      ground arith
