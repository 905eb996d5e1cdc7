-- ===== src/Store/Refinement/Changes.antt =====
-- Methods that read a conversation or change the fields of one: both stores do the same
-- (apps/api/app/store).
use poc_la_graph.Base.{
  ℕ, ◌≡◌, refl, sym, ap, ◌∙◌, subst, Bool, true, false, not, ◌==◌, Option, none, some, is_some,
  List, [], ◌∷◌, if◌then◌else◌, arith, inl, inr, Bool-cases, Option-cases, All,
}
use poc_la_graph.Base.Table.{first, modify_first}
use poc_la_graph.Knowledge.Text.{Text, strip}
use poc_la_graph.Store.Models.{Conversation, Settings, Response, Error}
use poc_la_graph.Store.Dict.{change_item}
use poc_la_graph.Store.Names.{shown_name}
use poc_la_graph.Store.Memory
use poc_la_graph.Store.Memory.{Memory}
use poc_la_graph.Store.Sql
use poc_la_graph.Store.Tables.{
  ConversationRow, MessageRow, Database, has_id, get_row, messages_of, conversation_model,
  active_lease, change_row,
}
use poc_la_graph.Store.Refinement.Rows.{Increasing-modify_first}
use poc_la_graph.Store.Refinement.Relation.{
  proper_name, proper_row, model_of, entries, lease_of, from_row, some_owner, some_version, Agrees,
  Same, Same-by, row_found, row_id_lem, row_proper, owned-get_row, live_lease-active_lease,
}

-- A change of a row that keeps its identifier, owner, version and lease, is proper again, and is the
-- given change of the conversation.
pub record IsChange (f : Conversation → Conversation) (g : ConversationRow → ConversationRow)
    : Type 0 where
  pub same_id : (r : ConversationRow) → (g r).id ≡ r.id
  pub same_owner : (r : ConversationRow) → (g r).created_by ≡ r.created_by
  pub same_version : (r : ConversationRow) → (g r).graph_version ≡ r.graph_version
  pub same_lease : (r : ConversationRow) → lease_of (g r) ≡ lease_of r
  pub still_proper : (r : ConversationRow) → proper_row r ≡ true → proper_row (g r) ≡ true
  pub same_model :
      (messages : List MessageRow) (r : ConversationRow)
      → proper_row r ≡ true
      → model_of messages (g r) ≡ f (model_of messages r)

-- What a change keeps can be read from the changed table.
pub from_row-modify_first :
    {A : Type 0} (h : ConversationRow → Option A) (g : ConversationRow → ConversationRow) (i k : ℕ)
    → ((r : ConversationRow) → (g r).id ≡ r.id)
    → ((r : ConversationRow) → h (g r) ≡ h r)
    → (rows : List ConversationRow)
    → from_row h (first (has_id i) (modify_first (has_id k) g rows))
      ≡ from_row h (first (has_id i) rows)
unfolding from_row first modify_first
from_row-modify_first h g i k same_id same [] = refl
from_row-modify_first h g i k same_id same (r ∷ rs) =
    ground (arith, same_id r, same r, from_row-modify_first h g i k same_id same rs)

pub All-modify_first :
    (P : ConversationRow → Type 0) (p : ConversationRow → Bool)
    (g : ConversationRow → ConversationRow)
    → ((r : ConversationRow) → P r → P (g r))
    → (rows : List ConversationRow) → All P rows
    → All P (modify_first p g rows)
unfolding modify_first
All-modify_first P p g h [] ps = tt
All-modify_first P p g h (r ∷ rs) (pr, ps) = elim (Bool-cases (p r)) [
  | inl e ↦ rw e (h r pr, ps)
  | inr e ↦ rw e (pr, All-modify_first P p g h rs ps)
]

module _ (f : Conversation → Conversation) (g : ConversationRow → ConversationRow)
    (c : IsChange f g) where
  change_item-entries :
      (messages : List MessageRow) (k : ℕ) (rows : List ConversationRow)
      → All (λ (r : ConversationRow). proper_row r ≡ true) rows
      → change_item k f (entries messages rows) ≡ entries messages (modify_first (has_id k) g rows)
  unfolding change_item entries modify_first
  change_item-entries messages k [] ps = refl
  change_item-entries messages k (r ∷ rs) (pr, ps) = elim (Bool-cases (r.id == k)) [
    | inl e ↦ ground (arith, c.same_id r, c.same_model messages r pr)
    | inr e ↦ ground (arith, change_item-entries messages k rs ps)
  ]

  pub change-Agrees :
      (k : ℕ) (m : Memory) (db : Database)
      → Agrees m db
      → Agrees (Memory.change k f m) (change_row k g db)
  unfolding Memory.change change_row some_owner some_version
  change-Agrees k m db a = record {
    items =
        ap (change_item k f) a.items ∙ change_item-entries db.messages k db.conversations a.proper;
    owners = λ i.
        a.owners i
        ∙ sym (
            from_row-modify_first some_owner g i k c.same_id (λ r. ap some (c.same_owner r))
              db.conversations);
    versions = λ i.
        a.versions i
        ∙ sym (
            from_row-modify_first some_version g i k c.same_id (λ r. ap some (c.same_version r))
              db.conversations);
    leases = λ i.
        a.leases i
        ∙ sym (from_row-modify_first lease_of g i k c.same_id c.same_lease db.conversations);
    supply = a.supply;
    proper =
        All-modify_first (λ (r : ConversationRow). proper_row r ≡ true) (has_id k) g c.still_proper
          db.conversations a.proper;
    ids =
        Increasing-modify_first (λ (r : ConversationRow). r.id) (has_id k) g 0 db.supply c.same_id
          db.conversations a.ids;
    message_ids = a.message_ids;
    row_ids = a.row_ids;
    ordinals = a.ordinals;
    known = a.known;
  }

module _ (m : Memory) (db : Database) (a : Agrees m db) (settings : Settings) (now : ℕ) where
  -- Methods that need a conversation of the caller agree where they find the same one.
  pub with-Same :
      (active_only : Bool) (id o : ℕ) (f : Conversation → Memory × Response)
      (g : ConversationRow → Database × Response)
      → ((r : ConversationRow)
          → get_row active_only id o db ≡ some r
          → Same (f (model_of db.messages r)) (g r))
      → Same
          (Memory.with_owned settings now active_only id o f m)
          (Sql.with_row settings now active_only id o g db)
  unfolding Memory.with_owned Sql.with_row from_row
  with-Same active_only id o f g h = elim (Option-cases (get_row active_only id o db)) [
    | inl e ↦
        let missing : Memory.owned active_only id o m ≡ none =
          ground (arith, owned-get_row m db a active_only id o) in
        Same-by _ (m, Response.raised (Error.conversation_not_found id)) _
          (db, Response.raised (Error.conversation_not_found id)) (ground arith) (ground arith)
          (refl, a)
    | inr (r, e) ↦
        let found : Memory.owned active_only id o m ≡ some (model_of db.messages r) =
          ground (arith, owned-get_row m db a active_only id o) in
        Same-by _ (f (model_of db.messages r)) _ (g r) (ground arith) (ground arith) (h r e)
  ]

  pub unless_leased-Same :
      (id : ℕ) (r : ConversationRow) (x : Memory × Response) (y : Database × Response)
      → first (has_id id) db.conversations ≡ some r
      → r.id ≡ id
      → Same x y
      → Same
          (Memory.unless_leased settings now id m x)
          (Sql.reject_active_lease settings now r db y)
  unfolding Memory.unless_leased Sql.reject_active_lease
  unless_leased-Same id r x y found same h = elim (Option-cases (active_lease now r)) [
    | inl e ↦
        Same-by _ x _ y (ground (arith, live_lease-active_lease m db a now id r found))
          (ground arith) h
    | inr (request, e) ↦
        Same-by _ (m, Response.raised (Error.request_conflict id request)) _
          (db, Response.raised (Error.request_conflict r.id request))
          (ground (arith, live_lease-active_lease m db a now id r found)) (ground arith)
          ((ground arith), a)
  ]

  -- A change that returns the conversation.
  changed-Same :
      (active_only : Bool) (id o : ℕ) (r : ConversationRow) (f : Conversation → Conversation)
      (g : ConversationRow → ConversationRow)
      → IsChange f g
      → get_row active_only id o db ≡ some r
      → Same
          (Memory.change id f m, Response.conversation (f (model_of db.messages r)))
          (Sql.answer settings now g r db)
  unfolding Sql.answer model_of
  changed-Same active_only id o r f g c e =
      let same = row_id_lem m db a active_only id o r e in
      (
        ap Response.conversation (
            sym (c.same_model db.messages r (row_proper m db a active_only id o r e))
            ∙ ap (λ i. conversation_model (g r) (messages_of i db.messages)) (c.same_id r)),
        subst (λ i. Agrees (Memory.change id f m) (change_row i g db)) (sym same)
            (change-Agrees f g c id m db a),
      )

  pub get-Same : (id o : ℕ) → Same (Memory.get settings now id o m) (Sql.get settings now id o db)
  unfolding Memory.get Sql.get model_of
  get-Same id o = with-Same true id o _ _ (λ r e. (refl, a))

  pub get_scope-Same :
      (id o : ℕ) (include_archived : Bool)
      → Same
          (Memory.get_scope settings now id o include_archived m)
          (Sql.get_scope settings now id o include_archived db)
  unfolding Memory.get_scope Sql.get_scope Memory.version_of model_of conversation_model from_row
      some_version
  get_scope-Same id o include_archived = with-Same (not include_archived) id o _ _ (λ r e.
      ((ground (arith, a.versions id, row_found m db a (not include_archived) id o r e)), a))

  pub get_history-Same :
      (id max_turns max_chars o : ℕ)
      → Same
          (Memory.get_history settings now id max_turns max_chars o m)
          (Sql.get_history settings now id max_turns max_chars o db)
  unfolding Memory.get_history Sql.get_history model_of
  get_history-Same id max_turns max_chars o = with-Same true id o _ _ (λ r e. (refl, a))

  renamed-IsChange :
      (name : Text)
      → proper_name (strip name) ≡ true
      → IsChange (Memory.renamed settings now name) (Sql.renamed settings now name)
  unfolding Memory.renamed Sql.renamed lease_of proper_row proper_name model_of conversation_model
      shown_name
  renamed-IsChange name good = record {
    same_id = λ r. refl;
    same_owner = λ r. refl;
    same_version = λ r. refl;
    same_lease = λ r. refl;
    still_proper = λ r h. ground arith;
    same_model = λ messages r h. ground arith;
  }

  pub rename-Same :
      (id : ℕ) (name : Text) (o : ℕ)
      → proper_name (strip name) ≡ true
      → Same (Memory.rename settings now id name o m) (Sql.rename settings now id name o db)
  unfolding Memory.rename Sql.rename
  rename-Same id name o good = with-Same true id o _ _ (λ r e.
      unless_leased-Same id r _ _ (row_found m db a true id o r e) (row_id_lem m db a true id o r e)
        (changed-Same true id o r _ _ (renamed-IsChange name good) e))

  put_away-IsChange : IsChange (Memory.put_away settings now) (Sql.put_away settings now)
  unfolding Memory.put_away Sql.put_away lease_of proper_row model_of conversation_model
  put_away-IsChange = record {
    same_id = λ r. refl;
    same_owner = λ r. refl;
    same_version = λ r. refl;
    same_lease = λ r. refl;
    still_proper = λ r h. h;
    same_model = λ messages r h. refl;
  }

  pub archive-Same :
      (id o : ℕ) → Same (Memory.archive settings now id o m) (Sql.archive settings now id o db)
  unfolding Memory.archive Sql.archive
  archive-Same id o = with-Same true id o _ _ (λ r e.
      let same = row_id_lem m db a true id o r e in
      unless_leased-Same id r _ _ (row_found m db a true id o r e) same (
        refl,
        subst
            (λ i.
              Agrees (Memory.change id (Memory.put_away settings now) m)
                (change_row i (Sql.put_away settings now) db))
            (sym same) (change-Agrees _ _ put_away-IsChange id m db a),
      ))

  brought_back-IsChange :
      IsChange (Memory.brought_back settings now) (Sql.brought_back settings now)
  unfolding Memory.brought_back Sql.brought_back lease_of proper_row model_of conversation_model
  brought_back-IsChange = record {
    same_id = λ r. refl;
    same_owner = λ r. refl;
    same_version = λ r. refl;
    same_lease = λ r. refl;
    still_proper = λ r h. h;
    same_model = λ messages r h. refl;
  }

  -- The same test in both stores.
  pub if-Same :
      (b : Bool) (x x' : Memory × Response) (y y' : Database × Response)
      → Same x y
      → Same x' y'
      → Same (if b then x else x') (if b then y else y')
  if-Same true x x' y y' h k = h
  if-Same false x x' y y' h k = k

  pub restore-Same :
      (id o : ℕ) → Same (Memory.restore settings now id o m) (Sql.restore settings now id o db)
  unfolding Memory.restore Sql.restore model_of conversation_model
  restore-Same id o = with-Same false id o _ _ (λ r e.
      if-Same (is_some r.archived_at) _ _ _ _
        (unless_leased-Same id r _ _ (row_found m db a false id o r e)
          (row_id_lem m db a false id o r e)
          (changed-Same false id o r _ _ brought_back-IsChange e))
        (refl, a))
