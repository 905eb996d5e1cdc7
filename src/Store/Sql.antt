-- ===== src/Store/Sql.antt =====
-- The store over a database: apps/api/app/store/sqlalchemy.py, `SQLAlchemyConversationStore`. A
-- transaction that raises leaves the tables as they were, and identifiers come from supplies.
use poc_la_graph.Base.{
  ℕ, suc, ◌+◌, ◌-◌, Bool, true, false, not, ◌&&◌, ◌||◌, ltb, leb, ◌==◌, if◌then◌else◌, is_some, any,
  List, [], ◌∷◌, ◌++◌, map, length, take, Option, none, some,
}
use poc_la_graph.Base.Table.{select, count, update, delete}
use poc_la_graph.Knowledge.Text.{Text, strip}
use poc_la_graph.Plsql.Order.{sort_by}
use poc_la_graph.Store.Models.{
  Role, user, assistant, Status, completed, Settings, ListState, active, archived, Request,
  Response, Error,
}
use poc_la_graph.Store.Names.{derive_name}
use poc_la_graph.Store.Exchanges.{is_user, exchanges, history_of, newer, behind, next_boundary}
use poc_la_graph.Store.Tables.{
  ConversationRow, MessageRow, Database, has_id, is_row_of, get_row, active_lease, messages_of,
  message_model, conversation_model, summary_model, delete_rows, change_row, row_expired,
  max_ordinal,
}

module _ (settings : Settings) (now : ℕ) where
  unfoldable pub cleanup : Database → Database × Response
  cleanup db = (
    delete_rows (row_expired settings now) db,
    Response.counted (count (row_expired settings now) db.conversations),
  )

  unfoldable pub delete_project : ℕ → Database → Database × Response
  delete_project project db = (
    delete_rows (λ r. r.project_id == project) db,
    Response.counted (count (λ (r : ConversationRow). r.project_id == project) db.conversations),
  )

  unfoldable pub new_row : ℕ → ℕ → Option ℕ → ℕ → ConversationRow
  new_row id project version created_by = record {
    id = id;
    project_id = project;
    graph_version = version;
    created_by = created_by;
    name = none;
    created_at = now;
    updated_at = now;
    archived_at = none;
    active_request_id = none;
    lease_expires_at = none;
  }

  unfoldable pub create : ℕ → Option ℕ → ℕ → Database → Database × Response
  create project version created_by db =
      let r = new_row db.supply project version created_by in
      (
        record db { conversations = db.conversations ++ r ∷ []; supply = suc db.supply },
        Response.conversation (conversation_model r []),
      )

  -- A method that needs a row of the caller.
  unfoldable pub with_row :
      Bool → ℕ → ℕ → (ConversationRow → Database × Response) → Database → Database × Response
  with_row active_only id created_by f db = elim (get_row active_only id created_by db) [
    | none ↦ (db, Response.raised (Error.conversation_not_found id))
    | some r ↦ f r
  ]

  unfoldable pub reject_active_lease :
      ConversationRow → Database → Database × Response → Database × Response
  reject_active_lease r db result = elim (active_lease now r) [
    | some request ↦ (db, Response.raised (Error.request_conflict r.id request))
    | none ↦ result
  ]

  unfoldable pub get : ℕ → ℕ → Database → Database × Response
  get id created_by db =
      with_row true id created_by
        (λ r. (db, Response.conversation (conversation_model r (messages_of r.id db.messages)))) db

  unfoldable pub is_listed : ℕ → ℕ → ListState → Option (ℕ × ℕ) → ConversationRow → Bool
  is_listed project created_by state cursor r =
      r.project_id == project
      && (r.created_by == created_by
          && ((elim state [
            | active ↦ not (is_some r.archived_at)
            | archived ↦ is_some r.archived_at
          ])
              && behind cursor (r.updated_at, r.id)))

  unfoldable pub newest_first : List ConversationRow → List ConversationRow
  newest_first =
      sort_by (λ (x y : ConversationRow). newer (x.updated_at, x.id) (y.updated_at, y.id))

  unfoldable pub list_conversations :
      ℕ → ℕ → ListState → ℕ → Option (ℕ × ℕ) → Database → Database × Response
  list_conversations project created_by state limit cursor db =
      let rows =
        newest_first (select (is_listed project created_by state cursor) db.conversations) in
      let found = take (limit + 1) rows in
      let page = map summary_model (take limit found) in
      (db, Response.listed page (next_boundary (ltb limit (length found)) page))

  unfoldable pub get_scope : ℕ → ℕ → Bool → Database → Database × Response
  get_scope id created_by include_archived db =
      with_row (not include_archived) id created_by
        (λ r. (db, Response.scope r.project_id r.graph_version)) db

  -- The answer of a method that returns the changed row with its messages.
  unfoldable pub answer :
      (ConversationRow → ConversationRow) → ConversationRow → Database → Database × Response
  answer f r db = (
    change_row r.id f db,
    Response.conversation (conversation_model (f r) (messages_of r.id db.messages)),
  )

  unfoldable pub renamed : Text → ConversationRow → ConversationRow
  renamed name r = record r { name = some (strip name); updated_at = now }

  unfoldable pub rename : ℕ → Text → ℕ → Database → Database × Response
  rename id name created_by db =
      with_row true id created_by (λ r. reject_active_lease r db (answer (renamed name) r db)) db

  unfoldable pub put_away : ConversationRow → ConversationRow
  put_away r = record r { archived_at = some now; updated_at = now }

  unfoldable pub archive : ℕ → ℕ → Database → Database × Response
  archive id created_by db =
      with_row true id created_by
        (λ r. reject_active_lease r db (change_row r.id put_away db, Response.nothing)) db

  unfoldable pub brought_back : ConversationRow → ConversationRow
  brought_back r = record r { archived_at = none; updated_at = now }

  unfoldable pub restore : ℕ → ℕ → Database → Database × Response
  restore id created_by db =
      with_row false id created_by
        (λ r.
          if is_some r.archived_at
          then reject_active_lease r db (answer brought_back r db)
          else (db, Response.raised (Error.conversation_not_found id)))
        db

  unfoldable pub purge : ℕ → ℕ → Database → Database × Response
  purge id created_by db =
      with_row false id created_by
        (λ r.
          if is_some r.archived_at
          then reject_active_lease r db (delete_rows (has_id r.id) db, Response.nothing)
          else (db, Response.raised (Error.state_conflict id)))
        db

  unfoldable pub new_message_row : ℕ → Role → Text → Status → Option ℕ → Database → MessageRow
  new_message_row id role content status result db = record {
    row_id = db.row_supply;
    id = db.supply;
    conversation_id = id;
    ordinal = max_ordinal (select (λ m. m.conversation_id == id) db.messages) + 1;
    role = role;
    content = content;
    status = status;
    created_at = now;
    result = result;
  }

  unfoldable pub touched : Role → Text → ConversationRow → ConversationRow
  touched role content r = record r {
    updated_at = now;
    name = if is_user role && not (is_some r.name) then some (derive_name content) else r.name;
  }

  -- `_append`
  unfoldable pub append : ℕ → Role → Text → Status → Option ℕ → ℕ → Database → Database × Response
  append id role content status result created_by db =
      let m = new_message_row id role content status result db in
      with_row true id created_by
        (λ r. (
          record (change_row r.id (touched role content) db) {
            messages = db.messages ++ m ∷ [];
            supply = suc db.supply;
            row_supply = suc db.row_supply;
          },
          Response.message (message_model m),
        ))
        db

  unfoldable pub add_user_message : ℕ → Text → ℕ → Database → Database × Response
  add_user_message id content created_by db = append id user content completed none created_by db

  -- `_complete_exchange_row_ids`
  unfoldable pub complete_exchange_row_ids : List MessageRow → List (ℕ × ℕ)
  complete_exchange_row_ids rows =
      map (λ (e : MessageRow × MessageRow). (e.0.row_id, e.1.row_id))
        (exchanges (λ (m : MessageRow). m.role) (λ (m : MessageRow). m.status) none rows)

  unfoldable pub both_ids : List (ℕ × ℕ) → List ℕ
  both_ids [] = []
  both_ids ((question, answer) ∷ rest) = question ∷ answer ∷ both_ids rest

  -- `_prune`
  unfoldable pub prune : ℕ → Database → Database
  prune id db =
      let found = complete_exchange_row_ids (messages_of id db.messages) in
      let remove_ids = both_ids (take (length found - settings.max_turns) found) in
      record db { messages = delete (λ m. any (λ i. i == m.row_id) remove_ids) db.messages }

  unfoldable pub add_assistant_message :
      ℕ → Text → Status → Option ℕ → ℕ → Database → Database × Response
  add_assistant_message id content status result created_by db =
      let (after, response) = append id assistant content status result created_by db in
      elim (get_row true id created_by db) [
        | none ↦ (after, response)
        | some r ↦ (prune id after, response)
      ]

  -- The lease is free, expired or the request's own.
  unfoldable pub is_free : ℕ → ConversationRow → Bool
  is_free request r = elim r.active_request_id [
    | none ↦ true
    | some holder ↦ elim r.lease_expires_at [
      | none ↦ true
      | some expires ↦ leb expires now || holder == request
    ]
  ]

  unfoldable pub leased : ℕ → ConversationRow → ConversationRow
  leased request r = record r {
    active_request_id = some request;
    lease_expires_at = some (now + settings.lease_seconds);
  }

  unfoldable pub acquire_request : ℕ → ℕ → ℕ → Database → Database × Response
  acquire_request id request created_by db =
      let open_row = λ (r : ConversationRow). is_row_of true id created_by r && is_free request r in
      if ltb 0 (count open_row db.conversations)
      then (
        record db { conversations = update open_row (leased request) db.conversations },
        Response.nothing,
      )
      else elim (get_row true id created_by db) [
        | none ↦ (db, Response.raised (Error.conversation_not_found id))
        | some r ↦ elim r.active_request_id [
          | none ↦ (db, Response.raised (Error.conversation_not_found id))
          | some holder ↦ (db, Response.raised (Error.request_conflict id holder))
        ]
      ]

  unfoldable pub holds : ℕ → ConversationRow → Bool
  holds request r = elim r.active_request_id [ none ↦ false | some holder ↦ holder == request ]

  unfoldable pub released : ConversationRow → ConversationRow
  released r = record r { active_request_id = none; lease_expires_at = none }

  unfoldable pub release_request : ℕ → ℕ → ℕ → Database → Database × Response
  release_request id request created_by db =
      let held_row = λ (r : ConversationRow). is_row_of false id created_by r && holds request r in
      if ltb 0 (count held_row db.conversations)
      then (
        record db { conversations = update held_row released db.conversations },
        Response.nothing,
      )
      else with_row false id created_by (λ r. (db, Response.nothing)) db

  unfoldable pub get_history : ℕ → ℕ → ℕ → ℕ → Database → Database × Response
  get_history id max_turns max_chars created_by db =
      with_row true id created_by
        (λ r. (
          db,
          Response.history (
              history_of max_turns max_chars
                (conversation_model r (messages_of r.id db.messages)).messages),
        ))
        db

  -- One call of a method.
  unfoldable pub perform : Request → Database → Database × Response
  perform Request.cleanup db = cleanup db
  perform (Request.create project version created_by) db = create project version created_by db
  perform (Request.get id created_by) db = get id created_by db
  perform (Request.list_conversations project created_by state limit cursor) db =
      list_conversations project created_by state limit cursor db
  perform (Request.get_scope id created_by include_archived) db =
      get_scope id created_by include_archived db
  perform (Request.rename id name created_by) db = rename id name created_by db
  perform (Request.archive id created_by) db = archive id created_by db
  perform (Request.restore id created_by) db = restore id created_by db
  perform (Request.purge id created_by) db = purge id created_by db
  perform (Request.delete_project project) db = delete_project project db
  perform (Request.add_user_message id content created_by) db =
      add_user_message id content created_by db
  perform (Request.add_assistant_message id content status result created_by) db =
      add_assistant_message id content status result created_by db
  perform (Request.acquire_request id request created_by) db =
      acquire_request id request created_by db
  perform (Request.release_request id request created_by) db =
      release_request id request created_by db
  perform (Request.get_history id max_turns max_chars created_by) db =
      get_history id max_turns max_chars created_by db
