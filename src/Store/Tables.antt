-- ===== src/Store/Tables.antt =====
-- The tables of apps/api/app/store/sqlalchemy.py, lists of rows in the order of insertion, the models
-- that are read from them, and the statements that the methods share. Foreign keys that cascade are
-- written out.
use poc_la_graph.Base.{
  ℕ, ◌+◌, ◌*◌, max, Bool, false, not, ◌&&◌, ltb, leb, ◌==◌, if◌then◌else◌, is_some, any, List, [],
  ◌∷◌, map, Option, none, some,
}
use poc_la_graph.Base.Table.{first, select, delete, modify_first}
use poc_la_graph.Knowledge.Text.{Text}
use poc_la_graph.Plsql.Order.{sort_by}
use poc_la_graph.Store.Models.{Role, Status, Message, Conversation, Summary, Settings}
use poc_la_graph.Store.Names.{shown_name}

pub record ConversationRow : Type 0 where
  pub id : ℕ
  pub project_id : ℕ
  pub graph_version : Option ℕ
  pub created_by : ℕ
  pub name : Option Text
  pub created_at : ℕ
  pub updated_at : ℕ
  pub archived_at : Option ℕ
  pub active_request_id : Option ℕ
  pub lease_expires_at : Option ℕ

pub record MessageRow : Type 0 where
  pub row_id : ℕ
  pub id : ℕ
  pub conversation_id : ℕ
  pub ordinal : ℕ
  pub role : Role
  pub content : Text
  pub status : Status
  pub created_at : ℕ
  pub result : Option ℕ

pub record Database : Type 0 where
  pub conversations : List ConversationRow
  pub messages : List MessageRow
  pub supply : ℕ
  pub row_supply : ℕ

abbrev day : ℕ
day = 86400

abbrev pub has_id : ℕ → ConversationRow → Bool
has_id id r = r.id == id

-- The condition of `_get_row`.
unfoldable pub is_row_of : Bool → ℕ → ℕ → ConversationRow → Bool
is_row_of active_only id created_by r =
    r.id == id && (r.created_by == created_by && not (active_only && is_some r.archived_at))

-- `_get_row`
unfoldable pub get_row : Bool → ℕ → ℕ → Database → Option ConversationRow
get_row active_only id created_by db = first (is_row_of active_only id created_by) db.conversations

-- `_reject_active_lease`: the request that holds a lease which has not expired.
unfoldable pub active_lease : ℕ → ConversationRow → Option ℕ
active_lease now r = elim r.active_request_id [
  | none ↦ none
  | some request ↦ elim r.lease_expires_at [
    | none ↦ none
    | some expires ↦ if ltb now expires then some request else none
  ]
]

-- `select(MessageRow).where(...).order_by(MessageRow.ordinal)`
unfoldable pub messages_of : ℕ → List MessageRow → List MessageRow
messages_of id rows =
    sort_by (λ (x y : MessageRow). leb x.ordinal y.ordinal)
      (select (λ m. m.conversation_id == id) rows)

-- `_message_model`
unfoldable pub message_model : MessageRow → Message
message_model m = record {
  id = m.id;
  role = m.role;
  content = m.content;
  status = m.status;
  created_at = m.created_at;
  result = m.result;
}

-- `_conversation_model`
unfoldable pub conversation_model : ConversationRow → List MessageRow → Conversation
conversation_model r rows = record {
  id = r.id;
  project_id = r.project_id;
  name = shown_name r.name;
  created_at = r.created_at;
  updated_at = r.updated_at;
  archived_at = r.archived_at;
  messages = map message_model rows;
}

-- `_summary_model`
unfoldable pub summary_model : ConversationRow → Summary
summary_model r = record {
  id = r.id;
  project_id = r.project_id;
  name = shown_name r.name;
  created_at = r.created_at;
  updated_at = r.updated_at;
  archived_at = r.archived_at;
}

-- `delete(ConversationRow).where(...)`, which takes the messages with it.
unfoldable pub delete_rows : (ConversationRow → Bool) → Database → Database
delete_rows p db = record db {
  conversations = delete p db.conversations;
  messages =
      delete (λ (m : MessageRow). any (λ r. p r && r.id == m.conversation_id) db.conversations)
        db.messages;
}

-- Assignments to the fields of a row.
unfoldable pub change_row : ℕ → (ConversationRow → ConversationRow) → Database → Database
change_row id f db = record db { conversations = modify_first (has_id id) f db.conversations }

-- `archived_at IS NOT NULL AND archived_at < now - retention`
unfoldable pub row_expired : Settings → ℕ → ConversationRow → Bool
row_expired settings now r = elim r.archived_at [
  | none ↦ false
  | some at ↦ ltb (at + settings.retention_days * day) now
]

unfoldable pub max_ordinal : List MessageRow → ℕ
max_ordinal [] = 0
max_ordinal (m ∷ ms) = max m.ordinal (max_ordinal ms)
