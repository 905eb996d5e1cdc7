-- ===== src/Store/Models.antt =====
-- Conversations as the stores return them, and the requests and errors of a store:
-- apps/api/app/models/conversation.py and apps/api/app/store/protocol.py. Identifiers, projects,
-- owners, requests, versions and answers are numbers, since the stores only compare or keep them.
use poc_la_graph.Base.{ℕ, Bool, List, Option}
use poc_la_graph.Knowledge.Text.{Text}

pub data Role : Type 0 where
  user assistant : Role

pub data Status : Type 0 where
  pending completed failed : Status

pub record Message : Type 0 where
  pub id : ℕ
  pub role : Role
  pub content : Text
  pub status : Status
  pub created_at : ℕ
  pub result : Option ℕ

pub record Conversation : Type 0 where
  pub id : ℕ
  pub project_id : ℕ
  pub name : Text
  pub created_at : ℕ
  pub updated_at : ℕ
  pub archived_at : Option ℕ
  pub messages : List Message

pub record Summary : Type 0 where
  pub id : ℕ
  pub project_id : ℕ
  pub name : Text
  pub created_at : ℕ
  pub updated_at : ℕ
  pub archived_at : Option ℕ

pub data Error : Type 0 where
  conversation_not_found : ℕ → Error
  request_conflict : ℕ → ℕ → Error
  state_conflict : ℕ → Error

-- The arguments of a store's constructor.
pub record Settings : Type 0 where
  pub retention_days : ℕ
  pub max_turns : ℕ
  pub lease_seconds : ℕ

pub data ListState : Type 0 where
  active archived : ListState

-- The methods of the protocol, with their arguments. A cursor is the pair that its text holds.
pub data Request : Type 0 where
  cleanup : Request
  create : (project_id : ℕ) (graph_version : Option ℕ) (created_by : ℕ) → Request
  get : (id created_by : ℕ) → Request
  list_conversations :
      (project_id created_by : ℕ) (state : ListState) (limit : ℕ) (cursor : Option (ℕ × ℕ))
      → Request
  get_scope : (id created_by : ℕ) (include_archived : Bool) → Request
  rename : (id : ℕ) (name : Text) (created_by : ℕ) → Request
  archive : (id created_by : ℕ) → Request
  restore : (id created_by : ℕ) → Request
  purge : (id created_by : ℕ) → Request
  delete_project : (project_id : ℕ) → Request
  add_user_message : (id : ℕ) (content : Text) (created_by : ℕ) → Request
  add_assistant_message :
      (id : ℕ) (content : Text) (status : Status) (result : Option ℕ) (created_by : ℕ) → Request
  acquire_request : (id request_id created_by : ℕ) → Request
  release_request : (id request_id created_by : ℕ) → Request
  get_history : (id max_turns max_chars created_by : ℕ) → Request

-- What a method returns or raises.
pub data Response : Type 0 where
  nothing : Response
  counted : ℕ → Response
  conversation : Conversation → Response
  listed : List Summary → Option (ℕ × ℕ) → Response
  scope : ℕ → Option ℕ → Response
  message : Message → Response
  history : List Message → Response
  raised : Error → Response
