-- ===== src/Projects/Rows.antt =====
-- The rows of the registry's tables and the database that holds them
-- (apps/api/app/projects/repository.py, the SQLAlchemy row classes and the frozen records).
-- Identifiers made by `uuid4` are numbers, and a `Token` is a text that the registry only compares
-- (subjects, tenants, principals, idempotency keys, checksums, file names). A `Time` is a count of
-- seconds.
use poc_la_graph.Base.{ℕ, String, Bool, true, false, Option, List, ◌==◌}

abbrev pub RowId : Type 0
RowId = ℕ

abbrev pub Token : Type 0
Token = ℕ

abbrev pub Time : Type 0
Time = ℕ

pub data Role : Type 0 where
  viewer contributor manager owner : Role

pub data PrincipalType : Type 0 where
  user group : PrincipalType

pub data ProjectState : Type 0 where
  draft queued building ready failed archived : ProjectState

pub data SnapshotStatus : Type 0 where
  editable sealed active validated : SnapshotStatus

pub data JobStatus : Type 0 where
  queued building ready failed : JobStatus

pub data UploadState : Type 0 where
  opened finalized expired : UploadState

pub data PartState : Type 0 where
  pending uploaded : PartState

pub data RequestStatus : Type 0 where
  pending approved denied cancelled : RequestStatus

-- `snapshot_files.lifecycle_status`
pub data Lifecycle : Type 0 where
  uploaded queued validating converting building_graph indexing ready failed : Lifecycle

pub record TenantRow : Type 0 where
  pub id : Token
  pub created_at : Time

pub record ProjectRow : Type 0 where
  pub id : RowId
  pub tenant_id : Token
  pub name : String
  pub description : Option String
  pub state : ProjectState
  pub creator_subject : Token
  pub creator_name : String
  pub created_at : Time
  pub updated_at : Time
  pub archived_at : Option Time
  pub active_snapshot_id : Option RowId
  pub active_graph_version : Option String
  pub active_document_count : ℕ
  pub generation : ℕ

pub record MembershipRow : Type 0 where
  pub id : RowId
  pub tenant_id : Token
  pub project_id : RowId
  pub principal_type : PrincipalType
  pub principal_id : Token
  pub display_name : String
  pub role : Role
  pub created_by : Token
  pub created_at : Time
  pub updated_at : Time

pub record AccessRequestRow : Type 0 where
  pub id : RowId
  pub tenant_id : Token
  pub project_id : RowId
  pub requester_id : Token
  pub requester_name : String
  pub note : Option String
  pub status : RequestStatus
  pub reviewed_by : Option Token
  pub decided_role : Option Role
  pub created_at : Time
  pub decided_at : Option Time

pub record SnapshotRow : Type 0 where
  pub id : RowId
  pub project_id : RowId
  pub status : SnapshotStatus
  pub created_at : Time
  pub sealed_at : Option Time

pub record BlobRow : Type 0 where
  pub project_id : RowId
  pub sha256 : Token
  pub size : ℕ
  pub storage_path : String
  pub created_at : Time

pub record SnapshotFileRow : Type 0 where
  pub id : RowId
  pub snapshot_id : RowId
  pub project_id : RowId
  pub logical_filename : Token
  pub media_type : String
  pub size : ℕ
  pub sha256 : Token
  pub lifecycle_status : Lifecycle
  pub progress_percent : Option ℕ
  pub error_code : Option String
  pub uploaded_at : Option Time

pub record UploadSessionRow : Type 0 where
  pub id : RowId
  pub project_id : RowId
  pub snapshot_id : RowId
  pub created_by : Token
  pub state : UploadState
  pub created_at : Time
  pub expires_at : Time

pub record UploadPartRow : Type 0 where
  pub id : RowId
  pub session_id : RowId
  pub logical_filename : Token
  pub media_type : String
  pub expected_size : ℕ
  pub expected_sha256 : Token
  pub temp_path : Option String
  pub received_size : Option ℕ
  pub state : PartState

pub record BuildJobRow : Type 0 where
  pub id : RowId
  pub project_id : RowId
  pub snapshot_id : RowId
  pub status : JobStatus
  pub requested_by : Token
  pub expected_generation : ℕ
  pub graph_version : Option String
  pub error_code : Option String
  pub created_at : Time
  pub started_at : Option Time
  pub completed_at : Option Time
  pub worker_id : Option Token

-- The `operation` of an idempotency record: the f-strings differ in their prefix, or in the
-- identifier behind it.
pub data Operation : Type 0 where
  create_project : Operation
  create_upload_session finalize_upload submit_build : RowId → Operation

abbrev pub same_operation : Operation → Operation → Bool
same_operation create_project create_project = true
same_operation (create_upload_session p) (create_upload_session q) = p == q
same_operation (finalize_upload s) (finalize_upload t) = s == t
same_operation (submit_build p) (submit_build q) = p == q
same_operation _ _ = false

pub record IdempotencyRow : Type 0 where
  pub id : RowId
  pub actor_subject : Token
  pub operation : Operation
  pub key : Token
  pub resource_id : RowId
  pub created_at : Time

-- `details` is the list of the dictionary's texts.
pub record AuditEventRow : Type 0 where
  pub id : RowId
  pub project_id : RowId
  pub actor_subject : Token
  pub action : String
  pub occurred_at : Time
  pub details : List (String × Option String)

-- The database. `next_id` is the supply that `uuid4` draws from.
pub record Database : Type 0 where
  pub tenants : List TenantRow
  pub projects : List ProjectRow
  pub memberships : List MembershipRow
  pub requests : List AccessRequestRow
  pub snapshots : List SnapshotRow
  pub blobs : List BlobRow
  pub files : List SnapshotFileRow
  pub uploads : List UploadSessionRow
  pub parts : List UploadPartRow
  pub builds : List BuildJobRow
  pub idempotency : List IdempotencyRow
  pub audit : List AuditEventRow
  pub next_id : RowId

-- `PartRecord` and `BuildRecord`, the values handed to the storage and to the worker.
pub record PartRecord : Type 0 where
  pub id : RowId
  pub session_id : RowId
  pub project_id : RowId
  pub snapshot_id : RowId
  pub filename : Token
  pub media_type : String
  pub expected_size : ℕ
  pub expected_sha256 : Token
  pub state : PartState
  pub temp_path : Option String
  pub expires_at : Time

pub record BuildRecord : Type 0 where
  pub id : RowId
  pub project_id : RowId
  pub snapshot_id : RowId
  pub expected_generation : ℕ
  pub requested_by : Token

pub record AccessDecision : Type 0 where
  pub effective_role : Role
  pub origins : List MembershipRow

-- `UploadFileDeclaration`
pub record UploadFileDeclaration : Type 0 where
  pub filename : Token
  pub media_type : String
  pub size : ℕ
  pub sha256 : Token

-- `_ROLE_RANK`
abbrev pub role_rank : Role → ℕ
role_rank viewer = 1
role_rank contributor = 2
role_rank manager = 3
role_rank owner = 4
