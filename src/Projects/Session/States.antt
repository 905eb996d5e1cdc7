-- ===== src/Projects/Session/States.antt =====
-- The tests on roles and states that apps/api/app/projects/repository.py makes.
use poc_la_graph.Base.{String, Bool, true, false, Option, none, some}
use poc_la_graph.Projects.Rows.{
  Role, PrincipalType, ProjectState, SnapshotStatus, JobStatus, UploadState, PartState,
  RequestStatus,
}

abbrev pub is_user : PrincipalType → Bool
is_user PrincipalType.user = true
is_user PrincipalType.group = false

abbrev pub same_type : PrincipalType → PrincipalType → Bool
same_type PrincipalType.user t = is_user t
same_type PrincipalType.group PrincipalType.user = false
same_type PrincipalType.group PrincipalType.group = true

abbrev pub is_owner : Role → Bool
is_owner Role.owner = true
is_owner _ = false

-- `project.state in {"queued", "building", "archived"}`
abbrev pub is_locked : ProjectState → Bool
is_locked ProjectState.queued = true
is_locked ProjectState.building = true
is_locked ProjectState.archived = true
is_locked _ = false

abbrev pub in_build : ProjectState → Bool
in_build ProjectState.queued = true
in_build ProjectState.building = true
in_build _ = false

abbrev pub is_archived : ProjectState → Bool
is_archived ProjectState.archived = true
is_archived _ = false

abbrev pub is_editable : SnapshotStatus → Bool
is_editable SnapshotStatus.editable = true
is_editable _ = false

abbrev pub is_active : SnapshotStatus → Bool
is_active SnapshotStatus.active = true
is_active _ = false

abbrev pub is_queued : JobStatus → Bool
is_queued JobStatus.queued = true
is_queued _ = false

abbrev pub is_building : JobStatus → Bool
is_building JobStatus.building = true
is_building _ = false

abbrev pub is_open : UploadState → Bool
is_open UploadState.opened = true
is_open _ = false

abbrev pub is_uploaded : PartState → Bool
is_uploaded PartState.uploaded = true
is_uploaded PartState.pending = false

abbrev pub is_pending : RequestStatus → Bool
is_pending RequestStatus.pending = true
is_pending _ = false

-- The truth of an optional text: neither `None` nor empty.
abbrev pub is_truthy : Option String → Bool
is_truthy none = false
is_truthy (some String.[]) = false
is_truthy (some (String.◌∷◌ _ _)) = true
