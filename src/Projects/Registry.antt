-- ===== src/Projects/Registry.antt =====
-- Projects: `ensure_tenants`, `create_project`, `get_project`, `archive`, `restore`,
-- `purge_expired` and `expired_archives` of apps/api/app/projects/repository.py. The loaded
-- relationships of a project row are reads of the other tables. `now - timedelta(days=r)` is
-- compared by adding the retention to the other side, since a time is a natural number.
use poc_la_graph.Base.{
  ℕ, ◌+◌, ◌*◌, String, Bool, true, false, not, ◌&&◌, ◌||◌, Option, none, some, List, [], ◌∷◌, ◌++◌,
  ◌==◌, ltb, leb, if◌then◌else◌, map, any,
}
use poc_la_graph.Base.Table.{first, select, delete}
use poc_la_graph.Projects.Rows.{
  RowId, Token, Time, Role, PrincipalType, ProjectState, SnapshotStatus, ProjectRow, SnapshotRow,
  Operation, Database, UploadSessionRow,
}
use poc_la_graph.Projects.Session.{
  Transaction, project_not_found, project_conflict, ◌>>=◌, ◌>>◌, pure, gets, or_raise, modify,
  raise_if, uuid4, is_archived, in_build, is_truthy, has_id, set_project, project_for_update,
  idempotent_resource, remember, write_audit, Call, commit, and_then, keyed_call,
}
use poc_la_graph.Projects.Access.{insert_membership}

-- `ensure_tenants`; every tenant is created with the status "active".
unfoldable pub ensure_tenants : List Token → Time → Transaction (Unit {0})
ensure_tenants [] now = pure tt
ensure_tenants (t ∷ rest) now = do
  known ← gets (λ db. first (λ row. row.id == t) db.tenants)
  elim known [
    | none ↦
        modify
          (λ db. record db { tenants = db.tenants ++ record { id = t; created_at = now } ∷ [] })
    | some _ ↦ pure tt
  ]
  ensure_tenants rest now

unfoldable pub get_project : RowId → Bool → Transaction ProjectRow
get_project p include_archived = do
  or_raise
      (← gets (λ db.
        first (λ row. has_id p row && (include_archived || not (is_archived row.state)))
          db.projects))
      (project_not_found p)

abbrev insert_project : ProjectRow → Transaction (Unit {0})
insert_project row = modify (λ db. record db { projects = db.projects ++ row ∷ [] })

abbrev pub insert_snapshot : SnapshotRow → Transaction (Unit {0})
insert_snapshot row = modify (λ db. record db { snapshots = db.snapshots ++ row ∷ [] })

-- The transaction of `create_project`: the project, its first owner and its first draft.
unfoldable pub new_project :
    String → Option String → Token → String → Token → Token → Time → Transaction RowId
unfolding insert_membership remember write_audit
new_project name description subject username tenant key now = do
  p ← uuid4
  s ← uuid4
  insert_project (record {
    id = p;
    tenant_id = tenant;
    name = name;
    description = description;
    state = ProjectState.draft;
    creator_subject = subject;
    creator_name = username;
    created_at = now;
    updated_at = now;
    archived_at = none;
    active_snapshot_id = none;
    active_graph_version = none;
    active_document_count = 0;
    generation = 0;
  })
  insert_membership p tenant PrincipalType.user subject username Role.owner subject now
  insert_snapshot (record {
    id = s;
    project_id = p;
    status = SnapshotStatus.editable;
    created_at = now;
    sealed_at = none;
  })
  remember subject Operation.create_project key p now
  write_audit p subject "project.created" now []
  pure p

unfoldable pub create_project :
    String → Option String → Token → String → Token → Token → Time → Call ProjectRow
unfolding new_project get_project idempotent_resource
create_project name description subject username tenant key now =
    keyed_call subject Operation.create_project key (λ p. get_project p true)
      (new_project name description subject username tenant key now) (λ p. get_project p true)

unfoldable pub archive_project : RowId → Token → Time → Transaction (Unit {0})
archive_project p subject now = do
  project ← project_for_update p
  raise_if (in_build project.state) (project_conflict "A building project cannot be archived")
  set_project p (λ row. record row {
    state = ProjectState.archived;
    archived_at = some now;
    updated_at = now;
  })
  write_audit p subject "project.archived" now []

unfoldable pub archive : RowId → Token → Time → Call ProjectRow
unfolding archive_project get_project
archive p subject now =
    and_then (commit (archive_project p subject now)) λ _. commit (get_project p true)

abbrev pub seconds_per_day : ℕ
seconds_per_day = 86400

-- `archived_at < now - retention`
abbrev pub retention_over : ℕ → Time → Time → Bool
retention_over days now archived_at = ltb (archived_at + days * seconds_per_day) now

-- `archived_at <= now - retention`
abbrev pub retention_reached : ℕ → Time → Time → Bool
retention_reached days now archived_at = leb (archived_at + days * seconds_per_day) now

-- The state that a project is restored to, or falls back to after a failed build.
abbrev pub state_without_build : ProjectRow → ProjectState → ProjectState
state_without_build row otherwise =
    if is_truthy row.active_graph_version then ProjectState.ready else otherwise

unfoldable pub restore_project : RowId → Token → ℕ → Time → Transaction (Unit {0})
restore_project p subject days now = do
  project ← project_for_update p
  raise_if (not (is_archived project.state)) (project_conflict "The project is not archived")
  archived_at ← or_raise project.archived_at (project_conflict "The project is not archived")
  raise_if (retention_over days now archived_at)
      (project_conflict "The project restore period expired")
  set_project p (λ row. record row {
    state = state_without_build row ProjectState.draft;
    archived_at = none;
    updated_at = now;
  })
  write_audit p subject "project.restored" now []

unfoldable pub restore : RowId → Token → ℕ → Time → Call ProjectRow
unfolding restore_project get_project
restore p subject days now =
    and_then (commit (restore_project p subject days now)) λ _. commit (get_project p true)

abbrev in_ids : List RowId → RowId → Bool
in_ids ids i = any (λ j. i == j) ids

-- DELETE of a project with the foreign keys' ON DELETE CASCADE: the rows of the project, and the
-- files and the parts that hang on its snapshots and upload sessions.
unfoldable pub delete_project : RowId → Database → Database
delete_project p db =
    let snapshot_ids =
      map (λ (s : SnapshotRow). s.id)
        (select (λ (s : SnapshotRow). s.project_id == p) db.snapshots) in
    let session_ids =
      map (λ (u : UploadSessionRow). u.id)
        (select (λ (u : UploadSessionRow). u.project_id == p) db.uploads) in
    record db {
      projects = delete (has_id p) db.projects;
      memberships = delete (λ m. m.project_id == p) db.memberships;
      requests = delete (λ r. r.project_id == p) db.requests;
      snapshots = delete (λ s. s.project_id == p) db.snapshots;
      files = delete (λ f. in_ids snapshot_ids f.snapshot_id) db.files;
      uploads = delete (λ u. u.project_id == p) db.uploads;
      parts = delete (λ u. in_ids session_ids u.session_id) db.parts;
      builds = delete (λ b. b.project_id == p) db.builds;
    }

unfoldable pub purge_expired : RowId → Token → ℕ → Time → Transaction (Unit {0})
unfolding delete_project
purge_expired p subject days now = do
  project ← project_for_update p
  raise_if (not (is_archived project.state))
      (project_conflict "The archived project is still retained")
  archived_at ←
      or_raise project.archived_at (project_conflict "The archived project is still retained")
  raise_if (not (retention_reached days now archived_at))
      (project_conflict "The archived project is still retained")
  write_audit p subject "project.purged" now []
  modify (λ db. record db { blobs = delete (λ b. b.project_id == p) db.blobs })
  modify (delete_project p)

abbrev is_expired_archive : ℕ → Time → ProjectRow → Bool
is_expired_archive days now row = is_archived row.state && (elim row.archived_at [
  | none ↦ false
  | some archived_at ↦ retention_reached days now archived_at
])

unfoldable pub expired_archives : ℕ → Time → Database → List RowId
expired_archives days now db =
    map (λ (row : ProjectRow). row.id) (select (is_expired_archive days now) db.projects)
