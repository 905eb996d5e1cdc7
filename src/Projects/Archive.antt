-- ===== src/Projects/Archive.antt =====
-- Archiving a project, and then restoring or purging it
-- (apps/api/app/projects/repository.py: `archive`, `restore`, `purge_expired`).
use poc_la_graph.Base.{
  ℕ, ◌+◌, ◌*◌, ◌≤◌, ◌≡◌, refl, ◌∙◌, ap, true, false, not, ◌&&◌, none, some, [], arith, leb,
  if◌then◌else◌,
}
use poc_la_graph.Base.Table.{first, modify_first, first_holds}
use poc_la_graph.Base.Counts.{first-modify_first, modify_first_twice, first-delete, first-same}
use poc_la_graph.Projects.Rows.{RowId, Token, Time, ProjectState, ProjectRow, Database}
use poc_la_graph.Projects.Session.{
  ok, after, succeeds, has_id, in_build, project_for_update, write_audit,
}
use poc_la_graph.Projects.Registry.{
  archive_project, archive, restore_project, restore, purge_expired, delete_project, get_project,
  retention_over, retention_reached, seconds_per_day, state_without_build,
}
use poc_la_graph.Projects.Session.Monad.{and_then-commit, succeeds-after, commit-ok, commit}

-- The row of an archived project, and of one that was restored.
abbrev pub archived_row : Time → ProjectRow → ProjectRow
archived_row now row = record row {
  state = ProjectState.archived;
  archived_at = some now;
  updated_at = now;
}

abbrev pub restored_row : Time → ProjectRow → ProjectRow
restored_row now row = record row {
  state = state_without_build row ProjectState.draft;
  archived_at = none;
  updated_at = now;
}

-- The database without its projects, its audit trail and its supply of identifiers.
abbrev pub contents : Database → Database
contents db = record db { projects = []; audit = []; next_id = 0 }

get_project-known :
    (p : RowId) (db : Database) (row : ProjectRow)
    → first (has_id p) db.projects ≡ some row
    → get_project p true db ≡ ok (row, db)
unfolding get_project
get_project-known p db row known =
    rw (first-same (λ r. has_id p r && true) (has_id p) (λ r. ground arith) db.projects, known) refl

module _ (p : RowId) (db : Database) (project : ProjectRow)
    (known : first (has_id p) db.projects ≡ some project)
    (idle : in_build project.state ≡ false) where
  is_p : has_id p project ≡ true
  is_p = first_holds (has_id p) db.projects project known

  archive-projects :
      (subject : Token) (now : Time)
      → let db' = after (archive_project p subject now) db in
        (db'.projects ≡ modify_first (has_id p) (archived_row now) db.projects)
        × (contents db' ≡ contents db)
  unfolding archive_project project_for_update write_audit
  archive-projects subject now = (ground arith, ground arith)

  archived_known :
      (subject : Token) (now : Time)
      → first (has_id p) (after (archive_project p subject now) db).projects
        ≡ some (archived_row now project)
  archived_known subject now =
      rw ((archive-projects subject now).0)
        (first-modify_first (has_id p) (archived_row now) db.projects project known is_p)

  archive-database :
      (subject : Token) (now : Time)
      → (archive p subject now db).1 ≡ after (archive_project p subject now) db
  unfolding archive
  archive-database subject now = ground arith

module _ (p : RowId) (db : Database) (project : ProjectRow) (archived_at : Time)
    (known : first (has_id p) db.projects ≡ some project)
    (is_archived : project.state ≡ ProjectState.archived)
    (since : project.archived_at ≡ some archived_at) where
  restore-projects :
      (subject : Token) (days : ℕ) (now : Time)
      → retention_over days now archived_at ≡ false
      → let db' = after (restore_project p subject days now) db in
        (succeeds (restore_project p subject days now) db ≡ true)
        × (db'.projects ≡ modify_first (has_id p) (restored_row now) db.projects)
        × (contents db' ≡ contents db)
  unfolding restore_project project_for_update write_audit
  restore-projects subject days now kept = (ground arith, ground arith, ground arith)

  restore-known :
      (subject : Token) (days : ℕ) (now : Time)
      → retention_over days now archived_at ≡ false
      → let end = restore p subject days now db in
        (end.0 ≡ ok (restored_row now project))
        × (end.1.projects ≡ modify_first (has_id p) (restored_row now) db.projects)
        × (contents end.1 ≡ contents db)
  unfolding restore
  restore-known subject days now kept =
      let (fine, rows, same) = restore-projects subject days now kept in
      let found : first (has_id p) (after (restore_project p subject days now) db).projects
          ≡ some (restored_row now project) =
        rw rows (
          first-modify_first (has_id p) (restored_row now) db.projects project known
            (first_holds (has_id p) db.projects project known)) in
      let db' = after (restore_project p subject days now) db in
      let went : restore p subject days now db ≡ commit (get_project p true) db' =
        and_then-commit (restore_project p subject days now) (λ _. commit (get_project p true)) db
          tt db' (succeeds-after (restore_project p subject days now) db fine) in
      let read : commit (get_project p true) db' ≡ (ok (restored_row now project), db') =
        commit-ok (get_project p true) db' (restored_row now project) db'
          (get_project-known p db' (restored_row now project) found) in
      rw (went, read) (refl, rows, same)

  restore-succeeds :
      (subject : Token) (days : ℕ) (now : Time)
      → succeeds (restore_project p subject days now) db ≡ not (retention_over days now archived_at)
  unfolding restore_project project_for_update write_audit
  restore-succeeds subject days now = ground arith

  purge-succeeds :
      (subject : Token) (days : ℕ) (now : Time)
      → succeeds (purge_expired p subject days now) db ≡ retention_reached days now archived_at
  unfolding purge_expired project_for_update write_audit
  purge-succeeds subject days now = ground arith

  purge-projects :
      (subject : Token) (days : ℕ) (now : Time)
      → first (has_id p) (after (purge_expired p subject days now) db).projects
        ≡ (if retention_reached days now archived_at then none else some project)
  unfolding purge_expired project_for_update write_audit delete_project
  purge-projects subject days now = ground (arith, first-delete (has_id p) db.projects)

-- A project that no build is pending for is archived and then restored before its retention is
-- over: the restored project is returned, it is the old one but for its last change and its state,
-- which is ready with an active graph and draft without one, and every table except the projects
-- and the audit trail is as it was.
pub restore-archive :
    (p : RowId) (db : Database) (project : ProjectRow)
    → first (has_id p) db.projects ≡ some project
    → in_build project.state ≡ false
    → (archiver restorer : Token) (days : ℕ) (now later : Time)
    → later ≤ now + days * seconds_per_day
    → let end = restore p restorer days later (archive p archiver now db).1 in
      (end.0 ≡ ok (restored_row later project))
      × (end.1.projects ≡ modify_first (has_id p) (restored_row later) db.projects)
      × (contents end.1 ≡ contents db)
unfolding restore archive get_project
restore-archive p db project known idle archiver restorer days now later soon =
    let db' = after (archive_project p archiver now) db in
    let (rows, same) = archive-projects p db project known idle archiver now in
    let (fine, restored, same') =
      restore-known p db' (archived_row now project) now
        (archived_known p db project known idle archiver now) refl refl restorer days later
        (ground arith) in
    rw (archive-database p db project known idle archiver now) (
      fine,
      restored
          ∙ ap (modify_first (has_id p) (restored_row later)) rows
          ∙ modify_first_twice (has_id p) (restored_row later) (archived_row now) (λ r. refl)
              db.projects,
      same' ∙ same,
    )

-- Once a project is archived, it can be restored up to the end of its retention, and it can be
-- purged from the end of its retention on; after a call that purges no project has its identifier,
-- and after one that is too early the archived project is still there.
pub archive-retention :
    (p : RowId) (db : Database) (project : ProjectRow)
    → first (has_id p) db.projects ≡ some project
    → in_build project.state ≡ false
    → (archiver actor : Token) (days : ℕ) (now later : Time)
    → let archived = (archive p archiver now db).1 in
      (succeeds (restore_project p actor days later) archived
        ≡ leb later (now + days * seconds_per_day))
      × (succeeds (purge_expired p actor days later) archived
          ≡ leb (now + days * seconds_per_day) later)
      × (first (has_id p) (after (purge_expired p actor days later) archived).projects ≡ (
          if leb (now + days * seconds_per_day) later
          then none
          else some (archived_row now project)))
archive-retention p db project known idle archiver actor days now later =
    let db' = after (archive_project p archiver now) db in
    let row = archived_row now project in
    let found = archived_known p db project known idle archiver now in
    rw (archive-database p db project known idle archiver now) (
      restore-succeeds p db' row now found refl refl actor days later ∙ ground arith,
      purge-succeeds p db' row now found refl refl actor days later,
      purge-projects p db' row now found refl refl actor days later,
    )
