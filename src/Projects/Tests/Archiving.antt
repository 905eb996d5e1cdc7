-- ===== src/Projects/Tests/Archiving.antt =====
-- An archived project of a small database, restored and purged.
use poc_la_graph.Base.{◌≡◌, refl, none, some, arith, leb, ◌+◌, ◌*◌, if◌then◌else◌}
use poc_la_graph.Base.Table.{first, modify_first}
use poc_la_graph.Projects.Session.{ok, after, succeeds, has_id}
use poc_la_graph.Projects.Registry.{
  archive, restore, restore_project, purge_expired, seconds_per_day,
}
use poc_la_graph.Projects.Archive.{
  archived_row, restored_row, contents, restore-archive, archive-retention,
}
use poc_la_graph.Projects.Tests.{created, created_project}

restore-archive_example :
    ((restore 0 10 30 400 (archive 0 10 300 created).1).0 ≡ ok (restored_row 400 created_project))
    × ((restore 0 10 30 400 (archive 0 10 300 created).1).1.projects
        ≡ modify_first (has_id 0) (restored_row 400) created.projects)
    × (contents (restore 0 10 30 400 (archive 0 10 300 created).1).1 ≡ contents created)
unfolding created created_project
restore-archive_example =
    restore-archive 0 created created_project refl refl 10 10 30 300 400 (omega arith)

archive-retention_example :
    (succeeds (restore_project 0 10 1 90000) (archive 0 10 300 created).1
      ≡ leb 90000 (300 + 1 * seconds_per_day))
    × (succeeds (purge_expired 0 10 1 90000) (archive 0 10 300 created).1
        ≡ leb (300 + 1 * seconds_per_day) 90000)
    × (first (has_id 0) (after (purge_expired 0 10 1 90000) (archive 0 10 300 created).1).projects
        ≡ (if leb (300 + 1 * seconds_per_day) 90000
            then none
            else some (archived_row 300 created_project)))
unfolding created created_project
archive-retention_example = archive-retention 0 created created_project refl refl 10 10 1 300 90000
