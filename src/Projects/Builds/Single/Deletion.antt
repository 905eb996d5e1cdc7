-- ===== src/Projects/Builds/Single/Deletion.antt =====
-- The running jobs through `delete_project` and `purge_expired` of
-- apps/api/app/projects/repository.py.
use poc_la_graph.Base.{
  ℕ, refl, ◌==◌, ◌≤◌, ◌≡◌, arith, inl, inr, Option-cases, Bool-cases, ◌&&◌, subst, sym, ◌⊎◌, Bool,
}
use poc_la_graph.Base.Table.{first, count-delete_le, delete}
use poc_la_graph.Projects.Rows.{RowId, Token, Time, Database, BuildJobRow}
use poc_la_graph.Projects.Session.{after, project_for_update, write_audit, has_id, is_archived}
use poc_la_graph.Projects.Registry.{delete_project, purge_expired, retention_reached}
use poc_la_graph.Projects.Builds.{job_is_building, has_job_id}
use poc_la_graph.Projects.Builds.Single.{IsSingle}

abbrev is_job_of : RowId → BuildJobRow → Bool
is_job_of p job = job.project_id == p

-- The jobs of one project are deleted, and no others.
abbrev Deletes : RowId → Database → Database → Type 0
Deletes p db db' = (db'.builds ≡ delete (is_job_of p) db.builds) × (db.next_id ≤ db'.next_id)

pub Deletes-IsSingle :
    (p : RowId) (db db' : Database) → Deletes p db db' → IsSingle db → IsSingle db'
Deletes-IsSingle p db db' (e, later) v = record {
  keyed =
      λ b. rw e (omega (arith, v.keyed b, count-delete_le (has_job_id b) (is_job_of p) db.builds));
  fresh = λ b h. rw e (
      omega
        (arith, v.fresh b (omega arith), count-delete_le (has_job_id b) (is_job_of p) db.builds));
  single = rw e (omega (arith, v.single, count-delete_le job_is_building (is_job_of p) db.builds));
}

pub delete_project-IsSingle :
    (p : RowId) (db : Database) → IsSingle db → IsSingle (delete_project p db)
unfolding delete_project
delete_project-IsSingle p db v = Deletes-IsSingle p db _ (refl, omega arith) v

purge_expired-cases :
    (p : RowId) (subject : Token) (days : ℕ) (now : Time) (db : Database)
    → (after (purge_expired p subject days now) db ≡ db)
      ⊎ Deletes p db (after (purge_expired p subject days now) db)
unfolding purge_expired project_for_update write_audit delete_project
purge_expired-cases p subject days now db = elim (Option-cases (first (has_id p) db.projects)) [
  | inl missing ↦ inl (ground arith)
  | inr (project, e) ↦ elim (Option-cases project.archived_at) [
    | inl never ↦ inl (ground arith)
    | inr (archived_at, f) ↦
        elim (Bool-cases (is_archived project.state && retention_reached days now archived_at)) [
          | inl over ↦ inr (ground arith, ground arith)
          | inr kept ↦ inl (ground arith)
        ]
  ]
]

pub purge_expired-IsSingle :
    (p : RowId) (subject : Token) (days : ℕ) (now : Time) (db : Database)
    → IsSingle db
    → IsSingle (after (purge_expired p subject days now) db)
purge_expired-IsSingle p subject days now db v = elim (purge_expired-cases p subject days now db) [
  | inl same ↦ subst IsSingle (sym same) v
  | inr deletes ↦ Deletes-IsSingle p db _ deletes v
]
