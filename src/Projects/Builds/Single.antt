-- ===== src/Projects/Builds/Single.antt =====
-- The jobs that run at one time, through `recover_builds`, `submit_build` and `claim_build` of
-- apps/api/app/projects/repository.py.
pub mod Completion
pub mod Deletion
use poc_la_graph.Base.{
  ℕ, suc, ◌≤◌, ◌≡◌, refl, String, false, List, [], ◌∷◌, ◌++◌, ◌⊎◌, arith, inl, inr, Option-cases,
  subst, sym, Bool-cases, not, ◌&&◌, ◌==◌, is_some, false≢true, ◌∙◌,
}
use poc_la_graph.Base.Table.{
  first, select, count, modify_first, earliest, count-append, count-le, count-update_same,
  count-update_le, count-update_gain, latest, count-modify_first_same, count-modify_first_le,
}
use poc_la_graph.Projects.Rows.{
  RowId, Token, Time, SnapshotFileRow, BuildJobRow, Database, BuildRecord, Operation,
}
use poc_la_graph.Projects.Session.{
  after, project_for_update, draft_of, remember, write_audit, has_id, is_draft_of, is_locked,
  is_record_of, succeeds, is_building,
}
use poc_la_graph.Projects.Builds.{
  has_job_id, job_is_queued, job_is_building, requeued, recover_builds, new_build, claim_build,
  claim_job, is_queued_job, claimed, queued_job, is_open_upload_of, in_snapshot, has_snapshot_id,
}
use poc_la_graph.Projects.Builds.Completion.{
  copy_files, complete_build, fail_build, copied, completed, activation, failed_job,
}

-- No two jobs share an identifier, no job has one that is yet to be given out, and at most one
-- job is running.
pub record IsSingle (db : Database) : Type 0 where
  pub keyed : (b : RowId) → count (has_job_id b) db.builds ≤ 1
  pub fresh : (b : RowId) → db.next_id ≤ b → count (has_job_id b) db.builds ≡ 0
  pub single : count job_is_building db.builds ≤ 1

-- A change of the jobs that keeps their identifiers.
pub keep-keys :
    (db db' : Database)
    → ((b : RowId) → count (has_job_id b) db'.builds ≡ count (has_job_id b) db.builds)
    → db.next_id ≤ db'.next_id
    → count job_is_building db'.builds ≤ 1
    → IsSingle db
    → IsSingle db'
keep-keys db db' same later single v = record {
  keyed = λ b. rw (same b) (v.keyed b);
  fresh = λ b h. rw (same b) (v.fresh b (omega arith));
  single = single;
}

pub recover_builds-IsSingle : (db : Database) → IsSingle db → IsSingle (after recover_builds db)
unfolding recover_builds
recover_builds-IsSingle db v =
    keep-keys db _
      (λ b. count-update_same (has_job_id b) job_is_building requeued (λ job. refl) db.builds)
      (omega arith)
      (omega (
        arith,
        v.single,
        count-update_le job_is_building job_is_building requeued (λ job h. cc) db.builds,
      ))
      v

claim_job-IsSingle :
    (worker : Token) (now : Time) (job : BuildJobRow) (db : Database)
    → count job_is_building db.builds ≡ 0
    → IsSingle db
    → IsSingle (after (claim_job worker now job) db)
unfolding claim_job
claim_job-IsSingle worker now job db idle v =
    keep-keys db _
      (λ b.
        count-update_same (has_job_id b) (is_queued_job job.id) (claimed worker now) (λ j. refl)
          db.builds)
      (omega arith)
      (omega (
        arith,
        v.keyed job.id,
        count-update_gain job_is_building (is_queued_job job.id) (claimed worker now) db.builds,
        count-le (is_queued_job job.id) (has_job_id job.id) (λ j h. ground arith) db.builds,
      ))
      v

-- A claim changes nothing, or takes a job while none is running.
pub claim_build-cases :
    (worker : Token) (now : Time) (db : Database)
    → (after (claim_build worker now) db ≡ db)
      ⊎ ((job : BuildJobRow) × (count job_is_building db.builds ≡ 0)
          × (after (claim_build worker now) db ≡ after (claim_job worker now job) db))
unfolding claim_build
claim_build-cases worker now db =
    elim (Option-cases (earliest (λ job. job.created_at) (select job_is_queued db.builds))) [
      | inl idle ↦ inl (ground arith)
      | inr (job, found) ↦
          elim (Bool-cases (
            count job_is_building db.builds == 0
            && not (count (is_queued_job job.id) db.builds == 0))) [
              | inl free ↦ inr (job, ground arith, ground arith)
              | inr busy ↦ inl (ground arith)
            ]
    ]

pub claim_build-IsSingle :
    (worker : Token) (now : Time) (db : Database)
    → IsSingle db
    → IsSingle (after (claim_build worker now) db)
claim_build-IsSingle worker now db v = elim (claim_build-cases worker now db) [
  | inl same ↦ subst IsSingle (sym same) v
  | inr (job, idle, e) ↦ subst IsSingle (sym e) (claim_job-IsSingle worker now job db idle v)
]

-- One job was added, queued and under the next identifier.
abbrev Queues : Database → Database → Type 0
Queues db db' =
    (job : BuildJobRow) × (job.id ≡ db.next_id)
    × (job_is_building job ≡ false)
    × (db'.builds ≡ db.builds ++ job ∷ [])
    × (suc db.next_id ≤ db'.next_id)

Queues-IsSingle : (db db' : Database) → Queues db db' → IsSingle db → IsSingle db'
unfolding count
Queues-IsSingle db db' (job, id, idle, grown, later) v = record {
  keyed = λ b. rw (grown, count-append) (ground (arith, v.keyed b, v.fresh b));
  fresh = λ b h. rw (grown, count-append) (ground (arith, v.fresh b));
  single = rw (grown, count-append) (ground (arith, v.single));
}

new_build-cases :
    (p : RowId) (subject key : Token) (now : Time) (db : Database)
    → (after (new_build p subject key now) db ≡ db)
      ⊎ Queues db (after (new_build p subject key now) db)
unfolding new_build project_for_update draft_of remember write_audit
new_build-cases p subject key now db = elim (Option-cases (first (has_id p) db.projects)) [
  | inl missing ↦ inl (ground arith)
  | inr (project, e) ↦
      elim (Option-cases (latest (λ s. s.created_at) (select (is_draft_of p) db.snapshots))) [
        | inl missing ↦ inl (ground arith)
        | inr (draft, f) ↦
            elim (Bool-cases (
              not (is_locked project.state)
              && count (is_open_upload_of p draft.id) db.uploads == 0
              && not (count (in_snapshot draft.id) db.files == 0)
              && not (
                  is_some (
                    first (is_record_of subject (Operation.submit_build p) key) db.idempotency)))) [
                      | inl fine ↦ inr (
                        queued_job p db.next_id project.generation draft.id subject now,
                        refl,
                        refl,
                        ground arith,
                        ground arith,
                      )
                      | inr bad ↦ inl (ground arith)
                    ]
      ]
]

-- A new job is queued, under an identifier that no other job has.
pub new_build-IsSingle :
    (p : RowId) (subject key : Token) (now : Time) (db : Database)
    → IsSingle db
    → IsSingle (after (new_build p subject key now) db)
new_build-IsSingle p subject key now db v = elim (new_build-cases p subject key now db) [
  | inl same ↦ subst IsSingle (sym same) v
  | inr queues ↦ Queues-IsSingle db _ queues v
]
