-- ===== src/Projects/Tests.antt =====
-- Runs of the registry on a small database, and its theorems at concrete data.
mod Queue
mod Uploading
mod Listing
mod Archiving
use poc_la_graph.Base.{◌≤◌, ◌≡◌, refl, none, some, List, [], ◌∷◌, arith, any, map, ◌↔◌, true}
use poc_la_graph.Base.Table.{first, select, count, latest, update, delete, modify_first, earliest}
use poc_la_graph.Projects.Rows.{
  Role, PrincipalType, ProjectState, Database, ProjectRow, BuildJobRow, UploadFileDeclaration,
  UploadSessionRow, UploadState, BuildRecord, MembershipRow, role_rank,
}
use poc_la_graph.Projects.Session.{
  ok, err, after, succeeds, project_conflict, project_for_update, draft_of,
}
use poc_la_graph.Projects.Registry.{create_project}
use poc_la_graph.Projects.Access.{
  access_decision, remove_membership, grants, decide_origins, max_by_rank,
}
use poc_la_graph.Projects.Access.Owners.{IsOwned}
use poc_la_graph.Projects.Access.Decision.{
  IsGrant, Decides, access_decision_iff, access_decision_lem,
}
use poc_la_graph.Projects.AccessHistory.{AccessCall, perform_all, perform_all-IsOwned}
use poc_la_graph.Projects.Uploads.{create_upload_session, mark_part_uploaded, add_parts}
use poc_la_graph.Projects.Uploads.Finalization.{finalize_parts}
use poc_la_graph.Projects.Files.{finalize_upload, delete_file}
use poc_la_graph.Projects.Builds.{job_is_building, submit_build, claim_build, queued_job, claim_job}
use poc_la_graph.Projects.Builds.Completion.{fail_build}
use poc_la_graph.Projects.Builds.Single.{IsSingle}
use poc_la_graph.Projects.Builds.History.{Step, Reach, Reach-one_build}
use poc_la_graph.Projects.Retry.{
  create_project-retry, create_upload_session-retry, submit_build-retry,
}
use poc_la_graph.Projects.Locked.{locked_frozen}
use poc_la_graph.Base.Member.{Mem}

abbrev pub empty : Database
empty = record {
  tenants = [];
  projects = [];
  memberships = [];
  requests = [];
  snapshots = [];
  blobs = [];
  files = [];
  uploads = [];
  parts = [];
  builds = [];
  idempotency = [];
  audit = [];
  next_id = 0;
}

-- Subject 10 of tenant 7 creates a project under the key 1, which gets the identifier 0.
pub created : Database
unfolding create_project first
created = (create_project "laws" none 10 "Ana" 7 1 100 empty).1

abbrev declarations : List UploadFileDeclaration
declarations = record { filename = 20; media_type = "text/plain"; size = 3; sha256 = 30 } ∷ []

-- One file is uploaded (the session is 5, its part 6) and finalized.
pub opened : Database
unfolding created create_upload_session first select latest project_for_update draft_of add_parts
opened = (create_upload_session 0 declarations 10 2 3600 110 created).1

pub finalized : Database
unfolding opened mark_part_uploaded finalize_upload finalize_parts count update delete modify_first
finalized =
    (finalize_upload 0 5 ((6, "/blobs/30") ∷ []) 10 3 120
      (after (mark_part_uploaded 6 "/tmp/6" 3) opened)).1

pub submitted : Database
unfolding finalized submit_build update modify_first
submitted = (submit_build 0 10 4 130 finalized).1

opened_session : map (λ (u : UploadSessionRow). u.id) opened.uploads ≡ 5 ∷ []
unfolding opened
opened_session = refl

submitted_state :
    map (λ (row : ProjectRow). row.state) submitted.projects ≡ ProjectState.queued ∷ []
unfolding submitted
submitted_state = refl

-- The final owner is not removed.
final_owner_stays :
    remove_membership 0 2 7 10 140 created
    ≡ err (project_conflict "The final owner cannot be removed")
unfolding created remove_membership count
final_owner_stays = refl

-- A grant of the owner role to subject 11, the demotion of the first owner, and then the removal
-- of the last one, which is refused.
abbrev calls : List AccessCall
calls =
    AccessCall.add 0 7 ((PrincipalType.user, 11, "Eva") ∷ []) Role.owner 10 150
    ∷ AccessCall.change_role 0 2 7 Role.viewer 11 151
    ∷ AccessCall.remove 0 5 7 11 152
    ∷ []

created-IsOwned : IsOwned 0 created
unfolding created count
created-IsOwned = omega arith

perform_all-IsOwned_example : IsOwned 0 (perform_all calls created)
perform_all-IsOwned_example = perform_all-IsOwned 0 calls created created-IsOwned

pub created_project : ProjectRow
created_project = record {
  id = 0;
  tenant_id = 7;
  name = "laws";
  description = none;
  state = ProjectState.draft;
  creator_subject = 10;
  creator_name = "Ana";
  created_at = 100;
  updated_at = 100;
  archived_at = none;
  active_snapshot_id = none;
  active_graph_version = none;
  active_document_count = 0;
  generation = 0;
}

access_decision_iff_example : (succeeds (access_decision 0 7 10 [] Role.manager) created ≡ true) ↔ (
    (m : MembershipRow) × (Mem m created.memberships
      × (IsGrant 0 7 10 [] m × (role_rank Role.manager ≤ role_rank m.role))))
unfolding created created_project
access_decision_iff_example =
    access_decision_iff 0 7 10 [] Role.manager created {project = created_project} refl

create_project-retry_example :
    create_project "other" (some "x") 10 "Ana" 8 1 500 created ≡ (ok created_project, created)
unfolding created created_project
create_project-retry_example =
    create_project-retry "laws" "other" none (some "x") 10 "Ana" "Ana" 7 8 1 100 500 empty
      created_project refl

pub submitted_job : BuildJobRow
submitted_job = queued_job 0 12 0 1 10 130

submit_build-retry_example : submit_build 0 10 4 900 submitted ≡ (ok submitted_job, submitted)
unfolding submitted submitted_job
submit_build-retry_example = submit_build-retry 0 10 4 130 900 finalized submitted_job refl

access_decision_lem_example :
    (created ≡ created)
    × Decides Role.manager
        (select (grants 0 7 10 []) created.memberships)
        (record { effective_role = Role.owner; origins = created.memberships })
unfolding created access_decision decide_origins select max_by_rank
access_decision_lem_example =
    access_decision_lem 0 7 10 [] Role.manager created created
      (record { effective_role = Role.owner; origins = created.memberships }) refl

pub open_session : UploadSessionRow
open_session = record {
  id = 5;
  project_id = 0;
  snapshot_id = 1;
  created_by = 10;
  state = UploadState.opened;
  created_at = 110;
  expires_at = 3710;
}

create_upload_session-retry_example :
    create_upload_session 0 [] 10 2 3600 115 opened ≡ (ok open_session, opened)
unfolding opened open_session
create_upload_session-retry_example =
    create_upload_session-retry 0 declarations [] 10 2 3600 110 115 created open_session refl

pub submitted_project : ProjectRow
unfolding created_project
submitted_project = record created_project { state = ProjectState.queued; updated_at = 130 }

locked_frozen_example :
    ((create_upload_session 0 declarations 10 9 3600 160 submitted).1 ≡ submitted)
    × ((finalize_upload 0 5 [] 10 9 160 submitted).1 ≡ submitted)
    × (after (delete_file 0 9 10 160) submitted ≡ submitted)
    × ((submit_build 0 10 9 160 submitted).1 ≡ submitted)
unfolding submitted submitted_project
locked_frozen_example =
    locked_frozen 0 submitted submitted_project refl refl declarations 5 9 [] 10 9 3600 160
