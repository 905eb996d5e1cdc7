-- ===== src/Projects/Tests/Listing.antt =====
-- The projects of a small database that a caller is shown.
use poc_la_graph.Base.{◌≡◌, ◌↔◌, refl, true, false, some, [], ◌∷◌, All, length}
use poc_la_graph.Base.Member.{Mem}
use poc_la_graph.Base.Table.{first, select}
use poc_la_graph.Projects.Rows.{Role, PrincipalType, Database}
use poc_la_graph.Projects.Session.{is_archived, succeeds}
use poc_la_graph.Projects.Access.{access_decision, decide_origins}
use poc_la_graph.Projects.Listing.{list_projects, IsDistinct, list_projects-access}
use poc_la_graph.Projects.Tests.{created, created_project}

created-IsDistinct : All (IsDistinct 10 (40 ∷ [])) created.memberships
unfolding created
created-IsDistinct = ((refl, refl), tt)

list_projects-access_example :
    Mem created_project (list_projects (some 7) (some 10) (40 ∷ []) created) ↔ (
      (is_archived created_project.state ≡ false)
      × (succeeds (access_decision created_project.id 7 10 (40 ∷ []) Role.viewer) created ≡ true))
unfolding created created_project first
list_projects-access_example =
    list_projects-access created 7 10 (40 ∷ []) created_project refl created-IsDistinct

-- A membership of the group 50 in the project.
shared : Database
unfolding created
shared = record created {
  memberships =
      record {
        id = 60;
        tenant_id = 7;
        project_id = 0;
        principal_type = PrincipalType.group;
        principal_id = 50;
        display_name = "team";
        role = Role.viewer;
        created_by = 10;
        created_at = 100;
        updated_at = 100;
      }
      ∷ [];
}

-- A user with the identifier of that group is shown the project, and is not let in.
shown_not_let_in :
    (length (list_projects (some 7) (some 50) [] shared) ≡ 1)
    × (succeeds (access_decision 0 7 50 [] Role.viewer) shared ≡ false)
unfolding shared list_projects select access_decision first decide_origins
shown_not_let_in = (refl, refl)
