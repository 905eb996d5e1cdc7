-- ===== src/Projects/Listing.antt =====
-- `list_projects` of apps/api/app/projects/repository.py, against the decisions on access. The
-- order of the listing is left out; a project that several memberships join is listed once.
use poc_la_graph.Base.{
  ◌≡◌, ◌↔◌, ◌∙◌, sym, refl, Bool, true, false, not, ◌&&◌, ◌||◌, Option, none, some, List, [], ◌∷◌,
  ◌==◌, arith, any, All, inl, inr, Bool-cases,
}
use poc_la_graph.Base.Table.{first, select, first_holds}
use poc_la_graph.Base.Member.{Mem, select-Mem, Mem-select, first-Mem}
use poc_la_graph.Projects.Rows.{Token, Role, MembershipRow, ProjectRow, Database}
use poc_la_graph.Projects.Session.{is_archived, is_user, succeeds}
use poc_la_graph.Projects.Access.{in_tenant, grants, access_decision}
use poc_la_graph.Projects.Access.Decision.{reaches, access_decision-reaches}

-- `principal_id.in_([subject, *group_ids])`, whatever the type of the principal is.
abbrev is_principal : Token → List Token → MembershipRow → Bool
is_principal subject group_ids m =
    m.principal_id == subject || any (λ g. m.principal_id == g) group_ids

-- A membership that the join keeps; `tenant_id == NULL` holds of no row.
abbrev joins : ProjectRow → Option Token → Token → List Token → MembershipRow → Bool
joins row none subject group_ids m = false
joins row (some tenant) subject group_ids m =
    m.project_id == row.id && is_principal subject group_ids m && m.tenant_id == tenant

abbrev of_tenant : Option Token → ProjectRow → Bool
of_tenant none row = true
of_tenant (some tenant) row = row.tenant_id == tenant

abbrev of_subject :
    Option Token → Option Token → List Token → List MembershipRow → ProjectRow → Bool
of_subject tenant none group_ids memberships row = true
of_subject tenant (some subject) group_ids memberships row =
    any (joins row tenant subject group_ids) memberships

abbrev pub is_listed : Option Token → Option Token → List Token → Database → ProjectRow → Bool
is_listed tenant subject group_ids db row =
    not (is_archived row.state)
    && of_tenant tenant row
    && of_subject tenant subject group_ids db.memberships row

unfoldable pub list_projects : Option Token → Option Token → List Token → Database → List ProjectRow
list_projects tenant subject group_ids db =
    select (is_listed tenant subject group_ids db) db.projects

-- The membership's principal is no user with the identifier of one of the groups, and no group with
-- the identifier of the subject.
abbrev pub IsDistinct : Token → List Token → MembershipRow → Type 0
IsDistinct subject group_ids m =
    ((is_user m.principal_type && any (λ g. m.principal_id == g) group_ids) ≡ false)
    × ((not (is_user m.principal_type) && m.principal_id == subject) ≡ false)

-- Every role reaches the rank of a viewer.
viewer_reached : (m : MembershipRow) → reaches Role.viewer m ≡ true
viewer_reached m = ground arith

joins-grants :
    (row : ProjectRow) (tenant subject : Token) (group_ids : List Token) (ms : List MembershipRow)
    → All (IsDistinct subject group_ids) ms
    → any (joins row (some tenant) subject group_ids) ms
      ≡ any (reaches Role.viewer) (select (grants row.id tenant subject group_ids) ms)
unfolding select
joins-grants row tenant subject group_ids [] all = refl
joins-grants row tenant subject group_ids (m ∷ ms) (distinct, all) =
    let rest = joins-grants row tenant subject group_ids ms all in
    elim (Bool-cases (grants row.id tenant subject group_ids m)) [
      | inl granted ↦
          let joined : joins row (some tenant) subject group_ids m ≡ true = ground arith in
          let viewed : reaches Role.viewer m ≡ true = viewer_reached m in
          rw (granted, joined, viewed) refl
      | inr refused ↦
          let apart : joins row (some tenant) subject group_ids m ≡ false = ground arith in
          rw (refused, apart) rest
    ]

is_listed-access :
    (db : Database) (tenant subject : Token) (group_ids : List Token) (row : ProjectRow)
    → first (in_tenant row.id tenant) db.projects ≡ some row
    → All (IsDistinct subject group_ids) db.memberships
    → is_listed (some tenant) (some subject) group_ids db row ≡ (
        not (is_archived row.state)
        && succeeds (access_decision row.id tenant subject group_ids Role.viewer) db)
is_listed-access db tenant subject group_ids row known distinct =
    let own : in_tenant row.id tenant row ≡ true =
      first_holds (in_tenant row.id tenant) db.projects row known in
    let same = joins-grants row tenant subject group_ids db.memberships distinct in
    let decided = access_decision-reaches row.id tenant subject group_ids Role.viewer db known in
    let of_this : (row.tenant_id == tenant) ≡ true = ground arith in
    rw (of_this, same, decided) (ground arith)

-- Where no identifier is both a user's and a group's, a project of the caller's tenant is in the list
-- that the caller is shown exactly if it is not archived and the caller is let in as a viewer.
pub list_projects-access :
    (db : Database) (tenant subject : Token) (group_ids : List Token) (row : ProjectRow)
    → first (in_tenant row.id tenant) db.projects ≡ some row
    → All (IsDistinct subject group_ids) db.memberships
    → Mem row (list_projects (some tenant) (some subject) group_ids db) ↔ (
        (is_archived row.state ≡ false)
        × (succeeds (access_decision row.id tenant subject group_ids Role.viewer) db ≡ true))
unfolding list_projects
list_projects-access db tenant subject group_ids row known distinct =
    let shown = is_listed (some tenant) (some subject) group_ids db in
    let same = is_listed-access db tenant subject group_ids row known distinct in
    (
      λ i.
          let listed = (select-Mem shown db.projects row i).1 in
          let both = sym same ∙ listed in (ground arith, ground arith),
      λ (kept, admitted).
          Mem-select shown db.projects row
            (first-Mem (in_tenant row.id tenant) db.projects row known) (same ∙ ground arith),
    )
