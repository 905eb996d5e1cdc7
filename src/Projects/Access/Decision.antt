-- ===== src/Projects/Access/Decision.antt =====
-- Who is let in: `access_decision` of apps/api/app/projects/repository.py against the memberships.
use poc_la_graph.Base.{
  ◌≤◌, ◌≡◌, ◌↔◌, ◌⊎◌, ◌∙◌, ◌==◌, ==_iff, leb→le, ap, refl, Bool, true, false, ◌||◌, some, List, [],
  ◌∷◌, arith, any, leb, ltb, inl, inr, Option-cases, All, Bool-cases, subst, sym,
}
use poc_la_graph.Base.Table.{first, select}
use poc_la_graph.Base.Member.{Mem, any-Mem, Mem-any, select-Mem, Mem-select}
use poc_la_graph.Projects.Rows.{
  RowId, Token, Role, PrincipalType, MembershipRow, ProjectRow, AccessDecision, Database, role_rank,
}
use poc_la_graph.Projects.Session.{is_user, ok, succeeds}
use poc_la_graph.Projects.Access.{
  in_tenant, grants, max_by_rank, decide_origins, access_decision, higher,
}

-- The row's role reaches the minimum.
abbrev pub reaches : Role → MembershipRow → Bool
reaches minimum m = leb (role_rank minimum) (role_rank m.role)

max_by_rank-reaches :
    (minimum : Role) (best : MembershipRow) (ms : List MembershipRow)
    → reaches minimum (max_by_rank best ms) ≡ (reaches minimum best || any (reaches minimum) ms)
unfolding max_by_rank
max_by_rank-reaches minimum best [] = ground arith
max_by_rank-reaches minimum best (m ∷ ms) =
    ground (arith, max_by_rank-reaches minimum best ms, max_by_rank-reaches minimum m ms)

decide_origins-succeeds :
    (p : RowId) (minimum : Role) (rows : List MembershipRow) (db : Database)
    → succeeds (decide_origins p minimum rows) db ≡ any (reaches minimum) rows
unfolding decide_origins
decide_origins-succeeds p minimum [] db = refl
decide_origins-succeeds p minimum (m ∷ ms) db = ground (arith, max_by_rank-reaches minimum m ms)

pub access_decision-reaches :
    (p : RowId) (tenant subject : Token) (group_ids : List Token) (minimum : Role) (db : Database)
    {project : ProjectRow}
    → first (in_tenant p tenant) db.projects ≡ some project
    → succeeds (access_decision p tenant subject group_ids minimum) db
      ≡ any (reaches minimum) (select (grants p tenant subject group_ids) db.memberships)
unfolding access_decision
access_decision-reaches p tenant subject group_ids minimum db found = ground (
  arith,
  decide_origins-succeeds p minimum (select (grants p tenant subject group_ids) db.memberships) db,
)

-- A membership in the project and the tenant, of the caller itself or of one of its groups.
pub record IsGrant (p : RowId) (tenant subject : Token) (group_ids : List Token) (m : MembershipRow)
    : Type 0 where
  pub in_project : m.project_id ≡ p
  pub of_tenant : m.tenant_id ≡ tenant
  pub of_caller :
      ((m.principal_type ≡ PrincipalType.user) × (m.principal_id ≡ subject))
      ⊎ ((m.principal_type ≡ PrincipalType.group) × Mem m.principal_id group_ids)

principal_cases :
    (t : PrincipalType)
    → ((t ≡ PrincipalType.user) × (is_user t ≡ true))
      ⊎ ((t ≡ PrincipalType.group) × (is_user t ≡ false))
principal_cases PrincipalType.user = inl (refl, refl)
principal_cases PrincipalType.group = inr (refl, refl)

module _ (p : RowId) (tenant subject : Token) (group_ids : List Token) (m : MembershipRow) where
  grants-IsGrant : grants p tenant subject group_ids m ≡ true → IsGrant p tenant subject group_ids m
  grants-IsGrant h = record {
    in_project = ground arith;
    of_tenant = ground arith;
    of_caller = elim (principal_cases m.principal_type) [
      | inl (e, user) ↦ inl (e, ground arith)
      | inr (e, group) ↦
          let (g, (i, same)) = any-Mem (λ g. m.principal_id == g) group_ids (ground arith) in
          inr (e, subst (λ k. Mem k group_ids) (sym ((==_iff m.principal_id g).0 same)) i)
    ];
  }

  IsGrant-grants : IsGrant p tenant subject group_ids m → grants p tenant subject group_ids m ≡ true
  IsGrant-grants k = elim k.of_caller [
    | inl (e, own) ↦
        let user : is_user m.principal_type ≡ true = ap is_user e in
        ground (arith, k.in_project, k.of_tenant)
    | inr (e, i) ↦
        let user : is_user m.principal_type ≡ false = ap is_user e in
        let listed =
          Mem-any (λ g. m.principal_id == g) group_ids m.principal_id i
            ((==_iff m.principal_id m.principal_id).1 refl) in
        ground (arith, k.in_project, k.of_tenant)
  ]

-- In a project of the tenant, a caller is let in exactly if there is a membership in that project and
-- that tenant, of the user that calls or of a group that it belongs to, whose role has at least the
-- minimum rank.
pub access_decision_iff :
    (p : RowId) (tenant subject : Token) (group_ids : List Token) (minimum : Role) (db : Database)
    {project : ProjectRow}
    → first (in_tenant p tenant) db.projects ≡ some project
    → (succeeds (access_decision p tenant subject group_ids minimum) db ≡ true) ↔ (
        (m : MembershipRow) × (Mem m db.memberships
          × (IsGrant p tenant subject group_ids m × (role_rank minimum ≤ role_rank m.role))))
access_decision_iff p tenant subject group_ids minimum db found =
    let g = grants p tenant subject group_ids in
    let decided = access_decision-reaches p tenant subject group_ids minimum db found in
    (
      λ h.
          let (m, (i, high)) =
            any-Mem (reaches minimum) (select g db.memberships) (sym decided ∙ h) in
          let (j, granted) = select-Mem g db.memberships m i in
          (m, (j, (grants-IsGrant p tenant subject group_ids m granted, leb→le _ _ high))),
      λ (m, (j, (k, high))).
          let granted = IsGrant-grants p tenant subject group_ids m k in
          decided
          ∙ Mem-any (reaches minimum) (select g db.memberships) m
              (Mem-select g db.memberships m j granted) (ground arith),
    )

higher_bound :
    (best m : MembershipRow)
    → (role_rank best.role ≤ role_rank (higher best m).role)
      × (role_rank m.role ≤ role_rank (higher best m).role)
higher_bound best m = ground arith

-- No row has a role above that of the row found.
max_by_rank_bound :
    (best : MembershipRow) (ms : List MembershipRow)
    → (role_rank best.role ≤ role_rank (max_by_rank best ms).role)
      × All (λ m. role_rank m.role ≤ role_rank (max_by_rank best ms).role) ms
unfolding max_by_rank
max_by_rank_bound best [] = (omega arith, tt)
max_by_rank_bound best (m ∷ ms) =
    let ih = max_by_rank_bound (higher best m) ms in
    let (above_best, above_m) = higher_bound best m in (omega arith, (omega arith, ih.1))

-- The role of the row found is that of one of the rows.
max_by_rank_among :
    (best : MembershipRow) (ms : List MembershipRow)
    → any (reaches (max_by_rank best ms).role) (best ∷ ms) ≡ true
max_by_rank_among best ms = ground (arith, max_by_rank-reaches (max_by_rank best ms).role best ms)

-- What a decision on the given rows reports.
abbrev pub Decides : Role → List MembershipRow → AccessDecision → Type 0
Decides minimum rows decision =
    (decision.origins ≡ rows)
    × (role_rank minimum ≤ role_rank decision.effective_role)
    × (any (reaches decision.effective_role) rows ≡ true)
    × All (λ m. role_rank m.role ≤ role_rank decision.effective_role) rows

decide_origins-Decides :
    (p : RowId) (minimum : Role) (rows : List MembershipRow) (db db' : Database)
    (decision : AccessDecision)
    → decide_origins p minimum rows db ≡ ok (decision, db')
    → (db' ≡ db) × Decides minimum rows decision
unfolding decide_origins
decide_origins-Decides p minimum [] db db' decision e = cc
decide_origins-Decides p minimum (m ∷ ms) db db' decision e =
    elim (Bool-cases (ltb (role_rank (max_by_rank m ms).role) (role_rank minimum))) [
      | inl below ↦ ground arith
      | inr reached ↦
          let role_eq : decision.effective_role ≡ (max_by_rank m ms).role = ground arith in
          let bound = max_by_rank_bound m ms in
          (
            ground arith,
            (
              ground arith,
              rw role_eq (ground arith),
              subst (λ (r : Role). any (reaches r) (m ∷ ms) ≡ true) (sym role_eq)
                  (max_by_rank_among m ms),
              subst
                  (λ (r : Role).
                    All (λ (n : MembershipRow). role_rank n.role ≤ role_rank r) (m ∷ ms))
                  (sym role_eq) bound,
            ),
          )
    ]

-- A call that lets the caller in changes nothing, and reports all the granting memberships and a role
-- that reaches the minimum, that no granting membership exceeds, and that one of them has.
pub access_decision_lem :
    (p : RowId) (tenant subject : Token) (group_ids : List Token) (minimum : Role)
    (db db' : Database) (decision : AccessDecision)
    → access_decision p tenant subject group_ids minimum db ≡ ok (decision, db')
    → (db' ≡ db)
      × Decides minimum (select (grants p tenant subject group_ids) db.memberships) decision
unfolding access_decision
access_decision_lem p tenant subject group_ids minimum db db' decision e =
    elim (Option-cases (first (in_tenant p tenant) db.projects)) [
      | inl missing ↦ ground arith
      | inr (project, found) ↦
          decide_origins-Decides p minimum
            (select (grants p tenant subject group_ids) db.memberships) db db' decision
            (rw found at e)
    ]
