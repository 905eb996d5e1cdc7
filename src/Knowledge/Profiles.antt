-- ===== src/Knowledge/Profiles.antt =====
-- The structural profiles of source documents and their validation:
-- apps/api/app/knowledge/profiles.py. Names and patterns are texts; the threshold for merging, a
-- float in the program, is a fraction.
use poc_la_graph.Base.{
  ℕ, ◌<◌, ◌≡◌, Bool, true, false, not, ◌&&◌, ◌||◌, ltb, leb, ◌==◌, if◌then◌else◌, List, [], ◌∷◌,
  length, any, Option, none, some, is_some, arith, Option-cases, Bool-cases, inl, inr, ◌⊎◌,
}
use poc_la_graph.Knowledge.Text.{Text, text_eq, starts_with}

pub data Boundary : Type 0 where
  page markdown_heading legal_article : Boundary

pub record DocumentProfile : Type 0 where
  pub hard_boundaries : List Boundary
  pub leaf_tokens : ℕ
  pub parent_tokens : ℕ
  pub overlap_tokens : ℕ
  pub auto_merge_numerator : ℕ
  pub auto_merge_denominator : ℕ

pub record ProfileRule : Type 0 where
  pub glob : Text
  pub profile : Text

pub record DocumentProfiles : Type 0 where
  pub default_profile : Text
  pub rules : List ProfileRule
  pub profiles : List (Text × DocumentProfile)

unfoldable pub boundary_eq : Boundary → Boundary → Bool
boundary_eq page page = true
boundary_eq markdown_heading markdown_heading = true
boundary_eq legal_article legal_article = true
boundary_eq _ _ = false

-- `boundary in boundaries`
unfoldable pub has_boundary : Boundary → List Boundary → Bool
has_boundary b [] = false
has_boundary b (x ∷ xs) = boundary_eq b x || has_boundary b xs

unfoldable pub distinct_boundaries : List Boundary → Bool
distinct_boundaries [] = true
distinct_boundaries (x ∷ xs) = not (has_boundary x xs) && distinct_boundaries xs

-- The limits of the fields and `valid_sizes`.
unfoldable pub valid_sizes : DocumentProfile → Bool
valid_sizes p =
    leb 1 (length p.hard_boundaries)
    && (leb 64 p.leaf_tokens && leb p.leaf_tokens 4095)
    && (leb 65 p.parent_tokens && leb p.parent_tokens 4096)
    && (ltb 0 p.auto_merge_numerator && ltb p.auto_merge_numerator p.auto_merge_denominator)
    && ltb p.leaf_tokens p.parent_tokens
    && ltb p.overlap_tokens p.leaf_tokens
    && distinct_boundaries p.hard_boundaries

abbrev name_start : ℕ → Bool
name_start c = (leb 65 c && leb c 90) || (leb 97 c && leb c 122) || (leb 48 c && leb c 57)

unfoldable pub name_rest : Text → Bool
name_rest [] = true
name_rest (c ∷ cs) = (name_start c || c == 46 || c == 95 || c == 45) && name_rest cs

-- `PROFILE_NAME.fullmatch(name)`
unfoldable pub valid_name : Text → Bool
valid_name [] = false
valid_name (c ∷ cs) = name_start c && (name_rest cs && leb (length cs) 63)

unfoldable ends_part : Text → Bool
ends_part [] = true
ends_part (c ∷ _) = c == 47

unfoldable is_parent : Text → Bool
unfolding ends_part
is_parent [] = false
is_parent (c ∷ []) = false
is_parent (c ∷ d ∷ rest) = c == 46 && (d == 46 && ends_part rest)

-- `".." in glob.split("/")`: some part, which begins here, is two dots.
unfoldable pub has_parent_part : Bool → Text → Bool
unfolding is_parent
has_parent_part at_start [] = false
has_parent_part at_start (c ∷ cs) = (at_start && is_parent (c ∷ cs)) || has_parent_part (c == 47) cs

-- The limits of the fields and `safe_values`.
unfoldable pub safe_values : ProfileRule → Bool
safe_values r =
    (leb 1 (length r.glob) && leb (length r.glob) 512)
    && valid_name r.profile
    && not (starts_with 47 r.glob || has_parent_part true r.glob)
    && not (any (λ c. c == 92) r.glob)

-- `self.profiles[name]`
unfoldable pub profile_named : Text → List (Text × DocumentProfile) → Option DocumentProfile
profile_named name [] = none
profile_named name ((key, p) ∷ rest) = if text_eq key name then some p else profile_named name rest

unfoldable pub valid_rules : List (Text × DocumentProfile) → List Text → List ProfileRule → Bool
valid_rules profiles globs [] = true
valid_rules profiles globs (r ∷ rest) =
    is_some (profile_named r.profile profiles)
    && (not (any (λ g. text_eq g r.glob) globs) && valid_rules profiles (r.glob ∷ globs) rest)

unfoldable pub all_profiles : List (Text × DocumentProfile) → Bool
all_profiles [] = true
all_profiles ((name, p) ∷ rest) = (valid_name name && valid_sizes p) && all_profiles rest

abbrev all_rules : List ProfileRule → Bool
all_rules [] = true
all_rules (r ∷ rest) = safe_values r && all_rules rest

-- The validation of the parts and `valid_references`.
unfoldable pub valid_references : DocumentProfiles → Bool
valid_references d =
    (all_rules d.rules && all_profiles d.profiles)
    && (valid_name d.default_profile
        && (is_some (profile_named d.default_profile d.profiles)
            && valid_rules d.profiles [] d.rules))

-- What a selection gives: a name and its profile, a `ValueError` or a `KeyError`.
pub data Selection : Type 0 where
  chosen : Text → DocumentProfile → Selection
  value_error : Selection
  key_error : Selection

-- The part that begins here is empty or a single dot; `PurePosixPath` leaves such parts out.
unfoldable pub is_no_part : Text → Bool
is_no_part [] = true
is_no_part (c ∷ []) = c == 47 || c == 46
is_no_part (c ∷ d ∷ _) = c == 47 || (c == 46 && d == 47)

unfoldable pub only_no_parts : Bool → Text → Bool
only_no_parts at_start [] = true
only_no_parts at_start (c ∷ cs) =
    (not at_start || is_no_part (c ∷ cs)) && only_no_parts (c == 47) cs

-- No part is left of the pattern, and `PurePosixPath(path).match(glob)` raises a `ValueError`.
unfoldable pub is_empty_pattern : Text → Bool
is_empty_pattern glob = only_no_parts true glob

-- The name with its profile, `self.profiles[name]`.
unfoldable pub with_profile : Text → DocumentProfiles → Selection
with_profile name d = elim (profile_named name d.profiles) [
  | none ↦ key_error
  | some p ↦ chosen name p
]

-- The loop over the rules: `matches` is what `match` answers for a pattern that is not empty.
unfoldable pub select_rule :
    (Text → Text → Bool) → DocumentProfiles → Text → List ProfileRule → Selection
select_rule matches d path [] = with_profile d.default_profile d
select_rule matches d path (r ∷ rest) =
    let later = select_rule matches d path rest in
    if is_empty_pattern r.glob
    then value_error
    else if matches path r.glob
    then with_profile r.profile d
    else later

-- `select(relative_path)`
unfoldable pub select_profile : (Text → Text → Bool) → DocumentProfiles → Text → Selection
select_profile matches d path = select_rule matches d path d.rules

-- A profile that passed the validation has 0 ≤ overlap < leaf < parent.
pub valid_sizes-bounds :
    (p : DocumentProfile)
    → valid_sizes p ≡ true
    → (p.overlap_tokens < p.leaf_tokens) × (p.leaf_tokens < p.parent_tokens)
unfolding valid_sizes
valid_sizes-bounds p h = ground arith

pub profile_named-valid_sizes :
    (profiles : List (Text × DocumentProfile)) (name : Text) (p : DocumentProfile)
    → all_profiles profiles ≡ true
    → profile_named name profiles ≡ some p
    → valid_sizes p ≡ true
unfolding all_profiles profile_named
profile_named-valid_sizes [] name p valid e = ground arith
profile_named-valid_sizes ((key, q) ∷ rest) name p valid e =
    ground (arith, profile_named-valid_sizes rest name p)

with_profile-valid_sizes :
    (name : Text) (d : DocumentProfiles)
    → all_profiles d.profiles ≡ true
    → is_some (profile_named name d.profiles) ≡ true
    → (p : DocumentProfile) × ((with_profile name d ≡ chosen name p) × (valid_sizes p ≡ true))
unfolding with_profile
with_profile-valid_sizes name d valid found = elim (Option-cases (profile_named name d.profiles)) [
  | inl e ↦ absurd (ground arith)
  | inr (p, e) ↦ (p, ((ground arith), profile_named-valid_sizes d.profiles name p valid e))
]

module _ (matches : Text → Text → Bool) (d : DocumentProfiles) (path : Text) where
  -- A profile with 0 ≤ overlap < leaf < parent is chosen, or a `ValueError` is raised and some rule has
  -- an empty pattern.
  abbrev pub ChoosesOrRaises : List ProfileRule → Selection → Type 0
  ChoosesOrRaises rules s =
      ((name : Text) × ((p : DocumentProfile) × ((s ≡ chosen name p)
            × ((p.overlap_tokens < p.leaf_tokens) × (p.leaf_tokens < p.parent_tokens)))))
      ⊎ ((s ≡ value_error) × (any (λ (r : ProfileRule). is_empty_pattern r.glob) rules ≡ true))

  with_profile-ChoosesOrRaises :
      (name : Text) (rules : List ProfileRule)
      → all_profiles d.profiles ≡ true
      → is_some (profile_named name d.profiles) ≡ true
      → ChoosesOrRaises rules (with_profile name d)
  with_profile-ChoosesOrRaises name rules sizes known =
      let (p, (e, good)) = with_profile-valid_sizes name d sizes known in
      inl (name, (p, (e, valid_sizes-bounds p good)))

  select_rule-ChoosesOrRaises :
      (globs : List Text) (rules : List ProfileRule)
      → all_profiles d.profiles ≡ true
      → is_some (profile_named d.default_profile d.profiles) ≡ true
      → valid_rules d.profiles globs rules ≡ true
      → ChoosesOrRaises rules (select_rule matches d path rules)
  unfolding select_rule valid_rules
  select_rule-ChoosesOrRaises globs [] sizes known valid =
      with_profile-ChoosesOrRaises d.default_profile [] sizes known
  select_rule-ChoosesOrRaises globs (r ∷ rest) sizes known valid =
      elim (Bool-cases (is_empty_pattern r.glob)) [
        | inl empty ↦ inr (ground arith)
        | inr named ↦ elim (Bool-cases (matches path r.glob)) [
          | inl hit ↦
              rw (named, hit) (with_profile-ChoosesOrRaises r.profile rest sizes (ground arith))
          | inr miss ↦
              let later =
                select_rule-ChoosesOrRaises (r.glob ∷ globs) rest sizes known (ground arith) in
              rw (named, miss) later
        ]
      ]

  -- Whatever path is asked for, profiles that passed the validation have a profile for it, and its
  -- overlap is less than its leaf size, which is less than its parent size; or the selection raises a
  -- `ValueError`, and then some rule has a pattern of which no part is left.
  pub select_profile-bounds :
      valid_references d ≡ true → ChoosesOrRaises d.rules (select_profile matches d path)
  unfolding select_profile valid_references
  select_profile-bounds valid =
      select_rule-ChoosesOrRaises [] d.rules (ground arith) (ground arith) (ground arith)
