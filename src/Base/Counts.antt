-- ===== src/Base/Counts.antt =====
-- Facts on tables whose rows have keys: counting the rows that a change takes out or brings in, and
-- properties that every row of a table has.
use Prim.Native.Nat.{ℕ, ◌+◌, ◌≤◌}
use mathlib.Core.Path.{◌≡◌, refl, subst}
use mathlib.Core.Logic.{inl, inr}
use mathlib.Core.Bool.{Bool, true, false, ◌&&◌}
use mathlib.Core.Option.{some, none}
use mathlib.Core.List.{List, [], ◌∷◌, ◌++◌, map}
use native.Mathlib.Omega.{arith}
use poc_la_graph.Base.Tests.{ltb, is_some, Option-cases, Bool-cases}
use poc_la_graph.Base.Lists.{All}
use poc_la_graph.Base.Table.{first, select, count, update, modify_first, earliest, count-le, delete}

module _ {A : Type 0} where
  -- Of a row that no other shares its key with, and that counts, a change that takes it out of the
  -- count lowers the count by one.
  pub count-modify_first_key :
      (q p : A → Bool) (f : A → A)
      → ((x : A) → q (f x) ≡ false)
      → (xs : List A) → count p xs ≤ 1
      → 1 ≤ count (λ x. q x && p x) xs
      → count q (modify_first p f xs) + 1 ≡ count q xs
  unfolding count modify_first
  count-modify_first_key q p f out [] one found = absurd (omega arith)
  count-modify_first_key q p f out (x ∷ xs) one found = ground (
    arith,
    out x,
    count-le (λ y. q y && p y) p (λ y h. ground arith) xs,
    count-modify_first_key q p f out xs,
  )

  -- An update of the rows that are counted, after which they count no more.
  pub count-update_none :
      (q : A → Bool) (f : A → A)
      → ((x : A) → q (f x) ≡ false)
      → (xs : List A) → count q (update q f xs) ≡ 0
  unfolding count update
  count-update_none q f out [] = refl
  count-update_none q f out (x ∷ xs) = ground (arith, out x, count-update_none q f out xs)

  -- The rows of an update are rows with the new values.
  pub count-update_new :
      (q p : A → Bool) (f : A → A)
      → ((x : A) → p x ≡ true → q (f x) ≡ true)
      → (xs : List A) → count p xs ≤ count q (update p f xs)
  unfolding count update
  count-update_new q p f new [] = omega arith
  count-update_new q p f new (x ∷ xs) = ground (arith, new x, count-update_new q p f new xs)

  pub is_some-first-update :
      (q p : A → Bool) (f : A → A)
      → ((x : A) → q (f x) ≡ q x)
      → (xs : List A) → is_some (first q (update p f xs)) ≡ is_some (first q xs)
  unfolding first update
  is_some-first-update q p f same [] = refl
  is_some-first-update q p f same (x ∷ xs) =
      ground (arith, same x, is_some-first-update q p f same xs)

  pub All-select : (P : A → Type 0) (q : A → Bool) (xs : List A) → All P xs → All P (select q xs)
  unfolding select
  All-select P q [] ps = tt
  All-select P q (x ∷ xs) (px, ps) = elim (Bool-cases (q x)) [
    | inl e ↦ rw e (px, All-select P q xs ps)
    | inr e ↦ rw e (All-select P q xs ps)
  ]

  pub All-earliest :
      (P : A → Type 0) (key : A → ℕ) (xs : List A) (x : A)
      → All P xs
      → earliest key xs ≡ some x
      → P x
  unfolding earliest
  All-earliest P key [] x ps e = absurd (ground arith)
  All-earliest P key (y ∷ ys) x (py, ps) e = elim (Option-cases (earliest key ys)) [
    | inl none_later ↦ subst P (ground arith) py
    | inr (z, f) ↦ elim (Bool-cases (ltb (key z) (key y))) [
      | inl earlier ↦ subst P (ground arith) (All-earliest P key ys z ps f)
      | inr first_one ↦ subst P (ground arith) py
    ]
  ]

  -- The selected row, when it is changed and still satisfies the condition.
  pub first-modify_first :
      (p : A → Bool) (f : A → A) (xs : List A) (x : A)
      → first p xs ≡ some x
      → p (f x) ≡ true
      → first p (modify_first p f xs) ≡ some (f x)
  unfolding first modify_first
  first-modify_first p f [] x e h = ground arith
  first-modify_first p f (y ∷ ys) x e h = ground (arith, first-modify_first p f ys x)

  -- Two changes of the selected row are one.
  pub modify_first_twice :
      (p : A → Bool) (f g : A → A)
      → ((x : A) → p (g x) ≡ p x)
      → (xs : List A) → modify_first p f (modify_first p g xs) ≡ modify_first p (λ x. f (g x)) xs
  unfolding modify_first
  modify_first_twice p f g same [] = refl
  modify_first_twice p f g same (x ∷ xs) = ground (arith, same x, modify_first_twice p f g same xs)

  -- After a deletion nothing is selected by the same condition.
  pub first-delete : (p : A → Bool) (xs : List A) → first p (delete p xs) ≡ none
  unfolding first delete
  first-delete p [] = refl
  first-delete p (x ∷ xs) = ground (arith, first-delete p xs)

  -- Conditions that agree select the same row.
  pub first-same :
      (p q : A → Bool) → ((x : A) → p x ≡ q x) → (xs : List A) → first p xs ≡ first q xs
  unfolding first
  first-same p q same [] = refl
  first-same p q same (x ∷ xs) = ground (arith, same x, first-same p q same xs)

  -- What is selected by a condition that the deleted rows do not satisfy.
  pub first-delete_other :
      (q p : A → Bool)
      → ((x : A) → p x ≡ true → q x ≡ false)
      → (xs : List A) → first q (delete p xs) ≡ first q xs
  unfolding first delete
  first-delete_other q p h [] = refl
  first-delete_other q p h (x ∷ xs) = ground (arith, h x, first-delete_other q p h xs)

  pub first-append_other :
      (q : A → Bool) (xs : List A) (y : A) → q y ≡ false → first q (xs ++ y ∷ []) ≡ first q xs
  unfolding first
  first-append_other q [] y h = ground arith
  first-append_other q (x ∷ xs) y h = ground (arith, first-append_other q xs y)

  pub first-append_none :
      (q : A → Bool) (xs : List A) (y : A)
      → first q xs ≡ none
      → q y ≡ true
      → first q (xs ++ y ∷ []) ≡ some y
  unfolding first
  first-append_none q [] y e h = ground arith
  first-append_none q (x ∷ xs) y e h = ground (arith, first-append_none q xs y)

  pub first-select :
      (q p : A → Bool) (xs : List A) → first q (select p xs) ≡ first (λ x. p x && q x) xs
  unfolding first select
  first-select q p [] = refl
  first-select q p (x ∷ xs) = ground (arith, first-select q p xs)

  -- Where no row satisfies a condition, none satisfies a stronger one.
  pub first-stronger :
      (q p : A → Bool)
      → ((x : A) → q x ≡ true → p x ≡ true)
      → (xs : List A) → first p xs ≡ none
      → first q xs ≡ none
  unfolding first
  first-stronger q p h [] e = refl
  first-stronger q p h (x ∷ xs) e = ground (arith, h x, first-stronger q p h xs)

  pub is_some-first-modify_first :
      (q p : A → Bool) (f : A → A)
      → ((x : A) → q (f x) ≡ q x)
      → (xs : List A) → is_some (first q (modify_first p f xs)) ≡ is_some (first q xs)
  unfolding first modify_first
  is_some-first-modify_first q p f same [] = refl
  is_some-first-modify_first q p f same (x ∷ xs) =
      ground (arith, same x, is_some-first-modify_first q p f same xs)

-- A field that a change keeps.
module _ {A : Type 0} {B : Type 0} where
  pub map-update :
      (g : A → B) (p : A → Bool) (f : A → A)
      → ((x : A) → g (f x) ≡ g x)
      → (xs : List A) → map g (update p f xs) ≡ map g xs
  unfolding update
  map-update g p f same [] = refl
  map-update g p f same (x ∷ xs) = ground (arith, same x, map-update g p f same xs)

  pub map-modify_first :
      (g : A → B) (p : A → Bool) (f : A → A)
      → ((x : A) → g (f x) ≡ g x)
      → (xs : List A) → map g (modify_first p f xs) ≡ map g xs
  unfolding modify_first
  map-modify_first g p f same [] = refl
  map-modify_first g p f same (x ∷ xs) = ground (arith, same x, map-modify_first g p f same xs)

  -- A property of a field is a property of the list of its values.
  pub All-map :
      (P : B → Type 0) (g : A → B) (xs : List A) → All (λ x. P (g x)) xs → All P (map g xs)
  All-map P g [] ps = tt
  All-map P g (x ∷ xs) (p, ps) = (p, All-map P g xs ps)

  pub map-All :
      (P : B → Type 0) (g : A → B) (xs : List A) → All P (map g xs) → All (λ x. P (g x)) xs
  map-All P g [] ps = tt
  map-All P g (x ∷ xs) (p, ps) = (p, map-All P g xs ps)

module _ {A : Type 0} where
  pub All-implied : (P Q : A → Type 0) → ((x : A) → P x → Q x) → (xs : List A) → All P xs → All Q xs
  All-implied P Q h [] ps = tt
  All-implied P Q h (x ∷ xs) (p, ps) = (h x p, All-implied P Q h xs ps)
