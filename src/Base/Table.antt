-- ===== src/Base/Table.antt =====
-- Tables as lists of rows in insertion order, with the statements that the program sends:
-- SELECT, UPDATE, DELETE and COUNT under a condition, and the change of one selected row.
use Prim.Native.Nat.{ℕ, ◌+◌, ◌≤◌}
use mathlib.Core.Path.{◌≡◌, refl}
use mathlib.Core.Bool.{Bool, true, false}
use mathlib.Core.Option.{Option, none, some}
use mathlib.Core.List.{List, [], ◌∷◌, ◌++◌}
use native.Mathlib.Omega.{arith}
use poc_la_graph.Base.Tests.{if◌then◌else◌, ltb}

module _ {ℓ} {A : Type ℓ} where
  -- `session.scalar(select(...).where(...))`: the first row that satisfies the condition.
  unfoldable pub first : (A → Bool) → List A → Option A
  first p [] = none
  first p (x ∷ xs) = if p x then some x else first p xs

  -- `session.scalars(select(...).where(...)).all()`
  unfoldable pub select : (A → Bool) → List A → List A
  select p [] = []
  select p (x ∷ xs) = let rest = select p xs in if p x then x ∷ rest else rest

  -- `select(func.count())`
  unfoldable pub count : (A → Bool) → List A → ℕ
  count p [] = 0
  count p (x ∷ xs) = (if p x then 1 else 0) + count p xs

  -- `update(...).where(...).values(...)`
  unfoldable pub update : (A → Bool) → (A → A) → List A → List A
  update p f [] = []
  update p f (x ∷ xs) = (if p x then f x else x) ∷ update p f xs

  -- `delete(...).where(...)`
  unfoldable pub delete : (A → Bool) → List A → List A
  delete p [] = []
  delete p (x ∷ xs) = let rest = delete p xs in if p x then rest else x ∷ rest

  -- Assignments to the fields of the row that `first` selects.
  unfoldable pub modify_first : (A → Bool) → (A → A) → List A → List A
  modify_first p f [] = []
  modify_first p f (x ∷ xs) = if p x then f x ∷ xs else x ∷ modify_first p f xs

  -- `session.delete(row)` of the row that `first` selects.
  unfoldable pub delete_first : (A → Bool) → List A → List A
  delete_first p [] = []
  delete_first p (x ∷ xs) = if p x then xs else x ∷ delete_first p xs

  -- `.order_by(key).limit(1)`: the first of the rows with the least key.
  unfoldable pub earliest : (A → ℕ) → List A → Option A
  earliest key [] = none
  earliest key (x ∷ xs) = elim (earliest key xs) [
    | none ↦ some x
    | some y ↦ if ltb (key y) (key x) then some y else some x
  ]

  -- `.order_by(key.desc()).limit(1)`: the first of the rows with the greatest key.
  unfoldable pub latest : (A → ℕ) → List A → Option A
  latest key [] = none
  latest key (x ∷ xs) = elim (latest key xs) [
    | none ↦ some x
    | some y ↦ if ltb (key x) (key y) then some y else some x
  ]

-- The weight of one row in a count.
abbrev pub one_if : Bool → ℕ
one_if b = if b then 1 else 0

module _ {ℓ} {A : Type ℓ} where
  pub count-append : (p : A → Bool) (xs ys : List A) → count p (xs ++ ys) ≡ count p xs + count p ys
  unfolding count
  count-append p [] ys = omega arith
  count-append p (x ∷ xs) ys = omega (arith, count-append p xs ys)

  -- Changing the selected row moves a count by the weights of the old and the new row.
  pub count-modify_first :
      (q p : A → Bool) (f : A → A) (xs : List A) (x : A)
      → first p xs ≡ some x
      → count q (modify_first p f xs) + one_if (q x) ≡ count q xs + one_if (q (f x))
  unfolding count modify_first first
  count-modify_first q p f [] x h = ground arith
  count-modify_first q p f (y ∷ ys) x h = ground (arith, count-modify_first q p f ys x)

  -- Deleting the selected row takes its weight out of a count.
  pub count-delete_first :
      (q p : A → Bool) (xs : List A) (x : A)
      → first p xs ≡ some x
      → count q (delete_first p xs) + one_if (q x) ≡ count q xs
  unfolding count delete_first first
  count-delete_first q p [] x h = ground arith
  count-delete_first q p (y ∷ ys) x h = ground (arith, count-delete_first q p ys x)

  -- A changed row that weighs the same leaves a count alone, and one that leaves it lowers it.
  pub count-modify_first_same :
      (q p : A → Bool) (f : A → A)
      → ((x : A) → q (f x) ≡ q x)
      → (xs : List A) → count q (modify_first p f xs) ≡ count q xs
  unfolding count modify_first
  count-modify_first_same q p f h [] = refl
  count-modify_first_same q p f h (x ∷ xs) = ground (arith, h x, count-modify_first_same q p f h xs)

  pub count-modify_first_le :
      (q p : A → Bool) (f : A → A)
      → ((x : A) → q (f x) ≡ true → q x ≡ true)
      → (xs : List A) → count q (modify_first p f xs) ≤ count q xs
  unfolding count modify_first
  count-modify_first_le q p f h [] = omega arith
  count-modify_first_le q p f h (x ∷ xs) = ground (arith, h x, count-modify_first_le q p f h xs)

  -- A changed row that weighs the same leaves a count alone.
  pub count-update_same :
      (q p : A → Bool) (f : A → A)
      → ((x : A) → q (f x) ≡ q x)
      → (xs : List A) → count q (update p f xs) ≡ count q xs
  unfolding count update
  count-update_same q p f h [] = refl
  count-update_same q p f h (x ∷ xs) = ground (arith, h x, count-update_same q p f h xs)

  -- An update whose rows all leave the count can only lower it.
  pub count-update_le :
      (q p : A → Bool) (f : A → A)
      → ((x : A) → q (f x) ≡ true → q x ≡ true)
      → (xs : List A) → count q (update p f xs) ≤ count q xs
  unfolding count update
  count-update_le q p f h [] = omega arith
  count-update_le q p f h (x ∷ xs) = ground (arith, h x, count-update_le q p f h xs)

  -- The rows that an update brings into a count are rows that satisfy its condition.
  pub count-update_gain :
      (q p : A → Bool) (f : A → A) (xs : List A) → count q (update p f xs) ≤ count q xs + count p xs
  unfolding count update
  count-update_gain q p f [] = omega arith
  count-update_gain q p f (x ∷ xs) = ground (arith, count-update_gain q p f xs)

  pub count-delete_le : (q p : A → Bool) (xs : List A) → count q (delete p xs) ≤ count q xs
  unfolding count delete
  count-delete_le q p [] = omega arith
  count-delete_le q p (x ∷ xs) = ground (arith, count-delete_le q p xs)

  -- Two conditions that agree on every row count alike, and one that implies another counts less.
  pub count-le :
      (q p : A → Bool)
      → ((x : A) → q x ≡ true → p x ≡ true)
      → (xs : List A) → count q xs ≤ count p xs
  unfolding count
  count-le q p h [] = omega arith
  count-le q p h (x ∷ xs) = ground (arith, h x, count-le q p h xs)

  -- A row that is selected satisfies the condition.
  pub first_holds : (p : A → Bool) (xs : List A) (x : A) → first p xs ≡ some x → p x ≡ true
  unfolding first
  first_holds p [] x h = ground arith
  first_holds p (y ∷ ys) x h = ground (arith, first_holds p ys x)

  -- A count is zero exactly when no row is selected.
  pub count_none : (p : A → Bool) (xs : List A) → first p xs ≡ none → count p xs ≡ 0
  unfolding first count
  count_none p [] h = refl
  count_none p (y ∷ ys) h = ground (arith, count_none p ys)

  pub count_some : (p : A → Bool) (xs : List A) (x : A) → first p xs ≡ some x → 1 ≤ count p xs
  unfolding first count
  count_some p [] x h = ground arith
  count_some p (y ∷ ys) x h = ground (arith, count_some p ys x)

  -- Rows outside an update are untouched, and so is what a condition on them selects.
  pub select-update_other :
      (q p : A → Bool) (f : A → A)
      → ((x : A) → p x ≡ true → q x ≡ false)
      → ((x : A) → p x ≡ true → q (f x) ≡ false)
      → (xs : List A) → select q (update p f xs) ≡ select q xs
  unfolding select update
  select-update_other q p f h k [] = refl
  select-update_other q p f h k (x ∷ xs) =
      ground (arith, h x, k x, select-update_other q p f h k xs)

  pub select-append :
      (q : A → Bool) (xs ys : List A) → select q (xs ++ ys) ≡ select q xs ++ select q ys
  unfolding select
  select-append q [] ys = refl
  select-append q (x ∷ xs) ys = ground (arith, select-append q xs ys)

  pub select-delete_other :
      (q p : A → Bool)
      → ((x : A) → p x ≡ true → q x ≡ false)
      → (xs : List A) → select q (delete p xs) ≡ select q xs
  unfolding select delete
  select-delete_other q p h [] = refl
  select-delete_other q p h (x ∷ xs) = ground (arith, h x, select-delete_other q p h xs)
