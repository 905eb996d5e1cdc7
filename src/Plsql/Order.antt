-- ===== src/Plsql/Order.antt =====
-- The orders by which results are sorted: tuples of numbers compared from the left, as Python's
-- tuples are, and `sorted` as an insertion sort by a Boolean order.
use poc_la_graph.Base.{
  ℕ, ◌≡◌, refl, Bool, true, false, ◌&&◌, ◌||◌, List, [], ◌∷◌, ◌==◌, ltb, arith, if◌then◌else◌, All,
  any, ap, ◌∙◌, ◌++◌, Bool-cases, inl, inr,
}

-- `xs <= ys` on tuples.
abbrev pub tuple_le : List ℕ → List ℕ → Bool
tuple_le [] ys = true
tuple_le (x ∷ xs) [] = false
tuple_le (x ∷ xs) (y ∷ ys) = ltb x y || (x == y && tuple_le xs ys)

-- `xs == ys` on tuples.
abbrev pub tuple_eq : List ℕ → List ℕ → Bool
tuple_eq [] [] = true
tuple_eq (x ∷ xs) (y ∷ ys) = x == y && tuple_eq xs ys
tuple_eq _ _ = false

module _ {A : Type 0} (le : A → A → Bool) where
  unfoldable pub insert_sorted : A → List A → List A
  insert_sorted x [] = x ∷ []
  insert_sorted x (y ∷ ys) = if le x y then x ∷ y ∷ ys else y ∷ insert_sorted x ys

  -- `sorted(xs, key=…)`
  unfoldable pub sort_by : List A → List A
  unfolding insert_sorted
  sort_by [] = []
  sort_by (x ∷ xs) = insert_sorted x (sort_by xs)

-- `xs in found`, and `found.add(xs)` on a set of tuples.
abbrev pub has_tuple : List ℕ → List (List ℕ) → Bool
has_tuple xs [] = false
has_tuple xs (ys ∷ rest) = tuple_eq xs ys || has_tuple xs rest

unfoldable pub add_tuple : List ℕ → List (List ℕ) → List (List ℕ)
add_tuple xs found = if has_tuple xs found then found else xs ∷ found

unfoldable pub to_set : List (List ℕ) → List (List ℕ)
unfolding add_tuple
to_set [] = []
to_set (xs ∷ rest) = add_tuple xs (to_set rest)

pub tuple_eq-true : (xs ys : List ℕ) → tuple_eq xs ys ≡ true → xs ≡ ys
tuple_eq-true [] [] h = refl
tuple_eq-true [] (y ∷ ys) h = cc
tuple_eq-true (x ∷ xs) [] h = cc
tuple_eq-true (x ∷ xs) (y ∷ ys) h = ground (arith, tuple_eq-true xs ys)

pub tuple_eq_refl : (xs : List ℕ) → tuple_eq xs xs ≡ true
tuple_eq_refl [] = refl
tuple_eq_refl (x ∷ xs) = ground (arith, tuple_eq_refl xs)

pub has_tuple-append :
    (xs : List ℕ) (a b : List (List ℕ)) → has_tuple xs (a ++ b) ≡ (has_tuple xs a || has_tuple xs b)
has_tuple-append xs [] b = refl
has_tuple-append xs (ys ∷ a) b = ground (arith, has_tuple-append xs a b)

-- Equal tuples stand in the same lists.
has_tuple-eq :
    (xs ys : List ℕ) (found : List (List ℕ))
    → tuple_eq xs ys ≡ true
    → has_tuple xs found ≡ has_tuple ys found
has_tuple-eq xs ys found h = ap (λ t. has_tuple t found) (tuple_eq-true xs ys h)

-- A set holds what was added to it, and sorting moves nothing in or out.
pub has_tuple-to_set :
    (xs : List ℕ) (found : List (List ℕ)) → has_tuple xs (to_set found) ≡ has_tuple xs found
unfolding to_set
has_tuple-to_set xs [] = refl
has_tuple-to_set xs (ys ∷ rest) =
    ground (arith, has_tuple-to_set xs rest, has_tuple-eq xs ys (to_set rest))

pub has_tuple-insert_sorted :
    (le : List ℕ → List ℕ → Bool) (xs ys : List ℕ) (found : List (List ℕ))
    → has_tuple xs (insert_sorted le ys found) ≡ (tuple_eq xs ys || has_tuple xs found)
unfolding insert_sorted
has_tuple-insert_sorted le xs ys [] = ground arith
has_tuple-insert_sorted le xs ys (zs ∷ rest) = ground (arith, has_tuple-insert_sorted le xs ys rest)

pub has_tuple-sort_by :
    (le : List ℕ → List ℕ → Bool) (xs : List ℕ) (found : List (List ℕ))
    → has_tuple xs (sort_by le found) ≡ has_tuple xs found
unfolding sort_by
has_tuple-sort_by le xs [] = refl
has_tuple-sort_by le xs (ys ∷ rest) =
    has_tuple-insert_sorted le xs ys (sort_by le rest)
    ∙ ap (λ b. tuple_eq xs ys || b) (has_tuple-sort_by le xs rest)

-- What holds of every element, and what some element satisfies, is kept by sorting.
module _ {A : Type 0} (le : A → A → Bool) where
  pub All-insert_sorted :
      (P : A → Type 0) (x : A) (xs : List A) → P x → All P xs → All P (insert_sorted le x xs)
  unfolding insert_sorted
  All-insert_sorted P x [] h hs = (h, tt)
  All-insert_sorted P x (y ∷ ys) h (k, ks) = elim (Bool-cases (le x y)) [
    | inl e ↦ rw e (h, (k, ks))
    | inr e ↦ rw e (k, All-insert_sorted P x ys h ks)
  ]

  pub All-sort_by : (P : A → Type 0) (xs : List A) → All P xs → All P (sort_by le xs)
  unfolding sort_by
  All-sort_by P [] hs = tt
  All-sort_by P (x ∷ xs) (h, hs) = All-insert_sorted P x (sort_by le xs) h (All-sort_by P xs hs)

  any-insert_sorted :
      (q : A → Bool) (x : A) (xs : List A) → any q (insert_sorted le x xs) ≡ (q x || any q xs)
  unfolding insert_sorted
  any-insert_sorted q x [] = refl
  any-insert_sorted q x (y ∷ ys) = ground (arith, any-insert_sorted q x ys)

  pub any-sort_by : (q : A → Bool) (xs : List A) → any q (sort_by le xs) ≡ any q xs
  unfolding sort_by
  any-sort_by q [] = refl
  any-sort_by q (x ∷ xs) =
      any-insert_sorted q x (sort_by le xs) ∙ ap (λ b. q x || b) (any-sort_by q xs)
