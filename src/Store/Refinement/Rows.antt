-- ===== src/Store/Refinement/Rows.antt =====
-- Rows whose keys increase with their place in the table, as the identifiers of
-- apps/api/app/store/sqlalchemy.py do here: a key names one row.
use poc_la_graph.Base.{
  ℕ, suc, ◌≤◌, ◌<◌, ◌≡◌, refl, sym, ap, ◌∙◌, subst, Bool, true, ◌&&◌, ◌==◌, Option, none, some,
  List, [], ◌∷◌, ◌++◌, if◌then◌else◌, arith, inl, inr, Bool-cases,
}
use poc_la_graph.Base.Table.{first, update, delete, modify_first}
use poc_la_graph.Base.Member.{Mem}

module _ {A : Type 0} (key : A → ℕ) where
  abbrev pub Increasing : ℕ → ℕ → List A → Type 0
  Increasing lo hi [] = lo ≤ hi
  Increasing lo hi (x ∷ xs) = (lo ≤ key x) × Increasing (suc (key x)) hi xs

  pub Increasing-wider :
      (lo lo' hi hi' : ℕ) (xs : List A)
      → lo' ≤ lo
      → hi ≤ hi'
      → Increasing lo hi xs
      → Increasing lo' hi' xs
  Increasing-wider lo lo' hi hi' [] h k i = omega arith
  Increasing-wider lo lo' hi hi' (x ∷ xs) h k (le, i) =
      (omega arith, Increasing-wider (suc (key x)) (suc (key x)) hi hi' xs (omega arith) k i)

  pub Increasing-snoc :
      (lo hi hi' : ℕ) (xs : List A) (x : A)
      → Increasing lo hi xs
      → hi ≤ key x
      → key x < hi'
      → Increasing lo hi' (xs ++ x ∷ [])
  Increasing-snoc lo hi hi' [] x i h k = (omega arith, omega arith)
  Increasing-snoc lo hi hi' (y ∷ ys) x (le, i) h k =
      (le, Increasing-snoc (suc (key y)) hi hi' ys x i h k)

  pub Increasing-delete :
      (p : A → Bool) (lo hi : ℕ) (xs : List A)
      → Increasing lo hi xs
      → Increasing lo hi (delete p xs)
  unfolding delete
  Increasing-delete p lo hi [] i = i
  Increasing-delete p lo hi (x ∷ xs) (le, i) = elim (Bool-cases (p x)) [
    | inl e ↦ rw e (
        Increasing-delete p lo hi xs
          (Increasing-wider (suc (key x)) lo hi hi xs (omega arith) (omega arith) i))
    | inr e ↦ rw e (le, Increasing-delete p (suc (key x)) hi xs i)
  ]

  pub Increasing-modify_first :
      (p : A → Bool) (f : A → A) (lo hi : ℕ)
      → ((x : A) → key (f x) ≡ key x)
      → (xs : List A) → Increasing lo hi xs
      → Increasing lo hi (modify_first p f xs)
  unfolding modify_first
  Increasing-modify_first p f lo hi same [] i = i
  Increasing-modify_first p f lo hi same (x ∷ xs) (le, i) = elim (Bool-cases (p x)) [
    | inl e ↦ rw e (subst (λ k. (lo ≤ k) × Increasing (suc k) hi xs) (sym (same x)) (le, i))
    | inr e ↦ rw e (le, Increasing-modify_first p f (suc (key x)) hi same xs i)
  ]

  -- No later row has the key, whatever else is asked of it.
  pub first_above :
      (p : A → Bool) (k lo hi : ℕ) (xs : List A)
      → ((x : A) → p x ≡ true → key x ≡ k)
      → k < lo
      → Increasing lo hi xs
      → first p xs ≡ none
  unfolding first
  first_above p k lo hi [] h less i = refl
  first_above p k lo hi (x ∷ xs) h less (le, i) = elim (Bool-cases (p x)) [
    | inl e ↦ absurd (omega (arith, h x e))
    | inr e ↦ rw e (first_above p k (suc (key x)) hi xs h (omega arith) i)
  ]

  pub update_above :
      (p : A → Bool) (f : A → A) (k lo hi : ℕ) (xs : List A)
      → ((x : A) → p x ≡ true → key x ≡ k)
      → k < lo
      → Increasing lo hi xs
      → update p f xs ≡ xs
  unfolding update
  update_above p f k lo hi [] h less i = refl
  update_above p f k lo hi (x ∷ xs) h less (le, i) = elim (Bool-cases (p x)) [
    | inl e ↦ absurd (omega (arith, h x e))
    | inr e ↦ rw e (ap (λ l. x ∷ l) (update_above p f k (suc (key x)) hi xs h (omega arith) i))
  ]

  -- A stronger condition on the row of a key.
  pub first-key :
      (p : A → Bool) (k lo hi : ℕ) (xs : List A)
      → Increasing lo hi xs
      → first (λ x. key x == k && p x) xs ≡ elim (first (λ x. key x == k) xs) as (λ _. Option A) [
        | none ↦ none
        | some x ↦ if p x then some x else none
      ]
  unfolding first
  first-key p k lo hi [] i = refl
  first-key p k lo hi (x ∷ xs) (le, i) = elim (Bool-cases (key x == k)) [
    | inl e ↦ ground (
      arith,
      first_above (λ y. key y == k && p y) k (suc (key x)) hi xs (λ y h. ground arith)
          (ground arith) i,
    )
    | inr e ↦ ground (arith, first-key p k (suc (key x)) hi xs i)
  ]

  -- An update of the one row of a key that satisfies its condition.
  pub update-key :
      (p : A → Bool) (f : A → A) (k lo hi : ℕ) (xs : List A) (x : A)
      → Increasing lo hi xs
      → first (λ y. key y == k) xs ≡ some x
      → p x ≡ true
      → update (λ y. key y == k && p y) f xs ≡ modify_first (λ y. key y == k) f xs
  unfolding first update modify_first
  update-key p f k lo hi [] x i found h = absurd (ground arith)
  update-key p f k lo hi (y ∷ ys) x (le, i) found h = elim (Bool-cases (key y == k)) [
    | inl e ↦ ground (
      arith,
      update_above (λ z. key z == k && p z) f k (suc (key y)) hi ys (λ z q. ground arith)
          (ground arith) i,
    )
    | inr e ↦ ground (arith, update-key p f k (suc (key y)) hi ys x i)
  ]

module _ {A : Type 0} where
  pub Mem-above :
      (key : A → ℕ) (lo hi : ℕ) (xs : List A) (x : A)
      → Increasing key lo hi xs
      → Mem x xs
      → lo ≤ key x
  Mem-above key lo hi [] x i m = absurd m
  Mem-above key lo hi (y ∷ ys) x (le, i) (inl e) = omega (arith, ap key e)
  Mem-above key lo hi (y ∷ ys) x (le, i) (inr m) =
      omega (arith, Mem-above key (suc (key y)) hi ys x i m)

  -- Rows of one key are one row.
  pub Mem-key :
      (key : A → ℕ) (lo hi : ℕ) (xs : List A) (x y : A)
      → Increasing key lo hi xs
      → Mem x xs
      → Mem y xs
      → key x ≡ key y
      → x ≡ y
  Mem-key key lo hi [] x y i m n e = absurd m
  Mem-key key lo hi (z ∷ zs) x y (le, i) (inl a) (inl b) e = a ∙ sym b
  Mem-key key lo hi (z ∷ zs) x y (le, i) (inl a) (inr n) e =
      absurd (omega (arith, ap key a, Mem-above key (suc (key z)) hi zs y i n))
  Mem-key key lo hi (z ∷ zs) x y (le, i) (inr m) (inl b) e =
      absurd (omega (arith, ap key b, Mem-above key (suc (key z)) hi zs x i m))
  Mem-key key lo hi (z ∷ zs) x y (le, i) (inr m) (inr n) e =
      Mem-key key (suc (key z)) hi zs x y i m n e
