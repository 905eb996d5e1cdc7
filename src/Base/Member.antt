-- ===== src/Base/Member.antt =====
-- Membership in a list, against the Boolean tests that the program's loops make.
use mathlib.Core.Path.{◌≡◌, refl, sym, subst}
use mathlib.Core.Logic.{◌⊎◌, inl, inr}
use mathlib.Core.Bool.{Bool, true}
use mathlib.Core.Option.{some}
use mathlib.Core.List.{List, [], ◌∷◌}
use native.Mathlib.Omega.{arith}
use poc_la_graph.Base.Tests.{Bool-cases}
use poc_la_graph.Base.Lists.{any}
use poc_la_graph.Base.Table.{first, select}

module _ {A : Type 0} where
  abbrev pub Mem : A → List A → Type 0
  Mem x [] = ⊥
  Mem x (y ∷ ys) = (x ≡ y) ⊎ Mem x ys

  -- Some element passes a test.
  pub any-Mem : (p : A → Bool) (xs : List A) → any p xs ≡ true → (x : A) × (Mem x xs × (p x ≡ true))
  any-Mem p [] h = absurd (ground arith)
  any-Mem p (x ∷ xs) h = elim (Bool-cases (p x)) [
    | inl e ↦ (x, (inl refl, e))
    | inr e ↦ let (y, (i, f)) = any-Mem p xs (ground arith) in (y, (inr i, f))
  ]

  pub Mem-any : (p : A → Bool) (xs : List A) (x : A) → Mem x xs → p x ≡ true → any p xs ≡ true
  Mem-any p [] x i h = absurd i
  Mem-any p (y ∷ ys) x (inl e) h = let here = subst (λ z. p z ≡ true) e h in ground arith
  Mem-any p (y ∷ ys) x (inr i) h = let later = Mem-any p ys x i h in ground arith

  -- The selected elements are those that pass the test.
  pub select-Mem :
      (p : A → Bool) (xs : List A) (x : A) → Mem x (select p xs) → Mem x xs × (p x ≡ true)
  unfolding select
  select-Mem p [] x i = absurd i
  select-Mem p (y ∷ ys) x i = elim (Bool-cases (p y)) [
    | inl e ↦ elim (rw e at i) [
      | inl same ↦ (inl same, subst (λ z. p z ≡ true) (sym same) e)
      | inr later ↦ let (j, h) = select-Mem p ys x later in (inr j, h)
    ]
    | inr e ↦ let (j, h) = select-Mem p ys x (rw e at i) in (inr j, h)
  ]

  pub Mem-select :
      (p : A → Bool) (xs : List A) (x : A) → Mem x xs → p x ≡ true → Mem x (select p xs)
  unfolding select
  Mem-select p [] x i h = absurd i
  Mem-select p (y ∷ ys) x (inl same) h = rw (subst (λ z. p z ≡ true) same h) (inl same)
  Mem-select p (y ∷ ys) x (inr i) h = elim (Bool-cases (p y)) [
    | inl e ↦ rw e (inr (Mem-select p ys x i h))
    | inr e ↦ rw e (Mem-select p ys x i h)
  ]

  pub first-Mem : (p : A → Bool) (xs : List A) (x : A) → first p xs ≡ some x → Mem x xs
  unfolding first
  first-Mem p [] x h = absurd (ground arith)
  first-Mem p (y ∷ ys) x h = elim (Bool-cases (p y)) [
    | inl e ↦ inl (ground arith)
    | inr e ↦ inr (first-Mem p ys x (ground arith))
  ]
