-- ===== src/Store/Pages/Sorted.antt =====
-- Rows sorted by `newer` of apps/api/app/store/conversations.py: what is behind a row is what follows
-- it.
use poc_la_graph.Base.{
  ℕ, ◌≡◌, refl, Bool, true, false, if◌then◌else◌, some, List, [], ◌∷◌, ◌++◌, ◌==◌, keep, arith, inl,
  inr, Bool-cases, All,
}
use poc_la_graph.Base.Counts.{All-implied}
use poc_la_graph.Plsql.Order.{insert_sorted, sort_by, All-insert_sorted, All-sort_by}
use poc_la_graph.Store.Exchanges.{newer, behind}

module _ {A : Type 0} where
  All-keep : (P : A → Type 0) (q : A → Bool) (xs : List A) → All P xs → All P (keep q xs)
  All-keep P q [] hs = tt
  All-keep P q (x ∷ xs) (h, hs) = elim (Bool-cases (q x)) [
    | inl e ↦ rw e (h, All-keep P q xs hs)
    | inr e ↦ rw e (All-keep P q xs hs)
  ]

  keep-everything : (q : A → Bool) (xs : List A) → All (λ x. q x ≡ true) xs → keep q xs ≡ xs
  keep-everything q [] hs = refl
  keep-everything q (x ∷ xs) (h, hs) = ground (arith, keep-everything q xs hs)

  All-middle :
      (P : A → Type 0) (before : List A) (x : A) (after : List A)
      → All P (before ++ x ∷ after)
      → P x
  All-middle P [] x after (h, hs) = h
  All-middle P (y ∷ before) x after (h, hs) = All-middle P before x after hs

-- Rows with the time of their last change and their identifier.
module _ {A : Type 0} (key : A → ℕ × ℕ) where
  abbrev pub in_order : A → A → Bool
  in_order x y = newer (key x) (key y)

  abbrev pub follows : A → A → Bool
  follows x y = behind (some (key x)) (key y)

  -- Each row is behind all before it.
  abbrev pub Descending : List A → Type 0
  Descending [] = Unit
  Descending (x ∷ xs) = All (λ y. follows x y ≡ true) xs × Descending xs

  -- No two rows have the same identifier.
  abbrev pub Distinct : List A → Type 0
  Distinct [] = Unit
  Distinct (x ∷ xs) = All (λ y. ((key x).1 == (key y).1) ≡ false) xs × Distinct xs

  pub Distinct-keep : (q : A → Bool) (xs : List A) → Distinct xs → Distinct (keep q xs)
  Distinct-keep q [] hs = tt
  Distinct-keep q (x ∷ xs) (h, hs) = elim (Bool-cases (q x)) [
    | inl e ↦ rw e (All-keep (λ y. ((key x).1 == (key y).1) ≡ false) q xs h, Distinct-keep q xs hs)
    | inr e ↦ rw e (Distinct-keep q xs hs)
  ]

  earlier_than :
      (x y : A) (xs : List A)
      → in_order x y ≡ true
      → All (λ z. follows y z ≡ true) xs
      → All (λ z. in_order x z ≡ true) xs
  unfolding newer behind
  earlier_than x y xs h hs =
      All-implied (λ z. follows y z ≡ true) (λ z. in_order x z ≡ true) (λ z k. ground arith) xs hs

  follows_trans :
      (x y : A) (xs : List A)
      → follows x y ≡ true
      → All (λ z. follows y z ≡ true) xs
      → All (λ z. follows x z ≡ true) xs
  unfolding newer behind
  follows_trans x y xs h hs =
      All-implied (λ z. follows y z ≡ true) (λ z. follows x z ≡ true) (λ z k. ground arith) xs hs

  Descending-insert_sorted :
      (x : A) (xs : List A)
      → All (λ y. ((key x).1 == (key y).1) ≡ false) xs
      → Descending xs
      → Descending (insert_sorted in_order x xs)
  unfolding insert_sorted newer behind
  Descending-insert_sorted x [] ns ds = (tt, tt)
  Descending-insert_sorted x (y ∷ ys) (n, ns) (d, ds) = elim (Bool-cases (in_order x y)) [
    | inl e ↦
        let next : follows x y ≡ true = ground arith in
        rw e ((next, follows_trans x y ys next d), (d, ds))
    | inr e ↦ rw e (
      All-insert_sorted in_order (λ z. follows y z ≡ true) x ys (ground arith) d,
      Descending-insert_sorted x ys ns ds,
    )
  ]

  pub Descending-sort_by : (xs : List A) → Distinct xs → Descending (sort_by in_order xs)
  unfolding sort_by
  Descending-sort_by [] hs = tt
  Descending-sort_by (x ∷ xs) (h, hs) =
      Descending-insert_sorted x (sort_by in_order xs)
        (All-sort_by in_order (λ y. ((key x).1 == (key y).1) ≡ false) xs h)
        (Descending-sort_by xs hs)

  insert_sorted-first :
      (x : A) (xs : List A)
      → All (λ z. in_order x z ≡ true) xs
      → insert_sorted in_order x xs ≡ x ∷ xs
  unfolding insert_sorted
  insert_sorted-first x [] hs = refl
  insert_sorted-first x (y ∷ ys) (h, hs) = ground arith

  keep-insert_sorted :
      (q : A → Bool) (x : A) (xs : List A)
      → Descending xs
      → keep q (insert_sorted in_order x xs)
        ≡ (if q x then insert_sorted in_order x (keep q xs) else keep q xs)
  unfolding insert_sorted
  keep-insert_sorted q x [] ds = ground arith
  keep-insert_sorted q x (y ∷ ys) (d, ds) = elim (Bool-cases (in_order x y)) [
    | inl e ↦
        let first =
          insert_sorted-first x (keep q (y ∷ ys))
            (All-keep (λ z. in_order x z ≡ true) q (y ∷ ys) (e, earlier_than x y ys e d)) in
        ground arith
    | inr e ↦ ground (arith, keep-insert_sorted q x ys ds)
  ]

  -- Sorting and selecting commute.
  pub keep-sort_by :
      (q : A → Bool) (xs : List A)
      → Distinct xs
      → keep q (sort_by in_order xs) ≡ sort_by in_order (keep q xs)
  unfolding sort_by
  keep-sort_by q [] hs = refl
  keep-sort_by q (x ∷ xs) (h, hs) = ground (
    arith,
    keep-insert_sorted q x (sort_by in_order xs) (Descending-sort_by xs hs),
    keep-sort_by q xs hs,
  )

  -- What is behind a row is what follows it.
  pub keep-follows :
      (before : List A) (x : A) (after : List A)
      → Descending (before ++ x ∷ after)
      → keep (follows x) (before ++ x ∷ after) ≡ after
  unfolding behind
  keep-follows [] x after (d, ds) = ground (arith, keep-everything (follows x) after d)
  keep-follows (y ∷ before) x after (d, ds) =
      let ahead = All-middle (λ z. follows y z ≡ true) before x after d in
      ground (arith, keep-follows before x after ds)
