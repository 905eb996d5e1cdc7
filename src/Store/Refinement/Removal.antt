-- ===== src/Store/Refinement/Removal.antt =====
-- Rows taken out of a table and keys out of a dictionary (apps/api/app/store).
use poc_la_graph.Base.{
  ℕ, suc, ◌≤◌, ◌<◌, ◌≡◌, refl, sym, ap, ◌∙◌, Bool, false, ◌&&◌, ◌||◌, ◌==◌, Option, none, some,
  List, [], ◌∷◌, if◌then◌else◌, arith, inl, inr, Bool-cases, All, any,
}
use poc_la_graph.Base.Table.{first, select, delete}
use poc_la_graph.Base.Counts.{All-implied}
use poc_la_graph.Store.Dict.{get_item, pop_item, get_item-pop_item}
use poc_la_graph.Store.Memory.{Memory, forget, forget_all}
use poc_la_graph.Store.Tables.{ConversationRow, MessageRow, has_id}
use poc_la_graph.Store.Refinement.Rows.{Increasing, first_above, Increasing-delete}
use poc_la_graph.Store.Refinement.Relation.{entries}

abbrev pub in_ids : ℕ → List ℕ → Bool
in_ids k [] = false
in_ids k (i ∷ ids) = k == i || in_ids k ids

pub pop_all : {A : Type 0} → List ℕ → List (ℕ × A) → List (ℕ × A)
pop_all [] d = d
pop_all (i ∷ ids) d = pop_all ids (pop_item i d)

pub get_item-pop_all :
    {A : Type 0} (k : ℕ) (ids : List ℕ) (d : List (ℕ × A))
    → get_item k (pop_all ids d) ≡ (if in_ids k ids then none else get_item k d)
unfolding pop_all
get_item-pop_all k [] d = refl
get_item-pop_all k (i ∷ ids) d =
    ground (arith, get_item-pop_all k ids (pop_item i d), get_item-pop_item k i d)

pub forget_all_fields :
    (ids : List ℕ) (m : Memory)
    → forget_all ids m ≡ record m {
      items = pop_all ids m.items;
      leases = pop_all ids m.leases;
      versions = pop_all ids m.versions;
      owners = pop_all ids m.owners;
    }
unfolding forget_all forget pop_all
forget_all_fields [] m = refl
forget_all_fields (i ∷ ids) m = forget_all_fields ids (forget i m)

-- The row of an identifier, if it is one of the given ones.
abbrev pub row_test : (ConversationRow → Bool) → Option ConversationRow → Bool
row_test p none = false
row_test p (some r) = p r

module _ {A : Type 0} where
  delete-delete :
      (p q : A → Bool) (xs : List A) → delete q (delete p xs) ≡ delete (λ x. p x || q x) xs
  unfolding delete
  delete-delete p q [] = refl
  delete-delete p q (x ∷ xs) = ground (arith, delete-delete p q xs)

  pub select-delete :
      (q p : A → Bool) (xs : List A) → select q (delete p xs) ≡ delete p (select q xs)
  unfolding select delete
  select-delete q p [] = refl
  select-delete q p (x ∷ xs) = elim (Bool-cases (p x)) [
    | inl e ↦ elim (Bool-cases (q x)) [
      | inl f ↦ ground (arith, select-delete q p xs)
      | inr f ↦ ground (arith, select-delete q p xs)
    ]
    | inr e ↦ elim (Bool-cases (q x)) [
      | inl f ↦ ground (arith, select-delete q p xs)
      | inr f ↦ ground (arith, select-delete q p xs)
    ]
  ]

  pub All-delete : (P : A → Type 0) (p : A → Bool) (xs : List A) → All P xs → All P (delete p xs)
  unfolding delete
  All-delete P p [] ps = tt
  All-delete P p (x ∷ xs) (px, ps) = elim (Bool-cases (p x)) [
    | inl e ↦ rw e (All-delete P p xs ps)
    | inr e ↦ rw e (px, All-delete P p xs ps)
  ]

  pub delete-same :
      (p q : A → Bool) (xs : List A) → All (λ x. p x ≡ q x) xs → delete p xs ≡ delete q xs
  unfolding delete
  delete-same p q [] ps = refl
  delete-same p q (x ∷ xs) (px, ps) = ground (arith, delete-same p q xs ps)

  pub All-deleted : (p : A → Bool) (xs : List A) → All (λ x. p x ≡ false) (delete p xs)
  unfolding delete
  All-deleted p [] = tt
  All-deleted p (x ∷ xs) = elim (Bool-cases (p x)) [
    | inl e ↦ rw e (All-deleted p xs)
    | inr e ↦ rw e (e, All-deleted p xs)
  ]

pop_item-entries :
    (messages : List MessageRow) (i : ℕ) (rows : List ConversationRow)
    → pop_item i (entries messages rows) ≡ entries messages (delete (has_id i) rows)
unfolding pop_item entries delete
pop_item-entries messages i [] = refl
pop_item-entries messages i (r ∷ rs) = ground (arith, pop_item-entries messages i rs)

delete_none : (xs : List ConversationRow) → delete (λ (r : ConversationRow). false) xs ≡ xs
unfolding delete
delete_none [] = refl
delete_none (x ∷ xs) = ap (λ l. x ∷ l) (delete_none xs)

pub pop_all-entries :
    (messages : List MessageRow) (ids : List ℕ) (rows : List ConversationRow)
    → pop_all ids (entries messages rows)
      ≡ entries messages (delete (λ (r : ConversationRow). in_ids r.id ids) rows)
unfolding pop_all
pop_all-entries messages [] rows = ap (entries messages) (sym (delete_none rows))
pop_all-entries messages (i ∷ ids) rows =
    ap (pop_all ids) (pop_item-entries messages i rows)
    ∙ pop_all-entries messages ids (delete (has_id i) rows)
    ∙ ap (entries messages)
        (delete-delete (has_id i) (λ (r : ConversationRow). in_ids r.id ids) rows)

at_least :
    (lo hi : ℕ) (rows : List ConversationRow)
    → Increasing (λ (r : ConversationRow). r.id) lo hi rows
    → All (λ (r : ConversationRow). lo ≤ r.id) rows
at_least lo hi [] i = tt
at_least lo hi (r ∷ rs) (le, i) = (
  le,
  All-implied (λ (x : ConversationRow). suc r.id ≤ x.id) (λ (x : ConversationRow). lo ≤ x.id)
      (λ x h. omega arith) rs (at_least (suc r.id) hi rs i),
)

pub All-both :
    (P Q : ConversationRow → Type 0) (xs : List ConversationRow)
    → All P xs
    → All Q xs
    → All (λ x. P x × Q x) xs
All-both P Q [] ps qs = tt
All-both P Q (x ∷ xs) (p, ps) (q, qs) = ((p, q), All-both P Q xs ps qs)

first_behind :
    (r x : ConversationRow) (rs : List ConversationRow)
    → suc r.id ≤ x.id
    → first (has_id x.id) rs ≡ some x
    → first (has_id x.id) (r ∷ rs) ≡ some x
unfolding first
first_behind r x rs h e = ground arith

first_here :
    (r : ConversationRow) (rs : List ConversationRow) → first (has_id r.id) (r ∷ rs) ≡ some r
unfolding first
first_here r rs = ground arith

-- Each row is the one that its identifier names.
pub self_first :
    (lo hi : ℕ) (rows : List ConversationRow)
    → Increasing (λ (r : ConversationRow). r.id) lo hi rows
    → All (λ (r : ConversationRow). first (has_id r.id) rows ≡ some r) rows
self_first lo hi [] i = tt
self_first lo hi (r ∷ rs) (le, i) = (
  first_here r rs,
  All-implied (λ (x : ConversationRow). (suc r.id ≤ x.id) × (first (has_id x.id) rs ≡ some x))
      (λ (x : ConversationRow). first (has_id x.id) (r ∷ rs) ≡ some x)
      (λ x h. first_behind r x rs h.0 h.1) rs
      (All-both (λ (x : ConversationRow). suc r.id ≤ x.id)
        (λ (x : ConversationRow). first (has_id x.id) rs ≡ some x) rs (at_least (suc r.id) hi rs i)
        (self_first (suc r.id) hi rs i)),
)

pub first-delete_id :
    (p : ConversationRow → Bool) (k lo hi : ℕ) (rows : List ConversationRow)
    → Increasing (λ (r : ConversationRow). r.id) lo hi rows
    → first (has_id k) (delete p rows)
      ≡ elim (first (has_id k) rows) as (λ _. Option ConversationRow) [
        | none ↦ none
        | some r ↦ if p r then none else some r
      ]
unfolding first delete
first-delete_id p k lo hi [] i = refl
first-delete_id p k lo hi (r ∷ rs) (le, i) = elim (Bool-cases (r.id == k)) [
  | inl e ↦ elim (Bool-cases (p r)) [
    | inl f ↦ ground (
      arith,
      first_above (λ (x : ConversationRow). x.id) (has_id k) k (suc r.id) hi (delete p rs)
          (λ x h. ground arith) (ground arith)
          (Increasing-delete (λ (x : ConversationRow). x.id) p (suc r.id) hi rs i),
    )
    | inr f ↦ ground arith
  ]
  | inr e ↦ ground (arith, first-delete_id p k (suc r.id) hi rs i)
]

any_above :
    (p : ConversationRow → Bool) (k lo hi : ℕ) (rows : List ConversationRow)
    → k < lo
    → Increasing (λ (r : ConversationRow). r.id) lo hi rows
    → any (λ (r : ConversationRow). p r && r.id == k) rows ≡ false
any_above p k lo hi [] h i = refl
any_above p k lo hi (r ∷ rs) h (le, i) =
    ground (arith, any_above p k (suc r.id) hi rs (omega arith) i)

pub any-first :
    (p : ConversationRow → Bool) (k lo hi : ℕ) (rows : List ConversationRow)
    → Increasing (λ (r : ConversationRow). r.id) lo hi rows
    → any (λ (r : ConversationRow). p r && r.id == k) rows ≡ row_test p (first (has_id k) rows)
unfolding first
any-first p k lo hi [] i = refl
any-first p k lo hi (r ∷ rs) (le, i) = elim (Bool-cases (r.id == k)) [
  | inl e ↦ ground (arith, any_above p k (suc r.id) hi rs (ground arith) i)
  | inr e ↦ ground (arith, any-first p k (suc r.id) hi rs i)
]
