-- ===== src/Store/Refinement/Answered.antt =====
-- The exchanges of rows and of the messages that are read from them
-- (apps/api/app/store/conversations.py and apps/api/app/store/sqlalchemy.py).
use poc_la_graph.Base.{
  ℕ, zero, suc, ◌≡◌, refl, ap, subst, Bool, true, false, not, ◌&&◌, ◌==◌, Option, none, some, List,
  [], ◌∷◌, map, take, keep, any, arith, inl, inr, Bool-cases, All,
}
use poc_la_graph.Base.Table.{select, delete}
use poc_la_graph.Store.Models.{Message}
use poc_la_graph.Store.Exchanges.{exchanges, is_user, is_completed}
use poc_la_graph.Store.Tables.{MessageRow, message_model}
use poc_la_graph.Base.Member.{Mem}

abbrev pub elements : {A : Type 0} → List (A × A) → List A
elements [] = []
elements ((x, y) ∷ rest) = x ∷ y ∷ elements rest

abbrev pub pair_map : {A B : Type 0} → (A → B) → A × A → B × B
pair_map f (x, y) = (f x, f y)

abbrev pub option_map : {A B : Type 0} → (A → B) → Option A → Option B
option_map f none = none
option_map f (some x) = some (f x)

unfoldable pub row_exchanges : Option MessageRow → List MessageRow → List (MessageRow × MessageRow)
row_exchanges = exchanges (λ (m : MessageRow). m.role) (λ (m : MessageRow). m.status)

-- The exchanges of the rows are those of their messages.
pub exchanges-map :
    (pending : Option MessageRow) (rows : List MessageRow)
    → exchanges
        (λ (m : Message). m.role)
        (λ (m : Message). m.status)
        (option_map message_model pending)
        (map message_model rows)
      ≡ map (pair_map message_model) (row_exchanges pending rows)
unfolding row_exchanges exchanges message_model
exchanges-map none [] = refl
exchanges-map (some p) [] = refl
exchanges-map none (m ∷ ms) = elim (Bool-cases (is_completed m.status && is_user m.role)) [
  | inl e ↦ rw e (exchanges-map (some m) ms)
  | inr e ↦ rw e (exchanges-map none ms)
]
exchanges-map (some p) (m ∷ ms) = elim (Bool-cases (is_completed m.status)) [
  | inl e ↦ elim (Bool-cases (is_user m.role)) [
    | inl f ↦ ground (arith, exchanges-map (some m) ms)
    | inr f ↦ ground (arith, exchanges-map none ms)
  ]
  | inr e ↦ ground (arith, exchanges-map (some p) ms)
]

pub All-exchanges :
    (P : MessageRow → Type 0) (pending : Option MessageRow) (rows : List MessageRow)
    → ((p : MessageRow) → pending ≡ some p → P p)
    → All P rows
    → All P (elements (row_exchanges pending rows))
unfolding row_exchanges exchanges
All-exchanges P none [] h ps = tt
All-exchanges P (some p) [] h ps = tt
All-exchanges P none (m ∷ ms) h (pm, ps) =
    elim (Bool-cases (is_completed m.status && is_user m.role)) [
      | inl e ↦ rw e (All-exchanges P (some m) ms (λ q f. subst P (ground arith) pm) ps)
      | inr e ↦ rw e (All-exchanges P none ms (λ q f. absurd (ground arith)) ps)
    ]
All-exchanges P (some p) (m ∷ ms) h (pm, ps) = elim (Bool-cases (is_completed m.status)) [
  | inl e ↦ elim (Bool-cases (is_user m.role)) [
    | inl f ↦ rw (e, f) (All-exchanges P (some m) ms (λ q g. subst P (ground arith) pm) ps)
    | inr f ↦ rw (e, f) (h p refl, (pm, All-exchanges P none ms (λ q g. absurd (ground arith)) ps))
  ]
  | inr e ↦ rw e (All-exchanges P (some p) ms h ps)
]

pub All-take :
    (P : MessageRow → Type 0) (n : ℕ) (ps : List (MessageRow × MessageRow))
    → All P (elements ps)
    → All P (elements (take n ps))
All-take P zero ps h = tt
All-take P (suc n) [] h = tt
All-take P (suc n) ((x, y) ∷ ps) (px, (py, h)) = (px, (py, All-take P n ps h))

pub take-map :
    {A B : Type 0} (f : A → B) (n : ℕ) (xs : List A) → take n (map f xs) ≡ map f (take n xs)
take-map f zero xs = refl
take-map f (suc n) [] = refl
take-map f (suc n) (x ∷ xs) = ap (λ l. f x ∷ l) (take-map f n xs)

pub Mem-All : {A : Type 0} (P : A → Type 0) (xs : List A) → ((x : A) → Mem x xs → P x) → All P xs
Mem-All P [] h = tt
Mem-All P (x ∷ xs) h = (h x (inl refl), Mem-All P xs (λ y i. h y (inr i)))

pub All-select_holds :
    (P : MessageRow → Type 0) (q : MessageRow → Bool) (xs : List MessageRow)
    → All P xs
    → All (λ x. P x × (q x ≡ true)) (select q xs)
unfolding select
All-select_holds P q [] ps = tt
All-select_holds P q (x ∷ xs) (px, ps) = elim (Bool-cases (q x)) [
  | inl e ↦ rw e ((px, e), All-select_holds P q xs ps)
  | inr e ↦ rw e (All-select_holds P q xs ps)
]

-- Rows are removed that are none of the selected ones.
pub select-delete_members :
    (q p : MessageRow → Bool) (xs : List MessageRow)
    → All (λ x. p x ≡ true → q x ≡ false) xs
    → select q (delete p xs) ≡ select q xs
unfolding select delete
select-delete_members q p [] hs = refl
select-delete_members q p (x ∷ xs) (h, hs) = ground (arith, select-delete_members q p xs hs)

-- The messages that are kept are those of the rows that are kept.
pub keep-map :
    (ids : List ℕ) (p : MessageRow → Bool) (xs : List MessageRow)
    → All (λ (x : MessageRow). p x ≡ any (λ i. i == x.id) ids) xs
    → keep (λ (m : Message). not (any (λ i. i == m.id) ids)) (map message_model xs)
      ≡ map message_model (delete p xs)
unfolding delete message_model
keep-map ids p [] hs = refl
keep-map ids p (x ∷ xs) (h, hs) = ground (arith, keep-map ids p xs hs)
