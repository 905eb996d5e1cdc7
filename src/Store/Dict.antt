-- ===== src/Store/Dict.antt =====
-- Dictionaries with numbers as keys, in the order of insertion, as
-- apps/api/app/store/conversations.py keeps them.
use poc_la_graph.Base.{ℕ, ◌≡◌, refl, Option, none, some, List, [], ◌∷◌, ◌==◌, if◌then◌else◌, arith}

module _ {A : Type 0} where
  -- `d.get(key)`
  unfoldable pub get_item : ℕ → List (ℕ × A) → Option A
  get_item key [] = none
  get_item key ((k, x) ∷ rest) = if k == key then some x else get_item key rest

  -- `d[key] = value`
  unfoldable pub set_item : ℕ → A → List (ℕ × A) → List (ℕ × A)
  set_item key value [] = (key, value) ∷ []
  set_item key value ((k, x) ∷ rest) =
      if k == key then (key, value) ∷ rest else (k, x) ∷ set_item key value rest

  -- `d.pop(key, None)`
  unfoldable pub pop_item : ℕ → List (ℕ × A) → List (ℕ × A)
  pop_item key [] = []
  pop_item key ((k, x) ∷ rest) =
      let later = pop_item key rest in if k == key then later else (k, x) ∷ later

  -- A change of the object that a key holds.
  unfoldable pub change_item : ℕ → (A → A) → List (ℕ × A) → List (ℕ × A)
  change_item key f [] = []
  change_item key f ((k, x) ∷ rest) =
      if k == key then (k, f x) ∷ rest else (k, x) ∷ change_item key f rest

  pub get_item-set_item :
      (j k : ℕ) (v : A) (d : List (ℕ × A))
      → get_item j (set_item k v d) ≡ (if k == j then some v else get_item j d)
  unfolding get_item set_item
  get_item-set_item j k v [] = refl
  get_item-set_item j k v ((i, x) ∷ d) = ground (arith, get_item-set_item j k v d)

  pub get_item-pop_item :
      (j k : ℕ) (d : List (ℕ × A))
      → get_item j (pop_item k d) ≡ (if k == j then none else get_item j d)
  unfolding get_item pop_item
  get_item-pop_item j k [] = ground arith
  get_item-pop_item j k ((i, x) ∷ d) = ground (arith, get_item-pop_item j k d)
