-- ===== src/Store/Held.antt =====
-- A conversation that a request holds, and what leaves it held
-- (apps/api/app/store/conversations.py).
use poc_la_graph.Base.{
  ℕ, suc, ◌<◌, ◌≡◌, refl, Bool, true, false, not, ◌&&◌, ◌||◌, ◌==◌, none, some, is_some, any, List,
  [], ◌∷◌, Option-cases, Bool-cases, inl, inr, arith,
}
use poc_la_graph.Store.Models.{Conversation, Response, Settings}
use poc_la_graph.Store.Dict.{
  get_item, set_item, pop_item, change_item, get_item-set_item, get_item-pop_item,
}
use poc_la_graph.Store.Memory.{
  Memory, owned, live_lease, change, forget, forget_all, keys_where, with_owned, unless_leased,
}
pub mod Calls

-- An archived conversation under the key.
abbrev pub archived_under : ℕ → ℕ × Conversation → Bool
archived_under id x = x.0 == id && is_some x.1.archived_at

archived-change_item :
    (id k : ℕ) (f : Conversation → Conversation) (d : List (ℕ × Conversation))
    → ((k == id) ≡ true
        → (c : Conversation) → is_some c.archived_at ≡ false
        → is_some (f c).archived_at ≡ false)
    → any (archived_under id) d ≡ false
    → any (archived_under id) (change_item k f d) ≡ false
unfolding change_item
archived-change_item id k f [] keeps h = refl
archived-change_item id k f ((i, c) ∷ d) keeps h = elim (Bool-cases (i == k)) [
  | inl e ↦ elim (Bool-cases (i == id)) [
    | inl same ↦ let changed = keeps (ground arith) c (ground arith) in ground arith
    | inr other ↦ ground arith
  ]
  | inr e ↦ ground (arith, archived-change_item id k f d keeps)
]

there-change_item :
    (id k : ℕ) (f : Conversation → Conversation) (d : List (ℕ × Conversation))
    → is_some (get_item id (change_item k f d)) ≡ is_some (get_item id d)
unfolding get_item change_item
there-change_item id k f [] = refl
there-change_item id k f ((i, c) ∷ d) = ground (arith, there-change_item id k f d)

pub archived-set_item :
    (id k : ℕ) (c : Conversation) (d : List (ℕ × Conversation))
    → (k == id) ≡ false
    → any (archived_under id) d ≡ false
    → any (archived_under id) (set_item k c d) ≡ false
unfolding set_item
archived-set_item id k c [] other h = ground arith
archived-set_item id k c ((i, x) ∷ d) other h = ground (arith, archived-set_item id k c d other)

archived-pop_item :
    (id k : ℕ) (d : List (ℕ × Conversation))
    → any (archived_under id) d ≡ false
    → any (archived_under id) (pop_item k d) ≡ false
unfolding pop_item
archived-pop_item id k [] h = refl
archived-pop_item id k ((i, x) ∷ d) h = ground (arith, archived-pop_item id k d)

pub archived-get_item :
    (id : ℕ) (d : List (ℕ × Conversation)) (c : Conversation)
    → any (archived_under id) d ≡ false
    → get_item id d ≡ some c
    → is_some c.archived_at ≡ false
unfolding get_item
archived-get_item id [] c h e = absurd (ground arith)
archived-get_item id ((i, x) ∷ d) c h e = ground (arith, archived-get_item id d c)

-- The request holds the conversation, which is the owner's and not archived, until the given time.
pub record IsHeld (id request o expires : ℕ) (m : Memory) : Type 0 where
  pub lease : get_item id m.leases ≡ some (request, expires)
  pub owner : get_item id m.owners ≡ some o
  pub there : is_some (get_item id m.items) ≡ true
  pub opened : any (archived_under id) m.items ≡ false
  pub used : id < m.supply

module _ (settings : Settings) (id request o expires now : ℕ) where
  pub IsHeld-live_lease :
      (m : Memory)
      → IsHeld id request o expires m
      → now < expires
      → live_lease id now m ≡ some request
  unfolding live_lease
  IsHeld-live_lease m k live = ground (arith, k.lease)

  pub change-IsHeld :
      (m : Memory) (k : ℕ) (f : Conversation → Conversation)
      → ((k == id) ≡ true
          → (c : Conversation) → is_some c.archived_at ≡ false
          → is_some (f c).archived_at ≡ false)
      → IsHeld id request o expires m
      → IsHeld id request o expires (change k f m)
  unfolding change
  change-IsHeld m k f keeps h = record {
    lease = h.lease;
    owner = h.owner;
    there = ground (arith, there-change_item id k f m.items, h.there);
    opened = archived-change_item id k f m.items keeps h.opened;
    used = h.used;
  }

  pub forget-IsHeld :
      (m : Memory) (k : ℕ)
      → (k == id) ≡ false
      → IsHeld id request o expires m
      → IsHeld id request o expires (forget k m)
  unfolding forget
  forget-IsHeld m k other h = record {
    lease = ground (arith, get_item-pop_item id k m.leases, h.lease);
    owner = ground (arith, get_item-pop_item id k m.owners, h.owner);
    there = ground (arith, get_item-pop_item id k m.items, h.there);
    opened = archived-pop_item id k m.items h.opened;
    used = h.used;
  }

  pub forget_all-IsHeld :
      (ks : List ℕ) (m : Memory)
      → any (λ k. k == id) ks ≡ false
      → IsHeld id request o expires m
      → IsHeld id request o expires (forget_all ks m)
  unfolding forget_all
  forget_all-IsHeld [] m others h = h
  forget_all-IsHeld (k ∷ ks) m others h =
      forget_all-IsHeld ks (forget k m) (ground arith) (forget-IsHeld m k (ground arith) h)

  -- A test that only archived conversations pass does not select it.
  pub keys_where-others :
      (p : Conversation → Bool) (d : List (ℕ × Conversation))
      → ((c : Conversation) → is_some c.archived_at ≡ false → p c ≡ false)
      → any (archived_under id) d ≡ false
      → any (λ k. k == id) (keys_where p d) ≡ false
  unfolding keys_where
  keys_where-others p [] archived h = refl
  keys_where-others p ((i, c) ∷ d) archived h = elim (Bool-cases (i == id)) [
    | inl same ↦
        let not_archived : is_some c.archived_at ≡ false = ground arith in
        ground (arith, archived c not_archived, keys_where-others p d archived)
    | inr other ↦ ground (arith, keys_where-others p d archived)
  ]

  pub with_owned-IsHeld :
      (active_only : Bool) (k created_by : ℕ) (f : Conversation → Memory × Response) (m : Memory)
      → IsHeld id request o expires m
      → ((c : Conversation) → IsHeld id request o expires (f c).0)
      → IsHeld id request o expires (with_owned settings now active_only k created_by f m).0
  unfolding with_owned
  with_owned-IsHeld active_only k created_by f m h each =
      elim (Option-cases (owned active_only k created_by m)) [
        | inl e ↦ rw (e, with_owned) h
        | inr (c, e) ↦ rw (e, with_owned) (each c)
      ]

  -- What a live lease forbids does not concern this conversation.
  pub unless_leased-IsHeld :
      (k : ℕ) (m : Memory) (result : Memory × Response)
      → now < expires
      → IsHeld id request o expires m
      → ((k == id) ≡ false → IsHeld id request o expires result.0)
      → IsHeld id request o expires (unless_leased settings now k m result).0
  unfolding unless_leased
  unless_leased-IsHeld k m result live h other = elim (Bool-cases (k == id)) [
    | inl same ↦
        let held : live_lease k now m ≡ some request = ground (arith, IsHeld-live_lease m h live) in
        rw (held, unless_leased) h
    | inr apart ↦ elim (Option-cases (live_lease k now m)) [
      | inl e ↦ rw (e, unless_leased) (other apart)
      | inr (r, e) ↦ rw (e, unless_leased) h
    ]
  ]
