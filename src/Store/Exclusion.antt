-- ===== src/Store/Exclusion.antt =====
-- What a live lease keeps other requests from (`acquire_request`, `_reject_lease` of
-- apps/api/app/store/conversations.py).
use poc_la_graph.Base.{
  ℕ, ◌+◌, ◌<◌, ◌≡◌, true, false, ◌==◌, some, is_some, any, List, [], ◌∷◌, All, arith, inl, inr,
  Option-cases,
}
use poc_la_graph.Knowledge.Text.{Text}
use poc_la_graph.Store.Models.{Conversation, Request, Response, Settings}
use poc_la_graph.Store.Dict.{get_item, set_item, get_item-set_item}
use poc_la_graph.Store.Memory
use poc_la_graph.Store.Memory.{Memory, owner_is, owned, live_lease, is_expired}
use poc_la_graph.Store.Held.{archived_under, IsHeld}
use poc_la_graph.Store.Held.Calls.{
  leaves_lease, after_calls, IsRefused, perform-IsHeld, IsHeld-IsRefused,
}

after_calls-IsHeld :
    (settings : Settings) (id request o expires : ℕ) (calls : List (ℕ × Request)) (m : Memory)
    → IsHeld id request o expires m
    → All (λ (c : ℕ × Request). (c.0 < expires) × (leaves_lease id request c.1 ≡ true)) calls
    → IsHeld id request o expires (after_calls settings calls m)
unfolding after_calls
after_calls-IsHeld settings id request o expires [] m h each = h
after_calls-IsHeld settings id request o expires ((now, call) ∷ rest) m h ((live, leaves), later) =
    after_calls-IsHeld settings id request o expires rest (Memory.perform settings now call m).0
      (perform-IsHeld settings id request o expires now m h live call leaves) later

-- What the owner has is under the owner's name.
owned_lem :
    (id o : ℕ) (m : Memory) (c : Conversation)
    → owned true id o m ≡ some c
    → (get_item id m.owners ≡ some o) × (is_some (get_item id m.items) ≡ true)
unfolding owned owner_is
owned_lem id o m c own = elim (Option-cases (get_item id m.items)) [
  | inl missing ↦ absurd (ground arith)
  | inr (x, found) ↦ elim (Option-cases (get_item id m.owners)) [
    | inl nobody ↦ absurd (ground arith)
    | inr (owner, known) ↦ (ground arith, ground arith)
  ]
]

module _ (settings : Settings) (id request o : ℕ) (m : Memory) (c : Conversation) (t : ℕ)
    (own : owned true id o m ≡ some c)
    (done : (Memory.acquire_request settings t id request o m).1 ≡ Response.nothing)
    (opened : any (archived_under id) m.items ≡ false) (used : id < m.supply) where
  taken : Memory
  taken = record m { leases = set_item id (request, t + settings.lease_seconds) m.leases }

  acquired : (Memory.acquire_request settings t id request o m).0 ≡ taken
  unfolding Memory.acquire_request Memory.with_owned taken
  acquired = elim (Option-cases (get_item id m.leases)) [
    | inl e ↦ ground arith
    | inr ((holder, expires), e) ↦ ground arith
  ]

  -- A conversation that is open to its owner becomes held by the request that acquires it.
  taken-IsHeld : IsHeld id request o (t + settings.lease_seconds) taken
  unfolding taken
  taken-IsHeld = record {
    lease = ground (arith, get_item-set_item id id (request, t + settings.lease_seconds) m.leases);
    owner = (owned_lem id o m c own).0;
    there = (owned_lem id o m c own).1;
    opened = opened;
    used = used;
  }

  -- Once a request has acquired an open conversation for its owner, then until the lease expires,
  -- whatever calls are made in between that are neither the request's own renewal or release nor the
  -- deletion of a project, the request has the lease, and any other request of the owner for the
  -- conversation is refused with a conflict that names the holder, and so are its renaming and its
  -- archiving; what is refused changes nothing. The identifier was given out, and no archived
  -- conversation has it.
  pub lease-excludes :
      (calls : List (ℕ × Request)) (t' other : ℕ) (name : Text)
      → All
          (λ (call : ℕ × Request).
            (call.0 < t + settings.lease_seconds) × (leaves_lease id request call.1 ≡ true))
          calls
      → t' < t + settings.lease_seconds
      → (request == other) ≡ false
      → IsRefused settings id request o t' other name
          (after_calls settings calls (Memory.acquire_request settings t id request o m).0)
  lease-excludes calls t' other name each live differs = rw acquired (
      IsHeld-IsRefused settings id request o (t + settings.lease_seconds) t' _
        (after_calls-IsHeld settings id request o (t + settings.lease_seconds) calls taken
          taken-IsHeld each)
        live other name differs)
