-- ===== src/Store/Held/Calls.antt =====
-- The calls of the store in memory leave a held conversation held
-- (apps/api/app/store/conversations.py).
use poc_la_graph.Base.{
  ℕ, ◌+◌, ◌<◌, ◌≡◌, ◌∙◌, ltb, Bool, true, false, not, ◌&&◌, ◌==◌, some, is_some, Option, List, [],
  ◌∷◌, arith, inl, inr, Option-cases, Bool-cases,
}
use poc_la_graph.Knowledge.Text.{Text}
use poc_la_graph.Store.Models.{
  Role, assistant, Status, Conversation, Request, Response, Error, Settings,
}
use poc_la_graph.Store.Dict.{get_item, set_item, pop_item, get_item-set_item, get_item-pop_item}
use poc_la_graph.Store.Memory
use poc_la_graph.Store.Memory.{Memory, owner_is, owned, live_lease, is_expired}
use poc_la_graph.Store.Held.{
  archived-set_item, archived-get_item, IsHeld, IsHeld-live_lease, change-IsHeld, forget-IsHeld,
  forget_all-IsHeld, keys_where-others, with_owned-IsHeld, unless_leased-IsHeld,
}

-- The calls that may end the lease are left out: the holder's own renewal and release, and the
-- deletion of projects.
unfoldable pub leaves_lease : ℕ → ℕ → Request → Bool
leaves_lease id request (Request.acquire_request k r created_by) = not (k == id && r == request)
leaves_lease id request (Request.release_request k r created_by) = not (k == id && r == request)
leaves_lease id request (Request.delete_project project) = false
leaves_lease id request _ = true

-- The store after calls at the given times.
unfoldable pub after_calls : Settings → List (ℕ × Request) → Memory → Memory
after_calls settings [] m = m
after_calls settings ((now, call) ∷ rest) m =
    after_calls settings rest (Memory.perform settings now call m).0

-- Another request of the owner is refused with a conflict that names the holder, and so are the
-- renaming and the archiving; the stores are as they were, and the lease is the holder's.
abbrev pub IsRefused : Settings → ℕ → ℕ → ℕ → ℕ → ℕ → Text → Memory → Type 0
IsRefused settings id request o now other name m =
    (Memory.acquire_request settings now id other o m
      ≡ (m, Response.raised (Error.request_conflict id request)))
    × ((Memory.rename settings now id name o m
          ≡ (m, Response.raised (Error.request_conflict id request)))
        × ((Memory.archive settings now id o m
              ≡ (m, Response.raised (Error.request_conflict id request)))
            × (live_lease id now m ≡ some request)))

module _ (settings : Settings) (id request o expires now : ℕ) (m : Memory)
    (h : IsHeld id request o expires m) (live : now < expires) where
  unchanged : (c : Conversation) → is_some c.archived_at ≡ false → is_some c.archived_at ≡ false
  unchanged c e = e

  not_expired :
      (c : Conversation)
      → is_some c.archived_at ≡ false
      → is_expired settings now c.archived_at ≡ false
  unfolding is_expired
  not_expired c e = elim (Option-cases c.archived_at) [
    | inl none_there ↦ ground arith
    | inr (at, there) ↦ absurd (ground arith)
  ]

  cleanup-IsHeld : IsHeld id request o expires (Memory.cleanup settings now m).0
  unfolding Memory.cleanup Memory.forgotten
  cleanup-IsHeld =
      forget_all-IsHeld settings id request o expires now _ m
        (keys_where-others settings id request o expires now
          (λ c. is_expired settings now c.archived_at) m.items not_expired h.opened)
        h

  create-IsHeld :
      (project : ℕ) (version : Option ℕ) (created_by : ℕ)
      → IsHeld id request o expires (Memory.create settings now project version created_by m).0
  unfolding Memory.create
  create-IsHeld project version created_by =
      let other : (m.supply == id) ≡ false = ground (arith, h.used) in
      let c = Memory.new_conversation settings now m.supply project in
      record {
        lease = h.lease;
        owner = ground (arith, get_item-set_item id m.supply created_by m.owners, h.owner);
        there = ground (arith, get_item-set_item id m.supply c m.items, h.there);
        opened = archived-set_item id m.supply c m.items other h.opened;
        used = omega (arith, h.used);
      }

  -- A change that a live lease forbids is one of another conversation.
  changed-IsHeld :
      (k : ℕ) (f : Conversation → Conversation) (answer : Response)
      → IsHeld id request o expires
          (Memory.unless_leased settings now k m (Memory.change k f m, answer)).0
  changed-IsHeld k f answer =
      unless_leased-IsHeld settings id request o expires now k m _ live h (λ apart.
        change-IsHeld settings id request o expires now m k f (λ same c e. absurd (ground arith)) h)

  append-IsHeld :
      (k : ℕ) (role : Role) (content : Text) (status : Status) (result : Option ℕ) (created_by : ℕ)
      → IsHeld id request o expires
          (Memory.append settings now k role content status result created_by m).0
  unfolding Memory.append Memory.appended
  append-IsHeld k role content status result created_by =
      with_owned-IsHeld settings id request o expires now true k created_by _ m h (λ c.
        let changed =
          change-IsHeld settings id request o expires now m k
            (Memory.appended settings now
              (Memory.new_message settings now m.supply role content status result))
            (λ same x e. e) h in
        record {
          lease = changed.lease;
          owner = changed.owner;
          there = changed.there;
          opened = changed.opened;
          used = omega (arith, h.used);
        })

  add_assistant_message-IsHeld :
      (k : ℕ) (content : Text) (status : Status) (result : Option ℕ) (created_by : ℕ)
      → IsHeld id request o expires
          (Memory.add_assistant_message settings now k content status result created_by m).0
  unfolding Memory.add_assistant_message Memory.prune Memory.pruned
  add_assistant_message-IsHeld k content status result created_by =
      let appended = append-IsHeld k assistant content status result created_by in
      elim (Option-cases (owned true k created_by m)) [
        | inl e ↦ rw (e, Memory.add_assistant_message) appended
        | inr (c, e) ↦
            rw (e, Memory.add_assistant_message)
              (change-IsHeld settings id request o expires now _ k (Memory.pruned settings now)
                (λ same x e. e) appended)
      ]

  -- Other leases may change.
  leased-IsHeld :
      (leases : List (ℕ × (ℕ × ℕ)))
      → get_item id leases ≡ get_item id m.leases
      → IsHeld id request o expires (record m { leases = leases })
  leased-IsHeld leases same = record {
    lease = same ∙ h.lease;
    owner = h.owner;
    there = h.there;
    opened = h.opened;
    used = h.used;
  }

  acquire_request-IsHeld :
      (k r created_by : ℕ)
      → (k == id && r == request) ≡ false
      → IsHeld id request o expires (Memory.acquire_request settings now k r created_by m).0
  unfolding Memory.acquire_request
  acquire_request-IsHeld k r created_by other =
      let taken = leased-IsHeld (set_item k (r, now + settings.lease_seconds) m.leases) in
      let put = get_item-set_item id k (r, now + settings.lease_seconds) m.leases in
      with_owned-IsHeld settings id request o expires now true k created_by _ m h (λ c.
        elim (Bool-cases (k == id)) [
          | inl same ↦
              let found : get_item k m.leases ≡ some (request, expires) = ground (arith, h.lease) in
              let refused : (not (request == r) && ltb now expires) ≡ true = ground arith in
              rw (found, refused) h
          | inr apart ↦ elim (Option-cases (get_item k m.leases)) [
            | inl f ↦ rw f (taken (ground arith))
            | inr ((holder, until), f) ↦ elim (Bool-cases (not (holder == r) && ltb now until)) [
              | inl busy ↦ rw (f, busy) h
              | inr free ↦ rw (f, free) (taken (ground arith))
            ]
          ]
        ])

  release_request-IsHeld :
      (k r created_by : ℕ)
      → (k == id && r == request) ≡ false
      → IsHeld id request o expires (Memory.release_request settings now k r created_by m).0
  unfolding Memory.release_request
  release_request-IsHeld k r created_by other =
      let given_up = leased-IsHeld (pop_item k m.leases) in
      let put = get_item-pop_item id k m.leases in
      with_owned-IsHeld settings id request o expires now false k created_by _ m h (λ c.
        elim (Bool-cases (k == id)) [
          | inl same ↦
              let found : get_item k m.leases ≡ some (request, expires) = ground (arith, h.lease) in
              let refused : (request == r) ≡ false = ground arith in rw (found, refused) h
          | inr apart ↦ elim (Option-cases (get_item k m.leases)) [
            | inl f ↦ rw f h
            | inr ((holder, until), f) ↦ elim (Bool-cases (holder == r)) [
              | inl own ↦ rw (f, own) (given_up (ground arith))
              | inr foreign ↦ rw (f, foreign) h
            ]
          ]
        ])

  -- No call but those left out ends the lease.
  pub perform-IsHeld :
      (call : Request)
      → leaves_lease id request call ≡ true
      → IsHeld id request o expires (Memory.perform settings now call m).0
  unfolding Memory.perform leaves_lease Memory.get Memory.list_conversations Memory.get_scope
      Memory.rename Memory.renamed Memory.archive Memory.restore Memory.brought_back Memory.purge
      Memory.add_user_message Memory.get_history
  perform-IsHeld Request.cleanup ok = cleanup-IsHeld
  perform-IsHeld (Request.create project version created_by) ok =
      create-IsHeld project version created_by
  perform-IsHeld (Request.get k created_by) ok =
      with_owned-IsHeld settings id request o expires now true k created_by _ m h (λ c. h)
  perform-IsHeld (Request.list_conversations project created_by state limit cursor) ok = h
  perform-IsHeld (Request.get_scope k created_by include_archived) ok =
      with_owned-IsHeld settings id request o expires now (not include_archived) k created_by _ m h
        (λ c. h)
  perform-IsHeld (Request.rename k name created_by) ok =
      with_owned-IsHeld settings id request o expires now true k created_by _ m h
        (λ c. changed-IsHeld k (Memory.renamed settings now name) _)
  perform-IsHeld (Request.archive k created_by) ok =
      with_owned-IsHeld settings id request o expires now true k created_by _ m h
        (λ c. changed-IsHeld k (Memory.put_away settings now) _)
  perform-IsHeld (Request.restore k created_by) ok =
      with_owned-IsHeld settings id request o expires now false k created_by _ m h (λ c.
        elim (Bool-cases (is_some c.archived_at)) [
          | inl e ↦ rw e (changed-IsHeld k (Memory.brought_back settings now) _)
          | inr e ↦ rw e h
        ])
  perform-IsHeld (Request.purge k created_by) ok =
      with_owned-IsHeld settings id request o expires now false k created_by _ m h (λ c.
        elim (Bool-cases (is_some c.archived_at)) [
          | inl e ↦ rw e (
              unless_leased-IsHeld settings id request o expires now k m _ live h
                (λ apart. forget-IsHeld settings id request o expires now m k apart h))
          | inr e ↦ rw e h
        ])
  perform-IsHeld (Request.delete_project project) ok = absurd (ground arith)
  perform-IsHeld (Request.add_user_message k content created_by) ok =
      append-IsHeld k _ content _ _ created_by
  perform-IsHeld (Request.add_assistant_message k content status result created_by) ok =
      add_assistant_message-IsHeld k content status result created_by
  perform-IsHeld (Request.acquire_request k r created_by) ok =
      acquire_request-IsHeld k r created_by (ground arith)
  perform-IsHeld (Request.release_request k r created_by) ok =
      release_request-IsHeld k r created_by (ground arith)
  perform-IsHeld (Request.get_history k max_turns max_chars created_by) ok =
      with_owned-IsHeld settings id request o expires now true k created_by _ m h (λ c. h)

  pub IsHeld-IsRefused :
      (other : ℕ) (name : Text)
      → (request == other) ≡ false
      → IsRefused settings id request o now other name m
  unfolding Memory.acquire_request Memory.rename Memory.archive Memory.with_owned
      Memory.unless_leased owned owner_is
  IsHeld-IsRefused other name differs = elim (Option-cases (get_item id m.items)) [
    | inl missing ↦ absurd (ground (arith, h.there))
    | inr (c, found) ↦
        let opened = archived-get_item id m.items c h.opened found in
        let held = IsHeld-live_lease settings id request o expires now m h live in
        let there : owned true id o m ≡ some c = ground (arith, h.owner) in
        (
          ground (arith, h.lease, h.owner),
          (ground (arith, h.owner), (ground (arith, h.owner), ground (arith, h.lease))),
        )
  ]
