-- ===== src/Store/Memory.antt =====
-- The store in memory: apps/api/app/store/conversations.py, `InMemoryConversationStore`. The lock
-- makes each method one step; identifiers come from a supply, and the clock is an argument, the same
-- for all the readings of one method.
use poc_la_graph.Base.{
  ℕ, suc, ◌+◌, ◌-◌, ◌*◌, Bool, true, false, not, ◌&&◌, ltb, ◌==◌, if◌then◌else◌, is_some, any, List,
  [], ◌∷◌, ◌++◌, map, length, take, keep, Option, none, some,
}
use poc_la_graph.Knowledge.Text.{Text, strip, text_eq}
use poc_la_graph.Plsql.Order.{sort_by}
use poc_la_graph.Store.Models.{
  Role, user, assistant, Status, completed, Message, Conversation, Settings, ListState, active,
  archived, Request, Response, Error,
}
use poc_la_graph.Store.Dict.{get_item, set_item, pop_item, change_item}
use poc_la_graph.Store.Names.{default_name, derive_name}
use poc_la_graph.Store.Exchanges.{
  is_user, complete_exchanges, history_of, summary, newer, behind, next_boundary,
}

pub record Memory : Type 0 where
  pub items : List (ℕ × Conversation)
  pub leases : List (ℕ × (ℕ × ℕ))
  pub versions : List (ℕ × Option ℕ)
  pub owners : List (ℕ × ℕ)
  pub supply : ℕ

abbrev day : ℕ
day = 86400

unfoldable pub owner_is : ℕ → ℕ → Memory → Bool
owner_is id created_by m = elim (get_item id m.owners) [
  | none ↦ false
  | some owner ↦ owner == created_by
]

-- `_owned`, and the same test of the other methods.
unfoldable pub owned : Bool → ℕ → ℕ → Memory → Option Conversation
owned active_only id created_by m = elim (get_item id m.items) [
  | none ↦ none
  | some c ↦
      if owner_is id created_by m && not (active_only && is_some c.archived_at)
      then some c
      else none
]

-- `_reject_lease`: the request that holds a lease which has not expired.
unfoldable pub live_lease : ℕ → ℕ → Memory → Option ℕ
live_lease id now m = elim (get_item id m.leases) [
  | none ↦ none
  | some (request, expires) ↦ if ltb now expires then some request else none
]

-- A change of a conversation, which stays where it is.
unfoldable pub change : ℕ → (Conversation → Conversation) → Memory → Memory
change id f m = record m { items = change_item id f m.items }

-- All that is kept of a conversation is deleted.
unfoldable pub forget : ℕ → Memory → Memory
forget id m = record m {
  items = pop_item id m.items;
  leases = pop_item id m.leases;
  versions = pop_item id m.versions;
  owners = pop_item id m.owners;
}

unfoldable pub forget_all : List ℕ → Memory → Memory
forget_all [] m = m
forget_all (id ∷ ids) m = forget_all ids (forget id m)

unfoldable pub keys_where : (Conversation → Bool) → List (ℕ × Conversation) → List ℕ
keys_where p [] = []
keys_where p ((id, c) ∷ rest) = let later = keys_where p rest in if p c then id ∷ later else later

-- `archived_at is not None and archived_at < now - retention`
unfoldable pub is_expired : Settings → ℕ → Option ℕ → Bool
is_expired settings now none = false
is_expired settings now (some at) = ltb (at + settings.retention_days * day) now

module _ (settings : Settings) (now : ℕ) where
  unfoldable pub forgotten : (Conversation → Bool) → Memory → Memory × Response
  forgotten p m =
      let ids = keys_where p m.items in (forget_all ids m, Response.counted (length ids))

  unfoldable pub cleanup : Memory → Memory × Response
  cleanup m = forgotten (λ c. is_expired settings now c.archived_at) m

  unfoldable pub delete_project : ℕ → Memory → Memory × Response
  delete_project project m = forgotten (λ c. c.project_id == project) m

  unfoldable pub new_conversation : ℕ → ℕ → Conversation
  new_conversation id project = record {
    id = id;
    project_id = project;
    name = default_name;
    created_at = now;
    updated_at = now;
    archived_at = none;
    messages = [];
  }

  unfoldable pub create : ℕ → Option ℕ → ℕ → Memory → Memory × Response
  create project version created_by m =
      let c = new_conversation m.supply project in
      (
        record m {
          items = set_item m.supply c m.items;
          versions = set_item m.supply version m.versions;
          owners = set_item m.supply created_by m.owners;
          supply = suc m.supply;
        },
        Response.conversation c,
      )

  -- A method that needs a conversation of the caller.
  unfoldable pub with_owned :
      Bool → ℕ → ℕ → (Conversation → Memory × Response) → Memory → Memory × Response
  with_owned active_only id created_by f m = elim (owned active_only id created_by m) [
    | none ↦ (m, Response.raised (Error.conversation_not_found id))
    | some c ↦ f c
  ]

  -- A change that a live lease forbids.
  unfoldable pub unless_leased : ℕ → Memory → Memory × Response → Memory × Response
  unless_leased id m result = elim (live_lease id now m) [
    | some request ↦ (m, Response.raised (Error.request_conflict id request))
    | none ↦ result
  ]

  unfoldable pub get : ℕ → ℕ → Memory → Memory × Response
  get id created_by m = with_owned true id created_by (λ c. (m, Response.conversation c)) m

  unfoldable pub is_listed : ℕ → ℕ → ListState → Option (ℕ × ℕ) → Memory → ℕ × Conversation → Bool
  is_listed project created_by state cursor m (id, c) =
      c.project_id == project
      && (owner_is id created_by m
          && ((elim state [
            | active ↦ not (is_some c.archived_at)
            | archived ↦ is_some c.archived_at
          ])
              && behind cursor (c.updated_at, c.id)))

  unfoldable pub newest_first : List (ℕ × Conversation) → List (ℕ × Conversation)
  newest_first =
      sort_by (λ (x y : ℕ × Conversation). newer (x.1.updated_at, x.1.id) (y.1.updated_at, y.1.id))

  unfoldable pub list_conversations :
      ℕ → ℕ → ListState → ℕ → Option (ℕ × ℕ) → Memory → Memory × Response
  list_conversations project created_by state limit cursor m =
      let rows = newest_first (keep (is_listed project created_by state cursor m) m.items) in
      let found = take (limit + 1) rows in
      let page = map (λ (x : ℕ × Conversation). summary x.1) (take limit found) in
      (m, Response.listed page (next_boundary (ltb limit (length found)) page))

  unfoldable pub version_of : ℕ → Memory → Option ℕ
  version_of id m = elim (get_item id m.versions) [ none ↦ none | some version ↦ version ]

  unfoldable pub get_scope : ℕ → ℕ → Bool → Memory → Memory × Response
  get_scope id created_by include_archived m =
      with_owned (not include_archived) id created_by
        (λ c. (m, Response.scope c.project_id (version_of id m))) m

  unfoldable pub renamed : Text → Conversation → Conversation
  renamed name c = record c { name = strip name; updated_at = now }

  unfoldable pub rename : ℕ → Text → ℕ → Memory → Memory × Response
  rename id name created_by m =
      with_owned true id created_by
        (λ c.
          unless_leased id m (change id (renamed name) m, Response.conversation (renamed name c)))
        m

  unfoldable pub put_away : Conversation → Conversation
  put_away c = record c { archived_at = some now; updated_at = now }

  unfoldable pub archive : ℕ → ℕ → Memory → Memory × Response
  archive id created_by m =
      with_owned true id created_by
        (λ c. unless_leased id m (change id put_away m, Response.nothing)) m

  unfoldable pub brought_back : Conversation → Conversation
  brought_back c = record c { archived_at = none; updated_at = now }

  unfoldable pub restore : ℕ → ℕ → Memory → Memory × Response
  restore id created_by m =
      with_owned false id created_by
        (λ c.
          if is_some c.archived_at
          then unless_leased id m (change id brought_back m, Response.conversation (brought_back c))
          else (m, Response.raised (Error.conversation_not_found id)))
        m

  unfoldable pub purge : ℕ → ℕ → Memory → Memory × Response
  purge id created_by m =
      with_owned false id created_by
        (λ c.
          if is_some c.archived_at
          then unless_leased id m (forget id m, Response.nothing)
          else (m, Response.raised (Error.state_conflict id)))
        m

  unfoldable pub new_message : ℕ → Role → Text → Status → Option ℕ → Message
  new_message id role content status result = record {
    id = id;
    role = role;
    content = content;
    status = status;
    created_at = now;
    result = result;
  }

  unfoldable pub appended : Message → Conversation → Conversation
  appended msg c = record c {
    messages = c.messages ++ msg ∷ [];
    updated_at = now;
    name =
        if is_user msg.role && text_eq c.name default_name then derive_name msg.content else c.name;
  }

  -- `_append`
  unfoldable pub append : ℕ → Role → Text → Status → Option ℕ → ℕ → Memory → Memory × Response
  append id role content status result created_by m =
      let msg = new_message m.supply role content status result in
      with_owned true id created_by
        (λ c. (record (change id (appended msg) m) { supply = suc m.supply }, Response.message msg))
        m

  unfoldable pub add_user_message : ℕ → Text → ℕ → Memory → Memory × Response
  add_user_message id content created_by m = append id user content completed none created_by m

  -- `message.id not in remove_ids` of the exchanges beyond the limit.
  unfoldable pub message_ids : List (Message × Message) → List ℕ
  message_ids [] = []
  message_ids ((question, answer) ∷ rest) = question.id ∷ answer.id ∷ message_ids rest

  unfoldable pub pruned : Conversation → Conversation
  pruned c =
      let found = complete_exchanges c.messages in
      let remove_ids = message_ids (take (length found - settings.max_turns) found) in
      record c {
        messages = keep (λ (msg : Message). not (any (λ i. i == msg.id) remove_ids)) c.messages;
      }

  -- `_prune`, of a conversation that was there a moment ago.
  unfoldable pub prune : ℕ → Memory → Memory
  prune id m = change id pruned m

  unfoldable pub add_assistant_message :
      ℕ → Text → Status → Option ℕ → ℕ → Memory → Memory × Response
  add_assistant_message id content status result created_by m =
      let (after, response) = append id assistant content status result created_by m in
      elim (owned true id created_by m) [
        | none ↦ (after, response)
        | some c ↦ (prune id after, response)
      ]

  unfoldable pub acquire_request : ℕ → ℕ → ℕ → Memory → Memory × Response
  acquire_request id request created_by m =
      let taken = record m {
        leases = set_item id (request, now + settings.lease_seconds) m.leases;
      } in
      with_owned true id created_by
        (λ c. elim (get_item id m.leases) [
          | none ↦ (taken, Response.nothing)
          | some (holder, expires) ↦
              if not (holder == request) && ltb now expires
              then (m, Response.raised (Error.request_conflict id holder))
              else (taken, Response.nothing)
        ])
        m

  unfoldable pub release_request : ℕ → ℕ → ℕ → Memory → Memory × Response
  release_request id request created_by m =
      with_owned false id created_by
        (λ c. elim (get_item id m.leases) [
          | none ↦ (m, Response.nothing)
          | some (holder, expires) ↦
              if holder == request
              then (record m { leases = pop_item id m.leases }, Response.nothing)
              else (m, Response.nothing)
        ])
        m

  unfoldable pub get_history : ℕ → ℕ → ℕ → ℕ → Memory → Memory × Response
  get_history id max_turns max_chars created_by m =
      with_owned true id created_by
        (λ c. (m, Response.history (history_of max_turns max_chars c.messages))) m

  -- One call of a method.
  unfoldable pub perform : Request → Memory → Memory × Response
  perform Request.cleanup m = cleanup m
  perform (Request.create project version created_by) m = create project version created_by m
  perform (Request.get id created_by) m = get id created_by m
  perform (Request.list_conversations project created_by state limit cursor) m =
      list_conversations project created_by state limit cursor m
  perform (Request.get_scope id created_by include_archived) m =
      get_scope id created_by include_archived m
  perform (Request.rename id name created_by) m = rename id name created_by m
  perform (Request.archive id created_by) m = archive id created_by m
  perform (Request.restore id created_by) m = restore id created_by m
  perform (Request.purge id created_by) m = purge id created_by m
  perform (Request.delete_project project) m = delete_project project m
  perform (Request.add_user_message id content created_by) m =
      add_user_message id content created_by m
  perform (Request.add_assistant_message id content status result created_by) m =
      add_assistant_message id content status result created_by m
  perform (Request.acquire_request id request created_by) m =
      acquire_request id request created_by m
  perform (Request.release_request id request created_by) m =
      release_request id request created_by m
  perform (Request.get_history id max_turns max_chars created_by) m =
      get_history id max_turns max_chars created_by m
