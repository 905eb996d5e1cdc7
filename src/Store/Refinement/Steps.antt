-- ===== src/Store/Refinement/Steps.antt =====
-- Histories of calls: the store over a database answers as the store in memory does
-- (apps/api/app/store).
use poc_la_graph.Base.{
  ℕ, ◌≡◌, refl, sym, ap, ◌∙◌, Bool, true, Option, none, List, [], ◌∷◌, arith, inl, inr,
  Option-cases, All,
}
use poc_la_graph.Base.Table.{first, select}
use poc_la_graph.Knowledge.Text.{Text, strip}
use poc_la_graph.Store.Models.{user, assistant, Status, completed, Request, Response, Settings}
use poc_la_graph.Store.Dict.{get_item}
use poc_la_graph.Store.Names.{derive_name}
use poc_la_graph.Store.Exchanges.{is_user}
use poc_la_graph.Store.Memory
use poc_la_graph.Store.Memory.{Memory}
use poc_la_graph.Store.Sql
use poc_la_graph.Store.Tables.{Database, get_row}
use poc_la_graph.Store.Refinement.Relation.{
  proper_name, entries, from_row, Agrees, Same, Same-by, owned-get_row,
}
use poc_la_graph.Store.Refinement.Changes.{
  get-Same, get_scope-Same, get_history-Same, rename-Same, archive-Same, restore-Same,
}
use poc_la_graph.Store.Refinement.Requests.{acquire_request-Same, release_request-Same}
use poc_la_graph.Store.Refinement.Deletion.{cleanup-Same, delete_project-Same, purge-Same}
use poc_la_graph.Store.Refinement.Messages.{create-Same}
use poc_la_graph.Store.Refinement.Appending.{append-Same}
use poc_la_graph.Store.Refinement.Pruning.{prune-Agrees}
use poc_la_graph.Store.Refinement.Listing.{list_conversations-Same}

-- The names that a request gives are not blank and not the default name.
unfoldable pub names_properly : Request → Bool
unfolding proper_name
names_properly (Request.rename id name created_by) = proper_name (strip name)
names_properly (Request.add_user_message id content created_by) = proper_name (derive_name content)
names_properly _ = true

-- Stores without conversations.
unfoldable pub empty_memory : Memory
empty_memory = record { items = []; leases = []; versions = []; owners = []; supply = 0 }

unfoldable pub empty_database : Database
empty_database = record { conversations = []; messages = []; supply = 0; row_supply = 0 }

-- The answers to calls at the given times, one after the other.
unfoldable pub answers_of :
    {S : Type 0} → (ℕ → Request → S → S × Response) → List (ℕ × Request) → S → List Response
answers_of call [] s = []
answers_of call ((now, request) ∷ rest) s =
    let (after, response) = call now request s in response ∷ answers_of call rest after

module _ (m : Memory) (db : Database) (a : Agrees m db) (settings : Settings) (now : ℕ) where
  add_user_message-Same :
      (id : ℕ) (content : Text) (o : ℕ)
      → proper_name (derive_name content) ≡ true
      → Same
          (Memory.add_user_message settings now id content o m)
          (Sql.add_user_message settings now id content o db)
  unfolding Memory.add_user_message Sql.add_user_message
  add_user_message-Same id content o good =
      append-Same m db a settings now id user content completed none (λ h. good) o

  pruned-Same :
      (id : ℕ) (x : Memory × Response) (y : Database × Response)
      → Same x y
      → Same (Memory.prune settings now id x.0, x.1) (Sql.prune settings now id y.0, y.1)
  pruned-Same id x y (e, k) = (e, prune-Agrees x.0 y.0 k settings now id)

  add_assistant_message-Same :
      (id : ℕ) (content : Text) (status : Status) (result : Option ℕ) (o : ℕ)
      → Same
          (Memory.add_assistant_message settings now id content status result o m)
          (Sql.add_assistant_message settings now id content status result o db)
  unfolding Memory.add_assistant_message Sql.add_assistant_message from_row is_user
  add_assistant_message-Same id content status result o =
      let appended =
        append-Same m db a settings now id assistant content status result
          (λ h. absurd (ground arith)) o in
      elim (Option-cases (get_row true id o db)) [
        | inl e ↦
            Same-by _ (Memory.append settings now id assistant content status result o m) _
              (Sql.append settings now id assistant content status result o db)
              (ground (arith, owned-get_row m db a true id o)) (ground arith) appended
        | inr (r, e) ↦
            Same-by _
              (
                Memory.prune settings now id
                    (Memory.append settings now id assistant content status result o m).0,
                (Memory.append settings now id assistant content status result o m).1,
              )
              _
              (
                Sql.prune settings now id
                    (Sql.append settings now id assistant content status result o db).0,
                (Sql.append settings now id assistant content status result o db).1,
              )
              (ground (arith, owned-get_row m db a true id o)) (ground arith)
              (pruned-Same id _ _ appended)
      ]

  -- One call of any method.
  pub perform-Same :
      (request : Request)
      → names_properly request ≡ true
      → Same (Memory.perform settings now request m) (Sql.perform settings now request db)
  unfolding Memory.perform Sql.perform names_properly
  perform-Same Request.cleanup good = cleanup-Same m db a settings now
  perform-Same (Request.create project version o) good =
      create-Same m db a settings now project version o
  perform-Same (Request.get id o) good = get-Same m db a settings now id o
  perform-Same (Request.list_conversations project o state limit cursor) good =
      list_conversations-Same m db a settings now project o state limit cursor
  perform-Same (Request.get_scope id o include_archived) good =
      get_scope-Same m db a settings now id o include_archived
  perform-Same (Request.rename id name o) good = rename-Same m db a settings now id name o good
  perform-Same (Request.archive id o) good = archive-Same m db a settings now id o
  perform-Same (Request.restore id o) good = restore-Same m db a settings now id o
  perform-Same (Request.purge id o) good = purge-Same m db a settings now id o
  perform-Same (Request.delete_project project) good =
      delete_project-Same m db a settings now project
  perform-Same (Request.add_user_message id content o) good =
      add_user_message-Same id content o good
  perform-Same (Request.add_assistant_message id content status result o) good =
      add_assistant_message-Same id content status result o
  perform-Same (Request.acquire_request id request o) good =
      acquire_request-Same m db a settings now id request o
  perform-Same (Request.release_request id request o) good =
      release_request-Same m db a settings now id request o
  perform-Same (Request.get_history id max_turns max_chars o) good =
      get_history-Same m db a settings now id max_turns max_chars o

empty-Agrees : Agrees empty_memory empty_database
unfolding empty_memory empty_database entries from_row first get_item select
empty-Agrees = record {
  items = refl;
  owners = λ k. refl;
  versions = λ k. refl;
  leases = λ k. refl;
  supply = refl;
  proper = tt;
  ids = omega arith;
  message_ids = omega arith;
  row_ids = omega arith;
  ordinals = λ k. (0, omega arith);
  known = tt;
}

answers_alike :
    (settings : Settings) (calls : List (ℕ × Request)) (m : Memory) (db : Database)
    → Agrees m db
    → All (λ (c : ℕ × Request). names_properly c.1 ≡ true) calls
    → answers_of (Sql.perform settings) calls db ≡ answers_of (Memory.perform settings) calls m
unfolding answers_of
answers_alike settings [] m db a good = refl
answers_alike settings ((now, request) ∷ rest) m db a (good, later) =
    let (e, k) = perform-Same m db a settings now request good in
    ap (λ r. r ∷ answers_of (Sql.perform settings) rest (Sql.perform settings now request db).0)
      (sym e)
    ∙ ap (λ l. (Memory.perform settings now request m).1 ∷ l)
        (answers_alike settings rest (Memory.perform settings now request m).0
          (Sql.perform settings now request db).0 k later)

-- From empty stores, whatever methods are called in whatever order and at whatever times, the store
-- over a database returns and raises exactly what the store in memory does, as long as no
-- conversation is named blank or with the default name.
pub answers-refine :
    (settings : Settings) (calls : List (ℕ × Request))
    → All (λ (c : ℕ × Request). names_properly c.1 ≡ true) calls
    → answers_of (Sql.perform settings) calls empty_database
      ≡ answers_of (Memory.perform settings) calls empty_memory
answers-refine settings calls good =
    answers_alike settings calls empty_memory empty_database empty-Agrees good
