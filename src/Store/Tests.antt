-- ===== src/Store/Tests.antt =====
-- Runs of both stores (apps/api/app/store), and the theorems at concrete inputs.
use poc_la_graph.Base.{
  ℕ, ◌*◌, ◌≤◌, ◌≡◌, refl, Bool, true, false, none, some, List, [], ◌∷◌, length, arith, All, any,
  ◌<◌, ◌+◌,
}
use poc_la_graph.Knowledge.Text.{Text, is_space, rstrip, lstrip, strip}
use poc_la_graph.Store.Models.{
  user, assistant, completed, Message, Conversation, Settings, active, Request, Response, Error,
}
use poc_la_graph.Store.Names.{
  derive_name, join_words, sentence_end, rfind_space, shortened, shown_name,
}
use poc_la_graph.Store.Exchanges.{
  history_of, is_user, is_completed, exchanges, complete_exchanges, last_turns, exchange_chars,
  select_exchanges, both_messages, summary, newer, behind, last_summary, next_boundary,
}
use poc_la_graph.Store.Memory
use poc_la_graph.Store.Memory.{Memory}
use poc_la_graph.Store.Sql
use poc_la_graph.Store.Tables.{
  active_lease, change_row, conversation_model, delete_rows, get_row, is_row_of, max_ordinal,
  message_model, messages_of, row_expired, summary_model,
}
use poc_la_graph.Store.History.{chars_of, history_of-bounds}
use poc_la_graph.Store.Held.{archived_under}
use poc_la_graph.Store.Exclusion.{lease-excludes}
use poc_la_graph.Store.Held.Calls.{leaves_lease, after_calls, IsRefused}
use poc_la_graph.Store.Refinement.Steps.{
  names_properly, answers_of, empty_memory, empty_database, answers-refine,
}
use poc_la_graph.Knowledge.Patterns.{starts}
use poc_la_graph.Store.Dict.{get_item, set_item, pop_item, change_item}
use poc_la_graph.Base.Table.{first, select, count, update, delete, modify_first}
use poc_la_graph.Plsql.Order.{insert_sorted, sort_by}
use poc_la_graph.Store.Refinement.Relation.{proper_name}
mod Paging

abbrev pub settings : Settings
settings = record { retention_days = 30; max_turns = 1; lease_seconds = 120 }

-- `Hello there. Bye`
abbrev hello : Text
hello =
    b'H' ∷ b'e' ∷ b'l' ∷ b'l' ∷ b'o' ∷ 32 ∷ 32 ∷ b't' ∷ b'o' ∷ b'.' ∷ 10 ∷ b'B' ∷ b'y' ∷ b'e' ∷ []

derived_hello : derive_name hello ≡ b'H' ∷ b'e' ∷ b'l' ∷ b'l' ∷ b'o' ∷ 32 ∷ b't' ∷ b'o' ∷ b'.' ∷ []
unfolding derive_name join_words sentence_end shortened rfind_space is_space rstrip lstrip strip
    starts
derived_hello = refl

-- A conversation with two exchanges, of which one is kept, a lease, and what it forbids.
abbrev calls : List (ℕ × Request)
calls =
    (10, Request.create 7 (some 3) 1)
    ∷ (11, Request.add_user_message 0 hello 1)
    ∷ (12, Request.add_assistant_message 0 (b'x' ∷ []) completed (some 5) 1)
    ∷ (13, Request.add_user_message 0 hello 1)
    ∷ (14, Request.add_assistant_message 0 (b'y' ∷ []) completed none 1)
    ∷ (15, Request.get_history 0 6 100 1)
    ∷ (16, Request.acquire_request 0 77 1)
    ∷ (17, Request.acquire_request 0 78 1)
    ∷ (18, Request.rename 0 hello 1)
    ∷ (19, Request.release_request 0 77 1)
    ∷ (20, Request.rename 0 hello 1)
    ∷ (21, Request.list_conversations 7 1 active 10 none)
    ∷ (22, Request.archive 0 1)
    ∷ (23, Request.get 0 1)
    ∷ (24, Request.restore 0 1)
    ∷ (25, Request.get_scope 0 1 false)
    ∷ (26, Request.archive 0 1)
    ∷ (3000000, Request.cleanup)
    ∷ []

calls_named : All (λ (c : ℕ × Request). names_properly c.1 ≡ true) calls
unfolding names_properly proper_name derive_name join_words sentence_end shortened rfind_space
    is_space rstrip lstrip strip starts
calls_named = (
  refl,
  (
    refl,
    (
      refl,
      (
        refl,
        (
          refl,
          (
            refl,
            (
              refl,
              (
                refl,
                (refl, (refl, (refl, (refl, (refl, (refl, (refl, (refl, (refl, (refl, tt)))))))))),
              ),
            ),
          ),
        ),
      ),
    ),
  ),
)

answers-refine_example :
    answers_of (Sql.perform settings) calls empty_database
    ≡ answers_of (Memory.perform settings) calls empty_memory
answers-refine_example = answers-refine settings calls calls_named

-- Whether a response is an error.
abbrev failed_ones : List Response → List Bool
failed_ones [] = []
failed_ones (Response.raised e ∷ rest) = true ∷ failed_ones rest
failed_ones (_ ∷ rest) = false ∷ failed_ones rest

answers_sample :
    failed_ones (answers_of (Memory.perform settings) calls empty_memory)
    ≡ false ∷ false ∷ false ∷ false ∷ false ∷ false ∷ false ∷ true ∷ true ∷ false ∷ false ∷ false
      ∷ false ∷ true ∷ false ∷ false ∷ false ∷ false ∷ []
unfolding is_space rstrip lstrip strip starts join_words sentence_end rfind_space shortened
    derive_name shown_name get_item set_item pop_item change_item is_user is_completed exchanges
    complete_exchanges last_turns exchange_chars select_exchanges both_messages history_of summary
    newer behind last_summary next_boundary first select count update delete modify_first
    insert_sorted sort_by Memory.owner_is Memory.owned Memory.live_lease Memory.change Memory.forget
    Memory.forget_all Memory.keys_where Memory.is_expired Memory.forgotten Memory.cleanup
    Memory.delete_project Memory.new_conversation Memory.create Memory.with_owned
    Memory.unless_leased Memory.get Memory.is_listed Memory.newest_first Memory.list_conversations
    Memory.version_of Memory.get_scope Memory.renamed Memory.rename Memory.put_away Memory.archive
    Memory.brought_back Memory.restore Memory.purge Memory.new_message Memory.appended Memory.append
    Memory.add_user_message Memory.message_ids Memory.pruned Memory.prune
    Memory.add_assistant_message Memory.acquire_request Memory.release_request Memory.get_history
    Memory.perform empty_memory answers_of
answers_sample = refl

-- A blank name: the memory shows it as it is, the database as the default.
abbrev blank_calls : List (ℕ × Request)
blank_calls = (10, Request.create 7 none 1) ∷ (11, Request.rename 0 (32 ∷ []) 1) ∷ []

abbrev shown : List Response → List ℕ
shown [] = []
shown (Response.conversation c ∷ rest) = length c.name ∷ shown rest
shown (_ ∷ rest) = shown rest

blank_in_memory :
    shown (answers_of (Memory.perform settings) blank_calls empty_memory) ≡ 16 ∷ 0 ∷ []
unfolding is_space rstrip lstrip strip starts join_words sentence_end rfind_space shortened
    derive_name shown_name get_item set_item pop_item change_item is_user is_completed exchanges
    complete_exchanges last_turns exchange_chars select_exchanges both_messages history_of summary
    newer behind last_summary next_boundary first select count update delete modify_first
    insert_sorted sort_by Memory.owner_is Memory.owned Memory.live_lease Memory.change Memory.forget
    Memory.forget_all Memory.keys_where Memory.is_expired Memory.forgotten Memory.cleanup
    Memory.delete_project Memory.new_conversation Memory.create Memory.with_owned
    Memory.unless_leased Memory.get Memory.is_listed Memory.newest_first Memory.list_conversations
    Memory.version_of Memory.get_scope Memory.renamed Memory.rename Memory.put_away Memory.archive
    Memory.brought_back Memory.restore Memory.purge Memory.new_message Memory.appended Memory.append
    Memory.add_user_message Memory.message_ids Memory.pruned Memory.prune
    Memory.add_assistant_message Memory.acquire_request Memory.release_request Memory.get_history
    Memory.perform empty_memory answers_of
blank_in_memory = refl

blank_in_database :
    shown (answers_of (Sql.perform settings) blank_calls empty_database) ≡ 16 ∷ 16 ∷ []
unfolding is_space rstrip lstrip strip starts join_words sentence_end rfind_space shortened
    derive_name shown_name get_item set_item pop_item change_item is_user is_completed exchanges
    complete_exchanges last_turns exchange_chars select_exchanges both_messages history_of summary
    newer behind last_summary next_boundary first select count update delete modify_first
    insert_sorted sort_by is_row_of get_row active_lease messages_of message_model
    conversation_model summary_model delete_rows change_row row_expired max_ordinal Sql.cleanup
    Sql.delete_project Sql.new_row Sql.create Sql.with_row Sql.reject_active_lease Sql.get
    Sql.is_listed Sql.newest_first Sql.list_conversations Sql.get_scope Sql.answer Sql.renamed
    Sql.rename Sql.put_away Sql.archive Sql.brought_back Sql.restore Sql.purge Sql.new_message_row
    Sql.touched Sql.append Sql.add_user_message Sql.complete_exchange_row_ids Sql.both_ids Sql.prune
    Sql.add_assistant_message Sql.is_free Sql.leased Sql.acquire_request Sql.holds Sql.released
    Sql.release_request Sql.get_history Sql.perform empty_database answers_of
blank_in_database = refl

abbrev question : Message
question = record {
  id = 1;
  role = user;
  content = hello;
  status = completed;
  created_at = 0;
  result = none;
}

abbrev reply : Message
reply = record {
  id = 2;
  role = assistant;
  content = b'x' ∷ [];
  status = completed;
  created_at = 0;
  result = none;
}

history_sample : history_of 6 20 (question ∷ reply ∷ question ∷ reply ∷ []) ≡ question ∷ reply ∷ []
unfolding is_user is_completed exchanges complete_exchanges last_turns exchange_chars
    select_exchanges both_messages history_of summary newer behind last_summary next_boundary
history_sample = refl

history_of-bounds_example :
    (length (history_of 6 20 (question ∷ reply ∷ question ∷ reply ∷ [])) ≤ 2 * 6)
    × (chars_of (history_of 6 20 (question ∷ reply ∷ question ∷ reply ∷ [])) ≤ 20)
history_of-bounds_example =
    history_of-bounds 6 20 (question ∷ reply ∷ question ∷ reply ∷ []) (omega arith)

abbrev pub one_conversation : Memory
one_conversation = (Memory.create settings 10 7 none 1 empty_memory).0

abbrev the_conversation : Conversation
the_conversation = Memory.new_conversation settings 10 0 7

there : Memory.owned true 0 1 one_conversation ≡ some the_conversation
unfolding is_space rstrip lstrip strip starts join_words sentence_end rfind_space shortened
    derive_name shown_name get_item set_item pop_item change_item is_user is_completed exchanges
    complete_exchanges last_turns exchange_chars select_exchanges both_messages history_of summary
    newer behind last_summary next_boundary first select count update delete modify_first
    insert_sorted sort_by Memory.owner_is Memory.owned Memory.live_lease Memory.change Memory.forget
    Memory.forget_all Memory.keys_where Memory.is_expired Memory.forgotten Memory.cleanup
    Memory.delete_project Memory.new_conversation Memory.create Memory.with_owned
    Memory.unless_leased Memory.get Memory.is_listed Memory.newest_first Memory.list_conversations
    Memory.version_of Memory.get_scope Memory.renamed Memory.rename Memory.put_away Memory.archive
    Memory.brought_back Memory.restore Memory.purge Memory.new_message Memory.appended Memory.append
    Memory.add_user_message Memory.message_ids Memory.pruned Memory.prune
    Memory.add_assistant_message Memory.acquire_request Memory.release_request Memory.get_history
    Memory.perform empty_memory answers_of
there = refl

taken_once : (Memory.acquire_request settings 16 0 77 1 one_conversation).1 ≡ Response.nothing
unfolding is_space rstrip lstrip strip starts join_words sentence_end rfind_space shortened
    derive_name shown_name get_item set_item pop_item change_item is_user is_completed exchanges
    complete_exchanges last_turns exchange_chars select_exchanges both_messages history_of summary
    newer behind last_summary next_boundary first select count update delete modify_first
    insert_sorted sort_by Memory.owner_is Memory.owned Memory.live_lease Memory.change Memory.forget
    Memory.forget_all Memory.keys_where Memory.is_expired Memory.forgotten Memory.cleanup
    Memory.delete_project Memory.new_conversation Memory.create Memory.with_owned
    Memory.unless_leased Memory.get Memory.is_listed Memory.newest_first Memory.list_conversations
    Memory.version_of Memory.get_scope Memory.renamed Memory.rename Memory.put_away Memory.archive
    Memory.brought_back Memory.restore Memory.purge Memory.new_message Memory.appended Memory.append
    Memory.add_user_message Memory.message_ids Memory.pruned Memory.prune
    Memory.add_assistant_message Memory.acquire_request Memory.release_request Memory.get_history
    Memory.perform empty_memory answers_of
taken_once = refl

abbrev held_conversation : Memory
held_conversation = (Memory.acquire_request settings 16 0 77 1 one_conversation).0

supply_one : one_conversation.supply ≡ 1
unfolding is_space rstrip lstrip strip starts join_words sentence_end rfind_space shortened
    derive_name shown_name get_item set_item pop_item change_item is_user is_completed exchanges
    complete_exchanges last_turns exchange_chars select_exchanges both_messages history_of summary
    newer behind last_summary next_boundary first select count update delete modify_first
    insert_sorted sort_by Memory.owner_is Memory.owned Memory.live_lease Memory.change Memory.forget
    Memory.forget_all Memory.keys_where Memory.is_expired Memory.forgotten Memory.cleanup
    Memory.delete_project Memory.new_conversation Memory.create Memory.with_owned
    Memory.unless_leased Memory.get Memory.is_listed Memory.newest_first Memory.list_conversations
    Memory.version_of Memory.get_scope Memory.renamed Memory.rename Memory.put_away Memory.archive
    Memory.brought_back Memory.restore Memory.purge Memory.new_message Memory.appended Memory.append
    Memory.add_user_message Memory.message_ids Memory.pruned Memory.prune
    Memory.add_assistant_message Memory.acquire_request Memory.release_request Memory.get_history
    Memory.perform empty_memory answers_of
supply_one = refl

none_archived : any (archived_under 0) one_conversation.items ≡ false
unfolding is_space rstrip lstrip strip starts join_words sentence_end rfind_space shortened
    derive_name shown_name get_item set_item pop_item change_item is_user is_completed exchanges
    complete_exchanges last_turns exchange_chars select_exchanges both_messages history_of summary
    newer behind last_summary next_boundary first select count update delete modify_first
    insert_sorted sort_by Memory.owner_is Memory.owned Memory.live_lease Memory.change Memory.forget
    Memory.forget_all Memory.keys_where Memory.is_expired Memory.forgotten Memory.cleanup
    Memory.delete_project Memory.new_conversation Memory.create Memory.with_owned
    Memory.unless_leased Memory.get Memory.is_listed Memory.newest_first Memory.list_conversations
    Memory.version_of Memory.get_scope Memory.renamed Memory.rename Memory.put_away Memory.archive
    Memory.brought_back Memory.restore Memory.purge Memory.new_message Memory.appended Memory.append
    Memory.add_user_message Memory.message_ids Memory.pruned Memory.prune
    Memory.add_assistant_message Memory.acquire_request Memory.release_request Memory.get_history
    Memory.perform empty_memory answers_of
none_archived = refl

-- Another request releases, a message is added, old conversations are removed and one is created.
abbrev between : List (ℕ × Request)
between =
    (17, Request.release_request 0 78 1)
    ∷ (18, Request.add_user_message 0 hello 1)
    ∷ (19, Request.cleanup)
    ∷ (20, Request.create 7 none 2)
    ∷ []

between_leaves :
    All
      (λ (call : ℕ × Request).
        (call.0 < 16 + settings.lease_seconds) × (leaves_lease 0 77 call.1 ≡ true))
      between
unfolding leaves_lease
between_leaves =
    ((omega arith, refl), ((omega arith, refl), ((omega arith, refl), ((omega arith, refl), tt))))

lease-excludes_example :
    IsRefused settings 0 77 1 21 78 hello (after_calls settings between held_conversation)
lease-excludes_example =
    lease-excludes settings 0 77 1 one_conversation the_conversation 16 there taken_once
      none_archived (omega (arith, supply_one)) between 21 78 hello between_leaves (omega arith)
      refl
