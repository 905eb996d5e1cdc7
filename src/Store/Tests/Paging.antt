-- ===== src/Store/Tests/Paging.antt =====
-- Runs of a client that follows the cursors of the listings (apps/api/app/store/conversations.py).
use poc_la_graph.Base.{ℕ, ◌≡◌, refl, Option, none, [], ◌∷◌}
use poc_la_graph.Store.Models.{active, Response}
use poc_la_graph.Store.Exchanges.{summary, behind, newer, last_summary, next_boundary}
use poc_la_graph.Store.Memory
use poc_la_graph.Store.Memory.{Memory}
use poc_la_graph.Store.Pages.Client.{page_of, next_of, follow_cursors}
use poc_la_graph.Store.Tests.{settings, one_conversation}
use poc_la_graph.Store.Dict.{get_item, set_item}
use poc_la_graph.Store.Refinement.Steps.{empty_memory}
use poc_la_graph.Plsql.Order.{insert_sorted, sort_by}

-- Two conversations, and their pages of one row.
abbrev two_conversations : Memory
two_conversations = (Memory.create settings 12 7 none 1 one_conversation).0

abbrev ask : Option (ℕ × ℕ) → Response
ask cursor = (Memory.list_conversations settings 20 7 1 active 1 cursor two_conversations).1

pages_in_order :
    follow_cursors 3 ask none
    ≡ summary (Memory.new_conversation settings 12 1 7)
      ∷ summary (Memory.new_conversation settings 10 0 7)
      ∷ []
unfolding Memory.newest_first sort_by Memory.create set_item empty_memory Memory.is_listed
    Memory.new_conversation Memory.owner_is get_item behind newer insert_sorted
    Memory.list_conversations page_of next_of follow_cursors next_boundary last_summary summary
pages_in_order = refl
