-- ===== src/Store/Refinement/Requests.antt =====
-- Taking and releasing the lease of a request: both stores answer alike (apps/api/app/store).
use poc_la_graph.Base.{
  ℕ, ◌+◌, ◌≡◌, refl, Bool, true, false, ◌&&◌, ◌==◌, none, some, arith, inl, inr, Bool-cases,
  Option-cases,
}
use poc_la_graph.Base.Table.{first, modify_first, count_none, count_some}
use poc_la_graph.Store.Models.{Response, Error, Settings}
use poc_la_graph.Store.Dict.{set_item, pop_item, get_item-pop_item}
use poc_la_graph.Store.Memory
use poc_la_graph.Store.Memory.{Memory}
use poc_la_graph.Store.Sql
use poc_la_graph.Store.Tables.{
  ConversationRow, Database, has_id, is_row_of, get_row, conversation_model,
}
use poc_la_graph.Store.Refinement.Relation.{
  proper_row, model_of, lease_of, from_row, Agrees, Same, Same-by, row_found, row_proper,
  owned-get_row,
}
use poc_la_graph.Store.Refinement.Leases.{
  IsLeaseChange, lease_known, is_free-lease_of, acquire-Sql_free, acquire-Sql_held,
  acquire-Sql_missing, taken-Agrees, first-row, update-row, lease-Agrees, lease-modify_first,
}

module _ (m : Memory) (db : Database) (a : Agrees m db) (settings : Settings) (now : ℕ) where
  pub acquire_request-Same :
      (id request o : ℕ)
      → Same
          (Memory.acquire_request settings now id request o m)
          (Sql.acquire_request settings now id request o db)
  unfolding Memory.acquire_request Memory.with_owned Sql.is_free from_row lease_of
  acquire_request-Same id request o = elim (Option-cases (get_row true id o db)) [
    | inl e ↦
        Same-by _ (m, Response.raised (Error.conversation_not_found id)) _ _
          (ground (arith, owned-get_row m db a true id o))
          (acquire-Sql_missing m db a settings now id request o e) (refl, a)
    | inr (r, e) ↦
        let found = row_found m db a true id o r e in
        let held_lease = lease_known m db a settings now id r found in
        let test =
          is_free-lease_of m db a settings now request r (row_proper m db a true id o r e) in
        elim (Bool-cases (Sql.is_free settings now request r)) [
          | inl free ↦
              Same-by _
                (
                  record m {
                    leases = set_item id (request, now + settings.lease_seconds) m.leases;
                  },
                  Response.nothing,
                )
                _ _ (ground (arith, owned-get_row m db a true id o))
                (acquire-Sql_free m db a settings now id request o r e free)
                (refl, taken-Agrees m db a settings now id request r found)
          | inr held ↦ elim (Option-cases r.active_request_id) [
            | inl none_active ↦ absurd (ground arith)
            | inr (holder, active) ↦ elim (Option-cases r.lease_expires_at) [
              | inl no_expiry ↦ absurd (ground arith)
              | inr (expires, until) ↦
                  Same-by _ (m, Response.raised (Error.request_conflict id holder)) _
                    (db, Response.raised (Error.request_conflict id holder))
                    (ground (arith, owned-get_row m db a true id o))
                    (ground (arith, acquire-Sql_held m db a settings now id request o r e held))
                    (refl, a)
            ]
          ]
        ]
  ]

  released-IsLeaseChange : IsLeaseChange (Sql.released settings now)
  unfolding Sql.released proper_row model_of conversation_model
  released-IsLeaseChange = record {
    same_id = λ r. refl;
    same_owner = λ r. refl;
    same_version = λ r. refl;
    still_proper = λ r h. ground arith;
    same_model = λ messages r. refl;
  }

  released-Agrees :
      (id : ℕ) (r : ConversationRow)
      → first (has_id id) db.conversations ≡ some r
      → Agrees
          (record m { leases = pop_item id m.leases })
          (record db {
            conversations = modify_first (has_id id) (Sql.released settings now) db.conversations;
          })
  unfolding Sql.released lease_of
  released-Agrees id r found =
      let c = released-IsLeaseChange in
      lease-Agrees m db a (Sql.released settings now) c id _ (λ i. ground (
        arith,
        get_item-pop_item i id m.leases,
        lease-modify_first (Sql.released settings now) c i id db.conversations r found,
        a.leases i,
      ))

  holds-lease_of :
      (request : ℕ) (r : ConversationRow)
      → proper_row r ≡ true
      → Sql.holds settings now request r ≡ elim (lease_of r) as (λ _. Bool) [
        | none ↦ false
        | some (holder, expires) ↦ holder == request
      ]
  unfolding Sql.holds lease_of proper_row
  holds-lease_of request r proper = ground arith

  release-Sql_held :
      (id request o : ℕ) (r : ConversationRow)
      → get_row false id o db ≡ some r
      → Sql.holds settings now request r ≡ true
      → Sql.release_request settings now id request o db ≡ (
        record db {
          conversations = modify_first (has_id id) (Sql.released settings now) db.conversations;
        },
        Response.nothing,
      )
  unfolding Sql.release_request
  release-Sql_held id request o r e held =
      let some_row =
        count_some (λ x. is_row_of false id o x && Sql.holds settings now request x)
          db.conversations r
          (ground (arith, first-row m db a false id o (Sql.holds settings now request))) in
      let changed =
        update-row m db a false id o (Sql.holds settings now request) (Sql.released settings now) r
          e held in
      ground arith

  release-Sql_other :
      (id request o : ℕ) (r : ConversationRow)
      → get_row false id o db ≡ some r
      → Sql.holds settings now request r ≡ false
      → Sql.release_request settings now id request o db ≡ (db, Response.nothing)
  unfolding Sql.release_request Sql.with_row
  release-Sql_other id request o r e other =
      let no_row =
        count_none (λ x. is_row_of false id o x && Sql.holds settings now request x)
          db.conversations
          (ground (arith, first-row m db a false id o (Sql.holds settings now request))) in
      ground arith

  release-Sql_missing :
      (id request o : ℕ)
      → get_row false id o db ≡ none
      → Sql.release_request settings now id request o db
        ≡ (db, Response.raised (Error.conversation_not_found id))
  unfolding Sql.release_request Sql.with_row
  release-Sql_missing id request o e =
      let no_row =
        count_none (λ x. is_row_of false id o x && Sql.holds settings now request x)
          db.conversations
          (ground (arith, first-row m db a false id o (Sql.holds settings now request))) in
      ground arith

  pub release_request-Same :
      (id request o : ℕ)
      → Same
          (Memory.release_request settings now id request o m)
          (Sql.release_request settings now id request o db)
  unfolding Memory.release_request Memory.with_owned from_row
  release_request-Same id request o = elim (Option-cases (get_row false id o db)) [
    | inl e ↦
        Same-by _ (m, Response.raised (Error.conversation_not_found id)) _ _
          (ground (arith, owned-get_row m db a false id o)) (release-Sql_missing id request o e)
          (refl, a)
    | inr (r, e) ↦
        let found = row_found m db a false id o r e in
        let held_lease = lease_known m db a settings now id r found in
        let test = holds-lease_of request r (row_proper m db a false id o r e) in
        elim (Bool-cases (Sql.holds settings now request r)) [
          | inl held ↦
              Same-by _ (record m { leases = pop_item id m.leases }, Response.nothing) _ _
                (ground (arith, owned-get_row m db a false id o))
                (release-Sql_held id request o r e held) (refl, released-Agrees id r found)
          | inr other ↦
              Same-by _ (m, Response.nothing) _ _ (ground (arith, owned-get_row m db a false id o))
                (release-Sql_other id request o r e other) (refl, a)
        ]
  ]
