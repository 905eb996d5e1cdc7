-- ===== src/Store/History.antt =====
-- The size of the history that is given to the agent (`get_history` of
-- apps/api/app/store/conversations.py and apps/api/app/store/sqlalchemy.py).
use mathlib.Core.List.{reverse-cons}
use poc_la_graph.Base.{
  ℕ, ◌+◌, ◌-◌, ◌*◌, ◌≤◌, ◌≡◌, refl, Bool, true, false, ◌&&◌, ltb, List, [], ◌∷◌, ◌++◌, length,
  reverse, arith, inl, inr, Bool-cases, length-drop, length-append,
}
use poc_la_graph.Store.Models.{Message}
use poc_la_graph.Store.Exchanges.{
  complete_exchanges, last_turns, exchange_chars, select_exchanges, both_messages, history_of,
}

-- The characters of messages, and of exchanges.
unfoldable pub chars_of : List Message → ℕ
chars_of [] = 0
chars_of (m ∷ ms) = length m.content + chars_of ms

total : List (Message × Message) → ℕ
total [] = 0
total (e ∷ es) = exchange_chars e + total es

select_exchanges-total :
    (max_chars : ℕ) (selected : Bool) (used : ℕ) (es : List (Message × Message))
    → (selected ≡ false → used ≡ 0)
    → used ≤ max_chars
    → used + total (select_exchanges max_chars selected used es) ≤ max_chars
unfolding select_exchanges total
select_exchanges-total max_chars selected used [] first bound = omega arith
select_exchanges-total max_chars selected used (e ∷ es) first bound =
    let chars = exchange_chars e in
    let skipped = select_exchanges-total max_chars selected used es first bound in
    elim (Bool-cases (selected && ltb max_chars (used + chars))) [
      | inl stop ↦ rw stop (omega arith)
      | inr go ↦ elim (Bool-cases (ltb max_chars chars)) [
        | inl large ↦ rw (go, large) skipped
        | inr fits ↦
            let within : used + chars ≤ max_chars = ground (arith, first) in
            let taken =
              select_exchanges-total max_chars true (used + chars) es (λ h. absurd (ground arith))
                within in
            rw (go, fits) (omega arith)
      ]
    ]

select_exchanges-length :
    (max_chars : ℕ) (selected : Bool) (used : ℕ) (es : List (Message × Message))
    → length (select_exchanges max_chars selected used es) ≤ length es
unfolding select_exchanges
select_exchanges-length max_chars selected used [] = omega arith
select_exchanges-length max_chars selected used (e ∷ es) = ground (
  arith,
  select_exchanges-length max_chars selected used es,
  select_exchanges-length max_chars true (used + exchange_chars e) es,
)

total-append : (xs ys : List (Message × Message)) → total (xs ++ ys) ≡ total xs + total ys
unfolding total
total-append [] ys = omega arith
total-append (x ∷ xs) ys = omega (arith, total-append xs ys)

total-reverse : (xs : List (Message × Message)) → total (reverse xs) ≡ total xs
unfolding total
total-reverse [] = refl
total-reverse (x ∷ xs) =
    rw (reverse-cons x xs) (omega (arith, total-append (reverse xs) (x ∷ []), total-reverse xs))

length-reverse : (xs : List (Message × Message)) → length (reverse xs) ≡ length xs
length-reverse [] = refl
length-reverse (x ∷ xs) =
    rw (reverse-cons x xs) (omega (arith, length-append (reverse xs) (x ∷ []), length-reverse xs))

chars_of-both_messages : (es : List (Message × Message)) → chars_of (both_messages es) ≡ total es
unfolding chars_of both_messages total exchange_chars
chars_of-both_messages [] = refl
chars_of-both_messages ((q, a) ∷ es) = omega (arith, chars_of-both_messages es)

length-both_messages : (es : List (Message × Message)) → length (both_messages es) ≡ 2 * length es
unfolding both_messages
length-both_messages [] = refl
length-both_messages ((q, a) ∷ es) = omega (arith, length-both_messages es)

length-last_turns : {A : Type 0} (n : ℕ) (xs : List A) → 1 ≤ n → length (last_turns n xs) ≤ n
unfolding last_turns
length-last_turns n xs h = ground (arith, length-drop (length xs - n) xs)

-- For a positive number of turns, the history of any messages has at most that many exchanges, two
-- messages for each, and at most the given number of characters in all.
pub history_of-bounds :
    (max_turns max_chars : ℕ) (messages : List Message)
    → 1 ≤ max_turns
    → (length (history_of max_turns max_chars messages) ≤ 2 * max_turns)
      × (chars_of (history_of max_turns max_chars messages) ≤ max_chars)
unfolding history_of
history_of-bounds max_turns max_chars messages pos =
    let turns = last_turns max_turns (complete_exchanges messages) in
    let newest = reverse turns in
    let picked = select_exchanges max_chars false 0 newest in
    (
      omega (
        arith,
        length-both_messages (reverse picked),
        length-reverse picked,
        select_exchanges-length max_chars false 0 newest,
        length-reverse turns,
        length-last_turns max_turns (complete_exchanges messages) pos,
      ),
      omega (
        arith,
        chars_of-both_messages (reverse picked),
        total-reverse picked,
        select_exchanges-total max_chars false 0 newest (λ h. refl) (omega arith),
      ),
    )
