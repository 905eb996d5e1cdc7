-- ===== src/Knowledge/Chunking/Plain.antt =====
-- A slice of a text that the tokenizer accepts is accepted (apps/api/app/knowledge/chunking.py).
use poc_la_graph.Base.{
  ℕ, zero, suc, ◌-◌, ◌≡◌, refl, Bool, true, false, not, List, [], ◌∷◌, take, drop, any, arith, inl,
  inr, Bool-cases,
}
use poc_la_graph.Knowledge.Text.{Text, slice}
use poc_la_graph.Knowledge.Chunking.{Encoding, is_prefix, contains_text, has_special}
use poc_la_graph.Knowledge.Chunking.Offsets.{is_scalar, is_plain}

is_prefix-take :
    (token : Text) (n : ℕ) (text : Text)
    → is_prefix token (take n text) ≡ true
    → is_prefix token text ≡ true
unfolding is_prefix
is_prefix-take [] n text h = refl
is_prefix-take (t ∷ ts) zero text h = absurd (ground arith)
is_prefix-take (t ∷ ts) (suc n) [] h = h
is_prefix-take (t ∷ ts) (suc n) (c ∷ cs) h = ground (arith, is_prefix-take ts n cs)

contains_text-take :
    (token : Text) (n : ℕ) (text : Text)
    → contains_text token (take n text) ≡ true
    → contains_text token text ≡ true
unfolding contains_text is_prefix
contains_text-take [] n [] h = refl
contains_text-take [] n (c ∷ cs) h = refl
contains_text-take (t ∷ ts) zero text h = absurd (ground arith)
contains_text-take (t ∷ ts) (suc n) [] h = h
contains_text-take (t ∷ ts) (suc n) (c ∷ cs) h =
    ground (arith, is_prefix-take (t ∷ ts) (suc n) (c ∷ cs), contains_text-take (t ∷ ts) n cs)

contains_text-drop :
    (token : Text) (n : ℕ) (text : Text)
    → contains_text token (drop n text) ≡ true
    → contains_text token text ≡ true
unfolding contains_text
contains_text-drop token zero text h = h
contains_text-drop token (suc n) [] h = h
contains_text-drop token (suc n) (c ∷ cs) h = ground (arith, contains_text-drop token n cs h)

contains_text-slice :
    (token : Text) (a b : ℕ) (text : Text)
    → contains_text token (slice a b text) ≡ true
    → contains_text token text ≡ true
unfolding slice
contains_text-slice token a b text h =
    contains_text-drop token a text (contains_text-take token (b - a) (drop a text) h)

any-take : (p : ℕ → Bool) (n : ℕ) (xs : List ℕ) → any p xs ≡ false → any p (take n xs) ≡ false
any-take p zero xs h = refl
any-take p (suc n) [] h = h
any-take p (suc n) (x ∷ xs) h = ground (arith, any-take p n xs)

any-drop : (p : ℕ → Bool) (n : ℕ) (xs : List ℕ) → any p xs ≡ false → any p (drop n xs) ≡ false
any-drop p zero xs h = h
any-drop p (suc n) [] h = h
any-drop p (suc n) (x ∷ xs) h = any-drop p n xs (ground arith)

specials-slice :
    (tokens : List Text) (a b : ℕ) (text : Text)
    → any (λ token. contains_text token text) tokens ≡ false
    → any (λ token. contains_text token (slice a b text)) tokens ≡ false
specials-slice [] a b text h = refl
specials-slice (t ∷ ts) a b text h = elim (Bool-cases (contains_text t (slice a b text))) [
  | inl e ↦ absurd (ground (arith, contains_text-slice t a b text e))
  | inr e ↦ ground (arith, specials-slice ts a b text)
]

pub has_special-slice :
    (encoding : Encoding) (a b : ℕ) (text : Text)
    → has_special encoding text ≡ false
    → has_special encoding (slice a b text) ≡ false
unfolding has_special
has_special-slice encoding a b text h = specials-slice encoding.special_tokens a b text h

pub is_plain-slice :
    (encoding : Encoding) (a b : ℕ) (text : Text)
    → is_plain encoding text ≡ true
    → is_plain encoding (slice a b text) ≡ true
unfolding is_plain
is_plain-slice encoding a b text h =
    let special = has_special-slice encoding a b text (ground arith) in
    let scalar : any (λ c. not (is_scalar c)) (slice a b text) ≡ false =
      unfold slice in
      any-take (λ c. not (is_scalar c)) (b - a) (drop a text)
        (any-drop (λ c. not (is_scalar c)) a text (ground arith)) in
    ground arith
