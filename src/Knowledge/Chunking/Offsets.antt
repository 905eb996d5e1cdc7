-- ===== src/Knowledge/Chunking/Offsets.antt =====
-- What the tokenizer documents, and the characters of spans of tokens
-- (apps/api/app/knowledge/chunking.py).
use poc_la_graph.Base.{
  ℕ, zero, suc, ◌+◌, ◌-◌, ◌≤◌, ◌<◌, ◌≡◌, refl, ltb, List, [], ◌∷◌, length, some, arith, inl, inr,
  Bool-cases, Bool, true, false, not, ◌&&◌, ◌||◌, leb, any,
}
use poc_la_graph.Knowledge.Text.{Text}
use poc_la_graph.Knowledge.Chunking.{Range, Encoding, has_special, get_elem?, char_end}
use poc_la_graph.Knowledge.Chunking.Tiles.{Rising}

-- A character that UTF-8 encodes.
unfoldable pub is_scalar : ℕ → Bool
is_scalar c = leb c 55295 || (leb 57344 c && leb c 1114111)

-- The text can be encoded in UTF-8 and contains no special token.
unfoldable pub is_plain : Encoding → Text → Bool
is_plain encoding text = not (has_special encoding text) && not (any (λ c. not (is_scalar c)) text)

pub is_plain-has_special :
    (encoding : Encoding) (text : Text)
    → is_plain encoding text ≡ true
    → has_special encoding text ≡ false
unfolding is_plain
is_plain-has_special encoding text h = ground arith

-- What the tokenizer documents of texts in UTF-8 without special tokens: decoding gives the text back, a text without tokens is empty, and
-- there is one offset for each token, the first is 0, and none falls or lies outside the text.
pub record IsEncoding (encoding : Encoding) : Type 0 where
  pub exact :
      (text : Text)
      → is_plain encoding text ≡ true
      → (encoding.decode_with_offsets (encoding.encode text)).0 ≡ text
  pub nothing :
      (text : Text) → is_plain encoding text ≡ true → encoding.encode text ≡ [] → text ≡ []
  pub one_each :
      (text : Text)
      → is_plain encoding text ≡ true
      → length ((encoding.decode_with_offsets (encoding.encode text)).1)
        ≡ length (encoding.encode text)
  pub from_zero :
      (text : Text)
      → is_plain encoding text ≡ true
      → 0 < length (encoding.encode text)
      → get_elem? ((encoding.decode_with_offsets (encoding.encode text)).1) 0 ≡ some 0
  pub in_order :
      (text : Text)
      → is_plain encoding text ≡ true
      → Rising 0 (length text) ((encoding.decode_with_offsets (encoding.encode text)).1)

-- The first character of a token, and the end of the text behind the last token.
unfoldable pub bound : List ℕ → ℕ → ℕ → ℕ
bound [] len k = len
bound (x ∷ xs) len zero = x
bound (x ∷ xs) len (suc k) = bound xs len k

pub bound-get_elem? :
    (offsets : List ℕ) (len k : ℕ)
    → k < length offsets
    → get_elem? offsets k ≡ some (bound offsets len k)
unfolding bound get_elem?
bound-get_elem? [] len k h = absurd (omega arith)
bound-get_elem? (x ∷ xs) len zero h = refl
bound-get_elem? (x ∷ xs) len (suc k) h = bound-get_elem? xs len k (omega arith)

pub bound_end : (offsets : List ℕ) (len k : ℕ) → length offsets ≤ k → bound offsets len k ≡ len
unfolding bound
bound_end [] len k h = refl
bound_end (x ∷ xs) len zero h = absurd (omega arith)
bound_end (x ∷ xs) len (suc k) h = bound_end xs len k (omega arith)

pub char_end-bound :
    (offsets : List ℕ) (len k : ℕ) → char_end offsets len k ≡ some (bound offsets len k)
unfolding char_end
char_end-bound offsets len k = elim (Bool-cases (ltb k (length offsets))) [
  | inl e ↦ rw e (bound-get_elem? offsets len k (ground arith))
  | inr e ↦ rw (e, bound_end offsets len k (ground arith)) refl
]

bound_above : (offsets : List ℕ) (lo len k : ℕ) → Rising lo len offsets → lo ≤ bound offsets len k
unfolding bound
bound_above [] lo len k h = h
bound_above (x ∷ xs) lo len zero (le, h) = le
bound_above (x ∷ xs) lo len (suc k) (le, h) = omega (arith, bound_above xs x len k h)

pub bound_mono :
    (offsets : List ℕ) (lo len j k : ℕ)
    → Rising lo len offsets
    → j ≤ k
    → bound offsets len j ≤ bound offsets len k
unfolding bound
bound_mono [] lo len j k h le = omega arith
bound_mono (x ∷ xs) lo len zero zero (a, h) le = omega arith
bound_mono (x ∷ xs) lo len zero (suc k) (a, h) le = bound_above xs x len k h
bound_mono (x ∷ xs) lo len (suc j) zero (a, h) le = absurd (omega arith)
bound_mono (x ∷ xs) lo len (suc j) (suc k) (a, h) le = bound_mono xs x len j k h (omega arith)

-- The characters of a span of tokens.
unfoldable pub char_span : List ℕ → ℕ → ℕ → Range → Range
char_span offsets len base (a, b) = (base + bound offsets len a, base + bound offsets len b)

-- Spans of tokens from the first given one to the last: each but the last has the full size, the
-- last is not larger, and each begins the overlap before the end of the one before it.
abbrev pub Windowing : ℕ → ℕ → ℕ → ℕ → List Range → Type 0
Windowing limit overlap count start [] = ⊥
Windowing limit overlap count start ((a, b) ∷ []) =
    (a ≡ start) × ((a < b) × ((b ≤ a + limit) × (b ≡ count)))
Windowing limit overlap count start ((a, b) ∷ next ∷ rest) =
    (a ≡ start)
    × ((b ≡ a + limit) × ((b < count) × Windowing limit overlap count (b - overlap) (next ∷ rest)))

pub Windowing-cons :
    (limit overlap count start : ℕ) (rest : List Range)
    → start + limit < count
    → Windowing limit overlap count (start + limit - overlap) rest
    → Windowing limit overlap count start ((start, start + limit) ∷ rest)
Windowing-cons limit overlap count start [] h w = absurd w
Windowing-cons limit overlap count start (next ∷ rest) h w = (refl, (refl, (h, w)))
