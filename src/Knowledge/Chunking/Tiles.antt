-- ===== src/Knowledge/Chunking/Tiles.antt =====
-- Ranges of characters that follow one another without a gap, the characters inside them, and the
-- white space of a slice (apps/api/app/knowledge/chunking.py).
use poc_la_graph.Base.{
  ℕ, zero, suc, ◌+◌, ◌-◌, ◌≤◌, ◌<◌, ◌≡◌, refl, ap, ◌∙◌, Bool, true, false, not, ◌&&◌, ◌||◌, ltb,
  leb, List, [], ◌∷◌, ◌++◌, length, take, drop, keep, arith, inl, inr, Bool-cases,
}
use poc_la_graph.Knowledge.Text.{Text, is_space, is_blank, strip, lstrip, rstrip, slice}
use poc_la_graph.Knowledge.Chunking.{Range, has_text}

-- The ranges begin at the first number, each where the last one ends, and end at the second.
abbrev pub Tiles : ℕ → ℕ → List Range → Type 0
Tiles lo hi [] = lo ≡ hi
Tiles lo hi ((start, end) ∷ rest) = (start ≡ lo) × ((start ≤ end) × Tiles end hi rest)

pub Tiles-append :
    (lo mid hi : ℕ) (xs ys : List Range)
    → Tiles lo mid xs
    → Tiles mid hi ys
    → Tiles lo hi (xs ++ ys)
Tiles-append lo mid hi [] ys e t = rw e t
Tiles-append lo mid hi ((a, b) ∷ xs) ys (e, (le, s)) t = (e, (le, Tiles-append b mid hi xs ys s t))

pub Tiles-le : (lo hi : ℕ) (xs : List Range) → Tiles lo hi xs → lo ≤ hi
Tiles-le lo hi [] e = omega arith
Tiles-le lo hi ((a, b) ∷ xs) (e, (le, s)) = omega (arith, Tiles-le b hi xs s)

-- Numbers that do not fall and stay between two bounds.
abbrev pub Rising : ℕ → ℕ → List ℕ → Type 0
Rising lo hi [] = lo ≤ hi
Rising lo hi (x ∷ xs) = (lo ≤ x) × Rising x hi xs

pub Rising-le : (lo hi : ℕ) (xs : List ℕ) → Rising lo hi xs → lo ≤ hi
Rising-le lo hi [] h = h
Rising-le lo hi (x ∷ xs) (le, h) = omega (arith, Rising-le x hi xs h)

-- The position lies in one of the ranges.
unfoldable pub in_range : ℕ → Range → Bool
in_range i (start, end) = leb start i && ltb i end

unfoldable pub inside : ℕ → List Range → Bool
inside i [] = false
inside i (r ∷ rs) = in_range i r || inside i rs

pub Tiles-inside :
    (i lo hi : ℕ) (rs : List Range) → Tiles lo hi rs → lo ≤ i → i < hi → inside i rs ≡ true
unfolding inside in_range
Tiles-inside i lo hi [] e low high = absurd (omega arith)
Tiles-inside i lo hi ((a, b) ∷ rs) (e, (le, t)) low high = elim (Bool-cases (ltb i b)) [
  | inl h ↦ ground arith
  | inr h ↦ ground (arith, Tiles-inside i b hi rs t (ground arith) high)
]

pub inside-append :
    (i : ℕ) (xs ys : List Range) → inside i (xs ++ ys) ≡ (inside i xs || inside i ys)
unfolding inside
inside-append i [] ys = refl
inside-append i (x ∷ xs) ys = ground (arith, inside-append i xs ys)

-- `not text[i].isspace()`, and no where the text has no such character.
unfoldable pub visible : ℕ → Text → Bool
visible i [] = false
visible zero (c ∷ cs) = not (is_space c)
visible (suc i) (c ∷ cs) = visible i cs

pub visible-drop : (n i : ℕ) (text : Text) → visible i (drop n text) ≡ visible (n + i) text
unfolding visible
visible-drop zero i text = let e : i ≡ 0 + i = omega arith in ap (λ k. visible k text) e
visible-drop (suc n) i [] = refl
visible-drop (suc n) i (c ∷ cs) =
    let e : suc (n + i) ≡ suc n + i = omega arith in
    visible-drop n i cs ∙ ap (λ k. visible k (c ∷ cs)) e

pub visible-take : (n i : ℕ) (text : Text) → i < n → visible i (take n text) ≡ visible i text
unfolding visible
visible-take zero i text h = absurd (omega arith)
visible-take (suc n) i [] h = refl
visible-take (suc n) zero (c ∷ cs) h = refl
visible-take (suc n) (suc i) (c ∷ cs) h = visible-take n i cs (omega arith)

pub visible-length : (i : ℕ) (text : Text) → visible i text ≡ true → i < length text
unfolding visible
visible-length i [] h = absurd (ground arith)
visible-length zero (c ∷ cs) h = omega arith
visible-length (suc i) (c ∷ cs) h = omega (arith, visible-length i cs h)

-- A character of a slice is one of the text.
pub visible-slice :
    (i start end : ℕ) (text : Text)
    → start ≤ i
    → i < end
    → visible (i - start) (slice start end text) ≡ visible i text
unfolding slice
visible-slice i start end text low high =
    let e : start + (i - start) ≡ i = omega arith in
    visible-take (end - start) (i - start) (drop start text) (omega arith)
    ∙ visible-drop start (i - start) text
    ∙ ap (λ k. visible k text) e

-- A text with a visible character is not blank.
pub visible-is_blank : (i : ℕ) (text : Text) → visible i text ≡ true → is_blank text ≡ false
unfolding visible is_blank strip lstrip rstrip
visible-is_blank i [] h = absurd (ground arith)
visible-is_blank zero (c ∷ cs) h = ground arith
visible-is_blank (suc i) (c ∷ cs) h = elim (Bool-cases (is_space c)) [
  | inl e ↦ ground (arith, visible-is_blank i cs h)
  | inr e ↦ ground arith
]

-- A range with a visible character has text.
pub in_range-has_text :
    (i : ℕ) (text : Text) (r : Range)
    → visible i text ≡ true
    → in_range i r ≡ true
    → has_text text r ≡ true
unfolding in_range has_text
in_range-has_text i text (start, end) seen h = ap not (
    visible-is_blank (i - start) (slice start end text)
      (visible-slice i start end text (ground arith) (ground arith) ∙ seen))

-- The ranges that are kept still hold the visible characters.
pub inside-keep :
    (i : ℕ) (text : Text) (rs : List Range)
    → visible i text ≡ true
    → inside i rs ≡ true
    → inside i (keep (has_text text) rs) ≡ true
unfolding inside
inside-keep i text [] seen h = h
inside-keep i text (r ∷ rs) seen h =
    ground (arith, in_range-has_text i text r seen, inside-keep i text rs seen)
