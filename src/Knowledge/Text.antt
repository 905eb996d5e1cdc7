-- ===== src/Knowledge/Text.antt =====
-- Texts as lists of characters, and the methods of Python's `str` that the chunking of documents
-- calls (apps/api/app/knowledge/chunking.py). What the standard library takes from the tables of
-- Unicode is a record of functions; the white space is written out.
use poc_la_graph.Base.{
  ℕ, ◌+◌, ◌-◌, Bool, true, false, not, ◌&&◌, ◌||◌, leb, ◌==◌, if◌then◌else◌, List, [], ◌∷◌, take,
  drop, any,
}

abbrev pub Text : Type 0
Text = List ℕ

-- The tables of Unicode that regular expressions and `str.upper` read.
pub record Characters : Type 0 where
  pub is_word : ℕ → Bool
  pub is_digit : ℕ → Bool
  pub lower : ℕ → ℕ
  pub upper : Text → Text

abbrev between : ℕ → ℕ → ℕ → Bool
between low high c = leb low c && leb c high

-- `str.isspace`, which `\s` and `str.strip` follow.
unfoldable pub is_space : ℕ → Bool
is_space c =
    between 9 13 c
    || between 28 32 c
    || between 8192 8202 c
    || between 8232 8233 c
    || any (λ s. s == c) (133 ∷ 160 ∷ 5760 ∷ 8239 ∷ 8287 ∷ 12288 ∷ [])

-- `str.splitlines` ends a line at these.
unfoldable pub is_line_break : ℕ → Bool
is_line_break c = between 10 13 c || between 28 30 c || between 8232 8233 c || c == 133

abbrev pub is_empty : Text → Bool
is_empty [] = true
is_empty (_ ∷ _) = false

abbrev pub text_eq : Text → Text → Bool
text_eq [] [] = true
text_eq [] (_ ∷ _) = false
text_eq (_ ∷ _) [] = false
text_eq (c ∷ cs) (d ∷ ds) = c == d && text_eq cs ds

-- `text[start:end]`
unfoldable pub slice : ℕ → ℕ → Text → Text
slice start end text = take (end - start) (drop start text)

unfoldable pub lstrip : (ℕ → Bool) → Text → Text
lstrip p [] = []
lstrip p (c ∷ cs) = let rest = lstrip p cs in if p c then rest else c ∷ cs

unfoldable pub rstrip : (ℕ → Bool) → Text → Text
rstrip p [] = []
rstrip p (c ∷ cs) = let rest = rstrip p cs in if p c && is_empty rest then [] else c ∷ rest

-- `text.strip()`
unfoldable pub strip : Text → Text
strip text = rstrip is_space (lstrip is_space text)

-- `not text.strip()`
unfoldable pub is_blank : Text → Bool
is_blank text = is_empty (strip text)

-- `line.rstrip("\n\r\f")`
unfoldable pub rstrip_line : Text → Text
rstrip_line line = rstrip (λ c. c == 10 || c == 13 || c == 12) line

unfoldable pub starts_with : ℕ → Text → Bool
starts_with c [] = false
starts_with c (d ∷ _) = d == c

-- A line ends after this character, unless it is the first half of `\r\n`.
unfoldable pub ends_line : ℕ → Text → Bool
ends_line c rest = is_line_break c && not (c == 13 && starts_with 10 rest)

abbrev pub push : ℕ → List Text → List Text
push c [] = (c ∷ []) ∷ []
push c (line ∷ lines) = (c ∷ line) ∷ lines

-- `text.splitlines(keepends=True)`
unfoldable pub splitlines : Text → List Text
splitlines [] = []
splitlines (c ∷ cs) =
    let rest = splitlines cs in if ends_line c cs then (c ∷ []) ∷ rest else push c rest

-- `text.count("\n")`
unfoldable pub count_newlines : Text → ℕ
count_newlines [] = 0
count_newlines (c ∷ cs) = (if c == 10 then 1 else 0) + count_newlines cs
