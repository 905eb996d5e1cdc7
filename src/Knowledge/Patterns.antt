-- ===== src/Knowledge/Patterns.antt =====
-- The regular expressions of apps/api/app/knowledge/chunking.py as functions: what `finditer`,
-- `match` and `search` of Python's `re` find for them.
use poc_la_graph.Base.{
  ℕ, suc, Bool, true, false, not, ◌&&◌, ◌||◌, ltb, leb, ◌==◌, if◌then◌else◌, List, [], ◌∷◌, ◌++◌,
  length, take, drop, Option, none, some,
}
use poc_la_graph.Knowledge.Text.{Text, Characters, is_space, is_empty, is_blank, strip}

-- The expressions at which `_bounded_ranges` splits a text: `\n\s*\n+`, `(?<=[.!?])\s+`, `\n+`, `\s+`.
pub data Pattern : Type 0 where
  paragraphs sentences lines words : Pattern

-- Where the matches of a greedy run of characters end. A run opens at the beginning or behind a
-- character that allows it, and goes on as long as the characters belong to it.
unfoldable pub run_ends : (ℕ → Bool) → (ℕ → Bool) → Bool → Bool → ℕ → Text → List ℕ
run_ends member opens before inside position [] = if inside then position ∷ [] else []
run_ends member opens before inside position (c ∷ cs) =
    let rest = run_ends member opens (opens c) (member c && (inside || before)) (suc position) cs in
    if inside && not (member c) then position ∷ rest else rest

-- Of white space with at least two newlines, a match ends behind the last one.
unfoldable pub paragraph_ends : ℕ → ℕ → ℕ → Text → List ℕ
paragraph_ends newlines last position [] = if ltb 1 newlines then last ∷ [] else []
paragraph_ends newlines last position (c ∷ cs) =
    let at_newline = c == 10 in
    let blank = is_space c in
    let rest =
      paragraph_ends (if at_newline then suc newlines else (if blank then newlines else 0))
        (if at_newline then suc position else (if blank then last else position)) (suc position)
        cs in
    if not at_newline && (not blank && ltb 1 newlines) then last ∷ rest else rest

abbrev is_stop : ℕ → Bool
is_stop c = c == 46 || c == 33 || c == 63

-- `[match.end() for match in re.finditer(pattern, text)]`
unfoldable pub match_ends : Pattern → Text → List ℕ
match_ends paragraphs text = paragraph_ends 0 0 0 text
match_ends sentences text = run_ends is_space is_stop false false 0 text
match_ends lines text = run_ends (λ c. c == 10) (λ _. true) true false 0 text
match_ends words text = run_ends is_space (λ _. true) true false 0 text

unfoldable pub take_while : (ℕ → Bool) → Text → Text
take_while p [] = []
take_while p (c ∷ cs) = let rest = take_while p cs in if p c then c ∷ rest else []

unfoldable pub drop_while : (ℕ → Bool) → Text → Text
drop_while p [] = []
drop_while p (c ∷ cs) = let rest = drop_while p cs in if p c then rest else c ∷ cs

unfoldable pub starts : (ℕ → Bool) → Text → Bool
starts p [] = false
starts p (c ∷ _) = p c

-- `^(#{1,6})\s+(.+?)\s*$` on a line without its end: the number of marks and the stripped title.
-- Where only white space follows, one character of it is left for the title.
unfoldable pub heading_match : Text → Option (ℕ × Text)
heading_match value =
    let depth = length (take_while (λ c. c == 35) value) in
    let rest = drop_while (λ c. c == 35) value in
    if leb 1 depth
      && (leb depth 6 && (starts is_space rest && (not (is_blank rest) || ltb 1 (length rest))))
    then some (depth, strip rest)
    else none

-- What follows the letters that the tests accept, one after the other.
unfoldable pub after_letters : List (ℕ → Bool) → Text → Option Text
after_letters [] text = some text
after_letters (p ∷ ps) [] = none
after_letters (p ∷ ps) (c ∷ cs) = let rest = after_letters ps cs in if p c then rest else none

module _ (chars : Characters) where
  -- A letter of an expression that ignores case.
  unfoldable pub letter : ℕ → ℕ → Bool
  letter l c = chars.lower c == l

  -- `[A-Z]` of an expression that ignores case: the dotless i and the long s are letters too.
  unfoldable pub any_letter : ℕ → Bool
  any_letter c = let l = chars.lower c in (leb 97 l && leb l 122) || (l == 305 || l == 383)

  -- `ART[IÍ]CULO`
  unfoldable pub article_word : List (ℕ → Bool)
  unfolding letter
  article_word =
      letter 97
      ∷ letter 114
      ∷ letter 116
      ∷ (λ c. letter 105 c || letter 305 c || letter 237 c)
      ∷ letter 99
      ∷ letter 117
      ∷ letter 108
      ∷ letter 111
      ∷ []

  -- `PAR[ÁA]GRAFO`
  unfoldable pub paragraph_word : List (ℕ → Bool)
  unfolding letter
  paragraph_word =
      letter 112
      ∷ letter 97
      ∷ letter 114
      ∷ (λ c. letter 225 c || letter 97 c)
      ∷ letter 103
      ∷ letter 114
      ∷ letter 97
      ∷ letter 102
      ∷ letter 111
      ∷ []

  -- `(\d+[A-Z]?)\b`
  unfoldable pub article_number : Text → Option Text
  article_number text =
      let digits = take_while chars.is_digit text in
      let rest = drop_while chars.is_digit text in
      if is_empty digits
      then none
      else if starts any_letter rest
      then (if starts chars.is_word (drop 1 rest) then none else some (digits ++ take 1 rest))
      else (if starts chars.is_word rest then none else some digits)

  -- The group of a match of `ART[IÍ]CULO\s+(\d+[A-Z]?)\b` at the beginning of the text.
  unfoldable pub article_at : Text → Option Text
  article_at text = elim (after_letters article_word text) [
    | none ↦ none
    | some rest ↦ if starts is_space rest then article_number (drop_while is_space rest) else none
  ]

  -- `_ARTICLE.search(value)`: the group of the first match that a word boundary precedes.
  unfoldable pub article_search : Bool → Text → Option Text
  article_search before_word [] = none
  article_search before_word (c ∷ cs) =
      let later = article_search (chars.is_word c) cs in
      let boundary = if before_word then not (chars.is_word c) else chars.is_word c in
      elim (if boundary then article_at (c ∷ cs) else none) [
        | none ↦ later
        | some number ↦ some number
      ]

  -- `(?:[a-z]\))|(?:\d+[.)])|(?:PAR[ÁA]GRAFO(?:\s+\d+)?)`
  unfoldable pub marker_at : Text → Option Text
  marker_at text =
      let digits = take_while chars.is_digit text in
      let behind = drop_while chars.is_digit text in
      if starts any_letter text && starts (λ c. c == 41) (drop 1 text)
      then some (take 2 text)
      else if not (is_empty digits) && starts (λ c. c == 46 || c == 41) behind
      then some (digits ++ take 1 behind)
      else elim (after_letters paragraph_word text) [
        | none ↦ none
        | some rest ↦
            let number = take_while chars.is_digit (drop_while is_space rest) in
            let numbered = starts is_space rest && not (is_empty number) in
            some (take 9 text ++ (if numbered then take_while is_space rest ++ number else []))
      ]

  -- `_MARKER.match(value)`, the group stripped.
  unfoldable pub marker_match : Text → Option Text
  marker_match value =
      let is_mark = λ (c : ℕ). c == 35 || c == 62 || c == 42 || c == 45 in
      let start = drop_while is_space value in
      let marked =
        if starts is_mark start then drop_while is_space (drop_while is_mark start) else start in
      elim (marker_at (drop_while is_space (drop_while (λ c. c == 42) marked))) [
        | none ↦ none
        | some found ↦ some (strip found)
      ]
