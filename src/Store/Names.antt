-- ===== src/Store/Names.antt =====
-- The names of conversations: `_derive_name` and the name that is shown
-- (apps/api/app/store/conversations.py and apps/api/app/store/sqlalchemy.py).
use poc_la_graph.Base.{
  ℕ, suc, Bool, false, not, ◌&&◌, ◌||◌, leb, ltb, ◌==◌, if◌then◌else◌, [], ◌∷◌, ◌++◌, length, take,
  Option, none, some,
}
use poc_la_graph.Knowledge.Text.{Text, is_space, is_empty, strip, rstrip}
use poc_la_graph.Knowledge.Patterns.{starts}

-- `New conversation`
abbrev pub default_name : Text
default_name =
    b'N' ∷ b'e' ∷ b'w' ∷ 32 ∷ b'c' ∷ b'o' ∷ b'n' ∷ b'v' ∷ b'e' ∷ b'r' ∷ b's' ∷ b'a' ∷ b't' ∷ b'i'
    ∷ b'o' ∷ b'n' ∷ []

-- `" ".join(content.split())`: runs of white space become one space, and none is left at the ends.
-- The flag says that a word came before, and that white space came since.
unfoldable pub join_words : Bool → Bool → Text → Text
join_words begun gap [] = []
join_words begun gap (c ∷ cs) =
    let blank = is_space c in
    let rest = join_words (begun || not blank) blank cs in
    if blank then rest else (if begun && gap then 32 ∷ c ∷ rest else c ∷ rest)

-- `[.!?;:](?:\s|$)`: where the first match ends.
unfoldable pub sentence_end : ℕ → Text → Option ℕ
sentence_end position [] = none
sentence_end position (c ∷ cs) =
    let later = sentence_end (suc position) cs in
    let stop = c == 46 || (c == 33 || (c == 63 || (c == 59 || c == 58))) in
    if stop && is_empty cs
    then some (suc position)
    else if stop && starts is_space cs
    then some (suc (suc position))
    else later

-- `text.rfind(" ")`, and nothing where there is none.
unfoldable pub rfind_space : ℕ → Text → Option ℕ
rfind_space position [] = none
rfind_space position (c ∷ cs) = elim (rfind_space (suc position) cs) [
  | some found ↦ some found
  | none ↦ if c == 32 then some position else none
]

-- A long name is cut behind a word, and an ellipsis marks the cut.
unfoldable pub shortened : Text → Text
shortened candidate =
    let prefix = rstrip is_space (take 79 candidate) in
    elim (rfind_space 0 prefix) [
      | none ↦ rstrip is_space prefix ++ 8230 ∷ []
      | some boundary ↦
          rstrip is_space (if ltb 0 boundary then take boundary prefix else prefix) ++ 8230 ∷ []
    ]

-- `_derive_name`
unfoldable pub derive_name : Text → Text
derive_name content =
    let normalized = join_words false false content in
    let candidate : Text = elim (sentence_end 0 normalized) [
      | some end ↦ strip (take end normalized)
      | none ↦ normalized
    ] in
    if leb (length candidate) 80 then candidate else shortened candidate

-- `row.name or "New conversation"`
unfoldable pub shown_name : Option Text → Text
shown_name none = default_name
shown_name (some name) = if is_empty name then default_name else name
