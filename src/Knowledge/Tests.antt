-- ===== src/Knowledge/Tests.antt =====
-- Runs of the chunking of documents (apps/api/app/knowledge) with a tokenizer that makes one token of
-- each character, and the theorems at concrete inputs.
use poc_la_graph.Base.{
  ℕ, suc, ◌+◌, ◌≤◌, ◌<◌, ◌-◌, ◌&&◌, ◌||◌, ◌≡◌, refl, true, false, leb, ◌==◌, if◌then◌else◌, List,
  [], ◌∷◌, ◌++◌, map, length, Option, none, some, arith,
}
use poc_la_graph.Knowledge.Text.{
  Text, Characters, is_empty, is_blank, is_space, lstrip, rstrip, strip, starts_with, is_line_break,
  slice, rstrip_line, ends_line, splitlines, count_newlines,
}
use poc_la_graph.Knowledge.Patterns.{
  match_ends, heading_match, article_search, marker_match, paragraphs, sentences, after_letters,
  any_letter, article_at, article_number, article_word, drop_while, marker_at, paragraph_ends,
  run_ends, starts, take_while, letter, paragraph_word,
}
use poc_la_graph.Knowledge.Profiles.{
  page, markdown_heading, legal_article, DocumentProfile, DocumentProfiles, valid_sizes,
  valid_references, value_error, select_profile, select_rule, is_empty_pattern, only_no_parts,
  is_no_part, ChoosesOrRaises, select_profile-bounds, all_profiles, boundary_eq,
  distinct_boundaries, has_boundary, has_parent_part, name_rest, profile_named, safe_values,
  valid_name, valid_rules,
}
use poc_la_graph.Knowledge.Chunking.{
  Range, Encoding, get_elem?, Chunk, token_windows, bounded_ranges, split_preserving, char_end,
  char_range, range, stepped_windows, window_loop, token_count, pairs, pack_ranges, split_ranges,
  window_ranges, pattern_ranges, has_text, has_special, contains_text, is_prefix,
}
use poc_la_graph.Knowledge.Chunking.Structure.{
  structural_blocks, add_event, page_events, heading_event, article_event, line_events, flush,
  apply_event, apply_events, scan_events, all_events,
}
use poc_la_graph.Knowledge.Chunking.Tiles.{Rising, visible, inside}
use poc_la_graph.Knowledge.Chunking.Windows.{offsets_of, token_windows-Windowing}
use poc_la_graph.Knowledge.Chunking.Offsets.{is_scalar, is_plain, IsEncoding, Windowing, char_span}
use poc_la_graph.Knowledge.Chunking.Bounded.{bounded_ranges-inside}
use poc_la_graph.Knowledge.Chunking.Blocks.{Spaced, structural_blocks-Spaced}
use poc_la_graph.Knowledge.Chunking.Events.{block_range}
use poc_la_graph.Knowledge.Chunking.Build.{
  Naming, build_chunks, digits, decimal, identity, leaf_kind, leaf_id, parent_id, make_chunk,
  standalone_chunk, leaf_chunk, parent_chunk, family, families, block_chunks, all_block_chunks,
}
use poc_la_graph.Knowledge.Chunking.Cover.{held, build_chunks-held}
use poc_la_graph.Knowledge.Chunking.Families.{Families, build_chunks-Families}

abbrev count_up : ℕ → List ℕ → List ℕ
count_up n [] = []
count_up n (t ∷ ts) = n ∷ count_up (suc n) ts

-- `<|endoftext|>`
abbrev end_of_text : Text
end_of_text =
    b'<' ∷ b'|' ∷ b'e' ∷ b'n' ∷ b'd' ∷ b'o' ∷ b'f' ∷ b't' ∷ b'e' ∷ b'x' ∷ b't' ∷ b'|' ∷ b'>' ∷ []

-- One token for each character.
abbrev char_encoding : Encoding
char_encoding = record {
  special_tokens = end_of_text ∷ [];
  encode = λ text. text;
  decode_with_offsets = λ tokens. (tokens, count_up 0 tokens);
}

length-count_up : (n : ℕ) (ts : List ℕ) → length (count_up n ts) ≡ length ts
length-count_up n [] = refl
length-count_up n (t ∷ ts) = omega (arith, length-count_up (suc n) ts)

count_up-Rising :
    (n lo hi : ℕ) (ts : List ℕ) → lo ≤ n → n + length ts ≤ hi → Rising lo hi (count_up n ts)
count_up-Rising n lo hi [] h k = omega arith
count_up-Rising n lo hi (t ∷ ts) h k =
    (h, count_up-Rising (suc n) n hi ts (omega arith) (omega arith))

from_zero_lem : (text : Text) → 0 < length text → get_elem? (count_up 0 text) 0 ≡ some 0
unfolding get_elem?
from_zero_lem [] h = absurd (omega arith)
from_zero_lem (c ∷ cs) h = refl

char_encoding-IsEncoding : IsEncoding char_encoding
char_encoding-IsEncoding = record {
  exact = λ text plain. refl;
  nothing = λ text plain e. e;
  one_each = λ text plain. length-count_up 0 text;
  from_zero = λ text plain. from_zero_lem text;
  in_order = λ text plain. count_up-Rising 0 0 (length text) text (omega arith) (omega arith);
}

abbrev ascii : Characters
ascii = record {
  is_word =
      λ c. leb 97 c && leb c 122 || (leb 65 c && leb c 90) || (leb 48 c && leb c 57) || c == 95;
  is_digit = λ c. leb 48 c && leb c 57;
  lower = λ c. if leb 65 c && leb c 90 then c + 32 else c;
  upper = map (λ c. if leb 97 c && leb c 122 then c - 32 else c);
}

-- `# A\n\nb. c d\n`
abbrev sample : Text
sample = b'#' ∷ 32 ∷ b'A' ∷ 10 ∷ 10 ∷ b'b' ∷ b'.' ∷ 32 ∷ b'c' ∷ 32 ∷ b'd' ∷ 10 ∷ []

plain_sample : is_plain char_encoding sample ≡ true
unfolding is_plain has_special contains_text is_prefix is_scalar
plain_sample = refl

paragraphs_sample : match_ends paragraphs sample ≡ 5 ∷ []
unfolding match_ends paragraph_ends is_space
paragraphs_sample = refl

sentences_sample : match_ends sentences sample ≡ 8 ∷ []
unfolding match_ends run_ends is_space
sentences_sample = refl

heading_sample : heading_match (b'#' ∷ b'#' ∷ 32 ∷ b'A' ∷ 32 ∷ []) ≡ some (2, b'A' ∷ [])
unfolding heading_match take_while starts drop_while is_space is_blank strip rstrip lstrip
heading_sample = refl

-- `Art`, no number; and `xARTICULO 5` begins inside a word.
abbrev article_text : Text
article_text =
    b'a' ∷ b'R' ∷ b'T' ∷ b'I' ∷ b'C' ∷ b'U' ∷ b'L' ∷ b'O' ∷ 32 ∷ b'1' ∷ b'2' ∷ b'b' ∷ b'.' ∷ []

article_sample : article_search ascii false article_text ≡ some (b'1' ∷ b'2' ∷ b'b' ∷ [])
unfolding article_search article_at after_letters article_word starts is_space article_number
    take_while drop_while any_letter
article_sample = refl

article_in_word : article_search ascii false (b'x' ∷ article_text) ≡ none
unfolding article_search article_at after_letters article_word
article_in_word = refl

marker_sample : marker_match ascii (b'-' ∷ 32 ∷ b'a' ∷ b')' ∷ 32 ∷ []) ≡ some (b'a' ∷ b')' ∷ [])
unfolding marker_match marker_at starts drop_while is_space any_letter strip rstrip lstrip
marker_sample = refl

windows_sample :
    token_windows char_encoding sample 5 2 100
    ≡ some ((100, 105) ∷ (103, 108) ∷ (106, 111) ∷ (109, 112) ∷ [])
unfolding token_windows has_special contains_text is_prefix stepped_windows window_loop range
    char_range get_elem? char_end
windows_sample = refl

bounded_sample : bounded_ranges char_encoding sample 5 ≡ some ((0, 5) ∷ (5, 8) ∷ (8, 12) ∷ [])
unfolding bounded_ranges char_end char_range get_elem? has_text is_blank is_space lstrip match_ends
    pack_ranges pairs paragraph_ends pattern_ranges range rstrip run_ends slice split_preserving
    split_ranges stepped_windows strip token_count has_special contains_text is_prefix token_windows
    window_loop window_ranges
bounded_sample = refl

abbrev profile : DocumentProfile
profile = record {
  hard_boundaries = page ∷ markdown_heading ∷ legal_article ∷ [];
  leaf_tokens = 64;
  parent_tokens = 80;
  overlap_tokens = 8;
  auto_merge_numerator = 1;
  auto_merge_denominator = 2;
}

-- The sizes are below the limits of the validation, so that a short text has families.
abbrev small_profile : DocumentProfile
small_profile = record profile { leaf_tokens = 4; parent_tokens = 6; overlap_tokens = 1 }

profile_valid : valid_sizes profile ≡ true
unfolding valid_sizes distinct_boundaries has_boundary boundary_eq
profile_valid = refl

abbrev naming : Naming
naming = record { document = b'd' ∷ []; checksum = b'e' ∷ []; sha256_hex = λ text. text }

abbrev generic : Text
generic = b'g' ∷ []

abbrev profiles : DocumentProfiles
profiles = record {
  default_profile = generic;
  rules = record { glob = b'l' ∷ b'*' ∷ []; profile = generic } ∷ [];
  profiles = (generic, profile) ∷ [];
}

profiles_valid : valid_references profiles ≡ true
unfolding valid_references safe_values valid_name name_rest starts_with has_parent_part all_profiles
    valid_sizes distinct_boundaries has_boundary boundary_eq profile_named valid_rules
profiles_valid = refl

abbrev or_empty : Option (List Chunk) → List Chunk
or_empty none = []
or_empty (some chunks) = chunks

abbrev sample_chunks : List Chunk
sample_chunks = or_empty (build_chunks char_encoding ascii naming sample small_profile)

sample_built : build_chunks char_encoding ascii naming sample small_profile ≡ some sample_chunks
unfolding add_event after_letters all_block_chunks all_events any_letter apply_event apply_events
    article_at article_event article_number article_search article_word block_chunks bounded_ranges
    build_chunks char_end char_range count_newlines decimal digits drop_while ends_line families
    family flush get_elem? has_text heading_event heading_match identity is_blank is_line_break
    is_space leaf_chunk leaf_id leaf_kind letter line_events lstrip make_chunk marker_at
    marker_match match_ends pack_ranges page_events pairs paragraph_ends paragraph_word parent_chunk
    parent_id pattern_ranges range rstrip rstrip_line run_ends scan_events slice split_preserving
    split_ranges splitlines standalone_chunk starts starts_with stepped_windows strip
    structural_blocks take_while token_count token_windows has_special contains_text is_prefix
    window_loop window_ranges has_boundary boundary_eq
sample_built = refl

abbrev place_of : Chunk → ℕ × (ℕ × ℕ)
place_of c = (c.level, (c.start_char, c.end_char))

-- The page and the heading make one block, its lines two parents.
sample_ranges :
    map place_of sample_chunks
    ≡ (0, (0, 5))
      ∷ (1, (0, 4))
      ∷ (1, (3, 5))
      ∷ (0, (5, 8))
      ∷ (1, (5, 8))
      ∷ (0, (8, 12))
      ∷ (1, (8, 12))
      ∷ []
unfolding add_event after_letters all_block_chunks all_events any_letter apply_event apply_events
    article_at article_event article_number article_search article_word block_chunks bounded_ranges
    build_chunks char_end char_range count_newlines decimal digits drop_while ends_line families
    family flush get_elem? has_text heading_event heading_match identity is_blank is_line_break
    is_space leaf_chunk leaf_id leaf_kind letter line_events lstrip make_chunk marker_at
    marker_match match_ends pack_ranges page_events pairs paragraph_ends paragraph_word parent_chunk
    parent_id pattern_ranges range rstrip rstrip_line run_ends scan_events slice split_preserving
    split_ranges splitlines standalone_chunk starts starts_with stepped_windows strip
    structural_blocks take_while token_count token_windows has_special contains_text is_prefix
    window_loop window_ranges has_boundary boundary_eq
sample_ranges = refl

token_windows-Windowing_example :
    (spans : List Range) × ((token_windows char_encoding sample 5 2 100
        ≡ some (map (char_span (offsets_of char_encoding sample) (length sample) 100) spans))
      × Windowing 5 2 (length sample) 0 spans)
token_windows-Windowing_example =
    token_windows-Windowing char_encoding char_encoding-IsEncoding sample 5 2 100 plain_sample refl
      (omega arith)

select_profile-bounds_example :
    ChoosesOrRaises
      (λ path glob. is_empty glob)
      profiles
      sample
      profiles.rules
      (select_profile (λ path glob. is_empty glob) profiles sample)
select_profile-bounds_example =
    select_profile-bounds (λ path glob. is_empty glob) profiles sample profiles_valid

-- Profiles that pass the validation and raise for every path: the pattern is `./`.
abbrev empty_pattern : DocumentProfiles
empty_pattern = record profiles {
  rules = record { glob = b'.' ∷ b'/' ∷ []; profile = generic } ∷ [];
}

empty_pattern_valid : valid_references empty_pattern ≡ true
unfolding valid_references safe_values valid_name name_rest starts_with has_parent_part all_profiles
    valid_sizes distinct_boundaries has_boundary boundary_eq profile_named valid_rules
empty_pattern_valid = refl

empty_pattern_raises :
    (path : Text) → select_profile (λ path glob. true) empty_pattern path ≡ value_error
unfolding select_profile select_rule is_empty_pattern only_no_parts is_no_part
empty_pattern_raises path = refl

bounded_ranges-inside_example :
    (output : List Range) × ((bounded_ranges char_encoding sample 5 ≡ some output)
      × ((i : ℕ) → visible i sample ≡ true → inside i output ≡ true))
bounded_ranges-inside_example =
    bounded_ranges-inside char_encoding sample 5 char_encoding-IsEncoding plain_sample (omega arith)

structural_blocks-Spaced_example :
    Spaced 0 (length sample) (map block_range (structural_blocks ascii sample profile))
    × ((i : ℕ)
        → visible i sample ≡ true
        → inside i (map block_range (structural_blocks ascii sample profile)) ≡ true)
structural_blocks-Spaced_example = structural_blocks-Spaced ascii sample profile

abbrev long_text : Text
long_text = sample ++ (sample ++ (sample ++ (sample ++ (sample ++ (sample ++ sample)))))

plain_long : is_plain char_encoding long_text ≡ true
unfolding is_plain has_special contains_text is_prefix is_scalar
plain_long = refl

-- A document with the text of a special token is refused.
special_refused : build_chunks char_encoding ascii naming (b'a' ∷ end_of_text) profile ≡ none
unfolding add_event after_letters all_block_chunks all_events any_letter apply_event apply_events
    article_at article_event article_number article_search article_word block_chunks bounded_ranges
    build_chunks char_end char_range count_newlines decimal digits drop_while ends_line families
    family flush get_elem? has_text heading_event heading_match identity is_blank is_line_break
    is_space leaf_chunk leaf_id leaf_kind letter line_events lstrip make_chunk marker_at
    marker_match match_ends pack_ranges page_events pairs paragraph_ends paragraph_word parent_chunk
    parent_id pattern_ranges range rstrip rstrip_line run_ends scan_events slice split_preserving
    split_ranges splitlines standalone_chunk starts starts_with stepped_windows strip
    structural_blocks take_while token_count token_windows has_special contains_text is_prefix
    window_loop window_ranges has_boundary boundary_eq
special_refused = refl

build_chunks-held_example :
    (chunks : List Chunk) × ((build_chunks char_encoding ascii naming long_text profile
        ≡ some chunks)
      × ((i : ℕ) → visible i long_text ≡ true → held i chunks ≡ true))
build_chunks-held_example =
    build_chunks-held char_encoding ascii naming char_encoding-IsEncoding long_text profile
      plain_long profile_valid

build_chunks-Families_example : Families char_encoding sample 4 sample_chunks
build_chunks-Families_example =
    build_chunks-Families char_encoding ascii naming sample small_profile sample_chunks sample_built
