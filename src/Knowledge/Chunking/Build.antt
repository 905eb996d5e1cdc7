-- ===== src/Knowledge/Chunking/Build.antt =====
-- The chunks of a document: `build_chunks`, `_chunk` and `_identity` of
-- apps/api/app/knowledge/chunking.py.
use Prim.Native.Nat.{◌/◌, ◌%◌}
use poc_la_graph.Base.{
  ℕ, zero, suc, ◌+◌, ◌-◌, max, Bool, true, false, leb, ltb, if◌then◌else◌, List, [], ◌∷◌, ◌++◌, map,
  take, Option, none, some,
}
use poc_la_graph.Knowledge.Text.{Text, Characters, slice, is_blank, count_newlines}
use poc_la_graph.Knowledge.Patterns.{marker_match}
use poc_la_graph.Knowledge.Profiles.{DocumentProfile}
use poc_la_graph.Knowledge.Chunking.{
  Range, Encoding, StructuralBlock, Chunk, has_special, token_count, token_windows, bounded_ranges,
  append_some,
}
use poc_la_graph.Knowledge.Chunking.Structure.{structural_blocks}

-- The decimal digits of a number. The fuel bounds them.
unfoldable pub digits : ℕ → ℕ → Text
digits zero n = []
digits (suc fuel) n =
    let rest = digits fuel (n / 10) in
    if ltb n 10 then (48 + n) ∷ [] else rest ++ (48 + n % 10) ∷ []

-- `str(n)`
unfoldable pub decimal : ℕ → Text
decimal n = digits (n + 1) n

-- What the chunks of a document are named by.
pub record Naming : Type 0 where
  pub document : Text
  pub checksum : Text
  pub sha256_hex : Text → Text

-- `_identity`, behind the prefix that its callers put before it.
unfoldable pub identity : Naming → ℕ → ℕ → Text → Text
identity naming start end kind = take 24 (
    naming.sha256_hex (
      naming.document
      ++ 0 ∷ (naming.checksum ++ 0 ∷ (decimal start ++ 0 ∷ (decimal end ++ 0 ∷ kind)))))

abbrev source_prefix : Text
source_prefix = b's' ∷ b'o' ∷ b'u' ∷ b'r' ∷ b'c' ∷ b'e' ∷ b':' ∷ []

abbrev parent_kind : Text
parent_kind = b'p' ∷ b'a' ∷ b'r' ∷ b'e' ∷ b'n' ∷ b't' ∷ []

unfoldable pub leaf_kind : ℕ → Text
leaf_kind level = b'l' ∷ b'e' ∷ b'a' ∷ b'f' ∷ b'-' ∷ decimal level

unfoldable pub leaf_id : Naming → ℕ → ℕ → ℕ → Text
leaf_id naming start end level = source_prefix ++ identity naming start end (leaf_kind level)

unfoldable pub parent_id : Naming → ℕ → ℕ → Text
parent_id naming start end = source_prefix ++ identity naming start end parent_kind

-- The places of a chunk in its family.
pub record Place : Type 0 where
  pub id : Text
  pub level : ℕ
  pub parent_id : Option Text
  pub children_ids : List Text
  pub standalone : Bool

module _ (encoding : Encoding) (chars : Characters) (naming : Naming) where
  -- `_chunk`, its identifier given.
  unfoldable pub make_chunk : Text → StructuralBlock → ℕ → ℕ → Place → Chunk
  make_chunk text block start end place = record {
    id = place.id;
    text = slice start end text;
    level = place.level;
    parent_id = place.parent_id;
    children_ids = place.children_ids;
    token_count = token_count encoding (slice start end text);
    start_char = start;
    end_char = end;
    start_line = count_newlines (take start text) + 1;
    end_line = count_newlines (take (max start (end - 1)) text) + 1;
    page_number = block.page_number;
    section_path = block.section_path;
    article = block.article;
    paragraph = marker_match chars (slice start end text);
    standalone = place.standalone;
  }

  unfoldable pub standalone_chunk : Text → StructuralBlock → Chunk
  standalone_chunk text block = make_chunk text block block.start block.end (record {
    id = leaf_id naming block.start block.end 0;
    level = 0;
    parent_id = none;
    children_ids = [];
    standalone = true;
  })

  unfoldable pub leaf_chunk : Text → StructuralBlock → Text → ℕ → Range → Chunk
  leaf_chunk text block parent base (start, end) =
      make_chunk text block (base + start) (base + end) (record {
        id = leaf_id naming (base + start) (base + end) 1;
        level = 1;
        parent_id = some parent;
        children_ids = [];
        standalone = false;
      })

  unfoldable pub parent_chunk : Text → StructuralBlock → Text → List Text → ℕ → ℕ → Chunk
  parent_chunk text block own children start end = make_chunk text block start end (record {
    id = own;
    level = 0;
    parent_id = none;
    children_ids = children;
    standalone = false;
  })

  -- A parent and its leaves.
  unfoldable pub family : Text → DocumentProfile → StructuralBlock → ℕ → ℕ → Option (List Chunk)
  family text profile block start end =
      let own = parent_id naming start end in
      elim (token_windows encoding (slice start end text) profile.leaf_tokens profile.overlap_tokens
        0) [
          | none ↦ none
          | some windows ↦
              let leaves = map (leaf_chunk text block own start) windows in
              some
                (parent_chunk text block own (map (λ (c : Chunk). c.id) leaves) start end ∷ leaves)
        ]

  -- The loop over the ranges of the parents, which begin at the block's start.
  unfoldable pub families :
      Text → DocumentProfile → StructuralBlock → List Range → Option (List Chunk)
  families text profile block [] = some []
  families text profile block ((start, end) ∷ rest) =
      append_some (family text profile block (block.start + start) (block.start + end))
        (families text profile block rest)

  -- One round of the loop over the blocks.
  unfoldable pub block_chunks : Text → DocumentProfile → StructuralBlock → Option (List Chunk)
  block_chunks text profile block =
      let block_text = slice block.start block.end text in
      if is_blank block_text
      then some []
      else if has_special encoding block_text
      then none
      else if leb (token_count encoding block_text) profile.leaf_tokens
      then some (standalone_chunk text block ∷ [])
      else elim (bounded_ranges encoding block_text profile.parent_tokens) [
        | none ↦ none
        | some ranges ↦ families text profile block ranges
      ]

  unfoldable pub all_block_chunks :
      Text → DocumentProfile → List StructuralBlock → Option (List Chunk)
  all_block_chunks text profile [] = some []
  all_block_chunks text profile (block ∷ rest) =
      append_some (block_chunks text profile block) (all_block_chunks text profile rest)

  unfoldable pub build_chunks : Text → DocumentProfile → Option (List Chunk)
  build_chunks text profile = all_block_chunks text profile (structural_blocks chars text profile)
