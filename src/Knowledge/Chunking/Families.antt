-- ===== src/Knowledge/Chunking/Families.antt =====
-- Parents and their leaves among the chunks of a document (`build_chunks` of
-- apps/api/app/knowledge/chunking.py).
use poc_la_graph.Base.{
  ℕ, ◌+◌, ◌≤◌, ◌≡◌, refl, sym, ap, ◌∙◌, subst, true, leb, leb→le, List, [], ◌∷◌, ◌++◌, map, Option,
  none, some, arith, inl, inr, Bool-cases, Option-cases, All,
}
use mathlib.Core.List.{append_assoc, append-nil}
use poc_la_graph.Knowledge.Text.{Text, Characters, slice, is_blank}
use poc_la_graph.Knowledge.Profiles.{DocumentProfile}
use poc_la_graph.Knowledge.Chunking.{
  Range, Encoding, StructuralBlock, Chunk, has_special, token_count, token_windows, bounded_ranges,
  append_some,
}
use poc_la_graph.Knowledge.Chunking.Structure.{structural_blocks}
use poc_la_graph.Knowledge.Chunking.Build.{
  Naming, make_chunk, standalone_chunk, leaf_chunk, parent_chunk, parent_id, family, families,
  block_chunks, all_block_chunks, build_chunks,
}

-- The chunk is the slice of the document that its positions name, with its tokens counted.
pub record IsSlice (encoding : Encoding) (text : Text) (c : Chunk) : Type 0 where
  pub is_slice : c.text ≡ slice c.start_char c.end_char text
  pub counted : c.token_count ≡ token_count encoding c.text

-- A chunk that stands alone has no family and is small enough for a leaf.
pub record IsAlone (encoding : Encoding) (text : Text) (limit : ℕ) (c : Chunk) : Type 0 where
  pub cut : IsSlice encoding text c
  pub alone : c.standalone ≡ true
  pub no_parent : c.parent_id ≡ none
  pub no_children : c.children_ids ≡ []
  pub small : c.token_count ≤ limit

-- A leaf names its parent and begins behind the parent's start.
pub record IsLeafOf (encoding : Encoding) (text : Text) (parent c : Chunk) : Type 0 where
  pub cut : IsSlice encoding text c
  pub at_level : c.level ≡ 1
  pub with_parent : c.parent_id ≡ some parent.id
  pub no_children : c.children_ids ≡ []
  pub behind : parent.start_char ≤ c.start_char

-- A parent names its leaves, all of them in their order.
pub record IsFamily (encoding : Encoding) (text : Text) (parent : Chunk) (leaves : List Chunk)
    : Type 0 where
  pub cut : IsSlice encoding text parent
  pub at_level : parent.level ≡ 0
  pub no_parent : parent.parent_id ≡ none
  pub children : parent.children_ids ≡ map (λ (c : Chunk). c.id) leaves
  pub each : All (IsLeafOf encoding text parent) leaves

-- A list of chunks that stand alone and of parents that their leaves follow.
pub data Families (encoding : Encoding) (text : Text) (limit : ℕ) : List Chunk → Type 0 where
  done : Families encoding text limit []
  alone :
      (c : Chunk) (rest : List Chunk)
      → IsAlone encoding text limit c
      → Families encoding text limit rest
      → Families encoding text limit (c ∷ rest)
  parent :
      (p : Chunk) (leaves rest chunks : List Chunk)
      → IsFamily encoding text p leaves
      → Families encoding text limit rest
      → chunks ≡ leaves ++ rest
      → Families encoding text limit (p ∷ chunks)

append_some_lem :
    (first later : Option (List Chunk)) (chunks : List Chunk)
    → append_some first later ≡ some chunks
    → (xs : List Chunk) × ((ys : List Chunk) × ((first ≡ some xs)
          × ((later ≡ some ys) × (chunks ≡ xs ++ ys))))
append_some_lem none later chunks e = absurd (ground arith)
append_some_lem (some xs) none chunks e = absurd (ground arith)
append_some_lem (some xs) (some ys) chunks e = (xs, (ys, (refl, (refl, (ground arith)))))

module _ (encoding : Encoding) (text : Text) (limit : ℕ) where
  Families-append :
      {xs : List Chunk} (ys : List Chunk)
      → Families encoding text limit xs
      → Families encoding text limit ys
      → Families encoding text limit (xs ++ ys)
  Families-append ys done t = t
  Families-append ys (alone c cs k s) t = alone c (cs ++ ys) k (Families-append ys s t)
  Families-append ys (parent p leaves rest chunks k s e) t =
      parent p leaves (rest ++ ys) (chunks ++ ys) k (Families-append ys s t)
        (ap (λ l. l ++ ys) e ∙ append_assoc leaves rest ys)

  Families-one :
      (p : Chunk) (leaves : List Chunk)
      → IsFamily encoding text p leaves
      → Families encoding text limit (p ∷ leaves)
  Families-one p leaves k = parent p leaves [] leaves k done (sym (append-nil leaves))

module _ (encoding : Encoding) (chars : Characters) (naming : Naming) (text : Text)
    (profile : DocumentProfile) (block : StructuralBlock) where
  standalone_chunk-IsAlone :
      token_count encoding (slice block.start block.end text) ≤ profile.leaf_tokens
      → IsAlone encoding text profile.leaf_tokens
          (standalone_chunk encoding chars naming text block)
  unfolding standalone_chunk make_chunk
  standalone_chunk-IsAlone small = record {
    cut = record { is_slice = refl; counted = refl };
    alone = refl;
    no_parent = refl;
    no_children = refl;
    small = small;
  }

  leaves-IsLeafOf :
      (children : List Text) (start end : ℕ) (windows : List Range)
      → All
          (IsLeafOf encoding text (
            parent_chunk encoding chars naming text block
              (parent_id naming start end)
              children
              start
              end))
          (map
            (leaf_chunk encoding chars naming text block (parent_id naming start end) start)
            windows)
  unfolding leaf_chunk parent_chunk make_chunk
  leaves-IsLeafOf children start end [] = tt
  leaves-IsLeafOf children start end ((a, b) ∷ rest) = (
    record {
      cut = record { is_slice = refl; counted = refl };
      at_level = refl;
      with_parent = refl;
      no_children = refl;
      behind = omega arith;
    },
    leaves-IsLeafOf children start end rest,
  )

  parent_chunk-IsFamily :
      (start end : ℕ) (leaves : List Chunk)
      → All
          (IsLeafOf encoding text (
            parent_chunk encoding chars naming text block
              (parent_id naming start end)
              (map (λ (c : Chunk). c.id) leaves)
              start
              end))
          leaves
      → IsFamily encoding text
          (parent_chunk encoding chars naming text block
            (parent_id naming start end)
            (map (λ (c : Chunk). c.id) leaves)
            start
            end)
          leaves
  unfolding parent_chunk make_chunk
  parent_chunk-IsFamily start end leaves each = record {
    cut = record { is_slice = refl; counted = refl };
    at_level = refl;
    no_parent = refl;
    children = refl;
    each = each;
  }

  family-Families :
      (start end : ℕ) (chunks : List Chunk)
      → family encoding chars naming text profile block start end ≡ some chunks
      → Families encoding text profile.leaf_tokens chunks
  unfolding family
  family-Families start end chunks e =
      elim (Option-cases (
        token_windows encoding (slice start end text) profile.leaf_tokens profile.overlap_tokens
          0)) [
            | inl f ↦ absurd (ground arith)
            | inr (windows, f) ↦
                let own = parent_id naming start end in
                let leaves = map (leaf_chunk encoding chars naming text block own start) windows in
                let children = map (λ (c : Chunk). c.id) leaves in
                let p = parent_chunk encoding chars naming text block own children start end in
                let same : p ∷ leaves ≡ chunks = ground arith in
                subst (Families encoding text profile.leaf_tokens) same (
                  Families-one encoding text profile.leaf_tokens p leaves (
                    parent_chunk-IsFamily start end leaves
                      (leaves-IsLeafOf children start end windows)))
          ]

  families-Families :
      (ranges : List Range) (chunks : List Chunk)
      → families encoding chars naming text profile block ranges ≡ some chunks
      → Families encoding text profile.leaf_tokens chunks
  unfolding families
  families-Families [] chunks e =
      subst (Families encoding text profile.leaf_tokens) (ground arith) done
  families-Families ((a, b) ∷ rest) chunks e =
      let (xs, (ys, (f, (g, same)))) = append_some_lem _ _ chunks e in
      subst (Families encoding text profile.leaf_tokens) (sym same) (
        Families-append encoding text profile.leaf_tokens ys
          (family-Families (block.start + a) (block.start + b) xs f) (families-Families rest ys g))

  block_chunks-Families :
      (chunks : List Chunk)
      → block_chunks encoding chars naming text profile block ≡ some chunks
      → Families encoding text profile.leaf_tokens chunks
  unfolding block_chunks
  block_chunks-Families chunks e =
      let block_text = slice block.start block.end text in
      elim (Bool-cases (is_blank block_text)) [
        | inl blank ↦ subst (Families encoding text profile.leaf_tokens) (ground arith) done
        | inr filled ↦ elim (Bool-cases (has_special encoding block_text)) [
          | inl refused ↦ absurd (ground arith)
          | inr accepted ↦
              elim (Bool-cases (leb (token_count encoding block_text) profile.leaf_tokens)) [
                | inl small ↦
                    let same : standalone_chunk encoding chars naming text block ∷ [] ≡ chunks =
                      ground arith in
                    subst (Families encoding text profile.leaf_tokens) same
                      (alone _ [] (standalone_chunk-IsAlone (leb→le _ _ small)) done)
                | inr large ↦
                    elim (Option-cases (bounded_ranges encoding block_text profile.parent_tokens)) [
                      | inl f ↦ absurd (ground arith)
                      | inr (ranges, f) ↦ families-Families ranges chunks (ground arith)
                    ]
              ]
        ]
      ]

module _ (encoding : Encoding) (chars : Characters) (naming : Naming) (text : Text)
    (profile : DocumentProfile) where
  all_block_chunks-Families :
      (blocks : List StructuralBlock) (chunks : List Chunk)
      → all_block_chunks encoding chars naming text profile blocks ≡ some chunks
      → Families encoding text profile.leaf_tokens chunks
  unfolding all_block_chunks
  all_block_chunks-Families [] chunks e =
      subst (Families encoding text profile.leaf_tokens) (ground arith) done
  all_block_chunks-Families (block ∷ rest) chunks e =
      let (xs, (ys, (f, (g, same)))) = append_some_lem _ _ chunks e in
      subst (Families encoding text profile.leaf_tokens) (sym same) (
        Families-append encoding text profile.leaf_tokens ys
          (block_chunks-Families encoding chars naming text profile block xs f)
          (all_block_chunks-Families rest ys g))

  -- The chunks of a document are chunks that stand alone, with at most the tokens of a leaf and no
  -- family, and parents, each followed by its leaves: the parent names exactly these leaves in their
  -- order, each leaf names the parent and does not begin before it, and every chunk is the slice of
  -- the document that its positions name, with its tokens counted.
  pub build_chunks-Families :
      (chunks : List Chunk)
      → build_chunks encoding chars naming text profile ≡ some chunks
      → Families encoding text profile.leaf_tokens chunks
  unfolding build_chunks
  build_chunks-Families chunks e =
      all_block_chunks-Families (structural_blocks chars text profile) chunks e
