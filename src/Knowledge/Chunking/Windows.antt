-- ===== src/Knowledge/Chunking/Windows.antt =====
-- The windows of tokens (`_token_windows` of apps/api/app/knowledge/chunking.py) and the characters
-- that they hold.
use poc_la_graph.Base.{
  ℕ, zero, suc, ◌+◌, ◌-◌, ◌≤◌, ◌<◌, ◌≡◌, refl, ap, subst, min, true, false, ltb, List, [], ◌∷◌, map,
  length, some, arith, inl, inr, Bool-cases,
}
use poc_la_graph.Knowledge.Text.{Text, is_empty, text_eq}
use poc_la_graph.Knowledge.Chunking.{
  Range, Encoding, range, get_elem?, char_range, cons_some, window_loop, stepped_windows,
  token_windows,
}
use poc_la_graph.Knowledge.Chunking.Tiles.{Tiles, Rising, in_range, inside}
use poc_la_graph.Knowledge.Chunking.Offsets.{
  is_plain, is_plain-has_special, IsEncoding, bound, bound-get_elem?, bound_end, char_end-bound,
  bound_mono, char_span, Windowing, Windowing-cons,
}

range_more :
    (fuel step start stop : ℕ)
    → start < stop
    → range (suc fuel) step start stop ≡ start ∷ range fuel step (start + step) stop
unfolding range
range_more fuel step start stop h = ground arith

module _ (offsets : List ℕ) (count len limit overlap base : ℕ) (smaller : overlap < limit) where
  char_range-char_span :
      (a b : ℕ)
      → a < length offsets
      → char_range offsets len base a b ≡ some (char_span offsets len base (a, b))
  unfolding char_range char_span
  char_range-char_span a b h =
      ground (arith, bound-get_elem? offsets len a h, char_end-bound offsets len b)

  window_loop_more :
      (start : ℕ) (rest : List ℕ)
      → start < length offsets
      → start + limit < count
      → window_loop offsets count len limit base (start ∷ rest)
        ≡ cons_some
            (char_span offsets len base (start, start + limit))
            (window_loop offsets count len limit base rest)
  unfolding window_loop
  window_loop_more start rest inside_offsets more =
      let whole : min (start + limit) count ≡ start + limit = omega arith in
      ground (arith, char_range-char_span start (min (start + limit) count) inside_offsets)

  window_loop_last :
      (start : ℕ) (rest : List ℕ)
      → start < length offsets
      → count ≤ start + limit
      → window_loop offsets count len limit base (start ∷ rest)
        ≡ some (char_span offsets len base (start, count) ∷ [])
  unfolding window_loop
  window_loop_last start rest inside_offsets last =
      let whole : min (start + limit) count ≡ count = omega arith in
      ground (arith, char_range-char_span start (min (start + limit) count) inside_offsets)

  window_loop-Windowing :
      (fuel start : ℕ)
      → length offsets ≡ count
      → start < count
      → count ≤ start + fuel
      → (spans : List Range) × ((window_loop offsets count len limit base
              (range fuel (limit - overlap) start count)
            ≡ some (map (char_span offsets len base) spans))
          × Windowing limit overlap count start spans)
  window_loop-Windowing zero start one_each more enough = absurd (omega arith)
  window_loop-Windowing (suc fuel) start one_each more enough =
      let starts = range_more fuel (limit - overlap) start count more in
      elim (Bool-cases (ltb (start + limit) count)) [
        | inl h ↦
            let (spans, (e, w)) =
              window_loop-Windowing fuel (start + (limit - overlap)) one_each (ground arith)
                (omega arith) in
            let next : start + (limit - overlap) ≡ start + limit - overlap = omega arith in
            (
              (start, start + limit) ∷ spans,
              (
                rw
                    (
                      starts,
                      window_loop_more start
                          (range fuel (limit - overlap) (start + (limit - overlap)) count)
                          (omega arith) (ground arith),
                    )
                    (ap (cons_some (char_span offsets len base (start, start + limit))) e),
                Windowing-cons limit overlap count start spans (ground arith)
                    (subst (λ s. Windowing limit overlap count s spans) next w),
              ),
            )
        | inr h ↦ (
          (start, count) ∷ [],
          (
            rw
                (
                  starts,
                  window_loop_last start
                      (range fuel (limit - overlap) (start + (limit - overlap)) count) (omega arith)
                      (ground arith),
                )
                refl,
            (refl, (more, ((ground arith), refl))),
          ),
        )
      ]

  -- The characters of spans without overlap follow one another.
  char_span-Tiles :
      (start : ℕ) (spans : List Range)
      → overlap ≡ 0
      → Rising 0 len offsets
      → length offsets ≡ count
      → Windowing limit overlap count start spans
      → Tiles (base + bound offsets len start) (base + len) (map (char_span offsets len base) spans)
  unfolding char_span
  char_span-Tiles start [] none_shared rising one_each w = absurd w
  char_span-Tiles start ((a, b) ∷ []) none_shared rising one_each (e, (less, (fits, last))) =
      let low : bound offsets len a ≤ bound offsets len b =
        bound_mono offsets 0 len a b rising (omega arith) in
      let top : bound offsets len b ≡ len = bound_end offsets len b (omega arith) in
      ((ground arith), ((omega arith), (omega arith)))
  char_span-Tiles start ((a, b) ∷ next ∷ rest) none_shared rising one_each (e, (full, (more, w))) =
      let low : bound offsets len a ≤ bound offsets len b =
        bound_mono offsets 0 len a b rising (omega arith) in
      let same : b - overlap ≡ b = omega arith in
      (
        (ground arith),
        (
          (omega arith),
          subst
              (λ s.
                Tiles (base + bound offsets len s) (base + len)
                  (map (char_span offsets len base) (next ∷ rest)))
              same (char_span-Tiles (b - overlap) (next ∷ rest) none_shared rising one_each w),
        ),
      )

  -- Every character behind the first one of the spans is in the characters of a span.
  char_span-inside :
      (start i : ℕ) (spans : List Range)
      → Rising 0 len offsets
      → length offsets ≡ count
      → Windowing limit overlap count start spans
      → bound offsets len start ≤ i
      → i < len
      → inside (base + i) (map (char_span offsets len base) spans) ≡ true
  unfolding char_span inside in_range
  char_span-inside start i [] rising one_each w low high = absurd w
  char_span-inside start i ((a, b) ∷ []) rising one_each (e, (less, (fits, last))) low high =
      let top : bound offsets len b ≡ len = bound_end offsets len b (omega arith) in
      ground (arith, ap (bound offsets len) e)
  char_span-inside start i ((a, b) ∷ next ∷ rest) rising one_each (e, (full, (more, w))) low high =
      let below : bound offsets len (b - overlap) ≤ bound offsets len b =
        bound_mono offsets 0 len (b - overlap) b rising (omega arith) in
      let later = char_span-inside (b - overlap) i (next ∷ rest) rising one_each w in
      elim (Bool-cases (ltb i (bound offsets len b))) [
        | inl h ↦ ground (arith, ap (bound offsets len) e)
        | inr h ↦ ground (arith, later (ground arith) high)
      ]

text_eq_refl : (text : Text) → text_eq text text ≡ true
text_eq_refl [] = refl
text_eq_refl (c ∷ cs) = ground (arith, text_eq_refl cs)

positive_length : (tokens : List ℕ) → is_empty tokens ≡ false → 0 < length tokens
positive_length [] h = absurd (ground arith)
positive_length (t ∷ ts) h = omega arith

-- The first token begins with the text.
bound_zero : (offsets : List ℕ) (len : ℕ) → get_elem? offsets 0 ≡ some 0 → bound offsets len 0 ≡ 0
unfolding get_elem? bound
bound_zero [] len h = absurd (ground arith)
bound_zero (x ∷ xs) len h = ground arith

-- The offsets of the tokens of a text.
unfoldable pub offsets_of : Encoding → Text → List ℕ
offsets_of encoding text = (encoding.decode_with_offsets (encoding.encode text)).1

module _ (encoding : Encoding) (laws : IsEncoding encoding) where
  token_windows-stepped_windows :
      (text : Text) (limit overlap base : ℕ)
      → is_plain encoding text ≡ true
      → is_empty (encoding.encode text) ≡ false
      → overlap < limit
      → token_windows encoding text limit overlap base
        ≡ window_loop
            (offsets_of encoding text)
            (length (encoding.encode text))
            (length text)
            limit
            base
            (range
              (length (encoding.encode text))
              (limit - overlap)
              0
              (length (encoding.encode text)))
  unfolding token_windows stepped_windows offsets_of
  token_windows-stepped_windows text limit overlap base plain some_token smaller =
      let same : text_eq (encoding.decode_with_offsets (encoding.encode text)).0 text ≡ true =
        rw (laws.exact text plain) (text_eq_refl text) in
      let accepted = is_plain-has_special encoding text plain in ground arith

  -- With a tokenizer that decodes exactly and reports one offset for each token, in order, where a
  -- text is in UTF-8 and contains no special token: for any overlap less than the window's size, the
  -- windows of such a text with tokens are the characters of spans of its tokens: the first span begins at the first token, each but the last has exactly
  -- the given size and each begins exactly the overlap before the end of the one before it, and the
  -- last is not larger and ends with the last token.
  pub token_windows-Windowing :
      (text : Text) (limit overlap base : ℕ)
      → is_plain encoding text ≡ true
      → is_empty (encoding.encode text) ≡ false
      → overlap < limit
      → (spans : List Range) × ((token_windows encoding text limit overlap base
            ≡ some (map (char_span (offsets_of encoding text) (length text) base) spans))
          × Windowing limit overlap (length (encoding.encode text)) 0 spans)
  unfolding offsets_of
  token_windows-Windowing text limit overlap base plain some_token smaller =
      rw (token_windows-stepped_windows text limit overlap base plain some_token smaller) (
        window_loop-Windowing (offsets_of encoding text) (length (encoding.encode text))
          (length text) limit overlap base smaller (length (encoding.encode text)) 0
          (laws.one_each text plain) (positive_length (encoding.encode text) some_token)
          (omega arith))

  no_tokens :
      (text : Text)
      → is_plain encoding text ≡ true
      → is_empty (encoding.encode text) ≡ true
      → text ≡ []
  no_tokens text plain h = laws.nothing text plain (is_empty_lem (encoding.encode text) h)
    where
      is_empty_lem : (tokens : List ℕ) → is_empty tokens ≡ true → tokens ≡ []
      is_empty_lem [] e = refl
      is_empty_lem (t ∷ ts) e = absurd (ground arith)

  token_windows_empty :
      (text : Text) (limit overlap base : ℕ)
      → is_plain encoding text ≡ true
      → is_empty (encoding.encode text) ≡ true
      → token_windows encoding text limit overlap base ≡ some []
  unfolding token_windows
  token_windows_empty text limit overlap base plain none_there =
      ground (arith, is_plain-has_special encoding text plain)

  first_bound :
      (text : Text)
      → is_plain encoding text ≡ true
      → is_empty (encoding.encode text) ≡ false
      → bound (offsets_of encoding text) (length text) 0 ≡ 0
  unfolding offsets_of
  first_bound text plain some_token =
      bound_zero (offsets_of encoding text) (length text)
        (laws.from_zero text plain (positive_length (encoding.encode text) some_token))

  -- Windows without overlap follow one another from the text's start to its end.
  pub token_windows-Tiles :
      (text : Text) (limit base : ℕ)
      → is_plain encoding text ≡ true
      → 0 < limit
      → (windows : List Range) × ((token_windows encoding text limit 0 base ≡ some windows)
          × Tiles base (base + length text) windows)
  unfolding offsets_of
  token_windows-Tiles text limit base plain pos =
      elim (Bool-cases (is_empty (encoding.encode text))) [
        | inl h ↦
            let empty : length text ≡ 0 = ap length (no_tokens text plain h) in
            ([], (token_windows_empty text limit 0 base plain h, (omega arith)))
        | inr h ↦
            let (spans, (e, w)) = token_windows-Windowing text limit 0 base plain h pos in
            let start : base + bound (offsets_of encoding text) (length text) 0 ≡ base =
              omega (arith, first_bound text plain h) in
            (
              map (char_span (offsets_of encoding text) (length text) base) spans,
              (
                e,
                subst
                    (λ s.
                      Tiles s (base + length text)
                        (map (char_span (offsets_of encoding text) (length text) base) spans))
                    start
                    (char_span-Tiles (offsets_of encoding text) (length (encoding.encode text))
                      (length text) limit 0 base pos 0 spans refl (laws.in_order text plain)
                      (laws.one_each text plain) w),
              ),
            )
      ]

  -- Every character of the text is in a window.
  pub token_windows-inside :
      (text : Text) (limit overlap base : ℕ)
      → is_plain encoding text ≡ true
      → overlap < limit
      → (windows : List Range) × ((token_windows encoding text limit overlap base ≡ some windows)
          × ((i : ℕ) → i < length text → inside (base + i) windows ≡ true))
  unfolding offsets_of
  token_windows-inside text limit overlap base plain smaller =
      elim (Bool-cases (is_empty (encoding.encode text))) [
        | inl h ↦
            let empty : length text ≡ 0 = ap length (no_tokens text plain h) in
            (
              [],
              (token_windows_empty text limit overlap base plain h, λ i less. absurd (omega arith)),
            )
        | inr h ↦
            let (spans, (e, w)) = token_windows-Windowing text limit overlap base plain h smaller in
            (
              map (char_span (offsets_of encoding text) (length text) base) spans,
              (
                e,
                λ i less.
                    char_span-inside (offsets_of encoding text) (length (encoding.encode text))
                      (length text) limit overlap base smaller 0 i spans (laws.in_order text plain)
                      (laws.one_each text plain) w (omega (arith, first_bound text plain h)) less,
              ),
            )
      ]
