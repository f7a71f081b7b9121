-- ===== src/Strings/Quoted/Plain.antt =====
-- tf/stringUtils.cpp: TfQuotedStringTokenize of a string without quotes and backslashes.
use pxr_tf.Base.{
  ℕ, zero, suc, ◌+◌, ◌-◌, ◌<◌, ◌≡◌, refl, ap, ◌∙◌, sym, Bool, true, false, not, List, [], ◌∷◌, none,
  some, ◌==◌, length, take, drop, get_or, arith, Bool-cases, inl, inr, Option-cases,
}
use pxr_tf.Strings.{find, starts_with}
use pxr_tf.Strings.Tokens.{is_delimiter, tokenize, fields, not_empty, extend, tokenize-fields}
use pxr_tf.Strings.Pieces.Laws.{replace-missing}
use pxr_tf.Strings.Quoted.{
  position_of, find_first_of, find_first_not_of, first_not_escaped, find_first_of_not_escaped,
  slice, quotes, at_delimiter, quoted_parts, tokens, strip_quotes, with_token, quoted_loop,
  has_one_of, quoted_string_tokenize,
}
use pxr_tf.Strings.Quoted.Total.{position_of-range, find_first_not_of-range, find_first_of-range}

-- No byte is a quote or a backslash.
abbrev pub Plain : List ℕ → Type 0
Plain [] = Unit {0}
Plain (c ∷ s) = ((is_delimiter (92 ∷ quotes) c) ≡ false) × Plain s

Plain-drop : (n : ℕ) (s : List ℕ) → Plain s → Plain (drop n s)
Plain-drop zero s h = h
Plain-drop (suc n) [] h = h
Plain-drop (suc n) (c ∷ s) h = Plain-drop n s h.1

Plain-take : (n : ℕ) (s : List ℕ) → Plain s → Plain (take n s)
Plain-take zero s h = tt
Plain-take (suc n) [] h = tt
Plain-take (suc n) (c ∷ s) h = (h.0, Plain-take n s h.1)

first_not_escaped-Plain :
    (e : Bool) (i : ℕ) (s : List ℕ) → Plain s → first_not_escaped quotes e i s ≡ none
unfolding first_not_escaped is_delimiter
first_not_escaped-Plain e i [] h = refl
first_not_escaped-Plain e i (c ∷ s) h =
    ground (arith, h.0, first_not_escaped-Plain (c == 92) (suc i) s h.1)

no_quote :
    (source : List ℕ) (i : ℕ) → Plain source → find_first_of_not_escaped source quotes i ≡ none
unfolding find_first_of_not_escaped
no_quote source zero h = first_not_escaped-Plain false 0 source h
no_quote source (suc i) h =
    first_not_escaped-Plain (get_or source i 0 == 92) (suc i) (drop (suc i) source)
      (Plain-drop (suc i) source h)

find-Plain : (q : ℕ) (s : List ℕ) → Plain s → find (92 ∷ q ∷ []) s ≡ none
unfolding find starts_with is_delimiter
find-Plain q [] h = refl
find-Plain q (c ∷ s) h = ground (arith, h.0, find-Plain q s h.1)

strip_quotes-Plain : (qs s : List ℕ) → Plain s → strip_quotes qs s ≡ s
unfolding strip_quotes
strip_quotes-Plain [] s h = refl
strip_quotes-Plain (q ∷ qs) s h =
    ap (strip_quotes qs) (replace-missing s (92 ∷ q ∷ []) (q ∷ []) (find-Plain q s h))
    ∙ strip_quotes-Plain qs s h

drop-drop : (m n : ℕ) (s : List ℕ) → drop m (drop n s) ≡ drop (n + m) s
drop-drop m zero s = ap (λ k. drop k s) (omega arith)
drop-drop zero (suc n) [] = let e : suc n + 0 ≡ suc n = omega arith in rw e refl
drop-drop (suc m) (suc n) [] = let e : suc n + suc m ≡ suc (n + suc m) = omega arith in rw e refl
drop-drop m (suc n) (c ∷ s) =
    let e : suc n + m ≡ suc (n + m) = omega arith in rw e (drop-drop m n s)

-- Delimiters before the first other byte.
fields-none :
    (delimiters : List ℕ) (i : ℕ) (s : List ℕ)
    → position_of (λ c. not (is_delimiter delimiters c)) i s ≡ none
    → not_empty (fields delimiters s) ≡ []
unfolding position_of fields not_empty
fields-none delimiters i [] h = refl
fields-none delimiters i (c ∷ s) h =
    let t : is_delimiter delimiters c ≡ true = ground (arith, h) in
    rw t (fields-none delimiters (suc i) s (ground (arith, h)))

fields-skip :
    (delimiters : List ℕ) (i : ℕ) (s : List ℕ) (q : ℕ)
    → position_of (λ c. not (is_delimiter delimiters c)) i s ≡ some q
    → (c : ℕ) × (t : List ℕ) × (drop (q - i) s ≡ c ∷ t)
      × (is_delimiter delimiters c ≡ false)
      × (not_empty (fields delimiters s) ≡ not_empty (fields delimiters (c ∷ t)))
unfolding position_of fields not_empty
fields-skip delimiters i [] q h = cc
fields-skip delimiters i (c ∷ s) q h = elim (Bool-cases (is_delimiter delimiters c)) [
  | inl skipped ↦
      let h' : position_of (λ c. not (is_delimiter delimiters c)) (suc i) s ≡ some q =
        ground (arith, h, skipped) in
      let (d, t, e, other, same) = fields-skip delimiters (suc i) s q h' in
      let (low, _) = position_of-range (λ c. not (is_delimiter delimiters c)) (suc i) s q h' in
      let n : q - i ≡ suc (q - suc i) = omega (arith, low) in (d, t, rw n e, other, rw skipped same)
  | inr here ↦ let n : q - i ≡ 0 = ground (arith, h, here) in (c, s, rw n refl, here, refl)
]

-- The piece up to the first delimiter.
fields-last :
    (delimiters : List ℕ) (i : ℕ) (s : List ℕ)
    → position_of (is_delimiter delimiters) i s ≡ none
    → fields delimiters s ≡ s ∷ []
unfolding position_of fields extend
fields-last delimiters i [] h = refl
fields-last delimiters i (c ∷ s) h =
    let t : is_delimiter delimiters c ≡ false = ground (arith, h) in
    rw (t, fields-last delimiters (suc i) s (ground (arith, h))) refl

fields-first :
    (delimiters : List ℕ) (i : ℕ) (s : List ℕ) (d : ℕ)
    → position_of (is_delimiter delimiters) i s ≡ some d
    → fields delimiters s ≡ take (d - i) s ∷ fields delimiters (drop (suc (d - i)) s)
unfolding position_of fields extend
fields-first delimiters i [] d h = cc
fields-first delimiters i (c ∷ s) d h = elim (Bool-cases (is_delimiter delimiters c)) [
  | inl here ↦ let n : d - i ≡ 0 = ground (arith, h, here) in rw (here, n) refl
  | inr inside ↦
      let h' : position_of (is_delimiter delimiters) (suc i) s ≡ some d =
        ground (arith, h, inside) in
      let (low, _) = position_of-range (is_delimiter delimiters) (suc i) s d h' in
      let n : d - i ≡ suc (d - suc i) = omega (arith, low) in
      rw (inside, n, fields-first delimiters (suc i) s d h') refl
]

unquoted :
    (source delimiters : List ℕ) (i : ℕ)
    → Plain source
    → quoted_parts (suc (length source)) source delimiters i []
      ≡ some (at_delimiter [] i (find_first_of source delimiters i))
unfolding quoted_parts
unquoted source delimiters i h = rw (no_quote source i h, quoted_parts) refl

-- The words of a string from a position on.
words_from : List ℕ → List ℕ → ℕ → List (List ℕ)
words_from source delimiters i = not_empty (fields delimiters (drop i source))

token_last :
    (source delimiters : List ℕ) (i c : ℕ) (t : List ℕ)
    → drop i source ≡ c ∷ t
    → find_first_of source delimiters i ≡ none
    → words_from source delimiters i ≡ drop i source ∷ []
unfolding words_from find_first_of not_empty
token_last source delimiters i c t e h =
    ap not_empty (fields-last delimiters i (drop i source) h) ∙ rw e refl

token_first :
    (source delimiters : List ℕ) (i c : ℕ) (t : List ℕ) (d : ℕ)
    → drop i source ≡ c ∷ t
    → is_delimiter delimiters c ≡ false
    → find_first_of source delimiters i ≡ some d
    → words_from source delimiters i ≡ slice source i d ∷ words_from source delimiters (d + 1)
unfolding words_from find_first_of not_empty slice position_of
token_first source delimiters i c t d e other h =
    let h' : position_of (is_delimiter delimiters) i (c ∷ t) ≡ some d =
      ap (position_of (is_delimiter delimiters) i) (sym e) ∙ h in
    let h'' : position_of (is_delimiter delimiters) (suc i) t ≡ some d =
      ground (arith, h', other) in
    let (low, _) = position_of-range (is_delimiter delimiters) (suc i) t d h'' in
    let n : d - i ≡ suc (d - suc i) = omega (arith, low) in
    let there : i + suc (d - i) ≡ d + 1 = omega (arith, low) in
    let rest = drop-drop (suc (d - i)) i source ∙ ap (λ k. drop k source) there in
    ap not_empty (fields-first delimiters i (drop i source) d h)
    ∙ ap (λ r. not_empty (take (d - i) (drop i source) ∷ fields delimiters r)) rest
    ∙ rw (e, n) refl

quoted_loop-Plain :
    (fuel : ℕ) (source delimiters : List ℕ) (i : ℕ)
    → length source - i < fuel
    → Plain source
    → quoted_loop fuel source delimiters i ≡ some (tokens (words_from source delimiters i))
unfolding quoted_loop words_from find_first_not_of with_token
quoted_loop-Plain zero source delimiters i lt h = absurd (omega arith)
quoted_loop-Plain (suc fuel) source delimiters i lt h =
    elim (Option-cases (find_first_not_of source delimiters i)) [
      | inl missing ↦
          rw (missing, quoted_loop)
            (ap (λ w. some (tokens w)) (sym (fields-none delimiters i (drop i source) missing)))
      | inr (start, found) ↦
          let (low, high) = find_first_not_of-range source delimiters i start found in
          let (c, t, e, other, same) = fields-skip delimiters i (drop i source) start found in
          let there : i + (start - i) ≡ start = omega (arith, low) in
          let at_start =
            ap (λ k. drop k source) (sym there) ∙ sym (drop-drop (start - i) i source) ∙ e in
          let words : words_from source delimiters i ≡ words_from source delimiters start =
            same ∙ ap (λ s. not_empty (fields delimiters s)) (sym at_start) in
          elim (Option-cases (find_first_of source delimiters start)) [
            | inl last ↦
                rw
                  (
                    found,
                    unquoted source delimiters start h,
                    last,
                    strip_quotes-Plain quotes (drop start source) (Plain-drop start source h),
                    quoted_loop,
                  )
                  (ap (λ w. some (tokens w))
                    (sym (words ∙ token_last source delimiters start c t at_start last)))
            | inr (d, ended) ↦
                let (past, inside) = find_first_of-range source delimiters start d ended in
                let ih =
                  quoted_loop-Plain fuel source delimiters (d + 1)
                    (omega (arith, lt, low, past, inside)) h in
                rw
                  (
                    found,
                    unquoted source delimiters start h,
                    ended,
                    strip_quotes-Plain quotes (slice source start d)
                        (Plain-take (d - start) (drop start source) (Plain-drop start source h)),
                    ih,
                    quoted_loop,
                  )
                  (ap (λ w. some (tokens w))
                    (sym (words ∙ token_first source delimiters start c t d at_start other ended)))
          ]
    ]

-- For a string without quotes and backslashes, and delimiters that are no quotes,
-- TfQuotedStringTokenize writes no error and returns what TfStringTokenize returns.
pub quoted_string_tokenize-tokenize :
    (source delimiters : List ℕ)
    → Plain source
    → has_one_of delimiters quotes ≡ false
    → quoted_string_tokenize source delimiters ≡ some (tokens (tokenize source delimiters))
unfolding quoted_string_tokenize words_from
quoted_string_tokenize-tokenize source delimiters h allowed =
    rw (allowed, quoted_string_tokenize)
      (quoted_loop-Plain (suc (length source)) source delimiters 0 (omega arith) h
        ∙ ap (λ w. some (tokens w)) (sym (tokenize-fields source delimiters)))
