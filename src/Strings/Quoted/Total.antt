-- ===== src/Strings/Quoted/Total.antt =====
-- tf/stringUtils.cpp: the loops of TfQuotedStringTokenize end.
use pxr_tf.Base.{
  ℕ, zero, suc, ◌+◌, ◌-◌, ◌≤◌, ◌<◌, ◌≡◌, ◌≢◌, refl, Bool, true, false, not, ◌&&◌, List, [], ◌∷◌,
  ◌++◌, Option, none, some, ◌==◌, if◌then◌else◌, length, length-drop, drop, get_or, arith,
  Bool-cases, inl, inr, Option-cases,
}
use pxr_tf.Strings.Tokens.{is_delimiter}
use pxr_tf.Strings.Quoted.{
  position_of, find_first_of, find_first_not_of, first_not_escaped, find_first_of_not_escaped,
  slice, quotes, Scan, at_delimiter, unmatched, quoted_parts, Outcome, tokens, failed, strip_quotes,
  with_token, quoted_loop, has_one_of, quoted_string_tokenize,
}

pub position_of-range :
    (test : ℕ → Bool) (i : ℕ) (s : List ℕ) (q : ℕ)
    → position_of test i s ≡ some q
    → (i ≤ q) × (q < i + length s)
unfolding position_of
position_of-range test i [] q h = cc
position_of-range test i (c ∷ s) q h = elim (Bool-cases (test c)) [
  | inl here ↦ let p : i ≡ q = ground (arith, h, here) in (omega (arith, p), omega (arith, p))
  | inr later ↦
      let r = position_of-range test (suc i) s q (ground (arith, h, later)) in
      (omega (arith, r.0), omega (arith, r.1))
]

first_not_escaped-range :
    (set : List ℕ) (e : Bool) (i : ℕ) (s : List ℕ) (q : ℕ)
    → first_not_escaped set e i s ≡ some q
    → (i ≤ q) × (q < i + length s)
unfolding first_not_escaped
first_not_escaped-range set e i [] q h = cc
first_not_escaped-range set e i (c ∷ s) q h = elim (Bool-cases (is_delimiter set c && not e)) [
  | inl here ↦ let p : i ≡ q = ground (arith, h, here) in (omega (arith, p), omega (arith, p))
  | inr later ↦
      let r = first_not_escaped-range set (c == 92) (suc i) s q (ground (arith, h, later)) in
      (omega (arith, r.0), omega (arith, r.1))
]

pub find_first_of-range :
    (source set : List ℕ) (i q : ℕ)
    → find_first_of source set i ≡ some q
    → (i ≤ q) × (q < length source)
unfolding find_first_of
find_first_of-range source set i q h =
    let r = position_of-range (is_delimiter set) i (drop i source) q h in
    (r.0, omega (arith, r.0, r.1, length-drop i source))

pub find_first_not_of-range :
    (source set : List ℕ) (i q : ℕ)
    → find_first_not_of source set i ≡ some q
    → (i ≤ q) × (q < length source)
unfolding find_first_not_of
find_first_not_of-range source set i q h =
    let r = position_of-range (λ c. not (is_delimiter set c)) i (drop i source) q h in
    (r.0, omega (arith, r.0, r.1, length-drop i source))

find_first_of_not_escaped-range :
    (source set : List ℕ) (i q : ℕ)
    → find_first_of_not_escaped source set i ≡ some q
    → (i ≤ q) × (q < length source)
unfolding find_first_of_not_escaped
find_first_of_not_escaped-range source set zero q h =
    let r = first_not_escaped-range set false 0 source q h in (r.0, omega (arith, r.1))
find_first_of_not_escaped-range source set (suc i) q h =
    let r =
      first_not_escaped-range set (get_or source i 0 == 92) (suc i) (drop (suc i) source) q h in
    (r.0, omega (arith, r.0, r.1, length-drop (suc i) source))

-- The loop over quoted parts from `i` on ends, and not before `i`.
abbrev Ends : ℕ → List ℕ → Scan → Type 0
Ends i source (unmatched q) = Unit {0}
Ends i source (at_delimiter token p none) = Unit {0}
Ends i source (at_delimiter token p (some d)) = (i ≤ d) × (d < length source)

abbrev Scans : ℕ → List ℕ → Option Scan → Type 0
Scans i source o = (s : Scan) × (o ≡ some s) × Ends i source s

Scans-stop :
    (source delimiters : List ℕ) (i : ℕ) (token : List ℕ)
    → Scans i source (some (at_delimiter token i (find_first_of source delimiters i)))
Scans-stop source delimiters i token = (_, refl, go (find_first_of source delimiters i) refl)
  where
    go :
        (o : Option ℕ)
        → find_first_of source delimiters i ≡ o
        → Ends i source (at_delimiter token i o)
    go none e = tt
    go (some d) e = find_first_of-range source delimiters i d e

Scans-before :
    (i j : ℕ) (source : List ℕ) (o : Option Scan) → i ≤ j → Scans j source o → Scans i source o
Scans-before i j source o le (unmatched q, e, h) = (unmatched q, e, tt)
Scans-before i j source o le (at_delimiter token p none, e, h) = (at_delimiter token p none, e, tt)
Scans-before i j source o le (at_delimiter token p (some d), e, h) =
    (at_delimiter token p (some d), e, (omega (arith, h.0), h.1))

Scans-if :
    (b : Bool) (i : ℕ) (source : List ℕ) (x y : Option Scan)
    → Scans i source x
    → Scans i source y
    → Scans i source (if b then x else y)
Scans-if true i source x y h k = h
Scans-if false i source x y h k = k

quoted_parts-Scans :
    (fuel : ℕ) (source delimiters : List ℕ) (i : ℕ) (token : List ℕ)
    → length source - i < fuel
    → Scans i source (quoted_parts fuel source delimiters i token)
unfolding quoted_parts
quoted_parts-Scans zero source delimiters i token h = absurd (omega arith)
quoted_parts-Scans (suc fuel) source delimiters i token h =
    elim (Option-cases (find_first_of_not_escaped source quotes i)) [
      | inl no_quote ↦ rw (no_quote, quoted_parts) (Scans-stop source delimiters i token)
      | inr (q, quote) ↦
          elim (Option-cases (find_first_of_not_escaped source (get_or source q 0 ∷ []) (q + 1))) [
            | inl no_end ↦
                rw (quote, no_end, quoted_parts)
                  (Scans-if _ i source _ _ (unmatched (get_or source q 0), refl, tt)
                    (Scans-stop source delimiters i token))
            | inr (j, ended) ↦
                let (low, high) = find_first_of_not_escaped-range source quotes i q quote in
                let (past, inside) =
                  find_first_of_not_escaped-range source (get_or source q 0 ∷ []) (q + 1) j ended in
                let more = token ++ (slice source i q ++ slice source (q + 1) j) in
                rw (quote, ended, quoted_parts)
                  (Scans-if _ i source _ _
                    (Scans-before i (j + 1) source _ (omega (arith, low, past)) (
                      quoted_parts-Scans fuel source delimiters (j + 1) more
                        (omega (arith, h, low, high, past))))
                    (Scans-stop source delimiters i token))
          ]
    ]

with_token-some : (token : List ℕ) (o : Option Outcome) → o ≢ none → with_token token o ≢ none
unfolding with_token
with_token-some token none h = h
with_token-some token (some (tokens ts)) h = λ e. cc
with_token-some token (some (failed e)) h = λ e. cc

-- One pass of the outer loop, if the rest of the loop ends after it.
pass-some :
    (fuel : ℕ) (source delimiters : List ℕ) (i start : ℕ) (scan : Scan)
    → find_first_not_of source delimiters i ≡ some start
    → quoted_parts (suc (length source)) source delimiters start [] ≡ some scan
    → Ends start source scan
    → ((d : ℕ) → start ≤ d → d < length source → quoted_loop fuel source delimiters (d + 1) ≢ none)
    → quoted_loop (suc fuel) source delimiters i ≢ none
unfolding quoted_loop
pass-some fuel source delimiters i start (unmatched q) found e ends rest =
    rw (found, e, quoted_loop) (λ p. cc)
pass-some fuel source delimiters i start (at_delimiter token p none) found e ends rest =
    rw (found, e, quoted_loop) (λ p. cc)
pass-some fuel source delimiters i start (at_delimiter token p (some d)) found e ends rest =
    rw (found, e, quoted_loop)
      (with_token-some (strip_quotes quotes (token ++ slice source p d))
        (quoted_loop fuel source delimiters (d + 1)) (rest d ends.0 ends.1))

quoted_loop-some :
    (fuel : ℕ) (source delimiters : List ℕ) (i : ℕ)
    → length source - i < fuel
    → quoted_loop fuel source delimiters i ≢ none
unfolding quoted_loop
quoted_loop-some zero source delimiters i h = absurd (omega arith)
quoted_loop-some (suc fuel) source delimiters i h =
    elim (Option-cases (find_first_not_of source delimiters i)) [
      | inl nothing_left ↦ rw (nothing_left, quoted_loop) (λ e. cc)
      | inr (start, found) ↦
          let (low, high) = find_first_not_of-range source delimiters i start found in
          let (scan, e, ends) =
            quoted_parts-Scans (suc (length source)) source delimiters start [] (omega arith) in
          pass-some fuel source delimiters i start scan found e ends (λ d le lt.
            quoted_loop-some fuel source delimiters (d + 1) (omega (arith, h, low, le, lt)))
    ]

-- TfQuotedStringTokenize ends for every string and every delimiters: its loops need no more passes
-- than the string has bytes, and one.
pub quoted_string_tokenize-ends :
    (source delimiters : List ℕ) → quoted_string_tokenize source delimiters ≢ none
unfolding quoted_string_tokenize
quoted_string_tokenize-ends source delimiters = elim (Bool-cases (has_one_of delimiters quotes)) [
  | inl quotes_there ↦ rw (quotes_there, quoted_string_tokenize) (λ e. cc)
  | inr none_there ↦
      rw (none_there, quoted_string_tokenize)
        (quoted_loop-some (suc (length source)) source delimiters 0 (omega arith))
]
