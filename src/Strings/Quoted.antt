-- ===== src/Strings/Quoted.antt =====
-- tf/stringUtils.cpp: TfQuotedStringTokenize. Its two loops run on fuel, one more than the length of
-- the string each; none is the end of the fuel.
pub mod Total
pub mod Plain
use pxr_tf.Base.{
  ℕ, zero, suc, ◌+◌, ◌-◌, Bool, true, false, not, ◌||◌, ◌&&◌, List, [], ◌∷◌, ◌++◌, Option, none,
  some, ◌==◌, if◌then◌else◌, length, take, drop, get_or, ltb,
}
use pxr_tf.Strings.Tokens.{is_delimiter}
use pxr_tf.Strings.Pieces.{replace}

-- The first position from `i` on whose byte passes a test; `find_first_of` and `find_first_not_of`.
pub position_of : (ℕ → Bool) → ℕ → List ℕ → Option ℕ
position_of test i [] = none
position_of test i (c ∷ s) =
    let rest = position_of test (suc i) s in if test c then some i else rest

pub find_first_of : List ℕ → List ℕ → ℕ → Option ℕ
unfolding position_of
find_first_of source set i = position_of (is_delimiter set) i (drop i source)

pub find_first_not_of : List ℕ → List ℕ → ℕ → Option ℕ
unfolding position_of
find_first_not_of source set i = position_of (λ c. not (is_delimiter set c)) i (drop i source)

-- `_FindFirstOfNotEscaped`: its calls of `find_first_of`, each from behind the last place, as one walk
-- that knows whether the byte before is a backslash.
pub first_not_escaped : List ℕ → Bool → ℕ → List ℕ → Option ℕ
first_not_escaped set escape i [] = none
first_not_escaped set escape i (c ∷ s) =
    let rest = first_not_escaped set (c == 92) (suc i) s in
    if is_delimiter set c && not escape then some i else rest

pub find_first_of_not_escaped : List ℕ → List ℕ → ℕ → Option ℕ
unfolding first_not_escaped
find_first_of_not_escaped source set zero = first_not_escaped set false 0 source
find_first_of_not_escaped source set (suc i) =
    first_not_escaped set (get_or source i 0 == 92) (suc i) (drop (suc i) source)

-- `substr` from one position to another
pub slice : List ℕ → ℕ → ℕ → List ℕ
slice source i j = take (j - i) (drop i source)

abbrev pub quotes : List ℕ
quotes = 34 ∷ 39 ∷ 96 ∷ []

-- The comparison of two positions, where none is `npos`.
pub comes_before : Option ℕ → Option ℕ → Bool
comes_before none d = false
comes_before (some q) none = true
comes_before (some q) (some d) = ltb q d

-- The end of the loop over the quoted parts of a token: the token so far, the position and
-- `delimIndex`, or the quote that has no end.
pub data Scan : Type 0 where
  at_delimiter : List ℕ → ℕ → Option ℕ → Scan
  unmatched : ℕ → Scan

-- The loop. The code adds a part only if it is not empty.
pub quoted_parts : ℕ → List ℕ → List ℕ → ℕ → List ℕ → Option Scan
unfolding find_first_of find_first_of_not_escaped slice comes_before
quoted_parts zero source delimiters i token = none
quoted_parts (suc fuel) source delimiters i token =
    elim (find_first_of_not_escaped source quotes i) [
      | none ↦ some (at_delimiter token i (find_first_of source delimiters i))
      | some q ↦ elim (find_first_of_not_escaped source (get_or source q 0 ∷ []) (q + 1)) [
        | none ↦
            if comes_before (some q) (find_first_of source delimiters i)
            then some (unmatched (get_or source q 0))
            else some (at_delimiter token i (find_first_of source delimiters i))
        | some j ↦
            let more =
              quoted_parts fuel source delimiters (j + 1)
                (token ++ (slice source i q ++ slice source (q + 1) j)) in
            if comes_before (some q) (find_first_of source delimiters i)
            then more
            else some (at_delimiter token i (find_first_of source delimiters i))
      ]
    ]

pub data Error : Type 0 where
  quotes_as_delimiters : Error
  missing_end_quote : ℕ → Error

pub data Outcome : Type 0 where
  tokens : List (List ℕ) → Outcome
  failed : Error → Outcome

-- The backslash before each kind of quote goes.
pub strip_quotes : List ℕ → List ℕ → List ℕ
strip_quotes [] token = token
strip_quotes (q ∷ qs) token = strip_quotes qs (replace token (92 ∷ q ∷ []) (q ∷ []))

pub with_token : List ℕ → Option Outcome → Option Outcome
with_token token none = none
with_token token (some (tokens ts)) = some (tokens (token ∷ ts))
with_token token (some (failed e)) = some (failed e)

pub quoted_loop : ℕ → List ℕ → List ℕ → ℕ → Option Outcome
unfolding find_first_not_of quoted_parts strip_quotes with_token
quoted_loop zero source delimiters i = none
quoted_loop (suc fuel) source delimiters i = elim (find_first_not_of source delimiters i) [
  | none ↦ some (tokens [])
  | some start ↦ elim (quoted_parts (suc (length source)) source delimiters start []) [
    | none ↦ none
    | some (unmatched q) ↦ some (failed (missing_end_quote q))
    | some (at_delimiter token i none) ↦
        some (tokens (strip_quotes quotes (token ++ drop i source) ∷ []))
    | some (at_delimiter token i (some d)) ↦
        with_token (strip_quotes quotes (token ++ slice source i d))
          (quoted_loop fuel source delimiters (d + 1))
  ]
]

-- `strpbrk`
unfoldable pub has_one_of : List ℕ → List ℕ → Bool
has_one_of [] set = false
has_one_of (c ∷ s) set = is_delimiter set c || has_one_of s set

-- TfQuotedStringTokenize: the vector, or what is written to `errors`, with which it is empty.
pub quoted_string_tokenize : List ℕ → List ℕ → Option Outcome
unfolding has_one_of quoted_loop
quoted_string_tokenize source delimiters =
    if has_one_of delimiters quotes
    then some (failed quotes_as_delimiters)
    else quoted_loop (suc (length source)) source delimiters 0
