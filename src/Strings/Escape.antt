-- ===== src/Strings/Escape.antt =====
-- tf/stringUtils.cpp: TfEscapeString and TfEscapeStringReplaceChar. The result is none where the code
-- reads past the end of the string. The loop runs on fuel, one more than the length of the string.
pub mod Laws
use pxr_tf.Base.{
  ℕ, zero, suc, ◌+◌, ◌-◌, ◌*◌, ◌/◌, ◌%◌, ◌^◌, ◌≤◌, ◌<◌, ◌≡◌, ◌↔◌, refl, ap, ap₂, ◌∙◌, sym, Bool,
  true, false, not, ◌||◌, ◌&&◌, List, [], ◌∷◌, ◌++◌, Option, none, some, ◌==◌, if◌then◌else◌,
  length, length-append, arith, Bool-cases, inl, inr, leb, ltb,
}

pub is_octal_digit : ℕ → Bool
is_octal_digit c = leb b'0' c && leb c b'7'

-- `isxdigit`
pub is_hex_digit : ℕ → Bool
is_hex_digit c = leb b'0' c && leb c b'9' || leb b'a' c && leb c b'f' || leb b'A' c && leb c b'F'

pub hex_to_decimal : ℕ → ℕ
hex_to_decimal c =
    if leb b'a' c && leb c b'f'
    then c - b'a' + 10
    else if leb b'A' c && leb c b'F'
    then c - b'A' + 10
    else c - b'0'

-- The loops over at most two and three digits: the `unsigned char` and the rest of the string.
pub hex_digits : ℕ → ℕ → List ℕ → ℕ × List ℕ
unfolding is_hex_digit hex_to_decimal
hex_digits zero n s = (n, s)
hex_digits (suc left) n [] = (n, [])
hex_digits (suc left) n (c ∷ s) =
    let more = hex_digits left ((n * 16 + hex_to_decimal c) % 256) s in
    if is_hex_digit c then more else (n, c ∷ s)

pub octal_digits : ℕ → ℕ → List ℕ → ℕ × List ℕ
unfolding is_octal_digit
octal_digits zero n s = (n, s)
octal_digits (suc left) n [] = (n, [])
octal_digits (suc left) n (c ∷ s) =
    let more = octal_digits left ((n * 8 + (c - b'0')) % 256) s in
    if is_octal_digit c then more else (n, c ∷ s)

-- The switch of TfEscapeStringReplaceChar on the byte after the backslash.
pub escaped : ℕ → List ℕ → ℕ × List ℕ
unfolding hex_digits octal_digits is_octal_digit
escaped c s =
    if c == b'a'
    then (7, s)
    else if c == b'b'
    then (8, s)
    else if c == b'f'
    then (12, s)
    else if c == b'n'
    then (10, s)
    else if c == b'r'
    then (13, s)
    else if c == b't'
    then (9, s)
    else if c == b'v'
    then (11, s)
    else if c == b'x'
    then hex_digits 2 0 s
    else if is_octal_digit c
    then octal_digits 3 0 (c ∷ s)
    else (c, s)

-- TfEscapeStringReplaceChar after the backslash: the byte written and the rest of the string. At the
-- end of the string it writes the terminator and stops on it, and the caller steps past it.
pub escape_string_replace_char : List ℕ → Option (ℕ × List ℕ)
unfolding escaped
escape_string_replace_char [] = none
escape_string_replace_char (c ∷ s) = some (escaped c s)

-- TfEscapeString: the loop stops at the end of the string and at a zero byte that no backslash escapes.
pub escape_loop : ℕ → List ℕ → Option (List ℕ)
unfolding escape_string_replace_char
escape_loop zero s = none
escape_loop (suc fuel) [] = some []
escape_loop (suc fuel) (c ∷ s) =
    let more : Option (List ℕ) =
      elim (if c == 92 then escape_string_replace_char s else some (c, s)) [
        | none ↦ none
        | some (byte, rest) ↦ elim (escape_loop fuel rest) [
          | none ↦ none
          | some out ↦ some (byte ∷ out)
        ]
      ] in
    if c == 0 then some [] else more

pub escape_string : List ℕ → Option (List ℕ)
unfolding escape_loop
escape_string s = escape_loop (suc (length s)) s
