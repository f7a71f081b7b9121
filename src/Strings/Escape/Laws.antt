-- ===== src/Strings/Escape/Laws.antt =====
-- tf/stringUtils.cpp: where TfEscapeString reads past the end, and texts that it reads back.
use pxr_tf.Base.{
  ℕ, zero, suc, ◌+◌, ◌-◌, ◌*◌, ◌/◌, ◌%◌, ◌≤◌, ◌<◌, ◌≡◌, refl, ap, ◌∙◌, sym, Bool, true, false, List,
  [], ◌∷◌, Option, none, some, ◌==◌, if◌then◌else◌, length, arith, Bool-cases, inl, inr,
}
use pxr_tf.Strings.{c_string}
use pxr_tf.Strings.Escape.{
  is_octal_digit, is_hex_digit, hex_to_decimal, hex_digits, octal_digits, escaped,
  escape_string_replace_char, escape_loop, escape_string,
}

-- A backslash that no other backslash escapes ends the string, and each zero byte before it comes
-- right after a backslash that no other backslash escapes.
unfoldable pub dangling : List ℕ → Bool
dangling [] = false
dangling (c ∷ []) = c == 92
dangling (c ∷ d ∷ s) =
    let after = dangling s in
    let next = dangling (d ∷ s) in if c == 92 then after else if c == 0 then false else next

dangling-cons :
    (c : ℕ) (s : List ℕ) → (c == 92) ≡ false → (c == 0) ≡ false → dangling (c ∷ s) ≡ dangling s
unfolding dangling
dangling-cons c [] h k = h
dangling-cons c (d ∷ s) h k = rw (h, k) refl

hex_digits-dangling :
    (left n : ℕ) (s : List ℕ)
    → (dangling (hex_digits left n s).1 ≡ dangling s) × (length (hex_digits left n s).1 ≤ length s)
unfolding hex_digits is_hex_digit
hex_digits-dangling zero n s = (refl, omega arith)
hex_digits-dangling (suc left) n [] = (refl, omega arith)
hex_digits-dangling (suc left) n (c ∷ s) =
    let (same, le) = hex_digits-dangling left ((n * 16 + hex_to_decimal c) % 256) s in
    elim (Bool-cases (is_hex_digit c)) [
      | inl hex ↦ rw hex (
        same ∙ sym (dangling-cons c s (ground (arith, hex)) (ground (arith, hex))),
        omega (arith, le),
      )
      | inr other ↦ rw other (refl, omega arith)
    ]

octal_digits-dangling :
    (left n : ℕ) (s : List ℕ)
    → (dangling (octal_digits left n s).1 ≡ dangling s)
      × (length (octal_digits left n s).1 ≤ length s)
unfolding octal_digits is_octal_digit
octal_digits-dangling zero n s = (refl, omega arith)
octal_digits-dangling (suc left) n [] = (refl, omega arith)
octal_digits-dangling (suc left) n (c ∷ s) =
    let (same, le) = octal_digits-dangling left ((n * 8 + (c - b'0')) % 256) s in
    elim (Bool-cases (is_octal_digit c)) [
      | inl octal ↦ rw octal (
        same ∙ sym (dangling-cons c s (ground (arith, octal)) (ground (arith, octal))),
        omega (arith, le),
      )
      | inr other ↦ rw other (refl, omega arith)
    ]

-- What is left after an escape: not longer than the text from its second byte on, and it dangles if
-- the text after that does.
abbrev Left : List ℕ → ℕ × List ℕ → Type 0
Left s r = (dangling r.1 ≡ dangling s) × (length r.1 ≤ suc (length s))

either :
    (b : Bool) (s : List ℕ) (x y : ℕ × List ℕ) → Left s x → Left s y → Left s (if b then x else y)
either true s x y h k = h
either false s x y h k = k

octal-Left :
    (c : ℕ) (s : List ℕ) → Left s (if is_octal_digit c then octal_digits 3 0 (c ∷ s) else (c, s))
unfolding is_octal_digit
octal-Left c s = elim (Bool-cases (is_octal_digit c)) [
  | inl octal ↦
      let h = octal_digits-dangling 3 0 (c ∷ s) in
      rw octal (h.0 ∙ dangling-cons c s (ground (arith, octal)) (ground (arith, octal)), h.1)
  | inr other ↦ rw other (refl, omega arith)
]

escaped-Left : (c : ℕ) (s : List ℕ) → Left s (escaped c s)
unfolding escaped
escaped-Left c s = here (c == b'a') 7 _ (
    here (c == b'b') 8 _ (
      here (c == b'f') 12 _ (
        here (c == b'n') 10 _ (
          here (c == b'r') 13 _ (
            here (c == b't') 9 _ (
              here (c == b'v') 11 _ (
                either (c == b'x') s (hex_digits 2 0 s) _
                  (let h = hex_digits-dangling 2 0 s in (h.0, omega (arith, h.1)))
                  (octal-Left c s))))))))
  where
    here : (b : Bool) (n : ℕ) (y : ℕ × List ℕ) → Left s y → Left s (if b then (n, s) else y)
    here b n y h = either b s (n, s) y (refl, omega arith) h

pub is_none : Option (List ℕ) → Bool
is_none none = true
is_none (some out) = false

is_none-more :
    (byte : ℕ) (o : Option (List ℕ))
    → is_none (elim o [ none ↦ none | some out ↦ some (byte ∷ out) ]) ≡ is_none o
unfolding is_none
is_none-more byte none = refl
is_none-more byte (some out) = refl

-- One pass where the byte is no zero.
escape_loop-pass :
    (fuel c : ℕ) (s : List ℕ)
    → (c == 0) ≡ false
    → (c == 92) ≡ false
    → escape_loop (suc fuel) (c ∷ s)
      ≡ elim (escape_loop fuel s) [ none ↦ none | some out ↦ some (c ∷ out) ]
unfolding escape_loop
escape_loop-pass fuel c s h k = rw (h, k) refl

escape_loop-dangling :
    (fuel : ℕ) (s : List ℕ) → length s < fuel → is_none (escape_loop fuel s) ≡ dangling s
unfolding escape_loop is_none dangling escape_string_replace_char
escape_loop-dangling zero s h = absurd (omega arith)
escape_loop-dangling (suc fuel) [] h = refl
escape_loop-dangling (suc fuel) (c ∷ []) h = elim (Bool-cases (c == 92)) [
  | inl slash ↦ let p : c ≡ 92 = ground (arith, slash) in rw p refl
  | inr other ↦ elim (Bool-cases (c == 0)) [
    | inl zero_byte ↦ rw (zero_byte, other) refl
    | inr more ↦ rw (escape_loop-pass fuel c [] more other) (
        is_none-more c (escape_loop fuel [])
        ∙ escape_loop-dangling fuel [] (omega arith)
        ∙ sym other)
  ]
]
escape_loop-dangling (suc fuel) (c ∷ d ∷ s) h = elim (Bool-cases (c == 92)) [
  | inl slash ↦
      let p : c ≡ 92 = ground (arith, slash) in
      let (same, le) = escaped-Left d s in
      let (byte, rest) = escaped d s in
      rw p (
        is_none-more byte (escape_loop fuel rest)
        ∙ escape_loop-dangling fuel rest (omega (arith, le))
        ∙ same)
  | inr other ↦ elim (Bool-cases (c == 0)) [
    | inl zero_byte ↦ rw (zero_byte, other) refl
    | inr more ↦
        rw (escape_loop-pass fuel c (d ∷ s) more other, other, more)
          (is_none-more c (escape_loop fuel (d ∷ s))
            ∙ escape_loop-dangling fuel (d ∷ s) (omega arith))
  ]
]

-- Each byte as a backslash and three octal digits.
pub octal_text : List ℕ → List ℕ
octal_text [] = []
octal_text (c ∷ s) = 92 ∷ (b'0' + c / 64) ∷ (b'0' + c / 8 % 8) ∷ (b'0' + c % 8) ∷ octal_text s

-- Each backslash twice.
pub doubled : List ℕ → List ℕ
doubled [] = []
doubled (c ∷ s) = let rest = doubled s in if c == 92 then 92 ∷ 92 ∷ rest else c ∷ rest

abbrev pub Bytes : List ℕ → Type 0
Bytes [] = Unit {0}
Bytes (c ∷ s) = (c < 256) × Bytes s

escaped-octal :
    (c : ℕ) (s : List ℕ)
    → c < 256
    → escaped (b'0' + c / 64) ((b'0' + c / 8 % 8) ∷ (b'0' + c % 8) ∷ s) ≡ (c, s)
unfolding escaped octal_digits is_octal_digit
escaped-octal c s h = ground arith

escape_loop-octal :
    (fuel : ℕ) (s : List ℕ) → length s < fuel → Bytes s → escape_loop fuel (octal_text s) ≡ some s
unfolding escape_loop octal_text escape_string_replace_char
escape_loop-octal zero s h b = absurd (omega arith)
escape_loop-octal (suc fuel) [] h b = refl
escape_loop-octal (suc fuel) (c ∷ s) h b =
    ap (λ r. elim (escape_loop fuel r.1) [ none ↦ none | some out ↦ some (r.0 ∷ out) ])
      (escaped-octal c (octal_text s) b.0)
    ∙ rw (escape_loop-octal fuel s (omega arith) b.1) refl

escape_loop-doubled :
    (fuel : ℕ) (s : List ℕ) → length s < fuel → escape_loop fuel (doubled s) ≡ some (c_string s)
unfolding escape_loop doubled c_string escape_string_replace_char escaped
escape_loop-doubled zero s h = absurd (omega arith)
escape_loop-doubled (suc fuel) [] h = refl
escape_loop-doubled (suc fuel) (c ∷ s) h = elim (Bool-cases (c == 92)) [
  | inl slash ↦
      let p : c ≡ 92 = ground (arith, slash) in
      rw p (rw (escape_loop-doubled fuel s (omega arith)) refl)
  | inr other ↦ elim (Bool-cases (c == 0)) [
    | inl zero_byte ↦ let p : c ≡ 0 = ground (arith, zero_byte) in rw p refl
    | inr more ↦ rw (other, more) (rw (other, escape_loop-doubled fuel s (omega arith)) refl)
  ]
]

length-octal_text : (s : List ℕ) → length s ≤ length (octal_text s)
unfolding octal_text
length-octal_text [] = omega arith
length-octal_text (c ∷ s) = omega (arith, length-octal_text s)

length-doubled : (s : List ℕ) → length s ≤ length (doubled s)
unfolding doubled
length-doubled [] = omega arith
length-doubled (c ∷ s) = ground (arith, length-doubled s)

escape_string-dangling : (s : List ℕ) → is_none (escape_string s) ≡ dangling s
unfolding escape_string
escape_string-dangling s = escape_loop-dangling (suc (length s)) s (omega arith)

escape_string-texts :
    (s : List ℕ)
    → Bytes s
    → (escape_string (octal_text s) ≡ some s) × (escape_string (doubled s) ≡ some (c_string s))
unfolding escape_string
escape_string-texts s b = (
  escape_loop-octal (suc (length (octal_text s))) s (omega (arith, length-octal_text s)) b,
  escape_loop-doubled (suc (length (doubled s))) s (omega (arith, length-doubled s)),
)

-- For a string of bytes, zero bytes included, TfEscapeString reads past the end exactly if a backslash
-- that no other backslash escapes ends the string and each zero byte before it comes right after such
-- a backslash, and it returns for every other string; it reads the text that has each byte of the
-- string as a backslash and three octal digits as the string, and the text that has each backslash
-- twice as the bytes of the string up to the first zero byte.
pub escape_string_lem :
    (s : List ℕ)
    → Bytes s
    → (is_none (escape_string s) ≡ dangling s)
      × (escape_string (octal_text s) ≡ some s)
      × (escape_string (doubled s) ≡ some (c_string s))
escape_string_lem s b =
    let (octal, twice) = escape_string-texts s b in (escape_string-dangling s, octal, twice)
