-- ===== src/Strings/Printed.antt =====
-- tf/stringUtils.h: TfIntToString, read back.
use native.Mathlib.Nat.{pow-suc}
use pxr_tf.Base.{
  ℕ, zero, suc, ◌+◌, ◌-◌, ◌*◌, ◌/◌, ◌%◌, ◌^◌, ◌≤◌, ◌<◌, ◌≡◌, refl, ap, ap₂, ◌∙◌, sym, true, false,
  List, [], ◌∷◌, ◌++◌, append_assoc, append-nil, ltb, ◌==◌, if◌then◌else◌, arith, dec_lt,
}
use pxr_tf.CompressedBits.Text.{print_digits, int_to_string}
use pxr_tf.Strings.Numbers.{
  pos, neg, is_digit, numeral, integer, limited, string_to_long, string_to_integers,
}

digit_step : (n : ℕ) (rest : List ℕ) → numeral (n / 10) ((b'0' + n % 10) ∷ rest) ≡ numeral n rest
unfolding numeral is_digit
digit_step n rest =
    let t : is_digit (b'0' + n % 10) ≡ true = ground arith in
    let v : n / 10 * 10 + (b'0' + n % 10 - b'0') ≡ n = omega arith in rw (t, v) refl

numeral-print_digits :
    (fuel n : ℕ) (rest : List ℕ)
    → n < 10 ^ fuel
    → numeral 0 (print_digits fuel n ++ rest) ≡ numeral n rest
unfolding print_digits
numeral-print_digits zero n rest h = ap (λ m. numeral m rest) (omega arith)
numeral-print_digits (suc fuel) n rest h = elim (dec_lt n 10) [
  | yes small ↦
      let t : ltb n 10 ≡ true = ground arith in
      let q : n / 10 ≡ 0 = omega arith in
      let r : n % 10 ≡ n = omega arith in
      rw t (ap₂ (λ a b. numeral a ((b'0' + b) ∷ rest)) (sym q) (sym r) ∙ digit_step n rest)
  | no large ↦
      let t : ltb n 10 ≡ false = ground arith in
      let room : 10 ^ suc fuel ≡ 10 ^ fuel * 10 = pow-suc 10 fuel in
      rw (t, append_assoc (print_digits fuel (n / 10)) ((b'0' + n % 10) ∷ []) rest)
        (numeral-print_digits fuel (n / 10) ((b'0' + n % 10) ∷ rest) (omega (arith, room))
          ∙ digit_step n rest)
]

-- Digits do not start with a minus sign.
print_digits-first :
    (fuel n : ℕ)
    → (c : ℕ) × (p : List ℕ) × (print_digits (suc fuel) n ≡ c ∷ p) × ((c == b'-') ≡ false)
unfolding print_digits
print_digits-first zero n = elim (dec_lt n 10) [
  | yes small ↦ let t : ltb n 10 ≡ true = ground arith in rw t (b'0' + n, [], refl, ground arith)
  | no large ↦
      let t : ltb n 10 ≡ false = ground arith in rw t (b'0' + n % 10, [], refl, ground arith)
]
print_digits-first (suc fuel) n = elim (dec_lt n 10) [
  | yes small ↦ let t : ltb n 10 ≡ true = ground arith in rw t (b'0' + n, [], refl, ground arith)
  | no large ↦
      let t : ltb n 10 ≡ false = ground arith in
      let (c, p, e, d) = print_digits-first fuel (n / 10) in
      rw (t, print_digits)
        (c, p ++ (b'0' + n % 10) ∷ [], ap (λ xs. xs ++ (b'0' + n % 10) ∷ []) e, d)
]

integer-print_digits : (n : ℕ) → n < 10 ^ 10 → integer (print_digits 10 n) ≡ pos n
unfolding integer
integer-print_digits n h =
    let (c, p, e, d) = print_digits-first 9 n in
    let v = numeral-print_digits 10 n [] h in
    ap integer e
    ∙ rw d (ap pos (ap (numeral 0) (sym (append-nil (c ∷ p)) ∙ sym (ap (λ xs. xs ++ []) e)) ∙ v))

limited-neg : (n : ℕ) → n ≤ 2 ^ 63 → limited (neg n) ≡ (neg n, false)
unfolding neg
limited-neg zero h = refl
limited-neg (suc n) h = let t : ltb n (2 ^ 63) ≡ true = ground (arith, h) in rw t refl

limited-pos : (n : ℕ) → n < 2 ^ 63 → limited (pos n) ≡ (pos n, false)
limited-pos n h = let t : ltb n (2 ^ 63) ≡ true = ground (arith, h) in rw t refl

-- TfStringToLong reads the text that TfIntToString prints for the 32 bits of an `int` back as the
-- value of that `int`, in range.
pub string_to_long-int_to_string :
    (n : ℕ)
    → n < 2 ^ 32
    → string_to_long (int_to_string n) ≡ (if ltb n (2 ^ 31) then pos n else neg (2 ^ 32 - n), false)
unfolding int_to_string integer
string_to_long-int_to_string n h = elim (dec_lt n (2 ^ 31)) [
  | yes small ↦
      let t : ltb n (2 ^ 31) ≡ true = ground (arith, small) in
      rw t (
        (string_to_integers (print_digits 10 n)).0
        ∙ ap limited (integer-print_digits n (omega arith))
        ∙ limited-pos n (omega arith))
  | no large ↦
      let t : ltb n (2 ^ 31) ≡ false = ground (arith, large) in
      let p = print_digits 10 (2 ^ 32 - n) in
      let v : numeral 0 p ≡ 2 ^ 32 - n =
        ap (numeral 0) (sym (append-nil p))
        ∙ numeral-print_digits 10 (2 ^ 32 - n) [] (omega arith) in
      rw t (
        (string_to_integers (b'-' ∷ p)).0
        ∙ ap (λ k. limited (neg k)) v
        ∙ limited-neg (2 ^ 32 - n) (omega arith))
]
