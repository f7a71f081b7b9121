-- ===== src/CompressedBits/Text/Digits.antt =====
-- tf/compressedBits.cpp, tf/stringUtils.h: decimal numbers, printed and read.
use native.Mathlib.Nat.{pow-suc}
use pxr_tf.Base.{
  ℕ, zero, suc, ◌+◌, ◌-◌, ◌*◌, ◌/◌, ◌^◌, ◌≤◌, ◌<◌, ◌≡◌, refl, ap, ◌∙◌, Bool, true, false, List, [],
  ◌∷◌, ◌++◌, arith, ltb, u32, dec_lt,
}
use pxr_tf.CompressedBits.Text.{print_digits, int_to_string, classify, tokenize, digit}

abbrev pub AllDigits : List ℕ → Type 0
AllDigits [] = Unit {0}
AllDigits (c ∷ cs) = ((b'0' ≤ c) × (c ≤ b'9')) × AllDigits cs

AllDigits-append : (xs ys : List ℕ) → AllDigits xs → AllDigits ys → AllDigits (xs ++ ys)
AllDigits-append [] ys h k = k
AllDigits-append (x ∷ xs) ys h k = (h.0, AllDigits-append xs ys h.1 k)

-- `tokens.back() * 10 + digit` over a run of digits.
abbrev pub fold_digits : ℕ → List ℕ → ℕ
fold_digits last [] = last
fold_digits last (c ∷ cs) = fold_digits (u32 (last * 10 + (c - b'0'))) cs

fold_digits-append :
    (last : ℕ) (xs ys : List ℕ) → fold_digits last (xs ++ ys) ≡ fold_digits (fold_digits last xs) ys
fold_digits-append last [] ys = refl
fold_digits-append last (x ∷ xs) ys = fold_digits-append (u32 (last * 10 + (x - b'0'))) xs ys

pub tokenize-digits :
    (dash : Bool) (done : List ℕ) (last : ℕ) (ds rest : List ℕ)
    → AllDigits ds
    → tokenize dash done last (ds ++ rest) ≡ tokenize dash done (fold_digits last ds) rest
unfolding tokenize
tokenize-digits dash done last [] rest h = refl
tokenize-digits dash done last (d ∷ ds) rest h =
    let e : classify dash d ≡ digit = ground arith in
    rw (e, tokenize) (tokenize-digits dash done (u32 (last * 10 + (d - b'0'))) ds rest h.1)

print_digits-AllDigits : (fuel n : ℕ) → AllDigits (print_digits fuel n)
unfolding print_digits
print_digits-AllDigits zero n = tt
print_digits-AllDigits (suc fuel) n = elim (dec_lt n 10) [
  | yes small ↦ let t : ltb n 10 ≡ true = ground arith in rw t (omega arith)
  | no large ↦
      let t : ltb n 10 ≡ false = ground arith in
      rw t (
        AllDigits-append (print_digits fuel (n / 10)) _ (print_digits-AllDigits fuel (n / 10))
          (omega arith))
]

fuel_pos : (fuel n : ℕ) → ¬ (n < 10) → n < 10 ^ suc fuel → 0 < fuel
fuel_pos zero n large h = absurd (omega arith)
fuel_pos (suc fuel) n large h = omega arith

fold-print_digits :
    (fuel n : ℕ) → 0 < fuel → n < 10 ^ fuel → n < 2 ^ 32 → fold_digits 0 (print_digits fuel n) ≡ n
unfolding print_digits
fold-print_digits zero n pos h fits = absurd (omega arith)
fold-print_digits (suc fuel) n pos h fits = elim (dec_lt n 10) [
  | yes small ↦ let t : ltb n 10 ≡ true = ground arith in rw t (omega arith)
  | no large ↦
      let t : ltb n 10 ≡ false = ground arith in
      let room : 10 ^ suc fuel ≡ 10 ^ fuel * 10 = pow-suc 10 fuel in
      let ih =
        fold-print_digits fuel (n / 10) (fuel_pos fuel n large h) (omega (arith, room))
          (omega arith) in
      rw t (fold_digits-append 0 (print_digits fuel (n / 10)) _ ∙ omega (arith, ih))
]

-- A number that an `int` holds is printed as digits, and the digits are read as the number.
pub tokenize-int_to_string :
    (dash : Bool) (done : List ℕ) (n : ℕ) (rest : List ℕ)
    → n < 2 ^ 31
    → tokenize dash done 0 (int_to_string n ++ rest) ≡ tokenize dash done n rest
unfolding int_to_string
tokenize-int_to_string dash done n rest h =
    let t : ltb n (2 ^ 31) ≡ true = ground arith in
    rw t (
      tokenize-digits dash done 0 (print_digits 10 n) rest (print_digits-AllDigits 10 n)
      ∙ ap (λ k. tokenize dash done k rest)
          (fold-print_digits 10 n (omega arith) (omega arith) (omega arith)))
