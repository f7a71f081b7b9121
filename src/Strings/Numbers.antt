-- ===== src/Strings/Numbers.antt =====
-- tf/stringUtils.cpp: the conversions from digits to integers. `long` and `int64_t` have 64 bits.
use pxr_tf.Base.{
  ℕ, zero, suc, ◌+◌, ◌-◌, ◌*◌, ◌/◌, ◌%◌, ◌^◌, ◌≤◌, ◌≡◌, refl, ◌∙◌, Bool, true, false, ◌&&◌, List,
  [], ◌∷◌, ltb, leb, ◌==◌, if◌then◌else◌, arith, Bool-cases, inl, inr,
}

-- The library's ℤ over the native numbers.
pub data ℤ : Type 0 where
  pos : ℕ → ℤ
  negsuc : ℕ → ℤ

unfoldable pub neg : ℕ → ℤ
neg zero = pos 0
neg (suc n) = negsuc n

unfoldable pub is_digit : ℕ → Bool
is_digit c = leb b'0' c && leb c b'9'

-- `_StringToPositive` for a type whose largest value is `m`: the value, and whether it was out of
-- range. `_StringToNegative` runs the same loop on values below 0, down to `- m`; here it is on their
-- magnitudes.
pub to_magnitude : ℕ → ℕ → List ℕ → ℕ × Bool
unfolding is_digit
to_magnitude m result [] = (result, false)
to_magnitude m result (c ∷ p) =
    let digit = c - b'0' in
    let rest = to_magnitude m (result * 10 + digit) p in
    if is_digit c
    then (if ltb (m / 10 - (if ltb (m % 10) digit then 1 else 0)) result then (m, true) else rest)
    else (result, false)

-- TfStringToLong and TfStringToInt64
pub string_to_long : List ℕ → ℤ × Bool
unfolding to_magnitude neg
string_to_long [] = (pos 0, false)
string_to_long (c ∷ p) =
    let (low, below) = to_magnitude (2 ^ 63) 0 p in
    let (high, above) = to_magnitude (2 ^ 63 - 1) 0 (c ∷ p) in
    if c == b'-' then (neg low, below) else (pos high, above)

-- TfStringToULong and TfStringToUInt64
pub string_to_ulong : List ℕ → ℕ × Bool
unfolding to_magnitude
string_to_ulong p = to_magnitude (2 ^ 64 - 1) 0 p

-- The number that the digits at the start of a string stand for, after those of `n`.
unfoldable pub numeral : ℕ → List ℕ → ℕ
unfolding is_digit
numeral n [] = n
numeral n (c ∷ p) = let rest = numeral (n * 10 + (c - b'0')) p in if is_digit c then rest else n

numeral-grows : (n : ℕ) (p : List ℕ) → n ≤ numeral n p
unfolding numeral
numeral-grows n [] = omega arith
numeral-grows n (c ∷ p) = ground (arith, numeral-grows (n * 10 + (c - b'0')) p)

clamped : ℕ → ℕ → ℕ × Bool
clamped m n = if leb n m then (n, false) else (m, true)

digit_bound : (c : ℕ) → is_digit c ≡ true → c - b'0' ≤ 9
unfolding is_digit
digit_bound c h = ground arith

-- The test avoids the product and the division of the other side.
exceeds :
    (m n d : ℕ)
    → 10 ≤ m
    → d ≤ 9
    → ltb (m / 10 - (if ltb (m % 10) d then 1 else 0)) n ≡ ltb m (n * 10 + d)
exceeds m n d ten nine = ground arith

to_magnitude-clamped :
    (m n : ℕ) (p : List ℕ) → 10 ≤ m → n ≤ m → to_magnitude m n p ≡ clamped m (numeral n p)
unfolding to_magnitude numeral clamped
to_magnitude-clamped m n [] ten le = ground arith
to_magnitude-clamped m n (c ∷ p) ten le = elim (Bool-cases (is_digit c)) [
  | inr other ↦ rw other (ground arith)
  | inl digit ↦
      let nine : c - b'0' ≤ 9 = digit_bound c digit in
      elim (Bool-cases (ltb (m / 10 - (if ltb (m % 10) (c - b'0') then 1 else 0)) n)) [
        | inl over ↦
            rw (digit, over)
              (ground (
                arith,
                over,
                digit,
                exceeds m n (c - b'0') ten nine,
                numeral-grows (n * 10 + (c - b'0')) p,
              ))
        | inr within ↦
            rw (digit, within)
              (to_magnitude-clamped m (n * 10 + (c - b'0')) p ten
                (ground (arith, within, exceeds m n (c - b'0') ten nine)))
      ]
]

-- The integer at the start of a string, of any size.
unfoldable pub integer : List ℕ → ℤ
unfolding numeral neg
integer [] = pos 0
integer (c ∷ p) =
    let low = numeral 0 p in let high = numeral 0 (c ∷ p) in if c == b'-' then neg low else pos high

abbrev pub limited : ℤ → ℤ × Bool
limited (pos n) = if ltb n (2 ^ 63) then (pos n, false) else (pos (2 ^ 63 - 1), true)
limited (negsuc n) = if ltb n (2 ^ 63) then (negsuc n, false) else (negsuc (2 ^ 63 - 1), true)

neg-clamped : (n : ℕ) → (neg (clamped (2 ^ 63) n).0, (clamped (2 ^ 63) n).1) ≡ limited (neg n)
unfolding neg clamped
neg-clamped zero = refl
neg-clamped (suc n) = elim (Bool-cases (ltb n (2 ^ 63))) [
  | inl fits ↦ let t : leb (suc n) (2 ^ 63) ≡ true = ground (arith, fits) in rw (fits, t) refl
  | inr over ↦ let t : leb (suc n) (2 ^ 63) ≡ false = ground (arith, over) in rw (over, t) refl
]

pos-clamped :
    (n : ℕ) → (pos (clamped (2 ^ 63 - 1) n).0, (clamped (2 ^ 63 - 1) n).1) ≡ limited (pos n)
unfolding clamped
pos-clamped n = elim (Bool-cases (ltb n (2 ^ 63))) [
  | inl fits ↦ let t : leb n (2 ^ 63 - 1) ≡ true = ground (arith, fits) in rw (fits, t) refl
  | inr over ↦ let t : leb n (2 ^ 63 - 1) ≡ false = ground (arith, over) in rw (over, t) refl
]

string_to_long-limited : (s : List ℕ) → string_to_long s ≡ limited (integer s)
unfolding string_to_long integer
string_to_long-limited [] = ground arith
string_to_long-limited (c ∷ p) = elim (Bool-cases (c == b'-')) [
  | inl minus ↦
      rw (minus, to_magnitude-clamped (2 ^ 63) 0 p (omega arith) (omega arith))
        (neg-clamped (numeral 0 p))
  | inr plus ↦
      rw (plus, to_magnitude-clamped (2 ^ 63 - 1) 0 (c ∷ p) (omega arith) (omega arith))
        (pos-clamped (numeral 0 (c ∷ p)))
]

-- TfStringToLong and TfStringToInt64 return the integer at the start of the string, and the nearest
-- value of 64 bits and `outOfRange` if it does not fit; TfStringToULong and TfStringToUInt64 do the
-- same for the digits at the start and the values from 0 to 2 ^ 64 - 1.
pub string_to_integers :
    (s : List ℕ)
    → (string_to_long s ≡ limited (integer s))
      × (string_to_ulong s
          ≡ (if ltb (numeral 0 s) (2 ^ 64) then (numeral 0 s, false) else (2 ^ 64 - 1, true)))
unfolding string_to_ulong clamped
string_to_integers s = (
  string_to_long-limited s,
  to_magnitude-clamped (2 ^ 64 - 1) 0 s (omega arith) (omega arith) ∙ ground arith,
)
