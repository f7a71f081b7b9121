-- ===== src/CompressedBits/Positions.antt =====
-- tf/compressedBits.h: bits read by position; a position past the end reads as an unset bit.
use mathlib.Core.List.{zip_with}
use pxr_tf.Base.{
  ℕ, zero, suc, ◌+◌, ◌-◌, ◌≤◌, ◌<◌, ◌≡◌, refl, ap₂, Bool, false, not, List, [], ◌∷◌, ◌++◌, arith,
  ltb, if◌then◌else◌, length, get_or, replicate,
}
use pxr_tf.CompressedBits.Expand.{length-decode}
use pxr_tf.CompressedBits.Defs.{CompressedBits, IsValid, decode, expand, sum, complement}

abbrev pub bit_at : List Bool → ℕ → Bool
bit_at xs i = get_or xs i false

pub bit_at-run :
    (n : ℕ) (b : Bool) (xs : List Bool) (i : ℕ)
    → bit_at (replicate n b ++ xs) i ≡ (if ltb i n then b else bit_at xs (i - n))
bit_at-run zero b xs i = ground arith
bit_at-run (suc n) b xs zero = ground arith
bit_at-run (suc n) b xs (suc i) = ground (arith, bit_at-run n b xs i)

pub bit_at-past : (xs : List Bool) (i : ℕ) → length xs ≤ i → bit_at xs i ≡ false
bit_at-past [] i h = refl
bit_at-past (x ∷ xs) zero h = absurd (omega arith)
bit_at-past (x ∷ xs) (suc i) h = bit_at-past xs i (omega arith)

-- Two lists of bits are equal if they are as long and agree at each position.
pub bits-ext :
    (xs ys : List Bool) → length xs ≡ length ys → ((i : ℕ) → bit_at xs i ≡ bit_at ys i) → xs ≡ ys
bits-ext [] [] e h = refl
bits-ext [] (y ∷ ys) e h = absurd (omega arith)
bits-ext (x ∷ xs) [] e h = absurd (omega arith)
bits-ext (x ∷ xs) (y ∷ ys) e h = ap₂ ◌∷◌ (h 0) (bits-ext xs ys (omega arith) (λ i. h (suc i)))

pub bit_at-zip :
    (op : Bool → Bool → Bool) (xs ys : List Bool) (i : ℕ)
    → op false false ≡ false
    → length xs ≡ length ys
    → bit_at (zip_with op xs ys) i ≡ op (bit_at xs i) (bit_at ys i)
unfolding zip_with
bit_at-zip op [] [] i z e = ground arith
bit_at-zip op [] (y ∷ ys) i z e = absurd (omega arith)
bit_at-zip op (x ∷ xs) [] i z e = absurd (omega arith)
bit_at-zip op (x ∷ xs) (y ∷ ys) zero z e = refl
bit_at-zip op (x ∷ xs) (y ∷ ys) (suc i) z e = bit_at-zip op xs ys i z (omega arith)

-- The bits of a word array from position `count` on.
abbrev pub word_bit : Bool → List ℕ → ℕ → ℕ → Bool
word_bit b ps count j = bit_at (expand b ps) (j - count)

pub word_bit-first : (b : Bool) (p : ℕ) (ps : List ℕ) → 0 < p → bit_at (expand b (p ∷ ps)) 0 ≡ b
word_bit-first b zero ps h = absurd (omega arith)
word_bit-first b (suc p) ps h = refl

pub word_bit-cons :
    (b : Bool) (p : ℕ) (ps : List ℕ) (count j : ℕ)
    → count ≤ j
    → word_bit b (p ∷ ps) count j
      ≡ (if ltb j (count + p) then b else word_bit (not b) ps (count + p) j)
word_bit-cons b p ps count j h = ground (arith, bit_at-run p b (expand (not b) ps) (j - count))

-- The bit at a position of the array.
abbrev pub at : CompressedBits → ℕ → Bool
at c i = bit_at (decode c) i

pub at-past : (c : CompressedBits) (i : ℕ) → IsValid c → c.num ≤ i → at c i ≡ false
at-past c i v h = bit_at-past (decode c) i (omega (arith, length-decode c v))

-- An array of one platform.
bit_at-single :
    (b : Bool) (ps : List ℕ) (i : ℕ)
    → length ps ≡ 1
    → bit_at (expand b ps) i ≡ (if ltb i (sum ps) then b else false)
bit_at-single b [] i h = absurd (omega arith)
bit_at-single b (p ∷ []) i h = ground (arith, bit_at-run p b [] i)
bit_at-single b (p ∷ q ∷ ps) i h = absurd (omega arith)

pub at-single :
    (c : CompressedBits) (i : ℕ)
    → IsValid c
    → length c.platforms ≡ 1
    → at c i ≡ (if ltb i c.num then c.running_bit else false)
at-single c i v h = ground (arith, bit_at-single c.running_bit c.platforms i, v.total)

-- The bits of flipped words.
pub bit_at-flip :
    (b : Bool) (ps : List ℕ) (i : ℕ)
    → bit_at (expand (not b) ps) i
      ≡ (if ltb i (sum ps) then not (bit_at (expand b ps) i) else false)
bit_at-flip b [] i = ground arith
bit_at-flip b (p ∷ ps) i = ground (
  arith,
  bit_at-run p (not b) (expand (not (not b)) ps) i,
  bit_at-run p b (expand (not b) ps) i,
  bit_at-flip (not b) ps (i - p),
)

-- `Complement` flips every bit.
pub at-complement :
    (c : CompressedBits) (i : ℕ)
    → IsValid c
    → at (complement c) i ≡ (if ltb i c.num then not (at c i) else false)
unfolding complement
at-complement c i v =
    ground (arith, bit_at-flip c.running_bit c.platforms i, v.total, at-past c i v)
