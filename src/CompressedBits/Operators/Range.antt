-- ===== src/CompressedBits/Operators/Range.antt =====
-- tf/compressedBits.h: the bits of the arrays that `Set`, `Clear` and `SetRange` combine with.
use pxr_tf.Base.{
  ℕ, ◌+◌, ◌-◌, ◌^◌, ◌≤◌, ◌<◌, ◌≡◌, true, false, ◌&&◌, List, [], ◌∷◌, arith, ltb, leb, ◌==◌,
  if◌then◌else◌, Bool-cases, inl, inr, u32,
}
use pxr_tf.CompressedBits.Defs.{expand, cleared, range}
use pxr_tf.CompressedBits.Positions.{bit_at, bit_at-run, at}

-- The zeros behind the range, if there are any.
abbrev tail : ℕ → List ℕ
tail z = if z == 0 then [] else u32 z ∷ []

tail_unset : (z i : ℕ) → bit_at (expand false (tail z)) i ≡ false
tail_unset z i = ground (arith, bit_at-run (u32 z) false [] i)

-- The constructor of a range sets the bits from `first` to `last`.
pub at-range :
    (num first last i : ℕ)
    → num < 2 ^ 32
    → first ≤ last
    → last < num
    → at (range num first last) i ≡ (leb first i && leb i last)
unfolding range
at-range num first last i h le lt = elim (Bool-cases (first == 0)) [
  | inl z ↦ ground (
    arith,
    bit_at-run (u32 (last - first + 1)) true (expand false (tail (num - (last - first + 1)))) i,
    tail_unset (num - (last - first + 1)) (i - u32 (last - first + 1)),
  )
  | inr nz ↦ ground (
    arith,
    bit_at-run (u32 first) false (expand true (u32 (last - first + 1) ∷ tail (num - last - 1))) i,
    bit_at-run (u32 (last - first + 1)) true (expand false (tail (num - last - 1))) (i - u32 first),
    tail_unset (num - last - 1) (i - u32 first - u32 (last - first + 1)),
  )
]

pub at-misfit :
    (num first last i : ℕ)
    → num < 2 ^ 32
    → (leb first last && ltb last num) ≡ false
    → at (range num first last) i ≡ false
unfolding range cleared
at-misfit num first last i h bad =
    ground (arith, bit_at-run (u32 num) false [] i, bit_at-run 0 false [] i)
