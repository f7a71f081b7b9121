-- ===== src/CompressedBits/Operators/Means.antt =====
-- tf/compressedBits.h: what the early returns of the operators rest on, bit by bit.
use pxr_tf.Base.{ℕ, ◌<◌, ◌≡◌, ap, ◌∙◌, Bool, true, false, ◌&&◌, [], arith, ltb}
use pxr_tf.CompressedBits.Defs.{CompressedBits, IsValid, decode, clear_all, set_all}
use pxr_tf.CompressedBits.Expand.{length-decode}
use pxr_tf.CompressedBits.Positions.{bit_at, bit_at-run, bit_at-zip, at, at-past, at-single}
use pxr_tf.CompressedBits.Logical.{logical}
use pxr_tf.CompressedBits.Logical.Correct.{Operand, decode-logical, logical-IsValid, num-logical}
use pxr_tf.CompressedBits.Queries.Search.{IsValid-pos}
use pxr_tf.CompressedBits.Queries.Ends.{get_last_set-IsPrev, get_first_set-IsNext}
use pxr_tf.CompressedBits.Operators.{are_bounds_disjoint}

pub at-clear_all : (c : CompressedBits) (i : ℕ) → IsValid c → at (clear_all c) i ≡ false
unfolding clear_all
at-clear_all c i v = ground (arith, at-past c i v, at-single c i v, bit_at-run c.num false [] i)

pub at-set_all : (c : CompressedBits) (i : ℕ) → IsValid c → at (set_all c) i ≡ ltb i c.num
unfolding set_all
at-set_all c i v = ground (arith, at-past c i v, at-single c i v, bit_at-run c.num true [] i)

-- What an assignment with the bit operation `op` has to return.
pub record Means (op : Bool → Bool → Bool) (c rhs r : CompressedBits) : Type 0 where
  pub valid : IsValid r
  pub size : r.num ≡ c.num
  pub bits : (i : ℕ) → at r i ≡ op (at c i) (at rhs i)

-- `_Logical`, for an operation that yields an unset bit from two unset bits.
pub logical-Means :
    (op : Bool → Bool → Bool) (c rhs : CompressedBits)
    → op false false ≡ false
    → IsValid c
    → IsValid rhs
    → 0 < c.num
    → c.num ≡ rhs.num
    → Means op c rhs (logical op c rhs.running_bit rhs.platforms)
logical-Means op c rhs z v w h e = record {
  valid = logical-IsValid op c rhs.running_bit rhs.platforms v other;
  size = num-logical op c rhs.running_bit rhs.platforms v other;
  bits = λ i.
      ap (λ xs. bit_at xs i) (decode-logical op c rhs.running_bit rhs.platforms v other)
      ∙ bit_at-zip op (decode c) (decode rhs) i z
          (omega (arith, length-decode c v, length-decode rhs w));
}
  where
    other : Operand c.num rhs.platforms
    other = ground (arith, w.total, w.fits, IsValid-pos rhs w)

-- Where the bounds of two arrays are disjoint no bit is set in both.
pub disjoint_bits :
    (c rhs : CompressedBits) (i : ℕ)
    → IsValid c
    → IsValid rhs
    → c.num ≡ rhs.num
    → are_bounds_disjoint c rhs ≡ true
    → (at c i && at rhs i) ≡ false
unfolding are_bounds_disjoint
disjoint_bits c rhs i v w e h =
    let first = get_first_set-IsNext c v in
    let last = get_last_set-IsPrev c v in
    let first' = get_first_set-IsNext rhs w in
    let last' = get_last_set-IsPrev rhs w in
    ground (
      arith,
      at-past c i v,
      at-past rhs i w,
      first.skipped i,
      first.bounded,
      last.skipped i,
      first'.skipped i,
      first'.bounded,
      last'.skipped i,
    )
