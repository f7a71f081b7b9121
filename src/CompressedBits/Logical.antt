-- ===== src/CompressedBits/Logical.antt =====
-- tf/compressedBits.h: `_Logical` and the assignments `&=`, `|=`, `^=` and `-=` are built on this
-- scan of two word arrays in step.
pub mod Passes
pub mod Scan
pub mod Correct
use Prim.Native.Nat.{compare, Ordering}
use pxr_tf.Base.{
  ℕ, zero, suc, ◌+◌, Bool, true, false, not, ◌||◌, List, [], ◌∷◌, ◌++◌, Option, none, some, ltb,
  leb, ◌==◌, if◌then◌else◌, bit_eq, u32, sub32, length, get_or,
}
use pxr_tf.CompressedBits.Defs.{CompressedBits}

-- The local variables of `_Logical`.
pub record State : Type 0 where
  pub bit_a : Bool
  pub bit_b : Bool
  pub b : Bool
  pub index_a : ℕ
  pub index_b : ℕ
  pub platform_a : ℕ
  pub platform_b : ℕ
  pub new_total : ℕ
  pub new_platform : ℕ
  pub result : List ℕ

module _ (op : Bool → Bool → Bool) (num : ℕ) (words_a words_b : List ℕ) where
  -- Commit the new platform where the bit changes (`force` is the test of the total).
  pub commit : Bool → State → State
  commit force s =
      if not (bit_eq (op s.bit_a s.bit_b) s.b) || force
      then record s {
        result = s.result ++ s.new_platform ∷ [];
        new_platform = 0;
        b = op s.bit_a s.bit_b;
      }
      else s

  -- Move on to the next platform, whose index is `i`.
  next_platform : List ℕ → ℕ → ℕ → ℕ → ℕ
  next_platform words i new_total platform =
      if i == length words
      then sub32 num new_total
      else if ltb i (length words)
      then get_or words i 0
      else platform

  -- platformA < platformB
  pass_a : State → State
  pass_a s = record s {
    new_total = u32 (s.new_total + s.platform_a);
    new_platform = u32 (s.new_platform + s.platform_a);
    bit_a = not s.bit_a;
  }

  pub step_a : State → State
  unfolding pass_a commit next_platform
  step_a s =
      let c = commit false (pass_a s) in
      record c {
        index_a = suc c.index_a;
        platform_b = sub32 c.platform_b c.platform_a;
        platform_a = next_platform words_a (suc c.index_a) c.new_total c.platform_a;
      }

  -- platformA > platformB
  pass_b : State → State
  pass_b s = record s {
    new_total = u32 (s.new_total + s.platform_b);
    new_platform = u32 (s.new_platform + s.platform_b);
    bit_b = not s.bit_b;
  }

  pub step_b : State → State
  unfolding pass_b commit next_platform
  step_b s =
      let c = commit false (pass_b s) in
      record c {
        index_b = suc c.index_b;
        platform_a = sub32 c.platform_a c.platform_b;
        platform_b = next_platform words_b (suc c.index_b) c.new_total c.platform_b;
      }

  -- platformA == platformB, up to the test whether all bits are done
  pass_both : State → State
  pass_both s = record s {
    new_total = u32 (s.new_total + s.platform_a);
    new_platform = u32 (s.new_platform + s.platform_a);
    bit_a = not s.bit_a;
    bit_b = not s.bit_b;
  }

  step_both : State → State
  unfolding pass_both commit
  step_both s = let c = pass_both s in commit (leb num c.new_total) c

  advance_both : State → State
  unfolding next_platform
  advance_both c = record c {
    index_a = suc c.index_a;
    platform_a = next_platform words_a (suc c.index_a) c.new_total c.platform_a;
    index_b = suc c.index_b;
    platform_b = next_platform words_b (suc c.index_b) c.new_total c.platform_b;
  }

  -- `while (true)`, with fuel; `none` means that the fuel ran out.
  pub scan : ℕ → State → Option (List ℕ)
  scan zero s = none
  scan (suc fuel) s = elim (compare s.platform_a s.platform_b) [
    | Ordering.lt ↦ scan fuel (step_a s)
    | Ordering.gt ↦ scan fuel (step_b s)
    | Ordering.eq ↦ elim (leb num (step_both s).new_total) [
      | true ↦ some (step_both s).result
      | false ↦ scan fuel (advance_both (step_both s))
    ]
  ]

  -- The variables before the loop.
  pub start : Bool → Bool → State
  start bit_a bit_b = record {
    bit_a = bit_a;
    bit_b = bit_b;
    b = op bit_a bit_b;
    index_a = 0;
    index_b = 0;
    platform_a = get_or words_a 0 0;
    platform_b = get_or words_b 0 0;
    new_total = 0;
    new_platform = 0;
    result = [];
  }

-- `_Logical`: the fuel is the number of words of both arrays.
pub logical : (Bool → Bool → Bool) → CompressedBits → Bool → List ℕ → CompressedBits
unfolding start scan
logical op c bit_b words_b =
    elim (scan op c.num c.platforms words_b (length c.platforms + length words_b)
      (start op c.num c.platforms words_b c.running_bit bit_b)) [
        | none ↦ c
        | some words ↦ record c { platforms = words; running_bit = op c.running_bit bit_b }
      ]
