-- ===== src/CompressedBits/Operators.antt =====
-- tf/compressedBits.h: `&=`, `|=`, `^=`, `-=` with their early returns, `HasNonEmptyIntersection`,
-- `HasNonEmptyDifference`, `Contains`, and the writes of one bit and of a range.
-- Where a size differs TF_VERIFY posts a coding error, which is not modelled, and the call returns.
pub mod HasSteps
pub mod HasScan
pub mod Means
pub mod Overlap
pub mod Assign
pub mod Range
pub mod Refines
use Prim.Native.Nat.{compare, Ordering}
use pxr_tf.Base.{
  ℕ, zero, suc, ◌+◌, Bool, true, false, not, ◌&&◌, ◌||◌, List, Option, none, some, ltb, leb, ◌==◌,
  if◌then◌else◌, u32, length, get_or, get_elem?,
}
use pxr_tf.CompressedBits.Defs.{CompressedBits, complement, clear_all, set_all, range}
use pxr_tf.CompressedBits.Logical.{logical}
use pxr_tf.CompressedBits.Queries.{
  get_first_set, get_last_set, is_any_set, is_any_unset, are_all_unset,
}

-- The functors `_And`, `_Or`, `_Xor` on bits.
abbrev pub bit_and : Bool → Bool → Bool
bit_and a b = a && b

abbrev pub bit_or : Bool → Bool → Bool
bit_or a b = a || b

abbrev pub bit_xor : Bool → Bool → Bool
bit_xor true b = not b
bit_xor false b = b

-- `!TF_VERIFY(_num == rhs._num) || _num == 0 || rhs._num == 0`
abbrev pub mismatched : CompressedBits → CompressedBits → Bool
mismatched c rhs = not (c.num == rhs.num) || c.num == 0 || rhs.num == 0

-- `_AreBoundsDisjoint`
pub are_bounds_disjoint : CompressedBits → CompressedBits → Bool
are_bounds_disjoint c rhs =
    ltb (get_last_set c) (get_first_set rhs) || ltb (get_last_set rhs) (get_first_set c)

-- `_HasLogical`, with fuel. `none` is a read past the end of a word array, or the end of the fuel.
module _ (op : Bool → Bool → Bool) (words_a words_b : List ℕ) where
  pub has_scan : ℕ → Bool → Bool → ℕ → ℕ → ℕ → ℕ → Option Bool
  has_scan zero bit_a bit_b i j sum_a sum_b = none
  has_scan (suc fuel) bit_a bit_b i j sum_a sum_b =
      elim (ltb i (length words_a) && ltb j (length words_b)) [
        | false ↦ some false
        | true ↦ elim (op bit_a bit_b) [
          | true ↦ some true
          | false ↦ elim (compare sum_a sum_b) [
            | Ordering.lt ↦ elim (get_elem? words_a (suc i)) [
              | none ↦ none
              | some p ↦ has_scan fuel (not bit_a) bit_b (suc i) j (u32 (sum_a + p)) sum_b
            ]
            | Ordering.gt ↦ elim (get_elem? words_b (suc j)) [
              | none ↦ none
              | some q ↦ has_scan fuel bit_a (not bit_b) i (suc j) sum_a (u32 (sum_b + q))
            ]
            | Ordering.eq ↦ elim (leb (length words_a) (suc i) || leb (length words_b) (suc j)) [
              | true ↦ some false
              | false ↦ elim (get_elem? words_a (suc i)) [
                | none ↦ none
                | some p ↦ elim (get_elem? words_b (suc j)) [
                  | none ↦ none
                  | some q ↦
                      has_scan fuel (not bit_a) (not bit_b) (suc i) (suc j) (u32 (sum_a + p))
                        (u32 (sum_b + q))
                ]
              ]
            ]
          ]
        ]
      ]

pub has_logical : (Bool → Bool → Bool) → CompressedBits → Bool → List ℕ → Option Bool
has_logical op c bit_b words_b =
    has_scan op c.platforms words_b (suc (length c.platforms + length words_b)) c.running_bit bit_b
      0 0 (get_or c.platforms 0 0) (get_or words_b 0 0)

abbrev pub or_false : Option Bool → Bool
or_false none = false
or_false (some b) = b

-- `HasNonEmptyIntersection`
pub has_non_empty_intersection : CompressedBits → CompressedBits → Bool
has_non_empty_intersection c rhs =
    if mismatched c rhs
    then false
    else if c.running_bit && rhs.running_bit
    then true
    else if length c.platforms == 1
    then (if not c.running_bit then false else is_any_set rhs)
    else if length rhs.platforms == 1
    then (if not rhs.running_bit then false else is_any_set c)
    else if are_bounds_disjoint c rhs
    then false
    else or_false (has_logical bit_and c rhs.running_bit rhs.platforms)

-- `HasNonEmptyDifference`
pub bounds_differ : CompressedBits → CompressedBits → Bool
bounds_differ c rhs =
    ltb (get_first_set c) (get_first_set rhs)
    || (ltb (get_last_set rhs) (get_last_set c)
        || ltb (get_last_set rhs) (get_first_set c)
        || ltb (get_last_set c) (get_first_set rhs))

pub has_non_empty_difference : CompressedBits → CompressedBits → Bool
has_non_empty_difference c rhs =
    if mismatched c rhs
    then false
    else if c.running_bit && not rhs.running_bit
    then true
    else if length c.platforms == 1
    then (if not c.running_bit then false else is_any_unset rhs)
    else if length rhs.platforms == 1
    then (if not rhs.running_bit then is_any_set c else false)
    else if bounds_differ c rhs
    then true
    else or_false (has_logical bit_and c (not rhs.running_bit) rhs.platforms)

-- `Contains`
pub contains : CompressedBits → CompressedBits → Bool
contains c rhs = not (has_non_empty_difference rhs c)

-- `_runningBit = bit; _platforms = words`
abbrev pub take_words : CompressedBits → Bool → List ℕ → CompressedBits
take_words c bit words = record c { platforms = words; running_bit = bit }

-- `operator&=`
pub and_assign : CompressedBits → CompressedBits → CompressedBits
and_assign c rhs =
    if mismatched c rhs
    then c
    else if length c.platforms == 1
    then (if not c.running_bit then c else take_words c rhs.running_bit rhs.platforms)
    else if length rhs.platforms == 1
    then (if rhs.running_bit then c else clear_all c)
    else if are_bounds_disjoint c rhs
    then clear_all c
    else logical bit_and c rhs.running_bit rhs.platforms

-- `operator|=`
pub or_assign : CompressedBits → CompressedBits → CompressedBits
or_assign c rhs =
    if mismatched c rhs
    then c
    else if length c.platforms == 1
    then (if c.running_bit then c else take_words c rhs.running_bit rhs.platforms)
    else if length rhs.platforms == 1
    then (if not rhs.running_bit then c else set_all c)
    else if contains c rhs
    then c
    else logical bit_or c rhs.running_bit rhs.platforms

-- `operator^=`
pub xor_assign : CompressedBits → CompressedBits → CompressedBits
xor_assign c rhs =
    if mismatched c rhs
    then c
    else if are_all_unset c
    then rhs
    else if are_all_unset rhs
    then c
    else logical bit_xor c rhs.running_bit rhs.platforms

-- `operator-=`
pub sub_assign : CompressedBits → CompressedBits → CompressedBits
sub_assign c rhs =
    if mismatched c rhs
    then c
    else if length c.platforms == 1
    then (if not c.running_bit then c else take_words c (not rhs.running_bit) rhs.platforms)
    else if length rhs.platforms == 1
    then (if not rhs.running_bit then c else clear_all c)
    else if are_bounds_disjoint c rhs || not (has_non_empty_intersection c rhs)
    then c
    else logical bit_and c (not rhs.running_bit) rhs.platforms

-- `Set`, `Clear`, `Assign`, `SetRange`
pub set_bit : CompressedBits → ℕ → CompressedBits
set_bit c index = if ltb index c.num then or_assign c (range c.num index index) else c

pub clear_bit : CompressedBits → ℕ → CompressedBits
clear_bit c index =
    if ltb index c.num then and_assign c (complement (range c.num index index)) else c

pub assign : CompressedBits → ℕ → Bool → CompressedBits
unfolding set_bit clear_bit
assign c index value = if value then set_bit c index else clear_bit c index

pub set_range : CompressedBits → ℕ → ℕ → CompressedBits
set_range c first last = or_assign c (range c.num first last)
