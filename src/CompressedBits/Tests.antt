-- ===== src/CompressedBits/Tests.antt =====
-- tf/compressedBits.h: runs of the model on concrete arrays, and the theorems at concrete inputs.
use pxr_tf.Base.{
  some, ℕ, ◌≡◌, refl, ◌↔◌, true, false, [], ◌∷◌, ◌&&◌, arith, not, ltb, leb, ◌==◌, if◌then◌else◌,
  ◌^◌,
}
use pxr_tf.CompressedBits.Defs.{CompressedBits, IsValid, decode}
use pxr_tf.CompressedBits.Positions.{at, bit_at}
use pxr_tf.CompressedBits.Canonical.{equals, equals_iff}
use pxr_tf.CompressedBits.Queries.{
  is_set, find_next_set, find_prev_set, find_next_unset, find_nth_set, count, get_num_set,
  get_first_set, get_last_set,
}
use pxr_tf.CompressedBits.Queries.Search.{IsNext, IsPrev, find_prev_set-IsPrev}
use pxr_tf.CompressedBits.Queries.Answers.{searches, totals}
use pxr_tf.CompressedBits.Queries.Counts.{IsNth, Tests, num_true}
use pxr_tf.CompressedBits.Queries.Platforms.{Decides}
use pxr_tf.CompressedBits.Operators.{
  bit_and, and_assign, or_assign, xor_assign, sub_assign, assign, set_range, contains,
  has_non_empty_intersection, has_non_empty_difference,
}
use pxr_tf.CompressedBits.Operators.Overlap.{overlap_tests}
use pxr_tf.CompressedBits.Operators.Assign.{bit_sub}
use pxr_tf.CompressedBits.Operators.Refines.{Refines, Writes, assignments_refine, bit-Writes}
use pxr_tf.CompressedBits.Operators.{bit_or, bit_xor}
use pxr_tf.CompressedBits.Editing.{resize_keep_contents, append, shift_right, shift_left}
use pxr_tf.CompressedBits.Editing.Edits.{edits-Yields}
use pxr_tf.CompressedBits.Editing.Resize.{Yields, kept}
use pxr_tf.CompressedBits.Editing.Append.{extended}
use pxr_tf.CompressedBits.Editing.ShiftRight.{right_shifted}
use pxr_tf.CompressedBits.Editing.ShiftLeft.{left_shifted, shift_left_wraps}
use pxr_tf.CompressedBits.Text.{as_rle_string, as_string_left_to_right, from_string}
use pxr_tf.CompressedBits.Text.RoundTrip.{string_round_trip}
use pxr_tf.CompressedBits.Views.{all, all_set, view, platforms_view}
use pxr_tf.CompressedBits.Views.Steps.{picked}
use pxr_tf.CompressedBits.Views.Platforms.{spread, views}

-- 111000101000, the array of the source's own comment
abbrev first_bits : CompressedBits
first_bits = record { platforms = 3 ∷ 3 ∷ 1 ∷ 1 ∷ 1 ∷ 3 ∷ []; num = 12; running_bit = true }

-- 001111000011
abbrev second_bits : CompressedBits
second_bits = record { platforms = 2 ∷ 4 ∷ 4 ∷ 2 ∷ []; num = 12; running_bit = false }

first_IsValid : IsValid first_bits
first_IsValid = omega arith

second_IsValid : IsValid second_bits
second_IsValid = omega arith

assignments_refine_example :
    Refines bit_and first_bits second_bits (and_assign first_bits second_bits)
    × Refines bit_or first_bits second_bits (or_assign first_bits second_bits)
    × Refines bit_xor first_bits second_bits (xor_assign first_bits second_bits)
    × Refines bit_sub first_bits second_bits (sub_assign first_bits second_bits)
assignments_refine_example =
    assignments_refine first_bits second_bits first_IsValid second_IsValid refl

equals_iff_example :
    (equals first_bits second_bits ≡ true) ↔ (decode first_bits ≡ decode second_bits)
equals_iff_example = equals_iff first_bits second_bits first_IsValid second_IsValid

overlap_tests_example :
    Decides
      (has_non_empty_intersection first_bits second_bits)
      (λ i. at first_bits i && at second_bits i)
    × Decides
        (has_non_empty_difference first_bits second_bits)
        (λ i. at first_bits i && not (at second_bits i))
    × ((contains first_bits second_bits ≡ true)
        ↔ ((i : ℕ) → at second_bits i ≡ true → at first_bits i ≡ true))
overlap_tests_example = overlap_tests first_bits second_bits first_IsValid second_IsValid refl

shift_left_wraps_example : ¬ IsValid (shift_left first_bits (2 ^ 32))
shift_left_wraps_example =
    shift_left_wraps first_bits (2 ^ 32) first_IsValid (omega arith) (omega arith) refl

find_prev_set-IsPrev_example : IsPrev first_bits 5 (find_prev_set first_bits 5)
find_prev_set-IsPrev_example = find_prev_set-IsPrev first_bits 5 first_IsValid (omega arith)

string_round_trip_example :
    (from_string (as_rle_string first_bits) ≡ first_bits)
    × (from_string (as_string_left_to_right first_bits) ≡ first_bits)
string_round_trip_example = string_round_trip first_bits first_IsValid (omega arith)

searches_example :
    (is_set first_bits 3 ≡ bit_at (decode first_bits) 3)
    × IsNext true first_bits 3 (find_next_set first_bits 3)
    × IsNext false first_bits 3 (find_next_unset first_bits 3)
    × IsNth (decode first_bits) 12 3 (find_nth_set first_bits 3)
searches_example = searches first_bits 3 first_IsValid

totals_example :
    IsNext true first_bits 0 (get_first_set first_bits)
    × IsPrev first_bits 11 (get_last_set first_bits)
    × (get_num_set first_bits ≡ num_true (decode first_bits))
    × ((count first_bits).num_set ≡ num_true (decode first_bits))
    × Tests first_bits
totals_example = totals first_bits first_IsValid

bit-Writes_example :
    Writes
      (λ i. if ltb 4 12 && i == 4 then true else at first_bits i)
      first_bits
      (assign first_bits 4 true)
    × Writes
        (λ i. if leb 2 7 && ltb 7 12 && leb 2 i && leb i 7 then true else at first_bits i)
        first_bits
        (set_range first_bits 2 7)
bit-Writes_example = bit-Writes first_bits first_IsValid 4 true 2 7

edits-Yields_example :
    Yields 5 (kept first_bits 5) (resize_keep_contents first_bits 5)
    × Yields 14 (extended first_bits 2 true) (append first_bits 2 true)
    × Yields 12 (right_shifted first_bits 4) (shift_right first_bits 4)
    × Yields 12 (left_shifted first_bits 4) (shift_left first_bits 4)
edits-Yields_example =
    edits-Yields first_bits 5 2 true 4 4 first_IsValid (omega arith) (omega arith) (omega arith)
      (omega arith)

views_example :
    (view all_set first_bits ≡ some (picked all_set 0 (decode first_bits)))
    × (view all first_bits ≡ some (spread (platforms_view first_bits)))
views_example = views all_set first_bits first_IsValid
