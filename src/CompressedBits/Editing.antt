-- ===== src/CompressedBits/Editing.antt =====
-- tf/compressedBits.h: `ResizeKeepContents`, `Append`, `ShiftRight` and `ShiftLeft`.
pub mod Back
pub mod Resize
pub mod Append
pub mod ShiftRight
pub mod ShiftLeft
pub mod Edits
use pxr_tf.Base.{
  ℕ, zero, suc, ◌+◌, ◌-◌, ◌%◌, Bool, true, false, not, ◌||◌, List, [], ◌∷◌, ◌++◌, reverse, ltb, leb,
  ◌==◌, if◌then◌else◌, min, u32, bit_eq, length,
}
use pxr_tf.CompressedBits.Defs.{CompressedBits}
use pxr_tf.CompressedBits.Queries.{bit_num}

-- `_platforms.Back() += n`
pub add_back : ℕ → List ℕ → List ℕ
add_back n [] = []
add_back n (p ∷ []) = u32 (p + n) ∷ []
add_back n (p ∷ q ∷ ps) = p ∷ add_back n (q ∷ ps)

-- `while (Back() <= diff) { diff -= Back(); PopBack(); } Back() -= diff`, from the back.
pub trim : ℕ → List ℕ → List ℕ
trim diff [] = []
trim diff (p ∷ ps) = if leb p diff then trim (diff - p) ps else (p - diff) ∷ ps

pub trim_back : ℕ → List ℕ → List ℕ
unfolding trim
trim_back diff ps = reverse (trim diff (reverse ps))

-- `(1 - _runningBit) == (_platforms.GetNum() & 1)`: the last platform is one of zeros.
abbrev pub ends_in_zeros : CompressedBits → Bool
ends_in_zeros c = bit_num (not c.running_bit) == length c.platforms % 2

-- `ResizeKeepContents`
pub resize_keep_contents : CompressedBits → ℕ → CompressedBits
resize_keep_contents c num =
    if c.num == num
    then c
    else if num == 0
    then record { platforms = 0 ∷ []; num = 0; running_bit = false }
    else record c {
      platforms =
          if ltb c.num num
          then (if ends_in_zeros c
              then add_back (num - c.num) c.platforms
              else c.platforms ++ u32 (num - c.num) ∷ [])
          else trim_back (u32 (c.num - num)) c.platforms;
      num = u32 num;
    }

-- `_platforms[0] = num`: the write is past the end of an array without words.
abbrev pub set_front : ℕ → List ℕ → List ℕ
set_front n [] = []
set_front n (p ∷ ps) = n ∷ ps

-- `Append`
pub append : CompressedBits → ℕ → Bool → CompressedBits
append c num value =
    if num == 0
    then c
    else if c.num == 0
    then record { platforms = set_front (u32 num) c.platforms; num = u32 num; running_bit = value }
    else record c {
      platforms =
          if bit_eq value (bit_num c.running_bit == length c.platforms % 2)
          then add_back num c.platforms
          else c.platforms ++ u32 num ∷ [];
      num = u32 (c.num + num);
    }

-- `ShiftRight`
pub shifted_words : CompressedBits → ℕ → List ℕ
shifted_words c bits = elim c.platforms [
  | [] ↦ []
  | p ∷ ps ↦ if c.running_bit then u32 bits ∷ p ∷ ps else u32 (p + bits) ∷ ps
]

pub shift_right : CompressedBits → ℕ → CompressedBits
unfolding shifted_words
shift_right c bits =
    if c.num == 0 || bits == 0
    then c
    else record c { platforms = trim_back bits (shifted_words c bits); running_bit = false }

-- `ShiftLeft`: the platforms that are trimmed on the left flip the running bit one by one.
pub record Trimmed : Type 0 where
  pub words : List ℕ
  pub flipped : Bool

pub trim_front : ℕ → Bool → List ℕ → Trimmed
trim_front bits bit [] = record { words = []; flipped = false }
trim_front bits bit (p ∷ ps) =
    if leb p bits
    then trim_front (bits - p) (not bit) ps
    else record { words = (p - bits) ∷ ps; flipped = bit }

pub shift_left : CompressedBits → ℕ → CompressedBits
shift_left c bits =
    if c.num == 0 || bits == 0
    then c
    else let t = trim_front bits c.running_bit c.platforms in
      let r : CompressedBits = record {
        platforms = t.words;
        num = c.num;
        running_bit = t.flipped;
      } in
      record r {
        platforms =
            if ends_in_zeros r then add_back bits t.words else t.words ++ min c.num (u32 bits) ∷ [];
      }
