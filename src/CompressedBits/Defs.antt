-- ===== src/CompressedBits/Defs.antt =====
-- tf/compressedBits.h: the fields of TfCompressedBits, its constructors, and what they mean.
-- `_runningBit` is a `uint8_t` that holds 0 or 1, so it is a Boolean here and `1 - bit` is `not`;
-- the words of `_platforms` are `uint32_t`, so each conversion from `size_t` is taken modulo 2 ^ 32.
use pxr_tf.Base.{
  ℕ, zero, suc, ◌+◌, ◌-◌, ◌^◌, ◌<◌, ◌≡◌, Bool, true, false, not, ◌&&◌, List, [], ◌∷◌, ◌++◌, arith,
  ltb, leb, ◌==◌, if◌then◌else◌, u32, length, replicate,
}

pub record CompressedBits : Type 0 where
  pub platforms : List ℕ
  pub num : ℕ
  pub running_bit : Bool

-- The bits that a word array stands for: runs of equal bits, the first of the running bit.
abbrev pub expand : Bool → List ℕ → List Bool
expand b [] = []
expand b (p ∷ ps) = replicate p b ++ expand (not b) ps

abbrev pub decode : CompressedBits → List Bool
decode c = expand c.running_bit c.platforms

abbrev pub sum : List ℕ → ℕ
sum [] = 0
sum (p ∷ ps) = p + sum ps

abbrev pub AllPos : List ℕ → Type 0
AllPos [] = Unit {0}
AllPos (p ∷ ps) = (0 < p) × AllPos ps

-- A bit array of size zero is one platform of zero zeros; any other has no empty platform.
abbrev pub Shape : ℕ → Bool → List ℕ → Type 0
Shape zero b ps = (ps ≡ 0 ∷ []) × (b ≡ false)
Shape (suc n) b ps = AllPos ps

pub record IsValid (c : CompressedBits) : Type 0 where
  pub total : sum c.platforms ≡ c.num
  pub fits : c.num < 2 ^ 32
  pub shape : Shape c.num c.running_bit c.platforms

-- TfCompressedBits(num)
unfoldable pub cleared : ℕ → CompressedBits
cleared num = record { platforms = u32 num ∷ []; num = u32 num; running_bit = false }

-- TfCompressedBits(num, first, last)
trailing : ℕ → List ℕ
trailing zeros = if zeros == 0 then [] else u32 zeros ∷ []

range_platforms : ℕ → ℕ → ℕ → CompressedBits
unfolding trailing
range_platforms num first last =
    if first == 0
    then record {
      platforms = u32 (last - first + 1) ∷ trailing (num - (last - first + 1));
      num = u32 num;
      running_bit = true;
    }
    else record {
      platforms = u32 first ∷ u32 (last - first + 1) ∷ trailing (num - last - 1);
      num = u32 num;
      running_bit = false;
    }

unfoldable pub range : ℕ → ℕ → ℕ → CompressedBits
unfolding range_platforms cleared
range num first last =
    if num == 0
    then record { platforms = 0 ∷ []; num = 0; running_bit = false }
    else if ltb first num && ltb last num && leb first last
    then range_platforms num first last
    else cleared num

-- TfCompressedBits(rhs, ComplementTag)
unfoldable pub complemented : CompressedBits → CompressedBits
complemented c = record c { running_bit = if c.num == 0 then false else not c.running_bit }

-- Complement()
unfoldable pub complement : CompressedBits → CompressedBits
complement c = if c.num == 0 then c else record c { running_bit = not c.running_bit }

-- ClearAll()
unfoldable pub clear_all : CompressedBits → CompressedBits
clear_all c =
    if c.num == 0
    then c
    else if not c.running_bit && length c.platforms == 1
    then c
    else record c { platforms = c.num ∷ []; running_bit = false }

-- SetAll()
unfoldable pub set_all : CompressedBits → CompressedBits
set_all c =
    if c.num == 0
    then c
    else if c.running_bit && length c.platforms == 1
    then c
    else record c { platforms = c.num ∷ []; running_bit = true }

pub cleared-IsValid : (num : ℕ) → num < 2 ^ 32 → IsValid (cleared num)
unfolding cleared
cleared-IsValid num h = ground arith

pub range-IsValid : (num first last : ℕ) → num < 2 ^ 32 → IsValid (range num first last)
unfolding range
range-IsValid num first last h = ground arith

pub complement-IsValid : (c : CompressedBits) → IsValid c → IsValid (complement c)
unfolding complement
complement-IsValid c v = ground arith

pub clear_all-IsValid : (c : CompressedBits) → IsValid c → IsValid (clear_all c)
unfolding clear_all
clear_all-IsValid c v = ground arith

pub set_all-IsValid : (c : CompressedBits) → IsValid c → IsValid (set_all c)
unfolding set_all
set_all-IsValid c v = ground arith
