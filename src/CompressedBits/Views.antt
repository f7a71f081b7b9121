-- ===== src/CompressedBits/Views.antt =====
-- tf/compressedBits.h: TfCompressedBits::View and its iterators, which step over all bits, over the
-- set or the unset ones, or over the platforms. The pointer to the bit array is the argument `c`;
-- the iterator that the default constructor makes has none and is left out.
pub mod Steps
pub mod Loop
pub mod Bits
pub mod Platforms
use pxr_tf.Base.{
  ℕ, zero, suc, ◌+◌, Bool, true, false, not, ◌&&◌, ◌||◌, List, [], ◌∷◌, Option, none, some, map,
  ltb, leb, ◌==◌, if◌then◌else◌, u32, length, get_or,
}
use pxr_tf.CompressedBits.Defs.{CompressedBits}

-- The modes of `View` that step over bits.
pub data Mode : Type 0 where
  all all_set all_unset : Mode

-- `mode == Mode::AllSet || mode == Mode::AllUnset`
abbrev pub skips : Mode → Bool
skips all = false
skips all_set = true
skips all_unset = true

pub record Iterator : Type 0 where
  pub platform_index : ℕ
  pub bit_index : ℕ
  pub bit_counter : ℕ
  pub value : Bool

-- The test in `begin` for a first platform that the mode does not look at.
abbrev pub skips_first : Mode → Bool → Bool
skips_first all bit = false
skips_first all_set bit = not bit
skips_first all_unset bit = bit

-- `begin`
pub begin_at : Mode → CompressedBits → Iterator
begin_at mode c =
    if skips_first mode c.running_bit
    then record {
      platform_index = 1;
      bit_index = get_or c.platforms 0 0;
      bit_counter = 0;
      value = not c.running_bit;
    }
    else record { platform_index = 0; bit_index = 0; bit_counter = 0; value = c.running_bit }

-- `end`, and `equal` between two iterators of one array
pub end_at : CompressedBits → Iterator
end_at c = record { platform_index = 0; bit_index = u32 c.num; bit_counter = 0; value = false }

pub equal : Iterator → Iterator → Bool
equal it rhs = it.bit_index == rhs.bit_index

-- `increment`
pub next_word : Mode → CompressedBits → Iterator → Iterator
next_word mode c it =
    if skips mode && ltb (suc it.platform_index) (length c.platforms)
    then record it {
      platform_index = suc (suc it.platform_index);
      bit_index = u32 (it.bit_index + get_or c.platforms (suc it.platform_index) 0);
      bit_counter = 0;
    }
    else record it { platform_index = suc it.platform_index; bit_counter = 0; value = not it.value }

pub increment : Mode → CompressedBits → Iterator → Iterator
unfolding next_word
increment mode c it =
    let moved = record it {
      bit_index = u32 (suc it.bit_index);
      bit_counter = u32 (suc it.bit_counter);
    } in
    if leb (get_or c.platforms it.platform_index 0) moved.bit_counter
    then next_word mode c moved
    else moved

-- `for (it = begin(); it != end(); ++it)`, with fuel: the indices and `IsSet`. `none` means that the
-- fuel ran out.
pub visit : Mode → CompressedBits → ℕ → Iterator → Option (List (ℕ × Bool))
unfolding equal increment end_at
visit mode c zero it = none
visit mode c (suc fuel) it =
    let rest = visit mode c fuel (increment mode c it) in
    if equal it (end_at c)
    then some []
    else elim rest [ none ↦ none | some vs ↦ some ((it.bit_index, it.value) ∷ vs) ]

pub view : Mode → CompressedBits → Option (List (ℕ × Bool))
unfolding visit begin_at
view mode c = visit mode c (suc c.num) (begin_at mode c)

-- The loop over the platforms view: where each platform starts, `GetPlatformSize` and `IsSet`. The
-- pointer `_platform` is the list of the words from it on.
pub visit_platforms : List ℕ → ℕ → Bool → List (ℕ × ℕ × Bool)
visit_platforms [] bit_index value = []
visit_platforms (p ∷ ps) bit_index value =
    (bit_index, p, value) ∷ visit_platforms ps (u32 (bit_index + p)) (not value)

pub platforms_view : CompressedBits → List (ℕ × ℕ × Bool)
unfolding visit_platforms
platforms_view c = visit_platforms c.platforms 0 c.running_bit
