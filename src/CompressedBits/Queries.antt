-- ===== src/CompressedBits/Queries.antt =====
-- tf/compressedBits.h: the questions about one bit array, `IsSet`, `FindNthSet`, `FindNextSet`,
-- `FindPrevSet`, `FindNextUnset`, `Count`, `GetFirstSet`, `GetLastSet`, `GetNumSet` and the tests on
-- platforms. `size_t` is 64 bits wide.

pub mod Search
pub mod Ends
pub mod Platforms
pub mod Counts
pub mod Answers
use pxr_tf.Base.{
  ℕ, suc, ◌+◌, ◌-◌, ◌*◌, ◌/◌, ◌%◌, Bool, true, false, not, ◌&&◌, ◌||◌, List, [], ◌∷◌, ltb, leb,
  ◌==◌, if◌then◌else◌, u32, u64, max, length, get_or, drop,
}
use pxr_tf.CompressedBits.Defs.{CompressedBits}

-- A `uint8_t` bit as a number.
abbrev pub bit_num : Bool → ℕ
bit_num true = 1
bit_num false = 0

-- What `_LinearSearch` returns: the bit, and its two out parameters.
pub record Found : Type 0 where
  pub bit : Bool
  pub platform_index : ℕ
  pub bit_count : ℕ

pub search_words : ℕ → Bool → ℕ → ℕ → List ℕ → Found
search_words index bit count i [] = record { bit = bit; platform_index = i; bit_count = count }
search_words index bit count i (p ∷ ps) =
    if ltb index (u64 (count + p))
    then record { bit = bit; platform_index = i; bit_count = u64 (count + p) }
    else search_words index (not bit) (u64 (count + p)) (suc i) ps

-- `_LinearSearch`
pub linear_search : CompressedBits → ℕ → Found
linear_search c index = search_words index c.running_bit 0 0 c.platforms

-- `IsSet`
pub is_set : CompressedBits → ℕ → Bool
is_set c index = if ltb index c.num then (linear_search c index).bit else false

-- `FindNextSet`
pub find_next_set : CompressedBits → ℕ → ℕ
find_next_set c index =
    if leb c.num index
    then c.num
    else let f = linear_search c index in if f.bit then index else f.bit_count

-- `FindPrevSet`
pub find_prev_set : CompressedBits → ℕ → ℕ
find_prev_set c index =
    if leb c.num index
    then c.num
    else let f = linear_search c index in
      if f.bit
      then index
      else let first = f.bit_count - get_or c.platforms f.platform_index 0 in
        if ltb 0 first then first - 1 else c.num

-- `FindNextUnset`
pub find_next_unset : CompressedBits → ℕ → ℕ
find_next_unset c index =
    if leb c.num index
    then c.num
    else let f = linear_search c index in if not f.bit then index else f.bit_count

-- `FindNthSet`
pub nth_in_words : ℕ → ℕ → ℕ → ℕ → Bool → List ℕ → ℕ
nth_in_words num nth index count bit [] = num
nth_in_words num nth index count bit (p ∷ ps) =
    if ltb nth (u64 (u64 (count + p) * bit_num bit))
    then u64 (index + (nth - count))
    else nth_in_words num nth (u64 (index + p)) (u64 (count + p * bit_num bit)) (not bit) ps

pub find_nth_set : CompressedBits → ℕ → ℕ
find_nth_set c nth = nth_in_words c.num nth 0 0 c.running_bit c.platforms

-- `Count`: the set bits, and the largest gap between set bits
pub record Tally : Type 0 where
  pub num_set : ℕ
  pub max_gap : ℕ

pub count_words : ℕ → ℕ → Bool → ℕ → ℕ → List ℕ → Tally
count_words last_index i bit num gap [] = record { num_set = num; max_gap = gap }
count_words last_index i bit num gap (p ∷ ps) =
    count_words last_index (suc i) (not bit) (if bit then u32 (num + p) else num)
      (if bit then gap else if ltb 0 i && ltb i last_index then max gap p else gap) ps

pub count : CompressedBits → Tally
count c = count_words (length c.platforms - 1) 0 c.running_bit 0 0 c.platforms

-- `GetNumSet`: every other word from the first platform of ones
pub every_other : ℕ → List ℕ → ℕ
every_other num_set [] = num_set
every_other num_set (p ∷ []) = u64 (num_set + p)
every_other num_set (p ∷ q ∷ ps) = every_other (u64 (num_set + p)) ps

pub get_num_set : CompressedBits → ℕ
get_num_set c = every_other 0 (drop (1 - bit_num c.running_bit) c.platforms)

-- `GetFirstSet`
pub get_first_set : CompressedBits → ℕ
get_first_set c = if c.num == 0 || c.running_bit then 0 else get_or c.platforms 0 0

-- The last word.
pub back : List ℕ → ℕ
back [] = 0
back (p ∷ []) = p
back (p ∷ q ∷ ps) = back (q ∷ ps)

-- `GetLastSet`
pub get_last_set : CompressedBits → ℕ
get_last_set c =
    if c.num == 0 || (not c.running_bit && length c.platforms == 1)
    then c.num
    else if bit_num c.running_bit == length c.platforms % 2
    then c.num - 1
    else c.num - 1 - back c.platforms

-- `GetNumPlatforms`, `GetNumSetPlatforms`, `GetNumUnsetPlatforms`
pub get_num_platforms : CompressedBits → ℕ
get_num_platforms c = if c.num == 0 then 0 else length c.platforms

pub get_num_set_platforms : CompressedBits → ℕ
get_num_set_platforms c =
    if c.num == 0
    then 0
    else length c.platforms / 2 + (if c.running_bit then length c.platforms % 2 else 0)

pub get_num_unset_platforms : CompressedBits → ℕ
get_num_unset_platforms c =
    if c.num == 0
    then 0
    else length c.platforms / 2 + (if c.running_bit then 0 else length c.platforms % 2)

-- `AreAllSet`, `IsAnySet`, `AreAllUnset`, `IsAnyUnset`, `AreContiguouslySet`
pub are_all_set : CompressedBits → Bool
are_all_set c = c.num == 0 || (c.running_bit && length c.platforms == 1)

pub is_any_set : CompressedBits → Bool
is_any_set c = ltb 0 c.num && (c.running_bit || ltb 1 (length c.platforms))

pub are_all_unset : CompressedBits → Bool
unfolding is_any_set
are_all_unset c = not (is_any_set c)

pub is_any_unset : CompressedBits → Bool
is_any_unset c = ltb 0 c.num && (not c.running_bit || ltb 1 (length c.platforms))

pub are_contiguously_set : CompressedBits → Bool
are_contiguously_set c =
    ltb 0 c.num
    && leb (length c.platforms) 3
    && (length c.platforms == 2
        || (c.running_bit && length c.platforms == 1)
        || (not c.running_bit && length c.platforms == 3))
