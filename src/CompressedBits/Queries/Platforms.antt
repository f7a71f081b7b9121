-- ===== src/CompressedBits/Queries/Platforms.antt =====
-- tf/compressedBits.h: the number of platforms and the bits of a valid array.
use pxr_tf.Base.{
  ℕ, ◌<◌, ◌≡◌, refl, Bool, true, false, not, List, [], ◌∷◌, arith, length, Bool-cases, inl, inr,
  get_or,
}
use pxr_tf.CompressedBits.Defs.{
  CompressedBits, IsValid, expand, sum, AllPos, complement, complement-IsValid,
}
use pxr_tf.CompressedBits.Positions.{bit_at, at, at-past, at-single, word_bit-first}
use pxr_tf.CompressedBits.Queries.{
  get_first_set, get_last_set, is_any_set, is_any_unset, are_all_unset,
}
use pxr_tf.CompressedBits.Queries.Search.{IsValid-pos}
use pxr_tf.CompressedBits.Queries.Ends.{get_first_set-IsNext}

-- Some position has a set bit.
abbrev pub Somewhere : (ℕ → Bool) → Type 0
Somewhere f = (i : ℕ) × (f i ≡ true)

-- The answer `b` is right: yes with a witness, or no at every position.
abbrev pub Decides : Bool → (ℕ → Bool) → Type 0
Decides b f = (b ≡ true → Somewhere f) × (b ≡ false → (i : ℕ) → f i ≡ false)

bit_at-first : (b : Bool) (ps : List ℕ) → AllPos ps → 0 < sum ps → bit_at (expand b ps) 0 ≡ b
bit_at-first b [] pos h = absurd (omega arith)
bit_at-first b (p ∷ ps) pos h = word_bit-first b p ps pos.0

-- The first bit of a valid array that is not empty is the running bit.
pub at_zero : (c : CompressedBits) → IsValid c → 0 < c.num → at c 0 ≡ c.running_bit
at_zero c v h = bit_at-first c.running_bit c.platforms (IsValid-pos c v h) (omega (arith, v.total))

front_lt : (ps : List ℕ) → AllPos ps → 0 < sum ps → ¬ (length ps ≡ 1) → get_or ps 0 0 < sum ps
front_lt [] pos h m = absurd (omega arith)
front_lt (p ∷ []) pos h m = absurd (omega arith)
front_lt (p ∷ q ∷ ps) pos h m = omega arith

-- An array of more than one platform has a set bit, so its ends are set bits.
pub ends_set :
    (c : CompressedBits)
    → IsValid c
    → 0 < c.num
    → ¬ (length c.platforms ≡ 1)
    → (get_first_set c < c.num) × (get_last_set c < c.num)
unfolding get_first_set get_last_set
ends_set c v h m = ground (arith, front_lt c.platforms (IsValid-pos c v h), v.total)

set_here : (c : CompressedBits) → IsValid c → is_any_set c ≡ true → Somewhere (at c)
unfolding is_any_set
set_here c v h = elim (Bool-cases c.running_bit) [
  | inl ones ↦ (0, ground (arith, at_zero c v))
  | inr zeros ↦
      let first = get_first_set-IsNext c v in
      (get_first_set c, ground (arith, ends_set c v, first.hit))
]

length-pos : (ps : List ℕ) → 0 < sum ps → 0 < length ps
length-pos [] h = absurd (omega arith)
length-pos (p ∷ ps) h = omega arith

pub any_set-Decides : (c : CompressedBits) → IsValid c → Decides (is_any_set c) (at c)
unfolding is_any_set
any_set-Decides c v = (
  set_here c v,
  λ h i. ground (arith, at-past c i v, at-single c i v, length-pos c.platforms, v.total),
)

-- `IsAnyUnset` is `IsAnySet` of the complement.
any_unset-complement : (c : CompressedBits) → is_any_unset c ≡ is_any_set (complement c)
unfolding is_any_unset is_any_set complement
any_unset-complement c = ground arith

pub any_unset-Decides :
    (c : CompressedBits) → IsValid c → Decides (is_any_unset c) (at (complement c))
any_unset-Decides c v =
    rw any_unset-complement (any_set-Decides (complement c) (complement-IsValid c v))

pub all_unset-not : (c : CompressedBits) → are_all_unset c ≡ not (is_any_set c)
unfolding are_all_unset
all_unset-not c = refl
