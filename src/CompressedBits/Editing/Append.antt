-- ===== src/CompressedBits/Editing/Append.antt =====
-- tf/compressedBits.h: `Append`.
use pxr_tf.Base.{
  ℕ, ◌+◌, ◌^◌, ◌<◌, ◌≡◌, Bool, false, [], ◌∷◌, ◌++◌, arith, ltb, if◌then◌else◌, bit_eq, u32,
  ℕ_discrete,
}
use pxr_tf.CompressedBits.Defs.{CompressedBits, IsValid}
use pxr_tf.CompressedBits.Positions.{bit_at-run, at, at-past}
use pxr_tf.CompressedBits.Queries.Ends.{last_bit, last_bit-parity}
use pxr_tf.CompressedBits.Editing.{add_back, append}
use pxr_tf.CompressedBits.Editing.Resize.{Yields, grown}

append-some :
    (c : CompressedBits) (n : ℕ) (value : Bool)
    → 0 < c.num
    → 0 < n
    → c.num + n < 2 ^ 32
    → append c n value ≡ record c {
      platforms =
          if bit_eq value (last_bit c.running_bit c.platforms)
          then add_back n c.platforms
          else c.platforms ++ u32 n ∷ [];
      num = c.num + n;
    }
unfolding append
append-some c n value pos more fits =
    let size : u32 (c.num + n) ≡ c.num + n = omega arith in
    ground (arith, last_bit-parity c.running_bit c.platforms)

append-first :
    (c : CompressedBits) (n : ℕ) (value : Bool)
    → IsValid c
    → c.num ≡ 0
    → 0 < n
    → n < 2 ^ 32
    → append c n value ≡ record { platforms = n ∷ []; num = n; running_bit = value }
unfolding append
append-first c n value v none_yet more fits = ground (arith, v.shape)

append-none : (c : CompressedBits) (value : Bool) → append c 0 value ≡ c
unfolding append
append-none c value = ground arith

abbrev pub extended : CompressedBits → ℕ → Bool → ℕ → Bool
extended c n value i = if ltb i c.num then at c i else if ltb i (c.num + n) then value else false

-- `Append` to a valid array, where the new size is below 2 ^ 32, gives a valid array with `n` more
-- bits, all of them `value`, behind the old ones.
pub append-Yields :
    (c : CompressedBits) (n : ℕ) (value : Bool)
    → IsValid c
    → c.num + n < 2 ^ 32
    → Yields (c.num + n) (extended c n value) (append c n value)
append-Yields c n value v fits = elim (ℕ_discrete n 0) [
  | yes nothing ↦
      rw (nothing, append-none c value)
        (record { valid = v; sized = omega arith; bits = λ i. ground (arith, at-past c i v) })
  | no more ↦ elim (ℕ_discrete c.num 0) [
    | yes first ↦ rw (append-first c n value v first (omega arith) (omega arith)) (record {
      valid = ground arith;
      sized = omega arith;
      bits = λ i. ground (arith, bit_at-run n value [] i);
    })
    | no later ↦
        rw (append-some c n value (omega arith) (omega arith) fits)
          (grown c v n value (omega arith) (omega arith) fits)
  ]
]
