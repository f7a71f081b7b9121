-- ===== src/CompressedBits/Editing/Resize.antt =====
-- tf/compressedBits.h: `ResizeKeepContents`, and growing by a run of bits.
use pxr_tf.Base.{
  ℕ, ◌+◌, ◌-◌, ◌^◌, ◌<◌, ◌≡◌, refl, ◌∙◌, Bool, true, false, not, [], ◌∷◌, ◌++◌, arith, ltb,
  if◌then◌else◌, bit_eq, u32, dec_lt, ℕ_discrete, Bool-cases, inl, inr,
}
use pxr_tf.CompressedBits.Defs.{CompressedBits, IsValid, sum, AllPos}
use pxr_tf.CompressedBits.Logical.Correct.{Shape-pos}
use pxr_tf.CompressedBits.Positions.{bit_at-run, at, at-past}
use pxr_tf.CompressedBits.Queries.Search.{IsValid-pos}
use pxr_tf.CompressedBits.Queries.Ends.{last_bit, last_bit-parity}
use pxr_tf.CompressedBits.Editing.{add_back, trim_back, ends_in_zeros, resize_keep_contents}
use pxr_tf.CompressedBits.Editing.Back.{
  bit_at-snoc, bit_at-add_back, add_back-shape, trim_back-Trims, sum-append, AllPos-append,
}

-- A valid array of `size` bits `f`.
pub record Yields (size : ℕ) (f : ℕ → Bool) (r : CompressedBits) : Type 0 where
  pub valid : IsValid r
  pub sized : r.num ≡ size
  pub bits : (i : ℕ) → at r i ≡ f i

pub Yields-if :
    {size : ℕ} {f : ℕ → Bool} {x y : CompressedBits} (t : Bool)
    → (t ≡ true → Yields size f x)
    → (t ≡ false → Yields size f y)
    → Yields size f (if t then x else y)
Yields-if true yes' no' = yes' refl
Yields-if false yes' no' = no' refl

module _ (c : CompressedBits) (v : IsValid c) where
  -- Growing by `n` zeros or ones: either way the last `n` bits are `value`.
  pub grown :
      (n : ℕ) (value : Bool)
      → 0 < c.num
      → 0 < n
      → c.num + n < 2 ^ 32
      → Yields
          (c.num + n)
          (λ i. if ltb i c.num then at c i else if ltb i (c.num + n) then value else false)
          (record c {
            platforms =
                if bit_eq value (last_bit c.running_bit c.platforms)
                then add_back n c.platforms
                else c.platforms ++ u32 n ∷ [];
            num = c.num + n;
          })
  grown n value pos more fits =
      elim (Bool-cases (bit_eq value (last_bit c.running_bit c.platforms))) [
        | inl same ↦ rw same (record {
          valid = record {
            total = omega (arith, shape.0, v.total);
            fits = fits;
            shape = Shape-pos (c.num + n) c.running_bit _ (omega arith) shape.1;
          };
          sized = refl;
          bits = λ i. ground (arith, v.total, bit_at-add_back c.running_bit c.platforms n i);
        })
        | inr differs ↦ rw differs (record {
          valid = record {
            total = omega (arith, sum-append c.platforms (u32 n ∷ []), v.total);
            fits = fits;
            shape =
                Shape-pos (c.num + n) c.running_bit _ (omega arith)
                  (AllPos-append c.platforms (u32 n ∷ []) (IsValid-pos c v pos) (omega arith, tt));
          };
          sized = refl;
          bits = λ i. ground (arith, v.total, bit_at-snoc c.running_bit c.platforms (u32 n) i);
        })
      ]
    where
      shape : (sum (add_back n c.platforms) ≡ sum c.platforms + n) × AllPos (add_back n c.platforms)
      shape =
          add_back-shape c.platforms n (omega (arith, v.total)) (omega (arith, v.total))
            (IsValid-pos c v pos)

pub ends_in_zeros-eq :
    (c : CompressedBits) → ends_in_zeros c ≡ not (last_bit c.running_bit c.platforms)
ends_in_zeros-eq c = ground (arith, last_bit-parity c.running_bit c.platforms)

resize-grow :
    (c : CompressedBits) (num : ℕ)
    → 0 < c.num
    → c.num < num
    → num < 2 ^ 32
    → resize_keep_contents c num ≡ record c {
      platforms =
          if bit_eq false (last_bit c.running_bit c.platforms)
          then add_back (num - c.num) c.platforms
          else c.platforms ++ u32 (num - c.num) ∷ [];
      num = c.num + (num - c.num);
    }
unfolding resize_keep_contents
resize-grow c num pos lt h = ground (arith, ends_in_zeros-eq c)

resize-shrink :
    (c : CompressedBits) (num : ℕ)
    → IsValid c
    → 0 < num
    → num < c.num
    → resize_keep_contents c num
      ≡ record c { platforms = trim_back (c.num - num) c.platforms; num = num }
unfolding resize_keep_contents
resize-shrink c num v pos lt =
    let wide : u32 (c.num - num) ≡ c.num - num = ground (arith, v.fits) in
    let size : u32 num ≡ num = ground (arith, v.fits) in ground arith

resize-fill :
    (c : CompressedBits) (num : ℕ)
    → IsValid c
    → c.num ≡ 0
    → 0 < num
    → num < 2 ^ 32
    → resize_keep_contents c num ≡ record { platforms = num ∷ []; num = num; running_bit = false }
unfolding resize_keep_contents add_back
resize-fill c num v none_yet pos h = ground (arith, v.shape)

resize-same : (c : CompressedBits) → resize_keep_contents c c.num ≡ c
unfolding resize_keep_contents
resize-same c = ground arith

resize-empty :
    (c : CompressedBits)
    → 0 < c.num
    → resize_keep_contents c 0 ≡ record { platforms = 0 ∷ []; num = 0; running_bit = false }
unfolding resize_keep_contents
resize-empty c pos = ground arith

abbrev pub kept : CompressedBits → ℕ → ℕ → Bool
kept c num i = if ltb i num then at c i else false

module _ (c : CompressedBits) (v : IsValid c) where
  shrunk : (num : ℕ) → 0 < num → num < c.num → Yields num (kept c num) (resize_keep_contents c num)
  shrunk num pos lt =
      let t =
        trim_back-Trims c.running_bit (c.num - num) c.platforms (IsValid-pos c v (omega arith))
          (omega (arith, v.total)) in
      rw (resize-shrink c num v pos lt) (record {
        valid = record {
          total = omega (arith, t.total, v.total);
          fits = omega (arith, v.fits);
          shape = Shape-pos num c.running_bit _ pos t.positive;
        };
        sized = refl;
        bits = λ i. ground (arith, t.total, v.total, t.kept i);
      })

  enlarged :
      (num : ℕ)
      → 0 < c.num
      → c.num < num
      → num < 2 ^ 32
      → Yields num (kept c num) (resize_keep_contents c num)
  enlarged num pos lt h =
      let g = grown c v (num - c.num) false pos (omega arith) (omega arith) in
      rw (resize-grow c num pos lt h) (record {
        valid = g.valid;
        sized = omega arith;
        bits = λ i. g.bits i ∙ ground (arith, at-past c i v);
      })

  -- `ResizeKeepContents` of a valid array to a size below 2 ^ 32 gives a valid array of the new
  -- size; the bits that fit are kept and the new ones are unset.
  pub resize-Yields :
      (num : ℕ) → num < 2 ^ 32 → Yields num (kept c num) (resize_keep_contents c num)
  resize-Yields num h = elim (ℕ_discrete num c.num) [
    | yes same ↦
        rw (same, resize-same c)
          (record { valid = v; sized = refl; bits = λ i. ground (arith, at-past c i v) })
    | no other ↦ elim (ℕ_discrete num 0) [
      | yes zero_size ↦
          rw (zero_size, resize-empty c (omega arith))
            (record { valid = ground arith; sized = refl; bits = λ i. ground arith })
      | no some_size ↦ elim (ℕ_discrete c.num 0) [
        | yes from_empty ↦ rw (resize-fill c num v from_empty (omega arith) h) (record {
          valid = ground arith;
          sized = refl;
          bits = λ i. ground (arith, at-past c i v, bit_at-run num false [] i);
        })
        | no from_some ↦ elim (dec_lt num c.num) [
          | yes down ↦ shrunk num (omega arith) down
          | no up ↦ enlarged num (omega arith) (omega arith) h
        ]
      ]
    ]
  ]
