-- ===== src/CompressedBits/Operators/Refines.antt =====
-- tf/compressedBits.h: the operators and the writes against lists of Booleans.
use mathlib.Core.List.{zip_with}
use pxr_tf.Base.{
  ℕ, ◌≡◌, refl, ◌∙◌, sym, Bool, true, false, ◌&&◌, arith, leb, ◌==◌, ltb, if◌then◌else◌, Bool-cases,
  inl, inr,
}
use pxr_tf.CompressedBits.Defs.{
  CompressedBits, IsValid, decode, complement, complement-IsValid, range, range-IsValid,
}
use pxr_tf.CompressedBits.Expand.{length-decode}
use pxr_tf.CompressedBits.Logical.Correct.{length-zip_with}
use pxr_tf.CompressedBits.Positions.{bits-ext, bit_at-zip, at, at-past, at-complement}
use pxr_tf.CompressedBits.Operators.{
  bit_and, bit_or, bit_xor, and_assign, or_assign, xor_assign, sub_assign, set_bit, clear_bit,
  assign, set_range,
}
use pxr_tf.CompressedBits.Operators.Means.{Means}
use pxr_tf.CompressedBits.Operators.Range.{at-range, at-misfit}
use pxr_tf.CompressedBits.Operators.Assign.{
  bit_sub, and_assign-Means, or_assign-Means, xor_assign-Means, sub_assign-Means,
}

-- A valid array `r` that stands for the bits of `op`.
abbrev pub Refines :
    (Bool → Bool → Bool) → CompressedBits → CompressedBits → CompressedBits → Type 0
Refines op c rhs r = IsValid r × (decode r ≡ zip_with op (decode c) (decode rhs))

Means-Refines :
    (op : Bool → Bool → Bool) (c rhs r : CompressedBits)
    → op false false ≡ false
    → IsValid c
    → IsValid rhs
    → c.num ≡ rhs.num
    → Means op c rhs r
    → Refines op c rhs r
Means-Refines op c rhs r z v w e m = (
  m.valid,
  bits-ext (decode r) (zip_with op (decode c) (decode rhs))
      (omega (
        arith,
        length-decode r m.valid,
        m.size,
        length-zip_with op c.num (decode c) (decode rhs) (length-decode c v)
            (length-decode rhs w ∙ sym e),
      ))
      (λ i.
        m.bits i
        ∙ sym (
            bit_at-zip op (decode c) (decode rhs) i z
              (omega (arith, length-decode c v, length-decode rhs w)))),
)

module _ (c rhs : CompressedBits) (v : IsValid c) (w : IsValid rhs) (e : c.num ≡ rhs.num) where
  -- The four assignments between valid arrays of one size, early returns included, give a valid
  -- array whose bits are the conjunctions, disjunctions, exclusive disjunctions, and conjunctions
  -- with the negation, of the bits of the two arrays, in order.
  pub assignments_refine :
      Refines bit_and c rhs (and_assign c rhs)
      × Refines bit_or c rhs (or_assign c rhs)
      × Refines bit_xor c rhs (xor_assign c rhs)
      × Refines bit_sub c rhs (sub_assign c rhs)
  assignments_refine = (
    Means-Refines bit_and c rhs _ refl v w e (and_assign-Means c rhs v w e),
    Means-Refines bit_or c rhs _ refl v w e (or_assign-Means c rhs v w e),
    Means-Refines bit_xor c rhs _ refl v w e (xor_assign-Means c rhs v w e),
    Means-Refines bit_sub c rhs _ refl v w e (sub_assign-Means c rhs v w e),
  )

-- What a write returns: a valid array of the same size with the bits `f`.
pub record Writes (f : ℕ → Bool) (c r : CompressedBits) : Type 0 where
  pub valid : IsValid r
  pub size : r.num ≡ c.num
  pub bits : (i : ℕ) → at r i ≡ f i

num-complement : (c : CompressedBits) → (complement c).num ≡ c.num
unfolding complement
num-complement c = ground arith

Writes-if :
    {f : ℕ → Bool} {c x y : CompressedBits} (t : Bool)
    → (t ≡ true → Writes f c x)
    → (t ≡ false → Writes f c y)
    → Writes f c (if t then x else y)
Writes-if true yes' no' = yes' refl
Writes-if false yes' no' = no' refl

module _ (c : CompressedBits) (v : IsValid c) where
  num-range : (first last : ℕ) → (range c.num first last).num ≡ c.num
  unfolding range
  num-range first last = ground (arith, v.fits)

  set_bit-Writes :
      (index : ℕ)
      → Writes (λ i. if ltb index c.num && i == index then true else at c i) c (set_bit c index)
  unfolding set_bit
  set_bit-Writes index =
      Writes-if (ltb index c.num)
        (λ lt.
          let m =
            or_assign-Means c (range c.num index index) v (range-IsValid c.num index index v.fits)
              (sym (num-range index index)) in
          record {
            valid = m.valid;
            size = m.size;
            bits = λ i. m.bits i ∙ ground (arith, at-range c.num index index i v.fits);
          })
        (λ ge. record { valid = v; size = refl; bits = λ i. ground arith })

  clear_bit-Writes :
      (index : ℕ)
      → Writes (λ i. if ltb index c.num && i == index then false else at c i) c (clear_bit c index)
  unfolding clear_bit
  clear_bit-Writes index =
      Writes-if (ltb index c.num)
        (λ lt.
          let single = range-IsValid c.num index index v.fits in
          let m =
            and_assign-Means c (complement (range c.num index index)) v
              (complement-IsValid _ single)
              (sym (num-complement (range c.num index index) ∙ num-range index index)) in
          record {
            valid = m.valid;
            size = m.size;
            bits = λ i.
                m.bits i
                ∙ ground (
                  arith,
                  at-range c.num index index i v.fits,
                  at-complement (range c.num index index) i single,
                  num-range index index,
                  at-past c i v,
                );
          })
        (λ ge. record { valid = v; size = refl; bits = λ i. ground arith })

  -- `Assign`, so `Set` and `Clear`, gives a valid array of the same size from a valid one: it
  -- writes the bit at an index inside the array and leaves each other bit alone; past the end it
  -- changes nothing.
  assign-Writes :
      (index : ℕ) (value : Bool)
      → Writes
          (λ i. if ltb index c.num && i == index then value else at c i)
          c
          (assign c index value)
  unfolding assign
  assign-Writes index true = set_bit-Writes index
  assign-Writes index false = clear_bit-Writes index

  -- `SetRange` gives a valid array of the same size from a valid one: the bits from `first` to
  -- `last` are set and the others as they were; a range that does not fit changes nothing.
  set_range-Writes :
      (first last : ℕ)
      → Writes
          (λ i.
            if leb first last && ltb last c.num && leb first i && leb i last then true else at c i)
          c
          (set_range c first last)
  unfolding set_range
  set_range-Writes first last =
      let w = range-IsValid c.num first last v.fits in
      let m = or_assign-Means c (range c.num first last) v w (sym (num-range first last)) in
      record { valid = m.valid; size = m.size; bits = λ i. m.bits i ∙ range_or first last i }
    where
      range_or :
          (first last i : ℕ)
          → bit_or (at c i) (at (range c.num first last) i) ≡ (
              if leb first last && ltb last c.num && leb first i && leb i last
              then true
              else at c i)
      range_or first last i = elim (Bool-cases (leb first last && ltb last c.num)) [
        | inl fits ↦ ground (arith, at-range c.num first last i v.fits)
        | inr misfit ↦ ground (arith, at-misfit c.num first last i v.fits)
      ]

  -- `Assign`, so `Set` and `Clear`, and `SetRange` give a valid array of the same size from a valid
  -- one: `Assign` writes the bit at an index inside the array and leaves each other bit alone, and
  -- past the end it changes nothing; `SetRange` sets the bits from `first` to `last` and leaves the
  -- others alone, and a range that does not fit changes nothing.
  pub bit-Writes :
      (index : ℕ) (value : Bool) (first last : ℕ)
      → Writes
          (λ i. if ltb index c.num && i == index then value else at c i)
          c
          (assign c index value)
        × Writes
            (λ i.
              if leb first last && ltb last c.num && leb first i && leb i last
              then true
              else at c i)
            c
            (set_range c first last)
  bit-Writes index value first last = (assign-Writes index value, set_range-Writes first last)
