-- ===== src/CompressedBits/Operators/Assign.antt =====
-- tf/compressedBits.h: `&=`, `|=`, `^=` and `-=`, branch by branch and bit by bit.
use pxr_tf.Base.{
  ℕ, ◌<◌, ◌≡◌, refl, ap, ◌∙◌, sym, Bool, true, false, not, ◌&&◌, ◌||◌, arith, ltb, ◌==◌,
  if◌then◌else◌, length, Bool-cases, inl, inr,
}
use pxr_tf.CompressedBits.Defs.{
  CompressedBits, IsValid, decode, expand, clear_all, set_all, clear_all-IsValid, set_all-IsValid,
}
use pxr_tf.CompressedBits.Expand.{length-decode, length-expand}
use pxr_tf.CompressedBits.Positions.{bit_at, bit_at-zip, bit_at-flip, at, at-past, at-single}
use pxr_tf.CompressedBits.Logical.{logical}
use pxr_tf.CompressedBits.Logical.Correct.{Operand, decode-logical, logical-IsValid, num-logical}
use pxr_tf.CompressedBits.Queries.{are_all_unset}
use pxr_tf.CompressedBits.Queries.Search.{IsValid-pos}
use pxr_tf.CompressedBits.Queries.Platforms.{any_set-Decides, all_unset-not}
use pxr_tf.CompressedBits.Operators.{
  bit_and, bit_or, bit_xor, mismatched, are_bounds_disjoint, has_non_empty_intersection, contains,
  and_assign, or_assign, xor_assign, sub_assign, take_words,
}
use pxr_tf.CompressedBits.Operators.Means.{
  Means, logical-Means, disjoint_bits, at-clear_all, at-set_all,
}
use pxr_tf.CompressedBits.Operators.Overlap.{intersection-Decides, contains_iff}

-- Set difference, bit by bit.
abbrev pub bit_sub : Bool → Bool → Bool
bit_sub a b = a && not b

-- An early return.
Means-if :
    {op : Bool → Bool → Bool} {c rhs x y : CompressedBits} (t : Bool)
    → (t ≡ true → Means op c rhs x)
    → (t ≡ false → Means op c rhs y)
    → Means op c rhs (if t then x else y)
Means-if true yes' no' = yes' refl
Means-if false yes' no' = no' refl

module _ (c rhs : CompressedBits) (v : IsValid c) (w : IsValid rhs) (e : c.num ≡ rhs.num) where
  Means-self :
      (op : Bool → Bool → Bool) → ((i : ℕ) → op (at c i) (at rhs i) ≡ at c i) → Means op c rhs c
  Means-self op h = record { valid = v; size = refl; bits = λ i. sym (h i) }

  Means-clear :
      (op : Bool → Bool → Bool)
      → ((i : ℕ) → op (at c i) (at rhs i) ≡ false)
      → Means op c rhs (clear_all c)
  Means-clear op h = record {
    valid = clear_all-IsValid c v;
    size = unfold clear_all in ground arith;
    bits = λ i. at-clear_all c i v ∙ sym (h i);
  }

  Means-words :
      (op : Bool → Bool → Bool)
      → 0 < c.num
      → ((i : ℕ) → op (at c i) (at rhs i) ≡ at rhs i)
      → Means op c rhs (take_words c rhs.running_bit rhs.platforms)
  Means-words op p h = record {
    valid = ground (arith, w.total, w.shape);
    size = refl;
    bits = λ i. sym (h i);
  }

  -- `operator&=` is the intersection.
  pub and_assign-Means : Means bit_and c rhs (and_assign c rhs)
  unfolding and_assign
  and_assign-Means =
      Means-if (mismatched c rhs)
        (λ none_at. Means-self bit_and (λ i. ground (arith, at-past c i v)))
        λ sized.
          Means-if (length c.platforms == 1)
            (λ one.
              Means-if (not c.running_bit)
                (λ zeros. Means-self bit_and (λ i. ground (arith, at-single c i v)))
                (λ ones.
                  Means-words bit_and (ground arith)
                    (λ i. ground (arith, at-single c i v, at-past rhs i w))))
            λ many.
              Means-if (length rhs.platforms == 1)
                (λ one.
                  Means-if rhs.running_bit
                    (λ ones.
                      Means-self bit_and (λ i. ground (arith, at-single rhs i w, at-past c i v)))
                    (λ zeros. Means-clear bit_and (λ i. ground (arith, at-single rhs i w))))
                λ more.
                  Means-if (are_bounds_disjoint c rhs)
                    (λ apart. Means-clear bit_and (λ i. disjoint_bits c rhs i v w e apart))
                    (λ _. logical-Means bit_and c rhs refl v w (ground arith) e)

  Means-full :
      (op : Bool → Bool → Bool)
      → ((i : ℕ) → op (at c i) (at rhs i) ≡ ltb i c.num)
      → Means op c rhs (set_all c)
  Means-full op h = record {
    valid = set_all-IsValid c v;
    size = unfold set_all in ground arith;
    bits = λ i. at-set_all c i v ∙ sym (h i);
  }

  -- `operator|=` is the union.
  pub or_assign-Means : Means bit_or c rhs (or_assign c rhs)
  unfolding or_assign
  or_assign-Means =
      Means-if (mismatched c rhs)
        (λ none_at. Means-self bit_or (λ i. ground (arith, at-past c i v, at-past rhs i w)))
        λ sized.
          Means-if (length c.platforms == 1)
            (λ one.
              Means-if c.running_bit
                (λ ones. Means-self bit_or (λ i. ground (arith, at-single c i v, at-past rhs i w)))
                (λ zeros.
                  Means-words bit_or (ground arith)
                    (λ i. ground (arith, at-single c i v, at-past rhs i w))))
            λ many.
              Means-if (length rhs.platforms == 1)
                (λ one.
                  Means-if (not rhs.running_bit)
                    (λ zeros. Means-self bit_or (λ i. ground (arith, at-single rhs i w)))
                    (λ ones.
                      Means-full bit_or (λ i. ground (arith, at-single rhs i w, at-past c i v))))
                λ more.
                  Means-if (contains c rhs)
                    (λ holds.
                      Means-self bit_or (λ i. ground (arith, (contains_iff c rhs v w e).0 holds i)))
                    (λ _. logical-Means bit_or c rhs refl v w (ground arith) e)

  unset_everywhere :
      (a : CompressedBits) → IsValid a → are_all_unset a ≡ true → (i : ℕ) → at a i ≡ false
  unset_everywhere a u h = (any_set-Decides a u).1 (ground (arith, all_unset-not a))

  -- `operator^=` is the symmetric difference.
  pub xor_assign-Means : Means bit_xor c rhs (xor_assign c rhs)
  unfolding xor_assign
  xor_assign-Means =
      Means-if (mismatched c rhs)
        (λ none_at. Means-self bit_xor (λ i. ground (arith, at-past c i v, at-past rhs i w)))
        λ sized.
          Means-if (are_all_unset c)
            (λ zeros. record {
              valid = w;
              size = sym e;
              bits = λ i. ground (arith, unset_everywhere c v zeros i);
            })
            λ _.
              Means-if (are_all_unset rhs)
                (λ zeros. Means-self bit_xor (λ i. ground (arith, unset_everywhere rhs w zeros i)))
                (λ _. logical-Means bit_xor c rhs refl v w (ground arith) e)

  Means-flipped :
      0 < c.num
      → ((i : ℕ) → i < c.num → at c i ≡ true)
      → Means bit_sub c rhs (take_words c (not rhs.running_bit) rhs.platforms)
  Means-flipped p h = record {
    valid = ground (arith, w.total, w.shape);
    size = refl;
    bits = λ i.
        ground (arith, w.total, bit_at-flip rhs.running_bit rhs.platforms i, h i, at-past c i v);
  }

  -- `_Logical<_And>` with the words of `rhs` read from the flipped running bit.
  logical_sub-Means :
      0 < c.num → Means bit_sub c rhs (logical bit_and c (not rhs.running_bit) rhs.platforms)
  logical_sub-Means p = record {
    valid = logical-IsValid bit_and c (not rhs.running_bit) rhs.platforms v other;
    size = num-logical bit_and c (not rhs.running_bit) rhs.platforms v other;
    bits = λ i.
        ap (λ xs. bit_at xs i)
          (decode-logical bit_and c (not rhs.running_bit) rhs.platforms v other)
        ∙ bit_at-zip bit_and (decode c) (expand (not rhs.running_bit) rhs.platforms) i refl (
            omega (
              arith,
              length-decode c v,
              length-expand (not rhs.running_bit) rhs.platforms,
              w.total,
            ))
        ∙ ground (arith, w.total, bit_at-flip rhs.running_bit rhs.platforms i, at-past c i v);
  }
    where
      other : Operand c.num rhs.platforms
      other = ground (arith, w.total, w.fits, IsValid-pos rhs w)

  -- `operator-=` is the difference.
  pub sub_assign-Means : Means bit_sub c rhs (sub_assign c rhs)
  unfolding sub_assign
  sub_assign-Means =
      Means-if (mismatched c rhs)
        (λ none_at. Means-self bit_sub (λ i. ground (arith, at-past c i v)))
        λ sized.
          Means-if (length c.platforms == 1)
            (λ one.
              Means-if (not c.running_bit)
                (λ zeros. Means-self bit_sub (λ i. ground (arith, at-single c i v)))
                (λ ones. Means-flipped (ground arith) (λ i h. ground (arith, at-single c i v))))
            λ many.
              Means-if (length rhs.platforms == 1)
                (λ one.
                  Means-if (not rhs.running_bit)
                    (λ zeros. Means-self bit_sub (λ i. ground (arith, at-single rhs i w)))
                    (λ ones.
                      Means-clear bit_sub (λ i. ground (arith, at-single rhs i w, at-past c i v))))
                λ more.
                  Means-if (are_bounds_disjoint c rhs || not (has_non_empty_intersection c rhs))
                    (λ apart. Means-self bit_sub (λ i. apart_bits apart i))
                    (λ _. logical_sub-Means (ground arith))
    where
      apart_bits :
          (are_bounds_disjoint c rhs || not (has_non_empty_intersection c rhs)) ≡ true
          → (i : ℕ) → bit_sub (at c i) (at rhs i) ≡ at c i
      apart_bits h i = elim (Bool-cases (are_bounds_disjoint c rhs)) [
        | inl t ↦ ground (arith, disjoint_bits c rhs i v w e t)
        | inr f ↦ ground (arith, (intersection-Decides c rhs v w e).1 (ground arith) i)
      ]
