-- ===== src/CompressedBits/Operators/Overlap.antt =====
-- tf/compressedBits.h: `HasNonEmptyIntersection`, `HasNonEmptyDifference` and `Contains`.
use mathlib.Core.List.{zip_with}
use pxr_tf.Base.{
  ℕ, zero, suc, ◌<◌, ◌≡◌, refl, ◌∙◌, sym, Bool, true, false, not, ◌&&◌, ◌||◌, List, [], ◌∷◌, arith,
  ltb, ◌==◌, if◌then◌else◌, length, Bool-cases, inl, inr, ◌↔◌,
}
use pxr_tf.CompressedBits.Defs.{CompressedBits, IsValid, decode, expand}
use pxr_tf.CompressedBits.Expand.{length-expand, length-decode}
use pxr_tf.CompressedBits.Positions.{
  bit_at, bit_at-zip, at, at-past, at-single, bit_at-flip, at-complement,
}
use pxr_tf.CompressedBits.Logical.Correct.{Operand}
use pxr_tf.CompressedBits.Queries.{get_first_set, get_last_set}
use pxr_tf.CompressedBits.Queries.Search.{IsValid-pos}
use pxr_tf.CompressedBits.Queries.Ends.{get_last_set-IsPrev, get_first_set-IsNext}
use pxr_tf.CompressedBits.Queries.Platforms.{
  Somewhere, Decides, at_zero, ends_set, any_set-Decides, any_unset-Decides,
}
use pxr_tf.CompressedBits.Operators.{
  bit_and, are_bounds_disjoint, bounds_differ, has_logical, has_non_empty_intersection,
  has_non_empty_difference, contains, or_false, mismatched,
}
use pxr_tf.CompressedBits.Operators.HasSteps.{any_true}
use pxr_tf.CompressedBits.Operators.HasScan.{has_logical-any_true}
use pxr_tf.CompressedBits.Operators.Means.{disjoint_bits}

any_true-Somewhere : (xs : List Bool) → any_true xs ≡ true → Somewhere (bit_at xs)
any_true-Somewhere [] h = absurd (ground arith)
any_true-Somewhere (true ∷ xs) h = (0, refl)
any_true-Somewhere (false ∷ xs) h = let (i, e) = any_true-Somewhere xs h in (suc i, e)

any_true-nowhere : (xs : List Bool) (i : ℕ) → any_true xs ≡ false → bit_at xs i ≡ false
any_true-nowhere [] i h = refl
any_true-nowhere (true ∷ xs) i h = ground arith
any_true-nowhere (false ∷ xs) zero h = refl
any_true-nowhere (false ∷ xs) (suc i) h = any_true-nowhere xs i h

any_true-Decides :
    (xs : List Bool) (f : ℕ → Bool) → ((i : ℕ) → bit_at xs i ≡ f i) → Decides (any_true xs) f
any_true-Decides xs f e = (
  λ h. let (i, b) = any_true-Somewhere xs h in (i, sym (e i) ∙ b),
  λ h i. sym (e i) ∙ any_true-nowhere xs i h,
)

-- `_HasLogical` for words of the complement or of the array itself.
has_logical-Decides :
    (op : Bool → Bool → Bool) (c : CompressedBits) (bit_b : Bool) (words_b : List ℕ)
    → op false false ≡ false
    → IsValid c
    → Operand c.num words_b
    → Decides
        (or_false (has_logical op c bit_b words_b))
        (λ i. op (at c i) (bit_at (expand bit_b words_b) i))
has_logical-Decides op c bit_b words_b z v w = rw (has_logical-any_true op c bit_b words_b v w) (
    any_true-Decides (zip_with op (decode c) (expand bit_b words_b)) _ λ i.
      bit_at-zip op (decode c) (expand bit_b words_b) i z
        (omega (arith, length-decode c v, length-expand bit_b words_b, w.total)))

Decides-yes : {f : ℕ → Bool} → Somewhere f → Decides true f
Decides-yes s = (λ _. s, λ h. cc)

Decides-no : {f : ℕ → Bool} → ((i : ℕ) → f i ≡ false) → Decides false f
Decides-no n = (λ h. cc, λ _. n)

Decides-same : {b : Bool} {f g : ℕ → Bool} → ((i : ℕ) → f i ≡ g i) → Decides b g → Decides b f
Decides-same e d = (λ h. let (i, y) = d.0 h in (i, e i ∙ y), λ h i. e i ∙ d.1 h i)

-- An early return.
Decides-if :
    {x y : Bool} {f : ℕ → Bool} (t : Bool)
    → (t ≡ true → Decides x f)
    → (t ≡ false → Decides y f)
    → Decides (if t then x else y) f
Decides-if true yes' no' = yes' refl
Decides-if false yes' no' = no' refl

module _ (c rhs : CompressedBits) (v : IsValid c) (w : IsValid rhs) (e : c.num ≡ rhs.num) where
  other : 0 < c.num → Operand c.num rhs.platforms
  other h = ground (arith, w.total, w.fits, IsValid-pos rhs w)

  -- `HasNonEmptyIntersection` decides whether some bit is set in both arrays.
  pub intersection-Decides : Decides (has_non_empty_intersection c rhs) (λ i. at c i && at rhs i)
  unfolding has_non_empty_intersection
  intersection-Decides =
      Decides-if (mismatched c rhs) (λ none_at. Decides-no (λ i. ground (arith, at-past c i v)))
        λ sized.
          Decides-if (c.running_bit && rhs.running_bit)
            (λ both. Decides-yes (0, ground (arith, at_zero c v, at_zero rhs w)))
            λ _.
              Decides-if (length c.platforms == 1)
                (λ one.
                  Decides-if (not c.running_bit)
                    (λ zeros. Decides-no (λ i. ground (arith, at-single c i v)))
                    (λ ones.
                      Decides-same (λ i. ground (arith, at-single c i v, at-past rhs i w))
                        (any_set-Decides rhs w)))
                λ many.
                  Decides-if (length rhs.platforms == 1)
                    (λ one.
                      Decides-if (not rhs.running_bit)
                        (λ zeros. Decides-no (λ i. ground (arith, at-single rhs i w)))
                        (λ ones.
                          Decides-same (λ i. ground (arith, at-single rhs i w, at-past c i v))
                            (any_set-Decides c v)))
                    λ more.
                      Decides-if (are_bounds_disjoint c rhs)
                        (λ apart. Decides-no (λ i. disjoint_bits c rhs i v w e apart))
                        (λ _.
                          has_logical-Decides bit_and c rhs.running_bit rhs.platforms refl v
                            (other (ground arith)))

  -- Where the ends of the set bits differ in the tested way, an end of `c` is not set in `rhs`.
  bounds_differ-Somewhere :
      0 < c.num
      → ¬ (length c.platforms ≡ 1)
      → bounds_differ c rhs ≡ true
      → Somewhere (λ i. at c i && not (at rhs i))
  unfolding bounds_differ
  bounds_differ-Somewhere h many t =
      let first = get_first_set-IsNext c v in
      let last = get_last_set-IsPrev c v in
      let first' = get_first_set-IsNext rhs w in
      let last' = get_last_set-IsPrev rhs w in
      let (in_first, in_last) = ends_set c v h many in
      elim (Bool-cases
        (ltb (get_first_set c) (get_first_set rhs) || ltb (get_last_set rhs) (get_first_set c))) [
          | inl left ↦ (
            get_first_set c,
            ground (
              arith,
              in_first,
              first.hit,
              first'.skipped (get_first_set c),
              last'.skipped (get_first_set c),
            ),
          )
          | inr right ↦ (
            get_last_set c,
            ground (
              arith,
              in_last,
              last.hit,
              first'.skipped (get_last_set c),
              last'.skipped (get_last_set c),
            ),
          )
        ]

  -- `HasNonEmptyDifference` decides whether some bit is set in the first array only.
  pub difference-Decides : Decides (has_non_empty_difference c rhs) (λ i. at c i && not (at rhs i))
  unfolding has_non_empty_difference
  difference-Decides =
      Decides-if (mismatched c rhs) (λ none_at. Decides-no (λ i. ground (arith, at-past c i v)))
        λ sized.
          Decides-if (c.running_bit && not rhs.running_bit)
            (λ both. Decides-yes (0, ground (arith, at_zero c v, at_zero rhs w)))
            λ _.
              Decides-if (length c.platforms == 1)
                (λ one.
                  Decides-if (not c.running_bit)
                    (λ zeros. Decides-no (λ i. ground (arith, at-single c i v)))
                    (λ ones.
                      Decides-same (λ i. ground (arith, at-single c i v, at-complement rhs i w))
                        (any_unset-Decides rhs w)))
                λ many.
                  Decides-if (length rhs.platforms == 1)
                    (λ one.
                      Decides-if (not rhs.running_bit)
                        (λ zeros.
                          Decides-same (λ i. ground (arith, at-single rhs i w, at-past c i v))
                            (any_set-Decides c v))
                        (λ ones.
                          Decides-no (λ i. ground (arith, at-single rhs i w, at-past c i v))))
                    λ more.
                      Decides-if (bounds_differ c rhs)
                        (λ apart.
                          Decides-yes (bounds_differ-Somewhere (ground arith) (ground arith) apart))
                        (λ _.
                          Decides-same
                            (λ i. ground (
                              arith,
                              at-past c i v,
                              w.total,
                              bit_at-flip rhs.running_bit rhs.platforms i,
                            ))
                            (has_logical-Decides bit_and c (not rhs.running_bit) rhs.platforms refl
                              v (other (ground arith))))

-- `Contains` between valid arrays of one size answers yes exactly if every bit that is set in the
-- second array is set in the first.
pub contains_iff :
    (c rhs : CompressedBits)
    → IsValid c
    → IsValid rhs
    → c.num ≡ rhs.num
    → (contains c rhs ≡ true) ↔ ((i : ℕ) → at rhs i ≡ true → at c i ≡ true)
unfolding contains
contains_iff c rhs v w e =
    let (yes', no') = difference-Decides rhs c w v (sym e) in
    (
      λ h i s. ground (arith, no' (ground arith) i),
      λ h. elim (Bool-cases (has_non_empty_difference rhs c)) [
        | inl t ↦ let (i, b) = yes' t in ground (arith, h i)
        | inr f ↦ ground arith
      ],
    )

-- `HasNonEmptyIntersection` and `HasNonEmptyDifference` between valid arrays of one size answer
-- yes exactly if some bit is set in both, or in the first and not in the second; a yes comes with
-- the position. `Contains` answers yes exactly if every bit that is set in the second array is set
-- in the first.
pub overlap_tests :
    (c rhs : CompressedBits)
    → IsValid c
    → IsValid rhs
    → c.num ≡ rhs.num
    → Decides (has_non_empty_intersection c rhs) (λ i. at c i && at rhs i)
      × Decides (has_non_empty_difference c rhs) (λ i. at c i && not (at rhs i))
      × ((contains c rhs ≡ true) ↔ ((i : ℕ) → at rhs i ≡ true → at c i ≡ true))
overlap_tests c rhs v w e =
    (intersection-Decides c rhs v w e, difference-Decides c rhs v w e, contains_iff c rhs v w e)
