-- ===== src/CompressedBits/Operators/HasScan.antt =====
-- tf/compressedBits.h: the loop of `_HasLogical`.
use mathlib.Core.List.{zip_with}
use native.Mathlib.Nat.{sub-zero}
use pxr_tf.Base.{
  ℕ, zero, suc, ◌+◌, ◌-◌, ◌^◌, ◌<◌, ◌≡◌, ap, ◌∙◌, Bool, false, not, List, [], ◌∷◌, ◌++◌, Option,
  some, arith, dec_lt, Bool-cases, inl, inr, length, get_elem?, get_or, replicate, sym, subst,
}
use pxr_tf.CompressedBits.Defs.{CompressedBits, IsValid, decode, expand}
use pxr_tf.CompressedBits.Logical.Correct.{Operand, IsValid-Operand}
use pxr_tf.CompressedBits.Operators.{has_scan, has_logical}
use pxr_tf.CompressedBits.Operators.HasSteps.{
  any_true, any_true-unset, drop-get_elem?, drop-end, Inside, stream, stream-lt, stream-gt,
  stream-hit, has-hit, has-lt, has-gt, has-eq, has-end,
}

module _ (op : Bool → Bool → Bool) (num : ℕ) (words_a words_b : List ℕ) (fits : num < 2 ^ 32) where
  -- The answer at a state, once `skipped` unset bits are passed.
  passes :
      (r : Option Bool) (n : ℕ) (v : Bool) (zs rest : List Bool)
      → zs ≡ replicate n v ++ rest
      → v ≡ false
      → r ≡ some (any_true rest)
      → r ≡ some (any_true zs)
  passes r n v zs rest e f h = h ∙ ap some (sym (ap any_true e ∙ any_true-unset n v rest f))

  grow : (e a : ℕ) (z : Bool) → replicate (e + a - e) z ≡ replicate a z
  grow e a z = ap (λ n. replicate n z) (omega arith)

  next_a :
      (at i j end_a end_b a : ℕ) (rest_a rest_b : List ℕ)
      → Inside op num words_a words_b fits at i j end_a end_b (a ∷ rest_a) rest_b
      → end_a < end_b
      → (get_elem? words_a (suc i) ≡ some a)
        × Inside op num words_a words_b fits end_a (suc i) j (end_a + a) end_b rest_a rest_b
  next_a at i j end_a end_b a rest_a rest_b v lt =
      let (short, e, d) = drop-get_elem? words_a i a rest_a v.at_a in (e, ground (arith, short, d))

  next_b :
      (at i j end_a end_b b : ℕ) (rest_a rest_b : List ℕ)
      → Inside op num words_a words_b fits at i j end_a end_b rest_a (b ∷ rest_b)
      → end_b < end_a
      → (get_elem? words_b (suc j) ≡ some b)
        × Inside op num words_a words_b fits end_b i (suc j) end_a (end_b + b) rest_a rest_b
  next_b at i j end_a end_b b rest_a rest_b v lt =
      let (short, e, d) = drop-get_elem? words_b j b rest_b v.at_b in (e, ground (arith, short, d))

  next_both :
      (at i j end a b : ℕ) (rest_a rest_b : List ℕ)
      → Inside op num words_a words_b fits at i j end end (a ∷ rest_a) (b ∷ rest_b)
      → (get_elem? words_a (suc i) ≡ some a)
        × (get_elem? words_b (suc j) ≡ some b)
        × Inside op num words_a words_b fits end (suc i) (suc j) (end + a) (end + b) rest_a rest_b
  next_both at i j end a b rest_a rest_b v =
      let (short_a, e, d) = drop-get_elem? words_a i a rest_a v.at_a in
      let (short_b, f, g) = drop-get_elem? words_b j b rest_b v.at_b in
      (e, f, ground (arith, short_a, d, short_b, g))

  pub Says : ℕ → ℕ → ℕ → ℕ → ℕ → ℕ → Bool → Bool → List ℕ → List ℕ → Type 0
  Says fuel at i j end_a end_b x y rest_a rest_b =
      has_scan op words_a words_b fuel x y i j end_a end_b
      ≡ some (any_true (stream op num words_a words_b fits at x y end_a end_b rest_a rest_b))

  miss-lt :
      (fuel at i j end_a end_b a : ℕ) (x y : Bool) (rest_a rest_b : List ℕ)
      → Inside op num words_a words_b fits at i j end_a end_b (a ∷ rest_a) rest_b
      → op x y ≡ false
      → end_a < end_b
      → Says fuel end_a (suc i) j (end_a + a) end_b (not x) y rest_a rest_b
      → Says (suc fuel) at i j end_a end_b x y (a ∷ rest_a) rest_b
  unfolding Says
  miss-lt fuel at i j end_a end_b a x y rest_a rest_b v miss lt ih =
      passes _ (end_a - at) _ _
        (zip_with op (expand (not x) (a ∷ rest_a))
          (replicate (end_b - end_a) y ++ expand (not y) rest_b))
        (stream-lt op num words_a words_b fits at x y end_a end_b (a ∷ rest_a) rest_b v.before_a
          (omega arith))
        miss
        (has-lt op num words_a words_b fits fuel i j end_a end_b a x y (v.in_a, v.in_b, miss) lt
            (next_a at i j end_a end_b a rest_a rest_b v lt).0 (omega (arith, v.total_a))
          ∙ rw (grow end_a a (not x)) at ih)

  miss-gt :
      (fuel at i j end_a end_b b : ℕ) (x y : Bool) (rest_a rest_b : List ℕ)
      → Inside op num words_a words_b fits at i j end_a end_b rest_a (b ∷ rest_b)
      → op x y ≡ false
      → end_b < end_a
      → Says fuel end_b i (suc j) end_a (end_b + b) x (not y) rest_a rest_b
      → Says (suc fuel) at i j end_a end_b x y rest_a (b ∷ rest_b)
  unfolding Says
  miss-gt fuel at i j end_a end_b b x y rest_a rest_b v miss lt ih =
      passes _ (end_b - at) _ _
        (zip_with op (replicate (end_a - end_b) x ++ expand (not x) rest_a)
          (expand (not y) (b ∷ rest_b)))
        (stream-gt op num words_a words_b fits at x y end_a end_b rest_a (b ∷ rest_b) v.before_b
          (omega arith))
        miss
        (has-gt op num words_a words_b fits fuel i j end_a end_b b x y (v.in_a, v.in_b, miss) lt
            (next_b at i j end_a end_b b rest_a rest_b v lt).0 (omega (arith, v.total_b))
          ∙ rw (grow end_b b (not y)) at ih)

  miss-eq :
      (fuel at i j end a b : ℕ) (x y : Bool) (rest_a rest_b : List ℕ)
      → Inside op num words_a words_b fits at i j end end (a ∷ rest_a) (b ∷ rest_b)
      → op x y ≡ false
      → Says fuel end (suc i) (suc j) (end + a) (end + b) (not x) (not y) rest_a rest_b
      → Says (suc fuel) at i j end end x y (a ∷ rest_a) (b ∷ rest_b)
  unfolding Says
  miss-eq fuel at i j end a b x y rest_a rest_b v miss ih =
      let same : end - end ≡ 0 = omega arith in
      let (e, f, w) = next_both at i j end a b rest_a rest_b v in
      passes _ (end - at) _ _
        (zip_with op (expand (not x) (a ∷ rest_a))
          (replicate (end - end) y ++ expand (not y) (b ∷ rest_b)))
        (stream-lt op num words_a words_b fits at x y end end (a ∷ rest_a) (b ∷ rest_b) v.before_a
          (omega arith))
        miss
        (has-eq op num words_a words_b fits fuel i j end a b x y (v.in_a, v.in_b, miss) w.in_a
            w.in_b e f (omega (arith, v.total_a)) (omega (arith, v.total_b))
          ∙ rw same (rw (grow end a (not x), grow end b (not y)) at ih))

  miss-end :
      (fuel at i j end : ℕ) (x y : Bool)
      → Inside op num words_a words_b fits at i j end end [] []
      → op x y ≡ false
      → Says (suc fuel) at i j end end x y [] []
  unfolding Says zip_with
  miss-end fuel at i j end x y v miss =
      passes _ (end - at) _ _
        (zip_with op (expand (not x) []) (replicate (end - end) y ++ expand (not y) []))
        (stream-lt op num words_a words_b fits at x y end end [] [] v.before_a (omega arith)) miss
        (has-end op num words_a words_b fits fuel i j end x y (v.in_a, v.in_b, miss)
          (drop-end words_a i v.at_a))

  -- The two runs end together.
  level :
      (fuel at i j end_a end_b : ℕ) (x y : Bool) (rest_a rest_b : List ℕ)
      → end_b ≡ end_a
      → Inside op num words_a words_b fits at i j end_a end_b rest_a rest_b
      → (Inside op num words_a words_b fits at i j end_a end_a rest_a rest_b
          → Says fuel at i j end_a end_a x y rest_a rest_b)
      → Says fuel at i j end_a end_b x y rest_a rest_b
  level fuel at i j end_a end_b x y rest_a rest_b q v f =
      subst (λ e. Says fuel at i j end_a e x y rest_a rest_b) (sym q)
        (f (subst (λ e. Inside op num words_a words_b fits at i j end_a e rest_a rest_b) q v))

  abbrev Hypothesis : ℕ → Type 0
  Hypothesis fuel =
      (at i j end_a end_b : ℕ) (x y : Bool) (rest_a rest_b : List ℕ)
      → Inside op num words_a words_b fits at i j end_a end_b rest_a rest_b
      → length rest_a + length rest_b < fuel
      → Says fuel at i j end_a end_b x y rest_a rest_b

  has_scan-miss :
      (fuel at i j end_a end_b : ℕ) (x y : Bool) (rest_a rest_b : List ℕ)
      → Inside op num words_a words_b fits at i j end_a end_b rest_a rest_b
      → length rest_a + length rest_b < suc fuel
      → op x y ≡ false
      → Hypothesis fuel
      → Says (suc fuel) at i j end_a end_b x y rest_a rest_b
  has_scan-miss fuel at i j end_a end_b x y [] [] v h miss ih =
      level (suc fuel) at i j end_a end_b x y [] [] (omega arith) v
        λ w. miss-end fuel at i j end_a x y w miss
  has_scan-miss fuel at i j end_a end_b x y (a ∷ rest_a) [] v h miss ih =
      miss-lt fuel at i j end_a end_b a x y rest_a [] v miss (omega arith) (
        ih end_a (suc i) j (end_a + a) end_b (not x) y rest_a []
          (next_a at i j end_a end_b a rest_a [] v (omega arith)).1 (omega arith))
  has_scan-miss fuel at i j end_a end_b x y [] (b ∷ rest_b) v h miss ih =
      miss-gt fuel at i j end_a end_b b x y [] rest_b v miss (omega arith) (
        ih end_b i (suc j) end_a (end_b + b) x (not y) [] rest_b
          (next_b at i j end_a end_b b [] rest_b v (omega arith)).1 (omega arith))
  has_scan-miss fuel at i j end_a end_b x y (a ∷ rest_a) (b ∷ rest_b) v h miss ih =
      elim (dec_lt end_a end_b) [
        | yes lt ↦ miss-lt fuel at i j end_a end_b a x y rest_a (b ∷ rest_b) v miss lt (
            ih end_a (suc i) j (end_a + a) end_b (not x) y rest_a (b ∷ rest_b)
              (next_a at i j end_a end_b a rest_a (b ∷ rest_b) v lt).1 (omega arith))
        | no ge ↦ elim (dec_lt end_b end_a) [
          | yes gt ↦ miss-gt fuel at i j end_a end_b b x y (a ∷ rest_a) rest_b v miss gt (
              ih end_b i (suc j) end_a (end_b + b) x (not y) (a ∷ rest_a) rest_b
                (next_b at i j end_a end_b b (a ∷ rest_a) rest_b v gt).1 (omega arith))
          | no le ↦
              level (suc fuel) at i j end_a end_b x y (a ∷ rest_a) (b ∷ rest_b) (omega arith) v λ w.
                miss-eq fuel at i j end_a a b x y rest_a rest_b w miss (
                  ih end_a (suc i) (suc j) (end_a + a) (end_a + b) (not x) (not y) rest_a rest_b
                    (next_both at i j end_a a b rest_a rest_b w).2 (omega arith))
        ]
      ]

  pub has_scan-lem :
      (fuel at i j end_a end_b : ℕ) (x y : Bool) (rest_a rest_b : List ℕ)
      → Inside op num words_a words_b fits at i j end_a end_b rest_a rest_b
      → length rest_a + length rest_b < fuel
      → Says fuel at i j end_a end_b x y rest_a rest_b
  has_scan-lem zero at i j end_a end_b x y rest_a rest_b v h = absurd (omega arith)
  has_scan-lem (suc fuel) at i j end_a end_b x y rest_a rest_b v h = elim (Bool-cases (op x y)) [
    | inl hit ↦
        unfold Says in
        (has-hit op num words_a words_b fits fuel i j end_a end_b x y v.in_a v.in_b hit
          ∙ ap some (
              sym (
                stream-hit op num words_a words_b fits at x y end_a end_b rest_a rest_b v.before_a
                  v.before_b hit)))
    | inr miss ↦
        has_scan-miss fuel at i j end_a end_b x y rest_a rest_b v h miss (has_scan-lem fuel)
  ]

has_scan_start :
    (op : Bool → Bool → Bool) (num : ℕ) (ws vs : List ℕ) (x y : Bool)
    → Operand num ws
    → Operand num vs
    → has_scan op ws vs (suc (length ws + length vs)) x y 0 0 (get_or ws 0 0) (get_or vs 0 0)
      ≡ some (any_true (zip_with op (expand x ws) (expand y vs)))
unfolding Says
has_scan_start op num [] vs x y v w = absurd (omega (arith, v.total, v.some_bits))
has_scan_start op num (a ∷ ws) [] x y v w = absurd (omega (arith, w.total, w.some_bits))
has_scan_start op num (a ∷ ws) (b ∷ vs) x y v w =
    rw (sub-zero a, sub-zero b) at
      (has_scan-lem op num (a ∷ ws) (b ∷ vs) v.fits (suc (length (a ∷ ws) + length (b ∷ vs))) 0 0 0
        a b x y ws vs inside (omega arith))
  where
    inside : Inside op num (a ∷ ws) (b ∷ vs) v.fits 0 0 0 a b ws vs
    inside = ground (arith, v.positive, w.positive, v.total, w.total)

-- `_HasLogical` reads inside both arrays, ends, and says whether some bit of the result is set.
pub has_logical-any_true :
    (op : Bool → Bool → Bool) (c : CompressedBits) (bit_b : Bool) (words_b : List ℕ)
    → IsValid c
    → Operand c.num words_b
    → has_logical op c bit_b words_b
      ≡ some (any_true (zip_with op (decode c) (expand bit_b words_b)))
unfolding has_logical
has_logical-any_true op c bit_b words_b v w =
    has_scan_start op c.num c.platforms words_b c.running_bit bit_b
      (IsValid-Operand c v w.some_bits) w
