-- ===== src/CompressedBits/Logical/Correct.antt =====
-- tf/compressedBits.h: `_Logical` as a whole.
use mathlib.Core.List.{zip_with}
use pxr_tf.Base.{
  ℕ, zero, suc, ◌+◌, ◌^◌, ◌<◌, ◌≡◌, refl, ap, ◌∙◌, sym, Bool, List, [], ◌∷◌, some, arith, length,
}
use pxr_tf.CompressedBits.Defs.{CompressedBits, IsValid, decode, expand, sum, AllPos, Shape}
use pxr_tf.CompressedBits.Expand.{length-expand}
use pxr_tf.CompressedBits.Logical.{scan, start, logical}
use pxr_tf.CompressedBits.Logical.Scan.{scan-Emits, start-Ready}

pub length-zip_with :
    (op : Bool → Bool → Bool) (n : ℕ) (xs ys : List Bool)
    → length xs ≡ n
    → length ys ≡ n
    → length (zip_with op xs ys) ≡ n
unfolding zip_with
length-zip_with op n [] [] p q = p
length-zip_with op n [] (y ∷ ys) p q = absurd (omega arith)
length-zip_with op n (x ∷ xs) [] p q = absurd (omega arith)
length-zip_with op n (x ∷ xs) (y ∷ ys) p q =
    omega (arith, length-zip_with op (length xs) xs ys refl (omega arith))

pub Shape-pos : (n : ℕ) (b : Bool) (ps : List ℕ) → 0 < n → AllPos ps → Shape n b ps
Shape-pos zero b ps h p = absurd (omega arith)
Shape-pos (suc n) b ps h p = p

-- What the other operand has to satisfy.
pub record Operand (num : ℕ) (words : List ℕ) : Type 0 where
  pub total : sum words ≡ num
  pub positive : AllPos words
  pub some_bits : 0 < num
  pub fits : num < 2 ^ 32

scan-lem :
    (op : Bool → Bool → Bool) (num : ℕ) (ws vs : List ℕ) (bit_a bit_b : Bool)
    → Operand num ws
    → Operand num vs
    → (t : List ℕ) × (scan op num ws vs (length ws + length vs) (start op num ws vs bit_a bit_b)
        ≡ some t)
      × (expand (op bit_a bit_b) t ≡ zip_with op (expand bit_a ws) (expand bit_b vs))
      × AllPos t
unfolding start
scan-lem op num [] vs bit_a bit_b v w = absurd (omega (arith, v.total, v.some_bits))
scan-lem op num (a ∷ ws) [] bit_a bit_b v w = absurd (omega (arith, w.total, w.some_bits))
scan-lem op num (a ∷ ws) (b ∷ vs) bit_a bit_b v w =
    scan-Emits op num (a ∷ ws) (b ∷ vs) _ (start op num (a ∷ ws) (b ∷ vs) bit_a bit_b) ws vs
      (start-Ready op num (a ∷ ws) (b ∷ vs) a b ws vs bit_a bit_b refl refl v.positive w.positive
        v.total w.total v.fits)
      (omega arith)

pub IsValid-Operand : (c : CompressedBits) → IsValid c → 0 < c.num → Operand c.num c.platforms
IsValid-Operand c v h = ground arith

logical-eq :
    (op : Bool → Bool → Bool) (c : CompressedBits) (bit_b : Bool) (words_b t : List ℕ)
    → scan op c.num c.platforms words_b
        (length c.platforms + length words_b)
        (start op c.num c.platforms words_b c.running_bit bit_b)
      ≡ some t
    → logical op c bit_b words_b ≡ record c { platforms = t; running_bit = op c.running_bit bit_b }
unfolding logical
logical-eq op c bit_b words_b t e = rw (e, logical)

module _ (op : Bool → Bool → Bool) (c : CompressedBits) (bit_b : Bool) (words_b : List ℕ)
    (v : IsValid c) (w : Operand c.num words_b) where
  logical_lem :
      (t : List ℕ) × (logical op c bit_b words_b
        ≡ record c { platforms = t; running_bit = op c.running_bit bit_b })
      × (expand (op c.running_bit bit_b) t ≡ zip_with op (decode c) (expand bit_b words_b))
      × AllPos t
  logical_lem =
      let (t, e, x, p) =
        scan-lem op c.num c.platforms words_b c.running_bit bit_b (IsValid-Operand c v w.some_bits)
          w in
      (t, logical-eq op c bit_b words_b t e, x, p)

  -- The bits of the result are those that the operation yields.
  pub decode-logical :
      decode (logical op c bit_b words_b) ≡ zip_with op (decode c) (expand bit_b words_b)
  decode-logical = let (t, e, x, p) = logical_lem in ap decode e ∙ x

  length-zip : length (zip_with op (decode c) (expand bit_b words_b)) ≡ c.num
  length-zip =
      length-zip_with op c.num (decode c) (expand bit_b words_b)
        (length-expand c.running_bit c.platforms ∙ v.total) (length-expand bit_b words_b ∙ w.total)

  pub logical-IsValid : IsValid (logical op c bit_b words_b)
  logical-IsValid =
      let (t, e, x, p) = logical_lem in
      rw e (record {
        total = sym (length-expand (op c.running_bit bit_b) t) ∙ ap length x ∙ length-zip;
        fits = v.fits;
        shape = Shape-pos c.num (op c.running_bit bit_b) t w.some_bits p;
      })

  pub num-logical : (logical op c bit_b words_b).num ≡ c.num
  num-logical = let (t, e, x, p) = logical_lem in ap (λ (r : CompressedBits). r.num) e
