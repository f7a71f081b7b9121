-- ===== src/CompressedBits/Canonical.antt =====
-- tf/compressedBits.h: `operator==` compares the words, and valid arrays have one representation.
use mathlib.Core.List.{append_cancel_left}
use pxr_tf.Base.{
  ℕ, ◌<◌, ◌≡◌, refl, ap, ap₂, ◌∙◌, sym, Bool, true, false, not, ◌&&◌, List, [], ◌∷◌, arith, ◌==◌,
  if◌then◌else◌, bit_eq, bit_eq-true, length, replicate, dec_lt, ◌↔◌,
}
use pxr_tf.CompressedBits.Defs.{CompressedBits, IsValid, decode, expand, AllPos}
use pxr_tf.CompressedBits.Expand.{length-expand, length-decode}
use pxr_tf.CompressedBits.Positions.{bit_at, bit_at-run, word_bit-first}
use pxr_tf.CompressedBits.Queries.Search.{IsValid-pos}
use pxr_tf.CompressedBits.Queries.Platforms.{at_zero}

-- The loop over the words, for arrays of one length.
words_equal : List ℕ → List ℕ → Bool
words_equal [] [] = true
words_equal [] (q ∷ qs) = false
words_equal (p ∷ ps) [] = false
words_equal (p ∷ ps) (q ∷ qs) = if not (p == q) then false else words_equal ps qs

-- `operator==`; the test of the addresses is left out, since it only saves the comparison.
pub equals : CompressedBits → CompressedBits → Bool
unfolding words_equal
equals c rhs =
    if c.num == 0 && rhs.num == 0
    then true
    else if c.num == rhs.num
        && bit_eq c.running_bit rhs.running_bit
        && length c.platforms == length rhs.platforms
    then words_equal c.platforms rhs.platforms
    else false

words_equal_iff : (ps qs : List ℕ) → (words_equal ps qs ≡ true) ↔ (ps ≡ qs)
unfolding words_equal
words_equal_iff [] [] = (λ _. refl, λ _. refl)
words_equal_iff [] (q ∷ qs) = (λ h. cc, λ h. cc)
words_equal_iff (p ∷ ps) [] = (λ h. cc, λ h. cc)
words_equal_iff (p ∷ ps) (q ∷ qs) = ground (arith, words_equal_iff ps qs)

-- A first run that is shorter than another ends where the other still has its bit.
run-le :
    (b : Bool) (p q : ℕ) (ps qs : List ℕ)
    → AllPos (p ∷ ps)
    → AllPos (q ∷ qs)
    → expand b (p ∷ ps) ≡ expand b (q ∷ qs)
    → ¬ (p < q)
run-le b p q [] qs hp hq e lt =
    absurd (omega (arith, length-expand b (p ∷ []), length-expand b (q ∷ qs), ap length e))
run-le b p q (p' ∷ ps) qs hp hq e lt = ground (
  arith,
  ap (λ xs. bit_at xs p) e,
  bit_at-run p b (expand (not b) (p' ∷ ps)) p,
  bit_at-run q b (expand (not b) qs) p,
  word_bit-first (not b) p' ps,
)

expand-injective :
    (b : Bool) (ps qs : List ℕ) → AllPos ps → AllPos qs → expand b ps ≡ expand b qs → ps ≡ qs
expand-injective b [] [] hp hq e = refl
expand-injective b [] (q ∷ qs) hp hq e =
    absurd (omega (arith, length-expand b (q ∷ qs), ap length e))
expand-injective b (p ∷ ps) [] hp hq e =
    absurd (omega (arith, length-expand b (p ∷ ps), ap length e))
expand-injective b (p ∷ ps) (q ∷ qs) hp hq e = ap₂ ◌∷◌ same (
    expand-injective (not b) ps qs hp.1 hq.1
      (append_cancel_left (replicate q b) (expand (not b) ps) (expand (not b) qs) (rw same at e)))
  where
    same : p ≡ q
    same = omega (arith, run-le b p q ps qs hp hq e, run-le b q p qs ps hq hp (sym e))

module _ (c d : CompressedBits) (v : IsValid c) (w : IsValid d) (e : decode c ≡ decode d) where
  same_num : c.num ≡ d.num
  same_num = omega (arith, length-decode c v, length-decode d w, ap length e)

  same_bit : 0 < c.num → c.running_bit ≡ d.running_bit
  same_bit h =
      sym (at_zero c v h) ∙ ap (λ xs. bit_at xs 0) e ∙ at_zero d w (omega (arith, same_num))

  same_platforms : 0 < c.num → c.platforms ≡ d.platforms
  same_platforms h =
      expand-injective c.running_bit c.platforms d.platforms (IsValid-pos c v h)
        (IsValid-pos d w (omega (arith, same_num)))
        (e ∙ ap (λ b. expand b d.platforms) (sym (same_bit h)))

-- Valid arrays that stand for the same bits are the same value.
pub decode-injective : (c d : CompressedBits) → IsValid c → IsValid d → decode c ≡ decode d → c ≡ d
decode-injective c d v w e = elim (dec_lt 0 c.num) [
  | yes h ↦ ground (arith, same_num c d v w e, same_bit c d v w e h, same_platforms c d v w e h)
  | no h ↦ ground (arith, same_num c d v w e, v.shape, w.shape)
]

-- `operator==` between two valid arrays answers yes exactly if they stand for the same bits.
pub equals_iff :
    (c d : CompressedBits) → IsValid c → IsValid d → (equals c d ≡ true) ↔ (decode c ≡ decode d)
unfolding equals
equals_iff c d v w = (
  λ h. ap decode (same_value h),
  λ e. ground (arith, decode-injective c d v w e, (words_equal_iff c.platforms d.platforms).1),
)
  where
    same_value : equals c d ≡ true → c ≡ d
    same_value h = ground (
      arith,
      h,
      v.shape,
      w.shape,
      (words_equal_iff c.platforms d.platforms).0,
      bit_eq-true c.running_bit d.running_bit,
    )
