-- ===== src/CompressedBits/Logical/Scan.antt =====
-- tf/compressedBits.h: the loop of `_Logical`.
use mathlib.Core.List.{zip_with}
use pxr_tf.Base.{
  ℕ, zero, suc, ◌+◌, ◌^◌, ◌<◌, ◌≡◌, ap, ap₂, ◌∙◌, sym, subst, Bool, false, not, List, [], ◌∷◌, ◌++◌,
  Option, arith, length, replicate, append_assoc, replicate-add, dec_lt,
}
use pxr_tf.CompressedBits.Defs.{expand, sum, AllPos}
use pxr_tf.CompressedBits.Expand.{zip-run}
use pxr_tf.CompressedBits.Logical.{
  State, commit, pass_both, step_a, step_b, step_both, advance_both, scan, start,
}
use pxr_tf.CompressedBits.Logical.Passes.{
  Emits, drop-suc, commit-Emits, Ready, stream, step_a-Ready, step_b-Ready, Emits-run, step_a-Emits,
  step_b-Emits,
}

module _ (op : Bool → Bool → Bool) (num : ℕ) (words_a words_b : List ℕ) where
  -- Both arrays move on.
  both-Ready :
      (s : State) (a b : ℕ) (rest_a rest_b : List ℕ)
      → Ready op num words_a words_b s (a ∷ rest_a) (b ∷ rest_b)
      → s.platform_a ≡ s.platform_b
      → Ready op num words_a words_b
          (advance_both op num words_a words_b (step_both op num words_a words_b s))
          rest_a
          rest_b
        × (stream op num words_a words_b
              (advance_both op num words_a words_b (step_both op num words_a words_b s))
              rest_a
              rest_b
            ≡ zip_with op (expand (not s.bit_a) (a ∷ rest_a)) (expand (not s.bit_b) (b ∷ rest_b)))
  unfolding step_both advance_both
  both-Ready s a b rest_a rest_b v e = ground (
    arith,
    drop-suc words_a s.index_a a rest_a v.at_a,
    drop-suc words_b s.index_b b rest_b v.at_b,
  )

  scan-lt :
      (fuel : ℕ) (s : State)
      → s.platform_a < s.platform_b
      → scan op num words_a words_b (suc fuel) s
        ≡ scan op num words_a words_b fuel (step_a op num words_a words_b s)
  unfolding scan
  scan-lt fuel s lt = ground arith

  scan-gt :
      (fuel : ℕ) (s : State)
      → s.platform_b < s.platform_a
      → scan op num words_a words_b (suc fuel) s
        ≡ scan op num words_a words_b fuel (step_b op num words_a words_b s)
  unfolding scan
  scan-gt fuel s lt = ground arith

  -- At equal platforms that are the last the scan ends.
  scan-last :
      (fuel : ℕ) (s : State)
      → Ready op num words_a words_b s [] []
      → s.platform_a ≡ s.platform_b
      → Emits s.result s.b s.new_platform
          (stream op num words_a words_b s [] [])
          (scan op num words_a words_b (suc fuel) s)
  unfolding scan step_both pass_both commit zip_with
  scan-last fuel s v e = (
    (s.new_platform + s.platform_a) ∷ [],
    ground arith,
    rw (replicate-add s.new_platform s.platform_a s.b) (
        append_assoc (replicate s.new_platform s.b) (replicate s.platform_a s.b) []
        ∙ ap (◌++◌ (replicate s.new_platform s.b)) (
            ap (λ c. replicate s.platform_a c ++ []) v.bit
            ∙ sym (zip-run op s.platform_a s.platform_b 0 s.bit_a s.bit_b [] [] (omega arith)))),
    (omega arith, tt),
  )

  scan-both :
      (fuel : ℕ) (s : State) (a b : ℕ) (rest_a rest_b : List ℕ)
      → Ready op num words_a words_b s (a ∷ rest_a) (b ∷ rest_b)
      → s.platform_a ≡ s.platform_b
      → scan op num words_a words_b (suc fuel) s
        ≡ scan op num words_a words_b fuel
            (advance_both op num words_a words_b (step_both op num words_a words_b s))
  unfolding scan step_both pass_both commit
  scan-both fuel s a b rest_a rest_b v e = ground arith

  step_both-more :
      (s : State) (a b : ℕ) (rest_a rest_b : List ℕ)
      → Ready op num words_a words_b s (a ∷ rest_a) (b ∷ rest_b)
      → step_both op num words_a words_b s
        ≡ commit op num words_a words_b false (pass_both op num words_a words_b s)
  unfolding step_both pass_both
  step_both-more s a b rest_a rest_b v =
      ap (λ f. commit op num words_a words_b f (pass_both op num words_a words_b s)) (ground arith)

  both-Emits :
      (s : State) (a b : ℕ) (rest_a rest_b : List ℕ) (r : Option (List ℕ))
      → Ready op num words_a words_b s (a ∷ rest_a) (b ∷ rest_b)
      → s.platform_a ≡ s.platform_b
      → let s' = advance_both op num words_a words_b (step_both op num words_a words_b s) in
        Emits s'.result s'.b s'.new_platform (stream op num words_a words_b s' rest_a rest_b) r
        → Emits s.result s.b s.new_platform
            (stream op num words_a words_b s (a ∷ rest_a) (b ∷ rest_b))
            r
  unfolding advance_both pass_both
  both-Emits s a b rest_a rest_b r v q e =
      Emits-run op num words_a words_b s.result s.b s.new_platform s.platform_a
        (pass_both op num words_a words_b s).new_platform _ _ r (ground arith)
        (zip-run op s.platform_a s.platform_b 0 s.bit_a s.bit_b _ _ (omega arith)
          ∙ ap₂ (λ c z. replicate s.platform_a c ++ z) (sym v.bit)
              (sym (both-Ready s a b rest_a rest_b v q).1))
        (commit-Emits op num words_a words_b (pass_both op num words_a words_b s) _ r (ground arith)
          (subst
            (λ c.
              Emits c.result c.b c.new_platform
                (stream op num words_a words_b
                  (advance_both op num words_a words_b (step_both op num words_a words_b s)) rest_a
                  rest_b)
                r)
            (step_both-more s a b rest_a rest_b v) e))

  -- The fuel suffices, and the words that come out stand for the bits that `op` yields.
  pub scan-Emits :
      (fuel : ℕ) (s : State) (rest_a rest_b : List ℕ)
      → Ready op num words_a words_b s rest_a rest_b
      → length rest_a + length rest_b < fuel
      → Emits s.result s.b s.new_platform
          (stream op num words_a words_b s rest_a rest_b)
          (scan op num words_a words_b fuel s)
  scan-Emits zero s rest_a rest_b v h = absurd (omega arith)
  scan-Emits (suc fuel) s [] [] v h = scan-last fuel s v (omega arith)
  scan-Emits (suc fuel) s (a ∷ rest_a) [] v h = rw (scan-lt fuel s (omega arith)) (
      step_a-Emits op num words_a words_b s a rest_a [] _ v (omega arith) (
        scan-Emits fuel (step_a op num words_a words_b s) rest_a []
          (step_a-Ready op num words_a words_b s a rest_a [] v (omega arith)) (omega arith)))
  scan-Emits (suc fuel) s [] (b ∷ rest_b) v h = rw (scan-gt fuel s (omega arith)) (
      step_b-Emits op num words_a words_b s b [] rest_b _ v (omega arith) (
        scan-Emits fuel (step_b op num words_a words_b s) [] rest_b
          (step_b-Ready op num words_a words_b s b [] rest_b v (omega arith)) (omega arith)))
  scan-Emits (suc fuel) s (a ∷ rest_a) (b ∷ rest_b) v h = elim (dec_lt s.platform_a s.platform_b) [
    | yes lt ↦ rw (scan-lt fuel s lt) (
        step_a-Emits op num words_a words_b s a rest_a (b ∷ rest_b) _ v lt (
          scan-Emits fuel (step_a op num words_a words_b s) rest_a (b ∷ rest_b)
            (step_a-Ready op num words_a words_b s a rest_a (b ∷ rest_b) v lt) (omega arith)))
    | no ge ↦ elim (dec_lt s.platform_b s.platform_a) [
      | yes gt ↦ rw (scan-gt fuel s gt) (
          step_b-Emits op num words_a words_b s b (a ∷ rest_a) rest_b _ v gt (
            scan-Emits fuel (step_b op num words_a words_b s) (a ∷ rest_a) rest_b
              (step_b-Ready op num words_a words_b s b (a ∷ rest_a) rest_b v gt) (omega arith)))
      | no le ↦ rw (scan-both fuel s a b rest_a rest_b v (omega arith)) (
          both-Emits s a b rest_a rest_b _ v (omega arith) (
            scan-Emits fuel
              (advance_both op num words_a words_b (step_both op num words_a words_b s)) rest_a
              rest_b (both-Ready s a b rest_a rest_b v (omega arith)).0 (omega arith)))
    ]
  ]

  pub start-Ready :
      (a b : ℕ) (rest_a rest_b : List ℕ) (bit_a bit_b : Bool)
      → words_a ≡ a ∷ rest_a
      → words_b ≡ b ∷ rest_b
      → AllPos (a ∷ rest_a)
      → AllPos (b ∷ rest_b)
      → sum (a ∷ rest_a) ≡ num
      → sum (b ∷ rest_b) ≡ num
      → num < 2 ^ 32
      → Ready op num words_a words_b (start op num words_a words_b bit_a bit_b) rest_a rest_b
  unfolding start
  start-Ready a b rest_a rest_b bit_a bit_b ea eb pa pb sa sb h = ground arith
