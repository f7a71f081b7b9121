-- ===== src/CompressedBits/Logical/Passes.antt =====
-- tf/compressedBits.h: the passes of `_Logical` that move on in one word array.
use mathlib.Core.List.{zip_with}
use pxr_tf.Base.{
  ℕ, zero, suc, ◌+◌, ◌-◌, ◌^◌, ◌≤◌, ◌<◌, ◌≡◌, refl, ap, ap₂, ◌∙◌, sym, Bool, true, false, not, List,
  [], ◌∷◌, ◌++◌, Option, some, arith, length, get_or, drop, replicate, append_assoc, replicate-add,
  Bool-cases, bit_eq, inl, inr,
}
use pxr_tf.CompressedBits.Defs.{expand, sum, AllPos}
use pxr_tf.CompressedBits.Expand.{zip-run, run-zip}
use pxr_tf.CompressedBits.Logical.{State, commit, pass_a, pass_b, step_a, step_b}

-- The loop returns `res ++ t`, where `t` stands for `n` bits `b` and then the bits `z`.
abbrev pub Emits : List ℕ → Bool → ℕ → List Bool → Option (List ℕ) → Type 0
Emits res b n z r =
    (t : List ℕ) × (r ≡ some (res ++ t)) × (expand b t ≡ replicate n b ++ z) × AllPos t

pub drop-suc :
    (ws : List ℕ) (i a : ℕ) (rest : List ℕ)
    → drop (suc i) ws ≡ a ∷ rest
    → (suc i < length ws) × (get_or ws (suc i) 0 ≡ a) × (drop (suc (suc i)) ws ≡ rest)
drop-suc [] i a rest h = absurd (ground arith)
drop-suc (w ∷ []) zero a rest h = absurd (ground arith)
drop-suc (w ∷ []) (suc i) a rest h = absurd (ground arith)
drop-suc (w ∷ v ∷ ws) zero a rest h = ground arith
drop-suc (w ∷ v ∷ ws) (suc i) a rest h = ground (arith, drop-suc (v ∷ ws) i a rest h)

module _ (op : Bool → Bool → Bool) (num : ℕ) (words_a words_b : List ℕ) where
  pub commit-Emits :
      (s : State) (z : List Bool) (r : Option (List ℕ))
      → 0 < s.new_platform
      → Emits
          (commit op num words_a words_b false s).result
          (commit op num words_a words_b false s).b
          (commit op num words_a words_b false s).new_platform
          z
          r
      → Emits s.result s.b s.new_platform z r
  unfolding commit
  commit-Emits s z r pos = elim (Bool-cases (bit_eq (op s.bit_a s.bit_b) s.b)) [
    | inl same ↦ rw same (λ e. e)
    | inr differs ↦ rw differs λ (t, e, x, p). (
      s.new_platform ∷ t,
      e ∙ ap some (append_assoc s.result _ _),
      ap (◌++◌ (replicate s.new_platform s.b)) (ap (λ b. expand b t) (ground arith) ∙ x),
      (pos, p),
    )
  ]

  pub commit-last :
      (s : State)
      → 0 < s.new_platform
      → Emits s.result s.b s.new_platform [] (some (commit op num words_a words_b true s).result)
  unfolding commit
  commit-last s pos = (s.new_platform ∷ [], ground arith, refl, (pos, tt))

  -- The state between two rounds, with the platforms that are still to come.
  pub record Ready (s : State) (rest_a rest_b : List ℕ) : Type 0 where
    pub at_a : drop (suc s.index_a) words_a ≡ rest_a
    pub at_b : drop (suc s.index_b) words_b ≡ rest_b
    pub pos_a : 0 < s.platform_a
    pub pos_b : 0 < s.platform_b
    pub all_a : AllPos rest_a
    pub all_b : AllPos rest_b
    pub total_a : s.new_total + (s.platform_a + sum rest_a) ≡ num
    pub total_b : s.new_total + (s.platform_b + sum rest_b) ≡ num
    pub fits : num < 2 ^ 32
    pub bit : s.b ≡ op s.bit_a s.bit_b
    pub behind : s.new_platform ≤ s.new_total

  -- The bits that are still to be written.
  abbrev pub stream : State → List ℕ → List ℕ → List Bool
  stream s rest_a rest_b =
      zip_with op (replicate s.platform_a s.bit_a ++ expand (not s.bit_a) rest_a)
        (replicate s.platform_b s.bit_b ++ expand (not s.bit_b) rest_b)

  pub step_a-Ready :
      (s : State) (a : ℕ) (rest_a rest_b : List ℕ)
      → Ready s (a ∷ rest_a) rest_b
      → s.platform_a < s.platform_b
      → Ready (step_a op num words_a words_b s) rest_a rest_b
  unfolding step_a commit
  step_a-Ready s a rest_a rest_b v lt = ground (arith, drop-suc words_a s.index_a a rest_a v.at_a)

  pub step_b-Ready :
      (s : State) (b : ℕ) (rest_a rest_b : List ℕ)
      → Ready s rest_a (b ∷ rest_b)
      → s.platform_b < s.platform_a
      → Ready (step_b op num words_a words_b s) rest_a rest_b
  unfolding step_b commit
  step_b-Ready s b rest_a rest_b v lt = ground (arith, drop-suc words_b s.index_b b rest_b v.at_b)

  -- A run that is passed belongs to the platform that is being written.
  pub Emits-run :
      (res : List ℕ) (b : Bool) (n p m : ℕ) (z z' : List Bool) (r : Option (List ℕ))
      → m ≡ n + p
      → z' ≡ replicate p b ++ z
      → Emits res b m z r
      → Emits res b n z' r
  Emits-run res b n p m z z' r e q (t, h, x, pos) = (
    t,
    h,
    x ∙ rw (e, q, replicate-add n p b) (append_assoc (replicate n b) (replicate p b) z),
    pos,
  )

  pub stream-step_a :
      (s : State) (a : ℕ) (rest_a rest_b : List ℕ)
      → Ready s (a ∷ rest_a) rest_b
      → s.platform_a < s.platform_b
      → stream (step_a op num words_a words_b s) rest_a rest_b
        ≡ zip_with op
            (expand (not s.bit_a) (a ∷ rest_a))
            (replicate (s.platform_b - s.platform_a) s.bit_b ++ expand (not s.bit_b) rest_b)
  unfolding step_a
  stream-step_a s a rest_a rest_b v lt = ground (arith, drop-suc words_a s.index_a a rest_a v.at_a)

  pub step_a-Emits :
      (s : State) (a : ℕ) (rest_a rest_b : List ℕ) (r : Option (List ℕ))
      → Ready s (a ∷ rest_a) rest_b
      → s.platform_a < s.platform_b
      → let s' = step_a op num words_a words_b s in
        Emits s'.result s'.b s'.new_platform (stream s' rest_a rest_b) r
        → Emits s.result s.b s.new_platform (stream s (a ∷ rest_a) rest_b) r
  unfolding step_a
  step_a-Emits s a rest_a rest_b r v lt e =
      Emits-run s.result s.b s.new_platform s.platform_a
        (pass_a op num words_a words_b s).new_platform _ _ r (ground arith)
        (zip-run op s.platform_a s.platform_b (s.platform_b - s.platform_a) s.bit_a s.bit_b _ _
            (omega arith)
          ∙ ap₂ (λ c z. replicate s.platform_a c ++ z) (sym v.bit)
              (sym (stream-step_a s a rest_a rest_b v lt)))
        (commit-Emits (pass_a op num words_a words_b s) _ r (ground arith) e)

  pub stream-step_b :
      (s : State) (b : ℕ) (rest_a rest_b : List ℕ)
      → Ready s rest_a (b ∷ rest_b)
      → s.platform_b < s.platform_a
      → stream (step_b op num words_a words_b s) rest_a rest_b
        ≡ zip_with op
            (replicate (s.platform_a - s.platform_b) s.bit_a ++ expand (not s.bit_a) rest_a)
            (expand (not s.bit_b) (b ∷ rest_b))
  unfolding step_b
  stream-step_b s b rest_a rest_b v lt = ground (arith, drop-suc words_b s.index_b b rest_b v.at_b)

  pub step_b-Emits :
      (s : State) (b : ℕ) (rest_a rest_b : List ℕ) (r : Option (List ℕ))
      → Ready s rest_a (b ∷ rest_b)
      → s.platform_b < s.platform_a
      → let s' = step_b op num words_a words_b s in
        Emits s'.result s'.b s'.new_platform (stream s' rest_a rest_b) r
        → Emits s.result s.b s.new_platform (stream s rest_a (b ∷ rest_b)) r
  unfolding step_b
  step_b-Emits s b rest_a rest_b r v lt e =
      Emits-run s.result s.b s.new_platform s.platform_b
        (pass_b op num words_a words_b s).new_platform _ _ r (ground arith)
        (run-zip op s.platform_b s.platform_a (s.platform_a - s.platform_b) s.bit_a s.bit_b _ _
            (omega arith)
          ∙ ap₂ (λ c z. replicate s.platform_b c ++ z) (sym v.bit)
              (sym (stream-step_b s b rest_a rest_b v lt)))
        (commit-Emits (pass_b op num words_a words_b s) _ r (ground arith) e)
