-- ===== src/CompressedBits/Views/Loop.antt =====
-- tf/compressedBits.h, `View`: the loop over the bits, from any bit of any platform.
use pxr_tf.Base.{
  ℕ, zero, suc, ◌+◌, ◌-◌, ◌^◌, ◌<◌, ◌≡◌, refl, ap, ◌∙◌, sym, Bool, true, not, List, [], ◌∷◌, ◌++◌,
  some, arith, length, length-append, replicate, dec_lt, append_assoc, not-not, Bool-cases, inl,
  inr,
}
use pxr_tf.CompressedBits.Defs.{CompressedBits, expand, sum, AllPos}
use pxr_tf.CompressedBits.Views.{Mode, skips, Iterator, increment, visit}
use pxr_tf.CompressedBits.Views.Steps.{
  accepts, picked, picked-skipped, picked-first, accepts-each, accepts-other, visit-end, visit-step,
  inside, behind, increment-inside, increment-over, increment-skip,
}

module _ (mode : Mode) (c : CompressedBits) (fits : c.num < 2 ^ 32) where
  -- The rest of the loop from `it` visits what is due for the bits `bs` from `index` on.
  abbrev pub Visits : ℕ → Iterator → ℕ → List Bool → Type 0
  Visits fuel it index bs = visit mode c fuel it ≡ some (picked mode index bs)

  Visits-end :
      (fuel : ℕ) (it : Iterator) (index : ℕ)
      → 0 < fuel
      → it.bit_index ≡ c.num
      → Visits fuel it index []
  Visits-end zero it index pos h = absurd (omega arith)
  Visits-end (suc fuel) it index pos h = visit-end mode c fuel it fits h

  -- One pass in front of a loop that does what is due.
  Visits-first :
      (fuel : ℕ) (pre : List ℕ) (p base k : ℕ) (b : Bool) (bs : List Bool) (next : Iterator)
      → accepts mode b ≡ true
      → k < p
      → base + k < c.num
      → increment mode c (inside pre base k b) ≡ next
      → Visits fuel next (suc (base + k)) (replicate (p - suc k) b ++ bs)
      → Visits (suc fuel) (inside pre base k b) (base + k) (replicate (p - k) b ++ bs)
  Visits-first fuel pre p base k b bs next acc lt within e v =
      visit-step mode c fuel (inside pre base k b) next _ fits within e v
      ∙ ap some (sym (picked-first mode (base + k) p k b bs acc lt))

  -- At the last bit of a platform, nothing of it is left.
  over : (p k base : ℕ) (b : Bool) (bs : List Bool) → suc k ≡ p → replicate (p - suc k) b ++ bs ≡ bs
  over p k base b bs done = let none_left : p - suc k ≡ 0 = omega arith in rw none_left refl

  split-snoc : (pre ps : List ℕ) (p : ℕ) → pre ++ p ∷ ps ≡ (pre ++ p ∷ []) ++ ps
  split-snoc pre ps p = sym (append_assoc pre (p ∷ []) ps)

  -- With this fuel the loop does what is due, from any bit of any platform.
  abbrev pub Loops : ℕ → Type 0
  Loops fuel =
      (pre : List ℕ) (p : ℕ) (rest : List ℕ) (base k : ℕ) (b : Bool)
      → c.platforms ≡ pre ++ p ∷ rest
      → AllPos (p ∷ rest)
      → k < p
      → base + (p + sum rest) ≡ c.num
      → accepts mode b ≡ true
      → c.num < base + k + fuel
      → Visits fuel (inside pre base k b) (base + k) (replicate (p - k) b ++ expand (not b) rest)

  -- The same at the first bit of a platform, for the iterator that enters it.
  pub Visits-enter :
      (fuel : ℕ) (i : ℕ) (pre : List ℕ) (p : ℕ) (rest : List ℕ) (base : ℕ) (b : Bool)
      → Loops fuel
      → i ≡ length pre
      → c.platforms ≡ pre ++ p ∷ rest
      → AllPos (p ∷ rest)
      → base + (p + sum rest) ≡ c.num
      → accepts mode b ≡ true
      → c.num < base + fuel
      → Visits fuel (behind i base b) base (expand b (p ∷ rest))
  Visits-enter fuel i pre p rest base b loops at e pos total acc enough =
      let same : base + 0 ≡ base = omega arith in
      let whole : p - 0 ≡ p = omega arith in
      rw at (simp (same, whole) at (loops pre p rest base 0 b e pos pos.0 total acc (omega arith)))

  -- Where the iterator goes from the last bit of a platform, and that it does what is due there.
  abbrev Leaves : ℕ → Iterator → ℕ → List Bool → Type 0
  Leaves fuel it index bs =
      (next : Iterator) × (increment mode c it ≡ next) × Visits fuel next index bs

  -- Behind the platform that a mode skips: the end, or a platform of the same bit.
  pub Visits-behind :
      (fuel : ℕ) (pre : List ℕ) (rest : List ℕ) (i index : ℕ) (b : Bool)
      → Loops fuel
      → i ≡ length pre
      → c.platforms ≡ pre ++ rest
      → AllPos rest
      → index + sum rest ≡ c.num
      → accepts mode b ≡ true
      → c.num < index + fuel
      → 0 < fuel
      → Visits fuel (behind i index b) index (expand b rest)
  Visits-behind fuel pre [] i index b loops at e pos total acc enough more =
      Visits-end fuel (behind i index b) index more (omega arith)
  Visits-behind fuel pre (p ∷ rest) i index b loops at e pos total acc enough more =
      Visits-enter fuel i pre p rest index b loops at e pos total acc enough

  Leaves-skip :
      (fuel : ℕ) (pre : List ℕ) (p q : ℕ) (rest : List ℕ) (base k : ℕ) (b : Bool)
      → Loops fuel
      → skips mode ≡ true
      → c.platforms ≡ pre ++ p ∷ q ∷ rest
      → AllPos (p ∷ q ∷ rest)
      → suc k ≡ p
      → base + (p + (q + sum rest)) ≡ c.num
      → accepts mode b ≡ true
      → c.num < base + k + suc fuel
      → Leaves fuel (inside pre base k b) (base + p) (expand (not b) (q ∷ rest))
  Leaves-skip fuel pre p q rest base k b loops sk e pos done total acc enough = (
    behind (suc (suc (length pre))) (base + p + q) b,
    increment-skip mode c fits pre p (q ∷ rest) base k b e (omega arith) total done (ground arith)
        (omega arith),
    Visits-behind fuel (pre ++ p ∷ q ∷ []) rest (suc (suc (length pre))) (base + p + q) b loops
          (omega (arith, length-append pre (p ∷ q ∷ [])))
          (e ∙ sym (append_assoc pre (p ∷ q ∷ []) rest)) pos.1.1 (omega arith) acc (omega arith)
          (omega arith)
        ∙ ap (λ x. some (picked mode (base + p + q) (expand x rest))) (sym (not-not b))
        ∙ ap some (
            sym (
              picked-skipped mode (base + p) q (not b) (expand (not (not b)) rest)
                (accepts-other mode b sk acc))),
  )

  Leaves-last :
      (fuel : ℕ) (pre : List ℕ) (p : ℕ) (rest : List ℕ) (base k : ℕ) (b : Bool)
      → Loops fuel
      → c.platforms ≡ pre ++ p ∷ rest
      → AllPos (p ∷ rest)
      → suc k ≡ p
      → base + (p + sum rest) ≡ c.num
      → accepts mode b ≡ true
      → c.num < base + k + suc fuel
      → Leaves fuel (inside pre base k b) (base + p) (expand (not b) rest)
  Leaves-last fuel pre p [] base k b loops e pos done total acc enough = (
    behind (suc (length pre)) (base + p) (not b),
    increment-over mode c fits pre p [] base k b e (omega arith) total done (ground arith),
    Visits-end fuel _ (base + p) (omega arith) (omega arith),
  )
  Leaves-last fuel pre p (q ∷ rest) base k b loops e pos done total acc enough =
      elim (Bool-cases (skips mode)) [
        | inl sk ↦ Leaves-skip fuel pre p q rest base k b loops sk e pos done total acc enough
        | inr each ↦ (
          behind (suc (length pre)) (base + p) (not b),
          increment-over mode c fits pre p (q ∷ rest) base k b e (omega arith) total done
              (ground arith),
          Visits-enter fuel (suc (length pre)) (pre ++ p ∷ []) q rest (base + p) (not b) loops
              (omega (arith, length-append pre (p ∷ []))) (e ∙ split-snoc pre (q ∷ rest) p) pos.1
              (omega arith) (accepts-each mode (not b) each) (omega arith),
        )
      ]

  pub Visits-word : (fuel : ℕ) → Loops fuel
  Visits-word zero pre p rest base k b e pos lt total acc enough = absurd (omega arith)
  Visits-word (suc fuel) pre p rest base k b e pos lt total acc enough =
      elim (dec_lt (suc k) p)
        as (λ _.
          Visits (suc fuel) (inside pre base k b) (base + k)
            (replicate (p - k) b ++ expand (not b) rest)) [
              | yes more ↦
                  Visits-first fuel pre p base k b (expand (not b) rest) (inside pre base (suc k) b)
                    acc lt (omega arith)
                    (increment-inside mode c fits pre p rest base k b e lt total more)
                    (let next : suc (base + k) ≡ base + suc k = omega arith in
                      rw next (
                        Visits-word fuel pre p rest base (suc k) b e pos more total acc
                          (omega arith)))
              | no last ↦
                  let done : suc k ≡ p = omega arith in
                  let (next, goes, v) =
                    Leaves-last fuel pre p rest base k b (Visits-word fuel) e pos done total acc
                      enough in
                  let here : suc (base + k) ≡ base + p = omega arith in
                  Visits-first fuel pre p base k b (expand (not b) rest) next acc lt (omega arith)
                    goes (rw (here, over p k base b (expand (not b) rest) done) v)
            ]
