-- ===== src/CompressedBits/Operators/HasSteps.antt =====
-- tf/compressedBits.h: the passes of `_HasLogical`, and the bits that are left before each.
use mathlib.Core.List.{zip_with}
use pxr_tf.Base.{
  ℕ, zero, suc, ◌+◌, ◌-◌, ◌^◌, ◌≤◌, ◌<◌, ◌≡◌, refl, ap, ◌∙◌, Bool, true, false, not, ◌||◌, List, [],
  ◌∷◌, ◌++◌, some, arith, dec_lt, length, get_elem?, drop, replicate, length-drop, u32,
}
use pxr_tf.CompressedBits.Defs.{expand, sum, AllPos}
use pxr_tf.CompressedBits.Expand.{zip-run, run-zip}
use pxr_tf.CompressedBits.Operators.{has_scan}

abbrev pub any_true : List Bool → Bool
any_true [] = false
any_true (b ∷ xs) = b || any_true xs

pub any_true-unset :
    (n : ℕ) (b : Bool) (xs : List Bool) → b ≡ false → any_true (replicate n b ++ xs) ≡ any_true xs
any_true-unset zero b xs e = refl
any_true-unset (suc n) b xs e = rw e (any_true-unset n false xs refl)

pub any_true-set :
    (n : ℕ) (b : Bool) (xs : List Bool) → 0 < n → b ≡ true → any_true (replicate n b ++ xs) ≡ true
any_true-set zero b xs h e = absurd (omega arith)
any_true-set (suc n) b xs h e = rw e

pub drop-get_elem? :
    (ws : List ℕ) (i a : ℕ) (rest : List ℕ)
    → drop (suc i) ws ≡ a ∷ rest
    → (suc i < length ws) × (get_elem? ws (suc i) ≡ some a) × (drop (suc (suc i)) ws ≡ rest)
drop-get_elem? [] i a rest h = absurd (ground arith)
drop-get_elem? (w ∷ []) zero a rest h = absurd (ground arith)
drop-get_elem? (w ∷ []) (suc i) a rest h = absurd (ground arith)
drop-get_elem? (w ∷ v ∷ ws) zero a rest h = ground arith
drop-get_elem? (w ∷ v ∷ ws) (suc i) a rest h = ground (arith, drop-get_elem? (v ∷ ws) i a rest h)

pub drop-end : (ws : List ℕ) (i : ℕ) → drop (suc i) ws ≡ [] → length ws ≤ suc i
drop-end ws i h = omega (arith, length-drop {0} (suc i) ws, ap length h)

module _ (op : Bool → Bool → Bool) (num : ℕ) (words_a words_b : List ℕ) (fits : num < 2 ^ 32) where
  -- Position `at` lies in the runs that end at `end_a` and `end_b`.
  pub record Inside (at i j end_a end_b : ℕ) (rest_a rest_b : List ℕ) : Type 0 where
    pub in_a : i < length words_a
    pub in_b : j < length words_b
    pub at_a : drop (suc i) words_a ≡ rest_a
    pub at_b : drop (suc j) words_b ≡ rest_b
    pub before_a : at < end_a
    pub before_b : at < end_b
    pub all_a : AllPos rest_a
    pub all_b : AllPos rest_b
    pub total_a : end_a + sum rest_a ≡ num
    pub total_b : end_b + sum rest_b ≡ num

  abbrev pub stream : ℕ → Bool → Bool → ℕ → ℕ → List ℕ → List ℕ → List Bool
  stream at x y end_a end_b rest_a rest_b =
      zip_with op (replicate (end_a - at) x ++ expand (not x) rest_a)
        (replicate (end_b - at) y ++ expand (not y) rest_b)

  -- Past a shared run whose operation yields `v`.
  pub stream-lt :
      (at : ℕ) (x y : Bool) (end_a end_b : ℕ) (rest_a rest_b : List ℕ)
      → at < end_a
      → end_a ≤ end_b
      → stream at x y end_a end_b rest_a rest_b
        ≡ replicate (end_a - at) (op x y)
          ++ zip_with op
              (expand (not x) rest_a)
              (replicate (end_b - end_a) y ++ expand (not y) rest_b)
  stream-lt at x y end_a end_b rest_a rest_b h le =
      zip-run op (end_a - at) (end_b - at) (end_b - end_a) x y _ _ (omega arith)

  pub stream-gt :
      (at : ℕ) (x y : Bool) (end_a end_b : ℕ) (rest_a rest_b : List ℕ)
      → at < end_b
      → end_b ≤ end_a
      → stream at x y end_a end_b rest_a rest_b
        ≡ replicate (end_b - at) (op x y)
          ++ zip_with op
              (replicate (end_a - end_b) x ++ expand (not x) rest_a)
              (expand (not y) rest_b)
  stream-gt at x y end_a end_b rest_a rest_b h le =
      run-zip op (end_b - at) (end_a - at) (end_a - end_b) x y _ _ (omega arith)

  -- Here the operation yields a set bit.
  pub stream-hit :
      (at : ℕ) (x y : Bool) (end_a end_b : ℕ) (rest_a rest_b : List ℕ)
      → at < end_a
      → at < end_b
      → op x y ≡ true
      → any_true (stream at x y end_a end_b rest_a rest_b) ≡ true
  stream-hit at x y end_a end_b rest_a rest_b ha hb e = elim (dec_lt end_b end_a) [
    | yes gt ↦
        ap any_true (stream-gt at x y end_a end_b rest_a rest_b hb (omega arith))
        ∙ any_true-set (end_b - at) (op x y) _ (omega arith) e
    | no le ↦
        ap any_true (stream-lt at x y end_a end_b rest_a rest_b ha (omega arith))
        ∙ any_true-set (end_a - at) (op x y) _ (omega arith) e
  ]

  abbrev pub Miss : ℕ → ℕ → Bool → Bool → Type 0
  Miss i j x y = (i < length words_a) × (j < length words_b) × (op x y ≡ false)

  pub has-hit :
      (fuel i j end_a end_b : ℕ) (x y : Bool)
      → i < length words_a
      → j < length words_b
      → op x y ≡ true
      → has_scan op words_a words_b (suc fuel) x y i j end_a end_b ≡ some true
  unfolding has_scan
  has-hit fuel i j end_a end_b x y ha hb e = ground arith

  pub has-lt :
      (fuel i j end_a end_b p : ℕ) (x y : Bool)
      → Miss i j x y
      → end_a < end_b
      → get_elem? words_a (suc i) ≡ some p
      → end_a + p < 2 ^ 32
      → has_scan op words_a words_b (suc fuel) x y i j end_a end_b
        ≡ has_scan op words_a words_b fuel (not x) y (suc i) j (end_a + p) end_b
  unfolding has_scan
  has-lt fuel i j end_a end_b p x y m lt e h =
      let wide : u32 (end_a + p) ≡ end_a + p = omega arith in ground arith

  pub has-gt :
      (fuel i j end_a end_b q : ℕ) (x y : Bool)
      → Miss i j x y
      → end_b < end_a
      → get_elem? words_b (suc j) ≡ some q
      → end_b + q < 2 ^ 32
      → has_scan op words_a words_b (suc fuel) x y i j end_a end_b
        ≡ has_scan op words_a words_b fuel x (not y) i (suc j) end_a (end_b + q)
  unfolding has_scan
  has-gt fuel i j end_a end_b q x y m lt e h =
      let wide : u32 (end_b + q) ≡ end_b + q = omega arith in ground arith

  pub has-eq :
      (fuel i j end p q : ℕ) (x y : Bool)
      → Miss i j x y
      → suc i < length words_a
      → suc j < length words_b
      → get_elem? words_a (suc i) ≡ some p
      → get_elem? words_b (suc j) ≡ some q
      → end + p < 2 ^ 32
      → end + q < 2 ^ 32
      → has_scan op words_a words_b (suc fuel) x y i j end end
        ≡ has_scan op words_a words_b fuel (not x) (not y) (suc i) (suc j) (end + p) (end + q)
  unfolding has_scan
  has-eq fuel i j end p q x y m ha hb ea eb hp hq =
      let wide_a : u32 (end + p) ≡ end + p = omega arith in
      let wide_b : u32 (end + q) ≡ end + q = omega arith in ground arith

  pub has-end :
      (fuel i j end : ℕ) (x y : Bool)
      → Miss i j x y
      → length words_a ≤ suc i
      → has_scan op words_a words_b (suc fuel) x y i j end end ≡ some false
  unfolding has_scan
  has-end fuel i j end x y m h = ground arith
