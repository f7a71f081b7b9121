-- ===== src/CompressedBits/Queries/Ends.antt =====
-- tf/compressedBits.h: `GetFirstSet` and `GetLastSet`.
use mathlib.Core.Path.{fun_ext}
use native.Mathlib.Nat.{sub-zero, zero-add, add-zero, add_assoc}
use mathlib.Core.Bool.{not-not}
use pxr_tf.Base.{
  ℕ, ◌+◌, ◌-◌, ◌%◌, ◌≤◌, ◌<◌, ◌≡◌, refl, Bool, true, false, not, List, [], ◌∷◌, arith, ◌==◌, length,
  subst, ap, ◌≢◌, dec_lt,
}
use pxr_tf.CompressedBits.Defs.{CompressedBits, IsValid, decode, sum, AllPos}
use pxr_tf.CompressedBits.Expand.{length-decode}
use pxr_tf.CompressedBits.Positions.{bit_at, word_bit, bit_at-past}
use pxr_tf.CompressedBits.Queries.{bit_num, back, get_first_set, get_last_set}
use pxr_tf.CompressedBits.Queries.Search.{Run, Run-here, Run-later, IsNext, IsPrev, IsValid-pos}

-- The bit of the last platform.
unfoldable pub last_bit : Bool → List ℕ → Bool
last_bit b [] = not b
last_bit b (p ∷ ps) = last_bit (not b) ps

-- It is set exactly if the running bit equals the parity of the number of platforms.
pub last_bit-parity : (b : Bool) (ps : List ℕ) → last_bit b ps ≡ (bit_num b == length ps % 2)
unfolding last_bit
last_bit-parity true [] = refl
last_bit-parity false [] = refl
last_bit-parity true (p ∷ ps) = ground (arith, last_bit-parity false ps)
last_bit-parity false (p ∷ ps) = ground (arith, last_bit-parity true ps)

last-Run :
    (b : Bool) (count p : ℕ) (ps : List ℕ)
    → AllPos (p ∷ ps)
    → Run
        (word_bit b (p ∷ ps) count)
        count
        (count + sum (p ∷ ps))
        (count + sum (p ∷ ps) - 1)
        (count + sum (p ∷ ps) - back (p ∷ ps))
        (count + sum (p ∷ ps))
        (last_bit b (p ∷ ps))
unfolding last_bit back
last-Run b count p [] pos =
    let low : count + p - p ≡ count = omega arith in
    simp (add-zero, low, not-not)
      (simp add-zero at (Run-here (count + p - 1) b count p [] pos (omega arith) (omega arith)))
last-Run b count p (q ∷ ps) pos =
    simp add_assoc at
      (Run-later _ b count p (q ∷ ps) pos _ _ _ (last-Run (not b) (count + p) q ps pos.1))

back-le-sum : (ps : List ℕ) → back ps ≤ sum ps
unfolding back
back-le-sum [] = omega arith
back-le-sum (p ∷ []) = omega arith
back-le-sum (p ∷ q ∷ ps) = omega (arith, back-le-sum (q ∷ ps))

back-lt-sum :
    (p : ℕ) (ps : List ℕ) → AllPos (p ∷ ps) → length (p ∷ ps) ≢ 1 → back (p ∷ ps) < sum (p ∷ ps)
unfolding back
back-lt-sum p [] pos h = absurd (omega arith)
back-lt-sum p (q ∷ ps) pos h = omega (arith, back-le-sum (q ∷ ps))

back_one : (p : ℕ) (ps : List ℕ) → length (p ∷ ps) ≡ 1 → back (p ∷ ps) ≡ sum (p ∷ ps)
unfolding back
back_one p [] h = omega arith
back_one p (q ∷ ps) h = absurd (omega arith)

List-cases : (xs : List ℕ) → ¬ (xs ≡ []) → (p : ℕ) × (ps : List ℕ) × (xs ≡ p ∷ ps)
List-cases [] h = absurd (h refl)
List-cases (p ∷ ps) h = (p, ps, refl)

module _ (c : CompressedBits) (v : IsValid c) where
  -- The last platform, as a run of the bit array.
  back-Run :
      (p : ℕ) (ps : List ℕ)
      → c.platforms ≡ p ∷ ps
      → 0 < c.num
      → Run
          (bit_at (decode c))
          0
          c.num
          (c.num - 1)
          (c.num - back c.platforms)
          c.num
          (bit_num c.running_bit == length c.platforms % 2)
  back-Run p ps e h = rw (← last_bit-parity c.running_bit c.platforms) (
      subst
        (λ at.
          Run at 0 c.num (c.num - 1) (c.num - back c.platforms) c.num
            (last_bit c.running_bit c.platforms))
        (fun_ext (λ j. ap (bit_at (decode c)) (sub-zero j)))
        (rw e (simp (zero-add, total) at (last-Run c.running_bit 0 p ps pos))))
    where
      total : sum (p ∷ ps) ≡ c.num
      total = ground (arith, v.total)

      pos : AllPos (p ∷ ps)
      pos = ground (arith, IsValid-pos c v)

  first-Run :
      (p : ℕ) (ps : List ℕ)
      → c.platforms ≡ p ∷ ps
      → 0 < c.num
      → Run (bit_at (decode c)) 0 c.num 0 0 p c.running_bit
  first-Run p ps e h =
      subst (λ at. Run at 0 c.num 0 0 p c.running_bit)
        (fun_ext (λ j. ap (bit_at (decode c)) (sub-zero j)))
        (rw e (
          simp (zero-add, total) at
            (Run-here 0 c.running_bit 0 p ps pos (omega arith) (omega (arith, pos.0)))))
    where
      total : p + sum ps ≡ c.num
      total = ground (arith, v.total)

      pos : AllPos (p ∷ ps)
      pos = ground (arith, IsValid-pos c v)

  empty_bit : (j : ℕ) → c.num ≡ 0 → bit_at (decode c) j ≡ false
  empty_bit j h = bit_at-past (decode c) j (omega (arith, length-decode c v))

  last-IsPrev : (p : ℕ) (ps : List ℕ) → c.platforms ≡ p ∷ ps → IsPrev c (c.num - 1) (get_last_set c)
  unfolding get_last_set
  last-IsPrev p ps e = elim (dec_lt 0 c.num) [
    | no empty ↦ record {
      bounded = ground arith;
      hit = ground arith;
      skipped = λ j le d. empty_bit j (omega arith);
    }
    | yes bits ↦
        let r = back-Run p ps e bits in
        let low = back-lt-sum p ps in
        let one = back_one p ps in
        let pos = IsValid-pos c v bits in
        record {
          bounded = ground (arith, r.above);
          hit = ground (arith, r.above, r.inside (c.num - 1), r.before, low, one, pos, v.total);
          skipped = λ j le d. ground (arith, r.above, r.inside j, low, one, pos, v.total);
        }
  ]

  first-IsNext : (p : ℕ) (ps : List ℕ) → c.platforms ≡ p ∷ ps → IsNext true c 0 (get_first_set c)
  unfolding get_first_set
  first-IsNext p ps e = elim (dec_lt 0 c.num) [
    | no empty ↦ record {
      bounded = ground arith;
      forward = ground arith;
      hit = ground arith;
      skipped = λ j lo hi. empty_bit j (omega arith);
    }
    | yes bits ↦
        let r = first-Run p ps e bits in
        record {
          bounded = ground (arith, r.above);
          forward = ground arith;
          hit = ground (arith, r.inside 0, r.after);
          skipped = λ j lo hi. ground (arith, r.inside j);
        }
  ]

  pub platforms-cons : (p : ℕ) × (ps : List ℕ) × (c.platforms ≡ p ∷ ps)
  platforms-cons = List-cases c.platforms (λ e. ground arith)

  -- `GetLastSet` of a valid array is the last set bit, or the size if no bit is set.
  pub get_last_set-IsPrev : IsPrev c (c.num - 1) (get_last_set c)
  get_last_set-IsPrev = let (p, ps, e) = platforms-cons in last-IsPrev p ps e

  -- `GetFirstSet` of a valid array is the first set bit, or the size if no bit is set.
  pub get_first_set-IsNext : IsNext true c 0 (get_first_set c)
  get_first_set-IsNext = let (p, ps, e) = platforms-cons in first-IsNext p ps e
