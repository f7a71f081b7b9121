-- ===== src/Strings/Pieces/Found.antt =====
-- tf/stringUtils.cpp: what `find` of std::string finds.
use pxr_tf.Base.{
  ℕ, zero, suc, ◌+◌, ◌≤◌, ◌<◌, ◌≡◌, ◌≢◌, refl, ap, ap₂, ◌∙◌, true, false, List, [], ◌∷◌, ◌++◌, none,
  some, length, take, drop, arith,
}
use pxr_tf.Strings.{starts_with, find}

starts_with-drop :
    (p s : List ℕ) → starts_with p s ≡ true → (p ++ drop (length p) s ≡ s) × (length p ≤ length s)
unfolding starts_with
starts_with-drop [] s h = (refl, omega arith)
starts_with-drop (x ∷ xs) [] h = cc
starts_with-drop (x ∷ xs) (y ∷ ys) h =
    let (e, le) = starts_with-drop xs ys (ground arith) in
    (ap₂ (◌∷◌) (ground arith) e, omega (arith, le))

find-here : (p s : List ℕ) → find p s ≡ some 0 → starts_with p s ≡ true
unfolding find
find-here p [] h = ground arith
find-here p (c ∷ s) h = ground arith

find-past : (p : List ℕ) (k : ℕ) → find p [] ≢ some (suc k)
unfolding find
find-past p k h = ground arith

find-later :
    (p : List ℕ) (c : ℕ) (s : List ℕ) (k : ℕ)
    → find p (c ∷ s) ≡ some (suc k)
    → (starts_with p (c ∷ s) ≡ false) × (find p s ≡ some k)
unfolding find
find-later p c s k h = (ground arith, ground arith)

-- The string before the pattern, the pattern, and the rest.
pub find-parts :
    (p s : List ℕ) (k : ℕ)
    → find p s ≡ some k
    → (take k s ++ (p ++ drop (k + length p) s) ≡ s) × (k + length p ≤ length s)
find-parts p s zero h =
    let (e, le) = starts_with-drop p s (find-here p s h) in
    (ap (λ m. p ++ drop m s) (omega arith) ∙ e, omega (arith, le))
find-parts p [] (suc k) h = absurd (find-past p k h)
find-parts p (c ∷ s) (suc k) h =
    let (e, le) = find-parts p s k (find-later p c s k h).1 in
    let m : suc k + length p ≡ suc (k + length p) = omega arith in
    (rw m (ap (◌∷◌ c) e), omega (arith, le))

starts_with-take : (p s : List ℕ) (k : ℕ) → starts_with p (take k s) ≡ true → starts_with p s ≡ true
unfolding starts_with
starts_with-take [] s k h = refl
starts_with-take (x ∷ xs) [] zero h = h
starts_with-take (x ∷ xs) [] (suc k) h = h
starts_with-take (x ∷ xs) (y ∷ ys) zero h = cc
starts_with-take (x ∷ xs) (y ∷ ys) (suc k) h = ground (arith, starts_with-take xs ys k)

pub find-nil : (p : List ℕ) → 0 < length p → find p [] ≡ none
unfolding find starts_with
find-nil [] h = absurd (omega arith)
find-nil (x ∷ xs) h = refl

-- The pattern does not stand before the place where it is found first.
pub find-take : (p s : List ℕ) (k : ℕ) → 0 < length p → find p s ≡ some k → find p (take k s) ≡ none
unfolding find
find-take p s zero pos h = find-nil p pos
find-take p [] (suc k) pos h = absurd (find-past p k h)
find-take p (c ∷ s) (suc k) pos h =
    let (e, rest) = find-later p c s k h in
    ground (arith, e, find-take p s k pos rest, starts_with-take p (c ∷ s) (suc k))
