-- ===== src/Strings/Pieces/Walk.antt =====
-- tf/stringUtils.cpp: the loops of TfStringSplit and TfStringReplace, against the pieces between the
-- places where the pattern is found.
use pxr_tf.Base.{
  ℕ, zero, suc, ◌+◌, ◌-◌, ◌≤◌, ◌<◌, ◌≡◌, refl, ap, ap₂, ◌∙◌, sym, List, [], ◌∷◌, ◌++◌, append_assoc,
  Option, none, some, length, length-append, length-take, length-drop, take, drop, take-append-drop,
  arith, inl, inr, Option-cases,
}
use pxr_tf.Strings.{find, find_from}
use pxr_tf.Strings.Pieces.{split_loop, join, replace_loop}
use pxr_tf.Strings.Pieces.Found.{find-parts, find-take}

pub drop-prefix : (a s : List ℕ) (n : ℕ) → drop (length a + n) (a ++ s) ≡ drop n s
drop-prefix [] s n = ap (λ m. drop m s) (omega arith)
drop-prefix (x ∷ a) s n =
    let m : length (x ∷ a) + n ≡ suc (length a + n) = omega arith in rw m (drop-prefix a s n)

pub take-prefix : (a s : List ℕ) (n : ℕ) → take (length a + n) (a ++ s) ≡ a ++ take n s
take-prefix [] s n = ap (λ m. take m s) (omega arith)
take-prefix (x ∷ a) s n =
    let m : length (x ∷ a) + n ≡ suc (length a + n) = omega arith in
    rw m (ap (◌∷◌ x) (take-prefix a s n))

pub drop-length : (a s : List ℕ) → drop (length a) (a ++ s) ≡ s
drop-length [] s = refl
drop-length (x ∷ a) s = drop-length a s

-- The pieces of a string between the separators.
pub pieces : ℕ → List ℕ → List ℕ → List (List ℕ)
pieces zero sep s = []
pieces (suc n) sep s = elim (find sep s) [
  | none ↦ s ∷ []
  | some k ↦ take k s ∷ pieces n sep (drop (k + length sep) s)
]

shorter :
    (sep s : List ℕ) (k n : ℕ)
    → find sep s ≡ some k
    → 0 < length sep
    → length s < suc n
    → length (drop (k + length sep) s) < n
shorter sep s k n h pos lt = omega (arith, (find-parts sep s k h).1, length-drop (k + length sep) s)

join-pieces_cons :
    (n : ℕ) (sep to x s : List ℕ)
    → 0 < n
    → join (x ∷ pieces n sep s) to ≡ x ++ (to ++ join (pieces n sep s) to)
unfolding join pieces
join-pieces_cons zero sep to x s h = absurd (omega arith)
join-pieces_cons (suc n) sep to x s h = go (find sep s)
  where
    go :
        (o : Option ℕ)
        → join
            (x ∷ elim o [
              | none ↦ s ∷ []
              | some k ↦ take k s ∷ pieces n sep (drop (k + length sep) s)
            ])
            to
          ≡ x
            ++ (to
                ++ join
                    (elim o [
                      | none ↦ s ∷ []
                      | some k ↦ take k s ∷ pieces n sep (drop (k + length sep) s)
                    ])
                    to)
    go none = refl
    go (some k) = refl

pub pieces-last : (n : ℕ) (sep s : List ℕ) → find sep s ≡ none → pieces (suc n) sep s ≡ s ∷ []
unfolding pieces
pieces-last n sep s missing = rw (missing, pieces) refl

pieces-next :
    (n : ℕ) (sep s : List ℕ) (k : ℕ)
    → find sep s ≡ some k
    → pieces (suc n) sep s ≡ take k s ∷ pieces n sep (drop (k + length sep) s)
unfolding pieces
pieces-next n sep s k found = rw (found, pieces) refl

find_from-prefix :
    (a s p : List ℕ)
    → find_from (a ++ s) p (length a)
      ≡ elim (find p s) [ none ↦ none | some i ↦ some (length a + i) ]
unfolding find_from
find_from-prefix a s p =
    ap (λ t. elim (find p t) [ none ↦ none | some i ↦ some (length a + i) ]) (drop-length a s)

pub join-pieces :
    (n : ℕ) (sep s : List ℕ) → 0 < length sep → length s < n → join (pieces n sep s) sep ≡ s
unfolding join
join-pieces zero sep s pos lt = absurd (omega arith)
join-pieces (suc n) sep s pos lt = elim (Option-cases (find sep s)) [
  | inl missing ↦ rw (pieces-last n sep s missing, join) refl
  | inr (k, found) ↦
      let less = shorter sep s k n found pos lt in
      rw (pieces-next n sep s k found) (
        join-pieces_cons n sep sep (take k s) (drop (k + length sep) s) (omega (arith, less))
        ∙ ap (λ t. take k s ++ (sep ++ t)) (join-pieces n sep (drop (k + length sep) s) pos less)
        ∙ (find-parts sep s k found).0)
]

-- No piece has the separator.
abbrev pub Lack : List ℕ → List (List ℕ) → Type 0
Lack sep [] = Unit {0}
Lack sep (p ∷ ps) = (find sep p ≡ none) × Lack sep ps

pub pieces-Lack : (n : ℕ) (sep s : List ℕ) → 0 < length sep → Lack sep (pieces n sep s)
unfolding pieces
pieces-Lack zero sep s pos = tt
pieces-Lack (suc n) sep s pos = elim (Option-cases (find sep s)) [
  | inl missing ↦ rw (pieces-last n sep s missing) (missing, tt)
  | inr (k, found) ↦
      rw (pieces-next n sep s k found)
        (find-take sep s k pos found, pieces-Lack n sep (drop (k + length sep) s) pos)
]

-- The string up to the end of the pattern, as the prefix of the next pass.
next_prefix :
    (a s : List ℕ) (m : ℕ)
    → m ≤ length s
    → ((a ++ take m s) ++ drop m s ≡ a ++ s) × (length (a ++ take m s) ≡ length a + m)
next_prefix a s m le = (
  append_assoc a (take m s) (drop m s) ∙ ap (λ t. a ++ t) (take-append-drop m s),
  omega (arith, length-append a (take m s), length-take m s),
)

pub split_loop-pieces :
    (n : ℕ) (sep a s : List ℕ) → split_loop n (a ++ s) sep (length a) ≡ pieces n sep s
unfolding split_loop pieces
split_loop-pieces zero sep a s = refl
split_loop-pieces (suc n) sep a s = elim (Option-cases (find sep s)) [
  | inl missing ↦
      rw (pieces-last n sep s missing, find_from-prefix a s sep, missing, split_loop)
        (ap (λ t. t ∷ []) (drop-length a s))
  | inr (k, found) ↦
      let m = k + length sep in
      let (whole, size) = next_prefix a s m (find-parts sep s k found).1 in
      let e : length a + k - length a ≡ k = omega arith in
      let q : length a + k + length sep ≡ length (a ++ take m s) = omega (arith, size) in
      rw
        (
          pieces-next n sep s k found,
          find_from-prefix a s sep,
          found,
          drop-length a s,
          e,
          split_loop,
        )
        (ap₂ (λ t i. take k s ∷ split_loop n t sep i) (sym whole) q
          ∙ ap (◌∷◌ (take k s)) (split_loop-pieces n sep (a ++ take m s) (drop m s)))
]

pub replace_loop-pieces :
    (n : ℕ) (from to a s : List ℕ)
    → 0 < length from
    → length s < n
    → replace_loop n (a ++ s) from to (length a) ≡ a ++ join (pieces n from s) to
unfolding replace_loop join
replace_loop-pieces zero from to a s pos lt = absurd (omega arith)
replace_loop-pieces (suc n) from to a s pos lt = elim (Option-cases (find from s)) [
  | inl missing ↦
      rw (pieces-last n from s missing, find_from-prefix a s from, missing, replace_loop, join) refl
  | inr (k, found) ↦
      let m = k + length from in
      let less = shorter from s k n found pos lt in
      let before = (a ++ take k s) ++ to in
      let there : length a + k + length from ≡ length a + m = omega arith in
      let result : take (length a + k) (a ++ s)
            ++ (to ++ drop (length a + k + length from) (a ++ s))
          ≡ before ++ drop m s =
        ap₂ (λ t i. t ++ (to ++ drop i (a ++ s))) (take-prefix a s k) there
        ∙ ap (λ t. a ++ take k s ++ (to ++ t)) (drop-prefix a s m)
        ∙ sym (append_assoc (a ++ take k s) to (drop m s)) in
      let place : length a + k + length to ≡ length before = omega (
        arith,
        length-append (a ++ take k s) to,
        length-append a (take k s),
        length-take k s,
        (find-parts from s k found).1,
      ) in
      let rest = join (pieces n from (drop m s)) to in
      rw (pieces-next n from s k found, find_from-prefix a s from, found, replace_loop)
        (ap₂ (λ t i. replace_loop n t from to i) result place
          ∙ replace_loop-pieces n from to before (drop m s) pos less
          ∙ append_assoc (a ++ take k s) to rest
          ∙ append_assoc a (take k s) (to ++ rest)
          ∙ ap (λ t. a ++ t)
              (sym (join-pieces_cons n from to (take k s) (drop m s) (omega (arith, less)))))
]
