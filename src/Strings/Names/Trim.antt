-- ===== src/Strings/Names/Trim.antt =====
-- tf/stringUtils.cpp: what trimming takes away.
use pxr_tf.Base.{
  ℕ, zero, suc, ◌+◌, ◌-◌, ◌≡◌, ◌⊎◌, refl, ap, ap₂, ◌∙◌, sym, Bool, true, false, List, [], ◌∷◌, ◌++◌,
  append-nil, none, some, length, length-take, take, drop, take-append-drop, arith, inl, inr,
  Option-cases,
}
use pxr_tf.Strings.Names.{last_position, first_position, not_trimmed, trim_left, trim_right, trim}
use pxr_tf.Strings.Names.Laws.{last_position-parts, last_position-snoc}
use pxr_tf.Strings.Pieces.Walk.{take-prefix}

-- The bytes before the first place and from it on.
first_position-parts :
    (test : ℕ → Bool) (s : List ℕ) (b : ℕ)
    → first_position test s ≡ some b
    → (first_position test (take b s) ≡ none) × (first_position test (drop b s) ≡ some 0)
unfolding first_position
first_position-parts test [] b h = cc
first_position-parts test (c ∷ s) zero h = (refl, h)
first_position-parts test (c ∷ s) (suc b) h =
    let other : test c ≡ false = ground (arith, h) in
    let found : first_position test s ≡ some b = ground (arith, h, other) in
    let (before, here) = first_position-parts test s b found in (rw (other, before) refl, here)

-- A string that has a first place has a last one, which is where it was behind the first.
last_position-drop :
    (test : ℕ → Bool) (s : List ℕ) (b : ℕ)
    → first_position test s ≡ some b
    → (l : ℕ) × (last_position test s ≡ some l) × (last_position test (drop b s) ≡ some (l - b))
unfolding first_position last_position
last_position-drop test [] b h = cc
last_position-drop test (c ∷ s) zero h = elim (Option-cases (last_position test s)) [
  | inl missing ↦ let here : test c ≡ true = ground (arith, h) in rw (missing, here) (0, refl, refl)
  | inr (l, found) ↦ rw found (suc l, refl, ap some (omega arith))
]
last_position-drop test (c ∷ s) (suc b) h =
    let other : test c ≡ false = ground (arith, h) in
    let found : first_position test s ≡ some b = ground (arith, h, other) in
    let (l, last, behind) = last_position-drop test s b found in
    let n : suc l - suc b ≡ l - b = omega arith in rw last (suc l, refl, behind ∙ ap some (sym n))

-- `t` is what stays when bytes of a set are taken away from the left or from the right of `s`, all of
-- them.
abbrev pub LeftTrimmed : List ℕ → List ℕ → List ℕ → Type 0
LeftTrimmed set s t =
    (removed : List ℕ) × (s ≡ removed ++ t)
    × (first_position (not_trimmed set) removed ≡ none)
    × ((t ≡ []) ⊎ (first_position (not_trimmed set) t ≡ some 0))

abbrev pub RightTrimmed : List ℕ → List ℕ → List ℕ → Type 0
RightTrimmed set s t =
    (removed : List ℕ) × (s ≡ t ++ removed)
    × (last_position (not_trimmed set) removed ≡ none)
    × ((t ≡ []) ⊎ (last_position (not_trimmed set) t ≡ some (length t - 1)))

trim_left-LeftTrimmed : (s set : List ℕ) → LeftTrimmed set s (trim_left s set)
unfolding trim_left
trim_left-LeftTrimmed s set = elim (Option-cases (first_position (not_trimmed set) s)) [
  | inl missing ↦ rw (missing, trim_left) (s, sym (append-nil s), missing, inl refl)
  | inr (b, found) ↦
      let (before, here) = first_position-parts (not_trimmed set) s b found in
      rw (found, trim_left) (take b s, sym (take-append-drop b s), before, inr here)
]

trim_right-RightTrimmed : (s set : List ℕ) → RightTrimmed set s (trim_right s set)
unfolding trim_right
trim_right-RightTrimmed s set = elim (Option-cases (last_position (not_trimmed set) s)) [
  | inl missing ↦ rw (missing, trim_right) (s, refl, missing, inl refl)
  | inr (l, found) ↦
      let (c, whole, here, after, inside) = last_position-parts (not_trimmed set) s l found in
      let n : l + 1 ≡ length (take l s) + 1 = omega (arith, length-take l s, inside) in
      let kept : take (l + 1) s ≡ take l s ++ c ∷ [] =
        ap₂ take n whole ∙ take-prefix (take l s) (c ∷ drop (l + 1) s) 1 in
      let place : last_position (not_trimmed set) (take (l + 1) s)
          ≡ some (length (take (l + 1) s) - 1) =
        ap (last_position (not_trimmed set)) kept
        ∙ last_position-snoc (not_trimmed set) (take l s) c here
        ∙ ap some (omega (arith, length-take l s, length-take (l + 1) s, inside)) in
      rw (found, trim_right) (drop (l + 1) s, sym (take-append-drop (l + 1) s), after, inr place)
]

-- TfStringTrimLeft and TfStringTrimRight take away the bytes of the set at one end, all of them and
-- nothing else, and TfStringTrim does the one after the other.
pub trim_lem :
    (s set : List ℕ)
    → LeftTrimmed set s (trim_left s set)
      × RightTrimmed set s (trim_right s set)
      × (trim s set ≡ trim_right (trim_left s set) set)
unfolding trim trim_left trim_right first_position last_position
trim_lem s set = (trim_left-LeftTrimmed s set, trim_right-RightTrimmed s set, both)
  where
    both : trim s set ≡ trim_right (trim_left s set) set
    both = elim (Option-cases (first_position (not_trimmed set) s)) [
      | inl missing ↦ rw (missing, trim, trim_left, trim_right) refl
      | inr (b, found) ↦
          let (l, last, behind) = last_position-drop (not_trimmed set) s b found in
          let left : trim_left s set ≡ drop b s = rw (found, trim_left) refl in
          let right : trim s set ≡ trim_right (drop b s) set =
            rw (found, last, trim, behind, trim_right) refl in
          right ∙ ap (λ t. trim_right t set) (sym left)
    ]
