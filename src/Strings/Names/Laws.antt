-- ===== src/Strings/Names/Laws.antt =====
-- tf/stringUtils.cpp: the parts of a name, and trimmed strings.
use pxr_tf.Base.{
  ℕ, zero, suc, ◌+◌, ◌-◌, ◌≤◌, ◌<◌, ◌≡◌, ◌⊎◌, refl, ap, ap₂, ◌∙◌, sym, Bool, true, List, [], ◌∷◌,
  ◌++◌, append_assoc, append-nil, none, some, ◌==◌, length, length-append, length-take, length-drop,
  take, drop, arith, Bool-cases, inl, inr, Option-cases, replicate,
}
use pxr_tf.Strings.Names.{
  last_position, rfind, string_get_suffix, string_get_before_suffix, base_name_loop, get_base_name,
  get_path_name,
}

-- The string around the last place.
pub last_position-parts :
    (test : ℕ → Bool) (s : List ℕ) (i : ℕ)
    → last_position test s ≡ some i
    → (c : ℕ) × (s ≡ take i s ++ c ∷ drop (i + 1) s)
      × (test c ≡ true)
      × (last_position test (drop (i + 1) s) ≡ none)
      × (i < length s)
unfolding last_position
last_position-parts test [] i h = cc
last_position-parts test (c ∷ s) i h = elim (Option-cases (last_position test s)) [
  | inl missing ↦
      let t : test c ≡ true = ground (arith, h, missing) in
      let p : i ≡ 0 = ground (arith, h, missing, t) in rw p (c, refl, t, missing, omega arith)
  | inr (j, found) ↦
      let p : i ≡ suc j = ground (arith, h, found) in
      let (d, e, t, l, lt) = last_position-parts test s j found in
      let m : suc j + 1 ≡ suc (j + 1) = omega arith in
      rw (p, m) (d, ap (◌∷◌ c) e, t, l, omega (arith, lt))
]

pub take-all : (s : List ℕ) → take (length s) s ≡ s
take-all [] = refl
take-all (c ∷ s) = ap (◌∷◌ c) (take-all s)

pub last_position-snoc :
    (test : ℕ → Bool) (s : List ℕ) (c : ℕ)
    → test c ≡ true
    → last_position test (s ++ c ∷ []) ≡ some (length s)
unfolding last_position
last_position-snoc test [] c h = rw h refl
last_position-snoc test (d ∷ s) c h = rw (last_position-snoc test s c h) refl

-- `base` is the last part of `name` between slashes: a directory, which is empty or ends in a slash,
-- stands before it, and slashes alone behind it; it is empty only if the directory is.
abbrev pub IsBase : List ℕ → List ℕ → Type 0
IsBase name base =
    (dir : List ℕ) × (k : ℕ) × (name ≡ dir ++ (base ++ replicate k b'/'))
    × (get_path_name dir ≡ dir)
    × (rfind b'/' base ≡ none)
    × ((0 < length base) ⊎ (dir ≡ []))

replicate-snoc : (k d : ℕ) → replicate k d ++ d ∷ [] ≡ replicate (suc k) d
replicate-snoc zero d = refl
replicate-snoc (suc k) d = ap (◌∷◌ d) (replicate-snoc k d)

pub drop-all : (n : ℕ) (s : List ℕ) → length s ≤ n → drop n s ≡ []
drop-all zero [] h = refl
drop-all zero (c ∷ s) h = absurd (omega arith)
drop-all (suc n) [] h = refl
drop-all (suc n) (c ∷ s) h = drop-all n s (omega arith)

path_name-snoc : (s : List ℕ) → get_path_name (s ++ b'/' ∷ []) ≡ s ++ b'/' ∷ []
unfolding get_path_name
path_name-snoc s =
    rw (last_position-snoc (λ c. c == b'/') s b'/' refl, get_path_name)
      (ap (λ n. take n (s ++ b'/' ∷ [])) (omega (arith, length-append s (b'/' ∷ [])))
        ∙ take-all (s ++ b'/' ∷ []))

base_name_loop-IsBase :
    (fuel : ℕ) (name : List ℕ) → length name < fuel → IsBase name (base_name_loop fuel name)
unfolding base_name_loop get_path_name
base_name_loop-IsBase zero name lt = absurd (omega arith)
base_name_loop-IsBase (suc fuel) name lt = elim (Option-cases (rfind b'/' name)) [
  | inl missing ↦
      rw (missing, base_name_loop) ([], 0, sym (append-nil name), refl, missing, inr refl)
  | inr (i, found) ↦
      let (c, whole, slash, clean, inside) = last_position-parts (λ c. c == b'/') name i found in
      let at_c : c ≡ b'/' = ground (arith, slash) in
      elim (Bool-cases (i == length name - 1)) [
        | inl last ↦
            let shorter = take i name in
            let (dir, k, e, path, lacks, some_base) =
              base_name_loop-IsBase fuel shorter (omega (arith, lt, inside, length-take i name)) in
            let base = base_name_loop fuel shorter in
            let none_left : drop (i + 1) name ≡ [] =
              drop-all (i + 1) name (ground (arith, last, inside)) in
            rw (found, last, base_name_loop)
              (
                dir,
                suc k,
                whole
                    ∙ ap₂ (λ x t. shorter ++ x ∷ t) at_c none_left
                    ∙ ap (λ t. t ++ b'/' ∷ []) e
                    ∙ append_assoc dir (base ++ replicate k b'/') (b'/' ∷ [])
                    ∙ ap (λ t. dir ++ t) (append_assoc base (replicate k b'/') (b'/' ∷ []))
                    ∙ ap (λ t. dir ++ (base ++ t)) (replicate-snoc k b'/'),
                path,
                lacks,
                some_base,
              )
        | inr before ↦
            rw (found, before, base_name_loop)
              (
                take i name ++ b'/' ∷ [],
                0,
                whole
                    ∙ ap₂ (λ x t. take i name ++ x ∷ t) at_c (sym (append-nil (drop (i + 1) name)))
                    ∙ sym (append_assoc (take i name) (b'/' ∷ []) (drop (i + 1) name ++ [])),
                path_name-snoc (take i name),
                clean,
                inl (ground (arith, before, inside, length-drop (i + 1) name)),
              )
      ]
]

suffix-parts :
    (name : List ℕ) (d : ℕ)
    → (string_get_before_suffix name d
          ++ elim (rfind d name) [ none ↦ [] | some i ↦ d ∷ string_get_suffix name d ]
        ≡ name)
      × (rfind d (string_get_suffix name d) ≡ none)
unfolding string_get_before_suffix string_get_suffix last_position
suffix-parts name d = elim (Option-cases (rfind d name)) [
  | inl missing ↦ rw (missing, string_get_before_suffix, string_get_suffix) (append-nil name, refl)
  | inr (i, found) ↦
      let (c, whole, same, clean, inside) = last_position-parts (λ c. c == d) name i found in
      let at_c : d ≡ c = ground (arith, same) in
      let before : string_get_before_suffix name d ≡ take i name =
        rw (found, string_get_before_suffix) refl in
      let suffix : string_get_suffix name d ≡ drop (i + 1) name =
        rw (found, string_get_suffix) refl in
      (
        rw (before, found)
            (ap (λ t. take i name ++ d ∷ t) suffix
              ∙ ap (λ x. take i name ++ x ∷ drop (i + 1) name) at_c
              ∙ sym whole),
        ap (rfind d) suffix ∙ clean,
      )
]

-- TfGetBaseName of a name is its last part between slashes, with no slash in it: behind it stand
-- slashes alone, and before it a directory that TfGetPathName keeps; it is empty only if no
-- directory is before it. The results of TfStringGetBeforeSuffix and TfStringGetSuffix, with the
-- delimiter between them if the name has it, are the name, and the suffix does not have the
-- delimiter.
pub name_parts :
    (name : List ℕ) (d : ℕ)
    → IsBase name (get_base_name name)
      × (string_get_before_suffix name d
            ++ elim (rfind d name) [ none ↦ [] | some i ↦ d ∷ string_get_suffix name d ]
          ≡ name)
      × (rfind d (string_get_suffix name d) ≡ none)
unfolding get_base_name
name_parts name d =
    let (parts, clean) = suffix-parts name d in
    (base_name_loop-IsBase (suc (length name)) name (omega arith), parts, clean)
