-- ===== src/Strings/Pieces/Laws.antt =====
-- tf/stringUtils.cpp: TfStringSplit, TfStringJoin and TfStringReplace together.
use pxr_tf.Base.{
  ℕ, suc, ◌<◌, ◌≡◌, refl, ap, ap₂, ◌∙◌, sym, true, false, ◌||◌, List, [], ◌∷◌, none, length, arith,
  Bool-cases, inl, inr,
}
use pxr_tf.Strings.{find, find_from}
use pxr_tf.Strings.Pieces.{is_empty, same_string, split, join, replace_loop, replace}
use pxr_tf.Strings.Pieces.Found.{find-nil}
use pxr_tf.Strings.Pieces.Walk.{
  pieces, pieces-last, join-pieces, Lack, pieces-Lack, split_loop-pieces, replace_loop-pieces,
}

same_string-eq : (a b : List ℕ) → same_string a b ≡ true → a ≡ b
unfolding same_string
same_string-eq [] [] h = refl
same_string-eq [] (y ∷ ys) h = cc
same_string-eq (x ∷ xs) [] h = cc
same_string-eq (x ∷ xs) (y ∷ ys) h = ap₂ (◌∷◌) (ground arith) (same_string-eq xs ys (ground arith))

is_empty-pos : (s : List ℕ) → 0 < length s → is_empty s ≡ false
unfolding is_empty
is_empty-pos [] h = absurd (omega arith)
is_empty-pos (c ∷ s) h = refl

split-pieces :
    (c : ℕ) (s sep : List ℕ)
    → 0 < length sep
    → split (c ∷ s) sep ≡ pieces (suc (length (c ∷ s))) sep (c ∷ s)
unfolding split is_empty
split-pieces c s sep pos =
    rw (is_empty-pos sep pos, split) (split_loop-pieces (suc (length (c ∷ s))) sep [] (c ∷ s))

-- TfStringSplit by a separator that is not empty gives pieces that do not have the separator, and
-- TfStringJoin with the separator puts the string together again.
join-split :
    (s sep : List ℕ) → 0 < length sep → (join (split s sep) sep ≡ s) × Lack sep (split s sep)
unfolding split join is_empty
join-split [] sep pos = (refl, tt)
join-split (c ∷ s) sep pos =
    let n = suc (length (c ∷ s)) in
    rw (split-pieces c s sep pos)
      (join-pieces n sep (c ∷ s) pos (omega arith), pieces-Lack n sep (c ∷ s) pos)

replace_all :
    (s from to : List ℕ)
    → 0 < length from
    → replace_loop (suc (length s)) s from to 0 ≡ join (split s from) to
unfolding split is_empty join
replace_all [] from to pos =
    replace_loop-pieces 1 from to [] [] pos (omega arith)
    ∙ ap (λ ps. join ps to) (pieces-last 0 from [] (find-nil from pos))
replace_all (c ∷ s) from to pos =
    replace_loop-pieces (suc (length (c ∷ s))) from to [] (c ∷ s) pos (omega arith)
    ∙ ap (λ ps. join ps to) (sym (split-pieces c s from pos))

-- TfStringReplace at a string that is not empty is TfStringJoin, with the replacement, of what
-- TfStringSplit splits at the string.
replace_lem : (s from to : List ℕ) → 0 < length from → replace s from to ≡ join (split s from) to
unfolding replace
replace_lem s from to pos = elim (Bool-cases (same_string from to)) [
  | inl same ↦
      rw (is_empty-pos from pos, same, replace)
        (sym (join-split s from pos).0 ∙ ap (join (split s from)) (same_string-eq from to same))
  | inr differ ↦ rw (is_empty-pos from pos, differ, replace) (replace_all s from to pos)
]

-- Nothing to replace.
pub replace-missing : (s from to : List ℕ) → find from s ≡ none → replace s from to ≡ s
unfolding replace replace_loop find_from
replace-missing s from to missing = elim (Bool-cases (is_empty from || same_string from to)) [
  | inl same ↦ rw (same, replace) refl
  | inr changes ↦ rw (changes, replace, missing, replace_loop) refl
]

-- TfStringSplit by a separator that is not empty gives pieces that do not have the separator;
-- TfStringJoin with the separator puts the string together again; and TfStringReplace of the
-- separator by another string is TfStringJoin with that string.
pub pieces_lem :
    (s sep to : List ℕ)
    → 0 < length sep
    → Lack sep (split s sep)
      × (join (split s sep) sep ≡ s)
      × (replace s sep to ≡ join (split s sep) to)
pieces_lem s sep to pos =
    let (again, lack) = join-split s sep pos in (lack, again, replace_lem s sep to pos)
