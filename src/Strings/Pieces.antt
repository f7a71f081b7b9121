-- ===== src/Strings/Pieces.antt =====
-- tf/stringUtils.cpp: TfStringSplit, TfStringJoin and TfStringReplace. The loops run on fuel, one
-- more than the length of the string.
pub mod Found
pub mod Walk
pub mod Laws
use pxr_tf.Base.{
  ℕ, zero, suc, ◌+◌, ◌-◌, Bool, true, false, ◌||◌, List, [], ◌∷◌, ◌++◌, Option, none, some, ◌==◌,
  if◌then◌else◌, length, take, drop,
}
use pxr_tf.Strings.{find_from}

pub is_empty : List ℕ → Bool
is_empty [] = true
is_empty (c ∷ s) = false

unfoldable pub same_string : List ℕ → List ℕ → Bool
same_string [] [] = true
same_string [] (y ∷ ys) = false
same_string (x ∷ xs) [] = false
same_string (x ∷ xs) (y ∷ ys) = let rest = same_string xs ys in if x == y then rest else false

-- TfStringSplit
pub split_loop : ℕ → List ℕ → List ℕ → ℕ → List (List ℕ)
unfolding find_from
split_loop zero src separator from = []
split_loop (suc fuel) src separator from = elim (find_from src separator from) [
  | none ↦ drop from src ∷ []
  | some pos ↦
      take (pos - from) (drop from src) ∷ split_loop fuel src separator (pos + length separator)
]

pub split : List ℕ → List ℕ → List (List ℕ)
unfolding split_loop is_empty
split src separator =
    if is_empty src || is_empty separator then [] else split_loop (suc (length src)) src separator 0

-- TfStringJoin
pub join : List (List ℕ) → List ℕ → List ℕ
join [] separator = []
join (s ∷ []) separator = s
join (s ∷ t ∷ ts) separator = s ++ (separator ++ join (t ∷ ts) separator)

-- TfStringReplace
pub replace_loop : ℕ → List ℕ → List ℕ → List ℕ → ℕ → List ℕ
unfolding find_from
replace_loop zero result from to pos = result
replace_loop (suc fuel) result from to pos = elim (find_from result from pos) [
  | none ↦ result
  | some p ↦
      replace_loop fuel (take p result ++ (to ++ drop (p + length from) result)) from to
        (p + length to)
]

pub replace : List ℕ → List ℕ → List ℕ → List ℕ
unfolding replace_loop is_empty same_string
replace source from to =
    if is_empty from || same_string from to
    then source
    else replace_loop (suc (length source)) source from to 0
