-- ===== src/Strings.antt =====
-- tf/stringUtils.cpp: searches in a string, as std::string has them. A string is the list of its
-- bytes, which may be zero; a function that reads its `c_str()` meets a zero also where the list ends.
-- A `const char *` argument is the list of the bytes before its zero, and none of them is zero.
pub mod Numbers
pub mod Printed
pub mod Pieces
pub mod Tokens
pub mod Quoted
pub mod Escape
pub mod Names
pub mod Identifiers
mod Tests
use pxr_tf.Base.{
  ℕ, zero, suc, ◌+◌, Bool, true, false, ◌||◌, List, [], ◌∷◌, Option, none, some, ◌==◌,
  if◌then◌else◌, drop,
}

-- The bytes of a string up to its first zero: what `c_str()` is as a C string.
pub c_string : List ℕ → List ℕ
c_string [] = []
c_string (c ∷ s) = let rest = c_string s in if c == 0 then [] else c ∷ rest

pub starts_with : List ℕ → List ℕ → Bool
starts_with [] s = true
starts_with (x ∷ xs) [] = false
starts_with (x ∷ xs) (y ∷ ys) = let rest = starts_with xs ys in if x == y then rest else false

-- The first position where `pattern` stands in a string, and `find` from a position on.
pub find : List ℕ → List ℕ → Option ℕ
unfolding starts_with
find pattern [] = if starts_with pattern [] then some 0 else none
find pattern (c ∷ s) =
    let rest = find pattern s in
    if starts_with pattern (c ∷ s)
    then some 0
    else elim rest [ none ↦ none | some i ↦ some (suc i) ]

pub find_from : List ℕ → List ℕ → ℕ → Option ℕ
unfolding find
find_from s pattern from = elim (find pattern (drop from s)) [
  | none ↦ none
  | some i ↦ some (from + i)
]
