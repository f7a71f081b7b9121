-- ===== src/Strings/Identifiers.antt =====
-- tf/stringUtils.cpp: TfMakeValidIdentifier, and TfIsValidIdentifier of tf/stringUtils.h. Both read
-- `c_str()` up to a zero, which is a zero byte of the string or its end.
use pxr_tf.Base.{
  ℕ, ◌≡◌, refl, Bool, true, false, ◌||◌, ◌&&◌, List, [], ◌∷◌, ◌==◌, if◌then◌else◌, leb, arith,
  Bool-cases, inl, inr,
}
use pxr_tf.Strings.{c_string}
use pxr_tf.Strings.Pieces.{same_string}

pub letter : ℕ → Bool
letter c = leb b'A' c && leb c b'Z' || leb b'a' c && leb c b'z'

pub number : ℕ → Bool
number c = leb b'0' c && leb c b'9'

-- The loop of TfIsValidIdentifier: it leaves at the first byte that is not allowed, and the name is
-- valid if that is a zero.
pub identifier_loop : List ℕ → Bool
unfolding letter number
identifier_loop [] = true
identifier_loop (c ∷ s) =
    let rest = identifier_loop s in if letter c || number c || c == b'_' then rest else c == 0

pub is_valid_identifier : List ℕ → Bool
unfolding identifier_loop
is_valid_identifier [] = false
is_valid_identifier (c ∷ s) = if c == 0 || number c then false else identifier_loop (c ∷ s)

-- The loop of TfMakeValidIdentifier after the first byte.
pub make_loop : List ℕ → List ℕ
unfolding letter number
make_loop [] = []
make_loop (c ∷ s) =
    let rest = make_loop s in
    if c == 0 then [] else (if letter c || number c || c == b'_' then c else b'_') ∷ rest

-- TfMakeValidIdentifier: the first byte is not tested for zero.
pub make_valid_identifier : List ℕ → List ℕ
unfolding make_loop
make_valid_identifier [] = b'_' ∷ []
make_valid_identifier (c ∷ s) = (if letter c || c == b'_' then c else b'_') ∷ make_loop s

identifier_loop-make : (s : List ℕ) → identifier_loop (make_loop s) ≡ true
unfolding identifier_loop make_loop
identifier_loop-make [] = refl
identifier_loop-make (c ∷ s) = elim (Bool-cases (c == 0)) [
  | inl zero_byte ↦ rw zero_byte refl
  | inr more ↦ elim (Bool-cases (letter c || number c || c == b'_')) [
    | inl kept ↦ rw (more, kept, identifier_loop, kept) (identifier_loop-make s)
    | inr lost ↦ rw (more, lost, identifier_loop) (identifier_loop-make s)
  ]
]

same_string-make : (s : List ℕ) → same_string (make_loop s) (c_string s) ≡ identifier_loop s
unfolding identifier_loop make_loop same_string letter number c_string
same_string-make [] = refl
same_string-make (c ∷ s) = ground (arith, same_string-make s)

-- TfMakeValidIdentifier gives a string that TfIsValidIdentifier accepts, and what it gives is the bytes
-- of its argument up to the first zero byte exactly if TfIsValidIdentifier accepts the argument.
pub make_valid_identifier_lem :
    (s : List ℕ)
    → (is_valid_identifier (make_valid_identifier s) ≡ true)
      × (same_string (make_valid_identifier s) (c_string s) ≡ is_valid_identifier s)
unfolding is_valid_identifier make_valid_identifier same_string identifier_loop letter number
    c_string
make_valid_identifier_lem [] = (refl, refl)
make_valid_identifier_lem (c ∷ s) =
    (ground (arith, identifier_loop-make s), ground (arith, same_string-make s))
