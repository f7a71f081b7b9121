-- ===== src/Unicode/Lengths.antt =====
-- tf/unicodeUtils.h, tf/unicodeUtils.cpp: `_GetCodePoint` and `operator++` by the length that the
-- first byte announces.
use pxr_tf.Base.{ℕ, suc, ◌≤◌, ◌<◌, ◌≡◌, refl, List, [], ◌∷◌, arith}
use pxr_tf.Unicode.{
  encoding_length, decode_two, decode_three, decode_four, get_code_point, advance, skip,
  is_continuation,
}

pub get_code_point-one : (a : ℕ) (rest : List ℕ) → a < 128 → get_code_point (a ∷ rest) ≡ a
unfolding get_code_point encoding_length
get_code_point-one a rest h = ground arith

pub get_code_point-two :
    (a b : ℕ) (rest : List ℕ) → 192 ≤ a → a < 224 → get_code_point (a ∷ b ∷ rest) ≡ decode_two a b
unfolding get_code_point encoding_length
get_code_point-two a b rest lo hi = ground arith

pub get_code_point-three :
    (a b c : ℕ) (rest : List ℕ)
    → 224 ≤ a
    → a < 240
    → get_code_point (a ∷ b ∷ c ∷ rest) ≡ decode_three a b c
unfolding get_code_point encoding_length
get_code_point-three a b c rest lo hi = ground arith

pub get_code_point-four :
    (a b c d : ℕ) (rest : List ℕ)
    → 240 ≤ a
    → a < 248
    → get_code_point (a ∷ b ∷ c ∷ d ∷ rest) ≡ decode_four a b c d
unfolding get_code_point encoding_length
get_code_point-four a b c d rest lo hi = ground arith

skip-done : (rest : List ℕ) → skip 1 rest ≡ rest
unfolding skip
skip-done [] = refl
skip-done (c ∷ cs) = refl

skip-more :
    (n c : ℕ) (cs : List ℕ) → 128 ≤ c → c < 192 → skip (suc (suc n)) (c ∷ cs) ≡ skip (suc n) cs
unfolding skip is_continuation
skip-more n c cs lo hi = ground arith

advance-eq : (a : ℕ) (rest : List ℕ) → advance (a ∷ rest) ≡ skip (encoding_length (a ∷ rest)) rest
unfolding advance
advance-eq a rest = refl

pub advance-one : (a : ℕ) (rest : List ℕ) → a < 128 → advance (a ∷ rest) ≡ rest
unfolding advance encoding_length
advance-one a rest h = ground (arith, skip-done rest)

-- A byte that continues an encoding.
abbrev pub IsTail : ℕ → Type 0
IsTail c = (128 ≤ c) × (c < 192)

pub advance-two :
    (a b : ℕ) (rest : List ℕ) → 192 ≤ a → a < 224 → IsTail b → advance (a ∷ b ∷ rest) ≡ rest
unfolding advance encoding_length
advance-two a b rest lo hi tb = ground (arith, skip-more 0 b rest, skip-done rest)

pub advance-three :
    (a b c : ℕ) (rest : List ℕ)
    → 224 ≤ a
    → a < 240
    → IsTail b
    → IsTail c
    → advance (a ∷ b ∷ c ∷ rest) ≡ rest
unfolding advance encoding_length
advance-three a b c rest lo hi tb tc =
    ground (arith, skip-more 1 b (c ∷ rest), skip-more 0 c rest, skip-done rest)

pub advance-four :
    (a b c d : ℕ) (rest : List ℕ)
    → 240 ≤ a
    → a < 248
    → IsTail b
    → IsTail c
    → IsTail d
    → advance (a ∷ b ∷ c ∷ d ∷ rest) ≡ rest
unfolding advance encoding_length
advance-four a b c d rest lo hi tb tc td = ground (
  arith,
  skip-more 2 b (c ∷ d ∷ rest),
  skip-more 1 c (d ∷ rest),
  skip-more 0 d rest,
  skip-done rest,
)
