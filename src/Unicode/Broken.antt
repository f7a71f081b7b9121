-- ===== src/Unicode/Broken.antt =====
-- tf/unicodeUtils.cpp: sequences that are cut off, at the end of the bytes or by a byte that is no
-- continuation.
use pxr_tf.Base.{ℕ, ◌≤◌, ◌<◌, ◌≡◌, ◌∙◌, false, ◌&&◌, List, [], ◌∷◌, arith, length, dec_lt}
use pxr_tf.Unicode.{
  encoding_length, decode_two, decode_three, decode_four, get_code_point, is_continuation,
  replacement_value,
}
use pxr_tf.Unicode.Lengths.{get_code_point-two, get_code_point-three, get_code_point-four}

-- `_GetCodePoint` gives up.
abbrev pub Fails : List ℕ → Type 0
Fails bytes = get_code_point bytes ≡ replacement_value

pub Fails-short : (bytes : List ℕ) → length bytes < encoding_length bytes → Fails bytes
unfolding get_code_point
Fails-short bytes h = ground arith

pub Fails-odd : (bytes : List ℕ) → encoding_length bytes ≡ 0 → Fails bytes
unfolding get_code_point
Fails-odd bytes h = ground arith

pub Fails-high : (a : ℕ) (rest : List ℕ) → 248 ≤ a → Fails (a ∷ rest)
unfolding encoding_length
Fails-high a rest lo = Fails-odd (a ∷ rest) (ground arith)

pub Fails-tail : (a : ℕ) (rest : List ℕ) → 128 ≤ a → a < 192 → Fails (a ∷ rest)
unfolding encoding_length
Fails-tail a rest lo hi = Fails-odd (a ∷ rest) (ground arith)

pub Fails-one_left : (a : ℕ) → 192 ≤ a → a < 248 → Fails (a ∷ [])
unfolding encoding_length
Fails-one_left a lo hi = Fails-short (a ∷ []) (ground arith)

pub Fails-two_left : (a b : ℕ) → 224 ≤ a → a < 248 → Fails (a ∷ b ∷ [])
unfolding encoding_length
Fails-two_left a b lo hi = Fails-short (a ∷ b ∷ []) (ground arith)

pub Fails-three_left : (a b c : ℕ) → 240 ≤ a → a < 248 → Fails (a ∷ b ∷ c ∷ [])
unfolding encoding_length
Fails-three_left a b c lo hi = Fails-short (a ∷ b ∷ c ∷ []) (ground arith)

decode_two-cut : (a b : ℕ) → is_continuation b ≡ false → decode_two a b ≡ replacement_value
unfolding decode_two is_continuation
decode_two-cut a b h = ground arith

decode_three-cut :
    (a b c : ℕ)
    → is_continuation b && is_continuation c ≡ false
    → decode_three a b c ≡ replacement_value
unfolding decode_three is_continuation
decode_three-cut a b c h = ground arith

decode_four-cut :
    (a b c d : ℕ)
    → is_continuation b && is_continuation c && is_continuation d ≡ false
    → decode_four a b c d ≡ replacement_value
unfolding decode_four is_continuation
decode_four-cut a b c d h = ground arith

Fails-three_second :
    (a b : ℕ) (rest : List ℕ) → 224 ≤ a → a < 240 → is_continuation b ≡ false → Fails (a ∷ b ∷ rest)
Fails-three_second a b [] lo hi h = Fails-two_left a b lo (omega arith)
Fails-three_second a b (c ∷ rest) lo hi h =
    get_code_point-three a b c rest lo hi ∙ decode_three-cut a b c (ground arith)

Fails-four_second :
    (a b : ℕ) (rest : List ℕ) → 240 ≤ a → a < 248 → is_continuation b ≡ false → Fails (a ∷ b ∷ rest)
Fails-four_second a b [] lo hi h = Fails-two_left a b (omega arith) hi
Fails-four_second a b (c ∷ []) lo hi h = Fails-three_left a b c lo hi
Fails-four_second a b (c ∷ d ∷ rest) lo hi h =
    get_code_point-four a b c d rest lo hi ∙ decode_four-cut a b c d (ground arith)

pub Fails-second :
    (a b : ℕ) (rest : List ℕ) → 192 ≤ a → is_continuation b ≡ false → Fails (a ∷ b ∷ rest)
Fails-second a b rest lo h = elim (dec_lt a 224) [
  | yes two ↦ get_code_point-two a b rest lo two ∙ decode_two-cut a b h
  | no more ↦ elim (dec_lt a 248) [
    | no high ↦ Fails-high a (b ∷ rest) (omega arith)
    | yes within ↦ elim (dec_lt a 240) [
      | yes three ↦ Fails-three_second a b rest (omega arith) three h
      | no four ↦ Fails-four_second a b rest (omega arith) within h
    ]
  ]
]

Fails-four_third :
    (a b c : ℕ) (rest : List ℕ)
    → 240 ≤ a
    → a < 248
    → is_continuation c ≡ false
    → Fails (a ∷ b ∷ c ∷ rest)
Fails-four_third a b c [] lo hi h = Fails-three_left a b c lo hi
Fails-four_third a b c (d ∷ rest) lo hi h =
    get_code_point-four a b c d rest lo hi ∙ decode_four-cut a b c d (ground arith)

pub Fails-third :
    (a b c : ℕ) (rest : List ℕ) → 224 ≤ a → is_continuation c ≡ false → Fails (a ∷ b ∷ c ∷ rest)
Fails-third a b c rest lo h = elim (dec_lt a 248) [
  | no high ↦ Fails-high a (b ∷ c ∷ rest) (omega arith)
  | yes within ↦ elim (dec_lt a 240) [
    | yes three ↦ get_code_point-three a b c rest lo three ∙ decode_three-cut a b c (ground arith)
    | no four ↦ Fails-four_third a b c rest (omega arith) within h
  ]
]

pub Fails-fourth :
    (a b c d : ℕ) (rest : List ℕ)
    → 240 ≤ a
    → is_continuation d ≡ false
    → Fails (a ∷ b ∷ c ∷ d ∷ rest)
Fails-fourth a b c d rest lo h = elim (dec_lt a 248) [
  | no high ↦ Fails-high a (b ∷ c ∷ d ∷ rest) (omega arith)
  | yes within ↦ get_code_point-four a b c d rest lo within ∙ decode_four-cut a b c d (ground arith)
]
