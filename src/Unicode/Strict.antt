-- ===== src/Unicode/Strict.antt =====
-- tf/unicodeUtils.cpp: the sequences that `_GetCodePoint` accepts.
use pxr_tf.Base.{
  ℕ, ◌+◌, ◌/◌, ◌%◌, ◌≤◌, ◌<◌, ◌≡◌, ◌⊎◌, inl, inr, refl, ◌∙◌, true, List, [], ◌∷◌, ◌++◌, arith,
  length, dec_lt,
}
use pxr_tf.Unicode.{
  is_scalar, encode, encoding_length, decode_two, decode_three, decode_four, get_code_point,
  dereference, advance, code_point, replacement_value,
}
use pxr_tf.Unicode.Lengths.{
  IsTail, get_code_point-one, get_code_point-two, get_code_point-three, get_code_point-four,
  advance-one, advance-two, advance-three, advance-four,
}
use pxr_tf.Unicode.RoundTrip.{dereference-scalar, encode-one, encode-two, encode-three, encode-four}

-- The bytes yield the replacement code point, or they start with the encoding of what they yield.
abbrev pub Accepts : List ℕ → Type 0
Accepts bytes =
    (dereference bytes ≡ replacement_value) ⊎ (bytes ≡ encode (dereference bytes) ++ advance bytes)

dereference-short :
    (bytes : List ℕ) → length bytes < encoding_length bytes → dereference bytes ≡ replacement_value
unfolding dereference code_point get_code_point
dereference-short bytes h = ground arith

dereference-odd :
    (bytes : List ℕ) → encoding_length bytes ≡ 0 → dereference bytes ≡ replacement_value
unfolding dereference code_point get_code_point
dereference-odd bytes h = ground arith

dereference-eq : (bytes : List ℕ) → dereference bytes ≡ code_point (get_code_point bytes)
unfolding dereference
dereference-eq bytes = refl

decode_two-cases :
    (a b : ℕ)
    → (decode_two a b ≡ replacement_value)
      ⊎ (IsTail b
          × (128 ≤ decode_two a b)
          × (decode_two a b < 2048)
          × (a ≡ decode_two a b / 64 + 192)
          × (b ≡ decode_two a b % 64 + 128))
unfolding decode_two
decode_two-cases a b = ground arith

decode_three-cases :
    (a b c : ℕ)
    → 224 ≤ a
    → a < 240
    → (decode_three a b c ≡ replacement_value)
      ⊎ (IsTail b
          × IsTail c
          × (2048 ≤ decode_three a b c)
          × (decode_three a b c < 65536)
          × (is_scalar (decode_three a b c) ≡ true)
          × (a ≡ decode_three a b c / 4096 + 224)
          × (b ≡ decode_three a b c / 64 % 64 + 128)
          × (c ≡ decode_three a b c % 64 + 128))
unfolding decode_three
decode_three-cases a b c lo hi = ground arith

decode_four-cases :
    (a b c d : ℕ)
    → 240 ≤ a
    → a < 248
    → (decode_four a b c d ≡ replacement_value)
      ⊎ (IsTail b
          × IsTail c
          × IsTail d
          × (65536 ≤ decode_four a b c d)
          × (decode_four a b c d < 1114112)
          × (a ≡ decode_four a b c d / 262144 + 240)
          × (b ≡ decode_four a b c d / 4096 % 64 + 128)
          × (c ≡ decode_four a b c d / 64 % 64 + 128)
          × (d ≡ decode_four a b c d % 64 + 128))
unfolding decode_four
decode_four-cases a b c d lo hi = ground arith

-- From a value that the decoder returns: either it is replaced, or the bytes are its encoding.
Accepts-scalar :
    (bytes : List ℕ) (v : ℕ)
    → get_code_point bytes ≡ v
    → is_scalar v ≡ true
    → bytes ≡ encode v ++ advance bytes
    → Accepts bytes
Accepts-scalar bytes v e s h =
    let same : dereference bytes ≡ v = dereference-scalar v bytes s e in inr (rw same h)

Accepts-replaced : (bytes : List ℕ) → get_code_point bytes ≡ replacement_value → Accepts bytes
unfolding dereference code_point
Accepts-replaced bytes h = inl (ground arith)

Accepts-two : (a b : ℕ) (rest : List ℕ) → 192 ≤ a → a < 224 → Accepts (a ∷ b ∷ rest)
Accepts-two a b rest lo hi =
    let e = get_code_point-two a b rest lo hi in
    elim (decode_two-cases a b) [
      | inl bad ↦ Accepts-replaced (a ∷ b ∷ rest) (e ∙ bad)
      | inr (tb, low, high, ea, eb) ↦
          Accepts-scalar (a ∷ b ∷ rest) (decode_two a b) e (ground arith)
            (ground (arith, encode-two (decode_two a b) low high, advance-two a b rest lo hi tb))
    ]

Accepts-three : (a b c : ℕ) (rest : List ℕ) → 224 ≤ a → a < 240 → Accepts (a ∷ b ∷ c ∷ rest)
Accepts-three a b c rest lo hi =
    let e = get_code_point-three a b c rest lo hi in
    elim (decode_three-cases a b c lo hi) [
      | inl bad ↦ Accepts-replaced (a ∷ b ∷ c ∷ rest) (e ∙ bad)
      | inr (tb, tc, low, high, s, ea, eb, ec) ↦
          Accepts-scalar (a ∷ b ∷ c ∷ rest) (decode_three a b c) e s (
            ground (
              arith,
              encode-three (decode_three a b c) low high,
              advance-three a b c rest lo hi tb tc,
            ))
    ]

Accepts-four : (a b c d : ℕ) (rest : List ℕ) → 240 ≤ a → a < 248 → Accepts (a ∷ b ∷ c ∷ d ∷ rest)
Accepts-four a b c d rest lo hi =
    let e = get_code_point-four a b c d rest lo hi in
    elim (decode_four-cases a b c d lo hi) [
      | inl bad ↦ Accepts-replaced (a ∷ b ∷ c ∷ d ∷ rest) (e ∙ bad)
      | inr (tb, tc, td, low, high, ea, eb, ec, ed) ↦
          Accepts-scalar (a ∷ b ∷ c ∷ d ∷ rest) (decode_four a b c d) e (ground arith) (
            ground (
              arith,
              encode-four (decode_four a b c d) low high,
              advance-four a b c d rest lo hi tb tc td,
            ))
    ]

Accepts-one : (a : ℕ) (rest : List ℕ) → a < 128 → Accepts (a ∷ rest)
Accepts-one a rest h =
    Accepts-scalar (a ∷ rest) a (get_code_point-one a rest h) (ground arith)
      (ground (arith, encode-one a h, advance-one a rest h))

-- A byte that announces a length, where the bytes are fewer, and one that announces none.
Accepts-short : (bytes : List ℕ) → length bytes < encoding_length bytes → Accepts bytes
Accepts-short bytes h = inl (dereference-short bytes h)

Accepts-odd : (bytes : List ℕ) → encoding_length bytes ≡ 0 → Accepts bytes
Accepts-odd bytes h = inl (dereference-odd bytes h)

Accepts-short_two : (a : ℕ) → 192 ≤ a → Accepts (a ∷ [])
unfolding encoding_length
Accepts-short_two a lo = elim (dec_lt a 248) [
  | yes hi ↦ Accepts-short (a ∷ []) (ground arith)
  | no out ↦ Accepts-odd (a ∷ []) (ground arith)
]

Accepts-short_three : (a b : ℕ) → 224 ≤ a → Accepts (a ∷ b ∷ [])
unfolding encoding_length
Accepts-short_three a b lo = elim (dec_lt a 248) [
  | yes hi ↦ Accepts-short (a ∷ b ∷ []) (ground arith)
  | no out ↦ Accepts-odd (a ∷ b ∷ []) (ground arith)
]

Accepts-short_four : (a b c : ℕ) → 240 ≤ a → Accepts (a ∷ b ∷ c ∷ [])
unfolding encoding_length
Accepts-short_four a b c lo = elim (dec_lt a 248) [
  | yes hi ↦ Accepts-short (a ∷ b ∷ c ∷ []) (ground arith)
  | no out ↦ Accepts-odd (a ∷ b ∷ c ∷ []) (ground arith)
]

Accepts-odd_tail : (a : ℕ) (rest : List ℕ) → 128 ≤ a → a < 192 → Accepts (a ∷ rest)
unfolding encoding_length
Accepts-odd_tail a rest lo hi = Accepts-odd (a ∷ rest) (ground arith)

Accepts-odd_high : (a : ℕ) (rest : List ℕ) → 248 ≤ a → Accepts (a ∷ rest)
unfolding encoding_length
Accepts-odd_high a rest lo = Accepts-odd (a ∷ rest) (ground arith)

Accepts-from_two : (a : ℕ) (rest : List ℕ) → 192 ≤ a → a < 224 → Accepts (a ∷ rest)
Accepts-from_two a [] lo hi = Accepts-short_two a lo
Accepts-from_two a (b ∷ rest) lo hi = Accepts-two a b rest lo hi

Accepts-from_three : (a : ℕ) (rest : List ℕ) → 224 ≤ a → a < 240 → Accepts (a ∷ rest)
Accepts-from_three a [] lo hi = Accepts-short_two a (omega arith)
Accepts-from_three a (b ∷ []) lo hi = Accepts-short_three a b lo
Accepts-from_three a (b ∷ c ∷ rest) lo hi = Accepts-three a b c rest lo hi

Accepts-from_four : (a : ℕ) (rest : List ℕ) → 240 ≤ a → a < 248 → Accepts (a ∷ rest)
Accepts-from_four a [] lo hi = Accepts-short_two a (omega arith)
Accepts-from_four a (b ∷ []) lo hi = Accepts-short_three a b (omega arith)
Accepts-from_four a (b ∷ c ∷ []) lo hi = Accepts-short_four a b c lo
Accepts-from_four a (b ∷ c ∷ d ∷ rest) lo hi = Accepts-four a b c d rest lo hi

-- The iterator at any bytes yields the replacement code point, or the bytes are the encoding of
-- the code point that it yields followed by those to which it moves on.
pub dereference-Accepts : (bytes : List ℕ) → Accepts bytes
unfolding encoding_length
dereference-Accepts [] = Accepts-odd [] refl
dereference-Accepts (a ∷ rest) = elim (dec_lt a 128) [
  | yes one ↦ Accepts-one a rest one
  | no more ↦ elim (dec_lt a 192) [
    | yes tail ↦ Accepts-odd_tail a rest (omega arith) tail
    | no first ↦ elim (dec_lt a 224) [
      | yes two ↦ Accepts-from_two a rest (omega arith) two
      | no more' ↦ elim (dec_lt a 240) [
        | yes three ↦ Accepts-from_three a rest (omega arith) three
        | no four ↦ elim (dec_lt a 248) [
          | yes within ↦ Accepts-from_four a rest (omega arith) within
          | no high ↦ Accepts-odd_high a rest (omega arith)
        ]
      ]
    ]
  ]
]
