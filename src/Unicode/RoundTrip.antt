-- ===== src/Unicode/RoundTrip.antt =====
-- tf/unicodeUtils.h, tf/unicodeUtils.cpp: decoding of what `operator<<` encodes.
use pxr_tf.Base.{
  ℕ, zero, suc, ◌+◌, ◌/◌, ◌%◌, ◌≤◌, ◌<◌, ◌≡◌, refl, ap, ap₂, ◌∙◌, true, List, [], ◌∷◌, ◌++◌, arith,
  length, length-append, dec_lt,
}
use pxr_tf.Unicode.{
  is_scalar, encode, decode_two, decode_three, decode_four, get_code_point, dereference, advance,
  code_points, code_points_in, code_point,
}
use pxr_tf.Unicode.Words.{or_bits-128, or_bits-192, or_bits-224, or_bits-240}
use pxr_tf.Unicode.Lengths.{
  get_code_point-one, get_code_point-two, get_code_point-three, get_code_point-four, advance-one,
  advance-two, advance-three, advance-four,
}

pub encode-one : (v : ℕ) → v < 128 → encode v ≡ v ∷ []
unfolding encode
encode-one v h = ground arith

pub encode-two : (v : ℕ) → 128 ≤ v → v < 2048 → encode v ≡ (v / 64 + 192) ∷ (v % 64 + 128) ∷ []
unfolding encode
encode-two v lo hi =
    ground (arith, or_bits-192 (v / 64) (omega arith), or_bits-128 (v % 64) (omega arith))

pub encode-three :
    (v : ℕ)
    → 2048 ≤ v
    → v < 65536
    → encode v ≡ (v / 4096 + 224) ∷ (v / 64 % 64 + 128) ∷ (v % 64 + 128) ∷ []
unfolding encode
encode-three v lo hi = ground (
  arith,
  or_bits-224 (v / 4096) (omega arith),
  or_bits-128 (v / 64 % 64) (omega arith),
  or_bits-128 (v % 64) (omega arith),
)

pub encode-four :
    (v : ℕ)
    → 65536 ≤ v
    → v < 1114112
    → encode v
      ≡ (v / 262144 + 240) ∷ (v / 4096 % 64 + 128) ∷ (v / 64 % 64 + 128) ∷ (v % 64 + 128) ∷ []
unfolding encode
encode-four v lo hi = ground (
  arith,
  or_bits-240 (v / 262144) (omega arith),
  or_bits-128 (v / 4096 % 64) (omega arith),
  or_bits-128 (v / 64 % 64) (omega arith),
  or_bits-128 (v % 64) (omega arith),
)

-- The first code point of the bytes is `v`, and the iterator moves on to `rest`.
pub record Reads (v : ℕ) (bytes rest : List ℕ) : Type 0 where
  pub value : dereference bytes ≡ v
  pub next : advance bytes ≡ rest

pub dereference-scalar :
    (v : ℕ) (bytes : List ℕ) → is_scalar v ≡ true → get_code_point bytes ≡ v → dereference bytes ≡ v
unfolding dereference code_point
dereference-scalar v bytes s h = ground arith

decode_two-split : (v : ℕ) → 128 ≤ v → v < 2048 → decode_two (v / 64 + 192) (v % 64 + 128) ≡ v
unfolding decode_two
decode_two-split v lo hi = ground arith

decode_three-split :
    (v : ℕ)
    → 2048 ≤ v
    → v < 65536
    → is_scalar v ≡ true
    → decode_three (v / 4096 + 224) (v / 64 % 64 + 128) (v % 64 + 128) ≡ v
unfolding decode_three
decode_three-split v lo hi s = ground arith

decode_four-split :
    (v : ℕ)
    → 65536 ≤ v
    → v < 1114112
    → decode_four (v / 262144 + 240) (v / 4096 % 64 + 128) (v / 64 % 64 + 128) (v % 64 + 128) ≡ v
unfolding decode_four
decode_four-split v lo hi = ground arith

module _ (v : ℕ) (rest : List ℕ) (s : is_scalar v ≡ true) where
  Reads-one : v < 128 → Reads v (encode v ++ rest) rest
  Reads-one h = rw (encode-one v h) (record {
    value = dereference-scalar v (v ∷ rest) s (get_code_point-one v rest h);
    next = advance-one v rest h;
  })

  Reads-two : 128 ≤ v → v < 2048 → Reads v (encode v ++ rest) rest
  Reads-two lo hi = rw (encode-two v lo hi) (record {
    value = dereference-scalar v _ s (
        get_code_point-two (v / 64 + 192) (v % 64 + 128) rest (omega arith) (omega arith)
        ∙ decode_two-split v lo hi);
    next =
        advance-two (v / 64 + 192) (v % 64 + 128) rest (omega arith) (omega arith)
          (omega arith, omega arith);
  })

  Reads-three : 2048 ≤ v → v < 65536 → Reads v (encode v ++ rest) rest
  Reads-three lo hi = rw (encode-three v lo hi) (record {
    value = dereference-scalar v _ s (
        get_code_point-three (v / 4096 + 224) (v / 64 % 64 + 128) (v % 64 + 128) rest (omega arith)
          (omega arith)
        ∙ decode_three-split v lo hi s);
    next =
        advance-three (v / 4096 + 224) (v / 64 % 64 + 128) (v % 64 + 128) rest (omega arith)
          (omega arith) (omega arith, omega arith) (omega arith, omega arith);
  })

  Reads-four : 65536 ≤ v → v < 1114112 → Reads v (encode v ++ rest) rest
  Reads-four lo hi = rw (encode-four v lo hi) (record {
    value = dereference-scalar v _ s (
        get_code_point-four (v / 262144 + 240) (v / 4096 % 64 + 128) (v / 64 % 64 + 128)
          (v % 64 + 128) rest (omega arith) (omega arith)
        ∙ decode_four-split v lo hi);
    next =
        advance-four (v / 262144 + 240) (v / 4096 % 64 + 128) (v / 64 % 64 + 128) (v % 64 + 128)
          rest (omega arith) (omega arith) (omega arith, omega arith) (omega arith, omega arith)
          (omega arith, omega arith);
  })

  -- The iterator at the encoding of a code point that TfUtf8CodePoint keeps yields this code point
  -- and moves on to the bytes behind its encoding.
  pub encode-Reads : Reads v (encode v ++ rest) rest
  encode-Reads = elim (dec_lt v 128) [
    | yes one ↦ Reads-one one
    | no more ↦ elim (dec_lt v 2048) [
      | yes two ↦ Reads-two (omega arith) two
      | no more' ↦ elim (dec_lt v 65536) [
        | yes three ↦ Reads-three (omega arith) three
        | no four ↦ Reads-four (omega arith) (ground arith)
      ]
    ]
  ]

-- The bytes of a string of code points, as a stream collects them.
abbrev pub encode_all : List ℕ → List ℕ
encode_all [] = []
encode_all (v ∷ vs) = encode v ++ encode_all vs

abbrev pub AllScalar : List ℕ → Type 0
AllScalar [] = Unit {0}
AllScalar (v ∷ vs) = (is_scalar v ≡ true) × AllScalar vs

code_points_in-step :
    (fuel : ℕ) (v : ℕ) (bytes rest : List ℕ)
    → 0 < length bytes
    → Reads v bytes rest
    → code_points_in (suc fuel) bytes ≡ v ∷ code_points_in fuel rest
unfolding code_points_in
code_points_in-step fuel v [] rest pos r = absurd (omega arith)
code_points_in-step fuel v (x ∷ xs) rest pos r = ap₂ ◌∷◌ r.value (ap (code_points_in fuel) r.next)

encode-pos : (v : ℕ) → 0 < length (encode v)
unfolding encode
encode-pos v = ground arith

code_points_in-encode :
    (fuel : ℕ) (vs : List ℕ)
    → AllScalar vs
    → length (encode_all vs) ≤ fuel
    → code_points_in fuel (encode_all vs) ≡ vs
unfolding code_points_in
code_points_in-encode zero [] s h = refl
code_points_in-encode (suc fuel) [] s h = refl
code_points_in-encode zero (v ∷ vs) s h =
    absurd (omega (arith, encode-pos v, length-append (encode v) (encode_all vs)))
code_points_in-encode (suc fuel) (v ∷ vs) s h =
    code_points_in-step fuel v (encode v ++ encode_all vs) (encode_all vs)
      (omega (arith, encode-pos v, length-append (encode v) (encode_all vs)))
      (encode-Reads v (encode_all vs) s.0)
    ∙ ap (λ xs. v ∷ xs)
        (code_points_in-encode fuel vs s.1
          (omega (arith, encode-pos v, length-append (encode v) (encode_all vs))))

-- The view of the encoding of a string of code points that TfUtf8CodePoint keeps yields the string.
pub code_points-encode : (vs : List ℕ) → AllScalar vs → code_points (encode_all vs) ≡ vs
unfolding code_points
code_points-encode vs s = code_points_in-encode (length (encode_all vs)) vs s (omega arith)
