-- ===== src/CompressedBits/Text/RoundTrip.antt =====
-- tf/compressedBits.cpp: reading of both texts.
use pxr_tf.Base.{ℕ, ◌^◌, ◌≤◌, ◌<◌, ◌≡◌, refl, ap, ◌∙◌, sym, List, [], ◌∷◌, arith, dec_lt, map}
use pxr_tf.CompressedBits.Defs.{CompressedBits, IsValid, decode, sum, AllPos}
use pxr_tf.CompressedBits.Queries.Search.{IsValid-pos}
use pxr_tf.CompressedBits.Text.{as_string_left_to_right, as_rle_string, from_string}
use pxr_tf.CompressedBits.Text.RunLengths.{from_rle-Holds, from_string-rle, tokenize-rle_string}
use pxr_tf.CompressedBits.Text.Binary.{Holds-eq, char, string_left_to_right, binary_round_trip}

rle_round_trip :
    (c : CompressedBits) (p : ℕ) (ps : List ℕ)
    → IsValid c
    → c.platforms ≡ p ∷ ps
    → 4 < c.num
    → c.num < 2 ^ 31
    → from_string (as_rle_string c) ≡ c
rle_round_trip c p ps v e large h =
    from_string-rle (as_rle_string c) c _ _
      (tokenize-rle_string c p ps e large (ground (arith, v.total)))
      (Holds-eq c _ v (rw e (from_rle-Holds c.running_bit (p ∷ ps) pos (ground (arith, v.total)))))
      (omega arith)
  where
    pos : AllPos (p ∷ ps)
    pos = ground (arith, IsValid-pos c v)

short_rle :
    (c : CompressedBits) → 0 < c.num → c.num ≤ 4 → as_rle_string c ≡ as_string_left_to_right c
unfolding as_rle_string
short_rle c pos h = ground arith

empty_rle : (c : CompressedBits) → c.num ≡ 0 → as_rle_string c ≡ []
unfolding as_rle_string
empty_rle c h = ground arith

no_bits : (c : CompressedBits) → IsValid c → c.num ≡ 0 → decode c ≡ []
no_bits c v h = ground (arith, v.shape)

platforms-cons : (ps : List ℕ) → 0 < sum ps → (p : ℕ) × (qs : List ℕ) × (ps ≡ p ∷ qs)
platforms-cons [] h = absurd (omega arith)
platforms-cons (p ∷ qs) h = (p, qs, refl)

-- `FromString` reads a valid array whose size an `int` holds back from both of its texts, the
-- run-length text and the text of its bits from left to right.
pub string_round_trip :
    (c : CompressedBits)
    → IsValid c
    → c.num < 2 ^ 31
    → (from_string (as_rle_string c) ≡ c) × (from_string (as_string_left_to_right c) ≡ c)
string_round_trip c v h = (rle, ap from_string (string_left_to_right c) ∙ binary)
  where
    binary : from_string (map char (decode c)) ≡ c
    binary = binary_round_trip c v

    rle : from_string (as_rle_string c) ≡ c
    rle = elim (dec_lt 4 c.num) [
      | yes large ↦
          let (p, ps, e) = platforms-cons c.platforms (omega (arith, v.total)) in
          rle_round_trip c p ps v e large h
      | no small ↦ elim (dec_lt 0 c.num) [
        | yes some_bits ↦
            ap from_string (short_rle c some_bits (omega arith) ∙ string_left_to_right c) ∙ binary
        | no empty ↦
            ap from_string
              (empty_rle c (omega arith) ∙ ap (map char) (sym (no_bits c v (omega arith))))
            ∙ binary
      ]
    ]
