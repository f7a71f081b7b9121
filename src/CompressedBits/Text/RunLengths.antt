-- ===== src/CompressedBits/Text/RunLengths.antt =====
-- tf/compressedBits.cpp: reading of the run-length text.
use pxr_tf.Base.{
  ℕ, ◌+◌, ◌-◌, ◌%◌, ◌^◌, ◌<◌, ◌≡◌, refl, ap, ◌∙◌, Bool, true, false, not, List, [], ◌∷◌, ◌++◌,
  arith, leb, ◌==◌, append_assoc, append-nil, length, length-append, length-replicate, replicate,
}
use pxr_tf.CompressedBits.Defs.{
  CompressedBits, IsValid, decode, expand, sum, AllPos, cleared, cleared-IsValid,
}
use pxr_tf.CompressedBits.Expand.{length-decode}
use pxr_tf.CompressedBits.Positions.{bit_at, bits-ext}
use pxr_tf.CompressedBits.Queries.{bit_num}
use pxr_tf.CompressedBits.Editing.{append}
use pxr_tf.CompressedBits.Editing.Back.{bit_at-append, bit_at-replicate}
use pxr_tf.CompressedBits.Editing.Resize.{Yields}
use pxr_tf.CompressedBits.Editing.Append.{extended, append-Yields}
use pxr_tf.CompressedBits.Text.{
  int_to_string, rle_platforms, as_rle_string, tokenize, append_tokens, from_rle_tokens,
  append_chars, from_string,
}
use pxr_tf.CompressedBits.Text.Digits.{tokenize-int_to_string}

-- A valid array with the bits `xs`.
pub record Holds (xs : List Bool) (c : CompressedBits) : Type 0 where
  pub valid : IsValid c
  pub bits : decode c ≡ xs

-- `Append` adds its bits at the end.
pub append-Holds :
    (xs : List Bool) (c : CompressedBits) (n : ℕ) (value : Bool)
    → Holds xs c
    → length xs + n < 2 ^ 32
    → Holds (xs ++ replicate n value) (append c n value)
append-Holds xs c n value h fits = record {
  valid = y.valid;
  bits =
      bits-ext (decode (append c n value)) (xs ++ replicate n value)
        (omega (
          arith,
          length-decode (append c n value) y.valid,
          y.sized,
          size,
          length-append {0} xs (replicate n value),
          length-replicate {0} n value,
        ))
        (λ i.
          y.bits i
          ∙ ground (
            arith,
            ap (λ zs. bit_at zs i) h.bits,
            size,
            bit_at-append xs (replicate n value) i,
            bit_at-replicate n value (i - length xs),
          ));
}
  where
    size : c.num ≡ length xs
    size = omega (arith, length-decode c h.valid, ap length h.bits)

    y : Yields (c.num + n) (extended c n value) (append c n value)
    y = append-Yields c n value h.valid (omega (arith, size))

-- The tokens of a word array: bits and lengths in turn.
abbrev pub pairs_of : Bool → List ℕ → List ℕ
pairs_of b [] = []
pairs_of b (p ∷ ps) = bit_num b ∷ p ∷ pairs_of (not b) ps

pub tokenize-dash :
    (done : List ℕ) (last : ℕ) (cs : List ℕ)
    → tokenize true done last (b'-' ∷ cs) ≡ tokenize false (done ++ last ∷ []) 0 cs
unfolding tokenize
tokenize-dash done last cs = refl

pub tokenize-x :
    (done : List ℕ) (last : ℕ) (cs : List ℕ)
    → tokenize false done last (b'x' ∷ cs) ≡ tokenize true (done ++ last ∷ []) 0 cs
unfolding tokenize
tokenize-x done last cs = refl

pub bit_small : (b : Bool) → bit_num b < 2 ^ 31
bit_small true = omega arith
bit_small false = omega arith

pub append_tokens-step :
    (c : CompressedBits) (b : Bool) (p : ℕ) (ts : List ℕ)
    → 0 < p
    → append_tokens c (bit_num b ∷ p ∷ ts) ≡ append_tokens (append c p b) ts
unfolding append_tokens
append_tokens-step c true p ts h = ground arith
append_tokens-step c false p ts h = ground arith

pub append_tokens-Holds :
    (xs : List Bool) (c : CompressedBits) (b : Bool) (ps : List ℕ)
    → Holds xs c
    → AllPos ps
    → length xs + sum ps < 2 ^ 32
    → Holds (xs ++ expand b ps) (append_tokens c (pairs_of b ps))
append_tokens-Holds xs c b [] h pos fits = rw (append-nil xs) (unfold append_tokens in h)
append_tokens-Holds xs c b (p ∷ ps) h pos fits =
    rw
      (
        append_tokens-step c b p (pairs_of (not b) ps) pos.0,
        ← append_assoc xs (replicate p b) (expand (not b) ps),
      )
      (append_tokens-Holds (xs ++ replicate p b) (append c p b) (not b) ps
        (append-Holds xs c p b h (omega arith)) pos.1
        (omega (arith, length-append {0} xs (replicate p b), length-replicate {0} p b)))

-- The tokens of the run-length text.
pub tokenize-rle_platforms :
    (done : List ℕ) (last : ℕ) (b : Bool) (ps : List ℕ)
    → sum ps < 2 ^ 31
    → tokenize true done last (rle_platforms b ps) ≡ done ++ last ∷ pairs_of b ps
unfolding rle_platforms
tokenize-rle_platforms done last b [] h = unfold tokenize in refl
tokenize-rle_platforms done last b (p ∷ ps) h =
    tokenize-dash done last
      (int_to_string (bit_num b) ++ b'x' ∷ (int_to_string p ++ rle_platforms (not b) ps))
    ∙ tokenize-int_to_string false (done ++ last ∷ []) (bit_num b) _ (bit_small b)
    ∙ tokenize-x (done ++ last ∷ []) (bit_num b) (int_to_string p ++ rle_platforms (not b) ps)
    ∙ tokenize-int_to_string true ((done ++ last ∷ []) ++ bit_num b ∷ []) p _ (omega arith)
    ∙ tokenize-rle_platforms ((done ++ last ∷ []) ++ bit_num b ∷ []) p (not b) ps (omega arith)
    ∙ simp append_assoc

pub pairs_even : (b : Bool) (ps : List ℕ) → length (pairs_of b ps) % 2 ≡ 0
pairs_even b [] = refl
pairs_even b (p ∷ ps) = omega (arith, pairs_even (not b) ps)

pub empty-Holds : Holds [] (cleared 0)
unfolding cleared
empty-Holds = record { valid = cleared-IsValid 0 (omega arith); bits = refl }

pub from_rle-Holds :
    (b : Bool) (ps : List ℕ)
    → AllPos ps
    → sum ps < 2 ^ 32
    → Holds (expand b ps) (from_rle_tokens (pairs_of b ps))
unfolding from_rle_tokens
from_rle-Holds b ps pos fits =
    let even : (length (pairs_of b ps) % 2 == 1) ≡ false = ground (arith, pairs_even b ps) in
    rw even (append_tokens-Holds [] (cleared 0) b ps empty-Holds pos (omega arith))

-- A run-length text is read as a run-length text.
pub from_string-rle :
    (source : List ℕ) (c : CompressedBits) (t : ℕ) (ts : List ℕ)
    → tokenize false [] 0 source ≡ t ∷ ts
    → from_rle_tokens (t ∷ ts) ≡ c
    → 0 < c.num
    → from_string source ≡ c
unfolding from_string
from_string-rle source c t ts e r pos = rw (e, from_string) (ground arith)

-- A text that is no run-length text is read as zeros and ones.
pub from_string-binary :
    (source : List ℕ) (t : ℕ)
    → tokenize false [] 0 source ≡ t ∷ []
    → from_string source ≡ append_chars (cleared 0) source
unfolding from_string from_rle_tokens cleared
from_string-binary source t e = rw (e, from_string)

pub tokenize-rle_string :
    (c : CompressedBits) (p : ℕ) (ps : List ℕ)
    → c.platforms ≡ p ∷ ps
    → 4 < c.num
    → sum (p ∷ ps) < 2 ^ 31
    → tokenize false [] 0 (as_rle_string c) ≡ pairs_of c.running_bit (p ∷ ps)
unfolding as_rle_string
tokenize-rle_string c p ps e large h =
    let zero_size : (c.num == 0) ≡ false = ground arith in
    let small : leb c.num 4 ≡ false = ground arith in
    rw (zero_size, small, e)
      (tokenize-int_to_string false [] (bit_num c.running_bit) _ (bit_small c.running_bit)
        ∙ tokenize-x [] (bit_num c.running_bit)
            (int_to_string p ++ rle_platforms (not c.running_bit) ps)
        ∙ tokenize-int_to_string true (bit_num c.running_bit ∷ []) p _ (omega arith)
        ∙ tokenize-rle_platforms (bit_num c.running_bit ∷ []) p (not c.running_bit) ps
            (omega arith))
