-- ===== src/CompressedBits/Text/Binary.antt =====
-- tf/compressedBits.cpp: the text of the bits from left to right, and the reading of it.
use pxr_tf.Base.{
  ℕ, zero, suc, ◌+◌, ◌^◌, ◌<◌, ◌≡◌, refl, ap, ◌∙◌, sym, Bool, true, false, not, List, [], ◌∷◌, ◌++◌,
  arith, append_assoc, append-nil, length, length-append, replicate, map, map-append,
}
use pxr_tf.CompressedBits.Defs.{CompressedBits, IsValid, decode, expand, cleared}
use pxr_tf.CompressedBits.Expand.{length-decode}
use pxr_tf.CompressedBits.Canonical.{decode-injective}
use pxr_tf.CompressedBits.Queries.{bit_num}
use pxr_tf.CompressedBits.Editing.{append}
use pxr_tf.CompressedBits.Text.{
  push_bits, push_platforms, as_string_left_to_right, tokenize, append_chars, from_string,
}
use pxr_tf.CompressedBits.Text.Digits.{AllDigits, fold_digits, tokenize-digits}
use pxr_tf.CompressedBits.Text.RunLengths.{Holds, append-Holds, empty-Holds, from_string-binary}

-- The character of a bit.
abbrev pub char : Bool → ℕ
char b = b'0' + bit_num b

pub push_bits-append :
    (n : ℕ) (b : Bool) (res : List ℕ) → push_bits n b res ≡ res ++ map char (replicate n b)
unfolding push_bits
push_bits-append zero b res = sym (append-nil res)
push_bits-append (suc n) b res =
    push_bits-append n b (res ++ char b ∷ []) ∙ append_assoc res (char b ∷ []) _

pub push_platforms-append :
    (b : Bool) (ps : List ℕ) (res : List ℕ)
    → push_platforms b ps res ≡ res ++ map char (expand b ps)
unfolding push_platforms
push_platforms-append b [] res = sym (append-nil res)
push_platforms-append b (p ∷ ps) res =
    push_platforms-append (not b) ps (push_bits p b res)
    ∙ ap (λ r. r ++ map char (expand (not b) ps)) (push_bits-append p b res)
    ∙ append_assoc res (map char (replicate p b)) _
    ∙ ap (◌++◌ res) (sym (map-append char (replicate p b) (expand (not b) ps)))

-- `GetAsStringLeftToRight` writes the bits in order, one character each.
pub string_left_to_right : (c : CompressedBits) → as_string_left_to_right c ≡ map char (decode c)
unfolding as_string_left_to_right
string_left_to_right c = push_platforms-append c.running_bit c.platforms []

pub chars-AllDigits : (xs : List Bool) → AllDigits (map char xs)
chars-AllDigits [] = tt
chars-AllDigits (true ∷ xs) = (omega arith, chars-AllDigits xs)
chars-AllDigits (false ∷ xs) = (omega arith, chars-AllDigits xs)

pub tokenize-chars :
    (xs : List Bool) → tokenize false [] 0 (map char xs) ≡ fold_digits 0 (map char xs) ∷ []
tokenize-chars xs =
    ap (tokenize false [] 0) (sym (append-nil (map char xs)))
    ∙ tokenize-digits false [] 0 (map char xs) [] (chars-AllDigits xs)
    ∙ unfold tokenize in refl

pub append_chars-step :
    (c : CompressedBits) (b : Bool) (cs : List ℕ)
    → append_chars c (char b ∷ cs) ≡ append_chars (append c 1 b) cs
unfolding append_chars
append_chars-step c true cs = refl
append_chars-step c false cs = refl

pub append_chars-Holds :
    (xs ys : List Bool) (c : CompressedBits)
    → Holds xs c
    → length xs + length ys < 2 ^ 32
    → Holds (xs ++ ys) (append_chars c (map char ys))
append_chars-Holds xs [] c h fits = rw (append-nil xs) (unfold append_chars in h)
append_chars-Holds xs (y ∷ ys) c h fits =
    rw (append_chars-step c y (map char ys), ← append_assoc xs (y ∷ []) ys)
      (append_chars-Holds (xs ++ y ∷ []) ys (append c 1 y) (append-Holds xs c 1 y h (omega arith))
        (omega (arith, length-append {0} xs (y ∷ []))))

pub Holds-eq : (c d : CompressedBits) → IsValid c → Holds (decode c) d → d ≡ c
Holds-eq c d v h = decode-injective d c h.valid v h.bits

pub binary_round_trip : (c : CompressedBits) → IsValid c → from_string (map char (decode c)) ≡ c
binary_round_trip c v =
    from_string-binary (map char (decode c)) _ (tokenize-chars (decode c))
    ∙ Holds-eq c _ v (
        append_chars-Holds [] (decode c) (cleared 0) empty-Holds
          (omega (arith, length-decode c v, v.fits)))
