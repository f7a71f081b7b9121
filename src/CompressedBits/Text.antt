-- ===== src/CompressedBits/Text.antt =====
-- tf/compressedBits.cpp: `GetAsStringLeftToRight`, `GetAsStringRightToLeft`, `GetAsRLEString`,
-- `FromString` and what they call, with TfIntToString of tf/stringUtils.h. Strings are lists of
-- character codes.
pub mod Digits
pub mod RunLengths
pub mod Binary
pub mod RoundTrip
use pxr_tf.Base.{
  ℕ, zero, suc, ◌+◌, ◌-◌, ◌*◌, ◌/◌, ◌%◌, ◌^◌, Bool, true, false, not, ◌&&◌, ◌||◌, List, [], ◌∷◌,
  ◌++◌, ltb, leb, ◌==◌, if◌then◌else◌, u32, length, reverse, get_or, drop,
}
use pxr_tf.CompressedBits.Defs.{CompressedBits, cleared}
use pxr_tf.CompressedBits.Queries.{bit_num}
use pxr_tf.CompressedBits.Editing.{append}

-- `res.push_back('0' + bit)`, n times
pub push_bits : ℕ → Bool → List ℕ → List ℕ
push_bits zero bit res = res
push_bits (suc n) bit res = push_bits n bit (res ++ (b'0' + bit_num bit) ∷ [])

pub push_platforms : Bool → List ℕ → List ℕ → List ℕ
unfolding push_bits
push_platforms bit [] res = res
push_platforms bit (p ∷ ps) res = push_platforms (not bit) ps (push_bits p bit res)

-- `GetAsStringLeftToRight`
pub as_string_left_to_right : CompressedBits → List ℕ
unfolding push_platforms
as_string_left_to_right c = push_platforms c.running_bit c.platforms []

-- `GetAsStringRightToLeft`: the platforms from the last to the first
pub as_string_right_to_left : CompressedBits → List ℕ
unfolding push_platforms
as_string_right_to_left c =
    push_platforms (if length c.platforms % 2 == 0 then not c.running_bit else c.running_bit)
      (reverse c.platforms) []

-- `%d` of a number below 10 ^ fuel: the digits from the first.
unfoldable pub print_digits : ℕ → ℕ → List ℕ
print_digits zero n = []
print_digits (suc fuel) n =
    let more = print_digits fuel (n / 10) ++ (b'0' + n % 10) ∷ [] in
    if ltb n 10 then (b'0' + n) ∷ [] else more

-- TfIntToString of a `uint32_t`, which the call converts to `int`; ten digits are enough for it.
unfoldable pub int_to_string : ℕ → List ℕ
unfolding print_digits
int_to_string n = if ltb n (2 ^ 31) then print_digits 10 n else b'-' ∷ print_digits 10 (2 ^ 32 - n)

pub rle_platforms : Bool → List ℕ → List ℕ
unfolding int_to_string
rle_platforms bit [] = []
rle_platforms bit (p ∷ ps) =
    b'-' ∷ (int_to_string (bit_num bit) ++ b'x' ∷ (int_to_string p ++ rle_platforms (not bit) ps))

-- `GetAsRLEString`
pub as_rle_string : CompressedBits → List ℕ
unfolding as_string_left_to_right rle_platforms
as_rle_string c =
    if c.num == 0
    then []
    else if leb c.num 4
    then as_string_left_to_right c
    else int_to_string (bit_num c.running_bit)
      ++ b'x'
        ∷ (int_to_string (get_or c.platforms 0 0)
            ++ rle_platforms (not c.running_bit) (drop 1 c.platforms))

-- `_IsWhiteSpace`
pub is_white_space : ℕ → Bool
is_white_space c = c == b' ' || c == 10 || c == 13 || c == 9

-- The branches of the loop in `_TokenizeRLEString`.
pub data Class : Type 0 where
  digit space delimiter other : Class

pub classify : Bool → ℕ → Class
unfolding is_white_space
classify dash c =
    if leb b'0' c && leb c b'9'
    then digit
    else if is_white_space c
    then space
    else if c == (if dash then b'-' else b'x')
    then delimiter
    else other

-- `_TokenizeRLEString`: `tokens` is `done` with `last` behind it, and `dash` says which delimiter
-- is the next.
pub tokenize : Bool → List ℕ → ℕ → List ℕ → List ℕ
unfolding classify
tokenize dash done last [] = done ++ last ∷ []
tokenize dash done last (c ∷ cs) = elim (classify dash c) [
  | digit ↦ tokenize dash done (u32 (last * 10 + (c - b'0'))) cs
  | space ↦ tokenize dash done last cs
  | delimiter ↦ tokenize (not dash) (done ++ last ∷ []) 0 cs
  | other ↦ []
]

-- `_FromRLETokens`
pub append_tokens : CompressedBits → List ℕ → CompressedBits
append_tokens result [] = result
append_tokens result (bit ∷ []) = result
append_tokens result (bit ∷ len ∷ tokens) =
    let rest = append_tokens (append result len (bit == 1)) tokens in
    if ltb 1 bit || len == 0 then cleared 0 else rest

pub from_rle_tokens : List ℕ → CompressedBits
unfolding append_tokens
from_rle_tokens tokens =
    if length tokens % 2 == 1 then cleared 0 else append_tokens (cleared 0) tokens

-- `_FromBinaryRepresentation`
pub append_chars : CompressedBits → List ℕ → CompressedBits
unfolding is_white_space
append_chars result [] = result
append_chars result (c ∷ cs) =
    let bit_case = append_chars (append result 1 (c == b'1')) cs in
    let space_case = append_chars result cs in
    if c == b'0' || c == b'1' then bit_case else if is_white_space c then space_case else cleared 0

-- `FromString`
pub from_string : List ℕ → CompressedBits
unfolding tokenize from_rle_tokens append_chars
from_string source = elim (tokenize false [] 0 source) [
  | [] ↦ cleared 0
  | t ∷ ts ↦
      let r = from_rle_tokens (t ∷ ts) in if r.num == 0 then append_chars (cleared 0) source else r
]
