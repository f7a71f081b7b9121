-- ===== src/Unicode.antt =====
-- tf/unicodeUtils.h and tf/unicodeUtils.cpp: TfUtf8CodePoint, its encoding, and
-- TfUtf8CodePointIterator. An iterator is the list of the bytes from `_it` to `_end`.
-- `x & 0x3f` is the remainder by 64, and so on; `|` is the operation on binary digits.
pub mod Words
pub mod Lengths
pub mod RoundTrip
pub mod Strict
pub mod Broken
pub mod Advance
pub mod Append
mod Tests
use pxr_tf.Base.{
  ℕ, zero, suc, ◌+◌, ◌-◌, ◌*◌, ◌/◌, ◌%◌, Bool, true, false, ◌&&◌, ◌||◌, List, [], ◌∷◌, ltb, leb,
  ◌==◌, if◌then◌else◌, u8, or_bits, length, get_or,
}

-- TfUtf8CodePoint::ReplacementValue, MaximumValue, and the ends of SurrogateRange
abbrev pub replacement_value : ℕ
replacement_value = 65533

abbrev pub maximum_value : ℕ
maximum_value = 1114111

-- The test in the constructor of TfUtf8CodePoint.
abbrev pub is_scalar : ℕ → Bool
is_scalar value = leb value maximum_value && (ltb value 55296 || ltb 57343 value)

-- TfUtf8CodePoint(value)
pub code_point : ℕ → ℕ
code_point value = if is_scalar value then value else replacement_value

-- TfUtf8CodePointFromAscii, of a character as an unsigned byte
pub from_ascii : ℕ → ℕ
unfolding code_point
from_ascii value = if ltb value 128 then code_point value else replacement_value

-- The bytes that `operator<<` writes in its branch for three.
abbrev pub three_bytes : ℕ → List ℕ
three_bytes value =
    u8 (or_bits (value / 4096) 224)
    ∷ u8 (or_bits (value / 64 % 64) 128)
    ∷ u8 (or_bits (value % 64) 128)
    ∷ []

-- `operator<<`; its last branch writes the replacement code point.
pub encode : ℕ → List ℕ
encode value =
    if ltb value 128
    then value ∷ []
    else if ltb value 2048
    then u8 (or_bits (value / 64) 192) ∷ u8 (or_bits (value % 64) 128) ∷ []
    else if ltb value 65536
    then three_bytes value
    else if ltb value 1114112
    then u8 (or_bits (value / 262144) 240)
      ∷ u8 (or_bits (value / 4096 % 64) 128)
      ∷ u8 (or_bits (value / 64 % 64) 128)
      ∷ u8 (or_bits (value % 64) 128)
      ∷ []
    else three_bytes replacement_value

-- `_GetEncodingLength`
pub encoding_length : List ℕ → ℕ
encoding_length [] = 0
encoding_length (x ∷ xs) =
    if ltb x 128
    then 1
    else if leb 192 x && ltb x 224
    then 2
    else if leb 224 x && ltb x 240
    then 3
    else if leb 240 x && ltb x 248
    then 4
    else 0

-- The tests of a byte against a range.
abbrev pub outside : ℕ → ℕ → ℕ → Bool
outside low high byte = ltb byte low || ltb high byte

-- The branches of `_GetCodePoint`, one per length.
pub decode_two : ℕ → ℕ → ℕ
decode_two byte1 byte2 =
    if outside 194 223 byte1
    then replacement_value
    else if outside 128 191 byte2
    then replacement_value
    else byte1 % 32 * 64 + byte2 % 64

-- The ranges that the second byte must keep to, by the first; none if the first is invalid.
abbrev pub bad_three : ℕ → ℕ → ℕ → Bool
bad_three byte1 byte2 byte3 =
    if byte1 == 224
    then outside 160 191 byte2 || outside 128 191 byte3
    else if (leb 225 byte1 && leb byte1 236) || byte1 == 238 || byte1 == 239
    then outside 128 191 byte2 || outside 128 191 byte3
    else if byte1 == 237
    then outside 128 159 byte2 || outside 128 191 byte3
    else true

pub decode_three : ℕ → ℕ → ℕ → ℕ
decode_three byte1 byte2 byte3 =
    if bad_three byte1 byte2 byte3
    then replacement_value
    else byte1 % 16 * 4096 + byte2 % 64 * 64 + byte3 % 64

abbrev pub bad_four : ℕ → ℕ → ℕ → ℕ → Bool
bad_four byte1 byte2 byte3 byte4 =
    if byte1 == 240
    then outside 144 191 byte2 || outside 128 191 byte3 || outside 128 191 byte4
    else if leb 241 byte1 && leb byte1 243
    then outside 128 191 byte2 || outside 128 191 byte3 || outside 128 191 byte4
    else if byte1 == 244
    then outside 128 143 byte2 || outside 128 191 byte3 || outside 128 191 byte4
    else true

pub decode_four : ℕ → ℕ → ℕ → ℕ → ℕ
decode_four byte1 byte2 byte3 byte4 =
    if bad_four byte1 byte2 byte3 byte4
    then replacement_value
    else byte1 % 8 * 262144 + byte2 % 64 * 4096 + byte3 % 64 * 64 + byte4 % 64

-- `_GetCodePoint`
pub get_code_point : List ℕ → ℕ
get_code_point bytes =
    let n = encoding_length bytes in
    let byte : ℕ → ℕ = λ i. get_or bytes i 0 in
    if ltb (length bytes) n
    then replacement_value
    else if n == 1
    then byte 0
    else if n == 2
    then decode_two (byte 0) (byte 1)
    else if n == 3
    then decode_three (byte 0) (byte 1) (byte 2)
    else if n == 4
    then decode_four (byte 0) (byte 1) (byte 2) (byte 3)
    else replacement_value

-- `operator*`
pub dereference : List ℕ → ℕ
unfolding code_point
dereference bytes = code_point (get_code_point bytes)

pub is_continuation : ℕ → Bool
is_continuation c = leb 128 c && ltb c 192

-- The loop of `operator++` over the continuation bytes.
pub skip : ℕ → List ℕ → List ℕ
unfolding is_continuation
skip increment [] = []
skip increment (c ∷ cs) =
    let rest = skip (increment - 1) cs in
    if ltb 1 increment && is_continuation c then rest else c ∷ cs

-- `operator++`; past the end it is a failed axiom.
pub advance : List ℕ → List ℕ
advance [] = []
advance (x ∷ xs) = skip (encoding_length (x ∷ xs)) xs

-- A loop over a TfUtf8CodePointView, with fuel: as many passes as bytes are enough.
pub code_points_in : ℕ → List ℕ → List ℕ
code_points_in zero bytes = []
code_points_in (suc fuel) [] = []
code_points_in (suc fuel) (x ∷ xs) = dereference (x ∷ xs) ∷ code_points_in fuel (advance (x ∷ xs))

pub code_points : List ℕ → List ℕ
unfolding code_points_in
code_points bytes = code_points_in (length bytes) bytes
