-- ===== src/Base/Words.antt =====
-- Machine words: the conversions and the wrap-around of `uint32_t` and `size_t`.
use Prim.Native.Nat.{ℕ, ◌%◌, ◌^◌, ◌+◌, ◌-◌, max, bitwise}

abbrev pub u8 : ℕ → ℕ
u8 n = n % 2 ^ 8

abbrev pub u32 : ℕ → ℕ
u32 n = n % 2 ^ 32

abbrev pub u64 : ℕ → ℕ
u64 n = n % 2 ^ 64

-- `a - b` on `uint32_t`: the modulus is added first, since `-` on ℕ stops at 0.
abbrev pub sub32 : ℕ → ℕ → ℕ
sub32 a b = (a + 2 ^ 32 - b) % 2 ^ 32

-- `a | b` on binary digits.
unfoldable pub or_bits : ℕ → ℕ → ℕ
or_bits a b = bitwise (λ digit. digit) max a b
