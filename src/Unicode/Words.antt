-- ===== src/Unicode/Words.antt =====
-- tf/unicodeUtils.cpp: `|` on the bytes of an encoding.
use pxr_tf.Base.{ℕ, zero, suc, ◌+◌, ◌<◌, ◌≡◌, refl, Bool, true, ◌&&◌, arith, ◌==◌, ==_iff, or_bits}

all_below : (ℕ → Bool) → ℕ → Bool
all_below f zero = true
all_below f (suc n) = f n && all_below f n

all_below-holds : (f : ℕ → Bool) (n k : ℕ) → all_below f n ≡ true → k < n → f k ≡ true
unfolding all_below
all_below-holds f zero k h lt = absurd (omega arith)
all_below-holds f (suc n) k h lt = ground (arith, all_below-holds f n k)

abbrev adds : ℕ → ℕ → Bool
adds mask k = or_bits k mask == (k + mask)

adds-below : (mask n k : ℕ) → all_below (adds mask) n ≡ true → k < n → or_bits k mask ≡ k + mask
adds-below mask n k h lt =
    (==_iff (or_bits k mask) (k + mask)).0 (all_below-holds (adds mask) n k h lt)

table_128 : all_below (adds 128) 64 ≡ true
unfolding all_below or_bits
table_128 = refl

table_192 : all_below (adds 192) 32 ≡ true
unfolding all_below or_bits
table_192 = refl

table_224 : all_below (adds 224) 16 ≡ true
unfolding all_below or_bits
table_224 = refl

table_240 : all_below (adds 240) 8 ≡ true
unfolding all_below or_bits
table_240 = refl

pub or_bits-128 : (k : ℕ) → k < 64 → or_bits k 128 ≡ k + 128
or_bits-128 k = adds-below 128 64 k table_128

pub or_bits-192 : (k : ℕ) → k < 32 → or_bits k 192 ≡ k + 192
or_bits-192 k = adds-below 192 32 k table_192

pub or_bits-224 : (k : ℕ) → k < 16 → or_bits k 224 ≡ k + 224
or_bits-224 k = adds-below 224 16 k table_224

pub or_bits-240 : (k : ℕ) → k < 8 → or_bits k 240 ≡ k + 240
or_bits-240 k = adds-below 240 8 k table_240
