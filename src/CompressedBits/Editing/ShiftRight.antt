-- ===== src/CompressedBits/Editing/ShiftRight.antt =====
-- tf/compressedBits.h: `ShiftRight`.
use pxr_tf.Base.{
  ℕ, ◌+◌, ◌-◌, ◌^◌, ◌<◌, ◌≡◌, ◌≢◌, ◌||◌, refl, Bool, true, false, List, [], ◌∷◌, arith, ltb, ◌==◌,
  if◌then◌else◌, u32, Bool-cases, inl, inr,
}
use pxr_tf.CompressedBits.Defs.{CompressedBits, IsValid, expand, sum, AllPos}
use pxr_tf.CompressedBits.Logical.Correct.{Shape-pos}
use pxr_tf.CompressedBits.Positions.{bit_at, bit_at-run, at, at-past}
use pxr_tf.CompressedBits.Queries.Search.{IsValid-pos}
use pxr_tf.CompressedBits.Editing.{trim_back, shifted_words, shift_right}
use pxr_tf.CompressedBits.Editing.Back.{trim_back-Trims}
use pxr_tf.CompressedBits.Editing.Resize.{Yields}

-- The words before the trim stand for `bits` zeros and then the bits of the array.
record IsShifted (b : Bool) (bits : ℕ) (ps qs : List ℕ) : Type 0 where
  total : sum qs ≡ sum ps + bits
  positive : AllPos qs
  moved :
      (i : ℕ)
      → bit_at (expand false qs) i ≡ (if ltb i bits then false else bit_at (expand b ps) (i - bits))

shifted_of : Bool → ℕ → List ℕ → List ℕ
shifted_of b bits [] = []
shifted_of b bits (p ∷ ps) = if b then u32 bits ∷ p ∷ ps else u32 (p + bits) ∷ ps

shifted_words-eq :
    (c : CompressedBits)
    → (bits : ℕ) → shifted_words c bits ≡ shifted_of c.running_bit bits c.platforms
unfolding shifted_words shifted_of
shifted_words-eq c bits = ground arith

shifted_of-IsShifted :
    (b : Bool) (bits : ℕ) (ps : List ℕ)
    → AllPos ps
    → 0 < bits
    → 0 < sum ps
    → sum ps + bits < 2 ^ 32
    → IsShifted b bits ps (shifted_of b bits ps)
unfolding shifted_of
shifted_of-IsShifted b bits [] pos more some_bits fits = absurd (omega arith)
shifted_of-IsShifted true bits (p ∷ ps) pos more some_bits fits = record {
  total = omega arith;
  positive = (omega arith, pos);
  moved = λ i. ground (arith, bit_at-run (u32 bits) false (expand true (p ∷ ps)) i);
}
shifted_of-IsShifted false bits (p ∷ ps) pos more some_bits fits = record {
  total = omega arith;
  positive = (omega (arith, pos.0), pos.1);
  moved = λ i. ground (
    arith,
    bit_at-run (u32 (p + bits)) false (expand true ps) i,
    bit_at-run p false (expand true ps) (i - bits),
  );
}

abbrev pub right_shifted : CompressedBits → ℕ → ℕ → Bool
right_shifted c bits i =
    if ltb i c.num then (if ltb i bits then false else at c (i - bits)) else false

shift_right-eq :
    (c : CompressedBits) (bits : ℕ)
    → 0 < c.num
    → 0 < bits
    → shift_right c bits ≡ record c {
      platforms = trim_back bits (shifted_of c.running_bit bits c.platforms);
      running_bit = false;
    }
unfolding shift_right
shift_right-eq c bits pos more = ground (arith, shifted_words-eq c bits)

shift_right-same :
    (c : CompressedBits) (bits : ℕ) → (c.num == 0 || bits == 0) ≡ true → shift_right c bits ≡ c
unfolding shift_right
shift_right-same c bits h = rw h

-- `ShiftRight` of a valid array, where size and shift are below 2 ^ 32 together, gives a valid array
-- of the same size: each bit moves up by `bits`, behind zeros.
pub shift_right-Yields :
    (c : CompressedBits) (bits : ℕ)
    → IsValid c
    → c.num + bits < 2 ^ 32
    → Yields c.num (right_shifted c bits) (shift_right c bits)
shift_right-Yields c bits v fits = elim (Bool-cases (c.num == 0 || bits == 0)) [
  | inl nothing ↦ rw (shift_right-same c bits nothing) (record {
    valid = v;
    sized = refl;
    bits = λ i. let same : c.num ≢ 0 → i - bits ≡ i = ground arith in ground (arith, at-past c i v);
  })
  | inr something ↦
      let pos : 0 < c.num = ground arith in
      let s =
        shifted_of-IsShifted c.running_bit bits c.platforms (IsValid-pos c v pos) (ground arith)
          (omega (arith, v.total)) (omega (arith, v.total)) in
      let t =
        trim_back-Trims false bits (shifted_of c.running_bit bits c.platforms) s.positive
          (omega (arith, s.total, v.total)) in
      rw (shift_right-eq c bits pos (ground arith)) (record {
        valid = record {
          total = omega (arith, s.total, t.total, v.total);
          fits = v.fits;
          shape = Shape-pos c.num false _ pos t.positive;
        };
        sized = refl;
        bits = λ i. ground (arith, s.total, t.total, v.total, t.kept i, s.moved i);
      })
]
