-- ===== src/CompressedBits/Editing/ShiftLeft.antt =====
-- tf/compressedBits.h: `ShiftLeft`.
use pxr_tf.Base.{
  ℕ, ◌+◌, ◌-◌, ◌%◌, ◌^◌, ◌≤◌, ◌<◌, ◌≡◌, ◌≢◌, ◌||◌, refl, ◌∙◌, Bool, true, false, not, List, [], ◌∷◌,
  ◌++◌, arith, ltb, leb, ◌==◌, if◌then◌else◌, bit_eq, u32, min, dec_lt, Bool-cases, inl, inr,
}
use pxr_tf.CompressedBits.Defs.{CompressedBits, IsValid, expand, sum, AllPos}
use pxr_tf.CompressedBits.Logical.Correct.{Shape-pos}
use pxr_tf.CompressedBits.Positions.{bit_at, bit_at-run, at, at-past}
use pxr_tf.CompressedBits.Queries.Search.{IsValid-pos}
use pxr_tf.CompressedBits.Queries.Ends.{last_bit}
use pxr_tf.CompressedBits.Editing.{Trimmed, add_back, trim_front, shift_left}
use pxr_tf.CompressedBits.Editing.Resize.{Yields, grown, ends_in_zeros-eq}

-- What is left after the trim on the left.
record IsCut (b : Bool) (bits : ℕ) (ps : List ℕ) (t : Trimmed) : Type 0 where
  total : sum t.words + bits ≡ sum ps
  positive : AllPos t.words
  moved : (i : ℕ) → bit_at (expand t.flipped t.words) i ≡ bit_at (expand b ps) (i + bits)

trim_front-IsCut :
    (b : Bool) (bits : ℕ) (ps : List ℕ)
    → AllPos ps
    → bits < sum ps
    → IsCut b bits ps (trim_front bits b ps)
unfolding trim_front
trim_front-IsCut b bits [] pos lt = absurd (omega arith)
trim_front-IsCut b bits (p ∷ ps) pos lt = elim (dec_lt bits p) [
  | yes cut ↦
      let t : leb p bits ≡ false = ground arith in
      rw t (record {
        total = omega arith;
        positive = (omega arith, pos.1);
        moved = λ i. ground (
          arith,
          bit_at-run (p - bits) b (expand (not b) ps) i,
          bit_at-run p b (expand (not b) ps) (i + bits),
        );
      })
  | no whole ↦
      let t : leb p bits ≡ true = ground arith in
      let r = trim_front-IsCut (not b) (bits - p) ps pos.1 (omega arith) in
      rw t (record {
        total = omega (arith, r.total);
        positive = r.positive;
        moved = λ i. ground (arith, r.moved i, bit_at-run p b (expand (not b) ps) (i + bits));
      })
]

trim_front-all :
    (b : Bool) (bits : ℕ) (ps : List ℕ)
    → sum ps ≤ bits
    → trim_front bits b ps ≡ record { words = []; flipped = false }
unfolding trim_front
trim_front-all b bits [] h = refl
trim_front-all b bits (p ∷ ps) h = ground (arith, trim_front-all (not b) (bits - p) ps)

abbrev pub left_shifted : CompressedBits → ℕ → ℕ → Bool
left_shifted c bits i = if ltb i c.num then at c (i + bits) else false

shift_left-all :
    (c : CompressedBits) (bits : ℕ)
    → 0 < c.num
    → sum c.platforms ≤ bits
    → 0 < bits
    → shift_left c bits
      ≡ record { platforms = min c.num (u32 bits) ∷ []; num = c.num; running_bit = false }
unfolding shift_left
shift_left-all c bits pos h more =
    rw (trim_front-all c.running_bit bits c.platforms h, shift_left) (ground arith)

-- What the trim on the left leaves, as a shorter array.
abbrev cut_array : CompressedBits → ℕ → CompressedBits
cut_array c bits = record {
  platforms = (trim_front bits c.running_bit c.platforms).words;
  num = c.num - bits;
  running_bit = (trim_front bits c.running_bit c.platforms).flipped;
}

shift_left-some :
    (c : CompressedBits) (bits : ℕ)
    → 0 < bits
    → bits < c.num
    → c.num < 2 ^ 32
    → shift_left c bits ≡ record (cut_array c bits) {
      platforms =
          if bit_eq false (last_bit (cut_array c bits).running_bit (cut_array c bits).platforms)
          then add_back bits (cut_array c bits).platforms
          else (cut_array c bits).platforms ++ u32 bits ∷ [];
      num = (cut_array c bits).num + bits;
    }
unfolding shift_left
shift_left-some c bits more lt fits =
    let word : min c.num (u32 bits) ≡ u32 bits = omega arith in
    ground (arith, ends_in_zeros-eq (cut_array c bits))

shift_left-same :
    (c : CompressedBits) (bits : ℕ) → (c.num == 0 || bits == 0) ≡ true → shift_left c bits ≡ c
unfolding shift_left
shift_left-same c bits h = rw h

module _ (c : CompressedBits) (bits : ℕ) (v : IsValid c) where
  left_nothing :
      (c.num == 0 || bits == 0) ≡ true → Yields c.num (left_shifted c bits) (shift_left c bits)
  left_nothing h = rw (shift_left-same c bits h) (record {
    valid = v;
    sized = refl;
    bits = λ i.
        let same : c.num ≢ 0 → i + bits ≡ i = ground arith in
        ground (arith, at-past c i v, at-past c (i + bits) v);
  })

  left_all :
      0 < c.num
      → c.num ≤ bits
      → bits < 2 ^ 32
      → Yields c.num (left_shifted c bits) (shift_left c bits)
  left_all pos le fits =
      let word : min c.num (u32 bits) ≡ c.num = omega arith in
      rw (shift_left-all c bits pos (omega (arith, v.total)) (omega arith), word)
        (record {
          valid = record {
            total = omega arith;
            fits = v.fits;
            shape = Shape-pos c.num false _ pos (pos, tt);
          };
          sized = refl;
          bits = λ i. ground (arith, bit_at-run c.num false [] i, at-past c (i + bits) v);
        })

  left_some : 0 < bits → bits < c.num → Yields c.num (left_shifted c bits) (shift_left c bits)
  left_some more lt =
      let t =
        trim_front-IsCut c.running_bit bits c.platforms (IsValid-pos c v (omega arith))
          (omega (arith, v.total)) in
      let valid : IsValid (cut_array c bits) = record {
        total = omega (arith, t.total, v.total);
        fits = omega (arith, v.fits);
        shape = Shape-pos (c.num - bits) _ _ (omega arith) t.positive;
      } in
      let g =
        grown (cut_array c bits) valid bits false (omega arith) more (omega (arith, v.fits)) in
      rw (shift_left-some c bits more lt v.fits) (record {
        valid = g.valid;
        sized = omega arith;
        bits = λ i. g.bits i ∙ ground (arith, t.moved i, at-past c (i + bits) v);
      })

-- `ShiftLeft` of a valid array by less than 2 ^ 32 gives a valid array of the same size: each bit
-- moves down by `bits`, and the end is filled with zeros.
pub shift_left-Yields :
    (c : CompressedBits) (bits : ℕ)
    → IsValid c
    → bits < 2 ^ 32
    → Yields c.num (left_shifted c bits) (shift_left c bits)
shift_left-Yields c bits v fits = elim (Bool-cases (c.num == 0 || bits == 0)) [
  | inl nothing ↦ left_nothing c bits v nothing
  | inr something ↦ elim (dec_lt bits c.num) [
    | yes lt ↦ left_some c bits v (ground arith) lt
    | no ge ↦ left_all c bits v (ground arith) (omega arith) fits
  ]
]

-- `ShiftLeft` of a valid array that has bits, by a positive multiple of 2 ^ 32, does not give a
-- valid array.
pub shift_left_wraps :
    (c : CompressedBits) (bits : ℕ)
    → IsValid c
    → 0 < c.num
    → 0 < bits
    → bits % 2 ^ 32 ≡ 0
    → ¬ IsValid (shift_left c bits)
shift_left_wraps c bits v pos more wraps w =
    let r : IsValid
        (record { platforms = min c.num (u32 bits) ∷ []; num = c.num; running_bit = false }) =
      rw (shift_left-all c bits pos (omega (arith, v.total, v.fits)) more) at w in
    omega (arith, r.total)
