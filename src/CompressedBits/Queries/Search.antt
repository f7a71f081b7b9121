-- ===== src/CompressedBits/Queries/Search.antt =====
-- tf/compressedBits.h: `_LinearSearch`, `IsSet`, `FindNextSet`, `FindPrevSet`, `FindNextUnset`.
use mathlib.Core.Path.{fun_ext}
use native.Mathlib.Nat.{sub-zero, zero-add}
use pxr_tf.Base.{
  ℕ, suc, ◌+◌, ◌-◌, ◌^◌, ◌≤◌, ◌<◌, ◌≡◌, refl, Bool, true, false, not, List, [], ◌∷◌, arith, ◌⊎◌,
  get_or, dec_lt, u64, subst, ap,
}
use pxr_tf.CompressedBits.Defs.{CompressedBits, IsValid, decode, sum, AllPos}
use pxr_tf.CompressedBits.Expand.{length-expand}
use pxr_tf.CompressedBits.Positions.{bit_at, word_bit, word_bit-first, word_bit-cons, bit_at-past}
use pxr_tf.CompressedBits.Queries.{
  Found, search_words, linear_search, is_set, find_next_set, find_prev_set, find_next_unset,
}

-- `index` lies in the maximal run `[low, high)` of `bit`s among the `size` positions of `at`.
pub record Run (at : ℕ → Bool) (from size index low high : ℕ) (bit : Bool) : Type 0 where
  pub below : (from ≤ low) × (low ≤ index)
  pub above : (index < high) × (high ≤ size)
  pub inside : (j : ℕ) → low ≤ j → j < high → at j ≡ bit
  pub before : from < low → at (low - 1) ≡ not bit
  pub after : high < size → at high ≡ not bit

search-here :
    (index : ℕ) (b : Bool) (count i p : ℕ) (ps : List ℕ)
    → index < count + p
    → count + p < 2 ^ 32
    → search_words index b count i (p ∷ ps)
      ≡ record { bit = b; platform_index = i; bit_count = count + p }
unfolding search_words
search-here index b count i p ps lt h = ground arith

search-later :
    (index : ℕ) (b : Bool) (count i p : ℕ) (ps : List ℕ)
    → count + p ≤ index
    → count + p < 2 ^ 32
    → search_words index b count i (p ∷ ps) ≡ search_words index (not b) (count + p) (suc i) ps
unfolding search_words
search-later index b count i p ps lt h =
    let wide : u64 (count + p) ≡ count + p = omega arith in rw wide (ground arith)

word_bit-start :
    (b : Bool) (ps : List ℕ) (count : ℕ) → AllPos ps → 0 < sum ps → word_bit b ps count count ≡ b
word_bit-start b [] count pos h = absurd (omega arith)
word_bit-start b (p ∷ ps) count pos h = ground (arith, word_bit-first b p ps)

module _ (index : ℕ) (b : Bool) (count p : ℕ) (ps : List ℕ) (pos : AllPos (p ∷ ps)) where
  pub Run-here :
      count ≤ index
      → index < count + p
      → Run (word_bit b (p ∷ ps) count) count (count + (p + sum ps)) index count (count + p) b
  Run-here le lt = record {
    below = omega arith;
    above = omega arith;
    inside = λ j lo hi. ground (arith, word_bit-cons b p ps count j);
    before = λ h. absurd (omega arith);
    after = λ h. ground (
      arith,
      word_bit-cons b p ps count (count + p),
      word_bit-start (not b) ps (count + p) pos.1,
    );
  }

  pub Run-later :
      (low high : ℕ) (bit : Bool)
      → Run (word_bit (not b) ps (count + p)) (count + p) (count + p + sum ps) index low high bit
      → Run (word_bit b (p ∷ ps) count) count (count + (p + sum ps)) index low high bit
  Run-later low high bit r = record {
    below = ground (arith, r.below);
    above = ground (arith, r.above);
    inside = λ j lo hi. ground (arith, r.below, word_bit-cons b p ps count j, r.inside j);
    before = λ h. ground (
      arith,
      r.below,
      r.above,
      word_bit-cons b p ps count (low - 1),
      word_bit-start (not b) ps (count + p) pos.1,
      r.inside low,
      r.before,
    );
    after = λ h. ground (arith, r.below, r.above, word_bit-cons b p ps count high, r.after);
  }

get_or_here : (i p : ℕ) (ps : List ℕ) → get_or (p ∷ ps) (i - i) 0 ≡ p
get_or_here i p ps = let e : i - i ≡ 0 = omega arith in rw e refl

get_or_later :
    (i k p : ℕ) (ps : List ℕ) → suc i ≤ k → get_or (p ∷ ps) (k - i) 0 ≡ get_or ps (k - suc i) 0
get_or_later i k p ps h = let e : k - i ≡ suc (k - suc i) = omega arith in rw e refl

search-Run :
    (index : ℕ) (b : Bool) (count i : ℕ) (ps : List ℕ)
    → AllPos ps
    → count ≤ index
    → index < count + sum ps
    → count + sum ps < 2 ^ 32
    → let f = search_words index b count i ps in
      (i ≤ f.platform_index)
      × Run
          (word_bit b ps count)
          count
          (count + sum ps)
          index
          (f.bit_count - get_or ps (f.platform_index - i) 0)
          f.bit_count
          f.bit
search-Run index b count i [] pos le lt h = absurd (omega arith)
search-Run index b count i (p ∷ ps) pos le lt h = elim (dec_lt index (count + p)) [
  | yes here ↦ rw (search-here index b count i p ps here (omega arith)) (
    omega arith,
    (let low : count + p - p ≡ count = omega arith in
        rw (get_or_here i p ps, low) (Run-here index b count p ps pos le here)),
  )
  | no later ↦
      let (up, r) =
        search-Run index (not b) (count + p) (suc i) ps pos.1 (omega arith) (omega arith)
          (omega arith) in
      rw (search-later index b count i p ps (omega arith) (omega arith)) (
        omega (arith, up),
        rw (get_or_later i _ p ps up) (Run-later index b count p ps pos _ _ _ r),
      )
]

-- Where `_LinearSearch` stops.
abbrev pub stop : CompressedBits → ℕ → Found
stop c index = linear_search c index

abbrev pub run_start : CompressedBits → ℕ → ℕ
run_start c index = (stop c index).bit_count - get_or c.platforms (stop c index).platform_index 0

pub IsValid-pos : (c : CompressedBits) → IsValid c → 0 < c.num → AllPos c.platforms
IsValid-pos c v h = ground arith

-- `_LinearSearch`, at an index inside a valid array, stops at the end of the maximal run of equal
-- bits that holds the index, and returns the bit of that run.
pub linear_search-Run :
    (c : CompressedBits) (index : ℕ)
    → IsValid c
    → index < c.num
    → Run
        (bit_at (decode c))
        0
        c.num
        index
        (run_start c index)
        (stop c index).bit_count
        (stop c index).bit
unfolding linear_search
linear_search-Run c index v lt =
    let (_, r) =
      search-Run index c.running_bit 0 0 c.platforms (IsValid-pos c v (omega arith)) (omega arith)
        (ground arith) (ground arith) in
    subst
      (λ at. Run at 0 c.num index (run_start c index) (stop c index).bit_count (stop c index).bit)
      (fun_ext (λ j. ap (bit_at (decode c)) (sub-zero j))) (simp (sub-zero, zero-add, v.total) at r)

-- `IsSet` of a valid array reads the bit at its index; past the end the answer is no.
pub is_set_lem :
    (c : CompressedBits) (index : ℕ) → IsValid c → is_set c index ≡ bit_at (decode c) index
unfolding is_set
is_set_lem c index v = elim (dec_lt index c.num) [
  | yes lt ↦
      let r = linear_search-Run c index v lt in ground (arith, r.below, r.above, r.inside index)
  | no ge ↦
      ground (arith, bit_at-past (decode c) index, length-expand c.running_bit c.platforms, v.total)
]

-- `r` is the first index from `index` on whose bit is `bit`, or the size if there is none.
pub record IsNext (bit : Bool) (c : CompressedBits) (index r : ℕ) : Type 0 where
  pub bounded : r ≤ c.num
  pub forward : index < c.num → index ≤ r
  pub hit : r < c.num → bit_at (decode c) r ≡ bit
  pub skipped : (j : ℕ) → index ≤ j → j < r → bit_at (decode c) j ≡ not bit

-- `FindNextSet` of a valid array returns the first set bit from the index on, or the size.
pub find_next_set-IsNext :
    (c : CompressedBits) (index : ℕ) → IsValid c → IsNext true c index (find_next_set c index)
unfolding find_next_set
find_next_set-IsNext c index v = elim (dec_lt index c.num) [
  | yes lt ↦
      let r = linear_search-Run c index v lt in
      record {
        bounded = ground (arith, r.above);
        forward = ground (arith, r.above);
        hit = ground (arith, r.below, r.above, r.inside index, r.after);
        skipped = λ j lo hi. ground (arith, r.below, r.above, r.inside j);
      }
  | no ge ↦ record {
    bounded = ground arith;
    forward = ground arith;
    hit = ground arith;
    skipped = λ j lo hi. absurd (ground arith);
  }
]

-- `FindNextUnset` of a valid array returns the first unset bit from the index on, or the size.
pub find_next_unset-IsNext :
    (c : CompressedBits) (index : ℕ) → IsValid c → IsNext false c index (find_next_unset c index)
unfolding find_next_unset
find_next_unset-IsNext c index v = elim (dec_lt index c.num) [
  | yes lt ↦
      let r = linear_search-Run c index v lt in
      record {
        bounded = ground (arith, r.above);
        forward = ground (arith, r.above);
        hit = ground (arith, r.below, r.above, r.inside index, r.after);
        skipped = λ j lo hi. ground (arith, r.below, r.above, r.inside j);
      }
  | no ge ↦ record {
    bounded = ground arith;
    forward = ground arith;
    hit = ground arith;
    skipped = λ j lo hi. absurd (ground arith);
  }
]

-- `r` is the last index up to `index` whose bit is set, or the size if there is none.
pub record IsPrev (c : CompressedBits) (index r : ℕ) : Type 0 where
  pub bounded : (r ≤ index) ⊎ (r ≡ c.num)
  pub hit : r < c.num → bit_at (decode c) r ≡ true
  pub skipped : (j : ℕ) → j ≤ index → (r < j) ⊎ (r ≡ c.num) → bit_at (decode c) j ≡ false

-- `FindPrevSet`, at an index inside a valid array, returns the last set bit up to the index, or the
-- size.
pub find_prev_set-IsPrev :
    (c : CompressedBits) (index : ℕ)
    → IsValid c
    → index < c.num
    → IsPrev c index (find_prev_set c index)
unfolding find_prev_set
find_prev_set-IsPrev c index v lt =
    let r = linear_search-Run c index v lt in
    record {
      bounded = ground (arith, r.below, r.above);
      hit = ground (arith, r.below, r.above, r.inside index, r.before);
      skipped = λ j le d. ground (arith, r.below, r.above, r.inside j, r.before);
    }
