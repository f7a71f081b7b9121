-- ===== src/CompressedBits/Queries/Counts.antt =====
-- tf/compressedBits.h: `GetNumSet`, `Count`, `FindNthSet` and the tests on platforms.
use pxr_tf.Base.{
  ℕ, zero, suc, ◌+◌, ◌-◌, ◌*◌, ◌^◌, ◌≤◌, ◌<◌, ◌≡◌, refl, Bool, true, false, not, List, [], ◌∷◌,
  ◌++◌, arith, ltb, ◌&&◌, max, ◌∙◌, lt→ltb, ◌==◌, if◌then◌else◌, length, replicate, take, drop,
  dec_lt, u32, u64,
}
use pxr_tf.CompressedBits.Defs.{CompressedBits, IsValid, decode, expand, sum}
use pxr_tf.CompressedBits.Expand.{length-expand}
use pxr_tf.CompressedBits.Positions.{bit_at, bit_at-run}
use pxr_tf.CompressedBits.Queries.{
  bit_num, every_other, get_num_set, count_words, count, nth_in_words, find_nth_set, are_all_set,
  is_any_set, is_any_unset,
}

-- The number of set bits of a list.
abbrev pub num_true : List Bool → ℕ
num_true [] = 0
num_true (b ∷ xs) = bit_num b + num_true xs

pub num_true-run :
    (n : ℕ) (b : Bool) (xs : List Bool)
    → num_true (replicate n b ++ xs) ≡ n * bit_num b + num_true xs
num_true-run zero b xs = omega arith
num_true-run (suc n) true xs = omega (arith, num_true-run n true xs)
num_true-run (suc n) false xs = omega (arith, num_true-run n false xs)

pub num_true-le : (xs : List Bool) → num_true xs ≤ length xs
num_true-le [] = omega arith
num_true-le (true ∷ xs) = omega (arith, num_true-le xs)
num_true-le (false ∷ xs) = omega (arith, num_true-le xs)

every_other-num_true :
    (n : ℕ) (ps : List ℕ) → n + sum ps < 2 ^ 32 → every_other n ps ≡ n + num_true (expand true ps)
unfolding every_other
every_other-num_true n [] h = omega arith
every_other-num_true n (p ∷ []) h = omega (arith, num_true-run p true [])
every_other-num_true n (p ∷ q ∷ ps) h = omega (
  arith,
  num_true-run p true (replicate q false ++ expand true ps),
  num_true-run q false (expand true ps),
  every_other-num_true (u64 (n + p)) ps (omega arith),
)

skip_first :
    (b : Bool) (ps : List ℕ)
    → sum ps < 2 ^ 32
    → every_other 0 (drop (1 - bit_num b) ps) ≡ num_true (expand b ps)
skip_first true ps h = every_other-num_true 0 ps (omega arith) ∙ omega arith
skip_first false [] h = every_other-num_true 0 [] (omega arith) ∙ omega arith
skip_first false (p ∷ ps) h =
    every_other-num_true 0 ps (omega arith) ∙ omega (arith, num_true-run p false (expand true ps))

-- `GetNumSet` of a valid array is the number of its set bits.
pub get_num_set-num_true : (c : CompressedBits) → IsValid c → get_num_set c ≡ num_true (decode c)
unfolding get_num_set
get_num_set-num_true c v = skip_first c.running_bit c.platforms (omega (arith, v.total, v.fits))

count_words-num_set :
    (last i : ℕ) (b : Bool) (num gap : ℕ) (ps : List ℕ)
    → num + sum ps < 2 ^ 32
    → (count_words last i b num gap ps).num_set ≡ num + num_true (expand b ps)
unfolding count_words
count_words-num_set last i b num gap [] h = omega arith
count_words-num_set last i true num gap (p ∷ ps) h = omega (
  arith,
  num_true-run p true (expand false ps),
  count_words-num_set last (suc i) false (u32 (num + p)) gap ps (omega arith),
)
count_words-num_set last i false num gap (p ∷ ps) h = omega (
  arith,
  num_true-run p false (expand true ps),
  count_words-num_set last (suc i) true num (if ltb 0 i && ltb i last then max gap p else gap) ps
      (omega arith),
)

-- `Count` of a valid array reports the number of its set bits.
pub count-num_set : (c : CompressedBits) → IsValid c → (count c).num_set ≡ num_true (decode c)
unfolding count
count-num_set c v =
    count_words-num_set (length c.platforms - 1) 0 c.running_bit 0 0 c.platforms
      (omega (arith, v.total, v.fits))
    ∙ omega arith

-- `r` is the position of the set bit that has `nth` set bits before it, or `size` if there is none.
pub record IsNth (xs : List Bool) (size nth r : ℕ) : Type 0 where
  pub found : nth < num_true xs → (bit_at xs r ≡ true) × (num_true (take r xs) ≡ nth)
  pub missing : num_true xs ≤ nth → r ≡ size

nth_in_words-eq :
    (num nth index n : ℕ) (b : Bool) (p : ℕ) (ps : List ℕ)
    → n ≤ nth
    → n + (p + sum ps) < 2 ^ 32
    → index + (p + sum ps) < 2 ^ 32
    → nth_in_words num nth index n b (p ∷ ps) ≡ (
        if b && ltb nth (n + p)
        then index + (nth - n)
        else nth_in_words num nth (index + p) (n + p * bit_num b) (not b) ps)
unfolding nth_in_words
nth_in_words-eq num nth index n true p ps le hn hi = ground arith
nth_in_words-eq num nth index n false p ps le hn hi = ground arith

num_true-take_run :
    (k p : ℕ) (b : Bool) (xs : List Bool)
    → num_true (take k (replicate p b ++ xs))
      ≡ (if ltb k p then k * bit_num b else p * bit_num b + num_true (take (k - p) xs))
num_true-take_run k zero b xs = ground arith
num_true-take_run zero (suc p) b xs = ground arith
num_true-take_run (suc k) (suc p) true xs = ground (arith, num_true-take_run k p true xs)
num_true-take_run (suc k) (suc p) false xs = ground (arith, num_true-take_run k p false xs)

-- The claim of the loop: `r` for the words that are left, the first of whose bits is at `index`.
record NthFrom (num nth index n : ℕ) (xs : List Bool) (r : ℕ) : Type 0 where
  found :
      nth < n + num_true xs
      → (index ≤ r) × (bit_at xs (r - index) ≡ true) × (n + num_true (take (r - index) xs) ≡ nth)
  missing : n + num_true xs ≤ nth → r ≡ num

NthFrom-skip :
    (num nth index n p : ℕ) (b : Bool) (xs : List Bool) (r : ℕ)
    → n + p * bit_num b ≤ nth
    → NthFrom num nth (index + p) (n + p * bit_num b) xs r
    → NthFrom num nth index n (replicate p b ++ xs) r
NthFrom-skip num nth index n p true xs r le v = record {
  found = λ h. ground (
    arith,
    v.found,
    num_true-run p true xs,
    bit_at-run p true xs (r - index),
    num_true-take_run (r - index) p true xs,
  );
  missing = λ h. ground (arith, v.missing, num_true-run p true xs);
}
NthFrom-skip num nth index n p false xs r le v = record {
  found = λ h. ground (
    arith,
    v.found,
    num_true-run p false xs,
    bit_at-run p false xs (r - index),
    num_true-take_run (r - index) p false xs,
  );
  missing = λ h. ground (arith, v.missing, num_true-run p false xs);
}

NthFrom-here :
    (num nth index n p : ℕ) (xs : List Bool)
    → n ≤ nth
    → nth < n + p
    → NthFrom num nth index n (replicate p true ++ xs) (index + (nth - n))
NthFrom-here num nth index n p xs le lt = record {
  found =
      λ h. ground (arith, bit_at-run p true xs (nth - n), num_true-take_run (nth - n) p true xs);
  missing = λ h. absurd (omega (arith, num_true-run p true xs));
}

nth_in_words-NthFrom :
    (num nth index n : ℕ) (b : Bool) (ps : List ℕ)
    → n ≤ nth
    → n + sum ps < 2 ^ 32
    → index + sum ps < 2 ^ 32
    → NthFrom num nth index n (expand b ps) (nth_in_words num nth index n b ps)
nth_in_words-NthFrom num nth index n b [] le hn hi = record {
  found = λ h. absurd (omega arith);
  missing = λ h. unfold nth_in_words in refl;
}
nth_in_words-NthFrom num nth index n true (p ∷ ps) le hn hi = elim (dec_lt nth (n + p)) [
  | yes here ↦
      rw (nth_in_words-eq num nth index n true p ps le hn hi, lt→ltb nth (n + p) here)
        (NthFrom-here num nth index n p (expand false ps) le here)
  | no later ↦
      let past : ltb nth (n + p) ≡ false = ground arith in
      rw (nth_in_words-eq num nth index n true p ps le hn hi, past)
        (NthFrom-skip num nth index n p true (expand false ps) _ (omega arith) (
          nth_in_words-NthFrom num nth (index + p) (n + p * 1) false ps (omega arith) (omega arith)
            (omega arith)))
]
nth_in_words-NthFrom num nth index n false (p ∷ ps) le hn hi =
    rw (nth_in_words-eq num nth index n false p ps le hn hi) (
      NthFrom-skip num nth index n p false (expand true ps) _ (omega arith) (
        nth_in_words-NthFrom num nth (index + p) (n + p * 0) true ps (omega arith) (omega arith)
          (omega arith)))

-- `FindNthSet` of a valid array returns the set bit that has `nth` set bits before it, and the size
-- if there are not that many.
pub find_nth_set-IsNth :
    (c : CompressedBits) (nth : ℕ) → IsValid c → IsNth (decode c) c.num nth (find_nth_set c nth)
unfolding find_nth_set
find_nth_set-IsNth c nth v = ground (arith, r.found, r.missing)
  where
    r : NthFrom c.num nth 0 0 (decode c) (nth_in_words c.num nth 0 0 c.running_bit c.platforms)
    r =
        nth_in_words-NthFrom c.num nth 0 0 c.running_bit c.platforms (omega arith)
          (omega (arith, v.total, v.fits)) (omega (arith, v.total, v.fits))

-- The tests on the running bit and the number of platforms, as statements about the set bits.
pub record Tests (c : CompressedBits) : Type 0 where
  pub all : are_all_set c ≡ (num_true (decode c) == c.num)
  pub any : is_any_set c ≡ ltb 0 (num_true (decode c))
  pub any_unset : is_any_unset c ≡ ltb (num_true (decode c)) c.num

abbrev bits_of : Bool → ℕ → List ℕ → CompressedBits
bits_of b num ps = record { platforms = ps; num = num; running_bit = b }

num_true-expand-le : (b : Bool) (ps : List ℕ) → num_true (expand b ps) ≤ sum ps
num_true-expand-le b ps = omega (arith, num_true-le (expand b ps), length-expand b ps)

bits_of-Tests :
    (b : Bool) (num : ℕ) (ps : List ℕ) → IsValid (bits_of b num ps) → Tests (bits_of b num ps)
unfolding are_all_set is_any_set is_any_unset
bits_of-Tests b num [] v = absurd (ground (arith, v.total, v.shape))
bits_of-Tests true num (p ∷ []) v = ground (arith, v.total, num_true-run p true [])
bits_of-Tests false num (p ∷ []) v = ground (arith, v.total, num_true-run p false [])
bits_of-Tests true num (p ∷ q ∷ ps) v = ground (
  arith,
  v.total,
  num_true-run p true (replicate q false ++ expand true ps),
  num_true-run q false (expand true ps),
  num_true-expand-le true ps,
)
bits_of-Tests false num (p ∷ q ∷ ps) v = ground (
  arith,
  v.total,
  num_true-run p false (replicate q true ++ expand false ps),
  num_true-run q true (expand false ps),
  num_true-expand-le false ps,
)

-- `AreAllSet`, `IsAnySet` and `IsAnyUnset` of a valid array decide whether all bits are set, some
-- bit is set, and not all bits are set.
pub platform-Tests : (c : CompressedBits) → IsValid c → Tests c
platform-Tests c v = bits_of-Tests c.running_bit c.num c.platforms v
