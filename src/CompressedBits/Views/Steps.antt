-- ===== src/CompressedBits/Views/Steps.antt =====
-- tf/compressedBits.h, `View`: one pass of the loop over the bits.
use pxr_tf.Base.{
  ℕ, zero, suc, ◌+◌, ◌-◌, ◌^◌, ◌≤◌, ◌<◌, ◌≡◌, refl, ap, ◌∙◌, Bool, true, false, not, ◌&&◌, List, [],
  ◌∷◌, ◌++◌, some, arith, ltb, if◌then◌else◌, length, length-append, replicate, get_or,
}
use pxr_tf.CompressedBits.Defs.{CompressedBits, sum}
use pxr_tf.CompressedBits.Views.{
  Mode, all, all_set, all_unset, skips, Iterator, end_at, equal, next_word, increment, visit,
}

-- The bits that a mode visits.
abbrev pub accepts : Mode → Bool → Bool
accepts all b = true
accepts all_set b = b
accepts all_unset b = not b

-- The visits that are due for the bits from `index` on.
abbrev pub picked : Mode → ℕ → List Bool → List (ℕ × Bool)
picked mode index [] = []
picked mode index (b ∷ bs) =
    if accepts mode b then (index, b) ∷ picked mode (suc index) bs else picked mode (suc index) bs

pub picked-skipped :
    (mode : Mode) (index p : ℕ) (b : Bool) (bs : List Bool)
    → accepts mode b ≡ false
    → picked mode index (replicate p b ++ bs) ≡ picked mode (index + p) bs
picked-skipped mode index zero b bs h = ap (λ n. picked mode n bs) (omega arith)
picked-skipped mode index (suc p) b bs h =
    rw h (picked-skipped mode (suc index) p b bs h ∙ ap (λ n. picked mode n bs) (omega arith))

get_or-append : (pre ps : List ℕ) (j : ℕ) → get_or (pre ++ ps) (length pre + j) 0 ≡ get_or ps j 0
get_or-append [] ps j = ap (λ n. get_or ps n 0) (omega arith)
get_or-append (x ∷ pre) ps j =
    let shift : suc (length pre) + j ≡ suc (length pre + j) = omega arith in
    ap (λ n. get_or (x ∷ pre ++ ps) n 0) shift ∙ get_or-append pre ps j

pub accepts-each : (mode : Mode) (b : Bool) → skips mode ≡ false → accepts mode b ≡ true
accepts-each all b h = refl
accepts-each all_set b h = cc
accepts-each all_unset b h = cc

pub accepts-other :
    (mode : Mode) (b : Bool)
    → skips mode ≡ true
    → accepts mode b ≡ true
    → accepts mode (not b) ≡ false
accepts-other all b h acc = cc
accepts-other all_set b h acc = ap not acc
accepts-other all_unset b h acc = ap not acc

pub visit-end :
    (mode : Mode) (c : CompressedBits) (fuel : ℕ) (it : Iterator)
    → c.num < 2 ^ 32
    → it.bit_index ≡ c.num
    → visit mode c (suc fuel) it ≡ some []
unfolding visit equal end_at
visit-end mode c fuel it fits h = ground arith

pub visit-step :
    (mode : Mode) (c : CompressedBits) (fuel : ℕ) (it next : Iterator) (vs : List (ℕ × Bool))
    → c.num < 2 ^ 32
    → it.bit_index < c.num
    → increment mode c it ≡ next
    → visit mode c fuel next ≡ some vs
    → visit mode c (suc fuel) it ≡ some ((it.bit_index, it.value) ∷ vs)
unfolding visit equal end_at
visit-step mode c fuel it next vs fits lt e h = ground (arith, ap (visit mode c fuel) e)

pub picked-first :
    (mode : Mode) (index p k : ℕ) (b : Bool) (bs : List Bool)
    → accepts mode b ≡ true
    → k < p
    → picked mode index (replicate (p - k) b ++ bs)
      ≡ (index, b) ∷ picked mode (suc index) (replicate (p - suc k) b ++ bs)
picked-first mode index p k b bs h lt =
    let more : p - k ≡ suc (p - suc k) = omega arith in rw (more, h) refl

-- The iterator in the platform behind `pre`, at its bit `k`; the platform starts at `base`.
abbrev pub inside : List ℕ → ℕ → ℕ → Bool → Iterator
inside pre base k b = record {
  platform_index = length pre;
  bit_index = base + k;
  bit_counter = k;
  value = b;
}

abbrev pub behind : ℕ → ℕ → Bool → Iterator
behind i index b = record { platform_index = i; bit_index = index; bit_counter = 0; value = b }

module _ (mode : Mode) (c : CompressedBits) (fits : c.num < 2 ^ 32) where
  module _ (pre : List ℕ) (p : ℕ) (rest : List ℕ) (base k : ℕ) (b : Bool)
      (e : c.platforms ≡ pre ++ p ∷ rest) (lt : k < p) (total : base + (p + sum rest) ≡ c.num) where
    word_here : get_or c.platforms (length pre) 0 ≡ p
    word_here =
        ap (λ ps. get_or ps (length pre) 0) e
        ∙ ap (λ n. get_or (pre ++ p ∷ rest) n 0) (omega arith)
        ∙ get_or-append pre (p ∷ rest) 0

    word_next : get_or c.platforms (suc (length pre)) 0 ≡ get_or rest 0 0
    word_next =
        ap (λ ps. get_or ps (suc (length pre)) 0) e
        ∙ ap (λ n. get_or (pre ++ p ∷ rest) n 0) (omega arith)
        ∙ get_or-append pre (p ∷ rest) 1

    num_words : length c.platforms ≡ length pre + suc (length rest)
    num_words = ap length e ∙ length-append pre (p ∷ rest)

    pub increment-inside :
        suc k < p → increment mode c (inside pre base k b) ≡ inside pre base (suc k) b
    unfolding increment
    increment-inside more = ground (arith, word_here)

    pub increment-over :
        suc k ≡ p
        → (skips mode && ltb 0 (length rest)) ≡ false
        → increment mode c (inside pre base k b) ≡ behind (suc (length pre)) (base + p) (not b)
    unfolding increment next_word
    increment-over done stays = ground (arith, word_here, num_words)

    pub increment-skip :
        suc k ≡ p
        → (skips mode && ltb 0 (length rest)) ≡ true
        → base + (p + get_or rest 0 0) ≤ c.num
        → increment mode c (inside pre base k b)
          ≡ behind (suc (suc (length pre))) (base + p + get_or rest 0 0) b
    unfolding increment next_word
    increment-skip done skipped le = ground (arith, word_here, word_next, num_words)
