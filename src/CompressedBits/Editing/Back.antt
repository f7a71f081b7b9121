-- ===== src/CompressedBits/Editing/Back.antt =====
-- tf/compressedBits.h: words added and trimmed at the back, bit by bit.
use mathlib.Core.List.{reverse-cons, reverse-reverse}
use pxr_tf.Base.{
  ℕ, zero, suc, ◌+◌, ◌-◌, ◌^◌, ◌≤◌, ◌<◌, ◌≡◌, refl, ap, ◌∙◌, sym, Bool, true, false, not, List, [],
  ◌∷◌, ◌++◌, reverse, arith, ltb, leb, if◌then◌else◌, length, replicate, append_assoc, append-nil,
  not-not, u32, replicate-add, ap₂, dec_lt,
}
use pxr_tf.CompressedBits.Defs.{expand, sum, AllPos}
use pxr_tf.CompressedBits.Expand.{length-expand}
use pxr_tf.CompressedBits.Positions.{bit_at, bit_at-run}
use pxr_tf.CompressedBits.Queries.Ends.{last_bit}
use pxr_tf.CompressedBits.Editing.{add_back, trim, trim_back}

pub bit_at-append :
    (xs ys : List Bool) (i : ℕ)
    → bit_at (xs ++ ys) i ≡ (if ltb i (length xs) then bit_at xs i else bit_at ys (i - length xs))
bit_at-append [] ys i = ground arith
bit_at-append (x ∷ xs) ys zero = ground arith
bit_at-append (x ∷ xs) ys (suc i) = ground (arith, bit_at-append xs ys i)

pub sum-append : (ps qs : List ℕ) → sum (ps ++ qs) ≡ sum ps + sum qs
sum-append [] qs = omega arith
sum-append (p ∷ ps) qs = omega (arith, sum-append ps qs)

pub AllPos-append : (ps qs : List ℕ) → AllPos ps → AllPos qs → AllPos (ps ++ qs)
AllPos-append [] qs h k = k
AllPos-append (p ∷ ps) qs h k = (h.0, AllPos-append ps qs h.1 k)

pub sum-reverse : (ps : List ℕ) → sum (reverse ps) ≡ sum ps
sum-reverse [] = refl
sum-reverse (p ∷ ps) =
    omega (arith, ap sum (reverse-cons p ps), sum-append (reverse ps) (p ∷ []), sum-reverse ps)

pub AllPos-reverse : (ps : List ℕ) → AllPos ps → AllPos (reverse ps)
AllPos-reverse [] h = h
AllPos-reverse (p ∷ ps) h =
    rw (reverse-cons p ps) (AllPos-append (reverse ps) (p ∷ []) (AllPos-reverse ps h.1) (h.0, tt))

-- A new last word holds the bit that the last platform does not hold.
pub expand-snoc :
    (b : Bool) (ps : List ℕ) (n : ℕ)
    → expand b (ps ++ n ∷ []) ≡ expand b ps ++ replicate n (not (last_bit b ps))
unfolding last_bit
expand-snoc b [] n = append-nil (replicate n b) ∙ ap (replicate n) (sym (not-not b))
expand-snoc b (p ∷ ps) n =
    ap (◌++◌ (replicate p b)) (expand-snoc (not b) ps n)
    ∙ sym (append_assoc (replicate p b) (expand (not b) ps) _)

pub expand-add_back :
    (b : Bool) (p : ℕ) (ps : List ℕ) (n : ℕ)
    → sum (p ∷ ps) + n < 2 ^ 32
    → expand b (add_back n (p ∷ ps)) ≡ expand b (p ∷ ps) ++ replicate n (last_bit b (p ∷ ps))
unfolding last_bit add_back
expand-add_back b p [] n h =
    let wide : u32 (p + n) ≡ p + n = omega arith in
    append-nil (replicate (u32 (p + n)) b)
    ∙ ap (λ k. replicate k b) wide
    ∙ replicate-add p n b
    ∙ ap₂ ◌++◌ (sym (append-nil (replicate p b))) (ap (replicate n) (sym (not-not b)))
expand-add_back b p (q ∷ ps) n h =
    ap (◌++◌ (replicate p b)) (expand-add_back (not b) q ps n (omega arith))
    ∙ sym (append_assoc (replicate p b) (expand (not b) (q ∷ ps)) _)

pub sum-add_back :
    (p : ℕ) (ps : List ℕ) (n : ℕ)
    → sum (p ∷ ps) + n < 2 ^ 32
    → sum (add_back n (p ∷ ps)) ≡ sum (p ∷ ps) + n
unfolding add_back
sum-add_back p [] n h = omega arith
sum-add_back p (q ∷ ps) n h = omega (arith, sum-add_back q ps n (omega arith))

pub AllPos-add_back :
    (p : ℕ) (ps : List ℕ) (n : ℕ)
    → sum (p ∷ ps) + n < 2 ^ 32
    → AllPos (p ∷ ps)
    → AllPos (add_back n (p ∷ ps))
unfolding add_back
AllPos-add_back p [] n h pos = (omega (arith, pos.0), tt)
AllPos-add_back p (q ∷ ps) n h pos = (pos.0, AllPos-add_back q ps n (omega arith) pos.1)

-- Trimming keeps the first bits.
pub record Trims (b : Bool) (diff : ℕ) (ps qs : List ℕ) : Type 0 where
  pub total : sum qs + diff ≡ sum ps
  pub positive : AllPos qs
  pub kept :
      (i : ℕ) → bit_at (expand b qs) i ≡ (if ltb i (sum qs) then bit_at (expand b ps) i else false)

pub bit_at-replicate :
    (n : ℕ) (b : Bool) (i : ℕ) → bit_at (replicate n b) i ≡ (if ltb i n then b else false)
bit_at-replicate n b i =
    ap (λ xs. bit_at xs i) (sym (append-nil (replicate n b))) ∙ bit_at-run n b [] i

-- The bits of a word array with one word more at the back.
pub bit_at-snoc :
    (b : Bool) (ps : List ℕ) (n i : ℕ)
    → bit_at (expand b (ps ++ n ∷ [])) i ≡ (
        if ltb i (sum ps)
        then bit_at (expand b ps) i
        else if ltb i (sum ps + n)
        then not (last_bit b ps)
        else false)
bit_at-snoc b ps n i =
    ap (λ xs. bit_at xs i) (expand-snoc b ps n)
    ∙ ground (
      arith,
      bit_at-append (expand b ps) (replicate n (not (last_bit b ps))) i,
      length-expand b ps,
      bit_at-replicate n (not (last_bit b ps)) (i - sum ps),
    )

trim_cut :
    (b : Bool) (diff p : ℕ) (ps : List ℕ)
    → AllPos ps
    → diff < p
    → Trims b diff (ps ++ p ∷ []) (ps ++ (p - diff) ∷ [])
trim_cut b diff p ps pos lt = record {
  total = omega (arith, sum-append ps (p ∷ []), sum-append ps ((p - diff) ∷ []));
  positive = AllPos-append ps ((p - diff) ∷ []) pos (omega arith, tt);
  kept = λ i.
      ground (
        arith,
        bit_at-snoc b ps p i,
        bit_at-snoc b ps (p - diff) i,
        sum-append ps ((p - diff) ∷ []),
      );
}

trim_whole :
    (b : Bool) (diff p : ℕ) (ps qs : List ℕ)
    → p ≤ diff
    → Trims b (diff - p) ps qs
    → Trims b diff (ps ++ p ∷ []) qs
trim_whole b diff p ps qs le t = record {
  total = omega (arith, t.total, sum-append ps (p ∷ []));
  positive = t.positive;
  kept = λ i. ground (arith, t.total, t.kept i, bit_at-snoc b ps p i);
}

trim-Trims :
    (b : Bool) (diff : ℕ) (ps : List ℕ)
    → AllPos ps
    → diff < sum ps
    → Trims b diff (reverse ps) (reverse (trim diff ps))
unfolding trim
trim-Trims b diff [] pos lt = absurd (omega arith)
trim-Trims b diff (p ∷ ps) pos lt = elim (dec_lt diff p) [
  | yes cut ↦
      let t : leb p diff ≡ false = ground arith in
      rw (t, reverse-cons (p - diff) ps, reverse-cons p ps)
        (trim_cut b diff p (reverse ps) (AllPos-reverse ps pos.1) cut)
  | no whole ↦
      let t : leb p diff ≡ true = ground arith in
      rw (t, reverse-cons p ps)
        (trim_whole b diff p (reverse ps) _ (omega arith)
          (trim-Trims b (diff - p) ps pos.1 (omega arith)))
]

-- Trimming `diff` bits at the back keeps the bits before them, and leaves no empty platform.
pub trim_back-Trims :
    (b : Bool) (diff : ℕ) (ps : List ℕ)
    → AllPos ps
    → diff < sum ps
    → Trims b diff ps (trim_back diff ps)
unfolding trim_back
trim_back-Trims b diff ps pos lt =
    rw (reverse-reverse ps) at
      (trim-Trims b diff (reverse ps) (AllPos-reverse ps pos) (omega (arith, sum-reverse ps)))

-- The bits of a word array whose last platform grows.
pub bit_at-add_back :
    (b : Bool) (ps : List ℕ) (n i : ℕ)
    → 0 < sum ps
    → sum ps + n < 2 ^ 32
    → bit_at (expand b (add_back n ps)) i ≡ (
        if ltb i (sum ps)
        then bit_at (expand b ps) i
        else if ltb i (sum ps + n)
        then last_bit b ps
        else false)
bit_at-add_back b [] n i pos h = absurd (omega arith)
bit_at-add_back b (p ∷ ps) n i pos h =
    ap (λ xs. bit_at xs i) (expand-add_back b p ps n h)
    ∙ ground (
      arith,
      bit_at-append (expand b (p ∷ ps)) (replicate n (last_bit b (p ∷ ps))) i,
      length-expand b (p ∷ ps),
      bit_at-replicate n (last_bit b (p ∷ ps)) (i - sum (p ∷ ps)),
    )

pub add_back-shape :
    (ps : List ℕ) (n : ℕ)
    → 0 < sum ps
    → sum ps + n < 2 ^ 32
    → AllPos ps
    → (sum (add_back n ps) ≡ sum ps + n) × AllPos (add_back n ps)
add_back-shape [] n pos h all = absurd (omega arith)
add_back-shape (p ∷ ps) n pos h all = (sum-add_back p ps n h, AllPos-add_back p ps n h all)
