-- ===== src/CompressedBits/Views/Bits.antt =====
-- tf/compressedBits.h, `View`: the loops over the bits, from `begin` to `end`.
use pxr_tf.Base.{
  ℕ, suc, ◌<◌, ◌≡◌, refl, ap, ◌∙◌, sym, Bool, true, false, not, List, [], ◌∷◌, ◌++◌, some, arith,
  replicate, dec_lt, Bool-cases, inl, inr,
}
use pxr_tf.CompressedBits.Defs.{CompressedBits, IsValid, decode, expand}
use pxr_tf.CompressedBits.Queries.Search.{IsValid-pos}
use pxr_tf.CompressedBits.Views.{Mode, all, all_set, all_unset, skips_first, begin_at, visit, view}
use pxr_tf.CompressedBits.Queries.Ends.{platforms-cons}
use pxr_tf.CompressedBits.Views.Steps.{accepts, picked, picked-skipped, visit-end, behind}
use pxr_tf.CompressedBits.Views.Loop.{Visits-behind, Visits-enter, Visits-word}

view-eq :
    (mode : Mode) (c : CompressedBits) → view mode c ≡ visit mode c (suc c.num) (begin_at mode c)
unfolding view
view-eq mode c = refl

begin_at-second :
    (mode : Mode) (c : CompressedBits) (p : ℕ) (rest : List ℕ)
    → skips_first mode c.running_bit ≡ true
    → c.platforms ≡ p ∷ rest
    → begin_at mode c ≡ behind 1 p (not c.running_bit)
unfolding begin_at
begin_at-second mode c p rest h e = ground (arith, h, e)

begin_at-start :
    (mode : Mode) (c : CompressedBits)
    → skips_first mode c.running_bit ≡ false
    → begin_at mode c ≡ behind 0 0 c.running_bit
unfolding begin_at
begin_at-start mode c h = ground (arith, h)

begin_at-empty :
    (mode : Mode) (c : CompressedBits) → c.platforms ≡ 0 ∷ [] → (begin_at mode c).bit_index ≡ 0
unfolding begin_at
begin_at-empty mode c e = ground (arith, e)

accepts-first : (mode : Mode) (b : Bool) → skips_first mode b ≡ false → accepts mode b ≡ true
accepts-first all b h = refl
accepts-first all_set b h = ground (arith, h)
accepts-first all_unset b h = ground (arith, h)

accepts-second :
    (mode : Mode) (b : Bool)
    → skips_first mode b ≡ true
    → (accepts mode b ≡ false) × (accepts mode (not b) ≡ true)
accepts-second all b h = absurd (ground (arith, h))
accepts-second all_set b h = ground (arith, h)
accepts-second all_unset b h = ground (arith, h)

module _ (mode : Mode) (c : CompressedBits) (v : IsValid c) (p : ℕ) (rest : List ℕ)
    (e : c.platforms ≡ p ∷ rest) where
  decode-run : decode c ≡ replicate p c.running_bit ++ expand (not c.running_bit) rest
  decode-run = ap (expand c.running_bit) e

  view-empty : c.num ≡ 0 → view mode c ≡ some (picked mode 0 (decode c))
  view-empty h =
      let (words, bit) = none_of h in
      view-eq mode c
      ∙ visit-end mode c c.num (begin_at mode c) v.fits (begin_at-empty mode c words ∙ sym h)
      ∙ ap (λ ps. some (picked mode 0 (expand c.running_bit ps))) (sym words)
    where
      none_of : c.num ≡ 0 → (c.platforms ≡ 0 ∷ []) × (c.running_bit ≡ false)
      none_of h = ground (arith, v.shape)

  view-pos : 0 < c.num → view mode c ≡ some (picked mode 0 (decode c))
  view-pos h = elim (Bool-cases (skips_first mode c.running_bit)) [
    | inl sk ↦
        let (no_first, second) = accepts-second mode c.running_bit sk in
        view-eq mode c
        ∙ ap (visit mode c (suc c.num)) (begin_at-second mode c p rest sk e)
        ∙ Visits-behind mode c v.fits (suc c.num) (p ∷ []) rest 1 p (not c.running_bit)
            (Visits-word mode c v.fits (suc c.num)) refl e (ground (arith, IsValid-pos c v h))
            (ground (arith, v.total)) second (omega arith) (omega arith)
        ∙ ap some (
            sym (
              ap (picked mode 0) decode-run
              ∙ picked-skipped mode 0 p c.running_bit (expand (not c.running_bit) rest) no_first
              ∙ ap (λ n. picked mode n (expand (not c.running_bit) rest)) (omega arith)))
    | inr st ↦
        view-eq mode c
        ∙ ap (visit mode c (suc c.num)) (begin_at-start mode c st)
        ∙ Visits-enter mode c v.fits (suc c.num) 0 [] p rest 0 c.running_bit
            (Visits-word mode c v.fits (suc c.num)) refl e (ground (arith, IsValid-pos c v h))
            (ground (arith, v.total)) (accepts-first mode c.running_bit st) (omega arith)
        ∙ ap (λ bs. some (picked mode 0 bs)) (sym decode-run)
  ]

-- The loop over the bits of a valid array, in each of the three modes, ends, and it visits the bits
-- that the mode asks for, in order: each bit, the set bits, or the unset bits, with their values.
pub view-picked :
    (mode : Mode) (c : CompressedBits) → IsValid c → view mode c ≡ some (picked mode 0 (decode c))
view-picked mode c v =
    let (p, rest, e) = platforms-cons c v in
    elim (dec_lt 0 c.num) [
      | yes pos ↦ view-pos mode c v p rest e pos
      | no none_left ↦ view-empty mode c v p rest e (omega arith)
    ]
