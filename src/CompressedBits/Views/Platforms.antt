-- ===== src/CompressedBits/Views/Platforms.antt =====
-- tf/compressedBits.h, `View<Mode::Platforms>`: the loop over the platforms.
use pxr_tf.Base.{
  ℕ, zero, suc, ◌+◌, ◌^◌, ◌<◌, ◌≡◌, refl, ap, ◌∙◌, sym, Bool, not, List, [], ◌∷◌, ◌++◌, arith, u32,
  replicate, some,
}
use pxr_tf.CompressedBits.Defs.{CompressedBits, IsValid, decode, expand, sum}
use pxr_tf.CompressedBits.Views.{Mode, all, visit_platforms, platforms_view, view}
use pxr_tf.CompressedBits.Views.Steps.{picked}
use pxr_tf.CompressedBits.Views.Bits.{view-picked}

-- The visits of the bits of one platform.
abbrev pub stamps : ℕ → ℕ → Bool → List (ℕ × Bool)
stamps index zero value = []
stamps index (suc n) value = (index, value) ∷ stamps (suc index) n value

abbrev pub spread : List (ℕ × ℕ × Bool) → List (ℕ × Bool)
spread [] = []
spread ((index, size, value) ∷ vs) = stamps index size value ++ spread vs

picked-run :
    (index p : ℕ) (b : Bool) (bs : List Bool)
    → picked all index (replicate p b ++ bs) ≡ stamps index p b ++ picked all (index + p) bs
picked-run index zero b bs = ap (λ n. picked all n bs) (omega arith)
picked-run index (suc p) b bs =
    ap (λ vs. (index, b) ∷ vs)
      (picked-run (suc index) p b bs
        ∙ ap (λ n. stamps (suc index) p b ++ picked all n bs) (omega arith))

spread-visits :
    (index : ℕ) (b : Bool) (ps : List ℕ)
    → index + sum ps < 2 ^ 32
    → spread (visit_platforms ps index b) ≡ picked all index (expand b ps)
unfolding visit_platforms
spread-visits index b [] h = refl
spread-visits index b (p ∷ ps) h =
    let fits : u32 (index + p) ≡ index + p = omega arith in
    rw (fits, spread-visits (index + p) (not b) ps (omega arith))
      (sym (picked-run index p b (expand (not b) ps)))

-- The platforms view of a valid array, each platform spread over its bits from its start, is the
-- view of all bits.
pub platforms_view-spread :
    (c : CompressedBits) → IsValid c → view all c ≡ some (spread (platforms_view c))
unfolding platforms_view
platforms_view-spread c v =
    view-picked all c v
    ∙ ap some (sym (spread-visits 0 c.running_bit c.platforms (omega (arith, v.total, v.fits))))

-- The loop over the bits of a valid array, in each of the three modes, ends, and it visits the bits
-- that the mode asks for, in order, with their values; and the platforms view of the array, each
-- platform spread over its bits from its start, is the view of all bits.
pub views :
    (mode : Mode) (c : CompressedBits)
    → IsValid c
    → (view mode c ≡ some (picked mode 0 (decode c)))
      × (view all c ≡ some (spread (platforms_view c)))
views mode c v = (view-picked mode c v, platforms_view-spread c v)
