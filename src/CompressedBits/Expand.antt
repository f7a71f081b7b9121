-- ===== src/CompressedBits/Expand.antt =====
-- tf/compressedBits.h: the list of bits that a word array stands for.
use mathlib.Core.List.{zip_with}
use pxr_tf.Base.{
  ℕ, zero, suc, ◌+◌, ◌≡◌, refl, ap, Bool, not, List, [], ◌∷◌, ◌++◌, append_assoc, arith, length,
  length-append, length-replicate, replicate, replicate-add,
}
use pxr_tf.CompressedBits.Defs.{CompressedBits, IsValid, decode, expand, sum}

pub length-expand : (b : Bool) (ps : List ℕ) → length (expand b ps) ≡ sum ps
length-expand b [] = refl
length-expand b (p ∷ ps) = omega (
  arith,
  length-append {0} (replicate p b) (expand (not b) ps),
  length-replicate {0} p b,
  length-expand (not b) ps,
)

-- The bit array has as many bits as its size says.
pub length-decode : (c : CompressedBits) → IsValid c → length (decode c) ≡ c.num
length-decode c v = omega (arith, length-expand c.running_bit c.platforms)

pub zip-replicate :
    (op : Bool → Bool → Bool) (n : ℕ) (x y : Bool) (xs ys : List Bool)
    → zip_with op (replicate n x ++ xs) (replicate n y ++ ys)
      ≡ replicate n (op x y) ++ zip_with op xs ys
unfolding zip_with
zip-replicate op zero x y xs ys = refl
zip-replicate op (suc n) x y xs ys = ap (◌∷◌ (op x y)) (zip-replicate op n x y xs ys)

pub zip-run :
    (op : Bool → Bool → Bool) (n m k : ℕ) (x y : Bool) (xs ys : List Bool)
    → m ≡ n + k
    → zip_with op (replicate n x ++ xs) (replicate m y ++ ys)
      ≡ replicate n (op x y) ++ zip_with op xs (replicate k y ++ ys)
zip-run op n m k x y xs ys e =
    rw (e, replicate-add n k y, append_assoc (replicate n y)) (zip-replicate op n x y xs _)

pub run-zip :
    (op : Bool → Bool → Bool) (n m k : ℕ) (x y : Bool) (xs ys : List Bool)
    → m ≡ n + k
    → zip_with op (replicate m x ++ xs) (replicate n y ++ ys)
      ≡ replicate n (op x y) ++ zip_with op (replicate k x ++ xs) ys
run-zip op n m k x y xs ys e =
    rw (e, replicate-add n k x, append_assoc (replicate n x)) (zip-replicate op n x y _ ys)
