-- ===== src/DenseHash/Set.antt =====
-- tf/denseHashSet.h: the set, whose elements are their keys. It fills its table with `operator[]`, where
-- the map calls `insert`; its functions are those of the map but for that.
use pxr_tf.Base.{ℕ, Bool, true, List, ◌≡◌, ◌↔◌, refl}
use pxr_tf.DenseHash
use pxr_tf.DenseHash.Index.{Eq, HashIndex}
use pxr_tf.DenseHash.Search.{entry}
use pxr_tf.DenseHash.Valid.{IsValid}
use pxr_tf.DenseHash.Equal.{equal_iff}

module _ {K : Type 0} ⦃e : Eq K⦄ (hash : HashIndex K) (threshold : ℕ) where
  abbrev pub Members : Type 0
  Members = DenseHash.Dense K hash.Table

  abbrev pub itself : K → K
  itself k = k

  pub find : Members → K → ℕ
  find = DenseHash.find itself hash hash.put threshold

  pub count : Members → K → Bool
  count = DenseHash.count itself hash hash.put threshold

  pub insert : Members → K → Members × ℕ × Bool
  insert = DenseHash.insert itself hash hash.put threshold

  pub insert_range : Members → List K → Members
  insert_range = DenseHash.insert_range itself hash hash.put threshold

  pub insert_unique : Members → List K → Members
  insert_unique = DenseHash.insert_unique itself hash hash.put threshold

  pub erase : Members → K → Members × ℕ
  erase = DenseHash.erase itself hash hash.put threshold

  pub erase_at : Members → ℕ → Members
  erase_at = DenseHash.erase_at itself hash hash.put threshold

  pub clear : Members → Members
  clear = DenseHash.clear itself hash hash.put threshold

  pub shrink_to_fit : Members → Members
  shrink_to_fit = DenseHash.shrink_to_fit itself hash hash.put threshold

  -- `operator==` looks only for the elements.
  pub equal : Members → Members → Bool
  equal = DenseHash.equal itself hash hash.put threshold (λ a b. true)

  -- `operator==` between sets whose tables agree with their vectors answers yes exactly if they have the
  -- same elements.
  pub equal_lem :
      (a b : Members)
      → IsValid itself hash a
      → IsValid itself hash b
      → (equal a b ≡ true) ↔ ((k : K) → entry itself k a.vec ≡ entry itself k b.vec)
  unfolding equal
  equal_lem a b =
      equal_iff itself hash hash.put threshold (λ x y. true) a b (λ x y p. (λ t. p, λ t. refl))
