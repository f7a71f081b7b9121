-- ===== src/DenseHash/Filled.antt =====
-- tf/denseHashMap.h: what the loops over a vector leave in the table.
use pxr_tf.Base.{
  ℕ, suc, ◌+◌, ◌<◌, ◌≡◌, List, [], ◌∷◌, Option, none, some, arith, ltb, if◌then◌else◌, length,
}
use pxr_tf.DenseHash.Index.{Eq, HashIndex}
use pxr_tf.DenseHash.{find_in_vec, erase_keys, put_all, fill}
use pxr_tf.DenseHash.Search.{Distinct, slot, find_in_vec-le, Absent-congr, beq_refl}

module _ {E K : Type 0} ⦃e : Eq K⦄ (key : E → K) (hash : HashIndex K) where
  -- A way to store a key that the table does not have.
  abbrev pub Stores : (hash.Table → K → ℕ → hash.Table) → Type 0
  Stores store =
      (t : hash.Table) (k : K) (i : ℕ) (j : K)
      → hash.find t k ≡ none
      → hash.find (store t k i) j ≡ (if e.beq k j then some i else hash.find t j)

  -- The position of a key in `xs`, where the first has position `i`, or what the table had.
  abbrev pub placed : hash.Table → ℕ → List E → K → Option ℕ
  placed t i xs k =
      if ltb (find_in_vec key k xs) (length xs)
      then some (i + find_in_vec key k xs)
      else hash.find t k

  abbrev pub NoneOf : hash.Table → List E → Type 0
  NoneOf t xs = (k : K) → find_in_vec key k xs < length xs → hash.find t k ≡ none

  pub find-fill :
      (store : hash.Table → K → ℕ → hash.Table) (t : hash.Table) (i : ℕ) (xs : List E) (k : K)
      → Stores store
      → Distinct key xs
      → NoneOf t xs
      → hash.find (fill key hash store t i xs) k ≡ placed t i xs k
  unfolding fill find_in_vec
  find-fill store t i [] k st d h = ground arith
  find-fill store t i (x ∷ xs) k st d h = ground (
    arith,
    find-fill store (store t (key x) i) (suc i) xs k st d.1 fresh,
    st t (key x) i k here,
    Absent-congr key (key x) k xs,
    find_in_vec-le key k xs,
  )
    where
      here : hash.find t (key x) ≡ none
      here = h (key x) (ground (arith, beq_refl (key x)))

      fresh : NoneOf (store t (key x) i) xs
      fresh j lt = ground (arith, st t (key x) i j here, Absent-congr key (key x) j xs, h j)

  pub find-put_all :
      (t : hash.Table) (i : ℕ) (xs : List E) (k : K)
      → Distinct key xs
      → hash.find (put_all key hash t i xs) k ≡ placed t i xs k
  unfolding put_all find_in_vec
  find-put_all t i [] k d = ground arith
  find-put_all t i (x ∷ xs) k d = ground (
    arith,
    find-put_all (hash.put t (key x) i) (suc i) xs k d.1,
    hash.find-put t (key x) i k,
    Absent-congr key (key x) k xs,
    find_in_vec-le key k xs,
  )

  pub find-erase_keys :
      (t : hash.Table) (xs : List E) (k : K)
      → hash.find (erase_keys key hash t xs) k
        ≡ (if ltb (find_in_vec key k xs) (length xs) then none else hash.find t k)
  unfolding erase_keys find_in_vec
  find-erase_keys t [] k = ground arith
  find-erase_keys t (x ∷ xs) k =
      ground (arith, find-erase_keys (hash.erase t (key x)) xs k, hash.find-erase t (key x) k)

  -- The table of a vector with distinct keys.
  pub find-fill_new :
      (store : hash.Table → K → ℕ → hash.Table) (xs : List E) (k : K)
      → Stores store
      → Distinct key xs
      → hash.find (fill key hash store hash.new 0 xs) k ≡ slot key k xs
  find-fill_new store xs k st d =
      ground
        (arith, find-fill store hash.new 0 xs k st d (λ j lt. hash.find-new j), hash.find-new k)
