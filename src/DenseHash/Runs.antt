-- ===== src/DenseHash/Runs.antt =====
-- tf/denseHashMap.h: sequences of operations on a container that starts empty, and `find` and `count`
-- after them.
use pxr_tf.Base.{
  ℕ, ◌≡◌, refl, ap, ◌∙◌, Bool, true, false, List, [], ◌∷◌, Option, none, some, arith, ltb,
  if◌then◌else◌, length, get_elem?, Bool-cases, inl, inr,
}
use pxr_tf.DenseHash.Index.{Eq, HashIndex}
use pxr_tf.DenseHash.{
  Dense, find_in_vec, find, count, insert, insert_range, erase, clear, shrink_to_fit,
}
use pxr_tf.DenseHash.Search.{
  entry, Distinct, get_elem?-find_in_vec, entry-Absent, Absent-entry, added, entry-added,
}
use pxr_tf.DenseHash.Filled.{Stores, find-fill_new}
use pxr_tf.DenseHash.Valid.{IsValid, Indexed, find_lem, insert_lem}
use pxr_tf.DenseHash.Ranges.{added_all, insert_range_lem}
use pxr_tf.DenseHash.Erased.{erase_lem}

pub data Operation (E K : Type 0) : Type 0 where
  inserting : E → Operation E K
  inserting_range : List E → Operation E K
  erasing : K → Operation E K
  clearing : Operation E K
  shrinking : Operation E K

-- What the steps mean for a map from keys to elements.
module _ {E K : Type 0} ⦃e : Eq K⦄ (key : E → K) where
  pub put_in : E → (K → Option E) → K → Option E
  put_in v m k = elim (m k) [ none ↦ if e.beq (key v) k then some v else none | some x ↦ some x ]

  pub put_in_all : List E → (K → Option E) → K → Option E
  unfolding put_in
  put_in_all [] m = m
  put_in_all (v ∷ vs) m = put_in_all vs (put_in v m)

  pub means : Operation E K → (K → Option E) → K → Option E
  unfolding put_in_all
  means (inserting v) m = put_in v m
  means (inserting_range vs) m = put_in_all vs m
  means (erasing k) m = λ j. if e.beq k j then none else m j
  means clearing m = λ j. none
  means shrinking m = m

  unfoldable pub meaning : List (Operation E K) → (K → Option E) → K → Option E
  unfolding means
  meaning [] m = m
  meaning (s ∷ ss) m = meaning ss (means s m)

  entry-added_all :
      (xs vs : List E) (m : K → Option E) (k : K)
      → ((j : K) → entry key j xs ≡ m j)
      → entry key k (added_all key xs vs) ≡ put_in_all vs m k
  unfolding put_in_all added_all
  entry-added_all xs [] m k h = h k
  entry-added_all xs (v ∷ vs) m k h =
      entry-added_all (added key v xs) vs (put_in v m) k
        (λ j. entry-added key j v xs ∙ rw (h j) refl)

module _ {E K : Type 0} ⦃e : Eq K⦄ (key : E → K) (hash : HashIndex K)
    (store : hash.Table → K → ℕ → hash.Table) (threshold : ℕ) where
  pub step : Operation E K → Dense E hash.Table → Dense E hash.Table
  unfolding insert insert_range erase clear shrink_to_fit
  step (inserting v) d = (insert key hash store threshold d v).0
  step (inserting_range vs) d = insert_range key hash store threshold d vs
  step (erasing k) d = (erase key hash store threshold d k).0
  step clearing d = clear key hash store threshold d
  step shrinking d = shrink_to_fit key hash store threshold d

  pub run : List (Operation E K) → Dense E hash.Table → Dense E hash.Table
  unfolding step
  run [] d = d
  run (s ∷ ss) d = run ss (step s d)

  abbrev Agrees : (K → Option E) → Dense E hash.Table → Type 0
  Agrees m d = IsValid key hash d × ((k : K) → entry key k d.vec ≡ m k)

  shrink_to_fit_on :
      (xs : List E) (o : Option hash.Table)
      → Stores key hash store
      → Distinct key xs
      → Indexed key hash o xs
      → IsValid key hash (shrink_to_fit key hash store threshold (record { vec = xs; table = o }))
        × ((shrink_to_fit key hash store threshold (record { vec = xs; table = o })).vec ≡ xs)
  unfolding shrink_to_fit
  shrink_to_fit_on xs none st d h = ((d, tt), refl)
  shrink_to_fit_on xs (some t) st d h = elim (Bool-cases (ltb (length xs) threshold)) [
    | inl few ↦ rw few ((d, tt), refl)
    | inr enough ↦ rw enough ((d, λ k. find-fill_new key hash store xs k st d), refl)
  ]

  step-Agrees :
      (s : Operation E K) (m : K → Option E) (d : Dense E hash.Table)
      → Stores key hash store
      → Agrees m d
      → Agrees (means key s m) (step s d)
  unfolding step means clear put_in
  step-Agrees (inserting v) m d st (h, a) =
      let (valid, vec, _, _) = insert_lem key hash store threshold d v st h in
      (valid, λ k. ap (entry key k) vec ∙ entry-added key k v d.vec ∙ rw (a k) refl)
  step-Agrees (inserting_range vs) m d st (h, a) =
      let (valid, vec) = insert_range_lem key hash store threshold d vs st h in
      (valid, λ k. ap (entry key k) vec ∙ entry-added_all key d.vec vs m k a)
  step-Agrees (erasing k) m d st (h, a) =
      let (left, _, _) = erase_lem key hash store threshold d k h in
      (left.0, λ j. left.1 j ∙ rw (a j) refl)
  step-Agrees clearing m d st (h, a) = ((tt, tt), λ k. entry-Absent key k [] refl)
  step-Agrees shrinking m d st (h, a) =
      let (valid, vec) = shrink_to_fit_on d.vec d.table st h.0 h.1 in
      (valid, λ k. ap (entry key k) vec ∙ a k)

  run-Agrees :
      (ss : List (Operation E K)) (m : K → Option E) (d : Dense E hash.Table)
      → Stores key hash store
      → Agrees m d
      → Agrees (meaning key ss m) (run ss d)
  unfolding run meaning
  run-Agrees [] m d st h = h
  run-Agrees (s ∷ ss) m d st h =
      run-Agrees ss (means key s m) (step s d) st (step-Agrees s m d st h)

  abbrev is_some : Option E → Bool
  is_some none = false
  is_some (some x) = true

  -- `find` and `count` on a container where the table agrees with the vector.
  find_count :
      (d : Dense E hash.Table) (k : K) (o : Option E)
      → IsValid key hash d
      → entry key k d.vec ≡ o
      → (get_elem? d.vec (find key hash store threshold d k) ≡ o)
        × (count key hash store threshold d k ≡ is_some o)
  unfolding count
  find_count d k none h p =
      let f = find_lem key hash store threshold d k h in
      (
        ap (get_elem? d.vec) f ∙ get_elem?-find_in_vec key k d.vec ∙ p,
        ground (arith, f, Absent-entry key k d.vec p),
      )
  find_count d k (some x) h p =
      let f = find_lem key hash store threshold d k h in
      (
        ap (get_elem? d.vec) f ∙ get_elem?-find_in_vec key k d.vec ∙ p,
        ground (arith, f, entry-Absent key k d.vec, p),
      )

  abbrev pub empty : Dense E hash.Table
  empty = record { vec = []; table = none }

  -- After any sequence of insertions of elements and ranges, erasures, `clear` and `shrink_to_fit` on
  -- an empty container, `find` and `count` answer as the map that the operations mean: the first
  -- element inserted with a key stays until the key is erased. The table may be filled by any
  -- operation that stores a new key.
  pub find-run_refines :
      (ss : List (Operation E K)) (k : K)
      → Stores key hash store
      → (get_elem? (run ss empty).vec (find key hash store threshold (run ss empty) k)
          ≡ meaning key ss (λ j. none) k)
        × (count key hash store threshold (run ss empty) k ≡ is_some (meaning key ss (λ j. none) k))
  unfolding find_in_vec
  find-run_refines ss k st =
      let (h, a) = run-Agrees ss (λ j. none) empty st ((tt, tt), λ j. entry-Absent key j [] refl) in
      find_count (run ss empty) k (meaning key ss (λ j. none) k) h (a k)
