-- ===== src/DenseHash/Ranges.antt =====
-- tf/denseHashMap.h: `insert` of a range, and `insert_unique`.
use pxr_tf.Base.{
  ℕ, ◌+◌, ◌≡◌, refl, ap, ◌∙◌, sym, subst, false, List, [], ◌∷◌, ◌++◌, append-nil, append_assoc,
  Option, none, some, arith, leb, ◌==◌, length, length-append, Bool-cases, inl, inr,
}
use pxr_tf.DenseHash.Index.{Eq, HashIndex}
use pxr_tf.DenseHash.{
  Dense, find_in_vec, find, create_table, create_table_if_needed, insert, insert_each, insert_range,
  insert_unique,
}
use pxr_tf.DenseHash.Search.{
  Absent, Distinct, find_in_vec-le, find_in_vec-append, beq_comm, present, added,
}
use pxr_tf.DenseHash.Filled.{Stores}
use pxr_tf.DenseHash.Valid.{
  IsValid, Indexed, insert_lem, create_table-IsValid, create_table-vec,
  create_table_if_needed-IsValid, create_table_if_needed-vec,
}

module _ {E K : Type 0} ⦃e : Eq K⦄ (key : E → K) where
  -- The vector with each element of a range whose key is new.
  unfoldable pub added_all : List E → List E → List E
  added_all xs [] = xs
  added_all xs (v ∷ vs) = added_all (added key v xs) vs

  Distinct-Absent :
      (xs : List E) (v : E) (vs : List E) → Distinct key (xs ++ v ∷ vs) → Absent key (key v) xs
  unfolding find_in_vec
  Distinct-Absent [] v vs d = refl
  Distinct-Absent (x ∷ xs) v vs d = ground (
    arith,
    Distinct-Absent xs v vs d.1,
    find_in_vec-append key (key x) xs (v ∷ vs),
    length-append xs (v ∷ vs),
    beq_comm (key x) (key v),
    find_in_vec-le key (key x) xs,
  )

  pub added_all-Distinct : (xs vs : List E) → Distinct key (xs ++ vs) → added_all xs vs ≡ xs ++ vs
  unfolding added_all
  added_all-Distinct xs [] d = sym (append-nil xs)
  added_all-Distinct xs (v ∷ vs) d =
      let new : present key (key v) xs ≡ false = ground (arith, Distinct-Absent xs v vs d) in
      let p = append_assoc xs (v ∷ []) vs in
      rw new (added_all-Distinct (xs ++ v ∷ []) vs (subst (Distinct key) (sym p) d) ∙ p)

module _ {E K : Type 0} ⦃e : Eq K⦄ (key : E → K) (hash : HashIndex K)
    (store : hash.Table → K → ℕ → hash.Table) (threshold : ℕ) where
  insert_each_lem :
      (d : Dense E hash.Table) (vs : List E)
      → Stores key hash store
      → IsValid key hash d
      → IsValid key hash (insert_each key hash store threshold d vs)
        × ((insert_each key hash store threshold d vs).vec ≡ added_all key d.vec vs)
  unfolding insert_each added_all
  insert_each_lem d [] st h = (h, refl)
  insert_each_lem d (v ∷ vs) st h =
      let one = insert_lem key hash store threshold d v st h in
      let (valid, all) = insert_each_lem (insert key hash store threshold d v).0 vs st one.0 in
      (valid, all ∙ ap (λ xs. added_all key xs vs) one.1)

  pub insert_range_lem :
      (d : Dense E hash.Table) (vs : List E)
      → Stores key hash store
      → IsValid key hash d
      → IsValid key hash (insert_range key hash store threshold d vs)
        × ((insert_range key hash store threshold d vs).vec ≡ added_all key d.vec vs)
  unfolding insert_range
  insert_range_lem d vs st h = elim (Bool-cases (leb threshold (length d.vec + length vs))) [
    | inl enough ↦
        let made = create_table key hash store threshold d in
        let (valid, all) =
          insert_each_lem made vs st (create_table-IsValid key hash store threshold d st h) in
        rw enough (
          valid,
          all
              ∙ ap (λ xs. added_all key xs vs)
                  (create_table-vec key hash store threshold d.vec d.table),
        )
    | inr few ↦ rw few (insert_each_lem d vs st h)
  ]

  insert_unique_on :
      (xs : List E) (o : Option hash.Table) (vs : List E)
      → Stores key hash store
      → IsValid key hash (record { vec = xs; table = o })
      → (xs ≡ [] → o ≡ none)
      → Distinct key vs
      → IsValid key hash
          (insert_unique key hash store threshold (record { vec = xs; table = o }) vs)
        × ((insert_unique key hash store threshold (record { vec = xs; table = o }) vs).vec
            ≡ added_all key xs vs)
  unfolding insert_unique
  insert_unique_on [] o vs st h n d =
      let start : Dense E hash.Table = record { vec = vs; table = o } in
      (
        create_table_if_needed-IsValid key hash store threshold start st
            (d, subst (λ p. Indexed key hash p vs) (sym (n refl)) tt),
        create_table_if_needed-vec key hash store threshold start
            ∙ sym (added_all-Distinct key [] vs d),
      )
  insert_unique_on (x ∷ xs) o vs st h n d =
      let not_empty : (length (x ∷ xs) == 0) ≡ false = ground arith in
      rw not_empty (insert_range_lem (record { vec = x ∷ xs; table = o }) vs st h)

  -- `insert_unique` of a range with distinct keys, into such a container that has no table if it has no
  -- elements, keeps the agreement of the table with the vector, and it adds the elements whose key
  -- is new.
  pub insert_unique_lem :
      (d : Dense E hash.Table) (vs : List E)
      → Stores key hash store
      → IsValid key hash d
      → (d.vec ≡ [] → d.table ≡ none)
      → Distinct key vs
      → IsValid key hash (insert_unique key hash store threshold d vs)
        × ((insert_unique key hash store threshold d vs).vec ≡ added_all key d.vec vs)
  insert_unique_lem d vs = insert_unique_on d.vec d.table vs

  kept_table :
      (t : hash.Table) (vs : List E)
      → insert_unique key hash store threshold (record { vec = []; table = some t }) vs
        ≡ record { vec = vs; table = some t }
  unfolding insert_unique create_table_if_needed create_table
  kept_table t vs = elim (Bool-cases (leb threshold (length vs))) [
    | inl enough ↦ rw enough refl
    | inr few ↦ rw few refl
  ]

  -- `insert_unique` on a container without elements that still has its table, as `erase` leaves it,
  -- stores the elements, but `find` does not find them by any key.
  pub insert_unique_loses :
      (t : hash.Table) (vs : List E) (k : K)
      → IsValid key hash (record { vec = []; table = some t })
      → ((insert_unique key hash store threshold (record { vec = []; table = some t }) vs).vec ≡ vs)
        × (find key hash store threshold
              (insert_unique key hash store threshold (record { vec = []; table = some t }) vs)
              k
            ≡ length vs)
  unfolding find find_in_vec
  insert_unique_loses t vs k h =
      let missing : hash.find t k ≡ none = h.1 k ∙ ground arith in
      let kept = kept_table t vs in
      (
        ap (λ d. d.vec) kept,
        ap (λ d. find key hash store threshold d k) kept ∙ rw (missing, find) refl,
      )
