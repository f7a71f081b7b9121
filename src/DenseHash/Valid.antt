-- ===== src/DenseHash/Valid.antt =====
-- tf/denseHashMap.h: the agreement of the vector and the table, and `find`, `insert`, `_CreateTable`.
use pxr_tf.Base.{
  ℕ, ◌≡◌, refl, ◌∙◌, sym, subst, Bool, true, false, not, List, [], ◌∷◌, ◌++◌, Option, none, some,
  arith, leb, if◌then◌else◌, length, length-append, Bool-cases, inl, inr,
}
use pxr_tf.DenseHash.Index.{Eq, HashIndex}
use pxr_tf.DenseHash.{Dense, find_in_vec, find, create_table, create_table_if_needed, push, insert}
use pxr_tf.DenseHash.Search.{
  Absent, Distinct, slot, find_in_vec-le, find_in_vec-append, Absent-congr, Distinct-snoc, present,
  added,
}
use pxr_tf.DenseHash.Filled.{Stores, find-fill_new}

module _ {E K : Type 0} ⦃e : Eq K⦄ (key : E → K) (hash : HashIndex K) where
  -- The table has the positions of the vector's keys and no others.
  abbrev pub Indexed : Option hash.Table → List E → Type 0
  Indexed none xs = Unit {0}
  Indexed (some t) xs = (k : K) → hash.find t k ≡ slot key k xs

  abbrev pub IsValid : Dense E hash.Table → Type 0
  IsValid d = Distinct key d.vec × Indexed d.table d.vec

module _ {E K : Type 0} ⦃e : Eq K⦄ (key : E → K) (hash : HashIndex K)
    (store : hash.Table → K → ℕ → hash.Table) (threshold : ℕ) where
  find_on :
      (xs : List E) (o : Option hash.Table) (k : K)
      → Indexed key hash o xs
      → find key hash store threshold (record { vec = xs; table = o }) k ≡ find_in_vec key k xs
  unfolding find
  find_on xs none k h = refl
  find_on xs (some t) k h = rw (h k, find) (ground (arith, find_in_vec-le key k xs))

  pub find_lem :
      (d : Dense E hash.Table) (k : K)
      → IsValid key hash d
      → find key hash store threshold d k ≡ find_in_vec key k d.vec
  find_lem d k h = find_on d.vec d.table k h.1

  Indexed-create_table :
      (xs : List E) (o : Option hash.Table)
      → Stores key hash store
      → Distinct key xs
      → Indexed key hash o xs
      → Indexed key hash
          (create_table key hash store threshold (record { vec = xs; table = o })).table
          xs
  unfolding create_table
  Indexed-create_table xs none st d h = λ k. find-fill_new key hash store xs k st d
  Indexed-create_table xs (some t) st d h = h

  pub create_table-vec :
      (xs : List E) (o : Option hash.Table)
      → (create_table key hash store threshold (record { vec = xs; table = o })).vec ≡ xs
  unfolding create_table
  create_table-vec xs none = refl
  create_table-vec xs (some t) = refl

  pub create_table-IsValid :
      (d : Dense E hash.Table)
      → Stores key hash store
      → IsValid key hash d
      → IsValid key hash (create_table key hash store threshold d)
  create_table-IsValid d st h =
      let p = sym (create_table-vec d.vec d.table) in
      (
        subst (Distinct key) p h.0,
        subst (Indexed key hash (create_table key hash store threshold d).table) p
            (Indexed-create_table d.vec d.table st h.0 h.1),
      )

  pub create_table_if_needed-vec :
      (d : Dense E hash.Table) → (create_table_if_needed key hash store threshold d).vec ≡ d.vec
  unfolding create_table_if_needed
  create_table_if_needed-vec d = elim (Bool-cases (leb threshold (length d.vec))) [
    | inl enough ↦ rw enough (create_table-vec d.vec d.table)
    | inr few ↦ rw few refl
  ]

  pub create_table_if_needed-IsValid :
      (d : Dense E hash.Table)
      → Stores key hash store
      → IsValid key hash d
      → IsValid key hash (create_table_if_needed key hash store threshold d)
  unfolding create_table_if_needed
  create_table_if_needed-IsValid d st h = elim (Bool-cases (leb threshold (length d.vec))) [
    | inl enough ↦ rw enough (create_table-IsValid d st h)
    | inr few ↦ rw few h
  ]

  slot-snoc :
      (xs : List E) (v : E) (k : K)
      → Absent key (key v) xs
      → slot key k (xs ++ v ∷ []) ≡ (if e.beq (key v) k then some (length xs) else slot key k xs)
  unfolding find_in_vec
  slot-snoc xs v k h = ground (
    arith,
    find_in_vec-append key k xs (v ∷ []),
    length-append xs (v ∷ []),
    Absent-congr key (key v) k xs,
    find_in_vec-le key k xs,
  )

  -- `insert` answers with the vector, the position of the element and whether it is new.
  abbrev pub Inserted : List E → E → List E → Bool → Dense E hash.Table × ℕ × Bool → Type 0
  Inserted xs v ys new r =
      IsValid key hash r.0 × (r.0.vec ≡ ys) × (r.1 ≡ find_in_vec key (key v) xs) × (r.2 ≡ new)

  push_on :
      (xs : List E) (o : Option hash.Table) (v : E)
      → Stores key hash store
      → Distinct key xs
      → Absent key (key v) xs
      → Indexed key hash o (xs ++ v ∷ [])
      → Inserted xs v
          (xs ++ v ∷ [])
          true
          (push key hash store threshold (record { vec = xs; table = o }) v)
  unfolding push
  push_on xs o v st d a h = (
    create_table_if_needed-IsValid (record { vec = xs ++ v ∷ []; table = o }) st
        (Distinct-snoc key xs v d a, h),
    create_table_if_needed-vec (record { vec = xs ++ v ∷ []; table = o }),
    sym a,
    refl,
  )

  not_present : (k : K) (xs : List E) → present key k xs ≡ false → Absent key k xs
  not_present k xs h = ground (arith, h, find_in_vec-le key k xs)

  insert_on :
      (xs : List E) (o : Option hash.Table) (v : E)
      → Stores key hash store
      → Distinct key xs
      → Indexed key hash o xs
      → Inserted xs v
          (added key v xs)
          (not (present key (key v) xs))
          (insert key hash store threshold (record { vec = xs; table = o }) v)
  unfolding insert
  insert_on xs none v st d h = elim (Bool-cases (present key (key v) xs)) [
    | inl old ↦ rw old ((d, tt), refl, refl, refl)
    | inr new ↦ rw new (push_on xs none v st d (not_present (key v) xs new) tt)
  ]
  insert_on xs (some t) v st d h = elim (Bool-cases (present key (key v) xs)) [
    | inl old ↦ rw (h (key v), old, insert) ((d, h), refl, refl, refl)
    | inr new ↦
        let a = not_present (key v) xs new in
        let unknown : hash.find t (key v) ≡ none = h (key v) ∙ rw new refl in
        rw (unknown, new, insert)
          (push_on xs (some (hash.insert t (key v) (length xs))) v st d a (λ k.
            hash.find-insert t (key v) (length xs) k unknown ∙ rw (h k) (sym (slot-snoc xs v k a))))
  ]

  -- `insert` into a container whose keys are distinct and whose table, if it has one, has their
  -- positions keeps that; it adds the element at the end if its key is new and else changes nothing
  -- in the vector; and it answers with the position at which the vector had the key or now has it,
  -- and with whether the key was new. The table may be filled by any operation that stores a new
  -- key.
  pub insert_lem :
      (d : Dense E hash.Table) (v : E)
      → Stores key hash store
      → IsValid key hash d
      → Inserted d.vec v
          (added key v d.vec)
          (not (present key (key v) d.vec))
          (insert key hash store threshold d v)
  insert_lem d v st h = insert_on d.vec d.table v st h.0 h.1
