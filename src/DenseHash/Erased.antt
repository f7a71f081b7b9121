-- ===== src/DenseHash/Erased.antt =====
-- tf/denseHashMap.h: `erase` of one element.
use pxr_tf.Base.{
  ℕ, suc, ◌+◌, ◌-◌, ◌<◌, ◌≡◌, refl, ap, ◌∙◌, sym, subst, true, false, List, [], ◌∷◌, Option, none,
  some, arith, ◌==◌, if◌then◌else◌, length, get_elem?, set, Bool-cases, inl, inr,
}
use pxr_tf.DenseHash.Index.{Eq, HashIndex}
use pxr_tf.DenseHash.{Dense, find_in_vec, pop_back, erase_at, erase}
use pxr_tf.DenseHash.Search.{
  entry, Absent, Distinct, find_in_vec-le, Absent-congr, find_in_vec-at, get_elem?-bound, entry-key,
  entry-Absent, beq-find_in_vec, get_elem?-find_in_vec, entry-present, present,
}
use pxr_tf.DenseHash.Removed.{
  back, swap_pop, entry-swap_pop, get_elem?-last, pop_back-swap_pop, set-swap_pop, length-swap_pop,
  find_in_vec-swap_pop, Distinct-swap_pop,
}
use pxr_tf.DenseHash.Valid.{IsValid, Indexed, find_lem}

module _ {E K : Type 0} ⦃e : Eq K⦄ (key : E → K) (hash : HashIndex K)
    (store : hash.Table → K → ℕ → hash.Table) (threshold : ℕ) where
  beq-at :
      (k : K) (xs : List E) (i : ℕ) (x : E)
      → get_elem? xs i ≡ some x
      → find_in_vec key k xs ≡ i
      → e.beq (key x) k ≡ true
  beq-at k xs i x h p = beq-find_in_vec key k xs x (ap (get_elem? xs) p ∙ h)

  -- A key is found elsewhere than at an element with another key.
  find_in_vec-same :
      (k : K) (xs : List E) (x : E)
      → e.beq (key x) k ≡ true
      → find_in_vec key k xs ≡ find_in_vec key (key x) xs
  find_in_vec-same k xs x h = ap (λ j. find_in_vec key j xs) (sym ((e.beq_iff (key x) k).0 h))

  -- The table without the key of the removed element is right if that was the last.
  Indexed-erase_last :
      (t : hash.Table) (y : E) (ys : List E) (x : E)
      → Distinct key (y ∷ ys)
      → get_elem? (y ∷ ys) (length ys) ≡ some x
      → Indexed key hash (some t) (y ∷ ys)
      → Indexed key hash (some (hash.erase t (key x))) (swap_pop (y ∷ ys) (length ys))
  Indexed-erase_last t y ys x d g h = λ k.
      rw (hash.find-erase t (key x) k, h k)
        (ground (
          arith,
          find_in_vec-swap_pop key y ys (length ys) x k d g,
          length-swap_pop y ys (length ys),
          find_in_vec-le key k (y ∷ ys),
          find_in_vec-at key (y ∷ ys) (length ys) x d g,
          beq-at k (y ∷ ys) (length ys) x g,
        ))

  Indexed-erase_moved :
      (t : hash.Table) (y : E) (ys : List E) (i : ℕ) (x : E)
      → Distinct key (y ∷ ys)
      → get_elem? (y ∷ ys) i ≡ some x
      → i < length ys
      → Indexed key hash (some t) (y ∷ ys)
      → Indexed key hash
          (some (hash.put (hash.erase t (key x)) (key (back y ys)) i))
          (swap_pop (y ∷ ys) i)
  Indexed-erase_moved t y ys i x d g lt h = λ k.
      rw
        (
          hash.find-put (hash.erase t (key x)) (key (back y ys)) i k,
          hash.find-erase t (key x) k,
          h k,
        )
        (ground (
          arith,
          find_in_vec-swap_pop key y ys i x k d g,
          length-swap_pop y ys i,
          find_in_vec-le key k (y ∷ ys),
          find_in_vec-at key (y ∷ ys) i x d g,
          find_in_vec-at key (y ∷ ys) (length ys) (back y ys) d (get_elem?-last y ys),
          beq-at k (y ∷ ys) i x g,
          beq-at k (y ∷ ys) (length ys) (back y ys) (get_elem?-last y ys),
          find_in_vec-same k (y ∷ ys) x,
          find_in_vec-same k (y ∷ ys) (back y ys),
        ))

  abbrev without : Option hash.Table → E → Option hash.Table
  without o x = elim o [ none ↦ none | some t ↦ some (hash.erase t (key x)) ]

  abbrev moved : Option hash.Table → E → E → ℕ → Option hash.Table
  moved o x last i = elim o [
    | none ↦ none
    | some t ↦ some (hash.put (hash.erase t (key x)) (key last) i)
  ]

  Indexed-without :
      (o : Option hash.Table) (y : E) (ys : List E) (i : ℕ) (x : E)
      → Distinct key (y ∷ ys)
      → get_elem? (y ∷ ys) i ≡ some x
      → i ≡ length ys
      → Indexed key hash o (y ∷ ys)
      → Indexed key hash (without o x) (swap_pop (y ∷ ys) i)
  Indexed-without none y ys i x d g p h = tt
  Indexed-without (some t) y ys i x d g p h =
      rw p (Indexed-erase_last t y ys x d (ap (get_elem? (y ∷ ys)) (sym p) ∙ g) h)

  Indexed-moved :
      (o : Option hash.Table) (y : E) (ys : List E) (i : ℕ) (x : E)
      → Distinct key (y ∷ ys)
      → get_elem? (y ∷ ys) i ≡ some x
      → i < length ys
      → Indexed key hash o (y ∷ ys)
      → Indexed key hash (moved o x (back y ys) i) (swap_pop (y ∷ ys) i)
  Indexed-moved none y ys i x d g lt h = tt
  Indexed-moved (some t) y ys i x d g lt h = Indexed-erase_moved t y ys i x d g lt h

  erase_at_on :
      (xs : List E) (o : Option hash.Table) (i : ℕ) (x : E)
      → Distinct key xs
      → Indexed key hash o xs
      → get_elem? xs i ≡ some x
      → IsValid key hash (erase_at key hash store threshold (record { vec = xs; table = o }) i)
        × ((erase_at key hash store threshold (record { vec = xs; table = o }) i).vec
            ≡ swap_pop xs i)
  unfolding erase_at
  erase_at_on [] o i x d h g = cc
  erase_at_on (y ∷ ys) o i x d h g =
      let n = length (y ∷ ys) - 1 in
      let en : n ≡ length ys = omega arith in
      let last = ap (get_elem? (y ∷ ys)) en ∙ get_elem?-last y ys in
      elim (Bool-cases (i == n)) [
        | inl at_end ↦
            let p : i ≡ length ys = ground (arith, at_end) in
            let q = pop_back-swap_pop y ys ∙ ap (swap_pop (y ∷ ys)) (sym p) in
            rw (erase_at, g, last, at_end, q)
              ((Distinct-swap_pop key y ys i x d g, Indexed-without o y ys i x d g p h), refl)
        | inr before ↦
            let lt : i < length ys = ground (arith, before, get_elem?-bound (y ∷ ys) i x g) in
            let q =
              ap (λ m. pop_back (set (set (y ∷ ys) i (back y ys)) m x)) en
              ∙ set-swap_pop y ys i x lt in
            rw (erase_at, g, last, before, q)
              ((Distinct-swap_pop key y ys i x d g, Indexed-moved o y ys i x d g lt h), refl)
      ]

  -- What `erase` of the key `k` leaves.
  abbrev pub Erased : List E → K → Dense E hash.Table → Type 0
  Erased xs k d =
      IsValid key hash d
      × ((j : K) → entry key j d.vec ≡ (if e.beq k j then none else entry key j xs))

  entry-removed :
      (xs : List E) (i : ℕ) (x : E) (j : K)
      → Distinct key xs
      → get_elem? xs i ≡ some x
      → entry key j (swap_pop xs i) ≡ (if e.beq (key x) j then none else entry key j xs)
  entry-removed [] i x j d g = cc
  entry-removed (y ∷ ys) i x j d g = entry-swap_pop key y ys i x j d g

  length-removed :
      (xs : List E) (i : ℕ) (x : E)
      → get_elem? xs i ≡ some x
      → suc (length (swap_pop xs i)) ≡ length xs
  length-removed [] i x g = cc
  length-removed (y ∷ ys) i x g = ap suc (length-swap_pop y ys i)

  pub erase_at_lem :
      (d : Dense E hash.Table) (i : ℕ) (x : E)
      → IsValid key hash d
      → get_elem? d.vec i ≡ some x
      → Erased d.vec (key x) (erase_at key hash store threshold d i)
        × (suc (length (erase_at key hash store threshold d i).vec) ≡ length d.vec)
  erase_at_lem d i x h g =
      let r = erase_at_on d.vec d.table i x h.0 h.1 g in
      (
        (r.0, λ j. ap (entry key j) r.1 ∙ entry-removed d.vec i x j h.0 g),
        ap (λ xs. suc (length xs)) r.1 ∙ length-removed d.vec i x g,
      )

  abbrev pub if_present : K → List E → ℕ
  if_present k xs = if present key k xs then 1 else 0

  -- `erase` of a key from a container whose table agrees with its vector keeps the agreement; after it
  -- the key has no element and every other key has the element it had; and it returns the number of
  -- elements by which the vector got shorter, which is 1 if the key was there and else 0.
  pub erase_lem :
      (d : Dense E hash.Table) (k : K)
      → IsValid key hash d
      → Erased d.vec k (erase key hash store threshold d k).0
        × ((erase key hash store threshold d k).1 ≡ if_present k d.vec)
        × (length (erase key hash store threshold d k).0.vec + if_present k d.vec ≡ length d.vec)
  unfolding erase
  erase_lem d k h =
      let f = find_lem key hash store threshold d k h in
      elim (Bool-cases (find_in_vec key k d.vec == length d.vec)) [
        | inl missing ↦
            let a : Absent key k d.vec = ground (arith, missing) in
            let no : present key k d.vec ≡ false = ground (arith, a) in
            rw (f, missing, no)
              (
                (h, λ j. ground (arith, entry-Absent key j d.vec, Absent-congr key k j d.vec, a)),
                refl,
                omega arith,
              )
        | inr found ↦
            let yes : present key k d.vec ≡ true =
              ground (arith, found, find_in_vec-le key k d.vec) in
            let (x, p) = entry-present key k d.vec (ground (arith, yes)) in
            let g = get_elem?-find_in_vec key k d.vec ∙ p in
            let r = erase_at_lem d (find_in_vec key k d.vec) x h g in
            rw (f, found, yes)
              (
                subst
                    (λ j.
                      Erased d.vec j
                        (erase_at key hash store threshold d (find_in_vec key k d.vec)))
                    (entry-key key k d.vec x p) r.0,
                refl,
                omega (arith, r.1),
              )
      ]
