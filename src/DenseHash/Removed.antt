-- ===== src/DenseHash/Removed.antt =====
-- tf/denseHashMap.h: the vector after `erase` at one position.
use pxr_tf.Base.{
  ℕ, zero, suc, ◌+◌, ◌<◌, ◌≡◌, refl, ap, ◌∙◌, subst, ◌||◌, List, [], ◌∷◌, ◌++◌, none, some, arith,
  ltb, leb, ◌==◌, if◌then◌else◌, length, length-append, set, get_elem?,
}
use pxr_tf.DenseHash.Index.{Eq}
use pxr_tf.DenseHash.{find_in_vec, pop_back}
use pxr_tf.DenseHash.Search.{
  entry, Absent, Distinct, find_in_vec-le, find_in_vec-append, entry-append, entry-Absent, beq_comm,
  find_in_vec-at, Absent-congr, get_elem?-bound,
}

module _ {E : Type 0} where
  -- The last element of a vector that is not empty.
  pub back : E → List E → E
  back x [] = x
  back x (y ∷ ys) = back y ys

  pub swap_pop : List E → ℕ → List E
  swap_pop [] i = []
  swap_pop (x ∷ []) i = []
  swap_pop (x ∷ y ∷ ys) zero = back y ys ∷ pop_back (y ∷ ys)
  swap_pop (x ∷ y ∷ ys) (suc i) = x ∷ swap_pop (y ∷ ys) i

  pop_back-snoc : (y : E) (ys : List E) → y ∷ ys ≡ pop_back (y ∷ ys) ++ back y ys ∷ []
  unfolding pop_back back
  pop_back-snoc y [] = refl
  pop_back-snoc y (z ∷ ys) = ap (λ xs. y ∷ xs) (pop_back-snoc z ys)

  pub get_elem?-last : (y : E) (ys : List E) → get_elem? (y ∷ ys) (length ys) ≡ some (back y ys)
  unfolding back
  get_elem?-last y [] = refl
  get_elem?-last y (z ∷ ys) = get_elem?-last z ys

  pop_back-set_last :
      (y : E) (ys : List E) (x : E) → pop_back (set (y ∷ ys) (length ys) x) ≡ pop_back (y ∷ ys)
  unfolding pop_back
  pop_back-set_last y [] x = refl
  pop_back-set_last y (z ∷ []) x = refl
  pop_back-set_last y (z ∷ w ∷ ys) x = ap (λ xs. y ∷ xs) (pop_back-set_last z (w ∷ ys) x)

  length-pop_back : (y : E) (ys : List E) → length (pop_back (y ∷ ys)) ≡ length ys
  length-pop_back y ys =
      omega
        (arith, ap length (pop_back-snoc y ys), length-append (pop_back (y ∷ ys)) (back y ys ∷ []))

  pub pop_back-swap_pop : (y : E) (ys : List E) → pop_back (y ∷ ys) ≡ swap_pop (y ∷ ys) (length ys)
  unfolding pop_back swap_pop
  pop_back-swap_pop y [] = refl
  pop_back-swap_pop y (z ∷ ys) = ap (λ xs. y ∷ xs) (pop_back-swap_pop z ys)

  pop_back-cons : (x : E) (xs : List E) → 0 < length xs → pop_back (x ∷ xs) ≡ x ∷ pop_back xs
  unfolding pop_back
  pop_back-cons x [] h = absurd (omega arith)
  pop_back-cons x (y ∷ ys) h = refl

  length-set : (xs : List E) (i : ℕ) (x : E) → length (set xs i x) ≡ length xs
  length-set [] i x = refl
  length-set (y ∷ ys) zero x = refl
  length-set (y ∷ ys) (suc i) x = ap suc (length-set ys i x)

  -- The swap with the last element, and `pop_back`.
  pub set-swap_pop :
      (y : E) (ys : List E) (i : ℕ) (x : E)
      → i < length ys
      → pop_back (set (set (y ∷ ys) i (back y ys)) (length ys) x) ≡ swap_pop (y ∷ ys) i
  unfolding pop_back swap_pop back
  set-swap_pop y [] i x h = absurd (omega arith)
  set-swap_pop y (z ∷ ys) zero x h =
      pop_back-cons (back z ys) (set (z ∷ ys) (length ys) x)
        (omega (arith, length-set (z ∷ ys) (length ys) x))
      ∙ ap (λ xs. back z ys ∷ xs) (pop_back-set_last z ys x)
  set-swap_pop y (z ∷ ys) (suc i) x h =
      pop_back-cons y (set (set (z ∷ ys) i (back z ys)) (length ys) x) (
        omega (
          arith,
          length-set (set (z ∷ ys) i (back z ys)) (length ys) x,
          length-set (z ∷ ys) i (back z ys),
        ))
      ∙ ap (λ xs. y ∷ xs) (set-swap_pop z ys i x (omega arith))

  pub length-swap_pop : (y : E) (ys : List E) (i : ℕ) → length (swap_pop (y ∷ ys) i) ≡ length ys
  unfolding swap_pop
  length-swap_pop y [] i = refl
  length-swap_pop y (z ∷ ys) zero = omega (arith, length-pop_back z ys)
  length-swap_pop y (z ∷ ys) (suc i) = omega (arith, length-swap_pop z ys i)

module _ {E K : Type 0} ⦃e : Eq K⦄ (key : E → K) where
  Distinct-init :
      (xs : List E) (v : E) → Distinct key (xs ++ v ∷ []) → Absent key (key v) xs × Distinct key xs
  unfolding find_in_vec
  Distinct-init [] v d = (refl, tt)
  Distinct-init (x ∷ xs) v d =
      let (a, r) = Distinct-init xs v d.1 in
      (
        ground (
          arith,
          a,
          find_in_vec-append key (key x) xs (v ∷ []),
          length-append xs (v ∷ []),
          beq_comm (key x) (key v),
        ),
        (
          ground (
            arith,
            find_in_vec-append key (key x) xs (v ∷ []),
            length-append xs (v ∷ []),
            find_in_vec-le key (key x) xs,
          ),
          r,
        ),
      )

  -- The vector with its last element apart.
  find_in_vec-snoc :
      (y : E) (ys : List E) (j : K)
      → find_in_vec key j (y ∷ ys) ≡ (
          if ltb (find_in_vec key j (pop_back (y ∷ ys))) (length ys)
          then find_in_vec key j (pop_back (y ∷ ys))
          else length ys + (if e.beq (key (back y ys)) j then 0 else 1))
  unfolding find_in_vec
  find_in_vec-snoc y ys j =
      ap (find_in_vec key j) (pop_back-snoc y ys)
      ∙ ground (
        arith,
        find_in_vec-append key j (pop_back (y ∷ ys)) (back y ys ∷ []),
        length-pop_back y ys,
      )

  back-Absent :
      (y : E) (ys : List E)
      → Distinct key (y ∷ ys)
      → Absent key (key (back y ys)) (pop_back (y ∷ ys)) × Distinct key (pop_back (y ∷ ys))
  back-Absent y ys d =
      Distinct-init (pop_back (y ∷ ys)) (back y ys) (subst (Distinct key) (pop_back-snoc y ys) d)

  -- Where a key is found after the removal: nowhere if it was not there or was removed, in the hole
  -- if it was last, and where it was otherwise.
  pub find_in_vec-swap_pop :
      (y : E) (ys : List E) (i : ℕ) (x : E) (j : K)
      → Distinct key (y ∷ ys)
      → get_elem? (y ∷ ys) i ≡ some x
      → find_in_vec key j (swap_pop (y ∷ ys) i) ≡ (
          if e.beq (key x) j || leb (suc (length ys)) (find_in_vec key j (y ∷ ys))
          then length ys
          else if find_in_vec key j (y ∷ ys) == length ys
          then i
          else find_in_vec key j (y ∷ ys))
  unfolding swap_pop find_in_vec
  find_in_vec-swap_pop y [] zero x j d h = ground arith
  find_in_vec-swap_pop y [] (suc i) x j d h = cc
  find_in_vec-swap_pop y (z ∷ ys) zero x j d h = ground (
    arith,
    find_in_vec-snoc z ys j,
    back-Absent z ys d.1,
    length-pop_back z ys,
    find_in_vec-le key j (pop_back (z ∷ ys)),
    Absent-congr key (key y) j (z ∷ ys),
    Absent-congr key (key (back z ys)) j (pop_back (z ∷ ys)),
  )
  find_in_vec-swap_pop y (z ∷ ys) (suc i) x j d h = ground (
    arith,
    find_in_vec-swap_pop z ys i x j d.1 h,
    find_in_vec-le key j (z ∷ ys),
    Absent-congr key (key y) j (z ∷ ys),
    Absent-congr key j (key x) (z ∷ ys),
    beq_comm j (key x),
    find_in_vec-at key (z ∷ ys) i x d.1 h,
    get_elem?-bound (z ∷ ys) i x h,
  )

  pub Distinct-swap_pop :
      (y : E) (ys : List E) (i : ℕ) (x : E)
      → Distinct key (y ∷ ys)
      → get_elem? (y ∷ ys) i ≡ some x
      → Distinct key (swap_pop (y ∷ ys) i)
  unfolding swap_pop
  Distinct-swap_pop y [] i x d h = tt
  Distinct-swap_pop y (z ∷ ys) zero x d h = back-Absent z ys d.1
  Distinct-swap_pop y (z ∷ ys) (suc i) x d h = (
    ground (arith, find_in_vec-swap_pop z ys i x (key y) d.1 h, length-swap_pop z ys i, d.0),
    Distinct-swap_pop z ys i x d.1 h,
  )

  -- Where a key is found, its entry has it.
  pub entry-swap_pop :
      (y : E) (ys : List E) (i : ℕ) (x : E) (k : K)
      → Distinct key (y ∷ ys)
      → get_elem? (y ∷ ys) i ≡ some x
      → entry key k (swap_pop (y ∷ ys) i) ≡ (if e.beq (key x) k then none else entry key k (y ∷ ys))
  unfolding swap_pop entry
  entry-swap_pop y [] zero x k d h = ground arith
  entry-swap_pop y [] (suc i) x k d h = cc
  entry-swap_pop y (z ∷ ys) zero x k d h = ground (
    arith,
    ap (entry key k) (pop_back-snoc z ys),
    entry-append key k (pop_back (z ∷ ys)) (back z ys ∷ []),
    back-Absent z ys d.1,
    entry-Absent key k (pop_back (z ∷ ys)),
    entry-Absent key k (z ∷ ys),
    Absent-congr key (key y) k (z ∷ ys),
    Absent-congr key (key (back z ys)) k (pop_back (z ∷ ys)),
  )
  entry-swap_pop y (z ∷ ys) (suc i) x k d h = ground (
    arith,
    entry-swap_pop z ys i x k d.1 h,
    Absent-congr key (key y) k (z ∷ ys),
    Absent-congr key k (key x) (z ∷ ys),
    beq_comm k (key x),
    find_in_vec-at key (z ∷ ys) i x d.1 h,
    get_elem?-bound (z ∷ ys) i x h,
  )
