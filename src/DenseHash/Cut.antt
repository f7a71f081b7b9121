-- ===== src/DenseHash/Cut.antt =====
-- tf/denseHashMap.h: `erase` of a range.
use pxr_tf.Base.{
  ℕ, zero, suc, ◌≤◌, ◌<◌, ◌≡◌, refl, ap, ◌∙◌, sym, subst, List, [], ◌∷◌, ◌++◌, Option, none, some,
  arith, if◌then◌else◌, length, length-append, take, drop, take-append-drop, length-take,
}
use pxr_tf.DenseHash.Index.{Eq, HashIndex}
use pxr_tf.DenseHash.{Dense, find_in_vec, erase_keys, put_all, erase_range}
use pxr_tf.DenseHash.Search.{
  entry, Absent, Distinct, present, find_in_vec-le, find_in_vec-append, entry-append, entry-Absent,
  Absent-congr, Absent-entry, beq_refl,
}
use pxr_tf.DenseHash.Filled.{find-erase_keys, find-put_all}
use pxr_tf.DenseHash.Valid.{IsValid, Indexed}

module _ {E K : Type 0} ⦃e : Eq K⦄ (key : E → K) where
  Distinct-append :
      (xs ys : List E)
      → Distinct key (xs ++ ys)
      → Distinct key xs
        × Distinct key ys
        × ((k : K) → find_in_vec key k xs < length xs → Absent key k ys)
  unfolding find_in_vec
  Distinct-append [] ys d = (tt, d, λ k lt. absurd (omega arith))
  Distinct-append (x ∷ xs) ys d =
      let (left, right, apart) = Distinct-append xs ys d.1 in
      let split = find_in_vec-append key (key x) xs ys in
      (
        (ground (arith, split, length-append xs ys, find_in_vec-le key (key x) xs), left),
        right,
        λ k lt. ground (
          arith,
          apart k,
          split,
          length-append xs ys,
          find_in_vec-le key (key x) xs,
          find_in_vec-le key (key x) ys,
          Absent-congr key (key x) k ys,
        ),
      )

  Distinct-join :
      (xs ys : List E)
      → Distinct key xs
      → Distinct key ys
      → ((k : K) → find_in_vec key k xs < length xs → Absent key k ys)
      → Distinct key (xs ++ ys)
  unfolding find_in_vec
  Distinct-join [] ys left right apart = right
  Distinct-join (x ∷ xs) ys left right apart = (
    ground (
      arith,
      find_in_vec-append key (key x) xs ys,
      length-append xs ys,
      apart (key x),
      beq_refl (key x),
      left,
    ),
    Distinct-join xs ys left.1 right (λ k lt. apart k (ground (arith, lt))),
  )

  Absent-append :
      (k : K) (xs ys : List E) → Absent key k (xs ++ ys) → Absent key k xs × Absent key k ys
  Absent-append k xs ys h =
      let p = find_in_vec-append key k xs ys in
      let l = length-append xs ys in
      let n = find_in_vec-le key k xs in (ground (arith, p, l, n), ground (arith, p, l, n))

  -- Three consecutive pieces of a vector, and the vector without the middle one.
  Distinct-cut :
      (a b c : List E)
      → Distinct key (a ++ (b ++ c))
      → Distinct key (a ++ c)
        × Distinct key c
        × ((k : K) → find_in_vec key k a < length a → Absent key k b)
        × ((k : K) → find_in_vec key k b < length b → Absent key k c)
        × ((k : K) → find_in_vec key k a < length a → Absent key k c)
  Distinct-cut a b c d =
      let (da, dbc, abc) = Distinct-append a (b ++ c) d in
      let (db, dc, bc) = Distinct-append b c dbc in
      let ac =
        λ (k : K) (lt : find_in_vec key k a < length a). (Absent-append k b c (abc k lt)).1 in
      (Distinct-join a c da dc ac, dc, λ k lt. (Absent-append k b c (abc k lt)).0, bc, ac)

  -- The elements outside the middle piece stay.
  entry-cut :
      (a b c : List E) (k : K)
      → Distinct key (a ++ (b ++ c))
      → entry key k (a ++ c) ≡ (if present key k b then none else entry key k (a ++ (b ++ c)))
  entry-cut a b c k d =
      let (dac, dc, ab, bc, ac) = Distinct-cut a b c d in
      ground (
        arith,
        entry-append key k a c,
        entry-append key k a (b ++ c),
        entry-append key k b c,
        ab k,
        bc k,
        ac k,
        entry-Absent key k a,
        entry-Absent key k b,
        entry-Absent key k c,
        Absent-entry key k a,
        find_in_vec-le key k a,
        find_in_vec-le key k b,
        find_in_vec-le key k c,
      )

cut_pieces :
    {E : Type 0} (i0 i1 : ℕ) (xs : List E)
    → i0 ≤ i1
    → take i0 xs ++ (drop i0 (take i1 xs) ++ drop i1 xs) ≡ xs
cut_pieces zero i1 xs le = take-append-drop i1 xs
cut_pieces (suc i0) zero xs le = absurd (omega arith)
cut_pieces (suc i0) (suc i1) [] le = refl
cut_pieces (suc i0) (suc i1) (x ∷ xs) le = ap (◌∷◌ x) (cut_pieces i0 i1 xs (omega arith))

module _ {E K : Type 0} ⦃e : Eq K⦄ (key : E → K) (hash : HashIndex K)
    (store : hash.Table → K → ℕ → hash.Table) (threshold : ℕ) where
  Indexed-cut :
      (a b c : List E) (t : hash.Table)
      → Distinct key (a ++ (b ++ c))
      → Indexed key hash (some t) (a ++ (b ++ c))
      → Indexed key hash (some (put_all key hash (erase_keys key hash t b) (length a) c)) (a ++ c)
  Indexed-cut a b c t d h = λ k.
      let (dac, dc, ab, bc, ac) = Distinct-cut key a b c d in
      ground (
        arith,
        find-put_all key hash (erase_keys key hash t b) (length a) c k dc,
        find-erase_keys key hash t b k,
        h k,
        find_in_vec-append key k a c,
        find_in_vec-append key k a (b ++ c),
        find_in_vec-append key k b c,
        length-append a c,
        length-append a (b ++ c),
        length-append b c,
        ab k,
        bc k,
        ac k,
        find_in_vec-le key k a,
        find_in_vec-le key k b,
        find_in_vec-le key k c,
      )

  Indexed-erase_range :
      (o : Option hash.Table) (a b c : List E) (i : ℕ)
      → length a ≡ i
      → Distinct key (a ++ (b ++ c))
      → Indexed key hash o (a ++ (b ++ c))
      → Indexed key hash
          (elim o [ none ↦ none | some t ↦ some (put_all key hash (erase_keys key hash t b) i c) ])
          (a ++ c)
  Indexed-erase_range none a b c i p d h = tt
  Indexed-erase_range (some t) a b c i p d h = rw (sym p) (Indexed-cut a b c t d h)

  -- `erase` of a range of positions, in order and in bounds, from a container whose table agrees with
  -- its vector keeps the agreement; after it the keys in the range have no element and every other
  -- key has the element it had.
  pub erase_range_lem :
      (d : Dense E hash.Table) (i0 i1 : ℕ)
      → IsValid key hash d
      → i0 ≤ i1
      → i1 ≤ length d.vec
      → IsValid key hash (erase_range key hash store threshold d i0 i1)
        × ((k : K)
            → entry key k (erase_range key hash store threshold d i0 i1).vec
              ≡ (if present key k (drop i0 (take i1 d.vec)) then none else entry key k d.vec))
  unfolding erase_range
  erase_range_lem d i0 i1 h le bound =
      let a = take i0 d.vec in
      let b = drop i0 (take i1 d.vec) in
      let c = drop i1 d.vec in
      let whole = sym (cut_pieces i0 i1 d.vec le) in
      let cut = subst (Distinct key) whole h.0 in
      let size : length a ≡ i0 = omega (arith, length-take i0 d.vec) in
      (
        (
          (Distinct-cut key a b c cut).0,
          Indexed-erase_range d.table a b c i0 size cut
              (subst (Indexed key hash d.table) whole h.1),
        ),
        λ k.
            entry-cut key a b c k cut
            ∙ ap (λ xs. if present key k b then none else entry key k xs) (sym whole),
      )
