-- ===== src/DenseHash/Equal.antt =====
-- tf/denseHashMap.h: `operator==`, and vectors with the same elements.
use pxr_tf.Base.{
  ℕ, suc, ◌≤◌, ◌<◌, ◌≡◌, ◌↔◌, refl, ap, ◌∙◌, sym, Bool, true, List, [], ◌∷◌, none, some, arith,
  ◌==◌, if◌then◌else◌, length, Bool-cases, inl, inr,
}
use pxr_tf.DenseHash.Index.{Eq, HashIndex}
use pxr_tf.DenseHash.{Dense, find_in_vec, all_found, equal}
use pxr_tf.DenseHash.Search.{
  entry, Absent, Distinct, find_in_vec-le, get_elem?-find_in_vec, entry-Absent, entry-present,
  entry-key, Absent-congr, beq_refl, beq_comm,
}
use pxr_tf.DenseHash.Removed.{swap_pop, length-swap_pop, Distinct-swap_pop, entry-swap_pop}
use pxr_tf.DenseHash.Valid.{IsValid, find_lem}

module _ {E K : Type 0} ⦃e : Eq K⦄ (key : E → K) where
  -- Each element of the first vector is the element of the second with its key.
  abbrev Within : List E → List E → Type 0
  Within [] ys = Unit {0}
  Within (x ∷ xs) ys = (entry key (key x) ys ≡ some x) × Within xs ys

  -- The second vector without one element of the first.
  remove_one :
      (ys : List E) (x : E)
      → Distinct key ys
      → entry key (key x) ys ≡ some x
      → (zs : List E) × Distinct key zs
        × (suc (length zs) ≡ length ys)
        × ((k : K) → entry key k zs ≡ (if e.beq (key x) k then none else entry key k ys))
  unfolding entry
  remove_one [] x d h = cc
  remove_one (y ∷ ys) x d h =
      let i = find_in_vec key (key x) (y ∷ ys) in
      let g = get_elem?-find_in_vec key (key x) (y ∷ ys) ∙ h in
      (
        swap_pop (y ∷ ys) i,
        Distinct-swap_pop key y ys i x d g,
        ap suc (length-swap_pop y ys i),
        λ k. entry-swap_pop key y ys i x k d g,
      )

  Within-remove :
      (xs ys zs : List E) (x : E)
      → Absent key (key x) xs
      → Within xs ys
      → ((k : K) → entry key k zs ≡ (if e.beq (key x) k then none else entry key k ys))
      → Within xs zs
  unfolding find_in_vec
  Within-remove [] ys zs x a w h = tt
  Within-remove (x2 ∷ xs) ys zs x a w h = (
    ground (arith, h (key x2), w.0, a, beq_comm (key x) (key x2)),
    Within-remove xs ys zs x (ground (arith, a)) w.1 h,
  )

  Within-length :
      (xs ys : List E) → Distinct key xs → Distinct key ys → Within xs ys → length xs ≤ length ys
  Within-length [] ys dx dy w = omega arith
  Within-length (x ∷ xs) ys dx dy w =
      let (zs, dz, size, left) = remove_one ys x dy w.0 in
      omega (arith, size, Within-length xs zs dx.1 dz (Within-remove xs ys zs x dx.0 w.1 left))

  -- A vector of that length has no other element.
  entry-Within :
      (xs ys : List E) (k : K)
      → Distinct key xs
      → Distinct key ys
      → Within xs ys
      → length xs ≡ length ys
      → entry key k xs ≡ entry key k ys
  unfolding entry
  entry-Within [] [] k dx dy w p = refl
  entry-Within [] (y ∷ ys) k dx dy w p = absurd (omega arith)
  entry-Within (x ∷ xs) ys k dx dy w p =
      let (zs, dz, size, left) = remove_one ys x dy w.0 in
      let rest =
        entry-Within xs zs k dx.1 dz (Within-remove xs ys zs x dx.0 w.1 left)
          (omega (arith, size, p)) in
      elim (Bool-cases (e.beq (key x) k)) [
        | inl same ↦ rw same (sym (w.0) ∙ ap (λ j. entry key j ys) ((e.beq_iff (key x) k).0 same))
        | inr differ ↦ rw differ (rest ∙ left k ∙ rw differ refl)
      ]

  Within-entry :
      (xs ys : List E)
      → Distinct key xs
      → ((k : K) → find_in_vec key k xs < length xs → entry key k xs ≡ entry key k ys)
      → Within xs ys
  unfolding find_in_vec entry
  Within-entry [] ys d h = tt
  Within-entry (x ∷ xs) ys d h = (
    ground (arith, h (key x), beq_refl (key x)),
    Within-entry xs ys d.1 (λ k lt. ground (arith, h k, lt, d.0, Absent-congr key (key x) k xs)),
  )

module _ {E K : Type 0} ⦃e : Eq K⦄ (key : E → K) (hash : HashIndex K)
    (store : hash.Table → K → ℕ → hash.Table) (threshold : ℕ) where
  -- `same` tells elements with one key apart.
  abbrev pub Separates : (E → E → Bool) → Type 0
  Separates same = (x y : E) → key x ≡ key y → (same x y ≡ true) ↔ (x ≡ y)

  all_found-Within :
      (same : E → E → Bool) (xs : List E) (d : Dense E hash.Table)
      → Separates same
      → IsValid key hash d
      → (all_found key hash store threshold same xs d ≡ true) ↔ Within key xs d.vec
  unfolding all_found
  all_found-Within same [] d sep h = (λ p. tt, λ w. refl)
  all_found-Within same (x ∷ xs) d sep h =
      let rest = all_found-Within same xs d sep h in
      let f = find_lem key hash store threshold d (key x) h in
      let g = get_elem?-find_in_vec key (key x) d.vec in
      let n = find_in_vec-le key (key x) d.vec in
      elim (Bool-cases (find_in_vec key (key x) d.vec == length d.vec)) [
        | inl missing ↦
            let none_there = entry-Absent key (key x) d.vec (ground (arith, missing)) in
            rw (f, missing, none_there) (λ q. cc, λ w. cc)
        | inr found ↦
            let (y, p) = entry-present key (key x) d.vec (ground (arith, found, n)) in
            let s = sep x y (sym (entry-key key (key x) d.vec y p)) in
            rw (f, found, g, p)
              (elim (Bool-cases (same x y)) [
                | inl alike ↦ rw alike (λ q. (ap some (sym (s.0 alike)), rest.0 q), λ w. rest.1 w.1)
                | inr differ ↦ rw differ (λ q. cc, λ w. ground (arith, w.0, s, differ))
              ])
      ]

  -- `operator==` between containers whose tables agree with their vectors answers yes exactly if each
  -- key has the same element in both, in whatever order, where the comparison of values tells
  -- elements with one key apart.
  pub equal_iff :
      (same : E → E → Bool) (a b : Dense E hash.Table)
      → Separates same
      → IsValid key hash a
      → IsValid key hash b
      → (equal key hash store threshold same a b ≡ true)
        ↔ ((k : K) → entry key k a.vec ≡ entry key k b.vec)
  unfolding equal
  equal_iff same a b sep ha hb =
      let w = all_found-Within same a.vec b sep hb in
      (
        λ p k.
            entry-Within key a.vec b.vec k ha.0 hb.0 (w.0 (ground (arith, p))) (ground (arith, p)),
        λ h.
            let ab = Within-entry key a.vec b.vec ha.0 (λ k lt. h k) in
            let ba = Within-entry key b.vec a.vec hb.0 (λ k lt. sym (h k)) in
            let p : length a.vec ≡ length b.vec = omega (
              arith,
              Within-length key a.vec b.vec ha.0 hb.0 ab,
              Within-length key b.vec a.vec hb.0 ha.0 ba,
            ) in
            ground (arith, p, w.1 ab),
      )
