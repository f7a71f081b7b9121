-- ===== src/DenseHash/Map.antt =====
-- tf/denseHashMap.h: the map, whose elements are pairs, and `operator[]`.
use pxr_tf.Base.{
  ℕ, ◌≡◌, refl, ap₂, ◌∙◌, sym, Bool, true, List, [], ◌∷◌, Option, none, some, arith, if◌then◌else◌,
  get_elem?,
}
use pxr_tf.DenseHash.Index.{Eq, HashIndex}
use pxr_tf.DenseHash.{Dense, find_in_vec, insert}
use pxr_tf.DenseHash.Search.{
  entry, added, find_in_vec-le, find_in_vec-append, get_elem?-find_in_vec, entry-added, beq_refl,
}
use pxr_tf.DenseHash.Valid.{IsValid, insert_lem}

module _ {E K : Type 0} ⦃e : Eq K⦄ (key : E → K) where
  find_in_vec-added :
      (v : E) (xs : List E) → find_in_vec key (key v) (added key v xs) ≡ find_in_vec key (key v) xs
  unfolding find_in_vec
  find_in_vec-added v xs = ground (
    arith,
    find_in_vec-append key (key v) xs (v ∷ []),
    find_in_vec-le key (key v) xs,
    beq_refl (key v),
  )

chosen :
    {A : Type 0} (b : Bool) (v : A) (o : Option A)
    → b ≡ true
    → elim o as (λ x. Option A) [ none ↦ if b then some v else none | some x ↦ some x ]
      ≡ some (elim o as (λ x. A) [ none ↦ v | some x ↦ x ])
chosen b v none h = rw h refl
chosen b v (some x) h = refl

module _ {K V : Type 0} ⦃e : Eq K⦄ (hash : HashIndex K) (threshold : ℕ) where
  abbrev pub pair_key : K × V → K
  pair_key p = p.0

  -- `operator[]`: the position of the pair to whose value the reference is; `value` is `Data()`.
  pub index : Dense (K × V) hash.Table → K → V → Dense (K × V) hash.Table × ℕ
  unfolding insert
  index d k value =
      let (after, i, new) = insert pair_key hash hash.insert threshold d (k, value) in (after, i)

  -- `operator[]` on a map whose table agrees with its vector keeps the agreement, and it refers to the
  -- pair that the map had with the key, or to a new one with the default value.
  pub index_lem :
      (d : Dense (K × V) hash.Table) (k : K) (value : V)
      → IsValid pair_key hash d
      → IsValid pair_key hash (index d k value).0
        × (get_elem? (index d k value).0.vec (index d k value).1
            ≡ some (elim (entry pair_key k d.vec) [ none ↦ (k, value) | some x ↦ x ]))
  unfolding index
  index_lem d k value h =
      let (valid, vec, place, _) =
        insert_lem pair_key hash hash.insert threshold d (k, value) hash.find-insert h in
      (
        valid,
        ap₂ get_elem? vec (place ∙ sym (find_in_vec-added pair_key (k, value) d.vec))
            ∙ get_elem?-find_in_vec pair_key k (added pair_key (k, value) d.vec)
            ∙ entry-added pair_key k (k, value) d.vec
            ∙ chosen (e.beq k k) (k, value) (entry pair_key k d.vec) (beq_refl k),
      )
