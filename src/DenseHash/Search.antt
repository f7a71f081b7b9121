-- ===== src/DenseHash/Search.antt =====
-- tf/denseHashMap.h: `_FindInVec`, and vectors whose keys are distinct.
use pxr_tf.Base.{
  ℕ, zero, suc, ◌+◌, ◌≤◌, ◌<◌, ◌≡◌, inl, inr, refl, ap, ◌∙◌, sym, Bool, true, List, [], ◌∷◌, ◌++◌,
  Option, none, some, arith, ltb, if◌then◌else◌, length, length-append, get_elem?, Bool-cases,
}
use pxr_tf.DenseHash.Index.{Eq}
use pxr_tf.DenseHash.{find_in_vec}

pub get_elem?-bound :
    {E : Type 0} (ys : List E) (i : ℕ) (x : E) → get_elem? ys i ≡ some x → i < length ys
get_elem?-bound [] i x h = cc
get_elem?-bound (y ∷ ys) zero x h = omega arith
get_elem?-bound (y ∷ ys) (suc i) x h = omega (arith, get_elem?-bound ys i x h)

module _ {K : Type 0} ⦃e : Eq K⦄ where
  pub beq_refl : (a : K) → e.beq a a ≡ true
  beq_refl a = (e.beq_iff a a).1 refl

  pub beq_comm : (a b : K) → e.beq a b ≡ e.beq b a
  beq_comm a b = elim (Bool-cases (e.beq a b)) [
    | inl same ↦ let p = (e.beq_iff a b).0 same in same ∙ sym ((e.beq_iff b a).1 (sym p))
    | inr differ ↦ elim (Bool-cases (e.beq b a)) [
      | inl same ↦ let p = (e.beq_iff b a).0 same in (e.beq_iff a b).1 (sym p) ∙ sym same
      | inr also ↦ differ ∙ sym also
    ]
  ]

  -- Equal keys compare alike.
  pub beq_congr : (a b c : K) → e.beq a b ≡ true → e.beq a c ≡ e.beq b c
  beq_congr a b c h = ap (λ k. e.beq k c) ((e.beq_iff a b).0 h)

module _ {E K : Type 0} ⦃e : Eq K⦄ (key : E → K) where
  -- The element with a key, if there is one.
  unfoldable pub entry : K → List E → Option E
  entry k [] = none
  entry k (x ∷ xs) = if e.beq (key x) k then some x else entry k xs

  abbrev pub Absent : K → List E → Type 0
  Absent k xs = find_in_vec key k xs ≡ length xs

  abbrev pub Distinct : List E → Type 0
  Distinct [] = Unit {0}
  Distinct (x ∷ xs) = Absent (key x) xs × Distinct xs

  -- The position of a key, as a table has it.
  abbrev pub slot : K → List E → Option ℕ
  slot k xs = if ltb (find_in_vec key k xs) (length xs) then some (find_in_vec key k xs) else none

  abbrev pub present : K → List E → Bool
  present k xs = ltb (find_in_vec key k xs) (length xs)

  -- The vector with an element that has no other element's key.
  abbrev pub added : E → List E → List E
  added v xs = if present (key v) xs then xs else xs ++ v ∷ []

  pub find_in_vec-le : (k : K) (xs : List E) → find_in_vec key k xs ≤ length xs
  unfolding find_in_vec
  find_in_vec-le k [] = omega arith
  find_in_vec-le k (x ∷ xs) = ground (arith, find_in_vec-le k xs)

  pub get_elem?-find_in_vec :
      (k : K) (xs : List E) → get_elem? xs (find_in_vec key k xs) ≡ entry k xs
  unfolding find_in_vec entry
  get_elem?-find_in_vec k [] = refl
  get_elem?-find_in_vec k (x ∷ xs) = ground (arith, get_elem?-find_in_vec k xs)

  pub entry-Absent : (k : K) (xs : List E) → Absent k xs → entry k xs ≡ none
  unfolding find_in_vec entry
  entry-Absent k [] h = refl
  entry-Absent k (x ∷ xs) h = ground (arith, entry-Absent k xs)

  pub Absent-entry : (k : K) (xs : List E) → entry k xs ≡ none → Absent k xs
  unfolding find_in_vec entry
  Absent-entry k [] h = refl
  Absent-entry k (x ∷ xs) h = ground (arith, Absent-entry k xs)

  pub entry-key : (k : K) (xs : List E) (x : E) → entry k xs ≡ some x → key x ≡ k
  unfolding entry
  entry-key k [] x h = cc
  entry-key k (y ∷ xs) x h = ground (arith, entry-key k xs x, e.beq_iff (key y) k)

  pub entry-present :
      (k : K) (xs : List E) → find_in_vec key k xs < length xs → (x : E) × (entry k xs ≡ some x)
  unfolding find_in_vec entry
  entry-present k [] h = absurd (omega arith)
  entry-present k (x ∷ xs) h = elim (Bool-cases (e.beq (key x) k)) [
    | inl same ↦ (x, rw same refl)
    | inr differ ↦ rw differ (entry-present k xs (ground (arith, differ)))
  ]

  pub find_in_vec-append :
      (k : K) (xs ys : List E)
      → find_in_vec key k (xs ++ ys) ≡ (
          if ltb (find_in_vec key k xs) (length xs)
          then find_in_vec key k xs
          else length xs + find_in_vec key k ys)
  unfolding find_in_vec
  find_in_vec-append k [] ys = ground arith
  find_in_vec-append k (x ∷ xs) ys = ground (arith, find_in_vec-append k xs ys, find_in_vec-le k xs)

  pub entry-append :
      (k : K) (xs ys : List E)
      → entry k (xs ++ ys) ≡ elim (entry k xs) [ none ↦ entry k ys | some x ↦ some x ]
  unfolding entry
  entry-append k [] ys = refl
  entry-append k (x ∷ xs) ys = ground (arith, entry-append k xs ys)

  pub Distinct-snoc :
      (xs : List E) (v : E) → Distinct xs → Absent (key v) xs → Distinct (xs ++ v ∷ [])
  unfolding find_in_vec
  Distinct-snoc [] v d h = (refl, tt)
  Distinct-snoc (x ∷ xs) v d h = (
    ground (
      arith,
      find_in_vec-append (key x) xs (v ∷ []),
      length-append xs (v ∷ []),
      beq_comm (key x) (key v),
    ),
    Distinct-snoc xs v d.1 (ground arith),
  )

  pub Absent-congr : (j k : K) (xs : List E) → e.beq j k ≡ true → Absent j xs → Absent k xs
  Absent-congr j k xs h a = ap (λ x. find_in_vec key x xs) (sym ((e.beq_iff j k).0 h)) ∙ a

  -- In a vector with distinct keys, each element is where its key is found.
  pub find_in_vec-at :
      (xs : List E) (i : ℕ) (x : E)
      → Distinct xs
      → get_elem? xs i ≡ some x
      → find_in_vec key (key x) xs ≡ i
  unfolding find_in_vec
  find_in_vec-at [] i x d h = cc
  find_in_vec-at (y ∷ ys) zero x d h = ground (arith, beq_refl (key x))
  find_in_vec-at (y ∷ ys) (suc i) x d h =
      ground
        (arith, find_in_vec-at ys i x d.1 h, e.beq_iff (key y) (key x), get_elem?-bound ys i x h)

  -- The first element with a key stays.
  pub entry-added :
      (k : K) (v : E) (xs : List E)
      → entry k (added v xs)
        ≡ elim (entry k xs) [ none ↦ if e.beq (key v) k then some v else none | some x ↦ some x ]
  unfolding entry
  entry-added k v xs = elim (Bool-cases (present (key v) xs)) [
    | inl old ↦
        rw old
          (ground (arith, old, Absent-entry k xs, Absent-congr k (key v) xs, beq_comm (key v) k))
    | inr new ↦ rw new (entry-append k xs (v ∷ []))
  ]

  -- The element at the position where a key is found has the key.
  pub beq-find_in_vec :
      (k : K) (xs : List E) (x : E)
      → get_elem? xs (find_in_vec key k xs) ≡ some x
      → e.beq (key x) k ≡ true
  beq-find_in_vec k xs x h =
      (e.beq_iff (key x) k).1 (entry-key k xs x (sym (get_elem?-find_in_vec k xs) ∙ h))
