-- ===== src/DenseHash/Index.antt =====
-- What tf/denseHashMap.h and tf/denseHashSet.h rely on: the equality of keys, `EqualKey`, and the
-- hash map from keys to positions, TfHashMap, which wraps a container that is not part of this model.
use pxr_tf.Base.{ℕ, ◌≡◌, refl, ◌↔◌, Bool, true, Option, none, some, ◌==◌, ==_iff, if◌then◌else◌}

pub record Eq (K : Type 0) : Type 0 where
  pub beq : K → K → Bool
  pub beq_iff : (a b : K) → (beq a b ≡ true) ↔ (a ≡ b)

instance abbrev pub nat_eq : Eq ℕ
nat_eq = record { beq = ◌==◌; beq_iff = ==_iff }

-- `insert` leaves the position of a key alone that has one; `put` is `(*_h)[k] = i`.
pub record HashIndex (K : Type 0) ⦃e : Eq K⦄ : Type 1 where
  pub Table : Type 0
  pub new : Table
  pub find : Table → K → Option ℕ
  pub insert : Table → K → ℕ → Table
  pub put : Table → K → ℕ → Table
  pub erase : Table → K → Table
  pub find-new : (k : K) → find new k ≡ none
  pub find-insert :
      (t : Table) (k : K) (i : ℕ) (j : K)
      → find t k ≡ none
      → find (insert t k i) j ≡ (if e.beq k j then some i else find t j)
  pub find-put :
      (t : Table) (k : K) (i : ℕ) (j : K)
      → find (put t k i) j ≡ (if e.beq k j then some i else find t j)
  pub find-erase :
      (t : Table) (k j : K) → find (erase t k) j ≡ (if e.beq k j then none else find t j)

-- A function from keys to positions is such a map.
module _ {K : Type 0} ⦃e : Eq K⦄ where
  abbrev pub written : (K → Option ℕ) → K → Option ℕ → K → Option ℕ
  written t k o j = if e.beq k j then o else t j

  abbrev pub store_new : (K → Option ℕ) → K → ℕ → K → Option ℕ
  store_new t k i = elim (t k) [ none ↦ written t k (some i) | some _ ↦ t ]

  abbrev pub function_index : HashIndex K
  function_index = record {
    Table = K → Option ℕ;
    new = λ k. none;
    find = λ t k. t k;
    insert = store_new;
    put = λ t k i. written t k (some i);
    erase = λ t k. written t k none;
    find-new = λ k. refl;
    find-insert = λ t k i j h. rw (h, store_new) refl;
    find-put = λ t k i j. refl;
    find-erase = λ t k j. refl;
  }
