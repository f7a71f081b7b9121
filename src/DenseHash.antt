-- ===== src/DenseHash.antt =====
-- tf/denseHashMap.h and tf/denseHashSet.h: TfDenseHashMap and TfDenseHashSet keep their elements in
-- a vector and, from `threshold` elements on, a hash map from keys to positions in the vector.
-- Both are one model over an element type `E` with its key: the map has pairs, the set has keys.
-- `EqualKey` decides equality of keys. An iterator is a position, and the end is the size.
pub mod Index
pub mod Search
pub mod Filled
pub mod Removed
pub mod Cut
pub mod Valid
pub mod Ranges
pub mod Erased
pub mod Runs
pub mod Equal
pub mod Map
pub mod Set
mod Tests
use pxr_tf.Base.{
  ℕ, zero, suc, ◌+◌, ◌-◌, Bool, true, false, not, List, [], ◌∷◌, ◌++◌, Option, none, some, ltb, leb,
  ◌==◌, if◌then◌else◌, length, get_elem?, set, take, drop,
}
use pxr_tf.DenseHash.Index.{Eq, HashIndex}

pub record Dense (E T : Type 0) : Type 0 where
  pub vec : List E
  pub table : Option T

-- `vec.pop_back()`
pub pop_back : {E : Type 0} → List E → List E
pop_back [] = []
pop_back (x ∷ []) = []
pop_back (x ∷ y ∷ xs) = x ∷ pop_back (y ∷ xs)

module _ {E K : Type 0} ⦃e : Eq K⦄ (key : E → K) where
  -- `_FindInVec`
  pub find_in_vec : K → List E → ℕ
  find_in_vec k [] = 0
  find_in_vec k (x ∷ xs) = if e.beq (key x) k then 0 else suc (find_in_vec k xs)

module _ {E K : Type 0} ⦃e : Eq K⦄ (key : E → K) (hash : HashIndex K) where
  -- The loops of `erase` of a range
  pub erase_keys : hash.Table → List E → hash.Table
  erase_keys t [] = t
  erase_keys t (x ∷ xs) = erase_keys (hash.erase t (key x)) xs

  pub put_all : hash.Table → ℕ → List E → hash.Table
  put_all t i [] = t
  put_all t i (x ∷ xs) = put_all (hash.put t (key x) i) (suc i) xs

-- `store` is how a new table is filled: the map calls `insert` and the set `operator[]`.
module _ {E K : Type 0} ⦃e : Eq K⦄ (key : E → K) (hash : HashIndex K)
    (store : hash.Table → K → ℕ → hash.Table) where
  -- The loop of `_CreateTable` over the vector from position `i` on.
  pub fill : hash.Table → ℕ → List E → hash.Table
  fill t i [] = t
  fill t i (x ∷ xs) = fill (store t (key x) i) (suc i) xs

module _ {E K : Type 0} ⦃e : Eq K⦄ (key : E → K) (hash : HashIndex K)
    (store : hash.Table → K → ℕ → hash.Table) (threshold : ℕ) where
  -- `find`, and `count`
  pub find : Dense E hash.Table → K → ℕ
  unfolding find_in_vec
  find d k = elim d.table [
    | none ↦ find_in_vec key k d.vec
    | some t ↦ elim (hash.find t k) [ none ↦ length d.vec | some i ↦ i ]
  ]

  pub count : Dense E hash.Table → K → Bool
  unfolding find
  count d k = not (find d k == length d.vec)

  -- `_CreateTable` and `_CreateTableIfNeeded`
  pub create_table : Dense E hash.Table → Dense E hash.Table
  unfolding fill
  create_table d = elim d.table [
    | none ↦ record d { table = some (fill key hash store hash.new 0 d.vec) }
    | some t ↦ d
  ]

  pub create_table_if_needed : Dense E hash.Table → Dense E hash.Table
  unfolding create_table
  create_table_if_needed d = if leb threshold (length d.vec) then create_table d else d

  -- `insert` of one element: the position of the element with its key, and whether it is new.
  pub push : Dense E hash.Table → E → Dense E hash.Table × ℕ × Bool
  unfolding create_table_if_needed
  push d v = (create_table_if_needed (record d { vec = d.vec ++ v ∷ [] }), length d.vec, true)

  pub insert : Dense E hash.Table → E → Dense E hash.Table × ℕ × Bool
  unfolding push find_in_vec
  insert d v = elim d.table [
    | none ↦
        if ltb (find_in_vec key (key v) d.vec) (length d.vec)
        then (d, find_in_vec key (key v) d.vec, false)
        else push d v
    | some t ↦ elim (hash.find t (key v)) [
      | some i ↦ (d, i, false)
      | none ↦ push (record d { table = some (hash.insert t (key v) (length d.vec)) }) v
    ]
  ]

  -- `insert` of a range
  pub insert_each : Dense E hash.Table → List E → Dense E hash.Table
  unfolding insert
  insert_each d [] = d
  insert_each d (v ∷ vs) = insert_each (insert d v).0 vs

  pub insert_range : Dense E hash.Table → List E → Dense E hash.Table
  unfolding insert_each create_table
  insert_range d vs =
      insert_each (if leb threshold (length d.vec + length vs) then create_table d else d) vs

  -- `insert_unique`
  pub insert_unique : Dense E hash.Table → List E → Dense E hash.Table
  unfolding insert_range create_table_if_needed
  insert_unique d vs =
      if length d.vec == 0
      then create_table_if_needed (record d { vec = vs })
      else insert_range d vs

  -- `erase` at an iterator: the last element takes the place of the erased one.
  pub erase_at : Dense E hash.Table → ℕ → Dense E hash.Table
  unfolding pop_back
  erase_at d i = elim (get_elem? d.vec i) [
    | none ↦ d
    | some x ↦ elim (get_elem? d.vec (length d.vec - 1)) [
      | none ↦ d
      | some last ↦
          if i == length d.vec - 1
          then record {
            vec = pop_back d.vec;
            table = elim d.table [ none ↦ none | some t ↦ some (hash.erase t (key x)) ];
          }
          else record {
            vec = pop_back (set (set d.vec i last) (length d.vec - 1) x);
            table = elim d.table [
              | none ↦ none
              | some t ↦ some (hash.put (hash.erase t (key x)) (key last) i)
            ];
          }
    ]
  ]

  -- `erase` of a key
  pub erase : Dense E hash.Table → K → Dense E hash.Table × ℕ
  unfolding erase_at find
  erase d k = if find d k == length d.vec then (d, 0) else (erase_at d (find d k), 1)

  -- `erase` of a range of iterators
  pub erase_range : Dense E hash.Table → ℕ → ℕ → Dense E hash.Table
  unfolding erase_keys put_all
  erase_range d i0 i1 = record {
    vec = take i0 d.vec ++ drop i1 d.vec;
    table = elim d.table [
      | none ↦ none
      | some t ↦
          some
            (put_all key hash (erase_keys key hash t (drop i0 (take i1 d.vec))) i0 (drop i1 d.vec))
    ];
  }

  -- `clear`
  pub clear : Dense E hash.Table → Dense E hash.Table
  clear d = record { vec = []; table = none }

  -- `shrink_to_fit`; the capacities of the vector and of the table are not modelled.
  pub shrink_to_fit : Dense E hash.Table → Dense E hash.Table
  unfolding fill
  shrink_to_fit d = elim d.table [
    | none ↦ d
    | some t ↦
        if ltb (length d.vec) threshold
        then record d { table = none }
        else record d { table = some (fill key hash store hash.new 0 d.vec) }
  ]

  -- `operator==`; `same` is how the values of two elements with one key compare.
  pub all_found : (E → E → Bool) → List E → Dense E hash.Table → Bool
  unfolding find
  all_found same [] d = true
  all_found same (x ∷ xs) d =
      let rest = all_found same xs d in
      if find d (key x) == length d.vec then false else elim (get_elem? d.vec (find d (key x))) [
        | none ↦ false
        | some y ↦ if same x y then rest else false
      ]

  pub equal : (E → E → Bool) → Dense E hash.Table → Dense E hash.Table → Bool
  unfolding all_found
  equal same a b = if length a.vec == length b.vec then all_found same a.vec b else false
