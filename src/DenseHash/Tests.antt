-- ===== src/DenseHash/Tests.antt =====
-- tf/denseHashMap.h: runs on a map and a set of numbers, with a table from two elements on.
use pxr_tf.Base.{
  ℕ, ◌≡◌, ◌↔◌, refl, ap, ap₂, ◌+◌, Bool, true, false, List, [], ◌∷◌, none, some, arith, ◌==◌,
  ==_iff, if◌then◌else◌, length, get_elem?,
}
use pxr_tf.DenseHash.Index.{HashIndex, nat_eq, function_index}
use pxr_tf.DenseHash.{
  Dense, find_in_vec, find, count, insert, insert_unique, erase, erase_range, equal,
}
use pxr_tf.DenseHash.Search.{entry, present}
use pxr_tf.DenseHash.Filled.{Stores}
use pxr_tf.DenseHash.Valid.{IsValid, Inserted, insert_lem}
use pxr_tf.DenseHash.Ranges.{added_all, insert_unique_lem, insert_unique_loses}
use pxr_tf.DenseHash.Cut.{erase_range_lem}
use pxr_tf.DenseHash.Erased.{Erased, erase_lem}
use pxr_tf.DenseHash.Runs.{
  Operation, inserting, inserting_range, erasing, run, meaning, empty, find-run_refines,
}
use pxr_tf.DenseHash.Map.{index, index_lem}
use pxr_tf.DenseHash.Equal.{Separates, equal_iff}

abbrev hash : HashIndex ℕ
hash = function_index

abbrev Pair : Type 0
Pair = ℕ × ℕ

abbrev key : Pair → ℕ
key p = p.0

abbrev Map : Type 0
Map = Dense Pair hash.Table

abbrev steps : List (Operation Pair ℕ)
steps =
    inserting (5, 1) ∷ inserting_range ((6, 2) ∷ (5, 3) ∷ []) ∷ erasing 5 ∷ inserting (5, 4) ∷ []

abbrev three : Map
three = record {
  vec = (5, 1) ∷ (6, 2) ∷ (7, 3) ∷ [];
  table =
      some (λ k.
        if 5 == k then some 0 else if 6 == k then some 1 else if 7 == k then some 2 else none);
}

three-IsValid : IsValid key hash three
unfolding find_in_vec
three-IsValid = ((ground arith, (ground arith, (refl, tt))), λ k. ground arith)

abbrev map_Stores : Stores key hash hash.insert
map_Stores = hash.find-insert

abbrev set_Stores : Stores (λ (k : ℕ). k) hash hash.put
set_Stores t k i j h = hash.find-put t k i j

find-run_refines_example :
    (get_elem? (run key hash hash.insert 2 steps (empty key hash hash.insert 2)).vec (
        find key hash hash.insert 2
          (run key hash hash.insert 2 steps (empty key hash hash.insert 2))
          5)
      ≡ some (5, 4))
    × (count key hash hash.insert 2
          (run key hash hash.insert 2 steps (empty key hash hash.insert 2))
          5
        ≡ true)
unfolding meaning
find-run_refines_example = find-run_refines key hash hash.insert 2 steps 5 map_Stores

insert_lem_example :
    Inserted key hash hash.insert 2 three.vec
      (6, 9)
      three.vec
      false
      (insert key hash hash.insert 2 three (6, 9))
unfolding find_in_vec
insert_lem_example = insert_lem key hash hash.insert 2 three (6, 9) map_Stores three-IsValid

-- The set of 5, 6 and 7.
abbrev numbers : Dense ℕ hash.Table
numbers = record { vec = 5 ∷ 6 ∷ 7 ∷ []; table = three.table }

abbrev own_key : ℕ → ℕ
own_key n = n

numbers-IsValid : IsValid own_key hash numbers
unfolding find_in_vec
numbers-IsValid = ((ground arith, (ground arith, (refl, tt))), λ k. ground arith)

erase_lem_example :
    Erased own_key hash hash.put 2 numbers.vec 5 (erase own_key hash hash.put 2 numbers 5).0
    × ((erase own_key hash hash.put 2 numbers 5).1 ≡ 1)
    × (length (erase own_key hash hash.put 2 numbers 5).0.vec + 1 ≡ 3)
unfolding find_in_vec
erase_lem_example = erase_lem own_key hash hash.put 2 numbers 5 numbers-IsValid

erase_range_lem_example :
    IsValid key hash (erase_range key hash hash.insert 2 three 1 2)
    × ((k : ℕ)
        → entry key k (erase_range key hash hash.insert 2 three 1 2).vec
          ≡ (if present key k ((6, 2) ∷ []) then none else entry key k three.vec))
erase_range_lem_example =
    erase_range_lem key hash hash.insert 2 three 1 2 three-IsValid (omega arith) (omega arith)

insert_unique_lem_example :
    IsValid key hash (insert_unique key hash hash.insert 2 (empty key hash hash.insert 2) three.vec)
    × ((insert_unique key hash hash.insert 2 (empty key hash hash.insert 2) three.vec).vec
        ≡ added_all key [] three.vec)
insert_unique_lem_example =
    insert_unique_lem key hash hash.insert 2 (empty key hash hash.insert 2) three.vec map_Stores
      ((tt, tt)) (λ p. refl) three-IsValid.0

insert_unique_loses_example :
    ((insert_unique key hash hash.insert 2
        (record { vec = []; table = some (λ k. none) })
        three.vec).vec
      ≡ three.vec)
    × (find key hash hash.insert 2
          (insert_unique key hash hash.insert 2
            (record { vec = []; table = some (λ k. none) })
            three.vec)
          5
        ≡ 3)
insert_unique_loses_example =
    insert_unique_loses key hash hash.insert 2 (λ k. none) three.vec 5 (tt, λ k. ground arith)

abbrev same_value : Pair → Pair → Bool
same_value p q = p.1 == q.1

abbrev turned : Map
turned = record { vec = (7, 3) ∷ (5, 1) ∷ (6, 2) ∷ []; table = none }

turned-IsValid : IsValid key hash turned
unfolding find_in_vec
turned-IsValid = ((ground arith, (ground arith, (refl, tt))), tt)

same_value-Separates : Separates key hash hash.insert 2 same_value
same_value-Separates p q k =
    (λ s. ap₂ (λ a b. (a, b)) k ((==_iff p.1 q.1).0 s), λ s. (==_iff p.1 q.1).1 (ap (λ r. r.1) s))

equal_iff_example :
    (equal key hash hash.insert 2 same_value three turned ≡ true)
    ↔ ((k : ℕ) → entry key k three.vec ≡ entry key k turned.vec)
equal_iff_example =
    equal_iff key hash hash.insert 2 same_value three turned same_value-Separates three-IsValid
      turned-IsValid

index_lem_example :
    IsValid key hash (index hash 2 three 6 0).0
    × (get_elem? (index hash 2 three 6 0).0.vec (index hash 2 three 6 0).1 ≡ some (6, 2))
unfolding entry
index_lem_example = index_lem hash 2 three 6 0 three-IsValid
