-- ===== src/CompressedBits/Queries/Answers.antt =====
-- tf/compressedBits.h: the questions about one bit and about the whole array, together.
use pxr_tf.Base.{ℕ, ◌-◌, ◌≡◌, true, false}
use pxr_tf.CompressedBits.Defs.{CompressedBits, IsValid, decode}
use pxr_tf.CompressedBits.Positions.{bit_at}
use pxr_tf.CompressedBits.Queries.{
  is_set, find_next_set, find_next_unset, find_nth_set, count, get_num_set, get_first_set,
  get_last_set,
}
use pxr_tf.CompressedBits.Queries.Search.{
  IsNext, IsPrev, is_set_lem, find_next_set-IsNext, find_next_unset-IsNext,
}
use pxr_tf.CompressedBits.Queries.Ends.{get_first_set-IsNext, get_last_set-IsPrev}
use pxr_tf.CompressedBits.Queries.Counts.{
  IsNth, Tests, num_true, get_num_set-num_true, count-num_set, find_nth_set-IsNth, platform-Tests,
}

-- For a valid array and any number, `IsSet` reads the bit at that index, no past the end;
-- `FindNextSet` and `FindNextUnset` return the first set and unset bit from it on, or the size; and
-- `FindNthSet` returns the set bit with that number of set bits before it, or the size if there are
-- not that many.
pub searches :
    (c : CompressedBits) (n : ℕ)
    → IsValid c
    → (is_set c n ≡ bit_at (decode c) n)
      × IsNext true c n (find_next_set c n)
      × IsNext false c n (find_next_unset c n)
      × IsNth (decode c) c.num n (find_nth_set c n)
searches c n v = (
  is_set_lem c n v,
  find_next_set-IsNext c n v,
  find_next_unset-IsNext c n v,
  find_nth_set-IsNth c n v,
)

-- For a valid array, `GetFirstSet` and `GetLastSet` are the first and the last set bit, or the size
-- if no bit is set; `GetNumSet` and `Count` give the number of set bits; and `AreAllSet`, `IsAnySet`
-- and `IsAnyUnset` decide whether all bits are set, some bit is set, and not all bits are set.
pub totals :
    (c : CompressedBits)
    → IsValid c
    → IsNext true c 0 (get_first_set c)
      × IsPrev c (c.num - 1) (get_last_set c)
      × (get_num_set c ≡ num_true (decode c))
      × ((count c).num_set ≡ num_true (decode c))
      × Tests c
totals c v = (
  get_first_set-IsNext c v,
  get_last_set-IsPrev c v,
  get_num_set-num_true c v,
  count-num_set c v,
  platform-Tests c v,
)
