-- ===== src/SpinRwMutex/Tests.antt =====
-- tf/spinRWMutex.h: runs of two threads, and the theorems at the states that they reach.
use pxr_tf.Base.{ℕ, ◌≤◌, ◌<◌, ◌≡◌, refl, true, [], ◌∷◌, arith}
use pxr_tf.SpinRwMutex.{
  Pc, idle, reader, upgrade_wait, drain, writer, acquire_read, release_read, try_acquire_write,
  acquire_write, upgrade_to_writer, atomic, call_idle, call_reader, add_reader, drop_reader,
  set_flag, set_upgrade_flag, State, move, Steps, here, more, start,
}
use pxr_tf.SpinRwMutex.Counts.{reads, writes, holds, waits, total}
use pxr_tf.SpinRwMutex.Reach.{IsGood, Reachable-IsGood}
use pxr_tf.SpinRwMutex.Safety.{mutual_exclusion, writer_result, drained, upgrade_starves}

abbrev two : ℕ → Pc → Pc → State
two lock a b = record { lock = lock; threads = a ∷ b ∷ [] }

started : Steps (start 2) (two 0 idle idle)
unfolding start
started = here

-- The first thread reads, and the second asks for the write lock.
read_first : Steps (start 2) (two 2 reader idle)
unfolding atomic call_idle add_reader
read_first =
    more (two 0 idle idle) (two 2 reader idle) started (move [] idle (idle ∷ []) acquire_read refl)

write_second : Steps (start 2) (two 3 reader (drain true))
unfolding atomic call_idle set_flag
write_second =
    more (two 2 reader idle) (two 3 reader (drain true)) read_first
      (move (reader ∷ []) idle [] acquire_write refl)

release_first : Steps (start 2) (two 1 idle (drain true))
unfolding atomic call_reader drop_reader
release_first =
    more (two 3 reader (drain true)) (two 1 idle (drain true)) write_second
      (move [] reader (drain true ∷ []) release_read refl)

-- The reader asks for an upgrade while the writer waits for it: neither goes on.
upgrade_first : Steps (start 2) (two 3 upgrade_wait (drain true))
unfolding atomic call_reader set_upgrade_flag
upgrade_first =
    more (two 3 reader (drain true)) (two 3 upgrade_wait (drain true)) write_second
      (move [] reader (drain true ∷ []) upgrade_to_writer refl)

write_alone : Steps (start 2) (two 1 (writer true) idle)
unfolding atomic call_idle set_flag
write_alone =
    more (two 0 idle idle) (two 1 (writer true) idle) started
      (move [] idle (idle ∷ []) try_acquire_write refl)

no_counts : total reads (idle ∷ []) ≡ 0
unfolding total
no_counts = refl

one_waits : 0 < total waits (upgrade_wait ∷ drain true ∷ [])
unfolding total
one_waits = omega arith

Reachable-IsGood_example : IsGood (two 3 reader (drain true))
Reachable-IsGood_example = Reachable-IsGood (two 3 reader (drain true)) (2, write_second)

mutual_exclusion_example : (total writes (idle ∷ []) ≡ 0) × (total holds (idle ∷ []) ≡ 0)
mutual_exclusion_example =
    mutual_exclusion (two 1 (writer true) idle) [] true (idle ∷ []) (2, write_alone) refl

writer_result_example : true ≡ true
writer_result_example =
    writer_result (two 1 (writer true) idle) [] true (idle ∷ []) (2, write_alone) refl

drained_example : atomic acquire_read (drain true) 1 ≡ (1, writer true)
drained_example =
    drained (two 1 idle (drain true)) (idle ∷ []) true [] acquire_read (2, release_first) refl
      no_counts

upgrade_starves_example :
    (total waits (upgrade_wait ∷ drain true ∷ []) ≤ total waits (upgrade_wait ∷ drain true ∷ []))
    × (total writes (upgrade_wait ∷ drain true ∷ []) ≡ 0)
upgrade_starves_example =
    upgrade_starves (two 3 upgrade_wait (drain true)) (two 3 upgrade_wait (drain true))
      (2, upgrade_first) one_waits here
