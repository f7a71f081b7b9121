-- ===== src/SpinRwMutex/Invariant.antt =====
-- tf/spinRWMutex.h: the invariant of the lock word, and the atomic operations one by one.
use pxr_tf.Base.{ℕ, ◌+◌, ◌*◌, ◌≤◌, ◌≡◌, ◌⊎◌, Bool, true, false, arith}
use pxr_tf.SpinRwMutex.{
  Pc, idle, read_wait, read_retry, reader, write_wait, write_retry, upgrade_wait, upgrade_retry,
  read_undo, upgrade_release, drain, writer, Call, try_acquire_read, acquire_read, release_read,
  try_acquire_write, try_acquire_write_if_released, acquire_write, release_write, upgrade_to_writer,
  downgrade_to_reader, add_reader, undo_reader, set_flag, set_flag_if_released, set_upgrade_flag,
  release_upgrade, wait_for_writer, wait_for_readers, drop_reader, clear_flag, downgrade, call_idle,
  call_reader, call_writer, atomic,
}
use pxr_tf.SpinRwMutex.Counts.{reads, flags, writes, holds, waits, resumes}

-- The lock word is the counts and the flag; a writer excludes readers; while a thread waits in
-- UpgradeToWriter the flag stays set, so that none gets past that wait.
abbrev pub Good : ℕ → ℕ → ℕ → ℕ → ℕ → ℕ → ℕ → Type 0
Good lock r f w h u l =
    (lock ≡ 2 * r + f) × (f ≤ 1) × ((w ≡ 0) ⊎ (h ≡ 0)) × ((u ≡ 0) ⊎ (f ≡ 1)) × (l ≡ 0)

-- The numbers of the other threads, and the lock word.
module _ (r f w h u l lock : ℕ) (wf : w ≤ f) (hr : h ≤ r) (uh : u ≤ h) where
  abbrev pub GoodWith : Pc → ℕ → Type 0
  GoodWith pc k =
      Good k (r + reads pc) (f + flags pc) (w + writes pc) (h + holds pc) (u + waits pc)
        (l + resumes pc)

  unfoldable pub Kept : ℕ × Pc → Type 0
  Kept (k, pc) = GoodWith pc k

  add_reader-Kept : (retry : Bool) → GoodWith idle lock → Kept (add_reader retry lock)
  unfolding add_reader Kept
  add_reader-Kept retry g = ground arith

  undo_reader-Kept :
      (retry : Bool) → GoodWith (read_undo retry) lock → Kept (undo_reader retry lock)
  unfolding undo_reader Kept
  undo_reader-Kept retry g = ground arith

  set_flag-Kept : (retry : Bool) → GoodWith idle lock → Kept (set_flag retry lock)
  unfolding set_flag Kept
  set_flag-Kept retry g = ground arith

  set_flag_if_released-Kept : GoodWith idle lock → Kept (set_flag_if_released lock)
  unfolding set_flag_if_released Kept
  set_flag_if_released-Kept g = ground arith

  set_upgrade_flag-Kept : GoodWith reader lock → Kept (set_upgrade_flag true lock)
  unfolding set_upgrade_flag Kept
  set_upgrade_flag-Kept g = ground arith

  release_upgrade-Kept :
      (result : Bool) → GoodWith (upgrade_release result) lock → Kept (release_upgrade result lock)
  unfolding release_upgrade Kept
  release_upgrade-Kept true g = ground arith
  release_upgrade-Kept false g = absurd (omega arith)

  wait_for_readers-Kept :
      (result : Bool) → GoodWith (drain result) lock → Kept (wait_for_readers result lock)
  unfolding wait_for_readers Kept
  wait_for_readers-Kept true g = ground arith
  wait_for_readers-Kept false g = absurd (omega arith)

  read_wait-Kept : GoodWith read_wait lock → Kept (wait_for_writer read_wait read_retry lock)
  unfolding wait_for_writer Kept
  read_wait-Kept g = ground arith

  write_wait-Kept : GoodWith write_wait lock → Kept (wait_for_writer write_wait write_retry lock)
  unfolding wait_for_writer Kept
  write_wait-Kept g = ground arith

  upgrade_wait-Kept :
      GoodWith upgrade_wait lock → Kept (wait_for_writer upgrade_wait upgrade_retry lock)
  unfolding wait_for_writer Kept
  upgrade_wait-Kept g = ground arith

  drop_reader-Kept : GoodWith reader lock → Kept (drop_reader lock)
  unfolding drop_reader Kept
  drop_reader-Kept g = ground arith

  clear_flag-Kept : (result : Bool) → GoodWith (writer result) lock → Kept (clear_flag lock)
  unfolding clear_flag Kept
  clear_flag-Kept result g = ground arith

  downgrade-Kept : (result : Bool) → GoodWith (writer result) lock → Kept (downgrade lock)
  unfolding downgrade Kept
  downgrade-Kept result g = ground arith

  call_idle-Kept : (call : Call) → GoodWith idle lock → Kept (call_idle call lock)
  unfolding call_idle Kept
  call_idle-Kept try_acquire_read g = add_reader-Kept false g
  call_idle-Kept acquire_read g = add_reader-Kept true g
  call_idle-Kept try_acquire_write g = set_flag-Kept false g
  call_idle-Kept acquire_write g = set_flag-Kept true g
  call_idle-Kept try_acquire_write_if_released g = set_flag_if_released-Kept g
  call_idle-Kept release_read g = g
  call_idle-Kept release_write g = g
  call_idle-Kept upgrade_to_writer g = g
  call_idle-Kept downgrade_to_reader g = g

  call_reader-Kept : (call : Call) → GoodWith reader lock → Kept (call_reader call lock)
  unfolding call_reader Kept
  call_reader-Kept release_read g = drop_reader-Kept g
  call_reader-Kept upgrade_to_writer g = set_upgrade_flag-Kept g
  call_reader-Kept try_acquire_read g = g
  call_reader-Kept acquire_read g = g
  call_reader-Kept try_acquire_write g = g
  call_reader-Kept acquire_write g = g
  call_reader-Kept try_acquire_write_if_released g = g
  call_reader-Kept release_write g = g
  call_reader-Kept downgrade_to_reader g = g

  call_writer-Kept :
      (result : Bool) (call : Call)
      → GoodWith (writer result) lock
      → Kept (call_writer result call lock)
  unfolding call_writer Kept
  call_writer-Kept result release_write g = clear_flag-Kept result g
  call_writer-Kept result downgrade_to_reader g = downgrade-Kept result g
  call_writer-Kept result release_read g = g
  call_writer-Kept result upgrade_to_writer g = g
  call_writer-Kept result try_acquire_read g = g
  call_writer-Kept result acquire_read g = g
  call_writer-Kept result try_acquire_write g = g
  call_writer-Kept result acquire_write g = g
  call_writer-Kept result try_acquire_write_if_released g = g

  pub atomic-Kept : (call : Call) (pc : Pc) → GoodWith pc lock → Kept (atomic call pc lock)
  unfolding atomic
  atomic-Kept call idle g = call_idle-Kept call g
  atomic-Kept call reader g = call_reader-Kept call g
  atomic-Kept call (writer result) g = call_writer-Kept result call g
  atomic-Kept call (read_undo retry) g = undo_reader-Kept retry g
  atomic-Kept call read_wait g = read_wait-Kept g
  atomic-Kept call read_retry g = add_reader-Kept true g
  atomic-Kept call write_wait g = write_wait-Kept g
  atomic-Kept call write_retry g = set_flag-Kept true g
  atomic-Kept call (drain result) g = wait_for_readers-Kept result g
  atomic-Kept call upgrade_wait g = upgrade_wait-Kept g
  atomic-Kept call upgrade_retry g = absurd (omega arith)
  atomic-Kept call (upgrade_release result) g = release_upgrade-Kept result g
