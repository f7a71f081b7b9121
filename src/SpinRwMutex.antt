-- ===== src/SpinRwMutex.antt =====
-- tf/spinRWMutex.h and tf/spinRWMutex.cpp: TfSpinRWMutex, used by any number of threads. Each step of
-- a thread is one atomic operation on `_lockState`, in some order: the memory orders, which allow
-- more than that, are not modelled. `_lockState` is twice the number of reader counts, plus one for
-- the flag of a writer; it is a natural number, so the wrap-around of `int` at 2 ^ 30 threads is left
-- out. A call that TfSpinRWMutex::ScopedLock does not make in the state of the thread changes nothing.
pub mod Counts
pub mod Invariant
pub mod Reach
pub mod Safety
mod Tests
use pxr_tf.Base.{
  ℕ, zero, suc, ◌+◌, ◌-◌, ◌%◌, Bool, true, false, List, [], ◌∷◌, ◌++◌, ◌==◌, if◌then◌else◌,
  replicate, ◌≡◌,
}

-- Where a thread is: at rest with no lock, in a call, or at rest as a reader or a writer. The Boolean
-- of `read_undo` says that the call is AcquireRead, which tries again; that of the last three is what
-- the call that ends in `writer` returns.
pub data Pc : Type 0 where
  idle read_wait read_retry reader write_wait write_retry upgrade_wait upgrade_retry : Pc
  read_undo upgrade_release drain writer : Bool → Pc

pub data Call : Type 0 where
  try_acquire_read acquire_read release_read : Call
  try_acquire_write try_acquire_write_if_released acquire_write release_write : Call
  upgrade_to_writer downgrade_to_reader : Call

-- `!(state & WriterFlag)`
abbrev pub no_writer : ℕ → Bool
no_writer lock = lock % 2 == 0

-- TryAcquireRead: `fetch_add(OneReader)`
pub add_reader : Bool → ℕ → ℕ × Pc
add_reader retry lock = (lock + 2, if no_writer lock then reader else read_undo retry)

-- TryAcquireRead: `fetch_sub(OneReader)`; then AcquireRead waits.
pub undo_reader : Bool → ℕ → ℕ × Pc
undo_reader retry lock = (lock - 2, if retry then read_wait else idle)

-- TryAcquireWrite: `fetch_or(WriterFlag)`; then AcquireWrite waits.
pub set_flag : Bool → ℕ → ℕ × Pc
set_flag retry lock =
    if no_writer lock
    then (lock + 1, if lock == 0 then writer true else drain true)
    else (lock, if retry then write_wait else idle)

-- TryAcquireWriteIfReleased
pub set_flag_if_released : ℕ → ℕ × Pc
set_flag_if_released lock = if lock == 0 then (1, writer true) else (lock, idle)

-- UpgradeToWriter: `fetch_or(WriterFlag)`, where `atomic` is its variable, and
-- `fetch_sub(OneReader)`
pub set_upgrade_flag : Bool → ℕ → ℕ × Pc
set_upgrade_flag atomic lock =
    if no_writer lock then (lock + 1, upgrade_release atomic) else (lock, upgrade_wait)

pub release_upgrade : Bool → ℕ → ℕ × Pc
release_upgrade atomic lock = (lock - 2, if lock == 3 then writer atomic else drain atomic)

-- `_WaitForWriter` and `_WaitForReaders`: one load of the loop.
pub wait_for_writer : Pc → Pc → ℕ → ℕ × Pc
wait_for_writer here after lock = (lock, if no_writer lock then after else here)

pub wait_for_readers : Bool → ℕ → ℕ × Pc
wait_for_readers result lock = (lock, if lock == 1 then writer result else drain result)

-- ReleaseRead, ReleaseWrite (`fetch_and(~WriterFlag)`), DowngradeToReader
pub drop_reader : ℕ → ℕ × Pc
drop_reader lock = (lock - 2, idle)

pub clear_flag : ℕ → ℕ × Pc
clear_flag lock = (lock - lock % 2, idle)

pub downgrade : ℕ → ℕ × Pc
downgrade lock = (lock + 1, reader)

pub call_idle : Call → ℕ → ℕ × Pc
unfolding add_reader set_flag set_flag_if_released
call_idle try_acquire_read lock = add_reader false lock
call_idle acquire_read lock = add_reader true lock
call_idle try_acquire_write lock = set_flag false lock
call_idle acquire_write lock = set_flag true lock
call_idle try_acquire_write_if_released lock = set_flag_if_released lock
call_idle release_read lock = (lock, idle)
call_idle release_write lock = (lock, idle)
call_idle upgrade_to_writer lock = (lock, idle)
call_idle downgrade_to_reader lock = (lock, idle)

pub call_reader : Call → ℕ → ℕ × Pc
unfolding drop_reader set_upgrade_flag
call_reader release_read lock = drop_reader lock
call_reader upgrade_to_writer lock = set_upgrade_flag true lock
call_reader try_acquire_read lock = (lock, reader)
call_reader acquire_read lock = (lock, reader)
call_reader try_acquire_write lock = (lock, reader)
call_reader acquire_write lock = (lock, reader)
call_reader try_acquire_write_if_released lock = (lock, reader)
call_reader release_write lock = (lock, reader)
call_reader downgrade_to_reader lock = (lock, reader)

pub call_writer : Bool → Call → ℕ → ℕ × Pc
unfolding clear_flag downgrade
call_writer result release_write lock = clear_flag lock
call_writer result downgrade_to_reader lock = downgrade lock
call_writer result release_read lock = (lock, writer result)
call_writer result upgrade_to_writer lock = (lock, writer result)
call_writer result try_acquire_read lock = (lock, writer result)
call_writer result acquire_read lock = (lock, writer result)
call_writer result try_acquire_write lock = (lock, writer result)
call_writer result acquire_write lock = (lock, writer result)
call_writer result try_acquire_write_if_released lock = (lock, writer result)

-- The next atomic operation of a thread; `call` is the one that it makes if it is at rest.
pub atomic : Call → Pc → ℕ → ℕ × Pc
unfolding call_idle call_reader call_writer add_reader undo_reader set_flag set_upgrade_flag
    release_upgrade wait_for_writer wait_for_readers
atomic call idle lock = call_idle call lock
atomic call reader lock = call_reader call lock
atomic call (writer result) lock = call_writer result call lock
atomic call (read_undo retry) lock = undo_reader retry lock
atomic call read_wait lock = wait_for_writer read_wait read_retry lock
atomic call read_retry lock = add_reader true lock
atomic call write_wait lock = wait_for_writer write_wait write_retry lock
atomic call write_retry lock = set_flag true lock
atomic call (drain result) lock = wait_for_readers result lock
atomic call upgrade_wait lock = wait_for_writer upgrade_wait upgrade_retry lock
atomic call upgrade_retry lock = set_upgrade_flag false lock
atomic call (upgrade_release result) lock = release_upgrade result lock

pub record State : Type 0 where
  pub lock : ℕ
  pub threads : List Pc

-- A step of any one thread.
pub data Step (s : State) : State → Type 0 where
  move :
      (pre : List Pc) (pc : Pc) (post : List Pc) (call : Call)
      → s.threads ≡ pre ++ pc ∷ post
      → Step s (record {
        lock = (atomic call pc s.lock).0;
        threads = pre ++ (atomic call pc s.lock).1 ∷ post;
      })

pub data Steps (s : State) : State → Type 0 where
  here : Steps s s
  more : (t u : State) → Steps s t → Step t u → Steps s u

-- TfSpinRWMutex(), with `n` threads
pub start : ℕ → State
start n = record { lock = 0; threads = replicate n idle }

abbrev pub Reachable : State → Type 0
Reachable s = (n : ℕ) × Steps (start n) s
