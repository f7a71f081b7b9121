-- ===== src/SpinRwMutex/Safety.antt =====
-- tf/spinRWMutex.h: what the invariant means for the threads.
use pxr_tf.Base.{
  ℕ, ◌+◌, ◌*◌, ◌%◌, ◌≤◌, ◌<◌, ◌≡◌, refl, ap, subst, Bool, true, false, List, ◌∷◌, ◌++◌, length,
  arith,
}
use pxr_tf.SpinRwMutex.{
  Pc, upgrade_wait, drain, writer, Call, atomic, wait_for_writer, wait_for_readers, State, Step,
  move, Steps, here, more, Reachable,
}
use pxr_tf.SpinRwMutex.Counts.{
  reads, flags, writes, holds, waits, total, total-append, total-le, writes-le-flags,
  total-reads-le, waits-le-holds,
}
use pxr_tf.SpinRwMutex.Reach.{IsGood, Reachable-IsGood, Steps-IsGood, Apart, apart}

-- A reachable state, with one thread apart from the others.
Reachable-Apart :
    (s : State) (pre : List Pc) (pc : Pc) (post : List Pc)
    → Reachable s
    → s.threads ≡ pre ++ pc ∷ post
    → Apart pre post pc s.lock
Reachable-Apart s pre pc post r e =
    apart pre post pc s.lock
      (subst (λ ts. IsGood (record { lock = s.lock; threads = ts })) e (Reachable-IsGood s r))

-- In a reachable state in which one thread holds the write lock, no other thread holds the write
-- lock or a read lock.
pub mutual_exclusion :
    (s : State) (pre : List Pc) (result : Bool) (post : List Pc)
    → Reachable s
    → s.threads ≡ pre ++ writer result ∷ post
    → (total writes (pre ++ post) ≡ 0) × (total holds (pre ++ post) ≡ 0)
mutual_exclusion s pre result post r e = ground (
  arith,
  Reachable-Apart s pre (writer result) post r e,
  total-le writes flags (pre ++ post) writes-le-flags,
)

-- In a reachable state a thread holds the write lock by a call that returns true: UpgradeToWriter
-- never returns false.
pub writer_result :
    (s : State) (pre : List Pc) (result : Bool) (post : List Pc)
    → Reachable s
    → s.threads ≡ pre ++ writer result ∷ post
    → result ≡ true
writer_result s pre true post r e = refl
writer_result s pre false post r e =
    absurd (ground (arith, Reachable-Apart s pre (writer false) post r e))

-- In a reachable state a writer that waits for readers gets the write lock at its next load if no
-- thread has a reader count, and with the result of its call.
pub drained :
    (s : State) (pre : List Pc) (result : Bool) (post : List Pc) (call : Call)
    → Reachable s
    → s.threads ≡ pre ++ drain result ∷ post
    → total reads (pre ++ post) ≡ 0
    → atomic call (drain result) s.lock ≡ (s.lock, writer result)
unfolding atomic wait_for_readers
drained s pre result post call r e none_left =
    ground (arith, Reachable-Apart s pre (drain result) post r e)

-- In a reachable state the lock word is at most twice the number of threads plus one.
pub lock_bound : (s : State) → Reachable s → s.lock ≤ 2 * length s.threads + 1
lock_bound s r = omega (arith, Reachable-IsGood s r, total-reads-le s.threads)

-- A step keeps a thread that waits in UpgradeToWriter where it is.
atomic-waits :
    (call : Call) (pc : Pc) (lock : ℕ)
    → (pc ≡ upgrade_wait → lock % 2 ≡ 1)
    → waits pc ≤ waits (atomic call pc lock).1
unfolding atomic wait_for_writer
atomic-waits call upgrade_wait lock h = ground (arith, h refl)
atomic-waits call _ lock h = omega arith

Step-waits : (s t : State) → IsGood s → Step s t → total waits s.threads ≤ total waits t.threads
Step-waits s t g (move pre pc post call e) =
    let g' =
      apart pre post pc s.lock
        (subst (λ ts. IsGood (record { lock = s.lock; threads = ts })) e g) in
    omega (
      arith,
      ap (total waits) e,
      total-append waits pre post pc,
      total-append waits pre post (atomic call pc s.lock).1,
      atomic-waits call pc s.lock (λ w. ground (arith, w, g')),
    )

Steps-waits : (s t : State) → IsGood s → Steps s t → total waits s.threads ≤ total waits t.threads
Steps-waits s t g here = omega arith
Steps-waits s t g (more r t' before step) =
    omega (arith, Steps-waits s r g before, Step-waits r t (Steps-IsGood s r before g) step)

-- From a reachable state in which a thread waits in UpgradeToWriter, every run keeps at least as many
-- threads in that wait, and no thread ever holds the write lock again.
pub upgrade_starves :
    (s t : State)
    → Reachable s
    → 0 < total waits s.threads
    → Steps s t
    → (total waits s.threads ≤ total waits t.threads) × (total writes t.threads ≡ 0)
upgrade_starves s t r waiting steps =
    let g = Reachable-IsGood s r in
    let kept = Steps-waits s t g steps in
    (
      kept,
      ground (arith, kept, Steps-IsGood s t steps g, total-le waits holds t.threads waits-le-holds),
    )
