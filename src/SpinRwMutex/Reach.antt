-- ===== src/SpinRwMutex/Reach.antt =====
-- tf/spinRWMutex.h: the invariant along the runs of the lock.
use pxr_tf.Base.{ℕ, ◌+◌, refl, subst, List, ◌∷◌, ◌++◌, arith}
use pxr_tf.SpinRwMutex.{Pc, Call, atomic, State, Step, move, Steps, here, more, start, Reachable}
use pxr_tf.SpinRwMutex.Counts.{
  reads, flags, writes, holds, waits, resumes, total, total-append, total-le, total-replicate,
  writes-le-flags, holds-le-reads, waits-le-holds,
}
use pxr_tf.SpinRwMutex.Invariant.{Good, Kept, atomic-Kept}

-- The invariant of a state.
abbrev pub IsGood : State → Type 0
IsGood s =
    Good s.lock (total reads s.threads) (total flags s.threads) (total writes s.threads)
      (total holds s.threads) (total waits s.threads) (total resumes s.threads)

-- The invariant, with one thread apart from the others.
module _ (pre post : List Pc) where
  abbrev pub rest : (Pc → ℕ) → ℕ
  rest f = total f (pre ++ post)

  abbrev pub Apart : Pc → ℕ → Type 0
  Apart pc k =
      Good k (rest reads + reads pc) (rest flags + flags pc) (rest writes + writes pc)
        (rest holds + holds pc) (rest waits + waits pc) (rest resumes + resumes pc)

  pub apart :
      (pc : Pc) (k : ℕ) → IsGood (record { lock = k; threads = pre ++ pc ∷ post }) → Apart pc k
  apart pc k g =
      rw
        (
          ← total-append reads pre post pc,
          ← total-append flags pre post pc,
          ← total-append writes pre post pc,
          ← total-append holds pre post pc,
          ← total-append waits pre post pc,
          ← total-append resumes pre post pc,
        )
        g

  together :
      (pc : Pc) (k : ℕ) → Apart pc k → IsGood (record { lock = k; threads = pre ++ pc ∷ post })
  together pc k g =
      rw
        (
          total-append reads pre post pc,
          total-append flags pre post pc,
          total-append writes pre post pc,
          total-append holds pre post pc,
          total-append waits pre post pc,
          total-append resumes pre post pc,
        )
        g

  atomic-Apart :
      (call : Call) (pc : Pc) (k : ℕ) → Apart pc k → Apart (atomic call pc k).1 (atomic call pc k).0
  unfolding Kept
  atomic-Apart call pc k g =
      atomic-Kept (rest reads) (rest flags) (rest writes) (rest holds) (rest waits) (rest resumes) k
        (total-le writes flags (pre ++ post) writes-le-flags)
        (total-le holds reads (pre ++ post) holds-le-reads)
        (total-le waits holds (pre ++ post) waits-le-holds) call pc g

pub Step-IsGood : (s t : State) → Step s t → IsGood s → IsGood t
Step-IsGood s t (move pre pc post call e) g =
    together pre post (atomic call pc s.lock).1 (atomic call pc s.lock).0 (
      atomic-Apart pre post call pc s.lock (
        apart pre post pc s.lock
          (subst (λ ts. IsGood (record { lock = s.lock; threads = ts })) e g)))

pub Steps-IsGood : (s t : State) → Steps s t → IsGood s → IsGood t
Steps-IsGood s t here g = g
Steps-IsGood s t (more r t' before step) g = Step-IsGood r t step (Steps-IsGood s r before g)

start-IsGood : (n : ℕ) → IsGood (start n)
unfolding start
start-IsGood n = ground (
  arith,
  total-replicate reads n refl,
  total-replicate flags n refl,
  total-replicate writes n refl,
  total-replicate holds n refl,
  total-replicate waits n refl,
  total-replicate resumes n refl,
)

-- In every reachable state the lock word is twice the number of reader counts plus the flag, which
-- one thread has at most; no thread holds a read lock while another holds a write lock; the flag is
-- set while a thread waits in UpgradeToWriter; and no thread has got past that wait.
pub Reachable-IsGood : (s : State) → Reachable s → IsGood s
Reachable-IsGood s (n, steps) = Steps-IsGood (start n) s steps (start-IsGood n)
