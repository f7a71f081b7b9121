-- ===== src/SpinMutex.antt =====
-- tf/spinMutex.h and tf/spinMutex.cpp: TfSpinMutex, used by any number of threads through a ScopedLock
-- each. Each move of a thread is one atomic operation on `_lockState`; the memory orders, and the
-- pauses between the tests of WaitWithBackoff, are not modelled. A call that TF_DEV_AXIOM forbids in
-- the state of the scoped lock changes nothing.
pub mod Safety
mod Tests
use pxr_tf.Base.{
  ℕ, zero, suc, ◌+◌, Bool, true, false, List, [], ◌∷◌, ◌++◌, if◌then◌else◌, replicate, ◌≡◌,
}

-- A scoped lock that is not acquired, one in `_AcquireContended` before the load or the exchange, and
-- one that is acquired.
pub data Scoped : Type 0 where
  free contended_load contended_exchange acquired : Scoped

pub data Request : Type 0 where
  acquire try_acquire release : Request

-- TryAcquire: `exchange(true)`, and what the thread does where it fails.
pub exchange : Scoped → Bool → Bool × Scoped
exchange otherwise locked = (true, if locked then otherwise else acquired)

-- The load of `_AcquireContended`
pub load : Bool → Bool × Scoped
load locked = (locked, if locked then contended_load else contended_exchange)

-- Release: `store(false)`
pub unlock : Bool → Bool × Scoped
unlock locked = (false, free)

-- The next atomic operation of a thread; `request` is the one that it makes outside a call.
pub serve : Request → Scoped → Bool → Bool × Scoped
unfolding exchange load unlock
serve acquire free locked = exchange contended_load locked
serve try_acquire free locked = exchange free locked
serve release free locked = (locked, free)
serve request contended_load locked = load locked
serve request contended_exchange locked = exchange contended_load locked
serve release acquired locked = unlock locked
serve acquire acquired locked = (locked, acquired)
serve try_acquire acquired locked = (locked, acquired)

pub record Spin : Type 0 where
  pub locked : Bool
  pub threads : List Scoped

-- A move of any one thread.
pub data Move (s : Spin) : Spin → Type 0 where
  turn :
      (pre : List Scoped) (scoped : Scoped) (post : List Scoped) (request : Request)
      → s.threads ≡ pre ++ scoped ∷ post
      → Move s (record {
        locked = (serve request scoped s.locked).0;
        threads = pre ++ (serve request scoped s.locked).1 ∷ post;
      })

pub data Moves (s : Spin) : Spin → Type 0 where
  still : Moves s s
  next : (t u : Spin) → Moves s t → Move t u → Moves s u

-- TfSpinMutex(), with `n` threads
pub unlocked : ℕ → Spin
unlocked n = record { locked = false; threads = replicate n free }
