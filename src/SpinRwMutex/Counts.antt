-- ===== src/SpinRwMutex/Counts.antt =====
-- tf/spinRWMutex.h: numbers of threads by what they hold of the lock.
use pxr_tf.Base.{
  ℕ, zero, suc, ◌+◌, ◌≤◌, ◌≡◌, refl, false, List, [], ◌∷◌, ◌++◌, arith, replicate, length,
}
use pxr_tf.SpinRwMutex.{
  Pc, idle, reader, upgrade_wait, upgrade_retry, read_undo, upgrade_release, drain, writer,
}

-- The reader counts that a thread has in `_lockState`.
abbrev pub reads : Pc → ℕ
reads reader = 1
reads (read_undo retry) = 1
reads upgrade_wait = 1
reads upgrade_retry = 1
reads (upgrade_release result) = 1
reads _ = 0

-- Whether the flag is the thread's.
abbrev pub flags : Pc → ℕ
flags (writer result) = 1
flags (drain result) = 1
flags (upgrade_release result) = 1
flags _ = 0

-- Whether it holds a write lock, or a read lock.
abbrev pub writes : Pc → ℕ
writes (writer result) = 1
writes _ = 0

abbrev pub holds : Pc → ℕ
holds reader = 1
holds upgrade_wait = 1
holds upgrade_retry = 1
holds (upgrade_release result) = 1
holds _ = 0

-- Whether it waits for a writer in UpgradeToWriter, or has waited and goes on.
abbrev pub waits : Pc → ℕ
waits upgrade_wait = 1
waits _ = 0

abbrev pub resumes : Pc → ℕ
resumes upgrade_retry = 1
resumes (upgrade_release false) = 1
resumes (drain false) = 1
resumes (writer false) = 1
resumes _ = 0

unfoldable pub total : (Pc → ℕ) → List Pc → ℕ
total f [] = 0
total f (pc ∷ pcs) = f pc + total f pcs

-- A thread apart from the others.
pub total-append :
    (f : Pc → ℕ) (pre post : List Pc) (pc : Pc)
    → total f (pre ++ pc ∷ post) ≡ total f (pre ++ post) + f pc
unfolding total
total-append f [] post pc = omega arith
total-append f (x ∷ pre) post pc = omega (arith, total-append f pre post pc)

pub total-le :
    (f g : Pc → ℕ) (pcs : List Pc) → ((pc : Pc) → f pc ≤ g pc) → total f pcs ≤ total g pcs
unfolding total
total-le f g [] h = omega arith
total-le f g (pc ∷ pcs) h = omega (arith, h pc, total-le f g pcs h)

pub total-replicate : (f : Pc → ℕ) (n : ℕ) → f idle ≡ 0 → total f (replicate n idle) ≡ 0
unfolding total
total-replicate f zero h = refl
total-replicate f (suc n) h = omega (arith, h, total-replicate f n h)

pub writes-le-flags : (pc : Pc) → writes pc ≤ flags pc
writes-le-flags pc = ground arith

pub holds-le-reads : (pc : Pc) → holds pc ≤ reads pc
holds-le-reads pc = ground arith

pub waits-le-holds : (pc : Pc) → waits pc ≤ holds pc
waits-le-holds pc = ground arith

pub total-reads-le : (pcs : List Pc) → total reads pcs ≤ length pcs
unfolding total
total-reads-le [] = omega arith
total-reads-le (pc ∷ pcs) = ground (arith, total-reads-le pcs)
