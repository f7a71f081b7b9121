-- ===== src/SpinMutex/Safety.antt =====
-- tf/spinMutex.h: which threads hold the lock.
use pxr_tf.Base.{
  ℕ, zero, suc, ◌+◌, ◌<◌, ◌≡◌, inl, inr, refl, ap, ◌∙◌, sym, subst, Bool, true, false, List, [],
  ◌∷◌, ◌++◌, append_assoc, replicate, arith, ap₂, length, length-append, Bool-cases, dec_lt,
}
use pxr_tf.SpinMutex.{
  Scoped, free, contended_load, contended_exchange, acquired, Request, acquire, try_acquire,
  release, exchange, load, unlock, serve, Spin, Move, turn, Moves, still, next, unlocked,
}

abbrev pub bit : Bool → ℕ
bit true = 1
bit false = 0

abbrev pub holds : Scoped → ℕ
holds acquired = 1
holds _ = 0

pub holders : List Scoped → ℕ
holders [] = 0
holders (t ∷ ts) = holds t + holders ts

holders-append :
    (pre post : List Scoped) (t : Scoped)
    → holders (pre ++ t ∷ post) ≡ holds t + holders (pre ++ post)
unfolding holders
holders-append [] post t = refl
holders-append (x ∷ pre) post t = omega (arith, holders-append pre post t)

serve-holds :
    (request : Request) (t : Scoped) (locked : Bool) (others : ℕ)
    → holds t + others ≡ bit locked
    → holds (serve request t locked).1 + others ≡ bit (serve request t locked).0
unfolding serve exchange load unlock
serve-holds acquire free true others h = h
serve-holds acquire free false others h = omega (arith, h)
serve-holds try_acquire free true others h = h
serve-holds try_acquire free false others h = omega (arith, h)
serve-holds release free locked others h = h
serve-holds request contended_load true others h = h
serve-holds request contended_load false others h = h
serve-holds request contended_exchange true others h = h
serve-holds request contended_exchange false others h = omega (arith, h)
serve-holds release acquired true others h = omega (arith, h)
serve-holds release acquired false others h = omega (arith, h)
serve-holds acquire acquired locked others h = h
serve-holds try_acquire acquired locked others h = h

abbrev pub Reachable : Spin → Type 0
Reachable s = (n : ℕ) × Moves (unlocked n) s

holders-replicate : (n : ℕ) → holders (replicate n free) ≡ 0
unfolding holders
holders-replicate zero = refl
holders-replicate (suc n) = omega (arith, holders-replicate n)

Move-holders :
    (s t : Spin) → holders s.threads ≡ bit s.locked → Move s t → holders t.threads ≡ bit t.locked
Move-holders s t h (turn pre scoped post request e) =
    holders-append pre post (serve request scoped s.locked).1
    ∙ serve-holds request scoped s.locked (holders (pre ++ post))
        (sym (holders-append pre post scoped) ∙ ap holders (sym e) ∙ h)

Moves-holders : (n : ℕ) (s : Spin) → Moves (unlocked n) s → holders s.threads ≡ bit s.locked
unfolding unlocked
Moves-holders n s still = holders-replicate n
Moves-holders n s (next t _ moves move) = Move-holders t s (Moves-holders n t moves) move

-- In every reachable state one thread holds the lock if the flag is set, and none if it is not: two
-- threads never hold it at once, and the flag never stays set without a holder.
pub one_holder : (s : Spin) → Reachable s → holders s.threads ≡ bit s.locked
one_holder s (n, moves) = Moves-holders n s moves

-- A thread in `_AcquireContended`, before the load or before the exchange.
pub data Waits : Scoped → Type 0 where
  before_load : Waits contended_load
  before_exchange : Waits contended_exchange

-- The flag is not set, or a thread that holds the lock releases it.
pub data Frees (s : Spin) : Spin → Type 0 where
  not_locked : s.locked ≡ false → Frees s s
  releases :
      (pre post : List Scoped)
      → s.threads ≡ pre ++ acquired ∷ post
      → Frees s (record {
        locked = (serve release acquired s.locked).0;
        threads = pre ++ (serve release acquired s.locked).1 ∷ post;
      })

-- Moves of the thread behind `place` other threads only, inside its call of Acquire.
pub data Own (place : ℕ) (s : Spin) : Spin → Type 0 where
  rest : Own place s s
  more :
      (t : Spin) (pre post : List Scoped) (scoped : Scoped)
      → Own place s t
      → t.threads ≡ pre ++ scoped ∷ post
      → length pre ≡ place
      → Own place s (record {
        locked = (serve acquire scoped t.locked).0;
        threads = pre ++ (serve acquire scoped t.locked).1 ∷ post;
      })

-- The thread behind `place` other threads gets the lock by moves of its own, if need be after a
-- release.
abbrev pub Gets : Spin → ℕ → Type 0
Gets s place =
    (freed : Spin) × (t : Spin) × (pre : List Scoped) × (post : List Scoped) × Frees s freed
    × Own place freed t
    × (t.threads ≡ pre ++ acquired ∷ post)
    × (length pre ≡ place)

-- A state with the flag not set, and one thread apart.
abbrev available : List Scoped → Scoped → List Scoped → Spin
available pre scoped post = record { locked = false; threads = pre ++ scoped ∷ post }

-- A thread that waits gets the lock in one or two moves of its own if the flag is not set.
takes :
    (pre post : List Scoped) (place : ℕ) (scoped : Scoped)
    → Waits scoped
    → length pre ≡ place
    → Own place
        (available pre scoped post)
        (record { locked = true; threads = pre ++ acquired ∷ post })
unfolding serve load exchange
takes pre post place _ before_exchange e = more _ pre post contended_exchange rest refl e
takes pre post place _ before_load e =
    more _ pre post contended_exchange (more _ pre post contended_load rest refl e) refl e

Waits-holds : (scoped : Scoped) → Waits scoped → holds scoped ≡ 0
Waits-holds _ before_load = refl
Waits-holds _ before_exchange = refl

-- A holder apart from the others.
holder-apart :
    (ts : List Scoped)
    → 0 < holders ts
    → (pre : List Scoped) × (post : List Scoped) × (ts ≡ pre ++ acquired ∷ post)
unfolding holders
holder-apart [] h = absurd (omega arith)
holder-apart (acquired ∷ ts) h = ([], ts, refl)
holder-apart (t ∷ ts) h =
    let (pre, post, e) = holder-apart ts (omega (arith, h)) in (t ∷ pre, post, ap (◌∷◌ t) e)

holders-join : (xs ys : List Scoped) → holders (xs ++ ys) ≡ holders xs + holders ys
unfolding holders
holders-join [] ys = omega arith
holders-join (x ∷ xs) ys = omega (arith, holders-join xs ys)

free-Gets :
    (s : Spin) (pre post : List Scoped) (place : ℕ) (scoped : Scoped)
    → Waits scoped
    → Frees s (available pre scoped post)
    → length pre ≡ place
    → Gets s place
free-Gets s pre post place scoped w frees e = (
  available pre scoped post,
  record { locked = true; threads = pre ++ acquired ∷ post },
  pre,
  post,
  frees,
  takes pre post place scoped w e,
  refl,
  e,
)

spin_path :
    (s : Spin) (b : Bool) (ts : List Scoped)
    → s.locked ≡ b
    → s.threads ≡ ts
    → s ≡ record { locked = b; threads = ts }
spin_path s b ts p q =
    let make : Bool → List Scoped → Spin = λ b ts. record { locked = b; threads = ts } in
    ap₂ make p q

-- The release of the lock by the thread at one place.
released :
    (s : Spin) (pre post : List Scoped)
    → s.threads ≡ pre ++ acquired ∷ post
    → Frees s (record { locked = false; threads = pre ++ free ∷ post })
unfolding serve unlock
released s pre post e = releases pre post e

-- The thread that waits gets the lock after a release in front of it, and after one behind it.
front-Gets :
    (s : Spin) (pre post : List Scoped) (scoped : Scoped)
    → Waits scoped
    → s.threads ≡ pre ++ scoped ∷ post
    → 0 < holders pre
    → Gets s (length pre)
front-Gets s pre post scoped w e in_front =
    let (a, b, p) = holder-apart pre in_front in
    let here = e ∙ ap (λ x. x ++ scoped ∷ post) p ∙ append_assoc a (acquired ∷ b) (scoped ∷ post) in
    let back = sym (append_assoc a (free ∷ b) (scoped ∷ post)) in
    free-Gets s (a ++ free ∷ b) post (length pre) scoped w
      (subst (λ ts. Frees s (record { locked = false; threads = ts })) back
        (released s a (b ++ scoped ∷ post) here))
      (omega (arith, length-append a (free ∷ b), length-append a (acquired ∷ b), ap length p))

behind-Gets :
    (s : Spin) (pre post : List Scoped) (scoped : Scoped)
    → Waits scoped
    → s.threads ≡ pre ++ scoped ∷ post
    → 0 < holders post
    → Gets s (length pre)
behind-Gets s pre post scoped w e behind =
    let (a, b, p) = holder-apart post behind in
    let here =
      e ∙ ap (λ x. pre ++ scoped ∷ x) p ∙ sym (append_assoc pre (scoped ∷ a) (acquired ∷ b)) in
    let back = append_assoc pre (scoped ∷ a) (free ∷ b) in
    free-Gets s pre (a ++ free ∷ b) (length pre) scoped w
      (subst (λ ts. Frees s (record { locked = false; threads = ts })) back
        (released s (pre ++ scoped ∷ a) b here))
      refl

-- In every reachable state in which a thread waits for the lock, before the load or before the
-- exchange of `_AcquireContended`, the flag is not set or a thread holds the lock and can release it;
-- and then, or after that release, the waiting thread has the lock after moves of its own alone.
pub waiter-Gets :
    (s : Spin) (pre post : List Scoped) (scoped : Scoped)
    → Waits scoped
    → Reachable s
    → s.threads ≡ pre ++ scoped ∷ post
    → Gets s (length pre)
waiter-Gets s pre post scoped w r e = elim (Bool-cases s.locked) [
  | inr not_taken ↦
      free-Gets s pre post (length pre) scoped w
        (subst (Frees s) (spin_path s false (pre ++ scoped ∷ post) not_taken e)
          (not_locked not_taken))
        refl
  | inl taken ↦
      let total = ap holders (sym e) ∙ one_holder s r ∙ ap bit taken in
      let parts = holders-append pre post scoped in
      let sum = holders-join pre post in
      elim (dec_lt 0 (holders pre)) [
        | yes in_front ↦ front-Gets s pre post scoped w e in_front
        | no nobody ↦
            behind-Gets s pre post scoped w e
              (omega (arith, total, parts, sum, nobody, Waits-holds scoped w))
      ]
]
