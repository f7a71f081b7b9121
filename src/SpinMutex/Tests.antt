-- ===== src/SpinMutex/Tests.antt =====
-- tf/spinMutex.h: two threads that both ask for the lock.
use pxr_tf.Base.{◌≡◌, refl, Bool, true, false, [], ◌∷◌}
use pxr_tf.SpinMutex.{
  Scoped, free, contended_load, acquired, acquire, exchange, serve, Spin, turn, Moves, still, next,
  unlocked,
}
use pxr_tf.SpinMutex.Safety.{before_load, Gets, holders, one_holder, waiter-Gets}

abbrev two : Bool → Scoped → Scoped → Spin
two locked a b = record { locked = locked; threads = a ∷ b ∷ [] }

contended : Moves (unlocked 2) (two true acquired contended_load)
unfolding unlocked serve exchange
contended =
    next (two true acquired free) _
      (next (two false free free) _ still (turn [] free (free ∷ []) acquire refl))
      (turn (acquired ∷ []) free [] acquire refl)

one_holder_example : holders (acquired ∷ contended_load ∷ []) ≡ 1
one_holder_example = one_holder (two true acquired contended_load) (2, contended)

waiter-Gets_example : Gets (two true acquired contended_load) 1
waiter-Gets_example =
    waiter-Gets (two true acquired contended_load) (acquired ∷ []) [] contended_load before_load
      (2, contended) refl
