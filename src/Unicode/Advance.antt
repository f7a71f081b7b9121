-- ===== src/Unicode/Advance.antt =====
-- tf/unicodeUtils.h: what `operator++` passes.
use pxr_tf.Base.{
  ℕ, zero, suc, ◌≤◌, ◌<◌, ◌≡◌, refl, ap, false, List, [], ◌∷◌, ◌++◌, arith, length, dec_lt,
}
use pxr_tf.Unicode.{encoding_length, advance, skip, is_continuation}
use pxr_tf.Unicode.Lengths.{IsTail}

abbrev pub AllTail : List ℕ → Type 0
AllTail [] = Unit {0}
AllTail (c ∷ cs) = IsTail c × AllTail cs

-- From `bytes` to `rest` the iterator passes at most `n` bytes, all of them continuations.
pub record Passes (n : ℕ) (bytes rest : List ℕ) : Type 0 where
  pub passed : List ℕ
  pub few : length passed ≤ n
  pub tails : AllTail passed
  pub split : bytes ≡ passed ++ rest

stays : (n c : ℕ) (cs : List ℕ) → Passes n (c ∷ cs) (c ∷ cs)
stays n c cs = record { passed = []; few = omega arith; tails = tt; split = refl }

skip-stops : (n c : ℕ) (cs : List ℕ) → is_continuation c ≡ false → skip (suc n) (c ∷ cs) ≡ c ∷ cs
unfolding skip
skip-stops n c cs h = ground arith

skip-goes :
    (n c : ℕ) (cs : List ℕ) → 128 ≤ c → c < 192 → skip (suc (suc n)) (c ∷ cs) ≡ skip (suc n) cs
unfolding skip is_continuation
skip-goes n c cs lo hi = ground arith

skip-Passes : (n : ℕ) (bytes : List ℕ) → Passes n bytes (skip (suc n) bytes)
unfolding skip is_continuation
skip-Passes n [] = record { passed = []; few = omega arith; tails = tt; split = refl }
skip-Passes zero (c ∷ cs) = record { passed = []; few = omega arith; tails = tt; split = refl }
skip-Passes (suc n) (c ∷ cs) =
    let r = skip-Passes n cs in
    elim (dec_lt c 128) [
      | yes low ↦ rw (skip-stops (suc n) c cs (ground arith)) (stays (suc n) c cs)
      | no ge ↦ elim (dec_lt c 192) [
        | yes lt ↦ rw (skip-goes n c cs (omega arith) lt) (record {
          passed = c ∷ r.passed;
          few = omega (arith, r.few);
          tails = ((omega arith, lt), r.tails);
          split = ap (λ xs. c ∷ xs) r.split;
        })
        | no high ↦ rw (skip-stops (suc n) c cs (ground arith)) (stays (suc n) c cs)
      ]
    ]

encoding_length-le : (bytes : List ℕ) → encoding_length bytes ≤ 4
unfolding encoding_length
encoding_length-le [] = omega arith
encoding_length-le (x ∷ xs) = ground arith

skip-zero : (bytes : List ℕ) → skip 0 bytes ≡ bytes
unfolding skip
skip-zero [] = refl
skip-zero (c ∷ cs) = refl

Passes-weaken : (m n : ℕ) (bytes rest : List ℕ) → m ≤ n → Passes m bytes rest → Passes n bytes rest
Passes-weaken m n bytes rest le r = record {
  passed = r.passed;
  few = omega (arith, r.few);
  tails = r.tails;
  split = r.split;
}

skip-Passes_within : (n : ℕ) (bytes : List ℕ) → n ≤ 4 → Passes 3 bytes (skip n bytes)
skip-Passes_within zero bytes h =
    rw (skip-zero bytes) (record { passed = []; few = omega arith; tails = tt; split = refl })
skip-Passes_within (suc n) bytes h = Passes-weaken n 3 bytes _ (omega arith) (skip-Passes n bytes)

-- `operator++` passes one byte and then at most three more, all of them continuation bytes.
pub advance-Passes : (x : ℕ) (xs : List ℕ) → Passes 3 xs (advance (x ∷ xs))
unfolding advance
advance-Passes x xs = skip-Passes_within (encoding_length (x ∷ xs)) xs (encoding_length-le (x ∷ xs))
