-- ===== src/Unicode/Append.antt =====
-- tf/unicodeUtils.h: the code points of two sequences of bytes, one behind the other.
use pxr_tf.Base.{
  ℕ, zero, suc, ◌-◌, ◌≤◌, ◌<◌, ◌≡◌, refl, ap, ap₂, ◌∙◌, sym, false, List, [], ◌∷◌, ◌++◌, arith,
  length, length-append, dec_lt,
}
use pxr_tf.Unicode.{
  encoding_length, get_code_point, dereference, advance, skip, is_continuation, code_point,
  code_points, code_points_in,
}
use pxr_tf.Unicode.Lengths.{
  get_code_point-one, get_code_point-two, get_code_point-three, get_code_point-four,
}
use pxr_tf.Unicode.Broken.{
  Fails-second, Fails-third, Fails-fourth, Fails-one_left, Fails-two_left, Fails-three_left,
  Fails-tail, Fails-high,
}
use pxr_tf.Unicode.Advance.{advance-Passes}

-- Bytes at which an encoding may start: they do not start with a continuation byte.
abbrev pub Boundary : List ℕ → Type 0
Boundary [] = Unit {0}
Boundary (c ∷ cs) = is_continuation c ≡ false

skip-append : (n : ℕ) (xs ys : List ℕ) → Boundary ys → skip n (xs ++ ys) ≡ skip n xs ++ ys
unfolding skip
skip-append n [] [] h = refl
skip-append n [] (y ∷ ys) h = ground arith
skip-append n (x ∷ xs) ys h = ground (arith, skip-append (n - 1) xs ys h)

encoding_length-append :
    (x : ℕ) (xs ys : List ℕ) → encoding_length (x ∷ xs ++ ys) ≡ encoding_length (x ∷ xs)
unfolding encoding_length
encoding_length-append x xs ys = refl

advance-append :
    (x : ℕ) (xs ys : List ℕ) → Boundary ys → advance (x ∷ xs ++ ys) ≡ advance (x ∷ xs) ++ ys
unfolding advance
advance-append x xs ys h =
    ap (λ n. skip n (xs ++ ys)) (encoding_length-append x xs ys)
    ∙ skip-append (encoding_length (x ∷ xs)) xs ys h

-- A first byte that announces two, three or four bytes: `_GetCodePoint` reads no further.
append-two :
    (x : ℕ) (xs ys : List ℕ)
    → 192 ≤ x
    → x < 224
    → Boundary ys
    → get_code_point (x ∷ xs ++ ys) ≡ get_code_point (x ∷ xs)
append-two x [] [] lo hi h = refl
append-two x [] (y ∷ ys) lo hi h =
    Fails-second x y ys lo h ∙ sym (Fails-one_left x lo (omega arith))
append-two x (b ∷ xs) ys lo hi h =
    get_code_point-two x b (xs ++ ys) lo hi ∙ sym (get_code_point-two x b xs lo hi)

append-three :
    (x : ℕ) (xs ys : List ℕ)
    → 224 ≤ x
    → x < 240
    → Boundary ys
    → get_code_point (x ∷ xs ++ ys) ≡ get_code_point (x ∷ xs)
append-three x [] [] lo hi h = refl
append-three x [] (y ∷ ys) lo hi h =
    Fails-second x y ys (omega arith) h ∙ sym (Fails-one_left x (omega arith) (omega arith))
append-three x (b ∷ []) [] lo hi h = refl
append-three x (b ∷ []) (y ∷ ys) lo hi h =
    Fails-third x b y ys lo h ∙ sym (Fails-two_left x b lo (omega arith))
append-three x (b ∷ c ∷ xs) ys lo hi h =
    get_code_point-three x b c (xs ++ ys) lo hi ∙ sym (get_code_point-three x b c xs lo hi)

append-four :
    (x : ℕ) (xs ys : List ℕ)
    → 240 ≤ x
    → x < 248
    → Boundary ys
    → get_code_point (x ∷ xs ++ ys) ≡ get_code_point (x ∷ xs)
append-four x [] [] lo hi h = refl
append-four x [] (y ∷ ys) lo hi h =
    Fails-second x y ys (omega arith) h ∙ sym (Fails-one_left x (omega arith) hi)
append-four x (b ∷ []) [] lo hi h = refl
append-four x (b ∷ []) (y ∷ ys) lo hi h =
    Fails-third x b y ys (omega arith) h ∙ sym (Fails-two_left x b (omega arith) hi)
append-four x (b ∷ c ∷ []) [] lo hi h = refl
append-four x (b ∷ c ∷ []) (y ∷ ys) lo hi h =
    Fails-fourth x b c y ys lo h ∙ sym (Fails-three_left x b c lo hi)
append-four x (b ∷ c ∷ d ∷ xs) ys lo hi h =
    get_code_point-four x b c d (xs ++ ys) lo hi ∙ sym (get_code_point-four x b c d xs lo hi)

get_code_point-append :
    (x : ℕ) (xs ys : List ℕ) → Boundary ys → get_code_point (x ∷ xs ++ ys) ≡ get_code_point (x ∷ xs)
get_code_point-append x xs ys h = elim (dec_lt x 128) [
  | yes one ↦ get_code_point-one x (xs ++ ys) one ∙ sym (get_code_point-one x xs one)
  | no more ↦ elim (dec_lt x 192) [
    | yes tail ↦
        Fails-tail x (xs ++ ys) (omega arith) tail ∙ sym (Fails-tail x xs (omega arith) tail)
    | no first ↦ elim (dec_lt x 224) [
      | yes two ↦ append-two x xs ys (omega arith) two h
      | no more' ↦ elim (dec_lt x 240) [
        | yes three ↦ append-three x xs ys (omega arith) three h
        | no four ↦ elim (dec_lt x 248) [
          | yes within ↦ append-four x xs ys (omega arith) within h
          | no high ↦ Fails-high x (xs ++ ys) (omega arith) ∙ sym (Fails-high x xs (omega arith))
        ]
      ]
    ]
  ]
]

dereference-append :
    (x : ℕ) (xs ys : List ℕ) → Boundary ys → dereference (x ∷ xs ++ ys) ≡ dereference (x ∷ xs)
unfolding dereference
dereference-append x xs ys h = ap code_point (get_code_point-append x xs ys h)

length-advance : (x : ℕ) (xs : List ℕ) → length (advance (x ∷ xs)) ≤ length xs
length-advance x xs =
    let r = advance-Passes x xs in
    omega (arith, ap length r.split, length-append r.passed (advance (x ∷ xs)))

-- More fuel than bytes changes nothing.
code_points_in-enough :
    (m n : ℕ) (bytes : List ℕ)
    → length bytes ≤ m
    → length bytes ≤ n
    → code_points_in m bytes ≡ code_points_in n bytes
unfolding code_points_in
code_points_in-enough zero zero bytes hm hn = refl
code_points_in-enough zero (suc n) [] hm hn = refl
code_points_in-enough zero (suc n) (x ∷ xs) hm hn = absurd (omega arith)
code_points_in-enough (suc m) zero [] hm hn = refl
code_points_in-enough (suc m) zero (x ∷ xs) hm hn = absurd (omega arith)
code_points_in-enough (suc m) (suc n) [] hm hn = refl
code_points_in-enough (suc m) (suc n) (x ∷ xs) hm hn =
    ap (λ vs. dereference (x ∷ xs) ∷ vs)
      (code_points_in-enough m n (advance (x ∷ xs)) (omega (arith, length-advance x xs))
        (omega (arith, length-advance x xs)))

code_points_in-append :
    (fuel : ℕ) (xs ys : List ℕ)
    → Boundary ys
    → length (xs ++ ys) ≤ fuel
    → code_points_in fuel (xs ++ ys) ≡ code_points_in fuel xs ++ code_points_in fuel ys
unfolding code_points_in
code_points_in-append zero xs ys h le = refl
code_points_in-append (suc fuel) [] ys h le = refl
code_points_in-append (suc fuel) (x ∷ xs) ys h le =
    let short : length (advance (x ∷ xs) ++ ys) ≤ fuel =
      omega
        (arith, length-advance x xs, length-append (advance (x ∷ xs)) ys, length-append xs ys) in
    ap₂ ◌∷◌ (dereference-append x xs ys h) (
      ap (code_points_in fuel) (advance-append x xs ys h)
      ∙ code_points_in-append fuel (advance (x ∷ xs)) ys h short
      ∙ ap (λ vs. code_points_in fuel (advance (x ∷ xs)) ++ vs)
          (code_points_in-enough fuel (suc fuel) ys (omega (arith, length-append xs ys))
            (omega (arith, length-append xs ys))))

-- The code points of bytes, valid or not, followed by bytes that do not start with a continuation
-- byte, are those of the one and then those of the other.
pub code_points-append :
    (xs ys : List ℕ) → Boundary ys → code_points (xs ++ ys) ≡ code_points xs ++ code_points ys
unfolding code_points
code_points-append xs ys h =
    code_points_in-append (length (xs ++ ys)) xs ys h (omega arith)
    ∙ ap₂ ◌++◌
        (code_points_in-enough (length (xs ++ ys)) (length xs) xs
          (omega (arith, length-append xs ys)) (omega arith))
        (code_points_in-enough (length (xs ++ ys)) (length ys) ys
          (omega (arith, length-append xs ys)) (omega arith))
