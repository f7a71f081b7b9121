-- ===== src/Strings/Tokens.antt =====
-- tf/stringUtils.cpp: `_TokenizeToSegments` and TfStringTokenize. A segment has the positions of its
-- first byte and of the byte after its last.
use pxr_tf.Base.{
  ℕ, suc, ◌+◌, ◌-◌, ◌≡◌, refl, ap, ap₂, ◌∙◌, sym, Bool, false, ◌||◌, List, [], ◌∷◌, ◌++◌,
  append_assoc, append-nil, map, Option, none, some, ◌==◌, if◌then◌else◌, length, length-append,
  take, drop, arith, Bool-cases, inl, inr,
}
use pxr_tf.Strings.Pieces.Walk.{drop-length, take-prefix}

-- `_isDelim`
unfoldable pub is_delimiter : List ℕ → ℕ → Bool
is_delimiter [] c = false
is_delimiter (d ∷ ds) c = d == c || is_delimiter ds c

-- The loops of `_TokenizeToSegments` at position `i`: the inner loop has the start of its segment.
pub segments : List ℕ → Option ℕ → ℕ → List ℕ → List (ℕ × ℕ)
unfolding is_delimiter
segments delimiters none i [] = []
segments delimiters (some start) i [] = (start, i) ∷ []
segments delimiters none i (c ∷ s) =
    let skipped = segments delimiters none (suc i) s in
    let started = segments delimiters (some i) (suc i) s in
    if is_delimiter delimiters c then skipped else started
segments delimiters (some start) i (c ∷ s) =
    let ended = segments delimiters none (suc i) s in
    let more = segments delimiters (some start) (suc i) s in
    if is_delimiter delimiters c then (start, i) ∷ ended else more

-- TfStringTokenize
pub segment : List ℕ → ℕ × ℕ → List ℕ
segment src (first, second) = take (second - first) (drop first src)

pub tokenize : List ℕ → List ℕ → List (List ℕ)
unfolding segments segment
tokenize src delimiters = map (segment src) (segments delimiters none 0 src)

-- The pieces of a string between single delimiters.
unfoldable pub extend : List ℕ → List (List ℕ) → List (List ℕ)
extend w [] = w ∷ []
extend w (f ∷ fs) = (w ++ f) ∷ fs

unfoldable pub fields : List ℕ → List ℕ → List (List ℕ)
unfolding extend
fields delimiters [] = [] ∷ []
fields delimiters (c ∷ s) =
    let rest = fields delimiters s in
    if is_delimiter delimiters c then [] ∷ rest else extend (c ∷ []) rest

unfoldable pub not_empty : List (List ℕ) → List (List ℕ)
not_empty [] = []
not_empty ([] ∷ fs) = not_empty fs
not_empty ((c ∷ f) ∷ fs) = (c ∷ f) ∷ not_empty fs

extend-extend : (v w : List ℕ) (fs : List (List ℕ)) → extend v (extend w fs) ≡ extend (v ++ w) fs
unfolding extend
extend-extend v w [] = refl
extend-extend v w (f ∷ fs) = ap (λ x. x ∷ fs) (sym (append_assoc v w f))

segment-at : (a w s : List ℕ) → segment ((a ++ w) ++ s) (length a, length (a ++ w)) ≡ w
unfolding segment
segment-at a w s =
    let n : length (a ++ w) - length a ≡ length w + 0 = omega (arith, length-append a w) in
    ap₂ (λ k t. take k (drop (length a) t)) n (append_assoc a w s)
    ∙ ap (take (length w + 0)) (drop-length a (w ++ s))
    ∙ take-prefix w s 0
    ∙ append-nil w

-- The loop outside a segment, and inside one that has begun with a byte `w`.
segments-fields :
    (delimiters s : List ℕ)
    → ((a : List ℕ)
        → map (segment (a ++ s)) (segments delimiters none (length a) s)
          ≡ not_empty (fields delimiters s))
      × ((a : List ℕ) (w : ℕ) (ws : List ℕ)
          → map
              (segment ((a ++ w ∷ ws) ++ s))
              (segments delimiters (some (length a)) (length (a ++ w ∷ ws)) s)
            ≡ not_empty (extend (w ∷ ws) (fields delimiters s)))
unfolding segments fields not_empty extend
segments-fields delimiters [] =
    (λ a. refl, λ a w ws. ap (λ f. f ∷ []) (segment-at a (w ∷ ws) [] ∙ sym (append-nil (w ∷ ws))))
segments-fields delimiters (c ∷ s) =
    let (outside, inside) = segments-fields delimiters s in
    let shift : (a : List ℕ)
        → (a ++ c ∷ s ≡ (a ++ c ∷ []) ++ s) × (suc (length a) ≡ length (a ++ c ∷ [])) =
      λ a. (sym (append_assoc a (c ∷ []) s), omega (arith, length-append a (c ∷ []))) in
    elim (Bool-cases (is_delimiter delimiters c)) [
      | inl end ↦ rw end (
        λ a.
            ap₂ (λ t i. map (segment t) (segments delimiters none i s)) (shift a).0 (shift a).1
            ∙ outside (a ++ c ∷ []),
        λ a w ws.
            let b = a ++ w ∷ ws in
            ap₂ (◌∷◌) (segment-at a (w ∷ ws) (c ∷ s) ∙ sym (append-nil (w ∷ ws))) (
              ap₂ (λ t i. map (segment t) (segments delimiters none i s)) (shift b).0 (shift b).1
              ∙ outside (b ++ c ∷ [])),
      )
      | inr more ↦ rw more (
        λ a.
            ap₂ (λ t i. map (segment t) (segments delimiters (some (length a)) i s)) (shift a).0
              (shift a).1
            ∙ inside a c [],
        λ a w ws.
            let b = a ++ w ∷ ws in
            ap₂ (λ t i. map (segment t) (segments delimiters (some (length a)) i s)) (shift b).0
              (shift b).1
            ∙ ap (λ t. map (segment (t ++ s)) (segments delimiters (some (length a)) (length t) s))
                (append_assoc a (w ∷ ws) (c ∷ []))
            ∙ inside a w (ws ++ c ∷ [])
            ∙ ap not_empty (sym (extend-extend (w ∷ ws) (c ∷ []) (fields delimiters s))),
      )
    ]

-- TfStringTokenize gives the pieces of the string between single delimiters, in order, without the
-- empty ones.
pub tokenize-fields :
    (src delimiters : List ℕ) → tokenize src delimiters ≡ not_empty (fields delimiters src)
unfolding tokenize
tokenize-fields src delimiters = (segments-fields delimiters src).0 []
