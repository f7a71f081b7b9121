-- ===== src/Unicode/Tests.antt =====
-- tf/unicodeUtils.h: runs of the model on concrete bytes, and the theorems at concrete inputs.
use pxr_tf.Base.{ℕ, ◌≡◌, refl, List, [], ◌∷◌, ◌++◌, or_bits}
use pxr_tf.Unicode.{
  encode, code_points, code_point, dereference, get_code_point, advance, encoding_length,
  decode_two, skip, is_continuation, code_points_in,
}
use pxr_tf.Unicode.RoundTrip.{encode_all, code_points-encode}
use pxr_tf.Unicode.Strict.{Accepts, dereference-Accepts}
use pxr_tf.Unicode.Advance.{Passes, advance-Passes}
use pxr_tf.Unicode.Append.{code_points-append}

-- The integral sign of the source's own comment, and `d`.
abbrev integral_text : List ℕ
integral_text = 8747 ∷ 100 ∷ []

integral_bytes : encode 8747 ≡ 226 ∷ 136 ∷ 171 ∷ []
unfolding encode or_bits
integral_bytes = refl

-- An encoding of `/` that is too long is not accepted.
overlong : code_points (192 ∷ 175 ∷ []) ≡ 65533 ∷ []
unfolding code_points code_points_in dereference get_code_point encoding_length decode_two advance
    skip is_continuation code_point
overlong = refl

code_points-encode_example : code_points (encode_all integral_text) ≡ integral_text
code_points-encode_example = code_points-encode integral_text (refl, (refl, tt))

dereference-Accepts_example : Accepts (226 ∷ 136 ∷ 171 ∷ 100 ∷ [])
dereference-Accepts_example = dereference-Accepts (226 ∷ 136 ∷ 171 ∷ 100 ∷ [])

advance-Passes_example : Passes 3 (136 ∷ 171 ∷ 100 ∷ []) (advance (226 ∷ 136 ∷ 171 ∷ 100 ∷ []))
advance-Passes_example = advance-Passes 226 (136 ∷ 171 ∷ 100 ∷ [])

-- Two bytes of an encoding of three that is cut off, followed by a `d`.
code_points-append_example :
    code_points ((226 ∷ 136 ∷ []) ++ (100 ∷ []))
    ≡ code_points (226 ∷ 136 ∷ []) ++ code_points (100 ∷ [])
unfolding is_continuation
code_points-append_example = code_points-append (226 ∷ 136 ∷ []) (100 ∷ []) refl
