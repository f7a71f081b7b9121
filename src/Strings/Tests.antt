-- ===== src/Strings/Tests.antt =====
-- tf/stringUtils.cpp: runs on concrete strings.
use pxr_tf.Base.{ℕ, ◌≡◌, ◌≢◌, refl, true, false, List, [], ◌∷◌, ◌++◌, none, some, arith}
use pxr_tf.CompressedBits.Text.{int_to_string}
use pxr_tf.Strings.{c_string}
use pxr_tf.Strings.Numbers.{
  neg, negsuc, is_digit, numeral, integer, string_to_long, string_to_ulong, string_to_integers,
}
use pxr_tf.Strings.Printed.{string_to_long-int_to_string}
use pxr_tf.Strings.Pieces.{same_string, split, join, replace}
use pxr_tf.Strings.Pieces.Walk.{Lack}
use pxr_tf.Strings.Pieces.Laws.{pieces_lem}
use pxr_tf.Strings.Tokens.{is_delimiter, extend, tokenize, fields, not_empty, tokenize-fields}
use pxr_tf.Strings.Escape.{escape_string}
use pxr_tf.Strings.Escape.Laws.{dangling, is_none, octal_text, doubled, escape_string_lem}
use pxr_tf.Strings.Names.{
  string_get_suffix, string_get_before_suffix, get_base_name, rfind, last_position, trim, trim_left,
  trim_right,
}
use pxr_tf.Strings.Names.Laws.{IsBase, name_parts}
use pxr_tf.Strings.Names.Trim.{LeftTrimmed, RightTrimmed, trim_lem}
use pxr_tf.Strings.Identifiers.{
  is_valid_identifier, make_valid_identifier, make_valid_identifier_lem,
}
use pxr_tf.Strings.Quoted.{tokens, quotes, has_one_of, quoted_string_tokenize}
use pxr_tf.Strings.Quoted.Total.{quoted_string_tokenize-ends}
use pxr_tf.Strings.Quoted.Plain.{Plain, quoted_string_tokenize-tokenize}

-- "-17,5"
abbrev digits : List ℕ
digits = b'-' ∷ b'1' ∷ b'7' ∷ b',' ∷ b'5' ∷ []

string_to_integers_example :
    (string_to_long digits ≡ (negsuc 16, false)) × (string_to_ulong digits ≡ (0, false))
unfolding integer numeral neg is_digit
string_to_integers_example = string_to_integers digits

string_to_long-int_to_string_example : string_to_long (int_to_string 4294967290) ≡ (negsuc 5, false)
unfolding neg
string_to_long-int_to_string_example = string_to_long-int_to_string 4294967290 (omega arith)

-- "a, b,c" and ", "
abbrev list : List ℕ
list = b'a' ∷ b',' ∷ b' ' ∷ b'b' ∷ b',' ∷ b'c' ∷ []

abbrev comma : List ℕ
comma = b',' ∷ b' ' ∷ []

tokenize-fields_example : tokenize list comma ≡ (b'a' ∷ []) ∷ (b'b' ∷ []) ∷ (b'c' ∷ []) ∷ []
unfolding fields not_empty is_delimiter extend
tokenize-fields_example = tokenize-fields list comma

quoted_string_tokenize-ends_example : quoted_string_tokenize (34 ∷ b'a' ∷ []) comma ≢ none
quoted_string_tokenize-ends_example = quoted_string_tokenize-ends (34 ∷ b'a' ∷ []) comma

list-Plain : Plain list
unfolding is_delimiter
list-Plain = (refl, (refl, (refl, (refl, (refl, (refl, tt))))))

commas_allowed : has_one_of comma quotes ≡ false
unfolding has_one_of is_delimiter
commas_allowed = refl

quoted_string_tokenize-tokenize_example :
    quoted_string_tokenize list comma ≡ some (tokens (tokenize list comma))
quoted_string_tokenize-tokenize_example =
    quoted_string_tokenize-tokenize list comma list-Plain commas_allowed

-- "/a/b.c/"
abbrev path : List ℕ
path = b'/' ∷ b'a' ∷ b'/' ∷ b'b' ∷ b'.' ∷ b'c' ∷ b'/' ∷ []

name_parts_example :
    IsBase path (get_base_name path)
    × (string_get_before_suffix path b'.' ++ b'.' ∷ string_get_suffix path b'.' ≡ path)
    × (rfind b'.' (string_get_suffix path b'.') ≡ none)
unfolding last_position
name_parts_example = name_parts path b'.'

-- " a,b "
abbrev padded : List ℕ
padded = b' ' ∷ b'a' ∷ b',' ∷ b'b' ∷ b' ' ∷ []

trim_lem_example :
    LeftTrimmed comma padded (trim_left padded comma)
    × RightTrimmed comma padded (trim_right padded comma)
    × (trim padded comma ≡ trim_right (trim_left padded comma) comma)
trim_lem_example = trim_lem padded comma

-- "a", a zero byte and a blank
abbrev zero_inside : List ℕ
zero_inside = b'a' ∷ 0 ∷ b' ' ∷ []

make_valid_identifier_lem_example :
    (is_valid_identifier (make_valid_identifier zero_inside) ≡ true)
    × (same_string (make_valid_identifier zero_inside) (b'a' ∷ [])
        ≡ is_valid_identifier zero_inside)
unfolding c_string
make_valid_identifier_lem_example = make_valid_identifier_lem zero_inside

pieces_lem_example :
    Lack comma (split list comma)
    × (join (split list comma) comma ≡ list)
    × (replace list comma (b';' ∷ []) ≡ join (split list comma) (b';' ∷ []))
pieces_lem_example = pieces_lem list comma (b';' ∷ []) (omega arith)

-- A backslash behind a zero byte.
abbrev behind_zero : List ℕ
behind_zero = 255 ∷ 0 ∷ 92 ∷ []

escape_string_lem_example :
    (is_none (escape_string behind_zero) ≡ false)
    × (escape_string (octal_text behind_zero) ≡ some behind_zero)
    × (escape_string (doubled behind_zero) ≡ some (255 ∷ []))
unfolding dangling c_string
escape_string_lem_example =
    escape_string_lem behind_zero (omega arith, (omega arith, (omega arith, tt)))
