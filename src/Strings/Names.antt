-- ===== src/Strings/Names.antt =====
-- tf/stringUtils.cpp: TfGetBaseName and TfGetPathName where `/` separates paths, TfStringGetSuffix,
-- TfStringGetBeforeSuffix, and trimming. TfGetBaseName runs on fuel, one more than the length of the
-- name.
pub mod Laws
pub mod Trim
use pxr_tf.Base.{
  ℕ, zero, suc, ◌+◌, ◌-◌, Bool, true, false, not, List, [], ◌∷◌, ◌++◌, Option, none, some, ◌==◌,
  if◌then◌else◌, length, take, drop,
}
use pxr_tf.Strings.Tokens.{is_delimiter}

-- The last position whose byte passes a test: `rfind`, and `find_last_not_of`.
unfoldable pub last_position : (ℕ → Bool) → List ℕ → Option ℕ
last_position test [] = none
last_position test (c ∷ s) = elim (last_position test s) [
  | none ↦ if test c then some 0 else none
  | some i ↦ some (suc i)
]

abbrev pub rfind : ℕ → List ℕ → Option ℕ
rfind d s = last_position (λ c. c == d) s

-- TfStringGetSuffix and TfStringGetBeforeSuffix
pub string_get_suffix : List ℕ → ℕ → List ℕ
unfolding last_position
string_get_suffix name delimiter = elim (rfind delimiter name) [
  | none ↦ []
  | some i ↦ drop (i + 1) name
]

pub string_get_before_suffix : List ℕ → ℕ → List ℕ
unfolding last_position
string_get_before_suffix name delimiter = elim (rfind delimiter name) [
  | none ↦ name
  | some i ↦ take i name
]

-- TfGetBaseName; a name without bytes has no `/`.
pub base_name_loop : ℕ → List ℕ → List ℕ
unfolding last_position
base_name_loop zero name = name
base_name_loop (suc fuel) name = elim (rfind b'/' name) [
  | none ↦ name
  | some i ↦
      let shorter = base_name_loop fuel (take i name) in
      if i == length name - 1 then shorter else drop (i + 1) name
]

pub get_base_name : List ℕ → List ℕ
unfolding base_name_loop
get_base_name name = base_name_loop (suc (length name)) name

-- TfGetPathName
pub get_path_name : List ℕ → List ℕ
unfolding last_position
get_path_name name = elim (rfind b'/' name) [ none ↦ [] | some i ↦ take (i + 1) name ]

-- TfStringTrimRight, TfStringTrimLeft and TfStringTrim. `npos + 1` is 0.
pub first_position : (ℕ → Bool) → List ℕ → Option ℕ
first_position test [] = none
first_position test (c ∷ s) =
    let rest = first_position test s in
    if test c then some 0 else elim rest [ none ↦ none | some i ↦ some (suc i) ]

abbrev pub not_trimmed : List ℕ → ℕ → Bool
not_trimmed trim_chars c = not (is_delimiter trim_chars c)

pub trim_right : List ℕ → List ℕ → List ℕ
unfolding last_position
trim_right s trim_chars = elim (last_position (not_trimmed trim_chars) s) [
  | none ↦ take 0 s
  | some i ↦ take (i + 1) s
]

pub trim_left : List ℕ → List ℕ → List ℕ
unfolding first_position
trim_left s trim_chars = elim (first_position (not_trimmed trim_chars) s) [
  | none ↦ []
  | some i ↦ drop i s
]

pub trim : List ℕ → List ℕ → List ℕ
unfolding first_position last_position
trim s trim_chars = elim (first_position (not_trimmed trim_chars) s) [
  | none ↦ []
  | some b ↦ elim (last_position (not_trimmed trim_chars) s) [
    | none ↦ []
    | some l ↦ take (l - b + 1) (drop b s)
  ]
]
