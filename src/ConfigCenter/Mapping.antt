-- ===== src/ConfigCenter/Mapping.antt =====
-- config_center/file/mapping.go: the file names of keys.
pub mod Affixes
pub mod Canonical
pub mod RoundTrip
use ne_kiro.Prelude.{
  ℕ, zero, suc, ◌+◌, ◌-◌, ◌*◌, ◌/◌, ◌%◌, ◌^◌, ◌≤◌, ◌<◌, ◌≡◌, ◌≢◌, ◌↔◌, ◌⊎◌, ◌∙◌, refl, sym, ap,
  subst, inl, inr, Bool, true, false, not, ◌&&◌, ◌||◌, Option, none, some, List, [], ◌∷◌, ◌++◌, map,
  arith, Eq, ◌==◌, ==_refl, ==_false-ne, if◌then◌else◌, ◌or_else◌, reject_if, or_else-none,
  reject_if-none, Result, ok, err, ◌>>=◌, >>=-eq-ok, Result-cases, is_empty, nat_eq, leb, ltb,
  length, length-append, keep, All, all_of, any_of, first_error, Bool-cases, Option-cases, test,
  test_iff, same_elements,
}
use ne_kiro.Prelude.Text.{Text, codes, text_eq, text_beq, text_beq_iff, text_beq_self}
use mathlib.Core.List.{reverse}
use ne_kiro.ConfigCenter.Key.{Code, invalid, valid_key, parse_key}
use ne_kiro.ConfigCenter.Base64.{encode_to_string, decode_string}

abbrev pub mapping_prefix : List ℕ
mapping_prefix = codes "cfg-v1-"

abbrev pub mapping_suffix : List ℕ
mapping_suffix = codes ".value"

abbrev pub max_mapped_leaf_length : ℕ
max_mapped_leaf_length = 7 + 214 + 6

-- `MapKey`.
unfoldable pub map_key : List ℕ → Result Code (List ℕ)
map_key key =
    let leaf = mapping_prefix ++ (encode_to_string key ++ mapping_suffix) in
    if not (valid_key key)
    then err invalid
    else if ltb max_mapped_leaf_length (length leaf)
    then err invalid
    else ok leaf

-- `strings.HasPrefix` and `strings.HasSuffix`, with the affix first.
unfoldable pub has_prefix : List ℕ → List ℕ → Bool
has_prefix [] s = true
has_prefix (p ∷ ps) [] = false
has_prefix (p ∷ ps) (c ∷ cs) = nat_eq p c && has_prefix ps cs

unfoldable pub has_suffix : List ℕ → List ℕ → Bool
unfolding has_prefix
has_suffix suffix s = has_prefix (reverse suffix) (reverse s)

unfoldable pub drop_prefix : List ℕ → List ℕ → List ℕ
drop_prefix [] s = s
drop_prefix (p ∷ ps) [] = []
drop_prefix (p ∷ ps) (c ∷ cs) = drop_prefix ps cs

-- `strings.TrimPrefix` and `strings.TrimSuffix`.
unfoldable pub trim_prefix : List ℕ → List ℕ → List ℕ
unfolding has_prefix drop_prefix
trim_prefix prefix s = if has_prefix prefix s then drop_prefix prefix s else s

unfoldable pub trim_suffix : List ℕ → List ℕ → List ℕ
unfolding has_suffix drop_prefix
trim_suffix suffix s =
    if has_suffix suffix s then reverse (drop_prefix (reverse suffix) (reverse s)) else s

-- The tests of `UnmapLeaf` on the part between the prefix and the suffix.
unfoldable pub unmap_encoded : List ℕ → Result Code (List ℕ)
unmap_encoded encoded = if is_empty encoded then err invalid else elim (decode_string encoded) [
  | none ↦ err invalid
  | some decoded ↦
      if not (text_beq (encode_to_string decoded) encoded) then err invalid else parse_key decoded
]

unfoldable pub unmap_when : Bool → List ℕ → Result Code (List ℕ)
unmap_when false encoded = err invalid
unmap_when true encoded = unmap_encoded encoded

-- `UnmapLeaf`.
unfoldable pub unmap_leaf : List ℕ → Result Code (List ℕ)
unfolding has_prefix has_suffix trim_prefix trim_suffix unmap_when
unmap_leaf leaf =
    unmap_when (has_prefix mapping_prefix leaf && has_suffix mapping_suffix leaf)
      (trim_suffix mapping_suffix (trim_prefix mapping_prefix leaf))

-- `mappedKeyFromEventName`.
unfoldable pub mapped_key_from_event_name : List ℕ → Option (List ℕ)
unfolding has_prefix has_suffix unmap_leaf
mapped_key_from_event_name name =
    if any_of (λ c. nat_eq c b'/' || nat_eq c 92) name
    then none
    else if not (has_prefix mapping_prefix name) || not (has_suffix mapping_suffix name)
    then none
    else elim (unmap_leaf name) [ err e ↦ none | ok key ↦ some key ]
