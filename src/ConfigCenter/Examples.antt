-- ===== src/ConfigCenter/Examples.antt =====
-- A configuration key, its file name, and a revision at the end of its range.
use ne_kiro.Prelude.{ℕ, ◌≤◌, ◌≡◌, ◌↔◌, refl, true, none, some, List, arith, ok, length}
use ne_kiro.Prelude.Text.{codes, text_eq, text_beq}
use mathlib.Core.Option
use ne_kiro.Prelude.Text.{is_alphanumeric, is_identifier_tail, text_beq}
use ne_kiro.ConfigCenter.Key.{valid_key, valid_segments, key_character, parse_key}
use ne_kiro.ConfigCenter.Base64.{
  decode_string, values_of, value_of, bytes_of, not_newline, encode_to_string, sextets, digit,
}
use ne_kiro.ConfigCenter.Mapping.{
  map_key, unmap_leaf, unmap_when, unmap_encoded, trim_suffix, trim_prefix, has_suffix, has_prefix,
  drop_prefix,
}
use ne_kiro.ConfigCenter.Mapping.RoundTrip.{map_key-unmap_leaf, unmap_leaf-map_key}
use ne_kiro.ConfigCenter.Revision.{Revision, advance_revision, validate_next_revision}
use ne_kiro.ConfigCenter.Revision.Successor.{advance_revision-validate_next_revision}

abbrev a_key : List ℕ
a_key = codes "router/timeout_ms"

abbrev a_leaf : List ℕ
a_leaf = codes "cfg-v1-cm91dGVyL3RpbWVvdXRfbXM.value"

a_key-valid : valid_key a_key ≡ true
unfolding valid_key valid_segments key_character is_alphanumeric is_identifier_tail
a_key-valid = refl

a_leaf-read : unmap_leaf a_leaf ≡ ok a_key
unfolding unmap_leaf unmap_when unmap_encoded trim_suffix trim_prefix has_suffix has_prefix
    drop_prefix decode_string values_of value_of bytes_of not_newline encode_to_string sextets digit
    parse_key valid_key valid_segments key_character is_alphanumeric is_identifier_tail text_beq
    Option.bind
a_leaf-read = refl

map_key-unmap_leaf_example :
    (leaf : List ℕ) × (map_key a_key ≡ ok leaf) × (length leaf ≤ 227) × (unmap_leaf leaf ≡ ok a_key)
map_key-unmap_leaf_example = map_key-unmap_leaf a_key a_key-valid

unmap_leaf-map_key_example : (valid_key a_key ≡ true) × (map_key a_key ≡ ok a_leaf)
unmap_leaf-map_key_example = unmap_leaf-map_key a_leaf a_key a_leaf-read

abbrev observed : Revision
observed = record { scope = some 7; order = 41 }

advance_revision-validate_next_revision_example :
    (validate_next_revision observed (record observed { order = 42 }) ≡ none)
    ↔ (advance_revision observed ≡ ok (record observed { order = 42 }))
advance_revision-validate_next_revision_example =
    advance_revision-validate_next_revision observed (record observed { order = 42 }) (omega arith)
