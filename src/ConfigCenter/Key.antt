-- ===== src/ConfigCenter/Key.antt =====
-- config_center/key.go and the codes of config_center/errors.go that it and revision.go return.
--
-- A Go string is the list of its bytes here.
use ne_kiro.Prelude.{
  ℕ, suc, Bool, false, not, ◌&&◌, List, [], ◌∷◌, if◌then◌else◌, Result, ok, err, nat_eq, ltb,
  length, all_of,
}
use ne_kiro.Prelude.Text.{text_eq}
use ne_kiro.Prelude.Text.{is_alphanumeric, is_identifier_tail}

pub data Code : Type 0 where
  invalid unavailable revision_duplicate revision_stale revision_gap revision_out_of_order : Code

-- `isASCIIAlphaNumeric` is the test of the shared helpers.
unfoldable pub key_character : ℕ → ℕ → Bool
key_character segment_length character =
    if nat_eq segment_length 0 then is_alphanumeric character else is_identifier_tail character

-- The loop of `validKey` on the rest of the value; its return after the loop is the first clause.
unfoldable pub valid_segments : ℕ → List ℕ → Bool
unfolding key_character
valid_segments segment_length [] = not (nat_eq segment_length 0)
valid_segments segment_length (character ∷ value) =
    let next = valid_segments 0 value in
    let more = valid_segments (suc segment_length) value in
    if nat_eq character b'/'
    then not (nat_eq segment_length 0) && next
    else key_character segment_length character && not (ltb 32 (suc segment_length)) && more

-- `validKey`.
unfoldable pub valid_key : List ℕ → Bool
unfolding valid_segments
valid_key value =
    not (nat_eq (length value) 0) && not (ltb 160 (length value)) && valid_segments 0 value

-- `ParseKey`; a key is its text.
unfoldable pub parse_key : List ℕ → Result Code (List ℕ)
unfolding valid_key
parse_key value = if valid_key value then ok value else err invalid

unfoldable pub valid_provider_characters : List ℕ → Bool
valid_provider_characters [] = false
valid_provider_characters (character ∷ value) =
    is_alphanumeric character && all_of is_identifier_tail value

-- `ProviderID.Valid`.
unfoldable pub valid_provider : List ℕ → Bool
unfolding valid_provider_characters
valid_provider value =
    not (nat_eq (length value) 0) && not (ltb 128 (length value)) && valid_provider_characters value
