-- ===== src/ConfigCenter/Mapping/Canonical.antt =====
-- mapping.go: the file name of a valid key.
use ne_kiro.Prelude.{
  ℕ, suc, ◌+◌, ◌*◌, ◌≤◌, ◌<◌, ◌≡◌, refl, inl, inr, true, false, List, [], ◌∷◌, ◌++◌, map, arith, ok,
  nat_eq, ltb, length, length-append, All, Bool-cases,
}
use ne_kiro.Prelude.Text.{text_eq}
use ne_kiro.Prelude.Text.{is_alphanumeric, is_identifier_tail}
use ne_kiro.ConfigCenter.Key.{valid_key, valid_segments, key_character}
use ne_kiro.ConfigCenter.Base64.{encode_to_string, digit, sextets}
use ne_kiro.ConfigCenter.Mapping.{map_key, mapping_prefix, mapping_suffix, max_mapped_leaf_length}

is_alphanumeric-byte : (c : ℕ) → is_alphanumeric c ≡ true → c < 256
unfolding is_alphanumeric
is_alphanumeric-byte c h = ground (arith, h)

is_identifier_tail-byte : (c : ℕ) → is_identifier_tail c ≡ true → c < 256
unfolding is_identifier_tail is_alphanumeric
is_identifier_tail-byte c h = ground (arith, h)

valid_segments-bytes :
    (n : ℕ) (value : List ℕ) → valid_segments n value ≡ true → All (λ b. b < 256) value
unfolding valid_segments key_character
valid_segments-bytes n [] h = tt
valid_segments-bytes n (c ∷ value) h = elim (Bool-cases (nat_eq c b'/')) [
  | inl e ↦ (ground (arith, e), valid_segments-bytes 0 value (ground (arith, e, h)))
  | inr e ↦ elim (Bool-cases (nat_eq n 0)) [
    | inl z ↦ (
      is_alphanumeric-byte c (ground (arith, e, z, h)),
      valid_segments-bytes (suc n) value (ground (arith, e, z, h)),
    )
    | inr z ↦ (
      is_identifier_tail-byte c (ground (arith, e, z, h)),
      valid_segments-bytes (suc n) value (ground (arith, e, z, h)),
    )
  ]
]

pub valid_key-bytes : (key : List ℕ) → valid_key key ≡ true → All (λ b. b < 256) key
unfolding valid_key
valid_key-bytes key h = valid_segments-bytes 0 key (ground (arith, h))

length-map : (f : ℕ → ℕ) (xs : List ℕ) → length (map f xs) ≡ length xs
length-map f [] = refl
length-map f (x ∷ xs) = omega (arith, length-map f xs)

length-sextets : (s : List ℕ) → 3 * length (sextets s) ≤ 4 * length s + 2
unfolding sextets
length-sextets [] = omega arith
length-sextets (a ∷ []) = omega arith
length-sextets (a ∷ (b ∷ [])) = omega arith
length-sextets (a ∷ (b ∷ (c ∷ rest))) = omega (arith, length-sextets rest)

-- The name of a valid key is its encoding between the prefix and the suffix, and is short enough.
abbrev pub leaf_of : List ℕ → List ℕ
leaf_of key = mapping_prefix ++ (encode_to_string key ++ mapping_suffix)

pub leaf_of-bounded :
    (key : List ℕ) → valid_key key ≡ true → length (leaf_of key) ≤ max_mapped_leaf_length
unfolding valid_key encode_to_string
leaf_of-bounded key h =
    let short : length key ≤ 160 = ground (arith, h) in
    let measured = length-map digit (sextets key) in
    let joined = length-append (map digit (sextets key)) mapping_suffix in
    omega (arith, length-sextets key, short, measured, joined)

pub map_key-leaf_of : (key : List ℕ) → valid_key key ≡ true → map_key key ≡ ok (leaf_of key)
unfolding map_key
map_key-leaf_of key h =
    let fits : ltb max_mapped_leaf_length (length (leaf_of key)) ≡ false =
      ground (arith, leaf_of-bounded key h) in
    rw (h, fits) refl
