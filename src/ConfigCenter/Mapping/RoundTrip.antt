-- ===== src/ConfigCenter/Mapping/RoundTrip.antt =====
-- mapping.go: from keys to file names and back.
use ne_kiro.Prelude.{
  ℕ, ◌≤◌, ◌≡◌, ◌∙◌, refl, ap, subst, inl, inr, Bool, true, false, ◌&&◌, List, [], ◌∷◌, ◌++◌, ok,
  is_empty, length, Bool-cases, Option-cases,
}
use ne_kiro.Prelude.Text.{codes, text_eq, text_beq, text_beq_iff, text_beq_self}
use ne_kiro.ConfigCenter.Key.{valid_key, parse_key}
use ne_kiro.ConfigCenter.Base64.{encode_to_string, sextets, decode_string}
use ne_kiro.ConfigCenter.Base64.RoundTrip.{decode_string-encode_to_string}
use ne_kiro.ConfigCenter.Mapping.{
  unmap_when, map_key, mapping_prefix, mapping_suffix, unmap_encoded, unmap_leaf, has_prefix,
  has_suffix, trim_prefix, trim_suffix,
}
use ne_kiro.ConfigCenter.Mapping.Affixes.{both_affixes, between_affixes}
use ne_kiro.ConfigCenter.Mapping.Canonical.{
  valid_key-bytes, leaf_of, leaf_of-bounded, map_key-leaf_of,
}

unmap_encoded-valid :
    (key : List ℕ) → valid_key key ≡ true → unmap_encoded (encode_to_string key) ≡ ok key
unfolding unmap_encoded parse_key
unmap_encoded-valid key h =
    rw
      (
        not_empty key h,
        decode_string-encode_to_string key (valid_key-bytes key h),
        text_beq_self (encode_to_string key),
        h,
        unmap_encoded,
      )
      refl
  where
    empty_key : valid_key [] ≡ true → is_empty (encode_to_string []) ≡ false
    empty_key v = unfold valid_key in absurd (cc v)

    not_empty : (k : List ℕ) → valid_key k ≡ true → is_empty (encode_to_string k) ≡ false
    not_empty [] v = empty_key v
    not_empty (a ∷ []) v = unfold encode_to_string sextets in refl
    not_empty (a ∷ (b ∷ [])) v = unfold encode_to_string sextets in refl
    not_empty (a ∷ (b ∷ (c ∷ k))) v = unfold encode_to_string sextets in refl

and-true : (a b : Bool) → (a && b) ≡ true → (a ≡ true) × (b ≡ true)
and-true true b h = (refl, h)
and-true false b h = absurd (cc h)

both_true : (a b : Bool) → a ≡ true → b ≡ true → (a && b) ≡ true
both_true a b h k = rw (h, k) refl

unmap_leaf-leaf_of : (key : List ℕ) → valid_key key ≡ true → unmap_leaf (leaf_of key) ≡ ok key
unfolding unmap_leaf
unmap_leaf-leaf_of key h =
    let leaf = leaf_of key in
    let parts = both_affixes mapping_prefix (encode_to_string key) mapping_suffix in
    let guard =
      both_true (has_prefix mapping_prefix leaf) (has_suffix mapping_suffix leaf) parts.0 parts.1 in
    ap (λ b. unmap_when b (trim_suffix mapping_suffix (trim_prefix mapping_prefix leaf))) guard
    ∙ ap (unmap_when true) parts.2
    ∙ unfold unmap_when in unmap_encoded-valid key h

unmap_when-ok :
    (b : Bool) (encoded key : List ℕ)
    → unmap_when b encoded ≡ ok key
    → (b ≡ true) × (unmap_encoded encoded ≡ ok key)
unfolding unmap_when
unmap_when-ok false encoded key h = absurd (cc h)
unmap_when-ok true encoded key h = (refl, h)

-- `MapKey` gives every valid key a file name of at most 227 bytes, and `UnmapLeaf` gives the key
-- back from that name.
pub map_key-unmap_leaf :
    (key : List ℕ)
    → valid_key key ≡ true
    → (leaf : List ℕ) × (map_key key ≡ ok leaf) × (length leaf ≤ 227) × (unmap_leaf leaf ≡ ok key)
map_key-unmap_leaf key h =
    (leaf_of key, map_key-leaf_of key h, leaf_of-bounded key h, unmap_leaf-leaf_of key h)

unmap_encoded-ok :
    (encoded key : List ℕ)
    → unmap_encoded encoded ≡ ok key
    → (valid_key key ≡ true) × (encode_to_string key ≡ encoded)
unfolding unmap_encoded parse_key
unmap_encoded-ok encoded key h = elim (Bool-cases (is_empty encoded)) [
  | inl e ↦ absurd (cc (e, rw (e, unmap_encoded) at h))
  | inr e ↦ elim (Option-cases (decode_string encoded)) [
    | inl d ↦ absurd (cc (e, rw (e, d, unmap_encoded) at h))
    | inr (decoded, d) ↦ elim (Bool-cases (text_beq (encode_to_string decoded) encoded)) [
      | inr t ↦ absurd (cc (e, rw (e, d, t, unmap_encoded) at h))
      | inl t ↦ elim (Bool-cases (valid_key decoded)) [
        | inr v ↦ absurd (cc (e, rw (e, d, t, v, unmap_encoded) at h))
        | inl v ↦
            let same : decoded ≡ key = cc (rw (e, d, t, v, unmap_encoded) at h) in
            subst (λ k. (valid_key k ≡ true) × (encode_to_string k ≡ encoded)) same
              (v, (text_beq_iff (encode_to_string decoded) encoded).0 t)
      ]
    ]
  ]
]

-- If `UnmapLeaf` returns a key for a file name, then the key is valid and that name is the one
-- that `MapKey` gives it.
pub unmap_leaf-map_key :
    (leaf key : List ℕ)
    → unmap_leaf leaf ≡ ok key
    → (valid_key key ≡ true) × (map_key key ≡ ok leaf)
unfolding unmap_leaf
unmap_leaf-map_key leaf key h =
    let p = has_prefix mapping_prefix leaf in
    let s = has_suffix mapping_suffix leaf in
    let encoded = trim_suffix mapping_suffix (trim_prefix mapping_prefix leaf) in
    let passed = unmap_when-ok (p && s) encoded key h in
    let found = unmap_encoded-ok encoded key passed.1 in
    let affixes = and-true p s passed.0 in
    let whole =
      between_affixes mapping_prefix (codes "1v-gfc") b'-' mapping_suffix leaf refl refl affixes.0
        affixes.1 in
    (
      found.0,
      map_key-leaf_of key found.0
          ∙ ap ok (ap (λ t. mapping_prefix ++ (t ++ mapping_suffix)) found.1 ∙ whole),
    )
