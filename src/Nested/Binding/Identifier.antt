-- ===== src/Nested/Binding/Identifier.antt =====
-- binding.go: `validIdentifier` and the regular expression of the contracts.
use ne_kiro.Prelude.{
  ℕ, suc, ◌≡◌, refl, inl, inr, true, not, ◌&&◌, ◌||◌, [], ◌∷◌, arith, ltb, length, all_of,
  Bool-cases,
}
use ne_kiro.Prelude.Text.{Text, is_alphanumeric, is_identifier_tail}
use ne_kiro.Registry.Target.{byte_length, width}
use ne_kiro.Contracts.Event.{is_safe_identifier}
use ne_kiro.Nested.Binding.{is_mark, valid_characters, valid_identifier}

width-ascii : (c : ℕ) → is_identifier_tail c ≡ true → width c ≡ 1
unfolding width is_identifier_tail is_alphanumeric
width-ascii c h = ground (arith, h)

byte_length-length : (cs : Text) → all_of is_identifier_tail cs ≡ true → byte_length cs ≡ length cs
unfolding byte_length
byte_length-length [] h = refl
byte_length-length (c ∷ cs) h =
    let one = width-ascii c (ground (arith, h)) in
    let rest = byte_length-length cs (ground (arith, h)) in omega (arith, one, rest)

valid_characters-all_of :
    (n : ℕ) (cs : Text) → valid_characters (suc n) cs ≡ all_of is_identifier_tail cs
unfolding valid_characters
valid_characters-all_of n [] = refl
valid_characters-all_of n (c ∷ cs) = ground (arith, valid_characters-all_of (suc n) cs)

first_character :
    (c : ℕ) → (is_identifier_tail c && (ltb 0 0 || not (is_mark c))) ≡ is_alphanumeric c
unfolding is_identifier_tail is_alphanumeric is_mark
first_character c = ground arith

alphanumeric_tail : (c : ℕ) → is_alphanumeric c ≡ true → is_identifier_tail c ≡ true
unfolding is_identifier_tail
alphanumeric_tail c h = ground (arith, h)

-- For any text `validIdentifier` gives what `safeIdentifierPattern` gives.
pub valid_identifier-is_safe_identifier : (v : Text) → valid_identifier v ≡ is_safe_identifier v
unfolding valid_identifier is_safe_identifier byte_length valid_characters
valid_identifier-is_safe_identifier [] = refl
valid_identifier-is_safe_identifier (c ∷ cs) = elim (Bool-cases (is_alphanumeric c)) [
  | inr e ↦ ground (arith, e, first_character c)
  | inl e ↦ elim (Bool-cases (all_of is_identifier_tail cs)) [
    | inr k ↦ ground (arith, e, k, first_character c, valid_characters-all_of 0 cs)
    | inl k ↦ ground (
      arith,
      e,
      k,
      first_character c,
      valid_characters-all_of 0 cs,
      width-ascii c (alphanumeric_tail c e),
      byte_length-length cs k,
    )
  ]
]
