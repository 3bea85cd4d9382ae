-- ===== src/ConfigCenter/Base64/RoundTrip.antt =====
-- base64.RawURLEncoding: decoding what was encoded.
use ne_kiro.Prelude.{
  ap, map, All, keep, refl, ℕ, ◌+◌, ◌*◌, ◌/◌, ◌%◌, ◌<◌, ◌≡◌, refl, ap, true, some, List, [], ◌∷◌,
  map, arith, keep, All,
}
use ne_kiro.Prelude.Text.{text_eq}
use mathlib.Core.Option
use ne_kiro.ConfigCenter.Base64.{
  sextets, digit, value_of, encode_to_string, values_of, bytes_of, not_newline, decode_string,
}

value_of-digit : (n : ℕ) → n < 64 → value_of (digit n) ≡ some n
unfolding value_of digit
value_of-digit n h = ground (arith, h)

not_newline-digit : (n : ℕ) → not_newline (digit n) ≡ true
unfolding not_newline digit
not_newline-digit n = ground arith

values_of-digits :
    (vs : List ℕ) → All (λ v. v < 64) vs → values_of (keep not_newline (map digit vs)) ≡ some vs
unfolding values_of Option.bind
values_of-digits [] l = refl
values_of-digits (v ∷ vs) l =
    rw (not_newline-digit v, keep, value_of-digit v l.0, values_of-digits vs l.1, values_of) refl

sextets-bounded : (s : List ℕ) → All (λ b. b < 256) s → All (λ v. v < 64) (sextets s)
unfolding sextets
sextets-bounded [] l = tt
sextets-bounded (a ∷ []) l = (omega (arith, l.0), (omega arith, tt))
sextets-bounded (a ∷ (b ∷ [])) l = (omega (arith, l.0), (omega (arith, l.1.0), (omega arith, tt)))
sextets-bounded (a ∷ (b ∷ (c ∷ rest))) l = (
  omega (arith, l.0),
  (omega (arith, l.1.0), (omega (arith, l.1.1.0), (omega arith, sextets-bounded rest l.1.1.1))),
)

-- The first, second and third byte from the values; d is a value that follows, or 0.
first_byte : (a d : ℕ) → d < 16 → a / 4 * 4 + (a % 4 * 16 + d) / 16 ≡ a
first_byte a d h = omega arith

second_byte :
    (a b d : ℕ) → b < 256 → d < 4 → (a % 4 * 16 + b / 16) % 16 * 16 + (b % 16 * 4 + d) / 4 ≡ b
second_byte a b d h k = omega arith

third_byte : (b c : ℕ) → c < 256 → (b % 16 * 4 + c / 64) % 4 * 64 + c % 64 ≡ c
third_byte b c h = omega arith

bytes_of-sextets : (s : List ℕ) → All (λ b. b < 256) s → bytes_of (sextets s) ≡ some s
unfolding bytes_of sextets
bytes_of-sextets [] l = refl
bytes_of-sextets (a ∷ []) l = ap (λ x. some (x ∷ [])) (omega arith)
bytes_of-sextets (a ∷ (b ∷ [])) l =
    rw (first_byte a (b / 16) (omega (arith, l.1.0)))
      (ap (λ y. some (a ∷ (y ∷ []))) (omega (arith, l.1.0)))
bytes_of-sextets (a ∷ (b ∷ (c ∷ rest))) l =
    rw
      (
        first_byte a (b / 16) (omega (arith, l.1.0)),
        second_byte a b (c / 64) l.1.0 (omega (arith, l.1.1.0)),
        third_byte b c l.1.1.0,
        bytes_of-sextets rest l.1.1.1,
      )
      refl

-- For any bytes, decoding what was encoded gives them back.
pub decode_string-encode_to_string :
    (s : List ℕ) → All (λ b. b < 256) s → decode_string (encode_to_string s) ≡ some s
unfolding decode_string encode_to_string Option.bind
decode_string-encode_to_string s l =
    rw (values_of-digits (sextets s) (sextets-bounded s l)) (bytes_of-sextets s l)
