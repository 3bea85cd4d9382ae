-- ===== src/ConfigCenter/Base64.antt =====
-- base64.RawURLEncoding of Go's encoding/base64, which config_center/file/mapping.go uses.
pub mod RoundTrip
use ne_kiro.Prelude.{
  map, ℕ, zero, suc, ◌+◌, ◌-◌, ◌*◌, ◌/◌, ◌%◌, ◌^◌, ◌≤◌, ◌<◌, ◌≡◌, ◌≢◌, ◌↔◌, ◌⊎◌, ◌∙◌, refl, sym, ap,
  subst, inl, inr, Bool, true, false, not, ◌&&◌, ◌||◌, Option, none, some, List, [], ◌∷◌, ◌++◌, map,
  arith, Eq, ◌==◌, ==_refl, ==_false-ne, if◌then◌else◌, ◌or_else◌, reject_if, or_else-none,
  reject_if-none, Result, ok, err, ◌>>=◌, >>=-eq-ok, Result-cases, is_empty, nat_eq, leb, ltb,
  length, length-append, keep, All, all_of, any_of, first_error, Bool-cases, Option-cases, test,
  test_iff, same_elements,
}
use ne_kiro.Prelude.Text.{Text, codes, text_eq, text_beq, text_beq_iff, text_beq_self}
use mathlib.Core.Option

-- The URL alphabet.
unfoldable pub digit : ℕ → ℕ
digit n =
    if ltb n 26
    then b'A' + n
    else if ltb n 52
    then b'a' + (n - 26)
    else if ltb n 62
    then b'0' + (n - 52)
    else if nat_eq n 62
    then b'-'
    else b'_'

unfoldable pub value_of : ℕ → Option ℕ
value_of c =
    if leb b'A' c && leb c b'Z'
    then some (c - b'A')
    else if leb b'a' c && leb c b'z'
    then some (c - b'a' + 26)
    else if leb b'0' c && leb c b'9'
    then some (c - b'0' + 52)
    else if nat_eq c b'-'
    then some 62
    else if nat_eq c b'_'
    then some 63
    else none

-- Three bytes are four values of six bits.
unfoldable pub sextets : List ℕ → List ℕ
sextets [] = []
sextets (a ∷ []) = (a / 4) ∷ ((a % 4 * 16) ∷ [])
sextets (a ∷ (b ∷ [])) = (a / 4) ∷ ((a % 4 * 16 + b / 16) ∷ ((b % 16 * 4) ∷ []))
sextets (a ∷ (b ∷ (c ∷ rest))) =
    (a / 4) ∷ ((a % 4 * 16 + b / 16) ∷ ((b % 16 * 4 + c / 64) ∷ ((c % 64) ∷ sextets rest)))

-- `EncodeToString`.
unfoldable pub encode_to_string : List ℕ → List ℕ
unfolding digit sextets
encode_to_string s = map digit (sextets s)

unfoldable pub values_of : List ℕ → Option (List ℕ)
unfolding value_of
values_of [] = some []
values_of (c ∷ cs) = Option.bind (value_of c) λ v. Option.map (λ vs. v ∷ vs) (values_of cs)

-- Four values are three bytes; bits that are left over are dropped.
unfoldable pub bytes_of : List ℕ → Option (List ℕ)
bytes_of [] = some []
bytes_of (p ∷ []) = none
bytes_of (p ∷ (q ∷ [])) = some ((p * 4 + q / 16) ∷ [])
bytes_of (p ∷ (q ∷ (r ∷ []))) = some ((p * 4 + q / 16) ∷ ((q % 16 * 16 + r / 4) ∷ []))
bytes_of (p ∷ (q ∷ (r ∷ (s ∷ rest)))) =
    Option.map (λ bytes. (p * 4 + q / 16) ∷ ((q % 16 * 16 + r / 4) ∷ ((r % 4 * 64 + s) ∷ bytes)))
      (bytes_of rest)

unfoldable pub not_newline : ℕ → Bool
not_newline c = not (nat_eq c 10) && not (nat_eq c 13)

-- `DecodeString`, which passes over `\r` and `\n`; an error is none.
unfoldable pub decode_string : List ℕ → Option (List ℕ)
unfolding values_of bytes_of not_newline
decode_string s = Option.bind (values_of (keep not_newline s)) bytes_of
