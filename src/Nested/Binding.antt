-- ===== src/Nested/Binding.antt =====
-- apps/a2a-router/internal/nested/binding.go: which agent a bearer credential stands for.
--
-- The packages crypto/sha256, encoding/hex and strings.ToLower are parameters.
use ne_kiro.Prelude.{
  ℕ, suc, ◌≡◌, Bool, true, false, not, ◌&&◌, ◌||◌, Option, none, some, List, [], ◌∷◌, map, ◌==◌,
  if◌then◌else◌, ◌or_else◌, reject_if, unless_error, Result, ok, err, is_empty, nat_eq, leb, ltb,
  length, any_of,
}
use ne_kiro.Prelude.Text.{Text, codes, text_eq, text_beq, trim_space, is_identifier_tail}
use ne_kiro.Registry.Target.{byte_length}
pub mod Bearer
pub mod Bound
pub mod Identifier

-- What the code calls of the packages for hashes and for hexadecimal digits.
pub record Crypto : Type 0 where
  pub sum_sha256 : Text → List ℕ
  pub encode_to_string : List ℕ → Text
  pub decode_string : Text → Option (List ℕ)
  pub to_lower : Text → Text

pub record AgentPrincipal : Type 0 where
  pub workspace_id : Text
  pub agent_id : Text
  pub token_sha256 : Text

pub record AuthenticatedAgent : Type 0 where
  pub workspace_id : Text
  pub agent_id : Text

pub data BindingError : Type 0 where
  no_principals workspace_invalid agent_invalid token_invalid identity_duplicated token_duplicated :
      BindingError

-- ErrUnauthenticated.
pub data AuthenticationError : Type 0 where
  unauthenticated : AuthenticationError

-- A map of digests to agents, in the order in which a range over it yields them.
abbrev pub Digests : Type 0
Digests = List (Text × AuthenticatedAgent)

unfoldable pub is_mark : ℕ → Bool
is_mark c = nat_eq c b'.' || nat_eq c b'_' || nat_eq c b':' || nat_eq c b'-'

unfoldable pub valid_characters : ℕ → Text → Bool
unfolding is_mark
valid_characters index [] = true
valid_characters index (c ∷ cs) =
    is_identifier_tail c && (ltb 0 index || not (is_mark c)) && valid_characters (suc index) cs

-- `validIdentifier`; a character that is not ASCII has no byte that is accepted.
unfoldable pub valid_identifier : Text → Bool
unfolding valid_characters
valid_identifier value =
    not (ltb (byte_length value) 1 || ltb 128 (byte_length value)) && valid_characters 0 value

-- The test of `decoded`: an error of the decoder, or another length than that of a hash.
valid_token : Crypto → Text → Bool
valid_token crypto token = elim (crypto.decode_string token) [
  | none ↦ false
  | some decoded ↦ nat_eq (length decoded) 32 && token == crypto.to_lower token
]

unfoldable pub identity_of : AgentPrincipal → AuthenticatedAgent
identity_of p = record { workspace_id = p.workspace_id; agent_id = p.agent_id }

same_agent : AuthenticatedAgent → AuthenticatedAgent → Bool
same_agent a b = a.workspace_id == b.workspace_id && a.agent_id == b.agent_id

unfoldable pub has_digest : Text → Digests → Bool
has_digest digest digests = any_of (λ e. text_beq e.0 digest) digests

-- The body of the loop of `NewAgentBinding` up to its two assignments.
unfoldable pub principal_error :
    Crypto → List AuthenticatedAgent → Digests → AgentPrincipal → Option BindingError
unfolding valid_token same_agent identity_of has_digest
principal_error crypto identities digests p =
    reject_if (not (valid_identifier p.workspace_id)) workspace_invalid
    or_else reject_if (not (valid_identifier p.agent_id)) agent_invalid
    or_else reject_if (not (valid_token crypto p.token_sha256)) token_invalid
    or_else reject_if (any_of (same_agent (identity_of p)) identities) identity_duplicated
    or_else reject_if (has_digest p.token_sha256 digests) token_duplicated

-- The loop.
unfoldable pub bind_from :
    Crypto → List AuthenticatedAgent → Digests → List AgentPrincipal → Result BindingError Digests
unfolding principal_error identity_of
bind_from crypto identities digests [] = ok digests
bind_from crypto identities digests (p ∷ ps) =
    unless_error (principal_error crypto identities digests p)
      (bind_from crypto (identity_of p ∷ identities) ((p.token_sha256, identity_of p) ∷ digests) ps)

-- `NewAgentBinding`.
unfoldable pub new_agent_binding : Crypto → List AgentPrincipal → Result BindingError Digests
unfolding bind_from
new_agent_binding crypto principals =
    unless_error (reject_if (is_empty principals) no_principals) (bind_from crypto [] [] principals)

-- `strings.CutPrefix`, none when the prefix is not there.
unfoldable pub cut_prefix : Text → Text → Option Text
cut_prefix [] s = some s
cut_prefix (c ∷ prefix) [] = none
cut_prefix (c ∷ prefix) (d ∷ s) = elim (nat_eq c d) [ true ↦ cut_prefix prefix s | false ↦ none ]

unfoldable pub bearer : Text → Option Text
unfolding cut_prefix
bearer value = elim (cut_prefix (codes "Bearer ") value) [
  | none ↦ none
  | some token ↦ if is_empty token || not (trim_space token == token) then none else some token
]

-- The token of the values of the Authorization header. An empty value has no prefix.
unfoldable pub bearer_token : List Text → Option Text
unfolding bearer
bearer_token (value ∷ []) = if is_empty value then none else bearer value
bearer_token _ = none

-- The loop of `Authenticate`.
unfoldable pub find_digest : Text → Digests → Result AuthenticationError AuthenticatedAgent
find_digest digest [] = err unauthenticated
find_digest digest (e ∷ es) =
    let rest = find_digest digest es in if text_beq e.0 digest then ok e.1 else rest

-- The digest that `Authenticate` looks for.
unfoldable pub token_digest : Crypto → Text → Text
token_digest crypto token = crypto.encode_to_string (crypto.sum_sha256 token)

-- `AgentBinding.Authenticate` on the values of the Authorization header.
unfoldable pub authenticate :
    Crypto → Digests → List Text → Result AuthenticationError AuthenticatedAgent
unfolding bearer_token find_digest token_digest
authenticate crypto digests values = elim (bearer_token values) [
  | none ↦ err unauthenticated
  | some token ↦ find_digest (token_digest crypto token) digests
]
