-- ===== src/Registry/Target.antt =====
-- registry/target.go: the exact release identity and its validation.
use ne_kiro.Prelude.{
  ℕ, ◌+◌, ◌≡◌, ◌↔◌, Bool, true, false, not, ◌&&◌, ◌||◌, Option, none, some, List, [], ◌∷◌, ◌++◌,
  arith, ◌==◌, if◌then◌else◌, ltb, leb, nat_eq, length, is_empty, any_of, all_of, ◌or_else◌,
  reject_if, Result, ok, err,
}
use mathlib.Core.List.{reverse}
use ne_kiro.Prelude.Int.{ℤ, pos, int_lt, int_eq, atoi, itoa}
use ne_kiro.Prelude.Text.{Text, codes, text_eq, text_beq_iff, text_beq_self, trim_space}
use ne_kiro.Registry.Errors.{OutcomeError, new_invalid_error}
use ne_kiro.Registry.Url.{Url, Net}

-- The fields of ReleaseTarget; ReleaseTargetInput has the same six.
pub record ReleaseTarget : Type 0 where
  pub agent_id : Text
  pub agent_card_version : Text
  pub release_id : Text
  pub card_digest : Text
  pub canonical_endpoint : Text
  pub audience : Text

-- `r < 0x20 || r == 0x7f`
is_control : ℕ → Bool
is_control r = ltb r 0x20 || nat_eq r 0x7f

unfoldable pub valid_exact_text : Text → Bool
unfolding is_control
valid_exact_text value =
    if is_empty value || not (trim_space value == value)
    then false
    else not (any_of is_control value)

is_lower_hex : ℕ → Bool
is_lower_hex c = (leb b'0' c && leb c b'9') || (leb b'a' c && leb c b'f')

-- `cardDigestRE`, ^[0-9a-f]{64}$
unfoldable pub matches_card_digest : Text → Bool
unfolding is_lower_hex
matches_card_digest s = nat_eq (length s) 64 && all_of is_lower_hex s

contains_char : ℕ → Text → Bool
contains_char c s = any_of (nat_eq c) s

drop_dot : Text → Text
drop_dot [] = []
drop_dot (c ∷ cs) = if nat_eq c b'.' then cs else c ∷ cs

-- `strings.TrimSuffix(s, ".")`
trim_suffix_dot : Text → Text
unfolding drop_dot
trim_suffix_dot s = reverse (drop_dot (reverse s))

starts_with_colon : Text → Bool
starts_with_colon [] = false
starts_with_colon (c ∷ cs) = nat_eq c b':'

-- `strings.HasSuffix(s, ":")`
ends_with_colon : Text → Bool
unfolding starts_with_colon
ends_with_colon s = starts_with_colon (reverse s)

-- `strings.Split(s, "/")`, the segment read so far in reverse
split_slash : Text → Text → List Text
split_slash seg [] = reverse seg ∷ []
split_slash seg (c ∷ cs) =
    let next = split_slash (c ∷ seg) cs in
    let fresh = reverse seg ∷ split_slash [] cs in
    elim (nat_eq c b'/') [ true ↦ fresh | false ↦ next ]

is_dot_segment : Text → Bool
is_dot_segment s = s == codes "." || s == codes ".."

-- UTF-8 length of a code point.
unfoldable pub width : ℕ → ℕ
width c = if ltb c 0x80 then 1 else if ltb c 0x800 then 2 else if ltb c 0x10000 then 3 else 4

-- `len` of a string: its bytes.
unfoldable pub byte_length : Text → ℕ
unfolding width
byte_length [] = 0
byte_length (c ∷ cs) = width c + byte_length cs

bracketed : Text → Text
bracketed host = codes "[" ++ host ++ codes "]"

-- `net.JoinHostPort`
unfoldable pub join_host_port : Text → Text → Text
unfolding contains_char bracketed
join_host_port host port =
    if contains_char b':' host
    then bracketed host ++ codes ":" ++ port
    else host ++ codes ":" ++ port

-- The port as a number; `none` when the source returns `"", false`.
port_number : Text → Option ℤ
port_number port_text = if is_empty port_text then some (pos 0) else elim (atoi port_text) [
  | none ↦ none
  | some port ↦ if int_lt port (pos 1) || int_lt (pos 65535) port then none else some port
]

is_default_port : Text → ℤ → Bool
is_default_port scheme port =
    (scheme == codes "http" && port == pos 80) || (scheme == codes "https" && port == pos 443)

host_and_port : Bool → Text → Text → ℤ → Text
unfolding contains_char bracketed
host_and_port is_ip scheme host port =
    let plain =
      if is_ip
      then (if not (port == pos 0)
          then join_host_port host (itoa port)
          else if contains_char b':' host
          then bracketed host
          else host)
      else if not (port == pos 0)
      then host ++ codes ":" ++ itoa port
      else host in
    if is_default_port scheme port
    then (if contains_char b':' host then bracketed host else host)
    else plain

with_path : Bool → Url → Text → Option Text
unfolding contains_char split_slash is_dot_segment
with_path false u canonical = some canonical
with_path true u canonical =
    let path = if is_empty u.escaped_path then codes "/" else u.escaped_path in
    if contains_char b'%' path || any_of (λ c. nat_eq c 92 || nat_eq c 13 || nat_eq c 10) u.path
    then none
    else if any_of is_dot_segment (split_slash [] u.path)
    then none
    else some (canonical ++ path)

module _ (net : Net) where
  unfoldable pub canonical_http_value : Text → Bool → Option Text
  unfolding contains_char trim_suffix_dot ends_with_colon port_number host_and_port is_default_port
      with_path valid_exact_text byte_length
  canonical_http_value raw allow_path =
      if not (valid_exact_text raw) || ltb 2048 (byte_length raw)
      then none
      else elim (net.parse raw) [
        | none ↦ none
        | some u ↦
            if not (is_empty u.opaque)
              || is_empty u.host
              || u.user_present
              || not (is_empty u.raw_query)
              || u.force_query
              || not (is_empty u.fragment)
              || not (is_empty u.raw_fragment)
              || not (is_empty u.raw_path)
            then none
            else if not allow_path && not (is_empty u.path)
            then none
            else let scheme = net.to_lower u.scheme in
              if not (scheme == codes "http") && not (scheme == codes "https")
              then none
              else let host = trim_suffix_dot (net.to_lower u.hostname) in
                if is_empty host || contains_char b'%' host
                then none
                else if is_empty u.port_text && ends_with_colon u.host
                then none
                else elim (port_number u.port_text) [
                  | none ↦ none
                  | some port ↦
                      with_path allow_path u
                        (scheme ++ codes "://" ++ host_and_port (net.is_ip host) scheme host port)
                ]
      ]

  is_canonical : Text → Option Text → Bool
  is_canonical raw none = false
  is_canonical raw (some canonical) = canonical == raw

  unfoldable pub valid_canonical_endpoint : Text → Bool
  unfolding is_canonical
  valid_canonical_endpoint raw = is_canonical raw (canonical_http_value raw true)

  unfoldable pub valid_audience_origin : Text → Bool
  unfolding is_canonical
  valid_audience_origin raw = is_canonical raw (canonical_http_value raw false)

  unfoldable pub audience_for_canonical_endpoint : Text → Option Text
  audience_for_canonical_endpoint endpoint = elim (net.parse endpoint) [
    | none ↦ none
    | some u ↦ canonical_http_value (u.scheme ++ codes "://" ++ u.host) false
  ]

  -- `ReleaseTarget.Validate`; `none` is a nil error.
  unfoldable pub validate : ReleaseTarget → Option OutcomeError
  unfolding is_canonical
  validate t =
      reject_if (not (valid_exact_text t.agent_id)) (new_invalid_error "agent_id")
      or_else reject_if (not (valid_exact_text t.agent_card_version))
          (new_invalid_error "agent_card_version")
      or_else reject_if (not (valid_exact_text t.release_id)) (new_invalid_error "release_id")
      or_else reject_if (not (matches_card_digest t.card_digest)) (new_invalid_error "card_digest")
      or_else reject_if (not (valid_canonical_endpoint t.canonical_endpoint))
          (new_invalid_error "canonical_endpoint")
      or_else reject_if (not (valid_audience_origin t.audience)) (new_invalid_error "audience")
      or_else reject_if
          (not (is_canonical t.audience (audience_for_canonical_endpoint t.canonical_endpoint)))
          (new_invalid_error "audience")

  -- `NewReleaseTarget`.
  unfoldable pub new_release_target : ReleaseTarget → Result OutcomeError ReleaseTarget
  new_release_target input = elim (validate input) [ none ↦ ok input | some e ↦ err e ]

-- `ReleaseTarget.Equal`.
unfoldable pub equal : ReleaseTarget → ReleaseTarget → Bool
equal t other =
    t.agent_id == other.agent_id
    && t.agent_card_version == other.agent_card_version
    && t.release_id == other.release_id
    && t.card_digest == other.card_digest
    && t.canonical_endpoint == other.canonical_endpoint
    && t.audience == other.audience

pub equal_iff : (t other : ReleaseTarget) → (equal t other ≡ true) ↔ (t ≡ other)
unfolding equal
equal_iff t other = (
  λ h. ground (
    arith,
    text_beq_iff t.agent_id other.agent_id,
    text_beq_iff t.agent_card_version other.agent_card_version,
    text_beq_iff t.release_id other.release_id,
    text_beq_iff t.card_digest other.card_digest,
    text_beq_iff t.canonical_endpoint other.canonical_endpoint,
    text_beq_iff t.audience other.audience,
  ),
  λ e. rw e (simp text_beq_self),
)
