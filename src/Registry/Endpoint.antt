-- ===== src/Registry/Endpoint.antt =====
-- registry/model.go, network endpoints: the tuple, its validation, its order.
pub mod Order
use ne_kiro.Prelude.{
  Bool, true, false, not, ◌&&◌, ◌||◌, Option, none, some, List, ◌==◌, if◌then◌else◌, ◌or_else◌,
  reject_if, Result, ok, err,
}
use ne_kiro.Prelude.Int.{ℤ, pos, int_lt, int_eq}
use ne_kiro.Prelude.Text.{Text, codes, text_eq, text_lt}
use ne_kiro.Prelude.Sort.{normalize}
use ne_kiro.Registry.Errors.{OutcomeError, new_invalid_error}
use ne_kiro.Registry.Target.{valid_exact_text}

-- NetworkEndpoint; NetworkEndpointInput has the same fields. AddressType and TransportProtocol are
-- string types.
pub record NetworkEndpoint : Type 0 where
  pub address_type : Text
  pub address : Text
  pub port_name : Text
  pub port : ℤ
  pub protocol : Text

abbrev pub transport_protocol_tcp : Text
transport_protocol_tcp = codes "TCP"

unfoldable pub validate : NetworkEndpoint → Option OutcomeError
validate e =
    reject_if (not (valid_exact_text e.address_type)) (new_invalid_error "address_type")
    or_else reject_if (not (valid_exact_text e.address)) (new_invalid_error "address")
    or_else reject_if (not (valid_exact_text e.port_name)) (new_invalid_error "port_name")
    or_else reject_if (int_lt e.port (pos 1) || int_lt (pos 65535) e.port)
        (new_invalid_error "port")
    or_else reject_if (not (valid_exact_text e.protocol)) (new_invalid_error "protocol")

unfoldable pub new_network_endpoint : NetworkEndpoint → Result OutcomeError NetworkEndpoint
new_network_endpoint input = elim (validate input) [ none ↦ ok input | some e ↦ err e ]

unfoldable pub equal : NetworkEndpoint → NetworkEndpoint → Bool
equal e other =
    e.address_type == other.address_type
    && e.address == other.address
    && e.port_name == other.port_name
    && e.port == other.port
    && e.protocol == other.protocol

-- The result of a comparison, -1, 0 or 1.
pub data Sign : Type 0 where
  less same greater : Sign

-- `if l != r { if l < r { return -1 }; return 1 }` before the rest.
abbrev pub compare_text : Text → Text → Sign → Sign
compare_text l r rest = if not (l == r) then (if text_lt l r then less else greater) else rest

abbrev pub compare_int : ℤ → ℤ → Sign → Sign
compare_int l r rest = if not (l == r) then (if int_lt l r then less else greater) else rest

unfoldable pub compare_network_endpoints : NetworkEndpoint → NetworkEndpoint → Sign
compare_network_endpoints left right = compare_text left.address_type right.address_type (
    compare_text left.address right.address (
      compare_text left.port_name right.port_name
        (compare_int left.port right.port (compare_text left.protocol right.protocol same))))

abbrev pub is_less : Sign → Bool
is_less less = true
is_less _ = false

abbrev pub is_same : Sign → Bool
is_same same = true
is_same _ = false

unfoldable pub precedes : NetworkEndpoint → NetworkEndpoint → Bool
precedes l r = is_less (compare_network_endpoints l r)

unfoldable pub coincides : NetworkEndpoint → NetworkEndpoint → Bool
coincides l r = is_same (compare_network_endpoints l r)

unfoldable pub normalize_network_endpoints :
    List NetworkEndpoint → Result OutcomeError (List NetworkEndpoint)
unfolding validate precedes coincides normalize
normalize_network_endpoints =
    normalize validate precedes coincides (new_invalid_error "duplicate_network_endpoint")
