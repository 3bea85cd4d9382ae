-- ===== src/Routing/Selector.antt =====
-- apps/a2a-router/internal/routing/selector.go: the one endpoint of a snapshot.
pub mod Single
use ne_kiro.Prelude.{
  ℕ, suc, ◌+◌, ◌≤◌, ◌<◌, ◌≡◌, ◌≢◌, ◌↔◌, ◌⊎◌, refl, sym, ap, subst, inl, inr, Bool, true, false, not,
  ◌&&◌, ◌||◌, Option, none, some, List, [], ◌∷◌, ◌++◌, arith, Eq, ◌==◌, if◌then◌else◌, ◌or_else◌,
  reject_if, Result, ok, err, ◌>>=◌, is_empty, nat_eq, leb, ltb, length, keep, Bool-cases,
  Option-cases,
}
use ne_kiro.Prelude.Int.{ℤ, pos, itoa, int_eq}
use ne_kiro.Prelude.Text.{Text, codes, text_eq}
use ne_kiro.Registry.Errors.{OutcomeError}
use ne_kiro.Registry.Url.{Url, Net}
use ne_kiro.Registry.Target
use ne_kiro.Registry.Target.{ReleaseTarget, join_host_port, new_release_target}
use ne_kiro.Registry.Endpoint.{NetworkEndpoint, transport_protocol_tcp}
use ne_kiro.Registry.Instance.{Instance, ready, lifecycle_eq}
use ne_kiro.Registry.Snapshot
use ne_kiro.Registry.Snapshot.{InstanceSnapshot}

-- Target of apps/a2a-router/internal/transport/a2a/target.go.
pub record A2aTarget : Type 0 where
  pub agent_id : Text
  pub version : Text
  pub capability : Text
  pub endpoint : Text
  pub audience : Text
  pub release_id : Text
  pub card_digest : Text
  pub protocol : Text
  pub transport : Text
  pub auth_type : Text
  pub max_input_bytes : ℤ
  pub max_output_bytes : ℤ
  pub timeout_ms : ℤ
  pub streaming : Bool

-- What is used of `url.URL` after it was parsed: `String`, alone and after an assignment.
pub record UrlPrinter : Type 0 where
  pub print : Url → Text
  pub print_with_host : Text → Url → Text
  pub print_with_path : Text → Url → Text

pub data RoutingError : Type 0 where
  no_ready_endpoint multiple_ready_endpoints unparsable_endpoint : RoutingError
  invalid_release : OutcomeError → RoutingError

unfoldable pub is_candidate : Text → NetworkEndpoint → Bool
is_candidate port_name e = e.port_name == port_name && e.protocol == transport_protocol_tcp

-- The inner loop: `selected` is `none` for a nil pointer.
unfoldable pub scan_endpoints :
    Text
    → List NetworkEndpoint
    → Option NetworkEndpoint
    → Result RoutingError (Option NetworkEndpoint)
unfolding is_candidate
scan_endpoints port_name [] selected = ok selected
scan_endpoints port_name (e ∷ es) selected =
    let skipped = scan_endpoints port_name es selected in
    let taken = scan_endpoints port_name es (some e) in
    if not (is_candidate port_name e)
    then skipped
    else elim selected [ some s ↦ err multiple_ready_endpoints | none ↦ taken ]

-- The outer loop.
unfoldable pub scan_instances :
    Text → List Instance → Option NetworkEndpoint → Result RoutingError (Option NetworkEndpoint)
scan_instances port_name [] selected = ok selected
scan_instances port_name (i ∷ is) selected =
    let skipped = scan_instances port_name is selected in
    let entered =
      scan_endpoints port_name i.endpoints selected
      >>= (λ found. scan_instances port_name is found) in
    if not (i.state == ready) then skipped else entered

-- The target with the host and port of the endpoint in its URL.
unfoldable pub redirect :
    Net → UrlPrinter → A2aTarget → NetworkEndpoint → Result RoutingError A2aTarget
redirect net printer target selected = elim (net.parse target.endpoint) [
  | none ↦ err unparsable_endpoint
  | some u ↦ ok (record target {
    endpoint = printer.print_with_host (join_host_port selected.address (itoa selected.port)) u;
  })
]

unfoldable pub finish_selection :
    Net → UrlPrinter → A2aTarget → Option NetworkEndpoint → Result RoutingError A2aTarget
finish_selection net printer target none = err no_ready_endpoint
finish_selection net printer target (some e) = redirect net printer target e

-- `selectSnapshotTarget`.
unfoldable pub select_snapshot_target :
    Net → UrlPrinter → A2aTarget → InstanceSnapshot → Text → Result RoutingError A2aTarget
select_snapshot_target net printer target snapshot port_name =
    scan_instances port_name snapshot.instances none
    >>= (λ selected. finish_selection net printer target selected)

-- `canonicalEndpoint`.
unfoldable pub canonical_endpoint_of : Net → UrlPrinter → Text → Result RoutingError Text
canonical_endpoint_of net printer raw = elim (net.parse raw) [
  | none ↦ err unparsable_endpoint
  | some u ↦ ok (if is_empty u.path then printer.print_with_path (codes "/") u else printer.print u)
]

typed_release : Result OutcomeError ReleaseTarget → Result RoutingError ReleaseTarget
typed_release (ok t) = ok t
typed_release (err e) = err (invalid_release e)

-- `releaseTarget`.
unfoldable pub release_target : Net → UrlPrinter → A2aTarget → Result RoutingError ReleaseTarget
unfolding typed_release
release_target net printer target = do
  canonical ← canonical_endpoint_of net printer target.endpoint
  typed_release (
      new_release_target net (record {
        agent_id = target.agent_id;
        agent_card_version = target.version;
        release_id = target.release_id;
        card_digest = target.card_digest;
        canonical_endpoint = canonical;
        audience = target.audience;
      }))
