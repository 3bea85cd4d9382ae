-- ===== src/Routing/Session.antt =====
-- apps/a2a-router/internal/routing/watch_selector.go: one observation of one release.
pub mod Current
use ne_kiro.Prelude.{
  ℕ, suc, ◌%◌, ◌^◌, ◌+◌, ◌≤◌, ◌<◌, ◌≡◌, ◌≢◌, ◌↔◌, ◌⊎◌, refl, sym, ap, subst, inl, inr, Bool, true,
  false, not, ◌&&◌, ◌||◌, Option, none, some, List, [], ◌∷◌, ◌++◌, arith, Eq, ◌==◌, if◌then◌else◌,
  ◌or_else◌, reject_if, Result, ok, err, ◌>>=◌, is_empty, nat_eq, leb, ltb, length, keep,
  Bool-cases, Option-cases,
}
use ne_kiro.Prelude.Int.{ℤ, pos, itoa, int_eq}
use ne_kiro.Prelude.Text.{Text, codes, text_eq}
use ne_kiro.Registry.Errors.{OutcomeError}
use ne_kiro.Registry.Url.{Url, Net}
use ne_kiro.Registry.Target
use ne_kiro.Registry.Target.{ReleaseTarget, join_host_port, new_release_target}
use ne_kiro.Registry.Endpoint.{NetworkEndpoint, transport_protocol_tcp}
use ne_kiro.Registry.Instance.{Instance, ready, lifecycle_eq}
use ne_kiro.Registry.Snapshot
use ne_kiro.Registry.Snapshot.{InstanceSnapshot}
use ne_kiro.Registry.Snapshot.{SnapshotState, other_snapshot, no_state}
use ne_kiro.Registry.Change
use ne_kiro.Registry.Change.{InstanceChange}

-- RouterTopologyObservationState of contracts/router_topology_status.go, a string type.
pub data ObservationState : Type 0 where
  initializing missing empty populated unavailable : ObservationState

-- A time in UTC, as a number of nanoseconds.
abbrev pub Time : Type 0
Time = ℕ

-- The zero value of `registry.InstanceSnapshot`.
abbrev pub zero_snapshot : InstanceSnapshot
zero_snapshot = record {
  target = record {
    agent_id = [];
    agent_card_version = [];
    release_id = [];
    card_digest = [];
    canonical_endpoint = [];
    audience = [];
  };
  revision = record { source_tokens = []; local_order = 0 };
  state = no_state;
  instances = [];
}

-- `observationSession`. A watch is known by a number, and `ready` is whether the channel is closed.
pub record ObservationSession : Type 0 where
  pub ready : Bool
  pub snapshot : InstanceSnapshot
  pub available : Bool
  pub watch : Option ℕ
  pub state : ObservationState
  pub revision : ℕ
  pub observed_at : Time

-- The session that `session` of the selector makes.
abbrev pub new_session : Time → ObservationSession
new_session now = record {
  ready = false;
  snapshot = zero_snapshot;
  available = false;
  watch = none;
  state = initializing;
  revision = 0;
  observed_at = now;
}

unfoldable pub topology_observation_state : SnapshotState → ObservationState
topology_observation_state Snapshot.missing = missing
topology_observation_state Snapshot.empty = empty
topology_observation_state Snapshot.populated = populated
topology_observation_state (other_snapshot t) = unavailable

-- `snapshot.Validate() != nil`
unfoldable pub refused : Option OutcomeError → Bool
refused none = false
refused (some e) = true

pub unusable : Net → ReleaseTarget → InstanceSnapshot → Bool
unfolding refused
unusable net target snapshot =
    refused (Snapshot.validate net snapshot)
    || not (Target.equal snapshot.target target)
    || not (nat_eq snapshot.revision.local_order 0)

pub initialize_when :
    Bool → InstanceSnapshot → ℕ → Time → ObservationSession → ObservationSession × Bool
initialize_when true snapshot watch observed_at session =
    (record session { state = unavailable; observed_at = observed_at; ready = true }, false)
initialize_when false snapshot watch observed_at session = (
  record {
    ready = true;
    snapshot = snapshot;
    available = true;
    watch = some watch;
    state = topology_observation_state snapshot.state;
    revision = snapshot.revision.local_order;
    observed_at = observed_at;
  },
  true,
)

-- `initialize`; the watch is `none` for nil.
unfoldable pub initialize :
    Net
    → ReleaseTarget
    → InstanceSnapshot
    → Option ℕ
    → Time
    → ObservationSession
    → ObservationSession × Bool
unfolding initialize_when unusable
initialize net target snapshot none observed_at session =
    (record session { state = unavailable; observed_at = observed_at; ready = true }, false)
initialize net target snapshot (some w) observed_at session =
    initialize_when (unusable net target snapshot) snapshot w observed_at session

-- `order + 1` of a uint64.
abbrev pub next_order : ℕ → ℕ
next_order order = (order + 1) % 2 ^ 64

pub skips : ReleaseTarget → InstanceSnapshot → ObservationSession → Bool
skips target next session =
    not session.available
    || not (Target.equal next.target target)
    || not (nat_eq next.revision.local_order (next_order session.snapshot.revision.local_order))

pub apply_when : Bool → InstanceSnapshot → Time → ObservationSession → ObservationSession × Bool
apply_when true next observed_at session = (session, false)
apply_when false next observed_at session = (
  record session {
    snapshot = next;
    state = topology_observation_state next.state;
    revision = next.revision.local_order;
    observed_at = observed_at;
  },
  true,
)

-- `apply`.
unfoldable pub apply :
    Net → ReleaseTarget → InstanceChange → Time → ObservationSession → ObservationSession × Bool
unfolding apply_when skips refused
apply net target change observed_at session =
    apply_when (refused (Change.validate net change) || skips target change.snapshot session)
      change.snapshot observed_at session

-- `current`.
unfoldable pub current : ObservationSession → InstanceSnapshot × Bool
current session = (session.snapshot, session.available)

-- `status`.
unfoldable pub status : ObservationSession → ObservationState × ℕ × Time
status session = (session.state, session.revision, session.observed_at)

-- `fail`.
unfoldable pub fail : Time → ObservationSession → ObservationSession
fail observed_at session = record session {
  snapshot = zero_snapshot;
  available = false;
  state = unavailable;
  observed_at = observed_at;
  ready = true;
}

-- Where `observe` stands: it waits in `Next`, or it returned after it called `Close` on this watch.
pub data Progress : Type 0 where
  watching : Progress
  returned : Option ℕ → Progress

-- What one call of `Next` returned, a change or an error, and the times that are read after it.
pub record NextResult : Type 0 where
  pub change : Option InstanceChange
  pub applied_at : Time
  pub failed_at : Time

pub loop_when :
    Bool
    → ℕ
    → NextResult
    → ObservationSession × Progress
    → ObservationSession
    → ObservationSession × Progress
unfolding fail
loop_when true watch r rest session = rest
loop_when false watch r rest session = (fail r.failed_at session, returned (some watch))

pub apply_result :
    Net
    → ReleaseTarget
    → Option InstanceChange
    → Time
    → ObservationSession
    → ObservationSession × Bool
unfolding apply
apply_result net target none applied_at session = (session, false)
apply_result net target (some c) applied_at session = apply net target c applied_at session

-- The loop of `observe` on the results that `Next` gave so far.
pub observe_changes :
    Net → ReleaseTarget → ℕ → List NextResult → ObservationSession → ObservationSession × Progress
unfolding loop_when apply_result
observe_changes net target watch [] session = (session, watching)
observe_changes net target watch (r ∷ rs) session =
    let taken = apply_result net target r.change r.applied_at session in
    let rest = observe_changes net target watch rs taken.0 in loop_when taken.1 watch r rest taken.0

-- What `Observe` of the directory returned.
pub record Observation : Type 0 where
  pub initial : InstanceSnapshot
  pub watch : Option ℕ

pub observe_when :
    Bool
    → Net
    → ReleaseTarget
    → Option ℕ
    → List NextResult
    → ObservationSession
    → ObservationSession × Progress
unfolding observe_changes
observe_when true net target (some w) rs session = observe_changes net target w rs session
observe_when _ net target w rs session = (session, returned w)

-- `observe`, from the answer of the directory on; `none` is an error.
unfoldable pub observe :
    Net
    → ReleaseTarget
    → Option Observation
    → Time
    → List NextResult
    → ObservationSession
    → ObservationSession × Progress
unfolding observe_when initialize fail
observe net target none now rs session = (fail now session, returned none)
observe net target (some o) now rs session =
    let started = initialize net target o.initial o.watch now session in
    observe_when started.1 net target o.watch rs started.0
