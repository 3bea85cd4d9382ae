-- ===== src/Routing/Table.antt =====
-- apps/a2a-router/internal/routing/watch_selector.go: the table of observations of the selector.
pub mod Bounded
pub mod Found
use ne_kiro.Prelude.{
  ℕ, suc, ◌+◌, ◌≤◌, ◌<◌, ◌≡◌, ◌≢◌, ◌↔◌, ◌⊎◌, refl, sym, ap, subst, inl, inr, Bool, true, false, not,
  ◌&&◌, ◌||◌, Option, none, some, List, [], ◌∷◌, ◌++◌, arith, Eq, ◌==◌, if◌then◌else◌, ◌or_else◌,
  reject_if, Result, ok, err, ◌>>=◌, is_empty, nat_eq, leb, ltb, length, keep, Bool-cases,
  Option-cases,
}
use ne_kiro.Prelude.Int.{ℤ, pos, itoa, int_eq}
use ne_kiro.Prelude.Text.{Text, codes, text_eq}
use ne_kiro.Registry.Errors.{OutcomeError}
use ne_kiro.Registry.Url.{Url, Net}
use ne_kiro.Registry.Target
use ne_kiro.Registry.Target.{ReleaseTarget, join_host_port, new_release_target}
use ne_kiro.Registry.Endpoint.{NetworkEndpoint, transport_protocol_tcp}
use ne_kiro.Registry.Instance.{Instance, ready, lifecycle_eq}
use ne_kiro.Registry.Snapshot
use ne_kiro.Registry.Snapshot.{InstanceSnapshot}
use ne_kiro.Routing.Session.{ObservationSession, Time, new_session}

-- `WatchSelector`: the parts under its mutex and the configured limit. A session is known by its
-- target, the key of the map, whose entries stand with the newest first.
pub record WatchSelector : Type 0 where
  pub max_observations : ℕ
  pub closed : Bool
  pub sessions : List (ReleaseTarget × ObservationSession)

-- `NewWatchSelector` past its tests.
abbrev pub new_table : ℕ → WatchSelector
new_table max = record { max_observations = max; closed = false; sessions = [] }

pub data SessionError : Type 0 where
  selector_closed limit_reached : SessionError

-- `selector.sessions[target]`
unfoldable pub find_session :
    ReleaseTarget → List (ReleaseTarget × ObservationSession) → Option ObservationSession
find_session target [] = none
find_session target ((t, s) ∷ rest) =
    if Target.equal t target then some s else find_session target rest

-- The session that is returned stands beside the table.
pub add_when :
    Bool
    → Time
    → ReleaseTarget
    → WatchSelector
    → Result SessionError (WatchSelector × ObservationSession)
add_when true now target w = err limit_reached
add_when false now target w =
    ok (record w { sessions = (target, new_session now) ∷ w.sessions }, new_session now)

pub find_or_add :
    Option ObservationSession
    → Time
    → ReleaseTarget
    → WatchSelector
    → Result SessionError (WatchSelector × ObservationSession)
unfolding add_when
find_or_add (some s) now target w = ok (w, s)
find_or_add none now target w = add_when (leb w.max_observations (length w.sessions)) now target w

pub open_when :
    Bool
    → Time
    → ReleaseTarget
    → WatchSelector
    → Result SessionError (WatchSelector × ObservationSession)
unfolding find_or_add
open_when true now target w = err selector_closed
open_when false now target w = find_or_add (find_session target w.sessions) now target w

-- `session`: the table afterwards and the session that is returned. A pointer to a session is the
-- entry of its target in the table, and the second part is what it points to.
unfoldable pub session :
    Time → ReleaseTarget → WatchSelector → Result SessionError (WatchSelector × ObservationSession)
unfolding open_when
session now target w = open_when w.closed now target w

-- A write of the goroutine that observes a target to its session.
unfoldable pub update :
    ReleaseTarget
    → ObservationSession
    → List (ReleaseTarget × ObservationSession)
    → List (ReleaseTarget × ObservationSession)
update target s [] = []
update target s ((t, old) ∷ rest) =
    let later = update target s rest in
    if Target.equal t target then (t, s) ∷ rest else (t, old) ∷ later

-- The sessions whose watches `Close` closes, in the order of the table.
open_watches : List (ReleaseTarget × ObservationSession) → List ℕ
open_watches [] = []
open_watches ((t, s) ∷ rest) = elim s.watch [
  | none ↦ open_watches rest
  | some w ↦ w ∷ open_watches rest
]

close_table_when : Bool → WatchSelector → WatchSelector × List ℕ
unfolding open_watches
close_table_when true w = (w, [])
close_table_when false w = (record w { closed = true }, open_watches w.sessions)

-- `Close`: the table afterwards and the watches that it closes.
unfoldable pub close_table : WatchSelector → WatchSelector × List ℕ
unfolding close_table_when
close_table w = close_table_when w.closed w
