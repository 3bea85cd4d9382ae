-- ===== src/Contracts/Trace.antt =====
-- apps/a2a-router/internal/ledger/store.go, `orderTraceProjections`: the order of a stored trace.
pub mod Ordered
pub mod Complete
use mathlib.Core.List.{reverse}
use ne_kiro.Prelude.{
  ℕ, zero, suc, any_of, ◌+◌, ◌≤◌, ◌<◌, ◌≡◌, ◌≢◌, ◌↔◌, ◌⊎◌, refl, sym, ap, subst, inl, inr, Bool,
  true, false, not, ◌&&◌, ◌||◌, Option, none, some, List, [], ◌∷◌, ◌++◌, arith, Eq, ◌==◌,
  if◌then◌else◌, ◌or_else◌, reject_if, Result, ok, err, ◌>>=◌, is_empty, nat_eq, leb, ltb, length,
  keep, Bool-cases, Option-cases,
}
use ne_kiro.Prelude.Int.{ℤ, pos, itoa, int_eq}
use ne_kiro.Prelude.Text.{Text, codes, text_eq}
use ne_kiro.Registry.Errors.{OutcomeError}
use ne_kiro.Registry.Url.{Url, Net}
use ne_kiro.Registry.Target
use ne_kiro.Registry.Target.{ReleaseTarget, join_host_port, new_release_target}
use ne_kiro.Registry.Endpoint.{NetworkEndpoint, transport_protocol_tcp}
use ne_kiro.Registry.Instance.{Instance, ready, lifecycle_eq}
use ne_kiro.Registry.Snapshot
use ne_kiro.Registry.Snapshot.{InstanceSnapshot}
use ne_kiro.Contracts.Event.{Word, Caller}

-- InvocationRecordV1; times are numbers of nanoseconds.
pub record InvocationRecord : Type 0 where
  pub invocation_id : Text
  pub root_task_id : Text
  pub parent_invocation_id : Text
  pub trace_id : Text
  pub caller : Caller
  pub workspace_id : Text
  pub target_agent_id : Text
  pub agent_card_version : Text
  pub agent_release_id : Text
  pub agent_card_digest : Text
  pub capability : Text
  pub status : Word
  pub latency_ms : Option ℤ
  pub error_code : Text
  pub created_at : ℤ
  pub updated_at : ℤ

-- A pass over `remaining`: `ordered` is what was emitted, the newest first, and its identifiers are
-- the keys of `emitted`; `next` is what is left, the last first.
pub record Pass : Type 0 where
  pub ordered : List InvocationRecord
  pub next : List InvocationRecord
  pub progress : Bool

-- `emitted[id]`
unfoldable pub is_emitted : Text → List InvocationRecord → Bool
is_emitted id ordered = any_of (λ (r : InvocationRecord). r.invocation_id == id) ordered

unfoldable pub may_emit : InvocationRecord → List InvocationRecord → Bool
unfolding is_emitted
may_emit value ordered =
    is_empty value.parent_invocation_id || is_emitted value.parent_invocation_id ordered

pub visit_when : Bool → InvocationRecord → Pass → Pass
visit_when true value p = record { ordered = value ∷ p.ordered; next = p.next; progress = true }
visit_when false value p = record p { next = value ∷ p.next }

-- One iteration of the inner loop.
pub visit : InvocationRecord → Pass → Pass
unfolding visit_when
visit value p = visit_when (may_emit value p.ordered) value p

-- The inner loop.
pub visit_all : List InvocationRecord → Pass → Pass
unfolding visit
visit_all [] p = p
visit_all (value ∷ rest) p = visit_all rest (visit value p)

-- A pass that begins with what was emitted before.
abbrev pub begin_pass : List InvocationRecord → Pass
begin_pass ordered = record { ordered = ordered; next = []; progress = false }

pub data TraceError : Type 0 where
  broken_lineage out_of_fuel : TraceError

-- The outer loop, at most as many times as the fuel says.
pub order_rounds :
    ℕ → List InvocationRecord → List InvocationRecord → Result TraceError (List InvocationRecord)
unfolding visit_all
order_rounds fuel [] ordered = ok (reverse ordered)
order_rounds zero (value ∷ rest) ordered = err out_of_fuel
order_rounds (suc fuel) (value ∷ rest) ordered =
    let p = visit_all (value ∷ rest) (begin_pass ordered) in
    let later = order_rounds fuel (reverse p.next) p.ordered in
    if not p.progress then err broken_lineage else later

-- `orderTraceProjections`.
unfoldable pub order_trace_projections :
    List InvocationRecord → Result TraceError (List InvocationRecord)
unfolding order_rounds
order_trace_projections values = order_rounds (length values) values []
