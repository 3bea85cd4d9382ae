-- ===== src/Contracts/Lineage.antt =====
-- contracts/runtime_contracts_validation.go: records, nested invocations, details and traces.
pub mod Parents
use ne_kiro.Prelude.{
  ℕ, suc, any_of, or_else-none, reject_if-none, All, ◌+◌, ◌≤◌, ◌<◌, ◌≡◌, ◌≢◌, ◌↔◌, ◌⊎◌, refl, sym,
  ap, subst, inl, inr, Bool, true, false, not, ◌&&◌, ◌||◌, Option, none, some, List, [], ◌∷◌, ◌++◌,
  arith, Eq, ◌==◌, if◌then◌else◌, ◌or_else◌, reject_if, Result, ok, err, ◌>>=◌, is_empty, nat_eq,
  leb, ltb, length, keep, Bool-cases, Option-cases,
}
use ne_kiro.Prelude.Int.{ℤ, pos, int_eq, int_lt}
use ne_kiro.Prelude.Text.{Text, codes, text_eq, text_beq_iff}
use ne_kiro.Registry.Errors.{OutcomeError}
use ne_kiro.Registry.Url.{Url, Net}
use ne_kiro.Registry.Target
use ne_kiro.Registry.Target.{ReleaseTarget, join_host_port, new_release_target}
use ne_kiro.Registry.Endpoint.{NetworkEndpoint, transport_protocol_tcp}
use ne_kiro.Registry.Instance.{Instance, ready, lifecycle_eq}
use ne_kiro.Registry.Snapshot
use ne_kiro.Registry.Snapshot.{InstanceSnapshot}
use ne_kiro.Contracts.Event.{
  Word, word_eq, pending, routing, running, created, is_terminal_status, InvocationEvent, Schemas,
  Caller, valid_provenance, is_safe_identifier,
}
use ne_kiro.Contracts.Trace.{InvocationRecord, is_emitted}

-- What is used of the packages for semantic versions.
pub record Versions : Type 0 where
  pub strict_version : Text → Bool

-- The keys of `platformErrorV4Messages`.
known_error_codes : List Text
known_error_codes =
    codes "VALIDATION_ERROR"
    ∷ codes "UNAUTHENTICATED"
    ∷ codes "FORBIDDEN"
    ∷ codes "NOT_FOUND"
    ∷ codes "CONFLICT"
    ∷ codes "NOT_ACCEPTABLE"
    ∷ codes "PAYLOAD_TOO_LARGE"
    ∷ codes "AGENT_NOT_INSTALLED"
    ∷ codes "INSTALLATION_DISABLED"
    ∷ codes "AGENT_DISABLED"
    ∷ codes "AGENT_RELEASE_UNPUBLISHED"
    ∷ codes "AGENT_RELEASE_SUSPENDED"
    ∷ codes "AGENT_RELEASE_REVOKED"
    ∷ codes "CAPABILITY_NOT_ALLOWED"
    ∷ codes "ROUTE_NOT_FOUND"
    ∷ codes "AGENT_AUTH_UNSUPPORTED"
    ∷ codes "AGENT_RESPONSE_TOO_LARGE"
    ∷ codes "A2A_PROTOCOL_ERROR"
    ∷ codes "AGENT_UNAVAILABLE"
    ∷ codes "AGENT_EXECUTION_FAILED"
    ∷ codes "DEPENDENCY_ERROR"
    ∷ codes "TIMEOUT"
    ∷ codes "CANCELED"
    ∷ codes "INTERNAL_ERROR"
    ∷ []

valid_caller_type : Text → Bool
valid_caller_type t = t == codes "user" || t == codes "agent" || t == codes "service"

valid_record_status : Word → Bool
valid_record_status pending = true
valid_record_status routing = true
valid_record_status running = true
valid_record_status s = is_terminal_status s

valid_latency : Option ℤ → Bool
valid_latency none = true
valid_latency (some l) = not (int_lt l (pos 0))

-- `validateInvocationRecordV1`, true when it returns nil. The zero time is 0.
unfoldable pub valid_record : Schemas → Versions → InvocationRecord → Bool
unfolding known_error_codes valid_caller_type valid_record_status valid_latency
valid_record schemas versions r =
    valid_provenance schemas r.agent_release_id r.agent_card_digest
    && is_safe_identifier r.invocation_id
    && is_safe_identifier r.root_task_id
    && is_safe_identifier r.workspace_id
    && is_safe_identifier r.target_agent_id
    && is_safe_identifier r.capability
    && is_safe_identifier r.caller.id
    && (is_empty r.parent_invocation_id || is_safe_identifier r.parent_invocation_id)
    && is_safe_identifier r.trace_id
    && valid_caller_type r.caller.caller_type
    && versions.strict_version r.agent_card_version
    && valid_record_status r.status
    && valid_latency r.latency_ms
    && (is_empty r.error_code || any_of (λ c. c == r.error_code) known_error_codes)
    && not (r.created_at == pos 0)
    && not (r.updated_at == pos 0)

pub data LineageError : Type 0 where
  parent_not_running child_not_first parent_identity lineage_changed caller_mismatch : LineageError
  trace_changed trace_empty record_invalid outside_trace root_changed repeated self_parent
        parent_after :
      LineageError

-- `ValidateNestedInvocationCorrelation`.
unfoldable pub validate_nested : InvocationRecord → InvocationEvent → Option LineageError
validate_nested parent child =
    reject_if (not (parent.status == running)) parent_not_running
    or_else reject_if
        (not (child.event_type == created)
          || not (child.status == pending)
          || not (child.sequence == pos 0))
        child_not_first
    or_else reject_if
        (not (child.parent_invocation_id == parent.invocation_id)
          || child.invocation_id == parent.invocation_id)
        parent_identity
    or_else reject_if
        (not (child.root_task_id == parent.root_task_id)
          || not (child.trace_id == parent.trace_id)
          || not (child.workspace_id == parent.workspace_id))
        lineage_changed
    or_else reject_if
        (not (child.caller.caller_type == codes "agent")
          || not (child.caller.id == parent.target_agent_id))
        caller_mismatch

-- TraceResponseV1.
pub record TraceResponse : Type 0 where
  pub trace_id : Text
  pub invocations : List InvocationRecord

-- The body of the loop of `ValidateTraceResponseV1`; `seen` has the records before, the last first,
-- whose identifiers are the keys of `identities`.
unfoldable pub invocation_error :
    Schemas
    → Versions
    → Text
    → Text
    → Text
    → List InvocationRecord
    → InvocationRecord
    → Option LineageError
invocation_error schemas versions workspace_id trace_id root_task_id seen r =
    reject_if (not (valid_record schemas versions r)) record_invalid
    or_else reject_if (not (r.workspace_id == workspace_id) || not (r.trace_id == trace_id))
        outside_trace
    or_else reject_if (not (r.root_task_id == root_task_id)) root_changed
    or_else reject_if (is_emitted r.invocation_id seen) repeated
    or_else reject_if
        (not (is_empty r.parent_invocation_id) && r.parent_invocation_id == r.invocation_id)
        self_parent
    or_else reject_if
        (not (is_empty r.parent_invocation_id) && not (is_emitted r.parent_invocation_id seen))
        parent_after

-- The loop.
unfoldable pub lineage_error :
    Schemas
    → Versions
    → Text
    → Text
    → Text
    → List InvocationRecord
    → List InvocationRecord
    → Option LineageError
lineage_error schemas versions w t root seen [] = none
lineage_error schemas versions w t root seen (r ∷ rs) =
    invocation_error schemas versions w t root seen r
    or_else lineage_error schemas versions w t root (r ∷ seen) rs

unfoldable pub nonempty_error :
    Schemas → Versions → Text → Text → List InvocationRecord → Option LineageError
nonempty_error schemas versions w t [] = some trace_empty
nonempty_error schemas versions w t (r ∷ rs) =
    lineage_error schemas versions w t r.root_task_id [] (r ∷ rs)

-- `ValidateTraceResponseV1`.
unfoldable pub validate_trace :
    Schemas → Versions → Text → Text → TraceResponse → Option LineageError
validate_trace schemas versions workspace_id trace_id response =
    reject_if (not (response.trace_id == trace_id)) trace_changed
    or_else nonempty_error schemas versions workspace_id trace_id response.invocations

-- `NegotiateInvocationResultMode`.
pub data ResultMode : Type 0 where
  json_mode sse_mode : ResultMode

unfoldable pub negotiate_result_mode : Bool → Text → Option ResultMode
negotiate_result_mode true accept =
    if accept == codes "text/event-stream" then some sse_mode else none
negotiate_result_mode false accept =
    if accept == codes "application/json"
      || accept == codes "application/*"
      || accept == codes "*/*"
    then some json_mode
    else none
