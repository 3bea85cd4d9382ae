-- ===== src/Nested/Context.antt =====
-- apps/a2a-router/internal/nested/context.go, and the lifecycle events of
-- apps/a2a-router/internal/api/dispatch_handler.go that the child's request gives.
--
-- The random source and the format of times are parameters.
use ne_kiro.Prelude.{
  ℕ, zero, suc, ◌>>=◌, Time, ◌≡◌, Bool, not, Option, none, some, List, [], ◌∷◌, ◌++◌, ◌==◌,
  ◌or_else◌, reject_if, unless_error, Result, ok, err, is_empty,
}
use ne_kiro.Prelude.Int.{ℤ, itoa}
use ne_kiro.Prelude.Text.{Text, codes, text_eq}
use ne_kiro.Contracts.Event.{
  Word, word_eq, created, pending, routing, started, running, stream, succeeded, failed, canceled,
  timed_out, other_word, Caller, InvocationEvent,
}
use ne_kiro.Contracts.Trace.{InvocationRecord}
use ne_kiro.Nested.Binding.{Crypto, AuthenticatedAgent}
pub mod Lineage

pub data NestedError : Type 0 where
  parent_not_found parent_not_running parent_target_mismatch parent_workspace_mismatch
        no_identifier :
      NestedError

pub record ChildContext : Type 0 where
  pub child_invocation_id : Text
  pub parent_invocation : InvocationRecord
  pub caller : Caller
  pub workspace_id : Text
  pub root_task_id : Text
  pub trace_id : Text

-- DispatchInvocationRequestV1; `input` has the bytes of the JSON value.
pub record DispatchRequest : Type 0 where
  pub invocation_id : Text
  pub root_task_id : Text
  pub parent_invocation_id : Text
  pub trace_id : Text
  pub caller : Caller
  pub workspace_id : Text
  pub target_agent_id : Text
  pub agent_card_version : Text
  pub agent_release_id : Text
  pub agent_card_digest : Text
  pub capability : Text
  pub input : List ℕ
  pub stream : Bool

-- `newInvocationID`; what the random source gives is an argument, none for an error.
unfoldable pub new_invocation_id : Crypto → Option (List ℕ) → Result NestedError Text
new_invocation_id crypto none = err no_identifier
new_invocation_id crypto (some data_read) = ok (codes "inv_" ++ crypto.encode_to_string data_read)

unfoldable pub parent_error : InvocationRecord → AuthenticatedAgent → Option NestedError
parent_error parent agent =
    reject_if (is_empty parent.invocation_id) parent_not_found
    or_else reject_if (not (parent.status == running)) parent_not_running
    or_else reject_if (not (parent.target_agent_id == agent.agent_id)) parent_target_mismatch
    or_else reject_if (not (parent.workspace_id == agent.workspace_id)) parent_workspace_mismatch

unfoldable pub child_of : InvocationRecord → AuthenticatedAgent → Text → ChildContext
child_of parent agent child_id = record {
  child_invocation_id = child_id;
  parent_invocation = parent;
  caller = record { caller_type = codes "agent"; id = agent.agent_id };
  workspace_id = parent.workspace_id;
  root_task_id = parent.root_task_id;
  trace_id = parent.trace_id;
}

-- `DeriveChildContext` on the invocation of the parent's detail response.
unfoldable pub derive_child_context :
    Crypto
    → Option (List ℕ)
    → InvocationRecord
    → AuthenticatedAgent
    → Result NestedError ChildContext
unfolding new_invocation_id parent_error child_of
derive_child_context crypto source parent agent =
    unless_error (parent_error parent agent)
      (new_invocation_id crypto source >>= λ child_id. ok (child_of parent agent child_id))

-- `BuildChildDispatchRequest`; the last three texts are the resolved version, release and digest.
unfoldable pub build_child_dispatch_request :
    ChildContext → Text → Text → List ℕ → Bool → Text → Text → Text → DispatchRequest
build_child_dispatch_request child target capability input streaming version release digest =
    record {
      invocation_id = child.child_invocation_id;
      root_task_id = child.root_task_id;
      parent_invocation_id = child.parent_invocation.invocation_id;
      trace_id = child.trace_id;
      caller = child.caller;
      workspace_id = child.workspace_id;
      target_agent_id = target;
      agent_card_version = version;
      agent_release_id = release;
      agent_card_digest = digest;
      capability = capability;
      input = input;
      stream = streaming;
    }

word_text : Word → Text
word_text created = codes "created"
word_text pending = codes "pending"
word_text routing = codes "routing"
word_text started = codes "started"
word_text running = codes "running"
word_text stream = codes "stream"
word_text succeeded = codes "succeeded"
word_text failed = codes "failed"
word_text canceled = codes "canceled"
word_text timed_out = codes "timed_out"
word_text (other_word w) = w

first_bytes : ℕ → List ℕ → List ℕ
first_bytes zero bs = []
first_bytes (suc n) [] = []
first_bytes (suc n) (b ∷ bs) = b ∷ first_bytes n bs

-- `lifecycleEventID`.
unfoldable pub lifecycle_event_id : Crypto → Text → ℤ → Word → Text
unfolding word_text first_bytes
lifecycle_event_id crypto invocation_id sequence event_type =
    let hashed = invocation_id ++ (b':' ∷ (itoa sequence ++ (b':' ∷ word_text event_type))) in
    codes "evt-"
    ++ (crypto.encode_to_string (first_bytes 8 (crypto.sum_sha256 hashed))
        ++ (b'-' ∷ itoa sequence))

-- `lifecycleEvent`; the first argument but one formats a time as RFC 3339 in UTC.
unfoldable pub lifecycle_event :
    Crypto → (Time → Text) → DispatchRequest → ℤ → Word → Word → Time → InvocationEvent
unfolding lifecycle_event_id
lifecycle_event crypto format request sequence event_type status occurred_at = record {
  schema_version = codes "0.3";
  event_id = lifecycle_event_id crypto request.invocation_id sequence event_type;
  sequence = sequence;
  occurred_at = format occurred_at;
  event_type = event_type;
  status = status;
  invocation_id = request.invocation_id;
  root_task_id = request.root_task_id;
  parent_invocation_id = request.parent_invocation_id;
  trace_id = request.trace_id;
  caller = request.caller;
  workspace_id = request.workspace_id;
  target_agent_id = request.target_agent_id;
  agent_card_version = request.agent_card_version;
  agent_release_id = request.agent_release_id;
  agent_card_digest = request.agent_card_digest;
  capability = request.capability;
  chunk_index = none;
  chunk_bytes = none;
  latency_ms = none;
  error = none;
}
