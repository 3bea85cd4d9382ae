-- ===== src/Contracts/Event.antt =====
-- contracts/runtime_contracts.go and runtime_contracts_validation.go: lifecycle events.
use native.Mathlib.Decide.{ℕ_discrete}
use ne_kiro.Prelude.{
  ℕ, all_of, test, test_iff, Bool, true, false, ◌&&◌, ◌||◌, Option, none, some, [], ◌∷◌, Eq, ◌==◌,
  if◌then◌else◌, is_empty, nat_eq, leb, length,
}
use ne_kiro.Prelude.Int.{ℤ, int_eq}
use ne_kiro.Prelude.Text.{is_alphanumeric, is_identifier_tail, Text, text_eq}
use ne_kiro.Registry.Target.{byte_length}
use ne_kiro.Registry.Instance.{lifecycle_eq}

-- The event types and statuses, which are strings that the source also compares with each other.
pub data Word : Type 0 where
  created pending routing started running stream succeeded failed canceled timed_out : Word
  other_word : Text → Word

unfoldable pub Word-discrete : Discrete Word
Word-discrete = hlevel ℕ_discrete

instance abbrev pub word_eq : Eq Word
word_eq = record {
  beq = λ a b. test (Word-discrete a b);
  decides = λ a b. test_iff (Word-discrete a b);
}

pub record Caller : Type 0 where
  pub caller_type : Text
  pub id : Text

-- PlatformErrorV4.
pub record PlatformError : Type 0 where
  pub code : Text
  pub message : Text
  pub trace_id : Text
  pub invocation_id : Text
  pub root_task_id : Text

-- InvocationEventV03.
pub record InvocationEvent : Type 0 where
  pub schema_version : Text
  pub event_id : Text
  pub sequence : ℤ
  pub occurred_at : Text
  pub event_type : Word
  pub status : Word
  pub invocation_id : Text
  pub root_task_id : Text
  pub parent_invocation_id : Text
  pub trace_id : Text
  pub caller : Caller
  pub workspace_id : Text
  pub target_agent_id : Text
  pub agent_card_version : Text
  pub agent_release_id : Text
  pub agent_card_digest : Text
  pub capability : Text
  pub chunk_index : Option ℤ
  pub chunk_bytes : Option ℤ
  pub latency_ms : Option ℤ
  pub error : Option PlatformError

-- What is used of other packages: the compiled JSON schema of an event, and `strings.ToLower`.
pub record Schemas : Type 0 where
  pub event_schema : InvocationEvent → Bool
  pub to_lower : Text → Text

-- `safeIdentifierPattern`, ^[A-Za-z0-9](?:[A-Za-z0-9._:-]{0,127})$
unfoldable pub is_safe_identifier : Text → Bool
unfolding is_alphanumeric is_identifier_tail
is_safe_identifier [] = false
is_safe_identifier (c ∷ cs) =
    is_alphanumeric c && leb (length cs) 127 && all_of is_identifier_tail cs

is_hex : ℕ → Bool
is_hex c = (leb b'0' c && leb c b'9') || (leb b'a' c && leb c b'f') || (leb b'A' c && leb c b'F')

-- `ValidateInvocationReleaseProvenance`; the decoding of 64 hexadecimal digits gives 32 bytes.
unfoldable pub valid_provenance : Schemas → Text → Text → Bool
unfolding is_hex
valid_provenance schemas release_id card_digest =
    if is_empty release_id
    then is_empty card_digest
    else if is_empty card_digest
    then false
    else is_safe_identifier release_id
      && nat_eq (byte_length card_digest) 64
      && card_digest == schemas.to_lower card_digest
      && all_of is_hex card_digest

-- `validateRuntimeNestedErrorCorrelation`.
unfoldable pub error_correlated : Text → Text → Text → Option PlatformError → Bool
error_correlated invocation_id root_task_id trace_id none = true
error_correlated invocation_id root_task_id trace_id (some e) =
    e.invocation_id == invocation_id && e.root_task_id == root_task_id && e.trace_id == trace_id

-- `ValidateInvocationEventV03`, true when it returns nil.
unfoldable pub valid_event : Schemas → InvocationEvent → Bool
unfolding valid_provenance error_correlated
valid_event schemas e =
    schemas.event_schema e
    && valid_provenance schemas e.agent_release_id e.agent_card_digest
    && error_correlated e.invocation_id e.root_task_id e.trace_id e.error

-- `sameRuntimeInvocationContext`.
unfoldable pub same_context : InvocationEvent → InvocationEvent → Bool
same_context left right =
    left.invocation_id == right.invocation_id
    && left.root_task_id == right.root_task_id
    && left.parent_invocation_id == right.parent_invocation_id
    && left.trace_id == right.trace_id
    && left.caller.caller_type == right.caller.caller_type
    && left.caller.id == right.caller.id
    && left.workspace_id == right.workspace_id
    && left.target_agent_id == right.target_agent_id
    && left.agent_card_version == right.agent_card_version
    && left.agent_release_id == right.agent_release_id
    && left.agent_card_digest == right.agent_card_digest
    && left.capability == right.capability

-- `validRuntimeTransition`, with `eventType == to` as the source has it.
unfoldable pub valid_transition : Word → Word → Word → Bool
valid_transition pending t to =
    (t == routing && to == routing) || ((t == canceled || t == timed_out) && t == to)
valid_transition routing t to =
    (t == started && to == running) || ((t == failed || t == canceled || t == timed_out) && t == to)
valid_transition running t to =
    (t == stream && to == running)
    || ((t == succeeded || t == failed || t == canceled || t == timed_out) && t == to)
valid_transition _ t to = false

-- `isRuntimeTerminalStatus`.
unfoldable pub is_terminal_status : Word → Bool
is_terminal_status succeeded = true
is_terminal_status failed = true
is_terminal_status canceled = true
is_terminal_status timed_out = true
is_terminal_status _ = false
