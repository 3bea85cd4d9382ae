-- ===== src/Contracts/Stream.antt =====
-- `RuntimeResultStreamSequenceValidator` of contracts/runtime_contracts_validation.go.
pub mod Numbered
use native.Mathlib.Decide.{ℕ_discrete}
use ne_kiro.Prelude.{
  ℕ, suc, ◌%◌, ◌^◌, ◌∙◌, or_else-none, reject_if-none, test, test_iff, ◌+◌, ◌≤◌, ◌<◌, ◌≡◌, ◌≢◌, ◌↔◌,
  ◌⊎◌, refl, sym, ap, subst, inl, inr, Bool, true, false, not, ◌&&◌, ◌||◌, Option, none, some, List,
  [], ◌∷◌, ◌++◌, arith, Eq, ◌==◌, if◌then◌else◌, ◌or_else◌, reject_if, Result, ok, err, ◌>>=◌,
  is_empty, nat_eq, leb, ltb, length, keep, Bool-cases, Option-cases,
}
use ne_kiro.Prelude.Int.{ℤ, pos, int_eq, int_lt, int_beq}
use ne_kiro.Prelude.Text.{Text, codes, text_eq}
use ne_kiro.Registry.Errors.{OutcomeError}
use ne_kiro.Registry.Url.{Url, Net}
use ne_kiro.Registry.Target
use ne_kiro.Registry.Target.{ReleaseTarget, join_host_port, new_release_target}
use ne_kiro.Registry.Endpoint.{NetworkEndpoint, transport_protocol_tcp}
use ne_kiro.Registry.Instance.{Instance, ready, lifecycle_eq}
use ne_kiro.Registry.Snapshot
use ne_kiro.Registry.Snapshot.{InstanceSnapshot}
use ne_kiro.Contracts.Event.{PlatformError, error_correlated}
use ne_kiro.Contracts.Sequence.{has_index, increment}

-- ResultStreamEventType, a string type with named values.
pub data StreamEventType : Type 0 where
  accepted chunk completed failed canceled timed_out : StreamEventType
  other_event : Text → StreamEventType

unfoldable pub StreamEventType-discrete : Discrete StreamEventType
StreamEventType-discrete = hlevel ℕ_discrete

instance abbrev pub stream_event_type_eq : Eq StreamEventType
stream_event_type_eq = record {
  beq = λ a b. test (StreamEventType-discrete a b);
  decides = λ a b. test_iff (StreamEventType-discrete a b);
}

-- InvocationResultStreamEventV2; the chunk is a JSON text.
pub record StreamEvent : Type 0 where
  pub schema_version : Text
  pub sequence : ℤ
  pub event_type : StreamEventType
  pub status : Text
  pub invocation_id : Text
  pub root_task_id : Text
  pub trace_id : Text
  pub chunk_index : Option ℤ
  pub chunk_json : Option Text
  pub error : Option PlatformError

pub record StreamValidator : Type 0 where
  pub invocation_id : Text
  pub root_task_id : Text
  pub trace_id : Text
  pub next_sequence : ℤ
  pub next_chunk_index : ℤ
  pub terminal : Bool
  pub closed : Bool

abbrev pub new_stream : Text → Text → Text → StreamValidator
new_stream invocation_id root_task_id trace_id = record {
  invocation_id = invocation_id;
  root_task_id = root_task_id;
  trace_id = trace_id;
  next_sequence = pos 0;
  next_chunk_index = pos 0;
  terminal = false;
  closed = false;
}

pub data StreamError : Type 0 where
  stream_closed stream_terminal invalid_stream_event correlation_changed : StreamError
  wrong_stream_sequence accepted_missing accepted_repeated : StreamError
  wrong_stream_chunk stream_interrupted : StreamError

-- `isResultStreamTerminal`.
unfoldable pub is_stream_terminal : StreamEventType → Bool
is_stream_terminal completed = true
is_stream_terminal failed = true
is_stream_terminal canceled = true
is_stream_terminal timed_out = true
is_stream_terminal _ = false

-- `ValidateInvocationResultStreamEventV2`, past the JSON schema.
unfoldable pub valid_stream_event : (StreamEvent → Bool) → StreamEvent → Bool
valid_stream_event schema e =
    schema e && error_correlated e.invocation_id e.root_task_id e.trace_id e.error

unfoldable pub correlated : StreamValidator → StreamEvent → Bool
correlated v e =
    e.invocation_id == v.invocation_id
    && e.root_task_id == v.root_task_id
    && e.trace_id == v.trace_id

-- The checks of `Accept`.
unfoldable pub stream_error :
    (StreamEvent → Bool) → StreamEvent → StreamValidator → Option StreamError
stream_error schema e v =
    reject_if v.closed stream_closed
    or_else reject_if v.terminal stream_terminal
    or_else reject_if (not (valid_stream_event schema e)) invalid_stream_event
    or_else reject_if (not (correlated v e)) correlation_changed
    or_else reject_if (not (e.sequence == v.next_sequence)) wrong_stream_sequence
    or_else reject_if (v.next_sequence == pos 0 && not (e.event_type == accepted)) accepted_missing
    or_else reject_if (int_lt (pos 0) v.next_sequence && e.event_type == accepted) accepted_repeated
    or_else reject_if (e.event_type == chunk && not (has_index v.next_chunk_index e.chunk_index))
        wrong_stream_chunk

-- The assignments of `Accept`.
unfoldable pub advance_stream : StreamEvent → StreamValidator → StreamValidator
advance_stream e v = record v {
  next_sequence = increment v.next_sequence;
  next_chunk_index =
      if e.event_type == chunk then increment v.next_chunk_index else v.next_chunk_index;
  terminal = is_stream_terminal e.event_type;
}

unfoldable pub accept_stream :
    (StreamEvent → Bool) → StreamEvent → StreamValidator → Result StreamError StreamValidator
accept_stream schema e v = elim (stream_error schema e v) [
  | none ↦ ok (advance_stream e v)
  | some x ↦ err x
]

-- `Accept` on the events of a stream in turn.
unfoldable pub accept_stream_all :
    (StreamEvent → Bool) → List StreamEvent → StreamValidator → Result StreamError StreamValidator
accept_stream_all schema [] v = ok v
accept_stream_all schema (e ∷ es) v =
    accept_stream schema e v >>= (λ w. accept_stream_all schema es w)

unfoldable pub finish_when : Bool → StreamValidator → StreamValidator × Option StreamError
finish_when true v = (v, some stream_closed)
finish_when false v = (record v { closed = true }, reject_if (not v.terminal) stream_interrupted)

-- `Finish`.
unfoldable pub finish : StreamValidator → StreamValidator × Option StreamError
unfolding finish_when
finish v = finish_when v.closed v
