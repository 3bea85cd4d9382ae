-- ===== src/Contracts/Examples.antt =====
-- Concrete histories and traces.
use ne_kiro.Prelude.{
  inl, inr, ◌≡◌, ◌↔◌, false, ◌≢◌, refl, true, none, some, List, [], ◌∷◌, arith, ok,
}
use ne_kiro.Prelude.Int.{pos, int_eq}
use ne_kiro.Prelude.Text.{Text, codes, text_eq, text_beq}
use ne_kiro.Registry.Instance.{lifecycle_eq}
use mathlib.Core.List.{reverse}
use ne_kiro.Prelude.Text.{is_alphanumeric, is_identifier_tail}
use ne_kiro.Contracts.Event.{is_safe_identifier}
use ne_kiro.Contracts.Sequence.{has_index}
use ne_kiro.Contracts.Stream.{
  StreamEventType-discrete, StreamEvent, StreamValidator, new_stream, accepted, chunk, completed,
  accept_stream_all, finish, accept_stream, stream_error, advance_stream, correlated,
  valid_stream_event, is_stream_terminal,
}
use ne_kiro.Contracts.Stream.Numbered.{ends_terminal, Streams, accept_stream_all-Streams}
use ne_kiro.Contracts.Lineage.{
  Versions, TraceResponse, validate_trace, nonempty_error, lineage_error, invocation_error,
  valid_record,
}
use ne_kiro.Contracts.Lineage.Parents.{IsLineage, validate_trace-IsLineage}
use ne_kiro.Contracts.Event.{
  Word-discrete, InvocationEvent, Schemas, same_context, valid_event, valid_provenance,
  error_correlated, valid_transition, is_terminal_status, created, pending, routing, running,
  timed_out,
}
use ne_kiro.Contracts.Sequence.{
  SequenceValidator, new_sequence, order_error, increment, accept_error, advance, accept,
  accept_all,
}
use ne_kiro.Contracts.Sequence.Lifecycle.{Continues, accept_all-Continues}
use mathlib.Core.List.{Perm}
use mathlib.Core.List.Perm
use ne_kiro.Contracts.Trace.Complete.{order_trace_projections_total}
use ne_kiro.Contracts.Trace.Ordered.{ParentsOlder}
use ne_kiro.Contracts.Trace.{InvocationRecord, order_trace_projections, may_emit, is_emitted}
use ne_kiro.Contracts.Trace.Ordered.{LineageOutcome, order_trace_projections-LineageOutcome}

abbrev some_schemas : Schemas
some_schemas = record { event_schema = λ e. true; to_lower = λ t. t }

abbrev pub first_event : InvocationEvent
first_event = record {
  schema_version = codes "0.3";
  event_id = codes "e0";
  sequence = pos 0;
  occurred_at = codes "2026-01-01T00:00:00Z";
  event_type = created;
  status = pending;
  invocation_id = codes "i";
  root_task_id = codes "r";
  parent_invocation_id = [];
  trace_id = codes "t";
  caller = record { caller_type = codes "user"; id = codes "u" };
  workspace_id = codes "w";
  target_agent_id = codes "a";
  agent_card_version = codes "1.0.0";
  agent_release_id = [];
  agent_card_digest = [];
  capability = codes "c";
  chunk_index = none;
  chunk_bytes = none;
  latency_ms = none;
  error = none;
}

abbrev second_event : InvocationEvent
second_event = record first_event { sequence = pos 1; event_type = routing; status = routing }

abbrev third_event : InvocationEvent
third_event = record first_event { sequence = pos 2; event_type = timed_out; status = timed_out }

abbrev history : List InvocationEvent
history = first_event ∷ second_event ∷ third_event ∷ []

abbrev history_end : SequenceValidator
history_end = record {
  last = some third_event;
  next_sequence = pos 3;
  next_chunk_index = pos 0;
  terminal = true;
}

history_accepted : accept_all some_schemas history new_sequence ≡ ok history_end
unfolding accept_all accept accept_error advance increment order_error valid_event valid_provenance
    error_correlated same_context valid_transition is_terminal_status Word-discrete text_beq
history_accepted = refl

accept_all-Continues_example : Continues 0 0 none history
accept_all-Continues_example =
    accept_all-Continues some_schemas history (omega arith) history_accepted

abbrev root : InvocationRecord
root = record {
  invocation_id = codes "i";
  root_task_id = codes "r";
  parent_invocation_id = [];
  trace_id = codes "t";
  caller = record { caller_type = codes "user"; id = codes "u" };
  workspace_id = codes "w";
  target_agent_id = codes "a";
  agent_card_version = codes "1.0.0";
  agent_release_id = [];
  agent_card_digest = [];
  capability = codes "c";
  status = running;
  latency_ms = none;
  error_code = [];
  created_at = pos 1;
  updated_at = pos 2;
}

abbrev child : InvocationRecord
child = record root { invocation_id = codes "j"; parent_invocation_id = codes "i" }

-- A child that is stored before its parent.
order_trace_projections-LineageOutcome_example :
    LineageOutcome (child ∷ root ∷ []) (order_trace_projections (child ∷ root ∷ []))
order_trace_projections-LineageOutcome_example =
    order_trace_projections-LineageOutcome (child ∷ root ∷ [])

child_last : order_trace_projections (child ∷ root ∷ []) ≡ ok (root ∷ child ∷ [])
unfolding order_trace_projections may_emit is_emitted text_beq
child_last = refl

abbrev opening : StreamEvent
opening = record {
  schema_version = codes "2";
  sequence = pos 0;
  event_type = accepted;
  status = codes "pending";
  invocation_id = codes "i";
  root_task_id = codes "r";
  trace_id = codes "t";
  chunk_index = none;
  chunk_json = none;
  error = none;
}

abbrev part : StreamEvent
part = record opening { sequence = pos 1; event_type = chunk; chunk_index = some (pos 0) }

abbrev ending : StreamEvent
ending = record opening { sequence = pos 2; event_type = completed }

abbrev a_stream : StreamValidator
a_stream = new_stream (codes "i") (codes "r") (codes "t")

abbrev stream_end : StreamValidator
stream_end = record a_stream { next_sequence = pos 3; next_chunk_index = pos 1; terminal = true }

stream_accepted :
    accept_stream_all (λ e. true) (opening ∷ part ∷ ending ∷ []) a_stream ≡ ok stream_end
unfolding accept_stream_all accept_stream stream_error advance_stream increment correlated
    valid_stream_event error_correlated is_stream_terminal StreamEventType-discrete has_index
    text_beq
stream_accepted = refl

accept_stream_all-Streams_example :
    Streams a_stream 0 0 (opening ∷ part ∷ ending ∷ [])
    × (((finish stream_end).1 ≡ none) ↔ (ends_terminal false (opening ∷ part ∷ ending ∷ []) ≡ true))
accept_stream_all-Streams_example =
    accept_stream_all-Streams (λ e. true) (codes "i") (codes "r") (codes "t")
      (opening ∷ part ∷ ending ∷ []) (omega arith) stream_accepted

abbrev some_versions : Versions
some_versions = record { strict_version = λ v. true }

abbrev a_response : TraceResponse
a_response = record { trace_id = codes "t"; invocations = root ∷ child ∷ [] }

response_accepted :
    validate_trace some_schemas some_versions (codes "w") (codes "t") a_response ≡ none
unfolding validate_trace nonempty_error lineage_error invocation_error valid_record valid_provenance
    is_safe_identifier is_alphanumeric is_identifier_tail is_emitted text_beq Word-discrete
    is_terminal_status
response_accepted = refl

validate_trace-IsLineage_example :
    (a_response.trace_id ≡ codes "t")
    × (a_response.invocations ≢ [])
    × ((task : Text) × IsLineage (codes "w") (codes "t") task (reverse a_response.invocations))
validate_trace-IsLineage_example =
    validate_trace-IsLineage some_schemas some_versions (codes "w") (codes "t") a_response
      response_accepted

order_trace_projections_total_example :
    (out : List InvocationRecord) × (order_trace_projections (child ∷ root ∷ []) ≡ ok out)
    × Perm out (child ∷ root ∷ [])
    × ParentsOlder (reverse out)
order_trace_projections_total_example =
    order_trace_projections_total (child ∷ root ∷ []) (child ∷ root ∷ [])
      (Perm.refl (child ∷ root ∷ [])) (inr (inl refl), (inl refl, tt))
