-- ===== src/Contracts/Sequence.antt =====
-- `RuntimeInvocationSequenceValidator` of contracts/runtime_contracts_validation.go.
pub mod Lifecycle
use native.Mathlib.Decide.{ℕ_discrete}
use ne_kiro.Prelude.{
  zero, ℕ, suc, ◌%◌, ◌^◌, all_of, test, test_iff, ◌+◌, ◌≤◌, ◌<◌, ◌≡◌, ◌≢◌, ◌↔◌, ◌⊎◌, refl, sym, ap,
  subst, inl, inr, Bool, true, false, not, ◌&&◌, ◌||◌, Option, none, some, List, [], ◌∷◌, ◌++◌,
  arith, Eq, ◌==◌, if◌then◌else◌, ◌or_else◌, reject_if, Result, ok, err, ◌>>=◌, is_empty, nat_eq,
  leb, ltb, length, keep, Bool-cases, Option-cases,
}
use ne_kiro.Prelude.Int.{ℤ, pos, negsuc, itoa, int_eq}
use ne_kiro.Prelude.Text.{is_alphanumeric, is_identifier_tail, Text, codes, text_eq}
use ne_kiro.Registry.Errors.{OutcomeError}
use ne_kiro.Registry.Url.{Url, Net}
use ne_kiro.Registry.Target
use ne_kiro.Registry.Target.{ReleaseTarget, byte_length, join_host_port, new_release_target}
use ne_kiro.Registry.Endpoint.{NetworkEndpoint, transport_protocol_tcp}
use ne_kiro.Registry.Instance.{Instance, ready, lifecycle_eq}
use ne_kiro.Registry.Snapshot
use ne_kiro.Registry.Snapshot.{InstanceSnapshot}
use ne_kiro.Contracts.Event.{
  Word, created, pending, stream, word_eq, InvocationEvent, Schemas, valid_event, same_context,
  valid_transition, is_terminal_status,
}

pub record SequenceValidator : Type 0 where
  pub last : Option InvocationEvent
  pub next_sequence : ℤ
  pub next_chunk_index : ℤ
  pub terminal : Bool

-- `NewRuntimeInvocationSequenceValidator`.
abbrev pub new_sequence : SequenceValidator
new_sequence = record {
  last = none;
  next_sequence = pos 0;
  next_chunk_index = pos 0;
  terminal = false;
}

pub data SequenceError : Type 0 where
  already_terminal invalid_event wrong_sequence wrong_beginning context_changed : SequenceError
  invalid_transition wrong_chunk_index : SequenceError

-- `n + 1` of an int64.
unfoldable pub increment : ℤ → ℤ
increment (pos n) = if nat_eq (suc n) (2 ^ 63) then negsuc n else pos (suc n)
increment (negsuc zero) = pos 0
increment (negsuc (suc n)) = negsuc n

unfoldable pub order_error : Option InvocationEvent → InvocationEvent → Option SequenceError
order_error none e =
    reject_if (not (e.event_type == created) || not (e.status == pending)) wrong_beginning
order_error (some last) e =
    reject_if (not (same_context last e)) context_changed
    or_else reject_if (not (valid_transition last.status e.event_type e.status)) invalid_transition

unfoldable pub has_index : ℤ → Option ℤ → Bool
has_index n none = false
has_index n (some i) = i == n

-- The checks of `Accept`; nothing is changed before the last of them.
unfoldable pub accept_error : Schemas → InvocationEvent → SequenceValidator → Option SequenceError
accept_error schemas e v =
    reject_if v.terminal already_terminal
    or_else reject_if (not (valid_event schemas e)) invalid_event
    or_else reject_if (not (e.sequence == v.next_sequence)) wrong_sequence
    or_else order_error v.last e
    or_else reject_if (e.event_type == stream && not (has_index v.next_chunk_index e.chunk_index))
        wrong_chunk_index

-- The assignments of `Accept`.
unfoldable pub advance : InvocationEvent → SequenceValidator → SequenceValidator
unfolding increment
advance e v = record {
  last = some e;
  next_sequence = increment v.next_sequence;
  next_chunk_index =
      if e.event_type == stream then increment v.next_chunk_index else v.next_chunk_index;
  terminal = is_terminal_status e.status;
}

-- `Accept`.
unfoldable pub accept :
    Schemas → InvocationEvent → SequenceValidator → Result SequenceError SequenceValidator
accept schemas e v = elim (accept_error schemas e v) [ none ↦ ok (advance e v) | some x ↦ err x ]

-- `Accept` on the events of a history in turn.
unfoldable pub accept_all :
    Schemas → List InvocationEvent → SequenceValidator → Result SequenceError SequenceValidator
accept_all schemas [] v = ok v
accept_all schemas (e ∷ es) v = accept schemas e v >>= (λ w. accept_all schemas es w)
