-- ===== src/Registry/Errors.antt =====
-- registry/errors.go: typed outcomes with an allowlisted cause.
pub mod Allowed
pub mod Tree
use native.Mathlib.Decide.{ℕ_discrete}
use Prim.Native.String.{String}
use ne_kiro.Prelude.{
  Bool, true, false, not, ◌||◌, Option, none, some, Eq, ◌==◌, test, test_iff, if◌then◌else◌,
}
use ne_kiro.Prelude.Text.{Text}

-- A string type with named values; `other` is any further string.
pub data Outcome : Type 0 where
  missing invalid unauthorized unavailable stale watch_interrupted canceled closed : Outcome
  other : Text → Outcome

pub data OutcomeCause : Type 0 where
  no_cause invalid_input unknown_outcome unknown_cause terminal_outcome_required : OutcomeCause
  resource_version_expired delivery_overflow watch_event_too_large : OutcomeCause
  watch_event_invalid watch_status_error stream_eof http_unauthorized : OutcomeCause
  http_forbidden provider_unavailable rate_limited : OutcomeCause
  other_cause : Text → OutcomeCause

unfoldable pub Outcome-discrete : Discrete Outcome
Outcome-discrete = hlevel ℕ_discrete

instance abbrev pub outcome_eq : Eq Outcome
outcome_eq = record {
  beq = λ a b. test (Outcome-discrete a b);
  decides = λ a b. test_iff (Outcome-discrete a b);
}

-- What `ctx.Err()` returns.
pub data ContextError : Type 0 where
  context_canceled deadline_exceeded : ContextError

pub record OutcomeError : Type 0 where
  pub outcome : Outcome
  pub cause : OutcomeCause
  pub wrapped : Option ContextError

-- An `error` that is not nil: an outcome error, a typed nil pointer to one, an error with text that
-- wraps others (one for a `%w`, several for `errors.Join` and for several `%w`), or any other error.
-- What an outcome error wraps is never an outcome error.
mutual
  pub data GoError : Type 0 where
    outcome_error : OutcomeError → GoError
    nil_outcome_error : GoError
    wrapping : Text → GoErrors → GoError
    plain : Text → GoError

  pub data GoErrors : Type 0 where
    no_errors : GoErrors
    also : GoError → GoErrors → GoErrors

-- The sentinels `ErrMissing`, ..., `ErrClosed`.
abbrev pub sentinel : Outcome → OutcomeError
sentinel o = record { outcome = o; cause = no_cause; wrapped = none }

abbrev pub err_missing : OutcomeError
err_missing = sentinel missing

abbrev pub err_invalid : OutcomeError
err_invalid = sentinel invalid

abbrev pub err_closed : OutcomeError
err_closed = sentinel closed

unfoldable pub valid_outcome : Outcome → Bool
valid_outcome (other t) = false
valid_outcome _ = true

allowed_invalid : OutcomeCause → Bool
allowed_invalid no_cause = true
allowed_invalid invalid_input = true
allowed_invalid unknown_outcome = true
allowed_invalid unknown_cause = true
allowed_invalid terminal_outcome_required = true
allowed_invalid _ = false

allowed_unauthorized : OutcomeCause → Bool
allowed_unauthorized no_cause = true
allowed_unauthorized http_unauthorized = true
allowed_unauthorized http_forbidden = true
allowed_unauthorized _ = false

allowed_unavailable : OutcomeCause → Bool
allowed_unavailable no_cause = true
allowed_unavailable provider_unavailable = true
allowed_unavailable rate_limited = true
allowed_unavailable _ = false

allowed_stale : OutcomeCause → Bool
allowed_stale no_cause = true
allowed_stale resource_version_expired = true
allowed_stale _ = false

allowed_interrupted : OutcomeCause → Bool
allowed_interrupted no_cause = true
allowed_interrupted delivery_overflow = true
allowed_interrupted watch_event_too_large = true
allowed_interrupted watch_event_invalid = true
allowed_interrupted watch_status_error = true
allowed_interrupted stream_eof = true
allowed_interrupted _ = false

is_no_cause : OutcomeCause → Bool
is_no_cause no_cause = true
is_no_cause _ = false

unfoldable pub valid_outcome_cause : Outcome → OutcomeCause → Bool
unfolding allowed_invalid allowed_unauthorized allowed_unavailable allowed_stale allowed_interrupted
    is_no_cause
valid_outcome_cause invalid c = allowed_invalid c
valid_outcome_cause unauthorized c = allowed_unauthorized c
valid_outcome_cause unavailable c = allowed_unavailable c
valid_outcome_cause stale c = allowed_stale c
valid_outcome_cause watch_interrupted c = allowed_interrupted c
valid_outcome_cause missing c = is_no_cause c
valid_outcome_cause canceled c = is_no_cause c
valid_outcome_cause closed c = is_no_cause c
valid_outcome_cause (other t) c = false

unfoldable pub new_outcome_error : Outcome → OutcomeCause → OutcomeError
new_outcome_error o c =
    if not (valid_outcome o)
    then record { outcome = invalid; cause = unknown_outcome; wrapped = none }
    else if not (valid_outcome_cause o c)
    then record { outcome = invalid; cause = unknown_cause; wrapped = none }
    else record { outcome = o; cause = c; wrapped = none }

-- `ctxErr == nil` falls back to `context.Canceled`.
unfoldable pub new_canceled_error : Option ContextError → OutcomeError
new_canceled_error none = record {
  outcome = canceled;
  cause = no_cause;
  wrapped = some context_canceled;
}
new_canceled_error (some e) = record { outcome = canceled; cause = no_cause; wrapped = some e }

-- The name of the field is not kept.
abbrev pub new_invalid_error : String → OutcomeError
new_invalid_error field = record { outcome = invalid; cause = invalid_input; wrapped = none }

-- `errors.As` to a `*OutcomeError`: the first such pointer of the tree, in depth-first order, which
-- may be nil.
unfoldable mutual
  pub find_as : GoError → Option (Option OutcomeError)
  find_as (outcome_error e) = some (some e)
  find_as nil_outcome_error = some none
  find_as (wrapping t es) = find_as_any es
  find_as (plain t) = none

  pub find_as_any : GoErrors → Option (Option OutcomeError)
  find_as_any no_errors = none
  find_as_any (also e es) = elim (find_as e) [ none ↦ find_as_any es | some o ↦ some o ]

-- `errors.As`, and the test against a nil pointer.
unfoldable pub as_outcome_error : GoError → Option OutcomeError
unfolding find_as
as_outcome_error e = elim (find_as e) [ none ↦ none | some o ↦ o ]

unfoldable pub outcome_of : GoError → Option Outcome
unfolding as_outcome_error
outcome_of e = elim (as_outcome_error e) [ none ↦ none | some o ↦ some o.outcome ]

-- `errors.Is` against a sentinel: the method `Is` at the errors of the tree.
unfoldable mutual
  pub errors_is : GoError → OutcomeError → Bool
  errors_is (outcome_error e) target = e.outcome == target.outcome
  errors_is nil_outcome_error target = false
  errors_is (wrapping t es) target = errors_is_any es target
  errors_is (plain t) target = false

  pub errors_is_any : GoErrors → OutcomeError → Bool
  errors_is_any no_errors target = false
  errors_is_any (also e es) target = errors_is e target || errors_is_any es target

unfoldable pub is_outcome : GoError → Outcome → Bool
unfolding errors_is
is_outcome e o = if not (valid_outcome o) then false else errors_is e (sentinel o)

-- `none` is a nil error.
unfoldable pub typed_terminal : Option GoError → OutcomeError
unfolding as_outcome_error
typed_terminal none = err_closed
typed_terminal (some e) = elim (as_outcome_error e) [
  | none ↦ new_outcome_error invalid terminal_outcome_required
  | some o ↦ new_outcome_error o.outcome o.cause
]
