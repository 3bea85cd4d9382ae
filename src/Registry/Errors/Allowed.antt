-- ===== src/Registry/Errors/Allowed.antt =====
-- registry/errors.go: the error that `typedTerminal` gives a watch that ends.
use ne_kiro.Prelude.{◌≡◌, refl, inl, inr, true, Option, none, some, Bool-cases, Option-cases}
use ne_kiro.Registry.Errors.{
  Outcome, OutcomeCause, OutcomeError, GoError, valid_outcome, valid_outcome_cause,
  new_outcome_error, typed_terminal, as_outcome_error, outcome_eq, invalid,
  terminal_outcome_required,
}

pub record IsAllowed (e : OutcomeError) : Type 0 where
  pub outcome_known : valid_outcome e.outcome ≡ true
  pub cause_known : valid_outcome_cause e.outcome e.cause ≡ true
  pub nothing_wrapped : e.wrapped ≡ none

pub new_outcome_error-IsAllowed :
    (o : Outcome) (c : OutcomeCause) → IsAllowed (new_outcome_error o c)
unfolding new_outcome_error
new_outcome_error-IsAllowed o c = elim (Bool-cases (valid_outcome o)) [
  | inr h ↦ rw h (record {
    outcome_known = unfold valid_outcome in refl;
    cause_known = unfold valid_outcome_cause in refl;
    nothing_wrapped = refl;
  })
  | inl h ↦ elim (Bool-cases (valid_outcome_cause o c)) [
    | inr k ↦
        rw (h, k)
          (record {
            outcome_known = unfold valid_outcome in refl;
            cause_known = unfold valid_outcome_cause in refl;
            nothing_wrapped = refl;
          })
    | inl k ↦ rw (h, k) (record { outcome_known = h; cause_known = k; nothing_wrapped = refl })
  ]
]

-- Whatever error a provider ends a watch with, nil included, the error that is latched has a known
-- outcome, a cause that is allowed for it, and nothing wrapped.
pub typed_terminal-IsAllowed : (e : Option GoError) → IsAllowed (typed_terminal e)
unfolding typed_terminal
typed_terminal-IsAllowed none = record {
  outcome_known = unfold valid_outcome in refl;
  cause_known = unfold valid_outcome_cause in refl;
  nothing_wrapped = refl;
}
typed_terminal-IsAllowed (some e) = elim (Option-cases (as_outcome_error e)) [
  | inl h ↦ rw (h, typed_terminal) (new_outcome_error-IsAllowed invalid terminal_outcome_required)
  | inr (o, h) ↦ rw (h, typed_terminal) (new_outcome_error-IsAllowed o.outcome o.cause)
]
