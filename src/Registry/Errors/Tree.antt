-- ===== src/Registry/Errors/Tree.antt =====
-- registry/errors.go: `OutcomeOf` and `IsOutcome` on a tree of wrapped and joined errors.
use ne_kiro.Prelude.{
  ◌≡◌, ◌∙◌, ◌↔◌, ◌⊎◌, refl, sym, inl, inr, Bool, true, false, ◌||◌, Option, none, some, List, [],
  ◌∷◌, ◌++◌, arith, ◌==◌, any_of, Bool-cases,
}
use ne_kiro.Registry.Errors.{
  Outcome, OutcomeError, GoError, GoErrors, outcome_error, nil_outcome_error, wrapping, plain,
  no_errors, also, valid_outcome, find_as, find_as_any, as_outcome_error, outcome_of, errors_is,
  errors_is_any, is_outcome, outcome_eq, sentinel,
}

-- The pointers to outcome errors in a tree, none for a nil one, in depth-first order.
unfoldable mutual
  pub outcome_errors : GoError → List (Option OutcomeError)
  outcome_errors (outcome_error e) = some e ∷ []
  outcome_errors nil_outcome_error = none ∷ []
  outcome_errors (wrapping t es) = outcome_errors_of es
  outcome_errors (plain t) = []

  pub outcome_errors_of : GoErrors → List (Option OutcomeError)
  outcome_errors_of no_errors = []
  outcome_errors_of (also e es) = outcome_errors e ++ outcome_errors_of es

-- The outcome of the first pointer, if it is not nil.
abbrev pub leading : List (Option OutcomeError) → Option Outcome
leading [] = none
leading (none ∷ os) = none
leading (some e ∷ os) = some e.outcome

-- One of the pointers is to an error with this outcome.
abbrev pub Carries : Outcome → List (Option OutcomeError) → Type 0
Carries o [] = ⊥
Carries o (none ∷ os) = Carries o os
Carries o (some e ∷ os) = (e.outcome ≡ o) ⊎ Carries o os

abbrev first : List (Option OutcomeError) → Option (Option OutcomeError)
first [] = none
first (o ∷ os) = some o

abbrev has_outcome : Outcome → Option OutcomeError → Bool
has_outcome o none = false
has_outcome o (some e) = e.outcome == o

first-append :
    (xs ys : List (Option OutcomeError))
    → first (xs ++ ys) ≡ (elim (first xs) [ none ↦ first ys | some o ↦ some o ])
first-append [] ys = refl
first-append (x ∷ xs) ys = refl

any_of-append {ℓ} :
    {A : Type ℓ} (p : A → Bool) (xs ys : List A)
    → any_of p (xs ++ ys) ≡ (any_of p xs || any_of p ys)
any_of-append p [] ys = refl
any_of-append p (x ∷ xs) ys = ground (arith, any_of-append p xs ys)

mutual
  unfolding find_as outcome_errors

  find_as-first : (e : GoError) → find_as e ≡ first (outcome_errors e)
  find_as-first (outcome_error e) = refl
  find_as-first nil_outcome_error = refl
  find_as-first (wrapping t es) = find_as_any-first es
  find_as-first (plain t) = refl

  find_as_any-first : (es : GoErrors) → find_as_any es ≡ first (outcome_errors_of es)
  find_as_any-first no_errors = refl
  find_as_any-first (also e es) =
      rw
        (
          first-append (outcome_errors e) (outcome_errors_of es),
          find_as-first e,
          find_as_any-first es,
        )
        refl

mutual
  unfolding errors_is outcome_errors

  errors_is-any_of :
      (e : GoError) (o : Outcome)
      → errors_is e (sentinel o) ≡ any_of (has_outcome o) (outcome_errors e)
  errors_is-any_of (outcome_error e) o = ground arith
  errors_is-any_of nil_outcome_error o = refl
  errors_is-any_of (wrapping t es) o = errors_is_any-any_of es o
  errors_is-any_of (plain t) o = refl

  errors_is_any-any_of :
      (es : GoErrors) (o : Outcome)
      → errors_is_any es (sentinel o) ≡ any_of (has_outcome o) (outcome_errors_of es)
  errors_is_any-any_of no_errors o = refl
  errors_is_any-any_of (also e es) o =
      rw
        (
          any_of-append (has_outcome o) (outcome_errors e) (outcome_errors_of es),
          errors_is-any_of e o,
          errors_is_any-any_of es o,
        )
        refl

any_of-Carries :
    (o : Outcome) (os : List (Option OutcomeError))
    → (any_of (has_outcome o) os ≡ true) ↔ Carries o os
any_of-Carries o [] = (λ h. absurd (cc h), λ c. absurd c)
any_of-Carries o (none ∷ os) = any_of-Carries o os
any_of-Carries o (some e ∷ os) = (
  λ h. elim (Bool-cases (e.outcome == o)) [
    | inl k ↦ inl ((outcome_eq.decides e.outcome o).0 k)
    | inr k ↦ inr ((any_of-Carries o os).0 (ground (arith, h, k)))
  ],
  λ c. elim c [
    | inl p ↦ ground (arith, (outcome_eq.decides e.outcome o).1 p)
    | inr m ↦ ground (arith, (any_of-Carries o os).1 m)
  ],
)

-- On every tree of wrapped and joined errors, `OutcomeOf` reports the outcome of the first pointer to
-- an outcome error in depth-first order, and nothing if there is none or it is nil; `IsOutcome` holds
-- of an outcome exactly when it is one of the eight and any pointer of the tree has it.
pub outcome_of-is_outcome :
    (e : GoError) (o : Outcome)
    → (outcome_of e ≡ leading (outcome_errors e))
      × ((is_outcome e o ≡ true) ↔ ((valid_outcome o ≡ true) × Carries o (outcome_errors e)))
unfolding outcome_of as_outcome_error is_outcome
outcome_of-is_outcome e o = (reported, (to, from))
  where
    in_list : (os : List (Option OutcomeError)) → find_as e ≡ first os → outcome_of e ≡ leading os
    in_list [] p = rw (p, outcome_of, as_outcome_error) refl
    in_list (none ∷ os) p = rw (p, outcome_of, as_outcome_error) refl
    in_list (some x ∷ os) p = rw (p, outcome_of, as_outcome_error) refl

    reported : outcome_of e ≡ leading (outcome_errors e)
    reported = in_list (outcome_errors e) (find_as-first e)

    to : is_outcome e o ≡ true → (valid_outcome o ≡ true) × Carries o (outcome_errors e)
    to h = (
      ground (arith, h),
      (any_of-Carries o (outcome_errors e)).0 (sym (errors_is-any_of e o) ∙ ground (arith, h)),
    )

    from : (valid_outcome o ≡ true) × Carries o (outcome_errors e) → is_outcome e o ≡ true
    from (v, c) =
        let found = errors_is-any_of e o ∙ (any_of-Carries o (outcome_errors e)).1 c in
        ground (arith, v, found)
