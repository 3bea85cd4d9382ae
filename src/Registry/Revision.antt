-- ===== src/Registry/Revision.antt =====
-- registry/model.go, revisions: opaque source tokens with an order local to one observation.
use ne_kiro.Prelude.{
  ℕ, Bool, not, ◌&&◌, Option, none, some, List, ◌or_else◌, reject_if, Result, ok, err, is_empty,
  first_error, same_elements, nat_eq,
}
use ne_kiro.Prelude.Text.{Text, text_beq}
use ne_kiro.Registry.Errors.{OutcomeError, new_invalid_error}
use ne_kiro.Registry.Target.{valid_exact_text}

-- Revision; RevisionInput has the same fields. `local_order` is a uint64.
pub record Revision : Type 0 where
  pub source_tokens : List Text
  pub local_order : ℕ

token_error : Text → Option OutcomeError
token_error t = reject_if (not (valid_exact_text t)) (new_invalid_error "revision_source_token")

unfoldable pub validate : Revision → Option OutcomeError
unfolding token_error
validate r =
    reject_if (is_empty r.source_tokens) (new_invalid_error "revision_source_tokens")
    or_else first_error token_error r.source_tokens

unfoldable pub new_revision : Revision → Result OutcomeError Revision
new_revision input = elim (validate input) [ none ↦ ok input | some e ↦ err e ]

unfoldable pub equal : Revision → Revision → Bool
equal r other =
    nat_eq r.local_order other.local_order
    && same_elements text_beq r.source_tokens other.source_tokens
