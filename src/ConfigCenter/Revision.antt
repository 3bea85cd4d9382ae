-- ===== src/ConfigCenter/Revision.antt =====
-- config_center/revision.go.
pub mod Successor
use ne_kiro.Prelude.{
  ℕ, zero, suc, ◌+◌, ◌-◌, ◌*◌, ◌/◌, ◌%◌, ◌^◌, ◌≤◌, ◌<◌, ◌≡◌, ◌≢◌, ◌↔◌, ◌⊎◌, ◌∙◌, refl, sym, ap,
  subst, inl, inr, Bool, true, false, not, ◌&&◌, ◌||◌, Option, none, some, List, [], ◌∷◌, ◌++◌, map,
  arith, Eq, ◌==◌, ==_refl, ==_false-ne, if◌then◌else◌, ◌or_else◌, reject_if, or_else-none,
  reject_if-none, Result, ok, err, ◌>>=◌, >>=-eq-ok, Result-cases, is_empty, nat_eq, leb, ltb,
  length, length-append, keep, All, all_of, any_of, first_error, Bool-cases, Option-cases, test,
  test_iff, same_elements,
}
use ne_kiro.Prelude.Text.{Text, codes, text_eq, text_beq, text_beq_iff, text_beq_self}
use ne_kiro.ConfigCenter.Key.{
  Code, invalid, unavailable, revision_duplicate, revision_stale, revision_gap,
  revision_out_of_order,
}

-- The scope is the identity of the allocated marker, none for a nil pointer; the order is a uint64.
pub record Revision : Type 0 where
  pub scope : Option ℕ
  pub order : ℕ

abbrev pub unscoped_revision : Revision
unscoped_revision = record { scope = none; order = 0 }

-- `NewObservationRevision`; the argument is the identity of the new marker.
unfoldable pub new_observation_revision : ℕ → Revision
new_observation_revision marker = record { scope = some marker; order = 0 }

unfoldable pub scoped : Revision → Bool
scoped revision = elim revision.scope [ none ↦ false | some marker ↦ true ]

abbrev pub max_uint64 : ℕ
max_uint64 = 2 ^ 64 - 1

-- `AdvanceRevision`.
unfoldable pub advance_revision : Revision → Result Code Revision
unfolding scoped
advance_revision revision =
    if not (scoped revision)
    then err revision_out_of_order
    else if nat_eq revision.order max_uint64
    then err unavailable
    else ok record { scope = revision.scope; order = (revision.order + 1) % 2 ^ 64 }

-- Pointers are equal, nil ones included.
unfoldable pub same_scope : Option ℕ → Option ℕ → Bool
same_scope none none = true
same_scope none (some b) = false
same_scope (some a) none = false
same_scope (some a) (some b) = nat_eq a b

-- `ValidateNextRevision`.
unfoldable pub validate_next_revision : Revision → Revision → Option Code
unfolding scoped same_scope
validate_next_revision previous candidate =
    reject_if
      (not (scoped previous)
        || not (scoped candidate)
        || not (same_scope previous.scope candidate.scope))
      revision_out_of_order
    or_else reject_if (nat_eq candidate.order previous.order) revision_duplicate
    or_else reject_if (ltb candidate.order previous.order) revision_stale
    or_else reject_if
        (nat_eq previous.order max_uint64
          || not (nat_eq candidate.order ((previous.order + 1) % 2 ^ 64)))
        revision_gap
