-- ===== src/ConfigCenter/Revision/Successor.antt =====
-- revision.go: the revision that follows another.
use ne_kiro.Prelude.{
  Option, ℕ, none, some, nat_eq, Bool-cases, inl, inr, subst, refl, arith, ◌+◌, ◌%◌, ℕ, ◌+◌, ◌%◌,
  ◌^◌, ◌<◌, ◌≡◌, ◌↔◌, refl, subst, inl, inr, false, Option, none, some, arith, ok, nat_eq,
  Bool-cases,
}
use ne_kiro.Prelude.Text.{text_eq}
use ne_kiro.ConfigCenter.Revision.{
  max_uint64, scoped, same_scope, Revision, advance_revision, validate_next_revision, scoped,
  same_scope, max_uint64,
}

abbrev at : Option ℕ → ℕ → Revision
at s o = record { scope = s; order = o }

valid-advanced :
    (s t : Option ℕ) (o c : ℕ)
    → validate_next_revision (at s o) (at t c) ≡ none
    → advance_revision (at s o) ≡ ok (at t c)
unfolding validate_next_revision advance_revision scoped same_scope
valid-advanced none t o c h = absurd (cc h)
valid-advanced (some a) none o c h = absurd (cc h)
valid-advanced (some a) (some b) o c h =
    let same : a ≡ b = ground (arith, h) in
    let next : c ≡ (o + 1) % 2 ^ 64 = ground (arith, h) in
    let room : nat_eq o max_uint64 ≡ false = ground (arith, h) in rw (room, same, next) refl

advanced-valid :
    (s t : Option ℕ) (o c : ℕ)
    → o < 2 ^ 64
    → advance_revision (at s o) ≡ ok (at t c)
    → validate_next_revision (at s o) (at t c) ≡ none
unfolding validate_next_revision advance_revision scoped same_scope
advanced-valid none t o c l h = absurd (cc h)
advanced-valid (some a) t o c l h = elim (Bool-cases (nat_eq o max_uint64)) [
  | inl e ↦ absurd (cc (e, rw (e, advance_revision) at h))
  | inr e ↦
      let same : at (some a) ((o + 1) % 2 ^ 64) ≡ at t c = cc (rw (e, advance_revision) at h) in
      subst (λ q. validate_next_revision (at (some a) o) q ≡ none) same (ground (arith, e, l))
]

-- For a revision whose order is a uint64, a candidate passes `ValidateNextRevision` exactly when
-- `AdvanceRevision` returns it.
pub advance_revision-validate_next_revision :
    (previous candidate : Revision)
    → previous.order < 2 ^ 64
    → (validate_next_revision previous candidate ≡ none)
      ↔ (advance_revision previous ≡ ok candidate)
advance_revision-validate_next_revision previous candidate b = (
  valid-advanced previous.scope candidate.scope previous.order candidate.order,
  advanced-valid previous.scope candidate.scope previous.order candidate.order b,
)
