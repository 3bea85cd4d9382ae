-- ===== src/Catalog/Releases/Moves.antt =====
-- postgres/store.go of the catalog: what a step of a release needs of its version.
use ne_kiro.Prelude.{
  some_if-eq, ℕ, ◌≡◌, refl, subst, Bool, true, ◌||◌, Option, none, some, List, arith, ◌==◌,
}
use ne_kiro.Prelude.Text.{text_eq}
use ne_kiro.Catalog.Model.{
  PublicationStatus-discrete, ReleaseState, ReleaseState-discrete, publication_status_eq,
  release_state_eq, AgentRelease,
}
use ne_kiro.Catalog.Store.{VersionRow, published_row, disabled_row}
use ne_kiro.Catalog.Releases.{
  verified_with, next_release, verified_release, published_release, suspended_release,
  revoked_release,
}
use ne_kiro.Prelude.{Time}
use mathlib.Core.Option
use ne_kiro.Catalog.Releases.Backed.{backed_by}
use ne_kiro.Catalog.Releases.Versions.{step_change}

-- A step leaves the key and the card of a release, and backs the new row by the changed version.
pub record Follows (column : Time → Time) (at : Time) (target : ReleaseState) (sequence : ℕ)
    (r next : AgentRelease) : Type 0 where
  pub same_agent : next.agent_id ≡ r.agent_id
  pub same_version : next.agent_card_version ≡ r.agent_card_version
  pub still_backed :
      (row : Option VersionRow)
      → backed_by row (some r) ≡ true
      → backed_by (Option.map (step_change column at target sequence) row) (some next) ≡ true

verified-backed :
    (column : Time → Time) (at : Time) (evidence : List ℕ) (sequence : ℕ) (r : AgentRelease)
    (row : Option VersionRow)
    → backed_by row (some r) ≡ true
    → backed_by
        (Option.map (step_change column at ReleaseState.verified sequence) row)
        (some (verified_release (column at) evidence r))
      ≡ true
unfolding backed_by step_change verified_release published_row disabled_row ReleaseState-discrete
    PublicationStatus-discrete
verified-backed column at evidence sequence r none h = absurd (cc h)
verified-backed column at evidence sequence r (some row) h = ground (arith, h)

published-backed :
    (column : Time → Time) (at : Time) (sequence : ℕ) (r : AgentRelease) (row : Option VersionRow)
    → backed_by row (some r) ≡ true
    → backed_by
        (Option.map (step_change column at ReleaseState.published sequence) row)
        (some (published_release (column at) r))
      ≡ true
unfolding backed_by step_change published_release published_row disabled_row ReleaseState-discrete
    PublicationStatus-discrete
published-backed column at sequence r none h = absurd (cc h)
published-backed column at sequence r (some row) h = ground (arith, h)

suspended-backed :
    (column : Time → Time) (at : Time) (sequence : ℕ) (r : AgentRelease) (row : Option VersionRow)
    → backed_by row (some r) ≡ true
    → backed_by
        (Option.map (step_change column at ReleaseState.suspended sequence) row)
        (some (suspended_release (column at) r))
      ≡ true
unfolding backed_by step_change suspended_release published_row disabled_row ReleaseState-discrete
    PublicationStatus-discrete
suspended-backed column at sequence r none h = absurd (cc h)
suspended-backed column at sequence r (some row) h = ground (arith, h)

revoked-backed :
    (column : Time → Time) (at : Time) (sequence : ℕ) (r : AgentRelease) (row : Option VersionRow)
    → backed_by row (some r) ≡ true
    → backed_by
        (Option.map (step_change column at ReleaseState.revoked sequence) row)
        (some (revoked_release (column at) r))
      ≡ true
unfolding backed_by step_change revoked_release published_row disabled_row ReleaseState-discrete
    PublicationStatus-discrete
revoked-backed column at sequence r none h = absurd (cc h)
revoked-backed column at sequence r (some row) h = ground (arith, h)

verified_with-Follows :
    (column : Time → Time) (at : Time) (evidence : Option (List ℕ)) (is_pending : Bool)
    (sequence : ℕ) (r next : AgentRelease)
    → verified_with (column at) evidence is_pending r ≡ some next
    → Follows column at ReleaseState.verified sequence r next
unfolding verified_with verified_release
verified_with-Follows column at none is_pending sequence r next h = absurd (cc h)
verified_with-Follows column at (some evidence) is_pending sequence r next h =
    let moved = some_if-eq is_pending (verified_release (column at) evidence r) next h in
    subst (Follows column at ReleaseState.verified sequence r) moved.1 (record {
      same_agent = refl;
      same_version = refl;
      still_backed = verified-backed column at evidence sequence r;
    })

pub next_release-Follows :
    (column : Time → Time) (at : Time) (evidence : Option (List ℕ)) (current target : ReleaseState)
    (sequence : ℕ) (r next : AgentRelease)
    → next_release (column at) evidence current target r ≡ some next
    → Follows column at target sequence r next
unfolding next_release published_release suspended_release revoked_release
next_release-Follows column at evidence current ReleaseState.verified sequence r next h =
    verified_with-Follows column at evidence (current == ReleaseState.pending_verification) sequence
      r next h
next_release-Follows column at evidence current ReleaseState.published sequence r next h =
    let moved =
      some_if-eq (current == ReleaseState.verified) (published_release (column at) r) next h in
    subst (Follows column at ReleaseState.published sequence r) moved.1 (record {
      same_agent = refl;
      same_version = refl;
      still_backed = published-backed column at sequence r;
    })
next_release-Follows column at evidence current ReleaseState.suspended sequence r next h =
    let moved =
      some_if-eq (current == ReleaseState.verified || current == ReleaseState.published)
        (suspended_release (column at) r) next h in
    subst (Follows column at ReleaseState.suspended sequence r) moved.1 (record {
      same_agent = refl;
      same_version = refl;
      still_backed = suspended-backed column at sequence r;
    })
next_release-Follows column at evidence current ReleaseState.revoked sequence r next h =
    let moved =
      some_if-eq
        (current == ReleaseState.verified
          || current == ReleaseState.published
          || current == ReleaseState.suspended)
        (revoked_release (column at) r) next h in
    subst (Follows column at ReleaseState.revoked sequence r) moved.1 (record {
      same_agent = refl;
      same_version = refl;
      still_backed = revoked-backed column at sequence r;
    })
next_release-Follows column at evidence current ReleaseState.draft sequence r next h = absurd (cc h)
next_release-Follows column at evidence current ReleaseState.pending_verification sequence r next
      h =
    absurd (cc h)
next_release-Follows column at evidence current (ReleaseState.other_state t) sequence r next h =
    absurd (cc h)
