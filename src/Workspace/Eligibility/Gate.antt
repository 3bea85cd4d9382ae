-- ===== src/Workspace/Eligibility/Gate.antt =====
-- service.go of the workspace and of the catalog: their two tests of a release.
use ne_kiro.Prelude.{
  or_else-none, reject_if, not, ◌≡◌, not, Option, none, some, arith, if◌then◌else◌, reject_if,
  or_else-none, is_empty,
}
use ne_kiro.Prelude.Text.{text_eq, text_beq_self}
use ne_kiro.Workspace.Model.{installation_status_eq}
use ne_kiro.Catalog.Model.{
  ReleaseState, publication_status_eq, release_state_eq, CatalogError, AgentRelease, AgentVersion,
}
use ne_kiro.Workspace.Eligibility.{
  release_id, validate_release_eligibility, state_eligibility, legacy_eligibility,
  release_eligibility,
}
use ne_kiro.Catalog.Select.{
  installability_error, release_installability, state_installability, release_matches,
}

state-agrees :
    (v : AgentVersion) (s : ReleaseState)
    → state_installability v s ≡ none
    → state_eligibility v s ≡ none
unfolding state_installability state_eligibility
state-agrees v ReleaseState.published h = ground (arith, h)
state-agrees v ReleaseState.suspended h = absurd (cc h)
state-agrees v ReleaseState.revoked h = absurd (cc h)
state-agrees v ReleaseState.draft h = absurd (cc h)
state-agrees v ReleaseState.pending_verification h = absurd (cc h)
state-agrees v ReleaseState.verified h = absurd (cc h)
state-agrees v (ReleaseState.other_state t) h = absurd (cc h)

release-agrees :
    (v : AgentVersion) (r : Option AgentRelease)
    → release_installability v r ≡ none
    → (if is_empty (release_id r)
        then legacy_eligibility v
        else release_eligibility v (release_id r) r)
      ≡ none
unfolding release_installability release_id legacy_eligibility release_eligibility release_matches
release-agrees v none h = ground (arith, h)
release-agrees v (some r) h =
    let parts =
      or_else-none (reject_if (not (release_matches v r)) CatalogError.dependency_failed)
        (state_installability v r.state) h in
    let state = state-agrees v r.state parts.1 in
    let same = text_beq_self r.release_id in ground (arith, parts.0, state, same)

-- A version that `SelectInstallable` lets pass is eligible with its own release.
pub installability_error-eligibility :
    (v : AgentVersion)
    → installability_error v ≡ none
    → validate_release_eligibility v (release_id v.release) ≡ none
unfolding installability_error validate_release_eligibility
installability_error-eligibility v h = release-agrees v v.release h
