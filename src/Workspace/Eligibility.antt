-- ===== src/Workspace/Eligibility.antt =====
-- apps/control-plane/internal/workspace/service.go, the tests of a release and of permissions.
pub mod Gate
use ne_kiro.Prelude.{
  ℕ, zero, suc, ◌+◌, ◌-◌, ◌*◌, ◌/◌, ◌%◌, ◌^◌, ◌≤◌, ◌<◌, ◌≡◌, ◌≢◌, ◌↔◌, ◌⊎◌, ◌∙◌, refl, sym, ap,
  subst, inl, inr, Bool, true, false, not, ◌&&◌, ◌||◌, Option, none, some, List, [], ◌∷◌, ◌++◌, map,
  arith, Eq, ◌==◌, ==_refl, ==_false-ne, if◌then◌else◌, ◌or_else◌, reject_if, or_else-none,
  reject_if-none, Result, ok, err, ◌>>=◌, >>=-eq-ok, Result-cases, is_empty, nat_eq, leb, ltb,
  length, length-append, keep, All, all_of, any_of, first_error, Bool-cases, Option-cases, test,
  test_iff, same_elements,
}
use ne_kiro.Prelude.Text.{Text, codes, text_eq, text_beq, text_beq_iff, text_beq_self}
use ne_kiro.Workspace.Model.{
  WorkspaceError, not_found, forbidden, conflict, invalid, dependency_failed, agent_not_installed,
  installation_disabled, agent_disabled, release_unpublished, release_suspended, release_revoked,
  capability_not_allowed, InstallationStatus, enabled, disabled, uninstalled,
  installation_status_eq, WorkspaceRow, Installation, authorize, current_installation_status,
}
use ne_kiro.Catalog.Model.{
  PublicationStatus, ReleaseState, publication_status_eq, release_state_eq, CatalogError,
  AgentSkill, AgentCard, AgentRelease, AgentVersion,
}
use ne_kiro.Prelude.Text.{trim_space, text_lt}
use ne_kiro.Prelude.Sort.{sort}
use ne_kiro.Contracts.Event.{is_safe_identifier}
use ne_kiro.Catalog.Select.{Semver}

-- `mapCatalogError`.
unfoldable pub map_catalog_error : CatalogError → WorkspaceError
map_catalog_error CatalogError.invalid = invalid
map_catalog_error CatalogError.not_found = not_found
map_catalog_error CatalogError.release_suspended = release_suspended
map_catalog_error CatalogError.release_revoked = release_revoked
map_catalog_error CatalogError.release_unpublished = release_unpublished
map_catalog_error CatalogError.release_unavailable = release_unpublished
map_catalog_error CatalogError.conflict = conflict
map_catalog_error CatalogError.forbidden = forbidden
map_catalog_error _ = dependency_failed

unfoldable pub catalog_result : {A : Type 0} → Result CatalogError A → Result WorkspaceError A
unfolding map_catalog_error
catalog_result (ok a) = ok a
catalog_result (err e) = err (map_catalog_error e)

-- `releaseID`.
unfoldable pub release_id : Option AgentRelease → Text
release_id none = []
release_id (some release) = release.release_id

unfoldable pub legacy_eligibility : AgentVersion → Option WorkspaceError
legacy_eligibility version =
    reject_if (not (version.status == PublicationStatus.published)) agent_disabled
    or_else reject_if (not version.legacy_unverified) release_unpublished

unfoldable pub state_eligibility : AgentVersion → ReleaseState → Option WorkspaceError
state_eligibility version ReleaseState.published =
    reject_if (not (version.status == PublicationStatus.published)) dependency_failed
state_eligibility version ReleaseState.suspended = some release_suspended
state_eligibility version ReleaseState.revoked = some release_revoked
state_eligibility version _ = some release_unpublished

unfoldable pub release_eligibility :
    AgentVersion → Text → Option AgentRelease → Option WorkspaceError
unfolding state_eligibility
release_eligibility version installed none = some dependency_failed
release_eligibility version installed (some release) =
    reject_if
      (is_empty release.release_id
        || not (installed == release.release_id)
        || not (release.agent_id == version.card.agent_id)
        || not (release.agent_card_version == version.card.version)
        || not (text_beq release.card_digest version.card_digest))
      dependency_failed
    or_else state_eligibility version release.state

-- `validateReleaseEligibility`.
unfoldable pub validate_release_eligibility : AgentVersion → Text → Option WorkspaceError
unfolding legacy_eligibility release_eligibility
validate_release_eligibility version installed =
    if is_empty installed
    then legacy_eligibility version
    else release_eligibility version installed version.release

-- `hex.EncodeToString`.
unfoldable pub hex_digit : ℕ → ℕ
hex_digit n = if ltb n 10 then b'0' + n else b'a' + (n - 10)

unfoldable pub encode_to_string : List ℕ → Text
unfolding hex_digit
encode_to_string [] = []
encode_to_string (b ∷ bs) = hex_digit (b / 16) ∷ (hex_digit (b % 16) ∷ encode_to_string bs)

-- `releaseProvenance`; a version without a release passed the test only if none was installed.
unfoldable pub release_provenance : Option AgentRelease → Text → Text × Text
unfolding encode_to_string
release_provenance none installed = ([], [])
release_provenance (some release) installed =
    if is_empty installed
    then ([], [])
    else (release.release_id, encode_to_string release.card_digest)

unfoldable pub has : List Text → Text → Bool
has values value = any_of (text_beq value) values

-- `containsAll`.
unfoldable pub contains_all : List Text → List Text → Bool
unfolding has
contains_all accepted required = all_of (has accepted) required

unfoldable pub distinct_identifiers : List Text → Bool
unfolding has
distinct_identifiers [] = true
distinct_identifiers (value ∷ values) =
    is_safe_identifier value && not (has values value) && distinct_identifiers values

-- `validPermissionInput`; a nil slice is none.
unfoldable pub valid_permission_input : Option (List Text) → Bool
unfolding distinct_identifiers
valid_permission_input none = false
valid_permission_input (some values) = distinct_identifiers values

-- `validatePermissionSubset`.
unfoldable pub validate_permission_subset :
    AgentCard → List Text → Result WorkspaceError (List Text)
unfolding contains_all
validate_permission_subset card accepted =
    if contains_all card.permissions accepted then ok (sort text_lt accepted) else err invalid

-- `validConstraint`.
unfoldable pub valid_constraint : Semver → Text → Bool
valid_constraint sv value =
    not (is_empty (trim_space value))
    && elim (sv.new_constraint value) [ none ↦ false | some c ↦ true ]
