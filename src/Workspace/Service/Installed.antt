-- ===== src/Workspace/Service/Installed.antt =====
-- service.go of the workspace: what a successful `Install` has prepared.
use ne_kiro.Prelude.{
  ◌≡◌, ◌∙◌, refl, sym, ap, subst, inl, inr, Bool, true, false, Option, none, List, Result, ok, err,
  >>=-eq-ok, Bool-cases,
}
use ne_kiro.Prelude.Text.{Text, text_eq}
use ne_kiro.Workspace.Model.{installation_status_eq, WorkspaceRow, Installation, authorize}
use ne_kiro.Catalog.Model.{
  publication_status_eq, release_state_eq, CatalogError, AgentCard, AgentVersion,
}
use ne_kiro.Prelude.{unless_error, Time, unless_error-ok}
use ne_kiro.Workspace.Eligibility.{
  catalog_result, release_id, validate_release_eligibility, contains_all,
  validate_permission_subset,
}
use ne_kiro.Workspace.Store.{Tables}
use ne_kiro.Workspace.Authorize.{CatalogReader, owned_workspace, read_workspace}
use ne_kiro.Workspace.Service.{
  validated, Validator, InstallAgentRequest, valid_install_request, require_valid, accepted_of,
  no_current, eligible_selection, generated, new_installation, prepare_installation,
}
use ne_kiro.Prelude.Text.{text_lt}
use ne_kiro.Prelude.Sort.{sort}
use ne_kiro.Catalog.Select.{Semver}
use ne_kiro.Workspace.Authorize.Owned.{authorize-none}

pub record Prepared (sv : Semver) (catalog : CatalogReader) (caller workspace_id : Text)
    (request : InstallAgentRequest) (now : Time) (seen : Tables) (i : Installation) : Type 0 where
  pub valid : valid_install_request sv caller workspace_id request ≡ true
  pub caller_named : authorize caller caller ≡ none
  pub version : AgentVersion
  pub selected : catalog.select_installable request.agent_id request.version_constraint ≡ ok version
  pub eligible : validate_release_eligibility version (release_id version.release) ≡ none
  pub declared : contains_all version.card.permissions (accepted_of request) ≡ true
  pub id : Text
  pub is_installation :
      i ≡ new_installation id workspace_id request version (sort text_lt (accepted_of request)) now

require_valid-ok : (b : Bool) (u : Unit {0}) → require_valid b ≡ ok u → b ≡ true
unfolding require_valid
require_valid-ok true u h = refl
require_valid-ok false u h = absurd (cc h)

catalog_result-ok :
    (r : Result CatalogError AgentVersion) (v : AgentVersion) → catalog_result r ≡ ok v → r ≡ ok v
unfolding catalog_result
catalog_result-ok (ok w) v h = ap ok (cc h)
catalog_result-ok (err e) v h = absurd (cc h)

eligible_selection-ok :
    (r : Result CatalogError AgentVersion) (v : AgentVersion)
    → eligible_selection r ≡ ok v
    → (r ≡ ok v) × (validate_release_eligibility v (release_id v.release) ≡ none)
unfolding eligible_selection
eligible_selection-ok r v h =
    let tested = λ (w : AgentVersion).
      unless_error (validate_release_eligibility w (release_id w.release)) (ok w) in
    let step = >>=-eq-ok (catalog_result r) tested h in
    let passed =
      unless_error-ok (validate_release_eligibility step.0 (release_id step.0.release)) (ok step.0)
        v step.2 in
    let same : step.0 ≡ v = cc passed.1 in
    (
      catalog_result-ok r v (step.1 ∙ ap ok same),
      subst (λ w. validate_release_eligibility w (release_id w.release) ≡ none) same passed.0,
    )

validate_permission_subset-ok :
    (card : AgentCard) (accepted permissions : List Text)
    → validate_permission_subset card accepted ≡ ok permissions
    → (contains_all card.permissions accepted ≡ true) × (permissions ≡ sort text_lt accepted)
unfolding validate_permission_subset
validate_permission_subset-ok card accepted permissions h =
    elim (Bool-cases (contains_all card.permissions accepted)) [
      | inl e ↦ (e, cc (rw (e, validate_permission_subset) at h))
      | inr e ↦ absurd (cc (e, rw (e, validate_permission_subset) at h))
    ]

validated-ok : (b : Bool) (i j : Installation) → validated b i ≡ ok j → j ≡ i
unfolding validated
validated-ok true i j h = sym (cc h)
validated-ok false i j h = absurd (cc h)

pub owned_workspace-authorized :
    (sent : Bool) (caller workspace_id : Text) (db : Tables) (w : WorkspaceRow)
    → owned_workspace sent caller workspace_id db ≡ ok w
    → authorize caller caller ≡ none
unfolding owned_workspace
owned_workspace-authorized sent caller workspace_id db w h =
    let step = >>=-eq-ok (read_workspace sent workspace_id db) _ h in
    let own = unless_error-ok (authorize step.0.owner_id caller) (ok step.0) w step.2 in
    subst (λ o. authorize o caller ≡ none) (authorize-none step.0.owner_id caller own.0) own.0

pub prepare_installation-Prepared :
    (sv : Semver) (catalog : CatalogReader) (validator : Validator) (sent read : Bool)
    (new_id : Option Text) (caller workspace_id : Text) (request : InstallAgentRequest) (now : Time)
    (seen : Tables) (i : Installation)
    → prepare_installation sv catalog validator sent read new_id caller workspace_id request now
        seen
      ≡ ok i
    → Prepared sv catalog caller workspace_id request now seen i
unfolding prepare_installation
prepare_installation-Prepared sv catalog validator sent read new_id caller workspace_id request now
      seen i h =
    let s1 = >>=-eq-ok (require_valid (valid_install_request sv caller workspace_id request)) _ h in
    let s2 = >>=-eq-ok (owned_workspace sent caller workspace_id seen) _ s1.2 in
    let s3 = >>=-eq-ok (no_current read workspace_id request.agent_id seen) _ s2.2 in
    let s4 =
      >>=-eq-ok
        (eligible_selection
          (catalog.select_installable request.agent_id request.version_constraint))
        _ s3.2 in
    let s5 = >>=-eq-ok (validate_permission_subset s4.0.card (accepted_of request)) _ s4.2 in
    let s6 = >>=-eq-ok (generated new_id) _ s5.2 in
    let selected =
      eligible_selection-ok (catalog.select_installable request.agent_id request.version_constraint)
        s4.0 s4.1 in
    let permissions = validate_permission_subset-ok s4.0.card (accepted_of request) s5.0 s5.1 in
    let made = new_installation s6.0 workspace_id request s4.0 s5.0 now in
    record {
      valid = require_valid-ok (valid_install_request sv caller workspace_id request) s1.0 s1.1;
      caller_named = owned_workspace-authorized sent caller workspace_id seen s2.0 s2.1;
      version = s4.0;
      selected = selected.0;
      eligible = selected.1;
      declared = permissions.0;
      id = s6.0;
      is_installation =
          validated-ok (validator.validate_installation made) made i s6.2
          ∙ ap (λ ps. new_installation s6.0 workspace_id request s4.0 ps now) permissions.1;
    }
