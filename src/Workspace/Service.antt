-- ===== src/Workspace/Service.antt =====
-- apps/control-plane/internal/workspace/service.go, the operations of an owner.
--
-- The schema validators of contracts/validate.go are parameters.
pub mod Installed
pub mod Invocable
use ne_kiro.Prelude.{
  ℕ, zero, suc, ◌+◌, ◌-◌, ◌*◌, ◌/◌, ◌%◌, ◌^◌, ◌≤◌, ◌<◌, ◌≡◌, ◌≢◌, ◌↔◌, ◌⊎◌, ◌∙◌, refl, sym, ap,
  subst, inl, inr, Bool, true, false, not, ◌&&◌, ◌||◌, Option, none, some, List, [], ◌∷◌, ◌++◌, map,
  arith, Eq, ◌==◌, ==_refl, ==_false-ne, if◌then◌else◌, ◌or_else◌, reject_if, or_else-none,
  reject_if-none, Result, ok, err, ◌>>=◌, >>=-eq-ok, Result-cases, is_empty, nat_eq, leb, ltb,
  length, length-append, keep, All, all_of, any_of, first_error, Bool-cases, Option-cases, test,
  test_iff, same_elements,
}
use ne_kiro.Prelude.Text.{Text, codes, text_eq, text_beq, text_beq_iff, text_beq_self}
use ne_kiro.Workspace.Model.{
  WorkspaceError, not_found, forbidden, conflict, invalid, dependency_failed, agent_not_installed,
  installation_disabled, agent_disabled, release_unpublished, release_suspended, release_revoked,
  capability_not_allowed, InstallationStatus, enabled, disabled, uninstalled,
  installation_status_eq, WorkspaceRow, Installation, authorize, current_installation_status,
}
use ne_kiro.Catalog.Model.{
  PublicationStatus, ReleaseState, publication_status_eq, release_state_eq, CatalogError,
  AgentSkill, AgentCard, AgentRelease, AgentVersion,
}
use ne_kiro.Prelude.{unless_error, Time}
use ne_kiro.Workspace.Eligibility.{
  catalog_result, release_id, validate_release_eligibility, release_provenance, contains_all,
  valid_permission_input, validate_permission_subset, valid_constraint,
}
use ne_kiro.Workspace.Store.{
  Timestamps, Tables, find_workspace, get_current, get_installation, has_current, create_workspace,
  create_installation, change_status, uninstall_installation,
}
use ne_kiro.Contracts.Event.{is_safe_identifier}
use ne_kiro.Catalog.Select.{Semver}
use ne_kiro.Workspace.Authorize.{CatalogReader, owned_workspace}

pub record Validator : Type 0 where
  pub validate_workspace : WorkspaceRow → Bool
  pub validate_installation : Installation → Bool

-- `InstallAgentRequest`.
pub record InstallAgentRequest : Type 0 where
  pub agent_id : Text
  pub version_constraint : Text
  pub accepted_permissions : Option (List Text)

-- `CreateWorkspace`.
unfoldable pub create_owned_workspace :
    Validator
    → Timestamps
    → Bool
    → Text
    → Text
    → Time
    → Tables
    → Tables × Result WorkspaceError WorkspaceRow
create_owned_workspace validator ts sent caller workspace_id now db =
    let value : WorkspaceRow = record {
      workspace_id = workspace_id;
      owner_id = caller;
      created_at = now;
      updated_at = now;
    } in
    let created = create_workspace ts sent value db in
    if not (is_safe_identifier workspace_id) || is_empty caller || not (is_safe_identifier caller)
    then (db, err invalid)
    else if validator.validate_workspace value
    then created
    else (db, err invalid)

unfoldable pub valid_install_request : Semver → Text → Text → InstallAgentRequest → Bool
valid_install_request sv caller workspace_id request =
    is_safe_identifier workspace_id
    && is_safe_identifier caller
    && is_safe_identifier request.agent_id
    && valid_constraint sv request.version_constraint
    && valid_permission_input request.accepted_permissions

unfoldable pub require_valid : Bool → Result WorkspaceError (Unit {0})
require_valid valid = if valid then ok tt else err invalid

unfoldable pub accepted_of : InstallAgentRequest → List Text
accepted_of request = elim request.accepted_permissions [ none ↦ [] | some values ↦ values ]

unfoldable pub no_current : Bool → Text → Text → Tables → Result WorkspaceError (Unit {0})
no_current false workspace_id agent_id db = err dependency_failed
no_current true workspace_id agent_id db =
    if has_current workspace_id agent_id db.installations then err conflict else ok tt

unfoldable pub eligible_selection :
    Result CatalogError AgentVersion → Result WorkspaceError AgentVersion
eligible_selection selected = do
  version ← catalog_result selected
  unless_error (validate_release_eligibility version (release_id version.release)) (ok version)

-- An identifier that could not be generated is none.
unfoldable pub generated : Option Text → Result WorkspaceError Text
generated none = err dependency_failed
generated (some id) = if is_safe_identifier id then ok id else err dependency_failed

unfoldable pub new_installation :
    Text → Text → InstallAgentRequest → AgentVersion → List Text → Time → Installation
new_installation id workspace_id request version permissions now = record {
  installation_id = id;
  workspace_id = workspace_id;
  agent_id = request.agent_id;
  version_constraint = request.version_constraint;
  installed_version = version.card.version;
  installed_release_id = release_id version.release;
  accepted_permissions = permissions;
  status = enabled;
  installed_at = now;
  updated_at = now;
  uninstalled_at = none;
}

unfoldable pub validated : Bool → Installation → Result WorkspaceError Installation
validated valid installation = if valid then ok installation else err invalid

-- `Install` up to the write; `sent` and `read` tell whether its two reads reach the database.
unfoldable pub prepare_installation :
    Semver
    → CatalogReader
    → Validator
    → Bool
    → Bool
    → Option Text
    → Text
    → Text
    → InstallAgentRequest
    → Time
    → Tables
    → Result WorkspaceError Installation
unfolding validated require_valid valid_install_request no_current eligible_selection generated
    new_installation accepted_of
prepare_installation sv catalog validator sent read new_id caller workspace_id request now db = do
  valid ← require_valid (valid_install_request sv caller workspace_id request)
  w ← owned_workspace sent caller workspace_id db
  free ← no_current read workspace_id request.agent_id db
  version ←
      eligible_selection (catalog.select_installable request.agent_id request.version_constraint)
  permissions ← validate_permission_subset version.card (accepted_of request)
  id ← generated new_id
  let installation = new_installation id workspace_id request version permissions now
  validated (validator.validate_installation installation) installation

unfoldable pub store_prepared :
    Timestamps
    → Bool
    → Text
    → Result WorkspaceError Installation
    → Tables
    → Tables × Result WorkspaceError Installation
store_prepared ts sent caller (err e) db = (db, err e)
store_prepared ts sent caller (ok installation) db =
    create_installation ts sent caller installation db

-- `Install`; other transactions may have changed the tables that its reads saw, `seen`, to `db`.
unfoldable pub install :
    Semver
    → CatalogReader
    → Validator
    → Timestamps
    → Bool
    → Bool
    → Bool
    → Option Text
    → Text
    → Text
    → InstallAgentRequest
    → Time
    → Tables
    → Tables
    → Tables × Result WorkspaceError Installation
unfolding prepare_installation store_prepared
install sv catalog validator ts sent read written new_id caller workspace_id request now seen db =
    store_prepared ts written caller
      (prepare_installation sv catalog validator sent read new_id caller workspace_id request now
        seen)
      db

unfoldable pub when_owned :
    {A : Type 0}
    → Bool
    → Bool
    → Text
    → Text
    → Tables
    → Tables × Result WorkspaceError A
    → Tables
    → Tables × Result WorkspaceError A
when_owned valid sent caller workspace_id seen write db =
    if not valid
    then (db, err invalid)
    else elim (owned_workspace sent caller workspace_id seen) [ err e ↦ (db, err e) | ok w ↦ write ]

-- `GetInstallation`.
unfoldable pub get_owned_installation :
    Bool → Bool → Text → Text → Text → Tables → Result WorkspaceError Installation
get_owned_installation sent read caller workspace_id id db =
    if not (is_safe_identifier workspace_id)
      || not (is_safe_identifier id)
      || not (is_safe_identifier caller)
    then err invalid
    else owned_workspace sent caller workspace_id db >>= λ w.
        if not read
        then err dependency_failed
        else elim (get_installation workspace_id id db.installations) [
          | none ↦ err not_found
          | some i ↦ ok i
        ]

-- `UpdateInstallation`.
unfoldable pub update_installation :
    Timestamps
    → Bool
    → Bool
    → Text
    → Text
    → Text
    → InstallationStatus
    → Time
    → Tables
    → Tables
    → Tables × Result WorkspaceError Installation
unfolding when_owned
update_installation ts sent written caller workspace_id id status now seen db =
    when_owned
      (is_safe_identifier workspace_id
        && is_safe_identifier id
        && is_safe_identifier caller
        && current_installation_status status)
      sent caller workspace_id seen (change_status ts written workspace_id id status now db) db

-- `Uninstall`.
unfoldable pub uninstall :
    Timestamps
    → Bool
    → Bool
    → Text
    → Text
    → Text
    → Time
    → Tables
    → Tables
    → Tables × Result WorkspaceError Installation
unfolding when_owned
uninstall ts sent written caller workspace_id id now seen db =
    when_owned
      (is_safe_identifier workspace_id && is_safe_identifier id && is_safe_identifier caller) sent
      caller workspace_id seen (uninstall_installation ts written workspace_id id now db) db
