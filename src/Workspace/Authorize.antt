-- ===== src/Workspace/Authorize.antt =====
-- apps/control-plane/internal/workspace/service.go, the authorization of an invocation.
pub mod Permitted
pub mod Owned
pub mod Version
pub mod Allowed
use ne_kiro.Prelude.{
  ℕ, zero, suc, ◌+◌, ◌-◌, ◌*◌, ◌/◌, ◌%◌, ◌^◌, ◌≤◌, ◌<◌, ◌≡◌, ◌≢◌, ◌↔◌, ◌⊎◌, ◌∙◌, refl, sym, ap,
  subst, inl, inr, Bool, true, false, not, ◌&&◌, ◌||◌, Option, none, some, List, [], ◌∷◌, ◌++◌, map,
  arith, Eq, ◌==◌, ==_refl, ==_false-ne, if◌then◌else◌, ◌or_else◌, reject_if, or_else-none,
  reject_if-none, Result, ok, err, ◌>>=◌, >>=-eq-ok, Result-cases, is_empty, nat_eq, leb, ltb,
  length, length-append, keep, All, all_of, any_of, first_error, Bool-cases, Option-cases, test,
  test_iff, same_elements,
}
use ne_kiro.Prelude.Text.{Text, codes, text_eq, text_beq, text_beq_iff, text_beq_self}
use ne_kiro.Workspace.Model.{
  WorkspaceError, not_found, forbidden, conflict, invalid, dependency_failed, agent_not_installed,
  installation_disabled, agent_disabled, release_unpublished, release_suspended, release_revoked,
  capability_not_allowed, InstallationStatus, enabled, disabled, uninstalled,
  installation_status_eq, WorkspaceRow, Installation, authorize, current_installation_status,
}
use ne_kiro.Catalog.Model.{
  PublicationStatus, ReleaseState, publication_status_eq, release_state_eq, CatalogError,
  AgentSkill, AgentCard, AgentRelease, AgentVersion,
}
use ne_kiro.Prelude.{unless_error, Time}
use ne_kiro.Workspace.Eligibility.{
  map_catalog_error, catalog_result, release_id, validate_release_eligibility, release_provenance,
  contains_all, valid_permission_input, validate_permission_subset, valid_constraint,
}
use ne_kiro.Workspace.Store.{
  Timestamps, Tables, find_workspace, get_current, get_installation, has_current, create_workspace,
  create_installation, change_status, uninstall_installation,
}
use ne_kiro.Contracts.Event.{is_safe_identifier}

-- `AuthorizedInvocation`.
pub record AuthorizedInvocation : Type 0 where
  pub agent_card_version : Text
  pub agent_release_id : Text
  pub agent_card_digest : Text

-- `CatalogReader`.
pub record CatalogReader : Type 0 where
  pub select_installable : Text → Text → Result CatalogError AgentVersion
  pub get_version : Text → Text → Result CatalogError AgentVersion

-- `GetWorkspace` of the store; the first argument tells whether the statement reaches the database.
unfoldable pub read_workspace : Bool → Text → Tables → Result WorkspaceError WorkspaceRow
read_workspace false workspace_id db = err dependency_failed
read_workspace true workspace_id db = elim (find_workspace workspace_id db.workspaces) [
  | none ↦ err not_found
  | some w ↦ ok w
]

-- The read of a workspace and `Authorize` of its owner, with which each operation begins.
unfoldable pub owned_workspace : Bool → Text → Text → Tables → Result WorkspaceError WorkspaceRow
unfolding read_workspace
owned_workspace sent caller workspace_id db = do
  w ← read_workspace sent workspace_id db
  unless_error (authorize w.owner_id caller) (ok w)

-- `GetWorkspace` of the service.
unfoldable pub get_workspace : Bool → Text → Text → Tables → Result WorkspaceError WorkspaceRow
unfolding owned_workspace
get_workspace sent caller workspace_id db =
    if not (is_safe_identifier workspace_id) || not (is_safe_identifier caller)
    then err invalid
    else owned_workspace sent caller workspace_id db

unfoldable pub find_skill : Text → List AgentSkill → Option AgentSkill
find_skill capability [] = none
find_skill capability (skill ∷ skills) =
    if skill.id == capability then some skill else find_skill capability skills

unfoldable pub allowed : List Text → Option AgentSkill → Bool
unfolding contains_all
allowed accepted none = false
allowed accepted (some skill) = contains_all accepted skill.required_permissions

unfoldable pub read_error : CatalogError → WorkspaceError
read_error CatalogError.not_found = dependency_failed
read_error e = map_catalog_error e

unfoldable pub read_version : Result CatalogError AgentVersion → Result WorkspaceError AgentVersion
unfolding read_error
read_version (ok version) = ok version
read_version (err e) = err (read_error e)

-- The tests of the version that is installed.
unfoldable pub authorize_version :
    Installation → Text → AgentVersion → Result WorkspaceError AuthorizedInvocation
unfolding allowed find_skill release_provenance validate_release_eligibility
authorize_version installation capability version =
    let provenance = release_provenance version.release installation.installed_release_id in
    unless_error
      (validate_release_eligibility version installation.installed_release_id
        or_else reject_if
            (not (
              allowed installation.accepted_permissions
                (find_skill capability version.card.skills)))
            capability_not_allowed)
      (ok record {
        agent_card_version = installation.installed_version;
        agent_release_id = provenance.0;
        agent_card_digest = provenance.1;
      })

unfoldable pub authorize_installation :
    CatalogReader → Text → Text → Installation → Result WorkspaceError AuthorizedInvocation
unfolding read_version authorize_version
authorize_installation catalog agent_id capability installation =
    if not (installation.status == enabled)
    then err installation_disabled
    else read_version (catalog.get_version agent_id installation.installed_version)
      >>= authorize_version installation capability

-- `resolveAuthorizedInvocation`.
unfoldable pub resolve_authorized_invocation :
    CatalogReader → Bool → Text → Text → Text → Tables → Result WorkspaceError AuthorizedInvocation
unfolding authorize_installation
resolve_authorized_invocation catalog false workspace_id agent_id capability db =
    err dependency_failed
resolve_authorized_invocation catalog true workspace_id agent_id capability db =
    elim (get_current workspace_id agent_id db.installations) [
      | none ↦ err agent_not_installed
      | some installation ↦ authorize_installation catalog agent_id capability installation
    ]

-- `AuthorizeInvocation`.
unfoldable pub authorize_invocation :
    CatalogReader
    → Bool
    → Bool
    → Text
    → Text
    → Text
    → Text
    → Tables
    → Result WorkspaceError AuthorizedInvocation
unfolding owned_workspace resolve_authorized_invocation
authorize_invocation catalog sent read caller workspace_id agent_id capability db =
    if not (is_safe_identifier workspace_id)
      || not (is_safe_identifier caller)
      || not (is_safe_identifier agent_id)
      || not (is_safe_identifier capability)
    then err invalid
    else owned_workspace sent caller workspace_id db >>= λ w.
        resolve_authorized_invocation catalog read workspace_id agent_id capability db

-- `ResolveInstalledVersionRequest`.
pub record ResolveRequest : Type 0 where
  pub invocation_id : Text
  pub root_task_id : Text
  pub trace_id : Text
  pub workspace_id : Text
  pub agent_id : Text
  pub capability : Text

-- `ResolveInstalledVersion`; the response has the three fields of the authorization.
unfoldable pub resolve_installed_version :
    CatalogReader
    → Bool
    → Bool
    → ResolveRequest
    → Tables
    → Result WorkspaceError AuthorizedInvocation
unfolding read_workspace resolve_authorized_invocation
resolve_installed_version catalog sent read request db =
    if not (is_safe_identifier request.invocation_id)
      || not (is_safe_identifier request.root_task_id)
      || not (is_safe_identifier request.workspace_id)
      || not (is_safe_identifier request.agent_id)
      || not (is_safe_identifier request.capability)
      || not (is_safe_identifier request.trace_id)
    then err invalid
    else read_workspace sent request.workspace_id db >>= λ w.
        resolve_authorized_invocation catalog read request.workspace_id request.agent_id
          request.capability db
