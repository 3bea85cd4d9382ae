-- ===== src/Workspace/Model.antt =====
-- apps/control-plane/internal/workspace/model.go and the records of contracts/contracts.go it stores.
use ne_kiro.Prelude.{
  Time, Bool, not, ◌&&◌, ◌||◌, Option, List, Eq, ◌==◌, reject_if, is_empty, test, test_iff,
  same_elements,
}
use ne_kiro.Prelude.Text.{Text, text_eq, text_beq}
use native.Mathlib.Decide.{ℕ_discrete}

-- The errors of model.go.
pub data WorkspaceError : Type 0 where
  not_found forbidden conflict invalid dependency_failed : WorkspaceError
  agent_not_installed installation_disabled agent_disabled release_unpublished : WorkspaceError
  release_suspended release_revoked capability_not_allowed : WorkspaceError

-- The status of an installation, a string with three named values.
pub data InstallationStatus : Type 0 where
  enabled disabled uninstalled : InstallationStatus
  other_status : Text → InstallationStatus

unfoldable pub InstallationStatus-discrete : Discrete InstallationStatus
InstallationStatus-discrete = hlevel ℕ_discrete

instance abbrev pub installation_status_eq : Eq InstallationStatus
installation_status_eq = record {
  beq = λ a b. test (InstallationStatus-discrete a b);
  decides = λ a b. test_iff (InstallationStatus-discrete a b);
}

-- Workspace of contracts.go.
pub record WorkspaceRow : Type 0 where
  pub workspace_id : Text
  pub owner_id : Text
  pub created_at : Time
  pub updated_at : Time

-- Installation of contracts.go.
pub record Installation : Type 0 where
  pub installation_id : Text
  pub workspace_id : Text
  pub agent_id : Text
  pub version_constraint : Text
  pub installed_version : Text
  pub installed_release_id : Text
  pub accepted_permissions : List Text
  pub status : InstallationStatus
  pub installed_at : Time
  pub updated_at : Time
  pub uninstalled_at : Option Time

-- `OwnerPolicy.Authorize`.
unfoldable pub authorize : Text → Text → Option WorkspaceError
authorize owner_id caller_id =
    reject_if (is_empty owner_id || is_empty caller_id || not (owner_id == caller_id)) forbidden

-- `currentInstallationStatus`.
unfoldable pub current_installation_status : InstallationStatus → Bool
current_installation_status s = s == enabled || s == disabled

-- `ValidateInstallationImmutablePin` of contracts/installation_contracts.go, true when it returns nil.
unfoldable pub immutable_pin : Installation → Installation → Bool
immutable_pin before after =
    before.version_constraint == after.version_constraint
    && before.installed_version == after.installed_version
    && before.installed_release_id == after.installed_release_id
    && same_elements text_beq before.accepted_permissions after.accepted_permissions
