-- ===== src/Workspace/Examples.antt =====
-- An agent that is installed, invoked, disabled and uninstalled.
use ne_kiro.Prelude.Sort.{insert, sort}
use ne_kiro.Contracts.Event.{is_safe_identifier}
use ne_kiro.Prelude.{
  ℕ, ◌*◌, ◌/◌, ◌%◌, ◌≤◌, ◌<◌, ◌≡◌, ◌↔◌, refl, Bool, true, false, none, some, List, [], ◌∷◌, arith,
  ok, nat_eq, ltb, length,
}
use ne_kiro.Prelude.Text.{
  codes, text_eq, text_beq, trim_space, is_alphanumeric, is_identifier_tail, is_space, text_lt,
}
use ne_kiro.Workspace.Model.{
  InstallationStatus-discrete, enabled, disabled, installation_status_eq, WorkspaceRow,
  Installation, authorize,
}
use ne_kiro.Catalog.Model.{
  PublicationStatus, PublicationStatus-discrete, publication_status_eq, release_state_eq,
  AgentSkill, AgentVersion,
}
use ne_kiro.Workspace.Store.{
  Timestamps, Tables, no_rows, find_workspace, get_current, get_installation, has_current,
  installation_row, stored_installation, create_installation, is_current, first_of,
  state_timestamps, is_row,
}
use ne_kiro.Workspace.Eligibility.{
  catalog_result, release_id, validate_release_eligibility, release_provenance, contains_all, has,
  valid_permission_input, validate_permission_subset, valid_constraint, legacy_eligibility,
  distinct_identifiers,
}
use ne_kiro.Workspace.Authorize.{
  CatalogReader, owned_workspace, read_workspace, AuthorizedInvocation, find_skill, allowed,
  read_version, authorize_version, authorize_installation, resolve_authorized_invocation,
  authorize_invocation,
}
use ne_kiro.Workspace.Service.{
  Validator, InstallAgentRequest, valid_install_request, require_valid, accepted_of, no_current,
  eligible_selection, generated, new_installation, prepare_installation, store_prepared, install,
  validated,
}
use ne_kiro.Workspace.Store.{is_row, next_lifecycle_time, truncate_micros}
use ne_kiro.Workspace.Store.Clock.{next_lifecycle_time_first}
use ne_kiro.Workspace.Store.Consistent.{Consistent}
use ne_kiro.Workspace.Store.Reachable.{
  Transaction, creates_workspace, installs, changes, uninstalls, run_all, run_all-Consistent,
}
use ne_kiro.Workspace.Store.Lifecycle.{Stays, KeepsMicros}
use ne_kiro.Workspace.Store.History.{run_all-Stays}
use ne_kiro.Workspace.Eligibility.Gate.{installability_error-eligibility}
use ne_kiro.Catalog.Select.{Semver, installability_error, release_installability}
use ne_kiro.Workspace.Authorize.Allowed.{Allowed, authorize_invocation-iff-Allowed}
use ne_kiro.Workspace.Service.Invocable.{authorized, install-authorized}

-- A column that keeps whole microseconds.
abbrev micros : Timestamps
micros = record { column = λ t. t / 1000 * 1000 }

micros-KeepsMicros : KeepsMicros micros
micros-KeepsMicros t h = omega (arith, h)

abbrev a_version : AgentVersion
a_version = record {
  public_agent_id = codes "agt_0";
  card = record {
    agent_id = codes "agent";
    version = codes "1.2.0";
    owner_id = codes "owner";
    skills = record { id = codes "translate"; required_permissions = codes "text.read" ∷ [] } ∷ [];
    permissions = codes "text.write" ∷ codes "text.read" ∷ [];
  };
  card_digest = 171 ∷ [];
  status = PublicationStatus.published;
  registered_at = 0;
  published_at = some 5;
  publication_sequence = some 1;
  disabled_at = none;
  legacy_unverified = true;
  release = none;
}

abbrev a_catalog : CatalogReader
a_catalog = record { select_installable = λ a c. ok a_version; get_version = λ a v. ok a_version }

abbrev a_semver : Semver
a_semver = record {
  Version = ℕ;
  Constraint = ℕ;
  strict_new_version = λ t. some (length t);
  new_constraint = λ t. some (length t);
  check = λ c v. true;
  greater_than = λ a b. ltb b a;
  equal = nat_eq;
  prerelease = λ v. [];
}

abbrev any_valid : Validator
any_valid = record { validate_workspace = λ w. true; validate_installation = λ i. true }

abbrev request : InstallAgentRequest
request = record {
  agent_id = codes "agent";
  version_constraint = codes "^1";
  accepted_permissions = some (codes "text.write" ∷ codes "text.read" ∷ []);
}

abbrev the_workspace : WorkspaceRow
the_workspace = record {
  workspace_id = codes "ws";
  owner_id = codes "alice";
  created_at = 2000;
  updated_at = 2000;
}

abbrev the_installation : Installation
the_installation = record {
  installation_id = codes "ws_1";
  workspace_id = codes "ws";
  agent_id = codes "agent";
  version_constraint = codes "^1";
  installed_version = codes "1.2.0";
  installed_release_id = [];
  accepted_permissions = codes "text.read" ∷ codes "text.write" ∷ [];
  status = enabled;
  installed_at = 3000;
  updated_at = 3000;
  uninstalled_at = none;
}

abbrev before_install : Tables
before_install = record { workspaces = the_workspace ∷ []; installations = [] }

abbrev after_install : Tables
after_install = record before_install { installations = the_installation ∷ [] }

installs_it :
    (install a_semver a_catalog any_valid micros true true true
      (some (codes "ws_1"))
      (codes "alice")
      (codes "ws")
      request
      3456
      before_install
      before_install).1
    ≡ ok the_installation
unfolding install prepare_installation store_prepared is_safe_identifier valid_constraint trim_space
    valid_permission_input text_beq owned_workspace find_workspace authorize has_current
    catalog_result validate_release_eligibility release_id PublicationStatus-discrete
    validate_permission_subset create_installation installation_row state_timestamps insert sort
    is_alphanumeric is_identifier_tail is_space text_lt read_workspace contains_all
    distinct_identifiers has legacy_eligibility InstallationStatus-discrete accepted_of
    eligible_selection generated new_installation no_current require_valid valid_install_request
    validated is_current stored_installation
installs_it = refl

next_lifecycle_time_first_example :
    (next_lifecycle_time 2500 1999 % 1000 ≡ 0)
    × ((next_lifecycle_time 2500 1999 ≤ 3000) ↔ ((2500 < 3000) × (truncate_micros 1999 ≤ 3000)))
next_lifecycle_time_first_example = next_lifecycle_time_first 2500 1999 3000 refl

-- A failed installation, one that is stored, and its end.
abbrev steps : List (Bool × Transaction)
steps =
    (true, creates_workspace the_workspace)
    ∷ (false, installs (codes "alice") the_installation)
    ∷ (true, installs (codes "alice") the_installation)
    ∷ (true, changes (codes "ws") (codes "ws_1") disabled 1000)
    ∷ (true, uninstalls (codes "ws") (codes "ws_1") 9000)
    ∷ []

run_all-Consistent_example : Consistent (run_all micros steps no_rows)
run_all-Consistent_example = run_all-Consistent micros steps

found_installation :
    get_installation (codes "ws") (codes "ws_1") (the_installation ∷ []) ≡ some the_installation
unfolding get_installation first_of is_row text_beq
found_installation = refl

run_all-Stays_example :
    Stays
      (codes "ws")
      (codes "ws_1")
      the_installation
      (run_all micros steps after_install).installations
run_all-Stays_example =
    run_all-Stays micros micros-KeepsMicros steps the_installation (codes "ws") (codes "ws_1")
      after_install found_installation

installable : installability_error a_version ≡ none
unfolding installability_error release_installability PublicationStatus-discrete
installable = refl

installability_error-eligibility_example :
    validate_release_eligibility a_version (release_id a_version.release) ≡ none
installability_error-eligibility_example = installability_error-eligibility a_version installable

abbrev translate : AgentSkill
translate = record { id = codes "translate"; required_permissions = codes "text.read" ∷ [] }

name_translate : is_safe_identifier (codes "translate") ≡ true
unfolding is_safe_identifier is_alphanumeric is_identifier_tail
name_translate = refl

offers_translate : find_skill (codes "translate") a_version.card.skills ≡ some translate
unfolding find_skill text_beq
offers_translate = refl

accepts_translate : contains_all (accepted_of request) translate.required_permissions ≡ true
unfolding contains_all accepted_of has text_beq
accepts_translate = refl

install-authorized_example :
    authorize_invocation a_catalog true true
      (codes "alice")
      (codes "ws")
      (codes "agent")
      (codes "translate")
      (install a_semver a_catalog any_valid micros true true true
        (some (codes "ws_1"))
        (codes "alice")
        (codes "ws")
        request
        3456
        before_install
        before_install).0
    ≡ ok (authorized a_version)
install-authorized_example =
    install-authorized a_semver a_catalog any_valid micros true true true (some (codes "ws_1"))
      (codes "alice") (codes "ws") request 3456 before_install before_install the_installation
      a_version translate (codes "translate") installs_it refl refl name_translate offers_translate
      accepts_translate

abbrev authorization : AuthorizedInvocation
authorization = record {
  agent_card_version = codes "1.2.0";
  agent_release_id = [];
  agent_card_digest = [];
}

authorizes_it :
    authorize_invocation a_catalog true true
      (codes "alice")
      (codes "ws")
      (codes "agent")
      (codes "translate")
      after_install
    ≡ ok authorization
unfolding authorize_invocation owned_workspace read_workspace find_workspace authorize
    resolve_authorized_invocation get_current first_of is_current authorize_installation
    authorize_version read_version validate_release_eligibility legacy_eligibility find_skill
    allowed contains_all has release_provenance is_safe_identifier is_alphanumeric
    is_identifier_tail text_beq InstallationStatus-discrete PublicationStatus-discrete
authorizes_it = refl

authorize_invocation-iff-Allowed_example :
    (authorize_invocation a_catalog true true
        (codes "alice")
        (codes "ws")
        (codes "agent")
        (codes "translate")
        after_install
      ≡ ok authorization)
    ↔ Allowed a_catalog true true
        (codes "alice")
        (codes "ws")
        (codes "agent")
        (codes "translate")
        after_install
        authorization
authorize_invocation-iff-Allowed_example =
    authorize_invocation-iff-Allowed a_catalog true true (codes "alice") (codes "ws")
      (codes "agent") (codes "translate") after_install authorization
