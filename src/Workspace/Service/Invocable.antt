-- ===== src/Workspace/Service/Invocable.antt =====
-- service.go of the workspace: the invocation of an installed agent.
use ne_kiro.Prelude.{
  ◌≡◌, ◌∙◌, refl, sym, ap, subst, Bool, true, false, not, ◌&&◌, ◌||◌, Option, none, some, List, [],
  ◌∷◌, arith, Result, ok, err,
}
use ne_kiro.Prelude.Text.{Text, text_eq, text_beq, text_beq_self}
use ne_kiro.Workspace.Model.{
  WorkspaceError, InstallationStatus-discrete, installation_status_eq, WorkspaceRow, Installation,
  authorize,
}
use ne_kiro.Catalog.Model.{publication_status_eq, release_state_eq, AgentSkill, AgentVersion}
use ne_kiro.Prelude.{Time}
use ne_kiro.Workspace.Eligibility.{
  release_id, validate_release_eligibility, release_provenance, contains_all, has,
}
use ne_kiro.Workspace.Store.{
  Timestamps, Tables, find_workspace, get_current, stored_installation, is_current, first_of,
}
use ne_kiro.Workspace.Authorize.{
  CatalogReader, owned_workspace, read_workspace, AuthorizedInvocation, find_skill, allowed,
  read_version, authorize_version, authorize_installation, resolve_authorized_invocation,
  authorize_invocation,
}
use ne_kiro.Workspace.Service.{
  Validator, InstallAgentRequest, valid_install_request, accepted_of, new_installation,
  prepare_installation, store_prepared, install,
}
use ne_kiro.Prelude.Text.{text_lt}
use ne_kiro.Prelude.Sort.{sort, any_of-sort}
use ne_kiro.Contracts.Event.{is_safe_identifier}
use ne_kiro.Catalog.Select.{Semver}
use ne_kiro.Workspace.Service.Installed.{prepare_installation-Prepared}
use ne_kiro.Workspace.Store.Created.{Created, create_installation-Created}

contains_all-sort :
    (accepted required : List Text)
    → contains_all accepted required ≡ true
    → contains_all (sort text_lt accepted) required ≡ true
unfolding contains_all has
contains_all-sort accepted [] h = refl
contains_all-sort accepted (r ∷ rs) h =
    ground (arith, h, any_of-sort text_lt (text_beq r) accepted, contains_all-sort accepted rs)

-- The authorization of a new installation of a version.
unfoldable pub authorized : AgentVersion → AuthorizedInvocation
authorized version =
    let provenance = release_provenance version.release (release_id version.release) in
    record {
      agent_card_version = version.card.version;
      agent_release_id = provenance.0;
      agent_card_digest = provenance.1;
    }

module _ (ts : Timestamps) (catalog : CatalogReader) (id workspace_id capability : Text)
    (request : InstallAgentRequest) (version : AgentVersion) (skill : AgentSkill) (now : Time) where
  abbrev made : Installation
  made =
      stored_installation ts
        (new_installation id workspace_id request version (sort text_lt (accepted_of request)) now)

  get_current-made :
      (is : List Installation) → get_current workspace_id request.agent_id (made ∷ is) ≡ some made
  unfolding get_current first_of is_current stored_installation new_installation
      InstallationStatus-discrete
  get_current-made is = ground (arith, text_beq_self workspace_id, text_beq_self request.agent_id)

  authorize_version-made :
      validate_release_eligibility version (release_id version.release) ≡ none
      → find_skill capability version.card.skills ≡ some skill
      → contains_all (accepted_of request) skill.required_permissions ≡ true
      → authorize_version made capability version ≡ ok (authorized version)
  unfolding authorize_version stored_installation new_installation authorized allowed
  authorize_version-made e f c =
      rw (e, f, contains_all-sort (accepted_of request) skill.required_permissions c) refl

  authorize_installation-made :
      catalog.get_version request.agent_id version.card.version ≡ ok version
      → authorize_version made capability version ≡ ok (authorized version)
      → authorize_installation catalog request.agent_id capability made ≡ ok (authorized version)
  unfolding authorize_installation read_version stored_installation new_installation
      InstallationStatus-discrete
  authorize_installation-made g a = rw (g, a, authorize_installation) refl

  -- On tables with the new row in front, its owner is authorized.
  authorize_invocation-made :
      (caller : Text) (w : WorkspaceRow) (db : Tables)
      → find_workspace workspace_id db.workspaces ≡ some w
      → w.owner_id ≡ caller
      → authorize caller caller ≡ none
      → (is_safe_identifier workspace_id
          && is_safe_identifier caller
          && is_safe_identifier request.agent_id
          && is_safe_identifier capability)
        ≡ true
      → authorize_installation catalog request.agent_id capability made ≡ ok (authorized version)
      → authorize_invocation catalog true true caller workspace_id request.agent_id capability
          (record db { installations = made ∷ db.installations })
        ≡ ok (authorized version)
  unfolding authorize_invocation owned_workspace read_workspace resolve_authorized_invocation
  authorize_invocation-made caller w db f o a v r =
      let owned = subst (λ t. authorize t caller ≡ none) (sym o) a in
      let current = get_current-made db.installations in
      let valid : (not (is_safe_identifier workspace_id)
            || not (is_safe_identifier caller)
            || not (is_safe_identifier request.agent_id)
            || not (is_safe_identifier capability))
          ≡ false =
        ground (arith, v) in
      rw
        (
          valid, f, owned, current, r, authorize_invocation, owned_workspace, read_workspace,
          resolve_authorized_invocation,
        )
        refl

store_prepared-ok :
    (ts : Timestamps) (written : Bool) (caller : Text) (r : Result WorkspaceError Installation)
    (db : Tables) (row : Installation)
    → (store_prepared ts written caller r db).1 ≡ ok row
    → (i : Installation) × (r ≡ ok i)
      × Created ts caller i db (store_prepared ts written caller r db).0 row
unfolding store_prepared
store_prepared-ok ts written caller (err e) db row h = absurd (cc h)
store_prepared-ok ts written caller (ok i) db row h =
    (i, refl, create_installation-Created ts written caller i row db h)

valid_install_request-identifiers :
    (sv : Semver) (caller workspace_id : Text) (request : InstallAgentRequest)
    → valid_install_request sv caller workspace_id request ≡ true
    → (is_safe_identifier workspace_id
        && is_safe_identifier caller
        && is_safe_identifier request.agent_id)
      ≡ true
unfolding valid_install_request
valid_install_request-identifiers sv caller workspace_id request h = ground (arith, h)

-- If `Install` returns an installation, the catalog had selected a version for it and still returns
-- that version when it is asked for it, the capability is an identifier that the version offers, and
-- the request accepted every permission that the capability requires, then on the tables that
-- `Install` leaves `AuthorizeInvocation` authorizes the same caller to invoke that capability, with
-- the version, release and digest that were selected.
pub install-authorized :
    (sv : Semver) (catalog : CatalogReader) (validator : Validator) (ts : Timestamps)
    (sent read written : Bool) (new_id : Option Text) (caller workspace_id : Text)
    (request : InstallAgentRequest) (now : Time) (seen db : Tables) (row : Installation)
    (version : AgentVersion) (skill : AgentSkill) (capability : Text)
    → (install sv catalog validator ts sent read written new_id caller workspace_id request now seen
        db).1
      ≡ ok row
    → catalog.select_installable request.agent_id request.version_constraint ≡ ok version
    → catalog.get_version request.agent_id version.card.version ≡ ok version
    → is_safe_identifier capability ≡ true
    → find_skill capability version.card.skills ≡ some skill
    → contains_all (accepted_of request) skill.required_permissions ≡ true
    → authorize_invocation catalog true true caller workspace_id request.agent_id capability
        (install sv catalog validator ts sent read written new_id caller workspace_id request now
          seen db).0
      ≡ ok (authorized version)
unfolding install
install-authorized sv catalog validator ts sent read written new_id caller workspace_id request now
      seen db row version skill capability h selected stored safe offered accepted =
    let prepared =
      prepare_installation sv catalog validator sent read new_id caller workspace_id request now
        seen in
    let result = store_prepared-ok ts written caller prepared db row h in
    let p =
      prepare_installation-Prepared sv catalog validator sent read new_id caller workspace_id
        request now seen result.0 result.1 in
    let c = result.2 in
    let same : p.version ≡ version = cc (p.selected, selected) in
    let is_made : row ≡ made ts catalog p.id workspace_id capability request version skill now =
      c.is_row
      ∙ ap (stored_installation ts) p.is_installation
      ∙ ap
          (λ v.
            stored_installation ts (
              new_installation p.id workspace_id request v (sort text_lt (accepted_of request))
                now))
          same in
    let rows = c.rows ∙ ap (λ r. record db { installations = r ∷ db.installations }) is_made in
    let ids = valid_install_request-identifiers sv caller workspace_id request p.valid in
    let eligible =
      subst (λ v. validate_release_eligibility v (release_id v.release) ≡ none) same p.eligible in
    let version_ok =
      authorize_version-made ts catalog p.id workspace_id capability request version skill now
        eligible offered accepted in
    let installation_ok =
      authorize_installation-made ts catalog p.id workspace_id capability request version skill now
        stored version_ok in
    let found =
      subst (λ (i : Installation). find_workspace i.workspace_id db.workspaces ≡ some c.workspace)
        p.is_installation c.found in
    subst
      (λ t.
        authorize_invocation catalog true true caller workspace_id request.agent_id capability t
        ≡ ok (authorized version))
      (sym rows)
      (authorize_invocation-made ts catalog p.id workspace_id capability request version skill now
        caller c.workspace db (unfold new_installation in found) c.owned p.caller_named
        (ground (arith, ids, safe)) installation_ok)
