-- ===== src/Workspace/Authorize/Allowed.antt =====
-- service.go of the workspace: when an invocation is authorized.
use ne_kiro.Prelude.{
  >>=-eq-ok, ◌≡◌, ◌↔◌, refl, inl, inr, Bool, true, false, not, ◌&&◌, ◌||◌, some, arith, ok,
  Bool-cases, Option-cases,
}
use ne_kiro.Prelude.Text.{Text, text_eq}
use ne_kiro.Workspace.Model.{installation_status_eq, WorkspaceRow, Installation}
use ne_kiro.Workspace.Store.{get_current, Tables, find_workspace}
use ne_kiro.Workspace.Authorize.{
  resolve_authorized_invocation, authorize_invocation, CatalogReader, owned_workspace,
  AuthorizedInvocation,
}
use ne_kiro.Workspace.Authorize.Owned.{
  owned_workspace-ok, owned_workspace-made, owned_workspace-sent,
}
use ne_kiro.Workspace.Authorize.Version.{
  AllowedVersion, authorize_installation-ok, AllowedVersion-authorize_installation,
}
use ne_kiro.Contracts.Event.{is_safe_identifier}

-- When `AuthorizeInvocation` returns a value; `sent` and `read` tell whether its two statements reach
-- the database.
pub record Allowed (catalog : CatalogReader) (sent read : Bool)
    (caller workspace_id agent_id capability : Text) (db : Tables) (a : AuthorizedInvocation)
    : Type 0 where
  pub reached : (sent ≡ true) × (read ≡ true)
  pub safe :
      (is_safe_identifier workspace_id
        && is_safe_identifier caller
        && is_safe_identifier agent_id
        && is_safe_identifier capability)
      ≡ true
  pub workspace : WorkspaceRow
  pub found : find_workspace workspace_id db.workspaces ≡ some workspace
  pub owned : workspace.owner_id ≡ caller
  pub installation : Installation
  pub current : get_current workspace_id agent_id db.installations ≡ some installation
  pub allowed_version : AllowedVersion catalog agent_id capability a installation

resolve-ok :
    (catalog : CatalogReader) (read : Bool) (workspace_id agent_id capability : Text) (db : Tables)
    (a : AuthorizedInvocation)
    → resolve_authorized_invocation catalog read workspace_id agent_id capability db ≡ ok a
    → (read ≡ true)
      × ((i : Installation) × (get_current workspace_id agent_id db.installations ≡ some i)
          × AllowedVersion catalog agent_id capability a i)
unfolding resolve_authorized_invocation
resolve-ok catalog false w agent_id capability db a h = absurd (cc h)
resolve-ok catalog true w agent_id capability db a h =
    elim (Option-cases (get_current w agent_id db.installations)) [
      | inl e ↦ absurd (cc (e, rw (e, resolve_authorized_invocation) at h))
      | inr (i, e) ↦ (
        refl,
        (
          i,
          e,
          authorize_installation-ok catalog agent_id capability a i
              (rw (e, resolve_authorized_invocation) at h),
        ),
      )
    ]

authorize_invocation-ok :
    (catalog : CatalogReader) (sent read : Bool) (caller workspace_id agent_id capability : Text)
    (db : Tables) (a : AuthorizedInvocation)
    → authorize_invocation catalog sent read caller workspace_id agent_id capability db ≡ ok a
    → Allowed catalog sent read caller workspace_id agent_id capability db a
unfolding authorize_invocation
authorize_invocation-ok catalog sent read caller w agent_id capability db a h =
    elim (Bool-cases (
      not (is_safe_identifier w)
      || not (is_safe_identifier caller)
      || not (is_safe_identifier agent_id)
      || not (is_safe_identifier capability))) [
        | inl e ↦ absurd (cc (e, rw (e, authorize_invocation) at h))
        | inr e ↦
            let step =
              >>=-eq-ok (owned_workspace sent caller w db)
                (λ o. resolve_authorized_invocation catalog read w agent_id capability db)
                (rw (e, authorize_invocation) at h) in
            let own = owned_workspace-ok sent caller w db step.0 step.1 in
            let (read_it, resolved) = resolve-ok catalog read w agent_id capability db a step.2 in
            record {
              reached = (owned_workspace-sent sent caller w db step.0 step.1, read_it);
              safe = ground (arith, e);
              workspace = step.0;
              found = own.0;
              owned = own.1;
              installation = resolved.0;
              current = resolved.1;
              allowed_version = resolved.2;
            }
      ]

Allowed-authorize_invocation :
    (catalog : CatalogReader) (sent read : Bool) (caller workspace_id agent_id capability : Text)
    (db : Tables) (a : AuthorizedInvocation)
    → Allowed catalog sent read caller workspace_id agent_id capability db a
    → authorize_invocation catalog sent read caller workspace_id agent_id capability db ≡ ok a
unfolding authorize_invocation resolve_authorized_invocation
Allowed-authorize_invocation catalog sent read caller w agent_id capability db a l =
    let valid : (not (is_safe_identifier w)
          || not (is_safe_identifier caller)
          || not (is_safe_identifier agent_id)
          || not (is_safe_identifier capability))
        ≡ false =
      ground (arith, l.safe) in
    let owned =
      owned_workspace-made caller w db l.workspace l.found l.owned (ground (arith, l.safe)) in
    rw
      (
        l.reached.0,
        l.reached.1,
        valid,
        owned,
        l.current,
        AllowedVersion-authorize_installation catalog agent_id capability a l.installation
            l.allowed_version,
        authorize_invocation,
        resolve_authorized_invocation,
      )
      refl

-- `AuthorizeInvocation` returns a value for a caller exactly when its statements reach the database,
-- the four identifiers are safe, the workspace exists and the caller owns it, the agent has a current
-- installation there that is enabled, the catalog has the version that is installed, that version is
-- published with the published release that was installed (or is a legacy one and was installed
-- without a release), the first skill of the version with the capability requires only permissions
-- that were accepted, and the value names the installed version, the installed release and, if there
-- is one, the digest of the version's card.
pub authorize_invocation-iff-Allowed :
    (catalog : CatalogReader) (sent read : Bool) (caller workspace_id agent_id capability : Text)
    (db : Tables) (a : AuthorizedInvocation)
    → (authorize_invocation catalog sent read caller workspace_id agent_id capability db ≡ ok a)
      ↔ Allowed catalog sent read caller workspace_id agent_id capability db a
authorize_invocation-iff-Allowed catalog sent read caller w agent_id capability db a = (
  authorize_invocation-ok catalog sent read caller w agent_id capability db a,
  Allowed-authorize_invocation catalog sent read caller w agent_id capability db a,
)
