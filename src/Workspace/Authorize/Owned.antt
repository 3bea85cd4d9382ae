-- ===== src/Workspace/Authorize/Owned.antt =====
-- service.go of the workspace: the owner of a workspace.
use ne_kiro.Prelude.{
  unless_error-ok, >>=-eq-ok, ◌≡◌, ◌∙◌, refl, ap, subst, inl, inr, Bool, true, false, none, some,
  [], ◌∷◌, arith, ok, Option-cases, unless_error,
}
use ne_kiro.Prelude.Text.{Text, text_eq, text_beq_iff, text_beq_self}
use ne_kiro.Workspace.Model.{installation_status_eq, WorkspaceRow, authorize}
use ne_kiro.Workspace.Store.{Tables, find_workspace}
use ne_kiro.Workspace.Authorize.{owned_workspace, read_workspace}
use ne_kiro.Contracts.Event.{is_safe_identifier}

read_workspace-ok :
    (sent : Bool) (workspace_id : Text) (db : Tables) (w : WorkspaceRow)
    → read_workspace sent workspace_id db ≡ ok w
    → find_workspace workspace_id db.workspaces ≡ some w
unfolding read_workspace
read_workspace-ok false workspace_id db w h = absurd (cc h)
read_workspace-ok true workspace_id db w h =
    elim (Option-cases (find_workspace workspace_id db.workspaces)) [
      | inl e ↦ absurd (cc (e, rw (e, read_workspace) at h))
      | inr (v, e) ↦ e ∙ ap some (cc (rw (e, read_workspace) at h))
    ]

pub authorize-none : (owner caller : Text) → authorize owner caller ≡ none → owner ≡ caller
unfolding authorize
authorize-none owner caller h = (text_beq_iff owner caller).0 (ground (arith, h))

pub owned_workspace-ok :
    (sent : Bool) (caller workspace_id : Text) (db : Tables) (w : WorkspaceRow)
    → owned_workspace sent caller workspace_id db ≡ ok w
    → (find_workspace workspace_id db.workspaces ≡ some w) × (w.owner_id ≡ caller)
unfolding owned_workspace
owned_workspace-ok sent caller workspace_id db w h =
    let passed = λ (v : WorkspaceRow). unless_error (authorize v.owner_id caller) (ok v) in
    let step = >>=-eq-ok (read_workspace sent workspace_id db) passed h in
    let own = unless_error-ok (authorize step.0.owner_id caller) (ok step.0) w step.2 in
    let same : step.0 ≡ w = cc own.1 in
    (
      read_workspace-ok sent workspace_id db step.0 step.1 ∙ ap some same,
      subst (λ v. v.owner_id ≡ caller) same (authorize-none step.0.owner_id caller own.0),
    )

safe-authorize :
    (owner caller : Text)
    → owner ≡ caller
    → is_safe_identifier caller ≡ true
    → authorize owner caller ≡ none
unfolding authorize is_safe_identifier
safe-authorize owner [] p h = absurd (cc h)
safe-authorize owner (c ∷ cs) p h = rw (p, authorize) (ground (arith, text_beq_self (c ∷ cs)))

pub owned_workspace-made :
    (caller workspace_id : Text) (db : Tables) (w : WorkspaceRow)
    → find_workspace workspace_id db.workspaces ≡ some w
    → w.owner_id ≡ caller
    → is_safe_identifier caller ≡ true
    → owned_workspace true caller workspace_id db ≡ ok w
unfolding owned_workspace read_workspace
owned_workspace-made caller workspace_id db w f o h =
    rw (f, safe-authorize w.owner_id caller o h, owned_workspace, read_workspace) refl

pub owned_workspace-sent :
    (sent : Bool) (caller workspace_id : Text) (db : Tables) (w : WorkspaceRow)
    → owned_workspace sent caller workspace_id db ≡ ok w
    → sent ≡ true
unfolding owned_workspace read_workspace
owned_workspace-sent false caller workspace_id db w h = absurd (cc h)
owned_workspace-sent true caller workspace_id db w h = refl
