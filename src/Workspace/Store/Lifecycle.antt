-- ===== src/Workspace/Store/Lifecycle.antt =====
-- postgres/store.go of the workspace: what later transactions make of a stored installation.
use ne_kiro.Prelude.{
  Time, ◌==◌, ◌≤◌, ◌<◌, ◌%◌, ◌≡◌, ◌⊎◌, refl, sym, subst, Bool, true, false, Option, none, some,
  List, arith, Bool-cases, inl, inr, ◌∙◌,
}
use ne_kiro.Workspace.Store.Rows.{
  found_by_own_keys, change_error-current, uninstall_error-current, get-update_row_same,
  get-update_row_other, is_row-keys,
}
use ne_kiro.Workspace.Model.{
  Installation, InstallationStatus, WorkspaceError, uninstalled, installation_status_eq,
  immutable_pin,
}
use ne_kiro.Workspace.Store.{
  change_error, uninstall_error, changed, ended, installation_row, change_found, uninstall_found,
  Timestamps, Tables, get_installation, is_row, write_row, update_row, change_row,
  next_lifecycle_time,
}
use ne_kiro.Workspace.Store.Clock.{next_lifecycle_time_later, next_lifecycle_time_first}
use ne_kiro.Prelude.Text.{Text, text_eq}

-- What a stored installation keeps: its pin, its time from `before` on, and, once uninstalled, all.
pub record Preserved (before after : Installation) : Type 0 where
  pub version_constraint : after.version_constraint ≡ before.version_constraint
  pub installed_version : after.installed_version ≡ before.installed_version
  pub installed_release_id : after.installed_release_id ≡ before.installed_release_id
  pub accepted_permissions : after.accepted_permissions ≡ before.accepted_permissions
  pub time : before.updated_at ≤ after.updated_at
  pub final : ((before.status == uninstalled) ≡ false) ⊎ (after ≡ before)

pub Preserved-refl : (i : Installation) → Preserved i i
Preserved-refl i = record {
  version_constraint = refl;
  installed_version = refl;
  installed_release_id = refl;
  accepted_permissions = refl;
  time = omega arith;
  final = inr refl;
}

pub Preserved-trans : (a b c : Installation) → Preserved a b → Preserved b c → Preserved a c
Preserved-trans a b c p q = record {
  version_constraint = q.version_constraint ∙ p.version_constraint;
  installed_version = q.installed_version ∙ p.installed_version;
  installed_release_id = q.installed_release_id ∙ p.installed_release_id;
  accepted_permissions = q.accepted_permissions ∙ p.accepted_permissions;
  time = omega (arith, p.time, q.time);
  final = elim p.final [
    | inl n ↦ inl n
    | inr e ↦ elim q.final [
      | inl n ↦ inl (subst (λ i. (i.status == uninstalled) ≡ false) e n)
      | inr f ↦ inr (f ∙ e)
    ]
  ];
}

-- Among these rows, the installation of these keys is one that `before` has become.
abbrev pub Stays : Text → Text → Installation → List Installation → Type 0
Stays workspace_id installation_id before is =
    (after : Installation) × (get_installation workspace_id installation_id is ≡ some after)
    × Preserved before after

-- A write over `before`, read by its own keys, preserves every stored installation.
write_row-Stays :
    (pinned row_ok : Bool) (before after i : Installation) (workspace_id installation_id : Text)
    (db : Tables)
    → get_installation after.workspace_id after.installation_id db.installations ≡ some before
    → Preserved before after
    → get_installation workspace_id installation_id db.installations ≡ some i
    → Stays workspace_id installation_id i (write_row pinned row_ok after db).0.installations
unfolding write_row
write_row-Stays false row_ok before after i w id db g p h = (i, h, Preserved-refl i)
write_row-Stays true false before after i w id db g p h = (i, h, Preserved-refl i)
write_row-Stays true true before after i w id db g p h = elim (Bool-cases (is_row w id after)) [
  | inr e ↦ (i, get-update_row_other after db.installations w id e ∙ h, Preserved-refl i)
  | inl e ↦
      let own = is_row-keys w id after e in
      let found = at_keys own.0 own.1 db.installations g in
      (
        after,
        at_keys own.0 own.1 (update_row after db.installations)
            (get-update_row_same before after db.installations g),
        subst (λ b. Preserved b after) (cc (found, h)) p,
      )
]
  where
    at_keys :
        {found : Installation}
        → after.workspace_id ≡ w
        → after.installation_id ≡ id
        → (is : List Installation)
        → get_installation after.workspace_id after.installation_id is ≡ some found
        → get_installation w id is ≡ some found
    at_keys {found} p q is g' =
        subst (λ k. get_installation w k is ≡ some found) q
          (subst (λ v. get_installation v after.installation_id is ≡ some found) p g')

change_row-Stays :
    (refused : Option WorkspaceError) (before after i : Installation)
    (workspace_id installation_id : Text) (db : Tables)
    → get_installation after.workspace_id after.installation_id db.installations ≡ some before
    → (refused ≡ none → Preserved before after)
    → get_installation workspace_id installation_id db.installations ≡ some i
    → Stays workspace_id installation_id i (change_row refused before after db).0.installations
unfolding change_row
change_row-Stays (some e) before after i w id db g p h = (i, h, Preserved-refl i)
change_row-Stays none before after i w id db g p h =
    write_row-Stays (immutable_pin before after) (installation_row after) before after i w id db g
      (p refl) h

-- The column keeps whole microseconds, as `timestamptz` does.
abbrev pub KeepsMicros : Timestamps → Type 0
KeepsMicros ts = (t : Time) → t % 1000 ≡ 0 → ts.column t ≡ t

pub column_later :
    (ts : Timestamps)
    → KeepsMicros ts
    → (before : Installation) (at : Time)
    → before.updated_at < ts.column (next_lifecycle_time before.updated_at at)
column_later ts law before at =
    let next = next_lifecycle_time before.updated_at at in
    subst (λ t. before.updated_at < t)
      (sym (law next (next_lifecycle_time_first before.updated_at at 0 refl).0))
      (next_lifecycle_time_later before.updated_at at)

changed-Preserved :
    (ts : Timestamps)
    → KeepsMicros ts
    → (status : InstallationStatus) (at : Time) (before : Installation)
    → change_error before.status status ≡ none
    → Preserved before (changed ts status at before)
unfolding changed
changed-Preserved ts law status at before n = record {
  version_constraint = refl;
  installed_version = refl;
  installed_release_id = refl;
  accepted_permissions = refl;
  time = omega (arith, column_later ts law before at);
  final = inl (change_error-current before.status status n);
}

ended-Preserved :
    (ts : Timestamps)
    → KeepsMicros ts
    → (at : Time) (before : Installation) → uninstall_error before.status ≡ none
    → Preserved before (ended ts at before)
unfolding ended
ended-Preserved ts law at before n = record {
  version_constraint = refl;
  installed_version = refl;
  installed_release_id = refl;
  accepted_permissions = refl;
  time = omega (arith, column_later ts law before at);
  final = inl (uninstall_error-current before.status n);
}

pub change_found-Stays :
    (ts : Timestamps)
    → KeepsMicros ts
    → (status : InstallationStatus) (at : Time) (row : Option Installation) (i : Installation)
      (w id v k : Text) (db : Tables)
    → get_installation v k db.installations ≡ row
    → get_installation w id db.installations ≡ some i
    → Stays w id i (change_found ts status at row db).0.installations
unfolding change_found
change_found-Stays ts law status at none i w id v k db g h = (i, h, Preserved-refl i)
change_found-Stays ts law status at (some before) i w id v k db g h =
    change_row-Stays (change_error before.status status) before (changed ts status at before) i w id
      db (unfold changed in found_by_own_keys v k db.installations g)
      (changed-Preserved ts law status at before) h

pub uninstall_found-Stays :
    (ts : Timestamps)
    → KeepsMicros ts
    → (at : Time) (row : Option Installation) (i : Installation) (w id v k : Text) (db : Tables)
    → get_installation v k db.installations ≡ row
    → get_installation w id db.installations ≡ some i
    → Stays w id i (uninstall_found ts at row db).0.installations
unfolding uninstall_found
uninstall_found-Stays ts law at none i w id v k db g h = (i, h, Preserved-refl i)
uninstall_found-Stays ts law at (some before) i w id v k db g h =
    change_row-Stays (uninstall_error before.status) before (ended ts at before) i w id db
      (unfold ended in found_by_own_keys v k db.installations g) (ended-Preserved ts law at before)
      h
