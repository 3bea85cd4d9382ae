-- ===== src/Workspace/Store/Kept.antt =====
-- postgres/store.go of the workspace: the tables after a change of an installation.
use ne_kiro.Prelude.{
  Time, ◌==◌, ◌+◌, ◌≤◌, ◌≡◌, refl, ap, Bool, true, false, Option, none, some, arith, count, bit,
}
use ne_kiro.Prelude.Text.{Text, text_eq}
use ne_kiro.Workspace.Model.{
  Installation, InstallationStatus, WorkspaceError, uninstalled, installation_status_eq,
  immutable_pin,
}
use ne_kiro.Workspace.Store.{
  Tables, Timestamps, is_current, has_key, installation_row, find_workspace, update_row, write_row,
  change_row, change_found, change_status, uninstall_found, uninstall_installation, changed, ended,
  change_error, uninstall_error, get_installation,
}
use ne_kiro.Workspace.Store.Consistent.{Consistent, orphan, unchecked, absent}
use ne_kiro.Workspace.Store.Rows.{
  count-update_row, found_by_own_keys, change_error-current, uninstall_error-current,
}

-- A row that may be written over a row that is not uninstalled.
record Replaces (before after : Installation) : Type 0 where
  same_key : after.installation_id ≡ before.installation_id
  same_workspace : after.workspace_id ≡ before.workspace_id
  same_agent : after.agent_id ≡ before.agent_id
  was_current : (before.status == uninstalled) ≡ false

write_row-Consistent :
    (pinned row_ok : Bool) (before after : Installation) (db : Tables)
    → installation_row after ≡ row_ok
    → get_installation after.workspace_id after.installation_id db.installations ≡ some before
    → Replaces before after
    → Consistent db
    → Consistent (write_row pinned row_ok after db).0
unfolding write_row
write_row-Consistent false row_ok before after db r g k c = c
write_row-Consistent true false before after db r g k c = c
write_row-Consistent true true before after db r g k c = record {
  keys = λ id.
      unfold has_key in
      omega (arith, c.keys id, moved (has_key id), ap (λ t. bit (t == id)) k.same_key);
  current = λ w a. omega (arith, c.current w a, moved (is_current w a), stays w a);
  checked = unfold unchecked in grind (arith, c.checked, moved unchecked, r);
  owned = omega (arith, c.owned, moved (orphan db.workspaces), same_owner);
}
  where
    moved :
        (p : Installation → Bool)
        → count p (update_row after db.installations) + bit (p before)
          ≡ count p db.installations + bit (p after)
    moved p = count-update_row p before after db.installations g

    stays : (w a : Text) → bit (is_current w a after) ≤ bit (is_current w a before)
    stays w a =
        unfold is_current in rw (k.same_workspace, k.same_agent, k.was_current) (ground arith)

    same_owner : bit (orphan db.workspaces after) ≡ bit (orphan db.workspaces before)
    same_owner =
        unfold orphan in ap (λ t. bit (absent (find_workspace t db.workspaces))) k.same_workspace

change_row-Consistent :
    (refused : Option WorkspaceError) (before after : Installation) (db : Tables)
    → get_installation after.workspace_id after.installation_id db.installations ≡ some before
    → (refused ≡ none → Replaces before after)
    → Consistent db
    → Consistent (change_row refused before after db).0
unfolding change_row
change_row-Consistent (some e) before after db g k c = c
change_row-Consistent none before after db g k c =
    write_row-Consistent (immutable_pin before after) (installation_row after) before after db refl
      g (k refl) c

change_found-Consistent :
    (ts : Timestamps) (workspace_id installation_id : Text) (status : InstallationStatus)
    (at : Time) (row : Option Installation) (db : Tables)
    → get_installation workspace_id installation_id db.installations ≡ row
    → Consistent db
    → Consistent (change_found ts status at row db).0
unfolding change_found
change_found-Consistent ts workspace_id installation_id status at none db g c = c
change_found-Consistent ts workspace_id installation_id status at (some before) db g c =
    change_row-Consistent (change_error before.status status) before (changed ts status at before)
      db (unfold changed in found_by_own_keys workspace_id installation_id db.installations g)
      (λ n.
        unfold changed in
        record {
          same_key = refl;
          same_workspace = refl;
          same_agent = refl;
          was_current = change_error-current before.status status n;
        })
      c

pub change_status-Consistent :
    (ts : Timestamps) (sent : Bool) (workspace_id installation_id : Text)
    (status : InstallationStatus) (at : Time) (db : Tables)
    → Consistent db
    → Consistent (change_status ts sent workspace_id installation_id status at db).0
unfolding change_status
change_status-Consistent ts false workspace_id installation_id status at db c = c
change_status-Consistent ts true workspace_id installation_id status at db c =
    change_found-Consistent ts workspace_id installation_id status at
      (get_installation workspace_id installation_id db.installations) db refl c

uninstall_found-Consistent :
    (ts : Timestamps) (workspace_id installation_id : Text) (at : Time) (row : Option Installation)
    (db : Tables)
    → get_installation workspace_id installation_id db.installations ≡ row
    → Consistent db
    → Consistent (uninstall_found ts at row db).0
unfolding uninstall_found
uninstall_found-Consistent ts workspace_id installation_id at none db g c = c
uninstall_found-Consistent ts workspace_id installation_id at (some before) db g c =
    change_row-Consistent (uninstall_error before.status) before (ended ts at before) db
      (unfold ended in found_by_own_keys workspace_id installation_id db.installations g)
      (λ n.
        unfold ended in
        record {
          same_key = refl;
          same_workspace = refl;
          same_agent = refl;
          was_current = uninstall_error-current before.status n;
        })
      c

pub uninstall_installation-Consistent :
    (ts : Timestamps) (sent : Bool) (workspace_id installation_id : Text) (at : Time) (db : Tables)
    → Consistent db
    → Consistent (uninstall_installation ts sent workspace_id installation_id at db).0
unfolding uninstall_installation
uninstall_installation-Consistent ts false workspace_id installation_id at db c = c
uninstall_installation-Consistent ts true workspace_id installation_id at db c =
    uninstall_found-Consistent ts workspace_id installation_id at
      (get_installation workspace_id installation_id db.installations) db refl c
