-- ===== src/Workspace/Store/History.antt =====
-- postgres/store.go of the workspace: the history of a stored installation over all transactions.
use ne_kiro.Prelude.{
  ◌==◌, ◌≡◌, refl, subst, Bool, true, false, Option, none, some, List, [], ◌∷◌, Bool-cases,
  Option-cases, inl, inr, any_of,
}
use ne_kiro.Prelude.Text.{Text, text_eq}
use ne_kiro.Workspace.Model.{Installation, WorkspaceRow}
use ne_kiro.Workspace.Store.{
  Timestamps, Tables, get_installation, first_of, is_row, has_key, installation_row, find_workspace,
  workspace_row, has_current, create_workspace, insert_when, create_when, create_for,
  create_installation, stored_installation, change_status, uninstall_installation,
}
use ne_kiro.Workspace.Store.Rows.{is_row-keys, get_installation-any_of}
use ne_kiro.Workspace.Store.Lifecycle.{
  Preserved-refl, Preserved-trans, Stays, KeepsMicros, change_found-Stays, uninstall_found-Stays,
}
use ne_kiro.Workspace.Store.Reachable.{
  Transaction, creates_workspace, installs, changes, uninstalls, run, run_all,
}

insert_when-Stays :
    (clash row_ok : Bool) (row i : Installation) (w id : Text) (db : Tables)
    → any_of (has_key row.installation_id) db.installations ≡ clash
    → get_installation w id db.installations ≡ some i
    → Stays w id i (insert_when clash row_ok row db).0.installations
unfolding insert_when get_installation first_of
insert_when-Stays true row_ok row i w id db k h = (i, h, Preserved-refl i)
insert_when-Stays false false row i w id db k h = (i, h, Preserved-refl i)
insert_when-Stays false true row i w id db k h = elim (Bool-cases (is_row w id row)) [
  | inl e ↦
      let used = get_installation-any_of w id db.installations h in
      let clash =
        subst (λ t. any_of (has_key t) db.installations ≡ false) (is_row-keys w id row e).1 k in
      absurd (cc (used, clash))
  | inr e ↦ (i, rw e h, Preserved-refl i)
]

create_when-Stays :
    (current : Bool) (row i : Installation) (w id : Text) (db : Tables)
    → get_installation w id db.installations ≡ some i
    → Stays w id i (create_when current row db).0.installations
unfolding create_when
create_when-Stays true row i w id db h = (i, h, Preserved-refl i)
create_when-Stays false row i w id db h =
    insert_when-Stays (any_of (has_key row.installation_id) db.installations) (installation_row row)
      row i w id db refl h

create_for-Stays :
    (owner : Option WorkspaceRow) (caller : Text) (row i : Installation) (w id : Text) (db : Tables)
    → get_installation w id db.installations ≡ some i
    → Stays w id i (create_for owner caller row db).0.installations
unfolding create_for
create_for-Stays none caller row i w id db h = (i, h, Preserved-refl i)
create_for-Stays (some o) caller row i w id db h = elim (Bool-cases (o.owner_id == caller)) [
  | inr e ↦ rw e (i, h, Preserved-refl i)
  | inl e ↦ rw e (
      create_when-Stays (has_current row.workspace_id row.agent_id db.installations) row i w id db
        h)
]

create_workspace-Stays :
    (ts : Timestamps) (sent : Bool) (value : WorkspaceRow) (i : Installation) (w id : Text)
    (db : Tables)
    → get_installation w id db.installations ≡ some i
    → Stays w id i (create_workspace ts sent value db).0.installations
unfolding create_workspace
create_workspace-Stays ts false value i w id db h = (i, h, Preserved-refl i)
create_workspace-Stays ts true value i w id db h =
    let row = record value {
      created_at = ts.column value.created_at;
      updated_at = ts.column value.updated_at;
    } in
    elim (Option-cases (find_workspace value.workspace_id db.workspaces)) [
      | inr (o, e) ↦ rw (e, create_workspace) (i, h, Preserved-refl i)
      | inl e ↦ elim (Bool-cases (workspace_row row)) [
        | inl r ↦ rw (e, r, create_workspace) (i, h, Preserved-refl i)
        | inr r ↦ rw (e, r, create_workspace) (i, h, Preserved-refl i)
      ]
    ]

run-Stays :
    (ts : Timestamps)
    → KeepsMicros ts
    → (sent : Bool) (t : Transaction) (i : Installation) (w id : Text) (db : Tables)
    → get_installation w id db.installations ≡ some i
    → Stays w id i (run ts sent t db).installations
unfolding run create_installation change_status uninstall_installation
run-Stays ts law sent (creates_workspace value) i w id db h =
    create_workspace-Stays ts sent value i w id db h
run-Stays ts law false (installs caller value) i w id db h = (i, h, Preserved-refl i)
run-Stays ts law true (installs caller value) i w id db h =
    create_for-Stays (find_workspace value.workspace_id db.workspaces) caller
      (stored_installation ts value) i w id db h
run-Stays ts law false (changes v k status at) i w id db h = (i, h, Preserved-refl i)
run-Stays ts law true (changes v k status at) i w id db h =
    change_found-Stays ts law status at (get_installation v k db.installations) i w id v k db refl h
run-Stays ts law false (uninstalls v k at) i w id db h = (i, h, Preserved-refl i)
run-Stays ts law true (uninstalls v k at) i w id db h =
    uninstall_found-Stays ts law at (get_installation v k db.installations) i w id v k db refl h

-- If the columns keep whole microseconds and an installation is stored, then after any sequence of
-- transactions, of which some fail, it is still stored under its identifiers, its version constraint,
-- version, release and permissions are the same, its time of change is not earlier, and it is the
-- same in all if it was uninstalled.
pub run_all-Stays :
    (ts : Timestamps)
    → KeepsMicros ts
    → (steps : List (Bool × Transaction)) (i : Installation) (w id : Text) (db : Tables)
    → get_installation w id db.installations ≡ some i
    → Stays w id i (run_all ts steps db).installations
unfolding run_all
run_all-Stays ts law [] i w id db h = (i, h, Preserved-refl i)
run_all-Stays ts law (step ∷ steps) i w id db h =
    let one = run-Stays ts law step.0 step.1 i w id db h in
    let rest = run_all-Stays ts law steps one.0 w id (run ts step.0 step.1 db) one.1 in
    (rest.0, rest.1, Preserved-trans i one.0 rest.0 one.2 rest.2)
