-- ===== src/Workspace/Store/Reachable.antt =====
-- postgres/store.go of the workspace: the tables that transactions reach.
use ne_kiro.Prelude.{Time, ◌∷◌, [], List, Bool}
use ne_kiro.Prelude.Text.{Text}
use ne_kiro.Workspace.Model.{Installation, WorkspaceRow, InstallationStatus}
use ne_kiro.Workspace.Store.{
  Tables, Timestamps, no_rows, create_installation, create_workspace, change_status,
  uninstall_installation,
}
use ne_kiro.Workspace.Store.Consistent.{
  Consistent, no_rows-Consistent, create_workspace-Consistent, create_installation-Consistent,
}
use ne_kiro.Workspace.Store.Kept.{change_status-Consistent, uninstall_installation-Consistent}

-- A transaction, with its arguments; whether its statements reach the database; its time.
pub data Transaction : Type 0 where
  creates_workspace : WorkspaceRow → Transaction
  installs : Text → Installation → Transaction
  changes : Text → Text → InstallationStatus → Time → Transaction
  uninstalls : Text → Text → Time → Transaction

-- The tables after a transaction.
unfoldable pub run : Timestamps → Bool → Transaction → Tables → Tables
run ts sent (creates_workspace value) db = (create_workspace ts sent value db).0
run ts sent (installs caller value) db = (create_installation ts sent caller value db).0
run ts sent (changes workspace_id installation_id status at) db =
    (change_status ts sent workspace_id installation_id status at db).0
run ts sent (uninstalls workspace_id installation_id at) db =
    (uninstall_installation ts sent workspace_id installation_id at db).0

-- The tables after a sequence of transactions, of which some fail.
unfoldable pub run_all : Timestamps → List (Bool × Transaction) → Tables → Tables
unfolding run
run_all ts [] db = db
run_all ts (step ∷ steps) db = run_all ts steps (run ts step.0 step.1 db)

run-Consistent :
    (ts : Timestamps) (sent : Bool) (t : Transaction) (db : Tables)
    → Consistent db
    → Consistent (run ts sent t db)
unfolding run
run-Consistent ts sent (creates_workspace value) db c =
    create_workspace-Consistent ts sent value db c
run-Consistent ts sent (installs caller value) db c =
    create_installation-Consistent ts sent caller value db c
run-Consistent ts sent (changes workspace_id installation_id status at) db c =
    change_status-Consistent ts sent workspace_id installation_id status at db c
run-Consistent ts sent (uninstalls workspace_id installation_id at) db c =
    uninstall_installation-Consistent ts sent workspace_id installation_id at db c

pub run_all_kept :
    (ts : Timestamps) (steps : List (Bool × Transaction)) (db : Tables)
    → Consistent db
    → Consistent (run_all ts steps db)
unfolding run_all
run_all_kept ts [] db c = c
run_all_kept ts (step ∷ steps) db c =
    run_all_kept ts steps (run ts step.0 step.1 db) (run-Consistent ts step.0 step.1 db c)

-- For any column behaviour, after any sequence of transactions on empty tables, some of which fail,
-- each installation identifier has one row at most, a workspace has one installation of an agent at
-- most that is not uninstalled, each row passes the CHECK constraints, and its workspace exists.
pub run_all-Consistent :
    (ts : Timestamps) (steps : List (Bool × Transaction)) → Consistent (run_all ts steps no_rows)
run_all-Consistent ts steps = run_all_kept ts steps no_rows no_rows-Consistent
