-- ===== src/Workspace/Store.antt =====
-- apps/control-plane/internal/workspace/postgres/store.go with the tables of its migrations.
--
-- A transaction locks the rows that it reads before a write, so each is one step on the tables. Its
-- first argument tells whether every statement of it reaches the database; a transaction that fails
-- is rolled back.
use ne_kiro.Prelude.{
  Time, ℕ, zero, suc, ◌+◌, ◌-◌, ◌*◌, ◌/◌, ◌%◌, ◌^◌, ◌≤◌, ◌<◌, ◌≡◌, ◌≢◌, ◌↔◌, ◌⊎◌, ◌∙◌, refl, sym,
  ap, subst, inl, inr, Bool, true, false, not, ◌&&◌, ◌||◌, Option, none, some, List, [], ◌∷◌, ◌++◌,
  map, arith, Eq, ◌==◌, ==_refl, ==_false-ne, if◌then◌else◌, ◌or_else◌, reject_if, or_else-none,
  reject_if-none, Result, ok, err, ◌>>=◌, >>=-eq-ok, Result-cases, is_empty, nat_eq, leb, ltb,
  length, length-append, keep, All, all_of, any_of, first_error, Bool-cases, Option-cases, test,
  test_iff, same_elements,
}
use ne_kiro.Prelude.Text.{Text, codes, text_eq, text_beq, text_beq_iff, text_beq_self}
use mathlib.Core.Option
use ne_kiro.Contracts.Event.{is_safe_identifier}
use ne_kiro.Workspace.Model.{
  WorkspaceError, not_found, forbidden, conflict, dependency_failed, InstallationStatus, enabled,
  disabled, uninstalled, installation_status_eq, WorkspaceRow, Installation, immutable_pin,
}
-- What a `timestamptz` column keeps of a time.
pub mod Clock
pub mod Rows
pub mod Consistent
pub mod Kept
pub mod Reachable
pub mod Lifecycle
pub mod History
pub mod Created

pub record Timestamps : Type 0 where
  pub column : Time → Time

pub record Tables : Type 0 where
  pub workspaces : List WorkspaceRow
  pub installations : List Installation

abbrev pub no_rows : Tables
no_rows = record { workspaces = []; installations = [] }

unfoldable pub find_workspace : Text → List WorkspaceRow → Option WorkspaceRow
find_workspace id [] = none
find_workspace id (w ∷ ws) = if w.workspace_id == id then some w else find_workspace id ws

-- The CHECK constraints of `workspace.workspaces`.
unfoldable pub workspace_row : WorkspaceRow → Bool
workspace_row w =
    is_safe_identifier w.workspace_id
    && is_safe_identifier w.owner_id
    && leb w.created_at w.updated_at

unfoldable pub state_timestamps : InstallationStatus → Time → Option Time → Bool
state_timestamps enabled updated none = true
state_timestamps disabled updated none = true
state_timestamps uninstalled updated (some t) = nat_eq t updated
state_timestamps _ updated _ = false

-- The CHECK constraints of `workspace.installations`.
unfoldable pub installation_row : Installation → Bool
installation_row i =
    is_safe_identifier i.installation_id
    && is_safe_identifier i.workspace_id
    && is_safe_identifier i.agent_id
    && (is_empty i.installed_release_id || is_safe_identifier i.installed_release_id)
    && leb i.installed_at i.updated_at
    && state_timestamps i.status i.updated_at i.uninstalled_at

unfoldable pub is_current : Text → Text → Installation → Bool
is_current workspace_id agent_id i =
    i.workspace_id == workspace_id && i.agent_id == agent_id && not (i.status == uninstalled)

-- `HasCurrentInstallation`.
unfoldable pub has_current : Text → Text → List Installation → Bool
unfolding is_current
has_current workspace_id agent_id is = any_of (is_current workspace_id agent_id) is

unfoldable pub has_key : Text → Installation → Bool
has_key installation_id i = i.installation_id == installation_id

unfoldable pub first_of : (Installation → Bool) → List Installation → Option Installation
first_of p [] = none
first_of p (i ∷ is) = if p i then some i else first_of p is

-- `GetCurrentInstallation`; the unique index allows one row at most.
unfoldable pub get_current : Text → Text → List Installation → Option Installation
unfolding is_current first_of
get_current workspace_id agent_id is = first_of (is_current workspace_id agent_id) is

unfoldable pub is_row : Text → Text → Installation → Bool
is_row workspace_id installation_id i =
    i.workspace_id == workspace_id && i.installation_id == installation_id

-- `GetInstallation`.
unfoldable pub get_installation : Text → Text → List Installation → Option Installation
unfolding is_row first_of
get_installation workspace_id installation_id is = first_of (is_row workspace_id installation_id) is

-- `CreateWorkspace`.
unfoldable pub create_workspace :
    Timestamps → Bool → WorkspaceRow → Tables → Tables × Result WorkspaceError WorkspaceRow
create_workspace ts false value db = (db, err dependency_failed)
create_workspace ts true value db =
    let row = record value {
      created_at = ts.column value.created_at;
      updated_at = ts.column value.updated_at;
    } in
    elim (find_workspace value.workspace_id db.workspaces) [
      | some w ↦ (db, err conflict)
      | none ↦
          if workspace_row row
          then (record db { workspaces = row ∷ db.workspaces }, ok row)
          else (db, err dependency_failed)
    ]

-- The row that is stored.
unfoldable pub stored_installation : Timestamps → Installation → Installation
stored_installation ts value = record value {
  installed_at = ts.column value.installed_at;
  updated_at = ts.column value.updated_at;
  uninstalled_at = Option.map ts.column value.uninstalled_at;
}

pub insert_when : Bool → Bool → Installation → Tables → Tables × Result WorkspaceError Installation
insert_when true row_ok row db = (db, err conflict)
insert_when false false row db = (db, err dependency_failed)
insert_when false true row db = (record db { installations = row ∷ db.installations }, ok row)

pub create_when : Bool → Installation → Tables → Tables × Result WorkspaceError Installation
unfolding insert_when
create_when true row db = (db, err conflict)
create_when false row db =
    insert_when (any_of (has_key row.installation_id) db.installations) (installation_row row) row
      db

pub create_for :
    Option WorkspaceRow → Text → Installation → Tables → Tables × Result WorkspaceError Installation
unfolding create_when
create_for none caller row db = (db, err not_found)
create_for (some w) caller row db =
    let created = create_when (has_current row.workspace_id row.agent_id db.installations) row db in
    if not (w.owner_id == caller) then (db, err forbidden) else created

-- `CreateInstallation`.
unfoldable pub create_installation :
    Timestamps → Bool → Text → Installation → Tables → Tables × Result WorkspaceError Installation
unfolding create_for stored_installation
create_installation ts false caller value db = (db, err dependency_failed)
create_installation ts true caller value db =
    create_for (find_workspace value.workspace_id db.workspaces) caller
      (stored_installation ts value) db

-- `nextLifecycleTime`.
unfoldable pub truncate_micros : Time → Time
truncate_micros t = t / 1000 * 1000

unfoldable pub next_lifecycle_time : Time → Time → Time
unfolding truncate_micros
next_lifecycle_time previous candidate =
    if ltb (truncate_micros previous) (truncate_micros candidate)
    then truncate_micros candidate
    else truncate_micros previous + 1000

-- The row of the primary key is written.
unfoldable pub update_row : Installation → List Installation → List Installation
unfolding is_row
update_row after [] = []
update_row after (i ∷ is) =
    let rest = update_row after is in
    if is_row after.workspace_id after.installation_id i then after ∷ is else i ∷ rest

-- The tests of `ChangeInstallationStatus` on the locked row.
unfoldable pub change_error : InstallationStatus → InstallationStatus → Option WorkspaceError
change_error before status =
    reject_if (before == uninstalled || before == status) conflict
    or_else reject_if
        ((not (before == enabled) || not (status == disabled))
          && (not (before == disabled) || not (status == enabled)))
        conflict

pub changed : Timestamps → InstallationStatus → Time → Installation → Installation
changed ts status at before = record before {
  status = status;
  updated_at = ts.column (next_lifecycle_time before.updated_at at);
}

-- The write, after the pin and the CHECK constraints were tested.
pub write_row : Bool → Bool → Installation → Tables → Tables × Result WorkspaceError Installation
write_row true true after db =
    (record db { installations = update_row after db.installations }, ok after)
write_row _ _ after db = (db, err dependency_failed)

pub change_row :
    Option WorkspaceError
    → Installation
    → Installation
    → Tables
    → Tables × Result WorkspaceError Installation
unfolding write_row
change_row (some e) before after db = (db, err e)
change_row none before after db =
    write_row (immutable_pin before after) (installation_row after) after db

pub change_found :
    Timestamps
    → InstallationStatus
    → Time
    → Option Installation
    → Tables
    → Tables × Result WorkspaceError Installation
unfolding change_row changed change_error
change_found ts status at none db = (db, err not_found)
change_found ts status at (some before) db =
    change_row (change_error before.status status) before (changed ts status at before) db

-- `ChangeInstallationStatus`.
unfoldable pub change_status :
    Timestamps
    → Bool
    → Text
    → Text
    → InstallationStatus
    → Time
    → Tables
    → Tables × Result WorkspaceError Installation
unfolding change_found
change_status ts false workspace_id installation_id status at db = (db, err dependency_failed)
change_status ts true workspace_id installation_id status at db =
    change_found ts status at (get_installation workspace_id installation_id db.installations) db

pub ended : Timestamps → Time → Installation → Installation
ended ts at before =
    let committed = ts.column (next_lifecycle_time before.updated_at at) in
    record before { status = uninstalled; updated_at = committed; uninstalled_at = some committed }

unfoldable pub uninstall_error : InstallationStatus → Option WorkspaceError
uninstall_error before = reject_if (not (before == disabled)) conflict

pub uninstall_found :
    Timestamps → Time → Option Installation → Tables → Tables × Result WorkspaceError Installation
unfolding change_row ended uninstall_error
uninstall_found ts at none db = (db, err not_found)
uninstall_found ts at (some before) db =
    change_row (uninstall_error before.status) before (ended ts at before) db

-- `UninstallInstallation`.
unfoldable pub uninstall_installation :
    Timestamps → Bool → Text → Text → Time → Tables → Tables × Result WorkspaceError Installation
unfolding uninstall_found
uninstall_installation ts false workspace_id installation_id at db = (db, err dependency_failed)
uninstall_installation ts true workspace_id installation_id at db =
    uninstall_found ts at (get_installation workspace_id installation_id db.installations) db
