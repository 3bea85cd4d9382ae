-- ===== src/Workspace/Store/Consistent.antt =====
-- postgres/store.go of the workspace: the tables after a write.
use ne_kiro.Prelude.{
  ◌==◌, ◌≤◌, ◌≡◌, refl, Bool, true, false, not, Option, none, some, List, ◌∷◌, arith, count,
  Bool-cases, Option-cases, inl, inr, any_of, count_le,
}
use ne_kiro.Prelude.Text.{Text, text_eq}
use ne_kiro.Workspace.Model.{Installation, WorkspaceRow, installation_status_eq}
use ne_kiro.Workspace.Store.{
  Tables, Timestamps, no_rows, is_current, has_current, has_key, installation_row, workspace_row,
  insert_when, create_when, create_for, create_installation, create_workspace, find_workspace,
  stored_installation,
}
use ne_kiro.Workspace.Store.Rows.{count-has_key_new, count-is_current_new}

-- A row that a CHECK constraint refuses.
unfoldable pub unchecked : Installation → Bool
unchecked i = not (installation_row i)

abbrev pub absent {ℓ} : {A : Type ℓ} → Option A → Bool
absent none = true
absent (some a) = false

-- A row whose workspace does not exist.
unfoldable pub orphan : List WorkspaceRow → Installation → Bool
orphan ws i = absent (find_workspace i.workspace_id ws)

pub record Consistent (db : Tables) : Type 0 where
  pub keys : (id : Text) → count (has_key id) db.installations ≤ 1
  pub current :
      (workspace_id agent_id : Text) → count (is_current workspace_id agent_id) db.installations ≤ 1
  pub checked : count unchecked db.installations ≡ 0
  pub owned : count (orphan db.workspaces) db.installations ≡ 0

pub no_rows-Consistent : Consistent no_rows
no_rows-Consistent = record {
  keys = λ id. omega arith;
  current = λ w a. omega arith;
  checked = refl;
  owned = refl;
}

grown_orphan :
    (row : WorkspaceRow) (ws : List WorkspaceRow) (i : Installation)
    → orphan ws i ≡ false
    → orphan (row ∷ ws) i ≡ false
unfolding orphan find_workspace
grown_orphan row ws i h = ground (arith, h)

added_workspace-Consistent :
    (row : WorkspaceRow) (db : Tables)
    → Consistent db
    → Consistent (record db { workspaces = row ∷ db.workspaces })
added_workspace-Consistent row db c = record {
  keys = c.keys;
  current = c.current;
  checked = c.checked;
  owned = omega (
    arith,
    c.owned,
    count_le (orphan (row ∷ db.workspaces)) (orphan db.workspaces) (grown_orphan row db.workspaces)
        db.installations,
  );
}

pub create_workspace-Consistent :
    (ts : Timestamps) (sent : Bool) (value : WorkspaceRow) (db : Tables)
    → Consistent db
    → Consistent (create_workspace ts sent value db).0
unfolding create_workspace
create_workspace-Consistent ts false value db c = c
create_workspace-Consistent ts true value db c =
    let row = record value {
      created_at = ts.column value.created_at;
      updated_at = ts.column value.updated_at;
    } in
    elim (Option-cases (find_workspace value.workspace_id db.workspaces)) [
      | inr (w, e) ↦ rw (e, create_workspace) c
      | inl e ↦ elim (Bool-cases (workspace_row row)) [
        | inl r ↦ rw (e, r, create_workspace) (added_workspace-Consistent row db c)
        | inr r ↦ rw (e, r, create_workspace) c
      ]
    ]

insert_when-Consistent :
    (clash row_ok : Bool) (row : Installation) (db : Tables)
    → any_of (has_key row.installation_id) db.installations ≡ clash
    → installation_row row ≡ row_ok
    → has_current row.workspace_id row.agent_id db.installations ≡ false
    → orphan db.workspaces row ≡ false
    → Consistent db
    → Consistent (insert_when clash row_ok row db).0
unfolding insert_when
insert_when-Consistent true row_ok row db k r h o c = c
insert_when-Consistent false false row db k r h o c = c
insert_when-Consistent false true row db k r h o c = record {
  keys = λ id. count-has_key_new row db.installations id k (c.keys id);
  current = λ w a. count-is_current_new row db.installations w a h (c.current w a);
  checked = unfold unchecked in grind (arith, r, c.checked);
  owned = grind (arith, o, c.owned);
}

create_when-Consistent :
    (current : Bool) (row : Installation) (db : Tables)
    → has_current row.workspace_id row.agent_id db.installations ≡ current
    → orphan db.workspaces row ≡ false
    → Consistent db
    → Consistent (create_when current row db).0
unfolding create_when
create_when-Consistent true row db h o c = c
create_when-Consistent false row db h o c =
    insert_when-Consistent (any_of (has_key row.installation_id) db.installations)
      (installation_row row) row db refl refl h o c

create_for-Consistent :
    (w : Option WorkspaceRow) (caller : Text) (row : Installation) (db : Tables)
    → find_workspace row.workspace_id db.workspaces ≡ w
    → Consistent db
    → Consistent (create_for w caller row db).0
unfolding create_for orphan
create_for-Consistent none caller row db e c = c
create_for-Consistent (some w) caller row db e c = elim (Bool-cases (w.owner_id == caller)) [
  | inr o ↦ rw o c
  | inl o ↦ rw o (
      create_when-Consistent (has_current row.workspace_id row.agent_id db.installations) row db
        refl (rw (e, orphan) refl) c)
]

pub create_installation-Consistent :
    (ts : Timestamps) (sent : Bool) (caller : Text) (value : Installation) (db : Tables)
    → Consistent db
    → Consistent (create_installation ts sent caller value db).0
unfolding create_installation stored_installation
create_installation-Consistent ts false caller value db c = c
create_installation-Consistent ts true caller value db c =
    create_for-Consistent (find_workspace value.workspace_id db.workspaces) caller
      (stored_installation ts value) db refl c
