-- ===== src/Workspace/Store/Created.antt =====
-- postgres/store.go of the workspace: what a successful `CreateInstallation` leaves.
use ne_kiro.Prelude.{
  ◌≡◌, refl, sym, ap, inl, inr, Bool, true, false, Option, none, some, ◌∷◌, ◌==◌, ok, any_of,
  Bool-cases,
}
use ne_kiro.Prelude.Text.{Text, text_eq, text_beq_iff}
use ne_kiro.Workspace.Model.{installation_status_eq, WorkspaceRow, Installation}
use ne_kiro.Workspace.Store.{
  Timestamps, Tables, find_workspace, has_current, has_key, installation_row, stored_installation,
  insert_when, create_when, create_for, create_installation,
}

-- The row that is returned is the first of the installations, and nothing else changed.
pub record Created (ts : Timestamps) (caller : Text) (value : Installation) (db after : Tables)
    (row : Installation) : Type 0 where
  pub workspace : WorkspaceRow
  pub found : find_workspace value.workspace_id db.workspaces ≡ some workspace
  pub owned : workspace.owner_id ≡ caller
  pub is_row : row ≡ stored_installation ts value
  pub rows : after ≡ record db { installations = row ∷ db.installations }

insert_when-ok :
    (clash row_ok : Bool) (value row : Installation) (db : Tables)
    → (insert_when clash row_ok value db).1 ≡ ok row
    → (row ≡ value)
      × ((insert_when clash row_ok value db).0
          ≡ record db { installations = row ∷ db.installations })
unfolding insert_when
insert_when-ok true row_ok value row db h = absurd (cc h)
insert_when-ok false false value row db h = absurd (cc h)
insert_when-ok false true value row db h =
    let same : value ≡ row = cc h in
    (sym same, ap (λ i. record db { installations = i ∷ db.installations }) same)

create_when-ok :
    (current : Bool) (value row : Installation) (db : Tables)
    → (create_when current value db).1 ≡ ok row
    → (row ≡ value)
      × ((create_when current value db).0 ≡ record db { installations = row ∷ db.installations })
unfolding create_when
create_when-ok true value row db h = absurd (cc h)
create_when-ok false value row db h =
    insert_when-ok (any_of (has_key value.installation_id) db.installations)
      (installation_row value) value row db h

create_for-ok :
    (owner : Option WorkspaceRow) (caller : Text) (value row : Installation) (db : Tables)
    → (create_for owner caller value db).1 ≡ ok row
    → (w : WorkspaceRow) × (owner ≡ some w)
      × (w.owner_id ≡ caller)
      × (row ≡ value)
      × ((create_for owner caller value db).0
          ≡ record db { installations = row ∷ db.installations })
unfolding create_for
create_for-ok none caller value row db h = absurd (cc h)
create_for-ok (some w) caller value row db h = elim (Bool-cases (w.owner_id == caller)) [
  | inr e ↦ absurd (cc (e, rw (e, create_for) at h))
  | inl e ↦
      let made =
        create_when-ok (has_current value.workspace_id value.agent_id db.installations) value row db
          (rw (e, create_for) at h) in
      (w, refl, (text_beq_iff w.owner_id caller).0 e, made.0, rw (e, create_for) made.1)
]

pub create_installation-Created :
    (ts : Timestamps) (sent : Bool) (caller : Text) (value row : Installation) (db : Tables)
    → (create_installation ts sent caller value db).1 ≡ ok row
    → Created ts caller value db (create_installation ts sent caller value db).0 row
unfolding create_installation stored_installation
create_installation-Created ts false caller value row db h = absurd (cc h)
create_installation-Created ts true caller value row db h =
    let made =
      create_for-ok (find_workspace value.workspace_id db.workspaces) caller
        (stored_installation ts value) row db h in
    record { workspace = made.0; found = made.1; owned = made.2; is_row = made.3; rows = made.4 }
