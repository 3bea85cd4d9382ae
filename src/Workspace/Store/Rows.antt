-- ===== src/Workspace/Store/Rows.antt =====
-- postgres/store.go of the workspace: what a write leaves of the other rows.
use ne_kiro.Prelude.{
  none, ◌==◌, ◌+◌, ◌≤◌, ◌≡◌, refl, Bool, true, false, some, List, [], ◌∷◌, arith, count, bit,
  Bool-cases, inl, inr, any_of, any_of-false-count, sym, subst,
}
use ne_kiro.Prelude.Text.{Text, text_eq, text_beq_iff, text_beq_self}
use ne_kiro.Workspace.Model.{
  InstallationStatus, InstallationStatus-discrete, uninstalled, disabled, installation_status_eq,
  Installation,
}
use ne_kiro.Workspace.Store.{
  change_error, uninstall_error, first_of, is_row, update_row, get_installation, has_key,
  is_current, has_current,
}

-- A write replaces the row that the read of the same keys found.
pub count-update_row :
    (p : Installation → Bool) (before after : Installation) (is : List Installation)
    → get_installation after.workspace_id after.installation_id is ≡ some before
    → count p (update_row after is) + bit (p before) ≡ count p is + bit (p after)
unfolding get_installation first_of update_row
count-update_row p before after [] h = cc
count-update_row p before after (i ∷ is) h =
    elim (Bool-cases (is_row after.workspace_id after.installation_id i)) [
      | inl e ↦ ground (arith, h)
      | inr e ↦ grind (arith, e, h, count-update_row p before after is (rw e at h))
    ]

pub first_of-true :
    (p : Installation → Bool) (is : List Installation) {found : Installation}
    → first_of p is ≡ some found
    → p found ≡ true
unfolding first_of
first_of-true p [] h = cc
first_of-true p (i ∷ is) h = elim (Bool-cases (p i)) [
  | inl e ↦ ground (arith, h, e)
  | inr e ↦ first_of-true p is (rw e at h)
]

pub is_row-keys :
    (workspace_id installation_id : Text) (i : Installation)
    → is_row workspace_id installation_id i ≡ true
    → (i.workspace_id ≡ workspace_id) × (i.installation_id ≡ installation_id)
unfolding is_row
is_row-keys workspace_id installation_id i h = (
  (text_beq_iff i.workspace_id workspace_id).0 (ground (arith, h)),
  (text_beq_iff i.installation_id installation_id).0 (ground (arith, h)),
)

pub is_current-keys :
    (workspace_id agent_id : Text) (i : Installation)
    → is_current workspace_id agent_id i ≡ true
    → (i.workspace_id ≡ workspace_id) × (i.agent_id ≡ agent_id)
unfolding is_current
is_current-keys workspace_id agent_id i h = (
  (text_beq_iff i.workspace_id workspace_id).0 (ground (arith, h)),
  (text_beq_iff i.agent_id agent_id).0 (ground (arith, h)),
)

pub get_installation-keys :
    (workspace_id installation_id : Text) (is : List Installation) {found : Installation}
    → get_installation workspace_id installation_id is ≡ some found
    → (found.workspace_id ≡ workspace_id) × (found.installation_id ≡ installation_id)
unfolding get_installation
get_installation-keys workspace_id installation_id is {found} h =
    is_row-keys workspace_id installation_id found
      (first_of-true (is_row workspace_id installation_id) is h)

-- At most one row has a key after a row with a new key is added.
pub count-has_key_new :
    (row : Installation) (is : List Installation) (id : Text)
    → any_of (has_key row.installation_id) is ≡ false
    → count (has_key id) is ≤ 1
    → count (has_key id) (row ∷ is) ≤ 1
unfolding has_key
count-has_key_new row is id fresh c = elim (Bool-cases (row.installation_id == id)) [
  | inr e ↦ ground (arith, e, c)
  | inl e ↦
      let zero_rows = any_of-false-count (has_key row.installation_id) is fresh in
      let same = (text_beq_iff row.installation_id id).0 e in grind (arith, rw same at zero_rows)
]

pub count-is_current_new :
    (row : Installation) (is : List Installation) (workspace_id agent_id : Text)
    → has_current row.workspace_id row.agent_id is ≡ false
    → count (is_current workspace_id agent_id) is ≤ 1
    → count (is_current workspace_id agent_id) (row ∷ is) ≤ 1
unfolding has_current
count-is_current_new row is workspace_id agent_id fresh c =
    elim (Bool-cases (is_current workspace_id agent_id row)) [
      | inr e ↦ ground (arith, e, c)
      | inl e ↦
          let same = is_current-keys workspace_id agent_id row e in
          let zero_rows = any_of-false-count (is_current row.workspace_id row.agent_id) is fresh in
          grind (arith, rw (same.0, same.1) at zero_rows)
    ]

pub get-update_row_same :
    (before after : Installation) (is : List Installation)
    → get_installation after.workspace_id after.installation_id is ≡ some before
    → get_installation after.workspace_id after.installation_id (update_row after is) ≡ some after
unfolding get_installation first_of update_row
get-update_row_same before after [] h = cc
get-update_row_same before after (i ∷ is) h =
    elim (Bool-cases (is_row after.workspace_id after.installation_id i)) [
      | inl e ↦
          unfold is_row in
          ground (arith, text_beq_self after.workspace_id, text_beq_self after.installation_id, e)
      | inr e ↦ grind (arith, e, get-update_row_same before after is (rw e at h))
    ]

pub get-update_row_other :
    (after : Installation) (is : List Installation) (workspace_id installation_id : Text)
    → is_row workspace_id installation_id after ≡ false
    → get_installation workspace_id installation_id (update_row after is)
      ≡ get_installation workspace_id installation_id is
unfolding get_installation first_of update_row
get-update_row_other after [] workspace_id installation_id h = refl
get-update_row_other after (i ∷ is) workspace_id installation_id h =
    elim (Bool-cases (is_row after.workspace_id after.installation_id i)) [
      | inl e ↦
          let same = is_row-keys after.workspace_id after.installation_id i e in
          grind (arith, e, h, other same.0 same.1)
      | inr e ↦ grind (arith, e, get-update_row_other after is workspace_id installation_id h)
    ]
  where
    other :
        i.workspace_id ≡ after.workspace_id
        → i.installation_id ≡ after.installation_id
        → is_row workspace_id installation_id i ≡ false
    other p q = unfold is_row in rw (p, q) h

-- The row that a key reads is the row of its own keys.
pub found_by_own_keys :
    (workspace_id installation_id : Text) (is : List Installation) {found : Installation}
    → get_installation workspace_id installation_id is ≡ some found
    → get_installation found.workspace_id found.installation_id is ≡ some found
found_by_own_keys workspace_id installation_id is {found} g =
    let own = get_installation-keys workspace_id installation_id is g in
    subst (λ w. get_installation w found.installation_id is ≡ some found) (sym own.0)
      (subst (λ k. get_installation workspace_id k is ≡ some found) (sym own.1) g)

-- A row that a change or an uninstall does not refuse is not uninstalled.
pub change_error-current :
    (before status : InstallationStatus)
    → change_error before status ≡ none
    → (before == uninstalled) ≡ false
unfolding change_error
change_error-current before status n = ground (arith, n)

pub uninstall_error-current :
    (s : InstallationStatus) → uninstall_error s ≡ none → (s == uninstalled) ≡ false
unfolding uninstall_error InstallationStatus-discrete
uninstall_error-current s n =
    rw ((installation_status_eq.decides s disabled).0 (ground (arith, n))) refl

-- A row that is found has its key among the rows.
pub get_installation-any_of :
    (workspace_id installation_id : Text) (is : List Installation) {found : Installation}
    → get_installation workspace_id installation_id is ≡ some found
    → any_of (has_key installation_id) is ≡ true
unfolding get_installation first_of has_key
get_installation-any_of workspace_id installation_id [] h = cc
get_installation-any_of workspace_id installation_id (i ∷ is) h =
    elim (Bool-cases (is_row workspace_id installation_id i)) [
      | inl e ↦ unfold is_row in ground (arith, e)
      | inr e ↦ ground (arith, get_installation-any_of workspace_id installation_id is (rw e at h))
    ]
