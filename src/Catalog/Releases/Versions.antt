-- ===== src/Catalog/Releases/Versions.antt =====
-- postgres/store.go of the catalog: what a change of a version leaves of the others.
use ne_kiro.Prelude.{
  ℕ, ◌+◌, ◌≡◌, ◌∙◌, refl, sym, ap, subst, inl, inr, true, false, ◌&&◌, Option, none, some, List,
  ◌==◌, ltb, Bool-cases, Option-cases,
}
use ne_kiro.Prelude.Text.{Text, text_eq, text_beq_self}
use ne_kiro.Catalog.Model.{
  ReleaseState, publication_status_eq, release_state_eq, AgentCard, AgentRelease,
}
use ne_kiro.Catalog.Store.{
  Tables, VersionRow, is_version, publish_version, disable_version, put_version, published_row,
  disabled_row, version_row, max_sequence,
}
use ne_kiro.Catalog.Releases.{version_step}
use ne_kiro.Prelude.Table.{find_row, put_row, find_row-true, find-put_row_other}
use ne_kiro.Prelude.Table.{find-put_row_self}
use ne_kiro.Prelude.{Time}
use mathlib.Core.Option
use ne_kiro.Catalog.Releases.Backed.{is_version-key}

-- The versions after a change of the row of one key, seen by any key.
pub record Changed (change : VersionRow → VersionRow) (agent_id version : Text)
    (before after : List VersionRow) : Type 0 where
  pub here :
      find_row (is_version agent_id version) after
      ≡ Option.map change (find_row (is_version agent_id version) before)
  pub elsewhere :
      (a v : Text)
      → (agent_id == a && version == v) ≡ false
      → find_row (is_version a v) after ≡ find_row (is_version a v) before

-- A row has one key.
is_version-other :
    (agent_id version a v : Text) (row : VersionRow)
    → (agent_id == a && version == v) ≡ false
    → is_version agent_id version row ≡ true
    → is_version a v row ≡ false
is_version-other agent_id version a v row d h = elim (Bool-cases (is_version a v row)) [
  | inr e ↦ e
  | inl e ↦
      let one = is_version-key agent_id version row h in
      let two = is_version-key a v row e in
      absurd (cc (d, same (sym one.0 ∙ two.0) (sym one.1 ∙ two.1)))
]
  where
    same : agent_id ≡ a → version ≡ v → (agent_id == a && version == v) ≡ true
    same p q = rw (p, q, text_beq_self a, text_beq_self v) refl

put_row-Changed :
    (change : VersionRow → VersionRow) (agent_id version : Text) (row : VersionRow)
    (rows : List VersionRow)
    → find_row (is_version agent_id version) rows ≡ some row
    → is_version agent_id version (change row) ≡ true
    → Changed change agent_id version rows (put_row (is_version agent_id version) (change row) rows)
put_row-Changed change agent_id version row rows f k = record {
  here = find-put_row_self (is_version agent_id version) row (change row) rows f k ∙ rw f refl;
  elsewhere = λ a v d.
      find-put_row_other (is_version agent_id version) (is_version a v) row (change row) rows f
        (is_version-other agent_id version a v row d
          (find_row-true (is_version agent_id version) rows f))
        (is_version-other agent_id version a v (change row) d k);
}

-- `change` leaves the key of a row.
abbrev pub KeepsKey : (VersionRow → VersionRow) → Type 0
KeepsKey change = (row : VersionRow) → (change row).card ≡ row.card

pub put_version-Changed :
    (change : VersionRow → VersionRow) (agent_id version : Text) (rows after : List VersionRow)
    → KeepsKey change
    → put_version change agent_id version rows ≡ some after
    → Changed change agent_id version rows after
unfolding put_version is_version
put_version-Changed change agent_id version rows after k h =
    elim (Option-cases (find_row (is_version agent_id version) rows)) [
      | inl e ↦
          subst (Changed change agent_id version rows) (cc (rw (e, put_version) at h))
            (record { here = rw e refl; elsewhere = λ a v d. refl })
      | inr (row, e) ↦ elim (Bool-cases (version_row (change row))) [
        | inr c ↦ absurd (cc (e, rw (e, c, put_version) at h))
        | inl c ↦ subst (Changed change agent_id version rows) (cc (rw (e, c, put_version) at h)) (
            put_row-Changed change agent_id version row rows e (
              subst (λ (c : AgentCard). (c.agent_id == agent_id && c.version == version) ≡ true)
                (sym (k row)) (find_row-true (is_version agent_id version) rows e)))
      ]
    ]

-- How a step of a release changes the row of its version.
unfoldable pub step_change : (Time → Time) → Time → ReleaseState → ℕ → VersionRow → VersionRow
step_change column at ReleaseState.published sequence row = published_row column at sequence row
step_change column at ReleaseState.suspended sequence row = disabled_row column at row
step_change column at ReleaseState.revoked sequence row = disabled_row column at row
step_change column at _ sequence row = row

-- The versions after the first write of a step.
pub record Stepped (column : Time → Time) (at : Time) (r : AgentRelease) (target : ReleaseState)
    (db after : Tables) : Type 0 where
  pub same_releases : after.releases ≡ db.releases
  pub versions_changed :
      Changed
        (step_change column at target (db.last_sequence + 1))
        r.agent_id
        r.agent_card_version
        db.versions
        after.versions

unchanged :
    (rows : List VersionRow) (change : VersionRow → VersionRow) (a v : Text)
    → ((row : VersionRow) → change row ≡ row)
    → Changed change a v rows rows
unchanged rows change a v k = record {
  here = same (find_row (is_version a v) rows);
  elsewhere = λ b w d. refl;
}
  where
    same : (o : Option VersionRow) → o ≡ Option.map change o
    same none = refl
    same (some row) = ap some (sym (k row))

pub publish_version-Changed :
    (column : Time → Time) (at : Time) (a v : Text) (db after : Tables)
    → publish_version column at a v db ≡ some after
    → (after.releases ≡ db.releases)
      × Changed (published_row column at (db.last_sequence + 1)) a v db.versions after.versions
unfolding publish_version published_row
publish_version-Changed column at a v db after h =
    let sequence = db.last_sequence + 1 in
    elim (Bool-cases (ltb max_sequence sequence)) [
      | inl e ↦ absurd (cc (e, rw (e, publish_version) at h))
      | inr e ↦
          elim (Option-cases (put_version (published_row column at sequence) a v db.versions)) [
            | inl p ↦ absurd (cc (e, rw (e, p, publish_version) at h))
            | inr (rows, p) ↦
                let same : record db { versions = rows; last_sequence = sequence } ≡ after =
                  cc (rw (e, p, publish_version) at h) in
                subst
                  (λ (t : Tables).
                    (t.releases ≡ db.releases)
                    × Changed (published_row column at sequence) a v db.versions t.versions)
                  same
                  (
                    refl,
                    put_version-Changed (published_row column at sequence) a v db.versions rows
                        (λ row. refl) p,
                  )
          ]
    ]

pub disable_version-Changed :
    (column : Time → Time) (at : Time) (a v : Text) (db after : Tables)
    → disable_version column at a v db ≡ some after
    → (after.releases ≡ db.releases)
      × Changed (disabled_row column at) a v db.versions after.versions
unfolding disable_version disabled_row
disable_version-Changed column at a v db after h =
    elim (Option-cases (put_version (disabled_row column at) a v db.versions)) [
      | inl p ↦ absurd (cc (rw (p, disable_version) at h))
      | inr (rows, p) ↦
          let same : record db { versions = rows } ≡ after = cc (rw (p, disable_version) at h) in
          subst
            (λ (t : Tables).
              (t.releases ≡ db.releases)
              × Changed (disabled_row column at) a v db.versions t.versions)
            same
            (
              refl,
              put_version-Changed (disabled_row column at) a v db.versions rows (λ row. refl) p,
            )
    ]

still :
    (column : Time → Time) (at : Time) (r : AgentRelease) (target : ReleaseState)
    (db after : Tables)
    → ((row : VersionRow) → step_change column at target (db.last_sequence + 1) row ≡ row)
    → db ≡ after
    → Stepped column at r target db after
still column at r target db after k e = subst (Stepped column at r target db) e (record {
  same_releases = refl;
  versions_changed =
      unchanged db.versions (step_change column at target (db.last_sequence + 1)) r.agent_id
        r.agent_card_version k;
})

pub version_step-Stepped :
    (column : Time → Time) (at : Time) (r : AgentRelease) (target : ReleaseState)
    (db after : Tables)
    → version_step column at r target db ≡ some after
    → Stepped column at r target db after
unfolding version_step step_change
version_step-Stepped column at r ReleaseState.published db after h =
    let c = publish_version-Changed column at r.agent_id r.agent_card_version db after h in
    record { same_releases = c.0; versions_changed = c.1 }
version_step-Stepped column at r ReleaseState.suspended db after h =
    let c = disable_version-Changed column at r.agent_id r.agent_card_version db after h in
    record { same_releases = c.0; versions_changed = c.1 }
version_step-Stepped column at r ReleaseState.revoked db after h =
    let c = disable_version-Changed column at r.agent_id r.agent_card_version db after h in
    record { same_releases = c.0; versions_changed = c.1 }
version_step-Stepped column at r ReleaseState.draft db after h =
    still column at r ReleaseState.draft db after (λ row. refl) (cc h)
version_step-Stepped column at r ReleaseState.pending_verification db after h =
    still column at r ReleaseState.pending_verification db after (λ row. refl) (cc h)
version_step-Stepped column at r ReleaseState.verified db after h =
    still column at r ReleaseState.verified db after (λ row. refl) (cc h)
version_step-Stepped column at r (ReleaseState.other_state t) db after h =
    still column at r (ReleaseState.other_state t) db after (λ row. refl) (cc h)
