-- ===== src/Catalog/Releases/Owners.antt =====
-- postgres/store.go and release.go of the catalog: the releases after what owners do.
use ne_kiro.Prelude.{
  ◌+◌, ◌≤◌, ◌≡◌, ◌∙◌, refl, sym, ap, subst, inl, inr, Bool, true, false, ◌&&◌, Option, none, some,
  arith, ◌==◌, Bool-cases, Option-cases,
}
use ne_kiro.Prelude.Text.{Text, text_eq, text_beq_iff}
use ne_kiro.Catalog.Model.{PublicationStatus, publication_status_eq, release_state_eq, AgentVersion}
use ne_kiro.Catalog.Store.{
  Tables, VersionRow, Identity, is_version, is_release_of, publish_version, disable_version,
  published_row, disabled_row, names_agent, transition, transition_found, written_version,
  select_version, with_identity, joined,
}
use ne_kiro.Prelude.Table.{find_row}
use ne_kiro.Catalog.Releases.Versions.{Changed, disable_version-Changed, publish_version-Changed}
use ne_kiro.Prelude.{Time, count}
use ne_kiro.Catalog.Store.{present}
use ne_kiro.Catalog.Releases.Backed.{Backed, backed_by}

-- A change of a version without a release.
releases_free-Backed :
    (change : VersionRow → VersionRow) (agent_id version : Text) (db after : Tables)
    → (after.releases ≡ db.releases) × Changed change agent_id version db.versions after.versions
    → find_row (is_release_of agent_id version) db.releases ≡ none
    → Backed db
    → Backed after
releases_free-Backed change agent_id version db after c n b = record {
  backed = λ a v.
      subst
        (λ rs.
          backed_by (find_row (is_version a v) after.versions) (find_row (is_release_of a v) rs)
          ≡ true)
        (sym c.0) (backs a v);
  single = λ a v. subst (λ rs. count (is_release_of a v) rs ≤ 1) (sym c.0) (b.single a v);
}
  where
    no_release : (row : Option VersionRow) → backed_by row none ≡ true
    no_release row = unfold backed_by in refl

    backs :
        (a v : Text)
        → backed_by
            (find_row (is_version a v) after.versions)
            (find_row (is_release_of a v) db.releases)
          ≡ true
    backs a v = elim (Bool-cases (agent_id == a && version == v)) [
      | inr e ↦ rw (c.1.elsewhere a v e) (b.backed a v)
      | inl e ↦
          let same_agent = (text_beq_iff agent_id a).0 (ground (arith, e)) in
          let same_version = (text_beq_iff version v).0 (ground (arith, e)) in
          let none_here =
            subst (λ x. find_row (is_release_of a x) db.releases ≡ none) same_version
              (subst (λ x. find_row (is_release_of x version) db.releases ≡ none) same_agent n) in
          rw none_here (no_release (find_row (is_version a v) after.versions))
    ]

published-Backed :
    (column : Time → Time) (at : Time) (agent_id version : Text) (db : Tables) (o : Option Tables)
    → publish_version column at agent_id version db ≡ o
    → find_row (is_release_of agent_id version) db.releases ≡ none
    → Backed db
    → Backed (written_version agent_id version db o).0
unfolding written_version
published-Backed column at agent_id version db none e n b = b
published-Backed column at agent_id version db (some after) e n b =
    releases_free-Backed (published_row column at (db.last_sequence + 1)) agent_id version db after
      (publish_version-Changed column at agent_id version db after e) n b

disabled-Backed :
    (column : Time → Time) (at : Time) (agent_id version : Text) (db : Tables) (o : Option Tables)
    → disable_version column at agent_id version db ≡ o
    → find_row (is_release_of agent_id version) db.releases ≡ none
    → Backed db
    → Backed (written_version agent_id version db o).0
unfolding written_version
disabled-Backed column at agent_id version db none e n b = b
disabled-Backed column at agent_id version db (some after) e n b =
    releases_free-Backed (disabled_row column at) agent_id version db after
      (disable_version-Changed column at agent_id version db after e) n b

-- What a read of a version is.
pub record Selected (db : Tables) (agent_id version : Text) (x : AgentVersion × Text) : Type 0 where
  pub row : VersionRow
  pub identity : Identity
  pub is_row : find_row (is_version agent_id version) db.versions ≡ some row
  pub is_joined : x.0 ≡ joined db row identity

pub select_version-Selected :
    (db : Tables) (agent_id version : Text) (x : AgentVersion × Text)
    → select_version db agent_id version ≡ some x
    → Selected db agent_id version x
unfolding select_version with_identity
select_version-Selected db agent_id version x h =
    elim (Option-cases (find_row (is_version agent_id version) db.versions)) [
      | inl e ↦ absurd (cc (rw (e, select_version) at h))
      | inr (row, e) ↦
          elim (Option-cases (find_row (names_agent row.card.agent_id) db.identities)) [
            | inl i ↦ absurd (cc (rw (e, i, select_version, with_identity) at h))
            | inr (identity, i) ↦
                let same : (joined db row identity, identity.owner_id) ≡ x =
                  cc (rw (e, i, select_version, with_identity) at h) in
                record {
                  row = row;
                  identity = identity;
                  is_row = e;
                  is_joined = ap (λ (p : AgentVersion × Text). p.0) (sym same);
                }
          ]
    ]

not_present : {A : Type 0} (o : Option A) → present o ≡ false → o ≡ none
unfolding present
not_present none h = refl
not_present (some a) h = absurd (cc h)

-- A version that is read without a release has none stored.
joined_free :
    (db : Tables) (row : VersionRow) (identity : Identity) (x : AgentVersion)
    → x ≡ joined db row identity
    → x.release ≡ none
    → find_row (is_release_of x.card.agent_id x.card.version) db.releases ≡ none
unfolding joined
joined_free db row identity x e n =
    subst
      (λ (w : AgentVersion).
        find_row (is_release_of w.card.agent_id w.card.version) db.releases ≡ none)
      (sym e) (ap (λ (w : AgentVersion). w.release) (sym e) ∙ n)

transition_found-Backed :
    (column : Time → Time) (publish : Bool) (caller : Text) (at : Time) (agent_id version : Text)
    (v : Option (AgentVersion × Text)) (db : Tables)
    → select_version db agent_id version ≡ v
    → Backed db
    → Backed (transition_found column publish caller at v db).0
unfolding transition_found
transition_found-Backed column publish caller at agent_id version none db s b = b
transition_found-Backed column publish caller at agent_id version (some x) db s b =
    elim (Bool-cases (x.1 == caller)) [
      | inr o ↦ rw (o, transition_found) b
      | inl o ↦ elim (Bool-cases (present x.0.release)) [
        | inl r ↦ rw (o, r, transition_found) b
        | inr r ↦
            let selected = select_version-Selected db agent_id version x s in
            let free : find_row (is_release_of x.0.card.agent_id x.0.card.version) db.releases
                ≡ none =
              joined_free db selected.row selected.identity x.0 selected.is_joined
                (not_present x.0.release r) in
            elim (Bool-cases publish) [
              | inl p ↦ elim (Bool-cases (x.0.status == PublicationStatus.draft)) [
                | inr d ↦ rw (o, r, p, d, transition_found) b
                | inl d ↦
                    rw (o, r, p, d, transition_found)
                      (published-Backed column at x.0.card.agent_id x.0.card.version db
                        (publish_version column at x.0.card.agent_id x.0.card.version db) refl free
                        b)
              ]
              | inr p ↦ elim (Bool-cases (x.0.status == PublicationStatus.disabled)) [
                | inl d ↦ rw (o, r, p, d, transition_found) b
                | inr d ↦
                    rw (o, r, p, d, transition_found)
                      (disabled-Backed column at x.0.card.agent_id x.0.card.version db
                        (disable_version column at x.0.card.agent_id x.0.card.version db) refl free
                        b)
              ]
            ]
      ]
    ]

-- `Publish` and `Disable` keep the releases backed.
pub transition-Backed :
    (column : Time → Time) (publish sent : Bool) (agent_id version caller : Text) (at : Time)
    (db : Tables)
    → Backed db
    → Backed (transition column publish sent agent_id version caller at db).0
unfolding transition
transition-Backed column publish false agent_id version caller at db b = b
transition-Backed column publish true agent_id version caller at db b =
    transition_found-Backed column publish caller at agent_id version
      (select_version db agent_id version) db refl b
