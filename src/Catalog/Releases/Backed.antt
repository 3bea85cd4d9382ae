-- ===== src/Catalog/Releases/Backed.antt =====
-- postgres/store.go of the catalog: a release and the version that it names.
use ne_kiro.Prelude.{
  ◌≤◌, ◌≡◌, refl, subst, inl, inr, Bool, true, false, not, ◌&&◌, ◌||◌, Option, none, some, List, [],
  ◌∷◌, arith, ◌==◌, any_of, Bool-cases,
}
use ne_kiro.Prelude.Text.{Text, text_eq, text_beq, text_beq_iff}
use ne_kiro.Catalog.Model.{
  PublicationStatus, ReleaseState, publication_status_eq, release_state_eq, AgentRelease,
  AgentVersion,
}
use ne_kiro.Catalog.Store.{
  Tables, empty_tables, VersionRow, is_version, is_release_of, version_row, names_agent, register,
  new_version, claimed, claim_row, distinct_skills,
}
use ne_kiro.Catalog.Releases.{insert_release, taken}
use ne_kiro.Prelude.Table.{find_row, find_row-any_of-false, find_row-cons_false, find_row-cons_true}
use ne_kiro.Prelude.{Time, count, any_of-false-count}

-- A release is backed by a version of the same card; a published one, by a published version.
unfoldable pub backed_by : Option VersionRow → Option AgentRelease → Bool
backed_by row none = true
backed_by none (some r) = false
backed_by (some row) (some r) =
    text_beq row.card_digest r.card_digest
    && (not (r.state == ReleaseState.published) || row.status == PublicationStatus.published)

pub record Backed (db : Tables) : Type 0 where
  pub backed :
      (agent_id version : Text)
      → backed_by
          (find_row (is_version agent_id version) db.versions)
          (find_row (is_release_of agent_id version) db.releases)
        ≡ true
  pub single : (agent_id version : Text) → count (is_release_of agent_id version) db.releases ≤ 1

empty_backed :
    (a v : Text) → backed_by (find_row (is_version a v) []) (find_row (is_release_of a v) []) ≡ true
unfolding backed_by find_row
empty_backed a v = refl

pub empty_tables-Backed : Backed empty_tables
empty_tables-Backed = record { backed = λ a v. empty_backed a v; single = λ a v. omega arith }

pub is_version-key :
    (a v : Text) (row : VersionRow)
    → is_version a v row ≡ true
    → (row.card.agent_id ≡ a) × (row.card.version ≡ v)
unfolding is_version
is_version-key a v row h = (
  (text_beq_iff row.card.agent_id a).0 (ground (arith, h)),
  (text_beq_iff row.card.version v).0 (ground (arith, h)),
)

pub is_release_of-key :
    (a v : Text) (r : AgentRelease)
    → is_release_of a v r ≡ true
    → (r.agent_id ≡ a) × (r.agent_card_version ≡ v)
unfolding is_release_of
is_release_of-key a v r h = (
  (text_beq_iff r.agent_id a).0 (ground (arith, h)),
  (text_beq_iff r.agent_card_version v).0 (ground (arith, h)),
)

-- Without a version there is no release, which any version backs.
unbacked :
    (row : VersionRow) (r : Option AgentRelease)
    → backed_by none r ≡ true
    → backed_by (some row) r ≡ true
unfolding backed_by
unbacked row none h = refl
unbacked row (some r) h = absurd (cc h)

-- A new version has no release yet.
backed_by-new_version :
    (row : VersionRow) (versions : List VersionRow) (r : Option AgentRelease)
    (agent_id version : Text)
    → any_of (is_version row.card.agent_id row.card.version) versions ≡ false
    → backed_by (find_row (is_version agent_id version) versions) r ≡ true
    → backed_by (find_row (is_version agent_id version) (row ∷ versions)) r ≡ true
backed_by-new_version row versions r a v n h = elim (Bool-cases (is_version a v row)) [
  | inr e ↦ rw (find_row-cons_false (is_version a v) row versions e) h
  | inl e ↦
      let own = is_version-key a v row e in
      let fresh : any_of (is_version a v) versions ≡ false =
        subst (λ k. any_of (is_version a k) versions ≡ false) own.1
          (subst (λ k. any_of (is_version k row.card.version) versions ≡ false) own.0 n) in
      rw (find_row-cons_true (is_version a v) row versions e) (
        unbacked row r (
          subst (λ o. backed_by o r ≡ true) (find_row-any_of-false (is_version a v) versions fresh)
            h))
]

-- `Register` keeps the releases backed.
pub register-Backed :
    (column : Time → Time) (sent : Bool) (value : AgentVersion) (db : Tables)
    → Backed db
    → Backed (register column sent value db).0
unfolding register new_version
register-Backed column false value db b = b
register-Backed column true value db b =
    let found = find_row (names_agent value.card.agent_id) db.identities in
    let row = new_version column value in
    elim (Bool-cases (claim_row found (claimed value found) db.identities)) [
      | inr e ↦ rw (e, register) b
      | inl e ↦
          elim (Bool-cases
            (any_of (is_version value.card.agent_id value.card.version) db.versions)) [
              | inl n ↦ rw (e, n, register) b
              | inr n ↦ elim (Bool-cases ((claimed value found).owner_id == value.card.owner_id)) [
                | inr o ↦ rw (e, n, o, register) b
                | inl o ↦ elim (Bool-cases (version_row row && distinct_skills value.card.skills)) [
                  | inr c ↦ rw (e, n, o, c, register) b
                  | inl c ↦
                      rw (e, n, o, c, register)
                        (record {
                          backed = λ a v.
                              backed_by-new_version row db.versions
                                (find_row (is_release_of a v) db.releases) a v n (b.backed a v);
                          single = b.single;
                        })
                ]
              ]
            ]
    ]

-- A release that is inserted names a stored version, which has no release.
pub insert_release-Backed :
    (clash row_ok : Bool) (r : AgentRelease) (db : Tables)
    → taken r db.releases ≡ clash
    → backed_by (find_row (is_version r.agent_id r.agent_card_version) db.versions) (some r) ≡ true
    → Backed db
    → Backed (insert_release clash row_ok r db).0
unfolding insert_release
insert_release-Backed true row_ok r db t k b = b
insert_release-Backed false false r db t k b = b
insert_release-Backed false true r db t k b = record { backed = backs; single = one }
  where
    backs :
        (a v : Text)
        → backed_by
            (find_row (is_version a v) db.versions)
            (find_row (is_release_of a v) (r ∷ db.releases))
          ≡ true
    backs a v = elim (Bool-cases (is_release_of a v r)) [
      | inr e ↦ rw (find_row-cons_false (is_release_of a v) r db.releases e) (b.backed a v)
      | inl e ↦
          let own = is_release_of-key a v r e in
          rw (find_row-cons_true (is_release_of a v) r db.releases e) (
            subst (λ x. backed_by (find_row (is_version a x) db.versions) (some r) ≡ true) own.1
              (subst
                (λ x.
                  backed_by (find_row (is_version x r.agent_card_version) db.versions) (some r)
                  ≡ true)
                own.0 k))
    ]

    one : (a v : Text) → count (is_release_of a v) (r ∷ db.releases) ≤ 1
    one a v = elim (Bool-cases (is_release_of a v r)) [
      | inr e ↦ ground (arith, e, b.single a v)
      | inl e ↦
          let own = is_release_of-key a v r e in
          let fresh : any_of (is_release_of r.agent_id r.agent_card_version) db.releases ≡ false =
            unfold taken in ground (arith, t) in
          let none_there =
            any_of-false-count (is_release_of r.agent_id r.agent_card_version) db.releases fresh in
          grind (arith, e, rw (own.0, own.1) at none_there)
    ]
