-- ===== src/Catalog/Store.antt =====
-- apps/control-plane/internal/catalog/postgres/store.go with the tables of its migrations.
--
-- Transactions run one after another, each as one step on the tables. The source runs them at read
-- committed: `transition` locks the row of the version but not the release that it reads beside it,
-- so a release that another transaction creates at the same time can go unseen there, which the model
-- leaves out. The first argument of a transaction tells whether every statement of it
-- reaches the database; `column` is what a `timestamptz` column keeps of a time. The index of
-- capabilities is only read by searches and is left out.
use ne_kiro.Prelude.{
  ℕ, ◌+◌, ◌-◌, ◌^◌, Bool, true, false, not, ◌&&◌, Option, none, some, List, [], ◌∷◌, ◌==◌,
  if◌then◌else◌, Result, ok, err, nat_eq, ltb, length, any_of,
}
use ne_kiro.Prelude.Text.{Text, text_eq}
use ne_kiro.Catalog.Model.{
  PublicationStatus, publication_status_eq, release_state_eq, CatalogError, AgentSkill, AgentCard,
  AgentRelease, AgentVersion, not_found, forbidden, conflict, dependency_failed,
}
use ne_kiro.Prelude.{Time}
use ne_kiro.Prelude.Table.{find_row, put_row}
use mathlib.Core.Option
use ne_kiro.Contracts.Event.{is_safe_identifier}

-- A row of agent_identities.
pub record Identity : Type 0 where
  pub agent_id : Text
  pub owner_id : Text
  pub public_agent_id : Text

-- A row of agent_versions; its key is the identity of its card.
pub record VersionRow : Type 0 where
  pub card : AgentCard
  pub card_digest : List ℕ
  pub status : PublicationStatus
  pub registered_at : Time
  pub published_at : Option Time
  pub publication_sequence : Option ℕ
  pub disabled_at : Option Time
  pub legacy_unverified : Bool

pub record Tables : Type 0 where
  pub identities : List Identity
  pub versions : List VersionRow
  pub releases : List AgentRelease
  pub last_sequence : ℕ

abbrev pub empty_tables : Tables
empty_tables = record { identities = []; versions = []; releases = []; last_sequence = 0 }

unfoldable pub names_agent : Text → Identity → Bool
names_agent agent_id i = i.agent_id == agent_id

unfoldable pub is_version : Text → Text → VersionRow → Bool
is_version agent_id version row = row.card.agent_id == agent_id && row.card.version == version

unfoldable pub is_release_of : Text → Text → AgentRelease → Bool
is_release_of agent_id version r = r.agent_id == agent_id && r.agent_card_version == version

unfoldable pub has_release_id : Text → AgentRelease → Bool
has_release_id release_id r = r.release_id == release_id

-- The row of `selectVersionSQL` as `scanVersion` reads it.
unfoldable pub joined : Tables → VersionRow → Identity → AgentVersion
unfolding is_release_of
joined db row identity = record {
  public_agent_id = identity.public_agent_id;
  card = row.card;
  card_digest = row.card_digest;
  status = row.status;
  registered_at = row.registered_at;
  published_at = row.published_at;
  publication_sequence = row.publication_sequence;
  disabled_at = row.disabled_at;
  legacy_unverified = row.legacy_unverified;
  release = find_row (is_release_of row.card.agent_id row.card.version) db.releases;
}

-- The version of a row and its owner, if the identity that the row references is there.
unfoldable pub with_identity : Tables → Option VersionRow → Option (AgentVersion × Text)
unfolding joined names_agent
with_identity db none = none
with_identity db (some row) =
    Option.map (λ i. (joined db row i, i.owner_id))
      (find_row (names_agent row.card.agent_id) db.identities)

unfoldable pub select_version : Tables → Text → Text → Option (AgentVersion × Text)
unfolding with_identity is_version
select_version db agent_id version =
    with_identity db (find_row (is_version agent_id version) db.versions)

-- `Get`.
unfoldable pub get : Bool → Text → Text → Tables → Result CatalogError AgentVersion
unfolding select_version
get false agent_id version db = err dependency_failed
get true agent_id version db = elim (select_version db agent_id version) [
  | none ↦ err not_found
  | some v ↦ ok v.0
]

-- The CHECK constraint on the status of `catalog.agent_versions`.
unfoldable pub version_timestamps : VersionRow → Bool
version_timestamps row =
    timestamps row.status row.published_at row.publication_sequence row.disabled_at
  where
    timestamps : PublicationStatus → Option Time → Option ℕ → Option Time → Bool
    timestamps PublicationStatus.draft none none none = true
    timestamps PublicationStatus.published (some t) (some n) none = true
    timestamps PublicationStatus.disabled none none (some d) = true
    timestamps PublicationStatus.disabled (some t) (some n) (some d) = true
    timestamps _ _ _ _ = false

unfoldable pub distinct_skills : List AgentSkill → Bool
distinct_skills [] = true
distinct_skills (skill ∷ skills) =
    is_safe_identifier skill.id
    && not (any_of (λ (other : AgentSkill). other.id == skill.id) skills)
    && distinct_skills skills

unfoldable pub version_row : VersionRow → Bool
unfolding version_timestamps
version_row row =
    is_safe_identifier row.card.agent_id
    && nat_eq (length row.card_digest) 32
    && version_timestamps row

-- `ON CONFLICT (agent_id) DO NOTHING`.
unfoldable pub claimed : AgentVersion → Option Identity → Identity
claimed value (some i) = i
claimed value none = record {
  agent_id = value.card.agent_id;
  owner_id = value.card.owner_id;
  public_agent_id = value.public_agent_id;
}

unfoldable pub claim : Option Identity → Identity → List Identity → List Identity
claim (some i) identity is = is
claim none identity is = identity ∷ is

-- The formats and the unique public identifier of a new row of agent_identities.
unfoldable pub claim_row : Option Identity → Identity → List Identity → Bool
claim_row (some i) identity is = true
claim_row none identity is =
    is_safe_identifier identity.agent_id
    && is_safe_identifier identity.owner_id
    && not (any_of (λ (other : Identity). other.public_agent_id == identity.public_agent_id) is)

unfoldable pub new_version : (Time → Time) → AgentVersion → VersionRow
new_version column value = record {
  card = value.card;
  card_digest = value.card_digest;
  status = value.status;
  registered_at = column value.registered_at;
  published_at = none;
  publication_sequence = none;
  disabled_at = none;
  legacy_unverified = false;
}

-- `Register`.
unfoldable pub register :
    (Time → Time) → Bool → AgentVersion → Tables → Tables × Result CatalogError AgentVersion
unfolding names_agent claimed claim claim_row is_version new_version version_row distinct_skills
register column false value db = (db, err dependency_failed)
register column true value db =
    let found = find_row (names_agent value.card.agent_id) db.identities in
    let identity = claimed value found in
    let row = new_version column value in
    if not (claim_row found identity db.identities)
    then (db, err dependency_failed)
    else if any_of (is_version value.card.agent_id value.card.version) db.versions
    then (db, err conflict)
    else if not (identity.owner_id == value.card.owner_id)
    then (db, err forbidden)
    else if not (version_row row && distinct_skills value.card.skills)
    then (db, err dependency_failed)
    else (
      record db { identities = claim found identity db.identities; versions = row ∷ db.versions },
      ok (record value {
        registered_at = column value.registered_at;
        public_agent_id = identity.public_agent_id;
      }),
    )

abbrev pub max_sequence : ℕ
max_sequence = 2 ^ 63 - 1

unfoldable pub published_row : (Time → Time) → Time → ℕ → VersionRow → VersionRow
published_row column at sequence row = record row {
  status = PublicationStatus.published;
  published_at = some (column at);
  publication_sequence = some sequence;
}

unfoldable pub disabled_row : (Time → Time) → Time → VersionRow → VersionRow
disabled_row column at row = record row {
  status = PublicationStatus.disabled;
  disabled_at = some (column at);
}

-- An UPDATE of the row of this key; it fails when the new row breaks a CHECK constraint.
unfoldable pub put_version :
    (VersionRow → VersionRow) → Text → Text → List VersionRow → Option (List VersionRow)
unfolding is_version version_row
put_version change agent_id version rows = elim (find_row (is_version agent_id version) rows) [
  | none ↦ some rows
  | some row ↦
      if version_row (change row)
      then some (put_row (is_version agent_id version) (change row) rows)
      else none
]

-- The clock is a `bigint`, which does not pass its maximum.
unfoldable pub publish_version : (Time → Time) → Time → Text → Text → Tables → Option Tables
unfolding put_version published_row
publish_version column at agent_id version db =
    let sequence = db.last_sequence + 1 in
    if ltb max_sequence sequence
    then none
    else Option.map (λ rows. record db { versions = rows; last_sequence = sequence })
        (put_version (published_row column at sequence) agent_id version db.versions)

unfoldable pub disable_version : (Time → Time) → Time → Text → Text → Tables → Option Tables
unfolding put_version disabled_row
disable_version column at agent_id version db =
    Option.map (λ rows. record db { versions = rows })
      (put_version (disabled_row column at) agent_id version db.versions)

unfoldable pub present : {A : Type 0} → Option A → Bool
present none = false
present (some a) = true

-- What `transition` returns after its write, read back from the tables.
unfoldable pub written_version :
    Text → Text → Tables → Option Tables → Tables × Result CatalogError AgentVersion
unfolding get
written_version agent_id version db none = (db, err dependency_failed)
written_version agent_id version db (some after) = (after, get true agent_id version after)

-- `transition`, which `Publish` and `Disable` call.
unfoldable pub transition_found :
    (Time → Time)
    → Bool
    → Text
    → Time
    → Option (AgentVersion × Text)
    → Tables
    → Tables × Result CatalogError AgentVersion
unfolding publish_version disable_version written_version present
transition_found column publish caller at none db = (db, err not_found)
transition_found column publish caller at (some v) db =
    let agent_id = v.0.card.agent_id in
    let version = v.0.card.version in
    if not (v.1 == caller)
    then (db, err forbidden)
    else if present v.0.release
    then (db, err conflict)
    else if publish
    then if not (v.0.status == PublicationStatus.draft)
      then (db, err conflict)
      else written_version agent_id version db (publish_version column at agent_id version db)
    else if v.0.status == PublicationStatus.disabled
    then (db, ok v.0)
    else written_version agent_id version db (disable_version column at agent_id version db)

-- `transition`, run alone.
unfoldable pub transition :
    (Time → Time)
    → Bool
    → Bool
    → Text
    → Text
    → Text
    → Time
    → Tables
    → Tables × Result CatalogError AgentVersion
unfolding transition_found select_version
transition column publish false agent_id version caller at db = (db, err dependency_failed)
transition column publish true agent_id version caller at db =
    transition_found column publish caller at (select_version db agent_id version) db
