-- ===== src/Catalog/Releases.antt =====
-- apps/control-plane/internal/catalog/postgres/store.go, the releases and their states.
--
-- Whether the provider and the endpoint binding of a release are stored is an argument, since the
-- tables of trust are not part of the model.
pub mod Backed
pub mod Versions
pub mod Moves
pub mod Steps
pub mod Owners
pub mod Prepared
pub mod Reachable
use ne_kiro.Prelude.{
  some_if, ℕ, zero, suc, ◌+◌, ◌-◌, ◌*◌, ◌/◌, ◌%◌, ◌^◌, ◌≤◌, ◌<◌, ◌≡◌, ◌≢◌, ◌↔◌, ◌⊎◌, ◌∙◌, refl, sym,
  ap, subst, inl, inr, Bool, true, false, not, ◌&&◌, ◌||◌, Option, none, some, List, [], ◌∷◌, ◌++◌,
  map, arith, Eq, ◌==◌, ==_refl, ==_false-ne, if◌then◌else◌, ◌or_else◌, reject_if, or_else-none,
  reject_if-none, Result, ok, err, ◌>>=◌, >>=-eq-ok, Result-cases, is_empty, nat_eq, leb, ltb,
  length, length-append, keep, All, all_of, any_of, first_error, Bool-cases, Option-cases, test,
  test_iff, same_elements,
}
use ne_kiro.Prelude.Text.{Text, codes, text_eq, text_beq, text_beq_iff, text_beq_self}
use ne_kiro.Catalog.Model.{
  PublicationStatus, PublicationStatus-discrete, ReleaseState, ReleaseState-discrete,
  publication_status_eq, release_state_eq, CatalogError, AgentSkill, AgentCard, AgentRelease,
  AgentVersion, not_found, forbidden, conflict, invalid, dependency_failed, release_not_found,
  release_conflict, release_invalid,
}
use ne_kiro.Prelude.{Time}
use ne_kiro.Prelude.Table.{find_row, put_row}
use mathlib.Core.Option
use ne_kiro.Contracts.Event.{is_safe_identifier}
use ne_kiro.Catalog.Store.{
  present, Tables, VersionRow, is_version, is_release_of, has_release_id, publish_version,
  disable_version,
}

-- The CHECK constraint on the times of `catalog.agent_releases`.
unfoldable pub state_times : ReleaseState → Bool → Bool → Bool → Bool → Bool → Bool
state_times ReleaseState.draft evidence verified published suspended revoked =
    not evidence && not verified && not published && not suspended && not revoked
state_times ReleaseState.pending_verification evidence verified published suspended revoked =
    not evidence && not verified && not published && not suspended && not revoked
state_times ReleaseState.verified evidence verified published suspended revoked =
    evidence && verified && not published && not suspended && not revoked
state_times ReleaseState.published evidence verified published suspended revoked =
    evidence && verified && published && not suspended && not revoked
state_times ReleaseState.suspended evidence verified published suspended revoked =
    evidence && verified && suspended && not revoked
state_times ReleaseState.revoked evidence verified published suspended revoked =
    evidence && verified && revoked
state_times (ReleaseState.other_state t) evidence verified published suspended revoked = false

-- The CHECK constraints of `catalog.agent_releases`.
unfoldable pub release_row : AgentRelease → Bool
unfolding state_times present
release_row r =
    is_safe_identifier r.release_id
    && is_safe_identifier r.provider_id
    && is_safe_identifier r.agent_id
    && nat_eq (length r.card_digest) 32
    && elim r.verification_evidence_digest [ none ↦ true | some d ↦ nat_eq (length d) 32 ]
    && text_beq r.verification_method (codes "http_well_known")
    && leb r.created_at r.updated_at
    && state_times r.state (present r.verification_evidence_digest) (present r.verified_at)
        (present r.published_at) (present r.suspended_at) (present r.revoked_at)

unfoldable pub stored_release : (Time → Time) → AgentRelease → AgentRelease
stored_release column r = record r {
  created_at = column r.created_at;
  updated_at = column r.updated_at;
  verified_at = Option.map column r.verified_at;
  published_at = Option.map column r.published_at;
  suspended_at = Option.map column r.suspended_at;
  revoked_at = Option.map column r.revoked_at;
}

-- A release of the same identifier, or of the same version of the agent.
unfoldable pub taken : AgentRelease → List AgentRelease → Bool
taken r rs =
    any_of (has_release_id r.release_id) rs
    || any_of (is_release_of r.agent_id r.agent_card_version) rs

unfoldable pub insert_release :
    Bool → Bool → AgentRelease → Tables → Tables × Result CatalogError AgentRelease
insert_release true row_ok row db = (db, err release_conflict)
insert_release false false row db = (db, err dependency_failed)
insert_release false true row db = (record db { releases = row ∷ db.releases }, ok row)

-- `CreateRelease`.
unfoldable pub create_release :
    (Time → Time) → Bool → Bool → AgentRelease → Tables → Tables × Result CatalogError AgentRelease
unfolding stored_release taken insert_release release_row
create_release column false linked value db = (db, err dependency_failed)
create_release column true linked value db =
    let row = stored_release column value in
    insert_release (taken row db.releases)
      (release_row row
        && linked
        && any_of (is_version row.agent_id row.agent_card_version) db.versions)
      row db

-- `GetRelease`.
unfoldable pub get_release : Bool → Text → Tables → Result CatalogError AgentRelease
get_release false release_id db = err dependency_failed
get_release true release_id db = elim (find_row (has_release_id release_id) db.releases) [
  | none ↦ err release_not_found
  | some r ↦ ok r
]

-- The rows that the cases of the switch write.
unfoldable pub verified_release : Time → List ℕ → AgentRelease → AgentRelease
verified_release at evidence r = record r {
  state = ReleaseState.verified;
  updated_at = at;
  verified_at = some at;
  verification_evidence_digest = some evidence;
}

unfoldable pub published_release : Time → AgentRelease → AgentRelease
published_release at r = record r {
  state = ReleaseState.published;
  updated_at = at;
  published_at = some at;
}

unfoldable pub suspended_release : Time → AgentRelease → AgentRelease
suspended_release at r = record r {
  state = ReleaseState.suspended;
  updated_at = at;
  suspended_at = some at;
}

unfoldable pub revoked_release : Time → AgentRelease → AgentRelease
revoked_release at r = record r {
  state = ReleaseState.revoked;
  updated_at = at;
  revoked_at = some at;
}

-- Verification needs evidence.
unfoldable pub verified_with : Time → Option (List ℕ) → Bool → AgentRelease → Option AgentRelease
unfolding verified_release
verified_with at none is_pending r = none
verified_with at (some evidence) is_pending r = some_if is_pending (verified_release at evidence r)

-- The switch of `TransitionRelease`, none in its default.
unfoldable pub next_release :
    Time → Option (List ℕ) → ReleaseState → ReleaseState → AgentRelease → Option AgentRelease
unfolding verified_with published_release suspended_release revoked_release
next_release at evidence current ReleaseState.verified r =
    verified_with at evidence (current == ReleaseState.pending_verification) r
next_release at evidence current ReleaseState.published r =
    some_if (current == ReleaseState.verified) (published_release at r)
next_release at evidence current ReleaseState.suspended r =
    some_if (current == ReleaseState.verified || current == ReleaseState.published)
      (suspended_release at r)
next_release at evidence current ReleaseState.revoked r =
    some_if
      (current == ReleaseState.verified
        || current == ReleaseState.published
        || current == ReleaseState.suspended)
      (revoked_release at r)
next_release at evidence current target r = none

-- What the transition does to the version of the release.
unfoldable pub version_step :
    (Time → Time) → Time → AgentRelease → ReleaseState → Tables → Option Tables
version_step column at r ReleaseState.published db =
    publish_version column at r.agent_id r.agent_card_version db
version_step column at r ReleaseState.suspended db =
    disable_version column at r.agent_id r.agent_card_version db
version_step column at r ReleaseState.revoked db =
    disable_version column at r.agent_id r.agent_card_version db
version_step column at r _ db = some db

-- The row of the release is written last; a constraint that fails undoes the transaction.
unfoldable pub write_release :
    Option Tables → Bool → Text → AgentRelease → Tables → Tables × Result CatalogError AgentRelease
write_release (some after) true release_id row db =
    (record after { releases = put_row (has_release_id release_id) row after.releases }, ok row)
write_release _ _ release_id row db = (db, err dependency_failed)

unfoldable pub transition_row :
    (Time → Time)
    → Time
    → Text
    → ReleaseState
    → AgentRelease
    → Option AgentRelease
    → Tables
    → Tables × Result CatalogError AgentRelease
unfolding version_step write_release release_row
transition_row column at release_id target r none db = (db, err release_conflict)
transition_row column at release_id target r (some row) db =
    write_release (version_step column at r target db) (release_row row) release_id row db

unfoldable pub transition_release_found :
    (Time → Time)
    → Time
    → Text
    → Option (List ℕ)
    → ReleaseState
    → Option AgentRelease
    → Tables
    → Tables × Result CatalogError AgentRelease
unfolding transition_row next_release
transition_release_found column at release_id evidence target none db = (db, err release_not_found)
transition_release_found column at release_id evidence target (some r) db =
    transition_row column at release_id target r
      (next_release (column at) evidence r.state target r) db

-- `TransitionRelease`.
unfoldable pub transition_release :
    (Time → Time)
    → Bool
    → Text
    → ReleaseState
    → Option (List ℕ)
    → Time
    → Tables
    → Tables × Result CatalogError AgentRelease
unfolding transition_release_found
transition_release column false release_id target evidence at db = (db, err dependency_failed)
transition_release column true release_id target evidence at db =
    transition_release_found column at release_id evidence target
      (find_row (has_release_id release_id) db.releases) db
