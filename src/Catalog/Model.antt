-- ===== src/Catalog/Model.antt =====
-- apps/control-plane/internal/catalog/model.go, with what the catalog reads of an Agent Card.
use native.Mathlib.Decide.{ℕ_discrete}
use ne_kiro.Prelude.{Time, ℕ, Option, List, Bool, Eq, test, test_iff}
use ne_kiro.Prelude.Text.{Text}

pub data PublicationStatus : Type 0 where
  draft published disabled : PublicationStatus
  other_status : Text → PublicationStatus

unfoldable pub PublicationStatus-discrete : Discrete PublicationStatus
PublicationStatus-discrete = hlevel ℕ_discrete

instance abbrev pub publication_status_eq : Eq PublicationStatus
publication_status_eq = record {
  beq = λ a b. test (PublicationStatus-discrete a b);
  decides = λ a b. test_iff (PublicationStatus-discrete a b);
}

pub data ReleaseState : Type 0 where
  draft pending_verification verified published suspended revoked : ReleaseState
  other_state : Text → ReleaseState

unfoldable pub ReleaseState-discrete : Discrete ReleaseState
ReleaseState-discrete = hlevel ℕ_discrete

instance abbrev pub release_state_eq : Eq ReleaseState
release_state_eq = record {
  beq = λ a b. test (ReleaseState-discrete a b);
  decides = λ a b. test_iff (ReleaseState-discrete a b);
}

-- The errors of model.go.
pub data CatalogError : Type 0 where
  not_found forbidden conflict invalid dependency_failed : CatalogError
  release_not_found release_conflict release_invalid release_unavailable : CatalogError
  release_unpublished release_suspended release_revoked : CatalogError

-- The fields of AgentSkill and AgentCard of contracts.go that decide an authorization; a permission
-- is its identifier.
pub record AgentSkill : Type 0 where
  pub id : Text
  pub required_permissions : List Text

pub record AgentCard : Type 0 where
  pub agent_id : Text
  pub version : Text
  pub owner_id : Text
  pub skills : List AgentSkill
  pub permissions : List Text

-- A digest is the list of its bytes.
pub record AgentRelease : Type 0 where
  pub release_id : Text
  pub provider_id : Text
  pub agent_id : Text
  pub agent_card_version : Text
  pub card_digest : List ℕ
  pub endpoint_binding_id : Text
  pub endpoint_origin : Text
  pub endpoint_path : Text
  pub verification_method : Text
  pub verification_evidence_digest : Option (List ℕ)
  pub state : ReleaseState
  pub created_at : Time
  pub updated_at : Time
  pub verified_at : Option Time
  pub published_at : Option Time
  pub suspended_at : Option Time
  pub revoked_at : Option Time

pub record AgentVersion : Type 0 where
  pub public_agent_id : Text
  pub card : AgentCard
  pub card_digest : List ℕ
  pub status : PublicationStatus
  pub registered_at : Time
  pub published_at : Option Time
  pub publication_sequence : Option ℕ
  pub disabled_at : Option Time
  pub legacy_unverified : Bool
  pub release : Option AgentRelease
