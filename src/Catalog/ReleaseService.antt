-- ===== src/Catalog/ReleaseService.antt =====
-- apps/control-plane/internal/catalog/release.go.
--
-- The store of trust is a parameter.
use ne_kiro.Prelude.{
  ℕ, Bool, false, not, ◌&&◌, ◌||◌, Option, none, some, List, Eq, ◌==◌, if◌then◌else◌, ◌or_else◌,
  reject_if, Result, ok, err, ◌>>=◌, test, test_iff,
}
use ne_kiro.Prelude.Text.{Text, text_eq, text_beq}
use ne_kiro.Catalog.Model.{
  ReleaseState, publication_status_eq, release_state_eq, CatalogError, AgentRelease, AgentVersion,
  forbidden, dependency_failed, release_conflict, release_invalid,
}
use native.Mathlib.Decide.{ℕ_discrete}
use ne_kiro.Prelude.{Time, unless_error}
use ne_kiro.Contracts.Event.{is_safe_identifier}
use ne_kiro.Catalog.Select.{Semver, valid_agent_version_identity}
use ne_kiro.Catalog.Store.{present, Tables, get}
use ne_kiro.Catalog.Releases.{get_release, create_release, transition_release}

-- The fields of Provider and EndpointBinding of trust.go that releases depend on.
pub data VerificationStatus : Type 0 where
  unverified pending verified failed suspended revoked : VerificationStatus
  other_status : Text → VerificationStatus

unfoldable pub VerificationStatus-discrete : Discrete VerificationStatus
VerificationStatus-discrete = hlevel ℕ_discrete

instance abbrev pub verification_status_eq : Eq VerificationStatus
verification_status_eq = record {
  beq = λ a b. test (VerificationStatus-discrete a b);
  decides = λ a b. test_iff (VerificationStatus-discrete a b);
}

pub record Provider : Type 0 where
  pub provider_id : Text
  pub owner_identity : Text
  pub verification_status : VerificationStatus

pub record EndpointBinding : Type 0 where
  pub binding_id : Text
  pub agent_id : Text
  pub agent_card_version : Text
  pub origin : Text
  pub path : Text
  pub verification_method : Text
  pub verification_status : VerificationStatus
  pub verification_evidence_digest : Option (List ℕ)
  pub verified_at : Option Time

-- What the service calls of TrustStore.
pub record TrustStore : Type 0 where
  pub get_provider : Text → Result CatalogError Provider
  pub get_binding : Text → Text → Result CatalogError EndpointBinding

unfoldable pub authorize_provider : Text → Provider → Option CatalogError
authorize_provider caller provider =
    reject_if (not (provider.owner_identity == caller)) forbidden
    or_else reject_if (provider.verification_status == VerificationStatus.suspended) forbidden

-- `authorizeBinding`; the version is what the catalog reads for the identity.
unfoldable pub authorize_binding :
    TrustStore
    → Result CatalogError AgentVersion
    → Text
    → Text
    → Text
    → Text
    → Text
    → Result CatalogError (Provider × EndpointBinding × AgentVersion)
unfolding authorize_provider
authorize_binding trust stored caller provider_id agent_id version binding_id = do
  provider ← trust.get_provider provider_id
  passed ← unless_error (authorize_provider caller provider) (ok provider)
  binding ← trust.get_binding provider_id binding_id
  matched ←
      unless_error
        (reject_if
          (not (binding.agent_id == agent_id) || not (binding.agent_card_version == version))
          release_invalid)
        (ok binding)
  value ← stored
  ok (provider, binding, value)

-- The state of a new release, none when the binding is neither pending nor verified.
unfoldable pub first_state : VerificationStatus → Option ReleaseState
first_state VerificationStatus.verified = some ReleaseState.verified
first_state VerificationStatus.pending = some ReleaseState.pending_verification
first_state _ = none

unfoldable pub new_release :
    Text
    → Text
    → Text
    → Time
    → Provider
    → EndpointBinding
    → AgentVersion
    → ReleaseState
    → AgentRelease
new_release release_id agent_id version now provider binding value state = record {
  release_id = release_id;
  provider_id = provider.provider_id;
  agent_id = agent_id;
  agent_card_version = version;
  card_digest = value.card_digest;
  endpoint_binding_id = binding.binding_id;
  endpoint_origin = binding.origin;
  endpoint_path = binding.path;
  verification_method = binding.verification_method;
  verification_evidence_digest = binding.verification_evidence_digest;
  state = state;
  created_at = now;
  updated_at = now;
  verified_at = if state == ReleaseState.verified then binding.verified_at else none;
  published_at = none;
  suspended_at = none;
  revoked_at = none;
}

unfoldable pub state_result : Option ReleaseState → Result CatalogError ReleaseState
state_result none = err release_conflict
state_result (some state) = ok state

unfoldable pub id_result : Option Text → Result CatalogError Text
id_result none = err dependency_failed
id_result (some id) = ok id

unfoldable pub valid_release_request : Semver → Text → Text → Text → Text → Text → Bool
valid_release_request sv caller provider_id agent_id version binding_id =
    is_safe_identifier caller
    && is_safe_identifier provider_id
    && is_safe_identifier agent_id
    && valid_agent_version_identity sv agent_id version
    && is_safe_identifier binding_id

-- The release of an authorized binding.
unfoldable pub describe_release :
    TrustStore
    → Result CatalogError AgentVersion
    → Option Text
    → Text
    → Text
    → Text
    → Text
    → Text
    → Time
    → Result CatalogError AgentRelease
unfolding authorize_binding first_state new_release state_result id_result
describe_release trust stored new_id caller provider_id agent_id version binding_id now = do
  facts ← authorize_binding trust stored caller provider_id agent_id version binding_id
  state ← state_result (first_state facts.1.verification_status)
  release_id ← id_result new_id
  ok (new_release release_id agent_id version now facts.0 facts.1 facts.2 state)

-- `CreateRelease` up to the write; an identifier that could not be generated is none.
unfoldable pub prepare_release :
    Semver
    → TrustStore
    → Result CatalogError AgentVersion
    → Option Text
    → Text
    → Text
    → Text
    → Text
    → Text
    → Time
    → Result CatalogError AgentRelease
unfolding describe_release valid_release_request
prepare_release sv trust stored new_id caller provider_id agent_id version binding_id now =
    unless_error
      (reject_if (not (valid_release_request sv caller provider_id agent_id version binding_id))
        release_invalid)
      (describe_release trust stored new_id caller provider_id agent_id version binding_id now)

-- A write after checks that passed.
unfoldable pub after_check :
    {A : Type 0}
    → Result CatalogError A
    → (A → Tables × Result CatalogError AgentRelease)
    → Tables
    → Tables × Result CatalogError AgentRelease
after_check (err e) write db = (db, err e)
after_check (ok a) write db = write a

-- `CreateRelease`; `linked` tells whether the rows that the release references are stored.
unfoldable pub create_owned_release :
    Semver
    → TrustStore
    → (Time → Time)
    → Bool
    → Bool
    → Bool
    → Option Text
    → Text
    → Text
    → Text
    → Text
    → Text
    → Time
    → Tables
    → Tables × Result CatalogError AgentRelease
unfolding prepare_release after_check
create_owned_release sv trust column read sent linked new_id caller provider_id agent_id version
      binding_id now db =
    after_check
      (prepare_release sv trust (get read agent_id version db) new_id caller provider_id agent_id
        version binding_id now)
      (λ r. create_release column sent linked r db) db

-- `authorizeRelease`.
unfoldable pub authorize_release :
    TrustStore → Bool → Text → Text → Tables → Result CatalogError AgentRelease
authorize_release trust read caller release_id db =
    unless_error
      (reject_if (not (is_safe_identifier caller) || not (is_safe_identifier release_id))
        release_invalid)
      (get_release read release_id db >>= λ r. trust.get_provider r.provider_id >>= λ provider.
        unless_error (reject_if (not (provider.owner_identity == caller)) forbidden) (ok r))

-- `GetRelease` of the service.
unfoldable pub get_visible_release :
    TrustStore → Bool → Text → Text → Tables → Result CatalogError AgentRelease
get_visible_release trust read caller release_id db =
    unless_error
      (reject_if (not (is_safe_identifier caller) || not (is_safe_identifier release_id))
        release_invalid)
      (get_release read release_id db >>= λ r. trust.get_provider r.provider_id >>= λ provider.
        unless_error
          (reject_if
            (not (provider.owner_identity == caller) && not (r.state == ReleaseState.published))
            forbidden)
          (ok r))

unfoldable pub same_evidence : Option (List ℕ) → Option (List ℕ) → Bool
same_evidence (some a) (some b) = text_beq a b
same_evidence _ _ = false

unfoldable pub binding_current : AgentRelease → EndpointBinding → Option CatalogError
unfolding same_evidence
binding_current r b =
    reject_if
      (not (b.verification_status == VerificationStatus.verified)
        || not (b.agent_id == r.agent_id)
        || not (b.agent_card_version == r.agent_card_version)
        || not (b.origin == r.endpoint_origin)
        || not (b.path == r.endpoint_path)
        || not (present b.verification_evidence_digest))
      release_conflict
    or_else reject_if
        (not (
            r.state == ReleaseState.pending_verification
            && not (present r.verification_evidence_digest))
          && not (same_evidence r.verification_evidence_digest b.verification_evidence_digest))
        release_conflict

-- `requireCurrentVerifiedBinding`; it returns the binding that it tested.
unfoldable pub require_current_verified_binding :
    TrustStore → AgentRelease → Result CatalogError EndpointBinding
unfolding binding_current
require_current_verified_binding trust r = do
  provider ← trust.get_provider r.provider_id
  checked ←
      unless_error
        (reject_if (not (provider.verification_status == VerificationStatus.verified))
          release_conflict)
        (ok provider)
  binding ← trust.get_binding r.provider_id r.endpoint_binding_id
  unless_error (binding_current r binding) (ok binding)

-- A release in one of the states that an operation admits.
unfoldable pub admit : (ReleaseState → Bool) → AgentRelease → Result CatalogError AgentRelease
admit admits r = unless_error (reject_if (not (admits r.state)) release_conflict) (ok r)

-- The second read of the binding in `transitionAfterBinding`, and its test.
unfoldable pub read_evidence : TrustStore → AgentRelease → Result CatalogError (Option (List ℕ))
read_evidence trust r = trust.get_binding r.provider_id r.endpoint_binding_id >>= λ binding.
    unless_error (reject_if (not (present binding.verification_evidence_digest)) release_conflict)
      (ok binding.verification_evidence_digest)

-- `VerifyRelease`. The binding is read twice: `trust` is the store of trust at the checks, `again` at
-- the second read.
unfoldable pub verify_release :
    TrustStore
    → TrustStore
    → (Time → Time)
    → Bool
    → Bool
    → Text
    → Text
    → Time
    → Tables
    → Tables × Result CatalogError AgentRelease
unfolding after_check require_current_verified_binding authorize_release admit read_evidence
verify_release trust again column read sent caller release_id now db =
    after_check
      (authorize_release trust read caller release_id db
        >>= admit (λ s. s == ReleaseState.pending_verification)
        >>= λ r. require_current_verified_binding trust r >>= λ checked. read_evidence again r)
      (λ evidence. transition_release column sent release_id ReleaseState.verified evidence now db)
      db

-- `PublishRelease`.
unfoldable pub publish_release :
    TrustStore
    → (Time → Time)
    → Bool
    → Bool
    → Text
    → Text
    → Time
    → Tables
    → Tables × Result CatalogError AgentRelease
unfolding after_check require_current_verified_binding authorize_release admit
publish_release trust column read sent caller release_id now db =
    after_check
      (authorize_release trust read caller release_id db
        >>= admit (λ s. s == ReleaseState.verified)
        >>= require_current_verified_binding trust)
      (λ b. transition_release column sent release_id ReleaseState.published none now db) db

-- `SuspendRelease`.
unfoldable pub suspend_release :
    TrustStore
    → (Time → Time)
    → Bool
    → Bool
    → Text
    → Text
    → Time
    → Tables
    → Tables × Result CatalogError AgentRelease
unfolding after_check authorize_release admit
suspend_release trust column read sent caller release_id now db =
    after_check
      (authorize_release trust read caller release_id db
        >>= admit (λ s. s == ReleaseState.verified || s == ReleaseState.published))
      (λ r. transition_release column sent release_id ReleaseState.suspended none now db) db

-- `RevokeRelease`.
unfoldable pub revoke_release :
    TrustStore
    → (Time → Time)
    → Bool
    → Bool
    → Text
    → Text
    → Time
    → Tables
    → Tables × Result CatalogError AgentRelease
unfolding after_check authorize_release admit
revoke_release trust column read sent caller release_id now db =
    after_check
      (authorize_release trust read caller release_id db
        >>= admit (λ s.
          s == ReleaseState.verified || s == ReleaseState.published || s == ReleaseState.suspended))
      (λ r. transition_release column sent release_id ReleaseState.revoked none now db) db
