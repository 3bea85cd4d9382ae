-- ===== src/Catalog/Examples.antt =====
-- A release from its registration to its publication, and a choice among three versions.
use ne_kiro.Prelude.{
  ℕ, ◌≡◌, refl, true, false, none, some, List, [], ◌∷◌, arith, ok, nat_eq, ltb, length,
}
use ne_kiro.Prelude.Text.{Text, codes, text_eq, text_beq}
use ne_kiro.Catalog.Model.{
  PublicationStatus, PublicationStatus-discrete, ReleaseState, ReleaseState-discrete,
  publication_status_eq, release_state_eq, AgentRelease, AgentVersion,
}
use ne_kiro.Catalog.Store.{
  empty_tables, is_version, is_release_of, has_release_id, publish_version, put_version,
  published_row, version_row, names_agent, register, new_version, claimed, claim, claim_row,
  select_version, with_identity, joined, distinct_skills,
}
use ne_kiro.Catalog.Releases.{
  create_release, insert_release, stored_release, taken, release_row, next_release,
  published_release, version_step, write_release, transition_row, transition_release_found,
  transition_release, get_release,
}
use ne_kiro.Catalog.ReleaseService.{
  VerificationStatus, VerificationStatus-discrete, Provider, EndpointBinding, TrustStore,
  authorize_provider, authorize_binding, first_state, new_release, state_result, id_result,
  prepare_release, create_owned_release, publish_release, after_check,
}
use ne_kiro.Prelude.{Time}
use ne_kiro.Prelude.Table.{find_row, put_row}
use ne_kiro.Prelude.Text.{
  trim_space, is_alphanumeric, is_identifier_tail, is_space, text_lt, text_beq,
}
use ne_kiro.Contracts.Event.{is_safe_identifier}
use ne_kiro.Catalog.Select.{
  Semver, select_installable, select_from, skipped, constraint_branch_allows_version, replaces,
  selection_result, installability_error, release_installability, valid_agent_version_identity,
}
use ne_kiro.Catalog.Select.Greatest.{Ordered}
use ne_kiro.Catalog.Select.Installable.{Installable, select_installable-Installable}
use ne_kiro.Catalog.Store.{present, get, version_timestamps}
use ne_kiro.Catalog.Releases.{state_times}
use ne_kiro.Catalog.ReleaseService.{
  describe_release, valid_release_request, authorize_release, admit,
  require_current_verified_binding, binding_current, same_evidence,
}
use ne_kiro.Catalog.Releases.Reachable.{
  Operation, registers, creates, publishes, run, run_all, Matches, run_all-Matches,
}

-- Versions are compared by the length of their texts.
abbrev by_length : Semver
by_length = record {
  Version = ℕ;
  Constraint = ℕ;
  strict_new_version = λ t. some (length t);
  new_constraint = λ t. some (length t);
  check = λ c v. ltb v 7;
  greater_than = λ a b. ltb b a;
  equal = nat_eq;
  prerelease = λ v. [];
}

by_length-Ordered : Ordered by_length
by_length-Ordered = record {
  irrefl = λ a. ground arith;
  trans = λ a b c h k. ground (arith, h, k);
  greater_equal = λ a b c h k. ground (arith, h, k);
  equal_greater = λ a b c h k. ground (arith, h, k);
  equal_trans = λ a b c h k. ground (arith, h, k);
}

abbrev version_of : Text → AgentVersion
version_of version = record {
  public_agent_id = codes "agt_0";
  card = record {
    agent_id = codes "agent";
    version = version;
    owner_id = codes "owner";
    skills = [];
    permissions = [];
  };
  card_digest = 1 ∷ [];
  status = PublicationStatus.published;
  registered_at = 0;
  published_at = some 5;
  publication_sequence = some 1;
  disabled_at = none;
  legacy_unverified = true;
  release = none;
}

abbrev candidates : List AgentVersion
candidates =
    version_of (codes "1.2.0") ∷ version_of (codes "1.10.0") ∷ version_of (codes "1.10.10") ∷ []

selects_second :
    select_installable by_length (ok candidates) (codes "agent") (codes "^1")
    ≡ ok (version_of (codes "1.10.0"))
unfolding select_installable select_from skipped constraint_branch_allows_version replaces
    selection_result installability_error release_installability is_safe_identifier is_alphanumeric
    is_identifier_tail trim_space is_space PublicationStatus-discrete text_lt
selects_second = refl

select_installable-Installable_example :
    Installable by_length (codes "^1") candidates (version_of (codes "1.10.0"))
select_installable-Installable_example =
    select_installable-Installable by_length by_length-Ordered candidates (codes "agent")
      (codes "^1") (version_of (codes "1.10.0")) selects_second

abbrev bytes : List ℕ
bytes =
    1 ∷ 2 ∷ 3 ∷ 4 ∷ 5 ∷ 6 ∷ 7 ∷ 8 ∷ 1 ∷ 2 ∷ 3 ∷ 4 ∷ 5 ∷ 6 ∷ 7 ∷ 8 ∷ 1 ∷ 2 ∷ 3 ∷ 4 ∷ 5 ∷ 6 ∷ 7 ∷ 8
    ∷ 1 ∷ 2 ∷ 3 ∷ 4 ∷ 5 ∷ 6 ∷ 7 ∷ 8 ∷ []

abbrev draft : AgentVersion
draft = record (version_of (codes "1.2.0")) {
  card_digest = bytes;
  status = PublicationStatus.draft;
  published_at = none;
  publication_sequence = none;
  legacy_unverified = false;
}

abbrev a_provider : Provider
a_provider = record {
  provider_id = codes "p";
  owner_identity = codes "owner";
  verification_status = VerificationStatus.verified;
}

abbrev a_binding : EndpointBinding
a_binding = record {
  binding_id = codes "b";
  agent_id = codes "agent";
  agent_card_version = codes "1.2.0";
  origin = codes "https://a.example";
  path = codes "/";
  verification_method = codes "http_well_known";
  verification_status = VerificationStatus.verified;
  verification_evidence_digest = some bytes;
  verified_at = some 3;
}

abbrev a_trust : TrustStore
a_trust = record { get_provider = λ p. ok a_provider; get_binding = λ p b. ok a_binding }

abbrev a_column : Time → Time
a_column t = t

abbrev operations : List Operation
operations =
    registers true draft
    ∷ creates a_trust true true true (some (codes "rel")) (codes "owner") (codes "p")
        (codes "agent") (codes "1.2.0") (codes "b") 10
    ∷ publishes a_trust true true (codes "owner") (codes "rel") 20
    ∷ []

abbrev the_release : AgentRelease
the_release = record {
  release_id = codes "rel";
  provider_id = codes "p";
  agent_id = codes "agent";
  agent_card_version = codes "1.2.0";
  card_digest = bytes;
  endpoint_binding_id = codes "b";
  endpoint_origin = codes "https://a.example";
  endpoint_path = codes "/";
  verification_method = codes "http_well_known";
  verification_evidence_digest = some bytes;
  state = ReleaseState.published;
  created_at = 10;
  updated_at = 20;
  verified_at = some 3;
  published_at = some 20;
  suspended_at = none;
  revoked_at = none;
}

abbrev the_version : AgentVersion
the_version = record draft {
  status = PublicationStatus.published;
  published_at = some 20;
  publication_sequence = some 1;
  release = some the_release;
}

publishes_it :
    get true (codes "agent") (codes "1.2.0") (run_all by_length a_column operations empty_tables)
    ≡ ok the_version
unfolding get run_all run select_version with_identity joined register claimed claim claim_row
    new_version version_row version_timestamps distinct_skills find_row put_row names_agent
    is_version is_release_of has_release_id create_owned_release after_check prepare_release
    describe_release valid_release_request valid_agent_version_identity authorize_binding
    authorize_provider first_state state_result id_result new_release create_release stored_release
    insert_release taken release_row state_times present publish_release authorize_release
    get_release admit require_current_verified_binding binding_current same_evidence
    transition_release transition_release_found transition_row next_release published_release
    version_step publish_version put_version published_row write_release is_safe_identifier
    is_alphanumeric is_identifier_tail text_beq PublicationStatus-discrete ReleaseState-discrete
    VerificationStatus-discrete
publishes_it = refl

run_all-Matches_example : Matches the_version the_release
run_all-Matches_example =
    run_all-Matches by_length a_column operations (codes "agent") (codes "1.2.0") the_version
      the_release publishes_it refl
