-- ===== src/Catalog/Releases/Prepared.antt =====
-- release.go and postgres/store.go of the catalog: a release that was prepared.
use ne_kiro.Prelude.{
  ◌≡◌, ◌∙◌, refl, sym, ap, subst, inl, inr, Bool, true, false, not, ◌&&◌, ◌||◌, Option, some, arith,
  ◌==◌, reject_if, Result, ok, >>=-eq-ok, any_of, Option-cases,
}
use ne_kiro.Prelude.Text.{Text, text_eq, text_beq_self}
use ne_kiro.Catalog.Model.{
  ReleaseState, ReleaseState-discrete, publication_status_eq, release_state_eq, CatalogError,
  AgentRelease, AgentVersion, release_invalid,
}
use ne_kiro.Catalog.Store.{Tables, VersionRow, is_version, select_version, joined}
use ne_kiro.Catalog.Releases.{create_release, stored_release, taken, release_row}
use ne_kiro.Prelude.Table.{find_row}
use ne_kiro.Catalog.ReleaseService.{
  describe_release, valid_release_request, VerificationStatus, Provider, EndpointBinding,
  TrustStore, authorize_provider, authorize_binding, first_state, new_release, state_result,
  id_result, prepare_release,
}
use ne_kiro.Prelude.{Time, unless_error, unless_error-ok}
use ne_kiro.Catalog.Select.{Semver}
use ne_kiro.Catalog.Store.{get}
use ne_kiro.Catalog.Releases.Backed.{Backed, backed_by, insert_release-Backed}
use ne_kiro.Catalog.Releases.Owners.{Selected, select_version-Selected}

-- A release that the service prepares names the version that it has read.
pub record PreparedFor (value : AgentVersion) (agent_id version : Text) (r : AgentRelease)
    : Type 0 where
  pub names_agent_id : r.agent_id ≡ agent_id
  pub names_version : r.agent_card_version ≡ version
  pub same_digest : r.card_digest ≡ value.card_digest
  pub not_published : (r.state == ReleaseState.published) ≡ false

first_state-unpublished :
    (s : VerificationStatus) (state : ReleaseState)
    → state_result (first_state s) ≡ ok state
    → (state == ReleaseState.published) ≡ false
unfolding state_result first_state ReleaseState-discrete
first_state-unpublished VerificationStatus.verified state h =
    let same : ReleaseState.verified ≡ state = cc h in
    subst (λ s. (s == ReleaseState.published) ≡ false) same refl
first_state-unpublished VerificationStatus.pending state h =
    let same : ReleaseState.pending_verification ≡ state = cc h in
    subst (λ s. (s == ReleaseState.published) ≡ false) same refl
first_state-unpublished VerificationStatus.unverified state h = absurd (cc h)
first_state-unpublished VerificationStatus.failed state h = absurd (cc h)
first_state-unpublished VerificationStatus.suspended state h = absurd (cc h)
first_state-unpublished VerificationStatus.revoked state h = absurd (cc h)
first_state-unpublished (VerificationStatus.other_status t) state h = absurd (cc h)

authorize_binding-ok :
    (trust : TrustStore) (stored : Result CatalogError AgentVersion)
    (caller provider_id agent_id version binding_id : Text)
    (facts : Provider × EndpointBinding × AgentVersion)
    → authorize_binding trust stored caller provider_id agent_id version binding_id ≡ ok facts
    → stored ≡ ok facts.2
unfolding authorize_binding
authorize_binding-ok trust stored caller provider_id agent_id version binding_id facts h =
    let s1 = >>=-eq-ok (trust.get_provider provider_id) _ h in
    let s2 = >>=-eq-ok (unless_error (authorize_provider caller s1.0) (ok s1.0)) _ s1.2 in
    let s3 = >>=-eq-ok (trust.get_binding provider_id binding_id) _ s2.2 in
    let s4 =
      >>=-eq-ok
        (unless_error
          (reject_if (not (s3.0.agent_id == agent_id) || not (s3.0.agent_card_version == version))
            release_invalid)
          (ok s3.0))
        _ s3.2 in
    let s5 = >>=-eq-ok stored _ s4.2 in
    let same : (s1.0, s3.0, s5.0) ≡ facts = cc s5.2 in
    s5.1 ∙ ap (λ (f : Provider × EndpointBinding × AgentVersion). ok f.2) same

pub prepare_release-PreparedFor :
    (sv : Semver) (trust : TrustStore) (stored : Result CatalogError AgentVersion)
    (new_id : Option Text) (caller provider_id agent_id version binding_id : Text) (now : Time)
    (r : AgentRelease)
    → prepare_release sv trust stored new_id caller provider_id agent_id version binding_id now
      ≡ ok r
    → (value : AgentVersion) × (stored ≡ ok value) × PreparedFor value agent_id version r
unfolding prepare_release describe_release
prepare_release-PreparedFor sv trust stored new_id caller provider_id agent_id version binding_id
      now r h =
    let described =
      describe_release trust stored new_id caller provider_id agent_id version binding_id now in
    let valid = valid_release_request sv caller provider_id agent_id version binding_id in
    let s0 = unless_error-ok (reject_if (not valid) release_invalid) described r h in
    let s1 =
      >>=-eq-ok (authorize_binding trust stored caller provider_id agent_id version binding_id) _
        s0.1 in
    let s2 = >>=-eq-ok (state_result (first_state s1.0.1.verification_status)) _ s1.2 in
    let s3 = >>=-eq-ok (id_result new_id) _ s2.2 in
    let made = new_release s3.0 agent_id version now s1.0.0 s1.0.1 s1.0.2 s2.0 in
    let same : made ≡ r = cc s3.2 in
    (
      s1.0.2,
      authorize_binding-ok trust stored caller provider_id agent_id version binding_id s1.0 s1.1,
      subst (PreparedFor s1.0.2 agent_id version) same (
          unfold new_release in
          record {
            names_agent_id = refl;
            names_version = refl;
            same_digest = refl;
            not_published = first_state-unpublished s1.0.1.verification_status s2.0 s2.1;
          }),
    )

pub get-Selected :
    (db : Tables) (agent_id version : Text) (value : AgentVersion)
    → get true agent_id version db ≡ ok value
    → (x : AgentVersion × Text) × (x.0 ≡ value) × Selected db agent_id version x
unfolding get
get-Selected db agent_id version value h =
    elim (Option-cases (select_version db agent_id version)) [
      | inl e ↦ absurd (cc (rw (e, get) at h))
      | inr (x, e) ↦ (x, cc (rw (e, get) at h), select_version-Selected db agent_id version x e)
    ]

prepared-backed :
    (column : Time → Time) (row : VersionRow) (r : AgentRelease)
    → r.card_digest ≡ row.card_digest
    → (r.state == ReleaseState.published) ≡ false
    → backed_by (some row) (some (stored_release column r)) ≡ true
unfolding backed_by stored_release
prepared-backed column row r d n = rw d (ground (arith, text_beq_self row.card_digest, n))

module _ (column : Time → Time) where
  -- The stored row of a prepared release is backed by the version that was read.
  pub create_release-Backed :
      (sent linked : Bool) (value : AgentVersion) (agent_id version : Text) (r : AgentRelease)
      (db : Tables)
      → get true agent_id version db ≡ ok value
      → PreparedFor value agent_id version r
      → Backed db
      → Backed (create_release column sent linked r db).0
  unfolding create_release
  create_release-Backed false linked value agent_id version r db g p b = b
  create_release-Backed true linked value agent_id version r db g p b =
      let row = stored_release column r in
      insert_release-Backed (taken row db.releases)
        (release_row row
          && linked
          && any_of (is_version row.agent_id row.agent_card_version) db.versions)
        row db refl backs b
    where
      selected : (x : AgentVersion × Text) × (x.0 ≡ value) × Selected db agent_id version x
      selected = get-Selected db agent_id version value g

      stored_row : Selected db agent_id version selected.0
      stored_row = selected.2

      digest : r.card_digest ≡ stored_row.row.card_digest
      digest =
          p.same_digest
          ∙ ap (λ (w : AgentVersion). w.card_digest) (sym selected.1 ∙ stored_row.is_joined)
          ∙ joined_digest
        where
          joined_digest :
              (joined db stored_row.row stored_row.identity).card_digest
              ≡ stored_row.row.card_digest
          joined_digest = unfold joined in refl

      stored : AgentRelease
      stored = stored_release column r

      backs :
          backed_by
            (find_row (is_version r.agent_id r.agent_card_version) db.versions)
            (some stored)
          ≡ true
      backs =
          subst
            (λ x.
              backed_by (find_row (is_version x r.agent_card_version) db.versions) (some stored)
              ≡ true)
            (sym p.names_agent_id)
            (subst
              (λ x. backed_by (find_row (is_version agent_id x) db.versions) (some stored) ≡ true)
              (sym p.names_version)
              (subst (λ o. backed_by o (some stored) ≡ true) (sym stored_row.is_row)
                (prepared-backed column stored_row.row r digest p.not_published)))
