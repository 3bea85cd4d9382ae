-- ===== src/Workspace/Authorize/Permitted.antt =====
-- service.go of the workspace: what the tests of an authorization say.
use mathlib.Core.Bool.{Bool-set}
use mathlib.Core.List.{Mem, mem-cons, not-mem-nil}
use mathlib.Core.Logic.Or
use ne_kiro.Prelude.{
  ◌≡◌, ◌≢◌, ◌↔◌, ◌⊎◌, ◌∙◌, refl, sym, ap, subst, inl, inr, true, false, Option, none, some, List,
  [], ◌∷◌, arith, ◌==◌, ==_false-ne, if◌then◌else◌, is_empty, Bool-cases, Option-cases,
}
use ne_kiro.Prelude.Text.{Text, text_eq, text_beq, text_beq_iff}
use ne_kiro.Catalog.Model.{
  PublicationStatus, ReleaseState, publication_status_eq, release_state_eq, AgentSkill,
  AgentRelease, AgentVersion,
}
use ne_kiro.Workspace.Eligibility.{
  has, contains_all, legacy_eligibility, state_eligibility, release_eligibility,
  validate_release_eligibility, release_provenance, encode_to_string,
}
use ne_kiro.Workspace.Authorize.{find_skill}

has-Mem : (values : List Text) (p : Text) → has values p ≡ true → Mem p values
unfolding has
has-Mem [] p h = absurd (cc h)
has-Mem (v ∷ vs) p h = elim (Bool-cases (text_beq p v)) [
  | inl e ↦ mem-cons.1 (Or.inl ((text_beq_iff p v).0 e))
  | inr e ↦ mem-cons.1 (Or.inr (has-Mem vs p (ground (arith, h, e))))
]

Mem-has : (values : List Text) (p : Text) → Mem p values → has values p ≡ true
unfolding has
Mem-has [] p m = absurd (not-mem-nil m)
Mem-has (v ∷ vs) p m =
    Or.elim (Bool-set _ _) (mem-cons.0 m) (λ e. ground (arith, (text_beq_iff p v).1 e))
      (λ r. ground (arith, Mem-has vs p r))

-- `containsAll` is inclusion.
pub contains_all-iff-Mem :
    (accepted required : List Text)
    → (contains_all accepted required ≡ true) ↔ ((p : Text) → Mem p required → Mem p accepted)
unfolding contains_all
contains_all-iff-Mem accepted [] = (λ h p m. absurd (not-mem-nil m), λ f. refl)
contains_all-iff-Mem accepted (r ∷ rs) = (
  λ h p m. has-Mem accepted p (
      Or.elim (Bool-set _ _) (mem-cons.0 m)
        (λ e. subst (λ x. has accepted x ≡ true) (sym e) (ground (arith, h)))
        (λ n. Mem-has accepted p ((contains_all-iff-Mem accepted rs).0 (ground (arith, h)) p n))),
  λ f.
      let one = Mem-has accepted r (f r (mem-cons.1 (Or.inl refl))) in
      let rest = (contains_all-iff-Mem accepted rs).1 (λ p m. f p (mem-cons.1 (Or.inr m))) in
      ground (arith, one, rest),
)

-- The first skill with this identifier.
abbrev pub Offered : Text → List AgentSkill → AgentSkill → Type 0
Offered capability [] skill = ⊥
Offered capability (s ∷ ss) skill =
    ((s.id ≡ capability) × (s ≡ skill)) ⊎ ((s.id ≢ capability) × Offered capability ss skill)

pub find_skill-iff-Offered :
    (capability : Text) (skills : List AgentSkill) (skill : AgentSkill)
    → (find_skill capability skills ≡ some skill) ↔ Offered capability skills skill
unfolding find_skill
find_skill-iff-Offered capability [] skill = (λ h. absurd (cc h), λ o. absurd o)
find_skill-iff-Offered capability (s ∷ ss) skill = elim (Bool-cases (s.id == capability)) [
  | inl e ↦
      let same : s.id ≡ capability = (text_beq_iff s.id capability).0 e in
      (
        λ h. inl (same, cc (rw (e, find_skill) at h)),
        λ o. elim o [ inl (p, q) ↦ rw (e, find_skill) (ap some q) | inr (p, q) ↦ absurd (p same) ],
      )
  | inr e ↦
      let other : s.id ≢ capability = ==_false-ne text_eq s.id capability e in
      (
        λ h. inr (other, (find_skill-iff-Offered capability ss skill).0 (rw (e, find_skill) at h)),
        λ o. elim o [
          | inl (p, q) ↦ absurd (other p)
          | inr (p, q) ↦ rw (e, find_skill) ((find_skill-iff-Offered capability ss skill).1 q)
        ],
      )
]

-- A published version without a release, from before releases were verified.
pub record IsLegacy (version : AgentVersion) (installed : Text) : Type 0 where
  pub no_release_installed : installed ≡ []
  pub is_published : version.status ≡ PublicationStatus.published
  pub is_legacy : version.legacy_unverified ≡ true

-- A published version with the release that was installed, which is published and of its card.
pub record IsReleased (version : AgentVersion) (installed : Text) : Type 0 where
  pub release : AgentRelease
  pub is_release : version.release ≡ some release
  pub is_installed : release.release_id ≡ installed
  pub named : installed ≢ []
  pub same_agent : release.agent_id ≡ version.card.agent_id
  pub same_version : release.agent_card_version ≡ version.card.version
  pub same_digest : release.card_digest ≡ version.card_digest
  pub release_published : release.state ≡ ReleaseState.published
  pub is_published : version.status ≡ PublicationStatus.published

abbrev pub IsEligible : AgentVersion → Text → Type 0
IsEligible version installed = IsLegacy version installed ⊎ IsReleased version installed

state_eligibility-none :
    (version : AgentVersion) (s : ReleaseState)
    → state_eligibility version s ≡ none
    → (s ≡ ReleaseState.published) × (version.status ≡ PublicationStatus.published)
unfolding state_eligibility
state_eligibility-none version ReleaseState.published h = (
  refl,
  (publication_status_eq.decides version.status PublicationStatus.published).0 (ground (arith, h)),
)
state_eligibility-none version _ h = absurd (cc h)

release_eligibility-IsReleased :
    (version : AgentVersion) (installed : Text) (o : Option AgentRelease)
    → version.release ≡ o
    → is_empty installed ≡ false
    → release_eligibility version installed o ≡ none
    → IsReleased version installed
unfolding release_eligibility
release_eligibility-IsReleased version installed none e n h = absurd (cc h)
release_eligibility-IsReleased version installed (some r) e n h =
    let states = state_eligibility-none version r.state (ground (arith, h)) in
    let installed_it : installed ≡ r.release_id =
      (text_beq_iff installed r.release_id).0 (ground (arith, h)) in
    record {
      release = r;
      is_release = e;
      is_installed = sym installed_it;
      named = λ p. cc (p, rw p at n);
      same_agent = (text_beq_iff r.agent_id version.card.agent_id).0 (ground (arith, h));
      same_version = (text_beq_iff r.agent_card_version version.card.version).0 (ground (arith, h));
      same_digest = (text_beq_iff r.card_digest version.card_digest).0 (ground (arith, h));
      release_published = states.0;
      is_published = states.1;
    }

empty-nil : (t : Text) → is_empty t ≡ true → t ≡ []
empty-nil [] h = refl
empty-nil (c ∷ cs) h = absurd (cc h)

nonempty : (t : Text) → t ≢ [] → is_empty t ≡ false
nonempty [] h = absurd (h refl)
nonempty (c ∷ cs) h = refl

IsReleased-none :
    (version : AgentVersion) (installed : Text)
    → IsReleased version installed
    → validate_release_eligibility version installed ≡ none
unfolding validate_release_eligibility release_eligibility state_eligibility
IsReleased-none version installed e =
    rw
      (
        nonempty installed e.named,
        e.is_release,
        e.release_published,
        validate_release_eligibility,
        release_eligibility,
        state_eligibility,
      )
      (ground (
        arith,
        nonempty e.release.release_id (λ p. e.named (sym e.is_installed ∙ p)),
        (text_beq_iff installed e.release.release_id).1 (sym e.is_installed),
        (text_beq_iff e.release.agent_id version.card.agent_id).1 e.same_agent,
        (text_beq_iff e.release.agent_card_version version.card.version).1 e.same_version,
        (text_beq_iff e.release.card_digest version.card_digest).1 e.same_digest,
        (publication_status_eq.decides version.status PublicationStatus.published).1 e.is_published,
      ))

-- The test of a release passes exactly the versions that are eligible.
pub validate_release_eligibility-iff-IsEligible :
    (version : AgentVersion) (installed : Text)
    → (validate_release_eligibility version installed ≡ none) ↔ IsEligible version installed
unfolding validate_release_eligibility legacy_eligibility
validate_release_eligibility-iff-IsEligible version installed = (to, from)
  where
    to : validate_release_eligibility version installed ≡ none → IsEligible version installed
    to h = elim (Bool-cases (is_empty installed)) [
      | inl e ↦ inl (record {
        no_release_installed = empty-nil installed e;
        is_published =
            (publication_status_eq.decides version.status PublicationStatus.published).0
              (ground (arith, h, e));
        is_legacy = ground (arith, h, e);
      })
      | inr e ↦ inr (
          release_eligibility-IsReleased version installed version.release refl e
            (rw (e, validate_release_eligibility) at h))
    ]

    from : IsEligible version installed → validate_release_eligibility version installed ≡ none
    from (inl l) =
        rw (l.no_release_installed, validate_release_eligibility, legacy_eligibility, l.is_legacy)
          (ground (
            arith,
            (publication_status_eq.decides version.status PublicationStatus.published).1
                l.is_published,
          ))
    from (inr r) = IsReleased-none version installed r

-- The digest that an authorization names.
abbrev pub named_digest : AgentVersion → Text → Text
named_digest version installed =
    if is_empty installed then [] else encode_to_string version.card_digest

pub release_provenance-IsEligible :
    (version : AgentVersion) (installed : Text)
    → IsEligible version installed
    → release_provenance version.release installed ≡ (installed, named_digest version installed)
unfolding release_provenance
release_provenance-IsEligible version installed (inl l) = elim (Option-cases version.release) [
  | inl e ↦ rw (l.no_release_installed, e, release_provenance) refl
  | inr (r, e) ↦ rw (l.no_release_installed, e, release_provenance) refl
]
release_provenance-IsEligible version installed (inr r) =
    rw (r.is_release, nonempty installed r.named, release_provenance, r.is_installed, r.same_digest)
      refl
