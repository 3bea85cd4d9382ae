-- ===== src/Workspace/Authorize/Version.antt =====
-- service.go of the workspace: when the version of an installation is authorized.
use mathlib.Core.List.{Mem}
use ne_kiro.Prelude.{
  unless_error-ok, >>=-eq-ok, ◌≡◌, ◌∙◌, refl, sym, ap, inl, inr, true, not, Option, none, some,
  List, arith, ◌==◌, ◌or_else◌, reject_if, or_else-none, Result, ok, err, Bool-cases,
}
use ne_kiro.Prelude.Text.{Text, text_eq}
use ne_kiro.Workspace.Model.{capability_not_allowed, enabled, installation_status_eq, Installation}
use ne_kiro.Catalog.Model.{CatalogError, AgentSkill, AgentVersion}
use ne_kiro.Workspace.Eligibility.{
  release_provenance, catalog_result, validate_release_eligibility, contains_all,
}
use ne_kiro.Workspace.Authorize.{
  CatalogReader, AuthorizedInvocation, find_skill, allowed, read_version, authorize_version,
  authorize_installation,
}
use ne_kiro.Workspace.Authorize.Permitted.{
  Offered, IsEligible, named_digest, contains_all-iff-Mem, find_skill-iff-Offered,
  validate_release_eligibility-iff-IsEligible, release_provenance-IsEligible,
}

allowed-skill :
    (accepted : List Text) (o : Option AgentSkill)
    → allowed accepted o ≡ true
    → (s : AgentSkill) × (o ≡ some s) × (contains_all accepted s.required_permissions ≡ true)
unfolding allowed
allowed-skill accepted none h = absurd (cc h)
allowed-skill accepted (some s) h = (s, refl, h)

read_version-ok :
    (r : Result CatalogError AgentVersion) (v : AgentVersion) → read_version r ≡ ok v → r ≡ ok v
unfolding read_version catalog_result
read_version-ok (ok w) v h = ap ok (cc h)
read_version-ok (err e) v h = absurd (cc h)

-- What an authorization for an installation of a version names.
abbrev pub named : Installation → AgentVersion → AuthorizedInvocation
named i version = record {
  agent_card_version = i.installed_version;
  agent_release_id = i.installed_release_id;
  agent_card_digest = named_digest version i.installed_release_id;
}

module _ (catalog : CatalogReader) (agent_id capability : Text) (a : AuthorizedInvocation) where
  -- When the version of an installation is authorized for the capability, with the value a.
  pub record AllowedVersion (i : Installation) : Type 0 where
    pub is_enabled : i.status ≡ enabled
    pub version : AgentVersion
    pub stored : catalog.get_version agent_id i.installed_version ≡ ok version
    pub eligible : IsEligible version i.installed_release_id
    pub skill : AgentSkill
    pub offered : Offered capability version.card.skills skill
    pub accepted : (p : Text) → Mem p skill.required_permissions → Mem p i.accepted_permissions
    pub names : a ≡ named i version

  authorize_version-ok :
      (i : Installation) (v : AgentVersion)
      → i.status ≡ enabled
      → catalog.get_version agent_id i.installed_version ≡ ok v
      → authorize_version i capability v ≡ ok a
      → AllowedVersion i
  unfolding authorize_version
  authorize_version-ok i v s g h =
      let eligibility = validate_release_eligibility v i.installed_release_id in
      let may = allowed i.accepted_permissions (find_skill capability v.card.skills) in
      let passed =
        unless_error-ok (eligibility or_else reject_if (not may) capability_not_allowed)
          (ok (provided (release_provenance v.release i.installed_release_id))) a h in
      let checks = or_else-none eligibility (reject_if (not may) capability_not_allowed) passed.0 in
      let skill =
        allowed-skill i.accepted_permissions (find_skill capability v.card.skills)
          (ground (arith, checks.1)) in
      let eligible =
        (validate_release_eligibility-iff-IsEligible v i.installed_release_id).0 checks.0 in
      let same : provided (release_provenance v.release i.installed_release_id) ≡ a = cc passed.1 in
      record {
        is_enabled = s;
        version = v;
        stored = g;
        eligible = eligible;
        skill = skill.0;
        offered = (find_skill-iff-Offered capability v.card.skills skill.0).0 skill.1;
        accepted =
            (contains_all-iff-Mem i.accepted_permissions skill.0.required_permissions).0 skill.2;
        names =
            sym same
            ∙ ap provided (release_provenance-IsEligible v i.installed_release_id eligible);
      }
    where
      provided : Text × Text → AuthorizedInvocation
      provided p = record {
        agent_card_version = i.installed_version;
        agent_release_id = p.0;
        agent_card_digest = p.1;
      }

  authorize_version-made :
      (i : Installation) (l : AllowedVersion i) → authorize_version i capability l.version ≡ ok a
  unfolding authorize_version allowed
  authorize_version-made i l =
      let version = l.version in
      let eligible =
        (validate_release_eligibility-iff-IsEligible version i.installed_release_id).1 l.eligible in
      let found = (find_skill-iff-Offered capability version.card.skills l.skill).1 l.offered in
      let accepted =
        (contains_all-iff-Mem i.accepted_permissions l.skill.required_permissions).1 l.accepted in
      let provided = release_provenance-IsEligible version i.installed_release_id l.eligible in
      rw (eligible, found, accepted, provided, l.names, authorize_version, allowed) refl

  pub authorize_installation-ok :
      (i : Installation)
      → authorize_installation catalog agent_id capability i ≡ ok a
      → AllowedVersion i
  unfolding authorize_installation
  authorize_installation-ok i h = elim (Bool-cases (i.status == enabled)) [
    | inr e ↦ absurd (cc (e, rw (e, authorize_installation) at h))
    | inl e ↦
        let step =
          >>=-eq-ok (read_version (catalog.get_version agent_id i.installed_version))
            (authorize_version i capability) (rw (e, authorize_installation) at h) in
        authorize_version-ok i step.0 ((installation_status_eq.decides i.status enabled).0 e)
          (read_version-ok (catalog.get_version agent_id i.installed_version) step.0 step.1) step.2
  ]

  pub AllowedVersion-authorize_installation :
      (i : Installation)
      → AllowedVersion i
      → authorize_installation catalog agent_id capability i ≡ ok a
  unfolding authorize_installation read_version
  AllowedVersion-authorize_installation i l =
      rw
        (
          (installation_status_eq.decides i.status enabled).1 l.is_enabled,
          l.stored,
          authorize_version-made i l,
          authorize_installation,
          read_version,
        )
        refl
