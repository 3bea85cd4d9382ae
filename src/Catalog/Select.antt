-- ===== src/Catalog/Select.antt =====
-- apps/control-plane/internal/catalog/service.go, the choice of the version to install.
--
-- The package Masterminds/semver is a parameter.
use ne_kiro.Prelude.{
  ℕ, zero, suc, ◌+◌, ◌-◌, ◌*◌, ◌/◌, ◌%◌, ◌^◌, ◌≤◌, ◌<◌, ◌≡◌, ◌≢◌, ◌↔◌, ◌⊎◌, ◌∙◌, refl, sym, ap,
  subst, inl, inr, Bool, true, false, not, ◌&&◌, ◌||◌, Option, none, some, List, [], ◌∷◌, ◌++◌, map,
  arith, Eq, ◌==◌, ==_refl, ==_false-ne, if◌then◌else◌, ◌or_else◌, reject_if, or_else-none,
  reject_if-none, Result, ok, err, ◌>>=◌, >>=-eq-ok, Result-cases, is_empty, nat_eq, leb, ltb,
  length, length-append, keep, All, all_of, any_of, first_error, Bool-cases, Option-cases, test,
  test_iff, same_elements,
}
use ne_kiro.Prelude.Text.{Text, codes, text_eq, text_beq, text_beq_iff, text_beq_self}
use ne_kiro.Prelude.Text.{trim_space, is_alphanumeric, text_lt}
use mathlib.Core.List.{reverse}
use ne_kiro.Contracts.Event.{is_safe_identifier}
use ne_kiro.Catalog.Model.{
  PublicationStatus, ReleaseState, publication_status_eq, release_state_eq, CatalogError,
  AgentSkill, AgentCard, AgentRelease, AgentVersion, not_found, invalid, dependency_failed,
  release_unpublished, release_suspended, release_revoked,
}
pub mod Greatest
pub mod Installable

-- What the code calls of semver.
pub record Semver : Type 1 where
  pub Version : Type 0
  pub Constraint : Type 0
  pub strict_new_version : Text → Option Version
  pub new_constraint : Text → Option Constraint
  pub check : Constraint → Version → Bool
  pub greater_than : Version → Version → Bool
  pub equal : Version → Version → Bool
  pub prerelease : Version → Text

-- `validAgentVersionIdentity`.
unfoldable pub valid_agent_version_identity : Semver → Text → Text → Bool
valid_agent_version_identity sv agent_id version =
    is_safe_identifier agent_id
    && elim (sv.strict_new_version version) [ none ↦ false | some v ↦ true ]

-- `strings.Split(constraint, "||")`; the first argument is the part that was read, backwards.
unfoldable pub split_branches : Text → Text → List Text
split_branches part [] = reverse part ∷ []
split_branches part (c ∷ []) = reverse (c ∷ part) ∷ []
split_branches part (c ∷ (d ∷ cs)) = elim (nat_eq c b'|' && nat_eq d b'|') [
  | true ↦ reverse part ∷ split_branches [] cs
  | false ↦ split_branches (c ∷ part) (d ∷ cs)
]

unfoldable pub is_digit : ℕ → Bool
is_digit c = leb b'0' c && leb c b'9'

-- `\d*` and then the separator: what follows it.
unfoldable pub digits_then : ℕ → Text → Option Text
unfolding is_digit
digits_then separator [] = none
digits_then separator (c ∷ cs) =
    let rest = digits_then separator cs in
    if is_digit c then rest else if nat_eq c separator then some cs else none

-- `\d+` and then the separator.
unfoldable pub number_then : ℕ → Text → Option Text
unfolding is_digit digits_then
number_then separator [] = none
number_then separator (c ∷ cs) = if is_digit c then digits_then separator cs else none

unfoldable pub without_v : Text → Text
without_v [] = []
without_v (c ∷ cs) = if nat_eq c b'v' then cs else c ∷ cs

unfoldable pub starts_tail : Option Text → Bool
unfolding is_alphanumeric
starts_tail none = false
starts_tail (some []) = false
starts_tail (some (c ∷ cs)) = is_alphanumeric c || nat_eq c b'-'

-- `prereleaseComparator` after its first group: `v?\d+\.\d+\.\d+-[0-9A-Za-z-]+` from here on.
unfoldable pub comparator_here : Text → Bool
unfolding number_then without_v starts_tail
comparator_here s = elim (number_then b'.' (without_v s)) [
  | none ↦ false
  | some minor ↦ elim (number_then b'.' minor) [
    | none ↦ false
    | some patch ↦ starts_tail (number_then b'-' patch)
  ]
]

-- The class `[<>=~^*xX\s]`.
unfoldable pub before_comparator : ℕ → Bool
before_comparator c =
    nat_eq c b'<'
    || nat_eq c b'>'
    || nat_eq c b'='
    || nat_eq c b'~'
    || nat_eq c b'^'
    || nat_eq c b'*'
    || nat_eq c b'x'
    || nat_eq c b'X'
    || nat_eq c 0x20
    || nat_eq c 9
    || nat_eq c 10
    || nat_eq c 12
    || nat_eq c 13

unfoldable pub comparator_after : Text → Bool
unfolding comparator_here before_comparator
comparator_after [] = false
comparator_after (c ∷ cs) = (before_comparator c && comparator_here cs) || comparator_after cs

-- `prereleaseComparator.MatchString`.
unfoldable pub prerelease_comparator : Text → Bool
unfolding comparator_here comparator_after
prerelease_comparator s = comparator_here s || comparator_after s

unfoldable pub branch_allows : (sv : Semver) → sv.Version → Text → Bool
unfolding prerelease_comparator
branch_allows sv version branch = elim (sv.new_constraint branch) [
  | none ↦ false
  | some parsed ↦ sv.check parsed version && prerelease_comparator branch
]

-- `constraintBranchAllowsVersion`.
unfoldable pub constraint_branch_allows_version : (sv : Semver) → Text → sv.Version → Bool
unfolding split_branches branch_allows
constraint_branch_allows_version sv constraint version =
    is_empty (sv.prerelease version)
    || any_of (λ branch. branch_allows sv version (trim_space branch))
        (split_branches [] constraint)

-- `installabilityError`.
unfoldable pub release_matches : AgentVersion → AgentRelease → Bool
release_matches candidate release =
    not (is_empty release.release_id)
    && release.agent_id == candidate.card.agent_id
    && release.agent_card_version == candidate.card.version
    && text_beq release.card_digest candidate.card_digest

unfoldable pub state_installability : AgentVersion → ReleaseState → Option CatalogError
state_installability candidate ReleaseState.published =
    reject_if (not (candidate.status == PublicationStatus.published)) dependency_failed
state_installability candidate ReleaseState.suspended = some release_suspended
state_installability candidate ReleaseState.revoked = some release_revoked
state_installability candidate _ = some release_unpublished

unfoldable pub release_installability : AgentVersion → Option AgentRelease → Option CatalogError
unfolding release_matches state_installability
release_installability candidate none =
    reject_if (not (candidate.legacy_unverified && candidate.status == PublicationStatus.published))
      release_unpublished
release_installability candidate (some release) =
    reject_if (not (release_matches candidate release)) dependency_failed
    or_else state_installability candidate release.state

unfoldable pub installability_error : AgentVersion → Option CatalogError
unfolding release_installability
installability_error candidate = release_installability candidate candidate.release

-- The candidate that the loop holds and its version.
unfoldable pub replaces :
    (sv : Semver) → Option (AgentVersion × sv.Version) → AgentVersion → sv.Version → Bool
replaces sv none candidate version = true
replaces sv (some s) candidate version =
    sv.greater_than version s.1
    || (sv.equal version s.1 && text_lt s.0.card.version candidate.card.version)

-- The test that passes over a candidate.
unfoldable pub skipped : (sv : Semver) → Text → sv.Constraint → sv.Version → Bool
unfolding constraint_branch_allows_version
skipped sv constraint parsed version =
    not (sv.check parsed version) || not (constraint_branch_allows_version sv constraint version)

-- The loop of `SelectInstallable`.
unfoldable pub select_from :
    (sv : Semver)
    → Text
    → sv.Constraint
    → Option (AgentVersion × sv.Version)
    → List AgentVersion
    → Result CatalogError (Option (AgentVersion × sv.Version))
unfolding skipped replaces
select_from sv constraint parsed selected [] = ok selected
select_from sv constraint parsed selected (candidate ∷ candidates) =
    elim (sv.strict_new_version candidate.card.version) [
      | none ↦ err dependency_failed
      | some version ↦
          let next =
            if skipped sv constraint parsed version
            then selected
            else if replaces sv selected candidate version
            then some (candidate, version)
            else selected in
          select_from sv constraint parsed next candidates
    ]

unfoldable pub selection_result :
    {A : Type 0} → Option (AgentVersion × A) → Result CatalogError AgentVersion
unfolding installability_error
selection_result none = err not_found
selection_result (some s) = elim (installability_error s.0) [ none ↦ ok s.0 | some e ↦ err e ]

-- `SelectInstallable`; the store's answer to `InstallationCandidates` is an argument.
unfoldable pub select_installable :
    (sv : Semver)
    → Result CatalogError (List AgentVersion)
    → Text
    → Text
    → Result CatalogError AgentVersion
unfolding select_from selection_result
select_installable sv candidates agent_id constraint =
    if not (is_safe_identifier agent_id) then err invalid else elim (sv.new_constraint constraint) [
      | none ↦ err invalid
      | some parsed ↦
          if is_empty (trim_space constraint)
          then err invalid
          else candidates >>= λ versions.
              select_from sv constraint parsed none versions >>= selection_result
    ]
