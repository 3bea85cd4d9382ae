-- ===== src/Catalog/Select/Installable.antt =====
-- service.go of the catalog: the result of `SelectInstallable`.
use ne_kiro.Prelude.{
  All-map, true, false, ◌&&◌, ◌⊎◌, arith, ◌≡◌, ◌∙◌, ap, subst, inl, inr, Option, none, some, List,
  ok, ◌>>=◌, >>=-eq-ok, is_empty, All, Bool-cases, Option-cases,
}
use ne_kiro.Prelude.Text.{text_lt, trim_space, Text, text_eq}
use mathlib.Core.List.{Mem}
use ne_kiro.Contracts.Event.{is_safe_identifier}
use ne_kiro.Catalog.Model.{AgentVersion}
use ne_kiro.Catalog.Select.{
  skipped, replaces, constraint_branch_allows_version, Semver, select_from, selection_result,
  select_installable, installability_error,
}
use ne_kiro.Catalog.Select.Greatest.{Ordered, Admitted, Unbeaten, select_from-Looped}

-- A candidate that does not satisfy the constraint, or whose version does not come after `chosen` and,
-- where semver calls them equal, whose text does not come after either.
pub record NotAfter (sv : Semver) (constraint : Text) (parsed : sv.Constraint) (v : AgentVersion)
    (chosen : sv.Version) (candidate : AgentVersion) : Type 0 where
  pub version : sv.Version
  pub is_version : sv.strict_new_version candidate.card.version ≡ some version
  pub behind :
      (sv.check parsed version && constraint_branch_allows_version sv constraint version ≡ false)
      ⊎ ((sv.greater_than version chosen ≡ false)
          × (sv.equal version chosen && text_lt v.card.version candidate.card.version ≡ false))

-- A version of these candidates that satisfies the constraint, that no candidate that satisfies it
-- comes after, and whose release admits an installation.
pub record Installable (sv : Semver) (constraint : Text) (cs : List AgentVersion) (v : AgentVersion)
    : Type 0 where
  pub parsed : sv.Constraint
  pub version : sv.Version
  pub is_constraint : sv.new_constraint constraint ≡ some parsed
  pub among : Mem v cs
  pub is_version : sv.strict_new_version v.card.version ≡ some version
  pub satisfies : sv.check parsed version ≡ true
  pub branch_allows_it : constraint_branch_allows_version sv constraint version ≡ true
  pub greatest : All (NotAfter sv constraint parsed v version) cs
  pub eligible : installability_error v ≡ none

skipped-false :
    (sv : Semver) (constraint : Text) (parsed : sv.Constraint) (version : sv.Version)
    → skipped sv constraint parsed version ≡ false
    → (sv.check parsed version ≡ true)
      × (constraint_branch_allows_version sv constraint version ≡ true)
unfolding skipped
skipped-false sv constraint parsed version h = (ground arith, ground arith)

Unbeaten-NotAfter :
    (sv : Semver) (constraint : Text) (parsed : sv.Constraint) (v : AgentVersion)
    (chosen : sv.Version) (candidate : AgentVersion)
    → Unbeaten sv constraint parsed (some (v, chosen)) candidate
    → NotAfter sv constraint parsed v chosen candidate
unfolding skipped replaces
Unbeaten-NotAfter sv constraint parsed v chosen candidate u = record {
  version = u.version;
  is_version = u.is_version;
  behind = behind u.behind;
}
  where
    behind :
        (skipped sv constraint parsed u.version ≡ true)
          ⊎ (replaces sv (some (v, chosen)) candidate u.version ≡ false)
        → (sv.check parsed u.version && constraint_branch_allows_version sv constraint u.version
            ≡ false)
          ⊎ ((sv.greater_than u.version chosen ≡ false)
              × (sv.equal u.version chosen && text_lt v.card.version candidate.card.version
                  ≡ false))
    behind (inl k) = inl (ground arith)
    behind (inr r) = inr (ground arith, ground arith)

selection_result-ok :
    {A : Type 0} (o : Option (AgentVersion × A)) (v : AgentVersion)
    → selection_result o ≡ ok v
    → (a : A) × (o ≡ some (v, a)) × (installability_error v ≡ none)
unfolding selection_result
selection_result-ok none v h = cc
selection_result-ok {A} (some s) v h = elim (Option-cases (installability_error s.0)) [
  | inr (z, e) ↦ absurd (cc (e, rw (e, selection_result) at h))
  | inl e ↦ chosen (cc (rw (e, selection_result) at h)) e
]
  where
    chosen :
        s.0 ≡ v
        → installability_error s.0 ≡ none
        → (a : A) × (some s ≡ some (v, a)) × (installability_error v ≡ none)
    chosen p e = (s.1, ap (λ w. some (w, s.1)) p, subst (λ w. installability_error w ≡ none) p e)

chosen-Installable :
    (sv : Semver)
    → Ordered sv
    → (constraint : Text) (parsed : sv.Constraint) (cs : List AgentVersion) (v : AgentVersion)
    → sv.new_constraint constraint ≡ some parsed
    → (select_from sv constraint parsed none cs >>= selection_result) ≡ ok v
    → Installable sv constraint cs v
chosen-Installable sv laws constraint parsed cs v e h =
    let loop = >>=-eq-ok (select_from sv constraint parsed none cs) selection_result h in
    let result = selection_result-ok loop.0 v loop.2 in
    let looped =
      select_from-Looped sv constraint parsed laws none cs (some (v, result.0))
        (loop.1 ∙ ap ok result.1) in
    let origin : Admitted sv constraint parsed cs (v, result.0) = elim looped.source [
      | inl p ↦ absurd (cc p)
      | inr a ↦ a
    ] in
    let satisfied = skipped-false sv constraint parsed result.0 origin.admitted in
    record {
      parsed = parsed;
      version = result.0;
      is_constraint = e;
      among = origin.among;
      is_version = origin.is_version;
      satisfies = satisfied.0;
      branch_allows_it = satisfied.1;
      greatest = All-map cs (Unbeaten-NotAfter sv constraint parsed v result.0) looped.unbeaten;
      eligible = result.2;
    }

-- If the order of semver is one, and `SelectInstallable` returns a version for the candidates of the
-- store, then it is one of them, its version satisfies the constraint, no candidate that satisfies the
-- constraint is greater or has a text that comes after it where semver calls both equal, and its
-- release admits an installation.
pub select_installable-Installable :
    (sv : Semver)
    → Ordered sv
    → (cs : List AgentVersion) (agent_id constraint : Text) (v : AgentVersion)
    → select_installable sv (ok cs) agent_id constraint ≡ ok v
    → Installable sv constraint cs v
unfolding select_installable
select_installable-Installable sv laws cs agent_id constraint v h =
    elim (Bool-cases (is_safe_identifier agent_id)) [
      | inr i ↦ absurd (cc (i, rw (i, select_installable) at h))
      | inl i ↦ elim (Option-cases (sv.new_constraint constraint)) [
        | inl e ↦ absurd (cc (i, rw (i, e, select_installable) at h))
        | inr (parsed, e) ↦ elim (Bool-cases (is_empty (trim_space constraint))) [
          | inl b ↦ absurd (cc (i, rw (i, e, b, select_installable) at h))
          | inr b ↦
              chosen-Installable sv laws constraint parsed cs v e
                (rw (i, e, b, select_installable) at h)
        ]
      ]
    ]
