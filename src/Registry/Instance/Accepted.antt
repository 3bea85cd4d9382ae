-- ===== src/Registry/Instance/Accepted.antt =====
-- Which inputs `NewInstance` of registry/model.go accepts, and what it makes of them.
use native.Mathlib.Decide.{ℕ_discrete}
use mathlib.Core.List.{Nodup, Perm, mem-cons_self, Pairwise-cons}
use mathlib.Core.List.Perm
use mathlib.Core.List.Pairwise
use ne_kiro.Prelude.{
  ◌≡◌, ◌↔◌, ◌⊎◌, refl, true, false, Option, none, some, List, [], ◌∷◌, arith, ok, is_empty, any_of,
  same_elements, All,
}
use ne_kiro.Prelude.Text.{Text}
use ne_kiro.Prelude.Sort.{IsSorted, Repeats}
use ne_kiro.Prelude.Normalize.{normalize-IsNormal, normalize_ok, IsSorted-Pairwise}
use ne_kiro.Registry.Errors.{OutcomeError}
use ne_kiro.Registry.Target.{valid_exact_text}
use ne_kiro.Registry.Endpoint
use ne_kiro.Registry.Endpoint.{NetworkEndpoint, normalize_network_endpoints, precedes, coincides}
use ne_kiro.Registry.Endpoint.Order.{endpoint-IsOrder, coincides-iff-eq, equal-iff-eq}
use ne_kiro.Registry.Instance.{
  Instance, StringMap, unset, derived_state, validate, stored_endpoints_error, zone_error,
  bad_entry, lifecycle_eq,
}

pub errors-set : IsSet (Option OutcomeError)
errors-set = hlevel ℕ_discrete

abbrev pub IsExact : Text → Type 0
IsExact t = valid_exact_text t ≡ true

abbrev pub ZoneIsExact : Option Text → Type 0
ZoneIsExact none = Unit
ZoneIsExact (some z) = IsExact z

-- The documented conditions on an instance, in terms of the input alone.
pub record IsAcceptable (input : Instance) : Type 0 where
  pub id_exact : IsExact input.id
  pub some_endpoint : is_empty input.endpoints ≡ false
  pub endpoints_valid : All (λ e. Endpoint.validate e ≡ none) input.endpoints
  pub endpoints_distinct : Nodup input.endpoints
  pub state_matches : (input.state ≡ unset) ⊎ (input.state ≡ derived_state input)
  pub zone_exact : ZoneIsExact input.zone
  pub metadata_exact : All (λ (e : Text × Text). IsExact e.0 × IsExact e.1) input.metadata

pub not_Repeats : (xs : List NetworkEndpoint) → Nodup xs → ¬ Repeats coincides xs
not_Repeats xs n (a, b, rest, p, e) =
    (Pairwise-cons.0 (Perm.nodup (Perm.symm p) n)).0 b mem-cons_self ((coincides-iff-eq a b).0 e)

module _ (xs : List NetworkEndpoint) {ys : List NetworkEndpoint} where
  module _ (h : normalize_network_endpoints xs ≡ ok ys) where
    pub normalized : Perm ys xs × IsSorted precedes ys × All (λ e. Endpoint.validate e ≡ none) ys
    unfolding normalize_network_endpoints
    normalized =
        let (p, n) = normalize_ok errors-set Endpoint.validate _ endpoint-IsOrder xs h in
        (p, n.0, n.1)

    -- Normalising what was normalised returns it unchanged.
    pub normalize_again : normalize_network_endpoints ys ≡ ok ys
    unfolding normalize_network_endpoints
    normalize_again =
        let (p, n) = normalize_ok errors-set Endpoint.validate _ endpoint-IsOrder xs h in
        normalize-IsNormal Endpoint.validate _ endpoint-IsOrder ys n

    pub normalized-Nodup : Nodup xs
    normalized-Nodup =
        let (p, s, v) = normalized in
        Perm.nodup p (
          Pairwise.imp (λ x y apart e. absurd (ground (arith, apart, (coincides-iff-eq x y).1 e)))
            (IsSorted-Pairwise endpoint-IsOrder ys s))

same_elements_self : (xs : List NetworkEndpoint) → same_elements Endpoint.equal xs xs ≡ true
same_elements_self [] = refl
same_elements_self (x ∷ xs) = rw ((equal-iff-eq x x).1 refl) (same_elements_self xs)

-- Endpoints that normalise to themselves pass the check of stored endpoints.
pub stored-of_normal :
    (ys : List NetworkEndpoint)
    → normalize_network_endpoints ys ≡ ok ys
    → stored_endpoints_error ys ≡ none
unfolding stored_endpoints_error
stored-of_normal ys h = rw (h, stored_endpoints_error) (rw (same_elements_self ys) (ground arith))

bad_entry-All :
    (m : StringMap)
    → All (λ (e : Text × Text). IsExact e.0 × IsExact e.1) m
    → any_of bad_entry m ≡ false
unfolding bad_entry
bad_entry-All [] h = refl
bad_entry-All ((k, v) ∷ m) h = ground (arith, h.0.0, h.0.1, bad_entry-All m h.1)

All-bad_entry :
    (m : StringMap)
    → any_of bad_entry m ≡ false
    → All (λ (e : Text × Text). IsExact e.0 × IsExact e.1) m
unfolding bad_entry
All-bad_entry [] h = tt
All-bad_entry ((k, v) ∷ m) h = ((ground arith, ground arith), All-bad_entry m (ground arith))

zone_error-ZoneIsExact : (z : Option Text) → ZoneIsExact z → zone_error z ≡ none
unfolding zone_error
zone_error-ZoneIsExact none h = refl
zone_error-ZoneIsExact (some t) h = rw h

ZoneIsExact-zone_error : (z : Option Text) → zone_error z ≡ none → ZoneIsExact z
unfolding zone_error
ZoneIsExact-zone_error none h = tt
ZoneIsExact-zone_error (some t) h = ground arith

-- What `Validate` has checked of a stored instance.
pub record IsStored (i : Instance) : Type 0 where
  pub id_exact : IsExact i.id
  pub some_endpoint : is_empty i.endpoints ≡ false
  pub endpoints_stored : stored_endpoints_error i.endpoints ≡ none
  pub state_derived : i.state ≡ derived_state i
  pub zone_exact : ZoneIsExact i.zone
  pub metadata_exact : All (λ (e : Text × Text). IsExact e.0 × IsExact e.1) i.metadata

pub validate-iff-IsStored : (i : Instance) → (validate i ≡ none) ↔ IsStored i
unfolding validate
validate-iff-IsStored i = (
  λ h. record {
    id_exact = ground arith;
    some_endpoint = ground arith;
    endpoints_stored = ground arith;
    state_derived = (lifecycle_eq.decides i.state (derived_state i)).0 (ground arith);
    zone_exact = ZoneIsExact-zone_error i.zone (ground arith);
    metadata_exact = All-bad_entry i.metadata (ground arith);
  },
  λ s.
      rw
        (
          s.id_exact,
          s.some_endpoint,
          s.endpoints_stored,
          (lifecycle_eq.decides i.state (derived_state i)).1 s.state_derived,
          zone_error-ZoneIsExact i.zone s.zone_exact,
          bad_entry-All i.metadata s.metadata_exact,
        )
        refl,
)
