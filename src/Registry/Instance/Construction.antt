-- ===== src/Registry/Instance/Construction.antt =====
-- `NewInstance` of registry/model.go against its documented conditions.
use mathlib.Core.List.{Perm, Nodup}
use mathlib.Core.List.Perm
use ne_kiro.Prelude.{
  ◌≡◌, ◌↔◌, ◌⊎◌, refl, subst, inl, inr, Bool, false, not, ◌&&◌, none, some, List, [], ◌∷◌, arith,
  ◌==◌, if◌then◌else◌, Result, ok, err, is_empty, All, All-perm, Bool-cases, ◌>>=◌, >>=-eq-ok,
}
use ne_kiro.Prelude.Sort.{IsSorted}
use ne_kiro.Prelude.Normalize.{normalize_total}
use ne_kiro.Registry.Errors.{OutcomeError, new_invalid_error}
use ne_kiro.Registry.Endpoint
use ne_kiro.Registry.Endpoint.{NetworkEndpoint, normalize_network_endpoints, precedes}
use ne_kiro.Registry.Endpoint.Order.{endpoint-IsOrder}
use ne_kiro.Registry.Instance.{
  Instance, unset, derived_state, new_instance, validate, assembled, lifecycle_eq,
}
use ne_kiro.Registry.Instance.Accepted.{
  IsAcceptable, IsStored, validate-iff-IsStored, errors-set, normalize_again, normalized,
  normalized-Nodup, not_Repeats, stored-of_normal,
}

is_empty-perm :
    {A : Type 0} (xs ys : List A) → Perm xs ys → is_empty xs ≡ false → is_empty ys ≡ false
is_empty-perm xs [] p h = let e : xs ≡ [] = Perm.eq-nil p in subst (λ l. is_empty l ≡ false) e h
is_empty-perm xs (y ∷ ys) p h = refl

module _ (input : Instance) where
  -- The guard on the optional state.
  state_refused : Bool
  state_refused = not (input.state == unset) && not (input.state == derived_state input)

  finish : List NetworkEndpoint → Result OutcomeError Instance
  finish sorted =
      if state_refused
      then err (new_invalid_error "lifecycle_state")
      else elim (validate (assembled input sorted)) [
        | none ↦ ok (assembled input sorted)
        | some e ↦ err e
      ]

  new_instance_steps : new_instance input ≡ (normalize_network_endpoints input.endpoints >>= finish)
  unfolding new_instance finish state_refused
  new_instance_steps = refl

  state_accepted :
      (input.state ≡ unset) ⊎ (input.state ≡ derived_state input) → state_refused ≡ false
  unfolding state_refused
  state_accepted (inl e) = rw ((lifecycle_eq.decides input.state unset).1 e) refl
  state_accepted (inr e) =
      ground (arith, (lifecycle_eq.decides input.state (derived_state input)).1 e)

  accepted_state :
      state_refused ≡ false → (input.state ≡ unset) ⊎ (input.state ≡ derived_state input)
  unfolding state_refused
  accepted_state h = elim (Bool-cases (input.state == unset)) [
    | inl e ↦ inl ((lifecycle_eq.decides input.state unset).0 e)
    | inr e ↦ inr ((lifecycle_eq.decides input.state (derived_state input)).0 (ground arith))
  ]

  finish_ok :
      (ys : List NetworkEndpoint) {i : Instance}
      → finish ys ≡ ok i
      → (i ≡ assembled input ys) × IsStored (assembled input ys) × (state_refused ≡ false)
  unfolding finish
  finish_ok ys h =
      (ground arith, (validate-iff-IsStored (assembled input ys)).0 (ground arith), ground arith)

endpoints_valid_of :
    (xs : List NetworkEndpoint) {ys : List NetworkEndpoint}
    → normalize_network_endpoints xs ≡ ok ys
    → All (λ e. Endpoint.validate e ≡ none) xs
endpoints_valid_of xs {ys} h =
    let (p, o, v) = normalized xs h in
    All-perm (λ e. Endpoint.validate e ≡ none) (λ e. errors-set _ _) ys xs p v

normalized_total :
    (xs : List NetworkEndpoint)
    → All (λ e. Endpoint.validate e ≡ none) xs
    → Nodup xs
    → (ys : List NetworkEndpoint) × (normalize_network_endpoints xs ≡ ok ys)
unfolding normalize_network_endpoints
normalized_total xs v d =
    normalize_total errors-set Endpoint.validate _ endpoint-IsOrder xs v (not_Repeats xs d)

assembled-IsStored :
    (input : Instance) (ys : List NetworkEndpoint)
    → IsAcceptable input
    → normalize_network_endpoints input.endpoints ≡ ok ys
    → IsStored (assembled input ys)
unfolding assembled derived_state
assembled-IsStored input ys a h = record {
  id_exact = a.id_exact;
  some_endpoint =
      is_empty-perm input.endpoints ys (Perm.symm ((normalized input.endpoints h).0))
        a.some_endpoint;
  endpoints_stored = stored-of_normal ys (normalize_again input.endpoints h);
  state_derived = refl;
  zone_exact = a.zone_exact;
  metadata_exact = a.metadata_exact;
}

finish_total :
    (input : Instance) (ys : List NetworkEndpoint)
    → state_refused input ≡ false
    → IsStored (assembled input ys)
    → finish input ys ≡ ok (assembled input ys)
unfolding finish
finish_total input ys g s = rw (g, (validate-iff-IsStored (assembled input ys)).1 s) refl

accept : (input : Instance) → IsAcceptable input → (i : Instance) × (new_instance input ≡ ok i)
accept input a =
    let (ys, n) = normalized_total input.endpoints a.endpoints_valid a.endpoints_distinct in
    (
      assembled input ys,
      rw (new_instance_steps input, n)
          (finish_total input ys (state_accepted input a.state_matches)
            (assembled-IsStored input ys a n)),
    )

accepted : (input i : Instance) → new_instance input ≡ ok i → IsAcceptable input
unfolding assembled
accepted input i h =
    let (ys, n, f) =
      >>=-eq-ok (normalize_network_endpoints input.endpoints) (finish input)
        (subst (λ r. r ≡ ok i) (new_instance_steps input) h) in
    let (e, s, g) = finish_ok input ys f in
    record {
      id_exact = s.id_exact;
      some_endpoint =
          is_empty-perm ys input.endpoints ((normalized input.endpoints n).0) s.some_endpoint;
      endpoints_valid = endpoints_valid_of input.endpoints n;
      endpoints_distinct = normalized-Nodup input.endpoints n;
      state_matches = accepted_state input g;
      zone_exact = s.zone_exact;
      metadata_exact = s.metadata_exact;
    }

-- `NewInstance` succeeds exactly on the inputs that meet the documented conditions: an exact
-- identifier, at least one endpoint, valid endpoints with no tuple twice, a state that is absent or
-- the derived one, and exact zone and metadata texts. No later check refuses such an input.
pub new_instance-iff-IsAcceptable :
    (input : Instance) → ((i : Instance) × (new_instance input ≡ ok i)) ↔ IsAcceptable input
new_instance-iff-IsAcceptable input = (λ r. accepted input r.0 r.1, accept input)

-- What `NewInstance` returns keeps every field of the input but two: its endpoints are those of the
-- input in strictly increasing order, and its state is the derived one. `Validate` accepts it.
pub new_instance_result :
    (input i : Instance)
    → new_instance input ≡ ok i
    → (i ≡ record input { endpoints = i.endpoints; state = derived_state input })
      × Perm i.endpoints input.endpoints
      × IsSorted precedes i.endpoints
      × (validate i ≡ none)
unfolding assembled
new_instance_result input i h =
    let (ys, n, f) =
      >>=-eq-ok (normalize_network_endpoints input.endpoints) (finish input)
        (subst (λ r. r ≡ ok i) (new_instance_steps input) h) in
    let (e, s, g) = finish_ok input ys f in
    let (p, o, v) = normalized input.endpoints n in
    rw e (refl, p, o, (validate-iff-IsStored (assembled input ys)).1 s)
