-- ===== src/Registry/Instance.antt =====
-- registry/model.go, instances: lifecycle, construction and validation.
pub mod Accepted
pub mod Construction
use native.Mathlib.Decide.{ℕ_discrete}
use ne_kiro.Prelude.{
  Bool, true, false, not, ◌&&◌, ◌||◌, Option, none, some, List, [], ◌∷◌, Eq, ◌==◌, if◌then◌else◌,
  ◌or_else◌, reject_if, Result, ok, err, test, test_iff, is_empty, any_of, all_of, same_elements,
  length, nat_eq, ◌>>=◌,
}
use ne_kiro.Prelude.Int.{ℤ, int_eq}
use ne_kiro.Prelude.Text.{Text, text_eq, text_beq, text_lt}
use ne_kiro.Prelude.Sort.{normalize}
use ne_kiro.Registry.Errors.{OutcomeError, new_invalid_error}
use ne_kiro.Registry.Target.{valid_exact_text}
use ne_kiro.Registry.Endpoint
use ne_kiro.Registry.Endpoint.{NetworkEndpoint, normalize_network_endpoints}

-- A string type with three named values; the empty string is `other_state []`.
pub data LifecycleState : Type 0 where
  ready unavailable draining : LifecycleState
  other_state : Text → LifecycleState

unfoldable pub LifecycleState-discrete : Discrete LifecycleState
LifecycleState-discrete = hlevel ℕ_discrete

instance abbrev pub lifecycle_eq : Eq LifecycleState
lifecycle_eq = record {
  beq = λ a b. test (LifecycleState-discrete a b);
  decides = λ a b. test_iff (LifecycleState-discrete a b);
}

abbrev pub unset : LifecycleState
unset = other_state []

unfoldable pub derive_lifecycle_state : Bool → Bool → Bool → LifecycleState
derive_lifecycle_state is_ready serving terminating =
    if terminating && serving
    then draining
    else if not terminating && serving && is_ready
    then ready
    else unavailable

-- A Go map from strings to strings: its entries, each key once, in the order of one iteration.
abbrev pub StringMap : Type 0
StringMap = List (Text × Text)

-- `m[key]`, with the zero value for a missing key.
unfoldable pub map_get : Text → StringMap → Text
map_get key [] = []
map_get key ((k, v) ∷ m) = if k == key then v else map_get key m

unfoldable pub equal_string_maps : StringMap → StringMap → Bool
unfolding map_get
equal_string_maps left right =
    nat_eq (length left) (length right) && all_of (λ (k, v). map_get k right == v) left

-- Instance; InstanceInput has the same fields, with `state` optional (`unset`).
pub record Instance : Type 0 where
  pub id : Text
  pub endpoints : List NetworkEndpoint
  pub is_ready : Bool
  pub serving : Bool
  pub terminating : Bool
  pub state : LifecycleState
  pub zone : Option Text
  pub weight : Option ℤ
  pub metadata : StringMap

-- `normalizeNetworkEndpoints` applied again to stored endpoints must return them as they are.
pub stored_endpoints_error : List NetworkEndpoint → Option OutcomeError
stored_endpoints_error endpoints = elim (normalize_network_endpoints endpoints) [
  | err e ↦ some e
  | ok sorted ↦
      reject_if (not (nat_eq (length sorted) (length endpoints)))
        (new_invalid_error "network_endpoints")
      or_else reject_if (not (same_elements Endpoint.equal sorted endpoints))
          (new_invalid_error "network_endpoints_not_sorted")
]

zone_error : Option Text → Option OutcomeError
zone_error none = none
zone_error (some z) = reject_if (not (valid_exact_text z)) (new_invalid_error "zone")

bad_entry : Text × Text → Bool
bad_entry (key, value) = not (valid_exact_text key) || not (valid_exact_text value)

unfoldable pub derived_state : Instance → LifecycleState
unfolding derive_lifecycle_state
derived_state i = derive_lifecycle_state i.is_ready i.serving i.terminating

-- `Instance.Validate`.
unfoldable pub validate : Instance → Option OutcomeError
unfolding stored_endpoints_error zone_error bad_entry
validate i =
    reject_if (not (valid_exact_text i.id)) (new_invalid_error "instance_id")
    or_else reject_if (is_empty i.endpoints) (new_invalid_error "network_endpoints")
    or_else stored_endpoints_error i.endpoints
    or_else reject_if (not (i.state == derived_state i)) (new_invalid_error "lifecycle_state")
    or_else zone_error i.zone
    or_else reject_if (any_of bad_entry i.metadata) (new_invalid_error "metadata")

-- The instance that NewInstance assembles before it is validated.
assembled : Instance → List NetworkEndpoint → Instance
assembled input sorted = record input { endpoints = sorted; state = derived_state input }

-- `NewInstance`.
unfoldable pub new_instance : Instance → Result OutcomeError Instance
unfolding assembled
new_instance input = do
  sorted ← normalize_network_endpoints input.endpoints
  let instance' = assembled input sorted
  if not (input.state == unset) && not (input.state == derived_state input)
      then err (new_invalid_error "lifecycle_state")
      else elim (validate instance') [ none ↦ ok instance' | some e ↦ err e ]

bool_beq : Bool → Bool → Bool
bool_beq true b = b
bool_beq false b = not b

option_beq : {A : Type 0} → (A → A → Bool) → Option A → Option A → Bool
option_beq eq none none = true
option_beq eq (some a) (some b) = eq a b
option_beq eq _ _ = false

-- `Instance.Equal`.
unfoldable pub equal : Instance → Instance → Bool
unfolding bool_beq option_beq equal_string_maps
equal i other =
    if not (i.id == other.id)
      || not (bool_beq i.is_ready other.is_ready)
      || not (bool_beq i.serving other.serving)
      || not (bool_beq i.terminating other.terminating)
      || not (i.state == other.state)
      || not (option_beq text_beq i.zone other.zone)
      || not (option_beq int_eq.beq i.weight other.weight)
      || not (equal_string_maps i.metadata other.metadata)
      || not (nat_eq (length i.endpoints) (length other.endpoints))
    then false
    else same_elements Endpoint.equal i.endpoints other.endpoints

pub same_id : Instance → Instance → Bool
same_id i j = i.id == j.id

pub lower_id : Instance → Instance → Bool
lower_id i j = text_lt i.id j.id

unfoldable pub normalize_instances : List Instance → Result OutcomeError (List Instance)
unfolding lower_id same_id normalize
normalize_instances =
    normalize validate lower_id same_id (new_invalid_error "duplicate_instance_id")
