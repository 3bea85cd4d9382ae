-- ===== src/Registry/Examples.antt =====
-- Concrete data and runs of the registry's code.
use mathlib.Core.List.{Perm}
use ne_kiro.Prelude.{
  ℕ, suc, ◌<◌, ◌≤◌, ◌≡◌, ◌≢◌, ◌↔◌, ◌⊎◌, refl, inl, inr, Bool, true, false, Option, none, some, List,
  [], ◌∷◌, ◌++◌, arith, ◌==◌, if◌then◌else◌, Result, ok, err, length,
}
use ne_kiro.Prelude.Int.{pos, int_eq, atoi, itoa}
use ne_kiro.Prelude.Sort.{IsSorted, normalize, sort, has_duplicate}
use ne_kiro.Prelude.Text.{Text, codes, text_eq, text_beq, trim_space}
use ne_kiro.Registry.Errors.{
  wrapping, outcome_error, sentinel, stale, is_outcome, outcome_of, valid_outcome, typed_terminal,
  also, no_errors, closed, unavailable, GoError, as_outcome_error, find_as, errors_is,
  Outcome-discrete,
}
use ne_kiro.Registry.Errors.Tree.{leading, Carries, outcome_errors, outcome_of-is_outcome}
use ne_kiro.Registry.Errors.Allowed.{IsAllowed, typed_terminal-IsAllowed}
use ne_kiro.Registry.Url.{Url, Net}
use ne_kiro.Registry.Target
use ne_kiro.Registry.Target.{ReleaseTarget}
use ne_kiro.Registry.Endpoint
use ne_kiro.Registry.Endpoint.{NetworkEndpoint, precedes, transport_protocol_tcp}
use ne_kiro.Registry.Revision.{Revision}
use ne_kiro.Registry.Instance
use ne_kiro.Registry.Instance.{Instance, ready, unset, derived_state, new_instance}
use ne_kiro.Registry.Instance.Accepted.{IsAcceptable}
use ne_kiro.Registry.Instance.Construction.{new_instance-iff-IsAcceptable, new_instance_result}
use ne_kiro.Registry.Snapshot
use ne_kiro.Registry.Snapshot.{InstanceSnapshot, populated, no_state}
use ne_kiro.Registry.Change
use ne_kiro.Registry.Change.{InstanceChange, instances_changed}
use ne_kiro.Registry.Change.Consistent.{IsConsistent, validate-IsConsistent}
use ne_kiro.Registry.Watch.{context, begin_next, poll, publish, publish_valid, is_target_deleted}
use ne_kiro.Registry.Watch.System.{
  System, start, polling, blocked, after_begin, record_begin, after_poll, record_poll,
  after_publish, record_publish, Reaches, here, next, calls, polls, publishes, wakes,
}
use ne_kiro.Registry.Watch.Delivery.{received-prefix-accepted, blocked-wakes}

abbrev no_parts : Url
no_parts = record {
  scheme = [];
  opaque = [];
  user_present = false;
  host = [];
  path = [];
  raw_path = [];
  force_query = false;
  raw_query = [];
  fragment = [];
  raw_fragment = [];
  hostname = [];
  port_text = [];
  escaped_path = [];
}

abbrev origin_url : Url
origin_url = record no_parts {
  scheme = codes "http";
  host = codes "a:81";
  hostname = codes "a";
  port_text = codes "81";
}

abbrev endpoint_url : Url
endpoint_url = record origin_url { path = codes "/"; escaped_path = codes "/" }

-- A parser that knows two URLs.
abbrev pub example_net : Net
example_net = record {
  parse = λ raw.
      if raw == codes "http://a:81/"
      then some endpoint_url
      else if raw == codes "http://a:81"
      then some origin_url
      else none;
  to_lower = λ t. t;
  is_ip = λ t. false;
}

abbrev pub digest : Text
digest = codes "0123456789abcdef0123456789abcdef0123456789abcdef0123456789abcdef"

abbrev pub example_target : ReleaseTarget
example_target = record {
  agent_id = codes "agent";
  agent_card_version = codes "1.0.0";
  release_id = codes "r1";
  card_digest = digest;
  canonical_endpoint = codes "http://a:81/";
  audience = codes "http://a:81";
}

pub target_accepted : Target.validate example_net example_target ≡ none
unfolding Target.validate Target.canonical_http_value Target.valid_exact_text
    Target.matches_card_digest Target.valid_canonical_endpoint Target.valid_audience_origin
    Target.audience_for_canonical_endpoint text_beq trim_space atoi itoa
target_accepted = refl

-- Two endpoints out of order and an instance input that holds them.
abbrev endpoint_b : NetworkEndpoint
endpoint_b = record {
  address_type = codes "IPv4";
  address = codes "10.0.0.2";
  port_name = codes "http";
  port = pos 8080;
  protocol = transport_protocol_tcp;
}

abbrev pub endpoint_a : NetworkEndpoint
endpoint_a = record endpoint_b { address = codes "10.0.0.1" }

abbrev pub example_input : Instance
example_input = record {
  id = codes "i1";
  endpoints = endpoint_b ∷ endpoint_a ∷ [];
  is_ready = true;
  serving = true;
  terminating = false;
  state = unset;
  zone = none;
  weight = some (pos 3);
  metadata = (codes "k", codes "v") ∷ [];
}

abbrev pub example_instance : Instance
example_instance = record example_input { endpoints = endpoint_a ∷ endpoint_b ∷ []; state = ready }

abbrev pub example_snapshot : InstanceSnapshot
example_snapshot = record {
  target = example_target;
  revision = record { source_tokens = codes "t" ∷ []; local_order = 1 };
  state = populated;
  instances = example_instance ∷ [];
}

-- The instance arrives.
abbrev pub example_change : InstanceChange
example_change = record {
  kind = instances_changed;
  revision = record { source_tokens = codes "t" ∷ []; local_order = 1 };
  upserts = example_instance ∷ [];
  deleted_instance_ids = codes "i0" ∷ [];
  previous_state = no_state;
  snapshot = example_snapshot;
}

typed_terminal-IsAllowed_example :
    IsAllowed (
      typed_terminal
        (some (wrapping (codes "x") (also (outcome_error (sentinel stale)) no_errors))))
typed_terminal-IsAllowed_example =
    typed_terminal-IsAllowed
      (some (wrapping (codes "x") (also (outcome_error (sentinel stale)) no_errors)))

-- `errors.Join(ErrClosed, ErrUnavailable)`, with a text around it.
abbrev joined : GoError
joined = wrapping (codes "x") (
    also
      (wrapping (codes "y") (
        also (outcome_error (sentinel closed))
          (also (outcome_error (sentinel unavailable)) no_errors)))
      no_errors)

joined_both : (outcome_of joined ≡ some closed) × (is_outcome joined unavailable ≡ true)
unfolding outcome_of as_outcome_error find_as is_outcome errors_is valid_outcome Outcome-discrete
joined_both = (refl, refl)

outcome_of-is_outcome_example :
    (outcome_of joined ≡ leading (outcome_errors joined))
    × ((is_outcome joined unavailable ≡ true)
        ↔ ((valid_outcome unavailable ≡ true) × Carries unavailable (outcome_errors joined)))
outcome_of-is_outcome_example = outcome_of-is_outcome joined unavailable

input_accepted : new_instance example_input ≡ ok example_instance
unfolding new_instance Instance.validate Instance.derived_state Instance.derive_lifecycle_state
    Instance.LifecycleState-discrete ne_kiro.Registry.Endpoint.normalize_network_endpoints
    ne_kiro.Prelude.Sort.normalize ne_kiro.Prelude.Sort.sort ne_kiro.Prelude.Sort.has_duplicate
    ne_kiro.Registry.Endpoint.validate ne_kiro.Registry.Endpoint.equal
    ne_kiro.Registry.Endpoint.precedes ne_kiro.Registry.Endpoint.coincides
    ne_kiro.Registry.Endpoint.compare_network_endpoints text_beq trim_space Target.valid_exact_text
    ne_kiro.Prelude.Text.text_lt
input_accepted = refl

new_instance-iff-IsAcceptable_example :
    ((i : Instance) × (new_instance example_input ≡ ok i)) ↔ IsAcceptable example_input
new_instance-iff-IsAcceptable_example = new_instance-iff-IsAcceptable example_input

new_instance_result_example :
    (example_instance ≡ record example_input {
      endpoints = example_instance.endpoints;
      state = derived_state example_input;
    })
    × Perm example_instance.endpoints example_input.endpoints
    × IsSorted precedes example_instance.endpoints
    × (Instance.validate example_instance ≡ none)
new_instance_result_example = new_instance_result example_input example_instance input_accepted

pub change_accepted : Change.validate example_net example_change ≡ none
unfolding Change.validate Instance.equal Instance.normalize_instances Instance.validate
    Instance.derived_state Instance.derive_lifecycle_state Instance.LifecycleState-discrete
    ne_kiro.Registry.Endpoint.normalize_network_endpoints ne_kiro.Prelude.Sort.normalize
    ne_kiro.Prelude.Sort.sort ne_kiro.Prelude.Sort.has_duplicate ne_kiro.Registry.Endpoint.validate
    ne_kiro.Registry.Endpoint.equal ne_kiro.Registry.Endpoint.precedes
    ne_kiro.Registry.Endpoint.coincides ne_kiro.Registry.Endpoint.compare_network_endpoints text_beq
    trim_space Target.valid_exact_text ne_kiro.Prelude.Text.text_lt Target.validate
    Target.canonical_http_value Target.matches_card_digest Target.valid_canonical_endpoint
    Target.valid_audience_origin Target.audience_for_canonical_endpoint atoi itoa Snapshot.validate
    Snapshot.stored_instances_error Snapshot.state_error Snapshot.equal_instances
    Snapshot.valid_snapshot_state Snapshot.SnapshotState-discrete Change.InstanceChangeKind-discrete
    ne_kiro.Registry.Revision.validate ne_kiro.Registry.Revision.equal
    Change.normalize_deleted_instance_ids Change.equal_strings Change.instance_by_id
    Instance.equal_string_maps
change_accepted = refl

validate-IsConsistent_example : IsConsistent example_change
validate-IsConsistent_example = validate-IsConsistent example_net example_change change_accepted

-- `Next` is called on a new watch and waits, the change is published, and `Next` delivers it.
abbrev called : System
called = after_begin (context none) (start 1)

abbrev waited : System
waited = after_poll none called

abbrev published : System
published = after_publish example_net example_change waited

abbrev woken : System
woken = record published { consumer = polling }

abbrev received : System
received = after_poll none woken

called_polling : called.consumer ≡ polling
unfolding after_begin record_begin begin_next
called_polling = refl

published_blocked :
    (published.consumer ≡ blocked 0)
    × (published.watch.queue ≡ example_change ∷ [])
    × (published.watch.signal ≡ 1)
unfolding after_begin record_begin begin_next after_poll record_poll poll after_publish
    record_publish publish publish_valid is_target_deleted Change.InstanceChangeKind-discrete
published_blocked = rw change_accepted (refl, refl, refl)

published_reached : Reaches example_net (start 1) published
published_reached =
    next (next (next here (calls (context none))) (polls none called_polling))
      (publishes example_change)

received_reached : Reaches example_net (start 1) received
received_reached =
    next
      (next published_reached (wakes 0 published_blocked.0 (ground (arith, published_blocked.2))))
      (polls none refl)

received-prefix-accepted_example :
    ((rest : List InstanceChange) × (received.received ++ rest ≡ received.accepted)
      × (received.watch.terminal ≡ none → rest ≡ received.watch.queue))
    × (length received.watch.queue ≤ received.watch.capacity)
received-prefix-accepted_example = received-prefix-accepted example_net 1 received_reached

blocked-wakes_example : 0 < published.watch.signal
blocked-wakes_example =
    blocked-wakes example_net 1 0 published_reached published_blocked.0
      (inl (λ e. cc published_blocked.1))
