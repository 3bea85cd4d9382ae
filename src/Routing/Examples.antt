-- ===== src/Routing/Examples.antt =====
-- Concrete runs of the router's selection.
use mathlib.Core.List.{Nodup, Mem}
use ne_kiro.Prelude.{
  ℕ, suc, ◌%◌, ◌^◌, ◌+◌, ◌≤◌, ◌<◌, ◌≡◌, ◌≢◌, ◌↔◌, ◌⊎◌, refl, sym, ap, subst, inl, inr, Bool, true,
  false, not, ◌&&◌, ◌||◌, Option, none, some, List, [], ◌∷◌, ◌++◌, arith, Eq, ◌==◌, if◌then◌else◌,
  ◌or_else◌, reject_if, Result, ok, err, ◌>>=◌, is_empty, nat_eq, leb, ltb, length, keep,
  Bool-cases, Option-cases,
}
use ne_kiro.Prelude.Int.{pos, int_eq}
use ne_kiro.Prelude.Text.{Text, codes, text_eq}
use ne_kiro.Registry.Target
use ne_kiro.Registry.Target.{ReleaseTarget, join_host_port, new_release_target}
use ne_kiro.Registry.Instance.{Instance, ready, lifecycle_eq}
use ne_kiro.Registry.Snapshot
use ne_kiro.Registry.Snapshot.{InstanceSnapshot}
use ne_kiro.Prelude.Text.{text_beq}
use ne_kiro.Registry.Instance
use ne_kiro.Registry.Examples.{
  example_net, example_target, example_snapshot, example_change, digest, change_accepted,
  target_accepted,
}
use ne_kiro.Routing.Selector.{
  A2aTarget, UrlPrinter, multiple_ready_endpoints, is_candidate, scan_endpoints, scan_instances,
  select_snapshot_target,
}
use ne_kiro.Routing.Selector.Single.{
  candidates, select_single, select_snapshot_target-eq-select_single,
}
use ne_kiro.Routing.Session.{
  ObservationSession, Observation, NextResult, Progress, watching, returned, unavailable,
  new_session, observe, initialize, apply, current, status, topology_observation_state,
}
use ne_kiro.Routing.Session.Current.{observe-current, observe_returns}
use ne_kiro.Routing.Table.{WatchSelector, new_table, session, find_session, limit_reached}
use ne_kiro.Routing.Table.Bounded.{targets, sessions-IsBounded, here, next, asks}
use ne_kiro.Routing.Table.Found.{Gives, session-Gives, session_refused}

abbrev a_printer : UrlPrinter
a_printer = record {
  print = λ u. u.scheme ++ codes "://" ++ u.host ++ u.path;
  print_with_host = λ host u. u.scheme ++ codes "://" ++ host ++ u.path;
  print_with_path = λ path u. u.scheme ++ codes "://" ++ u.host ++ path;
}

abbrev a_target : A2aTarget
a_target = record {
  agent_id = codes "agent";
  version = codes "1.0.0";
  capability = codes "c";
  endpoint = codes "http://a:81/";
  audience = codes "http://a:81";
  release_id = codes "r1";
  card_digest = digest;
  protocol = [];
  transport = [];
  auth_type = [];
  max_input_bytes = pos 1;
  max_output_bytes = pos 1;
  timeout_ms = pos 1;
  streaming = false;
}

-- Two endpoints with the port name are one too many.
select_snapshot_target-eq-select_single_example :
    select_snapshot_target example_net a_printer a_target example_snapshot (codes "http")
    ≡ select_single example_net a_printer a_target
        (candidates (codes "http") example_snapshot.instances)
select_snapshot_target-eq-select_single_example =
    select_snapshot_target-eq-select_single example_net a_printer a_target example_snapshot
      (codes "http")

two_refused :
    select_snapshot_target example_net a_printer a_target example_snapshot (codes "http")
    ≡ err multiple_ready_endpoints
unfolding select_snapshot_target scan_instances scan_endpoints is_candidate text_beq
    Instance.LifecycleState-discrete
two_refused = refl

abbrev before : InstanceSnapshot
before = record {
  target = example_target;
  revision = record { source_tokens = codes "s" ∷ []; local_order = 0 };
  state = Snapshot.empty;
  instances = [];
}

before_accepted : Snapshot.validate example_net before ≡ none
unfolding Snapshot.validate Snapshot.stored_instances_error Snapshot.state_error
    Instance.normalize_instances ne_kiro.Prelude.Sort.normalize ne_kiro.Prelude.Sort.sort
    ne_kiro.Prelude.Sort.has_duplicate ne_kiro.Registry.Revision.validate Target.valid_exact_text
    text_beq ne_kiro.Prelude.Text.trim_space
before_accepted = rw target_accepted refl

abbrev answer : Option Observation
answer = some (record { initial = before; watch = some 7 })

abbrev results : List NextResult
results = record { change = some example_change; applied_at = 2; failed_at = 3 } ∷ []

abbrev seen : ObservationSession × Progress
seen = observe example_net example_target answer 1 results (new_session 0)

shows_change : current seen.0 ≡ (example_snapshot, true)
unfolding current observe initialize apply Target.equal text_beq
shows_change = rw (before_accepted, change_accepted) refl

observe-current_example :
    (seen.1 ≡ watching)
    × (Snapshot.validate example_net example_snapshot ≡ none)
    × (example_snapshot.target ≡ example_target)
    × (example_snapshot.revision.local_order ≡ length results)
    × (length results < 2 ^ 64)
    × ((status seen.0).0 ≡ topology_observation_state example_snapshot.state)
    × ((status seen.0).1 ≡ length results)
observe-current_example = observe-current example_net example_target answer 0 1 results shows_change

observe_returns_example :
    (seen.0.ready ≡ true)
    × ((seen.1 ≡ watching) × ((current seen.0).1 ≡ true)
        ⊎ (seen.1 ≡ returned (some 7))
          × ((current seen.0).1 ≡ false)
          × ((status seen.0).0 ≡ unavailable))
observe_returns_example = observe_returns example_net example_target answer 0 1 results

abbrev one_session : WatchSelector
one_session = record {
  max_observations = 1;
  closed = false;
  sessions = (example_target, new_session 5) ∷ [];
}

first_session : session 5 example_target (new_table 1) ≡ ok (one_session, new_session 5)
unfolding session find_session
first_session = refl

sessions-IsBounded_example :
    (length one_session.sessions ≤ 1) × Nodup (targets one_session.sessions)
sessions-IsBounded_example = sessions-IsBounded 1 (next here (asks 5 example_target first_session))

session-Gives_example : Gives 5 example_target (new_table 1) (one_session, new_session 5)
session-Gives_example = session-Gives 5 example_target (new_table 1) first_session

abbrev other_target : ReleaseTarget
other_target = record example_target { release_id = codes "r2" }

session_refused_example : (session 6 other_target one_session ≡ err limit_reached) ↔ (
    (one_session.closed ≡ false)
    × (¬ Mem other_target (targets one_session.sessions))
    × (length (targets one_session.sessions) ≡ 1))
session_refused_example =
    session_refused 1 (next here (asks 5 example_target first_session)) 6 other_target
