-- ===== src/Registry/Snapshot.antt =====
-- registry/model.go, complete topology snapshots of one target.
use native.Mathlib.Decide.{ℕ_discrete}
use ne_kiro.Prelude.{
  Bool, true, false, not, ◌||◌, Option, none, some, List, [], Eq, ◌==◌, if◌then◌else◌, ◌or_else◌,
  reject_if, Result, ok, err, ◌>>=◌, is_empty, same_elements, nat_eq, length, test, test_iff,
}
use ne_kiro.Prelude.Text.{Text}
use ne_kiro.Registry.Errors.{OutcomeError, new_invalid_error}
use ne_kiro.Registry.Url.{Net}
use ne_kiro.Registry.Target
use ne_kiro.Registry.Target.{ReleaseTarget}
use ne_kiro.Registry.Revision
use ne_kiro.Registry.Revision.{Revision}
use ne_kiro.Registry.Instance
use ne_kiro.Registry.Instance.{Instance, normalize_instances}

-- A string type with three named values; the empty string is `other_snapshot []`.
pub data SnapshotState : Type 0 where
  missing empty populated : SnapshotState
  other_snapshot : Text → SnapshotState

unfoldable pub SnapshotState-discrete : Discrete SnapshotState
SnapshotState-discrete = hlevel ℕ_discrete

instance abbrev pub snapshot_state_eq : Eq SnapshotState
snapshot_state_eq = record {
  beq = λ a b. test (SnapshotState-discrete a b);
  decides = λ a b. test_iff (SnapshotState-discrete a b);
}

abbrev pub no_state : SnapshotState
no_state = other_snapshot []

unfoldable pub valid_snapshot_state : SnapshotState → Bool
valid_snapshot_state (other_snapshot t) = false
valid_snapshot_state _ = true

-- InstanceSnapshot; InstanceSnapshotInput has the same fields.
pub record InstanceSnapshot : Type 0 where
  pub target : ReleaseTarget
  pub revision : Revision
  pub state : SnapshotState
  pub instances : List Instance

-- `normalizeInstances` applied again to stored instances must return them as they are.
unfoldable pub stored_instances_error : List Instance → Option OutcomeError
stored_instances_error instances = elim (normalize_instances instances) [
  | err e ↦ some e
  | ok sorted ↦
      reject_if (not (nat_eq (length sorted) (length instances))) (new_invalid_error "instances")
      or_else reject_if (not (same_elements Instance.equal sorted instances))
          (new_invalid_error "instances_not_sorted")
]

-- The switch on the state.
unfoldable pub state_error : SnapshotState → List Instance → Option OutcomeError
state_error missing instances =
    reject_if (not (is_empty instances)) (new_invalid_error "snapshot_state")
state_error empty instances =
    reject_if (not (is_empty instances)) (new_invalid_error "snapshot_state")
state_error populated instances =
    reject_if (is_empty instances) (new_invalid_error "snapshot_state")
state_error (other_snapshot t) instances = some (new_invalid_error "snapshot_state")

unfoldable pub validate : Net → InstanceSnapshot → Option OutcomeError
unfolding stored_instances_error state_error
validate net s =
    Target.validate net s.target
    or_else Revision.validate s.revision
    or_else stored_instances_error s.instances
    or_else state_error s.state s.instances

unfoldable pub new_instance_snapshot : Net → InstanceSnapshot → Result OutcomeError InstanceSnapshot
new_instance_snapshot net input = do
  instances ← normalize_instances input.instances
  let snapshot = record input { instances = instances }
  elim (validate net snapshot) [ none ↦ ok snapshot | some e ↦ err e ]

-- `equalInstances`.
unfoldable pub equal_instances : List Instance → List Instance → Bool
equal_instances left right = same_elements Instance.equal left right

unfoldable pub equal : InstanceSnapshot → InstanceSnapshot → Bool
unfolding equal_instances
equal s other =
    if not (Target.equal s.target other.target)
      || not (Revision.equal s.revision other.revision)
      || not (s.state == other.state)
    then false
    else equal_instances s.instances other.instances
