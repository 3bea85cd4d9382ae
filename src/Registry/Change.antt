-- ===== src/Registry/Change.antt =====
-- registry/model.go, aggregate topology changes.
pub mod Consistent
use native.Mathlib.Decide.{ℕ_discrete}
use ne_kiro.Prelude.{
  Bool, not, ◌&&◌, ◌||◌, Option, none, some, List, [], ◌∷◌, Eq, ◌==◌, if◌then◌else◌, ◌or_else◌,
  reject_if, Result, ok, err, ◌>>=◌, is_empty, same_elements, nat_eq, test, test_iff, first_error,
}
use ne_kiro.Prelude.Text.{Text, text_beq, text_lt, text_eq}
use ne_kiro.Prelude.Sort.{normalize}
use ne_kiro.Registry.Errors.{OutcomeError, new_invalid_error}
use ne_kiro.Registry.Url.{Net}
use ne_kiro.Registry.Target.{valid_exact_text}
use ne_kiro.Registry.Revision
use ne_kiro.Registry.Revision.{Revision}
use ne_kiro.Registry.Instance
use ne_kiro.Registry.Instance.{Instance, normalize_instances}
use ne_kiro.Registry.Snapshot
use ne_kiro.Registry.Snapshot.{
  InstanceSnapshot, SnapshotState, missing, populated, no_state, snapshot_state_eq,
  valid_snapshot_state, equal_instances,
}

pub data InstanceChangeKind : Type 0 where
  instances_changed state_changed target_deleted : InstanceChangeKind
  other_kind : Text → InstanceChangeKind

unfoldable pub InstanceChangeKind-discrete : Discrete InstanceChangeKind
InstanceChangeKind-discrete = hlevel ℕ_discrete

instance abbrev pub change_kind_eq : Eq InstanceChangeKind
change_kind_eq = record {
  beq = λ a b. test (InstanceChangeKind-discrete a b);
  decides = λ a b. test_iff (InstanceChangeKind-discrete a b);
}

-- InstanceChange; InstanceChangeInput has the same fields.
pub record InstanceChange : Type 0 where
  pub kind : InstanceChangeKind
  pub revision : Revision
  pub upserts : List Instance
  pub deleted_instance_ids : List Text
  pub previous_state : SnapshotState
  pub snapshot : InstanceSnapshot

deleted_id_error : Text → Option OutcomeError
deleted_id_error id =
    reject_if (not (valid_exact_text id)) (new_invalid_error "deleted_instance_id")

unfoldable pub normalize_deleted_instance_ids : List Text → Result OutcomeError (List Text)
unfolding deleted_id_error normalize
normalize_deleted_instance_ids =
    normalize deleted_id_error text_lt text_beq (new_invalid_error "duplicate_deleted_instance_id")

-- `equalStrings`.
unfoldable pub equal_strings : List Text → List Text → Bool
equal_strings left right = same_elements text_beq left right

-- The map from identifiers to instances that a loop fills: the last of equal keys stays.
unfoldable pub instance_by_id : List Instance → Text → Option Instance
instance_by_id [] id = none
instance_by_id (x ∷ xs) id = elim (instance_by_id xs id) [
  | some y ↦ some y
  | none ↦ if x.id == id then some x else none
]

pub stored_upserts_error : List Instance → Option OutcomeError
stored_upserts_error upserts = elim (normalize_instances upserts) [
  | err e ↦ some e
  | ok sorted ↦
      reject_if (not (equal_instances sorted upserts)) (new_invalid_error "upserts_not_sorted")
]

pub stored_deletions_error : List Text → Option OutcomeError
stored_deletions_error ids = elim (normalize_deleted_instance_ids ids) [
  | err e ↦ some e
  | ok sorted ↦
      reject_if (not (equal_strings sorted ids))
        (new_invalid_error "deleted_instance_ids_not_sorted")
]

pub upsert_error : List Instance → Instance → Option OutcomeError
upsert_error present u = elim (instance_by_id present u.id) [
  | none ↦ some (new_invalid_error "upsert_missing_from_snapshot")
  | some result ↦
      reject_if (not (Instance.equal u result)) (new_invalid_error "upsert_does_not_match_snapshot")
]

pub deletion_error : List Instance → Text → Option OutcomeError
deletion_error present id = elim (instance_by_id present id) [
  | none ↦ none
  | some result ↦ some (new_invalid_error "deleted_instance_present_in_snapshot")
]

-- The switch on the kind.
pub kind_error : InstanceChangeKind → InstanceChange → Option OutcomeError
kind_error instances_changed c =
    reject_if (is_empty c.upserts && is_empty c.deleted_instance_ids)
      (new_invalid_error "empty_instance_change")
    or_else reject_if (not (c.previous_state == no_state))
        (new_invalid_error "instances_changed_previous_state")
kind_error state_changed c =
    reject_if
      (not (valid_snapshot_state c.previous_state)
        || c.previous_state == c.snapshot.state
        || c.previous_state == populated
        || c.snapshot.state == populated)
      (new_invalid_error "state_change_previous_state")
    or_else reject_if (not (is_empty c.upserts) || not (is_empty c.deleted_instance_ids))
        (new_invalid_error "state_change_delta")
kind_error target_deleted c =
    reject_if
      (not (c.previous_state == no_state)
        || not (c.snapshot.state == missing)
        || not (is_empty c.upserts)
        || not (is_empty c.deleted_instance_ids))
      (new_invalid_error "target_deleted_change")
kind_error (other_kind t) c = some (new_invalid_error "change_kind")

-- `InstanceChange.Validate`.
unfoldable pub validate : Net → InstanceChange → Option OutcomeError
unfolding stored_upserts_error stored_deletions_error upsert_error deletion_error kind_error
validate net c =
    Revision.validate c.revision
    or_else reject_if (nat_eq c.revision.local_order 0) (new_invalid_error "change_local_order")
    or_else Snapshot.validate net c.snapshot
    or_else reject_if (not (Revision.equal c.revision c.snapshot.revision))
        (new_invalid_error "change_snapshot_revision")
    or_else stored_upserts_error c.upserts
    or_else stored_deletions_error c.deleted_instance_ids
    or_else first_error (upsert_error c.snapshot.instances) c.upserts
    or_else first_error (deletion_error c.snapshot.instances) c.deleted_instance_ids
    or_else kind_error c.kind c

-- `NewInstanceChange`.
unfoldable pub new_instance_change : Net → InstanceChange → Result OutcomeError InstanceChange
new_instance_change net input = do
  upserts ← normalize_instances input.upserts
  deleted ← normalize_deleted_instance_ids input.deleted_instance_ids
  let change = record input { upserts = upserts; deleted_instance_ids = deleted }
  elim (validate net change) [ none ↦ ok change | some e ↦ err e ]

unfoldable pub equal : InstanceChange → InstanceChange → Bool
unfolding equal_strings
equal c other =
    c.kind == other.kind
    && Revision.equal c.revision other.revision
    && equal_instances c.upserts other.upserts
    && equal_strings c.deleted_instance_ids other.deleted_instance_ids
    && c.previous_state == other.previous_state
    && Snapshot.equal c.snapshot other.snapshot
