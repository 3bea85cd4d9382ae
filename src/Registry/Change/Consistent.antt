-- ===== src/Registry/Change/Consistent.antt =====
-- What an `InstanceChange` of registry/model.go that passed `Validate` tells its consumer.
use ne_kiro.Prelude.{
  reject_if-none, or_else-none, ==_false-ne, ◌≡◌, ◌≢◌, ◌⊎◌, ◌<◌, refl, subst, inl, inr, true, false,
  not, ◌&&◌, none, some, List, [], ◌∷◌, arith, is_empty, nat_eq, first_error, first_error-All, All,
  Option-cases,
}
use ne_kiro.Prelude.Text.{Text, text_beq_iff, text_eq}
use ne_kiro.Registry.Url.{Net}
use ne_kiro.Registry.Target
use ne_kiro.Registry.Revision
use ne_kiro.Registry.Instance
use ne_kiro.Registry.Instance.{Instance}
use ne_kiro.Registry.Snapshot
use ne_kiro.Registry.Snapshot.{
  InstanceSnapshot, SnapshotState, missing, empty, populated, other_snapshot, no_state,
  snapshot_state_eq, valid_snapshot_state, state_error, stored_instances_error,
}
use ne_kiro.Registry.Change.{
  InstanceChange, InstanceChangeKind, instances_changed, state_changed, target_deleted, other_kind,
  instance_by_id, upsert_error, deletion_error, kind_error, validate,
}

-- An instance of the list with this identifier and equal to `u`.
abbrev pub Shows : List Instance → Instance → Type 0
Shows [] u = ⊥
Shows (x ∷ xs) u = ((x.id ≡ u.id) × (Instance.equal u x ≡ true)) ⊎ Shows xs u

abbrev pub Lacks : List Instance → Text → Type 0
Lacks xs id = All (λ (x : Instance). x.id ≢ id) xs

empty-eq : {A : Type 0} (xs : List A) → is_empty xs ≡ true → xs ≡ []
empty-eq [] h = refl
empty-eq (x ∷ xs) h = cc

instance_by_id-none : (xs : List Instance) (id : Text) → instance_by_id xs id ≡ none → Lacks xs id
unfolding instance_by_id
instance_by_id-none [] id h = tt
instance_by_id-none (x ∷ xs) id h = (
  λ e. absurd (ground (arith, text_beq_iff x.id id, e)),
  instance_by_id-none xs id (ground arith),
)

instance_by_id-some :
    (xs : List Instance) (u : Instance) {y : Instance}
    → instance_by_id xs u.id ≡ some y
    → Instance.equal u y ≡ true
    → Shows xs u
unfolding instance_by_id
instance_by_id-some [] u h e = cc
instance_by_id-some (x ∷ xs) u {y} h e = elim (Option-cases (instance_by_id xs u.id)) [
  | inr (z, k) ↦ inr (instance_by_id-some xs u k (ground arith))
  | inl k ↦ inl (
    (text_beq_iff x.id u.id).0 (ground arith),
    subst (λ v. Instance.equal u v ≡ true) (ground (arith, text_beq_iff x.id u.id)) e,
  )
]

upserts-Shows :
    (present us : List Instance)
    → All (λ u. upsert_error present u ≡ none) us
    → All (Shows present) us
upserts-Shows present [] h = tt
upserts-Shows present (u ∷ us) h = (one, upserts-Shows present us h.1)
  where
    one : Shows present u
    one = elim (Option-cases (instance_by_id present u.id)) [
      | inl k ↦ absurd (unfold upsert_error in ground (arith, h.0))
      | inr (y, k) ↦ instance_by_id-some present u k (unfold upsert_error in ground (arith, h.0))
    ]

deletions-Lacks :
    (present : List Instance) (ids : List Text)
    → All (λ id. deletion_error present id ≡ none) ids
    → All (Lacks present) ids
deletions-Lacks present [] h = tt
deletions-Lacks present (id ∷ ids) h = (one, deletions-Lacks present ids h.1)
  where
    one : Lacks present id
    one = elim (Option-cases (instance_by_id present id)) [
      | inl k ↦ instance_by_id-none present id k
      | inr (y, k) ↦ absurd (unfold deletion_error in ground (arith, h.0))
    ]

-- What the kind of a change promises of its parts.
abbrev pub Promises : InstanceChangeKind → InstanceChange → Type 0
Promises instances_changed c =
    ((c.upserts ≢ []) ⊎ (c.deleted_instance_ids ≢ [])) × (c.previous_state ≡ no_state)
Promises state_changed c =
    ((c.previous_state ≡ missing) × (c.snapshot.state ≡ empty)
      ⊎ (c.previous_state ≡ empty) × (c.snapshot.state ≡ missing))
    × (c.upserts ≡ [])
    × (c.deleted_instance_ids ≡ [])
    × (c.snapshot.instances ≡ [])
Promises target_deleted c =
    (c.previous_state ≡ no_state)
    × (c.snapshot.state ≡ missing)
    × (c.upserts ≡ [])
    × (c.deleted_instance_ids ≡ [])
    × (c.snapshot.instances ≡ [])
Promises (other_kind t) c = ⊥

no_instances :
    (s : SnapshotState) (xs : List Instance) → s ≢ populated → state_error s xs ≡ none → xs ≡ []
unfolding state_error
no_instances missing xs p h = empty-eq xs (ground arith)
no_instances empty xs p h = empty-eq xs (ground arith)
no_instances populated xs p h = absurd (p refl)
no_instances (other_snapshot t) xs p h = cc

state_pair :
    (p s : SnapshotState) (xs : List Instance)
    → valid_snapshot_state p ≡ true
    → p ≢ s
    → p ≢ populated
    → s ≢ populated
    → state_error s xs ≡ none
    → ((p ≡ missing) × (s ≡ empty)) ⊎ ((p ≡ empty) × (s ≡ missing))
unfolding valid_snapshot_state state_error
state_pair missing missing xs v d a b h = absurd (d refl)
state_pair missing empty xs v d a b h = inl (refl, refl)
state_pair empty missing xs v d a b h = inr (refl, refl)
state_pair empty empty xs v d a b h = absurd (d refl)
state_pair (other_snapshot t) s xs v d a b h = cc
state_pair populated s xs v d a b h = absurd (a refl)
state_pair missing populated xs v d a b h = absurd (b refl)
state_pair empty populated xs v d a b h = absurd (b refl)
state_pair missing (other_snapshot t) xs v d a b h = cc
state_pair empty (other_snapshot t) xs v d a b h = cc

module _ (c : InstanceChange)
    (consistent : state_error c.snapshot.state c.snapshot.instances ≡ none) where
  open c use {upserts, deleted_instance_ids, previous_state, snapshot}

  changed-Promises : kind_error instances_changed c ≡ none → Promises instances_changed c
  unfolding kind_error
  changed-Promises h = (
    some_delta upserts deleted_instance_ids (ground arith),
    (snapshot_state_eq.decides previous_state no_state).0 (ground arith),
  )
    where
      some_delta :
          (us : List Instance) (ids : List Text)
          → (is_empty us && is_empty ids) ≡ false
          → (us ≢ []) ⊎ (ids ≢ [])
      some_delta [] [] h = cc
      some_delta [] (id ∷ ids) h = inr (λ e. cc)
      some_delta (u ∷ us) ids h = inl (λ e. cc)

  state-Promises : kind_error state_changed c ≡ none → Promises state_changed c
  unfolding kind_error
  state-Promises h =
      let calm : snapshot.state ≢ populated =
        ==_false-ne snapshot_state_eq snapshot.state populated (ground arith) in
      (
        state_pair previous_state snapshot.state snapshot.instances (ground arith)
            (==_false-ne snapshot_state_eq previous_state snapshot.state (ground arith))
            (==_false-ne snapshot_state_eq previous_state populated (ground arith)) calm consistent,
        empty-eq upserts (ground arith),
        empty-eq deleted_instance_ids (ground arith),
        no_instances snapshot.state snapshot.instances calm consistent,
      )

  deleted-Promises : kind_error target_deleted c ≡ none → Promises target_deleted c
  unfolding kind_error
  deleted-Promises h =
      let gone : snapshot.state ≡ missing =
        (snapshot_state_eq.decides snapshot.state missing).0 (ground arith) in
      (
        (snapshot_state_eq.decides previous_state no_state).0 (ground arith),
        gone,
        empty-eq upserts (ground arith),
        empty-eq deleted_instance_ids (ground arith),
        no_instances snapshot.state snapshot.instances (λ e. cc gone) consistent,
      )

  promises : (k : InstanceChangeKind) → kind_error k c ≡ none → Promises k c
  promises instances_changed h = changed-Promises h
  promises state_changed h = state-Promises h
  promises target_deleted h = deleted-Promises h
  promises (other_kind t) h = unfold kind_error in cc

-- The parts of a change that passed `Validate`.
pub record IsConsistent (c : InstanceChange) : Type 0 where
  pub order_positive : 0 < c.revision.local_order
  pub same_revision : Revision.equal c.revision c.snapshot.revision ≡ true
  pub upserts_shown : All (Shows c.snapshot.instances) c.upserts
  pub deletions_gone : All (Lacks c.snapshot.instances) c.deleted_instance_ids
  pub kind_kept : Promises c.kind c

-- The checks of `Validate` one by one.
pub record Checks (net : Net) (c : InstanceChange) : Type 0 where
  pub order_checked : nat_eq c.revision.local_order 0 ≡ false
  pub snapshot_checked : Snapshot.validate net c.snapshot ≡ none
  pub revision_checked : not (Revision.equal c.revision c.snapshot.revision) ≡ false
  pub upserts_checked : first_error (upsert_error c.snapshot.instances) c.upserts ≡ none
  pub deletions_checked :
      first_error (deletion_error c.snapshot.instances) c.deleted_instance_ids ≡ none
  pub kind_checked : kind_error c.kind c ≡ none

pub checks : (net : Net) (c : InstanceChange) → validate net c ≡ none → Checks net c
unfolding validate
checks net c h =
    let (h1, t1) = or_else-none _ _ h in
    let (h2, t2) = or_else-none _ _ t1 in
    let (h3, t3) = or_else-none _ _ t2 in
    let (h4, t4) = or_else-none _ _ t3 in
    let (h5, t5) = or_else-none _ _ t4 in
    let (h6, t6) = or_else-none _ _ t5 in
    let (h7, t7) = or_else-none _ _ t6 in
    let (h8, h9) = or_else-none _ _ t7 in
    record {
      order_checked = reject_if-none _ _ h2;
      snapshot_checked = h3;
      revision_checked = reject_if-none _ _ h4;
      upserts_checked = h7;
      deletions_checked = h8;
      kind_checked = h9;
    }

snapshot_state_checked :
    (net : Net) (s : InstanceSnapshot)
    → Snapshot.validate net s ≡ none
    → state_error s.state s.instances ≡ none
unfolding Snapshot.validate
snapshot_state_checked net s h =
    let (h1, t1) = or_else-none (Target.validate net s.target) _ h in
    let (h2, t2) = or_else-none (Revision.validate s.revision) _ t1 in
    (or_else-none (stored_instances_error s.instances) _ t2).1

-- A change that `Validate` accepts has a positive local order and its snapshot's revision; its
-- snapshot holds an instance equal to each upsert under the upsert's identifier, and none under a
-- deleted identifier; and its kind keeps its promise: `instances_changed` has a delta and no
-- previous state, `state_changed` is a move between missing and empty with no delta and no
-- instance, `target_deleted` leads to missing with no delta and no instance. There is no other kind.
pub validate-IsConsistent :
    (net : Net) (c : InstanceChange) → validate net c ≡ none → IsConsistent c
validate-IsConsistent net c h =
    let k = checks net c h in
    record {
      order_positive = ground (arith, k.order_checked);
      same_revision = ground (arith, k.revision_checked);
      upserts_shown =
          upserts-Shows c.snapshot.instances c.upserts
            (first_error-All (upsert_error c.snapshot.instances) c.upserts k.upserts_checked);
      deletions_gone = deletions-Lacks c.snapshot.instances c.deleted_instance_ids (
          first_error-All (deletion_error c.snapshot.instances) c.deleted_instance_ids
            k.deletions_checked);
      kind_kept =
          promises c (snapshot_state_checked net c.snapshot k.snapshot_checked) c.kind
            k.kind_checked;
    }
