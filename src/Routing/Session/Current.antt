-- ===== src/Routing/Session/Current.antt =====
-- What an observation of watch_selector.go shows while it lasts and after it ended.
use ne_kiro.Prelude.{
  ℕ, suc, ◌^◌, ◌+◌, ◌<◌, ◌≡◌, ◌⊎◌, refl, sym, ap, subst, inl, inr, Bool, true, false, ◌||◌, Option,
  none, some, List, [], ◌∷◌, arith, length,
}
use ne_kiro.Prelude.Int.{int_eq}
use ne_kiro.Prelude.Text.{text_eq}
use ne_kiro.Registry.Errors.{OutcomeError}
use ne_kiro.Registry.Url.{Net}
use ne_kiro.Registry.Target
use ne_kiro.Registry.Target.{ReleaseTarget, join_host_port, new_release_target}
use ne_kiro.Registry.Instance.{lifecycle_eq}
use ne_kiro.Registry.Snapshot
use ne_kiro.Registry.Snapshot.{InstanceSnapshot}
use ne_kiro.Registry.Change
use ne_kiro.Registry.Change.{InstanceChange}
use ne_kiro.Registry.Change.Consistent.{checks, validate-IsConsistent}
use ne_kiro.Registry.Revision
use ne_kiro.Routing.Session.{
  status, ObservationSession, Time, unavailable, topology_observation_state, refused, next_order,
  skips, apply, apply_when, initialize, initialize_when, unusable, fail, current, observe,
  observe_when, observe_changes, apply_result, loop_when, NextResult, Observation, Progress,
  watching, returned, new_session,
}

-- A session whose snapshot is the n-th of the observation of the target.
pub record IsLive (net : Net) (target : ReleaseTarget) (n : ℕ) (s : ObservationSession)
    : Type 0 where
  pub ready_closed : s.ready ≡ true
  pub shown : s.available ≡ true
  pub snapshot_valid : Snapshot.validate net s.snapshot ≡ none
  pub same_target : s.snapshot.target ≡ target
  pub order_kept : s.snapshot.revision.local_order ≡ n
  pub order_bounded : n < 2 ^ 64
  pub revision_kept : s.revision ≡ n
  pub state_kept : s.state ≡ topology_observation_state s.snapshot.state

-- A session that ended: waiting callers were released and nothing is shown.
pub record IsStopped (s : ObservationSession) : Type 0 where
  pub ready_closed : s.ready ≡ true
  pub hidden : s.available ≡ false
  pub unavailable_state : s.state ≡ unavailable

refused-none : (e : Option OutcomeError) → refused e ≡ false → e ≡ none
unfolding refused
refused-none none h = refl
refused-none (some e) h = cc

next_order_positive :
    (n m : ℕ) → n < 2 ^ 64 → m ≡ next_order n → 0 < m → (m ≡ n + 1) × (n + 1 < 2 ^ 64)
next_order_positive n m b e p = (omega arith, omega arith)

-- The watch that the directory opened.
abbrev pub watch_of : Option Observation → Option ℕ
watch_of none = none
watch_of (some o) = o.watch

module _ (net : Net) (target : ReleaseTarget) where
  apply-IsLive :
      (n : ℕ) (c : InstanceChange) (t : Time) (s : ObservationSession)
      → IsLive net target n s
      → (apply net target c t s).1 ≡ true
      → IsLive net target (n + 1) (apply net target c t s).0
  unfolding apply apply_when
  apply-IsLive n c t s l h =
      applied (refused (Change.validate net c) || skips target c.snapshot s) refl h
    where
      applied :
          (b : Bool)
          → (refused (Change.validate net c) || skips target c.snapshot s) ≡ b
          → (apply_when b c.snapshot t s).1 ≡ true
          → IsLive net target (n + 1) (apply_when b c.snapshot t s).0
      applied true e h = cc
      applied false e h =
          let v : Change.validate net c ≡ none =
            refused-none (Change.validate net c) (ground arith) in
          let k = checks net c v in
          let i = validate-IsConsistent net c v in
          let d : skips target c.snapshot s ≡ false = ground arith in
          let m : c.snapshot.revision.local_order ≡ next_order s.snapshot.revision.local_order =
            unfold skips in ground arith in
          let o =
            next_order_positive n c.snapshot.revision.local_order l.order_bounded
              (rw (sym l.order_kept) m)
              (unfold Revision.equal in ground (arith, i.order_positive, i.same_revision)) in
          record {
            ready_closed = l.ready_closed;
            shown = l.shown;
            snapshot_valid = k.snapshot_checked;
            same_target =
                (Target.equal_iff c.snapshot.target target).0 (unfold skips in ground arith);
            order_kept = o.0;
            order_bounded = o.1;
            revision_kept = o.0;
            state_kept = refl;
          }

  fail-IsStopped : (t : Time) (s : ObservationSession) → IsStopped (fail t s)
  unfolding fail
  fail-IsStopped t s = record { ready_closed = refl; hidden = refl; unavailable_state = refl }

  -- How the loop may stand after m changes of the observation.
  abbrev Stands : ℕ → ℕ → ObservationSession × Progress → Type 0
  Stands watch m r =
      (IsLive net target m r.0 × (r.1 ≡ watching)) ⊎ (IsStopped r.0 × (r.1 ≡ returned (some watch)))

  loop-Stands :
      (watch n : ℕ) (rs : List NextResult) (s : ObservationSession)
      → IsLive net target n s
      → Stands watch (n + length rs) (observe_changes net target watch rs s)
  unfolding observe_changes loop_when
  loop-Stands watch n [] s l = inl (subst (λ k. IsLive net target k s) (omega arith) l, refl)
  loop-Stands watch n (r ∷ rs) s l =
      round (apply_result net target r.change r.applied_at s).1 refl (λ k.
        loop-Stands watch (n + 1) rs (apply_result net target r.change r.applied_at s).0
          (taken r.change k))
    where
      taken :
          (c : Option InstanceChange)
          → (apply_result net target c r.applied_at s).1 ≡ true
          → IsLive net target (n + 1) (apply_result net target c r.applied_at s).0
      taken none k = unfold apply_result in cc
      taken (some c) k =
          unfold apply_result in apply-IsLive n c r.applied_at s l (unfold apply_result in k)

      rest : ObservationSession × Progress
      rest = observe_changes net target watch rs (apply_result net target r.change r.applied_at s).0

      round :
          (b : Bool)
          → (apply_result net target r.change r.applied_at s).1 ≡ b
          → ((apply_result net target r.change r.applied_at s).1 ≡ true
              → Stands watch (n + 1 + length rs) rest)
          → Stands watch
              (n + suc (length rs))
              (loop_when b watch r rest (apply_result net target r.change r.applied_at s).0)
      round true e k = subst (λ m. Stands watch m rest) (omega arith) (k e)
      round false e k =
          inr (fail-IsStopped r.failed_at (apply_result net target r.change r.applied_at s).0, refl)

  initialize-IsLive :
      (snapshot : InstanceSnapshot) (w : ℕ) (t : Time) (s : ObservationSession)
      → unusable net target snapshot ≡ false
      → IsLive net target 0 (initialize_when false snapshot w t s).0
  unfolding initialize_when unusable
  initialize-IsLive snapshot w t s h = record {
    ready_closed = refl;
    shown = refl;
    snapshot_valid = refused-none (Snapshot.validate net snapshot) (ground arith);
    same_target = (Target.equal_iff snapshot.target target).0 (ground arith);
    order_kept = ground arith;
    order_bounded = omega arith;
    revision_kept = ground arith;
    state_kept = refl;
  }

  observed :
      (o : Option Observation) (start now : Time) (rs : List NextResult)
      → (IsLive net target (length rs) (observe net target o now rs (new_session start)).0
          × ((observe net target o now rs (new_session start)).1 ≡ watching))
        ⊎ (IsStopped (observe net target o now rs (new_session start)).0
            × ((observe net target o now rs (new_session start)).1 ≡ returned (watch_of o)))
  unfolding observe observe_when initialize
  observed none start now rs = inr (fail-IsStopped now (new_session start), refl)
  observed (some o) start now rs = opened o.watch
    where
      Stood : Option ℕ → ObservationSession × Progress → Type 0
      Stood w r =
          (IsLive net target (length rs) r.0 × (r.1 ≡ watching))
          ⊎ (IsStopped r.0 × (r.1 ≡ returned w))

      checked :
          (w : ℕ) (b : Bool)
          → unusable net target o.initial ≡ b
          → Stood (some w) (
              observe_when
                (initialize_when b o.initial w now (new_session start)).1
                net
                target
                (some w)
                rs
                (initialize_when b o.initial w now (new_session start)).0)
      checked w true e =
          unfold initialize_when in
          inr (record { ready_closed = refl; hidden = refl; unavailable_state = refl }, refl)
      checked w false e =
          subst
            (λ m. Stands w m (
              observe_changes net target w rs
                (initialize_when false o.initial w now (new_session start)).0))
            (omega arith)
            (loop-Stands w 0 rs (initialize_when false o.initial w now (new_session start)).0
              (initialize-IsLive o.initial w now (new_session start) e))

      opened :
          (w : Option ℕ)
          → Stood w (
              observe_when
                (initialize net target o.initial w now (new_session start)).1
                net
                target
                w
                rs
                (initialize net target o.initial w now (new_session start)).0)
      opened none =
          inr (record { ready_closed = refl; hidden = refl; unavailable_state = refl }, refl)
      opened (some w) = checked w (unusable net target o.initial) refl

-- An observation shows a snapshot only while its loop runs. What it then shows after n results of
-- `Next` is a valid snapshot of the observed target with local order n, so that every result was a
-- change and none was skipped or repeated; and its status tells that order and state.
pub observe-current :
    (net : Net) (target : ReleaseTarget) (o : Option Observation) (start now : Time)
    (rs : List NextResult) {snapshot : InstanceSnapshot}
    → current (observe net target o now rs (new_session start)).0 ≡ (snapshot, true)
    → ((observe net target o now rs (new_session start)).1 ≡ watching)
      × (Snapshot.validate net snapshot ≡ none)
      × (snapshot.target ≡ target)
      × (snapshot.revision.local_order ≡ length rs)
      × (length rs < 2 ^ 64)
      × ((status (observe net target o now rs (new_session start)).0).0
          ≡ topology_observation_state snapshot.state)
      × ((status (observe net target o now rs (new_session start)).0).1 ≡ length rs)
unfolding current status
observe-current net target o start now rs {snapshot} h = elim (observed net target o start now rs) [
  | inl (l, w) ↦ (
    w,
    rw (sym (ap (λ p. p.0) h)) l.snapshot_valid,
    rw (sym (ap (λ p. p.0) h)) l.same_target,
    rw (sym (ap (λ p. p.0) h)) l.order_kept,
    l.order_bounded,
    rw (sym (ap (λ p. p.0) h)) l.state_kept,
    l.revision_kept,
  )
  | inr (d, w) ↦ absurd (ground (arith, d.hidden, ap (λ p. p.1) h))
]

-- When `observe` has returned, callers that wait are released, nothing is shown, the state is
-- unavailable, and the watch that the directory opened was closed. Until then the loop runs and
-- callers are released once the directory has answered.
pub observe_returns :
    (net : Net) (target : ReleaseTarget) (o : Option Observation) (start now : Time)
    (rs : List NextResult)
    → ((observe net target o now rs (new_session start)).0.ready ≡ true)
      × (((observe net target o now rs (new_session start)).1 ≡ watching)
            × ((current (observe net target o now rs (new_session start)).0).1 ≡ true)
          ⊎ ((observe net target o now rs (new_session start)).1 ≡ returned (watch_of o))
            × ((current (observe net target o now rs (new_session start)).0).1 ≡ false)
            × ((status (observe net target o now rs (new_session start)).0).0 ≡ unavailable))
unfolding current status
observe_returns net target o start now rs = elim (observed net target o start now rs) [
  | inl (l, w) ↦ (l.ready_closed, inl (w, l.shown))
  | inr (d, w) ↦ (d.ready_closed, inr (w, d.hidden, d.unavailable_state))
]
