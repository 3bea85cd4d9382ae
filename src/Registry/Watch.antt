-- ===== src/Registry/Watch.antt =====
-- registry/watch.go: the bounded pull watch. Each definition is one critical section under the
-- mutex; `Next` is `begin_next`, then `poll` until it does not wait, then `end_next`. The channel
-- `signal` is a number: closing it and making a new one counts up, and a consumer that took the
-- channel n is woken as soon as the number is past n.
pub mod System
pub mod Queue
pub mod History
pub mod Delivery
use ne_kiro.Prelude.{
  ℕ, suc, ◌+◌, ◌≡◌, refl, Bool, true, false, not, ◌&&◌, ◌||◌, Option, none, some, List, [], ◌∷◌,
  ◌++◌, arith, ◌==◌, if◌then◌else◌, Result, ok, err, length, leb, is_empty,
}
use ne_kiro.Prelude.Int.{ℤ, pos, negsuc}
use ne_kiro.Registry.Errors.{
  OutcomeError, GoError, ContextError, err_closed, new_invalid_error, new_outcome_error,
  new_canceled_error, typed_terminal, watch_interrupted, delivery_overflow,
}
use ne_kiro.Registry.Url.{Net}
use ne_kiro.Registry.Change
use ne_kiro.Registry.Change.{InstanceChange, InstanceChangeKind, target_deleted, change_kind_eq}

pub record InstanceWatch : Type 0 where
  pub capacity : ℕ
  pub queue : List InstanceChange
  pub terminal : Option OutcomeError
  pub target_deleted_pending : Bool
  pub next_active : Bool
  pub signal : ℕ

abbrev pub fresh : ℕ → InstanceWatch
fresh capacity = record {
  capacity = capacity;
  queue = [];
  terminal = none;
  target_deleted_pending = false;
  next_active = false;
  signal = 0;
}

unfoldable pub new_instance_watch : ℤ → Result OutcomeError InstanceWatch
new_instance_watch (pos (suc n)) = ok (fresh (suc n))
new_instance_watch _ = err (new_invalid_error "queue_capacity")

notify_locked : InstanceWatch → InstanceWatch
notify_locked w = record w { signal = suc w.signal }

unfoldable pub is_target_deleted : InstanceChange → Bool
is_target_deleted c = c.kind == target_deleted

abbrev pub overflow : OutcomeError
overflow = new_outcome_error watch_interrupted delivery_overflow

-- `Publish` past the tests of the state; the first argument is `len(w.queue) >= w.capacity`.
pub enqueue_when : Bool → InstanceChange → InstanceWatch → InstanceWatch × Option OutcomeError
unfolding notify_locked
enqueue_when true change w =
    (notify_locked (record w { terminal = some overflow; queue = [] }), some overflow)
enqueue_when false change w = (
  notify_locked (record w {
    queue = w.queue ++ change ∷ [];
    target_deleted_pending = if is_target_deleted change then true else w.target_deleted_pending;
  }),
  none,
)

-- The test of `terminal`.
pub publish_when :
    Option OutcomeError → InstanceChange → InstanceWatch → InstanceWatch × Option OutcomeError
publish_when (some e) change w = (w, some e)
publish_when none change w = enqueue_when (leb w.capacity (length w.queue)) change w

-- The test of `targetDeletedPending`.
pub publish_unless : Bool → InstanceChange → InstanceWatch → InstanceWatch × Option OutcomeError
publish_unless true change w = (w, some err_closed)
publish_unless false change w = publish_when w.terminal change w

-- `Publish` after the change was validated.
unfoldable pub publish_valid : InstanceChange → InstanceWatch → InstanceWatch × Option OutcomeError
unfolding publish_unless publish_when enqueue_when
publish_valid change w = publish_unless w.target_deleted_pending change w

pub publish_checked :
    Option OutcomeError → InstanceChange → InstanceWatch → InstanceWatch × Option OutcomeError
publish_checked (some e) change w = (w, some e)
publish_checked none change w = publish_valid change w

unfoldable pub publish : Net → InstanceChange → InstanceWatch → InstanceWatch × Option OutcomeError
unfolding publish_checked publish_valid
publish net change w = publish_checked (Change.validate net change) change w

pub latch_unless : Bool → OutcomeError → InstanceWatch → InstanceWatch
unfolding notify_locked
latch_unless true e w = w
latch_unless false e w = notify_locked (record w { terminal = some e; queue = [] })

pub latch_when : Option OutcomeError → OutcomeError → InstanceWatch → InstanceWatch
latch_when (some t) e w = w
latch_when none e w = latch_unless w.target_deleted_pending e w

-- The private `terminate`.
unfoldable pub latch : OutcomeError → InstanceWatch → InstanceWatch
unfolding latch_when latch_unless
latch e w = latch_when w.terminal e w

unfoldable pub close : InstanceWatch → InstanceWatch
unfolding latch
close w = latch err_closed w

-- `Terminate`; `none` is a nil error.
unfoldable pub terminate : Option GoError → InstanceWatch → InstanceWatch
unfolding latch
terminate e w = latch (typed_terminal e) w

-- The context of a call: absent (nil), or with what `ctx.Err()` returns.
pub data Context : Type 0 where
  nil_context : Context
  context : Option ContextError → Context

-- The test of `nextActive`.
pub begin_when : Bool → InstanceWatch → InstanceWatch × Option OutcomeError
begin_when true w = (w, some (new_invalid_error "concurrent_next"))
begin_when false w = (record w { next_active = true }, none)

-- The start of `Next`; an error ends the call.
unfoldable pub begin_next : Context → InstanceWatch → InstanceWatch × Option OutcomeError
unfolding begin_when
begin_next nil_context w = (w, some (new_invalid_error "next_context"))
begin_next (context e) w = begin_when w.next_active w

-- The deferred function of `Next`.
unfoldable pub end_next : InstanceWatch → InstanceWatch
end_next w = record w { next_active = false }

pub data Poll : Type 0 where
  delivered : InstanceChange → Poll
  failed : OutcomeError → Poll
  waiting : ℕ → Poll

-- The first argument is the test that the deletion of the target was just taken.
pub take_first : Bool → List InstanceChange → InstanceWatch → InstanceWatch
unfolding notify_locked
take_first true rest w =
    notify_locked
      (record w { queue = rest; target_deleted_pending = false; terminal = some err_closed })
take_first false rest w = record w { queue = rest }

pub wait_or_fail : Option OutcomeError → InstanceWatch → InstanceWatch × Poll
wait_or_fail (some e) w = (w, failed e)
wait_or_fail none w = (w, waiting w.signal)

pub take_next : List InstanceChange → InstanceWatch → InstanceWatch × Poll
unfolding take_first wait_or_fail
take_next (change ∷ rest) w = (
  take_first (is_target_deleted change && w.target_deleted_pending && is_empty rest) rest w,
  delivered change,
)
take_next [] w = wait_or_fail w.terminal w

-- One round of the loop of `Next`, with the state of the context.
unfoldable pub poll : Option ContextError → InstanceWatch → InstanceWatch × Poll
unfolding take_next
poll (some e) w = (w, failed (new_canceled_error (some e)))
poll none w = take_next w.queue w
