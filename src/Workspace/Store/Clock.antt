-- ===== src/Workspace/Store/Clock.antt =====
-- postgres/store.go of the workspace: the clock of an installation's lifecycle.
use ne_kiro.Prelude.{Time, ◌%◌, ◌≤◌, ◌<◌, ◌≡◌, ◌↔◌, arith}
use ne_kiro.Workspace.Store.{truncate_micros, next_lifecycle_time}

-- For any previous and candidate times, `nextLifecycleTime` is a whole microsecond, and a time
-- `other` that is a whole microsecond is not before it exactly when `other` is after the previous
-- time and not before the candidate cut to microseconds.
pub next_lifecycle_time_first :
    (previous candidate other : Time)
    → other % 1000 ≡ 0
    → (next_lifecycle_time previous candidate % 1000 ≡ 0)
      × ((next_lifecycle_time previous candidate ≤ other)
          ↔ ((previous < other) × (truncate_micros candidate ≤ other)))
unfolding next_lifecycle_time truncate_micros
next_lifecycle_time_first previous candidate other h =
    (ground arith, ((λ le. (ground arith, ground arith)), (λ p. ground (arith, p.0, p.1))))

-- Storing times as whole microseconds leaves it later than the previous time.
pub next_lifecycle_time_later :
    (previous candidate : Time) → previous < next_lifecycle_time previous candidate
unfolding next_lifecycle_time truncate_micros
next_lifecycle_time_later previous candidate = ground arith
