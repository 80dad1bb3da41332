-- ===== src/Task/Tracker.antt =====
-- src/lib/task/task.c, `TidTracker`: the ids that are free, in a circular buffer of `MAX_TASK`
-- entries. `none` is a KASSERT that fails.
pub mod Alloc
mod Tests
use cs.Base.{
  ℕ, zero, suc, ◌+◌, ◌^◌, ◌||◌, Option, none, some, if◌then◌else◌, ◌==◌, add32, neg32, is_negative,
}
use cs.Ring
use cs.Ring.{Ring, Code, ok}
use cs.Task.{Tid, max_task}

abbrev pub Tracker : Type 0
Tracker = Ring Tid

-- `r = tid_cb_push(...)` with `KASSERT(r == 0)`.
abbrev pub pushed : Code × Tracker → Option Tracker
pushed (ok, cb) = some cb
pushed (c, cb) = none

-- The loop of `tt_init`, with `n` rounds to go.
unfoldable pub tt_init_loop : ℕ → ℕ → Tracker → Option Tracker
tt_init_loop zero i trk = some trk
tt_init_loop (suc n) i trk = elim (pushed (Ring.push max_task trk i)) [
  | none ↦ none
  | some trk' ↦ tt_init_loop n (i + 1) trk'
]

unfoldable pub tt_init : Tracker → Option Tracker
unfolding tt_init_loop
tt_init trk = tt_init_loop max_task 0 (Ring.init trk)

abbrev pub tt_size : Tracker → ℕ
tt_size trk = trk.size

-- `r = tid_cb_pop(...)` with `KASSERT(r == 0)`.
abbrev pub popped : Code × Option Tid × Tracker → Option (Tid × Tracker)
popped (ok, some tid, cb) = some (tid, cb)
popped (c, tid, cb) = none

-- -2 when no id is free.
unfoldable pub tt_get : Tracker → Option (Tid × Tracker)
tt_get trk =
    if tt_size trk == 0 || is_negative (tt_size trk)
    then some (neg32 2, trk)
    else popped (Ring.pop max_task trk)

-- The id comes back with the next version.
unfoldable pub tt_return : Tid → Tracker → Option Tracker
tt_return tid trk = pushed (Ring.push max_task trk (add32 tid (2 ^ 16)))
