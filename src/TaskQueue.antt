-- ===== src/TaskQueue.antt =====
-- src/lib/task/task_queue.c: queues of tasks, linked through the `next` field of the descriptors.
-- A queue is therefore used with the array of tasks. `none` is a read or write through NULL.
pub mod Refine
use cs.Base.{
  ℕ, zero, suc, ◌+◌, ◌-◌, Bool, true, false, ◌||◌, Option, none, some, if◌then◌else◌, ltb, leb,
  ◌==◌, add32, sub32, is_negative,
}
use cs.Task.{Task, Tasks, update}

-- `ETQ_NONE` and `ETQ_EMPTY`, and `PQ_NONE`, `PQ_ENOTFOUND`, `PQ_EMPTY` and `PQ_PRIORITY`, which
-- have the same numbers: 0, 1, 2, 3.
pub data Code : Type 0 where
  ok not_found empty bad_priority : Code

-- `size` is an `int`.
pub record TaskQueue : Type 0 where
  pub head : Option ℕ
  pub tail : Option ℕ
  pub size : ℕ

abbrev pub tq_init : TaskQueue
tq_init = record { head = none; tail = none; size = 0 }

-- `ts[i].next = n`
abbrev pub set_next : Tasks → ℕ → Option ℕ → Tasks
set_next ts i n = update ts i (record (ts i) { next = n })

-- `x < 1` of an `int`.
abbrev pub lt_one : ℕ → Bool
lt_one x = x == 0 || is_negative x

-- The value that `tq_push` returns is 0 always.
unfoldable pub tq_push : Tasks → TaskQueue → ℕ → Option (Tasks × TaskQueue)
tq_push ts tq t =
    if lt_one tq.size
    then some (ts, record { head = some t; tail = some t; size = add32 tq.size 1 })
    else elim tq.tail [
      | none ↦ none
      | some last ↦
          some (set_next ts last (some t), record tq { tail = some t; size = add32 tq.size 1 })
    ]

-- What `tq_pop` does with the queue once the first task has been unlinked.
abbrev pub settle : TaskQueue → TaskQueue
settle tq =
    let tq1 = if tq.size == 0 then record tq { head = none; tail = none } else tq in
    if leb tq1.size 1 || is_negative tq1.size then record tq1 { tail = tq1.head } else tq1

unfoldable pub tq_pop : Tasks → TaskQueue → Option (Code × Option ℕ × Tasks × TaskQueue)
tq_pop ts tq = if lt_one tq.size then some (empty, none, ts, tq) else elim tq.head [
  | none ↦ none
  | some t ↦ some (
    ok,
    some t,
    set_next ts t none,
    settle (record tq { head = (ts t).next; size = sub32 tq.size 1 }),
  )
]
