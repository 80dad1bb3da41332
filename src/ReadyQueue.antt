-- ===== src/ReadyQueue.antt =====
-- src/lib/task/priority_queue.c: the kernel's queue of the tasks that are ready to run, a task queue
-- for each priority and a word with a bit for each. `none` is an access outside the array of queues,
-- a use of NULL, or `__builtin_clz` of 0, which is undefined.
pub mod Levels
pub mod Push
pub mod Pop
pub mod DumbPop
mod Tests
use cs.Base.{
  ℕ, zero, suc, ◌+◌, ◌-◌, ◌^◌, Bool, true, false, ◌||◌, not, Option, none, some, List,
  if◌then◌else◌, ltb, ◌==◌, add32, sub32, is_negative, get_elem?, set, replicate, bit_or, bit_xor,
}
use cs.Base.Bits.{test_bit}
use cs.Task.{Tasks}
use cs.TaskQueue.{
  TaskQueue, Code, ok, empty, not_found, bad_priority, tq_init, tq_push, tq_pop, lt_one,
}

abbrev pub max_priority : ℕ
max_priority = 32

pub record PriorityQueue : Type 0 where
  pub pqs : List TaskQueue
  pub size : ℕ
  pub state : ℕ

abbrev pub pq_init : PriorityQueue
pq_init = record { pqs = replicate max_priority tq_init; size = 0; state = 0 }

-- The zeros above the highest bit of the `k` low bits of a word.
unfoldable pub clz : ℕ → ℕ → ℕ
clz zero x = 0
clz (suc k) x = if test_bit x k then 0 else suc (clz k x)

-- The guard lets `MAX_PRIORITY` itself through, as the source does. A negative `int` has a pattern
-- above `MAX_PRIORITY`.
unfoldable pub pq_push : Tasks → PriorityQueue → ℕ → ℕ → Option (Code × Tasks × PriorityQueue)
pq_push ts pq priority td =
    if ltb max_priority priority || is_negative priority
    then some (bad_priority, ts, pq)
    else elim (get_elem? pq.pqs priority) [
      | none ↦ none
      | some tq ↦ elim (tq_push ts tq td) [
        | none ↦ none
        | some (ts', tq') ↦ some (
          ok,
          ts',
          record {
            pqs = set pq.pqs priority tq';
            size = add32 pq.size 1;
            state = bit_or pq.state (2 ^ priority);
          },
        )
      ]
    ]

abbrev pub Popped : Type 0
Popped = Option (Code × Option ℕ × Tasks × PriorityQueue)

-- The loop of `pq_dumb_pop`, with `n` queues left to look at: the highest is `n - 1`.
unfoldable pub dumb_pop_loop : Tasks → PriorityQueue → ℕ → Popped
dumb_pop_loop ts pq zero = some (not_found, none, ts, pq)
dumb_pop_loop ts pq (suc i) = elim (get_elem? pq.pqs i) [
  | none ↦ none
  | some tq ↦ elim (lt_one tq.size) [
    | true ↦ dumb_pop_loop ts pq i
    | false ↦ elim (tq_pop ts tq) [
      | none ↦ none
      | some (c, t, ts', tq') ↦
          some (ok, t, ts', record pq { pqs = set pq.pqs i tq'; size = sub32 pq.size 1 })
    ]
  ]
]

unfoldable pub pq_dumb_pop : Tasks → PriorityQueue → Popped
unfolding dumb_pop_loop
pq_dumb_pop ts pq =
    if lt_one pq.size then some (empty, none, ts, pq) else dumb_pop_loop ts pq max_priority

-- The rest of `pq_pop`, from the `tq_pop` of the queue `p` on.
abbrev pub finish_pop : PriorityQueue → ℕ → Option (Code × Option ℕ × Tasks × TaskQueue) → Popped
finish_pop pq p none = none
finish_pop pq p (some (ok, t, ts', tq')) = some (
  ok,
  t,
  ts',
  record {
    pqs = set pq.pqs p tq';
    size = sub32 pq.size 1;
    state = if tq'.size == 0 then bit_xor pq.state (2 ^ p) else pq.state;
  },
)
finish_pop pq p (some (c, t, ts', tq')) = some (c, t, ts', record pq { pqs = set pq.pqs p tq' })

unfoldable pub pq_pop : Tasks → PriorityQueue → Popped
pq_pop ts pq =
    if lt_one pq.size
    then some (empty, none, ts, pq)
    else if pq.state == 0
    then none
    else let p = 31 - clz 32 pq.state in
      elim (get_elem? pq.pqs p) [ none ↦ none | some tq ↦ finish_pop pq p (tq_pop ts tq) ]
