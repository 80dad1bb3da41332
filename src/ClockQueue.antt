-- ===== src/ClockQueue.antt =====
-- src/lib/clockserver_queue.c and include/lib/clockserver_queue.h: the tasks that wait for a tick, as a
-- linked list in the array `nodes`, one node for each task index. A pointer to a node is its index,
-- NULL is `none`. An outer `none` is an access outside the array, a use of NULL, or a list that does
-- not end.
pub mod Order
pub mod Refine
pub mod Add
pub mod Pop
use cs.Base.{ℕ, zero, suc, ◌+◌, Option, none, some, if◌then◌else◌, ltb, leb, ◌==◌, add32, sub32}
use cs.Task.{Tid, tid_id, max_task}

-- `CSQ_NONE` is `ok`; the others are `CSQ_E_FULL`, `CSQ_E_EMPTY`, `CSQ_E_READY` and `CSQ_E_TID`.
pub data Code : Type 0 where
  ok full empty not_ready bad_tid : Code

pub record Node : Type 0 where
  pub tid : Tid
  pub ticks : ℕ
  pub next : Option ℕ

abbrev pub Nodes : Type 0
Nodes = ℕ → Node

pub record ClockQueue : Type 0 where
  pub size : ℕ
  pub nodes : Nodes
  pub head : Option ℕ

abbrev pub csq_max_size : ℕ
csq_max_size = max_task

abbrev pub csq_node_init : Tid → Node
csq_node_init tid = record { tid = tid; ticks = 0; next = none }

unfoldable pub csq_init : ClockQueue → ClockQueue
csq_init csq = record {
  size = 0;
  nodes = λ i. if ltb i csq_max_size then csq_node_init i else csq.nodes i;
  head = none;
}

abbrev pub with_node : Nodes → ℕ → Node → Nodes
with_node ns i n j = if i == j then n else ns j

abbrev pub link : Nodes → ℕ → Option ℕ → Nodes
link ns i next = with_node ns i (record (ns i) { next = next })

-- The loop of `csq_add`, from `prv` and `cur` on: their values when it is left. Both ways out of it make
-- `cur` the node after the new one. The fuel is more than the nodes in the list.
unfoldable pub find_place : ℕ → Nodes → ℕ → Option ℕ → Option ℕ → Option (Option ℕ × Option ℕ)
find_place zero ns ticks prv cur = none
find_place (suc n) ns ticks prv none = some (prv, none)
find_place (suc n) ns ticks prv (some c) =
    let rest = find_place n ns ticks (some c) (ns c).next in
    if ltb ticks (ns c).ticks then some (prv, some c) else rest

-- The two assignments that put the node `i` between `prv` and `cur`.
abbrev pub place : ClockQueue → Nodes → ℕ → Option ℕ → Option ℕ → ClockQueue
place csq ns i none cur = record csq {
  size = add32 csq.size 1;
  nodes = link ns i cur;
  head = some i;
}
place csq ns i (some p) cur = record csq {
  size = add32 csq.size 1;
  nodes = link (link ns p (some i)) i cur;
}

abbrev pub placed :
    ClockQueue → Nodes → ℕ → Option (Option ℕ × Option ℕ) → Option (Code × ClockQueue)
placed csq ns i none = none
placed csq ns i (some (prv, cur)) = some (ok, place csq ns i prv cur)

-- The guard lets the index `MAX_TASK` through, and there is no such node.
unfoldable pub csq_add : ClockQueue → Tid → ℕ → Option (Code × ClockQueue)
csq_add csq tid ticks =
    let i = tid_id tid in
    let ns = with_node csq.nodes i (record (csq.nodes i) { ticks = ticks }) in
    if ltb max_task i
    then some (bad_tid, csq)
    else if csq.size == 127
    then some (full, csq)
    else if leb csq_max_size i
    then none
    else placed csq ns i (find_place (csq.size + 1) ns ticks none csq.head)

-- 1 is returned when the first task is not due before `ticks`, and when it is due at it.
unfoldable pub csq_check : ClockQueue → ℕ → Option ℕ
csq_check csq ticks = elim csq.head [
  | none ↦ none
  | some h ↦ some (if leb ticks (csq.nodes h).ticks then 1 else 0)
]

abbrev pub pop_head : ClockQueue → ℕ → Option ℕ → Code × Option Tid × ClockQueue
pop_head csq ticks none = (empty, none, csq)
pop_head csq ticks (some h) = if ltb ticks (csq.nodes h).ticks then (not_ready, none, csq) else (
  ok,
  some (csq.nodes h).tid,
  record csq { head = (csq.nodes h).next; size = sub32 csq.size 1 },
)

unfoldable pub csq_pop : ClockQueue → ℕ → Code × Option Tid × ClockQueue
csq_pop csq ticks = pop_head csq ticks csq.head

-- The loop of `csq_find`, on fuel.
unfoldable pub find_loop : ℕ → Nodes → ℕ → Option ℕ → Option (Option ℕ)
find_loop zero ns i cur = none
find_loop (suc n) ns i none = some none
find_loop (suc n) ns i (some c) =
    let rest = find_loop n ns i (ns c).next in if (ns c).tid == i then some (some c) else rest

unfoldable pub csq_find : ClockQueue → Tid → Option (Option ℕ)
unfolding find_loop
csq_find csq tid = find_loop (csq.size + 1) csq.nodes (tid_id tid) csq.head
