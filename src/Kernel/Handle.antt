-- ===== src/Kernel/Handle.antt =====
-- src/kernel/kernel.c and src/kernel/handlers/nameserver.c: the requests, the scheduler and the main
-- loop.
use cs.Base.{ℕ, Bool, Option, none, some, if◌then◌else◌, ltb, ◌==◌, sub32, neg32}
use cs.Task.{
  InterruptType, blocked, zombie, ready, update, td_init, tid_id, is_valid_tid, max_task, tm_delta,
}
use cs.Task.Tracker.{tt_init, tt_get, tt_return}
use cs.TaskQueue.{Code, ok}
use cs.ReadyQueue.{pq_init, pq_push, pq_pop}
use cs.InterruptMatrix.{im_init}
use cs.Kernel.{Kernel, ◌>>=◌, ◌>>◌, kassert, is_valid_user_p, set_status, set_ret, make_ready}
use cs.Kernel.Create.{create, create_w_args, ktd_create}
use cs.Kernel.Interrupt.{event_register, event_wake}
use cs.Kernel.Msg.{send_handler, receive_handler, reply_handler, is_alive}

-- `TaskRequest`, but for the three that report on memory, time and the task list.
pub data Request : Type 0 where
  pass block creates my_tid my_parent_tid exits asserts sends receives replies ns_reg ns_gets irqs :
      Request
  await_event creates_w_args halt info_nproc undefined : Request

unfoldable pub get_tid : Kernel → ℕ → Kernel
get_tid k i = set_ret k i (k.tasks i).tid

unfoldable pub get_parent_tid : Kernel → ℕ → Kernel
get_parent_tid k i =
    set_ret k i (elim (k.tasks i).parent [ none ↦ neg32 1 | some p ↦ (k.tasks p).tid ])

unfoldable pub ns_register : Kernel → ℕ → Option Kernel
ns_register k i = do
  kassert (is_valid_tid (k.tasks i).tid)
  kassert (is_valid_user_p (k.tasks i).tid (k.tasks i).sp)
  some (record k { nameserver_tid = (k.tasks i).tid })

unfoldable pub ns_get : Kernel → ℕ → Option Kernel
ns_get k i = do kassert (is_alive (k.tasks i).status); some (set_ret k i k.nameserver_tid)

-- A request, and what becomes of the kernel: `none` for an abort, KABORT and KEXIT included.
unfoldable pub handle : Kernel → ℕ → Request → Option Kernel
handle k i irqs = event_wake k >>= λ k1. make_ready k1 i
handle k i await_event = event_register k i
handle k i sends = send_handler k i
handle k i receives = receive_handler k i
handle k i replies = reply_handler k i
handle k i pass = make_ready k i
handle k i block = make_ready (set_status k i blocked) i
handle k i creates = create k i >>= λ k1. make_ready k1 i
handle k i creates_w_args = create_w_args k i >>= λ k1. make_ready k1 i
handle k i my_tid = make_ready (get_tid k i) i
handle k i my_parent_tid = make_ready (get_parent_tid k i) i
handle k i ns_reg = ns_register k i >>= λ k1. make_ready k1 i
handle k i ns_gets = ns_get k i >>= λ k1. make_ready k1 i
handle k i exits = tt_return (k.tasks i).tid k.tid_tracker >>= λ trk.
    some (record (set_status k i zombie) { tid_tracker = trk })
handle k i asserts = none
handle k i halt = none
handle k i info_nproc = make_ready (set_ret k i (sub32 max_task k.tid_tracker.size)) i
handle k i undefined = none

-- `KASSERT(ret == 0 && td != NULL)`, and the task becomes the running one.
abbrev pub started : Code → Option ℕ → Kernel → Option (Option ℕ × Kernel)
started ok (some i) k = some (some i, record k { running_task = some i })
started c td k = none

-- The task that runs next. `pq_tasks.size == 0` gives NULL.
unfoldable pub schedule : Kernel → Option (Option ℕ × Kernel)
schedule k = if k.pq_tasks.size == 0 then some (none, k) else do
  (c, td, ts, pq) ← pq_pop k.tasks k.pq_tasks
  started c td (record k { tasks = ts; pq_tasks = pq })

unfoldable pub no_tasks : Kernel → Bool
no_tasks k = k.tid_tracker.size == max_task

-- `initialize`, but for the hardware: every descriptor is reset, and the first task is made. `task` is
-- the address of its code.
unfoldable pub initialize : Kernel → ℕ → Option Kernel
initialize k task = do
  trk ← tt_init k.tid_tracker
  (tid, trk1) ← tt_get trk
  let k1 = record k {
    tasks = λ i. if ltb i max_task then td_init (k.tasks i) else k.tasks i;
    tid_tracker = trk1;
    pq_tasks = pq_init;
    im_tasks = im_init k.im_tasks;
  }
  let k2 = ktd_create k1 (tid_id tid) tid task 0 ready none
  (c, ts, pq) ← pq_push k2.tasks k2.pq_tasks 0 (tid_id tid)
  some (record k2 { tasks = ts; pq_tasks = pq })

-- What a task has done when it comes back to the kernel: its request, its registers, the memory and
-- devices, and the readings of the timer before and after.
pub record Return : Type 0 where
  pub request : Request
  pub sp : ℕ
  pub psr : ℕ
  pub it : InterruptType
  pub mem : ℕ → ℕ
  pub io : ℕ → ℕ
  pub started : ℕ
  pub ended : ℕ

-- `activate` and the readings around it.
abbrev pub activated : Kernel → ℕ → Return → Kernel
activated k i a = record k {
  tasks =
      update k.tasks i
        (tm_delta a.started a.ended (record (k.tasks i) { sp = a.sp; psr = a.psr; it = a.it }));
  mem = a.mem;
  io = a.io;
}

-- One round of the main loop: it ends, finds nothing to run, or runs a task.
pub data Turn : Type 0 where
  finished idle : Turn
  ran : ℕ → Kernel → Turn

unfoldable pub round : Kernel → (Kernel → ℕ → Return) → Option Turn
round k user = do
  (td, k1) ← schedule k
  elim td [
    | none ↦ some (if no_tasks k1 then finished else idle)
    | some i ↦
        let back = user k1 i in do k2 ← handle (activated k1 i back) i back.request; some (ran i k2)
  ]
