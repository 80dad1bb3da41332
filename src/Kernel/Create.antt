-- ===== src/Kernel/Create.antt =====
-- src/kernel/kernel_task.c and src/kernel/handlers/create.c: new tasks.
pub mod Fresh
pub mod Version
mod Tests
use cs.Base.{
  ℕ, zero, suc, ◌+◌, ◌-◌, ◌*◌, ◌/◌, ◌%◌, Bool, true, false, not, ◌&&◌, Option, none, some,
  if◌then◌else◌, ltb, ◌==◌, add32, sub32, is_negative,
}
use cs.Ring
use cs.Task.{Task, Tasks, Tid, Status, ready, swi, tid_id, update, max_task}
use cs.Task.Tracker.{tt_get}
use cs.ReadyQueue.{pq_push}
use cs.Kernel.Bytes.{Memory, store, poke}
use cs.Kernel.{Kernel, ◌>>=◌, ◌>>◌, kassert, arg, set_ret, user_stack_base, user_stack_size}

-- `TM_CLOCK_VAL`, the value register of timer 3.
abbrev pub tm_clock_val : ℕ
tm_clock_val = 0x80810084

abbrev user_mode : ℕ
user_mode = 16

-- The top of the stack of a task.
abbrev pub stack_top : Tid → ℕ
stack_top tid = sub32 user_stack_base (tid_id tid * user_stack_size)

-- The descriptor, from `td->tid = tid` on; `ret` is set before or after. `sp` is that after
-- `td->sp -= 60`.
abbrev pub new_task : Task → ℕ → ℕ → Tid → ℕ → ℕ → Status → Option ℕ → ℕ → Task
new_task td sp ret tid code priority status parent now = record td {
  sp = sp;
  ret = ret;
  tid = tid;
  psr = user_mode;
  code = code;
  status = status;
  it = swi;
  parent = parent;
  priority = priority;
  next = none;
  send_q = Ring.init td.send_q;
  start_time = now;
  running_time = 0;
}

-- The descriptor is `&tasks[i]`. `stmfd sp, {r8}` stores the code's address just below `sp`.
unfoldable pub ktd_create : Kernel → ℕ → Tid → ℕ → ℕ → Status → Option ℕ → Kernel
ktd_create k i tid code priority status parent =
    let sp = stack_top tid in
    let td =
      new_task (k.tasks i) (sub32 sp 60) 0 tid code priority status parent (k.io tm_clock_val) in
    record k { mem = store k.mem (sub32 sp 4) code; tasks = update k.tasks i td }

-- `for (argsize = argsize-1; argsize >= 0; --argsize)`, with `n` bytes left.
unfoldable pub copy_down : ℕ → Memory → ℕ → ℕ → Memory
copy_down zero m dst src = m
copy_down (suc n) m dst src = copy_down n (poke m (add32 dst n) (m (add32 src n))) dst src

-- The room for the arguments, in whole words.
abbrev pub args_room : ℕ → ℕ
args_room argsize = if argsize % 4 == 0 then argsize else 4 * (argsize / 4 + 1)

-- `argsize > 0`, of an `int`.
unfoldable pub ktd_create_args : Kernel → ℕ → Tid → ℕ → ℕ → Status → Option ℕ → ℕ → ℕ → Kernel
unfolding copy_down
ktd_create_args k i tid code priority status parent args argsize =
    let top = stack_top tid in
    let some_args = not (argsize == 0) && not (is_negative argsize) in
    let base = sub32 top (args_room argsize) in
    let mem = if some_args then copy_down argsize k.mem base args else k.mem in
    let ret = if some_args then base else 0 in
    let sp = if some_args then sub32 base 4 else top in
    let td =
      new_task (k.tasks i) (sub32 sp 60) ret tid code priority status parent (k.io tm_clock_val) in
    record k { mem = store mem (sub32 sp 4) code; tasks = update k.tasks i td }

abbrev pub is_valid_priority : ℕ → Bool
is_valid_priority p = ltb p 32

-- With no tid left `td->ret` is -2, and the KASSERT that follows aborts.
unfoldable pub create : Kernel → ℕ → Option Kernel
create k i = do
  (tid, tracker) ← tt_get k.tid_tracker
  let priority = arg k i 4
  let code = arg k i 8
  kassert (is_valid_priority priority)
  kassert (not (is_negative tid))
  let k1 =
      ktd_create (record k { tid_tracker = tracker }) (tid_id tid) tid code priority ready (some i)
  (c, ts, pq) ← pq_push k1.tasks k1.pq_tasks priority (tid_id tid)
  some (set_ret (record k1 { tasks = ts; pq_tasks = pq }) i tid)

unfoldable pub create_w_args : Kernel → ℕ → Option Kernel
create_w_args k i = do
  (tid, tracker) ← tt_get k.tid_tracker
  let priority = arg k i 4
  let code = arg k i 8
  let args = arg k i 12
  let argsize = arg k i 16
  kassert (is_valid_priority priority)
  kassert (not (is_negative tid))
  let k1 =
      ktd_create_args (record k { tid_tracker = tracker }) (tid_id tid) tid code priority ready
        (some i) args argsize
  (c, ts, pq) ← pq_push k1.tasks k1.pq_tasks priority (tid_id tid)
  some (set_ret (record k1 { tasks = ts; pq_tasks = pq }) i tid)
