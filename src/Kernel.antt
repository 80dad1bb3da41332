-- ===== src/Kernel.antt =====
-- include/kernel/kernel.h: the kernel's state, and what its handlers share. `none` is a KASSERT that
-- fails, in the DEBUG build, or a fault of a data structure; the kernel then aborts.
pub mod Bytes
pub mod Frame
pub mod Queueing
pub mod Msg
pub mod Create
pub mod Interrupt
pub mod Handle
pub mod Schedule
pub mod Round
mod Tests
mod EventTests
use cs.Base.{
  ℕ, ◌+◌, ◌-◌, ◌*◌, Bool, true, false, ◌&&◌, Option, none, some, if◌then◌else◌, ltb, leb, ◌==◌,
  add32, sub32,
}
pub use cs.Base.{◌>>=◌, ◌>>◌}
use cs.Task.{Task, Tasks, Tid, Status, tid_id, update, max_task}
use cs.Task.Tracker.{Tracker}
use cs.TaskQueue.{Code}
use cs.ReadyQueue.{PriorityQueue, pq_push}
use cs.InterruptMatrix.{Matrix}
use Bytes.{Memory, load}

pub record Kernel : Type 0 where
  pub tasks : Tasks
  pub running_task : Option ℕ
  pub tid_tracker : Tracker
  pub pq_tasks : PriorityQueue
  pub im_tasks : Matrix
  pub nameserver_tid : Tid
  pub mem : Memory
  -- The device registers, words by address. During a handler they change by its own writes only.
  pub io : ℕ → ℕ

-- `KASSERT`
abbrev pub kassert : Bool → Option (Unit {0})
kassert true = some tt
kassert false = none

abbrev pub user_stack_base : ℕ
user_stack_base = 0x02000000

abbrev pub user_stack_size : ℕ
user_stack_size = 0x3c000

-- `IS_VALID_USER_P`: the address lies in the stack of the task. The bounds are `uint32_t`.
abbrev pub is_valid_user_p : Tid → ℕ → Bool
is_valid_user_p tid p =
    leb (sub32 user_stack_base ((tid_id tid + 1) * user_stack_size)) p
    && leb p (sub32 user_stack_base (tid_id tid * user_stack_size))

-- An argument of a system call: a word of the frame that the task's `sp` points to.
abbrev pub arg : Kernel → ℕ → ℕ → ℕ
arg k i offset = load k.mem (add32 (k.tasks i).sp offset)

abbrev pub set_status : Kernel → ℕ → Status → Kernel
set_status k i s = record k { tasks = update k.tasks i (record (k.tasks i) { status = s }) }

abbrev pub set_ret : Kernel → ℕ → ℕ → Kernel
set_ret k i r = record k { tasks = update k.tasks i (record (k.tasks i) { ret = r }) }

-- `pq_push(&pq_tasks, td->priority, td)`; no caller looks at the code.
unfoldable pub make_ready : Kernel → ℕ → Option Kernel
make_ready k i = do
  (c, ts, pq) ← pq_push k.tasks k.pq_tasks (k.tasks i).priority i
  some (record k { tasks = ts; pq_tasks = pq })
