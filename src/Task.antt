-- ===== src/Task.antt =====
-- include/lib/task/task.h and src/lib/task/task.c: task descriptors and the tracker of task ids.
-- A pointer to a descriptor is an index into `tasks`, NULL is `none`; `int` and `uint32_t` fields
-- are 32-bit patterns.
pub mod Tracker
use cs.Base.{
  ℕ, zero, suc, ◌+◌, ◌%◌, ◌^◌, Bool, Option, none, some, if◌then◌else◌, ltb, ◌==◌, add32, neg32,
  sub32,
}
use cs.Ring
use cs.Ring.{Ring}

-- `tid_t`, an `int32_t`: the task's index in the low 16 bits, a version above.
abbrev pub Tid : Type 0
Tid = ℕ

abbrev pub tid_id : Tid → ℕ
tid_id tid = tid % 2 ^ 16

abbrev pub max_task : ℕ
max_task = 128

-- `IS_VALID_ID` and `IS_VALID_TID`; ids are never negative, since `TID_ID` masks.
abbrev pub is_valid_id : ℕ → Bool
is_valid_id id = ltb id max_task

abbrev pub is_valid_tid : Tid → Bool
is_valid_tid tid = ltb (tid_id tid) max_task

pub data Status : Type 0 where
  active ready blocked uninit zombie rcv_bl snd_bl rpl_bl : Status

pub data InterruptType : Type 0 where
  swi irq : InterruptType

pub record Task : Type 0 where
  pub tid : Tid
  pub sp : ℕ
  pub stack_base : ℕ
  pub psr : ℕ
  pub code : ℕ
  pub status : Status
  pub it : InterruptType
  pub parent : Option ℕ
  pub next : Option ℕ
  pub priority : ℕ
  pub send_q : Ring Tid
  pub ret : ℕ
  pub start_time : ℕ
  pub running_time : ℕ
  pub end_time : ℕ

-- The array `tasks`.
abbrev pub Tasks : Type 0
Tasks = ℕ → Task

abbrev pub update : Tasks → ℕ → Task → Tasks
update ts i t j = if i == j then t else ts j

-- `td_init` leaves the fields that it does not name.
unfoldable pub td_init : Task → Task
td_init td = record td {
  tid = 0;
  sp = 0;
  psr = 0;
  code = 0;
  status = uninit;
  it = swi;
  stack_base = 0;
  parent = none;
  priority = 1;
  send_q = Ring.init td.send_q;
}

abbrev tm_clock_value : ℕ
tm_clock_value = 0xffffffff

-- `tm_delta`: the timer counts down, so the end lies below the start unless it has wrapped. The
-- comparison of the two `int`s is that of the patterns with the sign bit flipped.
abbrev flip_sign : ℕ → ℕ
flip_sign a = add32 a (2 ^ 31)

unfoldable pub tm_delta : ℕ → ℕ → Task → Task
tm_delta st et td =
    let delta =
      if ltb (flip_sign st) (flip_sign et)
      then sub32 (add32 st tm_clock_value) et
      else sub32 st et in
    record td { running_time = add32 td.running_time delta; end_time = et }
