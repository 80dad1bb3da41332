-- ===== src/Kernel/EventTests.antt =====
-- Tasks that wait for the tick of the clock, and the tick.
use cs.Base.{
  ℕ, ◌≡◌, ◌≢◌, refl, arith, some, none, [], ◌∷◌, replicate, if◌then◌else◌, ◌==◌, true, false,
}
use cs.Ring.{Ring, ok}
use cs.Ring.Refine.{Holds}
use cs.Task.{Tasks, ready, swi}
use cs.ReadyQueue.{pq_init}
use cs.ReadyQueue.Levels.{Levels, total, total_of_nil, IsReady}
use cs.ReadyQueue.Push.{pq_init-IsReady}
use cs.Base.Bits.{test_bit}
use cs.InterruptMatrix.{
  Event, Matrix, number, tc3ui, uart2_tx, uart2_rx, tc1ui, im_push, is_interrupt_stored, event_of,
}
use cs.InterruptMatrix.Waiting.{im_push-Holds}
use cs.Kernel.{Kernel}
use cs.Kernel.Bytes.{store}
use cs.Kernel.Interrupt.{event_wake, is_interrupt_asserted, clear_event}
use cs.Kernel.Interrupt.Wake.{CanWake, Woken, all_queued}
use cs.Kernel.Interrupt.Register.{cleared}
use cs.Kernel.Interrupt.First.{Quiet, Pending, event_wake_lem}

abbrev storage : Ring ℕ
storage = record { buf = replicate 128 0; start = 0; stop = 0; size = 0 }

storage-Holds : Holds 128 storage []
storage-Holds = record { valid = ground arith; count = refl; entry = λ i h. elim h [ ] }

abbrev tasks : Tasks
tasks i = record {
  tid = i;
  sp = 4000;
  stack_base = 0;
  psr = 16;
  code = 0;
  status = ready;
  it = swi;
  parent = none;
  next = none;
  priority = 4;
  send_q = storage;
  ret = 7;
  start_time = 0;
  running_time = 0;
  end_time = 0;
}

-- Every task has called `AwaitEvent(51)`; no line of the interrupt controllers is up.
abbrev kernel : Kernel
kernel = record {
  tasks = tasks;
  running_task = some 2;
  tid_tracker = storage;
  pq_tasks = pq_init;
  im_tasks = record { waiting = λ e. storage; stored_flag = λ i. 0 };
  nameserver_tid = 0;
  mem = store (λ a. 0) 4004 51;
  io = λ a. 9;
}

abbrev vacant : Levels
vacant p = []

total-vacant : total vacant 32 ≡ 0
total-vacant = total_of_nil vacant 32 (λ p l. refl)

-- The tick has come, and is remembered.
abbrev remembered : Matrix → Kernel
remembered im = record kernel {
  im_tasks = record im { stored_flag = λ i. if i == 51 then 1 else 0 };
}

abbrev one_waits :
    (im : Matrix) × (im_push kernel.im_tasks 3 (number tc3ui) ≡ some (ok, im))
    × Holds 128 (im.waiting tc3ui) (3 ∷ [])
    × ((f : Event) → tc3ui ≢ f → im.waiting f ≡ kernel.im_tasks.waiting f)
one_waits = im_push-Holds kernel.im_tasks tc3ui [] 3 storage-Holds (omega arith)

abbrev ticked : Kernel
ticked = remembered one_waits.0

quiet : Quiet ticked (number uart2_tx ∷ number uart2_rx ∷ number tc1ui ∷ [])
unfolding is_interrupt_asserted is_interrupt_stored test_bit event_of
quiet = (refl, refl, (refl, refl, (refl, refl, tt)))

pending : Pending ticked (number tc3ui)
unfolding is_interrupt_asserted is_interrupt_stored test_bit
pending = record {
  asserted = false;
  stored = true;
  asserted_is = refl;
  stored_is = refl;
  either = refl;
}

can_wake : CanWake ticked vacant (3 ∷ [])
can_wake = record {
  distinct = (refl, tt);
  levels_ok = λ x m. omega arith;
  absent = λ x r m l. refl;
  room = omega (arith, total-vacant);
}

event_wake_lem_example :
    (k : Kernel) × (event_wake ticked
      ≡ some (record k { io = clear_event k.io tc3ui; im_tasks = cleared k.im_tasks tc3ui }))
    × Woken ticked k vacant tc3ui 9 (3 ∷ [])
    × IsReady k.tasks k.pq_tasks (all_queued ticked vacant (3 ∷ []))
event_wake_lem_example =
    event_wake_lem ticked vacant (number uart2_tx ∷ number uart2_rx ∷ number tc1ui ∷ []) tc3ui
      (522 ∷ 521 ∷ 523 ∷ 524 ∷ 543 ∷ 544 ∷ []) 3 [] refl quiet pending (pq_init-IsReady tasks)
      can_wake one_waits.2
