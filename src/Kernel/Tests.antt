-- ===== src/Kernel/Tests.antt =====
-- A kernel with three tasks: task 1 sends three bytes to task 2, and task 3 waits for the clock.
use cs.Base.{
  ℕ, inl, ◌+◌, ◌<◌, ◌≡◌, ◌≢◌, refl, arith, some, none, [], ◌∷◌, replicate, if◌then◌else◌, ◌==◌,
  ne→==,
}
use cs.Ring
use cs.Ring.{Ring, ok}
use cs.Ring.Refine.{Holds}
use cs.Task.{Tasks, ready, rpl_bl, rcv_bl, snd_bl, swi}
use cs.Task.Tracker.{Tracker, tt_get}
use cs.TaskQueue.{set_next}
use cs.ReadyQueue.{PriorityQueue, pq_init}
use cs.ReadyQueue.Levels.{Levels, with_level, total, total_of_nil, IsReady}
use cs.ReadyQueue.Push.{pq_init-IsReady}
use cs.ReadyQueue.Pop.{IsNext}
use cs.InterruptMatrix.{Event, Matrix, number, tc3ui, im_push}
use cs.InterruptMatrix.Waiting.{im_push-Holds}
use cs.Kernel.{Kernel, arg, make_ready}
use cs.Kernel.Bytes.{Memory, load, store}
use cs.Kernel.Frame.{CanQueue, queued, make_ready_lem}
use cs.Kernel.Msg.{send_handler, receive_handler, reply_handler}
use cs.Kernel.Msg.Bytes.{Buffers}
use cs.Kernel.Msg.Deliver.{CanDeliver}
use cs.Kernel.Msg.Rendezvous.{Meets, Exchanged, receive_then_send, send_then_receive}
use cs.Kernel.Msg.Reply.{CanReply, Replied, reply_lem}
use cs.Kernel.Create.{create}
use cs.Kernel.Create.Fresh.{CanCreate, Created, create_lem}
use cs.Kernel.Interrupt.{wakeall}
use cs.Kernel.Interrupt.Wake.{CanWake, Woken, all_queued, wakeall_lem}
use cs.Kernel.Handle.{schedule, round, Return, ran, pass}
use cs.Kernel.Round.{round_of_pass}
use cs.Kernel.Schedule.{schedule-IsReady}

abbrev storage : Ring ℕ
storage = record { buf = replicate 128 0; start = 0; stop = 0; size = 0 }

storage-Holds : Holds 128 storage []
storage-Holds = record { valid = ground arith; count = refl; entry = λ i h. elim h [ ] }

-- The stacks of the tasks 1 and 2 end at 33308672 and 33062912.
abbrev frame_1 : ℕ
frame_1 = 33308000

abbrev frame_2 : ℕ
frame_2 = 33062000

abbrev tasks : Tasks
tasks i = record {
  tid = i;
  sp = if i == 1 then frame_1 else frame_2;
  stack_base = 0;
  psr = 16;
  code = 0;
  status = ready;
  it = swi;
  parent = none;
  next = none;
  priority = 4;
  send_q = storage;
  ret = 7;
  start_time = 0;
  running_time = 0;
  end_time = 0;
}

-- `Send(2, frame_1 + 100, 3, frame_1 + 200, ...)` and `Receive(frame_2 + 100, frame_2 + 200, 3)`; the
-- bytes of the message are 5.
abbrev memory : Memory
memory =
    store
      (store
        (store
          (store (store (store (λ a. 5) (frame_1 + 4) 2) (frame_1 + 8) (frame_1 + 100))
            (frame_1 + 12) 3)
          (frame_1 + 16) (frame_1 + 200))
        (frame_2 + 4) (frame_2 + 100))
      (frame_2 + 8) (frame_2 + 200)

abbrev vacant : Levels
vacant p = []

abbrev kernel : Kernel
kernel = record {
  tasks = tasks;
  running_task = some 2;
  tid_tracker = storage;
  pq_tasks = pq_init;
  im_tasks = record { waiting = λ e. storage; stored_flag = λ i. 0 };
  nameserver_tid = 0;
  mem = memory;
  io = λ a. 9;
}

total-vacant : total vacant 32 ≡ 0
total-vacant = total_of_nil vacant 32 (λ p l. refl)

can_queue : (i : ℕ) → CanQueue kernel vacant i
can_queue i = record {
  order = pq_init-IsReady tasks;
  level_ok = omega arith;
  absent = λ r l. refl;
  room = omega (arith, total-vacant);
}

deliverable : CanDeliver kernel 1 2
unfolding load store
deliverable = record {
  smsg_set = refl;
  smsg_valid = refl;
  length_valid = refl;
  rtid_valid = refl;
  rmsg_valid = refl;
  rmsg_set = refl;
}

meeting : Meets kernel vacant 1 2
unfolding load store
meeting = record {
  target = refl;
  in_range = omega arith;
  sender_in_range = omega arith;
  named = refl;
  apart = omega arith;
  receiver_alive = refl;
  receiver_runs = refl;
  sender_alive = refl;
  nobody = storage-Holds;
  checks = deliverable;
  can = can_queue 2;
}

buffers : Buffers kernel 1 2
unfolding load store
buffers = record {
  message = record {
    first_fits = omega arith;
    second_fits = omega arith;
    disjoint = inl (omega arith);
  };
  sender = record {
    first_fits = omega arith;
    second_fits = omega arith;
    disjoint = inl (omega arith);
  };
  tid_fits = omega arith;
}

receive_then_send_example :
    (k1 k2 : Kernel) × (receive_handler kernel 2 ≡ some k1)
    × ((k1.tasks 2).status ≡ snd_bl)
    × (send_handler k1 1 ≡ some k2)
    × Exchanged kernel k2 vacant 1 2
    × (load k2.mem (arg kernel 2 4) ≡ (kernel.tasks 1).tid)
    × ((j : ℕ) → j < arg kernel 1 12 → k2.mem (arg kernel 2 8 + j) ≡ memory (arg kernel 1 8 + j))
receive_then_send_example = receive_then_send kernel vacant 1 2 meeting buffers

send_then_receive_example :
    (k1 k2 : Kernel) × (send_handler kernel 1 ≡ some k1)
    × ((k1.tasks 1).status ≡ rcv_bl)
    × (receive_handler k1 2 ≡ some k2)
    × Exchanged kernel k2 vacant 1 2
send_then_receive_example = send_then_receive kernel vacant 1 2 meeting

-- Task 2 answers task 1, which has sent to it, with two bytes.
abbrev answering : Kernel
answering = record kernel {
  tasks = λ i. if i == 1 then record (tasks 1) { status = rpl_bl } else tasks i;
  mem = store (store (store memory (frame_2 + 4) 1) (frame_2 + 8) (frame_2 + 300)) (frame_2 + 12) 2;
}

CanQueue-answering : (i : ℕ) → (answering.tasks i).priority < 32 → CanQueue answering vacant i
CanQueue-answering i l = record {
  order = pq_init-IsReady answering.tasks;
  level_ok = l;
  absent = λ r k. refl;
  room = omega (arith, total-vacant);
}

can_reply : CanReply answering vacant 2 1
unfolding load store
can_reply = record {
  target = refl;
  in_range = omega arith;
  apart = omega arith;
  runs = refl;
  waits = refl;
  reply_valid = refl;
  length_valid = refl;
  target_valid = refl;
  can_sender = CanQueue-answering 1 (omega arith);
  can_receiver = CanQueue-answering 2 (omega arith);
  room = omega (arith, total-vacant);
}

reply_lem_example :
    (k : Kernel) × (reply_handler answering 2 ≡ some k) × Replied answering k vacant 2 1
reply_lem_example = reply_lem answering vacant 2 1 can_reply

abbrev one_level : Levels
one_level = queued kernel vacant 2

-- Task 2 is ready.
abbrev one_ready :
    (pq : PriorityQueue) × (make_ready kernel 2
      ≡ some (record kernel { tasks = tasks; pq_tasks = pq }))
    × IsReady tasks pq one_level
one_ready = make_ready_lem kernel vacant 2 (can_queue 2)

abbrev running : Kernel
running = record kernel { pq_tasks = one_ready.0 }

one-IsNext : IsNext one_level 4 2 []
one-IsNext = record {
  inside = omega arith;
  here = refl;
  above = λ r m l. rw (ne→== 4 r (omega arith)) refl;
}

schedule-IsReady_example :
    (pq : PriorityQueue) × (schedule running
      ≡ some (
        some 2,
        record running { tasks = set_next tasks 2 none; pq_tasks = pq; running_task = some 2 },
      ))
    × IsReady (set_next tasks 2 none) pq (with_level one_level 4 [])
schedule-IsReady_example = schedule-IsReady running one_level 4 2 [] one_ready.2 one-IsNext

-- Task 3 waits for the tick.
abbrev one_waits :
    (im : Matrix) × (im_push kernel.im_tasks 3 (number tc3ui) ≡ some (ok, im))
    × Holds 128 (im.waiting tc3ui) (3 ∷ [])
    × ((f : Event) → tc3ui ≢ f → im.waiting f ≡ kernel.im_tasks.waiting f)
one_waits = im_push-Holds kernel.im_tasks tc3ui [] 3 storage-Holds (omega arith)

abbrev waiting : Kernel
waiting = record kernel { im_tasks = one_waits.0 }

can_wake : CanWake waiting vacant (3 ∷ [])
can_wake = record {
  distinct = (refl, tt);
  levels_ok = λ x m. omega arith;
  absent = λ x r m l. refl;
  room = omega (arith, total-vacant);
}

wakeall_lem_example :
    (k : Kernel) × (wakeall waiting (number tc3ui) ≡ some k)
    × Woken waiting k vacant tc3ui 9 (3 ∷ [])
    × IsReady k.tasks k.pq_tasks (all_queued waiting vacant (3 ∷ []))
wakeall_lem_example =
    wakeall_lem waiting vacant tc3ui (3 ∷ []) (pq_init-IsReady tasks) can_wake one_waits.2

-- Task 1 makes a task of priority 2; the ids 5 and 6 are free.
abbrev ids : Tracker
ids = record { buf = 5 ∷ 6 ∷ replicate 126 0; start = 0; stop = 2; size = 2 }

abbrev making : Kernel
making = record kernel { tid_tracker = ids }

can_create : CanCreate making vacant 1 5 (record ids { start = 1; size = 1 })
unfolding load store tt_get Ring.pop
can_create = record {
  fresh = refl;
  positive = refl;
  apart = omega arith;
  level_ok = omega arith;
  order = pq_init-IsReady tasks;
  absent = λ r l. refl;
  room = omega (arith, total-vacant);
}

create_lem_example :
    (k : Kernel) × (create making 1 ≡ some k)
    × Created making k vacant 1 5 (record ids { start = 1; size = 1 })
create_lem_example = create_lem making vacant 1 5 (record ids { start = 1; size = 1 }) can_create

abbrev passing : Kernel → ℕ → Return
passing k i = record {
  request = pass;
  sp = frame_2;
  psr = 16;
  it = swi;
  mem = k.mem;
  io = k.io;
  started = 900;
  ended = 700;
}

round_of_pass_example :
    (k : Kernel) × (round running passing ≡ some (ran 2 k))
    × IsReady k.tasks k.pq_tasks (with_level (with_level one_level 4 []) 4 (2 ∷ []))
round_of_pass_example =
    round_of_pass running one_level 4 2 [] passing one_ready.2 one-IsNext refl (λ k. refl)
