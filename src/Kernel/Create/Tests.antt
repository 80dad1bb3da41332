-- ===== src/Kernel/Create/Tests.antt =====
-- A task with the id 5, which has been returned 32767 times, gives it back while all other ids are in use.
use cs.Base.{ℕ, ◌≡◌, refl, arith, none, some, [], replicate}
use cs.Ring.{Ring}
use cs.Ring.Refine.{Holds}
use cs.Task.{Tid, ready, swi}
use cs.Task.Tracker.{tt_get, tt_return, tt_size}
use cs.ReadyQueue.{pq_init}
use cs.Kernel.{Kernel}
use cs.Kernel.Create.{create}
use cs.Kernel.Create.Version.{return_then_create}

abbrev storage : Ring ℕ
storage = record { buf = replicate 128 0; start = 0; stop = 0; size = 0 }

abbrev kernel : Kernel
kernel = record {
  tasks = λ i. record {
    tid = i;
    sp = 4000;
    stack_base = 0;
    psr = 16;
    code = 0;
    status = ready;
    it = swi;
    parent = none;
    next = none;
    priority = 4;
    send_q = storage;
    ret = 7;
    start_time = 0;
    running_time = 0;
    end_time = 0;
  };
  running_task = some 2;
  tid_tracker = storage;
  pq_tasks = pq_init;
  im_tasks = record { waiting = λ e. storage; stored_flag = λ i. 0 };
  nameserver_tid = 0;
  mem = λ a. 0;
  io = λ a. 9;
}

none_free : Holds 128 storage []
none_free = record { valid = ground arith; count = refl; entry = λ i h. elim h [ ] }

return_then_create_example :
    (trk' trk'' : Ring Tid) × (tt_return 2147418117 storage ≡ some trk')
    × (tt_size trk' ≡ 1)
    × (tt_get trk' ≡ some (2147483653, trk''))
    × (create (record kernel { tid_tracker = trk' }) 2 ≡ none)
return_then_create_example =
    return_then_create kernel 2 2147418117 none_free (omega arith) (omega arith)
