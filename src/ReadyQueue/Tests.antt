-- ===== src/ReadyQueue/Tests.antt =====
-- The ready queue with task 7 at priority 4, and then task 2 at priority 9.
use cs.Base.{suc, ◌<◌, ◌^◌, ◌≡◌, refl, arith, some, none, [], ◌∷◌, ne→==}
use cs.Task.{Tasks, ready, swi}
use cs.TaskQueue.{ok, set_next}
use cs.ReadyQueue.{PriorityQueue, pq_init, pq_push, pq_pop, pq_dumb_pop}
use cs.ReadyQueue.Levels.{Levels, with_level, total, total_of_nil, IsReady}
use cs.ReadyQueue.Push.{pq_init-IsReady, pq_push-IsReady, pq_push_overrun}
use cs.ReadyQueue.Pop.{IsNext, pq_pop-IsReady}
use cs.ReadyQueue.DumbPop.{view, pq_pop-eq-pq_dumb_pop}

abbrev tasks : Tasks
tasks i = record {
  tid = i;
  sp = 0;
  stack_base = 0;
  psr = 16;
  code = 0;
  status = ready;
  it = swi;
  parent = none;
  next = none;
  priority = 4;
  send_q = record { buf = []; start = 0; stop = 0; size = 0 };
  ret = 0;
  start_time = 0;
  running_time = 0;
  end_time = 0;
}

abbrev vacant : Levels
vacant p = []

abbrev one_level : Levels
one_level = with_level vacant 4 (7 ∷ [])

total-vacant : suc (total vacant 32) < 2 ^ 30
total-vacant = omega (arith, total_of_nil vacant 32 (λ p l. refl))

pq_push-IsReady_example :
    (pq : PriorityQueue) × (pq_push tasks pq_init 4 7 ≡ some (ok, tasks, pq))
    × IsReady tasks pq one_level
pq_push-IsReady_example =
    pq_push-IsReady tasks pq_init vacant 4 7 (pq_init-IsReady tasks) (omega arith) (λ r l. refl)
      total-vacant

abbrev one_ready :
    (pq : PriorityQueue) × (pq_push tasks pq_init 4 7 ≡ some (ok, tasks, pq))
    × IsReady tasks pq one_level
one_ready =
    pq_push-IsReady tasks pq_init vacant 4 7 (pq_init-IsReady tasks) (omega arith) (λ r l. refl)
      total-vacant

one-IsNext : IsNext one_level 4 7 []
one-IsNext = record {
  inside = omega arith;
  here = refl;
  above = λ r m l. rw (ne→== 4 r (omega arith)) refl;
}

pq_pop-IsReady_example :
    (pq : PriorityQueue) × (pq_pop tasks one_ready.0 ≡ some (ok, some 7, set_next tasks 7 none, pq))
    × IsReady (set_next tasks 7 none) pq (with_level one_level 4 [])
pq_pop-IsReady_example = pq_pop-IsReady tasks one_ready.0 one_level 4 7 [] one_ready.2 one-IsNext

pq_pop-eq-pq_dumb_pop_example :
    view (pq_pop tasks one_ready.0) ≡ view (pq_dumb_pop tasks one_ready.0)
pq_pop-eq-pq_dumb_pop_example = pq_pop-eq-pq_dumb_pop tasks one_ready.0 one_level one_ready.2

pq_push_overrun_example : pq_push tasks one_ready.0 32 9 ≡ none
pq_push_overrun_example = pq_push_overrun tasks one_ready.0 one_level 9 one_ready.2
