-- ===== src/Kernel/Schedule.antt =====
-- `schedule` against the levels of ready tasks.
use cs.Base.{ℕ, ◌<◌, ◌≡◌, refl, ap, arith, none, some, List, [], ne→==, eq→==, length}
use cs.TaskQueue.{set_next}
use cs.ReadyQueue.{PriorityQueue}
use cs.ReadyQueue.Levels.{Levels, with_level, length-le-total, total_of_nil, IsReady}
use cs.ReadyQueue.Pop.{IsNext, pq_pop-IsReady}
use cs.Kernel.{Kernel}
use cs.Kernel.Handle.{schedule, started}

-- With a ready queue that holds the lists `q`, and `t` the oldest task of the highest level that
-- is not empty, `schedule` runs `t`, which is no longer in the ready queue.
pub schedule-IsReady :
    (k : Kernel) (q : Levels) (p t : ℕ) (rest : List ℕ)
    → IsReady k.tasks k.pq_tasks q
    → IsNext q p t rest
    → (pq : PriorityQueue) × (schedule k
        ≡ some (
          some t,
          record k { tasks = set_next k.tasks t none; pq_tasks = pq; running_task = some t },
        ))
      × IsReady (set_next k.tasks t none) pq (with_level q p rest)
unfolding schedule
schedule-IsReady k q p t rest o n =
    let (pq, run, o') = pq_pop-IsReady k.tasks k.pq_tasks q p t rest o n in
    let some_task : 0 < k.pq_tasks.size =
      omega (arith, o.count, length-le-total q p 32 n.inside, ap length n.here) in
    (pq, rw (ne→== k.pq_tasks.size 0 (omega arith), run, started) refl, o')

-- With a ready queue that is in order and empty at every level, `schedule` returns no task and
-- changes nothing.
pub schedule-IsReady_idle :
    (k : Kernel) (q : Levels)
    → IsReady k.tasks k.pq_tasks q
    → ((p : ℕ) → p < 32 → q p ≡ [])
    → schedule k ≡ some (none, k)
unfolding schedule
schedule-IsReady_idle k q o e =
    rw (eq→== k.pq_tasks.size 0 (omega (arith, o.count, total_of_nil q 32 e))) refl
