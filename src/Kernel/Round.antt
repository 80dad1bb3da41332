-- ===== src/Kernel/Round.antt =====
-- A round of the main loop in which a task passes.
use native.Mathlib.Decide.{ℕ_discrete}
use cs.Base.{
  ℕ, suc, ◌<◌, ◌≡◌, refl, ap, ◌∙◌, subst, arith, none, some, List, [], ◌∷◌, ◌++◌, true, false,
  eq→==, ne→==, length,
}
use cs.Task.{Task, Tasks, tm_delta}
use cs.TaskQueue.{set_next}
use cs.TaskQueue.Refine.{mem, Distinct, link_last}
use cs.ReadyQueue.{PriorityQueue}
use cs.ReadyQueue.Levels.{Levels, with_level, total, total-with_level, IsReady}
use cs.ReadyQueue.Pop.{IsNext}
use cs.Kernel.{Kernel, make_ready}
use cs.Kernel.Frame.{update_field, IsReady-next, queued}
use cs.Kernel.Queueing.{ready_step}
use cs.Kernel.Schedule.{schedule-IsReady}
use cs.Kernel.Handle.{pass, Return, ran, handle, schedule, activated, round}

-- Running a task changes neither its link nor its priority.
ran_task :
    {B : Type 0} (f : Task → B)
    → ((t : Task) (sp psr : ℕ) (it : _) → f (record t { sp = sp; psr = psr; it = it }) ≡ f t)
    → ((t : Task) (r e : ℕ) → f (record t { running_time = r; end_time = e }) ≡ f t)
    → (k : Kernel) (i : ℕ) (a : Return) (j : ℕ) → f ((activated k i a).tasks j) ≡ f (k.tasks j)
unfolding tm_delta
ran_task f h1 h2 k i a j =
    let t = record (k.tasks i) { sp = a.sp; psr = a.psr; it = a.it } in
    update_field f k.tasks i (tm_delta a.started a.ended t) j
      (h2 t (tm_delta a.started a.ended t).running_time a.ended ∙ h1 (k.tasks i) a.sp a.psr a.it)

-- The task that was taken is at no level any more.
gone :
    (ts : Tasks) (pq : PriorityQueue) (q : Levels) (p t : ℕ) (rest : List ℕ)
    → IsReady ts pq q
    → IsNext q p t rest
    → (r : ℕ) → r < 32
    → mem t (with_level q p rest r) ≡ false
gone ts pq q p t rest o n r l = elim (ℕ_discrete p r) [
  | yes e ↦
      let (tq, at, held) = o.level p n.inside in
      let d = subst Distinct n.here held.distinct in rw (eq→== p r e) d.0
  | no ne ↦
      let there : mem t (q p) ≡ true = rw (n.here, eq→== t t refl) refl in
      rw (ne→== p r ne) (o.apart p r t n.inside l ne there)
]

round_run :
    (k k1 k2 : Kernel) (t : ℕ) (user : Kernel → ℕ → Return)
    → schedule k ≡ some (some t, k1)
    → (user k1 t).request ≡ pass
    → make_ready (activated k1 t (user k1 t)) t ≡ some k2
    → round k user ≡ some (ran t k2)
unfolding round handle
round_run k k1 k2 t user s r m = rw (s, r, m) refl

-- In a round of the main loop with a ready queue that holds the lists `q`, whose next task is `t`,
-- of the highest level `p` that is not empty, when `t` passes whatever kernel it runs in, `t`
-- runs, and the ready queue then holds `q` with `t` moved from the front of level `p` to its end.
pub round_of_pass :
    (k : Kernel) (q : Levels) (p t : ℕ) (rest : List ℕ) (user : Kernel → ℕ → Return)
    → IsReady k.tasks k.pq_tasks q
    → IsNext q p t rest
    → (k.tasks t).priority ≡ p
    → ((k1 : Kernel) → (user k1 t).request ≡ pass)
    → (k' : Kernel) × (round k user ≡ some (ran t k'))
      × IsReady k'.tasks k'.pq_tasks (with_level (with_level q p rest) p (rest ++ (t ∷ [])))
round_of_pass k q p t rest user o n prio r =
    let (pq, run, o1) = schedule-IsReady k q p t rest o n in
    let k1 = record k { tasks = set_next k.tasks t none; pq_tasks = pq; running_task = some t } in
    let q1 = with_level q p rest in
    let a = user k1 t in
    let ka = activated k1 t a in
    let oa =
      IsReady-next k1.tasks ka.tasks pq q1
        (ran_task (λ x. x.next) (λ x s u v. refl) (λ x u v. refl) k1 t a) o1 in
    let same : (j : ℕ) → (ka.tasks j).priority ≡ (k.tasks j).priority = λ j.
      ran_task (λ x. x.priority) (λ x s u v. refl) (λ x u v. refl) k1 t a j
      ∙ update_field (λ x. x.priority) k.tasks t (record (k.tasks t) { next = none }) j refl in
    let room : suc (total q1 32) ≡ total q 32 =
      omega (arith, total-with_level q p rest 32 n.inside, ap length n.here) in
    let (pq2, ready, o2) =
      ready_step k ka q1 t same oa (rw prio n.inside) (gone k.tasks k.pq_tasks q p t rest o n)
        (omega (arith, o.small, room)) in
    let levels : queued k q1 t ≡ with_level q1 p (rest ++ (t ∷ [])) =
      rw (prio, eq→== p p refl) refl in
    let k2 = record ka {
      tasks = link_last ka.tasks (q1 (ka.tasks t).priority) t;
      pq_tasks = pq2;
    } in
    (k2, round_run k k1 k2 t user run (r k1) ready, subst (IsReady k2.tasks pq2) levels o2)
