-- ===== src/Kernel/Create/Fresh.antt =====
-- What `create` makes of a tid that no task has.
use native.Mathlib.Decide.{ℕ_discrete}
use cs.Base.{
  ℕ, suc, ◌<◌, ◌^◌, ◌≡◌, ◌≢◌, refl, sym, ◌∙◌, Option, none, some, [], ◌∷◌, ◌++◌, false, eq→==,
  ne→==, lt→ltb, is_negative, sub32,
}
use cs.Ring.{Ring, init}
use cs.Task.{Task, Tasks, Tid, ready, tid_id}
use cs.Task.Tracker.{Tracker, tt_get}
use cs.TaskQueue.{set_next, ok}
use cs.TaskQueue.Refine.{mem, link_last, set_next-Links}
use cs.ReadyQueue.{PriorityQueue, pq_push}
use cs.ReadyQueue.Levels.{Levels, with_level, total, IsReady}
use cs.ReadyQueue.Push.{pq_push-IsReady}
use cs.Kernel.{Kernel, arg, set_ret}
use cs.Kernel.Frame.{update_field, IsReady-next, link_last_field}
use cs.Kernel.Create.{create, ktd_create, stack_top, new_task}

-- The link of a task that is in no queue is free to change.
IsReady-set_next :
    (ts : Tasks) (pq : PriorityQueue) (q : Levels) (t : ℕ) (n : Option ℕ)
    → ((r : ℕ) → r < 32 → mem t (q r) ≡ false)
    → IsReady ts pq q
    → IsReady (set_next ts t n) pq q
IsReady-set_next ts pq q t n a r = record {
  width = r.width;
  level = λ p l.
      let (tq, at, held) = r.level p l in
      (
        tq,
        at,
        record {
          head_at = held.head_at;
          tail_at = held.tail_at;
          count = held.count;
          links = set_next-Links ts t n (q p) (a p l) held.links;
          distinct = held.distinct;
          small = held.small;
        },
      );
  bits = r.bits;
  count = r.count;
  small = r.small;
  apart = r.apart;
}

-- A task `i` asks for a new one, of which the tracker gives the tid.
pub record CanCreate (k : Kernel) (q : Levels) (i : ℕ) (tid : Tid) (trk : Tracker) : Type 0 where
  pub fresh : tt_get k.tid_tracker ≡ some (tid, trk)
  pub positive : is_negative tid ≡ false
  pub apart : tid_id tid ≢ i
  pub level_ok : arg k i 4 < 32
  pub order : IsReady k.tasks k.pq_tasks q
  pub absent : (r : ℕ) → r < 32 → mem (tid_id tid) (q r) ≡ false
  pub room : suc (total q 32) < 2 ^ 30

-- The new task is ready behind those of its priority, its parent is `i`, and nobody has sent to it.
pub record Created (k k' : Kernel) (q : Levels) (i : ℕ) (tid : Tid) (trk : Tracker) : Type 0 where
  pub tracker : k'.tid_tracker ≡ trk
  pub named : (k'.tasks (tid_id tid)).tid ≡ tid
  pub status : (k'.tasks (tid_id tid)).status ≡ ready
  pub parent : (k'.tasks (tid_id tid)).parent ≡ some i
  pub priority : (k'.tasks (tid_id tid)).priority ≡ arg k i 4
  pub code : (k'.tasks (tid_id tid)).code ≡ arg k i 8
  pub nobody : (k'.tasks (tid_id tid)).send_q.size ≡ 0
  pub returns : (k'.tasks i).ret ≡ tid
  pub others : (j : ℕ) → j ≢ tid_id tid → (k'.tasks j).status ≡ (k.tasks j).status
  pub levels :
      IsReady k'.tasks k'.pq_tasks (with_level q (arg k i 4) (q (arg k i 4) ++ (tid_id tid ∷ [])))

abbrev made : Kernel → ℕ → Tid → Tracker → Kernel
made k i tid trk =
    ktd_create (record k { tid_tracker = trk }) (tid_id tid) tid (arg k i 8) (arg k i 4) ready
      (some i)

create_run :
    (k : Kernel) (q : Levels) (i : ℕ) (tid : Tid) (trk : Tracker) (ts : Tasks) (pq : PriorityQueue)
    (c : _)
    → CanCreate k q i tid trk
    → pq_push (made k i tid trk).tasks (made k i tid trk).pq_tasks (arg k i 4) (tid_id tid)
      ≡ some (c, ts, pq)
    → create k i ≡ some (set_ret (record (made k i tid trk) { tasks = ts; pq_tasks = pq }) i tid)
unfolding create
create_run k q i tid trk ts pq c h e = rw (h.fresh, h.positive, lt→ltb (arg k i 4) 32 h.level_ok, e)

-- The fields of the new descriptor, and the statuses of the others.
made_next :
    (k : Kernel) (i : ℕ) (tid : Tid) (trk : Tracker) (j : ℕ)
    → ((made k i tid trk).tasks j).next ≡ (set_next k.tasks (tid_id tid) none j).next
unfolding ktd_create
made_next k i tid trk j = elim (ℕ_discrete (tid_id tid) j) [
  | yes e ↦ rw (eq→== (tid_id tid) j e) refl
  | no ne ↦ rw (ne→== (tid_id tid) j ne) refl
]

made_at :
    {B : Type 0} (f : Task → B) (k : Kernel) (i : ℕ) (tid : Tid) (trk : Tracker)
    → f ((made k i tid trk).tasks (tid_id tid))
      ≡ f (
          new_task
            (k.tasks (tid_id tid))
            (sub32 (stack_top tid) 60)
            0
            tid
            (arg k i 8)
            (arg k i 4)
            ready
            (some i)
            (k.io 0x80810084))
unfolding ktd_create
made_at f k i tid trk = rw (eq→== (tid_id tid) (tid_id tid) refl) refl

made_other :
    (k : Kernel) (i : ℕ) (tid : Tid) (trk : Tracker) (j : ℕ)
    → j ≢ tid_id tid
    → ((made k i tid trk).tasks j).status ≡ (k.tasks j).status
unfolding ktd_create
made_other k i tid trk j n = rw (ne→== (tid_id tid) j (λ e. n (sym e))) refl

init-size : (cb : Ring Tid) → (init cb).size ≡ 0
unfolding init
init-size cb = refl

abbrev after : Kernel → Levels → ℕ → Tid → Tracker → PriorityQueue → Kernel
after k q i tid trk pq = record (made k i tid trk) {
  tasks = link_last (made k i tid trk).tasks (q (arg k i 4)) (tid_id tid);
  pq_tasks = pq;
}

-- What is neither a link nor a return value stays as it was made.
after_field :
    {B : Type 0} (f : Task → B)
    → ((t : Task) (n : Option ℕ) → f (record t { next = n }) ≡ f t)
    → ((t : Task) (v : ℕ) → f (record t { ret = v }) ≡ f t)
    → (k : Kernel) (q : Levels) (i : ℕ) (tid : Tid) (trk : Tracker) (pq : PriorityQueue) (j : ℕ)
    → f ((set_ret (after k q i tid trk pq) i tid).tasks j) ≡ f ((made k i tid trk).tasks j)
after_field f h1 h2 k q i tid trk pq j =
    let a = after k q i tid trk pq in
    update_field f a.tasks i (record (a.tasks i) { ret = tid }) j (h2 (a.tasks i) tid)
    ∙ link_last_field f h1 (made k i tid trk).tasks (q (arg k i 4)) (tid_id tid) j

after-Created :
    (k : Kernel) (q : Levels) (i : ℕ) (tid : Tid) (trk : Tracker) (pq : PriorityQueue)
    → IsReady
        (after k q i tid trk pq).tasks
        pq
        (with_level q (arg k i 4) (q (arg k i 4) ++ (tid_id tid ∷ [])))
    → Created k (set_ret (after k q i tid trk pq) i tid) q i tid trk
unfolding ktd_create
after-Created k q i tid trk pq o =
    let a = after k q i tid trk pq in
    let id = tid_id tid in
    record {
      tracker = refl;
      named =
          after_field (λ x. x.tid) (λ t n. refl) (λ t v. refl) k q i tid trk pq id
          ∙ made_at (λ x. x.tid) k i tid trk;
      status =
          after_field (λ x. x.status) (λ t n. refl) (λ t v. refl) k q i tid trk pq id
          ∙ made_at (λ x. x.status) k i tid trk;
      parent =
          after_field (λ x. x.parent) (λ t n. refl) (λ t v. refl) k q i tid trk pq id
          ∙ made_at (λ x. x.parent) k i tid trk;
      priority =
          after_field (λ x. x.priority) (λ t n. refl) (λ t v. refl) k q i tid trk pq id
          ∙ made_at (λ x. x.priority) k i tid trk;
      code =
          after_field (λ x. x.code) (λ t n. refl) (λ t v. refl) k q i tid trk pq id
          ∙ made_at (λ x. x.code) k i tid trk;
      nobody =
          after_field (λ x. x.send_q.size) (λ t n. refl) (λ t v. refl) k q i tid trk pq id
          ∙ made_at (λ x. x.send_q.size) k i tid trk
          ∙ init-size (k.tasks id).send_q;
      returns = rw (eq→== i i refl) refl;
      others = λ j n.
          after_field (λ x. x.status) (λ t m. refl) (λ t v. refl) k q i tid trk pq j
          ∙ made_other k i tid trk j n;
      levels =
          IsReady-next a.tasks (set_ret a i tid).tasks pq
            (with_level q (arg k i 4) (q (arg k i 4) ++ (id ∷ [])))
            (λ j. update_field (λ x. x.next) a.tasks i (record (a.tasks i) { ret = tid }) j refl) o;
    }

-- When the tracker gives the id `tid`, which is not negative and not in the ready queue, to a task
-- `i` that asks for a new task of a priority below 32, `create` returns: the new task has the id,
-- priority, code and parent asked for, an empty send queue, and is ready behind the tasks of its
-- priority, `i`'s call returns `tid`, and no other status changes.
pub create_lem :
    (k : Kernel) (q : Levels) (i : ℕ) (tid : Tid) (trk : Tracker)
    → CanCreate k q i tid trk
    → (k' : Kernel) × (create k i ≡ some k') × Created k k' q i tid trk
unfolding ktd_create
create_lem k q i tid trk c =
    let m = made k i tid trk in
    let id = tid_id tid in
    let o1 =
      IsReady-next (set_next k.tasks id none) m.tasks k.pq_tasks q (made_next k i tid trk)
        (IsReady-set_next k.tasks k.pq_tasks q id none c.absent c.order) in
    let (pq, run, o2) =
      pq_push-IsReady m.tasks m.pq_tasks q (arg k i 4) id o1 c.level_ok c.absent c.room in
    (
      set_ret (after k q i tid trk pq) i tid,
      create_run k q i tid trk (link_last m.tasks (q (arg k i 4)) id) pq ok c run,
      after-Created k q i tid trk pq o2,
    )
