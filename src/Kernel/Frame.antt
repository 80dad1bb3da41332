-- ===== src/Kernel/Frame.antt =====
-- What the message handlers need of a kernel, and that changes of a status, a return value or a send
-- queue leave it alone; and what it is to make a task ready.
use native.Mathlib.Decide.{ℕ_discrete}
use cs.Base.{
  ℕ, suc, ◌<◌, ◌^◌, ◌≡◌, refl, ap, ◌∙◌, Option, some, List, [], ◌∷◌, ◌++◌, false, eq→==, ne→==,
}
use cs.Task.{Task, Tasks, update}
use cs.TaskQueue.Refine.{mem, Links, link_last}
use cs.ReadyQueue.{PriorityQueue}
use cs.ReadyQueue.Levels.{Levels, with_level, total, IsReady}
use cs.ReadyQueue.Push.{pq_push-IsReady}
use cs.Kernel.{Kernel, arg, make_ready, ◌>>=◌}

-- Two kernels with the same memory and ready queue, and tasks that differ in status, return value and
-- send queue at most.
pub record Alike (k k' : Kernel) : Type 0 where
  pub mem_same : k'.mem ≡ k.mem
  pub pq_same : k'.pq_tasks ≡ k.pq_tasks
  pub sp_same : (i : ℕ) → (k'.tasks i).sp ≡ (k.tasks i).sp
  pub tid_same : (i : ℕ) → (k'.tasks i).tid ≡ (k.tasks i).tid
  pub priority_same : (i : ℕ) → (k'.tasks i).priority ≡ (k.tasks i).priority
  pub next_same : (i : ℕ) → (k'.tasks i).next ≡ (k.tasks i).next

pub Alike-trans : {a b c : Kernel} → Alike a b → Alike b c → Alike a c
Alike-trans p q = record {
  mem_same = q.mem_same ∙ p.mem_same;
  pq_same = q.pq_same ∙ p.pq_same;
  sp_same = λ i. q.sp_same i ∙ p.sp_same i;
  tid_same = λ i. q.tid_same i ∙ p.tid_same i;
  priority_same = λ i. q.priority_same i ∙ p.priority_same i;
  next_same = λ i. q.next_same i ∙ p.next_same i;
}

-- A field that the written descriptor shares with the old one is the same throughout the array.
pub update_field :
    {B : Type 0} (f : Task → B) (ts : Tasks) (j : ℕ) (t : Task) (i : ℕ)
    → f t ≡ f (ts j)
    → f (update ts j t i) ≡ f (ts i)
update_field f ts j t i h = elim (ℕ_discrete j i) [
  | yes e ↦ rw (eq→== j i e) (h ∙ ap (λ k. f (ts k)) e)
  | no ne ↦ rw (ne→== j i ne)
]

-- The descriptor `t` is that of `j` but for status, return value and send queue.
pub update-Alike :
    (k : Kernel) (j : ℕ) (t : Task)
    → t.sp ≡ (k.tasks j).sp
    → t.tid ≡ (k.tasks j).tid
    → t.priority ≡ (k.tasks j).priority
    → t.next ≡ (k.tasks j).next
    → Alike k (record k { tasks = update k.tasks j t })
update-Alike k j t a b c d = record {
  mem_same = refl;
  pq_same = refl;
  sp_same = λ i. update_field (λ x. x.sp) k.tasks j t i a;
  tid_same = λ i. update_field (λ x. x.tid) k.tasks j t i b;
  priority_same = λ i. update_field (λ x. x.priority) k.tasks j t i c;
  next_same = λ i. update_field (λ x. x.next) k.tasks j t i d;
}

pub arg_same : {k k' : Kernel} → Alike k k' → (i o : ℕ) → arg k' i o ≡ arg k i o
arg_same a i o = rw (a.mem_same, a.sp_same i)

-- The links depend on the `next` fields only.
pub Links-next :
    (ts ts' : Tasks) (xs : List ℕ)
    → ((i : ℕ) → (ts' i).next ≡ (ts i).next)
    → Links ts xs
    → Links ts' xs
Links-next ts ts' [] e l = tt
Links-next ts ts' (x ∷ []) e l = tt
Links-next ts ts' (x ∷ y ∷ ys) e l = (e x ∙ l.0, Links-next ts ts' (y ∷ ys) e l.1)

pub IsReady-next :
    (ts ts' : Tasks) (pq : PriorityQueue) (q : Levels)
    → ((i : ℕ) → (ts' i).next ≡ (ts i).next)
    → IsReady ts pq q
    → IsReady ts' pq q
IsReady-next ts ts' pq q e r = record {
  width = r.width;
  level = λ p l.
      let (tq, at, held) = r.level p l in
      (
        tq,
        at,
        record {
          head_at = held.head_at;
          tail_at = held.tail_at;
          count = held.count;
          links = Links-next ts ts' (q p) e held.links;
          distinct = held.distinct;
          small = held.small;
        },
      );
  bits = r.bits;
  count = r.count;
  small = r.small;
  apart = r.apart;
}

-- A push writes `next` fields, and nothing else of the tasks.
pub link_last_field :
    {B : Type 0} (f : Task → B)
    → ((t : Task) (n : Option ℕ) → f (record t { next = n }) ≡ f t)
    → (ts : Tasks) (xs : List ℕ) (t i : ℕ) → f (link_last ts xs t i) ≡ f (ts i)
link_last_field f h ts [] t i = refl
link_last_field f h ts (x ∷ []) t i =
    update_field f ts x (record (ts x) { next = some t }) i (h (ts x) (some t))
link_last_field f h ts (x ∷ y ∷ ys) t i = link_last_field f h ts (y ∷ ys) t i

-- A task that is in no queue, with a priority for which there is one, and room.
pub record CanQueue (k : Kernel) (q : Levels) (i : ℕ) : Type 0 where
  pub order : IsReady k.tasks k.pq_tasks q
  pub level_ok : (k.tasks i).priority < 32
  pub absent : (r : ℕ) → r < 32 → mem i (q r) ≡ false
  pub room : suc (total q 32) < 2 ^ 30

abbrev pub queued : Kernel → Levels → ℕ → Levels
queued k q i = with_level q (k.tasks i).priority (q (k.tasks i).priority ++ (i ∷ []))

-- Making a task ready puts it behind the others of its priority.
pub make_ready_lem :
    (k : Kernel) (q : Levels) (i : ℕ)
    → CanQueue k q i
    → (pq : PriorityQueue) × (make_ready k i
        ≡ some (record k { tasks = link_last k.tasks (q (k.tasks i).priority) i; pq_tasks = pq }))
      × IsReady (link_last k.tasks (q (k.tasks i).priority) i) pq (queued k q i)
unfolding make_ready
make_ready_lem k q i c =
    let (pq, run, order) =
      pq_push-IsReady k.tasks k.pq_tasks q (k.tasks i).priority i c.order c.level_ok c.absent
        c.room in
    (pq, rw (run, ◌>>=◌), order)
