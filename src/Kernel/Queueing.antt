-- ===== src/Kernel/Queueing.antt =====
-- Tasks made ready one after another, told by the levels of the kernel they started from.
use native.Mathlib.Decide.{ℕ_discrete}
use cs.Base.{
  ℕ, suc, ◌<◌, ◌^◌, ◌≡◌, ◌≢◌, refl, subst, arith, some, [], ◌∷◌, ◌++◌, false, if◌then◌else◌, ◌==◌,
  eq→==, ne→==, length-append,
}
use cs.Task.{Task, Tasks, update}
use cs.TaskQueue.Refine.{mem, mem-append, link_last}
use cs.ReadyQueue.{PriorityQueue}
use cs.ReadyQueue.Levels.{Levels, with_level, IsReady, total, total-with_level}
use cs.Kernel.{Kernel, make_ready}
use cs.Kernel.Frame.{queued, make_ready_lem}

pub update_any :
    {B : Type 0} (f : Task → B) (ts : Tasks) (j : ℕ) (t : Task) (i : ℕ)
    → f (update ts j t i) ≡ (if j == i then f t else f (ts i))
update_any f ts j t i = elim (ℕ_discrete j i) [
  | yes e ↦ rw (eq→== j i e) refl
  | no ne ↦ rw (ne→== j i ne) refl
]

-- Making ready, told by the levels of the kernel `k` whose priorities the current one `k0` has.
pub ready_step :
    (k k0 : Kernel) (q : Levels) (i : ℕ)
    → ((j : ℕ) → (k0.tasks j).priority ≡ (k.tasks j).priority)
    → IsReady k0.tasks k0.pq_tasks q
    → (k.tasks i).priority < 32
    → ((r : ℕ) → r < 32 → mem i (q r) ≡ false)
    → suc (total q 32) < 2 ^ 30
    → (pq : PriorityQueue) × (make_ready k0 i
        ≡ some
            (record k0 { tasks = link_last k0.tasks (q (k0.tasks i).priority) i; pq_tasks = pq }))
      × IsReady (link_last k0.tasks (q (k0.tasks i).priority) i) pq (queued k q i)
ready_step k k0 q i e o l a m =
    let (pq, run, order) =
      make_ready_lem k0 q i (record { order = o; level_ok = rw (e i) l; absent = a; room = m }) in
    (
      pq,
      run,
      subst
          (λ p.
            IsReady (link_last k0.tasks (q (k0.tasks i).priority) i) pq
              (with_level q p (q p ++ (i ∷ []))))
          (e i) order,
    )

pub queued_absent :
    (k : Kernel) (q : Levels) (r s : ℕ)
    → r ≢ s
    → ((p : ℕ) → p < 32 → mem r (q p) ≡ false)
    → (p : ℕ) → p < 32
    → mem r (queued k q s p) ≡ false
queued_absent k q r s n a p l = elim (ℕ_discrete (k.tasks s).priority p) [
  | yes e ↦
      rw
        (
          eq→== (k.tasks s).priority p e,
          mem-append r (q (k.tasks s).priority) (s ∷ []),
          e,
          a p l,
          ne→== r s n,
        )
        refl
  | no ne ↦ rw (ne→== (k.tasks s).priority p ne) (a p l)
]

pub total-queued :
    (k : Kernel) (q : Levels) (s : ℕ)
    → (k.tasks s).priority < 32
    → total (queued k q s) 32 ≡ suc (total q 32)
total-queued k q s l =
    let p = (k.tasks s).priority in
    omega (arith, total-with_level q p (q p ++ (s ∷ [])) 32 l, length-append (q p) (s ∷ []))
