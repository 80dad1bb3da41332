-- ===== src/Kernel/Interrupt/First.antt =====
-- `event_wake` when some event is pending: the first in the order of `WakePriority`.
use cs.Base.{
  ℕ, suc, ◌≡◌, refl, sym, ap, ◌∙◌, arith, some, List, [], ◌∷◌, ◌++◌, Bool, true, false, length,
  lt→ltb, ◌||◌,
}
use cs.Ring.Refine.{Holds}
use cs.InterruptMatrix.{Event, number, is_interrupt_stored, im_eventsize}
use cs.InterruptMatrix.Waiting.{event_of-number, im_eventsize-Holds}
use cs.ReadyQueue.Levels.{Levels, IsReady}
use cs.Kernel.{Kernel}
use cs.Kernel.Interrupt.{
  event_value, clear_event, clear_interrupt, is_interrupt_asserted, wakeall, event_wake_from,
  event_wake, wake_priority,
}
use cs.Kernel.Interrupt.Wake.{CanWake, Woken, all_queued, wakeall_lem}
use cs.Kernel.Interrupt.Register.{cleared, remove_run}

-- None of the events is asserted, and none is remembered.
abbrev pub Quiet : Kernel → List ℕ → Type 0
Quiet k [] = Unit {0}
Quiet k (ie ∷ ies) =
    (is_interrupt_asserted k.io ie ≡ some false)
    × (is_interrupt_stored k.im_tasks ie ≡ some false)
    × Quiet k ies

-- An event is asserted, or remembered.
pub record Pending (k : Kernel) (ie : ℕ) : Type 0 where
  pub asserted : Bool
  pub stored : Bool
  pub asserted_is : is_interrupt_asserted k.io ie ≡ some asserted
  pub stored_is : is_interrupt_stored k.im_tasks ie ≡ some stored
  pub either : (asserted || stored) ≡ true

clear_run : (io : ℕ → ℕ) (e : Event) → clear_interrupt io (number e) ≡ some (clear_event io e)
unfolding clear_interrupt
clear_run io e = rw (event_of-number e) refl

skip_run :
    (k : Kernel) (ies rest : List ℕ)
    → Quiet k ies
    → event_wake_from (ies ++ rest) k ≡ event_wake_from rest k
unfolding event_wake_from
skip_run k [] rest u = refl
skip_run k (ie ∷ ies) rest u = rw (u.0, u.1) (skip_run k ies rest u.2)

first_run :
    (k k1 : Kernel) (e : Event) (rest : List ℕ) (n : ℕ)
    → Pending k (number e)
    → im_eventsize k.im_tasks (number e) ≡ some (suc n)
    → wakeall k (number e) ≡ some k1
    → event_wake_from (number e ∷ rest) k
      ≡ some (record k1 { io = clear_event k1.io e; im_tasks = cleared k1.im_tasks e })
unfolding event_wake_from
first_run k k1 e rest n p s w =
    rw
      (
        p.asserted_is,
        p.stored_is,
        p.either,
        s,
        lt→ltb 0 (suc n) (omega arith),
        w,
        clear_run k1.io e,
        remove_run k1.im_tasks e,
      )
      refl

-- When the events that come before an event in the order of priority are neither asserted nor
-- remembered, the event itself is one or the other, and the tasks that wait for it are some,
-- distinct, not ready and fit in a ready queue that is in order, `event_wake` wakes exactly these
-- tasks, in the order in which they came, with the event's value, clears the event in the device
-- and forgets it, and looks at no later event.
pub event_wake_lem :
    (k : Kernel) (q : Levels) (before : List ℕ) (e : Event) (rest : List ℕ) (x : ℕ) (xs : List ℕ)
    → before ++ (number e ∷ rest) ≡ wake_priority
    → Quiet k before
    → Pending k (number e)
    → IsReady k.tasks k.pq_tasks q
    → CanWake k q (x ∷ xs)
    → Holds 128 (k.im_tasks.waiting e) (x ∷ xs)
    → (k1 : Kernel) × (event_wake k
        ≡ some (record k1 { io = clear_event k1.io e; im_tasks = cleared k1.im_tasks e }))
      × Woken k k1 q e (event_value k.io e) (x ∷ xs)
      × IsReady k1.tasks k1.pq_tasks (all_queued k q (x ∷ xs))
unfolding event_wake
event_wake_lem k q before e rest x xs order u p o c h =
    let (k1, run, w, o') = wakeall_lem k q e (x ∷ xs) o c h in
    (
      k1,
      ap (λ ies. event_wake_from ies k) (sym order)
          ∙ skip_run k before (number e ∷ rest) u
          ∙ first_run k k1 e rest (length xs) p (im_eventsize-Holds k.im_tasks e (x ∷ xs) h) run,
      w,
      o',
    )
