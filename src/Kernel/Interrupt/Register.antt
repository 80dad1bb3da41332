-- ===== src/Kernel/Interrupt/Register.antt =====
-- A task that calls AwaitEvent.
use cs.Base.{
  ℕ, ◌<◌, ◌≡◌, ◌≢◌, refl, ◌∙◌, arith, some, List, [], ◌∷◌, ◌++◌, Bool, true, false, if◌then◌else◌,
  ◌==◌, eq→==, ne→==, length, lt→ltb,
}
use cs.Ring.{ok}
use cs.Ring.Refine.{Holds}
use cs.InterruptMatrix.{
  Event, number, Matrix, im_push, is_interrupt_stored, remove_assert, tc1ui, tc3ui, uart1_rx,
  uart1_tx, uart1_rt, uart1_mi, uart2_rx, uart2_tx, uart2_rt, uart2_mi,
}
use cs.InterruptMatrix.Waiting.{event_of-number, im_push-Holds}
use cs.TaskQueue.Refine.{link_last}
use cs.ReadyQueue.Levels.{Levels, IsReady}
use cs.Kernel.{Kernel, arg, set_ret, make_ready}
use cs.Kernel.Frame.{update_field, IsReady-next, link_last_field, CanQueue, queued}
use cs.Kernel.Queueing.{ready_step}
use cs.Kernel.Interrupt.{get_interrupt_ret, event_value, set_im, event_register}

number_lem : (e : Event) → number e < 1024
number_lem tc1ui = omega arith
number_lem tc3ui = omega arith
number_lem uart1_rx = omega arith
number_lem uart1_tx = omega arith
number_lem uart1_rt = omega arith
number_lem uart1_mi = omega arith
number_lem uart2_rx = omega arith
number_lem uart2_tx = omega arith
number_lem uart2_rt = omega arith
number_lem uart2_mi = omega arith

get_ret : (io : ℕ → ℕ) (e : Event) → get_interrupt_ret io (number e) ≡ some (event_value io e)
unfolding get_interrupt_ret
get_ret io e = rw (event_of-number e) refl

stored_run :
    (im : Matrix) (e : Event) (b : Bool)
    → (im.stored_flag (number e) == 0) ≡ b
    → is_interrupt_stored im (number e) ≡ some (if b then false else true)
unfolding is_interrupt_stored
stored_run im e b h = rw (lt→ltb (number e) 1024 (number_lem e), h) refl

-- The flags once that of `e` has been taken back.
abbrev pub cleared : Matrix → Event → Matrix
cleared im e = record im { stored_flag = λ i. if number e == i then 0 else im.stored_flag i }

pub remove_run : (im : Matrix) (e : Event) → remove_assert im (number e) ≡ some (cleared im e)
unfolding remove_assert
remove_run im e = rw (lt→ltb (number e) 1024 (number_lem e)) refl

waits_run :
    (k : Kernel) (i : ℕ) (e : Event) (im : Matrix)
    → arg k i 4 ≡ number e
    → is_interrupt_stored k.im_tasks (number e) ≡ some false
    → im_push k.im_tasks i (number e) ≡ some (ok, im)
    → event_register k i ≡ some (set_im k im)
unfolding event_register
waits_run k i e im a s p = rw (a, s, p) refl

returns_run :
    (k k1 : Kernel) (i : ℕ) (e : Event)
    → arg k i 4 ≡ number e
    → is_interrupt_stored k.im_tasks (number e) ≡ some true
    → make_ready (set_ret k i (event_value k.io e)) i ≡ some k1
    → event_register k i ≡ some (set_im k1 (cleared k1.im_tasks e))
unfolding event_register
returns_run k k1 i e a s m = rw (a, s, get_ret k.io e, m, remove_run k1.im_tasks e) refl

-- A task that awaits an event that is not remembered, for which the tasks `xs` wait, fewer than
-- 128, waits behind them; the queues of other events, and the kernel outside the interrupt matrix,
-- do not change.
pub event_register_waits :
    (k : Kernel) (i : ℕ) (e : Event) (xs : List ℕ)
    → arg k i 4 ≡ number e
    → k.im_tasks.stored_flag (number e) ≡ 0
    → Holds 128 (k.im_tasks.waiting e) xs
    → length xs < 128
    → (im : Matrix) × (event_register k i ≡ some (set_im k im))
      × Holds 128 (im.waiting e) (xs ++ (i ∷ []))
      × ((f : Event) → e ≢ f → im.waiting f ≡ k.im_tasks.waiting f)
event_register_waits k i e xs a flag h room =
    let (im, run, held, others) = im_push-Holds k.im_tasks e xs i h room in
    let s = stored_run k.im_tasks e true (eq→== (k.im_tasks.stored_flag (number e)) 0 flag) in
    (im, waits_run k i e im a s run, held, others)

-- What a task that does not have to wait finds.
pub record Returned (k k' : Kernel) (q : Levels) (i : ℕ) (e : Event) : Type 0 where
  pub value : (k'.tasks i).ret ≡ event_value k.io e
  pub order : IsReady k'.tasks k'.pq_tasks (queued k q i)
  pub flag : k'.im_tasks.stored_flag (number e) ≡ 0
  pub waiting : (f : Event) → k'.im_tasks.waiting f ≡ k.im_tasks.waiting f

-- A task that awaits an event that is remembered, and fits in the ready queue, is ready behind the
-- tasks of its priority with the event's value as its return value, the event is forgotten, and
-- nobody's place in the queues of waiting tasks changes.
pub event_register_returns :
    (k : Kernel) (q : Levels) (i : ℕ) (e : Event)
    → arg k i 4 ≡ number e
    → k.im_tasks.stored_flag (number e) ≢ 0
    → CanQueue k q i
    → (k' : Kernel) × (event_register k i ≡ some k') × Returned k k' q i e
event_register_returns k q i e a flag c =
    let v = event_value k.io e in
    let kr = set_ret k i v in
    let t = record (k.tasks i) { ret = v } in
    let o =
      IsReady-next k.tasks kr.tasks k.pq_tasks q
        (λ j. update_field (λ x. x.next) k.tasks i t j refl) c.order in
    let (pq, run, order) =
      ready_step k kr q i (λ j. update_field (λ x. x.priority) k.tasks i t j refl) o c.level_ok
        c.absent c.room in
    let k1 = record kr { tasks = link_last kr.tasks (q (kr.tasks i).priority) i; pq_tasks = pq } in
    let s = stored_run k.im_tasks e false (ne→== (k.im_tasks.stored_flag (number e)) 0 flag) in
    (
      set_im k1 (cleared k1.im_tasks e),
      returns_run k k1 i e a s run,
      record {
        value =
            link_last_field (λ x. x.ret) (λ x n. refl) kr.tasks (q (kr.tasks i).priority) i i
            ∙ rw (eq→== i i refl) refl;
        order = order;
        flag = rw (eq→== (number e) (number e) refl) refl;
        waiting = λ f. refl;
      },
    )
