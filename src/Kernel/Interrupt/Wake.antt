-- ===== src/Kernel/Interrupt/Wake.antt =====
-- Waking every task that waits for an event.
use cs.Base.{
  ℕ, zero, suc, ◌+◌, ◌<◌, ◌^◌, ◌≡◌, ◌≢◌, refl, sym, ap, ◌∙◌, arith, some, List, [], ◌∷◌, true,
  false, if◌then◌else◌, ◌==◌, eq→==, ne→==, length,
}
use cs.Ring.Refine.{Holds}
use cs.InterruptMatrix.{Event, number, Matrix, im_pop, im_eventsize}
use cs.InterruptMatrix.Waiting.{event_of-number, im_pop-Holds, im_eventsize-Holds}
use cs.TaskQueue.Refine.{mem, Distinct, link_last}
use cs.ReadyQueue.Levels.{Levels, total, IsReady}
use cs.Kernel.{Kernel, ◌>>=◌, set_ret, make_ready}
use cs.Kernel.Frame.{update_field, IsReady-next, link_last_field, queued}
use cs.Kernel.Queueing.{update_any, ready_step, queued_absent, total-queued}
use cs.Kernel.Interrupt.{get_interrupt_ret, event_value, set_im, wake_loop, wakeall}

-- The levels once the tasks `xs` have become ready, in that order.
abbrev pub all_queued : Kernel → Levels → List ℕ → Levels
all_queued k q [] = q
all_queued k q (x ∷ xs) = all_queued k (queued k q x) xs

-- The tasks `xs` wait for the event `e`, and none of them is ready.
pub record CanWake (k : Kernel) (q : Levels) (xs : List ℕ) : Type 0 where
  pub distinct : Distinct xs
  pub levels_ok : (x : ℕ) → mem x xs ≡ true → (k.tasks x).priority < 32
  pub absent : (x r : ℕ) → mem x xs ≡ true → r < 32 → mem x (q r) ≡ false
  pub room : length xs + total q 32 < 2 ^ 30

-- Nobody waits for `e` any more, the tasks that did are ready and have its value, and no other task
-- is touched, nor a queue of another event, nor what is remembered of events that came with nobody waiting.
pub record Woken (k k' : Kernel) (q : Levels) (e : Event) (v : ℕ) (xs : List ℕ) : Type 0 where
  pub nobody : Holds 128 (k'.im_tasks.waiting e) []
  pub other_events : (f : Event) → e ≢ f → k'.im_tasks.waiting f ≡ k.im_tasks.waiting f
  pub remembered : k'.im_tasks.stored_flag ≡ k.im_tasks.stored_flag
  pub returns : (j : ℕ) → (k'.tasks j).ret ≡ (if mem j xs then v else (k.tasks j).ret)
  pub devices : k'.io ≡ k.io

get_ret : (io : ℕ → ℕ) (e : Event) → get_interrupt_ret io (number e) ≡ some (event_value io e)
unfolding get_interrupt_ret
get_ret io e = rw (event_of-number e) refl

loop_end :
    (n ie : ℕ) (k : Kernel) → im_eventsize k.im_tasks ie ≡ some 0 → wake_loop (suc n) k ie ≡ some k
unfolding wake_loop
loop_end n ie k h = rw h refl

loop_step :
    (n ie m td ret : ℕ) (im : Matrix) (k k1 : Kernel)
    → im_eventsize k.im_tasks ie ≡ some (suc m)
    → im_pop k.im_tasks ie ≡ some (td, im)
    → get_interrupt_ret k.io ie ≡ some ret
    → make_ready (set_ret (set_im k im) td ret) td ≡ some k1
    → wake_loop (suc n) k ie ≡ wake_loop n k1 ie
unfolding wake_loop
loop_step n ie m td ret im k k1 h1 h2 h3 h4 =
    rw (h1, ne→== (suc m) 0 (omega arith), h2, h3, h4) refl

mem_self : (x : ℕ) (xs : List ℕ) → mem x (x ∷ xs) ≡ true
mem_self x xs = rw (eq→== x x refl) refl

CanWake-rest :
    (k : Kernel) (q : Levels) (td : ℕ) (xs : List ℕ)
    → CanWake k q (td ∷ xs)
    → CanWake k (queued k q td) xs
CanWake-rest k q td xs c =
    let d = c.distinct in
    let other : (x : ℕ) → mem x xs ≡ true → mem td xs ≡ false → x ≢ td =
      λ x m n e. let b = sym m ∙ ap (λ y. mem y xs) e ∙ n in cc in
    record {
      distinct = d.1;
      levels_ok = λ x m. c.levels_ok x (ground arith);
      absent = λ x r m l.
          queued_absent k q x td (λ e. other x m d.0 e) (λ p pl. c.absent x p (ground arith) pl) r
            l;
      room = rw (total-queued k q td (c.levels_ok td (mem_self td xs))) (omega (arith, c.room));
    }

-- What becomes of the return values when the first task, and then the rest, are woken.
returns_step :
    (td v : ℕ) (xs : List ℕ) (j old : ℕ)
    → (if mem j xs then v else if td == j then v else old) ≡ (if mem j (td ∷ xs) then v else old)
returns_step td v xs j old = ground arith

-- The loop runs to its end on more fuel than tasks wait. `k` is the kernel with which it began.
wake_loop_lem :
    (n : ℕ) (k k0 : Kernel) (q : Levels) (e : Event) (xs : List ℕ)
    → length xs < n
    → ((j : ℕ) → (k0.tasks j).priority ≡ (k.tasks j).priority)
    → IsReady k0.tasks k0.pq_tasks q
    → CanWake k q xs
    → Holds 128 (k0.im_tasks.waiting e) xs
    → (k' : Kernel) × (wake_loop n k0 (number e) ≡ some k')
      × Woken k0 k' q e (event_value k0.io e) xs
      × IsReady k'.tasks k'.pq_tasks (all_queued k q xs)
wake_loop_lem zero k k0 q e xs l p o c h = elim l [ ]
wake_loop_lem (suc n) k k0 q e [] l p o c h = (
  k0,
  loop_end n (number e) k0 (im_eventsize-Holds k0.im_tasks e [] h),
  record {
    nobody = h;
    other_events = λ f ne. refl;
    remembered = refl;
    returns = λ j. refl;
    devices = refl;
  },
  o,
)
wake_loop_lem (suc n) k k0 q e (td ∷ xs) l p o c h =
    let v = event_value k0.io e in
    let (im, pop_run, row, others, flags) = im_pop-Holds k0.im_tasks e xs td h in
    let ka = set_im k0 im in
    let kb = set_ret ka td v in
    let t = record (ka.tasks td) { ret = v } in
    let ob =
      IsReady-next k0.tasks kb.tasks k0.pq_tasks q
        (λ j. update_field (λ x. x.next) ka.tasks td t j refl) o in
    let (pq, run, o1) =
      ready_step k kb q td (λ j. update_field (λ x. x.priority) ka.tasks td t j refl ∙ p j) ob
        (c.levels_ok td (mem_self td xs)) (λ r rl. c.absent td r (mem_self td xs) rl)
        (omega (arith, c.room)) in
    let k1 = record kb {
      tasks = link_last kb.tasks (q (kb.tasks td).priority) td;
      pq_tasks = pq;
    } in
    let rets : (j : ℕ) → (k1.tasks j).ret ≡ (if td == j then v else (k0.tasks j).ret) = λ j.
      link_last_field (λ x. x.ret) (λ a b. refl) kb.tasks (q (kb.tasks td).priority) td j
      ∙ update_any (λ x. x.ret) ka.tasks td t j in
    let (k', rest, w, o2) =
      wake_loop_lem n k k1 (queued k q td) e xs (omega arith)
        (λ j.
          link_last_field (λ x. x.priority) (λ a b. refl) kb.tasks (q (kb.tasks td).priority) td j
          ∙ update_field (λ x. x.priority) ka.tasks td t j refl
          ∙ p j)
        o1 (CanWake-rest k q td xs c) row in
    (
      k',
      loop_step n (number e) (length xs) td v im k0 k1
            (im_eventsize-Holds k0.im_tasks e (td ∷ xs) h) pop_run (get_ret k0.io e) run
          ∙ rest,
      record {
        nobody = w.nobody;
        other_events = λ f ne. w.other_events f ne ∙ others f ne;
        remembered = w.remembered ∙ flags;
        returns = λ j.
            w.returns j
            ∙ ap (λ z. if mem j xs then v else z) (rets j)
            ∙ returns_step td v xs j (k0.tasks j).ret;
        devices = w.devices;
      },
      o2,
    )

-- When the tasks `xs` wait for an event, are distinct and not ready, have priorities below 32 and
-- fit in a ready queue that is in order, `wakeall` ends: nobody waits for the event any more,
-- every task of `xs` is ready, in the order in which they came, and its call returns the event's
-- value, and other tasks' return values, the queues of other events, the remembered events and the
-- devices are as before.
pub wakeall_lem :
    (k : Kernel) (q : Levels) (e : Event) (xs : List ℕ)
    → IsReady k.tasks k.pq_tasks q
    → CanWake k q xs
    → Holds 128 (k.im_tasks.waiting e) xs
    → (k' : Kernel) × (wakeall k (number e) ≡ some k')
      × Woken k k' q e (event_value k.io e) xs
      × IsReady k'.tasks k'.pq_tasks (all_queued k q xs)
unfolding wakeall
wakeall_lem k q e xs o c h =
    let (k', run, w, o') =
      wake_loop_lem (suc (length xs)) k k q e xs (omega arith) (λ j. refl) o c h in
    (
      k',
      ap (λ m. m >>= λ size. wake_loop (suc size) k (number e))
            (im_eventsize-Holds k.im_tasks e xs h)
          ∙ run,
      w,
      o',
    )
