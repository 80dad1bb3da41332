-- ===== src/InterruptMatrix/Waiting.antt =====
-- The tasks that wait for an event, oldest first.
use cs.Base.{
  ℕ, ◌<◌, ◌≡◌, ◌≢◌, refl, sym, ap, ◌∙◌, Option, some, List, [], ◌∷◌, ◌++◌, length, eq→==, ne→==,
}
use cs.Ring
use cs.Ring.{Ring, Code, ok}
use cs.Ring.Refine.{Holds, push-Holds, pop-Holds}
use cs.InterruptMatrix.{
  Event, number, event_of, tc1ui, tc3ui, uart1_rx, uart1_tx, uart1_rt, uart1_mi, uart2_rx, uart2_tx,
  uart2_rt, uart2_mi, Matrix, with_queue, im_push, im_pop, im_eventsize, popped,
}

pub event_of-number : (e : Event) → event_of (number e) ≡ some e
unfolding event_of
event_of-number tc1ui = refl
event_of-number tc3ui = refl
event_of-number uart1_rx = refl
event_of-number uart1_tx = refl
event_of-number uart1_rt = refl
event_of-number uart1_mi = refl
event_of-number uart2_rx = refl
event_of-number uart2_tx = refl
event_of-number uart2_rt = refl
event_of-number uart2_mi = refl

number_apart : (e f : Event) → e ≢ f → number e ≢ number f
number_apart e f n h =
    let p : some e ≡ some f = sym (event_of-number e) ∙ ap event_of h ∙ event_of-number f in
    let q : e ≡ f = cc in n q

pub with_queue_self : (im : Matrix) (e : Event) (cb : Ring ℕ) → (with_queue im e cb).waiting e ≡ cb
with_queue_self im e cb = rw (eq→== (number e) (number e) refl) refl

pub with_queue_other :
    (im : Matrix) (e f : Event) (cb : Ring ℕ)
    → e ≢ f
    → (with_queue im e cb).waiting f ≡ im.waiting f
with_queue_other im e f cb n = rw (ne→== (number e) (number f) (number_apart e f n)) refl

-- `im_push` for an event for which the tasks `xs` wait, fewer than 128, succeeds and puts the task
-- at the end of `xs`; the queues of other events stay as they were.
pub im_push-Holds :
    (im : Matrix) (e : Event) (xs : List ℕ) (td : ℕ)
    → Holds 128 (im.waiting e) xs
    → length xs < 128
    → (im' : Matrix) × (im_push im td (number e) ≡ some (ok, im'))
      × Holds 128 (im'.waiting e) (xs ++ (td ∷ []))
      × ((f : Event) → e ≢ f → im'.waiting f ≡ im.waiting f)
unfolding im_push
im_push-Holds im e xs td h room =
    let (c, h') = push-Holds (im.waiting e) xs td h room in
    let cb = (Ring.push 128 (im.waiting e) td).1 in
    (
      with_queue im e cb,
      rw (event_of-number e, c) refl,
      rw (with_queue_self im e cb) h',
      λ f n. with_queue_other im e f cb n,
    )

popped_ok :
    (im : Matrix) (e : Event) (td : ℕ) (x : Code × Option ℕ × Ring ℕ)
    → x.0 ≡ ok
    → x.1 ≡ some td
    → popped im e x ≡ some (td, with_queue im e x.2)
popped_ok im e td (c, o, cb) a b = rw (a, b) refl

-- `im_pop` for an event for which the task `td` and then `xs` wait returns `td` and leaves `xs`;
-- the queues of other events and the remembered events stay as they were.
pub im_pop-Holds :
    (im : Matrix) (e : Event) (xs : List ℕ) (td : ℕ)
    → Holds 128 (im.waiting e) (td ∷ xs)
    → (im' : Matrix) × (im_pop im (number e) ≡ some (td, im'))
      × Holds 128 (im'.waiting e) xs
      × ((f : Event) → e ≢ f → im'.waiting f ≡ im.waiting f)
      × (im'.stored_flag ≡ im.stored_flag)
unfolding im_pop
im_pop-Holds im e xs td h =
    let (c, o, h') = pop-Holds (im.waiting e) xs td h in
    let cb = (Ring.pop 128 (im.waiting e)).2 in
    (
      with_queue im e cb,
      rw (event_of-number e) (popped_ok im e td (Ring.pop 128 (im.waiting e)) c o),
      rw (with_queue_self im e cb) h',
      λ f n. with_queue_other im e f cb n,
      refl,
    )

pub im_eventsize-Holds :
    (im : Matrix) (e : Event) (xs : List ℕ)
    → Holds 128 (im.waiting e) xs
    → im_eventsize im (number e) ≡ some (length xs)
unfolding im_eventsize
im_eventsize-Holds im e xs h = rw (event_of-number e, h.count) refl
