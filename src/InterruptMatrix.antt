-- ===== src/InterruptMatrix.antt =====
-- src/lib/task/interrupt_matrix.c and the events of include/types.h: for each interrupt a queue of
-- the tasks that wait for it, and the interrupts that came while none did. `none` is a KASSERT that
-- fails, or an index outside `stored_flag`.
pub mod Waiting
use cs.Base.{
  ℕ, zero, suc, ◌+◌, Bool, true, false, Option, none, some, List, [], ◌∷◌, if◌then◌else◌, ltb, ◌==◌,
  add32,
}
use cs.Ring
use cs.Ring.{Ring, Code, ok}

-- The events that have a queue.
pub data Event : Type 0 where
  tc1ui tc3ui uart1_rx uart1_tx uart1_rt uart1_mi uart2_rx uart2_tx uart2_rt uart2_mi : Event

-- The numbers of `enum InterruptEvent`.
abbrev pub number : Event → ℕ
number tc1ui = 4
number tc3ui = 51
number uart1_rx = 521
number uart1_tx = 522
number uart1_rt = 523
number uart1_mi = 524
number uart2_rx = 541
number uart2_tx = 542
number uart2_rt = 543
number uart2_mi = 544

-- The case of a `switch` that a number takes; `none` is the default.
unfoldable pub event_of : ℕ → Option Event
event_of n =
    if n == 4
    then some tc1ui
    else if n == 51
    then some tc3ui
    else if n == 521
    then some uart1_rx
    else if n == 522
    then some uart1_tx
    else if n == 523
    then some uart1_rt
    else if n == 524
    then some uart1_mi
    else if n == 541
    then some uart2_rx
    else if n == 542
    then some uart2_tx
    else if n == 543
    then some uart2_rt
    else if n == 544
    then some uart2_mi
    else none

-- The switch, whose default is a `KASSERT` that fails.
abbrev pub at_event : {B : Type 0} → Option Event → (Event → Option B) → Option B
at_event none f = none
at_event (some e) f = f e

abbrev pub irq_max_size : ℕ
irq_max_size = 128

abbrev pub interrupt_size : ℕ
interrupt_size = 1024

-- A queue for each event, and the array of flags.
pub record Matrix : Type 0 where
  pub waiting : Event → Ring ℕ
  pub stored_flag : ℕ → ℕ

abbrev pub same_event : Event → Event → Bool
same_event a b = number a == number b

abbrev pub with_queue : Matrix → Event → Ring ℕ → Matrix
with_queue im e cb = record im { waiting = λ f. if same_event e f then cb else im.waiting f }

unfoldable pub im_init : Matrix → Matrix
im_init im = record {
  waiting = λ e. Ring.init (im.waiting e);
  stored_flag = λ i. if ltb i interrupt_size then 0 else im.stored_flag i;
}

-- The code of the buffer is returned, and the new matrix.
unfoldable pub im_push : Matrix → ℕ → ℕ → Option (Code × Matrix)
im_push im td ie =
    at_event (event_of ie)
      (λ e. let (c, cb) = Ring.push irq_max_size (im.waiting e) td in some (c, with_queue im e cb))

-- `KASSERT(r == 0)`.
abbrev pub popped : Matrix → Event → Code × Option ℕ × Ring ℕ → Option (ℕ × Matrix)
popped im e (ok, some td, cb) = some (td, with_queue im e cb)
popped im e (c, td, cb) = none

unfoldable pub im_pop : Matrix → ℕ → Option (ℕ × Matrix)
im_pop im ie = at_event (event_of ie) (λ e. popped im e (Ring.pop irq_max_size (im.waiting e)))

unfoldable pub im_eventsize : Matrix → ℕ → Option ℕ
im_eventsize im ie = at_event (event_of ie) (λ e. some (im.waiting e).size)

-- `remove_assert`, `store_assert` and `is_interrupt_stored` of the interrupt handler.
abbrev pub set_flag : Matrix → ℕ → ℕ → Option Matrix
set_flag im ie v =
    if ltb ie interrupt_size
    then some (record im { stored_flag = λ i. if ie == i then v else im.stored_flag i })
    else none

unfoldable pub remove_assert : Matrix → ℕ → Option Matrix
remove_assert im ie = set_flag im ie 0

unfoldable pub store_assert : Matrix → ℕ → Option Matrix
store_assert im ie = set_flag im ie (add32 (im.stored_flag ie) 1)

unfoldable pub is_interrupt_stored : Matrix → ℕ → Option Bool
is_interrupt_stored im ie =
    if ltb ie interrupt_size then some (if im.stored_flag ie == 0 then false else true) else none
