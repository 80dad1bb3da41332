-- ===== src/Kernel/Interrupt.antt =====
-- src/kernel/handlers/interrupt.c: tasks that wait for events, and hardware interrupts.
pub mod Wake
pub mod Register
pub mod First
use cs.Base.{
  ℕ, zero, suc, ◌+◌, ◌-◌, ◌/◌, ◌%◌, ◌^◌, Bool, true, false, not, ◌&&◌, ◌||◌, Option, none, some,
  List, [], ◌∷◌, if◌then◌else◌, ltb, ◌==◌, bit_and, u32_mod,
}
use cs.Base.Bits.{test_bit}
use cs.InterruptMatrix.{
  Event, tc1ui, tc3ui, uart1_rx, uart1_tx, uart1_rt, uart1_mi, uart2_rx, uart2_tx, uart2_rt,
  uart2_mi, number, event_of, at_event, Matrix, im_push, im_pop, im_eventsize, remove_assert,
  store_assert, is_interrupt_stored,
}
use cs.Task.{Tasks}
use cs.Kernel.{Kernel, ◌>>=◌, ◌>>◌, kassert, arg, set_ret, make_ready}

abbrev timer1_base : ℕ
timer1_base = 0x80810000

abbrev timer3_base : ℕ
timer3_base = 0x80810080

abbrev uart1_base : ℕ
uart1_base = 0x808c0000

abbrev uart2_base : ℕ
uart2_base = 0x808d0000

abbrev vic1_base : ℕ
vic1_base = 0x800b0000

abbrev vic2_base : ℕ
vic2_base = 0x800c0000

-- `WakePriority`: the order in which events are looked at.
abbrev pub wake_priority : List ℕ
wake_priority =
    number uart2_tx
    ∷ number uart2_rx
    ∷ number tc1ui
    ∷ number tc3ui
    ∷ number uart1_tx
    ∷ number uart1_rx
    ∷ number uart1_rt
    ∷ number uart1_mi
    ∷ number uart2_rt
    ∷ number uart2_mi
    ∷ []

-- The value of the timer, and 0 for a UART.
abbrev pub event_value : (ℕ → ℕ) → Event → ℕ
event_value io tc1ui = io (timer1_base + 4)
event_value io tc3ui = io (timer3_base + 4)
event_value io e = 0

unfoldable pub get_interrupt_ret : (ℕ → ℕ) → ℕ → Option ℕ
get_interrupt_ret io ie = at_event (event_of ie) (λ e. some (event_value io e))

abbrev write : (ℕ → ℕ) → ℕ → ℕ → ℕ → ℕ
write io a v j = if a == j then v else io j

-- `*(int *)(a) &= ~(1 << b)`
abbrev clear_bit : (ℕ → ℕ) → ℕ → ℕ → ℕ → ℕ
clear_bit io a b = write io a (bit_and (io a) (u32_mod - 1 - 2 ^ b))

abbrev pub clear_event : (ℕ → ℕ) → Event → ℕ → ℕ
clear_event io tc1ui = write io (timer1_base + 0xc) 1
clear_event io tc3ui = write io (timer3_base + 0xc) 1
clear_event io uart2_tx = clear_bit io (uart2_base + 0x14) 5
clear_event io uart2_rx = clear_bit io (uart2_base + 0x14) 4
clear_event io uart2_rt = clear_bit io (uart2_base + 0x14) 6
clear_event io uart2_mi = write (clear_bit io (uart2_base + 0x14) 3) (uart2_base + 0x1c) 1
clear_event io uart1_tx = clear_bit io (uart1_base + 0x14) 5
clear_event io uart1_rx = clear_bit io (uart1_base + 0x14) 4
clear_event io uart1_rt = clear_bit io (uart1_base + 0x14) 6
clear_event io uart1_mi = write (clear_bit io (uart1_base + 0x14) 3) (uart1_base + 0x1c) 1

unfoldable pub clear_interrupt : (ℕ → ℕ) → ℕ → Option (ℕ → ℕ)
clear_interrupt io ie = at_event (event_of ie) (λ e. some (clear_event io e))

-- A UART raises one line of VIC2; the bit of its interrupt register says why.
abbrev uart_asserted : (ℕ → ℕ) → ℕ → ℕ → ℕ → Bool
uart_asserted io line base reason =
    test_bit (io vic2_base) line && test_bit (io (base + 0x1c)) reason

abbrev event_asserted : (ℕ → ℕ) → Event → Bool
event_asserted io tc1ui = test_bit (io vic1_base) 4
event_asserted io tc3ui = test_bit (io vic2_base) 19
event_asserted io uart2_tx = uart_asserted io 22 uart2_base 2
event_asserted io uart2_rx = uart_asserted io 22 uart2_base 1
event_asserted io uart2_rt = uart_asserted io 22 uart2_base 3
event_asserted io uart2_mi = uart_asserted io 22 uart2_base 0
event_asserted io uart1_tx = uart_asserted io 20 uart1_base 2
event_asserted io uart1_rx = uart_asserted io 20 uart1_base 1
event_asserted io uart1_rt = uart_asserted io 20 uart1_base 3
event_asserted io uart1_mi = uart_asserted io 20 uart1_base 0

-- Below 32 the number is a bit of VIC1, below 64 one of VIC2.
unfoldable pub is_interrupt_asserted : (ℕ → ℕ) → ℕ → Option Bool
is_interrupt_asserted io bit =
    if ltb bit 32
    then some (test_bit (io vic1_base) bit)
    else if ltb bit 64
    then some (test_bit (io vic2_base) (bit - 32))
    else at_event (event_of bit) (λ e. some (event_asserted io e))

abbrev pub set_im : Kernel → Matrix → Kernel
set_im k im = record k { im_tasks = im }

-- The loop of `wakeall`, on fuel: one more than the tasks that wait is enough.
unfoldable pub wake_loop : ℕ → Kernel → ℕ → Option Kernel
wake_loop zero k ie = none
wake_loop (suc fuel) k ie = do
  let next = wake_loop fuel
  size ← im_eventsize k.im_tasks ie
  if size == 0 then some k else do
    (td, im) ← im_pop k.im_tasks ie
    ret ← get_interrupt_ret k.io ie
    k1 ← make_ready (set_ret (set_im k im) td ret) td
    next k1 ie

unfoldable pub wakeall : Kernel → ℕ → Option Kernel
unfolding wake_loop
wakeall k ie = do size ← im_eventsize k.im_tasks ie; wake_loop (suc size) k ie

-- The code of `im_push` is not looked at.
unfoldable pub event_register : Kernel → ℕ → Option Kernel
event_register k i = do
  let ie = arg k i 4
  stored ← is_interrupt_stored k.im_tasks ie
  if stored
      then (do
        ret ← get_interrupt_ret k.io ie
        k1 ← make_ready (set_ret k i ret) i
        im ← remove_assert k1.im_tasks ie
        some (set_im k1 im))
      else (do (c, im) ← im_push k.im_tasks i ie; some (set_im k im))

-- The loop of `event_wake` over the events that are left. It returns after the first event that a
-- task waits for; one that nobody waits for is remembered.
unfoldable pub event_wake_from : List ℕ → Kernel → Option Kernel
event_wake_from [] k = some k
event_wake_from (ie ∷ rest) k = do
  let next = event_wake_from rest
  asserted ← is_interrupt_asserted k.io ie
  stored ← is_interrupt_stored k.im_tasks ie
  if not (asserted || stored) then next k else (do
    size ← im_eventsize k.im_tasks ie
    if ltb 0 size
        then (do
          k1 ← wakeall k ie
          io ← clear_interrupt k1.io ie
          im ← remove_assert k1.im_tasks ie
          some (record k1 { io = io; im_tasks = im }))
        else (do
          im ← store_assert k.im_tasks ie
          io ← clear_interrupt k.io ie
          next (record k { io = io; im_tasks = im })))

unfoldable pub event_wake : Kernel → Option Kernel
unfolding event_wake_from
event_wake k = event_wake_from wake_priority k
