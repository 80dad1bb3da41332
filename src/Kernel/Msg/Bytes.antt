-- ===== src/Kernel/Msg/Bytes.antt =====
-- The message in the receiver's memory.
use cs.Base.{ℕ, ◌+◌, ◌<◌, ◌^◌, ◌≡◌, ◌∙◌, arith}
use cs.Kernel.{Kernel, arg}
use cs.Kernel.Bytes.{Apart, load, load-store, store_outside, copy, copy_lem}
use cs.Kernel.Msg.Deliver.{message_mem}

-- The receiver's two buffers lie apart, and apart from the message.
pub record Buffers (k : Kernel) (s r : ℕ) : Type 0 where
  pub message : Apart (arg k r 8) (arg k s 12) (arg k s 8) (arg k s 12)
  pub sender : Apart (arg k r 4) 4 (arg k r 8) (arg k s 12)
  pub tid_fits : (k.tasks s).tid < 2 ^ 32

-- When the receiver's two buffers lie apart, and apart from the message, and inside memory, the
-- memory that a delivery leaves has every byte of the message in the receiver's buffer and the
-- sender's tid in the other.
pub message_mem_lem :
    (k : Kernel) (s r : ℕ)
    → Buffers k s r
    → (load (message_mem k s r) (arg k r 4) ≡ (k.tasks s).tid)
      × ((j : ℕ) → j < arg k s 12 → message_mem k s r (arg k r 8 + j) ≡ k.mem (arg k s 8 + j))
message_mem_lem k s r b =
    let a = b.sender in
    let f = a.first_fits in
    let d = a.disjoint in
    let m = copy (arg k s 12) 0 k.mem (arg k r 8) (arg k s 8) in
    (
      load-store m (arg k r 4) (k.tasks s).tid f b.tid_fits,
      λ j l.
          store_outside m (arg k r 4) (k.tasks s).tid (arg k r 8 + j) f (omega arith)
          ∙ copy_lem (arg k s 12) k.mem (arg k r 8) (arg k s 8) j b.message l,
    )
