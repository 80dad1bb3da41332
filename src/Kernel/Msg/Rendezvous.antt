-- ===== src/Kernel/Msg/Rendezvous.antt =====
-- Send meets Receive, in either order.
use cs.Base.{ℕ, ◌+◌, ◌<◌, ◌≡◌, ◌≢◌, refl, sym, ap, ◌∙◌, arith, some, [], true, false, eq→==, ne→==}
use cs.Ring
use cs.Ring.{Ring, ok}
use cs.Ring.Refine.{Holds, push-Holds, pop-Holds}
use cs.Task.{ready, rpl_bl, rcv_bl, snd_bl, tid_id}
use cs.ReadyQueue.Levels.{Levels, IsReady}
use cs.Kernel.{Kernel, arg, set_status, set_ret}
use cs.Kernel.Frame.{
  Alike-trans, update-Alike, update_field, arg_same, IsReady-next, CanQueue, queued,
}
use cs.Kernel.Msg.{send_handler, receive_handler, is_alive, is_snd_bl}
use cs.Kernel.Bytes.{load}
use cs.Kernel.Msg.Bytes.{Buffers, message_mem_lem}
use cs.Kernel.Msg.Deliver.{CanDeliver, Delivered, deliver_lem, message_mem}
use cs.Kernel.Msg.Runs.{
  send_run, send_wait_run, send_blocked, receive_run, receive_wait_run, taken, send_blocked-Alike,
  send_blocked_waits, set_ret_self, set_ret_other, send_blocked_sender, send_blocked_queue,
  send_blocked_others,
}

-- `s` sends to `r`, which has not yet called Receive, and nobody else has sent to it.
pub record Meets (k : Kernel) (q : Levels) (s r : ℕ) : Type 0 where
  pub target : tid_id (arg k s 4) ≡ r
  pub in_range : r < 128
  pub sender_in_range : s < 128
  pub named : tid_id (k.tasks s).tid ≡ s
  pub apart : r ≢ s
  pub receiver_alive : is_alive (k.tasks r).status ≡ true
  pub receiver_runs : is_snd_bl (k.tasks r).status ≡ false
  pub sender_alive : is_alive (k.tasks s).status ≡ true
  pub nobody : Holds 128 (k.tasks r).send_q []
  pub checks : CanDeliver k s r
  pub can : CanQueue k q r

-- The message is with the receiver, which is ready behind the tasks of its priority, and the sender
-- waits for the reply. Both calls return 0.
pub record Exchanged (k k' : Kernel) (q : Levels) (s r : ℕ) : Type 0 where
  pub memory : k'.mem ≡ message_mem k s r
  pub receiver_ready : (k'.tasks r).status ≡ ready
  pub sender_waits : (k'.tasks s).status ≡ rpl_bl
  pub others : (i : ℕ) → i ≢ s → i ≢ r → (k'.tasks i).status ≡ (k.tasks i).status
  pub send_returns : (k'.tasks s).ret ≡ 0
  pub receive_returns : (k'.tasks r).ret ≡ 0
  pub order : IsReady k'.tasks k'.pq_tasks (queued k q r)

finished :
    (k k1 k2 : Kernel) (q : Levels) (s r j : ℕ)
    → Delivered k k1 k2 q s r
    → ((i : ℕ) → i ≢ s → i ≢ r → (k1.tasks i).status ≡ (k.tasks i).status)
    → ((set_ret k2 j 0).tasks s).ret ≡ 0
    → ((set_ret k2 j 0).tasks r).ret ≡ 0
    → Exchanged k (set_ret k2 j 0) q s r
finished k k1 k2 q s r j d same ret_s ret_r =
    let t = record (k2.tasks j) { ret = 0 } in
    let status = λ (i : ℕ). update_field (λ x. x.status) k2.tasks j t i refl in
    record {
      memory = d.memory;
      receiver_ready = status r ∙ d.receiver_ready;
      sender_waits = status s ∙ d.sender_waits;
      others = λ i n1 n2. status i ∙ d.others i n1 n2 ∙ same i n1 n2;
      send_returns = ret_s;
      receive_returns = ret_r;
      order =
          IsReady-next k2.tasks (set_ret k2 j 0).tasks k2.pq_tasks (queued k q r)
            (λ i. update_field (λ x. x.next) k2.tasks j t i refl) d.order;
    }

-- When `r` calls Receive with nobody in its send queue and `s` then sends to it, with arguments
-- that pass the checks, `r` fit to be queued, and the two buffers of `r` apart from each other and
-- from the message, both handlers return, `r` waits in between, and afterwards every byte of the
-- message is in `r`'s buffer and the tid of `s` in the other, `r` is ready behind the tasks of its
-- priority, `s` waits for the reply, no other task has changed status, and both calls return 0.
pub receive_then_send :
    (k : Kernel) (q : Levels) (s r : ℕ)
    → Meets k q s r
    → Buffers k s r
    → (k1 k2 : Kernel) × (receive_handler k r ≡ some k1)
      × ((k1.tasks r).status ≡ snd_bl)
      × (send_handler k1 s ≡ some k2)
      × Exchanged k k2 q s r
      × (load k2.mem (arg k r 4) ≡ (k.tasks s).tid)
      × ((j : ℕ) → j < arg k s 12 → k2.mem (arg k r 8 + j) ≡ k.mem (arg k s 8 + j))
receive_then_send k q s r m b =
    let k0 = set_status k r snd_bl in
    let k1 = set_ret k0 r 0 in
    let n = m.nobody.count in
    let a0 = update-Alike k r (record (k.tasks r) { status = snd_bl }) refl refl refl refl in
    let a1 = update-Alike k0 r (record (k0.tasks r) { ret = 0 }) refl refl refl refl in
    let a = Alike-trans a0 a1 in
    let (k2, run, d) = deliver_lem k k1 q s r a m.checks m.can m.apart in
    let waits : (k1.tasks r).status ≡ snd_bl = rw (eq→== r r refl) in
    let (tid_in, bytes_in) = message_mem_lem k s r b in
    let kept : (set_ret k2 s 0).mem ≡ message_mem k s r = d.memory in
    (
      k1,
      set_ret k2 s 0,
      receive_wait_run k r (sym n),
      waits,
      send_run k1 k2 s r (rw (arg_same a s 4) m.target) m.in_range waits run,
      finished k k1 k2 q s r s d (λ i n1 n2. rw (ne→== r i (λ e. n2 (sym e)))) (rw (eq→== s s refl))
          (rw (ne→== s r (λ e. m.apart (sym e))) (d.returns r ∙ rw (eq→== r r refl))),
      ap (λ x. load x (arg k r 4)) kept ∙ tid_in,
      λ j l. ap (λ x. x (arg k r 8 + j)) kept ∙ bytes_in j l,
    )

-- When `s` sends first, while `r` is alive, has not called Receive and has nobody in its send
-- queue, and `r` then calls Receive, under the same conditions, `s` waits in between and the
-- outcome is the one of the other order: the same memory, statuses, return values and ready queue.
pub send_then_receive :
    (k : Kernel) (q : Levels) (s r : ℕ)
    → Meets k q s r
    → (k1 k2 : Kernel) × (send_handler k s ≡ some k1)
      × ((k1.tasks s).status ≡ rcv_bl)
      × (receive_handler k1 r ≡ some k2)
      × Exchanged k k2 q s r
send_then_receive k q s r m =
    let tid = (k.tasks s).tid in
    let (c, h) = push-Holds (k.tasks r).send_q [] tid m.nobody (omega arith) in
    let cb = (Ring.push 128 (k.tasks r).send_q tid).1 in
    let cb' = (Ring.pop 128 cb).2 in
    let (pc, po, ph) = pop-Holds cb [] tid h in
    let k1 = send_blocked k s r cb in
    let kt = taken k1 r cb' in
    let a = send_blocked-Alike k s r cb cb' in
    let (k2, run, d) = deliver_lem k kt q s r a m.checks m.can m.apart in
    let (waits, ret_s) = send_blocked_sender k s r cb cb' m.apart in
    let n = h.count in
    (
      k1,
      set_ret k2 r 0,
      send_wait_run k s r m.target m.in_range m.receiver_alive m.receiver_runs c,
      send_blocked_waits k s r cb,
      receive_run k1 k2 s r tid cb (send_blocked_queue k s r cb m.apart) (omega arith) pc po m.named
          m.sender_in_range (ap is_alive waits) run,
      finished k kt k2 q s r r d (send_blocked_others k s r cb cb')
          (set_ret_other k2 r s 0 (λ e. m.apart (sym e)) ∙ d.returns s ∙ ret_s)
          (set_ret_self k2 r 0),
    )
