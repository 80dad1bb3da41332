-- ===== src/Kernel/Msg/Runs.antt =====
-- The ways through `send_handler` and `receive_handler`.
use cs.Base.{ℕ, ◌<◌, ◌≡◌, ◌≢◌, refl, sym, Option, some, true, false, eq→==, ne→==, lt→ltb}
use cs.Ring
use cs.Ring.{Ring, ok}
use cs.Task.{Tid, rcv_bl, snd_bl, update, tid_id}
use cs.Kernel.{Kernel, arg, set_status, set_ret}
use cs.Kernel.Frame.{Alike, Alike-trans, update-Alike}
use cs.Kernel.Msg.{deliver, send_handler, receive_handler, enqueued, dequeued, is_alive, is_snd_bl}

-- The four ways through the two handlers.
pub send_run :
    (k k' : Kernel) (s r : ℕ)
    → tid_id (arg k s 4) ≡ r
    → r < 128
    → (k.tasks r).status ≡ snd_bl
    → deliver k s r ≡ some k'
    → send_handler k s ≡ some (set_ret k' s 0)
unfolding send_handler
send_run k k' s r e l st d = rw (e, lt→ltb r 128 l, st, d)

enqueued_run :
    (k : Kernel) (r : ℕ) (x : Ring.Code × Ring Tid)
    → x.0 ≡ ok
    → enqueued k r x
      ≡ some (record k { tasks = update k.tasks r (record (k.tasks r) { send_q = x.1 }) })
enqueued_run k r (c, cb) e = rw e

abbrev pub taken : Kernel → ℕ → Ring Tid → Kernel
taken k r cb = record k { tasks = update k.tasks r (record (k.tasks r) { send_q = cb }) }

-- The kernel once the sender `s` has joined the queue of `r`, which is then `cb`.
abbrev pub send_blocked : Kernel → ℕ → ℕ → Ring Tid → Kernel
send_blocked k s r cb =
    set_ret
      (set_status (record k { tasks = update k.tasks r (record (k.tasks r) { send_q = cb }) }) s
        rcv_bl)
      s 0

pub send_wait_run :
    (k : Kernel) (s r : ℕ)
    → tid_id (arg k s 4) ≡ r
    → r < 128
    → is_alive (k.tasks r).status ≡ true
    → is_snd_bl (k.tasks r).status ≡ false
    → (Ring.push 128 (k.tasks r).send_q (k.tasks s).tid).0 ≡ ok
    → send_handler k s
      ≡ some (send_blocked k s r (Ring.push 128 (k.tasks r).send_q (k.tasks s).tid).1)
unfolding send_handler
send_wait_run k s r e l al nb p = rw (
  e,
  lt→ltb r 128 l,
  al,
  nb,
  enqueued_run k r (Ring.push 128 (k.tasks r).send_q (k.tasks s).tid) p,
)

-- The blocked sender and its receiver.
pub send_blocked_queue :
    (k : Kernel) (s r : ℕ) (cb : Ring Tid) → r ≢ s → ((send_blocked k s r cb).tasks r).send_q ≡ cb
send_blocked_queue k s r cb n = rw (ne→== s r (λ e. n (sym e)), eq→== r r refl)

pub send_blocked_waits :
    (k : Kernel) (s r : ℕ) (cb : Ring Tid) → ((send_blocked k s r cb).tasks s).status ≡ rcv_bl
send_blocked_waits k s r cb = rw (eq→== s s refl)

pub set_ret_self : (k : Kernel) (j v : ℕ) → ((set_ret k j v).tasks j).ret ≡ v
set_ret_self k j v = rw (eq→== j j refl)

pub set_ret_other :
    (k : Kernel) (j i v : ℕ) → i ≢ j → ((set_ret k j v).tasks i).ret ≡ (k.tasks i).ret
set_ret_other k j i v n = rw (ne→== j i (λ e. n (sym e)))

pub send_blocked_sender :
    (k : Kernel) (s r : ℕ) (cb cb' : Ring Tid)
    → r ≢ s
    → let t = (taken (send_blocked k s r cb) r cb').tasks s in (t.status ≡ rcv_bl) × (t.ret ≡ 0)
send_blocked_sender k s r cb cb' n =
    (rw (ne→== r s n, eq→== s s refl), rw (ne→== r s n, eq→== s s refl))

pub send_blocked_others :
    (k : Kernel) (s r : ℕ) (cb cb' : Ring Tid) (i : ℕ)
    → i ≢ s
    → i ≢ r
    → ((taken (send_blocked k s r cb) r cb').tasks i).status ≡ (k.tasks i).status
send_blocked_others k s r cb cb' i n1 n2 =
    rw (ne→== r i (λ e. n2 (sym e)), ne→== s i (λ e. n1 (sym e)))

pub send_blocked-Alike :
    (k : Kernel) (s r : ℕ) (cb cb' : Ring Tid) → Alike k (taken (send_blocked k s r cb) r cb')
send_blocked-Alike k s r cb cb' =
    let kq = record k { tasks = update k.tasks r (record (k.tasks r) { send_q = cb }) } in
    let kb = set_status kq s rcv_bl in
    let k1 = send_blocked k s r cb in
    let a0 = update-Alike k r (record (k.tasks r) { send_q = cb }) refl refl refl refl in
    let a1 = update-Alike kq s (record (kq.tasks s) { status = rcv_bl }) refl refl refl refl in
    let a2 = update-Alike kb s (record (kb.tasks s) { ret = 0 }) refl refl refl refl in
    let a3 = update-Alike k1 r (record (k1.tasks r) { send_q = cb' }) refl refl refl refl in
    Alike-trans (Alike-trans (Alike-trans a0 a1) a2) a3

dequeued_run :
    (k : Kernel) (r : ℕ) (tid : Tid) (x : Ring.Code × Option Tid × Ring Tid)
    → x.0 ≡ ok
    → x.1 ≡ some tid
    → dequeued k r x
      ≡ some (tid, record k { tasks = update k.tasks r (record (k.tasks r) { send_q = x.2 }) })
dequeued_run k r tid (c, o, cb) e f = rw (e, f)

pub receive_run :
    (k k' : Kernel) (s r : ℕ) (tid : Tid) (cb : Ring Tid)
    → (k.tasks r).send_q ≡ cb
    → cb.size ≢ 0
    → (Ring.pop 128 cb).0 ≡ ok
    → (Ring.pop 128 cb).1 ≡ some tid
    → tid_id tid ≡ s
    → s < 128
    → is_alive ((taken k r (Ring.pop 128 cb).2).tasks s).status ≡ true
    → deliver (taken k r (Ring.pop 128 cb).2) s r ≡ some k'
    → receive_handler k r ≡ some (set_ret k' r 0)
unfolding receive_handler
receive_run k k' s r tid cb sq ne c o e l al d =
    rw
      (sq, ne→== cb.size 0 ne, dequeued_run k r tid (Ring.pop 128 cb) c o, e, lt→ltb s 128 l, al, d)

pub receive_wait_run :
    (k : Kernel) (r : ℕ)
    → (k.tasks r).send_q.size ≡ 0
    → receive_handler k r ≡ some (set_ret (set_status k r snd_bl) r 0)
unfolding receive_handler
receive_wait_run k r e = rw (eq→== (k.tasks r).send_q.size 0 e)
