-- ===== src/Kernel/Msg.antt =====
-- src/kernel/handlers/msg.c: Send, Receive and Reply.
pub mod Deliver
pub mod Runs
pub mod Rendezvous
pub mod Bytes
pub mod Reply
use cs.Base.{
  ℕ, ◌+◌, ◌-◌, ◌*◌, Bool, true, false, not, ◌&&◌, Option, none, some, if◌then◌else◌, ltb, leb, ◌==◌,
  add32, sub32, is_negative,
}
use cs.Ring
use cs.Ring.{Ring, ok}
use cs.Task.{
  Task, Tasks, Tid, Status, active, ready, blocked, uninit, zombie, rcv_bl, snd_bl, rpl_bl, tid_id,
  update, max_task, is_valid_id,
}
use cs.Kernel.Bytes.{load, store, copy}
use cs.Kernel.{Kernel, ◌>>=◌, ◌>>◌, kassert, is_valid_user_p, arg, set_status, set_ret, make_ready}

abbrev pub is_alive : Status → Bool
is_alive uninit = false
is_alive zombie = false
is_alive s = true

abbrev pub is_snd_bl : Status → Bool
is_snd_bl snd_bl = true
is_snd_bl s = false

abbrev pub is_rpl_bl : Status → Bool
is_rpl_bl rpl_bl = true
is_rpl_bl s = false

abbrev pub is_ready : Status → Bool
is_ready ready = true
is_ready s = false

-- `msg_len > 0 && msg_len < 5000`, of an `int`.
abbrev pub valid_length : ℕ → Bool
valid_length n = ltb 0 n && ltb n 5000

-- The steps 1 to 4 that `send_handler` and `receive_handler` both have: the message and the sender's
-- tid go to the receiver `r`, which becomes ready, and the sender `s` waits for the reply.
unfoldable pub deliver : Kernel → ℕ → ℕ → Option Kernel
deliver k s r = do
  let smsg = arg k s 8
  let msg_len = arg k s 12
  kassert (not (smsg == 0))
  kassert (is_valid_user_p (k.tasks s).tid smsg)
  kassert (valid_length msg_len)
  let rtid = arg k r 4
  let rmsg = arg k r 8
  kassert (is_valid_user_p (k.tasks r).tid rtid)
  kassert (is_valid_user_p (k.tasks r).tid rmsg)
  kassert (not (rmsg == 0))
  let k1 = record k { mem = store (copy msg_len 0 k.mem rmsg smsg) rtid (k.tasks s).tid }
  k2 ← make_ready (set_status k1 r ready) r
  some (set_status k2 s rpl_bl)

-- The sender joins the receiver's queue. `r = tid_cb_push(...)` with `KASSERT(r == 0)`.
abbrev pub enqueued : Kernel → ℕ → Ring.Code × Ring Tid → Option Kernel
enqueued k r (ok, q) =
    some (record k { tasks = update k.tasks r (record (k.tasks r) { send_q = q }) })
enqueued k r (c, q) = none

unfoldable pub send_handler : Kernel → ℕ → Option Kernel
send_handler k s = do
  let r = tid_id (arg k s 4)
  kassert (is_valid_id r)
  kassert (is_alive (k.tasks r).status)
  k1 ←
      if is_snd_bl (k.tasks r).status
      then deliver k s r
      else enqueued k r (Ring.push max_task (k.tasks r).send_q (k.tasks s).tid) >>= λ k2.
          some (set_status k2 s rcv_bl)
  some (set_ret k1 s 0)

-- The oldest sender leaves the queue. `r = tid_cb_pop(...)` with `KASSERT(r == 0)`.
abbrev pub dequeued : Kernel → ℕ → Ring.Code × Option Tid × Ring Tid → Option (Tid × Kernel)
dequeued k r (ok, some tid, q) =
    some (tid, record k { tasks = update k.tasks r (record (k.tasks r) { send_q = q }) })
dequeued k r (c, tid, q) = none

unfoldable pub receive_handler : Kernel → ℕ → Option Kernel
receive_handler k r = do
  k1 ← if (k.tasks r).send_q.size == 0 then some (set_status k r snd_bl) else do
    (tid, k2) ← dequeued k r (Ring.pop max_task (k.tasks r).send_q)
    kassert (is_valid_id (tid_id tid))
    kassert (is_alive (k2.tasks (tid_id tid)).status)
    deliver k2 (tid_id tid) r
  some (set_ret k1 r 0)

-- `r` replies to the task whose tid is its first argument.
unfoldable pub reply_handler : Kernel → ℕ → Option Kernel
reply_handler k r = do
  let s = tid_id (arg k r 4)
  let rreply = arg k r 8
  let msg_len = arg k r 12
  kassert (is_valid_id s)
  kassert (is_valid_user_p (k.tasks r).tid rreply)
  kassert (valid_length msg_len)
  let sreply = arg k s 16
  kassert (is_ready (k.tasks r).status)
  kassert (is_rpl_bl (k.tasks s).status)
  kassert (is_valid_user_p (k.tasks s).tid sreply)
  let k1 = record k { mem = copy msg_len 0 k.mem sreply rreply }
  k2 ← make_ready (set_status k1 s ready) s
  make_ready (set_ret (set_status k2 r ready) r 0) r
