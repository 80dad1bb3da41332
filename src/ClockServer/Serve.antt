-- ===== src/ClockServer/Serve.antt =====
-- The clock server's requests.
use cs.Base.{ℕ, ◌<◌, ◌≡◌, refl, ◌∙◌, none, some, List, false, length, eq→==, lt→ltb, add32}
use cs.Task.{Tid, tid_id}
use cs.TaskQueue.Refine.{mem}
use cs.ClockQueue
use cs.ClockQueue.{ClockQueue, csq_add}
use cs.ClockQueue.Order.{insert}
use cs.ClockQueue.Refine.{IsClock, due_of}
use cs.ClockQueue.Add.{csq_add_lem}
use cs.ClockServer.{ClockServer, delay, update, wake, collect, serve}
use cs.ClockServer.Due.{Taken, collect_lem}

update_run :
    (srv : ClockServer) (from : Tid) (ys : List ℕ) (csq' : ClockQueue)
    → tid_id from < 128
    → srv.exit_flag ≡ false
    → collect 5 (add32 srv.ticks 1) srv.csq ≡ (ys, csq')
    → serve srv from update
      ≡ some (some (wake from ys), some (record srv { ticks = add32 srv.ticks 1; csq = csq' }))
unfolding serve
update_run srv from ys csq' l e run = rw (lt→ltb (tid_id from) 128 l, e, run) refl

-- On an update, the notice of a tick, when the tasks `xs` wait in the order in which they are due
-- and the server is not to exit, the server counts the tick and hands the notifier at most five
-- tasks from the front of `xs`: all of them are due, the others go on waiting, in order, and
-- either five were handed over or none of the others is due.
pub update_lem :
    (srv : ClockServer) (from : Tid) (xs : List ℕ)
    → IsClock srv.csq xs
    → tid_id from < 128
    → srv.exit_flag ≡ false
    → (ys : List ℕ) × (zs : List ℕ) × (csq' : ClockQueue) × (serve srv from update
        ≡ some (some (wake from ys), some (record srv { ticks = add32 srv.ticks 1; csq = csq' })))
      × Taken srv.csq csq' 5 (add32 srv.ticks 1) xs ys zs
update_lem srv from xs q l e =
    let (ys, zs, csq', run, t) = collect_lem 5 (add32 srv.ticks 1) srv.csq xs q in
    (ys, zs, csq', update_run srv from ys csq' l e run, t)

delay_run :
    (srv : ClockServer) (from tid : Tid) (d : ℕ) (csq' : ClockQueue)
    → tid_id from < 128
    → tid_id tid < 128
    → csq_add srv.csq from (add32 srv.ticks d) ≡ some (ClockQueue.ok, csq')
    → serve srv from (delay tid d) ≡ some (none, some (record srv { csq = csq' }))
unfolding serve
delay_run srv from tid d csq' l k run =
    rw (lt→ltb (tid_id from) 128 l, lt→ltb (tid_id tid) 128 k, run) refl

-- When a task that does not wait yet asks for a delay, both tids have indices below 128 and fewer
-- than 127 tasks wait, the server does not answer, and the task waits among the others, in the
-- order in which they are due and behind those due at the same tick, until the present tick plus
-- the delay.
pub delay_lem :
    (srv : ClockServer) (from tid : Tid) (d : ℕ) (xs : List ℕ)
    → IsClock srv.csq xs
    → tid_id from < 128
    → tid_id tid < 128
    → mem (tid_id from) xs ≡ false
    → length xs < 127
    → (csq' : ClockQueue) × (serve srv from (delay tid d)
        ≡ some (none, some (record srv { csq = csq' })))
      × IsClock csq' (insert (due_of srv.csq.nodes) (add32 srv.ticks d) (tid_id from) xs)
      × (due_of csq'.nodes (tid_id from) ≡ add32 srv.ticks d)
delay_lem srv from tid d xs q l k m room =
    let (csq', run, q', due) = csq_add_lem srv.csq xs from (add32 srv.ticks d) q l m room in
    (
      csq',
      delay_run srv from tid d csq' l k run,
      q',
      due (tid_id from) ∙ rw (eq→== (tid_id from) (tid_id from) refl) refl,
    )
