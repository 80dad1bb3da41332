-- ===== src/ClockServer.antt =====
-- src/user/clockserver.c: the clock server, as a step on the requests that it receives. `none` is an
-- assert that fails, or a fault in the queue.
pub mod Due
pub mod Serve
mod Tests
use cs.Base.{
  ℕ, zero, suc, Bool, true, false, not, Option, none, some, List, [], ◌∷◌, if◌then◌else◌, ltb, ◌==◌,
  add32,
}
use cs.Task.{Tid, is_valid_tid}
use cs.ClockQueue
use cs.ClockQueue.{ClockQueue, csq_init, csq_add, csq_pop}

-- `CSReq`, with the ticks that a delay has.
pub data Request : Type 0 where
  delay until : Tid → ℕ → Request
  time update halt : Request

-- What the server replies, and to whom: an `int`, the tasks that are due, or that it stops.
pub data Answer : Type 0 where
  value : Tid → ℕ → Answer
  wake : Tid → List Tid → Answer
  stop : Tid → Answer

-- The variables that live from request to request.
pub record ClockServer : Type 0 where
  pub csq : ClockQueue
  pub ticks : ℕ
  pub reply : ℕ
  pub exit_flag : Bool
  pub not_tid : Tid

abbrev pub cs_process_num : ℕ
cs_process_num = 5

-- The loop that fills `reply_tids`, with `n` rounds to go: it is left at the first code that is not 0.
abbrev pub collected :
    ClockQueue.Code × Option Tid × ClockQueue
    → (ClockQueue → List Tid × ClockQueue)
    → List Tid × ClockQueue
collected (ClockQueue.ok, some id, csq) next = let (ids, csq') = next csq in (id ∷ ids, csq')
collected (c, id, csq) next = ([], csq)

unfoldable pub collect : ℕ → ℕ → ClockQueue → List Tid × ClockQueue
collect zero ticks csq = ([], csq)
collect (suc n) ticks csq = let next = collect n ticks in collected (csq_pop csq ticks) next

-- `ret = csq_add(...)` with `assert(ret == 0)`: the task gets no reply yet.
abbrev pub added :
    ClockServer
    → Option (ClockQueue.Code × ClockQueue)
    → Option (Option Answer × Option ClockServer)
added srv (some (ClockQueue.ok, csq)) = some (none, some (record srv { csq = csq }))
added srv r = none

abbrev pub updated : ClockServer → Tid → List Tid × ClockQueue → Option Answer × Option ClockServer
updated srv from (ids, csq) = (some (wake from ids), some (record srv { csq = csq }))

-- The answer that goes out, if any, and the server, unless it exits.
abbrev pub answer : ClockServer → Tid → Request → Option (Option Answer × Option ClockServer)
answer srv from (delay tid d) =
    if is_valid_tid tid then added srv (csq_add srv.csq from (add32 srv.ticks d)) else none
answer srv from (until tid t) =
    if t == 0
    then none
    else if not (is_valid_tid tid)
    then none
    else if ltb t srv.ticks
    then none
    else added srv (csq_add srv.csq from t)
answer srv from time = some (some (value from srv.ticks), some (record srv { reply = srv.ticks }))
answer srv from update =
    if srv.exit_flag
    then some (some (stop srv.not_tid), none)
    else let srv' = record srv { ticks = add32 srv.ticks 1 } in
      some (updated srv' from (collect cs_process_num srv'.ticks srv'.csq))
answer srv from halt = some (some (value from srv.reply), some (record srv { exit_flag = true }))

unfoldable pub serve : ClockServer → Tid → Request → Option (Option Answer × Option ClockServer)
serve srv from req = if is_valid_tid from then answer srv from req else none
