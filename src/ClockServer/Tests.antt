-- ===== src/ClockServer/Tests.antt =====
-- A clock server at tick 9, for which task 3 waits until tick 10.
use cs.Base.{ℕ, ◌≡◌, refl, arith, none, some, List, [], ◌∷◌, false, if◌then◌else◌, ◌==◌}
use cs.ClockQueue
use cs.ClockQueue.{ClockQueue, csq_init, csq_add, csq_pop}
use cs.ClockQueue.Order.{insert}
use cs.ClockQueue.Refine.{IsClock, due_of}
use cs.ClockQueue.Add.{csq_add_lem}
use cs.ClockServer.{ClockServer, delay, update, wake, serve}
use cs.ClockServer.Due.{Taken}
use cs.ClockServer.Serve.{update_lem, delay_lem}

abbrev nobody : ClockQueue
nobody = record { size = 0; nodes = λ i. record { tid = i; ticks = 0; next = none }; head = none }

nobody-IsClock : IsClock nobody []
nobody-IsClock = record {
  chain = refl;
  count = refl;
  distinct = tt;
  sorted = tt;
  named = λ i l. refl;
  inside = λ i m. ground arith;
  room = omega arith;
}

csq_add_lem_example :
    (csq : ClockQueue) × (csq_add nobody 65539 10 ≡ some (ClockQueue.ok, csq))
    × IsClock csq (3 ∷ [])
    × ((j : ℕ) → (csq.nodes j).ticks ≡ (if 3 == j then 10 else 0))
csq_add_lem_example = csq_add_lem nobody [] 65539 10 nobody-IsClock (omega arith) refl (omega arith)

abbrev one_waits :
    (csq : ClockQueue) × (csq_add nobody 65539 10 ≡ some (ClockQueue.ok, csq))
    × IsClock csq (3 ∷ [])
    × ((j : ℕ) → (csq.nodes j).ticks ≡ (if 3 == j then 10 else 0))
one_waits = csq_add_lem nobody [] 65539 10 nobody-IsClock (omega arith) refl (omega arith)

abbrev server : ClockServer
server = record { csq = one_waits.0; ticks = 9; reply = 0; exit_flag = false; not_tid = 7 }

update_lem_example :
    (ys : List ℕ) × (zs : List ℕ) × (csq : ClockQueue) × (serve server 7 update
      ≡ some (some (wake 7 ys), some (record server { ticks = 10; csq = csq })))
    × Taken server.csq csq 5 10 (3 ∷ []) ys zs
update_lem_example = update_lem server 7 (3 ∷ []) one_waits.2 (omega arith) refl

delay_lem_example :
    (csq : ClockQueue) × (serve server 4 (delay 4 20)
      ≡ some (none, some (record server { csq = csq })))
    × IsClock csq (insert (due_of server.csq.nodes) 29 4 (3 ∷ []))
    × (due_of csq.nodes 4 ≡ 29)
delay_lem_example =
    delay_lem server 4 4 20 (3 ∷ []) one_waits.2 (omega arith) (omega arith) refl (omega arith)
