-- ===== src/ClockQueue/Pop.antt =====
-- `csq_pop` against the list of the tasks that wait.
use cs.Base.{ℕ, ◌≤◌, ◌<◌, ◌≡◌, refl, arith, none, some, List, [], ◌∷◌, lt→ltb, le→ltb, eq→==, sub32}
use cs.ClockQueue.{ClockQueue, ok, not_ready, empty, csq_pop}
use cs.ClockQueue.Order.{Sorted-rest}
use cs.ClockQueue.Refine.{due_of, IsClock}

-- On a queue in which the task `x` and then `xs` wait in the order in which they are due, with `x`
-- due no later than now, `csq_pop` returns `x` and leaves a queue in which `xs` wait.
pub csq_pop-IsClock :
    (csq : ClockQueue) (x : ℕ) (xs : List ℕ) (now : ℕ)
    → IsClock csq (x ∷ xs)
    → due_of csq.nodes x ≤ now
    → (csq' : ClockQueue) × (csq_pop csq now ≡ (ok, some x, csq'))
      × IsClock csq' xs
      × (csq'.nodes ≡ csq.nodes)
unfolding csq_pop
csq_pop-IsClock csq x xs now q due =
    let n = q.count in
    let r = q.room in
    (
      record csq { head = (csq.nodes x).next; size = sub32 csq.size 1 },
      rw
          (
            q.chain.0,
            le→ltb now (csq.nodes x).ticks due,
            q.named x (q.inside x (rw (eq→== x x refl) refl)),
          )
          refl,
      record {
        chain = q.chain.1;
        count = omega arith;
        distinct = q.distinct.1;
        sorted = Sorted-rest (due_of csq.nodes) x xs q.sorted;
        named = q.named;
        inside = λ i h. q.inside i (ground arith);
        room = omega arith;
      },
      refl,
    )

-- Before that it stays.
pub csq_pop-IsClock_early :
    (csq : ClockQueue) (x : ℕ) (xs : List ℕ) (now : ℕ)
    → IsClock csq (x ∷ xs)
    → now < due_of csq.nodes x
    → csq_pop csq now ≡ (not_ready, none, csq)
unfolding csq_pop
csq_pop-IsClock_early csq x xs now q early =
    rw (q.chain.0, lt→ltb now (csq.nodes x).ticks early) refl

pub csq_pop-IsClock_empty :
    (csq : ClockQueue) (now : ℕ) → IsClock csq [] → csq_pop csq now ≡ (empty, none, csq)
unfolding csq_pop
csq_pop-IsClock_empty csq now q = rw q.chain refl
