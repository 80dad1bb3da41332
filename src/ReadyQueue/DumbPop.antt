-- ===== src/ReadyQueue/DumbPop.antt =====
-- `pq_dumb_pop`, the search from the highest priority down that `pq_pop` replaces.
use native.Mathlib.Decide.{ℕ_discrete}
use cs.Base.{
  ℕ, zero, suc, ◌≤◌, ◌<◌, ◌^◌, ◌≡◌, sym, ap, ◌∙◌, subst, arith, Option, none, some, List, [],
  length, get_elem?, set, List-cases, ◌⊎◌, inl, inr, sub32,
}
use cs.Task.{Tasks}
use cs.TaskQueue.{TaskQueue, Code, ok, tq_pop, set_next}
use cs.TaskQueue.Refine.{IsQueue, tq_pop-IsQueue}
use cs.ReadyQueue.{PriorityQueue, pq_pop, pq_dumb_pop, dumb_pop_loop, Popped}
use cs.ReadyQueue.Levels.{Levels, IsReady, total_of_nil, length-le-total}
use cs.ReadyQueue.Pop.{IsNext, pq_pop-IsReady_empty, popped, pop_run, place_of_next}

-- What a caller sees of a pop: the code, the task, the array, the queues and their number. The bits
-- are `pq_pop`'s own.
pub record View : Type 0 where
  pub code : Code
  pub task : Option ℕ
  pub array : Tasks
  pub queues : List TaskQueue
  pub number : ℕ

abbrev pub view : Popped → Option View
view none = none
view (some (c, t, ts, pq)) =
    some (record { code = c; task = t; array = ts; queues = pq.pqs; number = pq.size })

loop_skip :
    (ts : Tasks) (pq : PriorityQueue) (i : ℕ) (tq : TaskQueue)
    → get_elem? pq.pqs i ≡ some tq
    → tq.size ≡ 0
    → dumb_pop_loop ts pq (suc i) ≡ dumb_pop_loop ts pq i
unfolding dumb_pop_loop
loop_skip ts pq i tq at e = ground arith

loop_take :
    (ts ts' : Tasks) (pq : PriorityQueue) (i t : ℕ) (tq tq' : TaskQueue)
    → get_elem? pq.pqs i ≡ some tq
    → 0 < tq.size
    → tq.size < 2 ^ 30
    → tq_pop ts tq ≡ some (ok, some t, ts', tq')
    → dumb_pop_loop ts pq (suc i)
      ≡ some (ok, some t, ts', record pq { pqs = set pq.pqs i tq'; size = sub32 pq.size 1 })
unfolding dumb_pop_loop
loop_take ts ts' pq i t tq tq' at pos small run = ground arith

-- The loop passes the empty levels by.
loop_above :
    (ts : Tasks) (pq : PriorityQueue) (q : Levels)
    → IsReady ts pq q
    → (p n : ℕ) → p < n
    → n ≤ 32
    → ((r : ℕ) → p < r → r < n → q r ≡ [])
    → dumb_pop_loop ts pq n ≡ dumb_pop_loop ts pq (suc p)
loop_above ts pq q ready p zero l m a = elim l [ ]
loop_above ts pq q ready p (suc n) l m a = elim (ℕ_discrete p n) [
  | yes e ↦ ap (λ k. dumb_pop_loop ts pq (suc k)) (sym e)
  | no ne ↦
      let (tq, at, held) = ready.level n (omega arith) in
      let vacant : tq.size ≡ 0 = held.count ∙ ap length (a n (omega arith) (omega arith)) in
      loop_skip ts pq n tq at vacant
      ∙ loop_above ts pq q ready p n (omega arith) (omega arith) (λ r x y. a r x (omega arith))
]

dumb_pop_run :
    (ts : Tasks) (pq : PriorityQueue)
    → 0 < pq.size
    → pq.size < 2 ^ 30
    → pq_dumb_pop ts pq ≡ dumb_pop_loop ts pq 32
unfolding pq_dumb_pop
dumb_pop_run ts pq pos small = ground arith

pop_run_view :
    (ts ts' : Tasks) (pq : PriorityQueue) (p t : ℕ) (tq tq' : TaskQueue)
    → pq_pop ts pq ≡ some (ok, some t, ts', popped pq p tq')
    → pq_dumb_pop ts pq
      ≡ some (ok, some t, ts', record pq { pqs = set pq.pqs p tq'; size = sub32 pq.size 1 })
    → view (pq_pop ts pq) ≡ view (pq_dumb_pop ts pq)
pop_run_view ts ts' pq p t tq tq' a b = rw (a, b)

pub pq_dumb_pop_next :
    (ts : Tasks) (pq : PriorityQueue) (q : Levels) (p t : ℕ) (rest : List ℕ)
    → IsReady ts pq q
    → IsNext q p t rest
    → view (pq_pop ts pq) ≡ view (pq_dumb_pop ts pq)
pq_dumb_pop_next ts pq q p t rest ready next =
    let l = next.inside in
    let (tq, at, held) = ready.level p l in
    let (tq', run, held') = tq_pop-IsQueue ts tq t rest (subst (IsQueue ts tq) next.here held) in
    let (bit, place) = place_of_next ts pq q p t rest ready next in
    let here : 0 < length (q p) = rw next.here (omega arith) in
    let pos : 0 < pq.size = omega (arith, ready.count, length-le-total q p 32 l) in
    let small : pq.size < 2 ^ 30 = omega (arith, ready.count, ready.small) in
    pop_run_view ts (set_next ts t none) pq p t tq tq'
      (pop_run ts (set_next ts t none) pq p t tq tq' pos small bit place at run)
      (dumb_pop_run ts pq pos small
        ∙ loop_above ts pq q ready p 32 l (omega arith) next.above
        ∙ loop_take ts (set_next ts t none) pq p t tq tq' at (omega (arith, held.count))
            (omega (arith, held.count, held.small)) run)

-- A queue is empty, or some level is the highest that is not.
pub find-IsNext :
    (q : Levels) (n : ℕ)
    → n ≤ 32
    → ((r : ℕ) → n ≤ r → r < 32 → q r ≡ [])
    → ((r : ℕ) → r < 32 → q r ≡ []) ⊎ ((p : ℕ) × (t : ℕ) × (rest : List ℕ) × IsNext q p t rest)
find-IsNext q zero h a = inl (λ r l. a r (omega arith) l)
find-IsNext q (suc n) h a = elim (List-cases (q n)) [
  | inl e ↦
      find-IsNext q n (omega arith)
        (λ r m l. elim (ℕ_discrete n r) [ yes same ↦ rw (← same) e | no ne ↦ a r (omega arith) l ])
  | inr (t, rest, e) ↦ inr (n, t, rest, record { inside = omega arith; here = e; above = a })
]

-- On a queue that holds some lists, `pq_pop`, which finds the level from the bits, and
-- `pq_dumb_pop`, which searches the levels, return the same code and task and leave the same
-- tasks, queues and size.
pub pq_pop-eq-pq_dumb_pop :
    (ts : Tasks) (pq : PriorityQueue) (q : Levels)
    → IsReady ts pq q
    → view (pq_pop ts pq) ≡ view (pq_dumb_pop ts pq)
unfolding pq_dumb_pop
pq_pop-eq-pq_dumb_pop ts pq q ready =
    elim (find-IsNext q 32 (omega arith) (λ r m l. absurd (omega arith))) [
      | inl vacant ↦
          let e : pq.size ≡ 0 = omega (arith, ready.count, total_of_nil q 32 vacant) in
          rw (pq_pop-IsReady_empty ts pq q ready vacant) (ground arith)
      | inr (p, t, rest, next) ↦ pq_dumb_pop_next ts pq q p t rest ready next
    ]
