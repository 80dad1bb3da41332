-- ===== src/ReadyQueue/Push.antt =====
-- `pq_push` against the levels.
use native.Mathlib.Decide.{ℕ_discrete}
use cs.Base.{
  ℕ, suc, ◌<◌, ◌^◌, ◌≡◌, ◌≢◌, refl, sym, ◌∙◌, arith, none, some, List, [], ◌∷◌, ◌++◌, true, false,
  length-append, set, bit_or, add32, get_elem?-ge, get_elem?-replicate,
}
use cs.Base.Bits.{test_bit-bit_or, test_bit-zero}
use cs.Task.{Tasks}
use cs.TaskQueue.{ok, tq_init}
use cs.TaskQueue.Refine.{mem, mem-append, link_last, tq_push-IsQueue, link_last-Links_other}
use cs.ReadyQueue.{PriorityQueue, pq_init, pq_push}
use cs.ReadyQueue.Levels.{
  Levels, with_level, total, is_nil, IsReady, total-with_level, length-le-total, IsReady_step,
  total_of_nil,
}

-- The new queue is empty at every level.
pub pq_init-IsReady : (ts : Tasks) → IsReady ts pq_init (λ p. [])
pq_init-IsReady ts = record {
  width = refl;
  level = λ p l. (tq_init, get_elem?-replicate 32 p tq_init l, ground arith);
  bits = λ p l. test_bit-zero p;
  count = sym (total_of_nil (λ p. []) 32 (λ p l. refl));
  small = omega (arith, total_of_nil (λ p. []) 32 (λ p l. refl));
  apart = λ p r x l k ne m. refl;
}

is_nil-snoc : (xs : List ℕ) (t : ℕ) → is_nil (xs ++ (t ∷ [])) ≡ false
is_nil-snoc [] t = refl
is_nil-snoc (x ∷ xs) t = refl

other_level :
    (ts : Tasks) (pq : PriorityQueue) (q : Levels) (p t : ℕ)
    → IsReady ts pq q
    → p < 32
    → ((r : ℕ) → r < 32 → mem t (q r) ≡ false)
    → (r x : ℕ) → r < 32
    → p ≢ r
    → mem x (q p ++ (t ∷ [])) ≡ true
    → mem x (q r) ≡ false
other_level ts pq q p t ready l new r x k ne m = elim (ℕ_discrete x t) [
  | yes e ↦ rw e (new r k)
  | no n ↦ ready.apart p r x l k ne (ground (arith, mem-append x (q p) (t ∷ [])))
]

-- On a queue that holds the lists `q`, `pq_push` of a task that is in none of them, with a
-- priority below 32 and fewer than 2 ^ 30 tasks in all, succeeds, and leaves a queue that holds
-- `q` with the task at the end of the list of its priority.
pub pq_push-IsReady :
    (ts : Tasks) (pq : PriorityQueue) (q : Levels) (p t : ℕ)
    → IsReady ts pq q
    → p < 32
    → ((r : ℕ) → r < 32 → mem t (q r) ≡ false)
    → suc (total q 32) < 2 ^ 30
    → (pq' : PriorityQueue) × (pq_push ts pq p t ≡ some (ok, link_last ts (q p) t, pq'))
      × IsReady (link_last ts (q p) t) pq' (with_level q p (q p ++ (t ∷ [])))
unfolding pq_push
pq_push-IsReady ts pq q p t ready l new fits =
    let (tq, at, held) = ready.level p l in
    let (tq', run, held') =
      tq_push-IsQueue ts tq (q p) t held (new p l) (omega (arith, length-le-total q p 32 l)) in
    let grown : total (with_level q p (q p ++ (t ∷ []))) 32 ≡ suc (total q 32) =
      omega (arith, total-with_level q p (q p ++ (t ∷ [])) 32 l, length-append (q p) (t ∷ [])) in
    let pq' : PriorityQueue = record {
      pqs = set pq.pqs p tq';
      size = add32 pq.size 1;
      state = bit_or pq.state (2 ^ p);
    } in
    (
      pq',
      ground (arith, at, run),
      IsReady_step ts (link_last ts (q p) t) pq pq' q p tq' (q p ++ (t ∷ [])) l ready held'
          (λ r k ne. link_last-Links_other ts (q p) t (q r) (λ x m. ready.apart p r x l k ne m))
          (λ r x k ne m. other_level ts pq q p t ready l new r x k ne m) refl
          (λ i k. test_bit-bit_or p pq.state i ∙ rw (is_nil-snoc (q p) t))
          (omega (arith, ready.count, grown)) (omega (arith, grown)),
    )

-- On a queue that is in order, `pq_push` with the priority 32 passes the guard and goes outside
-- the array of queues.
pub pq_push_overrun :
    (ts : Tasks) (pq : PriorityQueue) (q : Levels) (t : ℕ)
    → IsReady ts pq q
    → pq_push ts pq 32 t ≡ none
unfolding pq_push
pq_push_overrun ts pq q t ready = rw (get_elem?-ge pq.pqs 32 (omega (arith, ready.width)))
