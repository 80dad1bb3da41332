-- ===== src/ReadyQueue/Pop.antt =====
-- `pq_pop` against the levels: it takes the oldest task of the highest level that has one.
use native.Mathlib.Decide.{ℕ_discrete}
use cs.Base.{
  ℕ, zero, suc, ◌+◌, ◌-◌, ◌<◌, ◌^◌, ◌≡◌, refl, ap, ◌∙◌, subst, arith, none, some, List, [], ◌∷◌,
  true, false, not, length, if◌then◌else◌, ◌==◌, get_elem?, set, bit_xor, sub32, eq→==, ne→==,
}
use cs.Base.Bits.{test_bit, test_bit-bit_xor, test_bit-zero}
use cs.Task.{Tasks}
use cs.TaskQueue.{TaskQueue, ok, empty, tq_pop, set_next}
use cs.TaskQueue.Refine.{IsQueue, set_next-Links, tq_pop-IsQueue}
use cs.ReadyQueue.{PriorityQueue, pq_pop, clz}
use cs.ReadyQueue.Levels.{
  Levels, with_level, total, is_nil, IsReady, total-with_level, IsReady_step, total_of_nil,
}

-- `t` is the oldest task of level `p`, with `rest` behind it, and the levels above are empty.
pub record IsNext (q : Levels) (p t : ℕ) (rest : List ℕ) : Type 0 where
  pub inside : p < 32
  pub here : q p ≡ t ∷ rest
  pub above : (r : ℕ) → p < r → r < 32 → q r ≡ []

-- The highest bit that is set.
clz_lem :
    (k s p : ℕ)
    → p < k
    → test_bit s p ≡ true
    → ((r : ℕ) → p < r → r < k → test_bit s r ≡ false)
    → clz k s + p + 1 ≡ k
unfolding clz
clz_lem zero s p l h a = elim l [ ]
clz_lem (suc k) s p l h a = elim (ℕ_discrete p k) [
  | yes e ↦ let b : test_bit s k ≡ true = rw e at h in rw b (omega arith)
  | no ne ↦
      let ih = clz_lem k s p (omega arith) h (λ r m n. a r m (omega arith)) in
      rw (a k (omega arith) (omega arith)) (omega (arith, ih))
]

-- The queue after a pop of level `p` that leaves its task queue as `tq'`.
abbrev pub popped : PriorityQueue → ℕ → TaskQueue → PriorityQueue
popped pq p tq' = record {
  pqs = set pq.pqs p tq';
  size = sub32 pq.size 1;
  state = if tq'.size == 0 then bit_xor pq.state (2 ^ p) else pq.state;
}

state_of_bit : (s p : ℕ) → test_bit s p ≡ true → (s == 0) ≡ false
state_of_bit zero p h = let z = test_bit-zero p in cc
state_of_bit (suc s) p h = ground arith

pub pop_run :
    (ts ts' : Tasks) (pq : PriorityQueue) (p t : ℕ) (tq tq' : TaskQueue)
    → 0 < pq.size
    → pq.size < 2 ^ 30
    → test_bit pq.state p ≡ true
    → clz 32 pq.state + p + 1 ≡ 32
    → get_elem? pq.pqs p ≡ some tq
    → tq_pop ts tq ≡ some (ok, some t, ts', tq')
    → pq_pop ts pq ≡ some (ok, some t, ts', popped pq p tq')
unfolding pq_pop
pop_run ts ts' pq p t tq tq' pos small bit place at run =
    let e : 31 - clz 32 pq.state ≡ p = omega arith in
    rw (state_of_bit pq.state p bit, e, at, run) (ground arith)

-- `top` is the highest level with a task: what the bits say.
pub place_of_next :
    (ts : Tasks) (pq : PriorityQueue) (q : Levels) (p t : ℕ) (rest : List ℕ)
    → IsReady ts pq q
    → IsNext q p t rest
    → (test_bit pq.state p ≡ true) × (clz 32 pq.state + p + 1 ≡ 32)
place_of_next ts pq q p t rest ready next =
    let h : test_bit pq.state p ≡ true =
      ready.bits p next.inside ∙ ap (λ xs. not (is_nil xs)) next.here in
    (
      h,
      clz_lem 32 pq.state p next.inside h
          (λ r m n. ready.bits r n ∙ ap (λ xs. not (is_nil xs)) (next.above r m n)),
    )

popped_bits :
    (pq : PriorityQueue) (p : ℕ) (tq' : TaskQueue) (rest : List ℕ)
    → tq'.size ≡ length rest
    → test_bit pq.state p ≡ true
    → (i : ℕ)
    → test_bit (popped pq p tq').state i
      ≡ (if p == i then not (is_nil rest) else test_bit pq.state i)
popped_bits pq p tq' [] n b i = elim (ℕ_discrete p i) [
  | yes e ↦
      rw (eq→== tq'.size 0 n, test_bit-bit_xor)
        (ground (arith, ap (λ (k : ℕ). test_bit pq.state k) e))
  | no ne ↦ rw (eq→== tq'.size 0 n, test_bit-bit_xor) (ground arith)
]
popped_bits pq p tq' (x ∷ xs) n b i = elim (ℕ_discrete p i) [
  | yes e ↦
      rw (ne→== tq'.size 0 (omega arith)) (ground (arith, ap (λ (k : ℕ). test_bit pq.state k) e))
  | no ne ↦ rw (ne→== tq'.size 0 (omega arith)) (ground arith)
]

-- On a queue that holds the lists `q`, level by level, with `p` the highest level that is not
-- empty, `pq_pop` returns the oldest task of level `p`, unlinks it, and leaves a queue that holds
-- `q` with that task taken from level `p`.
pub pq_pop-IsReady :
    (ts : Tasks) (pq : PriorityQueue) (q : Levels) (p t : ℕ) (rest : List ℕ)
    → IsReady ts pq q
    → IsNext q p t rest
    → (pq' : PriorityQueue) × (pq_pop ts pq ≡ some (ok, some t, set_next ts t none, pq'))
      × IsReady (set_next ts t none) pq' (with_level q p rest)
pq_pop-IsReady ts pq q p t rest ready next =
    let l = next.inside in
    let (tq, at, held) = ready.level p l in
    let (tq', run, held') = tq_pop-IsQueue ts tq t rest (subst (IsQueue ts tq) next.here held) in
    let shrunk : total (with_level q p rest) 32 + 1 ≡ total q 32 =
      omega (arith, total-with_level q p rest 32 l, ap length next.here) in
    let (bit, place) = place_of_next ts pq q p t rest ready next in
    (
      popped pq p tq',
      pop_run ts (set_next ts t none) pq p t tq tq' (omega (arith, ready.count))
          (omega (arith, ready.count, ready.small)) bit place at run,
      IsReady_step ts (set_next ts t none) pq (popped pq p tq') q p tq' rest l ready held'
          (λ r k ne.
            set_next-Links ts t none (q r) (ready.apart p r t l k ne (rw next.here (ground arith))))
          (λ r x k ne m. ready.apart p r x l k ne (rw next.here (ground arith))) refl
          (λ i k. popped_bits pq p tq' rest held'.count bit i)
          (omega (arith, ready.count, shrunk, ready.small)) (omega (arith, shrunk, ready.small)),
    )

-- With no task at any level `pq_pop` says so.
pub pq_pop-IsReady_empty :
    (ts : Tasks) (pq : PriorityQueue) (q : Levels)
    → IsReady ts pq q
    → ((p : ℕ) → p < 32 → q p ≡ [])
    → pq_pop ts pq ≡ some (empty, none, ts, pq)
unfolding pq_pop
pq_pop-IsReady_empty ts pq q ready none_left =
    let e : pq.size ≡ 0 = omega (arith, ready.count, total_of_nil q 32 none_left) in ground arith
