-- ===== src/ReadyQueue/Levels.antt =====
-- The queue of ready tasks against a list of tasks for each priority.
use native.Mathlib.Decide.{ℕ_discrete}
use cs.Base.{
  ℕ, zero, suc, ◌+◌, ◌≤◌, ◌<◌, ◌^◌, ◌≡◌, ◌≢◌, refl, ap, ◌∙◌, arith, some, List, [], ◌∷◌, Bool, true,
  false, not, length, if◌then◌else◌, ◌==◌, get_elem?, set, length-set, get_elem?-set_self,
  get_elem?-set_ne, eq→==, ne→==,
}
use cs.Base.Bits.{test_bit}
use cs.Task.{Tasks}
use cs.TaskQueue.{TaskQueue}
use cs.TaskQueue.Refine.{mem, IsQueue, Links}
use cs.ReadyQueue.{PriorityQueue}

abbrev pub Levels : Type 0
Levels = ℕ → List ℕ

abbrev pub with_level : Levels → ℕ → List ℕ → Levels
with_level q p ys i = if p == i then ys else q i

-- The number of tasks in the first `n` levels.
pub total : Levels → ℕ → ℕ
total q zero = 0
total q (suc n) = total q n + length (q n)

abbrev pub is_nil : List ℕ → Bool
is_nil [] = true
is_nil (x ∷ xs) = false

-- Level by level the queues hold the lists, the bits say which are not empty, and no task is in two.
pub record IsReady (ts : Tasks) (pq : PriorityQueue) (q : Levels) : Type 0 where
  pub width : length pq.pqs ≡ 32
  pub level :
      (p : ℕ) → p < 32 → (tq : TaskQueue) × (get_elem? pq.pqs p ≡ some tq) × IsQueue ts tq (q p)
  pub bits : (p : ℕ) → p < 32 → test_bit pq.state p ≡ not (is_nil (q p))
  pub count : pq.size ≡ total q 32
  pub small : total q 32 < 2 ^ 30
  pub apart : (p r x : ℕ) → p < 32 → r < 32 → p ≢ r → mem x (q p) ≡ true → mem x (q r) ≡ false

total-with_level_above :
    (q : Levels) (p : ℕ) (ys : List ℕ) (n : ℕ) → n ≤ p → total (with_level q p ys) n ≡ total q n
unfolding total
total-with_level_above q p ys zero h = refl
total-with_level_above q p ys (suc n) h =
    ground (arith, total-with_level_above q p ys n (omega arith))

pub total-with_level :
    (q : Levels) (p : ℕ) (ys : List ℕ) (n : ℕ)
    → p < n
    → total (with_level q p ys) n + length (q p) ≡ total q n + length ys
unfolding total
total-with_level q p ys zero h = elim h [ ]
total-with_level q p ys (suc n) h = elim (ℕ_discrete p n) [
  | yes e ↦
      ground (arith, total-with_level_above q p ys n (omega arith), ap (λ (k : ℕ). length (q k)) e)
  | no ne ↦ ground (arith, total-with_level q p ys n (omega arith))
]

pub length-le-total : (q : Levels) (p n : ℕ) → p < n → length (q p) ≤ total q n
unfolding total
length-le-total q p zero h = elim h [ ]
length-le-total q p (suc n) h = elim (ℕ_discrete p n) [
  | yes e ↦ rw e (omega arith)
  | no ne ↦ omega (arith, length-le-total q p n (omega arith))
]

pub total_of_nil : (q : Levels) (n : ℕ) → ((p : ℕ) → p < n → q p ≡ []) → total q n ≡ 0
unfolding total
total_of_nil q zero h = refl
total_of_nil q (suc n) h =
    omega (arith, total_of_nil q n (λ p l. h p (omega arith)), ap length (h n (omega arith)))

-- One level changes, with the array and the bit of that level: what has to be shown of each.
module _ (ts ts' : Tasks) (pq pq' : PriorityQueue) (q : Levels) (p : ℕ) (tq' : TaskQueue)
    (ys : List ℕ) (inside : p < 32) (ready : IsReady ts pq q) (queue : IsQueue ts' tq' ys)
    (others : (r : ℕ) → r < 32 → p ≢ r → Links ts (q r) → Links ts' (q r))
    (fresh : (r x : ℕ) → r < 32 → p ≢ r → mem x ys ≡ true → mem x (q r) ≡ false)
    (queues : pq'.pqs ≡ set pq.pqs p tq')
    (bit : (i : ℕ)
      → i < 32
      → test_bit pq'.state i ≡ (if p == i then not (is_nil ys) else test_bit pq.state i))
    (size : pq'.size ≡ total (with_level q p ys) 32)
    (fits : total (with_level q p ys) 32 < 2 ^ 30) where
  level_step :
      (i : ℕ)
      → i < 32
      → (tq : TaskQueue) × (get_elem? pq'.pqs i ≡ some tq) × IsQueue ts' tq (with_level q p ys i)
  level_step i l = elim (ℕ_discrete p i) [
    | yes e ↦ (
      tq',
      rw (queues, ← e) (get_elem?-set_self pq.pqs p tq' (omega (arith, ready.width))),
      rw (← e, eq→== p p refl) queue,
    )
    | no ne ↦
        let (tq, at, held) = ready.level i l in
        (
          tq,
          rw (queues, get_elem?-set_ne pq.pqs p i tq' ne) at,
          rw (ne→== p i ne) (record {
            head_at = held.head_at;
            tail_at = held.tail_at;
            count = held.count;
            links = others i l ne held.links;
            distinct = held.distinct;
            small = held.small;
          }),
        )
  ]

  bits_step : (i : ℕ) → i < 32 → test_bit pq'.state i ≡ not (is_nil (with_level q p ys i))
  bits_step i l = ground (arith, bit i l, ready.bits i l)

  apart_step :
      (i r x : ℕ)
      → i < 32
      → r < 32
      → i ≢ r
      → mem x (with_level q p ys i) ≡ true
      → mem x (with_level q p ys r) ≡ false
  apart_step i r x l k ne m = elim (ℕ_discrete p i) [
    | yes e ↦ ground (arith, fresh r x k)
    | no n1 ↦ elim (ℕ_discrete p r) [
      | yes e2 ↦ ground (arith, fresh i x l n1)
      | no n2 ↦ ground (arith, ready.apart i r x l k ne)
    ]
  ]

  pub IsReady_step : IsReady ts' pq' (with_level q p ys)
  IsReady_step = record {
    width = rw queues (length-set pq.pqs p tq' ∙ ready.width);
    level = level_step;
    bits = bits_step;
    count = size;
    small = fits;
    apart = apart_step;
  }
