-- ===== src/TaskQueue/Refine.antt =====
-- A task queue against the list of the tasks in it, oldest first.
use cs.Base.{
  ℕ, suc, ◌<◌, ◌^◌, ◌≡◌, refl, sym, ◌∙◌, arith, Option, none, some, List, [], ◌∷◌, ◌++◌, Bool, true,
  false, ◌||◌, length, length-append, ◌==◌,
}
use cs.Task.{Tasks}
use cs.TaskQueue.{TaskQueue, ok, empty, tq_init, set_next, tq_push, tq_pop}

abbrev pub mem : ℕ → List ℕ → Bool
mem x [] = false
mem x (y ∷ ys) = x == y || mem x ys

abbrev pub first : List ℕ → Option ℕ
first [] = none
first (x ∷ xs) = some x

abbrev pub last : List ℕ → Option ℕ
last [] = none
last (x ∷ []) = some x
last (x ∷ y ∷ ys) = last (y ∷ ys)

-- Each task's `next` is the task after it; the last one's may be anything.
abbrev pub Links : Tasks → List ℕ → Type 0
Links ts [] = Unit {0}
Links ts (x ∷ []) = Unit {0}
Links ts (x ∷ y ∷ ys) = ((ts x).next ≡ some y) × Links ts (y ∷ ys)

abbrev pub Distinct : List ℕ → Type 0
Distinct [] = Unit {0}
Distinct (x ∷ xs) = (mem x xs ≡ false) × Distinct xs

pub record IsQueue (ts : Tasks) (tq : TaskQueue) (xs : List ℕ) : Type 0 where
  pub head_at : tq.head ≡ first xs
  pub tail_at : tq.tail ≡ last xs
  pub count : tq.size ≡ length xs
  pub links : Links ts xs
  pub distinct : Distinct xs
  pub small : length xs < 2 ^ 30

-- The array after `t` was put behind the tasks `xs`.
abbrev pub link_last : Tasks → List ℕ → ℕ → Tasks
link_last ts [] t = ts
link_last ts (x ∷ []) t = set_next ts x (some t)
link_last ts (x ∷ y ∷ ys) t = link_last ts (y ∷ ys) t

-- A write to a task that is not in the list leaves its links.
pub set_next-Links :
    (ts : Tasks) (a : ℕ) (n : Option ℕ) (ys : List ℕ)
    → mem a ys ≡ false
    → Links ts ys
    → Links (set_next ts a n) ys
set_next-Links ts a n [] m l = tt
set_next-Links ts a n (x ∷ []) m l = tt
set_next-Links ts a n (x ∷ y ∷ ys) m l =
    (ground arith, set_next-Links ts a n (y ∷ ys) (ground arith) l.1)

pub link_last-Links_other :
    (ts : Tasks) (xs : List ℕ) (t : ℕ) (ys : List ℕ)
    → ((x : ℕ) → mem x xs ≡ true → mem x ys ≡ false)
    → Links ts ys
    → Links (link_last ts xs t) ys
link_last-Links_other ts [] t ys m l = l
link_last-Links_other ts (x ∷ []) t ys m l = set_next-Links ts x (some t) ys (m x (ground arith)) l
link_last-Links_other ts (x ∷ y ∷ xs) t ys m l =
    link_last-Links_other ts (y ∷ xs) t ys (λ z h. m z (ground arith)) l

mem-link_last :
    (ts : Tasks) (xs : List ℕ) (t x : ℕ)
    → mem x xs ≡ false
    → (link_last ts xs t x).next ≡ (ts x).next
mem-link_last ts [] t x m = refl
mem-link_last ts (y ∷ []) t x m = ground arith
mem-link_last ts (y ∷ z ∷ ys) t x m = mem-link_last ts (z ∷ ys) t x (ground arith)

-- Appending a task to the links.
link_last-Links :
    (ts : Tasks) (xs : List ℕ) (t : ℕ)
    → Links ts xs
    → Distinct xs
    → Links (link_last ts xs t) (xs ++ (t ∷ []))
link_last-Links ts [] t l d = tt
link_last-Links ts (x ∷ []) t l d = (ground arith, tt)
link_last-Links ts (x ∷ y ∷ ys) t l d =
    (mem-link_last ts (y ∷ ys) t x d.0 ∙ l.0, link_last-Links ts (y ∷ ys) t l.1 d.1)

pub mem-append : (x : ℕ) (xs ys : List ℕ) → mem x (xs ++ ys) ≡ (mem x xs || mem x ys)
mem-append x [] ys = refl
mem-append x (y ∷ xs) ys = ground (arith, mem-append x xs ys)

pub Distinct-snoc :
    (xs : List ℕ) (t : ℕ) → Distinct xs → mem t xs ≡ false → Distinct (xs ++ (t ∷ []))
Distinct-snoc [] t d m = (refl, tt)
Distinct-snoc (x ∷ xs) t d m =
    (ground (arith, mem-append x xs (t ∷ [])), Distinct-snoc xs t d.1 (ground arith))

last-snoc : (xs : List ℕ) (t : ℕ) → last (xs ++ (t ∷ [])) ≡ some t
last-snoc [] t = refl
last-snoc (x ∷ []) t = refl
last-snoc (x ∷ y ∷ ys) t = last-snoc (y ∷ ys) t

last-cons :
    (ts : Tasks) (t x : ℕ) (xs : List ℕ)
    → (l : ℕ) × (last (x ∷ xs) ≡ some l) × (link_last ts (x ∷ xs) t ≡ set_next ts l (some t))
last-cons ts t x [] = (x, refl, refl)
last-cons ts t x (y ∷ ys) = last-cons ts t y ys

-- The call of `tq_push` on a queue that holds the tasks `xs`.
push_run :
    (ts : Tasks) (tq : TaskQueue) (xs : List ℕ) (t : ℕ)
    → tq.size ≡ length xs
    → length xs < 2 ^ 30
    → tq.head ≡ first xs
    → tq.tail ≡ last xs
    → tq_push ts tq t
      ≡ some (
        link_last ts xs t,
        record { head = first (xs ++ (t ∷ [])); tail = some t; size = suc (length xs) },
      )
unfolding tq_push
push_run ts tq [] t s b h e = ground arith
push_run ts tq (x ∷ xs) t s b h e =
    let (l, el, en) = last-cons ts t x xs in rw en (ground (arith, el))

-- On a linked queue of the tasks `xs`, `tq_push` of a task that is not in it, with fewer than 2 ^
-- 30 tasks in all, writes the link of the last task only, and leaves a linked queue of `xs` with
-- the task at the end.
pub tq_push-IsQueue :
    (ts : Tasks) (tq : TaskQueue) (xs : List ℕ) (t : ℕ)
    → IsQueue ts tq xs
    → mem t xs ≡ false
    → suc (length xs) < 2 ^ 30
    → (tq' : TaskQueue) × (tq_push ts tq t ≡ some (link_last ts xs t, tq'))
      × IsQueue (link_last ts xs t) tq' (xs ++ (t ∷ []))
tq_push-IsQueue ts tq xs t q m b = (
  record { head = first (xs ++ (t ∷ [])); tail = some t; size = suc (length xs) },
  push_run ts tq xs t q.count (omega arith) q.head_at q.tail_at,
  record {
    head_at = refl;
    tail_at = sym (last-snoc xs t);
    count = omega (arith, length-append xs (t ∷ []));
    links = link_last-Links ts xs t q.links q.distinct;
    distinct = Distinct-snoc xs t q.distinct m;
    small = omega (arith, length-append xs (t ∷ []));
  },
)

-- On a linked queue of the task `t` and then `xs`, `tq_pop` returns `t`, clears its link, and
-- leaves a linked queue of `xs`.
pub tq_pop-IsQueue :
    (ts : Tasks) (tq : TaskQueue) (t : ℕ) (xs : List ℕ)
    → IsQueue ts tq (t ∷ xs)
    → (tq' : TaskQueue) × (tq_pop ts tq ≡ some (ok, some t, set_next ts t none, tq'))
      × IsQueue (set_next ts t none) tq' xs
unfolding tq_pop
tq_pop-IsQueue ts tq t [] q = (tq_init, ground arith, ground arith)
tq_pop-IsQueue ts tq t (x ∷ []) q =
    (record { head = some x; tail = some x; size = 1 }, ground arith, ground arith)
tq_pop-IsQueue ts tq t (x ∷ y ∷ ys) q = (
  record { head = some x; tail = last (y ∷ ys); size = suc (suc (length ys)) },
  ground arith,
  record {
    head_at = refl;
    tail_at = refl;
    count = refl;
    links = set_next-Links ts t none (x ∷ y ∷ ys) q.distinct.0 q.links.1;
    distinct = q.distinct.1;
    small = omega (arith, q.small);
  },
)

-- An empty queue stays as it is.
pub tq_pop-IsQueue_empty :
    (ts : Tasks) (tq : TaskQueue) → IsQueue ts tq [] → tq_pop ts tq ≡ some (empty, none, ts, tq)
unfolding tq_pop
tq_pop-IsQueue_empty ts tq q = ground arith
