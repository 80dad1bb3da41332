-- ===== src/ClockServer/Due.antt =====
-- Which tasks the clock server wakes at a tick.
use native.Mathlib.Decide.{ℕ_discrete, dec_lt}
use cs.Base.{
  ℕ, zero, suc, ◌≤◌, ◌<◌, ◌≡◌, ◌⊎◌, inl, inr, refl, sym, ap, ◌∙◌, arith, none, some, List, [], ◌∷◌,
  ◌++◌, true, length, ne→==,
}
use cs.TaskQueue.Refine.{mem}
use cs.ClockQueue
use cs.ClockQueue.{ClockQueue, csq_pop, csq_add}
use cs.ClockQueue.Order.{Sorted-first}
use cs.ClockQueue.Refine.{IsClock, due_of}
use cs.ClockQueue.Pop.{csq_pop-IsClock, csq_pop-IsClock_early, csq_pop-IsClock_empty}
use cs.ClockServer.{collect}

-- The tasks `xs` wait; of them `ys` are taken at the tick `now`, and `zs` go on waiting.
pub record Taken (csq csq' : ClockQueue) (n now : ℕ) (xs ys zs : List ℕ) : Type 0 where
  pub split : xs ≡ ys ++ zs
  pub limit : length ys ≤ n
  pub due : (j : ℕ) → mem j ys ≡ true → due_of csq.nodes j ≤ now
  pub rest : (length ys ≡ n) ⊎ ((j : ℕ) → mem j zs ≡ true → now < due_of csq.nodes j)
  pub clock : IsClock csq' zs
  pub nodes : csq'.nodes ≡ csq.nodes

collect_stop :
    (n now : ℕ) (csq : ClockQueue) (c : ClockQueue.Code)
    → csq_pop csq now ≡ (c, none, csq)
    → (c ≡ ClockQueue.empty) ⊎ (c ≡ ClockQueue.not_ready)
    → collect (suc n) now csq ≡ ([], csq)
unfolding collect
collect_stop n now csq c e (inl p) = rw (e, p) refl
collect_stop n now csq c e (inr p) = rw (e, p) refl

collect_go :
    (n now x : ℕ) (csq csq' : ClockQueue)
    → csq_pop csq now ≡ (ClockQueue.ok, some x, csq')
    → collect (suc n) now csq ≡ (x ∷ (collect n now csq').0, (collect n now csq').1)
unfolding collect
collect_go n now x csq csq' e = rw e refl

Taken-cons :
    (csq csq1 csq' : ClockQueue) (n now x : ℕ) (xs ys zs : List ℕ)
    → csq1.nodes ≡ csq.nodes
    → due_of csq.nodes x ≤ now
    → Taken csq1 csq' n now xs ys zs
    → Taken csq csq' (suc n) now (x ∷ xs) (x ∷ ys) zs
Taken-cons csq csq1 csq' n now x xs ys zs e d t = record {
  split = ap (λ l. x ∷ l) t.split;
  limit = omega (arith, t.limit);
  due = λ j m. elim (ℕ_discrete j x) [
    | yes p ↦ rw p d
    | no p ↦ rw (sym e) (t.due j (sym (rw (ne→== j x p) refl) ∙ m))
  ];
  rest = elim t.rest [ inl p ↦ inl (ap suc p) | inr p ↦ inr (λ j m. rw (sym e) (p j m)) ];
  clock = t.clock;
  nodes = t.nodes ∙ e;
}

pub collect_lem :
    (n now : ℕ) (csq : ClockQueue) (xs : List ℕ)
    → IsClock csq xs
    → (ys : List ℕ) × (zs : List ℕ) × (csq' : ClockQueue) × (collect n now csq ≡ (ys, csq'))
      × Taken csq csq' n now xs ys zs
unfolding collect
collect_lem zero now csq xs q = (
  [],
  xs,
  csq,
  refl,
  record {
    split = refl;
    limit = omega arith;
    due = λ j m. ground arith;
    rest = inl refl;
    clock = q;
    nodes = refl;
  },
)
collect_lem (suc n) now csq [] q = (
  [],
  [],
  csq,
  collect_stop n now csq ClockQueue.empty (csq_pop-IsClock_empty csq now q) (inl refl),
  record {
    split = refl;
    limit = omega arith;
    due = λ j m. ground arith;
    rest = inr (λ j m. ground arith);
    clock = q;
    nodes = refl;
  },
)
collect_lem (suc n) now csq (x ∷ xs) q = elim (dec_lt now (due_of csq.nodes x)) [
  | yes early ↦ (
    [],
    x ∷ xs,
    csq,
    collect_stop n now csq ClockQueue.not_ready (csq_pop-IsClock_early csq x xs now q early)
        (inr refl),
    record {
      split = refl;
      limit = omega arith;
      due = λ j m. ground arith;
      rest = inr (λ j m. elim (ℕ_discrete j x) [
        | yes p ↦ rw p early
        | no p ↦ omega (
          arith,
          Sorted-first (due_of csq.nodes) x j xs q.sorted (sym (rw (ne→== j x p) refl) ∙ m),
        )
      ]);
      clock = q;
      nodes = refl;
    },
  )
  | no late ↦
      let (csq1, pop, q1, same) = csq_pop-IsClock csq x xs now q (omega arith) in
      let (ys, zs, csq', run, t) = collect_lem n now csq1 xs q1 in
      (
        x ∷ ys,
        zs,
        csq',
        collect_go n now x csq csq1 pop ∙ rw run refl,
        Taken-cons csq csq1 csq' n now x xs ys zs same (omega arith) t,
      )
]
