-- ===== src/ClockQueue/Refine.antt =====
-- The queue of the clock server against the list of the tasks in it, in the order in which they are due.
use native.Mathlib.Decide.{dec_lt}
use cs.Base.{
  ℕ, zero, suc, ◌≤◌, ◌<◌, ◌≡◌, ◌≢◌, refl, sym, ap, ◌∙◌, arith, Option, none, some, List, [], ◌∷◌,
  true, false, length, lt→ltb, le→ltb, eq→==, ne→==,
}
use cs.TaskQueue.Refine.{mem, Distinct}
use cs.ClockQueue.{ClockQueue, Nodes, link, find_place}
use cs.ClockQueue.Order.{insert, Sorted}

-- From `h` on the links lead through the nodes `xs`.
abbrev pub Chain : Nodes → Option ℕ → List ℕ → Type 0
Chain ns h [] = h ≡ none
Chain ns h (x ∷ xs) = (h ≡ some x) × Chain ns (ns x).next xs

abbrev pub due_of : Nodes → ℕ → ℕ
due_of ns i = (ns i).ticks

pub record IsClock (csq : ClockQueue) (xs : List ℕ) : Type 0 where
  pub chain : Chain csq.nodes csq.head xs
  pub count : csq.size ≡ length xs
  pub distinct : Distinct xs
  pub sorted : Sorted (due_of csq.nodes) xs
  pub named : (i : ℕ) → i < 128 → (csq.nodes i).tid ≡ i
  pub inside : (i : ℕ) → mem i xs ≡ true → i < 128
  pub room : length xs ≤ 127

-- A chain depends on the links of its nodes only.
pub Chain-same :
    (ns ns' : Nodes) (h : Option ℕ) (xs : List ℕ)
    → ((j : ℕ) → mem j xs ≡ true → (ns' j).next ≡ (ns j).next)
    → Chain ns h xs
    → Chain ns' h xs
Chain-same ns ns' h [] e c = c
Chain-same ns ns' h (x ∷ xs) e c = (
  c.0,
  rw (e x (ground arith)) (Chain-same ns ns' (ns x).next xs (λ j m. e j (ground arith)) c.1),
)

-- The nodes after the new node `i` has been linked in behind `p`.
abbrev pub linked : Nodes → ℕ → ℕ → Option ℕ → Nodes
linked ns i p cur = link (link ns p (some i)) i cur

pub linked_other :
    (ns : Nodes) (i p j : ℕ) (cur : Option ℕ)
    → j ≢ i
    → j ≢ p
    → (linked ns i p cur j).next ≡ (ns j).next
linked_other ns i p j cur n1 n2 = rw (ne→== i j (λ e. n1 (sym e)), ne→== p j (λ e. n2 (sym e))) refl

linked_prv : (ns : Nodes) (i p : ℕ) (cur : Option ℕ) → p ≢ i → (linked ns i p cur p).next ≡ some i
linked_prv ns i p cur n = rw (ne→== i p (λ e. n (sym e)), eq→== p p refl) refl

linked_new : (ns : Nodes) (i p : ℕ) (cur : Option ℕ) → (linked ns i p cur i).next ≡ cur
linked_new ns i p cur = rw (eq→== i i refl) refl

pub mem-ne : (x y : ℕ) (xs : List ℕ) → mem x xs ≡ true → mem y xs ≡ false → x ≢ y
mem-ne x y xs m n e = let b = sym m ∙ ap (λ z. mem z xs) e ∙ n in cc

-- What the loop finds, from the node `p` that it has passed on.
pub record Found (ns : Nodes) (t i p : ℕ) (xs : List ℕ) (p' : ℕ) (cur : Option ℕ) : Type 0 where
  pub prv_in : mem p' (p ∷ xs) ≡ true
  pub chain : Chain (linked ns i p' cur) (linked ns i p' cur p).next (insert (due_of ns) t i xs)

find_here :
    (ns : Nodes) (t i p : ℕ) (xs : List ℕ) (cur : Option ℕ)
    → Chain ns cur xs
    → p ≢ i
    → mem i xs ≡ false
    → mem p xs ≡ false
    → insert (due_of ns) t i xs ≡ i ∷ xs
    → Found ns t i p xs p cur
find_here ns t i p xs cur c n mi mp e = record {
  prv_in = ground arith;
  chain =
      rw (e, linked_prv ns i p cur n, linked_new ns i p cur)
        (
          refl,
          Chain-same ns (linked ns i p cur) cur xs
              (λ j m. linked_other ns i p j cur (mem-ne j i xs m mi) (mem-ne j p xs m mp)) c,
        );
}

pub find_place_lem :
    (n : ℕ) (ns : Nodes) (t i p : ℕ) (xs : List ℕ) (cur : Option ℕ)
    → length xs < n
    → Chain ns cur xs
    → (ns p).next ≡ cur
    → Distinct (p ∷ xs)
    → p ≢ i
    → mem i xs ≡ false
    → (p' : ℕ) × (cur' : Option ℕ) × (find_place n ns t (some p) cur ≡ some (some p', cur'))
      × Found ns t i p xs p' cur'
unfolding find_place
find_place_lem zero ns t i p xs cur l c e d n m = elim l [ ]
find_place_lem (suc k) ns t i p [] cur l c e d n m =
    (p, cur, rw c refl, find_here ns t i p [] cur c n refl refl refl)
find_place_lem (suc k) ns t i p (x ∷ xs) cur l c e d n m = elim (dec_lt t (ns x).ticks) [
  | yes lt ↦
      let b = lt→ltb t (ns x).ticks lt in
      (p, cur, rw (c.0, b) refl, find_here ns t i p (x ∷ xs) cur c n m d.0 (rw b refl))
  | no ge ↦
      let b = le→ltb t (ns x).ticks (omega arith) in
      let (p', cur', run, found) =
        find_place_lem k ns t i x xs (ns x).next (omega arith) c.1 refl d.1 (ground arith)
          (ground arith) in
      let there = found.prv_in in
      (
        p',
        cur',
        rw (c.0, b) run,
        record {
          prv_in = ground arith;
          chain = rw b (
            linked_other ns i p' p cur' n (λ q. mem-ne p' p (x ∷ xs) there d.0 (sym q)) ∙ e ∙ c.0,
            found.chain,
          );
        },
      )
]

pub insert_ext :
    (due due' : ℕ → ℕ) (t i : ℕ) (xs : List ℕ)
    → ((j : ℕ) → mem j xs ≡ true → due' j ≡ due j)
    → insert due' t i xs ≡ insert due t i xs
insert_ext due due' t i [] e = refl
insert_ext due due' t i (x ∷ xs) e =
    ground (arith, e x (ground arith), insert_ext due due' t i xs (λ j m. e j (ground arith)))
