-- ===== src/ClockQueue/Add.antt =====
-- `csq_add` against the list of the tasks that wait.
use native.Mathlib.Decide.{ℕ_discrete, dec_lt}
use cs.Base.{
  ℕ, suc, ◌+◌, ◌<◌, ◌≡◌, refl, sym, ap, ◌∙◌, subst, arith, Option, none, some, List, [], ◌∷◌, true,
  false, length, if◌then◌else◌, ◌==◌, lt→ltb, le→ltb, lt→leb, eq→==, ne→==, add32,
}
use cs.Task.{Tid, tid_id}
use cs.TaskQueue.Refine.{mem, Distinct}
use cs.ClockQueue.{ClockQueue, Node, Nodes, ok, with_node, link, find_place, place, csq_add}
use cs.ClockQueue.Order.{
  insert, Sorted, length-insert, mem-insert, Distinct-insert, Sorted-ext, insert-Sorted,
}
use cs.ClockQueue.Refine.{Chain, Chain-same, due_of, IsClock, mem-ne, find_place_lem, insert_ext}

-- A field that links do not have is the same throughout the array.
link_field :
    {B : Type 0} (f : Node → B)
    → ((x : Node) (n : Option ℕ) → f (record x { next = n }) ≡ f x)
    → (ns : Nodes) (i : ℕ) (n : Option ℕ) (j : ℕ) → f (link ns i n j) ≡ f (ns j)
link_field f h ns i n j = elim (ℕ_discrete i j) [
  | yes e ↦ rw (eq→== i j e) (h (ns i) n ∙ ap (λ k. f (ns k)) e)
  | no ne ↦ rw (ne→== i j ne) refl
]

place_field :
    {B : Type 0} (f : Node → B)
    → ((x : Node) (n : Option ℕ) → f (record x { next = n }) ≡ f x)
    → (csq : ClockQueue) (ns : Nodes) (i : ℕ) (prv cur : Option ℕ) (j : ℕ)
    → f ((place csq ns i prv cur).nodes j) ≡ f (ns j)
place_field f h csq ns i none cur j = link_field f h ns i cur j
place_field f h csq ns i (some p) cur j =
    link_field f h (link ns p (some i)) i cur j ∙ link_field f h ns p (some i) j

-- The nodes in which `csq_add` looks for the place.
abbrev with_ticks : Nodes → ℕ → ℕ → Nodes
with_ticks ns i t = with_node ns i (record (ns i) { ticks = t })

ticks_at :
    (ns : Nodes) (i t j : ℕ) → (with_ticks ns i t j).ticks ≡ (if i == j then t else (ns j).ticks)
ticks_at ns i t j = elim (ℕ_discrete i j) [
  | yes e ↦ rw (eq→== i j e) refl
  | no ne ↦ rw (ne→== i j ne) refl
]

same_at :
    {B : Type 0} (f : Node → B)
    → ((x : Node) (t : ℕ) → f (record x { ticks = t }) ≡ f x)
    → (ns : Nodes) (i t j : ℕ) → f (with_ticks ns i t j) ≡ f (ns j)
same_at f h ns i t j = elim (ℕ_discrete i j) [
  | yes e ↦ rw (eq→== i j e) (h (ns i) t ∙ ap (λ k. f (ns k)) e)
  | no ne ↦ rw (ne→== i j ne) refl
]

ticks_other :
    (ns : Nodes) (i t j : ℕ) (xs : List ℕ)
    → mem i xs ≡ false
    → mem j xs ≡ true
    → (with_ticks ns i t j).ticks ≡ (ns j).ticks
ticks_other ns i t j xs n m =
    ticks_at ns i t j ∙ rw (ne→== i j (λ e. mem-ne j i xs m n (sym e))) refl

-- What the search and the two assignments make of the chain, wherever the place is.
abbrev Placing : ClockQueue → Nodes → ℕ → ℕ → List ℕ → Type 0
Placing csq ns t i xs =
    (prv : Option ℕ) × (cur : Option ℕ) × (find_place (suc (length xs)) ns t none csq.head
      ≡ some (prv, cur))
    × Chain (place csq ns i prv cur).nodes (place csq ns i prv cur).head (insert (due_of ns) t i xs)

front :
    (csq : ClockQueue) (ns : Nodes) (t i : ℕ) (xs : List ℕ)
    → Chain ns csq.head xs
    → mem i xs ≡ false
    → find_place (suc (length xs)) ns t none csq.head ≡ some (none, csq.head)
    → insert (due_of ns) t i xs ≡ i ∷ xs
    → Placing csq ns t i xs
front csq ns t i xs c m run e = (
  none,
  csq.head,
  run,
  rw (e, eq→== i i refl)
      (
        refl,
        Chain-same ns (link ns i csq.head) csq.head xs
            (λ j q. rw (ne→== i j (λ z. mem-ne j i xs q m (sym z))) refl) c,
      ),
)

placing :
    (csq : ClockQueue) (ns : Nodes) (t i : ℕ) (xs : List ℕ)
    → Chain ns csq.head xs
    → Distinct xs
    → mem i xs ≡ false
    → Placing csq ns t i xs
unfolding find_place
placing csq ns t i [] c d m = front csq ns t i [] c m (rw c refl) refl
placing csq ns t i (x ∷ xs) c d m = elim (dec_lt t (ns x).ticks) [
  | yes lt ↦
      let b = lt→ltb t (ns x).ticks lt in
      front csq ns t i (x ∷ xs) c m (rw (c.0, b) refl) (rw b refl)
  | no ge ↦
      let b = le→ltb t (ns x).ticks (omega arith) in
      let (p', cur', run, found) =
        find_place_lem (suc (length xs)) ns t i x xs (ns x).next (omega arith) c.1 refl d
          (ground arith) (ground arith) in
      (some p', cur', rw (c.0, b) run, rw b (c.0, found.chain))
]

add_run :
    (csq : ClockQueue) (tid : Tid) (t i : ℕ) (xs : List ℕ) (prv cur : Option ℕ)
    → tid_id tid ≡ i
    → i < 128
    → csq.size ≡ length xs
    → length xs < 127
    → find_place (suc (length xs)) (with_ticks csq.nodes i t) t none csq.head ≡ some (prv, cur)
    → csq_add csq tid t ≡ some (ok, place csq (with_ticks csq.nodes i t) i prv cur)
unfolding csq_add
add_run csq tid t i xs prv cur e l s room run =
    let more : csq.size + 1 ≡ suc (length xs) = omega arith in
    rw (e, le→ltb 128 i (omega arith), ne→== csq.size 127 (omega arith), lt→leb 128 i l, more, run)
      refl

place_size :
    (csq : ClockQueue) (ns : Nodes) (i : ℕ) (prv cur : Option ℕ)
    → (place csq ns i prv cur).size ≡ add32 csq.size 1
place_size csq ns i none cur = refl
place_size csq ns i (some p) cur = refl

-- On a queue in which the tasks `xs` wait in the order in which they are due, fewer than 127,
-- `csq_add` of a task with an index below 128 that is not among them succeeds, puts it behind the
-- tasks due no later and before the others, and sets its ticks and no other task's.
pub csq_add_lem :
    (csq : ClockQueue) (xs : List ℕ) (tid : Tid) (t : ℕ)
    → IsClock csq xs
    → tid_id tid < 128
    → mem (tid_id tid) xs ≡ false
    → length xs < 127
    → (csq' : ClockQueue) × (csq_add csq tid t ≡ some (ok, csq'))
      × IsClock csq' (insert (due_of csq.nodes) t (tid_id tid) xs)
      × ((j : ℕ) → (csq'.nodes j).ticks ≡ (if tid_id tid == j then t else (csq.nodes j).ticks))
csq_add_lem csq xs tid t q l m room =
    let i = tid_id tid in
    let ns = with_ticks csq.nodes i t in
    let old = λ (j : ℕ) (h : mem j xs ≡ true). ticks_other csq.nodes i t j xs m h in
    let c =
      Chain-same csq.nodes ns csq.head xs
        (λ j h. same_at (λ x. x.next) (λ x n. refl) csq.nodes i t j) q.chain in
    let (prv, cur, run, chain) = placing csq ns t i xs c q.distinct m in
    let csq' = place csq ns i prv cur in
    let due' : (j : ℕ) → (csq'.nodes j).ticks ≡ (ns j).ticks =
      λ j. place_field (λ x. x.ticks) (λ x n. refl) csq ns i prv cur j in
    let e = insert_ext (due_of csq.nodes) (due_of ns) t i xs old in
    let e2 = insert_ext (due_of ns) (due_of csq'.nodes) t i xs (λ j h. due' j) in
    let n = q.count in
    (
      csq',
      add_run csq tid t i xs prv cur refl l q.count room run,
      record {
        chain = subst (Chain csq'.nodes csq'.head) e chain;
        count = omega (arith, place_size csq ns i prv cur, length-insert (due_of csq.nodes) t i xs);
        distinct = Distinct-insert (due_of csq.nodes) t i xs q.distinct m;
        sorted = subst (Sorted (due_of csq'.nodes)) (e2 ∙ e) (
            insert-Sorted (due_of csq'.nodes) t i xs
              (due' i ∙ ticks_at csq.nodes i t i ∙ rw (eq→== i i refl) refl)
              (Sorted-ext (due_of csq.nodes) (due_of csq'.nodes) xs (λ j h. due' j ∙ old j h)
                q.sorted));
        named = λ j k.
            place_field (λ x. x.tid) (λ x n. refl) csq ns i prv cur j
            ∙ same_at (λ x. x.tid) (λ x n. refl) csq.nodes i t j
            ∙ q.named j k;
        inside = λ j h. elim (ℕ_discrete j i) [
          | yes e3 ↦ rw e3 l
          | no ne ↦
              q.inside j
                (sym (rw (ne→== j i ne) refl) ∙ sym (mem-insert (due_of csq.nodes) t i j xs) ∙ h)
        ];
        room = omega (arith, length-insert (due_of csq.nodes) t i xs);
      },
      λ j. due' j ∙ ticks_at csq.nodes i t j,
    )
