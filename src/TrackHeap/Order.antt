-- ===== src/TrackHeap/Order.antt =====
-- The order of the heap.
use cs.Base.{
  ℕ, zero, suc, ◌+◌, ◌<◌, ◌≤◌, ◌^◌, ◌≡◌, ◌≢◌, refl, sym, ap, ◌∙◌, arith, some, add32, int_lt, inl,
  inr, Bool-cases, eq→==, ne→==,
}
use native.Mathlib.Decide.{ℕ_discrete}
use cs.TrackHeap.{HeapNode, Tree, parent, put, swapped, swapped_map, sift_up}

-- An `int` as a number that is ordered as it is.
abbrev pub key : Tree → ℕ → ℕ
key tree i = add32 (tree i).priority (2 ^ 31)

-- Among the first `n` nodes, none but the one at `i` comes before its parent.
pub record AllBut (tree : Tree) (n i : ℕ) : Type 0 where
  pub above : (j : ℕ) → 0 < j → j < n → j ≢ i → key tree (parent j) ≤ key tree j
  -- The children of `i` do not come before the parent of `i`.
  pub round : (j : ℕ) → 0 < j → j < n → parent j ≡ i → key tree (parent i) ≤ key tree j

abbrev pub Ordered : Tree → ℕ → Type 0
Ordered tree n = (j : ℕ) → 0 < j → j < n → key tree (parent j) ≤ key tree j

swapped_i : (tree : Tree) (i p : ℕ) → swapped tree i p i ≡ tree p
swapped_i tree i p = rw (eq→== i i refl) refl

swapped_p : (tree : Tree) (i p : ℕ) → i ≢ p → swapped tree i p p ≡ tree i
swapped_p tree i p ne = rw (ne→== i p ne, eq→== p p refl) refl

pub swapped_other : (tree : Tree) (i p j : ℕ) → i ≢ j → p ≢ j → swapped tree i p j ≡ tree j
swapped_other tree i p j ne ne2 = rw (ne→== i j ne, ne→== p j ne2) refl

key_i : (tree : Tree) (i p : ℕ) → key (swapped tree i p) i ≡ key tree p
key_i tree i p = ap (λ n. add32 n.priority (2 ^ 31)) (swapped_i tree i p)

key_p : (tree : Tree) (i p : ℕ) → i ≢ p → key (swapped tree i p) p ≡ key tree i
key_p tree i p ne = ap (λ n. add32 n.priority (2 ^ 31)) (swapped_p tree i p ne)

key_other : (tree : Tree) (i p j : ℕ) → i ≢ j → p ≢ j → key (swapped tree i p) j ≡ key tree j
key_other tree i p j ne ne2 = ap (λ n. add32 n.priority (2 ^ 31)) (swapped_other tree i p j ne ne2)

-- A swap with a parent that comes later moves the fault up.
AllBut-swapped :
    (tree : Tree) (n i : ℕ)
    → 0 < i
    → i < n
    → AllBut tree n i
    → key tree i < key tree (parent i)
    → AllBut (swapped tree i (parent i)) n (parent i)
AllBut-swapped tree n i pos b a lt =
    let p = parent i in
    let ip : i ≢ p = omega arith in
    record {
      above = λ j pj bj ne. elim (ℕ_discrete j i) [
        | yes e ↦ rw e (rw (key_p tree i p ip, key_i tree i p) (omega arith))
        | no ji ↦
            let kj = key_other tree i p j (λ e. ji (sym e)) (λ e. ne (sym e)) in
            elim (ℕ_discrete (parent j) i) [
              | yes e ↦ rw e (rw (key_i tree i p, kj) (a.round j pj bj e))
              | no qi ↦ elim (ℕ_discrete (parent j) p) [
                | yes e ↦
                    let old = a.above j pj bj ji in
                    let old' : key tree p ≤ key tree j = rw (← e) old in
                    rw e (rw (key_p tree i p ip, kj) (omega arith))
                | no qp ↦
                    rw (key_other tree i p (parent j) (λ e. qi (sym e)) (λ e. qp (sym e)), kj)
                      (a.above j pj bj ji)
              ]
            ]
      ];
      round = λ j pj bj e.
          let up : key (swapped tree i p) (parent p) ≤ key tree p = elim (ℕ_discrete p 0) [
            | yes z ↦
                let same : parent p ≡ p = omega arith in
                rw same (rw (key_p tree i p ip) (omega arith))
            | no z ↦
                rw
                  (key_other tree i p (parent p) (λ q. absurd (omega arith))
                    (λ q. absurd (omega arith)))
                  (a.above p (omega arith) (omega arith) (λ q. ip (sym q)))
          ] in
          let down : key tree p ≤ key (swapped tree i p) j = elim (ℕ_discrete j i) [
            | yes q ↦ rw q (rw (key_i tree i p) (omega arith))
            | no q ↦
                let old : key tree p ≤ key tree j = rw (← e) (a.above j pj bj q) in
                rw (key_other tree i p j (λ z. q (sym z)) (λ z. absurd (omega arith))) old
          ] in
          omega (arith, up, down);
    }

-- A sum over the first `n` nodes. Sums of all functions are the same when the nodes are, in any order.
abbrev pub total : (HeapNode → ℕ) → Tree → ℕ → ℕ
total f tree zero = 0
total f tree (suc n) = total f tree n + f (tree n)

pub total-put_out :
    (f : HeapNode → ℕ) (tree : Tree) (i : ℕ) (x : HeapNode) (n : ℕ)
    → n ≤ i
    → total f (put tree i x) n ≡ total f tree n
total-put_out f tree i x zero h = refl
total-put_out f tree i x (suc n) h =
    let e : put tree i x n ≡ tree n = rw (ne→== i n (omega arith)) refl in
    rw (total-put_out f tree i x n (omega arith)) (ap (λ m. total f tree n + f m) e)

pub total-put :
    (f : HeapNode → ℕ) (tree : Tree) (i : ℕ) (x : HeapNode) (n : ℕ)
    → i < n
    → total f (put tree i x) n + f (tree i) ≡ total f tree n + f x
total-put f tree i x zero h = elim h [ ]
total-put f tree i x (suc n) h = elim (ℕ_discrete i n) [
  | yes e ↦
      let new : f (put tree i x n) ≡ f x = ap f (rw (eq→== i n e) refl) in
      let old : f (tree i) ≡ f (tree n) = ap (λ k. f (tree k)) e in
      omega (arith, new, old, total-put_out f tree i x n (omega arith))
  | no ne ↦
      let same : f (put tree i x n) ≡ f (tree n) = ap f (rw (ne→== i n ne) refl) in
      omega (arith, same, total-put f tree i x n (omega arith))
]

pub total-swapped :
    (f : HeapNode → ℕ) (tree : Tree) (i p n : ℕ)
    → i < n
    → p < n
    → i ≢ p
    → total f (swapped tree i p) n ≡ total f tree n
total-swapped f tree i p n bi bp ne =
    let a = total-put f tree p (tree i) n bp in
    let b = total-put f (put tree p (tree i)) i (tree p) n bi in
    let c : f (put tree p (tree i) i) ≡ f (tree i) = ap f (rw (ne→== p i (λ e. ne (sym e))) refl) in
    omega (arith, a, b, c)

zero_lem : (tree : Tree) (i : ℕ) → i ≡ 0 → key tree i < key tree (parent i) → ⊥
zero_lem tree i z lt =
    let e : key tree (parent i) ≡ key tree i = ap (key tree) (omega arith) in omega (arith, e, lt)

-- The loop brings a node that comes before its parent to its place.
pub sift_up_lem :
    (k : ℕ) (tree : Tree) (map : ℕ → ℕ) (n i : ℕ)
    → i < k
    → i < n
    → AllBut tree n i
    → (tree' : Tree) × (map' : ℕ → ℕ) × (sift_up k tree map i ≡ some (tree', map'))
      × Ordered tree' n
      × ((f : HeapNode → ℕ) → total f tree' n ≡ total f tree n)
unfolding sift_up
sift_up_lem zero tree map n i h b a = elim h [ ]
sift_up_lem (suc k) tree map n i h b a =
    elim (Bool-cases (int_lt (tree i).priority (tree (parent i)).priority)) [
      | inr stay ↦ (
        tree,
        map,
        rw stay refl,
        λ j pj bj. elim (ℕ_discrete j i) [
          | yes e ↦ rw e (ground (arith, stay))
          | no ne ↦ a.above j pj bj ne
        ],
        λ f. refl,
      )
      | inl go ↦
          let lt : key tree i < key tree (parent i) = ground (arith, go) in
          elim (ℕ_discrete i 0) [
            | yes z ↦ absurd (zero_lem tree i z lt)
            | no pos ↦
                let (tree', map', run, o, t) =
                  sift_up_lem k (swapped tree i (parent i)) (swapped_map tree map i (parent i)) n
                    (parent i) (omega arith) (omega arith)
                    (AllBut-swapped tree n i (omega arith) b a lt) in
                (
                  tree',
                  map',
                  rw go run,
                  o,
                  λ f. t f ∙ total-swapped f tree i (parent i) n b (omega arith) (omega arith),
                )
          ]
    ]

-- The root comes no later than any other node.
pub root_first :
    (tree : Tree) (n k j : ℕ) → Ordered tree n → j < n → j ≤ k → key tree 0 ≤ key tree j
root_first tree n k zero o b h = omega arith
root_first tree n zero (suc j) o b h = elim h [ ]
root_first tree n (suc k) (suc j) o b h =
    let up = o (suc j) (omega arith) b in
    let ih = root_first tree n k (parent (suc j)) o (omega arith) (omega arith) in
    omega (arith, up, ih)
