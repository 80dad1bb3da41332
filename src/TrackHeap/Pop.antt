-- ===== src/TrackHeap/Pop.antt =====
-- `tpq_pop` against the nodes in the heap.
use cs.Base.{
  ℕ, zero, suc, ◌+◌, ◌<◌, ◌≤◌, ◌≢◌, ◌≡◌, refl, sym, ap, ◌∙◌, subst, arith, true, not, ◌&&◌, inl,
  inr, Bool-cases, Option, some, lt→leb, sub32, int_lt, ne→==, eq→==,
}
use native.Mathlib.Decide.{ℕ_discrete, dec_lt}
use cs.TrackHeap.{
  HeapNode, TrackQueue, Tree, left, right, is_null, int_max, put, swapped, swapped_map, sift_down,
  tpq_pop, pop_on,
}
use cs.TrackHeap.Order.{
  key, Ordered, total, total-put, total-put_out, total-swapped, swapped_other, root_first,
}

-- The places behind the first `n` are null.
abbrev pub NullFrom : Tree → ℕ → Type 0
NullFrom tree n = (j : ℕ) → n ≤ j → j < 144 → is_null (tree j) ≡ true

-- The loop returns a tree of the same nodes.
abbrev Same : Tree → ℕ → Option (Tree × (ℕ → ℕ)) → Type 0
Same tree n r =
    (tree' : Tree) × (map' : ℕ → ℕ) × (r ≡ some (tree', map'))
    × NullFrom tree' n
    × ((f : HeapNode → ℕ) → total f tree' n ≡ total f tree n)

-- A child that goes up is a node of the heap.
pub child_inside :
    (tree : Tree) (n c i : ℕ)
    → NullFrom tree n
    → c < 144
    → (int_lt (tree c).priority (tree i).priority && not (is_null (tree c))) ≡ true
    → c < n
child_inside tree n c i z b h = elim (dec_lt c n) [
  | yes l ↦ l
  | no g ↦ let e = z c (omega arith) b in absurd (ground arith)
]

pub NullFrom-swapped :
    (tree : Tree) (n i c : ℕ) → NullFrom tree n → i < n → c < n → NullFrom (swapped tree i c) n
NullFrom-swapped tree n i c z bi bc j h b =
    ap is_null (swapped_other tree i c j (omega arith) (omega arith)) ∙ z j h b

Same-swapped :
    (tree : Tree) (n i c : ℕ) (r : Option (Tree × (ℕ → ℕ)))
    → i < n
    → c < n
    → i ≢ c
    → Same (swapped tree i c) n r
    → Same tree n r
Same-swapped tree n i c r bi bc ne (tree', map', e, z, t) =
    (tree', map', e, z, λ f. t f ∙ total-swapped f tree i c n bi bc ne)

sift_down_lem :
    (k : ℕ) (tree : Tree) (map : ℕ → ℕ) (n i : ℕ)
    → n ≤ 70
    → i ≤ n
    → 144 ≤ k + i
    → NullFrom tree n
    → Same tree n (sift_down k tree map i)
unfolding sift_down
sift_down_lem zero tree map n i b bi fuel z = absurd (omega arith)
sift_down_lem (suc k) tree map n i b bi fuel z =
    let l = left i in
    let r = right i in
    let inl_l = lt→leb 144 l (omega arith) in
    let inl_r = lt→leb 144 r (omega arith) in
    elim (Bool-cases (int_lt (tree l).priority (tree i).priority && not (is_null (tree l)))) [
      | inl go ↦
          let c = child_inside tree n l i z (omega arith) go in
          rw (inl_l, go)
            (Same-swapped tree n i l _ (omega arith) c (omega arith) (
              sift_down_lem k (swapped tree i l) (swapped_map tree map i l) n l b (omega arith)
                (omega arith) (NullFrom-swapped tree n i l z (omega arith) c)))
      | inr stay ↦
          elim (Bool-cases (int_lt (tree r).priority (tree i).priority && not (is_null (tree r)))) [
            | inl go ↦
                let c = child_inside tree n r i z (omega arith) go in
                rw (inl_l, stay, inl_r, go)
                  (Same-swapped tree n i r _ (omega arith) c (omega arith) (
                    sift_down_lem k (swapped tree i r) (swapped_map tree map i r) n r b
                      (omega arith) (omega arith) (NullFrom-swapped tree n i r z (omega arith) c)))
            | inr stay_r ↦ rw (inl_l, stay, inl_r, stay_r) (tree, map, refl, z, λ f. refl)
          ]
    ]

-- The tree before the loop.
abbrev pub without_root : Tree → ℕ → Tree
without_root tree n = put (put tree 0 (tree n)) n (record { priority = int_max; val = 0 })

pub without_root-NullFrom :
    (tree : Tree) (n : ℕ) → NullFrom tree (suc n) → NullFrom (without_root tree n) n
without_root-NullFrom tree n z j h b = elim (ℕ_discrete n j) [
  | yes e ↦ rw (eq→== n j e) refl
  | no ne ↦ rw (ne→== n j ne, ne→== 0 j (omega arith)) (z j (omega arith) b)
]

total-without_root :
    (f : HeapNode → ℕ) (tree : Tree) (n : ℕ)
    → total f (without_root tree n) n + f (tree 0) ≡ total f tree (suc n)
total-without_root f tree zero = omega arith
total-without_root f tree (suc n) = omega (
  arith,
  total-put_out f (put tree 0 (tree (suc n))) (suc n) (record { priority = int_max; val = 0 })
      (suc n) (omega arith),
  total-put f tree 0 (tree (suc n)) (suc n) (omega arith),
)

pop_run :
    (fuel : ℕ) (q : TrackQueue) (n : ℕ) (tree' : Tree) (map' : ℕ → ℕ)
    → q.size ≡ suc n
    → n < 144
    → sift_down fuel (without_root q.tree n) q.map 0 ≡ some (tree', map')
    → pop_on fuel q ≡ some ((q.tree 0).val, record { tree = tree'; map = map'; size = n })
unfolding pop_on
pop_run fuel q n tree' map' s b run =
    let i : sub32 q.size 1 ≡ n = omega arith in rw (i, lt→leb 144 n b, run) refl

pub pop_is : (q : TrackQueue) → tpq_pop q ≡ pop_on 144 q
unfolding tpq_pop
pop_is q = refl

-- On a heap in which no node comes before its parent, of 1 to 71 nodes with nothing behind them,
-- `tpq_pop` ends without an access outside its arrays and returns the value of the root, before
-- which no node comes; the nodes that are left are the others, with nothing behind them.
pub tpq_pop_lem :
    (q : TrackQueue) (n : ℕ)
    → q.size ≡ suc n
    → n ≤ 70
    → Ordered q.tree q.size
    → NullFrom q.tree q.size
    → (q' : TrackQueue) × (tpq_pop q ≡ some ((q.tree 0).val, q'))
      × ((j : ℕ) → j < q.size → key q.tree 0 ≤ key q.tree j)
      × (q'.size ≡ n)
      × NullFrom q'.tree n
      × ((f : HeapNode → ℕ) → total f q'.tree n + f (q.tree 0) ≡ total f q.tree q.size)
tpq_pop_lem q n s b o z =
    let (tree', map', run, z', t) =
      sift_down_lem 144 (without_root q.tree n) q.map n 0 b (omega arith) (omega arith)
        (without_root-NullFrom q.tree n (subst (NullFrom q.tree) s z)) in
    (
      record { tree = tree'; map = map'; size = n },
      pop_is q ∙ pop_run 144 q n tree' map' s (omega arith) run,
      λ j h. root_first q.tree q.size j j o h (omega arith),
      refl,
      z',
      λ f.
          ap (λ x. x + f (q.tree 0)) (t f)
          ∙ total-without_root f q.tree n
          ∙ ap (total f q.tree) (sym s),
    )
