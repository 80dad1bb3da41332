-- ===== src/TrackHeap/Add.antt =====
-- `tpq_add` against the order of the heap and the nodes in it.
use cs.Base.{ℕ, suc, ◌+◌, ◌<◌, ◌≤◌, ◌≡◌, refl, ap, ◌∙◌, arith, some, lt→leb, add32, ne→==, eq→==}
use cs.TrackHeap.{HeapNode, TrackQueue, Tree, parent, put, put_map, sift_up, tpq_add}
use cs.TrackHeap.Order.{key, AllBut, Ordered, total, total-put_out, sift_up_lem, root_first}

-- A new node behind the last one.
last-AllBut :
    (tree : Tree) (x : HeapNode) (n : ℕ) → Ordered tree n → AllBut (put tree n x) (suc n) n
last-AllBut tree x n o = record {
  above = λ j pj bj ne.
      let a : put tree n x j ≡ tree j = rw (ne→== n j (omega arith)) refl in
      let b : put tree n x (parent j) ≡ tree (parent j) =
        rw (ne→== n (parent j) (omega arith)) refl in
      rw (a, b) (o j pj (omega arith));
  round = λ j pj bj e. absurd (omega arith);
}

add_run :
    (q : TrackQueue) (val priority : ℕ) (tree' : Tree) (map' : ℕ → ℕ)
    → q.size < 144
    → val < 144
    → sift_up
        (suc q.size)
        (put q.tree q.size (record { priority = priority; val = val }))
        (put_map q.map val q.size)
        q.size
      ≡ some (tree', map')
    → tpq_add q val priority ≡ some (record { tree = tree'; map = map'; size = add32 q.size 1 })
unfolding tpq_add
add_run q val priority tree' map' a b run = rw (run, lt→leb 144 q.size a, lt→leb 144 val b) refl

-- On a heap in which no node comes before its parent, with fewer than 144 nodes and a value below
-- 144, `tpq_add` succeeds, the nodes are those before and the new one, none comes before its
-- parent, and so none before the root.
pub tpq_add-Ordered :
    (q : TrackQueue) (val priority : ℕ)
    → Ordered q.tree q.size
    → q.size < 144
    → val < 144
    → (q' : TrackQueue) × (tpq_add q val priority ≡ some q')
      × (q'.size ≡ suc q.size)
      × Ordered q'.tree q'.size
      × ((j : ℕ) → j < q'.size → key q'.tree 0 ≤ key q'.tree j)
      × ((f : HeapNode → ℕ)
          → total f q'.tree q'.size
            ≡ total f q.tree q.size + f (record { priority = priority; val = val }))
tpq_add-Ordered q val priority o room v =
    let n = q.size in
    let x : HeapNode = record { priority = priority; val = val } in
    let (tree', map', run, o', t) =
      sift_up_lem (suc n) (put q.tree n x) (put_map q.map val n) (suc n) n (omega arith)
        (omega arith) (last-AllBut q.tree x n o) in
    let s : add32 n 1 ≡ suc n = omega arith in
    (
      record { tree = tree'; map = map'; size = add32 n 1 },
      add_run q val priority tree' map' room v run,
      s,
      rw s o',
      rw s (λ j b. root_first tree' (suc n) j j o' b (omega arith)),
      rw s (λ f.
          let new : put q.tree n x n ≡ x = rw (eq→== n n refl) refl in
          t f
          ∙ rw (total-put_out f q.tree n x n (omega arith)) (ap (λ m. total f q.tree n + f m) new)),
    )
