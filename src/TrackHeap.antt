-- ===== src/TrackHeap.antt =====
-- src/lib/train/priority_queue.c and include/lib/train/priority_queue.h: the heap of the path search.
-- `none` is an access outside the arrays, or fuel that has run out.
pub mod Order
pub mod Add
pub mod Pop
pub mod Values
mod Tests
use cs.Base.{
  ℕ, zero, suc, ◌+◌, ◌-◌, ◌*◌, ◌/◌, Bool, not, ◌&&◌, ◌||◌, Option, none, some, if◌then◌else◌, leb,
  ◌==◌, add32, sub32, int_lt, ◌>>=◌,
}
use cs.Track.{track_max}

pub record HeapNode : Type 0 where
  pub priority : ℕ
  pub val : ℕ

abbrev pub Tree : Type 0
Tree = ℕ → HeapNode

pub record TrackQueue : Type 0 where
  pub tree : Tree
  pub map : ℕ → ℕ
  pub size : ℕ

-- `INT_MAX`
abbrev pub int_max : ℕ
int_max = 2147483647

abbrev pub max_tpq_size : ℕ
max_tpq_size = track_max

-- The parent of the root comes out as the root itself, since (0 - 1) / 2 is 0 in C.
abbrev pub parent : ℕ → ℕ
parent i = (i - 1) / 2

abbrev pub left : ℕ → ℕ
left i = 2 * i + 1

abbrev pub right : ℕ → ℕ
right i = 2 * i + 2

abbrev pub is_null : HeapNode → Bool
is_null n = n.priority == int_max

unfoldable pub tpq_init : TrackQueue → TrackQueue
tpq_init q = record {
  tree = λ i. if leb max_tpq_size i then q.tree i else record { priority = int_max; val = 0 };
  map = q.map;
  size = 0;
}

abbrev pub put : Tree → ℕ → HeapNode → Tree
put tree i n j = if i == j then n else tree j

abbrev pub put_map : (ℕ → ℕ) → ℕ → ℕ → ℕ → ℕ
put_map map v i w = if v == w then i else map w

-- The nodes at `i` and `p` change places, and the map follows.
abbrev pub swapped : Tree → ℕ → ℕ → Tree
swapped tree i p = put (put tree p (tree i)) i (tree p)

abbrev pub swapped_map : Tree → (ℕ → ℕ) → ℕ → ℕ → ℕ → ℕ
swapped_map tree map i p =
    put_map (put_map map (swapped tree i p i).val i) (swapped tree i p p).val p

-- The loop of `tpq_add` and `tpq_dec_priority`.
unfoldable pub sift_up : ℕ → Tree → (ℕ → ℕ) → ℕ → Option (Tree × (ℕ → ℕ))
sift_up zero tree map i = none
sift_up (suc k) tree map i =
    let p = parent i in
    let rest = sift_up k (swapped tree i p) (swapped_map tree map i p) p in
    if int_lt (tree i).priority (tree p).priority then rest else some (tree, map)

-- There is no test for a full heap: a node behind the last place is an access outside the array.
unfoldable pub tpq_add : TrackQueue → ℕ → ℕ → Option TrackQueue
unfolding sift_up
tpq_add q val priority =
    let i = q.size in
    if leb max_tpq_size i || leb track_max val
    then none
    else (sift_up (suc i) (put q.tree i (record { priority = priority; val = val }))
          (put_map q.map val i) i
        >>= λ r. some (record { tree = r.0; map = r.1; size = add32 q.size 1 }))

-- The loop of `tpq_pop`: the left child is tried first, and the right one only when it does not go up.
unfoldable pub sift_down : ℕ → Tree → (ℕ → ℕ) → ℕ → Option (Tree × (ℕ → ℕ))
sift_down zero tree map i = none
sift_down (suc k) tree map i =
    let l = left i in
    let r = right i in
    let rest_l = sift_down k (swapped tree i l) (swapped_map tree map i l) l in
    let rest_r = sift_down k (swapped tree i r) (swapped_map tree map i r) r in
    if leb max_tpq_size l
    then none
    else if int_lt (tree l).priority (tree i).priority && not (is_null (tree l))
    then rest_l
    else if leb max_tpq_size r
    then none
    else if int_lt (tree r).priority (tree i).priority && not (is_null (tree r))
    then rest_r
    else some (tree, map)

unfoldable pub pop_on : ℕ → TrackQueue → Option (ℕ × TrackQueue)
unfolding sift_down
pop_on fuel q =
    let i = sub32 q.size 1 in
    let tree = put (put q.tree 0 (q.tree i)) i (record { priority = int_max; val = 0 }) in
    if leb max_tpq_size i
    then none
    else (sift_down fuel tree q.map 0 >>= λ r.
        some ((q.tree 0).val, record { tree = r.0; map = r.1; size = i }))

-- Each round goes down a level, so there are fewer rounds than places.
unfoldable pub tpq_pop : TrackQueue → Option (ℕ × TrackQueue)
unfolding pop_on
tpq_pop q = pop_on max_tpq_size q

unfoldable pub tpq_dec_priority : TrackQueue → ℕ → ℕ → Option TrackQueue
unfolding sift_up
tpq_dec_priority q val priority =
    let i = q.map val in
    if leb track_max val || leb max_tpq_size i
    then none
    else (sift_up (suc i) (put q.tree i (record { priority = priority; val = (q.tree i).val }))
          q.map i
        >>= λ r. some (record q { tree = r.0; map = r.1 }))
