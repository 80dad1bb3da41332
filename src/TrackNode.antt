-- ===== src/TrackNode.antt =====
-- src/lib/train/track_node.c and src/lib/train/track_switch.c: neighbours, distances and the next sensor. The
-- searches return -1, here `none`, on a full queue, and when their rounds are used up.
pub mod Switches
mod Tests
use cs.Base.{
  ℕ, zero, suc, ◌+◌, Bool, true, false, not, ◌&&◌, ◌||◌, Option, none, some, if◌then◌else◌, ltb,
  ◌==◌, add32, neg32, int_lt, ◌>>=◌, is_negative,
}
use cs.Ring
use cs.Ring.{Ring}
use cs.Track.{
  NodeType, node_none, node_sensor, node_branch, node_merge, node_enter, node_exit, Node, Nodes,
  dir_ahead, dir_straight, dir_curved, is_branch, is_sensor, is_exit, dest_of, dist_of,
}

abbrev pub bfs_q_size : ℕ
bfs_q_size = 16

abbrev pub possible_node_list_size : ℕ
possible_node_list_size = 5

pub record PossibleSensor : Type 0 where
  pub dist : ℕ
  pub node : ℕ

-- The local variables of a search: the queue, and a number for each node id.
pub record Local : Type 0 where
  pub q : Ring ℕ
  pub number : ℕ → ℕ

abbrev pub dir_to : Nodes → ℕ → ℕ → ℕ
dir_to ns prev node =
    if dest_of ns prev dir_straight == node
    then dir_straight
    else if dest_of ns prev dir_curved == node
    then dir_curved
    else neg32 1

unfoldable pub tn_get_dir : Nodes → ℕ → ℕ → ℕ
tn_get_dir ns prev node = if is_branch (ns prev).type then dir_to ns prev node else dir_ahead

unfoldable pub get_prev_branch_dir : Nodes → ℕ → ℕ
get_prev_branch_dir ns node =
    let prev = dest_of ns (ns node).reverse dir_ahead in
    if is_branch (ns prev).type then dir_to ns prev node else dir_ahead

abbrev pub pushed {ℓ} : {A : Type ℓ} → Ring.Code × A → Option A
pushed (Ring.ok, q) = some q
pushed (c, q) = none

abbrev pub popped : Ring.Code × Option ℕ × Ring ℕ → Option (ℕ × Ring ℕ)
popped (Ring.ok, some n, q) = some (n, q)
popped r = none

-- The end of an edge goes into the queue, with a number.
abbrev pub enqueue : Nodes → Local → ℕ → ℕ → ℕ → Option Local
enqueue ns s n dir d =
    let next = dest_of ns n dir in
    pushed (Ring.push bfs_q_size s.q next) >>= λ q.
    some (record { q = q; number = λ i. if (ns next).id == i then d else s.number i })

abbrev pub by_dist : Nodes → Local → ℕ → ℕ → Option Local
by_dist ns s n dir = enqueue ns s n dir (add32 (dist_of ns n dir) (s.number (ns n).id))

abbrev pub begun : Local → Nodes → ℕ → ℕ → Local
begun s ns node d = record {
  q = (Ring.push bfs_q_size (Ring.init s.q) node).1;
  number = λ i. if (ns node).id == i then d else s.number i;
}

unfoldable pub dist_next : NodeType → Nodes → Local → ℕ → Option Local
dist_next node_branch ns s n = by_dist ns s n dir_curved >>= λ s1. by_dist ns s1 n dir_straight
dist_next node_exit ns s n = some s
dist_next t ns s n = by_dist ns s n dir_ahead

-- The loop of `dist_to_node`, with the rounds that `d` has left.
unfoldable pub dist_loop : ℕ → Nodes → Local → ℕ → Option ℕ
unfolding dist_next
dist_loop zero ns s dest = none
dist_loop (suc d) ns s dest =
    if s.q.size == 0
    then none
    else (popped (Ring.pop bfs_q_size s.q) >>= λ r.
        if r.0 == dest
        then some (s.number (ns r.0).id)
        else (dist_next (ns r.0).type ns (record s { q = r.1 }) r.0 >>= λ s1.
            dist_loop d ns s1 dest))

unfoldable pub dist_to_node : Nodes → Local → ℕ → ℕ → Option ℕ
unfolding dist_loop
dist_to_node ns s node dest = dist_loop bfs_q_size ns (begun s ns node 0) dest

-- The nodes after `n` in `node_nearby_sd`: a sensor is counted.
unfoldable pub near_next : NodeType → Nodes → Local → ℕ → ℕ → Option Local
near_next node_branch ns s n depth = enqueue ns s n dir_curved (s.number (ns n).id) >>= λ s1.
    enqueue ns s1 n dir_straight (s1.number (ns n).id)
near_next node_exit ns s n depth = some s
near_next node_sensor ns s n depth =
    let c = add32 (s.number (ns n).id) 1 in
    if int_lt depth c then some s else enqueue ns s n dir_ahead c
near_next t ns s n depth = enqueue ns s n dir_ahead (s.number (ns n).id)

-- The loop of `node_nearby_sd`, on fuel: the outer `none`. A full queue and an empty one are both false.
abbrev pub or_false : {A : Type 0} → Option A → (A → Option Bool) → Option Bool
or_false none f = some false
or_false (some a) f = f a

unfoldable pub near_loop : ℕ → Nodes → Local → ℕ → ℕ → Option Bool
unfolding near_next
near_loop zero ns s dest depth = none
near_loop (suc k) ns s dest depth =
    if s.q.size == 0
    then some false
    else or_false (popped (Ring.pop bfs_q_size s.q)) (λ r.
      if r.0 == dest
      then some true
      else or_false (near_next (ns r.0).type ns (record s { q = r.1 }) r.0 depth)
          (λ s1. near_loop k ns s1 dest depth))

unfoldable pub node_nearby_sd : ℕ → Nodes → Local → ℕ → ℕ → ℕ → Option Bool
unfolding near_loop
node_nearby_sd fuel ns s node dest depth = near_loop fuel ns (begun s ns node 0) dest depth

-- One round of `next_poss_sensors`, with the list of the sensors that it has come to.
unfoldable pub poss_next :
    NodeType → Nodes → Local → Ring PossibleSensor → ℕ → Option (Local × Ring PossibleSensor)
poss_next node_branch ns s pnl n =
    by_dist ns s n dir_straight >>= λ s1. by_dist ns s1 n dir_curved >>= λ s2. some (s2, pnl)
poss_next node_sensor ns s pnl n =
    pushed (Ring.push possible_node_list_size pnl (record { node = n; dist = s.number (ns n).id }))
    >>= λ pnl1. some (s, pnl1)
poss_next node_exit ns s pnl n = some (s, pnl)
poss_next t ns s pnl n = by_dist ns s n dir_ahead >>= λ s1. some (s1, pnl)

-- `next_poss_sensors` returns -1 whatever happens; what it leaves is the list.
unfoldable pub poss_loop : ℕ → Nodes → Local → Ring PossibleSensor → Ring PossibleSensor
unfolding poss_next
poss_loop zero ns s pnl = pnl
poss_loop (suc d) ns s pnl =
    if s.q.size == 0
    then pnl
    else (elim (popped (Ring.pop bfs_q_size s.q) >>= λ r.
        poss_next (ns r.0).type ns (record s { q = r.1 }) pnl r.0) [
          | none ↦ pnl
          | some r ↦ poss_loop d ns r.0 r.1
        ])

unfoldable pub next_poss_sensors : Nodes → Local → ℕ → ℕ → Ring PossibleSensor → Ring PossibleSensor
unfolding poss_loop
next_poss_sensors ns s node start_dist pnl =
    poss_loop bfs_q_size ns (begun s ns node start_dist) pnl
