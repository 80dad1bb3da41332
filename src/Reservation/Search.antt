-- ===== src/Reservation/Search.antt =====
-- The searches of src/lib/train/reservation.c and the calls that reserve and free what they find. An outer
-- `none` is fuel that has run out, an inner one an assert that fails or a read outside a queue.
use cs.Base.{
  ℕ, zero, suc, Bool, true, not, ◌&&◌, Option, none, some, if◌then◌else◌, ◌==◌, add32, neg32,
  int_lt, ◌>>=◌, or_abort,
}
use cs.Ring
use cs.Ring.{Ring}
use cs.Track.{
  NodeType, node_branch, node_exit, Node, Nodes, dir_ahead, dir_straight, dir_curved, track_max,
  is_sensor, dest_of, dist_of,
}
use cs.Reservation.{Pather, pather_reserve_node, pather_free_node}

-- The local variables of a search: `q`, `nodes` and `dist`.
pub record Search : Type 0 where
  pub q : Ring ℕ
  pub found : Ring ℕ
  pub dist : ℕ → ℕ

abbrev pub asserted : Ring.Code × Ring ℕ → Option (Ring ℕ)
asserted (Ring.ok, q) = some q
asserted (c, q) = none

abbrev pub popped : Ring.Code × Option ℕ × Ring ℕ → Option (ℕ × Ring ℕ)
popped (Ring.ok, some n, q) = some (n, q)
popped r = none

-- The end of an edge goes into the queue, with its distance.
abbrev pub go_on : Nodes → Search → ℕ → ℕ → Option Search
go_on ns s n dir =
    let next = dest_of ns n dir in
    asserted (Ring.push track_max s.q next) >>= λ q. some (record s {
      q = q;
      dist =
          λ i. if (ns next).id == i then add32 (dist_of ns n dir) (s.dist (ns n).id) else s.dist i;
    })

unfoldable pub expand : NodeType → Nodes → Search → ℕ → Option Search
expand node_branch ns s n = go_on ns s n dir_curved >>= λ s1. go_on ns s1 n dir_straight
expand node_exit ns s n = some s
expand t ns s n = go_on ns s n dir_ahead

-- What is done with a node from the queue: `skip` is the test that the two searches differ in. The result
-- of the push to `nodes` is not looked at.
unfoldable pub visit : (Node → ℕ → Bool) → Nodes → Search → ℕ → Option Search
unfolding expand
visit skip ns s n =
    if skip (ns n) (s.dist (ns n).id)
    then some s
    else expand (ns n).type ns (record s { found = (Ring.push track_max s.found n).1 }) n

unfoldable pub search_loop : (Node → ℕ → Bool) → ℕ → Nodes → Search → Option (Option Search)
unfolding visit
search_loop skip zero ns s = none
search_loop skip (suc k) ns s =
    if s.q.size == 0
    then some (some s)
    else or_abort
        (popped (Ring.pop track_max s.q) >>= λ r. visit skip ns (record s { q = r.1 }) r.0)
        (λ s2. search_loop skip k ns s2)

-- Both searches, from the contents that the local variables happen to have.
unfoldable pub search_from : (Node → ℕ → Bool) → ℕ → Nodes → Search → ℕ → Option (Option Search)
unfolding search_loop
search_from skip fuel ns s n = search_loop skip fuel ns (record {
  q = (Ring.push track_max (Ring.init s.q) n).1;
  found = Ring.init s.found;
  dist = λ i. if (ns n).id == i then 0 else s.dist i;
})

abbrev pub too_far : ℕ → Node → ℕ → Bool
too_far max_dist n d = int_lt max_dist d

abbrev pub beyond_sensor : ℕ → Node → ℕ → Bool
beyond_sensor min_dist n d = is_sensor n.type && int_lt min_dist d

unfoldable pub get_all_nodes_in_dist : ℕ → Nodes → Search → ℕ → ℕ → Option (Option Search)
unfolding search_from
get_all_nodes_in_dist fuel ns s n max_dist = search_from (too_far max_dist) fuel ns s n

unfoldable pub get_all_to_sen_in_dist : ℕ → Nodes → Search → ℕ → ℕ → Option (Option Search)
unfolding search_from
get_all_to_sen_in_dist fuel ns s n min_dist = search_from (beyond_sensor min_dist) fuel ns s n

-- `tn_q_get(&nodes, i, &tn)`
abbrev pub got : Ring.Code × Option ℕ → Option ℕ
got (Ring.ok, n) = n
got (c, n) = none

-- The loop of `pather_reserve_to_sensor`, with the rounds that are left.
unfoldable pub reserve_loop : ℕ → Pather → ℕ → Ring ℕ → ℕ → Option (ℕ × Pather)
reserve_loop zero p trn nodes i = some (0, p)
reserve_loop (suc k) p trn nodes i = got (Ring.get track_max nodes i) >>= λ n.
    let rest = reserve_loop k (pather_reserve_node p trn n).1 trn nodes (suc i) in
    if (pather_reserve_node p trn n).0 == 0
    then rest
    else some (neg32 1, (pather_reserve_node p trn n).1)

unfoldable pub pather_reserve_to_sensor :
    ℕ → Pather → Search → ℕ → ℕ → ℕ → Option (Option (ℕ × Pather))
unfolding reserve_loop
pather_reserve_to_sensor fuel p s trn next_pos dist =
    get_all_to_sen_in_dist fuel p.nodes s next_pos dist >>= λ r.
    or_abort r (λ s2. some (reserve_loop s2.found.size p trn s2.found 0))

-- `pather_reserve` reserves the nodes themselves, not their regions.
abbrev pub reserve_single : Pather → ℕ → ℕ → ℕ × Pather
reserve_single p trn n =
    let r = p.reserv (p.nodes n).id in
    if r.reserved && not (r.train_num == trn)
    then (neg32 1, p)
    else if r.reserved
    then (0, p)
    else (
      0,
      record p {
        reserv = λ i.
            if (p.nodes n).id == i then record { train_num = trn; reserved = true } else p.reserv i;
        nreservs = λ t. if trn == t then add32 (p.nreservs t) 1 else p.nreservs t;
      },
    )

unfoldable pub single_loop : ℕ → Pather → ℕ → Ring ℕ → ℕ → Option (ℕ × Pather)
single_loop zero p trn nodes i = some (0, p)
single_loop (suc k) p trn nodes i = got (Ring.get track_max nodes i) >>= λ n.
    let rest = single_loop k (reserve_single p trn n).1 trn nodes (suc i) in
    if (reserve_single p trn n).0 == 0 then rest else some (reserve_single p trn n)

unfoldable pub pather_reserve : ℕ → Pather → Search → ℕ → ℕ → ℕ → Option (Option (ℕ × Pather))
unfolding single_loop
pather_reserve fuel p s trn next_pos dist =
    get_all_nodes_in_dist fuel p.nodes s next_pos dist >>= λ r.
    or_abort r (λ s2. some (single_loop s2.found.size p trn s2.found 0))

-- The end of an edge goes into the queue of `pather_free_nodes`; its array `prev` is never read.
abbrev pub queue_dest : Nodes → Ring ℕ → ℕ → ℕ → Option (Ring ℕ)
queue_dest ns q n dir = asserted (Ring.push track_max q (dest_of ns n dir))

unfoldable pub queue_next : NodeType → Nodes → Ring ℕ → ℕ → Option (Ring ℕ)
queue_next node_branch ns q n =
    queue_dest ns q n dir_curved >>= λ q1. queue_dest ns q1 n dir_straight
queue_next node_exit ns q n = some q
queue_next t ns q n = queue_dest ns q n dir_ahead

-- A later failure takes the place of an earlier one.
unfoldable pub free_loop : ℕ → Pather → ℕ → Ring ℕ → ℕ → Option (Option (ℕ × Pather))
unfolding queue_next
free_loop zero p trn q ret = none
free_loop (suc k) p trn q ret =
    if q.size == 0
    then some (some (ret, p))
    else or_abort (popped (Ring.pop track_max q)) (λ r.
      if not (p.reserv (p.nodes r.0).id).reserved
      then free_loop k p trn r.1 ret
      else (let (c, p1) = pather_free_node p trn r.0 in
          or_abort (queue_next (p1.nodes r.0).type p1.nodes r.1 r.0)
            (λ q2. free_loop k p1 trn q2 (if c == 0 then ret else c))))

unfoldable pub pather_free_nodes : ℕ → Pather → Ring ℕ → ℕ → ℕ → Option (Option (ℕ × Pather))
unfolding free_loop
pather_free_nodes fuel p q trn n = free_loop fuel p trn (Ring.push track_max (Ring.init q) n).1 0

unfoldable pub pather_free_before : ℕ → Pather → Ring ℕ → ℕ → ℕ → Option (Option (ℕ × Pather))
unfolding pather_free_nodes
pather_free_before fuel p q trn n =
    if not (p.reserv (p.nodes n).id).reserved
    then some (some (neg32 1, p))
    else pather_free_nodes fuel p q trn (p.nodes n).reverse

-- `pather_get_all_res_nodes`: the reserved nodes from a node on, up to the one to leave out.
abbrev pub not_reserved : Pather → ℕ → ℕ → Bool
not_reserved p ignore n = if n == ignore then true else not (p.reserv (p.nodes n).id).reserved

unfoldable pub res_loop : ℕ → Pather → ℕ → Ring ℕ → Ring ℕ → Option (Option (Ring ℕ))
unfolding queue_next
res_loop zero p ignore q nodes = none
res_loop (suc k) p ignore q nodes =
    if q.size == 0
    then some (some nodes)
    else or_abort (popped (Ring.pop track_max q)) (λ r.
      if not_reserved p ignore r.0
      then res_loop k p ignore r.1 nodes
      else or_abort (queue_next (p.nodes r.0).type p.nodes r.1 r.0)
          (λ q2. res_loop k p ignore q2 (Ring.push track_max nodes r.0).1))

unfoldable pub pather_get_all_res_nodes :
    ℕ → Pather → Ring ℕ → Ring ℕ → ℕ → ℕ → Option (Option (Ring ℕ))
unfolding res_loop
pather_get_all_res_nodes fuel p q nodes n ignore =
    res_loop fuel p ignore (Ring.push track_max (Ring.init q) n).1 (Ring.init nodes)
