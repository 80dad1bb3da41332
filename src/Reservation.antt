-- ===== src/Reservation.antt =====
-- src/lib/train/reservation.c and include/lib/train/reservation.h: which train owns which part of the
-- track. Reservations are kept by node id, and each node has a field for the train that owns it.
pub mod Region
pub mod Ownership
pub mod Release
pub mod Search
pub mod Ends
pub mod Bounded
pub mod Listing
pub mod Sweep
mod Tests
use cs.Base.{
  ℕ, zero, suc, ◌+◌, ◌-◌, Bool, true, false, not, ◌&&◌, if◌then◌else◌, ltb, leb, ◌==◌, add32, sub32,
  neg32,
}
use cs.Track.{
  NodeType, node_branch, node_exit, Node, Nodes, dir_ahead, dir_straight, dir_curved, track_max,
  is_merge, dest_of,
}

pub record Reservation : Type 0 where
  pub train_num : ℕ
  pub reserved : Bool

-- `nodes` is the memory of nodes, in which the array of the pather itself begins at `track`.
pub record Pather : Type 0 where
  pub nodes : Nodes
  pub track : ℕ
  pub reserv : ℕ → Reservation
  pub nreservs : ℕ → ℕ

abbrev pub train_max : ℕ
train_max = 81

abbrev pub no_train : ℕ
no_train = neg32 1

abbrev pub reserv_init : Reservation → Reservation
reserv_init r = record { train_num = no_train; reserved = false }

abbrev pub reservation_reserve : Reservation → ℕ → Reservation
reservation_reserve r trn = record { train_num = trn; reserved = true }

abbrev pub reservation_free : Reservation → ℕ → Reservation
reservation_free r trn = record { train_num = no_train; reserved = false }

-- The nodes of the table at `table` are copied; their pointers go on pointing into the table.
unfoldable pub pather_init : Pather → ℕ → Pather
pather_init p table = record p {
  nodes = λ a.
      if leb p.track a && ltb a (p.track + track_max)
      then record (p.nodes (table + (a - p.track))) { reserver = no_train }
      else p.nodes a;
  reserv = λ i. if ltb i track_max then reserv_init (p.reserv i) else p.reserv i;
  nreservs = λ t. if ltb t train_max then 0 else p.nreservs t;
}

-- `n->reserver = trn`
abbrev pub with_reserver : Nodes → ℕ → ℕ → Nodes
with_reserver ns n trn a = record (ns a) { reserver = if n == a then trn else (ns a).reserver }

abbrev pub with_reserv : (ℕ → Reservation) → ℕ → (Reservation → Reservation) → ℕ → Reservation
with_reserv rs id f i = if id == i then f (rs i) else rs i

-- The three statements that reserve a node, and those that free it.
abbrev pub reserve_at : Pather → ℕ → ℕ → Pather
reserve_at p trn n = record p {
  nodes = with_reserver p.nodes n trn;
  reserv = with_reserv p.reserv (p.nodes n).id (λ r. reservation_reserve r trn);
}

abbrev pub free_at : Pather → ℕ → ℕ → Pather
free_at p trn n = record p {
  nodes = with_reserver p.nodes n no_train;
  reserv = with_reserv p.reserv (p.nodes n).id (λ r. reservation_free r trn);
}

-- `n->edge[dir].dest->reverse`
abbrev pub across : Nodes → ℕ → ℕ → ℕ
across ns n dir = (ns (dest_of ns n dir)).reverse

abbrev pub ahead_is_merge : Nodes → ℕ → Bool
ahead_is_merge ns n = is_merge (ns (dest_of ns n dir_ahead)).type

-- The branches of `pather_reserve_node` on the type of the node, when it is not reserved.
unfoldable pub reserve_type : NodeType → Pather → ℕ → ℕ → Pather
reserve_type node_branch p trn n =
    let p1 = reserve_at p trn n in
    let p2 = reserve_at p1 trn (across p1.nodes n dir_straight) in
    reserve_at p2 trn (across p2.nodes n dir_curved)
reserve_type node_exit p trn n = reserve_at p trn n
reserve_type t p trn n =
    if ahead_is_merge p.nodes n
    then (let p1 = reserve_at p trn (across p.nodes n dir_ahead) in
        let p2 = reserve_at p1 trn (across p1.nodes (across p1.nodes n dir_ahead) dir_curved) in
        reserve_at p2 trn (across p2.nodes (across p2.nodes n dir_ahead) dir_straight))
    else (let p1 = reserve_at p trn n in reserve_at p1 trn (across p1.nodes n dir_ahead))

unfoldable pub free_type : NodeType → Pather → ℕ → ℕ → Pather
free_type node_branch p trn n =
    let p1 = free_at p trn n in
    let p2 = free_at p1 trn (across p1.nodes n dir_straight) in
    free_at p2 trn (across p2.nodes n dir_curved)
free_type node_exit p trn n = free_at p trn n
free_type t p trn n =
    if ahead_is_merge p.nodes n
    then (let p1 = free_at p trn (across p.nodes n dir_ahead) in
        let p2 = free_at p1 trn (across p1.nodes (across p1.nodes n dir_ahead) dir_curved) in
        free_at p2 trn (across p2.nodes (across p2.nodes n dir_ahead) dir_straight))
    else (let p1 = free_at p trn n in free_at p1 trn (across p1.nodes n dir_ahead))

-- `p->nreservs[trn]` one up or down.
abbrev pub counted : Pather → ℕ → (ℕ → ℕ) → Pather
counted p trn f = record p { nreservs = λ t. if trn == t then f (p.nreservs t) else p.nreservs t }

unfoldable pub pather_reserve_node : Pather → ℕ → ℕ → ℕ × Pather
unfolding reserve_type
pather_reserve_node p trn n =
    let r = p.reserv (p.nodes n).id in
    if r.reserved && not (r.train_num == trn)
    then (neg32 1, p)
    else if r.reserved
    then (0, p)
    else (0, counted (reserve_type (p.nodes n).type p trn n) trn (λ c. add32 c 1))

unfoldable pub pather_free_node : Pather → ℕ → ℕ → ℕ × Pather
unfolding free_type
pather_free_node p trn n =
    let r = p.reserv (p.nodes n).id in
    if r.reserved && not (r.train_num == trn)
    then (neg32 1, p)
    else if not r.reserved
    then (neg32 2, p)
    else (0, counted (free_type (p.nodes n).type p trn n) trn (λ c. sub32 c 1))
