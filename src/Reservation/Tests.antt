-- ===== src/Reservation/Tests.antt =====
-- Runs of the reservations, and the properties at concrete inputs.
use cs.Base.{
  ℕ, zero, suc, ◌+◌, ◌*◌, ◌^◌, ◌≡◌, ◌⊎◌, refl, arith, true, false, not, ◌&&◌, Option, some,
  if◌then◌else◌, ◌==◌, neg32, replicate,
}
use cs.Ring.{Ring}
use cs.TaskQueue.Refine.{mem}
use cs.Track.{NodeType, node_branch, node_merge, node_enter, node_exit, Node, Nodes}
use cs.Reservation.{Pather, no_train, pather_reserve_node, pather_free_node}
use cs.Reservation.Region.{SameTrack, region, held}
use cs.TrackData.{track_a}
use cs.TrackData.Sound.{steps_left, sensor_rank, track_a-IsMetric, track_a-HasSensors, track_a_self}
use cs.Reservation.Ownership.{others, others_at, taken, IsGuarded, reserve_node_lem}
use cs.Reservation.Release.{free_node_lem, reserve_then_free, reserve_node_steals}
use cs.Reservation.Search.{
  Search, get_all_nodes_in_dist, get_all_to_sen_in_dist, pather_reserve_to_sensor, pather_reserve,
  pather_free_before,
}
use cs.Reservation.Bounded.{get_all_nodes_in_dist-Ends}
use cs.Reservation.Sweep.{Reserving, pather_reserve_to_sensor_lem}

abbrev stack : Search
stack = record {
  q = record { buf = replicate 144 0; start = 7; stop = 9; size = 1 };
  found = record { buf = replicate 144 0; start = 3; stop = 4; size = 5 };
  dist = λ i. 77;
}

abbrev pather_on : Nodes → Pather
pather_on ns = record {
  nodes = ns;
  track = 1000;
  reserv = λ i. record { train_num = no_train; reserved = false };
  nreservs = λ t. 0;
}

-- Nobody has anything.
abbrev free_track : Pather
free_track = pather_on track_a

free-IsGuarded : (trn n : ℕ) → IsGuarded free_track trn n
free-IsGuarded trn n i = ground arith

abbrev all_of : ℕ → Pather
all_of trn = record free_track { reserv = λ i. record { train_num = trn; reserved = true } }

all_of-IsGuarded : (trn n : ℕ) → IsGuarded (all_of trn) trn n
all_of-IsGuarded trn n i = ground arith

-- The train 24 asks for the first sensor of group A, which leads to the merge of BR12.
reserve_node_lem_example :
    let (r, p') = pather_reserve_node free_track 24 0 in
    ((others free_track 24 0 ≡ true) × (r ≡ neg32 1) × (p' ≡ free_track))
    ⊎ ((held free_track 24 (free_track.nodes 0).id ≡ true) × (r ≡ 0) × (p' ≡ free_track))
    ⊎ (((free_track.reserv (free_track.nodes 0).id).reserved ≡ false)
        × (r ≡ 0)
        × SameTrack free_track.nodes p'.nodes
        × ((t i : ℕ) → held p' t i ≡ taken free_track 24 0 t i)
        × ((i : ℕ) → others_at p' 24 i ≡ others_at free_track 24 i))
reserve_node_lem_example = reserve_node_lem free_track 24 0 (free-IsGuarded 24 0)

free_node_lem_example :
    let p = all_of 24 in
    let (r, p') = pather_free_node p 24 0 in
    ((others p 24 0 ≡ true) × (r ≡ neg32 1) × (p' ≡ p))
    ⊎ (((p.reserv (p.nodes 0).id).reserved ≡ false) × (r ≡ neg32 2) × (p' ≡ p))
    ⊎ ((held p 24 (p.nodes 0).id ≡ true)
        × (r ≡ 0)
        × ((t i : ℕ)
            → held p' t i
              ≡ (if 24 == t then held p t i && not (mem i (region p.nodes 0)) else held p t i)))
free_node_lem_example = free_node_lem (all_of 24) 24 0 (all_of-IsGuarded 24 0)

nobody_at : (i : ℕ) → (mem i (region track_a 0) && false) ≡ false
nobody_at i = ground arith

reserve_then_free_example :
    let p' = (pather_reserve_node free_track 24 0).1 in
    let (r, p'') = pather_free_node p' 24 0 in
    (r ≡ 0)
    × ((t i : ℕ) → held p'' t i ≡ held free_track t i)
    × ((t : ℕ) → p''.nreservs t ≡ free_track.nreservs t)
reserve_then_free_example =
    reserve_then_free free_track 24 0 (track_a_self 0) nobody_at (omega arith)

-- The train 24 has the fourth sensor of group C, and with it BR5 and BR7; the train 58 asks for the twelfth one of group D and takes BR5.
reserve_node_steals_example :
    let p = pather_on track_a in
    let (r, p') = pather_reserve_node p 24 35 in
    let (s, p'') = pather_reserve_node p' 58 59 in
    (r ≡ 0) × (held p' 24 88 ≡ true) × (s ≡ 0) × (held p'' 58 88 ≡ true)
unfolding track_a
reserve_node_steals_example =
    reserve_node_steals (pather_on track_a) 24 58 35 59 88 refl refl refl refl refl

get_all_nodes_in_dist-Ends_example :
    (r : Option Search) × (get_all_nodes_in_dist (suc (3 ^ (4 * 250 + 4))) track_a stack 117 250
      ≡ some r)
get_all_nodes_in_dist-Ends_example =
    get_all_nodes_in_dist-Ends track_a steps_left stack 117 250 track_a-IsMetric refl (omega arith)

pather_reserve_to_sensor_lem_example :
    let fuel = suc (3 ^ ((4 * 250 + 4) * 144 + sensor_rank (track_a 117).id)) in
    (r : Option Search) × (get_all_to_sen_in_dist fuel track_a stack 117 250 ≡ some r)
    × Reserving free_track 24 (pather_reserve_to_sensor fuel free_track stack 24 117 250) r
pather_reserve_to_sensor_lem_example =
    pather_reserve_to_sensor_lem free_track steps_left sensor_rank stack 24 117 250
      (free-IsGuarded 24) track_a_self track_a-IsMetric track_a-HasSensors refl refl (omega arith)

abbrev made : NodeType → ℕ → ℕ → ℕ → ℕ → Node
made t i back ahead curved = record {
  reserver = no_train;
  type = t;
  id = i;
  num = i;
  reverse = back;
  edge = λ dir. record { dest = if dir == 1 then curved else ahead; dist = 100 };
}

-- A switch, 0, with its merge, 1, and three ends of the track.
abbrev yard : Nodes
yard zero = made node_branch 0 1 2 4
yard (suc zero) = made node_merge 1 0 6 6
yard (suc (suc zero)) = made node_exit 2 3 2 2
yard (suc (suc (suc zero))) = made node_enter 3 2 1 1
yard (suc (suc (suc (suc zero)))) = made node_exit 4 5 4 4
yard (suc (suc (suc (suc (suc zero))))) = made node_enter 5 4 1 1
yard (suc (suc (suc (suc (suc (suc zero)))))) = made node_exit 6 7 6 6
yard (suc (suc (suc (suc (suc (suc (suc zero))))))) = made node_enter 7 6 0 0
yard (suc (suc (suc (suc (suc (suc (suc (suc n)))))))) =
    made node_exit (n + 8) (n + 8) (n + 8) (n + 8)

abbrev free_yard : Pather
free_yard = pather_on yard

-- The result of a call that comes to an end.
code_of : Option (Option (ℕ × Pather)) → ℕ
code_of (some (some (r, p))) = r
code_of x = 99

owner_of : Option (Option (ℕ × Pather)) → ℕ → ℕ
owner_of (some (some (r, p))) i = (p.reserv i).train_num
owner_of x i = 99

abbrev sweep : Pather → Option (Option (ℕ × Pather))
sweep p = pather_reserve_to_sensor 20 p stack 24 7 250

sweep_free : code_of (sweep free_yard) ≡ 0
unfolding pather_reserve_to_sensor code_of get_all_to_sen_in_dist cs.Ring.push cs.Ring.init
    cs.Ring.pop cs.Ring.get pather_reserve_node
sweep_free = refl

sweep_owner : owner_of (sweep free_yard) 5 ≡ 24
unfolding pather_reserve_to_sensor owner_of get_all_to_sen_in_dist cs.Ring.push cs.Ring.init
    cs.Ring.pop cs.Ring.get pather_reserve_node
sweep_owner = refl

sweep_refused : code_of (sweep (record free_yard { reserv = (all_of 58).reserv })) ≡ neg32 1
unfolding pather_reserve_to_sensor code_of get_all_to_sen_in_dist cs.Ring.push cs.Ring.init
    cs.Ring.pop cs.Ring.get pather_reserve_node
sweep_refused = refl

single_reserve : owner_of (pather_reserve 20 free_yard stack 24 7 150) 5 ≡ no_train
unfolding pather_reserve owner_of get_all_nodes_in_dist cs.Ring.push cs.Ring.init cs.Ring.pop
    cs.Ring.get
single_reserve = refl

free_before :
    code_of (pather_free_before 20 (record free_yard { reserv = (all_of 24).reserv }) stack.q 24 0)
    ≡ 0
unfolding pather_free_before code_of cs.Ring.push cs.Ring.init cs.Ring.pop pather_free_node
free_before = refl
