-- ===== src/TrackNode/Tests.antt =====
-- Runs on a small track, and the properties at concrete inputs.
use cs.Base.{ℕ, zero, suc, ◌+◌, ◌<◌, ◌≡◌, refl, arith, true, false, Option, some, replicate}
use cs.Ring.{Ring}
use cs.Track.{
  Node, Nodes, NodeType, node_sensor, node_branch, node_enter, node_exit, is_sensor, is_exit,
  dest_of,
}
use cs.TrackData.{track_a}
use cs.TrackData.Sound.{steps_left, track_a-HasLengths}
use cs.TrackNode.{PossibleSensor, Local, dist_to_node, node_nearby_sd, tn_get_dir}
use cs.TrackNode.Switches.{
  way, Measured, Sensed, dist_between_nodes, next_sensor_inc, dist_between_nodes_lem,
  next_sensor_inc_lem,
}

abbrev made : NodeType → ℕ → ℕ → Node
made t i length = record {
  reserver = 0;
  type = t;
  id = i;
  num = i;
  reverse = 0;
  edge = λ dir. record { dest = i + 1 + dir; dist = length };
}

-- An end, a switch, a sensor that the switch leads to when it is straight, and another end.
abbrev line : Nodes
line zero = made node_enter 0 50
line (suc zero) = made node_branch 1 60
line (suc (suc zero)) = made node_sensor 2 70
line (suc (suc (suc n))) = made node_exit (n + 3) 0

abbrev straight : ℕ → ℕ
straight i = 33

-- From the merge of the switch 153 to the sensor A1, with all switches straight.
dist_between_nodes_lem_example :
    (r : Option ℕ) × (dist_between_nodes 200004 straight track_a 117 0 ≡ some r)
    × Measured straight track_a 117 0 0 r
dist_between_nodes_lem_example =
    dist_between_nodes_lem straight track_a steps_left 117 0 (track_a-HasLengths straight)

abbrev left_over : ℕ → ℕ
left_over zero = 2
left_over (suc zero) = 1
left_over (suc (suc n)) = 0

falls :
    (m : ℕ)
    → is_sensor (line m).type ≡ false
    → is_exit (line m).type ≡ false
    → left_over (dest_of line m (way straight line m)) < left_over m
falls zero e x = omega arith
falls (suc zero) e x = omega arith
falls (suc (suc zero)) e x = absurd (ground arith)
falls (suc (suc (suc n))) e x = absurd (ground arith)

next_sensor_inc_lem_example :
    (r : Option PossibleSensor) × (next_sensor_inc 5 straight line 0 0 ≡ some r)
    × Sensed straight line 0 0 r
next_sensor_inc_lem_example =
    next_sensor_inc_lem 5 straight line left_over 0 0 falls (omega arith) (omega arith)

abbrev locals : Local
locals = record {
  q = record { buf = replicate 16 0; start = 3; stop = 4; size = 1 };
  number = λ i. 9;
}

between_ends : dist_between_nodes 10 straight line 0 3 ≡ some (some 180)
unfolding dist_between_nodes
between_ends = refl

to_sensor : next_sensor_inc 5 straight line 0 0 ≡ some (some (record { dist = 110; node = 2 }))
unfolding next_sensor_inc
to_sensor = refl

searched : dist_to_node line locals 0 3 ≡ some 110
unfolding dist_to_node cs.Ring.push cs.Ring.init cs.Ring.pop
searched = refl

near_at_once : node_nearby_sd 9 line locals 0 2 1 ≡ some true
unfolding node_nearby_sd cs.Ring.push cs.Ring.init cs.Ring.pop
near_at_once = refl

curved : tn_get_dir line 1 3 ≡ 1
unfolding tn_get_dir
curved = refl
