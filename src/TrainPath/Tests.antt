-- ===== src/TrainPath/Tests.antt =====
-- Runs of the path, and the properties at concrete inputs.
use cs.Base.{
  Option, ℕ, zero, suc, ◌+◌, true, neg32, ◌≡◌, refl, arith, false, true, some, [], ◌∷◌, replicate,
}
use cs.Ring
use cs.Ring.{Ring}
use cs.Ring.Inv.{init-IsValid}
use cs.Ring.Refine.{Holds, init-Holds, push-Holds}
use cs.Track.{Nodes, node_enter, node_sensor, node_branch, node_exit, track_max}
use cs.TrainPath.Generate.{Finding, dij_path_find, path_generate}
use cs.TrainPath.Route.{Made, path_generate_lem}
use cs.TrainPath.{TrainPath, path_follow_to}
use cs.TrainPath.Follow.{IsUnderway, path_follow_to_lem}

abbrev blank : Ring ℕ
blank = record { buf = replicate 144 0; start = 0; stop = 0; size = 0 }

blank-Holds : Holds track_max blank []
unfolding Ring.init
blank-Holds = init-Holds blank (init-IsValid blank (omega arith) (omega arith) refl)

abbrev with_3 : Ring ℕ
with_3 = record { buf = 5 ∷ 6 ∷ 7 ∷ replicate 141 0; start = 0; stop = 3; size = 3 }

with_3-Holds : Holds track_max with_3 (5 ∷ 6 ∷ 7 ∷ [])
unfolding Ring.push
with_3-Holds =
    let a = (push-Holds blank [] 5 blank-Holds (omega arith)).1 in
    let b = (push-Holds _ (5 ∷ []) 6 a (omega arith)).1 in
    (push-Holds _ (5 ∷ 6 ∷ []) 7 b (omega arith)).1

abbrev underway : Ring ℕ → TrainPath
underway ahead = record {
  active = true;
  ready = true;
  done = false;
  path_len = 0;
  track = 0;
  start = some 5;
  stop = some 7;
  current = some 4;
  ahead = ahead;
  behind = blank;
  pred = λ i. 0;
}

path_follow_to_lem_example :
    (p' : TrainPath) × (path_follow_to (underway with_3) 6 ≡ some (0, p'))
    × (p'.current ≡ some 6)
    × IsUnderway p' (7 ∷ []) (4 ∷ 5 ∷ [])
path_follow_to_lem_example =
    path_follow_to_lem (5 ∷ []) (underway with_3) 6 (7 ∷ []) []
      (record { moving = refl; ahead_holds = with_3-Holds; behind_holds = blank-Holds }) refl
      (omega arith)

-- A sensor, 1, between two ends, with a switch, 2, before the one end.
abbrev line : Nodes
line zero = record {
  reserver = neg32 1;
  type = node_enter;
  id = 0;
  num = 0;
  reverse = 9;
  edge = λ d. record { dest = 1; dist = 50 };
}
line (suc zero) = record {
  reserver = neg32 1;
  type = node_sensor;
  id = 1;
  num = 1;
  reverse = 9;
  edge = λ d. record { dest = 2; dist = 60 };
}
line (suc (suc zero)) = record {
  reserver = neg32 1;
  type = node_branch;
  id = 2;
  num = 2;
  reverse = 9;
  edge = λ d. record { dest = 3 + d; dist = 70 };
}
line (suc (suc (suc n))) = record {
  reserver = neg32 1;
  type = node_exit;
  id = n + 3;
  num = n + 3;
  reverse = 9;
  edge = λ d. record { dest = 3; dist = 70 };
}

abbrev asked : TrainPath
asked = record (underway blank) { start = some 0; stop = some 4 }

abbrev locals : Finding
locals = record {
  dist = λ v. 5;
  prev = λ v. 6;
  vist = λ v. true;
  q = record { tree = λ i. record { priority = 7; val = 8 }; map = λ v. 9; size = 3 };
}

path_generate_lem_example :
    (r : Option Finding) × (dij_path_find 434 line 0 0 4 (record locals { prev = asked.pred })
      ≡ some r)
    × Made line asked 0 4 (path_generate 434 line asked locals) r
path_generate_lem_example =
    path_generate_lem line asked locals 0 4 refl refl (omega arith) (omega arith) (omega arith)
      blank-Holds

code_of : Option (Option (ℕ × TrainPath)) → ℕ
code_of (some (some (r, p))) = r
code_of x = 99

size_of : Option (Option (ℕ × TrainPath)) → ℕ
size_of (some (some (r, p))) = p.ahead.size
size_of x = 99

found_way : code_of (path_generate 20 line asked locals) ≡ 0
unfolding code_of path_generate cs.TrackHeap.tpq_add cs.TrackHeap.tpq_init cs.TrackHeap.tpq_pop
    Ring.push
found_way = refl

four_nodes : size_of (path_generate 20 line asked locals) ≡ 4
unfolding size_of path_generate cs.TrackHeap.tpq_add cs.TrackHeap.tpq_init cs.TrackHeap.tpq_pop
    Ring.push
four_nodes = refl
