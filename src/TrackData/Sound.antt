-- ===== src/TrackData/Sound.antt =====
-- What the searches and the reservations need of a track holds on track A.
use cs.Base.{
  ℕ, ◌<◌, ◌≤◌, ◌≡◌, ◌%◌, subst, inl, inr, refl, arith, true, false, ◌&&◌, ◌||◌, if◌then◌else◌, ltb,
  ◌==◌, eq→==,
}
use native.Mathlib.Decide.{dec_lt}
use cs.TaskQueue.Refine.{mem}
use cs.Track.{node_exit, Nodes, is_exit, dest_of}
use cs.TrackData.{track_a, behind}
use cs.TrackData.Checks.{
  all_below, all_below_lem, edge_ok, edge_ok_lem, falls_ok, falls_ok_lem, both_edges,
}
use cs.Reservation.Region.{region}
use cs.Reservation.Ends.{leaves}
use cs.Reservation.Bounded.{IsMetric, HasSensors}
use cs.TrackNode.Switches.{way, HasLengths}

-- Along the edges of length 0, between the switches 153 to 156.
abbrev pub steps_left : ℕ → ℕ
steps_left i =
    if i == 117 || i == 121
    then 3
    else if i == 119 || i == 123
    then 2
    else if i == 118 || i == 122
    then 1
    else 0

-- Nodes on the longest way to a sensor or an end.
abbrev pub sensor_rank : ℕ → ℕ
sensor_rank i =
    if (i == 124 || i == 126)
    then 5
    else if (i == 90 || (i == 92 || (i == 117 || i == 121)))
    then 4
    else if (i == 81
        || (i == 84
            || (i == 87 || (i == 89 || (i == 100 || (i == 115 || (i == 119 || i == 123)))))))
    then 3
    else if (i == 82
        || (i == 83
            || (i == 88
                || (i == 95
                    || (i == 97
                        || (i == 102
                            || (i == 103
                                || (i == 106 || (i == 114 || (i == 118 || i == 122))))))))))
    then 2
    else if ltb i 80
    then 0
    else if ltb i 124 || i % 2 == 0
    then 1
    else 0

edges_checked :
    all_below 144 (λ n. edge_ok track_a steps_left n 0 && edge_ok track_a steps_left n 1) ≡ true
unfolding track_a
edges_checked = refl

ranks_checked :
    all_below 144 (λ n. falls_ok track_a sensor_rank n 0 && falls_ok track_a sensor_rank n 1) ≡ true
unfolding track_a
ranks_checked = refl

ids_checked : all_below 144 (λ n. (track_a n).id == n) ≡ true
unfolding track_a
ids_checked = refl

selves_checked : all_below 144 (λ n. mem (track_a n).id (region track_a n)) ≡ true
unfolding track_a
selves_checked = refl

behind_table : (n : ℕ) → 144 ≤ n → track_a n ≡ behind n
unfolding track_a
behind_table n h = ground arith

behind_leaves : (n dir : ℕ) → 144 ≤ n → leaves (track_a n).type dir ≡ false
behind_leaves n dir h = rw (behind_table n h) refl

edge_good :
    (n dir : ℕ) → leaves (track_a n).type dir ≡ true → edge_ok track_a steps_left n dir ≡ true
edge_good n dir l = elim (dec_lt n 144) [
  | yes b ↦
      both_edges track_a n (λ d. edge_ok track_a steps_left n d)
        (all_below_lem 144 n (λ m. edge_ok track_a steps_left m 0 && edge_ok track_a steps_left m 1)
          edges_checked b)
        dir l
  | no b ↦ let f = behind_leaves n dir (omega arith) in absurd cc
]

rank_good :
    (n dir : ℕ) → leaves (track_a n).type dir ≡ true → falls_ok track_a sensor_rank n dir ≡ true
rank_good n dir l = elim (dec_lt n 144) [
  | yes b ↦
      both_edges track_a n (λ d. falls_ok track_a sensor_rank n d)
        (all_below_lem 144 n
          (λ m. falls_ok track_a sensor_rank m 0 && falls_ok track_a sensor_rank m 1) ranks_checked
          b)
        dir l
  | no b ↦ let f = behind_leaves n dir (omega arith) in absurd cc
]

pub track_a-IsMetric : IsMetric track_a steps_left
track_a-IsMetric = record {
  small = λ i. ground arith;
  short = λ n dir l. (edge_ok_lem track_a steps_left n dir (edge_good n dir l) l).0;
  goes = λ n dir l. (edge_ok_lem track_a steps_left n dir (edge_good n dir l) l).1;
  away = λ n dir l. (edge_ok_lem track_a steps_left n dir (edge_good n dir l) l).2;
}

pub track_a-HasSensors : HasSensors track_a sensor_rank
track_a-HasSensors = record {
  below = λ i. ground arith;
  falls = λ n dir s l. falls_ok_lem track_a sensor_rank n dir (rank_good n dir l) s l;
}

is_eq : (a b : ℕ) → (a == b) ≡ true → a ≡ b
is_eq a b h = ground arith

track_a-id : (n : ℕ) → (track_a n).id ≡ n
track_a-id n = elim (dec_lt n 144) [
  | yes b ↦ is_eq (track_a n).id n (all_below_lem 144 n (λ m. (track_a m).id == m) ids_checked b)
  | no b ↦ rw (behind_table n (omega arith)) refl
]

pub track_a_self : (n : ℕ) → mem (track_a n).id (region track_a n) ≡ true
track_a_self n = elim (dec_lt n 144) [
  | yes b ↦ all_below_lem 144 n (λ m. mem (track_a m).id (region track_a m)) selves_checked b
  | no b ↦
      let t : (track_a n).type ≡ node_exit = rw (behind_table n (omega arith)) refl in
      rw (t, eq→== (track_a n).id (track_a n).id refl) refl
]

-- The edge that the switches set is one of those by which a search leaves the node.
way-leaves :
    (sw : ℕ → ℕ) (ns : Nodes) (n : ℕ)
    → is_exit (ns n).type ≡ false
    → leaves (ns n).type (way sw ns n) ≡ true
way-leaves sw ns n h = ground arith

-- However the switches are set.
pub track_a-HasLengths : (sw : ℕ → ℕ) → HasLengths sw track_a steps_left
track_a-HasLengths sw = record {
  small = λ n. ground arith;
  short = λ n x.
      let d = way sw track_a n in
      let l = way-leaves sw track_a n x in
      let (a, b, c) = edge_ok_lem track_a steps_left n d (edge_good n d l) l in omega arith;
  goes = λ n x.
      let d = way sw track_a n in
      let l = way-leaves sw track_a n x in
      let (a, b, c) = edge_ok_lem track_a steps_left n d (edge_good n d l) l in
      elim b [
        | inl w ↦ inl w
        | inr f ↦ inr (
            rw (← track_a-id (dest_of track_a n d)) (
              subst (λ k. steps_left (track_a (dest_of track_a n d)).id < steps_left k)
                (track_a-id n) f))
      ];
}
