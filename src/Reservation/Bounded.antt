-- ===== src/Reservation/Bounded.antt =====
-- The two searches, from the node where they begin.
use cs.Base.{
  ◌⊎◌, inl, inr, ℕ, suc, ◌+◌, ◌*◌, ◌-◌, ◌<◌, ◌≤◌, ◌^◌, ◌≡◌, ◌≢◌, refl, ap, arith, true, false,
  Option, some, [], ◌∷◌, length, ◌==◌, eq→==, if◌then◌else◌,
}
use native.Mathlib.Decide.{dec_lt}
use cs.Ring
use cs.Ring.{Ring}
use cs.Ring.Inv.{init-IsValid}
use cs.Ring.Refine.{init-Holds, push-Holds}
use cs.Track.{Nodes, track_max, is_sensor, dest_of, dist_of}
use cs.Reservation.Search.{
  Search, too_far, beyond_sensor, get_all_nodes_in_dist, get_all_to_sen_in_dist,
}
use cs.Reservation.Ends.{leaves, Shrinks, Queued, search_loop_lem}

-- Edges are short and lead to a place with another number. Some have the length 0, as between the
-- switches 153 to 156: along those `z` falls.
pub record IsMetric (ns : Nodes) (z : ℕ → ℕ) : Type 0 where
  pub small : (i : ℕ) → z i < 4
  pub short : (n dir : ℕ) → leaves (ns n).type dir ≡ true → dist_of ns n dir < 4096
  pub goes :
      (n dir : ℕ)
      → leaves (ns n).type dir ≡ true
      → (0 < dist_of ns n dir) ⊎ (z (ns (dest_of ns n dir)).id < z (ns n).id)
  pub away : (n dir : ℕ) → leaves (ns n).type dir ≡ true → (ns (dest_of ns n dir)).id ≢ (ns n).id

-- The level that a distance allows: each round makes it longer, or `z` fall.
abbrev pub level : (ℕ → ℕ) → ℕ → ℕ → ℕ
level z i d = 4 * d + (3 - z i)

climbs :
    (z : ℕ → ℕ) (i j l d w : ℕ)
    → z i < 4
    → z j < 4
    → (0 < w) ⊎ (z j < z i)
    → l ≤ level z i d
    → suc l ≤ level z j (w + d)
climbs z i j l d w a b (inl h) k = omega arith
climbs z i j l d w a b (inr h) k = omega arith

-- Every way round passes a sensor: `rank` falls along the edges that leave other nodes.
pub record HasSensors (ns : Nodes) (rank : ℕ → ℕ) : Type 0 where
  pub below : (i : ℕ) → rank i < 144
  pub falls :
      (n dir : ℕ)
      → is_sensor (ns n).type ≡ false
      → leaves (ns n).type dir ≡ true
      → rank (ns (dest_of ns n dir)).id < rank (ns n).id

module _ (ns : Nodes) (z : ℕ → ℕ) (m : IsMetric ns z) where
  rises :
      (n l d dir : ℕ)
      → leaves (ns n).type dir ≡ true
      → l ≤ level z (ns n).id d
      → suc l ≤ level z (ns (dest_of ns n dir)).id (dist_of ns n dir + d)
  rises n l d dir v lo =
      climbs z (ns n).id (ns (dest_of ns n dir)).id l d (dist_of ns n dir) (m.small (ns n).id)
        (m.small (ns (dest_of ns n dir)).id) (m.goes n dir v) lo

  too_far-Shrinks :
      (max_dist : ℕ)
      → max_dist < 2 ^ 28
      → Shrinks (too_far max_dist) ns (λ l n. 4 * max_dist + 4 - l) (level z) (λ i. max_dist + 4096)
  too_far-Shrinks max_dist b = record {
    small = λ i. omega arith;
    step = λ n l d dir k lo up v.
        let w = m.short n dir v in
        let near : d ≤ max_dist = ground arith in
        (rises n l d dir v lo, omega arith, omega arith, m.away n dir v);
  }

  beyond_sensor-Shrinks :
      (rank : ℕ → ℕ) (min_dist : ℕ)
      → HasSensors ns rank
      → min_dist < 2 ^ 28
      → Shrinks
          (beyond_sensor min_dist)
          ns
          (λ l n. (4 * min_dist + 4 - l) * 144 + rank (ns n).id)
          (level z)
          (λ i. min_dist + (144 - rank i) * 4096)
  beyond_sensor-Shrinks rank min_dist r b = record {
    small = λ i. omega (arith, r.below i);
    step = λ n l d dir k lo up v.
        let w = m.short n dir v in
        let i = (ns n).id in
        let j = (ns (dest_of ns n dir)).id in
        let bi = r.below i in
        let bj = r.below j in
        elim (dec_lt min_dist d) [
          | no near ↦ (rises n l d dir v lo, omega arith, omega arith, m.away n dir v)
          | yes far ↦
              let plain : is_sensor (ns n).type ≡ false = ground arith in
              let f = r.falls n dir plain v in
              (rises n l d dir v lo, omega arith, omega arith, m.away n dir v)
        ];
  }

-- The state in which a search begins.
began :
    (ns : Nodes) (s : Search) (pot lev : ℕ → ℕ → ℕ) (ub : ℕ → ℕ) (n : ℕ)
    → length s.q.buf ≡ track_max
    → Queued ns pot lev ub
        (record {
          q = (Ring.push track_max (Ring.init s.q) n).1;
          found = Ring.init s.found;
          dist = λ i. if (ns n).id == i then 0 else s.dist i;
        })
        0
        (n ∷ [])
        []
began ns s pot lev ub n e =
    let v = init-IsValid {cap = track_max} s.q (omega arith) (omega arith) e in
    let (c, h) = push-Holds (Ring.init s.q) [] n (init-Holds s.q v) (omega arith) in
    record {
      holds = h;
      now = rw (eq→== (ns n).id (ns n).id refl) (omega arith, omega arith, tt);
      next = tt;
    }

-- Where edges are shorter than 4096, lead to another id, and along those of length 0 a number
-- below 4 falls, the search of `get_all_nodes_in_dist` for a distance below 2 ^ 28 ends, although
-- it may come to a node many times: 3 ^ (4 * max_dist + 4) rounds are enough, in which an assert
-- may fail.
pub get_all_nodes_in_dist-Ends :
    (ns : Nodes) (z : ℕ → ℕ) (s : Search) (n max_dist : ℕ)
    → IsMetric ns z
    → length s.q.buf ≡ track_max
    → max_dist < 2 ^ 28
    → (r : Option Search) × (get_all_nodes_in_dist (suc (3 ^ (4 * max_dist + 4))) ns s n max_dist
        ≡ some r)
unfolding get_all_nodes_in_dist
get_all_nodes_in_dist-Ends ns z s n max_dist m e b =
    let a : 4 * max_dist + 4 - 0 ≡ 4 * max_dist + 4 = omega arith in
    search_loop_lem ns (λ l i. 4 * max_dist + 4 - l) (level z) (λ i. max_dist + 4096)
      (too_far-Shrinks ns z m max_dist b) (suc (3 ^ (4 * max_dist + 4))) 0 (n ∷ []) [] _
      (began ns s _ _ _ n e) (omega (arith, ap (λ x. 3 ^ x) a))

-- The search of `get_all_to_sen_in_dist`, when every way round passes a sensor as well.
pub get_all_to_sen_in_dist-Ends :
    (ns : Nodes) (z rank : ℕ → ℕ) (s : Search) (n min_dist : ℕ)
    → IsMetric ns z
    → HasSensors ns rank
    → length s.q.buf ≡ track_max
    → min_dist < 2 ^ 28
    → (r : Option Search) × (get_all_to_sen_in_dist
          (suc (3 ^ ((4 * min_dist + 4) * 144 + rank (ns n).id)))
          ns
          s
          n
          min_dist
        ≡ some r)
unfolding get_all_to_sen_in_dist
get_all_to_sen_in_dist-Ends ns z rank s n min_dist m h e b =
    let a : (4 * min_dist + 4 - 0) * 144 + rank (ns n).id
        ≡ (4 * min_dist + 4) * 144 + rank (ns n).id =
      omega arith in
    search_loop_lem ns (λ l i. (4 * min_dist + 4 - l) * 144 + rank (ns i).id) (level z)
      (λ i. min_dist + (144 - rank i) * 4096) (beyond_sensor-Shrinks ns z m rank min_dist h b)
      (suc (3 ^ ((4 * min_dist + 4) * 144 + rank (ns n).id))) 0 (n ∷ []) [] _ (began ns s _ _ _ n e)
      (omega (arith, ap (λ x. 3 ^ x) a))
