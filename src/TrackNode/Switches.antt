-- ===== src/TrackNode/Switches.antt =====
-- src/lib/train/track_switch.c: the way that the switches set. Their states are given by switch number, and
-- fuel that has run out is an outer `none`.
use cs.Base.{
  ◌*◌, ◌-◌, ◌⊎◌, ℕ, zero, suc, ◌+◌, ◌%◌, ◌<◌, ◌≤◌, ◌^◌, ◌≡◌, refl, ap, ◌∙◌, arith, inl, inr, true,
  false, ◌||◌, Option, none, some, if◌then◌else◌, ◌==◌, add32, int_lt, is_negative, Bool-cases,
}
use cs.Track.{
  Nodes, dir_ahead, dir_straight, dir_curved, is_branch, is_sensor, is_exit, dest_of, dist_of,
}
use cs.TrackNode.{PossibleSensor}

abbrev pub sw_straight : ℕ
sw_straight = 33

-- The edge by which a train leaves the node.
abbrev pub way : (ℕ → ℕ) → Nodes → ℕ → ℕ
way sw ns n =
    if is_branch (ns n).type
    then (if sw (ns n).num == sw_straight then dir_straight else dir_curved)
    else dir_ahead

-- The loop of `GetNextSensorINC`; an inner `none` is the result -1.
unfoldable pub next_sensor_inc : ℕ → (ℕ → ℕ) → Nodes → ℕ → ℕ → Option (Option PossibleSensor)
next_sensor_inc zero sw ns n d = none
next_sensor_inc (suc k) sw ns n d =
    let rest =
      next_sensor_inc k sw ns (dest_of ns n (way sw ns n)) (add32 d (dist_of ns n (way sw ns n))) in
    if is_sensor (ns n).type
    then some (some (record { dist = d; node = n }))
    else if is_exit (ns n).type
    then some none
    else rest

-- `GetNextSensorEXC` takes a step before it looks for a sensor.
unfoldable pub next_sensor_exc : ℕ → (ℕ → ℕ) → Nodes → ℕ → Option (Option PossibleSensor)
unfolding next_sensor_inc
next_sensor_exc k sw ns n =
    if is_exit (ns n).type
    then some none
    else next_sensor_inc k sw ns (dest_of ns n (way sw ns n)) (add32 0 (dist_of ns n (way sw ns n)))

unfoldable pub prev_sensor_inc : ℕ → (ℕ → ℕ) → Nodes → ℕ → Option (Option PossibleSensor)
unfolding next_sensor_inc
prev_sensor_inc k sw ns n = next_sensor_inc k sw ns (ns n).reverse 0

unfoldable pub prev_sensor_exc : ℕ → (ℕ → ℕ) → Nodes → ℕ → Option (Option PossibleSensor)
unfolding next_sensor_exc
prev_sensor_exc k sw ns n = next_sensor_exc k sw ns (ns n).reverse

-- The loop of `dist_between_nodes`; an inner `none` is the result -1.
unfoldable pub between_loop : ℕ → (ℕ → ℕ) → Nodes → ℕ → ℕ → ℕ → Option (Option ℕ)
between_loop zero sw ns n stop d = none
between_loop (suc k) sw ns n stop d =
    let d1 = add32 d (dist_of ns n (way sw ns n)) in
    let rest = between_loop k sw ns (dest_of ns n (way sw ns n)) stop d1 in
    if n == stop
    then some (some d)
    else if is_exit (ns n).type
    then some none
    else if is_negative d1 || int_lt 50000 d1
    then some none
    else rest

unfoldable pub dist_between_nodes : ℕ → (ℕ → ℕ) → Nodes → ℕ → ℕ → Option (Option ℕ)
unfolding between_loop
dist_between_nodes k sw ns start stop = between_loop k sw ns start stop 0

-- The switches lead from `n` to `m` over the length `d`.
abbrev pub Leads : (ℕ → ℕ) → Nodes → ℕ → ℕ → ℕ → ℕ → Type 0
Leads sw ns zero n m d = (n ≡ m) × (d ≡ 0)
Leads sw ns (suc k) n m d =
    (e : ℕ) × (d ≡ dist_of ns n (way sw ns n) + e) × Leads sw ns k (dest_of ns n (way sw ns n)) m e

-- The edges by which trains leave nodes are short, and along those of length 0 `z` falls.
pub record HasLengths (sw : ℕ → ℕ) (ns : Nodes) (z : ℕ → ℕ) : Type 0 where
  pub small : (n : ℕ) → z n < 4
  pub short : (n : ℕ) → is_exit (ns n).type ≡ false → dist_of ns n (way sw ns n) < 2 ^ 30
  pub goes :
      (n : ℕ)
      → is_exit (ns n).type ≡ false
      → (0 < dist_of ns n (way sw ns n)) ⊎ (z (dest_of ns n (way sw ns n)) < z n)

-- A round less is left, for a way that is longer or a `z` that has fallen.
fewer :
    (k d w a b : ℕ)
    → a < 4
    → b < 4
    → (0 < w) ⊎ (b < a)
    → 200004 ≤ suc k + (4 * d + (3 - a))
    → 200004 ≤ k + (4 * (d + w) + (3 - b))
fewer k d w a b x y (inl h) l = omega arith
fewer k d w a b x y (inr h) l = omega arith

-- What `dist_between_nodes` makes of a way that has the length `d` so far.
abbrev pub Measured : (ℕ → ℕ) → Nodes → ℕ → ℕ → ℕ → Option ℕ → Type 0
Measured sw ns n stop d none = Unit {0}
Measured sw ns n stop d (some r) =
    (r ≤ 50000) × (k : ℕ) × (e : ℕ) × (r ≡ d + e) × Leads sw ns k n stop e

near_by : (d : ℕ) → d < 2 ^ 31 → (is_negative d || int_lt 50000 d) ≡ false → d ≤ 50000
near_by d b h = ground arith

further :
    (sw : ℕ → ℕ) (ns : Nodes) (n stop d : ℕ) (r : Option ℕ)
    → Measured sw ns (dest_of ns n (way sw ns n)) stop (d + dist_of ns n (way sw ns n)) r
    → Measured sw ns n stop d r
further sw ns n stop d none h = tt
further sw ns n stop d (some r) (b, k, e, q, l) =
    (b, suc k, dist_of ns n (way sw ns n) + e, omega arith, (e, refl, l))

round_run :
    (k : ℕ) (sw : ℕ → ℕ) (ns : Nodes) (n stop d : ℕ) (r : Option ℕ)
    → let d1 = add32 d (dist_of ns n (way sw ns n)) in
      (n == stop) ≡ false
      → is_exit (ns n).type ≡ false
      → (is_negative d1 || int_lt 50000 d1) ≡ false
      → between_loop k sw ns (dest_of ns n (way sw ns n)) stop d1 ≡ some r
      → between_loop (suc k) sw ns n stop d ≡ some r
unfolding between_loop
round_run k sw ns n stop d r e x near run = rw (e, x, near) run

between_loop_lem :
    (k : ℕ) (sw : ℕ → ℕ) (ns : Nodes) (z : ℕ → ℕ) (n stop d : ℕ)
    → HasLengths sw ns z
    → d ≤ 50000
    → 200004 ≤ k + (4 * d + (3 - z n))
    → (r : Option ℕ) × (between_loop k sw ns n stop d ≡ some r) × Measured sw ns n stop d r
unfolding between_loop
between_loop_lem zero sw ns z n stop d w b h = absurd (omega arith)
between_loop_lem (suc k) sw ns z n stop d w b h = elim (Bool-cases (n == stop)) [
  | inl e ↦ (some d, rw e refl, (b, 0, 0, omega arith, (ground arith, refl)))
  | inr e ↦ elim (Bool-cases (is_exit (ns n).type)) [
    | inl x ↦ (none, rw (e, x) refl, tt)
    | inr x ↦
        let l = dist_of ns n (way sw ns n) in
        let c = dest_of ns n (way sw ns n) in
        let s : add32 d l ≡ d + l = omega (arith, w.short n x) in
        elim (Bool-cases (is_negative (add32 d l) || int_lt 50000 (add32 d l))) [
          | inl far ↦ (none, rw (e, x, far) refl, tt)
          | inr near ↦
              let in_bounds : d + l ≤ 50000 =
                omega (arith, s, near_by (add32 d l) (omega (arith, w.short n x)) near) in
              let (r, run, m) =
                between_loop_lem k sw ns z c stop (d + l) w in_bounds
                  (fewer k d l (z n) (z c) (w.small n) (w.small c) (w.goes n x) h) in
              (
                r,
                round_run k sw ns n stop d r e x near (ap (between_loop k sw ns c stop) s ∙ run),
                further sw ns n stop d r m,
              )
        ]
  ]
]

-- When the edges by which trains leave nodes that are no exits are shorter than 2 ^ 30, and along
-- those of length 0 a number below 4 falls, `dist_between_nodes` ends after at most 200004 rounds,
-- and what it returns is -1 or the length, at most 50000, of the way on which the switches lead
-- from the one node to the other.
pub dist_between_nodes_lem :
    (sw : ℕ → ℕ) (ns : Nodes) (z : ℕ → ℕ) (start stop : ℕ)
    → HasLengths sw ns z
    → (r : Option ℕ) × (dist_between_nodes 200004 sw ns start stop ≡ some r)
      × Measured sw ns start stop 0 r
unfolding dist_between_nodes
dist_between_nodes_lem sw ns z start stop w =
    between_loop_lem 200004 sw ns z start stop 0 w (omega arith) (omega arith)

-- A sensor that the switches lead to, over the length that is given.
abbrev pub Sensed : (ℕ → ℕ) → Nodes → ℕ → ℕ → Option PossibleSensor → Type 0
Sensed sw ns n d none = Unit {0}
Sensed sw ns n d (some s) =
    (is_sensor (ns s.node).type ≡ true)
    × (k : ℕ) × (e : ℕ) × (s.dist ≡ (d + e) % 2 ^ 32)
    × Leads sw ns k n s.node e

beyond :
    (sw : ℕ → ℕ) (ns : Nodes) (n d : ℕ) (r : Option PossibleSensor)
    → Sensed sw ns (dest_of ns n (way sw ns n)) (add32 d (dist_of ns n (way sw ns n))) r
    → Sensed sw ns n d r
beyond sw ns n d none h = tt
beyond sw ns n d (some s) (t, k, e, q, l) =
    (t, suc k, dist_of ns n (way sw ns n) + e, omega arith, (e, refl, l))

next_run :
    (k : ℕ) (sw : ℕ → ℕ) (ns : Nodes) (n d : ℕ) (r : Option PossibleSensor)
    → is_sensor (ns n).type ≡ false
    → is_exit (ns n).type ≡ false
    → next_sensor_inc k sw ns (dest_of ns n (way sw ns n)) (add32 d (dist_of ns n (way sw ns n)))
      ≡ some r
    → next_sensor_inc (suc k) sw ns n d ≡ some r
unfolding next_sensor_inc
next_run k sw ns n d r e x run = rw (e, x) run

-- When a rank falls along the edges by which the switches let a train leave nodes that are neither
-- sensors nor exits, `GetNextSensorINC` ends after fewer rounds than the rank of the node and one,
-- and what it returns is -1 or a sensor to which the switches lead, with the length of the way to
-- it, modulo 2 ^ 32.
pub next_sensor_inc_lem :
    (k : ℕ) (sw : ℕ → ℕ) (ns : Nodes) (rank : ℕ → ℕ) (n d : ℕ)
    → ((m : ℕ)
        → is_sensor (ns m).type ≡ false
        → is_exit (ns m).type ≡ false
        → rank (dest_of ns m (way sw ns m)) < rank m)
    → rank n < k
    → d < 2 ^ 32
    → (r : Option PossibleSensor) × (next_sensor_inc k sw ns n d ≡ some r) × Sensed sw ns n d r
unfolding next_sensor_inc
next_sensor_inc_lem zero sw ns rank n d f b c = elim b [ ]
next_sensor_inc_lem (suc k) sw ns rank n d f b c = elim (Bool-cases (is_sensor (ns n).type)) [
  | inl e ↦ (some (record { dist = d; node = n }), rw e refl, (e, 0, 0, omega arith, (refl, refl)))
  | inr e ↦ elim (Bool-cases (is_exit (ns n).type)) [
    | inl x ↦ (none, rw (e, x) refl, tt)
    | inr x ↦
        let (r, run, h) =
          next_sensor_inc_lem k sw ns rank (dest_of ns n (way sw ns n))
            (add32 d (dist_of ns n (way sw ns n))) f (omega (arith, f n e x)) (omega arith) in
        (r, next_run k sw ns n d r e x run, beyond sw ns n d r h)
  ]
]
