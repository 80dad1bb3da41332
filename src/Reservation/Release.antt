-- ===== src/Reservation/Release.antt =====
-- Giving track back, and what happens where two switches face each other.
use cs.Base.{
  ℕ, ◌<◌, ◌^◌, ◌≡◌, refl, arith, Bool, true, false, not, ◌&&◌, ◌⊎◌, inl, inr, if◌then◌else◌, ◌==◌,
  neg32, Bool-cases, eq→==,
}
use cs.TaskQueue.Refine.{mem}
use cs.Reservation.{Reservation, Pather, no_train, pather_reserve_node, pather_free_node}
use cs.Reservation.Region.{region, held, region-SameTrack, reserve_node-Reserved, free_node-Freed}
use cs.Reservation.Ownership.{others, others_at, IsGuarded, unguarded}

free_node_others :
    (p : Pather) (trn n : ℕ) → others p trn n ≡ true → pather_free_node p trn n ≡ (neg32 1, p)
unfolding pather_free_node
free_node_others p trn n h = ground arith

free_node_nobody :
    (p : Pather) (trn n : ℕ)
    → (p.reserv (p.nodes n).id).reserved ≡ false
    → pather_free_node p trn n ≡ (neg32 2, p)
unfolding pather_free_node
free_node_nobody p trn n h = ground arith

-- One entry, once the region is given back.
given :
    (trn t : ℕ) (b : Bool) (old new : Reservation)
    → (b && (old.reserved && not (old.train_num == trn))) ≡ false
    → new ≡ (if b then record { train_num = no_train; reserved = false } else old)
    → (new.reserved && new.train_num == t) ≡ (
        if trn == t
        then old.reserved && old.train_num == t && not b
        else old.reserved && old.train_num == t)
given trn t true old new g e = rw e (ground arith)
given trn t false old new g e = rw e (ground arith)

-- When no other train has any part of the region of the node, unless it has the node itself,
-- `pather_free_node` returns -1 if another train has the node and -2 if nobody has, with nothing
-- changed, and otherwise 0: the train has lost the region of the node and nothing else, and every
-- other train has what it had.
pub free_node_lem :
    (p : Pather) (trn n : ℕ)
    → IsGuarded p trn n
    → let (r, p') = pather_free_node p trn n in
      ((others p trn n ≡ true) × (r ≡ neg32 1) × (p' ≡ p))
      ⊎ (((p.reserv (p.nodes n).id).reserved ≡ false) × (r ≡ neg32 2) × (p' ≡ p))
      ⊎ ((held p trn (p.nodes n).id ≡ true)
          × (r ≡ 0)
          × ((t i : ℕ)
              → held p' t i
                ≡ (if trn == t then held p t i && not (mem i (region p.nodes n)) else held p t i)))
free_node_lem p trn n g = elim (Bool-cases (others p trn n)) [
  | inl o ↦ let e = free_node_others p trn n o in rw e (inl (o, refl, refl))
  | inr o ↦ elim (Bool-cases (held p trn (p.nodes n).id)) [
    | inr h ↦
        let free : (p.reserv (p.nodes n).id).reserved ≡ false = ground arith in
        let e = free_node_nobody p trn n free in rw e (inr (inl (free, refl, refl)))
    | inl h ↦
        let (z, s) = free_node-Freed p trn n h in
        let p' = (pather_free_node p trn n).1 in
        inr (
          inr (
            h,
            z,
            λ t i.
                given trn t (mem i (region p.nodes n)) (p.reserv i) (p'.reserv i)
                  (unguarded (mem i (region p.nodes n)) (others_at p trn i) (others p trn n) (g i)
                    o)
                  (s.region_given i),
          ))
  ]
]

-- An entry that nobody has, reserved and given back.
back_and_forth :
    (t trn : ℕ) (b : Bool) (old mid new : Reservation)
    → (b && old.reserved) ≡ false
    → mid ≡ (if b then record { train_num = trn; reserved = true } else old)
    → new ≡ (if b then record { train_num = no_train; reserved = false } else mid)
    → (new.reserved && new.train_num == t) ≡ (old.reserved && old.train_num == t)
back_and_forth t trn true old mid new f e e2 = rw e2 (ground arith)
back_and_forth t trn false old mid new f e e2 = rw (e2, e) refl

-- When nobody has any part of the region of a node, to which the node itself belongs, reserving
-- the node and then freeing it leaves every train with what it had, and the counters as they were,
-- if the train's is below 2 ^ 32.
pub reserve_then_free :
    (p : Pather) (trn n : ℕ)
    → mem (p.nodes n).id (region p.nodes n) ≡ true
    → ((i : ℕ) → (mem i (region p.nodes n) && (p.reserv i).reserved) ≡ false)
    → p.nreservs trn < 2 ^ 32
    → let p' = (pather_reserve_node p trn n).1 in
      let (r, p'') = pather_free_node p' trn n in
      (r ≡ 0) × ((t i : ℕ) → held p'' t i ≡ held p t i) × ((t : ℕ) → p''.nreservs t ≡ p.nreservs t)
reserve_then_free p trn n self nobody b =
    let c = nobody (p.nodes n).id in
    let free : (p.reserv (p.nodes n).id).reserved ≡ false = ground arith in
    let (z, s) = reserve_node-Reserved p trn n free in
    let p' = (pather_reserve_node p trn n).1 in
    let p'' = (pather_free_node p' trn n).1 in
    let (e, ei) = region-SameTrack p.nodes p'.nodes n s.same in
    let own : held p' trn (p'.nodes n).id ≡ true =
      rw (ei, s.region_taken (p.nodes n).id, self, eq→== trn trn refl) refl in
    let (z2, f) = free_node-Freed p' trn n own in
    (
      z2,
      λ t i.
          back_and_forth t trn (mem i (region p.nodes n)) (p.reserv i) (p'.reserv i) (p''.reserv i)
            (nobody i) (s.region_taken i) (rw (← e) (f.region_given i)),
      λ t. elim (Bool-cases (trn == t)) [
        | inl y ↦
            let same : trn ≡ t = ground arith in
            rw (f.counts t, y, s.counts t, y, ← same) (omega arith)
        | inr y ↦ rw (f.counts t, y, s.counts t, y) refl
      ],
    )

-- Where the regions of two free nodes `x` and `y` share a node, as two switches that face each
-- other do, and `y` is not in the region of `x`, a train `t` reserves `x` and gets the shared
-- node, and a train `u` then reserves `y`, with the result 0, and takes the shared node, without a
-- check of who has it.
pub reserve_node_steals :
    (p : Pather) (t u x y i : ℕ)
    → (p.reserv (p.nodes x).id).reserved ≡ false
    → (p.reserv (p.nodes y).id).reserved ≡ false
    → mem (p.nodes y).id (region p.nodes x) ≡ false
    → mem i (region p.nodes x) ≡ true
    → mem i (region p.nodes y) ≡ true
    → let (r, p') = pather_reserve_node p t x in
      let (s, p'') = pather_reserve_node p' u y in
      (r ≡ 0) × (held p' t i ≡ true) × (s ≡ 0) × (held p'' u i ≡ true)
reserve_node_steals p t u x y i fx fy out ix iy =
    let (z, s) = reserve_node-Reserved p t x fx in
    let p' = (pather_reserve_node p t x).1 in
    let (e, ei) = region-SameTrack p.nodes p'.nodes y s.same in
    let (z2, s2) = reserve_node-Reserved p' u y (rw (ei, s.region_taken (p.nodes y).id, out) fy) in
    (
      z,
      rw (s.region_taken i, ix, eq→== t t refl) refl,
      z2,
      rw (s2.region_taken i, e, iy, eq→== u u refl) refl,
    )
