-- ===== src/Reservation/Ownership.antt =====
-- What reserving a node does to the trains: which regions are safe to reserve, and who has what afterwards.
use cs.Base.{
  ℕ, ◌≡◌, refl, arith, Bool, true, false, not, ◌&&◌, ◌||◌, ◌⊎◌, inl, inr, if◌then◌else◌, ◌==◌,
  neg32, Bool-cases,
}
use cs.TaskQueue.Refine.{mem}
use cs.Reservation.{Reservation, Pather, pather_reserve_node}
use cs.Reservation.Region.{region, held, SameTrack, region-SameTrack, reserve_node-Reserved}

-- Who has what once the train has the region of the node.
abbrev pub taken : Pather → ℕ → ℕ → ℕ → ℕ → Bool
taken p trn n t i = if trn == t then held p t i || mem i (region p.nodes n) else held p t i

-- Another train has the id.
abbrev pub others_at : Pather → ℕ → ℕ → Bool
others_at p trn i = (p.reserv i).reserved && not ((p.reserv i).train_num == trn)

-- Another train has the node.
abbrev pub others : Pather → ℕ → ℕ → Bool
others p trn n = others_at p trn (p.nodes n).id

-- No other train has any part of the region of the node, unless it has the node itself.
abbrev pub IsGuarded : Pather → ℕ → ℕ → Type 0
IsGuarded p trn n =
    (i : ℕ) → (mem i (region p.nodes n) && others_at p trn i && not (others p trn n)) ≡ false

reserve_node_others :
    (p : Pather) (trn n : ℕ) → others p trn n ≡ true → pather_reserve_node p trn n ≡ (neg32 1, p)
unfolding pather_reserve_node
reserve_node_others p trn n h = ground arith

reserve_node_held :
    (p : Pather) (trn n : ℕ)
    → held p trn (p.nodes n).id ≡ true
    → pather_reserve_node p trn n ≡ (0, p)
unfolding pather_reserve_node
reserve_node_held p trn n h = ground arith

-- One entry, once the region is the train's.
taken_free :
    (trn t : ℕ) (b : Bool) (old new : Reservation)
    → (b && (old.reserved && not (old.train_num == trn))) ≡ false
    → new ≡ (if b then record { train_num = trn; reserved = true } else old)
    → (new.reserved && new.train_num == t) ≡ (
        if trn == t
        then old.reserved && old.train_num == t || b
        else old.reserved && old.train_num == t)
taken_free trn t true old new g e = rw e (ground arith)
taken_free trn t false old new g e = rw e (ground arith)

still_others :
    (trn : ℕ) (b : Bool) (old new : Reservation)
    → (b && (old.reserved && not (old.train_num == trn))) ≡ false
    → new ≡ (if b then record { train_num = trn; reserved = true } else old)
    → (new.reserved && not (new.train_num == trn)) ≡ (old.reserved && not (old.train_num == trn))
still_others trn true old new g e = rw e (ground arith)
still_others trn false old new g e = rw e refl

-- What the guard says when nobody else has the node.
pub unguarded : (b o x : Bool) → (b && o && not x) ≡ false → x ≡ false → (b && o) ≡ false
unguarded b o x h e = ground arith

-- When no other train has any part of the region of the node, unless it has the node itself,
-- `pather_reserve_node` returns -1 and changes nothing if another train has the node; returns 0
-- and changes nothing if the train has it; and otherwise returns 0, the train has the whole region
-- besides what it had, every other train has what it had, and what others have of the track is the
-- same.
pub reserve_node_lem :
    (p : Pather) (trn n : ℕ)
    → IsGuarded p trn n
    → let (r, p') = pather_reserve_node p trn n in
      ((others p trn n ≡ true) × (r ≡ neg32 1) × (p' ≡ p))
      ⊎ ((held p trn (p.nodes n).id ≡ true) × (r ≡ 0) × (p' ≡ p))
      ⊎ (((p.reserv (p.nodes n).id).reserved ≡ false)
          × (r ≡ 0)
          × SameTrack p.nodes p'.nodes
          × ((t i : ℕ) → held p' t i ≡ taken p trn n t i)
          × ((i : ℕ) → others_at p' trn i ≡ others_at p trn i))
reserve_node_lem p trn n g = elim (Bool-cases (others p trn n)) [
  | inl o ↦ let e = reserve_node_others p trn n o in rw e (inl (o, refl, refl))
  | inr o ↦ elim (Bool-cases (held p trn (p.nodes n).id)) [
    | inl h ↦ let e = reserve_node_held p trn n h in rw e (inr (inl (h, refl, refl)))
    | inr h ↦
        let free : (p.reserv (p.nodes n).id).reserved ≡ false = ground arith in
        let (z, s) = reserve_node-Reserved p trn n free in
        let p' = (pather_reserve_node p trn n).1 in
        let clear = λ (i : ℕ).
          unguarded (mem i (region p.nodes n)) (others_at p trn i) (others p trn n) (g i) o in
        inr (
          inr (
            free,
            z,
            s.same,
            λ t i.
                taken_free trn t (mem i (region p.nodes n)) (p.reserv i) (p'.reserv i) (clear i)
                  (s.region_taken i),
            λ i.
                still_others trn (mem i (region p.nodes n)) (p.reserv i) (p'.reserv i) (clear i)
                  (s.region_taken i),
          ))
  ]
]

-- What others have decides whether a region is guarded.
pub IsGuarded-same :
    (p p' : Pather) (trn n : ℕ)
    → SameTrack p.nodes p'.nodes
    → ((i : ℕ) → others_at p' trn i ≡ others_at p trn i)
    → IsGuarded p trn n
    → IsGuarded p' trn n
IsGuarded-same p p' trn n same h g i =
    let (s, e) = region-SameTrack p.nodes p'.nodes n same in rw (s, e, h i, h (p.nodes n).id) (g i)
