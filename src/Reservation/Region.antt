-- ===== src/Reservation/Region.antt =====
-- What `pather_reserve_node` and `pather_free_node` do to the reservations, as one write to a region.
use cs.Base.{
  inl, inr, Bool-cases, ℕ, ◌≡◌, add32, sub32, refl, ap, ◌∙◌, arith, Bool, true, false, ◌&&◌, List,
  [], ◌∷◌, if◌then◌else◌, ◌==◌,
}
use cs.TaskQueue.Refine.{mem}
use cs.Track.{
  NodeType, node_none, node_sensor, node_branch, node_merge, node_enter, node_exit, Nodes,
  dir_ahead, dir_straight, dir_curved,
}
use cs.Reservation.{
  Pather, reservation_reserve, reservation_free, across, ahead_is_merge, reserve_type, free_type,
  pather_reserve_node, pather_free_node,
}

-- A switch and the two nodes that lead to it over its legs.
abbrev pub switch_region : Nodes → ℕ → List ℕ
switch_region ns b = b ∷ across ns b dir_straight ∷ across ns b dir_curved ∷ []

-- The nodes on a stretch of track that only one train may have: those of the switch of which the node
-- is part, or the node and the one that comes the other way over the edge ahead.
abbrev pub region_of : NodeType → Nodes → ℕ → List ℕ
region_of node_branch ns n = switch_region ns n
region_of node_exit ns n = n ∷ []
region_of t ns n =
    if ahead_is_merge ns n
    then switch_region ns (across ns n dir_ahead)
    else n ∷ across ns n dir_ahead ∷ []

abbrev pub ids : Nodes → List ℕ → List ℕ
ids ns [] = []
ids ns (n ∷ l) = (ns n).id ∷ ids ns l

abbrev pub region : Nodes → ℕ → List ℕ
region ns n = ids ns (region_of (ns n).type ns n)

reserve_type_lem :
    (t : NodeType) (p : Pather) (trn n i : ℕ)
    → (reserve_type t p trn n).reserv i ≡ (
        if mem i (ids p.nodes (region_of t p.nodes n))
        then reservation_reserve (p.reserv i) trn
        else p.reserv i)
unfolding reserve_type
reserve_type_lem node_branch p trn n i = ground arith
reserve_type_lem node_exit p trn n i = ground arith
reserve_type_lem node_none p trn n i = ground arith
reserve_type_lem node_sensor p trn n i = ground arith
reserve_type_lem node_merge p trn n i = ground arith
reserve_type_lem node_enter p trn n i = ground arith

free_type_lem :
    (t : NodeType) (p : Pather) (trn n i : ℕ)
    → (free_type t p trn n).reserv i ≡ (
        if mem i (ids p.nodes (region_of t p.nodes n))
        then reservation_free (p.reserv i) trn
        else p.reserv i)
unfolding free_type
free_type_lem node_branch p trn n i = ground arith
free_type_lem node_exit p trn n i = ground arith
free_type_lem node_none p trn n i = ground arith
free_type_lem node_sensor p trn n i = ground arith
free_type_lem node_merge p trn n i = ground arith
free_type_lem node_enter p trn n i = ground arith

-- The nodes but for the trains that own them.
abbrev pub with_reservers : Nodes → (ℕ → ℕ) → Nodes
with_reservers ns f n = record (ns n) { reserver = f n }

-- The two memories differ in the trains that own the nodes only.
abbrev pub SameTrack : Nodes → Nodes → Type 0
SameTrack ns ns' = ns' ≡ with_reservers ns (λ n. (ns' n).reserver)

-- The reservers have no part in the regions.
ids-with_reservers :
    (t : NodeType) (ns : Nodes) (f : ℕ → ℕ) (n : ℕ)
    → ids (with_reservers ns f) (region_of t (with_reservers ns f) n) ≡ ids ns (region_of t ns n)
ids-with_reservers node_branch ns f n = refl
ids-with_reservers node_exit ns f n = refl
ids-with_reservers t ns f n = elim (Bool-cases (ahead_is_merge ns n)) [
  | inl e ↦ rw e refl
  | inr e ↦ rw e refl
]

pub region-SameTrack :
    (ns ns' : Nodes) (n : ℕ)
    → SameTrack ns ns'
    → (region ns' n ≡ region ns n) × ((ns' n).id ≡ (ns n).id)
region-SameTrack ns ns' n e = (
  ap (λ x. region x n) e ∙ ids-with_reservers (ns n).type ns (λ k. (ns' k).reserver) n,
  ap (λ x. (x n).id) e,
)

either-SameTrack :
    (b : Bool) (ns : Nodes) (p q : Pather)
    → SameTrack ns p.nodes
    → SameTrack ns q.nodes
    → SameTrack ns (if b then p else q).nodes
either-SameTrack true ns p q s t = s
either-SameTrack false ns p q s t = t

reserve_type-SameTrack :
    (t : NodeType) (p : Pather) (trn n : ℕ) → SameTrack p.nodes (reserve_type t p trn n).nodes
unfolding reserve_type
reserve_type-SameTrack node_branch p trn n = refl
reserve_type-SameTrack node_exit p trn n = refl
reserve_type-SameTrack t p trn n = either-SameTrack (ahead_is_merge p.nodes n) p.nodes _ _ refl refl

free_type-SameTrack :
    (t : NodeType) (p : Pather) (trn n : ℕ) → SameTrack p.nodes (free_type t p trn n).nodes
unfolding free_type
free_type-SameTrack node_branch p trn n = refl
free_type-SameTrack node_exit p trn n = refl
free_type-SameTrack t p trn n = either-SameTrack (ahead_is_merge p.nodes n) p.nodes _ _ refl refl

-- The counters are no part of what a branch writes.
reserve_type-nreservs :
    (t : NodeType) (p : Pather) (trn n : ℕ) → (reserve_type t p trn n).nreservs ≡ p.nreservs
unfolding reserve_type
reserve_type-nreservs node_branch p trn n = refl
reserve_type-nreservs node_exit p trn n = refl
reserve_type-nreservs node_none p trn n = ground arith
reserve_type-nreservs node_sensor p trn n = ground arith
reserve_type-nreservs node_merge p trn n = ground arith
reserve_type-nreservs node_enter p trn n = ground arith

free_type-nreservs :
    (t : NodeType) (p : Pather) (trn n : ℕ) → (free_type t p trn n).nreservs ≡ p.nreservs
unfolding free_type
free_type-nreservs node_branch p trn n = refl
free_type-nreservs node_exit p trn n = refl
free_type-nreservs node_none p trn n = ground arith
free_type-nreservs node_sensor p trn n = ground arith
free_type-nreservs node_merge p trn n = ground arith
free_type-nreservs node_enter p trn n = ground arith

-- Who has the node with an id.
abbrev pub held : Pather → ℕ → ℕ → Bool
held p trn i = (p.reserv i).reserved && (p.reserv i).train_num == trn

-- What reserving comes to when the node is not reserved: the region becomes the train's, whoever had the
-- other nodes of it.
pub record Reserved (p p' : Pather) (trn n : ℕ) : Type 0 where
  pub same : SameTrack p.nodes p'.nodes
  pub region_taken :
      (i : ℕ)
      → p'.reserv i
        ≡ (if mem i (region p.nodes n) then reservation_reserve (p.reserv i) trn else p.reserv i)
  pub counts : (t : ℕ) → p'.nreservs t ≡ (if trn == t then add32 (p.nreservs t) 1 else p.nreservs t)

pub record Freed (p p' : Pather) (trn n : ℕ) : Type 0 where
  pub same : SameTrack p.nodes p'.nodes
  pub region_given :
      (i : ℕ)
      → p'.reserv i
        ≡ (if mem i (region p.nodes n) then reservation_free (p.reserv i) trn else p.reserv i)
  pub counts : (t : ℕ) → p'.nreservs t ≡ (if trn == t then sub32 (p.nreservs t) 1 else p.nreservs t)

pub reserve_node-Reserved :
    (p : Pather) (trn n : ℕ)
    → (p.reserv (p.nodes n).id).reserved ≡ false
    → ((pather_reserve_node p trn n).0 ≡ 0) × Reserved p (pather_reserve_node p trn n).1 trn n
unfolding pather_reserve_node
reserve_node-Reserved p trn n h =
    let t = (p.nodes n).type in
    let s = reserve_type-SameTrack t p trn n in
    let c = reserve_type-nreservs t p trn n in
    rw h (
      refl,
      record {
        same = s;
        region_taken = λ i. reserve_type_lem t p trn n i;
        counts = λ k. ap (λ f. if trn == k then add32 (f k) 1 else f k) c;
      },
    )

pub free_node-Freed :
    (p : Pather) (trn n : ℕ)
    → held p trn (p.nodes n).id ≡ true
    → ((pather_free_node p trn n).0 ≡ 0) × Freed p (pather_free_node p trn n).1 trn n
unfolding pather_free_node
free_node-Freed p trn n h =
    let t = (p.nodes n).type in
    let r = p.reserv (p.nodes n).id in
    let s = free_type-SameTrack t p trn n in
    let c = free_type-nreservs t p trn n in
    let a : r.reserved ≡ true = ground arith in
    let b : (r.train_num == trn) ≡ true = ground arith in
    rw (a, b)
      (
        refl,
        record {
          same = s;
          region_given = λ i. free_type_lem t p trn n i;
          counts = λ k. ap (λ f. if trn == k then sub32 (f k) 1 else f k) c;
        },
      )
