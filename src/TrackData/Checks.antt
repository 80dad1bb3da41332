-- ===== src/TrackData/Checks.antt =====
-- Tests of a table, node by node, and what they are worth.
use cs.Base.{
  ℕ, zero, suc, ◌<◌, ◌≡◌, ◌≢◌, ◌⊎◌, inl, inr, refl, arith, Bool, true, false, not, ◌&&◌, ◌||◌, ltb,
  ◌==◌,
}
use native.Mathlib.Decide.{ℕ_discrete}
use cs.Track.{
  NodeType, node_none, node_sensor, node_branch, node_merge, node_enter, node_exit, Nodes,
  is_sensor, dest_of, dist_of,
}
use cs.Reservation.Ends.{leaves}

abbrev pub all_below : ℕ → (ℕ → Bool) → Bool
all_below zero p = true
all_below (suc n) p = p n && all_below n p

pub all_below_lem : (n k : ℕ) (p : ℕ → Bool) → all_below n p ≡ true → k < n → p k ≡ true
all_below_lem zero k p h l = elim l [ ]
all_below_lem (suc n) k p h l = elim (ℕ_discrete k n) [
  | yes e ↦ rw e (ground arith)
  | no ne ↦ all_below_lem n k p (ground arith) (omega arith)
]

-- An edge is short, leads elsewhere, and has a length or makes `z` fall.
abbrev pub edge_ok : Nodes → (ℕ → ℕ) → ℕ → ℕ → Bool
edge_ok ns z n dir =
    not (leaves (ns n).type dir)
    || (ltb (dist_of ns n dir) 4096
        && ((ltb 0 (dist_of ns n dir) || ltb (z (ns (dest_of ns n dir)).id) (z (ns n).id))
            && not ((ns (dest_of ns n dir)).id == (ns n).id)))

abbrev pub falls_ok : Nodes → (ℕ → ℕ) → ℕ → ℕ → Bool
falls_ok ns rank n dir =
    is_sensor (ns n).type
    || (not (leaves (ns n).type dir) || ltb (rank (ns (dest_of ns n dir)).id) (rank (ns n).id))

out_of_two : (t : NodeType) (d : ℕ) → leaves t (suc (suc d)) ≡ false
out_of_two node_none d = ground arith
out_of_two node_sensor d = ground arith
out_of_two node_branch d = ground arith
out_of_two node_merge d = ground arith
out_of_two node_enter d = ground arith
out_of_two node_exit d = refl

-- The two edges that a node can have.
pub both_edges :
    (ns : Nodes) (n : ℕ) (p : ℕ → Bool)
    → (p 0 && p 1) ≡ true
    → (dir : ℕ) → leaves (ns n).type dir ≡ true
    → p dir ≡ true
both_edges ns n p h zero l = ground arith
both_edges ns n p h (suc zero) l = ground arith
both_edges ns n p h (suc (suc d)) l = let o = out_of_two (ns n).type d in absurd cc

either_of :
    (v s w f x : Bool)
    → (not v || (s && ((w || f) && not x))) ≡ true
    → v ≡ true
    → (s ≡ true) × ((w ≡ true) ⊎ (f ≡ true)) × (x ≡ false)
either_of true s true f x h k = (ground arith, inl refl, ground arith)
either_of true s false f x h k = (ground arith, inr (ground arith), ground arith)
either_of false s w f x h k = absurd (ground arith)

below_of : (a b : ℕ) → ltb a b ≡ true → a < b
below_of a b h = ground arith

other_of : (a b : ℕ) → (a == b) ≡ false → a ≢ b
other_of a b h e = ground arith

pub edge_ok_lem :
    (ns : Nodes) (z : ℕ → ℕ) (n dir : ℕ)
    → edge_ok ns z n dir ≡ true
    → leaves (ns n).type dir ≡ true
    → (dist_of ns n dir < 4096)
      × ((0 < dist_of ns n dir) ⊎ (z (ns (dest_of ns n dir)).id < z (ns n).id))
      × ((ns (dest_of ns n dir)).id ≢ (ns n).id)
edge_ok_lem ns z n dir h l =
    let j = (ns (dest_of ns n dir)).id in
    let w = dist_of ns n dir in
    let (s, e, o) =
      either_of (leaves (ns n).type dir) (ltb w 4096) (ltb 0 w) (ltb (z j) (z (ns n).id))
        (j == (ns n).id) h l in
    (
      below_of w 4096 s,
      elim e [ inl a ↦ inl (below_of 0 w a) | inr a ↦ inr (below_of (z j) (z (ns n).id) a) ],
      other_of j (ns n).id o,
    )

third_of : (s v f : Bool) → (s || (not v || f)) ≡ true → s ≡ false → v ≡ true → f ≡ true
third_of s v f h a b = ground arith

pub falls_ok_lem :
    (ns : Nodes) (rank : ℕ → ℕ) (n dir : ℕ)
    → falls_ok ns rank n dir ≡ true
    → is_sensor (ns n).type ≡ false
    → leaves (ns n).type dir ≡ true
    → rank (ns (dest_of ns n dir)).id < rank (ns n).id
falls_ok_lem ns rank n dir h s l = below_of (rank (ns (dest_of ns n dir)).id) (rank (ns n).id) (
    third_of (is_sensor (ns n).type) (leaves (ns n).type dir)
      (ltb (rank (ns (dest_of ns n dir)).id) (rank (ns n).id)) h s l)
