-- ===== src/Reservation/Sweep.antt =====
-- `pather_reserve_to_sensor`: a train gets the track ahead of it, or finds that another has some of it.
use cs.Base.{
  ℕ, suc, ◌+◌, ◌*◌, ◌<◌, ◌^◌, ◌≡◌, ◌≢◌, ◌⊎◌, refl, sym, ap, ◌∙◌, subst, arith, true, Option, none,
  some, List, [], ◌∷◌, inl, inr, length, get_elem?, neg32, eq→==, ne→==,
}
use native.Mathlib.Decide.{ℕ_discrete}
use cs.Ring
use cs.Ring.{Ring}
use cs.Ring.Get.{get-Holds}
use cs.Ring.Inv.{init-IsValid}
use cs.Ring.Refine.{Holds, init-Holds}
use cs.TaskQueue.Refine.{mem}
use cs.Track.{Nodes, track_max}
use cs.Reservation.{Pather, pather_reserve_node}
use cs.Reservation.Region.{region, held, SameTrack, region-SameTrack}
use cs.Reservation.Ownership.{taken, others_at, IsGuarded, IsGuarded-same, reserve_node_lem}
use cs.Reservation.Search.{
  Search, beyond_sensor, got, reserve_loop, pather_reserve_to_sensor, get_all_to_sen_in_dist,
}
use cs.Reservation.Listing.{Fine, search_loop-Fine}
use cs.Reservation.Bounded.{IsMetric, HasSensors, get_all_to_sen_in_dist-Ends}

-- Every node belongs to the region that it stands for.
abbrev pub HasSelf : Pather → Type 0
HasSelf p = (n : ℕ) → mem (p.nodes n).id (region p.nodes n) ≡ true

-- What the loop of reservations leaves: nobody else loses or gains anything.
pub record Swept (p p' : Pather) (trn : ℕ) : Type 0 where
  pub guarded : (n : ℕ) → IsGuarded p' trn n
  pub node_ids : (n : ℕ) → (p'.nodes n).id ≡ (p.nodes n).id
  pub others_keep : (t i : ℕ) → trn ≢ t → held p' t i ≡ held p t i
  pub own_kept : (i : ℕ) → held p trn i ≡ true → held p' trn i ≡ true

-- One reservation that succeeds.
record Progress (p p1 : Pather) (trn n : ℕ) : Type 0 where
  same : SameTrack p.nodes p1.nodes
  guards : (m : ℕ) → IsGuarded p1 trn m
  others_alone : (t i : ℕ) → trn ≢ t → held p1 t i ≡ held p t i
  keeps : (i : ℕ) → held p trn i ≡ true → held p1 trn i ≡ true
  asked : held p1 trn (p.nodes n).id ≡ true

-- Either the nodes `xs` are all the train's, or one of them is another's.
abbrev pub Verdict : Pather → Pather → ℕ → List ℕ → ℕ → Type 0
Verdict p p' trn xs r =
    ((r ≡ 0) × ((x : ℕ) → mem x xs ≡ true → held p' trn (p.nodes x).id ≡ true))
    ⊎ ((r ≡ neg32 1)
        × ((x : ℕ) × (t : ℕ) × (mem x xs ≡ true) × (trn ≢ t) × (held p t (p.nodes x).id ≡ true)))

Swept-refl : (p : Pather) (trn : ℕ) → ((n : ℕ) → IsGuarded p trn n) → Swept p p trn
Swept-refl p trn w = record {
  guarded = w;
  node_ids = λ n. refl;
  others_keep = λ t i ne. refl;
  own_kept = λ i h. h;
}

-- And then the rest of the loop.
Swept-step : (p p1 p' : Pather) (trn n : ℕ) → Progress p p1 trn n → Swept p1 p' trn → Swept p p' trn
Swept-step p p1 p' trn n a s = record {
  guarded = s.guarded;
  node_ids = λ m. s.node_ids m ∙ (region-SameTrack p.nodes p1.nodes m a.same).1;
  others_keep = λ t i ne. s.others_keep t i ne ∙ a.others_alone t i ne;
  own_kept = λ i k. s.own_kept i (a.keeps i k);
}

HasSelf-same : (p p1 : Pather) → SameTrack p.nodes p1.nodes → HasSelf p → HasSelf p1
HasSelf-same p p1 same h n =
    let (s, e) = region-SameTrack p.nodes p1.nodes n same in rw (s, e) (h n)

granted_step :
    (p p1 : Pather) (trn n : ℕ)
    → ((m : ℕ) → IsGuarded p trn m)
    → HasSelf p
    → SameTrack p.nodes p1.nodes
    → ((t i : ℕ) → held p1 t i ≡ taken p trn n t i)
    → ((i : ℕ) → others_at p1 trn i ≡ others_at p trn i)
    → Progress p p1 trn n
granted_step p p1 trn n w own same h o = record {
  same = same;
  guards = λ m. IsGuarded-same p p1 trn m same o (w m);
  others_alone = λ t i ne. h t i ∙ rw (ne→== trn t ne) refl;
  keeps = λ i k. h trn i ∙ rw (eq→== trn trn refl, k) refl;
  asked = h trn (p.nodes n).id ∙ rw (eq→== trn trn refl, own n) (ground arith);
}

kept_step :
    (p : Pather) (trn n : ℕ)
    → ((m : ℕ) → IsGuarded p trn m)
    → held p trn (p.nodes n).id ≡ true
    → Progress p p trn n
kept_step p trn n w h = record {
  same = refl;
  guards = w;
  others_alone = λ t i ne. refl;
  keeps = λ i k. k;
  asked = h;
}

got_lem :
    (cb : Ring ℕ) (xs : List ℕ) (i x : ℕ)
    → Holds track_max cb xs
    → get_elem? xs i ≡ some x
    → got (Ring.get track_max cb i) ≡ some x
got_lem cb xs i x h e = let g = get-Holds cb xs i h in rw (g, e) refl

mem_first : (x : ℕ) (xs : List ℕ) → mem x (x ∷ xs) ≡ true
mem_first x xs = rw (eq→== x x refl) refl

Verdict-step :
    (p p1 p' : Pather) (trn n : ℕ) (xs : List ℕ) (r : ℕ)
    → Progress p p1 trn n
    → Swept p1 p' trn
    → Verdict p1 p' trn xs r
    → Verdict p p' trn (n ∷ xs) r
Verdict-step p p1 p' trn n xs r a s (inl (e, all)) = inl (
  e,
  λ x m. elim (ℕ_discrete x n) [
    | yes q ↦ rw q (s.own_kept (p.nodes n).id a.asked)
    | no ne ↦
        let i = (region-SameTrack p.nodes p1.nodes x a.same).1 in
        ap (held p' trn) (sym i) ∙ all x (sym (rw (ne→== x n ne) refl) ∙ m)
  ],
)
Verdict-step p p1 p' trn n xs r a s (inr (e, (x, t, m, ne, k))) =
    let i = (region-SameTrack p.nodes p1.nodes x a.same).1 in
    inr (
      e,
      (
        x,
        t,
        rw m (ground arith),
        ne,
        sym (a.others_alone t (p.nodes x).id ne) ∙ ap (held p1 t) (sym i) ∙ k,
      ),
    )

-- What the loop makes of the nodes `ys`, from the index `i` of the list on.
abbrev Looped : Pather → ℕ → Ring ℕ → ℕ → List ℕ → Type 0
Looped p trn nodes i ys =
    (r : ℕ) × (p' : Pather) × (reserve_loop (length ys) p trn nodes i ≡ some (r, p'))
    × Swept p p' trn
    × Verdict p p' trn ys r

loop_goes :
    (y : ℕ) (ys : List ℕ) (p p1 : Pather) (trn i : ℕ) (nodes : Ring ℕ)
    → got (Ring.get track_max nodes i) ≡ some y
    → pather_reserve_node p trn y ≡ (0, p1)
    → Progress p p1 trn y
    → Looped p1 trn nodes (suc i) ys
    → Looped p trn nodes i (y ∷ ys)
unfolding reserve_loop
loop_goes y ys p p1 trn i nodes g run a (r, p', rest, s, v) =
    (r, p', rw (g, run) rest, Swept-step p p1 p' trn y a s, Verdict-step p p1 p' trn y ys r a s v)

loop_stops :
    (y : ℕ) (ys : List ℕ) (p : Pather) (trn i : ℕ) (nodes : Ring ℕ)
    → ((m : ℕ) → IsGuarded p trn m)
    → got (Ring.get track_max nodes i) ≡ some y
    → others_at p trn (p.nodes y).id ≡ true
    → pather_reserve_node p trn y ≡ (neg32 1, p)
    → Looped p trn nodes i (y ∷ ys)
unfolding reserve_loop
loop_stops y ys p trn i nodes w g o run = (
  neg32 1,
  p,
  rw (g, run) refl,
  Swept-refl p trn w,
  inr (
    refl,
    (
      y,
      (p.reserv (p.nodes y).id).train_num,
      mem_first y ys,
      (λ e. absurd (ground arith)),
      ground arith,
    ),
  ),
)

reserve_loop_lem :
    (ys xs : List ℕ) (p : Pather) (trn i : ℕ) (nodes : Ring ℕ)
    → ((m : ℕ) → IsGuarded p trn m)
    → HasSelf p
    → Holds track_max nodes xs
    → ((j : ℕ) → get_elem? xs (i + j) ≡ get_elem? ys j)
    → Looped p trn nodes i ys
unfolding reserve_loop
reserve_loop_lem [] xs p trn i nodes w own h e =
    (0, p, refl, Swept-refl p trn w, inl (refl, λ x m. absurd (ground arith)))
reserve_loop_lem (y ∷ ys) xs p trn i nodes w own h e =
    let z : i + 0 ≡ i = omega arith in
    let g = got_lem nodes xs i y h (ap (get_elem? xs) (sym z) ∙ e 0) in
    let p1 = (pather_reserve_node p trn y).1 in
    let next = λ (j : ℕ). ap (get_elem? xs) (omega arith) ∙ e (suc j) in
    elim (reserve_node_lem p trn y (w y)) [
      | inl (o, c, same) ↦ loop_stops y ys p trn i nodes w g o (λ i. (c i, same i))
      | inr (inl (k, c, same)) ↦
          loop_goes y ys p p trn i nodes g (λ i. (c i, same i)) (kept_step p trn y w k)
            (reserve_loop_lem ys xs p trn (suc i) nodes w own h next)
      | inr (inr (f, c, same, all, o)) ↦
          let a = granted_step p p1 trn y w own same all o in
          loop_goes y ys p p1 trn i nodes g (ap (λ a. (a, p1)) c) a (
            reserve_loop_lem ys xs p1 trn (suc i) nodes a.guards (HasSelf-same p p1 same own) h
              next)
    ]

search_from-Fine :
    (fuel : ℕ) (ns : Nodes) (s : Search) (n min_dist : ℕ)
    → length s.found.buf ≡ track_max
    → Fine (get_all_to_sen_in_dist fuel ns s n min_dist)
unfolding get_all_to_sen_in_dist
search_from-Fine fuel ns s n min_dist e =
    search_loop-Fine (beyond_sensor min_dist) fuel ns _
      ([], init-Holds s.found (init-IsValid s.found (omega arith) (omega arith) e))

-- What the call makes of the outcome of the search.
abbrev pub Reserving : Pather → ℕ → Option (Option (ℕ × Pather)) → Option Search → Type 0
Reserving p trn call none = call ≡ some none
Reserving p trn call (some s) =
    (xs : List ℕ) × (r : ℕ) × (p' : Pather) × Holds track_max s.found xs
    × (call ≡ some (some (r, p')))
    × Swept p p' trn
    × Verdict p p' trn xs r

after_search :
    (fuel : ℕ) (p : Pather) (s : Search) (trn n dist : ℕ) (r : Option Search)
    → ((m : ℕ) → IsGuarded p trn m)
    → HasSelf p
    → get_all_to_sen_in_dist fuel p.nodes s n dist ≡ some r
    → Fine (some r)
    → Reserving p trn (pather_reserve_to_sensor fuel p s trn n dist) r
unfolding pather_reserve_to_sensor
after_search fuel p s trn n dist none w own e f = rw e refl
after_search fuel p s trn n dist (some s2) w own e (xs, h) =
    let (r, p', run, sw, v) =
      reserve_loop_lem xs xs p trn 0 s2.found w own h (λ j. ap (get_elem? xs) (omega arith)) in
    let c = h.count in
    (
      xs,
      r,
      p',
      h,
      rw e (ap (λ k. some (reserve_loop k p trn s2.found 0)) (sym c) ∙ ap some run),
      sw,
      v,
    )

-- On a track where every node belongs to its own region, edges are shorter than 4096, lead to
-- another id, and along those of length 0 a number below 4 falls, and every way round passes a
-- sensor, when no other train has any part of the region of a node that it does not have, the
-- search of `pather_reserve_to_sensor` ends; if no assert fails in it, the call returns 0 with
-- every node found the train's own, or -1 with one of them another train's, and either way no
-- other train gains or loses a node, the train loses none, and the regions are as safe to reserve
-- as before.
pub pather_reserve_to_sensor_lem :
    (p : Pather) (z rank : ℕ → ℕ) (s : Search) (trn n dist : ℕ)
    → ((m : ℕ) → IsGuarded p trn m)
    → HasSelf p
    → IsMetric p.nodes z
    → HasSensors p.nodes rank
    → length s.q.buf ≡ track_max
    → length s.found.buf ≡ track_max
    → dist < 2 ^ 28
    → let fuel = suc (3 ^ ((4 * dist + 4) * 144 + rank (p.nodes n).id)) in
      (r : Option Search) × (get_all_to_sen_in_dist fuel p.nodes s n dist ≡ some r)
      × Reserving p trn (pather_reserve_to_sensor fuel p s trn n dist) r
pather_reserve_to_sensor_lem p z rank s trn n dist w own m hs e e2 b =
    let fuel = suc (3 ^ ((4 * dist + 4) * 144 + rank (p.nodes n).id)) in
    let (r, run) = get_all_to_sen_in_dist-Ends p.nodes z rank s n dist m hs e b in
    (
      r,
      run,
      after_search fuel p s trn n dist r w own run
          (subst Fine run (search_from-Fine fuel p.nodes s n dist e2)),
    )
