-- ===== src/Reservation/Ends.antt =====
-- That the searches end.
use cs.Base.{
  ℕ, zero, suc, ◌+◌, ◌*◌, ◌<◌, ◌≤◌, ◌^◌, ◌≡◌, ◌≢◌, refl, sym, subst, arith, Bool, true, false,
  Option, none, some, List, [], ◌∷◌, ◌++◌, append_assoc, append-nil, ◌⊎◌, inl, inr, if◌then◌else◌,
  ◌==◌, ltb, Bool-cases, eq→==, ne→==, add32, ◌>>=◌, length,
}
use native.Mathlib.Decide.{ℕ_discrete, dec_lt}
use native.Mathlib.Nat.{pow-suc}
use cs.Ring
use cs.Ring.{Ring}
use cs.Ring.Refine.{Holds, push-Holds, push-Holds_full, pop-Holds}
use cs.Track.{
  NodeType, node_none, node_sensor, node_branch, node_merge, node_enter, node_exit, Node, Nodes,
  dir_ahead, dir_straight, dir_curved, track_max, dest_of, dist_of,
}
use cs.Reservation.Search.{Search, popped, go_on, expand, visit, search_loop}

pow_pos : (b : ℕ) → 1 ≤ 3 ^ b
pow_pos zero = omega arith
pow_pos (suc b) = rw (pow-suc 3 b) (omega (arith, pow_pos b))

pow_less : (a b : ℕ) → a < b → 3 ^ a * 3 ≤ 3 ^ b
pow_less a zero h = elim h [ ]
pow_less zero (suc b) h = rw (pow-suc 3 b) (omega (arith, pow_pos b))
pow_less (suc a) (suc b) h =
    let ih = pow_less a b (omega arith) in rw (pow-suc 3 a, pow-suc 3 b) (omega arith)

popped_ok :
    (r : Ring.Code × Option ℕ × Ring ℕ) (n : ℕ)
    → r.0 ≡ Ring.ok
    → r.1 ≡ some n
    → popped r ≡ some (n, r.2)
popped_ok (c, o, q) n a b = rw (a, b) refl

-- The directions in which a search leaves a node.
abbrev pub leaves : NodeType → ℕ → Bool
leaves node_branch dir = ltb dir 2
leaves node_exit dir = false
leaves t dir = dir == 0

-- What makes a search end: a node at level `l` that is not skipped leads to nodes that have less to go,
-- to a distance in bounds; `lev` is the level that a distance allows.
pub record Shrinks (skip : Node → ℕ → Bool) (ns : Nodes) (pot lev : ℕ → ℕ → ℕ) (ub : ℕ → ℕ)
    : Type 0 where
  pub small : (i : ℕ) → ub i < 2 ^ 31
  pub step :
      (n l d dir : ℕ)
      → skip (ns n) d ≡ false
      → l ≤ lev (ns n).id d
      → d ≤ ub (ns n).id
      → leaves (ns n).type dir ≡ true
      → (suc l ≤ lev (ns (dest_of ns n dir)).id (dist_of ns n dir + d))
        × (dist_of ns n dir + d ≤ ub (ns (dest_of ns n dir)).id)
        × (pot (suc l) (dest_of ns n dir) < pot l n)
        × ((ns (dest_of ns n dir)).id ≢ (ns n).id)

module _ (ns : Nodes) (pot lev : ℕ → ℕ → ℕ) (ub : ℕ → ℕ) where
  -- The nodes `xs` in the queue, all of one level: their distances allow that level.
  abbrev pub At : (ℕ → ℕ) → ℕ → List ℕ → Type 0
  At dist l [] = Unit {0}
  At dist l (x ∷ xs) =
      (l ≤ lev (ns x).id (dist (ns x).id)) × (dist (ns x).id ≤ ub (ns x).id) × At dist l xs

  At-snoc :
      (dist : ℕ → ℕ) (l c : ℕ) (xs : List ℕ)
      → At dist l xs
      → l ≤ lev (ns c).id (dist (ns c).id)
      → dist (ns c).id ≤ ub (ns c).id
      → At dist l (xs ++ (c ∷ []))
  At-snoc dist l c [] a h k = (h, k, tt)
  At-snoc dist l c (x ∷ xs) a h k = (a.0, a.1, At-snoc dist l c xs a.2 h k)

  At-write :
      (dist : ℕ → ℕ) (l i v : ℕ) (xs : List ℕ)
      → At dist l xs
      → l ≤ lev i v
      → v ≤ ub i
      → At (λ j. if i == j then v else dist j) l xs
  At-write dist l i v [] a h k = tt
  At-write dist l i v (x ∷ xs) a h k = elim (ℕ_discrete i (ns x).id) [
    | yes e ↦
        rw (eq→== i (ns x).id e)
          (subst (λ j. l ≤ lev j v) e h, subst (λ j. v ≤ ub j) e k, At-write dist l i v xs a.2 h k)
    | no ne ↦ rw (ne→== i (ns x).id ne) (a.0, a.1, At-write dist l i v xs a.2 h k)
  ]

  -- How many rounds a queue can take, at most.
  abbrev pub weight : ℕ → List ℕ → ℕ
  weight l [] = 0
  weight l (x ∷ xs) = 3 ^ pot l x + weight l xs

  weight-snoc : (l c : ℕ) (xs : List ℕ) → weight l (xs ++ (c ∷ [])) ≡ weight l xs + 3 ^ pot l c
  weight-snoc l c [] = omega arith
  weight-snoc l c (x ∷ xs) = omega (arith, weight-snoc l c xs)

  -- The nodes `xs` of level `l`, and after them `ys` of the next level.
  pub record Queued (s : Search) (l : ℕ) (xs ys : List ℕ) : Type 0 where
    pub holds : Holds track_max s.q (xs ++ ys)
    pub now : At s.dist l xs
    pub next : At s.dist (suc l) ys

  -- What a node at the end of an edge adds.
  go_on_lem :
      (s : Search) (l n dir : ℕ) (xs ys : List ℕ)
      → Queued s l xs ys
      → suc l ≤ lev (ns (dest_of ns n dir)).id (dist_of ns n dir + s.dist (ns n).id)
      → dist_of ns n dir + s.dist (ns n).id ≤ ub (ns (dest_of ns n dir)).id
      → ub (ns (dest_of ns n dir)).id < 2 ^ 31
      → (go_on ns s n dir ≡ none)
        ⊎ ((s' : Search) × (go_on ns s n dir ≡ some s')
            × Queued s' l xs (ys ++ (dest_of ns n dir ∷ []))
            × (s'.dist ≡ (λ i.
                if (ns (dest_of ns n dir)).id == i
                then dist_of ns n dir + s.dist (ns n).id
                else s.dist i)))
  go_on_lem s l n dir xs ys o w hi b = elim (dec_lt (length (xs ++ ys)) track_max) [
    | no full ↦
        let e = push-Holds_full s.q (xs ++ ys) (dest_of ns n dir) o.holds (omega arith) in
        inl (rw e refl)
    | yes room ↦
        let c = dest_of ns n dir in
        let (e, h) = push-Holds s.q (xs ++ ys) c o.holds room in
        let q' = (Ring.push track_max s.q c).1 in
        let v = dist_of ns n dir + s.dist (ns n).id in
        let sum : add32 (dist_of ns n dir) (s.dist (ns n).id) ≡ v = omega arith in
        let d' : ℕ → ℕ = λ i. if (ns c).id == i then v else s.dist i in
        let at_c : d' (ns c).id ≡ v = rw (eq→== (ns c).id (ns c).id refl) refl in
        inr (
          record s { q = q'; dist = d' },
          rw (e, sum) refl,
          record {
            holds = subst (Holds track_max q') (append_assoc xs ys (c ∷ [])) h;
            now = At-write s.dist l (ns c).id v xs o.now (omega arith) hi;
            next =
                At-snoc d' (suc l) c ys (At-write s.dist (suc l) (ns c).id v ys o.next w hi)
                  (rw at_c w) (rw at_c hi);
          },
          refl,
        )
  ]

  -- What becomes of the queue when the node `n` of level `l` has been dealt with.
  abbrev Dealt : Option Search → ℕ → ℕ → List ℕ → List ℕ → Type 0
  Dealt r l n xs ys =
      (r ≡ none)
      ⊎ ((s : Search) × (zs : List ℕ) × (r ≡ some s)
          × Queued s l xs zs
          × (weight (suc l) zs < weight (suc l) ys + 3 ^ pot l n))

  module _ {skip : Node → ℕ → Bool} (h : Shrinks skip ns pot lev ub) where
    -- One edge, for a node that is not skipped, whose distance the edge does not change.
    along :
        (s : Search) (l n dir : ℕ) (xs ys : List ℕ)
        → Queued s l xs ys
        → skip (ns n) (s.dist (ns n).id) ≡ false
        → l ≤ lev (ns n).id (s.dist (ns n).id)
        → s.dist (ns n).id ≤ ub (ns n).id
        → leaves (ns n).type dir ≡ true
        → (go_on ns s n dir ≡ none)
          ⊎ ((s' : Search) × (go_on ns s n dir ≡ some s')
              × Queued s' l xs (ys ++ (dest_of ns n dir ∷ []))
              × (s'.dist (ns n).id ≡ s.dist (ns n).id)
              × (3 ^ pot (suc l) (dest_of ns n dir) * 3 ≤ 3 ^ pot l n))
    along s l n dir xs ys o k lo up v =
        let d = s.dist (ns n).id in
        let c = dest_of ns n dir in
        let (w, b, p, other) = h.step n l d dir k lo up v in
        elim (go_on_lem s l n dir xs ys o w b (h.small (ns c).id)) [
          | inl e ↦ inl e
          | inr (s', e, o', f) ↦ inr (
            s',
            e,
            o',
            rw (f, ne→== (ns c).id (ns n).id other) refl,
            pow_less (pot (suc l) c) (pot l n) p,
          )
        ]

    expand_one :
        (s : Search) (l n : ℕ) (xs ys : List ℕ)
        → Queued s l xs ys
        → skip (ns n) (s.dist (ns n).id) ≡ false
        → l ≤ lev (ns n).id (s.dist (ns n).id)
        → s.dist (ns n).id ≤ ub (ns n).id
        → leaves (ns n).type dir_ahead ≡ true
        → Dealt (go_on ns s n dir_ahead) l n xs ys
    expand_one s l n xs ys o k lo up v = elim (along s l n dir_ahead xs ys o k lo up v) [
      | inl e ↦ inl e
      | inr (s', e, o', _, p) ↦
          let c = dest_of ns n dir_ahead in
          inr (
            s',
            ys ++ (c ∷ []),
            e,
            o',
            omega (arith, weight-snoc (suc l) c ys, pow_pos (pot (suc l) c)),
          )
    ]

    expand_two :
        (s : Search) (l n : ℕ) (xs ys : List ℕ)
        → Queued s l xs ys
        → skip (ns n) (s.dist (ns n).id) ≡ false
        → l ≤ lev (ns n).id (s.dist (ns n).id)
        → s.dist (ns n).id ≤ ub (ns n).id
        → leaves (ns n).type dir_curved ≡ true
        → leaves (ns n).type dir_straight ≡ true
        → Dealt (go_on ns s n dir_curved >>= λ s1. go_on ns s1 n dir_straight) l n xs ys
    expand_two s l n xs ys o k lo up v v2 = elim (along s l n dir_curved xs ys o k lo up v) [
      | inl e ↦ inl (rw e refl)
      | inr (s1, e, o1, d1, p) ↦
          let c = dest_of ns n dir_curved in
          elim (along s1 l n dir_straight xs (ys ++ (c ∷ [])) o1 (rw d1 k) (rw d1 lo) (rw d1 up)
            v2) [
              | inl e2 ↦ inl (rw e e2)
              | inr (s2, e2, o2, _, p2) ↦
                  let c2 = dest_of ns n dir_straight in
                  inr (
                    s2,
                    (ys ++ (c ∷ [])) ++ (c2 ∷ []),
                    rw e e2,
                    o2,
                    omega (
                      arith,
                      weight-snoc (suc l) c2 (ys ++ (c ∷ [])),
                      weight-snoc (suc l) c ys,
                      pow_pos (pot (suc l) c),
                      pow_pos (pot (suc l) c2),
                    ),
                  )
            ]
    ]

    expand_lem :
        (t : NodeType) (s : Search) (l n : ℕ) (xs ys : List ℕ)
        → (ns n).type ≡ t
        → Queued s l xs ys
        → skip (ns n) (s.dist (ns n).id) ≡ false
        → l ≤ lev (ns n).id (s.dist (ns n).id)
        → s.dist (ns n).id ≤ ub (ns n).id
        → Dealt (expand t ns s n) l n xs ys
    unfolding expand
    expand_lem node_branch s l n xs ys e o k lo up =
        expand_two s l n xs ys o k lo up (rw e refl) (rw e refl)
    expand_lem node_exit s l n xs ys e o k lo up =
        inr (s, ys, refl, o, omega (arith, pow_pos (pot l n)))
    expand_lem node_none s l n xs ys e o k lo up = expand_one s l n xs ys o k lo up (rw e refl)
    expand_lem node_sensor s l n xs ys e o k lo up = expand_one s l n xs ys o k lo up (rw e refl)
    expand_lem node_merge s l n xs ys e o k lo up = expand_one s l n xs ys o k lo up (rw e refl)
    expand_lem node_enter s l n xs ys e o k lo up = expand_one s l n xs ys o k lo up (rw e refl)

    visit_lem :
        (s : Search) (l n : ℕ) (xs ys : List ℕ)
        → Queued s l xs ys
        → l ≤ lev (ns n).id (s.dist (ns n).id)
        → s.dist (ns n).id ≤ ub (ns n).id
        → Dealt (visit skip ns s n) l n xs ys
    unfolding visit
    visit_lem s l n xs ys o lo up = elim (Bool-cases (skip (ns n) (s.dist (ns n).id))) [
      | inl e ↦ rw e (inr (s, ys, refl, o, omega (arith, pow_pos (pot l n))))
      | inr e ↦ rw e (
          expand_lem (ns n).type (record s { found = (Ring.push track_max s.found n).1 }) l n xs ys
            refl (record { holds = o.holds; now = o.now; next = o.next }) e lo up)
    ]

    abbrev pub Ends : ℕ → Search → Type 0
    Ends k s = (r : Option Search) × (search_loop skip k ns s ≡ some r)

    -- A round with a node in the queue.
    round_lem :
        (k l x : ℕ) (xs ys : List ℕ) (s : Search)
        → ((s' : Search) (zs : List ℕ)
            → Queued s' l xs zs
            → weight l xs + weight (suc l) zs < k
            → Ends k s')
        → Queued s l (x ∷ xs) ys
        → weight l (x ∷ xs) + weight (suc l) ys < suc k
        → Ends (suc k) s
    unfolding search_loop
    round_lem k l x xs ys s ih o b =
        let (c, out, h') = pop-Holds s.q (xs ++ ys) x o.holds in
        let q' = (Ring.pop track_max s.q).2 in
        let n = o.holds.count in
        let here : popped (Ring.pop track_max s.q) ≡ some (x, q') =
          popped_ok (Ring.pop track_max s.q) x c out in
        let s0 = record s { q = q' } in
        let busy = ne→== s.q.size 0 (omega arith) in
        elim (visit_lem s0 l x xs ys (record { holds = h'; now = o.now.2; next = o.next }) o.now.0
          o.now.1) [
            | inl e ↦ (none, rw (busy, here, e) refl)
            | inr (s', zs, e, o', w) ↦
                let (r, run) = ih s' zs o' (omega arith) in (r, rw (busy, here, e, run) refl)
          ]

    pub search_loop_lem :
        (k l : ℕ) (xs ys : List ℕ) (s : Search)
        → Queued s l xs ys
        → weight l xs + weight (suc l) ys < k
        → Ends k s
    unfolding search_loop
    search_loop_lem zero l xs ys s o b = elim b [ ]
    search_loop_lem (suc k) l (x ∷ xs) ys s o b =
        round_lem k l x xs ys s (λ s' zs. search_loop_lem k l xs zs s') o b
    search_loop_lem (suc k) l [] (y ∷ ys) s o b =
        round_lem k (suc l) y ys [] s (λ s' zs. search_loop_lem k (suc l) ys zs s')
          (record {
            holds = subst (Holds track_max s.q) (sym (append-nil (y ∷ ys))) o.holds;
            now = o.next;
            next = tt;
          })
          (omega arith)
    search_loop_lem (suc k) l [] [] s o b =
        let n = o.holds.count in (some s, rw (eq→== s.q.size 0 (omega arith)) refl)
