-- ===== src/TrainPath/Ends.antt =====
-- That the search for a way ends: a node is expanded once, and finds nothing when it comes up again.
use cs.Base.{
  ℕ, zero, suc, ◌+◌, ◌*◌, ◌<◌, ◌≤◌, ◌≡◌, refl, sym, ap, ◌∙◌, subst, fun_ext, arith, Bool, true,
  false, inl, inr, Bool-cases, Option, none, some, if◌then◌else◌, ne→==, eq→==, lt→ltb, ◌==◌,
  or_abort,
}
use native.Mathlib.Decide.{ℕ_discrete}
use cs.Track.{
  NodeType, node_none, node_sensor, node_branch, node_merge, node_enter, node_exit, Node, Nodes,
}
use cs.TrackHeap.{TrackQueue, tpq_init, tpq_add, tpq_pop}
use cs.TrackHeap.Values.{
  IsFilled, Popped, Added, tpq_pop-IsFilled, tpq_add-IsFilled, tpq_init-IsFilled, tpq_init-size,
}
use cs.TrainPath.Generate.{Finding, nedges, started, relax_edges, expand_node, find_loop, find_from}
use cs.TrainPath.Edges.{
  degree, target, Known, Traced, Settled, Sound, Stepped, relax_edges-Stepped, relax_edges_nothing,
}

-- The nodes below `n` at which the search has not been.
abbrev pub unseen : (ℕ → Bool) → ℕ → ℕ
unseen vist zero = 0
unseen vist (suc n) = unseen vist n + (if vist n then 0 else 1)

abbrev pub seeing : (ℕ → Bool) → ℕ → ℕ → Bool
seeing vist u w = if u == w then true else vist w

unseen-seeing_out : (vist : ℕ → Bool) (u n : ℕ) → n ≤ u → unseen (seeing vist u) n ≡ unseen vist n
unseen-seeing_out vist u zero h = refl
unseen-seeing_out vist u (suc n) h =
    rw (unseen-seeing_out vist u n (omega arith), ne→== u n (omega arith)) refl

unseen-seeing :
    (vist : ℕ → Bool) (u n : ℕ)
    → u < n
    → vist u ≡ false
    → suc (unseen (seeing vist u) n) ≡ unseen vist n
unseen-seeing vist u zero h e = elim h [ ]
unseen-seeing vist u (suc n) h e = elim (ℕ_discrete u n) [
  | yes q ↦
      let o : vist n ≡ false = ap vist (sym q) ∙ e in
      rw (unseen-seeing_out vist u n (omega arith), eq→== u n q, o) (omega arith)
  | no q ↦ let ih = unseen-seeing vist u n (omega arith) e in rw (ne→== u n q) (omega (arith, ih))
]

seeing_again : (vist : ℕ → Bool) (u : ℕ) → vist u ≡ true → seeing vist u ≡ vist
seeing_again vist u e = fun_ext (λ w. elim (ℕ_discrete u w) [
  | yes q ↦ rw (eq→== u w q) (sym e ∙ ap vist q)
  | no q ↦ rw (ne→== u w q) refl
])

seen : (vist : ℕ → Bool) (u v : ℕ) → vist v ≡ true → seeing vist u v ≡ true
seen vist u v h = ground arith

not_both : false ≡ true → ⊥
not_both e = ground arith

degree_small : (t : NodeType) → nedges t ≤ 2
degree_small node_none = omega arith
degree_small node_sensor = omega arith
degree_small node_branch = omega arith
degree_small node_merge = omega arith
degree_small node_enter = omega arith
degree_small node_exit = omega arith

module _ (check : Node → Bool) (ns : Nodes) (track sid did : ℕ) where
  -- What holds between two rounds.
  pub record Rests (s : Finding) : Type 0 where
    pub filled : IsFilled (Known ns track sid s.prev) s.q
    pub traced : Traced ns track sid s.prev
    pub settled :
        (w j : ℕ)
        → w < 144
        → s.vist w ≡ true
        → j < degree ns track sid w
        → Settled ns track sid s w j

  abbrev pub Result : Option Finding → Type 0
  Result none = Unit {0}
  Result (some s) = Traced ns track sid s.prev

  -- The search ends, and the predecessors that it leaves have edges to their nodes.
  abbrev pub Found : Option (Option Finding) → Type 0
  Found r = (o : Option Finding) × (r ≡ some o) × Result o

  abbrev work : Finding → ℕ
  work s = s.q.size + 3 * unseen s.vist 144

  Rests-Sound : (s : Finding) (u : ℕ) → Sound ns track sid s u (degree ns track sid u) → Rests s
  Rests-Sound s u o = record {
    filled = o.filled;
    traced = o.traced;
    settled = λ w j bw vw bj.
        o.settled w j bw vw bj (λ e. subst (λ x. j < degree ns track sid x) (sym e) bj);
  }

  -- The state in which the edges of a node that is new are looked at.
  Sound-new :
      (s : Finding) (u : ℕ) → Rests s → Sound ns track sid (record s { vist = seeing s.vist u }) u 0
  Sound-new s u o = record {
    filled = o.filled;
    traced = o.traced;
    settled = λ w j bw vw bj h. elim (ℕ_discrete u w) [
      | yes e ↦ absurd (omega (arith, h e))
      | no ne ↦ elim (o.settled w j bw (sym (rw (ne→== u w ne) refl) ∙ vw) bj) [
        | inl x ↦ inl (seen s.vist u (target ns track sid w j) x)
        | inr x ↦ inr x
      ]
    ];
  }

  -- After the edges of `u`.
  go_on :
      (k : ℕ) (s : Finding) (u n : ℕ) (r : Option Finding)
      → ((s1 : Finding) → Rests s1 → work s1 < k → Found (find_loop check k ns track did s1))
      → n + 3 * unseen s.vist 144 < k
      → s.q.size + degree ns track sid u ≤ n
      → Stepped ns track sid s u (degree ns track sid u) (degree ns track sid u) r
      → Found (or_abort r (λ s1. find_loop check k ns track did s1))
  go_on k s u n none ih b b2 h = (none, refl, tt)
  go_on k s u n (some s1) ih b b2 (o, kn, v, size) =
      let same : unseen s1.vist 144 ≡ unseen s.vist 144 = ap (λ f. unseen f 144) v in
      ih s1 (Rests-Sound s1 u o) (omega (arith, same))

  -- A node that comes up again: none of its edges makes a way shorter.
  expand_again :
      (s : Finding) (u : ℕ)
      → Rests s
      → u < 144
      → s.vist u ≡ true
      → relax_edges
          (nedges (ns (track + u)).type)
          ns
          track
          u
          0
          (record s { vist = seeing s.vist u })
        ≡ some s
  expand_again s u o b e =
      ap (λ v. relax_edges (degree ns track sid u) ns track u 0 (record s { vist = v }))
        (seeing_again s.vist u e)
      ∙ relax_edges_nothing ns track sid (degree ns track sid u) s u 0 (omega arith)
          (λ j bj. o.settled u j b e bj)

  expand_lem :
      (k : ℕ) (s : Finding) (u : ℕ)
      → ((s1 : Finding) → Rests s1 → work s1 < k → Found (find_loop check k ns track did s1))
      → Rests s
      → Known ns track sid s.prev u
      → work s < k
      → Found (or_abort (expand_node check ns track u s) (λ s1. find_loop check k ns track did s1))
  expand_lem k s u ih o kn b = elim (Bool-cases (check (ns (track + u)))) [
    | inr c ↦ (none, rw c refl, tt)
    | inl c ↦ elim (Bool-cases (s.vist u)) [
      | inl e ↦ let (r, run, res) = ih s o b in (r, rw (c, expand_again s u o kn.0 e) run, res)
      | inr e ↦
          let s0 = record s { vist = seeing s.vist u } in
          let less = unseen-seeing s.vist u 144 kn.0 e in
          let d = degree_small (ns (track + u)).type in
          let (r, run, res) =
            go_on k s0 u (s.q.size + 2) (relax_edges (degree ns track sid u) ns track u 0 s0) ih
              (omega (arith, less)) (omega (arith, d))
              (relax_edges-Stepped ns track sid (degree ns track sid u) s0 u 0 (omega arith)
                (Sound-new s u o) kn (rw (eq→== u u refl) refl)) in
          (r, rw c run, res)
    ]
  ]

  after_pop :
      (k : ℕ) (s : Finding) (r : Option (ℕ × TrackQueue))
      → ((s1 : Finding) → Rests s1 → work s1 < k → Found (find_loop check k ns track did s1))
      → Rests s
      → work s < suc k
      → Popped (Known ns track sid s.prev) s.q r
      → Found (
          or_abort r (λ r.
            if r.0 == did
            then some (some (record s { q = r.1 }))
            else or_abort
                (expand_node check ns track r.0 (record s { q = r.1 }))
                (λ s1. find_loop check k ns track did s1)))
  after_pop k s none ih o b h = (none, refl, tt)
  after_pop k s (some (u, q)) ih o b (kn, f, n) = elim (Bool-cases (u == did)) [
    | inl e ↦ (some (record s { q = q }), rw e refl, o.traced)
    | inr e ↦
        let s0 = record s { q = q } in
        let (r, run, res) =
          expand_lem k s0 u ih (record { filled = f; traced = o.traced; settled = o.settled }) kn
            (omega arith) in
        (r, rw e run, res)
  ]

  find_loop_lem :
      (k : ℕ) (s : Finding) → Rests s → work s < k → Found (find_loop check k ns track did s)
  unfolding find_loop
  find_loop_lem zero s o b = elim b [ ]
  find_loop_lem (suc k) s o b = elim (Bool-cases (s.q.size == 0)) [
    | inl e ↦ (some s, rw e refl, o.traced)
    | inr e ↦
        let (r, run, res) =
          after_pop k s (tpq_pop s.q) (find_loop_lem k) o b
            (tpq_pop-IsFilled (Known ns track sid s.prev) s.q o.filled e) in
        (r, rw e run, res)
  ]

  unseen-none : (vist : ℕ → Bool) (n : ℕ) → unseen vist n ≤ n
  unseen-none vist zero = omega arith
  unseen-none vist (suc n) = ground (arith, unseen-none vist n)

  begun-Rests :
      (s : Finding) (q : TrackQueue)
      → IsFilled (Known ns track sid (started s sid).prev) q
      → Rests (record (started s sid) { q = q })
  begun-Rests s q f = record {
    filled = f;
    traced = λ v b. inl (rw (lt→ltb v 144 b) refl);
    settled = λ w j bw vw bj. absurd (not_both (sym (rw (lt→ltb w 144 bw) refl) ∙ vw));
  }

  after_add :
      (s : Finding) (r : Option TrackQueue)
      → Added (Known ns track sid (started s sid).prev) sid (tpq_init s.q) r
      → Found
          (or_abort r (λ q. find_loop check 434 ns track did (record (started s sid) { q = q })))
  after_add s none a = (none, refl, tt)
  after_add s (some q) (b, f, n) =
      find_loop_lem 434 (record (started s sid) { q = q }) (begun-Rests s q f)
        (omega (arith, unseen-none (started s sid).vist 144, n, tpq_init-size s.q))

-- Ends.
pub find_from-Found :
    (check : Node → Bool) (ns : Nodes) (track sid did : ℕ) (s : Finding)
    → sid < 144
    → Found check ns track sid did (find_from check 434 ns track sid did s)
unfolding find_from
find_from-Found check ns track sid did s b =
    after_add check ns track sid did s (tpq_add (tpq_init s.q) sid 0) (
      tpq_add-IsFilled (Known ns track sid (started s sid).prev) (tpq_init s.q) sid 0
        (tpq_init-IsFilled (Known ns track sid (started s sid).prev) s.q) (b, inl refl))
