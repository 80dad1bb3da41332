-- ===== src/TrainPath/Start.antt =====
-- The node where the search for a way starts keeps no predecessor, as `path_generate` asserts.
use cs.Base.{
  lt→ltb, ◌<◌, ℕ, zero, suc, ◌+◌, ◌≡◌, ◌≢◌, ◌⊎◌, refl, ap, arith, Bool, true, false, not, ◌&&◌, inl,
  inr, Bool-cases, Option, none, some, if◌then◌else◌, ◌==◌, eq→==, ne→==, add32, int_lt, ◌>>=◌,
  or_abort,
}
use cs.Track.{Node, Nodes}
use cs.TrackHeap.{TrackQueue, tpq_add, tpq_init, tpq_pop}
use cs.TrackHeap.Values.{
  IsFilled, Added, Popped, tpq_init-IsFilled, tpq_add-IsFilled, tpq_pop-IsFilled,
}
use cs.TrainPath.Generate.{
  Finding, nedges, no_pred, started, relax, relax_edges, expand_node, find_loop, find_from,
}

and_left : (a b : Bool) → (not a && b) ≡ true → a ≡ false
and_left a b h = ground arith

module _ (check : Node → Bool) (ns : Nodes) (track sid did : ℕ) where
  -- The start has been visited, and has no predecessor.
  abbrev Kept : Finding → Type 0
  Kept s = (s.vist sid ≡ true) × (s.prev sid ≡ no_pred)

  abbrev KeptIn : Option Finding → Type 0
  KeptIn none = Unit {0}
  KeptIn (some s) = Kept s

  abbrev pub NoPred : Option (Option Finding) → Type 0
  NoPred none = Unit {0}
  NoPred (some none) = Unit {0}
  NoPred (some (some s)) = s.prev sid ≡ no_pred

  improved-Kept :
      (s : Finding) (u v alt : ℕ) (r : Option TrackQueue)
      → v ≢ sid
      → Kept s
      → KeptIn (
          r >>= λ q. some (record s {
            dist = λ w. if v == w then alt else s.dist w;
            prev = λ w. if v == w then u else s.prev w;
            q = q;
          }))
  improved-Kept s u v alt none ne h = tt
  improved-Kept s u v alt (some q) ne h = (h.0, rw (ne→== v sid ne) h.1)

  relax-Kept : (u i : ℕ) (s : Finding) → Kept s → KeptIn (relax ns track u i s)
  unfolding relax
  relax-Kept u i s h =
      let e = (ns (track + u)).edge i in
      let v = (ns e.dest).id in
      let alt = add32 (s.dist u) e.dist in
      elim (Bool-cases (not (s.vist v) && int_lt alt (s.dist v))) [
        | inr c ↦ rw c h
        | inl c ↦
            let out = and_left (s.vist v) (int_lt alt (s.dist v)) c in
            let ne : v ≢ sid = λ q. let t = ap s.vist q in let y = h.0 in absurd cc in
            rw c (improved-Kept s u v alt (tpq_add s.q v alt) ne h)
      ]

  then-Kept :
      (o : Option Finding) (f : Finding → Option Finding)
      → KeptIn o
      → ((s : Finding) → Kept s → KeptIn (f s))
      → KeptIn (o >>= f)
  then-Kept none f h k = tt
  then-Kept (some s) f h k = k s h

  relax_edges-Kept : (k u i : ℕ) (s : Finding) → Kept s → KeptIn (relax_edges k ns track u i s)
  unfolding relax_edges
  relax_edges-Kept zero u i s h = h
  relax_edges-Kept (suc k) u i s h =
      then-Kept (relax ns track u i s) (λ s1. relax_edges k ns track u (suc i) s1)
        (relax-Kept u i s h) (λ s1 h1. relax_edges-Kept k u (suc i) s1 h1)

  -- A node is looked at: it is the start, or the start has been looked at before.
  expand-Kept :
      (u : ℕ) (s : Finding)
      → s.prev sid ≡ no_pred
      → (s.vist sid ≡ true) ⊎ (u ≡ sid)
      → KeptIn (expand_node check ns track u s)
  expand-Kept u s p h = elim (Bool-cases (check (ns (track + u)))) [
    | inr c ↦ rw c tt
    | inl c ↦
        let seen : (if u == sid then true else s.vist sid) ≡ true = elim h [
          | inl y ↦ rw y (ground arith)
          | inr e ↦ rw (eq→== u sid e) refl
        ] in
        rw c (relax_edges-Kept (nedges (ns (track + u)).type) u 0 _ (seen, p))
  ]

  -- The start has been visited, or nothing else is in the queue.
  abbrev pub Begun : Finding → Type 0
  Begun s = (s.prev sid ≡ no_pred) × ((s.vist sid ≡ true) ⊎ IsFilled (λ v. v ≡ sid) s.q)

  after_expand :
      (k : ℕ) (o : Option Finding)
      → ((s1 : Finding) → Begun s1 → NoPred (find_loop check k ns track did s1))
      → KeptIn o
      → NoPred (or_abort o (λ s1. find_loop check k ns track did s1))
  after_expand k none ih h = tt
  after_expand k (some s1) ih h = ih s1 (h.1, inl h.0)

  after_pop :
      (k : ℕ) (s : Finding) (r : Option (ℕ × TrackQueue))
      → ((s1 : Finding) → Begun s1 → NoPred (find_loop check k ns track did s1))
      → s.prev sid ≡ no_pred
      → (s.vist sid ≡ true) ⊎ Popped (λ v. v ≡ sid) s.q r
      → NoPred (
          or_abort r (λ r.
            if r.0 == did
            then some (some (record s { q = r.1 }))
            else or_abort
                (expand_node check ns track r.0 (record s { q = r.1 }))
                (λ s1. find_loop check k ns track did s1)))
  after_pop k s none ih p h = tt
  after_pop k s (some (u, q)) ih p h = elim (Bool-cases (u == did)) [
    | inl e ↦ rw e p
    | inr e ↦
        let s0 = record s { q = q } in
        let at : (s.vist sid ≡ true) ⊎ (u ≡ sid) = elim h [ inl y ↦ inl y | inr f ↦ inr f.0 ] in
        rw e (after_expand k (expand_node check ns track u s0) ih (expand-Kept u s0 p at))
  ]

  find_loop-NoPred : (k : ℕ) (s : Finding) → Begun s → NoPred (find_loop check k ns track did s)
  unfolding find_loop
  find_loop-NoPred zero s b = tt
  find_loop-NoPred (suc k) s b = elim (Bool-cases (s.q.size == 0)) [
    | inl e ↦ rw e b.0
    | inr e ↦ rw e (
        after_pop k s (tpq_pop s.q) (find_loop-NoPred k) b.0
          (elim b.1 [ inl y ↦ inl y | inr f ↦ inr (tpq_pop-IsFilled (λ v. v ≡ sid) s.q f e) ]))
  ]

  after_add :
      (fuel : ℕ) (s : Finding) (r : Option TrackQueue)
      → (started s sid).prev sid ≡ no_pred
      → Added (λ v. v ≡ sid) sid (tpq_init s.q) r
      → NoPred
          (or_abort r (λ q. find_loop check fuel ns track did (record (started s sid) { q = q })))
  after_add fuel s none p a = tt
  after_add fuel s (some q) p a =
      find_loop-NoPred fuel (record (started s sid) { q = q }) (p, inr a.1)

  pub find_from-NoPred :
      (fuel : ℕ) (s : Finding) → sid < 144 → NoPred (find_from check fuel ns track sid did s)
  unfolding find_from
  find_from-NoPred fuel s b =
      after_add fuel s (tpq_add (tpq_init s.q) sid 0) (rw (lt→ltb sid 144 b) refl) (
        tpq_add-IsFilled (λ v. v ≡ sid) (tpq_init s.q) sid 0 (tpq_init-IsFilled (λ v. v ≡ sid) s.q)
          refl)
