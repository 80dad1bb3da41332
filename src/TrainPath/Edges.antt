-- ===== src/TrainPath/Edges.antt =====
-- What the search for a way knows at every moment: that each predecessor has an edge to its node.
use cs.Base.{
  ℕ, zero, suc, ◌+◌, ◌<◌, ◌≤◌, ◌≢◌, ◌≡◌, ◌⊎◌, refl, sym, ap, ◌∙◌, subst, arith, Bool, true, false,
  not, ◌&&◌, inl, inr, Bool-cases, Option, none, some, if◌then◌else◌, add32, int_lt, ne→==, eq→==,
  ◌==◌, ◌>>=◌,
}
use native.Mathlib.Decide.{ℕ_discrete, dec_lt}
use cs.Track.{Nodes}
use cs.TrackHeap.{TrackQueue, tpq_add}
use cs.TrackHeap.Values.{IsFilled, IsFilled-map, Added, tpq_add-IsFilled, tpq_add_outside}
use cs.TrainPath.Generate.{Finding, nedges, no_pred, relax, relax_edges}

-- The lengths are compared as `int`.
not_less : (a b c : ℕ) → int_lt a b ≡ false → int_lt c b ≡ true → int_lt a c ≡ false
not_less a b c h k = ground arith

less_self : (a : ℕ) → int_lt a a ≡ false
less_self a = ground arith

stays : (a b : Bool) → (a ≡ true) ⊎ (b ≡ false) → (not a && b) ≡ false
stays a b h = ground arith

and_right : (a b : Bool) → (a && b) ≡ true → b ≡ true
and_right a b h = ground arith

not_both : true ≡ false → ⊥
not_both e = ground arith

module _ (ns : Nodes) (track sid : ℕ) where
  -- The number of edges that leave the node `u`, and where the `i`-th leads.
  abbrev pub degree : ℕ → ℕ
  degree u = nedges (ns (track + u)).type

  abbrev pub target : ℕ → ℕ → ℕ
  target u i = (ns ((ns (track + u)).edge i).dest).id

  abbrev pub length_of : ℕ → ℕ → ℕ
  length_of u i = ((ns (track + u)).edge i).dist

  abbrev pub Edge : ℕ → ℕ → Type 0
  Edge u v = (i : ℕ) × (i < degree u) × (target u i ≡ v)

  -- The node has been come to.
  abbrev pub Known : (ℕ → ℕ) → ℕ → Type 0
  Known prev v = (v < 144) × (v ≡ sid ⊎ prev v ≢ no_pred)

  abbrev pub Traced : (ℕ → ℕ) → Type 0
  Traced prev = (v : ℕ) → v < 144 → (prev v ≡ no_pred) ⊎ (Edge (prev v) v × Known prev (prev v))

  -- The edge `i` of `u` makes no way shorter.
  abbrev pub Settled : Finding → ℕ → ℕ → Type 0
  Settled s u i =
      (s.vist (target u i) ≡ true)
      ⊎ (int_lt (add32 (s.dist u) (length_of u i)) (s.dist (target u i)) ≡ false)

  -- The search has come to the edge `i` of `u`: the edges of the other nodes that it has been at, and
  -- those of `u` before `i`, make no way shorter.
  pub record Sound (s : Finding) (u i : ℕ) : Type 0 where
    pub filled : IsFilled (Known s.prev) s.q
    pub traced : Traced s.prev
    pub settled :
        (w j : ℕ) → w < 144 → s.vist w ≡ true → j < degree w → (u ≡ w → j < i) → Settled s w j

  no_shorter :
      (s : Finding) (u i : ℕ)
      → (not (s.vist (target u i))
          && int_lt (add32 (s.dist u) (length_of u i)) (s.dist (target u i)))
        ≡ false
      → Settled s u i
  no_shorter s u i h = elim (Bool-cases (s.vist (target u i))) [
    | inl e ↦ inl e
    | inr e ↦ inr (sym (rw e refl) ∙ h)
  ]

  -- The new predecessor of `v`.
  abbrev with_prev : (ℕ → ℕ) → ℕ → ℕ → ℕ → ℕ
  with_prev prev v u w = if v == w then u else prev w

  Known-with_prev :
      (prev : ℕ → ℕ) (u v w : ℕ) → u < 144 → Known prev w → Known (with_prev prev v u) w
  Known-with_prev prev u v w b (bw, inl e) = (bw, inl e)
  Known-with_prev prev u v w b (bw, inr ne) = (
    bw,
    inr (elim (ℕ_discrete v w) [
      | yes e ↦ rw (eq→== v w e) (omega arith)
      | no q ↦ rw (ne→== v w q) ne
    ]),
  )

  Traced-with_prev :
      (prev : ℕ → ℕ) (u v : ℕ) → Traced prev → Known prev u → Edge u v → Traced (with_prev prev v u)
  Traced-with_prev prev u v t k e w b = elim (ℕ_discrete v w) [
    | yes q ↦ rw (eq→== v w q) (inr (subst (Edge u) q e, Known-with_prev prev u v u k.0 k))
    | no q ↦ rw (ne→== v w q) (elim (t w b) [
      | inl x ↦ inl x
      | inr (d, x) ↦ inr (d, Known-with_prev prev u v (prev w) k.0 x)
    ])
  ]

  -- What a step on the edges of `u` leaves.
  abbrev pub Stepped : Finding → ℕ → ℕ → ℕ → Option Finding → Type 0
  Stepped s u i k none = Unit {0}
  Stepped s u i k (some s') =
      Sound s' u i × Known s'.prev u × (s'.vist ≡ s.vist) × (s'.q.size ≤ s.q.size + k)

  abbrev improve : Finding → ℕ → ℕ → ℕ → TrackQueue → Finding
  improve s u v alt q = record s {
    dist = λ w. if v == w then alt else s.dist w;
    prev = with_prev s.prev v u;
    q = q;
  }

  -- Another edge that made no way shorter makes none now.
  improve-other :
      (s : Finding) (u v alt w j : ℕ) (q : TrackQueue)
      → s.vist w ≡ true
      → s.vist v ≡ false
      → int_lt alt (s.dist v) ≡ true
      → Settled s w j
      → Settled (improve s u v alt q) w j
  improve-other s u v alt w j q vw new less (inl e) = inl e
  improve-other s u v alt w j q vw new less (inr e) =
      let vn : v ≢ w = λ z. not_both (sym vw ∙ ap s.vist (sym z) ∙ new) in
      inr (elim (ℕ_discrete v (target w j)) [
        | yes z ↦
            rw (ne→== v w vn, eq→== v (target w j) z)
              (not_less (add32 (s.dist w) (length_of w j)) (s.dist v) alt
                (subst (λ x. int_lt (add32 (s.dist w) (length_of w j)) (s.dist x) ≡ false) (sym z)
                  e)
                less)
        | no z ↦ rw (ne→== v w vn, ne→== v (target w j) z) e
      ])

  -- The edge itself makes none either, once its end has been brought nearer.
  improve_self :
      (s : Finding) (u i : ℕ) (q : TrackQueue)
      → s.vist u ≡ true
      → s.vist (target u i) ≡ false
      → Settled (improve s u (target u i) (add32 (s.dist u) (length_of u i)) q) u i
  improve_self s u i q here new =
      let v = target u i in
      let vn : v ≢ u = λ z. not_both (sym here ∙ ap s.vist (sym z) ∙ new) in
      inr (rw (ne→== v u vn, eq→== v v refl) (less_self (add32 (s.dist u) (length_of u i))))

  improve-Settled :
      (s : Finding) (u i : ℕ) (q : TrackQueue)
      → Sound s u i
      → s.vist u ≡ true
      → s.vist (target u i) ≡ false
      → int_lt (add32 (s.dist u) (length_of u i)) (s.dist (target u i)) ≡ true
      → (w j : ℕ) → w < 144
      → s.vist w ≡ true
      → j < degree w
      → (u ≡ w → j < suc i)
      → Settled (improve s u (target u i) (add32 (s.dist u) (length_of u i)) q) w j
  improve-Settled s u i q o here new less w j bw vw bj h =
      let alt = add32 (s.dist u) (length_of u i) in
      let other = λ (k : u ≡ w → j < i).
        improve-other s u (target u i) alt w j q vw new less (o.settled w j bw vw bj k) in
      elim (ℕ_discrete u w) [
        | no ne ↦ other (λ e. absurd (ne e))
        | yes e ↦ elim (ℕ_discrete j i) [
          | no ne ↦ other (λ z. omega (arith, h e))
          | yes z ↦
              subst (λ x. Settled (improve s u (target u i) alt q) x j) e
                (subst (λ x. Settled (improve s u (target u i) alt q) u x) (sym z)
                  (improve_self s u i q here new))
        ]
      ]

  stay_next :
      (s : Finding) (u i : ℕ)
      → Sound s u i
      → (not (s.vist (target u i))
          && int_lt (add32 (s.dist u) (length_of u i)) (s.dist (target u i)))
        ≡ false
      → (w j : ℕ) → w < 144
      → s.vist w ≡ true
      → j < degree w
      → (u ≡ w → j < suc i)
      → Settled s w j
  stay_next s u i o stay w j bw vw bj h = elim (ℕ_discrete u w) [
    | no ne ↦ o.settled w j bw vw bj (λ e. absurd (ne e))
    | yes e ↦ elim (ℕ_discrete j i) [
      | no ne ↦ o.settled w j bw vw bj (λ z. omega (arith, h e))
      | yes z ↦
          subst (λ x. Settled s x j) e (subst (λ x. Settled s u x) (sym z) (no_shorter s u i stay))
    ]
  ]

  improved-Stepped :
      (s : Finding) (u i : ℕ) (r : Option TrackQueue)
      → Sound s u i
      → i < degree u
      → Known s.prev u
      → s.vist u ≡ true
      → s.vist (target u i) ≡ false
      → int_lt (add32 (s.dist u) (length_of u i)) (s.dist (target u i)) ≡ true
      → Added (Known (with_prev s.prev (target u i) u)) (target u i) s.q r
      → Stepped s u
          (suc i)
          1
          (r >>= λ q. some (improve s u (target u i) (add32 (s.dist u) (length_of u i)) q))
  improved-Stepped s u i none o b k here new less a = tt
  improved-Stepped s u i (some q) o b k here new less (v, f, n) = (
    record {
      filled = f;
      traced = Traced-with_prev s.prev u (target u i) o.traced k (i, b, refl);
      settled = improve-Settled s u i q o here new less;
    },
    Known-with_prev s.prev u (target u i) u k.0 k,
    refl,
    omega arith,
  )

  relax-Stepped :
      (s : Finding) (u i : ℕ)
      → Sound s u i
      → i < degree u
      → Known s.prev u
      → s.vist u ≡ true
      → Stepped s u (suc i) 1 (relax ns track u i s)
  unfolding relax
  relax-Stepped s u i o b k here =
      let v = target u i in
      let alt = add32 (s.dist u) (length_of u i) in
      elim (Bool-cases (not (s.vist v) && int_lt alt (s.dist v))) [
        | inr stay ↦ rw stay (
          record {
            filled = o.filled;
            traced = o.traced;
            settled = λ w j bw vw bj h. stay_next s u i o stay w j bw vw bj h;
          },
          k,
          refl,
          omega arith,
        )
        | inl go ↦
            let new : s.vist v ≡ false = ground arith in
            let less : int_lt alt (s.dist v) ≡ true = and_right (not (s.vist v)) _ go in
            rw go (elim (dec_lt v 144) [
              | no out ↦ let e = tpq_add_outside s.q v alt (omega arith) in rw e tt
              | yes bv ↦
                  let known : Known (with_prev s.prev v u) v =
                    (bv, inr (rw (eq→== v v refl) (λ z. absurd (omega (arith, k.0, z))))) in
                  improved-Stepped s u i (tpq_add s.q v alt) o b k here new less (
                    tpq_add-IsFilled (Known (with_prev s.prev v u)) s.q v alt
                      (IsFilled-map (Known s.prev) (Known (with_prev s.prev v u)) s.q
                        (λ w. Known-with_prev s.prev u v w k.0) o.filled)
                      known)
            ])
      ]

  weaken :
      (s s1 : Finding) (u k : ℕ) (r : Option Finding)
      → s1.vist ≡ s.vist
      → s1.q.size ≤ s.q.size + 1
      → Stepped s1 u (degree u) k r
      → Stepped s u (degree u) (suc k) r
  weaken s s1 u k none v n h = tt
  weaken s s1 u k (some s2) v n (o, kn, v2, n2) = (o, kn, v2 ∙ v, omega arith)

  -- One edge and then the rest, which the third argument deals with.
  then_edges :
      (k : ℕ) (s : Finding) (u i : ℕ) (r : Option Finding)
      → ((s1 : Finding)
          → Sound s1 u (suc i)
          → Known s1.prev u
          → s1.vist u ≡ true
          → Stepped s1 u (degree u) k (relax_edges k ns track u (suc i) s1))
      → s.vist u ≡ true
      → Stepped s u (suc i) 1 r
      → Stepped s u (degree u) (suc k) (r >>= λ s1. relax_edges k ns track u (suc i) s1)
  then_edges k s u i none rest here h = tt
  then_edges k s u i (some s1) rest here (o, kn, v, n) =
      weaken s s1 u k (relax_edges k ns track u (suc i) s1) v n
        (rest s1 o kn (ap (λ f. f u) v ∙ here))

  -- The edges from the `i`-th on.
  pub relax_edges-Stepped :
      (k : ℕ) (s : Finding) (u i : ℕ)
      → k + i ≡ degree u
      → Sound s u i
      → Known s.prev u
      → s.vist u ≡ true
      → Stepped s u (degree u) k (relax_edges k ns track u i s)
  unfolding relax_edges
  relax_edges-Stepped zero s u i e o kn here =
      let z : i ≡ degree u = omega arith in (subst (Sound s u) z o, kn, refl, omega arith)
  relax_edges-Stepped (suc k) s u i e o kn here =
      then_edges k s u i (relax ns track u i s)
        (λ s1 o1 k1 h1. relax_edges-Stepped k s1 u (suc i) (omega arith) o1 k1 h1) here
        (relax-Stepped s u i o (omega arith) kn here)

  -- With every edge settled, nothing happens.
  relax_nothing : (s : Finding) (u i : ℕ) → Settled s u i → relax ns track u i s ≡ some s
  unfolding relax
  relax_nothing s u i h =
      let b : (not (s.vist (target u i))
            && int_lt (add32 (s.dist u) (length_of u i)) (s.dist (target u i)))
          ≡ false =
        stays (s.vist (target u i)) _ h in
      rw b refl

  pub relax_edges_nothing :
      (k : ℕ) (s : Finding) (u i : ℕ)
      → k + i ≡ degree u
      → ((j : ℕ) → j < degree u → Settled s u j)
      → relax_edges k ns track u i s ≡ some s
  unfolding relax_edges
  relax_edges_nothing zero s u i e h = refl
  relax_edges_nothing (suc k) s u i e h =
      let r = relax_nothing s u i (h i (omega arith)) in
      let ih = relax_edges_nothing k s u (suc i) (omega arith) h in rw (r, ih) refl
