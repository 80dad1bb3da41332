-- ===== src/TrackHeap/Values.antt =====
-- What holds of every value in the heap goes on holding, in whatever order the nodes are.
use cs.Base.{
  ℕ, zero, suc, ◌-◌, ◌<◌, ◌≤◌, ◌≡◌, refl, sym, subst, arith, false, not, ◌&&◌, inl, inr, ◌⊎◌,
  Bool-cases, Option, none, some, leb, lt→leb, le→leb, add32, sub32, int_lt, ne→==, eq→==, ◌==◌,
  ◌>>=◌,
}
use native.Mathlib.Decide.{ℕ_discrete, dec_lt}
use cs.TrackHeap.{
  HeapNode, TrackQueue, Tree, left, right, parent, is_null, put, put_map, swapped, swapped_map,
  sift_up, sift_down, tpq_init, tpq_add, tpq_pop, pop_on,
}
use cs.TrackHeap.Pop.{
  NullFrom, NullFrom-swapped, child_inside, without_root, without_root-NullFrom, pop_is,
}

inside : (n i c : ℕ) → n ≡ 0 ⊎ i < n → c < n → i < n
inside n i c b h = omega arith

module _ (P : ℕ → Type 0) where
  abbrev pub AllVals : Tree → ℕ → Type 0
  AllVals tree n = (j : ℕ) → j < n → P (tree j).val

  AllVals-swapped :
      (tree : Tree) (n i c : ℕ) → AllVals tree n → i < n → c < n → AllVals (swapped tree i c) n
  AllVals-swapped tree n i c a bi bc j b = elim (ℕ_discrete i j) [
    | yes e ↦ rw (eq→== i j e) (a c bc)
    | no ne ↦ elim (ℕ_discrete c j) [
      | yes e ↦ rw (ne→== i j ne, eq→== c j e) (a i bi)
      | no ne2 ↦ rw (ne→== i j ne, ne→== c j ne2) (a j b)
    ]
  ]

  -- A tree of `n` nodes with the property, and nothing behind them.
  abbrev Filled : Tree → ℕ → Type 0
  Filled tree n = AllVals tree n × NullFrom tree n

  abbrev Sifted : ℕ → Option (Tree × (ℕ → ℕ)) → Type 0
  Sifted n none = Unit {0}
  Sifted n (some r) = Filled r.0 n

  Filled-swapped :
      (tree : Tree) (n i c : ℕ) → Filled tree n → i < n → c < n → Filled (swapped tree i c) n
  Filled-swapped tree n i c f bi bc =
      (AllVals-swapped tree n i c f.0 bi bc, NullFrom-swapped tree n i c f.1 bi bc)

  sift_up-Sifted :
      (k : ℕ) (tree : Tree) (map : ℕ → ℕ) (n i : ℕ)
      → i < n
      → Filled tree n
      → Sifted n (sift_up k tree map i)
  unfolding sift_up
  sift_up-Sifted zero tree map n i b f = tt
  sift_up-Sifted (suc k) tree map n i b f =
      elim (Bool-cases (int_lt (tree i).priority (tree (parent i)).priority)) [
        | inr stay ↦ rw stay f
        | inl go ↦ rw go (
            sift_up-Sifted k (swapped tree i (parent i)) (swapped_map tree map i (parent i)) n
              (parent i) (omega arith) (Filled-swapped tree n i (parent i) f b (omega arith)))
      ]

  sift_down-Sifted :
      (k : ℕ) (tree : Tree) (map : ℕ → ℕ) (n i : ℕ)
      → Filled tree n
      → n ≡ 0 ⊎ i < n
      → Sifted n (sift_down k tree map i)
  unfolding sift_down
  sift_down-Sifted zero tree map n i f b = tt
  sift_down-Sifted (suc k) tree map n i f b =
      let l = left i in
      let r = right i in
      elim (dec_lt l 144) [
        | no out ↦ rw (le→leb 144 l (omega arith)) tt
        | yes l_in ↦
            elim (Bool-cases
              (int_lt (tree l).priority (tree i).priority && not (is_null (tree l)))) [
                | inl go ↦
                    let c = child_inside tree n l i f.1 l_in go in
                    rw (lt→leb 144 l l_in, go)
                      (sift_down-Sifted k (swapped tree i l) (swapped_map tree map i l) n l
                        (Filled-swapped tree n i l f (inside n i l b c) c) (inr c))
                | inr stay ↦ elim (dec_lt r 144) [
                  | no out ↦ rw (lt→leb 144 l l_in, stay, le→leb 144 r (omega arith)) tt
                  | yes r_in ↦
                      elim (Bool-cases
                        (int_lt (tree r).priority (tree i).priority && not (is_null (tree r)))) [
                          | inl go ↦
                              let c = child_inside tree n r i f.1 r_in go in
                              rw (lt→leb 144 l l_in, stay, lt→leb 144 r r_in, go)
                                (sift_down-Sifted k (swapped tree i r) (swapped_map tree map i r) n
                                  r (Filled-swapped tree n i r f (inside n i r b c) c) (inr c))
                          | inr stay_r ↦ rw (lt→leb 144 l l_in, stay, lt→leb 144 r r_in, stay_r) f
                        ]
                ]
              ]
      ]

  pub record IsFilled (q : TrackQueue) : Type 0 where
    pub vals : AllVals q.tree q.size
    pub nulls : NullFrom q.tree q.size
    pub room : q.size ≤ 144

  abbrev pub Added : ℕ → TrackQueue → Option TrackQueue → Type 0
  Added val q none = Unit {0}
  Added val q (some q') = (val < 144) × IsFilled q' × (q'.size ≡ suc q.size)

  abbrev pub Popped : TrackQueue → Option (ℕ × TrackQueue) → Type 0
  Popped q none = Unit {0}
  Popped q (some (v, q')) = P v × IsFilled q' × (suc q'.size ≡ q.size)

  pub tpq_init-IsFilled : (q : TrackQueue) → IsFilled (tpq_init q)
  unfolding tpq_init
  tpq_init-IsFilled q = record {
    vals = λ j b. absurd (omega arith);
    nulls = λ j h b. rw (lt→leb 144 j b) refl;
    room = omega arith;
  }

  Filled-put :
      (tree : Tree) (n : ℕ) (x : HeapNode) → Filled tree n → P x.val → Filled (put tree n x) (suc n)
  Filled-put tree n x f p = (
    λ j b. elim (ℕ_discrete n j) [
      | yes e ↦ rw (eq→== n j e) p
      | no ne ↦ rw (ne→== n j ne) (f.0 j (omega arith))
    ],
    λ j h b. rw (ne→== n j (omega arith)) (f.1 j (omega arith) b),
  )

  added :
      (q : TrackQueue) (val : ℕ) (r : Option (Tree × (ℕ → ℕ)))
      → q.size < 144
      → val < 144
      → Sifted (suc q.size) r
      → Added val q (r >>= λ t. some (record { tree = t.0; map = t.1; size = add32 q.size 1 }))
  added q val none b v f = tt
  added q val (some t) b v f =
      let s : add32 q.size 1 ≡ suc q.size = omega arith in
      (v, record { vals = rw s f.0; nulls = rw s f.1; room = omega (arith, s) }, s)

  pub tpq_add-IsFilled :
      (q : TrackQueue) (val priority : ℕ)
      → IsFilled q
      → P val
      → Added val q (tpq_add q val priority)
  unfolding tpq_add
  tpq_add-IsFilled q val priority f p = elim (dec_lt q.size 144) [
    | no out ↦ rw (le→leb 144 q.size (omega arith)) tt
    | yes b ↦ elim (dec_lt val 144) [
      | no out ↦ rw (lt→leb 144 q.size b, le→leb 144 val (omega arith)) tt
      | yes v ↦
          let x : HeapNode = record { priority = priority; val = val } in
          rw (lt→leb 144 q.size b, lt→leb 144 val v)
            (added q val _ b v (
              sift_up-Sifted (suc q.size) (put q.tree q.size x) (put_map q.map val q.size)
                (suc q.size) q.size (omega arith) (Filled-put q.tree q.size x (f.vals, f.nulls) p)))
    ]
  ]

  without_root-Filled : (tree : Tree) (n : ℕ) → Filled tree (suc n) → Filled (without_root tree n) n
  without_root-Filled tree n f = (
    λ j b. elim (ℕ_discrete 0 j) [
      | yes e ↦ rw (ne→== n j (omega arith), eq→== 0 j e) (f.0 n (omega arith))
      | no ne ↦ rw (ne→== n j (omega arith), ne→== 0 j ne) (f.0 j (omega arith))
    ],
    without_root-NullFrom tree n f.1,
  )

  taken :
      (q : TrackQueue) (n : ℕ) (r : Option (Tree × (ℕ → ℕ)))
      → q.size ≡ suc n
      → n < 144
      → P (q.tree 0).val
      → Sifted n r
      → Popped q (r >>= λ t. some ((q.tree 0).val, record { tree = t.0; map = t.1; size = n }))
  taken q n none s b p f = tt
  taken q n (some t) s b p f = (p, record { vals = f.0; nulls = f.1; room = omega arith }, sym s)

  pop_on-IsFilled : (k n : ℕ) (q : TrackQueue) → q.size ≡ suc n → IsFilled q → Popped q (pop_on k q)
  unfolding pop_on
  pop_on-IsFilled k n q s f =
      let r = f.room in
      let i : sub32 q.size 1 ≡ n = omega arith in
      let old : Filled q.tree (suc n) = subst (Filled q.tree) s (f.vals, f.nulls) in
      rw (i, lt→leb 144 n (omega arith))
        (taken q n (sift_down k (without_root q.tree n) q.map 0) s (omega arith)
          (old.0 0 (omega arith))
          (sift_down-Sifted k (without_root q.tree n) q.map n 0 (without_root-Filled q.tree n old)
            (omega arith)))

  pub tpq_pop-IsFilled :
      (q : TrackQueue) → IsFilled q → (q.size == 0) ≡ false → Popped q (tpq_pop q)
  tpq_pop-IsFilled q f h =
      subst (Popped q) (sym (pop_is q)) (pop_on-IsFilled 144 (q.size - 1) q (ground arith) f)

pub IsFilled-map :
    (P Q : ℕ → Type 0) (q : TrackQueue) → ((v : ℕ) → P v → Q v) → IsFilled P q → IsFilled Q q
IsFilled-map P Q q h f = record {
  vals = λ j b. h (q.tree j).val (f.vals j b);
  nulls = f.nulls;
  room = f.room;
}

-- A value that the map has no place for.
pub tpq_add_outside :
    (q : TrackQueue) (val priority : ℕ) → 144 ≤ val → tpq_add q val priority ≡ none
unfolding tpq_add
tpq_add_outside q val priority h = elim (Bool-cases (leb 144 q.size)) [
  | inl e ↦ rw e refl
  | inr e ↦ rw (e, le→leb 144 val h) refl
]

pub tpq_init-size : (q : TrackQueue) → (tpq_init q).size ≡ 0
unfolding tpq_init
tpq_init-size q = refl
