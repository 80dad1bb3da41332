-- ===== src/TrainPath/Route.antt =====
-- The way that `path_generate` and `pather_path` make of the predecessors.
use cs.Base.{
  ℕ, zero, suc, ◌+◌, ◌<◌, ◌≤◌, ◌≢◌, ◌≡◌, ◌⊎◌, refl, sym, ap, ◌∙◌, subst, arith, Bool, true, false,
  inl, inr, Bool-cases, List, [], ◌∷◌, ◌++◌, append_assoc, append-nil, length, length-append,
  Option, none, some, if◌then◌else◌, ltb, leb, neg32, ne→==, eq→==, lt→ltb, ◌==◌, ◌>>=◌, or_abort,
}
use native.Mathlib.Decide.{dec_lt}
use cs.Ring
use cs.Ring.{Ring}
use cs.Ring.Refine.{Holds, push-Holds}
use cs.TaskQueue.Refine.{first, last}
use cs.Track.{Node, Nodes, track_max}
use cs.TrainPath.{TrainPath}
use cs.TrainPath.Generate.{
  Finding, no_pred, any_node, free_for, walk, push_all, fill_path, find_from, dij_path_find,
  path_find, generate_between, path_generate, pather_between, pather_path,
}
use cs.TrainPath.Edges.{Edge, Known, Traced}
use cs.TrainPath.Ends.{Found, Result, find_from-Found}
use cs.TrainPath.Start.{NoPred, find_from-NoPred}

not_both : false ≡ true → ⊥
not_both e = ground arith

-- The pointers to the nodes of the table.
abbrev pub at_table : ℕ → List ℕ → List ℕ
at_table track [] = []
at_table track (i ∷ is) = (track + i) ∷ at_table track is

length-at_table : (track : ℕ) (is : List ℕ) → length (at_table track is) ≡ length is
length-at_table track [] = refl
length-at_table track (i ∷ is) = ap suc (length-at_table track is)

push_all-Holds :
    (is : List ℕ) (ahead : Ring ℕ) (track : ℕ) (ys : List ℕ)
    → Holds track_max ahead ys
    → length ys + length is ≤ track_max
    → Holds track_max (push_all ahead track is) (ys ++ at_table track is)
push_all-Holds [] ahead track ys h b = subst (Holds track_max ahead) (sym (append-nil ys)) h
push_all-Holds (i ∷ is) ahead track ys h b =
    let (_, h1) = push-Holds ahead ys (track + i) h (omega arith) in
    let a = (Ring.push track_max ahead (track + i)).1 in
    subst (Holds track_max (push_all a track is))
      (append_assoc ys ((track + i) ∷ []) (at_table track is))
      (push_all-Holds is a track (ys ++ ((track + i) ∷ [])) h1
        (omega (arith, length-append ys ((track + i) ∷ []))))

module _ (ns : Nodes) (track sid eid : ℕ) where
  abbrev pub Chained : List ℕ → Type 0
  Chained [] = Unit {0}
  Chained (x ∷ []) = Unit {0}
  Chained (x ∷ y ∷ ys) = Edge ns track sid x y × Chained (y ∷ ys)

  -- A way from the start to the end, along edges of the table.
  pub record IsRoute (xs : List ℕ) : Type 0 where
    pub chained : Chained xs
    pub from_start : first xs ≡ some sid
    pub to_end : last xs ≡ some eid

  abbrev Walked : Option (List ℕ) → Type 0
  Walked none = Unit {0}
  Walked (some xs) = (length xs ≤ 144) × (xs ≡ eid ∷ [] ⊎ IsRoute xs)

  walk_lem :
      (k : ℕ) (prev : ℕ → ℕ) (b : ℕ) (bs : List ℕ)
      → Traced ns track sid prev
      → Known ns track sid prev b
      → Chained (b ∷ bs)
      → last (b ∷ bs) ≡ some eid
      → length (b ∷ bs) ≤ 144
      → Walked (walk k prev (prev b) (b ∷ bs))
  unfolding walk
  walk_lem zero prev b bs t kn c e l = tt
  walk_lem (suc k) prev b bs t kn c e l = elim (Bool-cases (prev b == no_pred)) [
    | inl z ↦
        let at : prev b ≡ no_pred = ground arith in
        rw z (
          l,
          inr (record {
            chained = c;
            from_start = elim kn.1 [ inl q ↦ ap some q | inr ne ↦ absurd (ne at) ];
            to_end = e;
          }),
        )
    | inr z ↦ elim (dec_lt (length (b ∷ bs)) 144) [
      | no full ↦ let f : leb 144 (length (b ∷ bs)) ≡ true = ground arith in rw (z, f) tt
      | yes room ↦
          let f : leb 144 (length (b ∷ bs)) ≡ false = ground arith in
          elim (t b kn.0) [
            | inl at ↦ absurd (ground arith)
            | inr (d, kp) ↦
                rw (z, f) (walk_lem k prev (prev b) (b ∷ bs) t kp (d, c) e (omega arith))
          ]
    ]
  ]

  -- From the end back.
  walk_from_end :
      (k : ℕ) (prev : ℕ → ℕ)
      → Traced ns track sid prev
      → eid < 144
      → Walked (walk (suc k) prev (prev eid) (eid ∷ []))
  unfolding walk
  walk_from_end k prev t b = elim (Bool-cases (prev eid == no_pred)) [
    | inl z ↦ rw z (omega arith, inl refl)
    | inr z ↦ walk_lem (suc k) prev eid [] t (b, inr (λ q. ground arith)) tt refl (omega arith)
  ]

  -- What a call hands out: nothing, or a way over the track.
  abbrev pub Generated : Option (ℕ × TrainPath) → Type 0
  Generated none = Unit {0}
  Generated (some (r, p)) =
      (r ≡ neg32 1)
      ⊎ ((r ≡ 0) × (xs : List ℕ) × IsRoute xs × Holds track_max p.ahead (at_table track xs))

  filled :
      (p : TrainPath) (pred : ℕ → ℕ) (r : Option (List ℕ))
      → p.track ≡ track
      → Holds track_max p.ahead []
      → Walked r
      → Generated (
          r >>= λ buf.
          let ahead = push_all p.ahead p.track buf in
          if ltb ahead.size 2
          then some (neg32 1, record p { ahead = ahead; pred = pred })
          else some (0, record p { ahead = ahead; pred = pred; ready = true }))
  filled p pred none e h w = tt
  filled p pred (some xs) e h (l, w) =
      let h1 = push_all-Holds xs p.ahead p.track [] h (omega arith) in
      let n = h1.count in
      let a = push_all p.ahead p.track xs in
      elim (Bool-cases (ltb a.size 2)) [
        | inl short ↦ rw short (inl refl)
        | inr long ↦ rw long (
            inr (
              refl,
              xs,
              elim w [
                | inr route ↦ route
                | inl one ↦
                    let m = ap length one in
                    absurd (
                      not_both (
                        sym long
                        ∙ lt→ltb a.size 2 (omega (arith, m, n, length-at_table p.track xs))))
              ],
              subst (λ t. Holds track_max a (at_table t xs)) e h1,
            ))
      ]

  fill_path_lem :
      (p : TrainPath) (prev : ℕ → ℕ)
      → p.track ≡ track
      → Holds track_max p.ahead []
      → Traced ns track sid prev
      → eid < 144
      → Generated (fill_path p prev eid)
  unfolding fill_path
  fill_path_lem p prev e h t b =
      filled p prev (walk (suc track_max) prev (prev eid) (eid ∷ [])) e h
        (walk_from_end 144 prev t b)

  after_find :
      (check : Node → Bool) (p : TrainPath) (r : Option (Option Finding)) (ok : Finding → Bool)
      → p.track ≡ track
      → Holds track_max p.ahead []
      → Found check ns track sid eid r
      → eid < 144
      → (o : Option (ℕ × TrainPath)) × ((r >>= λ r.
            or_abort r (λ f1. if ok f1 then some (fill_path p f1.prev eid) else some none))
          ≡ some o)
        × Generated o
  after_find check p r ok e h (none, run, res) b = (none, rw run refl, tt)
  after_find check p r ok e h (some f1, run, res) b = elim (Bool-cases (ok f1)) [
    | inl y ↦ (fill_path p f1.prev eid, rw (run, y) refl, fill_path_lem p f1.prev e h res b)
    | inr y ↦ (none, rw (run, y) refl, tt)
  ]

generate_run :
    (fuel : ℕ) (ns : Nodes) (p : TrainPath) (f : Finding) (s d : ℕ)
    → s ≢ d
    → generate_between fuel ns p f (some s) (some d) ≡ (
        find_from any_node fuel ns p.track (ns s).id (ns d).id (record f { prev = p.pred }) >>= λ r.
        or_abort r (λ f1.
          if f1.prev (ns s).id == no_pred then some (fill_path p f1.prev (ns d).id) else some none))
unfolding generate_between dij_path_find
generate_run fuel ns p f s d ne = rw (ne→== s d ne) refl

pather_run :
    (fuel : ℕ) (ns : Nodes) (track : ℕ) (p : TrainPath) (trn : ℕ) (f : Finding) (s d : ℕ)
    → pather_between fuel ns track p trn f (some s) (some d) ≡ (
        find_from (free_for trn) fuel ns track (ns s).id (ns d).id (record f { prev = p.pred })
        >>= λ r. or_abort r (λ f1. some (fill_path (record p { track = track }) f1.prev (ns d).id)))
unfolding pather_between path_find
pather_run fuel ns track p trn f s d = refl

-- What `path_generate` makes of the outcome of the search: nothing when that was aborted, and otherwise
-- what is made of the predecessors, without a KASSERT that fails.
abbrev pub Made :
    Nodes → TrainPath → ℕ → ℕ → Option (Option (ℕ × TrainPath)) → Option Finding → Type 0
Made ns p s d call none = call ≡ some none
Made ns p s d call (some f1) =
    (call ≡ some (fill_path p f1.prev (ns d).id))
    × Generated ns p.track (ns s).id (ns d).id (fill_path p f1.prev (ns d).id)

Made-of :
    (ns : Nodes) (p : TrainPath) (f : Finding) (s d : ℕ) (o : Option Finding)
    → s ≢ d
    → (ns d).id < 144
    → Holds track_max p.ahead []
    → let r = find_from any_node 434 ns p.track (ns s).id (ns d).id (record f { prev = p.pred }) in
      r ≡ some o
      → Result any_node ns p.track (ns s).id (ns d).id o
      → NoPred any_node ns p.track (ns s).id (ns d).id (some o)
      → Made ns p s d (generate_between 434 ns p f (some s) (some d)) o
Made-of ns p f s d none ne b h run res np = generate_run 434 ns p f s d ne ∙ rw run refl
Made-of ns p f s d (some f1) ne b h run res np = (
  generate_run 434 ns p f s d ne ∙ rw (run, eq→== (f1.prev (ns s).id) no_pred np) refl,
  fill_path_lem ns p.track (ns s).id (ns d).id p f1.prev refl h res b,
)

-- For a path from `s` to another node `d`, with ids below 144 and nothing ahead yet, the search of
-- `path_generate` takes fewer than 434 rounds on any track. If it is not aborted by an access
-- outside an array, the KASSERT that `s` has no predecessor holds, and the call is what is made of
-- the predecessors: it returns -1, or 0 with a way ahead that leads from the id of `s` to that of
-- `d` along edges of the table, unless the walk back leaves the array for the way.
pub path_generate_lem :
    (ns : Nodes) (p : TrainPath) (f : Finding) (s d : ℕ)
    → p.start ≡ some s
    → p.stop ≡ some d
    → s ≢ d
    → (ns s).id < 144
    → (ns d).id < 144
    → Holds track_max p.ahead []
    → (r : Option Finding) × (dij_path_find 434 ns p.track s d (record f { prev = p.pred })
        ≡ some r)
      × Made ns p s d (path_generate 434 ns p f) r
unfolding path_generate dij_path_find
path_generate_lem ns p f s d hs hd ne bs bd h =
    let f0 = record f { prev = p.pred } in
    let (o, run, res) = find_from-Found any_node ns p.track (ns s).id (ns d).id f0 bs in
    let np = find_from-NoPred any_node ns p.track (ns s).id (ns d).id 434 f0 bs in
    (
      o,
      run,
      subst (λ c. Made ns p s d c o)
          (sym (
            ap (λ x. generate_between 434 ns p f x p.stop) hs
            ∙ ap (generate_between 434 ns p f (some s)) hd))
          (Made-of ns p f s d o ne bd h run res
            (subst (NoPred any_node ns p.track (ns s).id (ns d).id) run np)),
    )

-- The same for `pather_path`.
pub pather_path_lem :
    (ns : Nodes) (track : ℕ) (p : TrainPath) (trn : ℕ) (f : Finding) (s d : ℕ)
    → p.start ≡ some s
    → p.stop ≡ some d
    → (ns s).id < 144
    → (ns d).id < 144
    → Holds track_max p.ahead []
    → (o : Option (ℕ × TrainPath)) × (pather_path 434 ns track p trn f ≡ some o)
      × Generated ns track (ns s).id (ns d).id o
unfolding pather_path
pather_path_lem ns track p trn f s d hs hd bs bd h =
    let f0 = record f { prev = p.pred } in
    let (o, run, g) =
      after_find ns track (ns s).id (ns d).id (free_for trn) (record p { track = track })
        (find_from (free_for trn) 434 ns track (ns s).id (ns d).id f0) (λ f1. true) refl h
        (find_from-Found (free_for trn) ns track (ns s).id (ns d).id f0 bs) bd in
    (
      o,
      ap (λ x. pather_between 434 ns track p trn f x p.stop) hs
          ∙ ap (pather_between 434 ns track p trn f (some s)) hd
          ∙ pather_run 434 ns track p trn f s d
          ∙ run,
      g,
    )
