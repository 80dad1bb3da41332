-- ===== src/TrainPath/Follow.antt =====
-- A path against the lists of the nodes ahead and behind.
use cs.Base.{
  ℕ, suc, ◌+◌, ◌≤◌, ◌≡◌, refl, sym, ap, ◌∙◌, subst, arith, Bool, true, false, ◌&&◌, Option, none,
  some, List, [], ◌∷◌, ◌++◌, append_assoc, append-nil, length, length-append, get_elem?,
  if◌then◌else◌, ◌==◌, neg32, ◌>>=◌, eq→==, lt→ltb,
}
use cs.Ring
use cs.Ring.{Ring}
use cs.Ring.Get.{get-Holds}
use cs.Ring.Refine.{Holds, push-Holds, pop-Holds}
use cs.TaskQueue.Refine.{mem}
use cs.Track.{track_max}
use cs.TrainPath.{
  TrainPath, leave, loaded, load_next, check_end, is_null, path_next, find_ahead, next_times,
  follow_from, path_follow_to,
}

abbrev pub here : Option ℕ → List ℕ
here none = []
here (some n) = n ∷ []

-- The train is on its way: the nodes `xs` are ahead, `ys` behind.
pub record IsUnderway (p : TrainPath) (xs ys : List ℕ) : Type 0 where
  pub moving : p.active ≡ true
  pub ahead_holds : Holds track_max p.ahead xs
  pub behind_holds : Holds track_max p.behind ys

leave_lem :
    (p : TrainPath) (c : Option ℕ) (ys : List ℕ)
    → p.current ≡ c
    → Holds track_max p.behind ys
    → length (ys ++ here c) ≤ track_max
    → (p' : TrainPath) × (leave p c ≡ some p')
      × Holds track_max p'.behind (ys ++ here c)
      × (p'.current ≡ none)
      × (p'.ahead ≡ p.ahead)
      × (p'.active ≡ p.active)
leave_lem p none ys e h room =
    (p, refl, subst (Holds track_max p.behind) (sym (append-nil ys)) h, e, refl, refl)
leave_lem p (some n) ys e h room =
    let (c, h') = push-Holds p.behind ys n h (omega (arith, length-append ys (n ∷ []))) in
    let b = (Ring.push track_max p.behind n).1 in
    (record p { behind = b; current = none }, rw c refl, h', refl, refl, refl)

loaded_lem :
    (p : TrainPath) (x : Ring.Code × Option ℕ × Ring ℕ) (n : ℕ)
    → x.0 ≡ Ring.ok
    → x.1 ≡ some n
    → loaded p x ≡ some (record p { ahead = x.2; current = some n })
loaded_lem p (c, o, cb) n a b = rw (a, b) refl

next_run :
    (p p1 p2 : TrainPath)
    → p.active ≡ true
    → leave p p.current ≡ some p1
    → load_next p1 ≡ some p2
    → path_next p ≡ some (check_end p2)
unfolding path_next
next_run p p1 p2 m e l = rw (e, l, m) refl

ended :
    (p : TrainPath)
    → p.current ≡ none
    → p.ahead.size ≡ 0
    → check_end p ≡ record p { active = false; done = true }
ended p c s =
    let b : (is_null p.current && p.ahead.size == 0) ≡ true = rw (c, s) refl in
    ap (λ t. if t then record p { active = false; done = true } else p) b

-- Next.
pub path_next_lem :
    (p : TrainPath) (x : ℕ) (xs ys : List ℕ)
    → IsUnderway p (x ∷ xs) ys
    → length (ys ++ here p.current) ≤ track_max
    → (p' : TrainPath) × (path_next p ≡ some p')
      × (p'.current ≡ some x)
      × IsUnderway p' xs (ys ++ here p.current)
unfolding path_next
path_next_lem p x xs ys u room =
    let (p1, e, h, c, a, m) = leave_lem p p.current ys refl u.behind_holds room in
    let ha = subst (λ r. Holds track_max r (x ∷ xs)) (sym a) u.ahead_holds in
    let (k, o, h') = pop-Holds p1.ahead xs x ha in
    let n = ha.count in
    let ahead = (Ring.pop track_max p1.ahead).2 in
    (
      record p1 { ahead = ahead; current = some x },
      next_run p p1 (record p1 { ahead = ahead; current = some x }) u.moving e
          (rw (lt→ltb 0 p1.ahead.size (omega arith))
            (loaded_lem p1 (Ring.pop track_max p1.ahead) x k o)),
      refl,
      record { moving = m ∙ u.moving; ahead_holds = h'; behind_holds = h },
    )

-- Where a node stands in a list that begins at the index `i`.
abbrev place_of : ℕ → List ℕ → ℕ → Option ℕ
place_of t [] i = none
place_of t (x ∷ xs) i = let rest = place_of t xs (suc i) in if x == t then some i else rest

if-some : (b : Bool) (x y : Option ℕ) → (if b then some x else some y) ≡ some (if b then x else y)
if-some true x y = refl
if-some false x y = refl

follow_some :
    (p : TrainPath) (i : ℕ) (p' : TrainPath)
    → next_times (suc i) p ≡ some p'
    → follow_from p (some i) ≡ some (0, p')
unfolding follow_from
follow_some p i p' e = rw e refl

follow_none : (p : TrainPath) → follow_from p none ≡ some (neg32 1, p)
unfolding follow_from
follow_none p = refl

-- The search in the path ahead, from the index `i` of the list on, where `ys` begins.
find_ahead_lem :
    (ys xs : List ℕ) (ahead : Ring ℕ) (i t : ℕ)
    → Holds track_max ahead xs
    → ((j : ℕ) → get_elem? xs (i + j) ≡ get_elem? ys j)
    → find_ahead (length ys) ahead i t ≡ some (place_of t ys i)
unfolding find_ahead
find_ahead_lem [] xs ahead i t h e = refl
find_ahead_lem (y ∷ ys) xs ahead i t h e =
    let z : i + 0 ≡ i = omega arith in
    let g = get-Holds ahead xs i h in
    let first = ap (get_elem? xs) (sym z) ∙ e 0 in
    let ih =
      find_ahead_lem ys xs ahead (suc i) t h (λ j. ap (get_elem? xs) (omega arith) ∙ e (suc j)) in
    rw (g, first, ih) (if-some (y == t) (some i) (place_of t ys (suc i)))

-- Following the path past the nodes `xs` to `t`.
next_times_lem :
    (xs : List ℕ) (p : TrainPath) (t : ℕ) (zs ys : List ℕ)
    → IsUnderway p (xs ++ (t ∷ zs)) ys
    → length ys + length (here p.current) + length xs ≤ track_max
    → (p' : TrainPath) × (next_times (suc (length xs)) p ≡ some p')
      × (p'.current ≡ some t)
      × IsUnderway p' zs (ys ++ (here p.current ++ xs))
unfolding next_times
next_times_lem [] p t zs ys u room =
    let (p', e, c, u') =
      path_next_lem p t zs ys u (omega (arith, length-append ys (here p.current))) in
    (
      p',
      rw e refl,
      c,
      subst (IsUnderway p' zs) (ap (λ l. ys ++ l) (sym (append-nil (here p.current)))) u',
    )
next_times_lem (x ∷ xs) p t zs ys u room =
    let l = length-append ys (here p.current) in
    let (p1, e, c, u1) = path_next_lem p x (xs ++ (t ∷ zs)) ys u (omega (arith, l)) in
    let one : length (here p1.current) ≡ 1 = ap (λ o. length (here o)) c in
    let (p', e2, c2, u2) =
      next_times_lem xs p1 t zs (ys ++ here p.current) u1 (omega (arith, l, one)) in
    (
      p',
      rw e e2,
      c2,
      subst (IsUnderway p' zs)
          (ap (λ o. (ys ++ here p.current) ++ (here o ++ xs)) c
            ∙ append_assoc ys (here p.current) (x ∷ xs))
          u2,
    )

place-append :
    (xs : List ℕ) (t : ℕ) (zs : List ℕ) (i : ℕ)
    → mem t xs ≡ false
    → place_of t (xs ++ (t ∷ zs)) i ≡ some (i + length xs)
place-append [] t zs i m = rw (eq→== t t refl) (ap some (omega arith))
place-append (x ∷ xs) t zs i m =
    let ne : (x == t) ≡ false = ground arith in
    let ih = place-append xs t zs (suc i) (ground arith) in rw (ne, ih) (ap some (omega arith))

place_absent : (xs : List ℕ) (t i : ℕ) → mem t xs ≡ false → place_of t xs i ≡ none
place_absent [] t i m = refl
place_absent (x ∷ xs) t i m =
    let ne : (x == t) ≡ false = ground arith in
    let ih = place_absent xs t (suc i) (ground arith) in rw (ne, ih) refl

follow_run :
    (p : TrainPath) (t : ℕ) (r : Option ℕ) (out : Option (ℕ × TrainPath)) (xs : List ℕ)
    → Holds track_max p.ahead xs
    → place_of t xs 0 ≡ r
    → follow_from p r ≡ out
    → path_follow_to p t ≡ out
unfolding path_follow_to
follow_run p t r out xs h e f =
    let n = h.count in
    let s = find_ahead_lem xs xs p.ahead 0 t h (λ j. ap (get_elem? xs) (omega arith)) in
    let r2 : find_ahead p.ahead.size p.ahead 0 t ≡ some r =
      ap (λ k. find_ahead k p.ahead 0 t) (sym n) ∙ s ∙ ap some e in
    ap (λ m. m >>= follow_from p) r2 ∙ f

-- On a path with the nodes `xs`, then `t`, then `zs` ahead, where `t` is not among `xs`, and with
-- room behind, `path_follow_to` of `t` returns 0: the train is at `t`, with `zs` ahead of it and,
-- behind it, the nodes that were, the one at which it was, and `xs`.
pub path_follow_to_lem :
    (xs : List ℕ) (p : TrainPath) (t : ℕ) (zs ys : List ℕ)
    → IsUnderway p (xs ++ (t ∷ zs)) ys
    → mem t xs ≡ false
    → length ys + length (here p.current) + length xs ≤ track_max
    → (p' : TrainPath) × (path_follow_to p t ≡ some (0, p'))
      × (p'.current ≡ some t)
      × IsUnderway p' zs (ys ++ (here p.current ++ xs))
path_follow_to_lem xs p t zs ys u m room =
    let (p', e, c, u') = next_times_lem xs p t zs ys u room in
    (
      p',
      follow_run p t (some (length xs)) (some (0, p')) (xs ++ (t ∷ zs)) u.ahead_holds
          (place-append xs t zs 0 m ∙ ap some (omega arith)) (follow_some p (length xs) p' e),
      c,
      u',
    )

-- Elsewhere.
pub path_follow_to_elsewhere :
    (p : TrainPath) (t : ℕ) (xs : List ℕ)
    → Holds track_max p.ahead xs
    → mem t xs ≡ false
    → path_follow_to p t ≡ some (neg32 1, p)
path_follow_to_elsewhere p t xs h m =
    follow_run p t none (some (neg32 1, p)) xs h (place_absent xs t 0 m) (follow_none p)

-- When no node is ahead and there is room behind, `path_next` puts the node at which the train is
-- behind it, and the path is done and no longer active.
pub path_next_arrives :
    (p : TrainPath) (ys : List ℕ)
    → IsUnderway p [] ys
    → length (ys ++ here p.current) ≤ track_max
    → (p' : TrainPath) × (path_next p ≡ some p')
      × (p'.done ≡ true)
      × (p'.active ≡ false)
      × (p'.current ≡ none)
      × Holds track_max p'.behind (ys ++ here p.current)
path_next_arrives p ys u room =
    let (p1, e, h, c, a, m) = leave_lem p p.current ys refl u.behind_holds room in
    let n = u.ahead_holds.count in
    let s : p1.ahead.size ≡ 0 = ap (λ r. r.size) a ∙ sym n in
    (
      record p1 { active = false; done = true },
      next_run p p1 p1 u.moving e (rw s refl) ∙ ap some (ended p1 c s),
      refl,
      refl,
      c,
      h,
    )
