-- ===== src/Reservation/Listing.antt =====
-- What a search finds, in the order in which it comes to it, is a list of nodes.
use cs.Base.{
  ℕ, zero, suc, arith, Bool, Option, none, some, List, [], ◌∷◌, ◌++◌, inl, inr, length,
  if◌then◌else◌, ◌==◌, Bool-cases, add32, ◌>>=◌, or_abort,
}
use native.Mathlib.Decide.{dec_lt}
use cs.Ring
use cs.Ring.{Ring}
use cs.Ring.Refine.{Holds, push-Holds, push-Holds_full}
use cs.Track.{
  NodeType, node_branch, node_exit, Node, Nodes, track_max, dir_straight, dir_curved, dir_ahead,
  dest_of, dist_of,
}
use cs.Reservation.Search.{Search, asserted, popped, go_on, expand, visit, search_loop}

-- The nodes found are a list, whatever became of the search.
abbrev pub Listed : Search → Type 0
Listed s = (xs : List ℕ) × Holds track_max s.found xs

abbrev pub Found : Option Search → Type 0
Found none = Unit {0}
Found (some s) = Listed s

abbrev pub Fine : Option (Option Search) → Type 0
Fine none = Unit {0}
Fine (some r) = Found r

Found-bind :
    {A : Type 0} (o : Option A) (f : A → Option Search) → ((a : A) → Found (f a)) → Found (o >>= f)
Found-bind none f h = tt
Found-bind (some a) f h = h a

Found-then :
    (o : Option Search) (f : Search → Option Search)
    → Found o
    → ((s : Search) → Listed s → Found (f s))
    → Found (o >>= f)
Found-then none f h k = tt
Found-then (some s) f h k = k s h

Fine-or_abort :
    (o : Option Search) (f : Search → Option (Option Search))
    → Found o
    → ((s : Search) → Listed s → Fine (f s))
    → Fine (or_abort o f)
Fine-or_abort none f h k = tt
Fine-or_abort (some s) f h k = k s h

go_on-Found : (ns : Nodes) (s : Search) (n dir : ℕ) → Listed s → Found (go_on ns s n dir)
go_on-Found ns s n dir h =
    let c = dest_of ns n dir in
    Found-bind (asserted (Ring.push track_max s.q c))
      (λ q. some (record s {
        q = q;
        dist =
            λ i. if (ns c).id == i then add32 (dist_of ns n dir) (s.dist (ns n).id) else s.dist i;
      }))
      (λ q. h)

expand-Found : (t : NodeType) (ns : Nodes) (s : Search) (n : ℕ) → Listed s → Found (expand t ns s n)
unfolding expand
expand-Found node_branch ns s n h =
    Found-then (go_on ns s n dir_curved) (λ s1. go_on ns s1 n dir_straight)
      (go_on-Found ns s n dir_curved h) (λ s1 k. go_on-Found ns s1 n dir_straight k)
expand-Found node_exit ns s n h = h
expand-Found t ns s n h = go_on-Found ns s n dir_ahead h

visit-Found :
    (skip : Node → ℕ → Bool) (ns : Nodes) (s : Search) (n : ℕ)
    → Listed s
    → Found (visit skip ns s n)
unfolding visit
visit-Found skip ns s n (xs, h) = elim (Bool-cases (skip (ns n) (s.dist (ns n).id))) [
  | inl e ↦ rw e (xs, h)
  | inr e ↦ rw e (
      expand-Found (ns n).type ns (record s { found = (Ring.push track_max s.found n).1 }) n
        (elim (dec_lt (length xs) track_max) [
          | yes room ↦ (xs ++ (n ∷ []), (push-Holds s.found xs n h room).1)
          | no full ↦ let e2 = push-Holds_full s.found xs n h (omega arith) in (xs, rw e2 h)
        ]))
]

pub search_loop-Fine :
    (skip : Node → ℕ → Bool) (k : ℕ) (ns : Nodes) (s : Search)
    → Listed s
    → Fine (search_loop skip k ns s)
unfolding search_loop
search_loop-Fine skip zero ns s h = tt
search_loop-Fine skip (suc k) ns s h = elim (Bool-cases (s.q.size == 0)) [
  | inl e ↦ rw e h
  | inr e ↦ rw e (
      Fine-or_abort
        (popped (Ring.pop track_max s.q) >>= λ r. visit skip ns (record s { q = r.1 }) r.0)
        (λ s2. search_loop skip k ns s2)
        (Found-bind (popped (Ring.pop track_max s.q))
          (λ r. visit skip ns (record s { q = r.1 }) r.0)
          (λ r. visit-Found skip ns (record s { q = r.1 }) r.0 h))
        (λ s2 g. search_loop-Fine skip k ns s2 g))
]
