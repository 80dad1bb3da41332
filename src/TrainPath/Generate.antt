-- ===== src/TrainPath/Generate.antt =====
-- The search for a way: `dij_path_find` and `path_generate` of src/lib/train/path_finding.c, and their copies
-- `path_find` and `pather_generate` in src/lib/train/reservation.c. An outer `none` is fuel that has run
-- out, an inner one a KASSERT or assert that fails, or an access outside an array.
use cs.Base.{
  ℕ, zero, suc, ◌+◌, Bool, true, false, not, ◌&&◌, ◌||◌, Option, none, some, List, [], ◌∷◌, length,
  if◌then◌else◌, ltb, leb, ◌==◌, add32, neg32, int_lt, ◌>>=◌, or_abort,
}
use cs.Ring
use cs.Ring.{Ring}
use cs.Track.{
  NodeType, node_none, node_sensor, node_branch, node_merge, node_enter, node_exit, Node, Nodes,
  track_max,
}
use cs.TrackHeap.{TrackQueue, int_max, tpq_init, tpq_add, tpq_pop}
use cs.TrainPath.{TrainPath}

-- The local variables of the search.
pub record Finding : Type 0 where
  pub dist : ℕ → ℕ
  pub prev : ℕ → ℕ
  pub vist : ℕ → Bool
  pub q : TrackQueue

abbrev pub nedges : NodeType → ℕ
nedges node_none = 0
nedges node_sensor = 1
nedges node_branch = 2
nedges node_merge = 1
nedges node_enter = 1
nedges node_exit = 0

abbrev pub no_pred : ℕ
no_pred = neg32 1

-- What is known before the search; the arrays behind the last node are as they were.
abbrev pub started : Finding → ℕ → Finding
started s sid = record {
  dist = λ v. if sid == v then 0 else if ltb v track_max then int_max else s.dist v;
  prev = λ v. if ltb v track_max then no_pred else s.prev v;
  vist = λ v. if ltb v track_max then false else s.vist v;
  q = tpq_init s.q;
}

-- A shorter way to `v`, by `u`.
abbrev pub improved : Finding → ℕ → ℕ → ℕ → Option Finding
improved s u v alt = tpq_add s.q v alt >>= λ q. some (record s {
  dist = λ w. if v == w then alt else s.dist w;
  prev = λ w. if v == w then u else s.prev w;
  q = q;
})

-- `edge[i]` of the node `u` of the table at `track`.
unfoldable pub relax : Nodes → ℕ → ℕ → ℕ → Finding → Option Finding
relax ns track u i s =
    let e = (ns (track + u)).edge i in
    let v = (ns e.dest).id in
    let alt = add32 (s.dist u) e.dist in
    if not (s.vist v) && int_lt alt (s.dist v) then improved s u v alt else some s

-- The loop over the edges, with the rounds that are left.
unfoldable pub relax_edges : ℕ → Nodes → ℕ → ℕ → ℕ → Finding → Option Finding
unfolding relax
relax_edges zero ns track u i s = some s
relax_edges (suc k) ns track u i s =
    relax ns track u i s >>= λ s1. relax_edges k ns track u (suc i) s1

-- What the two searches do with a node: `check` is the assert of `path_find`.
abbrev pub expand_node : (Node → Bool) → Nodes → ℕ → ℕ → Finding → Option Finding
expand_node check ns track u s =
    if check (ns (track + u))
    then (relax_edges (nedges (ns (track + u)).type) ns track u 0
        (record s { vist = λ w. if u == w then true else s.vist w }))
    else none

unfoldable pub find_loop : (Node → Bool) → ℕ → Nodes → ℕ → ℕ → Finding → Option (Option Finding)
unfolding relax_edges
find_loop check zero ns track did s = none
find_loop check (suc k) ns track did s =
    if s.q.size == 0
    then some (some s)
    else or_abort (tpq_pop s.q) (λ r.
      if r.0 == did
      then some (some (record s { q = r.1 }))
      else or_abort (expand_node check ns track r.0 (record s { q = r.1 }))
          (λ s1. find_loop check k ns track did s1))

unfoldable pub find_from : (Node → Bool) → ℕ → Nodes → ℕ → ℕ → ℕ → Finding → Option (Option Finding)
unfolding find_loop
find_from check fuel ns track sid did s =
    or_abort (tpq_add (tpq_init s.q) sid 0)
      (λ q. find_loop check fuel ns track did (record (started s sid) { q = q }))

abbrev pub any_node : Node → Bool
any_node n = true

abbrev pub free_for : ℕ → Node → Bool
free_for trnum n = n.reserver == neg32 1 || n.reserver == trnum

unfoldable pub dij_path_find : ℕ → Nodes → ℕ → ℕ → ℕ → Finding → Option (Option Finding)
unfolding find_from
dij_path_find fuel ns track s d f = find_from any_node fuel ns track (ns s).id (ns d).id f

unfoldable pub path_find : ℕ → Nodes → ℕ → ℕ → ℕ → ℕ → Finding → Option (Option Finding)
unfolding find_from
path_find fuel ns track s d trnum f = find_from (free_for trnum) fuel ns track (ns s).id (ns d).id f

-- The walk back over `pred` into `buf`, of which the entries come out in the order in which they are
-- pushed. `buf` has `TRACK_MAX` entries.
unfoldable pub walk : ℕ → (ℕ → ℕ) → ℕ → List ℕ → Option (List ℕ)
walk zero pred i buf = none
walk (suc k) pred i buf =
    let rest = walk k pred (pred i) (i ∷ buf) in
    if i == no_pred then some buf else if leb track_max (length buf) then none else rest

abbrev pub push_all : Ring ℕ → ℕ → List ℕ → Ring ℕ
push_all ahead track [] = ahead
push_all ahead track (i ∷ is) = push_all (Ring.push track_max ahead (track + i)).1 track is

-- What is made of the predecessors.
unfoldable pub fill_path : TrainPath → (ℕ → ℕ) → ℕ → Option (ℕ × TrainPath)
unfolding walk
fill_path p pred eid = walk (suc track_max) pred (pred eid) (eid ∷ []) >>= λ buf.
    let ahead = push_all p.ahead p.track buf in
    if ltb ahead.size 2
    then some (neg32 1, record p { ahead = ahead; pred = pred })
    else some (0, record p { ahead = ahead; pred = pred; ready = true })

-- `path_generate` with the values of `start` and `end`.
unfoldable pub generate_between :
    ℕ → Nodes → TrainPath → Finding → Option ℕ → Option ℕ → Option (Option (ℕ × TrainPath))
unfolding fill_path dij_path_find
generate_between fuel ns p f (some s) (some d) =
    if s == d
    then some none
    else (dij_path_find fuel ns p.track s d (record f { prev = p.pred }) >>= λ r. or_abort r (λ f1.
        if f1.prev (ns s).id == no_pred then some (fill_path p f1.prev (ns d).id) else some none))
generate_between fuel ns p f s d = some none

unfoldable pub path_generate : ℕ → Nodes → TrainPath → Finding → Option (Option (ℕ × TrainPath))
unfolding generate_between
path_generate fuel ns p f = generate_between fuel ns p f p.start p.stop

-- `pather_path` with these: the way is looked for in the pather's own copy of the nodes, from address `track`
-- on.
unfoldable pub pather_between :
    ℕ → Nodes → ℕ → TrainPath → ℕ → Finding → Option ℕ → Option ℕ → Option (Option (ℕ × TrainPath))
unfolding fill_path path_find
pather_between fuel ns track p trn f (some s) (some d) =
    path_find fuel ns track s d trn (record f { prev = p.pred }) >>= λ r.
    or_abort r (λ f1. some (fill_path (record p { track = track }) f1.prev (ns d).id))
pather_between fuel ns track p trn f s d = some none

unfoldable pub pather_path :
    ℕ → Nodes → ℕ → TrainPath → ℕ → Finding → Option (Option (ℕ × TrainPath))
unfolding pather_between
pather_path fuel ns track p trn f = pather_between fuel ns track p trn f p.start p.stop
