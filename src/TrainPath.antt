-- ===== src/TrainPath.antt =====
-- src/lib/train/path_finding.c and include/lib/train/path_finding.h: a path over the track, as the nodes
-- ahead of a train and those behind it. `none` is a KASSERT that fails, or NULL that is used.
pub mod Follow
pub mod Generate
pub mod Edges
pub mod Ends
pub mod Start
pub mod Route
mod Tests
use cs.Base.{
  ℕ, zero, suc, ◌+◌, Bool, true, false, not, ◌&&◌, Option, none, some, if◌then◌else◌, ltb, ◌==◌,
  add32, neg32, int_lt, ◌>>=◌,
}
use cs.Ring
use cs.Ring.{Ring}
use cs.Track.{
  Node, Nodes, dir_ahead, dir_straight, dir_curved, track_max, is_branch, is_exit, dest_of, dist_of,
}

-- `end` is `stop` here. Only the nodes that the code compares with NULL can be absent.
pub record TrainPath : Type 0 where
  pub active : Bool
  pub ready : Bool
  pub done : Bool
  pub path_len : ℕ
  pub track : ℕ
  pub start : Option ℕ
  pub stop : Option ℕ
  pub current : Option ℕ
  pub ahead : Ring ℕ
  pub behind : Ring ℕ
  pub pred : ℕ → ℕ

pub record SwConfig : Type 0 where
  pub sw : ℕ
  pub state_required : ℕ

unfoldable pub path_init : TrainPath → ℕ → TrainPath
path_init p track = record {
  active = false;
  ready = false;
  done = false;
  path_len = 0;
  track = track;
  start = none;
  stop = none;
  current = none;
  ahead = Ring.init p.ahead;
  behind = Ring.init p.behind;
  pred = p.pred;
}

abbrev pub pushed : TrainPath → Ring.Code × Ring ℕ → Option TrainPath
pushed p (Ring.ok, behind) = some (record p { behind = behind; current = none })
pushed p (c, behind) = none

-- The current node goes behind.
abbrev pub leave : TrainPath → Option ℕ → Option TrainPath
leave p none = some p
leave p (some n) = pushed p (Ring.push track_max p.behind n)

abbrev pub loaded : TrainPath → Ring.Code × Option ℕ × Ring ℕ → Option TrainPath
loaded p (Ring.ok, some n, ahead) = some (record p { ahead = ahead; current = some n })
loaded p r = none

abbrev pub load_next : TrainPath → Option TrainPath
load_next p = if ltb 0 p.ahead.size then loaded p (Ring.pop track_max p.ahead) else some p

abbrev pub is_null : Option ℕ → Bool
is_null none = true
is_null (some n) = false

abbrev pub check_end : TrainPath → TrainPath
check_end p =
    if is_null p.current && p.ahead.size == 0 then record p { active = false; done = true } else p

unfoldable pub path_next : TrainPath → Option TrainPath
path_next p =
    if p.active
    then (leave p p.current >>= λ p1. load_next p1 >>= λ p2. some (check_end p2))
    else none

abbrev pub got : Ring.Code × Option ℕ → Option ℕ
got (Ring.ok, n) = n
got (c, n) = none

-- The index of `t` in the path ahead, from `i` on with the rounds that are left; an inner `none` says
-- that it is not there.
unfoldable pub find_ahead : ℕ → Ring ℕ → ℕ → ℕ → Option (Option ℕ)
find_ahead zero ahead i t = some none
find_ahead (suc k) ahead i t = got (Ring.get track_max ahead i) >>= λ n.
    let rest = find_ahead k ahead (suc i) t in if n == t then some (some i) else rest

unfoldable pub next_times : ℕ → TrainPath → Option TrainPath
unfolding path_next
next_times zero p = some p
next_times (suc k) p = path_next p >>= λ p1. next_times k p1

unfoldable pub follow_from : TrainPath → Option ℕ → Option (ℕ × TrainPath)
unfolding next_times
follow_from p none = some (neg32 1, p)
follow_from p (some i) = next_times (suc i) p >>= λ p1. some (0, p1)

unfoldable pub path_follow_to : TrainPath → ℕ → Option (ℕ × TrainPath)
unfolding follow_from find_ahead
path_follow_to p t = find_ahead p.ahead.size p.ahead 0 t >>= λ r. follow_from p r

unfoldable pub path_get_switch_config : Nodes → ℕ → ℕ → Option ℕ
path_get_switch_config ns t1 t2 =
    if not (is_branch (ns t1).type)
    then none
    else if dest_of ns t1 dir_straight == t2
    then some dir_straight
    else if dest_of ns t1 dir_curved == t2
    then some dir_curved
    else some 0

unfoldable pub track_node_dist : Nodes → ℕ → ℕ → Option ℕ
unfolding path_get_switch_config
track_node_dist ns t1 t2 =
    if is_exit (ns t1).type
    then none
    else if is_branch (ns t1).type
    then (path_get_switch_config ns t1 t2 >>= λ dir. some (dist_of ns t1 dir))
    else some (dist_of ns t1 dir_ahead)

-- A switch on the way is noted; nothing looks at the result of the push.
unfoldable pub note_switch : Nodes → Ring SwConfig → ℕ → ℕ → Option (Ring SwConfig)
unfolding path_get_switch_config
note_switch ns cfgs cur next =
    if is_branch (ns cur).type
    then (path_get_switch_config ns cur next >>= λ dir.
        some (Ring.push track_max cfgs (record { sw = cur; state_required = dir })).1)
    else some cfgs

unfoldable pub switches_loop :
    ℕ → Nodes → Ring ℕ → ℕ → ℕ → ℕ → ℕ → Ring SwConfig → Option (Ring SwConfig)
unfolding note_switch track_node_dist
switches_loop zero ns ahead i cur d dist cfgs = some cfgs
switches_loop (suc k) ns ahead i cur d dist cfgs = got (Ring.get track_max ahead i) >>= λ next.
    note_switch ns cfgs cur next >>= λ cfgs1. track_node_dist ns cur next >>= λ e.
    let rest = switches_loop k ns ahead (suc i) next (add32 d e) dist cfgs1 in
    if int_lt (add32 d e) dist then rest else some cfgs1

abbrev pub first_node : TrainPath → Option ℕ → Option ℕ
first_node p none = p.start
first_node p (some n) = some n

unfoldable pub path_switches_in_next_dist :
    Nodes → TrainPath → Ring SwConfig → ℕ → Option (Ring SwConfig)
unfolding switches_loop
path_switches_in_next_dist ns p cfgs dist =
    first_node p p.current >>= λ cur. switches_loop p.ahead.size ns p.ahead 0 cur 0 dist cfgs

unfoldable pub path_set_destination : TrainPath → ℕ → ℕ → TrainPath
path_set_destination p start stop = record p {
  start = some start;
  stop = some stop;
  current = none;
}

-- `path_follow_to` comes last, and its result is not looked at.
unfoldable pub path_start : TrainPath → ℕ → Option TrainPath
unfolding path_follow_to
path_start p start_node = elim p.start [
  | none ↦ none
  | some s ↦ elim p.stop [
    | none ↦ none
    | some e ↦
        if s == start_node
        then (path_follow_to (record p { active = true }) start_node >>= λ r. some r.1)
        else none
  ]
]
