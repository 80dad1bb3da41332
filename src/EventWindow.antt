-- ===== src/EventWindow.antt =====
-- src/lib/train/event_window.c and include/lib/train/event_window.h: the windows of sensor events. A pointer to a
-- window is its index, NULL is `none`. An outer `none` is an assert that fails, NULL
-- that is used, or a write outside `window_map`; in the loops on fuel, also fuel that has run out.
pub mod Clear
pub mod Empty
pub mod Queues
mod Tests
use cs.Base.{
  ℕ, zero, suc, ◌+◌, ◌-◌, ◌%◌, Bool, true, false, not, ◌&&◌, ◌||◌, Option, none, some,
  if◌then◌else◌, ltb, ◌==◌, add32, neg32, int_lt, is_negative, ◌>>=◌, or_abort,
}
use cs.Ring
use cs.Ring.{Ring, Code}
use cs.Ring.Rem.{rem}
use cs.Track.{track_max}

abbrev pub key_max : ℕ
key_max = 64

-- `event_res_t`
abbrev pub hit : ℕ
hit = 1

abbrev pub timeout : ℕ
timeout = 2

abbrev pub event_max : ℕ
event_max = 3

pub record Window : Type 0 where
  pub key_offset : ℕ
  pub node : Option ℕ
  pub nevents : ℕ
  pub num_event : ℕ → ℕ

pub record Manager : Type 0 where
  pub window : ℕ → Window
  pub avail_windows : Ring ℕ
  pub window_q : Ring ℕ
  pub window_map : ℕ → Option ℕ
  pub key : ℕ

unfoldable pub event_window_init : Window → Window
event_window_init w = record {
  key_offset = neg32 1;
  node = none;
  nevents = 0;
  num_event = λ i. if ltb i event_max then 0 else w.num_event i;
}

abbrev pub with_window : Manager → ℕ → Window → Manager
with_window wm i w = record wm { window = λ j. if i == j then w else wm.window j }

abbrev pub map_key : Manager → ℕ → Option ℕ → Manager
map_key wm k w = record wm { window_map = λ i. if k == i then w else wm.window_map i }

abbrev pub is_full : Code → Bool
is_full Ring.full = true
is_full c = false

-- The loop of `ev_wm_init`, with the rounds that are left.
unfoldable pub init_loop : ℕ → ℕ → Manager → Option Manager
unfolding event_window_init
init_loop zero i wm = some wm
init_loop (suc n) i wm =
    let wm1 = with_window wm i (event_window_init (wm.window i)) in
    let pushed = Ring.push track_max wm1.avail_windows i in
    let rest = init_loop n (suc i) (record wm1 { avail_windows = pushed.1 }) in
    if is_full pushed.0 then none else rest

unfoldable pub ev_wm_init : Manager → Option Manager
unfolding init_loop
ev_wm_init wm =
    init_loop track_max 0 (record wm {
      window_q = Ring.init wm.window_q;
      avail_windows = Ring.init wm.avail_windows;
      key = 0;
    })
    >>= λ wm1.
        some (record wm1 { window_map = λ k. if ltb k key_max then none else wm1.window_map k })

abbrev pub got : Code × Option ℕ → Option ℕ
got (Ring.ok, w) = w
got (c, w) = none

abbrev pub is_null : Option ℕ → Bool
is_null none = true
is_null (some w) = false

-- A window without a node begins with the key.
abbrev pub opened : Window → ℕ → ℕ → Window
opened w key node =
    if is_null w.node
    then record {
      key_offset = key;
      node = some node;
      nevents = 0;
      num_event = λ i. if ltb i event_max then 0 else w.num_event i;
    }
    else w

unfoldable pub ev_wm_add_to_window : Manager → ℕ → ℕ → Option (ℕ × Manager)
ev_wm_add_to_window wm key node =
    if not (ltb key key_max)
    then none
    else if not (is_null (wm.window_map key))
    then some (neg32 1, wm)
    else (got (Ring.get track_max wm.avail_windows 0) >>= λ i.
        let w = opened (wm.window i) key node in
        some
          (0, map_key (with_window wm i (record w { nevents = add32 w.nevents 1 })) key (some i)))

abbrev pub code_of : Code → ℕ
code_of Ring.ok = 0
code_of Ring.full = 1
code_of Ring.empty = 2
code_of Ring.dne = 3

-- The codes of the queue are passed on.
abbrev pub moved : Manager → Code × Option ℕ × Ring ℕ → Option (Code × Manager)
moved wm (Ring.ok, some i, q) = some (
  (Ring.push track_max wm.window_q i).0,
  record wm { avail_windows = q; window_q = (Ring.push track_max wm.window_q i).1 },
)
moved wm (Ring.ok, none, q) = none
moved wm (c, w, q) = some (c, wm)

unfoldable pub ev_wm_next_window : Manager → Option (Code × Manager)
ev_wm_next_window wm = moved wm (Ring.pop track_max wm.avail_windows)

unfoldable pub ev_wm_next_key : Manager → Manager
ev_wm_next_key wm = record wm { key = add32 wm.key 1 % key_max }

-- What a result makes of its window.
abbrev pub verdict : Window → ℕ
verdict w =
    if w.nevents == w.num_event timeout
    then 1
    else if int_lt 1 (w.num_event hit)
    then 2
    else if w.nevents == add32 (w.num_event timeout) (w.num_event hit)
    then 3
    else 0

unfoldable pub ev_wm_res_to_window : Manager → ℕ → ℕ → Option (ℕ × Manager)
ev_wm_res_to_window wm key res =
    if not (ltb key key_max) || not (ltb res event_max) then none else elim (wm.window_map key) [
      | none ↦ some (neg32 1, wm)
      | some i ↦
          let w = wm.window i in
          let w1 = record w {
            num_event = λ e. if res == e then add32 (w.num_event e) 1 else w.num_event e;
          } in
          some (verdict w1, with_window wm i w1)
    ]

-- The loop that clears the keys of a window in `ev_wm_delete_if_complete` and `ev_wm_delete_all`, with the
-- rounds that are left. The remainder of a negative `k`, such as the -1 of a window that was put back, is
-- negative: `none` is the write outside `window_map`.
unfoldable pub clear_keys : ℕ → Manager → ℕ → Option Manager
clear_keys zero wm k = some wm
clear_keys (suc n) wm k =
    let rest = clear_keys n (map_key wm (k % key_max) none) (add32 k 1) in
    if is_negative k then none else rest

abbrev pub rounds_of : Window → ℕ
rounds_of w = if is_negative w.nevents then 0 else w.nevents

abbrev pub freed : Manager → Code × Ring ℕ → ℕ × Manager
freed wm (Ring.ok, q) = (0, record wm { avail_windows = q })
freed wm (c, q) = (neg32 4, wm)

-- A window that is complete goes back, when it is in the queue.
abbrev pub removed : Manager → ℕ → Code × Ring ℕ → Option (ℕ × Manager)
removed wm i (Ring.ok, q) =
    let w = wm.window i in
    clear_keys (rounds_of w) (record wm { window_q = q }) w.key_offset >>= λ wm1.
    some (freed (with_window wm1 i (event_window_init w)) (Ring.push track_max wm1.avail_windows i))
removed wm i (c, q) = some (neg32 3, wm)

unfoldable pub ev_wm_delete_if_complete : Manager → ℕ → Option (ℕ × Manager)
unfolding clear_keys event_window_init
ev_wm_delete_if_complete wm key = if not (ltb key key_max) then none else elim (wm.window_map key) [
  | none ↦ some (neg32 1, wm)
  | some i ↦
      let w = wm.window i in
      if w.nevents == add32 (w.num_event timeout) (w.num_event hit)
      then removed wm i (rem track_max wm.window_q i)
      else some (neg32 2, wm)
]

unfoldable pub ev_wm_get_window_tn : Manager → ℕ → Option (Option ℕ)
ev_wm_get_window_tn wm key =
    if not (ltb key key_max) then none else (wm.window_map key >>= λ i. some (wm.window i).node)

-- The loop that clears the keys of a window in `ev_wm_invalidate_after`, on fuel: `k` comes round at
-- `KEY_MAX`, the bound does not.
unfoldable pub clear_until : ℕ → Manager → ℕ → ℕ → Option Manager
clear_until zero wm k bound = none
clear_until (suc n) wm k bound =
    let rest = clear_until n (map_key wm k none) (add32 k 1 % key_max) bound in
    if k == bound then some wm else rest

abbrev pub put_back : Manager → Code × Ring ℕ → Option Manager
put_back wm (Ring.ok, q) = some (record wm { avail_windows = q })
put_back wm (c, q) = none

-- The round of `ev_wm_delete_all`, with what the queue gives.
abbrev pub dropped : Manager → Code × Option ℕ × Ring ℕ → Option Manager
dropped wm (Ring.ok, some i, q) =
    let w = wm.window i in
    clear_keys (rounds_of w) (record wm { window_q = q }) w.key_offset >>= λ wm1.
    let w1 = record (wm1.window i) { node = none; key_offset = neg32 1 } in
    put_back (with_window wm1 i w1) (Ring.push track_max wm1.avail_windows i)
dropped wm (Ring.ok, none, q) = none
dropped wm (c, w, q) = none

-- The loop of `ev_wm_delete_all`, on fuel.
unfoldable pub delete_loop : ℕ → Manager → Option Manager
unfolding clear_keys
delete_loop zero wm = none
delete_loop (suc n) wm =
    let rest = dropped wm (Ring.pop track_max wm.window_q) >>= delete_loop n in
    if int_lt 0 wm.window_q.size then rest else some wm

unfoldable pub ev_wm_delete_all : ℕ → Manager → Option (ℕ × Manager)
unfolding delete_loop
ev_wm_delete_all n wm =
    if add32 wm.window_q.size wm.avail_windows.size == track_max
    then (delete_loop n wm >>= λ wm1. some (0, wm1))
    else none

abbrev pub is_window : Option ℕ → ℕ → Bool
is_window none i = false
is_window (some j) i = i == j

-- What a round of `ev_wm_invalidate_after` does: it returns, or goes on.
pub data Round : Type 0 where
  returns : ℕ → Manager → Round
  leaves goes_on : Manager → Round

abbrev pub kept : Manager → Code × Ring ℕ → Round
kept wm (Ring.ok, q) = leaves (record wm { window_q = q })
kept wm (c, q) = returns (neg32 1) wm

abbrev pub freed_again : Manager → Code × Ring ℕ → Round
freed_again wm (Ring.ok, q) = goes_on (record wm { avail_windows = q })
freed_again wm (c, q) = returns (neg32 1) wm

-- The first key that is cleared is the one at which the window begins; outside the keys, it is a write outside
-- `window_map`.
abbrev pub begins_outside : Window → Bool
begins_outside w =
    not (w.key_offset == add32 w.key_offset w.nevents) && not (ltb w.key_offset key_max)

unfoldable pub drop_window : ℕ → Manager → ℕ → Option Round
unfolding clear_until
drop_window n wm i =
    let w = wm.window i in
    (if begins_outside w
      then none
      else clear_until n wm w.key_offset (add32 w.key_offset w.nevents))
    >>= λ wm1.
        let w1 = record (wm1.window i) { node = none; key_offset = neg32 1 } in
        some (freed_again (with_window wm1 i w1) (Ring.push track_max wm1.avail_windows i))

abbrev pub after : ℕ → Manager → Option ℕ → Code × Option ℕ × Ring ℕ → Option Round
after n wm end (Ring.ok, some i, q) =
    let wm1 = record wm { window_q = q } in
    if is_negative (wm.window i).nevents
    then none
    else if is_window end i
    then some (kept wm1 (Ring.push track_max q i))
    else drop_window n wm1 i
after n wm end (Ring.ok, none, q) = none
after n wm end (c, w, q) = some (returns (neg32 1) wm)

-- One round, with the rounds that clear the keys of a window on fuel.
unfoldable pub invalidate_round : ℕ → Manager → Option ℕ → Option Round
unfolding drop_window
invalidate_round n wm end =
    if wm.window_q.size == 0
    then some (leaves wm)
    else after n wm end (Ring.pop_end track_max wm.window_q)

abbrev pub all_held : Manager → Option (ℕ × Manager)
all_held wm =
    if add32 wm.window_q.size wm.avail_windows.size == track_max then some (0, wm) else none

unfoldable pub invalidate_loop : ℕ → ℕ → Manager → Option ℕ → Option (ℕ × Manager)
unfolding invalidate_round
invalidate_loop zero n wm end = none
invalidate_loop (suc m) n wm end = invalidate_round n wm end >>= λ r. elim r [
  | returns code wm1 ↦ some (code, wm1)
  | leaves wm1 ↦ all_held wm1
  | goes_on wm1 ↦ invalidate_loop m n wm1 end
]

unfoldable pub ev_wm_invalidate_after : ℕ → ℕ → Manager → ℕ → Option (ℕ × Manager)
unfolding invalidate_loop
ev_wm_invalidate_after m n wm key =
    if ltb key key_max then invalidate_loop m n wm (wm.window_map key) else none
