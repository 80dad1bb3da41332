-- ===== src/EventWindow/Tests.antt =====
-- The windows of a manager that was initialised, two of them in use; and a window whose keys end at 63.
use cs.Base.{true, ℕ, ◌<◌, ◌≡◌, refl, none, some, [], ◌∷◌, arith}
use cs.Ring.{Ring, ok}
use cs.Ring.Refine.{Holds}
use cs.TaskQueue.Refine.{mem}
use cs.Base.{replicate}
use cs.EventWindow.{Manager, Window, ev_wm_init, ev_wm_next_window, ev_wm_delete_all, clear_until}
use cs.EventWindow.Clear.{clear_until_never}
use cs.EventWindow.Empty.{Emptied, IsKeyed, ev_wm_delete_all_lem}
use cs.EventWindow.Queues.{from, ev_wm_init_lem, ev_wm_next_window_lem}

abbrev storage : Ring ℕ
storage = record { buf = replicate 144 0; start = 0; stop = 0; size = 0 }

abbrev no_window : Window
no_window = record { key_offset = 0; node = none; nevents = 0; num_event = λ i. 0 }

abbrev fresh : Manager
fresh = record {
  window = λ i. no_window;
  avail_windows = storage;
  window_q = storage;
  window_map = λ k. none;
  key = 0;
}

abbrev started :
    (wm : Manager) × (ev_wm_init fresh ≡ some wm)
    × Holds 144 wm.window_q []
    × Holds 144 wm.avail_windows (from 0 144)
    × ((k : ℕ) → k < 64 → wm.window_map k ≡ none)
started = ev_wm_init_lem fresh refl refl

abbrev one_used :
    (wm : Manager) × (ev_wm_next_window started.0 ≡ some (ok, wm))
    × Holds 144 wm.window_q (0 ∷ [])
    × Holds 144 wm.avail_windows (from 1 143)
one_used = ev_wm_next_window_lem started.0 0 [] (from 1 143) started.2 started.3 (omega arith)

abbrev two_used :
    (wm : Manager) × (ev_wm_next_window one_used.0 ≡ some (ok, wm))
    × Holds 144 wm.window_q (0 ∷ 1 ∷ [])
    × Holds 144 wm.avail_windows (from 2 142)
two_used =
    ev_wm_next_window_lem one_used.0 1 (0 ∷ []) (from 2 142) one_used.2 one_used.3 (omega arith)

-- Every window has a node, and one key.
abbrev in_use : Manager
in_use = record two_used.0 {
  window = λ i. record { key_offset = i; node = some 7; nevents = 1; num_event = λ e. 0 };
}

two-IsKeyed : (j : ℕ) → mem j (0 ∷ 1 ∷ []) ≡ true → IsKeyed (in_use.window j)
two-IsKeyed j m = ground arith

ev_wm_delete_all_lem_example :
    (wm' : Manager) × (ev_wm_delete_all 3 in_use ≡ some (0, wm'))
    × Emptied in_use (0 ∷ 1 ∷ []) (from 2 142) wm'
ev_wm_delete_all_lem_example =
    ev_wm_delete_all_lem (0 ∷ 1 ∷ []) (from 2 142) in_use two_used.2 two_used.3 refl
      (refl, (refl, tt)) two-IsKeyed

clear_until_never_example : clear_until 1000 fresh 62 64 ≡ none
clear_until_never_example = clear_until_never 1000 fresh 62 64 (omega arith) (omega arith)
