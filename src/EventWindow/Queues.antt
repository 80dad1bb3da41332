-- ===== src/EventWindow/Queues.antt =====
-- The two queues of windows: `ev_wm_init` and `ev_wm_next_window`.
use cs.Base.{
  ℕ, zero, suc, ◌+◌, ◌<◌, ◌≤◌, ◌≡◌, refl, sym, subst, arith, Option, none, some, List, [], ◌∷◌,
  ◌++◌, length, append_assoc, append-nil, length-append, if◌then◌else◌, ltb, lt→ltb,
}
use cs.Ring
use cs.Ring.{Ring, Code, ok, push, pop}
use cs.Ring.Inv.{init-IsValid}
use cs.Ring.Refine.{Holds, push-Holds, pop-Holds, init-Holds}
use cs.EventWindow.{
  Manager, event_window_init, with_window, init_loop, ev_wm_init, ev_wm_next_window, moved,
}

-- `n` numbers from `i` on.
abbrev pub from : ℕ → ℕ → List ℕ
from i zero = []
from i (suc n) = i ∷ from (suc i) n

abbrev first_round : ℕ → Manager → Manager
first_round i wm = record (with_window wm i (event_window_init (wm.window i))) {
  avail_windows = (push 144 wm.avail_windows i).1;
}

init_step :
    (n i : ℕ) (wm wm' : Manager)
    → (push 144 wm.avail_windows i).0 ≡ ok
    → init_loop n (suc i) (first_round i wm) ≡ some wm'
    → init_loop (suc n) i wm ≡ some wm'
unfolding init_loop
init_step n i wm wm' e run = rw (e, run) refl

init_loop_lem :
    (n i : ℕ) (wm : Manager) (xs : List ℕ)
    → Holds 144 wm.avail_windows xs
    → length xs + n ≤ 144
    → (wm' : Manager) × (init_loop n i wm ≡ some wm')
      × (wm'.window_q ≡ wm.window_q)
      × Holds 144 wm'.avail_windows (xs ++ from i n)
unfolding init_loop
init_loop_lem zero i wm xs h l =
    (wm, refl, refl, subst (Holds 144 wm.avail_windows) (sym (append-nil xs)) h)
init_loop_lem (suc n) i wm xs h l =
    let (c, h') = push-Holds wm.avail_windows xs i h (omega arith) in
    let (wm', run, q, held) =
      init_loop_lem n (suc i) (first_round i wm) (xs ++ (i ∷ [])) h'
        (omega (arith, length-append xs (i ∷ []))) in
    (
      wm',
      init_step n i wm wm' c run,
      q,
      subst (Holds 144 wm'.avail_windows) (append_assoc xs (i ∷ []) (from (suc i) n)) held,
    )

-- All windows are available, none is used, and no key has one.
pub ev_wm_init_lem :
    (wm : Manager)
    → length wm.window_q.buf ≡ 144
    → length wm.avail_windows.buf ≡ 144
    → (wm' : Manager) × (ev_wm_init wm ≡ some wm')
      × Holds 144 wm'.window_q []
      × Holds 144 wm'.avail_windows (from 0 144)
      × ((k : ℕ) → k < 64 → wm'.window_map k ≡ none)
unfolding ev_wm_init
ev_wm_init_lem wm b b' =
    let start =
      init-Holds wm.avail_windows (init-IsValid wm.avail_windows (omega arith) (omega arith) b') in
    let none_used =
      init-Holds wm.window_q (init-IsValid wm.window_q (omega arith) (omega arith) b) in
    let (wm1, run, q, held) =
      init_loop_lem 144 0
        (record wm {
          window_q = Ring.init wm.window_q;
          avail_windows = Ring.init wm.avail_windows;
          key = 0;
        })
        [] start (omega arith) in
    (
      record wm1 { window_map = λ k. if ltb k 64 then none else wm1.window_map k },
      rw run refl,
      subst (λ r. Holds 144 r []) (sym q) none_used,
      held,
      λ k l. rw (lt→ltb k 64 l) refl,
    )

moved_lem :
    (wm : Manager) (i : ℕ) (p : Code × Option ℕ × Ring ℕ)
    → p.0 ≡ ok
    → p.1 ≡ some i
    → (push 144 wm.window_q i).0 ≡ ok
    → moved wm p
      ≡ some (ok, record wm { avail_windows = p.2; window_q = (push 144 wm.window_q i).1 })
moved_lem wm i (c, o, q) e g h = rw (e, g, h) refl

-- The window that was available for longest becomes the last one of the queue.
pub ev_wm_next_window_lem :
    (wm : Manager) (i : ℕ) (xs ys : List ℕ)
    → Holds 144 wm.window_q xs
    → Holds 144 wm.avail_windows (i ∷ ys)
    → length xs < 144
    → (wm' : Manager) × (ev_wm_next_window wm ≡ some (ok, wm'))
      × Holds 144 wm'.window_q (xs ++ (i ∷ []))
      × Holds 144 wm'.avail_windows ys
unfolding ev_wm_next_window
ev_wm_next_window_lem wm i xs ys h a l =
    let (c, o, a') = pop-Holds wm.avail_windows ys i a in
    let (c', h') = push-Holds wm.window_q xs i h l in
    let (_, _, q) = pop 144 wm.avail_windows in
    (
      record wm { avail_windows = q; window_q = (push 144 wm.window_q i).1 },
      moved_lem wm i (pop 144 wm.avail_windows) c o c',
      h',
      a',
    )
