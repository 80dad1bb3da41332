-- ===== src/EventWindow/Empty.antt =====
-- `ev_wm_delete_all`: the windows of the queue go back.
use mathlib.Core.Option.{some-injective, none-ne-some}
use cs.Base.{
  ne→==, ap, ◌^◌, is_negative, ℕ, zero, suc, ◌+◌, ◌%◌, ◌<◌, ◌≤◌, ◌≡◌, refl, sym, subst, arith,
  Option, none, some, List, [], ◌∷◌, ◌++◌, length, get_elem?, append_assoc, append-nil,
  length-append, if◌then◌else◌, ◌==◌, eq→==, true, false, add32, neg32, int_lt,
}
use cs.TaskQueue.Refine.{mem, Distinct}
use cs.Ring.{Ring, Code, ok, push, pop}
use cs.Ring.Refine.{Holds, push-Holds, pop-Holds}
use cs.EventWindow.{
  Manager, Window, clear_keys, rounds_of, dropped, map_key, delete_loop, ev_wm_delete_all,
}

clear_run :
    (n : ℕ) (wm wm' : Manager) (k : ℕ)
    → is_negative k ≡ false
    → clear_keys n (map_key wm (k % 64) none) (add32 k 1) ≡ some wm'
    → clear_keys (suc n) wm k ≡ some wm'
unfolding clear_keys
clear_run n wm wm' k e run = rw (e, run) refl

-- From a key on that is not negative, only the map changes.
clear_keys_lem :
    (n : ℕ) (wm : Manager) (k : ℕ)
    → k + n < 2 ^ 31
    → (f : ℕ → Option ℕ) × (clear_keys n wm k ≡ some (record wm { window_map = f }))
unfolding clear_keys
clear_keys_lem zero wm k b = (wm.window_map, refl)
clear_keys_lem (suc n) wm k b =
    let (f, run) = clear_keys_lem n (map_key wm (k % 64) none) (add32 k 1) (omega arith) in
    (f, clear_run n wm _ k (ground arith) run)

-- The keys of a window are not negative, and they are as many as its events.
abbrev pub IsKeyed : Window → Type 0
IsKeyed w = w.key_offset + w.nevents < 2 ^ 31

all_rounds : (w : Window) → IsKeyed w → rounds_of w ≡ w.nevents
all_rounds w h = ground arith

abbrev shut : Window → Window
shut w = record w { node = none; key_offset = neg32 1 }

abbrev shut_at : Manager → ℕ → ℕ → Window
shut_at wm i j = if i == j then shut (wm.window i) else wm.window j

abbrev after_round : Manager → ℕ → Ring ℕ → (ℕ → Option ℕ) → Manager
after_round wm i q f = record {
  window = shut_at wm i;
  avail_windows = (push 144 wm.avail_windows i).1;
  window_q = q;
  window_map = f;
  key = wm.key;
}

dropped_lem :
    (wm : Manager) (i : ℕ) (p : Code × Option ℕ × Ring ℕ)
    → p.0 ≡ ok
    → p.1 ≡ some i
    → (push 144 wm.avail_windows i).0 ≡ ok
    → IsKeyed (wm.window i)
    → (f : ℕ → Option ℕ) × (dropped wm p ≡ some (after_round wm i p.2 f))
dropped_lem wm i (c, o, q) e g h b =
    let w = wm.window i in
    let (f, s) = clear_keys_lem w.nevents (record wm { window_q = q }) w.key_offset b in
    (f, rw (e, g, all_rounds w b, s, h) refl)

shut_at-none : (wm : Manager) (i j : ℕ) → (wm.window j).node ≡ none → (shut_at wm i j).node ≡ none
shut_at-none wm i j h =
    elim (i == j) as (λ b. (if b then shut (wm.window i) else wm.window j).node ≡ none) [
      | true ↦ refl
      | false ↦ h
    ]

shut_at_self : (wm : Manager) (i : ℕ) → (shut_at wm i i).node ≡ none
shut_at_self wm i = rw (eq→== i i refl) refl

-- All windows are in the one queue.
pub record Emptied (wm : Manager) (xs ys : List ℕ) (wm' : Manager) : Type 0 where
  pub none_left : Holds 144 wm'.window_q []
  pub all_available : Holds 144 wm'.avail_windows (ys ++ xs)
  pub stays : (j : ℕ) → (wm.window j).node ≡ none → (wm'.window j).node ≡ none
  pub shut_all : (e j : ℕ) → get_elem? xs e ≡ some j → (wm'.window j).node ≡ none

nothing_left :
    (wm : Manager) (ys : List ℕ)
    → Holds 144 wm.window_q []
    → Holds 144 wm.avail_windows ys
    → Emptied wm [] ys wm
nothing_left wm ys h a = record {
  none_left = h;
  all_available = subst (Holds 144 wm.avail_windows) (sym (append-nil ys)) a;
  stays = λ j s. s;
  shut_all = λ e j s. absurd (none-ne-some j s);
}

one_more :
    (wm wm' : Manager) (i : ℕ) (xs ys : List ℕ) (q : Ring ℕ) (f : ℕ → Option ℕ)
    → Emptied (after_round wm i q f) xs (ys ++ (i ∷ [])) wm'
    → Emptied wm (i ∷ xs) ys wm'
one_more wm wm' i xs ys q f r = record {
  none_left = r.none_left;
  all_available = subst (Holds 144 wm'.avail_windows) (append_assoc ys (i ∷ []) xs) r.all_available;
  stays = λ j s. r.stays j (shut_at-none wm i j s);
  shut_all = shut_one;
}
  where
    shut_one : (e j : ℕ) → get_elem? (i ∷ xs) e ≡ some j → (wm'.window j).node ≡ none
    shut_one zero j s =
        r.stays j
          (subst (λ m. (shut_at wm i m).node ≡ none) (some-injective i j s) (shut_at_self wm i))
    shut_one (suc e) j s = r.shut_all e j s

busy : (n size : ℕ) → suc n ≡ size → n < 144 → int_lt 0 size ≡ true
busy n size e l = ground arith

mem_self : (i : ℕ) (xs : List ℕ) → mem i (i ∷ xs) ≡ true
mem_self i xs = rw (eq→== i i refl) refl

-- The windows of the rest are as they were.
IsKeyed-rest :
    (wm : Manager) (i : ℕ) (xs : List ℕ)
    → mem i xs ≡ false
    → ((j : ℕ) → mem j (i ∷ xs) ≡ true → IsKeyed (wm.window j))
    → (j : ℕ) → mem j xs ≡ true
    → IsKeyed (shut_at wm i j)
IsKeyed-rest wm i xs out w j m =
    let ne : (i == j) ≡ false = ne→== i j (λ e. let t = ap (λ x. mem x xs) e in absurd cc) in
    rw ne (w j (ground arith))

delete_loop_lem :
    (xs ys : List ℕ) (wm : Manager)
    → Holds 144 wm.window_q xs
    → Holds 144 wm.avail_windows ys
    → length xs + length ys ≤ 144
    → Distinct xs
    → ((j : ℕ) → mem j xs ≡ true → IsKeyed (wm.window j))
    → (wm' : Manager) × (delete_loop (suc (length xs)) wm ≡ some wm') × Emptied wm xs ys wm'
unfolding delete_loop
delete_loop_lem [] ys wm h a l d w = (wm, rw (sym h.count) refl, nothing_left wm ys h a)
delete_loop_lem (i ∷ xs) ys wm h a l d w =
    let (c, o, h') = pop-Holds wm.window_q xs i h in
    let (c', a') = push-Holds wm.avail_windows ys i a (omega arith) in
    let (f, run) = dropped_lem wm i (pop 144 wm.window_q) c o c' (w i (mem_self i xs)) in
    let q = (pop 144 wm.window_q).2 in
    let (wm', rest, e) =
      delete_loop_lem xs (ys ++ (i ∷ [])) (after_round wm i q f) h' a'
        (omega (arith, length-append ys (i ∷ []))) d.1 (IsKeyed-rest wm i xs d.0 w) in
    (
      wm',
      rw (busy (length xs) wm.window_q.size h.count (omega arith), run) rest,
      one_more wm wm' i xs ys q f e,
    )

-- When the queue holds the windows `xs`, all different and each with keys that are not negative,
-- and the other buffer holds the windows `ys`, all 144 of them together, `ev_wm_delete_all` ends
-- after a round for each of `xs` and one, returns 0, and leaves an empty queue, with `ys` and then
-- `xs` in the other buffer; no window of `xs` has a node any more, and a window without one stays
-- so.
pub ev_wm_delete_all_lem :
    (xs ys : List ℕ) (wm : Manager)
    → Holds 144 wm.window_q xs
    → Holds 144 wm.avail_windows ys
    → length xs + length ys ≡ 144
    → Distinct xs
    → ((j : ℕ) → mem j xs ≡ true → IsKeyed (wm.window j))
    → (wm' : Manager) × (ev_wm_delete_all (suc (length xs)) wm ≡ some (0, wm'))
      × Emptied wm xs ys wm'
unfolding ev_wm_delete_all
ev_wm_delete_all_lem xs ys wm h a l d w =
    let (wm', run, e) = delete_loop_lem xs ys wm h a (omega arith) d w in
    let all : add32 wm.window_q.size wm.avail_windows.size ≡ 144 =
      omega (arith, h.count, a.count) in
    (wm', rw (eq→== (add32 wm.window_q.size wm.avail_windows.size) 144 all, run) refl, e)
