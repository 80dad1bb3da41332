-- ===== src/Task/Tracker/Alloc.antt =====
-- The ids as a pool: each index of `tasks` is free or in use, never both and never twice.
use cs.Base.{
  ℕ, zero, suc, ◌+◌, ◌^◌, ◌≤◌, ◌<◌, ◌≡◌, refl, ◌∙◌, arith, Option, some, List, [], ◌∷◌, ◌++◌,
  if◌then◌else◌, ◌==◌, add32, neg32, length, length-append, subst, lt→leb, eq→==, ne→==, sym, leb,
  ltb, ◌&&◌, append-nil, append_assoc,
}
use cs.Ring
use cs.Ring.{Ring, Code, ok}
use cs.Ring.Inv.{init-IsValid}
use cs.Ring.Refine.{Holds, init-Holds, push-Holds, pop-Holds}
use cs.Task.{Tid, tid_id}
use cs.Task.Tracker.{Tracker, tt_init, tt_init_loop, tt_get, tt_return, pushed, popped}

-- How many of the ids have the index `k`.
pub count : ℕ → List Tid → ℕ
count k [] = 0
count k (t ∷ ts) = (if tid_id t == k then 1 else 0) + count k ts

count-append : (k : ℕ) (xs ys : List Tid) → count k (xs ++ ys) ≡ count k xs + count k ys
unfolding count
count-append k [] ys = omega arith
count-append k (x ∷ xs) ys = omega (arith, count-append k xs ys)

-- The ids from `i` on, `n` of them.
abbrev pub ids_from : ℕ → ℕ → List Tid
ids_from i zero = []
ids_from i (suc n) = i ∷ ids_from (i + 1) n

count-ids_from :
    (k i n : ℕ)
    → i + n ≤ 2 ^ 16
    → count k (ids_from i n) ≡ (if leb i k && ltb k (i + n) then 1 else 0)
unfolding count
count-ids_from k i zero h = ground arith
count-ids_from k i (suc n) h = ground (arith, count-ids_from k (i + 1) n (omega arith))

pub ids-once :
    (k n : ℕ) → n ≤ 2 ^ 16 → count k (ids_from 0 n) + count k [] ≡ (if ltb k n then 1 else 0)
unfolding count
ids-once k n h = ground (arith, count-ids_from k 0 n)

count-cons : (k : ℕ) (a : Tid) (xs : List Tid) → count k (a ∷ xs) ≡ count k (a ∷ []) + count k xs
unfolding count
count-cons k a xs = omega arith

count_same : (k : ℕ) (a b : Tid) → tid_id a ≡ tid_id b → count k (a ∷ []) ≡ count k (b ∷ [])
unfolding count
count_same k a b e = rw e

count_self : (a : Tid) → count (tid_id a) (a ∷ []) ≡ 1
unfolding count
count_self a = ground arith

pub push_ok :
    (trk : Tracker) (t : Tid)
    → (Ring.push 128 trk t).0 ≡ ok
    → pushed (Ring.push 128 trk t) ≡ some (Ring.push 128 trk t).1
push_ok trk t e = rw (e, pushed)

init_loop_step :
    (n i : ℕ) (trk trk' : Tracker)
    → pushed (Ring.push 128 trk i) ≡ some trk'
    → tt_init_loop (suc n) i trk ≡ tt_init_loop n (i + 1) trk'
unfolding tt_init_loop
init_loop_step n i trk trk' e = rw (e, tt_init_loop)

init_loop-Holds :
    (n i : ℕ) (trk : Tracker) (xs : List Tid)
    → Holds 128 trk xs
    → length xs + n ≤ 128
    → (trk' : Tracker) × (tt_init_loop n i trk ≡ some trk') × Holds 128 trk' (xs ++ ids_from i n)
unfolding tt_init_loop
init_loop-Holds zero i trk xs h l = (trk, refl, subst (Holds 128 trk) (sym (append-nil xs)) h)
init_loop-Holds (suc n) i trk xs h l =
    let (c, h') = push-Holds trk xs i h (omega arith) in
    let (trk', run, held) =
      init_loop-Holds n (i + 1) (Ring.push 128 trk i).1 (xs ++ (i ∷ [])) h'
        (omega (arith, length-append xs (i ∷ []))) in
    (
      trk',
      init_loop_step n i trk (Ring.push 128 trk i).1 (push_ok trk i c) ∙ run,
      subst (Holds 128 trk') (append_assoc xs (i ∷ []) (ids_from (i + 1) n)) held,
    )

-- A tracker, and the ids that tasks have: each index below `MAX_TASK` belongs to one id, which is
-- free or in use.
pub record Pool (trk : Tracker) (used : List Tid) : Type 0 where
  pub free : List Tid
  pub held : Holds 128 trk free
  pub all : length free + length used ≡ 128
  pub once : (k : ℕ) → count k free + count k used ≡ (if ltb k 128 then 1 else 0)

-- `tt_init` of a tracker with 128 cells ends without a failed KASSERT, and all 128 ids are free.
pub tt_init-Pool :
    (trk : Tracker)
    → length trk.buf ≡ 128
    → (trk' : Tracker) × (tt_init trk ≡ some trk') × Pool trk' []
unfolding tt_init
tt_init-Pool trk l =
    let start = init-Holds trk (init-IsValid trk (omega arith) (omega arith) l) in
    let (trk', run, held) = init_loop-Holds 128 0 (Ring.init trk) [] start (omega arith) in
    (
      trk',
      run,
      record {
        free = ids_from 0 128;
        held = held;
        all = refl;
        once = λ k. ids-once k 128 (omega arith);
      },
    )

popped_out :
    (r : Code × Option Tid × Tracker) (t : Tid) → r.0 ≡ ok → r.1 ≡ some t → popped r ≡ some (t, r.2)
popped_out (c, o, cb) t e f = rw (e, f)

pub popped_ok :
    (trk : Tracker) (t : Tid) (xs : List Tid)
    → Holds 128 trk (t ∷ xs)
    → (tt_get trk ≡ some (t, (Ring.pop 128 trk).2)) × Holds 128 (Ring.pop 128 trk).2 xs
unfolding tt_get
popped_ok trk t xs h =
    let (c, out, held) = pop-Holds trk xs t h in
    let n = h.count in
    let v = h.valid in
    (
      rw (ne→== trk.size 0 (omega arith), lt→leb (2 ^ 31) trk.size (omega arith))
          (popped_out (Ring.pop 128 trk) t c out),
      held,
    )

get_from :
    (trk : Tracker) (used free : List Tid)
    → Holds 128 trk free
    → length free + length used ≡ 128
    → ((k : ℕ) → count k free + count k used ≡ (if ltb k 128 then 1 else 0))
    → length used < 128
    → (tid : Tid) × (trk' : Tracker) × (tt_get trk ≡ some (tid, trk'))
      × (tid_id tid < 128)
      × (count (tid_id tid) used ≡ 0)
      × Pool trk' (tid ∷ used)
get_from trk used [] h all once room = absurd (omega arith)
get_from trk used (t ∷ rest) h all once room =
    let (run, held) = popped_ok trk t rest h in
    let here : suc (count (tid_id t) rest + count (tid_id t) used)
        ≡ (if ltb (tid_id t) 128 then 1 else 0) =
      omega (arith, once (tid_id t), count-cons (tid_id t) t rest, count_self t) in
    (
      t,
      (Ring.pop 128 trk).2,
      run,
      ground arith,
      ground arith,
      record {
        free = rest;
        held = held;
        all = omega arith;
        once = λ k. omega (arith, once k, count-cons k t rest, count-cons k t used);
      },
    )

-- On a tracker in which each of the 128 ids is free or in use and not all are in use, `tt_get`
-- returns an id with an index below 128 that no task has, and leaves a tracker in which that id is
-- in use as well.
pub tt_get-Pool :
    (trk : Tracker) (used : List Tid)
    → Pool trk used
    → length used < 128
    → (tid : Tid) × (trk' : Tracker) × (tt_get trk ≡ some (tid, trk'))
      × (tid_id tid < 128)
      × (count (tid_id tid) used ≡ 0)
      × Pool trk' (tid ∷ used)
tt_get-Pool trk used pool room = get_from trk used pool.free pool.held pool.all pool.once room

-- On a tracker in which each of the 128 ids is free or in use and all are in use, `tt_get` returns
-- -2 and changes nothing.
pub tt_get_exhausted :
    (trk : Tracker) (used : List Tid)
    → Pool trk used
    → length used ≡ 128
    → tt_get trk ≡ some (neg32 2, trk)
unfolding tt_get
tt_get_exhausted trk used pool all_used =
    let n = pool.held.count in let a = pool.all in rw (eq→== trk.size 0 (omega arith))

-- An id that is in use can be returned: the KASSERT of `tt_return` holds, and in the tracker that
-- is left each id is free or in use as before, but the returned one is free.
pub tt_return-Pool :
    (trk : Tracker) (xs ys : List Tid) (tid : Tid)
    → Pool trk (xs ++ (tid ∷ ys))
    → (trk' : Tracker) × (tt_return tid trk ≡ some trk') × Pool trk' (xs ++ ys)
unfolding tt_return
tt_return-Pool trk xs ys tid pool =
    let n = pool.all in
    let back = add32 tid (2 ^ 16) in
    let (c, held) =
      push-Holds trk pool.free back pool.held (omega (arith, length-append xs (tid ∷ ys))) in
    (
      (Ring.push 128 trk back).1,
      push_ok trk back c,
      record {
        free = pool.free ++ (back ∷ []);
        held = held;
        all = omega (
          arith,
          length-append xs (tid ∷ ys),
          length-append xs ys,
          length-append pool.free (back ∷ []),
        );
        once = λ k. omega (
          arith,
          pool.once k,
          count-append k pool.free (back ∷ []),
          count-append k xs ys,
          count-append k xs (tid ∷ ys),
          count-cons k tid ys,
          count_same k back tid (omega arith),
        );
      },
    )
