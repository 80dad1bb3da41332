-- ===== src/Kernel/Create/Version.antt =====
-- What `create` makes of a tid whose version has reached the sign bit.
use cs.Base.{
  ℕ, ◌+◌, ◌<◌, ◌∙◌, sym, ap, arith, add32, [], ◌≤◌, ◌^◌, ◌≡◌, refl, none, some, List, ◌∷◌, le→leb,
  Bool-cases, inl, inr,
}
use cs.Ring
use cs.Ring.Refine.{Holds, push-Holds}
use cs.Task.{Tid}
use cs.Task.Tracker.{Tracker, tt_get, tt_return, tt_size}
use cs.Task.Tracker.Alloc.{popped_ok, push_ok}
use cs.Kernel.{Kernel, arg}
use cs.Kernel.Create.{create, is_valid_priority}

negative_run :
    (k : Kernel) (i : ℕ) (tid : Tid) (trk : Tracker)
    → tt_get k.tid_tracker ≡ some (tid, trk)
    → 2 ^ 31 ≤ tid
    → create k i ≡ none
unfolding create
negative_run k i tid trk g n = elim (Bool-cases (is_valid_priority (arg k i 4))) [
  | inl y ↦ rw (g, y, le→leb (2 ^ 31) tid n) refl
  | inr y ↦ rw (g, y) refl
]

create_of_negative :
    (k : Kernel) (i : ℕ) (tid : Tid) (free : List Tid)
    → Holds 128 k.tid_tracker (tid ∷ free)
    → 2 ^ 31 ≤ tid
    → create k i ≡ none
create_of_negative k i tid free h n =
    negative_run k i tid (Ring.pop 128 k.tid_tracker).2 (popped_ok k.tid_tracker tid free h).0 n

-- When the only id that comes free is that of a task whose version is the last of 15 bits, 32767,
-- `tt_return` puts it back, so that one id is free again, but as a pattern of 2 ^ 31 or more, a
-- negative `tid_t`: `tt_get` hands that out, and a call of `create` aborts.
pub return_then_create :
    (k : Kernel) (i : ℕ) (tid : Tid)
    → Holds 128 k.tid_tracker []
    → 2 ^ 31 ≤ tid + 2 ^ 16
    → tid < 2 ^ 31
    → (trk' trk'' : Tracker) × (tt_return tid k.tid_tracker ≡ some trk')
      × (tt_size trk' ≡ 1)
      × (tt_get trk' ≡ some (tid + 2 ^ 16, trk''))
      × (create (record k { tid_tracker = trk' }) i ≡ none)
unfolding tt_return
return_then_create k i tid h lo hi =
    let back = add32 tid (2 ^ 16) in
    let (c, held) = push-Holds k.tid_tracker [] back h (omega arith) in
    let trk' = (Ring.push 128 k.tid_tracker back).1 in
    let n = held.count in
    let up : back ≡ tid + 2 ^ 16 = omega arith in
    let out = (popped_ok trk' back [] held).0 in
    (
      trk',
      (Ring.pop 128 trk').2,
      push_ok k.tid_tracker back c,
      sym n,
      out ∙ ap (λ t. some (t, (Ring.pop 128 trk').2)) up,
      create_of_negative (record k { tid_tracker = trk' }) i back [] held (omega arith),
    )
