-- ===== src/Ring/Inv.antt =====
-- The representation invariant of a circular buffer, which its operations keep.
use native.Mathlib.Nat.{mod-eq_of_lt, mod-eq-sub-mod}
use native.Mathlib.Decide.{dec_lt}
use cs.Base.{
  ℕ, ◌+◌, ◌-◌, ◌%◌, ◌^◌, ◌≤◌, ◌<◌, ◌≡◌, ap, arith, length, length-set, leb, if◌then◌else◌, add32,
  sub32,
}
use cs.Ring.{Ring, init, push, pop, pop_end, before}

-- The place of the entry that is `k` cells after cell 0, once round the buffer at most.
abbrev pub wrap : ℕ → ℕ → ℕ
wrap cap k = if leb cap k then k - cap else k

-- The capacities of the program run from 5 to 512.
pub record IsValid {ℓ} {A : Type ℓ} (cap : ℕ) (cb : Ring A) : Type 0 where
  pub positive : 0 < cap
  pub small : cap < 2 ^ 30
  pub storage : length cb.buf ≡ cap
  pub start_in : cb.start < cap
  pub size_in : cb.size ≤ cap
  pub stop_at : cb.stop ≡ wrap cap (cb.start + cb.size)

pub mod-wrap : (cap k : ℕ) → 0 < cap → k < cap + cap → k % cap ≡ wrap cap k
mod-wrap cap k p h = elim (dec_lt k cap) [
  | yes l ↦ rw (mod-eq_of_lt l) (ground arith)
  | no l ↦
      rw (mod-eq-sub-mod {n = k} {m = cap} (omega arith))
        (rw (mod-eq_of_lt {n = k - cap} {m = cap} (omega arith)) (ground arith))
]

-- What the index arithmetic of `push`, `pop` and `pop_end` comes to.
pub next_place : (cap k : ℕ) → k < cap → cap < 2 ^ 30 → add32 k 1 % cap ≡ wrap cap (k + 1)
next_place cap k l s =
    rw (mod-wrap cap (add32 k 1) (omega arith) (omega arith)) (ap (wrap cap) (omega arith))

pub before_place : (cap k : ℕ) → k < cap → cap < 2 ^ 30 → before cap k ≡ wrap cap (k + (cap - 1))
before_place cap k l s =
    rw (mod-wrap cap (add32 (sub32 k 1) cap) (omega arith) (omega arith))
      (ap (wrap cap) (omega arith))

module _ {ℓ} {A : Type ℓ} {cap : ℕ} where
  pub init-IsValid :
      (cb : Ring A) → 0 < cap → cap < 2 ^ 30 → length cb.buf ≡ cap → IsValid cap (init cb)
  unfolding init
  init-IsValid cb p s l = ground arith

  pub push-IsValid : (cb : Ring A) (x : A) → IsValid cap cb → IsValid cap (push cap cb x).1
  unfolding push
  push-IsValid cb x v =
      ground (arith, length-set cb.buf cb.stop x, next_place cap cb.stop (ground arith) v.small)

  pub pop-IsValid : (cb : Ring A) → IsValid cap cb → IsValid cap (pop cap cb).2
  unfolding pop
  pop-IsValid cb v = ground (arith, next_place cap cb.start v.start_in v.small)

  pub pop_end-IsValid : (cb : Ring A) → IsValid cap cb → IsValid cap (pop_end cap cb).2
  unfolding pop_end
  pop_end-IsValid cb v = ground (arith, before_place cap cb.stop (ground arith) v.small)
