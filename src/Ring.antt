-- ===== src/Ring.antt =====
-- include/lib/circular_buffer.h: the macros CIRCULAR_BUFFER_DEC/_DEF and their EXT_ versions, which
-- every queue of the program is an instance of. The element type and the capacity are parameters,
-- as they are of the macros.
pub mod Inv
pub mod Refine
pub mod Get
pub mod Rem
mod Tests
use cs.Base.{
  ℕ, zero, suc, ◌+◌, ◌-◌, ◌%◌, Bool, true, false, ◌&&◌, Option, none, some, List, [], ◌∷◌,
  if◌then◌else◌, ltb, leb, ◌==◌, add32, sub32, get_elem?, set,
}

-- `CB_E_NONE`, `CB_E_FULL`, `CB_E_EMPTY` and `CB_E_DNE`.
pub data Code : Type 0 where
  ok full empty dne : Code

-- The struct. `end` is `stop` here; the three numbers are `uint32_t`.
pub record Ring {ℓ} (A : Type ℓ) : Type ℓ where
  pub buf : List A
  pub start : ℕ
  pub stop : ℕ
  pub size : ℕ

-- `(end - 1 + SIZE) % SIZE` in `uint32_t`.
abbrev pub before : ℕ → ℕ → ℕ
before cap stop = add32 (sub32 stop 1) cap % cap

module _ {ℓ} {A : Type ℓ} where
  -- The buffer is left as it was.
  unfoldable pub init : Ring A → Ring A
  init cb = record cb { start = 0; stop = 0; size = 0 }

  module _ (cap : ℕ) where
    unfoldable pub push : Ring A → A → Code × Ring A
    push cb val = if leb cap cb.size then (full, cb) else (
      ok,
      record cb {
        buf = set cb.buf cb.stop val;
        stop = add32 cb.stop 1 % cap;
        size = add32 cb.size 1;
      },
    )

    -- The value is what goes through `ret`; a read outside the buffer is `none`.
    unfoldable pub top : Ring A → Code × Option A
    top cb = if cb.size == 0 then (empty, none) else (ok, get_elem? cb.buf cb.start)

    unfoldable pub pop : Ring A → Code × Option A × Ring A
    pop cb = if cb.size == 0 then (empty, none, cb) else (
      ok,
      get_elem? cb.buf cb.start,
      record cb { start = add32 cb.start 1 % cap; size = sub32 cb.size 1 },
    )

    unfoldable pub pop_end : Ring A → Code × Option A × Ring A
    pop_end cb = if cb.size == 0 then (empty, none, cb) else (
      ok,
      get_elem? cb.buf (before cap cb.stop),
      record cb { stop = before cap cb.stop; size = sub32 cb.size 1 },
    )

    -- The two stretches of the buffer that hold the entries: from `start` up to the first of these,
    -- then from 0 up to the second. `start` is below `SIZE`, so the difference does not stop at 0.
    abbrev pub first_end : Ring A → ℕ
    first_end cb = cb.start + (if leb cap (cb.start + cb.size) then cap - cb.start else cb.size)

    abbrev pub second_end : Ring A → ℕ
    second_end cb = if leb cap (cb.start + cb.size) then cb.stop else 0

    -- Indices are not negative: every caller counts up from 0.
    unfoldable pub get : Ring A → ℕ → Code × Option A
    get cb i =
        let r = first_end cb in
        let j = i + cb.start in
        if cb.size == 0
        then (dne, none)
        else if ltb j r
        then (ok, get_elem? cb.buf j)
        else if ltb (j - r) (second_end cb)
        then (ok, get_elem? cb.buf (j - r))
        else (dne, none)
