-- ===== src/Ring/Rem.antt =====
-- include/lib/circular_buffer.h: `rem`, which the buffers of the EXT_ macros have besides the others. It takes
-- the first entry that is the value out of the two stretches, and closes the gap.
use cs.Base.{
  ℕ, zero, suc, ◌-◌, Option, none, some, List, if◌then◌else◌, ltb, ◌==◌, sub32, get_elem?, set,
}
use cs.Ring.{Ring, Code, ok, empty, dne, before, first_end, second_end}

-- `buf[i] = buf[j]`
abbrev pub write_cell : List ℕ → ℕ → Option ℕ → List ℕ
write_cell buf i none = buf
write_cell buf i (some x) = set buf i x

abbrev pub copy_cell : List ℕ → ℕ → ℕ → List ℕ
copy_cell buf i j = write_cell buf i (get_elem? buf j)

abbrev pub is_at : Option ℕ → ℕ → ℕ
is_at none val = 1
is_at (some x) val = if x == val then 0 else 1

-- The loops that look for the value and that close the gap, with the rounds that are left.
unfoldable pub find_from : ℕ → List ℕ → ℕ → ℕ → Option ℕ
find_from zero buf i val = none
find_from (suc n) buf i val =
    let rest = find_from n buf (suc i) val in
    if is_at (get_elem? buf i) val == 0 then some i else rest

unfoldable pub shift_from : ℕ → List ℕ → ℕ → List ℕ
shift_from zero buf i = buf
shift_from (suc n) buf i = shift_from n (copy_cell buf i (suc i)) (suc i)

abbrev pub closed : ℕ → Ring ℕ → List ℕ → Ring ℕ
closed cap cb buf = record cb { buf = buf; stop = before cap cb.stop; size = sub32 cb.size 1 }

-- The value is in the second stretch, or nowhere.
abbrev pub rem_second : ℕ → Ring ℕ → ℕ → Option ℕ → Code × Ring ℕ
rem_second cap cb v none = (dne, cb)
rem_second cap cb v (some j) = (ok, closed cap cb (shift_from (v - 1 - j) cb.buf j))

-- The first entry of the second stretch moves to the end of the first one.
abbrev pub over_end : ℕ → ℕ → List ℕ → List ℕ
over_end u v buf = if ltb 0 v then shift_from (v - 1) (copy_cell buf (u - 1) 0) 0 else buf

abbrev pub rem_first : ℕ → Ring ℕ → ℕ → ℕ → ℕ → Option ℕ → Code × Ring ℕ
rem_first cap cb u v val none = rem_second cap cb v (find_from v cb.buf 0 val)
rem_first cap cb u v val (some i) =
    (ok, closed cap cb (over_end u v (shift_from (u - 1 - i) cb.buf i)))

unfoldable pub rem : ℕ → Ring ℕ → ℕ → Code × Ring ℕ
unfolding find_from shift_from
rem cap cb val =
    let u = first_end cap cb in
    let v = second_end cap cb in
    if cb.size == 0
    then (empty, cb)
    else rem_first cap cb u v val (find_from (u - cb.start) cb.buf cb.start val)
