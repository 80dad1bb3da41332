-- ===== src/Clock/Tests.antt =====
-- The property of the clock at a concrete input.
use cs.Base.{◌≡◌, arith}
use cs.Clock.{Clock, add_dsec}
use cs.Clock.Time.{tenths, IsTime, add_dsec-IsTime}

abbrev late : Clock
late = record { min = 7; sec = 59; dsec = 8 }

add_dsec-IsTime_example : IsTime (add_dsec late 3) × (tenths (add_dsec late 3) ≡ 4801)
add_dsec-IsTime_example = add_dsec-IsTime late 3 (omega arith) (omega arith)
