-- ===== src/Clock/Time.antt =====
-- The clock as a number of tenths of a second.
use cs.Base.{ℕ, ◌+◌, ◌*◌, ◌<◌, ◌^◌, ◌≡◌, arith}
use cs.Clock.{Clock, add_dsec}

abbrev pub tenths : Clock → ℕ
tenths clk = (clk.min * 60 + clk.sec) * 10 + clk.dsec

-- The time is written as one writes it.
abbrev pub IsTime : Clock → Type 0
IsTime clk = (clk.sec < 60) × (clk.dsec < 10)

-- Adding tenths of a second to a clock with fewer than 60 seconds and 10 tenths leaves such a
-- clock, that many tenths later, as long as the time in tenths stays below 2 ^ 32.
pub add_dsec-IsTime :
    (clk : Clock) (dsecs : ℕ)
    → IsTime clk
    → tenths clk + dsecs < 2 ^ 32
    → IsTime (add_dsec clk dsecs) × (tenths (add_dsec clk dsecs) ≡ tenths clk + dsecs)
unfolding add_dsec
add_dsec-IsTime clk dsecs t b = omega arith
