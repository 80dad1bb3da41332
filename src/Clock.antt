-- ===== src/Clock.antt =====
-- src/lib/clock.c: the clock on the screen.
pub mod Time
mod Tests
use cs.Base.{
  ℕ, ◌+◌, ◌-◌, ◌/◌, ◌%◌, Option, List, [], ◌∷◌, replicate, set, get_elem?, if◌then◌else◌, ltb, ◌==◌,
  add32, sub32, neg32, is_negative,
}

-- The three numbers are `uint32_t`.
pub record Clock : Type 0 where
  pub min : ℕ
  pub sec : ℕ
  pub dsec : ℕ

unfoldable pub clk_init : Clock → Clock
clk_init clk = record { min = 0; sec = 0; dsec = 0 }

unfoldable pub add_dsec : Clock → ℕ → Clock
add_dsec clk dsecs =
    let d = add32 clk.dsec dsecs in
    let s = add32 clk.sec (d / 10) in
    record { min = add32 clk.min (s / 60); sec = s % 60; dsec = d % 10 }
