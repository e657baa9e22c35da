-- ===== src/Shaper/Equilibrium/Corridor/Swing.antt =====
-- src/libtsshaper/src/core/tss_scheduler.c: the corridor of the pace in numbers.
use tsanalyzer.Base.{ℕ, ◌+◌, ◌*◌, ◌≤◌, ◌⊎◌, ltb, if◌then◌else◌}
use tsanalyzer.Base.Int.{ℤ, pos, pos_part, neg_part, ◌-ℤ◌, ◌*ℤ◌, ◌≤ℤ◌, ltb_ℤ, div_ℤ}

-- How far a pace is from 1, and how far below, in thousandths.
unfoldable pub deviation : ℤ → ℕ
deviation pace = pos_part (pace -ℤ pos 1000) + neg_part (pace -ℤ pos 1000)

unfoldable pub shortfall : ℤ → ℕ
shortfall pace = neg_part (pace -ℤ pos 1000)

-- Where the pace of a stream of `rate` bits per second may be, while its FIFO holds `ratio`
-- thousandths of the multiplex delay: the swing is in thousandths of bits per second.
pub data InCorridor (rate : ℕ) (ratio pace : ℤ) : Type 0 where
  middle :
      pos 250 ≤ℤ ratio
      → ratio ≤ℤ pos 750
      → deviation pace * rate ≤ 22000 * 1000
      → InCorridor rate ratio pace
  side :
      (ratio ≤ℤ pos 249) ⊎ (pos 751 ≤ℤ ratio)
      → pos 100 ≤ℤ ratio
      → ratio ≤ℤ pos 900
      → deviation pace * rate ≤ 32000 * 1000
      → InCorridor rate ratio pace
  edge :
      (ratio ≤ℤ pos 99) ⊎ (pos 901 ≤ℤ ratio)
      → shortfall pace * rate ≤ 64000 * 1000
      → pos 950 ≤ℤ pace
      → pace ≤ℤ pos (if ltb rate 1000000 then 1050 else 1150)
      → InCorridor rate ratio pace

-- The corridor's half width for a swing in bits per second and a rate.
abbrev limit_at : ℤ → ℤ → ℤ
limit_at limit rate =
    div_ℤ (limit *ℤ pos 1000) (if ltb_ℤ (pos 0) rate then pos_part rate else 1000000)
