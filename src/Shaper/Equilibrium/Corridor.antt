-- ===== src/Shaper/Equilibrium/Corridor.antt =====
-- src/libtsshaper/src/core/tss_scheduler.c: the pace of a stream stays in its corridor and moves by
-- limited steps.
pub mod Swing
use tsanalyzer.Base.{arith}
use tsanalyzer.Base.Int.{ℤ, pos, ◌+ℤ◌, ◌-ℤ◌, ◌*ℤ◌, ◌≤ℤ◌, int_laws}
use tsanalyzer.Shaper.State.{PidState}
use tsanalyzer.Shaper.Equilibrium.{
  at_least, at_most, jitter_limit, range_limit, max_pacing, min_pacing, max_step, next_pacing,
  start_up, aim, control,
}

range_limit_natural :
    (ratio : ℤ) (p : PidState) → pos 0 ≤ℤ p.base_refill_rate_bps → pos 0 ≤ℤ range_limit ratio p
unfolding range_limit jitter_limit at_most ◌*ℤ◌
range_limit_natural ratio p h = ground arith

min_max :
    (ratio : ℤ) (p : PidState)
    → pos 0 ≤ℤ p.base_refill_rate_bps
    → min_pacing ratio p ≤ℤ max_pacing ratio p
unfolding min_pacing max_pacing
min_max ratio p h = grind (int_laws, range_limit_natural ratio p h)

clamp_in :
    (low high v : ℤ)
    → low ≤ℤ high
    → (low ≤ℤ at_most high (at_least low v)) × (at_most high (at_least low v) ≤ℤ high)
unfolding at_most at_least
clamp_in low high v h = ground arith

-- Where a value between the bounds is clamped, its distance from another one between them does not
-- grow.
clamp_near :
    (low high old step v : ℤ)
    → low ≤ℤ old
    → old ≤ℤ high
    → old -ℤ step ≤ℤ v
    → v ≤ℤ old +ℤ step
    → pos 0 ≤ℤ step
    → (old -ℤ step ≤ℤ at_most high (at_least low v))
      × (at_most high (at_least low v) ≤ℤ old +ℤ step)
unfolding at_most at_least
clamp_near low high old step v hl hh a b s = grind int_laws

-- For a stream with a rate that is not negative the controller leaves the pace between the limits
-- of its corridor, whatever the fullness, the pace before and the integral are.
pub control-corridor :
    (ratio : ℤ) (p : PidState)
    → pos 0 ≤ℤ p.base_refill_rate_bps
    → (min_pacing ratio p ≤ℤ (control ratio p).pacing_tokens)
      × ((control ratio p).pacing_tokens ≤ℤ max_pacing ratio p)
unfolding control next_pacing
control-corridor ratio p h = clamp_in _ _ _ (min_max ratio p h)

max_step_natural : (p : PidState) → pos 0 ≤ℤ max_step p
unfolding max_step at_least
max_step_natural p = ground arith

slew_in :
    (old step target : ℤ)
    → pos 0 ≤ℤ step
    → let v = at_least (old -ℤ step) (at_most (old +ℤ step) target) in
      (old -ℤ step ≤ℤ v) × (v ≤ℤ old +ℤ step)
unfolding at_most at_least
slew_in old step target h = grind int_laws

-- The pace of a stream that is inside its corridor moves by at most one step, which is the greater
-- of 10 and the rate over 200000.
pub control-max_step :
    (ratio : ℤ) (p : PidState)
    → min_pacing ratio p ≤ℤ p.pacing_tokens
    → p.pacing_tokens ≤ℤ max_pacing ratio p
    → (p.pacing_tokens -ℤ max_step p ≤ℤ (control ratio p).pacing_tokens)
      × ((control ratio p).pacing_tokens ≤ℤ p.pacing_tokens +ℤ max_step p)
unfolding control next_pacing
control-max_step ratio p low high =
    let target : ℤ = start_up p (aim ratio p).0 in
    let (down, up) = slew_in p.pacing_tokens (max_step p) target (max_step_natural p) in
    clamp_near (min_pacing ratio p) (max_pacing ratio p) p.pacing_tokens (max_step p) _ low high
      down up (max_step_natural p)
