-- ===== src/Shaper/Equilibrium.antt =====
-- src/libtsshaper/src/core/tss_scheduler.c, `tss_pick_es_pid`: the controller that sets the pace of an
-- audio or video stream from the fullness of its FIFO. The assignments to `jitter_limit_bps` before
-- the choice of a stage are left out: each stage assigns it again.
pub mod Corridor
use tsanalyzer.Base.{
  ℕ, ◌+◌, ◌*◌, ◌/◌, Bool, true, false, not, ◌&&◌, ◌||◌, if◌then◌else◌, none, some,
}
use tsanalyzer.Base.Int.{
  ℤ, pos, negsuc, pos_part, ◌+ℤ◌, ◌-ℤ◌, ◌*ℤ◌, ltb_ℤ, eq_ℤ, abs_ℤ, div_ℤ, rem_ℤ,
}
use tsanalyzer.Shaper.Fifo.{size_of}
use tsanalyzer.Shaper.State.{PidState, Sched, Shaper}

-- TSS_PREC_SCALE
abbrev pub scale : ℤ
scale = pos 1000

-- `tss_fifo_size(pid->ts_fifo)`, which is 0 for a null pointer
unfoldable pub fifo_size : PidState → ℕ
fifo_size p = elim p.ingress.ts_fifo [ none ↦ 0 | some f ↦ size_of f ]

-- `low <= v` and `v <= high`
abbrev pub leb_ℤ : ℤ → ℤ → Bool
leb_ℤ a b = not (ltb_ℤ b a)

unfoldable pub at_least : ℤ → ℤ → ℤ
at_least low v = if ltb_ℤ v low then low else v

unfoldable pub at_most : ℤ → ℤ → ℤ
at_most high v = if ltb_ℤ high v then high else v

-- The time that the FIFO holds, in thousandths of the multiplex delay. The tests see to it that no
-- divisor is zero.
unfoldable pub delay_ratio : Shaper → PidState → ℤ
delay_ratio ctx p =
    if ltb_ℤ (pos 0) p.bitrate_bps && ltb_ℤ (pos 0) (div_ℤ (ctx.mux_delay_27m *ℤ scale) 27000000)
    then div_ℤ (div_ℤ (pos (fifo_size p * 8 * 1000)) (pos_part p.bitrate_bps) *ℤ scale)
        (pos_part (div_ℤ ctx.mux_delay_27m 27000))
    else pos 0

-- The gain of a stage.
unfoldable pub stage_gain : ℤ → ℤ
stage_gain ratio =
    if leb_ℤ (pos 250) ratio && leb_ℤ ratio (pos 750)
    then pos 2
    else if leb_ℤ (pos 100) ratio && leb_ℤ ratio (pos 900)
    then pos 4
    else if leb_ℤ (pos 400) ratio && leb_ℤ ratio (pos 750)
    then pos 4
    else if leb_ℤ (pos 200) ratio && ltb_ℤ ratio (pos 400)
    then pos 4
    else if leb_ℤ (pos 100) ratio && ltb_ℤ ratio (pos 200)
    then pos 8
    else pos 24

-- Low rates have half the gain.
unfoldable pub gain : ℤ → PidState → ℤ
gain ratio p =
    if ltb_ℤ p.base_refill_rate_bps (pos 1000000)
    then div_ℤ (stage_gain ratio) 2
    else stage_gain ratio

-- The bits per second that the pace may swing by.
unfoldable pub jitter_limit : ℤ → PidState → ℤ
jitter_limit ratio p =
    if leb_ℤ (pos 250) ratio && leb_ℤ ratio (pos 750)
    then pos 22000
    else if leb_ℤ (pos 100) ratio && leb_ℤ ratio (pos 900)
    then pos 32000
    else at_most (div_ℤ p.base_refill_rate_bps 20) (pos 64000)

unfoldable pub range_limit : ℤ → PidState → ℤ
range_limit ratio p =
    let rate : ℕ =
      if ltb_ℤ (pos 0) p.base_refill_rate_bps then pos_part p.base_refill_rate_bps else 1000000 in
    div_ℤ (jitter_limit ratio p *ℤ scale) rate

unfoldable pub max_pacing : ℤ → PidState → ℤ
max_pacing ratio p =
    if ltb_ℤ ratio (pos 100) || ltb_ℤ (pos 900) ratio
    then (if ltb_ℤ p.base_refill_rate_bps (pos 1000000) then pos 1050 else pos 1150)
    else scale +ℤ range_limit ratio p

unfoldable pub min_pacing : ℤ → PidState → ℤ
min_pacing ratio p = scale -ℤ range_limit ratio p

unfoldable pub is_saturated : ℤ → PidState → Bool
is_saturated ratio p =
    let error = ratio -ℤ pos 600 in
    (ltb_ℤ (pos 0) error && leb_ℤ (max_pacing ratio p) p.pacing_tokens)
    || (ltb_ℤ error (pos 0) && leb_ℤ p.pacing_tokens (min_pacing ratio p))

-- The pace moves a little towards 1.
unfoldable pub decayed : PidState → ℤ
decayed p = div_ℤ (p.pacing_tokens *ℤ pos 999999 +ℤ scale) 1000000

-- The pace that the controller aims at, and what is left of its integral.
unfoldable pub aim : ℤ → PidState → ℤ × ℤ
aim ratio p =
    let error = ratio -ℤ pos 600 in
    let push = gain ratio p *ℤ error in
    let integral = if is_saturated ratio p then pos 0 else p.sched.pi_integral +ℤ push in
    if ltb_ℤ (abs_ℤ error) (pos 50)
    then (decayed p, pos 0)
    else if leb_ℤ scale (abs_ℤ push)
    then (p.pacing_tokens +ℤ div_ℤ integral 1000, rem_ℤ integral 1000)
    else (decayed p, p.sched.pi_integral)

-- The first ten reports of a stream keep the aim close to 1.
unfoldable pub start_up : PidState → ℤ → ℤ
start_up p target =
    if ltb_ℤ p.sched.tel_avg_count (pos 10)
    then at_most (pos 1020) (at_least (pos 980) target)
    else target

unfoldable pub max_step : PidState → ℤ
max_step p = at_least (pos 10) (div_ℤ p.bitrate_bps 200000)

-- The slew limit, and then the clamp to the corridor.
unfoldable pub next_pacing : ℤ → PidState → ℤ
next_pacing ratio p =
    let target = start_up p (aim ratio p).0 in
    let slewed =
      at_least (p.pacing_tokens -ℤ max_step p) (at_most (p.pacing_tokens +ℤ max_step p) target) in
    at_most (max_pacing ratio p) (at_least (min_pacing ratio p) slewed)

unfoldable pub control : ℤ → PidState → PidState
control ratio p = record p {
  pacing_tokens = next_pacing ratio p;
  sched = record p.sched {
    pi_integral = (aim ratio p).1;
    telemetry_mode = if ltb_ℤ (pos 400) ratio then 1 else 0;
  };
}
