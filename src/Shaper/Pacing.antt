-- ===== src/Shaper/Pacing.antt =====
-- src/libtsshaper/src/core/tss_pacing.c: the refill of the token buckets.
pub mod Bounds
use tsanalyzer.Base.{ℕ, ◌+◌, ◌*◌, List, map, Bool, true, false, ◌&&◌, if◌then◌else◌}
use tsanalyzer.Base.Int.{ℤ, pos, ◌+ℤ◌, ◌-ℤ◌, ◌*ℤ◌, ltb_ℤ, eq_ℤ, neg_ℤ, div_ℤ, rem_ℤ}
use tsanalyzer.Shaper.State.{nopts, PidType, video, PidState, Shaper}

-- tss_clip64
unfoldable pub clip : ℤ → ℤ → ℤ → ℤ
clip a low high = if ltb_ℤ a low then low else if ltb_ℤ high a then high else a

-- TSS_SYS_CLOCK_FREQ
abbrev pub clock_freq : ℕ
clock_freq = 27000000

-- 10 packets of debt
abbrev pub min_floor : ℤ
min_floor = neg_ℤ (pos (10 * (188 * 8)))

abbrev pub has_dynamic_refill : PidState → Bool
has_dynamic_refill p = is_video p.pid_type && ltb_ℤ (pos 0) p.bitrate_bps
  where
    is_video : PidType → Bool
    is_video video = true
    is_video _ = false

unfoldable pub anchor_of : PidState → ℤ
anchor_of p =
    if ltb_ℤ (pos 0) p.tel_input_ema_bps
    then p.tel_input_ema_bps
    else div_ℤ (p.bitrate_bps *ℤ pos 1005) 1000

-- The rate after the slew limiter, the low-pass filter and the clamp to 80..120 percent of the
-- configured rate.
unfoldable pub next_rate : PidState → ℤ
next_rate p =
    let anchor = anchor_of p in
    let multiplier = if ltb_ℤ p.pacing_tokens (pos 100) then pos 1000 else p.pacing_tokens in
    let raw_target = div_ℤ (anchor *ℤ multiplier) 1000 in
    let rate =
      if eq_ℤ p.effective_refill_rate_bps (pos 0) then anchor else p.effective_refill_rate_bps in
    let max_slew = div_ℤ anchor 200 in
    let slewed_target = rate +ℤ clip (raw_target -ℤ rate) (neg_ℤ max_slew) max_slew in
    clip (div_ℤ (rate *ℤ pos 15 +ℤ slewed_target) 16) (div_ℤ (p.base_refill_rate_bps *ℤ pos 80) 100)
      (div_ℤ (p.base_refill_rate_bps *ℤ pos 120) 100)

unfoldable pub adjust_rate : PidState → PidState
adjust_rate p =
    if has_dynamic_refill p then record p { effective_refill_rate_bps = next_rate p } else p

unfoldable pub effective_refill : PidState → ℤ
effective_refill p =
    if has_dynamic_refill p then p.effective_refill_rate_bps else p.base_refill_rate_bps

-- The tokens between the floor and the size of the bucket.
unfoldable pub clamp_tokens : PidState → ℤ → ℤ
clamp_tokens p tokens =
    let capped = if ltb_ℤ p.bucket_size_bits tokens then p.bucket_size_bits else tokens in
    if ltb_ℤ capped min_floor then min_floor else capped

unfoldable pub add_tokens : ℤ → PidState → PidState
add_tokens delta p =
    let work_bits = delta *ℤ effective_refill p +ℤ p.token_remainder in
    record p {
      tokens_bits = clamp_tokens p (p.tokens_bits +ℤ div_ℤ work_bits clock_freq);
      token_remainder = rem_ℤ work_bits clock_freq;
    }

-- One PID of the loop.
unfoldable pub refill_pid : ℤ → PidState → PidState
refill_pid delta p = add_tokens delta (adjust_rate p)

-- tss_refill_tokens_flywheel
unfoldable pub refill_tokens_flywheel : Shaper → Shaper
refill_tokens_flywheel ctx =
    let delta = ctx.physical_stc -ℤ ctx.last_refill_physical_stc in
    let synced = record ctx { last_refill_physical_stc = ctx.physical_stc } in
    if eq_ℤ ctx.last_refill_physical_stc nopts
    then synced
    else if ltb_ℤ delta (pos 0)
    then synced
    else if ltb_ℤ (pos 0) delta
    then record synced { all_pids = map (refill_pid delta) ctx.all_pids }
    else ctx
