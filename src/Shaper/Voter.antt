-- ===== src/Shaper/Voter.antt =====
-- src/libtsshaper/src/core/tss_voter.c: how a PID's time stamps are judged, and how the shaper
-- moves to a new timeline. `pid` points into `all_pids`: it is given by its index there. The logs
-- are left out.
pub mod Timeline
use tsanalyzer.Base.{
  ℕ, suc, ◌+◌, ◌*◌, ◌^◌, List, map, Bool, true, false, not, ◌&&◌, leb, ltb, if◌then◌else◌, get_or,
  set,
}
use tsanalyzer.Base.Int.{ℤ, pos, ◌+ℤ◌, ◌-ℤ◌, ◌*ℤ◌, ltb_ℤ, eq_ℤ, abs_ℤ, neg_ℤ, div_ℤ}
use tsanalyzer.Shaper.State.{
  nopts, TssState, normal, confirming, JumpLevel, jitter, soft, suspicious, hard, PidState, Shaper,
}

-- TSS_TIMELINE_MODULO / 2
abbrev pub half_timeline : ℤ
half_timeline = pos (2 ^ 32 * 300)

abbrev pub timeline_modulo : ℤ
timeline_modulo = pos (2 ^ 33 * 300)

-- 500 ms of a 27 MHz clock
abbrev pub half_second : ℤ
half_second = pos (500 * 27000)

-- The difference of two time stamps across a wrap of the 33-bit clock.
unfoldable pub unwrap : ℤ → ℤ
unwrap delta =
    if ltb_ℤ delta (neg_ℤ half_timeline)
    then delta +ℤ timeline_modulo
    else if ltb_ℤ half_timeline delta
    then delta -ℤ timeline_modulo
    else delta

unfoldable pub delta_raw : PidState → ℤ → ℤ
delta_raw p dts = unwrap (dts -ℤ p.last_dts_raw)

unfoldable pub level_of : ℤ → JumpLevel
level_of delta_ms =
    if ltb_ℤ (abs_ℤ delta_ms) (pos 50)
    then jitter
    else if ltb_ℤ (abs_ℤ delta_ms) (pos 500)
    then soft
    else if ltb_ℤ (abs_ℤ delta_ms) (pos 2000)
    then suspicious
    else hard

-- The average frame duration; it is never negative, so that `>> 4` is a division by 16.
unfoldable pub average : ℤ → ℤ → ℤ
average old delta =
    if eq_ℤ old (pos 0) then abs_ℤ delta else div_ℤ (old *ℤ pos 15 +ℤ abs_ℤ delta) 16

-- The level of a time stamp and the step estimation.
unfoldable pub analyze : PidState → ℤ → PidState
analyze p dts =
    let delta = delta_raw p dts in
    let delta_ms = div_ℤ delta 27000 in
    record p {
      delta_ms = delta_ms;
      level = level_of delta_ms;
      avg_frame_duration =
          if ltb_ℤ (abs_ℤ delta_ms) (pos 50)
          then average p.avg_frame_duration delta
          else p.avg_frame_duration;
    }

-- What a time stamp comes to: the PID alone changes, or the whole timeline moves by its candidate.
pub data Vote : Type 0 where
  keep translate : PidState → Vote

-- A new candidate for a jump.
unfoldable pub suspect : Shaper → ℤ → PidState → PidState
suspect ctx delta p = record p {
  confirm_streak = 1;
  candidate_jump = delta;
  confirm_start_physical_stc =
      if not (eq_ℤ ctx.physical_stc nopts) then ctx.physical_stc else pos 0;
}

unfoldable pub to_normal : PidState → PidState
to_normal p = record p { state = normal; confirm_streak = 0 }

unfoldable pub timed_out : Shaper → PidState → Bool
timed_out ctx p =
    not (eq_ℤ ctx.physical_stc nopts)
    && not (eq_ℤ p.confirm_start_physical_stc nopts)
    && ltb_ℤ half_second (abs_ℤ (ctx.physical_stc -ℤ p.confirm_start_physical_stc))

-- A third time stamp that agrees: the master moves the timeline, a slave only itself.
unfoldable pub confirmed : PidState → ℤ → Bool → Vote
confirmed p dts is_master =
    if is_master
    then translate p
    else keep (record p {
      state = normal;
      confirm_streak = 0;
      stream_offset = p.stream_offset +ℤ p.candidate_jump;
      last_dts_raw = dts;
    })

-- A PID that is confirming a jump.
unfoldable pub confirm : Shaper → PidState → ℤ → ℤ → Bool → Vote
confirm ctx p delta dts is_master =
    let p₁ = record p { confirm_streak = p.confirm_streak + 1 } in
    if timed_out ctx p
    then keep (to_normal p)
    else if ltb_ℤ (abs_ℤ (delta -ℤ p.candidate_jump)) half_second
    then (if leb 3 p₁.confirm_streak then confirmed p₁ dts is_master else keep p₁)
    else if ltb_ℤ (abs_ℤ p.delta_ms) (pos 500)
    then keep (to_normal p)
    else keep (suspect ctx delta p)

-- A PID that is not confirming, by the level of the time stamp.
unfoldable pub detect : JumpLevel → Shaper → PidState → ℤ → PidState
detect jitter ctx p delta = p
detect soft ctx p delta =
    let step =
      if ltb_ℤ (pos 0) p.avg_frame_duration then p.avg_frame_duration else pos (40 * 27000) in
    record p { stream_offset = p.stream_offset +ℤ (delta -ℤ step) }
detect suspicious ctx p delta = record (suspect ctx delta p) { state = confirming }
detect hard ctx p delta = record (suspect ctx delta p) { state = confirming }

unfoldable pub is_confirming : TssState → Bool
is_confirming confirming = true
is_confirming _ = false

unfoldable pub judge : Shaper → PidState → ℤ → Bool → Vote
judge ctx p dts is_master =
    let delta = delta_raw p dts in
    let p₁ = analyze p dts in
    if is_confirming p.state
    then confirm ctx p₁ delta dts is_master
    else keep (detect p₁.level ctx p₁ delta)

-- The new epoch of one PID.
unfoldable pub reanchor : PidState → PidState
reanchor p = record p {
  tokens_bits =
      if ltb_ℤ (pos 0) p.bitrate_bps
      then div_ℤ (p.bitrate_bps *ℤ pos 50) 1000
      else pos (188 * 8 * 20);
  next_arrival_ts = nopts;
  last_update_ts = nopts;
  stream_offset = div_ℤ p.stream_offset 2;
  state = normal;
  confirm_streak = 0;
  need_resync = true;
}

unfoldable pub move_timeline : ℤ → Shaper → Shaper
move_timeline jump ctx =
    let base = ctx.stc_base +ℤ jump in
    record ctx {
      dts_offset = ctx.dts_offset +ℤ jump;
      stc_base = base;
      stc_offset = ctx.stc_offset +ℤ jump;
      v_stc = base;
      physical_stc = base;
      last_refill_physical_stc = base;
      next_slot_stc = base;
      pending_discontinuity = true;
      jump_occurred = true;
      all_pids = map reanchor ctx.all_pids;
    }

unfoldable pub put_pid : ℕ → PidState → Shaper → Shaper
put_pid k p ctx = record ctx { all_pids = set ctx.all_pids k p }

-- tss_voter_process for the PID `p` at place `k`, with its result
unfoldable pub voter_process : Shaper → ℕ → PidState → ℤ → Bool → Shaper × ℕ
voter_process ctx k p dts is_master = elim (judge ctx p dts is_master) [
  | keep q ↦ (put_pid k q ctx, 0)
  | translate q ↦ (move_timeline q.candidate_jump (put_pid k q ctx), 1)
]
