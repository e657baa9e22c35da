-- ===== src/Tests/Clocks.antt =====
-- Examples of the clocks and of the shaper's control.
use tsanalyzer.Base.{◌+◌, ◌≡◌, refl, [], ◌∷◌, true, false, none, arith, u64, replicate, set}
use tsanalyzer.Base.Int.{pos, ◌+ℤ◌, ◌-ℤ◌, ◌*ℤ◌}
use tsanalyzer.PcrClock.{PcrClock}
use tsanalyzer.PcrClock.Unwrap.{receive, passed, receive-passed}
use tsanalyzer.Histogram.{Histogram, buckets, add_packet}
use tsanalyzer.Histogram.Clock.{IsCurrent}
use tsanalyzer.Histogram.Ages.{bits_of_age, add_packet-bits_of_age}
use tsanalyzer.Shaper.State.{PidState, Shaper, Ingress, Sched, confirming, hard, audio}
use tsanalyzer.Shaper.Voter.Timeline.{Outcome, voter_process_outcomes}
use tsanalyzer.Shaper.Pacing.{clock_freq, add_tokens, effective_refill, refill_tokens_flywheel}
use tsanalyzer.Shaper.Pacing.Bounds.{AllPaced, refill_tokens_flywheel-AllPaced, add_tokens_lossless}

abbrev clock : PcrClock
clock = record {
  base_pcr_ticks = 2576980377599;
  base_sys_ns = 0;
  last_pcr_ticks = 2576980377599;
  last_sys_ns = 0;
  unwrapped_pcr_ticks = 2576980377599;
  established = true;
  pcr_count = 1;
}

-- The second PCR comes after a wrap.
receive-passed_example :
    u64 (receive clock 2576980377599 ((900000, 5) ∷ (900000, 6) ∷ [])).unwrapped_pcr_ticks
    ≡ u64 (2576980377599 + passed ((900000, 5) ∷ (900000, 6) ∷ []))
receive-passed_example =
    receive-passed ((900000, 5) ∷ (900000, 6) ∷ []) clock 2576980377599 refl refl
      (omega arith, (omega arith, tt))

abbrev histogram : Histogram
histogram = record {
  bits_in_bucket = set (replicate buckets 0) 99 752;
  last_bucket_ns = 20000000;
  current_bucket_idx = 99;
  min_bps = 0;
  max_bps = 0;
  p99_bps = 0;
  initialized = true;
}

-- Two buckets later, the bits of then are two buckets old.
add_packet-bits_of_age_example :
    IsCurrent 45000000 (add_packet (λ bps. bps) 45000000 1504 histogram)
    × (bits_of_age (add_packet (λ bps. bps) 45000000 1504 histogram) 2 ≡ 752)
add_packet-bits_of_age_example =
    add_packet-bits_of_age (λ bps. bps) histogram 45000000 1504 2 refl
      (record { full = refl; index_in = omega arith }) (omega arith) (omega arith) (omega arith)
      (omega arith)

abbrev ingress : Ingress
ingress = record {
  ts_fifo = none;
  fifo_capacity = 0;
  rx_bytes_total = 0;
  fifo_accept_bytes = 0;
  drop_bytes_total = 0;
  cc_drop_count = 0;
  needs_discontinuity = false;
  is_current_au_key = false;
  wait_idr_start_stc = pos 0;
  tel_audio_shed_count = 0;
  tel_watchdog_count = 0;
  tel_psi_rotate_count = 0;
}

abbrev sched : Sched
sched = record {
  au_events = none;
  tb_fullness_bits = pos 0;
  tb_size_bits = pos 4096;
  continuous_fullness_bits = pos 0;
  next_pacing_stc = pos 0;
  pi_integral = pos 0;
  is_panic_mode = false;
  is_urgent = false;
  telemetry_mode = 0;
  burst_count = 0;
  tel_avg_count = pos 20;
  tel_sec_wait_data = 0;
  tel_sec_wait_tok = 0;
  tel_sec_slack_min_27m = pos 0;
}

abbrev pub pid : PidState
pid = record {
  pid_type = audio;
  tokens_bits = pos 0;
  bucket_size_bits = pos 100000;
  base_refill_rate_bps = pos 1000000;
  effective_refill_rate_bps = pos 0;
  token_remainder = pos 7;
  pacing_tokens = pos 0;
  bitrate_bps = pos 1000000;
  tel_input_ema_bps = pos 0;
  next_arrival_ts = pos 0;
  last_update_ts = pos 0;
  last_dts_raw = pos 1000;
  delta_ms = pos 0;
  level = hard;
  stream_offset = pos 0;
  avg_frame_duration = pos 0;
  state = confirming;
  confirm_streak = 2;
  candidate_jump = pos 270000000;
  confirm_start_physical_stc = pos 0;
  need_resync = false;
  ingress = ingress;
  sched = sched;
}

abbrev pub shaper : Shaper
shaper = record {
  physical_stc = pos 27000;
  v_stc = pos 0;
  stc_base = pos 0;
  stc_offset = pos 0;
  dts_offset = pos 500;
  next_slot_stc = pos 0;
  last_refill_physical_stc = pos 0;
  pending_discontinuity = false;
  jump_occurred = false;
  all_pids = pid ∷ [];
  dts_epoch_invalid = false;
  mux_delay_27m = pos 27000000;
  in_drain = false;
  psi_consecutive_count = 0;
  last_pid = none;
  programs = (0 ∷ []) ∷ [];
}

voter_process_outcomes_example : Outcome shaper 0 pid (pos 270001000) true (pos 1000)
voter_process_outcomes_example = voter_process_outcomes shaper 0 pid (pos 270001000) true (pos 1000)

refill_tokens_flywheel-AllPaced_example : AllPaced (refill_tokens_flywheel shaper).all_pids
refill_tokens_flywheel-AllPaced_example =
    refill_tokens_flywheel-AllPaced shaper
      (record { roomy = omega arith; above = omega arith; below = omega arith }, tt)

add_tokens_lossless_example :
    ((add_tokens (pos 27000) pid).tokens_bits -ℤ pos 0) *ℤ pos clock_freq
      +ℤ (add_tokens (pos 27000) pid).token_remainder
    ≡ pos 27000 *ℤ effective_refill pid +ℤ pos 7
unfolding ◌+ℤ◌ ◌*ℤ◌ effective_refill
add_tokens_lossless_example = add_tokens_lossless (pos 27000) pid (grind arith) (grind arith)
