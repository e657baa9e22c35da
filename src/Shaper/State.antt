-- ===== src/Shaper/State.antt =====
-- src/libtsshaper/src/core/tss_internal.h: the state of the shaper, as far as the voter, the token
-- buckets, the ingress and the scheduler use it. Times and rates are `int64_t` values, which never overflow here: they are
-- integers. Flags of type `int` are Booleans.
use tsanalyzer.Base.{ℕ, ◌-◌, ◌^◌, List, Bool, Option}
use tsanalyzer.Base.Int.{ℤ, negsuc}
use tsanalyzer.Shaper.Fifo.{Fifo}

-- TSS_NOPTS_VALUE, the least int64_t
abbrev pub nopts : ℤ
nopts = negsuc (2 ^ 63 - 1)

-- tss_state_t
pub data TssState : Type 0 where
  normal soft_discontinuity confirming hard_discontinuity recovery wait_idr : TssState

-- tss_jump_level_t
pub data JumpLevel : Type 0 where
  jitter soft suspicious hard : JumpLevel

-- tss_pid_type_t
pub data PidType : Type 0 where
  video audio psi other_data pcr : PidType

-- tss_access_unit_t, without its size and its key flag, which no operation here reads
pub record AccessUnit : Type 0 where
  pub dts : ℤ

-- The fields of tss_pid_state_t that the ingress works on. `ts_fifo` is `none` for a null pointer;
-- the capacity and the counters are not negative.
pub record Ingress : Type 0 where
  pub ts_fifo : Option Fifo
  pub fifo_capacity : ℕ
  pub rx_bytes_total : ℕ
  pub fifo_accept_bytes : ℕ
  pub drop_bytes_total : ℕ
  pub cc_drop_count : ℕ
  pub needs_discontinuity : Bool
  pub is_current_au_key : Bool
  pub wait_idr_start_stc : ℤ
  pub tel_audio_shed_count : ℕ
  pub tel_watchdog_count : ℕ
  pub tel_psi_rotate_count : ℕ

-- The fields of tss_pid_state_t that the scheduler works on. The ring `au_events` is the sequence
-- of its access units, `none` for a null pointer.
pub record Sched : Type 0 where
  pub au_events : Option (List AccessUnit)
  pub tb_fullness_bits : ℤ
  pub tb_size_bits : ℤ
  pub continuous_fullness_bits : ℤ
  pub next_pacing_stc : ℤ
  pub pi_integral : ℤ
  pub is_panic_mode : Bool
  pub is_urgent : Bool
  pub telemetry_mode : ℕ
  pub burst_count : ℕ
  pub tel_avg_count : ℤ
  pub tel_sec_wait_data : ℕ
  pub tel_sec_wait_tok : ℕ
  pub tel_sec_slack_min_27m : ℤ

-- tss_pid_state_t, with the fields of its `analyzer` and the two groups above
pub record PidState : Type 0 where
  pub pid_type : PidType
  pub tokens_bits : ℤ
  pub bucket_size_bits : ℤ
  pub base_refill_rate_bps : ℤ
  pub effective_refill_rate_bps : ℤ
  pub token_remainder : ℤ
  pub pacing_tokens : ℤ
  pub bitrate_bps : ℤ
  pub tel_input_ema_bps : ℤ
  pub next_arrival_ts : ℤ
  pub last_update_ts : ℤ
  pub last_dts_raw : ℤ
  pub delta_ms : ℤ
  pub level : JumpLevel
  pub stream_offset : ℤ
  pub avg_frame_duration : ℤ
  pub state : TssState
  pub confirm_streak : ℕ
  pub candidate_jump : ℤ
  pub confirm_start_physical_stc : ℤ
  pub need_resync : Bool
  pub ingress : Ingress
  pub sched : Sched

-- struct tsshaper_ctx; `stc_base` is `stc.base`, and the length of `all_pids` is `nb_all_pids`. A
-- pointer to a PID is its index in `all_pids`, and a program is the list of its PIDs.
pub record Shaper : Type 0 where
  pub physical_stc : ℤ
  pub v_stc : ℤ
  pub stc_base : ℤ
  pub stc_offset : ℤ
  pub dts_offset : ℤ
  pub next_slot_stc : ℤ
  pub last_refill_physical_stc : ℤ
  pub pending_discontinuity : Bool
  pub jump_occurred : Bool
  pub all_pids : List PidState
  pub dts_epoch_invalid : Bool
  pub mux_delay_27m : ℤ
  pub in_drain : Bool
  pub psi_consecutive_count : ℕ
  pub last_pid : Option ℕ
  pub programs : List (List ℕ)
