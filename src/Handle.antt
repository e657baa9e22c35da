-- ===== src/Handle.antt =====
-- include/tsa_internal.h, include/tsa_alert.h, include/tsa_es_track.h, include/tsa_stream_model.h:
-- the state of one analyzer (`struct tsa_handle`), as far as the modelled functions read or write
-- it. An array indexed by PID is a function; an array with a count is a list of that length.
use tsanalyzer.Base.{
  ℕ, ◌<◌, List, Bool, ◌≡◌, refl, ◌==◌, if◌then◌else◌, arith, Option, sym, ap, ◌∙◌,
}

-- tsa_alert_id_t, in its order
pub data AlertId : Type 0 where
  sync pat pmt pid cc crc pcr transport pts tstd entropy sdt nit cc_missing : AlertId

unfoldable pub alert_index : AlertId → ℕ
alert_index sync = 0
alert_index pat = 1
alert_index pmt = 2
alert_index pid = 3
alert_index cc = 4
alert_index crc = 5
alert_index pcr = 6
alert_index transport = 7
alert_index pts = 8
alert_index tstd = 9
alert_index entropy = 10
alert_index sdt = 11
alert_index nit = 12
alert_index cc_missing = 13

-- tsa_alert_status_t
pub data AlertStatus : Type 0 where
  off firing : AlertStatus

-- tsa_alert_state_t
pub record AlertState : Type 0 where
  pub status : AlertStatus
  pub last_occurrence_ns : ℕ
  pub count_in_window : ℕ
  pub needs_resolve_msg : Bool

-- The text of an alert, before `snprintf` prints it.
pub data Message : Type 0 where
  no_message : Message
  critical : List ℕ → ℕ → Message
  resolved : List ℕ → Message
  summary : List ℕ → ℕ → List ℕ → ℕ → ℕ → Message

-- tsa_alert_aggregator_entry_t (its field `hash` is never used)
pub record AggregatorEntry : Type 0 where
  pub id : AlertId
  pub pid : ℕ
  pub hit_count : ℕ
  pub last_hit_ns : ℕ
  pub window_start_ns : ℕ
  pub stream_id : List ℕ
  pub alert_name : List ℕ
  pub message : Message
  pub active : Bool

-- tsa_alert_aggregator_t
pub record Aggregator : Type 0 where
  pub entries : ℕ → AggregatorEntry
  pub window_ms : ℕ

-- What the engine tells the outside: `tsa_webhook_push_event` and `tsa_lua_push_event`.
pub data Notice : Type 0 where
  webhook : List ℕ → List ℕ → Message → List ℕ → Notice
  lua : List ℕ → ℕ → Message → Notice

-- tsa_es_track_t
pub record EsTrack : Type 0 where
  pub stream_type : ℕ
  pub has_cea708 : Bool
  pub last_cc_seen_ns : ℕ
  pub last_pcr_ns : ℕ
  pub last_seen_vstc : ℕ
  pub last_cc : ℕ
  pub ignore_next_cc : Bool

-- tsa_stream_info_t
pub record StreamInfo : Type 0 where
  pub pid : ℕ
  pub stream_type : ℕ

-- tsa_program_info_t (`stream_count` is the length of `streams`)
pub record ProgramInfo : Type 0 where
  pub program_number : ℕ
  pub pmt_pid : ℕ
  pub last_pmt_ns : ℕ
  pub streams : List StreamInfo

-- ts_decode_result_t
pub record DecodeResult : Type 0 where
  pub pid : ℕ
  pub pusi : ℕ
  pub af_len : ℕ
  pub has_payload : Bool
  pub has_pcr : Bool
  pub payload_len : ℕ
  pub cc : ℕ
  pub scrambled : Bool
  pub has_discontinuity : Bool
  pub has_pes_header : Bool
  pub has_pts : Bool
  pub has_dts : Bool
  pub pts : ℕ
  pub dts : ℕ

-- The word for a PID in its label.
pub data PidKind : Type 0 where
  other_kind pat_kind pmt_kind video_kind audio_kind data_kind : PidKind

-- The text of a label, before `snprintf` prints it.
pub record PidLabel : Type 0 where
  pub stream_id : List ℕ
  pub pid : ℕ
  pub kind : PidKind

-- struct tsa_handle. `input_label` and `alert_filter_mask` are fields of its `config`;
-- `crc_error_count` is `live->crc_error.count`; `has_webhook` and `has_lua` say that the pointers
-- are set; the length of `pid_active_list` is `pid_tracker_count`; an index of -1 in
-- `pid_to_active_idx` is `none`. `notices` records what has been told, the oldest first.
pub record Handle : Type 0 where
  pub input_label : List ℕ
  pub alert_filter_mask : ℕ
  pub alerts : AlertId → AlertState
  pub aggregator : Aggregator
  pub signal_lock : Bool
  pub last_snap_wall_ns : ℕ
  pub stc_ns : ℕ
  pub last_packet_rx_ns : ℕ
  pub crc_error_count : ℕ
  pub pid_seen : ℕ → Bool
  pub pid_types : ℕ → ℕ
  pub pid_is_pmt : ℕ → Bool
  pub es_tracks : ℕ → EsTrack
  pub programs : List ProgramInfo
  pub seen_pat : Bool
  pub seen_pmt : Bool
  pub last_pat_ns : ℕ
  pub last_pmt_ns : ℕ
  pub last_sdt_ns : ℕ
  pub last_nit_ns : ℕ
  pub pid_active_list : List ℕ
  pub pid_to_active_idx : ℕ → Option ℕ
  pub pid_labels : ℕ → PidLabel
  pub has_webhook : Bool
  pub has_lua : Bool
  pub current_ns : ℕ
  pub current_res : DecodeResult
  pub notices : List Notice

-- `alerts[i] = v`
abbrev pub update_alert : (AlertId → AlertState) → AlertId → AlertState → AlertId → AlertState
update_alert f i v j = if alert_index i == alert_index j then v else f j

unfoldable pub alert_of_index : ℕ → AlertId
alert_of_index n =
    if n == 0
    then sync
    else if n == 1
    then pat
    else if n == 2
    then pmt
    else if n == 3
    then pid
    else if n == 4
    then cc
    else if n == 5
    then crc
    else if n == 6
    then pcr
    else if n == 7
    then transport
    else if n == 8
    then pts
    else if n == 9
    then tstd
    else if n == 10
    then entropy
    else if n == 11
    then sdt
    else if n == 12
    then nit
    else cc_missing

pub alert_of_index-alert_index : (i : AlertId) → alert_of_index (alert_index i) ≡ i
unfolding alert_of_index alert_index
alert_of_index-alert_index sync = refl
alert_of_index-alert_index _ = refl

-- Two alerts with one index are one alert.
pub alert_index_injective : (i j : AlertId) → alert_index i ≡ alert_index j → i ≡ j
alert_index_injective i j e =
    sym (alert_of_index-alert_index i) ∙ ap alert_of_index e ∙ alert_of_index-alert_index j

pub alert_index-alert_of_index : (n : ℕ) → n < 14 → alert_index (alert_of_index n) ≡ n
unfolding alert_index alert_of_index
alert_index-alert_of_index n h = ground arith

pub alert_index_lt : (i : AlertId) → alert_index i < 14
unfolding alert_index
alert_index_lt sync = omega arith
alert_index_lt _ = omega arith
