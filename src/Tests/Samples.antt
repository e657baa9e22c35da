-- ===== src/Tests/Samples.antt =====
-- An analyzer at rest, for the tests.
use tsanalyzer.Base.{ℕ, [], ◌∷◌, true, false, none}
use tsanalyzer.Handle.{
  sync, AlertState, off, no_message, AggregatorEntry, DecodeResult, EsTrack, Handle, other_kind,
}

abbrev pub off_alert : AlertState
off_alert = record {
  status = off;
  last_occurrence_ns = 0;
  count_in_window = 0;
  needs_resolve_msg = false;
}

abbrev pub free_entry : AggregatorEntry
free_entry = record {
  id = sync;
  pid = 0;
  hit_count = 0;
  last_hit_ns = 0;
  window_start_ns = 0;
  stream_id = [];
  alert_name = [];
  message = no_message;
  active = false;
}

abbrev pub packet_on : ℕ → ℕ → DecodeResult
packet_on pid cc = record {
  pid = pid;
  pusi = 0;
  af_len = 0;
  has_payload = true;
  has_pcr = false;
  payload_len = 184;
  cc = cc;
  scrambled = false;
  has_discontinuity = false;
  has_pes_header = false;
  has_pts = false;
  has_dts = false;
  pts = 0;
  dts = 0;
}

abbrev pub track_at : ℕ → EsTrack
track_at last_cc = record {
  stream_type = 0;
  has_cea708 = false;
  last_cc_seen_ns = 0;
  last_pcr_ns = 0;
  last_seen_vstc = 0;
  last_cc = last_cc;
  ignore_next_cc = false;
}

abbrev pub idle : Handle
idle = record {
  input_label = 99 ∷ [];
  alert_filter_mask = 0;
  alerts = λ i. off_alert;
  aggregator = record { entries = λ i. free_entry; window_ms = 5000 };
  signal_lock = true;
  last_snap_wall_ns = 0;
  stc_ns = 1000;
  last_packet_rx_ns = 0;
  crc_error_count = 0;
  pid_seen = λ p. false;
  pid_types = λ p. 0;
  pid_is_pmt = λ p. false;
  es_tracks = λ p. track_at 16;
  programs = [];
  seen_pat = false;
  seen_pmt = false;
  last_pat_ns = 0;
  last_pmt_ns = 0;
  last_sdt_ns = 0;
  last_nit_ns = 0;
  pid_active_list = [];
  pid_to_active_idx = λ p. none;
  pid_labels = λ p. record { stream_id = []; pid = 0; kind = other_kind };
  has_webhook = true;
  has_lua = false;
  current_ns = 1000;
  current_res = packet_on 256 0;
  notices = [];
}
