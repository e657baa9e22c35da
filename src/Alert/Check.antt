-- ===== src/Alert/Check.antt =====
-- src/tsa_alert.c, `tsa_alert_check_resolutions`: time-outs, the end of aggregation windows, and
-- the end of alerts. Each block of the function is a definition, and they run in its order.
use tsanalyzer.Base.{ℕ, ◌-◌, List, Bool, true, false, ◌&&◌, ◌||◌}
use tsanalyzer.Base.{ltb, leb, ◌==◌, if◌then◌else◌, sub64, codes}
use tsanalyzer.Base.Loops.{for_range}
use tsanalyzer.Handle.{
  AlertId, sync, pat, pmt, sdt, nit, cc_missing, off, resolved, summary, webhook, lua, Handle,
  alert_of_index,
}
use tsanalyzer.Alert.{
  aggregator_size, window_ns, get_name, set_entry, is_firing, webhook_wants, tell, set_alert,
  alert_update,
}

abbrev pub pat_timeout_ns : ℕ
pat_timeout_ns = 500000000

abbrev pub pmt_timeout_ns : ℕ
pmt_timeout_ns = 500000000

abbrev pub sdt_timeout_ns : ℕ
sdt_timeout_ns = 2000000000

abbrev pub nit_timeout_ns : ℕ
nit_timeout_ns = 10000000000

abbrev pub pid_timeout_ns : ℕ
pid_timeout_ns = 5000000000

abbrev pub cc_timeout_ns : ℕ
cc_timeout_ns = 10000000000

abbrev pub pid_max : ℕ
pid_max = 8192

abbrev pub alert_max : ℕ
alert_max = 14

-- tsa_is_video
unfoldable pub is_video : ℕ → Bool
is_video type = type == 0x1b || type == 0x24 || type == 0x02

-- No packet for 500 ms of wall time forces a loss of sync.
unfoldable pub check_silence : Handle → Handle
check_silence h =
    if h.signal_lock
      && ltb h.last_packet_rx_ns h.last_snap_wall_ns
      && ltb pat_timeout_ns (h.last_snap_wall_ns - h.last_packet_rx_ns)
    then alert_update h sync true (codes "SYNC") 0
    else h

-- A table that was seen, and not again for longer than `limit`.
unfoldable pub check_table : ℕ → ℕ → AlertId → List ℕ → Handle → Handle
check_table last limit id name h =
    if ltb 0 last && ltb limit (sub64 h.stc_ns last) then alert_update h id true name 0 else h

unfoldable pub check_tables : Handle → Handle
check_tables h = check_table h.last_nit_ns nit_timeout_ns nit (codes "NIT") (
    check_table h.last_sdt_ns sdt_timeout_ns sdt (codes "SDT") (
      check_table h.last_pmt_ns pmt_timeout_ns pmt (codes "PMT")
        (check_table h.last_pat_ns pat_timeout_ns pat (codes "PAT") h)))

-- One round of the closed-caption loop. An update without an error changes nothing.
unfoldable pub check_captions : ℕ → Handle → Handle
check_captions i h =
    let es = h.es_tracks i in
    if h.pid_seen i && is_video es.stream_type && es.has_cea708
    then (if ltb 0 es.last_cc_seen_ns && ltb cc_timeout_ns (sub64 h.stc_ns es.last_cc_seen_ns)
        then alert_update h cc_missing true (codes "CC_MISSING") i
        else if is_firing (h.alerts cc_missing).status
        then alert_update h cc_missing false (codes "CC_MISSING") i
        else h)
    else h

-- One round of the aggregator loop: a window that is over is closed, and summarised if it held
-- back an alert.
unfoldable pub close_window : ℕ → Handle → Handle
close_window i h =
    let entry = h.aggregator.entries i in
    let text =
      summary entry.stream_id entry.hit_count entry.alert_name entry.pid h.aggregator.window_ms in
    let told =
      tell (ltb 1 entry.hit_count && webhook_wants h entry.id)
        (webhook entry.stream_id entry.alert_name text (codes "SUMMARY")) h in
    if entry.active && leb (window_ns h) (sub64 h.stc_ns entry.window_start_ns)
    then set_entry told i (record entry { active = false })
    else h

-- One round of the last loop: an alert that has not occurred for 5 s is over.
unfoldable pub resolve : AlertId → Handle → Handle
resolve id h =
    let s = h.alerts id in
    let name = get_name id in
    let over =
      set_alert h id (record s { status = off; needs_resolve_msg = false; count_in_window = 0 }) in
    if is_firing s.status && ltb pid_timeout_ns (sub64 h.stc_ns s.last_occurrence_ns)
    then tell h.has_lua (lua name 0 (resolved name)) (
        tell (s.needs_resolve_msg && webhook_wants h id)
          (webhook h.input_label name (resolved name) (codes "OK")) over)
    else h

-- The time-outs that need a clock.
unfoldable pub check_timeouts : Handle → Handle
check_timeouts h =
    if h.signal_lock && ltb 0 h.stc_ns
    then for_range pid_max 0 check_captions (check_tables h)
    else h

-- tsa_alert_check_resolutions
unfoldable pub check_resolutions : Handle → Handle
check_resolutions h =
    for_range alert_max 0 (λ i. resolve (alert_of_index i))
      (for_range aggregator_size 0 close_window (check_timeouts (check_silence h)))
