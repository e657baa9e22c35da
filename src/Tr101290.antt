-- ===== src/Tr101290.antt =====
-- src/tsa_engine_tr101290.c: the TR 101 290 engine, which looks at every packet. Each numbered
-- block of `tr_on_ts` is a definition; `on_ts` runs them in order. The context of the plugin holds
-- only the handle.
pub mod Frame
pub mod Continuous
use tsanalyzer.Base.{ℕ, ◌+◌, ◌-◌, ◌%◌, ◌/◌, ◌^◌, List, [], ◌∷◌, Bool, true, false, not, ◌&&◌, ◌||◌}
use tsanalyzer.Base.{ltb, ◌==◌, if◌then◌else◌, sub64, update, get_or, codes}
use tsanalyzer.Handle.{
  AlertId, pat, pmt, cc, pcr, transport, pts, EsTrack, ProgramInfo, DecodeResult, Handle,
}
use tsanalyzer.Alert.{alert_update}
use tsanalyzer.Continuity.{CcStatus, ok, duplicate, loss, out_of_order, classify}

abbrev pub pat_timeout_ns : ℕ
pat_timeout_ns = 500000000

abbrev pub pmt_timeout_ns : ℕ
pmt_timeout_ns = 500000000

abbrev pub pcr_timeout_ns : ℕ
pcr_timeout_ns = 40000000

abbrev pub pts_timeout_ns : ℕ
pts_timeout_ns = 700000000

-- `x & (1 << k)` of a byte, as a condition
abbrev pub flag : ℕ → ℕ → Bool
flag x k = x / 2 ^ k % 2 == 1

-- `es_tracks[pid]` of the current packet
abbrev pub track : Handle → EsTrack
track h = h.es_tracks h.current_res.pid

abbrev pub set_track : Handle → EsTrack → Handle
set_track h es = record h { es_tracks = update h.es_tracks h.current_res.pid es }

-- 1. Transport error indicator.
unfoldable pub check_transport : List ℕ → Handle → Handle
check_transport pkt h =
    if flag (get_or pkt 1 0) 7
    then alert_update h transport true (codes "TRANSPORT") h.current_res.pid
    else h

unfoldable pub is_break : CcStatus → Bool
is_break loss = true
is_break out_of_order = true
is_break ok = false
is_break duplicate = false

-- The counter of the current packet breaks the sequence of its PID. 0x10 means that no packet of
-- the PID has been seen.
unfoldable pub breaks_sequence : List ℕ → Handle → Bool
breaks_sequence pkt h =
    let res = h.current_res in
    not ((track h).last_cc == 0x10)
    && not res.has_discontinuity
    && is_break (
        classify (track h).last_cc res.cc res.has_payload
          (flag (get_or pkt 3 0) 5 && not (flag (get_or pkt 3 0) 4)))
    && not (track h).ignore_next_cc

-- 2. Continuity counter.
unfoldable pub check_continuity : List ℕ → Handle → Handle
check_continuity pkt h =
    let res = h.current_res in
    let h' = if breaks_sequence pkt h then alert_update h cc true (codes "CC") res.pid else h in
    set_track h' (record (track h') { last_cc = res.cc; ignore_next_cc = false })

-- 3. PAT. An update without an error changes nothing.
unfoldable pub check_pat : Handle → Handle
check_pat h =
    if ltb pat_timeout_ns (sub64 h.current_ns h.last_pat_ns)
    then alert_update h pat true (codes "PAT_TIMEOUT") 0
    else alert_update h pat false (codes "PAT_OK") 0

-- 4. PMT, one round for each program.
unfoldable pub check_pmts : List ProgramInfo → Handle → Handle
check_pmts [] h = h
check_pmts (p ∷ ps) h = check_pmts ps (
    if p.pmt_pid == 0
    then h
    else if ltb pmt_timeout_ns (sub64 h.current_ns p.last_pmt_ns)
    then alert_update h pmt true (codes "PMT_TIMEOUT") p.pmt_pid
    else alert_update h pmt false (codes "PMT_OK") p.pmt_pid)

-- 5. PCR repetition.
unfoldable pub check_pcr : Handle → Handle
check_pcr h =
    let res = h.current_res in
    let last = (track h).last_pcr_ns in
    let h' =
      if ltb 0 last
      then (if ltb pcr_timeout_ns (sub64 h.current_ns last)
          then alert_update h pcr true (codes "PCR_REPETITION") res.pid
          else alert_update h pcr false (codes "PCR_OK") res.pid)
      else h in
    if res.has_pcr then set_track h' (record (track h') { last_pcr_ns = h.current_ns }) else h

-- 6. PTS.
unfoldable pub check_pts : Handle → Handle
check_pts h =
    let res = h.current_res in
    let last = (track h).last_seen_vstc in
    let h' =
      if ltb 0 last
      then (if ltb pts_timeout_ns (sub64 h.stc_ns last)
          then alert_update h pts true (codes "PTS_TIMEOUT") res.pid
          else alert_update h pts false (codes "PTS_OK") res.pid)
      else h in
    if res.has_pes_header then set_track h' (record (track h') { last_seen_vstc = h.stc_ns }) else h

-- tr_on_ts
unfoldable pub on_ts : List ℕ → Handle → Handle
on_ts pkt h =
    let h' = check_pat (check_continuity pkt (check_transport pkt h)) in
    check_pts (check_pcr (check_pmts h'.programs h'))

-- A packet as the caller hands it over: its time and what the decoder found in it.
abbrev pub Arrival : Type 0
Arrival = ℕ × DecodeResult × List ℕ

-- `current_ns` and `current_res` are set, and the engine runs.
unfoldable pub feed : Handle → Arrival → Handle
feed h (now, res, pkt) = on_ts pkt (record h { current_ns = now; current_res = res })

unfoldable pub feed_all : Handle → List Arrival → Handle
feed_all h [] = h
feed_all h (a ∷ as') = feed_all (feed h a) as'
