-- ===== src/Tr101290/Frame.antt =====
-- src/tsa_engine_tr101290.c: what the blocks of `tr_on_ts` leave alone.
use tsanalyzer.Base.{
  ℕ, ◌≡◌, ◌≢◌, refl, ap, ◌∙◌, List, [], ◌∷◌, Bool, true, false, arith, ltb, ◌==◌, if◌then◌else◌,
  sub64, codes, get_or, if_each,
}
use tsanalyzer.Handle.{
  AlertId, sync, pat, pmt, cc, pcr, transport, pts, Handle, EsTrack, ProgramInfo, DecodeResult,
}
use tsanalyzer.Alert.{
  alert_update, raise, announce, should_suppress, tell, in_window, is_firing, is_suppressed_by_tree,
  webhook_wants,
}
use tsanalyzer.Handle.{Notice, Message, critical, lua, webhook}
use tsanalyzer.Alert.Frame.{raised, alerts-alert_update, update_alert_ne}
use tsanalyzer.Tr101290.{
  flag, pat_timeout_ns, pmt_timeout_ns, pcr_timeout_ns, pts_timeout_ns, track, set_track,
  check_transport, check_pat, check_pmts, check_pcr, check_pts,
}

-- The fields that the alert engine only reads.
pub record Scene : Type 0 where
  pub stc_ns : ℕ
  pub es_tracks : ℕ → EsTrack
  pub programs : List ProgramInfo
  pub last_pat_ns : ℕ
  pub current_ns : ℕ
  pub current_res : DecodeResult

abbrev pub scene : Handle → Scene
scene h = record {
  stc_ns = h.stc_ns;
  es_tracks = h.es_tracks;
  programs = h.programs;
  last_pat_ns = h.last_pat_ns;
  current_ns = h.current_ns;
  current_res = h.current_res;
}

scene-tell : (wanted : Bool) (notice : Notice) (h : Handle) → scene (tell wanted notice h) ≡ scene h
scene-tell true notice h = refl
scene-tell false notice h = refl

scene-should_suppress :
    (h : Handle) (id : AlertId) (pid : ℕ) (name : List ℕ) (m : Message)
    → scene (should_suppress h id pid name m).1 ≡ scene h
unfolding should_suppress
scene-should_suppress h id pid name m =
    if_each (λ (r : Bool × Handle). scene r.1 ≡ scene h) (h.aggregator.window_ms == 0) _ _ refl
      (if_each (λ (r : Bool × Handle). scene r.1 ≡ scene h) (in_window h id pid) _ _ refl refl)

scene-announce :
    (h : Handle) (id : AlertId) (pid : ℕ) (name : List ℕ) → scene (announce h id pid name) ≡ scene h
unfolding announce
scene-announce h id pid name =
    let m = critical name pid in
    let r = should_suppress h id pid name m in
    let kept = scene-should_suppress h id pid name m in
    if_each (λ (k : Handle). scene k ≡ scene h) r.0 _ _ kept
      (scene-tell r.1.has_lua (lua name pid m) _
        ∙ scene-tell (webhook_wants r.1 id) (webhook r.1.input_label name m (codes "CRITICAL")) r.1
        ∙ kept)

scene-raise :
    (h : Handle) (id : AlertId) (name : List ℕ) (pid : ℕ) → scene (raise h id name pid) ≡ scene h
unfolding raise
scene-raise h id name pid =
    if_each (λ (k : Handle). scene k ≡ scene h) (is_firing (h.alerts id).status) _ _ refl
      (scene-announce _ id pid name)

-- An update of an alert changes nothing that it only reads.
pub scene-alert_update :
    (h : Handle) (id : AlertId) (has_error : Bool) (name : List ℕ) (pid : ℕ)
    → scene (alert_update h id has_error name pid) ≡ scene h
unfolding alert_update
scene-alert_update h id has_error name pid =
    if_each (λ (k : Handle). scene k ≡ scene h) has_error _ _
      (if_each (λ (k : Handle). scene k ≡ scene h) (is_suppressed_by_tree h id) _ _ refl
        (scene-raise h id name pid))
      refl

-- Handle `k` differs from `h` in nothing that the continuity check looks at.
pub record SameContinuity (h k : Handle) : Type 0 where
  pub cc_alert : k.alerts cc ≡ h.alerts cc
  pub sync_alert : k.alerts sync ≡ h.alerts sync
  pub clock : k.stc_ns ≡ h.stc_ns
  pub result : k.current_res ≡ h.current_res
  pub counters : (p : ℕ) → (k.es_tracks p).last_cc ≡ (h.es_tracks p).last_cc
  pub ignored : (p : ℕ) → (k.es_tracks p).ignore_next_cc ≡ (h.es_tracks p).ignore_next_cc

pub same : (h : Handle) → SameContinuity h h
same h = record {
  cc_alert = refl;
  sync_alert = refl;
  clock = refl;
  result = refl;
  counters = λ p. refl;
  ignored = λ p. refl;
}

pub then_same : {h k l : Handle} → SameContinuity h k → SameContinuity k l → SameContinuity h l
then_same s t = record {
  cc_alert = t.cc_alert ∙ s.cc_alert;
  sync_alert = t.sync_alert ∙ s.sync_alert;
  clock = t.clock ∙ s.clock;
  result = t.result ∙ s.result;
  counters = λ p. t.counters p ∙ s.counters p;
  ignored = λ p. t.ignored p ∙ s.ignored p;
}

-- An update touches no alert but its own.
pub other_alert :
    (h : Handle) (id j : AlertId) (has_error : Bool) (name : List ℕ) (pid : ℕ)
    → id ≢ j
    → (alert_update h id has_error name pid).alerts j ≡ h.alerts j
other_alert h id j has_error name pid ne = ground (
  arith,
  alerts-alert_update h id has_error name pid,
  update_alert_ne h.alerts id j (raised (h.alerts id) h.stc_ns) ne,
)

pub alert_update-same :
    (h : Handle) (id : AlertId) (has_error : Bool) (name : List ℕ) (pid : ℕ)
    → id ≢ cc
    → id ≢ sync
    → SameContinuity h (alert_update h id has_error name pid)
alert_update-same h id has_error name pid n m =
    let s = scene-alert_update h id has_error name pid in
    record {
      cc_alert = other_alert h id cc has_error name pid n;
      sync_alert = other_alert h id sync has_error name pid m;
      clock = ap (λ (x : Scene). x.stc_ns) s;
      result = ap (λ (x : Scene). x.current_res) s;
      counters = λ p. ap (λ (x : Scene). (x.es_tracks p).last_cc) s;
      ignored = λ p. ap (λ (x : Scene). (x.es_tracks p).ignore_next_cc) s;
    }

-- A write to the current track that keeps its counter and its flag.
set_track-same :
    (h : Handle) (es : EsTrack)
    → es.last_cc ≡ (track h).last_cc
    → es.ignore_next_cc ≡ (track h).ignore_next_cc
    → SameContinuity h (set_track h es)
set_track-same h es c i = record {
  cc_alert = refl;
  sync_alert = refl;
  clock = refl;
  result = refl;
  counters = λ p. ground arith;
  ignored = λ p. ground arith;
}

if_same :
    {h k l : Handle} (b : Bool)
    → SameContinuity h k
    → SameContinuity h l
    → SameContinuity h (if b then k else l)
if_same true s t = s
if_same false s t = t

pub check_transport-same : (pkt : List ℕ) (h : Handle) → SameContinuity h (check_transport pkt h)
unfolding check_transport
check_transport-same pkt h =
    if_same (flag (get_or pkt 1 0) 7)
      (alert_update-same h transport true (codes "TRANSPORT") h.current_res.pid (ground arith)
        (ground arith))
      (same h)

pub check_pat-same : (h : Handle) → SameContinuity h (check_pat h)
unfolding check_pat
check_pat-same h =
    if_same (ltb pat_timeout_ns (sub64 h.current_ns h.last_pat_ns))
      (alert_update-same h pat true (codes "PAT_TIMEOUT") 0 (ground arith) (ground arith))
      (alert_update-same h pat false (codes "PAT_OK") 0 (ground arith) (ground arith))

-- The update of a table or repetition check.
either-same :
    (h : Handle) (id : AlertId) (late : Bool) (bad good : List ℕ) (pid : ℕ)
    → id ≢ cc
    → id ≢ sync
    → SameContinuity h
        (if late then alert_update h id true bad pid else alert_update h id false good pid)
either-same h id late bad good pid n m =
    if_same late (alert_update-same h id true bad pid n m)
      (alert_update-same h id false good pid n m)

pub check_pmts-same : (ps : List ProgramInfo) (h : Handle) → SameContinuity h (check_pmts ps h)
unfolding check_pmts
check_pmts-same [] h = same h
check_pmts-same (p ∷ ps) h =
    then_same
      (if_same (p.pmt_pid == 0) (same h) (
        either-same h pmt (ltb pmt_timeout_ns (sub64 h.current_ns p.last_pmt_ns))
          (codes "PMT_TIMEOUT") (codes "PMT_OK") p.pmt_pid (ground arith) (ground arith)))
      (check_pmts-same ps _)

pub check_pcr-same : (h : Handle) → SameContinuity h (check_pcr h)
unfolding check_pcr
check_pcr-same h =
    let last = (track h).last_pcr_ns in
    let late = ltb pcr_timeout_ns (sub64 h.current_ns last) in
    let h' =
      if ltb 0 last
      then (if late
          then alert_update h pcr true (codes "PCR_REPETITION") h.current_res.pid
          else alert_update h pcr false (codes "PCR_OK") h.current_res.pid)
      else h in
    if_same h.current_res.has_pcr
      (then_same
        (if_same (ltb 0 last)
          (either-same h pcr late (codes "PCR_REPETITION") (codes "PCR_OK") h.current_res.pid
            (ground arith) (ground arith))
          (same h))
        (set_track-same h' (record (track h') { last_pcr_ns = h.current_ns }) refl refl))
      (same h)

pub check_pts-same : (h : Handle) → SameContinuity h (check_pts h)
unfolding check_pts
check_pts-same h =
    let last = (track h).last_seen_vstc in
    let late = ltb pts_timeout_ns (sub64 h.stc_ns last) in
    let h' =
      if ltb 0 last
      then (if late
          then alert_update h pts true (codes "PTS_TIMEOUT") h.current_res.pid
          else alert_update h pts false (codes "PTS_OK") h.current_res.pid)
      else h in
    if_same h.current_res.has_pes_header
      (then_same
        (if_same (ltb 0 last)
          (either-same h pts late (codes "PTS_TIMEOUT") (codes "PTS_OK") h.current_res.pid
            (ground arith) (ground arith))
          (same h))
        (set_track-same h' (record (track h') { last_seen_vstc = h.stc_ns }) refl refl))
      (same h)
