-- ===== src/Tr101290/Continuous.antt =====
-- src/tsa_engine_tr101290.c: how `tr_on_ts` judges the continuity of a PID.
use tsanalyzer.Base.{
  ℕ, ◌+◌, ◌%◌, ◌≤◌, ◌<◌, ◌≡◌, ◌⊎◌, refl, ap, ◌∙◌, List, [], ◌∷◌, true, false, not, ◌&&◌, arith,
  ◌==◌, if◌then◌else◌, get_or, update, codes,
}
use tsanalyzer.Handle.{sync, cc, alert_index, AlertState, Handle}
use tsanalyzer.Alert.{is_suppressed_by_tree, is_firing, explained_by_sync, explained_by_cc}
use tsanalyzer.Alert.Frame.{raised, alerts-alert_update}
use tsanalyzer.Continuity.{classify}
use tsanalyzer.Tr101290.{
  flag, track, check_transport, is_break, breaks_sequence, check_continuity, check_pat, check_pmts,
  check_pcr, check_pts, on_ts, Arrival, feed, feed_all,
}
use tsanalyzer.Tr101290.Frame.{
  scene-alert_update, SameContinuity, then_same, check_transport-same, check_pat-same,
  check_pmts-same, check_pcr-same, check_pts-same,
}

-- What the continuity check makes of the continuity alert.
abbrev pub judged : List ℕ → Handle → AlertState
judged pkt h =
    if breaks_sequence pkt h && not (is_firing (h.alerts sync).status)
    then raised (h.alerts cc) h.stc_ns
    else h.alerts cc

cc-check_continuity :
    (pkt : List ℕ) (h : Handle) → (check_continuity pkt h).alerts cc ≡ judged pkt h
unfolding check_continuity is_suppressed_by_tree explained_by_sync explained_by_cc alert_index
cc-check_continuity pkt h =
    ground (arith, alerts-alert_update h cc true (codes "CC") h.current_res.pid)

-- The counter and the flag of every PID after the continuity check.
tracks-check_continuity :
    (pkt : List ℕ) (h : Handle) (p : ℕ)
    → (((check_continuity pkt h).es_tracks p).last_cc
        ≡ (if h.current_res.pid == p then h.current_res.cc else (h.es_tracks p).last_cc))
      × (((check_continuity pkt h).es_tracks p).ignore_next_cc
          ≡ (if h.current_res.pid == p then false else (h.es_tracks p).ignore_next_cc))
unfolding check_continuity
tracks-check_continuity pkt h p =
    ground (arith, scene-alert_update h cc true (codes "CC") h.current_res.pid)

-- The check sees what was there before the transport error check.
judged_same : (pkt : List ℕ) {h k : Handle} → SameContinuity h k → judged pkt k ≡ judged pkt h
unfolding breaks_sequence
judged_same pkt {h} {k} s =
    ground (arith, s.counters h.current_res.pid, s.ignored h.current_res.pid)

-- All blocks behind the continuity check.
tail-same :
    (h : Handle)
    → SameContinuity h (check_pts (check_pcr (check_pmts (check_pat h).programs (check_pat h))))
tail-same h = then_same (check_pat-same h) (
    then_same (check_pmts-same (check_pat h).programs (check_pat h))
      (then_same (check_pcr-same _) (check_pts-same _)))

-- After a packet the continuity alert has been raised exactly if the packet breaks the sequence of
-- its PID and sync is not lost, and is as it was otherwise.
pub on_ts-judged : (pkt : List ℕ) (h : Handle) → (on_ts pkt h).alerts cc ≡ judged pkt h
unfolding on_ts
on_ts-judged pkt h =
    let a = check_transport pkt h in
    (tail-same (check_continuity pkt a)).cc_alert
    ∙ cc-check_continuity pkt a
    ∙ judged_same pkt (check_transport-same pkt h)

-- After a packet the engine remembers its counter for its PID, and no other counter has changed.
pub on_ts-last_cc :
    (pkt : List ℕ) (h : Handle) (p : ℕ)
    → (((on_ts pkt h).es_tracks p).last_cc
        ≡ (if h.current_res.pid == p then h.current_res.cc else (h.es_tracks p).last_cc))
      × (((on_ts pkt h).es_tracks p).ignore_next_cc
          ≡ (if h.current_res.pid == p then false else (h.es_tracks p).ignore_next_cc))
unfolding on_ts
on_ts-last_cc pkt h p =
    let a = check_transport pkt h in
    let before = check_transport-same pkt h in
    let after = tail-same (check_continuity pkt a) in
    ground (
      arith,
      after.counters p,
      after.ignored p,
      tracks-check_continuity pkt a p,
      before.result,
      before.counters p,
      before.ignored p,
    )

-- Counters that move as a transmitter moves them: the first packet of a PID has any counter (16
-- stands for a PID not seen), and a later one repeats the counter or goes one step on, modulo 16.
abbrev pub InOrder : (ℕ → ℕ) → List Arrival → Type 0
InOrder counter [] = Unit {0}
InOrder counter ((now, res, pkt) ∷ rest) =
    ((counter res.pid ≡ 16) ⊎ (res.cc ≡ counter res.pid) ⊎ (res.cc ≡ (counter res.pid + 1) % 16))
    × InOrder (update counter res.pid res.cc) rest

in_order_step :
    (pkt : List ℕ) (h : Handle) (c : ℕ)
    → (track h).last_cc ≡ c
    → (c ≡ 16) ⊎ (h.current_res.cc ≡ c) ⊎ (h.current_res.cc ≡ (c + 1) % 16)
    → breaks_sequence pkt h ≡ false
unfolding breaks_sequence classify is_break
in_order_step pkt h c e o = ground arith

-- Packets of any PIDs, each with its counters in order from the ones that the engine remembers,
-- never change the continuity alert.
pub InOrder-quiet :
    (arrivals : List Arrival) (h : Handle) (counter : ℕ → ℕ)
    → ((p : ℕ) → (h.es_tracks p).last_cc ≡ counter p)
    → InOrder counter arrivals
    → (feed_all h arrivals).alerts cc ≡ h.alerts cc
unfolding feed_all feed
InOrder-quiet [] h counter seen o = refl
InOrder-quiet ((now, res, pkt) ∷ rest) h counter seen o =
    let h' : Handle = record h { current_ns = now; current_res = res } in
    let calm : breaks_sequence pkt h' ≡ false =
      in_order_step pkt h' (counter res.pid) (seen res.pid) o.0 in
    InOrder-quiet rest (on_ts pkt h') (update counter res.pid res.cc)
      (λ p. (on_ts-last_cc pkt h' p).0 ∙ ap (λ k. if res.pid == p then res.cc else k) (seen p)) o.1
    ∙ on_ts-judged pkt h'
    ∙ rw calm refl

gap_breaks :
    (pkt : List ℕ) (h : Handle) (delta : ℕ)
    → (track h).last_cc < 16
    → 2 ≤ delta
    → delta < 16
    → h.current_res.cc ≡ ((track h).last_cc + delta) % 16
    → h.current_res.has_payload ≡ true
    → flag (get_or pkt 3 0) 4 ≡ true
    → h.current_res.has_discontinuity ≡ false
    → (track h).ignore_next_cc ≡ false
    → breaks_sequence pkt h ≡ true
unfolding breaks_sequence is_break classify
gap_breaks pkt h delta bound two most moved payload body d i = ground arith

-- A payload packet whose counter has moved by 2 to 15 steps since the last packet of its PID, with
-- no discontinuity signalled and no resynchronisation pending, makes the continuity alert fire and
-- counts one occurrence at the current clock, unless sync is lost.
pub gap_fires :
    (pkt : List ℕ) (h : Handle) (delta : ℕ)
    → (track h).last_cc < 16
    → 2 ≤ delta
    → delta < 16
    → h.current_res.cc ≡ ((track h).last_cc + delta) % 16
    → h.current_res.has_payload ≡ true
    → flag (get_or pkt 3 0) 4 ≡ true
    → h.current_res.has_discontinuity ≡ false
    → (track h).ignore_next_cc ≡ false
    → is_firing (h.alerts sync).status ≡ false
    → (on_ts pkt h).alerts cc ≡ raised (h.alerts cc) h.stc_ns
gap_fires pkt h delta bound two most moved payload body d i s =
    on_ts-judged pkt h ∙ rw (gap_breaks pkt h delta bound two most moved payload body d i, s) refl
