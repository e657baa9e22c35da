-- ===== src/Alert/Invariant.antt =====
-- src/tsa_alert.c: what every operation of the alert engine keeps.
use tsanalyzer.Base.{
  ℕ, ◌-◌, ◌≡◌, inl, inr, refl, List, Bool, true, false, not, ◌&&◌, arith, ltb, if◌then◌else◌,
  Bool-cases, sub64, codes,
}
use tsanalyzer.Base.Loops.{for_range, for_range_inv}
use tsanalyzer.Handle.{AlertId, sync, cc_missing, off, AlertState, Handle, alert_of_index}
use tsanalyzer.Alert.{aggregator_size, is_firing, alert_update, is_suppressed_by_tree}
use tsanalyzer.Alert.Check.{
  pid_max, pat_timeout_ns, cc_timeout_ns, is_video, alert_max, check_silence, check_table,
  check_tables, check_captions, close_window, resolve, check_timeouts, check_resolutions,
}
use tsanalyzer.Alert.Frame.{
  update_alert_each, raised, alerts-alert_update, expired, over, alerts-resolve,
  alerts-close_window,
}

-- An alert owes a resolve message exactly while it fires, and counts nothing once it is over.
abbrev pub IsConsistent : AlertState → Type 0
IsConsistent s =
    (s.needs_resolve_msg ≡ is_firing s.status)
    × ((if is_firing s.status then 0 else s.count_in_window) ≡ 0)

abbrev pub AllConsistent : Handle → Type 0
AllConsistent h = (i : AlertId) → IsConsistent (h.alerts i)

raised-IsConsistent : (s : AlertState) (now : ℕ) → IsConsistent s → IsConsistent (raised s now)
unfolding is_firing
raised-IsConsistent s now c = ground arith

over-IsConsistent : (s : AlertState) → IsConsistent (over s)
unfolding is_firing
over-IsConsistent s = (refl, refl)

pub alert_update-AllConsistent :
    (h : Handle) (id : AlertId) (has_error : Bool) (name : List ℕ) (pid : ℕ)
    → AllConsistent h
    → AllConsistent (alert_update h id has_error name pid)
alert_update-AllConsistent h id has_error name pid c =
    rw (alerts-alert_update h id has_error name pid)
      (elim (Bool-cases (has_error && not (is_suppressed_by_tree h id))) [
        | inl e ↦ rw e (
            update_alert_each IsConsistent h.alerts id (raised (h.alerts id) h.stc_ns)
              (raised-IsConsistent (h.alerts id) h.stc_ns (c id)) c)
        | inr e ↦ rw e c
      ])

-- Each block of `tsa_alert_check_resolutions` keeps the alerts consistent.
check_table-AllConsistent :
    (last limit : ℕ) (id : AlertId) (name : List ℕ) (h : Handle)
    → AllConsistent h
    → AllConsistent (check_table last limit id name h)
unfolding check_table
check_table-AllConsistent last limit id name h c =
    elim (Bool-cases (ltb 0 last && ltb limit (sub64 h.stc_ns last))) [
      | inl e ↦ rw e (alert_update-AllConsistent h id true name 0 c)
      | inr e ↦ rw e c
    ]

check_tables-AllConsistent : (h : Handle) → AllConsistent h → AllConsistent (check_tables h)
unfolding check_tables
check_tables-AllConsistent h c = check_table-AllConsistent _ _ _ _ _ (
    check_table-AllConsistent _ _ _ _ _
      (check_table-AllConsistent _ _ _ _ _ (check_table-AllConsistent _ _ _ _ h c)))

check_silence-AllConsistent : (h : Handle) → AllConsistent h → AllConsistent (check_silence h)
unfolding check_silence
check_silence-AllConsistent h c =
    elim (Bool-cases (
      h.signal_lock
      && ltb h.last_packet_rx_ns h.last_snap_wall_ns
      && ltb pat_timeout_ns (h.last_snap_wall_ns - h.last_packet_rx_ns))) [
        | inl e ↦ rw e (alert_update-AllConsistent h sync true (codes "SYNC") 0 c)
        | inr e ↦ rw e c
      ]

check_captions-AllConsistent :
    (i : ℕ) (h : Handle) → AllConsistent h → AllConsistent (check_captions i h)
unfolding check_captions
check_captions-AllConsistent i h c =
    let es = h.es_tracks i in
    elim (Bool-cases (h.pid_seen i && is_video es.stream_type && es.has_cea708)) [
      | inr e ↦ rw e c
      | inl e ↦
          rw e
            (elim (Bool-cases
              (ltb 0 es.last_cc_seen_ns && ltb cc_timeout_ns (sub64 h.stc_ns es.last_cc_seen_ns))) [
                | inl f ↦
                    rw f (alert_update-AllConsistent h cc_missing true (codes "CC_MISSING") i c)
                | inr f ↦ rw f (elim (Bool-cases (is_firing (h.alerts cc_missing).status)) [
                  | inl g ↦
                      rw g (alert_update-AllConsistent h cc_missing false (codes "CC_MISSING") i c)
                  | inr g ↦ rw g c
                ])
              ])
    ]

check_timeouts-AllConsistent : (h : Handle) → AllConsistent h → AllConsistent (check_timeouts h)
unfolding check_timeouts
check_timeouts-AllConsistent h c = elim (Bool-cases (h.signal_lock && ltb 0 h.stc_ns)) [
  | inl e ↦ rw e (
      for_range_inv AllConsistent check_captions check_captions-AllConsistent pid_max 0
        (check_tables h) (check_tables-AllConsistent h c))
  | inr e ↦ rw e c
]

resolve-AllConsistent : (id : AlertId) (h : Handle) → AllConsistent h → AllConsistent (resolve id h)
resolve-AllConsistent id h c = rw (alerts-resolve id h) (elim (Bool-cases (expired h id)) [
  | inl e ↦ rw e (
      update_alert_each IsConsistent h.alerts id (over (h.alerts id))
        (over-IsConsistent (h.alerts id)) c)
  | inr e ↦ rw e c
])

pub check_resolutions-AllConsistent :
    (h : Handle) → AllConsistent h → AllConsistent (check_resolutions h)
unfolding check_resolutions
check_resolutions-AllConsistent h c =
    for_range_inv AllConsistent (λ i. resolve (alert_of_index i))
      (λ i. resolve-AllConsistent (alert_of_index i)) alert_max 0
      (for_range aggregator_size 0 close_window (check_timeouts (check_silence h)))
      (for_range_inv AllConsistent close_window (λ i s p. rw (alerts-close_window i s) p)
        aggregator_size 0 (check_timeouts (check_silence h))
        (check_timeouts-AllConsistent (check_silence h) (check_silence-AllConsistent h c)))

-- What an analyzer does to its alerts: an update, a check, or anything that leaves them alone.
pub data Step : Handle → Handle → Type 0 where
  updated :
      (h : Handle) (id : AlertId) (has_error : Bool) (name : List ℕ) (pid : ℕ)
      → Step h (alert_update h id has_error name pid)
  checked : (h : Handle) → Step h (check_resolutions h)
  elsewhere : (h k : Handle) → k.alerts ≡ h.alerts → Step h k

pub data Reach (h : Handle) : Handle → Type 0 where
  here : Reach h h
  next : {k l : Handle} → Reach h k → Step k l → Reach h l

-- An alert as the zeroed handle has it.
abbrev pub quiet : AlertState
quiet = record {
  status = off;
  last_occurrence_ns = 0;
  count_in_window = 0;
  needs_resolve_msg = false;
}

Step-AllConsistent : {h k : Handle} → Step h k → AllConsistent h → AllConsistent k
Step-AllConsistent (updated h id has_error name pid) c =
    alert_update-AllConsistent h id has_error name pid c
Step-AllConsistent (checked h) c = check_resolutions-AllConsistent h c
Step-AllConsistent (elsewhere h k e) c = rw e c

-- From a handle whose alerts are all quiet, every alert that is reached owes a resolve message
-- exactly while it fires, and an alert that is off counts no occurrence.
pub Reach-AllConsistent :
    {h k : Handle}
    → ((i : AlertId) → h.alerts i ≡ quiet)
    → Reach h k
    → (i : AlertId)
    → ((k.alerts i).needs_resolve_msg ≡ is_firing (k.alerts i).status)
      × ((if is_firing (k.alerts i).status then 0 else (k.alerts i).count_in_window) ≡ 0)
unfolding is_firing
Reach-AllConsistent q here i = rw (q i) (refl, refl)
Reach-AllConsistent q (next r s) i = Step-AllConsistent s (Reach-AllConsistent q r) i
