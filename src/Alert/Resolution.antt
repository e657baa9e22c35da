-- ===== src/Alert/Resolution.antt =====
-- src/tsa_alert.c, `tsa_alert_check_resolutions`: what its last two loops make of every alert and
-- of every aggregation window.
use tsanalyzer.Base.{
  ℕ, ◌*◌, ◌<◌, ◌≡◌, refl, ◌∙◌, false, ◌&&◌, arith, ltb, ◌==◌, if◌then◌else◌, sub64, u64,
}
use tsanalyzer.Base.Loops.{for_range, for_range_inv, for_range_view}
use tsanalyzer.Handle.{
  AlertId, AlertState, Handle, alert_index, alert_of_index, alert_of_index-alert_index,
  alert_index-alert_of_index, alert_index_lt, AggregatorEntry,
}
use tsanalyzer.Alert.{aggregator_size, window_ns, is_firing}
use tsanalyzer.Alert.Check.{
  pid_timeout_ns, alert_max, check_silence, close_window, resolve, check_timeouts,
  check_resolutions,
}
use tsanalyzer.Alert.Frame.{
  over, lapsed, alerts-resolve, alerts-close_window, stc_ns-resolve, stc_ns-close_window,
  aggregator-resolve, aggregator-close_window,
}

-- An alert after the check, at clock `now`.
abbrev pub settle : ℕ → AlertState → AlertState
settle now s =
    if is_firing s.status && ltb pid_timeout_ns (sub64 now s.last_occurrence_ns) then over s else s

-- An aggregator entry after the check.
abbrev pub close : ℕ → ℕ → AggregatorEntry → AggregatorEntry
close length_ns now entry =
    if lapsed length_ns now entry then record entry { active = false } else entry

abbrev alert_view : ℕ → Handle → AlertState × ℕ
alert_view j h = (h.alerts (alert_of_index j), h.stc_ns)

abbrev entry_view : ℕ → Handle → AggregatorEntry × ℕ × ℕ
entry_view j h = (h.aggregator.entries j, h.aggregator.window_ms, h.stc_ns)

-- What round `i` of the last loop does to the `j`-th alert.
resolve_round :
    (i j : ℕ) (h : Handle)
    → i < alert_max
    → j < alert_max
    → ◌≡◌ {A = AlertState × ℕ}
        (
          (resolve (alert_of_index i) h).alerts (alert_of_index j),
          (resolve (alert_of_index i) h).stc_ns,
        )
        (if i == j
          then (settle h.stc_ns (h.alerts (alert_of_index j)), h.stc_ns)
          else (h.alerts (alert_of_index j), h.stc_ns))
resolve_round i j h hi hj =
    let a = alert_of_index i in
    ground (
      arith,
      alerts-resolve a h,
      stc_ns-resolve a h,
      alert_index-alert_of_index i hi,
      alert_index-alert_of_index j hj,
    )

-- What round `i` of the aggregator loop does to the `j`-th entry.
close_round :
    (i j : ℕ) (h : Handle)
    → ◌≡◌ {A = AggregatorEntry × ℕ × ℕ}
        (
          (close_window i h).aggregator.entries j,
          (close_window i h).aggregator.window_ms,
          (close_window i h).stc_ns,
        )
        (if i == j
          then (
            close (window_ns h) h.stc_ns (h.aggregator.entries j),
            h.aggregator.window_ms,
            h.stc_ns,
          )
          else (h.aggregator.entries j, h.aggregator.window_ms, h.stc_ns))
close_round i j h = ground (arith, aggregator-close_window i h, stc_ns-close_window i h)

-- The handle when the loops over windows and alerts begin.
abbrev pub before_loops : Handle → Handle
before_loops h = check_timeouts (check_silence h)

-- The handle between the two loops.
abbrev between_loops : Handle → Handle
between_loops h = for_range aggregator_size 0 close_window (before_loops h)

alerts-between_loops :
    (h : Handle)
    → ((between_loops h).alerts ≡ (before_loops h).alerts)
      × ((between_loops h).stc_ns ≡ (before_loops h).stc_ns)
alerts-between_loops h =
    for_range_inv (λ k. (k.alerts ≡ (before_loops h).alerts) × (k.stc_ns ≡ (before_loops h).stc_ns))
      close_window (λ i k p. (alerts-close_window i k ∙ p.0, stc_ns-close_window i k ∙ p.1))
      aggregator_size 0 (before_loops h) (refl, refl)

-- After the check every alert is what it was after the time-outs, but for those that had not
-- occurred for more than 5 s, which are off, with nothing counted and no message owed.
pub check_resolutions-settle :
    (h : Handle) (id : AlertId)
    → (check_resolutions h).alerts id ≡ settle (before_loops h).stc_ns ((before_loops h).alerts id)
unfolding check_resolutions
check_resolutions-settle h id =
    let m = between_loops h in
    let loop =
      for_range_view alert_view (λ j v. (settle v.1 v.0, v.1)) (λ i. resolve (alert_of_index i))
        alert_max resolve_round alert_max 0 m (alert_index id) (omega arith) (alert_index_lt id) in
    ground (arith, loop, alert_of_index-alert_index id, alert_index_lt id, alerts-between_loops h)

-- After the check every aggregation window is what it was after the time-outs, but for those that
-- are over, which are not active any more.
pub check_resolutions-close :
    (h : Handle) (i : ℕ)
    → i < aggregator_size
    → (check_resolutions h).aggregator.entries i
      ≡ close
          (window_ns (before_loops h))
          (before_loops h).stc_ns
          ((before_loops h).aggregator.entries i)
unfolding check_resolutions
check_resolutions-close h i hi =
    let b = before_loops h in
    let loop =
      for_range_view entry_view (λ j v. (close (u64 (v.1 * 1000000)) v.2 v.0, v.1, v.2))
        close_window aggregator_size (λ k j s p q. close_round k j s) aggregator_size 0 b i
        (omega arith) hi in
    let later : (check_resolutions h).aggregator ≡ (between_loops h).aggregator =
      for_range_inv (λ k. k.aggregator ≡ (between_loops h).aggregator)
        (λ k. resolve (alert_of_index k)) (λ k t p. aggregator-resolve (alert_of_index k) t ∙ p)
        alert_max 0 (between_loops h) refl in
    ground (arith, loop, later)
