-- ===== src/Tests/Analysis.antt =====
-- Examples of the alert engine and of the TR 101 290 engine.
use tsanalyzer.Base.{ℕ, ◌≡◌, inl, inr, refl, List, [], ◌∷◌, true, arith, if◌then◌else◌, codes}
use tsanalyzer.Handle.{cc, Handle}
use tsanalyzer.Alert.{alert_update, is_firing, raise, in_window}
use tsanalyzer.Alert.Check.{check_resolutions}
use tsanalyzer.Alert.Frame.{raised}
use tsanalyzer.Alert.Invariant.{here, next, updated, checked, Reach-AllConsistent}
use tsanalyzer.Alert.Resolution.{settle, before_loops, check_resolutions-settle}
use tsanalyzer.Alert.Window.Flapping.{Later, opened, again, unrelated, window_tells_once}
use tsanalyzer.Tr101290.{on_ts, feed_all, Arrival}
use tsanalyzer.Tr101290.Continuous.{InOrder-quiet, gap_fires}
use tsanalyzer.Tests.Samples.{idle, track_at, packet_on}

abbrev alarmed : Handle
alarmed = alert_update idle cc true (codes "CC") 256

Reach-AllConsistent_example :
    (((check_resolutions alarmed).alerts cc).needs_resolve_msg
      ≡ is_firing ((check_resolutions alarmed).alerts cc).status)
    × ((if is_firing ((check_resolutions alarmed).alerts cc).status
          then 0
          else ((check_resolutions alarmed).alerts cc).count_in_window)
        ≡ 0)
Reach-AllConsistent_example =
    Reach-AllConsistent {h = idle} (λ i. refl)
      (next (next here (updated idle cc true (codes "CC") 256)) (checked alarmed)) cc

check_resolutions-settle_example :
    (check_resolutions alarmed).alerts cc
    ≡ settle (before_loops alarmed).stc_ns ((before_loops alarmed).alerts cc)
check_resolutions-settle_example = check_resolutions-settle alarmed cc

-- The alert has opened a window and is off again at 1500; then it is told a second time, and is off
-- at 2000.
abbrev again_off : Handle
again_off = record idle { aggregator = (raise idle cc (codes "CC") 256).aggregator; stc_ns = 1500 }

abbrev told : Handle
told = record idle {
  aggregator = (alert_update again_off cc true (codes "CC") 256).aggregator;
  stc_ns = 2000;
}

told-Later : Later idle cc 256 told
told-Later =
    unrelated (alert_update again_off cc true (codes "CC") 256) told
      (again again_off true (codes "CC")
        (unrelated (raise idle cc (codes "CC") 256) again_off (opened (codes "CC")) refl)
        (omega arith))
      refl

window_tells_once_example : (alert_update told cc true (codes "CC") 256).notices ≡ told.notices
unfolding is_firing in_window
window_tells_once_example =
    window_tells_once idle told cc (codes "CC") 256 refl (omega arith) refl told-Later (omega arith)

abbrev payload : List ℕ
payload = 0x47 ∷ 1 ∷ 0 ∷ 0x16 ∷ []

abbrev arrivals : List Arrival
arrivals =
    (2000, packet_on 256 15, payload)
    ∷ (3000, packet_on 257 4, payload)
    ∷ (4000, packet_on 256 0, payload)
    ∷ []

InOrder-quiet_example : (feed_all idle arrivals).alerts cc ≡ idle.alerts cc
InOrder-quiet_example =
    InOrder-quiet arrivals idle (λ p. 16) (λ p. refl) (inl refl, (inl refl, (inr (inr refl), tt)))

-- Counter 3 has been seen, and 6 comes.
abbrev gapped : Handle
gapped = record idle { es_tracks = λ p. track_at 3; current_res = packet_on 256 6 }

gap_fires_example : (on_ts payload gapped).alerts cc ≡ raised (gapped.alerts cc) gapped.stc_ns
unfolding is_firing
gap_fires_example =
    gap_fires payload gapped 3 (omega arith) (omega arith) (omega arith) refl refl refl refl refl
      refl
