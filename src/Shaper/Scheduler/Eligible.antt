-- ===== src/Shaper/Scheduler/Eligible.antt =====
-- src/libtsshaper/src/core/tss_scheduler.c, `tss_pick_es_pid`: the stream that is picked may send,
-- and one is picked as long as any may.
use tsanalyzer.Base.{ℕ}
use tsanalyzer.Base.{List, [], ◌∷◌}
use tsanalyzer.Shaper.State.{Shaper}
use tsanalyzer.Shaper.Scheduler.Search.{Blocked}

-- None of the streams of any program may send.
unfoldable pub AllBlocked : Shaper → List (List ℕ) → Type 0
AllBlocked ctx [] = Unit
AllBlocked ctx (pids ∷ programs) = Blocked ctx pids × AllBlocked ctx programs
