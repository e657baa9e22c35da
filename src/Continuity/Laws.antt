-- ===== src/Continuity/Laws.antt =====
-- src/tsa_utils.c, `cc_classify_error`: the verdict is a function of how far the counter moved.
use tsanalyzer.Base.{ℕ, ◌+◌, ◌%◌, ◌<◌, ◌≡◌, refl, true, false, arith}
use tsanalyzer.Base.{leb, ◌==◌, if◌then◌else◌}
use tsanalyzer.Continuity.{CcStatus, ok, duplicate, loss, out_of_order, classify}

-- The verdict for a counter that moved forward by `delta`, modulo 16.
pub verdict : ℕ → CcStatus
verdict delta =
    if delta == 0
    then duplicate
    else if delta == 1
    then ok
    else if leb delta 7
    then loss
    else out_of_order

-- On payload packets, a counter that moves by `delta` from any value is judged by `delta` alone: no
-- move is a duplicate, one step is in order, two to seven steps lose packets, and more steps are
-- packets out of order. A packet without payload is always in order.
pub classify-verdict :
    (last delta : ℕ)
    → last < 16
    → delta < 16
    → (classify last ((last + delta) % 16) true false ≡ verdict delta)
      × (classify last ((last + delta) % 16) false false ≡ ok)
      × (classify last ((last + delta) % 16) false true ≡ ok)
unfolding classify verdict
classify-verdict last delta hl hd = (ground arith, refl, refl)
