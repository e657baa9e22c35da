-- ===== src/Continuity.antt =====
-- src/tsa_utils.c, `cc_classify_error`: the 4-bit continuity counter of a PID.
pub mod Laws
use tsanalyzer.Base.{ℕ, ◌+◌, ◌-◌, ◌%◌, ◌^◌, Bool, true, false, not, ◌&&◌, ◌||◌}
use tsanalyzer.Base.{ltb, ◌==◌, if◌then◌else◌}

-- ts_cc_status_t
pub data CcStatus : Type 0 where
  ok duplicate loss out_of_order : CcStatus

-- cc_classify_error: `last` and `cc` are bytes, and `& 0xF` is `% 16`. `last + 1` and `cc - last`
-- are computed as `int`, which adding a multiple of 16 before the mask stands for.
unfoldable pub classify : ℕ → ℕ → Bool → Bool → CcStatus
classify last cc has_payload adaptation_only =
    if not has_payload || adaptation_only
    then ok
    else if cc == last
    then duplicate
    else if cc == (last + 1) % 16
    then ok
    else if ltb ((cc + 256 - last) % 16) 8
    then loss
    else out_of_order
