-- ===== src/PcrClock.antt =====
-- src/tsa_pcr_clock.c and include/tsa_pcr_clock.h: the PCR unwrapped to 64 bits, and the fields of
-- the clock that are integers. The estimate of the drift is in floating point: it changes nothing
-- of this state and is not modelled.
pub mod Unwrap
use tsanalyzer.Base.{
  ℕ, ◌+◌, ◌-◌, ◌*◌, ◌/◌, ◌%◌, ◌^◌, Bool, true, false, ◌&&◌, ltb, if◌then◌else◌, u64, sub64,
}

-- tsa_pcr_clock_t
pub record PcrClock : Type 0 where
  pub base_pcr_ticks : ℕ
  pub base_sys_ns : ℕ
  pub last_pcr_ticks : ℕ
  pub last_sys_ns : ℕ
  pub unwrapped_pcr_ticks : ℕ
  pub established : Bool
  pub pcr_count : ℕ

-- tsa_pcr_clock_init
unfoldable pub init : PcrClock
init = record {
  base_pcr_ticks = 0;
  base_sys_ns = 0;
  last_pcr_ticks = 0;
  last_sys_ns = 0;
  unwrapped_pcr_ticks = 0;
  established = false;
  pcr_count = 0;
}

-- tsa_pcr_clock_reset
unfoldable pub reset : PcrClock → PcrClock
reset clk = record clk { established = false; pcr_count = 0; unwrapped_pcr_ticks = 0 }

-- `MOD`: 33 bits of the base, times 300
abbrev pub pcr_modulus : ℕ
pcr_modulus = 2 ^ 33 * 300

-- unwrap_pcr, the new value of `*unwrapped`
unfoldable pub unwrap_pcr : ℕ → ℕ → ℕ → ℕ
unwrap_pcr current last unwrapped =
    if ltb current last && ltb (pcr_modulus / 2) (last - current)
    then u64 (unwrapped + (pcr_modulus - last + current))
    else if ltb current last
    then current
    else u64 (unwrapped + (current - last))

-- tsa_pcr_clock_update
unfoldable pub clock_update : PcrClock → ℕ → ℕ → PcrClock
clock_update clk pcr_ticks sys_ns =
    if clk.established
    then record clk {
      unwrapped_pcr_ticks = unwrap_pcr pcr_ticks clk.last_pcr_ticks clk.unwrapped_pcr_ticks;
      last_pcr_ticks = pcr_ticks;
      last_sys_ns = sys_ns;
      pcr_count = (clk.pcr_count + 1) % 2 ^ 32;
    }
    else record {
      base_pcr_ticks = pcr_ticks;
      base_sys_ns = sys_ns;
      last_pcr_ticks = pcr_ticks;
      last_sys_ns = sys_ns;
      unwrapped_pcr_ticks = pcr_ticks;
      established = true;
      pcr_count = 1;
    }
