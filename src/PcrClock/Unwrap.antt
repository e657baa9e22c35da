-- ===== src/PcrClock/Unwrap.antt =====
-- src/tsa_pcr_clock.c: the unwrapped PCR counts the ticks of the transmitter's clock.
use tsanalyzer.Base.{ℕ, ◌+◌, ◌/◌, ◌%◌, ◌<◌, ◌≡◌, refl, ◌∙◌, List, [], ◌∷◌, true, arith, u64}
use tsanalyzer.PcrClock.{PcrClock, pcr_modulus, unwrap_pcr, clock_update}

-- A transmitter whose clock shows `ticks` sends this PCR.
abbrev pub sent : ℕ → ℕ
sent ticks = ticks % pcr_modulus

-- One PCR later, across a wrap or not, the unwrapped value has moved by the ticks between the two.
unwrap_pcr-sent :
    (ticks step unwrapped : ℕ)
    → step < pcr_modulus / 2
    → unwrap_pcr (sent (ticks + step)) (sent ticks) unwrapped ≡ u64 (unwrapped + step)
unfolding unwrap_pcr
unwrap_pcr-sent ticks step unwrapped h = ground arith

clock_update-sent :
    (clk : PcrClock) (ticks step sys_ns : ℕ)
    → clk.established ≡ true
    → clk.last_pcr_ticks ≡ sent ticks
    → step < pcr_modulus / 2
    → let clk' = clock_update clk (sent (ticks + step)) sys_ns in
      (clk'.established ≡ true)
      × (clk'.last_pcr_ticks ≡ sent (ticks + step))
      × (clk'.unwrapped_pcr_ticks ≡ u64 (clk.unwrapped_pcr_ticks + step))
unfolding clock_update
clock_update-sent clk ticks step sys_ns e l h =
    rw (e, l) (refl, refl, unwrap_pcr-sent ticks step clk.unwrapped_pcr_ticks h)

-- The PCRs of a transmitter that are so many ticks apart, each received at some time.
unfoldable pub receive : PcrClock → ℕ → List (ℕ × ℕ) → PcrClock
receive clk ticks [] = clk
receive clk ticks ((step, sys_ns) ∷ rest) =
    receive (clock_update clk (sent (ticks + step)) sys_ns) (ticks + step) rest

-- The ticks that passed.
unfoldable pub passed : List (ℕ × ℕ) → ℕ
passed [] = 0
passed ((step, sys_ns) ∷ rest) = step + passed rest

abbrev pub Close : List (ℕ × ℕ) → Type 0
Close [] = Unit {0}
Close ((step, sys_ns) ∷ rest) = (step < pcr_modulus / 2) × Close rest

-- A clock that knows the transmitter's last PCR counts its ticks from then on, modulo 2^64, through
-- any number of wraps, as long as two PCRs are less than half of the PCR's range apart.
pub receive-passed :
    (steps : List (ℕ × ℕ)) (clk : PcrClock) (ticks : ℕ)
    → clk.established ≡ true
    → clk.last_pcr_ticks ≡ sent ticks
    → Close steps
    → u64 (receive clk ticks steps).unwrapped_pcr_ticks
      ≡ u64 (clk.unwrapped_pcr_ticks + passed steps)
unfolding receive passed
receive-passed [] clk ticks e l c = omega arith
receive-passed ((step, sys_ns) ∷ rest) clk ticks e l c =
    let (same, last, moved) = clock_update-sent clk ticks step sys_ns e l c.0 in
    receive-passed rest (clock_update clk (sent (ticks + step)) sys_ns) (ticks + step) same last c.1
    ∙ omega (arith, moved)
