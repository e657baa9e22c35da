-- ===== src/Shaper/Io/Balance.antt =====
-- src/libtsshaper/src/core/tss_io.c, `tss_internal_enqueue_packet`: the counters of a stream balance.
use tsanalyzer.Base.{ℕ, ◌+◌, ◌≡◌, refl, ◌∙◌, List, some, Bool, length, arith}
use tsanalyzer.Base.{if_each, option_each}
use tsanalyzer.Shaper.Fifo.{Fifo, size_of}
use tsanalyzer.Shaper.State.{PidState, Shaper, PidType, psi, video, audio, other_data, pcr}
use tsanalyzer.Shaper.Io.Rotation.{IsAligned}
use tsanalyzer.Shaper.Io.Accounting.{Settled, kept, refused, rotated, enqueue_packet-Settled}
use tsanalyzer.Shaper.Io.{
  watch, watchdog, shed_by_type, shed, accept, drop_packet, settle, enqueue_into, enqueue_packet,
}

-- What came in was accepted or dropped.
abbrev pub IsBalanced : PidState → Type 0
IsBalanced p = p.ingress.rx_bytes_total ≡ p.ingress.fifo_accept_bytes + p.ingress.drop_bytes_total

abbrev rx : PidState → ℕ
rx p = p.ingress.rx_bytes_total

rx-watchdog : (ctx : Shaper) (p : PidState) (packet : List ℕ) → rx (watchdog ctx p packet).1 ≡ rx p
unfolding watchdog watch
rx-watchdog ctx p packet = ground arith

rx-shed_by_type :
    (t : PidType) (ctx : Shaper) (p : PidState) (size : ℕ) (packet : List ℕ)
    → rx (shed_by_type t ctx p size packet).0 ≡ rx p
unfolding shed_by_type
rx-shed_by_type video ctx p size packet = ground arith
rx-shed_by_type audio ctx p size packet = ground arith
rx-shed_by_type psi ctx p size packet = refl
rx-shed_by_type other_data ctx p size packet = refl
rx-shed_by_type pcr ctx p size packet = refl

rx-shed :
    (ctx : Shaper) (p : PidState) (force : Bool) (size : ℕ) (packet : List ℕ)
    → rx (shed ctx p force size packet).0 ≡ rx p
unfolding shed
rx-shed ctx p force size packet =
    if_each (λ (r : PidState × Bool). rx r.0 ≡ rx p) _ _ _
      (rx-shed_by_type p.pid_type ctx p size packet) refl

rx-settle :
    (p : PidState) (force : Bool) (f : Fifo) (packet : List ℕ) → rx (settle p force f packet) ≡ rx p
unfolding settle accept drop_packet
rx-settle p force f packet = if_each (λ q. rx q ≡ rx p) _ _ _ refl refl

rx-enqueue_into :
    (ctx : Shaper) (p : PidState) (f : Fifo) (packet : List ℕ)
    → rx (enqueue_into ctx p f packet).1 ≡ rx p
unfolding enqueue_into
rx-enqueue_into ctx p f packet =
    let (watched, seen, force) = watchdog ctx p packet in
    let (left, force_drop) = shed watched seen force (size_of f) packet in
    rx-settle left force_drop f packet
    ∙ rx-shed watched seen force (size_of f) packet
    ∙ rx-watchdog ctx p packet

rx-enqueue_packet :
    (ctx : Shaper) (p : PidState) (packet : List ℕ)
    → rx (enqueue_packet ctx p packet).1 ≡ rx p + 188
unfolding enqueue_packet
rx-enqueue_packet ctx p packet =
    option_each (λ (r : Shaper × PidState). rx r.1 ≡ rx p + 188) p.ingress.ts_fifo _ _ refl
      (λ f e. rx-enqueue_into ctx _ f packet)

balance :
    {p q : PidState} {f : Fifo} {packet : List ℕ}
    → IsBalanced p
    → rx q ≡ rx p + 188
    → Settled p f packet q
    → IsBalanced q
balance b r (kept g e c a acc dropped) = omega arith
balance b r (refused e acc dropped) = omega arith
balance b r (rotated g e s t acc dropped) = omega arith

-- For a stream whose aligned FIFO is as large as the stream says, a packet of 188 bytes
-- keeps the counters balanced: every byte that came in was accepted or dropped, and none twice.
pub enqueue_packet-IsBalanced :
    (ctx : Shaper) (p : PidState) {f : Fifo} (packet : List ℕ)
    → IsBalanced p
    → p.ingress.ts_fifo ≡ some f
    → IsAligned f
    → p.ingress.fifo_capacity ≡ f.capacity
    → length packet ≡ 188
    → IsBalanced (enqueue_packet ctx p packet).1
enqueue_packet-IsBalanced ctx p packet b e a small l =
    balance b (rx-enqueue_packet ctx p packet) (enqueue_packet-Settled ctx p packet e a small l)
