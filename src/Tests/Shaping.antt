-- ===== src/Tests/Shaping.antt =====
-- Examples of the ingress and the scheduler of the shaper.
use tsanalyzer.Base.{ℕ, ◌≡◌, refl, List, [], ◌∷◌, ◌++◌, some, arith, replicate, true}
use tsanalyzer.Base.Int.{pos}
use tsanalyzer.Shaper.Fifo.{Fifo}
use tsanalyzer.Shaper.Fifo.Refine.{contents}
use tsanalyzer.Shaper.State.{PidState, Shaper, video}
use tsanalyzer.Shaper.Io.{enqueue_packet, is_pcr}
use tsanalyzer.Shaper.Io.Rotation.{IsAligned}
use tsanalyzer.Shaper.Io.Accounting.{Settled, enqueue_packet-Settled, enqueue_packet-is_pcr}
use tsanalyzer.Shaper.Io.Balance.{IsBalanced, enqueue_packet-IsBalanced}
use tsanalyzer.Tests.Clocks.{pid, shaper}

-- A FIFO of two packets that holds one.
abbrev one_packet : Fifo
one_packet = record { buffer = replicate 376 0; capacity = 376; head = 0; tail = 188; size = 188 }

one_packet-IsAligned : IsAligned one_packet
one_packet-IsAligned = record {
  valid = record {
    storage = refl;
    nonempty = omega arith;
    small = omega arith;
    head_in = omega arith;
    fits = omega arith;
    tail_at = refl;
  };
  packets = 1;
  whole = refl;
}

-- A stream with that FIFO that has received and accepted one packet.
abbrev fed : PidState
fed = record pid {
  pid_type = video;
  pacing_tokens = pos 1000;
  tokens_bits = pos 2000;
  ingress = record pid.ingress {
    ts_fifo = some one_packet;
    fifo_capacity = 376;
    rx_bytes_total = 188;
    fifo_accept_bytes = 188;
  };
}

-- A packet with an adaptation field of 7 bytes and a PCR.
abbrev packet : List ℕ
packet = (0x47 ∷ 0x41 ∷ 0 ∷ 0x30 ∷ 7 ∷ 0x10 ∷ []) ++ replicate 182 0

enqueue_packet-Settled_example : Settled fed one_packet packet (enqueue_packet shaper fed packet).1
enqueue_packet-Settled_example =
    enqueue_packet-Settled shaper fed packet refl one_packet-IsAligned refl refl

packet-is_pcr : is_pcr packet ≡ true
unfolding is_pcr
packet-is_pcr = refl

enqueue_packet-is_pcr_example :
    (g : Fifo) × ((enqueue_packet shaper fed packet).1.ingress.ts_fifo ≡ some g)
    × (contents g ≡ contents one_packet ++ packet)
enqueue_packet-is_pcr_example =
    enqueue_packet-is_pcr shaper fed packet refl one_packet-IsAligned refl refl packet-is_pcr
      (omega arith)

enqueue_packet-IsBalanced_example : IsBalanced (enqueue_packet shaper fed packet).1
enqueue_packet-IsBalanced_example =
    enqueue_packet-IsBalanced shaper fed packet refl refl one_packet-IsAligned refl refl

-- The one stream of the shaper holds a packet.
abbrev ready : Shaper
ready = record shaper { all_pids = fed ∷ [] }
