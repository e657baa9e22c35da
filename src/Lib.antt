-- ===== src/Lib.antt =====
-- A model of TsAnalyzer, a real-time analyzer and shaper of MPEG transport streams written in C,
-- with theorems on the parts that carry its logic.
--
-- A packet is decoded and handed to the PSI parser, which tracks PIDs and reads PAT and PMT, and to
-- the engines, of which the TR 101 290 engine raises alerts. The alert engine filters them by a
-- tree of causes, gathers repeated ones in windows and resolves them by time. Rings carry packets
-- between threads and bytes into the shaper, whose voter guards the timeline, whose token buckets
-- pace the output and whose scheduler picks the stream that sends next. Packets come from a pool
-- whose free indices a lock-free queue hands out, and a tree of streams carries subscriptions.
--
-- Which file models what:
--   Spsc             src/spsc_queue.c, include/spsc_queue.h; Spsc/Threads has its two threads
--   Handle           struct tsa_handle of include/tsa_internal.h, and the types of its fields
--   Alert            src/tsa_alert.c: update and suppression; Alert/Check has the periodic check
--   Continuity, Crc  cc_classify_error and mpegts_crc32 of src/tsa_utils.c
--   Tr101290         src/tsa_engine_tr101290.c
--   Psi              src/tsa_psi.c
--   PcrClock         src/tsa_pcr_clock.c, without the floating-point drift
--   Histogram        src/tsa_histogram.c
--   StreamModel      src/tsa_stream_model.c
--   Descriptors      src/tsa_descriptors.c
--   Bitstream        include/tsa_bitstream.h
--   PacketRing, Pes  tsa_packet_ring_* and tsa_parse_pes_header of src/tsa_utils.c
--   Metrics          tsa_fast_itoa and tsa_mbuf_* of src/tsa_utils.c
--   Mpmc             src/mpmc_queue.c; Mpmc/Sequence has single calls, Mpmc/Threads its threads
--   Pool             src/tsa_packet_pool.c, over an interface of the queue of free indices, which
--                    Pool/Indices fills with the queue of Mpmc
--   StreamTree       src/tsa_stream.c, without the sending of packets
--   Plugin           src/tsa_plugin.c, over the callbacks of the plugins
--   Lexer            src/tsa_conf_lexer.c, on a text without zeros; `isspace` as in the C locale
--   Shaper/Fifo      src/libtsshaper/src/core/tss_fifo.c
--   Shaper/State     src/libtsshaper/src/core/tss_internal.h, the fields used here
--   Shaper/Voter     src/libtsshaper/src/core/tss_voter.c
--   Shaper/Pacing    src/libtsshaper/src/core/tss_pacing.c
--   Shaper/Io        src/libtsshaper/src/core/tss_io.c: a packet on its way into a FIFO
--   Shaper/Equilibrium, Shaper/Scheduler
--                    src/libtsshaper/src/core/tss_scheduler.c: the pace of a stream, and the choice
--                    of the stream that sends next
--   BoundedQueue     what a bounded first-in first-out queue is
--   Base             shared lists, loops, ring arithmetic, machine words and integers
--   Tests            the theorems at concrete inputs
--
-- State is passed explicitly: a C function that writes through a pointer returns the new record.
-- Unsigned words wrap where the code can make them wrap (`u32`, `u64`, `sub64`); the signed 64-bit
-- times of the shaper are integers without overflow. A `for` loop is `for_range`, by recursion on
-- the number of its rounds. The loop over the streams of a PMT runs on fuel, one round for each
-- byte of the section, since each round moves by at least 5 bytes. The bit reader counts at most
-- 32 zeros, as the code does. The loop that drops sections from a FIFO has fuel for each byte, and
-- drops 188 in a round; the digits of a 64-bit word are at most 20. `malloc`,
-- `calloc` and `qsort` are arguments.
--
-- Not modelled: null pointers, logs, sockets, files and timers, floating point, the servers and
-- exporters, the SIMD kernels, the vendored src/mongoose.c, and the shaper's step and metrics, the
-- SCTE-35 and NAL parsers, the rest of the configuration and the analyzer core, which are to follow.
pub mod Alert
pub mod Base
pub mod Bitstream
pub mod BoundedQueue
pub mod Continuity
pub mod Crc
pub mod Descriptors
pub mod Handle
pub mod Histogram
pub mod Lexer
pub mod Metrics
pub mod Mpmc
pub mod PacketRing
pub mod PcrClock
pub mod Pes
pub mod Plugin
pub mod Pool
pub mod Psi
pub mod Shaper
pub mod Spsc
pub mod StreamModel
pub mod StreamTree
pub mod Tests
pub mod Tr101290
