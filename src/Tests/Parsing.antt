-- ===== src/Tests/Parsing.antt =====
-- Examples of the parsers.
use tsanalyzer.Base.{
  ℕ, ◌+◌, ◌≡◌, inl, ◌/◌, ◌%◌, ◌^◌, refl, List, [], ◌∷◌, ◌++◌, some, arith, get_or,
}
use tsanalyzer.Handle.{Handle, ProgramInfo}
use tsanalyzer.Crc.{crc32}
use tsanalyzer.Crc.Laws.{big_endian, crc32-big_endian}
use tsanalyzer.Psi.{Scan, scan_streams, process_pmt, psi_process_packet}
use tsanalyzer.Psi.Bounds.{IsBounded, psi_process_packet-IsBounded}
use tsanalyzer.Psi.Sections.{Entry, scan_streams-fuel, entries_bytes, entry_bytes}
use tsanalyzer.Psi.Sections.RoundTrip.{Lists, stream_of, program_on, process_pmt_reads}
use tsanalyzer.StreamModel.{TsModel, new_program}
use tsanalyzer.Bitstream.{BitReader, read, pkt_get_pcr}
use tsanalyzer.Bitstream.Pcr.{pcr_bytes, pkt_get_pcr-pcr_bytes}
use tsanalyzer.Bitstream.Reader.{IsFilled, available}
use tsanalyzer.Bitstream.Value.{AllBytes, pending, read-pending}
use tsanalyzer.Tests.Samples.{idle, packet_on}

-- Memory that starts with these bytes.
abbrev memory : List ℕ → ℕ → ℕ
memory bytes i = get_or bytes i 0

crc32-big_endian_example : crc32 ((2 ∷ 3 ∷ []) ++ big_endian (crc32 (2 ∷ 3 ∷ []))) ≡ 0
crc32-big_endian_example = crc32-big_endian (2 ∷ 3 ∷ [])

idle-IsBounded : IsBounded idle
idle-IsBounded = record {
  tracked = record { fits = omega arith; listed = λ p i e. cc; indexed = λ p i e. cc };
  programs_fit = omega arith;
  streams_fit = tt;
}

psi_process_packet-IsBounded_example :
    IsBounded (psi_process_packet (memory (0x47 ∷ 0x40 ∷ 0 ∷ 0x10 ∷ [])) (packet_on 0 3) idle)
psi_process_packet-IsBounded_example =
    psi_process_packet-IsBounded (memory (0x47 ∷ 0x40 ∷ 0 ∷ 0x10 ∷ [])) (packet_on 0 3) idle
      idle-IsBounded

abbrev nothing_scanned : Scan
nothing_scanned = record { pid_types = λ p. 0; streams = [] }

scan_streams-fuel_example :
    scan_streams 12 (memory (27 ∷ 225 ∷ 1 ∷ 240 ∷ [])) 9 0 nothing_scanned
    ≡ scan_streams 9 (memory (27 ∷ 225 ∷ 1 ∷ 240 ∷ [])) 9 0 nothing_scanned
scan_streams-fuel_example =
    scan_streams-fuel 9 12 (memory (27 ∷ 225 ∷ 1 ∷ 240 ∷ [])) 9 0 nothing_scanned (omega arith)
      (omega arith)

abbrev film : ProgramInfo
film = record { program_number = 1; pmt_pid = 4096; last_pmt_ns = 0; streams = [] }

abbrev with_film : Handle
with_film = record idle { programs = film ∷ [] }

abbrev picture : Entry
picture = record { type = 0x1B; es_pid = 0x100; descriptors = 5 ∷ 6 ∷ [] }

-- A PMT of one stream: 12 bytes, the stream's 7 bytes and the CRC's 4 make a length of 20 + 3.
abbrev pmt_section : ℕ → ℕ
pmt_section = memory (
    2 ∷ 0xB0 ∷ 20 ∷ 0 ∷ 1 ∷ 0xC1 ∷ 0 ∷ 0 ∷ 0xE1 ∷ 0 ∷ 0xF0 ∷ 0 ∷ 0x1B ∷ 0xE1 ∷ 0 ∷ 0xF0 ∷ 2 ∷ 5 ∷ 6
    ∷ [])

pmt_section-Lists : Lists pmt_section (picture ∷ [])
unfolding entries_bytes entry_bytes
pmt_section-Lists = record {
  fit = (omega arith, omega arith, tt);
  size = refl;
  held = (refl, (refl, (refl, (refl, (refl, (refl, (refl, tt)))))));
}

process_pmt_reads_example :
    program_on 4096 (process_pmt 4096 pmt_section 77 with_film).programs
    ≡ some (record film { last_pmt_ns = 77; streams = stream_of picture ∷ [] })
unfolding program_on
process_pmt_reads_example =
    process_pmt_reads with_film 4096 pmt_section 77 film (picture ∷ []) refl pmt_section-Lists

abbrev named : TsModel
named = record { programs = new_program 1 256 ∷ []; pid_to_program_idx = λ p. some 0 }

abbrev descriptor : ℕ → ℕ
descriptor = memory (1 ∷ 2 ∷ 65 ∷ 66 ∷ 1 ∷ 67 ∷ [])

abbrev pcr_packet : ℕ → ℕ
pcr_packet = memory (0x47 ∷ 1 ∷ 0 ∷ 0x20 ∷ 183 ∷ 0x10 ∷ pcr_bytes 1000000)

pkt_get_pcr-pcr_bytes_example : pkt_get_pcr pcr_packet ≡ some 1000000
pkt_get_pcr-pcr_bytes_example =
    pkt_get_pcr-pcr_bytes pcr_packet 1000000 (omega arith) refl refl (omega arith) refl
      (refl, (refl, (refl, (refl, (refl, (refl, tt))))))

abbrev reader : BitReader
reader = record { bytes = 0xEF ∷ []; cache = 0x0123456789ABCD; bits_left = 64 }

read-pending_example :
    ((read reader 12).0 ≡ pending reader / 2 ^ 60)
    × (pending (read reader 12).1 ≡ pending reader % 2 ^ 60)
    × (available (read reader 12).1 + 12 ≡ available reader)
    × IsFilled (read reader 12).1
    × AllBytes (read reader 12).1.bytes
read-pending_example =
    read-pending reader 12 (record { small = omega arith; filled = inl (omega arith) })
      (omega arith, tt) (omega arith) (omega arith) (omega arith)
