-- ===== src/Psi.antt =====
-- src/tsa_psi.c: the tracker of active PIDs, and the extraction and parsing of PAT and PMT
-- sections. A packet is the memory from its first byte on, as a function of the address: the
-- parser does read past the packet's end, see `process_pmt`.
pub mod Tracker
pub mod Sections
pub mod Bounds
pub mod Moved
use tsanalyzer.Base.{
  ℕ, zero, suc, ◌+◌, ◌-◌, ◌*◌, ◌/◌, ◌%◌, ◌^◌, List, [], ◌∷◌, ◌++◌, Bool, true, false, not, ◌&&◌,
  ◌||◌,
}
use tsanalyzer.Base.{Option, none, some, ltb, leb, ◌==◌, if◌then◌else◌, length, update, cells}
use tsanalyzer.Base.Loops.{for_range}
use tsanalyzer.Handle.{
  PidKind, other_kind, pat_kind, pmt_kind, video_kind, audio_kind, data_kind, PidLabel, Handle,
  DecodeResult, ProgramInfo, StreamInfo,
}
use tsanalyzer.Alert.{label_of}
use tsanalyzer.Crc.{crc32}

abbrev pub max_active_pids : ℕ
max_active_pids = 128

abbrev pub max_programs : ℕ
max_programs = 16

abbrev pub max_streams_per_prog : ℕ
max_streams_per_prog = 32

abbrev pub pid_max : ℕ
pid_max = 8192

unfoldable pub kind_of : Handle → ℕ → PidKind
kind_of h pid =
    if pid == 0
    then pat_kind
    else if h.pid_is_pmt pid
    then pmt_kind
    else if h.pid_types pid == 1
    then video_kind
    else if h.pid_types pid == 2
    then audio_kind
    else if h.pid_types pid == 3
    then data_kind
    else other_kind

-- tsa_precompile_pid_labels
unfoldable pub precompile_pid_labels : Handle → ℕ → Handle
precompile_pid_labels h pid = if leb pid_max pid then h else record h {
  pid_labels =
      update h.pid_labels pid
        (record { stream_id = label_of h.input_label; pid = pid; kind = kind_of h pid });
}

-- tsa_reset_pid_stats
unfoldable pub reset_pid_stats : Handle → ℕ → Handle
reset_pid_stats h pid = record h { pid_seen = update h.pid_seen pid false }

-- The new PID gets the next place of the list, if one is left.
unfoldable pub add_active : Handle → ℕ → Handle
add_active h p =
    if ltb (length h.pid_active_list) max_active_pids
    then record h {
      pid_active_list = h.pid_active_list ++ (p ∷ []);
      pid_to_active_idx = update h.pid_to_active_idx p (some (length h.pid_active_list));
    }
    else h

unfoldable pub see_new_pid : Handle → ℕ → Handle
see_new_pid h p =
    let h₁ = add_active h p in
    precompile_pid_labels (record h₁ { pid_seen = update h₁.pid_seen p true }) p

-- tsa_update_pid_tracker, without its result
unfoldable pub update_pid_tracker : Handle → ℕ → Handle
update_pid_tracker h p = elim (h.pid_to_active_idx p) [ none ↦ see_new_pid h p | some i ↦ h ]

-- The index that tsa_update_pid_tracker returns, `none` for -1.
unfoldable pub tracked_index : Handle → ℕ → Option ℕ
tracked_index h p = (update_pid_tracker h p).pid_to_active_idx p

-- A field of 16 bits, of which the `keep` highest bits of the first byte are dropped: the byte is
-- taken modulo `top`.
abbrev pub field : ℕ → (ℕ → ℕ) → ℕ → ℕ
field top p i = p i % top * 256 + p (i + 1)

-- The length of a section from its first byte to its last one.
abbrev pub section_bytes : (ℕ → ℕ) → ℕ
section_bytes p = field 16 p 1 + 3

unfoldable pub has_program : ℕ → List ProgramInfo → Bool
has_program pn [] = false
has_program pn (g ∷ gs) = (g.program_number == pn) || has_program pn gs

-- The first program of that number gets the new PID.
unfoldable pub move_pmt : ℕ → ℕ → List ProgramInfo → List ProgramInfo
move_pmt pn ppid [] = []
move_pmt pn ppid (g ∷ gs) =
    if g.program_number == pn then record g { pmt_pid = ppid } ∷ gs else g ∷ move_pmt pn ppid gs

-- One entry of a PAT, the body of the loop of process_pat.
unfoldable pub pat_entry : ℕ → ℕ → Handle → Handle
pat_entry pn ppid h =
    if pn == 0
    then h
    else if has_program pn h.programs
    then record h { programs = move_pmt pn ppid h.programs }
    else if ltb (length h.programs) max_programs
    then record h {
      programs =
          h.programs
          ++ (record { program_number = pn; pmt_pid = ppid; last_pmt_ns = 0; streams = [] } ∷ []);
      pid_is_pmt = update h.pid_is_pmt ppid true;
    }
    else h

-- process_pat
unfoldable pub process_pat : (ℕ → ℕ) → ℕ → Handle → Handle
process_pat p now h =
    for_range ((section_bytes p - 12) / 4) 0
      (λ i. pat_entry (field 256 p (8 + i * 4)) (field 32 p (10 + i * 4)))
      (record h { seen_pat = true; last_pat_ns = now })

-- 1 is video, 2 audio and 3 data.
unfoldable pub type_of_stream : ℕ → ℕ
type_of_stream type =
    if (type == 0x1B) || (type == 0x10) || (type == 0x06)
    then 1
    else if (type == 0x0F) || (type == 0x03) || (type == 0x04)
    then 2
    else 3

-- What the loop over the streams of a PMT writes.
pub record Scan : Type 0 where
  pub pid_types : ℕ → ℕ
  pub streams : List StreamInfo

unfoldable pub register_stream : ℕ → ℕ → Scan → Scan
register_stream type es_pid s = record {
  pid_types = update s.pid_types es_pid (type_of_stream type);
  streams =
      if ltb (length s.streams) max_streams_per_prog
      then s.streams ++ (record { pid = es_pid; stream_type = type } ∷ [])
      else s.streams;
}

-- The loop over the streams of a PMT. `offset < sl - 4` is written with the sum, since the
-- difference of `int`s may be negative.
unfoldable pub scan_streams : ℕ → (ℕ → ℕ) → ℕ → ℕ → Scan → Scan
scan_streams zero p sl offset s = s
scan_streams (suc fuel) p sl offset s = elim (ltb (offset + 4) sl) [
  | true ↦
      scan_streams fuel p sl (offset + (5 + field 16 p (offset + 3)))
        (register_stream (p offset) (field 32 p (offset + 1)) s)
  | false ↦ s
]

-- The whole loop. Every round moves by at least 5 bytes, so `section_bytes p` rounds are enough.
-- The bytes `p 10` and `p 11` are read unchecked.
unfoldable pub pmt_scan : (ℕ → ℕ) → (ℕ → ℕ) → Scan
pmt_scan p types =
    scan_streams (section_bytes p) p (section_bytes p) (12 + field 16 p 10)
      (record { pid_types = types; streams = [] })

-- The programs with the first one on that PID changed by the section, and the types of the PIDs.
unfoldable pub pmt_programs :
    ℕ → (ℕ → ℕ) → ℕ → (ℕ → ℕ) → List ProgramInfo → List ProgramInfo × (ℕ → ℕ)
pmt_programs pid p now types [] = ([], types)
pmt_programs pid p now types (g ∷ gs) =
    let scan = pmt_scan p types in
    let rest = pmt_programs pid p now types gs in
    if g.pmt_pid == pid
    then (record g { last_pmt_ns = now; streams = scan.streams } ∷ gs, scan.pid_types)
    else (g ∷ rest.0, rest.1)

-- process_pmt
unfoldable pub process_pmt : ℕ → (ℕ → ℕ) → ℕ → Handle → Handle
process_pmt pid p now h =
    let found = pmt_programs pid p now h.pid_types h.programs in
    record h { seen_pmt = true; programs = found.0; pid_types = found.1 }

-- Where the section of a packet starts: none where the packet is passed over.
unfoldable pub section_offset : (ℕ → ℕ) → Bool → Option ℕ
section_offset pkt pusi =
    let afc = pkt 3 / 16 % 4 in
    if afc % 2 == 0
    then none
    else if not pusi
    then none
    else let offset = if afc / 2 % 2 == 1 then 4 + (pkt 4 + 1) else 4 in
      if leb 187 offset
      then none
      else let start = offset + (pkt offset + 1) in
        if leb 184 start
        then none
        else if pkt start == 0xFF
        then none
        else if ltb 188 (start + section_bytes (λ i. pkt (start + i)))
        then none
        else some start

-- A whole section, by its table id.
unfoldable pub dispatch_section : ℕ → (ℕ → ℕ) → Handle → Handle
dispatch_section pid p h =
    if crc32 (cells p 0 (section_bytes p)) == 0
    then if p 0 == 0x00
      then process_pat p h.current_ns h
      else if p 0 == 0x02
      then process_pmt pid p h.current_ns h
      else h
    else record h { crc_error_count = (h.crc_error_count + 1) % 2 ^ 64 }

-- tsa_section_filter_push
unfoldable pub section_filter_push : ℕ → (ℕ → ℕ) → DecodeResult → Handle → Handle
section_filter_push pid pkt r h = elim (section_offset pkt (not (r.pusi == 0))) [
  | none ↦ h
  | some start ↦ dispatch_section pid (λ i. pkt (start + i)) h
]

-- tsa_psi_process_packet
unfoldable pub psi_process_packet : (ℕ → ℕ) → DecodeResult → Handle → Handle
psi_process_packet pkt res h =
    let h₁ = update_pid_tracker h res.pid in
    if (res.pid == 0) || h₁.pid_is_pmt res.pid then section_filter_push res.pid pkt res h₁ else h₁
