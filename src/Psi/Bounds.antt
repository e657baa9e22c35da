-- ===== src/Psi/Bounds.antt =====
-- src/tsa_psi.c: the arrays of the PSI parser hold, whatever the packets contain.
use tsanalyzer.Base.{
  ℕ, zero, suc, ◌+◌, ◌≤◌, ◌≡◌, refl, List, [], ◌∷◌, ◌++◌, Bool, true, false, not, ◌||◌, Option,
  none, some, arith,
}
use tsanalyzer.Base.{
  ltb, ◌==◌, if◌then◌else◌, length, length-append, if_each, Bool-cases, Option-cases, inl, inr,
  update, cells,
}
use tsanalyzer.Base.Loops.{for_range_inv}
use tsanalyzer.Crc.{crc32}
use tsanalyzer.Handle.{Handle, ProgramInfo, DecodeResult}
use tsanalyzer.Psi.{
  section_bytes, max_streams_per_prog, max_programs, Scan, scan_streams, pmt_scan, pmt_programs,
  process_pmt, move_pmt, has_program, pat_entry, process_pat, section_offset, dispatch_section,
  section_filter_push, update_pid_tracker, see_new_pid, add_active, precompile_pid_labels,
  psi_process_packet,
}
use tsanalyzer.Psi.Tracker.{
  IsTracked, update_pid_tracker-IsTracked, update_pid_tracker_new, update_pid_tracker_old,
}
use tsanalyzer.Psi.Sections.RoundTrip.{register_stream_fits}

-- No program has more streams than its array holds.
abbrev pub StreamsFit : List ProgramInfo → Type 0
StreamsFit [] = Unit {0}
StreamsFit (g ∷ gs) = (length g.streams ≤ max_streams_per_prog) × StreamsFit gs

-- The arrays of the handle hold: of the active PIDs, of the programs and of their streams.
pub record IsBounded (h : Handle) : Type 0 where
  pub tracked : IsTracked h
  pub programs_fit : length h.programs ≤ max_programs
  pub streams_fit : StreamsFit h.programs

StreamsFit-push :
    (gs : List ProgramInfo) (g : ProgramInfo)
    → length g.streams ≤ max_streams_per_prog
    → StreamsFit gs
    → StreamsFit (gs ++ (g ∷ []))
StreamsFit-push [] g hg h = (hg, tt)
StreamsFit-push (f ∷ gs) g hg h = (h.0, StreamsFit-push gs g hg h.1)

move_pmt-StreamsFit :
    (pn ppid : ℕ) (gs : List ProgramInfo) → StreamsFit gs → StreamsFit (move_pmt pn ppid gs)
unfolding move_pmt
move_pmt-StreamsFit pn ppid [] h = h
move_pmt-StreamsFit pn ppid (g ∷ gs) h = elim (Bool-cases (g.program_number == pn)) [
  | inl b ↦ rw b h
  | inr b ↦ rw b (h.0, move_pmt-StreamsFit pn ppid gs h.1)
]

length-move_pmt : (pn ppid : ℕ) (gs : List ProgramInfo) → length (move_pmt pn ppid gs) ≡ length gs
unfolding move_pmt
length-move_pmt pn ppid [] = refl
length-move_pmt pn ppid (g ∷ gs) = ground (arith, length-move_pmt pn ppid gs)

add_program-IsBounded :
    (pn ppid : ℕ) (h : Handle)
    → IsBounded h
    → IsBounded (
        if ltb (length h.programs) max_programs
        then record h {
          programs =
              h.programs
              ++ (record { program_number = pn; pmt_pid = ppid; last_pmt_ns = 0; streams = [] }
                  ∷ []);
          pid_is_pmt = update h.pid_is_pmt ppid true;
        }
        else h)
add_program-IsBounded pn ppid h v = elim (Bool-cases (ltb (length h.programs) max_programs)) [
  | inl c ↦ rw c (record {
    tracked = v.tracked;
    programs_fit =
        let g : ProgramInfo = record {
          program_number = pn;
          pmt_pid = ppid;
          last_pmt_ns = 0;
          streams = [];
        } in
        ground (arith, length-append h.programs (g ∷ []));
    streams_fit = StreamsFit-push h.programs _ (omega arith) v.streams_fit;
  })
  | inr c ↦ rw c v
]

pat_entry-IsBounded : (pn ppid : ℕ) (h : Handle) → IsBounded h → IsBounded (pat_entry pn ppid h)
unfolding pat_entry
pat_entry-IsBounded pn ppid h v = if_each IsBounded (pn == 0) _ _ v (
    if_each IsBounded (has_program pn h.programs) _ _
      (record {
        tracked = v.tracked;
        programs_fit = omega (arith, v.programs_fit, length-move_pmt pn ppid h.programs);
        streams_fit = move_pmt-StreamsFit pn ppid h.programs v.streams_fit;
      })
      (add_program-IsBounded pn ppid h v))

process_pat-IsBounded :
    (p : ℕ → ℕ) (now : ℕ) (h : Handle) → IsBounded h → IsBounded (process_pat p now h)
unfolding process_pat
process_pat-IsBounded p now h v =
    for_range_inv IsBounded _ (λ i s. pat_entry-IsBounded _ _ s) _ 0 _
      (record { tracked = v.tracked; programs_fit = v.programs_fit; streams_fit = v.streams_fit })

scan_streams_fits :
    (fuel : ℕ) (p : ℕ → ℕ) (sl offset : ℕ) (s : Scan)
    → length s.streams ≤ max_streams_per_prog
    → length (scan_streams fuel p sl offset s).streams ≤ max_streams_per_prog
unfolding scan_streams
scan_streams_fits zero p sl offset s h = h
scan_streams_fits (suc fuel) p sl offset s h =
    go (ltb (offset + 4) sl) _ (scan_streams_fits fuel p sl _ _ (register_stream_fits _ _ s h))
  where
    go :
        (b : Bool) (a : Scan)
        → length a.streams ≤ max_streams_per_prog
        → length (elim b as (λ x. Scan) [ true ↦ a | false ↦ s ]).streams ≤ max_streams_per_prog
    go true a k = k
    go false a k = h

pmt_programs-StreamsFit :
    (pid : ℕ) (p : ℕ → ℕ) (now : ℕ) (types : ℕ → ℕ) (gs : List ProgramInfo)
    → StreamsFit gs
    → StreamsFit (pmt_programs pid p now types gs).0
unfolding pmt_programs pmt_scan
pmt_programs-StreamsFit pid p now types [] h = h
pmt_programs-StreamsFit pid p now types (g ∷ gs) h = elim (Bool-cases (g.pmt_pid == pid)) [
  | inl b ↦ rw b (scan_streams_fits _ p _ _ _ (omega arith), h.1)
  | inr b ↦ rw b (h.0, pmt_programs-StreamsFit pid p now types gs h.1)
]

length-pmt_programs :
    (pid : ℕ) (p : ℕ → ℕ) (now : ℕ) (types : ℕ → ℕ) (gs : List ProgramInfo)
    → length (pmt_programs pid p now types gs).0 ≡ length gs
unfolding pmt_programs
length-pmt_programs pid p now types [] = refl
length-pmt_programs pid p now types (g ∷ gs) =
    ground (arith, length-pmt_programs pid p now types gs)

process_pmt-IsBounded :
    (pid : ℕ) (p : ℕ → ℕ) (now : ℕ) (h : Handle) → IsBounded h → IsBounded (process_pmt pid p now h)
unfolding process_pmt
process_pmt-IsBounded pid p now h v = record {
  tracked = v.tracked;
  programs_fit =
      omega (arith, v.programs_fit, length-pmt_programs pid p now h.pid_types h.programs);
  streams_fit = pmt_programs-StreamsFit pid p now h.pid_types h.programs v.streams_fit;
}

dispatch_section-IsBounded :
    (pid : ℕ) (p : ℕ → ℕ) (h : Handle) → IsBounded h → IsBounded (dispatch_section pid p h)
unfolding dispatch_section
dispatch_section-IsBounded pid p h v =
    if_each IsBounded (crc32 (cells p 0 (section_bytes p)) == 0) _ _
      (if_each IsBounded (p 0 == 0x00) _ _ (process_pat-IsBounded p h.current_ns h v)
        (if_each IsBounded (p 0 == 0x02) _ _ (process_pmt-IsBounded pid p h.current_ns h v) v))
      (record { tracked = v.tracked; programs_fit = v.programs_fit; streams_fit = v.streams_fit })

section_filter_push-IsBounded :
    (pid : ℕ) (pkt : ℕ → ℕ) (r : DecodeResult) (h : Handle)
    → IsBounded h
    → IsBounded (section_filter_push pid pkt r h)
unfolding section_filter_push
section_filter_push-IsBounded pid pkt r h v = go (section_offset pkt (not (r.pusi == 0)))
  where
    go :
        (o : Option ℕ)
        → IsBounded (elim o as (λ x. Handle) [
          | none ↦ h
          | some start ↦ dispatch_section pid (λ i. pkt (start + i)) h
        ])
    go none = v
    go (some start) = dispatch_section-IsBounded pid _ h v

see_new_pid_programs : (h : Handle) (p : ℕ) → (see_new_pid h p).programs ≡ h.programs
unfolding see_new_pid precompile_pid_labels add_active
see_new_pid_programs h p = ground arith

update_pid_tracker_programs : (h : Handle) (p : ℕ) → (update_pid_tracker h p).programs ≡ h.programs
update_pid_tracker_programs h p = elim (Option-cases (h.pid_to_active_idx p)) [
  | inl e ↦ rw (update_pid_tracker_new h p e) (see_new_pid_programs h p)
  | inr (i, e) ↦ rw (update_pid_tracker_old h p i e) refl
]

update_pid_tracker-IsBounded :
    (h : Handle) (p : ℕ) → IsBounded h → IsBounded (update_pid_tracker h p)
update_pid_tracker-IsBounded h p v = record {
  tracked = update_pid_tracker-IsTracked h p v.tracked;
  programs_fit = rw (update_pid_tracker_programs h p) v.programs_fit;
  streams_fit = rw (update_pid_tracker_programs h p) v.streams_fit;
}

-- Whatever the packet holds, PSI processing keeps every array within its bounds: at most 128 active
-- PIDs, 16 programs and 32 streams in each program, with the PID index inverse to the list.
pub psi_process_packet-IsBounded :
    (pkt : ℕ → ℕ) (res : DecodeResult) (h : Handle)
    → IsBounded h
    → IsBounded (psi_process_packet pkt res h)
unfolding psi_process_packet
psi_process_packet-IsBounded pkt res h v =
    let kept = update_pid_tracker-IsBounded h res.pid v in
    if_each IsBounded ((res.pid == 0) || (update_pid_tracker h res.pid).pid_is_pmt res.pid) _ _
      (section_filter_push-IsBounded res.pid pkt res _ kept) kept
