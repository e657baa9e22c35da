-- ===== src/Psi/Sections/RoundTrip.antt =====
-- src/tsa_psi.c, `process_pmt`: what a section lists is what the program's streams become.
use tsanalyzer.Base.{
  ℕ, zero, suc, ◌+◌, ◌≤◌, ◌≡◌, refl, sym, ap, ◌∙◌, List, [], ◌∷◌, ◌++◌, Option, none, some, arith,
  map,
}
use tsanalyzer.Base.{
  ltb, ◌==◌, if◌then◌else◌, length, length-append, take, take-append, append-nil, append_assoc,
  Bool-cases, inl, inr, HasBytes,
}
use tsanalyzer.Handle.{Handle, StreamInfo, ProgramInfo}
use tsanalyzer.Psi.{
  field, section_bytes, max_streams_per_prog, Scan, register_stream, scan_streams, pmt_scan,
  pmt_programs, process_pmt,
}
use tsanalyzer.Psi.Sections.{
  Entry, entries_bytes, AllFit, register_all, scan-entries_bytes, length-entry_bytes,
}

abbrev pub stream_of : Entry → StreamInfo
stream_of e = record { pid = e.es_pid; stream_type = e.type }

-- The section in memory lists those streams, after the descriptors of the program and before the CRC.
pub record Lists (p : ℕ → ℕ) (es : List Entry) : Type 0 where
  pub fit : AllFit es
  pub size : section_bytes p ≡ 12 + field 16 p 10 + length (entries_bytes es) + 4
  pub held : HasBytes p (12 + field 16 p 10) (entries_bytes es)

take_full {ℓ} : {A : Type ℓ} (n : ℕ) (xs ys : List A) → length xs ≡ n → take n (xs ++ ys) ≡ xs
take_full n xs ys e = ap (λ k. take k (xs ++ ys)) (sym e) ∙ take-append xs ys

take_short {ℓ} : {A : Type ℓ} (n : ℕ) (xs : List A) → length xs ≤ n → take n xs ≡ xs
take_short zero [] h = refl
take_short zero (x ∷ xs) h = absurd (omega arith)
take_short (suc n) [] h = refl
take_short (suc n) (x ∷ xs) h = ap (λ l. x ∷ l) (take_short n xs (omega arith))

-- The array of streams never overflows.
pub register_stream_fits :
    (type es_pid : ℕ) (s : Scan)
    → length s.streams ≤ max_streams_per_prog
    → length (register_stream type es_pid s).streams ≤ max_streams_per_prog
unfolding register_stream
register_stream_fits type es_pid s h =
    ground (arith, length-append s.streams (record { pid = es_pid; stream_type = type } ∷ []))

take-register_stream :
    (e : Entry) (s : Scan) (rest : List StreamInfo)
    → length s.streams ≤ max_streams_per_prog
    → take max_streams_per_prog ((register_stream e.type e.es_pid s).streams ++ rest)
      ≡ take max_streams_per_prog (s.streams ++ (stream_of e ∷ rest))
unfolding register_stream
take-register_stream e s rest h = elim (Bool-cases (ltb (length s.streams) max_streams_per_prog)) [
  | inl b ↦ rw b (ap (take max_streams_per_prog) (append_assoc s.streams (stream_of e ∷ []) rest))
  | inr b ↦ rw b (
      take_full max_streams_per_prog s.streams rest (ground arith)
      ∙ sym (take_full max_streams_per_prog s.streams (stream_of e ∷ rest) (ground arith)))
]

-- The first 32 streams are kept.
streams-register_all :
    (es : List Entry) (s : Scan)
    → length s.streams ≤ max_streams_per_prog
    → (register_all es s).streams ≡ take max_streams_per_prog (s.streams ++ map stream_of es)
unfolding register_all
streams-register_all [] s h = sym (
    ap (take max_streams_per_prog) (append-nil s.streams)
    ∙ take_short max_streams_per_prog s.streams h)
streams-register_all (e ∷ es) s h =
    streams-register_all es (register_stream e.type e.es_pid s)
      (register_stream_fits e.type e.es_pid s h)
    ∙ take-register_stream e s (map stream_of es) h

length-entries_bytes : (es : List Entry) → length es ≤ length (entries_bytes es)
unfolding entries_bytes
length-entries_bytes [] = omega arith
length-entries_bytes (e ∷ es) =
    omega (arith, length-entries_bytes es, length-entry_bytes e (entries_bytes es))

pmt_scan_reads :
    (p : ℕ → ℕ) (types : ℕ → ℕ) (es : List Entry)
    → Lists p es
    → (pmt_scan p types).streams ≡ take max_streams_per_prog (map stream_of es)
unfolding pmt_scan
pmt_scan_reads p types es l =
    ap
      (λ sl.
        (scan_streams (section_bytes p) p sl (12 + field 16 p 10)
          (record { pid_types = types; streams = [] })).streams)
      l.size
    ∙ ap (λ s. s.streams)
        (scan-entries_bytes es (section_bytes p) p (12 + field 16 p 10) _ l.fit l.held
          (omega (arith, l.size, length-entries_bytes es)))
    ∙ streams-register_all es _ (omega arith)

-- The program that a PID's sections are about: the first one with that PID.
unfoldable pub program_on : ℕ → List ProgramInfo → Option ProgramInfo
program_on pid [] = none
program_on pid (g ∷ gs) = if g.pmt_pid == pid then some g else program_on pid gs

program_on-pmt_programs :
    (pid : ℕ) (p : ℕ → ℕ) (now : ℕ) (types : ℕ → ℕ) (gs : List ProgramInfo) (g : ProgramInfo)
    → program_on pid gs ≡ some g
    → program_on pid (pmt_programs pid p now types gs).0
      ≡ some (record g { last_pmt_ns = now; streams = (pmt_scan p types).streams })
unfolding program_on pmt_programs
program_on-pmt_programs pid p now types [] g e = cc
program_on-pmt_programs pid p now types (f ∷ gs) g e = elim (Bool-cases (f.pmt_pid == pid)) [
  | inl b ↦
      rw (b, b)
        (ap
          (λ o. elim o [
            | none ↦ none
            | some k ↦ some (record k { last_pmt_ns = now; streams = (pmt_scan p types).streams })
          ])
          (sym (ap (λ t. if t then some f else program_on pid gs) b) ∙ e))
  | inr b ↦
      rw (b, b)
        (program_on-pmt_programs pid p now types gs g
          (sym (ap (λ t. if t then some f else program_on pid gs) b) ∙ e))
]

-- A PMT section sets the streams of the program on its PID to those that the section lists, in
-- their order, of which the first 32 are kept; the program is the first one with that PID.
pub process_pmt_reads :
    (h : Handle) (pid : ℕ) (p : ℕ → ℕ) (now : ℕ) (g : ProgramInfo) (es : List Entry)
    → program_on pid h.programs ≡ some g
    → Lists p es
    → program_on pid (process_pmt pid p now h).programs
      ≡ some
          (record g { last_pmt_ns = now; streams = take max_streams_per_prog (map stream_of es) })
unfolding process_pmt
process_pmt_reads h pid p now g es e l =
    program_on-pmt_programs pid p now h.pid_types h.programs g e
    ∙ ap (λ s. some (record g { last_pmt_ns = now; streams = s }))
        (pmt_scan_reads p h.pid_types es l)
