-- ===== src/Psi/Sections.antt =====
-- src/tsa_psi.c, `process_pmt`: the loop over the streams ends, and it reads what a section holds.
pub mod RoundTrip
use tsanalyzer.Base.{
  ℕ, zero, suc, ◌+◌, ◌-◌, ◌*◌, ◌/◌, ◌%◌, ◌<◌, ◌≤◌, ◌≡◌, ◌≢◌, refl, sym, ap, ◌∙◌, List, [], ◌∷◌,
  ◌++◌, Bool, true, false, Option, none, some, arith, map,
}
use tsanalyzer.Base.{
  ltb, leb, ◌==◌, if◌then◌else◌, length, length-append, length-map, append-nil, append_assoc,
  Bool-cases, inl, inr, update, lt→ltb, dec_lt, subst, HasBytes, HasBytes-tail,
}
use tsanalyzer.Handle.{Handle, StreamInfo, ProgramInfo}
use tsanalyzer.Psi.{
  field, section_bytes, max_streams_per_prog, type_of_stream, Scan, register_stream, scan_streams,
  pmt_scan, pmt_programs, process_pmt,
}

-- One round of the loop.
scan_more :
    (fuel : ℕ) (p : ℕ → ℕ) (sl offset : ℕ) (s : Scan)
    → offset + 4 < sl
    → scan_streams (suc fuel) p sl offset s
      ≡ scan_streams fuel p sl
          (offset + (5 + field 16 p (offset + 3)))
          (register_stream (p offset) (field 32 p (offset + 1)) s)
unfolding scan_streams
scan_more fuel p sl offset s h =
    ap
      (λ b. elim b [
        | true ↦
            scan_streams fuel p sl (offset + (5 + field 16 p (offset + 3)))
              (register_stream (p offset) (field 32 p (offset + 1)) s)
        | false ↦ s
      ])
      (lt→ltb (offset + 4) sl h)

scan_done :
    (fuel : ℕ) (p : ℕ → ℕ) (sl offset : ℕ) (s : Scan)
    → sl ≤ offset + 4
    → scan_streams fuel p sl offset s ≡ s
unfolding scan_streams
scan_done zero p sl offset s h = refl
scan_done (suc fuel) p sl offset s h =
    ap
      (λ b. elim b [
        | true ↦
            scan_streams fuel p sl (offset + (5 + field 16 p (offset + 3)))
              (register_stream (p offset) (field 32 p (offset + 1)) s)
        | false ↦ s
      ])
      (not_lt (offset + 4) sl h)
  where
    not_lt : (a b : ℕ) → b ≤ a → ltb a b ≡ false
    not_lt a b h = ground arith

-- On any memory the loop ends by its own test: rounds beyond one for each byte of the section
-- change nothing.
pub scan_streams-fuel :
    (fuel total : ℕ) (p : ℕ → ℕ) (sl offset : ℕ) (s : Scan)
    → fuel ≤ total
    → sl ≤ offset + fuel
    → scan_streams total p sl offset s ≡ scan_streams fuel p sl offset s
scan_streams-fuel zero total p sl offset s le h =
    scan_done total p sl offset s (omega arith) ∙ sym (scan_done zero p sl offset s (omega arith))
scan_streams-fuel (suc fuel) zero p sl offset s le h = absurd (omega arith)
scan_streams-fuel (suc fuel) (suc total) p sl offset s le h = elim (dec_lt (offset + 4) sl) [
  | yes e ↦
      scan_more total p sl offset s e
      ∙ scan_streams-fuel fuel total p sl _ _ (omega arith) (omega arith)
      ∙ sym (scan_more fuel p sl offset s e)
  | no e ↦
      scan_done (suc total) p sl offset s (omega arith)
      ∙ sym (scan_done (suc fuel) p sl offset s (omega arith))
]

-- A stream as a PMT lists it.
pub record Entry : Type 0 where
  pub type : ℕ
  pub es_pid : ℕ
  pub descriptors : List ℕ

unfoldable pub entry_bytes : Entry → List ℕ
entry_bytes e =
    e.type
    ∷ (0xE0 + e.es_pid / 256)
    ∷ (e.es_pid % 256)
    ∷ (0xF0 + length e.descriptors / 256)
    ∷ (length e.descriptors % 256)
    ∷ e.descriptors

unfoldable pub entries_bytes : List Entry → List ℕ
entries_bytes [] = []
entries_bytes (e ∷ es) = entry_bytes e ++ entries_bytes es

-- PIDs have 13 bits, and the length of the descriptors has 12.
abbrev pub AllFit : List Entry → Type 0
AllFit [] = Unit
AllFit (e ∷ es) = (e.es_pid < 8192) × (length e.descriptors < 4096) × AllFit es

unfoldable pub register_all : List Entry → Scan → Scan
register_all [] s = s
register_all (e ∷ es) s = register_all es (register_stream e.type e.es_pid s)

-- What a round reads of an encoded stream, and what is left.
entry_bytes_read :
    (e : Entry) (p : ℕ → ℕ) (offset : ℕ) (rest : List ℕ)
    → e.es_pid < 8192
    → length e.descriptors < 4096
    → HasBytes p offset (entry_bytes e ++ rest)
    → (p offset ≡ e.type)
      × (field 32 p (offset + 1) ≡ e.es_pid)
      × (field 16 p (offset + 3) ≡ length e.descriptors)
      × HasBytes p (offset + (5 + length e.descriptors)) rest
unfolding entry_bytes
entry_bytes_read e p offset rest hp hl h = (
  h.0,
  read_pid _ _ _ hp h.1.0 h.1.1.0,
  read_length offset (length e.descriptors) hl (ap p (omega arith) ∙ h.1.1.1.0)
      (ap p (omega arith) ∙ h.1.1.1.1.0),
  subst (λ a. HasBytes p a rest) (omega arith) (HasBytes-tail p offset (entry_bytes e) rest h),
)
  where
    read_pid :
        (hi lo n : ℕ) → n < 8192 → hi ≡ 0xE0 + n / 256 → lo ≡ n % 256 → hi % 32 * 256 + lo ≡ n
    read_pid hi lo n h a b = omega arith

    read_length :
        (at n : ℕ)
        → n < 4096
        → p (at + 3) ≡ 0xF0 + n / 256
        → p (at + 3 + 1) ≡ n % 256
        → field 16 p (at + 3) ≡ n
    read_length at n h a b = omega arith

length-entry_bytes :
    (e : Entry) (rest : List ℕ)
    → length (entry_bytes e ++ rest) ≡ 5 + length e.descriptors + length rest
unfolding entry_bytes
length-entry_bytes e rest = omega (arith, length-append e.descriptors rest)

-- The loop over an encoded list of streams takes up each of them, in order.
scan-entries_bytes :
    (es : List Entry) (fuel : ℕ) (p : ℕ → ℕ) (offset : ℕ) (s : Scan)
    → AllFit es
    → HasBytes p offset (entries_bytes es)
    → length es ≤ fuel
    → scan_streams fuel p (offset + length (entries_bytes es) + 4) offset s ≡ register_all es s
unfolding register_all entries_bytes
scan-entries_bytes [] fuel p offset s fit h le = scan_done fuel p _ offset s (omega arith)
scan-entries_bytes (e ∷ es) zero p offset s fit h le = absurd (omega arith)
scan-entries_bytes (e ∷ es) (suc fuel) p offset s fit h le =
    let (pid_fits, descriptors_fit, rest_fit) = fit in
    let (type_eq, pid_eq, length_eq, rest_held) =
      entry_bytes_read e p offset (entries_bytes es) pid_fits descriptors_fit h in
    scan_more fuel p _ offset s (omega (arith, length-entry_bytes e (entries_bytes es)))
    ∙ rw (type_eq, pid_eq, length_eq)
        (ap
            (λ sl.
              scan_streams fuel p sl (offset + (5 + length e.descriptors))
                (register_stream e.type e.es_pid s))
            (omega (arith, length-entry_bytes e (entries_bytes es)))
          ∙ scan-entries_bytes es fuel p (offset + (5 + length e.descriptors)) _ rest_fit rest_held
              (omega arith))
