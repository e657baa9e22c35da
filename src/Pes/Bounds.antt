-- ===== src/Pes/Bounds.antt =====
-- src/tsa_utils.c, `tsa_parse_pes_header`: which packets are refused, and what is read of them.
use tsanalyzer.Base.{
  ℕ, ◌+◌, ◌<◌, ◌≤◌, ◌≡◌, ap, refl, List, [], ◌∷◌, if◌then◌else◌, Bool, true, false, ◌&&◌, ◌||◌,
}
use tsanalyzer.Base.{ltb, leb, ◌==◌, Bool-cases, inl, inr, ◌⊎◌, arith}
use tsanalyzer.Pes.{PesHeader, is_bare, stamp, parse_pts, parse_optional, parse_named}
use tsanalyzer.Pes.{parse_pes_header}

-- The streams that ISO/IEC 13818-1 gives no optional header: program stream map, padding, private
-- stream 2, ECM, EMM, DSM-CC, H.222.1 type E and program stream directory.
abbrev pub header_free : List ℕ
header_free = 188 ∷ 190 ∷ 191 ∷ 240 ∷ 241 ∷ 242 ∷ 248 ∷ 255 ∷ []

-- A byte of a list.
unfoldable pub is_among : ℕ → List ℕ → Bool
is_among b [] = false
is_among b (c ∷ cs) = (b == c) || is_among b cs

-- Which packets the standard lets the parser read: the start code is there, and the fixed part of
-- the header of the packet's stream, which is 6 or 9 bytes.
abbrev pub is_readable : (ℕ → ℕ) → ℕ → Bool
is_readable p len =
    (p 0 == 0) && (p 1 == 0) && (p 2 == 1) && leb (if is_among (p 3) header_free then 6 else 9) len

-- One of eight tests holds, in either order.
or_turn :
    (a b c d e f g h : Bool)
    → (a || b || c || d || e || f || g || h)
      ≡ (a || (b || (c || (d || (e || (g || (h || (f || false))))))))
or_turn true b c d e f g h = refl
or_turn false true c d e f g h = refl
or_turn false false true d e f g h = refl
or_turn false false false true e f g h = refl
or_turn false false false false true f g h = refl
or_turn false false false false false true true h = refl
or_turn false false false false false true false true = refl
or_turn false false false false false true false false = refl
or_turn false false false false false false true h = refl
or_turn false false false false false false false true = refl
or_turn false false false false false false false false = refl

is_bare-header_free : (b : ℕ) → is_bare b ≡ is_among b header_free
unfolding is_bare is_among
is_bare-header_free b =
    or_turn (b == 188) (b == 190) (b == 191) (b == 240) (b == 241) (b == 255) (b == 242) (b == 248)

-- `tsa_parse_pes_header` accepts exactly the packets with a start code that are 6 bytes long if
-- their stream is one of the eight without an optional header, and 9 bytes long if not. The header
-- of an accepted packet has 6 bytes in the first case, and 9 more than its byte 8 says in the other;
-- on a packet that it refuses the caller's structure keeps its stamps, its flags and its length.
pub parse_pes_header-is_readable :
    (p : ℕ → ℕ) (len : ℕ) (h : PesHeader)
    → let (done, g) = parse_pes_header p len h in
      ((done ≡ true)
        × (is_readable p len ≡ true)
        × (g.stream_id ≡ p 3)
        × (g.header_len ≡ (if is_among (p 3) header_free then 6 else 9 + p 8)))
      ⊎ ((done ≡ false)
          × (is_readable p len ≡ false)
          × (g.pts ≡ h.pts)
          × (g.dts ≡ h.dts)
          × (g.has_pts ≡ h.has_pts)
          × (g.has_dts ≡ h.has_dts)
          × (g.header_len ≡ h.header_len))
unfolding parse_pes_header parse_named parse_optional parse_pts
parse_pes_header-is_readable p len h = ground (arith, is_bare-header_free (p 3))

-- Two memories that hold the same bytes up to the length.
abbrev pub Agree : (ℕ → ℕ) → (ℕ → ℕ) → ℕ → Type 0
Agree p q len = (i : ℕ) → i < len → p i ≡ q i

stamp-Agree : (p q : ℕ → ℕ) (len at : ℕ) → Agree p q len → at + 5 ≤ len → stamp p at ≡ stamp q at
unfolding stamp
stamp-Agree p q len at a h = rw (
  a at (omega arith),
  a (at + 1) (omega arith),
  a (at + 2) (omega arith),
  a (at + 3) (omega arith),
  a (at + 4) (omega arith),
)

parse_pts-Agree :
    (p q : ℕ → ℕ) (len : ℕ) (h : PesHeader) → Agree p q len → parse_pts p len h ≡ parse_pts q len h
unfolding parse_pts
parse_pts-Agree p q len h a = ground (arith, stamp-Agree p q len 9 a, stamp-Agree p q len 14 a)

parse_optional-Agree :
    (p q : ℕ → ℕ) (len : ℕ) (h : PesHeader)
    → Agree p q len
    → parse_optional p len h ≡ parse_optional q len h
unfolding parse_optional
parse_optional-Agree p q len h a = elim (Bool-cases (ltb len 9)) [
  | inl e ↦ rw e
  | inr e ↦
      let long : 9 ≤ len = ground arith in
      rw (e, a 7 (omega arith), a 8 (omega arith))
        (ap (λ g. (true, g)) (parse_pts-Agree p q len _ a))
]

-- `tsa_parse_pes_header` reads nothing past the length that it is given: on two memories that agree
-- up to that length it returns the same result and the same structure.
pub parse_pes_header-Agree :
    (p q : ℕ → ℕ) (len : ℕ) (h : PesHeader)
    → Agree p q len
    → parse_pes_header p len h ≡ parse_pes_header q len h
unfolding parse_pes_header parse_named
parse_pes_header-Agree p q len h a = elim (Bool-cases (ltb len 6)) [
  | inl e ↦ rw e
  | inr e ↦
      let long : 6 ≤ len = ground arith in
      rw (
        e,
        a 0 (omega arith),
        a 1 (omega arith),
        a 2 (omega arith),
        a 3 (omega arith),
        parse_optional-Agree p q len (record h { stream_id = q 3 }) a,
      )
]
