-- ===== src/Pes.antt =====
-- src/tsa_utils.c, `tsa_parse_pes_header`: the header of a PES packet. The packet is memory from
-- `p` on; every read is at a constant offset from it.
pub mod Bounds
pub mod Stamps
use tsanalyzer.Base.{ℕ, ◌+◌, ◌*◌, ◌/◌, ◌%◌, ◌^◌, Bool, true, false, ◌||◌}
use tsanalyzer.Base.{ltb, leb, ◌==◌, if◌then◌else◌, not, ◌&&◌}

-- tsa_pes_header_t
pub record PesHeader : Type 0 where
  pub stream_id : ℕ
  pub has_pts : Bool
  pub has_dts : Bool
  pub pts : ℕ
  pub dts : ℕ
  pub header_len : ℕ

-- `b & 0x80` and `b & 0x40` as truth values
abbrev pub bit7 : ℕ → Bool
bit7 b = not ((b / 2 ^ 7 % 2) == 0)

abbrev pub bit6 : ℕ → Bool
bit6 b = not ((b / 2 ^ 6 % 2) == 0)

-- The streams whose packets have no optional header.
unfoldable pub is_bare : ℕ → Bool
is_bare stream_id =
    (stream_id == 0xBC)
    || (stream_id == 0xBE)
    || (stream_id == 0xBF)
    || (stream_id == 0xF0)
    || (stream_id == 0xF1)
    || (stream_id == 0xFF)
    || (stream_id == 0xF2)
    || (stream_id == 0xF8)

-- The five bytes of a stamp: three bits, eight, seven, eight and seven, the others markers. The
-- parts have no common bit, so `|` is a sum.
unfoldable pub stamp : (ℕ → ℕ) → ℕ → ℕ
stamp p at =
    p at / 2 % 8 * 2 ^ 30
    + p (at + 1) * 2 ^ 22
    + p (at + 2) / 2 * 2 ^ 15
    + p (at + 3) * 2 ^ 7
    + p (at + 4) / 2

unfoldable pub parse_pts : (ℕ → ℕ) → ℕ → PesHeader → PesHeader
parse_pts p len h =
    if h.has_pts && leb 14 len
    then record h {
      pts = stamp p 9;
      dts = if h.has_dts && leb 19 len then stamp p 14 else stamp p 9;
    }
    else h

unfoldable pub parse_optional : (ℕ → ℕ) → ℕ → PesHeader → Bool × PesHeader
parse_optional p len h = if ltb len 9 then (false, h) else (
  true,
  parse_pts p len (record h { has_pts = bit7 (p 7); has_dts = bit6 (p 7); header_len = 9 + p 8 }),
)

unfoldable pub parse_named : (ℕ → ℕ) → ℕ → PesHeader → Bool × PesHeader
parse_named p len h =
    if is_bare h.stream_id
    then (true, record h { has_pts = false; has_dts = false; header_len = 6 })
    else parse_optional p len h

-- -1 is `false`. The caller's structure is returned too: what is not assigned stays.
unfoldable pub parse_pes_header : (ℕ → ℕ) → ℕ → PesHeader → Bool × PesHeader
parse_pes_header p len h =
    if ltb len 6 || not (p 0 == 0) || not (p 1 == 0) || not (p 2 == 1)
    then (false, h)
    else parse_named p len (record h { stream_id = p 3 })
