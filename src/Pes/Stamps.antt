-- ===== src/Pes/Stamps.antt =====
-- src/tsa_utils.c, `tsa_parse_pes_header`: the time stamps that a writer of ISO/IEC 13818-1 put
-- into a header are those that the parser returns.
use tsanalyzer.Base.{
  ℕ, ◌+◌, ◌*◌, ◌/◌, ◌%◌, ◌^◌, ◌<◌, ◌≤◌, ◌≡◌, sym, ap, ltb-false, leb, ◌∙◌, List, [], ◌∷◌,
}
use tsanalyzer.Base.{true, false, HasBytes, arith}
use tsanalyzer.Pes.{PesHeader, is_bare, stamp, parse_pts, parse_optional, parse_named}
use tsanalyzer.Pes.{parse_pes_header}

-- A stamp of 33 bits after a four-bit prefix, with its marker bits set.
unfoldable pub encode_stamp : ℕ → ℕ → List ℕ
encode_stamp prefix t =
    (prefix * 16 + t / 2 ^ 30 * 2 + 1)
    ∷ (t / 2 ^ 22 % 2 ^ 8)
    ∷ (t / 2 ^ 15 % 2 ^ 7 * 2 + 1)
    ∷ (t / 2 ^ 7 % 2 ^ 8)
    ∷ (t % 2 ^ 7 * 2 + 1)
    ∷ []

-- The start of a packet that carries both stamps: the start code, the stream, two bytes of length,
-- the flags and the length of the rest of the header; the stamps follow.
unfoldable pub encode_start : ℕ → ℕ → ℕ → List ℕ
encode_start id high low = 0 ∷ 0 ∷ 1 ∷ id ∷ high ∷ low ∷ 0x80 ∷ 0xC0 ∷ 10 ∷ []

-- Any stamp that fits is read back.
stamp-encode_stamp :
    (p : ℕ → ℕ) (at prefix t : ℕ)
    → t < 2 ^ 33
    → HasBytes p at (encode_stamp prefix t)
    → stamp p at ≡ t
unfolding stamp encode_stamp
stamp-encode_stamp p at prefix t small h =
    let a2 : at + 1 + 1 ≡ at + 2 = omega arith in
    let a3 : at + 1 + 1 + 1 ≡ at + 3 = omega arith in
    let a4 : at + 1 + 1 + 1 + 1 ≡ at + 4 = omega arith in
    let b2 : p (at + 2) ≡ t / 2 ^ 15 % 2 ^ 7 * 2 + 1 = sym (ap p a2) ∙ h.1.1.0 in
    let b3 : p (at + 3) ≡ t / 2 ^ 7 % 2 ^ 8 = sym (ap p a3) ∙ h.1.1.1.0 in
    let b4 : p (at + 4) ≡ t % 2 ^ 7 * 2 + 1 = sym (ap p a4) ∙ h.1.1.1.1.0 in
    omega (arith, h.0, h.1.0)

parse_start :
    (p : ℕ → ℕ) (len id high low : ℕ) (h : PesHeader)
    → is_bare id ≡ false
    → 19 ≤ len
    → HasBytes p 0 (encode_start id high low)
    → parse_pes_header p len h ≡ (
      true,
      record {
        stream_id = id;
        has_pts = true;
        has_dts = true;
        pts = stamp p 9;
        dts = stamp p 14;
        header_len = 19;
      },
    )
unfolding parse_pes_header parse_named parse_optional parse_pts encode_start
parse_start p len id high low h named long bytes =
    let pts_in : leb 14 len ≡ true = ground arith in
    let dts_in : leb 19 len ≡ true = ground arith in
    rw
      (
        bytes.0,
        bytes.1.0,
        bytes.1.1.0,
        bytes.1.1.1.0,
        bytes.1.1.1.1.1.1.1.0,
        bytes.1.1.1.1.1.1.1.1.0,
        named,
        ltb-false len 6 (omega arith),
        ltb-false len 9 (omega arith),
      )
      (rw (pts_in, dts_in))

-- A header with both stamps, written for a stream that has the optional header and for stamps of 33
-- bits, and present in full, is accepted; the parser returns the stream, both stamps and the length
-- of the header, whatever the caller's structure held.
pub parse_pes_header-encode_start :
    (p : ℕ → ℕ) (len id high low pts dts : ℕ) (h : PesHeader)
    → is_bare id ≡ false
    → 19 ≤ len
    → pts < 2 ^ 33
    → dts < 2 ^ 33
    → HasBytes p 0 (encode_start id high low)
    → HasBytes p 9 (encode_stamp 3 pts)
    → HasBytes p 14 (encode_stamp 1 dts)
    → parse_pes_header p len h ≡ (
      true,
      record {
        stream_id = id;
        has_pts = true;
        has_dts = true;
        pts = pts;
        dts = dts;
        header_len = 19;
      },
    )
parse_pes_header-encode_start p len id high low pts dts h named long small_p small_d start at_p
      at_d =
    parse_start p len id high low h named long start
    ∙ rw (stamp-encode_stamp p 9 3 pts small_p at_p, stamp-encode_stamp p 14 1 dts small_d at_d)
