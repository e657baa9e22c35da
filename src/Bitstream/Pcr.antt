-- ===== src/Bitstream/Pcr.antt =====
-- include/tsa_bitstream.h, `tsa_pkt_get_pcr`: a PCR put into a packet is read back.
use tsanalyzer.Base.{
  ℕ, ◌+◌, ◌*◌, ◌/◌, ◌%◌, ◌^◌, ◌<◌, ◌≤◌, ◌≡◌, List, [], ◌∷◌, some, ltb-false, ap, HasBytes, arith,
}
use tsanalyzer.Bitstream.{pkt_get_pcr}

-- The six bytes of a PCR: 33 bits of the base, 6 reserved bits that are set, 9 bits of the extension.
abbrev pub pcr_bytes : ℕ → List ℕ
pcr_bytes pcr =
    let base = pcr / 300 in
    let ext = pcr % 300 in
    base / 2 ^ 25
    ∷ (base / 2 ^ 17 % 256)
    ∷ (base / 2 ^ 9 % 256)
    ∷ (base / 2 % 256)
    ∷ (base % 2 * 2 ^ 7 + 0x7E + ext / 256)
    ∷ (ext % 256)
    ∷ []

-- A packet with the sync byte, an adaptation field of more than one byte and the PCR flag set,
-- whose PCR field holds the bytes of a PCR below 2^33 * 300, gives that PCR back.
pub pkt_get_pcr-pcr_bytes :
    (pkt : ℕ → ℕ) (pcr : ℕ)
    → pcr < 2 ^ 33 * 300
    → pkt 0 ≡ 0x47
    → pkt 3 / 2 ^ 5 % 2 ≡ 1
    → 2 ≤ pkt 4
    → pkt 5 / 2 ^ 4 % 2 ≡ 1
    → HasBytes pkt 6 (pcr_bytes pcr)
    → pkt_get_pcr pkt ≡ some pcr
unfolding pkt_get_pcr
pkt_get_pcr-pcr_bytes pkt pcr small sync field long flag h =
    rw
      (
        sync,
        field,
        flag,
        ltb-false (pkt 4) 2 long,
        h.0,
        h.1.0,
        h.1.1.0,
        h.1.1.1.0,
        h.1.1.1.1.0,
        h.1.1.1.1.1.0,
      )
      (ap some (same pcr small))
  where
    same :
        (pcr : ℕ)
        → pcr < 2 ^ 33 * 300
        → (pcr / 300 / 2 ^ 25 * 2 ^ 25
                + pcr / 300 / 2 ^ 17 % 256 * 2 ^ 17
                + pcr / 300 / 2 ^ 9 % 256 * 2 ^ 9
                + pcr / 300 / 2 % 256 * 2
                + (pcr / 300 % 2 * 2 ^ 7 + 0x7E + pcr % 300 / 256) / 2 ^ 7)
              * 300
            + ((pcr / 300 % 2 * 2 ^ 7 + 0x7E + pcr % 300 / 256) % 2 * 2 ^ 8 + pcr % 300 % 256)
          ≡ pcr
    same pcr small = omega arith
