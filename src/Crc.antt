-- ===== src/Crc.antt =====
-- src/tsa_utils.c, `mpegts_crc32`: the CRC of MPEG-2 sections, one bit at a time.
pub mod Laws
use tsanalyzer.Base.{ℕ, zero, suc, ◌+◌, ◌-◌, ◌*◌, ◌/◌, ◌%◌, ◌^◌, List, [], ◌∷◌, ◌==◌, if◌then◌else◌}
use Prim.Native.Nat.{bit_xor}

-- One bit of input: `msb ^ bit` is not 0 exactly if the two differ.
unfoldable pub crc_bit : ℕ → ℕ → ℕ
crc_bit crc bit =
    let msb = crc / 2 ^ 31 % 2 in
    let shifted = crc * 2 % 2 ^ 32 in
    if msb == bit then shifted else bit_xor shifted 0x04c11db7 % 2 ^ 32

-- The inner loop, `rounds` bits of `byte` from the top of the `rounds` lowest ones down.
unfoldable pub crc_bits : ℕ → ℕ → ℕ → ℕ
crc_bits zero crc byte = crc
crc_bits (suc rounds) crc byte = crc_bits rounds (crc_bit crc (byte / 2 ^ rounds % 2)) byte

unfoldable pub crc_from : ℕ → List ℕ → ℕ
crc_from crc [] = crc
crc_from crc (b ∷ bs) = crc_from (crc_bits 8 crc b) bs

-- mpegts_crc32, and tsa_crc32_check, which calls it
unfoldable pub crc32 : List ℕ → ℕ
crc32 bytes = crc_from 0xffffffff bytes
