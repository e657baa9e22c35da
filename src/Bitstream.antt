-- ===== src/Bitstream.antt =====
-- include/tsa_bitstream.h: the bit reader and the PCR of a packet. The bytes from `buf` to
-- `buf_end` are a list.
pub mod Reader
pub mod Value
pub mod Pcr
use tsanalyzer.Base.{
  ℕ, zero, suc, ◌+◌, ◌-◌, ◌*◌, ◌/◌, ◌%◌, ◌^◌, List, [], ◌∷◌, Bool, true, false, not, ◌||◌, ◌&&◌,
  Option, none, some, ltb, leb, ◌==◌, if◌then◌else◌, u32, u64,
}
use tsanalyzer.Base.Int.{ℤ, pos, sub_ℕ}

-- bit_reader_t
pub record BitReader : Type 0 where
  pub bytes : List ℕ
  pub cache : ℕ
  pub bits_left : ℕ

-- The loop of br_refill.
unfoldable pub refill_from : List ℕ → ℕ → ℕ → BitReader
refill_from [] cache bits_left = record { bytes = []; cache = cache; bits_left = bits_left }
refill_from (b ∷ bs) cache bits_left =
    let rest = refill_from bs (u64 (cache * 2 ^ 8 + b)) (bits_left + 8) in
    if leb bits_left 56
    then rest
    else record { bytes = b ∷ bs; cache = cache; bits_left = bits_left }

-- br_refill
unfoldable pub refill : BitReader → BitReader
refill r = refill_from r.bytes r.cache r.bits_left

-- br_init
unfoldable pub init : List ℕ → BitReader
init bytes = refill (record { bytes = bytes; cache = 0; bits_left = 0 })

-- The `n` highest bits of the cache.
unfoldable pub top_bits : BitReader → ℕ → ℕ
top_bits r n = u32 (r.cache / 2 ^ (r.bits_left - n) % 2 ^ n)

-- br_peek
unfoldable pub peek : BitReader → ℕ → ℕ
peek r n = if (n == 0) || ltb r.bits_left n then 0 else top_bits r n

-- br_skip; the subtraction stops at 0, as the code's test makes it
unfoldable pub skip : BitReader → ℕ → BitReader
skip r n = refill (record r { bits_left = r.bits_left - n })

-- br_read, with the reader after it
unfoldable pub read : BitReader → ℕ → ℕ × BitReader
read r n =
    if (n == 0) || ltb r.bits_left n
    then (0, r)
    else (top_bits r n, refill (record r { bits_left = r.bits_left - n }))

-- The loop of br_read_ue, at most 32 times: the zeros counted and the reader at the first one.
unfoldable pub skip_zeros : ℕ → ℕ → BitReader → ℕ × BitReader
skip_zeros zero zeros r = (zeros, r)
skip_zeros (suc fuel) zeros r =
    let rest = skip_zeros fuel (zeros + 1) (skip r 1) in
    if ltb 0 r.bits_left && (peek r 1 == 0) then rest else (zeros, r)

-- br_read_ue. In C the shift `1 << zeros` is undefined for 31 and 32 zeros; here it is 2^zeros.
unfoldable pub read_ue : BitReader → ℕ × BitReader
read_ue r =
    let counted = skip_zeros 32 0 r in
    let zeros = counted.0 in
    let r₁ = if ltb 0 counted.1.bits_left then skip counted.1 1 else counted.1 in
    let last = read r₁ zeros in (u32 (2 ^ zeros - 1 + last.0), last.1)

-- br_read_se
unfoldable pub read_se : BitReader → ℤ × BitReader
read_se r =
    let ue = read_ue r in
    (if ue.0 % 2 == 0 then sub_ℕ 0 (ue.0 / 2) else pos (u32 (ue.0 + 1) / 2), ue.1)

-- tsa_pkt_get_pcr, `none` for INVALID_PCR
unfoldable pub pkt_get_pcr : (ℕ → ℕ) → Option ℕ
pkt_get_pcr pkt =
    if not (pkt 0 == 0x47)
    then none
    else if (pkt 3 / 2 ^ 5 % 2 == 0) || ltb (pkt 4) 2
    then none
    else if pkt 5 / 2 ^ 4 % 2 == 0
    then none
    else let base = pkt 6 * 2 ^ 25 + pkt 7 * 2 ^ 17 + pkt 8 * 2 ^ 9 + pkt 9 * 2 + pkt 10 / 2 ^ 7 in
      let ext = pkt 10 % 2 * 2 ^ 8 + pkt 11 in some (base * 300 + ext)

-- tsa_pcr_to_ns
unfoldable pub pcr_to_ns : Option ℕ → ℕ
pcr_to_ns none = 0
pcr_to_ns (some pcr_ticks) = u64 (pcr_ticks * 1000) / 27
