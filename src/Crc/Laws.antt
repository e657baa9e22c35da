-- ===== src/Crc/Laws.antt =====
-- src/tsa_utils.c, `mpegts_crc32`: a section that ends in its CRC passes the check.
use tsanalyzer.Base.{
  ℕ, zero, suc, ◌+◌, ◌*◌, ◌/◌, ◌%◌, ◌^◌, ◌<◌, ◌≡◌, refl, ap, ◌∙◌, List, [], ◌∷◌, ◌++◌, arith,
}
use tsanalyzer.Crc.{crc_bit, crc_bits, crc_from, crc32}

-- A 32-bit number as it stands at the end of a section.
abbrev pub big_endian : ℕ → List ℕ
big_endian n = n / 2 ^ 24 % 256 ∷ n / 2 ^ 16 % 256 ∷ n / 2 ^ 8 % 256 ∷ n % 256 ∷ []

-- A bit that equals the top bit of the register only shifts.
crc_bit_shift : (crc bit : ℕ) → crc / 2 ^ 31 % 2 ≡ bit → crc_bit crc bit ≡ crc * 2 % 2 ^ 32
unfolding crc_bit
crc_bit_shift crc bit e = ground arith

-- As above, with the shifted register written out.
shift_to :
    (crc bit out : ℕ) → crc / 2 ^ 31 % 2 ≡ bit → crc * 2 % 2 ^ 32 ≡ out → crc_bit crc bit ≡ out
shift_to crc bit out e f = crc_bit_shift crc bit e ∙ f

-- The register when its top byte is `byte` and `rounds` bits of it are left to feed.
feed_bits :
    (byte rest : ℕ)
    → byte < 256
    → rest < 2 ^ 24
    → crc_bits 8 (byte * 2 ^ 24 + rest) byte ≡ rest * 256
unfolding crc_bits
feed_bits byte rest h r =
    ap (λ c. crc_bits 7 c byte)
      (shift_to _ _ (byte % 128 * 33554432 + rest * 2) (omega arith) (omega arith))
    ∙ ap (λ c. crc_bits 6 c byte)
        (shift_to _ _ (byte % 64 * 67108864 + rest * 4) (omega arith) (omega arith))
    ∙ ap (λ c. crc_bits 5 c byte)
        (shift_to _ _ (byte % 32 * 134217728 + rest * 8) (omega arith) (omega arith))
    ∙ ap (λ c. crc_bits 4 c byte)
        (shift_to _ _ (byte % 16 * 268435456 + rest * 16) (omega arith) (omega arith))
    ∙ ap (λ c. crc_bits 3 c byte)
        (shift_to _ _ (byte % 8 * 536870912 + rest * 32) (omega arith) (omega arith))
    ∙ ap (λ c. crc_bits 2 c byte)
        (shift_to _ _ (byte % 4 * 1073741824 + rest * 64) (omega arith) (omega arith))
    ∙ ap (λ c. crc_bits 1 c byte)
        (shift_to _ _ (byte % 2 * 2147483648 + rest * 128) (omega arith) (omega arith))
    ∙ shift_to _ _ (rest * 256) (omega arith) (omega arith)

-- Feeding the top byte of the register shifts the register by a byte.
feed_top :
    (crc byte out : ℕ)
    → crc < 2 ^ 32
    → byte ≡ crc / 2 ^ 24
    → crc % 2 ^ 24 * 256 ≡ out
    → crc_bits 8 crc byte ≡ out
feed_top crc byte out h e f =
    ap (λ c. crc_bits 8 c byte) (split-eq crc byte e)
    ∙ feed_bits byte (crc % 2 ^ 24) (omega arith) (omega arith)
    ∙ f
  where
    split-eq : (crc byte : ℕ) → byte ≡ crc / 2 ^ 24 → crc ≡ byte * 2 ^ 24 + crc % 2 ^ 24
    split-eq crc byte e = omega arith

-- Feeding the register its own four bytes leaves 0.
crc_from-big_endian : (crc : ℕ) → crc < 2 ^ 32 → crc_from crc (big_endian crc) ≡ 0
unfolding crc_from
crc_from-big_endian crc h =
    ap
      (λ c.
        crc_bits 8 (crc_bits 8 (crc_bits 8 c (crc / 2 ^ 16 % 256)) (crc / 2 ^ 8 % 256)) (crc % 256))
      (feed_top crc _ (crc % 2 ^ 24 * 256) h (omega arith) (omega arith))
    ∙ ap (λ c. crc_bits 8 (crc_bits 8 c (crc / 2 ^ 8 % 256)) (crc % 256))
        (feed_top (crc % 2 ^ 24 * 256) _ (crc % 2 ^ 16 * 2 ^ 16) (omega arith) (omega arith)
          (omega arith))
    ∙ ap (λ c. crc_bits 8 c (crc % 256))
        (feed_top (crc % 2 ^ 16 * 2 ^ 16) _ (crc % 2 ^ 8 * 2 ^ 24) (omega arith) (omega arith)
          (omega arith))
    ∙ feed_top (crc % 2 ^ 8 * 2 ^ 24) _ 0 (omega arith) (omega arith) (omega arith)

crc_bit_lt : (crc bit : ℕ) → crc_bit crc bit < 2 ^ 32
unfolding crc_bit
crc_bit_lt crc bit = ground arith

crc_bits_lt : (rounds crc byte : ℕ) → crc < 2 ^ 32 → crc_bits rounds crc byte < 2 ^ 32
unfolding crc_bits
crc_bits_lt zero crc byte h = h
crc_bits_lt (suc rounds) crc byte h = crc_bits_lt rounds (crc_bit crc _) byte (crc_bit_lt crc _)

crc_from_lt : (crc : ℕ) (bytes : List ℕ) → crc < 2 ^ 32 → crc_from crc bytes < 2 ^ 32
unfolding crc_from
crc_from_lt crc [] h = h
crc_from_lt crc (b ∷ bs) h = crc_from_lt (crc_bits 8 crc b) bs (crc_bits_lt 8 crc b h)

crc_from-append :
    (crc : ℕ) (xs ys : List ℕ) → crc_from crc (xs ++ ys) ≡ crc_from (crc_from crc xs) ys
unfolding crc_from
crc_from-append crc [] ys = refl
crc_from-append crc (x ∷ xs) ys = crc_from-append (crc_bits 8 crc x) xs ys

-- The CRC of any bytes is a 32-bit number.
crc32_lt : (bytes : List ℕ) → crc32 bytes < 2 ^ 32
unfolding crc32
crc32_lt bytes = crc_from_lt 0xffffffff bytes (omega arith)

-- Bytes followed by their own CRC, big-endian as MPEG-2 sends it, pass the check: the CRC of the
-- whole is 0.
pub crc32-big_endian : (bytes : List ℕ) → crc32 (bytes ++ big_endian (crc32 bytes)) ≡ 0
unfolding crc32
crc32-big_endian bytes =
    crc_from-append 0xffffffff bytes (big_endian (crc32 bytes))
    ∙ crc_from-big_endian (crc32 bytes) (crc32_lt bytes)
