-- ===== src/Bitstream/Reader.antt =====
-- include/tsa_bitstream.h: the reader runs short of bits only at the end of its bytes.
use tsanalyzer.Base.{
  ℕ, ◌+◌, ◌-◌, ◌*◌, ◌^◌, ◌<◌, ◌≤◌, ◌≡◌, refl, List, [], ◌∷◌, false, ◌||◌, ◌⊎◌, inl, inr, ltb, leb,
  ◌==◌, length, arith, u64, Bool-cases,
}
use tsanalyzer.Bitstream.{BitReader, refill_from, refill, init, top_bits, read}

-- The bits that are still to come.
abbrev pub available : BitReader → ℕ
available r = r.bits_left + 8 * length r.bytes

-- The cache holds at most 64 bits, and no further byte fits unless there is none.
pub record IsFilled (r : BitReader) : Type 0 where
  pub small : r.bits_left ≤ 64
  pub filled : (56 < r.bits_left) ⊎ (length r.bytes ≡ 0)

refill_from-IsFilled :
    (bs : List ℕ) (cache bits_left : ℕ)
    → bits_left ≤ 64
    → IsFilled (refill_from bs cache bits_left)
      × (available (refill_from bs cache bits_left) ≡ bits_left + 8 * length bs)
unfolding refill_from
refill_from-IsFilled [] cache bits_left h = (record { small = h; filled = inr refl }, refl)
refill_from-IsFilled (b ∷ bs) cache bits_left h = elim (Bool-cases (leb bits_left 56)) [
  | inl e ↦
      let (v, kept) =
        refill_from-IsFilled bs (u64 (cache * 2 ^ 8 + b)) (bits_left + 8) (ground arith) in
      rw e (v, omega (arith, kept))
  | inr e ↦ rw e (record { small = h; filled = inl (ground arith) }, refl)
]

-- A reader starts with all the bits of its bytes.
pub init-IsFilled :
    (bytes : List ℕ) → IsFilled (init bytes) × (available (init bytes) ≡ 8 * length bytes)
unfolding init refill
init-IsFilled bytes =
    let (v, kept) = refill_from-IsFilled bytes 0 0 (omega arith) in (v, omega (arith, kept))

pub long_enough :
    (r : BitReader) (n : ℕ)
    → IsFilled r
    → 0 < n
    → n ≤ 57
    → n ≤ available r
    → ((n == 0) || ltb r.bits_left n) ≡ false
long_enough r n v pos_n small enough = ground (arith, v.filled)

-- A read of 1 to 57 bits, when so many are still to come, does not fail at the cache's border: it
-- gives the highest bits of the cache, takes as many as it gives, and leaves the reader filled.
pub read-available :
    (r : BitReader) (n : ℕ)
    → IsFilled r
    → 0 < n
    → n ≤ 57
    → n ≤ available r
    → ((read r n).0 ≡ top_bits r n)
      × IsFilled (read r n).1
      × (available (read r n).1 + n ≡ available r)
unfolding read refill
read-available r n v pos_n small enough = rw (long_enough r n v pos_n small enough) (
    let (filled, kept) =
      refill_from-IsFilled r.bytes r.cache (r.bits_left - n) (omega (arith, v.small)) in
    (refl, filled, omega (arith, kept, v.filled)))
