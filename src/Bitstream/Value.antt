-- ===== src/Bitstream/Value.antt =====
-- include/tsa_bitstream.h: the bits that a reader gives are those of its bytes, in their order.
use tsanalyzer.Base.{
  ℕ, suc, ◌+◌, ◌-◌, ◌*◌, ◌/◌, ◌%◌, ◌^◌, ◌<◌, ◌≤◌, ◌≡◌, refl, sym, ap, ap₂, ◌∙◌, subst, List, [],
  ◌∷◌, false, ◌||◌, inl, inr, ltb, leb, ◌==◌, length, arith, u32, u64, Bool-cases,
}
use tsanalyzer.Base.Powers.{
  div_of_sum, mod_of_sum, lt_of_parts, mod-div, mod-mod_product, mod_product, mod_shift, pow_pos,
  pow-add,
}
use native.Mathlib.Nat.{mod-lt, mod-eq_of_lt, div-div-eq-div-mul, pow-le-pow_right}
use tsanalyzer.Bitstream.{BitReader, refill_from, refill, init, top_bits, read}
use tsanalyzer.Bitstream.Reader.{available, IsFilled, long_enough, read-available}

-- The number that bytes are, the first the highest.
unfoldable pub number : List ℕ → ℕ
number [] = 0
number (b ∷ bs) = b * 2 ^ (8 * length bs) + number bs

abbrev pub AllBytes : List ℕ → Type 0
AllBytes [] = Unit {0}
AllBytes (b ∷ bs) = (b < 256) × AllBytes bs

-- The number that the bits to come are: those in the cache, and then the bytes.
unfoldable pub pending : BitReader → ℕ
pending r = r.cache % 2 ^ r.bits_left * 2 ^ (8 * length r.bytes) + number r.bytes

eight_more : (n : ℕ) → 2 ^ (8 * suc n) ≡ 2 ^ (8 * n) * 256
eight_more n =
    let more : 8 * suc n ≡ 8 * n + 8 = omega arith in ap (λ k. 2 ^ k) more ∙ pow-add (8 * n) 8

number-lt : (bs : List ℕ) → AllBytes bs → number bs < 2 ^ (8 * length bs)
unfolding number
number-lt [] h = omega arith
number-lt (b ∷ bs) h =
    let small : b * 2 ^ (8 * length bs) + number bs < 2 ^ (8 * length bs) * 256 =
      lt_of_parts b (2 ^ (8 * length bs)) (number bs) 256 (number-lt bs h.1) h.0 in
    subst (λ k. b * 2 ^ (8 * length bs) + number bs < k) (sym (eight_more (length bs))) small

-- A byte goes into the cache below the bits that are there.
cache_byte :
    (cache bits_left b : ℕ)
    → bits_left ≤ 56
    → b < 256
    → u64 (cache * 2 ^ 8 + b) % 2 ^ (bits_left + 8) ≡ cache % 2 ^ bits_left * 256 + b
cache_byte cache bits_left b room byte =
    let rest : bits_left + 8 + (56 - bits_left) ≡ 64 = omega arith in
    let word : 2 ^ 64 ≡ 2 ^ (bits_left + 8) * 2 ^ (56 - bits_left) =
      ap (λ k. 2 ^ k) (sym rest) ∙ pow-add (bits_left + 8) (56 - bits_left) in
    ap (λ k. (cache * 256 + b) % k % 2 ^ (bits_left + 8)) word
    ∙ mod-mod_product (cache * 256 + b) (2 ^ (bits_left + 8)) (2 ^ (56 - bits_left))
        (pow_pos (bits_left + 8)) (pow_pos (56 - bits_left))
    ∙ ap (λ k. (cache * 256 + b) % k) (pow-add bits_left 8)
    ∙ mod_shift cache (2 ^ bits_left) b (pow_pos bits_left) byte

one_up : (x b p n : ℕ) → (x * 256 + b) * p + n ≡ x * (p * 256) + (b * p + n)
one_up x b p n = omega arith

pending-refill_from :
    (bs : List ℕ) (cache bits_left : ℕ)
    → AllBytes bs
    → bits_left ≤ 64
    → (pending (refill_from bs cache bits_left)
        ≡ cache % 2 ^ bits_left * 2 ^ (8 * length bs) + number bs)
      × AllBytes (refill_from bs cache bits_left).bytes
unfolding refill_from pending number
pending-refill_from [] cache bits_left h small = (refl, tt)
pending-refill_from (b ∷ bs) cache bits_left h small = elim (Bool-cases (leb bits_left 56)) [
  | inl e ↦
      let (kept, bytes) =
        pending-refill_from bs (u64 (cache * 2 ^ 8 + b)) (bits_left + 8) h.1 (ground arith) in
      rw e (
        kept
            ∙ ap (λ k. k * 2 ^ (8 * length bs) + number bs)
                (cache_byte cache bits_left b (ground arith) h.0)
            ∙ one_up (cache % 2 ^ bits_left) b (2 ^ (8 * length bs)) (number bs)
            ∙ ap (λ k. cache % 2 ^ bits_left * k + (b * 2 ^ (8 * length bs) + number bs))
                (sym (eight_more (length bs))),
        bytes,
      )
  | inr e ↦ rw e (refl, h)
]

-- A reader starts at the first bit.
pub pending-init : (bytes : List ℕ) → AllBytes bytes → pending (init bytes) ≡ number bytes
unfolding init refill pending number
pending-init bytes h = (pending-refill_from bytes 0 0 h (omega arith)).0 ∙ omega arith

-- The highest and the lowest bits of those that are to come, where `low` are left in the cache.
module _ (r : BitReader) (n low : ℕ) (split : r.bits_left ≡ low + n)
    (bytes : AllBytes r.bytes) where
  abbrev tail_bits : ℕ
  tail_bits = 8 * length r.bytes

  cache_split : r.cache % 2 ^ r.bits_left ≡ r.cache % (2 ^ low * 2 ^ n)
  cache_split = ap (λ k. r.cache % k) (ap (λ k. 2 ^ k) split ∙ pow-add low n)

  pending-div : pending r / 2 ^ (tail_bits + low) ≡ r.cache / 2 ^ low % 2 ^ n
  unfolding pending
  pending-div =
      ap (λ k. pending r / k) (pow-add tail_bits low)
      ∙ sym (div-div-eq-div-mul (pending r) (2 ^ tail_bits) (2 ^ low))
      ∙ ap (λ k. k / 2 ^ low)
          (div_of_sum (r.cache % 2 ^ r.bits_left) (2 ^ tail_bits) (number r.bytes)
            (number-lt r.bytes bytes))
      ∙ ap (λ k. k / 2 ^ low) cache_split
      ∙ mod-div r.cache (2 ^ low) (2 ^ n) (pow_pos low) (pow_pos n)

  pending-mod :
      pending r % 2 ^ (tail_bits + low) ≡ r.cache % 2 ^ low * 2 ^ tail_bits + number r.bytes
  unfolding pending
  pending-mod =
      let high = r.cache % 2 ^ r.bits_left in
      let small = number-lt r.bytes bytes in
      ap (λ k. pending r % k) (pow-add tail_bits low)
      ∙ mod_product (pending r) (2 ^ tail_bits) (2 ^ low) (pow_pos tail_bits) (pow_pos low)
      ∙ ap₂ (λ a b. a % 2 ^ low * 2 ^ tail_bits + b)
          (div_of_sum high (2 ^ tail_bits) (number r.bytes) small)
          (mod_of_sum high (2 ^ tail_bits) (number r.bytes) small)
      ∙ ap (λ k. k % 2 ^ low * 2 ^ tail_bits + number r.bytes) cache_split
      ∙ ap (λ k. k * 2 ^ tail_bits + number r.bytes)
          (mod-mod_product r.cache (2 ^ low) (2 ^ n) (pow_pos low) (pow_pos n))

top_bits_word : (c n : ℕ) → n ≤ 32 → u32 (c % 2 ^ n) ≡ c % 2 ^ n
top_bits_word c n h =
    let small : c % 2 ^ n < 2 ^ n = mod-lt c (pow_pos n) in
    let word : 2 ^ n ≤ 2 ^ 32 = pow-le-pow_right {n = 2} (omega arith) h in
    mod-eq_of_lt (omega arith)

read_cases :
    (r : BitReader) (n : ℕ)
    → ((n == 0) || ltb r.bits_left n) ≡ false
    → read r n ≡ (top_bits r n, refill (record r { bits_left = r.bits_left - n }))
unfolding read
read_cases r n e = rw e refl

-- A read of 1 to 32 bits, when so many are still to come, gives the first of these bits as a number
-- and leaves those after them: no bit of the bytes is lost, doubled or moved at the cache's border.
-- The reader is filled as `br_init` leaves it, which stays so, and its bytes are below 256.
pub read-pending :
    (r : BitReader) (n : ℕ)
    → IsFilled r
    → AllBytes r.bytes
    → 0 < n
    → n ≤ 32
    → n ≤ available r
    → ((read r n).0 ≡ pending r / 2 ^ (available r - n))
      × (pending (read r n).1 ≡ pending r % 2 ^ (available r - n))
      × (available (read r n).1 + n ≡ available r)
      × IsFilled (read r n).1
      × AllBytes (read r n).1.bytes
unfolding top_bits refill
read-pending r n v bytes pos_n small enough =
    let fits : n ≤ r.bits_left = omega (arith, v.filled) in
    let low = r.bits_left - n in
    let split : r.bits_left ≡ low + n = omega arith in
    let left : available r - n ≡ 8 * length r.bytes + low = omega arith in
    let (value, filled, count) = read-available r n v pos_n (omega arith) enough in
    let (kept, more) = pending-refill_from r.bytes r.cache low bytes (omega (arith, v.small)) in
    let next =
      ap (λ (o : ℕ × BitReader). o.1)
        (read_cases r n (long_enough r n v pos_n (omega arith) enough)) in
    (
      value
          ∙ top_bits_word (r.cache / 2 ^ low) n small
          ∙ sym (pending-div r n low split bytes)
          ∙ ap (λ k. pending r / 2 ^ k) (sym left),
      ap pending next
          ∙ kept
          ∙ sym (pending-mod r n low split bytes)
          ∙ ap (λ k. pending r % 2 ^ k) (sym left),
      count,
      filled,
      subst (λ (k : BitReader). AllBytes k.bytes) (sym next) more,
    )
