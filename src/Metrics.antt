-- ===== src/Metrics.antt =====
-- src/tsa_utils.c and include/tsa_internal.h, the text of the metrics: integers printed digit by
-- digit, and the bounded buffer that the exporters append to. Floating-point numbers are not
-- modelled.
pub mod Decimal
pub mod Buffer
use tsanalyzer.Base.{ℕ, zero, suc, ◌+◌, ◌-◌, ◌/◌, ◌%◌, ◌^◌, List, [], ◌∷◌, ◌++◌, Bool, true, false}
use tsanalyzer.Base.{
  length, get_or, set, take, drop, ltb, leb, ◌==◌, if◌then◌else◌, u64, sub64, min,
}
use tsanalyzer.Base.{Option, none, some}
use tsanalyzer.Base.Int.{ℤ, pos, negsuc, pos_part, neg_part}
use tsanalyzer.Base.Loops.{for_range}
use tsanalyzer.Base.Window.{write_at}

-- `while (v > 0)`: a 64-bit word has at most twenty digits, the least first.
unfoldable pub digits : ℕ → ℕ → List ℕ
digits zero v = []
digits (suc fuel) v =
    let rest = digits fuel (v / 10) in if ltb 0 v then (v % 10 + 48) ∷ rest else []

unfoldable pub swap : List ℕ → ℕ → ℕ → List ℕ
swap buf j k = set (set buf j (get_or buf k 0)) k (get_or buf j 0)

-- `for (int j = 0; j < i / 2; j++)`
unfoldable pub turn : List ℕ → List ℕ
turn buf = for_range (length buf / 2) 0 (λ j b. swap b j (length buf - 1 - j)) buf

abbrev pub is_negative : ℤ → Bool
is_negative (pos n) = false
is_negative (negsuc n) = true

-- `v` of `tsa_fast_itoa`: the value without its sign, as a word. The code negates an int64_t, which
-- C does not define for the least one.
abbrev pub magnitude : ℤ → ℕ
magnitude val = u64 (pos_part val + neg_part val)

-- The text without its final zero; the result of the function is its length.
unfoldable pub fast_itoa : ℤ → List ℕ
fast_itoa (pos zero) = 48 ∷ []
fast_itoa val = turn (digits 20 (magnitude val) ++ (if is_negative val then 45 ∷ [] else []))

-- tsa_metric_buffer_t: `base` is the memory that the caller handed over, `size` what it said of it.
pub record MetricBuffer : Type 0 where
  pub base : List ℕ
  pub size : ℕ
  pub offset : ℕ

unfoldable pub mbuf_init : List ℕ → ℕ → MetricBuffer
mbuf_init buf sz = record { base = if ltb 0 sz then set buf 0 0 else buf; size = sz; offset = 0 }

-- A text is given without its final zero.
unfoldable pub mbuf_append_str : MetricBuffer → List ℕ → MetricBuffer
mbuf_append_str b s =
    let rem : ℕ = if ltb b.offset b.size then b.size - b.offset else 0 in
    let cp : ℕ = if ltb (length s) (rem - 1) then length s else rem - 1 in
    if leb rem 1 then b else record b {
      base = set (write_at b.base b.offset (take cp s)) (b.offset + cp) 0;
      offset = b.offset + cp;
    }

unfoldable pub mbuf_append_int : MetricBuffer → ℤ → MetricBuffer
mbuf_append_int b v = mbuf_append_str b (fast_itoa v)

-- `size - 1` is a difference of words.
unfoldable pub mbuf_append_char : MetricBuffer → ℕ → MetricBuffer
mbuf_append_char b c =
    if ltb b.offset (sub64 b.size 1)
    then record b { base = set (set b.base b.offset c) (b.offset + 1) 0; offset = b.offset + 1 }
    else b
