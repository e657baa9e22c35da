-- ===== src/Histogram.antt =====
-- src/tsa_histogram.c and include/tsa_histogram.h: the bits of the last second, in 100 buckets of
-- 10 ms. `qsort` is outside the program: `sort` is an argument.
pub mod Ages
pub mod Clock
use tsanalyzer.Base.{
  ℕ, zero, suc, ◌+◌, ◌-◌, ◌*◌, ◌/◌, ◌%◌, ◌^◌, List, [], ◌∷◌, Bool, true, false, not, ltb, leb,
  if◌then◌else◌, u32, u64, sub64, map, set, get_or, replicate,
}
use tsanalyzer.Base.Loops.{for_range}

abbrev pub buckets : ℕ
buckets = 100

abbrev pub resolution_ms : ℕ
resolution_ms = 10

-- NS_PER_RESOLUTION
abbrev pub resolution_ns : ℕ
resolution_ns = resolution_ms * 1000000

-- tsa_histogram_t
pub record Histogram : Type 0 where
  pub bits_in_bucket : List ℕ
  pub last_bucket_ns : ℕ
  pub current_bucket_idx : ℕ
  pub min_bps : ℕ
  pub max_bps : ℕ
  pub p99_bps : ℕ
  pub initialized : Bool

-- tsa_hist_init
unfoldable pub init : Histogram
init = record {
  bits_in_bucket = replicate buckets 0;
  last_bucket_ns = 0;
  current_bucket_idx = 0;
  min_bps = 0;
  max_bps = 0;
  p99_bps = 0;
  initialized = false;
}

unfoldable pub smallest : List ℕ → ℕ → ℕ
smallest [] min = min
smallest (bps ∷ rest) min = smallest rest (if ltb bps min then bps else min)

unfoldable pub greatest : List ℕ → ℕ → ℕ
greatest [] max = max
greatest (bps ∷ rest) max = greatest rest (if ltb max bps then bps else max)

-- `bitrates` before it is sorted
abbrev pub bitrates : Histogram → List ℕ
bitrates h = map (λ bits. u64 (bits * 1000) / resolution_ms) h.bits_in_bucket

-- One step on in the ring, to an empty bucket.
unfoldable pub next_bucket : ℕ → Histogram → Histogram
next_bucket i h =
    let idx = (h.current_bucket_idx + 1) % buckets in
    record h { current_bucket_idx = idx; bits_in_bucket = set h.bits_in_bucket idx 0 }

-- What tsa_hist_update does to the buckets once 10 ms have passed.
unfoldable pub skip_buckets : ℕ → ℕ → Histogram → Histogram
skip_buckets now_ns skip h =
    if leb buckets skip
    then record h {
      bits_in_bucket = replicate buckets 0;
      current_bucket_idx = 0;
      last_bucket_ns = now_ns;
    }
    else let h₁ = for_range skip 0 next_bucket h in
      record h₁ { last_bucket_ns = u64 (h₁.last_bucket_ns + skip * resolution_ns) }

module _ (sort : List ℕ → List ℕ) where
  -- tsa_hist_update_metrics
  unfoldable pub update_metrics : Histogram → Histogram
  update_metrics h = record h {
    min_bps = smallest (bitrates h) (2 ^ 64 - 1);
    max_bps = greatest (bitrates h) 0;
    p99_bps = get_or (sort (bitrates h)) (buckets - 2) 0;
  }

  -- tsa_hist_update
  unfoldable pub hist_update : ℕ → Histogram → Histogram
  hist_update now_ns h =
      if not h.initialized
      then h
      else if ltb now_ns h.last_bucket_ns
      then h
      else let elapsed = now_ns - h.last_bucket_ns in
        if leb resolution_ns elapsed
        then update_metrics (skip_buckets now_ns (u32 (elapsed / resolution_ns)) h)
        else h

  -- tsa_hist_add_packet
  unfoldable pub add_packet : ℕ → ℕ → Histogram → Histogram
  add_packet now_ns bits h =
      let h₁ =
        if h.initialized
        then h
        else record h { last_bucket_ns = now_ns; current_bucket_idx = 0; initialized = true } in
      let h₂ = hist_update now_ns h₁ in
      record h₂ {
        bits_in_bucket =
            set h₂.bits_in_bucket h₂.current_bucket_idx
              (u64 (get_or h₂.bits_in_bucket h₂.current_bucket_idx 0 + bits));
      }
