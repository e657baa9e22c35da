-- ===== src/Histogram/Clock.antt =====
-- src/tsa_histogram.c: the ring of buckets follows the clock.
use tsanalyzer.Base.{
  ℕ, ◌+◌, ◌-◌, ◌*◌, ◌/◌, ◌^◌, ◌<◌, ◌≤◌, ◌≡◌, refl, ap, ◌∙◌, List, true, false, not, ltb, leb,
  if_then, if_else, Bool-cases, inl, inr, arith, u32, u64, length, set, length-set,
  length-replicate, get_or,
}
use tsanalyzer.Base.Loops.{for_range_inv}
use tsanalyzer.Histogram.{
  Histogram, buckets, resolution_ns, next_bucket, skip_buckets, update_metrics, hist_update,
  add_packet,
}

-- There are 100 buckets, and the current one is among them.
pub record IsRing (h : Histogram) : Type 0 where
  pub full : length h.bits_in_bucket ≡ buckets
  pub index_in : h.current_bucket_idx < buckets

-- As above, and the current bucket started at that time.
pub record StartsAt (start : ℕ) (h : Histogram) : Type 0 where
  pub ring : IsRing h
  pub start_eq : h.last_bucket_ns ≡ start

next_bucket-StartsAt :
    (start i : ℕ) (h : Histogram) → StartsAt start h → StartsAt start (next_bucket i h)
unfolding next_bucket
next_bucket-StartsAt start i h v = record {
  ring = record { full = length-set h.bits_in_bucket _ 0 ∙ v.ring.full; index_in = omega arith };
  start_eq = v.start_eq;
}

-- The buckets skipped end at the bucket of the clock.
skip_buckets_clock :
    (h : Histogram) (now_ns : ℕ)
    → IsRing h
    → h.last_bucket_ns ≤ now_ns
    → now_ns < 2 ^ 64
    → let h' = skip_buckets now_ns ((now_ns - h.last_bucket_ns) / resolution_ns) h in
      IsRing h' × (h'.last_bucket_ns ≤ now_ns) × (now_ns < h'.last_bucket_ns + resolution_ns)
unfolding skip_buckets
skip_buckets_clock h now_ns v le small =
    elim (Bool-cases (leb buckets ((now_ns - h.last_bucket_ns) / resolution_ns))) [
      | inl b ↦ rw b (
        record { full = length-replicate {A = ℕ} buckets 0; index_in = omega arith },
        omega arith,
        omega arith,
      )
      | inr b ↦
          let moved =
            for_range_inv (StartsAt h.last_bucket_ns) next_bucket
              (next_bucket-StartsAt h.last_bucket_ns) ((now_ns - h.last_bucket_ns) / resolution_ns)
              0 h (record { ring = v; start_eq = refl }) in
          rw (b, moved.start_eq)
            (
              record { full = moved.ring.full; index_in = moved.ring.index_in },
              omega arith,
              omega arith,
            )
    ]

-- The ring is up to date: the time is within the 10 ms of the current bucket.
abbrev pub IsCurrent : ℕ → Histogram → Type 0
IsCurrent now_ns h =
    IsRing h × (h.last_bucket_ns ≤ now_ns) × (now_ns < h.last_bucket_ns + resolution_ns)

pub not_before : (a b : ℕ) → b ≤ a → ltb a b ≡ false
not_before a b h = ground arith

pub u32_small :
    (a b : ℕ)
    → b ≤ a
    → a < b + 2 ^ 32 * resolution_ns
    → u32 ((a - b) / resolution_ns) ≡ (a - b) / resolution_ns
u32_small a b le gap = omega arith

module _ (sort : List ℕ → List ℕ) where
  pub hist_update-IsCurrent :
      (h : Histogram) (now_ns : ℕ)
      → h.initialized ≡ true
      → IsRing h
      → h.last_bucket_ns ≤ now_ns
      → now_ns < 2 ^ 64
      → now_ns < h.last_bucket_ns + 2 ^ 32 * resolution_ns
      → IsCurrent now_ns (hist_update sort now_ns h)
  unfolding hist_update update_metrics
  hist_update-IsCurrent h now_ns init v le small gap =
      if_else (IsCurrent now_ns) (not h.initialized) _ _ (ap not init) (
        if_else (IsCurrent now_ns) (ltb now_ns h.last_bucket_ns) _ _
          (not_before now_ns h.last_bucket_ns le)
          (elim (Bool-cases (leb resolution_ns (now_ns - h.last_bucket_ns))) [
            | inl b ↦
                let (ring, before, after) = skip_buckets_clock h now_ns v le small in
                rw (b, u32_small now_ns h.last_bucket_ns le gap)
                  (record { full = ring.full; index_in = ring.index_in }, before, after)
            | inr b ↦ rw b (v, le, ground arith)
          ]))

  -- When the clock does not run backwards, a packet is counted in the bucket whose 10 ms hold the
  -- time of the packet, and the buckets stay a ring of 100. The histogram is initialized, times are
  -- 64-bit numbers, and no gap is of 2^32 buckets, some 497 days.
  pub add_packet_clock :
      (h : Histogram) (now_ns bits : ℕ)
      → h.initialized ≡ true
      → IsRing h
      → h.last_bucket_ns ≤ now_ns
      → now_ns < 2 ^ 64
      → now_ns < h.last_bucket_ns + 2 ^ 32 * resolution_ns
      → IsCurrent now_ns (add_packet sort now_ns bits h)
  unfolding add_packet
  add_packet_clock h now_ns bits init v le small gap = count_here _ (
      if_then (λ k. IsCurrent now_ns (hist_update sort now_ns k)) h.initialized _ _ init
        (hist_update-IsCurrent h now_ns init v le small gap))
    where
      count_here :
          (k : Histogram)
          → IsCurrent now_ns k
          → IsCurrent now_ns (record k {
            bits_in_bucket =
                set k.bits_in_bucket k.current_bucket_idx
                  (u64 (get_or k.bits_in_bucket k.current_bucket_idx 0 + bits));
          })
      count_here k (ring, before, after) = (
        record { full = length-set k.bits_in_bucket _ _ ∙ ring.full; index_in = ring.index_in },
        before,
        after,
      )
