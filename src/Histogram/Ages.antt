-- ===== src/Histogram/Ages.antt =====
-- src/tsa_histogram.c: what each bucket of the last second holds, by its age.
use tsanalyzer.Base.{
  ℕ, zero, suc, ◌+◌, ◌-◌, ◌*◌, ◌/◌, ◌%◌, ◌^◌, ◌<◌, ◌≤◌, ◌≡◌, refl, sym, ap, ap₂, ◌∙◌, List, true,
  false, not, ltb, leb, ◌==◌, if◌then◌else◌, if_then, if_else, Bool-cases, inl, inr, arith, u64,
  set, length-set, replicate, get_or,
}
use tsanalyzer.Base.Loops.{for_range}
use tsanalyzer.Base.Window.{get_or_of_set, get_or_of_set_ne}
use tsanalyzer.Histogram.{
  Histogram, buckets, resolution_ns, next_bucket, skip_buckets, update_metrics, hist_update,
  add_packet,
}
use tsanalyzer.Histogram.Clock.{
  IsRing, IsCurrent, u32_small, not_before, add_packet_clock, hist_update-IsCurrent,
}

-- The bucket that is `age` steps before the current one.
abbrev pub place : Histogram → ℕ → ℕ
place h age = (h.current_bucket_idx + buckets - age) % buckets

-- Its bits.
abbrev pub bits_of_age : Histogram → ℕ → ℕ
bits_of_age h age = get_or h.bits_in_bucket (place h age) 0

-- The bits of a bucket after `steps` buckets of time without a packet.
abbrev pub aged : ℕ → Histogram → ℕ → ℕ
aged steps h age = if ltb age steps then 0 else bits_of_age h (age - steps)

bits_of_age-next_bucket :
    (i : ℕ) (h : Histogram) (age : ℕ)
    → IsRing h
    → age < buckets
    → bits_of_age (next_bucket i h) age ≡ aged 1 h age
unfolding next_bucket
bits_of_age-next_bucket i h zero v small =
    let at : ((h.current_bucket_idx + 1) % 100 + 100 - 0) % 100 ≡ (h.current_bucket_idx + 1) % 100 =
      omega arith in
    ap (λ m. get_or (set h.bits_in_bucket ((h.current_bucket_idx + 1) % 100) 0) m 0) at
    ∙ get_or_of_set h.bits_in_bucket ((h.current_bucket_idx + 1) % 100) 0 0 (omega (arith, v.full))
bits_of_age-next_bucket i h (suc age) v small =
    let inside : h.current_bucket_idx < 100 = v.index_in in
    let at : ((h.current_bucket_idx + 1) % 100 + 100 - suc age) % 100
        ≡ (h.current_bucket_idx + 100 - age) % 100 =
      omega arith in
    ap (λ m. get_or (set h.bits_in_bucket ((h.current_bucket_idx + 1) % 100) 0) m 0) at
    ∙ get_or_of_set_ne h.bits_in_bucket ((h.current_bucket_idx + 1) % 100)
        ((h.current_bucket_idx + 100 - age) % 100) 0 0 (λ e. omega arith)
    ∙ ground arith

IsRing-next_bucket : (i : ℕ) (h : Histogram) → IsRing h → IsRing (next_bucket i h)
unfolding next_bucket
IsRing-next_bucket i h v = record {
  full = length-set h.bits_in_bucket _ 0 ∙ v.full;
  index_in = omega arith;
}

later_by :
    (f : ℕ → ℕ) (n age : ℕ)
    → n ≤ age
    → (if ltb (age - n) 1 then 0 else f (age - n - 1))
      ≡ (if ltb age (suc n) then 0 else f (age - suc n))
later_by f n age h =
    let tests : ltb (age - n) 1 ≡ ltb age (suc n) = ground arith in
    let ages : age - n - 1 ≡ age - suc n = omega arith in
    ap₂ (λ b m. if b then 0 else f m) tests ages

aged-aged :
    (n : ℕ) (h h' : Histogram) (age : ℕ)
    → ((a : ℕ) → a < buckets → bits_of_age h' a ≡ aged 1 h a)
    → age < buckets
    → aged n h' age ≡ aged (suc n) h age
aged-aged n h h' age once small = elim (Bool-cases (ltb age n)) [
  | inl e ↦ rw e (ground arith)
  | inr e ↦ rw e (once (age - n) (omega arith) ∙ later_by (bits_of_age h) n age (ground arith))
]

bits_of_age-for_range :
    (n i : ℕ) (h : Histogram) (age : ℕ)
    → IsRing h
    → age < buckets
    → bits_of_age (for_range n i next_bucket h) age ≡ aged n h age
unfolding for_range
bits_of_age-for_range zero i h age v small = ground arith
bits_of_age-for_range (suc n) i h age v small =
    bits_of_age-for_range n (i + 1) (next_bucket i h) age (IsRing-next_bucket i h v) small
    ∙ aged-aged n h (next_bucket i h) age (λ a s. bits_of_age-next_bucket i h a v s) small

get_or-zeros : (n i : ℕ) → get_or (replicate {A = ℕ} n 0) i 0 ≡ 0
get_or-zeros zero i = refl
get_or-zeros (suc n) zero = refl
get_or-zeros (suc n) (suc i) = get_or-zeros n i

bits_of_age-skip_buckets :
    (now_ns skip : ℕ) (h : Histogram) (age : ℕ)
    → IsRing h
    → age < buckets
    → bits_of_age (skip_buckets now_ns skip h) age ≡ aged skip h age
unfolding skip_buckets
bits_of_age-skip_buckets now_ns skip h age v small =
    let moved : Histogram = for_range skip 0 next_bucket h in
    let cleared : Histogram = record h {
      bits_in_bucket = replicate buckets 0;
      current_bucket_idx = 0;
      last_bucket_ns = now_ns;
    } in
    let kept : Histogram = record moved {
      last_bucket_ns = u64 (moved.last_bucket_ns + skip * resolution_ns);
    } in
    elim (Bool-cases (leb buckets skip)) [
      | inl e ↦
          let young : ltb age skip ≡ true = ground arith in
          if_then (λ (k : Histogram). bits_of_age k age ≡ aged skip h age) (leb buckets skip)
            cleared kept e
            (get_or-zeros buckets ((0 + buckets - age) % buckets)
              ∙ sym (ap (λ b. if b then 0 else bits_of_age h (age - skip)) young))
      | inr e ↦
          if_else (λ (k : Histogram). bits_of_age k age ≡ aged skip h age) (leb buckets skip)
            cleared kept e (bits_of_age-for_range skip 0 h age v small)
    ]

-- How many buckets of time have passed.
abbrev pub steps_to : ℕ → Histogram → ℕ
steps_to now_ns h = (now_ns - h.last_bucket_ns) / resolution_ns

no_steps : (a b : ℕ) → leb resolution_ns (a - b) ≡ false → (a - b) / resolution_ns ≡ 0
no_steps a b h = ground arith

-- The bits of a packet go to age 0.
abbrev count_in : Histogram → ℕ → Histogram
count_in k bits = record k {
  bits_in_bucket =
      set k.bits_in_bucket k.current_bucket_idx
        (u64 (get_or k.bits_in_bucket k.current_bucket_idx 0 + bits));
}

module _ (sort : List ℕ → List ℕ) where
  bits_of_age-hist_update :
      (h : Histogram) (now_ns age : ℕ)
      → h.initialized ≡ true
      → IsRing h
      → h.last_bucket_ns ≤ now_ns
      → now_ns < h.last_bucket_ns + 2 ^ 32 * resolution_ns
      → age < buckets
      → bits_of_age (hist_update sort now_ns h) age ≡ aged (steps_to now_ns h) h age
  unfolding hist_update update_metrics
  bits_of_age-hist_update h now_ns age init v le gap small =
      let P : Histogram → Type 0 = λ k. bits_of_age k age ≡ aged (steps_to now_ns h) h age in
      if_else P (not h.initialized) _ _ (ap not init) (
        if_else P (ltb now_ns h.last_bucket_ns) _ _ (not_before now_ns h.last_bucket_ns le)
          (elim (Bool-cases (leb resolution_ns (now_ns - h.last_bucket_ns))) [
            | inl b ↦
                rw (b, u32_small now_ns h.last_bucket_ns le gap)
                  (bits_of_age-skip_buckets now_ns (steps_to now_ns h) h age v small)
            | inr b ↦ rw (b, no_steps now_ns h.last_bucket_ns b) (ground arith)
          ]))

  bits_of_age-count :
      (k : Histogram) (bits age : ℕ)
      → IsRing k
      → age < buckets
      → bits_of_age (count_in k bits) age
        ≡ (if age == 0 then u64 (bits_of_age k 0 + bits) else bits_of_age k age)
  bits_of_age-count k bits zero v small =
      let here : place k 0 ≡ k.current_bucket_idx = omega (arith, v.index_in) in
      let counted : ℕ = u64 (get_or k.bits_in_bucket k.current_bucket_idx 0 + bits) in
      ap (λ m. get_or (set k.bits_in_bucket k.current_bucket_idx counted) m 0) here
      ∙ get_or_of_set k.bits_in_bucket k.current_bucket_idx counted 0
          (omega (arith, v.full, v.index_in))
      ∙ ap (λ m. u64 (get_or k.bits_in_bucket m 0 + bits)) (sym here)
  bits_of_age-count k bits (suc age) v small =
      let inside : k.current_bucket_idx < 100 = v.index_in in
      let counted : ℕ = u64 (get_or k.bits_in_bucket k.current_bucket_idx 0 + bits) in
      let older : (suc age == 0) ≡ false = ground arith in
      get_or_of_set_ne k.bits_in_bucket k.current_bucket_idx (place k (suc age)) counted 0
        (λ e. omega arith)
      ∙ sym (ap (λ b. if b then u64 (bits_of_age k 0 + bits) else bits_of_age k (suc age)) older)

  -- Where the clock does not run backwards, a packet is counted in the bucket whose 10 ms hold its
  -- time, and the others are as the time left them: the bits of each of the last 100 buckets, by
  -- its age, are those that stood there when it was younger, or none in a bucket that came after the
  -- last packet, and the newest has the bits of the packet besides, in a 64-bit word. The histogram
  -- is initialized, times are 64-bit numbers, and no gap is of 2^32 buckets, some 497 days.
  pub add_packet-bits_of_age :
      (h : Histogram) (now_ns bits age : ℕ)
      → h.initialized ≡ true
      → IsRing h
      → h.last_bucket_ns ≤ now_ns
      → now_ns < 2 ^ 64
      → now_ns < h.last_bucket_ns + 2 ^ 32 * resolution_ns
      → age < buckets
      → IsCurrent now_ns (add_packet sort now_ns bits h)
        × (bits_of_age (add_packet sort now_ns bits h) age ≡ (
            if age == 0
            then u64 (aged (steps_to now_ns h) h 0 + bits)
            else aged (steps_to now_ns h) h age))
  unfolding add_packet
  add_packet-bits_of_age h now_ns bits age init v le big gap small = (
    add_packet_clock sort h now_ns bits init v le big gap,
    if_then
        (λ (k : Histogram). bits_of_age (count_in (hist_update sort now_ns k) bits) age ≡ (
          if age == 0
          then u64 (aged (steps_to now_ns h) h 0 + bits)
          else aged (steps_to now_ns h) h age))
        h.initialized h
        (record h { last_bucket_ns = now_ns; current_bucket_idx = 0; initialized = true }) init
        (bits_of_age-count (hist_update sort now_ns h) bits age
            (hist_update-IsCurrent sort h now_ns init v le big gap).0 small
          ∙ ap₂ (λ a b. if age == 0 then u64 (a + bits) else b)
              (bits_of_age-hist_update h now_ns 0 init v le gap (omega arith))
              (bits_of_age-hist_update h now_ns age init v le gap small)),
  )
