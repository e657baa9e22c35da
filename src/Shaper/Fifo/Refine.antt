-- ===== src/Shaper/Fifo/Refine.antt =====
-- src/libtsshaper/src/core/tss_fifo.c: the ring holds a sequence of bytes, and each operation acts
-- on that sequence.
use tsanalyzer.Base.{ℕ, ◌+◌, ◌-◌, ◌%◌, ◌^◌, ◌≤◌, ◌<◌, ◌≡◌, sym, ap, ◌∙◌, ◌⊎◌}
use tsanalyzer.Base.{List, [], ◌++◌, none, some, Bool, arith, inl, inr}
use tsanalyzer.Base.{length, take, drop, Bool-cases, ltb, leb, if◌then◌else◌, leb→le, min}
use tsanalyzer.Base.Window.{
  window, put_round_of_slot, window-mod, window-put_round, put_round, length-put_round,
  write_at-eq-put_round, write_at-wrap, read_at-eq-window, read_at-wrap, take-window, drop-window,
}
use tsanalyzer.Shaper.Fifo.{
  Fifo, add_size, alloc, copy_in, write, copy_out, skip, read, peek, drain,
}
use native.Mathlib.Nat.{mod-lt, mod-eq_of_lt, mod-add-mod}
use native.Mathlib.Decide.{dec_lt}

pub record IsValid (f : Fifo) : Type 0 where
  pub storage : length f.buffer ≡ f.capacity
  pub nonempty : 0 < f.capacity
  pub small : f.capacity ≤ 2 ^ 63
  pub head_in : f.head < f.capacity
  pub fits : f.size ≤ f.capacity
  pub tail_at : f.tail ≡ (f.head + f.size) % f.capacity

-- The bytes in the ring, the oldest first.
abbrev pub contents : Fifo → List ℕ
contents f = window 0 f.buffer f.capacity f.head f.size

-- A FIFO that is allocated is valid and empty.
pub alloc-IsValid :
    (ok : Bool) (storage : List ℕ) (capacity : ℕ) {f : Fifo}
    → length storage ≡ capacity
    → 0 < capacity
    → capacity ≤ 2 ^ 63
    → alloc ok (some storage) capacity ≡ some f
    → IsValid f × (contents f ≡ [])
unfolding alloc window
alloc-IsValid ok storage capacity l p s e = ground (arith, mod-eq_of_lt {n = 0} {m = capacity})

copy_in_lem :
    {f : Fifo} (bytes : List ℕ)
    → IsValid f
    → f.size + length bytes ≤ f.capacity
    → copy_in f bytes ≡ put_round 0 f.buffer f.capacity f.tail bytes
unfolding copy_in
copy_in_lem {f} bytes v h =
    let t : f.tail < f.capacity = omega (arith, v.tail_at, mod-lt (f.head + f.size) v.nonempty) in
    elim (Bool-cases (leb (length bytes) (f.capacity - f.tail))) [
      | inl e ↦
          rw e
            (write_at-eq-put_round 0 f.buffer f.capacity f.tail bytes (omega (arith, leb→le _ _ e)))
      | inr e ↦
          rw e (write_at-wrap 0 f.buffer f.capacity f.tail bytes t (ground arith) (omega arith))
    ]

copy_out_lem :
    (f : Fifo) (start len : ℕ)
    → start < f.capacity
    → len ≤ f.capacity
    → copy_out f start len ≡ window 0 f.buffer f.capacity start len
unfolding copy_out
copy_out_lem f start len hs hl = elim (Bool-cases (leb len (f.capacity - start))) [
  | inl e ↦ rw e (read_at-eq-window 0 f.buffer f.capacity start len (omega (arith, leb→le _ _ e)))
  | inr e ↦ rw e (read_at-wrap 0 f.buffer f.capacity start len hs (ground arith) hl)
]

-- What `tss_fifo_write` leaves behind when the bytes fit.
written : Fifo → List ℕ → Fifo
written f bytes = record f {
  buffer = copy_in f bytes;
  tail = add_size f.tail (length bytes) % f.capacity;
  size = f.size + length bytes;
}

written-contents :
    {f : Fifo} (bytes : List ℕ)
    → IsValid f
    → f.size + length bytes ≤ f.capacity
    → contents (written f bytes) ≡ contents f ++ bytes
unfolding written
written-contents {f} bytes v h =
    let slot : f.tail % f.capacity ≡ (f.head + f.size) % f.capacity =
      mod-eq_of_lt (omega (arith, v.tail_at, mod-lt (f.head + f.size) v.nonempty)) ∙ v.tail_at in
    ap (λ b. window 0 b f.capacity f.head (f.size + length bytes))
      (copy_in_lem bytes v h
        ∙ put_round_of_slot 0 f.buffer f.capacity f.tail (f.head + f.size) bytes slot)
    ∙ window-put_round 0 f.buffer f.capacity f.head f.size bytes (omega (arith, v.storage)) h

written-IsValid :
    {f : Fifo} (bytes : List ℕ)
    → IsValid f
    → f.size + length bytes ≤ f.capacity
    → IsValid (written f bytes)
unfolding written
written-IsValid {f} bytes v h =
    let t : f.tail < f.capacity = omega (arith, v.tail_at, mod-lt (f.head + f.size) v.nonempty) in
    let no_wrap : add_size f.tail (length bytes) ≡ f.tail + length bytes = omega (arith, v.small) in
    record {
      storage =
          ap length (copy_in_lem bytes v h)
          ∙ length-put_round 0 f.buffer f.capacity f.tail bytes
          ∙ v.storage;
      nonempty = v.nonempty;
      small = v.small;
      head_in = v.head_in;
      fits = h;
      tail_at =
          ap (λ k. k % f.capacity) (no_wrap ∙ ap (λ k. k + length bytes) v.tail_at)
          ∙ mod-add-mod (f.head + f.size) f.capacity (length bytes)
          ∙ ap (λ k. k % f.capacity) (omega arith);
    }

-- On a valid FIFO `tss_fifo_write` appends fewer than 2^63 bytes that fit, the result being valid,
-- and refuses those that do not fit.
pub write_refines :
    {f : Fifo} (bytes : List ℕ)
    → IsValid f
    → length bytes < 2 ^ 63
    → ((f.capacity < f.size + length bytes) × (write f bytes ≡ none))
      ⊎ ((g : Fifo) × (write f bytes ≡ some g) × (contents g ≡ contents f ++ bytes) × IsValid g)
unfolding write written
write_refines {f} bytes v small = elim (dec_lt f.capacity (f.size + length bytes)) [
  | yes p ↦ inl (p, ground (arith, v.small))
  | no p ↦ inr (
    written f bytes,
    ground (arith, v.small),
    written-contents bytes v (omega arith),
    written-IsValid bytes v (omega arith),
  )
]

skip-contents :
    {f : Fifo} (len : ℕ) → IsValid f → len ≤ f.size → contents (skip f len) ≡ drop len (contents f)
unfolding skip
skip-contents {f} len v h =
    ap (λ k. window 0 f.buffer f.capacity (k % f.capacity) (f.size - len)) (omega (arith, v.small))
    ∙ window-mod 0 f.buffer f.capacity (f.head + len) (f.size - len)
    ∙ sym (drop-window 0 f.buffer f.capacity f.head f.size len h)

skip-IsValid : {f : Fifo} (len : ℕ) → IsValid f → len ≤ f.size → IsValid (skip f len)
unfolding skip
skip-IsValid {f} len v h = record {
  storage = v.storage;
  nonempty = v.nonempty;
  small = v.small;
  head_in = mod-lt (add_size f.head len) v.nonempty;
  fits = omega arith;
  tail_at =
      v.tail_at
      ∙ ap (λ k. k % f.capacity) (omega (arith, v.small))
      ∙ sym (mod-add-mod (add_size f.head len) f.capacity (f.size - len));
}

out_lem :
    (f : Fifo) (len : ℕ) → IsValid f → len ≤ f.size → copy_out f f.head len ≡ take len (contents f)
out_lem f len v h =
    copy_out_lem f f.head len v.head_in (omega (arith, v.fits))
    ∙ sym (take-window 0 f.buffer f.capacity f.head f.size len h)

peek_lem :
    (f : Fifo) (len offset : ℕ)
    → IsValid f
    → offset + len ≤ f.size
    → copy_out f (add_size f.head offset % f.capacity) len ≡ take len (drop offset (contents f))
peek_lem f len offset v h =
    let start : add_size f.head offset % f.capacity ≡ (f.head + offset) % f.capacity =
      ap (λ k. k % f.capacity) (omega (arith, v.small, v.fits)) in
    copy_out_lem f (add_size f.head offset % f.capacity) len
      (mod-lt (add_size f.head offset) v.nonempty) (omega (arith, v.fits))
    ∙ ap (λ i. window 0 f.buffer f.capacity i len) start
    ∙ window-mod 0 f.buffer f.capacity (f.head + offset) len
    ∙ sym (take-window 0 f.buffer f.capacity (f.head + offset) (f.size - offset) len (omega arith))
    ∙ ap (take len) (sym (drop-window 0 f.buffer f.capacity f.head f.size offset (omega arith)))

-- On a valid FIFO `tss_fifo_read` takes the oldest `len` bytes, whether or not they are wanted, and refuses when
-- there are fewer.
pub read_refines :
    {f : Fifo} (wanted : Bool) (len : ℕ)
    → IsValid f
    → ((f.size < len) × (read f wanted len ≡ none))
      ⊎ ((g : Fifo) × (read f wanted len ≡ some ((if wanted then take len (contents f) else []), g))
          × (contents g ≡ drop len (contents f))
          × IsValid g)
unfolding read
read_refines {f} wanted len v = elim (dec_lt f.size len) [
  | yes p ↦ inl (p, ground arith)
  | no p ↦ inr (
    skip f len,
    ground (arith, out_lem f len v (omega arith)),
    skip-contents len v (omega arith),
    skip-IsValid len v (omega arith),
  )
]

-- On a valid FIFO `tss_fifo_peek` shows `len` bytes from `offset` on, or fails if there are not so
-- many; both arguments are below 2^63.
pub peek_refines :
    {f : Fifo} (len offset : ℕ)
    → IsValid f
    → len < 2 ^ 63
    → offset < 2 ^ 63
    → peek f len offset
      ≡ (if ltb f.size (offset + len) then none else some (take len (drop offset (contents f))))
unfolding peek
peek_refines {f} len offset v hl ho = elim (dec_lt f.size (offset + len)) [
  | yes p ↦ ground arith
  | no p ↦ ground (arith, peek_lem f len offset v (omega arith))
]

-- On a valid FIFO `tss_fifo_drain` drops the oldest `len` bytes, or all if there are fewer, and
-- leaves it valid.
pub drain_refines :
    {f : Fifo} (len : ℕ)
    → IsValid f
    → (contents (drain f len) ≡ drop (min len f.size) (contents f)) × IsValid (drain f len)
unfolding drain
drain_refines {f} len v =
    let e : (if ltb f.size len then f.size else len) ≡ min len f.size = ground arith in
    rw e (
      skip-contents (min len f.size) v (omega arith),
      skip-IsValid (min len f.size) v (omega arith),
    )
