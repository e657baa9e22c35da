-- ===== src/Shaper/Io/Rotation.antt =====
-- src/libtsshaper/src/core/tss_io.c: the FIFO of a stream holds whole packets, and the rotation of
-- a section drops whole packets up to the next start of a section.
use tsanalyzer.Base.{ℕ, zero, suc, ◌+◌, ◌-◌, ◌*◌, ◌≤◌, ◌<◌, ◌≡◌, ◌⊎◌, refl, sym, ap, ◌∙◌}
use tsanalyzer.Base.{List, [], ◌∷◌, ◌++◌, Option, none, some, Bool, true, false, not, ◌&&◌, subst}
use tsanalyzer.Base.{length, take, drop, ltb, leb, if◌then◌else◌, Bool-cases, inl, inr, arith, min}
use tsanalyzer.Base.{length-drop, length-append, dec_lt, if_then, if_else}
use tsanalyzer.Base.Window.{length-window}
use tsanalyzer.Shaper.Fifo.{Fifo, write, peek, drain, skip, size_of}
use tsanalyzer.Shaper.Fifo.Refine.{IsValid, contents, write_refines, drain_refines, peek_refines}
use tsanalyzer.Shaper.Io.{packet_size, is_pusi, front, drop_to_start, write_any, rotate}

-- A valid FIFO with a whole number of packets.
pub record IsAligned (f : Fifo) : Type 0 where
  pub valid : IsValid f
  pub packets : ℕ
  pub whole : f.size ≡ packets * 188

length-contents : (f : Fifo) → length (contents f) ≡ f.size
length-contents f = length-window 0 f.buffer f.capacity f.head f.size

-- What a write of a packet owes its caller.
unfoldable pub Written : Fifo → List ℕ → Fifo → Type 0
Written f packet g =
    (contents g ≡ (if leb (f.size + 188) f.capacity then contents f ++ packet else contents f))
    × IsAligned g

pub write_full :
    (f : Fifo) (packet : List ℕ)
    → IsValid f
    → length packet ≡ 188
    → f.capacity < f.size + 188
    → write f packet ≡ none
unfolding write
write_full f packet v l h = ground (arith, v.small, v.fits)

-- Of a result, what comes of it.
elim_none :
    (o : Option Fifo) (f : Fifo) → o ≡ none → elim o as (λ o'. Fifo) [ none ↦ f | some g ↦ g ] ≡ f
elim_none none f e = refl
elim_none (some g) f e = cc

elim_some :
    (o : Option Fifo) (f g : Fifo)
    → o ≡ some g
    → elim o as (λ o'. Fifo) [ none ↦ f | some g' ↦ g' ] ≡ g
elim_some none f g e = cc
elim_some (some g') f g e = cc

pub write_any_lem :
    {f : Fifo} (packet : List ℕ)
    → IsAligned f
    → length packet ≡ 188
    → Written f packet (write_any f packet)
unfolding write_any Written
write_any_lem {f} packet a l = elim (dec_lt f.capacity (f.size + 188)) [
  | yes full ↦
      let none_left : write f packet ≡ none = write_full f packet a.valid l full in
      subst (Written f packet) (sym (elim_none (write f packet) f none_left)) (ground arith, a)
  | no room ↦ elim (write_refines packet a.valid (omega arith)) [
    | inl (full, e) ↦ absurd (omega arith)
    | inr (g, e, c, v) ↦
        let longer : g.size ≡ f.size + 188 =
          sym (length-contents g)
          ∙ ap length c
          ∙ length-append (contents f) packet
          ∙ omega (arith, length-contents f) in
        subst (Written f packet) (sym (elim_some (write f packet) f g e)) (
          c ∙ ground arith,
          record { valid = v; packets = suc a.packets; whole = omega (arith, a.whole) },
        )
  ]
]

drop-min : (n : ℕ) (xs : List ℕ) → drop (min n (length xs)) xs ≡ drop n xs
drop-min zero xs = let e : min 0 (length xs) ≡ 0 = omega arith in ap (λ k. drop k xs) e
drop-min (suc n) [] = let e : min (suc n) 0 ≡ 0 = omega arith in ap (λ k. drop {A = ℕ} k []) e
drop-min (suc n) (x ∷ xs) =
    let e : min (suc n) (suc (length xs)) ≡ suc (min n (length xs)) = omega arith in
    ap (λ k. drop k (x ∷ xs)) e ∙ drop-min n xs

drop-nil : (n : ℕ) → drop {A = ℕ} n [] ≡ []
drop-nil zero = refl
drop-nil (suc n) = refl

drop-drop : (n m : ℕ) (xs : List ℕ) → drop m (drop n xs) ≡ drop (n + m) xs
drop-drop zero m xs = let e : m ≡ 0 + m = omega arith in ap (λ k. drop k xs) e
drop-drop (suc n) m [] = drop-nil m ∙ sym (drop-nil (suc n + m))
drop-drop (suc n) m (x ∷ xs) =
    let e : suc n + m ≡ suc (n + m) = omega arith in
    drop-drop n m xs ∙ ap (λ k. drop k (x ∷ xs)) (sym e)

-- The oldest packet leaves, if there is one.
pub drain_lem :
    {f : Fifo}
    → IsAligned f
    → (contents (drain f packet_size) ≡ drop 188 (contents f)) × IsAligned (drain f packet_size)
drain_lem {f} a =
    let (c, v) = drain_refines packet_size a.valid in
    let m : drop (min 188 f.size) (contents f) ≡ drop 188 (contents f) =
      ap (λ n. drop (min 188 n) (contents f)) (sym (length-contents f))
      ∙ drop-min 188 (contents f) in
    (
      c ∙ m,
      record {
        valid = v;
        packets = a.packets - 1;
        whole =
            sym (length-contents (drain f packet_size))
            ∙ ap length (c ∙ m)
            ∙ length-drop 188 (contents f)
            ∙ omega (arith, length-contents f, a.whole);
      },
    )

-- What the front of a FIFO shows.
front_lem : {f : Fifo} → IsAligned f → 188 ≤ f.size → front f ≡ take 188 (contents f)
front_lem {f} a h =
    let room : ltb f.size (0 + 188) ≡ false = ground arith in
    let seen : peek f 188 0 ≡ some (take 188 (contents f)) =
      peek_refines 188 0 a.valid (omega arith) (omega arith)
      ∙ ap (λ b. if b then none else some (take 188 (contents f))) room in
    ap (λ o. elim o as (λ o'. List ℕ) [ none ↦ [] | some packet ↦ packet ]) seen

empty_contents : (f : Fifo) → f.size ≡ 0 → contents f ≡ []
empty_contents f e = is_empty (contents f) (length-contents f ∙ e)
  where
    is_empty : (xs : List ℕ) → length xs ≡ 0 → xs ≡ []
    is_empty [] e = refl
    is_empty (x ∷ xs) e = absurd (omega arith)

-- What is left of a FIFO after whole packets went: nothing, or a start of a section in front.
pub record IsCut (f g : Fifo) : Type 0 where
  pub aligned : IsAligned g
  pub dropped : ℕ
  pub suffix : contents g ≡ drop (dropped * 188) (contents f)
  pub at_start : (contents g ≡ []) ⊎ (is_pusi (take 188 (contents g)) ≡ true)

IsCut-here :
    {f : Fifo}
    → IsAligned f
    → (contents f ≡ []) ⊎ (is_pusi (take 188 (contents f)) ≡ true)
    → IsCut f f
IsCut-here a s = record { aligned = a; dropped = 0; suffix = refl; at_start = s }

IsCut-next : {f g : Fifo} → IsAligned f → IsCut (drain f packet_size) g → IsCut f g
IsCut-next {f} {g} a c = record {
  aligned = c.aligned;
  dropped = suc c.dropped;
  suffix =
      c.suffix
      ∙ ap (drop (c.dropped * 188)) (drain_lem a).0
      ∙ drop-drop 188 (c.dropped * 188) (contents f)
      ∙ ap (λ n. drop n (contents f)) (omega arith);
  at_start = c.at_start;
}

drained_size : (f : Fifo) → (drain f packet_size).size ≡ f.size - 188
unfolding drain skip
drained_size f = ground arith

-- The test of the loop.
goes_on : Fifo → Bool
goes_on f = leb packet_size (size_of f) && not (is_pusi (front f))

stopped :
    {f : Fifo}
    → IsAligned f
    → goes_on f ≡ false
    → (contents f ≡ []) ⊎ (is_pusi (take 188 (contents f)) ≡ true)
unfolding goes_on size_of
stopped {f} a e = elim (dec_lt f.size 188) [
  | yes short ↦ inl (empty_contents f (omega (arith, a.whole)))
  | no long ↦
      let enough : leb 188 f.size ≡ true = ground arith in
      inr (
        subst (λ packet. is_pusi packet ≡ true) (front_lem a (omega arith))
          (not_not (is_pusi (front f)) (ap (λ b. b && not (is_pusi (front f))) (sym enough) ∙ e)))
]
  where
    not_not : (b : Bool) → (true && not b) ≡ false → b ≡ true
    not_not true e = refl
    not_not false e = cc

-- With fuel for each byte the loop drops whole packets, and stops at an empty FIFO or at the start
-- of a section.
drop_to_start-IsCut :
    (fuel : ℕ) (f : Fifo) → IsAligned f → f.size ≤ fuel → IsCut f (drop_to_start fuel f)
unfolding drop_to_start goes_on
drop_to_start-IsCut zero f a h = IsCut-here a (inl (empty_contents f (omega arith)))
drop_to_start-IsCut (suc fuel) f a h =
    let next : Fifo = drain f packet_size in
    let rest : Fifo = drop_to_start fuel next in
    elim (Bool-cases (goes_on f)) [
      | inl e ↦ if_then (IsCut f) (goes_on f) rest f e (
          IsCut-next a
            (drop_to_start-IsCut fuel next (drain_lem a).1 (omega (arith, drained_size f))))
      | inr e ↦ if_else (IsCut f) (goes_on f) rest f e (IsCut-here a (stopped a e))
    ]

-- What the rotation of a section owes its caller: the packets that it keeps start a section, and
-- the new packet comes after them if it fits.
unfoldable pub Rotated : Fifo → List ℕ → Fifo → Type 0
Rotated f packet g = (kept : Fifo) × IsCut (drain f packet_size) kept × Written kept packet g

-- When a packet does not fit in the aligned FIFO of a section stream, the rotation drops the oldest
-- packet and then whole packets up to the next start of a section or the end, and writes the new
-- packet behind the rest if it fits now; the FIFO stays aligned.
pub rotate_lem :
    {f : Fifo} (packet : List ℕ)
    → IsAligned f
    → length packet ≡ 188
    → Rotated f packet (rotate f packet)
unfolding rotate Rotated
rotate_lem {f} packet a l =
    let next : Fifo = drain f packet_size in
    let cut : IsCut next (drop_to_start next.size next) =
      drop_to_start-IsCut next.size next (drain_lem a).1 (omega arith) in
    (drop_to_start next.size next, cut, write_any_lem packet cut.aligned l)
