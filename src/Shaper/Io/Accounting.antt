-- ===== src/Shaper/Io/Accounting.antt =====
-- src/libtsshaper/src/core/tss_io.c, `tss_internal_enqueue_packet`: every byte that comes in is
-- accounted for, the FIFO stays aligned, and what may not be dropped is kept.
use tsanalyzer.Base.{ℕ, ◌+◌, ◌≤◌, ◌≡◌, refl, sym, ap, ◌∙◌}
use tsanalyzer.Base.{List, ◌++◌, none, some, Bool, true, false, not, ◌&&◌, subst}
use tsanalyzer.Base.{
  sub64, leb→le, length, leb, if◌then◌else◌, Bool-cases, inl, inr, arith, if_each, if_then, if_else,
}
use tsanalyzer.Shaper.Fifo.{Fifo, size_of}
use tsanalyzer.Shaper.Fifo.Refine.{contents}
use tsanalyzer.Shaper.State.{PidState, Shaper, PidType, psi, video, audio, other_data, pcr}
use tsanalyzer.Shaper.Io.Rotation.{IsAligned, Written, write_any_lem, rotate_lem, Rotated}
use tsanalyzer.Shaper.Io.{
  is_pcr, is_psi, is_video, is_waiting, is_pusi, watch, watchdog, shed_by_type, shed, accept,
  drop_packet, has_room, settle, rotate, enqueue_into, enqueue_packet, write_any,
}

-- What the watchdog and the shedding leave alone.
pub record IsSame (p q : PidState) : Type 0 where
  pub fifo : q.ingress.ts_fifo ≡ p.ingress.ts_fifo
  pub capacity : q.ingress.fifo_capacity ≡ p.ingress.fifo_capacity
  pub accepted : q.ingress.fifo_accept_bytes ≡ p.ingress.fifo_accept_bytes
  pub dropped : q.ingress.drop_bytes_total ≡ p.ingress.drop_bytes_total
  pub kind : q.pid_type ≡ p.pid_type

IsSame-refl : (p : PidState) → IsSame p p
IsSame-refl p = record {
  fifo = refl;
  capacity = refl;
  accepted = refl;
  dropped = refl;
  kind = refl;
}

watchdog-IsSame :
    (ctx : Shaper) (p : PidState) (packet : List ℕ) → IsSame p (watchdog ctx p packet).1
unfolding watchdog watch
watchdog-IsSame ctx p packet = ground arith

shed_by_type-IsSame :
    (t : PidType) (ctx : Shaper) (p : PidState) (size : ℕ) (packet : List ℕ)
    → IsSame p (shed_by_type t ctx p size packet).0
unfolding shed_by_type
shed_by_type-IsSame video ctx p size packet = ground arith
shed_by_type-IsSame audio ctx p size packet = ground arith
shed_by_type-IsSame psi ctx p size packet = IsSame-refl p
shed_by_type-IsSame other_data ctx p size packet = IsSame-refl p
shed_by_type-IsSame pcr ctx p size packet = IsSame-refl p

shed-IsSame :
    (ctx : Shaper) (p : PidState) (force : Bool) (size : ℕ) (packet : List ℕ)
    → IsSame p (shed ctx p force size packet).0
unfolding shed
shed-IsSame ctx p force size packet =
    if_each (λ (r : PidState × Bool). IsSame p r.0) _ _ _
      (shed_by_type-IsSame p.pid_type ctx p size packet) (IsSame-refl p)

-- A packet of a PCR or of a section is not shed, and not held back where its stream has one.
shed_spared :
    (ctx : Shaper) (p : PidState) (size : ℕ) (packet : List ℕ)
    → is_pcr packet ≡ true
    → (shed ctx p false size packet).1 ≡ false
unfolding shed
shed_spared ctx p size packet e = rw e

and_not : (a b c : Bool) → c ≡ true → (a && b && not c) ≡ false
and_not a b c e = ground arith

watchdog_spared :
    (ctx : Shaper) (p : PidState) (packet : List ℕ)
    → is_pcr packet ≡ true
    → (watchdog ctx p packet).2 ≡ false
unfolding watchdog
watchdog_spared ctx p packet e =
    if_else (λ (r : Shaper × PidState × Bool). r.2 ≡ false) _ _ _
      (and_not (is_video p.pid_type) (is_waiting p.state) (is_pcr packet) e) refl

-- What became of a packet, for the stream before and after: it went behind what the FIFO holds, it
-- was refused, or it made a section stream rotate; the bytes were counted as such.
pub data Settled (p : PidState) (f : Fifo) (packet : List ℕ) (q : PidState) : Type 0 where
  kept :
      (g : Fifo)
      → q.ingress.ts_fifo ≡ some g
      → contents g ≡ contents f ++ packet
      → IsAligned g
      → q.ingress.fifo_accept_bytes ≡ p.ingress.fifo_accept_bytes + 188
      → q.ingress.drop_bytes_total ≡ p.ingress.drop_bytes_total
      → Settled p f packet q
  refused :
      q.ingress.ts_fifo ≡ some f
      → q.ingress.fifo_accept_bytes ≡ p.ingress.fifo_accept_bytes
      → q.ingress.drop_bytes_total ≡ p.ingress.drop_bytes_total + 188
      → Settled p f packet q
  rotated :
      (g : Fifo)
      → q.ingress.ts_fifo ≡ some g
      → (is_psi p.pid_type && is_pusi packet) ≡ true
      → Rotated f packet g
      → q.ingress.fifo_accept_bytes ≡ p.ingress.fifo_accept_bytes
      → q.ingress.drop_bytes_total ≡ p.ingress.drop_bytes_total + 188
      → Settled p f packet q

write_any_room :
    {f : Fifo} (packet : List ℕ)
    → IsAligned f
    → f.size + 188 ≤ f.capacity
    → length packet ≡ 188
    → (contents (write_any f packet) ≡ contents f ++ packet) × IsAligned (write_any f packet)
unfolding Written
write_any_room {f} packet a room l =
    let (c, aligned) = write_any_lem packet a l in
    let fits : leb (f.size + 188) f.capacity ≡ true = ground arith in
    (c ∙ ap (λ b. if b then contents f ++ packet else contents f) fits, aligned)

accept-Settled :
    (p : PidState) {f : Fifo} (packet : List ℕ)
    → IsAligned f
    → f.size + 188 ≤ f.capacity
    → length packet ≡ 188
    → Settled p f packet (accept p f packet)
unfolding accept
accept-Settled p {f} packet a room l =
    let (c, aligned) = write_any_room packet a room l in
    kept (write_any f packet) refl c aligned refl refl

drop_packet-Settled :
    (p : PidState) {f : Fifo} (packet : List ℕ)
    → IsAligned f
    → length packet ≡ 188
    → Settled p f packet (drop_packet p f packet)
unfolding drop_packet
drop_packet-Settled p {f} packet a l = elim (Bool-cases (is_psi p.pid_type && is_pusi packet)) [
  | inl e ↦
      rotated (rotate f packet) (ap (λ b. some (if b then rotate f packet else f)) e) e
        (rotate_lem packet a l) refl refl
  | inr e ↦ refused (ap (λ b. some (if b then rotate f packet else f)) e) refl refl
]

settle_accepts :
    (p : PidState) (force : Bool) (f : Fifo) (packet : List ℕ)
    → IsAligned f
    → force ≡ false
    → p.ingress.fifo_capacity ≡ f.capacity
    → f.size + 188 ≤ f.capacity
    → settle p force f packet ≡ accept p f packet
unfolding settle has_room size_of
settle_accepts p force f packet a free same room =
    let fits : leb 188 (sub64 p.ingress.fifo_capacity f.size) ≡ true =
      ground (arith, a.valid.small) in
    rw (free, fits)

and_right : (a b : Bool) → (a && b) ≡ true → b ≡ true
and_right a b e = ground arith

settle-Settled :
    (p : PidState) (force : Bool) {f : Fifo} (packet : List ℕ)
    → IsAligned f
    → p.ingress.fifo_capacity ≡ f.capacity
    → length packet ≡ 188
    → Settled p f packet (settle p force f packet)
unfolding settle has_room size_of
settle-Settled p force {f} packet a small l =
    let accepts : Bool = not force && leb 188 (sub64 p.ingress.fifo_capacity f.size) in
    elim (Bool-cases accepts) [
      | inl e ↦
          if_then (Settled p f packet) accepts (accept p f packet) (drop_packet p f packet) e (
            accept-Settled p packet a
              (omega (arith, leb→le 188 _ (and_right (not force) _ e), a.valid.small, a.valid.fits))
              l)
      | inr e ↦
          if_else (Settled p f packet) accepts (accept p f packet) (drop_packet p f packet) e
            (drop_packet-Settled p packet a l)
    ]

-- The outcome for a stream is the outcome for a stream that is the same to the accounts.
Settled-IsSame :
    {p q r : PidState} {f : Fifo} {packet : List ℕ}
    → IsSame p q
    → Settled q f packet r
    → Settled p f packet r
Settled-IsSame s (kept g e c a acc dropped) =
    kept g e c a (acc ∙ ap (λ n. n + 188) s.accepted) (dropped ∙ s.dropped)
Settled-IsSame s (refused e acc dropped) =
    refused e (acc ∙ s.accepted) (dropped ∙ ap (λ n. n + 188) s.dropped)
Settled-IsSame {packet} s (rotated g e psi_start r acc dropped) =
    rotated g e (ap (λ t. is_psi t && is_pusi packet) (sym s.kind) ∙ psi_start) r (acc ∙ s.accepted)
      (dropped ∙ ap (λ n. n + 188) s.dropped)

IsSame-trans : {p q r : PidState} → IsSame p q → IsSame q r → IsSame p r
IsSame-trans a b = record {
  fifo = b.fifo ∙ a.fifo;
  capacity = b.capacity ∙ a.capacity;
  accepted = b.accepted ∙ a.accepted;
  dropped = b.dropped ∙ a.dropped;
  kind = b.kind ∙ a.kind;
}

-- The stream as `settle` finds it.
before_settle : Shaper → PidState → Fifo → List ℕ → PidState × Bool
before_settle ctx p f packet =
    let (watched, seen, force) = watchdog ctx p packet in shed watched seen force (size_of f) packet

before_settle-IsSame :
    (ctx : Shaper) (p : PidState) (f : Fifo) (packet : List ℕ)
    → IsSame p (before_settle ctx p f packet).0
unfolding before_settle
before_settle-IsSame ctx p f packet =
    let (watched, seen, force) = watchdog ctx p packet in
    IsSame-trans (watchdog-IsSame ctx p packet) (shed-IsSame watched seen force (size_of f) packet)

before_settle_spared :
    (ctx : Shaper) (p : PidState) (f : Fifo) (packet : List ℕ)
    → is_pcr packet ≡ true
    → (before_settle ctx p f packet).1 ≡ false
unfolding before_settle
before_settle_spared ctx p f packet e =
    let (watched, seen, force) = watchdog ctx p packet in
    ap (λ b. (shed watched seen b (size_of f) packet).1) (watchdog_spared ctx p packet e)
    ∙ shed_spared watched seen (size_of f) packet e

-- The stream once the packet was counted as received.
received : PidState → PidState
received p = record p {
  ingress = record p.ingress { rx_bytes_total = p.ingress.rx_bytes_total + 188 };
}

enqueue_packet-settle :
    (ctx : Shaper) (p : PidState) (f : Fifo) (packet : List ℕ)
    → p.ingress.ts_fifo ≡ some f
    → (enqueue_packet ctx p packet).1
      ≡ (let (left, force) = before_settle ctx (received p) f packet in settle left force f packet)
unfolding enqueue_packet enqueue_into before_settle received
enqueue_packet-settle ctx p f packet e =
    ap
      (λ o.
        (elim o as (λ o'. Shaper × PidState) [
          | none ↦ (ctx, received p)
          | some g ↦ enqueue_into ctx (received p) g packet
        ]).1)
      e

-- A packet of 188 bytes for a stream whose aligned FIFO is as large as the stream says is
-- stored behind the others, refused with the FIFO as it was, or, for the start of a section that is
-- not stored, put behind what a rotation leaves; its bytes are counted as accepted in the first
-- case and as dropped in the others.
pub enqueue_packet-Settled :
    (ctx : Shaper) (p : PidState) {f : Fifo} (packet : List ℕ)
    → p.ingress.ts_fifo ≡ some f
    → IsAligned f
    → p.ingress.fifo_capacity ≡ f.capacity
    → length packet ≡ 188
    → Settled p f packet (enqueue_packet ctx p packet).1
unfolding received
enqueue_packet-Settled ctx p {f} packet e a small l =
    let (left, force) = before_settle ctx (received p) f packet in
    let same : IsSame (received p) left = before_settle-IsSame ctx (received p) f packet in
    let start : IsSame p (received p) = record {
      fifo = refl;
      capacity = refl;
      accepted = refl;
      dropped = refl;
      kind = refl;
    } in
    subst (Settled p f packet) (sym (enqueue_packet-settle ctx p f packet e)) (
      Settled-IsSame (IsSame-trans start same)
        (settle-Settled left force packet a (same.capacity ∙ small) l))

-- A packet with a PCR, for a stream whose aligned FIFO is as large as the stream says and
-- has room for it, is never dropped: it goes behind what the FIFO holds, also while a video stream
-- waits for a key frame and when the FIFO is nearly full.
pub enqueue_packet-is_pcr :
    (ctx : Shaper) (p : PidState) {f : Fifo} (packet : List ℕ)
    → p.ingress.ts_fifo ≡ some f
    → IsAligned f
    → p.ingress.fifo_capacity ≡ f.capacity
    → length packet ≡ 188
    → is_pcr packet ≡ true
    → f.size + 188 ≤ p.ingress.fifo_capacity
    → (g : Fifo) × ((enqueue_packet ctx p packet).1.ingress.ts_fifo ≡ some g)
      × (contents g ≡ contents f ++ packet)
unfolding received accept
enqueue_packet-is_pcr ctx p {f} packet e a small l protected room =
    let (left, force) = before_settle ctx (received p) f packet in
    let same : IsSame (received p) left = before_settle-IsSame ctx (received p) f packet in
    let free : force ≡ false = before_settle_spared ctx (received p) f packet protected in
    let in_fifo : settle left force f packet ≡ accept left f packet =
      settle_accepts left force f packet a free (same.capacity ∙ small) (omega arith) in
    (
      write_any f packet,
      ap (λ (q : PidState). q.ingress.ts_fifo) (enqueue_packet-settle ctx p f packet e ∙ in_fifo),
      (write_any_room packet a (omega arith) l).0,
    )
