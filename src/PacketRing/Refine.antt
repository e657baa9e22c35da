-- ===== src/PacketRing/Refine.antt =====
-- src/tsa_utils.c, the packet ring: its packets and its timestamps are bounded queues that move
-- together.
use tsanalyzer.Base.{ℕ, suc, ◌+◌, ◌-◌, ◌%◌, ◌^◌, ◌≤◌, ◌<◌, ◌≡◌, refl, sym, ap, ap₂, ◌∙◌}
use tsanalyzer.Base.{List, [], ◌∷◌, ◌++◌, Option, none, some, Bool, true, false, inl, inr, arith}
use tsanalyzer.Base.{length, get_or, set, length-set, sub64, sub64-eq-sub, u64, ◌==◌, leb}
use tsanalyzer.Base.{dec_lt, Bool-cases, if_then, if_else, lt→ltb, ltb-false}
use tsanalyzer.Base.Window.{window, window-suc, window-push, length-window}
use tsanalyzer.BoundedQueue.{put}
use tsanalyzer.PacketRing.{Ring, create, push, pop}

-- The storage has a slot for each index, the counters are words, and the producer is ahead by at
-- most the size.
pub record IsValid (r : Ring) : Type 0 where
  pub packets_fit : length r.buffer ≡ r.sz
  pub stamps_fit : length r.timestamps ≡ r.sz
  pub ordered : r.tail ≤ r.head
  pub fits : r.head ≤ r.tail + r.sz
  pub head_word : r.head < 2 ^ 64

-- What the ring holds, the oldest first.
abbrev pub packets : Ring → List (List ℕ)
packets r = window [] r.buffer r.sz r.tail (r.head - r.tail)

abbrev pub stamps : Ring → List ℕ
stamps r = window 0 r.timestamps r.sz r.tail (r.head - r.tail)

-- A ring that is allocated with its storage is valid and empty.
pub create-IsValid :
    (buffer : List (List ℕ)) (timestamps : List ℕ) (sz : ℕ) {r : Ring}
    → length buffer ≡ sz
    → length timestamps ≡ sz
    → create true buffer timestamps sz ≡ some r
    → IsValid r × (packets r ≡ []) × (stamps r ≡ [])
unfolding create window
create-IsValid buffer timestamps sz hb ht e = ground arith

-- Writing at the producer's counter extends either window.
slot_written {ℓ} :
    {A : Type ℓ} (d : A) (buf : List A) (sz tail head : ℕ) (x : A)
    → length buf ≡ sz
    → tail ≤ head
    → head < tail + sz
    → window d (set buf (head % sz) x) sz tail (head + 1 - tail)
      ≡ window d buf sz tail (head - tail) ++ (x ∷ [])
slot_written d buf sz tail head x l ht hf =
    let n : ℕ = head - tail in
    let a : head + 1 - tail ≡ suc n = omega arith in
    let b : head ≡ tail + n = omega arith in
    ap₂ (λ (k : ℕ) m. window d (set buf (k % sz) x) sz tail m) b a
    ∙ window-push d buf sz tail n x (omega arith) (omega arith)

-- The oldest element leaves either window.
slot_read {ℓ} :
    {A : Type ℓ} (d : A) (buf : List A) (sz tail head : ℕ)
    → tail < head
    → window d buf sz tail (head - tail)
      ≡ get_or buf (tail % sz) d ∷ window d buf sz (tail + 1) (head - (tail + 1))
slot_read d buf sz tail head h =
    let n : ℕ = head - (tail + 1) in
    let a : head - tail ≡ suc n = omega arith in
    ap (window d buf sz tail) a ∙ window-suc d buf sz tail n

put_room {ℓ} :
    {A : Type ℓ} (bound : ℕ) (q : List A) (x : A)
    → length q < bound
    → put bound q x ≡ (true, q ++ (x ∷ []))
unfolding put
put_room bound q x h = rw (lt→ltb (length q) bound h)

put_full {ℓ} :
    {A : Type ℓ} (bound : ℕ) (q : List A) (x : A) → bound ≤ length q → put bound q x ≡ (false, q)
unfolding put
put_full bound q x h = rw (ltb-false (length q) bound h)

-- What `tsa_packet_ring_push` owes its caller.
pub Pushed : Ring → List ℕ → ℕ → Bool × Ring → Type 0
Pushed r p n (done, q) =
    ((done, packets q) ≡ put r.sz (packets r) p)
    × ((done, stamps q) ≡ put r.sz (stamps r) n)
    × IsValid q

-- The ring after a push that found room.
written : Ring → List ℕ → ℕ → Ring
written r p n = record r {
  buffer = set r.buffer (r.head % r.sz) p;
  timestamps = set r.timestamps (r.head % r.sz) n;
  head = u64 (r.head + 1);
}

written-Pushed :
    {r : Ring} (p : List ℕ) (n : ℕ)
    → IsValid r
    → r.head + 1 < 2 ^ 64
    → r.head - r.tail < r.sz
    → Pushed r p n (true, written r p n)
unfolding Pushed written
written-Pushed {r} p n v small room =
    let word : u64 (r.head + 1) ≡ r.head + 1 = omega arith in
    let ahead : r.head < r.tail + r.sz = omega (arith, v.ordered) in
    let i : ℕ = r.head % r.sz in
    (
      ap (λ k. (true, window [] (set r.buffer i p) r.sz r.tail (k - r.tail))) word
          ∙ ap (λ q. (true, q))
              (slot_written [] r.buffer r.sz r.tail r.head p v.packets_fit v.ordered ahead)
          ∙ sym (
              put_room r.sz (packets r) p
                (omega (arith, length-window [] r.buffer r.sz r.tail (r.head - r.tail)))),
      ap (λ k. (true, window 0 (set r.timestamps i n) r.sz r.tail (k - r.tail))) word
          ∙ ap (λ q. (true, q))
              (slot_written 0 r.timestamps r.sz r.tail r.head n v.stamps_fit v.ordered ahead)
          ∙ sym (
              put_room r.sz (stamps r) n
                (omega (arith, length-window 0 r.timestamps r.sz r.tail (r.head - r.tail)))),
      record {
        packets_fit = length-set r.buffer i p ∙ v.packets_fit;
        stamps_fit = length-set r.timestamps i n ∙ v.stamps_fit;
        ordered = omega (arith, v.ordered);
        fits = omega arith;
        head_word = omega arith;
      },
    )

-- While the counter of a valid ring is not about to wrap, `tsa_packet_ring_push` puts the packet
-- into the queue of packets and the timestamp into the queue of timestamps, both bounded by the
-- size, or refuses both; the ring stays valid.
pub push-Pushed :
    {r : Ring} (p : List ℕ) (n : ℕ) → IsValid r → r.head + 1 < 2 ^ 64 → Pushed r p n (push r p n)
unfolding push written Pushed
push-Pushed {r} p n v small =
    let used : ℕ = r.head - r.tail in
    let lp : length (packets r) ≡ used = length-window [] r.buffer r.sz r.tail used in
    let ls : length (stamps r) ≡ used = length-window 0 r.timestamps r.sz r.tail used in
    let d : sub64 r.head r.tail ≡ used = sub64-eq-sub r.head r.tail v.ordered v.head_word in
    elim (dec_lt used r.sz) [
      | yes room ↦
          if_else (Pushed r p n) (leb r.sz (sub64 r.head r.tail)) (false, r) (true, written r p n)
            (ground arith) (written-Pushed p n v small room)
      | no full ↦
          if_then (Pushed r p n) (leb r.sz (sub64 r.head r.tail)) (false, r) (true, written r p n)
            (ground arith)
            (
              sym (put_full r.sz (packets r) p (omega arith)),
              sym (put_full r.sz (stamps r) n (omega arith)),
              v,
            )
    ]

-- What `tsa_packet_ring_pop` owes its caller.
pub Popped : Ring → Option (List ℕ × ℕ) × Ring → Type 0
Popped r (none, q) = (packets r ≡ []) × (stamps r ≡ []) × (q ≡ r)
Popped r (some (p, n), q) = (packets r ≡ p ∷ packets q) × (stamps r ≡ n ∷ stamps q) × IsValid q

taken : Ring → Ring
taken r = record r { tail = u64 (r.tail + 1) }

-- On a valid ring `tsa_packet_ring_pop` refuses exactly when both queues are empty, the ring then
-- as it was; otherwise it hands out the oldest packet together with the oldest timestamp, removes
-- both and leaves the ring valid.
pub pop-Popped : {r : Ring} → IsValid r → Popped r (pop r)
unfolding pop Popped window taken
pop-Popped {r} v =
    let out : Option (List ℕ × ℕ) =
      some (get_or r.buffer (r.tail % r.sz) [], get_or r.timestamps (r.tail % r.sz) 0) in
    elim (Bool-cases (r.head == r.tail)) [
      | inl e ↦
          let empty : r.head - r.tail ≡ 0 = ground arith in
          if_then (Popped r) (r.head == r.tail) (none, r) (out, taken r) e
            (
              ap (window [] r.buffer r.sz r.tail) empty,
              ap (window 0 r.timestamps r.sz r.tail) empty,
              refl,
            )
      | inr e ↦
          let some_left : r.tail < r.head = ground (arith, v.ordered) in
          let word : u64 (r.tail + 1) ≡ r.tail + 1 = omega (arith, v.head_word) in
          if_else (Popped r) (r.head == r.tail) (none, r) (out, taken r) e
            (
              rw word (slot_read [] r.buffer r.sz r.tail r.head some_left),
              rw word (slot_read 0 r.timestamps r.sz r.tail r.head some_left),
              record {
                packets_fit = v.packets_fit;
                stamps_fit = v.stamps_fit;
                ordered = omega arith;
                fits = omega (arith, v.fits);
                head_word = v.head_word;
              },
            )
    ]
