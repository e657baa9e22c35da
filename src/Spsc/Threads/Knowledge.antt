-- ===== src/Spsc/Threads/Knowledge.antt =====
-- src/spsc_queue.c: what each thread knows of the ring at each place of a call, and how the accesses
-- of the other thread leave that true.
use tsanalyzer.Base.{ℕ, suc, ◌+◌, ◌%◌, ◌<◌, ◌≡◌, sym, ap, ◌∙◌, ◌≢◌}
use tsanalyzer.Base.{[], ◌∷◌, ◌++◌, arith}
use tsanalyzer.Base.{get_or, set, length-set, ap₂}
use tsanalyzer.Base.Window.{
  window, window-suc, window-mod, window-set_ne, get_or_of_set, get_or_of_set_ne, slots_ne,
}
use tsanalyzer.Spsc.{Packet, blank, Queue, next_index, count}
use tsanalyzer.Spsc.Refine.{IsValid, contents, next_index_lem, next_index-mod, count_lem}
use native.Mathlib.Nat.{mod-eq_of_lt}
use tsanalyzer.Spsc.Threads.{
  Producer, Consumer, have_head, may_write, written, have_tail, may_read, taken, System, store,
  publish, release,
}

-- What the producer knows at each place.
abbrev pub ProducerKnows : Queue → Producer → Type 0
ProducerKnows q Producer.out = Unit {0}
ProducerKnows q (have_head pkt h) = h ≡ q.head
ProducerKnows q (may_write pkt h) = (h ≡ q.head) × (suc (count q) < q.size)
ProducerKnows q (written pkt h) =
    (h ≡ q.head) × (suc (count q) < q.size) × (get_or q.buffer h blank ≡ pkt)

-- What the consumer knows at each place.
abbrev pub ConsumerKnows : Queue → Consumer → Type 0
ConsumerKnows q Consumer.out = Unit {0}
ConsumerKnows q (have_tail t) = t ≡ q.tail
ConsumerKnows q (may_read t) = (t ≡ q.tail) × (0 < count q)
ConsumerKnows q (taken t pkt) = (t ≡ q.tail) × (0 < count q) × (get_or q.buffer t blank ≡ pkt)

pub record Inv (s : System) : Type 0 where
  pub valid : IsValid s.queue
  pub history : s.pushed ≡ s.popped ++ contents s.queue
  pub producer_knows : ProducerKnows s.queue s.producer
  pub consumer_knows : ConsumerKnows s.queue s.consumer

-- The slot that the producer writes lies outside the contents.
pub store_lem :
    {q : Queue} (pkt : Packet)
    → IsValid q
    → IsValid (store q q.head pkt)
      × (contents (store q q.head pkt) ≡ contents q)
      × (get_or (set q.buffer q.head pkt) q.head blank ≡ pkt)
unfolding count
store_lem {q} pkt v =
    let (room, at_head) = count_lem v in
    let apart : (k : ℕ) → k < count q → q.head ≢ (q.tail + k) % q.size =
      λ k hk e. slots_ne q.tail k (count q) q.size hk room (sym e ∙ at_head) in
    (
      omega (arith, length-set q.buffer q.head pkt),
      window-set_ne blank q.buffer q.size q.tail (count q) q.head pkt apart,
      get_or_of_set q.buffer q.head pkt blank (omega arith),
    )

pub count-publish :
    {q : Queue}
    → IsValid q
    → suc (count q) < q.size
    → IsValid (publish q q.head) × (count (publish q q.head) ≡ suc (count q))
unfolding count
count-publish {q} v room = ground (arith, next_index_lem q q.head)

pub publish_lem :
    {q : Queue}
    → IsValid q
    → suc (count q) < q.size
    → contents (publish q q.head) ≡ contents q ++ (get_or q.buffer q.head blank ∷ [])
unfolding window
publish_lem {q} v room =
    ap (window blank q.buffer q.size q.tail) (count-publish v room).1
    ∙ ap (λ i. contents q ++ (get_or q.buffer i blank ∷ [])) (sym (count_lem v).1)

pub count-release :
    {q : Queue}
    → IsValid q
    → 0 < count q
    → IsValid (release q q.tail) × (suc (count (release q q.tail)) ≡ count q)
unfolding count
count-release {q} v some_left = ground (arith, next_index_lem q q.tail)

pub release_lem :
    {q : Queue}
    → IsValid q
    → 0 < count q
    → contents q ≡ get_or q.buffer q.tail blank ∷ contents (release q q.tail)
release_lem {q} v some_left =
    let n : ℕ = count (release q q.tail) in
    ap (window blank q.buffer q.size q.tail) (sym (count-release v some_left).1)
    ∙ window-suc blank q.buffer q.size q.tail n
    ∙ ap₂ (λ i w. get_or q.buffer i blank ∷ w) (mod-eq_of_lt v.tail_in)
        (sym (window-mod blank q.buffer q.size (q.tail + 1) n)
          ∙ ap (λ i. window blank q.buffer q.size i n)
              (sym (next_index-mod q q.tail v.small v.tail_in)))

-- A slot that the consumer reads is not the slot that the producer writes.
pub head-ne-tail : {q : Queue} → IsValid q → 0 < count q → q.head ≢ q.tail
unfolding count
head-ne-tail {q} v some_left e = ground arith

-- What each thread knows survives the other's writes.
pub store-ConsumerKnows :
    (q : Queue) (pkt : Packet) (c : Consumer)
    → IsValid q
    → ConsumerKnows q c
    → ConsumerKnows (store q q.head pkt) c
unfolding count
store-ConsumerKnows q pkt Consumer.out v k = tt
store-ConsumerKnows q pkt (have_tail t) v k = k
store-ConsumerKnows q pkt (may_read t) v k = k
store-ConsumerKnows q pkt (taken t x) v k =
    let apart : q.head ≢ t = λ e. head-ne-tail v k.1 (e ∙ k.0) in
    (k.0, k.1, get_or_of_set_ne q.buffer q.head t pkt blank apart ∙ k.2)

pub publish-ConsumerKnows :
    (q : Queue) (c : Consumer)
    → count (publish q q.head) ≡ suc (count q)
    → ConsumerKnows q c
    → ConsumerKnows (publish q q.head) c
publish-ConsumerKnows q Consumer.out n k = tt
publish-ConsumerKnows q (have_tail t) n k = k
publish-ConsumerKnows q (may_read t) n k = (k.0, omega arith)
publish-ConsumerKnows q (taken t x) n k = (k.0, omega arith, k.2)

pub release-ProducerKnows :
    (q : Queue) (p : Producer)
    → suc (count (release q q.tail)) ≡ count q
    → ProducerKnows q p
    → ProducerKnows (release q q.tail) p
release-ProducerKnows q Producer.out n k = tt
release-ProducerKnows q (have_head pkt h) n k = k
release-ProducerKnows q (may_write pkt h) n k = (k.0, omega arith)
release-ProducerKnows q (written pkt h) n k = (k.0, omega arith, k.2)

pub room_of_ne : {q : Queue} → IsValid q → next_index q q.head ≢ q.tail → suc (count q) < q.size
unfolding count
room_of_ne {q} v ne = ground (arith, next_index_lem q q.head)

pub some_of_ne : {q : Queue} → IsValid q → q.tail ≢ q.head → 0 < count q
unfolding count
some_of_ne {q} v ne = ground arith
