-- ===== src/Mpmc/Sequence/Refine.antt =====
-- src/mpmc_queue.c: calls one after the other are those of a bounded first-in first-out queue.
use tsanalyzer.Base.{
  ℕ, suc, ◌+◌, ◌-◌, ◌<◌, ◌≤◌, ◌≡◌, ◌≢◌, refl, sym, ap, ◌∙◌, subst, arith, List, [], Option, none,
  some, true, false, length, get_or, ltb, ◌==◌, u64, dec_lt,
}
use tsanalyzer.Base.Window.{window}
use tsanalyzer.BoundedQueue.{put, get}
use tsanalyzer.Mpmc.{
  Queue, no_item, seems_full, claim_head, fill, is_vacant, claim_tail, empty_slot,
}
use tsanalyzer.Mpmc.Sequence.{push, pop}
use tsanalyzer.Mpmc.Sequence.Valid.{
  IsValid, contents, item_at, pushed, popped, slot_of-mod, seems_full_lem, length-contents,
  head_slot, pushed-IsValid, popped-IsValid, IsValid-fewer, contents-pushed, contents-popped,
}

push_of_room :
    (k n : ℕ) (q : Queue) (x : ℕ)
    → IsValid k (suc n) q
    → q.head - q.tail < q.capacity
    → push q x ≡ some (true, pushed q x)
unfolding push claim_head fill is_vacant
push_of_room k n q x v room =
    let test : seems_full q q.head q.tail ≡ false = seems_full_lem k (suc n) q v ∙ ground arith in
    let slot = slot_of-mod k (suc n) q v q.head in
    let empty : (item_at q q.head == no_item) ≡ true =
      ap (λ m. m == no_item)
        (ap (λ c. get_or q.buffer c no_item) (sym (head_slot k (suc n) q v))
          ∙ v.vacant (q.head - q.tail) (omega arith) room) in
    let counter : u64 (q.head + 1) ≡ q.head + 1 = omega (arith, v.counters) in
    rw (test, slot, empty, counter) refl

push_of_full :
    (k n : ℕ) (q : Queue) (x : ℕ)
    → IsValid k n q
    → q.capacity ≤ q.head - q.tail
    → push q x ≡ some (false, q)
unfolding push
push_of_full k n q x v full =
    let test : seems_full q q.head q.tail ≡ true = seems_full_lem k n q v ∙ ground arith in
    rw test refl

pop_of_some :
    (k n : ℕ) (q : Queue)
    → IsValid k n q
    → q.tail < q.head
    → pop q ≡ some (some (item_at q q.tail), popped q)
unfolding pop claim_tail empty_slot is_vacant
pop_of_some k n q v h =
    let test : ltb q.tail q.head ≡ true = ground arith in
    let slot = slot_of-mod k n q v q.tail in
    let first : q.tail + 0 ≡ q.tail = omega arith in
    let there : item_at q q.tail ≢ no_item =
      λ e. v.filled 0 (omega arith) (ap (item_at q) first ∙ e) in
    let full : (item_at q q.tail == no_item) ≡ false = ground arith in
    let counter : u64 (q.tail + 1) ≡ q.tail + 1 = omega (arith, v.counters) in
    rw (test, slot, full, counter) refl

pop_of_none : (k n : ℕ) (q : Queue) → IsValid k n q → q.head ≤ q.tail → pop q ≡ some (none, q)
unfolding pop
pop_of_none k n q v h = let test : ltb q.tail q.head ≡ false = ground arith in rw test refl

-- What a call owes: it returns, as the specification says, and leaves a queue that is fit for `n`
-- pushes more.
unfoldable pub Refined : {A : Type 0} (k n : ℕ) → Queue → Option (A × Queue) → A × List ℕ → Type 0
Refined {A} k n q result spec =
    (next : Queue) × (result ≡ some (spec.0, next))
    × (contents next ≡ spec.1)
    × (next.capacity ≡ q.capacity)
    × IsValid k n next

-- On a queue whose slots are filled from the tail to the head and whose counters have room, a push
-- of an item below UINT32_MAX, with no other call running, returns and is that of a bounded queue:
-- it appends the item, or refuses it if the queue holds as many items as its capacity.
pub push_returns :
    (k n : ℕ) (q : Queue) (x : ℕ)
    → IsValid k (suc n) q
    → x < no_item
    → Refined k n q (push q x) (put q.capacity (contents q) x)
unfolding Refined put
push_returns k n q x v small =
    let held = length-contents k (suc n) q v in
    elim (dec_lt (q.head - q.tail) q.capacity) [
      | yes room ↦
          let test : ltb (length (contents q)) q.capacity ≡ true = ground (arith, held) in
          rw test (
            pushed q x,
            push_of_room k n q x v room,
            contents-pushed k (suc n) q x v room,
            refl,
            pushed-IsValid k n q x v room (λ e. omega arith),
          )
      | no full ↦
          let test : ltb (length (contents q)) q.capacity ≡ false = ground (arith, held) in
          rw test (q, push_of_full k (suc n) q x v (omega arith), refl, refl, IsValid-fewer v)
    ]

-- In the same way a pop returns and is that of a bounded queue: it takes the item that was pushed
-- first, or none from an empty queue.
pub pop_returns : (k n : ℕ) (q : Queue) → IsValid k n q → Refined k n q (pop q) (get (contents q))
unfolding Refined get window
pop_returns k n q v = elim (dec_lt q.tail q.head) [
  | yes h ↦
      subst (λ l. Refined k n q (pop q) (get l)) (sym (contents-popped k n q v h))
        (popped q, pop_of_some k n q v h, refl, refl, popped-IsValid k n q v h)
  | no none_there ↦
      let zero_items : q.head - q.tail ≡ 0 = omega arith in
      let empty : contents q ≡ [] = ap (window no_item q.buffer q.capacity q.tail) zero_items in
      subst (λ l. Refined k n q (pop q) (get l)) (sym empty)
        (q, pop_of_none k n q v (omega arith), empty, refl, v)
]
