-- ===== src/Spsc/Refine.antt =====
-- src/spsc_queue.c: the ring, used by one thread at a time, is a bounded queue.
use tsanalyzer.Base.{ℕ, suc, ◌+◌, ◌-◌, ◌%◌, ◌^◌, ◌<◌, ◌≡◌, sym, ap, ◌∙◌}
use tsanalyzer.Base.{List, [], ◌∷◌, ◌++◌, Option, none, some, Bool, true, false, arith}
use tsanalyzer.Base.{length, get_or, set, length-set, length-replicate, if◌then◌else◌, ◌==◌, ltb}
use tsanalyzer.Base.{Bool-cases, inl, inr}
use tsanalyzer.Base.Window.{window, length-window, window-push, window-suc, window-mod, mod_cases}
use tsanalyzer.BoundedQueue
use tsanalyzer.Spsc.{Packet, blank, Queue, add_size, next_index, create, push, pop, count, is_full}
use native.Mathlib.Nat.{mod-eq_of_lt}

-- Both indices stay inside the buffer, and no index computation wraps.
pub record IsValid (q : Queue) : Type 0 where
  pub storage : length q.buffer ≡ q.size
  pub head_in : q.head < q.size
  pub tail_in : q.tail < q.size
  pub small : q.size < 2 ^ 64

abbrev pub contents : Queue → List Packet
contents q = window blank q.buffer q.size q.tail (count q)

-- The index that follows, without the modulus.
pub next_index_lem :
    (q : Queue) (i : ℕ)
    → q.size < 2 ^ 64
    → i < q.size
    → next_index q i ≡ (if suc i == q.size then 0 else suc i)
next_index_lem q i hs hi =
    ground (arith, mod-eq_of_lt {n = i + 1} {m = 2 ^ 64}, mod_cases (i + 1) q.size)

pub next_index-mod :
    (q : Queue) (i : ℕ) → q.size < 2 ^ 64 → i < q.size → next_index q i ≡ (i + 1) % q.size
next_index-mod q i hs hi =
    ap (λ k. k % q.size) (mod-eq_of_lt {n = i + 1} {m = 2 ^ 64} (omega arith))

-- Counting from the tail by the number of elements reaches the head.
pub count_lem :
    {q : Queue} → IsValid q → (count q < q.size) × (q.head ≡ (q.tail + count q) % q.size)
unfolding count
count_lem {q} v = ground (
  arith,
  mod_cases q.head q.size,
  mod_cases (q.tail + (q.size - (q.tail - q.head))) q.size,
  mod_cases (q.tail + (q.head - q.tail)) q.size,
)

count-push :
    {q : Queue} (pkt : Packet)
    → IsValid q
    → is_full q ≡ false
    → count (push q pkt).1 ≡ suc (count q)
unfolding count push is_full
count-push {q} pkt v f = ground (arith, next_index_lem q q.head)

-- `create` gives a valid, empty queue of one slot more than asked for.
pub create-IsValid :
    (a b : Bool) (size : ℕ) {q : Queue}
    → size < 2 ^ 64 - 1
    → create a b size ≡ some q
    → IsValid q × (contents q ≡ []) × (q.size ≡ size + 1)
unfolding create window count
create-IsValid a b size h e = ground (arith, length-replicate (add_size size 1) blank)

pub push-IsValid : {q : Queue} (pkt : Packet) → IsValid q → IsValid (push q pkt).1
unfolding push
push-IsValid {q} pkt v = ground (arith, next_index_lem q q.head, length-set q.buffer q.head pkt)

pub pop-IsValid : {q : Queue} → IsValid q → IsValid (pop q).1
unfolding pop
pop-IsValid {q} v = ground (arith, next_index_lem q q.tail)

is_full_lem :
    {q : Queue} → IsValid q → is_full q ≡ (if ltb (count q) (q.size - 1) then false else true)
unfolding is_full count
is_full_lem {q} v = ground (arith, next_index_lem q q.head)

is_empty_lem : {q : Queue} → IsValid q → (q.tail == q.head) ≡ (count q == 0)
unfolding count
is_empty_lem {q} v = ground arith

push_of_full : (q : Queue) (pkt : Packet) → is_full q ≡ true → push q pkt ≡ (false, q)
unfolding push is_full
push_of_full q pkt f = ground arith

pub push_of_room :
    (q : Queue) (pkt : Packet)
    → is_full q ≡ false
    → push q pkt ≡ (true, record q { buffer = set q.buffer q.head pkt; head = next_index q q.head })
unfolding push is_full
push_of_room q pkt f = rw f

-- A packet written at the head extends the contents, once the head has moved.
pub window-write_head :
    {q : Queue} (pkt : Packet)
    → IsValid q
    → window blank (set q.buffer q.head pkt) q.size q.tail (suc (count q))
      ≡ contents q ++ (pkt ∷ [])
window-write_head {q} pkt v =
    let (room, at_head) = count_lem v in
    ap (λ i. window blank (set q.buffer i pkt) q.size q.tail (suc (count q))) at_head
    ∙ window-push blank q.buffer q.size q.tail (count q) pkt (omega arith) room

-- A push that is accepted appends its packet.
pub contents-push :
    {q : Queue} (pkt : Packet)
    → IsValid q
    → is_full q ≡ false
    → contents (push q pkt).1 ≡ contents q ++ (pkt ∷ [])
contents-push {q} pkt v f =
    ap (window blank (push q pkt).1.buffer (push q pkt).1.size (push q pkt).1.tail)
      (count-push pkt v f)
    ∙ ap (λ (r : Bool × Queue). window blank r.1.buffer r.1.size r.1.tail (suc (count q)))
        (push_of_room q pkt f)
    ∙ window-write_head pkt v

-- `push` on a valid ring returns what a queue bounded by its size less one returns, and leaves the
-- ring holding that queue's elements.
pub push_refines :
    {q : Queue} (pkt : Packet)
    → IsValid q
    → let (done, q') = push q pkt in
      (done, contents q') ≡ BoundedQueue.put (q.size - 1) (contents q) pkt
unfolding BoundedQueue.put
push_refines {q} pkt v = elim (Bool-cases (is_full q)) [
  | inl f ↦ ground (
    arith,
    push_of_full q pkt f,
    is_full_lem v,
    length-window blank q.buffer q.size q.tail (count q),
  )
  | inr f ↦ ground (
    arith,
    contents-push pkt v f,
    push_of_room q pkt f,
    is_full_lem v,
    length-window blank q.buffer q.size q.tail (count q),
  )
]

pop_of_empty : (q : Queue) → (q.tail == q.head) ≡ true → pop q ≡ (none, q)
unfolding pop
pop_of_empty q e = rw e

pub pop_of_some :
    (q : Queue)
    → (q.tail == q.head) ≡ false
    → pop q ≡ (some (get_or q.buffer q.tail blank), record q { tail = next_index q q.tail })
unfolding pop
pop_of_some q e = rw e

pub count-pop :
    {q : Queue} → IsValid q → (q.tail == q.head) ≡ false → suc (count (pop q).1) ≡ count q
unfolding count pop
count-pop {q} v f = ground (arith, next_index_lem q q.tail)

-- A pop that succeeds takes the oldest packet.
pub contents-pop :
    {q : Queue}
    → IsValid q
    → (q.tail == q.head) ≡ false
    → contents q ≡ get_or q.buffer q.tail blank ∷ contents (pop q).1
contents-pop {q} v f =
    let n : ℕ = count (pop q).1 in
    let next : next_index q q.tail ≡ (q.tail + 1) % q.size =
      next_index-mod q q.tail v.small v.tail_in in
    let rest : window blank q.buffer q.size (q.tail + 1) n ≡ contents (pop q).1 =
      sym (window-mod blank q.buffer q.size (q.tail + 1) n)
      ∙ ap (λ i. window blank q.buffer q.size i n) (sym next)
      ∙ ap (λ (r : Option Packet × Queue). window blank r.1.buffer r.1.size r.1.tail n)
          (sym (pop_of_some q f)) in
    ap (window blank q.buffer q.size q.tail) (sym (count-pop v f))
    ∙ window-suc blank q.buffer q.size q.tail n
    ∙ ap (λ i. get_or q.buffer i blank ∷ window blank q.buffer q.size (q.tail + 1) n)
        (mod-eq_of_lt v.tail_in)
    ∙ ap (λ w. get_or q.buffer q.tail blank ∷ w) rest

-- `pop` returns the oldest element of a valid ring, none if it is empty, and leaves the others.
pub pop_refines :
    {q : Queue}
    → IsValid q
    → let (out, q') = pop q in (out, contents q') ≡ BoundedQueue.get (contents q)
unfolding BoundedQueue.get window
pop_refines {q} v = elim (Bool-cases (q.tail == q.head)) [
  | inl f ↦ ground (arith, pop_of_empty q f, is_empty_lem v)
  | inr f ↦ ground (arith, contents-pop v f, pop_of_some q f)
]
