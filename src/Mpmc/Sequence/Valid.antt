-- ===== src/Mpmc/Sequence/Valid.antt =====
-- src/mpmc_queue.c: the queue between calls, with its slots filled from the tail to the head, and what
-- a push and a pop make of it.
use tsanalyzer.Base.{
  ℕ, zero, suc, ◌+◌, ◌-◌, ◌%◌, ◌^◌, ◌<◌, ◌≤◌, ◌≡◌, ◌≢◌, refl, sym, ap, ap₂, ◌∙◌, subst, arith, List,
  [], ◌∷◌, ◌++◌, length, length-set, replicate, length-replicate, get_or, set, leb, sub64,
  sub64-eq-sub, bit_and, ℕ_discrete, dec_lt,
}
use tsanalyzer.Base.Powers.{bit_and-mask, pow_pos}
use native.Mathlib.Nat.{pow-le-pow_right, pow-suc, mod-lt, add-mod_right}
use tsanalyzer.Base.Window.{
  window, length-window, window-push, window-suc, window-set_ne, slots_ne, get_or_of_set,
  get_or_of_set_ne,
}
use tsanalyzer.Mpmc.{Queue, no_item, seems_full, slot_of}

-- The slot of the counter `c`, and what is in it.
abbrev pub item_at : Queue → ℕ → ℕ
item_at q c = get_or q.buffer (c % q.capacity) no_item

-- The slots between the tail and the head are filled, and the others are not; the counters have
-- room for `n` pushes.
pub record IsValid (k n : ℕ) (q : Queue) : Type 0 where
  pub power : q.capacity ≡ 2 ^ k
  pub word : q.capacity < 2 ^ 64
  pub storage : length q.buffer ≡ q.capacity
  pub ordered : q.tail ≤ q.head
  pub fits : q.head ≤ q.tail + q.capacity
  pub counters : q.head + n < 2 ^ 64
  pub filled : (i : ℕ) → i < q.head - q.tail → item_at q (q.tail + i) ≢ no_item
  pub vacant : (i : ℕ) → q.head - q.tail ≤ i → i < q.capacity → item_at q (q.tail + i) ≡ no_item

abbrev pub contents : Queue → List ℕ
contents q = window no_item q.buffer q.capacity q.tail (q.head - q.tail)

module _ (k n : ℕ) (q : Queue) (v : IsValid k n q) where
  capacity_pos : 0 < q.capacity
  capacity_pos = subst (λ c. 0 < c) (sym v.power) (pow_pos k)

  pub slot_of-mod : (c : ℕ) → slot_of q c ≡ c % q.capacity
  unfolding slot_of
  slot_of-mod c =
      let mask : sub64 q.capacity 1 ≡ q.capacity - 1 =
        sub64-eq-sub q.capacity 1 capacity_pos v.word in
      ap (bit_and c) (mask ∙ ap (λ m. m - 1) v.power)
      ∙ bit_and-mask c k
      ∙ ap (λ m. c % m) (sym v.power)

  pub seems_full_lem : seems_full q q.head q.tail ≡ leb q.capacity (q.head - q.tail)
  unfolding seems_full
  seems_full_lem =
      ap (leb q.capacity) (sub64-eq-sub q.head q.tail v.ordered (omega (arith, v.counters)))

  pub length-contents : length (contents q) ≡ q.head - q.tail
  length-contents = length-window no_item q.buffer q.capacity q.tail (q.head - q.tail)

  -- The slot of the head, and that of the tail.
  pub head_slot : (q.tail + (q.head - q.tail)) % q.capacity ≡ q.head % q.capacity
  head_slot =
      let e : q.tail + (q.head - q.tail) ≡ q.head = omega (arith, v.ordered) in
      ap (λ c. c % q.capacity) e

  slot_in : (c : ℕ) → c % q.capacity < length q.buffer
  slot_in c = omega (arith, mod-lt c capacity_pos, v.storage)

  item_set_self : (c x : ℕ) → get_or (set q.buffer (c % q.capacity) x) (c % q.capacity) no_item ≡ x
  item_set_self c x = get_or_of_set q.buffer (c % q.capacity) x no_item (slot_in c)

  item_set_ne :
      (t i j x : ℕ)
      → i < q.capacity
      → j < q.capacity
      → i ≢ j
      → get_or (set q.buffer ((t + i) % q.capacity) x) ((t + j) % q.capacity) no_item
        ≡ item_at q (t + j)
  item_set_ne t i j x hi hj ne =
      get_or_of_set_ne q.buffer ((t + i) % q.capacity) ((t + j) % q.capacity) x no_item
        (elim (dec_lt i j) [
          | yes h ↦ slots_ne t i j q.capacity h hj
          | no h ↦ λ e. slots_ne t j i q.capacity (omega arith) hi (sym e)
        ])

-- The queue after a push that finds room, and after a pop that finds an item.
abbrev pub pushed : Queue → ℕ → Queue
pushed q x = record q { head = q.head + 1; buffer = set q.buffer (q.head % q.capacity) x }

abbrev pub popped : Queue → Queue
popped q = record q { tail = q.tail + 1; buffer = set q.buffer (q.tail % q.capacity) no_item }

pub pushed-IsValid :
    (k n : ℕ) (q : Queue) (x : ℕ)
    → IsValid k (suc n) q
    → q.head - q.tail < q.capacity
    → x ≢ no_item
    → IsValid k n (pushed q x)
pushed-IsValid k n q x v room item = record {
  power = v.power;
  word = v.word;
  storage = length-set q.buffer _ x ∙ v.storage;
  ordered = omega (arith, v.ordered);
  fits = omega (arith, v.ordered);
  counters = omega (arith, v.counters);
  filled = λ i hi. elim (ℕ_discrete i (q.head - q.tail)) [
    | yes e ↦ λ empty. item (sym (pushed_item i e) ∙ empty)
    | no ne ↦ λ empty. v.filled i (omega arith) (sym (other i (omega (arith, v.fits)) ne) ∙ empty)
  ];
  vacant = λ i hi small. other i small (λ e. omega arith) ∙ v.vacant i (omega arith) small;
}
  where
    at_head : (q.tail + (q.head - q.tail)) % q.capacity ≡ q.head % q.capacity
    at_head = head_slot k (suc n) q v

    pushed_item : (i : ℕ) → i ≡ q.head - q.tail → item_at (pushed q x) (q.tail + i) ≡ x
    pushed_item i e =
        ap (λ c. get_or (pushed q x).buffer c no_item)
          (ap (λ m. (q.tail + m) % q.capacity) e ∙ at_head)
        ∙ item_set_self k (suc n) q v q.head x

    other :
        (i : ℕ)
        → i < q.capacity
        → i ≢ q.head - q.tail
        → item_at (pushed q x) (q.tail + i) ≡ item_at q (q.tail + i)
    other i small ne =
        ap (λ c. get_or (set q.buffer c x) ((q.tail + i) % q.capacity) no_item) (sym at_head)
        ∙ item_set_ne k (suc n) q v q.tail (q.head - q.tail) i x room small (λ e. ne (sym e))

pub popped-IsValid :
    (k n : ℕ) (q : Queue) → IsValid k n q → q.tail < q.head → IsValid k n (popped q)
popped-IsValid k n q v some_item = record {
  power = v.power;
  word = v.word;
  storage = length-set q.buffer _ no_item ∙ v.storage;
  ordered = omega arith;
  fits = omega (arith, v.fits);
  counters = v.counters;
  filled =
      λ i hi empty. v.filled (suc i) (omega arith) (sym (other i (omega (arith, v.fits))) ∙ empty);
  vacant = λ i hi small. elim (dec_lt (suc i) q.capacity) [
    | yes h ↦ other i h ∙ v.vacant (suc i) (omega arith) h
    | no h ↦
        let round : q.tail + 1 + i ≡ q.tail + q.capacity = omega arith in
        ap (λ c. get_or (popped q).buffer c no_item)
          (ap (λ c. c % q.capacity) round ∙ add-mod_right q.tail q.capacity)
        ∙ item_set_self k n q v q.tail no_item
  ];
}
  where
    other :
        (i : ℕ)
        → suc i < q.capacity
        → item_at (popped q) (q.tail + 1 + i) ≡ item_at q (q.tail + suc i)
    other i small =
        let first : q.tail ≡ q.tail + 0 = omega arith in
        let next : q.tail + 1 + i ≡ q.tail + suc i = omega arith in
        ap₂ (λ a b. get_or (set q.buffer (a % q.capacity) no_item) (b % q.capacity) no_item) first
          next
        ∙ item_set_ne k n q v q.tail 0 (suc i) no_item (omega arith) small (λ e. omega arith)

pub IsValid-fewer : {k n : ℕ} {q : Queue} → IsValid k (suc n) q → IsValid k n q
IsValid-fewer v = record {
  power = v.power;
  word = v.word;
  storage = v.storage;
  ordered = v.ordered;
  fits = v.fits;
  counters = omega (arith, v.counters);
  filled = v.filled;
  vacant = v.vacant;
}

pub contents-pushed :
    (k n : ℕ) (q : Queue) (x : ℕ)
    → IsValid k n q
    → q.head - q.tail < q.capacity
    → contents (pushed q x) ≡ contents q ++ (x ∷ [])
contents-pushed k n q x v room =
    let longer : q.head + 1 - q.tail ≡ suc (q.head - q.tail) = omega (arith, v.ordered) in
    ap₂ (λ c m. window no_item (set q.buffer c x) q.capacity q.tail m) (sym (head_slot k n q v))
      longer
    ∙ window-push no_item q.buffer q.capacity q.tail (q.head - q.tail) x (omega (arith, v.storage))
        room

pub contents-popped :
    (k n : ℕ) (q : Queue)
    → IsValid k n q
    → q.tail < q.head
    → contents q ≡ item_at q q.tail ∷ contents (popped q)
contents-popped k n q v h =
    let shorter : q.head - q.tail ≡ suc (q.head - (q.tail + 1)) = omega arith in
    ap (window no_item q.buffer q.capacity q.tail) shorter
    ∙ window-suc no_item q.buffer q.capacity q.tail (q.head - (q.tail + 1))
    ∙ ap (λ w. item_at q q.tail ∷ w)
        (sym (
          window-set_ne no_item q.buffer q.capacity (q.tail + 1) (q.head - (q.tail + 1))
            (q.tail % q.capacity) no_item
            (λ i hi e.
              let first : q.tail ≡ q.tail + 0 = omega arith in
              let next : q.tail + 1 + i ≡ q.tail + suc i = omega arith in
              slots_ne q.tail 0 (suc i) q.capacity (omega arith) (omega (arith, v.fits))
                (ap (λ c. c % q.capacity) (sym first) ∙ e ∙ ap (λ c. c % q.capacity) next))))

below_word : (k : ℕ) → k < 64 → 2 ^ k < 2 ^ 64
below_word k small =
    let bound : 2 ^ suc k ≤ 2 ^ 64 = pow-le-pow_right {n = 2} (omega arith) small in
    omega (arith, pow-suc 2 k, pow_pos k)

get_or-replicate : (n i : ℕ) → get_or (replicate n no_item) i no_item ≡ no_item
get_or-replicate zero i = refl
get_or-replicate (suc n) zero = refl
get_or-replicate (suc n) (suc i) = get_or-replicate n i

-- A queue without an item, as `mpmc_queue_create` leaves one of capacity 2^k.
pub fresh-IsValid :
    (k n : ℕ)
    → k < 64
    → n < 2 ^ 64
    → IsValid k n
        (record { capacity = 2 ^ k; head = 0; tail = 0; buffer = replicate (2 ^ k) no_item })
fresh-IsValid k n small room = record {
  power = refl;
  word = below_word k small;
  storage = length-replicate (2 ^ k) no_item;
  ordered = omega arith;
  fits = omega arith;
  counters = omega arith;
  filled = λ i h. absurd (omega arith);
  vacant = λ i a b. get_or-replicate (2 ^ k) ((0 + i) % 2 ^ k);
}
