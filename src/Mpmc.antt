-- ===== src/Mpmc.antt =====
-- src/mpmc_queue.c and include/mpmc_queue.h: the lock-free queue of packet indices between any
-- number of producers and consumers. Here its creation and its parts, each one atomic access; Mpmc/Threads runs
-- them interleaved. Pointers are valid; `calloc` is an argument.
pub mod Sequence
pub mod Threads
use tsanalyzer.Base.{ℕ, zero, suc, ◌+◌, ◌-◌, ◌*◌, ◌%◌, ◌^◌, List, Option, none, some}
use tsanalyzer.Base.{Bool, true, false, not, ◌&&◌, ◌||◌, ltb, leb, ◌==◌, if◌then◌else◌}
use tsanalyzer.Base.{get_or, set, replicate, sub64, u64, bit_and}

-- UINT32_MAX, which marks an empty slot
abbrev pub no_item : ℕ
no_item = 4294967295

-- mpmc_queue_t
pub record Queue : Type 0 where
  pub capacity : ℕ
  pub head : ℕ
  pub tail : ℕ
  pub buffer : List ℕ

-- `while (power < capacity && power != 0) power *= 2`; the power is 0 after at most 64 rounds.
unfoldable pub round_up : ℕ → ℕ → ℕ → ℕ
round_up zero power capacity = power
round_up (suc fuel) power capacity =
    let rest = round_up fuel (u64 (power * 2)) capacity in
    if ltb power capacity && not (power == 0) then rest else power

unfoldable pub capacity_of : ℕ → ℕ
capacity_of capacity =
    if (capacity == 0) || not (bit_and capacity (sub64 capacity 1) == 0)
    then round_up 65 1 capacity
    else capacity

unfoldable pub create : Bool → Bool → ℕ → Option Queue
create q_allocated buffer_allocated capacity =
    if q_allocated && buffer_allocated
    then some (record {
      capacity = capacity_of capacity;
      head = 0;
      tail = 0;
      buffer = replicate (capacity_of capacity) no_item;
    })
    else none

-- The loose check of `mpmc_queue_push`, on the values that it has loaded.
unfoldable pub seems_full : Queue → ℕ → ℕ → Bool
seems_full q head tail = leb q.capacity (sub64 head tail)

-- `my_head & (capacity - 1)`
unfoldable pub slot_of : Queue → ℕ → ℕ
slot_of q counter = bit_and counter (sub64 q.capacity 1)

-- `atomic_fetch_add(&q->head, 1)`; the result of the call is the head before.
unfoldable pub claim_head : Queue → Queue
claim_head q = record q { head = u64 (q.head + 1) }

-- The exchange that succeeds in writing the item.
unfoldable pub fill : Queue → ℕ → ℕ → Queue
fill q i item = record q { buffer = set q.buffer i item }

unfoldable pub is_vacant : Queue → ℕ → Bool
is_vacant q i = get_or q.buffer i no_item == no_item

-- The exchange of `q->tail` that succeeds.
unfoldable pub claim_tail : Queue → ℕ → Queue
claim_tail q tail = record q { tail = u64 (tail + 1) }

-- The exchange of the slot with UINT32_MAX.
unfoldable pub empty_slot : Queue → ℕ → Queue
empty_slot q i = record q { buffer = set q.buffer i no_item }
