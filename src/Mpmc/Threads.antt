-- ===== src/Mpmc/Threads.antt =====
-- src/mpmc_queue.c: any number of threads that push and pop, interleaved at their atomic accesses.
-- An exchange that fails and the loops that wait change nothing and are no steps.
pub mod Conserved
use tsanalyzer.Base.{
  ℕ, ◌<◌, ◌^◌, ◌≡◌, ◌≢◌, List, [], ◌∷◌, some, true, false, ltb, get_elem?, set, get_or,
}
use tsanalyzer.Mpmc.{
  Queue, no_item, seems_full, slot_of, claim_head, fill, is_vacant, claim_tail, empty_slot,
}

-- Where a thread stands in `mpmc_queue_push` or `mpmc_queue_pop`.
pub data Thread : Type 0 where
  idle : Thread
  -- has loaded the head
  pushing : (item head : ℕ) → Thread
  -- has passed the check
  admitted : (item : ℕ) → Thread
  -- has its slot, and waits until it is vacant
  filling : (item slot : ℕ) → Thread
  -- has loaded the tail
  popping : (tail : ℕ) → Thread
  -- has seen that the queue is not empty
  taking : (tail : ℕ) → Thread
  -- has its slot, and waits until it is filled
  emptying : (slot : ℕ) → Thread

-- The queue, its threads, and what was claimed by pushes and delivered by pops so far.
pub record System : Type 0 where
  pub queue : Queue
  pub threads : List Thread
  pub accepted : List ℕ
  pub delivered : List ℕ

abbrev pub move : System → ℕ → Thread → System
move s i t = record s { threads = set s.threads i t }

-- Each step belongs to the thread `i`. An item is any 32-bit word. A load may be old by the time that its value is used.
pub data Step : System → System → Type 0 where
  call_push :
      (s : System) (i item : ℕ)
      → get_elem? s.threads i ≡ some idle
      → item < 2 ^ 32
      → Step s (move s i (pushing item s.queue.head))
  refuse :
      (s : System) (i item head : ℕ)
      → get_elem? s.threads i ≡ some (pushing item head)
      → seems_full s.queue head s.queue.tail ≡ true
      → Step s (move s i idle)
  admit :
      (s : System) (i item head : ℕ)
      → get_elem? s.threads i ≡ some (pushing item head)
      → seems_full s.queue head s.queue.tail ≡ false
      → Step s (move s i (admitted item))
  take_head :
      (s : System) (i item : ℕ)
      → get_elem? s.threads i ≡ some (admitted item)
      → Step s (record (move s i (filling item (slot_of s.queue s.queue.head))) {
        queue = claim_head s.queue;
        accepted = item ∷ s.accepted;
      })
  store_item :
      (s : System) (i item slot : ℕ)
      → get_elem? s.threads i ≡ some (filling item slot)
      → get_elem? s.queue.buffer slot ≡ some no_item
      → Step s (record (move s i idle) { queue = fill s.queue slot item })
  call_pop :
      (s : System) (i : ℕ)
      → get_elem? s.threads i ≡ some idle
      → Step s (move s i (popping s.queue.tail))
  find_empty :
      (s : System) (i tail : ℕ)
      → get_elem? s.threads i ≡ some (popping tail)
      → ltb tail s.queue.head ≡ false
      → Step s (move s i idle)
  find_some :
      (s : System) (i tail : ℕ)
      → get_elem? s.threads i ≡ some (popping tail)
      → ltb tail s.queue.head ≡ true
      → Step s (move s i (taking tail))
  -- The weak exchange may fail at any time.
  lose_tail :
      (s : System) (i tail : ℕ)
      → get_elem? s.threads i ≡ some (taking tail)
      → Step s (move s i (popping s.queue.tail))
  take_tail :
      (s : System) (i tail : ℕ)
      → get_elem? s.threads i ≡ some (taking tail)
      → tail ≡ s.queue.tail
      → Step s
          (record (move s i (emptying (slot_of s.queue tail))) { queue = claim_tail s.queue tail })
  load_item :
      (s : System) (i slot item : ℕ)
      → get_elem? s.threads i ≡ some (emptying slot)
      → get_elem? s.queue.buffer slot ≡ some item
      → item ≢ no_item
      → Step s (record (move s i idle) {
        queue = empty_slot s.queue slot;
        delivered = item ∷ s.delivered;
      })

pub data Reach (start : System) : System → Type 0 where
  here : Reach start start
  next : {s t : System} → Reach start s → Step s t → Reach start t

abbrev pub AllIdle : List Thread → Type 0
AllIdle [] = Unit {0}
AllIdle (t ∷ ts) = (t ≡ idle) × AllIdle ts
