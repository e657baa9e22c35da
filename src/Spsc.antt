-- ===== src/Spsc.antt =====
-- src/spsc_queue.c and include/spsc_queue.h: the lock-free ring between one producer and one
-- consumer. Pointers are valid (the null guards are not modelled); a function that writes `*q`
-- returns the new queue. `calloc` is outside the program: its success is an argument.
pub mod Refine
pub mod Threads
use tsanalyzer.Base.{ℕ, ◌+◌, ◌-◌, ◌%◌, ◌^◌, List, [], ◌∷◌, Option, none, some, Bool, true, false}
use tsanalyzer.Base.{ltb, leb, ◌==◌, if◌then◌else◌, get_or, set, replicate, ◌&&◌}

-- ts_packet_t
pub record Packet : Type 0 where
  pub timestamp_ns : ℕ
  pub stc_ns : ℕ
  pub bytes : List ℕ

-- What `calloc` leaves in a slot.
unfoldable pub blank : Packet
blank = record { timestamp_ns = 0; stc_ns = 0; bytes = replicate 188 0 }

-- spsc_queue_t
pub record Queue : Type 0 where
  pub head : ℕ
  pub tail : ℕ
  pub size : ℕ
  pub buffer : List Packet

-- `size_t` addition
abbrev pub add_size : ℕ → ℕ → ℕ
add_size a b = (a + b) % 2 ^ 64

unfoldable pub create : Bool → Bool → ℕ → Option Queue
create q_allocated buffer_allocated size =
    if size == 0
    then none
    else if q_allocated && buffer_allocated
    then some (record {
      head = 0;
      tail = 0;
      size = add_size size 1;
      buffer = replicate (add_size size 1) blank;
    })
    else none

abbrev pub next_index : Queue → ℕ → ℕ
next_index q i = add_size i 1 % q.size

unfoldable pub push : Queue → Packet → Bool × Queue
push q pkt =
    if next_index q q.head == q.tail
    then (false, q)
    else (true, record q { buffer = set q.buffer q.head pkt; head = next_index q q.head })

-- `none` is the result `false`; `some` is `true` with the packet copied out.
unfoldable pub pop : Queue → Option Packet × Queue
pop q =
    if q.tail == q.head
    then (none, q)
    else (some (get_or q.buffer q.tail blank), record q { tail = next_index q q.tail })

unfoldable pub count : Queue → ℕ
count q = if leb q.tail q.head then q.head - q.tail else q.size - (q.tail - q.head)

unfoldable pub is_full : Queue → Bool
is_full q = next_index q q.head == q.tail

unfoldable pub is_empty : Queue → Bool
is_empty q = q.head == q.tail
