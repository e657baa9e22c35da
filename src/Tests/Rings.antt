-- ===== src/Tests/Rings.antt =====
-- Examples of the rings: `spsc_queue.c` and `tss_fifo.c`.
use tsanalyzer.Base.{
  ℕ, ◌+◌, ◌≡◌, ◌≢◌, ◌<◌, ◌⊎◌, refl, [], ◌∷◌, ◌++◌, true, none, some, arith, take, drop,
}
use tsanalyzer.BoundedQueue
use tsanalyzer.Spsc.{Packet, blank, Queue, push, pop, count}
use tsanalyzer.Base.Window.{window}
use tsanalyzer.Spsc.Refine as RingProofs
use tsanalyzer.Spsc.Refine.{push_refines, pop_refines}
use tsanalyzer.Spsc.Threads.{
  System, Reach, here, next, start, store, publish, may_write, may_read, call_push, admit, copy_in,
  finish_push, call_pop, find_some,
}
use tsanalyzer.Spsc.Threads.Safety.{pushed-eq-popped, no_race}
use tsanalyzer.Shaper.Fifo.{Fifo, write, read}
use tsanalyzer.Shaper.Fifo.Refine as FifoProofs
use tsanalyzer.Shaper.Fifo.Refine.{write_refines, read_refines, peek_refines, drain_refines}

abbrev ring : Queue
ring = record { head = 0; tail = 0; size = 3; buffer = blank ∷ blank ∷ blank ∷ [] }

abbrev first : Packet
first = record { timestamp_ns = 7; stc_ns = 8; bytes = 71 ∷ [] }

ring-IsValid : RingProofs.IsValid ring
ring-IsValid = record {
  storage = refl;
  head_in = omega arith;
  tail_in = omega arith;
  small = omega arith;
}

push_refines_example :
    let (done, q) = push ring first in
    (done, RingProofs.contents q) ≡ BoundedQueue.put 2 (RingProofs.contents ring) first
push_refines_example = push_refines first ring-IsValid

pop_refines_example :
    let (out, q) = pop ring in
    (out, RingProofs.contents q) ≡ BoundedQueue.get (RingProofs.contents ring)
pop_refines_example = pop_refines ring-IsValid

-- One packet has been pushed; the consumer is about to read it, and the producer to write another.
abbrev pushed_one : System
pushed_one = record (start ring) { queue = publish (store ring 0 first) 0; pushed = first ∷ [] }

abbrev both_inside : System
both_inside = record pushed_one { producer = may_write first 1; consumer = may_read 0 }

reached : Reach (start ring) both_inside
reached =
    next
      (next
        (next
          (next
            (next
              (next
                (next (next here (call_push (start ring) first refl))
                  (admit _ first 0 refl (omega arith)))
                (copy_in _ first 0 refl))
              (finish_push _ first 0 refl))
            (call_pop pushed_one refl))
          (find_some _ 0 refl (omega arith)))
        (call_push _ first refl))
      (admit _ first 1 refl (omega arith))

ring_empty : RingProofs.contents ring ≡ []
unfolding count window
ring_empty = refl

pushed-eq-popped_example :
    (both_inside.pushed ≡ both_inside.popped ++ RingProofs.contents both_inside.queue)
    × RingProofs.IsValid both_inside.queue
pushed-eq-popped_example = pushed-eq-popped ring-IsValid ring_empty reached

no_race_example : ◌≢◌ {A = ℕ} 1 0
no_race_example = no_race ring-IsValid ring_empty reached refl refl

abbrev bytes_ring : Fifo
bytes_ring = record { buffer = 1 ∷ 2 ∷ 3 ∷ 4 ∷ []; capacity = 4; head = 3; tail = 1; size = 2 }

bytes_ring-IsValid : FifoProofs.IsValid bytes_ring
bytes_ring-IsValid = record {
  storage = refl;
  nonempty = omega arith;
  small = omega arith;
  head_in = omega arith;
  fits = omega arith;
  tail_at = refl;
}

write_refines_example :
    ((4 < 2 + 2) × (write bytes_ring (8 ∷ 9 ∷ []) ≡ none))
    ⊎ ((g : Fifo) × (write bytes_ring (8 ∷ 9 ∷ []) ≡ some g)
        × (FifoProofs.contents g ≡ FifoProofs.contents bytes_ring ++ (8 ∷ 9 ∷ []))
        × FifoProofs.IsValid g)
write_refines_example = write_refines (8 ∷ 9 ∷ []) bytes_ring-IsValid (omega arith)

read_refines_example :
    ((2 < 1) × (read bytes_ring true 1 ≡ none))
    ⊎ ((g : Fifo) × (read bytes_ring true 1 ≡ some (take 1 (FifoProofs.contents bytes_ring), g))
        × (FifoProofs.contents g ≡ drop 1 (FifoProofs.contents bytes_ring))
        × FifoProofs.IsValid g)
read_refines_example = read_refines true 1 bytes_ring-IsValid
