-- ===== src/Mpmc/Sequence.antt =====
-- src/mpmc_queue.c: `mpmc_queue_push` and `mpmc_queue_pop` where no other call runs meanwhile. `none`
-- is a call that does not return: it waits for a slot that nobody changes.
pub mod Refine
pub mod Valid
use tsanalyzer.Base.{ℕ, Option, none, some, Bool, true, false, ltb, get_or, if◌then◌else◌}
use tsanalyzer.Mpmc.{
  Queue, no_item, seems_full, slot_of, claim_head, fill, is_vacant, claim_tail, empty_slot,
}

unfoldable pub push : Queue → ℕ → Option (Bool × Queue)
push q item =
    let i = slot_of q q.head in
    if seems_full q q.head q.tail
    then some (false, q)
    else if is_vacant q i
    then some (true, fill (claim_head q) i item)
    else none

unfoldable pub pop : Queue → Option (Option ℕ × Queue)
pop q =
    let i = slot_of q q.tail in
    if ltb q.tail q.head
    then (if is_vacant q i
        then none
        else some (some (get_or q.buffer i no_item), empty_slot (claim_tail q q.tail) i))
    else some (none, q)
