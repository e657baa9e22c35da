-- ===== src/Mpmc/Threads/Conserved.antt =====
-- src/mpmc_queue.c: whatever the threads do, no item but the mark of an empty slot is lost or delivered
-- twice.
use tsanalyzer.Base.{ℕ, zero, suc, ◌+◌, ◌≡◌, ◌≢◌, refl, sym, ap, ◌∙◌, List, [], ◌∷◌, some, arith}
use tsanalyzer.Base.{true, replicate}
use mathlib.Core.Option.{some-injective}
use tsanalyzer.Base.Totals.{total, total-set, is_item, count}
use tsanalyzer.Mpmc.{Queue, create, capacity_of, no_item, claim_head, fill, claim_tail, empty_slot}
use tsanalyzer.Mpmc.Threads.{
  Thread, idle, pushing, admitted, filling, popping, taking, emptying, System, Step, Reach, here,
  next, call_push, refuse, admit, take_head, store_item, call_pop, find_empty, find_some, lose_tail,
  take_tail, load_item, AllIdle,
}

-- A thread holds an item from its claim of a slot to the write into it.
in_hand : ℕ → Thread → ℕ
in_hand x (filling item slot) = is_item x item
in_hand x _ = 0

-- Where an item is: delivered, in a slot, or in the hand of a thread.
IsConserved : ℕ → System → Type 0
IsConserved x s =
    count x s.accepted ≡ count x s.delivered + count x s.queue.buffer + total (in_hand x) s.threads

-- An empty slot counts for no item.
no_mark : (x : ℕ) → x ≢ no_item → is_item x no_item ≡ 0
unfolding is_item
no_mark x ne = ground arith

Step-IsConserved :
    (x : ℕ) {s t : System} → x ≢ no_item → Step s t → IsConserved x s → IsConserved x t
unfolding IsConserved count total in_hand claim_head fill claim_tail empty_slot
Step-IsConserved x ne (call_push s i item e small) h =
    omega (arith, total-set (in_hand x) s.threads i idle (pushing item s.queue.head) e)
Step-IsConserved x ne (refuse s i item head e full) h =
    omega (arith, total-set (in_hand x) s.threads i (pushing item head) idle e)
Step-IsConserved x ne (admit s i item head e room) h =
    omega (arith, total-set (in_hand x) s.threads i (pushing item head) (admitted item) e)
Step-IsConserved x ne (take_head s i item e) h =
    omega (arith, total-set (in_hand x) s.threads i (admitted item) (filling item _) e)
Step-IsConserved x ne (store_item s i item slot e vacant) h = omega (
  arith,
  total-set (in_hand x) s.threads i (filling item slot) idle e,
  total-set (is_item x) s.queue.buffer slot no_item item vacant,
  no_mark x ne,
)
Step-IsConserved x ne (call_pop s i e) h =
    omega (arith, total-set (in_hand x) s.threads i idle (popping s.queue.tail) e)
Step-IsConserved x ne (find_empty s i tail e b) h =
    omega (arith, total-set (in_hand x) s.threads i (popping tail) idle e)
Step-IsConserved x ne (find_some s i tail e b) h =
    omega (arith, total-set (in_hand x) s.threads i (popping tail) (taking tail) e)
Step-IsConserved x ne (lose_tail s i tail e) h =
    omega (arith, total-set (in_hand x) s.threads i (taking tail) (popping s.queue.tail) e)
Step-IsConserved x ne (take_tail s i tail e b) h =
    omega (arith, total-set (in_hand x) s.threads i (taking tail) (emptying _) e)
Step-IsConserved x ne (load_item s i slot item e full b) h = omega (
  arith,
  total-set (in_hand x) s.threads i (emptying slot) idle e,
  total-set (is_item x) s.queue.buffer slot item no_item full,
  no_mark x ne,
)

Reach-IsConserved :
    (x : ℕ) {s t : System} → x ≢ no_item → IsConserved x s → Reach s t → IsConserved x t
Reach-IsConserved x ne h here = h
Reach-IsConserved x ne h (next r step) = Step-IsConserved x ne step (Reach-IsConserved x ne h r)

-- The queue after its creation, with some threads that do nothing.
unfoldable pub start : Queue → List Thread → System
start q threads = record { queue = q; threads = threads; accepted = []; delivered = [] }

idle_hands : (x : ℕ) (ts : List Thread) → AllIdle ts → total (in_hand x) ts ≡ 0
unfolding total in_hand
idle_hands x [] h = refl
idle_hands x (t ∷ ts) h = omega (arith, ap (in_hand x) h.0, idle_hands x ts h.1)

count-replicate : (x n : ℕ) → x ≢ no_item → count x (replicate n no_item) ≡ 0
unfolding count total
count-replicate x zero ne = refl
count-replicate x (suc n) ne = omega (arith, no_mark x ne, count-replicate x n ne)

-- From a created queue and idle threads, however many there are and however their accesses
-- interleave: when all threads are idle again, every item but UINT32_MAX was delivered by pops or
-- stands in the slots as often as pushes put it in. An item other than UINT32_MAX is thus not lost,
-- made up or delivered twice, whatever the other items are; of UINT32_MAX, which marks an empty
-- slot and which `mpmc_queue_push` does not refuse, nothing is said.
pub create-conserves :
    (x capacity : ℕ) {q : Queue} (threads : List Thread) {t : System}
    → create true true capacity ≡ some q
    → AllIdle threads
    → x ≢ no_item
    → Reach (start q threads) t
    → AllIdle t.threads
    → count x t.accepted ≡ count x t.delivered + count x t.queue.buffer
unfolding create start IsConserved
create-conserves x capacity {q} threads {t} e quiet ne reach rest =
    let empty : count x q.buffer ≡ 0 =
      ap (λ (r : Queue). count x r.buffer) (sym (some-injective _ q e))
      ∙ count-replicate x (capacity_of capacity) ne in
    let kept : IsConserved x t =
      Reach-IsConserved x ne (omega (arith, idle_hands x threads quiet)) reach in
    omega (arith, idle_hands x t.threads rest)
