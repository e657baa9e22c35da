-- ===== src/Spsc/Threads.antt =====
-- src/spsc_queue.c: one producer and one consumer at the same time. A call of `push` or `pop` is
-- cut at its atomic accesses (lines 32-41 and 48-56), and the two threads' pieces interleave in any
-- order. Accesses are sequentially consistent, which acquire and release give two threads that
-- share two indices.
pub mod Knowledge
pub mod Safety
use tsanalyzer.Base.{ℕ, zero, suc, ◌+◌, ◌-◌, ◌%◌, ◌^◌, ◌≤◌, ◌<◌, ◌≡◌, refl, sym, ap, ◌∙◌, ◌≢◌}
use tsanalyzer.Base.{List, [], ◌∷◌, ◌++◌, Option, none, some, Bool, true, false, arith}
use tsanalyzer.Base.{length, get_or, set, length-set, length-append, ◌==◌, append_assoc, ap₂}
use tsanalyzer.Base.Window.{
  window, length-window, window-set_ne, get_or_of_set, get_or_of_set_ne, slots_ne,
}
use tsanalyzer.Spsc.{Packet, blank, Queue, next_index, push, pop, count, is_full}
use tsanalyzer.Spsc.Refine.{IsValid}

-- Where the producer stands in `spsc_queue_push`.
pub data Producer : Type 0 where
  out : Producer
  have_head : Packet → ℕ → Producer
  may_write : Packet → ℕ → Producer
  written : Packet → ℕ → Producer

-- Where the consumer stands in `spsc_queue_pop`.
pub data Consumer : Type 0 where
  out : Consumer
  have_tail : ℕ → Consumer
  may_read : ℕ → Consumer
  taken : ℕ → Packet → Consumer

-- `pushed` and `popped` are the packets of the calls that returned true, in order.
pub record System : Type 0 where
  pub queue : Queue
  pub producer : Producer
  pub consumer : Consumer
  pub pushed : List Packet
  pub popped : List Packet

-- memcpy(&q->buffer[head], pkt)
abbrev pub store : Queue → ℕ → Packet → Queue
store q h pkt = record q { buffer = set q.buffer h pkt }

-- the store of `next_head`
abbrev pub publish : Queue → ℕ → Queue
publish q h = record q { head = next_index q h }

-- the store of the new tail
abbrev pub release : Queue → ℕ → Queue
release q t = record q { tail = next_index q t }

pub data Step : System → System → Type 0 where
  call_push :
      (s : System) (pkt : Packet)
      → s.producer ≡ Producer.out
      → Step s (record s { producer = have_head pkt s.queue.head })
  refuse :
      (s : System) (pkt : Packet) (h : ℕ)
      → s.producer ≡ have_head pkt h
      → next_index s.queue h ≡ s.queue.tail
      → Step s (record s { producer = Producer.out })
  admit :
      (s : System) (pkt : Packet) (h : ℕ)
      → s.producer ≡ have_head pkt h
      → next_index s.queue h ≢ s.queue.tail
      → Step s (record s { producer = may_write pkt h })
  copy_in :
      (s : System) (pkt : Packet) (h : ℕ)
      → s.producer ≡ may_write pkt h
      → Step s (record s { queue = store s.queue h pkt; producer = written pkt h })
  finish_push :
      (s : System) (pkt : Packet) (h : ℕ)
      → s.producer ≡ written pkt h
      → Step s (record s {
        queue = publish s.queue h;
        producer = Producer.out;
        pushed = s.pushed ++ (pkt ∷ []);
      })
  call_pop :
      (s : System)
      → s.consumer ≡ Consumer.out
      → Step s (record s { consumer = have_tail s.queue.tail })
  find_empty :
      (s : System) (t : ℕ)
      → s.consumer ≡ have_tail t
      → t ≡ s.queue.head
      → Step s (record s { consumer = Consumer.out })
  find_some :
      (s : System) (t : ℕ)
      → s.consumer ≡ have_tail t
      → t ≢ s.queue.head
      → Step s (record s { consumer = may_read t })
  copy_out :
      (s : System) (t : ℕ)
      → s.consumer ≡ may_read t
      → Step s (record s { consumer = taken t (get_or s.queue.buffer t blank) })
  finish_pop :
      (s : System) (t : ℕ) (pkt : Packet)
      → s.consumer ≡ taken t pkt
      → Step s (record s {
        queue = release s.queue t;
        consumer = Consumer.out;
        popped = s.popped ++ (pkt ∷ []);
      })

pub data Reach (s : System) : System → Type 0 where
  here : Reach s s
  next : {t u : System} → Reach s t → Step t u → Reach s u

-- Both threads outside a call, nothing passed through yet.
abbrev pub start : Queue → System
start q = record {
  queue = q;
  producer = Producer.out;
  consumer = Consumer.out;
  pushed = [];
  popped = [];
}
