-- ===== src/Spsc/Threads/Safety.antt =====
-- src/spsc_queue.c: what every interleaving of `spsc_queue_push` and `spsc_queue_pop` keeps.
use tsanalyzer.Base.{ℕ, suc, ◌<◌, ◌≡◌, refl, sym, ap, ◌∙◌, ◌≢◌}
use tsanalyzer.Base.{[], ◌∷◌, ◌++◌}
use tsanalyzer.Base.{get_or, subst, append_assoc}
use tsanalyzer.Spsc.{Packet, blank, Queue, next_index, count}
use tsanalyzer.Spsc.Refine.{IsValid, contents}
use tsanalyzer.Spsc.Threads.{
  Producer, Consumer, have_head, may_write, written, have_tail, may_read, taken, System, store,
  publish, release, Step, call_push, refuse, admit, copy_in, finish_push, call_pop, find_empty,
  find_some, copy_out, finish_pop, Reach, here, next, start,
}
use tsanalyzer.Spsc.Threads.Knowledge.{
  ProducerKnows, ConsumerKnows, Inv, store_lem, count-publish, publish_lem, count-release,
  release_lem, head-ne-tail, store-ConsumerKnows, publish-ConsumerKnows, release-ProducerKnows,
  room_of_ne, some_of_ne,
}

-- The steps that change the queue, at the index that the thread has loaded.
Inv-copy_in :
    (s : System) (pkt : Packet) (h : ℕ)
    → h ≡ s.queue.head
    → suc (count s.queue) < s.queue.size
    → Inv s
    → Inv (record s { queue = store s.queue h pkt; producer = written pkt h })
unfolding count
Inv-copy_in s pkt h e room i = rw e (record {
  valid = (store_lem pkt i.valid).0;
  history = i.history ∙ ap (λ w. s.popped ++ w) (sym (store_lem pkt i.valid).1);
  producer_knows = (refl, room, (store_lem pkt i.valid).2);
  consumer_knows = store-ConsumerKnows s.queue pkt s.consumer i.valid i.consumer_knows;
})

Inv-finish_push :
    (s : System) (pkt : Packet) (h : ℕ)
    → h ≡ s.queue.head
    → suc (count s.queue) < s.queue.size
    → get_or s.queue.buffer h blank ≡ pkt
    → Inv s
    → Inv (record s {
      queue = publish s.queue h;
      producer = Producer.out;
      pushed = s.pushed ++ (pkt ∷ []);
    })
Inv-finish_push s pkt h e room stored i =
    let q : Queue = s.queue in
    rw e (record {
      valid = (count-publish i.valid room).0;
      history =
          ap (λ w. w ++ (pkt ∷ [])) i.history
          ∙ append_assoc s.popped (contents q) (pkt ∷ [])
          ∙ ap (λ x. s.popped ++ (contents q ++ (x ∷ [])))
              (sym stored ∙ ap (λ k. get_or q.buffer k blank) e)
          ∙ ap (λ w. s.popped ++ w) (sym (publish_lem i.valid room));
      producer_knows = tt;
      consumer_knows =
          publish-ConsumerKnows q s.consumer (count-publish i.valid room).1 i.consumer_knows;
    })

Inv-finish_pop :
    (s : System) (t : ℕ) (pkt : Packet)
    → t ≡ s.queue.tail
    → 0 < count s.queue
    → get_or s.queue.buffer t blank ≡ pkt
    → Inv s
    → Inv (record s {
      queue = release s.queue t;
      consumer = Consumer.out;
      popped = s.popped ++ (pkt ∷ []);
    })
Inv-finish_pop s t pkt e some_left read i =
    let q : Queue = s.queue in
    rw e (record {
      valid = (count-release i.valid some_left).0;
      history =
          i.history
          ∙ ap (λ w. s.popped ++ w) (release_lem i.valid some_left)
          ∙ ap (λ x. s.popped ++ (x ∷ contents (release q q.tail)))
              (ap (λ k. get_or q.buffer k blank) (sym e) ∙ read)
          ∙ sym (append_assoc s.popped (pkt ∷ []) (contents (release q q.tail)));
      producer_knows =
          release-ProducerKnows q s.producer (count-release i.valid some_left).1 i.producer_knows;
      consumer_knows = tt;
    })

-- A step of a thread that only moves its own place.
move_producer :
    (s : System) (p : Producer) → ProducerKnows s.queue p → Inv s → Inv (record s { producer = p })
move_producer s p k i = record {
  valid = i.valid;
  history = i.history;
  producer_knows = k;
  consumer_knows = i.consumer_knows;
}

move_consumer :
    (s : System) (c : Consumer) → ConsumerKnows s.queue c → Inv s → Inv (record s { consumer = c })
move_consumer s c k i = record {
  valid = i.valid;
  history = i.history;
  producer_knows = i.producer_knows;
  consumer_knows = k;
}

Step-Inv : {s t : System} → Step s t → Inv s → Inv t
Step-Inv (call_push s pkt e) i = move_producer s (have_head pkt s.queue.head) refl i
Step-Inv (refuse s pkt h e full) i = move_producer s Producer.out tt i
Step-Inv (admit s pkt h e room) i =
    let k = subst (ProducerKnows s.queue) e i.producer_knows in
    move_producer s (may_write pkt h)
      (k, room_of_ne i.valid (λ w. room (ap (next_index s.queue) k ∙ w))) i
Step-Inv (copy_in s pkt h e) i =
    let k = subst (ProducerKnows s.queue) e i.producer_knows in Inv-copy_in s pkt h k.0 k.1 i
Step-Inv (finish_push s pkt h e) i =
    let k = subst (ProducerKnows s.queue) e i.producer_knows in
    Inv-finish_push s pkt h k.0 k.1 k.2 i
Step-Inv (call_pop s e) i = move_consumer s (have_tail s.queue.tail) refl i
Step-Inv (find_empty s t e same) i = move_consumer s Consumer.out tt i
Step-Inv (find_some s t e ne) i =
    let k = subst (ConsumerKnows s.queue) e i.consumer_knows in
    move_consumer s (may_read t) (k, some_of_ne i.valid (λ w. ne (k ∙ w))) i
Step-Inv (copy_out s t e) i =
    let k = subst (ConsumerKnows s.queue) e i.consumer_knows in
    move_consumer s (taken t (get_or s.queue.buffer t blank)) (k.0, k.1, refl) i
Step-Inv (finish_pop s t pkt e) i =
    let k = subst (ConsumerKnows s.queue) e i.consumer_knows in Inv-finish_pop s t pkt k.0 k.1 k.2 i

Reach-Inv : {s t : System} → Reach s t → Inv s → Inv t
Reach-Inv here i = i
Reach-Inv (next r st) i = Step-Inv st (Reach-Inv r i)

start-Inv : {q : Queue} → IsValid q → contents q ≡ [] → Inv (start q)
start-Inv v e = record { valid = v; history = sym e; producer_knows = tt; consumer_knows = tt }

-- In every state that the two threads reach from an empty queue, the packets pushed are the packets
-- popped, in the same order, followed by the contents of the ring; and the ring is valid.
pub pushed-eq-popped :
    {q : Queue} {s : System}
    → IsValid q
    → contents q ≡ []
    → Reach (start q) s
    → (s.pushed ≡ s.popped ++ contents s.queue) × IsValid s.queue
pushed-eq-popped v e r = let i = Reach-Inv r (start-Inv v e) in (i.history, i.valid)

-- In every state that the two threads reach from an empty queue, the producer that is about to
-- write a slot and the consumer that is about to read one are at different slots.
pub no_race :
    {q : Queue} {s : System} {pkt : Packet} {h t : ℕ}
    → IsValid q
    → contents q ≡ []
    → Reach (start q) s
    → s.producer ≡ may_write pkt h
    → s.consumer ≡ may_read t
    → h ≢ t
no_race {s = s} v e r p c same =
    let i = Reach-Inv r (start-Inv v e) in
    let k = subst (ProducerKnows s.queue) p i.producer_knows in
    let l = subst (ConsumerKnows s.queue) c i.consumer_knows in
    head-ne-tail i.valid l.1 (sym k.0 ∙ same ∙ l.0)
