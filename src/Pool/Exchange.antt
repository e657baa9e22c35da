-- ===== src/Pool/Exchange.antt =====
-- src/tsa_packet_pool.c: when the packets and the queue of free indices agree, and that they go on
-- to agree when a packet and the queue change together.
use tsanalyzer.Base.{ℕ, suc, ◌+◌, ◌≤◌, ◌<◌, ◌≡◌, ◌⊎◌, refl, sym, ap, ◌∙◌, inl, inr, arith}
use tsanalyzer.Base.{
  List, [], ◌∷◌, ◌++◌, Option, none, some, Bool, true, false, length, get_elem?, set, ltb, ◌==◌,
  ==_iff,
}
use tsanalyzer.Base.{if◌then◌else◌, length-set, lt_length}
use tsanalyzer.Base.Totals.{total, total-set, count}
use tsanalyzer.BoundedQueue.{put, get}
use tsanalyzer.Mpmc.{no_item}
use tsanalyzer.Pool.{FreeQueue, Packet, Pool}
use tsanalyzer.Pool.Vacancy.{is_held, vacancy, vacancy-set, held_or_vacant, count_after}

module _ {Q : Type 0} (queue : FreeQueue Q) where
  -- Each index is in the queue once while nobody holds its packet, and not at all otherwise; each
  -- packet is free or held; the queue has room for all, and is ready for `n` packets to come back.
  pub record IsOwned (n : ℕ) (pool : Pool Q) : Type 0 where
    pub free_once :
        (i : ℕ) → count i (queue.contents pool.free_queue) ≡ vacancy (get_elem? pool.packets i)
    pub tally :
        length (queue.contents pool.free_queue) + total is_held pool.packets ≡ length pool.packets
    pub room : length pool.packets ≤ queue.capacity
    pub indices : length pool.packets ≤ no_item
    pub ready : queue.Ready n pool.free_queue

  -- What a pop takes.
  pub pop_cases :
      (n : ℕ) (q : Q)
      → queue.Ready n q
      → (((queue.pop q).0 ≡ none) × (queue.contents q ≡ []) × (queue.contents (queue.pop q).1 ≡ []))
        ⊎ ((x : ℕ) × ((queue.pop q).0 ≡ some x)
            × (queue.contents q ≡ x ∷ queue.contents (queue.pop q).1))
  unfolding get
  pop_cases n q ready = go (queue.contents q) refl
    where
      go :
          (xs : List ℕ)
          → queue.contents q ≡ xs
          → (((queue.pop q).0 ≡ none)
              × (queue.contents q ≡ [])
              × (queue.contents (queue.pop q).1 ≡ []))
            ⊎ ((x : ℕ) × ((queue.pop q).0 ≡ some x)
                × (queue.contents q ≡ x ∷ queue.contents (queue.pop q).1))
      go [] e =
          let law = (queue.pop_law n q ready).0 ∙ ap get e in
          inl (ap (λ (r : Option ℕ × List ℕ). r.0) law, e, ap (λ (r : Option ℕ × List ℕ). r.1) law)
      go (x ∷ xs) e =
          let law = (queue.pop_law n q ready).0 ∙ ap get e in
          inr (
            x,
            ap (λ (r : Option ℕ × List ℕ). r.0) law,
            e ∙ ap (λ l. x ∷ l) (sym (ap (λ (r : Option ℕ × List ℕ). r.1) law)),
          )

  -- A push finds room.
  pub push_room :
      (n : ℕ) (q : Q) (x : ℕ)
      → queue.Ready (suc n) q
      → x < no_item
      → length (queue.contents q) < queue.capacity
      → queue.contents (queue.push q x).1 ≡ queue.contents q ++ (x ∷ [])
  unfolding put
  push_room n q x ready small h =
      let fits : ltb (length (queue.contents q)) queue.capacity ≡ true = ground arith in
      ap (λ (r : Bool × List ℕ). r.1)
        ((queue.push_law n q x ready small).0
          ∙ ap (λ b. if b then (true, queue.contents q ++ (x ∷ [])) else (false, queue.contents q))
              fits)

  -- A packet changes, and the queue with it.
  pub exchange :
      (n m : ℕ) (pool next : Pool Q) (i : ℕ) (p p' : Packet)
      → queue.Ready m next.free_queue
      → IsOwned n pool
      → get_elem? pool.packets i ≡ some p
      → next.packets ≡ set pool.packets i p'
      → ((j : ℕ)
          → count j (queue.contents next.free_queue) + (if j == i then vacancy (some p) else 0)
            ≡ count j (queue.contents pool.free_queue) + (if j == i then vacancy (some p') else 0))
      → length (queue.contents next.free_queue) + vacancy (some p)
        ≡ length (queue.contents pool.free_queue) + vacancy (some p')
      → IsOwned m next
  exchange n m pool next i p p' ready owned at changed counts lengths =
      let inside : i < length pool.packets = lt_length pool.packets i p at in
      let same_length : length next.packets ≡ length pool.packets =
        ap length changed ∙ length-set pool.packets i p' in
      record {
        free_once = λ j.
            count_after (j == i) _ _ (vacancy (some p)) (vacancy (some p')) _ (counts j)
              (owned.free_once j)
              (λ same.
                ap (λ k. vacancy (get_elem? pool.packets k)) ((==_iff j i).0 same) ∙ ap vacancy at)
            ∙ sym (
                ap (λ ps. vacancy (get_elem? ps j)) changed
                ∙ vacancy-set pool.packets i j p' inside);
        tally = omega (
          arith,
          owned.tally,
          ap (total is_held) changed,
          total-set is_held pool.packets i p p' at,
          held_or_vacant p,
          held_or_vacant p',
        );
        room = omega (arith, owned.room);
        indices = omega (arith, owned.indices);
        ready = ready;
      }
