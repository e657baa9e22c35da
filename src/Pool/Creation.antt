-- ===== src/Pool/Creation.antt =====
-- src/tsa_packet_pool.c, `tsa_packet_pool_create`: at first every packet is free.
use tsanalyzer.Base.{
  ℕ, zero, suc, ◌+◌, ◌≤◌, ◌≡◌, refl, ap, ◌∙◌, arith, ltb, leb, ◌&&◌, if◌then◌else◌,
}
use tsanalyzer.Base.{
  [], ◌∷◌, sym, subst, length, get_elem?, replicate, length-replicate, length-append,
}
use tsanalyzer.Base.Totals.{total, is_item, count, count-push}
use native.Mathlib.Nat.{zero-add}
use tsanalyzer.Mpmc.{no_item}
use tsanalyzer.Pool.{FreeQueue, zeroed, fill_queue, create}
use tsanalyzer.Pool.Vacancy.{is_held, vacancy}
use tsanalyzer.Pool.Exchange.{IsOwned, push_room}

vacancy-replicate :
    (n j : ℕ) → vacancy (get_elem? (replicate n zeroed) j) ≡ (if ltb j n then 1 else 0)
unfolding vacancy
vacancy-replicate zero j = ground arith
vacancy-replicate (suc n) zero = ground arith
vacancy-replicate (suc n) (suc j) = vacancy-replicate n j ∙ ground arith

none_held : (n : ℕ) → total is_held (replicate n zeroed) ≡ 0
unfolding total is_held
none_held zero = refl
none_held (suc n) = omega (arith, none_held n)

in_range : (j n : ℕ) → 0 + (if leb 0 j && ltb j (0 + n) then 1 else 0) ≡ (if ltb j n then 1 else 0)
in_range j n = ground arith

module _ {Q : Type 0} (queue : FreeQueue Q) where
  one_less :
      (n rounds : ℕ) (q : Q) → queue.Ready (suc rounds + n) q → queue.Ready (suc (rounds + n)) q
  one_less n rounds q r =
      let e : suc rounds + n ≡ suc (rounds + n) = omega arith in subst (λ m. queue.Ready m q) e r

  next_ready :
      (n rounds i : ℕ) (q : Q)
      → queue.Ready (suc rounds + n) q
      → i + suc rounds ≤ no_item
      → queue.Ready (rounds + n) (queue.push q i).1
  next_ready n rounds i q r h =
      (queue.push_law (rounds + n) q i (one_less n rounds q r) (omega arith)).1

  Ready-fill_queue :
      (n rounds i : ℕ) (q : Q)
      → queue.Ready (rounds + n) q
      → i + rounds ≤ no_item
      → queue.Ready n (fill_queue queue rounds i q)
  unfolding fill_queue
  Ready-fill_queue n zero i q r h = subst (λ m. queue.Ready m q) (zero-add n) r
  Ready-fill_queue n (suc rounds) i q r h =
      Ready-fill_queue n rounds (i + 1) (queue.push q i).1 (next_ready n rounds i q r h)
        (omega arith)

  length-fill_queue :
      (n rounds i : ℕ) (q : Q)
      → queue.Ready (rounds + n) q
      → i + rounds ≤ no_item
      → length (queue.contents q) + rounds ≤ queue.capacity
      → length (queue.contents (fill_queue queue rounds i q)) ≡ length (queue.contents q) + rounds
  unfolding fill_queue
  length-fill_queue n zero i q r small h = omega arith
  length-fill_queue n (suc rounds) i q r small h =
      let pushed =
        ap length
          (push_room queue (rounds + n) q i (one_less n rounds q r) (omega arith) (omega arith))
        ∙ length-append (queue.contents q) (i ∷ []) in
      length-fill_queue n rounds (i + 1) (queue.push q i).1 (next_ready n rounds i q r small)
        (omega arith) (omega arith)
      ∙ omega arith

  count-fill_queue :
      (n rounds i j : ℕ) (q : Q)
      → queue.Ready (rounds + n) q
      → i + rounds ≤ no_item
      → length (queue.contents q) + rounds ≤ queue.capacity
      → count j (queue.contents (fill_queue queue rounds i q))
        ≡ count j (queue.contents q) + (if leb i j && ltb j (i + rounds) then 1 else 0)
  unfolding fill_queue is_item
  count-fill_queue n zero i j q r small h = ground arith
  count-fill_queue n (suc rounds) i j q r small h =
      let pushed =
        push_room queue (rounds + n) q i (one_less n rounds q r) (omega arith) (omega arith) in
      let longer = ap length pushed ∙ length-append (queue.contents q) (i ∷ []) in
      count-fill_queue n rounds (i + 1) j (queue.push q i).1 (next_ready n rounds i q r small)
        (omega arith) (omega arith)
      ∙ ap (λ n. n + (if leb (i + 1) j && ltb j (i + 1 + rounds) then 1 else 0))
          (ap (count j) pushed ∙ count-push j (queue.contents q) i)
      ∙ ground arith

  -- A pool that is created on an empty queue with room for all its packets is owned, each packet
  -- being free.
  pub create-IsOwned :
      (n capacity : ℕ) (q : Q)
      → queue.Ready (capacity + n) q
      → queue.contents q ≡ []
      → capacity ≤ queue.capacity
      → capacity ≤ no_item
      → IsOwned queue n (create queue capacity q)
  unfolding create total count
  create-IsOwned n capacity q ready empty room small =
      let fits : length (queue.contents q) + capacity ≤ queue.capacity =
        omega (arith, ap length empty) in
      record {
        free_once = λ j.
            count-fill_queue n capacity 0 j q ready (omega arith) fits
            ∙ ap (λ xs. count j xs + (if leb 0 j && ltb j (0 + capacity) then 1 else 0)) empty
            ∙ in_range j capacity
            ∙ sym (vacancy-replicate capacity j);
        tally = omega (
          arith,
          length-fill_queue n capacity 0 q ready (omega arith) fits,
          ap length empty,
          none_held capacity,
          length-replicate capacity zeroed,
        );
        room = omega (arith, length-replicate capacity zeroed);
        indices = omega (arith, length-replicate capacity zeroed);
        ready = Ready-fill_queue n capacity 0 q ready (omega arith);
      }
