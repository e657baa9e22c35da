-- ===== src/Pool/Ownership.antt =====
-- src/tsa_packet_pool.c: a packet is free or held, never both, and the pool loses none.
use tsanalyzer.Base.{ℕ, ◌+◌, ◌≡◌, refl, sym, ap, ◌∙◌, subst, inl, inr, arith}
use tsanalyzer.Base.{◌∷◌, Option, none, some, length, get_elem?, set, ◌==◌}
use tsanalyzer.Base.{if◌then◌else◌, get_elem?-set_self, lt_length}
use tsanalyzer.Base.Totals.{total, is_item, count}
use tsanalyzer.Base.Int.{ℤ, pos, ◌+ℤ◌, ◌≤ℤ◌, int_laws}
use tsanalyzer.Pool.{FreeQueue, Packet, Pool, acquire, ref}
use tsanalyzer.Pool.Vacancy.{
  is_held, vacancy, vacant_packet, is_item_self, fresh_vacancy, moved, held_vacancy,
}
use tsanalyzer.Pool.Exchange.{IsOwned, pop_cases, exchange}

module _ {Q : Type 0} (queue : FreeQueue Q) where
  -- What an acquisition owes its caller: a packet that nobody held and that has one reference now,
  -- or none, and then every packet is held.
  unfoldable pub Acquired : ℕ → Pool Q → Option ℕ × Pool Q → Type 0
  Acquired n pool (none, next) =
      (total is_held pool.packets ≡ length pool.packets) × IsOwned queue n next
  Acquired n pool (some i, next) =
      ((p : Packet) × (get_elem? pool.packets i ≡ some p) × (is_held p ≡ 0))
      × (get_elem? next.packets i ≡ some (record { ref_count = pos 1; metadata = none }))
      × IsOwned queue n next

  taken : Pool Q → ℕ → Q → Pool Q
  taken pool i q = record {
    packets = set pool.packets i (record { ref_count = pos 1; metadata = none });
    free_queue = q;
  }

  taken-Acquired :
      (n : ℕ) (pool : Pool Q) (i : ℕ) (q : Q)
      → IsOwned queue n pool
      → queue.Ready n q
      → queue.contents pool.free_queue ≡ i ∷ queue.contents q
      → Acquired n pool (some i, taken pool i q)
  unfolding Acquired taken count total is_item
  taken-Acquired n pool i q owned ready e =
      let here : count i (queue.contents pool.free_queue)
          ≡ is_item i i + count i (queue.contents q) =
        ap (count i) e in
      let (p, at, free, one) =
        vacant_packet (get_elem? pool.packets i)
          (omega (arith, owned.free_once i, is_item_self i, here)) in
      (
        (p, at, free),
        get_elem?-set_self pool.packets i _ (lt_length pool.packets i p at),
        exchange queue n n pool (taken pool i q) i p (record { ref_count = pos 1; metadata = none })
            ready owned at refl
            (λ j.
              let c : count j (queue.contents pool.free_queue)
                  ≡ (if j == i then 1 else 0) + count j (queue.contents q) =
                ap (count j) e in
              moved (j == i) _ _ _ c one)
            (omega (arith, ap length e, fresh_vacancy)),
      )

  -- In a pool where each free packet, and no other, has its index in the queue, once, an acquisition
  -- gives out a packet that nobody holds, with one reference, or none if every packet is held; the
  -- pool stays such a pool. The queue is any that keeps the laws of `FreeQueue`, as the one of
  -- src/mpmc_queue.c does.
  pub acquire-Acquired :
      (n : ℕ) (pool : Pool Q) → IsOwned queue n pool → Acquired n pool (acquire queue pool)
  unfolding acquire Acquired taken
  acquire-Acquired n pool owned = elim (pop_cases queue n pool.free_queue owned.ready) [
    | inl (e, was, now) ↦
        subst
          (λ o. Acquired n pool (elim o as (λ o'. Option ℕ × Pool Q) [
            | none ↦ (none, record pool { free_queue = (queue.pop pool.free_queue).1 })
            | some idx ↦ (some idx, taken pool idx (queue.pop pool.free_queue).1)
          ]))
          (sym e)
          (
            omega (arith, owned.tally, ap length was),
            record {
              free_once = λ j. ap (count j) (now ∙ sym was) ∙ owned.free_once j;
              tally = omega (arith, owned.tally, ap length (now ∙ sym was));
              room = owned.room;
              indices = owned.indices;
              ready = (queue.pop_law n pool.free_queue owned.ready).1;
            },
          )
    | inr (x, e, was) ↦
        subst
          (λ o. Acquired n pool (elim o as (λ o'. Option ℕ × Pool Q) [
            | none ↦ (none, record pool { free_queue = (queue.pop pool.free_queue).1 })
            | some idx ↦ (some idx, taken pool idx (queue.pop pool.free_queue).1)
          ]))
          (sym e)
          (taken-Acquired n pool x (queue.pop pool.free_queue).1 owned
            (queue.pop_law n pool.free_queue owned.ready).1 was)
  ]

  with_refs : Pool Q → ℕ → Packet → ℤ → Q → Pool Q
  with_refs pool i p refs q = record {
    packets = set pool.packets i (record p { ref_count = refs });
    free_queue = q;
  }

  -- A held packet stays held.
  still_held :
      (n : ℕ) (pool : Pool Q) (i : ℕ) (p : Packet) (refs : ℤ)
      → IsOwned queue n pool
      → get_elem? pool.packets i ≡ some p
      → pos 1 ≤ℤ p.ref_count
      → pos 1 ≤ℤ refs
      → IsOwned queue n (with_refs pool i p refs pool.free_queue)
  unfolding with_refs
  still_held n pool i p refs owned at held more =
      let same : vacancy (some p) ≡ vacancy (some (record p { ref_count = refs })) =
        held_vacancy p held ∙ sym (held_vacancy (record p { ref_count = refs }) more) in
      exchange queue n n pool (with_refs pool i p refs pool.free_queue) i p
        (record p { ref_count = refs }) owned.ready owned at refl
        (λ j. ap (λ v. count j (queue.contents pool.free_queue) + (if j == i then v else 0)) same)
        (ap (λ v. length (queue.contents pool.free_queue) + v) same)

  -- Who holds a packet may add a reference: the pool stays owned.
  pub ref-IsOwned :
      (n : ℕ) (pool : Pool Q) (i : ℕ) {p : Packet}
      → IsOwned queue n pool
      → get_elem? pool.packets i ≡ some p
      → pos 1 ≤ℤ p.ref_count
      → IsOwned queue n (ref queue pool i)
  unfolding ref with_refs
  ref-IsOwned n pool i {p} owned at held =
      subst
        (λ o. IsOwned queue n (elim o as (λ o'. Pool Q) [
          | none ↦ pool
          | some pkt ↦ with_refs pool i pkt (pkt.ref_count +ℤ pos 1) pool.free_queue
        ]))
        (sym at) (still_held n pool i p (p.ref_count +ℤ pos 1) owned at held (omega int_laws))
