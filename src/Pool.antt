-- ===== src/Pool.antt =====
-- src/tsa_packet_pool.c and include/tsa_packet_pool.h: the pool of packets that are counted by
-- their references. The queue of free indices is an interface; a pointer to a packet is its index.
-- The operations run one at a time. `destroy` frees the memory.
pub mod Creation
pub mod Exchange
pub mod Indices
pub mod Ownership
pub mod Vacancy
use tsanalyzer.Base.{ℕ, zero, suc, ◌+◌, ◌^◌, ◌<◌, ◌≤◌, ◌≡◌, List, [], ◌∷◌, ◌++◌, Option, none, some}
use tsanalyzer.Base.{Bool, true, false, length, get_elem?, set, replicate, if◌then◌else◌}
use tsanalyzer.Base.Int.{ℤ, pos, ◌+ℤ◌, ◌-ℤ◌, eq_ℤ}
use tsanalyzer.BoundedQueue.{put, get}
use tsanalyzer.Mpmc.{no_item}

-- What the pool asks of the queue of free indices: while it is ready for a number of pushes, it is a
-- bounded first-in first-out queue of numbers below UINT32_MAX, and stays ready. Pool/Indices has
-- the queue of src/mpmc_queue.c as one.
pub record FreeQueue (Q : Type 0) : Type 1 where
  pub push : Q → ℕ → Bool × Q
  pub pop : Q → Option ℕ × Q
  pub contents : Q → List ℕ
  pub capacity : ℕ
  pub Ready : ℕ → Q → Type 0
  pub ready_fewer : (n : ℕ) (q : Q) → Ready (suc n) q → Ready n q
  pub push_law :
      (n : ℕ) (q : Q) (x : ℕ)
      → Ready (suc n) q
      → x < no_item
      → let (done, next) = push q x in
        ((done, contents next) ≡ put capacity (contents q) x) × Ready n next
  pub pop_law :
      (n : ℕ) (q : Q)
      → Ready n q
      → let (out, next) = pop q in ((out, contents next) ≡ get (contents q)) × Ready n next

-- tsa_packet_t, without its bytes and its time, which the pool does not touch; `metadata` is a
-- pointer, `none` if it is null.
pub record Packet : Type 0 where
  pub ref_count : ℤ
  pub metadata : Option ℕ

-- tsa_packet_pool_t
pub record Pool (Q : Type 0) : Type 0 where
  pub packets : List Packet
  pub free_queue : Q

-- What `calloc` leaves.
abbrev pub zeroed : Packet
zeroed = record { ref_count = pos 0; metadata = none }

module _ {Q : Type 0} (queue : FreeQueue Q) where
  -- The loop of `tsa_packet_pool_create` from `i` on.
  unfoldable pub fill_queue : ℕ → ℕ → Q → Q
  fill_queue zero i q = q
  fill_queue (suc rounds) i q = fill_queue rounds (i + 1) (queue.push q i).1

  -- `calloc` and the creation of the queue are taken to succeed, as the code does.
  unfoldable pub create : ℕ → Q → Pool Q
  create capacity q = record {
    packets = replicate capacity zeroed;
    free_queue = fill_queue capacity 0 q;
  }

  unfoldable pub acquire : Pool Q → Option ℕ × Pool Q
  acquire pool =
      let (out, next) = queue.pop pool.free_queue in
      elim out [
        | none ↦ (none, record pool { free_queue = next })
        | some idx ↦ (
          some idx,
          record pool {
            packets = set pool.packets idx (record { ref_count = pos 1; metadata = none });
            free_queue = next;
          },
        )
      ]

  -- `__atomic_fetch_add(&pkt->ref_count, 1)`
  unfoldable pub ref : Pool Q → ℕ → Pool Q
  ref pool idx = elim (get_elem? pool.packets idx) [
    | none ↦ pool
    | some pkt ↦ record pool {
      packets = set pool.packets idx (record pkt { ref_count = pkt.ref_count +ℤ pos 1 });
    }
  ]

  unfoldable pub unref : Pool Q → ℕ → Pool Q
  unref pool idx = elim (get_elem? pool.packets idx) [
    | none ↦ pool
    | some pkt ↦
        let left = pkt.ref_count -ℤ pos 1 in
        let lowered = record pool {
          packets = set pool.packets idx (record pkt { ref_count = left });
        } in
        if eq_ℤ left (pos 0)
        then record lowered { free_queue = (queue.push pool.free_queue idx).1 }
        else lowered
  ]
