-- ===== src/PacketRing.antt =====
-- src/tsa_utils.c, the packet ring of the forensic recorder: free-running 64-bit counters, a slot
-- of 188 bytes and a timestamp for each index. `malloc` and `calloc` are outside the program: what
-- they return is an argument. Pointers are valid (the null guards are not modelled).
pub mod Refine
use tsanalyzer.Base.{ℕ, ◌+◌, ◌%◌, List, [], Option, none, some, Bool, true, false}
use tsanalyzer.Base.{leb, ◌==◌, if◌then◌else◌, get_or, set, sub64, u64}

-- struct tsa_packet_ring: the buffer as its slots
pub record Ring : Type 0 where
  pub buffer : List (List ℕ)
  pub timestamps : List ℕ
  pub sz : ℕ
  pub head : ℕ
  pub tail : ℕ

-- The two `malloc` results are stored without a test; a null one has no slots.
unfoldable pub create : Bool → List (List ℕ) → List ℕ → ℕ → Option Ring
create false buffer timestamps sz = none
create true buffer timestamps sz =
    some (record { buffer = buffer; timestamps = timestamps; sz = sz; head = 0; tail = 0 })

-- -1 is `false`.
unfoldable pub push : Ring → List ℕ → ℕ → Bool × Ring
push r p n =
    if leb r.sz (sub64 r.head r.tail)
    then (false, r)
    else let idx : ℕ = r.head % r.sz in
      (
        true,
        record r {
          buffer = set r.buffer idx p;
          timestamps = set r.timestamps idx n;
          head = u64 (r.head + 1);
        },
      )

-- -1 is `none`; otherwise the packet and the timestamp that the slot holds.
unfoldable pub pop : Ring → Option (List ℕ × ℕ) × Ring
pop r =
    if r.head == r.tail
    then (none, r)
    else let idx : ℕ = r.tail % r.sz in
      (
        some (get_or r.buffer idx [], get_or r.timestamps idx 0),
        record r { tail = u64 (r.tail + 1) },
      )
