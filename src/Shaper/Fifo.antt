-- ===== src/Shaper/Fifo.antt =====
-- src/libtsshaper/src/core/tss_fifo.c: the byte ring in front of each stream of the shaper.
-- A pointer to a FIFO is valid (the null guards are not modelled). A status of -1 is `none`, and
-- then nothing has changed. What `malloc` returns, its bytes included, is an argument.
pub mod Refine
use tsanalyzer.Base.{ℕ, ◌+◌, ◌-◌, ◌%◌, ◌^◌, List, [], ◌++◌, Option, none, some, Bool, true, false}
use tsanalyzer.Base.{ltb, leb, if◌then◌else◌, length, take, drop}
use tsanalyzer.Base.Window.{write_at, read_at}

-- tss_fifo_t
pub record Fifo : Type 0 where
  pub buffer : List ℕ
  pub capacity : ℕ
  pub head : ℕ
  pub tail : ℕ
  pub size : ℕ

-- `size_t` addition
abbrev pub add_size : ℕ → ℕ → ℕ
add_size a b = (a + b) % 2 ^ 64

-- `storage` is what the second `malloc` returns; `none` where one of the two fails.
unfoldable pub alloc : Bool → Option (List ℕ) → ℕ → Option Fifo
alloc false storage capacity = none
alloc true none capacity = none
alloc true (some storage) capacity =
    some (record { buffer = storage; capacity = capacity; head = 0; tail = 0; size = 0 })

unfoldable pub size_of : Fifo → ℕ
size_of f = f.size

unfoldable pub reset : Fifo → Fifo
reset f = record f { head = 0; tail = 0; size = 0 }

-- The copies of `tss_fifo_write`.
unfoldable pub copy_in : Fifo → List ℕ → List ℕ
copy_in f bytes =
    let to_end = f.capacity - f.tail in
    if leb (length bytes) to_end
    then write_at f.buffer f.tail bytes
    else write_at (write_at f.buffer f.tail (take to_end bytes)) 0 (drop to_end bytes)

unfoldable pub write : Fifo → List ℕ → Option Fifo
write f bytes =
    let len = length bytes in
    if ltb f.capacity (add_size f.size len)
    then none
    else some (record f {
      buffer = copy_in f bytes;
      tail = add_size f.tail len % f.capacity;
      size = add_size f.size len;
    })

-- The copies of `tss_fifo_read` and `tss_fifo_peek`: `len` bytes from `start` on.
unfoldable pub copy_out : Fifo → ℕ → ℕ → List ℕ
copy_out f start len =
    let to_end = f.capacity - start in
    if leb len to_end
    then read_at 0 f.buffer start len
    else read_at 0 f.buffer start to_end ++ read_at 0 f.buffer 0 (len - to_end)

-- The bytes that leave the ring: `len` of them from the head.
unfoldable pub skip : Fifo → ℕ → Fifo
skip f len = record f { head = add_size f.head len % f.capacity; size = f.size - len }

-- `wanted` says whether `buf` is not null. `size -= len` runs only at `len ≤ size`.
unfoldable pub read : Fifo → Bool → ℕ → Option (List ℕ × Fifo)
read f wanted len =
    if ltb f.size len
    then none
    else some ((if wanted then copy_out f f.head len else []), skip f len)

unfoldable pub peek : Fifo → ℕ → ℕ → Option (List ℕ)
peek f len offset =
    if ltb f.size (add_size offset len)
    then none
    else some (copy_out f (add_size f.head offset % f.capacity) len)

unfoldable pub drain : Fifo → ℕ → Fifo
drain f len = skip f (if ltb f.size len then f.size else len)
