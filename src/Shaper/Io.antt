-- ===== src/Shaper/Io.antt =====
-- src/libtsshaper/src/core/tss_io.c, `tss_internal_enqueue_packet`: the way of a packet into the
-- FIFO of its stream. The function works on `*ctx` and `*pid`, which are valid, and returns both;
-- a packet is the list of its 188 bytes. Log messages are not modelled.
pub mod Rotation
pub mod Accounting
pub mod Balance
use tsanalyzer.Base.{ℕ, zero, suc, ◌+◌, ◌-◌, ◌*◌, ◌/◌, ◌%◌, ◌^◌, List, [], Option, none, some}
use tsanalyzer.Base.{Bool, true, false, not, ◌&&◌, ◌||◌, ltb, leb, ◌==◌, if◌then◌else◌, get_or}
use tsanalyzer.Base.{sub64}
use tsanalyzer.Base.Int.{ℤ, pos, ◌-ℤ◌, ltb_ℤ, eq_ℤ}
use tsanalyzer.Shaper.Fifo.{Fifo, write, peek, drain, size_of}
use tsanalyzer.Shaper.State.{
  PidType, video, audio, psi, TssState, normal, wait_idr, Ingress, PidState, Shaper,
}

-- TSS_TS_PACKET_SIZE
abbrev pub packet_size : ℕ
packet_size = 188

-- Bit `k` of byte `i` of a packet.
abbrev pub flag : List ℕ → ℕ → ℕ → Bool
flag packet i k = not ((get_or packet i 0 / 2 ^ k % 2) == 0)

abbrev pub is_pusi : List ℕ → Bool
is_pusi packet = flag packet 1 6

unfoldable pub is_pcr : List ℕ → Bool
is_pcr packet = flag packet 3 5 && leb 7 (get_or packet 4 0) && flag packet 5 4

abbrev pub is_video : PidType → Bool
is_video video = true
is_video _ = false

abbrev pub is_audio : PidType → Bool
is_audio audio = true
is_audio _ = false

abbrev pub is_psi : PidType → Bool
is_psi psi = true
is_psi _ = false

abbrev pub is_waiting : TssState → Bool
is_waiting wait_idr = true
is_waiting _ = false

-- The watchdog of a stream that waits for a key frame, and whether the packet must go.
unfoldable pub watch : Shaper → PidState → Shaper × PidState × Bool
watch ctx pid =
    if eq_ℤ pid.ingress.wait_idr_start_stc (pos 0)
    then (
      ctx,
      record pid { ingress = record pid.ingress { wait_idr_start_stc = ctx.v_stc } },
      false,
    )
    else if ltb_ℤ (pos (3 * 27000000)) (ctx.v_stc -ℤ pid.ingress.wait_idr_start_stc)
    then (
      record ctx { dts_epoch_invalid = true },
      record pid {
        state = normal;
        need_resync = true;
        ingress = record pid.ingress {
          wait_idr_start_stc = pos 0;
          needs_discontinuity = true;
          tel_watchdog_count = pid.ingress.tel_watchdog_count + 1;
        };
      },
      false,
    )
    else (ctx, pid, true)

unfoldable pub watchdog : Shaper → PidState → List ℕ → Shaper × PidState × Bool
watchdog ctx pid packet =
    if is_video pid.pid_type && is_waiting pid.state && not (is_pcr packet)
    then watch ctx pid
    else (ctx, pid, false)

-- What a stream gives up when its FIFO is more than nine tenths full.
unfoldable pub shed_by_type : PidType → Shaper → PidState → ℕ → List ℕ → PidState × Bool
shed_by_type video ctx pid size packet =
    if is_pusi packet && not pid.ingress.is_current_au_key
    then (
      record pid {
        state = wait_idr;
        need_resync = true;
        ingress = record pid.ingress { wait_idr_start_stc = ctx.v_stc };
      },
      true,
    )
    else (pid, false)
shed_by_type audio ctx pid size packet =
    if ltb (pid.ingress.fifo_capacity * 95 / 100) size && not (is_pusi packet)
    then (
      record pid {
        ingress = record pid.ingress {
          tel_audio_shed_count = pid.ingress.tel_audio_shed_count + 1;
        };
      },
      true,
    )
    else (pid, false)
shed_by_type _ ctx pid size packet = (pid, true)

-- `int current_size` is the size of the FIFO, which is taken to fit: FIFOs are below 2^31 bytes.
unfoldable pub shed : Shaper → PidState → Bool → ℕ → List ℕ → PidState × Bool
shed ctx pid force_drop size packet =
    if not force_drop
      && not (is_pcr packet)
      && not (is_psi pid.pid_type)
      && ltb (pid.ingress.fifo_capacity * 9 / 10) size
    then shed_by_type pid.pid_type ctx pid size packet
    else (pid, force_drop)

-- `peek_pkt` of a FIFO that holds a packet
abbrev pub front : Fifo → List ℕ
front f = elim (peek f packet_size 0) [ none ↦ [] | some packet ↦ packet ]

-- The loop that drops packets up to the next start of a section. Each round drops one, so the
-- number of bytes bounds the rounds.
unfoldable pub drop_to_start : ℕ → Fifo → Fifo
drop_to_start zero f = f
drop_to_start (suc fuel) f =
    let rest = drop_to_start fuel (drain f packet_size) in
    if leb packet_size (size_of f) && not (is_pusi (front f)) then rest else f

-- `tss_fifo_write`, whose status is not looked at
unfoldable pub write_any : Fifo → List ℕ → Fifo
write_any f packet = elim (write f packet) [ none ↦ f | some g ↦ g ]

unfoldable pub rotate : Fifo → List ℕ → Fifo
rotate f packet =
    let drained = drain f packet_size in write_any (drop_to_start drained.size drained) packet

unfoldable pub accept : PidState → Fifo → List ℕ → PidState
accept pid f packet = record pid {
  ingress = record pid.ingress {
    ts_fifo = some (write_any f packet);
    fifo_accept_bytes = pid.ingress.fifo_accept_bytes + packet_size;
  };
}

unfoldable pub drop_packet : PidState → Fifo → List ℕ → PidState
drop_packet pid f packet =
    let rotates : Bool = is_psi pid.pid_type && is_pusi packet in
    record pid {
      ingress = record pid.ingress {
        drop_bytes_total = pid.ingress.drop_bytes_total + packet_size;
        cc_drop_count = (pid.ingress.cc_drop_count + 1) % 2 ^ 64;
        needs_discontinuity =
            is_video pid.pid_type || is_audio pid.pid_type || pid.ingress.needs_discontinuity;
        tel_psi_rotate_count = pid.ingress.tel_psi_rotate_count + (if rotates then 1 else 0);
        ts_fifo = some (if rotates then rotate f packet else f);
      };
    }

-- The difference is one of unsigned words.
unfoldable pub has_room : PidState → Fifo → Bool
has_room pid f = leb packet_size (sub64 pid.ingress.fifo_capacity (size_of f))

unfoldable pub settle : PidState → Bool → Fifo → List ℕ → PidState
settle pid force_drop f packet =
    if not force_drop && has_room pid f then accept pid f packet else drop_packet pid f packet

-- The work on a stream that has a FIFO.
unfoldable pub enqueue_into : Shaper → PidState → Fifo → List ℕ → Shaper × PidState
enqueue_into ctx pid f packet =
    let (watched, seen, force) = watchdog ctx pid packet in
    let (left, force_drop) = shed watched seen force (size_of f) packet in
    (watched, settle left force_drop f packet)

unfoldable pub enqueue_packet : Shaper → PidState → List ℕ → Shaper × PidState
enqueue_packet ctx pid packet =
    let counted = record pid {
      ingress = record pid.ingress { rx_bytes_total = pid.ingress.rx_bytes_total + packet_size };
    } in
    elim pid.ingress.ts_fifo [ none ↦ (ctx, counted) | some f ↦ enqueue_into ctx counted f packet ]
