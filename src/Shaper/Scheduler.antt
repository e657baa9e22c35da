-- ===== src/Shaper/Scheduler.antt =====
-- src/libtsshaper/src/core/tss_scheduler.c, `tss_pick_es_pid`: the choice of the stream that sends
-- the next packet. Log messages are not modelled.
pub mod Eligible
pub mod Round
pub mod Search
pub mod View
use tsanalyzer.Base.{ℕ, suc, ◌+◌, List, [], ◌∷◌, Option, none, some, length, set, get_elem?}
use tsanalyzer.Base.{Bool, true, false, not, ◌&&◌, ◌||◌, ltb, leb, ◌==◌, if◌then◌else◌}
use tsanalyzer.Base.Int.{ℤ, pos, negsuc, ◌+ℤ◌, ◌-ℤ◌, ltb_ℤ, eq_ℤ, abs_ℤ}
use tsanalyzer.Shaper.State.{
  PidType, video, audio, psi, other_data, pcr, AccessUnit, Sched, PidState, Shaper,
}
use tsanalyzer.Shaper.Equilibrium.{scale, leb_ℤ, fifo_size, delay_ratio, control}

-- 0x7FFFFFFFFFFFFFFF
abbrev pub no_deadline : ℤ
no_deadline = pos 9223372036854775807

-- The `best_` variables of the search: the stream is its index, with the index of its program.
pub record Best : Type 0 where
  pub chosen : Option (ℕ × ℕ)
  pub deadline : ℤ
  pub fullness : ℤ
  pub is_urgent : Bool

abbrev pub nothing_yet : Best
nothing_yet = record {
  chosen = none;
  deadline = no_deadline;
  fullness = negsuc 0;
  is_urgent = false;
}

abbrev pub is_av : PidType → Bool
is_av video = true
is_av audio = true
is_av _ = false

-- Audio and clock streams
abbrev pub is_clocked : PidType → Bool
is_clocked audio = true
is_clocked pcr = true
is_clocked _ = false

abbrev pub is_psi : PidType → Bool
is_psi psi = true
is_psi _ = false

-- The stream has no packet.
unfoldable pub starve : PidState → PidState
starve p =
    let waiting = record p {
      sched = record p.sched { tel_sec_wait_data = p.sched.tel_sec_wait_data + 1 };
    } in
    if is_av p.pid_type
    then record waiting {
      pacing_tokens = scale;
      sched = record waiting.sched { pi_integral = pos 0; next_pacing_stc = pos 0 };
    }
    else waiting

-- A packet more would overflow the transport buffer.
unfoldable pub is_tb_full : PidState → Bool
is_tb_full p = ltb_ℤ p.sched.tb_size_bits (p.sched.tb_fullness_bits +ℤ pos 1504)

-- Whether a deadline makes its stream urgent.
unfoldable pub is_pressing : Shaper → PidState → ℤ → ℤ → Bool
is_pressing ctx p ratio slack =
    let near = ltb_ℤ slack (pos 135000) || ltb_ℤ (pos 1) ratio in
    if is_clocked p.pid_type
    then (if ltb_ℤ (ctx.mux_delay_27m +ℤ pos 5400000) slack then false else near)
    else near

unfoldable pub note_slack : PidState → ℤ → Bool → PidState
note_slack p slack urgent = record p {
  sched = record p.sched {
    tel_sec_slack_min_27m =
        if ltb_ℤ slack p.sched.tel_sec_slack_min_27m then slack else p.sched.tel_sec_slack_min_27m;
    is_urgent = urgent;
    telemetry_mode = if urgent then 3 else p.sched.telemetry_mode;
  };
}

-- The deadline of a stream and whether it is urgent.
unfoldable pub time : Shaper → PidState → ℤ → PidState × ℤ × Bool
time ctx p ratio = elim p.sched.au_events [
  | none ↦ (
    record p { sched = record p.sched { is_urgent = false } },
    ctx.v_stc +ℤ ctx.mux_delay_27m,
    false,
  )
  | some [] ↦ (
    record p { sched = record p.sched { is_urgent = false } },
    ctx.v_stc +ℤ ctx.mux_delay_27m,
    false,
  )
  | some (au ∷ _) ↦
      let slack = au.dts -ℤ ctx.v_stc in
      let urgent = is_pressing ctx p ratio slack in (note_slack p slack urgent, au.dts, urgent)
]

-- The token gate: the stream, and whether it may pass.
unfoldable pub gate : Shaper → PidState → PidState × Bool
gate ctx p =
    let paced = if ctx.in_drain then record p { pacing_tokens = scale } else p in
    if p.sched.is_panic_mode
    then (p, true)
    else if ltb_ℤ p.tokens_bits (pos 1504)
    then (
      record paced {
        sched = record paced.sched { tel_sec_wait_tok = paced.sched.tel_sec_wait_tok + 1 };
      },
      false,
    )
    else (paced, true)

-- `pid == ctx->last_pid`
unfoldable pub is_last : Shaper → ℕ → Bool
is_last ctx i = elim ctx.last_pid [ none ↦ false | some j ↦ i == j ]

-- Between streams of the same urgency: the earlier deadline, and within a millisecond the fuller
-- buffer. The deadline of a late audio or clock stream is pulled forward.
unfoldable pub outruns : Shaper → Best → ℕ → PidState → ℤ → Bool × ℤ
outruns ctx best i p deadline =
    let diff = if eq_ℤ best.deadline no_deadline then pos 0 else deadline -ℤ best.deadline in
    let pulled =
      if is_clocked p.pid_type && ltb_ℤ p.sched.tel_sec_slack_min_27m (pos 270000)
      then deadline -ℤ pos 540000
      else deadline in
    let fullness = p.sched.continuous_fullness_bits in
    if ltb_ℤ pulled (best.deadline -ℤ pos 27000)
    then (true, pulled)
    else if leb_ℤ (abs_ℤ diff) (pos 27000)
    then (
      ltb_ℤ best.fullness fullness
          || (eq_ℤ fullness best.fullness && is_last ctx i && ltb p.sched.burst_count 7),
      pulled,
    )
    else (false, pulled)

-- `best_pid && best_pid->type == TSS_PID_PSI`
unfoldable pub best_is_psi : Shaper → Best → Bool
best_is_psi ctx best = elim best.chosen [
  | none ↦ false
  | some (prog, j) ↦ elim (get_elem? ctx.all_pids j) [ none ↦ false | some q ↦ is_psi q.pid_type ]
]

unfoldable pub is_better : Shaper → Best → ℕ → PidState → ℤ → Bool → Bool × ℤ
is_better ctx best i p deadline urgent =
    if is_psi p.pid_type && ltb ctx.psi_consecutive_count 2 && not (best_is_psi ctx best)
    then (true, deadline)
    else if best_is_psi ctx best && not (is_psi p.pid_type)
    then (leb 2 ctx.psi_consecutive_count, deadline)
    else if urgent && not best.is_urgent
    then (true, deadline)
    else if not urgent && best.is_urgent
    then (false, deadline)
    else outruns ctx best i p deadline

unfoldable pub consider : Shaper → Best → ℕ → ℕ → PidState → ℤ → Bool → Best
consider ctx best prog i p deadline urgent =
    let (better, stamp) = is_better ctx best i p deadline urgent in
    if better
    then record {
      chosen = some (prog, i);
      deadline = stamp;
      fullness = p.sched.continuous_fullness_bits;
      is_urgent = urgent;
    }
    else best

abbrev pub put_pid : Shaper → ℕ → PidState → Shaper
put_pid ctx i p = record ctx { all_pids = set ctx.all_pids i p }

-- A stream with a packet, its pace set, whose transport buffer has room.
unfoldable pub contest : Shaper → Best → ℕ → ℕ → PidState → ℤ → Shaper × Best
contest ctx best prog i p ratio =
    let (timed, deadline, urgent) = time ctx p ratio in
    let (gated, passes) = gate ctx timed in
    let next = put_pid ctx i gated in
    if passes then (next, consider next best prog i gated deadline urgent) else (next, best)

-- The fullness ratio of a stream that the controller paces, and 0 for the others.
unfoldable pub pace : Shaper → PidState → PidState × ℤ
pace ctx p =
    if is_av p.pid_type then (control (delay_ratio ctx p) p, delay_ratio ctx p) else (p, pos 0)

-- One round of the loop over the streams.
unfoldable pub visit_pid : Shaper → Best → ℕ → ℕ → PidState → Shaper × Best
visit_pid ctx best prog i p =
    let (paced, ratio) = pace ctx p in
    if ltb (fifo_size p) 188
    then (put_pid ctx i (starve p), best)
    else if is_tb_full paced
    then (put_pid ctx i paced, best)
    else contest ctx best prog i paced ratio

unfoldable pub visit : Shaper → Best → ℕ → ℕ → Shaper × Best
visit ctx best prog i = elim (get_elem? ctx.all_pids i) [
  | none ↦ (ctx, best)
  | some p ↦ visit_pid ctx best prog i p
]

unfoldable pub visit_program : Shaper → Best → ℕ → List ℕ → Shaper × Best
visit_program ctx best prog [] = (ctx, best)
visit_program ctx best prog (i ∷ pids) =
    let (next, found) = visit ctx best prog i in visit_program next found prog pids

unfoldable pub visit_programs : Shaper → Best → ℕ → List (List ℕ) → Shaper × Best
visit_programs ctx best prog [] = (ctx, best)
visit_programs ctx best prog (pids ∷ programs) =
    let (next, found) = visit_program ctx best prog pids in
    visit_programs next found (suc prog) programs

-- tss_pick_es_pid: the program that `*out_prog` names, and the stream.
unfoldable pub pick_es_pid : Shaper → Shaper × Option (ℕ × ℕ)
pick_es_pid ctx =
    let (next, best) = visit_programs ctx nothing_yet 0 ctx.programs in (next, best.chosen)
