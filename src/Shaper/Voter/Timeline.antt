-- ===== src/Shaper/Voter/Timeline.antt =====
-- src/libtsshaper/src/core/tss_voter.c: when the timeline moves, and what stays the same when it does.
use tsanalyzer.Base.{
  ℕ, ◌≤◌, ◌≡◌, refl, sym, ap, ◌∙◌, ◌≢◌, ◌⊎◌, Bool, true, false, if◌then◌else◌, Bool-cases, inl, inr,
  arith,
}
use tsanalyzer.Base.Int.{ℤ, ◌+ℤ◌, ◌-ℤ◌, int_laws}
use tsanalyzer.Shaper.State.{PidState, Shaper}
use tsanalyzer.Shaper.Voter.{
  Vote, keep, translate, analyze, delta_raw, confirmed, confirm, detect, is_confirming, judge,
  move_timeline, put_pid, voter_process,
}

-- Does the vote move the timeline?
abbrev pub moves : Vote → Bool
moves (keep p) = false
moves (translate p) = true

moves-confirm :
    (ctx : Shaper) (p : PidState) (delta dts : ℤ) (is_master : Bool)
    → moves (confirm ctx p delta dts is_master) ≡ true
    → (is_master ≡ true) × (2 ≤ p.confirm_streak)
unfolding confirm confirmed
moves-confirm ctx p delta dts is_master e = ground arith

-- Only the master, and only a PID that is confirming a jump and has seen it twice, moves the
-- timeline.
pub moves-judge :
    (ctx : Shaper) (p : PidState) (dts : ℤ) (is_master : Bool)
    → moves (judge ctx p dts is_master) ≡ true
    → (is_master ≡ true) × (is_confirming p.state ≡ true) × (2 ≤ p.confirm_streak)
unfolding judge analyze
moves-judge ctx p dts is_master e = elim (Bool-cases (is_confirming p.state)) [
  | inl c ↦
      let (master, streak) = moves-confirm ctx (analyze p dts) (delta_raw p dts) dts is_master (
        sym (
          ap
            (λ b. moves (
              if b
              then confirm ctx (analyze p dts) (delta_raw p dts) dts is_master
              else keep (detect (analyze p dts).level ctx (analyze p dts) (delta_raw p dts))))
            c)
        ∙ e) in
      (master, c, streak)
  | inr c ↦ absurd (
      true_ne_false (
        sym e
        ∙ ap
            (λ b. moves (
              if b
              then confirm ctx (analyze p dts) (delta_raw p dts) dts is_master
              else keep (detect (analyze p dts).level ctx (analyze p dts) (delta_raw p dts))))
            c))
]
  where
    true_ne_false : true ≢ false
    true_ne_false e = cc

-- The virtual time of a time stamp that jumps with the timeline is the same after the move.
virtual_time_kept :
    (jump : ℤ) (ctx : Shaper) (raw : ℤ)
    → raw +ℤ jump -ℤ (move_timeline jump ctx).dts_offset ≡ raw -ℤ ctx.dts_offset
unfolding move_timeline
virtual_time_kept jump ctx raw = omega int_laws

-- The PID alone changes and the result is 0; or the timeline moves.
abbrev pub Outcome : Shaper → ℕ → PidState → ℤ → Bool → ℤ → Type 0
Outcome ctx k p dts is_master raw =
    ((q : PidState) × (voter_process ctx k p dts is_master ≡ (put_pid k q ctx, 0)))
    ⊎ ((q : PidState) × (voter_process ctx k p dts is_master
          ≡ (move_timeline q.candidate_jump (put_pid k q ctx), 1))
        × (is_master ≡ true)
        × (is_confirming p.state ≡ true)
        × (2 ≤ p.confirm_streak)
        × (raw +ℤ q.candidate_jump -ℤ (voter_process ctx k p dts is_master).0.dts_offset
            ≡ raw -ℤ ctx.dts_offset))

voter_process_by :
    (ctx : Shaper) (k : ℕ) (p : PidState) (dts : ℤ) (is_master : Bool) (v : Vote)
    → judge ctx p dts is_master ≡ v
    → voter_process ctx k p dts is_master ≡ elim v [
      | keep q ↦ (put_pid k q ctx, 0)
      | translate q ↦ (move_timeline q.candidate_jump (put_pid k q ctx), 1)
    ]
unfolding voter_process
voter_process_by ctx k p dts is_master v e =
    ap
      (λ w. elim w [
        | keep q ↦ (put_pid k q ctx, 0)
        | translate q ↦ (move_timeline q.candidate_jump (put_pid k q ctx), 1)
      ])
      e

-- The outcomes of a vote: the PID alone changes and the result is 0; or the result is 1, for the
-- master of a PID that is confirming and has seen the jump twice, the whole shaper moves, and every
-- time stamp on the new timeline has the virtual time that it would have had on the old one.
pub voter_process_outcomes :
    (ctx : Shaper) (k : ℕ) (p : PidState) (dts : ℤ) (is_master : Bool) (raw : ℤ)
    → Outcome ctx k p dts is_master raw
unfolding put_pid
voter_process_outcomes ctx k p dts is_master raw = go (judge ctx p dts is_master) refl
  where
    go : (v : Vote) → judge ctx p dts is_master ≡ v → Outcome ctx k p dts is_master raw
    go (keep q) e = inl (q, voter_process_by ctx k p dts is_master (keep q) e)
    go (translate q) e =
        let (master, confirms, streak) = moves-judge ctx p dts is_master (ap moves e) in
        inr (
          q,
          voter_process_by ctx k p dts is_master (translate q) e,
          master,
          confirms,
          streak,
          ap (λ t. raw +ℤ q.candidate_jump -ℤ t.0.dts_offset)
                (voter_process_by ctx k p dts is_master (translate q) e)
              ∙ virtual_time_kept q.candidate_jump (put_pid k q ctx) raw,
        )
