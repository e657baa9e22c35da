-- ===== src/Shaper/Scheduler/Round.antt =====
-- src/libtsshaper/src/core/tss_scheduler.c, `tss_pick_es_pid`: one round of the search.
use tsanalyzer.Base.{ℕ, ◌≡◌, sym, ap, ap₂, ◌∙◌, subst, inl, inr}
use tsanalyzer.Base.{List, some, Bool, true, false, not, ◌&&◌}
use tsanalyzer.Base.{ltb, if◌then◌else◌, if_then, if_else, Bool-cases, get_elem?}
use tsanalyzer.Base.Int.{ℤ, pos, ◌≤ℤ◌}
use tsanalyzer.Shaper.State.{PidState, Shaper}
use tsanalyzer.Shaper.Equilibrium.{fifo_size}
use tsanalyzer.Shaper.Scheduler.{
  Best, is_tb_full, starve, time, gate, pace, consider, contest, visit_pid, put_pid,
}
use tsanalyzer.Shaper.Scheduler.View.{
  holds_packet, has_tokens, may_send, view, may_send_at, IsSameView, view-starve, view-pace,
  view-time, view-gate, gate_passes, map-set, may_send_at-IsSameView, may_send_at_pid,
}
use tsanalyzer.Shaper.Scheduler.Search.{
  Found, stay-Found, consider-Found, starved_may_not, full_may_not, holds_of_not_starved, Visited,
}

module _ (start ctx : Shaper) {seen : List ℕ} {best : Best} (prog i : ℕ) (p : PidState)
    (at : get_elem? ctx.all_pids i ≡ some p) (unchanged : IsSameView start ctx)
    (so_far : Found start seen best) where
  put_same : (q : PidState) → view q ≡ view p → IsSameView start (put_pid ctx i q)
  put_same q v = map-set ctx.all_pids i p q at v ∙ unchanged

  may_send_here : may_send_at start i ≡ may_send p
  may_send_here = sym (may_send_at-IsSameView start ctx i unchanged) ∙ may_send_at_pid ctx i p at

  -- A stream that may not send is passed over.
  pass_over :
      (q : PidState)
      → view q ≡ view p
      → may_send p ≡ false
      → Visited start seen i (put_pid ctx i q, best)
  pass_over q v e = record { same = put_same q v; found = stay-Found i (may_send_here ∙ e) so_far }

  contest-Visited :
      (q : PidState) (ratio : ℤ)
      → view q ≡ view p
      → pos 0 ≤ℤ p.sched.continuous_fullness_bits
      → holds_packet p ≡ true
      → is_tb_full p ≡ false
      → Visited start seen i (contest ctx best prog i q ratio)
  unfolding contest may_send view
  contest-Visited q ratio v natural holds room =
      let (timed, deadline, urgent) = time ctx q ratio in
      let (gated, passes) = gate ctx timed in
      let same_view : view gated ≡ view p = view-gate ctx timed ∙ view-time ctx q ratio ∙ v in
      let next : Shaper = put_pid ctx i gated in
      let tokens : passes ≡ has_tokens p =
        gate_passes ctx timed ∙ ap (λ w. w.2) (view-time ctx q ratio ∙ v) in
      let sends : may_send p ≡ passes =
        ap₂ (λ h f. h && not f && has_tokens p) holds room ∙ sym tokens in
      elim (Bool-cases passes) [
        | inl e ↦
            if_then (Visited start seen i) passes
              (next, consider next best prog i gated deadline urgent) (next, best) e
              (record {
                same = put_same gated same_view;
                found =
                    consider-Found start next prog i gated deadline urgent
                      (may_send_here ∙ sends ∙ e)
                      (subst (λ bits. pos 0 ≤ℤ bits)
                        (sym (ap (λ (w : Bool × Bool × Bool × ℤ). w.3) same_view)) natural)
                      so_far;
              })
        | inr e ↦
            if_else (Visited start seen i) passes
              (next, consider next best prog i gated deadline urgent) (next, best) e
              (pass_over gated same_view (sends ∙ e))
      ]

  -- One round of the loop.
  pub visit_pid-Visited :
      pos 0 ≤ℤ p.sched.continuous_fullness_bits → Visited start seen i (visit_pid ctx best prog i p)
  unfolding visit_pid may_send view
  visit_pid-Visited natural =
      let (paced, ratio) = pace ctx p in
      let pv : view paced ≡ view p = view-pace ctx p in
      let same_full : is_tb_full paced ≡ is_tb_full p =
        ap (λ (w : Bool × Bool × Bool × ℤ). w.1) pv in
      let starved : Bool = ltb (fifo_size p) 188 in
      let on : Shaper × Best =
        if is_tb_full paced
        then (put_pid ctx i paced, best)
        else contest ctx best prog i paced ratio in
      elim (Bool-cases starved) [
        | inl e ↦
            if_then (Visited start seen i) starved (put_pid ctx i (starve p), best) on e
              (pass_over (starve p) (view-starve p) (starved_may_not p e))
        | inr e ↦
            if_else (Visited start seen i) starved (put_pid ctx i (starve p), best) on e
              (elim (Bool-cases (is_tb_full paced)) [
                | inl f ↦
                    if_then (Visited start seen i) (is_tb_full paced) (put_pid ctx i paced, best)
                      (contest ctx best prog i paced ratio) f
                      (pass_over paced pv (full_may_not p (sym same_full ∙ f)))
                | inr f ↦
                    if_else (Visited start seen i) (is_tb_full paced) (put_pid ctx i paced, best)
                      (contest ctx best prog i paced ratio) f
                      (contest-Visited paced ratio pv natural (holds_of_not_starved p e)
                        (sym same_full ∙ f))
              ])
      ]
