-- ===== src/Shaper/Scheduler/Search.antt =====
-- src/libtsshaper/src/core/tss_scheduler.c, `tss_pick_es_pid`: how the search stands after the
-- streams that it has seen.
use tsanalyzer.Base.{ℕ, zero, suc, ◌≡◌, refl, sym, ap, ◌∙◌, subst, inl, inr, arith}
use tsanalyzer.Base.{List, [], ◌∷◌, some, Bool, true, false, ◌≢◌}
use tsanalyzer.Base.{map, ltb, if_then, if_else, Bool-cases, get_elem?}
use mathlib.Core.Option.{some-injective}
use tsanalyzer.Base.Int.{ℤ, pos, ◌≤ℤ◌}
use tsanalyzer.Shaper.State.{PidState, Shaper}
use tsanalyzer.Shaper.Equilibrium.{fifo_size}
use tsanalyzer.Shaper.Scheduler.{
  Best, nothing_yet, is_tb_full, is_better, outruns, consider, best_is_psi,
}
use tsanalyzer.Shaper.Scheduler.View.{holds_packet, may_send, view, may_send_at, IsSameView}

-- None of the streams may send.
unfoldable pub Blocked : Shaper → List ℕ → Type 0
Blocked ctx [] = Unit
Blocked ctx (i ∷ pids) = (may_send_at ctx i ≡ false) × Blocked ctx pids

-- How the search stands after the streams `seen`: it has found nothing, and none of them may send;
-- or it has found one that may.
pub data Found (ctx : Shaper) (seen : List ℕ) (best : Best) : Type 0 where
  none_yet : best ≡ nothing_yet → Blocked ctx seen → Found ctx seen best
  picked :
      (prog i : ℕ) → best.chosen ≡ some (prog, i) → may_send_at ctx i ≡ true → Found ctx seen best

pub stay-Found :
    {ctx : Shaper} {seen : List ℕ} {best : Best} (i : ℕ)
    → may_send_at ctx i ≡ false
    → Found ctx seen best
    → Found ctx (i ∷ seen) best
unfolding Blocked
stay-Found i e (none_yet f b) = none_yet f (e, b)
stay-Found i e (picked prog j c m) = picked prog j c m

-- The first stream that gets this far is taken.
pub first_is_better :
    (ctx : Shaper) (i : ℕ) (p : PidState) (deadline : ℤ) (urgent : Bool)
    → pos 0 ≤ℤ p.sched.continuous_fullness_bits
    → (is_better ctx nothing_yet i p deadline urgent).0 ≡ true
unfolding is_better outruns best_is_psi
first_is_better ctx i p deadline urgent h = ground arith

pub consider-Found :
    (start ctx : Shaper) {seen : List ℕ} {best : Best} (prog i : ℕ) (p : PidState) (deadline : ℤ)
    (urgent : Bool)
    → may_send_at start i ≡ true
    → pos 0 ≤ℤ p.sched.continuous_fullness_bits
    → Found start seen best
    → Found start (i ∷ seen) (consider ctx best prog i p deadline urgent)
unfolding consider
consider-Found start ctx {seen} {best} prog i p deadline urgent m h found =
    let taken : Best = record {
      chosen = some (prog, i);
      deadline = (is_better ctx best i p deadline urgent).1;
      fullness = p.sched.continuous_fullness_bits;
      is_urgent = urgent;
    } in
    elim (Bool-cases (is_better ctx best i p deadline urgent).0) [
      | inl e ↦
          if_then (Found start (i ∷ seen)) (is_better ctx best i p deadline urgent).0 taken best e
            (picked prog i refl m)
      | inr e ↦
          if_else (Found start (i ∷ seen)) (is_better ctx best i p deadline urgent).0 taken best e
            (kept found e)
    ]
  where
    true_ne_false : true ≢ false
    true_ne_false e = cc

    kept :
        Found start seen best
        → (is_better ctx best i p deadline urgent).0 ≡ false
        → Found start (i ∷ seen) best
    kept (picked q j c s) e = picked q j c s
    kept (none_yet f b) e = absurd (
        true_ne_false (
          sym (first_is_better ctx i p deadline urgent h)
          ∙ ap (λ b. (is_better ctx b i p deadline urgent).0) (sym f)
          ∙ e))

-- The streams of the programs, in the order of the search, the last first.
unfoldable pub rev_append : List ℕ → List ℕ → List ℕ
rev_append [] seen = seen
rev_append (i ∷ pids) seen = rev_append pids (i ∷ seen)

unfoldable pub visited : List (List ℕ) → List ℕ → List ℕ
visited [] seen = seen
visited (pids ∷ programs) seen = visited programs (rev_append pids seen)

-- No buffer is less than empty.
abbrev pub AllNatural : List PidState → Type 0
AllNatural [] = Unit {0}
AllNatural (p ∷ ps) = (pos 0 ≤ℤ p.sched.continuous_fullness_bits) × AllNatural ps

abbrev pub AllNaturalViews : List (Bool × Bool × Bool × ℤ) → Type 0
AllNaturalViews [] = Unit {0}
AllNaturalViews ((h, t, k, bits) ∷ vs) = (pos 0 ≤ℤ bits) × AllNaturalViews vs

pub AllNatural-view : (ps : List PidState) → AllNatural ps → AllNaturalViews (map view ps)
unfolding view
AllNatural-view [] h = h
AllNatural-view (p ∷ ps) h = (h.0, AllNatural-view ps h.1)

pub natural_at :
    (ps : List PidState) (i : ℕ) (p : PidState)
    → AllNaturalViews (map view ps)
    → get_elem? ps i ≡ some p
    → pos 0 ≤ℤ p.sched.continuous_fullness_bits
unfolding view
natural_at [] i p h e = cc
natural_at (q ∷ ps) zero p h e =
    subst (λ r. pos 0 ≤ℤ r.sched.continuous_fullness_bits) (some-injective q p e) h.0
natural_at (q ∷ ps) (suc i) p h e = natural_at ps i p h.1 e

pub starved_may_not : (p : PidState) → ltb (fifo_size p) 188 ≡ true → may_send p ≡ false
unfolding may_send
starved_may_not p e = ground arith

pub full_may_not : (p : PidState) → is_tb_full p ≡ true → may_send p ≡ false
unfolding may_send
full_may_not p e = ground arith

pub holds_of_not_starved : (p : PidState) → ltb (fifo_size p) 188 ≡ false → holds_packet p ≡ true
holds_of_not_starved p e = ground arith

-- What a visit of the stream `i` owes to the search that began at `start`.
pub record Visited (start : Shaper) (seen : List ℕ) (i : ℕ) (r : Shaper × Best) : Type 0 where
  pub same : IsSameView start r.0
  pub found : Found start (i ∷ seen) r.1
