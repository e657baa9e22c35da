-- ===== src/Shaper/Scheduler/View.antt =====
-- src/libtsshaper/src/core/tss_scheduler.c, `tss_pick_es_pid`: when a stream may send, and that a
-- round of the search leaves this as it is for every stream.
use tsanalyzer.Base.{ℕ, zero, suc, ◌≡◌, refl, sym, ap, ◌∙◌, arith}
use tsanalyzer.Base.{List, [], ◌∷◌, none, some, Bool, false, not, ◌&&◌, ◌||◌}
use tsanalyzer.Base.{map, leb, if_each, get_elem?, set}
use mathlib.Core.Option.{some-injective}
use tsanalyzer.Base.Int.{ℤ, pos, ltb_ℤ}
use tsanalyzer.Shaper.State.{PidState, Shaper}
use tsanalyzer.Shaper.Equilibrium.{fifo_size, control}
use tsanalyzer.Shaper.Scheduler.{is_tb_full, starve, time, note_slack, gate, pace}

-- It holds a packet; it has the tokens for one or is in panic mode.
abbrev pub holds_packet : PidState → Bool
holds_packet p = leb 188 (fifo_size p)

abbrev pub has_tokens : PidState → Bool
has_tokens p = p.sched.is_panic_mode || not (ltb_ℤ p.tokens_bits (pos 1504))

-- A stream may send when it holds a packet, its transport buffer has room for one, and it has the
-- tokens.
unfoldable pub may_send : PidState → Bool
may_send p = holds_packet p && not (is_tb_full p) && has_tokens p

-- What the choice depends on, and no visit changes.
unfoldable pub view : PidState → Bool × Bool × Bool × ℤ
view p = (holds_packet p, is_tb_full p, has_tokens p, p.sched.continuous_fullness_bits)

abbrev pub may_send_view : Bool × Bool × Bool × ℤ → Bool
may_send_view (holds, full, tokens, _) = holds && not full && tokens

-- The stream of an index may send; there may be no such stream.
unfoldable pub may_send_at : Shaper → ℕ → Bool
may_send_at ctx i = elim (get_elem? ctx.all_pids i) [ none ↦ false | some p ↦ may_send p ]

-- The two states have the same streams to the choice.
abbrev pub IsSameView : Shaper → Shaper → Type 0
IsSameView a b = map view b.all_pids ≡ map view a.all_pids

pub view-starve : (p : PidState) → view (starve p) ≡ view p
unfolding view starve may_send fifo_size is_tb_full
view-starve p = ground arith

pub view-pace : (ctx : Shaper) (p : PidState) → view (pace ctx p).0 ≡ view p
unfolding view pace may_send fifo_size is_tb_full control
view-pace ctx p = if_each (λ (r : PidState × ℤ). view r.0 ≡ view p) _ _ _ refl refl

pub view-time : (ctx : Shaper) (p : PidState) (ratio : ℤ) → view (time ctx p ratio).0 ≡ view p
unfolding view time note_slack may_send fifo_size is_tb_full
view-time ctx p ratio = ground arith

pub view-gate : (ctx : Shaper) (p : PidState) → view (gate ctx p).0 ≡ view p
unfolding view gate may_send fifo_size is_tb_full
view-gate ctx p = ground arith

-- The gate lets through what has the tokens.
pub gate_passes : (ctx : Shaper) (p : PidState) → (gate ctx p).1 ≡ (view p).2
unfolding gate view
gate_passes ctx p = ground arith

pub map-set :
    (ps : List PidState) (i : ℕ) (p q : PidState)
    → get_elem? ps i ≡ some p
    → view q ≡ view p
    → map view (set ps i q) ≡ map view ps
map-set [] i p q e v = refl
map-set (r ∷ ps) zero p q e v = ap (λ w. w ∷ map view ps) (v ∙ ap view (sym (some-injective r p e)))
map-set (r ∷ ps) (suc i) p q e v = ap (λ l. view r ∷ l) (map-set ps i p q e v)

pub may_send_at-view :
    (ctx : Shaper) (i : ℕ)
    → may_send_at ctx i ≡ elim (get_elem? (map view ctx.all_pids) i) as (λ o. Bool) [
      | none ↦ false
      | some v ↦ may_send_view v
    ]
unfolding may_send_at may_send view
may_send_at-view ctx i = go ctx.all_pids i
  where
    go :
        (ps : List PidState) (i : ℕ)
        → elim (get_elem? ps i) as (λ o. Bool) [ none ↦ false | some p ↦ may_send p ]
          ≡ elim (get_elem? (map view ps) i) as (λ o. Bool) [
            | none ↦ false
            | some v ↦ may_send_view v
          ]
    go [] i = refl
    go (p ∷ ps) zero = refl
    go (p ∷ ps) (suc i) = go ps i

pub may_send_at-IsSameView :
    (a b : Shaper) (i : ℕ) → IsSameView a b → may_send_at b i ≡ may_send_at a i
may_send_at-IsSameView a b i s =
    may_send_at-view b i
    ∙ ap
        (λ (vs : List (Bool × Bool × Bool × ℤ)). elim (get_elem? vs i) as (λ o. Bool) [
          | none ↦ false
          | some v ↦ may_send_view v
        ])
        s
    ∙ sym (may_send_at-view a i)

pub may_send_at_pid :
    (ctx : Shaper) (i : ℕ) (p : PidState)
    → get_elem? ctx.all_pids i ≡ some p
    → may_send_at ctx i ≡ may_send p
unfolding may_send_at
may_send_at_pid ctx i p e =
    ap (λ o. elim o as (λ o'. Bool) [ none ↦ false | some q ↦ may_send q ]) e
