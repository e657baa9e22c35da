-- ===== src/Shaper/Pacing/Bounds.antt =====
-- src/libtsshaper/src/core/tss_pacing.c: the bounds of tokens and rates, and the bits of a refill.
use tsanalyzer.Base.{◌≡◌, ap, ◌∙◌, List, [], ◌∷◌, map, if_each, arith}
use tsanalyzer.Base.Int.{ℤ, pos, ◌+ℤ◌, ◌-ℤ◌, ◌*ℤ◌, ◌≤ℤ◌, ltb_ℤ, eq_ℤ, div_ℤ, rem_ℤ, int_laws}
use tsanalyzer.Shaper.State.{nopts, PidState, Shaper}
use tsanalyzer.Shaper.Pacing.{
  clock_freq, min_floor, effective_refill, clamp_tokens, add_tokens, adjust_rate,
  has_dynamic_refill, next_rate, refill_pid, refill_tokens_flywheel,
}

-- A PID whose tokens are between the floor and the size of its bucket, which is above the floor.
pub record IsPaced (p : PidState) : Type 0 where
  pub roomy : min_floor ≤ℤ p.bucket_size_bits
  pub above : min_floor ≤ℤ p.tokens_bits
  pub below : p.tokens_bits ≤ℤ p.bucket_size_bits

clamp_tokens_in :
    (p : PidState) (tokens : ℤ)
    → min_floor ≤ℤ p.bucket_size_bits
    → (min_floor ≤ℤ clamp_tokens p tokens) × (clamp_tokens p tokens ≤ℤ p.bucket_size_bits)
unfolding clamp_tokens
clamp_tokens_in p tokens h = ground arith

-- No bit is lost: what a refill is worth, with the remainder of the last one, is the whole tokens it
-- gives and the remainder that it leaves.
div_rem_ℤ : (a : ℤ) → div_ℤ a clock_freq *ℤ pos clock_freq +ℤ rem_ℤ a clock_freq ≡ a
unfolding ◌*ℤ◌ ◌+ℤ◌
div_rem_ℤ a = ground arith

add_tokens-IsPaced : (delta : ℤ) (p : PidState) → IsPaced p → IsPaced (add_tokens delta p)
unfolding add_tokens
add_tokens-IsPaced delta p v =
    let (above, below) =
      clamp_tokens_in p
        (p.tokens_bits +ℤ div_ℤ (delta *ℤ effective_refill p +ℤ p.token_remainder) clock_freq)
        v.roomy in
    record { roomy = v.roomy; above = above; below = below }

adjust_rate-IsPaced : (p : PidState) → IsPaced p → IsPaced (adjust_rate p)
unfolding adjust_rate
adjust_rate-IsPaced p v =
    if_each IsPaced (has_dynamic_refill p) (record p { effective_refill_rate_bps = next_rate p }) p
      (record { roomy = v.roomy; above = v.above; below = v.below }) v

abbrev pub AllPaced : List PidState → Type 0
AllPaced [] = Unit {0}
AllPaced (p ∷ ps) = IsPaced p × AllPaced ps

AllPaced-refill :
    (delta : ℤ) (ps : List PidState) → AllPaced ps → AllPaced (map (refill_pid delta) ps)
unfolding refill_pid
AllPaced-refill delta [] v = v
AllPaced-refill delta (p ∷ ps) v = (
  add_tokens-IsPaced delta (adjust_rate p) (adjust_rate-IsPaced p v.0),
  AllPaced-refill delta ps v.1,
)

-- A refill keeps the tokens of every PID between a debt of 10 packets and the size of its bucket,
-- whatever the clocks and the rates are.
pub refill_tokens_flywheel-AllPaced :
    (ctx : Shaper) → AllPaced ctx.all_pids → AllPaced (refill_tokens_flywheel ctx).all_pids
unfolding refill_tokens_flywheel
refill_tokens_flywheel-AllPaced ctx v =
    let delta = ctx.physical_stc -ℤ ctx.last_refill_physical_stc in
    if_each (λ (c : Shaper). AllPaced c.all_pids) (eq_ℤ ctx.last_refill_physical_stc nopts) _ _ v
      (if_each (λ (c : Shaper). AllPaced c.all_pids) (ltb_ℤ delta (pos 0)) _ _ v
        (if_each (λ (c : Shaper). AllPaced c.all_pids) (ltb_ℤ (pos 0) delta) _ _
          (AllPaced-refill delta ctx.all_pids v) v))

-- The tokens that a refill is worth, before the bucket's bounds.
abbrev pub refilled : ℤ → PidState → ℤ
refilled delta p =
    p.tokens_bits +ℤ div_ℤ (delta *ℤ effective_refill p +ℤ p.token_remainder) clock_freq

clamp_tokens_inside :
    (p : PidState) (tokens : ℤ)
    → min_floor ≤ℤ tokens
    → tokens ≤ℤ p.bucket_size_bits
    → clamp_tokens p tokens ≡ tokens
unfolding clamp_tokens
clamp_tokens_inside p tokens h k = ground arith

-- A refill that stays within the bounds of the bucket loses no bit: the tokens it gives, times the
-- clock's frequency, and the remainder it leaves are the time times the rate and the remainder of
-- the refill before.
pub add_tokens_lossless :
    (delta : ℤ) (p : PidState)
    → min_floor ≤ℤ refilled delta p
    → refilled delta p ≤ℤ p.bucket_size_bits
    → ((add_tokens delta p).tokens_bits -ℤ p.tokens_bits) *ℤ pos clock_freq
        +ℤ (add_tokens delta p).token_remainder
      ≡ delta *ℤ effective_refill p +ℤ p.token_remainder
unfolding add_tokens
add_tokens_lossless delta p h k =
    let work_bits = delta *ℤ effective_refill p +ℤ p.token_remainder in
    ap (λ t. (t -ℤ p.tokens_bits) *ℤ pos clock_freq +ℤ rem_ℤ work_bits clock_freq)
      (clamp_tokens_inside p (refilled delta p) h k)
    ∙ ap (λ t. t *ℤ pos clock_freq +ℤ rem_ℤ work_bits clock_freq)
        (difference p.tokens_bits (div_ℤ work_bits clock_freq))
    ∙ div_rem_ℤ work_bits
  where
    difference : (a b : ℤ) → a +ℤ b -ℤ a ≡ b
    difference a b = omega int_laws
