-- ===== src/Base/Loops.antt =====
-- `for (i = from; i < from + rounds; i++) s = body(i, s)`, with two rules for it.
use tsanalyzer.Base.Tests.{ltb, leb, ◌==◌, if◌then◌else◌, Bool-cases}
use mathlib.Core.Bool.{◌&&◌}
use Prim.Native.Nat.{ℕ, zero, suc, ◌+◌, ◌≤◌, ◌<◌}
use mathlib.Core.Path.{◌≡◌, ◌∙◌}
use mathlib.Core.Logic.{inl, inr}
use native.Mathlib.Omega.{arith}

module _ {ℓ} {S : Type ℓ} where
  unfoldable pub for_range : ℕ → ℕ → (ℕ → S → S) → S → S
  for_range zero from body s = s
  for_range (suc rounds) from body s = for_range rounds (from + 1) body (body from s)

  -- What each round keeps, the loop keeps.
  pub for_range_inv {κ} :
      (P : S → Type κ) (body : ℕ → S → S)
      → ((i : ℕ) (s : S) → P s → P (body i s))
      → (rounds from : ℕ) (s : S) → P s
      → P (for_range rounds from body s)
  unfolding for_range
  for_range_inv P body keep zero from s h = h
  for_range_inv P body keep (suc rounds) from s h =
      for_range_inv P body keep rounds (from + 1) (body from s) (keep from s h)

  -- A loop whose round `i` changes the `i`-th part of the state alone, by `change`, has at the end
  -- changed every part of its range once.
  pub for_range_view {κ} :
      {V : Type κ} (view : ℕ → S → V) (change : ℕ → V → V) (body : ℕ → S → S) (bound : ℕ)
      → ((i j : ℕ) (s : S)
          → i < bound
          → j < bound
          → view j (body i s) ≡ (if i == j then change j (view j s) else view j s))
      → (rounds from : ℕ) (s : S) (j : ℕ) → from + rounds ≤ bound
      → j < bound
      → view j (for_range rounds from body s)
        ≡ (if leb from j && ltb j (from + rounds) then change j (view j s) else view j s)
  unfolding for_range
  for_range_view view change body bound at_round zero from s j hb hj =
      elim (Bool-cases (leb from j && ltb j (from + 0))) [
        | inl e ↦ absurd (ground arith)
        | inr e ↦ rw e
      ]
  for_range_view view change body bound at_round (suc rounds) from s j hb hj =
      for_range_view view change body bound at_round rounds (from + 1) (body from s) j (omega arith)
        hj
      ∙ ground (arith, at_round from j s)
