-- ===== src/BoundedQueue.antt =====
-- The specification that the ring buffers implement: a first-in first-out queue of bounded length.
use tsanalyzer.Base.{ℕ, List, [], ◌∷◌, ◌++◌, Option, none, some, Bool, true, false}
use tsanalyzer.Base.{length, ltb, if◌then◌else◌}

module _ {ℓ} {A : Type ℓ} where
  -- Refuses the element when the queue holds `cap` elements.
  unfoldable pub put : ℕ → List A → A → Bool × List A
  put bound q x = if ltb (length q) bound then (true, q ++ (x ∷ [])) else (false, q)

  unfoldable pub get : List A → Option A × List A
  get [] = (none, [])
  get (x ∷ q) = (some x, q)
