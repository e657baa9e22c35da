-- ===== src/Base/Window.antt =====
-- Circular buffers. A run of `n` elements starts at a counter `h` of any size: its k-th element
-- stands at index `(h + k) % size`, so head indices and free-running counters share one theory.
use tsanalyzer.Base.Lists.{length, get_or, set, length-set, take, drop, length-append, length-drop}
use tsanalyzer.Base.Lists.{take-append, drop-append, length-take, take-append-drop}
use Prim.Native.Nat.{ℕ, zero, suc, ◌+◌, ◌-◌, ◌%◌, ◌≤◌, ◌<◌}
use mathlib.Core.Path.{◌≡◌, refl, sym, ◌∙◌, ap, ap₂}
use mathlib.Core.Logic.{◌≢◌, ◌⊎◌, inl, inr}
use mathlib.Core.List.{List, [], ◌∷◌, ◌++◌, append-nil, append_assoc}
use native.Mathlib.Nat.{
  mod-add-mod, mod-eq_of_lt, mod-eq-sub-mod, mod-lt, mod_self, zero-mod, add-zero, add_assoc,
}
use native.Mathlib.Decide.{dec_lt}
use native.Mathlib.Omega.{arith}

-- Below twice the size, going round subtracts the size at most once.
pub mod_cases :
    (x size : ℕ)
    → x < size + size
    → ((x < size) × (x % size ≡ x)) ⊎ ((size ≤ x) × (x % size ≡ x - size))
mod_cases x size h = elim (dec_lt x size) [
  | yes p ↦ inl (p, mod-eq_of_lt p)
  | no p ↦ inr (
    omega arith,
    mod-eq-sub-mod {n = x} {m = size} (omega arith)
        ∙ mod-eq_of_lt {n = x - size} {m = size} (omega arith),
  )
]

-- Two places less than the size apart are different slots.
slots_lt : (h k n size : ℕ) → h < size → k < n → n < size → (h + k) % size ≢ (h + n) % size
slots_lt h k n size hh hk hn e =
    omega (arith, mod_cases (h + k) size (omega arith), mod_cases (h + n) size (omega arith))

pub slots_ne : (h k n size : ℕ) → k < n → n < size → (h + k) % size ≢ (h + n) % size
slots_ne h k n size hk hn e =
    slots_lt (h % size) k n size (mod-lt h (omega arith)) hk hn (rw (mod-add-mod, mod-add-mod) e)

module _ {ℓ} {A : Type ℓ} where
  pub get_or_of_set : (xs : List A) (i : ℕ) (v d : A) → i < length xs → get_or (set xs i v) i d ≡ v
  get_or_of_set [] i v d h = elim h [ ]
  get_or_of_set (_ ∷ _) zero v d h = refl
  get_or_of_set (_ ∷ ys) (suc i) v d h = get_or_of_set ys i v d (omega arith)

  pub get_or_of_set_ne :
      (xs : List A) (i j : ℕ) (v d : A) → i ≢ j → get_or (set xs i v) j d ≡ get_or xs j d
  get_or_of_set_ne [] i j v d h = refl
  get_or_of_set_ne (_ ∷ _) zero zero v d h = absurd (h refl)
  get_or_of_set_ne (_ ∷ _) zero (suc j) v d h = refl
  get_or_of_set_ne (_ ∷ _) (suc i) zero v d h = refl
  get_or_of_set_ne (_ ∷ ys) (suc i) (suc j) v d h = get_or_of_set_ne ys i j v d (λ e. h (ap suc e))

  -- `memcpy(buf + i, xs, len)`: one write after the other, without going round.
  unfoldable pub write_at : List A → ℕ → List A → List A
  write_at buf i [] = buf
  write_at buf i (x ∷ xs) = write_at (set buf i x) (i + 1) xs

  pub length-write_at :
      (buf : List A) (i : ℕ) (xs : List A) → length (write_at buf i xs) ≡ length buf
  unfolding write_at
  length-write_at buf i [] = refl
  length-write_at buf i (x ∷ xs) = length-write_at (set buf i x) (i + 1) xs ∙ length-set buf i x

module _ {ℓ} {A : Type ℓ} (d : A) where
  -- `memcpy(out, buf + i, n)`.
  unfoldable pub read_at : List A → ℕ → ℕ → List A
  read_at buf i zero = []
  read_at buf i (suc n) = get_or buf i d ∷ read_at buf (i + 1) n

  -- The `n` elements from counter `h` on, the oldest first.
  unfoldable pub window : List A → ℕ → ℕ → ℕ → List A
  window buf size h zero = []
  window buf size h (suc n) = window buf size h n ++ (get_or buf ((h + n) % size) d ∷ [])

  pub length-window : (buf : List A) (size h n : ℕ) → length (window buf size h n) ≡ n
  unfolding window
  length-window buf size h zero = refl
  length-window buf size h (suc n) = omega (
    arith,
    length-append (window buf size h n) (get_or buf ((h + n) % size) d ∷ []),
    length-window buf size h n,
  )

  -- A counter and its index name the same window.
  pub window-mod :
      (buf : List A) (size h n : ℕ) → window buf size (h % size) n ≡ window buf size h n
  unfolding window
  window-mod buf size h zero = refl
  window-mod buf size h (suc n) = rw (window-mod buf size h n, mod-add-mod)

  -- A window is its first elements and the window that follows them.
  pub window-add :
      (buf : List A) (size h n m : ℕ)
      → window buf size h (n + m) ≡ window buf size h n ++ window buf size (h + n) m
  unfolding window
  window-add buf size h n zero = rw (add-zero, append-nil)
  window-add buf size h n (suc m) =
      let e : n + suc m ≡ suc (n + m) = omega arith in
      rw (e, window-add buf size h n m, append_assoc, add_assoc)

  -- The oldest element comes first.
  pub window-suc :
      (buf : List A) (size h n : ℕ)
      → window buf size h (suc n) ≡ get_or buf (h % size) d ∷ window buf size (h + 1) n
  unfolding window
  window-suc buf size h n =
      let e : suc n ≡ 1 + n = omega arith in
      let z : h + 0 ≡ h = omega arith in
      ap (window buf size h) e
      ∙ window-add buf size h 1 n
      ∙ ap (λ k. get_or buf (k % size) d ∷ window buf size (h + 1) n) z

  -- A write to another slot is not seen.
  pub window-set_ne :
      (buf : List A) (size h n i : ℕ) (x : A)
      → ((k : ℕ) → k < n → i ≢ (h + k) % size)
      → window (set buf i x) size h n ≡ window buf size h n
  unfolding window
  window-set_ne buf size h zero i x ne = refl
  window-set_ne buf size h (suc n) i x ne =
      ap₂ (λ w (v : A). w ++ (v ∷ [])) (window-set_ne buf size h n i x (λ k hk. ne k (omega arith)))
        (get_or_of_set_ne buf i ((h + n) % size) x d (ne n (omega arith)))

  -- Writing just past a window extends it by the element written.
  pub window-push :
      (buf : List A) (size h n : ℕ) (x : A)
      → size ≤ length buf
      → n < size
      → window (set buf ((h + n) % size) x) size h (suc n) ≡ window buf size h n ++ (x ∷ [])
  unfolding window
  window-push buf size h n x hs hn =
      ap₂ (λ w (v : A). w ++ (v ∷ []))
        (window-set_ne buf size h n ((h + n) % size) x
          (λ k hk e. slots_ne h k n size hk hn (sym e)))
        (get_or_of_set buf ((h + n) % size) x d
          (omega (arith, mod-lt (h + n) {m = size} (omega arith))))

  -- Write `xs` one by one from counter `t` on, going round at `size`.
  pub put_round : List A → ℕ → ℕ → List A → List A
  put_round buf size t [] = buf
  put_round buf size t (x ∷ xs) = put_round (set buf (t % size) x) size (t + 1) xs

  pub length-put_round :
      (buf : List A) (size t : ℕ) (xs : List A) → length (put_round buf size t xs) ≡ length buf
  unfolding put_round
  length-put_round buf size t [] = refl
  length-put_round buf size t (x ∷ xs) =
      length-put_round (set buf (t % size) x) size (t + 1) xs ∙ length-set buf (t % size) x

  -- Writing a run of elements just past a window extends it by that run.
  pub window-put_round :
      (buf : List A) (size h n : ℕ) (xs : List A)
      → size ≤ length buf
      → n + length xs ≤ size
      → window (put_round buf size (h + n) xs) size h (n + length xs) ≡ window buf size h n ++ xs
  unfolding put_round
  window-put_round buf size h n [] hs hn = rw (add-zero, append-nil)
  window-put_round buf size h n (x ∷ xs) hs hn =
      let i : ℕ = (h + n) % size in
      let a : n + suc (length xs) ≡ suc n + length xs = omega arith in
      let b : h + n + 1 ≡ h + suc n = omega arith in
      let l : length (set buf i x) ≡ length buf = length-set buf i x in
      rw (a, b)
        (window-put_round (set buf i x) size h (suc n) xs (omega arith) (omega arith)
          ∙ ap (λ w. w ++ xs) (window-push buf size h n x hs (omega arith))
          ∙ append_assoc (window buf size h n) (x ∷ []) xs)

  -- Only the index of the counter matters.
  pub put_round_of_slot :
      (buf : List A) (size t u : ℕ) (xs : List A)
      → t % size ≡ u % size
      → put_round buf size t xs ≡ put_round buf size u xs
  unfolding put_round
  put_round_of_slot buf size t u [] e = refl
  put_round_of_slot buf size t u (x ∷ xs) e =
      let next : (t + 1) % size ≡ (u + 1) % size =
        sym (mod-add-mod t size 1) ∙ ap (λ k. (k + 1) % size) e ∙ mod-add-mod u size 1 in
      ap (λ k. put_round (set buf k x) size (t + 1) xs) e
      ∙ put_round_of_slot (set buf (u % size) x) size (t + 1) (u + 1) xs next

  put_round-append :
      (buf : List A) (size t : ℕ) (xs ys : List A)
      → put_round buf size t (xs ++ ys)
        ≡ put_round (put_round buf size t xs) size (t + length xs) ys
  unfolding put_round
  put_round-append buf size t [] ys = rw add-zero
  put_round-append buf size t (x ∷ xs) ys =
      let e : t + suc (length xs) ≡ t + 1 + length xs = omega arith in
      rw e (put_round-append (set buf (t % size) x) size (t + 1) xs ys)

  -- A copy that stays below the end of the buffer does not go round.
  pub write_at-eq-put_round :
      (buf : List A) (size i : ℕ) (xs : List A)
      → i + length xs ≤ size
      → write_at buf i xs ≡ put_round buf size i xs
  unfolding write_at put_round
  write_at-eq-put_round buf size i [] h = refl
  write_at-eq-put_round buf size i (x ∷ xs) h =
      rw (mod-eq_of_lt {n = i} {m = size} (omega arith))
        (write_at-eq-put_round (set buf i x) size (i + 1) xs (omega arith))

  -- Two copies, one to the end of the buffer and one from its start, go round once.
  pub write_at-wrap :
      (buf : List A) (size t : ℕ) (xs : List A)
      → t < size
      → size - t ≤ length xs
      → length xs ≤ size
      → write_at (write_at buf t (take (size - t) xs)) 0 (drop (size - t) xs)
        ≡ put_round buf size t xs
  write_at-wrap buf size t xs ht hl hs =
      let k : ℕ = size - t in
      let a : length (take k xs) ≡ k = omega (arith, length-take k xs) in
      let full : size ≡ t + length (take k xs) = omega arith in
      let turn : 0 % size ≡ (t + length (take k xs)) % size =
        zero-mod size ∙ sym (mod_self size) ∙ ap (λ m. m % size) full in
      ap (λ b. write_at b 0 (drop k xs))
        (write_at-eq-put_round buf size t (take k xs) (omega arith))
      ∙ write_at-eq-put_round (put_round buf size t (take k xs)) size 0 (drop k xs)
          (omega (arith, length-drop k xs))
      ∙ put_round_of_slot (put_round buf size t (take k xs)) size 0 (t + length (take k xs))
          (drop k xs) turn
      ∙ sym (put_round-append buf size t (take k xs) (drop k xs))
      ∙ ap (put_round buf size t) (take-append-drop k xs)

  pub read_at-eq-window :
      (buf : List A) (size i n : ℕ) → i + n ≤ size → read_at buf i n ≡ window buf size i n
  unfolding read_at window
  read_at-eq-window buf size i zero h = refl
  read_at-eq-window buf size i (suc n) h =
      rw (window-suc buf size i n, mod-eq_of_lt {n = i} {m = size} (omega arith))
        (ap (λ w. get_or buf i d ∷ w) (read_at-eq-window buf size (i + 1) n (omega arith)))

  -- Two copies out, one up to the end of the buffer and one from its start.
  pub read_at-wrap :
      (buf : List A) (size h n : ℕ)
      → h < size
      → size - h ≤ n
      → n ≤ size
      → read_at buf h (size - h) ++ read_at buf 0 (n - (size - h)) ≡ window buf size h n
  read_at-wrap buf size h n hh hl hs =
      let k : ℕ = size - h in
      let e : h + k ≡ size = omega arith in
      let turn : window buf size 0 (n - k) ≡ window buf size (h + k) (n - k) =
        ap (λ m. window buf size m (n - k)) (sym (ap (λ m. m % size) e ∙ mod_self size))
        ∙ window-mod buf size (h + k) (n - k) in
      ap₂ ◌++◌ (read_at-eq-window buf size h k (omega arith))
        (read_at-eq-window buf size 0 (n - k) (omega arith) ∙ turn)
      ∙ sym (window-add buf size h k (n - k))
      ∙ ap (window buf size h) (omega arith)

  pub take-window :
      (buf : List A) (size h n k : ℕ) → k ≤ n → take k (window buf size h n) ≡ window buf size h k
  take-window buf size h n k hk =
      let e : n ≡ k + (n - k) = omega arith in
      let w : List A = window buf size h k in
      ap (λ m. take k (window buf size h m)) e
      ∙ ap (take k) (window-add buf size h k (n - k))
      ∙ ap (λ m. take m (w ++ window buf size (h + k) (n - k))) (sym (length-window buf size h k))
      ∙ take-append w (window buf size (h + k) (n - k))

  pub drop-window :
      (buf : List A) (size h n k : ℕ)
      → k ≤ n
      → drop k (window buf size h n) ≡ window buf size (h + k) (n - k)
  drop-window buf size h n k hk =
      let e : n ≡ k + (n - k) = omega arith in
      let w : List A = window buf size h k in
      ap (λ m. drop k (window buf size h m)) e
      ∙ ap (drop k) (window-add buf size h k (n - k))
      ∙ ap (λ m. drop m (w ++ window buf size (h + k) (n - k))) (sym (length-window buf size h k))
      ∙ drop-append w (window buf size (h + k) (n - k))
