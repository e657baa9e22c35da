-- ===== src/Base/Lists.antt =====
-- Lists measured and indexed by native numbers, under the library's names.
use tsanalyzer.Base.Tests.{◌==◌, if◌then◌else◌}
use Prim.Native.Nat.{ℕ, zero, suc, ◌+◌, ◌-◌, ◌<◌, min}
use mathlib.Core.Path.{◌≡◌, refl, ap, sym, ◌∙◌, subst}
use mathlib.Core.Logic.{◌≢◌}
use mathlib.Core.List.{List, [], ◌∷◌, ◌++◌, map}
use mathlib.Core.Option.{Option, none, some}
use mathlib.Core.Option
use mathlib.Core.Bool.{Bool, true, false}
use native.Mathlib.Omega.{arith}

module _ {ℓ} {A : Type ℓ} where
  abbrev pub length : List A → ℕ
  length [] = 0
  length (x ∷ xs) = suc (length xs)

  abbrev pub get_elem? : List A → ℕ → Option A
  get_elem? [] i = none
  get_elem? (x ∷ xs) zero = some x
  get_elem? (x ∷ xs) (suc i) = get_elem? xs i

  -- A write out of bounds changes nothing.
  abbrev pub set : List A → ℕ → A → List A
  set [] i v = []
  set (x ∷ xs) zero v = v ∷ xs
  set (x ∷ xs) (suc i) v = x ∷ set xs i v

  pub length-append : (xs ys : List A) → length (xs ++ ys) ≡ length xs + length ys
  length-append [] ys = omega arith
  length-append (x ∷ xs) ys = omega (arith, length-append xs ys)

module _ {ℓ} {A : Type ℓ} where
  pub length-set : (xs : List A) (i : ℕ) (v : A) → length (set xs i v) ≡ length xs
  length-set [] i v = refl
  length-set (x ∷ xs) zero v = refl
  length-set (x ∷ xs) (suc i) v = ap suc (length-set xs i v)

  pub get_elem?-set_self :
      (xs : List A) (i : ℕ) (v : A) → i < length xs → get_elem? (set xs i v) i ≡ some v
  get_elem?-set_self [] i v h = elim h [ ]
  get_elem?-set_self (x ∷ xs) zero v h = refl
  get_elem?-set_self (x ∷ xs) (suc i) v h = get_elem?-set_self xs i v (omega arith)

  pub get_elem?-set_ne :
      (xs : List A) {i j : ℕ} (v : A) → i ≢ j → get_elem? (set xs i v) j ≡ get_elem? xs j
  get_elem?-set_ne [] v h = refl
  get_elem?-set_ne (x ∷ xs) {i = zero} {j = zero} v h = absurd (h refl)
  get_elem?-set_ne (x ∷ xs) {i = zero} {j = suc j} v h = refl
  get_elem?-set_ne (x ∷ xs) {i = suc i} {j = zero} v h = refl
  get_elem?-set_ne (x ∷ xs) {i = suc i} {j = suc j} v h = get_elem?-set_ne xs v (λ e. h (ap suc e))

module _ {ℓ} {A : Type ℓ} where
  abbrev pub get_or : List A → ℕ → A → A
  get_or [] i d = d
  get_or (x ∷ xs) zero d = x
  get_or (x ∷ xs) (suc i) d = get_or xs i d

  abbrev pub take : ℕ → List A → List A
  take zero xs = []
  take (suc n) [] = []
  take (suc n) (x ∷ xs) = x ∷ take n xs

  abbrev pub drop : ℕ → List A → List A
  drop zero xs = xs
  drop (suc n) [] = []
  drop (suc n) (x ∷ xs) = drop n xs

  abbrev pub replicate : ℕ → A → List A
  replicate zero a = []
  replicate (suc n) a = a ∷ replicate n a

  pub take-append-drop : (n : ℕ) (xs : List A) → take n xs ++ drop n xs ≡ xs
  take-append-drop zero xs = refl
  take-append-drop (suc n) [] = refl
  take-append-drop (suc n) (x ∷ xs) = rw (take-append-drop n xs)

  pub length-take : (n : ℕ) (xs : List A) → length (take n xs) ≡ min n (length xs)
  length-take zero xs = omega arith
  length-take (suc n) [] = omega arith
  length-take (suc n) (x ∷ xs) = omega (arith, length-take n xs)

  pub length-drop : (n : ℕ) (xs : List A) → length (drop n xs) ≡ length xs - n
  length-drop zero xs = omega arith
  length-drop (suc n) [] = omega arith
  length-drop (suc n) (x ∷ xs) = omega (arith, length-drop n xs)

  pub length-replicate : (n : ℕ) (a : A) → length (replicate n a) ≡ n
  length-replicate zero a = refl
  length-replicate (suc n) a = ap suc (length-replicate n a)

  pub length-map {κ} : {B : Type κ} (xs : List A) (f : A → B) → length (map f xs) ≡ length xs
  length-map [] f = refl
  length-map (x ∷ xs) f = ap suc (length-map xs f)

  pub take-append : (xs ys : List A) → take (length xs) (xs ++ ys) ≡ xs
  take-append [] ys = refl
  take-append (x ∷ xs) ys = ap (λ l. x ∷ l) (take-append xs ys)

  pub drop-append : (xs ys : List A) → drop (length xs) (xs ++ ys) ≡ ys
  drop-append [] ys = refl
  drop-append (x ∷ xs) ys = drop-append xs ys

  pub get_or-drop : (xs : List A) (n i : ℕ) (d : A) → get_or (drop n xs) i d ≡ get_or xs (n + i) d
  get_or-drop xs zero i d = ap (λ k. get_or xs k d) (omega arith)
  get_or-drop [] (suc n) i d = refl
  get_or-drop (x ∷ xs) (suc n) i d =
      let e : suc n + i ≡ suc (n + i) = omega arith in
      get_or-drop xs n i d ∙ ap (λ k. get_or (x ∷ xs) k d) (sym e)

-- `n` cells of memory from an address on.
module _ {ℓ} {A : Type ℓ} where
  unfoldable pub cells : (ℕ → A) → ℕ → ℕ → List A
  cells p from zero = []
  cells p from (suc n) = p from ∷ cells p (from + 1) n

  pub length-cells : (p : ℕ → A) (from n : ℕ) → length (cells p from n) ≡ n
  unfolding cells
  length-cells p from zero = refl
  length-cells p from (suc n) = ap suc (length-cells p (from + 1) n)

module _ {ℓ} {A : Type ℓ} where
  pub get_elem?-push :
      (xs : List A) (x : A) (i : ℕ)
      → get_elem? (xs ++ (x ∷ [])) i ≡ (if i == length xs then some x else get_elem? xs i)
  get_elem?-push [] x zero = refl
  get_elem?-push [] x (suc i) = ground arith
  get_elem?-push (y ∷ xs) x zero = ground arith
  get_elem?-push (y ∷ xs) x (suc i) = get_elem?-push xs x i ∙ ground arith

  pub lt_length : (xs : List A) (i : ℕ) (x : A) → get_elem? xs i ≡ some x → i < length xs
  lt_length [] i x e = cc
  lt_length (y ∷ xs) zero x e = omega arith
  lt_length (y ∷ xs) (suc i) x e = omega (arith, lt_length xs i x e)

-- The memory holds those bytes from an address on.
abbrev pub HasBytes : (ℕ → ℕ) → ℕ → List ℕ → Type 0
HasBytes p at [] = Unit
HasBytes p at (b ∷ bs) = (p at ≡ b) × HasBytes p (at + 1) bs

pub HasBytes-tail :
    (p : ℕ → ℕ) (at : ℕ) (xs ys : List ℕ)
    → HasBytes p at (xs ++ ys)
    → HasBytes p (at + length xs) ys
HasBytes-tail p at [] ys h = subst (λ a. HasBytes p a ys) (omega arith) h
HasBytes-tail p at (x ∷ xs) ys h = rw (next at (length xs)) (HasBytes-tail p (at + 1) xs ys h.1)
  where
    next : (a n : ℕ) → a + suc n ≡ a + 1 + n
    next a n = omega arith

pub HasBytes-head :
    (p : ℕ → ℕ) (at : ℕ) (xs ys : List ℕ) → HasBytes p at (xs ++ ys) → HasBytes p at xs
HasBytes-head p at [] ys h = tt
HasBytes-head p at (x ∷ xs) ys h = (h.0, HasBytes-head p (at + 1) xs ys h.1)

-- `n` cells of such a memory are the bytes.
pub cells-HasBytes :
    (p : ℕ → ℕ) (at : ℕ) (bs : List ℕ) → HasBytes p at bs → cells p at (length bs) ≡ bs
unfolding cells
cells-HasBytes p at [] h = refl
cells-HasBytes p at (b ∷ bs) h = rw (h.0, cells-HasBytes p (at + 1) bs h.1) refl

-- The place of the first element that passes a test.
module _ {ℓ} {A : Type ℓ} where
  unfoldable pub find_index : (A → Bool) → List A → Option ℕ
  find_index test [] = none
  find_index test (x ∷ xs) = if test x then some 0 else Option.map suc (find_index test xs)

  pub find_index_lt :
      (test : A → Bool) (xs : List A) (i : ℕ) → find_index test xs ≡ some i → i < length xs
  unfolding find_index
  find_index_lt test [] i e = cc
  find_index_lt test (x ∷ xs) i e = go (test x) (find_index test xs) (find_index_lt test xs) e
    where
      go :
          (t : Bool) (o : Option ℕ)
          → ((j : ℕ) → o ≡ some j → j < length xs)
          → (if t then some 0 else Option.map suc o) ≡ some i
          → i < length (x ∷ xs)
      go true o h e = ground arith
      go false none h e = cc
      go false (some j) h e = ground (arith, h j refl)
