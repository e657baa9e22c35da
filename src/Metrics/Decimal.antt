-- ===== src/Metrics/Decimal.antt =====
-- src/tsa_utils.c, `tsa_fast_itoa`: the digits are found from the last to the first, turned round in
-- place, and read back as the number.
use tsanalyzer.Base.{
  ℕ, zero, suc, ◌+◌, ◌-◌, ◌*◌, ◌/◌, ◌%◌, ◌^◌, ◌≤◌, ◌<◌, ◌≡◌, refl, sym, ap, ◌∙◌, subst, ℕ_discrete,
}
use tsanalyzer.Base.{List, [], ◌∷◌, ◌++◌, arith, length, get_or, set, ltb}
use tsanalyzer.Base.{if◌then◌else◌, Bool-cases, inl, inr, length-set, length-append, ◌==◌, ◌||◌}
use mathlib.Core.List.{reverse, reverse-cons, reverse-append, append-nil}
use tsanalyzer.Base.Int.{ℤ, pos, negsuc, pos_part, neg_part}
use tsanalyzer.Base.Loops.{for_range}
use tsanalyzer.Base.Window.{get_or_of_set, get_or_of_set_ne}
use tsanalyzer.Metrics.{digits, swap, turn, magnitude, fast_itoa}

-- Reading a text of digits, behind the number read so far.
unfoldable pub read : ℕ → List ℕ → ℕ
read n [] = n
read n (c ∷ s) = read (n * 10 + (c - 48)) s

-- Reading a text with an optional sign.
unfoldable pub read_int : List ℕ → ℤ
read_int [] = pos 0
read_int (c ∷ s) =
    let n = read 0 s in
    if c == 45 then (if n == 0 then pos 0 else negsuc (n - 1)) else pos (read 0 (c ∷ s))

length-reverse : (xs : List ℕ) → length (reverse xs) ≡ length xs
length-reverse [] = refl
length-reverse (x ∷ xs) =
    ap length (reverse-cons x xs)
    ∙ omega (arith, length-append (reverse xs) (x ∷ []), length-reverse xs)

get_or-append_left :
    (xs ys : List ℕ) (k : ℕ) → k < length xs → get_or (xs ++ ys) k 0 ≡ get_or xs k 0
get_or-append_left [] ys k h = elim h [ ]
get_or-append_left (x ∷ xs) ys zero h = refl
get_or-append_left (x ∷ xs) ys (suc k) h = get_or-append_left xs ys k (omega arith)

get_or-append_end : (xs : List ℕ) (y : ℕ) → get_or (xs ++ (y ∷ [])) (length xs) 0 ≡ y
get_or-append_end [] y = refl
get_or-append_end (x ∷ xs) y = get_or-append_end xs y

get_or-reverse :
    (xs : List ℕ) (k : ℕ)
    → k < length xs
    → get_or (reverse xs) k 0 ≡ get_or xs (length xs - 1 - k) 0
get_or-reverse [] k h = elim h [ ]
get_or-reverse (x ∷ xs) k h = elim (Bool-cases (ltb k (length xs))) [
  | inl e ↦
      let low : k < length xs = ground arith in
      let i : suc (length xs) - 1 - k ≡ suc (length xs - 1 - k) = omega arith in
      ap (λ l. get_or l k 0) (reverse-cons x xs)
      ∙ get_or-append_left (reverse xs) (x ∷ []) k (omega (arith, length-reverse xs))
      ∙ get_or-reverse xs k low
      ∙ ap (λ j. get_or (x ∷ xs) j 0) (sym i)
  | inr e ↦
      let last : k ≡ length (reverse xs) = ground (arith, length-reverse xs) in
      let first : suc (length xs) - 1 - k ≡ 0 = omega (arith, length-reverse xs) in
      ap (λ l. get_or l k 0) (reverse-cons x xs)
      ∙ ap (λ j. get_or (reverse xs ++ (x ∷ [])) j 0) last
      ∙ get_or-append_end (reverse xs) x
      ∙ ap (λ j. get_or (x ∷ xs) j 0) (sym first)
]

-- Lists of the same length with the same elements are the same.
same_elements :
    (xs ys : List ℕ)
    → length xs ≡ length ys
    → ((k : ℕ) → k < length xs → get_or xs k 0 ≡ get_or ys k 0)
    → xs ≡ ys
same_elements [] [] l h = refl
same_elements [] (y ∷ ys) l h = absurd (omega arith)
same_elements (x ∷ xs) [] l h = absurd (omega arith)
same_elements (x ∷ xs) (y ∷ ys) l h =
    rw (h 0 (omega arith), same_elements xs ys (omega arith) (λ k hk. h (suc k) (omega arith)))

get_or-set :
    (b : List ℕ) (i v j : ℕ)
    → i < length b
    → get_or (set b i v) j 0 ≡ (if j == i then v else get_or b j 0)
get_or-set b i v j h = elim (ℕ_discrete i j) [
  | yes e ↦
      subst (λ m. get_or (set b i v) m 0 ≡ (if m == i then v else get_or b m 0)) e
        (get_or_of_set b i v 0 h ∙ ground arith)
  | no ne ↦ get_or_of_set_ne b i j v 0 ne ∙ ground arith
]

-- Two cells change places, the others stay.
get_or-swap :
    (b : List ℕ) (j k i : ℕ)
    → j < length b
    → k < length b
    → get_or (swap b j k) i 0
      ≡ (if i == k then get_or b j 0 else if i == j then get_or b k 0 else get_or b i 0)
unfolding swap
get_or-swap b j k i hj hk =
    get_or-set (set b j (get_or b k 0)) k (get_or b j 0) i
      (omega (arith, length-set b j (get_or b k 0)))
    ∙ ap (λ c. if i == k then get_or b j 0 else c) (get_or-set b j (get_or b k 0) i hj)

length-swap : (b : List ℕ) (j k : ℕ) → length (swap b j k) ≡ length b
unfolding swap
length-swap b j k = length-set _ k _ ∙ length-set b j _

-- After the first `from` rounds, the outer `from` cells on either side are those of the other side.
HasTurned : List ℕ → ℕ → List ℕ → Type 0
HasTurned xs from b =
    (length b ≡ length xs)
    × ((k : ℕ)
        → k < length xs
        → get_or b k 0 ≡ (
            if ltb k from || ltb (length xs - 1 - k) from
            then get_or xs (length xs - 1 - k) 0
            else get_or xs k 0))

far_case :
    (xs : List ℕ) (from : ℕ)
    → from + from < length xs
    → (if ltb (length xs - 1 - from) from || ltb (length xs - 1 - (length xs - 1 - from)) from
        then get_or xs (length xs - 1 - (length xs - 1 - from)) 0
        else get_or xs (length xs - 1 - from) 0)
      ≡ get_or xs (length xs - 1 - from) 0
far_case xs from h = ground arith

HasTurned-swap :
    (xs b : List ℕ) (from : ℕ)
    → from < length xs / 2
    → HasTurned xs from b
    → HasTurned xs (from + 1) (swap b from (length xs - 1 - from))
unfolding HasTurned
HasTurned-swap xs b from h (l, same) =
    let n : ℕ = length xs in
    let far : ℕ = n - 1 - from in
    let near_in : get_or b from 0 ≡ get_or xs from 0 = same from (omega arith) ∙ ground arith in
    let far_in : get_or b far 0 ≡ get_or xs far 0 =
      same far (omega arith) ∙ far_case xs from (omega arith) in
    (
      length-swap b from far ∙ l,
      λ k hk. get_or-swap b from far k (omega arith) (omega arith) ∙ elim (ℕ_discrete k far) [
        | yes e ↦ let m : n - 1 - k ≡ from = omega arith in grind (arith, near_in, m, e)
        | no ne ↦
            let m : from ≡ k → n - 1 - k ≡ far = λ q. omega arith in
            grind (arith, far_in, same k, m, ne)
      ],
    )

HasTurned-loop :
    (xs b : List ℕ) (rounds from : ℕ)
    → from + rounds ≡ length xs / 2
    → HasTurned xs from b
    → HasTurned xs (length xs / 2) (for_range rounds from (λ j b. swap b j (length xs - 1 - j)) b)
unfolding for_range
HasTurned-loop xs b zero from h t = subst (λ n. HasTurned xs n b) (omega arith) t
HasTurned-loop xs b (suc rounds) from h t =
    HasTurned-loop xs (swap b from (length xs - 1 - from)) rounds (from + 1) (omega arith)
      (HasTurned-swap xs b from (omega arith) t)

middle :
    (xs : List ℕ) (k : ℕ)
    → k < length xs
    → (if ltb k (length xs / 2) || ltb (length xs - 1 - k) (length xs / 2)
        then get_or xs (length xs - 1 - k) 0
        else get_or xs k 0)
      ≡ get_or xs (length xs - 1 - k) 0
middle xs k h = elim (ℕ_discrete k (length xs - 1 - k)) [
  | yes e ↦
      ap
        (λ j.
          if ltb k (length xs / 2) || ltb (length xs - 1 - k) (length xs / 2)
          then get_or xs (length xs - 1 - k) 0
          else get_or xs j 0)
        e
      ∙ ground arith
  | no ne ↦ ground arith
]

-- The loop that exchanges the ends turns the text round.
pub turn-eq-reverse : (xs : List ℕ) → turn xs ≡ reverse xs
unfolding turn HasTurned
turn-eq-reverse xs =
    let n : ℕ = length xs in
    let start : HasTurned xs 0 xs = (refl, λ k hk. ground arith) in
    let (l, same) = HasTurned-loop xs xs (n / 2) 0 (omega arith) start in
    same_elements (turn xs) (reverse xs) (l ∙ sym (length-reverse xs)) (λ k hk.
      same k (omega arith) ∙ middle xs k (omega arith) ∙ sym (get_or-reverse xs k (omega arith)))

read-append : (n : ℕ) (s : List ℕ) (c : ℕ) → read n (s ++ (c ∷ [])) ≡ read n s * 10 + (c - 48)
unfolding read
read-append n [] c = refl
read-append n (d ∷ s) c = read-append (n * 10 + (d - 48)) s c

-- 10^n, by clauses.
power : ℕ → ℕ
power zero = 1
power (suc n) = 10 * power n

-- A positive number has a last digit.
digits-suc : (fuel v : ℕ) → 0 < v → digits (suc fuel) v ≡ (v % 10 + 48) ∷ digits fuel (v / 10)
unfolding digits
digits-suc fuel v h = ground arith

read-digits : (fuel v : ℕ) → v < power fuel → read 0 (reverse (digits fuel v)) ≡ v
unfolding power digits read
read-digits zero v h = omega arith
read-digits (suc fuel) zero h = refl
read-digits (suc fuel) (suc v) h =
    let rest : List ℕ = digits fuel (suc v / 10) in
    ap (λ s. read 0 (reverse s)) (digits-suc fuel (suc v) (omega arith))
    ∙ ap (read 0) (reverse-cons (suc v % 10 + 48) rest)
    ∙ read-append 0 (reverse rest) (suc v % 10 + 48)
    ∙ omega (arith, read-digits fuel (suc v / 10) (omega arith))

length-digits : (fuel v : ℕ) → length (digits fuel v) ≤ fuel
unfolding digits
length-digits zero v = omega arith
length-digits (suc fuel) v = ground (arith, length-digits fuel (v / 10))

digit_code : (fuel v k : ℕ) → k < length (digits fuel v) → 48 ≤ get_or (digits fuel v) k 0
unfolding digits
digit_code zero v k h = elim h [ ]
digit_code (suc fuel) zero k h = elim h [ ]
digit_code (suc fuel) (suc v) k h =
    at k (digit_code fuel (suc v / 10)) (subst (λ s. k < length s) e h)
  where
    e : digits (suc fuel) (suc v) ≡ (suc v % 10 + 48) ∷ digits fuel (suc v / 10)
    e = digits-suc fuel (suc v) (omega arith)

    at :
        (j : ℕ)
        → ((i : ℕ)
            → i < length (digits fuel (suc v / 10))
            → 48 ≤ get_or (digits fuel (suc v / 10)) i 0)
        → j < suc (length (digits fuel (suc v / 10)))
        → 48 ≤ get_or (digits (suc fuel) (suc v)) j 0
    at zero rest hj = subst (λ s. 48 ≤ get_or s 0 0) (sym e) (omega arith)
    at (suc j) rest hj = subst (λ s. 48 ≤ get_or s (suc j) 0) (sym e) (rest j (omega arith))

-- A text that does not start with a sign is read as a natural number.
read_int-digit : (s : List ℕ) → 48 ≤ get_or s 0 0 → read_int s ≡ pos (read 0 s)
unfolding read_int
read_int-digit [] h = elim h [ ]
read_int-digit (c ∷ s) h = ground arith

-- The digits of a positive word, the first first, start with a digit.
first_digit : (v : ℕ) → 0 < v → 48 ≤ get_or (reverse (digits 20 v)) 0 0
first_digit v h =
    let some_digit : 0 < length (digits 20 v) =
      subst (λ s. 0 < length s) (sym (digits-suc 19 v h)) (omega arith) in
    subst (λ c. 48 ≤ c) (sym (get_or-reverse (digits 20 v) 0 some_digit))
      (digit_code 20 v (length (digits 20 v) - 1 - 0) (omega arith))

read_natural : (v : ℕ) → 0 < v → v ≤ 2 ^ 63 → read_int (turn (digits 20 v)) ≡ pos v
unfolding power
read_natural v h w =
    ap read_int (turn-eq-reverse (digits 20 v))
    ∙ read_int-digit (reverse (digits 20 v)) (first_digit v h)
    ∙ ap pos (read-digits 20 v (omega arith))

read_negative :
    (n : ℕ) → suc n ≤ 2 ^ 63 → read_int (turn (digits 20 (suc n) ++ (45 ∷ []))) ≡ negsuc n
unfolding power read_int
read_negative n w =
    ap read_int
      (turn-eq-reverse (digits 20 (suc n) ++ (45 ∷ [])) ∙ reverse-append (digits 20 (suc n)) _)
    ∙ ap (λ k. if k == 0 then pos 0 else negsuc (k - 1)) (read-digits 20 (suc n) (omega arith))
    ∙ ground arith

length-turn : (s : List ℕ) → length (turn s) ≡ length s
length-turn s = ap length (turn-eq-reverse s) ∙ length-reverse s

-- `tsa_fast_itoa` prints every int64_t but the least one, which it cannot negate: the text is read
-- back as the value, and with its final zero it fits in the 32 bytes that the metrics give it.
pub read_int-fast_itoa :
    (val : ℤ)
    → pos_part val + neg_part val < 2 ^ 63
    → (read_int (fast_itoa val) ≡ val) × (length (fast_itoa val) + 1 ≤ 32)
unfolding fast_itoa read_int read
read_int-fast_itoa (pos zero) h = (refl, omega arith)
read_int-fast_itoa (pos (suc n)) h =
    let word : magnitude (pos (suc n)) ≡ suc n = omega arith in
    rw (word, append-nil)
      (
        read_natural (suc n) (omega arith) (omega arith),
        omega (arith, length-turn (digits 20 (suc n)), length-digits 20 (suc n)),
      )
read_int-fast_itoa (negsuc n) h =
    let word : magnitude (negsuc n) ≡ suc n = omega arith in
    rw word (
      read_negative n (omega arith),
      omega (
        arith,
        length-turn (digits 20 (suc n) ++ (45 ∷ [])),
        length-append (digits 20 (suc n)) (45 ∷ []),
        length-digits 20 (suc n),
      ),
    )
