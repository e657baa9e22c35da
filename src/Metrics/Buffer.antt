-- ===== src/Metrics/Buffer.antt =====
-- src/tsa_utils.c, `tsa_mbuf_*`: a metric buffer holds the start of all that was appended, with its
-- final zero, and writes nothing past its size.
use tsanalyzer.Base.{ℕ, zero, suc, ◌+◌, ◌-◌, ◌^◌, ◌≤◌, ◌<◌, ◌≡◌, refl, sym, ap, ◌∙◌, subst}
use tsanalyzer.Base.{List, [], ◌∷◌, ◌++◌, false, arith, length, get_or, set, take}
use tsanalyzer.Base.{ltb, leb, if◌then◌else◌, length-set, length-take, sub64}
use tsanalyzer.Base.{ltb-false, append-nil, sub64-eq-sub, lt→ltb, dec_lt}
use tsanalyzer.Base.Window.{
  get_or_of_set, get_or_of_set_ne, write_at, read_at, length-write_at, window, put_round,
  read_at-eq-window, write_at-eq-put_round, window-put_round, window-set_ne,
}
use native.Mathlib.Nat.{mod-eq_of_lt}
use tsanalyzer.Metrics.{MetricBuffer, mbuf_init, mbuf_append_str, mbuf_append_char}

-- The text, without its final zero.
abbrev pub text : MetricBuffer → List ℕ
text b = read_at 0 b.base 0 b.offset

-- The caller's memory has the size that it claims, and the text ends inside it.
pub record IsValid (b : MetricBuffer) : Type 0 where
  pub inside : b.offset < b.size
  pub storage : b.size ≤ length b.base
  pub terminated : get_or b.base b.offset 0 ≡ 0

take_all : (n : ℕ) (s : List ℕ) → length s ≤ n → take n s ≡ s
take_all zero [] h = refl
take_all zero (x ∷ s) h = absurd (omega arith)
take_all (suc n) [] h = refl
take_all (suc n) (x ∷ s) h = ap (λ r. x ∷ r) (take_all n s (omega arith))

take_past : (n : ℕ) (s t : List ℕ) → length s ≤ n → take n (s ++ t) ≡ s ++ take (n - length s) t
take_past n [] t h = ap (λ k. take k t) (omega arith)
take_past zero (x ∷ s) t h = absurd (omega arith)
take_past (suc n) (x ∷ s) t h =
    ap (λ r. x ∷ r) (take_past n s t (omega arith) ∙ ap (λ k. s ++ take k t) (omega arith))

-- Taking as much as was taken takes the same.
take-length-take : (n : ℕ) (s : List ℕ) → take (length (take n s)) s ≡ take n s
take-length-take zero s = refl
take-length-take (suc n) [] = refl
take-length-take (suc n) (x ∷ s) = ap (λ r. x ∷ r) (take-length-take n s)

get_or-write_at :
    (buf : List ℕ) (at : ℕ) (xs : List ℕ) (i : ℕ)
    → at + length xs ≤ i
    → get_or (write_at buf at xs) i 0 ≡ get_or buf i 0
unfolding write_at
get_or-write_at buf at [] i h = refl
get_or-write_at buf at (x ∷ xs) i h =
    get_or-write_at (set buf at x) (at + 1) xs i (omega arith)
    ∙ get_or_of_set_ne buf at i x 0 (λ e. omega arith)

-- What is written behind a text, with a zero after it, extends the text.
read_at-written :
    (buf : List ℕ) (n : ℕ) (xs : List ℕ)
    → n + length xs < length buf
    → read_at 0 (set (write_at buf n xs) (n + length xs) 0) 0 (n + length xs)
      ≡ read_at 0 buf 0 n ++ xs
read_at-written buf n xs h =
    let size : ℕ = length buf in
    let m : ℕ = n + length xs in
    read_at-eq-window 0 (set (write_at buf n xs) m 0) size 0 m (omega arith)
    ∙ window-set_ne 0 (write_at buf n xs) size 0 m m 0
        (λ k hk e. omega (arith, mod-eq_of_lt {n = k} {m = size} (omega arith)))
    ∙ ap (λ b. window 0 b size 0 m) (write_at-eq-put_round 0 buf size n xs (omega arith))
    ∙ ap (λ t. window 0 (put_round 0 buf size t xs) size 0 m) (start n)
    ∙ window-put_round 0 buf size 0 n xs (omega arith) (omega arith)
    ∙ ap (λ t. t ++ xs) (sym (read_at-eq-window 0 buf size 0 n (omega arith)))
  where
    start : (n : ℕ) → n ≡ 0 + n
    start n = omega arith

-- A buffer that is initialised with a size other than zero is valid and empty.
pub mbuf_init-IsValid :
    (buf : List ℕ) (sz : ℕ)
    → 0 < sz
    → sz ≤ length buf
    → IsValid (mbuf_init buf sz) × (text (mbuf_init buf sz) ≡ [])
unfolding mbuf_init read_at
mbuf_init-IsValid buf sz h l = rw (lt→ltb 0 sz h) (
  record {
    inside = h;
    storage = omega (arith, length-set buf 0 0);
    terminated = get_or_of_set buf 0 0 0 (omega arith);
  },
  refl,
)

-- The buffer after `cp` bytes of a text.
appended : MetricBuffer → List ℕ → MetricBuffer
appended b t = record b {
  base = set (write_at b.base b.offset t) (b.offset + length t) 0;
  offset = b.offset + length t;
}

-- What an append owes its caller, for the text that it was given and a cell past the buffer.
pub Appended : MetricBuffer → List ℕ → ℕ → MetricBuffer → Type 0
Appended b s i c =
    IsValid c
    × (c.size ≡ b.size)
    × (text c ≡ take (b.size - 1) (text b ++ s))
    × (get_or c.base i 0 ≡ get_or b.base i 0)

length-text : (b : MetricBuffer) → length (text b) ≡ b.offset
unfolding read_at
length-text b = length-read_at b.base 0 b.offset
  where
    length-read_at : (buf : List ℕ) (at n : ℕ) → length (read_at 0 buf at n) ≡ n
    length-read_at buf at zero = refl
    length-read_at buf at (suc n) = ap suc (length-read_at buf (at + 1) n)

appended-Appended :
    {b : MetricBuffer} (s t : List ℕ) (i : ℕ)
    → IsValid b
    → b.size ≤ i
    → b.offset + length t < b.size
    → t ≡ take (b.size - 1 - b.offset) s
    → Appended b s i (appended b t)
unfolding appended Appended
appended-Appended {b} s t i v hi ht e =
    let written : List ℕ = write_at b.base b.offset t in
    let l : length written ≡ length b.base = length-write_at b.base b.offset t in
    let past : take (b.size - 1) (text b ++ s) ≡ text b ++ take (b.size - 1 - length (text b)) s =
      take_past (b.size - 1) (text b) s (omega (arith, length-text b, v.inside)) in
    (
      record {
        inside = ht;
        storage = omega (arith, length-set written (b.offset + length t) 0, v.storage);
        terminated = get_or_of_set written (b.offset + length t) 0 0 (omega (arith, v.storage));
      },
      refl,
      read_at-written b.base b.offset t (omega (arith, v.storage))
          ∙ ap (λ r. text b ++ r) (e ∙ ap (λ k. take (b.size - 1 - k) s) (sym (length-text b)))
          ∙ sym past,
      get_or_of_set_ne written (b.offset + length t) i 0 0 (λ q. omega arith)
          ∙ get_or-write_at b.base b.offset t i (omega arith),
    )

append_room :
    (b : MetricBuffer) (s : List ℕ)
    → b.offset + 1 < b.size
    → mbuf_append_str b s ≡ appended b (take (b.size - 1 - b.offset) s)
unfolding mbuf_append_str appended
append_room b s h =
    let m : ℕ = b.size - 1 - b.offset in
    let rem_m : b.size - b.offset - 1 ≡ m = omega arith in
    let wide : leb (b.size - b.offset) 1 ≡ false = ground arith in
    let copied : (if ltb (length s) m then length s else m) ≡ length (take m s) =
      ground (arith, length-take m s) in
    let same : take (length (take m s)) s ≡ take m s = take-length-take m s in
    rw (lt→ltb b.offset b.size (omega arith), wide, rem_m, copied, same)

append_full : (b : MetricBuffer) (s : List ℕ) → b.size ≤ b.offset + 1 → mbuf_append_str b s ≡ b
unfolding mbuf_append_str
append_full b s h = ground arith

-- Appending to a valid buffer keeps it valid, makes its text the start of the old text and the new
-- one together, as long as its size allows with the final zero, and changes no cell from its size
-- on.
pub mbuf_append_str_lem :
    {b : MetricBuffer} (s : List ℕ) (i : ℕ)
    → IsValid b
    → b.size ≤ i
    → Appended b s i (mbuf_append_str b s)
unfolding mbuf_append_str appended Appended
mbuf_append_str_lem {b} s i v hi = elim (dec_lt (b.offset + 1) b.size) [
  | yes room ↦
      let copied : ℕ = length (take (b.size - 1 - b.offset) s) in
      subst (Appended b s i) (sym (append_room b s room)) (
        appended-Appended s (take (b.size - 1 - b.offset) s) i v hi
          (omega (arith, length-take (b.size - 1 - b.offset) s)) refl)
  | no full ↦
      let none_left : b.size - 1 - length (text b) ≡ 0 = omega (arith, length-text b, v.inside) in
      subst (Appended b s i) (sym (append_full b s (omega arith))) (
        v,
        refl,
        sym (
            take_past (b.size - 1) (text b) s (omega (arith, length-text b, v.inside))
            ∙ ap (λ k. text b ++ take k s) none_left
            ∙ append-nil (text b)),
        refl,
      )
]

-- On a valid buffer whose size is a word, `tsa_mbuf_append_char` does what `tsa_mbuf_append_str`
-- does with a text of that one character.
pub mbuf_append_char-eq-mbuf_append_str :
    {b : MetricBuffer} (c : ℕ)
    → IsValid b
    → b.size < 2 ^ 64
    → mbuf_append_char b c ≡ mbuf_append_str b (c ∷ [])
unfolding mbuf_append_char write_at appended
mbuf_append_char-eq-mbuf_append_str {b} c v small =
    let less : sub64 b.size 1 ≡ b.size - 1 =
      sub64-eq-sub b.size 1 (omega (arith, v.inside)) small in
    elim (dec_lt (b.offset + 1) b.size) [
      | yes room ↦
          let one : take (b.size - 1 - b.offset) (c ∷ []) ≡ c ∷ [] =
            take_all (b.size - 1 - b.offset) (c ∷ []) (omega arith) in
          rw (less, lt→ltb b.offset (b.size - 1) (omega arith), append_room b (c ∷ []) room, one)
            refl
      | no full ↦
          rw
            (
              less,
              ltb-false b.offset (b.size - 1) (omega arith),
              append_full b (c ∷ []) (omega arith),
            )
            refl
    ]
