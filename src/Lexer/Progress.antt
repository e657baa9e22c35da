-- ===== src/Lexer/Progress.antt =====
-- src/tsa_conf_lexer.c: every token but that of the end takes a part of the text.
use tsanalyzer.Base.{ℕ, suc, ◌+◌, ◌≤◌, ◌<◌, ◌≡◌, ◌⊎◌, refl, ap, inl, inr, arith}
use tsanalyzer.Base.{
  List, [], ◌∷◌, Bool, true, false, not, ◌||◌, length, ◌==◌, if◌then◌else◌, Bool-cases,
}
use tsanalyzer.Base.{if_each, if_then, if_else}
use tsanalyzer.Lexer.{
  end_of_file, left_brace, right_brace, semicolon, Token, Lexer, skip, skip_ignored, is_space,
  is_word_char, span_word, word_token, sign_token, token_at, next_token, is_newline, is_hash,
}

-- Where the lexer stops skipping, the text is at an end or goes on with a character of a token.
data Skipped (n : ℕ) : List ℕ → Type 0 where
  all_skipped : Skipped n []
  stopped :
      (c : ℕ) (cs : List ℕ)
      → is_space c ≡ false
      → is_hash c ≡ false
      → suc (length cs) ≤ n
      → Skipped n (c ∷ cs)

Skipped-suc : {n : ℕ} {cs : List ℕ} → Skipped n cs → Skipped (suc n) cs
Skipped-suc all_skipped = all_skipped
Skipped-suc (stopped c cs a b h) = stopped c cs a b (omega arith)

not_ignored : (a b c : Bool) → (a || b || c) ≡ false → (b ≡ false) × (c ≡ false)
not_ignored a b c e = ground arith

skip-Skipped :
    (comment : Bool) (line : ℕ) (cs : List ℕ) → Skipped (length cs) (skip comment line cs).pos
unfolding skip
skip-Skipped comment line [] = all_skipped
skip-Skipped comment line (c ∷ cs) =
    let ignored : Bool = comment || is_space c || is_hash c in
    let rest : Lexer =
      skip (if comment then not (is_newline c) else is_hash c)
        (if is_newline c then line + 1 else line) cs in
    let here : Lexer = record { pos = c ∷ cs; line = line } in
    elim (Bool-cases ignored) [
      | inl e ↦
          if_then (λ (l : Lexer). Skipped (suc (length cs)) l.pos) ignored rest here e
            (Skipped-suc (
              skip-Skipped (if comment then not (is_newline c) else is_hash c)
                (if is_newline c then line + 1 else line) cs))
      | inr e ↦
          let (a, b) = not_ignored comment (is_space c) (is_hash c) e in
          if_else (λ (l : Lexer). Skipped (suc (length cs)) l.pos) ignored rest here e
            (stopped c cs a b (omega arith))
    ]

length-span_word : (cs : List ℕ) → length (span_word cs).1 ≤ length cs
unfolding span_word
length-span_word [] = omega arith
length-span_word (c ∷ cs) =
    if_each (λ (r : List ℕ × List ℕ). length r.1 ≤ suc (length cs)) (is_word_char c) _ _
      (omega (arith, length-span_word cs)) (omega arith)

-- A token but the last takes at least a character.
pub Advances : ℕ → Token × Lexer → Type 0
Advances n (t, l) = ((t.kind ≡ end_of_file) × (l.pos ≡ [])) ⊎ (length l.pos < n)

-- The first character of a word is taken.
span_word_first :
    (c : ℕ) (cs : List ℕ)
    → is_word_char c ≡ true
    → span_word (c ∷ cs) ≡ (c ∷ (span_word cs).0, (span_word cs).1)
unfolding span_word
span_word_first c cs e = rw e

word_char :
    (c : ℕ)
    → is_space c ≡ false
    → is_hash c ≡ false
    → (c == 123) ≡ false
    → (c == 125) ≡ false
    → (c == 59) ≡ false
    → is_word_char c ≡ true
unfolding is_word_char
word_char c s h a b d = rw (s, h, a, b, d)

token_at-Advances :
    (line c n : ℕ) (cs : List ℕ)
    → is_space c ≡ false
    → is_hash c ≡ false
    → suc (length cs) ≤ n
    → Advances n (token_at line c cs)
unfolding token_at Advances
token_at-Advances line c n cs s h le =
    let after : Lexer = record { pos = cs; line = line } in
    let (text, rest) = span_word (c ∷ cs) in
    let last : Token × Lexer = (word_token line text, record { pos = rest; line = line }) in
    let third : Token × Lexer = if c == 59 then (sign_token semicolon c line, after) else last in
    let second : Token × Lexer =
      if c == 125 then (sign_token right_brace c line, after) else third in
    elim (Bool-cases (c == 123)) [
      | inl e ↦
          if_then (Advances n) (c == 123) (sign_token left_brace c line, after) second e
            (inr (omega arith))
      | inr e ↦
          if_else (Advances n) (c == 123) (sign_token left_brace c line, after) second e
            (elim (Bool-cases (c == 125)) [
              | inl f ↦
                  if_then (Advances n) (c == 125) (sign_token right_brace c line, after) third f
                    (inr (omega arith))
              | inr f ↦
                  if_else (Advances n) (c == 125) (sign_token right_brace c line, after) third f
                    (elim (Bool-cases (c == 59)) [
                      | inl g ↦
                          if_then (Advances n) (c == 59) (sign_token semicolon c line, after) last g
                            (inr (omega arith))
                      | inr g ↦
                          if_else (Advances n) (c == 59) (sign_token semicolon c line, after) last g
                            (inr (
                              omega (
                                arith,
                                ap (λ (r : List ℕ × List ℕ). length r.1)
                                    (span_word_first c cs (word_char c s h e f g)),
                                length-span_word cs,
                              )))
                    ])
            ])
    ]

-- Every call of `tsa_lexer_next` takes at least one character of the text, or returns the token of
-- the end with nothing left, so that reading tokens up to that one ends.
pub next_token-Advances : (l : Lexer) → Advances (length l.pos) (next_token l)
unfolding next_token skip_ignored Advances
next_token-Advances l =
    go (skip false l.line l.pos).line (skip false l.line l.pos).pos
      (skip-Skipped false l.line l.pos)
  where
    go :
        (line : ℕ) (p : List ℕ)
        → Skipped (length l.pos) p
        → Advances (length l.pos) (elim p as (λ o. Token × Lexer) [
          | [] ↦ (
            record { kind = end_of_file; text = []; line = l.line },
            record { pos = p; line = line },
          )
          | c ∷ cs ↦ token_at line c cs
        ])
    go line [] all_skipped = inl (refl, refl)
    go line (c ∷ cs) (stopped _ _ a b h) = token_at-Advances line c (length l.pos) cs a b h
