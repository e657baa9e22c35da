-- ===== src/Lexer/RoundTrip.antt =====
-- src/tsa_conf_lexer.c: the tokens of a text that was written from a list of tokens are the list.
use tsanalyzer.Base.{ℕ, zero, suc, ◌+◌, ◌≤◌, ◌<◌, ◌≡◌, refl, ap, ap₂, ◌∙◌, arith, lt→ltb, if_else}
use tsanalyzer.Base.{
  List, [], ◌∷◌, ◌++◌, Bool, true, false, ◌||◌, length, take, ◌==◌, if◌then◌else◌,
}
use tsanalyzer.Lexer.{
  TokenType, end_of_file, word, left_brace, right_brace, semicolon, error, Token, Lexer, skip,
  skip_ignored, is_space, is_word_char, span_word, word_token, token_at, next_token, is_newline,
  is_hash,
}

-- The tokens of a configuration, as a writer has them.
pub data Item : Type 0 where
  a_word : List ℕ → Item
  open_brace close_brace end_statement : Item

unfoldable pub text_of : Item → List ℕ
text_of (a_word w) = w
text_of open_brace = 123 ∷ []
text_of close_brace = 125 ∷ []
text_of end_statement = 59 ∷ []

unfoldable pub kind_of : Item → TokenType
kind_of (a_word w) = word
kind_of open_brace = left_brace
kind_of close_brace = right_brace
kind_of end_statement = semicolon

-- Each followed by a space.
unfoldable pub write : List Item → List ℕ
write [] = []
write (i ∷ is) = text_of i ++ (32 ∷ write is)

-- What the lexer returns for them on one line, and the token of the end.
unfoldable pub tokens_of : ℕ → List Item → List Token
tokens_of line [] = record { kind = end_of_file; text = []; line = line } ∷ []
tokens_of line (i ∷ is) =
    record { kind = kind_of i; text = text_of i; line = line } ∷ tokens_of line is

-- Reading `n` tokens.
unfoldable pub read_tokens : ℕ → Lexer → List Token
read_tokens zero l = []
read_tokens (suc n) l = let (t, next) = next_token l in t ∷ read_tokens n next

abbrev pub AllWordChars : List ℕ → Type 0
AllWordChars [] = Unit {0}
AllWordChars (c ∷ cs) = (is_word_char c ≡ true) × AllWordChars cs

-- A word has 1 to 255 characters, none of which ends it.
abbrev pub IsItem : Item → Type 0
IsItem (a_word w) = (0 < length w) × (length w ≤ 255) × AllWordChars w
IsItem _ = Unit {0}

abbrev pub AllItems : List Item → Type 0
AllItems [] = Unit {0}
AllItems (i ∷ is) = IsItem i × AllItems is

span_word-append :
    (w rest : List ℕ) → AllWordChars w → span_word (w ++ (32 ∷ rest)) ≡ (w, 32 ∷ rest)
unfolding span_word is_word_char is_space
span_word-append [] rest h = refl
span_word-append (c ∷ w) rest h =
    ap₂
      (λ (b : Bool) (r : List ℕ × List ℕ).
        if b then (c ∷ r.0, r.1) else ([], c ∷ (w ++ (32 ∷ rest))))
      h.0 (span_word-append w rest h.1)

-- A space is skipped.
next_token-space :
    (line : ℕ) (cs : List ℕ)
    → next_token (record { pos = 32 ∷ cs; line = line })
      ≡ next_token (record { pos = cs; line = line })
unfolding next_token skip_ignored skip is_space
next_token-space line cs = refl

take_all : (n : ℕ) (w : List ℕ) → length w ≤ n → take n w ≡ w
take_all zero [] h = refl
take_all zero (x ∷ w) h = absurd (omega arith)
take_all (suc n) [] h = refl
take_all (suc n) (x ∷ w) h = ap (λ r. x ∷ r) (take_all n w (omega arith))

word_char_starts :
    (c : ℕ)
    → is_word_char c ≡ true
    → ((is_space c || is_hash c) ≡ false)
      × ((c == 123) ≡ false)
      × ((c == 125) ≡ false)
      × ((c == 59) ≡ false)
unfolding is_word_char
word_char_starts c h = ground arith

skip_stops :
    (line c : ℕ) (cs : List ℕ)
    → (is_space c || is_hash c) ≡ false
    → skip false line (c ∷ cs) ≡ record { pos = c ∷ cs; line = line }
unfolding skip
skip_stops line c cs h =
    if_else (λ (l : Lexer). l ≡ record { pos = c ∷ cs; line = line }) (is_space c || is_hash c)
      (skip (is_hash c) (if is_newline c then line + 1 else line) cs)
      (record { pos = c ∷ cs; line = line }) h refl

next_token_here :
    (line c : ℕ) (cs : List ℕ)
    → (is_space c || is_hash c) ≡ false
    → next_token (record { pos = c ∷ cs; line = line }) ≡ token_at line c cs
unfolding next_token skip_ignored
next_token_here line c cs h =
    ap
      (λ (l : Lexer). elim l.pos as (λ o. Token × Lexer) [
        | [] ↦ (record { kind = end_of_file; text = []; line = line }, l)
        | d ∷ ds ↦ token_at l.line d ds
      ])
      (skip_stops line c cs h)

token_at_word :
    (line c : ℕ) (cs : List ℕ)
    → (c == 123) ≡ false
    → (c == 125) ≡ false
    → (c == 59) ≡ false
    → token_at line c cs ≡ (
      word_token line (span_word (c ∷ cs)).0,
      record { pos = (span_word (c ∷ cs)).1; line = line },
    )
unfolding token_at
token_at_word line c cs a b d = rw (a, b, d)

word_token_lem :
    (line : ℕ) (w : List ℕ)
    → 0 < length w
    → length w ≤ 255
    → word_token line w ≡ record { kind = word; text = w; line = line }
unfolding word_token
word_token_lem line w h short =
    ap₂
      (λ (b : Bool) (t : List ℕ). record {
        kind = if b then word else error;
        text = t;
        line = line;
      })
      (lt→ltb 0 (length w) h) (take_all 255 w short)

-- The token in front of what a writer wrote.
next_token-text_of :
    (line : ℕ) (i : Item) (rest : List ℕ)
    → IsItem i
    → next_token (record { pos = text_of i ++ (32 ∷ rest); line = line }) ≡ (
      record { kind = kind_of i; text = text_of i; line = line },
      record { pos = 32 ∷ rest; line = line },
    )
unfolding next_token skip_ignored skip text_of kind_of token_at is_space
next_token-text_of line open_brace rest h = refl
next_token-text_of line close_brace rest h = refl
next_token-text_of line end_statement rest h = refl
next_token-text_of line (a_word []) rest h = absurd (omega (arith, h.0))
next_token-text_of line (a_word (c ∷ w)) rest (some_char, short, chars) =
    let (start, a, b, d) = word_char_starts c chars.0 in
    next_token_here line c (w ++ (32 ∷ rest)) start
    ∙ token_at_word line c (w ++ (32 ∷ rest)) a b d
    ∙ ap (λ (r : List ℕ × List ℕ). (word_token line r.0, record { pos = r.1; line = line }))
        (span_word-append (c ∷ w) rest chars)
    ∙ ap (λ (t : Token). (t, record { pos = 32 ∷ rest; line = line }))
        (word_token_lem line (c ∷ w) some_char short)

read_tokens-space :
    (n line : ℕ) (cs : List ℕ)
    → read_tokens n (record { pos = 32 ∷ cs; line = line })
      ≡ read_tokens n (record { pos = cs; line = line })
unfolding read_tokens
read_tokens-space zero line cs = refl
read_tokens-space (suc n) line cs =
    ap (λ (r : Token × Lexer). r.0 ∷ read_tokens n r.1) (next_token-space line cs)

-- The tokens that the lexer reads from a text written from words of 1 to 255 word characters,
-- braces and semicolons, with a space after each, are those, in their order, with their texts,
-- all at the line at which the lexer stood, and then the token of the end.
pub read_tokens-write :
    (line : ℕ) (is : List Item)
    → AllItems is
    → read_tokens (suc (length is)) (record { pos = write is; line = line }) ≡ tokens_of line is
unfolding read_tokens write tokens_of next_token skip_ignored skip
read_tokens-write line [] h = refl
read_tokens-write line (i ∷ is) h =
    ap (λ (r : Token × Lexer). r.0 ∷ read_tokens (suc (length is)) r.1)
      (next_token-text_of line i (write is) h.0)
    ∙ ap (λ ts. record { kind = kind_of i; text = text_of i; line = line } ∷ ts)
        (read_tokens-space (suc (length is)) line (write is) ∙ read_tokens-write line is h.1)
