-- ===== src/Lexer.antt =====
-- src/tsa_conf_lexer.c and include/tsa_conf_lexer.h: the tokens of a configuration file. A text is
-- the list of its characters, without the final zero and with none before it.
pub mod Progress
pub mod RoundTrip
use tsanalyzer.Base.{ℕ, ◌+◌, List, [], ◌∷◌, Bool, true, false, not, ◌&&◌, ◌||◌}
use tsanalyzer.Base.{ltb, leb, ◌==◌, if◌then◌else◌, length, take}

-- tsa_token_type_t; TSA_TOKEN_ERROR is for a word with no character, which never comes.
pub data TokenType : Type 0 where
  end_of_file word left_brace right_brace semicolon error : TokenType

-- tsa_token_t
pub record Token : Type 0 where
  pub kind : TokenType
  pub text : List ℕ
  pub line : ℕ

-- tsa_lexer_t, without `start`, which is only set
pub record Lexer : Type 0 where
  pub pos : List ℕ
  pub line : ℕ

unfoldable pub init : List ℕ → Lexer
init input = record { pos = input; line = 1 }

-- `isspace` of the C library
unfoldable pub is_space : ℕ → Bool
is_space c = (c == 32) || (leb 9 c && leb c 13)

abbrev pub is_newline : ℕ → Bool
is_newline c = c == 10

abbrev pub is_hash : ℕ → Bool
is_hash c = c == 35

-- The loops of `skip_ignored`; `comment` says that the inner one runs. It ends before the newline,
-- which the outer one then takes as a space.
unfoldable pub skip : Bool → ℕ → List ℕ → Lexer
skip comment line [] = record { pos = []; line = line }
skip comment line (c ∷ cs) =
    let next : ℕ = if is_newline c then line + 1 else line in
    let rest = skip (if comment then not (is_newline c) else is_hash c) next cs in
    if comment || is_space c || is_hash c then rest else record { pos = c ∷ cs; line = line }

unfoldable pub skip_ignored : Lexer → Lexer
skip_ignored l = skip false l.line l.pos

-- The characters of a word.
unfoldable pub is_word_char : ℕ → Bool
is_word_char c =
    not (is_space c) && not (c == 123) && not (c == 125) && not (c == 59) && not (is_hash c)

-- The loop over a word, and what follows it.
unfoldable pub span_word : List ℕ → List ℕ × List ℕ
span_word [] = ([], [])
span_word (c ∷ cs) =
    let (more, rest) = span_word cs in if is_word_char c then (c ∷ more, rest) else ([], c ∷ cs)

-- `tok.text` has room for 255 characters.
unfoldable pub word_token : ℕ → List ℕ → Token
word_token line text = record {
  kind = if ltb 0 (length text) then word else error;
  text = take 255 text;
  line = line;
}

abbrev pub sign_token : TokenType → ℕ → ℕ → Token
sign_token kind c line = record { kind = kind; text = c ∷ []; line = line }

unfoldable pub token_at : ℕ → ℕ → List ℕ → Token × Lexer
token_at line c cs =
    let after : Lexer = record { pos = cs; line = line } in
    let (text, rest) = span_word (c ∷ cs) in
    if c == 123
    then (sign_token left_brace c line, after)
    else if c == 125
    then (sign_token right_brace c line, after)
    else if c == 59
    then (sign_token semicolon c line, after)
    else (word_token line text, record { pos = rest; line = line })

-- At the end of the text the token keeps the line at which the call began.
unfoldable pub next_token : Lexer → Token × Lexer
next_token l =
    let skipped = skip_ignored l in
    elim skipped.pos [
      | [] ↦ (record { kind = end_of_file; text = []; line = l.line }, skipped)
      | c ∷ cs ↦ token_at skipped.line c cs
    ]
