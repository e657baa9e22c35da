-- ===== src/Tests/Texts.antt =====
-- Examples of the metrics, of the PES header and of the configuration lexer.
use tsanalyzer.Base.{
  if◌then◌else◌, ℕ, ◌+◌, List, ◌≡◌, ◌≤◌, ◌⊎◌, refl, [], ◌∷◌, arith, get_or, true, false, length,
  update,
}
use tsanalyzer.Base.Int.{negsuc}
use tsanalyzer.Pes.{
  PesHeader, parse_pes_header, is_bare, parse_named, parse_optional, parse_pts, stamp,
}
use tsanalyzer.Pes.Stamps.{encode_start, encode_stamp, parse_pes_header-encode_start}
use tsanalyzer.Pes.Bounds.{
  is_among, header_free, is_readable, Agree, parse_pes_header-is_readable, parse_pes_header-Agree,
}
use tsanalyzer.Lexer.{Lexer, next_token, is_word_char, is_space}
use tsanalyzer.Lexer.Progress.{Advances, next_token-Advances}
use tsanalyzer.Lexer.RoundTrip.{
  Item, a_word, open_brace, close_brace, end_statement, write, read_tokens, tokens_of,
  read_tokens-write, AllItems,
}
use tsanalyzer.Metrics.{MetricBuffer, fast_itoa, mbuf_append_str, mbuf_append_char}
use tsanalyzer.Metrics.Decimal.{read_int, read_int-fast_itoa}
use tsanalyzer.Metrics.Buffer.{IsValid, mbuf_append_char-eq-mbuf_append_str}

read_int-fast_itoa_example :
    (read_int (fast_itoa (negsuc 119)) ≡ negsuc 119) × (length (fast_itoa (negsuc 119)) + 1 ≤ 32)
read_int-fast_itoa_example = read_int-fast_itoa (negsuc 119) (omega arith)

-- A buffer of four bytes in a memory of five, with the text "a".
abbrev buffer : MetricBuffer
buffer = record { base = 97 ∷ 0 ∷ 7 ∷ 7 ∷ 9 ∷ []; size = 4; offset = 1 }

buffer-IsValid : IsValid buffer
buffer-IsValid = record { inside = omega arith; storage = omega arith; terminated = refl }

mbuf_append_char-eq-mbuf_append_str_example :
    mbuf_append_char buffer 98 ≡ mbuf_append_str buffer (98 ∷ [])
mbuf_append_char-eq-mbuf_append_str_example =
    mbuf_append_char-eq-mbuf_append_str 98 buffer-IsValid (omega arith)

abbrev blank_header : PesHeader
blank_header = record {
  stream_id = 0;
  has_pts = false;
  has_dts = false;
  pts = 7;
  dts = 7;
  header_len = 0;
}

-- A video packet with the PTS 8589934591 and the DTS 90000.
abbrev pes : ℕ → ℕ
pes i =
    get_or
      (0 ∷ 0 ∷ 1 ∷ 0xE0 ∷ 0 ∷ 0 ∷ 0x80 ∷ 0xC0 ∷ 10 ∷ 63 ∷ 255 ∷ 255 ∷ 255 ∷ 255 ∷ 17 ∷ 0 ∷ 5 ∷ 191
        ∷ 33 ∷ [])
      i 0

parse_pes_header-encode_start_example : parse_pes_header pes 19 blank_header ≡ (
  true,
  record {
    stream_id = 0xE0;
    has_pts = true;
    has_dts = true;
    pts = 8589934591;
    dts = 90000;
    header_len = 19;
  },
)
unfolding encode_start encode_stamp is_bare
parse_pes_header-encode_start_example =
    parse_pes_header-encode_start pes 19 0xE0 0 0 8589934591 90000 blank_header refl (omega arith)
      (omega arith) (omega arith)
      (refl, (refl, (refl, (refl, (refl, (refl, (refl, (refl, (refl, tt)))))))))
      (refl, (refl, (refl, (refl, (refl, tt))))) (refl, (refl, (refl, (refl, (refl, tt)))))

parse_pes_header-is_readable_example :
    ((true ≡ true)
      × (is_readable pes 19 ≡ true)
      × (pes 3 ≡ pes 3)
      × (◌≡◌ {A = ℕ} 19 (if is_among (pes 3) header_free then 6 else 9 + pes 8)))
    ⊎ ((true ≡ false)
        × (is_readable pes 19 ≡ false)
        × (◌≡◌ {A = ℕ} 8589934591 7)
        × (◌≡◌ {A = ℕ} 90000 7)
        × (true ≡ false)
        × (true ≡ false)
        × (◌≡◌ {A = ℕ} 19 0))
unfolding parse_pes_header parse_named parse_optional parse_pts stamp is_bare
parse_pes_header-is_readable_example = parse_pes_header-is_readable pes 19 blank_header

-- The memory with another byte after the packet.
abbrev longer : ℕ → ℕ
longer = update pes 19 1

pes-longer : Agree pes longer 19
pes-longer i h = ground arith

parse_pes_header-Agree_example :
    parse_pes_header pes 19 blank_header ≡ parse_pes_header longer 19 blank_header
parse_pes_header-Agree_example = parse_pes_header-Agree pes longer 19 blank_header pes-longer

-- A comment, a newline and the word "on".
abbrev commented : Lexer
commented = record { pos = 35 ∷ 120 ∷ 10 ∷ 111 ∷ 110 ∷ []; line = 3 }

next_token-Advances_example : Advances (length commented.pos) (next_token commented)
next_token-Advances_example = next_token-Advances commented

-- "a { on ; }"
abbrev items : List Item
items = a_word (97 ∷ []) ∷ open_brace ∷ a_word (111 ∷ 110 ∷ []) ∷ end_statement ∷ close_brace ∷ []

items-AllItems : AllItems items
unfolding is_word_char is_space
items-AllItems = (
  (omega arith, omega arith, (refl, tt)),
  (tt, ((omega arith, omega arith, (refl, (refl, tt))), (tt, (tt, tt)))),
)

read_tokens-write_example :
    read_tokens 6 (record { pos = write items; line = 1 }) ≡ tokens_of 1 items
read_tokens-write_example = read_tokens-write 1 items items-AllItems
