-- ===== src/H264Framer/Unread.antt =====
-- livemedia/stream_parser.go: the bytes that are valid and not yet parsed, and the methods that
-- find enough of them.
use dorsvr.Common.{
  ℕ, ◌+◌, ◌-◌, ◌*◌, ◌^◌, ◌≤◌, ◌<◌, ◌≡◌, sym, ap, ◌∙◌, List, ◌∷◌, some, ◌>>=◌, drop-drop, slice?-in,
  length, take, drop, le→leb, length-take, length-drop, take-all, take-take, drop-take, ◌+u◌, arith,
  slice?,
}
use dorsvr.Binary.{uint32, pad, big_endian_uint32}
use dorsvr.StreamParser.{
  StreamParser, Outcome, done, test4_bytes, skip_bytes, ensure_valid_bytes, next_to_parse, or_panic,
}

abbrev pub unread : StreamParser → List ℕ
unread p = take (p.tot_num_valid_bytes - p.cur_parser_index) (drop p.cur_parser_index p.cur_bank)

-- The valid bytes lie in the bank, and the cursor within them.
pub record IsReady (p : StreamParser) : Type 0 where
  pub cursor_in : p.cur_parser_index ≤ p.tot_num_valid_bytes
  pub valid_in : p.tot_num_valid_bytes ≤ length p.cur_bank
  pub no_wrap : p.tot_num_valid_bytes < 2 ^ 63

abbrev pub skipped : StreamParser → ℕ → StreamParser
skipped p n = record p { cur_parser_index = p.cur_parser_index + n }

abbrev pub word_of : ℕ → ℕ → ℕ → ℕ → ℕ
word_of a b c d = a * 2 ^ 24 + b * 2 ^ 16 + c * 2 ^ 8 + d

pub length-unread :
    (p : StreamParser) → IsReady p → length (unread p) ≡ p.tot_num_valid_bytes - p.cur_parser_index
length-unread p h =
    length-take (p.tot_num_valid_bytes - p.cur_parser_index) (drop p.cur_parser_index p.cur_bank)
    ∙ omega (arith, length-drop p.cur_parser_index p.cur_bank, h.valid_in, h.cursor_in)

pub ensure_valid_bytes-enough :
    {A : Type 0} (p : StreamParser) (n : ℕ) (rest : Outcome StreamParser A)
    → IsReady p
    → n ≤ length (unread p)
    → ensure_valid_bytes p n rest ≡ rest
unfolding ensure_valid_bytes
ensure_valid_bytes-enough p n rest h le = rw (
    le→leb (p.cur_parser_index +u n) p.tot_num_valid_bytes
      (omega (arith, length-unread p h, h.cursor_in, h.no_wrap)))

pub skip_bytes-skipped :
    (p : StreamParser) (n : ℕ)
    → IsReady p
    → n ≤ length (unread p)
    → skip_bytes p n ≡ done n (skipped p n)
unfolding skip_bytes
skip_bytes-skipped p n h le =
    ensure_valid_bytes-enough p n (done n (record p { cur_parser_index = p.cur_parser_index +u n }))
      h le
    ∙ ap (λ t. done n (record p { cur_parser_index = t })) no_wrap
  where
    no_wrap : p.cur_parser_index +u n ≡ p.cur_parser_index + n
    no_wrap = omega (arith, length-unread p h, h.cursor_in, h.no_wrap)

pub skipped-IsReady :
    (p : StreamParser) (n : ℕ) → IsReady p → n ≤ length (unread p) → IsReady (skipped p n)
skipped-IsReady p n h le = record {
  cursor_in = omega (arith, length-unread p h, h.cursor_in);
  valid_in = h.valid_in;
  no_wrap = h.no_wrap;
}

pub unread-skipped :
    (p : StreamParser) (n : ℕ)
    → IsReady p
    → n ≤ length (unread p)
    → unread (skipped p n) ≡ drop n (unread p)
unread-skipped p n h le =
    ap (take left) (sym (drop-drop p.cur_parser_index n p.cur_bank))
    ∙ sym (drop-take n left (drop p.cur_parser_index p.cur_bank))
    ∙ ap (λ t. drop n (take t (drop p.cur_parser_index p.cur_bank))) all_left
  where
    left : ℕ
    left = p.tot_num_valid_bytes - (p.cur_parser_index + n)

    all_left : n + left ≡ p.tot_num_valid_bytes - p.cur_parser_index
    all_left = omega (arith, length-unread p h, le)

-- The four bytes ahead, as a word.
four_ahead :
    (p : StreamParser) (a b c d : ℕ) (r : List ℕ)
    → IsReady p
    → unread p ≡ a ∷ b ∷ c ∷ d ∷ r
    → (next_to_parse p >>= λ ptr. slice? ptr 0 4 >>= λ w. uint32 w) ≡ some (word_of a b c d)
unfolding next_to_parse uint32 pad big_endian_uint32
four_ahead p a b c d r h e =
    rw
      (
        slice?-in p.cur_bank p.cur_parser_index (length p.cur_bank)
            (omega (arith, h.cursor_in, h.valid_in)) (omega arith),
        take-all (length p.cur_bank - p.cur_parser_index) ahead
            (omega (arith, length-drop p.cur_parser_index p.cur_bank)),
        slice?-in ahead 0 4 (omega arith)
            (omega (arith, enough, length-drop p.cur_parser_index p.cur_bank, h.valid_in)),
      )
      (ap uint32 (
        sym (take-take 4 (p.tot_num_valid_bytes - p.cur_parser_index) ahead enough)
        ∙ ap (take 4) e))
  where
    ahead : List ℕ
    ahead = drop p.cur_parser_index p.cur_bank

    enough : 4 ≤ p.tot_num_valid_bytes - p.cur_parser_index
    enough = omega (arith, length-unread p h, ap length e)

pub test4_bytes-word :
    (p : StreamParser) (a b c d : ℕ) (r : List ℕ)
    → IsReady p
    → unread p ≡ a ∷ b ∷ c ∷ d ∷ r
    → test4_bytes p ≡ done (word_of a b c d) p
unfolding test4_bytes
test4_bytes-word p a b c d r h e =
    ensure_valid_bytes-enough p 4 _ h (omega (arith, ap length e))
    ∙ ap (λ o. or_panic o p) (four_ahead p a b c d r h e)
