-- ===== src/StreamParser.antt =====
-- livemedia/stream_parser.go: a parser over two banks of bytes that are filled from a source. The
-- callbacks that are stored and never change (continue, close, restore) are left to the caller.
use dorsvr.Common.{
  ℕ, ◌+◌, ◌*◌, ◌%◌, ◌^◌, Bool, true, not, List, Option, none, some, length, get_elem?, copy, leb,
  ltb, ◌>>=◌, if◌then◌else◌, ◌+u◌, ◌-u◌, Timeval, slice?,
}
use dorsvr.Binary.{uint32}

abbrev pub bank_size : ℕ
bank_size = 150_000

-- `cur_bank` is the bank in use and `other_bank` the other one; `max_input_frame_size` is what
-- `inputSource.maxFrameSize()` returns.
pub record StreamParser : Type 0 where
  pub cur_bank_num : ℕ
  pub cur_parser_index : ℕ
  pub save_parser_index : ℕ
  pub tot_num_valid_bytes : ℕ
  pub saved_parser_index : ℕ
  pub remaining_unparsed_bits : ℕ
  pub saved_remaining_unparsed_bits : ℕ
  pub have_seen_eof : Bool
  pub cur_bank : List ℕ
  pub other_bank : List ℕ
  pub max_input_frame_size : ℕ
  pub last_seen_presentation_time : Timeval

-- What a method of the parser comes to: a value, or a call of `GetNextFrame` for at most that many
-- bytes, behind the valid ones, and an error; or a panic.
pub data Outcome (S A : Type 0) : Type 0 where
  done : A → S → Outcome S A
  reads : S → ℕ → Outcome S A
  panics : Outcome S A

abbrev pub and_then : {S A B : Type 0} → Outcome S A → (A → S → Outcome S B) → Outcome S B
and_then (done a s) f = f a s
and_then (reads s n) f = reads s n
and_then panics f = panics

abbrev pub or_panic : {S A : Type 0} → Option A → S → Outcome S A
or_panic none s = panics
or_panic (some a) s = done a s

unfoldable pub restore : StreamParser → StreamParser
restore p = record p {
  cur_parser_index = p.saved_parser_index;
  remaining_unparsed_bits = p.saved_remaining_unparsed_bits;
}

unfoldable pub save_parser_state : StreamParser → StreamParser
save_parser_state p = record p {
  saved_parser_index = p.cur_parser_index;
  saved_remaining_unparsed_bits = p.remaining_unparsed_bits;
}

unfoldable pub next_to_parse : StreamParser → Option (List ℕ)
next_to_parse p = slice? p.cur_bank p.cur_parser_index (length p.cur_bank)

unfoldable pub cur_offset : StreamParser → ℕ
cur_offset p = p.cur_parser_index

-- The change to the other bank: `from` starts at `saveParserIndex`, which no code sets.
unfoldable pub switch_bank : StreamParser → Option StreamParser
switch_bank p = do
  let num_bytes_to_save = p.tot_num_valid_bytes -u p.saved_parser_index
  from ← slice? p.cur_bank p.save_parser_index (length p.cur_bank)
  saved ← slice? from 0 num_bytes_to_save
  some (record p {
    cur_bank_num = (p.cur_bank_num + 1) % 2;
    cur_bank = copy p.other_bank saved;
    other_bank = p.cur_bank;
    cur_parser_index = p.cur_parser_index -u p.saved_parser_index;
    saved_parser_index = 0;
    tot_num_valid_bytes = num_bytes_to_save;
  })

-- The second half of `ensureValidBytes1`: the read is asked for.
unfoldable pub ask_source : {A : Type 0} → ℕ → StreamParser → Outcome StreamParser A
ask_source needed p =
    if ltb bank_size (p.cur_parser_index +u needed)
    then panics
    else if leb p.tot_num_valid_bytes (length p.cur_bank)
    then reads p (bank_size -u p.tot_num_valid_bytes)
    else panics

unfoldable pub or_ask : {A : Type 0} → ℕ → Option StreamParser → Outcome StreamParser A
unfolding ask_source
or_ask needed none = panics
or_ask needed (some p) = ask_source needed p

unfoldable pub ensure_valid_bytes1 : {A : Type 0} → StreamParser → ℕ → Outcome StreamParser A
unfolding or_ask switch_bank
ensure_valid_bytes1 p num_bytes_needed =
    let needed =
      if ltb num_bytes_needed p.max_input_frame_size
      then p.max_input_frame_size
      else num_bytes_needed in
    or_ask needed (if ltb bank_size (p.cur_parser_index +u needed) then switch_bank p else some p)

-- `ensureValidBytes` and the return on its error, before the rest of a method.
unfoldable pub ensure_valid_bytes :
    {A : Type 0} → StreamParser → ℕ → Outcome StreamParser A → Outcome StreamParser A
unfolding ensure_valid_bytes1
ensure_valid_bytes p num_bytes_needed rest =
    if leb (p.cur_parser_index +u num_bytes_needed) p.tot_num_valid_bytes
    then rest
    else ensure_valid_bytes1 p num_bytes_needed

unfoldable pub test4_bytes : StreamParser → Outcome StreamParser ℕ
unfolding ensure_valid_bytes
test4_bytes p =
    ensure_valid_bytes p 4
      (or_panic (do ptr ← next_to_parse p; word ← slice? ptr 0 4; uint32 word) p)

unfoldable pub get4_bytes : StreamParser → Outcome StreamParser ℕ
unfolding test4_bytes
get4_bytes p = and_then (test4_bytes p) (λ n q.
    done n (record q { cur_parser_index = q.cur_parser_index +u 4; remaining_unparsed_bits = 0 }))

unfoldable pub get2_bytes : StreamParser → Outcome StreamParser ℕ
unfolding ensure_valid_bytes
get2_bytes p = ensure_valid_bytes p 2 (
    or_panic
      (do
        ptr ← next_to_parse p
        high ← get_elem? ptr 0
        low ← get_elem? ptr 1
        some (high * 2 ^ 8 + low))
      (record p { cur_parser_index = p.cur_parser_index +u 2; remaining_unparsed_bits = 0 }))

-- The index moves before the byte is read.
unfoldable pub get1_byte : StreamParser → Outcome StreamParser ℕ
unfolding ensure_valid_bytes
get1_byte p = ensure_valid_bytes p 1 (
    or_panic (get_elem? p.cur_bank (p.cur_parser_index +u 1))
      (record p { cur_parser_index = p.cur_parser_index +u 1 }))

unfoldable pub test_bytes : StreamParser → ℕ → Outcome StreamParser (List ℕ)
unfolding ensure_valid_bytes
test_bytes p num_bytes =
    ensure_valid_bytes p num_bytes (or_panic (do ptr ← next_to_parse p; slice? ptr 0 num_bytes) p)

unfoldable pub skip_bytes : StreamParser → ℕ → Outcome StreamParser ℕ
unfolding ensure_valid_bytes
skip_bytes p num_bytes =
    ensure_valid_bytes p num_bytes
      (done num_bytes (record p { cur_parser_index = p.cur_parser_index +u num_bytes }))

-- `afterGettingBytes`, up to the calls of the restore and continue functions.
unfoldable pub after_getting_bytes : StreamParser → ℕ → Timeval → StreamParser
after_getting_bytes p num_bytes_read presentation_time = record p {
  last_seen_presentation_time = presentation_time;
  tot_num_valid_bytes = p.tot_num_valid_bytes +u num_bytes_read;
}

-- `onInputClosure`: the second closure goes on to the client's close function, and is `none`.
unfoldable pub on_input_closure : StreamParser → Option StreamParser
unfolding after_getting_bytes
on_input_closure p =
    if not p.have_seen_eof
    then some
        (after_getting_bytes (record p { have_seen_eof = true }) 0 p.last_seen_presentation_time)
    else none
