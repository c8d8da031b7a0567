-- ===== src/H264Framer.antt =====
-- livemedia/mpeg_video_stream_parser.go and the parser of
-- livemedia/h264_video_stream_framer_linux_amd64.go: a byte stream is split into NAL units, which
-- are saved in the buffer of the reader.
pub mod Unread
pub mod Spec
pub mod Saved
pub mod Rounds
pub mod Split
pub mod Moved
pub mod Emulation
pub mod Escape
pub mod Headers
pub mod Reads
pub mod SpsReads
pub mod Finishes
pub mod Sei
pub mod AccessUnit
pub mod SamePicture
pub mod Stream
mod Tests
use dorsvr.Common.{
  ℕ, zero, suc, ◌+◌, ◌-◌, ◌*◌, ◌/◌, ◌%◌, ◌^◌, Bool, true, false, not, ◌&&◌, ◌||◌, List, [], ◌∷◌,
  Option, none, some, length, replicate, get_elem?, write?, leb, ltb, ◌==◌, guard, ◌>>=◌,
  if◌then◌else◌, ◌+u◌, ◌-u◌, ◌*u◌, u8, ◌>>>◌, bit_and,
}
use dorsvr.StreamParser.{
  StreamParser, Outcome, done, reads, panics, and_then, or_panic, restore, save_parser_state,
  test4_bytes, get1_byte, skip_bytes,
}

-- `buffTo`, `saveTo` and `startOfFrame` are one slice from `registerReadInterest` on, and no code
-- moves them: they are one buffer here.
pub record MpegVideoStreamParser : Type 0 where
  pub stream : StreamParser
  pub buff_to : List ℕ
  pub num_limit_bytes : ℕ
  pub num_saved_bytes : ℕ
  pub num_truncated_bytes : ℕ
  pub saved_cur_frame_size : ℕ
  pub saved_num_truncated_bytes : ℕ

unfoldable pub restore_saved_parser_state : MpegVideoStreamParser → MpegVideoStreamParser
unfolding restore
restore_saved_parser_state p = record p {
  stream = restore p.stream;
  num_saved_bytes = p.saved_cur_frame_size;
  num_truncated_bytes = p.saved_num_truncated_bytes;
}

unfoldable pub register_read_interest : MpegVideoStreamParser → List ℕ → ℕ → MpegVideoStreamParser
register_read_interest p buff_to max_size = record p {
  buff_to = buff_to;
  num_limit_bytes = max_size;
  num_saved_bytes = 0;
  num_truncated_bytes = 0;
  saved_cur_frame_size = 0;
  saved_num_truncated_bytes = 0;
}

unfoldable pub save_byte : MpegVideoStreamParser → ℕ → Option MpegVideoStreamParser
save_byte p b =
    if leb p.num_limit_bytes p.num_saved_bytes
    then some (record p { num_truncated_bytes = p.num_truncated_bytes +u 1 })
    else write? p.buff_to p.num_saved_bytes (u8 b) >>= λ buff.
        some (record p { buff_to = buff; num_saved_bytes = p.num_saved_bytes +u 1 })

unfoldable pub save4_bytes : MpegVideoStreamParser → ℕ → Option MpegVideoStreamParser
save4_bytes p word =
    if ltb p.num_limit_bytes (p.num_saved_bytes +u 4)
    then some (record p { num_truncated_bytes = p.num_truncated_bytes +u 4 })
    else do
      b0 ← write? p.buff_to p.num_saved_bytes (u8 (word >>> 24))
      b1 ← write? b0 (p.num_saved_bytes + 1) (u8 (word >>> 16))
      b2 ← write? b1 (p.num_saved_bytes + 2) (u8 (word >>> 8))
      b3 ← write? b2 (p.num_saved_bytes + 3) (u8 word)
      some (record p { buff_to = b3; num_saved_bytes = p.num_saved_bytes +u 4 })

unfoldable pub cur_frame_size : MpegVideoStreamParser → ℕ
cur_frame_size p = p.num_saved_bytes

unfoldable pub set_parse_state : MpegVideoStreamParser → MpegVideoStreamParser
unfolding save_parser_state
set_parse_state p = record p {
  saved_cur_frame_size = p.num_saved_bytes;
  saved_num_truncated_bytes = p.num_truncated_bytes;
  stream = save_parser_state p.stream;
}

-- A method of the stream parser, called through the parser that embeds it.
abbrev pub embedded :
    {A : Type 0} → MpegVideoStreamParser → Outcome StreamParser A → Outcome MpegVideoStreamParser A
embedded p (done a s) = done a (record p { stream = s })
embedded p (reads s n) = reads (record p { stream = s }) n
embedded p panics = panics

abbrev pub start_code4 : ℕ
start_code4 = 0x0000_0001

abbrev pub start_code3 : ℕ → Bool
start_code3 word = bit_and word 0xffff_ff00 == 0x0000_0100

-- The loop before the first start code.
unfoldable pub first_start_code : ℕ → MpegVideoStreamParser → Outcome MpegVideoStreamParser ℕ
unfolding test4_bytes get1_byte set_parse_state
first_start_code zero p = panics
first_start_code (suc fuel) p = and_then (embedded p (test4_bytes p.stream)) (λ first4 q.
    elim (first4 == start_code4) [
      | true ↦ done first4 q
      | false ↦
          and_then (embedded q (get1_byte q.stream))
            (λ b r. first_start_code fuel (set_parse_state r))
    ])

-- The bytes that the loop saves of a word that is no start code, and how many it skips.
unfoldable pub save_some : MpegVideoStreamParser → ℕ → Option (ℕ × MpegVideoStreamParser)
unfolding save4_bytes save_byte
save_some p next4 =
    if ltb 1 (bit_and next4 0xff)
    then (save4_bytes p next4 >>= λ q. some (4, q))
    else (save_byte p (next4 >>> 24) >>= λ q. some (1, q))

abbrev pub saved_outcome : Option (ℕ × MpegVideoStreamParser) → Outcome MpegVideoStreamParser ℕ
saved_outcome none = panics
saved_outcome (some (n, q)) = done n q

unfoldable pub is_start : ℕ → Bool
is_start next4 = next4 == start_code4 || start_code3 next4

-- The loop that saves a NAL unit, up to the start code behind it, which is returned.
unfoldable pub nal_loop : ℕ → ℕ → MpegVideoStreamParser → Outcome MpegVideoStreamParser ℕ
unfolding save_some skip_bytes set_parse_state test4_bytes
nal_loop zero next4 p = panics
nal_loop (suc fuel) next4 p = elim (is_start next4) [
  | true ↦ done next4 p
  | false ↦ and_then (saved_outcome (save_some p next4)) (λ skip q.
      and_then (embedded q (skip_bytes q.stream skip)) (λ _ r.
        let s = set_parse_state r in and_then (embedded s (test4_bytes s.stream)) (nal_loop fuel)))
]

-- The start code is skipped.
unfoldable pub skip_start_code : ℕ → MpegVideoStreamParser → Outcome MpegVideoStreamParser ℕ
unfolding skip_bytes
skip_start_code next4 p = embedded p (skip_bytes p.stream (if next4 == start_code4 then 4 else 3))

-- `H264VideoStreamParser`; the framer's fields are left to it.
pub record H264VideoStreamParser : Type 0 where
  pub video : MpegVideoStreamParser
  pub output_start_code_size : ℕ
  pub first_byte_of_nal_unit : ℕ
  pub log2_max_frame_num : ℕ
  pub frame_mbs_only_flag : Bool
  pub separate_colour_plane_flag : Bool
  pub have_seen_first_start_code : Bool
  pub have_seen_first_byte_of_nal_unit : Bool

abbrev pub in_video :
    {A : Type 0}
    → H264VideoStreamParser
    → Outcome MpegVideoStreamParser A
    → Outcome H264VideoStreamParser A
in_video p (done a v) = done a (record p { video = v })
in_video p (reads v n) = reads (record p { video = v }) n
in_video p panics = panics

unfoldable pub note_first_byte : H264VideoStreamParser → ℕ → H264VideoStreamParser
note_first_byte p byte =
    if p.have_seen_first_byte_of_nal_unit
    then p
    else record p { first_byte_of_nal_unit = byte; have_seen_first_byte_of_nal_unit = true }

-- `parse` up to the first start code, where it has not been seen.
unfoldable pub find_first_start_code : ℕ → H264VideoStreamParser → Outcome H264VideoStreamParser ℕ
unfolding first_start_code skip_bytes
find_first_start_code fuel p = elim p.have_seen_first_start_code [
  | true ↦ done 0 p
  | false ↦
      and_then
        (in_video p
          (and_then (first_start_code fuel p.video) (λ _ v. embedded v (skip_bytes v.stream 4))))
        (λ n q. done n (record q { have_seen_first_start_code = true }))
]

-- The start code before a unit, which no reader asks for: the constructor leaves its size 0.
unfoldable pub put_start_code : H264VideoStreamParser → Option H264VideoStreamParser
unfolding save4_bytes cur_frame_size
put_start_code p =
    if ltb 0 p.output_start_code_size
      && cur_frame_size p.video == 0
      && not p.video.stream.have_seen_eof
    then (save4_bytes p.video start_code4 >>= λ v. some (record p { video = v }))
    else some p

-- `parse`, from there on, where the end of the stream has not been seen: the unit is saved, and the
-- start code behind it skipped.
unfoldable pub save_nal_unit : ℕ → H264VideoStreamParser → Outcome H264VideoStreamParser ℕ
unfolding test4_bytes note_first_byte nal_loop skip_start_code
save_nal_unit fuel p =
    and_then (in_video p (embedded p.video (test4_bytes p.video.stream))) (λ next4 q.
      in_video (note_first_byte q (next4 >>> 24))
        (and_then (nal_loop fuel next4 q.video) skip_start_code))

-- The loop over the data that is left when the end has been seen. Its last `get1Byte` and its error
-- "EOF" are the caller's.
unfoldable pub save_remaining : ℕ → H264VideoStreamParser → Outcome H264VideoStreamParser ℕ
unfolding get1_byte note_first_byte save_byte
save_remaining zero p = done 0 p
save_remaining (suc remaining) p =
    and_then (in_video p (embedded p.video (get1_byte p.video.stream))) (λ byte q.
      let r = note_first_byte q byte in
      and_then (in_video r (or_panic_at (save_byte r.video byte)))
        (λ _ t. save_remaining remaining t))
  where
    or_panic_at : Option MpegVideoStreamParser → Outcome MpegVideoStreamParser ℕ
    or_panic_at none = panics
    or_panic_at (some v) = done 0 v
