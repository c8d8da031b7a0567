-- ===== src/H264Framer/Rounds.antt =====
-- livemedia/h264_video_stream_framer_linux_amd64.go: the loop of `parse` that saves a NAL unit looks
-- at four bytes at a time; what one round saves and skips.
use dorsvr.Common.{
  ℕ, suc, ◌+◌, ◌/◌, ◌%◌, ◌^◌, ◌≤◌, ◌<◌, ◌≡◌, refl, ◌∙◌, false, List, [], ◌∷◌, some, length, ◌==◌,
  arith, drop, All, lt→ltb, le→ltb, ◌>>>◌,
}
use dorsvr.Common.Bits.{bit_and_low, bit_and_field}
use dorsvr.StreamParser.{save_parser_state}
use dorsvr.H264Framer.{
  MpegVideoStreamParser, nal_loop, save_some, set_parse_state, is_start, start_code3,
}
use dorsvr.H264Framer.Unread.{
  unread, IsReady, skipped, word_of, skip_bytes-skipped, skipped-IsReady, unread-skipped,
  test4_bytes-word,
}
use dorsvr.H264Framer.Saved.{HasRoom, saved, saved-HasRoom, save_byte-saved, save4_bytes-saved}
use dorsvr.H264Framer.Spec.{start_at}

abbrev pub Bytes : List ℕ → Type 0
Bytes = All (λ b. b < 256)

start_code3-eq : (w : ℕ) → w < 2 ^ 32 → start_code3 w ≡ (w / 2 ^ 8 == 1)
start_code3-eq w h = rw (bit_and_field 8 w 0xff_ffff, bit_and_low 24 (w / 2 ^ 8)) (ground arith)

pub is_start-start_at :
    (a b c d : ℕ)
    → a < 256
    → b < 256
    → c < 256
    → d < 256
    → is_start (word_of a b c d) ≡ start_at a b c d
unfolding is_start
is_start-start_at a b c d ha hb hc hd =
    rw (start_code3-eq (word_of a b c d) (omega arith)) (ground arith)

-- A byte saved, skipped, and the state recorded.
abbrev pub moved : MpegVideoStreamParser → ℕ → MpegVideoStreamParser
moved p b = record p {
  buff_to = (saved p b).buff_to;
  num_saved_bytes = p.num_saved_bytes + 1;
  saved_cur_frame_size = p.num_saved_bytes + 1;
  saved_num_truncated_bytes = p.num_truncated_bytes;
  stream = record p.stream {
    cur_parser_index = p.stream.cur_parser_index + 1;
    saved_parser_index = p.stream.cur_parser_index + 1;
    saved_remaining_unparsed_bits = p.stream.remaining_unparsed_bits;
  };
}

abbrev pub moved_over : MpegVideoStreamParser → List ℕ → MpegVideoStreamParser
moved_over p [] = p
moved_over p (b ∷ bs) = moved_over (moved p b) bs

pub moved-HasRoom :
    (p : MpegVideoStreamParser) (b n : ℕ) → HasRoom p (suc n) → HasRoom (moved p b) n
moved-HasRoom p b n h =
    let s = saved-HasRoom p b n h in
    record { under_limit = s.under_limit; limit_in = s.limit_in; no_wrap = s.no_wrap }

-- The parser skips what it saved, and records where it is.
abbrev pub next : MpegVideoStreamParser → ℕ → MpegVideoStreamParser
next q n = set_parse_state (record q { stream = skipped q.stream n })

pub next-IsReady :
    (q : MpegVideoStreamParser) (n : ℕ)
    → IsReady q.stream
    → n ≤ length (unread q.stream)
    → IsReady (next q n).stream × ((unread (next q n).stream) ≡ drop n (unread q.stream))
unfolding set_parse_state save_parser_state
next-IsReady q n h le =
    let s = skipped-IsReady q.stream n h le in
    (
      record { cursor_in = s.cursor_in; valid_in = s.valid_in; no_wrap = s.no_wrap },
      unread-skipped q.stream n h le,
    )

pub one_round :
    (fuel w n : ℕ) (p q : MpegVideoStreamParser) (a b c d : ℕ) (r : List ℕ)
    → IsReady q.stream
    → is_start w ≡ false
    → save_some p w ≡ some (n, q)
    → n ≤ length (unread q.stream)
    → drop n (unread q.stream) ≡ a ∷ b ∷ c ∷ d ∷ r
    → nal_loop (suc fuel) w p ≡ nal_loop fuel (word_of a b c d) (next q n)
unfolding nal_loop
one_round fuel w n p q a b c d r h no_start e le ahead =
    let (ready, same) = next-IsReady q n h le in
    rw
      (
        nal_loop,
        no_start,
        e,
        skip_bytes-skipped q.stream n h le,
        test4_bytes-word (next q n).stream a b c d r ready (same ∙ ahead),
      )
      refl

pub save_some-four :
    (p : MpegVideoStreamParser) (a b c d n : ℕ)
    → HasRoom p (suc (suc (suc (suc n))))
    → a < 256
    → b < 256
    → c < 256
    → d < 256
    → 1 < d
    → save_some p (word_of a b c d) ≡ some (4, saved (saved (saved (saved p a) b) c) d)
unfolding save_some
save_some-four p a b c d n h ha hb hc hd lt =
    rw
      (
        bit_and_low 8 (word_of a b c d),
        lt→ltb 1 (word_of a b c d % 2 ^ 8) (omega arith),
        save4_bytes-saved p a b c d n h ha hb hc hd,
      )
      refl

pub save_some-one :
    (p : MpegVideoStreamParser) (a b c d n : ℕ)
    → HasRoom p (suc n)
    → a < 256
    → b < 256
    → c < 256
    → d ≤ 1
    → save_some p (word_of a b c d) ≡ some (1, saved p a)
unfolding save_some
save_some-one p a b c d n h ha hb hc le =
    rw
      (
        bit_and_low 8 (word_of a b c d),
        le→ltb (word_of a b c d % 2 ^ 8) 1 (omega arith),
        first,
        save_byte-saved p a n h ha,
      )
      refl
  where
    first : word_of a b c d >>> 24 ≡ a
    first = omega arith
