-- ===== src/H264Framer/Saved.antt =====
-- livemedia/mpeg_video_stream_parser.go: bytes that are saved where there is room for them.
use dorsvr.Common.{
  ℕ, suc, ◌+◌, ◌^◌, ◌≤◌, ◌<◌, ◌≡◌, List, some, length, set, length-set, write?-in, u8, ◌>>>◌, ◌+u◌,
  lt→leb, le→ltb, arith,
}
use dorsvr.H264Framer.{MpegVideoStreamParser, save_byte, save4_bytes}
use dorsvr.H264Framer.Unread.{word_of}

-- There is room for `n` more bytes, below the reader's limit and in its buffer.
pub record HasRoom (p : MpegVideoStreamParser) (n : ℕ) : Type 0 where
  pub under_limit : p.num_saved_bytes + n ≤ p.num_limit_bytes
  pub limit_in : p.num_limit_bytes ≤ length p.buff_to
  pub no_wrap : p.num_limit_bytes < 2 ^ 63

abbrev pub saved : MpegVideoStreamParser → ℕ → MpegVideoStreamParser
saved p b = record p {
  buff_to = set p.buff_to p.num_saved_bytes b;
  num_saved_bytes = p.num_saved_bytes + 1;
}

pub saved-HasRoom :
    (p : MpegVideoStreamParser) (b n : ℕ) → HasRoom p (suc n) → HasRoom (saved p b) n
saved-HasRoom p b n h = record {
  under_limit = omega (arith, h.under_limit);
  limit_in = omega (arith, h.limit_in, length-set p.buff_to p.num_saved_bytes b);
  no_wrap = h.no_wrap;
}

pub save_byte-saved :
    (p : MpegVideoStreamParser) (b n : ℕ)
    → HasRoom p (suc n)
    → b < 256
    → save_byte p b ≡ some (saved p b)
unfolding save_byte
save_byte-saved p b n h lt =
    rw
      (
        lt→leb p.num_saved_bytes p.num_limit_bytes (omega (arith, h.under_limit)),
        write?-in p.buff_to p.num_saved_bytes (u8 b) (omega (arith, h.under_limit, h.limit_in)),
      )
      (λ i. some (record p {
        buff_to = set p.buff_to p.num_saved_bytes (low_byte i);
        num_saved_bytes = no_wrap i;
      }))
  where
    low_byte : u8 b ≡ b
    low_byte = omega arith

    no_wrap : p.num_saved_bytes +u 1 ≡ p.num_saved_bytes + 1
    no_wrap = omega (arith, h.under_limit, h.no_wrap)

pub save4_bytes-saved :
    (p : MpegVideoStreamParser) (a b c d n : ℕ)
    → HasRoom p (suc (suc (suc (suc n))))
    → a < 256
    → b < 256
    → c < 256
    → d < 256
    → save4_bytes p (word_of a b c d) ≡ some (saved (saved (saved (saved p a) b) c) d)
unfolding save4_bytes
save4_bytes-saved p a b c d n h ha hb hc hd =
    rw
      (
        le→ltb (p.num_saved_bytes +u 4) p.num_limit_bytes (omega (arith, h.under_limit, h.no_wrap)),
        byte1,
        byte2,
        byte3,
        byte4,
        write?-in s0 k a (omega (arith, room)),
        write?-in s1 (k + 1) b (omega (arith, room, length-set s0 k a)),
        write?-in s2 (k + 2) c (omega (arith, room, length-set s0 k a, length-set s1 (k + 1) b)),
        write?-in s3 (k + 3) d (
            omega
              (arith, room, length-set s0 k a, length-set s1 (k + 1) b, length-set s2 (k + 2) c)),
      )
      (λ i.
        some (record p { buff_to = set (set s2 (two i) c) (three i) d; num_saved_bytes = four i }))
  where
    k : ℕ
    k = p.num_saved_bytes

    s0 : List ℕ
    s0 = p.buff_to

    s1 : List ℕ
    s1 = set s0 k a

    s2 : List ℕ
    s2 = set s1 (k + 1) b

    s3 : List ℕ
    s3 = set s2 (k + 2) c

    room : k + 4 ≤ length s0
    room = omega (arith, h.under_limit, h.limit_in)

    byte1 : u8 (word_of a b c d >>> 24) ≡ a
    byte1 = omega arith

    byte2 : u8 (word_of a b c d >>> 16) ≡ b
    byte2 = omega arith

    byte3 : u8 (word_of a b c d >>> 8) ≡ c
    byte3 = omega arith

    byte4 : u8 (word_of a b c d) ≡ d
    byte4 = omega arith

    two : k + 2 ≡ k + 1 + 1
    two = omega arith

    three : k + 3 ≡ k + 1 + 1 + 1
    three = omega arith

    four : k +u 4 ≡ k + 1 + 1 + 1 + 1
    four = omega (arith, h.under_limit, h.no_wrap)
