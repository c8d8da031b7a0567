-- ===== src/RtpSink/Header.antt =====
-- The twelve bytes of the header that a sink writes.
use dorsvr.Common.{
  ℕ, ◌+◌, ◌*◌, ◌%◌, ◌^◌, ◌≤◌, ◌<◌, ◌≡◌, refl, sym, ap, ◌∙◌, Bool, false, some, ◌>>=◌, bit_or, arith,
  Timeval, ◌<<<◌,
}
use dorsvr.Common.Bits.{bit_or_join, bit_or_single}
use dorsvr.OutPacketBuffer.{
  OutPacketBuffer, enqueue_word, extract, extract_word, skip_bytes, increment,
}
use dorsvr.OutPacketBuffer.Spec.{IsValid}
use dorsvr.OutPacketBuffer.Valid.{skip_bytes-IsValid, cut_to_available-fits}
use dorsvr.OutPacketBuffer.Words.{enqueue_word-extract_word}
use dorsvr.RtpSink.{RtpSink, rtp_hdr, build_header, timestamp_increment, convert_to_rtp_timestamp}

module _ (s : RtpSink) (ht : s.rtp_payload_type < 2 ^ 7) where
  shifted : s.rtp_payload_type <<< 16 % 2 ^ 32 ≡ s.rtp_payload_type * 2 ^ 16
  shifted = omega arith

  -- The word, whatever the sequence number.
  pub rtp_hdr-join : rtp_hdr s ≡ bit_or ((2 ^ 15 + s.rtp_payload_type) * 2 ^ 16) s.seq_no
  unfolding rtp_hdr
  rtp_hdr-join =
      ap (λ t. bit_or (bit_or 0x80000000 t) s.seq_no) shifted
      ∙ ap (λ t. bit_or t s.seq_no)
          (bit_or_join 31 1 (s.rtp_payload_type * 2 ^ 16) (omega arith) ∙ omega arith)

  module _ (hq : s.seq_no < 2 ^ 16) where
    pub rtp_hdr-eq : rtp_hdr s ≡ 2 * 2 ^ 30 + s.rtp_payload_type * 2 ^ 16 + s.seq_no
    rtp_hdr-eq =
        rtp_hdr-join ∙ bit_or_join 16 (2 ^ 15 + s.rtp_payload_type) s.seq_no hq ∙ omega arith

    pub marked_hdr-eq :
        bit_or (rtp_hdr s) 0x00800000 ≡ 2 * 2 ^ 30 + 2 ^ 23 + s.rtp_payload_type * 2 ^ 16 + s.seq_no
    marked_hdr-eq =
        bit_or_single 23 (rtp_hdr s) (omega (arith, rtp_hdr-eq)) ∙ omega (arith, rtp_hdr-eq)

skip_bytes-extract_word :
    (b : OutPacketBuffer) (n q : ℕ) → extract_word (skip_bytes b n) q ≡ extract_word b q
unfolding skip_bytes increment extract_word extract
skip_bytes-extract_word b n q = refl

skip_bytes-cur :
    (b : OutPacketBuffer) (n : ℕ)
    → IsValid b
    → b.packet_start + b.cur_offset + n ≤ b.limit
    → (skip_bytes b n).cur_offset ≡ b.cur_offset + n
unfolding skip_bytes increment
skip_bytes-cur b n v h = omega (arith, cut_to_available-fits b n v h, v.bounded)

-- The sink behind `buildAndSendPacket`, from the buffers behind its two words.
abbrev pub built : RtpSink → Bool → ℕ → (b1 b2 : OutPacketBuffer) → RtpSink
built s first special b1 b2 = record s {
  out_buf = skip_bytes b2 special;
  is_first_packet = first;
  timestamp_position = b1.cur_offset;
  special_header_position = b2.cur_offset;
  special_header_size = special;
  no_frames_left = false;
  num_frames_used_so_far = 0;
  total_frame_specific_header_sizes = 0;
}

build_header-built :
    (s : RtpSink) (first : Bool) (special : ℕ) (b1 b2 : OutPacketBuffer)
    → enqueue_word s.out_buf (rtp_hdr s) ≡ some b1
    → enqueue_word (skip_bytes b1 4) s.ssrc ≡ some b2
    → build_header s first special ≡ some (built s first special b1 b2)
unfolding build_header
build_header-built s first special b1 b2 e1 e2 =
    ap
      (λ o. o >>= λ c1.
        enqueue_word (skip_bytes c1 4) s.ssrc >>= λ c2. some (built s first special c1 c2))
      e1
    ∙ ap (λ o. o >>= λ c2. some (built s first special b1 c2)) e2

pub built-timestamp :
    (s : RtpSink) (first : Bool) (special : ℕ) (b1 b2 : OutPacketBuffer) (tv : Timeval)
    → (convert_to_rtp_timestamp (built s first special b1 b2) tv).0
      ≡ (convert_to_rtp_timestamp s tv).0
unfolding convert_to_rtp_timestamp timestamp_increment
built-timestamp s first special b1 b2 tv = refl

pub timestamp-fits : (s : RtpSink) (tv : Timeval) → (convert_to_rtp_timestamp s tv).0 < 2 ^ 32
unfolding convert_to_rtp_timestamp
timestamp-fits s tv = omega arith

-- A header whose timestamp is not written yet.
pub record HasEnds (b : OutPacketBuffer) (start limit hdr ssrc : ℕ) : Type 0 where
  pub valid : IsValid b
  pub same_start : b.packet_start ≡ start
  pub same_limit : b.limit ≡ limit
  pub word0 : extract_word b 0 ≡ some hdr
  pub word8 : extract_word b 8 ≡ some ssrc

module _ (s : RtpSink) (first : Bool) (special : ℕ) (v : IsValid s.out_buf)
    (start : s.out_buf.cur_offset ≡ 0) (room : s.out_buf.packet_start + 12 ≤ s.out_buf.limit)
    (hw : rtp_hdr s < 2 ^ 32) (hs : s.ssrc < 2 ^ 32) where
  abbrev pub Built : Type 0
  Built =
      (b1 b2 : OutPacketBuffer) × (build_header s first special
        ≡ some (built s first special b1 b2))
      × (b1.cur_offset ≡ 4)
      × HasEnds (skip_bytes b2 special) s.out_buf.packet_start s.out_buf.limit (rtp_hdr s) s.ssrc

  pub build_header-words : Built
  unfolding skip_bytes increment
  build_header-words =
      first_word (enqueue_word-extract_word s.out_buf (rtp_hdr s) v (omega arith) hw)
    where
      first_word :
          (b1 : OutPacketBuffer) × (enqueue_word s.out_buf (rtp_hdr s) ≡ some b1)
            × IsValid b1
            × (b1.packet_start ≡ s.out_buf.packet_start)
            × (b1.limit ≡ s.out_buf.limit)
            × (b1.cur_offset ≡ s.out_buf.cur_offset + 4)
            × (extract_word b1 s.out_buf.cur_offset ≡ some (rtp_hdr s))
            × ((q : ℕ)
                → q + 4 ≤ s.out_buf.cur_offset
                → extract_word b1 q ≡ extract_word s.out_buf q)
          → Built
      first_word (b1, e1, v1, ps1, lim1, off1, w1, keep1) = second_word (
          enqueue_word-extract_word (skip_bytes b1 4) s.ssrc (skip_bytes-IsValid b1 4 v1)
            (omega (arith, skip_bytes-cur b1 4 v1 (omega arith))) hs)
        where
          cur : (skip_bytes b1 4).cur_offset ≡ 8
          cur = skip_bytes-cur b1 4 v1 (omega arith) ∙ omega arith

          second_word :
              (b2 : OutPacketBuffer) × (enqueue_word (skip_bytes b1 4) s.ssrc ≡ some b2)
                × IsValid b2
                × (b2.packet_start ≡ b1.packet_start)
                × (b2.limit ≡ b1.limit)
                × (b2.cur_offset ≡ (skip_bytes b1 4).cur_offset + 4)
                × (extract_word b2 (skip_bytes b1 4).cur_offset ≡ some s.ssrc)
                × ((q : ℕ)
                    → q + 4 ≤ (skip_bytes b1 4).cur_offset
                    → extract_word b2 q ≡ extract_word (skip_bytes b1 4) q)
              → Built
          second_word (b2, e2, v2, ps2, lim2, off2, w2, keep2) = (
            b1,
            b2,
            build_header-built s first special b1 b2 e1 e2,
            off1 ∙ omega arith,
            record {
              valid = skip_bytes-IsValid b2 special v2;
              same_start = ps2 ∙ ps1;
              same_limit = lim2 ∙ lim1;
              word0 =
                  skip_bytes-extract_word b2 special 0
                  ∙ keep2 0 (omega (arith, cur))
                  ∙ skip_bytes-extract_word b1 4 0
                  ∙ ap (extract_word b1) (sym start)
                  ∙ w1;
              word8 = skip_bytes-extract_word b2 special 8 ∙ ap (extract_word b2) (sym cur) ∙ w2;
            },
          )
