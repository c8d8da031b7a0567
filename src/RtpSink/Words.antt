-- ===== src/RtpSink/Words.antt =====
-- The timestamp and the marker bit are written into the header, and all of it is read back.
use dorsvr.Common.{
  ℕ, ◌+◌, ◌*◌, ◌%◌, ◌^◌, ◌≤◌, ◌<◌, ◌≡◌, refl, ap, ap₂, ◌∙◌, lt→ltb, ◌+w◌, ◌⊎◌, Bool, some, ◌>>=◌,
  inl, inr, bit_or, arith, Timeval,
}
use dorsvr.Common.Bits.{bit_or_single}
use dorsvr.OutPacketBuffer.{OutPacketBuffer, insert_word, extract_word, skip_bytes}
use dorsvr.OutPacketBuffer.Spec.{IsValid}
use dorsvr.OutPacketBuffer.Words.{insert_word-extract_word}
use dorsvr.RtpSink.{
  RtpSink, rtp_hdr, build_header, convert_to_rtp_timestamp, set_timestamp, set_marker_bit,
  count_sent,
}
use dorsvr.RtpSink.Header.{
  rtp_hdr-join, built, Built, rtp_hdr-eq, marked_hdr-eq, timestamp-fits, built-timestamp,
  build_header-words,
}

abbrev stamped : RtpSink → Timeval → OutPacketBuffer → RtpSink
stamped s tv b = record (convert_to_rtp_timestamp s tv).1 {
  current_timestamp = (convert_to_rtp_timestamp s tv).0;
  out_buf = b;
}

set_timestamp-eq :
    (s : RtpSink) (tv : Timeval) (b : OutPacketBuffer)
    → s.timestamp_position ≡ 4
    → insert_word s.out_buf (convert_to_rtp_timestamp s tv).0 4 ≡ some b
    → set_timestamp s tv ≡ some (stamped s tv b)
unfolding set_timestamp convert_to_rtp_timestamp
set_timestamp-eq s tv b at e =
    ap
      (λ p.
        insert_word s.out_buf (convert_to_rtp_timestamp s tv).0 p >>= λ c. some (stamped s tv c))
      at
    ∙ ap (λ o. o >>= λ c. some (stamped s tv c)) e

set_marker_bit-eq :
    (s : RtpSink) (hdr : ℕ) (b : OutPacketBuffer)
    → extract_word s.out_buf 0 ≡ some hdr
    → insert_word s.out_buf (bit_or hdr 0x00800000) 0 ≡ some b
    → set_marker_bit s ≡ some (record s { out_buf = b })
unfolding set_marker_bit
set_marker_bit-eq s hdr b e e' =
    ap
      (λ o. o >>= λ h.
        insert_word s.out_buf (bit_or h 0x00800000) 0 >>= λ c. some (record s { out_buf = c }))
      e
    ∙ ap (λ o. o >>= λ c. some (record s { out_buf = c })) e'

-- What the insertion of a word gives, as its theorem states it.
abbrev Inserted : OutPacketBuffer → ℕ → ℕ → Type 0
Inserted b w p =
    (b' : OutPacketBuffer) × (insert_word b w p ≡ some b')
    × IsValid b'
    × (b'.packet_start ≡ b.packet_start)
    × (b'.limit ≡ b.limit)
    × (p + 4 ≤ b'.cur_offset)
    × (b.cur_offset ≤ b'.cur_offset)
    × (extract_word b' p ≡ some w)
    × ((q : ℕ)
        → (q + 4 ≤ p) ⊎ (p + 4 ≤ q)
        → b.packet_start + q + 4 ≤ b.limit
        → extract_word b' q ≡ extract_word b q)

-- On a sound buffer with an empty packet and room for twelve bytes, a sink with a payload type below 2^7, a
-- sequence number below 2^16 and an SSRC below 2^32 builds the header, sets the timestamp and the marker
-- bit without a panic, and the words read back are those of RFC 3550: version 2, the marker, the payload
-- type and the sequence number; the timestamp of the presentation time; the SSRC.
pub header_roundtrip :
    (s : RtpSink) (first : Bool) (special : ℕ) (tv : Timeval)
    → IsValid s.out_buf
    → s.out_buf.cur_offset ≡ 0
    → s.out_buf.packet_start + 12 ≤ s.out_buf.limit
    → s.rtp_payload_type < 2 ^ 7
    → s.seq_no < 2 ^ 16
    → s.ssrc < 2 ^ 32
    → (s' : RtpSink) × ((build_header s first special >>= λ s1.
          set_timestamp s1 tv >>= set_marker_bit)
        ≡ some s')
      × IsValid s'.out_buf
      × (extract_word s'.out_buf 0
          ≡ some (2 * 2 ^ 30 + 2 ^ 23 + s.rtp_payload_type * 2 ^ 16 + s.seq_no))
      × (extract_word s'.out_buf 4 ≡ some (convert_to_rtp_timestamp s tv).0)
      × (extract_word s'.out_buf 8 ≡ some s.ssrc)
header_roundtrip s first special tv v start room ht hq hs =
    behind_header (build_header-words s first special v start room hw hs)
  where
    hw : rtp_hdr s < 2 ^ 32
    hw = omega (arith, rtp_hdr-eq s ht hq)

    Goal : Type 0
    Goal =
        (s' : RtpSink) × ((build_header s first special >>= λ s1.
        set_timestamp s1 tv >>= set_marker_bit)
          ≡ some s')
        × IsValid s'.out_buf
        × (extract_word s'.out_buf 0
            ≡ some (2 * 2 ^ 30 + 2 ^ 23 + s.rtp_payload_type * 2 ^ 16 + s.seq_no))
        × (extract_word s'.out_buf 4 ≡ some (convert_to_rtp_timestamp s tv).0)
        × (extract_word s'.out_buf 8 ≡ some s.ssrc)

    behind_header : Built s first special v start room hw hs → Goal
    behind_header (b1, b2, e, at, ends) = behind_timestamp (
        insert_word-extract_word (skip_bytes b2 special) ts 4 ends.valid
          (omega (arith, ends.same_start, ends.same_limit)) (timestamp-fits s1 tv))
      where
        s1 : RtpSink
        s1 = built s first special b1 b2

        ts : ℕ
        ts = (convert_to_rtp_timestamp s1 tv).0

        behind_timestamp : Inserted (skip_bytes b2 special) ts 4 → Goal
        behind_timestamp (b3, e3, v3, ps3, lim3, _, _, w3, keep3) = behind_marker (
            insert_word-extract_word b3 (bit_or (rtp_hdr s) 0x00800000) 0 v3
              (omega (arith, ends.same_start, ends.same_limit))
              (omega (arith, marked_hdr-eq s ht hq)))
          where
            behind_marker : Inserted b3 (bit_or (rtp_hdr s) 0x00800000) 0 → Goal
            behind_marker (b4, e4, v4, ps4, lim4, _, _, w4, keep4) = (
              record (stamped s1 tv b3) { out_buf = b4 },
              ap (λ o. o >>= λ s2. set_timestamp s2 tv >>= set_marker_bit) e
                  ∙ ap (λ o. o >>= set_marker_bit) (set_timestamp-eq s1 tv b3 at e3)
                  ∙ set_marker_bit-eq (stamped s1 tv b3) (rtp_hdr s) b4 hdr_kept e4,
              v4,
              w4 ∙ ap some (marked_hdr-eq s ht hq),
              keep4 4 (inr (omega arith)) (omega (arith, ends.same_start, ends.same_limit))
                  ∙ w3
                  ∙ ap some (built-timestamp s first special b1 b2 tv),
              keep4 8 (inr (omega arith)) (omega (arith, ends.same_start, ends.same_limit))
                  ∙ keep3 8 (inr (omega arith)) (omega (arith, ends.same_start, ends.same_limit))
                  ∙ ends.word8,
            )
              where
                hdr_kept : extract_word b3 0 ≡ some (rtp_hdr s)
                hdr_kept =
                    keep3 0 (inl (omega arith)) (omega (arith, ends.same_start, ends.same_limit))
                    ∙ ends.word0

sent_seq_no : (s : RtpSink) → 0 < s.num_frames_used_so_far → (count_sent s).seq_no ≡ s.seq_no +w 1
unfolding count_sent
sent_seq_no s used = rw (lt→ltb 0 s.num_frames_used_so_far used) refl

sent_payload_type :
    (s : RtpSink)
    → 0 < s.num_frames_used_so_far
    → (count_sent s).rtp_payload_type ≡ s.rtp_payload_type
unfolding count_sent
sent_payload_type s used = rw (lt→ltb 0 s.num_frames_used_so_far used) refl

-- Behind the sequence number 65535 a sink goes on with 65536: for an even payload type the first word it
-- writes has the next payload type and the sequence number 0.
pub seq_no_overflow :
    (s : RtpSink)
    → s.rtp_payload_type < 2 ^ 7
    → s.rtp_payload_type % 2 ≡ 0
    → s.seq_no ≡ 65535
    → 0 < s.num_frames_used_so_far
    → rtp_hdr (count_sent s) ≡ 2 * 2 ^ 30 + (s.rtp_payload_type + 1) * 2 ^ 16
seq_no_overflow s ht even last used =
    rtp_hdr-join (count_sent s) (omega (arith, sent_payload_type s used))
    ∙ ap₂ (λ t q. bit_or ((2 ^ 15 + t) * 2 ^ 16) q) (sent_payload_type s used)
        (sent_seq_no s used ∙ ap (λ q. q +w 1) last)
    ∙ bit_or_single 16 ((2 ^ 15 + s.rtp_payload_type) * 2 ^ 16) (omega arith)
    ∙ omega arith
