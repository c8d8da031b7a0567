-- ===== src/RtpSink.antt =====
-- livemedia/rtp_sink.go and livemedia/multi_framed_rtp_sink_linux_amd64.go: the header of an outgoing
-- packet, the timestamps, and the end of a packet. `none` is a panic of the output buffer.
pub mod Header
pub mod Words
mod Tests
use dorsvr.Common.{
  ℕ, ◌+◌, ◌*◌, ◌/◌, ◌%◌, ◌^◌, Bool, true, false, Option, none, some, ◌>>=◌, ltb, ◌&&◌,
  if◌then◌else◌, bit_or, ◌+u◌, ◌-u◌, ◌+w◌, ◌-w◌, Timeval, ◌<<<◌,
}
use dorsvr.OutPacketBuffer.{
  OutPacketBuffer, enqueue_word, skip_bytes, insert_word, extract_word, have_overflow_data,
  total_bytes_available, adjust_packet_start, reset_packet_start, reset_offset,
}

abbrev pub rtp_header_size : ℕ
rtp_header_size = 12

pub record RtpSink : Type 0 where
  pub out_buf : OutPacketBuffer
  pub seq_no : ℕ
  pub ssrc : ℕ
  pub octet_count : ℕ
  pub packet_count : ℕ
  pub total_octet_count : ℕ
  pub timestamp_base : ℕ
  pub rtp_payload_type : ℕ
  pub rtp_timestamp_frequency : ℕ
  pub next_timestamp_has_been_preset : Bool
  pub no_frames_left : Bool
  pub is_first_packet : Bool
  pub current_timestamp : ℕ
  pub timestamp_position : ℕ
  pub special_header_size : ℕ
  pub special_header_position : ℕ
  pub num_frames_used_so_far : ℕ
  pub total_frame_specific_header_sizes : ℕ

-- `convertToRTPTimestamp`; all of it is `uint32` arithmetic.
unfoldable pub timestamp_increment : RtpSink → Timeval → ℕ
timestamp_increment s tv =
    (s.rtp_timestamp_frequency * (tv.sec % 2 ^ 32) % 2 ^ 32)
    +w (((2 * s.rtp_timestamp_frequency % 2 ^ 32 * (tv.usec % 2 ^ 32) % 2 ^ 32) +w 1000000)
        / 2000000)

unfoldable pub convert_to_rtp_timestamp : RtpSink → Timeval → ℕ × RtpSink
convert_to_rtp_timestamp s tv =
    let increment = timestamp_increment s tv in
    let base =
      (if s.next_timestamp_has_been_preset
        then s.timestamp_base -w increment
        else s.timestamp_base) in
    (base +w increment, record s { timestamp_base = base; next_timestamp_has_been_preset = false })

unfoldable pub preset_next_timestamp : RtpSink → Timeval → ℕ × RtpSink
preset_next_timestamp s now =
    let (ts_now, s') = convert_to_rtp_timestamp s now in
    (ts_now, record s' { timestamp_base = ts_now; next_timestamp_has_been_preset = true })

-- The first word of the header.
unfoldable pub rtp_hdr : RtpSink → ℕ
rtp_hdr s = bit_or (bit_or 0x80000000 (s.rtp_payload_type <<< 16 % 2 ^ 32)) s.seq_no

-- `buildAndSendPacket` up to the packing of frames.
unfoldable pub build_header : RtpSink → Bool → (special_size : ℕ) → Option RtpSink
build_header s is_first_packet special_size = do
  with_hdr ← enqueue_word s.out_buf (rtp_hdr s)
  with_ssrc ← enqueue_word (skip_bytes with_hdr 4) s.ssrc
  some (record s {
    out_buf = skip_bytes with_ssrc special_size;
    is_first_packet = is_first_packet;
    timestamp_position = with_hdr.cur_offset;
    special_header_position = with_ssrc.cur_offset;
    special_header_size = special_size;
    no_frames_left = false;
    num_frames_used_so_far = 0;
    total_frame_specific_header_sizes = 0;
  })

unfoldable pub set_timestamp : RtpSink → Timeval → Option RtpSink
set_timestamp s frame_presentation_time =
    let (timestamp, s') = convert_to_rtp_timestamp s frame_presentation_time in
    insert_word s'.out_buf timestamp s'.timestamp_position >>= λ b.
    some (record s' { current_timestamp = timestamp; out_buf = b })

unfoldable pub set_marker_bit : RtpSink → Option RtpSink
set_marker_bit s = do
  hdr ← extract_word s.out_buf 0
  b ← insert_word s.out_buf (bit_or hdr 0x00800000) 0
  some (record s { out_buf = b })

-- `sendPacketIfNecessary`: the counts of a packet that was sent, and the start of the next one.
unfoldable pub count_sent : RtpSink → RtpSink
count_sent s =
    if ltb 0 s.num_frames_used_so_far
    then record s {
      packet_count = s.packet_count +u 1;
      total_octet_count = s.total_octet_count +u s.out_buf.cur_offset;
      octet_count =
          s.octet_count
          +u (s.out_buf.cur_offset -u rtp_header_size -u s.special_header_size
              -u s.total_frame_specific_header_sizes);
      seq_no = s.seq_no +w 1;
    }
    else s

unfoldable pub next_packet_start : RtpSink → (frame_specific_size : ℕ) → RtpSink
next_packet_start s frame_specific_size =
    let new_packet_start =
      s.out_buf.cur_offset -u (rtp_header_size +u s.special_header_size +u frame_specific_size) in
    let moved =
      (if have_overflow_data s.out_buf
          && ltb (s.out_buf.limit / 2) (total_bytes_available s.out_buf)
        then adjust_packet_start s.out_buf new_packet_start
        else reset_packet_start s.out_buf) in
    record s { out_buf = reset_offset moved; num_frames_used_so_far = 0 }
