-- ===== src/RtpSink/Tests.antt =====
-- A sink at the sequence number 65535 with the payload type 96.
use dorsvr.Common.{◌+◌, ◌*◌, ◌^◌, ◌≡◌, refl, true, false, some, ◌>>=◌, replicate, arith, zero_time}
use dorsvr.OutPacketBuffer.{OutPacketBuffer, extract_word}
use dorsvr.OutPacketBuffer.Spec.{IsValid}
use dorsvr.RtpSink.{
  RtpSink, rtp_hdr, build_header, convert_to_rtp_timestamp, set_timestamp, set_marker_bit,
  count_sent,
}
use dorsvr.RtpSink.Words.{header_roundtrip, seq_no_overflow}

abbrev empty_buffer : OutPacketBuffer
empty_buffer = record {
  buff = replicate 40 0;
  limit = 40;
  preferred = 20;
  cur_offset = 0;
  packet_start = 8;
  max_packet_size = 20;
  overflow_data_size = 0;
  overflow_data_offset = 0;
  overflow_duration_in_microseconds = 0;
  overflow_presentation_time = zero_time;
}

empty_buffer-IsValid : IsValid empty_buffer
empty_buffer-IsValid = record {
  sized = refl;
  bounded = omega arith;
  within = omega arith;
  overflow_within = omega arith;
}

abbrev sink : RtpSink
sink = record {
  out_buf = empty_buffer;
  seq_no = 65535;
  ssrc = 0xcafe;
  octet_count = 0;
  packet_count = 0;
  total_octet_count = 0;
  timestamp_base = 1000;
  rtp_payload_type = 96;
  rtp_timestamp_frequency = 90000;
  next_timestamp_has_been_preset = false;
  no_frames_left = false;
  is_first_packet = true;
  current_timestamp = 0;
  timestamp_position = 0;
  special_header_size = 0;
  special_header_position = 0;
  num_frames_used_so_far = 1;
  total_frame_specific_header_sizes = 0;
}

header_roundtrip_example :
    (s' : RtpSink) × ((build_header sink true 0 >>= λ s1.
    set_timestamp s1 (record { sec = 1; usec = 0 }) >>= set_marker_bit)
      ≡ some s')
    × IsValid s'.out_buf
    × (extract_word s'.out_buf 0 ≡ some (2 * 2 ^ 30 + 2 ^ 23 + 96 * 2 ^ 16 + 65535))
    × (extract_word s'.out_buf 4
        ≡ some (convert_to_rtp_timestamp sink (record { sec = 1; usec = 0 })).0)
    × (extract_word s'.out_buf 8 ≡ some 0xcafe)
header_roundtrip_example =
    header_roundtrip sink true 0 (record { sec = 1; usec = 0 }) empty_buffer-IsValid refl
      (omega arith) (omega arith) (omega arith) (omega arith)

seq_no_overflow_example : rtp_hdr (count_sent sink) ≡ 2 * 2 ^ 30 + 97 * 2 ^ 16
seq_no_overflow_example = seq_no_overflow sink (omega arith) refl refl (omega arith)
