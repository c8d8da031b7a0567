-- ===== src/RtpPacket/Tests.antt =====
-- A packet with a CSRC, an extension of one word, three bytes of payload and two of padding.
use dorsvr.Common.{◌≡◌, refl, true, [], ◌∷◌, some, arith}
use dorsvr.Binary.{put_uint32}
use dorsvr.RtpPacket.{BufferedPacket, accepted, new_buffered_packet, parse_packet}
use dorsvr.RtpPacket.Spec.{Holds, RtpPacket, WellFormed, packet_bytes}
use dorsvr.RtpPacket.RoundTrip.{parse_packet-packet_bytes}

abbrev sent : RtpPacket
sent = record {
  fields = record { marker = true; timestamp = 90000; ssrc = 0xdeadbeef; seq_no = 65535 };
  payload_type = 96;
  csrc_count = 1;
  csrcs = 1 ∷ 2 ∷ 3 ∷ 4 ∷ [];
  extension = some (record { profile = 0xbede; words = 1; content = 5 ∷ 6 ∷ 7 ∷ 8 ∷ [] });
  payload = 0x65 ∷ 10 ∷ 11 ∷ [];
  padding = 2;
}

sent-WellFormed : WellFormed sent
sent-WellFormed = record {
  payload_type_fits = omega arith;
  seq_no_fits = omega arith;
  timestamp_fits = omega arith;
  ssrc_fits = omega arith;
  csrc_count_fits = omega arith;
  csrcs_length = refl;
  extension_fits = (omega arith, omega arith, refl);
  padding_fits = omega arith;
}

abbrev received : BufferedPacket
received = record new_buffered_packet { buffer = packet_bytes sent; tail = 29 }

received-Holds : Holds received (packet_bytes sent)
unfolding put_uint32 new_buffered_packet
received-Holds = record { window = refl; span = refl; within = omega arith; bounded = omega arith }

parse_packet-packet_bytes_example :
    (p' : BufferedPacket) × (parse_packet received 96 ≡ accepted p' sent.fields)
    × Holds p' (0x65 ∷ 10 ∷ 11 ∷ [])
parse_packet-packet_bytes_example =
    parse_packet-packet_bytes received sent sent-WellFormed received-Holds
