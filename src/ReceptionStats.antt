-- ===== src/ReceptionStats.antt =====
-- livemedia/rtp_reception_stats_linux_amd64.go: what a receiver counts of a source. The fields for
-- times and the jitter are left out; times and jitter change no other field.
pub mod Sequence
pub mod Octets
mod Tests
use dorsvr.Common.{
  ℕ, ◌+◌, ◌-◌, ◌/◌, ◌%◌, ◌*◌, ◌^◌, Bool, true, false, not, List, [], ◌∷◌, Option, none, some, ltb,
  leb, ◌==◌, if◌then◌else◌, bit_and, bit_or, ◌+w◌, ◌-w◌,
}
use dorsvr.SeqNum.{seq_num_lt}

pub record ReceptionStats : Type 0 where
  pub ssrc : ℕ
  pub tot_num_packets_received : ℕ
  pub tot_bytes_received_hi : ℕ
  pub tot_bytes_received_lo : ℕ
  pub base_ext_seq_num_received : ℕ
  pub highest_ext_seq_num_received : ℕ
  pub last_reset_ext_seq_num_received : ℕ
  pub num_packets_received_since_last_reset : ℕ
  pub have_seen_initial_sequence_number : Bool

unfoldable pub reset : ReceptionStats → ReceptionStats
reset s = record s {
  num_packets_received_since_last_reset = 0;
  last_reset_ext_seq_num_received = s.highest_ext_seq_num_received;
}

unfoldable pub init_seq_num : ReceptionStats → ℕ → ReceptionStats
init_seq_num s initial_seq_num = record s {
  base_ext_seq_num_received = bit_or 0x10000 initial_seq_num;
  highest_ext_seq_num_received = bit_or 0x10000 initial_seq_num;
  have_seen_initial_sequence_number = true;
}

-- `init`, of a new struct, and `newRTPReceptionStats`.
unfoldable pub new_reception_stats : ℕ → ℕ → ReceptionStats
new_reception_stats ssrc seq_num =
    init_seq_num
      (reset (record {
        ssrc = ssrc;
        tot_num_packets_received = 0;
        tot_bytes_received_hi = 0;
        tot_bytes_received_lo = 0;
        base_ext_seq_num_received = 0;
        highest_ext_seq_num_received = 0;
        last_reset_ext_seq_num_received = 0;
        num_packets_received_since_last_reset = 0;
        have_seen_initial_sequence_number = false;
      }))
      seq_num

-- The counts of packets and bytes.
unfoldable pub count_packet : ReceptionStats → ℕ → ReceptionStats
count_packet s packet_size = record s {
  num_packets_received_since_last_reset = s.num_packets_received_since_last_reset +w 1;
  tot_num_packets_received = s.tot_num_packets_received +w 1;
  tot_bytes_received_lo = s.tot_bytes_received_lo +w packet_size;
  tot_bytes_received_hi =
      (if ltb (s.tot_bytes_received_lo +w packet_size) s.tot_bytes_received_lo
        then s.tot_bytes_received_hi +w 1
        else s.tot_bytes_received_hi);
}

-- A packet that is newer than the highest one, of the cycle `cycle`.
unfoldable pub note_new : ReceptionStats → ℕ → ℕ → ReceptionStats
note_new s cycle seq_num =
    if ltb s.highest_ext_seq_num_received (bit_or cycle seq_num)
    then record s { highest_ext_seq_num_received = bit_or cycle seq_num }
    else s

-- A packet that is not.
unfoldable pub note_old : ReceptionStats → ℕ → ℕ → ReceptionStats
note_old s cycle seq_num =
    if ltb (bit_or cycle seq_num) s.base_ext_seq_num_received
    then record s { base_ext_seq_num_received = bit_or cycle seq_num }
    else s

-- The cycle of the highest number, and the one after or before it if the difference of the numbers, as
-- a `uint32`, is large.
unfoldable pub cycle_for_new : ℕ → ℕ → ℕ
cycle_for_new highest seq_num =
    if leb 0x8000 (seq_num -w bit_and highest 0xffff)
    then bit_and highest 0xffff0000 +w 0x10000
    else bit_and highest 0xffff0000

unfoldable pub cycle_for_old : ℕ → ℕ → ℕ
cycle_for_old highest seq_num =
    if leb 0x8000 (seq_num -w bit_and highest 0xffff)
    then bit_and highest 0xffff0000 -w 0x10000
    else bit_and highest 0xffff0000

-- The check of the sequence number, which the counts precede.
unfoldable pub check_seq_num : ReceptionStats → ℕ → ReceptionStats
check_seq_num s seq_num =
    if seq_num_lt (bit_and s.highest_ext_seq_num_received 0xffff) seq_num
    then note_new s (cycle_for_new s.highest_ext_seq_num_received seq_num) seq_num
    else if ltb 1 s.tot_num_packets_received
    then note_old s (cycle_for_old s.highest_ext_seq_num_received seq_num) seq_num
    else s

-- `noteIncomingPacket` down to the inter-packet delay.
unfoldable pub note_incoming_packet : ReceptionStats → ℕ → ℕ → ReceptionStats
note_incoming_packet s seq_num packet_size =
    check_seq_num
      (count_packet (if s.have_seen_initial_sequence_number then s else init_seq_num s seq_num)
        packet_size)
      seq_num

-- A run of packets: the numbers as the sender counts them, of which a packet carries the lower 16 bits,
-- and the sizes.
unfoldable pub note_all : ReceptionStats → List (ℕ × ℕ) → ReceptionStats
note_all s [] = s
note_all s ((e, size) ∷ packets) = note_all (note_incoming_packet s (e % 65536) size) packets
