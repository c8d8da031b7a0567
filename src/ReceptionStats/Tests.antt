-- ===== src/ReceptionStats/Tests.antt =====
-- A source whose numbers wrap, with a packet out of order.
use dorsvr.Common.{ℕ, ◌%◌, ◌≡◌, refl, List, [], ◌∷◌, arith, true}
use dorsvr.ReceptionStats.{ReceptionStats, new_reception_stats, note_incoming_packet, note_all}
use dorsvr.ReceptionStats.Sequence.{InWindow, note_all-highest_of, late_packet-base}
use dorsvr.ReceptionStats.Octets.{octets, note_all-octets}

abbrev run : List (ℕ × ℕ)
run = (131071, 1400) ∷ (131074, 900) ∷ (131072, 1400) ∷ []

run-InWindow : InWindow 131070 run
run-InWindow = (
  omega arith,
  omega arith,
  omega arith,
  (omega arith, omega arith, omega arith, (omega arith, omega arith, omega arith, tt)),
)

note_all-highest_of_example :
    (note_all
      (new_reception_stats 7 (131070 % 65536))
      ((131070, 500) ∷ run)).highest_ext_seq_num_received
    ≡ 131074
note_all-highest_of_example =
    note_all-highest_of 7 131070 500 run (omega arith) (omega arith) run-InWindow

abbrev seen : ReceptionStats
seen = record {
  ssrc = 7;
  tot_num_packets_received = 3;
  tot_bytes_received_hi = 0;
  tot_bytes_received_lo = 4294967000;
  base_ext_seq_num_received = 65536;
  highest_ext_seq_num_received = 65539;
  last_reset_ext_seq_num_received = 65536;
  num_packets_received_since_last_reset = 3;
  have_seen_initial_sequence_number = true;
}

late_packet-base_example : (note_incoming_packet seen 2 1400).base_ext_seq_num_received ≡ 2
late_packet-base_example =
    late_packet-base seen 65538 1400 refl (omega arith) (omega arith) (omega arith) (omega arith)
      (omega arith) (omega arith) refl (omega arith) (omega arith)

note_all-octets_example : octets (note_all seen run) ≡ 4294970700
note_all-octets_example =
    note_all-octets seen run (omega arith) (omega arith, (omega arith, (omega arith, tt)))
      (omega arith)
