-- ===== src/TransmissionStats/Tests.antt =====
-- Reports at concrete inputs.
use dorsvr.Common.{ℕ, List, [], ◌∷◌, ◌≡◌, refl, arith, zero_time, none, true}
use dorsvr.TransmissionStats.{
  Report, new_transmission_stats, note_order, note_block, note_totals, note_incoming_rr, add_to_lo,
  carry_to_hi, note_rr_of, add,
}
use dorsvr.TransmissionStats.Totals.{Agrees, Grows, note_reports, note_reports-totals}

abbrev report_at : ℕ → ℕ → Report
report_at octets packets = record {
  from_address = 9;
  loss_stats = 0x0200_0005;
  last_packet_num = 70;
  report_jitter = 3;
  sr_time = 0;
  sr_rr_time = 0;
  octets_sent = octets;
  packets_sent = packets;
  now = zero_time;
}

abbrev two_reports : List Report
two_reports = report_at 4000000000 1000 ∷ report_at 5000000000 2000 ∷ []

new-Agrees : Agrees (new_transmission_stats 7) 0 0
unfolding new_transmission_stats
new-Agrees = record {
  octets_eq = refl;
  packets_eq = refl;
  last_octets = refl;
  last_packets = refl;
  octets_lo = omega arith;
  packets_lo = omega arith;
}

two_reports-Grows : Grows 0 0 two_reports
two_reports-Grows = (
  omega arith,
  omega arith,
  omega arith,
  omega arith,
  omega arith,
  omega arith,
  (omega arith, omega arith, omega arith, omega arith, omega arith, omega arith, _),
)

note_reports-totals_example :
    Agrees (note_reports (new_transmission_stats 7) two_reports) 5000000000 2000
note_reports-totals_example =
    note_reports-totals (new_transmission_stats 7) 0 0 two_reports new-Agrees two_reports-Grows

high_word : (note_reports (new_transmission_stats 7) two_reports).total_octet_count_hi ≡ 1
unfolding note_reports note_incoming_rr note_order note_block note_totals add_to_lo carry_to_hi
    new_transmission_stats
high_word = refl

first_counts_as_second :
    (note_incoming_rr
      (new_transmission_stats 7)
      (report_at 1 1)).at_least_two_rrs_have_been_received
    ≡ true
unfolding note_incoming_rr note_order note_block note_totals new_transmission_stats
first_counts_as_second = refl

other_kept : note_rr_of (λ k. none) 7 (report_at 1 1) 8 ≡ none
unfolding note_rr_of add
other_kept = refl
