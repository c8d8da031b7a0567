-- ===== src/TransmissionStats.antt =====
-- livemedia/rtp_transmission_stats.go: what a sender keeps of each receiver's reports. The counts of the
-- sink and the clock are arguments of a report, and an address is a number.
pub mod Totals
mod Tests
use dorsvr.Common.{
  ℕ, ◌%◌, ◌^◌, Bool, true, false, Option, none, some, ltb, ◌==◌, if◌then◌else◌, bit_and, ◌+w◌, ◌-w◌,
  ◌>>>◌, Timeval, zero_time,
}

pub record TransmissionStats : Type 0 where
  pub ssrc : ℕ
  pub jitter : ℕ
  pub last_sr_time : ℕ
  pub diff_sr_rr_time : ℕ
  pub last_octet_count : ℕ
  pub last_packet_count : ℕ
  pub packet_loss_ratio : ℕ
  pub tot_num_packets_lost : ℕ
  pub total_octet_count_lo : ℕ
  pub total_octet_count_hi : ℕ
  pub total_packet_count_lo : ℕ
  pub total_packet_count_hi : ℕ
  pub last_packet_num_received : ℕ
  pub first_packet_num_reported : ℕ
  pub old_last_packet_num_received : ℕ
  pub old_tot_num_packets_lost : ℕ
  pub last_from_address : ℕ
  pub at_least_two_rrs_have_been_received : Bool
  pub first_packet : Bool
  pub time_created : Timeval
  pub time_received : Timeval

unfoldable pub new_transmission_stats : ℕ → TransmissionStats
new_transmission_stats ssrc = record {
  ssrc = ssrc;
  jitter = 0;
  last_sr_time = 0;
  diff_sr_rr_time = 0;
  last_octet_count = 0;
  last_packet_count = 0;
  packet_loss_ratio = 0;
  tot_num_packets_lost = 0;
  total_octet_count_lo = 0;
  total_octet_count_hi = 0;
  total_packet_count_lo = 0;
  total_packet_count_hi = 0;
  last_packet_num_received = 0;
  first_packet_num_reported = 0;
  old_last_packet_num_received = 0;
  old_tot_num_packets_lost = 0;
  last_from_address = 0;
  at_least_two_rrs_have_been_received = false;
  first_packet = false;
  time_created = zero_time;
  time_received = zero_time;
}

-- The numbers of a report block, and what the sink has sent when it comes.
pub record Report : Type 0 where
  pub from_address : ℕ
  pub loss_stats : ℕ
  pub last_packet_num : ℕ
  pub report_jitter : ℕ
  pub sr_time : ℕ
  pub sr_rr_time : ℕ
  pub octets_sent : ℕ
  pub packets_sent : ℕ
  pub now : Timeval

unfoldable pub note_order : TransmissionStats → Report → TransmissionStats
note_order s r =
    if s.first_packet
    then record s { first_packet = false; first_packet_num_reported = r.last_packet_num }
    else record s {
      at_least_two_rrs_have_been_received = true;
      old_last_packet_num_received = s.last_packet_num_received;
      old_tot_num_packets_lost = s.tot_num_packets_lost;
    }

unfoldable pub note_block : TransmissionStats → Report → TransmissionStats
note_block s r = record s {
  time_received = r.now;
  last_from_address = r.from_address;
  packet_loss_ratio = r.loss_stats >>> 24;
  tot_num_packets_lost = bit_and r.loss_stats 0xff_ffff;
  last_packet_num_received = r.last_packet_num;
  jitter = r.report_jitter;
  last_sr_time = r.sr_time;
  diff_sr_rr_time = r.sr_rr_time;
}

-- A total of two words goes up by a difference: the words are the low and the high one.
unfoldable pub add_to_lo : ℕ → ℕ → ℕ
add_to_lo lo diff = lo +w diff

unfoldable pub carry_to_hi : ℕ → ℕ → ℕ → ℕ
carry_to_hi hi lo diff = if ltb (lo +w diff) lo then hi +w 1 else hi

unfoldable pub note_totals : TransmissionStats → Report → TransmissionStats
note_totals s r =
    let octet_diff = (r.octets_sent % 2 ^ 32) -w s.last_octet_count in
    let packet_diff = (r.packets_sent % 2 ^ 32) -w s.last_packet_count in
    record s {
      last_octet_count = r.octets_sent % 2 ^ 32;
      total_octet_count_lo = add_to_lo s.total_octet_count_lo octet_diff;
      total_octet_count_hi = carry_to_hi s.total_octet_count_hi s.total_octet_count_lo octet_diff;
      last_packet_count = r.packets_sent % 2 ^ 32;
      total_packet_count_lo = add_to_lo s.total_packet_count_lo packet_diff;
      total_packet_count_hi =
          carry_to_hi s.total_packet_count_hi s.total_packet_count_lo packet_diff;
    }

unfoldable pub note_incoming_rr : TransmissionStats → Report → TransmissionStats
note_incoming_rr s r = note_totals (note_block (note_order s r) r) r

-- The table of receivers, by their SSRC.
abbrev pub TransmissionStatsDb : Type 0
TransmissionStatsDb = ℕ → Option TransmissionStats

unfoldable pub add : TransmissionStatsDb → ℕ → TransmissionStats → TransmissionStatsDb
add table ssrc s k = if k == ssrc then some s else table k

unfoldable pub lookup_or_new : TransmissionStatsDb → ℕ → TransmissionStats
lookup_or_new table ssrc = elim (table ssrc) [ none ↦ new_transmission_stats ssrc | some s ↦ s ]

-- The entry is changed in place, or a new one is added.
unfoldable pub note_rr_of : TransmissionStatsDb → ℕ → Report → TransmissionStatsDb
note_rr_of table ssrc r = add table ssrc (note_incoming_rr (lookup_or_new table ssrc) r)
