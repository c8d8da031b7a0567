-- ===== src/Rtcp/Tests.antt =====
-- Compound packets at concrete inputs.
use dorsvr.Common.{ℕ, Bool, true, false, some, List, [], ◌∷◌, ◌≡◌, refl, arith}
use dorsvr.Binary.{big_endian_uint32}
use dorsvr.RtpPacket.{ntohl}
use dorsvr.Rtcp.{
  RtcpInstance, ReportBlock, Call, Progress, PacketType, finished, start, advance, round, rounds,
  process_incoming_report,
}
use dorsvr.Rtcp.Spec.{Report, WellFormed, compound_words, word_bytes}
use dorsvr.Rtcp.Totality.{process_incoming_report_total}
use dorsvr.Rtcp.RoundTrip.{process_incoming_report-compound}

abbrev sink_7 : RtcpInstance
sink_7 = record {
  has_source = false;
  sink_ssrc = some 7;
  has_sr_handler = false;
  has_rr_handler = true;
  has_bye_handler = true;
}

abbrev block_of : ℕ → ReportBlock
block_of ssrc = record {
  source_ssrc = ssrc;
  loss_stats = 5;
  highest_received = 70000;
  jitter = 3;
  time_last_sr = 1;
  time_since_last_sr = 2;
}

abbrev two_reports : List Report
two_reports = Report.receiver 9 (block_of 7 ∷ block_of 8 ∷ []) ∷ Report.goodbye 9 ∷ []

receiver-WellFormed : WellFormed (Report.receiver 9 (block_of 7 ∷ block_of 8 ∷ []))
receiver-WellFormed = record {
  count_fits = omega arith;
  type_fits = omega arith;
  length_fits = omega arith;
  ssrc_fits = omega arith;
  words_fit = omega arith;
  is_other = tt;
}

goodbye-WellFormed : WellFormed (Report.goodbye 9)
goodbye-WellFormed = record {
  count_fits = omega arith;
  type_fits = omega arith;
  length_fits = omega arith;
  ssrc_fits = omega arith;
  words_fit = tt;
  is_other = tt;
}

process_incoming_report-compound_example :
    process_incoming_report sink_7 (word_bytes (compound_words two_reports))
    ≡ finished true (record {
      calls = Call.note_incoming_rr 9 (block_of 7) ∷ Call.rr_handler ∷ Call.bye_handler ∷ [];
      type_of_packet = PacketType.bye;
      call_bye_handler = true;
      report_sender_ssrc = 9;
    })
process_incoming_report-compound_example =
    process_incoming_report-compound sink_7 (Report.receiver 9 (block_of 7 ∷ block_of 8 ∷ []))
      (Report.goodbye 9 ∷ []) tt (receiver-WellFormed, (goodbye-WellFormed, tt))

process_incoming_report_total_example :
    (packet_ok : Bool) × (p : Progress) × (process_incoming_report sink_7
        (0x81 ∷ 201 ∷ 0 ∷ 7 ∷ 0 ∷ 0 ∷ 0 ∷ 9 ∷ [])
      ≡ finished packet_ok p)
process_incoming_report_total_example =
    process_incoming_report_total sink_7 (0x81 ∷ 201 ∷ 0 ∷ 7 ∷ 0 ∷ 0 ∷ 0 ∷ 9 ∷ [])

-- A length that the packet does not have.
cut_off :
    process_incoming_report sink_7 (0x81 ∷ 201 ∷ 0 ∷ 7 ∷ 0 ∷ 0 ∷ 0 ∷ 9 ∷ []) ≡ finished false start
unfolding process_incoming_report rounds round ntohl big_endian_uint32 advance
cut_off = refl
