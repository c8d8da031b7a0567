-- ===== src/Rtcp/Spec.antt =====
-- RFC 3550 without the code: the words of a compound packet, and what a receiver of it does.
use dorsvr.Common.{
  ℕ, ◌+◌, ◌*◌, ◌^◌, ◌<◌, ◌≢◌, Bool, true, List, [], ◌∷◌, ◌++◌, Option, none, some, length, ◌==◌,
  if◌then◌else◌, All,
}
use dorsvr.Binary.{put_uint32}
use dorsvr.Rtcp.{
  RtcpInstance, ReportBlock, Call, note_incoming_sr, note_incoming_rr, sr_handler, rr_handler,
  PacketType, rtcp_report, bye, Progress, when,
}

-- The sender's information of a sender report.
pub record SenderInfo : Type 0 where
  pub ntp_msw : ℕ
  pub ntp_lsw : ℕ
  pub rtp_timestamp : ℕ
  pub packet_count : ℕ
  pub octet_count : ℕ

pub data Report : Type 0 where
  sender : (ssrc : ℕ) → SenderInfo → List ReportBlock → Report
  receiver : (ssrc : ℕ) → List ReportBlock → Report
  goodbye : (ssrc : ℕ) → Report
  other : (count pt ssrc : ℕ) (words : List ℕ) → Report

-- Words of 32 bits, big endian.
abbrev pub word_bytes : List ℕ → List ℕ
word_bytes [] = []
word_bytes (w ∷ ws) = put_uint32 w ++ word_bytes ws

-- Version 2, no padding, and the length in words behind the header.
abbrev pub header : (count pt words : ℕ) → ℕ
header count pt words = 2 ^ 31 + count * 2 ^ 24 + pt * 2 ^ 16 + words

abbrev pub block_words : ReportBlock → List ℕ
block_words b =
    b.source_ssrc ∷ b.loss_stats ∷ b.highest_received ∷ b.jitter ∷ b.time_last_sr
    ∷ b.time_since_last_sr ∷ []

abbrev pub blocks_words : List ReportBlock → List ℕ
blocks_words [] = []
blocks_words (b ∷ bs) = block_words b ++ blocks_words bs

abbrev pub count_of : Report → ℕ
count_of (sender ssrc info blocks) = length blocks
count_of (receiver ssrc blocks) = length blocks
count_of (goodbye ssrc) = 1
count_of (other count pt ssrc words) = count

abbrev pub packet_type : Report → ℕ
packet_type (sender ssrc info blocks) = 200
packet_type (receiver ssrc blocks) = 201
packet_type (goodbye ssrc) = 203
packet_type (other count pt ssrc words) = pt

abbrev pub ssrc_of : Report → ℕ
ssrc_of (sender ssrc info blocks) = ssrc
ssrc_of (receiver ssrc blocks) = ssrc
ssrc_of (goodbye ssrc) = ssrc
ssrc_of (other count pt ssrc words) = ssrc

-- What stands behind the SSRC.
abbrev pub body_words : Report → List ℕ
body_words (sender ssrc info blocks) =
    info.ntp_msw
    ∷ info.ntp_lsw
    ∷ info.rtp_timestamp
    ∷ info.packet_count
    ∷ info.octet_count
    ∷ blocks_words blocks
body_words (receiver ssrc blocks) = blocks_words blocks
body_words (goodbye ssrc) = []
body_words (other count pt ssrc words) = words

abbrev pub header_of : Report → ℕ
header_of report = header (count_of report) (packet_type report) (1 + length (body_words report))

abbrev pub compound_words : List Report → List ℕ
compound_words [] = []
compound_words (report ∷ reports) =
    header_of report ∷ ssrc_of report ∷ (body_words report ++ compound_words reports)

-- The blocks about the sink's own transmission are told to its statistics.
abbrev pub block_calls : Option ℕ → ℕ → List ReportBlock → List Call
block_calls none reporter bs = []
block_calls (some ssrc) reporter [] = []
block_calls (some ssrc) reporter (b ∷ bs) =
    (if b.source_ssrc == ssrc then note_incoming_rr reporter b ∷ [] else [])
    ++ block_calls (some ssrc) reporter bs

abbrev pub calls_of : RtcpInstance → Report → List Call
calls_of r (sender ssrc info blocks) =
    when r.has_source (note_incoming_sr ssrc info.ntp_msw info.ntp_lsw info.rtp_timestamp)
    ++ (when r.has_sr_handler sr_handler ++ block_calls r.sink_ssrc ssrc blocks)
calls_of r (receiver ssrc blocks) =
    block_calls r.sink_ssrc ssrc blocks ++ when r.has_rr_handler rr_handler
calls_of r (goodbye ssrc) = []
calls_of r (other count pt ssrc words) = []

abbrev pub type_behind : PacketType → Report → PacketType
type_behind t (sender ssrc info blocks) = rtcp_report
type_behind t (receiver ssrc blocks) = rtcp_report
type_behind t (goodbye ssrc) = bye
type_behind t (other count pt ssrc words) = t

abbrev pub bye_behind : Bool → Report → Bool
bye_behind b (goodbye ssrc) = true
bye_behind b (sender ssrc info blocks) = b
bye_behind b (receiver ssrc blocks) = b
bye_behind b (other count pt ssrc words) = b

abbrev pub behind : RtcpInstance → Progress → Report → Progress
behind r p report = record {
  calls = p.calls ++ calls_of r report;
  type_of_packet = type_behind p.type_of_packet report;
  call_bye_handler = bye_behind p.call_bye_handler report;
  report_sender_ssrc = ssrc_of report;
}

abbrev pub behind_reports : RtcpInstance → Progress → List Report → Progress
behind_reports r p [] = p
behind_reports r p (report ∷ reports) = behind_reports r (behind r p report) reports

-- The fields fit their bits, and another packet type than the three that are read is anything else.
abbrev pub IsOther : Report → Type 0
IsOther (other count pt ssrc words) = (pt ≢ 200) × (pt ≢ 201) × (pt ≢ 203)
IsOther _ = Unit {0}

pub record WellFormed (report : Report) : Type 0 where
  pub count_fits : count_of report < 32
  pub type_fits : packet_type report < 256
  pub length_fits : 1 + length (body_words report) < 2 ^ 16
  pub ssrc_fits : ssrc_of report < 2 ^ 32
  pub words_fit : All (λ w. w < 2 ^ 32) (body_words report)
  pub is_other : IsOther report

-- A compound packet opens with a report.
abbrev pub OpensWithReport : List Report → Type 0
OpensWithReport (sender ssrc info blocks ∷ reports) = Unit {0}
OpensWithReport (receiver ssrc blocks ∷ reports) = Unit {0}
OpensWithReport _ = ⊥
