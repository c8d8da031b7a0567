-- ===== src/Rtcp/RoundTrip.antt =====
-- The parser on a whole compound packet of RFC 3550.
use dorsvr.Common.{
  ℕ, zero, suc, ◌+◌, ◌-◌, ◌*◌, ◌/◌, ◌^◌, ◌≤◌, ◌<◌, ◌≡◌, refl, ap, ◌∙◌, Bool, true, List, [], ◌∷◌,
  ◌++◌, some, length, length-append, ◌==◌, ne→==, ==→eq, arith, le→ltb, bit_and, ◌>>>◌, All,
  if◌then◌else◌, false, Bool-cases, inl, inr, ℕ_discrete,
}
use dorsvr.Common.Bits.{bit_and_low, bit_and_field}
use dorsvr.Binary.{put_uint32, big_endian_uint32}
use dorsvr.RtpPacket.{ntohl}
use dorsvr.Rtcp.{
  RtcpInstance, Progress, Outcome, finished, start, advance, next_header, round, rounds,
  process_incoming_report, say_bye,
}
use dorsvr.Rtcp.Spec.{
  Report, WellFormed, OpensWithReport, header, header_of, compound_words, word_bytes, body_words,
  ssrc_of, packet_type, count_of, behind, behind_reports,
}
use dorsvr.Rtcp.Encoded.{read_subpacket-words, checked, rest_behind, left_behind}
use dorsvr.Rtcp.EncodedBlock.{length-word_bytes, word_lem, advance-words}

module _ (count pt words : ℕ) (c : count < 32) (t : pt < 256) (l : words < 2 ^ 16) where
  abbrev hdr : ℕ
  hdr = header count pt words

  pub length_field : bit_and (header count pt words) 0xffff ≡ words
  length_field = bit_and_low 16 (header count pt words) ∙ omega arith

  pub type_field : bit_and (header count pt words >>> 16) 0xff ≡ pt
  type_field = bit_and_low 8 (header count pt words / 2 ^ 16) ∙ omega arith

  pub count_field : bit_and (header count pt words >>> 24) 0x1f ≡ count
  count_field = bit_and_low 5 (header count pt words / 2 ^ 24) ∙ omega arith

  pub version_field : bit_and (header count pt words) 0xc0000000 ≡ 0x80000000
  version_field = omega (
    arith,
    bit_and_field 30 (header count pt words) 3,
    bit_and_low 2 (header count pt words / 2 ^ 30),
  )

-- The mask of the first header, for every count of blocks.
mask_keeps : ℕ → Bool
mask_keeps count = bit_and (16484 + count * 128) 0x707f == 16484

counts_kept : ℕ → Bool
counts_kept zero = true
counts_kept (suc counts) = if mask_keeps counts then counts_kept counts else false

counts_kept_below :
    (counts count : ℕ) → counts_kept counts ≡ true → count < counts → mask_keeps count ≡ true
unfolding counts_kept
counts_kept_below zero count h lt = absurd (omega arith)
counts_kept_below (suc counts) count h lt = elim (Bool-cases (mask_keeps counts)) [
  | inl kept ↦ elim (ℕ_discrete count counts) [
    | yes e ↦ rw e kept
    | no ne ↦ counts_kept_below counts count (rw kept at h) (omega arith)
  ]
  | inr lost ↦ let f : false ≡ true = rw lost at h in cc
]

report_mask : counts_kept 32 ≡ true
unfolding counts_kept mask_keeps
report_mask = refl

report_field :
    (count pt words : ℕ)
    → count < 32
    → 200 ≤ pt
    → pt < 202
    → words < 2 ^ 16
    → bit_and (header count pt words) 0xe0fe0000 ≡ 0x80c80000
unfolding mask_keeps
report_field count pt words c lo hi l =
    bit_and_field 17 (header count pt words) 0x707f
    ∙ ap (λ n. bit_and n 0x707f * 2 ^ 17) high
    ∙ ap (λ n. n * 2 ^ 17) (==→eq _ _ (counts_kept_below 32 count report_mask c))
  where
    high : header count pt words / 2 ^ 17 ≡ 16484 + count * 128
    high = omega arith

ntohl-word : (w : ℕ) (ws : List ℕ) → w < 2 ^ 32 → ntohl (word_bytes (w ∷ ws)) ≡ w
unfolding ntohl put_uint32 big_endian_uint32
ntohl-word w ws fits = omega arith

header_fits :
    (count pt words : ℕ) → count < 32 → pt < 256 → words < 2 ^ 16 → header count pt words < 2 ^ 32
header_fits count pt words c t l = omega arith

advance_left :
    (report : Report) (ws : List ℕ)
    → advance (word_bytes (rest_behind report ws)) (left_behind report) ≡ some (word_bytes ws)
advance_left (Report.other count pt ssrc words) ws = advance-words words ws
advance_left (Report.sender ssrc info bs) ws = advance-words [] ws
advance_left (Report.receiver ssrc bs) ws = advance-words [] ws
advance_left (Report.goodbye ssrc) ws = advance-words [] ws

module _ (r : RtcpInstance) (report : Report) (wf : WellFormed report) where
  abbrev size : ℕ
  size = length (body_words report)

  round-words :
      (go_on : ℕ → List ℕ → Progress → Outcome) (ws : List ℕ) (p : Progress)
      → round r go_on
          (header_of report)
          (word_bytes (header_of report ∷ ssrc_of report ∷ (body_words report ++ ws)))
          p
        ≡ next_header go_on
            (checked r report (record p { report_sender_ssrc = ssrc_of report }) p.calls ws)
  unfolding round
  round-words go_on ws p =
      let words : 4 * (1 + size) - 4 ≡ 4 * size = omega arith in
      rw
        (
          length_field (count_of report) (packet_type report) (1 + size) wf.count_fits wf.type_fits
              wf.length_fits,
          type_field (count_of report) (packet_type report) (1 + size) wf.count_fits wf.type_fits
              wf.length_fits,
          count_field (count_of report) (packet_type report) (1 + size) wf.count_fits wf.type_fits
              wf.length_fits,
          advance-words (header_of report ∷ []) (ssrc_of report ∷ (body_words report ++ ws)),
          le→ltb (4 * (1 + size)) (length (word_bytes (ssrc_of report ∷ (body_words report ++ ws))))
              (omega (
                arith,
                length-word_bytes (ssrc_of report ∷ (body_words report ++ ws)),
                length-append (body_words report) ws,
              )),
          le→ltb 4 (4 * (1 + size)) (omega arith),
          word_lem (ssrc_of report) (body_words report ++ ws) wf.ssrc_fits,
          words,
          read_subpacket-words r report (record p { report_sender_ssrc = ssrc_of report }) p.calls
              ws wf.words_fit wf.is_other,
        )
        refl

  next_header_end :
      (go_on : ℕ → List ℕ → Progress → Outcome) (p : Progress)
      → next_header go_on
          (checked r report (record p { report_sender_ssrc = ssrc_of report }) p.calls [])
        ≡ finished true (behind r p report)
  unfolding next_header
  next_header_end go_on p = rw (advance_left report []) refl

  next_header-word :
      (go_on : ℕ → List ℕ → Progress → Outcome) (count pt words : ℕ) (ws : List ℕ) (p : Progress)
      → count < 32
      → pt < 256
      → words < 2 ^ 16
      → next_header go_on (
          checked r report
            (record p { report_sender_ssrc = ssrc_of report })
            p.calls
            (header count pt words ∷ ws))
        ≡ go_on
            (header count pt words)
            (word_bytes (header count pt words ∷ ws))
            (behind r p report)
  unfolding next_header
  next_header-word go_on count pt words ws p c t l =
      rw
        (
          advance_left report (header count pt words ∷ ws),
          ne→== (length (word_bytes (header count pt words ∷ ws))) 0
              (λ e. omega (arith, length-word_bytes (header count pt words ∷ ws))),
          le→ltb 4 (length (word_bytes (header count pt words ∷ ws)))
              (omega (arith, length-word_bytes (header count pt words ∷ ws))),
          ntohl-word (header count pt words) ws (header_fits count pt words c t l),
          version_field count pt words c t l,
        )
        refl

rounds-words :
    (r : RtcpInstance) (fuel : ℕ) (report : Report) (reports : List Report) (p : Progress)
    → length reports < fuel
    → All WellFormed (report ∷ reports)
    → rounds r fuel (header_of report) (word_bytes (compound_words (report ∷ reports))) p
      ≡ finished true (behind_reports r p (report ∷ reports))
unfolding rounds
rounds-words r zero report reports p enough wf = absurd (omega arith)
rounds-words r (suc fuel) report [] p enough (wf, _) =
    round-words r report wf (rounds r fuel) [] p ∙ next_header_end r report wf (rounds r fuel) p
rounds-words r (suc fuel) report (next ∷ reports) p enough (wf, (wf', wfs)) =
    round-words r report wf (rounds r fuel) (compound_words (next ∷ reports)) p
    ∙ next_header-word r report wf (rounds r fuel) (count_of next) (packet_type next)
        (1 + length (body_words next)) (ssrc_of next ∷ (body_words next ++ compound_words reports))
        p wf'.count_fits wf'.type_fits wf'.length_fits
    ∙ rounds-words r fuel next reports (behind r p report) (omega arith) (wf', wfs)

opens_type :
    (report : Report) (reports : List Report)
    → OpensWithReport (report ∷ reports)
    → (200 ≤ packet_type report) × (packet_type report < 202)
opens_type (Report.sender ssrc info bs) reports h = (omega arith, omega arith)
opens_type (Report.receiver ssrc bs) reports h = (omega arith, omega arith)
opens_type (Report.goodbye ssrc) reports h = absurd h
opens_type (Report.other count pt ssrc words) reports h = absurd h

compound_length : (reports : List Report) → length reports ≤ length (compound_words reports)
compound_length [] = omega arith
compound_length (report ∷ reports) =
    omega
      (arith, compound_length reports, length-append (body_words report) (compound_words reports))

-- A compound packet of well-formed subpackets that opens with a report passes, and makes exactly the calls of
-- its subpackets, in their order: the sender's information of each sender report for a source, the handlers, and
-- the report blocks about the sink's own SSRC; behind them stands the call of the handler of a goodbye, if one came.
pub process_incoming_report-compound :
    (r : RtcpInstance) (report : Report) (reports : List Report)
    → OpensWithReport (report ∷ reports)
    → All WellFormed (report ∷ reports)
    → process_incoming_report r (word_bytes (compound_words (report ∷ reports)))
      ≡ say_bye r (finished true (behind_reports r start (report ∷ reports)))
unfolding process_incoming_report
process_incoming_report-compound r report reports opens wf =
    rw
      (
        le→ltb 4 (length (word_bytes (compound_words (report ∷ reports))))
            (omega (arith, length-word_bytes (compound_words (report ∷ reports)))),
        ntohl-word (header_of report)
            (ssrc_of report ∷ (body_words report ++ compound_words reports))
            (header_fits (count_of report) (packet_type report) (1 + length (body_words report))
              wf.0.count_fits wf.0.type_fits wf.0.length_fits),
        report_field (count_of report) (packet_type report) (1 + length (body_words report))
            wf.0.count_fits (opens_type report reports opens).0 (opens_type report reports opens).1
            wf.0.length_fits,
        rounds-words r (length (word_bytes (compound_words (report ∷ reports)))) report reports
            start
            (omega (
              arith,
              length-word_bytes (compound_words (report ∷ reports)),
              compound_length (report ∷ reports),
            ))
            wf,
      )
      refl
