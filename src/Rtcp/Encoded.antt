-- ===== src/Rtcp/Encoded.antt =====
-- The parser on a compound packet of RFC 3550.
use mathlib.Core.List.{append_assoc, append-nil}
use dorsvr.Common.{
  ℕ, ◌+◌, ◌-◌, ◌*◌, ◌^◌, ◌<◌, ◌≡◌, refl, ap, ◌∙◌, true, List, [], ◌∷◌, ◌++◌, Option, none, some,
  ◌>>=◌, length, ◌==◌, ne→==, if◌then◌else◌, le→leb, arith, All,
}
use dorsvr.Rtcp.{
  RtcpInstance, ReportBlock, Call, Progress, Checked, PacketType, read_blocks, read_all_blocks,
  read_rr, read_subpacket, when,
}
use dorsvr.Rtcp.Spec
use dorsvr.Rtcp.Spec.{word_bytes}
use dorsvr.Rtcp.EncodedBlock.{advance-words, read_sr-words, read_block-words}

length-blocks_words : (bs : List ReportBlock) → length (Spec.blocks_words bs) ≡ 6 * length bs
length-blocks_words [] = refl
length-blocks_words (b ∷ bs) = omega (arith, length-blocks_words bs)

read_blocks-words :
    (ssrc reporter left : ℕ) (calls : List Call) (bs : List ReportBlock) (ws : List ℕ)
    → All (λ w. w < 2 ^ 32) (Spec.blocks_words bs)
    → read_blocks ssrc reporter
        (length bs)
        (record { rest = word_bytes (Spec.blocks_words bs ++ ws); left = left; calls = calls })
      ≡ some (record {
        rest = word_bytes ws;
        left = left;
        calls = calls ++ Spec.block_calls (some ssrc) reporter bs;
      })
unfolding read_blocks
read_blocks-words ssrc reporter left calls [] ws h = rw (append-nil calls) refl
read_blocks-words ssrc reporter left calls (b ∷ bs) ws (h1, (h2, (h3, (h4, (h5, (h6, hs)))))) =
    ap (λ m. m >>= λ t. read_blocks ssrc reporter (length bs) t)
      (read_block-words ssrc reporter left calls b (Spec.blocks_words bs ++ ws)
        (h1, (h2, (h3, (h4, (h5, (h6, tt)))))))
    ∙ read_blocks-words ssrc reporter left
        (calls ++ (if b.source_ssrc == ssrc then Call.note_incoming_rr reporter b ∷ [] else [])) bs
        ws hs
    ∙ ap (λ cs. some (record { rest = word_bytes ws; left = left; calls = cs }))
        (append_assoc calls _ _)

read_all_blocks-words :
    (sink : Option ℕ) (reporter left : ℕ) (calls : List Call) (bs : List ReportBlock) (ws : List ℕ)
    → All (λ w. w < 2 ^ 32) (Spec.blocks_words bs)
    → read_all_blocks sink reporter
        (length bs)
        (record { rest = word_bytes (Spec.blocks_words bs ++ ws); left = left; calls = calls })
      ≡ some (record {
        rest = word_bytes ws;
        left = left;
        calls = calls ++ Spec.block_calls sink reporter bs;
      })
unfolding read_all_blocks
read_all_blocks-words (some ssrc) reporter left calls bs ws h =
    read_blocks-words ssrc reporter left calls bs ws h
read_all_blocks-words none reporter left calls bs ws h =
    let size : length bs * 24 ≡ 4 * length (Spec.blocks_words bs) =
      omega (arith, length-blocks_words bs) in
    rw (size, advance-words (Spec.blocks_words bs) ws, append-nil calls) refl

-- A receiver report, or a sender report behind the sender's information.
read_rr-words :
    (r : RtcpInstance) (reporter pt : ℕ) (p : Progress) (calls : List Call) (bs : List ReportBlock)
    (ws : List ℕ)
    → All (λ w. w < 2 ^ 32) (Spec.blocks_words bs)
    → read_rr r reporter pt (length bs) p (record {
      rest = word_bytes (Spec.blocks_words bs ++ ws);
      left = 4 * length (Spec.blocks_words bs);
      calls = calls;
    })
      ≡ some (record {
        subpacket = record {
          rest = word_bytes ws;
          left = 0;
          calls =
              (calls ++ Spec.block_calls r.sink_ssrc reporter bs)
              ++ (if pt == 201 then when r.has_rr_handler Call.rr_handler else []);
        };
        progress = record p { type_of_packet = PacketType.rtcp_report };
        sub_packet_ok = true;
      })
unfolding read_rr
read_rr-words r reporter pt p calls bs ws h =
    let none_left : 4 * length (Spec.blocks_words bs) - length bs * 24 ≡ 0 =
      omega (arith, length-blocks_words bs) in
    rw
      (
        le→leb (length bs * 24) (4 * length (Spec.blocks_words bs))
            (omega (arith, length-blocks_words bs)),
        none_left,
        read_all_blocks-words r.sink_ssrc reporter 0 calls bs ws h,
      )
      refl

-- What a subpacket leaves of the packet, and of itself.
abbrev pub rest_behind : Spec.Report → List ℕ → List ℕ
rest_behind (Spec.other count pt ssrc words) ws = words ++ ws
rest_behind (Spec.sender ssrc info bs) ws = ws
rest_behind (Spec.receiver ssrc bs) ws = ws
rest_behind (Spec.goodbye ssrc) ws = ws

abbrev pub left_behind : Spec.Report → ℕ
left_behind (Spec.other count pt ssrc words) = 4 * length words
left_behind (Spec.sender ssrc info bs) = 0
left_behind (Spec.receiver ssrc bs) = 0
left_behind (Spec.goodbye ssrc) = 0

abbrev pub checked : RtcpInstance → Spec.Report → Progress → List Call → List ℕ → Checked
checked r report p calls ws = record {
  subpacket = record {
    rest = word_bytes (rest_behind report ws);
    left = left_behind report;
    calls = calls ++ Spec.calls_of r report;
  };
  progress = record p {
    type_of_packet = Spec.type_behind p.type_of_packet report;
    call_bye_handler = Spec.bye_behind p.call_bye_handler report;
  };
  sub_packet_ok = true;
}

pub read_subpacket-words :
    (r : RtcpInstance) (report : Spec.Report) (p : Progress) (calls : List Call) (ws : List ℕ)
    → All (λ w. w < 2 ^ 32) (Spec.body_words report)
    → Spec.IsOther report
    → read_subpacket r
        (Spec.ssrc_of report)
        (Spec.packet_type report)
        (Spec.count_of report)
        p
        (record {
          rest = word_bytes (Spec.body_words report ++ ws);
          left = 4 * length (Spec.body_words report);
          calls = calls;
        })
      ≡ some (checked r report p calls ws)
unfolding read_subpacket
read_subpacket-words r (Spec.sender ssrc i bs) p calls ws (h1, (h2, (h3, (h4, (h5, hs))))) tt =
    let size : 4 * length (Spec.body_words (Spec.sender ssrc i bs))
        ≡ 20 + 4 * length (Spec.blocks_words bs) =
      omega arith in
    rw
      (
        size,
        read_sr-words r ssrc (4 * length (Spec.blocks_words bs)) calls i
            (Spec.blocks_words bs ++ ws) (h1, (h2, (h3, tt))),
        read_rr-words r ssrc 200 p
            (calls
              ++ (when r.has_source (Call.note_incoming_sr ssrc i.ntp_msw i.ntp_lsw i.rtp_timestamp)
                  ++ when r.has_sr_handler Call.sr_handler))
            bs ws hs,
      )
      (simp (append-nil, append_assoc))
read_subpacket-words r (Spec.receiver ssrc bs) p calls ws hs tt =
    rw
      (
        read_rr-words r ssrc 201 p calls bs ws hs,
        append_assoc calls (Spec.block_calls r.sink_ssrc ssrc bs)
            (when r.has_rr_handler Call.rr_handler),
      )
      refl
read_subpacket-words r (Spec.goodbye ssrc) p calls ws hs tt = rw (append-nil calls) refl
read_subpacket-words r (Spec.other count pt ssrc words) p calls ws hs (sr, rr, bye) =
    rw (ne→== pt 200 sr, ne→== pt 201 rr, ne→== pt 203 bye, append-nil calls) refl
