-- ===== src/Rtcp/EncodedBlock.antt =====
-- The parser on the words of a sender's information and of one report block.
use mathlib.Core.List.{append-nil}
use dorsvr.Common.{
  ℕ, suc, ◌+◌, ◌-◌, ◌*◌, ◌^◌, ◌<◌, ◌≡◌, refl, ap, ◌∙◌, Bool-cases, inl, inr, List, [], ◌∷◌, ◌++◌,
  some, length, drop, length-append, ◌==◌, if◌then◌else◌, le→leb, arith, All,
}
use dorsvr.Binary.{put_uint32, big_endian_uint32}
use dorsvr.RtpPacket.{ntohl}
use dorsvr.Rtcp.{
  RtcpInstance, ReportBlock, Call, advance, take_word, read_sr, read_own_block, read_block, when,
}
use dorsvr.Rtcp.Spec
use dorsvr.Rtcp.Spec.{word_bytes}
use dorsvr.Rtcp.Blocks.{advance_lem, take_word_lem}

pub length-word_bytes : (ws : List ℕ) → length (word_bytes ws) ≡ 4 * length ws
unfolding put_uint32
length-word_bytes [] = refl
length-word_bytes (w ∷ ws) = omega (arith, length-word_bytes ws)

pub word_lem :
    (w : ℕ) (ws : List ℕ) → w < 2 ^ 32 → take_word (word_bytes (w ∷ ws)) ≡ some (w, word_bytes ws)
unfolding put_uint32 ntohl big_endian_uint32
word_lem w ws fits = take_word_lem _ (omega arith) ∙ ap (λ v. some (v, word_bytes ws)) (omega arith)

drop-word_bytes :
    (ws rest : List ℕ) → drop (4 * length ws) (word_bytes (ws ++ rest)) ≡ word_bytes rest
unfolding put_uint32
drop-word_bytes [] rest = refl
drop-word_bytes (w ∷ ws) rest =
    let e : 4 * suc (length ws) ≡ suc (suc (suc (suc (4 * length ws)))) = omega arith in
    rw e (drop-word_bytes ws rest)

pub advance-words :
    (ws rest : List ℕ) → advance (word_bytes (ws ++ rest)) (4 * length ws) ≡ some (word_bytes rest)
advance-words ws rest =
    advance_lem (word_bytes (ws ++ rest)) (4 * length ws)
      (omega (arith, length-word_bytes (ws ++ rest), length-append ws rest))
    ∙ ap (λ r. some r) (drop-word_bytes ws rest)

pub read_sr-words :
    (r : RtcpInstance) (reporter left : ℕ) (calls : List Call) (i : Spec.SenderInfo) (ws : List ℕ)
    → All (λ w. w < 2 ^ 32) (i.ntp_msw ∷ i.ntp_lsw ∷ i.rtp_timestamp ∷ [])
    → read_sr r reporter (record {
      rest =
          word_bytes
            (i.ntp_msw ∷ i.ntp_lsw ∷ i.rtp_timestamp ∷ i.packet_count ∷ i.octet_count ∷ ws);
      left = 20 + left;
      calls = calls;
    })
      ≡ some (record {
        rest = word_bytes ws;
        left = left;
        calls =
            calls
            ++ (when r.has_source
                  (Call.note_incoming_sr reporter i.ntp_msw i.ntp_lsw i.rtp_timestamp)
                ++ when r.has_sr_handler Call.sr_handler);
      })
unfolding read_sr
read_sr-words r reporter left calls i ws (h1, (h2, (h3, _))) =
    rw
      (
        le→leb 20 (20 + left) (omega arith),
        word_lem i.ntp_msw _ h1,
        word_lem i.ntp_lsw _ h2,
        word_lem i.rtp_timestamp _ h3,
        advance-words (i.packet_count ∷ i.octet_count ∷ []) ws,
        gone,
      )
      refl
  where
    gone : 20 + left - 20 ≡ left
    gone = omega arith

pub read_block-words :
    (ssrc reporter left : ℕ) (calls : List Call) (b : ReportBlock) (ws : List ℕ)
    → All (λ w. w < 2 ^ 32) (Spec.block_words b)
    → read_block ssrc reporter
        (record { rest = word_bytes (Spec.block_words b ++ ws); left = left; calls = calls })
      ≡ some (record {
        rest = word_bytes ws;
        left = left;
        calls =
            calls ++ (if b.source_ssrc == ssrc then Call.note_incoming_rr reporter b ∷ [] else []);
      })
unfolding read_block read_own_block
read_block-words ssrc reporter left calls b ws (h1, (h2, (h3, (h4, (h5, (h6, _)))))) =
    elim (Bool-cases (b.source_ssrc == ssrc)) [
      | inl own ↦
          rw
            (
              word_lem b.source_ssrc _ h1,
              own,
              word_lem b.loss_stats _ h2,
              word_lem b.highest_received _ h3,
              word_lem b.jitter _ h4,
              word_lem b.time_last_sr _ h5,
              word_lem b.time_since_last_sr _ h6,
            )
            refl
      | inr other ↦
          rw
            (
              word_lem b.source_ssrc _ h1,
              other,
              advance-words
                  (b.loss_stats ∷ b.highest_received ∷ b.jitter ∷ b.time_last_sr
                    ∷ b.time_since_last_sr ∷ [])
                  ws,
              append-nil calls,
            )
            refl
    ]
