-- ===== src/H264Framer/Moved.antt =====
-- livemedia/h264_video_stream_framer_linux_amd64.go: what the part of `parse` that saves a NAL unit
-- leaves in the reader's buffer, and what is left to parse.
use mathlib.Core.List.{append_assoc, append-nil}
use dorsvr.Common.{
  ℕ, suc, ◌+◌, ◌≤◌, ◌<◌, ◌≡◌, refl, sym, ap, subst, ◌∙◌, List, [], ◌∷◌, ◌++◌, some, length, take,
  arith, drop, drop-drop, take-set_end, ◌>>>◌, length-drop,
}
use dorsvr.StreamParser.{done}
use dorsvr.H264Framer.{
  MpegVideoStreamParser, H264VideoStreamParser, save_nal_unit, note_first_byte, in_video,
}
use dorsvr.H264Framer.Unread.{
  unread, IsReady, word_of, skipped-IsReady, unread-skipped, test4_bytes-word,
}
use dorsvr.H264Framer.Saved.{HasRoom, saved}
use dorsvr.H264Framer.Spec.{scan, Splits, code_length, scan-Splits, Splits-long}
use dorsvr.H264Framer.Rounds.{Bytes, moved, moved_over, moved-HasRoom, next-IsReady}
use dorsvr.H264Framer.Split.{past, unit_loop_lem, next-moved_one}

abbrev pub saved_bytes : MpegVideoStreamParser → List ℕ
saved_bytes p = take p.num_saved_bytes p.buff_to

moved_over-saved_bytes :
    (p : MpegVideoStreamParser) (n : List ℕ)
    → HasRoom p (length n)
    → saved_bytes (moved_over p n) ≡ saved_bytes p ++ n
moved_over-saved_bytes p [] room = sym (append-nil (saved_bytes p))
moved_over-saved_bytes p (b ∷ n) room =
    moved_over-saved_bytes (moved p b) n (moved-HasRoom p b (length n) room)
    ∙ ap (λ t. t ++ n)
        (take-set_end p.buff_to p.num_saved_bytes b
          (omega (arith, room.under_limit, room.limit_in)))
    ∙ append_assoc (saved_bytes p) (b ∷ []) n

moved_over-num_truncated_bytes :
    (p : MpegVideoStreamParser) (n : List ℕ)
    → (moved_over p n).num_truncated_bytes ≡ p.num_truncated_bytes
moved_over-num_truncated_bytes p [] = refl
moved_over-num_truncated_bytes p (b ∷ n) = moved_over-num_truncated_bytes (moved p b) n

moved_over-IsReady :
    (p : MpegVideoStreamParser) (n : List ℕ)
    → IsReady p.stream
    → length n ≤ length (unread p.stream)
    → IsReady (moved_over p n).stream
      × (unread (moved_over p n).stream ≡ drop (length n) (unread p.stream))
moved_over-IsReady p [] h le = (h, refl)
moved_over-IsReady p (b ∷ n) h le =
    let (ready, same) =
      subst
        (λ (z : MpegVideoStreamParser).
          IsReady z.stream × (unread z.stream ≡ drop 1 (unread p.stream)))
        (next-moved_one p b) (next-IsReady (saved p b) 1 h (omega arith)) in
    let (ready', same') =
      moved_over-IsReady (moved p b) n ready
        (omega (arith, ap length same, length-drop 1 (unread p.stream))) in
    (
      ready',
      same'
          ∙ ap (drop (length n)) same
          ∙ drop-drop 1 (length n) (unread p.stream)
          ∙ ap (λ t. drop t (unread p.stream)) (one_more (length n)),
    )
  where
    one_more : (k : ℕ) → 1 + k ≡ suc k
    one_more k = omega arith

Splits-fits : (l n : List ℕ) (k : ℕ) → Splits l n k → length n + k ≤ length l
Splits-fits [] n k s = absurd s
Splits-fits (a ∷ []) n k s = absurd s
Splits-fits (a ∷ b ∷ []) n k s = absurd s
Splits-fits (a ∷ b ∷ c ∷ []) n k s = absurd s
Splits-fits (a ∷ b ∷ c ∷ d ∷ r) [] k s = omega (arith, s.1, short c)
  where
    short : (c : ℕ) → code_length c ≤ 4
    short c = ground arith
Splits-fits (a ∷ b ∷ c ∷ d ∷ r) (x ∷ n) k s = omega (arith, Splits-fits (b ∷ c ∷ d ∷ r) n k s.2)

-- The part of `parse` that saves a NAL unit finds the start code that a search byte by byte finds.
-- When `n` lies before the next start code, of `k` bytes, in what is valid and not parsed, and
-- there is room for it, the code neither reads nor panics: it saves `n` behind what was saved, leaves
-- what is behind the start code to parse, and truncates nothing.
pub save_nal_unit-scan :
    (fuel k : ℕ) (n : List ℕ) (p : H264VideoStreamParser)
    → IsReady p.video.stream
    → Bytes (unread p.video.stream)
    → scan (unread p.video.stream) ≡ some (n, k)
    → HasRoom p.video (length n)
    → length n < fuel
    → (p' : H264VideoStreamParser) × (save_nal_unit fuel p ≡ done k p')
      × (saved_bytes p'.video ≡ saved_bytes p.video ++ n)
      × (unread p'.video.stream ≡ drop (length n + k) (unread p.video.stream))
      × IsReady p'.video.stream
      × (p'.video.num_truncated_bytes ≡ p.video.num_truncated_bytes)
unfolding save_nal_unit
save_nal_unit-scan fuel k n p h bs found room lt =
    let s = scan-Splits (unread p.video.stream) n k found in
    let (a, b, c, d, r, e) = Splits-long (unread p.video.stream) n k s in
    let fits = Splits-fits (unread p.video.stream) n k s in
    let (ready, left) = moved_over-IsReady p.video n h (omega arith) in
    let q = moved_over p.video n in
    let enough : k ≤ length (unread q.stream) =
      omega (arith, ap length left, length-drop (length n) (unread p.video.stream)) in
    (
      record (note_first_byte p (word_of a b c d >>> 24)) { video = past q k },
      rw (test4_bytes-word p.video.stream a b c d r h e) (
          ap (in_video (note_first_byte p (word_of a b c d >>> 24))) (
            unit_loop_lem fuel a b c d k r n p.video h e (subst Bytes e bs)
              (subst (λ t. Splits t n k) e s) room lt)),
      moved_over-saved_bytes p.video n room,
      unread-skipped q.stream k ready enough
          ∙ ap (drop k) left
          ∙ drop-drop (length n) k (unread p.video.stream),
      skipped-IsReady q.stream k ready enough,
      moved_over-num_truncated_bytes p.video n,
    )
