-- ===== src/H264Framer/Split.antt =====
-- livemedia/h264_video_stream_framer_linux_amd64.go: the loop of `parse` that saves a NAL unit
-- finds the start code that a search byte by byte finds.
use dorsvr.Common.{
  ℕ, zero, suc, ◌+◌, ◌≤◌, ◌<◌, ◌≡◌, refl, sym, ap, subst, ◌∙◌, true, false, List, ◌∷◌, some, length,
  ◌==◌, if◌then◌else◌, Bool-cases, inl, inr, arith, drop, dec_lt,
}
use dorsvr.StreamParser.{Outcome, done, and_then, save_parser_state}
use dorsvr.H264Framer.{
  MpegVideoStreamParser, nal_loop, save_some, set_parse_state, is_start, start_code4,
  skip_start_code,
}
use dorsvr.H264Framer.Unread.{unread, IsReady, skipped, word_of, skip_bytes-skipped}
use dorsvr.H264Framer.Saved.{HasRoom, saved}
use dorsvr.H264Framer.Spec.{
  start_at, code_length, Splits, Splits-here, Splits-next, Splits-four, Splits-long,
}
use dorsvr.H264Framer.Rounds.{
  Bytes, is_start-start_at, moved, moved_over, moved-HasRoom, next, next-IsReady, one_round,
  save_some-four, save_some-one,
}

abbrev pub past : MpegVideoStreamParser → ℕ → MpegVideoStreamParser
past q k = record q { stream = skipped q.stream k }

-- Four bytes saved and skipped at once leave what four single rounds leave.
next-moved_four :
    (p : MpegVideoStreamParser) (a b c d : ℕ)
    → next (saved (saved (saved (saved p a) b) c) d) 4 ≡ moved (moved (moved (moved p a) b) c) d
unfolding set_parse_state save_parser_state
next-moved_four p a b c d = ap at_index sum
  where
    at_index : ℕ → MpegVideoStreamParser
    at_index i = record (moved (moved (moved (moved p a) b) c) d) {
      stream = record p.stream {
        cur_parser_index = i;
        saved_parser_index = i;
        saved_remaining_unparsed_bits = p.stream.remaining_unparsed_bits;
      };
    }

    sum : p.stream.cur_parser_index + 4 ≡ p.stream.cur_parser_index + 1 + 1 + 1 + 1
    sum = omega arith

pub next-moved_one : (p : MpegVideoStreamParser) (a : ℕ) → next (saved p a) 1 ≡ moved p a
unfolding set_parse_state save_parser_state
next-moved_one p a = refl

-- The loop and the skip of the start code behind the unit.
abbrev pub unit_loop : ℕ → ℕ → MpegVideoStreamParser → Outcome MpegVideoStreamParser ℕ
unit_loop fuel w p = and_then (nal_loop fuel w p) skip_start_code

-- The unit ends here.
loop-here :
    (fuel a b c d k : ℕ) (r : List ℕ) (p : MpegVideoStreamParser)
    → IsReady p.stream
    → unread p.stream ≡ a ∷ b ∷ c ∷ d ∷ r
    → Bytes (a ∷ b ∷ c ∷ d ∷ r)
    → start_at a b c d ≡ true
    → k ≡ code_length c
    → unit_loop (suc fuel) (word_of a b c d) p ≡ done k (past p k)
unfolding nal_loop skip_start_code
loop-here fuel a b c d k r p h e bs here len =
    rw
      (
        nal_loop,
        is_start-start_at a b c d bs.0 bs.1.0 bs.1.1.0 bs.1.1.1.0,
        here,
        long,
        skip_bytes-skipped p.stream k h (omega (arith, ap length e, len, short c)),
      )
      refl
  where
    long : (if word_of a b c d == start_code4 then 4 else 3) ≡ k
    long =
        let (ha, hb) = bs in
        let (hb, hc) = hb in let (hc, hd) = hc in let (hd, _) = hd in ground arith

    short : (c : ℕ) → code_length c ≤ 4
    short c = ground arith

-- What the loop does with this much fuel.
abbrev pub Works : ℕ → Type 0
Works fuel =
    (a b c d k : ℕ) (r n : List ℕ) (p : MpegVideoStreamParser)
    → IsReady p.stream
    → unread p.stream ≡ a ∷ b ∷ c ∷ d ∷ r
    → Bytes (a ∷ b ∷ c ∷ d ∷ r)
    → Splits (a ∷ b ∷ c ∷ d ∷ r) n k
    → HasRoom p (length n)
    → length n < fuel
    → unit_loop fuel (word_of a b c d) p ≡ done k (past (moved_over p n) k)

-- A round that saves `j` bytes, and the rest of the unit behind them.
round-Works :
    (fuel w j k : ℕ) (p q p' : MpegVideoStreamParser) (l m : List ℕ)
    → Works fuel
    → is_start w ≡ false
    → save_some p w ≡ some (j, q)
    → IsReady q.stream
    → j ≤ length (unread q.stream)
    → drop j (unread q.stream) ≡ l
    → next q j ≡ p'
    → Bytes l
    → Splits l m k
    → HasRoom p' (length m)
    → length m < fuel
    → unit_loop (suc fuel) w p ≡ done k (past (moved_over p' m) k)
round-Works fuel w j k p q p' l m works no_start e h le ahead same bs s room lt =
    let (a, b, c, d, r, is_l) = Splits-long l m k s in
    let (ready, left) =
      subst
        (λ (z : MpegVideoStreamParser).
          IsReady z.stream × (unread z.stream ≡ drop j (unread q.stream)))
        same (next-IsReady q j h le) in
    ap (λ o. and_then o skip_start_code)
      (one_round fuel w j p q a b c d r h no_start e le (ahead ∙ is_l))
    ∙ ap (λ z. unit_loop fuel (word_of a b c d) z) same
    ∙ works a b c d k r m p' ready (left ∙ ahead ∙ is_l) (subst Bytes is_l bs)
        (subst (λ t. Splits t m k) is_l s) room lt

-- The loop saves the unit and stops behind the start code, with fuel for its bytes.
pub unit_loop_lem : (fuel : ℕ) → Works fuel
unit_loop_lem zero a b c d k r n p h e bs s room lt = absurd (omega arith)
unit_loop_lem (suc fuel) a b c d k r n p h e bs s room lt = elim (Bool-cases (start_at a b c d)) [
  | inl here ↦
      let (is_nil, len) = Splits-here a b c d r n k s here in
      loop-here fuel a b c d k r p h e bs here len
      ∙ ap (λ t. done k (past (moved_over p t) k)) (sym is_nil)
  | inr more ↦ elim (dec_lt 1 d) [
    | yes large ↦
        let (m, is_n, t) = Splits-four a b c d r n k s more large in
        let room' = subst (λ t. HasRoom p (length t)) is_n room in
        round-Works fuel (word_of a b c d) 4 k p (saved (saved (saved (saved p a) b) c) d)
          (moved (moved (moved (moved p a) b) c) d) r m (unit_loop_lem fuel)
          (is_start-start_at a b c d bs.0 bs.1.0 bs.1.1.0 bs.1.1.1.0 ∙ more)
          (save_some-four p a b c d (length m) room' bs.0 bs.1.0 bs.1.1.0 bs.1.1.1.0 large) h
          (omega (arith, ap length e)) (ap (drop 4) e) (next-moved_four p a b c d) bs.1.1.1.1 t
          (moved-HasRoom (moved (moved (moved p a) b) c) d (length m) (
            moved-HasRoom (moved (moved p a) b) c (suc (length m)) (
              moved-HasRoom (moved p a) b (suc (suc (length m)))
                (moved-HasRoom p a (suc (suc (suc (length m)))) room'))))
          (omega (arith, ap length is_n))
        ∙ ap (λ t. done k (past (moved_over p t) k)) (sym is_n)
    | no small ↦
        let (m, is_n, t) = Splits-next a b c d r n k s more in
        round-Works fuel (word_of a b c d) 1 k p (saved p a) (moved p a) (b ∷ c ∷ d ∷ r) m
          (unit_loop_lem fuel) (is_start-start_at a b c d bs.0 bs.1.0 bs.1.1.0 bs.1.1.1.0 ∙ more)
          (save_some-one p a b c d (length m) (subst (λ t. HasRoom p (length t)) is_n room) bs.0
            bs.1.0 bs.1.1.0 (omega arith))
          h (omega (arith, ap length e)) (ap (drop 1) e) (next-moved_one p a) bs.1 t
          (moved-HasRoom p a (length m) (subst (λ t. HasRoom p (length t)) is_n room))
          (omega (arith, ap length is_n))
        ∙ ap (λ t. done k (past (moved_over p t) k)) (sym is_n)
  ]
]
