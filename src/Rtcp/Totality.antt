-- ===== src/Rtcp/Totality.antt =====
-- The parser of compound packets neither panics nor runs out of rounds.
use dorsvr.Common.{
  ℕ, zero, suc, ◌-◌, ◌*◌, ◌≤◌, ◌<◌, ◌≡◌, refl, Bool, true, false, Bool-cases, inl, inr, List,
  Option, none, some, length, ◌==◌, if◌then◌else◌, arith, dec_lt, lt→ltb, le→ltb, bit_and, ◌>>>◌,
}
use dorsvr.RtpPacket.{ntohl}
use dorsvr.Rtcp.{
  RtcpInstance, Progress, Checked, Outcome, finished, noted, or_panic, start, advance, take_word,
  read_subpacket, next_header, round, rounds, process_incoming_report, say_bye,
}
use dorsvr.Rtcp.Blocks.{advance-Gives, take_word-Gives, Gives, read_subpacket-Gives}

abbrev pub Finishes : Outcome → Type 0
Finishes o = (packet_ok : Bool) × (p : Progress) × (o ≡ finished packet_ok p)

or_panic-Finishes {ℓ} :
    {A : Type ℓ} (P : A → Type 0) (m : Option A) (f : A → Outcome)
    → Gives P m
    → ((a : A) → P a → Finishes (f a))
    → Finishes (or_panic m f)
or_panic-Finishes P none f g k = absurd g
or_panic-Finishes P (some a) f g k = k a g

if-Finishes : (b : Bool) (x y : Outcome) → Finishes x → Finishes y → Finishes (if b then x else y)
if-Finishes true x y p q = p
if-Finishes false x y p q = q

-- The rounds behind one finish on every packet that is long enough for a header and below a bound.
abbrev GoesOn : (ℕ → List ℕ → Progress → Outcome) → ℕ → Type 0
GoesOn go_on bound =
    (hdr : ℕ) (packet : List ℕ) (p : Progress)
    → 4 ≤ length packet
    → length packet < bound
    → Finishes (go_on hdr packet p)

next_header-Finishes :
    (go_on : ℕ → List ℕ → Progress → Outcome) (c : Checked) (bound : ℕ)
    → GoesOn go_on bound
    → c.subpacket.left ≤ length c.subpacket.rest
    → length c.subpacket.rest < bound
    → Finishes (next_header go_on c)
unfolding next_header
next_header-Finishes go_on c bound ih fits lt =
    or_panic-Finishes _ (advance c.subpacket.rest c.subpacket.left) _
      (advance-Gives c.subpacket.rest c.subpacket.left fits)
      λ rest h. elim (Bool-cases (length rest == 0)) [
        | inl end ↦ rw end (true, noted c, refl)
        | inr more ↦ elim (dec_lt (length rest) 4) [
          | yes short ↦ rw (more, lt→ltb (length rest) 4 short) (false, noted c, refl)
          | no long ↦ elim (Bool-cases (bit_and (ntohl rest) 0xc0000000 == 0x80000000)) [
            | inl version ↦
                rw (more, le→ltb 4 (length rest) (omega arith), version)
                  (ih (ntohl rest) rest (noted c) (omega arith) (omega arith))
            | inr other ↦
                rw (more, le→ltb 4 (length rest) (omega arith), other) (false, noted c, refl)
          ]
        ]
      ]

round-Finishes :
    (r : RtcpInstance) (go_on : ℕ → List ℕ → Progress → Outcome) (hdr : ℕ) (packet : List ℕ)
    (p : Progress)
    → GoesOn go_on (length packet)
    → 4 ≤ length packet
    → Finishes (round r go_on hdr packet p)
unfolding round
round-Finishes r go_on hdr packet p ih long =
    or_panic-Finishes _ (advance packet 4) _ (advance-Gives packet 4 long) λ body h.
      elim (dec_lt (length body) (4 * bit_and hdr 0xffff)) [
        | yes cut ↦ rw (lt→ltb _ _ cut) (false, p, refl)
        | no whole ↦ elim (dec_lt (4 * bit_and hdr 0xffff) 4) [
          | yes empty ↦
              rw (le→ltb (4 * bit_and hdr 0xffff) (length body) (omega arith), lt→ltb _ _ empty)
                (false, p, refl)
          | no some_words ↦
              rw
                (
                  le→ltb (4 * bit_and hdr 0xffff) (length body) (omega arith),
                  le→ltb 4 (4 * bit_and hdr 0xffff) (omega arith),
                )
                (or_panic-Finishes _ (take_word body) _ (take_word-Gives body (omega arith))
                  λ sender h2.
                    or_panic-Finishes _ (read_subpacket r sender.0 _ _ _ _) _
                      (read_subpacket-Gives r sender.0 (bit_and (hdr >>> 16) 0xff)
                        (bit_and (hdr >>> 24) 0x1f) (record p { report_sender_ssrc = sender.0 })
                        (record {
                          rest = sender.1;
                          left = 4 * bit_and hdr 0xffff - 4;
                          calls = p.calls;
                        })
                        (omega arith))
                      λ c within.
                        if-Finishes c.sub_packet_ok _ _
                          (next_header-Finishes go_on c (length packet) ih within.0 (omega arith))
                          (false, noted c, refl))
        ]
      ]

rounds-Finishes :
    (r : RtcpInstance) (fuel hdr : ℕ) (packet : List ℕ) (p : Progress)
    → 4 ≤ length packet
    → length packet ≤ fuel
    → Finishes (rounds r fuel hdr packet p)
unfolding rounds
rounds-Finishes r zero hdr packet p long enough = absurd (omega arith)
rounds-Finishes r (suc fuel) hdr packet p long enough =
    round-Finishes r (rounds r fuel) hdr packet p
      (λ hdr' packet' p' long' lt. rounds-Finishes r fuel hdr' packet' p' long' (omega arith)) long

say_bye-Finishes : (r : RtcpInstance) (o : Outcome) → Finishes o → Finishes (say_bye r o)
say_bye-Finishes r o (true, p, e) = rw e (true, _, refl)
say_bye-Finishes r o (false, p, e) = rw e (false, _, refl)

-- Whatever was read of the input buffer, the parser comes to an end without a panic: no slice or index is out
-- of range, and the loop over the subpackets ends.
pub process_incoming_report_total :
    (r : RtcpInstance) (packet : List ℕ)
    → (packet_ok : Bool) × (p : Progress) × (process_incoming_report r packet
        ≡ finished packet_ok p)
unfolding process_incoming_report
process_incoming_report_total r packet = elim (dec_lt (length packet) 4) [
  | yes short ↦ rw (lt→ltb (length packet) 4 short) (false, start, refl)
  | no long ↦ elim (Bool-cases (bit_and (ntohl packet) 0xe0fe0000 == 0x80c80000)) [
    | inl report ↦
        rw (le→ltb 4 (length packet) (omega arith), report)
          (say_bye-Finishes r _ (
            rounds-Finishes r (length packet) (ntohl packet) packet start (omega arith)
              (omega arith)))
    | inr other ↦ rw (le→ltb 4 (length packet) (omega arith), other) (false, start, refl)
  ]
]
