-- ===== src/Rtcp/Blocks.antt =====
-- What the readers of a subpacket take, as long as the bytes are there.
use dorsvr.Common.{
  ℕ, zero, suc, ◌-◌, ◌*◌, ◌≤◌, ◌<◌, ◌≡◌, refl, Bool-cases, inl, inr, List, Option, none, some,
  ◌>>=◌, length, drop, length-drop, ◌==◌, le→leb, arith, dec_le, lt→leb,
}
use dorsvr.RtpPacket.{ntohl}
use dorsvr.Rtcp.{
  RtcpInstance, Subpacket, Progress, Checked, advance, take_word, read_sr, read_own_block,
  read_block, read_blocks, read_all_blocks, read_rr, read_subpacket,
}

pub advance_lem :
    (packet : List ℕ) (n : ℕ) → n ≤ length packet → advance packet n ≡ some (drop n packet)
unfolding advance
advance_lem packet n h = rw (le→leb n (length packet) h)

pub take_word_lem :
    (packet : List ℕ) → 4 ≤ length packet → take_word packet ≡ some (ntohl packet, drop 4 packet)
unfolding take_word
take_word_lem packet h = rw (advance_lem packet 4 h)

-- A step that does not panic, with what holds of its result.
abbrev pub Gives {ℓ} : {A : Type ℓ} → (A → Type 0) → Option A → Type 0
Gives P none = ⊥
Gives P (some a) = P a

pub Gives-bind {ℓ κ} :
    {A : Type ℓ} {B : Type κ} (P : A → Type 0) (Q : B → Type 0) (m : Option A) (f : A → Option B)
    → Gives P m
    → ((a : A) → P a → Gives Q (f a))
    → Gives Q (m >>= f)
Gives-bind P Q none f g k = absurd g
Gives-bind P Q (some a) f g k = k a g

pub Gives-imp {ℓ} :
    {A : Type ℓ} (P Q : A → Type 0) (m : Option A) → ((a : A) → P a → Q a) → Gives P m → Gives Q m
Gives-imp P Q none k g = g
Gives-imp P Q (some a) k g = k a g

-- The bytes that are left of the packet, and those of the subpacket.
abbrev pub Leaves : ℕ → ℕ → Subpacket → Type 0
Leaves left size s = (s.left ≡ left) × (length s.rest ≡ size)

pub advance-Gives :
    (packet : List ℕ) (n : ℕ)
    → n ≤ length packet
    → Gives (λ rest. length rest ≡ length packet - n) (advance packet n)
advance-Gives packet n h = rw (advance_lem packet n h) (length-drop n packet)

pub take_word-Gives :
    (packet : List ℕ)
    → 4 ≤ length packet
    → Gives (λ (r : ℕ × List ℕ). length r.1 ≡ length packet - 4) (take_word packet)
take_word-Gives packet h = rw (take_word_lem packet h) (length-drop 4 packet)

read_sr-Gives :
    (r : RtcpInstance) (reporter : ℕ) (s : Subpacket)
    → 20 ≤ s.left
    → s.left ≤ length s.rest
    → Gives (Leaves (s.left - 20) (length s.rest - 20)) (read_sr r reporter s)
unfolding read_sr
read_sr-Gives r reporter s long fits = rw (le→leb 20 s.left long) (
    Gives-bind _ _ (take_word s.rest) _ (take_word-Gives s.rest (omega arith)) λ msw h1.
      Gives-bind _ _ (take_word msw.1) _ (take_word-Gives msw.1 (omega arith)) λ lsw h2.
        Gives-bind _ _ (take_word lsw.1) _ (take_word-Gives lsw.1 (omega arith)) λ ts h3.
          Gives-bind _ _ (advance ts.1 8) _ (advance-Gives ts.1 8 (omega arith))
            λ rest h4. (refl, omega arith))

read_sr_short :
    (r : RtcpInstance) (reporter : ℕ) (s : Subpacket) → s.left < 20 → read_sr r reporter s ≡ some s
unfolding read_sr
read_sr_short r reporter s short = rw (lt→leb s.left 20 short)

read_own_block-Gives :
    (reporter sender : ℕ) (s : Subpacket) (rest : List ℕ)
    → 20 ≤ length rest
    → Gives (Leaves s.left (length rest - 20)) (read_own_block reporter sender s rest)
unfolding read_own_block
read_own_block-Gives reporter sender s rest long =
    Gives-bind _ _ (take_word rest) _ (take_word-Gives rest (omega arith)) λ w1 h1.
      Gives-bind _ _ (take_word w1.1) _ (take_word-Gives w1.1 (omega arith)) λ w2 h2.
        Gives-bind _ _ (take_word w2.1) _ (take_word-Gives w2.1 (omega arith)) λ w3 h3.
          Gives-bind _ _ (take_word w3.1) _ (take_word-Gives w3.1 (omega arith)) λ w4 h4.
            Gives-bind _ _ (take_word w4.1) _ (take_word-Gives w4.1 (omega arith))
              λ w5 h5. (refl, omega arith)

read_block-Gives :
    (ssrc reporter : ℕ) (s : Subpacket)
    → 24 ≤ length s.rest
    → Gives (Leaves s.left (length s.rest - 24)) (read_block ssrc reporter s)
unfolding read_block
read_block-Gives ssrc reporter s long =
    Gives-bind _ _ (take_word s.rest) _ (take_word-Gives s.rest (omega arith)) λ w h.
      elim (Bool-cases (w.0 == ssrc)) [
        | inl own ↦ rw own (
            Gives-imp _ _ (read_own_block reporter w.0 s w.1) (λ t g. (g.0, omega arith))
              (read_own_block-Gives reporter w.0 s w.1 (omega arith)))
        | inr other ↦ rw other (
            Gives-bind _ _ (advance w.1 20) _ (advance-Gives w.1 20 (omega arith))
              λ rest h'. (refl, omega arith))
      ]

read_blocks-Gives :
    (ssrc reporter rc : ℕ) (s : Subpacket)
    → rc * 24 ≤ length s.rest
    → Gives (Leaves s.left (length s.rest - rc * 24)) (read_blocks ssrc reporter rc s)
unfolding read_blocks
read_blocks-Gives ssrc reporter zero s long = (refl, omega arith)
read_blocks-Gives ssrc reporter (suc rc) s long =
    Gives-bind _ _ (read_block ssrc reporter s) _ (read_block-Gives ssrc reporter s (omega arith))
      λ t h.
        Gives-imp _ _ (read_blocks ssrc reporter rc t) (λ u g. (omega arith, omega arith))
          (read_blocks-Gives ssrc reporter rc t (omega arith))

read_all_blocks-Gives :
    (sink : Option ℕ) (reporter rc : ℕ) (s : Subpacket)
    → rc * 24 ≤ length s.rest
    → Gives (Leaves s.left (length s.rest - rc * 24)) (read_all_blocks sink reporter rc s)
unfolding read_all_blocks
read_all_blocks-Gives none reporter rc s long =
    Gives-bind _ _ (advance s.rest (rc * 24)) _ (advance-Gives s.rest (rc * 24) long)
      λ rest h. (refl, h)
read_all_blocks-Gives (some ssrc) reporter rc s long = read_blocks-Gives ssrc reporter rc s long

-- A subpacket whose bytes are all there, and that is not longer than before.
abbrev pub Within : ℕ → Checked → Type 0
Within size c = (c.subpacket.left ≤ length c.subpacket.rest) × (length c.subpacket.rest ≤ size)

read_rr-Gives :
    (r : RtcpInstance) (reporter pt rc : ℕ) (p : Progress) (s : Subpacket)
    → s.left ≤ length s.rest
    → Gives (Within (length s.rest)) (read_rr r reporter pt rc p s)
unfolding read_rr
read_rr-Gives r reporter pt rc p s fits = elim (dec_le (rc * 24) s.left) [
  | yes long ↦ rw (le→leb (rc * 24) s.left long) (
      Gives-bind _ _
        (read_all_blocks r.sink_ssrc reporter rc (record s { left = s.left - rc * 24 })) _
        (read_all_blocks-Gives r.sink_ssrc reporter rc (record s { left = s.left - rc * 24 })
          (omega arith))
        λ t h. (omega arith, omega arith))
  | no short ↦ rw (lt→leb s.left (rc * 24) (omega arith)) (fits, omega arith)
]

read_sr_then :
    (r : RtcpInstance) (reporter pt rc : ℕ) (p : Progress) (s : Subpacket)
    → s.left ≤ length s.rest
    → Gives (Within (length s.rest)) (read_sr r reporter s >>= λ t. read_rr r reporter pt rc p t)
read_sr_then r reporter pt rc p s fits = elim (dec_le 20 s.left) [
  | yes long ↦ Gives-bind _ _ (read_sr r reporter s) _ (read_sr-Gives r reporter s long fits) λ t h.
      Gives-imp _ _ (read_rr r reporter pt rc p t) (λ c g. (g.0, omega arith))
        (read_rr-Gives r reporter pt rc p t (omega arith))
  | no short ↦
      rw (read_sr_short r reporter s (omega arith)) (read_rr-Gives r reporter pt rc p s fits)
]

pub read_subpacket-Gives :
    (r : RtcpInstance) (reporter pt rc : ℕ) (p : Progress) (s : Subpacket)
    → s.left ≤ length s.rest
    → Gives (Within (length s.rest)) (read_subpacket r reporter pt rc p s)
unfolding read_subpacket
read_subpacket-Gives r reporter pt rc p s fits = elim (Bool-cases (pt == 200)) [
  | inl sr ↦ rw sr (read_sr_then r reporter pt rc p s fits)
  | inr not_sr ↦ elim (Bool-cases (pt == 201)) [
    | inl rr ↦ rw (not_sr, rr) (read_rr-Gives r reporter pt rc p s fits)
    | inr not_rr ↦ elim (Bool-cases (pt == 203)) [
      | inl bye ↦ rw (not_sr, not_rr, bye) (fits, omega arith)
      | inr other ↦ rw (not_sr, not_rr, other) (fits, omega arith)
    ]
  ]
]
