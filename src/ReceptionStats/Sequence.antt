-- ===== src/ReceptionStats/Sequence.antt =====
-- The extended sequence numbers that the receiver keeps, against the numbers that the sender counts.
use dorsvr.Common.{
  ℕ, ◌+◌, ◌-◌, ◌*◌, ◌/◌, ◌%◌, ◌^◌, ◌≤◌, ◌<◌, max, ◌≡◌, refl, sym, ap, subst, ◌∙◌, true, false, List,
  [], ◌∷◌, ltb, if◌then◌else◌, bit_and, bit_or, arith, ◌+w◌, lt→ltb, dec_lt, Bool-cases, inl, inr,
}
use dorsvr.Common.Bits.{bit_and_low, bit_and_field, bit_or_join}
use dorsvr.SeqNum.{seq_num_lt}
use dorsvr.ReceptionStats.{
  ReceptionStats, count_packet, init_seq_num, note_new, note_old, cycle_for_new, cycle_for_old,
  check_seq_num, note_incoming_packet, note_all, new_reception_stats, reset,
}

-- The two parts of an extended number.
low_part : (h : ℕ) → bit_and h 0xffff ≡ h % 65536
low_part h = bit_and_low 16 h

high_part : (h : ℕ) → h < 2 ^ 32 → bit_and h 0xffff0000 ≡ h / 65536 * 65536
high_part h lt =
    bit_and_field 16 h 0xffff ∙ ap (λ q. q * 65536) (bit_and_low 16 (h / 65536) ∙ omega arith)

joined : (q r : ℕ) → r < 65536 → bit_or (q * 65536) r ≡ q * 65536 + r
joined q r lt = bit_or_join 16 q r lt

-- The highest number `h` and a number `e` of the sender, ahead by less than half the range or not.
module _ (h e : ℕ) (fits : h + 65536 < 2 ^ 32) where
  ahead_lt : h < e → e < h + 0x8000 → seq_num_lt (bit_and h 0xffff) (e % 65536) ≡ true
  unfolding seq_num_lt
  ahead_lt gt lt = rw (low_part h) (ground arith)

  behind_lt : e ≤ h → h ≤ e + 0x8000 → seq_num_lt (bit_and h 0xffff) (e % 65536) ≡ false
  unfolding seq_num_lt
  behind_lt le ge = rw (low_part h) (ground arith)

  ahead_cycle : h < e → e < h + 0x8000 → bit_or (cycle_for_new h (e % 65536)) (e % 65536) ≡ e
  unfolding cycle_for_new
  ahead_cycle gt lt =
      ap (λ c. bit_or c (e % 65536)) cycle
      ∙ joined (e / 65536) (e % 65536) (omega arith)
      ∙ omega arith
    where
      cycle : cycle_for_new h (e % 65536) ≡ e / 65536 * 65536
      cycle = rw (low_part h, high_part h (omega arith)) (ground arith)

  -- Behind in the cycle of `h`, the code takes the cycle before it.
  behind_cycle :
      65536 ≤ h
      → e < h
      → e / 65536 ≡ h / 65536
      → bit_or (cycle_for_old h (e % 65536)) (e % 65536) ≡ e - 65536
  unfolding cycle_for_old
  behind_cycle one lt same =
      ap (λ c. bit_or c (e % 65536)) cycle
      ∙ joined (e / 65536 - 1) (e % 65536) (omega arith)
      ∙ omega arith
    where
      cycle : cycle_for_old h (e % 65536) ≡ (e / 65536 - 1) * 65536
      cycle = rw (low_part h, high_part h (omega arith)) (ground arith)

  -- In the cycle before that of `h`, it takes that one.
  before_cycle :
      65536 ≤ h
      → h ≤ e + 0x8000
      → e / 65536 + 1 ≡ h / 65536
      → bit_or (cycle_for_old h (e % 65536)) (e % 65536) ≡ e
  unfolding cycle_for_old
  before_cycle one near next =
      ap (λ c. bit_or c (e % 65536)) cycle
      ∙ joined (e / 65536) (e % 65536) (omega arith)
      ∙ omega arith
    where
      cycle : cycle_for_old h (e % 65536) ≡ e / 65536 * 65536
      cycle = rw (low_part h, high_part h (omega arith)) (ground arith)

-- Each number is within half the range of the highest one before it.
abbrev pub InWindow : ℕ → List (ℕ × ℕ) → Type 0
InWindow h [] = Unit {0}
InWindow h ((e, _) ∷ packets) =
    (e < h + 0x8000) × (h ≤ e + 0x8000) × (max h e + 65536 < 2 ^ 32) × InWindow (max h e) packets

abbrev pub highest_of : ℕ → List (ℕ × ℕ) → ℕ
highest_of h [] = h
highest_of h ((e, _) ∷ packets) = highest_of (max h e) packets

note_old-highest :
    (s : ReceptionStats) (cycle q : ℕ)
    → ((note_old s cycle q).highest_ext_seq_num_received ≡ s.highest_ext_seq_num_received)
      × ((note_old s cycle q).have_seen_initial_sequence_number
          ≡ s.have_seen_initial_sequence_number)
unfolding note_old
note_old-highest s cycle q = elim (Bool-cases (ltb (bit_or cycle q) s.base_ext_seq_num_received)) [
  | inl lower ↦ rw lower (refl, refl)
  | inr same ↦ rw same (refl, refl)
]

check_seq_num-highest :
    (s : ReceptionStats) (e : ℕ)
    → s.highest_ext_seq_num_received + 65536 < 2 ^ 32
    → e < s.highest_ext_seq_num_received + 0x8000
    → s.highest_ext_seq_num_received ≤ e + 0x8000
    → ((check_seq_num s (e % 65536)).highest_ext_seq_num_received
        ≡ max s.highest_ext_seq_num_received e)
      × ((check_seq_num s (e % 65536)).have_seen_initial_sequence_number
          ≡ s.have_seen_initial_sequence_number)
unfolding check_seq_num note_new
check_seq_num-highest s e fits lt near = elim (dec_lt h e) [
  | yes gt ↦
      rw (ahead_lt h e fits gt lt, ahead_cycle h e fits gt lt, lt→ltb h e gt) (omega arith, refl)
  | no le ↦
      rw (behind_lt h e fits (omega arith) near)
        (elim (Bool-cases (ltb 1 s.tot_num_packets_received)) [
          | inl many ↦
              let (highest, seen) = note_old-highest s (cycle_for_old h (e % 65536)) (e % 65536) in
              rw many (highest ∙ omega arith, seen)
          | inr few ↦ rw few (omega arith, refl)
        ])
]
  where
    h : ℕ
    h = s.highest_ext_seq_num_received

-- A receiver that has seen a packet.
note_all-highest :
    (s : ReceptionStats) (packets : List (ℕ × ℕ))
    → s.have_seen_initial_sequence_number ≡ true
    → s.highest_ext_seq_num_received + 65536 < 2 ^ 32
    → InWindow s.highest_ext_seq_num_received packets
    → (note_all s packets).highest_ext_seq_num_received
      ≡ highest_of s.highest_ext_seq_num_received packets
unfolding note_all note_incoming_packet count_packet
note_all-highest s [] seen fits w = refl
note_all-highest s ((e, size) ∷ packets) seen fits (lt, near, fits', w) =
    let (highest, still) = check_seq_num-highest (count_packet s size) e fits lt near in
    ap
      (λ b.
        (note_all
          (check_seq_num (count_packet (if b then s else init_seq_num s (e % 65536)) size)
            (e % 65536))
          packets).highest_ext_seq_num_received)
      seen
    ∙ note_all-highest (check_seq_num (count_packet s size) (e % 65536)) packets (still ∙ seen)
        (omega (arith, highest, fits')) (subst (λ h. InWindow h packets) (sym highest) w)
    ∙ ap (λ h. highest_of h packets) highest

-- A receiver that starts at the first packet, of cycle 1, and sees every packet within half the range of
-- sequence numbers of the highest one before it, keeps as its highest extended number exactly the highest
-- number that the sender has counted, across any number of wrap-arounds of the 16 bits, as long as it
-- fits 32 bits.
pub note_all-highest_of :
    (ssrc e size : ℕ) (packets : List (ℕ × ℕ))
    → 65536 ≤ e
    → e < 131072
    → InWindow e packets
    → (note_all
        (new_reception_stats ssrc (e % 65536))
        ((e, size) ∷ packets)).highest_ext_seq_num_received
      ≡ highest_of e packets
unfolding new_reception_stats init_seq_num reset
note_all-highest_of ssrc e size packets ge lt w =
    note_all-highest (new_reception_stats ssrc (e % 65536)) ((e, size) ∷ packets) refl
      (omega (arith, first))
      (
        omega (arith, first),
        omega (arith, first),
        omega (arith, first),
        subst (λ h. InWindow h packets) {x = e} {y = max (bit_or 0x10000 (e % 65536)) e}
            (omega (arith, first)) w,
      )
    ∙ ap (λ h. highest_of h packets) {x = max (bit_or 0x10000 (e % 65536)) e} {y = e}
        (omega (arith, first))
  where
    first : bit_or 0x10000 (e % 65536) ≡ e
    first = bit_or_join 16 1 (e % 65536) (omega arith) ∙ omega arith

-- An old packet of the same cycle as the highest one, at or above the base, sets the base a whole cycle
-- below the packet's own number, when at least one packet came before.
pub late_packet-base :
    (s : ReceptionStats) (e size : ℕ)
    → s.have_seen_initial_sequence_number ≡ true
    → 1 ≤ s.tot_num_packets_received
    → s.tot_num_packets_received + 1 < 2 ^ 32
    → 65536 ≤ s.highest_ext_seq_num_received
    → s.highest_ext_seq_num_received + 65536 < 2 ^ 32
    → e < s.highest_ext_seq_num_received
    → s.highest_ext_seq_num_received ≤ e + 0x8000
    → e / 65536 ≡ s.highest_ext_seq_num_received / 65536
    → s.base_ext_seq_num_received ≤ e
    → e < s.base_ext_seq_num_received + 65536
    → (note_incoming_packet s (e % 65536) size).base_ext_seq_num_received ≡ e - 65536
unfolding note_incoming_packet count_packet check_seq_num note_old
late_packet-base s e size seen some_seen total one fits lt near same base range =
    rw
      (
        seen,
        behind_lt h e fits (omega arith) near,
        lt→ltb 1 (s.tot_num_packets_received +w 1) (omega arith),
        behind_cycle h e fits one lt same,
        lt→ltb (e - 65536) s.base_ext_seq_num_received (omega arith),
      )
      refl
  where
    h : ℕ
    h = s.highest_ext_seq_num_received
