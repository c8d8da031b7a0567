-- ===== src/TransmissionStats/Totals.antt =====
-- The totals of octets and packets that go towards a receiver, against the counts of the sink.
use dorsvr.Common.{
  ℕ, ◌+◌, ◌-◌, ◌*◌, ◌%◌, ◌^◌, ◌≤◌, ◌<◌, ◌≡◌, refl, ◌∙◌, Bool, true, false, List, [], ◌∷◌,
  if◌then◌else◌, arith, ◌-w◌,
}
use dorsvr.TransmissionStats.{
  TransmissionStats, Report, note_order, note_block, note_totals, note_incoming_rr, add_to_lo,
  carry_to_hi,
}

abbrev pub total_octets : TransmissionStats → ℕ
total_octets s = s.total_octet_count_hi * 2 ^ 32 + s.total_octet_count_lo

abbrev pub total_packets : TransmissionStats → ℕ
total_packets s = s.total_packet_count_hi * 2 ^ 32 + s.total_packet_count_lo

unfoldable pub note_reports : TransmissionStats → List Report → TransmissionStats
note_reports s [] = s
note_reports s (r ∷ rs) = note_reports (note_incoming_rr s r) rs

-- The sink's counts never fall, and grow by less than 2^32 from a report to the next.
abbrev pub Grows : (octets packets : ℕ) → List Report → Type 0
Grows octets packets [] = Unit {0}
Grows octets packets (r ∷ rs) =
    (octets ≤ r.octets_sent)
    × (r.octets_sent < octets + 2 ^ 32)
    × (packets ≤ r.packets_sent)
    × (r.packets_sent < packets + 2 ^ 32)
    × (r.octets_sent < 2 ^ 64)
    × (r.packets_sent < 2 ^ 64)
    × Grows r.octets_sent r.packets_sent rs

abbrev pub last_counts : ℕ × ℕ → List Report → ℕ × ℕ
last_counts c [] = c
last_counts c (r ∷ rs) = last_counts (r.octets_sent, r.packets_sent) rs

-- The state agrees with the counts of the sink at the last report.
pub record Agrees (s : TransmissionStats) (octets packets : ℕ) : Type 0 where
  pub octets_eq : total_octets s ≡ octets
  pub packets_eq : total_packets s ≡ packets
  pub last_octets : s.last_octet_count ≡ octets % 2 ^ 32
  pub last_packets : s.last_packet_count ≡ packets % 2 ^ 32
  pub octets_lo : s.total_octet_count_lo < 2 ^ 32
  pub packets_lo : s.total_packet_count_lo < 2 ^ 32

word_diff :
    (last old new : ℕ)
    → last ≡ old % 2 ^ 32
    → old ≤ new
    → new < old + 2 ^ 32
    → (new % 2 ^ 32) -w last ≡ new - old
word_diff last old new e le lt = omega arith

up_by :
    (hi lo diff : ℕ)
    → lo < 2 ^ 32
    → diff < 2 ^ 32
    → hi * 2 ^ 32 + lo + diff < 2 ^ 64
    → carry_to_hi hi lo diff * 2 ^ 32 + add_to_lo lo diff ≡ hi * 2 ^ 32 + lo + diff
unfolding carry_to_hi add_to_lo
up_by hi lo diff fits lt small = ground arith

add_to_lo-fits : (lo diff : ℕ) → add_to_lo lo diff < 2 ^ 32
unfolding add_to_lo
add_to_lo-fits lo diff = omega arith

up_to :
    (hi lo diff old new : ℕ)
    → hi * 2 ^ 32 + lo ≡ old
    → lo < 2 ^ 32
    → old ≤ new
    → new < old + 2 ^ 32
    → new < 2 ^ 64
    → diff ≡ new - old
    → carry_to_hi hi lo diff * 2 ^ 32 + add_to_lo lo diff ≡ new
up_to hi lo diff old new total fits le lt small d =
    up_by hi lo diff fits (omega arith) (omega arith) ∙ (omega arith)

note_totals-Agrees :
    (s : TransmissionStats) (r : Report) (octets packets : ℕ)
    → Agrees s octets packets
    → octets ≤ r.octets_sent
    → r.octets_sent < octets + 2 ^ 32
    → packets ≤ r.packets_sent
    → r.packets_sent < packets + 2 ^ 32
    → r.octets_sent < 2 ^ 64
    → r.packets_sent < 2 ^ 64
    → Agrees (note_totals s r) r.octets_sent r.packets_sent
unfolding note_totals
note_totals-Agrees s r octets packets a o_le o_lt p_le p_lt o_small p_small = record {
  octets_eq =
      up_to _ _ _ octets r.octets_sent a.octets_eq a.octets_lo o_le o_lt o_small
        (word_diff s.last_octet_count octets r.octets_sent a.last_octets o_le o_lt);
  packets_eq =
      up_to _ _ _ packets r.packets_sent a.packets_eq a.packets_lo p_le p_lt p_small
        (word_diff s.last_packet_count packets r.packets_sent a.last_packets p_le p_lt);
  last_octets = refl;
  last_packets = refl;
  octets_lo = add_to_lo-fits s.total_octet_count_lo _;
  packets_lo = add_to_lo-fits s.total_packet_count_lo _;
}

keeps_if :
    (b : Bool) (s t : TransmissionStats) (octets packets : ℕ)
    → Agrees s octets packets
    → Agrees t octets packets
    → Agrees (if b then s else t) octets packets
keeps_if true s t octets packets p q = p
keeps_if false s t octets packets p q = q

note_order-Agrees :
    (s : TransmissionStats) (r : Report) (octets packets : ℕ)
    → Agrees s octets packets
    → Agrees (note_order s r) octets packets
unfolding note_order
note_order-Agrees s r octets packets a =
    keeps_if s.first_packet _ _ octets packets
      record {
        octets_eq = a.octets_eq;
        packets_eq = a.packets_eq;
        last_octets = a.last_octets;
        last_packets = a.last_packets;
        octets_lo = a.octets_lo;
        packets_lo = a.packets_lo;
      }
      record {
        octets_eq = a.octets_eq;
        packets_eq = a.packets_eq;
        last_octets = a.last_octets;
        last_packets = a.last_packets;
        octets_lo = a.octets_lo;
        packets_lo = a.packets_lo;
      }

same_totals :
    (s : TransmissionStats) (r : Report) (octets packets : ℕ)
    → Agrees s octets packets
    → Agrees (note_block (note_order s r) r) octets packets
unfolding note_block
same_totals s r octets packets a =
    let b = note_order-Agrees s r octets packets a in
    record {
      octets_eq = b.octets_eq;
      packets_eq = b.packets_eq;
      last_octets = b.last_octets;
      last_packets = b.last_packets;
      octets_lo = b.octets_lo;
      packets_lo = b.packets_lo;
    }

-- Along reports between which the counts of the sink never fall and grow by less than 2^32, to below 2^64, the
-- two-word totals of octets and packets and the last counts of a state that agrees with the sink go on to agree
-- with the counts of the sink at the last report.
pub note_reports-totals :
    (s : TransmissionStats) (octets packets : ℕ) (rs : List Report)
    → Agrees s octets packets
    → Grows octets packets rs
    → Agrees
        (note_reports s rs)
        (last_counts (octets, packets) rs).0
        (last_counts (octets, packets) rs).1
unfolding note_reports note_incoming_rr
note_reports-totals s octets packets [] a g = a
note_reports-totals s octets packets (r ∷ rs) a (o_le, o_lt, p_le, p_lt, o_small, p_small, g) =
    note_reports-totals (note_incoming_rr s r) r.octets_sent r.packets_sent rs
      (note_totals-Agrees (note_block (note_order s r) r) r octets packets
        (same_totals s r octets packets a) o_le o_lt p_le p_lt o_small p_small)
      g
