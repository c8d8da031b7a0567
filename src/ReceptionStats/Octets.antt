-- ===== src/ReceptionStats/Octets.antt =====
-- The bytes received, counted in two words of 32 bits.
use dorsvr.Common.{
  ℕ, ◌+◌, ◌*◌, ◌%◌, ◌^◌, ◌<◌, ◌≡◌, refl, ◌∙◌, Bool, true, false, List, [], ◌∷◌, ltb, if◌then◌else◌,
  arith, bit_or, bit_and,
}
use dorsvr.SeqNum.{seq_num_lt}
use dorsvr.ReceptionStats.{
  ReceptionStats, init_seq_num, count_packet, note_new, note_old, check_seq_num, cycle_for_new,
  cycle_for_old, note_incoming_packet, note_all,
}

abbrev pub octets : ReceptionStats → ℕ
octets s = s.tot_bytes_received_hi * 2 ^ 32 + s.tot_bytes_received_lo

abbrev pub sizes : List (ℕ × ℕ) → ℕ
sizes [] = 0
sizes ((_, size) ∷ packets) = size + sizes packets

-- Two states that have counted the same bytes.
abbrev SameBytes : ReceptionStats → ReceptionStats → Type 0
SameBytes s s' =
    (s.tot_bytes_received_hi ≡ s'.tot_bytes_received_hi)
    × (s.tot_bytes_received_lo ≡ s'.tot_bytes_received_lo)

if-SameBytes :
    (b : Bool) (s t r : ReceptionStats)
    → SameBytes s r
    → SameBytes t r
    → SameBytes (if b then s else t) r
if-SameBytes true s t r p q = p
if-SameBytes false s t r p q = q

check_seq_num-SameBytes : (s : ReceptionStats) (q : ℕ) → SameBytes (check_seq_num s q) s
unfolding check_seq_num note_new note_old
check_seq_num-SameBytes s q =
    if-SameBytes (seq_num_lt (bit_and s.highest_ext_seq_num_received 0xffff) q) _ _ s
      (if-SameBytes
        (ltb s.highest_ext_seq_num_received
          (bit_or (cycle_for_new s.highest_ext_seq_num_received q) q))
        _ s s (refl, refl) (refl, refl))
      (if-SameBytes (ltb 1 s.tot_num_packets_received) _ s s
        (if-SameBytes
          (ltb (bit_or (cycle_for_old s.highest_ext_seq_num_received q) q)
            s.base_ext_seq_num_received)
          _ s s (refl, refl) (refl, refl))
        (refl, refl))

count_packet-octets :
    (s : ReceptionStats) (size : ℕ)
    → s.tot_bytes_received_lo < 2 ^ 32
    → size < 2 ^ 32
    → octets s + size < 2 ^ 64
    → octets (count_packet s size) ≡ octets s + size
unfolding count_packet
count_packet-octets s size lo fits total = ground arith

counted-lo : (s : ReceptionStats) (size : ℕ) → (count_packet s size).tot_bytes_received_lo < 2 ^ 32
unfolding count_packet
counted-lo s size = omega arith

started-SameBytes :
    (s : ReceptionStats) (q : ℕ)
    → SameBytes (if s.have_seen_initial_sequence_number then s else init_seq_num s q) s
unfolding init_seq_num
started-SameBytes s q =
    if-SameBytes s.have_seen_initial_sequence_number s _ s (refl, refl) (refl, refl)

note_incoming_packet-octets :
    (s : ReceptionStats) (q size : ℕ)
    → s.tot_bytes_received_lo < 2 ^ 32
    → size < 2 ^ 32
    → octets s + size < 2 ^ 64
    → (octets (note_incoming_packet s q size) ≡ octets s + size)
      × ((note_incoming_packet s q size).tot_bytes_received_lo < 2 ^ 32)
unfolding note_incoming_packet
note_incoming_packet-octets s q size lo fits total = (
  omega (
    arith,
    hi,
    low,
    same_hi,
    same_lo,
    count_packet-octets started size (omega (arith, same_lo)) fits
        (omega (arith, same_hi, same_lo)),
  ),
  omega (arith, low, counted-lo started size),
)
  where
    started : ReceptionStats
    started = if s.have_seen_initial_sequence_number then s else init_seq_num s q

    same_hi : started.tot_bytes_received_hi ≡ s.tot_bytes_received_hi
    same_hi = (started-SameBytes s q).0

    same_lo : started.tot_bytes_received_lo ≡ s.tot_bytes_received_lo
    same_lo = (started-SameBytes s q).1

    hi :
        (check_seq_num (count_packet started size) q).tot_bytes_received_hi
        ≡ (count_packet started size).tot_bytes_received_hi
    hi = (check_seq_num-SameBytes (count_packet started size) q).0

    low :
        (check_seq_num (count_packet started size) q).tot_bytes_received_lo
        ≡ (count_packet started size).tot_bytes_received_lo
    low = (check_seq_num-SameBytes (count_packet started size) q).1

-- Each packet has less than 2^32 bytes.
abbrev pub SizesFit : List (ℕ × ℕ) → Type 0
SizesFit [] = Unit {0}
SizesFit ((_, size) ∷ packets) = (size < 2 ^ 32) × SizesFit packets

-- The two words count exactly the bytes of all packets, across the wrap-arounds of the low word, as long
-- as each packet has less than 2^32 bytes and the total stays below 2^64.
pub note_all-octets :
    (s : ReceptionStats) (packets : List (ℕ × ℕ))
    → s.tot_bytes_received_lo < 2 ^ 32
    → SizesFit packets
    → octets s + sizes packets < 2 ^ 64
    → octets (note_all s packets) ≡ octets s + sizes packets
unfolding note_all
note_all-octets s [] lo fits total = omega arith
note_all-octets s ((e, size) ∷ packets) lo (fit, fits) total =
    let (counted, lo') = note_incoming_packet-octets s (e % 65536) size lo fit (omega arith) in
    note_all-octets (note_incoming_packet s (e % 65536) size) packets lo' fits
      (omega (arith, counted))
    ∙ omega (arith, counted)
