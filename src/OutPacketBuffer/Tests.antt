-- ===== src/OutPacketBuffer/Tests.antt =====
-- A buffer of 40 bytes with a packet of 8 bytes that starts at byte 4, and two bytes of overflow data.
use dorsvr.Common.{
  ℕ, ◌+◌, ◌≤◌, ◌≡◌, ◌⊎◌, refl, [], ◌∷◌, some, ◌>>=◌, replicate, ◌++◌, arith, zero_time,
}
use dorsvr.OutPacketBuffer.{
  OutPacketBuffer, enqueue, enqueue_word, insert_word, extract_word, reset_offset,
  adjust_packet_start, use_overflow_data,
}
use dorsvr.OutPacketBuffer.Spec.{IsValid, bytes_at}
use dorsvr.OutPacketBuffer.Words.{enqueue_word-extract_word, insert_word-extract_word}
use dorsvr.OutPacketBuffer.Overflow.{next_packet-overflow}

abbrev half_full : OutPacketBuffer
half_full = record {
  buff = replicate 18 1 ++ 71 ∷ 72 ∷ replicate 20 0;
  limit = 40;
  preferred = 8;
  cur_offset = 8;
  packet_start = 4;
  max_packet_size = 10;
  overflow_data_size = 2;
  overflow_data_offset = 14;
  overflow_duration_in_microseconds = 0;
  overflow_presentation_time = zero_time;
}

half_full-IsValid : IsValid half_full
half_full-IsValid = record {
  sized = refl;
  bounded = omega arith;
  within = omega arith;
  overflow_within = omega arith;
}

enqueue_word-extract_word_example :
    (b' : OutPacketBuffer) × (enqueue_word half_full 0x80600001 ≡ some b')
    × IsValid b'
    × (b'.packet_start ≡ 4)
    × (b'.limit ≡ 40)
    × (b'.cur_offset ≡ 8 + 4)
    × (extract_word b' 8 ≡ some 0x80600001)
    × ((q : ℕ) → q + 4 ≤ 8 → extract_word b' q ≡ extract_word half_full q)
enqueue_word-extract_word_example =
    enqueue_word-extract_word half_full 0x80600001 half_full-IsValid (omega arith) (omega arith)

insert_word-extract_word_example :
    (b' : OutPacketBuffer) × (insert_word half_full 0x80600001 2 ≡ some b')
    × IsValid b'
    × (b'.packet_start ≡ 4)
    × (b'.limit ≡ 40)
    × (2 + 4 ≤ b'.cur_offset)
    × (8 ≤ b'.cur_offset)
    × (extract_word b' 2 ≡ some 0x80600001)
    × ((q : ℕ)
        → (q + 4 ≤ 2) ⊎ (2 + 4 ≤ q)
        → 4 + q + 4 ≤ 40
        → extract_word b' q ≡ extract_word half_full q)
insert_word-extract_word_example =
    insert_word-extract_word half_full 0x80600001 2 half_full-IsValid (omega arith) (omega arith)

next_packet-overflow_example :
    (b' : OutPacketBuffer) × ((enqueue
          (reset_offset (adjust_packet_start half_full 10))
          (5 ∷ 6 ∷ 7 ∷ [])
          3
        >>= use_overflow_data)
      ≡ some b')
    × IsValid b'
    × (b'.cur_offset ≡ 3 + 2)
    × (bytes_at b' 0 3 ≡ 5 ∷ 6 ∷ 7 ∷ [])
    × (bytes_at b' 3 2 ≡ 71 ∷ 72 ∷ [])
next_packet-overflow_example =
    next_packet-overflow half_full 10 (5 ∷ 6 ∷ 7 ∷ []) half_full-IsValid (omega arith) (omega arith)
