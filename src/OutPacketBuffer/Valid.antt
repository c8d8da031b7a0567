-- ===== src/OutPacketBuffer/Valid.antt =====
-- Every operation keeps an output buffer sound.
use dorsvr.Common.{
  ℕ, ◌+◌, ◌≤◌, ◌≡◌, ap, ◌∙◌, List, some, length, copy_at, length-copy_at, slice?-in, le→ltb, lt→ltb,
  le→leb, lt→leb, arith, ◌+u◌, dec_lt, dec_le,
}
use dorsvr.OutPacketBuffer.{
  OutPacketBuffer, reset_packet_start, reset_offset, cut_to_available, total_bytes_available,
  enqueue, skip_bytes, increment, cur_ptr, adjust_packet_start,
}
use dorsvr.OutPacketBuffer.Spec.{IsValid}

pub cut_to_available-le :
    (b : OutPacketBuffer) (n : ℕ)
    → IsValid b
    → b.packet_start + b.cur_offset + cut_to_available b n ≤ b.limit
unfolding cut_to_available total_bytes_available
cut_to_available-le b n v = ground (arith, v.within, v.bounded)

pub cut_to_available-fits :
    (b : OutPacketBuffer) (n : ℕ)
    → IsValid b
    → b.packet_start + b.cur_offset + n ≤ b.limit
    → cut_to_available b n ≡ n
unfolding cut_to_available total_bytes_available
cut_to_available-fits b n v h = ground (arith, v.bounded)

-- `enqueue` on a sound buffer: where the bytes go.
abbrev pub enqueued : OutPacketBuffer → List ℕ → ℕ → OutPacketBuffer
enqueued b from n = record b {
  buff = copy_at b.buff (b.packet_start + b.cur_offset) from;
  cur_offset = b.cur_offset + cut_to_available b n;
}

pub enqueue-eq :
    (b : OutPacketBuffer) (from : List ℕ) (n : ℕ)
    → IsValid b
    → enqueue b from n ≡ some (enqueued b from n)
unfolding enqueue cur_ptr increment
enqueue-eq b from n v =
    rw
      (
        at,
        slice?-in b.buff (b.packet_start + b.cur_offset) (length b.buff)
            (omega (arith, v.within, v.sized)) (omega arith),
      )
      (ap
        (λ c.
          some (record b {
            buff = copy_at b.buff (b.packet_start + b.cur_offset) from;
            cur_offset = c;
          }))
        up)
  where
    at : b.packet_start +u b.cur_offset ≡ b.packet_start + b.cur_offset
    at = omega (arith, v.within, v.bounded)

    up : b.cur_offset +u cut_to_available b n ≡ b.cur_offset + cut_to_available b n
    up = omega (arith, v.bounded, cut_to_available-le b n v)

pub enqueued-IsValid :
    (b : OutPacketBuffer) (from : List ℕ) (n : ℕ) → IsValid b → IsValid (enqueued b from n)
enqueued-IsValid b from n v = record {
  sized = length-copy_at b.buff (b.packet_start + b.cur_offset) from ∙ v.sized;
  bounded = v.bounded;
  within = omega (arith, cut_to_available-le b n v);
  overflow_within = v.overflow_within;
}

pub skip_bytes-IsValid : (b : OutPacketBuffer) (n : ℕ) → IsValid b → IsValid (skip_bytes b n)
unfolding skip_bytes increment
skip_bytes-IsValid b n v = record {
  sized = v.sized;
  bounded = v.bounded;
  within = omega (arith, v.bounded, cut_to_available-le b n v);
  overflow_within = v.overflow_within;
}

-- What the buffer is asked to skip to, or to start again from, is in it.
unfoldable pub moved : OutPacketBuffer → ℕ → OutPacketBuffer
moved b n = reset_offset (adjust_packet_start b n)

pub moved-IsValid :
    (b : OutPacketBuffer) (n : ℕ) → IsValid b → b.packet_start + n ≤ b.limit → IsValid (moved b n)
unfolding moved reset_offset adjust_packet_start
moved-IsValid b n v h = elim (dec_le n b.overflow_data_offset) [
  | yes le ↦ rw (le→leb n b.overflow_data_offset le) (record {
    sized = v.sized;
    bounded = v.bounded;
    within = omega (arith, v.bounded);
    overflow_within = omega (arith, v.bounded, v.overflow_within);
  })
  | no gt ↦ rw (lt→leb b.overflow_data_offset n (omega arith)) (record {
    sized = v.sized;
    bounded = v.bounded;
    within = omega (arith, v.bounded);
    overflow_within = omega (arith, v.bounded);
  })
]

restarted-IsValid :
    (b : OutPacketBuffer) → IsValid b → IsValid (reset_offset (reset_packet_start b))
unfolding reset_offset reset_packet_start
restarted-IsValid b v = elim (dec_lt 0 b.overflow_data_size) [
  | yes lt ↦ rw (lt→ltb 0 b.overflow_data_size lt) (record {
    sized = v.sized;
    bounded = v.bounded;
    within = omega (arith, v.within);
    overflow_within = omega (arith, v.bounded, v.overflow_within);
  })
  | no ge ↦ rw (le→ltb b.overflow_data_size 0 (omega arith)) (record {
    sized = v.sized;
    bounded = v.bounded;
    within = omega (arith, v.within);
    overflow_within = omega (arith, v.overflow_within);
  })
]
