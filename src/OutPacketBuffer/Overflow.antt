-- ===== src/OutPacketBuffer/Overflow.antt =====
-- The data that did not fit a packet opens the next one.
use dorsvr.Common.{
  ℕ, ◌+◌, ◌-◌, ◌≤◌, ◌≡◌, refl, ap, ◌∙◌, List, some, ◌>>=◌, length, take, drop, copy_at,
  length-copy_at, length-drop, slice?-in, le→leb, arith, ◌+u◌, ◌-u◌, take-all,
}
use dorsvr.OutPacketBuffer.{
  OutPacketBuffer, reset_offset, adjust_packet_start, enqueue, use_overflow_data,
}
use dorsvr.OutPacketBuffer.Spec.{IsValid, bytes_at}
use dorsvr.OutPacketBuffer.Bytes.{copied_at, copied_prefix, copied_behind, copied_after}
use dorsvr.OutPacketBuffer.Valid.{
  enqueued, enqueue-eq, enqueued-IsValid, cut_to_available-fits, moved,
}

-- The overflow data is enqueued, and the rest of the buffer behind it is copied along.
use_overflow_data-eq :
    (b : OutPacketBuffer)
    → IsValid b
    → use_overflow_data b
      ≡ some
          (enqueued b (drop (b.packet_start + b.overflow_data_offset) b.buff) b.overflow_data_size)
unfolding use_overflow_data
use_overflow_data-eq b v =
    rw
      (
        at,
        slice?-in b.buff (b.packet_start + b.overflow_data_offset) (length b.buff)
            (omega (arith, v.sized, v.overflow_within)) (omega arith),
        take-all (length b.buff - (b.packet_start + b.overflow_data_offset))
            (drop (b.packet_start + b.overflow_data_offset) b.buff)
            (omega (arith, length-drop (b.packet_start + b.overflow_data_offset) b.buff)),
      )
      (enqueue-eq b (drop (b.packet_start + b.overflow_data_offset) b.buff) b.overflow_data_size v)
  where
    at : b.packet_start +u b.overflow_data_offset ≡ b.packet_start + b.overflow_data_offset
    at = omega (arith, v.bounded, v.overflow_within)

abbrev next : OutPacketBuffer → ℕ → OutPacketBuffer
next b n = record b {
  packet_start = b.packet_start + n;
  overflow_data_offset = b.overflow_data_offset - n;
  cur_offset = 0;
}

moved-eq :
    (b : OutPacketBuffer) (n : ℕ) → IsValid b → n ≤ b.overflow_data_offset → moved b n ≡ next b n
unfolding moved reset_offset adjust_packet_start
moved-eq b n v le = rw (le→leb n b.overflow_data_offset le, at, ofs) refl
  where
    at : b.packet_start +u n ≡ b.packet_start + n
    at = omega (arith, v.bounded, v.overflow_within)

    ofs : b.overflow_data_offset -u n ≡ b.overflow_data_offset - n
    ofs = omega (arith, v.bounded, v.overflow_within)

module _ (b : OutPacketBuffer) (n : ℕ) (header : List ℕ) (v : IsValid b)
    (le : n ≤ b.overflow_data_offset) (room : length header ≤ b.overflow_data_offset - n) where
  abbrev with_header : OutPacketBuffer
  with_header = record (next b n) {
    buff = copy_at b.buff (b.packet_start + n + 0) header;
    cur_offset = length header;
  }

  next-IsValid : IsValid (next b n)
  next-IsValid = record {
    sized = v.sized;
    bounded = v.bounded;
    within = omega (arith, v.overflow_within);
    overflow_within = omega (arith, v.overflow_within);
  }

  header_written : enqueue (next b n) header (length header) ≡ some with_header
  header_written =
      enqueue-eq (next b n) header (length header) next-IsValid
      ∙ ap
          (λ c. some (record (next b n) {
            buff = copy_at b.buff (b.packet_start + n + 0) header;
            cur_offset = c;
          }))
          (omega (
            arith,
            cut_to_available-fits (next b n) (length header) next-IsValid
                (omega (arith, v.overflow_within)),
          ))

  with_header-IsValid : IsValid with_header
  with_header-IsValid = record {
    sized = length-copy_at b.buff (b.packet_start + n + 0) header ∙ v.sized;
    bounded = v.bounded;
    within = omega (arith, v.overflow_within);
    overflow_within = omega (arith, v.overflow_within);
  }

  -- The overflow data where it was, seen from the new packet.
  abbrev left_over : List ℕ
  left_over = drop (b.packet_start + n + (b.overflow_data_offset - n)) with_header.buff

  left_over_lem : left_over ≡ drop (b.packet_start + b.overflow_data_offset) b.buff
  left_over_lem =
      copied_after b.buff (b.packet_start + n + 0) header
        (b.packet_start + n + (b.overflow_data_offset - n)) (omega arith)
      ∙ ap (λ i. drop i b.buff) (omega arith)

  size-le : b.overflow_data_size ≤ length left_over
  size-le = omega (
    arith,
    ap (λ xs. length xs) left_over_lem,
    length-drop (b.packet_start + b.overflow_data_offset) b.buff,
    v.sized,
    v.overflow_within,
  )

-- A sink that has overflow data moves the packet's start up by `n` bytes, at most to the data, and
-- enqueues a header that fits in front of the data. Then it uses the overflow data: on a sound buffer the
-- next packet is exactly the header and the overflow data, whose bytes the header has not touched.
pub next_packet-overflow :
    (b : OutPacketBuffer) (n : ℕ) (header : List ℕ)
    → IsValid b
    → n ≤ b.overflow_data_offset
    → length header ≤ b.overflow_data_offset - n
    → (b' : OutPacketBuffer) × ((enqueue
            (reset_offset (adjust_packet_start b n))
            header
            (length header)
          >>= use_overflow_data)
        ≡ some b')
      × IsValid b'
      × (b'.cur_offset ≡ length header + b.overflow_data_size)
      × (bytes_at b' 0 (length header) ≡ header)
      × (bytes_at b' (length header) b.overflow_data_size
          ≡ bytes_at b b.overflow_data_offset b.overflow_data_size)
unfolding moved
next_packet-overflow b n header v le room = (
  enqueued h rest size,
  ap (λ c. enqueue c header (length header) >>= use_overflow_data) (moved-eq b n v le)
      ∙ ap (λ o. o >>= use_overflow_data) (header_written b n header v le room)
      ∙ use_overflow_data-eq h vh,
  enqueued-IsValid h rest size vh,
  ap (λ c. length header + c) (cut_to_available-fits h size vh (omega (arith, v.overflow_within))),
  copied_behind h.buff (b.packet_start + n + length header) rest (b.packet_start + n + 0)
        (length header) (omega arith)
      ∙ copied_at b.buff (b.packet_start + n + 0) header
          (omega (arith, v.sized, v.overflow_within)),
  copied_prefix size h.buff (b.packet_start + n + length header) rest (size-le b n header v le room)
        (omega (arith, vh.sized, v.overflow_within))
      ∙ ap (take size) (left_over_lem b n header v le room),
)
  where
    size : ℕ
    size = b.overflow_data_size

    h : OutPacketBuffer
    h = with_header b n header v le room

    rest : List ℕ
    rest = left_over b n header v le room

    vh : IsValid h
    vh = with_header-IsValid b n header v le room
