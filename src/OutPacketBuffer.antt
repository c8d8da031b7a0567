-- ===== src/OutPacketBuffer.antt =====
-- livemedia/media_sink.go, `OutPacketBuffer`: the buffer in which a sink builds its packets, with the
-- data that did not fit the packet before. `none` is a panic: a slice bound out of range, or a division
-- by zero.
pub mod Spec
pub mod Bytes
pub mod Valid
pub mod Words
pub mod Overflow
mod Tests
use dorsvr.Common.{
  ℕ, ◌+◌, ◌/◌, ◌*◌, Bool, true, false, List, Option, none, some, ◌>>=◌, length, replicate, copy,
  copy_at, slice?, ltb, leb, ◌==◌, if◌then◌else◌, guard, Timeval, zero_time, ◌+u◌, ◌-u◌, ◌*u◌,
}
use dorsvr.Binary.{put_uint32, big_endian_uint32}

pub record OutPacketBuffer : Type 0 where
  pub buff : List ℕ
  pub limit : ℕ
  pub preferred : ℕ
  pub cur_offset : ℕ
  pub packet_start : ℕ
  pub max_packet_size : ℕ
  pub overflow_data_size : ℕ
  pub overflow_data_offset : ℕ
  pub overflow_duration_in_microseconds : ℕ
  pub overflow_presentation_time : Timeval

-- `OutPacketBufferMaxSize`
abbrev pub out_packet_buffer_max_size : ℕ
out_packet_buffer_max_size = 2000000

unfoldable pub reset_packet_start : OutPacketBuffer → OutPacketBuffer
reset_packet_start b =
    if ltb 0 b.overflow_data_size
    then record b {
      overflow_data_offset = b.overflow_data_offset +u b.packet_start;
      packet_start = 0;
    }
    else record b { packet_start = 0 }

unfoldable pub reset_offset : OutPacketBuffer → OutPacketBuffer
reset_offset b = record b { cur_offset = 0 }

unfoldable pub reset_overflow_data : OutPacketBuffer → OutPacketBuffer
reset_overflow_data b = record b { overflow_data_size = 0; overflow_data_offset = 0 }

unfoldable pub new_out_packet_buffer : ℕ → ℕ → Option OutPacketBuffer
new_out_packet_buffer preferred_packet_size max_packet_size =
    let max_num_packets =
      (out_packet_buffer_max_size +u (max_packet_size -u 1)) / max_packet_size in
    let limit = max_num_packets *u max_packet_size in
    if max_packet_size == 0
    then none
    else some (
        reset_overflow_data (
          reset_packet_start (
            reset_offset (record {
              buff = replicate limit 0;
              limit = limit;
              preferred = preferred_packet_size;
              cur_offset = 0;
              packet_start = 0;
              max_packet_size = max_packet_size;
              overflow_data_size = 0;
              overflow_data_offset = 0;
              overflow_duration_in_microseconds = 0;
              overflow_presentation_time = zero_time;
            }))))

unfoldable pub packet : OutPacketBuffer → Option (List ℕ)
packet b = slice? b.buff b.packet_start (length b.buff)

unfoldable pub cur_ptr : OutPacketBuffer → Option (List ℕ)
cur_ptr b = slice? b.buff (b.packet_start +u b.cur_offset) (length b.buff)

unfoldable pub increment : OutPacketBuffer → ℕ → OutPacketBuffer
increment b num_bytes = record b { cur_offset = b.cur_offset +u num_bytes }

unfoldable pub have_overflow_data : OutPacketBuffer → Bool
have_overflow_data b = ltb 0 b.overflow_data_size

unfoldable pub is_preferred_size : OutPacketBuffer → Bool
is_preferred_size b = leb b.preferred b.cur_offset

unfoldable pub set_overflow_data : OutPacketBuffer → ℕ → ℕ → ℕ → Timeval → OutPacketBuffer
set_overflow_data b offset size duration presentation_time = record b {
  overflow_data_size = size;
  overflow_data_offset = offset;
  overflow_presentation_time = presentation_time;
  overflow_duration_in_microseconds = duration;
}

unfoldable pub adjust_packet_start : OutPacketBuffer → ℕ → OutPacketBuffer
adjust_packet_start b num_bytes =
    if leb num_bytes b.overflow_data_offset
    then record b {
      packet_start = b.packet_start +u num_bytes;
      overflow_data_offset = b.overflow_data_offset -u num_bytes;
    }
    else record b {
      packet_start = b.packet_start +u num_bytes;
      overflow_data_offset = 0;
      overflow_data_size = 0;
    }

unfoldable pub total_bytes_available : OutPacketBuffer → ℕ
total_bytes_available b = b.limit -u (b.packet_start +u b.cur_offset)

-- The bytes that `enqueue` and `skipBytes` count: what is available at most.
unfoldable pub cut_to_available : OutPacketBuffer → ℕ → ℕ
cut_to_available b num_bytes =
    if ltb (total_bytes_available b) num_bytes then total_bytes_available b else num_bytes

-- `enqueue` copies all of `from`, whatever `num_bytes` is, as far as the buffer goes.
unfoldable pub enqueue : OutPacketBuffer → List ℕ → ℕ → Option OutPacketBuffer
enqueue b from num_bytes = cur_ptr b >>= λ _. some (
    increment (record b { buff = copy_at b.buff (b.packet_start +u b.cur_offset) from })
      (cut_to_available b num_bytes))

unfoldable pub use_overflow_data : OutPacketBuffer → Option OutPacketBuffer
use_overflow_data b =
    slice? b.buff (b.packet_start +u b.overflow_data_offset) (length b.buff) >>= λ from.
    enqueue b from b.overflow_data_size

unfoldable pub enqueue_word : OutPacketBuffer → ℕ → Option OutPacketBuffer
enqueue_word b word = enqueue b (put_uint32 word) 4

-- The copy of `insert`, of a number of bytes that fits.
unfoldable pub insert_fitting : OutPacketBuffer → List ℕ → ℕ → ℕ → Option OutPacketBuffer
insert_fitting b from num_bytes to_position = slice? from 0 num_bytes >>= λ bytes.
    slice? b.buff (b.packet_start +u to_position) (length b.buff) >>= λ _. some (record b {
      buff = copy_at b.buff (b.packet_start +u to_position) bytes;
      cur_offset =
          (if ltb b.cur_offset (to_position +u num_bytes)
            then to_position +u num_bytes
            else b.cur_offset);
    })

unfoldable pub insert : OutPacketBuffer → List ℕ → ℕ → ℕ → Option OutPacketBuffer
insert b from num_bytes to_position =
    let real_to_position = b.packet_start +u to_position in
    if ltb b.limit (real_to_position +u num_bytes)
    then if ltb b.limit real_to_position
      then some b
      else insert_fitting b from (b.limit -u real_to_position) to_position
    else insert_fitting b from num_bytes to_position

unfoldable pub insert_word : OutPacketBuffer → ℕ → ℕ → Option OutPacketBuffer
insert_word b word to_position = insert b (put_uint32 word) 4 to_position

unfoldable pub would_overflow : OutPacketBuffer → ℕ → Bool
would_overflow b num_bytes = ltb b.max_packet_size (b.cur_offset +u num_bytes)

unfoldable pub num_overflow_bytes : OutPacketBuffer → ℕ → ℕ
num_overflow_bytes b num_bytes = b.cur_offset +u num_bytes -u b.max_packet_size

unfoldable pub is_too_big_for_a_packet : OutPacketBuffer → ℕ → Bool
is_too_big_for_a_packet b num_bytes = ltb b.max_packet_size num_bytes

-- `extract` leaves in `to` what it copies there.
unfoldable pub extract : OutPacketBuffer → List ℕ → ℕ → ℕ → Option (List ℕ)
extract b to num_bytes from_position =
    let real_from_position = b.packet_start +u from_position in
    let copied : ℕ → Option (List ℕ) = (λ n.
      slice? b.buff real_from_position (real_from_position +u n) >>= λ bytes.
      some (copy to bytes)) in
    if ltb b.limit (real_from_position +u num_bytes)
    then if ltb b.limit real_from_position then some to else copied (b.limit -u real_from_position)
    else copied num_bytes

unfoldable pub extract_word : OutPacketBuffer → ℕ → Option ℕ
extract_word b from_position =
    extract b (replicate 4 0) 4 from_position >>= λ word. big_endian_uint32 word

unfoldable pub skip_bytes : OutPacketBuffer → ℕ → OutPacketBuffer
skip_bytes b num_bytes = increment b (cut_to_available b num_bytes)
