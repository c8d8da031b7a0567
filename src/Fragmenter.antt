-- ===== src/Fragmenter.antt =====
-- livemedia/h264_video_rtp_sink.go, `H264FUAFragmenter`: a filter that hands a NAL unit on whole if it
-- fits a packet, and as FU-A fragments if it does not. `none` is a panic: an index or a slice out of
-- range.
pub mod Spec
pub mod Buffer
pub mod Rounds
pub mod Client
pub mod Later
pub mod Unit
pub mod Frames
pub mod Reassembly
mod Tests
use dorsvr.Common.{
  ℕ, ◌+◌, ◌-◌, ◌*◌, ◌/◌, ◌%◌, ◌^◌, Bool, true, false, List, [], Option, none, some, ◌>>=◌, length,
  replicate, copy, get_elem?, write?, slice?, ltb, leb, ◌==◌, if◌then◌else◌, bit_and, bit_or,
  Timeval, zero_time, ◌+u◌, ◌-u◌,
}
use dorsvr.FramedSource.{FramedSource, Call, get_next_frame, after_getting}

pub record Fragmenter : Type 0 where
  pub framed : FramedSource
  pub open framed use *
  pub save_num_truncated_bytes : ℕ
  pub max_output_packet_size : ℕ
  pub num_valid_data_bytes : ℕ
  pub input_buffer_size : ℕ
  pub cur_data_offset : ℕ
  pub input_buffer : List ℕ
  pub last_fragment_completed_nal_unit : Bool

abbrev pub fresh_source : FramedSource
fresh_source = record {
  after_getting_func = none;
  on_close_func = none;
  buff_to = [];
  max_size = 0;
  frame_size = 0;
  num_truncated_bytes = 0;
  duration_in_microseconds = 0;
  is_currently_awaiting_data = false;
  presentation_time = zero_time;
}

unfoldable pub new_fragmenter : ℕ → ℕ → Fragmenter
new_fragmenter input_buffer_max max_output_packet_size = record {
  framed = fresh_source;
  save_num_truncated_bytes = 0;
  max_output_packet_size = max_output_packet_size;
  num_valid_data_bytes = 1;
  input_buffer_size = input_buffer_max +u 1;
  cur_data_offset = 1;
  input_buffer = replicate (input_buffer_max +u 1) 0;
  last_fragment_completed_nal_unit = false;
}

-- Case 1: the whole NAL unit, without the spare byte in front.
unfoldable pub deliver_whole : Fragmenter → Option Fragmenter
deliver_whole f = do
  unit ← slice? f.input_buffer 1 f.num_valid_data_bytes
  some (record f {
    framed = record f.framed {
      buff_to = copy f.buff_to unit;
      frame_size = f.num_valid_data_bytes -u 1;
    };
    cur_data_offset = f.num_valid_data_bytes;
  })

-- Case 2: the first fragment, behind the FU indicator and the FU header with the S bit.
unfoldable pub deliver_first : Fragmenter → Option Fragmenter
deliver_first f = do
  nal_header ← get_elem? f.input_buffer 1
  buffer0 ← write? f.input_buffer 0 (bit_or (bit_and nal_header 0xe0) 28)
  buffer1 ← write? buffer0 1 (bit_or 0x80 (bit_and nal_header 0x1f))
  fragment ← slice? buffer1 0 f.max_size
  some (record f {
    framed = record f.framed { buff_to = copy f.buff_to fragment; frame_size = f.max_size };
    input_buffer = buffer1;
    cur_data_offset = f.cur_data_offset +u (f.max_size -u 1);
    last_fragment_completed_nal_unit = false;
  })

-- The writes of a later fragment in front of its data: the FU indicator, and the FU header without
-- the S bit, with the E bit in the last one.
unfoldable pub write_fu_header : List ℕ → ℕ → Bool → Option (List ℕ)
write_fu_header buffer cur_data_offset is_last = do
  indicator ← get_elem? buffer 0
  buffer0 ← write? buffer (cur_data_offset -u 2) indicator
  header ← get_elem? buffer0 1
  buffer1 ← write? buffer0 (cur_data_offset -u 1) (bit_and header (0xff - 0x80))
  last_header ← get_elem? buffer1 (cur_data_offset -u 1)
  if is_last then write? buffer1 (cur_data_offset -u 1) (bit_or last_header 0x40) else some buffer1

-- A later fragment: as much as fits, and with the E bit if that is all.
unfoldable pub deliver_next : Fragmenter → Option Fragmenter
deliver_next f = do
  let remaining = 2 +u f.num_valid_data_bytes -u f.cur_data_offset
  let is_last = leb remaining f.max_size
  let num_bytes_to_send = (if is_last then remaining else f.max_size)
  buffer ← write_fu_header f.input_buffer f.cur_data_offset is_last
  fragment ← slice? buffer (f.cur_data_offset -u 2) (f.cur_data_offset -u 2 +u num_bytes_to_send)
  some (record f {
    framed = record f.framed {
      buff_to = copy f.buff_to fragment;
      frame_size = num_bytes_to_send;
      num_truncated_bytes = (if is_last then f.save_num_truncated_bytes else f.num_truncated_bytes);
    };
    input_buffer = buffer;
    cur_data_offset = f.cur_data_offset +u (num_bytes_to_send -u 2);
    last_fragment_completed_nal_unit = is_last;
  })

-- The pointers are reset when the data is used up.
unfoldable pub reset_when_done : Fragmenter → Fragmenter
reset_when_done f =
    if leb f.num_valid_data_bytes f.cur_data_offset
    then record f { num_valid_data_bytes = 1; cur_data_offset = 1 }
    else f

unfoldable pub cut_max_size : Fragmenter → Fragmenter
cut_max_size f =
    if ltb f.max_size f.max_output_packet_size
    then f
    else record f { framed = record f.framed { max_size = f.max_output_packet_size } }

unfoldable pub deliver_from : Fragmenter → Option Fragmenter
deliver_from f =
    if f.cur_data_offset == 1
    then if leb (f.num_valid_data_bytes -u 1) f.max_size
      then deliver_whole (record f { last_fragment_completed_nal_unit = true })
      else deliver_first (record f { last_fragment_completed_nal_unit = true })
    else deliver_next (record f { last_fragment_completed_nal_unit = true })

-- What `doGetNextFrame` does: it asks the input source for a NAL unit, into the buffer from its second
-- byte on, or it delivers a frame and calls back.
pub data Outcome : Type 0 where
  ask_input : Fragmenter → ℕ → Outcome
  delivered : Fragmenter → Option Call → Outcome

unfoldable pub finish_delivery : Fragmenter → Outcome
finish_delivery f =
    let (framed', call) = after_getting (reset_when_done f).framed in
    delivered (record (reset_when_done f) { framed = framed' }) call

unfoldable pub do_get_next_frame : Fragmenter → Option Outcome
do_get_next_frame f =
    if f.num_valid_data_bytes == 1
    then some (ask_input f (f.input_buffer_size -u 1))
    else deliver_from (cut_max_size f) >>= λ g. some (finish_delivery g)

-- `afterGettingFrame`: the input source has left a NAL unit of `frame_size` bytes in the buffer.
unfoldable pub after_getting_frame : Fragmenter → ℕ → ℕ → Timeval → Option Outcome
after_getting_frame f frame_size duration presentation_time = do_get_next_frame (record f {
  num_valid_data_bytes = f.num_valid_data_bytes +u frame_size;
  framed = record f.framed {
    presentation_time = presentation_time;
    duration_in_microseconds = duration;
  };
})

-- `GetNextFrame` of the framed source, whose source is the fragmenter itself.
unfoldable pub pull : Fragmenter → List ℕ → ℕ → Option ℕ → Option ℕ → Option Outcome
pull f buff_to max_size after_getting_func on_close_func =
    get_next_frame f.framed buff_to max_size after_getting_func on_close_func >>= λ framed'.
    do_get_next_frame (record f { framed = framed' })
