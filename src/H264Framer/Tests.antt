-- ===== src/H264Framer/Tests.antt =====
-- A short stream: an SPS unit of five bytes, a start code, and the head of the next unit.
use dorsvr.Common.{
  ℕ, ◌≡◌, ◌↔◌, refl, true, false, List, [], ◌∷◌, ◌++◌, none, some, take, drop, replicate, zero_time,
  arith,
}
use dorsvr.StreamParser.{StreamParser, done, get1_byte, next_to_parse}
use dorsvr.Binary.{uint32}
use dorsvr.H264Framer.{H264VideoStreamParser, save_nal_unit, is_start}
use dorsvr.H264Framer.Unread.{unread, IsReady}
use dorsvr.H264Framer.Saved.{HasRoom}
use dorsvr.H264Framer.Moved.{saved_bytes, save_nal_unit-scan}
use dorsvr.H264Framer.Emulation.{remove_emulation_bytes}
use dorsvr.H264Framer.Escape.{remove_emulation_bytes-escape}
use dorsvr.H264Framer.Headers.{SliceHeader, SeqParameterSet, analyze_sps_data, analyze_slice_header}
use dorsvr.H264Framer.Sei.{analyze_sei_data, analyze_sei_data_total}
use dorsvr.H264Framer.AccessUnit.{ends_access_unit, nal_unit_type, has_slice_header}
use dorsvr.H264Framer.SamePicture.{SamePicture, ends_access_unit-SamePicture}
use dorsvr.H264Framer.Finishes.{analyze_sps_data_total, analyze_slice_header_total}
use dorsvr.BitVector.{BitVector, golomb_loop, get1_bit}

abbrev stream_bytes : List ℕ
stream_bytes = 0x67 ∷ 0x42 ∷ 0x00 ∷ 0x00 ∷ 0x03 ∷ 0 ∷ 0 ∷ 0 ∷ 1 ∷ 0x68 ∷ []

abbrev stream : StreamParser
stream = record {
  cur_bank_num = 0;
  cur_parser_index = 0;
  save_parser_index = 0;
  tot_num_valid_bytes = 10;
  saved_parser_index = 0;
  remaining_unparsed_bits = 0;
  saved_remaining_unparsed_bits = 0;
  have_seen_eof = false;
  cur_bank = stream_bytes;
  other_bank = [];
  max_input_frame_size = 0;
  last_seen_presentation_time = zero_time;
}

abbrev parser : H264VideoStreamParser
parser = record {
  video = record {
    stream = stream;
    buff_to = replicate 12 0;
    num_limit_bytes = 12;
    num_saved_bytes = 0;
    num_truncated_bytes = 0;
    saved_cur_frame_size = 0;
    saved_num_truncated_bytes = 0;
  };
  output_start_code_size = 0;
  first_byte_of_nal_unit = 0;
  log2_max_frame_num = 5;
  frame_mbs_only_flag = true;
  separate_colour_plane_flag = false;
  have_seen_first_start_code = true;
  have_seen_first_byte_of_nal_unit = false;
}

stream-IsReady : IsReady stream
stream-IsReady = record { cursor_in = omega arith; valid_in = omega arith; no_wrap = omega arith }

parser-HasRoom : HasRoom parser.video 5
parser-HasRoom = record { under_limit = omega arith; limit_in = omega arith; no_wrap = omega arith }

-- A run on the stream.
first_unit :
    take 5 (elim (save_nal_unit 6 parser) [ done k p' ↦ p'.video.buff_to | _ ↦ [] ])
    ≡ 0x67 ∷ 0x42 ∷ 0x00 ∷ 0x00 ∷ 0x03 ∷ []
unfolding save_nal_unit next_to_parse uint32 is_start
first_unit = refl

-- `get1Byte` returns the byte behind the next one.
second_byte : elim (get1_byte stream) [ done b p ↦ b | _ ↦ 0 ] ≡ 0x42
unfolding get1_byte
second_byte = refl

save_nal_unit-scan_example :
    (p' : H264VideoStreamParser) × (save_nal_unit 6 parser ≡ done 4 p')
    × (saved_bytes p'.video ≡ [] ++ (0x67 ∷ 0x42 ∷ 0x00 ∷ 0x00 ∷ 0x03 ∷ []))
    × (unread p'.video.stream ≡ drop 9 stream_bytes)
    × IsReady p'.video.stream
    × (p'.video.num_truncated_bytes ≡ 0)
save_nal_unit-scan_example =
    save_nal_unit-scan 6 4 (0x67 ∷ 0x42 ∷ 0x00 ∷ 0x00 ∷ 0x03 ∷ []) parser stream-IsReady
      (
        omega arith,
        (
          omega arith,
          (
            omega arith,
            (
              omega arith,
              (
                omega arith,
                (omega arith, (omega arith, (omega arith, (omega arith, (omega arith, tt))))),
              ),
            ),
          ),
        ),
      )
      refl parser-HasRoom (omega arith)

remove_emulation_bytes-escape_example :
    (out' : List ℕ) × (remove_emulation_bytes (0x67 ∷ 0 ∷ 0 ∷ 3 ∷ 1 ∷ 9 ∷ []) 5 (replicate 8 0) 6
      ≡ some (out', 4))
    × (take 4 out' ≡ 0x67 ∷ 0 ∷ 0 ∷ 1 ∷ [])
remove_emulation_bytes-escape_example =
    remove_emulation_bytes-escape (0x67 ∷ 0 ∷ 0 ∷ 1 ∷ []) (9 ∷ []) (replicate 8 0) 6 (omega arith)
      (omega arith)

-- The parser with five bytes saved.
abbrev five_saved : H264VideoStreamParser
five_saved = record parser { video = record parser.video { num_saved_bytes = 5 } }

analyze_sps_data_total_example :
    (sps_data : SeqParameterSet) × (k : ℕ) × (analyze_sps_data five_saved stream_bytes
      ≡ some (sps_data, record five_saved { log2_max_frame_num = k }))
analyze_sps_data_total_example = analyze_sps_data_total five_saved stream_bytes (omega arith)

-- Two slices of the same size.
first_slice :
    (header : SliceHeader) × (v : BitVector) × (analyze_slice_header five_saved stream_bytes
        (nal_unit_type 0x65)
      ≡ some (header, v))
first_slice =
    analyze_slice_header_total five_saved stream_bytes (nal_unit_type 0x65) (omega arith)
      (omega arith) (omega arith)

next_slice :
    (header : SliceHeader) × (v : BitVector) × (analyze_slice_header five_saved
        (0x41 ∷ 0xb8 ∷ 0x80 ∷ 0x21 ∷ 0x43 ∷ [])
        (nal_unit_type 0x41)
      ≡ some (header, v))
next_slice =
    analyze_slice_header_total five_saved (0x41 ∷ 0xb8 ∷ 0x80 ∷ 0x21 ∷ 0x43 ∷ [])
      (nal_unit_type 0x41) (omega arith) (omega arith) (omega arith)

idr_slice : has_slice_header (nal_unit_type 0x65) ≡ true
unfolding nal_unit_type
idr_slice = refl

other_slice : has_slice_header (nal_unit_type 0x41) ≡ true
unfolding nal_unit_type
other_slice = refl

ends_access_unit-SamePicture_example :
    (ends_access_unit five_saved 0x65 stream_bytes 0x41 (0x41 ∷ 0xb8 ∷ 0x80 ∷ 0x21 ∷ 0x43 ∷ [])
      ≡ some false)
    ↔ SamePicture 0x65 0x41 first_slice.0 next_slice.0
ends_access_unit-SamePicture_example =
    ends_access_unit-SamePicture five_saved 0x65 0x41 stream_bytes
      (0x41 ∷ 0xb8 ∷ 0x80 ∷ 0x21 ∷ 0x43 ∷ []) first_slice.0 next_slice.0 first_slice.1 next_slice.1
      refl idr_slice other_slice first_slice.2 next_slice.2

analyze_sei_data_total_example : (k : ℕ) × (analyze_sei_data five_saved stream_bytes ≡ some k)
analyze_sei_data_total_example =
    analyze_sei_data_total five_saved stream_bytes (omega arith) (omega arith)

-- Two units as an encoder writes them.
abbrev two_units : List (List ℕ)
two_units = (0x67 ∷ 0 ∷ 0 ∷ 1 ∷ []) ∷ (0x68 ∷ []) ∷ []

abbrev encoded : H264VideoStreamParser
encoded = record parser {
  video = record parser.video {
    stream = record stream {
      tot_num_valid_bytes = 14;
      cur_bank = 0x67 ∷ 0 ∷ 0 ∷ 3 ∷ 1 ∷ 0 ∷ 0 ∷ 0 ∷ 1 ∷ 0x68 ∷ 0 ∷ 0 ∷ 0 ∷ 1 ∷ [];
    };
  };
}

-- Where fewer than twelve bytes are ahead, the next slice header is read from zeros, with the length
-- of this unit; a longer one is read past the twelve bytes.
past_twelve :
    analyze_slice_header
      (record parser { video = record parser.video { num_saved_bytes = 20 } })
      (replicate 12 0)
      1
    ≡ none
unfolding analyze_slice_header golomb_loop get1_bit
past_twelve = refl
