-- ===== src/H264Framer/Headers.antt =====
-- livemedia/h264_video_stream_framer_linux_amd64.go: the headers that are read bit by bit. A local
-- variable that no code reads again is dropped, and what it is read from is skipped alike.
use dorsvr.Common.{
  ℕ, zero, suc, ◌+◌, ◌%◌, Bool, true, false, not, ◌||◌, List, Option, some, replicate, ltb, ◌==◌,
  ◌>>=◌, if◌then◌else◌, ◌+u◌, ◌-u◌, ◌*u◌,
}
use dorsvr.BitVector.{
  BitVector, new_bit_vector, get_bits, get1_bit, get1_bit_boolean, skip_bits, get_exp_golomb,
}
use dorsvr.H264Framer.{H264VideoStreamParser}
use dorsvr.H264Framer.Emulation.{remove_emulation_bytes, sps_max_size}

pub record SliceHeader : Type 0 where
  pub frame_num : ℕ
  pub idr_pic_id : ℕ
  pub pic_parameter_set_id : ℕ
  pub field_pic_flag : Bool
  pub bottom_field_flag : Bool

-- A step that reads only where a flag is set, else the value that it leaves.
abbrev pub read_if :
    {A : Type 0}
    → Bool
    → A
    → (BitVector → Option (A × BitVector))
    → BitVector
    → Option (A × BitVector)
read_if true a f v = f v
read_if false a f v = some (a, v)

-- The two flags of a field, where the frame may be one.
unfoldable pub field_flags : BitVector → Option ((Bool × Bool) × BitVector)
unfolding get1_bit_boolean
field_flags v = do
  (field_pic_flag, v1) ← get1_bit_boolean v
  (bottom_field_flag, v2) ← read_if field_pic_flag false get1_bit_boolean v1
  some ((field_pic_flag, bottom_field_flag), v2)

-- `analyzeSliceHeader`, on the vector that it makes.
unfoldable pub slice_header_from :
    H264VideoStreamParser → ℕ → BitVector → Option (SliceHeader × BitVector)
unfolding skip_bits get_exp_golomb get_bits field_flags
slice_header_from p nal_unit_type v = do
  (first_mb_in_slice, v1) ← get_exp_golomb (skip_bits v 8)
  (slice_type, v2) ← get_exp_golomb v1
  (pic_parameter_set_id, v3) ← get_exp_golomb v2
  let v4 = if p.separate_colour_plane_flag then skip_bits v3 2 else v3
  (frame_num, v5) ← get_bits v4 p.log2_max_frame_num
  (flags, v6) ← read_if (not p.frame_mbs_only_flag) (false, false) field_flags v5
  (idr_pic_id, v7) ← read_if (nal_unit_type == 5) 0 get_exp_golomb v6
  some (
    record {
      frame_num = frame_num;
      idr_pic_id = idr_pic_id;
      pic_parameter_set_id = pic_parameter_set_id;
      field_pic_flag = flags.0;
      bottom_field_flag = flags.1;
    },
    v7,
  )

unfoldable pub analyze_slice_header :
    H264VideoStreamParser → List ℕ → ℕ → Option (SliceHeader × BitVector)
unfolding new_bit_vector slice_header_from
analyze_slice_header p start nal_unit_type =
    slice_header_from p nal_unit_type
      (new_bit_vector start 0 (8 *u (p.video.num_saved_bytes -u p.output_start_code_size)))

pub record SeqParameterSet : Type 0 where
  pub time_scale : ℕ
  pub num_units_in_tick : ℕ
  pub fixed_frame_rate_flag : ℕ

abbrev pub no_sps_data : SeqParameterSet
no_sps_data = record { time_scale = 0; num_units_in_tick = 0; fixed_frame_rate_flag = 0 }

unfoldable pub timing_info : BitVector → Option (SeqParameterSet × BitVector)
unfolding get_bits get1_bit
timing_info v = do
  (num_units_in_tick, v1) ← get_bits v 32
  (time_scale, v2) ← get_bits v1 32
  (fixed_frame_rate_flag, v3) ← get1_bit v2
  some (
    record {
      time_scale = time_scale;
      num_units_in_tick = num_units_in_tick;
      fixed_frame_rate_flag = fixed_frame_rate_flag;
    },
    v3,
  )

-- The aspect ratio, with its extended form.
unfoldable pub skip_aspect_ratio : BitVector → Option (ℕ × BitVector)
unfolding get_bits skip_bits
skip_aspect_ratio v = do
  (aspect_ratio_idc, v1) ← get_bits v 8
  some (0, if aspect_ratio_idc == 255 then skip_bits v1 32 else v1)

unfoldable pub skip_video_signal_type : BitVector → Option (ℕ × BitVector)
unfolding get1_bit skip_bits
skip_video_signal_type v = do
  (colour_description_present_flag, v1) ← get1_bit (skip_bits v 4)
  some (0, if colour_description_present_flag == 0 then v1 else skip_bits v1 24)

unfoldable pub skip_two_golomb : BitVector → Option (ℕ × BitVector)
unfolding get_exp_golomb
skip_two_golomb v = get_exp_golomb v >>= λ r. get_exp_golomb r.1

-- `analyzeVUIParameters`
unfoldable pub analyze_vui_parameters : BitVector → Option (SeqParameterSet × BitVector)
unfolding get1_bit skip_bits skip_aspect_ratio skip_video_signal_type skip_two_golomb timing_info
analyze_vui_parameters v = do
  (aspect_ratio_info_present_flag, v1) ← get1_bit v
  (_, v2) ← read_if (not (aspect_ratio_info_present_flag == 0)) 0 skip_aspect_ratio v1
  (overscan_info_present_flag, v3) ← get1_bit v2
  let v4 = if overscan_info_present_flag == 0 then v3 else skip_bits v3 1
  (video_signal_type_present_flag, v5) ← get1_bit v4
  (_, v6) ← read_if (not (video_signal_type_present_flag == 0)) 0 skip_video_signal_type v5
  (chroma_loc_info_present_flag, v7) ← get1_bit v6
  (_, v8) ← read_if (not (chroma_loc_info_present_flag == 0)) 0 skip_two_golomb v7
  (timing_info_present_flag, v9) ← get1_bit v8
  read_if (not (timing_info_present_flag == 0)) no_sps_data timing_info v9

-- The innermost loop: one scaling list of `size` entries.
unfoldable pub scaling_list : ℕ → ℕ → ℕ → BitVector → Option (ℕ × BitVector)
unfolding get_exp_golomb
scaling_list zero last_scale next_scale v = some (0, v)
scaling_list (suc size) last_scale next_scale v =
    read_if (not (next_scale == 0)) 0 get_exp_golomb v >>= λ r.
    let next = if next_scale == 0 then 0 else (last_scale +u r.0 +u 256) % 256 in
    scaling_list size (if next == 0 then last_scale else next) next r.1

-- The loop over the scaling lists, from list `i` on, with `left` of them to go.
unfoldable pub scaling_lists : ℕ → ℕ → BitVector → Option (ℕ × BitVector)
unfolding get1_bit scaling_list
scaling_lists zero i v = some (0, v)
scaling_lists (suc left) i v = get1_bit v >>= λ r.
    read_if (not (r.0 == 0)) 0 (scaling_list (if ltb i 6 then 16 else 24) 8 8) r.1 >>= λ s.
    scaling_lists left (i + 1) s.1

-- The part that only the high profiles have.
unfoldable pub high_profile : BitVector → Option (ℕ × BitVector)
unfolding get_exp_golomb get1_bit skip_bits scaling_lists skip_two_golomb
high_profile v = do
  (chroma_format_idc, v1) ← get_exp_golomb v
  (_, v2) ← read_if (chroma_format_idc == 3) 0 get1_bit v1
  (_, v3) ← skip_two_golomb v2
  (seq_scaling_matrix_present_flag, v4) ← get1_bit (skip_bits v3 1)
  read_if (not (seq_scaling_matrix_present_flag == 0)) 0
      (scaling_lists (if chroma_format_idc == 3 then 12 else 8) 0) v4

abbrev pub is_high_profile : ℕ → Bool
is_high_profile idc =
    idc == 100
    || idc == 110
    || idc == 122
    || idc == 244
    || idc == 44
    || idc == 83
    || idc == 86
    || idc == 118
    || idc == 128

unfoldable pub skip_golombs : ℕ → BitVector → Option (ℕ × BitVector)
unfolding get_exp_golomb
skip_golombs zero v = some (0, v)
skip_golombs (suc n) v = get_exp_golomb v >>= λ r. skip_golombs n r.1

unfoldable pub order_cycle : BitVector → Option (ℕ × BitVector)
unfolding get_exp_golomb skip_bits skip_two_golomb skip_golombs
order_cycle v = do
  (_, v1) ← skip_two_golomb (skip_bits v 1)
  (num_ref_frames_in_pic_order_cnt_cycle, v2) ← get_exp_golomb v1
  skip_golombs num_ref_frames_in_pic_order_cnt_cycle v2

unfoldable pub pic_order_cnt : ℕ → BitVector → Option (ℕ × BitVector)
unfolding get_exp_golomb order_cycle
pic_order_cnt pic_order_cnt_type v =
    if pic_order_cnt_type == 0
    then get_exp_golomb v
    else read_if (pic_order_cnt_type == 1) 0 order_cycle v

-- From the number of reference frames to the cropping.
unfoldable pub frame_size : BitVector → Option (ℕ × BitVector)
unfolding get_exp_golomb get1_bit get1_bit_boolean skip_bits skip_two_golomb skip_golombs
frame_size v = do
  (max_num_ref_frames, v1) ← get_exp_golomb v
  (gaps_in_frame_num_value_allowed_flag, v2) ← get1_bit v1
  (_, v3) ← skip_two_golomb v2
  (frame_mbs_only_flag, v4) ← get1_bit_boolean v3
  let v5 = if frame_mbs_only_flag then v4 else skip_bits v4 1
  (frame_cropping_flag, v6) ← get1_bit (skip_bits v5 1)
  read_if (not (frame_cropping_flag == 0)) 0 (skip_golombs 4) v6

-- `analyzeSPSData`, on the vector that it makes: `log2MaxFrameNum` and the data of the set.
unfoldable pub sps_data_from : BitVector → Option ((ℕ × SeqParameterSet) × BitVector)
unfolding get_bits get_exp_golomb get1_bit skip_bits high_profile pic_order_cnt frame_size
    analyze_vui_parameters
sps_data_from v = do
  (profile_idc, v1) ← get_bits (skip_bits v 8) 8
  (constraint_set_n_flag, v2) ← get_bits v1 8
  (level_idc, v3) ← get_bits v2 8
  (seq_parameter_set_id, v4) ← get_exp_golomb v3
  (_, v5) ← read_if (is_high_profile profile_idc) 0 high_profile v4
  (log2_max_frame_num_minus4, v6) ← get_exp_golomb v5
  (pic_order_cnt_type, v7) ← get_exp_golomb v6
  (_, v8) ← pic_order_cnt pic_order_cnt_type v7
  (_, v9) ← frame_size v8
  (vui_parameters_present_flag, v10) ← get1_bit v9
  (sps_data, v11) ←
      read_if (not (vui_parameters_present_flag == 0)) no_sps_data analyze_vui_parameters v10
  some ((log2_max_frame_num_minus4 +u 4, sps_data), v11)

unfoldable pub analyze_sps_data :
    H264VideoStreamParser → List ℕ → Option (SeqParameterSet × H264VideoStreamParser)
unfolding remove_emulation_bytes new_bit_vector sps_data_from
analyze_sps_data p nal_unit_orig = do
  (sps, sps_size) ←
      remove_emulation_bytes nal_unit_orig p.video.num_saved_bytes (replicate sps_max_size 0)
        sps_max_size
  ((log2_max_frame_num, sps_data), _) ← sps_data_from (new_bit_vector sps 0 (8 *u sps_size))
  some (sps_data, record p { log2_max_frame_num = log2_max_frame_num })
