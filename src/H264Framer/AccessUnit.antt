-- ===== src/H264Framer/AccessUnit.antt =====
-- livemedia/h264_video_stream_framer_linux_amd64.go: what `parse` does with a unit that it has saved.
-- The presentation times, which are floating-point sums, are left out.
use dorsvr.Common.{
  ℕ, ◌/◌, Bool, true, false, not, ◌&&◌, ◌||◌, List, Option, some, replicate, copy, leb, ltb, ◌==◌,
  ◌>>=◌, if◌then◌else◌, ◌+u◌, ◌-u◌, ◌*u◌, bit_and, ◌>>>◌,
}
use dorsvr.H264Framer.{H264VideoStreamParser}
use dorsvr.H264Framer.Headers.{SliceHeader, SeqParameterSet, analyze_slice_header, analyze_sps_data}
use dorsvr.H264Framer.Sei.{analyze_sei_data}

-- `H264VideoStreamFramer`, with the fields of `MPEGVideoStreamFramer` that the parser sets.
pub record H264VideoStreamFramer : Type 0 where
  pub last_seen_sps : List ℕ
  pub last_seen_pps : List ℕ
  pub last_seen_sps_size : ℕ
  pub last_seen_pps_size : ℕ
  pub frame_rate : ℕ
  pub picture_count : ℕ
  pub picture_end_marker : Bool

unfoldable pub save_copy_of_sps : H264VideoStreamFramer → List ℕ → ℕ → H264VideoStreamFramer
save_copy_of_sps f from size = record f {
  last_seen_sps = copy (replicate size 0) from;
  last_seen_sps_size = size;
}

unfoldable pub save_copy_of_pps : H264VideoStreamFramer → List ℕ → ℕ → H264VideoStreamFramer
save_copy_of_pps f from size = record f {
  last_seen_pps = copy (replicate size 0) from;
  last_seen_pps_size = size;
}

unfoldable pub nal_ref_idc : ℕ → ℕ
nal_ref_idc first_byte = bit_and first_byte 0x60 >>> 5

unfoldable pub nal_unit_type : ℕ → ℕ
nal_unit_type first_byte = bit_and first_byte 0x1f

unfoldable pub note_frame_rate : H264VideoStreamFramer → SeqParameterSet → H264VideoStreamFramer
note_frame_rate f s =
    if ltb 0 s.time_scale && ltb 0 s.num_units_in_tick
    then record f { frame_rate = s.time_scale / (2 *u s.num_units_in_tick) }
    else f

-- The switch on the type of the unit, whose bytes are `unit`.
unfoldable pub note_unit :
    H264VideoStreamParser
    → H264VideoStreamFramer
    → List ℕ
    → ℕ
    → Option (H264VideoStreamParser × H264VideoStreamFramer)
unfolding analyze_sei_data analyze_sps_data save_copy_of_sps save_copy_of_pps note_frame_rate
note_unit p f unit unit_type =
    if unit_type == 6
    then (analyze_sei_data p unit >>= λ _. some (p, f))
    else let size = p.video.num_saved_bytes -u p.output_start_code_size in
      if unit_type == 7
      then (analyze_sps_data p unit >>= λ r.
          some (r.1, note_frame_rate (save_copy_of_sps f unit size) r.0))
      else some (p, if unit_type == 8 then save_copy_of_pps f unit size else f)

abbrev pub is_vcl : ℕ → Bool
is_vcl unit_type = leb unit_type 5 && ltb 0 unit_type

abbrev pub has_slice_header : ℕ → Bool
has_slice_header unit_type = unit_type == 1 || unit_type == 2 || unit_type == 5

abbrev pub differs : Bool → Bool → Bool
differs true b = not b
differs false b = b

-- The five tests on two slice headers.
unfoldable pub slices_differ : SliceHeader → SliceHeader → Bool → Bool
slices_differ next this next_idr =
    not (next.frame_num == this.frame_num)
    || not (next.pic_parameter_set_id == this.pic_parameter_set_id)
    || differs next.field_pic_flag this.field_pic_flag
    || differs next.bottom_field_flag this.bottom_field_flag
    || (next_idr && not (next.idr_pic_id == this.idr_pic_id))

-- The tests on the first bytes of this unit and the next one.
unfoldable pub first_bytes_differ : ℕ → ℕ → Bool
unfolding nal_ref_idc nal_unit_type
first_bytes_differ this next =
    leb 6 (nal_unit_type next)
    || differs (nal_unit_type next == 5) (nal_unit_type this == 5)
    || (not (nal_ref_idc next == nal_ref_idc this) && nal_ref_idc next *u nal_ref_idc this == 0)

-- Whether a unit ends the access unit, by its first byte and its bytes, and the first byte and the
-- twelve bytes read of the next one. `none` is a panic in the analysis of a slice header.
unfoldable pub ends_access_unit : H264VideoStreamParser → ℕ → List ℕ → ℕ → List ℕ → Option Bool
unfolding nal_unit_type first_bytes_differ analyze_slice_header slices_differ
ends_access_unit p this unit next next_bytes =
    let type = nal_unit_type this in
    let next_type = nal_unit_type next in
    if p.video.stream.have_seen_eof
    then some true
    else if not (is_vcl type)
    then some false
    else if first_bytes_differ this next
    then some true
    else if not (has_slice_header type && has_slice_header next_type)
    then some false
    else (analyze_slice_header p unit type >>= λ t.
        analyze_slice_header p next_bytes next_type >>= λ n.
        some (slices_differ n.0 t.0 (next_type == 5)))

-- The end of an access unit, without its times.
unfoldable pub end_picture : H264VideoStreamFramer → H264VideoStreamFramer
end_picture f = record f { picture_end_marker = true; picture_count = f.picture_count +u 1 }
