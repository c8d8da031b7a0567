-- ===== src/H264Source/Tests.antt =====
-- Packets at concrete inputs.
use dorsvr.Common.{true, false, some, none, some, [], ◌∷◌, ◌≡◌, refl}
use dorsvr.H264Source.{H264VideoRtpSource, process_special_header, fu_header, fu_begins, fu_goes_on}

abbrev fresh : H264VideoRtpSource
fresh = record {
  multi_framed_rtp_source = record {
    current_packet_begins_frame = false;
    current_packet_completes_frame = false;
  };
  cur_packet_nal_unit_type = 0;
  current_packet_begins_frame = false;
  current_packet_completes_frame = false;
}

empty_panics : process_special_header fresh [] 0 ≡ none
unfolding process_special_header
empty_panics = refl

-- The flags of the embedded source stay as they are.
end_of_frame :
    process_special_header fresh (0x7c ∷ 0x45 ∷ 1 ∷ []) 3
    ≡ some (record {
      source = record fresh {
        cur_packet_nal_unit_type = 28;
        current_packet_begins_frame = false;
        current_packet_completes_frame = true;
      };
      packet = 0x7c ∷ 0x45 ∷ 1 ∷ [];
      header_size = some 2;
    })
unfolding process_special_header fu_header fu_goes_on fu_begins
end_of_frame = refl
