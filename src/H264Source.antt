-- ===== src/H264Source.antt =====
-- livemedia/h264_video_rtp_source.go: the special header of a packet and the size of an aggregated frame.
-- `none` is a panic.
mod Tests
use dorsvr.Common.{
  ℕ, ◌+◌, ◌-◌, ◌*◌, ◌%◌, ◌^◌, Bool, true, false, not, ◌||◌, List, Option, none, some, ◌>>=◌, length,
  drop, get_elem?, write?, ltb, leb, ◌==◌, if◌then◌else◌, bit_and, bit_or,
}

-- `MultiFramedRTPSource`, as far as its own flags go, which the delivery of frames reads.
pub record MultiFramedRtpSource : Type 0 where
  pub current_packet_begins_frame : Bool
  pub current_packet_completes_frame : Bool

-- The flags that the handler sets have the names of those of the embedded source, and shadow them.
pub record H264VideoRtpSource : Type 0 where
  pub multi_framed_rtp_source : MultiFramedRtpSource
  pub cur_packet_nal_unit_type : ℕ
  pub current_packet_begins_frame : Bool
  pub current_packet_completes_frame : Bool

-- What the handler leaves: the source, the packet's data, and the header's size, if it could be processed.
pub record Special : Type 0 where
  pub source : H264VideoRtpSource
  pub packet : List ℕ
  pub header_size : Option ℕ

unfoldable pub fu_begins : H264VideoRtpSource → Bool → List ℕ → ℕ → ℕ → ℕ → Option Special
fu_begins s ends packet packet_size first second =
    if ltb packet_size 1
    then some (record { source = s; packet = packet; header_size = none })
    else (write? packet 1 ((bit_and first 0xe0 + bit_and second 0x1f) % 2 ^ 8) >>= λ rewritten.
        some (record {
          source = record s {
            current_packet_begins_frame = true;
            current_packet_completes_frame = ends;
          };
          packet = rewritten;
          header_size = some 1;
        }))

unfoldable pub fu_goes_on : H264VideoRtpSource → Bool → List ℕ → ℕ → Option Special
fu_goes_on s ends packet packet_size =
    if ltb packet_size 2
    then some (record { source = s; packet = packet; header_size = none })
    else some (record {
      source = record s {
        current_packet_begins_frame = false;
        current_packet_completes_frame = ends;
      };
      packet = packet;
      header_size = some 2;
    })

-- FU-A or FU-B.
unfoldable pub fu_header : H264VideoRtpSource → List ℕ → ℕ → ℕ → Option Special
fu_header s packet packet_size first = do
  second ← get_elem? packet 1
  let ends = not (bit_and second 0x40 == 0)
  if not (bit_and second 0x80 == 0)
      then fu_begins s ends packet packet_size first second
      else fu_goes_on s ends packet packet_size

unfoldable pub process_special_header : H264VideoRtpSource → List ℕ → ℕ → Option Special
process_special_header s packet packet_size = do
  first ← get_elem? packet 0
  let type = bit_and first 0x1f
  let typed = record s { cur_packet_nal_unit_type = type }
  if type == 24
      then some (record { source = typed; packet = packet; header_size = some 1 })
      else if type == 25 || type == 26 || type == 27
      then some (record { source = typed; packet = packet; header_size = some 3 })
      else if type == 28 || type == 29
      then fu_header typed packet packet_size first
      else some (record {
        source = record typed {
          current_packet_begins_frame = true;
          current_packet_completes_frame = true;
        };
        packet = packet;
        header_size = some 0;
      })
