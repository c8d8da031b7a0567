-- ===== src/RtpPacket.antt =====
-- livemedia/multi_framed_rtp_source_linux_amd64.go: the packets that an RTP source reads, and the checks
-- of their header. The procedure for enclosed frames is left out: its result is not used.
pub mod Spec
pub mod Window
pub mod Fields
pub mod Parts
pub mod RoundTrip
mod Tests
use dorsvr.Common.{
  ℕ, ◌+◌, ◌-◌, ◌*◌, ◌/◌, ◌%◌, ◌^◌, Bool, true, false, not, List, [], ◌∷◌, Option, none, some,
  length, replicate, drop, get_elem?, copy_at, ltb, leb, ◌==◌, if◌then◌else◌, bit_and, ◌+w◌, ◌-w◌,
  ◌>>>◌, Timeval, zero_time,
}
use dorsvr.Binary.{big_endian_uint32}

-- The next packet of a chain is known by its place in the store of packets.
pub record BufferedPacket : Type 0 where
  pub buffer : List ℕ
  pub head : ℕ
  pub tail : ℕ
  pub use_count : ℕ
  pub packet_size : ℕ
  pub rtp_seq_no : ℕ
  pub rtp_timestamp : ℕ
  pub next_packet : Option ℕ
  pub time_received : Timeval
  pub presentation_time : Timeval
  pub has_been_synced_using_rtcp : Bool
  pub first_packet_flag : Bool
  pub rtp_marker_bit : Bool

-- `maxPacketSize`
abbrev pub buffered_packet_size : ℕ
buffered_packet_size = 20000

-- `newBufferedPacket`
unfoldable pub new_buffered_packet : BufferedPacket
new_buffered_packet = record {
  buffer = replicate buffered_packet_size 0;
  head = 0;
  tail = 0;
  use_count = 0;
  packet_size = buffered_packet_size;
  rtp_seq_no = 0;
  rtp_timestamp = 0;
  next_packet = none;
  time_received = zero_time;
  presentation_time = zero_time;
  has_been_synced_using_rtcp = false;
  first_packet_flag = false;
  rtp_marker_bit = false;
}

-- `data` and `dataSize`; the bounds of the slice are those of the packet.
unfoldable pub packet_data : BufferedPacket → List ℕ
packet_data p = drop p.head p.buffer

unfoldable pub data_size : BufferedPacket → ℕ
data_size p = p.tail -w p.head

unfoldable pub skip : BufferedPacket → ℕ → BufferedPacket
skip p num_bytes =
    if ltb p.tail (p.head +w num_bytes)
    then record p { head = p.tail }
    else record p { head = p.head +w num_bytes }

unfoldable pub remove_padding : BufferedPacket → ℕ → BufferedPacket
remove_padding p num_bytes =
    if ltb (p.tail -w p.head) num_bytes
    then record p { tail = p.tail -w (p.tail -w p.head) }
    else record p { tail = p.tail -w num_bytes }

unfoldable pub has_usable_data : BufferedPacket → Bool
has_usable_data p = not (p.tail -w p.head == 0)

-- `fillInData`, of the bytes that the read brings: they fit, as the slice handed to it ends at the buffer.
unfoldable pub fill_in_data : BufferedPacket → List ℕ → BufferedPacket
fill_in_data p bytes = record p {
  buffer = copy_at p.buffer p.tail bytes;
  tail = p.tail +w length bytes;
}

unfoldable pub assign_misc_params :
    BufferedPacket → ℕ → ℕ → Timeval → Timeval → Bool → Bool → BufferedPacket
assign_misc_params p seq_no timestamp presentation_time time_received synced marker = record p {
  rtp_seq_no = seq_no;
  time_received = time_received;
  rtp_marker_bit = marker;
  rtp_timestamp = timestamp;
  presentation_time = presentation_time;
  has_been_synced_using_rtcp = synced;
}

-- groupsock/inet.go, `Ntohl`, whose error the callers drop: then the value is 0.
abbrev pub value_or_zero : Option ℕ → ℕ
value_or_zero none = 0
value_or_zero (some value) = value

unfoldable pub ntohl : List ℕ → ℕ
ntohl packet = value_or_zero (big_endian_uint32 packet)

pub record RtpFields : Type 0 where
  pub marker : Bool
  pub timestamp : ℕ
  pub ssrc : ℕ
  pub seq_no : ℕ

-- How the checks of a packet end: with a panic, with the packet rejected as it stands then, or accepted.
pub data Parsed : Type 0 where
  panicked : Parsed
  rejected : BufferedPacket → Parsed
  accepted : BufferedPacket → RtpFields → Parsed

-- The checks, each with the checks behind it.
unfoldable pub skip_csrcs : BufferedPacket → ℕ → (BufferedPacket → Parsed) → Parsed
skip_csrcs p cc behind =
    if ltb (data_size p) cc then rejected p else behind (skip p (cc * 4 % 2 ^ 32))

unfoldable pub skip_extension : BufferedPacket → ℕ → (BufferedPacket → Parsed) → Parsed
skip_extension p hdr behind =
    let rem_ext_size = 4 * bit_and (ntohl (packet_data p)) 0xffff in
    let skipped = skip p 4 in
    if bit_and hdr 0x10000000 == 0
    then behind p
    else if ltb (data_size p) 4
    then rejected p
    else if ltb (data_size skipped) rem_ext_size
    then rejected skipped
    else behind (skip skipped rem_ext_size)

unfoldable pub discard_padding : BufferedPacket → ℕ → (BufferedPacket → Parsed) → Parsed
discard_padding p hdr behind =
    if bit_and hdr 0x20000000 == 0
    then behind p
    else if data_size p == 0
    then rejected p
    else elim (get_elem? (packet_data p) (data_size p - 1)) [
      | none ↦ panicked
      | some num_padding_bytes ↦
          if ltb (data_size p) num_padding_bytes
          then rejected p
          else behind (remove_padding p num_padding_bytes)
    ]

unfoldable pub check_payload_type : ℕ → ℕ → RtpFields → BufferedPacket → Parsed
check_payload_type hdr rtp_payload_format fields p =
    if bit_and hdr 0x007f0000 >>> 16 == rtp_payload_format then accepted p fields else rejected p

-- The three words of the header, which are read whatever the checks say later.
unfoldable pub read_fields : BufferedPacket → RtpFields
read_fields p =
    let hdr = ntohl (packet_data p) in
    record {
      marker = not (bit_and hdr 0x00800000 == 0);
      timestamp = ntohl (packet_data (skip p 4));
      ssrc = ntohl (packet_data (skip (skip p 4) 4));
      seq_no = bit_and hdr 0xffff;
    }

unfoldable pub check_header : BufferedPacket → ℕ → RtpFields → ℕ → Parsed
check_header p hdr fields rtp_payload_format =
    let p3 = skip (skip (skip p 4) 4) 4 in
    if ltb (data_size p) 12
    then rejected p
    else if bit_and hdr 0xc0000000 == 0x80000000
    then skip_csrcs p3 (bit_and (hdr >>> 24) 0xf) (λ p4.
      skip_extension p4 hdr
        (λ p5. discard_padding p5 hdr (check_payload_type hdr rtp_payload_format fields)))
    else rejected p3

-- The body of the inner loop of `networkReadHandler`, from the read to the payload type.
unfoldable pub parse_packet : BufferedPacket → ℕ → Parsed
parse_packet p rtp_payload_format =
    check_header p (ntohl (packet_data p)) (read_fields p) rtp_payload_format
