-- ===== src/RtpInterface/Reader.antt =====
-- livemedia/rtp_interface.go: the reader of a connection that carries RTP.
use dorsvr.Common.{
  ℕ, not, ◌&&◌, List, [], ◌∷◌, ◌++◌, Option, none, some, ◌==◌, if◌then◌else◌, ◌<<<◌, bit_or,
}
use dorsvr.RtpInterface.{
  RtpInterface, SocketDescriptor, ReadingState, Event, awaiting_dollar, awaiting_stream_channel_id,
  awaiting_size1, awaiting_size2, awaiting_packet_data, set_descriptor, request_byte, closes,
}

-- The switch of `tcpReadHandler` on the state, with the byte in the buffer.
abbrev pub on_state :
    ReadingState
    → RtpInterface
    → SocketDescriptor
    → ℕ
    → RtpInterface × SocketDescriptor × List Event
on_state awaiting_dollar i d byte =
    if byte == 0x24 then (i, record d { tcp_reading_state = awaiting_stream_channel_id }, []) else (
      i,
      d,
      if d.has_byte_handler && not (byte == 0xff) && not (byte == 0xfe)
          then request_byte d.socket_num byte ∷ []
          else [],
    )
on_state awaiting_stream_channel_id i d byte =
    if d.sub_channels byte
    then (i, record d { stream_channel_id = byte; tcp_reading_state = awaiting_size1 }, [])
    else (i, record d { tcp_reading_state = awaiting_dollar }, [])
on_state awaiting_size1 i d byte =
    (i, record d { size_byte1 = byte; tcp_reading_state = awaiting_size2 }, [])
on_state awaiting_size2 i d byte = (
  if d.sub_channels d.stream_channel_id
      then record i {
        next_tcp_read_size = bit_or (d.size_byte1 <<< 8) byte;
        next_tcp_read_stream_socket_num = some d.socket_num;
        next_tcp_read_stream_channel_id = d.stream_channel_id;
      }
      else i,
  record d { tcp_reading_state = awaiting_packet_data },
  [],
)
on_state awaiting_packet_data i d byte = (i, record d { tcp_reading_state = awaiting_dollar }, [])

unfoldable pub dispatch :
    RtpInterface → SocketDescriptor → ℕ → RtpInterface × SocketDescriptor × List Event
dispatch i d byte = on_state d.tcp_reading_state i d byte

-- The buffer after the loop has read all the bytes that come before the error.
unfoldable pub last_read : ℕ → List ℕ → ℕ
last_read b [] = b
last_read b (x ∷ xs) = last_read x xs

-- `tcpReadHandler` from the error on, with the byte in the buffer; `none` is the loop that never ends.
-- The switch stands behind the loop.
unfoldable pub after_error :
    RtpInterface → SocketDescriptor → ℕ → Option (RtpInterface × SocketDescriptor × List Event)
unfolding dispatch
after_error i d byte = elim d.tcp_reading_state [
  | awaiting_packet_data ↦ none
  | _ ↦
      let (j, d', e) = dispatch (set_descriptor i d.socket_num none) d byte in
      some (
        j,
        d',
        (if d.has_byte_handler then request_byte d.socket_num 0xff ∷ [] else [])
            ++ (e ++ closes d.socket_num ∷ []),
      )
]

-- `tcpReadHandler` on a connection that brings `bytes` and then an error.
unfoldable pub tcp_read_handler :
    RtpInterface → SocketDescriptor → List ℕ → Option (RtpInterface × SocketDescriptor × List Event)
unfolding after_error last_read
tcp_read_handler i d bytes = after_error i d (last_read 0 bytes)
