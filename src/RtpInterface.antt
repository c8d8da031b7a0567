-- ===== src/RtpInterface.antt =====
-- livemedia/rtp_interface.go: RTP over the TCP connection of an RTSP client. A socket is known by a
-- number, `none` is nil, and the interface that a channel of a descriptor leads to is the one that
-- owns the descriptor: no other code registers one.
pub mod Reader
pub mod Framing
pub mod Streams
mod Tests
use dorsvr.Common.{
  ℕ, zero, suc, ◌+◌, ◌-◌, ◌*◌, ◌/◌, ◌%◌, ◌^◌, Bool, true, false, not, ◌&&◌, ◌||◌, List, [], ◌∷◌,
  ◌++◌, Option, none, some, ◌==◌, ◌>>=◌, if◌then◌else◌, leb, length, take, u8, ◌>>>◌, ◌<<<◌,
  bit_and, bit_or, slice?,
}

pub record TcpStreamRecord : Type 0 where
  pub stream_channel_id : ℕ
  pub stream_socket_num : ℕ

pub data ReadingState : Type 0 where
  awaiting_dollar : ReadingState
  awaiting_stream_channel_id : ReadingState
  awaiting_size1 : ReadingState
  awaiting_size2 : ReadingState
  awaiting_packet_data : ReadingState

-- `subChannels` as the test whether a channel is there; the handler is there or nil.
pub record SocketDescriptor : Type 0 where
  pub tcp_reading_state : ReadingState
  pub stream_channel_id : ℕ
  pub size_byte1 : ℕ
  pub socket_num : ℕ
  pub has_byte_handler : Bool
  pub sub_channels : ℕ → Bool

-- `tcpStreams` is the linked list from its head on.
pub record RtpInterface : Type 0 where
  pub next_tcp_read_stream_socket_num : Option ℕ
  pub socket_descriptors : ℕ → Option SocketDescriptor
  pub tcp_streams : List TcpStreamRecord
  pub next_tcp_read_size : ℕ
  pub next_tcp_read_stream_channel_id : ℕ

-- What the code does to the outside: a byte for the handler of RTSP requests, a reader started, a
-- connection closed.
pub data Event : Type 0 where
  request_byte : ℕ → ℕ → Event
  reads : ℕ → Event
  closes : ℕ → Event

unfoldable pub new_rtp_interface : RtpInterface
new_rtp_interface = record {
  next_tcp_read_stream_socket_num = none;
  socket_descriptors = λ n. none;
  tcp_streams = [];
  next_tcp_read_size = 0;
  next_tcp_read_stream_channel_id = 0;
}

unfoldable pub new_socket_descriptor : ℕ → SocketDescriptor
new_socket_descriptor socket_num = record {
  tcp_reading_state = awaiting_dollar;
  stream_channel_id = 0;
  size_byte1 = 0;
  socket_num = socket_num;
  has_byte_handler = false;
  sub_channels = λ n. false;
}

abbrev pub set_descriptor : RtpInterface → ℕ → Option SocketDescriptor → RtpInterface
set_descriptor i socket_num d = record i {
  socket_descriptors = λ n. if n == socket_num then d else i.socket_descriptors n;
}

abbrev pub found_descriptor :
    RtpInterface → ℕ → Option SocketDescriptor → RtpInterface × SocketDescriptor
found_descriptor i socket_num (some d) = (i, d)
found_descriptor i socket_num none =
    let d = new_socket_descriptor socket_num in (set_descriptor i socket_num (some d), d)

unfoldable pub lookup_socket_descriptor : RtpInterface → ℕ → RtpInterface × SocketDescriptor
unfolding new_socket_descriptor
lookup_socket_descriptor i socket_num =
    found_descriptor i socket_num (i.socket_descriptors socket_num)

unfoldable pub is_stream : ℕ → ℕ → TcpStreamRecord → Bool
is_stream socket_num channel r = r.stream_socket_num == socket_num && r.stream_channel_id == channel

-- The loop of `addStreamSocket`.
unfoldable pub has_stream : ℕ → ℕ → List TcpStreamRecord → Bool
has_stream socket_num channel [] = false
has_stream socket_num channel (r ∷ rs) =
    is_stream socket_num channel r || has_stream socket_num channel rs

unfoldable pub register_rtp_interface : SocketDescriptor → ℕ → SocketDescriptor
register_rtp_interface d channel = record d {
  sub_channels = λ n. if n == channel then true else d.sub_channels n;
}

unfoldable pub add_stream_socket : RtpInterface → Option ℕ → ℕ → RtpInterface × List Event
unfolding has_stream lookup_socket_descriptor register_rtp_interface
add_stream_socket i none channel = (i, [])
add_stream_socket i (some socket_num) channel =
    if has_stream socket_num channel i.tcp_streams
    then (i, [])
    else let streams =
        record { stream_channel_id = channel; stream_socket_num = socket_num } ∷ i.tcp_streams in
      let (j, d) = lookup_socket_descriptor (record i { tcp_streams = streams }) socket_num in
      (set_descriptor j socket_num (some (register_rtp_interface d channel)), reads socket_num ∷ [])

-- `deregisterSocket`, with `removeSocketDescriptor` and `deregisterRTPInterface`; the descriptor,
-- which is out of the table then, is dropped.
unfoldable pub deregister_socket : RtpInterface → ℕ → ℕ → RtpInterface × List Event
unfolding lookup_socket_descriptor
deregister_socket i socket_num channel =
    let (j, d) = lookup_socket_descriptor i socket_num in
    (
      set_descriptor j socket_num none,
      (if d.has_byte_handler then request_byte socket_num 0xfe ∷ [] else [])
          ++ closes socket_num ∷ [],
    )

-- A record that the loop passes, and one that it cuts off from the rest.
abbrev pub passed :
    TcpStreamRecord
    → Option (RtpInterface × List TcpStreamRecord × List Event)
    → Option (RtpInterface × List TcpStreamRecord × List Event)
passed r none = none
passed r (some (i, rs, e)) = some (i, r ∷ rs, e)

abbrev pub cut :
    TcpStreamRecord
    → List Event
    → Option (RtpInterface × List TcpStreamRecord × List Event)
    → Option (RtpInterface × List TcpStreamRecord × List Event)
cut r e none = none
cut r e (some (i, rs, e')) = some (i, r ∷ [], e ++ e')

-- The loop of `delStreamSocket`: the list that is left, and what the code does on the way. A record
-- that is found is cut off from the rest and stays; the loop goes on behind the record after it, and
-- panics where there is none.
unfoldable pub del_loop :
    RtpInterface
    → ℕ
    → ℕ
    → List TcpStreamRecord
    → Option (RtpInterface × List TcpStreamRecord × List Event)
unfolding deregister_socket
del_loop i socket_num channel [] = some (i, [], [])
del_loop i socket_num channel (r ∷ []) =
    if is_stream socket_num channel r then none else some (i, r ∷ [], [])
del_loop i socket_num channel (r ∷ s ∷ rs) =
    if is_stream socket_num channel r
    then cut r (deregister_socket i socket_num channel).1
        (del_loop (deregister_socket i socket_num channel).0 socket_num channel rs)
    else passed r (del_loop i socket_num channel (s ∷ rs))

unfoldable pub del_stream_socket : RtpInterface → ℕ → ℕ → Option (RtpInterface × List Event)
unfolding del_loop
del_stream_socket i socket_num channel = del_loop i socket_num channel i.tcp_streams >>= λ t.
    some (record t.0 { tcp_streams = t.1 }, t.2)

-- A chunk is written, and the next ones only when that succeeds.
abbrev pub write_chunks : (List ℕ → Bool) → List (List ℕ) → List (List ℕ) × Bool
write_chunks write [] = ([], true)
write_chunks write (c ∷ cs) =
    let rest = write_chunks write cs in if write c then (c ∷ rest.0, rest.1) else ([], false)

-- `sendRTPOverTCP`: the chunks that the connection took, and whether there was no error.
unfoldable pub send_rtp_over_tcp : (List ℕ → Bool) → List ℕ → ℕ → ℕ → Option (List (List ℕ) × Bool)
send_rtp_over_tcp write packet packet_size channel =
    let size_bytes = u8 (bit_and packet_size 0xff00 >>> 8) ∷ u8 (bit_and packet_size 0xff) ∷ [] in
    let (before, taken) = write_chunks write ((0x24 ∷ []) ∷ (u8 channel ∷ []) ∷ size_bytes ∷ []) in
    if taken
    then (slice? packet 0 packet_size >>= λ body.
        let last = write_chunks write (body ∷ []) in some (before ++ last.0, last.1))
    else some (before, false)

-- The loop of `sendPacket`, which passes over errors: what every connection took.
unfoldable pub send_streams :
    (ℕ → List ℕ → Bool) → List ℕ → ℕ → List TcpStreamRecord → Option (List (ℕ × List (List ℕ)))
unfolding send_rtp_over_tcp
send_streams write packet packet_size [] = some []
send_streams write packet packet_size (r ∷ rs) =
    send_rtp_over_tcp (write r.stream_socket_num) packet packet_size r.stream_channel_id >>= λ s.
    send_streams write packet packet_size rs >>= λ t. some ((r.stream_socket_num, s.0) ∷ t)

-- `sendPacket`: its result is that of the group socket, a parameter.
unfoldable pub send_packet :
    (List ℕ → ℕ → Bool)
    → (ℕ → List ℕ → Bool)
    → RtpInterface
    → List ℕ
    → ℕ
    → Option (Bool × List (ℕ × List (List ℕ)))
unfolding send_streams
send_packet output write i packet packet_size =
    send_streams write packet packet_size i.tcp_streams >>= λ t. some (output packet packet_size, t)

-- `setServerRequestAlternativeByteHandler`; no caller passes nil.
unfoldable pub set_byte_handler : RtpInterface → ℕ → RtpInterface
unfolding lookup_socket_descriptor
set_byte_handler i socket_num =
    let (j, d) = lookup_socket_descriptor i socket_num in
    set_descriptor j socket_num (some (record d { has_byte_handler = true }))
