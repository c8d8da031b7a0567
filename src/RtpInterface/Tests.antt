-- ===== src/RtpInterface/Tests.antt =====
-- An interface with two streams on one connection.
use mathlib.Core.Bool.{true≢false}
use dorsvr.Common.{ℕ, ◌≡◌, refl, sym, true, false, [], ◌∷◌, some, ◌==◌}
use dorsvr.RtpInterface.{
  TcpStreamRecord, SocketDescriptor, RtpInterface, add_stream_socket, del_stream_socket, has_stream,
  is_stream, deregister_socket, new_rtp_interface, awaiting_dollar, send_rtp_over_tcp,
}
use dorsvr.RtpInterface.Streams.{IsServed, add_stream_socket-IsServed, del_stream_socket-kept}

abbrev stream_of_channel : ℕ → TcpStreamRecord
stream_of_channel channel = record { stream_channel_id = channel; stream_socket_num = 7 }

abbrev two_streams : RtpInterface
two_streams = record new_rtp_interface {
  tcp_streams = stream_of_channel 0 ∷ stream_of_channel 2 ∷ [];
}

abbrev descriptor : SocketDescriptor
descriptor = record {
  tcp_reading_state = awaiting_dollar;
  stream_channel_id = 0;
  size_byte1 = 0;
  socket_num = 7;
  has_byte_handler = false;
  sub_channels = λ n. n == 2;
}

-- A frame as it is sent.
frame_sent :
    send_rtp_over_tcp (λ c. true) (5 ∷ 6 ∷ 7 ∷ []) 3 2
    ≡ some ((0x24 ∷ []) ∷ (2 ∷ []) ∷ (0 ∷ 3 ∷ []) ∷ (5 ∷ 6 ∷ 7 ∷ []) ∷ [], true)
unfolding send_rtp_over_tcp
frame_sent = refl

no_streams-IsServed : IsServed new_rtp_interface
unfolding new_rtp_interface has_stream
no_streams-IsServed s c h = absurd (true≢false (sym h))

add_stream_socket-IsServed_example :
    IsServed (add_stream_socket new_rtp_interface (some 7) 2).0
    × (has_stream 7 2 (add_stream_socket new_rtp_interface (some 7) 2).0.tcp_streams ≡ true)
add_stream_socket-IsServed_example =
    add_stream_socket-IsServed new_rtp_interface 7 2 no_streams-IsServed

is_first : is_stream 7 0 (stream_of_channel 0) ≡ true
unfolding is_stream
is_first = refl

none_behind : has_stream 7 0 [] ≡ false
unfolding has_stream
none_behind = refl

del_stream_socket-kept_example :
    del_stream_socket two_streams 7 0
    ≡ some (
      record (deregister_socket two_streams 7 0).0 { tcp_streams = stream_of_channel 0 ∷ [] },
      (deregister_socket two_streams 7 0).1,
    )
del_stream_socket-kept_example =
    del_stream_socket-kept two_streams 7 0 [] (stream_of_channel 0) (stream_of_channel 2) [] refl
      none_behind is_first none_behind
