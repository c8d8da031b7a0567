-- ===== src/RtspServer/Session.antt =====
-- rtspserver/session.go: the handlers of requests within a session. A session answers on the connection that it
-- was created by. The timer's task has started before the session is used again.
use dorsvr.Common.{
  ℕ, zero, suc, true, false, not, ◌&&◌, ◌||◌, List, [], ◌∷◌, Option, none, some, length, get_elem?,
  if◌then◌else◌, ◌==◌, ◌+u◌,
}
use dorsvr.Common.Text.{Text, codes, text_eq, is_empty, equal_fold, put, store}
use dorsvr.RtspServer.{
  MediaSession, Server, World, Request, set_up, playing, session_ok, StreamingMode, rtp_udp,
  rtp_tcp, raw_udp, TransportHeader, Transport, ClientSession, StreamServerState, Result, ok, ◌>>=◌,
  or_nil,
}
use dorsvr.OnDemand.{
  Destinations, StreamParameter, Streams, new_destinations, get_stream_parameters, start_stream,
  pause_stream, delete_stream,
}
use dorsvr.RtspServer.Media.{
  lookup_server_media_session, remove_server_media_session, set_response, set_rtsp_response,
  handle_command_not_found, handle_command_unsupported_transport, handle_command_bad,
  handle_command_not_supported,
}

abbrev pub set_session : Server → ℕ → ClientSession → Server
set_session s p session = record s { sessions = store s.sessions p session }

unfoldable pub note_liveness : Server → ℕ → Server
note_liveness s p =
    set_session s p (record (s.sessions p) { is_timer_running = true; timer_armed = true })

abbrev pub new_client_session : ℕ → Text → ClientSession
new_client_session connection session_id = record {
  session_id = session_id;
  connection = connection;
  is_multicast = false;
  is_timer_running = false;
  timer_armed = false;
  stream_after_setup = false;
  num_stream_states = 0;
  tcp_stream_id_count = 0;
  stream_states = none;
  server_media_session = none;
}

unfoldable pub remove_client_session : Server → Text → Server
remove_client_session s session_id = record s {
  client_sessions = put s.client_sessions session_id none;
}

abbrev pub remove_its_media_session : Server → Option ℕ → Server
remove_its_media_session s none = s
remove_its_media_session s (some m) = remove_server_media_session s (s.media m).stream_name

unfoldable pub destroy : Server → ℕ → Server
destroy s p =
    remove_its_media_session
      (remove_client_session (set_session s p (record (s.sessions p) { timer_armed = false }))
        (s.sessions p).session_id)
      (s.sessions p).server_media_session

-- The stream state that is created at the first SETUP: every subsession overwrites the one before.
abbrev pub last_subsession : ℕ → Option ℕ
last_subsession zero = none
last_subsession (suc n) = some n

abbrev pub stream_states_of : Option StreamServerState → ℕ → StreamServerState
stream_states_of none n = record { subsession = last_subsession n; stream_token = none }
stream_states_of (some states) n = states

abbrev pub states_count : ClientSession → Option StreamServerState → ℕ → ℕ
states_count session none n = n
states_count session (some _) n = session.num_stream_states

-- The session with its media session and its stream states.
abbrev pub with_media : Server → ClientSession → ℕ → ClientSession
with_media s session m = record session {
  server_media_session = some m;
  num_stream_states = states_count session session.stream_states (length (s.media m).track_ids);
  stream_states = some (stream_states_of session.stream_states (length (s.media m).track_ids));
}

-- The channels of a stream over TCP.
unfoldable pub rtp_channel : ClientSession → TransportHeader → ℕ
rtp_channel session t =
    if t.rtp_channel_id == 0xff then session.tcp_stream_id_count else t.rtp_channel_id

unfoldable pub rtcp_channel : ClientSession → TransportHeader → ℕ
rtcp_channel session t = session.tcp_stream_id_count +u 2

-- Where the stream of a session goes: to the client of its connection.
unfoldable pub destinations_of : ClientSession → TransportHeader → StreamingMode → Destinations
unfolding new_destinations
destinations_of session t rtp_tcp =
    new_destinations (some session.connection) session.connection t.client_rtp_port
      t.client_rtcp_port (rtp_channel session t) (rtcp_channel session t)
destinations_of session t rtp_udp =
    new_destinations none session.connection t.client_rtp_port t.client_rtcp_port t.rtp_channel_id
      t.rtcp_channel_id
destinations_of session t raw_udp =
    new_destinations none session.connection t.client_rtp_port t.client_rtcp_port t.rtp_channel_id
      t.rtcp_channel_id

-- Multicast streams cannot be sent over TCP.
unfoldable pub multicast_answer :
    StreamParameter → TransportHeader → StreamingMode → Option Transport
multicast_answer sp t rtp_udp =
    some (Transport.multicast sp.server_rtp_port sp.server_rtcp_port t.destination_ttl)
multicast_answer sp t rtp_tcp = none
multicast_answer sp t raw_udp =
    some (Transport.raw_multicast sp.server_rtp_port sp.server_rtcp_port t.destination_ttl)

unfoldable pub unicast_answer :
    StreamParameter → ClientSession → TransportHeader → StreamingMode → Transport
unicast_answer sp session t rtp_udp =
    Transport.unicast t.client_rtp_port t.client_rtcp_port sp.server_rtp_port sp.server_rtcp_port
unicast_answer sp session t rtp_tcp =
    Transport.interleaved (rtp_channel session t) (rtcp_channel session t)
unicast_answer sp session t raw_udp =
    Transport.raw_unicast t.streaming_mode_str t.client_rtp_port sp.server_rtp_port

unfoldable pub answer_transport : Server → ClientSession → Option Transport → Server
answer_transport s session none = handle_command_unsupported_transport s session.connection
answer_transport s session (some transport) =
    set_response s session.connection
      (set_up (s.connections session.connection).current_cseq transport session.session_id)

unfoldable pub answer_setup : StreamParameter → Server → ClientSession → TransportHeader → Server
answer_setup sp s session t = answer_transport s session (
    if session.is_multicast
    then multicast_answer sp t t.streaming_mode
    else some (unicast_answer sp session t t.streaming_mode))

abbrev pub with_streams : Server → Streams → Server
with_streams s streams = record s { on_demand = streams }

-- From the subsession's stream parameters on. The track that is named is not compared with another one: the
-- loop over the stream states looks at the same state in every round.
unfoldable pub set_up_stream : World → Server → ℕ → ClientSession → Request → Result Server
set_up_stream w s p session r = or_nil session.stream_states >>= λ states.
    or_nil session.server_media_session >>= λ m. or_nil states.subsession >>= λ i.
    (let given =
        get_stream_parameters w.opened s.on_demand m i session.session_id
          (destinations_of session r.transport r.transport.streaming_mode) in
      let set = record session {
        stream_after_setup = r.saw_range_header || r.play_now;
        stream_states = some (record states { stream_token = some given.1.stream_token });
      } in
      ok (answer_setup given.1 (set_session (with_streams s given.0) p set) set r.transport))

-- By the media session that is found, and that of the session.
unfoldable pub set_up_found : World → Server → ℕ → Request → (found own : Option ℕ) → Result Server
set_up_found w s p r none none = ok (handle_command_not_found s (s.sessions p).connection)
set_up_found w s p r none (some _) = ok (handle_command_bad s (s.sessions p).connection)
set_up_found w s p r (some m) none = set_up_stream w s p (with_media s (s.sessions p) m) r
set_up_found w s p r (some m) (some own) =
    if m == own
    then set_up_stream w s p (with_media s (s.sessions p) m) r
    else ok (handle_command_bad s (s.sessions p).connection)

unfoldable pub handle_command_setup : World → Server → ℕ → Request → Result Server
handle_command_setup w s p r = lookup_server_media_session w s r.url_pre_suffix >>= λ found.
    set_up_found w found.0 p r found.1 (found.0.sessions p).server_media_session

-- The tracks are gone through up to the one that is named, or to the last one.
unfoldable pub pick_track : List Text → Text → ℕ → Option ℕ
pick_track [] url_suffix i = none
pick_track (t ∷ []) url_suffix i = some i
pick_track (t ∷ u ∷ tracks) url_suffix i =
    let later = pick_track (u ∷ tracks) url_suffix (suc i) in
    if equal_fold t url_suffix then some i else later

-- What a request within a session is about.
pub data Target : Type 0 where
  aggregated : Target
  track : ℕ → Target
  no_target : Target

abbrev pub track_or_none : Option ℕ → Target
track_or_none none = no_target
track_or_none (some i) = track i

unfoldable pub target : MediaSession → (url_pre_suffix url_suffix : Text) → Target
target sms pre suffix =
    if not (is_empty suffix) && equal_fold sms.stream_name pre
    then track_or_none (pick_track sms.track_ids suffix 0)
    else if equal_fold sms.stream_name suffix || (is_empty suffix && equal_fold sms.stream_name pre)
    then aggregated
    else if not (is_empty pre) && not (is_empty suffix)
    then if equal_fold sms.stream_name pre
        && is_empty sms.stream_name
        && equal_fold sms.stream_name suffix
      then aggregated
      else no_target
    else no_target

-- `s.streamStates.subsession`, by its media session and its index there, and `s.streamStates.streamToken`.
unfoldable pub current_stream : ClientSession → Result (ℕ × ℕ × Option ℕ)
current_stream session = or_nil session.stream_states >>= λ states.
    or_nil session.server_media_session >>= λ m.
    or_nil states.subsession >>= λ i. ok (m, i, states.stream_token)

-- The results of `StartStream`: where the RTP sink stands, if there is one.
abbrev pub started_at : World → Streams → Option ℕ → ℕ × ℕ
started_at w streams none = (0, 0)
started_at w streams (some token) =
    if (streams.streams token).has_rtp_sink then (w.rtp_seq_num, w.rtp_timestamp) else (0, 0)

-- The target sets the scale only, which is left out with the range.
unfoldable pub handle_command_play : World → Server → ℕ → Result Server
handle_command_play w s p =
    let session = s.sessions p in
    current_stream session >>= λ (m, i, token).
    or_nil (start_stream s.on_demand m i session.session_id token) >>= λ streams.
    or_nil (get_elem? (s.media m).track_ids i) >>= λ track_id. ok (
      set_response (with_streams s streams) session.connection (
        playing (s.connections session.connection).current_cseq session.session_id
          (s.media m).stream_name track_id (started_at w streams token).0
          (started_at w streams token).1))

-- `setRTSPResponseWithSessionID("200 OK", …)`
unfoldable pub answer_ok : Server → ℕ → Server
answer_ok s p =
    let session = s.sessions p in
    set_response s session.connection
      (session_ok (s.connections session.connection).current_cseq session.session_id)

unfoldable pub handle_command_pause : Server → ℕ → Result Server
handle_command_pause s p = current_stream (s.sessions p) >>= λ (m, i, token).
    or_nil (pause_stream s.on_demand token) >>= λ streams. ok (answer_ok (with_streams s streams) p)

unfoldable pub handle_command_tear_down : Server → ℕ → Result Server
handle_command_tear_down s p = current_stream (s.sessions p) >>= λ (m, i, token).
    or_nil (delete_stream s.on_demand m i (s.sessions p).session_id token) >>= λ streams.
    ok (destroy (set_rtsp_response (with_streams s streams) (s.sessions p).connection 200) p)

unfoldable pub dispatch : World → Server → ℕ → Text → Result Server
dispatch w s p cmd_name =
    if text_eq cmd_name (codes "TEARDOWN")
    then handle_command_tear_down s p
    else if text_eq cmd_name (codes "PLAY")
    then handle_command_play w s p
    else if text_eq cmd_name (codes "PAUSE")
    then handle_command_pause s p
    else if text_eq cmd_name (codes "GET_PARAMETER") || text_eq cmd_name (codes "SET_PARAMETER")
    then ok (answer_ok s p)
    else ok s

unfoldable pub on_target : World → Server → ℕ → Text → Target → Result Server
on_target w s p cmd_name no_target = ok (handle_command_not_found s (s.sessions p).connection)
on_target w s p cmd_name aggregated = dispatch w s p cmd_name
on_target w s p cmd_name (track _) = dispatch w s p cmd_name

unfoldable pub within_media : World → Server → ℕ → Request → Option ℕ → Result Server
within_media w s p r none = ok (handle_command_not_supported s (s.sessions p).connection)
within_media w s p r (some m) =
    on_target w s p r.cmd_name (target (s.media m) r.url_pre_suffix r.url_suffix)

unfoldable pub handle_command_within_session : World → Server → ℕ → Request → Result Server
handle_command_within_session w s p r =
    within_media w (note_liveness s p) p r ((note_liveness s p).sessions p).server_media_session
