-- ===== src/OnDemand.antt =====
-- livemedia/on_demand_server_media_subsession.go and livemedia/stream_state.go: the streams of the subsessions. Streams
-- are objects in a store, a subsession is known by its media session's place and its own index, a socket and a remote
-- address by the number of their connection. What the sockets, the sinks and the RTCP instance are told is a list of
-- effects. `none` is a panic.
pub mod Ends
pub mod Sessions
mod Tests
use dorsvr.Common.{
  ℕ, ◌+◌, Bool, true, false, not, ◌&&◌, List, [], ◌∷◌, ◌++◌, map, Option, none, some, ◌==◌, ◌>>=◌,
  if◌then◌else◌,
}
use dorsvr.Common.Text.{Text, put, store}
use dorsvr.RtpInterface.{
  RtpInterface, Event, new_rtp_interface, add_stream_socket, del_stream_socket, set_byte_handler,
}

pub record Destinations : Type 0 where
  pub is_tcp : Bool
  pub addr_str : ℕ
  pub rtp_port : ℕ
  pub rtcp_port : ℕ
  pub rtp_channel_id : ℕ
  pub rtcp_channel_id : ℕ
  pub tcp_socket_num : Option ℕ

abbrev pub is_there : Option ℕ → Bool
is_there none = false
is_there (some _) = true

unfoldable pub new_destinations :
    Option ℕ
    → (dest_addr client_rtp_port client_rtcp_port rtp_channel_id rtcp_channel_id : ℕ) → Destinations
new_destinations tcp_socket_num dest_addr rtp rtcp rtp_channel_id rtcp_channel_id = record {
  is_tcp = is_there tcp_socket_num;
  addr_str = dest_addr;
  rtp_port = rtp;
  rtcp_port = rtcp;
  rtp_channel_id = rtp_channel_id;
  rtcp_channel_id = rtcp_channel_id;
  tcp_socket_num = tcp_socket_num;
}

-- Whether the two sinks, the two group sockets, the RTCP instance and the source are there. The interface is that of the
-- RTP sink.
pub record StreamState : Type 0 where
  pub has_rtp_sink : Bool
  pub has_udp_sink : Bool
  pub has_rtp_gs : Bool
  pub has_rtcp_gs : Bool
  pub has_rtcp_instance : Bool
  pub has_media_source : Bool
  pub server_rtp_port : ℕ
  pub server_rtcp_port : ℕ
  pub are_currently_playing : Bool
  pub rtp_interface : RtpInterface

pub record Subsession : Type 0 where
  pub last_stream_token : Option ℕ
  pub destinations : Text → Option Destinations

-- A call of `startPlaying` that is on its way, with the connection whose byte handler it sets.
pub record Start : Type 0 where
  pub token : ℕ
  pub dests : Option Destinations

pub data Effect : Type 0 where
  of_interface : Event → Effect
  adds_rtp_destination : (addr port : ℕ) → Effect
  adds_rtcp_destination : (addr port : ℕ) → Effect
  sends_report : Effect
  says_bye : Effect
  starts_playing : Effect
  stops_playing : Effect

pub record Streams : Type 0 where
  pub subsessions : ℕ → ℕ → Subsession
  pub streams : ℕ → StreamState
  pub next_stream : ℕ
  pub starting : List Start
  pub effects : List Effect

unfoldable pub new_subsession : Subsession
new_subsession = record { last_stream_token = none; destinations = λ _. none }

-- What `createNewStreamSource` and the search for free ports come to.
pub record Opened : Type 0 where
  pub rtp_port : ℕ
  pub rtcp_port : ℕ
  pub has_source : Bool

pub record StreamParameter : Type 0 where
  pub server_rtp_port : ℕ
  pub server_rtcp_port : ℕ
  pub stream_token : ℕ

-- The state of a stream of raw UDP, which has one group socket, or of RTP.
unfoldable pub new_stream_state : Opened → (client_rtcp_port : ℕ) → StreamState
unfolding new_rtp_interface
new_stream_state o client_rtcp_port =
    let raw = client_rtcp_port == 0 in
    record {
      has_rtp_sink = not raw;
      has_udp_sink = raw;
      has_rtp_gs = true;
      has_rtcp_gs = not raw;
      has_rtcp_instance = false;
      has_media_source = o.has_source;
      server_rtp_port = o.rtp_port;
      server_rtcp_port = (if raw then 0 else o.rtcp_port);
      are_currently_playing = false;
      rtp_interface = new_rtp_interface;
    }

abbrev pub set_subsession : Streams → (m i : ℕ) → Subsession → Streams
set_subsession s m i subsession = record s {
  subsessions = λ n j. if n == m && j == i then subsession else s.subsessions n j;
}

-- The stream that the subsession has, or a new one.
unfoldable pub find_stream : Opened → (client_rtcp_port : ℕ) → Streams → Option ℕ → Streams × ℕ
unfolding new_stream_state
find_stream o client_rtcp_port s (some token) = (s, token)
find_stream o client_rtcp_port s none = (
  record s {
    streams = store s.streams s.next_stream (new_stream_state o client_rtcp_port);
    next_stream = s.next_stream + 1;
  },
  s.next_stream,
)

unfoldable pub get_stream_parameters :
    Opened → Streams → (m i : ℕ) → Text → Destinations → Streams × StreamParameter
unfolding find_stream
get_stream_parameters o s m i client_session_id dests =
    let (t, token) = find_stream o dests.rtcp_port s (s.subsessions m i).last_stream_token in
    (
      set_subsession t m i (record {
        last_stream_token = some token;
        destinations = put (t.subsessions m i).destinations client_session_id (some dests);
      }),
      record {
        server_rtp_port = (t.streams token).server_rtp_port;
        server_rtcp_port = (t.streams token).server_rtcp_port;
        stream_token = token;
      },
    )

-- No subsession has a stream yet.
unfoldable pub no_streams : Streams
unfolding new_subsession new_stream_state
no_streams = record {
  subsessions = λ _ _. new_subsession;
  streams = λ _. new_stream_state (record { rtp_port = 0; rtcp_port = 0; has_source = false }) 0;
  next_stream = 0;
  starting = [];
  effects = [];
}

-- The stream's sockets learn where it goes.
unfoldable pub add_destinations : StreamState → Destinations → StreamState × List Effect
add_destinations st dests =
    if dests.is_tcp
    then (if st.has_rtp_sink
        then elim dests.tcp_socket_num [
          | none ↦ (st, [])
          | some socket ↦
              let (added, events) =
                add_stream_socket st.rtp_interface (some socket) dests.rtp_channel_id in
              (
                record st { rtp_interface = set_byte_handler added socket },
                map (λ e. of_interface e) events,
              )
        ]
        else (st, []))
    else (
      st,
      (if st.has_rtp_gs then adds_rtp_destination dests.addr_str dests.rtp_port ∷ [] else [])
          ++ (if st.has_rtcp_gs
              then adds_rtcp_destination dests.addr_str dests.rtcp_port ∷ []
              else []),
    )

unfoldable pub play_source : StreamState → StreamState × List Effect
play_source st =
    if not st.are_currently_playing && st.has_media_source
    then (if st.has_rtp_sink
        then (record st { are_currently_playing = true }, starts_playing ∷ [])
        else if st.has_udp_sink
        then (record st { are_currently_playing = true }, starts_playing ∷ [])
        else (st, []))
    else (st, [])

unfoldable pub create_rtcp_instance : StreamState → StreamState
create_rtcp_instance st =
    if not st.has_rtcp_instance && st.has_rtp_sink
    then record st { has_rtcp_instance = true }
    else st

unfoldable pub start_playing : StreamState → Option Destinations → StreamState × List Effect
unfolding create_rtcp_instance add_destinations play_source
start_playing st none = (st, [])
start_playing st (some dests) =
    let (told, effects) = add_destinations (create_rtcp_instance st) dests in
    let (playing, more) = play_source told in
    (playing, effects ++ ((if told.has_rtcp_instance then sends_report ∷ [] else []) ++ more))

-- `StartStream`, up to its two results: the start is on its way, in a task of its own.
unfoldable pub start_stream : Streams → (m i : ℕ) → Text → Option ℕ → Option Streams
start_stream s m i client_session_id none = none
start_stream s m i client_session_id (some token) =
    let dests = (s.subsessions m i).destinations client_session_id in
    some (record s { starting = s.starting ++ record { token = token; dests = dests } ∷ [] })

-- The task runs; the others are still on their way.
unfoldable pub run_start : Streams → Start → List Start → Streams
unfolding start_playing
run_start s start others =
    let (st, effects) = start_playing (s.streams start.token) start.dests in
    record s {
      streams = store s.streams start.token st;
      starting = others;
      effects = s.effects ++ effects;
    }

unfoldable pub pause : StreamState → StreamState × List Effect
pause st = (
  record st { are_currently_playing = false },
  (if st.has_rtp_sink then stops_playing ∷ [] else [])
      ++ (if st.has_udp_sink then stops_playing ∷ [] else []),
)

unfoldable pub pause_stream : Streams → Option ℕ → Option Streams
unfolding pause
pause_stream s none = none
pause_stream s (some token) =
    let (st, effects) = pause (s.streams token) in
    some (record s { streams = store s.streams token st; effects = s.effects ++ effects })

unfoldable pub end_playing : StreamState → Destinations → Option (StreamState × List Effect)
end_playing st dests =
    if dests.is_tcp && st.has_rtp_sink
    then elim dests.tcp_socket_num [
      | none ↦ some (st, [])
      | some socket ↦ do
        (i, events) ← del_stream_socket st.rtp_interface socket dests.rtp_channel_id
        some (record st { rtp_interface = i }, map (λ e. of_interface e) events)
    ]
    else some (st, [])

-- `endPlaying`, whose receiver may be nil, and the removal of the destinations.
unfoldable pub end_destinations :
    Streams → (m i : ℕ) → Text → Option ℕ → Option Destinations → Option Streams
unfolding end_playing
end_destinations s m i session_id token none = some s
end_destinations s m i session_id none (some dests) =
    if dests.is_tcp
    then none
    else some (
        set_subsession s m i (record (s.subsessions m i) {
          destinations = put (s.subsessions m i).destinations session_id none;
        }))
end_destinations s m i session_id (some token) (some dests) = do
  (st, effects) ← end_playing (s.streams token) dests
  some (
      set_subsession
        (record s { streams = store s.streams token st; effects = s.effects ++ effects }) m i
        (record (s.subsessions m i) {
          destinations = put (s.subsessions m i).destinations session_id none;
        }))

-- The RTCP instance says good-bye, which panics on nil.
unfoldable pub reclaim : Streams → Option ℕ → Option Streams
reclaim s none = some s
reclaim s (some token) =
    if (s.streams token).has_rtcp_instance
    then some (record s { effects = s.effects ++ says_bye ∷ [] })
    else none

unfoldable pub delete_stream : Streams → (m i : ℕ) → Text → Option ℕ → Option Streams
unfolding end_destinations reclaim
delete_stream s m i session_id token =
    end_destinations s m i session_id token ((s.subsessions m i).destinations session_id) >>= λ t.
    reclaim t token
