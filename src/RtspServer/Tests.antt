-- ===== src/RtspServer/Tests.antt =====
-- Requests at concrete inputs.
use dorsvr.Common.{ℕ, ◌≡◌, ◌≢◌, refl, true, false, [], ◌∷◌, none, some, arith}
use dorsvr.Common.Text.{Text, codes, text_eq, split, put, store, to_lower, equal_fold}
use dorsvr.Auth.{Database, new_auth_database}
use dorsvr.OnDemand.{
  Destinations, Opened, Streams, no_streams, new_stream_state, set_subsession, says_bye,
  delete_stream, end_destinations, end_playing, reclaim,
}
use dorsvr.RtspServer.{StreamingMode, Response, Server, World, Request, Parsed, ok}
use dorsvr.RtspServer.Media.{
  sms_of_extension, create_new_sms, lookup_entry, lookup_server_media_session, set_rtsp_response,
  add_created, add_server_media_session,
}
use dorsvr.RtspServer.Session.{
  new_client_session, note_liveness, handle_command_tear_down, handle_command_within_session,
  within_media, target, on_target, dispatch, answer_ok, destroy, current_stream, with_streams,
  set_up_found, set_up_stream, handle_command_setup,
}
use dorsvr.RtspServer.Connection.{
  with_session, set_connection, handle_in_session, in_found_session, handle_request_bytes,
  handle_rtsp, handle_setup, draw_session_id, set_up_new, add_new_session, authentication_ok,
}
use dorsvr.RtspServer.Invariant.{IsValid}
use dorsvr.RtspServer.Events.{new_client_connection, new_server, Step, Reach, Reach-IsValid}
use dorsvr.RtspServer.Answers.{handle_in_session-elsewhere, tear_down-not_found}
use dorsvr.RtspServer.Files.{lookup_server_media_session-table}
use dorsvr.RtspServer.Access.{NeverEmpty, authentication_ok-refuses, new_auth_database-refuses}

abbrev six_thousand : Opened
six_thousand = record { rtp_port = 6970; rtcp_port = 6971; has_source = true }

-- A world with one file.
abbrev one_file : Text → World
one_file name = record {
  file_exists = λ n. text_eq n name;
  drawn = codes "77" ∷ [];
  nonce = codes "n1";
  opened = six_thousand;
  rtp_seq_num = 9;
  rtp_timestamp = 90000;
}

abbrev world : World
world = one_file (codes "a.264")

abbrev hash : Text → Text
hash t = 1 ∷ t

abbrev request_of : Text → Text → Text → Text → Request
request_of cmd_name session_id_str pre suffix = record {
  cmd_name = cmd_name;
  cseq = codes "2";
  session_id_str = session_id_str;
  url_pre_suffix = pre;
  url_suffix = suffix;
  full_request_str = codes "Authorization: Digest username=\"u\"";
  transport = record {
    streaming_mode = StreamingMode.rtp_udp;
    streaming_mode_str = [];
    client_rtp_port = 5000;
    client_rtcp_port = 5001;
    rtp_channel_id = 0xff;
    rtcp_channel_id = 0xff;
    destination_ttl = 255;
  };
  saw_range_header = false;
  play_now = false;
}

abbrev set_up_request : Parsed
set_up_request = Parsed.rtsp (request_of (codes "SETUP") [] (codes "a.264") (codes "track1"))

abbrev over_udp : Destinations
over_udp = record {
  is_tcp = false;
  addr_str = 3;
  rtp_port = 5000;
  rtcp_port = 5001;
  rtp_channel_id = 0xff;
  rtcp_channel_id = 0xff;
  tcp_socket_num = none;
}

-- A stream that was started, to the client of the session "77".
abbrev one_stream : Streams
one_stream = record no_streams {
  subsessions = λ _ _. record {
    last_stream_token = some 0;
    destinations = put (λ _. none) (codes "77") (some over_udp);
  };
  streams = λ _. record (new_stream_state six_thousand 5001) { has_rtcp_instance = true };
  next_stream = 1;
}

-- A session with the ID "77" on connection 3.
abbrev one_session : Server
one_session = record {
  client_sessions = put (λ _. none) (codes "77") (some 0);
  client_http_connections = λ _. none;
  server_media_sessions = put (λ _. none) (codes "a.264") (some 0);
  auth_database = none;
  connections = λ _. new_client_connection;
  sessions = λ _. record (new_client_session 3 (codes "77")) {
    num_stream_states = 1;
    stream_states = some (record { subsession = some 0; stream_token = some 0 });
    server_media_session = some 0;
  };
  next_session = 1;
  media = λ _. record { stream_name = codes "a.264"; track_ids = codes "track1" ∷ [] };
  next_media = 1;
  on_demand = one_stream;
}

abbrev connected : Server
connected = set_connection (new_server none) 3 new_client_connection

set_up_answered : (t : Server) × (handle_request_bytes hash world connected 3 set_up_request ≡ ok t)
unfolding handle_request_bytes handle_rtsp handle_setup draw_session_id set_up_new
    handle_command_setup lookup_server_media_session lookup_entry create_new_sms sms_of_extension
    split add_created add_server_media_session set_up_found set_up_stream add_new_session
    note_liveness put store text_eq new_server
set_up_answered = (_, refl)

Reach-IsValid_example : IsValid set_up_answered.0
Reach-IsValid_example = Reach-IsValid hash none (
    Reach.next (Reach.next Reach.here (Step.connects 3 refl))
      (Step.requests world 3 set_up_request set_up_answered.1))

abbrev ping : Request
ping = request_of (codes "GET_PARAMETER") (codes "77") [] (codes "a.264")

abbrev pinged : Server
pinged = answer_ok (note_liveness (with_session one_session 5 (some 0)) 0) 0

ping_answered : handle_in_session world one_session 5 ping ≡ ok pinged
unfolding handle_in_session in_found_session handle_command_within_session within_media target
    on_target dispatch note_liveness store put text_eq equal_fold to_lower
ping_answered = refl

apart : ◌≢◌ {A = ℕ} 5 3
apart e = omega arith

session_77 : one_session.client_sessions (codes "77") ≡ some 0
unfolding put text_eq
session_77 = refl

handle_in_session-elsewhere_example :
    (pinged.connections 5).response_buffer ≡ (one_session.connections 5).response_buffer
handle_in_session-elsewhere_example =
    handle_in_session-elsewhere world one_session pinged 5 0 ping session_77 apart ping_answered

-- The streams without the destinations of the session.
abbrev deleted : Streams
deleted =
    record (set_subsession
      (record one_stream { streams = store one_stream.streams 0 (one_stream.streams 0) }) 0 0
      (record (one_stream.subsessions 0 0) {
        destinations = put (one_stream.subsessions 0 0).destinations (codes "77") none;
      })) { effects = says_bye ∷ [] }

abbrev torn_down : Server
torn_down = destroy (set_rtsp_response (with_streams one_session deleted) 3 200) 0

tears_down : handle_command_tear_down one_session 0 ≡ ok torn_down
unfolding handle_command_tear_down current_stream delete_stream end_destinations end_playing reclaim
    store put text_eq no_streams
tears_down = refl

tear_down-not_found_example :
    (u : Server) × (handle_in_session world torn_down 5 ping ≡ ok u)
    × ((u.connections 5).response_buffer
        ≡ some (Response.status 454 (torn_down.connections 5).current_cseq))
tear_down-not_found_example =
    tear_down-not_found world one_session torn_down 0 5 ping tears_down refl

found_again :
    lookup_server_media_session world one_session (codes "a.264") ≡ ok (one_session, some 0)
unfolding lookup_server_media_session lookup_entry put text_eq
found_again = refl

lookup_server_media_session-table_example :
    (one_session.server_media_sessions (codes "a.264") ≡ some 0)
    × (world.file_exists (codes "a.264") ≡ true)
lookup_server_media_session-table_example =
    lookup_server_media_session-table world one_session one_session (codes "a.264") (some 0)
      found_again

abbrev describe : Request
describe = request_of (codes "DESCRIBE") [] [] (codes "a.mkv")

abbrev users : Database
users = record {
  realm = codes "r";
  records = some (put (λ _. none) (codes "u") (some (codes "p")));
}

abbrev guarded : Server
guarded = record one_session { auth_database = some users }

hash-NeverEmpty : NeverEmpty hash
hash-NeverEmpty t = refl

authentication_ok-refuses_example :
    ((authentication_ok hash world guarded 3 (codes "DESCRIPE") describe).1 ≡ false)
    × (((authentication_ok hash world guarded 3 (codes "DESCRIPE") describe).0.connections
          3).response_buffer
        ≡ some
            (Response.unauthorized (guarded.connections 3).current_cseq (codes "r") (codes "n1")))
    × (((authentication_ok hash world guarded 3 (codes "DESCRIPE") describe).0.connections
          3).digest.nonce
        ≡ codes "n1")
authentication_ok-refuses_example =
    authentication_ok-refuses hash world guarded 3 (codes "DESCRIPE") describe users hash-NeverEmpty
      refl

new_auth_database-refuses_example :
    (authentication_ok hash world
      (record one_session { auth_database = some (new_auth_database []) })
      3
      (codes "DESCRIPE")
      describe).1
    ≡ false
new_auth_database-refuses_example =
    new_auth_database-refuses hash world
      (record one_session { auth_database = some (new_auth_database []) }) 3 (codes "DESCRIPE")
      describe [] refl
