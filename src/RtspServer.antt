-- ===== src/RtspServer.antt =====
-- rtspserver/server.go, connection.go, session.go and stream_state.go: the tables of the server and the handlers
-- of requests. Connections, sessions and media sessions are objects in stores, known by their places there.
pub mod Media
pub mod Session
pub mod Connection
pub mod Invariant
pub mod Handlers
pub mod Within
pub mod Requests
pub mod Answers
pub mod Files
pub mod Events
pub mod Access
mod Tests
use dorsvr.Common.{ℕ, Bool, true, false, List, [], ◌∷◌, Option, none, some}
use dorsvr.Common.Text.{Text}
use dorsvr.Auth.{Digest, Database}
use dorsvr.OnDemand.{Opened, Streams}

-- `ServerMediaSession`, as far as the server reads it: its name and the track IDs of its subsessions.
pub record MediaSession : Type 0 where
  pub stream_name : Text
  pub track_ids : List Text

pub data StreamingMode : Type 0 where
  rtp_udp : StreamingMode
  rtp_tcp : StreamingMode
  raw_udp : StreamingMode

pub record TransportHeader : Type 0 where
  pub streaming_mode : StreamingMode
  pub streaming_mode_str : Text
  pub client_rtp_port : ℕ
  pub client_rtcp_port : ℕ
  pub rtp_channel_id : ℕ
  pub rtcp_channel_id : ℕ
  pub destination_ttl : ℕ

-- The "Transport:" line of an answer.
pub data Transport : Type 0 where
  multicast : (server_rtp_port server_rtcp_port ttl : ℕ) → Transport
  raw_multicast : (server_rtp_port server_rtcp_port ttl : ℕ) → Transport
  unicast : (client_rtp_port client_rtcp_port server_rtp_port server_rtcp_port : ℕ) → Transport
  interleaved : (rtp_channel_id rtcp_channel_id : ℕ) → Transport
  raw_unicast : (mode : Text) (client_rtp_port server_rtp_port : ℕ) → Transport

-- What an answer says. Those with a `cseq` have a "CSeq:" line; dates, addresses, scale and range are left out.
pub data Response : Type 0 where
  options_ok : (cseq : Text) → Response
  status : (code : ℕ) (cseq : Text) → Response
  session_ok : (cseq session_id : Text) → Response
  bad_request : Response
  not_allowed : (cseq : Text) → Response
  unauthorized : (cseq realm nonce : Text) → Response
  described : (cseq stream_name : Text) → Response
  set_up : (cseq : Text) → Transport → (session_id : Text) → Response
  playing : (cseq session_id stream_name track_id : Text) (rtp_seq_num rtp_timestamp : ℕ) → Response
  http_tunnel : Response
  http_not_allowed : Response

-- `StreamServerState`: the subsession, as its place in the media session, and the stream's token.
pub record StreamServerState : Type 0 where
  pub subsession : Option ℕ
  pub stream_token : Option ℕ

pub record ClientSession : Type 0 where
  pub session_id : Text
  pub connection : ℕ
  pub is_multicast : Bool
  pub is_timer_running : Bool
  pub timer_armed : Bool
  pub stream_after_setup : Bool
  pub num_stream_states : ℕ
  pub tcp_stream_id_count : ℕ
  pub stream_states : Option StreamServerState
  pub server_media_session : Option ℕ

pub record ClientConnection : Type 0 where
  pub current_cseq : Text
  pub session_id_str : Text
  pub response_buffer : Option Response
  pub client_session : Option ℕ
  pub digest : Digest

pub record Server : Type 0 where
  pub client_sessions : Text → Option ℕ
  pub client_http_connections : Text → Option ℕ
  pub server_media_sessions : Text → Option ℕ
  pub auth_database : Option Database
  pub connections : ℕ → ClientConnection
  pub sessions : ℕ → ClientSession
  pub next_session : ℕ
  pub media : ℕ → MediaSession
  pub next_media : ℕ
  pub on_demand : Streams

-- What a request finds outside the server: the files, the random session IDs that are drawn and the nonce, the source
-- and the ports that a new stream gets, and where the sink of a stream that is started stands.
pub record World : Type 0 where
  pub file_exists : Text → Bool
  pub drawn : List Text
  pub nonce : Text
  pub opened : Opened
  pub rtp_seq_num : ℕ
  pub rtp_timestamp : ℕ

-- A request as it is parsed, and its text.
pub record Request : Type 0 where
  pub cmd_name : Text
  pub cseq : Text
  pub session_id_str : Text
  pub url_pre_suffix : Text
  pub url_suffix : Text
  pub full_request_str : Text
  pub transport : TransportHeader
  pub saw_range_header : Bool
  pub play_now : Bool

-- A request that is parsed as RTSP, as HTTP (the command and the session cookie), or not at all.
pub data Parsed : Type 0 where
  rtsp : Request → Parsed
  http : (cmd_name session_cookie : Text) → Parsed
  bad : Parsed

-- A handler comes back, panics on a nil pointer, or goes on drawing session IDs.
pub data Result {ℓ} (A : Type ℓ) : Type ℓ where
  ok : A → Result A
  panicked : Result A
  drawing : Result A

infixl 5 ◌>>=◌
abbrev pub ◌>>=◌ {ℓ κ} : {A : Type ℓ} {B : Type κ} → Result A → (A → Result B) → Result B
ok a >>= f = f a
panicked >>= f = panicked
drawing >>= f = drawing

abbrev pub or_nil {ℓ} : {A : Type ℓ} → Option A → Result A
or_nil none = panicked
or_nil (some a) = ok a
