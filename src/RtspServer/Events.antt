-- ===== src/RtspServer/Events.antt =====
-- The server over time: connections that come and go, requests, streams that start and timeouts, one after another.
use dorsvr.Common.{ℕ, ◌≡◌, true, List, [], ◌∷◌, ◌++◌, Option, none, some, arith, subst}
use dorsvr.Common.Text.{Text}
use dorsvr.Auth.{Database, new_digest}
use dorsvr.RtspServer.{Server, World, Parsed, ClientConnection, ok}
use dorsvr.OnDemand.{Start, no_streams, run_start}
use dorsvr.RtspServer.Session.{with_streams, destroy, new_client_session}
use dorsvr.RtspServer.Connection.{set_connection, handle_request_bytes, destroy_session, disconnect}
use dorsvr.RtspServer.Invariant.{
  none-ne-some, IsValid, set_connection-IsValid, with_streams-IsValid, destroy-IsValid,
}
use dorsvr.RtspServer.Handlers.{Ensures}
use dorsvr.RtspServer.Requests.{request-Ensures}

-- `newRTSPClientConnection`
unfoldable pub new_client_connection : ClientConnection
unfolding new_digest
new_client_connection = record {
  current_cseq = [];
  session_id_str = [];
  response_buffer = none;
  client_session = none;
  digest = new_digest;
}

-- `New`: the tables are empty. What the stores hold beyond their next places does not matter.
unfoldable pub new_server : Option Database → Server
unfolding new_client_connection
new_server auth_database = record {
  client_sessions = λ _. none;
  client_http_connections = λ _. none;
  server_media_sessions = λ _. none;
  auth_database = auth_database;
  connections = λ _. new_client_connection;
  sessions = λ _. new_client_session 0 [];
  next_session = 0;
  media = λ _. record { stream_name = []; track_ids = [] };
  next_media = 0;
  on_demand = no_streams;
}

-- A request is a step in whatever world it is handled, if its handler comes back. The tasks that start streams run in any
-- order.
pub data Step (md5 : Text → Text) (s : Server) (t : Server) : Type 0 where
  connects : (c : ℕ) → t ≡ set_connection s c new_client_connection → Step md5 s t
  requests :
      (w : World) (c : ℕ) (request : Parsed)
      → handle_request_bytes md5 w s c request ≡ ok t
      → Step md5 s t
  starts :
      (before later : List Start) (start : Start)
      → s.on_demand.starting ≡ before ++ start ∷ later
      → t ≡ with_streams s (run_start s.on_demand start (before ++ later))
      → Step md5 s t
  disconnects : (c : ℕ) → t ≡ disconnect s c → Step md5 s t
  times_out : (p : ℕ) → (s.sessions p).timer_armed ≡ true → t ≡ destroy s p → Step md5 s t

pub data Reach (md5 : Text → Text) (s : Server) : Server → Type 0 where
  here : Reach md5 s s
  next : {t u : Server} → Reach md5 s t → Step md5 t u → Reach md5 s u

new_server-IsValid : (database : Option Database) → IsValid (new_server database)
unfolding new_server
new_server-IsValid database = record {
  session_named = λ k p e. absurd (none-ne-some p e);
  media_named = λ k m e. absurd (none-ne-some m e);
  has_tracks = λ m lt. absurd (omega arith);
  has_stream = λ p lt. absurd (omega arith);
}

destroy_session-IsValid : (s : Server) (o : Option ℕ) → IsValid s → IsValid (destroy_session s o)
destroy_session-IsValid s none v = v
destroy_session-IsValid s (some p) v = destroy-IsValid s p v

Step-IsValid : (md5 : Text → Text) (s t : Server) → Step md5 s t → IsValid s → IsValid t
unfolding disconnect
Step-IsValid md5 s t (connects c e) v = rw e (set_connection-IsValid s c _ v)
Step-IsValid md5 s t (requests w c request e) v =
    subst (Ensures IsValid) e (request-Ensures md5 w s c request v)
Step-IsValid md5 s t (starts before later start waits e) v = rw e (with_streams-IsValid s _ v)
Step-IsValid md5 s t (disconnects c e) v =
    rw e (destroy_session-IsValid s (s.connections c).client_session v)
Step-IsValid md5 s t (times_out p armed e) v = rw e (destroy-IsValid s p v)

-- Whatever connections, timeouts, starts of streams and requests that came back a new server has seen, in whatever order, every entry of the table of sessions leads to a
-- session with the ID of its key, every entry of the table of media sessions to one with its key's name, and a session
-- that has a media session has the stream state of one of its subsessions.
pub Reach-IsValid :
    (md5 : Text → Text) (database : Option Database) {t : Server}
    → Reach md5 (new_server database) t
    → IsValid t
Reach-IsValid md5 database here = new_server-IsValid database
Reach-IsValid md5 database (next r st) = Step-IsValid md5 _ _ st (Reach-IsValid md5 database r)
