-- ===== src/RtspServer/Connection.antt =====
-- rtspserver/connection.go: the requests of a connection. The hash of the digest is a parameter.
use dorsvr.Common.{
  ℕ, ◌+◌, Bool, true, false, ◌||◌, List, [], ◌∷◌, ◌++◌, Option, none, some, if◌then◌else◌,
}
use dorsvr.Common.Text.{Text, codes, text_eq, is_empty, put, store}
use dorsvr.RtspServer.{
  Server, World, Request, Parsed, rtsp, http, bad, options_ok, described, unauthorized, http_tunnel,
  http_not_allowed, ClientConnection, Result, ok, drawing, ◌>>=◌,
}
use dorsvr.Auth.{
  Digest, Database, AuthorizationHeader, lookup_password, compute_response,
  parse_authorization_header,
}
use dorsvr.RtspServer.Media.{
  lookup_server_media_session, set_response, handle_command_not_found,
  handle_command_session_not_found, handle_command_bad, handle_command_not_supported,
}
use dorsvr.RtspServer.Session.{
  new_client_session, set_session, note_liveness, handle_command_setup,
  handle_command_within_session, destroy,
}

abbrev pub set_connection : Server → ℕ → ClientConnection → Server
set_connection s c connection = record s { connections = store s.connections c connection }

-- `newRTSPClientSession`, added to the table.
unfoldable pub add_new_session : Server → ℕ → Text → Server
add_new_session s c session_id =
    note_liveness
      (record (set_session s s.next_session (new_client_session c session_id)) {
        client_sessions = put s.client_sessions session_id (some s.next_session);
        next_session = s.next_session + 1;
      })
      s.next_session

abbrev pub is_nil : Option ℕ → Bool
is_nil none = true
is_nil (some _) = false

-- The first session ID drawn that no session has.
unfoldable pub draw_session_id : Server → List Text → Result Text
draw_session_id s [] = drawing
draw_session_id s (drawn ∷ more) =
    let again = draw_session_id s more in
    if is_nil (s.client_sessions drawn) then ok drawn else again

abbrev pub with_session : Server → ℕ → Option ℕ → Server
with_session s c p = set_connection s c (record (s.connections c) { client_session = p })

-- A SETUP without a session creates one, on the connection.
unfoldable pub set_up_new : World → Server → ℕ → Request → Text → Result Server
set_up_new w s c r session_id =
    let added = add_new_session s c session_id in
    handle_command_setup w
      (set_connection added c (record (added.connections c) {
        session_id_str = session_id;
        client_session = some s.next_session;
      }))
      s.next_session r

unfoldable pub set_up_again : World → Server → ℕ → Request → Option ℕ → Result Server
set_up_again w s c r none = ok (handle_command_session_not_found (with_session s c none) c)
set_up_again w s c r (some p) = handle_command_setup w (with_session s c (some p)) p r

unfoldable pub handle_setup : World → Server → ℕ → Request → Result Server
handle_setup w s c r =
    if is_empty r.session_id_str
    then (draw_session_id s w.drawn >>= λ session_id. set_up_new w s c r session_id)
    else set_up_again w s c r (s.client_sessions r.session_id_str)

unfoldable pub in_found_session : World → Server → ℕ → Request → Option ℕ → Result Server
in_found_session w s c r none = ok (handle_command_session_not_found (with_session s c none) c)
in_found_session w s c r (some p) = handle_command_within_session w (with_session s c (some p)) p r

unfoldable pub handle_in_session : World → Server → ℕ → Request → Result Server
handle_in_session w s c r = in_found_session w s c r (s.client_sessions r.session_id_str)

abbrev pub in_session : Text → Bool
in_session cmd_name =
    text_eq cmd_name (codes "PLAY")
    || text_eq cmd_name (codes "PAUSE")
    || text_eq cmd_name (codes "TEARDOWN")
    || text_eq cmd_name (codes "GET_PARAMETER")
    || text_eq cmd_name (codes "SET_PARAMETER")

abbrev pub note_http_connection : Server → ℕ → Text → Option ℕ → Server
note_http_connection s c session_cookie none = record s {
  client_http_connections = put s.client_http_connections session_cookie (some c);
}
note_http_connection s c session_cookie (some _) = s

unfoldable pub handle_http_get : Server → ℕ → Text → Server
handle_http_get s c session_cookie =
    set_response
      (note_http_connection s c session_cookie (s.client_http_connections session_cookie)) c
      http_tunnel

-- A POST is answered by what is in the buffer.
unfoldable pub handle_http : Server → ℕ → (cmd_name session_cookie : Text) → Server
handle_http s c cmd_name session_cookie =
    if text_eq cmd_name (codes "GET")
    then handle_http_get s c session_cookie
    else if text_eq cmd_name (codes "POST")
    then s
    else set_response s c http_not_allowed

-- The description of a media session is never empty.
unfoldable pub describe_found : Server → ℕ → Option ℕ → Server
describe_found s c none = handle_command_not_found s c
describe_found s c (some m) =
    set_response s c (described (s.connections c).current_cseq (s.media m).stream_name)

module _ (md5 : Text → Text) where
  -- The digest with the password and the name of the user, and whether the response is the right one.
  unfoldable pub try_header :
      Digest → Database → (cmd_name : Text) → AuthorizationHeader → Digest × Bool
  try_header d database cmd_name header =
      let password = lookup_password database header.username in
      let known = record d { password = password; username = header.username } in
      if is_empty password
      then (record d { password = password }, false)
      else (known, text_eq (compute_response md5 known cmd_name header.uri) header.response)

  unfoldable pub try_digest :
      Digest → Database → (cmd_name : Text) → Option AuthorizationHeader → Digest × Bool
  try_digest d database cmd_name none = (d, false)
  try_digest d database cmd_name (some header) =
      if is_empty d.nonce then (d, false) else try_header d database cmd_name header

  unfoldable pub challenge : World → Server → ℕ → Database → Digest → Server
  challenge w s c database d =
      let fresh = record d { realm = database.realm; nonce = w.nonce } in
      set_response (set_connection s c (record (s.connections c) { digest = fresh })) c
        (unauthorized (s.connections c).current_cseq database.realm w.nonce)

  unfoldable pub end_authentication : World → Server → ℕ → Database → Digest × Bool → Server × Bool
  end_authentication w s c database (d, true) =
      (set_connection s c (record (s.connections c) { digest = d }), true)
  end_authentication w s c database (d, false) = (challenge w s c database d, false)

  -- A server with no database lets everyone pass.
  unfoldable pub authenticate :
      World → Server → ℕ → (cmd_name : Text) → Request → Option Database → Server × Bool
  authenticate w s c cmd_name r none = (s, true)
  authenticate w s c cmd_name r (some database) = end_authentication w s c database (
      try_digest (s.connections c).digest database cmd_name
        (parse_authorization_header r.full_request_str))

  -- `specialClientAccessCheck` always agrees.
  unfoldable pub authentication_ok :
      World → Server → ℕ → (cmd_name : Text) → Request → Server × Bool
  authentication_ok w s c cmd_name r = authenticate w s c cmd_name r s.auth_database

  unfoldable pub describe_checked : World → ℕ → Text → Server × Bool → Result Server
  describe_checked w c url_total_suffix (s, false) = ok s
  describe_checked w c url_total_suffix (s, true) =
      lookup_server_media_session w s url_total_suffix >>= λ found.
      ok (describe_found found.0 c found.1)

  unfoldable pub handle_command_describe : World → Server → ℕ → Request → Result Server
  handle_command_describe w s c r =
      describe_checked w c
        (if is_empty r.url_pre_suffix
          then r.url_suffix
          else r.url_pre_suffix ++ (codes "/" ++ r.url_suffix))
        (authentication_ok w s c (codes "DESCRIPE") r)

  -- `RECORD` has an empty case.
  unfoldable pub handle_rtsp : World → Server → ℕ → Request → Result Server
  handle_rtsp w s c r =
      if text_eq r.cmd_name (codes "OPTIONS")
      then ok (set_response s c (options_ok (s.connections c).current_cseq))
      else if text_eq r.cmd_name (codes "DESCRIBE")
      then handle_command_describe w s c r
      else if text_eq r.cmd_name (codes "SETUP")
      then handle_setup w s c r
      else if in_session r.cmd_name
      then handle_in_session w s c r
      else if text_eq r.cmd_name (codes "RECORD")
      then ok s
      else ok (handle_command_not_supported s c)

  -- `handleRequestBytes`, up to the response buffer that is then written to the socket.
  unfoldable pub handle_request_bytes : World → Server → ℕ → Parsed → Result Server
  handle_request_bytes w s c (rtsp r) =
      handle_rtsp w
        (set_connection s c
          (record (s.connections c) { current_cseq = r.cseq; session_id_str = r.session_id_str }))
        c r
  handle_request_bytes w s c (http cmd_name session_cookie) =
      ok (handle_http s c cmd_name session_cookie)
  handle_request_bytes w s c bad = ok (handle_command_bad s c)

abbrev pub destroy_session : Server → Option ℕ → Server
destroy_session s none = s
destroy_session s (some p) = destroy s p

-- The end of `incomingRequestHandler`.
unfoldable pub disconnect : Server → ℕ → Server
disconnect s c = destroy_session s (s.connections c).client_session
