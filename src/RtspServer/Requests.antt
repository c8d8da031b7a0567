-- ===== src/RtspServer/Requests.antt =====
-- A request that comes back keeps what holds of the tables, whatever it is.
use dorsvr.Common.{
  ℕ, ◌<◌, ◌≡◌, refl, Bool, true, false, List, [], ◌∷◌, Option, none, some, if◌then◌else◌, arith,
}
use dorsvr.Common.Text.{Text, codes, text_eq, is_empty}
use dorsvr.Auth.{Digest, Database}
use dorsvr.RtspServer.{Server, World, Request, Parsed, rtsp, http, bad, ok}
use dorsvr.RtspServer.Media.{
  lookup_server_media_session, set_rtsp_response, handle_command_not_found,
  handle_command_session_not_found, handle_command_bad, handle_command_not_supported,
}
use dorsvr.RtspServer.Session.{note_liveness}
use dorsvr.RtspServer.Connection.{
  with_session, add_new_session, is_nil, draw_session_id, set_up_new, set_up_again, handle_setup,
  in_found_session, handle_in_session, challenge, end_authentication, authenticate,
  authentication_ok, describe_found, describe_checked, handle_command_describe,
  note_http_connection, handle_http_get, handle_http, handle_rtsp, handle_request_bytes, in_session,
}
use dorsvr.RtspServer.Invariant.{
  IsValid, set_response-IsValid, set_connection-IsValid, add_new_session-IsValid,
}
use dorsvr.RtspServer.Within.{within_session-Ensures}
use dorsvr.RtspServer.Handlers.{
  Ensures, Ensures-bind, if-Ensures, Found, lookup-Ensures, handle_command_setup-Ensures,
}

if-IsValid : (b : Bool) (s t : Server) → IsValid s → IsValid t → IsValid (if b then s else t)
if-IsValid true s t v u = v
if-IsValid false s t v u = u

new_place : (s : Server) (c : ℕ) (k : Text) → s.next_session < (add_new_session s c k).next_session
unfolding add_new_session note_liveness
new_place s c k = omega arith

draw_session_id-Ensures :
    (s : Server) (drawn : List Text) → Ensures (λ _. Unit {0}) (draw_session_id s drawn)
unfolding draw_session_id
draw_session_id-Ensures s [] = tt
draw_session_id-Ensures s (k ∷ more) =
    if-Ensures _ (is_nil (s.client_sessions k)) _ _ tt (draw_session_id-Ensures s more)

set_up_new-Ensures :
    (w : World) (s : Server) (c : ℕ) (r : Request) (k : Text)
    → IsValid s
    → Ensures IsValid (set_up_new w s c r k)
unfolding set_up_new
set_up_new-Ensures w s c r k v =
    handle_command_setup-Ensures w _ s.next_session r
      (set_connection-IsValid (add_new_session s c k) c _ (add_new_session-IsValid s c k v))
      (new_place s c k)

set_up_again-Ensures :
    (w : World) (s : Server) (c : ℕ) (r : Request) (o : Option ℕ)
    → IsValid s
    → s.client_sessions r.session_id_str ≡ o
    → Ensures IsValid (set_up_again w s c r o)
unfolding set_up_again handle_command_session_not_found set_rtsp_response
set_up_again-Ensures w s c r none v e =
    set_response-IsValid (with_session s c none) c _ (set_connection-IsValid s c _ v)
set_up_again-Ensures w s c r (some p) v e =
    handle_command_setup-Ensures w (with_session s c (some p)) p r (set_connection-IsValid s c _ v)
      (v.session_named r.session_id_str p e).0

handle_setup-Ensures :
    (w : World) (s : Server) (c : ℕ) (r : Request)
    → IsValid s
    → Ensures IsValid (handle_setup w s c r)
unfolding handle_setup
handle_setup-Ensures w s c r v =
    if-Ensures IsValid (is_empty r.session_id_str) _ _
      (Ensures-bind _ IsValid (draw_session_id s w.drawn) _ (draw_session_id-Ensures s w.drawn)
        λ k _. set_up_new-Ensures w s c r k v)
      (set_up_again-Ensures w s c r _ v refl)

in_found_session-Ensures :
    (w : World) (s : Server) (c : ℕ) (r : Request) (o : Option ℕ)
    → IsValid s
    → s.client_sessions r.session_id_str ≡ o
    → Ensures IsValid (in_found_session w s c r o)
unfolding in_found_session handle_command_session_not_found set_rtsp_response
in_found_session-Ensures w s c r none v e =
    set_response-IsValid (with_session s c none) c _ (set_connection-IsValid s c _ v)
in_found_session-Ensures w s c r (some p) v e =
    within_session-Ensures w (with_session s c (some p)) p r (set_connection-IsValid s c _ v)

http-IsValid :
    (s : Server) (c : ℕ) (cmd_name session_cookie : Text)
    → IsValid s
    → IsValid (handle_http s c cmd_name session_cookie)
unfolding handle_http handle_http_get
http-IsValid s c cmd_name session_cookie v =
    if-IsValid (text_eq cmd_name (codes "GET")) _ _
      (set_response-IsValid _ c _ (noted (s.client_http_connections session_cookie)))
      (if-IsValid (text_eq cmd_name (codes "POST")) _ _ v (set_response-IsValid s c _ v))
  where
    noted : (o : Option ℕ) → IsValid (note_http_connection s c session_cookie o)
    noted none = record {
      session_named = v.session_named;
      media_named = v.media_named;
      has_tracks = v.has_tracks;
      has_stream = v.has_stream;
    }
    noted (some _) = v

module _ (md5 : Text → Text) (w : World) where
  end_authentication-IsValid :
      (s : Server) (c : ℕ) (database : Database) (tried : Digest × Bool)
      → IsValid s
      → IsValid (end_authentication md5 w s c database tried).0
  unfolding end_authentication challenge
  end_authentication-IsValid s c database (d, true) v = set_connection-IsValid s c _ v
  end_authentication-IsValid s c database (d, false) v =
      set_response-IsValid _ c _ (set_connection-IsValid s c _ v)

  authenticate-IsValid :
      (s : Server) (c : ℕ) (cmd_name : Text) (r : Request) (o : Option Database)
      → IsValid s
      → IsValid (authenticate md5 w s c cmd_name r o).0
  unfolding authenticate
  authenticate-IsValid s c cmd_name r none v = v
  authenticate-IsValid s c cmd_name r (some database) v =
      end_authentication-IsValid s c database _ v

  describe_checked-Ensures :
      (c : ℕ) (name : Text) (checked : Server × Bool)
      → IsValid checked.0
      → Ensures IsValid (describe_checked md5 w c name checked)
  unfolding describe_checked describe_found handle_command_not_found set_rtsp_response
  describe_checked-Ensures c name (s, false) v = v
  describe_checked-Ensures c name (s, true) v =
      Ensures-bind (Found s) IsValid (lookup_server_media_session w s name) _
        (lookup-Ensures w s name v) λ found h. described found.0 found.1 h.0
    where
      described : (s' : Server) (o : Option ℕ) → IsValid s' → IsValid (describe_found s' c o)
      described s' none v' = set_response-IsValid s' c _ v'
      described s' (some m) v' = set_response-IsValid s' c _ v'

  rtsp-Ensures :
      (s : Server) (c : ℕ) (r : Request) → IsValid s → Ensures IsValid (handle_rtsp md5 w s c r)
  unfolding handle_rtsp handle_command_describe authentication_ok handle_in_session
      handle_command_not_supported
  rtsp-Ensures s c r v =
      if-Ensures IsValid (text_eq r.cmd_name (codes "OPTIONS")) _ _ (set_response-IsValid s c _ v) (
        if-Ensures IsValid (text_eq r.cmd_name (codes "DESCRIBE")) _ _
          (describe_checked-Ensures c _ _ (authenticate-IsValid s c _ r s.auth_database v))
          (if-Ensures IsValid (text_eq r.cmd_name (codes "SETUP")) _ _
            (handle_setup-Ensures w s c r v)
            (if-Ensures IsValid (in_session r.cmd_name) _ _
              (in_found_session-Ensures w s c r _ v refl)
              (if-Ensures IsValid (text_eq r.cmd_name (codes "RECORD")) (ok s) _ v
                (set_response-IsValid s c _ v)))))

  pub request-Ensures :
      (s : Server) (c : ℕ) (request : Parsed)
      → IsValid s
      → Ensures IsValid (handle_request_bytes md5 w s c request)
  unfolding handle_request_bytes handle_command_bad
  request-Ensures s c (rtsp r) v = rtsp-Ensures _ c r (set_connection-IsValid s c _ v)
  request-Ensures s c (http cmd_name session_cookie) v = http-IsValid s c cmd_name session_cookie v
  request-Ensures s c bad v = set_response-IsValid s c _ v
