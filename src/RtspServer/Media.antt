-- ===== src/RtspServer/Media.antt =====
-- rtspserver/server.go: the table of media sessions, which are created for the files that are asked for, and
-- the setting of answers.
use dorsvr.Common.{ℕ, ◌+◌, [], ◌∷◌, Option, none, some, get_elem?, if◌then◌else◌}
use dorsvr.Common.Text.{Text, codes, text_eq, split, put, store}
use dorsvr.RtspServer.{
  MediaSession, Server, World, Response, status, bad_request, not_allowed, Result, ok, panicked,
}

-- The first subsession is number 1.
abbrev pub new_media_session : Text → MediaSession
new_media_session stream_name = record {
  stream_name = stream_name;
  track_ids = codes "track1" ∷ [];
}

-- By the part behind the first dot; no other extension has a media session.
unfoldable pub sms_of_extension : Text → Option Text → Option MediaSession
sms_of_extension file_name none = none
sms_of_extension file_name (some extension) =
    if text_eq extension (codes "264")
    then some (new_media_session file_name)
    else if text_eq extension (codes "ts")
    then some (new_media_session file_name)
    else none

unfoldable pub create_new_sms : Text → Option MediaSession
create_new_sms file_name = sms_of_extension file_name (get_elem? (split b'.' file_name) 1)

unfoldable pub add_server_media_session : Server → MediaSession → Server
add_server_media_session s sms = record s {
  server_media_sessions = put s.server_media_sessions sms.stream_name (some s.next_media);
  media = store s.media s.next_media sms;
  next_media = s.next_media + 1;
}

unfoldable pub remove_server_media_session : Server → Text → Server
remove_server_media_session s session_name = record s {
  server_media_sessions = put s.server_media_sessions session_name none;
}

-- A media session that was not created is nil, and adding it asks it for its name.
unfoldable pub add_created : Server → Option MediaSession → Result (Server × Option ℕ)
add_created s none = panicked
add_created s (some sms) = ok (add_server_media_session s sms, some s.next_media)

-- By the entry of the table, if there is one.
unfoldable pub lookup_entry : World → Server → Text → Option ℕ → Result (Server × Option ℕ)
lookup_entry w s stream_name (some m) =
    if w.file_exists stream_name
    then ok (s, some m)
    else ok (remove_server_media_session s stream_name, none)
lookup_entry w s stream_name none =
    if w.file_exists stream_name then add_created s (create_new_sms stream_name) else ok (s, none)

unfoldable pub lookup_server_media_session : World → Server → Text → Result (Server × Option ℕ)
lookup_server_media_session w s stream_name =
    lookup_entry w s stream_name (s.server_media_sessions stream_name)

unfoldable pub set_response : Server → ℕ → Response → Server
set_response s c response = record s {
  connections =
      store s.connections c (record (s.connections c) { response_buffer = some response });
}

-- `setRTSPResponse`, of the status that the code stands for, and its callers.
unfoldable pub set_rtsp_response : Server → ℕ → ℕ → Server
set_rtsp_response s c code = set_response s c (status code (s.connections c).current_cseq)

unfoldable pub handle_command_not_found : Server → ℕ → Server
handle_command_not_found s c = set_rtsp_response s c 404

unfoldable pub handle_command_session_not_found : Server → ℕ → Server
handle_command_session_not_found s c = set_rtsp_response s c 454

unfoldable pub handle_command_unsupported_transport : Server → ℕ → Server
handle_command_unsupported_transport s c = set_rtsp_response s c 461

unfoldable pub handle_command_bad : Server → ℕ → Server
handle_command_bad s c = set_response s c bad_request

unfoldable pub handle_command_not_supported : Server → ℕ → Server
handle_command_not_supported s c = set_response s c (not_allowed (s.connections c).current_cseq)
