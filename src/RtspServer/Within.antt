-- ===== src/RtspServer/Within.antt =====
-- The requests within a session that come back keep what holds of the tables.
use dorsvr.Common.{ℕ, Option, none, some, get_elem?}
use dorsvr.Common.Text.{Text, codes, text_eq}
use dorsvr.RtspServer.{Server, World, Request, ClientSession, ok, or_nil}
use dorsvr.OnDemand.{start_stream, pause_stream, delete_stream}
use dorsvr.RtspServer.Media.{
  set_rtsp_response, handle_command_not_found, handle_command_not_supported,
}
use dorsvr.RtspServer.Session.{
  note_liveness, Target, aggregated, track, no_target, current_stream, handle_command_play,
  handle_command_pause, handle_command_tear_down, answer_ok, dispatch, on_target, within_media,
  handle_command_within_session,
}
use dorsvr.RtspServer.Invariant.{
  IsValid, set_response-IsValid, with_streams-IsValid, note_liveness-IsValid, destroy-IsValid,
}
use dorsvr.RtspServer.Handlers.{Ensures, Ensures-bind, if-Ensures}

or_nil-Unit : {A : Type 0} (o : Option A) → Ensures (λ _. Unit {0}) (or_nil o)
or_nil-Unit none = tt
or_nil-Unit (some a) = tt

current-Ensures : (session : ClientSession) → Ensures (λ _. Unit {0}) (current_stream session)
unfolding current_stream
current-Ensures session =
    Ensures-bind _ _ (or_nil session.stream_states) _ (or_nil-Unit session.stream_states)
      λ states _.
        Ensures-bind _ _ (or_nil session.server_media_session) _
          (or_nil-Unit session.server_media_session)
          λ m _.
            Ensures-bind _ _ (or_nil states.subsession) _ (or_nil-Unit states.subsession) λ i _. tt

module _ (w : World) (s : Server) (p : ℕ) (v : IsValid s) where
  play-Ensures : Ensures IsValid (handle_command_play w s p)
  unfolding handle_command_play
  play-Ensures =
      Ensures-bind _ IsValid (current_stream (s.sessions p)) _ (current-Ensures (s.sessions p))
        λ (m, i, token) _.
          Ensures-bind _ IsValid
            (or_nil (start_stream s.on_demand m i (s.sessions p).session_id token)) _
            (or_nil-Unit _)
            λ t _.
              Ensures-bind _ IsValid (or_nil (get_elem? (s.media m).track_ids i)) _
                (or_nil-Unit (get_elem? (s.media m).track_ids i))
                λ _ _. set_response-IsValid _ _ _ (with_streams-IsValid s t v)

  pause-Ensures : Ensures IsValid (handle_command_pause s p)
  unfolding handle_command_pause answer_ok
  pause-Ensures =
      Ensures-bind _ IsValid (current_stream (s.sessions p)) _ (current-Ensures (s.sessions p))
        λ (m, i, token) _.
          Ensures-bind _ IsValid (or_nil (pause_stream s.on_demand token)) _ (or_nil-Unit _)
            λ t _. set_response-IsValid _ _ _ (with_streams-IsValid s t v)

  tear_down-Ensures : Ensures IsValid (handle_command_tear_down s p)
  unfolding handle_command_tear_down set_rtsp_response
  tear_down-Ensures =
      Ensures-bind _ IsValid (current_stream (s.sessions p)) _ (current-Ensures (s.sessions p))
        λ (m, i, token) _.
          Ensures-bind _ IsValid
            (or_nil (delete_stream s.on_demand m i (s.sessions p).session_id token)) _
            (or_nil-Unit _)
            λ t _. destroy-IsValid _ p (set_response-IsValid _ _ _ (with_streams-IsValid s t v))

  dispatch-Ensures : (cmd_name : Text) → Ensures IsValid (dispatch w s p cmd_name)
  unfolding dispatch answer_ok
  dispatch-Ensures cmd_name =
      if-Ensures IsValid (text_eq cmd_name (codes "TEARDOWN")) _ _ tear_down-Ensures (
        if-Ensures IsValid (text_eq cmd_name (codes "PLAY")) _ _ play-Ensures (
          if-Ensures IsValid (text_eq cmd_name (codes "PAUSE")) _ _ pause-Ensures
            (if-Ensures IsValid _ (ok (answer_ok s p)) (ok s) (set_response-IsValid s _ _ v) v)))

  on_target-Ensures : (cmd_name : Text) (t : Target) → Ensures IsValid (on_target w s p cmd_name t)
  unfolding on_target handle_command_not_found set_rtsp_response
  on_target-Ensures cmd_name no_target = set_response-IsValid s _ _ v
  on_target-Ensures cmd_name aggregated = dispatch-Ensures cmd_name
  on_target-Ensures cmd_name (track i) = dispatch-Ensures cmd_name

within_media-Ensures :
    (w : World) (s : Server) (p : ℕ) (r : Request) (own : Option ℕ)
    → IsValid s
    → Ensures IsValid (within_media w s p r own)
unfolding within_media handle_command_not_supported
within_media-Ensures w s p r none v = set_response-IsValid s _ _ v
within_media-Ensures w s p r (some m) v = on_target-Ensures w s p v r.cmd_name _

pub within_session-Ensures :
    (w : World) (s : Server) (p : ℕ) (r : Request)
    → IsValid s
    → Ensures IsValid (handle_command_within_session w s p r)
unfolding handle_command_within_session
within_session-Ensures w s p r v =
    within_media-Ensures w (note_liveness s p) p r _ (note_liveness-IsValid s p v)
