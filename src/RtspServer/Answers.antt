-- ===== src/RtspServer/Answers.antt =====
-- On which connection a request is answered, and what a session is after its TEARDOWN.
use dorsvr.Common.{
  ℕ, ◌≡◌, ◌≢◌, refl, sym, ap, subst, ◌∙◌, Bool, true, false, Option, none, some, get_elem?, ne→==,
  if◌then◌else◌,
}
use dorsvr.Common.Text.{Text, codes, text_eq, put_self, store, store_self}
use dorsvr.RtspServer.{
  Server, World, Request, Response, status, ClientConnection, ClientSession, Result, ok, panicked,
  drawing, ◌>>=◌, or_nil,
}
use dorsvr.RtspServer.Media.{
  set_response, set_rtsp_response, handle_command_not_found, handle_command_not_supported,
  handle_command_session_not_found, remove_server_media_session,
}
use dorsvr.RtspServer.Session.{
  note_liveness, destroy, remove_client_session, remove_its_media_session, Target, aggregated,
  track, no_target, handle_command_play, handle_command_pause, handle_command_tear_down, answer_ok,
  dispatch, on_target, within_media, handle_command_within_session, current_stream, with_streams,
}
use dorsvr.OnDemand.{Streams, start_stream, pause_stream, delete_stream}
use dorsvr.RtspServer.Connection.{with_session, in_found_session, handle_in_session}

-- What holds of the result of a handler that comes back.
abbrev pub Allows {ℓ} : {A : Type ℓ} → (A → Type 0) → Result A → Type 0
Allows P (ok a) = P a
Allows P panicked = Unit {0}
Allows P drawing = Unit {0}

Allows-bind {ℓ κ} :
    {A : Type ℓ} {B : Type κ} (Q : B → Type 0) (m : Result A) (f : A → Result B)
    → ((a : A) → Allows Q (f a))
    → Allows Q (m >>= f)
Allows-bind Q (ok a) f k = k a
Allows-bind Q panicked f k = tt
Allows-bind Q drawing f k = tt

if-Allows {ℓ} :
    {A : Type ℓ} (P : A → Type 0) (b : Bool) (x y : Result A)
    → Allows P x
    → Allows P y
    → Allows P (if b then x else y)
if-Allows P true x y p q = p
if-Allows P false x y p q = q

remove_its-connections :
    (s : Server) (o : Option ℕ) → (remove_its_media_session s o).connections ≡ s.connections
unfolding remove_server_media_session
remove_its-connections s none = refl
remove_its-connections s (some m) = refl

destroy-connections : (s : Server) (p : ℕ) {c : ℕ} → (destroy s p).connections c ≡ s.connections c
unfolding destroy remove_client_session
destroy-connections s p {c} =
    ap (λ f. f c) (remove_its-connections _ (s.sessions p).server_media_session)

-- Another connection than the session's is left as it is.
module _ (w : World) (s : Server) (p c : ℕ) (other : c ≢ (s.sessions p).connection) where
  abbrev Leaves : Server → Type 0
  Leaves t = t.connections c ≡ s.connections c

  response-Leaves : (r : Response) → Leaves (set_response s (s.sessions p).connection r)
  unfolding set_response store
  response-Leaves r = rw (ne→== c (s.sessions p).connection other)

  streams-Leaves :
      (t : Streams) (r : Response)
      → Leaves (set_response (with_streams s t) (s.sessions p).connection r)
  unfolding set_response store
  streams-Leaves t r = rw (ne→== c (s.sessions p).connection other)

  dispatch-Leaves : (cmd_name : Text) → Allows Leaves (dispatch w s p cmd_name)
  unfolding dispatch handle_command_play handle_command_pause handle_command_tear_down answer_ok
      set_rtsp_response
  dispatch-Leaves cmd_name =
      if-Allows Leaves (text_eq cmd_name (codes "TEARDOWN")) _ _
        (Allows-bind Leaves (current_stream (s.sessions p)) _ λ (m, i, token).
          Allows-bind Leaves
            (or_nil (delete_stream s.on_demand m i (s.sessions p).session_id token)) _
            λ t. destroy-connections _ p ∙ streams-Leaves t _)
        (if-Allows Leaves (text_eq cmd_name (codes "PLAY")) _ _
          (Allows-bind Leaves (current_stream (s.sessions p)) _ λ (m, i, token).
            Allows-bind Leaves
              (or_nil (start_stream s.on_demand m i (s.sessions p).session_id token)) _
              λ t.
                Allows-bind Leaves (or_nil (get_elem? (s.media m).track_ids i)) _
                  λ _. streams-Leaves t _)
          (if-Allows Leaves (text_eq cmd_name (codes "PAUSE")) _ _
            (Allows-bind Leaves (current_stream (s.sessions p)) _ λ (m, i, token).
              Allows-bind Leaves (or_nil (pause_stream s.on_demand token)) _
                λ t. streams-Leaves t _)
            (if-Allows Leaves _ (ok (answer_ok s p)) (ok s) (response-Leaves _) refl)))

  within_media-Leaves : (r : Request) (own : Option ℕ) → Allows Leaves (within_media w s p r own)
  unfolding within_media on_target handle_command_not_supported handle_command_not_found
      set_rtsp_response
  within_media-Leaves r none = response-Leaves _
  within_media-Leaves r (some m) = on_target-Leaves _
    where
      on_target-Leaves : (t : Target) → Allows Leaves (on_target w s p r.cmd_name t)
      on_target-Leaves no_target = response-Leaves _
      on_target-Leaves aggregated = dispatch-Leaves r.cmd_name
      on_target-Leaves (track i) = dispatch-Leaves r.cmd_name

ok_inj : {s t : Server} → ok s ≡ ok t → s ≡ t
ok_inj e = cc

panicked-ne-ok : {s : Server} → panicked ≢ ok s
panicked-ne-ok e = cc

drawing-ne-ok : {s : Server} → drawing ≢ ok s
drawing-ne-ok e = cc

-- The session that liveness was noted of keeps its connection.
liveness-connection :
    (s : Server) (p : ℕ) → ((note_liveness s p).sessions p).connection ≡ (s.sessions p).connection
unfolding note_liveness
liveness-connection s p = ap (λ (t : ClientSession). t.connection) (store_self s.sessions p _)

liveness-connections : (s : Server) (p c : ℕ) → (note_liveness s p).connections c ≡ s.connections c
unfolding note_liveness
liveness-connections s p c = refl

result_of : (P : Server → Type 0) (m : Result Server) {t : Server} → Allows P m → m ≡ ok t → P t
result_of P (ok t') h e = subst P (ok_inj e) h
result_of P panicked h e = absurd (panicked-ne-ok e)
result_of P drawing h e = absurd (drawing-ne-ok e)

-- A request within a session that comes on another connection than the one which the session was created on is not
-- answered there: whatever the request is, the response buffer of its connection stays as it was.
pub handle_in_session-elsewhere :
    (w : World) (s t : Server) (c p : ℕ) (r : Request)
    → s.client_sessions r.session_id_str ≡ some p
    → c ≢ (s.sessions p).connection
    → handle_in_session w s c r ≡ ok t
    → (t.connections c).response_buffer ≡ (s.connections c).response_buffer
unfolding handle_in_session in_found_session handle_command_within_session
handle_in_session-elsewhere w s t c p r e other h =
    ap (λ (k : ClientConnection). k.response_buffer)
      (result_of _ _
          (within_media-Leaves w (note_liveness (with_session s c (some p)) p) p c
            (λ same. other (same ∙ liveness-connection (with_session s c (some p)) p)) r
            ((note_liveness (with_session s c (some p)) p).sessions p).server_media_session)
          (sym (ap (λ o. in_found_session w s c r o) e) ∙ h)
        ∙ liveness-connections (with_session s c (some p)) p c
        ∙ store_self s.connections c _)

remove_its-client_sessions :
    (s : Server) (o : Option ℕ) → (remove_its_media_session s o).client_sessions ≡ s.client_sessions
unfolding remove_server_media_session
remove_its-client_sessions s none = refl
remove_its-client_sessions s (some m) = refl

destroy-client_sessions :
    (s : Server) (p : ℕ) → (destroy s p).client_sessions (s.sessions p).session_id ≡ none
unfolding destroy remove_client_session
destroy-client_sessions s p =
    ap (λ f. f (s.sessions p).session_id)
      (remove_its-client_sessions _ (s.sessions p).server_media_session)
    ∙ put_self s.client_sessions (s.sessions p).session_id none

tear_down-gone :
    (s : Server) (p : ℕ)
    → Allows
        (λ (t : Server). t.client_sessions (s.sessions p).session_id ≡ none)
        (handle_command_tear_down s p)
unfolding handle_command_tear_down set_rtsp_response set_response
tear_down-gone s p =
    Allows-bind (λ (t : Server). t.client_sessions (s.sessions p).session_id ≡ none)
      (current_stream (s.sessions p)) _
      λ (m, i, token).
        Allows-bind (λ (t : Server). t.client_sessions (s.sessions p).session_id ≡ none)
          (or_nil (delete_stream s.on_demand m i (s.sessions p).session_id token)) _
          λ t.
            destroy-client_sessions
              (set_rtsp_response (with_streams s t) (s.sessions p).connection 200) p

not_found :
    (w : World) (t : Server) (c : ℕ) (r : Request)
    → (u : Server) × (in_found_session w t c r none ≡ ok u)
      × ((u.connections c).response_buffer ≡ some (status 454 (t.connections c).current_cseq))
unfolding in_found_session handle_command_session_not_found set_rtsp_response set_response
not_found w t c r =
    let named : (t.connections c).current_cseq
        ≡ ((with_session t c none).connections c).current_cseq =
      sym (ap (λ (k : ClientConnection). k.current_cseq) (store_self t.connections c _)) in
    (
      _,
      refl,
      ap (λ (k : ClientConnection). k.response_buffer) (store_self _ c _)
          ∙ ap (λ n. some (status 454 n)) (sym named),
    )

-- After the TEARDOWN of a session, every request within a session that names its ID, on whatever connection, is
-- answered there by "454 Session Not Found".
pub tear_down-not_found :
    (w : World) (s t : Server) (p c : ℕ) (r : Request)
    → handle_command_tear_down s p ≡ ok t
    → r.session_id_str ≡ (s.sessions p).session_id
    → (u : Server) × (handle_in_session w t c r ≡ ok u)
      × ((u.connections c).response_buffer ≡ some (status 454 (t.connections c).current_cseq))
unfolding handle_in_session
tear_down-not_found w s t p c r h named =
    let (u, e, answer) = not_found w t c r in
    (u, ap (λ o. in_found_session w t c r o) (ap t.client_sessions named ∙ gone) ∙ e, answer)
  where
    gone : t.client_sessions (s.sessions p).session_id ≡ none
    gone =
        result_of (λ (t : Server). t.client_sessions (s.sessions p).session_id ≡ none)
          (handle_command_tear_down s p) (tear_down-gone s p) h
