-- ===== src/RtspServer/Handlers.antt =====
-- A SETUP that comes back keeps what holds of the tables.
use dorsvr.Common.{
  ℕ, zero, suc, ◌<◌, ◌≡◌, refl, sym, ap, subst, ◌∙◌, Bool, true, false, Bool-cases, ◌⊎◌, inl, inr,
  Option, none, some, length, ◌==◌, ==→eq, if◌then◌else◌, arith,
}
use dorsvr.Common.Text.{Text}
use dorsvr.RtspServer.{
  MediaSession, Server, World, Request, Transport, ClientSession, StreamServerState, Result, ok,
  panicked, drawing, ◌>>=◌, or_nil,
}
use dorsvr.RtspServer.Media.{
  sms_of_extension, lookup_entry, create_new_sms, add_created, add_server_media_session,
  remove_server_media_session, lookup_server_media_session, set_rtsp_response,
  handle_command_not_found, handle_command_unsupported_transport, handle_command_bad,
}
use dorsvr.RtspServer.Session.{
  answer_transport, set_up_found, with_media, stream_states_of, answer_setup, set_up_stream,
  handle_command_setup,
}
use dorsvr.RtspServer.Invariant.{
  none-ne-some, some_inj, IsValid, HasStream, set_response-IsValid, with_streams-IsValid,
  set_session-IsValid, add_server_media_session-IsValid, remove_server_media_session-IsValid,
}

-- What holds of the result of a handler, if it comes back.
abbrev pub Ensures {ℓ} : {A : Type ℓ} → (A → Type 0) → Result A → Type 0
Ensures P (ok a) = P a
Ensures P panicked = Unit {0}
Ensures P drawing = Unit {0}

pub Ensures-bind {ℓ κ} :
    {A : Type ℓ} {B : Type κ} (P : A → Type 0) (Q : B → Type 0) (m : Result A) (f : A → Result B)
    → Ensures P m
    → ((a : A) → P a → Ensures Q (f a))
    → Ensures Q (m >>= f)
Ensures-bind P Q (ok a) f p k = k a p
Ensures-bind P Q panicked f p k = tt
Ensures-bind P Q drawing f p k = tt

pub if-Ensures {ℓ} :
    {A : Type ℓ} (P : A → Type 0) (b : Bool) (x y : Result A)
    → Ensures P x
    → Ensures P y
    → Ensures P (if b then x else y)
if-Ensures P true x y p q = p
if-Ensures P false x y p q = q

-- The media session that is found is one of the table, and sessions are as before.
abbrev pub Found : Server → Server × Option ℕ → Type 0
Found s (s', o) =
    IsValid s'
    × (s'.sessions ≡ s.sessions)
    × (s'.next_session ≡ s.next_session)
    × elim o as (λ _. Type 0) [ none ↦ Unit {0} | some m ↦ m < s'.next_media ]

sms_of_extension-tracks :
    (name : Text) (extension : Option Text) (sms : MediaSession)
    → sms_of_extension name extension ≡ some sms
    → 0 < length sms.track_ids
unfolding sms_of_extension
sms_of_extension-tracks name none sms e = absurd (none-ne-some sms e)
sms_of_extension-tracks name (some extension) sms e = ground arith

create_new_sms-tracks :
    (name : Text) (sms : MediaSession) → create_new_sms name ≡ some sms → 0 < length sms.track_ids
unfolding create_new_sms
create_new_sms-tracks name sms e = sms_of_extension-tracks name _ sms e

add_created-Ensures :
    (s : Server) (name : Text) (o : Option MediaSession)
    → IsValid s
    → create_new_sms name ≡ o
    → Ensures (Found s) (add_created s o)
unfolding add_created add_server_media_session
add_created-Ensures s name none v e = tt
add_created-Ensures s name (some sms) v e = (
  add_server_media_session-IsValid s sms (create_new_sms-tracks name sms e) v,
  refl,
  refl,
  omega arith,
)

removed-Found :
    (s : Server) (name : Text) → IsValid s → Found s (remove_server_media_session s name, none)
unfolding remove_server_media_session
removed-Found s name v = (remove_server_media_session-IsValid s name v, refl, refl, tt)

lookup_entry-Ensures :
    (w : World) (s : Server) (name : Text) (o : Option ℕ)
    → IsValid s
    → s.server_media_sessions name ≡ o
    → Ensures (Found s) (lookup_entry w s name o)
unfolding lookup_entry
lookup_entry-Ensures w s name (some m) v present =
    if-Ensures _ (w.file_exists name) _ _ (v, refl, refl, (v.media_named name m present).0)
      (removed-Found s name v)
lookup_entry-Ensures w s name none v absent =
    if-Ensures _ (w.file_exists name) _ _ (add_created-Ensures s name _ v refl) (v, refl, refl, tt)

pub lookup-Ensures :
    (w : World) (s : Server) (name : Text)
    → IsValid s
    → Ensures (Found s) (lookup_server_media_session w s name)
unfolding lookup_server_media_session
lookup-Ensures w s name v = lookup_entry-Ensures w s name _ v refl

pub or_nil-Ensures {ℓ} :
    {A : Type ℓ} (o : Option A) (a : A) → o ≡ some a → Ensures (λ _. Unit {0}) (or_nil o)
or_nil-Ensures o a e = rw e tt

answer_transport-IsValid :
    (s : Server) (session : ClientSession) (o : Option Transport)
    → IsValid s
    → IsValid (answer_transport s session o)
unfolding answer_transport handle_command_unsupported_transport set_rtsp_response
answer_transport-IsValid s session none v = set_response-IsValid s session.connection _ v
answer_transport-IsValid s session (some t) v = set_response-IsValid s session.connection _ v

-- The stream states are those of a subsession of the media session.
abbrev StreamOf : Server → ℕ → StreamServerState → Type 0
StreamOf s m states = (i : ℕ) × (states.subsession ≡ some i) × (i < length (s.media m).track_ids)

last_subsession-StreamOf :
    (s : Server) (m n : ℕ)
    → length (s.media m).track_ids ≡ n
    → 0 < n
    → StreamOf s m (stream_states_of none n)
last_subsession-StreamOf s m zero e pos = absurd (omega arith)
last_subsession-StreamOf s m (suc n) e pos = (n, refl, omega arith)

states-StreamOf :
    (s : Server) (m : ℕ) (states : Option StreamServerState) (own : Option ℕ)
    → IsValid s
    → m < s.next_media
    → HasStream s states own
    → (own ≡ none) ⊎ (own ≡ some m)
    → StreamOf s m (stream_states_of states (length (s.media m).track_ids))
states-StreamOf s m none own v lt h c = last_subsession-StreamOf s m _ refl (v.has_tracks m lt)
states-StreamOf s m (some st) none v lt h c = absurd (none-ne-some st (sym h))
states-StreamOf s m (some st) (some own) v lt (st', i, lt', e, e', inside) (inl absent) =
    absurd (none-ne-some own (sym absent))
states-StreamOf s m (some st) (some own) v lt (st', i, lt', e, e', inside) (inr same) = (
  i,
  ap (λ (t : StreamServerState). t.subsession) (some_inj e) ∙ e',
  subst (λ n. i < length (s.media n).track_ids) (some_inj same) inside,
)

set_up_stream-Ensures :
    (w : World) (s : Server) (p m : ℕ) (r : Request)
    → IsValid s
    → m < s.next_media
    → StreamOf s m (stream_states_of (s.sessions p).stream_states (length (s.media m).track_ids))
    → Ensures IsValid (set_up_stream w s p (with_media s (s.sessions p) m) r)
unfolding set_up_stream answer_setup
set_up_stream-Ensures w s p m r v lt (i, e, inside) =
    Ensures-bind (λ _. Unit {0}) IsValid (or_nil states.subsession) _
      (or_nil-Ensures states.subsession i e)
      λ _ _. answer_transport-IsValid _ _ _ (
        set_session-IsValid _ p _ (with_streams-IsValid s _ v) refl
          λ _. (_, i, lt, refl, e, inside))
  where
    states : StreamServerState
    states = stream_states_of (s.sessions p).stream_states (length (s.media m).track_ids)

set_up_found-Ensures :
    (w : World) (s : Server) (p : ℕ) (r : Request) (found own : Option ℕ)
    → IsValid s
    → p < s.next_session
    → elim found as (λ _. Type 0) [ none ↦ Unit {0} | some m ↦ m < s.next_media ]
    → (s.sessions p).server_media_session ≡ own
    → Ensures IsValid (set_up_found w s p r found own)
unfolding set_up_found handle_command_not_found handle_command_bad set_rtsp_response
set_up_found-Ensures w s p r none none v lt h e = set_response-IsValid s _ _ v
set_up_found-Ensures w s p r none (some own) v lt h e = set_response-IsValid s _ _ v
set_up_found-Ensures w s p r (some m) none v lt h e =
    set_up_stream-Ensures w s p m r v h (states-StreamOf s m _ _ v h (v.has_stream p lt) (inl e))
set_up_found-Ensures w s p r (some m) (some own) v lt h e = elim (Bool-cases (m == own)) [
  | inl same ↦ rw same (
      set_up_stream-Ensures w s p m r v h (
        states-StreamOf s m _ _ v h (v.has_stream p lt)
          (inr (e ∙ ap (λ n. some n) (sym (==→eq m own same))))))
  | inr other ↦ rw other (set_response-IsValid s _ _ v)
]

pub handle_command_setup-Ensures :
    (w : World) (s : Server) (p : ℕ) (r : Request)
    → IsValid s
    → p < s.next_session
    → Ensures IsValid (handle_command_setup w s p r)
unfolding handle_command_setup
handle_command_setup-Ensures w s p r v lt =
    Ensures-bind (Found s) IsValid (lookup_server_media_session w s r.url_pre_suffix) _
      (lookup-Ensures w s r.url_pre_suffix v)
      λ found h. set_up_found-Ensures w found.0 p r found.1 _ h.0 (omega (arith, h.2)) h.3 refl
