-- ===== src/RtspServer/Invariant.antt =====
-- What holds of the server's tables between two handlers, and how the updates of a table keep it.
use dorsvr.Common.{
  ℕ, ◌+◌, ◌≤◌, ◌<◌, ◌≡◌, ◌≢◌, refl, sym, ap, subst, ◌∙◌, false, Bool-cases, inl, inr, Option, none,
  some, length, ne→==, arith, ℕ_discrete,
}
use dorsvr.Common.Text.{Text, text_eq, text_eq→eq, put, store, store_self}
use dorsvr.OnDemand.{Streams}
use dorsvr.RtspServer.{
  MediaSession, Response, ClientConnection, Server, ClientSession, StreamServerState,
}
use dorsvr.RtspServer.Media.{add_server_media_session, remove_server_media_session, set_response}
use dorsvr.RtspServer.Session.{
  set_session, with_streams, note_liveness, remove_client_session, remove_its_media_session,
  destroy, new_client_session,
}
use dorsvr.RtspServer.Connection.{set_connection, add_new_session}

-- A session that has a media session has the state of a stream of one of its subsessions, and no other has one.
abbrev pub HasStream : Server → Option StreamServerState → Option ℕ → Type 0
HasStream s stream_states none = stream_states ≡ none
HasStream s stream_states (some m) =
    (states : StreamServerState) × (i : ℕ) × (m < s.next_media)
    × (stream_states ≡ some states)
    × (states.subsession ≡ some i)
    × (i < length (s.media m).track_ids)

pub record IsValid (s : Server) : Type 0 where
  pub session_named :
      (k : Text) (p : ℕ)
      → s.client_sessions k ≡ some p
      → (p < s.next_session) × ((s.sessions p).session_id ≡ k)
  pub media_named :
      (k : Text) (m : ℕ)
      → s.server_media_sessions k ≡ some m
      → (m < s.next_media) × ((s.media m).stream_name ≡ k)
  pub has_tracks : (m : ℕ) → m < s.next_media → 0 < length (s.media m).track_ids
  pub has_stream :
      (p : ℕ)
      → p < s.next_session
      → HasStream s (s.sessions p).stream_states (s.sessions p).server_media_session

store_ne : {V : Type 0} (m : ℕ → V) (p q : ℕ) (v : V) → q ≢ p → store m p v q ≡ m q
unfolding store
store_ne m p q v h = rw (ne→== q p h)

pub none-ne-some : {V : Type 0} (v : V) → none ≢ some v
none-ne-some v e = cc

pub some_inj {ℓ} : {A : Type ℓ} {a b : A} → some a ≡ some b → a ≡ b
some_inj e = cc

-- An entry of an updated table is the new one, or an old one.
put-cases :
    {V : Type 0} (P : Text → V → Type 0) (m : Text → Option V) (k : Text) (o : Option V)
    → ((v : V) → o ≡ some v → P k v)
    → ((j : Text) (v : V) → m j ≡ some v → P j v)
    → (j : Text) (v : V) → put m k o j ≡ some v
    → P j v
unfolding put
put-cases P m k o new old j v e = elim (Bool-cases (text_eq j k)) [
  | inl same ↦ subst (λ t. P t v) (sym (text_eq→eq j k same)) (new v (rw same at e))
  | inr other ↦ old j v (rw other at e)
]

pub set_response-IsValid :
    (s : Server) (c : ℕ) (r : Response) → IsValid s → IsValid (set_response s c r)
unfolding set_response
set_response-IsValid s c r v = record {
  session_named = v.session_named;
  media_named = v.media_named;
  has_tracks = v.has_tracks;
  has_stream = v.has_stream;
}

pub set_connection-IsValid :
    (s : Server) (c : ℕ) (r : ClientConnection) → IsValid s → IsValid (set_connection s c r)
set_connection-IsValid s c r v = record {
  session_named = v.session_named;
  media_named = v.media_named;
  has_tracks = v.has_tracks;
  has_stream = v.has_stream;
}

pub with_streams-IsValid : (s : Server) (t : Streams) → IsValid s → IsValid (with_streams s t)
with_streams-IsValid s t v = record {
  session_named = v.session_named;
  media_named = v.media_named;
  has_tracks = v.has_tracks;
  has_stream = v.has_stream;
}

pub set_session-IsValid :
    (s : Server) (p : ℕ) (session : ClientSession)
    → IsValid s
    → session.session_id ≡ (s.sessions p).session_id
    → (p < s.next_session → HasStream s session.stream_states session.server_media_session)
    → IsValid (set_session s p session)
set_session-IsValid s p session v same stream = record {
  session_named = λ k q e.
      let (lt, named) = v.session_named k q e in
      (
        lt,
        elim (ℕ_discrete q p) [
          | yes at_p ↦
              rw (at_p, store_self s.sessions p session)
                (same ∙ subst (λ r. (s.sessions r).session_id ≡ k) at_p named)
          | no apart ↦ rw (store_ne s.sessions p q session apart) named
        ],
      );
  media_named = v.media_named;
  has_tracks = v.has_tracks;
  has_stream = λ q lt. elim (ℕ_discrete q p) [
    | yes at_p ↦
        rw (at_p, store_self s.sessions p session)
          (stream (subst (λ n. n < s.next_session) at_p lt))
    | no apart ↦ rw (store_ne s.sessions p q session apart) (v.has_stream q lt)
  ];
}

pub note_liveness-IsValid : (s : Server) (p : ℕ) → IsValid s → IsValid (note_liveness s p)
unfolding note_liveness
note_liveness-IsValid s p v = set_session-IsValid s p _ v refl (v.has_stream p)

pub remove_client_session-IsValid :
    (s : Server) (session_id : Text) → IsValid s → IsValid (remove_client_session s session_id)
unfolding remove_client_session
remove_client_session-IsValid s session_id v = record {
  session_named =
      put-cases (λ k p. (p < s.next_session) × ((s.sessions p).session_id ≡ k)) s.client_sessions
        session_id none (λ p e. absurd (none-ne-some p e)) v.session_named;
  media_named = v.media_named;
  has_tracks = v.has_tracks;
  has_stream = v.has_stream;
}

pub remove_server_media_session-IsValid :
    (s : Server) (session_name : Text)
    → IsValid s
    → IsValid (remove_server_media_session s session_name)
unfolding remove_server_media_session
remove_server_media_session-IsValid s session_name v = record {
  session_named = v.session_named;
  media_named =
      put-cases (λ k m. (m < s.next_media) × ((s.media m).stream_name ≡ k)) s.server_media_sessions
        session_name none (λ p e. absurd (none-ne-some p e)) v.media_named;
  has_tracks = v.has_tracks;
  has_stream = v.has_stream;
}

remove_its-IsValid :
    (s : Server) (m : Option ℕ) → IsValid s → IsValid (remove_its_media_session s m)
remove_its-IsValid s none v = v
remove_its-IsValid s (some m) v = remove_server_media_session-IsValid s (s.media m).stream_name v

pub destroy-IsValid : (s : Server) (p : ℕ) → IsValid s → IsValid (destroy s p)
unfolding destroy
destroy-IsValid s p v = remove_its-IsValid _ (s.sessions p).server_media_session (
    remove_client_session-IsValid _ (s.sessions p).session_id (
      set_session-IsValid s p (record (s.sessions p) { timer_armed = false }) v refl
        (v.has_stream p)))

-- A new object has a place of its own.
HasStream-up :
    (s s' : Server) (states : Option StreamServerState) (m : Option ℕ)
    → s.next_media ≤ s'.next_media
    → ((n : ℕ) → n < s.next_media → s'.media n ≡ s.media n)
    → HasStream s states m
    → HasStream s' states m
HasStream-up s s' states none le same h = h
HasStream-up s s' states (some m) le same (st, i, lt, e1, e2, inside) =
    (st, i, omega arith, e1, e2, rw (same m lt) inside)

pub add_server_media_session-IsValid :
    (s : Server) (sms : MediaSession)
    → 0 < length sms.track_ids
    → IsValid s
    → IsValid (add_server_media_session s sms)
unfolding add_server_media_session
add_server_media_session-IsValid s sms tracks v = record {
  session_named = v.session_named;
  media_named =
      put-cases
        (λ k m. (m < s.next_media + 1) × ((store s.media s.next_media sms m).stream_name ≡ k))
        s.server_media_sessions sms.stream_name (some s.next_media)
        (λ m e.
          let at : s.next_media ≡ m = omega (arith, some_inj e) in
          subst
            (λ n.
              (n < s.next_media + 1)
              × ((store s.media s.next_media sms n).stream_name ≡ sms.stream_name))
            at
            (
              omega arith,
              ap (λ (t : MediaSession). t.stream_name) (store_self s.media s.next_media sms),
            ))
        (λ k m e.
          let (lt, named) = v.media_named k m e in
          (omega arith, rw (store_ne s.media s.next_media m sms (λ e'. omega arith)) named));
  has_tracks = λ m lt. elim (ℕ_discrete m s.next_media) [
    | yes new ↦ rw (new, store_self s.media s.next_media sms) tracks
    | no old ↦ rw (store_ne s.media s.next_media m sms old) (v.has_tracks m (omega arith))
  ];
  has_stream = λ p lt.
      HasStream-up s (add_server_media_session s sms) (s.sessions p).stream_states
        (s.sessions p).server_media_session (omega arith)
        (λ n n_lt. store_ne s.media s.next_media n sms (λ e. omega arith)) (v.has_stream p lt);
}

pub add_new_session-IsValid :
    (s : Server) (c : ℕ) (session_id : Text) → IsValid s → IsValid (add_new_session s c session_id)
unfolding add_new_session
add_new_session-IsValid s c session_id v = note_liveness-IsValid _ s.next_session (record {
  session_named =
      put-cases
        (λ k p.
          (p < s.next_session + 1)
          × ((store s.sessions s.next_session (new_client_session c session_id) p).session_id ≡ k))
        s.client_sessions session_id (some s.next_session)
        (λ p e.
          let at : s.next_session ≡ p = omega (arith, some_inj e) in
          subst
            (λ n.
              (n < s.next_session + 1)
              × ((store s.sessions s.next_session (new_client_session c session_id) n).session_id
                  ≡ session_id))
            at
            (
              omega arith,
              ap (λ (t : ClientSession). t.session_id)
                  (store_self s.sessions s.next_session (new_client_session c session_id)),
            ))
        (λ k p e.
          let (lt, named) = v.session_named k p e in
          (
            omega arith,
            rw
                (store_ne s.sessions s.next_session p (new_client_session c session_id)
                  (λ e'. omega arith))
                named,
          ));
  media_named = v.media_named;
  has_tracks = v.has_tracks;
  has_stream = λ p lt. elim (ℕ_discrete p s.next_session) [
    | yes new ↦
        rw (new, store_self s.sessions s.next_session (new_client_session c session_id)) refl
    | no old ↦
        rw (store_ne s.sessions s.next_session p (new_client_session c session_id) old)
          (v.has_stream p (omega arith))
  ];
})
