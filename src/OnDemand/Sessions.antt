-- ===== src/OnDemand/Sessions.antt =====
-- livemedia/on_demand_server_media_subsession.go and livemedia/stream_state.go: what becomes of the first session of a
-- subsession, which sets up, plays and deletes its stream.
use dorsvr.Common.{
  ℕ, ◌≡◌, refl, ap, ◌∙◌, Bool, true, false, not, List, ◌++◌, Option, none, some, ◌==◌, ◌>>=◌, eq→==,
  Bool-cases, inl, inr,
}
use dorsvr.Common.Text.{Text, put_self, put, store_self, store}
use dorsvr.OnDemand.Ends.{has_instance, unstarted, started}
use dorsvr.OnDemand.{
  Destinations, Opened, Start, StreamState, Streams, Subsession, Effect, new_destinations,
  new_stream_state, find_stream, get_stream_parameters, start_stream, run_start, start_playing,
  end_playing, end_destinations, reclaim, delete_stream, set_subsession,
}

-- The session is set up and asks for its deletion.
abbrev pub set_up_and_delete : Opened → Streams → ℕ → ℕ → Text → Destinations → Option Streams
set_up_and_delete o s m i session_id dests =
    let given = get_stream_parameters o s m i session_id dests in
    delete_stream given.0 m i session_id (some given.1.stream_token)

-- The task that a session has started.
abbrev pub start_of : Streams → ℕ → ℕ → Text → ℕ → Start
start_of s m i session_id token = record {
  token = token;
  dests = (s.subsessions m i).destinations session_id;
}

-- The session is set up, plays, its task runs, and it asks for its deletion.
abbrev pub play_and_delete : Opened → Streams → ℕ → ℕ → Text → Destinations → Option Streams
play_and_delete o s m i session_id dests =
    let given = get_stream_parameters o s m i session_id dests in
    let token = given.1.stream_token in
    start_stream given.0 m i session_id (some token) >>= λ u.
    delete_stream (run_start u (start_of u m i session_id token) given.0.starting) m i session_id
      (some token)

abbrev pub comes_back : Option Streams → Bool
comes_back none = false
comes_back (some s) = true

none_back : (o : Option Streams) → comes_back o ≡ false → o ≡ none
none_back none e = refl
none_back (some s) e = cc

set_subsession_self :
    (s : Streams) (m i : ℕ) (b : Subsession) → (set_subsession s m i b).subsessions m i ≡ b
set_subsession_self s m i b = rw (eq→== m m refl, eq→== i i refl) refl

reclaimed :
    (t : Streams) (token : ℕ)
    → comes_back (reclaim t (some token)) ≡ (t.streams token).has_rtcp_instance
unfolding reclaim
reclaimed t token = elim (Bool-cases (t.streams token).has_rtcp_instance) [
  | inl e ↦ rw e refl
  | inr e ↦ rw e refl
]

-- A stream is deleted where its playing ends, and its RTCP instance is there.
delete_stream-comes_back :
    (s : Streams) (m i token : ℕ) (session_id : Text) (st : StreamState) (dests : Destinations)
    → (s.subsessions m i).destinations session_id ≡ some dests
    → s.streams token ≡ st
    → comes_back (delete_stream s m i session_id (some token)) ≡ has_instance (end_playing st dests)
unfolding delete_stream end_destinations
delete_stream-comes_back s m i token session_id st dests known at =
    ap
      (λ d.
        comes_back
          (end_destinations s m i session_id (some token) d >>= λ t. reclaim t (some token)))
      known
    ∙ ended (end_playing (s.streams token) dests)
    ∙ ap (λ t. has_instance (end_playing t dests)) at
  where
    ended :
        (r : Option (StreamState × List Effect))
        → comes_back (
            (r >>= λ (st', effects). some (
              set_subsession
                (record s { streams = store s.streams token st'; effects = s.effects ++ effects })
                m
                i
                (record (s.subsessions m i) {
                  destinations = put (s.subsessions m i).destinations session_id none;
                })))
            >>= λ t. reclaim t (some token))
          ≡ has_instance r
    ended none = refl
    ended (some (st', effects)) =
        reclaimed
          (set_subsession
            (record s { streams = store s.streams token st'; effects = s.effects ++ effects }) m i
            (record (s.subsessions m i) {
              destinations = put (s.subsessions m i).destinations session_id none;
            }))
          token
        ∙ ap (λ (t : StreamState). t.has_rtcp_instance) (store_self s.streams token st')

-- The first session's stream.
module _ (o : Opened) (s : Streams) (m i : ℕ) (session_id : Text) (dests : Destinations)
    (first : (s.subsessions m i).last_stream_token ≡ none) where
  abbrev given : Streams
  given = (get_stream_parameters o s m i session_id dests).0

  given-token : (get_stream_parameters o s m i session_id dests).1.stream_token ≡ s.next_stream
  unfolding get_stream_parameters find_stream
  given-token = ap (λ l. (find_stream o dests.rtcp_port s l).1) first

  given-destinations : (given.subsessions m i).destinations session_id ≡ some dests
  unfolding get_stream_parameters
  given-destinations =
      ap (λ (b : Subsession). b.destinations session_id)
        (set_subsession_self
          (find_stream o dests.rtcp_port s (s.subsessions m i).last_stream_token).0 m i _)
      ∙ put_self _ session_id (some dests)

  given-stream : given.streams s.next_stream ≡ new_stream_state o dests.rtcp_port
  unfolding get_stream_parameters find_stream
  given-stream =
      ap (λ l. (find_stream o dests.rtcp_port s l).0.streams s.next_stream) first
      ∙ store_self s.streams s.next_stream _

  set_up-comes_back :
      comes_back (set_up_and_delete o s m i session_id dests)
      ≡ has_instance (end_playing (new_stream_state o dests.rtcp_port) dests)
  set_up-comes_back =
      ap (λ t. comes_back (delete_stream given m i session_id (some t))) given-token
      ∙ delete_stream-comes_back given m i s.next_stream session_id _ dests given-destinations
          given-stream

  play-comes_back :
      comes_back (play_and_delete o s m i session_id dests)
      ≡ has_instance
          (end_playing (start_playing (new_stream_state o dests.rtcp_port) (some dests)).0 dests)
  unfolding start_stream run_start
  play-comes_back =
      ap
        (λ t. comes_back (
          start_stream given m i session_id (some t) >>= λ u.
          delete_stream (run_start u (start_of u m i session_id t) given.starting) m i session_id
            (some t)))
        given-token
      ∙ delete_stream-comes_back _ m i s.next_stream session_id _ dests given-destinations (
          store_self given.streams s.next_stream _
          ∙ ap (λ t. (start_playing t ((given.subsessions m i).destinations session_id)).0)
              given-stream
          ∙ ap (λ d. (start_playing (new_stream_state o dests.rtcp_port) d).0) given-destinations)

-- The first session of a subsession that is torn down before it plays ends in a panic, wherever its stream is to go.
pub delete_stream-unstarted :
    (o : Opened) (s : Streams) (m i : ℕ) (session_id : Text) (tcp_socket_num : Option ℕ)
    (addr rtp rtcp rtp_channel_id rtcp_channel_id : ℕ)
    → (s.subsessions m i).last_stream_token ≡ none
    → set_up_and_delete o s m i session_id
        (new_destinations tcp_socket_num addr rtp rtcp rtp_channel_id rtcp_channel_id)
      ≡ none
unfolding new_destinations
delete_stream-unstarted o s m i session_id k addr rtp rtcp rtp_channel_id rtcp_channel_id first =
    none_back _ (
      set_up-comes_back o s m i session_id
        (new_destinations k addr rtp rtcp rtp_channel_id rtcp_channel_id) first
      ∙ unstarted o k addr rtp rtcp rtp_channel_id rtcp_channel_id)

-- The first session of a subsession that plays, and whose start has run, is torn down without a panic exactly when its
-- stream goes over UDP and has an RTCP port: the only stream over a TCP connection cannot be deleted, and a raw UDP stream
-- has no RTCP instance to say good-bye.
pub delete_stream-over_udp :
    (o : Opened) (s : Streams) (m i : ℕ) (session_id : Text) (tcp_socket_num : Option ℕ)
    (addr rtp rtcp rtp_channel_id rtcp_channel_id : ℕ)
    → (s.subsessions m i).last_stream_token ≡ none
    → comes_back (
        play_and_delete o s m i session_id
          (new_destinations tcp_socket_num addr rtp rtcp rtp_channel_id rtcp_channel_id))
      ≡ (elim tcp_socket_num [ none ↦ not (rtcp == 0) | some _ ↦ false ])
unfolding new_destinations
delete_stream-over_udp o s m i session_id k addr rtp rtcp rtp_channel_id rtcp_channel_id first =
    play-comes_back o s m i session_id
      (new_destinations k addr rtp rtcp rtp_channel_id rtcp_channel_id) first
    ∙ started o k addr rtp rtcp rtp_channel_id rtcp_channel_id
