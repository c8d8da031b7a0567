-- ===== src/OnDemand/Ends.antt =====
-- livemedia/stream_state.go: the end of a stream's playing, `endPlaying`, before and after its start.
use dorsvr.Common.{
  ℕ, ◌≡◌, refl, ap, ◌∙◌, Bool, true, false, not, ◌&&◌, List, [], ◌∷◌, Option, none, some, ◌==◌,
  ◌>>=◌, if◌then◌else◌, eq→==, Bool-cases, ◌⊎◌, inl, inr, map,
}
use dorsvr.RtpInterface.{
  TcpStreamRecord, RtpInterface, Event, new_rtp_interface, del_stream_socket, del_loop,
  add_stream_socket, set_byte_handler, is_stream, has_stream, lookup_socket_descriptor,
}
use dorsvr.RtpInterface.Streams.{found-tcp_streams}
use dorsvr.OnDemand.{
  Opened, StreamState, Effect, of_interface, new_destinations, new_stream_state, start_playing,
  create_rtcp_instance, add_destinations, play_source, end_playing,
}

-- The end of a stream's playing, and whether the RTCP instance is there then.
abbrev pub has_instance : Option (StreamState × List Effect) → Bool
has_instance none = false
has_instance (some (st, effects)) = st.has_rtcp_instance

pub unstarted :
    (o : Opened) (tcp_socket_num : Option ℕ) (addr rtp rtcp rtp_channel_id rtcp_channel_id : ℕ)
    → has_instance (
        end_playing
          (new_stream_state o rtcp)
          (new_destinations tcp_socket_num addr rtp rtcp rtp_channel_id rtcp_channel_id))
      ≡ false
unfolding new_stream_state end_playing new_destinations del_stream_socket del_loop new_rtp_interface
unstarted o none addr rtp rtcp rtp_channel_id rtcp_channel_id = refl
unstarted o (some socket) addr rtp rtcp rtp_channel_id rtcp_channel_id =
    elim (Bool-cases (rtcp == 0)) [ inl raw ↦ rw raw refl | inr other ↦ rw other refl ]

if-both :
    {A B : Type 0} {a : B} (f : A → B) (b : Bool) (x y : A)
    → f x ≡ a
    → f y ≡ a
    → f (if b then x else y) ≡ a
if-both f true x y p q = p
if-both f false x y p q = q

if-through :
    {A B : Type 0} {x' y' : B} (f : A → B) (b : Bool) (x y : A)
    → f x ≡ x'
    → f y ≡ y'
    → f (if b then x else y) ≡ (if b then x' else y')
if-through f true x y p q = p
if-through f false x y p q = q

play_source-kept :
    {A : Type 0} (f : StreamState → A) (st : StreamState)
    → ((b : Bool) → f (record st { are_currently_playing = b }) ≡ f st)
    → f (play_source st).0 ≡ f st
unfolding play_source
play_source-kept {A = A} f st same =
    if-both first_of (not st.are_currently_playing && st.has_media_source) _ _
      (if-both first_of st.has_rtp_sink _ _ (same true)
        (if-both first_of st.has_udp_sink _ _ (same true) refl))
      refl
  where
    first_of : StreamState × List Effect → A
    first_of r = f r.0

-- The part of a stream that its end reads: the instance, the sink and the sink's interface.
abbrev Part : Type 0
Part = Bool × Bool × RtpInterface

abbrev part : StreamState → Part
part st = (st.has_rtcp_instance, st.has_rtp_sink, st.rtp_interface)

abbrev unless_gone : Bool → Option (RtpInterface × List Event) → Bool
unless_gone there none = false
unless_gone there (some r) = there

abbrev ends_over : Part → Option ℕ → ℕ → Bool
ends_over (there, sink, i) none channel = there
ends_over (there, sink, i) (some socket) channel =
    if sink then unless_gone there (del_stream_socket i socket channel) else there

end_playing-eq :
    (st : StreamState) (tcp_socket_num : Option ℕ)
    (addr rtp rtcp rtp_channel_id rtcp_channel_id : ℕ)
    → has_instance (
        end_playing st
          (new_destinations tcp_socket_num addr rtp rtcp rtp_channel_id rtcp_channel_id))
      ≡ ends_over (part st) tcp_socket_num rtp_channel_id
unfolding end_playing new_destinations
end_playing-eq st none addr rtp rtcp rtp_channel_id rtcp_channel_id = refl
end_playing-eq st (some socket) addr rtp rtcp rtp_channel_id rtcp_channel_id =
    if-through has_instance st.has_rtp_sink _ _
      (deleted (del_stream_socket st.rtp_interface socket rtp_channel_id)) refl
  where
    deleted :
        (r : Option (RtpInterface × List Event))
        → has_instance (
            r >>= λ (i, events).
            some (record st { rtp_interface = i }, map (λ e. of_interface e) events))
          ≡ unless_gone st.has_rtcp_instance r
    deleted none = refl
    deleted (some (i, events)) = refl

del_stream_socket-only :
    (i : RtpInterface) (socket channel : ℕ) (r : TcpStreamRecord)
    → i.tcp_streams ≡ r ∷ []
    → is_stream socket channel r ≡ true
    → del_stream_socket i socket channel ≡ none
unfolding del_stream_socket del_loop
del_stream_socket-only i socket channel r e found =
    ap (λ l. with_list (del_loop i socket channel l)) e
    ∙ ap (λ b. with_list (if b then none else some (i, r ∷ [], []))) found
  where
    with_list :
        Option (RtpInterface × List TcpStreamRecord × List Event)
        → Option (RtpInterface × List Event)
    with_list o = o >>= λ t. some (record t.0 { tcp_streams = t.1 }, t.2)

found_self :
    (socket channel : ℕ)
    → is_stream socket channel (record { stream_channel_id = channel; stream_socket_num = socket })
      ≡ true
unfolding is_stream
found_self socket channel = rw (eq→== socket socket refl, eq→== channel channel refl) refl

streams_of :
    (socket channel : ℕ)
    → (set_byte_handler
        (add_stream_socket new_rtp_interface (some socket) channel).0
        socket).tcp_streams
      ≡ record { stream_channel_id = channel; stream_socket_num = socket } ∷ []
unfolding set_byte_handler add_stream_socket lookup_socket_descriptor has_stream new_rtp_interface
streams_of socket channel =
    found-tcp_streams (add_stream_socket new_rtp_interface (some socket) channel).0 socket _

-- The only stream of an interface cannot be deleted.
only_stream :
    (socket channel : ℕ)
    → del_stream_socket
        (set_byte_handler (add_stream_socket new_rtp_interface (some socket) channel).0 socket)
        socket
        channel
      ≡ none
only_stream socket channel =
    del_stream_socket-only _ socket channel
      (record { stream_channel_id = channel; stream_socket_num = socket })
      (streams_of socket channel) (found_self socket channel)

told-ends :
    (o : Opened) (k : Option ℕ) (addr rtp rtcp rtp_channel_id rtcp_channel_id : ℕ)
    → ((rtcp == 0) ≡ true) ⊎ ((rtcp == 0) ≡ false)
    → ends_over
        (part
          (add_destinations
            (create_rtcp_instance (new_stream_state o rtcp))
            (new_destinations k addr rtp rtcp rtp_channel_id rtcp_channel_id)).0)
        k
        rtp_channel_id
      ≡ (elim k [ none ↦ not (rtcp == 0) | some _ ↦ false ])
unfolding new_stream_state create_rtcp_instance add_destinations new_destinations
told-ends o none addr rtp rtcp rtp_channel_id rtcp_channel_id (inl raw) = rw raw refl
told-ends o none addr rtp rtcp rtp_channel_id rtcp_channel_id (inr over_rtp) = rw over_rtp refl
told-ends o (some k) addr rtp rtcp rtp_channel_id rtcp_channel_id (inl raw) = rw raw refl
told-ends o (some k) addr rtp rtcp rtp_channel_id rtcp_channel_id (inr over_rtp) =
    rw over_rtp (ap (unless_gone true) (only_stream k rtp_channel_id))

pub started :
    (o : Opened) (tcp_socket_num : Option ℕ) (addr rtp rtcp rtp_channel_id rtcp_channel_id : ℕ)
    → has_instance (
        end_playing
          (start_playing
            (new_stream_state o rtcp)
            (some (new_destinations tcp_socket_num addr rtp rtcp rtp_channel_id rtcp_channel_id))).0
          (new_destinations tcp_socket_num addr rtp rtcp rtp_channel_id rtcp_channel_id))
      ≡ (elim tcp_socket_num [ none ↦ not (rtcp == 0) | some _ ↦ false ])
unfolding start_playing
started o tcp_socket_num addr rtp rtcp rtp_channel_id rtcp_channel_id =
    end_playing-eq _ tcp_socket_num addr rtp rtcp rtp_channel_id rtcp_channel_id
    ∙ ap (λ q. ends_over q tcp_socket_num rtp_channel_id) (play_source-kept part told λ b. refl)
    ∙ told-ends o tcp_socket_num addr rtp rtcp rtp_channel_id rtcp_channel_id
        (Bool-cases (rtcp == 0))
  where
    told : StreamState
    told =
        (add_destinations (create_rtcp_instance (new_stream_state o rtcp))
          (new_destinations tcp_socket_num addr rtp rtcp rtp_channel_id rtcp_channel_id)).0
