-- ===== src/RtpInterface/Streams.antt =====
-- livemedia/rtp_interface.go: the TCP streams of an interface, and the descriptors of their
-- connections.
use mathlib.Core.Bool.{true≢false}
use mathlib.Core.List.{append-nil}
use dorsvr.Common.{
  ℕ, ◌≡◌, refl, sym, ap, subst, ◌∙◌, Bool, true, false, List, [], ◌∷◌, ◌++◌, Option, none, some,
  ◌==◌, ◌&&◌, ◌||◌, ◌>>=◌, if◌then◌else◌, Bool-cases, inl, inr, ◌⊎◌, eq→==, ==→eq,
}
use dorsvr.RtpInterface.{
  TcpStreamRecord, SocketDescriptor, RtpInterface, add_stream_socket, del_stream_socket, del_loop,
  has_stream, is_stream, lookup_socket_descriptor, found_descriptor, register_rtp_interface,
  deregister_socket, passed,
}

-- The connection has a descriptor that knows the channel.
abbrev pub Knows : ℕ → Option SocketDescriptor → Type 0
Knows channel none = ⊥
Knows channel (some d) = d.sub_channels channel ≡ true

-- Every stream of the interface has a descriptor that knows its channel.
abbrev pub IsServed : RtpInterface → Type 0
IsServed i =
    (socket_num channel : ℕ)
    → has_stream socket_num channel i.tcp_streams ≡ true
    → Knows channel (i.socket_descriptors socket_num)

register-Knows :
    (d : SocketDescriptor) (channel c : ℕ)
    → (d.sub_channels c ≡ true) ⊎ (c ≡ channel)
    → Knows c (some (register_rtp_interface d channel))
unfolding register_rtp_interface
register-Knows d channel c (inr same) = rw (eq→== c channel same) refl
register-Knows d channel c (inl known) = elim (Bool-cases (c == channel)) [
  | inl t ↦ rw t refl
  | inr f ↦ rw (f, known) refl
]

-- A channel stays known where a descriptor is looked up, and one more is registered.
registered-Knows :
    (i : RtpInterface) (socket_num channel s c : ℕ) (o : Option SocketDescriptor)
    → i.socket_descriptors socket_num ≡ o
    → Knows c (i.socket_descriptors s) ⊎ ((s ≡ socket_num) × (c ≡ channel))
    → Knows c (
        if s == socket_num
        then some (register_rtp_interface (found_descriptor i socket_num o).1 channel)
        else (found_descriptor i socket_num o).0.socket_descriptors s)
registered-Knows i socket_num channel s c o e (inr (same, is_channel)) =
    rw (eq→== s socket_num same)
      (register-Knows (found_descriptor i socket_num o).1 channel c (inr is_channel))
registered-Knows i socket_num channel s c none e (inl known) = elim (Bool-cases (s == socket_num)) [
  | inl t ↦ absurd (subst (Knows c) (ap i.socket_descriptors (==→eq s socket_num t) ∙ e) known)
  | inr f ↦ rw f known
]
registered-Knows i socket_num channel s c (some d) e (inl known) =
    elim (Bool-cases (s == socket_num)) [
      | inl t ↦ rw t (
          register-Knows d channel c
            (inl (subst (Knows c) (ap i.socket_descriptors (==→eq s socket_num t) ∙ e) known)))
      | inr f ↦ rw f known
    ]

both : {a b : Bool} → (a && b) ≡ true → (a ≡ true) × (b ≡ true)
both {a = true} e = (refl, e)
both {a = false} e = absurd (true≢false (sym e))

either : {a b : Bool} → (a || b) ≡ true → (a ≡ true) ⊎ (b ≡ true)
either {a = true} e = inl refl
either {a = false} e = inr e

pub found-tcp_streams :
    (i : RtpInterface) (socket_num : ℕ) (o : Option SocketDescriptor)
    → (found_descriptor i socket_num o).0.tcp_streams ≡ i.tcp_streams
found-tcp_streams i socket_num none = refl
found-tcp_streams i socket_num (some d) = refl

-- A stream of the longer list is one of the shorter list, or the new one.
new_or_old :
    (i : RtpInterface) (socket_num channel s c : ℕ)
    → IsServed i
    → has_stream s c
        (record { stream_channel_id = channel; stream_socket_num = socket_num } ∷ i.tcp_streams)
      ≡ true
    → Knows c (i.socket_descriptors s) ⊎ ((s ≡ socket_num) × (c ≡ channel))
unfolding has_stream is_stream
new_or_old i socket_num channel s c served h = elim (either h) [
  | inr old ↦ inl (served s c old)
  | inl new ↦ let (a, b) = both new in inr (sym (==→eq socket_num s a), sym (==→eq channel c b))
]

has_stream-first :
    (socket_num channel : ℕ) (rs : List TcpStreamRecord)
    → has_stream socket_num channel
        (record { stream_channel_id = channel; stream_socket_num = socket_num } ∷ rs)
      ≡ true
unfolding has_stream is_stream
has_stream-first socket_num channel rs =
    rw (eq→== socket_num socket_num refl, eq→== channel channel refl) refl

-- `addStreamSocket` keeps every stream served, and adds the one that it is asked for: from an
-- interface whose streams have descriptors that know their channels it leads to one of these, with
-- a stream for the connection and the channel.
pub add_stream_socket-IsServed :
    (i : RtpInterface) (socket_num channel : ℕ)
    → IsServed i
    → IsServed (add_stream_socket i (some socket_num) channel).0
      × (has_stream socket_num channel (add_stream_socket i (some socket_num) channel).0.tcp_streams
          ≡ true)
unfolding add_stream_socket lookup_socket_descriptor
add_stream_socket-IsServed i socket_num channel served =
    elim (Bool-cases (has_stream socket_num channel i.tcp_streams)) [
      | inl t ↦ rw t (served, t)
      | inr f ↦ rw f (
        (λ s c h.
            registered-Knows longer socket_num channel s c (i.socket_descriptors socket_num) refl
              (new_or_old i socket_num channel s c served (ap (has_stream s c) (sym kept) ∙ h))),
        ap (has_stream socket_num channel) kept ∙ has_stream-first socket_num channel i.tcp_streams,
      )
    ]
  where
    longer : RtpInterface
    longer = record i {
      tcp_streams =
          record { stream_channel_id = channel; stream_socket_num = socket_num } ∷ i.tcp_streams;
    }

    kept :
        (found_descriptor longer socket_num (i.socket_descriptors socket_num)).0.tcp_streams
        ≡ longer.tcp_streams
    kept = found-tcp_streams longer socket_num (i.socket_descriptors socket_num)

no_stream :
    (socket_num channel : ℕ) (r : TcpStreamRecord) (rs : List TcpStreamRecord)
    → has_stream socket_num channel (r ∷ rs) ≡ false
    → (is_stream socket_num channel r ≡ false) × (has_stream socket_num channel rs ≡ false)
unfolding has_stream
no_stream socket_num channel r rs h = neither h
  where
    neither : {a b : Bool} → (a || b) ≡ false → (a ≡ false) × (b ≡ false)
    neither {a = true} e = absurd (true≢false e)
    neither {a = false} e = (refl, e)

-- Where the stream is not in the list, the loop changes nothing.
del_loop-absent :
    (i : RtpInterface) (socket_num channel : ℕ) (rs : List TcpStreamRecord)
    → has_stream socket_num channel rs ≡ false
    → del_loop i socket_num channel rs ≡ some (i, rs, [])
unfolding del_loop
del_loop-absent i socket_num channel [] absent = refl
del_loop-absent i socket_num channel (r ∷ []) absent =
    rw (no_stream socket_num channel r [] absent).0 refl
del_loop-absent i socket_num channel (r ∷ s ∷ rs) absent =
    let (here, behind) = no_stream socket_num channel r (s ∷ rs) absent in
    rw here (ap (passed r) (del_loop-absent i socket_num channel (s ∷ rs) behind))

-- What the loop leaves of a list with a record behind the one that it finds.
del_loop-found :
    (i : RtpInterface) (socket_num channel : ℕ) (before : List TcpStreamRecord)
    (r s : TcpStreamRecord) (rs : List TcpStreamRecord)
    → has_stream socket_num channel before ≡ false
    → is_stream socket_num channel r ≡ true
    → has_stream socket_num channel rs ≡ false
    → del_loop i socket_num channel (before ++ r ∷ s ∷ rs)
      ≡ some (
        (deregister_socket i socket_num channel).0,
        before ++ r ∷ [],
        (deregister_socket i socket_num channel).1,
      )
unfolding del_loop
del_loop-found i socket_num channel [] r s rs absent here behind =
    rw
      (
        here,
        del_loop-absent (deregister_socket i socket_num channel).0 socket_num channel rs behind,
      )
      (ap (λ e. some ((deregister_socket i socket_num channel).0, r ∷ [], e))
        (append-nil (deregister_socket i socket_num channel).1))
del_loop-found i socket_num channel (b ∷ []) r s rs absent here behind =
    let (other, none_before) = no_stream socket_num channel b [] absent in
    rw other (ap (passed b) (del_loop-found i socket_num channel [] r s rs none_before here behind))
del_loop-found i socket_num channel (b ∷ c ∷ before) r s rs absent here behind =
    let (other, none_before) = no_stream socket_num channel b (c ∷ before) absent in
    rw other (
      ap (passed b)
        (del_loop-found i socket_num channel (c ∷ before) r s rs none_before here behind))

-- The stream that is deleted stays in the list, and those behind it are lost: from a list with the
-- stream once, and at least one stream behind it, `delStreamSocket` leaves the list up to the
-- stream, itself included, does what the deregistration of its socket does, and does not panic.
pub del_stream_socket-kept :
    (i : RtpInterface) (socket_num channel : ℕ) (before : List TcpStreamRecord)
    (r s : TcpStreamRecord) (rs : List TcpStreamRecord)
    → i.tcp_streams ≡ before ++ r ∷ s ∷ rs
    → has_stream socket_num channel before ≡ false
    → is_stream socket_num channel r ≡ true
    → has_stream socket_num channel rs ≡ false
    → del_stream_socket i socket_num channel
      ≡ some (
        record (deregister_socket i socket_num channel).0 { tcp_streams = before ++ r ∷ [] },
        (deregister_socket i socket_num channel).1,
      )
unfolding del_stream_socket
del_stream_socket-kept i socket_num channel before r s rs e absent here behind =
    ap (λ l. del_loop i socket_num channel l >>= λ t. some (record t.0 { tcp_streams = t.1 }, t.2))
      e
    ∙ rw (del_loop-found i socket_num channel before r s rs absent here behind) refl
