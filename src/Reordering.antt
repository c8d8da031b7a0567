-- ===== src/Reordering.antt =====
-- livemedia/multi_framed_rtp_source_linux_amd64.go, `ReorderingPacketBuffer`: packets wait in a chain, in
-- the order of their sequence numbers. The packets live in a store and are known by their place in it, so
-- that two names of a packet see the same changes.
pub mod Chain
pub mod Release
pub mod Insert
pub mod Waiting
pub mod Store
mod Tests
use dorsvr.Common.{
  ℕ, zero, suc, ◌+◌, ◌*◌, Bool, true, false, not, Option, none, some, ◌>>=◌, ltb, ◌==◌,
  if◌then◌else◌, ◌+u◌, Timeval,
}
use dorsvr.SeqNum.{seq_num_lt}
use dorsvr.RtpPacket.{BufferedPacket, new_buffered_packet}

pub record ReorderingPacketBuffer : Type 0 where
  pub head_packet : Option ℕ
  pub tail_packet : Option ℕ
  pub save_packet : Option ℕ
  pub threshold_time : ℕ
  pub saved_packet_free : Bool
  pub have_seen_first_packet : Bool
  pub next_expected_seq_no : ℕ
  -- The store, and the place of the next packet that is created.
  pub packets : ℕ → BufferedPacket
  pub fresh : ℕ

abbrev pub write : (ℕ → BufferedPacket) → ℕ → BufferedPacket → ℕ → BufferedPacket
write packets r p k = if k == r then p else packets k

-- `setNextPacket`
abbrev pub set_next : (ℕ → BufferedPacket) → ℕ → Option ℕ → ℕ → BufferedPacket
set_next packets r next = write packets r (record (packets r) { next_packet = next })

unfoldable pub new_reordering_packet_buffer : ReorderingPacketBuffer
new_reordering_packet_buffer = record {
  head_packet = none;
  tail_packet = none;
  save_packet = none;
  threshold_time = 100000;
  saved_packet_free = false;
  have_seen_first_packet = false;
  next_expected_seq_no = 0;
  packets = λ _. new_buffered_packet;
  fresh = 0;
}

-- `createNewPacket` of the factory.
unfoldable pub create_new_packet : ReorderingPacketBuffer → ℕ × ReorderingPacketBuffer
create_new_packet b = (
  b.fresh,
  record b { packets = write b.packets b.fresh new_buffered_packet; fresh = b.fresh + 1 },
)

unfoldable pub ensure_save_packet : ReorderingPacketBuffer → ReorderingPacketBuffer
ensure_save_packet b = elim b.save_packet [
  | none ↦
      let (r, b') = create_new_packet b in
      record b' { save_packet = some r; saved_packet_free = true }
  | some _ ↦ b
]

unfoldable pub get_free_packet : ReorderingPacketBuffer → Option ℕ × ReorderingPacketBuffer
get_free_packet b =
    let b' = ensure_save_packet b in
    if b'.saved_packet_free
    then (b'.save_packet, record b' { saved_packet_free = false })
    else (let (r, b'') = create_new_packet b' in (some r, b''))

abbrev pub seq_no_of : ReorderingPacketBuffer → ℕ → ℕ
seq_no_of b r = (b.packets r).rtp_seq_no

-- The time since the packet came is beyond the threshold, in microseconds.
unfoldable pub threshold_exceeded : ReorderingPacketBuffer → ℕ → Timeval → Bool
threshold_exceeded b r now =
    let received = (b.packets r).time_received in
    if b.threshold_time == 0
    then true
    else ltb (received.sec * 1000000 + received.usec + b.threshold_time)
        (now.sec * 1000000 + now.usec)

-- The packet, and whether a loss precedes it, as the code reports it; `head` is the head of the chain.
unfoldable pub completed_at_head :
    ReorderingPacketBuffer
    → Timeval
    → (head : Option ℕ) → (Option ℕ × Bool) × ReorderingPacketBuffer
completed_at_head b now none = ((none, false), b)
completed_at_head b now (some r) =
    if seq_no_of b r == b.next_expected_seq_no
    then ((some r, (b.packets r).first_packet_flag), b)
    else if threshold_exceeded b r now
    then ((some r, true), record b { next_expected_seq_no = seq_no_of b r })
    else ((none, false), b)

unfoldable pub get_next_completed_packet :
    ReorderingPacketBuffer → Timeval → (Option ℕ × Bool) × ReorderingPacketBuffer
get_next_completed_packet b now = completed_at_head b now b.head_packet

-- `next` is the packet behind the head, and becomes the head.
unfoldable pub move_head : ReorderingPacketBuffer → ℕ → (next : Option ℕ) → ReorderingPacketBuffer
move_head b r next = record b {
  next_expected_seq_no = b.next_expected_seq_no +u 1;
  head_packet = next;
  tail_packet = elim next [ none ↦ b.tail_packet | some _ ↦ none ];
  packets = set_next b.packets r none;
}

-- `none` is the panic of a nil head.
unfoldable pub release_used_packet : ReorderingPacketBuffer → ℕ → Option ReorderingPacketBuffer
release_used_packet b r = b.head_packet >>= λ h. some (move_head b r (b.packets h).next_packet)

unfoldable pub reset_have_seen_first_packet : ReorderingPacketBuffer → ReorderingPacketBuffer
reset_have_seen_first_packet b = record b { have_seen_first_packet = false }

-- The parts of `storePacket`.
unfoldable pub note_first : ReorderingPacketBuffer → ℕ → ReorderingPacketBuffer
note_first b r = if b.have_seen_first_packet then b else record b {
  next_expected_seq_no = seq_no_of b r;
  packets = write b.packets r (record (b.packets r) { first_packet_flag = true });
  have_seen_first_packet = true;
}

unfoldable pub link_alone : ReorderingPacketBuffer → ℕ → ReorderingPacketBuffer
link_alone b r = record b {
  packets = set_next b.packets r none;
  head_packet = some r;
  tail_packet = some r;
}

unfoldable pub link_behind : ReorderingPacketBuffer → ℕ → ℕ → ReorderingPacketBuffer
link_behind b t r = record b {
  packets = set_next (set_next b.packets r none) t (some r);
  tail_packet = some r;
}

unfoldable pub link_between :
    ReorderingPacketBuffer → Option ℕ → Option ℕ → ℕ → ReorderingPacketBuffer
link_between b before after r = elim before [
  | none ↦ record b { packets = set_next b.packets r after; head_packet = some r }
  | some q ↦ record b { packets = set_next (set_next b.packets r after) q (some r) }
]

pub data Place : Type 0 where
  duplicate : Place
  place : Option ℕ → Option ℕ → Place

-- The loop that looks for the packets to link between; `none` is out of fuel.
unfoldable pub find_place : ℕ → ReorderingPacketBuffer → ℕ → Option ℕ → Option ℕ → Option Place
find_place fuel b seq before none = some (place before none)
find_place zero b seq before (some q) = none
find_place (suc fuel) b seq before (some q) =
    let behind = find_place fuel b seq (some q) (b.packets q).next_packet in
    if seq_num_lt seq (seq_no_of b q)
    then some (place before (some q))
    else if seq == seq_no_of b q
    then some duplicate
    else behind

unfoldable pub store_behind_head :
    ℕ → ReorderingPacketBuffer → ℕ → Option (Bool × ReorderingPacketBuffer)
store_behind_head fuel b r = find_place fuel b (seq_no_of b r) none b.head_packet >>= elim [
  | duplicate ↦ some (false, b)
  | place before after ↦ some (true, link_between b before after r)
]

-- The chain is taken to be empty when there is no tail.
unfoldable pub store_at_tail :
    ℕ → ReorderingPacketBuffer → ℕ → Option ℕ → Option (Bool × ReorderingPacketBuffer)
store_at_tail fuel b r none = some (true, link_alone b r)
store_at_tail fuel b r (some t) =
    if seq_num_lt (seq_no_of b t) (seq_no_of b r)
    then some (true, link_behind b t r)
    else if seq_no_of b r == seq_no_of b t
    then some (false, b)
    else store_behind_head fuel b r

unfoldable pub store_noted : ℕ → ReorderingPacketBuffer → ℕ → Option (Bool × ReorderingPacketBuffer)
store_noted fuel b r =
    if seq_num_lt (seq_no_of b r) b.next_expected_seq_no
    then some (false, b)
    else store_at_tail fuel b r b.tail_packet

-- The fuel bounds the packets that wait.
unfoldable pub store_packet :
    ℕ → ReorderingPacketBuffer → ℕ → Option (Bool × ReorderingPacketBuffer)
store_packet fuel b r = store_noted fuel (note_first b r) r
