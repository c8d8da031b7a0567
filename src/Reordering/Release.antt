-- ===== src/Reordering/Release.antt =====
-- What becomes of packets that come after the only waiting packet was released.
use dorsvr.Common.{
  ℕ, Bool, ◌&&◌, suc, ◌+◌, ◌^◌, ◌≤◌, ◌<◌, ◌≡◌, refl, sym, ap, ◌∙◌, length, true, false, List, [],
  ◌∷◌, Option, none, some, ◌>>=◌, ◌==◌, if◌then◌else◌, ==→eq, arith, Timeval, Bool-cases, inl, inr,
}
use dorsvr.SeqNum.{seq_num_lt}
use dorsvr.RtpPacket.{BufferedPacket}
use dorsvr.Reordering.{
  ReorderingPacketBuffer, write, set_next, seq_no_of, note_first, link_behind, store_at_tail,
  store_noted, store_packet, move_head, release_used_packet, completed_at_head,
  get_next_completed_packet,
}

-- The packets are stored one after the other: whether every call said that the packet is stored, and the buffer.
unfoldable pub store_all :
    ℕ → ReorderingPacketBuffer → List ℕ → Option (Bool × ReorderingPacketBuffer)
store_all fuel b [] = some (true, b)
store_all fuel b (r ∷ rs) = do
  (stored, b') ← store_packet fuel b r
  (others, b'') ← store_all fuel b' rs
  some (stored && others, b'')

-- The packets have the sequence numbers from `m` on.
abbrev pub InOrder : (ℕ → BufferedPacket) → ℕ → List ℕ → Type 0
InOrder packets m [] = Unit {0}
InOrder packets m (r ∷ rs) = ((packets r).rtp_seq_no ≡ m) × InOrder packets (suc m) rs

-- Two stores with the same sequence numbers.
abbrev SameNumbers : (f g : ℕ → BufferedPacket) → Type 0
SameNumbers f g = (k : ℕ) → (f k).rtp_seq_no ≡ (g k).rtp_seq_no

pub set_next-SameNumbers :
    (f : ℕ → BufferedPacket) (r : ℕ) (o : Option ℕ) → SameNumbers (set_next f r o) f
set_next-SameNumbers f r o k = elim (Bool-cases (k == r)) [
  | inl e ↦ rw e (ap (λ i. (f i).rtp_seq_no) (sym (==→eq k r e)))
  | inr e ↦ rw e refl
]

InOrder-SameNumbers :
    (f g : ℕ → BufferedPacket) (m : ℕ) (rs : List ℕ)
    → SameNumbers f g
    → InOrder g m rs
    → InOrder f m rs
InOrder-SameNumbers f g m [] same o = tt
InOrder-SameNumbers f g m (r ∷ rs) same (e, o) =
    (same r ∙ e, InOrder-SameNumbers f g (suc m) rs same o)

-- Nothing is at the head, and the tail is a packet of the number before `m`.
record IsLost (b : ReorderingPacketBuffer) (t m : ℕ) : Type 0 where
  no_head : b.head_packet ≡ none
  tail : b.tail_packet ≡ some t
  number : suc (seq_no_of b t) ≡ m
  seen : b.have_seen_first_packet ≡ true
  expected : b.next_expected_seq_no ≤ m
  recent : m < b.next_expected_seq_no + 0x8000

pub seq_num_lt-not_old : (m x : ℕ) → x ≤ m → m < x + 0x8000 → seq_num_lt m x ≡ false
unfolding seq_num_lt
seq_num_lt-not_old m x le lt = ground arith

seq_num_lt-next : (n m : ℕ) → m ≡ suc n → seq_num_lt n m ≡ true
unfolding seq_num_lt
seq_num_lt-next n m e = ground arith

pub note_first-seen :
    (b : ReorderingPacketBuffer) (r : ℕ) → b.have_seen_first_packet ≡ true → note_first b r ≡ b
unfolding note_first
note_first-seen b r seen =
    ap
      (λ c. if c then b else record b {
        next_expected_seq_no = seq_no_of b r;
        packets = write b.packets r (record (b.packets r) { first_packet_flag = true });
        have_seen_first_packet = true;
      })
      seen

store_packet-IsLost :
    (fuel : ℕ) (b : ReorderingPacketBuffer) (t m r : ℕ)
    → IsLost b t m
    → seq_no_of b r ≡ m
    → store_packet fuel b r ≡ some (true, link_behind b t r)
unfolding store_packet store_noted store_at_tail
store_packet-IsLost fuel b t m r l e =
    ap (λ c. store_noted fuel c r) (note_first-seen b r l.seen)
    ∙ ap (λ c. if c then some (false, b) else store_at_tail fuel b r b.tail_packet) not_old
    ∙ ap (store_at_tail fuel b r) l.tail
    ∙ rw newer refl
  where
    not_old : seq_num_lt (seq_no_of b r) b.next_expected_seq_no ≡ false
    not_old =
        seq_num_lt-not_old (seq_no_of b r) b.next_expected_seq_no (omega (arith, e, l.expected))
          (omega (arith, e, l.recent))

    newer : seq_num_lt (seq_no_of b t) (seq_no_of b r) ≡ true
    newer = seq_num_lt-next (seq_no_of b t) (seq_no_of b r) (e ∙ sym l.number)

link_behind-SameNumbers :
    (b : ReorderingPacketBuffer) (t r : ℕ) → SameNumbers (link_behind b t r).packets b.packets
unfolding link_behind
link_behind-SameNumbers b t r k =
    set_next-SameNumbers (set_next b.packets r none) t (some r) k
    ∙ set_next-SameNumbers b.packets r none k

link_behind-IsLost :
    (b : ReorderingPacketBuffer) (t m r : ℕ)
    → IsLost b t m
    → seq_no_of b r ≡ m
    → suc m < b.next_expected_seq_no + 0x8000
    → IsLost (link_behind b t r) r (suc m)
unfolding link_behind
link_behind-IsLost b t m r l e near = record {
  no_head = l.no_head;
  tail = refl;
  number = ap suc (link_behind-SameNumbers b t r r ∙ e);
  seen = l.seen;
  expected = omega (arith, l.expected);
  recent = near;
}

store_all-IsLost :
    (fuel : ℕ) (b : ReorderingPacketBuffer) (t m : ℕ) (rs : List ℕ)
    → IsLost b t m
    → InOrder b.packets m rs
    → m + length rs < b.next_expected_seq_no + 0x8000
    → (b' : ReorderingPacketBuffer) × (store_all fuel b rs ≡ some (true, b'))
      × (b'.head_packet ≡ none)
unfolding store_all link_behind
store_all-IsLost fuel b t m [] l o near = (b, refl, l.no_head)
store_all-IsLost fuel b t m (r ∷ rs) l (e, o) near =
    let (b', stored, lost) =
      store_all-IsLost fuel (link_behind b t r) r (suc m) rs
        (link_behind-IsLost b t m r l e (omega arith))
        (InOrder-SameNumbers (link_behind b t r).packets b.packets (suc m) rs
          (link_behind-SameNumbers b t r) o)
        (omega arith) in
    (
      b',
      ap
            (λ s. s >>= λ (stored, b'').
              store_all fuel b'' rs >>= λ (others, c). some (stored && others, c))
            (store_packet-IsLost fuel b t m r l e)
          ∙ ap (λ s. s >>= λ (others, c). some (others, c)) stored,
      lost,
    )

release_used_packet-eq :
    (b : ReorderingPacketBuffer) (h : ℕ)
    → b.head_packet ≡ some h
    → (b.packets h).next_packet ≡ none
    → release_used_packet b h ≡ some (move_head b h none)
unfolding release_used_packet
release_used_packet-eq b h head next =
    ap (λ o. o >>= λ k. some (move_head b h (b.packets k).next_packet)) head
    ∙ ap (λ o. some (move_head b h o)) next

nothing_next :
    (b : ReorderingPacketBuffer) (now : Timeval)
    → b.head_packet ≡ none
    → get_next_completed_packet b now ≡ ((none, false), b)
unfolding get_next_completed_packet completed_at_head
nothing_next b now e = ap (completed_at_head b now) e

-- A single packet waits in the chain and is released. Packets that then come in order, with the sequence
-- numbers that follow it and fewer than 2^15, are all stored, which `storePacket` says of each, without a
-- panic, but none of them is ever found: the head of the chain stays nil, at any time that is asked for.
pub release_used_packet-loses :
    (fuel : ℕ) (b : ReorderingPacketBuffer) (h : ℕ) (rs : List ℕ)
    → b.head_packet ≡ some h
    → b.tail_packet ≡ some h
    → (b.packets h).next_packet ≡ none
    → b.have_seen_first_packet ≡ true
    → b.next_expected_seq_no ≡ seq_no_of b h
    → seq_no_of b h < 2 ^ 16
    → InOrder b.packets (suc (seq_no_of b h)) rs
    → length rs < 0x8000
    → (b' : ReorderingPacketBuffer) × ((release_used_packet b h >>= λ b1. store_all fuel b1 rs)
        ≡ some (true, b'))
      × ((now : Timeval) → get_next_completed_packet b' now ≡ ((none, false), b'))
unfolding move_head
release_used_packet-loses fuel b h rs head tail next seen expected fits o few =
    let (b', stored, lost) =
      store_all-IsLost fuel (move_head b h none) h (suc (seq_no_of b h)) rs
        (record {
          no_head = refl;
          tail = tail;
          number = ap suc (set_next-SameNumbers b.packets h none h);
          seen = seen;
          expected = omega (arith, expected);
          recent = omega (arith, expected);
        })
        (InOrder-SameNumbers (set_next b.packets h none) b.packets (suc (seq_no_of b h)) rs
          (set_next-SameNumbers b.packets h none) o)
        (omega (arith, expected)) in
    (
      b',
      ap (λ s. s >>= λ b1. store_all fuel b1 rs) (release_used_packet-eq b h head next) ∙ stored,
      λ now. nothing_next b' now lost,
    )
