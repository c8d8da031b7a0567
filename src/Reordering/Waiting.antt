-- ===== src/Reordering/Waiting.antt =====
-- The packets that wait, and the place that a new packet is given among them.
use dorsvr.Common.{
  ℕ, zero, suc, ◌+◌, ◌≤◌, ◌<◌, ◌≡◌, refl, ap, ◌∙◌, true, false, List, [], ◌∷◌, Option, none, some,
  length, lt→ltb, le→ltb, ne→==, arith, dec_lt, All,
}
use dorsvr.SeqNum.{seq_num_lt}
use dorsvr.Reordering.{ReorderingPacketBuffer, seq_no_of, place, find_place}
use dorsvr.Reordering.Chain.{
  Packets, num, IsChain, Increasing, IsNew, insert_by_num, split_at, linked, new_head,
  linked-insert_by_num,
}
use dorsvr.Reordering.Release.{seq_num_lt-not_old}
use dorsvr.Reordering.Insert.{
  last_of, Increasing-insert_by_num, window-insert_by_num, linked-num, Increasing-num, window-num,
}

-- The packets that wait are those of `rs`, their numbers grow from the expected one on, within half the
-- range, and the tail is the last of them.
pub record Waits (b : ReorderingPacketBuffer) (rs : List ℕ) : Type 0 where
  pub chain : IsChain b.packets b.head_packet rs
  pub tail : b.tail_packet ≡ last_of rs
  pub grows : Increasing b.packets b.next_expected_seq_no rs
  pub window : All (λ q. num b.packets q < b.next_expected_seq_no + 0x8000) rs
  pub seen : b.have_seen_first_packet ≡ true

-- The buffer with the packet `r` in its place.
abbrev pub inserted : ReorderingPacketBuffer → ℕ → List ℕ → ReorderingPacketBuffer
inserted b r rs = record b {
  packets = linked b.packets r (split_at b.packets r none rs);
  head_packet = new_head b.packets r rs;
  tail_packet = last_of (insert_by_num b.packets r rs);
}

pub inserted-Waits :
    (b : ReorderingPacketBuffer) (r : ℕ) (rs : List ℕ)
    → Waits b rs
    → IsNew b.packets r rs
    → b.next_expected_seq_no ≤ num b.packets r
    → num b.packets r < b.next_expected_seq_no + 0x8000
    → Waits (inserted b r rs) (insert_by_num b.packets r rs)
inserted-Waits b r rs w new le lt = record {
  chain = linked-insert_by_num f r n b.head_packet rs w.chain w.grows new;
  tail = refl;
  grows =
      Increasing-num f g n (insert_by_num f r rs) same
        (Increasing-insert_by_num f r n rs w.grows new le);
  window =
      window-num f g (n + 0x8000) (insert_by_num f r rs) same
        (window-insert_by_num f r (n + 0x8000) rs w.window lt);
  seen = w.seen;
}
  where
    f : Packets
    f = b.packets

    g : Packets
    g = linked b.packets r (split_at b.packets r none rs)

    n : ℕ
    n = b.next_expected_seq_no

    same : (k : ℕ) → num g k ≡ num f k
    same = linked-num b.packets r (split_at b.packets r none rs)

pub seq_num_lt-lt : (s t : ℕ) → s < t → t < s + 0x8000 → seq_num_lt s t ≡ true
unfolding seq_num_lt
seq_num_lt-lt s t lt near = ground arith

pub seq_num_lt-ge : (s t : ℕ) → t ≤ s → s < t + 0x8000 → seq_num_lt s t ≡ false
seq_num_lt-ge = seq_num_lt-not_old

-- The loop finds the place.
pub find_place-split_at :
    (fuel : ℕ) (b : ReorderingPacketBuffer) (r n : ℕ) (before o : Option ℕ) (rs : List ℕ)
    → IsChain b.packets o rs
    → IsNew b.packets r rs
    → All (λ q. (n ≤ num b.packets q) × (num b.packets q < n + 0x8000)) rs
    → n ≤ num b.packets r
    → num b.packets r < n + 0x8000
    → length rs ≤ fuel
    → find_place fuel b (seq_no_of b r) before o
      ≡ some (place (split_at b.packets r before rs).0 (split_at b.packets r before rs).1)
unfolding find_place
find_place-split_at zero b r n before o [] c new w le lt enough =
    ap (find_place zero b (seq_no_of b r) before) c
find_place-split_at (suc fuel) b r n before o [] c new w le lt enough =
    ap (find_place (suc fuel) b (seq_no_of b r) before) c
find_place-split_at zero b r n before o (q ∷ qs) c new w le lt enough = absurd (omega arith)
find_place-split_at (suc fuel) b r n before o (q ∷ qs) (e, c) (ne, new) ((ge, near), w) le lt
      enough =
    ap (find_place (suc fuel) b (seq_no_of b r) before) e
    ∙ elim (dec_lt (num b.packets r) (num b.packets q)) [
      | yes here ↦
          rw
            (
              seq_num_lt-lt (num b.packets r) (num b.packets q) here (omega arith),
              lt→ltb (num b.packets r) (num b.packets q) here,
            )
            refl
      | no on ↦
          rw
            (
              seq_num_lt-ge (num b.packets r) (num b.packets q) (omega arith) (omega arith),
              ne→== (num b.packets r) (num b.packets q) (omega arith),
              le→ltb (num b.packets q) (num b.packets r) (omega arith),
            )
            (find_place-split_at fuel b r n (some q) (b.packets q).next_packet qs c new w le lt
              (omega arith))
    ]
