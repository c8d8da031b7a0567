-- ===== src/Reordering/Store.antt =====
-- `storePacket` is the insertion into the list of waiting packets.
use dorsvr.Common.{
  ℕ, ◌+◌, ◌≤◌, ◌<◌, ◌≡◌, refl, sym, ap, ◌∙◌, true, false, List, [], ◌∷◌, Option, none, some, ◌>>=◌,
  length, if◌then◌else◌, lt→ltb, le→ltb, ne→==, arith, dec_lt,
}
use dorsvr.Reordering.{
  ReorderingPacketBuffer, place, duplicate, link_alone, link_behind, link_between,
  store_behind_head, store_at_tail, store_noted, store_packet,
}
use dorsvr.Reordering.Chain.{num, IsNew, insert_by_num, split_at, linked}
use dorsvr.Reordering.Release.{note_first-seen, seq_num_lt-not_old}
use dorsvr.Reordering.Insert.{
  last_from, first-le-last, split_at-last, last_from-insert_by_num, within_range, at_last,
  split_at-some, IsNew-last,
}
use dorsvr.Reordering.Waiting.{
  Waits, inserted, inserted-Waits, seq_num_lt-lt, seq_num_lt-ge, find_place-split_at,
}

module _ (fuel : ℕ) (b : ReorderingPacketBuffer) (r q : ℕ) (qs : List ℕ) (w : Waits b (q ∷ qs))
    (new : IsNew b.packets r (q ∷ qs)) (le : b.next_expected_seq_no ≤ num b.packets r)
    (lt : num b.packets r < b.next_expected_seq_no + 0x8000) (enough : length (q ∷ qs) ≤ fuel) where
  abbrev t : ℕ
  t = last_from q qs

  t_near :
      (b.next_expected_seq_no ≤ num b.packets t)
      × (num b.packets t < b.next_expected_seq_no + 0x8000)
  t_near =
      at_last
        (λ k.
          (b.next_expected_seq_no ≤ num b.packets k)
          × (num b.packets k < b.next_expected_seq_no + 0x8000))
        q qs
        (within_range b.packets b.next_expected_seq_no b.next_expected_seq_no (q ∷ qs) w.grows
          (omega arith) w.window)

  abbrev made : Option ℕ × Option ℕ → Option ℕ → Option ℕ → ReorderingPacketBuffer
  made at head tail = record b {
    packets = linked b.packets r at;
    head_packet = head;
    tail_packet = tail;
  }

  made-eq :
      {at at' : Option ℕ × Option ℕ} {head head' tail tail' : Option ℕ}
      → at ≡ at'
      → head ≡ head'
      → tail ≡ tail'
      → made at head tail ≡ made at' head' tail'
  made-eq {at} {at'} {head} {head'} {tail} {tail'} e e' e'' =
      ap (λ p. made p head tail) e ∙ ap (λ p. made at' p tail) e' ∙ ap (made at' head') e''

  -- Behind the last one.
  behind_last : num b.packets t < num b.packets r → link_behind b t r ≡ inserted b r (q ∷ qs)
  unfolding link_behind
  behind_last gt =
      let (split, last) = split_at-last b.packets r b.next_expected_seq_no q qs w.grows gt in
      rw
        (le→ltb (num b.packets q) (num b.packets r)
          (omega (arith, first-le-last b.packets b.next_expected_seq_no q qs w.grows)))
        (made-eq (sym split) w.chain.0 (ap some (sym last)))

  between :
      num b.packets r < num b.packets t
      → link_between b
          (split_at b.packets r none (q ∷ qs)).0
          (split_at b.packets r none (q ∷ qs)).1
          r
        ≡ inserted b r (q ∷ qs)
  unfolding link_between
  between gt = elim (dec_lt (num b.packets r) (num b.packets q)) [
    | yes here ↦
        rw (lt→ltb (num b.packets r) (num b.packets q) here)
          (made-eq {at = (none, some q)} {at' = (none, some q)} refl refl w.tail)
    | no on ↦
        let (z, after, split) = split_at-some b.packets r q qs in
        rw (le→ltb (num b.packets q) (num b.packets r) (omega arith), split)
          (made-eq {at = (some z, after)} {at' = (some z, after)} refl w.chain.0 (
            w.tail
            ∙ ap some
                (sym (last_from-insert_by_num b.packets r q qs new.1 (omega (arith, new.0)) gt))))
  ]

  -- In front of it.
  before_last :
      num b.packets r < num b.packets t
      → store_behind_head fuel b r ≡ some (true, inserted b r (q ∷ qs))
  unfolding store_behind_head
  before_last gt =
      ap
        (λ o. o >>= elim [
          | duplicate ↦ some (false, b)
          | place before after ↦ some (true, link_between b before after r)
        ])
        (find_place-split_at fuel b r b.next_expected_seq_no none b.head_packet (q ∷ qs) w.chain new
          (within_range b.packets b.next_expected_seq_no b.next_expected_seq_no (q ∷ qs) w.grows
            (omega arith) w.window)
          le lt enough)
      ∙ ap (λ b'. some (true, b')) (between gt)

  store_at_tail-eq : store_at_tail fuel b r b.tail_packet ≡ some (true, inserted b r (q ∷ qs))
  unfolding store_at_tail
  store_at_tail-eq =
      ap (store_at_tail fuel b r) w.tail ∙ elim (dec_lt (num b.packets t) (num b.packets r)) [
        | yes gt ↦
            rw (seq_num_lt-lt (num b.packets t) (num b.packets r) gt (omega (arith, t_near)))
              (ap (λ b'. some (true, b')) (behind_last gt))
        | no ge ↦
            rw
              (
                seq_num_lt-ge (num b.packets t) (num b.packets r) (omega arith)
                    (omega (arith, t_near)),
                ne→== (num b.packets r) (num b.packets t)
                    (omega (arith, IsNew-last b.packets r q qs new)),
              )
              (before_last (omega (arith, IsNew-last b.packets r q qs new)))
      ]

store_at_tail-inserted :
    (fuel : ℕ) (b : ReorderingPacketBuffer) (r : ℕ) (rs : List ℕ)
    → Waits b rs
    → IsNew b.packets r rs
    → b.next_expected_seq_no ≤ num b.packets r
    → num b.packets r < b.next_expected_seq_no + 0x8000
    → length rs ≤ fuel
    → store_at_tail fuel b r b.tail_packet ≡ some (true, inserted b r rs)
unfolding store_at_tail link_alone
store_at_tail-inserted fuel b r [] w new le lt enough = ap (store_at_tail fuel b r) w.tail
store_at_tail-inserted fuel b r (q ∷ qs) w new le lt enough =
    store_at_tail-eq fuel b r q qs w new le lt enough

-- Packets wait in the chain, in the order of their numbers, all within half the range from the expected
-- number on. A packet with a new number in that range is stored without a panic, for fuel of at least the
-- packets that wait: the chain holds them and the packet, each once, in the order of the numbers, and the
-- tail is the last of them.
pub store_packet-insert_by_num :
    (fuel : ℕ) (b : ReorderingPacketBuffer) (r : ℕ) (rs : List ℕ)
    → Waits b rs
    → IsNew b.packets r rs
    → b.next_expected_seq_no ≤ num b.packets r
    → num b.packets r < b.next_expected_seq_no + 0x8000
    → length rs ≤ fuel
    → (b' : ReorderingPacketBuffer) × (store_packet fuel b r ≡ some (true, b'))
      × Waits b' (insert_by_num b.packets r rs)
unfolding store_packet store_noted
store_packet-insert_by_num fuel b r rs w new le lt enough = (
  inserted b r rs,
  ap (λ c. store_noted fuel c r) (note_first-seen b r w.seen)
      ∙ ap (λ c. if c then some (false, b) else store_at_tail fuel b r b.tail_packet)
          (seq_num_lt-not_old (num b.packets r) b.next_expected_seq_no le lt)
      ∙ store_at_tail-inserted fuel b r rs w new le lt enough,
  inserted-Waits b r rs w new le lt,
)
