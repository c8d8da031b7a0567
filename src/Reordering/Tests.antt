-- ===== src/Reordering/Tests.antt =====
-- The packet 10 waits alone and is released; the packets 11 and 12 come after it.
use dorsvr.Common.{
  ◌+◌, ◌≡◌, refl, false, true, [], ◌∷◌, none, some, ◌>>=◌, arith, Timeval, if◌then◌else◌, ◌==◌,
}
use dorsvr.RtpPacket.{new_buffered_packet}
use dorsvr.Reordering.{
  ReorderingPacketBuffer, new_reordering_packet_buffer, store_packet, release_used_packet,
  get_next_completed_packet,
}
use dorsvr.Reordering.Store.{store_packet-insert_by_num}
use dorsvr.Reordering.Waiting.{Waits}
use dorsvr.Reordering.Release.{store_all, release_used_packet-loses}

abbrev one_waits : ReorderingPacketBuffer
one_waits = record new_reordering_packet_buffer {
  head_packet = some 0;
  tail_packet = some 0;
  have_seen_first_packet = true;
  next_expected_seq_no = 10;
  packets = λ k. record new_buffered_packet { rtp_seq_no = 10 + k };
  fresh = 3;
}

release_used_packet-loses_example :
    (b' : ReorderingPacketBuffer) × ((release_used_packet one_waits 0 >>= λ b1.
    store_all 5 b1 (1 ∷ 2 ∷ []))
      ≡ some (true, b'))
    × ((now : Timeval) → get_next_completed_packet b' now ≡ ((none, false), b'))
unfolding new_reordering_packet_buffer new_buffered_packet
release_used_packet-loses_example =
    release_used_packet-loses 5 one_waits 0 (1 ∷ 2 ∷ []) refl refl refl refl refl (omega arith)
      (refl, (refl, tt)) (omega arith)

-- The packets 10 and 12 wait, and the packet 11 comes.
abbrev two_wait : ReorderingPacketBuffer
two_wait = record one_waits {
  tail_packet = some 2;
  packets = λ k. record new_buffered_packet {
    rtp_seq_no = 10 + k;
    next_packet = (if k == 0 then some 2 else none);
  };
}

two_wait-Waits : Waits two_wait (0 ∷ 2 ∷ [])
unfolding new_reordering_packet_buffer new_buffered_packet
two_wait-Waits = record {
  chain = (refl, (refl, refl));
  tail = refl;
  grows = (omega arith, (omega arith, tt));
  window = (omega arith, (omega arith, tt));
  seen = refl;
}

store_packet-insert_by_num_example :
    (b' : ReorderingPacketBuffer) × (store_packet 2 two_wait 1 ≡ some (true, b'))
    × Waits b' (0 ∷ 1 ∷ 2 ∷ [])
unfolding new_reordering_packet_buffer new_buffered_packet
store_packet-insert_by_num_example =
    store_packet-insert_by_num 2 two_wait 1 (0 ∷ 2 ∷ []) two_wait-Waits
      (omega arith, (omega arith, tt)) (omega arith) (omega arith) (omega arith)
