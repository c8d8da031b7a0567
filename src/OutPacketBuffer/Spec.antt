-- ===== src/OutPacketBuffer/Spec.antt =====
-- When an output buffer is sound, and the bytes of the packet in it.
use dorsvr.Common.{ℕ, ◌+◌, ◌^◌, ◌≤◌, ◌<◌, ◌≡◌, List, length, take, drop}
use dorsvr.OutPacketBuffer.{OutPacketBuffer}

-- The buffer has its size, and the packet that is being built and the overflow data lie in it.
pub record IsValid (b : OutPacketBuffer) : Type 0 where
  pub sized : length b.buff ≡ b.limit
  pub bounded : b.limit < 2 ^ 62
  pub within : b.packet_start + b.cur_offset ≤ b.limit
  pub overflow_within : b.packet_start + b.overflow_data_offset + b.overflow_data_size ≤ b.limit

-- `n` bytes at a position of the packet.
abbrev pub bytes_at : OutPacketBuffer → ℕ → ℕ → List ℕ
bytes_at b position n = take n (drop (b.packet_start + position) b.buff)
