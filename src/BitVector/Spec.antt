-- ===== src/BitVector/Spec.antt =====
-- What the cursor stands for: the bits of a byte list, and numbers read from them, high bit first.
use dorsvr.Common.{ℕ, zero, suc, ◌+◌, ◌-◌, ◌*◌, ◌/◌, ◌%◌, ◌^◌, ◌≤◌, ◌<◌, List, length, get_or}
use dorsvr.BitVector.{BitVector}

-- Bit `i` of the bytes, the high bit of a byte first.
abbrev pub bit_at : List ℕ → ℕ → ℕ
bit_at bs i = get_or bs (i / 8) 0 / 2 ^ (7 - i % 8) % 2

-- The number that the `n` bits from `pos` on spell.
abbrev pub bits_value : List ℕ → ℕ → ℕ → ℕ
bits_value bs pos zero = 0
bits_value bs pos (suc n) = bit_at bs pos * 2 ^ n + bits_value bs (pos + 1) n

-- The cursor lies within the bits, the bits within the bytes, and no offset wraps.
pub record IsValid (v : BitVector) : Type 0 where
  pub cursor_in : v.cur_bit_index ≤ v.tot_num_bits
  pub bits_in : v.base_bit_offset + v.tot_num_bits ≤ 8 * length v.base_byte
  pub no_wrap : v.base_bit_offset + v.tot_num_bits < 2 ^ 64
