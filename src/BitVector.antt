-- ===== src/BitVector.antt =====
-- livemedia/bit_vector.go: a cursor over the bits of a byte slice. `uint` is a 64-bit word, and its
-- sums and differences wrap. A method returns its result beside the new vector; `none` is a panic.
pub mod Spec
pub mod ShiftRound
pub mod Shift
pub mod Read
pub mod Golomb
mod Tests
use dorsvr.Common.{
  ℕ, zero, suc, ◌+◌, ◌-◌, ◌*◌, ◌/◌, ◌%◌, ◌^◌, Bool, true, false, not, ◌&&◌, List, [], ◌∷◌, Option,
  none, some, length, replicate, get_elem?, set, ltb, leb, ◌==◌, guard, ◌>>=◌, if◌then◌else◌,
  bit_and, bit_or, ◌+u◌, ◌-u◌, ◌*u◌, ◌<<<◌, ◌>>>◌,
}
use dorsvr.Binary.{big_endian_uint32}

abbrev pub max_length : ℕ
max_length = 32

abbrev pub single_bit_mask : List ℕ
single_bit_mask = 0x80 ∷ 0x40 ∷ 0x20 ∷ 0x10 ∷ 0x08 ∷ 0x04 ∷ 0x02 ∷ 0x01 ∷ []

pub record BitVector : Type 0 where
  pub tot_num_bits : ℕ
  pub cur_bit_index : ℕ
  pub base_bit_offset : ℕ
  pub base_byte : List ℕ

unfoldable pub new_bit_vector : List ℕ → ℕ → ℕ → BitVector
new_bit_vector base_byte base_bit_offset tot_num_bits = record {
  tot_num_bits = tot_num_bits;
  cur_bit_index = 0;
  base_bit_offset = base_bit_offset;
  base_byte = base_byte;
}

-- The assignment in the loop body: set the bit of the mask, or clear it (`^mask` on a byte).
unfoldable pub write_bit : Bool → ℕ → ℕ → ℕ
write_bit true to_byte to_mask = bit_or to_byte to_mask
write_bit false to_byte to_mask = bit_and to_byte (0xff - to_mask)

-- The loop of `shiftBits`: the two byte pointers are indices into the slices.
unfoldable pub shift_bits_loop : ℕ → List ℕ → ℕ → ℕ → List ℕ → ℕ → ℕ → Option (List ℕ)
unfolding write_bit
shift_bits_loop zero from from_ptr from_rem to to_ptr to_rem = some to
shift_bits_loop (suc num_bits) from from_ptr from_rem to to_ptr to_rem = do
  from_mask ← get_elem? single_bit_mask from_rem
  from_byte ← get_elem? from from_ptr
  to_mask ← get_elem? single_bit_mask to_rem
  to_byte ← get_elem? to to_ptr
  let from_bit = bit_and from_byte from_mask
  shift_bits_loop num_bits from (if from_rem + 1 == 8 then from_ptr + 1 else from_ptr)
      (if from_rem + 1 == 8 then 0 else from_rem + 1)
      (set to to_ptr (write_bit (not (from_bit == 0)) to_byte to_mask))
      (if to_rem + 1 == 8 then to_ptr + 1 else to_ptr) (if to_rem + 1 == 8 then 0 else to_rem + 1)

unfoldable pub shift_bits : List ℕ → List ℕ → ℕ → ℕ → ℕ → Option (List ℕ)
unfolding shift_bits_loop
shift_bits to_base from_base to_offset from_offset num_bits =
    if num_bits == 0
    then some to_base
    else guard (leb (from_offset / 8) (length from_base) && leb (to_offset / 8) (length to_base)) (
        shift_bits_loop num_bits from_base (from_offset / 8) (from_offset % 8) to_base
          (to_offset / 8) (to_offset % 8))

unfoldable pub overflowing_bits : BitVector → ℕ → ℕ
overflowing_bits v num_bits =
    let left = v.tot_num_bits -u v.cur_bit_index in if ltb left num_bits then num_bits - left else 0

-- The rest of `getBits`, once the cut to 32 bits and the overflowing bits are known.
unfoldable pub get_bits_word : BitVector → ℕ → ℕ → Option (ℕ × BitVector)
get_bits_word v num_bits overflowing = do
  tmp_buf ←
      shift_bits (replicate 4 0) v.base_byte 0 (v.base_bit_offset +u v.cur_bit_index)
        (num_bits - overflowing)
  let v' = record v { cur_bit_index = v.cur_bit_index +u (num_bits - overflowing) }
  result ← big_endian_uint32 tmp_buf
  some (bit_and (result >>> (max_length - num_bits)) (0xffff_ffff <<< overflowing % 2 ^ 64), v')

unfoldable pub get_bits_cut : BitVector → ℕ → Option (ℕ × BitVector)
get_bits_cut v num_bits = get_bits_word v num_bits (overflowing_bits v num_bits)

unfoldable pub get_bits : BitVector → ℕ → Option (ℕ × BitVector)
get_bits v num_bits =
    if num_bits == 0
    then some (0, v)
    else get_bits_cut v (if ltb max_length num_bits then max_length else num_bits)

unfoldable pub get1_bit : BitVector → Option (ℕ × BitVector)
get1_bit v = if leb v.tot_num_bits v.cur_bit_index then some (0, v) else do
  let offset = v.base_bit_offset +u v.cur_bit_index
  byte ← get_elem? v.base_byte (offset / 8)
  some (bit_and (byte >>> (7 - offset % 8)) 0x01, record v { cur_bit_index = v.cur_bit_index +u 1 })

unfoldable pub get1_bit_boolean : BitVector → Option (Bool × BitVector)
get1_bit_boolean v = get1_bit v >>= λ r. some (not (r.0 == 0), r.1)

unfoldable pub skip_bits : BitVector → ℕ → BitVector
skip_bits v num_bits =
    if ltb (v.tot_num_bits -u v.cur_bit_index) num_bits
    then record v { cur_bit_index = v.tot_num_bits }
    else record v { cur_bit_index = v.cur_bit_index +u num_bits }

-- The loop of `getExpGolomb`, with the leading zeros and `codeStart` so far. It goes on only while
-- bits are left, so the bits left at the start, and one, are fuel enough.
unfoldable pub golomb_loop : ℕ → BitVector → ℕ → ℕ → Option (ℕ × ℕ × BitVector)
golomb_loop zero v leading code_start = none
golomb_loop (suc fuel) v leading code_start = do
  (bit, v') ← get1_bit v
  let rest = golomb_loop fuel v' (leading +u 1) (code_start *u 2)
  if bit == 0 && ltb v'.cur_bit_index v'.tot_num_bits then rest else some (leading, code_start, v')

unfoldable pub get_exp_golomb : BitVector → Option (ℕ × BitVector)
get_exp_golomb v = do
  (leading, code_start, v') ← golomb_loop (v.tot_num_bits - v.cur_bit_index + 1) v 0 1
  (suffix, v'') ← get_bits v' leading
  some (code_start -u 1 +u suffix, v'')
