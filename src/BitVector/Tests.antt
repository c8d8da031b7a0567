-- ===== src/BitVector/Tests.antt =====
-- Runs of the bit vector over two bytes, 00101101 01000000, and the theorems at them.
use dorsvr.Common.{ℕ, ◌≡◌, refl, ◌≤◌, [], ◌∷◌, some, arith}
use dorsvr.Binary.{big_endian_uint32}
use dorsvr.BitVector.{
  BitVector, write_bit, shift_bits_loop, shift_bits, overflowing_bits, get_bits_word, get_bits_cut,
  get_bits, get1_bit, skip_bits, golomb_loop, get_exp_golomb,
}
use dorsvr.BitVector.Spec.{IsValid}
use dorsvr.BitVector.Read.{get_bits_lem, get1_bit-eq-get_bits, skip_bits-eq-get_bits}
use dorsvr.BitVector.Golomb.{CodeWord, get_exp_golomb-CodeWord, get_exp_golomb_total}

abbrev sample : ℕ → BitVector
sample cursor = record {
  tot_num_bits = 16;
  cur_bit_index = cursor;
  base_bit_offset = 0;
  base_byte = 0x2d ∷ 0x40 ∷ [];
}

sample-IsValid : IsValid (sample 0)
sample-IsValid = omega arith

reads_across_bytes : get_bits (sample 4) 6 ≡ some (0b110101, sample 10)
unfolding get_bits get_bits_cut get_bits_word overflowing_bits shift_bits shift_bits_loop write_bit
    big_endian_uint32
reads_across_bytes = refl

reads_past_end : get_bits (sample 14) 5 ≡ some (0, sample 16)
unfolding get_bits get_bits_cut get_bits_word overflowing_bits shift_bits shift_bits_loop write_bit
    big_endian_uint32
reads_past_end = refl

golomb_run : get_exp_golomb (sample 0) ≡ some (4, sample 5)
unfolding get_exp_golomb golomb_loop get1_bit get_bits get_bits_cut get_bits_word overflowing_bits
    shift_bits shift_bits_loop write_bit big_endian_uint32
golomb_run = refl

get_bits_lem_example : get_bits (sample 0) 7 ≡ some (0b0010110, sample 7)
get_bits_lem_example = get_bits_lem (sample 0) 7 sample-IsValid

get1_bit-eq-get_bits_example : get1_bit (sample 0) ≡ get_bits (sample 0) 1
get1_bit-eq-get_bits_example = get1_bit-eq-get_bits (sample 0) sample-IsValid

skip_bits-eq-get_bits_example : get_bits (sample 0) 3 ≡ some (1, skip_bits (sample 0) 3)
skip_bits-eq-get_bits_example = skip_bits-eq-get_bits (sample 0) 3 sample-IsValid (omega arith)

code_word : CodeWord (0x2d ∷ 0x40 ∷ []) 0 2 1
code_word = record { prefix = (refl, (refl, tt)); marker = refl; suffix = refl }

get_exp_golomb-CodeWord_example : get_exp_golomb (sample 0) ≡ some (4, sample 5)
get_exp_golomb-CodeWord_example =
    get_exp_golomb-CodeWord (sample 0) 2 1 sample-IsValid (omega arith) (omega arith) code_word

get_exp_golomb_total_example :
    (number k : ℕ) × (get_exp_golomb (sample 0) ≡ some (number, sample k)) × (0 ≤ k) × (k ≤ 16)
get_exp_golomb_total_example = get_exp_golomb_total (sample 0) sample-IsValid
