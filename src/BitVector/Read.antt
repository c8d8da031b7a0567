-- ===== src/BitVector/Read.antt =====
-- What `getBits`, `get1Bit` and `skipBits` return, on a valid vector.
use native.Mathlib.Nat.{
  mul-div_cancel, one-le-pow, pow-suc, mul_assoc, mod-eq_of_lt, pow-le-pow_right,
}
use dorsvr.Common.{
  ℕ, zero, suc, ◌+◌, ◌-◌, ◌*◌, ◌/◌, ◌%◌, ◌^◌, ◌≤◌, ◌<◌, min, ◌≡◌, sym, ap, ap₂, ◌∙◌, List, [], ◌∷◌,
  Option, some, length, replicate, get_or, get_elem?-eq-get_or, arith, ltb, if◌then◌else◌, bit_and,
  ◌<<<◌, ◌>>>◌, suc-ne-zero, le→leb, lt→leb, dec_lt, ◌+u◌,
}
use dorsvr.Common.Bits.{bit_and_field, bit_and_low, two_pow_add}
use dorsvr.Binary.{big_endian_uint32}
use dorsvr.BitVector.{
  BitVector, shift_bits, get_bits_word, get_bits_cut, overflowing_bits, get_bits, get1_bit,
  skip_bits,
}
use dorsvr.BitVector.Spec.{bit_at, bits_value, IsValid}
use dorsvr.BitVector.Shift.{Shifted, shift_bits_lem}
use dorsvr.BitVector.ShiftRound.{be}

uint32-be : (xs : List ℕ) → length xs ≡ 4 → big_endian_uint32 xs ≡ some (be 0 xs)
unfolding big_endian_uint32
uint32-be (a ∷ b ∷ c ∷ d ∷ []) h = ap some (omega arith)
uint32-be [] h = absurd (omega arith)
uint32-be (a ∷ []) h = absurd (omega arith)
uint32-be (a ∷ b ∷ []) h = absurd (omega arith)
uint32-be (a ∷ b ∷ c ∷ []) h = absurd (omega arith)
uint32-be (a ∷ b ∷ c ∷ d ∷ e ∷ r) h = absurd (omega arith)

bit_mul-le : (b p : ℕ) → b < 2 → b * p ≤ p
bit_mul-le zero p h = omega arith
bit_mul-le (suc zero) p h = omega arith
bit_mul-le (suc (suc b)) p h = absurd (omega arith)

pub bits_value-lt : (bs : List ℕ) (pos n : ℕ) → bits_value bs pos n < 2 ^ n
bits_value-lt bs pos zero = omega arith
bits_value-lt bs pos (suc n) = omega (
  arith,
  bits_value-lt bs (pos + 1) n,
  pow-suc 2 n,
  bit_mul-le (bit_at bs pos) (2 ^ n) (omega arith),
)

-- The word read is moved down.
shift_down :
    (u got ov want : ℕ)
    → got + ov ≡ want
    → want ≤ 32
    → (u * 2 ^ (32 - got)) >>> (32 - want) ≡ u * 2 ^ ov
shift_down u got ov want e h =
    ap (λ t. t / 2 ^ (32 - want)) regroup
    ∙ mul-div_cancel (u * 2 ^ ov) (one-le-pow (32 - want) 2 (omega arith))
  where
    regroup : u * 2 ^ (32 - got) ≡ u * 2 ^ ov * 2 ^ (32 - want)
    regroup =
        ap (λ t. u * 2 ^ t) (omega arith)
        ∙ ap (λ t. u * t) (two_pow_add ov (32 - want))
        ∙ sym (mul_assoc u (2 ^ ov) (2 ^ (32 - want)))

-- The mask clears the low `ov` bits, which are clear, and nothing below 32 bits.
mask_lem :
    (u ov : ℕ)
    → ov ≤ 32
    → u < 2 ^ 32
    → bit_and (u * 2 ^ ov) (0xffff_ffff <<< ov % 2 ^ 64) ≡ u * 2 ^ ov
mask_lem u ov h hu =
    ap (λ t. bit_and (u * 2 ^ ov) t) (mod-eq_of_lt fits)
    ∙ bit_and_field ov (u * 2 ^ ov) 0xffff_ffff
    ∙ ap (λ t. bit_and t 0xffff_ffff * 2 ^ ov) (mul-div_cancel u (one-le-pow ov 2 (omega arith)))
    ∙ ap (λ t. t * 2 ^ ov) (bit_and_low 32 u ∙ mod-eq_of_lt hu)
  where
    fits : 0xffff_ffff * 2 ^ ov < 2 ^ 64
    fits = omega (arith, pow-le-pow_right {n = 2} (omega arith) {i = ov} {j = 32} h)

-- The cut to 32 bits: what `getBits(n)` asks for, and what it gets.
abbrev pub wanted : ℕ → ℕ
wanted n = min n 32

abbrev pub got : BitVector → ℕ → ℕ
got v n = min (wanted n) (v.tot_num_bits - v.cur_bit_index)

-- `getBits(n)` returns the next bits as a number, and zeros for those that are past the end.
abbrev pub read_bits : BitVector → ℕ → ℕ
read_bits v k = bits_value v.base_byte (v.base_bit_offset + v.cur_bit_index) k

abbrev pub read_value : BitVector → ℕ → ℕ
read_value v n = read_bits v (got v n) * 2 ^ (wanted n - got v n)

overflowing_bits-eq :
    (v : BitVector) (n : ℕ) → IsValid v → n ≤ 32 → overflowing_bits v n ≡ wanted n - got v n
unfolding overflowing_bits
overflowing_bits-eq v n h hn = ground arith

get_bits_word-eq :
    (v : BitVector) (n : ℕ)
    → IsValid v
    → n ≤ 32
    → get_bits_word v n (wanted n - got v n)
      ≡ some (read_value v n, record v { cur_bit_index = v.cur_bit_index + got v n })
unfolding get_bits_word
get_bits_word-eq v n h hn = from_shifted (
    shift_bits_lem v.base_byte (v.base_bit_offset + v.cur_bit_index) (got v n) (omega arith)
      (omega arith))
  where
    k : ℕ
    k = got v n

    copied : n - (wanted n - k) ≡ k
    copied = omega arith

    offset : v.base_bit_offset +u v.cur_bit_index ≡ v.base_bit_offset + v.cur_bit_index
    offset = omega arith

    index : v.cur_bit_index +u k ≡ v.cur_bit_index + k
    index = omega arith

    read :
        (t : ℕ)
        → t ≡ read_bits v k * 2 ^ (32 - k)
        → bit_and (t >>> (32 - n)) (0xffff_ffff <<< (wanted n - k) % 2 ^ 64) ≡ read_value v n
    read t e =
        ap (λ z. bit_and (z >>> (32 - n)) (0xffff_ffff <<< (wanted n - k) % 2 ^ 64)) e
        ∙ ap (λ z. bit_and z (0xffff_ffff <<< (wanted n - k) % 2 ^ 64))
            (shift_down (read_bits v k) k (wanted n - k) n (omega arith) hn)
        ∙ mask_lem (read_bits v k) (wanted n - k) (omega arith) (
            omega (
              arith,
              bits_value-lt v.base_byte (v.base_bit_offset + v.cur_bit_index) k,
              pow-le-pow_right {n = 2} (omega arith) {i = k} {j = 32} (omega arith),
            ))

    from_shifted :
        Shifted
          (replicate 4 0)
          (read_bits v k * 2 ^ (32 - k))
          (shift_bits (replicate 4 0) v.base_byte 0 (v.base_bit_offset + v.cur_bit_index) k)
        → get_bits_word v n (wanted n - got v n)
          ≡ some (read_value v n, record v { cur_bit_index = v.cur_bit_index + k })
    from_shifted (to', e, l, b) =
        rw (copied, offset, e, uint32-be to' l, index, read (be 0 to') (omega (arith, b)))

get_bits_cut-eq :
    (v : BitVector) (n : ℕ)
    → IsValid v
    → n ≤ 32
    → get_bits_cut v n
      ≡ some (read_value v n, record v { cur_bit_index = v.cur_bit_index + got v n })
unfolding get_bits_cut
get_bits_cut-eq v n h hn =
    ap (get_bits_word v n) (overflowing_bits-eq v n h hn) ∙ get_bits_word-eq v n h hn

abbrev pub result_at : BitVector → ℕ → ℕ → Option (ℕ × BitVector)
result_at v value cursor = some (value, record v { cur_bit_index = cursor })

pub read_value-got :
    (v : BitVector) (n k : ℕ) → got v n ≡ k → read_value v n ≡ read_bits v k * 2 ^ (wanted n - k)
read_value-got v n k e = ap (λ t. read_bits v t * 2 ^ (wanted n - t)) e

wanted_cut : (n : ℕ) → (if ltb 32 n then 32 else n) ≡ wanted n
wanted_cut n = ground arith

-- On a valid vector `getBits(n)` does not panic: it returns the number that the next
-- `min(n, 32)` bits spell, with zeros in place of those that are past the end, and moves the
-- cursor by the bits that were there.
pub get_bits_lem :
    (v : BitVector) (n : ℕ)
    → IsValid v
    → get_bits v n ≡ some (read_value v n, record v { cur_bit_index = v.cur_bit_index + got v n })
unfolding get_bits
get_bits_lem v zero h = ap₂ (result_at v) (sym (read_value-got v 0 0 (omega arith))) (omega arith)
get_bits_lem v (suc n) h = rw (suc-ne-zero n) (
    ap (get_bits_cut v) (wanted_cut (suc n))
    ∙ get_bits_cut-eq v (wanted (suc n)) h (omega arith)
    ∙ ap₂ (result_at v) same_value same_cursor)
  where
    same_value : read_value v (wanted (suc n)) ≡ read_value v (suc n)
    same_value =
        ap
          (λ t.
            read_bits v (min t (v.tot_num_bits - v.cur_bit_index))
            * 2 ^ (t - min t (v.tot_num_bits - v.cur_bit_index)))
          {x = wanted (wanted (suc n))} {y = wanted (suc n)} (omega arith)

    same_cursor : v.cur_bit_index + got v (wanted (suc n)) ≡ v.cur_bit_index + got v (suc n)
    same_cursor = omega arith

-- A vector with no bit left.
pub get1_bit_past : (v : BitVector) → v.tot_num_bits ≤ v.cur_bit_index → get1_bit v ≡ some (0, v)
unfolding get1_bit
get1_bit_past v h = rw (le→leb v.tot_num_bits v.cur_bit_index h)

-- A valid vector with bits left: `get1Bit` returns the next one and moves past it.
pub get1_bit_next :
    (v : BitVector)
    → IsValid v
    → v.cur_bit_index < v.tot_num_bits
    → get1_bit v
      ≡ result_at v (bit_at v.base_byte (v.base_bit_offset + v.cur_bit_index)) (v.cur_bit_index + 1)
unfolding get1_bit
get1_bit_next v h lt =
    rw
      (
        lt→leb v.cur_bit_index v.tot_num_bits lt,
        offset,
        get_elem?-eq-get_or v.base_byte (at / 8) 0 (omega arith),
      )
      (ap₂ (result_at v) (bit_and_low 1 (get_or v.base_byte (at / 8) 0 >>> (7 - at % 8)))
        (omega arith))
  where
    at : ℕ
    at = v.base_bit_offset + v.cur_bit_index

    offset : v.base_bit_offset +u v.cur_bit_index ≡ at
    offset = omega arith

one_bit :
    (v : BitVector)
    → bit_at v.base_byte (v.base_bit_offset + v.cur_bit_index) ≡ read_bits v 1 * 2 ^ 0
one_bit v = omega arith

pub skip_bits_lem :
    (v : BitVector) (n : ℕ)
    → IsValid v
    → n ≤ 32
    → skip_bits v n ≡ record v { cur_bit_index = v.cur_bit_index + got v n }
unfolding skip_bits
skip_bits_lem v n h hn = ground arith

-- On a valid vector `get1Bit` is `getBits(1)`, as its comment says: the same result and cursor.
pub get1_bit-eq-get_bits : (v : BitVector) → IsValid v → get1_bit v ≡ get_bits v 1
get1_bit-eq-get_bits v h = elim (dec_lt v.cur_bit_index v.tot_num_bits) [
  | yes lt ↦
      get1_bit_next v h lt
      ∙ ap₂ (result_at v) (one_bit v ∙ sym (read_value-got v 1 1 (omega arith))) (omega arith)
      ∙ sym (get_bits_lem v 1 h)
  | no ge ↦
      get1_bit_past v (omega arith)
      ∙ ap₂ (result_at v) (sym (read_value-got v 1 0 (omega arith))) (omega arith)
      ∙ sym (get_bits_lem v 1 h)
]

-- On a valid vector `skipBits(n)` leaves the cursor where `getBits(n)` leaves it, for `n` up to 32.
pub skip_bits-eq-get_bits :
    (v : BitVector) (n : ℕ)
    → IsValid v
    → n ≤ 32
    → get_bits v n ≡ some (read_value v n, skip_bits v n)
skip_bits-eq-get_bits v n h hn =
    get_bits_lem v n h ∙ ap (λ w. some (read_value v n, w)) (sym (skip_bits_lem v n h hn))
