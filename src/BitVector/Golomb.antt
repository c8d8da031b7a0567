-- ===== src/BitVector/Golomb.antt =====
-- `getExpGolomb`: it reads an unsigned Exp-Golomb code word, and always ends.
use native.Mathlib.Nat.{pow-suc, pow-le-pow_right, mul_assoc, mul-one, one-le-pow}
use dorsvr.Common.{
  ℕ, zero, suc, ◌+◌, ◌-◌, ◌*◌, ◌^◌, ◌≤◌, ◌<◌, ◌≡◌, ap, ap₂, subst, ◌∙◌, List, Option, some, arith,
  dec_lt, ltb, ◌==◌, ◌&&◌, lt→ltb, le→ltb, Bool-cases, inl, inr, ◌+u◌, ◌-u◌, ◌*u◌,
}
use dorsvr.BitVector.{BitVector, golomb_loop, get_exp_golomb}
use dorsvr.BitVector.Spec.{bit_at, bits_value, IsValid}
use dorsvr.BitVector.Read.{
  get1_bit_next, read_value-got, get1_bit_past, get_bits_lem, got, read_value, read_bits, result_at,
  bits_value-lt,
}

-- The `z` bits from `pos` on are clear.
abbrev pub ZerosFrom : List ℕ → ℕ → ℕ → Type 0
ZerosFrom bs pos zero = Unit {0}
ZerosFrom bs pos (suc z) = (bit_at bs pos ≡ 0) × ZerosFrom bs (pos + 1) z

-- An Exp-Golomb code word: `z` clear bits, a set one, and `z` bits that spell `s`.
pub record CodeWord (bs : List ℕ) (pos z s : ℕ) : Type 0 where
  pub prefix : ZerosFrom bs pos z
  pub marker : bit_at bs (pos + z) ≡ 1
  pub suffix : bits_value bs (pos + z + 1) z ≡ s

abbrev at_cursor : BitVector → ℕ → BitVector
at_cursor v c = record v { cur_bit_index = c }

at_cursor-IsValid :
    (v : BitVector) (c : ℕ) → IsValid v → c ≤ v.tot_num_bits → IsValid (at_cursor v c)
at_cursor-IsValid v c h le = record { cursor_in = le; bits_in = h.bits_in; no_wrap = h.no_wrap }

abbrev loop_at : BitVector → ℕ → ℕ → ℕ → Option (ℕ × ℕ × BitVector)
loop_at v leading code_start c = some (leading, code_start, at_cursor v c)

double_start : (c z : ℕ) → c * 2 * 2 ^ z ≡ c * 2 ^ suc z
double_start c z = omega (arith, ap (λ (t : ℕ). c * t) (pow-suc 2 z), mul_assoc c 2 (2 ^ z))

double-lt : (c z : ℕ) → c * 2 ^ suc z < 2 ^ 64 → c * 2 < 2 ^ 64
double-lt c z h = omega (arith, double_start c z, le-mul_pow (c * 2) z)
  where
    le-mul_pow : (k z : ℕ) → k ≤ k * 2 ^ z
    le-mul_pow k zero = omega arith
    le-mul_pow k (suc z) = omega (arith, le-mul_pow k z, ap (λ (t : ℕ). k * t) (pow-suc 2 z))

-- Over a valid code word the loop counts the leading zeros, and stops behind the set bit.
golomb_loop_lem :
    (z fuel : ℕ) (v : BitVector) (leading code_start : ℕ)
    → IsValid v
    → z < fuel
    → v.cur_bit_index + z < v.tot_num_bits
    → ZerosFrom v.base_byte (v.base_bit_offset + v.cur_bit_index) z
    → bit_at v.base_byte (v.base_bit_offset + v.cur_bit_index + z) ≡ 1
    → leading + z < 2 ^ 64
    → code_start * 2 ^ z < 2 ^ 64
    → golomb_loop fuel v leading code_start
      ≡ loop_at v (leading + z) (code_start * 2 ^ z) (v.cur_bit_index + z + 1)
unfolding golomb_loop
golomb_loop_lem z zero v leading code_start h hf hz zs one hl hc = absurd (omega arith)
golomb_loop_lem zero (suc fuel) v leading code_start h hf hz zs one hl hc =
    rw (get1_bit_next v h (omega arith), here)
      (λ i. loop_at v (same_leading i) (same_start i) (same_cursor i))
  where
    here : bit_at v.base_byte (v.base_bit_offset + v.cur_bit_index) ≡ 1
    here = ap (bit_at v.base_byte) (omega arith) ∙ one

    same_leading : leading ≡ leading + 0
    same_leading = omega arith

    same_start : code_start ≡ code_start * 1
    same_start = omega arith

    same_cursor : v.cur_bit_index + 1 ≡ v.cur_bit_index + 0 + 1
    same_cursor = omega arith
golomb_loop_lem (suc z) (suc fuel) v leading code_start h hf hz zs one hl hc =
    rw
      (
        get1_bit_next v h (omega arith),
        zs.0,
        lt→ltb (v.cur_bit_index + 1) v.tot_num_bits (omega arith),
      )
      (ap₂ (golomb_loop fuel v') next_leading next_start
        ∙ golomb_loop_lem z fuel v' (leading + 1) (code_start * 2)
            (at_cursor-IsValid v (v.cur_bit_index + 1) h (omega arith)) (omega arith) (omega arith)
            (subst (λ t. ZerosFrom v.base_byte t z) {x = v.base_bit_offset + v.cur_bit_index + 1}
              (omega arith) zs.1)
            (ap (bit_at v.base_byte) {y = v.base_bit_offset + v.cur_bit_index + suc z} (omega arith)
              ∙ one)
            (omega arith) (omega (arith, double_start code_start z))
        ∙ (λ i. loop_at v (last_leading i) (double_start code_start z i) (last_cursor i)))
  where
    v' : BitVector
    v' = at_cursor v (v.cur_bit_index + 1)

    next_leading : leading +u 1 ≡ leading + 1
    next_leading = omega arith

    next_start : code_start *u 2 ≡ code_start * 2
    next_start = omega (arith, double-lt code_start z hc)

    last_leading : leading + 1 + z ≡ leading + suc z
    last_leading = omega arith

    last_cursor : v.cur_bit_index + 1 + z + 1 ≡ v.cur_bit_index + suc z + 1
    last_cursor = omega arith

-- On a valid vector whose next bits are the code word of `z` zeros and the suffix `s`, with `z` at
-- most 32, `getExpGolomb` returns its number, 2^z - 1 + s, and moves the cursor behind the word.
pub get_exp_golomb-CodeWord :
    (v : BitVector) (z s : ℕ)
    → IsValid v
    → z ≤ 32
    → v.cur_bit_index + 2 * z + 1 ≤ v.tot_num_bits
    → CodeWord v.base_byte (v.base_bit_offset + v.cur_bit_index) z s
    → get_exp_golomb v
      ≡ some (2 ^ z - 1 + s, record v { cur_bit_index = v.cur_bit_index + 2 * z + 1 })
unfolding get_exp_golomb
get_exp_golomb-CodeWord v z s h hz fits w =
    rw
      (
        golomb_loop_lem z (v.tot_num_bits - v.cur_bit_index + 1) v 0 1 h (omega arith) (omega arith)
            w.prefix w.marker (omega arith) (omega (arith, small)),
        get_bits_lem (at_cursor v (v.cur_bit_index + z + 1)) (0 + z)
            (at_cursor-IsValid v (v.cur_bit_index + z + 1) h (omega arith)),
      )
      (ap₂ (result_at v) (ap (λ t. 1 * 2 ^ z -u 1 +u t) value ∙ code_number) (omega arith))
  where
    small : 2 ^ z ≤ 2 ^ 32
    small = pow-le-pow_right {n = 2} (omega arith) {i = z} {j = 32} hz

    v1 : BitVector
    v1 = at_cursor v (v.cur_bit_index + z + 1)

    value : read_value v1 (0 + z) ≡ s
    value =
        read_value-got v1 (0 + z) z (omega arith)
        ∙ ap (λ t. read_bits v1 z * 2 ^ t) {y = 0} (omega arith)
        ∙ mul-one (read_bits v1 z)
        ∙ ap (λ t. bits_value v.base_byte t z) (omega arith)
        ∙ w.suffix

    code_number : 1 * 2 ^ z -u 1 +u s ≡ 2 ^ z - 1 + s
    code_number = omega (
      arith,
      small,
      one-le-pow z 2,
      w.suffix,
      bits_value-lt v.base_byte (v.base_bit_offset + v.cur_bit_index + z + 1) z,
    )

-- The loop ends with fuel for the bits left, and leaves a valid vector, the cursor not before.
golomb_loop_total :
    (fuel : ℕ) (v : BitVector) (leading code_start : ℕ)
    → IsValid v
    → v.tot_num_bits - v.cur_bit_index < fuel
    → (l c k : ℕ) × (golomb_loop fuel v leading code_start ≡ loop_at v l c k)
      × (v.cur_bit_index ≤ k)
      × (k ≤ v.tot_num_bits)
unfolding golomb_loop
golomb_loop_total zero v leading code_start h hf = absurd (omega arith)
golomb_loop_total (suc fuel) v leading code_start h hf =
    elim (dec_lt v.cur_bit_index v.tot_num_bits) [
      | no ge ↦ (
        leading,
        code_start,
        v.cur_bit_index,
        rw (get1_bit_past v (omega arith), le→ltb v.tot_num_bits v.cur_bit_index (omega arith)),
        omega arith,
        h.cursor_in,
      )
      | yes lt ↦
          rw (get1_bit_next v h lt)
            (elim (Bool-cases (
              bit_at v.base_byte (v.base_bit_offset + v.cur_bit_index) == 0
              && ltb (v.cur_bit_index + 1) v.tot_num_bits)) [
                | inr stop ↦
                    (leading, code_start, v.cur_bit_index + 1, rw stop, omega arith, omega arith)
                | inl more ↦
                    let (l, c, k, e, a, b) =
                      golomb_loop_total fuel (at_cursor v (v.cur_bit_index + 1)) (leading +u 1)
                        (code_start *u 2)
                        (at_cursor-IsValid v (v.cur_bit_index + 1) h (omega arith)) (omega arith) in
                    (l, c, k, rw more e, omega arith, b)
              ])
    ]

-- On every valid vector `getExpGolomb` ends without a panic, with the fuel given, and leaves a valid
-- vector over the same bits, the cursor not before where it stood.
pub get_exp_golomb_total :
    (v : BitVector)
    → IsValid v
    → (number k : ℕ) × (get_exp_golomb v ≡ some (number, record v { cur_bit_index = k }))
      × (v.cur_bit_index ≤ k)
      × (k ≤ v.tot_num_bits)
unfolding get_exp_golomb
get_exp_golomb_total v h =
    let (l, c, k, e, a, b) =
      golomb_loop_total (v.tot_num_bits - v.cur_bit_index + 1) v 0 1 h (omega arith) in
    let v' = at_cursor v k in
    (
      c -u 1 +u read_value v' l,
      k + got v' l,
      rw (e, get_bits_lem v' l (at_cursor-IsValid v k h b)),
      omega arith,
      omega arith,
    )
