-- ===== src/BitVector/Shift.antt =====
-- `shiftBits` into a cleared buffer: the buffer, read as a big-endian number, gains the bits copied.
use mathlib.Core.List.{append_assoc}
use dorsvr.Common.{
  ℕ, zero, suc, ◌+◌, ◌-◌, ◌*◌, ◌/◌, ◌%◌, ◌^◌, ◌≤◌, ◌<◌, ◌≡◌, refl, ap, ◌∙◌, inl, inr, List, [], ◌∷◌,
  ◌++◌, Option, some, length, replicate, length-append, subst, sym, arith, ◌==◌, if◌then◌else◌,
  Bool-cases, le→leb, suc-ne-zero,
}
use dorsvr.Common.Bits.{two_pow_add, byte_pow}
use dorsvr.BitVector.{shift_bits_loop, shift_bits}
use dorsvr.BitVector.Spec.{bit_at, bits_value}
use dorsvr.BitVector.ShiftRound.{be, be-append, be-replicate, shift_round, slot_next}

-- What the place `r` of a byte with `k` bytes behind it counts.
place_weight :
    (r k n m : ℕ) → r < 8 → suc n + m ≡ 8 * k + (8 - r) → 2 ^ (7 - r) * 256 ^ k ≡ 2 ^ n * 2 ^ m
place_weight r k n m hr e =
    ap (λ t. 2 ^ (7 - r) * t) (byte_pow k)
    ∙ sym (two_pow_add (7 - r) (8 * k))
    ∙ ap (λ t. 2 ^ t) (omega arith)
    ∙ two_pow_add n m

be-middle :
    (pre : List ℕ) (x k : ℕ) → be 0 (pre ++ x ∷ replicate k 0) ≡ (be 0 pre * 256 + x) * 256 ^ k
be-middle pre x k = be-append 0 pre (x ∷ replicate k 0) ∙ be-replicate (be 0 pre * 256 + x) k

be_gain :
    (pre : List ℕ) (x b r k n m : ℕ)
    → r < 8
    → suc n + m ≡ 8 * k + (8 - r)
    → be 0 (pre ++ (x + b * 2 ^ (7 - r)) ∷ replicate k 0)
      ≡ be 0 (pre ++ x ∷ replicate k 0) + b * 2 ^ n * 2 ^ m
be_gain pre x b r k n m hr e = omega (
  arith,
  be-middle pre x k,
  be-middle pre (x + b * 2 ^ (7 - r)) k,
  ap (λ (t : ℕ). b * t) (place_weight r k n m hr e),
)

-- What the loop leaves behind: a buffer of the same length, and a number larger by `added`.
abbrev pub Shifted : List ℕ → ℕ → Option (List ℕ) → Type 0
Shifted to added result =
    (to' : List ℕ) × (result ≡ some to') × (length to' ≡ length to) × (be 0 to' ≡ be 0 to + added)

Shifted-after :
    (to to1 : List ℕ) (added added1 : ℕ) {result result1 : Option (List ℕ)}
    → result ≡ result1
    → length to1 ≡ length to
    → be 0 to1 + added1 ≡ be 0 to + added
    → Shifted to1 added1 result1
    → Shifted to added result
Shifted-after to to1 added added1 p q r (to', e, l, b) = (to', p ∙ e, l ∙ q, b ∙ r)

-- The loop of `n` rounds, the places left after it being `m`.
abbrev LoopShifts : ℕ → ℕ → List ℕ → Type 0
LoopShifts n m from =
    (k fp fr q : ℕ) (pre : List ℕ) (x r : ℕ)
    → fr < 8
    → fp * 8 + fr ≡ q
    → q + n ≤ 8 * length from
    → r < 8
    → x < 256
    → x % 2 ^ (8 - r) ≡ 0
    → n + m ≡ 8 * k + (8 - r)
    → Shifted (pre ++ x ∷ replicate k 0) (bits_value from q n * 2 ^ m)
        (shift_bits_loop n from fp fr (pre ++ x ∷ replicate k 0) (length pre) r)

LoopShifts-zero : (m : ℕ) (from : List ℕ) → LoopShifts 0 m from
unfolding shift_bits_loop
LoopShifts-zero m from k fp fr q pre x r hfr hq hlen hr hx e em =
    (pre ++ x ∷ replicate k 0, refl, refl, omega arith)

-- The rounds that follow one which filled the place 7, and so the byte.
next_byte :
    (n m k : ℕ) (from : List ℕ) (fp fr q : ℕ) (pre : List ℕ) (x : ℕ)
    → LoopShifts n m from
    → fr < 8
    → fp * 8 + fr ≡ q
    → q + n ≤ 8 * length from
    → n + m ≡ 8 * k
    → Shifted
        (pre ++ x ∷ replicate k 0)
        (bits_value from q n * 2 ^ m)
        (shift_bits_loop n from fp fr (pre ++ x ∷ replicate k 0) (length pre + 1) 0)
unfolding shift_bits_loop
next_byte zero m k from fp fr q pre x ih hfr hq hlen em =
    (pre ++ x ∷ replicate k 0, refl, refl, omega arith)
next_byte (suc n) m zero from fp fr q pre x ih hfr hq hlen em = absurd (omega arith)
next_byte (suc n) m (suc k) from fp fr q pre x ih hfr hq hlen em =
    subst
      (λ t.
        Shifted t (bits_value from q (suc n) * 2 ^ m)
          (shift_bits_loop (suc n) from fp fr t (length pre + 1) 0))
      (append_assoc pre (x ∷ []) (replicate (suc k) 0))
      (subst
        (λ t.
          Shifted whole (bits_value from q (suc n) * 2 ^ m)
            (shift_bits_loop (suc n) from fp fr whole t 0))
        (length-append pre (x ∷ []))
        (ih k fp fr q (pre ++ x ∷ []) 0 0 hfr hq hlen (omega arith) (omega arith) (omega arith)
          (omega arith)))
  where
    whole : List ℕ
    whole = (pre ++ x ∷ []) ++ replicate (suc k) 0

-- The rounds that follow one at the place `r`.
next_rounds :
    (n m k : ℕ) (from : List ℕ) (fp fr q : ℕ) (pre : List ℕ) (x b r : ℕ)
    → LoopShifts n m from
    → fr < 8
    → fp * 8 + fr ≡ q
    → q + n ≤ 8 * length from
    → r < 8
    → x < 256
    → x % 2 ^ (8 - r) ≡ 0
    → b < 2
    → suc n + m ≡ 8 * k + (8 - r)
    → Shifted (pre ++ (x + b * 2 ^ (7 - r)) ∷ replicate k 0) (bits_value from q n * 2 ^ m) (
        shift_bits_loop n from fp fr
          (pre ++ (x + b * 2 ^ (7 - r)) ∷ replicate k 0)
          (if r + 1 == 8 then length pre + 1 else length pre)
          (if r + 1 == 8 then 0 else r + 1))
next_rounds n m k from fp fr q pre x b r ih hfr hq hlen hr hx e hb em =
    elim (Bool-cases (r + 1 == 8)) [
      | inl full ↦
          rw full
            (next_byte n m k from fp fr q pre (x + b * 2 ^ (7 - r)) ih hfr hq hlen (ground arith))
      | inr room ↦ rw room (
          ih k fp fr q pre (x + b * 2 ^ (7 - r)) (r + 1) hfr hq hlen (ground arith)
            (slot_next r x b (ground arith) hx e hb).0 (slot_next r x b (ground arith) hx e hb).1
            (ground arith))
    ]

LoopShifts-suc : (n m : ℕ) (from : List ℕ) → LoopShifts n m from → LoopShifts (suc n) m from
LoopShifts-suc n m from ih k fp fr q pre x r hfr hq hlen hr hx e em =
    Shifted-after _ (pre ++ (x + bit_at from q * 2 ^ (7 - r)) ∷ replicate k 0) _
      (bits_value from (q + 1) n * 2 ^ m)
      (subst
        (λ t.
          shift_bits_loop (suc n) from fp fr (pre ++ x ∷ replicate k 0) (length pre) r
          ≡ shift_bits_loop n from (if fr + 1 == 8 then fp + 1 else fp)
              (if fr + 1 == 8 then 0 else fr + 1)
              (pre ++ (x + bit_at from t * 2 ^ (7 - r)) ∷ replicate k 0)
              (if r + 1 == 8 then length pre + 1 else length pre) (if r + 1 == 8 then 0 else r + 1))
        hq (shift_round n from fp fr pre x (replicate k 0) r hfr hr (omega arith) hx e))
      (omega (
        arith,
        length-append pre (x ∷ replicate k 0),
        length-append pre ((x + bit_at from q * 2 ^ (7 - r)) ∷ replicate k 0),
      ))
      (omega (arith, be_gain pre x (bit_at from q) r k n m hr em))
      (next_rounds n m k from (if fr + 1 == 8 then fp + 1 else fp)
        (if fr + 1 == 8 then 0 else fr + 1) (q + 1) pre x (bit_at from q) r ih (ground arith)
        (ground arith) (omega arith) hr hx e (omega arith) em)

LoopShifts-all : (n m : ℕ) (from : List ℕ) → LoopShifts n m from
LoopShifts-all zero m from = LoopShifts-zero m from
LoopShifts-all (suc n) m from = LoopShifts-suc n m from (LoopShifts-all n m from)

-- `shiftBits` from the offset `off` into a cleared buffer of four bytes.
pub shift_bits_lem :
    (from : List ℕ) (off n : ℕ)
    → n ≤ 32
    → off + n ≤ 8 * length from
    → Shifted
        (replicate 4 0)
        (bits_value from off n * 2 ^ (32 - n))
        (shift_bits (replicate 4 0) from 0 off n)
unfolding shift_bits
shift_bits_lem from off zero h hlen = (replicate 4 0, refl, refl, refl)
shift_bits_lem from off (suc n) h hlen =
    rw (suc-ne-zero n, le→leb (off / 8) (length from) (omega arith))
      (LoopShifts-all (suc n) (32 - suc n) from 3 (off / 8) (off % 8) off [] 0 0 (omega arith)
        (omega arith) hlen (omega arith) (omega arith) (omega arith) (omega arith))
