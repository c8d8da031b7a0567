-- ===== src/BitVector/ShiftRound.antt =====
-- One round of the loop of `shiftBits`: a bit goes to its place in the buffer.
use native.Mathlib.Nat.{pow-suc}
use dorsvr.Common.{
  ℕ, zero, suc, ◌+◌, ◌-◌, ◌*◌, ◌/◌, ◌%◌, ◌^◌, ◌<◌, ◌≡◌, refl, ap, ◌∙◌, Bool, true, false, not, ◌⊎◌,
  List, [], ◌∷◌, ◌++◌, some, length, replicate, get_elem?, get_or, get_elem?-eq-get_or,
  get_elem?-middle, set-middle, sym, arith, ◌==◌, if◌then◌else◌, bit_and, bit_or,
}
use dorsvr.Common.Bits.{bit_test, holds_below, holds_below-at}
use dorsvr.BitVector.{single_bit_mask, write_bit, shift_bits_loop}
use dorsvr.BitVector.Spec.{bit_at}

-- The number that bytes spell after `acc`, the first byte highest.
abbrev pub be : ℕ → List ℕ → ℕ
be acc [] = acc
be acc (x ∷ xs) = be (acc * 256 + x) xs

pub be-append : (acc : ℕ) (xs ys : List ℕ) → be acc (xs ++ ys) ≡ be (be acc xs) ys
be-append acc [] ys = refl
be-append acc (x ∷ xs) ys = be-append (acc * 256 + x) xs ys

pub be-replicate : (acc k : ℕ) → be acc (replicate k 0) ≡ acc * 256 ^ k
be-replicate acc zero = omega arith
be-replicate acc (suc k) =
    omega (arith, be-replicate (acc * 256 + 0) k, ap (λ (t : ℕ). acc * t) (pow-suc 256 k))

-- The mask of bit `r` of a byte.
mask_at : (r : ℕ) → r < 8 → get_elem? single_bit_mask r ≡ some (2 ^ (7 - r))
mask_at zero h = refl
mask_at (suc zero) h = refl
mask_at (suc (suc zero)) h = refl
mask_at (suc (suc (suc zero))) h = refl
mask_at (suc (suc (suc (suc zero)))) h = refl
mask_at (suc (suc (suc (suc (suc zero))))) h = refl
mask_at (suc (suc (suc (suc (suc (suc zero)))))) h = refl
mask_at (suc (suc (suc (suc (suc (suc (suc zero))))))) h = refl
mask_at (suc (suc (suc (suc (suc (suc (suc (suc r)))))))) h = absurd (omega arith)

-- Writing a bit into a byte whose bits from `r` on are clear.
clear_from : ℕ → ℕ → Bool
clear_from r x = if x % 2 ^ (8 - r) == 0 then (bit_and x (255 - 2 ^ (7 - r)) == x) else true

clear_table : holds_below (λ r. holds_below (clear_from r) 256) 8 ≡ true
unfolding holds_below clear_from
clear_table = refl

set_table :
    holds_below
      (λ r.
        holds_below
          (λ x. if x % 2 ^ (8 - r) == 0 then bit_or x (2 ^ (7 - r)) == x + 2 ^ (7 - r) else true)
          256)
      8
    ≡ true
unfolding holds_below
set_table = refl

write_bit_lem :
    (b : Bool) (r x : ℕ)
    → r < 8
    → x < 256
    → x % 2 ^ (8 - r) ≡ 0
    → write_bit b x (2 ^ (7 - r)) ≡ x + (if b then 2 ^ (7 - r) else 0)
unfolding write_bit clear_from
write_bit_lem true r x hr hx e =
    ground (arith, holds_below-at _ 256 (holds_below-at _ 8 set_table r hr) x hx)
write_bit_lem false r x hr hx e =
    ground (arith, holds_below-at _ 256 (holds_below-at _ 8 clear_table r hr) x hx)

-- The value of the bit that the mask tests.
bit_of_mask : (a k p : ℕ) → (if not (bit_and a (2 ^ k) == 0) then p else 0) ≡ a / 2 ^ k % 2 * p
bit_of_mask a k p = ground (arith, bit_test k a, bit_cases (a / 2 ^ k % 2))
  where
    bit_cases : (m : ℕ) → m < 2 → (m ≡ 0) ⊎ (m ≡ 1)
    bit_cases m h = omega arith

bit_at-split :
    (bs : List ℕ) (p r : ℕ) → r < 8 → bit_at bs (p * 8 + r) ≡ get_or bs p 0 / 2 ^ (7 - r) % 2
bit_at-split bs p r h =
    let q : (p * 8 + r) / 8 ≡ p = omega arith in
    let e : (p * 8 + r) % 8 ≡ r = omega arith in rw (q, e)

-- One round: the bit at `from_ptr`, `from_rem` goes to the first free place of the byte `x`.
pub shift_round :
    (n : ℕ) (from : List ℕ) (fp fr : ℕ) (pre : List ℕ) (x : ℕ) (post : List ℕ) (r : ℕ)
    → fr < 8
    → r < 8
    → fp < length from
    → x < 256
    → x % 2 ^ (8 - r) ≡ 0
    → shift_bits_loop (suc n) from fp fr (pre ++ x ∷ post) (length pre) r
      ≡ shift_bits_loop n from
          (if fr + 1 == 8 then fp + 1 else fp)
          (if fr + 1 == 8 then 0 else fr + 1)
          (pre ++ (x + bit_at from (fp * 8 + fr) * 2 ^ (7 - r)) ∷ post)
          (if r + 1 == 8 then length pre + 1 else length pre)
          (if r + 1 == 8 then 0 else r + 1)
unfolding shift_bits_loop
shift_round n from fp fr pre x post r hfr hr hfp hx e = rw (
  mask_at fr hfr,
  get_elem?-eq-get_or from fp 0 hfp,
  mask_at r hr,
  get_elem?-middle pre x post,
  set-middle pre x post,
  written,
)
  where
    written :
        write_bit (not (bit_and (get_or from fp 0) (2 ^ (7 - fr)) == 0)) x (2 ^ (7 - r))
        ≡ x + bit_at from (fp * 8 + fr) * 2 ^ (7 - r)
    written =
        write_bit_lem _ r x hr hx e
        ∙ ap (λ t. x + t) (bit_of_mask (get_or from fp 0) (7 - fr) (2 ^ (7 - r)))
        ∙ ap (λ t. x + t * 2 ^ (7 - r)) (sym (bit_at-split from fp fr hfr))

-- The byte after a round has its bits from `r + 1` on clear.
pub slot_next :
    (r x b : ℕ)
    → r < 7
    → x < 256
    → x % 2 ^ (8 - r) ≡ 0
    → b < 2
    → (x + b * 2 ^ (7 - r) < 256) × ((x + b * 2 ^ (7 - r)) % 2 ^ (8 - (r + 1)) ≡ 0)
slot_next zero x b hr hx e hb = omega arith
slot_next (suc zero) x b hr hx e hb = omega arith
slot_next (suc (suc zero)) x b hr hx e hb = omega arith
slot_next (suc (suc (suc zero))) x b hr hx e hb = omega arith
slot_next (suc (suc (suc (suc zero)))) x b hr hx e hb = omega arith
slot_next (suc (suc (suc (suc (suc zero))))) x b hr hx e hb = omega arith
slot_next (suc (suc (suc (suc (suc (suc zero)))))) x b hr hx e hb = omega arith
slot_next (suc (suc (suc (suc (suc (suc (suc r))))))) x b hr hx e hb = absurd (omega arith)
