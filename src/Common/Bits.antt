-- ===== src/Common/Bits.antt =====
-- `&` and `|` at variables: the law for the lowest digit, and from it masks and disjoint fields as
-- arithmetic, at every width.
use Prim.Native.Nat.{
  ℕ, zero, suc, ◌+◌, ◌-◌, ◌*◌, ◌/◌, ◌%◌, ◌^◌, ◌≤◌, ◌<◌, min, max, bit_and, bit_or, digits,
  bit_and-bitwise, bit_or-bitwise,
}
use mathlib.Core.Bool.{Bool, true, false, true≢false, ◌&&◌}
use mathlib.Core.Path.{◌≡◌, refl, sym, ap, ap₂, subst, ◌∙◌}
use native.Mathlib.Nat.{
  pow-suc, pow-succ', one-le-pow, div-div-eq-div-mul, div-add-mod, mul-one, one-mul, add-zero,
  add-suc, mul_assoc,
}
use dorsvr.Common.Tests.{◌==◌, if◌then◌else◌}
use native.Mathlib.Omega.{arith}
unfoldable use native.Mathlib.Decide.{dec_lt}

module _ (z : ℕ → ℕ) (f : ℕ → ℕ → ℕ) where
  -- A count of digits counts no further than the number, so a larger one changes nothing.
  longer_count :
      (x y : ℕ) {count more : ℕ}
      → x ≤ count
      → count ≤ more
      → digits z f more x y ≡ digits z f count x y
  longer_count zero y {count = zero} {more = zero} h k = refl
  longer_count zero y {count = zero} {more = suc m} h k = refl
  longer_count zero y {count = suc n} {more = zero} h k = refl
  longer_count zero y {count = suc n} {more = suc m} h k = refl
  longer_count (suc x) y {count = zero} h k = absurd (omega arith)
  longer_count (suc x) y {count = suc n} {more = zero} h k = absurd (omega arith)
  longer_count (suc x) y {count = suc n} {more = suc m} h k =
      ap (λ high. high * 2 + f (suc x % 2) (y % 2))
        (longer_count (suc x / 2) (y / 2) {count = n} {more = m} (omega arith) (omega arith))

  -- The lowest digit apart, and the count cut to what is left.
  digits_step :
      (x y : ℕ)
      → digits z f (suc x) (suc x) y
        ≡ digits z f (suc x / 2) (suc x / 2) (y / 2) * 2 + f (suc x % 2) (y % 2)
  digits_step x y =
      ap (λ high. high * 2 + f (suc x % 2) (y % 2))
        (longer_count (suc x / 2) (y / 2) {count = suc x / 2} {more = x} (omega arith)
          (omega arith))

zero-bit_or : (y : ℕ) → bit_or 0 y ≡ y
zero-bit_or = bit_or-bitwise 0

pub bit_or_step : (x y : ℕ) → bit_or x y ≡ bit_or (x / 2) (y / 2) * 2 + max (x % 2) (y % 2)
bit_or_step zero y = omega (arith, zero-bit_or y, zero-bit_or (y / 2))
bit_or_step (suc x) y =
    bit_or-bitwise (suc x) y
    ∙ digits_step (λ t. t) max x y
    ∙ ap (λ high. high * 2 + max (suc x % 2) (y % 2)) (sym (bit_or-bitwise (suc x / 2) (y / 2)))

zero-bit_and : (y : ℕ) → bit_and 0 y ≡ 0
zero-bit_and = bit_and-bitwise 0

pub bit_and_step : (x y : ℕ) → bit_and x y ≡ bit_and (x / 2) (y / 2) * 2 + min (x % 2) (y % 2)
bit_and_step zero y = omega (arith, zero-bit_and y, zero-bit_and (y / 2))
bit_and_step (suc x) y =
    bit_and-bitwise (suc x) y
    ∙ digits_step (λ _. 0) min x y
    ∙ ap (λ high. high * 2 + min (suc x % 2) (y % 2)) (sym (bit_and-bitwise (suc x / 2) (y / 2)))

bit_and-zero_below : (n a : ℕ) → a ≤ n → bit_and a 0 ≡ 0
bit_and-zero_below n zero h = refl
bit_and-zero_below zero (suc a) h = absurd (omega arith)
bit_and-zero_below (suc n) (suc a) h =
    omega (arith, bit_and_step (suc a) 0, bit_and-zero_below n (suc a / 2) (omega arith))

pub bit_and-zero : (a : ℕ) → bit_and a 0 ≡ 0
bit_and-zero a = bit_and-zero_below a a (omega arith)

bit_or-zero_below : (n a : ℕ) → a ≤ n → bit_or a 0 ≡ a
bit_or-zero_below n zero h = refl
bit_or-zero_below zero (suc a) h = absurd (omega arith)
bit_or-zero_below (suc n) (suc a) h =
    omega (arith, bit_or_step (suc a) 0, bit_or-zero_below n (suc a / 2) (omega arith))

pub bit_or-zero : (a : ℕ) → bit_or a 0 ≡ a
bit_or-zero a = bit_or-zero_below a a (omega arith)

mul-double_pow : (q k : ℕ) → q * 2 ^ suc k ≡ 2 * (q * 2 ^ k)
mul-double_pow q k = omega (arith, ap (λ (t : ℕ). q * t) (pow-suc 2 k))

bit_and_low_digits : (k q r : ℕ) → r < 2 ^ k → bit_and (q * 2 ^ k + r) (2 ^ k - 1) ≡ r
bit_and_low_digits zero q r h = rw bit_and-zero (omega arith)
bit_and_low_digits (suc k) q r h = ground (
  arith,
  bit_and_step (q * 2 ^ suc k + r) (2 ^ suc k - 1),
  mul-double_pow q k,
  pow-suc 2 k,
  one-le-pow k 2,
  bit_and_low_digits k q (r / 2),
)

-- A mask of `k` low bits is the remainder by `2 ^ k`.
pub bit_and_low : (k a : ℕ) → bit_and a (2 ^ k - 1) ≡ a % 2 ^ k
bit_and_low k a =
    ground
      (arith, one-le-pow k 2, bit_and_low_digits k (a / 2 ^ k) (a % 2 ^ k), div-add-mod a (2 ^ k))

half-of_pow : (a k : ℕ) → a / 2 / 2 ^ k ≡ a / 2 ^ suc k
half-of_pow a k = div-div-eq-div-mul a 2 (2 ^ k) ∙ ap (λ t. a / t) (sym (pow-succ' 2 k))

half_of_double : (m k : ℕ) → m * 2 ^ suc k / 2 ≡ m * 2 ^ k
half_of_double m k = omega (arith, mul-double_pow m k)

-- A mask above `k` bits reads the number above `k` bits.
pub bit_and_field : (k a m : ℕ) → bit_and a (m * 2 ^ k) ≡ bit_and (a / 2 ^ k) m * 2 ^ k
bit_and_field zero a m = ap₂ (λ s t. bit_and s t) (omega arith) (omega arith) ∙ sym (mul-one _)
bit_and_field (suc k) a m = omega (
  arith,
  bit_and_step a (m * 2 ^ suc k),
  mul-double_pow m k,
  mul-double_pow (bit_and (a / 2 ^ suc k) m) k,
  bit_and_field k (a / 2) m,
  ap (λ t. bit_and t m * 2 ^ k) (half-of_pow a k),
  ap (λ t. bit_and (a / 2) t) (half_of_double m k),
)

-- `(q << k) | r` is a sum when `r` fits `k` bits.
pub bit_or_join : (k q r : ℕ) → r < 2 ^ k → bit_or (q * 2 ^ k) r ≡ q * 2 ^ k + r
bit_or_join zero q r h = ground (arith, bit_or-zero q)
bit_or_join (suc k) q r h =
    ground (
      arith,
      bit_or_step (q * 2 ^ suc k) r,
      mul-double_pow q k,
      pow-suc 2 k,
      bit_or_join k q (r / 2),
    )

-- A test of every number of a small range, by evaluation.
unfoldable pub holds_below : (ℕ → Bool) → ℕ → Bool
holds_below test zero = true
holds_below test (suc bound) = test bound && holds_below test bound

both_true : {a b : Bool} → (a && b) ≡ true → (a ≡ true) × (b ≡ true)
both_true {a = true} e = (refl, e)
both_true {a = false} e = absurd (true≢false (sym e))

pub holds_below-at :
    (test : ℕ → Bool) (bound : ℕ)
    → holds_below test bound ≡ true
    → (i : ℕ) → i < bound
    → test i ≡ true
unfolding holds_below
holds_below-at test zero checked i lt = absurd (omega arith)
holds_below-at test (suc bound) checked i lt =
    let (last, others) = both_true checked in
    elim (dec_lt i bound) [
      | yes below ↦ holds_below-at test bound others i below
      | no not_below ↦ subst (λ k. test k ≡ true) {x = bound} {y = i} (omega arith) last
    ]

-- A mask of one bit.
pub bit_and_single : (k a : ℕ) → bit_and a (2 ^ k) ≡ a / 2 ^ k % 2 * 2 ^ k
bit_and_single k a =
    ap (λ t. bit_and a t) (sym (one-mul (2 ^ k)))
    ∙ bit_and_field k a 1
    ∙ ap (λ t. t * 2 ^ k) (bit_and_low 1 (a / 2 ^ k))

zero_or_one : (m p : ℕ) → m < 2 → 0 < p → (if m * p == 0 then 0 else 1) ≡ m
zero_or_one zero p h q = ground arith
zero_or_one (suc zero) p h q = ground arith
zero_or_one (suc (suc m)) p h q = absurd (omega arith)

-- Testing a mask of one bit against zero reads the bit.
pub bit_test : (k a : ℕ) → (if bit_and a (2 ^ k) == 0 then 0 else 1) ≡ a / 2 ^ k % 2
bit_test k a =
    rw (bit_and_single k a)
      (zero_or_one (a / 2 ^ k % 2) (2 ^ k) (omega arith) (one-le-pow k 2 (omega arith)))

pub two_pow_add : (a b : ℕ) → 2 ^ (a + b) ≡ 2 ^ a * 2 ^ b
two_pow_add a zero = ap (λ t. 2 ^ t) (add-zero a) ∙ sym (mul-one (2 ^ a))
two_pow_add a (suc b) =
    ap (λ t. 2 ^ t) (add-suc a b)
    ∙ pow-suc 2 (a + b)
    ∙ ap (λ t. t * 2) (two_pow_add a b)
    ∙ mul_assoc (2 ^ a) (2 ^ b) 2
    ∙ ap (λ t. 2 ^ a * t) (sym (pow-suc 2 b))

-- A byte is eight bits.
pub byte_pow : (k : ℕ) → 256 ^ k ≡ 2 ^ (8 * k)
byte_pow zero = refl
byte_pow (suc k) =
    pow-suc 256 k
    ∙ ap (λ t. t * 256) (byte_pow k)
    ∙ sym (two_pow_add (8 * k) 8)
    ∙ ap (λ t. 2 ^ t) (omega arith)

-- A clear bit is set.
pub bit_or_single : (k x : ℕ) → x / 2 ^ k % 2 ≡ 0 → bit_or x (2 ^ k) ≡ x + 2 ^ k
bit_or_single zero x e = omega (arith, bit_or_step x 1, bit_or-zero (x / 2))
bit_or_single (suc k) x e = omega (
  arith,
  bit_or_step x (2 ^ suc k),
  ap (λ t. bit_or (x / 2) t) {x = 2 ^ suc k / 2} {y = 2 ^ k} (omega (arith, pow-suc 2 k)),
  bit_or_single k (x / 2) (ap (λ t. t % 2) half ∙ e),
  pow-suc 2 k,
)
  where
    half : x / 2 / 2 ^ k ≡ x / 2 ^ suc k
    half = div-div-eq-div-mul x 2 (2 ^ k) ∙ ap (λ t. x / t) (omega (arith, pow-suc 2 k))
