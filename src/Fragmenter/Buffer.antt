-- ===== src/Fragmenter/Buffer.antt =====
-- The bytes of the two headers, and what the writes in front of a fragment do to the buffer.
use dorsvr.Common.{
  ℕ, zero, suc, ◌+◌, ◌-◌, ◌^◌, ◌≤◌, ◌<◌, ◌≡◌, refl, ap, Bool, true, false, List, [], ◌∷◌, some,
  length, get_or, set, write?-in, length-set, get_elem?-eq-get_or, get_or-set_self, get_or-set_ne,
  arith, if◌then◌else◌, ◌==◌, ==→eq, bit_and, bit_or, ◌-u◌,
}
use dorsvr.Common.Bits.{holds_below, holds_below-at}
use dorsvr.Fragmenter.{write_fu_header}
use dorsvr.Fragmenter.Spec.{fu_indicator, nal_type}

indicator_table : holds_below (λ h. bit_or (bit_and h 0xe0) 28 == fu_indicator h) 256 ≡ true
unfolding holds_below
indicator_table = refl

pub indicator_lem : (h : ℕ) → h < 256 → bit_or (bit_and h 0xe0) 28 ≡ fu_indicator h
indicator_lem h lt = ==→eq _ _ (holds_below-at _ 256 indicator_table h lt)

first_table : holds_below (λ h. bit_or 0x80 (bit_and h 0x1f) == 128 + nal_type h) 256 ≡ true
unfolding holds_below
first_table = refl

pub first_header_lem : (h : ℕ) → h < 256 → bit_or 0x80 (bit_and h 0x1f) ≡ 128 + nal_type h
first_header_lem h lt = ==→eq _ _ (holds_below-at _ 256 first_table h lt)

next_table : holds_below (λ t. bit_and (128 + t) (0xff - 0x80) == t) 32 ≡ true
unfolding holds_below
next_table = refl

next_header : (t : ℕ) → t < 32 → bit_and (128 + t) (0xff - 0x80) ≡ t
next_header t lt = ==→eq _ _ (holds_below-at _ 32 next_table t lt)

last_table : holds_below (λ t. bit_or t 0x40 == t + 64) 32 ≡ true
unfolding holds_below
last_table = refl

last_header : (t : ℕ) → t < 32 → bit_or t 0x40 ≡ t + 64
last_header t lt = ==→eq _ _ (holds_below-at _ 32 last_table t lt)

-- The buffer with the two header bytes in front of index `k + 2`.
abbrev pub with_header : List ℕ → ℕ → ℕ → ℕ → List ℕ
with_header buffer k indicator header = set (set buffer k indicator) (k + 1) header

abbrev pub fu_header : ℕ → Bool → ℕ
fu_header t is_last = if is_last then t + 64 else t

set-set {ℓ} : {A : Type ℓ} (xs : List A) (i : ℕ) (a b : A) → set (set xs i a) i b ≡ set xs i b
set-set [] i a b = refl
set-set (x ∷ xs) zero a b = refl
set-set (x ∷ xs) (suc i) a b = ap (λ r. x ∷ r) (set-set xs i a b)

pub write_fu_header_lem :
    (buffer : List ℕ) (k indicator t : ℕ) (is_last : Bool)
    → 2 ≤ k
    → k + 2 ≤ length buffer
    → length buffer < 2 ^ 64
    → get_or buffer 0 0 ≡ indicator
    → get_or buffer 1 0 ≡ 128 + t
    → t < 32
    → write_fu_header buffer (k + 2) is_last
      ≡ some (with_header buffer k indicator (fu_header t is_last))
unfolding write_fu_header
write_fu_header_lem buffer k indicator t is_last hk hlen small at0 at1 ht =
    rw
      (
        get_elem?-eq-get_or buffer 0 0 (omega arith),
        at0,
        back2,
        write?-in buffer k indicator (omega arith),
        get_elem?-eq-get_or first 1 0 (omega (arith, length-set buffer k indicator)),
        get_or-set_ne buffer k 1 indicator 0 (omega arith),
        at1,
        next_header t ht,
        back1,
        write?-in first (k + 1) t (omega (arith, length-set buffer k indicator)),
        get_elem?-eq-get_or second (k + 1) 0
            (omega (arith, length-set buffer k indicator, length-set first (k + 1) t)),
        get_or-set_self first (k + 1) t 0 (omega (arith, length-set buffer k indicator)),
        last_header t ht,
        write?-in second (k + 1) (t + 64)
            (omega (arith, length-set buffer k indicator, length-set first (k + 1) t)),
        set-set first (k + 1) t (t + 64),
      )
      (choose is_last)
  where
    first : List ℕ
    first = set buffer k indicator

    second : List ℕ
    second = set first (k + 1) t

    back2 : k + 2 -u 2 ≡ k
    back2 = omega arith

    back1 : k + 2 -u 1 ≡ k + 1
    back1 = omega arith

    choose :
        (b : Bool)
        → (if b then some (set first (k + 1) (t + 64)) else some second)
          ≡ some (with_header buffer k indicator (fu_header t b))
    choose true = refl
    choose false = refl
