-- ===== src/OutPacketBuffer/Bytes.antt =====
-- Bytes copied into a buffer, read back, and those beside them.
use dorsvr.Common.{
  ℕ, zero, suc, ◌+◌, ◌≤◌, ◌≡◌, refl, ap, ◌∙◌, List, [], ◌∷◌, length, take, drop, copy, copy_at,
  take-copy, length-drop, arith,
}

module _ {ℓ} {A : Type ℓ} where
  drop-copy_at :
      (dst : List A) (i : ℕ) (src : List A) → drop i (copy_at dst i src) ≡ copy (drop i dst) src
  drop-copy_at dst zero src = refl
  drop-copy_at [] (suc i) src = refl
  drop-copy_at (d ∷ dst) (suc i) src = drop-copy_at dst i src

  -- What is copied to an index is there.
  pub copied_at :
      (dst : List A) (i : ℕ) (src : List A)
      → i + length src ≤ length dst
      → take (length src) (drop i (copy_at dst i src)) ≡ src
  copied_at dst i src h =
      ap (take (length src)) (drop-copy_at dst i src)
      ∙ take-copy (length src) (drop i dst) src refl (omega (arith, length-drop i dst))

  take-copy_prefix :
      (n : ℕ) (dst src : List A)
      → n ≤ length src
      → n ≤ length dst
      → take n (copy dst src) ≡ take n src
  take-copy_prefix zero dst src h k = refl
  take-copy_prefix (suc n) [] src h k = absurd (omega arith)
  take-copy_prefix (suc n) (d ∷ dst) [] h k = absurd (omega arith)
  take-copy_prefix (suc n) (d ∷ dst) (x ∷ src) h k =
      ap (λ r. x ∷ r) (take-copy_prefix n dst src (omega arith) (omega arith))

  pub copied_prefix :
      (n : ℕ) (dst : List A) (i : ℕ) (src : List A)
      → n ≤ length src
      → i + n ≤ length dst
      → take n (drop i (copy_at dst i src)) ≡ take n src
  copied_prefix n dst i src h k =
      ap (take n) (drop-copy_at dst i src)
      ∙ take-copy_prefix n (drop i dst) src h (omega (arith, length-drop i dst))

  -- What lies in front of the copied bytes stays.
  pub copied_behind :
      (dst : List A) (i : ℕ) (src : List A) (j n : ℕ)
      → j + n ≤ i
      → take n (drop j (copy_at dst i src)) ≡ take n (drop j dst)
  copied_behind dst i src j zero h = refl
  copied_behind [] zero src j (suc n) h = absurd (omega arith)
  copied_behind [] (suc i) src j (suc n) h = refl
  copied_behind (d ∷ dst) zero src j (suc n) h = absurd (omega arith)
  copied_behind (d ∷ dst) (suc i) src zero (suc n) h =
      ap (λ r. d ∷ r) (copied_behind dst i src zero n (omega arith))
  copied_behind (d ∷ dst) (suc i) src (suc j) (suc n) h =
      copied_behind dst i src j (suc n) (omega arith)

  -- And what lies behind them.
  pub copied_after :
      (dst : List A) (i : ℕ) (src : List A) (j : ℕ)
      → i + length src ≤ j
      → drop j (copy_at dst i src) ≡ drop j dst
  copied_after [] zero src j h = refl
  copied_after [] (suc i) src j h = refl
  copied_after (d ∷ dst) zero [] j h = refl
  copied_after (d ∷ dst) zero (x ∷ src) zero h = absurd (omega arith)
  copied_after (d ∷ dst) zero (x ∷ src) (suc j) h = copied_after dst zero src j (omega arith)
  copied_after (d ∷ dst) (suc i) src zero h = absurd (omega arith)
  copied_after (d ∷ dst) (suc i) src (suc j) h = copied_after dst i src j (omega arith)
