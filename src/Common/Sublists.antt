-- ===== src/Common/Sublists.antt =====
-- Prefixes and suffixes of lists, and writes seen through them.
use Prim.Native.Nat.{ℕ, zero, suc, ◌+◌, ◌-◌, ◌≤◌, ◌<◌}
use mathlib.Core.Path.{◌≡◌, refl, sym, ap, ◌∙◌}
use mathlib.Core.List.{List, [], ◌∷◌, ◌++◌}
use mathlib.Core.Option.{some}
use native.Mathlib.Omega.{arith}
use dorsvr.Common.Tests.{le→leb}
use dorsvr.Common.Lists.{length, get_elem?, set, take, drop, write?, slice?, copy}

module _ {ℓ} {A : Type ℓ} where
  pub take-append-drop : (n : ℕ) (xs : List A) → take n xs ++ drop n xs ≡ xs
  take-append-drop zero xs = refl
  take-append-drop (suc n) [] = refl
  take-append-drop (suc n) (x ∷ xs) = ap (λ r. x ∷ r) (take-append-drop n xs)

  pub take-append : (xs ys : List A) → take (length xs) (xs ++ ys) ≡ xs
  take-append [] ys = refl
  take-append (x ∷ xs) ys = ap (λ r. x ∷ r) (take-append xs ys)

  pub drop-append : (xs ys : List A) → drop (length xs) (xs ++ ys) ≡ ys
  drop-append [] ys = refl
  drop-append (x ∷ xs) ys = drop-append xs ys

  pub drop-nil : (n : ℕ) → drop {A = A} n [] ≡ []
  drop-nil zero = refl
  drop-nil (suc n) = refl

  pub drop-drop : (m n : ℕ) (xs : List A) → drop n (drop m xs) ≡ drop (m + n) xs
  drop-drop zero n xs = ap (λ k. drop k xs) (omega arith)
  drop-drop (suc m) n [] = drop-nil n ∙ sym (drop-nil (suc m + n))
  drop-drop (suc m) n (x ∷ xs) =
      let e : suc m + n ≡ suc (m + n) = omega arith in rw e (drop-drop m n xs)

  pub take-all : (n : ℕ) (xs : List A) → length xs ≤ n → take n xs ≡ xs
  take-all zero [] h = refl
  take-all zero (x ∷ xs) h = absurd (omega arith)
  take-all (suc n) [] h = refl
  take-all (suc n) (x ∷ xs) h = ap (λ r. x ∷ r) (take-all n xs (omega arith))

  pub get_elem?-middle :
      (xs : List A) (y : A) (ys : List A) → get_elem? (xs ++ y ∷ ys) (length xs) ≡ some y
  get_elem?-middle [] y ys = refl
  get_elem?-middle (x ∷ xs) y ys = get_elem?-middle xs y ys

  pub set-middle :
      (xs : List A) (y : A) (ys : List A) (v : A) → set (xs ++ y ∷ ys) (length xs) v ≡ xs ++ v ∷ ys
  set-middle [] y ys v = refl
  set-middle (x ∷ xs) y ys v = ap (λ r. x ∷ r) (set-middle xs y ys v)

module _ {ℓ} {A : Type ℓ} where
  pub write?-in : (xs : List A) (i : ℕ) (v : A) → i < length xs → write? xs i v ≡ some (set xs i v)
  write?-in [] i v h = absurd (omega arith)
  write?-in (x ∷ xs) zero v h = refl
  write?-in (x ∷ xs) (suc i) v h = rw (write?-in xs i v (omega arith))

  pub slice?-in :
      (xs : List A) (a b : ℕ)
      → a ≤ b
      → b ≤ length xs
      → slice? xs a b ≡ some (take (b - a) (drop a xs))
  slice?-in xs a b h k = rw (le→leb a b h, le→leb b (length xs) k)

  pub take-copy :
      (n : ℕ) (dst src : List A) → length src ≡ n → n ≤ length dst → take n (copy dst src) ≡ src
  take-copy zero dst [] e h = refl
  take-copy zero dst (x ∷ src) e h = absurd (omega arith)
  take-copy (suc n) dst [] e h = absurd (omega arith)
  take-copy (suc n) [] (x ∷ src) e h = absurd (omega arith)
  take-copy (suc n) (d ∷ dst) (x ∷ src) e h =
      ap (λ r. x ∷ r) (take-copy n dst src (omega arith) (omega arith))

  -- Two neighbouring writes, seen from the first on.
  pub drop-set_pair :
      (k : ℕ) (xs : List A) (a b : A)
      → k + 2 ≤ length xs
      → drop k (set (set xs k a) (k + 1) b) ≡ a ∷ b ∷ drop (k + 2) xs
  drop-set_pair zero [] a b h = absurd (omega arith)
  drop-set_pair zero (x ∷ []) a b h = absurd (omega arith)
  drop-set_pair zero (x ∷ y ∷ xs) a b h = refl
  drop-set_pair (suc k) [] a b h = absurd (omega arith)
  drop-set_pair (suc k) (x ∷ xs) a b h =
      let e : suc k + 1 ≡ suc (k + 1) = omega arith in
      let e' : suc k + 2 ≡ suc (k + 2) = omega arith in
      rw (e, e') (drop-set_pair k xs a b (omega arith))

module _ {ℓ} {A : Type ℓ} where
  pub take-nil : (n : ℕ) → take {A = A} n [] ≡ []
  take-nil zero = refl
  take-nil (suc n) = refl

  pub take-take : (m n : ℕ) (xs : List A) → m ≤ n → take m (take n xs) ≡ take m xs
  take-take zero n xs h = refl
  take-take (suc m) zero xs h = absurd (omega arith)
  take-take (suc m) (suc n) [] h = refl
  take-take (suc m) (suc n) (x ∷ xs) h = ap (λ r. x ∷ r) (take-take m n xs (omega arith))

  pub drop-take : (m n : ℕ) (xs : List A) → drop m (take (m + n) xs) ≡ take n (drop m xs)
  drop-take zero n xs = ap (λ k. take k xs) (omega arith)
  drop-take (suc m) n [] = let e : suc m + n ≡ suc (m + n) = omega arith in rw e (sym (take-nil n))
  drop-take (suc m) n (x ∷ xs) =
      let e : suc m + n ≡ suc (m + n) = omega arith in rw e (drop-take m n xs)

  -- A write behind the point where the list is read.
  pub drop-set_before : (n i : ℕ) (xs : List A) (v : A) → i < n → drop n (set xs i v) ≡ drop n xs
  drop-set_before zero i xs v h = absurd (omega arith)
  drop-set_before (suc n) i [] v h = refl
  drop-set_before (suc n) zero (x ∷ xs) v h = refl
  drop-set_before (suc n) (suc i) (x ∷ xs) v h = drop-set_before n i xs v (omega arith)

  pub take-set_end :
      (xs : List A) (k : ℕ) (v : A)
      → k < length xs
      → take (k + 1) (set xs k v) ≡ take k xs ++ v ∷ []
  take-set_end [] k v h = absurd (omega arith)
  take-set_end (x ∷ xs) zero v h = refl
  take-set_end (x ∷ xs) (suc k) v h =
      let e : suc k + 1 ≡ suc (k + 1) = omega arith in
      rw e (ap (λ t. x ∷ t) (take-set_end xs k v (omega arith)))
