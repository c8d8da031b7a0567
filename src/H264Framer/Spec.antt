-- ===== src/H264Framer/Spec.antt =====
-- What the byte stream format promises: NAL units stand between start codes, 00 00 01 or
-- 00 00 00 01, and a reference that looks for the next one byte by byte.
use mathlib.Core.Bool.{true≢false}
use dorsvr.Common.{
  ℕ, ◌<◌, ◌≡◌, refl, sym, ap, subst, ◌∙◌, Bool, true, false, ◌&&◌, ◌||◌, List, [], ◌∷◌, Option,
  none, some, ◌==◌, if◌then◌else◌, Bool-cases, inl, inr, arith,
}

abbrev pub start_at : ℕ → ℕ → ℕ → ℕ → Bool
start_at a b c d = a == 0 && b == 0 && (c == 1 || c == 0 && d == 1)

abbrev pub code_length : ℕ → ℕ
code_length c = if c == 0 then 4 else 3

-- The bytes before the next start code, and its length; `none` when there is none, with a byte
-- behind it where it has three.
abbrev pub scan : List ℕ → Option (List ℕ × ℕ)
scan (a ∷ b ∷ c ∷ d ∷ r) =
    if start_at a b c d
    then some ([], code_length c)
    else elim (scan (b ∷ c ∷ d ∷ r)) [ none ↦ none | some (n, k) ↦ some (a ∷ n, k) ]
scan _ = none

-- The same as a predicate on the unit and on the length of the start code behind it.
abbrev pub Splits : List ℕ → List ℕ → ℕ → Type 0
Splits (a ∷ b ∷ c ∷ d ∷ r) [] k = (start_at a b c d ≡ true) × (k ≡ code_length c)
Splits (a ∷ b ∷ c ∷ d ∷ r) (x ∷ n) k =
    (x ≡ a) × (start_at a b c d ≡ false) × Splits (b ∷ c ∷ d ∷ r) n k
Splits _ _ k = ⊥

abbrev FoundSplits : List ℕ → Option (List ℕ × ℕ) → Type 0
FoundSplits l none = Unit {0}
FoundSplits l (some (n, k)) = Splits l n k

scanned_behind :
    (a b c d : ℕ) (r : List ℕ) (o : Option (List ℕ × ℕ))
    → start_at a b c d ≡ false
    → FoundSplits (b ∷ c ∷ d ∷ r) o
    → FoundSplits (a ∷ b ∷ c ∷ d ∷ r) (elim o [ none ↦ none | some (n, k) ↦ some (a ∷ n, k) ])
scanned_behind a b c d r none e h = tt
scanned_behind a b c d r (some (n, k)) e h = (refl, e, h)

scan-FoundSplits : (l : List ℕ) → FoundSplits l (scan l)
scan-FoundSplits [] = tt
scan-FoundSplits (a ∷ []) = tt
scan-FoundSplits (a ∷ b ∷ []) = tt
scan-FoundSplits (a ∷ b ∷ c ∷ []) = tt
scan-FoundSplits (a ∷ b ∷ c ∷ d ∷ r) =
    let behind = scanned_behind a b c d r (scan (b ∷ c ∷ d ∷ r)) in
    let rest = scan-FoundSplits (b ∷ c ∷ d ∷ r) in
    elim (Bool-cases (start_at a b c d)) [ inl e ↦ rw e (e, refl) | inr e ↦ rw e (behind e rest) ]

pub scan-Splits : (l n : List ℕ) (k : ℕ) → scan l ≡ some (n, k) → Splits l n k
scan-Splits l n k e = subst (FoundSplits l) e (scan-FoundSplits l)

true_or_false : {A : Type 0} {t : Bool} → t ≡ true → t ≡ false → A
true_or_false h k = absurd (true≢false (sym h ∙ k))

-- A unit ends where a start code begins.
pub Splits-here :
    (a b c d : ℕ) (r n : List ℕ) (k : ℕ)
    → Splits (a ∷ b ∷ c ∷ d ∷ r) n k
    → start_at a b c d ≡ true
    → (n ≡ []) × (k ≡ code_length c)
Splits-here a b c d r [] k s e = (refl, s.1)
Splits-here a b c d r (x ∷ n) k s e = true_or_false e s.1

pub Splits-next :
    (a b c d : ℕ) (r n : List ℕ) (k : ℕ)
    → Splits (a ∷ b ∷ c ∷ d ∷ r) n k
    → start_at a b c d ≡ false
    → (m : List ℕ) × (n ≡ a ∷ m) × Splits (b ∷ c ∷ d ∷ r) m k
Splits-next a b c d r [] k s e = true_or_false s.0 e
Splits-next a b c d r (x ∷ n) k s e = (n, ap (λ t. t ∷ n) s.0, s.2)

-- After a byte above one, no start code begins at it or at the three bytes before it.
pub Splits-four :
    (a b c d : ℕ) (r n : List ℕ) (k : ℕ)
    → Splits (a ∷ b ∷ c ∷ d ∷ r) n k
    → start_at a b c d ≡ false
    → 1 < d
    → (m : List ℕ) × (n ≡ a ∷ b ∷ c ∷ d ∷ m) × Splits r m k
Splits-four a b c d [] n k s e h = let (m, _, t) = Splits-next a b c d [] n k s e in absurd t
Splits-four a b c d (x ∷ []) n k s e h =
    let (m, _, t) = Splits-next a b c d (x ∷ []) n k s e in
    let (m2, _, t2) = Splits-next b c d x [] m k t (ground arith) in absurd t2
Splits-four a b c d (x ∷ y ∷ []) n k s e h =
    let (m, _, t) = Splits-next a b c d (x ∷ y ∷ []) n k s e in
    let (m2, _, t2) = Splits-next b c d x (y ∷ []) m k t (ground arith) in
    let (m3, _, t3) = Splits-next c d x y [] m2 k t2 (ground arith) in absurd t3
Splits-four a b c d (x ∷ y ∷ z ∷ r) n k s e h =
    let (m, q, t) = Splits-next a b c d (x ∷ y ∷ z ∷ r) n k s e in
    let (m2, q2, t2) = Splits-next b c d x (y ∷ z ∷ r) m k t (ground arith) in
    let (m3, q3, t3) = Splits-next c d x y (z ∷ r) m2 k t2 (ground arith) in
    let (m4, q4, t4) = Splits-next d x y z r m3 k t3 (ground arith) in (m4, cc, t4)

-- A start code is found within four bytes.
pub Splits-long :
    (l n : List ℕ) (k : ℕ) → Splits l n k → (a b c d : ℕ) × (r : List ℕ) × (l ≡ a ∷ b ∷ c ∷ d ∷ r)
Splits-long [] n k s = absurd s
Splits-long (a ∷ []) n k s = absurd s
Splits-long (a ∷ b ∷ []) n k s = absurd s
Splits-long (a ∷ b ∷ c ∷ []) n k s = absurd s
Splits-long (a ∷ b ∷ c ∷ d ∷ r) n k s = (a, b, c, d, r, refl)
