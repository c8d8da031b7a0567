-- ===== src/Common/Text.antt =====
-- Go's strings as lists of bytes, with the tests and the functions of the `strings` package that are used.
use Prim.Native.Nat.{ℕ, ◌+◌}
use Prim.Native.Char.{code}
use Prim.Native.String.{String}
use mathlib.Core.Path.{◌≡◌, refl, ap₂}
use mathlib.Core.Logic.{inl, inr}
use mathlib.Core.Bool.{Bool, true, false, ◌&&◌}
use mathlib.Core.List.{List, [], ◌∷◌, map}
use dorsvr.Common.Tests.{leb, ◌==◌, if◌then◌else◌, ==→eq, eq→==, Bool-cases}

abbrev pub Text : Type 0
Text = List ℕ

-- The bytes of a literal.
abbrev pub codes : String → Text
codes String.[] = []
codes (String.◌∷◌ c s) = code c ∷ codes s

unfoldable pub text_eq : Text → Text → Bool
text_eq [] [] = true
text_eq [] (y ∷ ys) = false
text_eq (x ∷ xs) [] = false
text_eq (x ∷ xs) (y ∷ ys) = x == y && text_eq xs ys

abbrev pub is_empty : Text → Bool
is_empty [] = true
is_empty (x ∷ xs) = false

unfoldable pub to_lower : ℕ → ℕ
to_lower c = if leb b'A' c && leb c b'Z' then c + 32 else c

-- `strings.EqualFold`, of ASCII texts.
unfoldable pub equal_fold : Text → Text → Bool
equal_fold s t = text_eq (map to_lower s) (map to_lower t)

-- `strings.Split` by one byte: the part before its first occurrence, and the parts behind.
abbrev pub add_to_first : ℕ → List Text → List Text
add_to_first c [] = (c ∷ []) ∷ []
add_to_first c (part ∷ parts) = (c ∷ part) ∷ parts

unfoldable pub split : ℕ → Text → List Text
split sep [] = [] ∷ []
split sep (c ∷ s) = if c == sep then [] ∷ split sep s else add_to_first c (split sep s)

pub text_eq→eq : (s t : Text) → text_eq s t ≡ true → s ≡ t
unfolding text_eq
text_eq→eq [] [] h = refl
text_eq→eq [] (y ∷ ys) h = cc
text_eq→eq (x ∷ xs) [] h = cc
text_eq→eq (x ∷ xs) (y ∷ ys) h = elim (Bool-cases (x == y)) [
  | inl e ↦ ap₂ (λ a b. a ∷ b) (==→eq x y e) (text_eq→eq xs ys (rw e at h))
  | inr e ↦ let h' : false ≡ true = rw e at h in cc
]

pub text_eq_refl : (s : Text) → text_eq s s ≡ true
unfolding text_eq
text_eq_refl [] = refl
text_eq_refl (x ∷ xs) = rw (eq→== x x refl) (text_eq_refl xs)

-- A Go map from texts, with its deletion.
module _ {ℓ} {V : Type ℓ} where
  unfoldable pub put : (Text → V) → Text → V → Text → V
  put m k v j = if text_eq j k then v else m j

  pub put_self : (m : Text → V) (k : Text) (v : V) → put m k v k ≡ v
  unfolding put
  put_self m k v = rw (text_eq_refl k)

  pub put_ne : (m : Text → V) (k j : Text) (v : V) → text_eq j k ≡ false → put m k v j ≡ m j
  unfolding put
  put_ne m k j v h = rw h

-- A store of objects by their places.
module _ {ℓ} {V : Type ℓ} where
  unfoldable pub store : (ℕ → V) → ℕ → V → ℕ → V
  store m p v q = if q == p then v else m q

  pub store_self : (m : ℕ → V) (p : ℕ) (v : V) → store m p v p ≡ v
  unfolding store
  store_self m p v = rw (eq→== p p refl)
