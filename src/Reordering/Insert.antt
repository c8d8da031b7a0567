-- ===== src/Reordering/Insert.antt =====
-- The list with a packet in its place: its order, its last packet, and the place.
use dorsvr.Common.{
  ℕ, suc, ◌+◌, ◌≤◌, ◌<◌, ◌≡◌, ◌≢◌, refl, sym, subst, ◌∙◌, List, [], ◌∷◌, Option, none, some, lt→ltb,
  le→ltb, arith, dec_lt, All,
}
use dorsvr.Reordering.{set_next}
use dorsvr.Reordering.Chain.{Packets, num, Increasing, IsNew, insert_by_num, split_at, linked}
use dorsvr.Reordering.Release.{set_next-SameNumbers}

abbrev pub last_from : ℕ → List ℕ → ℕ
last_from q [] = q
last_from q (q' ∷ qs) = last_from q' qs

abbrev pub last_of : List ℕ → Option ℕ
last_of [] = none
last_of (q ∷ qs) = some (last_from q qs)

pub first-le-last :
    (f : Packets) (m q : ℕ) (qs : List ℕ)
    → Increasing f m (q ∷ qs)
    → num f q ≤ num f (last_from q qs)
first-le-last f m q [] i = omega arith
first-le-last f m q (q' ∷ qs) (le, (le', i)) =
    omega (arith, first-le-last f (suc (num f q)) q' qs (le', i))

-- A packet behind the last one.
pub split_at-last :
    (f : Packets) (r m q : ℕ) (qs : List ℕ)
    → Increasing f m (q ∷ qs)
    → num f (last_from q qs) < num f r
    → (split_at f r (some q) qs ≡ (some (last_from q qs), none))
      × (last_from q (insert_by_num f r qs) ≡ r)
split_at-last f r m q [] i lt = (refl, refl)
split_at-last f r m q (q' ∷ qs) (le, i) lt =
    rw (le→ltb (num f q') (num f r) (omega (arith, first-le-last f (suc (num f q)) q' qs i)))
      (split_at-last f r (suc (num f q)) q' qs i lt)

-- A packet in front of the last one, behind the first one.
pub last_from-insert_by_num :
    (f : Packets) (r q : ℕ) (qs : List ℕ)
    → IsNew f r qs
    → num f q < num f r
    → num f r < num f (last_from q qs)
    → last_from q (insert_by_num f r qs) ≡ last_from q qs
last_from-insert_by_num f r q [] new lt gt = absurd (omega arith)
last_from-insert_by_num f r q (q' ∷ qs) (ne, new) lt gt = elim (dec_lt (num f r) (num f q')) [
  | yes here ↦ rw (lt→ltb (num f r) (num f q') here) refl
  | no on ↦
      rw (le→ltb (num f q') (num f r) (omega arith))
        (last_from-insert_by_num f r q' qs new (omega arith) gt)
]

pub Increasing-insert_by_num :
    (f : Packets) (r m : ℕ) (rs : List ℕ)
    → Increasing f m rs
    → IsNew f r rs
    → m ≤ num f r
    → Increasing f m (insert_by_num f r rs)
Increasing-insert_by_num f r m [] i new le = (le, tt)
Increasing-insert_by_num f r m (q ∷ qs) (le', i) (ne, new) le = elim (dec_lt (num f r) (num f q)) [
  | yes here ↦ rw (lt→ltb (num f r) (num f q) here) (le, (here, i))
  | no on ↦
      rw (le→ltb (num f q) (num f r) (omega arith))
        (le', Increasing-insert_by_num f r (suc (num f q)) qs i new (omega arith))
]

pub window-insert_by_num :
    (f : Packets) (r hi : ℕ) (rs : List ℕ)
    → All (λ q. num f q < hi) rs
    → num f r < hi
    → All (λ q. num f q < hi) (insert_by_num f r rs)
window-insert_by_num f r hi [] w lt = (lt, tt)
window-insert_by_num f r hi (q ∷ qs) (lt', w) lt = elim (dec_lt (num f r) (num f q)) [
  | yes here ↦ rw (lt→ltb (num f r) (num f q) here) (lt, (lt', w))
  | no on ↦ rw (le→ltb (num f q) (num f r) (omega arith)) (lt', window-insert_by_num f r hi qs w lt)
]

-- Links do not change numbers.
pub linked-num :
    (f : Packets) (r : ℕ) (at : Option ℕ × Option ℕ) (k : ℕ) → num (linked f r at) k ≡ num f k
linked-num f r (none, after) k = set_next-SameNumbers f r after k
linked-num f r (some q, after) k =
    set_next-SameNumbers (set_next f r after) q (some r) k ∙ set_next-SameNumbers f r after k

pub Increasing-num :
    (f g : Packets) (m : ℕ) (rs : List ℕ)
    → ((k : ℕ) → num g k ≡ num f k)
    → Increasing f m rs
    → Increasing g m rs
Increasing-num f g m [] same i = tt
Increasing-num f g m (q ∷ qs) same (le, i) = (
  omega (arith, same q),
  subst (λ n. Increasing g (suc n) qs) (sym (same q))
      (Increasing-num f g (suc (num f q)) qs same i),
)

pub window-num :
    (f g : Packets) (hi : ℕ) (rs : List ℕ)
    → ((k : ℕ) → num g k ≡ num f k)
    → All (λ q. num f q < hi) rs
    → All (λ q. num g q < hi) rs
window-num f g hi [] same w = tt
window-num f g hi (q ∷ qs) same (lt, w) = (omega (arith, same q), window-num f g hi qs same w)

pub within_range :
    (f : Packets) (n m : ℕ) (rs : List ℕ)
    → Increasing f m rs
    → n ≤ m
    → All (λ q. num f q < n + 0x8000) rs
    → All (λ q. (n ≤ num f q) × (num f q < n + 0x8000)) rs
within_range f n m [] i le w = tt
within_range f n m (q ∷ qs) (le', i) le (lt, w) =
    ((omega arith, lt), within_range f n (suc (num f q)) qs i (omega arith) w)

pub at_last : (P : ℕ → Type 0) (q : ℕ) (qs : List ℕ) → All P (q ∷ qs) → P (last_from q qs)
at_last P q [] (p, ps) = p
at_last P q (q' ∷ qs) (p, ps) = at_last P q' qs ps

pub split_at-some :
    (f : Packets) (r q : ℕ) (qs : List ℕ)
    → (z : ℕ) × (after : Option ℕ) × (split_at f r (some q) qs ≡ (some z, after))
split_at-some f r q [] = (q, none, refl)
split_at-some f r q (q' ∷ qs) = elim (dec_lt (num f r) (num f q')) [
  | yes here ↦ (q, some q', rw (lt→ltb (num f r) (num f q') here) refl)
  | no on ↦ rw (le→ltb (num f q') (num f r) (omega arith)) (split_at-some f r q' qs)
]

pub IsNew-last :
    (f : Packets) (r q : ℕ) (qs : List ℕ) → IsNew f r (q ∷ qs) → num f (last_from q qs) ≢ num f r
IsNew-last f r q [] (ne, new) = ne
IsNew-last f r q (q' ∷ qs) (ne, new) = IsNew-last f r q' qs new
