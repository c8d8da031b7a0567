-- ===== src/Reordering/Chain.antt =====
-- The chain of packets, as the list of their places, and a packet linked into it.
use dorsvr.Common.{
  ℕ, suc, ◌≤◌, ◌<◌, ◌≡◌, ◌≢◌, refl, sym, ap, subst, ◌∙◌, List, [], ◌∷◌, Option, none, some, ltb,
  if◌then◌else◌, lt→ltb, le→ltb, eq→==, ne→==, arith, dec_lt,
}
use dorsvr.RtpPacket.{BufferedPacket}
use dorsvr.Reordering.{set_next}

abbrev pub Packets : Type 0
Packets = ℕ → BufferedPacket

abbrev pub num : Packets → ℕ → ℕ
num f r = (f r).rtp_seq_no

-- The packets that follow one another from `o` on.
abbrev pub IsChain : Packets → Option ℕ → List ℕ → Type 0
IsChain f o [] = o ≡ none
IsChain f o (r ∷ rs) = (o ≡ some r) × IsChain f (f r).next_packet rs

-- The numbers grow, from `m` on.
abbrev pub Increasing : Packets → ℕ → List ℕ → Type 0
Increasing f m [] = Unit {0}
Increasing f m (r ∷ rs) = (m ≤ num f r) × Increasing f (suc (num f r)) rs

-- No packet has the number of `r`.
abbrev pub IsNew : Packets → ℕ → List ℕ → Type 0
IsNew f r [] = Unit {0}
IsNew f r (q ∷ qs) = (num f q ≢ num f r) × IsNew f r qs

-- A packet put in its place.
abbrev pub insert_by_num : Packets → ℕ → List ℕ → List ℕ
insert_by_num f r [] = r ∷ []
insert_by_num f r (q ∷ qs) =
    if ltb (num f r) (num f q) then r ∷ q ∷ qs else q ∷ insert_by_num f r qs

-- The packets that it goes between.
abbrev pub split_at : Packets → ℕ → Option ℕ → List ℕ → Option ℕ × Option ℕ
split_at f r before [] = (before, none)
split_at f r before (q ∷ qs) =
    if ltb (num f r) (num f q) then (before, some q) else split_at f r (some q) qs

abbrev pub linked : Packets → ℕ → Option ℕ × Option ℕ → Packets
linked f r (none, after) = set_next f r after
linked f r (some q, after) = set_next (set_next f r after) q (some r)

ne_of_num : (f : Packets) (q r : ℕ) → num f q ≢ num f r → q ≢ r
ne_of_num f q r ne e = ne (ap (num f) e)

set_next-other : (f : Packets) (r : ℕ) (o : Option ℕ) (k : ℕ) → k ≢ r → set_next f r o k ≡ f k
set_next-other f r o k ne = rw (ne→== k r ne) refl

set_next_self : (f : Packets) (r : ℕ) (o : Option ℕ) → (set_next f r o r).next_packet ≡ o
set_next_self f r o = rw (eq→== r r refl) refl

-- A packet that is neither `r` nor the one before it keeps its successor.
module _ (f : Packets) (r q : ℕ) (after : Option ℕ) where
  both_other :
      (k : ℕ) → k ≢ r → k ≢ q → (linked f r (some q, after) k).next_packet ≡ (f k).next_packet
  both_other k ne ne' =
      ap (λ p. p.next_packet)
        (set_next-other (set_next f r after) q (some r) k ne' ∙ set_next-other f r after k ne)

  before-next : (linked f r (some q, after) q).next_packet ≡ some r
  before-next = set_next_self (set_next f r after) q (some r)

  new-next : r ≢ q → (linked f r (some q, after) r).next_packet ≡ after
  new-next ne =
      ap (λ p. p.next_packet) (set_next-other (set_next f r after) q (some r) r ne)
      ∙ set_next_self f r after

-- A chain whose packets keep their successors is a chain still; `r` is not in it.
IsChain-same :
    (f g : Packets) (r m : ℕ) (o : Option ℕ) (rs : List ℕ)
    → IsChain f o rs
    → Increasing f m rs
    → IsNew f r rs
    → ((k : ℕ) → m ≤ num f k → k ≢ r → (g k).next_packet ≡ (f k).next_packet)
    → IsChain g o rs
IsChain-same f g r m o [] c i new same = c
IsChain-same f g r m o (q ∷ qs) (e, c) (le, i) (ne, new) same = (
  e,
  subst (λ o'. IsChain g o' qs) (sym (same q le (ne_of_num f q r ne)))
      (IsChain-same f g r (suc (num f q)) (f q).next_packet qs c i new
        (λ k le' ne'. same k (omega arith) ne')),
)

-- A packet with a lower number than the one that the search starts behind keeps its successor.
untouched :
    (f : Packets) (r q : ℕ) (qs : List ℕ) (k : ℕ)
    → Increasing f (suc (num f q)) qs
    → k ≢ r
    → num f k < num f q
    → (linked f r (split_at f r (some q) qs) k).next_packet ≡ (f k).next_packet
untouched f r q [] k i ne lt = both_other f r q none k ne (ne_of_num f k q (omega arith))
untouched f r q (q' ∷ qs) k (le, i) ne lt = elim (dec_lt (num f r) (num f q')) [
  | yes here ↦
      rw (lt→ltb (num f r) (num f q') here)
        (both_other f r q (some q') k ne (ne_of_num f k q (omega arith)))
  | no on ↦
      rw (le→ltb (num f q') (num f r) (omega arith)) (untouched f r q' qs k i ne (omega arith))
]

-- The search starts behind a packet `q` with a lower number than that of `r`.
linked-behind :
    (f : Packets) (r q : ℕ) (qs : List ℕ)
    → IsChain f (f q).next_packet qs
    → Increasing f (suc (num f q)) qs
    → IsNew f r qs
    → num f q < num f r
    → IsChain
        (linked f r (split_at f r (some q) qs))
        (linked f r (split_at f r (some q) qs) q).next_packet
        (insert_by_num f r qs)
linked-behind f r q [] c i new lt =
    (before-next f r q none, new-next f r q none (ne_of_num f r q (omega arith)))
linked-behind f r q (q' ∷ qs) (e, c) (le, i) (ne, new) lt = elim (dec_lt (num f r) (num f q')) [
  | yes here ↦ rw (lt→ltb (num f r) (num f q') here) (
    before-next f r q (some q'),
    subst (λ o. IsChain (linked f r (some q, some q')) o (q' ∷ qs))
        (sym (new-next f r q (some q') (ne_of_num f r q (omega arith))))
        (IsChain-same f (linked f r (some q, some q')) r (suc (num f q)) (some q') (q' ∷ qs)
          (refl, c) (le, i) (ne, new)
          (λ k le' ne'. both_other f r q (some q') k ne' (ne_of_num f k q (omega arith)))),
  )
  | no on ↦ rw (le→ltb (num f q') (num f r) (omega arith)) (
    untouched f r q' qs q i (ne_of_num f q r (omega arith)) (omega arith) ∙ e,
    linked-behind f r q' qs c i new (omega arith),
  )
]

-- Where the chain begins once `r` is linked in.
abbrev pub new_head : Packets → ℕ → List ℕ → Option ℕ
new_head f r [] = some r
new_head f r (q ∷ qs) = if ltb (num f r) (num f q) then some r else some q

-- A new packet linked into a chain of growing numbers, at the place that the search finds.
pub linked-insert_by_num :
    (f : Packets) (r m : ℕ) (o : Option ℕ) (rs : List ℕ)
    → IsChain f o rs
    → Increasing f m rs
    → IsNew f r rs
    → IsChain (linked f r (split_at f r none rs)) (new_head f r rs) (insert_by_num f r rs)
linked-insert_by_num f r m o [] c i new = (refl, set_next_self f r none)
linked-insert_by_num f r m o (q ∷ qs) (e, c) (le, i) (ne, new) = elim (dec_lt (num f r) (num f q)) [
  | yes here ↦ rw (lt→ltb (num f r) (num f q) here) (
    refl,
    subst (λ o'. IsChain (set_next f r (some q)) o' (q ∷ qs)) (sym (set_next_self f r (some q)))
        (IsChain-same f (set_next f r (some q)) r m (some q) (q ∷ qs) (refl, c) (le, i) (ne, new)
          (λ k le' ne'. ap (λ p. p.next_packet) (set_next-other f r (some q) k ne'))),
  )
  | no on ↦
      rw (le→ltb (num f q) (num f r) (omega arith))
        (refl, linked-behind f r q qs c i new (omega arith))
]
