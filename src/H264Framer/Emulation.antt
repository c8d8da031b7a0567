-- ===== src/H264Framer/Emulation.antt =====
-- livemedia/h264_video_stream_framer_linux_amd64.go: `removeEmulationBytes`, the bytes 03 that an
-- encoder puts behind two zeros, and the walk over an SEI unit.
use mathlib.Core.List.{append_assoc}
use dorsvr.Common.{
  ℕ, zero, suc, ◌+◌, ◌≤◌, ◌<◌, ◌≡◌, refl, sym, ap, subst, ◌∙◌, Bool, true, false, ◌&&◌, List, [],
  ◌∷◌, Option, none, some, length, get_elem?, write?, take, ltb, ◌==◌, ◌>>=◌, if◌then◌else◌, arith,
  ◌++◌, set, take-set_end, get_elem?-middle, length-append, le→ltb, lt→ltb, write?-in, length-set,
}

abbrev pub sps_max_size : ℕ
sps_max_size = 1000

abbrev pub sei_max_size : ℕ
sei_max_size = 5000

abbrev pub emulates : ℕ → ℕ → ℕ → Bool
emulates a b c = a == 0 && b == 0 && c == 3

-- The test of the loop: an operand of `&&` is read only where the one before it holds.
unfoldable pub is_emulation : List ℕ → ℕ → ℕ → Option Bool
is_emulation orig n i =
    if ltb (i + 2) n
    then (do
      a ← get_elem? orig i
      if a == 0
          then (get_elem? orig (i + 1) >>= λ b.
              if b == 0 then (get_elem? orig (i + 2) >>= λ c. some (c == 3)) else some false)
          else some false)
    else some false

-- The loop, from index `i` of the unit's `n` bytes on, with what is copied so far and its size.
unfoldable pub remove_loop : ℕ → List ℕ → ℕ → ℕ → List ℕ → ℕ → Option (List ℕ × ℕ)
unfolding is_emulation
remove_loop zero orig n i copied size = none
remove_loop (suc fuel) orig n i copied size = elim (ltb i n) [
  | false ↦ some (copied, size)
  | true ↦ is_emulation orig n i >>= λ emulation. get_elem? orig i >>= λ x.
      write? copied size x >>= λ c1. elim emulation [
        | false ↦ remove_loop fuel orig n (i + 1) c1 (size + 1)
        | true ↦ get_elem? orig (i + 1) >>= λ y.
            write? c1 (size + 1) y >>= λ c2. remove_loop fuel orig n (i + 3) c2 (size + 2)
      ]
]

-- `removeEmulationBytes` of the `n` bytes saved, into a slice that it fills from its start.
unfoldable pub remove_emulation_bytes : List ℕ → ℕ → List ℕ → ℕ → Option (List ℕ × ℕ)
unfolding remove_loop
remove_emulation_bytes orig n nal_unit_copy max_size =
    if ltb max_size n then some (nal_unit_copy, 0) else remove_loop (n + 1) orig n 0 nal_unit_copy 0

-- The bytes without emulation, as a list.
abbrev pub unescape : List ℕ → List ℕ
unescape (a ∷ b ∷ c ∷ r) = elim (emulates a b c) [
  | true ↦ a ∷ b ∷ unescape r
  | false ↦ a ∷ unescape (b ∷ c ∷ r)
]
unescape l = l

-- The outcome of the loop: it copies `out` behind the `size` bytes that are copied.
abbrev pub Copies : List ℕ → ℕ → List ℕ → Option (List ℕ × ℕ) → Type 0
Copies copied size out o =
    (copied' : List ℕ) × (o ≡ some (copied', size + length out))
    × (take (size + length out) copied' ≡ take size copied ++ out)
    × (length copied' ≡ length copied)

pub Copies-next :
    (copied : List ℕ) (size a : ℕ) (out : List ℕ) (o : Option (List ℕ × ℕ))
    → size < length copied
    → Copies (set copied size a) (size + 1) out o
    → Copies copied size (a ∷ out) o
Copies-next copied size a out o lt (copied', e, same, len) =
    let sum : size + 1 + length out ≡ size + suc (length out) = omega arith in
    (
      copied',
      e ∙ ap (λ t. some (copied', t)) sum,
      ap (λ t. take t copied') (sym sum)
          ∙ same
          ∙ ap (λ t. t ++ out) (take-set_end copied size a lt)
          ∙ append_assoc (take size copied) (a ∷ []) out,
      len ∙ length-set copied size a,
    )

pub elem_at :
    {A : Type 0} (orig pre r : List A) (a : A) (i : ℕ)
    → orig ≡ pre ++ a ∷ r
    → i ≡ length pre
    → get_elem? orig i ≡ some a
elem_at orig pre r a i e at =
    ap (λ o. get_elem? o i) e ∙ ap (get_elem? (pre ++ a ∷ r)) at ∙ get_elem?-middle pre a r

-- The same list, with its next element counted to the part that was read.
pub one_read :
    {A : Type 0} (orig pre r : List A) (a : A) → orig ≡ pre ++ a ∷ r → orig ≡ (pre ++ a ∷ []) ++ r
one_read orig pre r a e = e ∙ sym (append_assoc pre (a ∷ []) r)

pub read_length :
    {A : Type 0} (pre : List A) (a : A) (i : ℕ) → i ≡ length pre → i + 1 ≡ length (pre ++ a ∷ [])
read_length pre a i e = omega (arith, length-append pre (a ∷ []))

-- What the test sees: the next three bytes, where there are so many.
abbrev pub starts_emulation : List ℕ → Bool
starts_emulation (a ∷ b ∷ c ∷ r) = emulates a b c
starts_emulation _ = false

pub is_emulation_lem :
    (orig pre l post : List ℕ) (n i : ℕ)
    → orig ≡ pre ++ (l ++ post)
    → i ≡ length pre
    → n ≡ i + length l
    → is_emulation orig n i ≡ some (starts_emulation l)
unfolding is_emulation
is_emulation_lem orig pre [] post n i e at len = rw (le→ltb n (i + 2) (omega arith)) refl
is_emulation_lem orig pre (a ∷ []) post n i e at len = rw (le→ltb n (i + 2) (omega arith)) refl
is_emulation_lem orig pre (a ∷ b ∷ []) post n i e at len = rw (le→ltb n (i + 2) (omega arith)) refl
is_emulation_lem orig pre (a ∷ b ∷ c ∷ r) post n i e at len =
    rw
      (
        lt→ltb (i + 2) n (omega arith),
        elem_at orig pre (b ∷ c ∷ (r ++ post)) a i e at,
        elem_at orig (pre ++ a ∷ []) (c ∷ (r ++ post)) b (i + 1) e1 at1,
        elem_at orig ((pre ++ a ∷ []) ++ b ∷ []) (r ++ post) c (i + 2) e2 at2,
      )
      (ground arith)
  where
    e1 : orig ≡ (pre ++ a ∷ []) ++ (b ∷ c ∷ (r ++ post))
    e1 = one_read orig pre (b ∷ c ∷ (r ++ post)) a e

    at1 : i + 1 ≡ length (pre ++ a ∷ [])
    at1 = read_length pre a i at

    e2 : orig ≡ ((pre ++ a ∷ []) ++ b ∷ []) ++ (c ∷ (r ++ post))
    e2 = one_read orig (pre ++ a ∷ []) (c ∷ (r ++ post)) b e1

    at2 : i + 2 ≡ length ((pre ++ a ∷ []) ++ b ∷ [])
    at2 = omega (arith, read_length (pre ++ a ∷ []) b (i + 1) at1)

pub step_plain :
    (fuel n i size a : ℕ) (orig copied : List ℕ)
    → i < n
    → is_emulation orig n i ≡ some false
    → get_elem? orig i ≡ some a
    → size < length copied
    → remove_loop (suc fuel) orig n i copied size
      ≡ remove_loop fuel orig n (i + 1) (set copied size a) (size + 1)
unfolding remove_loop
step_plain fuel n i size a orig copied lt not_here at room =
    rw (remove_loop, lt→ltb i n lt, not_here, at, write?-in copied size a room) refl

pub step_emulation :
    (fuel n i size a b : ℕ) (orig copied : List ℕ)
    → i < n
    → is_emulation orig n i ≡ some true
    → get_elem? orig i ≡ some a
    → get_elem? orig (i + 1) ≡ some b
    → size + 1 < length copied
    → remove_loop (suc fuel) orig n i copied size
      ≡ remove_loop fuel orig n (i + 3) (set (set copied size a) (size + 1) b) (size + 1 + 1)
unfolding remove_loop
step_emulation fuel n i size a b orig copied lt here at at' room =
    rw
      (
        remove_loop,
        lt→ltb i n lt,
        here,
        at,
        write?-in copied size a (omega arith),
        at',
        write?-in (set copied size a) (size + 1) b (omega (arith, length-set copied size a)),
      )
      (ap (remove_loop fuel orig n (i + 3) (set (set copied size a) (size + 1) b)) (omega arith))

-- The loop copies the rest without its emulation bytes.
abbrev pub Removes : ℕ → Type 0
Removes fuel =
    (orig pre l post copied : List ℕ) (n i size : ℕ)
    → orig ≡ pre ++ (l ++ post)
    → i ≡ length pre
    → n ≡ i + length l
    → length l < fuel
    → size + length l ≤ length copied
    → Copies copied size (unescape l) (remove_loop fuel orig n i copied size)

-- One byte copied, and the rest.
pub plain-Removes :
    (fuel : ℕ) (orig pre l post copied : List ℕ) (n i size a : ℕ)
    → Removes fuel
    → orig ≡ pre ++ (a ∷ (l ++ post))
    → i ≡ length pre
    → n ≡ i + length (a ∷ l)
    → length (a ∷ l) < suc fuel
    → size + length (a ∷ l) ≤ length copied
    → is_emulation orig n i ≡ some false
    → Copies copied size (a ∷ unescape l) (remove_loop (suc fuel) orig n i copied size)
plain-Removes fuel orig pre l post copied n i size a removes e at len lt room not_here =
    Copies-next copied size a (unescape l) (remove_loop (suc fuel) orig n i copied size)
      (omega arith)
      (subst (Copies (set copied size a) (size + 1) (unescape l))
        (sym (
          step_plain fuel n i size a orig copied (omega arith) not_here
            (elem_at orig pre (l ++ post) a i e at) (omega arith)))
        (removes orig (pre ++ a ∷ []) l post (set copied size a) n (i + 1) (size + 1)
          (one_read orig pre (l ++ post) a e) (read_length pre a i at) (omega arith) (omega arith)
          (omega (arith, length-set copied size a))))
