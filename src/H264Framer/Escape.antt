-- ===== src/H264Framer/Escape.antt =====
-- livemedia/h264_video_stream_framer_linux_amd64.go: `removeEmulationBytes` undoes what an encoder
-- does.
use mathlib.Core.List.{append-nil}
use dorsvr.Common.{
  ℕ, zero, suc, ◌+◌, ◌≤◌, ◌<◌, ◌≡◌, refl, sym, ap, subst, ◌∙◌, true, false, ◌&&◌, List, [], ◌∷◌,
  ◌++◌, Option, some, length, take, set, leb, ◌==◌, Bool-cases, inl, inr, arith, le→ltb, length-set,
}
use dorsvr.H264Framer.Emulation.{
  emulates, is_emulation, remove_loop, remove_emulation_bytes, unescape, Copies, Copies-next,
  one_read, read_length, elem_at, is_emulation_lem, step_emulation, Removes, plain-Removes,
}

-- What an encoder does: after two zeros, a byte up to 03 is written behind an 03.
abbrev pub escape : List ℕ → List ℕ
escape (a ∷ b ∷ c ∷ r) = elim (a == 0 && b == 0 && leb c 3) [
  | true ↦ a ∷ b ∷ 3 ∷ escape (c ∷ r)
  | false ↦ a ∷ escape (b ∷ c ∷ r)
]
escape l = l

abbrev pub HeadIs : ℕ → List ℕ → Type 0
HeadIs c l = (r : List ℕ) × (l ≡ c ∷ r)

pub escape-HeadIs : (c : ℕ) (r : List ℕ) → HeadIs c (escape (c ∷ r))
escape-HeadIs c [] = ([], refl)
escape-HeadIs c (d ∷ []) = (d ∷ [], refl)
escape-HeadIs c (d ∷ x ∷ r) = elim (Bool-cases (c == 0 && d == 0 && leb x 3)) [
  | inl t ↦ (d ∷ 3 ∷ escape (x ∷ r), rw (escape, t) refl)
  | inr f ↦ (escape (d ∷ x ∷ r), rw (escape, f) refl)
]

-- A byte before a unit without emulation.
unescape-next :
    (a b c : ℕ) (r : List ℕ)
    → emulates a b c ≡ false
    → unescape (a ∷ b ∷ c ∷ r) ≡ a ∷ unescape (b ∷ c ∷ r)
unescape-next a b c r e = rw (unescape, e) refl

behind :
    (a b c : ℕ) (r : List ℕ)
    → (a == 0 && b == 0 && leb c 3) ≡ false
    → unescape (a ∷ escape (b ∷ c ∷ r)) ≡ a ∷ unescape (escape (b ∷ c ∷ r))
behind a b c [] e = unescape-next a b c [] (ground arith)
behind a b c (d ∷ r) e = elim (Bool-cases (b == 0 && c == 0 && leb d 3)) [
  | inl t ↦ rw (escape, t) (unescape-next a b c (3 ∷ escape (d ∷ r)) (ground arith))
  | inr f ↦
      let (rest, q) = escape-HeadIs c (d ∷ r) in
      rw (escape, f)
        (subst (λ t. unescape (a ∷ b ∷ t) ≡ a ∷ unescape (b ∷ t)) (sym q)
          (unescape-next a b c rest (ground arith)))
]

unescape-escape : (l : List ℕ) → unescape (escape l) ≡ l
unescape-escape [] = refl
unescape-escape (a ∷ []) = refl
unescape-escape (a ∷ b ∷ []) = refl
unescape-escape (a ∷ b ∷ c ∷ r) =
    let one_on = unescape-escape (b ∷ c ∷ r) in
    let two_on = unescape-escape (c ∷ r) in
    elim (Bool-cases (a == 0 && b == 0 && leb c 3)) [
      | inl t ↦ rw (escape, t) (rw (unescape, marked a b c t) (ap (λ z. a ∷ b ∷ z) two_on))
      | inr f ↦ rw (escape, f) (behind a b c r f ∙ ap (λ z. a ∷ z) one_on)
    ]
  where
    marked : (a b c : ℕ) → (a == 0 && b == 0 && leb c 3) ≡ true → emulates a b 3 ≡ true
    marked a b c e = ground arith

-- Two bytes copied, and the rest behind the emulation byte.
emulation-Removes :
    (fuel : ℕ) (orig pre r post copied : List ℕ) (n i size a b c : ℕ)
    → Removes fuel
    → orig ≡ pre ++ (a ∷ b ∷ c ∷ (r ++ post))
    → i ≡ length pre
    → n ≡ i + suc (suc (suc (length r)))
    → suc (suc (suc (length r))) < suc fuel
    → size + suc (suc (suc (length r))) ≤ length copied
    → is_emulation orig n i ≡ some true
    → Copies copied size (a ∷ b ∷ unescape r) (remove_loop (suc fuel) orig n i copied size)
emulation-Removes fuel orig pre r post copied n i size a b c removes e at len lt room here =
    Copies-next copied size a (b ∷ unescape r) o (omega arith) (
      Copies-next c1 (size + 1) b (unescape r) o (omega (arith, length-set copied size a)) (
        subst (Copies (set c1 (size + 1) b) (size + 1 + 1) (unescape r))
          (sym (
            step_emulation fuel n i size a b orig copied (omega arith) here
              (elem_at orig pre (b ∷ c ∷ (r ++ post)) a i e at)
              (elem_at orig pre1 (c ∷ (r ++ post)) b (i + 1) e1 at1) (omega arith)))
          (removes orig (pre2 ++ c ∷ []) r post (set c1 (size + 1) b) n (i + 3) (size + 1 + 1)
            (one_read orig pre2 (r ++ post) c e2)
            (omega (arith, read_length pre2 c (i + 1 + 1) at2)) (omega arith) (omega arith)
            (omega (arith, length-set copied size a, length-set c1 (size + 1) b)))))
  where
    o : Option (List ℕ × ℕ)
    o = remove_loop (suc fuel) orig n i copied size

    c1 : List ℕ
    c1 = set copied size a

    pre1 : List ℕ
    pre1 = pre ++ a ∷ []

    pre2 : List ℕ
    pre2 = pre1 ++ b ∷ []

    e1 : orig ≡ pre1 ++ (b ∷ c ∷ (r ++ post))
    e1 = one_read orig pre (b ∷ c ∷ (r ++ post)) a e

    e2 : orig ≡ pre2 ++ (c ∷ (r ++ post))
    e2 = one_read orig pre1 (c ∷ (r ++ post)) b e1

    at1 : i + 1 ≡ length pre1
    at1 = read_length pre a i at

    at2 : i + 1 + 1 ≡ length pre2
    at2 = read_length pre1 b (i + 1) at1

pub remove_loop-Removes : (fuel : ℕ) → Removes fuel
unfolding remove_loop
remove_loop-Removes zero orig pre l post copied n i size e at len lt room = absurd (omega arith)
remove_loop-Removes (suc fuel) orig pre [] post copied n i size e at len lt room = (
  copied,
  rw (remove_loop, le→ltb n i (omega arith)) (ap (λ t. some (copied, t)) (omega arith)),
  ap (λ t. take t copied) {y = size} (omega arith) ∙ sym (append-nil (take size copied)),
  refl,
)
remove_loop-Removes (suc fuel) orig pre (a ∷ []) post copied n i size e at len lt room =
    plain-Removes fuel orig pre [] post copied n i size a (remove_loop-Removes fuel) e at len lt
      room (is_emulation_lem orig pre (a ∷ []) post n i e at len)
remove_loop-Removes (suc fuel) orig pre (a ∷ b ∷ []) post copied n i size e at len lt room =
    plain-Removes fuel orig pre (b ∷ []) post copied n i size a (remove_loop-Removes fuel) e at len
      lt room (is_emulation_lem orig pre (a ∷ b ∷ []) post n i e at len)
remove_loop-Removes (suc fuel) orig pre (a ∷ b ∷ c ∷ r) post copied n i size e at len lt room =
    let test = is_emulation_lem orig pre (a ∷ b ∷ c ∷ r) post n i e at len in
    elim (Bool-cases (emulates a b c)) [
      | inl t ↦
          rw (unescape, t)
            (emulation-Removes fuel orig pre r post copied n i size a b c (remove_loop-Removes fuel)
              e at len lt room (test ∙ ap some t))
      | inr f ↦
          rw (unescape, f)
            (plain-Removes fuel orig pre (b ∷ c ∷ r) post copied n i size a
              (remove_loop-Removes fuel) e at len lt room (test ∙ ap some f))
    ]

-- `removeEmulationBytes` undoes what an encoder does to a unit. For a unit `nal` that is written with
-- emulation bytes at the start of the buffer, and fits `maxSize` and the slice it is copied to, the
-- code does not panic: it returns the unit's size, and the slice starts with the unit.
pub remove_emulation_bytes-escape :
    (nal post out : List ℕ) (max_size : ℕ)
    → length (escape nal) ≤ max_size
    → max_size ≤ length out
    → (out' : List ℕ) × (remove_emulation_bytes
          (escape nal ++ post)
          (length (escape nal))
          out
          max_size
        ≡ some (out', length nal))
      × (take (length nal) out' ≡ nal)
unfolding remove_emulation_bytes
remove_emulation_bytes-escape nal post out max_size fits room =
    let (out', e, same, _) =
      remove_loop-Removes (length coded + 1) (coded ++ post) [] coded post out (length coded) 0 0
        refl refl (omega arith) (omega arith) (omega arith) in
    (
      out',
      rw (le→ltb (length coded) max_size fits) (e ∙ ap (λ t. some (out', t)) original),
      ap (λ t. take t out') (sym original) ∙ same ∙ unescape-escape nal,
    )
  where
    coded : List ℕ
    coded = escape nal

    original : 0 + length (unescape coded) ≡ length nal
    original = omega (arith, ap length (unescape-escape nal))
