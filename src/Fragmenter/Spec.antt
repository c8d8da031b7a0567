-- ===== src/Fragmenter/Spec.antt =====
-- RFC 6184 without the code: how a NAL unit is cut into FU-A fragments of at most `size` bytes, and how
-- a receiver puts one together again. Bytes are split by arithmetic.
use dorsvr.Common.{
  ℕ, zero, suc, ◌+◌, ◌-◌, ◌*◌, ◌/◌, ◌%◌, List, [], ◌∷◌, ◌++◌, Option, none, some, ◌>>=◌, length,
  take, drop, leb, ◌==◌, ◌&&◌, if◌then◌else◌,
}

-- The FU indicator of a NAL header: its NRI bits, and the type 28. The FU header holds the type.
abbrev pub fu_indicator : ℕ → ℕ
fu_indicator nal_header = nal_header / 32 * 32 + 28

abbrev pub nal_type : ℕ → ℕ
nal_type nal_header = nal_header % 32

-- The fragments behind the first one: the rest is cut at `chunk` bytes, and the last has the E bit.
-- Each round takes at least a byte, so the bytes left are fuel enough.
unfoldable pub later_fragments : ℕ → ℕ → ℕ → ℕ → List ℕ → List (List ℕ)
later_fragments zero chunk indicator header rest = []
later_fragments (suc fuel) chunk indicator header rest =
    let more =
      (indicator ∷ header ∷ take chunk rest)
      ∷ later_fragments fuel chunk indicator header (drop chunk rest) in
    if leb (length rest) chunk then (indicator ∷ (header + 64) ∷ rest) ∷ [] else more

-- The unit of the header `h` and the bytes `body`, as one frame or as fragments.
unfoldable pub fragments : ℕ → ℕ → List ℕ → List (List ℕ)
unfolding later_fragments
fragments size h body =
    if leb (length body + 1) size
    then (h ∷ body) ∷ []
    else (fu_indicator h ∷ (128 + nal_type h) ∷ take (size - 2) body)
      ∷ later_fragments (length body) (size - 2) (fu_indicator h) (nal_type h)
          (drop (size - 2) body)

-- The receiver, within a unit: a fragment has the same indicator and type, no S bit, and the last one
-- the E bit.
unfoldable pub collect : ℕ → ℕ → List (List ℕ) → Option (List ℕ)
collect indicator header ((i ∷ h ∷ body) ∷ frames) =
    let more = collect indicator header frames >>= λ rest. some (body ++ rest) in
    if i == indicator && h == header + 64
    then elim frames [ [] ↦ some body | _ ∷ _ ↦ none ]
    else if i == indicator && h == header
    then more
    else none
collect indicator header _ = none

-- The receiver: a frame of another type than 28 is a unit, and a fragment with the S bit opens one.
unfoldable pub reassemble : List (List ℕ) → Option (List ℕ)
unfolding collect
reassemble ((i ∷ []) ∷ []) = some (i ∷ [])
reassemble ((i ∷ h ∷ body) ∷ frames) =
    if i % 32 == 28
    then if h / 64 == 2
      then (collect i (h % 32) frames >>= λ rest. some ((i / 32 * 32 + h % 32) ∷ body ++ rest))
      else none
    else elim frames [ [] ↦ some (i ∷ h ∷ body) | _ ∷ _ ↦ none ]
reassemble _ = none
