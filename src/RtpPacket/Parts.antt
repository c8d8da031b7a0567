-- ===== src/RtpPacket/Parts.antt =====
-- Each part of a packet behind the fixed header is skipped, or taken off its end.
use mathlib.Core.List.{append_assoc, append-nil}
use dorsvr.Common.{
  ℕ, zero, suc, ◌+◌, ◌-◌, ◌*◌, ◌%◌, ◌^◌, ◌<◌, ◌≡◌, refl, sym, subst, ◌∙◌, List, [], ◌∷◌, ◌++◌,
  Option, none, some, length, length-append, length-replicate, replicate, bit_and, le→ltb, ne→==,
  arith,
}
use dorsvr.Common.Bits.{bit_and_low}
use dorsvr.Binary.{put_uint32}
use dorsvr.RtpPacket.{BufferedPacket, Parsed, skip_csrcs, skip_extension, discard_padding}
use dorsvr.RtpPacket.Spec.{Holds, Extension, ExtensionFits, extension_bytes, padding_bytes}
use dorsvr.RtpPacket.Window.{
  data_size-eq, skip-eq, skip-Holds, remove_padding-eq, remove_padding-Holds, ntohl-eq, last_byte,
  length-put_uint32,
}

-- A check that goes on, with a packet that holds the bytes left.
abbrev pub Passes : ((BufferedPacket → Parsed) → Parsed) → List ℕ → Type 0
Passes check rest =
    (p' : BufferedPacket) × ((behind : BufferedPacket → Parsed) → check behind ≡ behind p')
    × Holds p' rest

pub skip_csrcs-Passes :
    (p : BufferedPacket) (cc : ℕ) (csrcs rest : List ℕ)
    → Holds p (csrcs ++ rest)
    → length csrcs ≡ 4 * cc
    → cc < 2 ^ 4
    → Passes (skip_csrcs p cc) rest
unfolding skip_csrcs
skip_csrcs-Passes p cc csrcs rest h len lt = (
  record p { head = p.head + cc * 4 },
  λ behind.
      rw
        (
          data_size-eq p h,
          le→ltb cc (length (csrcs ++ rest)) (omega (arith, length-append csrcs rest)),
          size,
          skip-eq p (cc * 4) h (omega (arith, length-append csrcs rest)),
        )
        refl,
  skip-Holds p (cc * 4) csrcs rest h (omega arith),
)
  where
    size : cc * 4 % 2 ^ 32 ≡ cc * 4
    size = omega arith

pub skip_extension-Passes :
    (p : BufferedPacket) (hdr : ℕ) (x : Option Extension) (rest : List ℕ)
    → Holds p (extension_bytes x ++ rest)
    → ExtensionFits x
    → bit_and hdr 0x10000000 ≡ elim x [ none ↦ 0 | some _ ↦ 0x10000000 ]
    → Passes (skip_extension p hdr) rest
unfolding skip_extension
skip_extension-Passes p hdr none rest h fits bit = (p, λ behind. rw bit refl, h)
skip_extension-Passes p hdr (some x) rest h (profile, words, len) bit = (
  record p { head = p.head + 4 + 4 * x.words },
  λ behind.
      rw
        (
          bit,
          data_size-eq p h',
          le→ltb 4 (length (put_uint32 word ++ (x.content ++ rest)))
              (omega (arith, sized, length-put_uint32 word)),
          skip-eq p 4 h' (omega (arith, sized, length-put_uint32 word)),
          ntohl-eq p word (x.content ++ rest) h' (omega arith),
          low,
          data_size-eq (record p { head = p.head + 4 }) h1,
          le→ltb (4 * x.words) (length (x.content ++ rest))
              (omega (arith, length-append x.content rest)),
          skip-eq (record p { head = p.head + 4 }) (4 * x.words) h1
              (omega (arith, length-append x.content rest)),
        )
        refl,
  skip-Holds (record p { head = p.head + 4 }) (4 * x.words) x.content rest h1 (omega arith),
)
  where
    word : ℕ
    word = x.profile * 2 ^ 16 + x.words

    sized :
        length (put_uint32 word ++ (x.content ++ rest))
        ≡ length (put_uint32 word) + length (x.content ++ rest)
    sized = length-append (put_uint32 word) (x.content ++ rest)

    h' : Holds p (put_uint32 word ++ (x.content ++ rest))
    h' = subst (Holds p) (append_assoc (put_uint32 word) x.content rest) h

    h1 : Holds (record p { head = p.head + 4 }) (x.content ++ rest)
    h1 =
        skip-Holds p 4 (put_uint32 word) (x.content ++ rest) h'
          (omega (arith, length-put_uint32 word))

    low : bit_and word 0xffff ≡ x.words
    low = bit_and_low 16 word ∙ omega arith

pub discard_padding-Passes :
    (p : BufferedPacket) (hdr n : ℕ) (rest : List ℕ)
    → Holds p (rest ++ padding_bytes n)
    → n < 2 ^ 8
    → bit_and hdr 0x20000000 ≡ elim n [ zero ↦ 0 | suc _ ↦ 0x20000000 ]
    → Passes (discard_padding p hdr) rest
unfolding discard_padding
discard_padding-Passes p hdr zero rest h lt bit =
    (p, λ behind. rw bit refl, subst (Holds p) (append-nil rest) h)
discard_padding-Passes p hdr (suc n) rest h lt bit = (
  record p { tail = p.tail - suc n },
  λ behind.
      rw
        (
          bit,
          data_size-eq p h',
          ne→== (length ((rest ++ replicate n 0) ++ (suc n ∷ []))) 0 (omega (arith, sized)),
          last_byte p (rest ++ replicate n 0) (suc n) h',
          data_size-eq p h',
          le→ltb (suc n) (length ((rest ++ replicate n 0) ++ (suc n ∷ []))) (
              omega
                (arith, sized, length-append rest (replicate n 0), length-replicate {A = ℕ} n 0)),
          remove_padding-eq p (suc n) h' (
              omega
                (arith, sized, length-append rest (replicate n 0), length-replicate {A = ℕ} n 0)),
        )
        refl,
  remove_padding-Holds p (suc n) rest (padding_bytes (suc n)) h
      (omega (arith, length-append (replicate n 0) (suc n ∷ []), length-replicate {A = ℕ} n 0)),
)
  where
    h' : Holds p ((rest ++ replicate n 0) ++ (suc n ∷ []))
    h' = subst (Holds p) (sym (append_assoc rest (replicate n 0) (suc n ∷ []))) h

    sized : length ((rest ++ replicate n 0) ++ (suc n ∷ [])) ≡ length (rest ++ replicate n 0) + 1
    sized = length-append (rest ++ replicate n 0) (suc n ∷ [])
