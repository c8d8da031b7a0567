-- ===== src/RtpPacket/Fields.antt =====
-- The masks of the header's first word.
use dorsvr.Common.{
  ℕ, ◌-◌, ◌*◌, ◌/◌, ◌%◌, ◌^◌, ◌≤◌, ◌<◌, ◌≡◌, refl, ap, ◌∙◌, bit_and, ◌>>>◌, arith, Bool, true,
  false, not, ◌==◌,
}
use dorsvr.RtpPacket.Spec.{RtpPacket, WellFormed, flag, has_padding, has_extension, first_word}
use dorsvr.Common.Bits.{bit_and_low, bit_and_field}

-- A field of `w` bits from bit `k` on.
field_at : (k w a : ℕ) → bit_and a ((2 ^ w - 1) * 2 ^ k) ≡ a / 2 ^ k % 2 ^ w * 2 ^ k
field_at k w a = bit_and_field k a (2 ^ w - 1) ∙ ap (λ t. t * 2 ^ k) (bit_and_low w (a / 2 ^ k))

flag-le : (b : Bool) → flag b ≤ 1
flag-le true = omega arith
flag-le false = omega arith

pub flag-test : (b : Bool) → not (flag b * 2 ^ 23 == 0) ≡ b
flag-test true = refl
flag-test false = refl

module _ (r : RtpPacket) (wf : WellFormed r) where
  abbrev word : ℕ
  word = first_word r

  hp : flag (has_padding r) ≤ 1
  hp = flag-le (has_padding r)

  hx : flag (has_extension r) ≤ 1
  hx = flag-le (has_extension r)

  hm : flag r.fields.marker ≤ 1
  hm = flag-le r.fields.marker

  pub word_fits : word < 2 ^ 32
  word_fits = omega (arith, hp, hx, hm)

  pub version_field : bit_and word 0xc0000000 ≡ 0x80000000
  version_field = field_at 30 2 word ∙ omega (arith, hp, hx, hm)

  pub padding_field : bit_and word 0x20000000 ≡ flag (has_padding r) * 2 ^ 29
  padding_field = field_at 29 1 word ∙ omega (arith, hp, hx, hm)

  pub extension_field : bit_and word 0x10000000 ≡ flag (has_extension r) * 2 ^ 28
  extension_field = field_at 28 1 word ∙ omega (arith, hp, hx, hm)

  pub count_field : bit_and (word >>> 24) 0xf ≡ r.csrc_count
  count_field = bit_and_low 4 (word / 2 ^ 24) ∙ omega (arith, hp, hx, hm)

  pub marker_field : bit_and word 0x00800000 ≡ flag r.fields.marker * 2 ^ 23
  marker_field = field_at 23 1 word ∙ omega (arith, hp, hx, hm)

  pub payload_type_field : bit_and word 0x007f0000 >>> 16 ≡ r.payload_type
  payload_type_field = ap (λ t. t >>> 16) (field_at 16 7 word) ∙ omega (arith, hp, hx, hm)

  pub seq_no_field : bit_and word 0xffff ≡ r.fields.seq_no
  seq_no_field = bit_and_low 16 word ∙ omega (arith, hp, hx, hm)
