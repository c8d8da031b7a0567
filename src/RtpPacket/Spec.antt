-- ===== src/RtpPacket/Spec.antt =====
-- RFC 3550, section 5.1, without the code: the bytes of an RTP packet.
use dorsvr.Common.{
  ℕ, zero, suc, ◌+◌, ◌*◌, ◌^◌, ◌≤◌, ◌<◌, ◌≡◌, Bool, true, false, List, [], ◌∷◌, ◌++◌, Option, none,
  some, length, replicate, take, drop, if◌then◌else◌,
}
use dorsvr.Binary.{put_uint32}
use dorsvr.RtpPacket.{BufferedPacket, RtpFields}

abbrev pub flag : Bool → ℕ
flag b = if b then 1 else 0

-- The extension: a word of the profile and the count of the words that follow.
pub record Extension : Type 0 where
  pub profile : ℕ
  pub words : ℕ
  pub content : List ℕ

pub record RtpPacket : Type 0 where
  pub fields : RtpFields
  pub payload_type : ℕ
  pub csrc_count : ℕ
  pub csrcs : List ℕ
  pub extension : Option Extension
  pub payload : List ℕ
  -- The bytes of padding, none or with their count in the last one.
  pub padding : ℕ

abbrev pub has_extension : RtpPacket → Bool
has_extension r = elim r.extension [ none ↦ false | some _ ↦ true ]

abbrev pub has_padding : RtpPacket → Bool
has_padding r = elim r.padding [ zero ↦ false | suc _ ↦ true ]

abbrev pub first_word : RtpPacket → ℕ
first_word r =
    2 * 2 ^ 30
    + flag (has_padding r) * 2 ^ 29
    + flag (has_extension r) * 2 ^ 28
    + r.csrc_count * 2 ^ 24
    + flag r.fields.marker * 2 ^ 23
    + r.payload_type * 2 ^ 16
    + r.fields.seq_no

abbrev pub extension_bytes : Option Extension → List ℕ
extension_bytes none = []
extension_bytes (some x) = put_uint32 (x.profile * 2 ^ 16 + x.words) ++ x.content

abbrev pub padding_bytes : ℕ → List ℕ
padding_bytes zero = []
padding_bytes (suc n) = replicate n 0 ++ (suc n ∷ [])

abbrev pub packet_bytes : RtpPacket → List ℕ
packet_bytes r =
    put_uint32 (first_word r)
    ++ (put_uint32 r.fields.timestamp
        ++ (put_uint32 r.fields.ssrc
            ++ (r.csrcs
                ++ (extension_bytes r.extension ++ (r.payload ++ padding_bytes r.padding)))))

abbrev pub ExtensionFits : Option Extension → Type 0
ExtensionFits none = Unit {0}
ExtensionFits (some x) =
    (x.profile < 2 ^ 16) × (x.words < 2 ^ 16) × (length x.content ≡ 4 * x.words)

-- Every field fits its bits, and every part has the length that its count gives.
pub record WellFormed (r : RtpPacket) : Type 0 where
  pub payload_type_fits : r.payload_type < 2 ^ 7
  pub seq_no_fits : r.fields.seq_no < 2 ^ 16
  pub timestamp_fits : r.fields.timestamp < 2 ^ 32
  pub ssrc_fits : r.fields.ssrc < 2 ^ 32
  pub csrc_count_fits : r.csrc_count < 2 ^ 4
  pub csrcs_length : length r.csrcs ≡ 4 * r.csrc_count
  pub extension_fits : ExtensionFits r.extension
  pub padding_fits : r.padding < 2 ^ 8

-- The packet's buffer holds these bytes between its head and its tail.
pub record Holds (p : BufferedPacket) (bytes : List ℕ) : Type 0 where
  pub window : take (length bytes) (drop p.head p.buffer) ≡ bytes
  pub span : p.head + length bytes ≡ p.tail
  pub within : p.tail ≤ length p.buffer
  pub bounded : length p.buffer + 2 ^ 18 < 2 ^ 32
