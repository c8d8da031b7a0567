-- ===== src/RtpPacket/RoundTrip.antt =====
-- A packet of RFC 3550 passes the checks, and its fields and its payload are what is kept.
use dorsvr.Common.{
  ℕ, zero, suc, ◌+◌, ◌*◌, ◌^◌, ◌≡◌, refl, ap, ap₂, ◌∙◌, true, false, List, ◌++◌, Option, none, some,
  length, ◌==◌, if◌then◌else◌, le→ltb, eq→==, arith,
}
use dorsvr.Binary.{put_uint32}
use dorsvr.RtpPacket.{
  BufferedPacket, accepted, rejected, packet_data, skip, ntohl, check_payload_type, read_fields,
  check_header, parse_packet,
}
use dorsvr.RtpPacket.Spec.{
  Holds, RtpPacket, WellFormed, Extension, flag, first_word, extension_bytes, padding_bytes,
  packet_bytes,
}
use dorsvr.RtpPacket.Window.{data_size-eq, skip-eq, skip-Holds, ntohl-eq, length-put_uint32}
use dorsvr.RtpPacket.Fields.{
  flag-test, word_fits, version_field, padding_field, extension_field, count_field, marker_field,
  payload_type_field, seq_no_field,
}
use dorsvr.RtpPacket.Parts.{skip_csrcs-Passes, skip_extension-Passes, discard_padding-Passes}

extension_bit :
    (x : Option Extension)
    → flag (elim x [ none ↦ false | some _ ↦ true ]) * 2 ^ 28
      ≡ elim x [ none ↦ 0 | some _ ↦ 0x10000000 ]
extension_bit none = refl
extension_bit (some x) = refl

padding_bit :
    (n : ℕ)
    → flag (elim n [ zero ↦ false | suc _ ↦ true ]) * 2 ^ 29
      ≡ elim n [ zero ↦ 0 | suc _ ↦ 0x20000000 ]
padding_bit zero = refl
padding_bit (suc n) = refl

module _ (p : BufferedPacket) (r : RtpPacket) (wf : WellFormed r)
    (h : Holds p (packet_bytes r)) where
  abbrev word : ℕ
  word = first_word r

  abbrev behind_csrcs : List ℕ
  behind_csrcs = extension_bytes r.extension ++ (r.payload ++ padding_bytes r.padding)

  sized : length (packet_bytes r) ≡ 12 + length (r.csrcs ++ behind_csrcs)
  unfolding put_uint32
  sized = omega arith

  h1 :
      Holds
        (record p { head = p.head + 4 })
        (put_uint32 r.fields.timestamp ++ (put_uint32 r.fields.ssrc ++ (r.csrcs ++ behind_csrcs)))
  h1 = skip-Holds p 4 (put_uint32 word) _ h (omega (arith, length-put_uint32 word))

  h2 :
      Holds
        (record p { head = p.head + 4 + 4 })
        (put_uint32 r.fields.ssrc ++ (r.csrcs ++ behind_csrcs))
  h2 =
      skip-Holds (record p { head = p.head + 4 }) 4 (put_uint32 r.fields.timestamp) _ h1
        (omega (arith, length-put_uint32 r.fields.timestamp))

  h3 : Holds (record p { head = p.head + 4 + 4 + 4 }) (r.csrcs ++ behind_csrcs)
  h3 =
      skip-Holds (record p { head = p.head + 4 + 4 }) 4 (put_uint32 r.fields.ssrc) _ h2
        (omega (arith, length-put_uint32 r.fields.ssrc))

  skip1 : skip p 4 ≡ record p { head = p.head + 4 }
  skip1 = skip-eq p 4 h (omega (arith, sized))

  skip2 : skip (skip p 4) 4 ≡ record p { head = p.head + 4 + 4 }
  skip2 =
      ap (λ q. skip q 4) skip1
      ∙ skip-eq (record p { head = p.head + 4 }) 4 h1 (omega (arith, sized, h.span, h1.span))

  skip3 : skip (skip (skip p 4) 4) 4 ≡ record p { head = p.head + 4 + 4 + 4 }
  skip3 =
      ap (λ q. skip q 4) skip2
      ∙ skip-eq (record p { head = p.head + 4 + 4 }) 4 h2 (omega (arith, sized, h.span, h2.span))

  word_read : ntohl (packet_data p) ≡ word
  word_read = ntohl-eq p word _ h (word_fits r wf)

  read_fields-eq : read_fields p ≡ r.fields
  unfolding read_fields
  read_fields-eq =
      rw
        (
          word_read,
          marker_field r wf,
          flag-test r.fields.marker,
          seq_no_field r wf,
          skip2,
          skip1,
          ntohl-eq (record p { head = p.head + 4 }) r.fields.timestamp _ h1 wf.timestamp_fits,
          ntohl-eq (record p { head = p.head + 4 + 4 }) r.fields.ssrc _ h2 wf.ssrc_fits,
        )
        refl

  check_header-eq :
      (p' : BufferedPacket) × (check_header p word r.fields r.payload_type ≡ accepted p' r.fields)
      × Holds p' r.payload
  unfolding check_header check_payload_type
  check_header-eq =
      let (p4, csrcs_pass, h4) =
        skip_csrcs-Passes (record p { head = p.head + 4 + 4 + 4 }) r.csrc_count r.csrcs behind_csrcs
          h3 wf.csrcs_length wf.csrc_count_fits in
      let (p5, extension_passes, h5) =
        skip_extension-Passes p4 word r.extension _ h4 wf.extension_fits
          (extension_field r wf ∙ extension_bit r.extension) in
      let (p6, padding_passes, h6) =
        discard_padding-Passes p5 word r.padding r.payload h5 wf.padding_fits
          (padding_field r wf ∙ padding_bit r.padding) in
      (
        p6,
        rw
            (
              data_size-eq p h,
              le→ltb 12 (length (packet_bytes r)) (omega (arith, sized)),
              version_field r wf,
              skip3,
              count_field r wf,
            )
            (csrcs_pass _
              ∙ extension_passes _
              ∙ padding_passes _
              ∙ ap (λ b. if b then accepted p6 r.fields else rejected p6)
                  (ap (λ t. t == r.payload_type) (payload_type_field r wf)
                    ∙ eq→== r.payload_type r.payload_type refl)),
        h6,
      )

-- A packet of RFC 3550 in the buffer of a read packet, with any CSRC list, with or without an extension
-- and padding, passes all checks for its payload type: the marker, the sequence number, the timestamp and
-- the SSRC are read as they were sent, and what is left of the packet is exactly the payload.
pub parse_packet-packet_bytes :
    (p : BufferedPacket) (r : RtpPacket)
    → WellFormed r
    → Holds p (packet_bytes r)
    → (p' : BufferedPacket) × (parse_packet p r.payload_type ≡ accepted p' r.fields)
      × Holds p' r.payload
unfolding parse_packet
parse_packet-packet_bytes p r wf h =
    let (p', checked, held) = check_header-eq p r wf h in
    (
      p',
      ap₂ (λ hdr fields. check_header p hdr fields r.payload_type) (word_read p r wf h)
            (read_fields-eq p r wf h)
          ∙ checked,
      held,
    )
