-- ===== src/H264Framer/Finishes.antt =====
-- livemedia/h264_video_stream_framer_linux_amd64.go: the units that are analysed are read to their
-- end.
use dorsvr.Common.{
  ℕ, ◌+◌, ◌*◌, ◌^◌, ◌≤◌, ◌<◌, ◌≡◌, refl, sym, List, [], ◌∷◌, Option, none, some, length, take, drop,
  replicate, arith, dec_lt, ◌*u◌, ◌-u◌, length-take, length-replicate, take-append-drop, le→ltb,
  lt→ltb, Bool-cases, inl, inr,
}
use dorsvr.BitVector.{BitVector, new_bit_vector}
use dorsvr.BitVector.Spec.{IsValid}
use dorsvr.H264Framer.{H264VideoStreamParser}
use dorsvr.H264Framer.Emulation.{remove_emulation_bytes, unescape, emulates, sps_max_size}
use dorsvr.H264Framer.Escape.{remove_loop-Removes}
use dorsvr.H264Framer.Headers.{
  SliceHeader, SeqParameterSet, analyze_slice_header, analyze_sps_data, sps_data_from,
  slice_header_from,
}
use dorsvr.H264Framer.Reads.{Reads, slice_header_from-Reads}
use dorsvr.H264Framer.SpsReads.{sps_data_from-Reads}

length-unescape : (l : List ℕ) → length (unescape l) ≤ length l
length-unescape [] = omega arith
length-unescape (a ∷ []) = omega arith
length-unescape (a ∷ b ∷ []) = omega arith
length-unescape (a ∷ b ∷ c ∷ r) =
    let one = length-unescape (b ∷ c ∷ r) in
    let three = length-unescape r in
    elim (Bool-cases (emulates a b c)) [
      | inl t ↦ rw (unescape, t) (omega (arith, three))
      | inr f ↦ rw (unescape, f) (omega (arith, one))
    ]

-- Whatever the bytes are, a copy without emulation is made where the slice has room.
pub removes_total :
    (orig out : List ℕ) (n max_size : ℕ)
    → n ≤ length orig
    → max_size ≤ length out
    → (out' : List ℕ) × (size : ℕ) × (remove_emulation_bytes orig n out max_size
        ≡ some (out', size))
      × (size ≤ n)
      × (size ≤ max_size)
      × (length out' ≡ length out)
unfolding remove_emulation_bytes
removes_total orig out n max_size inside room = elim (dec_lt max_size n) [
  | yes long ↦ (out, 0, rw (lt→ltb max_size n long) refl, omega arith, omega arith, refl)
  | no short ↦
      let (out', e, _, len) =
        remove_loop-Removes (n + 1) orig [] (take n orig) (drop n orig) out n 0 0
          (sym (take-append-drop n orig)) refl (omega (arith, size_taken))
          (omega (arith, size_taken)) (omega (arith, size_taken)) in
      let fewer = length-unescape (take n orig) in
      (
        out',
        0 + length (unescape (take n orig)),
        rw (le→ltb n max_size (omega arith)) e,
        omega (arith, size_taken, fewer),
        omega (arith, size_taken, fewer),
        len,
      )
]
  where
    size_taken : length (take n orig) ≡ n
    size_taken = omega (arith, length-take n orig)

new_bit_vector-IsValid :
    (bytes : List ℕ) (n : ℕ)
    → n ≤ 8 * length bytes
    → n < 2 ^ 64
    → IsValid (new_bit_vector bytes 0 n)
unfolding new_bit_vector
new_bit_vector-IsValid bytes n h lt = record {
  cursor_in = omega arith;
  bits_in = omega arith;
  no_wrap = omega arith;
}

-- A value that is read, named.
Reads-some :
    {A : Type 0} (o : Option (A × BitVector))
    → Reads o
    → (a : A) × (v : BitVector) × (o ≡ some (a, v))
Reads-some none h = absurd h
Reads-some (some (a, v)) h = (a, v, refl)

-- `analyzeSPSData` ends without a panic, whatever the bytes of the unit are, when the bytes saved
-- lie in the buffer: it returns the data of the set, and changes no field of the parser but
-- `log2MaxFrameNum`.
pub analyze_sps_data_total :
    (p : H264VideoStreamParser) (nal_unit_orig : List ℕ)
    → p.video.num_saved_bytes ≤ length nal_unit_orig
    → (sps_data : SeqParameterSet) × (k : ℕ) × (analyze_sps_data p nal_unit_orig
        ≡ some (sps_data, record p { log2_max_frame_num = k }))
unfolding analyze_sps_data
analyze_sps_data_total p orig inside =
    let (sps, size, e, _, le, len) =
      removes_total orig (replicate sps_max_size 0) p.video.num_saved_bytes sps_max_size inside
        (omega (arith, length-replicate {A = ℕ} sps_max_size 0)) in
    let (read, v, e') = Reads-some (sps_data_from (new_bit_vector sps 0 (8 *u size))) (
      sps_data_from-Reads (new_bit_vector sps 0 (8 *u size)) (
        new_bit_vector-IsValid sps (8 *u size)
          (omega (arith, len, length-replicate {A = ℕ} sps_max_size 0)) (omega arith))) in
    (read.1, read.0, rw (e, e') refl)

-- `analyzeSliceHeader` ends without a panic, whatever the bits are, when the slice it is given is
-- as long as the unit saved.
pub analyze_slice_header_total :
    (p : H264VideoStreamParser) (start : List ℕ) (nal_unit_type : ℕ)
    → p.output_start_code_size ≤ p.video.num_saved_bytes
    → p.video.num_saved_bytes < 2 ^ 60
    → p.video.num_saved_bytes ≤ p.output_start_code_size + length start
    → (header : SliceHeader) × (v : BitVector) × (analyze_slice_header p start nal_unit_type
        ≡ some (header, v))
unfolding analyze_slice_header
analyze_slice_header_total p start nal_unit_type sub small inside =
    let n = 8 *u (p.video.num_saved_bytes -u p.output_start_code_size) in
    Reads-some (slice_header_from p nal_unit_type (new_bit_vector start 0 n)) (
      slice_header_from-Reads p nal_unit_type (new_bit_vector start 0 n)
        (new_bit_vector-IsValid start n (omega arith) (omega arith)))
