-- ===== src/H264Framer/Reads.antt =====
-- livemedia/h264_video_stream_framer_linux_amd64.go: the headers are read to their end, whatever
-- the bits are.
use dorsvr.Common.{
  ℕ, ◌≤◌, Bool, true, false, not, ◌==◌, Option, none, some, ◌>>=◌, if◌then◌else◌, arith,
}
use dorsvr.BitVector.{BitVector, get_bits, get1_bit, get1_bit_boolean, skip_bits, get_exp_golomb}
use dorsvr.BitVector.Spec.{IsValid}
use dorsvr.BitVector.Read.{get_bits_lem, skip_bits_lem, get1_bit-eq-get_bits}
use dorsvr.BitVector.Golomb.{get_exp_golomb_total}
use dorsvr.H264Framer.{H264VideoStreamParser}
use dorsvr.H264Framer.Headers.{
  read_if, field_flags, slice_header_from, timing_info, skip_aspect_ratio, skip_video_signal_type,
  skip_two_golomb, analyze_vui_parameters, no_sps_data,
}

-- The bits were read without a panic, and what is left is a valid vector.
abbrev pub Reads : {A : Type 0} → Option (A × BitVector) → Type 0
Reads none = ⊥
Reads (some (a, v)) = IsValid v

pub Reads-bind :
    {A B : Type 0} (o : Option (A × BitVector)) (f : A × BitVector → Option (B × BitVector))
    → Reads o
    → ((a : A) (v : BitVector) → IsValid v → Reads (f (a, v)))
    → Reads (o >>= f)
Reads-bind none f h k = absurd h
Reads-bind (some (a, v)) f h k = k a v h

pub read_if-Reads :
    {A : Type 0} (b : Bool) (a : A) (f : BitVector → Option (A × BitVector)) (v : BitVector)
    → IsValid v
    → ((w : BitVector) → IsValid w → Reads (f w))
    → Reads (read_if b a f v)
read_if-Reads true a f v h k = k v h
read_if-Reads false a f v h k = h

pub if-IsValid : (b : Bool) (v w : BitVector) → IsValid v → IsValid w → IsValid (if b then v else w)
if-IsValid true v w h k = h
if-IsValid false v w h k = k

pub get_bits-Reads : (v : BitVector) (n : ℕ) → IsValid v → Reads (get_bits v n)
get_bits-Reads v n h =
    rw (get_bits_lem v n h)
      (record { cursor_in = omega (arith, h.cursor_in); bits_in = h.bits_in; no_wrap = h.no_wrap })

pub get1_bit-Reads : (v : BitVector) → IsValid v → Reads (get1_bit v)
get1_bit-Reads v h = rw (get1_bit-eq-get_bits v h) (get_bits-Reads v 1 h)

pub get1_bit_boolean-Reads : (v : BitVector) → IsValid v → Reads (get1_bit_boolean v)
unfolding get1_bit_boolean
get1_bit_boolean-Reads v h =
    Reads-bind (get1_bit v) (λ r. some (not (r.0 == 0), r.1)) (get1_bit-Reads v h) (λ a w k. k)

pub get_exp_golomb-Reads : (v : BitVector) → IsValid v → Reads (get_exp_golomb v)
get_exp_golomb-Reads v h =
    let (number, k, e, le, in_bits) = get_exp_golomb_total v h in
    rw e (record { cursor_in = in_bits; bits_in = h.bits_in; no_wrap = h.no_wrap })

pub skip_bits-IsValid : (v : BitVector) (n : ℕ) → IsValid v → n ≤ 32 → IsValid (skip_bits v n)
skip_bits-IsValid v n h le =
    rw (skip_bits_lem v n h le)
      (record { cursor_in = omega (arith, h.cursor_in); bits_in = h.bits_in; no_wrap = h.no_wrap })

field_flags-Reads : (v : BitVector) → IsValid v → Reads (field_flags v)
unfolding field_flags
field_flags-Reads v h =
    Reads-bind (get1_bit_boolean v) _ (get1_bit_boolean-Reads v h) (λ field v1 h1.
      Reads-bind (read_if field false get1_bit_boolean v1) _
        (read_if-Reads field false get1_bit_boolean v1 h1 get1_bit_boolean-Reads) (λ a w k. k))

pub slice_header_from-Reads :
    (p : H264VideoStreamParser) (nal_unit_type : ℕ) (v : BitVector)
    → IsValid v
    → Reads (slice_header_from p nal_unit_type v)
unfolding slice_header_from
slice_header_from-Reads p nal_unit_type v h =
    Reads-bind (get_exp_golomb (skip_bits v 8)) _
      (get_exp_golomb-Reads (skip_bits v 8) (skip_bits-IsValid v 8 h (omega arith)))
      (λ _ v1 h1. Reads-bind (get_exp_golomb v1) _ (get_exp_golomb-Reads v1 h1) (λ _ v2 h2.
        Reads-bind (get_exp_golomb v2) _ (get_exp_golomb-Reads v2 h2) (λ _ v3 h3.
          let v4 = if p.separate_colour_plane_flag then skip_bits v3 2 else v3 in
          let h4 =
            if-IsValid p.separate_colour_plane_flag (skip_bits v3 2) v3
              (skip_bits-IsValid v3 2 h3 (omega arith)) h3 in
          Reads-bind (get_bits v4 p.log2_max_frame_num) _
            (get_bits-Reads v4 p.log2_max_frame_num h4)
            (λ _ v5 h5.
              Reads-bind (read_if (not p.frame_mbs_only_flag) (false, false) field_flags v5) _
                (read_if-Reads (not p.frame_mbs_only_flag) (false, false) field_flags v5 h5
                  field_flags-Reads)
                (λ _ v6 h6.
                  Reads-bind (read_if (nal_unit_type == 5) 0 get_exp_golomb v6) _
                    (read_if-Reads (nal_unit_type == 5) 0 get_exp_golomb v6 h6 get_exp_golomb-Reads)
                    (λ _ v7 h7. h7))))))

timing_info-Reads : (v : BitVector) → IsValid v → Reads (timing_info v)
unfolding timing_info
timing_info-Reads v h = Reads-bind (get_bits v 32) _ (get_bits-Reads v 32 h) (λ _ v1 h1.
    Reads-bind (get_bits v1 32) _ (get_bits-Reads v1 32 h1)
      (λ _ v2 h2. Reads-bind (get1_bit v2) _ (get1_bit-Reads v2 h2) (λ _ v3 h3. h3)))

skip_aspect_ratio-Reads : (v : BitVector) → IsValid v → Reads (skip_aspect_ratio v)
unfolding skip_aspect_ratio
skip_aspect_ratio-Reads v h = Reads-bind (get_bits v 8) _ (get_bits-Reads v 8 h) (λ idc v1 h1.
    if-IsValid (idc == 255) (skip_bits v1 32) v1 (skip_bits-IsValid v1 32 h1 (omega arith)) h1)

skip_video_signal_type-Reads : (v : BitVector) → IsValid v → Reads (skip_video_signal_type v)
unfolding skip_video_signal_type
skip_video_signal_type-Reads v h =
    Reads-bind (get1_bit (skip_bits v 4)) _
      (get1_bit-Reads (skip_bits v 4) (skip_bits-IsValid v 4 h (omega arith)))
      (λ flag v1 h1.
        if-IsValid (flag == 0) v1 (skip_bits v1 24) h1 (skip_bits-IsValid v1 24 h1 (omega arith)))

pub skip_two_golomb-Reads : (v : BitVector) → IsValid v → Reads (skip_two_golomb v)
unfolding skip_two_golomb
skip_two_golomb-Reads v h =
    Reads-bind (get_exp_golomb v) _ (get_exp_golomb-Reads v h)
      (λ _ v1 h1. get_exp_golomb-Reads v1 h1)

-- A flag, and what it announces.
pub flagged-Reads :
    {A B : Type 0} (a : A) (f : BitVector → Option (A × BitVector)) (v : BitVector)
    (k : A × BitVector → Option (B × BitVector))
    → IsValid v
    → ((w : BitVector) → IsValid w → Reads (f w))
    → ((x : A) (w : BitVector) → IsValid w → Reads (k (x, w)))
    → Reads (get1_bit v >>= λ r. read_if (not (r.0 == 0)) a f r.1 >>= k)
flagged-Reads a f v k h reads_f reads_k =
    Reads-bind (get1_bit v) _ (get1_bit-Reads v h) (λ bit w hw.
      Reads-bind (read_if (not (bit == 0)) a f w) k
        (read_if-Reads (not (bit == 0)) a f w hw reads_f) reads_k)

pub analyze_vui_parameters-Reads : (v : BitVector) → IsValid v → Reads (analyze_vui_parameters v)
unfolding analyze_vui_parameters
analyze_vui_parameters-Reads v h =
    flagged-Reads 0 skip_aspect_ratio v _ h skip_aspect_ratio-Reads (λ _ v2 h2.
      Reads-bind (get1_bit v2) _ (get1_bit-Reads v2 h2) (λ overscan v3 h3.
        let v4 = if overscan == 0 then v3 else skip_bits v3 1 in
        let h4 =
          if-IsValid (overscan == 0) v3 (skip_bits v3 1) h3
            (skip_bits-IsValid v3 1 h3 (omega arith)) in
        flagged-Reads 0 skip_video_signal_type v4 _ h4 skip_video_signal_type-Reads (λ _ v6 h6.
          flagged-Reads 0 skip_two_golomb v6 _ h6 skip_two_golomb-Reads (λ _ v8 h8.
            Reads-bind (get1_bit v8) _ (get1_bit-Reads v8 h8) (λ timing v9 h9.
              read_if-Reads (not (timing == 0)) no_sps_data timing_info v9 h9 timing_info-Reads)))))
