-- ===== src/H264Framer/SpsReads.antt =====
-- livemedia/h264_video_stream_framer_linux_amd64.go: a sequence parameter set is read to its
-- end, whatever the bits are.
use dorsvr.Common.{
  ℕ, zero, suc, ◌+◌, Bool, true, false, not, ◌==◌, Option, if◌then◌else◌, arith, ltb,
}
use dorsvr.BitVector.{BitVector, get_bits, get1_bit, get1_bit_boolean, skip_bits, get_exp_golomb}
use dorsvr.BitVector.Spec.{IsValid}
use dorsvr.H264Framer.Headers.{
  read_if, skip_two_golomb, analyze_vui_parameters, scaling_list, scaling_lists, high_profile,
  is_high_profile, skip_golombs, order_cycle, pic_order_cnt, frame_size, sps_data_from, no_sps_data,
}
use dorsvr.H264Framer.Reads.{
  Reads, Reads-bind, read_if-Reads, if-IsValid, get_bits-Reads, get1_bit-Reads,
  get1_bit_boolean-Reads, get_exp_golomb-Reads, skip_bits-IsValid, skip_two_golomb-Reads,
  flagged-Reads, analyze_vui_parameters-Reads,
}

scaling_list-Reads :
    (size last_scale next_scale : ℕ) (v : BitVector)
    → IsValid v
    → Reads (scaling_list size last_scale next_scale v)
unfolding scaling_list
scaling_list-Reads zero last_scale next_scale v h = h
scaling_list-Reads (suc size) last_scale next_scale v h =
    Reads-bind (read_if (not (next_scale == 0)) 0 get_exp_golomb v) _
      (read_if-Reads (not (next_scale == 0)) 0 get_exp_golomb v h get_exp_golomb-Reads)
      (λ a w hw. scaling_list-Reads size _ _ w hw)

scaling_lists-Reads : (left i : ℕ) (v : BitVector) → IsValid v → Reads (scaling_lists left i v)
unfolding scaling_lists
scaling_lists-Reads zero i v h = h
scaling_lists-Reads (suc left) i v h =
    flagged-Reads 0 (scaling_list (if ltb i 6 then 16 else 24) 8 8) v _ h
      (scaling_list-Reads (if ltb i 6 then 16 else 24) 8 8)
      (λ _ w hw. scaling_lists-Reads left (i + 1) w hw)

high_profile-Reads : (v : BitVector) → IsValid v → Reads (high_profile v)
unfolding high_profile
high_profile-Reads v h = Reads-bind (get_exp_golomb v) _ (get_exp_golomb-Reads v h) (λ format v1 h1.
    Reads-bind (read_if (format == 3) 0 get1_bit v1) _
      (read_if-Reads (format == 3) 0 get1_bit v1 h1 get1_bit-Reads)
      (λ _ v2 h2. Reads-bind (skip_two_golomb v2) _ (skip_two_golomb-Reads v2 h2) (λ _ v3 h3.
        Reads-bind (get1_bit (skip_bits v3 1)) _
          (get1_bit-Reads (skip_bits v3 1) (skip_bits-IsValid v3 1 h3 (omega arith)))
          (λ flag v4 h4.
            read_if-Reads (not (flag == 0)) 0 (scaling_lists (if format == 3 then 12 else 8) 0) v4
              h4 (scaling_lists-Reads (if format == 3 then 12 else 8) 0)))))

skip_golombs-Reads : (n : ℕ) (v : BitVector) → IsValid v → Reads (skip_golombs n v)
unfolding skip_golombs
skip_golombs-Reads zero v h = h
skip_golombs-Reads (suc n) v h =
    Reads-bind (get_exp_golomb v) _ (get_exp_golomb-Reads v h) (λ _ w hw. skip_golombs-Reads n w hw)

order_cycle-Reads : (v : BitVector) → IsValid v → Reads (order_cycle v)
unfolding order_cycle
order_cycle-Reads v h =
    Reads-bind (skip_two_golomb (skip_bits v 1)) _
      (skip_two_golomb-Reads (skip_bits v 1) (skip_bits-IsValid v 1 h (omega arith)))
      (λ _ v1 h1.
        Reads-bind (get_exp_golomb v1) _ (get_exp_golomb-Reads v1 h1)
          (λ n v2 h2. skip_golombs-Reads n v2 h2))

pic_order_cnt-Reads : (t : ℕ) (v : BitVector) → IsValid v → Reads (pic_order_cnt t v)
unfolding pic_order_cnt
pic_order_cnt-Reads t v h =
    if-Reads (t == 0) (get_exp_golomb v) (read_if (t == 1) 0 order_cycle v)
      (get_exp_golomb-Reads v h) (read_if-Reads (t == 1) 0 order_cycle v h order_cycle-Reads)
  where
    if-Reads :
        (b : Bool) (x y : Option (ℕ × BitVector)) → Reads x → Reads y → Reads (if b then x else y)
    if-Reads true x y hx hy = hx
    if-Reads false x y hx hy = hy

frame_size-Reads : (v : BitVector) → IsValid v → Reads (frame_size v)
unfolding frame_size
frame_size-Reads v h = Reads-bind (get_exp_golomb v) _ (get_exp_golomb-Reads v h) (λ _ v1 h1.
    Reads-bind (get1_bit v1) _ (get1_bit-Reads v1 h1) (λ _ v2 h2.
      Reads-bind (skip_two_golomb v2) _ (skip_two_golomb-Reads v2 h2) (λ _ v3 h3.
        Reads-bind (get1_bit_boolean v3) _ (get1_bit_boolean-Reads v3 h3) (λ only v4 h4.
          let v5 = if only then v4 else skip_bits v4 1 in
          let h5 =
            if-IsValid only v4 (skip_bits v4 1) h4 (skip_bits-IsValid v4 1 h4 (omega arith)) in
          Reads-bind (get1_bit (skip_bits v5 1)) _
            (get1_bit-Reads (skip_bits v5 1) (skip_bits-IsValid v5 1 h5 (omega arith)))
            (λ crop v6 h6.
              read_if-Reads (not (crop == 0)) 0 (skip_golombs 4) v6 h6 (skip_golombs-Reads 4))))))

pub sps_data_from-Reads : (v : BitVector) → IsValid v → Reads (sps_data_from v)
unfolding sps_data_from
sps_data_from-Reads v h =
    Reads-bind (get_bits (skip_bits v 8) 8) _
      (get_bits-Reads (skip_bits v 8) 8 (skip_bits-IsValid v 8 h (omega arith)))
      (λ profile v1 h1. Reads-bind (get_bits v1 8) _ (get_bits-Reads v1 8 h1) (λ _ v2 h2.
        Reads-bind (get_bits v2 8) _ (get_bits-Reads v2 8 h2) (λ _ v3 h3.
          Reads-bind (get_exp_golomb v3) _ (get_exp_golomb-Reads v3 h3) (λ _ v4 h4.
            Reads-bind (read_if (is_high_profile profile) 0 high_profile v4) _
              (read_if-Reads (is_high_profile profile) 0 high_profile v4 h4 high_profile-Reads)
              (λ _ v5 h5. Reads-bind (get_exp_golomb v5) _ (get_exp_golomb-Reads v5 h5) (λ _ v6 h6.
                Reads-bind (get_exp_golomb v6) _ (get_exp_golomb-Reads v6 h6) (λ order v7 h7.
                  Reads-bind (pic_order_cnt order v7) _ (pic_order_cnt-Reads order v7 h7)
                    (λ _ v8 h8. Reads-bind (frame_size v8) _ (frame_size-Reads v8 h8) (λ _ v9 h9.
                      flagged-Reads no_sps_data analyze_vui_parameters v9 _ h9
                        analyze_vui_parameters-Reads (λ _ v11 h11. h11))))))))))
