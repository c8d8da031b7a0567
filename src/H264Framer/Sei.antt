-- ===== src/H264Framer/Sei.antt =====
-- livemedia/h264_video_stream_framer_linux_amd64.go: the walk over the payloads of an SEI unit.
use dorsvr.Common.{
  ℕ, zero, suc, ◌+◌, ◌-◌, ◌≤◌, ◌<◌, ◌≡◌, refl, true, false, ◌&&◌, ◌==◌, List, Option, none, some,
  ◌>>=◌, length, replicate, arith, dec_lt, ltb, leb, length-replicate, le→ltb, lt→ltb, Bool-cases,
  inl, inr, get_or, get_elem?, get_elem?-eq-get_or, lt→leb, le→leb,
}
use dorsvr.H264Framer.{H264VideoStreamParser}
use dorsvr.H264Framer.Emulation.{remove_emulation_bytes, sei_max_size}
use dorsvr.H264Framer.Finishes.{removes_total}

-- The two inner loops of `analyzeSEIData`: a number as a run of bytes 255 and a last byte. The first
-- loop, over the type, drops the sum.
unfoldable pub sei_number : ℕ → List ℕ → ℕ → ℕ → ℕ → Option (ℕ × ℕ)
sei_number zero sei size j sum = none
sei_number (suc fuel) sei size j sum = get_elem? sei j >>= λ x. elim (x == 255 && ltb j size) [
  | true ↦ sei_number fuel sei size (j + 1) (sum + x)
  | false ↦ some (sum + x, j + 1)
]

-- The outer loop; its result is the last index.
unfoldable pub sei_loop : ℕ → List ℕ → ℕ → ℕ → Option ℕ
unfolding sei_number
sei_loop zero sei size j = none
sei_loop (suc fuel) sei size j = elim (ltb j size) [
  | false ↦ some j
  | true ↦ sei_number (size + 1) sei size j 0 >>= λ t. elim (leb size t.1) [
    | true ↦ some t.1
    | false ↦ sei_number (size + 1) sei size t.1 0 >>= λ n. elim (leb size n.1) [
      | true ↦ some n.1
      | false ↦ sei_loop fuel sei size (n.1 + n.0)
    ]
  ]
]

-- `analyzeSEIData`, which keeps nothing.
unfoldable pub analyze_sei_data : H264VideoStreamParser → List ℕ → Option ℕ
unfolding remove_emulation_bytes sei_loop
analyze_sei_data p nal_unit_orig =
    remove_emulation_bytes nal_unit_orig p.video.num_saved_bytes (replicate sei_max_size 0)
      sei_max_size
    >>= λ r. sei_loop (r.1 + 1) r.0 r.1 1

sei_number_total :
    (fuel : ℕ) (sei : List ℕ) (size j sum : ℕ)
    → size < length sei
    → j ≤ size
    → size - j < fuel
    → (s k : ℕ) × (sei_number fuel sei size j sum ≡ some (s, k)) × (j < k)
unfolding sei_number
sei_number_total zero sei size j sum inside le lt = absurd (omega arith)
sei_number_total (suc fuel) sei size j sum inside le lt =
    let here = get_elem?-eq-get_or sei j 0 (omega arith) in
    let x = get_or sei j 0 in
    elim (Bool-cases (x == 255 && ltb j size)) [
      | inr f ↦ (sum + x, j + 1, rw (sei_number, here, ◌>>=◌, f) refl, omega arith)
      | inl t ↦
          let before : j < size = before_end x j size t in
          let (s, k, e, later) =
            sei_number_total fuel sei size (j + 1) (sum + x) inside (omega arith) (omega arith) in
          (s, k, rw (sei_number, here, ◌>>=◌, t) e, omega arith)
    ]
  where
    before_end : (x j size : ℕ) → (x == 255 && ltb j size) ≡ true → j < size
    before_end x j size t = ground arith

sei_loop_total :
    (fuel : ℕ) (sei : List ℕ) (size j : ℕ)
    → size < length sei
    → size - j < fuel
    → (k : ℕ) × (sei_loop fuel sei size j ≡ some k) × (size ≤ k)
unfolding sei_loop
sei_loop_total zero sei size j inside lt = absurd (omega arith)
sei_loop_total (suc fuel) sei size j inside lt = elim (dec_lt j size) [
  | no past_end ↦ (j, rw (sei_loop, le→ltb size j (omega arith)) refl, omega arith)
  | yes more ↦
      let (s, j1, e1, up1) =
        sei_number_total (size + 1) sei size j 0 inside (omega arith) (omega arith) in
      elim (dec_lt j1 size) [
        | no done1 ↦ (
          j1,
          rw (sei_loop, lt→ltb j size more, e1, ◌>>=◌, le→leb size j1 (omega arith)) refl,
          omega arith,
        )
        | yes more1 ↦
            let (n, j2, e2, up2) =
              sei_number_total (size + 1) sei size j1 0 inside (omega arith) (omega arith) in
            elim (dec_lt j2 size) [
              | no done2 ↦ (
                j2,
                rw
                    (
                      sei_loop,
                      lt→ltb j size more,
                      e1,
                      ◌>>=◌,
                      lt→leb j1 size more1,
                      e2,
                      ◌>>=◌,
                      le→leb size j2 (omega arith),
                    )
                    refl,
                omega arith,
              )
              | yes more2 ↦
                  let (k, e, at_end) = sei_loop_total fuel sei size (j2 + n) inside (omega arith) in
                  (
                    k,
                    rw
                        (
                          sei_loop,
                          lt→ltb j size more,
                          e1,
                          ◌>>=◌,
                          lt→leb j1 size more1,
                          e2,
                          ◌>>=◌,
                          lt→leb j2 size more2,
                        )
                        e,
                    at_end,
                  )
            ]
      ]
]

-- `analyzeSEIData` ends without a panic, whatever the bytes of the unit are, when the bytes saved
-- lie in the buffer and are fewer than 5,000: the walk over the payloads comes to the end.
pub analyze_sei_data_total :
    (p : H264VideoStreamParser) (nal_unit_orig : List ℕ)
    → p.video.num_saved_bytes ≤ length nal_unit_orig
    → p.video.num_saved_bytes < 5000
    → (k : ℕ) × (analyze_sei_data p nal_unit_orig ≡ some k)
unfolding analyze_sei_data
analyze_sei_data_total p orig inside short =
    let (sei, size, e, fewer, _, len) =
      removes_total orig (replicate sei_max_size 0) p.video.num_saved_bytes sei_max_size inside
        (omega (arith, length-replicate {A = ℕ} sei_max_size 0)) in
    let (k, e', _) =
      sei_loop_total (size + 1) sei size 1
        (omega (arith, len, length-replicate {A = ℕ} sei_max_size 0)) (omega arith) in
    (k, rw (e, e') refl)
