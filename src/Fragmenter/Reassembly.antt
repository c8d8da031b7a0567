-- ===== src/Fragmenter/Reassembly.antt =====
-- A receiver puts the frames of a NAL unit together again.
use dorsvr.Common.{
  ℕ, zero, suc, ◌+◌, ◌-◌, ◌*◌, ◌/◌, ◌%◌, ◌≤◌, ◌<◌, ◌≡◌, ◌≢◌, refl, List, [], ◌∷◌, some, length,
  drop, length-take, length-drop, take-append-drop, arith, le→leb, lt→leb, ne→==, eq→==, dec_le,
  All, Timeval,
}
use dorsvr.Fragmenter.{Fragmenter}
use dorsvr.Fragmenter.Spec.{fragments, later_fragments, reassemble, collect, fu_indicator, nal_type}
use dorsvr.Fragmenter.Frames.{IsWaiting, unit_frames, unit_frames-fragments}
use dorsvr.Fragmenter.Client.{marked, IsReady}

-- The fragments behind the first one, as the receiver collects them.
collect-later :
    (n chunk i t : ℕ) (rest : List ℕ)
    → 1 ≤ chunk
    → 1 ≤ length rest
    → length rest ≤ n
    → collect i t (later_fragments n chunk i t rest) ≡ some rest
unfolding later_fragments collect
collect-later zero chunk i t rest hc pos le = absurd (omega arith)
collect-later (suc n) chunk i t rest hc pos le = elim (dec_le (length rest) chunk) [
  | yes fits ↦
      rw (le→leb (length rest) chunk fits, eq→== i i refl, eq→== (t + 64) (t + 64) refl) refl
  | no over ↦
      rw
        (
          lt→leb chunk (length rest) (omega arith),
          eq→== i i refl,
          ne→== t (t + 64) (omega arith),
          eq→== t t refl,
          collect-later n chunk i t (drop chunk rest) hc (omega (arith, length-drop chunk rest))
              (omega (arith, length-drop chunk rest)),
          take-append-drop chunk rest,
        )
        refl
]

reassemble-whole :
    (h : ℕ) (body : List ℕ) → h % 32 ≢ 28 → reassemble ((h ∷ body) ∷ []) ≡ some (h ∷ body)
unfolding reassemble
reassemble-whole h [] type = refl
reassemble-whole h (b ∷ body) type = rw (ne→== (h % 32) 28 type) refl

reassemble-fragments :
    (size h : ℕ) (body : List ℕ)
    → 4 ≤ size
    → h % 32 ≢ 28
    → reassemble (fragments size h body) ≡ some (h ∷ body)
unfolding reassemble fragments
reassemble-fragments size h body hs type = elim (dec_le (length body + 1) size) [
  | yes fits ↦ rw (le→leb (length body + 1) size fits) (reassemble-whole h body type)
  | no over ↦
      rw
        (
          lt→leb size (length body + 1) (omega arith),
          eq→== (fu_indicator h % 32) 28 (omega arith),
          eq→== ((128 + nal_type h) / 64) 2 (omega arith),
          type_bits,
          collect-later (length body) (size - 2) (fu_indicator h) (nal_type h)
              (drop (size - 2) body) (omega arith) (omega (arith, length-drop (size - 2) body))
              (omega (arith, length-drop (size - 2) body)),
          header,
          take-append-drop (size - 2) body,
        )
        refl
]
  where
    type_bits : (128 + nal_type h) % 32 ≡ nal_type h
    type_bits = omega arith

    header : fu_indicator h / 32 * 32 + nal_type h ≡ h
    header = omega arith

later_fragments-All :
    (n size chunk i t : ℕ) (rest : List ℕ)
    → chunk + 2 ≤ size
    → All (λ x. length x ≤ size) (later_fragments n chunk i t rest)
unfolding later_fragments
later_fragments-All zero size chunk i t rest h = tt
later_fragments-All (suc n) size chunk i t rest h = elim (dec_le (length rest) chunk) [
  | yes fits ↦ rw (le→leb (length rest) chunk fits) (omega arith, tt)
  | no over ↦ rw (lt→leb chunk (length rest) (omega arith)) (
    omega (arith, length-take chunk rest),
    later_fragments-All n size chunk i t (drop chunk rest) h,
  )
]

fragments-All :
    (size h : ℕ) (body : List ℕ) → 2 ≤ size → All (λ x. length x ≤ size) (fragments size h body)
unfolding fragments
fragments-All size h body two = elim (dec_le (length body + 1) size) [
  | yes fits ↦ rw (le→leb (length body + 1) size fits) (omega arith, tt)
  | no over ↦ rw (lt→leb size (length body + 1) (omega arith)) (
    omega (arith, length-take (size - 2) body),
    later_fragments-All (length body) size (size - 2) (fu_indicator h) (nal_type h)
        (drop (size - 2) body) (omega arith),
  )
]

-- A NAL unit of another type than 28 that goes through a waiting fragmenter comes out as frames that are
-- each within the packet size, and from which a receiver of RFC 6184 gets the unit back.
pub unit_frames_roundtrip :
    (f : Fragmenter) (h : ℕ) (body : List ℕ) (duration : ℕ) (time : Timeval) (buff : List ℕ)
    (max : ℕ)
    → IsReady f buff max
    → IsWaiting f (length body + 1)
    → h < 256
    → h % 32 ≢ 28
    → (frames : List (List ℕ)) × (unit_frames
          (suc (suc (length body)))
          f
          (h ∷ body)
          duration
          time
          buff
          max
        ≡ some (marked frames))
      × All (λ x. length x ≤ f.max_output_packet_size) frames
      × (reassemble frames ≡ some (h ∷ body))
unit_frames_roundtrip f h body duration time buff max r w byte type = (
  fragments f.max_output_packet_size h body,
  unit_frames-fragments f h body duration time buff max r w byte,
  fragments-All f.max_output_packet_size h body (omega (arith, r.min_size)),
  reassemble-fragments f.max_output_packet_size h body r.min_size type,
)
