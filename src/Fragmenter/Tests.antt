-- ===== src/Fragmenter/Tests.antt =====
-- A fragmenter with a buffer of 12 bytes and packets of 5: a NAL unit of 9 bytes goes out in three
-- fragments.
use dorsvr.Common.{
  ℕ, ◌+◌, ◌≡◌, ◌≤◌, refl, List, [], ◌∷◌, some, length, All, replicate, arith, zero_time,
}
use dorsvr.Fragmenter.{Fragmenter, new_fragmenter}
use dorsvr.Fragmenter.Spec.{fragments, later_fragments, reassemble}
use dorsvr.Fragmenter.Client.{IsReady, marked}
use dorsvr.Fragmenter.Frames.{IsWaiting, unit_frames, unit_frames-fragments}
use dorsvr.Fragmenter.Reassembly.{unit_frames_roundtrip}

abbrev small : Fragmenter
small = new_fragmenter 12 5

abbrev body : List ℕ
body = 1 ∷ 2 ∷ 3 ∷ 4 ∷ 5 ∷ 6 ∷ 7 ∷ 8 ∷ []

abbrev client_buffer : List ℕ
client_buffer = replicate 6 0

small-IsReady : IsReady small client_buffer 6
unfolding new_fragmenter
small-IsReady = record {
  idle = refl;
  min_size = omega arith;
  room = omega arith;
  in_buff = omega arith;
}

small-IsWaiting : IsWaiting small (length body + 1)
unfolding new_fragmenter
small-IsWaiting = record {
  empty = refl;
  at_start = refl;
  sized = refl;
  small = omega arith;
  has_room = omega arith;
}

fragments_test :
    fragments 5 0x65 body
    ≡ (0x7c ∷ 0x85 ∷ 1 ∷ 2 ∷ 3 ∷ [])
      ∷ (0x7c ∷ 0x05 ∷ 4 ∷ 5 ∷ 6 ∷ [])
      ∷ (0x7c ∷ 0x45 ∷ 7 ∷ 8 ∷ [])
      ∷ []
unfolding fragments later_fragments
fragments_test = refl

unit_frames-fragments_example :
    unit_frames 10 small (0x65 ∷ body) 0 zero_time client_buffer 6
    ≡ some (marked (fragments 5 0x65 body))
unfolding new_fragmenter
unit_frames-fragments_example =
    unit_frames-fragments small 0x65 body 0 zero_time client_buffer 6 small-IsReady small-IsWaiting
      (omega arith)

unit_frames_roundtrip_example :
    (frames : List (List ℕ)) × (unit_frames 10 small (0x65 ∷ body) 0 zero_time client_buffer 6
      ≡ some (marked frames))
    × All (λ x. length x ≤ 5) frames
    × (reassemble frames ≡ some (0x65 ∷ body))
unfolding new_fragmenter
unit_frames_roundtrip_example =
    unit_frames_roundtrip small 0x65 body 0 zero_time client_buffer 6 small-IsReady small-IsWaiting
      (omega arith) (omega arith)
