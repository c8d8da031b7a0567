-- ===== src/H264Framer/Stream.antt =====
-- livemedia/h264_video_stream_framer_linux_amd64.go: a stream of units, written by an encoder, is
-- split into these units.
use dorsvr.Common.{
  ℕ, zero, suc, ◌≤◌, ◌≡◌, false, ◌&&◌, ◌==◌, List, [], ◌∷◌, ◌++◌, Option, none, some, ◌>>=◌, length,
  replicate, All,
}
use dorsvr.StreamParser.{Outcome, done, reads, panics}
use dorsvr.H264Framer.{H264VideoStreamParser, register_read_interest, save_nal_unit}
use dorsvr.H264Framer.Moved.{saved_bytes}
use dorsvr.H264Framer.Escape.{escape}

-- No three bytes of a unit are 00 00 01.
abbrev HasNoStart : List ℕ → Type 0
HasNoStart (a ∷ b ∷ c ∷ r) = ((a == 0 && b == 0 && c == 1) ≡ false) × HasNoStart (b ∷ c ∷ r)
HasNoStart _ = Unit {0}

-- The stream that an encoder writes: every unit with its emulation bytes, and a start code.
abbrev pub stream_of : List (List ℕ) → List ℕ
stream_of [] = []
stream_of (u ∷ us) = escape u ++ 0 ∷ 0 ∷ 0 ∷ 1 ∷ stream_of us

-- The reader's buffer for the next unit.
unfoldable pub begin_unit : H264VideoStreamParser → ℕ → H264VideoStreamParser
begin_unit p max_size = record p {
  video = register_read_interest p.video (replicate max_size 0) max_size;
}

abbrev collected :
    (H264VideoStreamParser → Option (List (List ℕ)))
    → Outcome H264VideoStreamParser ℕ
    → Option (List (List ℕ))
collected f (done k p) = f p >>= λ us. some (saved_bytes p.video ∷ us)
collected f (reads p n) = none
collected f panics = none

-- A reader that asks for `count` units, each into a new buffer of `max_size` bytes.
unfoldable pub read_units : ℕ → ℕ → ℕ → H264VideoStreamParser → Option (List (List ℕ))
unfolding begin_unit
read_units zero fuel max_size p = some []
read_units (suc count) fuel max_size p =
    collected (read_units count fuel max_size) (save_nal_unit fuel (begin_unit p max_size))

-- Every unit fits the buffer.
abbrev Fits : ℕ → List (List ℕ) → Type 0
Fits max_size = All (λ u. length (escape u) ≤ max_size)
