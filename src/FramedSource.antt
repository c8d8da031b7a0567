-- ===== src/FramedSource.antt =====
-- livemedia/framed_source.go: the base of the media sources. A callback is known by a number, and
-- `none` is nil; a method that calls one returns the call beside the new state.
use dorsvr.Common.{ℕ, Bool, true, false, List, Option, none, some, if◌then◌else◌, Timeval}

pub record FramedSource : Type 0 where
  pub after_getting_func : Option ℕ
  pub on_close_func : Option ℕ
  pub buff_to : List ℕ
  pub max_size : ℕ
  pub frame_size : ℕ
  pub num_truncated_bytes : ℕ
  pub duration_in_microseconds : ℕ
  pub is_currently_awaiting_data : Bool
  pub presentation_time : Timeval

pub data Call : Type 0 where
  after_getting_call : ℕ → ℕ → ℕ → Timeval → Call
  on_close_call : ℕ → Call

-- `GetNextFrame` up to the call of `doGetNextFrame`; `none` is its panic.
unfoldable pub get_next_frame :
    FramedSource → List ℕ → ℕ → Option ℕ → Option ℕ → Option FramedSource
get_next_frame f buff_to max_size after_getting_func on_close_func =
    if f.is_currently_awaiting_data
    then none
    else some (record f {
      buff_to = buff_to;
      max_size = max_size;
      on_close_func = on_close_func;
      after_getting_func = after_getting_func;
      is_currently_awaiting_data = true;
    })

unfoldable pub after_getting : FramedSource → FramedSource × Option Call
after_getting f = (
  record f { is_currently_awaiting_data = false },
  elim f.after_getting_func [
    | none ↦ none
    | some g ↦
        some (after_getting_call g f.frame_size f.duration_in_microseconds f.presentation_time)
  ],
)

-- The specialised action of a source is `doStopGettingFrames`, a parameter: the default does nothing.
unfoldable pub stop_getting_frames : FramedSource → FramedSource
stop_getting_frames f = record f { is_currently_awaiting_data = false }

unfoldable pub handle_closure : FramedSource → FramedSource × Option Call
unfolding stop_getting_frames
handle_closure f =
    (stop_getting_frames f, elim f.on_close_func [ none ↦ none | some g ↦ some (on_close_call g) ])

unfoldable pub max_frame_size : FramedSource → ℕ
max_frame_size f = 0

unfoldable pub is_awaiting_data : FramedSource → Bool
is_awaiting_data f = f.is_currently_awaiting_data
