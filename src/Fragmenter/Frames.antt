-- ===== src/Fragmenter/Frames.antt =====
-- A NAL unit goes through the fragmenter: the frames that the client finds.
use dorsvr.Common.{
  ℕ, suc, ◌+◌, ◌-◌, ◌^◌, ◌≤◌, ◌<◌, ◌≡◌, refl, ap, ◌∙◌, true, false, List, [], ◌∷◌, ◌++◌, Option,
  none, some, ◌>>=◌, length, copy, copy_at, get_or, drop, length-append, length-take, length-drop,
  take-copy, arith, leb, ◌==◌, if◌then◌else◌, le→leb, lt→leb, le→ltb, ne→==, dec_le, Timeval, ◌+u◌,
  ◌-u◌,
}
use dorsvr.FramedSource.{get_next_frame}
use dorsvr.Fragmenter.{
  Fragmenter, ask_input, delivered, deliver_from, cut_max_size, finish_delivery, do_get_next_frame,
  after_getting_frame, pull,
}
use dorsvr.Fragmenter.Spec.{fragments, fu_indicator, nal_type}
use dorsvr.Fragmenter.Client.{
  Frame, then_pull, marked, IsReady, called_back, called_back-Sending, then_pull-done,
  then_pull-more,
}
use dorsvr.Fragmenter.Later.{pull_all-later, later_fragments-not_nil}
use dorsvr.Fragmenter.Unit.{
  Loaded, whole_sent, first_sent, first_bytes, deliver_from-whole, deliver_from-first,
  first_sent-Sending,
}

-- The fragmenter waits for a unit, into a buffer that has room for `n` bytes.
pub record IsWaiting (f : Fragmenter) (n : ℕ) : Type 0 where
  pub empty : f.num_valid_data_bytes ≡ 1
  pub at_start : f.cur_data_offset ≡ 1
  pub sized : f.input_buffer_size ≡ length f.input_buffer
  pub small : length f.input_buffer + 3 < 2 ^ 64
  pub has_room : n < length f.input_buffer

-- The input source gives a unit, if the room it is asked to fill takes it, into the buffer from the
-- second byte on, and the client pulls.
unfoldable pub unit_frames :
    ℕ → Fragmenter → List ℕ → ℕ → Timeval → List ℕ → ℕ → Option (List Frame)
unit_frames fuel f unit duration time buff max = pull f buff max none none >>= elim [
  | ask_input g room ↦
      if leb (length unit) room
      then (after_getting_frame (record g { input_buffer = copy_at g.input_buffer 1 unit })
            (length unit) duration time
          >>= then_pull fuel buff max)
      else none
  | delivered _ _ ↦ none
]

-- The fragmenter with the unit, its room cut to a packet.
abbrev loaded : Fragmenter → List ℕ → ℕ → Timeval → List ℕ → Fragmenter
loaded f unit duration time buff = record f {
  framed = record f.framed {
    buff_to = buff;
    max_size = f.max_output_packet_size;
    on_close_func = none;
    after_getting_func = none;
    is_currently_awaiting_data = true;
    presentation_time = time;
    duration_in_microseconds = duration;
  };
  input_buffer = copy_at f.input_buffer 1 unit;
  num_valid_data_bytes = length unit + 1;
}

unit_frames-eq :
    (fuel : ℕ) (f : Fragmenter) (unit : List ℕ) (duration : ℕ) (time : Timeval) (buff : List ℕ)
    (max : ℕ)
    → IsReady f buff max
    → IsWaiting f (length unit)
    → 1 ≤ length unit
    → unit_frames fuel f unit duration time buff max
      ≡ (deliver_from (loaded f unit duration time buff) >>= λ g. some (finish_delivery g))
        >>= then_pull fuel buff max
unfolding unit_frames pull get_next_frame do_get_next_frame after_getting_frame cut_max_size
unit_frames-eq fuel f unit duration time buff max r w pos =
    rw (r.idle, w.empty, room, leb_room, grown, not_one, le→ltb f.max_output_packet_size max r.room)
      refl
  where
    room : f.input_buffer_size -u 1 ≡ length f.input_buffer - 1
    room = omega (arith, w.sized, w.small, w.has_room)

    leb_room : leb (length unit) (length f.input_buffer - 1) ≡ true
    leb_room = le→leb (length unit) (length f.input_buffer - 1) (omega (arith, w.has_room))

    grown : 1 +u length unit ≡ length unit + 1
    grown = omega (arith, w.small, w.has_room)

    not_one : (length unit + 1 == 1) ≡ false
    not_one = ne→== (length unit + 1) 1 (omega arith)

copy-eq {ℓ} :
    {A : Type ℓ} (dst src : List A)
    → length src ≤ length dst
    → copy dst src ≡ src ++ drop (length src) dst
copy-eq [] [] le = refl
copy-eq [] (x ∷ src) le = absurd (omega arith)
copy-eq (d ∷ dst) [] le = refl
copy-eq (d ∷ dst) (x ∷ src) le = ap (λ r. x ∷ r) (copy-eq dst src (omega arith))

copy_at-front :
    (ib : List ℕ) (h : ℕ) (body : List ℕ)
    → length body + 2 ≤ length ib
    → copy_at ib 1 (h ∷ body) ≡ get_or ib 0 0 ∷ h ∷ body ++ drop (suc (suc (length body))) ib
copy_at-front [] h body le = absurd (omega arith)
copy_at-front (x ∷ []) h body le = absurd (omega arith)
copy_at-front (x ∷ y ∷ ys) h body le = ap (λ r. x ∷ h ∷ r) (copy-eq ys body (omega arith))

module _ (f : Fragmenter) (h : ℕ) (body : List ℕ) (duration : ℕ) (time : Timeval) (buff : List ℕ)
    (max : ℕ) (r : IsReady f buff max) (w : IsWaiting f (length body + 1)) (byte : h < 256) where
  abbrev tail : List ℕ
  tail = drop (suc (suc (length body))) f.input_buffer

  abbrev start : Fragmenter
  start = loaded f (h ∷ body) duration time buff

  start-Loaded : Loaded start (get_or f.input_buffer 0 0) h body tail
  start-Loaded = record {
    buffer = copy_at-front f.input_buffer h body (omega (arith, w.has_room));
    valid = omega arith;
    cursor = w.at_start;
    small = omega (
      arith,
      length-append body tail,
      length-drop (suc (suc (length body))) f.input_buffer,
      w.small,
      w.has_room,
    );
    byte = byte;
  }

  unit_frames-then :
      {g : Fragmenter} (fuel : ℕ)
      → deliver_from start ≡ some g
      → unit_frames fuel f (h ∷ body) duration time buff max
        ≡ then_pull fuel buff max (finish_delivery g)
  unit_frames-then {g} fuel e =
      unit_frames-eq fuel f (h ∷ body) duration time buff max r
        (record {
          empty = w.empty;
          at_start = w.at_start;
          sized = w.sized;
          small = w.small;
          has_room = omega (arith, w.has_room);
        })
        (omega arith)
      ∙ ap (λ o. (o >>= λ g. some (finish_delivery g)) >>= then_pull fuel buff max) e

  -- A waiting fragmenter whose packets have at least 4 bytes, and whose client leaves room for a packet,
  -- delivers a NAL unit of header `h` and bytes `body` that fits its input buffer as exactly the frames of
  -- the specification, in order, only the last of them marked as completing the unit; then it asks its
  -- input for the next unit. No index or slice bound is out of range on the way.
  pub unit_frames-fragments :
      unit_frames (suc (suc (length body))) f (h ∷ body) duration time buff max
      ≡ some (marked (fragments f.max_output_packet_size h body))
  unfolding fragments
  unit_frames-fragments = elim (dec_le (length body + 1) f.max_output_packet_size) [
    | yes fits ↦
        unit_frames-then (suc (suc (length body))) (deliver_from-whole start start-Loaded fits)
        ∙ then_pull-done buff max (whole_sent start h body) (suc (length body)) (omega arith)
            (record { idle = refl; min_size = r.min_size; room = r.room; in_buff = r.in_buff })
        ∙ rw
            (
              le→leb (length body + 1) f.max_output_packet_size fits,
              take-copy (length body + 1) buff (h ∷ body) (omega arith)
                  (omega (arith, r.room, r.in_buff)),
            )
            refl
    | no over ↦
        unit_frames-then (suc (suc (length body)))
          (deliver_from-first start start-Loaded (omega (arith, r.min_size)) (omega arith))
        ∙ then_pull-more buff max (first_sent start h body tail) (suc (suc (length body)))
            (omega arith)
            (pull_all-later (length body) (called_back (first_sent start h body tail)) buff max
              (record { idle = refl; min_size = r.min_size; room = r.room; in_buff = r.in_buff })
              (called_back-Sending (first_sent start h body tail)
                (first_sent-Sending start start-Loaded r.min_size (omega arith)))
              (omega (arith, length-drop (f.max_output_packet_size - 2) body)))
        ∙ rw
            (
              lt→leb f.max_output_packet_size (length body + 1) (omega arith),
              take-copy f.max_output_packet_size buff (first_bytes f.max_output_packet_size h body)
                  (omega (arith, length-take (f.max_output_packet_size - 2) body, r.min_size))
                  (omega (arith, r.room, r.in_buff)),
              later_fragments-not_nil (length body) (f.max_output_packet_size - 2) (fu_indicator h)
                  (nal_type h) (drop (f.max_output_packet_size - 2) body)
                  (omega (arith, r.min_size)),
            )
            refl
  ]
